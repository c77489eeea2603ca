-- ===== src/Prelude/Assoc/Every.antt =====
-- What holds of every entry of a map that can be looked up.
use mathlib.Core.Path.{◌≡◌, refl, sym, ◌∙◌, subst}
use mathlib.Core.Logic.{inl, inr}
use mathlib.Core.List.{List}
use mathlib.Core.Option.{none, some, some_inj}
use rfircd.Prelude.Tests.{Option-cases, Bool-cases}
use rfircd.Prelude.Assoc.{
  Eq, lookup, insert, remove, modify, change, Distinct, lookup-insert, lookup-remove, lookup-modify,
}

module _ {ℓ κ μ} {K : Type ℓ} {V : Type κ} ⦃e : Eq K⦄ where
  abbrev pub Every : (K → V → Type μ) → List (K × V) → Type (ℓ ⊔ κ ⊔ μ)
  Every P m = (k : K) (v : V) → lookup k m ≡ some v → P k v

  pub Every-insert :
      (P : K → V → Type μ) (k : K) (v : V) (m : List (K × V))
      → Every P m
      → P k v
      → Every P (insert k v m)
  Every-insert P k v m every this j w h = elim (Bool-cases (e.beq k j)) [
    | inl same ↦
        let found : some v ≡ some w = sym (lookup-insert k j v m ∙ rw (same) refl) ∙ h in
        subst (λ i. P i w) ((e.beq_iff k j).0 same) (subst (P k) (some_inj.0 found) this)
    | inr other ↦ every j w (sym (lookup-insert k j v m ∙ rw (other) refl) ∙ h)
  ]

  pub Every-remove :
      (P : K → V → Type μ) (k : K) (m : List (K × V))
      → Distinct m
      → Every P m
      → Every P (remove k m)
  Every-remove P k m d every j w h = elim (Bool-cases (e.beq k j)) [
    | inl same ↦
        let found : none ≡ some w = sym (lookup-remove k j m d ∙ rw (same) refl) ∙ h in absurd (cc)
    | inr other ↦ every j w (sym (lookup-remove k j m d ∙ rw (other) refl) ∙ h)
  ]

  pub Every-modify :
      (P : K → V → Type μ) (k : K) (f : V → V) (m : List (K × V))
      → Every P m
      → ((v : V) → lookup k m ≡ some v → P k v → P k (f v))
      → Every P (modify k f m)
  Every-modify P k f m every step j w h = elim (Bool-cases (e.beq k j)) [
    | inl same ↦
        let there : change f (lookup j m) ≡ some w =
          sym (lookup-modify k j f m ∙ rw (same) refl) ∙ h in
        elim (Option-cases (lookup j m)) [
          | inl absent ↦ let found : none ≡ some w = rw (absent) at there in absurd (cc)
          | inr (v, present) ↦
              let found : some (f v) ≡ some w = rw (present) at there in
              let i = (e.beq_iff k j).0 same in
              subst (P j) (some_inj.0 found) (
                subst (λ l. P l (f v)) i
                  (step v (subst (λ l. lookup l m ≡ some v) (sym i) present)
                    (subst (λ l. P l v) (sym i) (every j v present))))
        ]
    | inr other ↦ every j w (sym (lookup-modify k j f m ∙ rw (other) refl) ∙ h)
  ]
