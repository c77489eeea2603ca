-- ===== src/Prelude/Assoc/Nested.antt =====
-- A map whose values hold maps: whether an inner key stands under an outer one.
use mathlib.Core.Path.{◌≡◌, refl, ap, ◌∙◌, subst}
use mathlib.Core.Logic.{inl, inr}
use mathlib.Core.List.{List}
use mathlib.Core.Option.{Option, none, some}
use mathlib.Core.Bool.{Bool, false, not, ◌&&◌, ◌||◌}
use native.Mathlib.Omega.{arith}
use rfircd.Prelude.Tests.{Option-cases, Bool-cases}
use rfircd.Prelude.Assoc.{
  Eq, lookup, insert, remove, modify, is_some, Distinct, lookup-insert, lookup-remove,
  lookup-modify,
}
use rfircd.Prelude.Assoc.Every.{Every}

-- Whether the key stands in the inner map of a value that may be absent.
abbrev pub has : {V J W : Type 0} → ⦃d : Eq J⦄ → (V → List (J × W)) → J → Option V → Bool
has inner j none = false
has inner j (some v) = is_some (lookup j (inner v))

module _ {K V J W : Type 0} ⦃e : Eq K⦄ ⦃d : Eq J⦄ (inner : V → List (J × W)) where
  pub has-modify-insert :
      (k : K) (i : J) (w : W) (f : V → V) (m : List (K × V)) {v : V} (l : K) (j : J)
      → ((u : V) → inner (f u) ≡ insert i w (inner u))
      → lookup k m ≡ some v
      → has inner j (lookup l (modify k f m))
        ≡ ((e.beq k l && d.beq i j) || has inner j (lookup l m))
  has-modify-insert k i w f m {v} l j h there = elim (Bool-cases (e.beq k l)) [
    | inr other ↦ ap (has inner j) (lookup-modify k l f m) ∙ rw (other) refl
    | inl same ↦
        let at_l : lookup l m ≡ some v =
          subst (λ x. lookup x m ≡ some v) ((e.beq_iff k l).0 same) there in
        ap (has inner j) (lookup-modify k l f m)
        ∙ rw (same, at_l, h v, lookup-insert i j w (inner v)) (ground arith)
  ]

  pub has-modify-remove :
      (k : K) (i : J) (f : V → V) (m : List (K × V)) (l : K) (j : J)
      → ((u : V) → inner (f u) ≡ remove i (inner u))
      → Every (λ x u. Distinct (inner u)) m
      → has inner j (lookup l (modify k f m))
        ≡ (not (e.beq k l && d.beq i j) && has inner j (lookup l m))
  has-modify-remove k i f m l j h every = elim (Bool-cases (e.beq k l)) [
    | inr other ↦ ap (has inner j) (lookup-modify k l f m) ∙ rw (other) refl
    | inl same ↦ elim (Option-cases (lookup l m)) [
      | inl absent ↦ ap (has inner j) (lookup-modify k l f m) ∙ rw (same, absent) (ground arith)
      | inr (v, at_l) ↦
          ap (has inner j) (lookup-modify k l f m)
          ∙ rw (same, at_l, h v, lookup-remove i j (inner v) (every l v at_l)) (ground arith)
    ]
  ]

  -- A key that is taken out with all that stands under it.
  pub has-remove :
      (k : K) (m : List (K × V)) (l : K) (j : J)
      → Distinct m
      → has inner j (lookup l (remove k m)) ≡ (not (e.beq k l) && has inner j (lookup l m))
  has-remove k m l j distinct = ap (has inner j) (lookup-remove k l m distinct) ∙ ground arith

  -- A change that keeps the inner keys.
  pub has-modify_keys :
      (k : K) (f : V → V) (m : List (K × V)) (l : K) (j : J)
      → ((u : V) → is_some (lookup j (inner (f u))) ≡ is_some (lookup j (inner u)))
      → has inner j (lookup l (modify k f m)) ≡ has inner j (lookup l m)
  has-modify_keys k f m l j h = elim (Bool-cases (e.beq k l)) [
    | inr other ↦ ap (has inner j) (lookup-modify k l f m) ∙ rw (other) refl
    | inl same ↦ elim (Option-cases (lookup l m)) [
      | inl absent ↦ ap (has inner j) (lookup-modify k l f m) ∙ rw (same, absent) refl
      | inr (v, at_l) ↦ ap (has inner j) (lookup-modify k l f m) ∙ rw (same, at_l) (h v)
    ]
  ]

  -- A new key under which nothing stands.
  pub has-insert :
      (k : K) (v : V) (m : List (K × V)) (l : K) (j : J)
      → lookup k m ≡ none
      → is_some (lookup j (inner v)) ≡ false
      → has inner j (lookup l (insert k v m)) ≡ has inner j (lookup l m)
  has-insert k v m l j absent bare = elim (Bool-cases (e.beq k l)) [
    | inr other ↦ ap (has inner j) (lookup-insert k l v m) ∙ rw (other) refl
    | inl same ↦
        let at_l : lookup l m ≡ none =
          subst (λ x. lookup x m ≡ none) ((e.beq_iff k l).0 same) absent in
        ap (has inner j) (lookup-insert k l v m) ∙ rw (same, at_l) bare
  ]
