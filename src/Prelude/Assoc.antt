-- ===== src/Prelude/Assoc.antt =====
-- `HashMap` as an association list whose order is the (unspecified) order of its iteration. A key
-- stands in it at most once, which `Distinct` says and `insert` and `remove` keep.
pub mod Every
pub mod Nested
use Prim.Native.Nat.{ℕ, ◌+◌, ◌≤◌, max}
use mathlib.Core.Path.{◌≡◌, refl, sym, ap, ◌∙◌, subst}
use mathlib.Core.Logic.{◌↔◌, ◌⊎◌, inl, inr}
use mathlib.Core.List.{List, [], ◌∷◌}
use mathlib.Core.Option.{Option, none, some, some_inj}
use mathlib.Core.Bool.{Bool, true, false, not, ◌&&◌}
use native.Mathlib.Omega.{arith}
use rfircd.Prelude.Tests.{
  if◌then◌else◌, ◌==◌, ==_iff, leb, leb→le, leb→gt, Option-cases, Bool-cases,
}
use rfircd.Prelude.Lists.{length, keep, All}

-- The trait `Eq`, with the law that its test decides equality.
pub record Eq {ℓ} (K : Type ℓ) : Type ℓ where
  pub beq : K → K → Bool
  pub beq_iff : (a b : K) → (beq a b ≡ true) ↔ (a ≡ b)

instance abbrev pub nat_eq : Eq ℕ
nat_eq = record { beq = λ a b. a == b; beq_iff = ==_iff }

module _ {ℓ} {K : Type ℓ} ⦃e : Eq K⦄ where
  pub beq_refl : (k : K) → e.beq k k ≡ true
  beq_refl k = (e.beq_iff k k).1 refl

-- What a present value becomes: `none` where the key is absent.
abbrev pub is_some {ℓ} : {A : Type ℓ} → Option A → Bool
is_some none = false
is_some (some a) = true

-- 0 or 1, as a count.
abbrev pub found {ℓ} : {A : Type ℓ} → Option A → ℕ
found none = 0
found (some a) = 1

module _ {ℓ κ} {K : Type ℓ} {V : Type κ} ⦃e : Eq K⦄ where
  -- `HashMap::get`.
  unfoldable pub lookup : K → List (K × V) → Option V
  lookup key [] = none
  lookup key ((first, value) ∷ rest) = if e.beq first key then some value else lookup key rest

  -- `HashMap::insert`, and a write through `get_mut` or `entry`.
  unfoldable pub insert : K → V → List (K × V) → List (K × V)
  insert key new [] = (key, new) ∷ []
  insert key new ((first, value) ∷ rest) =
      if e.beq first key then (first, new) ∷ rest else (first, value) ∷ insert key new rest

  -- `HashMap::remove`.
  unfoldable pub remove : K → List (K × V) → List (K × V)
  remove key [] = []
  remove key ((first, value) ∷ rest) =
      if e.beq first key then rest else (first, value) ∷ remove key rest

  -- No key twice.
  abbrev pub Distinct : List (K × V) → Type 0
  Distinct [] = Unit
  Distinct ((k, v) ∷ m) = (is_some (lookup k m) ≡ false) × Distinct m

  pub lookup-insert_self : (k : K) (v : V) (m : List (K × V)) → lookup k (insert k v m) ≡ some v
  unfolding lookup insert
  lookup-insert_self key new [] = ground (arith, beq_refl key)
  lookup-insert_self key new ((first, value) ∷ rest) =
      ground (arith, beq_refl key, lookup-insert_self key new rest)

  pub lookup-insert :
      (key other : K) (v : V) (m : List (K × V))
      → lookup other (insert key v m) ≡ (if e.beq key other then some v else lookup other m)
  unfolding lookup insert
  lookup-insert key other new [] = refl
  lookup-insert key other new ((first, value) ∷ rest) = ground (
    arith,
    e.beq_iff key other,
    e.beq_iff first key,
    e.beq_iff first other,
    lookup-insert key other new rest,
  )

  pub length-insert :
      (k : K) (v : V) (m : List (K × V)) → length (insert k v m) + found (lookup k m) ≡ length m + 1
  unfolding lookup insert
  length-insert k v [] = refl
  length-insert k v ((j, w) ∷ m) = ground (arith, length-insert k v m)

  pub length-remove :
      (k : K) (m : List (K × V)) → length (remove k m) + found (lookup k m) ≡ length m
  unfolding lookup remove
  length-remove k [] = refl
  length-remove k ((j, w) ∷ m) = ground (arith, length-remove k m)

  pub insert-Distinct : (k : K) (v : V) (m : List (K × V)) → Distinct m → Distinct (insert k v m)
  unfolding lookup insert
  insert-Distinct k v [] d = (refl, tt)
  insert-Distinct k v ((j, w) ∷ m) d =
      ground (arith, insert-Distinct k v m d.1, lookup-insert k j v m, e.beq_iff k j, e.beq_iff j k)

  pub lookup-remove :
      (k j : K) (m : List (K × V))
      → Distinct m
      → lookup j (remove k m) ≡ (if e.beq k j then none else lookup j m)
  unfolding lookup remove
  lookup-remove k j [] d = ground arith
  lookup-remove k j ((i, w) ∷ m) d =
      ground (arith, e.beq_iff k j, e.beq_iff i k, e.beq_iff i j, lookup-remove k j m d.1)

  pub remove-Distinct : (k : K) (m : List (K × V)) → Distinct m → Distinct (remove k m)
  unfolding lookup remove
  remove-Distinct k [] d = tt
  remove-Distinct k ((j, w) ∷ m) d =
      ground (arith, remove-Distinct k m d.1, lookup-remove k j m d.1, e.beq_iff k j)

module _ {ℓ κ} {K : Type ℓ} {V : Type κ} where
  -- The lesser of an entry and the least of those behind it.
  unfoldable pub lesser : (V → ℕ) → K → V → Option (K × ℕ) → Option (K × ℕ)
  lesser f k v none = some (k, f v)
  lesser f k v (some (j, t)) = if leb (f v) t then some (k, f v) else some (j, t)

  -- `iter().min_by_key(f)`: the first entry at which `f` is least.
  unfoldable pub min_by_key : (V → ℕ) → List (K × V) → Option (K × ℕ)
  unfolding lesser
  min_by_key f [] = none
  min_by_key f ((k, v) ∷ m) = lesser f k v (min_by_key f m)

  lesser-is_some :
      (f : V → ℕ) (k : K) (v : V) (r : Option (K × ℕ)) → is_some (lesser f k v r) ≡ true
  unfolding lesser
  lesser-is_some f k v none = refl
  lesser-is_some f k v (some (j, t)) = ground arith

  lesser_cases :
      (f : V → ℕ) (j : K) (v : V) (r : Option (K × ℕ)) {k : K} {t : ℕ}
      → lesser f j v r ≡ some (k, t)
      → (j ≡ k) ⊎ (r ≡ some (k, t))
  unfolding lesser
  lesser_cases f j v none h = inl (cc)
  lesser_cases f j v (some (i, s)) h = ground arith

module _ {ℓ κ} {K : Type ℓ} {V : Type κ} ⦃e : Eq K⦄ where
  -- The map without that entry.
  unfoldable pub evict : (V → ℕ) → List (K × V) → List (K × V)
  unfolding min_by_key
  evict f m = elim (min_by_key f m) [ none ↦ m | some (k, _) ↦ remove k m ]

  lookup-min_by_key :
      (f : V → ℕ) (m : List (K × V)) {k : K} {t : ℕ}
      → min_by_key f m ≡ some (k, t)
      → is_some (lookup k m) ≡ true
  unfolding min_by_key lookup
  lookup-min_by_key f [] h = absurd (cc)
  lookup-min_by_key f ((j, v) ∷ m) {k} {t} h = ground (
    arith,
    lesser_cases f j v (min_by_key f m) {k = k} {t = t} h,
    lookup-min_by_key f m {k = k} {t = t},
    e.beq_iff j k,
  )

  -- A map that is not empty loses one entry.
  pub length-evict :
      (f : V → ℕ) (m : List (K × V)) → 1 ≤ length m → length (evict f m) + 1 ≡ length m
  unfolding evict
  length-evict f [] h = absurd (omega arith)
  length-evict f ((k, v) ∷ m) h = elim (Option-cases (min_by_key f ((k, v) ∷ m))) [
    | inl e ↦ absurd (ground (arith, e, lesser-is_some f k v (min_by_key f m)))
    | inr ((j, t), q) ↦
        rw (evict, q)
          (ground (arith, length-remove j ((k, v) ∷ m), lookup-min_by_key f ((k, v) ∷ m) q))
  ]

  pub evict-Distinct : (f : V → ℕ) (m : List (K × V)) → Distinct m → Distinct (evict f m)
  unfolding evict
  evict-Distinct f m d = elim (Option-cases (min_by_key f m)) [
    | inl e ↦ rw (evict, e) d
    | inr ((j, t), q) ↦ rw (evict, q) (remove-Distinct j m d)
  ]

  pub length-evict-le : (f : V → ℕ) (m : List (K × V)) → length (evict f m) ≤ length m
  unfolding evict
  length-evict-le f m = elim (Option-cases (min_by_key f m)) [
    | inl e ↦ rw (evict, e) (omega arith)
    | inr ((j, t), q) ↦ rw (evict, q) (omega (arith, length-remove j m))
  ]

  -- The map with room for a key: where it is full and has not the key, an entry goes.
  unfoldable pub make_room : (V → ℕ) → K → ℕ → List (K × V) → List (K × V)
  unfolding evict lookup
  make_room f k cap m = if not (is_some (lookup k m)) && leb cap (length m) then evict f m else m

  -- A table that is written to only after room was made stays within its limit.
  pub length-insert-make_room :
      (f : V → ℕ) (k : K) (v : V) (cap : ℕ) (m : List (K × V))
      → length m ≤ max 1 cap
      → length (insert k v (make_room f k cap m)) ≤ max 1 cap
  unfolding make_room
  length-insert-make_room f k v cap m h =
      elim (Bool-cases (not (is_some (lookup k m)) && leb cap (length m))) [
        | inl full ↦
            rw (make_room, full)
              (elim (Bool-cases (leb 1 (length m))) [
                | inl some_entry ↦
                    omega (
                      arith,
                      length-insert k v (evict f m),
                      length-evict f m (leb→le _ _ some_entry),
                    )
                | inr empty ↦ omega (
                  arith,
                  length-insert k v (evict f m),
                  length-evict-le f m,
                  leb→gt 1 (length m) empty,
                )
              ])
        | inr free ↦ rw (make_room, free) (ground (arith, length-insert k v m, free))
      ]

  pub insert-make_room-Distinct :
      (f : V → ℕ) (k : K) (v : V) (cap : ℕ) (m : List (K × V))
      → Distinct m
      → Distinct (insert k v (make_room f k cap m))
  unfolding make_room
  insert-make_room-Distinct f k v cap m d =
      elim (Bool-cases (not (is_some (lookup k m)) && leb cap (length m))) [
        | inl full ↦ rw (make_room, full) (insert-Distinct k v (evict f m) (evict-Distinct f m d))
        | inr free ↦ rw (make_room, free) (insert-Distinct k v m d)
      ]

  lookup-keep_none :
      (p : K × V → Bool) (k : K) (m : List (K × V))
      → is_some (lookup k m) ≡ false
      → is_some (lookup k (keep p m)) ≡ false
  unfolding lookup
  lookup-keep_none p k [] h = refl
  lookup-keep_none p k ((j, v) ∷ m) h = ground (arith, h, lookup-keep_none p k m)

  pub keep-Distinct : (p : K × V → Bool) (m : List (K × V)) → Distinct m → Distinct (keep p m)
  keep-Distinct p [] d = tt
  keep-Distinct p ((j, v) ∷ m) d = elim (Bool-cases (p (j, v))) [
    | inl stays ↦ rw (stays) (lookup-keep_none p j m d.0, keep-Distinct p m d.1)
    | inr goes ↦ rw (goes) (keep-Distinct p m d.1)
  ]

  -- What holds of every value holds after a write of another such value, and after a removal.
  pub All-insert {μ} :
      (P : V → Type μ) (k : K) (v : V) (m : List (K × V))
      → All (λ x. P x.1) m
      → P v
      → All (λ x. P x.1) (insert k v m)
  unfolding insert
  All-insert P k v [] a p = (p, tt)
  All-insert P k v ((j, w) ∷ m) a p = elim (Bool-cases (e.beq j k)) [
    | inl same ↦ rw (insert, same) (p, a.1)
    | inr other ↦ rw (insert, other) (a.0, All-insert P k v m a.1 p)
  ]

  pub All-remove {μ} :
      (P : V → Type μ) (k : K) (m : List (K × V))
      → All (λ x. P x.1) m
      → All (λ x. P x.1) (remove k m)
  unfolding remove
  All-remove P k [] a = tt
  All-remove P k ((j, w) ∷ m) a = elim (Bool-cases (e.beq j k)) [
    | inl same ↦ rw (remove, same) (a.1)
    | inr other ↦ rw (remove, other) (a.0, All-remove P k m a.1)
  ]

  pub All-lookup {μ} :
      (P : V → Type μ) (k : K) (m : List (K × V)) {v : V}
      → All (λ x. P x.1) m
      → lookup k m ≡ some v
      → P v
  unfolding lookup
  All-lookup P k [] a h = absurd (cc)
  All-lookup P k ((j, w) ∷ m) a h = elim (Bool-cases (e.beq j k)) [
    | inl same ↦ subst P (some_inj.0 (rw (lookup, same) at h)) a.0
    | inr other ↦ All-lookup P k m a.1 (rw (lookup, other) at h)
  ]

-- A change of a value that may be absent.
abbrev pub change {ℓ} : {A : Type ℓ} → (A → A) → Option A → Option A
change f none = none
change f (some a) = some (f a)

module _ {ℓ κ} {K : Type ℓ} {V : Type κ} ⦃e : Eq K⦄ where
  -- A change through `get_mut`, where the key is present.
  unfoldable pub modify : K → (V → V) → List (K × V) → List (K × V)
  unfolding lookup insert
  modify k f m = elim (lookup k m) [ none ↦ m | some v ↦ insert k (f v) m ]

  pub lookup-modify_self :
      (k : K) (f : V → V) (m : List (K × V)) {v : V}
      → lookup k m ≡ some v
      → lookup k (modify k f m) ≡ some (f v)
  unfolding modify
  lookup-modify_self k f m {v} h = rw (modify, h) (lookup-insert_self k (f v) m)

  pub lookup-modify_other :
      (k j : K) (f : V → V) (m : List (K × V))
      → e.beq k j ≡ false
      → lookup j (modify k f m) ≡ lookup j m
  unfolding modify
  lookup-modify_other k j f m h = elim (Option-cases (lookup k m)) [
    | inl absent ↦ rw (modify, absent) refl
    | inr (v, present) ↦ rw (modify, present) (lookup-insert k j (f v) m ∙ rw (h) refl)
  ]

  pub modify-Distinct :
      (k : K) (f : V → V) (m : List (K × V)) → Distinct m → Distinct (modify k f m)
  unfolding modify
  modify-Distinct k f m d = elim (Option-cases (lookup k m)) [
    | inl absent ↦ rw (modify, absent) d
    | inr (v, present) ↦ rw (modify, present) (insert-Distinct k (f v) m d)
  ]

  -- What a change makes of every entry.
  pub lookup-modify :
      (k j : K) (f : V → V) (m : List (K × V))
      → lookup j (modify k f m) ≡ (if e.beq k j then change f (lookup j m) else lookup j m)
  unfolding modify
  lookup-modify k j f m = elim (Bool-cases (e.beq k j)) [
    | inr other ↦ lookup-modify_other k j f m other ∙ sym (rw (other) refl)
    | inl same ↦ rw (same) (
        subst (λ i. lookup i (modify k f m) ≡ change f (lookup i m)) ((e.beq_iff k j).0 same)
          (elim (Option-cases (lookup k m)) [
            | inl absent ↦ rw (modify, absent, absent) refl
            | inr (v, present) ↦ lookup-modify_self k f m present ∙ sym (rw (present) refl)
          ]))
  ]

  pub modify-is_some :
      (k j : K) (f : V → V) (m : List (K × V))
      → is_some (lookup j (modify k f m)) ≡ is_some (lookup j m)
  modify-is_some k j f m = elim (Bool-cases (e.beq k j)) [
    | inr other ↦ ap is_some (lookup-modify_other k j f m other)
    | inl same ↦ elim (Option-cases (lookup j m)) [
      | inl absent ↦ ap is_some (lookup-modify k j f m) ∙ rw (same, absent) refl
      | inr (v, present) ↦ ap is_some (lookup-modify k j f m) ∙ rw (same, present) refl
    ]
  ]
