-- ===== src/Ax25/Scheduler/Order.antt =====
-- Which frame `pop` of src/ax25/scheduler.rs takes.
use rfircd.Prelude.{
  ℕ, zero, suc, ◌≡◌, ◌⊎◌, refl, ap, inl, inr, Bool, true, false, List, [], ◌∷◌, ◌++◌, Option, none,
  some, ◌≢◌, arith, Bool-cases, Option-cases, take, drop, All, get_elem?, is_empty,
}
use rfircd.Ax25.Scheduler.{position, suc_some, or_zero}

-- An index splits a list.
pub record Split {A : Type 0} (p : A → Bool) (q : List A) (i : ℕ) (x : A) : Type 0 where
  pub whole : q ≡ take i q ++ (x ∷ drop (suc i) q)
  pub here : get_elem? q i ≡ some x
  pub before : All (λ y. p y ≡ false) (take i q)
  pub first : (p x ≡ true) ⊎ ((i ≡ 0) × All (λ y. p y ≡ false) q)

position-none :
    {A : Type 0} (p : A → Bool) (q : List A) → position p q ≡ none → All (λ y. p y ≡ false) q
position-none p [] h = tt
position-none p (x ∷ q) h = elim (Bool-cases (p x)) [
  | inl here ↦ absurd (ground (arith, h, here))
  | inr not_here ↦ elim (Option-cases (position p q)) [
    | inl nowhere ↦ (not_here, position-none p q nowhere)
    | inr (i, there) ↦ absurd (ground (arith, h, not_here, there))
  ]
]

suc_some-zero : (r : Option ℕ) → suc_some r ≢ some 0
suc_some-zero none e = absurd (cc)
suc_some-zero (some i) e = absurd (cc)

suc_some-suc : (r : Option ℕ) (i : ℕ) → suc_some r ≡ some (suc i) → r ≡ some i
suc_some-suc none i e = absurd (cc)
suc_some-suc (some j) i e = ground (arith, e)

position-some :
    {A : Type 0} (p : A → Bool) (q : List A) (i : ℕ)
    → position p q ≡ some i
    → (x : A) × (q ≡ take i q ++ (x ∷ drop (suc i) q))
      × (get_elem? q i ≡ some x)
      × All (λ y. p y ≡ false) (take i q)
      × (p x ≡ true)
position-some p [] i h = absurd (cc)
position-some p (x ∷ q) zero h = elim (Bool-cases (p x)) [
  | inl here ↦ (x, refl, refl, tt, here)
  | inr not_here ↦ absurd (suc_some-zero (position p q) (rw (not_here) at h))
]
position-some p (x ∷ q) (suc i) h = elim (Bool-cases (p x)) [
  | inl here ↦ let first : some 0 ≡ some (suc i) = rw (here) at h in absurd (cc)
  | inr not_here ↦
      let r = position-some p q i (suc_some-suc (position p q) i (rw (not_here) at h)) in
      (r.0, ap (λ l. x ∷ l) r.1, r.2, (not_here, r.3), r.4)
]

pub position-Split :
    {A : Type 0} (p : A → Bool) (q : List A)
    → is_empty q ≡ false
    → (x : A) × Split p q (or_zero (position p q)) x
position-Split p [] h = absurd (cc)
position-Split p (x ∷ q) h = elim (Option-cases (position p (x ∷ q))) [
  | inl nowhere ↦ rw (nowhere) (
    x,
    record {
      whole = refl;
      here = refl;
      before = tt;
      first = inr (refl, position-none p (x ∷ q) nowhere);
    },
  )
  | inr (i, there) ↦
      let r = position-some p (x ∷ q) i there in
      rw (there) (r.0, record { whole = r.1; here = r.2; before = r.3; first = inl r.4 })
]
