-- ===== src/Ax25/Scheduler/Queues.antt =====
-- The queues of src/ax25/scheduler.rs: writes and removals.
use rfircd.Prelude.{
  ℕ, zero, suc, ◌≤◌, ◌≡◌, refl, sym, ap, inl, inr, true, List, [], ◌∷◌, some, arith, ==_refl,
  Bool-cases, subst, take, drop, length, All, All-append, All-take, All-drop, length-append,
  length-take, length-drop, get_elem?,
}
use rfircd.Prelude.Chars.{text_eq}
use rfircd.Ax25.Scheduler.{
  Class, chat, direct, control, ack, id, index, same_class, Queued, put, remove_at,
}

module _ {T : Type 0} where
  length-remove_at-le : (i : ℕ) (q : List (Queued T)) → length (remove_at i q) ≤ length q
  length-remove_at-le i q =
      omega
        (arith, length-append (take i q) (drop (suc i) q), length-take i q, length-drop (suc i) q)

  pub length-remove_at :
      (i : ℕ) (q : List (Queued T)) {item : Queued T}
      → get_elem? q i ≡ some item
      → suc (length (remove_at i q)) ≡ length q
  length-remove_at i [] h = absurd (cc)
  length-remove_at zero (x ∷ q) h = refl
  length-remove_at (suc i) (x ∷ q) h = ap suc (length-remove_at i q h)

pub same_class-eq : (c d : Class) → same_class c d ≡ true → c ≡ d
same_class-eq chat chat h = refl
same_class-eq direct direct h = refl
same_class-eq control control h = refl
same_class-eq ack ack h = refl
same_class-eq id id h = refl
same_class-eq c d h = absurd (cc)

-- What holds of every queue holds after a write of another such queue.
pub put-each :
    {T : Type 0} (P : Class → List (Queued T) → Type 0) (qs : Class → List (Queued T)) (c : Class)
    (q : List (Queued T))
    → ((d : Class) → P d (qs d))
    → P c q
    → (d : Class) → P d (put qs c q d)
put-each P qs c q each this d = elim (Bool-cases (same_class c d)) [
  | inl same ↦ rw (same) (subst (λ e. P e q) (same_class-eq c d same) this)
  | inr other ↦ rw (other) (each d)
]

-- The frames of one queue are of its class, and no more than `bound`.
unfoldable pub IsQueue : {T : Type 0} → (Class → ℕ) → Class → List (Queued T) → Type 0
IsQueue bound c q = (length q ≤ bound c) × All (λ i. i.class ≡ c) q

module _ {T : Type 0} where
  pub remove_at-IsQueue :
      (bound : Class → ℕ) (c : Class) (i : ℕ) (q : List (Queued T))
      → IsQueue bound c q
      → IsQueue bound c (remove_at i q)
  unfolding IsQueue
  remove_at-IsQueue bound c i q h = (
    omega (arith, length-remove_at-le i q, h.0),
    All-append (λ j. j.class ≡ c) (take i q) (drop (suc i) q) (All-take (λ j. j.class ≡ c) i q h.1)
        (All-drop (λ j. j.class ≡ c) (suc i) q h.1),
  )

  pub put_self : (qs : Class → List (Queued T)) (c : Class) (q : List (Queued T)) → put qs c q c ≡ q
  put_self qs c q = rw (==_refl (index c)) refl

  -- The frame that was taken from a queue fits into it again.
  pub requeued-IsQueue :
      (bound : Class → ℕ) (qs : Class → List (Queued T)) (c : Class) (idx : ℕ) (item : Queued T)
      → get_elem? (qs c) idx ≡ some item
      → item.class ≡ c
      → IsQueue bound c (qs c)
      → IsQueue bound item.class (item ∷ put qs c (remove_at idx (qs c)) item.class)
  unfolding IsQueue
  requeued-IsQueue bound qs c idx item there own h =
      let rest = remove_at idx (qs c) in
      let kept = remove_at-IsQueue bound c idx (qs c) h in
      subst
        (λ k.
          (length (item ∷ put qs c rest k) ≤ bound k)
          × ((item.class ≡ k) × All (λ i. i.class ≡ k) (put qs c rest k)))
        (sym own)
        (rw (put_self qs c rest)
          (omega (arith, length-remove_at idx (qs c) there, h.0), (own, kept.1)))
