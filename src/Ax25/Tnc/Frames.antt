-- ===== src/Ax25/Tnc/Frames.antt =====
-- Which frames wait before and after a turn of the loop of src/ax25/tnc.rs.
use rfircd.Prelude.{
  ℕ, ◌+◌, ◌-◌, ◌≡◌, refl, inl, inr, Bool, not, ◌&&◌, List, [], ◌∷◌, Option, none, some, Text, arith,
  zero, suc, if◌then◌else◌, ltb, length, get_elem?, Bool-cases, Option-cases, subst,
}
use rfircd.Prelude.Float.{Float}
use rfircd.Ax25.Frame
use rfircd.Ax25.Frame.{Ax25Frame}
use rfircd.Ax25.Airtime
use rfircd.Ax25.Airtime.{TxDecision, send, defer, record_tx, millis}
use rfircd.Ax25.Scheduler
use rfircd.Ax25.Scheduler.{
  Class, chat, direct, control, ack, id, Queued, Scheduler, Poll, ready, wait, idle, put, remove_at,
  chosen, consider, best_of, all_classes, poll, pop, requeue, debit, on_keyed, same_class,
}
use rfircd.Ax25.Tnc.{
  TncConfig, Link, Readings, Outcome, nothing, held, failed, inhibited, oversized, stale, keyed,
  may_drop, key, hold, decide, handle, take_next, turn,
}

abbrev pub one_if : Bool → ℕ
one_if b = if b then 1 else 0

-- How many frames of a queue pass a test.
unfoldable pub passing : {T : Type 0} → (Queued T → Bool) → List (Queued T) → ℕ
passing p [] = 0
passing p (item ∷ q) = one_if (p item) + passing p q

-- How many frames of all that wait pass a test.
unfoldable pub count_waiting : {fl : Float} {T : Type 0} → (Queued T → Bool) → Scheduler fl T → ℕ
unfolding passing
count_waiting p s =
    passing p (s.queues chat)
    + passing p (s.queues direct)
    + passing p (s.queues control)
    + passing p (s.queues ack)
    + passing p (s.queues id)

-- The same for an answer of `pop`.
abbrev taken : {T : Type 0} → (Queued T → Bool) → Option (Queued T) → ℕ
taken p none = 0
taken p (some item) = one_if (p item)

passing-remove_at :
    {T : Type 0} (p : Queued T → Bool) (i : ℕ) (q : List (Queued T)) {item : Queued T}
    → get_elem? q i ≡ some item
    → passing p (remove_at i q) + one_if (p item) ≡ passing p q
unfolding passing
passing-remove_at p i [] h = absurd (cc)
passing-remove_at p zero (x ∷ q) {item} h = let same : x ≡ item = cc in rw (same) (omega arith)
passing-remove_at p (suc i) (x ∷ q) h = omega (arith, passing-remove_at p i q h)

module _ {fl : Float} {T : Type 0} (p : Queued T → Bool) where
  open fl use {F}

  -- A write of one queue changes the count by what that queue gains or loses.
  count_waiting-put :
      (s : Scheduler fl T) (c : Class) (q : List (Queued T)) (pace : Option ℕ)
      → count_waiting p (record s { queues = put s.queues c q; pace_until = pace })
          + passing p (s.queues c)
        ≡ count_waiting p s + passing p q
  unfolding count_waiting
  count_waiting-put s chat q pace = omega arith
  count_waiting-put s direct q pace = omega arith
  count_waiting-put s control q pace = omega arith
  count_waiting-put s ack q pace = omega arith
  count_waiting-put s id q pace = omega arith

  count_waiting-requeue :
      (s : Scheduler fl T) (item : Queued T) (now delay : ℕ)
      → count_waiting p (requeue s item now delay) ≡ count_waiting p s + one_if (p item)
  unfolding requeue passing
  count_waiting-requeue s item now delay = omega (
    arith,
    count_waiting-put s item.class (item ∷ s.queues item.class)
        (Scheduler.later_of s.pace_until (some (now + delay))),
  )

  -- What the loop of `pop` finds is in its queue.
  InRange : Scheduler fl T → Option (Class × ℕ × F) → Type 0
  InRange s none = Unit
  InRange s (some (c, idx, b)) = (item : Queued T) × (get_elem? (s.queues c) idx ≡ some item)

  consider-InRange :
      (s : Scheduler fl T) (now : ℕ) (c : Class) (best : Option (Class × ℕ × F))
      → InRange s best
      → InRange s (consider s now c best)
  unfolding consider InRange
  consider-InRange s now c none v =
      elim (Option-cases (get_elem? (s.queues c) (chosen s now (s.queues c)))) [
        | inl nowhere ↦ rw (consider, nowhere) v
        | inr (item, there) ↦ rw (consider, there) (item, there)
      ]
  consider-InRange s now c (some (d, i, b)) v =
      elim (Option-cases (get_elem? (s.queues c) (chosen s now (s.queues c)))) [
        | inl nowhere ↦ rw (consider, nowhere) v
        | inr (item, there) ↦ elim (Bool-cases (fl.lt b (Scheduler.score s item now))) [
          | inl higher ↦ rw (consider, there, higher) (item, there)
          | inr lower ↦ rw (consider, there, lower) v
        ]
      ]

  best_of-InRange :
      (s : Scheduler fl T) (now : ℕ) (cs : List Class) (best : Option (Class × ℕ × F))
      → InRange s best
      → InRange s (best_of s now cs best)
  unfolding best_of
  best_of-InRange s now [] best v = v
  best_of-InRange s now (c ∷ cs) best v =
      best_of-InRange s now cs (consider s now c best) (consider-InRange s now c best v)

  count_waiting-pop :
      (s : Scheduler fl T) (now : ℕ)
      → count_waiting p (pop s now).0 + taken p (pop s now).1 ≡ count_waiting p s
  unfolding pop InRange
  count_waiting-pop s now = elim (Option-cases (best_of s now all_classes none)) [
    | inl nowhere ↦ rw (pop, nowhere) (omega arith)
    | inr ((c, idx, b), found) ↦
        let (item, there) = subst (InRange s) found (best_of-InRange s now all_classes none tt) in
        rw (pop, found, there)
          (omega (
            arith,
            count_waiting-put s c (remove_at idx (s.queues c)) s.pace_until,
            passing-remove_at p idx (s.queues c) there,
          ))
  ]

-- Whether the frame that left the scheduler for good, if one did, passes a test.
abbrev pub gone : (Queued Ax25Frame → Bool) → Outcome → ℕ
gone p nothing = 0
gone p held = 0
gone p failed = 0
gone p (inhibited item) = one_if (p item)
gone p (oversized item) = one_if (p item)
gone p (stale item) = one_if (p item)
gone p (keyed item time seq) = one_if (p item)

module _ {fl : Float} (p : Queued Ax25Frame → Bool) where
  count_waiting-on_keyed :
      (s : Scheduler fl Ax25Frame) (now cost : ℕ) (account : Text) (expects_reply : Bool)
      → count_waiting p (on_keyed s now account cost expects_reply) ≡ count_waiting p s
  unfolding on_keyed debit count_waiting
  count_waiting-on_keyed s now cost account expects_reply = refl

  key-count_waiting :
      (l : Link fl) (r : Readings) (item : Queued Ax25Frame) (octets : ℕ)
      → count_waiting p (key l r item octets).0.scheduler + gone p (key l r item octets).1
        ≡ count_waiting p l.scheduler + one_if (p item)
  unfolding key
  key-count_waiting l r item octets = elim (Bool-cases r.interlock_again) [
    | inl down ↦
        rw (key, down) (omega (arith, count_waiting-requeue p l.scheduler item r.now (millis 200)))
    | inr clear ↦ elim (Bool-cases r.written) [
      | inl well ↦
          rw (key, clear, well)
            (omega (
              arith,
              count_waiting-on_keyed l.scheduler r.now (record_tx l.governor octets r.now).1
                  item.account item.expects_reply,
            ))
      | inr broken ↦
          rw (key, clear, broken)
            (omega (arith, count_waiting-requeue p l.scheduler item r.later 0))
    ]
  ]

  hold-count_waiting :
      (cfg : TncConfig) (l : Link fl) (r : Readings) (item : Queued Ax25Frame) (delay : ℕ)
      → count_waiting p (hold cfg l r item delay).0.scheduler + gone p (hold cfg l r item delay).1
        ≡ count_waiting p l.scheduler + one_if (p item)
  unfolding hold
  hold-count_waiting cfg l r item delay =
      elim (Bool-cases (may_drop item.class && ltb cfg.max_hold (r.now - item.queued_at + delay))) [
        | inl drops ↦ rw (hold, drops) refl
        | inr stays ↦
            rw (hold, stays) (omega (arith, count_waiting-requeue p l.scheduler item r.now delay))
      ]

  decide-count_waiting :
      (cfg : TncConfig) (l : Link fl) (r : Readings) (item : Queued Ax25Frame)
      → count_waiting p (decide cfg l r item).0.scheduler + gone p (decide cfg l r item).1
        ≡ count_waiting p l.scheduler + one_if (p item)
  unfolding decide
  decide-count_waiting cfg l r item =
      go (Airtime.check l.governor (length (Frame.encode item.payload)) r.now).1 refl
    where
      go :
          (d : TxDecision)
          → (Airtime.check l.governor (length (Frame.encode item.payload)) r.now).1 ≡ d
          → count_waiting p (decide cfg l r item).0.scheduler + gone p (decide cfg l r item).1
            ≡ count_waiting p l.scheduler + one_if (p item)
      go send e =
          rw (decide, e)
            (key-count_waiting
              (record l {
                governor = (Airtime.check l.governor (length (Frame.encode item.payload)) r.now).0;
              })
              r item (length (Frame.encode item.payload)))
      go (defer delay reason) e =
          rw (decide, e)
            (hold-count_waiting cfg
              (record l {
                governor = (Airtime.check l.governor (length (Frame.encode item.payload)) r.now).0;
              })
              r item delay)

  handle-count_waiting :
      (cfg : TncConfig) (l : Link fl) (r : Readings) (item : Queued Ax25Frame)
      → count_waiting p (handle cfg l r item).0.scheduler + gone p (handle cfg l r item).1
        ≡ count_waiting p l.scheduler + one_if (p item)
  unfolding handle
  handle-count_waiting cfg l r item =
      elim (Bool-cases (r.inhibit && not (same_class item.class id))) [
        | inl off ↦ rw (handle, off) refl
        | inr may ↦ elim (Bool-cases (ltb cfg.max_frame (length (Frame.encode item.payload)))) [
          | inl long ↦ rw (handle, may, long) refl
          | inr fits ↦ rw (handle, may, fits) (decide-count_waiting cfg l r item)
        ]
      ]

  take_next-count_waiting :
      (l : Link fl) (now : ℕ)
      → count_waiting p (take_next l now).0.scheduler + taken p (take_next l now).1
        ≡ count_waiting p l.scheduler
  unfolding take_next
  take_next-count_waiting l now = go (poll l.scheduler now) refl
    where
      go :
          (a : Poll)
          → poll l.scheduler now ≡ a
          → count_waiting p (take_next l now).0.scheduler + taken p (take_next l now).1
            ≡ count_waiting p l.scheduler
      go ready e = rw (take_next, e) (count_waiting-pop p l.scheduler now)
      go (wait delay) e = rw (take_next, e) (omega arith)
      go idle e = rw (take_next, e) (omega arith)

  -- A turn loses no frame and doubles none: whatever frames are counted, as many of them wait before
  -- it as wait after it, with the one that it keyed or dropped, if it did.
  pub turn-count_waiting :
      (cfg : TncConfig) (l : Link fl) (r : Readings)
      → count_waiting p (turn cfg l r).0.scheduler + gone p (turn cfg l r).1
        ≡ count_waiting p l.scheduler
  unfolding turn
  turn-count_waiting cfg l r = elim (Bool-cases r.interlock) [
    | inl down ↦ rw (turn, down) (omega arith)
    | inr clear ↦ elim (Option-cases (take_next l r.now).1) [
      | inl none_left ↦
          let n = take_next-count_waiting l r.now in
          rw (turn, clear, none_left) (omega (arith, (rw (none_left) at n)))
      | inr (item, there) ↦
          let n = take_next-count_waiting l r.now in
          rw (turn, clear, there)
            (omega
              (arith, handle-count_waiting cfg (take_next l r.now).0 r item, (rw (there) at n)))
    ]
  ]
