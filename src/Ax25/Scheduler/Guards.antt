-- ===== src/Ax25/Scheduler/Guards.antt =====
-- When the scheduler of src/ax25/scheduler.rs lets the transmitter be keyed.
use rfircd.Prelude.{
  ℕ, ◌+◌, ◌-◌, ◌≤◌, ◌<◌, ◌≡◌, ◌↔◌, refl, sym, ◌∙◌, inl, inr, Bool, true, false, Option, none, some,
  arith, ltb, leb, if◌then◌else◌, Bool-cases, Option-cases,
}
use rfircd.Prelude.Float.{Float}
use rfircd.Ax25.Scheduler.{
  Scheduler, Poll, ready, wait, idle, later_of, after, is_idle, blocked_until, poll,
}

-- Whether a moment has passed, if there is one.
abbrev pub passed : Option ℕ → ℕ → Bool
passed none now = true
passed (some t) now = leb t now

later_of-passed :
    (a b : Option ℕ) (now : ℕ)
    → passed (later_of a b) now ≡ true
    → (passed a now ≡ true) × (passed b now ≡ true)
later_of-passed none b now h = (refl, h)
later_of-passed (some t) none now h = (h, refl)
later_of-passed (some t) (some u) now h = (ground (arith, h), ground (arith, h))

passed-later_of :
    (a b : Option ℕ) (now : ℕ)
    → passed a now ≡ true
    → passed b now ≡ true
    → passed (later_of a b) now ≡ true
passed-later_of none b now h k = k
passed-later_of (some t) none now h k = h
passed-later_of (some t) (some u) now h k = ground (arith, h, k)

-- `poll` by what it asks.
abbrev poll_of : Bool → Option ℕ → ℕ → Poll
poll_of true blocked now = idle
poll_of false none now = ready
poll_of false (some t) now = if ltb now t then wait (t - now) else ready

poll_of-ready :
    (i : Bool) (b : Option ℕ) (now : ℕ)
    → poll_of i b now ≡ ready
    → (i ≡ false) × (passed b now ≡ true)
poll_of-ready true b now h = absurd (cc)
poll_of-ready false none now h = (refl, refl)
poll_of-ready false (some t) now h = (refl, ground (arith, h))

ready-poll_of :
    (i : Bool) (b : Option ℕ) (now : ℕ) → i ≡ false → passed b now ≡ true → poll_of i b now ≡ ready
ready-poll_of true b now e h = absurd (cc)
ready-poll_of false none now e h = refl
ready-poll_of false (some t) now e h = ground (arith, h)

poll_of-wait :
    (i : Bool) (b : Option ℕ) (now delay other : ℕ)
    → poll_of i b now ≡ wait delay
    → now ≤ other
    → other < now + delay
    → (poll_of i b (now + delay) ≡ ready) × (poll_of i b other ≡ wait (now + delay - other))
poll_of-wait true b now delay other h l m = absurd (cc)
poll_of-wait false none now delay other h l m = absurd (cc)
poll_of-wait false (some t) now delay other h l m = (ground (arith, h), ground (arith, h, l, m))

module _ {fl : Float} {T : Type 0} where
  poll-poll_of :
      (s : Scheduler fl T) (now : ℕ) → poll s now ≡ poll_of (is_idle s) (blocked_until s) now
  unfolding poll
  poll-poll_of s now = elim (Bool-cases (is_idle s)) [
    | inl none_wait ↦ rw (poll, none_wait) refl
    | inr some_wait ↦ elim (Option-cases (blocked_until s)) [
      | inl free ↦ rw (poll, some_wait, free) refl
      | inr (t, held) ↦ rw (poll, some_wait, held) refl
    ]
  ]

  -- `poll` says that a frame may go exactly if one waits, and the gap, the reply window and the guard
  -- after something was heard are over.
  pub poll-ready :
      (s : Scheduler fl T) (now : ℕ)
      → (poll s now ≡ ready) ↔ (
          (is_idle s ≡ false)
          × (passed s.pace_until now ≡ true)
          × (passed s.reply_until now ≡ true)
          × (passed (after s.last_heard s.cfg.rx_guard) now ≡ true))
  unfolding blocked_until
  poll-ready s now =
      let heard = after s.last_heard s.cfg.rx_guard in
      let both = later_of s.pace_until s.reply_until in
      (
        λ h.
            let r =
              poll_of-ready (is_idle s) (blocked_until s) now (sym (poll-poll_of s now) ∙ h) in
            let a = later_of-passed both heard now r.1 in
            let b = later_of-passed s.pace_until s.reply_until now a.0 in (r.0, b.0, b.1, a.1),
        λ h.
            poll-poll_of s now
            ∙ ready-poll_of (is_idle s) (blocked_until s) now h.0 (
                passed-later_of both heard now
                  (passed-later_of s.pace_until s.reply_until now h.1 h.2) h.3),
      )

  -- The time that `poll` answers is exact: then it says that a frame may go, and at every moment
  -- before it answers what is left of that time.
  pub poll-wait :
      (s : Scheduler fl T) (now delay other : ℕ)
      → poll s now ≡ wait delay
      → now ≤ other
      → other < now + delay
      → (poll s (now + delay) ≡ ready) × (poll s other ≡ wait (now + delay - other))
  poll-wait s now delay other h l m =
      let r =
        poll_of-wait (is_idle s) (blocked_until s) now delay other (sym (poll-poll_of s now) ∙ h) l
          m in
      (poll-poll_of s (now + delay) ∙ r.0, poll-poll_of s other ∙ r.1)
