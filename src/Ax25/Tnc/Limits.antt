-- ===== src/Ax25/Tnc/Limits.antt =====
-- What the loop of src/ax25/tnc.rs puts on the air, against the limits of the governor that it asks.
use rfircd.Prelude.{
  ℕ, ◌+◌, ◌-◌, ◌≤◌, ◌≡◌, ◌⊎◌, refl, inl, inr, Bool, true, not, ◌&&◌, List, [], ◌∷◌, ◌++◌,
  append-nil, ltb, length, Bool-cases, Option-cases,
}
use rfircd.Prelude.Float.{Float}
use rfircd.Ax25.Frame
use rfircd.Ax25.Frame.{Ax25Frame}
use rfircd.Ax25.Airtime
use rfircd.Ax25.Airtime.{
  Burst, AirtimeConfig, Governor, TxDecision, send, defer, airtime_for, airtime_within, allowance,
  hourly_budget_window, set_duty, record_tx, millis,
}
use rfircd.Ax25.Airtime.Counts.{burst}
use rfircd.Ax25.Airtime.Limits.{Reach, airtime-IsWithin}
use rfircd.Ax25.Scheduler.{Queued, Scheduler, Poll, ready, wait, idle, poll, push, same_class, id}
use rfircd.Ax25.Tnc.{
  TncConfig, Link, Readings, Outcome, nothing, held, failed, inhibited, oversized, stale, keyed,
  may_drop, begin, hear, key, hold, decide, handle, take_next, turn,
}

module _ {fl : Float} (ac : AirtimeConfig fl) where
  -- The transmission of a turn, if it made one.
  pub sent : ℕ → Outcome → List Burst
  sent now (keyed item time seq) =
      burst now (airtime_for ac (length (Frame.encode item.payload))) ∷ []
  sent now nothing = []
  sent now held = []
  sent now failed = []
  sent now (inhibited item) = []
  sent now (oversized item) = []
  sent now (stale item) = []

  module _ (limit : ℕ) where
    -- A turn that leaves the governor as it was and sends nothing.
    unchanged :
        (now : ℕ) (g : Governor fl) (past : List Burst)
        → Reach ac limit now g past
        → Reach ac limit now g (past ++ [])
    unchanged now g past r = rw (append-nil past) r

    key-Reach :
        (l : Link fl) (r : Readings) (item : Queued Ax25Frame) (past : List Burst)
        → Reach ac limit r.now l.governor past
        → Reach ac limit r.now
            (record_tx l.governor (length (Frame.encode item.payload)) r.now).0
            (past ++ (burst r.now (airtime_for ac (length (Frame.encode item.payload))) ∷ []))
        → let k = key l r item (length (Frame.encode item.payload)) in
          Reach ac limit r.now k.0.governor (past ++ sent r.now k.1)
    unfolding key sent
    key-Reach l r item past before after = elim (Bool-cases r.interlock_again) [
      | inl down ↦ rw (key, down) (unchanged r.now l.governor past before)
      | inr clear ↦ elim (Bool-cases r.written) [
        | inl well ↦ rw (key, clear, well) after
        | inr broken ↦ rw (key, clear, broken) (unchanged r.now l.governor past before)
      ]
    ]

    hold-Reach :
        (cfg : TncConfig) (l : Link fl) (r : Readings) (item : Queued Ax25Frame) (delay : ℕ)
        (past : List Burst)
        → Reach ac limit r.now l.governor past
        → let k = hold cfg l r item delay in
          Reach ac limit r.now k.0.governor (past ++ sent r.now k.1)
    unfolding hold sent
    hold-Reach cfg l r item delay past before =
        elim (Bool-cases
          (may_drop item.class && ltb cfg.max_hold (r.now - item.queued_at + delay))) [
            | inl drops ↦ rw (hold, drops) (unchanged r.now l.governor past before)
            | inr stays ↦ rw (hold, stays) (unchanged r.now l.governor past before)
          ]

    decide-Reach :
        (cfg : TncConfig) (l : Link fl) (r : Readings) (item : Queued Ax25Frame) (past : List Burst)
        → Reach ac limit r.now l.governor past
        → let k = decide cfg l r item in Reach ac limit r.now k.0.governor (past ++ sent r.now k.1)
    unfolding decide
    decide-Reach cfg l r item past before =
        let octets = length (Frame.encode item.payload) in
        let asked = Reach.asks r.now octets l.governor past before in
        go (Airtime.check l.governor octets r.now).1 refl asked
      where
        go :
            (d : TxDecision)
            → (Airtime.check l.governor (length (Frame.encode item.payload)) r.now).1 ≡ d
            → Reach ac limit r.now
                (Airtime.check l.governor (length (Frame.encode item.payload)) r.now).0
                past
            → Reach ac limit r.now
                (decide cfg l r item).0.governor
                (past ++ sent r.now (decide cfg l r item).1)
        go send e asked =
            rw (decide, e)
              (key-Reach
                (record l {
                  governor =
                      (Airtime.check l.governor (length (Frame.encode item.payload)) r.now).0;
                })
                r item past asked
                (Reach.transmits r.now (length (Frame.encode item.payload)) l.governor past before
                  e))
        go (defer delay reason) e asked =
            rw (decide, e)
              (hold-Reach cfg
                (record l {
                  governor =
                      (Airtime.check l.governor (length (Frame.encode item.payload)) r.now).0;
                })
                r item delay past asked)

    handle-Reach :
        (cfg : TncConfig) (l : Link fl) (r : Readings) (item : Queued Ax25Frame) (past : List Burst)
        → Reach ac limit r.now l.governor past
        → let k = handle cfg l r item in Reach ac limit r.now k.0.governor (past ++ sent r.now k.1)
    unfolding handle sent
    handle-Reach cfg l r item past before =
        elim (Bool-cases (r.inhibit && not (same_class item.class id))) [
          | inl off ↦ rw (handle, off) (unchanged r.now l.governor past before)
          | inr may ↦ elim (Bool-cases (ltb cfg.max_frame (length (Frame.encode item.payload)))) [
            | inl long ↦ rw (handle, may, long) (unchanged r.now l.governor past before)
            | inr fits ↦ rw (handle, may, fits) (decide-Reach cfg l r item past before)
          ]
        ]

    take_next-governor : (l : Link fl) (now : ℕ) → (take_next l now).0.governor ≡ l.governor
    unfolding take_next
    take_next-governor l now = go (poll l.scheduler now) refl
      where
        go : (p : Poll) → poll l.scheduler now ≡ p → (take_next l now).0.governor ≡ l.governor
        go ready e = rw (take_next, e) refl
        go (wait delay) e = rw (take_next, e) refl
        go idle e = rw (take_next, e) refl

    turn-Reach :
        (cfg : TncConfig) (l : Link fl) (r : Readings) (past : List Burst)
        → Reach ac limit r.now l.governor past
        → let k = turn cfg l r in Reach ac limit r.now k.0.governor (past ++ sent r.now k.1)
    unfolding turn sent
    turn-Reach cfg l r past before =
        let t = take_next l r.now in
        let kept : Reach ac limit r.now t.0.governor past =
          rw (take_next-governor l r.now) before in
        elim (Bool-cases r.interlock) [
          | inl down ↦ rw (turn, down) (unchanged r.now l.governor past before)
          | inr clear ↦ elim (Option-cases t.1) [
            | inl none_left ↦ rw (turn, clear, none_left) (unchanged r.now t.0.governor past kept)
            | inr (item, taken) ↦ rw (turn, clear, taken) (handle-Reach cfg t.0 r item past kept)
          ]
        ]

-- The link over time: the clock goes on, frames are queued and heard, the loop sets the duty target to
-- one whose allowance is within `limit`, and takes its turns. The last index is every transmission.
pub data Run {fl : Float} (cfg : TncConfig) (ac : AirtimeConfig fl) (limit : ℕ)
    : ℕ → Link fl → List Burst → Type 0 where
  starts :
      (now : ℕ) (s : Scheduler fl Ax25Frame)
      → Run cfg ac limit now (record { scheduler = s; governor = Airtime.new ac }) []
  waits :
      (now later : ℕ) (l : Link fl) (past : List Burst)
      → Run cfg ac limit now l past
      → now ≤ later
      → Run cfg ac limit later l past
  enqueues :
      (now : ℕ) (l : Link fl) (past : List Burst) (item : Queued Ax25Frame)
      → Run cfg ac limit now l past
      → Run cfg ac limit now (record l { scheduler = (push l.scheduler item).0 }) past
  hears :
      (now : ℕ) (l : Link fl) (past : List Burst)
      → Run cfg ac limit now l past
      → Run cfg ac limit now (hear l now) past
  begins :
      (now pacing : ℕ) (l : Link fl) (past : List Burst) (inhibit : Bool) (duty : fl.F)
      → Run cfg ac limit now l past
      → allowance (set_duty l.governor duty).cfg ≤ limit
      → Run cfg ac limit now (begin l now inhibit duty pacing) past
  turns :
      (r : Readings) (l : Link fl) (past : List Burst)
      → Run cfg ac limit r.now l past
      → Run cfg ac limit r.now (turn cfg l r).0 (past ++ sent ac r.now (turn cfg l r).1)

module _ {fl : Float} (cfg : TncConfig) (ac : AirtimeConfig fl) (limit : ℕ) where
  -- What the link does to its governor is what the governor's own rules allow.
  Run-Reach :
      (now : ℕ) (l : Link fl) (past : List Burst)
      → Run cfg ac limit now l past
      → Reach ac limit now l.governor past
  unfolding hear begin
  Run-Reach now l past (Run.starts at s) = Reach.starts at
  Run-Reach now l past (Run.waits before after k earlier r h) =
      Reach.waits before after k.governor earlier (Run-Reach before k earlier r) h
  Run-Reach now l past (Run.enqueues at k earlier item r) = Run-Reach at k earlier r
  Run-Reach now l past (Run.hears at k earlier r) = Run-Reach at k earlier r
  Run-Reach now l past (Run.begins at pacing k earlier inhibit duty r h) =
      Reach.sets_duty at k.governor earlier duty (Run-Reach at k earlier r) h
  Run-Reach now l past (Run.turns r k earlier before) =
      turn-Reach ac limit cfg k r earlier (Run-Reach r.now k earlier before)

  -- With the governor on, and no duty target set whose allowance exceeds `limit`, whatever was queued
  -- and heard and however the turns went: all frames that the link has written take at most `limit`
  -- of airtime within the window, and within an hour at most the hourly budget, if there is one.
  pub tnc-IsWithin :
      (now : ℕ) (l : Link fl) (past : List Burst)
      → ac.enabled ≡ true
      → allowance ac ≤ limit
      → Run cfg ac limit now l past
      → (airtime_within past now ac.window ≤ limit)
        × ((ac.hourly_budget ≡ 0)
            ⊎ (airtime_within past now (hourly_budget_window ac) ≤ ac.hourly_budget))
  tnc-IsWithin now l past on start r =
      airtime-IsWithin ac limit on start now l.governor past (Run-Reach now l past r)
