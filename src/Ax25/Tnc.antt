-- ===== src/Ax25/Tnc.antt =====
-- The loop of the TNC link, `pump` of src/ax25/tnc.rs: what it does before it waits, when a frame is
-- heard and when the time to transmit has come, on the scheduler and the governor that it holds. What
-- it reads from the shared flags and from the clock, and whether the octets were written, is given to
-- each turn. A turn is one step, where the source unlocks the scheduler after `pop` and awaits the
-- write and the radio before `requeue` or `on_keyed`: a push of another task stands before or after
-- the turn, and one that falls in between is not modelled. The counters and the log are left out.
pub mod Limits
pub mod Frames
pub mod Keyed
use rfircd.Prelude.{
  ℕ, zero, suc, ◌+◌, ◌-◌, ◌*◌, Bool, true, false, not, ◌&&◌, ◌||◌, List, [], ◌∷◌, ◌++◌, Option,
  none, some, Bytes, ltb, leb, ◌==◌, if◌then◌else◌, length,
}
use rfircd.Prelude.Float.{Float}
use rfircd.Ax25.Frame
use rfircd.Ax25.Frame.{Ax25Frame}
use rfircd.Ax25.Airtime
use rfircd.Ax25.Airtime.{Governor, TxDecision, send, defer, set_duty, record_tx, millis}
use rfircd.Ax25.Scheduler
use rfircd.Ax25.Scheduler.{
  Class, id, ack, same_class, Queued, Scheduler, Poll, ready, wait, idle, poll, pop, requeue,
  on_keyed, on_heard, drain_except, set_min_gap,
}

-- The parts of `TncConfig` that the loop uses.
pub record TncConfig : Type 0 where
  pub max_frame : ℕ
  pub max_hold : ℕ

pub record Link (fl : Float) : Type 0 where
  pub scheduler : Scheduler fl Ax25Frame
  pub governor : Governor fl

-- What one turn reads: the clock, the interlock before the frame is taken and before it is keyed,
-- the inhibit flag, whether the write went well, and the clock after a write that did not.
pub record Readings : Type 0 where
  pub now : ℕ
  pub interlock : Bool
  pub inhibit : Bool
  pub interlock_again : Bool
  pub written : Bool
  pub later : ℕ

-- How a turn ends. `keyed` has the frame, the key-down time and the AIRC sequence number.
pub data Outcome : Type 0 where
  nothing held failed : Outcome
  inhibited oversized stale : Queued Ax25Frame → Outcome
  keyed : Queued Ax25Frame → ℕ → Option ℕ → Outcome

-- `airc_seq`.
unfoldable pub airc_seq : Bytes → Option ℕ
airc_seq (a ∷ (b ∷ (k ∷ (f ∷ (hi ∷ (lo ∷ (c ∷ (d ∷ rest)))))))) =
    if a == b'A' && b == b'1' then some (hi * 256 + lo) else none
airc_seq info = none

-- Whether a frame is dropped when it is late.
abbrev pub may_drop : Class → Bool
may_drop c = not (same_class c id) && not (same_class c ack)

module _ {fl : Float} where
  -- The part of the loop before it waits.
  unfoldable pub begin : Link fl → ℕ → Bool → fl.F → ℕ → Link fl
  begin l now inhibit duty pacing = record {
    governor = set_duty l.governor duty;
    scheduler =
        (Scheduler.expire
          (set_min_gap (if inhibit then (drain_except l.scheduler id).0 else l.scheduler) pacing)
          now).0;
  }

  -- A frame was heard.
  unfoldable pub hear : Link fl → ℕ → Link fl
  hear l now = record l { scheduler = on_heard l.scheduler now }

  -- The governor lets the frame go.
  unfoldable pub key : Link fl → Readings → Queued Ax25Frame → ℕ → Link fl × Outcome
  unfolding airc_seq
  key l r item octets =
      if r.interlock_again
      then (record l { scheduler = requeue l.scheduler item r.now (millis 200) }, held)
      else if not r.written
      then (record l { scheduler = requeue l.scheduler item r.later 0 }, failed)
      else let (governor, recorded) = record_tx l.governor octets r.now in
        (
          record {
            governor = governor;
            scheduler = on_keyed l.scheduler r.now item.account recorded item.expects_reply;
          },
          keyed item (if recorded == 0 then item.cost else recorded) (airc_seq item.payload.info),
        )

  -- The governor holds the frame.
  unfoldable pub hold : TncConfig → Link fl → Readings → Queued Ax25Frame → ℕ → Link fl × Outcome
  hold cfg l r item delay =
      if may_drop item.class && ltb cfg.max_hold (r.now - item.queued_at + delay)
      then (l, stale item)
      else (record l { scheduler = requeue l.scheduler item r.now delay }, held)

  -- What the governor says of a frame that was taken.
  unfoldable pub decide : TncConfig → Link fl → Readings → Queued Ax25Frame → Link fl × Outcome
  unfolding key hold
  decide cfg l r item =
      let octets = length (Frame.encode item.payload) in
      let (governor, decision) = Airtime.check l.governor octets r.now in
      let asked : Link fl = record l { governor = governor } in
      elim decision [
        | send ↦ key asked r item octets
        | defer delay reason ↦ hold cfg asked r item delay
      ]

  -- A frame was taken from the scheduler.
  unfoldable pub handle : TncConfig → Link fl → Readings → Queued Ax25Frame → Link fl × Outcome
  unfolding decide
  handle cfg l r item =
      if r.inhibit && not (same_class item.class id)
      then (l, inhibited item)
      else if ltb cfg.max_frame (length (Frame.encode item.payload))
      then (l, oversized item)
      else decide cfg l r item

  -- `poll` and `pop`, under one lock.
  unfoldable pub take_next : Link fl → ℕ → Link fl × Option (Queued Ax25Frame)
  take_next l now = elim (poll l.scheduler now) [
    | ready ↦ (record l { scheduler = (pop l.scheduler now).0 }, (pop l.scheduler now).1)
    | wait delay ↦ (l, none)
    | idle ↦ (l, none)
  ]

  -- The time to transmit has come.
  unfoldable pub turn : TncConfig → Link fl → Readings → Link fl × Outcome
  unfolding take_next handle
  turn cfg l r = if r.interlock then (l, nothing) else elim (take_next l r.now).1 [
    | none ↦ ((take_next l r.now).0, nothing)
    | some item ↦ handle cfg (take_next l r.now).0 r item
  ]
