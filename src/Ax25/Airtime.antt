-- ===== src/Ax25/Airtime.antt =====
-- The airtime governor, src/ax25/airtime.rs: what a frame costs, the three limits of `check`, and
-- `record`. A `Duration` is its nanoseconds and an `Instant` a number of them on one clock; `f64` is
-- the interface of Prelude/Float. `&mut self` is the governor passed in and out.
pub mod Window
pub mod Counts
pub mod Limits
pub mod Query
use rfircd.Prelude.{
  ℕ, zero, suc, ◌+◌, ◌-◌, ◌*◌, Bool, true, false, not, ◌&&◌, ◌||◌, List, [], ◌∷◌, ◌++◌, Option,
  none, some, ltb, leb, ◌==◌, if◌then◌else◌, min, max, keep,
}
use rfircd.Prelude.Float.{Float, half, clamp}

abbrev pub framing_octets : ℕ
framing_octets = 4

abbrev pub millis : ℕ → ℕ
millis n = n * 1_000_000

abbrev pub seconds : ℕ → ℕ
seconds n = n * 1_000_000_000

abbrev pub run_gap : ℕ
run_gap = seconds 3

pub data DeferReason : Type 0 where
  duty cooldown hourly_budget : DeferReason

pub data TxDecision : Type 0 where
  send : TxDecision
  defer : ℕ → DeferReason → TxDecision

-- Whether the decision is `Send`.
abbrev pub is_send : TxDecision → Bool
is_send send = true
is_send (defer delay reason) = false

pub record Burst : Type 0 where
  pub end : ℕ
  pub len : ℕ

-- The bursts that `airtime_within` counts.
abbrev pub in_window : ℕ → ℕ → Burst → Bool
in_window now window b = leb (now - b.end) window

unfoldable pub airtime_within : List Burst → ℕ → ℕ → ℕ
airtime_within [] now window = 0
airtime_within (b ∷ bs) now window =
    let rest = airtime_within bs now window in if in_window now window b then b.len + rest else rest

-- The bursts in front that are older than the horizon.
unfoldable pub trim : ℕ → ℕ → List Burst → List Burst
trim horizon now [] = []
trim horizon now (b ∷ bs) = if ltb horizon (now - b.end) then trim horizon now bs else b ∷ bs

-- The loop of `retry_delay`, with what is used so far; `none` is its end without a return.
unfoldable pub retry_bursts : ℕ → ℕ → ℕ → ℕ → ℕ → List Burst → Option ℕ
retry_bursts now window allowance cost used [] = none
retry_bursts now window allowance cost used (b ∷ bs) =
    let skip = retry_bursts now window allowance cost used bs in
    let left = used - b.len in
    let next = retry_bursts now window allowance cost left bs in
    if not (in_window now window b)
    then skip
    else if leb (used + cost) allowance
    then none
    else if leb (left + cost) allowance
    then some (max (b.end + window - now) (millis 100))
    else next

unfoldable pub retry_delay : List Burst → ℕ → ℕ → ℕ → ℕ → ℕ
unfolding retry_bursts
retry_delay bursts now window allowance cost =
    elim (retry_bursts now window allowance cost (airtime_within bursts now window) bursts) [
      | some delay ↦ delay
      | none ↦ max (min window (seconds 30)) (millis 100)
    ]

pub record AirtimeConfig (fl : Float) : Type 0 where
  pub enabled : Bool
  pub baud : ℕ
  pub txdelay : ℕ
  pub txtail : ℕ
  pub window : ℕ
  pub max_duty : fl.F
  pub max_continuous : ℕ
  pub cooldown : ℕ
  pub hourly_budget : ℕ
  pub max_hold : ℕ
  pub stuffing : fl.F

pub record Governor (fl : Float) : Type 0 where
  pub cfg : AirtimeConfig fl
  pub bursts : List Burst
  pub last_end : Option ℕ
  pub run : ℕ
  pub cooling_until : Option ℕ
  pub total : ℕ

-- Whether the finals had a gap since the last transmission; with none before, `default`.
abbrev pub rested : Option ℕ → ℕ → Bool → Bool
rested none now default = default
rested (some last) now default = leb run_gap (now - last)

abbrev pub or_now : Option ℕ → ℕ → ℕ
or_now none now = now
or_now (some last) now = last

abbrev pub wait_cooling : Option ℕ → ℕ → ℕ
wait_cooling none now = 0
wait_cooling (some until) now = until - now

-- What is waited for a limit on a window.
unfoldable pub wait_window : List Burst → ℕ → ℕ → ℕ → ℕ → ℕ
unfolding airtime_within retry_delay
wait_window bursts now window limit cost =
    if ltb limit (airtime_within bursts now window + cost)
    then retry_delay bursts now window limit cost
    else 0

module _ {fl : Float} where
  open fl use {F, of_nat, mul, div, lt, to_nat, mul_duration}

  unfoldable pub new : AirtimeConfig fl → Governor fl
  new cfg = record {
    cfg = cfg;
    bursts = [];
    last_end = none;
    run = 0;
    cooling_until = none;
    total = 0;
  }

  unfoldable pub effective_duty : AirtimeConfig fl → F
  effective_duty cfg = clamp fl cfg.max_duty (of_nat 0) (half fl)

  unfoldable pub set_duty : Governor fl → F → Governor fl
  set_duty g d = record g { cfg = record (g.cfg) { max_duty = d } }

  unfoldable pub allowance : AirtimeConfig fl → ℕ
  unfolding effective_duty
  allowance cfg = mul_duration cfg.window (effective_duty cfg)

  unfoldable pub airtime_for : AirtimeConfig fl → ℕ → ℕ
  airtime_for cfg octets =
      let bits = mul (of_nat (octets + framing_octets)) (of_nat 8) in
      let stuffed = mul bits (fl.max cfg.stuffing (of_nat 1)) in
      cfg.txdelay
      + to_nat (div (mul stuffed (of_nat 1_000_000)) (of_nat (max cfg.baud 1))) * 1000
      + cfg.txtail

  unfoldable pub hourly_budget_window : AirtimeConfig fl → ℕ
  hourly_budget_window cfg = if cfg.hourly_budget == 0 then 0 else seconds 3600

  unfoldable pub retention : AirtimeConfig fl → ℕ
  unfolding hourly_budget_window
  retention cfg = max cfg.window (hourly_budget_window cfg)

  unfoldable pub trimmed : Governor fl → ℕ → Governor fl
  unfolding trim retention
  trimmed g now = record g { bursts = trim (retention g.cfg) now g.bursts }

  -- A gap that is long enough ends the run.
  unfoldable pub end_run : Governor fl → ℕ → Governor fl
  end_run g now = if rested g.last_end now false then record g { run = 0 } else g

  -- The limits of `check`, in their order, once the cooldown is over.
  unfoldable pub check_limits : Governor fl → ℕ → ℕ → TxDecision
  unfolding airtime_for allowance airtime_within retry_delay hourly_budget_window
  check_limits g octets now =
      let cost = airtime_for g.cfg octets in
      let hour = hourly_budget_window g.cfg in
      if ltb g.cfg.max_continuous (g.run + cost) && ltb 0 g.run
      then defer (max (or_now g.last_end now + run_gap - now) (millis 1)) cooldown
      else if ltb (allowance g.cfg) (airtime_within g.bursts now g.cfg.window + cost)
      then defer (retry_delay g.bursts now g.cfg.window (allowance g.cfg) cost) duty
      else if not (g.cfg.hourly_budget == 0)
          && ltb g.cfg.hourly_budget (airtime_within g.bursts now hour + cost)
      then defer (retry_delay g.bursts now hour g.cfg.hourly_budget cost) hourly_budget
      else send

  -- The cooldown: still on, until when; or over, and the governor without it.
  unfoldable pub cool : Governor fl → ℕ → Option ℕ × Governor fl
  cool g now = elim g.cooling_until [
    | none ↦ (none, g)
    | some until ↦
        if ltb now until
        then (some until, g)
        else (none, record g { cooling_until = none; run = 0 })
  ]

  -- `check` with the governor on.
  unfoldable pub check_enabled : Governor fl → ℕ → ℕ → Governor fl × TxDecision
  unfolding trimmed cool end_run check_limits
  check_enabled g octets now =
      let (cooling, cooled) = cool (trimmed g now) now in
      elim cooling [
        | some until ↦ (cooled, defer (until - now) cooldown)
        | none ↦ (end_run cooled now, check_limits (end_run cooled now) octets now)
      ]

  unfoldable pub check : Governor fl → ℕ → ℕ → Governor fl × TxDecision
  unfolding check_enabled
  check g octets now = if g.cfg.enabled then check_enabled g octets now else (g, send)

  -- The last part of `record`: a run that is too long starts the cooldown.
  unfoldable pub start_cooldown : Governor fl → ℕ → Governor fl
  start_cooldown g end =
      if g.cfg.enabled && leb g.cfg.max_continuous g.run
      then record g { cooling_until = some (end + g.cfg.cooldown) }
      else g

  unfoldable pub transmitted : Governor fl → ℕ → ℕ → Governor fl
  unfolding airtime_for end_run trimmed start_cooldown
  transmitted g octets now =
      let cost = airtime_for g.cfg octets in
      let h = end_run g now in
      start_cooldown
        (trimmed
          (record h {
            run = h.run + cost;
            total = h.total + cost;
            last_end = some (now + cost);
            bursts = h.bursts ++ (record { end = now + cost; len = cost } ∷ []);
          })
          now)
        (now + cost)

  -- `record`: the governor, and the key-down time that it returns.
  unfoldable pub record_tx : Governor fl → ℕ → ℕ → Governor fl × ℕ
  unfolding transmitted
  record_tx g octets now =
      if not g.cfg.enabled then (g, 0) else (transmitted g octets now, airtime_for g.cfg octets)

  unfoldable pub reset : Governor fl → Governor fl
  reset g = record g { bursts = []; last_end = none; run = 0; cooling_until = none }

  unfoldable pub wait_run : Governor fl → ℕ → ℕ → ℕ
  wait_run g cost now =
      let run = if rested g.last_end now true then 0 else g.run in
      if ltb 0 run && ltb g.cfg.max_continuous (run + cost)
      then or_now g.last_end now + run_gap - now
      else 0

  unfoldable pub time_until_clear : Governor fl → ℕ → ℕ → ℕ
  unfolding airtime_for allowance hourly_budget_window wait_run wait_window
  time_until_clear g octets now =
      let cost = airtime_for g.cfg octets in
      if not g.cfg.enabled
      then 0
      else max
          (max (max (wait_cooling g.cooling_until now) (wait_run g cost now))
            (wait_window g.bursts now g.cfg.window (allowance g.cfg) cost))
          (if g.cfg.hourly_budget == 0
            then 0
            else wait_window g.bursts now (hourly_budget_window g.cfg) g.cfg.hourly_budget cost)

  -- The worst duty cycle that the run and the cooldown permit.
  unfoldable pub burst_duty : AirtimeConfig fl → F
  burst_duty cfg =
      let run = fl.secs cfg.max_continuous in
      let rest = fl.secs cfg.cooldown in
      if fl.le (fl.add run rest) (of_nat 0) then of_nat 1 else div run (fl.add run rest)

  -- Whether `check_hardware_safe` accepts the configuration.
  unfoldable pub is_hardware_safe : AirtimeConfig fl → Bool
  unfolding burst_duty
  is_hardware_safe cfg = not cfg.enabled || not (lt (half fl) (burst_duty cfg))
