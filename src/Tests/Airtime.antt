-- ===== src/Tests/Airtime.antt =====
-- The airtime governor, src/ax25/airtime.rs, on concrete inputs.
use rfircd.Prelude.{
  ◌+◌, ◌-◌, ◌≡◌, ◌≤◌, refl, [], ◌∷◌, ◌++◌, true, none, some, inl, inr, arith, ◌==◌, ◌⊎◌,
}
use rfircd.Tests.Samples.{thousandths}
use rfircd.Ax25.Airtime.{
  AirtimeConfig, Governor, new, seconds, millis, send, defer, cooldown, check, check_enabled,
  check_limits, record_tx, transmitted, airtime_for, allowance, airtime_within,
  hourly_budget_window, time_until_clear, wait_run, wait_window, retention, trim, trimmed, end_run,
  cool, start_cooldown, effective_duty, is_send,
}
use rfircd.Ax25.Airtime.Limits.{Reach, airtime-IsWithin}
use rfircd.Ax25.Airtime.Counts.{burst}
use rfircd.Ax25.Airtime.Query.{IsSettled, check-record_tx_cooling, time_until_clear-check}

-- The default configuration.
abbrev cfg : AirtimeConfig thousandths
cfg = record {
  enabled = true;
  baud = 300;
  txdelay = millis 400;
  txtail = millis 300;
  window = seconds 600;
  max_duty = 250;
  max_continuous = seconds 30;
  cooldown = seconds 60;
  hourly_budget = seconds 900;
  max_hold = seconds 120;
  stuffing = 1050;
}

airtime_for_run : airtime_for cfg 71 ≡ millis 2800
unfolding airtime_for
airtime_for_run = refl

allowance_run : allowance cfg ≡ seconds 150
unfolding allowance effective_duty
allowance_run = refl

-- The first frame may be sent, and is.
first_send : (check (new cfg) 71 0).1 ≡ send
unfolding check check_enabled check_limits cool trimmed trim end_run airtime_within new airtime_for
    allowance effective_duty hourly_budget_window retention
first_send = refl

airtime-IsWithin_example :
    (airtime_within ([] ++ (burst 0 (airtime_for cfg 71) ∷ [])) 0 cfg.window ≤ seconds 150)
    × ((cfg.hourly_budget ≡ 0)
        ⊎ (airtime_within ([] ++ (burst 0 (airtime_for cfg 71) ∷ [])) 0 (hourly_budget_window cfg)
            ≤ cfg.hourly_budget))
airtime-IsWithin_example =
    airtime-IsWithin cfg (seconds 150) refl (rw (allowance_run) (omega arith)) 0
      (record_tx (check (new cfg) 71 0).0 71 0).0 ([] ++ (burst 0 (airtime_for cfg 71) ∷ []))
      (Reach.transmits 0 71 (new cfg) [] (Reach.starts 0) first_send)

-- A run of 29 seconds, which the next frame makes too long.
abbrev hot : Governor thousandths
hot = record {
  cfg = cfg;
  bursts = (record { end = seconds 29; len = seconds 29 }) ∷ [];
  last_end = some (seconds 29);
  run = seconds 29;
  cooling_until = none;
  total = seconds 29;
}

check-record_tx_cooling_example :
    (check (record_tx hot 71 (seconds 30)).0 10 (seconds 50)).1
    ≡ defer (seconds 30 + airtime_for hot.cfg 71 + hot.cfg.cooldown - seconds 50) cooldown
unfolding record_tx transmitted end_run start_cooldown trimmed airtime_for
check-record_tx_cooling_example =
    check-record_tx_cooling hot 71 10 (seconds 30) (seconds 50) refl (omega arith) (omega arith)

hot-IsSettled : IsSettled hot
hot-IsSettled = record { cooling = inl refl; run = inr (seconds 29, refl) }

time_until_clear-check_example :
    (time_until_clear hot 71 (seconds 40) == 0) ≡ is_send (check hot 71 (seconds 40)).1
time_until_clear-check_example = time_until_clear-check hot 71 (seconds 40) refl hot-IsSettled

-- A cooldown of one second, which is over: `check` lets the frame go, and `time_until_clear` still
-- waits for the end of the gap.
abbrev cooled : Governor thousandths
cooled = record {
  cfg = record cfg { cooldown = seconds 1 };
  bursts = (record { end = seconds 40; len = seconds 30 }) ∷ [];
  last_end = some (seconds 40);
  run = seconds 30;
  cooling_until = some (seconds 41);
  total = seconds 30;
}

disagrees :
    ((check cooled 71 (seconds 41)).1 ≡ send)
    × (time_until_clear cooled 71 (seconds 41) ≡ seconds 2)
unfolding check check_enabled check_limits cool trimmed trim end_run airtime_within airtime_for
    allowance effective_duty hourly_budget_window retention time_until_clear wait_run wait_window
disagrees = (refl, refl)
