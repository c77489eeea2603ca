-- ===== src/Tests/Tnc.antt =====
-- The loop of the TNC link, src/ax25/tnc.rs, on concrete inputs.
use rfircd.Prelude.{
  Bool, ◌+◌, ◌≡◌, ◌≤◌, ◌⊎◌, refl, [], ◌∷◌, ◌++◌, true, false, none, some, arith, if◌then◌else◌,
}
use rfircd.Tests.Samples.{alice, gateway, thousandths}
use rfircd.Ax25.Address
use rfircd.Ax25.Frame
use rfircd.Ax25.Frame.{Ax25Frame}
use rfircd.Ax25.Airtime.{
  AirtimeConfig, Burst, seconds, millis, allowance, effective_duty, airtime_within,
  hourly_budget_window, check, check_enabled, check_limits, cool, trimmed, trim, end_run, retention,
  airtime_for, record_tx,
}
use rfircd.Ax25.Airtime
use rfircd.Ax25.Scheduler
use rfircd.Ax25.Scheduler.{
  Class, ack, chat, Queued, SchedulerConfig, Scheduler, same_class, poll, pop, is_idle,
  blocked_until, best_of, consider, score, funded, tokens, chosen,
}
use rfircd.Prelude.Assoc.{lookup}
use rfircd.Ax25.Tnc.{
  TncConfig, Link, Readings, keyed, turn, take_next, handle, decide, key, airc_seq,
}
use rfircd.Ax25.Tnc.Limits.{Run, sent, tnc-IsWithin}
use rfircd.Ax25.Tnc.Frames.{count_waiting, gone, turn-count_waiting}
use rfircd.Ax25.Tnc.Keyed.{IsAllowed, turn-keyed}

abbrev ac : AirtimeConfig thousandths
ac = record {
  enabled = true;
  baud = 300;
  txdelay = millis 400;
  txtail = millis 300;
  window = seconds 600;
  max_duty = 250;
  max_continuous = seconds 30;
  cooldown = seconds 60;
  hourly_budget = seconds 900;
  max_hold = seconds 120;
  stuffing = 1050;
}

abbrev sc : SchedulerConfig thousandths
sc = record {
  max_hold = seconds 120;
  min_gap = millis 1500;
  reply_window = millis 3500;
  rx_guard = millis 600;
  aging = seconds 20;
  unfunded_penalty = 1500;
  station_rate = 20;
  station_burst = seconds 12;
  max_deficit = 3000;
  max_accounts = 256;
  depth = λ c. 2;
}

abbrev item : Queued Ax25Frame
item = record {
  payload = record {
    destination = record { call = gateway; c_bit = true; last = false };
    source = record { call = alice; c_bit = false; last = true };
    digipeaters = [];
    control = 0x03;
    pid = some 0xF0;
    info = b'h' ∷ b'i' ∷ [];
  };
  class = ack;
  account = b'A' ∷ [];
  cost = seconds 1;
  queued_at = 0;
  expects_reply = false;
}

abbrev waiting : Scheduler thousandths Ax25Frame
waiting = record (Scheduler.new sc) { queues = λ c. if same_class c ack then item ∷ [] else [] }

abbrev link : Link thousandths
link = record { scheduler = waiting; governor = Airtime.new ac }

abbrev clear : Readings
clear = record {
  now = 0;
  interlock = false;
  inhibit = false;
  interlock_again = false;
  written = true;
  later = 0;
}

abbrev cfg : TncConfig
cfg = record { max_frame = 330; max_hold = seconds 120 }

keys : (turn cfg link clear).1 ≡ keyed item (airtime_for ac 18) none
unfolding turn take_next handle decide key airc_seq poll pop is_idle blocked_until best_of consider
    score funded tokens chosen lookup Scheduler.new Airtime.new check check_enabled check_limits
    cool trimmed trim end_run retention airtime_for airtime_within allowance effective_duty
    hourly_budget_window record_tx Frame.encode Address.encode Address.shifted
    Frame.encode_digipeaters
keys = refl

tnc-IsWithin_example :
    (airtime_within ([] ++ sent ac 0 (turn cfg link clear).1) 0 ac.window ≤ seconds 150)
    × ((ac.hourly_budget ≡ 0)
        ⊎ (airtime_within ([] ++ sent ac 0 (turn cfg link clear).1) 0 (hourly_budget_window ac)
            ≤ ac.hourly_budget))
unfolding allowance effective_duty
tnc-IsWithin_example =
    tnc-IsWithin cfg ac (seconds 150) 0 (turn cfg link clear).0
      ([] ++ sent ac 0 (turn cfg link clear).1) refl (omega arith)
      (Run.turns clear link [] (Run.starts 0 waiting))

-- The frames of a class.
abbrev is_chat : Queued Ax25Frame → Bool
is_chat item = same_class item.class chat

turn-count_waiting_example :
    count_waiting is_chat (turn cfg link clear).0.scheduler + gone is_chat (turn cfg link clear).1
    ≡ count_waiting is_chat link.scheduler
turn-count_waiting_example = turn-count_waiting is_chat cfg link clear

turn-keyed_example : IsAllowed cfg link clear item
turn-keyed_example = turn-keyed cfg link clear item (airtime_for ac 18) none keys
