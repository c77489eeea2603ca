-- ===== src/Tests/Scheduler.antt =====
-- The transmit scheduler, src/ax25/scheduler.rs, on concrete inputs.
use rfircd.Prelude.{
  ℕ, ◌+◌, ◌-◌, ◌≡◌, refl, [], ◌∷◌, true, false, some, inl, arith, if◌then◌else◌, ltb,
}
use rfircd.Prelude.Assoc.{lookup}
use rfircd.Tests.Samples.{thousandths}
use rfircd.Ax25.Airtime.{seconds, millis}
use rfircd.Ax25.Scheduler
use rfircd.Ax25.Scheduler.{
  Class, chat, control, Queued, SchedulerConfig, new, push, pop, requeue, poll, ready, wait,
  on_keyed, best_of, consider, score, funded, tokens, chosen, debit, is_idle, blocked_until,
}
use rfircd.Ax25.Scheduler.Bounds.{Reach, IsBounded, scheduler-IsBounded}
use rfircd.Ax25.Scheduler.Guards.{poll-wait}
use rfircd.Ax25.Scheduler.Best.{Candidate, Served, pop-Served}

abbrev cfg : SchedulerConfig thousandths
cfg = record {
  max_hold = seconds 120;
  min_gap = millis 1500;
  reply_window = millis 3500;
  rx_guard = millis 600;
  aging = seconds 20;
  unfunded_penalty = 1500;
  station_rate = 20;
  station_burst = seconds 12;
  max_deficit = 3000;
  max_accounts = 256;
  depth = λ c. 2;
}

abbrev frame : Class → ℕ → Queued ℕ
frame c cost = record {
  payload = cost;
  class = c;
  account = b'A' ∷ [];
  cost = cost;
  queued_at = 0;
  expects_reply = false;
}

-- A frame that its account cannot pay for, and behind it one that it can.
abbrev waiting : Scheduler.Scheduler thousandths ℕ
waiting = record (new {T = ℕ} cfg) {
  queues = λ c.
      if Scheduler.same_class c chat
      then frame chat (seconds 20) ∷ frame chat (seconds 1) ∷ []
      else [];
}

ltb_trans : (x y z : ℕ) → ltb x y ≡ true → ltb y z ≡ true → ltb x z ≡ true
ltb_trans x y z h l = ground (arith, h, l)

ltb_irrefl : (x : ℕ) → ltb x x ≡ false
ltb_irrefl x = ground arith

-- The later frame of one account overtakes the earlier one.
overtakes : (pop waiting 0).1 ≡ some (frame chat (seconds 1))
unfolding pop best_of consider score funded tokens chosen lookup new
overtakes = refl

front : Candidate waiting 0 chat (frame chat (seconds 1))
unfolding funded tokens chosen lookup new
front = record {
  split = record { whole = refl; here = refl; before = (refl, tt); first = inl refl };
}

pop-Served_example :
    (r : Served waiting 0 (pop waiting 0)) × (ltb
        (score waiting r.item 0)
        (score waiting (frame chat (seconds 1)) 0)
      ≡ false)
pop-Served_example = pop-Served ltb_trans ltb_irrefl waiting 0 chat (frame chat (seconds 1)) front

poll-wait_example :
    (poll (on_keyed waiting 0 (b'A' ∷ []) (seconds 1) false) (seconds 1 + millis 1500) ≡ ready)
    × (poll (on_keyed waiting 0 (b'A' ∷ []) (seconds 1) false) (seconds 2)
        ≡ wait (0 + (seconds 1 + millis 1500) - seconds 2))
unfolding poll on_keyed debit is_idle blocked_until new
poll-wait_example =
    poll-wait (on_keyed waiting 0 (b'A' ∷ []) (seconds 1) false) 0 (seconds 1 + millis 1500)
      (seconds 2) refl (omega arith) (omega arith)

scheduler-IsBounded_example : IsBounded (
    requeue
      (pop (push (new {T = ℕ} cfg) (frame chat (seconds 1))).0 0).0
      (frame chat (seconds 1))
      0
      (seconds 5))
unfolding push pop best_of consider score funded tokens chosen lookup new
scheduler-IsBounded_example =
    scheduler-IsBounded cfg
      (requeue (pop (push (new {T = ℕ} cfg) (frame chat (seconds 1))).0 0).0
        (frame chat (seconds 1)) 0 (seconds 5))
      (Reach.postpones (push (new {T = ℕ} cfg) (frame chat (seconds 1))).0 0 (seconds 5)
        (frame chat (seconds 1))
        (Reach.pushes (new {T = ℕ} cfg) (frame chat (seconds 1)) Reach.starts) refl)
