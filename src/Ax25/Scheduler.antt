-- ===== src/Ax25/Scheduler.antt =====
-- The transmit scheduler, src/ax25/scheduler.rs: the frames that wait in each class, the accounts they
-- are charged to, the guards that hold the transmitter, and which frame goes next. The array of queues
-- is a function on the classes; a `Duration` is its nanoseconds and an `Instant` a number of them;
-- `f64` is the interface of Prelude/Float; `&mut self` is the scheduler passed in and out.
pub mod Queues
pub mod Bounds
pub mod Guards
pub mod Order
pub mod Best
use rfircd.Prelude.{
  ℕ, zero, suc, ◌+◌, ◌-◌, Bool, true, false, not, ◌&&◌, List, [], ◌∷◌, ◌++◌, map, Option, none,
  some, Text, Result, ok, err, ltb, leb, ◌==◌, if◌then◌else◌, max, keep, length, is_empty, drop,
  take, get_elem?,
}
use rfircd.Prelude.Assoc.{lookup, insert, make_room}
use rfircd.Prelude.Chars.{text_eq}
use rfircd.Prelude.Float.{Float}

pub data Class : Type 0 where
  chat direct control ack id : Class

-- `class as usize`.
abbrev pub index : Class → ℕ
index chat = 0
index direct = 1
index control = 2
index ack = 3
index id = 4

-- `Class::ALL`, highest priority first.
abbrev pub all_classes : List Class
all_classes = id ∷ ack ∷ control ∷ direct ∷ chat ∷ []

abbrev pub same_class : Class → Class → Bool
same_class c d = index c == index d

pub record Queued (T : Type 0) : Type 0 where
  pub payload : T
  pub class : Class
  pub account : Text
  pub cost : ℕ
  pub queued_at : ℕ
  pub expects_reply : Bool

pub record SchedulerConfig (fl : Float) : Type 0 where
  pub max_hold : ℕ
  pub min_gap : ℕ
  pub reply_window : ℕ
  pub rx_guard : ℕ
  pub aging : ℕ
  pub unfunded_penalty : fl.F
  pub station_rate : fl.F
  pub station_burst : ℕ
  pub max_deficit : fl.F
  pub max_accounts : ℕ
  pub depth : Class → ℕ

pub data Poll : Type 0 where
  ready : Poll
  wait : ℕ → Poll
  idle : Poll

pub record Bucket (fl : Float) : Type 0 where
  pub tokens : fl.F
  pub last : ℕ

pub record Scheduler (fl : Float) (T : Type 0) : Type 0 where
  pub cfg : SchedulerConfig fl
  pub queues : Class → List (Queued T)
  pub buckets : List (Text × Bucket fl)
  pub pace_until : Option ℕ
  pub reply_until : Option ℕ
  pub last_heard : Option ℕ
  pub refused : ℕ
  pub expired : ℕ

-- A write to the array of queues.
abbrev pub put :
    {T : Type 0} → (Class → List (Queued T)) → Class → List (Queued T) → Class → List (Queued T)
put qs c q d = if same_class c d then q else qs d

abbrev pub suc_some : Option ℕ → Option ℕ
suc_some none = none
suc_some (some i) = some (suc i)

-- `Iterator::position`, and `VecDeque::remove`.
abbrev pub position : {A : Type 0} → (A → Bool) → List A → Option ℕ
position p [] = none
position p (x ∷ xs) = if p x then some 0 else suc_some (position p xs)

abbrev pub remove_at : {A : Type 0} → ℕ → List A → List A
remove_at i xs = take i xs ++ drop (suc i) xs

abbrev pub or_zero : Option ℕ → ℕ
or_zero none = 0
or_zero (some n) = n

-- `flatten().max()`, one at a time.
abbrev pub later_of : Option ℕ → Option ℕ → Option ℕ
later_of none b = b
later_of (some a) none = some a
later_of (some a) (some b) = some (max a b)

abbrev pub sum : List ℕ → ℕ
sum [] = 0
sum (n ∷ ns) = n + sum ns

abbrev pub after : Option ℕ → ℕ → Option ℕ
after none d = none
after (some t) d = some (t + d)

-- Whether `expire` looks at a class.
abbrev pub can_expire : Class → Bool
can_expire chat = true
can_expire direct = true
can_expire control = true
can_expire ack = false
can_expire id = false

module _ {T : Type 0} where
  -- Whether a frame is past `max_hold`.
  abbrev pub is_late : ℕ → ℕ → Queued T → Bool
  is_late hold now item = ltb hold (now - item.queued_at)

  -- What `drain_except` takes from a class.
  abbrev pub unless : Class → Class → List (Queued T) → List (Queued T)
  unless kept c q = if same_class c kept then [] else q

module _ {fl : Float} {T : Type 0} where
  open fl use {F, of_nat, add, sub, mul, div, neg, lt, le, secs}

  unfoldable pub new : SchedulerConfig fl → Scheduler fl T
  new cfg = record {
    cfg = cfg;
    queues = λ c. [];
    buckets = [];
    pace_until = none;
    reply_until = none;
    last_heard = none;
    refused = 0;
    expired = 0;
  }

  unfoldable pub push : Scheduler fl T → Queued T → Scheduler fl T × Result (Queued T) Unit
  push s item =
      let q = s.queues item.class in
      if leb (s.cfg.depth item.class) (length q)
      then (record s { refused = s.refused + 1 }, err item)
      else (record s { queues = put s.queues item.class (q ++ (item ∷ [])) }, ok tt)

  -- The frames that `expire` takes out of a class.
  unfoldable pub late_in : Scheduler fl T → ℕ → Class → List (Queued T)
  late_in s now c = keep (is_late s.cfg.max_hold now) (s.queues c)

  unfoldable pub expire : Scheduler fl T → ℕ → Scheduler fl T × List (Queued T)
  unfolding late_in
  expire s now =
      let out = late_in s now chat ++ (late_in s now direct ++ late_in s now control) in
      (
        record s {
          queues = λ c.
              if can_expire c
              then keep (λ i. not (is_late s.cfg.max_hold now i)) (s.queues c)
              else s.queues c;
          expired = s.expired + length out;
        },
        out,
      )

  unfoldable pub on_heard : Scheduler fl T → ℕ → Scheduler fl T
  on_heard s now = record s { last_heard = some now; reply_until = none }

  unfoldable pub tokens : Scheduler fl T → Text → ℕ → F
  unfolding lookup
  tokens s account now =
      let burst = secs s.cfg.station_burst in
      elim (lookup account s.buckets) [
        | none ↦ burst
        | some b ↦ fl.min (add b.tokens (mul (secs (now - b.last)) s.cfg.station_rate)) burst
      ]

  unfoldable pub funded : Scheduler fl T → Text → ℕ → ℕ → Bool
  unfolding tokens
  funded s account cost now = le (secs cost) (tokens s account now)

  unfoldable pub debit : Scheduler fl T → Text → ℕ → ℕ → Scheduler fl T
  unfolding tokens insert make_room
  debit s account now cost =
      let burst = secs s.cfg.station_burst in
      let floor = mul (neg burst) (fl.max s.cfg.max_deficit (of_nat 0)) in
      let room = make_room (λ (b : Bucket fl). b.last) account s.cfg.max_accounts s.buckets in
      record s {
        buckets =
            insert account
              (record {
                tokens = fl.max (sub (tokens s account now) (secs cost)) floor;
                last = now;
              })
              room;
      }

  unfoldable pub on_keyed : Scheduler fl T → ℕ → Text → ℕ → Bool → Scheduler fl T
  unfolding debit
  on_keyed s now account keyed expects_reply = record (debit s account now keyed) {
    pace_until = some (now + keyed + s.cfg.min_gap);
    reply_until = if expects_reply then some (now + keyed + s.cfg.reply_window) else none;
  }

  unfoldable pub requeue : Scheduler fl T → Queued T → ℕ → ℕ → Scheduler fl T
  requeue s item now delay = record s {
    pace_until = later_of s.pace_until (some (now + delay));
    queues = put s.queues item.class (item ∷ s.queues item.class);
  }

  unfoldable pub blocked_until : Scheduler fl T → Option ℕ
  blocked_until s =
      later_of (later_of s.pace_until s.reply_until) (after s.last_heard s.cfg.rx_guard)

  unfoldable pub is_idle : Scheduler fl T → Bool
  is_idle s =
      is_empty (s.queues chat)
      && is_empty (s.queues direct)
      && is_empty (s.queues control)
      && is_empty (s.queues ack)
      && is_empty (s.queues id)

  unfoldable pub poll : Scheduler fl T → ℕ → Poll
  unfolding is_idle blocked_until
  poll s now = if is_idle s then idle else elim (blocked_until s) [
    | none ↦ ready
    | some t ↦ if ltb now t then wait (t - now) else ready
  ]

  unfoldable pub score : Scheduler fl T → Queued T → ℕ → F
  unfolding funded
  score s item now =
      let aging = fl.max (secs s.cfg.aging) (div (of_nat 1) (of_nat 1000)) in
      let waited = add (of_nat (index item.class)) (div (secs (now - item.queued_at)) aging) in
      if not (funded s item.account item.cost now)
      then sub waited s.cfg.unfunded_penalty
      else waited

  -- The index of the first funded frame of a class, or 0.
  unfoldable pub chosen : Scheduler fl T → ℕ → List (Queued T) → ℕ
  unfolding funded
  chosen s now q = or_zero (position (λ i. funded s i.account i.cost now) q)

  -- One round of the loop of `pop`. A queue that is empty is skipped; `chosen` is within any other.
  unfoldable pub consider :
      Scheduler fl T → ℕ → Class → Option (Class × ℕ × F) → Option (Class × ℕ × F)
  unfolding score chosen
  consider s now c best =
      let idx = chosen s now (s.queues c) in
      elim (get_elem? (s.queues c) idx) [
        | none ↦ best
        | some item ↦
            let this = score s item now in
            elim best [
              | none ↦ some (c, idx, this)
              | some (d, i, b) ↦ if lt b this then some (c, idx, this) else some (d, i, b)
            ]
      ]

  unfoldable pub best_of :
      Scheduler fl T → ℕ → List Class → Option (Class × ℕ × F) → Option (Class × ℕ × F)
  unfolding consider
  best_of s now [] best = best
  best_of s now (c ∷ cs) best = best_of s now cs (consider s now c best)

  unfoldable pub pop : Scheduler fl T → ℕ → Scheduler fl T × Option (Queued T)
  unfolding best_of
  pop s now = elim (best_of s now all_classes none) [
    | none ↦ (s, none)
    | some (c, idx, _) ↦ (
      record s { queues = put s.queues c (remove_at idx (s.queues c)) },
      get_elem? (s.queues c) idx,
    )
  ]

  unfoldable pub expire_accounts : Scheduler fl T → ℕ → ℕ → Scheduler fl T
  expire_accounts s now idle_for = record s {
    buckets = keep (λ b. ltb (now - b.1.last) idle_for) s.buckets;
  }

  unfoldable pub len : Scheduler fl T → ℕ
  len s = sum (map (λ c. length (s.queues c)) (chat ∷ direct ∷ control ∷ ack ∷ id ∷ []))

  unfoldable pub room_in : Scheduler fl T → Class → ℕ
  room_in s c = s.cfg.depth c - length (s.queues c)

  unfoldable pub queued_airtime_in : Scheduler fl T → Class → ℕ
  queued_airtime_in s c = sum (map (λ (i : Queued T). i.cost) (s.queues c))

  unfoldable pub queued_airtime : Scheduler fl T → ℕ
  unfolding queued_airtime_in
  queued_airtime s = sum (map (queued_airtime_in s) (chat ∷ direct ∷ control ∷ ack ∷ id ∷ []))

  unfoldable pub drain : Scheduler fl T → Scheduler fl T × List (Queued T)
  drain s = (
    record s { queues = λ c. [] },
    s.queues chat ++ (s.queues direct ++ (s.queues control ++ (s.queues ack ++ s.queues id))),
  )

  unfoldable pub drain_except : Scheduler fl T → Class → Scheduler fl T × List (Queued T)
  drain_except s kept = (
    record s { queues = λ c. if same_class c kept then s.queues c else [] },
    unless kept id (s.queues id)
        ++ (unless kept ack (s.queues ack)
            ++ (unless kept control (s.queues control)
                ++ (unless kept direct (s.queues direct) ++ unless kept chat (s.queues chat)))),
  )

  unfoldable pub set_min_gap : Scheduler fl T → ℕ → Scheduler fl T
  set_min_gap s gap = record s { cfg = record (s.cfg) { min_gap = gap } }
