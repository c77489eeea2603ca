-- ===== src/Ax25/Scheduler/Bounds.antt =====
-- The bounds of the scheduler of src/ax25/scheduler.rs.
use rfircd.Prelude.{
  ℕ, ◌+◌, ◌-◌, ◌≤◌, ◌≡◌, refl, inl, inr, Bool, not, List, [], ◌∷◌, ◌++◌, Option, none, some, Text,
  arith, ltb, leb, max, leb→gt, Bool-cases, Option-cases, length, All-append, All-keep, All-get,
  length-append, length-keep-le, get_elem?,
}
use rfircd.Prelude.Assoc.{
  Distinct, length-insert-make_room, insert-make_room-Distinct, keep-Distinct,
}
use rfircd.Prelude.Chars.{text_eq}
use rfircd.Prelude.Float.{Float}
use rfircd.Ax25.Scheduler.{
  Class, same_class, Queued, SchedulerConfig, Bucket, Scheduler, put, remove_at, later_of, is_late,
  can_expire, new, push, expire, on_heard, debit, on_keyed, requeue, best_of, pop, expire_accounts,
  drain, drain_except, set_min_gap, all_classes,
}
use rfircd.Ax25.Scheduler.Queues.{IsQueue, put-each, remove_at-IsQueue, requeued-IsQueue}

module _ {fl : Float} {T : Type 0} where
  pub record IsBounded (s : Scheduler fl T) : Type 0 where
    pub queues : (c : Class) → IsQueue s.cfg.depth c (s.queues c)
    pub distinct : Distinct s.buckets
    pub accounts : length s.buckets ≤ max 1 s.cfg.max_accounts

  new-IsBounded : (cfg : SchedulerConfig fl) → IsBounded (new {T = T} cfg)
  unfolding new IsQueue
  new-IsBounded cfg = record {
    queues = λ c. (omega arith, tt);
    distinct = tt;
    accounts = omega arith;
  }

  push-IsBounded : (s : Scheduler fl T) (item : Queued T) → IsBounded s → IsBounded (push s item).0
  unfolding push IsQueue
  push-IsBounded s item v =
      elim (Bool-cases (leb (s.cfg.depth item.class) (length (s.queues item.class)))) [
        | inl full ↦
            rw (push, full)
              (record { queues = v.queues; distinct = v.distinct; accounts = v.accounts })
        | inr free ↦
            rw (push, free)
              (record {
                queues =
                    put-each (IsQueue s.cfg.depth) s.queues item.class
                      (s.queues item.class ++ (item ∷ [])) v.queues
                      (
                        omega (
                          arith,
                          length-append (s.queues item.class) (item ∷ []),
                          leb→gt _ _ free,
                        ),
                        All-append (λ (i : Queued T). i.class ≡ item.class) (s.queues item.class)
                            (item ∷ []) (v.queues item.class).1 (refl, tt),
                      );
                distinct = v.distinct;
                accounts = v.accounts;
              })
      ]

  expire-IsBounded : (s : Scheduler fl T) (now : ℕ) → IsBounded s → IsBounded (expire s now).0
  unfolding expire IsQueue
  expire-IsBounded s now v = record { queues = each; distinct = v.distinct; accounts = v.accounts }
    where
      each : (c : Class) → IsQueue s.cfg.depth c ((expire s now).0.queues c)
      each c = elim (Bool-cases (can_expire c)) [
        | inl may ↦ rw (may) (
          omega (
            arith,
            length-keep-le (λ i. not (is_late s.cfg.max_hold now i)) (s.queues c),
            (v.queues c).0,
          ),
          All-keep (λ i. i.class ≡ c) (λ i. not (is_late s.cfg.max_hold now i)) (s.queues c)
              (v.queues c).1,
        )
        | inr never ↦ rw (never) (v.queues c)
      ]

  debit-IsBounded :
      (s : Scheduler fl T) (account : Text) (now cost : ℕ)
      → IsBounded s
      → IsBounded (debit s account now cost)
  unfolding debit
  debit-IsBounded s account now cost v = record {
    queues = v.queues;
    distinct =
        insert-make_room-Distinct (λ (b : Bucket fl). b.last) account _ s.cfg.max_accounts s.buckets
          v.distinct;
    accounts =
        length-insert-make_room (λ (b : Bucket fl). b.last) account _ s.cfg.max_accounts s.buckets
          v.accounts;
  }

  -- A write of a queue that has no more frames than the class may hold.
  put-IsBounded :
      (s : Scheduler fl T) (c : Class) (q : List (Queued T)) (pace : Option ℕ)
      → IsQueue s.cfg.depth c q
      → IsBounded s
      → IsBounded (record s { queues = put s.queues c q; pace_until = pace })
  put-IsBounded s c q pace h v = record {
    queues = put-each (IsQueue s.cfg.depth) s.queues c q v.queues h;
    distinct = v.distinct;
    accounts = v.accounts;
  }

  pop-IsBounded : (s : Scheduler fl T) (now : ℕ) → IsBounded s → IsBounded (pop s now).0
  unfolding pop
  pop-IsBounded s now v = elim (Option-cases (best_of s now all_classes none)) [
    | inl nothing ↦ rw (pop, nothing) v
    | inr ((c, idx, best), found) ↦
        rw (pop, found)
          (put-IsBounded s c (remove_at idx (s.queues c)) s.pace_until
            (remove_at-IsQueue s.cfg.depth c idx (s.queues c) (v.queues c)) v)
  ]

  -- A frame that was just taken and goes back.
  requeue-pop-IsBounded :
      (s : Scheduler fl T) (now delay : ℕ) {item : Queued T}
      → IsBounded s
      → (pop s now).1 ≡ some item
      → IsBounded (requeue (pop s now).0 item now delay)
  unfolding pop requeue IsQueue
  requeue-pop-IsBounded s now delay {item} v h =
      elim (Option-cases (best_of s now all_classes none)) [
        | inl nothing ↦ let none_some : none ≡ some item = rw (pop, nothing) at h in absurd (cc)
        | inr ((c, idx, best), found) ↦
            let there : get_elem? (s.queues c) idx ≡ some item = rw (pop, found) at h in
            let rest = remove_at idx (s.queues c) in
            let popped : Scheduler fl T = record s { queues = put s.queues c rest } in
            let own =
              All-get (λ (i : Queued T). i.class ≡ c) (s.queues c) idx (v.queues c).1 there in
            rw (pop, found)
              (put-IsBounded popped item.class (item ∷ popped.queues item.class)
                (later_of s.pace_until (some (now + delay)))
                (requeued-IsQueue s.cfg.depth s.queues c idx item there own (v.queues c))
                (put-IsBounded s c rest s.pace_until
                  (remove_at-IsQueue s.cfg.depth c idx (s.queues c) (v.queues c)) v))
      ]

  drain-IsBounded : (s : Scheduler fl T) → IsBounded s → IsBounded (drain s).0
  unfolding drain IsQueue
  drain-IsBounded s v = record {
    queues = λ c. (omega arith, tt);
    distinct = v.distinct;
    accounts = v.accounts;
  }

  drain_except-IsBounded :
      (s : Scheduler fl T) (kept : Class) → IsBounded s → IsBounded (drain_except s kept).0
  unfolding drain_except
  drain_except-IsBounded s kept v = record {
    queues = each;
    distinct = v.distinct;
    accounts = v.accounts;
  }
    where
      each : (c : Class) → IsQueue s.cfg.depth c ((drain_except s kept).0.queues c)
      each c = elim (Bool-cases (same_class c kept)) [
        | inl same ↦ rw (same) (v.queues c)
        | inr other ↦ rw (other) (unfold IsQueue in (omega arith, tt))
      ]

  expire_accounts-IsBounded :
      (s : Scheduler fl T) (now idle_for : ℕ)
      → IsBounded s
      → IsBounded (expire_accounts s now idle_for)
  unfolding expire_accounts
  expire_accounts-IsBounded s now idle_for v = record {
    queues = v.queues;
    distinct = keep-Distinct _ s.buckets v.distinct;
    accounts = omega (
      arith,
      v.accounts,
      length-keep-le (λ (b : Text × Bucket fl). ltb (now - b.1.last) idle_for) s.buckets,
    );
  }

-- The scheduler over time, by its operations. A frame goes back only when it was just taken.
pub data Reach {fl : Float} {T : Type 0} (cfg : SchedulerConfig fl) : Scheduler fl T → Type 0 where
  starts : Reach cfg (new cfg)
  pushes : (s : Scheduler fl T) (item : Queued T) → Reach cfg s → Reach cfg (push s item).0
  expires : (s : Scheduler fl T) (now : ℕ) → Reach cfg s → Reach cfg (expire s now).0
  hears : (s : Scheduler fl T) (now : ℕ) → Reach cfg s → Reach cfg (on_heard s now)
  keys :
      (s : Scheduler fl T) (now keyed : ℕ) (account : Text) (expects_reply : Bool)
      → Reach cfg s
      → Reach cfg (on_keyed s now account keyed expects_reply)
  pops : (s : Scheduler fl T) (now : ℕ) → Reach cfg s → Reach cfg (pop s now).0
  postpones :
      (s : Scheduler fl T) (now delay : ℕ) (item : Queued T)
      → Reach cfg s
      → (pop s now).1 ≡ some item
      → Reach cfg (requeue (pop s now).0 item now delay)
  expires_accounts :
      (s : Scheduler fl T) (now idle_for : ℕ)
      → Reach cfg s
      → Reach cfg (expire_accounts s now idle_for)
  drains : (s : Scheduler fl T) → Reach cfg s → Reach cfg (drain s).0
  drains_except :
      (s : Scheduler fl T) (kept : Class) → Reach cfg s → Reach cfg (drain_except s kept).0
  sets_min_gap : (s : Scheduler fl T) (gap : ℕ) → Reach cfg s → Reach cfg (set_min_gap s gap)

-- Whatever operations were called in whatever order, every class holds no more frames than its depth,
-- all of that class, and there are no more accounts than `max_accounts`, or one, each once.
pub scheduler-IsBounded :
    {fl : Float} {T : Type 0} (cfg : SchedulerConfig fl) (s : Scheduler fl T)
    → Reach cfg s
    → IsBounded s
unfolding on_heard on_keyed set_min_gap
scheduler-IsBounded cfg s Reach.starts = new-IsBounded cfg
scheduler-IsBounded cfg s (Reach.pushes t item r) =
    push-IsBounded t item (scheduler-IsBounded cfg t r)
scheduler-IsBounded cfg s (Reach.expires t now r) =
    expire-IsBounded t now (scheduler-IsBounded cfg t r)
scheduler-IsBounded cfg s (Reach.hears t now r) =
    let v = scheduler-IsBounded cfg t r in
    record { queues = v.queues; distinct = v.distinct; accounts = v.accounts }
scheduler-IsBounded cfg s (Reach.keys t now keyed account expects_reply r) =
    let v = debit-IsBounded t account now keyed (scheduler-IsBounded cfg t r) in
    record { queues = v.queues; distinct = v.distinct; accounts = v.accounts }
scheduler-IsBounded cfg s (Reach.pops t now r) = pop-IsBounded t now (scheduler-IsBounded cfg t r)
scheduler-IsBounded cfg s (Reach.postpones t now delay item r h) =
    requeue-pop-IsBounded t now delay (scheduler-IsBounded cfg t r) h
scheduler-IsBounded cfg s (Reach.expires_accounts t now idle_for r) =
    expire_accounts-IsBounded t now idle_for (scheduler-IsBounded cfg t r)
scheduler-IsBounded cfg s (Reach.drains t r) = drain-IsBounded t (scheduler-IsBounded cfg t r)
scheduler-IsBounded cfg s (Reach.drains_except t kept r) =
    drain_except-IsBounded t kept (scheduler-IsBounded cfg t r)
scheduler-IsBounded cfg s (Reach.sets_min_gap t gap r) =
    let v = scheduler-IsBounded cfg t r in
    record { queues = v.queues; distinct = v.distinct; accounts = v.accounts }
