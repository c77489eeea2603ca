-- ===== src/Ax25/Airtime/Limits.antt =====
-- The limits of the governor of src/ax25/airtime.rs over every sequence of its operations.
use rfircd.Prelude.{
  ℕ, ◌+◌, ◌≤◌, ◌≡◌, ◌⊎◌, refl, sym, ap, ◌∙◌, inl, inr, true, List, [], ◌∷◌, ◌++◌, arith,
  if◌then◌else◌, Bool-cases, subst,
}
use rfircd.Prelude.Float.{Float}
use rfircd.Ax25.Airtime.{
  Burst, send, AirtimeConfig, Governor, new, airtime_within, airtime_for, allowance,
  hourly_budget_window, retention, check_enabled, check, transmitted, record_tx, set_duty,
}
use rfircd.Ax25.Airtime.Window.{airtime_within-later, airtime_within-append, airtime_within-one}
use rfircd.Ax25.Airtime.Counts.{
  burst, Counts, Fits, check_enabled-Counts, check_enabled-Fits, transmitted-Counts,
}

-- The governor over time: the clock goes on, a frame is asked about, a frame that may be sent is sent
-- and recorded, and the duty target is set to one whose allowance is within `limit`. The last index
-- is every transmission since the governor was made.
pub data Reach {fl : Float} (cfg : AirtimeConfig fl) (limit : ℕ)
    : ℕ → Governor fl → List Burst → Type 0 where
  starts : (now : ℕ) → Reach cfg limit now (new cfg) []
  waits :
      (now later : ℕ) (g : Governor fl) (past : List Burst)
      → Reach cfg limit now g past
      → now ≤ later
      → Reach cfg limit later g past
  asks :
      (now octets : ℕ) (g : Governor fl) (past : List Burst)
      → Reach cfg limit now g past
      → Reach cfg limit now (check g octets now).0 past
  transmits :
      (now octets : ℕ) (g : Governor fl) (past : List Burst)
      → Reach cfg limit now g past
      → (check g octets now).1 ≡ send
      → Reach cfg limit now
          (record_tx (check g octets now).0 octets now).0
          (past ++ (burst now (airtime_for cfg octets) ∷ []))
  sets_duty :
      (now : ℕ) (g : Governor fl) (past : List Burst) (duty : fl.F)
      → Reach cfg limit now g past
      → allowance (set_duty g duty).cfg ≤ limit
      → Reach cfg limit now (set_duty g duty) past

module _ {fl : Float} (cfg : AirtimeConfig fl) (limit : ℕ) (on : cfg.enabled ≡ true)
    (start : allowance cfg ≤ limit) where
  record Inv (now : ℕ) (g : Governor fl) (past : List Burst) : Type 0 where
    same : g.cfg ≡ record cfg { max_duty = g.cfg.max_duty }
    allowed : allowance g.cfg ≤ limit
    counts : Counts g now past
    window : airtime_within past now cfg.window ≤ limit
    hour :
        (cfg.hourly_budget ≡ 0)
        ⊎ (airtime_within past now (hourly_budget_window cfg) ≤ cfg.hourly_budget)

  new-Inv : (now : ℕ) → Inv now (new cfg) []
  unfolding new Counts airtime_within
  new-Inv now = record {
    same = refl;
    allowed = start;
    counts = λ later window l w. refl;
    window = omega arith;
    hour = inr (omega arith);
  }

  later-Inv :
      (now later : ℕ) (g : Governor fl) (past : List Burst)
      → now ≤ later
      → Inv now g past
      → Inv later g past
  unfolding Counts
  later-Inv now later g past h v = record {
    same = v.same;
    allowed = v.allowed;
    counts = λ after window l w. v.counts after window (omega arith) w;
    window = omega (arith, airtime_within-later past now later cfg.window h, v.window);
    hour = elim v.hour [
      | inl off ↦ inl off
      | inr within ↦
          inr (omega (arith, airtime_within-later past now later (hourly_budget_window cfg) h))
    ];
  }

  -- The same configuration, but for the duty target, and the same count.
  kept-Inv :
      (now : ℕ) (g h : Governor fl) (past : List Burst)
      → Counts h now past × (h.cfg ≡ g.cfg)
      → Inv now g past
      → Inv now h past
  kept-Inv now g h past k v = record {
    same = rw (k.1) v.same;
    allowed = rw (k.1) v.allowed;
    counts = k.0;
    window = v.window;
    hour = v.hour;
  }

  check-Counts :
      (g : Governor fl) (octets now : ℕ) (past : List Burst)
      → Counts g now past
      → Counts (check g octets now).0 now past × ((check g octets now).0.cfg ≡ g.cfg)
  unfolding check
  check-Counts g octets now past c = elim (Bool-cases g.cfg.enabled) [
    | inl is_on ↦
        subst
          (λ b.
            Counts (if b then check_enabled g octets now else (g, send)).0 now past
            × ((if b then check_enabled g octets now else (g, send)).0.cfg ≡ g.cfg))
          (sym is_on) (check_enabled-Counts g octets now past c)
    | inr is_off ↦
        subst
          (λ b.
            Counts (if b then check_enabled g octets now else (g, send)).0 now past
            × ((if b then check_enabled g octets now else (g, send)).0.cfg ≡ g.cfg))
          (sym is_off) (c, refl)
  ]

  retention-same :
      (c : AirtimeConfig fl)
      → c ≡ record cfg { max_duty = c.max_duty }
      → retention c ≡ retention cfg
  unfolding retention hourly_budget_window
  retention-same c e = ap retention e

  hour-same :
      (c : AirtimeConfig fl)
      → c ≡ record cfg { max_duty = c.max_duty }
      → hourly_budget_window c ≡ hourly_budget_window cfg
  unfolding hourly_budget_window
  hour-same c e = ap hourly_budget_window e

  airtime_for-same :
      (c : AirtimeConfig fl) (octets : ℕ)
      → c ≡ record cfg { max_duty = c.max_duty }
      → airtime_for c octets ≡ airtime_for cfg octets
  unfolding airtime_for
  airtime_for-same c octets e = ap (λ d. airtime_for d octets) e

  window-le-retention : (c : AirtimeConfig fl) → c.window ≤ retention c
  unfolding retention
  window-le-retention c = omega arith

  hour-le-retention : (c : AirtimeConfig fl) → hourly_budget_window c ≤ retention c
  unfolding retention
  hour-le-retention c = omega arith

  -- What fits by the governor's count fits by all that was made.
  sent-Inv :
      (g : Governor fl) (octets now : ℕ) (past : List Burst)
      → Inv now g past
      → Fits g now (airtime_for g.cfg octets)
      → Inv now (transmitted g octets now) (past ++ (burst now (airtime_for cfg octets) ∷ []))
  unfolding Fits Counts
  sent-Inv g octets now past v f =
      let cost = airtime_for cfg octets in
      let k = transmitted-Counts g octets now past v.counts in
      let price = airtime_for-same g.cfg octets v.same in
      let b = burst now cost in
      let w : g.cfg.window ≡ cfg.window = ap (λ (c : AirtimeConfig fl). c.window) v.same in
      let budget : g.cfg.hourly_budget ≡ cfg.hourly_budget =
        ap (λ (c : AirtimeConfig fl). c.hourly_budget) v.same in
      let hour = hour-same g.cfg v.same in
      let all = past ++ (b ∷ []) in
      let one = airtime_within-one (now + cost) cost now cfg.window in
      let one_hour = airtime_within-one (now + cost) cost now (hourly_budget_window cfg) in
      let sum = airtime_within-append past (b ∷ []) now cfg.window in
      let sum_hour = airtime_within-append past (b ∷ []) now (hourly_budget_window cfg) in
      let in_window = v.counts now g.cfg.window (omega arith) (window-le-retention g.cfg) in
      let in_hour =
        v.counts now (hourly_budget_window g.cfg) (omega arith) (hour-le-retention g.cfg) in
      let moved = ap (airtime_within past now) w in
      let moved_hour = ap (airtime_within past now) hour in
      record {
        same =
            k.1
            ∙ v.same
            ∙ ap (λ (c : AirtimeConfig fl). record cfg { max_duty = c.max_duty }) (sym (k.1));
        allowed = rw (k.1) v.allowed;
        counts = rw (← price) k.0;
        window = omega (arith, f.0, v.allowed, price, in_window, moved, sum, one);
        hour = elim f.1 [
          | inl off ↦ inl (sym budget ∙ off)
          | inr fits ↦
              inr (omega (arith, fits, budget, price, in_hour, moved_hour, sum_hour, one_hour))
        ];
      }

  enabled-same :
      (c : AirtimeConfig fl) → c ≡ record cfg { max_duty = c.max_duty } → c.enabled ≡ true
  enabled-same c e = ap (λ (d : AirtimeConfig fl). d.enabled) e ∙ on

  record_tx-enabled :
      (g : Governor fl) (octets now : ℕ)
      → g.cfg.enabled ≡ true
      → (record_tx g octets now).0 ≡ transmitted g octets now
  unfolding record_tx
  record_tx-enabled g octets now h = ground (arith, h)

  transmits-Inv :
      (g : Governor fl) (octets now : ℕ) (past : List Burst)
      → Inv now g past
      → (check g octets now).1 ≡ send
      → Inv now
          (record_tx (check g octets now).0 octets now).0
          (past ++ (burst now (airtime_for cfg octets) ∷ []))
  unfolding check
  transmits-Inv g octets now past v h =
      let is_on = enabled-same g.cfg v.same in
      let e : check g octets now ≡ check_enabled g octets now =
        subst
          (λ b. (if b then check_enabled g octets now else (g, send)) ≡ check_enabled g octets now)
          (sym is_on) refl in
      let asked = (check_enabled g octets now).0 in
      let w = kept-Inv now g asked past (check_enabled-Counts g octets now past v.counts) v in
      let fits = check_enabled-Fits g octets now (sym (ap (λ r. r.1) e) ∙ h) in
      let still = enabled-same asked.cfg w.same in
      let made = record_tx-enabled asked octets now still in
      subst
        (λ r.
          Inv now (record_tx r.0 octets now).0 (past ++ (burst now (airtime_for cfg octets) ∷ [])))
        (sym e)
        (subst (λ r. Inv now r (past ++ (burst now (airtime_for cfg octets) ∷ []))) (sym made)
          (sent-Inv asked octets now past w fits))

  sets_duty-Inv :
      (g : Governor fl) (now : ℕ) (past : List Burst) (duty : fl.F)
      → Inv now g past
      → allowance (set_duty g duty).cfg ≤ limit
      → Inv now (set_duty g duty) past
  unfolding set_duty Counts retention hourly_budget_window
  sets_duty-Inv g now past duty v a = record {
    same = ap (λ (c : AirtimeConfig fl). record c { max_duty = duty }) v.same;
    allowed = a;
    counts = v.counts;
    window = v.window;
    hour = v.hour;
  }

  Reach-Inv :
      {now : ℕ} {g : Governor fl} {past : List Burst} → Reach cfg limit now g past → Inv now g past
  Reach-Inv (Reach.starts now) = new-Inv now
  Reach-Inv (Reach.waits now later g past r h) = later-Inv now later g past h (Reach-Inv r)
  Reach-Inv (Reach.asks now octets g past r) =
      let v = Reach-Inv r in
      kept-Inv now g (check g octets now).0 past (check-Counts g octets now past v.counts) v
  Reach-Inv (Reach.transmits now octets g past r h) =
      transmits-Inv g octets now past (Reach-Inv r) h
  Reach-Inv (Reach.sets_duty now g past duty r a) = sets_duty-Inv g now past duty (Reach-Inv r) a

  -- If the governor is on, and no duty target is set whose allowance exceeds `limit`, then at every
  -- moment all that was ever transmitted amounts to at most `limit` within the window, and within the
  -- hour to at most the hourly budget, if there is one.
  pub airtime-IsWithin :
      (now : ℕ) (g : Governor fl) (past : List Burst)
      → Reach cfg limit now g past
      → (airtime_within past now cfg.window ≤ limit)
        × ((cfg.hourly_budget ≡ 0)
            ⊎ (airtime_within past now (hourly_budget_window cfg) ≤ cfg.hourly_budget))
  airtime-IsWithin now g past r = let v = Reach-Inv r in (v.window, v.hour)
