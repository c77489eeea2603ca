-- ===== src/Ax25/Airtime/Query.antt =====
-- The cooldown of src/ax25/airtime.rs, and its two questions: `check`, which may change the governor,
-- and `time_until_clear`, which may not.
use rfircd.Prelude.{
  ℕ, ◌+◌, ◌-◌, ◌≤◌, ◌<◌, ◌≡◌, ◌⊎◌, refl, sym, ap, ◌∙◌, inl, inr, Bool, true, false, not, ◌&&◌, ◌||◌,
  List, Option, none, some, arith, ltb, ◌==◌, if◌then◌else◌, Bool-cases, lt→ltb, ltb→ge, ltb→lt,
}
use rfircd.Prelude.Float.{Float}
use rfircd.Ax25.Airtime.{
  Burst, cooldown, is_send, defer, AirtimeConfig, Governor, airtime_within, airtime_for, allowance,
  hourly_budget_window, retention, trimmed, end_run, cool, check_limits, check_enabled, check,
  rested, run_gap, start_cooldown, transmitted, record_tx, wait_cooling, wait_run, wait_window,
  time_until_clear,
}
use rfircd.Ax25.Airtime.Window.{airtime_within-trim, retry_delay-pos}

module _ {fl : Float} where
  check_enabled-cooling :
      (g : Governor fl) (octets now until : ℕ)
      → g.cooling_until ≡ some until
      → now < until
      → (check_enabled g octets now).1 ≡ defer (until - now) cooldown
  unfolding check_enabled trimmed cool
  check_enabled-cooling g octets now until h l =
      rw (check_enabled, cool, trimmed, h, lt→ltb now until l) refl

  transmitted-cfg : (g : Governor fl) (octets now : ℕ) → (transmitted g octets now).cfg ≡ g.cfg
  unfolding transmitted start_cooldown trimmed end_run
  transmitted-cfg g octets now = ground arith

  transmitted-cooling :
      (g : Governor fl) (octets now : ℕ)
      → g.cfg.enabled ≡ true
      → g.cfg.max_continuous ≤ (transmitted g octets now).run
      → (transmitted g octets now).cooling_until
        ≡ some (now + airtime_for g.cfg octets + g.cfg.cooldown)
  unfolding transmitted start_cooldown trimmed end_run
  transmitted-cooling g octets now on h = ground (arith, on, h)

  -- With the governor on, a transmission that makes a run too long is followed by the whole cooldown:
  -- until it is over, `check` defers every frame to its end.
  pub check-record_tx_cooling :
      (g : Governor fl) (octets other now later : ℕ)
      → g.cfg.enabled ≡ true
      → g.cfg.max_continuous ≤ (record_tx g octets now).0.run
      → later < now + airtime_for g.cfg octets + g.cfg.cooldown
      → (check (record_tx g octets now).0 other later).1
        ≡ defer (now + airtime_for g.cfg octets + g.cfg.cooldown - later) cooldown
  unfolding check record_tx
  check-record_tx_cooling g octets other now later on h l = ground (
    arith,
    on,
    transmitted-cooling g octets now on,
    transmitted-cfg g octets now,
    check_enabled-cooling (transmitted g octets now) other later
        (now + airtime_for g.cfg octets + g.cfg.cooldown),
  )

wait_window-eq-zero :
    (bursts : List Burst) (now window limit cost : ℕ)
    → (wait_window bursts now window limit cost == 0)
      ≡ not (ltb limit (airtime_within bursts now window + cost))
unfolding wait_window
wait_window-eq-zero bursts now window limit cost =
    ground (arith, retry_delay-pos bursts now window limit cost)

module _ {fl : Float} where
  -- As `record` leaves the governor if the cooldown is no shorter than the gap that ends a run: a
  -- cooldown ends after that gap, and without a transmission there is no run.
  pub record IsSettled (g : Governor fl) : Type 0 where
    pub cooling :
        (g.cooling_until ≡ none)
        ⊎ ((until : ℕ) × (last : ℕ) × (g.cooling_until ≡ some until)
            × (g.last_end ≡ some last)
            × (last + run_gap ≤ until))
    pub run : (g.run ≡ 0) ⊎ ((last : ℕ) × (g.last_end ≡ some last))

  -- Whether the limits let a frame go.
  limits_open : AirtimeConfig fl → List Burst → Bool → ℕ → ℕ → ℕ → Bool
  limits_open cfg bursts fresh run cost now =
      not (ltb cfg.max_continuous (run + cost) && ltb 0 run && not fresh)
      && not (ltb (allowance cfg) (airtime_within bursts now cfg.window + cost))
      && (cfg.hourly_budget == 0
          || not
              (ltb cfg.hourly_budget (airtime_within bursts now (hourly_budget_window cfg) + cost)))

  check_limits-is_send :
      (g : Governor fl) (octets now : ℕ)
      → is_send (check_limits g octets now)
        ≡ limits_open g.cfg g.bursts false g.run (airtime_for g.cfg octets) now
  unfolding check_limits limits_open
  check_limits-is_send g octets now = ground arith

  wait_run-eq-zero :
      (g : Governor fl) (cost now : ℕ)
      → (g.run ≡ 0) ⊎ ((last : ℕ) × (g.last_end ≡ some last))
      → (wait_run g cost now == 0)
        ≡ not (
            ltb g.cfg.max_continuous (g.run + cost)
            && ltb 0 g.run
            && not (rested g.last_end now true))
  unfolding wait_run
  wait_run-eq-zero g cost now v = go g.last_end refl
    where
      go :
          (last : Option ℕ)
          → g.last_end ≡ last
          → (wait_run g cost now == 0)
            ≡ not (
                ltb g.cfg.max_continuous (g.run + cost)
                && ltb 0 g.run
                && not (rested g.last_end now true))
      go none e = rw (wait_run, e) (ground arith)
      go (some last) e = rw (wait_run, e) (ground arith)

  trimmed_window :
      (g : Governor fl) (now : ℕ)
      → (airtime_within (trimmed g now).bursts now g.cfg.window
          ≡ airtime_within g.bursts now g.cfg.window)
        × (airtime_within (trimmed g now).bursts now (hourly_budget_window g.cfg)
            ≡ airtime_within g.bursts now (hourly_budget_window g.cfg))
  unfolding trimmed retention
  trimmed_window g now = (
    airtime_within-trim g.bursts (retention g.cfg) now now g.cfg.window (omega arith) (omega arith),
    airtime_within-trim g.bursts (retention g.cfg) now now (hourly_budget_window g.cfg)
        (omega arith) (omega arith),
  )

  -- The limits on a governor whose run may have ended, on trimmed bursts.
  limits_open-trimmed :
      (g : Governor fl) (fresh : Bool) (run cost now : ℕ)
      → limits_open g.cfg (trimmed g now).bursts fresh run cost now
        ≡ limits_open g.cfg g.bursts fresh run cost now
  unfolding limits_open
  limits_open-trimmed g fresh run cost now = let w = trimmed_window g now in rw (w.0, w.1) refl

  time_until_clear-eq-zero :
      (g : Governor fl) (octets now : ℕ)
      → g.cfg.enabled ≡ true
      → (g.run ≡ 0) ⊎ ((last : ℕ) × (g.last_end ≡ some last))
      → (time_until_clear g octets now == 0) ≡ (
          (wait_cooling g.cooling_until now == 0)
          && limits_open g.cfg g.bursts
              (rested g.last_end now true)
              g.run
              (airtime_for g.cfg octets)
              now)
  unfolding time_until_clear limits_open
  time_until_clear-eq-zero g octets now on v =
      let cost = airtime_for g.cfg octets in
      ground (
        arith,
        on,
        wait_run-eq-zero g cost now v,
        wait_window-eq-zero g.bursts now g.cfg.window (allowance g.cfg) cost,
        wait_window-eq-zero g.bursts now (hourly_budget_window g.cfg) g.cfg.hourly_budget cost,
      )

  -- What the end of a run changes.
  end_run-fields :
      (g : Governor fl) (now : ℕ)
      → ((end_run g now).cfg ≡ g.cfg)
        × ((end_run g now).bursts ≡ g.bursts)
        × ((end_run g now).run ≡ (if rested g.last_end now false then 0 else g.run))
  unfolding end_run
  end_run-fields g now = (ground arith, ground arith, ground arith)

  -- The end of the run inside the limits.
  limits_open-rested :
      (cfg : AirtimeConfig fl) (bursts : List Burst) (last : Option ℕ) (run cost now : ℕ)
      → (run ≡ 0) ⊎ ((end : ℕ) × (last ≡ some end))
      → limits_open cfg bursts false (if rested last now false then 0 else run) cost now
        ≡ limits_open cfg bursts (rested last now true) run cost now
  unfolding limits_open
  limits_open-rested cfg bursts none run cost now w = ground (arith, w)
  limits_open-rested cfg bursts (some last) run cost now w = ground arith

  -- `check` once no cooldown is on: the run has ended or not.
  end_run-is_send :
      (g : Governor fl) (octets now : ℕ)
      → (g.run ≡ 0) ⊎ ((last : ℕ) × (g.last_end ≡ some last))
      → is_send (check_limits (end_run g now) octets now)
        ≡ limits_open g.cfg g.bursts
            (rested g.last_end now true)
            g.run
            (airtime_for g.cfg octets)
            now
  end_run-is_send g octets now v =
      let f = end_run-fields g now in
      check_limits-is_send (end_run g now) octets now
      ∙ (rw (f.0, f.1, f.2)
          (limits_open-rested g.cfg g.bursts g.last_end g.run (airtime_for g.cfg octets) now v))

  -- The governor with its cooldown over.
  abbrev rest_run : Governor fl → Governor fl
  rest_run g = record g { cooling_until = none; run = 0 }

  check_enabled-open :
      (g : Governor fl) (octets now : ℕ)
      → g.cooling_until ≡ none
      → (check_enabled g octets now).1 ≡ check_limits (end_run (trimmed g now) now) octets now
  unfolding check_enabled cool trimmed
  check_enabled-open g octets now h = ground (arith, h)

  check_enabled-over :
      (g : Governor fl) (octets now until : ℕ)
      → g.cooling_until ≡ some until
      → until ≤ now
      → (check_enabled g octets now).1
        ≡ check_limits (end_run (rest_run (trimmed g now)) now) octets now
  unfolding check_enabled cool trimmed
  check_enabled-over g octets now until h l = ground (arith, h)

  -- `check` with the governor on, by the cooldown.
  check_enabled-is_send :
      (g : Governor fl) (octets now : ℕ)
      → IsSettled g
      → is_send (check_enabled g octets now).1 ≡ (
          (wait_cooling g.cooling_until now == 0)
          && limits_open g.cfg g.bursts
              (rested g.last_end now true)
              g.run
              (airtime_for g.cfg octets)
              now)
  unfolding trimmed
  check_enabled-is_send g octets now v = elim v.cooling [
    | inl h ↦
        ap is_send (check_enabled-open g octets now h)
        ∙ end_run-is_send (trimmed g now) octets now v.run
        ∙ limits_open-trimmed g (rested g.last_end now true) g.run (airtime_for g.cfg octets) now
        ∙ ground (arith, h)
    | inr (until, last, h, there, l) ↦ elim (Bool-cases (ltb now until)) [
      | inl on ↦
          ap is_send (check_enabled-cooling g octets now until h (ltb→lt now until on))
          ∙ ground (arith, h)
      | inr over ↦
          ap is_send (check_enabled-over g octets now until h (ltb→ge now until over))
          ∙ end_run-is_send (rest_run (trimmed g now)) octets now (inl refl)
          ∙ limits_open-trimmed g (rested g.last_end now true) 0 (airtime_for g.cfg octets) now
          ∙ (unfold limits_open in ground (arith, h, there, l, over))
    ]
  ]

  -- With the governor on and a cooldown no shorter than the gap that ends a run, asking how long a
  -- frame has to wait answers 0 exactly if `check` would let it be sent.
  pub time_until_clear-check :
      (g : Governor fl) (octets now : ℕ)
      → g.cfg.enabled ≡ true
      → IsSettled g
      → (time_until_clear g octets now == 0) ≡ is_send (check g octets now).1
  unfolding check
  time_until_clear-check g octets now on v =
      time_until_clear-eq-zero g octets now on v.run
      ∙ sym (check_enabled-is_send g octets now v)
      ∙ ground (arith, on)
