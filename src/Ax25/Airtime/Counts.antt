-- ===== src/Ax25/Airtime/Counts.antt =====
-- What the governor of src/ax25/airtime.rs keeps, against everything that was transmitted.
use rfircd.Prelude.{
  ℕ, ◌+◌, ◌≤◌, ◌≡◌, ◌⊎◌, refl, sym, ap, ◌∙◌, inl, inr, false, ◌&&◌, List, [], ◌∷◌, ◌++◌, Option,
  some, arith, ltb, leb, Bool-cases, Option-cases,
}
use rfircd.Prelude.Float.{Float}
use rfircd.Ax25.Airtime.{
  Burst, DeferReason, TxDecision, send, AirtimeConfig, Governor, new, airtime_within, trim,
  airtime_for, allowance, hourly_budget_window, retention, trimmed, end_run, cool, check_limits,
  check_enabled, check, start_cooldown, transmitted, record_tx, set_duty, reset,
}
use rfircd.Ax25.Airtime.Window.{airtime_within-trim, airtime_within-append}

-- One transmission.
abbrev pub burst : ℕ → ℕ → Burst
burst now cost = record { end = now + cost; len = cost }

module _ {fl : Float} where
  -- The bursts that the governor keeps count as all those that were made, from `now` on and for every
  -- window that it looks at.
  unfoldable pub Counts : Governor fl → ℕ → List Burst → Type 0
  Counts g now past =
      (later window : ℕ)
      → now ≤ later
      → window ≤ retention g.cfg
      → airtime_within g.bursts later window ≡ airtime_within past later window

  trimmed-Counts :
      (g : Governor fl) (now : ℕ) (past : List Burst)
      → Counts g now past
      → Counts (trimmed g now) now past
  unfolding Counts trimmed
  trimmed-Counts g now past c later window l w =
      airtime_within-trim g.bursts (retention g.cfg) now later window w l ∙ c later window l w

  cool-Counts :
      (g : Governor fl) (now : ℕ) (past : List Burst)
      → Counts g now past
      → Counts (cool g now).1 now past × ((cool g now).1.cfg ≡ g.cfg)
  unfolding Counts cool
  cool-Counts g now past c = elim (Option-cases g.cooling_until) [
    | inl cold ↦ rw (cool, cold) (c, refl)
    | inr (until, warm) ↦ elim (Bool-cases (ltb now until)) [
      | inl still ↦ rw (cool, warm, still) (c, refl)
      | inr over ↦ rw (cool, warm, over) (c, refl)
    ]
  ]

  end_run-Counts :
      (g : Governor fl) (now : ℕ) (past : List Burst)
      → Counts g now past
      → Counts (end_run g now) now past × ((end_run g now).cfg ≡ g.cfg)
  unfolding Counts end_run
  end_run-Counts g now past c =
      elim (Bool-cases (rfircd.Ax25.Airtime.rested g.last_end now false)) [
        | inl rest ↦ rw (end_run, rest) (c, refl)
        | inr on ↦ rw (end_run, on) (c, refl)
      ]

  pub check_enabled-Counts :
      (g : Governor fl) (octets now : ℕ) (past : List Burst)
      → Counts g now past
      → Counts (check_enabled g octets now).0 now past
        × ((check_enabled g octets now).0.cfg ≡ g.cfg)
  unfolding check_enabled
  check_enabled-Counts g octets now past c =
      let cooled = (cool (trimmed g now) now).1 in
      let w = cool-Counts (trimmed g now) now past (trimmed-Counts g now past c) in
      let e = end_run-Counts cooled now past w.0 in
      let same : cooled.cfg ≡ g.cfg = w.1 ∙ (unfold trimmed in refl) in
      elim (Option-cases (cool (trimmed g now) now).0) [
        | inl cold ↦ rw (check_enabled, cold) (e.0, e.1 ∙ same)
        | inr (until, warm) ↦ rw (check_enabled, warm) (w.0, same)
      ]

  -- With the governor on, `send` means that the frame fits both limits.
  unfoldable pub Fits : Governor fl → ℕ → ℕ → Type 0
  Fits g now cost =
      (airtime_within g.bursts now g.cfg.window + cost ≤ allowance g.cfg)
      × ((g.cfg.hourly_budget ≡ 0)
          ⊎ (airtime_within g.bursts now (hourly_budget_window g.cfg) + cost ≤ g.cfg.hourly_budget))

  check_limits-Fits :
      (g : Governor fl) (octets now : ℕ)
      → check_limits g octets now ≡ send
      → Fits g now (airtime_for g.cfg octets)
  unfolding check_limits Fits
  check_limits-Fits g octets now h = ground arith

  pub check_enabled-Fits :
      (g : Governor fl) (octets now : ℕ)
      → (check_enabled g octets now).1 ≡ send
      → Fits
          (check_enabled g octets now).0
          now
          (airtime_for (check_enabled g octets now).0.cfg octets)
  unfolding check_enabled
  check_enabled-Fits g octets now h = elim (Option-cases (cool (trimmed g now) now).0) [
    | inl cold ↦
        rw (check_enabled, cold)
          (check_limits-Fits (end_run (cool (trimmed g now) now).1 now) octets now
            (rw (check_enabled, cold) at h))
    | inr (until, warm) ↦ absurd (ground (arith, (rw (check_enabled, warm) at h)))
  ]

  start_cooldown-Counts :
      (g : Governor fl) (end now : ℕ) (past : List Burst)
      → Counts g now past
      → Counts (start_cooldown g end) now past × ((start_cooldown g end).cfg ≡ g.cfg)
  unfolding start_cooldown
  start_cooldown-Counts g end now past c =
      elim (Bool-cases (g.cfg.enabled && leb g.cfg.max_continuous g.run)) [
        | inl long ↦ rw (start_cooldown, long) (unfold Counts in c, refl)
        | inr short ↦ rw (start_cooldown, short) (c, refl)
      ]

  -- A burst at the end of what the governor keeps and of what was made.
  append-Counts :
      (g : Governor fl) (now run total : ℕ) (last : Option ℕ) (b : Burst) (past : List Burst)
      → Counts g now past
      → Counts
          (record g { bursts = g.bursts ++ (b ∷ []); run = run; total = total; last_end = last })
          now
          (past ++ (b ∷ []))
  unfolding Counts
  append-Counts g now run total last b past c later window l w =
      airtime_within-append g.bursts (b ∷ []) later window
      ∙ ap (λ n. n + airtime_within (b ∷ []) later window) (c later window l w)
      ∙ sym (airtime_within-append past (b ∷ []) later window)

  -- After a transmission its burst is counted too.
  pub transmitted-Counts :
      (g : Governor fl) (octets now : ℕ) (past : List Burst)
      → Counts g now past
      → Counts (transmitted g octets now) now (past ++ (burst now (airtime_for g.cfg octets) ∷ []))
        × ((transmitted g octets now).cfg ≡ g.cfg)
  unfolding transmitted
  transmitted-Counts g octets now past c =
      let cost = airtime_for g.cfg octets in
      let h = end_run g now in
      let e = end_run-Counts g now past c in
      let b = burst now cost in
      let r : Governor fl = record h {
        run = h.run + cost;
        total = h.total + cost;
        last_end = some (now + cost);
        bursts = h.bursts ++ (b ∷ []);
      } in
      let kept =
        append-Counts h now (h.run + cost) (h.total + cost) (some (now + cost)) b past e.0 in
      let last =
        start_cooldown-Counts (trimmed r now) (now + cost) now (past ++ (b ∷ []))
          (trimmed-Counts r now (past ++ (b ∷ [])) kept) in
      (last.0, last.1 ∙ (unfold trimmed in refl) ∙ e.1)
