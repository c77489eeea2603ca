-- ===== src/Config/Sound.antt =====
-- What a configuration that `Config::validate` of src/config.rs accepts is good for.
use rfircd.Prelude.{
  ℕ, ◌+◌, ◌≤◌, ◌≡◌, refl, sym, ap, subst, inl, inr, Bool, true, false, not, List, [], ◌∷◌, none,
  some, Text, Result, ok, err, ◌>>=◌, ◌>>◌, guard, all, any, length, is_empty, leb, leb→le,
  if◌then◌else◌, map_err, arith, Bool-cases, suc,
}
use rfircd.Prelude.Float.{Float}
use rfircd.Callsign.{Callsign, CallsignError, from_str, require_amateur}
use rfircd.Prelude.Chars.{text_beq_iff}
use rfircd.Irc.Casemap.{lower}
use rfircd.Ax25.Airtime.{
  AirtimeConfig, Governor, airtime_for, allowance, new, check, check_enabled, trimmed, trim, cool,
  end_run, airtime_within, hourly_budget_window, TxDecision, send,
}
use rfircd.Ax25.Airtime
use rfircd.Config.Validate
use rfircd.Config.{Config, ChannelConfig, to_airtime}
use rfircd.Config.Validate.{
  ConfigError, Outside, Checked, check_each, check_channels, parses, parsed, parsed_hops, rf_path,
  gateway_callsign, check_server, check_radio, check_duty, validate, check_callsign,
  check_aprs_channel, is_bridged, aprs_listen_channel, first_bridged, bad_hop, bad_callsign,
  not_amateur,
}

-- Of two checks that pass together, each passes.
pub >>-ok : (m k : Checked) → (m >> k) ≡ ok tt → (m ≡ ok tt) × (k ≡ ok tt)
>>-ok (ok tt) k h = (refl, h)
>>-ok (err e) k h = absurd (cc)

guard-ok : (b : Bool) (e : ConfigError) → guard b e ≡ ok tt → b ≡ true
guard-ok true e h = refl
guard-ok false e h = absurd (cc)

-- The last of the checks, as a guard.
pub >>-guard :
    (m : Checked) (b : Bool) (e : ConfigError) → (m >> guard b e) ≡ ok tt → (m ≡ ok tt) × (b ≡ true)
>>-guard m b e h = let both = >>-ok m (guard b e) h in (both.0, guard-ok b e both.1)

if-ok : (b : Bool) (m : Checked) → b ≡ true → (if b then m else ok tt) ≡ ok tt → m ≡ ok tt
if-ok true m on h = h
if-ok false m on h = absurd (cc)

check_each-all :
    {A : Type 0} (f : A → Bool) (e : A → ConfigError) (xs : List A)
    → check_each (λ x. guard (f x) (e x)) xs ≡ ok tt
    → all f xs ≡ true
unfolding check_each
check_each-all f e [] h = refl
check_each-all f e (x ∷ xs) h =
    let both = >>-ok (guard (f x) (e x)) (check_each (λ x. guard (f x) (e x)) xs) h in
    ground (arith, guard-ok (f x) (e x) both.0, check_each-all f e xs both.1)

parsed-parses : (t : Text) → parses t ≡ true → (c : Callsign) × (parsed t ≡ some c)
parsed-parses t h = go (from_str t) h
  where
    go :
        (r : Result CallsignError Callsign)
        → (elim r [ ok c ↦ true | err e ↦ false ]) ≡ true
        → (c : Callsign) × ((elim r [ ok c ↦ some c | err e ↦ none ]) ≡ some c)
    go (ok c) q = (c, refl)
    go (err e) q = absurd (cc)

-- No hop is left out when all parse.
length-parsed_hops :
    (path : List Text) → all parses path ≡ true → length (parsed_hops path) ≡ length path
unfolding parsed_hops
length-parsed_hops [] h = refl
length-parsed_hops (d ∷ path) h =
    let both : (parses d ≡ true) × (all parses path ≡ true) = ground (arith, h) in
    let (c, there) = parsed-parses d both.0 in
    rw (parsed_hops, there) (ap suc (length-parsed_hops path both.1))

map_err-ok :
    (f : CallsignError → ConfigError) (m : Result CallsignError (Unit {0}))
    → map_err f m ≡ ok tt
    → m ≡ ok tt
map_err-ok f (ok tt) h = refl
map_err-ok f (err e) h = absurd (cc)

-- The callsign parses and is an amateur's.
check_callsign-ok :
    (t : Text)
    → check_callsign t ≡ ok tt
    → (call : Callsign) × (parsed t ≡ some call) × (require_amateur call ≡ ok tt)
unfolding check_callsign
check_callsign-ok t h = go (from_str t) h
  where
    go :
        (r : Result CallsignError Callsign)
        → (map_err (λ e. bad_callsign) r >>= λ call.
            map_err (λ e. not_amateur) (require_amateur call))
          ≡ ok tt
        → (call : Callsign) × ((elim r [ ok c ↦ some c | err e ↦ none ]) ≡ some call)
          × (require_amateur call ≡ ok tt)
    go (ok c) q = (c, refl, map_err-ok (λ e. not_amateur) (require_amateur c) q)
    go (err e) q = absurd (cc)

-- A bridged channel that is found is bridged.
first_bridged-is_bridged :
    (channels : List ChannelConfig)
    → any (λ (c : ChannelConfig). c.rf) channels ≡ true
    → (name : Text) × (first_bridged channels ≡ some name)
      × (is_bridged (lower name) channels ≡ true)
first_bridged-is_bridged [] h = absurd (cc)
first_bridged-is_bridged (c ∷ channels) h = elim (Bool-cases (c.rf)) [
  | inl bridged ↦ (
    c.name,
    rw (bridged) refl,
    rw (bridged) (ground (arith, (text_beq_iff (lower c.name) (lower c.name)).1 refl)),
  )
  | inr unbridged ↦
      let (name, first, bridged) =
        first_bridged-is_bridged channels (ground (arith, unbridged, h)) in
      (name, rw (unbridged) first, ground (arith, bridged))
]

-- A governor that has sent nothing, on a configuration whose numbers were checked.
new-check :
    {fl : Float} (air : AirtimeConfig fl) (octets most now : ℕ)
    → air.enabled ≡ true
    → Validate.check_limits fl air most ≡ ok tt
    → airtime_for air octets ≤ airtime_for air most
    → (check (new air) octets now).1 ≡ send
unfolding Validate.check_limits Airtime.check_limits check check_enabled new trimmed trim cool
    end_run airtime_within hourly_budget_window
new-check {fl} air octets most now on h short =
    let budget = >>-guard _ _ _ h in
    let continuous = >>-guard _ _ _ budget.0 in
    let within = guard-ok _ _ continuous.0 in
    ground (arith, on, within, continuous.1, budget.1, short)

module _ (fl : Float) (out : Outside) (cfg : Config) where
  pub validate-check_channels : validate fl out cfg ≡ ok tt → check_channels [] cfg.channels ≡ ok tt
  unfolding validate check_server
  validate-check_channels h = (>>-ok _ _ (>>-ok (check_server out cfg) _ h).0).1

  -- The parts of an accepted configuration with the radio on.
  accepted :
      validate fl out cfg ≡ ok tt
      → cfg.radio.enabled ≡ true
      → (check_server out cfg ≡ ok tt)
        × (check_radio cfg ≡ ok tt)
        × ((if cfg.radio.duty.enabled then check_duty fl out cfg.radio else ok tt) ≡ ok tt)
  unfolding validate
  accepted h on =
      let both = >>-ok (check_server out cfg) (if not cfg.radio.enabled then ok tt else _) h in
      let inner = >>-ok _ _ (rw (on) at both.1) in
      let duty = >>-ok _ _ inner.0 in
      let governed = >>-ok _ _ duty.0 in (both.0, governed.0, duty.1)

  -- What the checks of the radio leave.
  radio_facts :
      check_radio cfg ≡ ok tt
      → (check_callsign cfg.radio.callsign ≡ ok tt)
        × (all parses cfg.radio.path ≡ true)
        × (leb (length cfg.radio.path) 2 ≡ true)
        × (any (λ (c : ChannelConfig). c.rf) cfg.channels ≡ true)
        × (check_aprs_channel cfg.radio.aprs_channel cfg.channels ≡ ok tt)
  unfolding check_radio
  radio_facts h =
      let aprs = >>-ok _ _ h in
      let bridged = >>-guard _ _ _ aprs.0 in
      let interlock = >>-ok _ _ bridged.0 in
      let queue = >>-guard _ _ _ interlock.0 in
      let fragments = >>-guard _ _ _ queue.0 in
      let peers = >>-guard _ _ _ fragments.0 in
      let paclen = >>-guard _ _ _ peers.0 in
      let interval = >>-guard _ _ _ paclen.0 in
      let hops = >>-guard _ _ _ interval.0 in
      let path = >>-ok _ _ hops.0 in
      let destination = >>-guard _ _ _ path.0 in
      (
        destination.0,
        check_each-all parses bad_hop cfg.radio.path path.1,
        hops.1,
        bridged.1,
        aprs.1,
      )

  -- The path that is used is the path that was written, and the station has an amateur callsign.
  pub validate-rf_path :
      validate fl out cfg ≡ ok tt
      → cfg.radio.enabled ≡ true
      → (length (rf_path cfg) ≡ length cfg.radio.path)
        × (length (rf_path cfg) ≤ 2)
        × ((call : Callsign) × (gateway_callsign cfg ≡ some call) × (require_amateur call ≡ ok tt))
  unfolding rf_path gateway_callsign
  validate-rf_path h on =
      let facts = radio_facts (accepted h on).1 in
      let whole = length-parsed_hops cfg.radio.path facts.1 in
      (
        whole,
        subst (λ n. n ≤ 2) (sym whole) (leb→le _ _ facts.2),
        check_callsign-ok cfg.radio.callsign facts.0,
      )

  -- The channel for APRS is a bridged channel of the configuration.
  pub validate-aprs_listen_channel :
      validate fl out cfg ≡ ok tt
      → cfg.radio.enabled ≡ true
      → (name : Text) × (aprs_listen_channel cfg ≡ some name)
        × (is_bridged (lower name) cfg.channels ≡ true)
  unfolding aprs_listen_channel check_aprs_channel
  validate-aprs_listen_channel h on =
      let facts = radio_facts (accepted h on).1 in
      elim (Bool-cases (is_empty cfg.radio.aprs_channel)) [
        | inl unset ↦
            let (name, first, bridged) = first_bridged-is_bridged cfg.channels facts.3 in
            (name, rw (aprs_listen_channel, unset) first, bridged)
        | inr set ↦
            let checked = rw (check_aprs_channel, set) at facts.4 in
            (cfg.radio.aprs_channel, rw (aprs_listen_channel, set) refl, (>>-guard _ _ _ checked).1)
      ]

  -- What the checks of the governor leave.
  duty_facts :
      check_duty fl out cfg.radio ≡ ok tt
      → Validate.check_limits fl (to_airtime fl cfg.radio.duty) (cfg.radio.paclen + 64) ≡ ok tt
  unfolding check_duty
  duty_facts h = (>>-ok _ _ (>>-ok _ _ h).0).1

  -- A governor that has sent nothing lets every frame go that costs no more than a longest one.
  pub validate-check :
      (octets now : ℕ)
      → validate fl out cfg ≡ ok tt
      → cfg.radio.enabled ≡ true
      → cfg.radio.duty.enabled ≡ true
      → airtime_for (to_airtime fl cfg.radio.duty) octets
        ≤ airtime_for (to_airtime fl cfg.radio.duty) (cfg.radio.paclen + 64)
      → (check (new (to_airtime fl cfg.radio.duty)) octets now).1 ≡ send
  unfolding to_airtime
  validate-check octets now h on governed short =
      let checked = duty_facts (if-ok _ _ governed (accepted h on).2) in
      new-check (to_airtime fl cfg.radio.duty) octets (cfg.radio.paclen + 64) now governed checked
        short
