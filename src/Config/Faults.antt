-- ===== src/Config/Faults.antt =====
-- What a refusal of `Config::validate` of src/config.rs says of the configuration.
use rfircd.Prelude.{
  ◌+◌, ◌≡◌, refl, Bool, true, false, not, ◌||◌, List, [], ◌∷◌, ◌++◌, Option, none, some, Text, ok,
  err, ◌>>=◌, ◌>>◌, guard, all, any, is_empty, if◌then◌else◌, map_err, arith, Result,
}
use rfircd.Prelude.Float.{Float}
use rfircd.Callsign.{Callsign, CallsignError, from_str, require_amateur}
use rfircd.Irc.Casemap.{lower}
use rfircd.Irc.Message.{is_channel_name, split}
use rfircd.Config.{
  Config, TlsListenConfig, InterlockConfig, ChannelConfig, DutyConfig, OperConfig, to_airtime,
}
use rfircd.Config.Direwolf.{
  DirewolfError, unreadable, no_modem, other_modem, other_txdelay, other_txtail, Modem, check_modem,
  check_direwolf_conf, read_lines, no_modem_yet,
}
use rfircd.Config.Validate.{
  ConfigError, Outside, Checked, parses, check_each, check_oper_passwords, bind_is_loopback,
  listen_addresses, check_tls, check_server, check_callsign, check_interlock, is_bridged,
  check_aprs_channel, check_radio, is_loopback, check_file, check_limits, check_duty, validate,
  bad_callsign, not_amateur, bad_hop, invalid_aprs_channel, unbridged_aprs_channel, no_governor,
  direwolf, bad_policy_callsign,
}
use rfircd.Config.Blames.{
  Blames, ◌▹◌, guard-Blames, ok-Blames, if-Blames, unless-Blames, check_each-Blames,
  check_oper_names-Blames, check_channels-Blames,
}
use rfircd.Config.Refusals.{has_fault, is_amateur, modem_fault, file_fault}

not-any :
    {A : Type 0} (p : A → Bool) (xs : List A) → all p xs ≡ false → any (λ x. not (p x)) xs ≡ true
not-any p [] h = absurd (cc)
not-any p (x ∷ xs) h = ground (arith, h, not-any p xs)

not-all :
    {A : Type 0} (p : A → Bool) (xs : List A) → any p xs ≡ false → all (λ x. not (p x)) xs ≡ true
not-all p [] h = refl
not-all p (x ∷ xs) h = ground (arith, h, not-all p xs)

check_modem-modem_fault :
    (m : Modem) (duty : DutyConfig) (e : DirewolfError)
    → check_modem m duty ≡ err e
    → modem_fault m duty e ≡ true
unfolding check_modem modem_fault
check_modem-modem_fault m duty unreadable h = ground (arith, h)
check_modem-modem_fault m duty no_modem h = ground (arith, h)
check_modem-modem_fault m duty (other_modem baud) h = ground (arith, h)
check_modem-modem_fault m duty (other_txdelay units) h = ground (arith, h)
check_modem-modem_fault m duty (other_txtail units) h = ground (arith, h)

check_direwolf_conf-file_fault :
    (file : Option Text) (duty : DutyConfig) (e : DirewolfError)
    → check_direwolf_conf file duty ≡ err e
    → file_fault file duty e ≡ true
unfolding check_direwolf_conf file_fault
check_direwolf_conf-file_fault none duty e h = ground (arith, h)
check_direwolf_conf-file_fault (some text) duty e h =
    check_modem-modem_fault (read_lines no_modem_yet (split 10 text)) duty e h

module _ (fl : Float) (out : Outside) (cfg : Config) where
  Fault : Checked → Type 0
  Fault m = Blames (has_fault fl out cfg) m

  tls-Blames : Fault (check_tls out cfg.listen.tls)
  unfolding Fault has_fault check_tls
  tls-Blames = go cfg.listen.tls refl
    where
      go :
          (o : Option TlsListenConfig)
          → cfg.listen.tls ≡ o
          → Blames (has_fault fl out cfg) (check_tls out o)
      go none q = ok-Blames
      go (some tls) q =
          guard-Blames _ _ (λ h. rw (q) (ground (arith, h)))
          ▹ guard-Blames _ _ (λ h. rw (q) (ground (arith, h)))
          ▹ guard-Blames _ _ (λ h. rw (q) (ground (arith, h)))

  -- The checks of the server.
  check_server-Blames : Fault (check_server out cfg)
  unfolding Fault has_fault check_server check_oper_passwords
  check_server-Blames =
      guard-Blames _ _ (λ h. ground (arith, h))
      ▹ guard-Blames _ _ (λ h. ground (arith, h))
      ▹ guard-Blames _ _ (λ h. ground (arith, h))
      ▹ guard-Blames _ _ (λ h. ground (arith, h))
      ▹ guard-Blames _ _ (λ h. ground (arith, h))
      ▹ guard-Blames _ _ (λ h. ground (arith, h))
      ▹ check_oper_names-Blames [] cfg.opers (λ h. h) (λ t h. ground (arith, h))
      ▹ guard-Blames _ _ (λ h. ground (arith, h))
      ▹ guard-Blames _ _ (λ h. ground (arith, h))
      ▹ guard-Blames _ _ (λ h. ground (arith, h))
      ▹ guard-Blames _ _ (λ h. ground (arith, h))
      ▹ guard-Blames _ _ (λ h. ground (
        arith,
        h,
        not-any (λ (o : OperConfig). out.is_phc_hash o.password) cfg.opers,
        not-any (bind_is_loopback out) (listen_addresses cfg),
      ))
      ▹ tls-Blames
      ▹ check_channels-Blames [] cfg.channels (λ t h. h) (λ t h. ground (arith, h))

  module _ (on : cfg.radio.enabled ≡ true) where
    callsign-Blames : Fault (check_callsign cfg.radio.callsign)
    unfolding Fault has_fault check_callsign
    callsign-Blames = go (from_str cfg.radio.callsign) refl
      where
        amateur :
            (c : Callsign) (r : Result CallsignError (Unit {0}))
            → from_str cfg.radio.callsign ≡ ok c
            → require_amateur c ≡ r
            → Blames (has_fault fl out cfg) (map_err (λ e. not_amateur) r)
        amateur c (ok u) p q = ok-Blames
        amateur c (err e) p q = guard-Blames false not_amateur (λ h. rw (on, is_amateur, p, q) refl)

        go :
            (r : Result CallsignError Callsign)
            → from_str cfg.radio.callsign ≡ r
            → Blames (has_fault fl out cfg) (
                map_err (λ e. bad_callsign) r >>= λ call.
                map_err (λ e. not_amateur) (require_amateur call))
        go (ok c) p = amateur c (require_amateur c) p refl
        go (err e) p = guard-Blames false bad_callsign (λ h. rw (on, parses, p) refl)

    interlock-Blames : Fault (check_interlock cfg.radio.interlock)
    unfolding Fault has_fault check_interlock
    interlock-Blames = go cfg.radio.interlock refl
      where
        go :
            (o : Option InterlockConfig)
            → cfg.radio.interlock ≡ o
            → Blames (has_fault fl out cfg) (check_interlock o)
        go none q = ok-Blames
        go (some i) q =
            guard-Blames _ _ (λ h. rw (on, q) (ground (arith, h)))
            ▹ guard-Blames _ _ (λ h. rw (on, q) (ground (arith, h)))
            ▹ guard-Blames _ _ (λ h. rw (on, q) (ground (arith, h)))

    aprs-Blames : Fault (check_aprs_channel cfg.radio.aprs_channel cfg.channels)
    unfolding Fault has_fault check_aprs_channel
    aprs-Blames =
        unless-Blames (is_empty cfg.radio.aprs_channel)
          (guard (is_channel_name cfg.radio.aprs_channel) invalid_aprs_channel
            >> guard (is_bridged (lower cfg.radio.aprs_channel) cfg.channels)
                unbridged_aprs_channel)
          (λ set.
            guard-Blames _ _ (λ h. ground (arith, on, h))
            ▹ guard-Blames _ _ (λ h. ground (arith, on, h)))

    -- The checks of the radio.
    check_radio-Blames : Fault (check_radio cfg)
    unfolding Fault has_fault check_radio
    check_radio-Blames =
        callsign-Blames
        ▹ guard-Blames _ _ (λ h. ground (arith, on, h))
        ▹ check_each-Blames parses bad_hop cfg.radio.path
            (λ t there fails. ground (arith, on, there, fails))
        ▹ guard-Blames _ _ (λ h. ground (arith, on, h))
        ▹ guard-Blames _ _ (λ h. ground (arith, on, h))
        ▹ guard-Blames _ _ (λ h. ground (arith, on, h))
        ▹ guard-Blames _ _ (λ h. ground (arith, on, h))
        ▹ guard-Blames _ _ (λ h. ground (arith, on, h))
        ▹ guard-Blames _ _ (λ h. ground (arith, on, h))
        ▹ interlock-Blames
        ▹ guard-Blames _ _
            (λ h. ground (arith, on, not-all (λ (c : ChannelConfig). c.rf) cfg.channels h))
        ▹ aprs-Blames

    module _ (governed : cfg.radio.duty.enabled ≡ true) where
      file-Blames : Fault (check_file out cfg.radio.tnc.direwolf_conf cfg.radio.duty)
      unfolding Fault has_fault check_file
      file-Blames = go cfg.radio.tnc.direwolf_conf refl
        where
          refusal :
              (path : Text) (r : Result DirewolfError (Unit {0}))
              → cfg.radio.tnc.direwolf_conf ≡ some path
              → check_direwolf_conf (out.read_file path) cfg.radio.duty ≡ r
              → Blames (has_fault fl out cfg) (map_err direwolf r)
          refusal path (ok u) q r = ok-Blames
          refusal path (err e) q r = guard-Blames false (direwolf e) (λ h.
              let fault = check_direwolf_conf-file_fault (out.read_file path) cfg.radio.duty e r in
              rw (q) (ground (arith, on, governed, fault)))

          go :
              (o : Option Text)
              → cfg.radio.tnc.direwolf_conf ≡ o
              → Blames (has_fault fl out cfg) (check_file out o cfg.radio.duty)
          go none q = ok-Blames
          go (some path) q =
              refusal path (check_direwolf_conf (out.read_file path) cfg.radio.duty) q refl

      limits-Blames : Fault (check_limits fl (to_airtime fl cfg.radio.duty) (cfg.radio.paclen + 64))
      unfolding Fault has_fault check_limits
      limits-Blames =
          guard-Blames _ _ (λ h. ground (arith, on, governed, h))
          ▹ guard-Blames _ _ (λ h. ground (arith, on, governed, h))
          ▹ guard-Blames _ _ (λ h. ground (arith, on, governed, h))

      -- The checks of the governor.
      check_duty-Blames : Fault (check_duty fl out cfg.radio)
      unfolding Fault has_fault check_duty
      check_duty-Blames =
          guard-Blames _ _ (λ h. ground (arith, on, governed, h))
          ▹ guard-Blames _ _ (λ h. ground (arith, on, governed, h))
          ▹ guard-Blames _ _ (λ h. ground (arith, on, governed, h))
          ▹ guard-Blames _ _ (λ h. ground (arith, on, governed, h))
          ▹ guard-Blames _ _ (λ h. ground (arith, on, governed, h))
          ▹ guard-Blames _ _ (λ h. ground (arith, on, governed, h))
          ▹ guard-Blames _ _ (λ h. ground (arith, on, governed, h))
          ▹ guard-Blames _ _ (λ h. ground (arith, on, governed, h))
          ▹ guard-Blames _ _ (λ h. ground (arith, on, governed, h))
          ▹ limits-Blames
          ▹ file-Blames

    -- All that is checked with the radio on.
    on_air-Blames : Fault (
        check_radio cfg
        >> guard (cfg.radio.duty.enabled || is_loopback cfg.radio.tnc.kind) no_governor
        >> (if cfg.radio.duty.enabled then check_duty fl out cfg.radio else ok tt)
        >> check_each
            (λ c. guard (parses c) (bad_policy_callsign c))
            (cfg.policy.deny_callsigns ++ cfg.policy.allow_callsigns))
    unfolding Fault has_fault
    on_air-Blames =
        check_radio-Blames
        ▹ guard-Blames _ _ (λ h. ground (arith, on, h))
        ▹ if-Blames cfg.radio.duty.enabled (check_duty fl out cfg.radio) check_duty-Blames
        ▹ check_each-Blames parses bad_policy_callsign
            (cfg.policy.deny_callsigns ++ cfg.policy.allow_callsigns)
            (λ t there fails. ground (arith, on, there, fails))

-- What the validation refuses a configuration for is a fault of it: of the entry or the number that
-- the refusal is about, and for the file of Direwolf, of what stands in the file.
pub validate-has_fault :
    (fl : Float) (out : Outside) (cfg : Config) (e : ConfigError)
    → validate fl out cfg ≡ err e
    → has_fault fl out cfg e ≡ true
unfolding Fault validate
validate-has_fault fl out cfg e h = whole.blamed e h
  where
    whole : Fault fl out cfg (validate fl out cfg)
    whole =
        check_server-Blames fl out cfg
        ▹ unless-Blames (not cfg.radio.enabled) _
            (λ off. on_air-Blames fl out cfg (ground (arith, off)))
