-- ===== src/Config/Refusals.antt =====
-- The faults of a configuration, one for each refusal of src/config.rs, without the order of the checks.
use rfircd.Prelude.{
  ℕ, ◌+◌, ◌*◌, Bool, true, false, not, ◌&&◌, ◌||◌, ◌++◌, Option, none, some, Text, ok, err, all,
  any, length, is_empty, ◌==◌, ltb, leb, contains,
}
use rfircd.Prelude.Assoc.{is_some}
use rfircd.Prelude.Chars.{trim, text_beq}
use rfircd.Prelude.Float.{Float}
use rfircd.Callsign.{from_str, require_amateur}
use rfircd.Irc.Casemap.{lower}
use rfircd.Irc.Message.{is_channel_name, split}
use rfircd.Ax25.Airtime.{AirtimeConfig, airtime_for, allowance, is_hardware_safe}
use rfircd.Config.{
  Config, TlsListenConfig, InterlockConfig, DutyConfig, ChannelConfig, OperConfig, to_airtime,
}
use rfircd.Config.Direwolf.{
  DirewolfError, Modem, unreadable, no_modem, other_modem, other_txdelay, other_txtail,
  no_modem_yet, read_lines,
}
use rfircd.Config.Validate.{
  ConfigError, Outside, among, parses, bind_is_loopback, listen_addresses, is_bridged, is_loopback,
  standard_bauds, duty_ceiling, moved_txdelay, moved_txtail, no_server_name, no_ping_interval,
  no_registration_timeout, no_identify_timeout, no_oper_name, duplicate_oper, no_nick_len,
  no_channels_per_user, no_password_len, no_text_len, plaintext_opers, no_tls_bind, no_tls_paths,
  bad_tls, invalid_channel, same_channel, bad_callsign, not_amateur, bad_destination, bad_hop,
  long_path, bad_id_interval, bad_paclen, no_peers, no_fragments, no_queue, no_interlock_command,
  no_interlock_times, interlock_overlap, no_rf_channel, invalid_aprs_channel,
  unbridged_aprs_channel, no_governor, bad_duty, no_window, no_continuous, no_baud, odd_baud,
  no_pacing, long_txdelay, long_txtail, unsafe_burst, over_allowance, over_continuous, over_budget,
  direwolf, bad_policy_callsign,
}
use rfircd.Config.Blames.{named}

abbrev tls_paths : Option TlsListenConfig → Bool
tls_paths none = true
tls_paths (some tls) = not (is_empty (trim tls.cert)) && not (is_empty (trim tls.key))

abbrev tls_bound : Option TlsListenConfig → Bool
tls_bound none = true
tls_bound (some tls) = not (is_empty tls.bind)

abbrev tls_fine : Outside → Option TlsListenConfig → Bool
tls_fine out none = true
tls_fine out (some tls) = out.tls_loads tls.cert tls.key

abbrev interlock_is : (InterlockConfig → Bool) → Option InterlockConfig → Bool
interlock_is p none = false
interlock_is p (some i) = p i

abbrev names : ℕ → Option ℕ → Bool
names n none = false
names n (some k) = n == k

-- What a refusal of the file of Direwolf says of what stands in the file.
unfoldable pub modem_fault : Modem → DutyConfig → DirewolfError → Bool
modem_fault m duty unreadable = false
modem_fault m duty no_modem = not (is_some m.baud)
modem_fault m duty (other_modem baud) = names baud m.baud && not (baud == duty.baud)
modem_fault m duty (other_txdelay units) =
    names units m.txdelay && not (units * 10 == duty.txdelay_ms)
modem_fault m duty (other_txtail units) = names units m.txtail && not (units * 10 == duty.txtail_ms)

abbrev is_unreadable : DirewolfError → Bool
is_unreadable unreadable = true
is_unreadable e = false

unfoldable pub file_fault : Option Text → DutyConfig → DirewolfError → Bool
unfolding modem_fault
file_fault none duty e = is_unreadable e
file_fault (some text) duty e = modem_fault (read_lines no_modem_yet (split 10 text)) duty e

abbrev pub direwolf_fault : Outside → Option Text → DutyConfig → DirewolfError → Bool
direwolf_fault out none duty e = false
direwolf_fault out (some path) duty e = file_fault (out.read_file path) duty e

abbrev pub is_amateur : Text → Bool
is_amateur t = elim (from_str t) [
  | err e ↦ false
  | ok c ↦ elim (require_amateur c) [ ok u ↦ true | err e ↦ false ]
]

-- What each refusal says, without the order of the checks.
module _ (fl : Float) (out : Outside) (cfg : Config) where
  abbrev duty : DutyConfig
  duty = cfg.radio.duty

  abbrev air : AirtimeConfig fl
  air = to_airtime fl duty

  abbrev biggest : ℕ
  biggest = airtime_for air (cfg.radio.paclen + 64)

  -- A fault of the radio, and of the governor.
  abbrev on_air : Bool → Bool
  on_air b = cfg.radio.enabled && b

  abbrev keyed : Bool → Bool
  keyed b = cfg.radio.enabled && (duty.enabled && b)

  unfoldable pub has_fault : ConfigError → Bool
  unfolding file_fault
  has_fault moved_txdelay = is_some cfg.radio.tnc.txdelay
  has_fault moved_txtail = is_some cfg.radio.tnc.txtail
  has_fault no_server_name = is_empty (trim cfg.server.name)
  has_fault no_ping_interval = cfg.listen.ping_interval_secs == 0
  has_fault no_registration_timeout = cfg.listen.registration_timeout_secs == 0
  has_fault no_identify_timeout = cfg.accounts.identify_timeout_secs == 0
  has_fault no_oper_name = any (λ (o : OperConfig). is_empty (trim o.name)) cfg.opers
  has_fault (duplicate_oper t) = leb 2 (named (λ (o : OperConfig). o.name) t cfg.opers)
  has_fault no_nick_len = cfg.server.max_nick_len == 0
  has_fault no_channels_per_user = cfg.server.max_channels_per_user == 0
  has_fault no_password_len = cfg.accounts.min_password_len == 0
  has_fault no_text_len = cfg.policy.max_rf_text_len == 0
  has_fault plaintext_opers =
      any (λ (o : OperConfig). not (out.is_phc_hash o.password)) cfg.opers
      && any (λ a. not (bind_is_loopback out a)) (listen_addresses cfg)
  has_fault no_tls_bind = not (tls_bound cfg.listen.tls)
  has_fault no_tls_paths = not (tls_paths cfg.listen.tls)
  has_fault bad_tls = not (tls_fine out cfg.listen.tls)
  has_fault (invalid_channel t) =
      any (λ (c : ChannelConfig). text_beq c.name t) cfg.channels && not (is_channel_name t)
  has_fault (same_channel t) = leb 2 (named (λ (c : ChannelConfig). c.name) t cfg.channels)
  has_fault bad_callsign = on_air (not (parses cfg.radio.callsign))
  has_fault not_amateur = on_air (not (is_amateur cfg.radio.callsign))
  has_fault bad_destination = on_air (not (parses cfg.radio.destination))
  has_fault (bad_hop t) = on_air (among t cfg.radio.path && not (parses t))
  has_fault long_path = on_air (ltb 2 (length cfg.radio.path))
  has_fault bad_id_interval =
      on_air (cfg.radio.id_interval_secs == 0 || ltb 600 cfg.radio.id_interval_secs)
  has_fault bad_paclen = on_air (ltb cfg.radio.paclen 32 || ltb 256 cfg.radio.paclen)
  has_fault no_peers = on_air (cfg.radio.max_peers == 0)
  has_fault no_fragments = on_air (cfg.policy.max_rf_fragments == 0)
  has_fault no_queue = on_air (cfg.radio.max_queued_airtime_secs == 0)
  has_fault no_interlock_command =
      on_air (interlock_is (λ i. is_empty (trim i.command)) cfg.radio.interlock)
  has_fault no_interlock_times =
      on_air (interlock_is (λ i. i.interval_secs == 0 || i.timeout_secs == 0) cfg.radio.interlock)
  has_fault interlock_overlap =
      on_air (interlock_is (λ i. leb i.interval_secs i.timeout_secs) cfg.radio.interlock)
  has_fault no_rf_channel = on_air (all (λ (c : ChannelConfig). not c.rf) cfg.channels)
  has_fault invalid_aprs_channel = on_air (not (is_channel_name cfg.radio.aprs_channel))
  has_fault unbridged_aprs_channel =
      on_air (not (is_bridged (lower cfg.radio.aprs_channel) cfg.channels))
  has_fault no_governor = on_air (not duty.enabled && not (is_loopback cfg.radio.tnc.kind))
  has_fault bad_duty =
      keyed (duty.max_duty_percent == 0 || ltb (duty_ceiling fl) duty.max_duty_percent)
  has_fault no_window = keyed (duty.window_secs == 0)
  has_fault no_continuous = keyed (duty.max_continuous_secs == 0)
  has_fault no_baud = keyed (duty.baud == 0)
  has_fault odd_baud =
      keyed (not duty.allow_nonstandard_baud && not (contains duty.baud standard_bauds))
  has_fault no_pacing =
      keyed (cfg.radio.tnc.tx_pacing_ms == 0 && not (is_loopback cfg.radio.tnc.kind))
  has_fault long_txdelay = keyed (ltb 2550 duty.txdelay_ms)
  has_fault long_txtail = keyed (ltb 2550 duty.txtail_ms)
  has_fault unsafe_burst = keyed (not (is_hardware_safe air))
  has_fault over_allowance = keyed (ltb (allowance air) biggest)
  has_fault over_continuous = keyed (ltb air.max_continuous biggest)
  has_fault over_budget = keyed (not (air.hourly_budget == 0) && ltb air.hourly_budget biggest)
  has_fault (direwolf e) = keyed (direwolf_fault out cfg.radio.tnc.direwolf_conf duty e)
  has_fault (bad_policy_callsign t) =
      on_air (among t (cfg.policy.deny_callsigns ++ cfg.policy.allow_callsigns) && not (parses t))
