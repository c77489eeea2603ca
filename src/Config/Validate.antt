-- ===== src/Config/Validate.antt =====
-- `Config::validate` of src/config.rs, check by check in its order. What it asks of libraries and of the
-- machine is a parameter.
use rfircd.Prelude.{
  ℕ, ◌+◌, Bool, true, false, not, ◌&&◌, ◌||◌, List, [], ◌∷◌, ◌++◌, Option, none, some, Text, Result,
  ok, err, ◌>>=◌, ◌>>◌, guard, map, all, any, length, is_empty, ◌==◌, ltb, leb, if◌then◌else◌,
  contains, map_err,
}
use rfircd.Prelude.Assoc.{is_some}
use rfircd.Prelude.Chars.{trim, text_beq, ascii_upper, rsplit_once, trim_matches}
use rfircd.Prelude.Float.{Float, half}
use rfircd.Callsign.{Callsign, from_str, require_amateur}
use rfircd.Irc.Casemap.{lower}
use rfircd.Irc.Message.{is_channel_name}
use rfircd.Ax25.Airtime.{AirtimeConfig, airtime_for, allowance, is_hardware_safe}
use rfircd.Config.{
  Config, TlsListenConfig, RadioConfig, InterlockConfig, DutyConfig, ChannelConfig, OperConfig,
  to_airtime,
}
use rfircd.Config.Direwolf.{DirewolfError, check_direwolf_conf}

-- What the validation is refused for, in the order of the checks.
pub data ConfigError : Type 0 where
  moved_txdelay moved_txtail no_server_name no_ping_interval no_registration_timeout : ConfigError
  no_identify_timeout no_oper_name : ConfigError
  duplicate_oper : Text → ConfigError
  no_nick_len no_channels_per_user no_password_len no_text_len : ConfigError
  plaintext_opers : ConfigError
  no_tls_bind no_tls_paths bad_tls : ConfigError
  invalid_channel same_channel : Text → ConfigError
  bad_callsign not_amateur bad_destination : ConfigError
  bad_hop : Text → ConfigError
  long_path bad_id_interval bad_paclen no_peers no_fragments no_queue : ConfigError
  no_interlock_command no_interlock_times interlock_overlap : ConfigError
  no_rf_channel invalid_aprs_channel unbridged_aprs_channel : ConfigError
  no_governor bad_duty no_window no_continuous no_baud odd_baud no_pacing : ConfigError
  long_txdelay long_txtail unsafe_burst : ConfigError
  over_allowance over_continuous over_budget : ConfigError
  direwolf : DirewolfError → ConfigError
  bad_policy_callsign : Text → ConfigError

-- The hash test of the accounts, the addresses and certificates of the libraries, and the files.
pub record Outside : Type 0 where
  pub is_phc_hash : Text → Bool
  -- Whether a `SocketAddr` is loopback, for a text that is one.
  pub socket_is_loopback : Text → Option Bool
  pub tls_loads : Text → Text → Bool
  pub read_file : Text → Option Text

abbrev pub Checked : Type 0
Checked = Result ConfigError (Unit {0})

-- The loop of a check over a list.
unfoldable pub check_each {ℓ} : {A : Type ℓ} → (A → Checked) → List A → Checked
check_each f [] = ok tt
check_each f (x ∷ xs) = f x >> check_each f xs

abbrev pub among : Text → List Text → Bool
among t seen = any (text_beq t) seen

abbrev pub parses : Text → Bool
parses t = elim (from_str t) [ ok c ↦ true | err e ↦ false ]

unfoldable pub check_oper_names : List Text → List OperConfig → Checked
unfolding trim lower
check_oper_names seen [] = ok tt
check_oper_names seen (o ∷ opers) =
    guard (not (is_empty (trim o.name))) no_oper_name
    >> guard (not (among (lower o.name) seen)) (duplicate_oper o.name)
    >> check_oper_names (lower o.name ∷ seen) opers

abbrev pub is_bracket : ℕ → Bool
is_bracket c = c == b'[' || c == b']'

abbrev pub localhost : Text
localhost = b'L' ∷ b'O' ∷ b'C' ∷ b'A' ∷ b'L' ∷ b'H' ∷ b'O' ∷ b'S' ∷ b'T' ∷ []

abbrev pub loopback_v4 : Text
loopback_v4 = b'1' ∷ b'2' ∷ b'7' ∷ b'.' ∷ b'0' ∷ b'.' ∷ b'0' ∷ b'.' ∷ b'1' ∷ []

abbrev pub loopback_v6 : Text
loopback_v6 = b':' ∷ b':' ∷ b'1' ∷ []

abbrev pub loopback : Text
loopback = b'l' ∷ b'o' ∷ b'o' ∷ b'p' ∷ b'b' ∷ b'a' ∷ b'c' ∷ b'k' ∷ []

abbrev pub host_of : Text → Text
host_of addr = elim (rsplit_once b':' addr) [
  | some (h, port) ↦ trim_matches is_bracket h
  | none ↦ addr
]

unfoldable pub bind_is_loopback : Outside → Text → Bool
unfolding text_beq
bind_is_loopback out addr = elim (out.socket_is_loopback addr) [
  | some b ↦ b
  | none ↦
      let host = host_of addr in
      text_beq (map ascii_upper host) localhost
      || text_beq host loopback_v4
      || text_beq host loopback_v6
]

unfoldable pub check_oper_passwords : Outside → List OperConfig → List Text → Checked
unfolding bind_is_loopback
check_oper_passwords out opers bind =
    guard (all (λ o. out.is_phc_hash o.password) opers || all (bind_is_loopback out) bind)
      plaintext_opers

unfoldable pub listen_addresses : Config → List Text
listen_addresses cfg = elim (cfg.listen.tls) [
  | none ↦ cfg.listen.bind
  | some tls ↦ cfg.listen.bind ++ tls.bind
]

unfoldable pub check_tls : Outside → Option TlsListenConfig → Checked
unfolding trim
check_tls out none = ok tt
check_tls out (some tls) =
    guard (not (is_empty tls.bind)) no_tls_bind
    >> guard (not (is_empty (trim tls.cert)) && not (is_empty (trim tls.key))) no_tls_paths
    >> guard (out.tls_loads tls.cert tls.key) bad_tls

-- The names seen before are those of the map `seen`.
unfoldable pub check_channels : List Text → List ChannelConfig → Checked
unfolding lower is_channel_name
check_channels seen [] = ok tt
check_channels seen (c ∷ channels) =
    guard (is_channel_name c.name) (invalid_channel c.name)
    >> guard (not (among (lower c.name) seen)) (same_channel c.name)
    >> check_channels (lower c.name ∷ seen) channels

-- The checks up to the switch of the radio.
unfoldable pub check_server : Outside → Config → Checked
unfolding check_oper_names check_oper_passwords listen_addresses check_tls check_channels
check_server out cfg =
    guard (not (is_some cfg.radio.tnc.txdelay)) moved_txdelay
    >> guard (not (is_some cfg.radio.tnc.txtail)) moved_txtail
    >> guard (not (is_empty (trim cfg.server.name))) no_server_name
    >> guard (not (cfg.listen.ping_interval_secs == 0)) no_ping_interval
    >> guard (not (cfg.listen.registration_timeout_secs == 0)) no_registration_timeout
    >> guard (not (cfg.accounts.identify_timeout_secs == 0)) no_identify_timeout
    >> check_oper_names [] cfg.opers
    >> guard (not (cfg.server.max_nick_len == 0)) no_nick_len
    >> guard (not (cfg.server.max_channels_per_user == 0)) no_channels_per_user
    >> guard (not (cfg.accounts.min_password_len == 0)) no_password_len
    >> guard (not (cfg.policy.max_rf_text_len == 0)) no_text_len
    >> check_oper_passwords out cfg.opers (listen_addresses cfg)
    >> check_tls out cfg.listen.tls
    >> check_channels [] cfg.channels

unfoldable pub check_callsign : Text → Checked
unfolding from_str require_amateur
check_callsign t = map_err (λ e. bad_callsign) (from_str t) >>= λ call.
    map_err (λ e. not_amateur) (require_amateur call)

unfoldable pub check_interlock : Option InterlockConfig → Checked
unfolding trim
check_interlock none = ok tt
check_interlock (some i) =
    guard (not (is_empty (trim i.command))) no_interlock_command
    >> guard (not (i.interval_secs == 0 || i.timeout_secs == 0)) no_interlock_times
    >> guard (ltb i.timeout_secs i.interval_secs) interlock_overlap

abbrev pub is_bridged : Text → List ChannelConfig → Bool
is_bridged want channels =
    any (λ (c : ChannelConfig). c.rf && text_beq (lower c.name) want) channels

unfoldable pub check_aprs_channel : Text → List ChannelConfig → Checked
unfolding is_channel_name lower
check_aprs_channel name channels =
    if is_empty name
    then ok tt
    else (guard (is_channel_name name) invalid_aprs_channel
        >> guard (is_bridged (lower name) channels) unbridged_aprs_channel)

-- The checks of the radio before those of the governor.
unfoldable pub check_radio : Config → Checked
unfolding check_each check_callsign check_interlock check_aprs_channel
check_radio cfg =
    check_callsign cfg.radio.callsign
    >> guard (parses cfg.radio.destination) bad_destination
    >> check_each (λ d. guard (parses d) (bad_hop d)) cfg.radio.path
    >> guard (leb (length cfg.radio.path) 2) long_path
    >> guard (not (cfg.radio.id_interval_secs == 0) && leb cfg.radio.id_interval_secs 600)
        bad_id_interval
    >> guard (leb 32 cfg.radio.paclen && leb cfg.radio.paclen 256) bad_paclen
    >> guard (not (cfg.radio.max_peers == 0)) no_peers
    >> guard (not (cfg.policy.max_rf_fragments == 0)) no_fragments
    >> guard (not (cfg.radio.max_queued_airtime_secs == 0)) no_queue
    >> check_interlock cfg.radio.interlock
    >> guard (any (λ (c : ChannelConfig). c.rf) cfg.channels) no_rf_channel
    >> check_aprs_channel cfg.radio.aprs_channel cfg.channels

abbrev pub is_loopback : Text → Bool
is_loopback kind = text_beq kind loopback

abbrev pub standard_bauds : List ℕ
standard_bauds = 300 ∷ 1200 ∷ 9600 ∷ []

unfoldable pub check_file : Outside → Option Text → DutyConfig → Checked
unfolding check_direwolf_conf
check_file out none duty = ok tt
check_file out (some path) duty = map_err direwolf (check_direwolf_conf (out.read_file path) duty)

module _ (fl : Float) where
  open fl use {of_nat, mul, to_nat}

  -- `(HARD_MAX_DUTY * 100.0) as u32`.
  abbrev pub duty_ceiling : ℕ
  duty_ceiling = to_nat (mul (half fl) (of_nat 100))

  -- The numbers of the governor, and the price of the longest frame.
  unfoldable pub check_limits : AirtimeConfig fl → ℕ → Checked
  unfolding airtime_for allowance
  check_limits air octets =
      let biggest = airtime_for air octets in
      guard (leb biggest (allowance air)) over_allowance
      >> guard (leb biggest air.max_continuous) over_continuous
      >> guard (air.hourly_budget == 0 || leb biggest air.hourly_budget) over_budget

  unfoldable pub check_duty : Outside → RadioConfig → Checked
  unfolding to_airtime is_hardware_safe check_limits check_file
  check_duty out radio =
      let duty = radio.duty in
      let air = to_airtime fl duty in
      guard (not (duty.max_duty_percent == 0) && leb duty.max_duty_percent duty_ceiling) bad_duty
      >> guard (not (duty.window_secs == 0)) no_window
      >> guard (not (duty.max_continuous_secs == 0)) no_continuous
      >> guard (not (duty.baud == 0)) no_baud
      >> guard (duty.allow_nonstandard_baud || contains duty.baud standard_bauds) odd_baud
      >> guard (not (radio.tnc.tx_pacing_ms == 0) || is_loopback radio.tnc.kind) no_pacing
      >> guard (leb duty.txdelay_ms 2550) long_txdelay
      >> guard (leb duty.txtail_ms 2550) long_txtail
      >> guard (is_hardware_safe air) unsafe_burst
      >> check_limits air (radio.paclen + 64)
      >> check_file out radio.tnc.direwolf_conf duty

  unfoldable pub validate : Outside → Config → Checked
  unfolding check_server check_radio check_duty check_each
  validate out cfg =
      check_server out cfg
      >> (if not cfg.radio.enabled
          then ok tt
          else (check_radio cfg
              >> guard (cfg.radio.duty.enabled || is_loopback cfg.radio.tnc.kind) no_governor
              >> (if cfg.radio.duty.enabled then check_duty out cfg.radio else ok tt)
              >> check_each (λ c. guard (parses c) (bad_policy_callsign c))
                  (cfg.policy.deny_callsigns ++ cfg.policy.allow_callsigns)))

-- The first bridged channel, where no channel is set for APRS.
abbrev pub first_bridged : List ChannelConfig → Option Text
first_bridged [] = none
first_bridged (c ∷ channels) = if c.rf then some c.name else first_bridged channels

unfoldable pub aprs_listen_channel : Config → Option Text
aprs_listen_channel cfg =
    if not (is_empty cfg.radio.aprs_channel)
    then some cfg.radio.aprs_channel
    else first_bridged cfg.channels

abbrev pub parsed : Text → Option Callsign
parsed t = elim (from_str t) [ ok c ↦ some c | err e ↦ none ]

unfoldable pub gateway_callsign : Config → Option Callsign
gateway_callsign cfg = parsed cfg.radio.callsign

unfoldable pub parsed_hops : List Text → List Callsign
parsed_hops [] = []
parsed_hops (d ∷ path) = elim (parsed d) [ some c ↦ c ∷ parsed_hops path | none ↦ parsed_hops path ]

unfoldable pub rf_path : Config → List Callsign
unfolding parsed_hops
rf_path cfg = parsed_hops cfg.radio.path
