-- ===== src/Tests/Configs.antt =====
-- The configuration, src/config.rs, on concrete inputs.
use rfircd.Prelude.{
  ◌+◌, ◌≡◌, ◌≤◌, refl, [], ◌∷◌, true, false, none, some, Text, ok, err, arith, All,
}
use rfircd.Prelude.Assoc.{lookup}
use rfircd.Prelude.Chars.{
  text_beq, text_eq, trim, trim_start, trim_end, split_once, parse_u8, parse_u32, parse_below,
  split_by,
}
use rfircd.Callsign.{Callsign, from_str, require_amateur}
use rfircd.Callsign
use rfircd.Irc.Casemap.{lower, lower_char}
use rfircd.Irc.Message.{is_channel_name, split}
use rfircd.Ax25.Airtime.{
  airtime_for, allowance, effective_duty, is_hardware_safe, burst_duty, check, new, send,
}
use rfircd.Config.{Config, ChannelConfig, to_airtime}
use rfircd.Config.Defaults.{
  default_listen, default_radio, default_policy, default_accounts, default_network,
  default_max_nick_len, default_max_channels, default_duty,
}
use rfircd.Config.Direwolf.{
  check_direwolf_conf, check_modem, read_lines, read_line, read_words, first_number, other_modem,
}
use rfircd.Config.Validate.{
  Outside, validate, check_server, check_radio, check_duty, check_oper_names, check_oper_passwords,
  check_tls, check_channels, check_each, check_callsign, check_interlock, check_aprs_channel,
  check_limits, check_file, listen_addresses, bind_is_loopback, same_channel,
}
use rfircd.Config.Sound.{validate-check}
use rfircd.Config.Refusals.{has_fault}
use rfircd.Config.Faults.{validate-has_fault}
use rfircd.Server.State.{Channel, empty}
use rfircd.Server.Setup.{setup}
use rfircd.Server.Setup.Channels.{IsSetUp, setup-IsSetUp}
use rfircd.Tests.Samples.{thousandths}

abbrev rf_name : Text
rf_name = b'#' ∷ b'r' ∷ b'f' ∷ []

abbrev nothing_outside : Outside
nothing_outside = record {
  is_phc_hash = λ t. false;
  socket_is_loopback = λ t. none;
  tls_loads = λ c k. false;
  read_file = λ p. none;
}

abbrev bridged : Text → ChannelConfig
bridged name = record { name = name; topic = []; rf = true; operators = [] }

-- A gateway with the defaults, one channel, and a path of one hop.
abbrev gateway_config : Config
gateway_config = record {
  server = record {
    name = b'g' ∷ b'w' ∷ [];
    network = default_network;
    motd = [];
    max_nick_len = default_max_nick_len;
    max_channels_per_user = default_max_channels;
    password = none;
  };
  listen = default_listen;
  radio = record default_radio {
    enabled = true;
    callsign = b'S' ∷ b'M' ∷ b'0' ∷ b'A' ∷ b'B' ∷ b'C' ∷ b'-' ∷ b'1' ∷ [];
    path = (b'S' ∷ b'K' ∷ b'0' ∷ b'R' ∷ []) ∷ [];
  };
  policy = default_policy;
  channels = bridged rf_name ∷ [];
  opers = [];
  logging = record { file = none; audit_file = none };
  accounts = default_accounts;
}

gateway_config-ok : validate thousandths nothing_outside gateway_config ≡ ok tt
unfolding validate check_server check_radio check_duty check_oper_names check_oper_passwords
    check_tls check_channels check_each check_callsign check_interlock check_aprs_channel
    check_limits check_file listen_addresses bind_is_loopback text_beq trim trim_start trim_end
    lower lower_char is_channel_name from_str require_amateur to_airtime is_hardware_safe burst_duty
    airtime_for allowance effective_duty Callsign.with_separator split_once parse_u8 Callsign.new
    Callsign.checked Callsign.find_char Callsign.looks_like_amateur_call
gateway_config-ok = refl

-- A short frame costs no more than a longest one.
short_frame :
    airtime_for (to_airtime thousandths default_duty) 40
    ≤ airtime_for (to_airtime thousandths default_duty) (gateway_config.radio.paclen + 64)
unfolding airtime_for to_airtime
short_frame = omega arith

validate-check_example :
    (check (new (to_airtime thousandths gateway_config.radio.duty)) 40 7).1 ≡ send
validate-check_example =
    validate-check thousandths nothing_outside gateway_config 40 7 gateway_config-ok refl refl
      short_frame

setup-IsSetUp_example :
    All
      (λ (d : ChannelConfig).
        (c : Channel) × (lookup
            (lower d.name)
            (setup gateway_config.server.name 5 empty gateway_config.channels).channels
          ≡ some c)
        × IsSetUp gateway_config.server.name 5 d c)
      gateway_config.channels
setup-IsSetUp_example = setup-IsSetUp thousandths nothing_outside gateway_config 5 gateway_config-ok

-- The same channel twice, in different case.
abbrev twice_config : Config
twice_config = record gateway_config {
  channels = bridged rf_name ∷ bridged (b'#' ∷ b'R' ∷ b'f' ∷ []) ∷ [];
}

twice_refused :
    validate thousandths nothing_outside twice_config ≡ err (same_channel (b'#' ∷ b'R' ∷ b'f' ∷ []))
unfolding validate check_server check_oper_names check_oper_passwords check_tls check_channels
    listen_addresses bind_is_loopback text_beq trim trim_start trim_end lower lower_char
    is_channel_name
twice_refused = refl

validate-has_fault_example :
    has_fault thousandths nothing_outside twice_config (same_channel (b'#' ∷ b'R' ∷ b'f' ∷ []))
    ≡ true
validate-has_fault_example =
    validate-has_fault thousandths nothing_outside twice_config
      (same_channel (b'#' ∷ b'R' ∷ b'f' ∷ [])) twice_refused

-- `MODEM 1200 # fast`, for a governor that prices 300 baud.
abbrev fast_modem : Text
fast_modem =
    b'm' ∷ b'o' ∷ b'd' ∷ b'e' ∷ b'm' ∷ b' ' ∷ b'1' ∷ b'2' ∷ b'0' ∷ b'0' ∷ b' ' ∷ b'#' ∷ b'f' ∷ 13
    ∷ 10 ∷ []

modem_run : check_direwolf_conf (some fast_modem) default_duty ≡ err (other_modem 1200)
unfolding check_direwolf_conf check_modem read_lines read_line read_words first_number parse_u32
    parse_below split split_by trim trim_start trim_end text_beq
modem_run = refl
