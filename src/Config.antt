-- ===== src/Config.antt =====
-- The configuration, src/config.rs, as it is read from TOML: the records, and `DutyConfig::to_airtime`. A
-- `Duration` is its nanoseconds. What serde does is not modelled; Config/Defaults has what it fills in.
pub mod Defaults
pub mod Direwolf
pub mod Validate
pub mod Sound
pub mod Blames
pub mod Refusals
pub mod Faults
use rfircd.Prelude.{ℕ, ◌*◌, Bool, true, false, List, Option, Text, min, max, if◌then◌else◌}
use rfircd.Prelude.Float.{Float}
use rfircd.Ax25.Airtime.{AirtimeConfig, millis, seconds}

pub data RfMode : Type 0 where
  airc aprs : RfMode

abbrev pub is_airc : RfMode → Bool
is_airc airc = true
is_airc aprs = false

abbrev pub is_aprs : RfMode → Bool
is_aprs airc = false
is_aprs aprs = true

pub record ServerConfig : Type 0 where
  pub name : Text
  pub network : Text
  pub motd : List Text
  pub max_nick_len : ℕ
  pub max_channels_per_user : ℕ
  pub password : Option Text

pub record TlsListenConfig : Type 0 where
  pub bind : List Text
  pub cert : Text
  pub key : Text

pub record ListenConfig : Type 0 where
  pub bind : List Text
  pub tls : Option TlsListenConfig
  pub ping_interval_secs : ℕ
  pub registration_timeout_secs : ℕ
  pub max_conns_per_host : ℕ
  pub max_clients : ℕ

pub record InterlockConfig : Type 0 where
  pub command : Text
  pub args : List Text
  pub interval_secs : ℕ
  pub timeout_secs : ℕ

pub record DutyConfig : Type 0 where
  pub enabled : Bool
  pub baud : ℕ
  pub txdelay_ms : ℕ
  pub txtail_ms : ℕ
  pub window_secs : ℕ
  pub max_duty_percent : ℕ
  pub max_continuous_secs : ℕ
  pub cooldown_secs : ℕ
  pub hourly_airtime_secs : ℕ
  pub max_hold_secs : ℕ
  pub allow_nonstandard_baud : Bool

pub record TncSection : Type 0 where
  pub kind : Text
  pub host : Text
  pub port : ℕ
  pub device : Text
  pub baud : ℕ
  pub kiss_port : ℕ
  pub tx_pacing_ms : ℕ
  pub persistence : Option ℕ
  pub slottime : Option ℕ
  pub direwolf_conf : Option Text
  pub txdelay : Option ℕ
  pub txtail : Option ℕ

pub record RadioConfig : Type 0 where
  pub enabled : Bool
  pub callsign : Text
  pub destination : Text
  pub path : List Text
  pub tnc : TncSection
  pub id_interval_secs : ℕ
  pub id_text : Text
  pub paclen : ℕ
  pub ack_timeout_secs : ℕ
  pub max_retries : ℕ
  pub peer_idle_timeout_secs : ℕ
  pub max_peers : ℕ
  pub presence_notices : Bool
  pub mailbox_enabled : Bool
  pub mailbox_per_station : ℕ
  pub mailbox_total : ℕ
  pub mailbox_ttl_secs : ℕ
  pub mailbox_flush_batch : ℕ
  pub repeat_rf_traffic : Bool
  pub notice_air_relay : Bool
  pub max_queued_airtime_secs : ℕ
  pub rf_names_max : ℕ
  pub aprs : Bool
  pub aprs_channel : Text
  pub rf_mode : RfMode
  pub interlock : Option InterlockConfig
  pub duty : DutyConfig

pub record PolicyConfig : Type 0 where
  pub max_rf_text_len : ℕ
  pub rf_msgs_per_min : ℕ
  pub rf_burst : ℕ
  pub ip_to_rf_msgs_per_min : ℕ
  pub ip_to_rf_burst : ℕ
  pub block_apparent_ciphertext : Bool
  pub deny_callsigns : List Text
  pub allow_callsigns : List Text
  pub rf_channel_msgs_per_min : ℕ
  pub rf_channel_burst : ℕ
  pub ip_cmds_per_min : ℕ
  pub ip_cmd_burst : ℕ
  pub max_rf_fragments : ℕ
  pub identify_per_min : ℕ
  pub identify_burst : ℕ

pub record ChannelConfig : Type 0 where
  pub name : Text
  pub topic : Text
  pub rf : Bool
  pub operators : List Text

pub record OperConfig : Type 0 where
  pub name : Text
  pub password : Text

pub record LoggingConfig : Type 0 where
  pub file : Option Text
  pub audit_file : Option Text

pub record AccountsConfig : Type 0 where
  pub file : Text
  pub identify_timeout_secs : ℕ
  pub min_password_len : ℕ

pub record Config : Type 0 where
  pub server : ServerConfig
  pub listen : ListenConfig
  pub radio : RadioConfig
  pub policy : PolicyConfig
  pub channels : List ChannelConfig
  pub opers : List OperConfig
  pub logging : LoggingConfig
  pub accounts : AccountsConfig

module _ (fl : Float) where
  open fl use {of_nat, div}

  unfoldable pub to_airtime : DutyConfig → AirtimeConfig fl
  to_airtime d = record {
    enabled = d.enabled;
    baud = max d.baud 1;
    txdelay = millis d.txdelay_ms;
    txtail = millis d.txtail_ms;
    window = seconds (max d.window_secs 1);
    max_duty = div (of_nat (min d.max_duty_percent 100)) (of_nat 100);
    max_continuous = seconds (max d.max_continuous_secs 1);
    cooldown = seconds d.cooldown_secs;
    hourly_budget = seconds d.hourly_airtime_secs;
    max_hold = seconds (max d.max_hold_secs 1);
    stuffing = div (of_nat 105) (of_nat 100);
  }
