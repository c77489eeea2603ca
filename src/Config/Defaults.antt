-- ===== src/Config/Defaults.antt =====
-- The defaults of src/config.rs, which serde fills in for what a file leaves out.
use rfircd.Prelude.{ℕ, Bool, true, false, List, [], ◌∷◌, none, Text}
use rfircd.Config.{
  ListenConfig, DutyConfig, airc, TncSection, RadioConfig, PolicyConfig, AccountsConfig,
}

abbrev pub default_network : Text
default_network = b'R' ∷ b'F' ∷ b'I' ∷ b'R' ∷ b'C' ∷ []

abbrev pub default_max_nick_len : ℕ
default_max_nick_len = 30

abbrev pub default_max_channels : ℕ
default_max_channels = 20

abbrev pub default_bind : List Text
default_bind =
    (b'1' ∷ b'2' ∷ b'7' ∷ b'.' ∷ b'0' ∷ b'.' ∷ b'0' ∷ b'.' ∷ b'1' ∷ b':' ∷ b'6' ∷ b'6' ∷ b'6' ∷ b'7'
      ∷ [])
    ∷ []

abbrev pub default_ping_interval : ℕ
default_ping_interval = 120

abbrev pub default_registration_timeout : ℕ
default_registration_timeout = 60

abbrev pub default_destination : Text
default_destination = b'A' ∷ b'I' ∷ b'R' ∷ b'C' ∷ []

abbrev pub default_id_interval : ℕ
default_id_interval = 540

abbrev pub default_id_text : Text
default_id_text =
    b'R' ∷ b'F' ∷ b'I' ∷ b'R' ∷ b'C' ∷ b' ' ∷ b'g' ∷ b'a' ∷ b't' ∷ b'e' ∷ b'w' ∷ b'a' ∷ b'y' ∷ []

abbrev pub default_paclen : ℕ
default_paclen = 128

abbrev pub default_ack_timeout : ℕ
default_ack_timeout = 12

abbrev pub default_max_retries : ℕ
default_max_retries = 3

abbrev pub default_idle_timeout : ℕ
default_idle_timeout = 1800

abbrev pub default_max_peers : ℕ
default_max_peers = 256

abbrev pub default_tnc_kind : Text
default_tnc_kind = b't' ∷ b'c' ∷ b'p' ∷ []

abbrev pub default_tnc_host : Text
default_tnc_host = b'1' ∷ b'2' ∷ b'7' ∷ b'.' ∷ b'0' ∷ b'.' ∷ b'0' ∷ b'.' ∷ b'1' ∷ []

abbrev pub default_tnc_port : ℕ
default_tnc_port = 8001

abbrev pub default_baud : ℕ
default_baud = 9600

abbrev pub default_tx_pacing : ℕ
default_tx_pacing = 1500

abbrev pub default_mailbox_per_station : ℕ
default_mailbox_per_station = 10

abbrev pub default_mailbox_total : ℕ
default_mailbox_total = 200

abbrev pub default_mailbox_ttl : ℕ
default_mailbox_ttl = 86400

abbrev pub default_max_rf_text : ℕ
default_max_rf_text = 160

abbrev pub default_rf_msgs_per_min : ℕ
default_rf_msgs_per_min = 6

abbrev pub default_rf_burst : ℕ
default_rf_burst = 4

abbrev pub default_ip_msgs_per_min : ℕ
default_ip_msgs_per_min = 10

abbrev pub default_ip_to_rf_burst : ℕ
default_ip_to_rf_burst = 4

abbrev pub default_true : Bool
default_true = true

abbrev pub default_max_conns_per_host : ℕ
default_max_conns_per_host = 8

abbrev pub default_max_clients : ℕ
default_max_clients = 256

abbrev pub default_rf_channel_msgs : ℕ
default_rf_channel_msgs = 10

abbrev pub default_rf_channel_burst : ℕ
default_rf_channel_burst = 4

abbrev pub default_ip_cmds_per_min : ℕ
default_ip_cmds_per_min = 90

abbrev pub default_ip_cmd_burst : ℕ
default_ip_cmd_burst = 30

abbrev pub default_nicks_file : Text
default_nicks_file = b'n' ∷ b'i' ∷ b'c' ∷ b'k' ∷ b's' ∷ b'.' ∷ b'j' ∷ b's' ∷ b'o' ∷ b'n' ∷ []

abbrev pub default_identify_timeout : ℕ
default_identify_timeout = 60

abbrev pub default_min_password : ℕ
default_min_password = 8

abbrev pub default_identify_per_min : ℕ
default_identify_per_min = 6

abbrev pub default_identify_burst : ℕ
default_identify_burst = 3

abbrev pub default_duty_baud : ℕ
default_duty_baud = 300

abbrev pub default_txdelay_ms : ℕ
default_txdelay_ms = 400

abbrev pub default_txtail_ms : ℕ
default_txtail_ms = 300

abbrev pub default_duty_window : ℕ
default_duty_window = 600

abbrev pub default_max_duty_percent : ℕ
default_max_duty_percent = 25

abbrev pub default_max_continuous : ℕ
default_max_continuous = 30

abbrev pub default_cooldown : ℕ
default_cooldown = 60

abbrev pub default_hourly_airtime : ℕ
default_hourly_airtime = 900

abbrev pub default_max_hold : ℕ
default_max_hold = 120

abbrev pub default_max_queued_airtime : ℕ
default_max_queued_airtime = 60

abbrev pub default_rf_names_max : ℕ
default_rf_names_max = 8

abbrev pub default_mailbox_flush_batch : ℕ
default_mailbox_flush_batch = 1

abbrev pub default_interlock_interval : ℕ
default_interlock_interval = 30

abbrev pub default_interlock_timeout : ℕ
default_interlock_timeout = 5

abbrev pub default_max_rf_fragments : ℕ
default_max_rf_fragments = 2

abbrev pub default_listen : ListenConfig
default_listen = record {
  bind = default_bind;
  tls = none;
  ping_interval_secs = default_ping_interval;
  registration_timeout_secs = default_registration_timeout;
  max_conns_per_host = default_max_conns_per_host;
  max_clients = default_max_clients;
}

abbrev pub default_duty : DutyConfig
default_duty = record {
  enabled = default_true;
  baud = default_duty_baud;
  txdelay_ms = default_txdelay_ms;
  txtail_ms = default_txtail_ms;
  window_secs = default_duty_window;
  max_duty_percent = default_max_duty_percent;
  max_continuous_secs = default_max_continuous;
  cooldown_secs = default_cooldown;
  hourly_airtime_secs = default_hourly_airtime;
  max_hold_secs = default_max_hold;
  allow_nonstandard_baud = false;
}

abbrev pub default_tnc : TncSection
default_tnc = record {
  kind = default_tnc_kind;
  host = default_tnc_host;
  port = default_tnc_port;
  device = [];
  baud = default_baud;
  kiss_port = 0;
  tx_pacing_ms = default_tx_pacing;
  persistence = none;
  slottime = none;
  direwolf_conf = none;
  txdelay = none;
  txtail = none;
}

abbrev pub default_policy : PolicyConfig
default_policy = record {
  max_rf_text_len = default_max_rf_text;
  rf_msgs_per_min = default_rf_msgs_per_min;
  rf_burst = default_rf_burst;
  ip_to_rf_msgs_per_min = default_ip_msgs_per_min;
  ip_to_rf_burst = default_ip_to_rf_burst;
  block_apparent_ciphertext = default_true;
  deny_callsigns = [];
  allow_callsigns = [];
  rf_channel_msgs_per_min = default_rf_channel_msgs;
  rf_channel_burst = default_rf_channel_burst;
  ip_cmds_per_min = default_ip_cmds_per_min;
  ip_cmd_burst = default_ip_cmd_burst;
  max_rf_fragments = default_max_rf_fragments;
  identify_per_min = default_identify_per_min;
  identify_burst = default_identify_burst;
}

abbrev pub default_accounts : AccountsConfig
default_accounts = record {
  file = default_nicks_file;
  identify_timeout_secs = default_identify_timeout;
  min_password_len = default_min_password;
}

abbrev pub default_radio : RadioConfig
default_radio = record {
  enabled = false;
  callsign = [];
  destination = default_destination;
  path = [];
  tnc = default_tnc;
  id_interval_secs = default_id_interval;
  id_text = default_id_text;
  paclen = default_paclen;
  ack_timeout_secs = default_ack_timeout;
  max_retries = default_max_retries;
  peer_idle_timeout_secs = default_idle_timeout;
  max_peers = default_max_peers;
  presence_notices = false;
  mailbox_enabled = default_true;
  mailbox_per_station = default_mailbox_per_station;
  mailbox_total = default_mailbox_total;
  mailbox_ttl_secs = default_mailbox_ttl;
  mailbox_flush_batch = default_mailbox_flush_batch;
  repeat_rf_traffic = false;
  notice_air_relay = default_true;
  max_queued_airtime_secs = default_max_queued_airtime;
  rf_names_max = default_rf_names_max;
  aprs = default_true;
  aprs_channel = [];
  rf_mode = airc;
  interlock = none;
  duty = default_duty;
}
