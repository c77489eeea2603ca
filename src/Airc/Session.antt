-- ===== src/Airc/Session.antt =====
-- The state of a session per station, src/airc/session.rs: configuration, a message in flight, the
-- reassembly of a fragmented one, and the peer. An `Instant` and a `Duration` are numbers; a set of
-- channel names is a list of them.
pub mod Bitmap
pub mod Chunk
pub mod Acks
pub mod Receive
pub mod Table
pub mod Tick
pub mod Channels
pub mod Reachable
use rfircd.Prelude.{
  ℕ, zero, suc, ◌+◌, ◌-◌, ◌*◌, Bool, true, false, List, [], Option, none, some, Bytes, Text, max,
}
use rfircd.Callsign.{Callsign}
use rfircd.Airc.Frame.{AircFrame, Kind, header_len}

pub record SessionConfig : Type 0 where
  pub paclen : ℕ
  pub ack_timeout : ℕ
  pub max_retries : ℕ
  pub reassembly_timeout : ℕ
  pub peer_idle_timeout : ℕ
  pub max_queue : ℕ
  pub dedup_window : ℕ
  pub max_peers : ℕ
  pub max_reasm : ℕ

-- `SessionConfig::default()`, with times in seconds.
abbrev pub default : SessionConfig
default = record {
  paclen = 128;
  ack_timeout = 12;
  max_retries = 3;
  reassembly_timeout = 60;
  peer_idle_timeout = 30 * 60;
  max_queue = 16;
  dedup_window = 64;
  max_peers = 256;
  max_reasm = 4;
}

unfoldable pub max_payload : SessionConfig → ℕ
max_payload cfg = max (cfg.paclen - header_len) 1

pub record Pending : Type 0 where
  pub frames : List AircFrame
  pub acked : List Bool
  pub attempts : ℕ
  pub next_retry : Option ℕ

pub record Reassembly : Type 0 where
  pub kind : Kind
  pub flags : ℕ
  pub parts : List (Option Bytes)
  pub started : ℕ
  pub want_ack : Bool

pub record OwedAck : Type 0 where
  pub seq : ℕ
  pub bitmap : Option Bytes

pub data Dialect : Type 0 where
  aprs airc : Dialect

pub record Peer : Type 0 where
  pub call : Callsign
  pub channels : List Text
  pub first_heard : ℕ
  pub last_heard : ℕ
  pub registered : Bool
  pub dropped : ℕ
  pub dialect : Dialect
  pub pending : Option Pending
  pub owed_ack : Option OwedAck
  pub queue : List (List AircFrame)
  pub seen : List ℕ
  pub reasm : List (ℕ × Reassembly)
  pub kicked : List Text
  pub epoch : ℕ

-- `Peer::new`.
unfoldable pub new_peer : Callsign → ℕ → Peer
new_peer call now = record {
  call = call;
  channels = [];
  first_heard = now;
  last_heard = now;
  registered = false;
  dropped = 0;
  dialect = aprs;
  pending = none;
  owed_ack = none;
  queue = [];
  seen = [];
  reasm = [];
  kicked = [];
  epoch = 0;
}
