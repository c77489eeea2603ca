-- ===== src/Tests/Samples.antt =====
-- The inputs that the tests share.
use rfircd.Airc.Frame.{AircFrame, Kind}
use rfircd.Airc.Session.{SessionConfig}
use rfircd.Prelude.Float.{Float}
use rfircd.Prelude.{
  ℕ, ◌+◌, ◌-◌, ◌*◌, ◌/◌, ltb, leb, max, min, Option, none, some, refl, List, [], ◌∷◌, Bytes, arith,
}
use rfircd.Callsign.{Callsign}
use rfircd.Callsign.Valid.{IsValid}
use rfircd.Kiss.{KissFrame}

abbrev pub alice : Callsign
alice = record { base = b'W' ∷ b'1' ∷ b'A' ∷ b'W' ∷ []; ssid = 7 }

abbrev pub gateway : Callsign
gateway = record { base = b'N' ∷ b'0' ∷ b'C' ∷ b'A' ∷ b'L' ∷ b'L' ∷ []; ssid = 0 }

abbrev pub relay : Callsign
relay = record { base = b'W' ∷ b'I' ∷ b'D' ∷ b'E' ∷ b'1' ∷ []; ssid = 1 }

pub alice-IsValid : IsValid alice
alice-IsValid = record {
  chars = refl;
  nonempty = omega arith;
  short = omega arith;
  ssid = omega arith;
}

pub gateway-IsValid : IsValid gateway
gateway-IsValid = record {
  chars = refl;
  nonempty = omega arith;
  short = omega arith;
  ssid = omega arith;
}

pub relay-IsValid : IsValid relay
relay-IsValid = record {
  chars = refl;
  nonempty = omega arith;
  short = omega arith;
  ssid = omega arith;
}

-- A payload with both of the octets that are escaped.
abbrev pub special : Bytes
special = 0xC0 ∷ 0x01 ∷ 0xDB ∷ []

abbrev pub two_frames : List KissFrame
two_frames =
    record { port = 0; command = 0; payload = special }
    ∷ record { port = 12; command = 0; payload = [] }
    ∷ []

-- A message that asks for an ACK and carries one.
abbrev pub hi : AircFrame
hi = record {
  kind = Kind.msg;
  flags = 0x01;
  seq = 1000;
  frag_index = 0;
  frag_total = 1;
  payload = b'h' ∷ b'i' ∷ [];
  piggyback_seq = some 65535;
}

-- Three fragments of which the second is missing.
abbrev pub holes : List (Option Bytes)
holes = some (b'a' ∷ []) ∷ none ∷ some (b'c' ∷ []) ∷ []

abbrev pub config : SessionConfig
config = record {
  paclen = 20;
  ack_timeout = 15;
  max_retries = 2;
  reassembly_timeout = 120;
  peer_idle_timeout = 1800;
  max_queue = 2;
  dedup_window = 3;
  max_peers = 2;
  max_reasm = 2;
}

-- Numbers counted in thousandths, in the place of `f64`.
abbrev pub thousandths : Float
thousandths = record {
  F = ℕ;
  of_nat = λ n. n * 1000;
  add = λ x y. x + y;
  sub = λ x y. x - y;
  mul = λ x y. x * y / 1000;
  div = λ x y. x * 1000 / y;
  neg = λ x. 0 - x;
  lt = ltb;
  le = leb;
  max = max;
  min = min;
  log2 = λ x. 0;
  to_nat = λ x. x / 1000;
  secs = λ d. d / 1_000_000;
  mul_duration = λ d x. d * x / 1000;
}
