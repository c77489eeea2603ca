-- ===== src/Airc/Frame.antt =====
-- AIRC/1 frames, src/airc/frame.rs: the kinds, the header with its flags, `encode` and `decode`, and
-- the fields of a payload. An octet is a number below 256 and a `u16` a number below 65536.
pub mod Roundtrip
pub mod Fields
pub mod Accepts
use rfircd.Prelude.{
  ℕ, suc, zero, ◌+◌, ◌*◌, ◌/◌, ◌%◌, Bool, true, false, not, ◌&&◌, List, [], ◌∷◌, ◌++◌, map, Option,
  none, some, Bytes, Text, Result, ok, err, ◌>>=◌, ◌>>◌, guard, map_err, Fault, bit_and, bit_or,
  ltb, leb, ◌==◌, if◌then◌else◌, length, get_elem?, keep, drop,
}
use rfircd.Prelude.Slices.{index, slice_from, slice_to}
use rfircd.Prelude.Chars.{text_beq}
use rfircd.Prelude.Utf8.{from_utf8_lossy}
use rfircd.Airc.{AircError, truncated, not_airc, unknown_kind, bad_fragment}

abbrev pub magic : Bytes
magic = b'A' ∷ b'1' ∷ []

abbrev pub header_len : ℕ
header_len = 8

abbrev pub fs : ℕ
fs = 0x1F

pub data Kind : Type 0 where
  hello welcome join part msg notice names names_reply ping pong ack error id quit : Kind
  presence stored : Kind

-- `kind as u8`.
unfoldable pub kind_octet : Kind → ℕ
kind_octet Kind.hello = 0x01
kind_octet Kind.welcome = 0x02
kind_octet Kind.join = 0x03
kind_octet Kind.part = 0x04
kind_octet Kind.msg = 0x05
kind_octet Kind.notice = 0x06
kind_octet Kind.names = 0x07
kind_octet Kind.names_reply = 0x08
kind_octet Kind.ping = 0x09
kind_octet Kind.pong = 0x0A
kind_octet Kind.ack = 0x0B
kind_octet Kind.error = 0x0C
kind_octet Kind.id = 0x0D
kind_octet Kind.quit = 0x0E
kind_octet Kind.presence = 0x0F
kind_octet Kind.stored = 0x10

-- `Kind::try_from`.
unfoldable pub kind_of : ℕ → Result AircError Kind
kind_of v =
    if v == 0x01
    then ok Kind.hello
    else if v == 0x02
    then ok Kind.welcome
    else if v == 0x03
    then ok Kind.join
    else if v == 0x04
    then ok Kind.part
    else if v == 0x05
    then ok Kind.msg
    else if v == 0x06
    then ok Kind.notice
    else if v == 0x07
    then ok Kind.names
    else if v == 0x08
    then ok Kind.names_reply
    else if v == 0x09
    then ok Kind.ping
    else if v == 0x0A
    then ok Kind.pong
    else if v == 0x0B
    then ok Kind.ack
    else if v == 0x0C
    then ok Kind.error
    else if v == 0x0D
    then ok Kind.id
    else if v == 0x0E
    then ok Kind.quit
    else if v == 0x0F
    then ok Kind.presence
    else if v == 0x10
    then ok Kind.stored
    else err (unknown_kind v)

abbrev pub ack_req : ℕ
ack_req = 0x01

abbrev pub retry : ℕ
retry = 0x02

abbrev pub truncated_flag : ℕ
truncated_flag = 0x04

abbrev pub piggyack : ℕ
piggyack = 0x08

-- `flags & flag != 0`.
abbrev pub has_flag : ℕ → ℕ → Bool
has_flag flags flag = not (bit_and flags flag == 0)

pub record AircFrame : Type 0 where
  pub kind : Kind
  pub flags : ℕ
  pub seq : ℕ
  pub frag_index : ℕ
  pub frag_total : ℕ
  pub payload : Bytes
  pub piggyback_seq : Option ℕ

-- `AircFrame::new`.
unfoldable pub new : Kind → ℕ → Bytes → AircFrame
new kind seq payload = record {
  kind = kind;
  flags = 0;
  seq = seq;
  frag_index = 0;
  frag_total = 1;
  payload = payload;
  piggyback_seq = none;
}

unfoldable pub with_flags : AircFrame → ℕ → AircFrame
with_flags f flags = record f { flags = bit_or f.flags flags }

unfoldable pub attach_piggyback : AircFrame → ℕ → AircFrame
attach_piggyback f seq = record f { piggyback_seq = some seq; flags = bit_or f.flags piggyack }

unfoldable pub wants_ack : AircFrame → Bool
wants_ack f = has_flag f.flags ack_req

-- `u16::to_be_bytes` and `from_be_bytes`.
abbrev pub to_be_bytes : ℕ → Bytes
to_be_bytes n = n / 256 ∷ n % 256 ∷ []

abbrev pub from_be_bytes : ℕ → ℕ → ℕ
from_be_bytes hi lo = hi * 256 + lo

-- The flags as they are sent: `PIGGYACK` exactly when a sequence number is attached. The mask is the
-- complement of `PIGGYACK` in an octet.
unfoldable pub sent_flags : ℕ → Option ℕ → ℕ
sent_flags flags none = bit_and flags 0xF7
sent_flags flags (some s) = bit_or (bit_and flags 0xF7) piggyack

abbrev pub piggy_octets : Option ℕ → Bytes
piggy_octets none = []
piggy_octets (some s) = to_be_bytes s

unfoldable pub encode : AircFrame → Bytes
encode f =
    magic
    ++ (kind_octet f.kind
        ∷ (sent_flags f.flags f.piggyback_seq
            ∷ (to_be_bytes f.seq
                ++ (f.frag_index ∷ (f.frag_total ∷ (piggy_octets f.piggyback_seq ++ f.payload))))))

-- The sequence number in front of the payload and what is left, once the flags announce it.
unfoldable pub read_piggyback : Bytes → Result (Fault AircError) (Option ℕ × Bytes)
read_piggyback payload = do
  guard (not (ltb (length payload) 2)) (Fault.error truncated)
  hi ← index payload 0
  lo ← index payload 1
  ok (some (from_be_bytes hi lo), drop 2 payload)

unfoldable pub take_piggyback : ℕ → Bytes → Result (Fault AircError) (Option ℕ × Bytes)
unfolding read_piggyback
take_piggyback flags payload =
    if has_flag flags piggyack then read_piggyback payload else ok (none, payload)

unfoldable pub decode : Bytes → Result (Fault AircError) AircFrame
decode buf = do
  guard (not (ltb (length buf) header_len)) (Fault.error truncated)
  start ← slice_to buf 2
  guard (text_beq start magic) (Fault.error not_airc)
  frag_total ← index buf 7
  frag_index ← index buf 6
  guard (not (frag_total == 0) && ltb frag_index frag_total) (Fault.error bad_fragment)
  flags ← index buf 3
  body ← slice_from buf header_len
  (piggyback_seq, payload) ← take_piggyback flags body
  octet ← index buf 2
  kind ← map_err Fault.error (kind_of octet)
  hi ← index buf 4
  lo ← index buf 5
  ok (record {
    kind = kind;
    flags = flags;
    seq = from_be_bytes hi lo;
    frag_index = frag_index;
    frag_total = frag_total;
    payload = payload;
    piggyback_seq = piggyback_seq;
  })

-- `payload.split(|&b| b == FS)`: at least one part.
unfoldable pub split_fields : Bytes → List Bytes
split_fields [] = [] ∷ []
split_fields (b ∷ bs) =
    let rest = split_fields bs in
    if b == fs then [] ∷ rest else elim rest [ [] ↦ (b ∷ []) ∷ [] | f ∷ more ↦ (b ∷ f) ∷ more ]

unfoldable pub fields : AircFrame → List Text
fields f = map from_utf8_lossy (split_fields f.payload)

unfoldable pub field : AircFrame → ℕ → Option Text
field f i = get_elem? (fields f) i

-- The octets that a field keeps: no separator, CR, LF or NUL.
abbrev pub allowed : ℕ → Bool
allowed b = not (b == fs) && not (b == 0x0D) && not (b == 0x0A) && not (b == 0)

-- `encode_fields`, on the octets of each field.
unfoldable pub encode_fields : List Bytes → Bytes
encode_fields [] = []
encode_fields (f ∷ []) = keep allowed f
encode_fields (f ∷ (g ∷ rest)) = keep allowed f ++ (fs ∷ encode_fields (g ∷ rest))
