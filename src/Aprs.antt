-- ===== src/Aprs.antt =====
-- APRS messages, src/aprs.rs: the message format, its control replies, and the choice of a channel. The
-- beacons are not modelled. A text is its code points, and an information field its octets.
pub mod Control
use rfircd.Prelude.{
  ℕ, zero, suc, ◌+◌, ◌-◌, Bool, true, false, not, ◌&&◌, ◌||◌, List, [], ◌∷◌, ◌++◌, map, Option,
  none, some, Text, Bytes, Result, ok, err, ◌>>=◌, ◌>>◌, guard, Fault, panic, length, take, drop,
  all, is_empty, ◌==◌, ltb, leb, if◌then◌else◌, get_elem?,
}
use rfircd.Prelude.Chars.{
  trim, trim_end, trim_end_by, is_ascii_alphanumeric, ascii_upper, text_beq, split_once,
  rsplit_once, str_len,
}
use rfircd.Prelude.Utf8.{utf8, from_utf8_lossy}
use rfircd.Callsign.{Callsign, callsign_beq, from_str, same_station, to_string}
use rfircd.Irc.Message.{is_channel_name}

pub data AprsKind : Type 0 where
  message ack reject : AprsKind

pub record AprsMessage : Type 0 where
  pub addressee : Text
  pub text : Text
  pub msgid : Option Text
  pub kind : AprsKind

abbrev pub is_line_end : ℕ → Bool
is_line_end b = b == 13 || b == 10 || b == 0

unfoldable pub trim_trailing_crlf : Bytes → Bytes
unfolding trim_end_by
trim_trailing_crlf info = trim_end_by is_line_end info

-- In octets, of which an alphanumeric text has one for each character.
unfoldable pub msgid_ok : Text → Bool
unfolding str_len
msgid_ok id = leb 1 (str_len id) && leb (str_len id) 5 && all is_ascii_alphanumeric id

-- `strip_prefix` of a text, and `strip_suffix` of one character.
unfoldable pub strip_word : Text → Text → Option Text
strip_word [] s = some s
strip_word (p ∷ word) [] = none
strip_word (p ∷ word) (c ∷ s) = if c == p then strip_word word s else none

unfoldable pub strip_last : ℕ → Text → Text
strip_last p [] = []
strip_last p (c ∷ s) = if is_empty s && c == p then [] else c ∷ strip_last p s

abbrev pub ack_word : Text
ack_word = b'a' ∷ b'c' ∷ b'k' ∷ []

abbrev pub rej_word : Text
rej_word = b'r' ∷ b'e' ∷ b'j' ∷ []

-- A word with a message id behind it.
abbrev pub is_control_id : Option Text → Bool
is_control_id none = false
is_control_id (some id) = msgid_ok id

unfoldable pub split_msgid : Text → Text × Option Text
unfolding rsplit_once msgid_ok strip_last
split_msgid body = elim (rsplit_once b'{' body) [
  | none ↦ (body, none)
  | some (before, rest) ↦
      let id = strip_last b'}' rest in if msgid_ok id then (before, some id) else (body, none)
]

unfoldable pub classify : Text → AprsKind
unfolding trim strip_word msgid_ok
classify text =
    let t = trim text in
    if is_control_id (strip_word ack_word t)
    then ack
    else if is_control_id (strip_word rej_word t)
    then reject
    else message

-- The addressee and the body, behind the first colon.
unfoldable pub by_colon : Bytes → Option (Bytes × Bytes)
unfolding split_once
by_colon rest = elim (split_once b':' rest) [
  | none ↦ none
  | some (addr, body) ↦ if length addr == 0 || ltb 9 (length addr) then none else some (addr, body)
]

-- Padded to nine octets, or not.
unfoldable pub split_addressee : Bytes → Option (Bytes × Bytes)
unfolding by_colon
split_addressee rest = elim (get_elem? rest 9) [
  | none ↦ by_colon rest
  | some b ↦ if b == b':' then some (take 9 rest, drop 10 rest) else by_colon rest
]

abbrev pub is_address_char : ℕ → Bool
is_address_char b = is_ascii_alphanumeric b || b == b'-' || b == b' '

unfoldable pub decode_body : Bytes → Bytes → Option AprsMessage
unfolding trim trim_end from_utf8_lossy split_msgid classify
decode_body addr body =
    let addressee = map ascii_upper (trim addr) in
    if not (all is_address_char addr) || is_empty addressee
    then none
    else (let (text, id) = split_msgid (trim_end (from_utf8_lossy body)) in
        some (record { addressee = addressee; text = text; msgid = id; kind = classify text }))

abbrev pub decode_rest : Option (Bytes × Bytes) → Option AprsMessage
decode_rest none = none
decode_rest (some (addr, body)) = decode_body addr body

unfoldable pub decode_line : Bytes → Option AprsMessage
unfolding split_addressee decode_body
decode_line [] = none
decode_line (b ∷ rest) = if b == b':' then decode_rest (split_addressee rest) else none

unfoldable pub decode : Bytes → Option AprsMessage
unfolding trim_trailing_crlf decode_line
decode info = decode_line (trim_trailing_crlf info)

abbrev pub spaces : ℕ → Bytes
spaces zero = []
spaces (suc n) = b' ' ∷ spaces n

-- Whether octet `n` begins a character, or is the end.
abbrev pub is_boundary : Option ℕ → Bool
is_boundary none = true
is_boundary (some b) = ltb b 0x80 || leb 0xC0 b

abbrev pub with_id : Option Text → Bytes
with_id none = []
with_id (some id) = b'{' ∷ utf8 id

-- `truncate(9)` panics within a character.
unfoldable pub encode : AprsMessage → Result (Fault (Unit {0})) Bytes
unfolding utf8
encode m =
    let bytes = utf8 m.addressee in
    let addr = take 9 bytes in
    guard (is_boundary (get_elem? bytes 9)) panic
    >> ok (b':' ∷ (addr ++ (spaces (9 - length addr) ++ (b':' ∷ (utf8 m.text ++ with_id m.msgid)))))

unfoldable pub addressed_to : AprsMessage → Callsign → Bool
unfolding from_str callsign_beq same_station
addressed_to m gateway = elim (from_str m.addressee) [
  | err e ↦ false
  | ok dest ↦ callsign_beq dest gateway || dest.ssid == 0 && same_station dest gateway
]

abbrev pub is_ack_or_rej : AprsKind → Bool
is_ack_or_rej message = false
is_ack_or_rej ack = true
is_ack_or_rej reject = true

abbrev pub control : AprsKind → Callsign → Text → Text → Option Text → AprsMessage
control kind to word text id = record {
  addressee = to_string to;
  text = word ++ text;
  msgid = id;
  kind = kind;
}

unfoldable pub ack_info : Callsign → Text → Result (Fault (Unit {0})) Bytes
unfolding encode to_string
ack_info to msgid = encode (control ack to ack_word msgid none)

unfoldable pub rej_info : Callsign → Text → Result (Fault (Unit {0})) Bytes
unfolding encode to_string
rej_info to msgid = encode (control reject to rej_word msgid none)

unfoldable pub reply_info : Callsign → Text → Result (Fault (Unit {0})) Bytes
unfolding encode to_string
reply_info to text = encode (control message to [] (take 67 text) none)

unfoldable pub message_info : Callsign → Text → Text → Result (Fault (Unit {0})) Bytes
unfolding encode to_string
message_info to text msgid = encode (control message to [] (take 67 text) (some msgid))

unfoldable pub checked_id : Option Text → Option Text
unfolding msgid_ok
checked_id none = none
checked_id (some id) = if msgid_ok id then some id else none

unfoldable pub control_msgid : AprsMessage → Option Text
unfolding checked_id trim strip_word
control_msgid m = elim (m.kind) [
  | ack ↦ checked_id (strip_word ack_word (trim m.text))
  | reject ↦ checked_id (strip_word rej_word (trim m.text))
  | message ↦ none
]

-- The text for a channel by default.
unfoldable pub in_default : Text → Text → Option (Text × Text)
unfolding is_channel_name
in_default default_channel text =
    if is_channel_name default_channel then some (default_channel, text) else none

unfoldable pub split_channel_line : Text → Text → Option (Text × Text)
unfolding trim split_once is_channel_name in_default
split_channel_line line default_channel =
    let text = trim line in
    if is_empty text then none else elim (split_once b' ' text) [
      | none ↦ if is_channel_name text then none else in_default default_channel text
      | some (first, rest) ↦
          if is_channel_name first
          then if is_empty (trim rest) then none else some (first, trim rest)
          else in_default default_channel text
    ]

unfoldable pub is_help : Text → Bool
unfolding trim text_beq
is_help text =
    let t = trim text in
    is_empty t
    || text_beq t (b'?' ∷ [])
    || text_beq (map ascii_upper t) (b'H' ∷ b'E' ∷ b'L' ∷ b'P' ∷ [])
    || text_beq (map ascii_upper t) (b'H' ∷ [])
