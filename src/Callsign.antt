-- ===== src/Callsign.antt =====
-- The identity of a station, src/callsign.rs: construction with its checks, the textual forms
-- (AX.25 and IRC nickname) and the test for a nickname that belongs to a station. The field types
-- `String` and `u8` are a list of scalar values and a number.
pub mod Valid
pub mod Reserved
use rfircd.Prelude.{
  ℕ, ◌+◌, ◌-◌, ◌≤◌, ◌<◌, Bool, true, false, not, ◌&&◌, ◌||◌, List, [], ◌∷◌, ◌++◌, map, Option, none,
  some, Text, Result, ok, err, ◌>>=◌, ok_or, leb, ltb, ◌==◌, if◌then◌else◌, length, is_empty, any,
  all,
}
use rfircd.Prelude.Chars.{
  ascii_upper, is_ascii_alphanumeric, is_ascii_digit, is_ascii_alphabetic, str_len, trim,
  split_once, parse_u8, show_u8, text_beq, text_beq_iff,
}
use rfircd.Prelude.{◌≡◌, ◌↔◌, arith}
use rfircd.Prelude.Assoc.{Eq}
use rfircd.Irc.Casemap.{lower}

pub record Callsign : Type 0 where
  pub base : Text
  pub ssid : ℕ

pub data CallsignError : Type 0 where
  empty : CallsignError
  base_length : ℕ → CallsignError
  bad_char : ℕ → CallsignError
  bad_ssid : CallsignError
  implausible : Text → CallsignError

-- `chars().find(p)`.
unfoldable pub find_char : (ℕ → Bool) → Text → Option ℕ
find_char p [] = none
find_char p (c ∷ s) = if p c then some c else find_char p s

-- The checks of `Callsign::new` on the trimmed upper-case base, in their order.
unfoldable pub checked : Text → ℕ → Result CallsignError Callsign
checked base ssid =
    if is_empty base
    then err empty
    else if ltb 6 (str_len base)
    then err (base_length (str_len base))
    else elim (find_char (λ c. not (is_ascii_alphanumeric c)) base) [
      | some c ↦ err (bad_char c)
      | none ↦ if ltb 15 ssid then err bad_ssid else ok (record { base = base; ssid = ssid })
    ]

-- `Callsign::new`.
unfoldable pub new : Text → ℕ → Result CallsignError Callsign
new base ssid = checked (map ascii_upper (trim base)) ssid

-- `str::len` counts octets.
unfoldable pub looks_like_amateur_call : Callsign → Bool
looks_like_amateur_call c =
    leb 3 (str_len c.base) && any is_ascii_digit c.base && any is_ascii_alphabetic c.base

-- `Display`.
unfoldable pub to_string : Callsign → Text
to_string c = if c.ssid == 0 then c.base else c.base ++ (b'-' ∷ show_u8 c.ssid)

unfoldable pub require_amateur : Callsign → Result CallsignError (Unit {0})
require_amateur c = if looks_like_amateur_call c then ok tt else err (implausible (to_string c))

unfoldable pub same_station : Callsign → Callsign → Bool
same_station a b = text_beq a.base b.base

unfoldable pub to_nick : Callsign → Text
to_nick c = if c.ssid == 0 then c.base else c.base ++ (b'|' ∷ show_u8 c.ssid)

-- The common body of `from_nick` and `from_str`: a base, and an SSID after the separator.
unfoldable pub with_separator : ℕ → Text → Result CallsignError Callsign
with_separator sep s = elim (split_once sep s) [
  | none ↦ new s 0
  | some (b, digits) ↦ ok_or (parse_u8 digits) bad_ssid >>= λ ssid. new b ssid
]

unfoldable pub from_nick : Text → Result CallsignError Callsign
from_nick nick = with_separator b'|' nick

-- `FromStr::from_str`.
unfoldable pub from_str : Text → Result CallsignError Callsign
from_str s = with_separator b'-' s

-- The first candidate that is an amateur call.
unfoldable pub first_amateur : List (Result CallsignError Callsign) → Option Callsign
first_amateur [] = none
first_amateur (err e ∷ rs) = first_amateur rs
first_amateur (ok c ∷ rs) = if looks_like_amateur_call c then some c else first_amateur rs

unfoldable pub reserved_from_nick : Text → Option Callsign
reserved_from_nick nick =
    let mapped = lower nick in
    first_amateur (from_nick nick ∷ from_nick mapped ∷ from_str nick ∷ from_str mapped ∷ [])

-- `PartialEq`, which a map by callsign needs.
unfoldable pub callsign_beq : Callsign → Callsign → Bool
callsign_beq a b = text_beq a.base b.base && a.ssid == b.ssid

pub callsign_beq_iff : (a b : Callsign) → (callsign_beq a b ≡ true) ↔ (a ≡ b)
unfolding callsign_beq
callsign_beq_iff a b = ground (arith, text_beq_iff a.base b.base)

instance abbrev pub callsign_eq : Eq Callsign
callsign_eq = record { beq = callsign_beq; beq_iff = callsign_beq_iff }
