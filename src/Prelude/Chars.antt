-- ===== src/Prelude/Chars.antt =====
-- The methods of `char` and `str` that the program calls, over lists of Unicode scalar values.
use Prim.Native.Nat.{ℕ, ◌+◌, ◌-◌, ◌*◌, ◌/◌, ◌%◌, ◌<◌}
use mathlib.Core.Path.{◌≡◌, refl}
use mathlib.Core.Logic.{◌↔◌}
use mathlib.Core.List.{List, [], ◌∷◌, ◌++◌}
use mathlib.Core.Option.{Option, none, some}
use mathlib.Core.Bool.{Bool, true, false, ◌&&◌, ◌||◌, not}
use native.Mathlib.Omega.{arith}
use rfircd.Prelude.Tests.{if◌then◌else◌, ◌==◌, ltb, leb}
use rfircd.Prelude.Lists.{length, all, is_empty}
use rfircd.Prelude.Assoc.{Eq}

-- `char::is_whitespace`, the Unicode property White_Space.
abbrev pub is_whitespace : ℕ → Bool
is_whitespace c =
    leb 0x09 c && leb c 0x0D
    || c == 0x20
    || c == 0x85
    || c == 0xA0
    || c == 0x1680
    || leb 0x2000 c && leb c 0x200A
    || c == 0x2028
    || c == 0x2029
    || c == 0x202F
    || c == 0x205F
    || c == 0x3000

abbrev pub is_ascii_digit : ℕ → Bool
is_ascii_digit c = leb b'0' c && leb c b'9'

abbrev pub is_ascii_upper : ℕ → Bool
is_ascii_upper c = leb b'A' c && leb c b'Z'

abbrev pub is_ascii_lower : ℕ → Bool
is_ascii_lower c = leb b'a' c && leb c b'z'

abbrev pub is_ascii_alphabetic : ℕ → Bool
is_ascii_alphabetic c = is_ascii_upper c || is_ascii_lower c

abbrev pub is_ascii_alphanumeric : ℕ → Bool
is_ascii_alphanumeric c = is_ascii_digit c || is_ascii_alphabetic c

-- `to_ascii_uppercase`.
abbrev pub ascii_upper : ℕ → ℕ
ascii_upper c = if is_ascii_lower c then c - 32 else c

-- `char::len_utf8`, and `str::len`, which counts octets.
abbrev pub len_utf8 : ℕ → ℕ
len_utf8 c = if ltb c 0x80 then 1 else if ltb c 0x800 then 2 else if ltb c 0x10000 then 3 else 4

unfoldable pub str_len : List ℕ → ℕ
str_len [] = 0
str_len (c ∷ s) = len_utf8 c + str_len s

unfoldable pub trim_start : List ℕ → List ℕ
trim_start [] = []
trim_start (c ∷ s) = if is_whitespace c then trim_start s else c ∷ s

unfoldable pub trim_end : List ℕ → List ℕ
trim_end [] = []
trim_end (c ∷ s) = let r = trim_end s in if is_empty r && is_whitespace c then [] else c ∷ r

unfoldable pub trim : List ℕ → List ℕ
trim s = trim_end (trim_start s)

-- `split_once`: the parts before and after the first separator.
unfoldable pub split_once : ℕ → List ℕ → Option (List ℕ × List ℕ)
split_once sep [] = none
split_once sep (c ∷ s) =
    let rest : Option (List ℕ × List ℕ) = elim (split_once sep s) [
      | none ↦ none
      | some (a, b) ↦ some (c ∷ a, b)
    ] in
    if c == sep then some ([], s) else rest

-- A character in front of the words of the text `s`: the first word is longer, or one begins.
abbrev pub add_char : ℕ → Bool → List (List ℕ) → List (List ℕ)
add_char c true (w ∷ ws) = (c ∷ w) ∷ ws
add_char c true [] = (c ∷ []) ∷ []
add_char c false ws = (c ∷ []) ∷ ws

abbrev pub starts_word : (ℕ → Bool) → List ℕ → Bool
starts_word p [] = false
starts_word p (c ∷ s) = not (p c)

-- The words between separators, none of them empty: `split_whitespace`.
unfoldable pub split_by : (ℕ → Bool) → List ℕ → List (List ℕ)
split_by p [] = []
split_by p (c ∷ s) =
    let rest = split_by p s in if p c then rest else add_char c (starts_word p s) rest

-- `u8::from_str` after its sign: digits with a check for overflow at each.
unfoldable pub parse_digits : ℕ → List ℕ → Option ℕ
parse_digits acc [] = some acc
parse_digits acc (c ∷ s) =
    let next = acc * 10 + (c - b'0') in
    let rest = parse_digits next s in if is_ascii_digit c && leb next 255 then rest else none

unfoldable pub parse_u8 : List ℕ → Option ℕ
parse_u8 [] = none
parse_u8 (c ∷ []) = if is_ascii_digit c then some (c - b'0') else none
parse_u8 (c ∷ (d ∷ s)) = if c == b'+' then parse_digits 0 (d ∷ s) else parse_digits 0 (c ∷ (d ∷ s))

-- `u32::from_str`, the same with another bound.
unfoldable pub parse_below : ℕ → ℕ → List ℕ → Option ℕ
parse_below most acc [] = some acc
parse_below most acc (c ∷ s) =
    let next = acc * 10 + (c - b'0') in
    let rest = parse_below most next s in if is_ascii_digit c && leb next most then rest else none

unfoldable pub parse_u32 : List ℕ → Option ℕ
parse_u32 [] = none
parse_u32 (c ∷ []) = if is_ascii_digit c then some (c - b'0') else none
parse_u32 (c ∷ (d ∷ s)) =
    if c == b'+'
    then parse_below 4_294_967_295 0 (d ∷ s)
    else parse_below 4_294_967_295 0 (c ∷ (d ∷ s))

-- `rsplit_once`: the parts before and after the last separator.
unfoldable pub rsplit_once : ℕ → List ℕ → Option (List ℕ × List ℕ)
rsplit_once sep [] = none
rsplit_once sep (c ∷ s) = elim (rsplit_once sep s) [
  | some (a, b) ↦ some (c ∷ a, b)
  | none ↦ if c == sep then some ([], s) else none
]

-- `trim_matches`, for the characters of which `p` holds.
unfoldable pub trim_start_by : (ℕ → Bool) → List ℕ → List ℕ
trim_start_by p [] = []
trim_start_by p (c ∷ s) = if p c then trim_start_by p s else c ∷ s

unfoldable pub trim_end_by : (ℕ → Bool) → List ℕ → List ℕ
trim_end_by p [] = []
trim_end_by p (c ∷ s) = let r = trim_end_by p s in if is_empty r && p c then [] else c ∷ r

unfoldable pub trim_matches : (ℕ → Bool) → List ℕ → List ℕ
unfolding trim_start_by trim_end_by
trim_matches p s = trim_end_by p (trim_start_by p s)

-- `Display` of a `u8`.
unfoldable pub show_u8 : ℕ → List ℕ
show_u8 n =
    if ltb n 10
    then (n + b'0') ∷ []
    else if ltb n 100
    then (n / 10 + b'0') ∷ (n % 10 + b'0') ∷ []
    else (n / 100 + b'0') ∷ (n / 10 % 10 + b'0') ∷ (n % 10 + b'0') ∷ []

-- Equality of texts.
unfoldable pub text_beq : List ℕ → List ℕ → Bool
text_beq [] [] = true
text_beq [] (d ∷ t) = false
text_beq (c ∷ s) [] = false
text_beq (c ∷ s) (d ∷ t) = c == d && text_beq s t

pub text_beq_iff : (s t : List ℕ) → (text_beq s t ≡ true) ↔ (s ≡ t)
unfolding text_beq
text_beq_iff [] [] = ground arith
text_beq_iff [] (d ∷ t) = ground arith
text_beq_iff (c ∷ s) [] = ground arith
text_beq_iff (c ∷ s) (d ∷ t) = ground (arith, text_beq_iff s t)

instance abbrev pub text_eq : Eq (List ℕ)
text_eq = record { beq = text_beq; beq_iff = text_beq_iff }

pub parse_u8-show_u8 : (n : ℕ) → n < 256 → parse_u8 (show_u8 n) ≡ some n
unfolding parse_u8 show_u8 parse_digits
parse_u8-show_u8 n h = ground arith

trim_end_alphanumeric : (s : List ℕ) → all is_ascii_alphanumeric s ≡ true → trim_end s ≡ s
unfolding trim_end
trim_end_alphanumeric [] h = refl
trim_end_alphanumeric (c ∷ s) h = ground (arith, trim_end_alphanumeric s)

pub trim_alphanumeric : (s : List ℕ) → all is_ascii_alphanumeric s ≡ true → trim s ≡ s
unfolding trim trim_start
trim_alphanumeric [] h = unfold trim_end in refl
trim_alphanumeric (c ∷ s) h = ground (arith, trim_end_alphanumeric (c ∷ s) h)

pub str_len_alphanumeric : (s : List ℕ) → all is_ascii_alphanumeric s ≡ true → str_len s ≡ length s
unfolding str_len
str_len_alphanumeric [] h = refl
str_len_alphanumeric (c ∷ s) h = ground (arith, str_len_alphanumeric s)

-- The first separator is found after a text that has none.
pub split_once-append :
    (sep : ℕ) (s t : List ℕ)
    → all (λ c. not (c == sep)) s ≡ true
    → split_once sep (s ++ (sep ∷ t)) ≡ some (s, t)
unfolding split_once
split_once-append sep [] t h = ground arith
split_once-append sep (c ∷ s) t h = ground (arith, split_once-append sep s t)

pub split_once-none :
    (sep : ℕ) (s : List ℕ) → all (λ c. not (c == sep)) s ≡ true → split_once sep s ≡ none
unfolding split_once
split_once-none sep [] h = refl
split_once-none sep (c ∷ s) h = ground (arith, split_once-none sep s)

-- The value of a hexadecimal digit, `char::to_digit(16)`.
abbrev pub hex_digit : ℕ → Option ℕ
hex_digit c =
    if is_ascii_digit c
    then some (c - b'0')
    else if leb b'a' c && leb c b'f'
    then some (c - b'a' + 10)
    else if leb b'A' c && leb c b'F'
    then some (c - b'A' + 10)
    else none

unfoldable pub parse_hex_digits : ℕ → List ℕ → Option ℕ
parse_hex_digits acc [] = some acc
parse_hex_digits acc (c ∷ s) = elim (hex_digit c) [
  | none ↦ none
  | some d ↦ if leb (acc * 16 + d) 0xFFFF then parse_hex_digits (acc * 16 + d) s else none
]

-- `u16::from_str_radix(s, 16)`: a plus sign may stand in front of digits.
unfoldable pub parse_hex_u16 : List ℕ → Option ℕ
parse_hex_u16 [] = none
parse_hex_u16 (c ∷ []) = hex_digit c
parse_hex_u16 (c ∷ (d ∷ s)) =
    if c == b'+' then parse_hex_digits 0 (d ∷ s) else parse_hex_digits 0 (c ∷ (d ∷ s))
