-- ===== src/Prelude/Utf8.antt =====
-- UTF-8: `str::bytes`, and `String::from_utf8_lossy` with its replacement of each maximal part that
-- is no character.
use Prim.Native.Nat.{ℕ, ◌+◌, ◌-◌, ◌*◌, ◌/◌, ◌%◌}
use mathlib.Core.List.{List, [], ◌∷◌, ◌++◌}
use mathlib.Core.Bool.{◌&&◌}
use rfircd.Prelude.Tests.{if◌then◌else◌, ◌==◌, ltb, leb}

-- The octets of one scalar value.
unfoldable pub utf8_char : ℕ → List ℕ
utf8_char c =
    if ltb c 0x80
    then c ∷ []
    else if ltb c 0x800
    then (0xC0 + c / 64) ∷ (0x80 + c % 64) ∷ []
    else if ltb c 0x10000
    then (0xE0 + c / 4096) ∷ (0x80 + c / 64 % 64) ∷ (0x80 + c % 64) ∷ []
    else (0xF0 + c / 262144) ∷ (0x80 + c / 4096 % 64) ∷ (0x80 + c / 64 % 64) ∷ (0x80 + c % 64) ∷ []

unfoldable pub utf8 : List ℕ → List ℕ
utf8 [] = []
utf8 (c ∷ s) = utf8_char c ++ utf8 s

-- What the decoder waits for: nothing, or further octets, of which the first lies in a range, with
-- the value so far.
pub data Wait : Type 0 where
  ready : Wait
  more : (value lo hi left : ℕ) → Wait

-- U+FFFD.
abbrev pub replacement : ℕ
replacement = 0xFFFD

-- After the first octet of a character, and the characters that it gives by itself.
unfoldable pub utf8_start : ℕ → Wait × List ℕ
utf8_start b =
    if ltb b 0x80
    then (ready, b ∷ [])
    else if ltb b 0xC2
    then (ready, replacement ∷ [])
    else if ltb b 0xE0
    then (more (b - 0xC0) 0x80 0xBF 0, [])
    else if b == 0xE0
    then (more 0 0xA0 0xBF 1, [])
    else if b == 0xED
    then (more 13 0x80 0x9F 1, [])
    else if ltb b 0xF0
    then (more (b - 0xE0) 0x80 0xBF 1, [])
    else if b == 0xF0
    then (more 0 0x90 0xBF 2, [])
    else if ltb b 0xF4
    then (more (b - 0xF0) 0x80 0xBF 2, [])
    else if b == 0xF4
    then (more 4 0x80 0x8F 2, [])
    else (ready, replacement ∷ [])

unfoldable pub utf8_step : Wait → ℕ → Wait × List ℕ
utf8_step ready b = utf8_start b
utf8_step (more value lo hi left) b =
    let next = value * 64 + (b - 0x80) in
    if leb lo b && leb b hi
    then if left == 0 then (ready, next ∷ []) else (more next 0x80 0xBF (left - 1), [])
    else let (w, out) = utf8_start b in (w, replacement ∷ out)

unfoldable pub lossy_from : Wait → List ℕ → List ℕ
lossy_from ready [] = []
lossy_from (more value lo hi left) [] = replacement ∷ []
lossy_from w (b ∷ bs) = let (w', out) = utf8_step w b in out ++ lossy_from w' bs

unfoldable pub from_utf8_lossy : List ℕ → List ℕ
from_utf8_lossy bs = lossy_from ready bs
