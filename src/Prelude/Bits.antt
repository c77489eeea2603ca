-- ===== src/Prelude/Bits.antt =====
-- Masks and shifts of octets. An octet is a number below 256; each law about one octet is checked
-- at all its values.
use Prim.Native.Nat.{ℕ, zero, suc, ◌+◌, ◌*◌, ◌/◌, ◌%◌, ◌<◌, bit_and, bit_or}
use mathlib.Core.Path.{◌≡◌, refl}
use mathlib.Core.Bool.{Bool, true, ◌&&◌}
use native.Mathlib.Omega.{arith}
use rfircd.Prelude.Tests.{◌==◌, ==_iff}

-- The test at every number below a bound.
unfoldable pub tests_below : ℕ → (ℕ → Bool) → Bool
tests_below zero t = true
tests_below (suc n) t = t n && tests_below n t

pub tests_below_sound : (n : ℕ) (t : ℕ → Bool) (x : ℕ) → tests_below n t ≡ true → x < n → t x ≡ true
unfolding tests_below
tests_below_sound zero t x h lt = absurd (omega arith)
tests_below_sound (suc n) t x h lt = ground (arith, tests_below_sound n t x)

low_nibble_table : tests_below 256 (λ x. bit_and x 0x0F == x % 16) ≡ true
unfolding tests_below
low_nibble_table = refl

pub bit_and_0x0F : (x : ℕ) → x < 256 → bit_and x 0x0F ≡ x % 16
bit_and_0x0F x h = (==_iff _ _).0 (tests_below_sound 256 _ x low_nibble_table h)

nibbles_table : tests_below 256 (λ x. bit_or (x / 16 * 16) (x % 16) == x) ≡ true
unfolding tests_below
nibbles_table = refl

pub nibbles_or : (h l : ℕ) → h < 16 → l < 16 → bit_or (h * 16) l ≡ h * 16 + l
nibbles_or h l hh hl =
    let x = h * 16 + l in
    let t : bit_or (x / 16 * 16) (x % 16) ≡ x =
      (==_iff _ _).0 (tests_below_sound 256 _ x nibbles_table (omega arith)) in
    let p : x / 16 ≡ h = omega arith in let q : x % 16 ≡ l = omega arith in rw (p, q) at t

low_bit_table : tests_below 256 (λ x. bit_and x 0x01 == x % 2) ≡ true
unfolding tests_below
low_bit_table = refl

pub bit_and_0x01 : (x : ℕ) → x < 256 → bit_and x 0x01 ≡ x % 2
bit_and_0x01 x h = (==_iff _ _).0 (tests_below_sound 256 _ x low_bit_table h)
