-- ===== src/Ax25/Address.antt =====
-- AX.25 address fields, src/ax25/address.rs. A shift to the left drops what leaves the octet.
pub mod Roundtrip
use rfircd.Prelude.{
  ℕ, suc, zero, ◌+◌, ◌*◌, ◌/◌, ◌%◌, Bool, true, false, not, List, [], ◌∷◌, ◌++◌, map, Option, none,
  some, Bytes, Text, Result, ok, err, ◌>>=◌, ◌>>◌, guard, map_err, Fault, panic, error, fail,
  bit_and, bit_or, ltb, ◌==◌, if◌then◌else◌, length,
}
use rfircd.Prelude.Chars.{is_ascii_alphanumeric}
use rfircd.Prelude.Slices.{index, slice_to}
use rfircd.Callsign
use rfircd.Callsign.{Callsign}
use rfircd.Ax25.{Ax25Error, truncated, bad_address}

abbrev pub address_len : ℕ
address_len = 7

pub record Address : Type 0 where
  pub call : Callsign
  pub c_bit : Bool
  pub last : Bool

-- `Address::new`.
abbrev pub new : Callsign → Address
new call = record { call = call; c_bit = false; last = false }

abbrev pub with_c_bit : Address → Bool → Address
with_c_bit a v = record a { c_bit = v }

-- The characters of a base in `n` places, padded with spaces, each shifted by one bit.
unfoldable pub shifted : ℕ → Text → Bytes
shifted zero base = []
shifted (suc n) [] = b' ' * 2 % 256 ∷ shifted n []
shifted (suc n) (c ∷ base) = c * 2 % 256 ∷ shifted n base

unfoldable pub ssid_octet : ℕ → Bool → Bool → ℕ
ssid_octet ssid c_bit last =
    let base = bit_or 0x60 (ssid * 2 % 256) in
    let with_c = if c_bit then bit_or base 0x80 else base in
    if last then bit_or with_c 0x01 else with_c

unfoldable pub encode : Address → Bytes
encode a = shifted 6 a.call.base ++ (ssid_octet a.call.ssid a.c_bit a.last ∷ [])

-- The loop over the six shifted characters; spaces are left out wherever they stand.
unfoldable pub decode_base : Bytes → Result (Fault Ax25Error) Text
decode_base [] = ok []
decode_base (b ∷ bs) =
    let ch = b / 2 in
    let rest = decode_base bs in
    if not (bit_and b 0x01 == 0)
    then fail bad_address
    else if ch == b' '
    then rest
    else if not (is_ascii_alphanumeric ch)
    then fail bad_address
    else rest >>= λ base. ok (ch ∷ base)

unfoldable pub decode_octets : Text → ℕ → Result (Fault Ax25Error) Address
decode_octets base ssid_byte = do
  call ← map_err (λ _. error bad_address) (Callsign.new base (bit_and (ssid_byte / 2) 0x0F))
  ok (record {
    call = call;
    c_bit = not (bit_and ssid_byte 0x80 == 0);
    last = not (bit_and ssid_byte 0x01 == 0);
  })

unfoldable pub decode : Bytes → Result (Fault Ax25Error) Address
decode buf = do
  guard (not (ltb (length buf) address_len)) (error truncated)
  chars ← slice_to buf 6
  base ← decode_base chars
  ssid_byte ← index buf 6
  decode_octets base ssid_byte
