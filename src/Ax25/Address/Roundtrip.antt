-- ===== src/Ax25/Address/Roundtrip.antt =====
-- An address of src/ax25/address.rs through its octets, and what `decode` accepts.
use rfircd.Prelude.{
  ℕ, suc, zero, ◌*◌, ◌/◌, ◌%◌, ◌≤◌, ◌<◌, ◌≡◌, refl, ap, ◌∙◌, inl, inr, Bool, true, false, not, [],
  ◌∷◌, ◌++◌, some, Bytes, Text, arith, Result, ok, ◌>>=◌, map_err, ◌&&◌, error, Returns,
  >>=-Returns, map_err-Returns, guard-Returns, if-Returns, bit_and, ltb, ◌==◌, length, all, take,
  get_elem?, length-append, take-append, get_elem?-append, append_assoc, ge→ltb, le→leb, ltb→ge,
  Bool-cases, eqb, eqb→eq,
}
use rfircd.Prelude.Bits.{bit_and_0x01, tests_below, tests_below_sound}
use rfircd.Prelude.Chars.{is_ascii_alphanumeric}
use rfircd.Prelude.Slices.{index, slice_to, index-Returns, slice_to-Returns}
use rfircd.Callsign
use rfircd.Callsign.{Callsign, CallsignError}
use rfircd.Callsign.Valid.{IsValid, new-IsValid, base_alphanumeric, new_alphanumeric, upper_base}
use rfircd.Ax25.{truncated, bad_address}
use rfircd.Ax25.Address.{Address, shifted, ssid_octet, encode, decode_base, decode_octets, decode}

fields_read : Bool → Bool → ℕ → Bool
fields_read c_bit last ssid =
    let octet = ssid_octet ssid c_bit last in
    bit_and (octet / 2) 0x0F == ssid
    && eqb (not (bit_and octet 0x80 == 0)) c_bit
    && eqb (not (bit_and octet 0x01 == 0)) last

fields_table : (c_bit last : Bool) → tests_below 16 (fields_read c_bit last) ≡ true
unfolding tests_below fields_read ssid_octet
fields_table true true = refl
fields_table true false = refl
fields_table false true = refl
fields_table false false = refl

-- The fields of the octet with the SSID, as `decode` reads them.
ssid_octet_fields :
    (ssid : ℕ) (c_bit last : Bool)
    → ssid ≤ 15
    → (bit_and (ssid_octet ssid c_bit last / 2) 0x0F ≡ ssid)
      × (not (bit_and (ssid_octet ssid c_bit last) 0x80 == 0) ≡ c_bit)
      × (not (bit_and (ssid_octet ssid c_bit last) 0x01 == 0) ≡ last)
ssid_octet_fields ssid c_bit last h =
    let octet = ssid_octet ssid c_bit last in
    let t : fields_read c_bit last ssid ≡ true =
      tests_below_sound 16 (fields_read c_bit last) ssid (fields_table c_bit last) (omega arith) in
    unfold fields_read in
    ground (
      arith,
      t,
      eqb→eq (not (bit_and octet 0x80 == 0)) c_bit,
      eqb→eq (not (bit_and octet 0x01 == 0)) last,
    )

length-shifted : (n : ℕ) (base : Text) → length (shifted n base) ≡ n
unfolding shifted
length-shifted zero base = refl
length-shifted (suc n) [] = omega (arith, length-shifted n [])
length-shifted (suc n) (c ∷ base) = omega (arith, length-shifted n base)

pub length-encode : (a : Address) → length (encode a) ≡ 7
unfolding encode
length-encode a =
    omega (arith, length-append (shifted 6 a.call.base) _, length-shifted 6 a.call.base)

even_shift : (c : ℕ) → c < 128 → (bit_and (c * 2 % 256) 0x01 ≡ 0) × (c * 2 % 256 / 2 ≡ c)
even_shift c h = (bit_and_0x01 (c * 2 % 256) (omega arith) ∙ omega arith, omega arith)

decode_base-shifted :
    (n : ℕ) (base : Text)
    → length base ≤ n
    → all is_ascii_alphanumeric base ≡ true
    → decode_base (shifted n base) ≡ ok base
unfolding decode_base shifted
decode_base-shifted zero [] h a = refl
decode_base-shifted zero (c ∷ base) h a = absurd (omega arith)
decode_base-shifted (suc n) [] h a = ground (arith, decode_base-shifted n [])
decode_base-shifted (suc n) (c ∷ base) h a =
    ground (arith, decode_base-shifted n base, even_shift c)

decode_octets-ssid_octet :
    (a : Address)
    → IsValid a.call
    → decode_octets a.call.base (ssid_octet a.call.ssid a.c_bit a.last) ≡ ok a
unfolding decode_octets
decode_octets-ssid_octet a v =
    let f = ssid_octet_fields a.call.ssid a.c_bit a.last v.ssid in
    rw
      (
        f.0,
        f.1,
        f.2,
        new_alphanumeric a.call.base a.call.ssid (base_alphanumeric a.call.base v.chars) v.nonempty
            v.short v.ssid,
        upper_base a.call.base v.chars,
      )
      refl

-- What `decode` reads: six characters and the octet behind them.
decode_seven :
    (xs rest : Bytes) (x : ℕ)
    → length xs ≡ 6
    → decode (xs ++ (x ∷ rest)) ≡ (decode_base xs >>= λ base. decode_octets base x)
unfolding decode
decode_seven xs rest x h =
    let t : take 6 (xs ++ (x ∷ rest)) ≡ xs = rw (← h) (take-append xs (x ∷ rest)) in
    let g : get_elem? (xs ++ (x ∷ rest)) 6 ≡ some x = rw (← h) (get_elem?-append xs rest x) in
    let n : 7 ≤ length (xs ++ (x ∷ rest)) = omega (arith, length-append xs (x ∷ rest)) in
    rw
      (
        decode,
        ge→ltb (length (xs ++ (x ∷ rest))) 7 n,
        le→leb 6 (length (xs ++ (x ∷ rest))) (omega arith),
        t,
        g,
      )
      refl

-- The octets of an address with a valid callsign decode to it, whatever follows them.
pub decode-encode_address :
    (a : Address) (rest : Bytes) → IsValid a.call → decode (encode a ++ rest) ≡ ok a
unfolding encode
decode-encode_address a rest v =
    let chars = shifted 6 a.call.base in
    let octet = ssid_octet a.call.ssid a.c_bit a.last in
    ap decode (append_assoc chars (octet ∷ []) rest)
    ∙ decode_seven chars rest octet (length-shifted 6 a.call.base)
    ∙ ap (λ r. r >>= λ base. decode_octets base octet)
        (decode_base-shifted 6 a.call.base v.short (base_alphanumeric a.call.base v.chars))
    ∙ decode_octets-ssid_octet a v

decode_base-Returns : (bs : Bytes) → Returns (λ _. Unit {0}) (decode_base bs)
unfolding decode_base
decode_base-Returns [] = tt
decode_base-Returns (b ∷ bs) =
    let any = λ (t : Text). Unit {0} in
    let rest = decode_base-Returns bs in
    if-Returns any (not (bit_and b 0x01 == 0)) _ _ (λ _. tt)
      λ _.
        if-Returns any (b / 2 == b' ') _ _ (λ _. rest)
          λ _.
            if-Returns any (not (is_ascii_alphanumeric (b / 2))) _ _ (λ _. tt)
              λ _. >>=-Returns any any (decode_base bs) _ rest (λ _ _ _. tt)

decode_octets-Returns : (base : Text) (b : ℕ) → Returns (λ a. IsValid a.call) (decode_octets base b)
unfolding decode_octets
decode_octets-Returns base b =
    >>=-Returns IsValid (λ a. IsValid a.call) (map_err (λ _. error bad_address) called) _
      (map_err-Returns IsValid called bad_address (λ c. new-IsValid base (bit_and (b / 2) 0x0F)))
      (λ c _ v. v)
  where
    called : Result CallsignError Callsign
    called = Callsign.new base (bit_and (b / 2) 0x0F)

-- No octets make `decode` panic, and whatever it accepts has a valid callsign.
pub decode_address-Returns : (buf : Bytes) → Returns (λ a. IsValid a.call) (decode buf)
unfolding decode
decode_address-Returns buf = guard-Returns _ (not (ltb (length buf) 7)) truncated _ λ h.
    let long : 7 ≤ length buf = ground arith in
    >>=-Returns (λ _. Unit {0}) _ (slice_to buf 6) _
      (slice_to-Returns _ (λ _. Unit {0}) buf 6 (omega arith) tt)
      λ chars _ _.
        >>=-Returns (λ _. Unit {0}) _ (decode_base chars) _ (decode_base-Returns chars)
          λ base _ _.
            >>=-Returns (λ _. Unit {0}) _ (index buf 6) _
              (index-Returns _ (λ _. Unit {0}) buf 6 long (λ _ _. tt))
              (λ b _ _. decode_octets-Returns base b)

-- What `decode` accepts has the octets of an address.
pub decode-length : (buf : Bytes) {a : Address} → decode buf ≡ ok a → 7 ≤ length buf
unfolding decode
decode-length buf h = elim (Bool-cases (ltb (length buf) 7)) [
  | inl short ↦ absurd (ground (arith, (rw (decode, short) at h)))
  | inr long ↦ ltb→ge (length buf) 7 long
]
