-- ===== src/Airc/Frame/Roundtrip.antt =====
-- An AIRC frame of src/airc/frame.rs through its octets, in both directions.
use rfircd.Prelude.{
  ℕ, ◌+◌, ◌*◌, ◌/◌, ◌%◌, ◌<◌, ◌≡◌, refl, ap, ◌∙◌, true, not, ◌&&◌, ◌∷◌, ◌++◌, Option, none, some,
  Bytes, arith, ok, bit_and, bit_or, ltb, ◌==◌, length, ge→ltb, le→leb,
}
use rfircd.Prelude.Bits.{tests_below, tests_below_sound}
use rfircd.Prelude.Assoc.{is_some}
use rfircd.Prelude.Chars.{text_beq}
use rfircd.Airc.Frame.{
  Kind, kind_octet, kind_of, AircFrame, has_flag, sent_flags, piggy_octets, encode, take_piggyback,
  decode,
}

pub kind_of-kind_octet : (k : Kind) → kind_of (kind_octet k) ≡ ok k
unfolding kind_of kind_octet
kind_of-kind_octet k = ground arith

pub kind_octet-kind_of : (v : ℕ) {k : Kind} → kind_of v ≡ ok k → kind_octet k ≡ v
unfolding kind_of kind_octet
kind_octet-kind_of v h = ground arith

-- The fields are octets and words, and the fragment is one of the message.
pub record IsSound (f : AircFrame) : Type 0 where
  pub flags : f.flags < 256
  pub seq : f.seq < 65536
  pub index : f.frag_index < f.frag_total
  pub total : f.frag_total < 256

plain_table : tests_below 256 (λ x. not (has_flag (bit_and x 0xF7) 8)) ≡ true
unfolding tests_below
plain_table = refl

piggy_table : tests_below 256 (λ x. has_flag (bit_or (bit_and x 0xF7) 8) 8) ≡ true
unfolding tests_below
piggy_table = refl

sent_flags-announces :
    (flags : ℕ) (p : Option ℕ) → flags < 256 → has_flag (sent_flags flags p) 8 ≡ is_some p
unfolding sent_flags
sent_flags-announces flags none h = ground (arith, tests_below_sound 256 _ flags plain_table h)
sent_flags-announces flags (some s) h = tests_below_sound 256 _ flags piggy_table h

abbrev pub IsWord : Option ℕ → Type 0
IsWord none = Unit
IsWord (some s) = s < 65536

take_piggyback-octets :
    (flags : ℕ) (p : Option ℕ) (payload : Bytes)
    → has_flag flags 8 ≡ is_some p
    → IsWord p
    → take_piggyback flags (piggy_octets p ++ payload) ≡ ok (p, payload)
unfolding take_piggyback
take_piggyback-octets flags none payload h w = rw (take_piggyback, h) refl
take_piggyback-octets flags (some s) payload h w =
    let back : s / 256 * 256 + s % 256 ≡ s = omega arith in
    rw (take_piggyback, h) (ground (arith, back))

module _ (k : Kind) (flags hi lo index total : ℕ) (body payload : Bytes) (p : Option ℕ) where
  -- `decode` of a header and what follows it.
  decode_header :
      take_piggyback flags body ≡ ok (p, payload)
      → index < total
      → decode (b'A' ∷ b'1' ∷ kind_octet k ∷ flags ∷ hi ∷ lo ∷ index ∷ total ∷ body)
        ≡ ok (record {
          kind = k;
          flags = flags;
          seq = hi * 256 + lo;
          frag_index = index;
          frag_total = total;
          payload = payload;
          piggyback_seq = p;
        })
  unfolding decode text_beq
  decode_header e lt =
      let buf : Bytes = b'A' ∷ b'1' ∷ kind_octet k ∷ flags ∷ hi ∷ lo ∷ index ∷ total ∷ body in
      let fits : (not (total == 0) && ltb index total) ≡ true = ground arith in
      rw
        (
          decode,
          ge→ltb (length buf) 8 (omega arith),
          le→leb 2 (length buf) (omega arith),
          fits,
          le→leb 8 (length buf) (omega arith),
          e,
          kind_of-kind_octet k,
        )
        refl

-- The octets of a frame decode to it, with the flag for an attached sequence number set exactly
-- where there is one.
pub decode-encode_airc :
    (f : AircFrame)
    → IsSound f
    → IsWord f.piggyback_seq
    → decode (encode f) ≡ ok (record f { flags = sent_flags f.flags f.piggyback_seq })
unfolding encode
decode-encode_airc f v w =
    let flags = sent_flags f.flags f.piggyback_seq in
    let word : f.seq / 256 * 256 + f.seq % 256 ≡ f.seq = omega (arith, v.seq) in
    decode_header f.kind flags (f.seq / 256) (f.seq % 256) f.frag_index f.frag_total
      (piggy_octets f.piggyback_seq ++ f.payload) f.payload f.piggyback_seq
      (take_piggyback-octets flags f.piggyback_seq f.payload
        (sent_flags-announces f.flags f.piggyback_seq v.flags) w)
      v.index
    ∙ ap (λ n. ok (record f { flags = flags; seq = n })) word
