-- ===== src/Airc/Frame/Accepts.antt =====
-- What `decode` of src/airc/frame.rs accepts.
use rfircd.Prelude.{
  ℕ, ◌+◌, ◌*◌, ◌/◌, ◌%◌, ◌≤◌, ◌<◌, ◌≡◌, refl, sym, ap, true, false, not, ◌&&◌, ◌||◌, [], ◌∷◌, ◌++◌,
  Option, none, some, Bytes, arith, map_err, Fault, Returns, >>=-Returns, guard-Returns, if-Returns,
  map_err_with-Returns, bit_and, bit_or, ltb, ◌==◌, length, All, le→leb, ltb→ge, Bool-cases, inl,
  inr,
}
use rfircd.Prelude.Bits.{tests_below, tests_below_sound}
use rfircd.Prelude.Chars.{text_beq, text_beq_iff}
use rfircd.Airc.{truncated, not_airc, bad_fragment}
use rfircd.Airc.Frame.{
  Kind, kind_octet, kind_of, AircFrame, has_flag, magic, sent_flags, piggy_octets, encode,
  read_piggyback, take_piggyback, decode,
}
use rfircd.Airc.Frame.Roundtrip.{kind_octet-kind_of}

abbrev IsOctet : ℕ → Type 0
IsOctet b = b < 256

sent_plain_table : tests_below 256 (λ x. has_flag x 8 || (bit_and x 0xF7 == x)) ≡ true
unfolding tests_below
sent_plain_table = refl

sent_piggy_table :
    tests_below 256 (λ x. not (has_flag x 8) || (bit_or (bit_and x 0xF7) 8 == x)) ≡ true
unfolding tests_below
sent_piggy_table = refl

-- What `take_piggyback` returns was in front of the payload, and the flags announce it.
abbrev Taken : ℕ → Bytes → Option ℕ × Bytes → Type 0
Taken flags body r = (piggy_octets r.0 ++ r.1 ≡ body) × (sent_flags flags r.0 ≡ flags)

take_piggyback-Returns :
    (flags : ℕ) (body : Bytes)
    → flags < 256
    → All IsOctet body
    → Returns (Taken flags body) (take_piggyback flags body)
unfolding take_piggyback
take_piggyback-Returns flags body h o =
    if-Returns (Taken flags body) (has_flag flags 8) _ _ (λ y. announced body o y)
      (λ n. (refl, plain n))
  where
    plain : has_flag flags 8 ≡ false → sent_flags flags none ≡ flags
    plain n =
        unfold sent_flags in ground (arith, n, tests_below_sound 256 _ flags sent_plain_table h)

    piggy : has_flag flags 8 ≡ true → (s : ℕ) → sent_flags flags (some s) ≡ flags
    piggy y s =
        unfold sent_flags in ground (arith, y, tests_below_sound 256 _ flags sent_piggy_table h)

    announced :
        (b : Bytes)
        → All IsOctet b
        → has_flag flags 8 ≡ true
        → Returns (Taken flags b) (read_piggyback b)
    announced [] o y = unfold read_piggyback in tt
    announced (a ∷ []) o y = unfold read_piggyback in tt
    announced (hi ∷ (lo ∷ rest)) o y =
        let two : (hi * 256 + lo) / 256 ≡ hi = omega arith in
        let low : (hi * 256 + lo) % 256 ≡ lo = omega arith in
        unfold read_piggyback in
        guard-Returns (Taken flags (hi ∷ (lo ∷ rest))) (not (ltb (length (hi ∷ (lo ∷ rest))) 2))
          truncated _ (λ _. (ground (arith, two, low), piggy y (hi * 256 + lo)))

kind_of-Returns : (c : ℕ) → Returns (λ k. kind_octet k ≡ c) (map_err Fault.error (kind_of c))
kind_of-Returns c =
    map_err_with-Returns (λ k. kind_octet k ≡ c) (kind_of c) (λ x. x) (λ k. kind_octet-kind_of c)

-- A statement about all octets of at least a header.
with_header {ℓ} :
    (P : Bytes → Type ℓ)
    → ((a b c d e f g h : ℕ) (rest : Bytes) → P (a ∷ b ∷ c ∷ d ∷ e ∷ f ∷ g ∷ h ∷ rest))
    → (buf : Bytes) → 8 ≤ length buf
    → P buf
with_header P k (a ∷ b ∷ c ∷ d ∷ e ∷ f ∷ g ∷ h ∷ rest) n = k a b c d e f g h rest
with_header P k _ n = absurd (omega arith)

-- What is accepted: the header is in range, and the frame encodes to the octets received.
pub record IsReceived (buf : Bytes) (f : AircFrame) : Type 0 where
  pub total : 1 ≤ f.frag_total
  pub index : f.frag_index < f.frag_total
  pub octets : encode f ≡ buf

decode_header-Returns :
    (a b c d e f g h : ℕ) (rest : Bytes)
    → All IsOctet (a ∷ b ∷ c ∷ d ∷ e ∷ f ∷ g ∷ h ∷ rest)
    → Returns
        (IsReceived (a ∷ b ∷ c ∷ d ∷ e ∷ f ∷ g ∷ h ∷ rest))
        (decode (a ∷ b ∷ c ∷ d ∷ e ∷ f ∷ g ∷ h ∷ rest))
unfolding decode
decode_header-Returns a b c d e f g h rest o =
    let buf : Bytes = a ∷ b ∷ c ∷ d ∷ e ∷ f ∷ g ∷ h ∷ rest in
    let P = IsReceived buf in
    guard-Returns P (not (ltb (length buf) 8)) truncated _ λ _.
      rw (le→leb 2 (length buf) (omega arith), le→leb 8 (length buf) (omega arith))
        (guard-Returns P (text_beq (a ∷ b ∷ []) magic) not_airc _ λ start.
          guard-Returns P (not (h == 0) && ltb g h) bad_fragment _ λ range.
            >>=-Returns (Taken d rest) P (take_piggyback d rest) _
              (take_piggyback-Returns d rest o.1.1.1.0 o.1.1.1.1.1.1.1.1)
              λ r _ t.
                >>=-Returns (λ k. kind_octet k ≡ c) P (map_err Fault.error (kind_of c)) _
                  (kind_of-Returns c)
                  λ k _ kc. record {
                    total = ground arith;
                    index = ground arith;
                    octets =
                        octets k r.0 r.1 ((text_beq_iff (a ∷ b ∷ []) magic).0 start) kc t.1 t.0;
                  })
  where
    octets :
        (k : Kind) (p : Option ℕ) (payload : Bytes)
        → (a ∷ b ∷ []) ≡ magic
        → kind_octet k ≡ c
        → sent_flags d p ≡ d
        → piggy_octets p ++ payload ≡ rest
        → encode (record {
          kind = k;
          flags = d;
          seq = e * 256 + f;
          frag_index = g;
          frag_total = h;
          payload = payload;
          piggyback_seq = p;
        })
          ≡ a ∷ b ∷ c ∷ d ∷ e ∷ f ∷ g ∷ h ∷ rest
    octets k p payload m kc fl body =
        let oe : e < 256 = o.1.1.1.1.0 in
        let of : f < 256 = o.1.1.1.1.1.0 in
        let hi : (e * 256 + f) / 256 ≡ e = omega (arith, oe, of) in
        let lo : (e * 256 + f) % 256 ≡ f = omega (arith, oe, of) in
        unfold encode in
        rw (fl, kc, hi, lo, body) (ap (λ w. w ++ (c ∷ d ∷ e ∷ f ∷ g ∷ h ∷ rest)) (sym m))

-- No octets make `decode` panic, and what it accepts is a frame of a message whose octets are those
-- received.
pub decode_airc-Returns : (buf : Bytes) → All IsOctet buf → Returns (IsReceived buf) (decode buf)
decode_airc-Returns buf o = elim (Bool-cases (ltb (length buf) 8)) [
  | inl short ↦ unfold decode in rw (decode, short) tt
  | inr long ↦
      with_header (λ w. All IsOctet w → Returns (IsReceived w) (decode w)) decode_header-Returns buf
        (ltb→ge (length buf) 8 long) o
]
