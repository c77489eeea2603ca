-- ===== src/Aprs/Control.antt =====
-- Control replies of src/aprs.rs, sent and read back.
use rfircd.Prelude.{
  ℕ, zero, suc, ◌-◌, ◌≤◌, ◌≡◌, refl, sym, ap, ◌∙◌, subst, inl, inr, Bool, true, false, not, ◌&&◌,
  ◌||◌, [], ◌∷◌, ◌++◌, map, none, some, Text, Bytes, ok, length, take, drop, all, is_empty, ◌==◌,
  ltb, leb, ltb→lt, if◌then◌else◌, get_elem?, get_elem?-append, take-append, arith, leb→le,
  length-append, Bool-cases, append-nil, append_assoc,
}
use rfircd.Prelude.Bits.{tests_below, tests_below_sound}
use rfircd.Prelude.Chars.{
  is_whitespace, trim, trim_start, trim_end, trim_end_by, is_ascii_alphanumeric, ascii_upper,
  rsplit_once, str_len, show_u8,
}
use rfircd.Prelude.Utf8.{utf8, utf8_char, utf8_start, utf8_step, from_utf8_lossy, lossy_from, ready}
use rfircd.Callsign.{Callsign, to_string, callsign_beq_iff}
use rfircd.Irc.Message.Scrub.{all-append, all-imp}
use rfircd.Callsign.Valid.{is_base_char, IsValid, from_str-to_string}
use rfircd.Aprs.{
  AprsMessage, is_line_end, trim_trailing_crlf, msgid_ok, strip_word, ack_word, split_msgid,
  classify, split_addressee, is_address_char, decode_body, decode_line, decode, encode, spaces,
  addressed_to, ack_info, control_msgid, checked_id, control, ack,
}

-- The characters of a callsign and of a message id.
abbrev is_plain : ℕ → Bool
is_plain c = is_ascii_alphanumeric c || c == b'-'

plain_ascii : (c : ℕ) → is_plain c ≡ true → ltb c 128 ≡ true
plain_ascii c h = ground arith

-- None of them is white space, ends a line, or has a meaning in a message.
plain_table :
    tests_below 128
      (λ c. not (is_plain c) || (not (is_whitespace c) && not (is_line_end c) && not (c == b'{')))
    ≡ true
unfolding tests_below
plain_table = refl

plain_safe :
    (c : ℕ)
    → is_plain c ≡ true
    → (not (is_whitespace c) && not (is_line_end c) && not (c == b'{')) ≡ true
plain_safe c h =
    go (is_plain c) _ h (tests_below_sound 128 _ c plain_table (ltb→lt _ _ (plain_ascii c h)))
  where
    go : (a b : Bool) → a ≡ true → (not a || b) ≡ true → b ≡ true
    go a b p q = ground arith

module _ (p : ℕ → Bool) (black : (c : ℕ) → p c ≡ true → is_whitespace c ≡ false) where
  trim_end-black : (s : Text) (n : ℕ) → all p s ≡ true → trim_end (s ++ spaces n) ≡ s
  unfolding trim_end
  trim_end-black [] zero h = refl
  trim_end-black [] (suc n) h = rw (trim_end-black [] n refl) refl
  trim_end-black (c ∷ s) n h =
      let rest = trim_end-black s n (ground (arith, h)) in
      let no = black c (ground (arith, h)) in rw (rest, no) (ground arith)

  trim_start-black :
      (s r : Text) → all p s ≡ true → is_empty s ≡ false → trim_start (s ++ r) ≡ s ++ r
  unfolding trim_start
  trim_start-black [] r h k = absurd (cc)
  trim_start-black (c ∷ s) r h k = rw (black c (ground (arith, h))) refl

  trim-black : (s : Text) (n : ℕ) → all p s ≡ true → is_empty s ≡ false → trim (s ++ spaces n) ≡ s
  unfolding trim
  trim-black s n h k = ap trim_end (trim_start-black s (spaces n) h k) ∙ trim_end-black s n h

trim_end_by-all : (q : ℕ → Bool) (s : Text) → all (λ c. not (q c)) s ≡ true → trim_end_by q s ≡ s
unfolding trim_end_by
trim_end_by-all q [] h = refl
trim_end_by-all q (c ∷ s) h =
    let rest = trim_end_by-all q s (ground (arith, h)) in rw (rest) (ground (arith, h))

-- What ends in such a part is kept.
trim_end_by-append :
    (q : ℕ → Bool) (s r : Text)
    → trim_end_by q r ≡ r
    → is_empty r ≡ false
    → trim_end_by q (s ++ r) ≡ s ++ r
unfolding trim_end_by
trim_end_by-append q [] r h k = h
trim_end_by-append q (c ∷ s) r h k =
    let rest = trim_end_by-append q s r h k in rw (rest) (some_left s)
  where
    some_left : (t : Text) → (if is_empty (t ++ r) && q c then [] else c ∷ (t ++ r)) ≡ c ∷ (t ++ r)
    some_left [] = ground (arith, k)
    some_left (x ∷ t) = refl

utf8-plain : (s : Text) → all is_plain s ≡ true → utf8 s ≡ s
unfolding utf8 utf8_char
utf8-plain [] h = refl
utf8-plain (c ∷ s) h = rw (utf8-plain s (ground (arith, h))) (ground (arith, plain_ascii c))

lossy-plain : (s : Text) → all is_plain s ≡ true → lossy_from ready s ≡ s
unfolding lossy_from utf8_step utf8_start
lossy-plain [] h = refl
lossy-plain (c ∷ s) h =
    let small = plain_ascii c (ground (arith, h)) in
    rw (utf8_start, small) (ap (λ r. c ∷ r) (lossy-plain s (ground (arith, h))))

-- The characters of a printed callsign.
abbrev is_name : ℕ → Bool
is_name c = is_base_char c || c == b'-'

base_name : (s : Text) → all is_base_char s ≡ true → all is_name s ≡ true
base_name [] h = refl
base_name (c ∷ s) h = ground (arith, base_name s)

name_plain : (s : Text) → all is_name s ≡ true → all is_plain s ≡ true
name_plain [] h = refl
name_plain (c ∷ s) h = ground (arith, name_plain s)

name_upper : (s : Text) → all is_name s ≡ true → map ascii_upper s ≡ s
name_upper [] h = refl
name_upper (c ∷ s) h = ground (arith, name_upper s)

name_address :
    (s : Text) (n : ℕ) → all is_name s ≡ true → all is_address_char (s ++ spaces n) ≡ true
name_address [] zero h = refl
name_address [] (suc n) h = name_address [] n refl
name_address (c ∷ s) n h = ground (arith, name_address s n)

show_table : tests_below 16 (λ n. leb (length (show_u8 n)) 2 && all is_name (show_u8 n)) ≡ true
unfolding tests_below show_u8
show_table = refl

show_name : (n : ℕ) → n ≤ 15 → (leb (length (show_u8 n)) 2 && all is_name (show_u8 n)) ≡ true
show_name n h =
    tests_below_sound 16 (λ n. leb (length (show_u8 n)) 2 && all is_name (show_u8 n)) n show_table
      (omega (arith, h))

-- At most nine characters, all of them such, and at least one.
to_string-name :
    (c : Callsign)
    → IsValid c
    → (all is_name (to_string c) ≡ true)
      × (length (to_string c) ≤ 9)
      × (is_empty (to_string c) ≡ false)
unfolding to_string
to_string-name c v = elim (Bool-cases (c.ssid == 0)) [
  | inl bare ↦
      rw (to_string, bare)
        (base_name c.base v.chars, omega (arith, v.short), filled c.base v.nonempty [])
  | inr numbered ↦
      let shown = show_name c.ssid v.ssid in
      rw (to_string, numbered)
        (
          all-append is_name c.base (b'-' ∷ show_u8 c.ssid) (base_name c.base v.chars)
              (ground (arith, shown)),
          omega (
            arith,
            v.short,
            length-append c.base (b'-' ∷ show_u8 c.ssid),
            ground_le c.ssid shown,
          ),
          filled_append c.base v.nonempty (b'-' ∷ show_u8 c.ssid),
        )
]
  where
    ground_le :
        (n : ℕ)
        → (leb (length (show_u8 n)) 2 && all is_name (show_u8 n)) ≡ true
        → length (show_u8 n) ≤ 2
    ground_le n h = leb→le _ _ (ground (arith, h))

    filled : (s : Text) → 1 ≤ length s → (r : Text) → is_empty s ≡ false
    filled [] h r = absurd (omega (arith, h))
    filled (x ∷ s) h r = refl

    filled_append : (s : Text) → 1 ≤ length s → (r : Text) → is_empty (s ++ r) ≡ false
    filled_append [] h r = absurd (omega (arith, h))
    filled_append (x ∷ s) h r = refl

get_elem?-past : (s : Bytes) (n : ℕ) → length s ≤ n → get_elem? s n ≡ none
get_elem?-past [] n h = refl
get_elem?-past (c ∷ s) zero h = absurd (omega (arith, h))
get_elem?-past (c ∷ s) (suc n) h = get_elem?-past s n (omega (arith, h))

take-whole : (s : Bytes) (n : ℕ) → length s ≤ n → take n s ≡ s
take-whole [] zero h = refl
take-whole [] (suc n) h = refl
take-whole (c ∷ s) zero h = absurd (omega (arith, h))
take-whole (c ∷ s) (suc n) h = ap (λ r. c ∷ r) (take-whole s n (omega (arith, h)))

drop-past : (s r : Bytes) (b : ℕ) → drop (suc (length s)) (s ++ (b ∷ r)) ≡ r
drop-past [] r b = refl
drop-past (c ∷ s) r b = drop-past s r b

length-spaces : (n : ℕ) → length (spaces n) ≡ n
length-spaces zero = refl
length-spaces (suc n) = ap suc (length-spaces n)

-- Nine octets and a colon are the addressee.
split_addressee-padded :
    (pad text : Bytes) → length pad ≡ 9 → split_addressee (pad ++ (b':' ∷ text)) ≡ some (pad, text)
unfolding split_addressee
split_addressee-padded pad text nine =
    let colon : get_elem? (pad ++ (b':' ∷ text)) 9 ≡ some b':' =
      subst (λ n. get_elem? (pad ++ (b':' ∷ text)) n ≡ some b':') nine
        (get_elem?-append pad text b':') in
    let front : take 9 (pad ++ (b':' ∷ text)) ≡ pad =
      subst (λ n. take n (pad ++ (b':' ∷ text)) ≡ pad) nine (take-append pad (b':' ∷ text)) in
    let back : drop 10 (pad ++ (b':' ∷ text)) ≡ text =
      subst (λ n. drop (suc n) (pad ++ (b':' ∷ text)) ≡ text) nine (drop-past pad text b':') in
    rw (split_addressee, colon, front, back) refl

no_brace :
    (p : ℕ → Bool)
    → ((c : ℕ) → p c ≡ true → not (c == b'{') ≡ true)
    → (s : Text) → all p s ≡ true
    → rsplit_once b'{' s ≡ none
unfolding rsplit_once
no_brace p other [] h = refl
no_brace p other (c ∷ s) h =
    let no = other c (ground (arith, h)) in
    rw (no_brace p other s (ground (arith, h))) (ground (arith, no))

-- Of three tests that hold together, each.
and_first : (a b d : Bool) → (not a && b && d) ≡ true → a ≡ false
and_first a b d q = ground arith

and_second : (a b d : Bool) → (a && b && d) ≡ true → b ≡ true
and_second a b d q = ground arith

and_third : (a b d : Bool) → (a && b && d) ≡ true → d ≡ true
and_third a b d q = ground arith

black : (c : ℕ) → is_plain c ≡ true → is_whitespace c ≡ false
black c h = and_first _ _ _ (plain_safe c h)

no_end : (s : Text) → all is_plain s ≡ true → all (λ c. not (is_line_end c)) s ≡ true
no_end s h =
    all-imp is_plain (λ c. not (is_line_end c)) s
      (λ c k.
        and_second (not (is_whitespace c)) (not (is_line_end c)) (not (c == b'{')) (plain_safe c k))
      h

plain_brace : (s : Text) → all is_plain s ≡ true → rsplit_once b'{' s ≡ none
plain_brace s h =
    no_brace is_plain
      (λ c k.
        and_third (not (is_whitespace c)) (not (is_line_end c)) (not (c == b'{')) (plain_safe c k))
      s h

trim-plain : (s : Text) → all is_plain s ≡ true → is_empty s ≡ false → trim s ≡ s
trim-plain s h k = ap trim (sym (append-nil s)) ∙ trim-black is_plain black s 0 h k

trim_end-plain : (s : Text) → all is_plain s ≡ true → trim_end s ≡ s
trim_end-plain s h = ap trim_end (sym (append-nil s)) ∙ trim_end-black is_plain black s 0 h

body_plain : (s : Text) → all is_plain s ≡ true → trim_end (from_utf8_lossy s) ≡ s
unfolding from_utf8_lossy
body_plain s h = ap trim_end (lossy-plain s h) ∙ trim_end-plain s h

-- Such a message, encoded.
encode-plain :
    (m : AprsMessage)
    → all is_plain m.addressee ≡ true
    → length m.addressee ≤ 9
    → all is_plain m.text ≡ true
    → m.msgid ≡ none
    → encode m ≡ ok (b':' ∷ (m.addressee ++ (spaces (9 - length m.addressee) ++ (b':' ∷ m.text))))
unfolding encode
encode-plain m plain short text bare =
    rw
      (
        encode,
        utf8-plain m.addressee plain,
        get_elem?-past m.addressee 9 short,
        take-whole m.addressee 9 short,
        utf8-plain m.text text,
        bare,
        append-nil m.text,
      )
      refl

-- And read back.
decode-plain :
    (name text : Text)
    → all is_name name ≡ true
    → length name ≤ 9
    → is_empty name ≡ false
    → all is_plain text ≡ true
    → is_empty text ≡ false
    → decode (b':' ∷ (name ++ (spaces (9 - length name) ++ (b':' ∷ text))))
      ≡ some (record { addressee = name; text = text; msgid = none; kind = classify text })
unfolding decode decode_line trim_trailing_crlf decode_body split_msgid
decode-plain name text named short filled plain said =
    let pad = name ++ spaces (9 - length name) in
    let nine : length pad ≡ 9 = omega (
      arith,
      length-append name (spaces (9 - length name)),
      length-spaces (9 - length name),
      short,
    ) in
    let whole : name ++ (spaces (9 - length name) ++ (b':' ∷ text)) ≡ pad ++ (b':' ∷ text) =
      sym (append_assoc name (spaces (9 - length name)) (b':' ∷ text)) in
    let kept : trim_end_by is_line_end (b':' ∷ (pad ++ (b':' ∷ text)))
        ≡ b':' ∷ (pad ++ (b':' ∷ text)) =
      trim_end_by-append is_line_end (b':' ∷ pad) (b':' ∷ text)
        (trim_end_by-append is_line_end (b':' ∷ []) text
          (trim_end_by-all is_line_end text (no_end text plain)) said)
        refl in
    let brace : rsplit_once b'{' (trim_end (from_utf8_lossy text)) ≡ none =
      ap (rsplit_once b'{') (body_plain text plain) ∙ plain_brace text plain in
    rw
      (
        whole,
        kept,
        split_addressee-padded pad text nine,
        decode_body,
        trim-black is_plain black name (9 - length name) (name_plain name named) filled,
        name_upper name named,
        name_address name (9 - length name) named,
        filled,
        split_msgid,
        brace,
      )
      (ap (λ t. some (record { addressee = name; text = t; msgid = none; kind = classify t }))
        (body_plain text plain))

id_plain : (id : Text) → all is_ascii_alphanumeric id ≡ true → all is_plain id ≡ true
id_plain id h = all-imp is_ascii_alphanumeric is_plain id (λ c k. or_left _ _ k) h
  where
    or_left : (a b : Bool) → a ≡ true → (a || b) ≡ true
    or_left a b k = ground arith

good_id : (id : Text) → msgid_ok id ≡ true → all is_ascii_alphanumeric id ≡ true
unfolding msgid_ok
good_id id h = and_third (leb 1 (str_len id)) (leb (str_len id) 5) _ h

-- The text of an acknowledgement is one.
classify-ack : (id : Text) → msgid_ok id ≡ true → classify (ack_word ++ id) ≡ ack
unfolding classify strip_word
classify-ack id good =
    let whole : trim (ack_word ++ id) ≡ ack_word ++ id =
      trim-plain (ack_word ++ id) (id_plain id (good_id id good)) refl in
    rw (classify, whole, good) refl

control_msgid-ack :
    (name id : Text)
    → msgid_ok id ≡ true
    → control_msgid (record {
      addressee = name;
      text = ack_word ++ id;
      msgid = none;
      kind = classify (ack_word ++ id);
    })
      ≡ some id
unfolding control_msgid checked_id strip_word
control_msgid-ack name id good =
    let whole : trim (ack_word ++ id) ≡ ack_word ++ id =
      trim-plain (ack_word ++ id) (id_plain id (good_id id good)) refl in
    rw (control_msgid, classify-ack id good, whole, checked_id, good) refl

addressed_to_self :
    (to : Callsign) (text : Text)
    → IsValid to
    → addressed_to
        (record { addressee = to_string to; text = text; msgid = none; kind = classify text })
        to
      ≡ true
unfolding addressed_to
addressed_to_self to text valid =
    rw (addressed_to, from_str-to_string to valid) (ground (arith, (callsign_beq_iff to to).1 refl))

-- An acknowledgement that is sent for a message id is read back as one for it, addressed to the station.
pub ack_info-control_msgid :
    (to : Callsign) (id : Text)
    → IsValid to
    → msgid_ok id ≡ true
    → (info : Bytes) × (m : AprsMessage) × (ack_info to id ≡ ok info)
      × (decode info ≡ some m)
      × (control_msgid m ≡ some id)
      × (addressed_to m to ≡ true)
unfolding ack_info
ack_info-control_msgid to id valid good =
    let name = to_string to in
    let (named, short, filled) = to_string-name to valid in
    let plain : all is_plain (ack_word ++ id) ≡ true = id_plain id (good_id id good) in
    let m : AprsMessage = record {
      addressee = name;
      text = ack_word ++ id;
      msgid = none;
      kind = classify (ack_word ++ id);
    } in
    (
      b':' ∷ (name ++ (spaces (9 - length name) ++ (b':' ∷ (ack_word ++ id)))),
      m,
      encode-plain (control ack to ack_word id none) (name_plain name named) short plain refl,
      decode-plain name (ack_word ++ id) named short filled plain refl,
      control_msgid-ack name id good,
      addressed_to_self to (ack_word ++ id) valid,
    )
