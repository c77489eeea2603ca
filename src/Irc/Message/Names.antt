-- ===== src/Irc/Message/Names.antt =====
-- Nicknames and names of channels under the scrubbing of src/irc/message.rs.
use rfircd.Prelude.{
  ℕ, ◌<◌, ◌≡◌, refl, ap, ◌∙◌, Bool, true, false, not, ◌&&◌, ◌||◌, [], ◌∷◌, map, arith, Text, ◌==◌,
  ltb, leb, all, any, contains,
}
use rfircd.Prelude.Bits.{tests_below, tests_below_sound}
use rfircd.Prelude.Chars.{
  str_len, is_whitespace, is_ascii_alphanumeric, is_ascii_alphabetic, split_by,
}
use rfircd.Irc.Message.{
  unbreak, underscore, join_words, scrub_irc, guard_param, middle_param, is_nick_special,
  is_valid_nick, is_channel_name, is_control,
}
use rfircd.Irc.Message.Scrub.{one_line, one_field, all-imp, passes-not, one_field-one_line}
use rfircd.Irc.Message.Params.{one_field-no_space, or_false}

unbreak-one_line : (s : Text) → one_line s ≡ true → map unbreak s ≡ s
unbreak-one_line [] h = refl
unbreak-one_line (c ∷ s) h = ground (arith, h, unbreak-one_line s)

underscore-no_space : (s : Text) → all (λ c. not (c == b' ')) s ≡ true → map underscore s ≡ s
underscore-no_space [] h = refl
underscore-no_space (c ∷ s) h = ground (arith, h, underscore-no_space s)

-- A text without separators is one word.
split_by-one :
    (p : ℕ → Bool) (c : ℕ) (s : Text)
    → all (λ d. not (p d)) (c ∷ s) ≡ true
    → split_by p (c ∷ s) ≡ (c ∷ s) ∷ []
unfolding split_by
split_by-one p c [] h = ground (arith, h)
split_by-one p c (d ∷ s) h =
    let first : p c ≡ false = ground (arith, h) in
    let second : p d ≡ false = ground (arith, h) in
    let rest : all (λ d. not (p d)) (d ∷ s) ≡ true = ground (arith, h) in
    ground (arith, first, second, split_by-one p d s rest)

not_or : (a b : Bool) → not (a || b) ≡ true → not a ≡ true
not_or a b h = ground (arith, h)

pub scrub_irc-id : (s : Text) → one_field s ≡ true → scrub_irc s ≡ s
unfolding scrub_irc split_by join_words
scrub_irc-id [] h = refl
scrub_irc-id (c ∷ s) h =
    let p : ℕ → Bool = λ d. not (is_whitespace d || d == 0) in
    let words =
      all-imp p (λ d. not (is_whitespace d)) (c ∷ s) (λ d. not_or (is_whitespace d) (d == 0)) h in
    ap (λ t. map underscore (join_words (split_by is_whitespace t)))
      (unbreak-one_line (c ∷ s) (one_field-one_line (c ∷ s) h))
    ∙ ap (λ w. map underscore (join_words w)) (split_by-one is_whitespace c s words)
    ∙ underscore-no_space (c ∷ s) (one_field-no_space (c ∷ s) h)

abbrev is_nick_char : ℕ → Bool
is_nick_char d = is_ascii_alphanumeric d || is_nick_special d || d == b'-'

nick_table :
    tests_below 128
      (λ c. not (is_nick_char c) || not (is_whitespace c || c == 0) && not (c == b':'))
    ≡ true
unfolding tests_below
nick_table = refl

nick_char_below : (c : ℕ) → is_nick_char c ≡ true → c < 128
nick_char_below c h = ground (arith, h)

implies : (a b c : Bool) → not a || b && c ≡ true → a ≡ true → (b ≡ true) × (c ≡ true)
implies a b c h k = ground (arith, h, k)

nick_char-one_field :
    (c : ℕ)
    → is_nick_char c ≡ true
    → (not (is_whitespace c || c == 0) ≡ true) × (not (c == b':') ≡ true)
nick_char-one_field c h =
    implies (is_nick_char c) (not (is_whitespace c || c == 0)) (not (c == b':'))
      (tests_below_sound 128 _ c nick_table (nick_char_below c h)) h

guard_first : (c : ℕ) (s : Text) → not (c == b':') ≡ true → guard_param (c ∷ s) ≡ c ∷ s
guard_first c s k = ground (arith, k)

and_true : (a b : Bool) → a && b ≡ true → (a ≡ true) × (b ≡ true)
and_true a b h = ground (arith, h)

last_true : (a b c : Bool) → a && b && c ≡ true → c ≡ true
last_true a b c h = ground (arith, h)

first_last :
    (a b c d e f : Bool) → a && b && c && not d && not e && not f ≡ true → (a ≡ true) × (f ≡ false)
first_last a b c d e f h = ground (arith, h)

unchanged :
    (c : ℕ) (s : Text)
    → not (c == b':') ≡ true
    → one_field (c ∷ s) ≡ true
    → middle_param (c ∷ s) ≡ c ∷ s
unfolding middle_param
unchanged c s k f = ap guard_param (scrub_irc-id (c ∷ s) f) ∙ guard_first c s k

-- A valid nickname is printed as it is, at whatever place.
pub middle_param-is_valid_nick :
    (s : Text) (max_len : ℕ) → is_valid_nick s max_len ≡ true → middle_param s ≡ s
unfolding is_valid_nick
middle_param-is_valid_nick [] max_len h = absurd (cc)
middle_param-is_valid_nick (c ∷ s) max_len h =
    let chars : all is_nick_char (c ∷ s) ≡ true =
      last_true (not (ltb max_len (str_len (c ∷ s)))) (is_ascii_alphabetic c || is_nick_special c)
        (all is_nick_char (c ∷ s)) h in
    let first : is_nick_char c ≡ true = (and_true (is_nick_char c) (all is_nick_char s) chars).0 in
    unchanged c s (nick_char-one_field c first).1 (
      all-imp is_nick_char (λ d. not (is_whitespace d || d == 0)) (c ∷ s)
        (λ d k. (nick_char-one_field d k).0) chars)

-- Neither whitespace nor a control character is in the text.
no_control-one_field :
    (s : Text)
    → any is_whitespace s ≡ false
    → any (λ d. is_control d || leb 0x80 d && leb d 0x9F) s ≡ false
    → one_field s ≡ true
no_control-one_field [] h k = refl
no_control-one_field (c ∷ s) h k =
    let w = or_false (is_whitespace c) (any is_whitespace s) h in
    let t : ℕ → Bool = λ d. is_control d || leb 0x80 d && leb d 0x9F in
    let v = or_false (t c) (any t s) k in
    let z = passes-not (λ d. not (t d)) 0 c refl (ap not v.0) in
    both c (is_whitespace c) w.0 z (no_control-one_field s w.1 v.1)
  where
    both :
        (c : ℕ) (b : Bool)
        → b ≡ false
        → not (c == 0) ≡ true
        → one_field s ≡ true
        → not (b || c == 0) && one_field s ≡ true
    both c b e z r = ground (arith, e, z, r)

-- A channel name without whitespace is printed as it is.
pub middle_param-is_channel_name :
    (s : Text) → is_channel_name s ≡ true → any is_whitespace s ≡ false → middle_param s ≡ s
unfolding is_channel_name
middle_param-is_channel_name [] h k = absurd (cc)
middle_param-is_channel_name (c ∷ s) h k =
    let n = str_len (c ∷ s) in
    let r =
      first_last (c == b'#' || c == b'&') (leb 2 n) (leb n 50) (contains b' ' (c ∷ s))
        (contains b',' (c ∷ s)) (any (λ d. is_control d || leb 0x80 d && leb d 0x9F) (c ∷ s)) h in
    unchanged c s (ground (arith, (r.0))) (no_control-one_field (c ∷ s) k r.1)
