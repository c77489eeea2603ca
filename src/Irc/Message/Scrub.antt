-- ===== src/Irc/Message/Scrub.antt =====
-- What the scrubbing of src/irc/message.rs leaves of a field.
use rfircd.Prelude.{
  ℕ, ◌≡◌, refl, sym, ap, ==_iff, ◌∙◌, inl, inr, Bool, true, false, not, ◌||◌, List, [], ◌∷◌, ◌++◌,
  map, arith, Text, Option, none, some, ◌==◌, all, All, Bool-cases,
}
use rfircd.Prelude.Chars.{is_whitespace, add_char, starts_word, split_by}
use rfircd.Irc.Message.{
  Message, is_break, unbreak, underscore, join_words, scrub_irc, guard_param, middle_param,
  strip_line_breaks, needs_colon, show_last, show_params, show_prefix, show,
}

-- No character that could end the line, or the field.
abbrev pub one_line : Text → Bool
one_line s = all (λ c. not (is_break c)) s

abbrev pub one_field : Text → Bool
one_field s = all (λ c. not (is_whitespace c || c == 0)) s

module _ (p q : ℕ → Bool) where
  add_char-all :
      (c : ℕ) (b : Bool) (ws : List Text)
      → q c ≡ true
      → All (λ w. all q w ≡ true) ws
      → All (λ w. all q w ≡ true) (add_char c b ws)
  add_char-all c true [] h a = (ground (arith, h), tt)
  add_char-all c true (w ∷ ws) h a = (ground (arith, h, a.0), a.1)
  add_char-all c false ws h a = (ground (arith, h), a)

  -- Each word has characters of the text that are no separators.
  pub split_by-all :
      (s : Text) → all (λ c. p c || q c) s ≡ true → All (λ w. all q w ≡ true) (split_by p s)
  unfolding split_by
  split_by-all [] h = tt
  split_by-all (c ∷ s) h = elim (Bool-cases (p c)) [
    | inl sep ↦ rw (split_by, sep) (split_by-all s (ground (arith, h)))
    | inr kept ↦
        rw (split_by, kept)
          (add_char-all c (starts_word p s) (split_by p s) (ground (arith, h, kept))
            (split_by-all s (ground (arith, h))))
  ]

pub all-append :
    (q : ℕ → Bool) (s t : Text) → all q s ≡ true → all q t ≡ true → all q (s ++ t) ≡ true
all-append q [] t h k = k
all-append q (c ∷ s) t h k = ground (arith, h, all-append q s t)

map-append : (f : ℕ → ℕ) (s t : Text) → map f (s ++ t) ≡ map f s ++ map f t
map-append f [] t = refl
map-append f (c ∷ s) t = ap (λ r. f c ∷ r) (map-append f s t)

underscore-one_field : (s : Text) → one_field s ≡ true → one_field (map underscore s) ≡ true
underscore-one_field [] h = refl
underscore-one_field (c ∷ s) h = ground (arith, h, underscore-one_field s)

-- Single spaces between words become underscores, so that one field is left.
join_words-one_field :
    (ws : List Text)
    → All (λ w. one_field w ≡ true) ws
    → one_field (map underscore (join_words ws)) ≡ true
unfolding join_words
join_words-one_field [] a = refl
join_words-one_field (w ∷ []) a = underscore-one_field w a.0
join_words-one_field (w ∷ (v ∷ ws)) a = rw (map-append underscore w (b' ' ∷ join_words (v ∷ ws))) (
    all-append (λ c. not (is_whitespace c || c == 0)) (map underscore w)
      (b'_' ∷ map underscore (join_words (v ∷ ws))) (underscore-one_field w a.0)
      (join_words-one_field (v ∷ ws) a.1))

unbreak-separates :
    (s : Text)
    → all (λ c. is_whitespace c || not (is_whitespace c || c == 0)) (map unbreak s) ≡ true
unbreak-separates [] = refl
unbreak-separates (c ∷ s) = ground (arith, unbreak-separates s)

pub scrub_irc-one_field : (s : Text) → one_field (scrub_irc s) ≡ true
unfolding scrub_irc
scrub_irc-one_field s = join_words-one_field (split_by is_whitespace (map unbreak s)) (
    split_by-all is_whitespace (λ c. not (is_whitespace c || c == 0)) (map unbreak s)
      (unbreak-separates s))

pub guard_param-one_field : (s : Text) → one_field s ≡ true → one_field (guard_param s) ≡ true
guard_param-one_field [] h = refl
guard_param-one_field (c ∷ s) h = elim (Bool-cases (c == b':')) [
  | inl colon ↦ rw (colon) h
  | inr other ↦ rw (other) h
]

pub middle_param-one_field : (s : Text) → one_field (middle_param s) ≡ true
unfolding middle_param
middle_param-one_field s = guard_param-one_field (scrub_irc s) (scrub_irc-one_field s)

-- A character that passes a test is none that fails it.
pub passes-not : (p : ℕ → Bool) (k c : ℕ) → p k ≡ false → p c ≡ true → not (c == k) ≡ true
passes-not p k c fails h = elim (Bool-cases (c == k)) [
  | inl e ↦ let clash : false ≡ true = sym fails ∙ sym (ap p ((==_iff c k).0 e)) ∙ h in absurd (cc)
  | inr e ↦ ap not e
]

pub all-imp :
    (p q : ℕ → Bool) (s : Text)
    → ((c : ℕ) → p c ≡ true → q c ≡ true)
    → all p s ≡ true
    → all q s ≡ true
all-imp p q [] f h = refl
all-imp p q (c ∷ s) f h =
    let first : p c ≡ true = ground (arith, h) in
    let later : all p s ≡ true = ground (arith, h) in
    ground (arith, f c first, all-imp p q s f later)

not_breaks :
    (c : ℕ)
    → not (c == 0x0D) ≡ true
    → not (c == 0x0A) ≡ true
    → not (c == 0) ≡ true
    → not (is_break c) ≡ true
not_breaks c r n z = ground (arith, r, n, z)

pub one_field-one_line : (s : Text) → one_field s ≡ true → one_line s ≡ true
one_field-one_line s h =
    let p : ℕ → Bool = λ c. not (is_whitespace c || c == 0) in
    all-imp p (λ c. not (is_break c)) s
      (λ c k.
        not_breaks c (passes-not p 0x0D c refl k) (passes-not p 0x0A c refl k)
          (passes-not p 0 c refl k))
      h

strip_line_breaks-one_line : (s : Text) → one_line (strip_line_breaks s) ≡ true
strip_line_breaks-one_line [] = refl
strip_line_breaks-one_line (c ∷ s) = ground (arith, strip_line_breaks-one_line s)

one_line-append : (s t : Text) → one_line s ≡ true → one_line t ≡ true → one_line (s ++ t) ≡ true
one_line-append = all-append (λ c. not (is_break c))

show_last-one_line : (p : Text) → one_line (show_last p) ≡ true
unfolding show_last
show_last-one_line p = elim (Bool-cases (needs_colon (strip_line_breaks p))) [
  | inl colon ↦ rw (show_last, colon) (strip_line_breaks-one_line p)
  | inr bare ↦ rw (show_last, bare) (strip_line_breaks-one_line p)
]

show_params-one_line : (ps : List Text) → one_line (show_params ps) ≡ true
unfolding show_params
show_params-one_line [] = refl
show_params-one_line (p ∷ []) = show_last-one_line p
show_params-one_line (p ∷ (q ∷ ps)) =
    one_line-append (middle_param p) (show_params (q ∷ ps))
      (one_field-one_line (middle_param p) (middle_param-one_field p))
      (show_params-one_line (q ∷ ps))

show_prefix-one_line : (p : Option Text) → one_line (show_prefix p) ≡ true
unfolding show_prefix
show_prefix-one_line none = refl
show_prefix-one_line (some p) =
    one_line-append (scrub_irc p) (b' ' ∷ [])
      (one_field-one_line (scrub_irc p) (scrub_irc-one_field p)) refl

-- A message is printed without CR, LF and NUL, whatever its fields are, so that it stays one line.
pub show-one_line : (m : Message) → all (λ c. not (is_break c)) (show m) ≡ true
unfolding show
show-one_line m =
    one_line-append (show_prefix m.prefix) (scrub_irc m.command ++ show_params m.params)
      (show_prefix-one_line m.prefix)
      (one_line-append (scrub_irc m.command) (show_params m.params)
        (one_field-one_line (scrub_irc m.command) (scrub_irc-one_field m.command))
        (show_params-one_line m.params))
