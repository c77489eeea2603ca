-- ===== src/Callsign/Valid.antt =====
-- Which callsigns src/callsign.rs constructs, and that each textual form reads back.
use rfircd.Prelude.{
  ℕ, ◌≤◌, ◌≡◌, refl, ap, ◌∙◌, Bool, true, false, not, ◌||◌, [], ◌∷◌, ◌++◌, map, none, Text, arith,
  ok, ◌==◌, if◌then◌else◌, length, all,
}
use rfircd.Prelude.Chars.{
  ascii_upper, is_ascii_alphanumeric, is_ascii_digit, is_ascii_upper, trim, show_u8,
  trim_alphanumeric, str_len_alphanumeric, split_once-append, split_once-none, parse_u8-show_u8,
}
use rfircd.Callsign.{
  Callsign, find_char, checked, new, to_string, to_nick, with_separator, from_nick, from_str,
}

-- A character of a base: a digit or an upper-case letter.
abbrev pub is_base_char : ℕ → Bool
is_base_char c = is_ascii_digit c || is_ascii_upper c

-- What the constructor promises.
pub record IsValid (c : Callsign) : Type 0 where
  pub chars : all is_base_char c.base ≡ true
  pub nonempty : 1 ≤ length c.base
  pub short : length c.base ≤ 6
  pub ssid : c.ssid ≤ 15

find_char-none : (p : ℕ → Bool) (s : Text) → find_char p s ≡ none → all (λ c. not (p c)) s ≡ true
unfolding find_char
find_char-none p [] h = refl
find_char-none p (c ∷ s) h = ground (arith, find_char-none p s)

find_char-all : (p : ℕ → Bool) (s : Text) → all (λ c. not (p c)) s ≡ true → find_char p s ≡ none
unfolding find_char
find_char-all p [] h = refl
find_char-all p (c ∷ s) h = ground (arith, find_char-all p s)

not-not :
    (s : Text) → all (λ c. not (not (is_ascii_alphanumeric c))) s ≡ all is_ascii_alphanumeric s
not-not [] = refl
not-not (c ∷ s) = ground (arith, not-not s)

upper-alphanumeric :
    (s : Text)
    → all is_ascii_alphanumeric (map ascii_upper s) ≡ true
    → all is_base_char (map ascii_upper s) ≡ true
upper-alphanumeric [] h = refl
upper-alphanumeric (c ∷ s) h = ground (arith, upper-alphanumeric s)

alphanumeric-upper :
    (s : Text)
    → all is_ascii_alphanumeric s ≡ true
    → all is_ascii_alphanumeric (map ascii_upper s) ≡ true
alphanumeric-upper [] h = refl
alphanumeric-upper (c ∷ s) h = ground (arith, alphanumeric-upper s)

pub length-upper : (s : Text) → length (map ascii_upper s) ≡ length s
length-upper [] = refl
length-upper (c ∷ s) = omega (arith, length-upper s)

pub upper_base : (s : Text) → all is_base_char s ≡ true → map ascii_upper s ≡ s
upper_base [] h = refl
upper_base (c ∷ s) h = ground (arith, upper_base s)

pub base_alphanumeric : (s : Text) → all is_base_char s ≡ true → all is_ascii_alphanumeric s ≡ true
base_alphanumeric [] h = refl
base_alphanumeric (c ∷ s) h = ground (arith, base_alphanumeric s)

checked-IsValid :
    (base : Text) (ssid : ℕ) {c : Callsign}
    → (all is_ascii_alphanumeric base ≡ true → all is_base_char base ≡ true)
    → checked base ssid ≡ ok c
    → IsValid c
unfolding checked
checked-IsValid base ssid up h = ground (
  arith,
  up,
  find_char-none (λ c. not (is_ascii_alphanumeric c)) base,
  not-not base,
  str_len_alphanumeric base,
)

-- A callsign that `new` returns is valid, whatever it was given.
pub new-IsValid : (base : Text) (ssid : ℕ) {c : Callsign} → new base ssid ≡ ok c → IsValid c
unfolding new
new-IsValid base ssid h =
    checked-IsValid (map ascii_upper (trim base)) ssid (upper-alphanumeric (trim base)) h

checked_alphanumeric :
    (base : Text) (ssid : ℕ)
    → all is_ascii_alphanumeric base ≡ true
    → 1 ≤ length base
    → length base ≤ 6
    → ssid ≤ 15
    → checked base ssid ≡ ok (record { base = base; ssid = ssid })
unfolding checked
checked_alphanumeric [] ssid h lo hi s = absurd (omega arith)
checked_alphanumeric (c ∷ base) ssid h lo hi s =
    rw
      (
        str_len_alphanumeric (c ∷ base) h,
        find_char-all (λ x. not (is_ascii_alphanumeric x)) (c ∷ base) (not-not (c ∷ base) ∙ h),
      )
      (ground arith)

-- A short alphanumeric base with an SSID in range is accepted, in upper case.
pub new_alphanumeric :
    (base : Text) (ssid : ℕ)
    → all is_ascii_alphanumeric base ≡ true
    → 1 ≤ length base
    → length base ≤ 6
    → ssid ≤ 15
    → new base ssid ≡ ok (record { base = map ascii_upper base; ssid = ssid })
unfolding new
new_alphanumeric base ssid h lo hi s = rw (trim_alphanumeric base h) (
    checked_alphanumeric (map ascii_upper base) ssid (alphanumeric-upper base h)
      (omega (arith, length-upper base)) (omega (arith, length-upper base)) s)

no_separator :
    (sep : ℕ) (s : Text)
    → is_ascii_alphanumeric sep ≡ false
    → all is_ascii_alphanumeric s ≡ true
    → all (λ c. not (c == sep)) s ≡ true
no_separator sep [] n h = refl
no_separator sep (c ∷ s) n h =
    ground (arith, no_separator sep s n, ap is_ascii_alphanumeric {x = c} {y = sep})

module _ (sep : ℕ) (base : Text) (ssid : ℕ) (n : is_ascii_alphanumeric sep ≡ false)
    (h : all is_ascii_alphanumeric base ≡ true) (lo : 1 ≤ length base) (hi : length base ≤ 6)
    (s : ssid ≤ 15) where
  with_separator_bare :
      with_separator sep base ≡ ok (record { base = map ascii_upper base; ssid = 0 })
  unfolding with_separator
  with_separator_bare =
      rw (with_separator, split_once-none sep base (no_separator sep base n h))
        (new_alphanumeric base 0 h lo hi (omega arith))

  with_separator_ssid :
      with_separator sep (base ++ (sep ∷ show_u8 ssid))
      ≡ ok (record { base = map ascii_upper base; ssid = ssid })
  unfolding with_separator
  with_separator_ssid =
      rw
        (
          with_separator,
          split_once-append sep base (show_u8 ssid) (no_separator sep base n h),
          parse_u8-show_u8 ssid (omega arith),
        )
        (new_alphanumeric base ssid h lo hi s)

  -- An alphanumeric base, alone or before a separator and a decimal SSID, reads back in upper case.
  pub with_separator_alphanumeric :
      with_separator sep (if ssid == 0 then base else base ++ (sep ∷ show_u8 ssid))
      ≡ ok (record { base = map ascii_upper base; ssid = ssid })
  with_separator_alphanumeric = ground (arith, with_separator_bare, with_separator_ssid)

module _ (c : Callsign) (v : IsValid c) where
  reads_back :
      (sep : ℕ)
      → is_ascii_alphanumeric sep ≡ false
      → with_separator sep (if c.ssid == 0 then c.base else c.base ++ (sep ∷ show_u8 c.ssid)) ≡ ok c
  reads_back sep n =
      with_separator_alphanumeric sep c.base c.ssid n (base_alphanumeric c.base v.chars) v.nonempty
        v.short v.ssid
      ∙ ap (λ b. ok (record { base = b; ssid = c.ssid })) (upper_base c.base v.chars)

  -- The printed form of a valid callsign parses to it.
  pub from_str-to_string : from_str (to_string c) ≡ ok c
  unfolding from_str to_string
  from_str-to_string = reads_back b'-' refl

  -- The nickname of a valid callsign converts back to it.
  pub from_nick-to_nick : from_nick (to_nick c) ≡ ok c
  unfolding from_nick to_nick
  from_nick-to_nick = reads_back b'|' refl
