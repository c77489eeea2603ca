-- ===== src/Policy/Screen.antt =====
-- The cleaning and screening of text that is to be transmitted, src/policy.rs.
use rfircd.Prelude.{
  ℕ, zero, suc, ◌-◌, ◌≤◌, ◌≡◌, refl, inl, inr, Bool, true, false, not, ◌&&◌, [], ◌∷◌, ◌++◌, none,
  Text, arith, ltb, leb, ltb→ge, max, all, length, take, length-append, length-take, is_empty,
  Bool-cases, Option-cases,
}
use rfircd.Prelude.Chars.{is_whitespace, trim, trim_start, trim_end}
use rfircd.Prelude.Float.{Float}
use rfircd.Policy.{
  Skip, plain, foreground, Act, drops, colour, space, keeps, act, skip, clean, sanitize,
  looks_like_ciphertext, ScreenConfig, Verdict, allow, truncated, deny, screen_outbound,
}

-- No control character, below the space or from DEL to 0x9F.
abbrev pub is_plain : ℕ → Bool
is_plain c = leb 0x20 c && not (leb 0x7F c && leb c 0x9F)

act-keeps : (c : ℕ) → act c ≡ keeps → is_plain c ≡ true
act-keeps c h = ground (arith, h)

-- One character that is not part of a colour.
clean-step :
    (mode : Skip) (spaced : Bool) (c : ℕ) (s : Text) (a : Act)
    → skip mode c ≡ none
    → act c ≡ a
    → ((m : Skip) (b : Bool) → all is_plain (clean m b s) ≡ true)
    → all is_plain (clean mode spaced (c ∷ s)) ≡ true
unfolding clean
clean-step mode spaced c s drops read e rest = rw (clean, read, e) (rest plain spaced)
clean-step mode spaced c s colour read e rest = rw (clean, read, e) (rest (foreground 2) spaced)
clean-step mode true c s space read e rest = rw (clean, read, e) (rest plain true)
clean-step mode false c s space read e rest = rw (clean, read, e) (rest plain true)
clean-step mode spaced c s keeps read e rest =
    rw (clean, read, e)
      (both (is_plain c) (all is_plain (clean plain false s)) (act-keeps c e) (rest plain false))
  where
    both : (a b : Bool) → a ≡ true → b ≡ true → a && b ≡ true
    both a b h k = ground (arith, h, k)

clean-plain : (mode : Skip) (spaced : Bool) (s : Text) → all is_plain (clean mode spaced s) ≡ true
unfolding clean
clean-plain mode spaced [] = refl
clean-plain mode spaced (c ∷ s) = elim (Option-cases (skip mode c)) [
  | inr (next, skipped) ↦ rw (clean, skipped) (clean-plain next spaced s)
  | inl read ↦ clean-step mode spaced c s (act c) read refl (λ m b. clean-plain m b s)
]

all-trim_start : (p : ℕ → Bool) (s : Text) → all p s ≡ true → all p (trim_start s) ≡ true
unfolding trim_start
all-trim_start p [] h = refl
all-trim_start p (c ∷ s) h = elim (Bool-cases (is_whitespace c)) [
  | inl white ↦ rw (white) (all-trim_start p s (ground (arith, h)))
  | inr black ↦ rw (black) h
]

all-trim_end : (p : ℕ → Bool) (s : Text) → all p s ≡ true → all p (trim_end s) ≡ true
unfolding trim_end
all-trim_end p [] h = refl
all-trim_end p (c ∷ s) h = elim (Bool-cases (is_empty (trim_end s) && is_whitespace c)) [
  | inl goes ↦ rw (goes) refl
  | inr stays ↦
      let rest = all-trim_end p s (ground (arith, h)) in rw (stays) (ground (arith, h, rest))
]

-- What is cleaned for the air has no control character, so no line break and no escape sequence.
pub sanitize-plain :
    (s : Text) → all (λ c. leb 0x20 c && not (leb 0x7F c && leb c 0x9F)) (sanitize s) ≡ true
unfolding sanitize trim
sanitize-plain s =
    let cleaned = clean plain false s in
    all-trim_end is_plain (trim_start cleaned)
      (all-trim_start is_plain cleaned (clean-plain plain false s))

-- What a verdict lets go on the air.
abbrev pub radiated : Verdict → Text
radiated (allow t) = t
radiated (truncated t) = t
radiated (deny r) = []

all-take : (p : ℕ → Bool) (n : ℕ) (s : Text) → all p s ≡ true → all p (take n s) ≡ true
all-take p zero s h = refl
all-take p (suc n) [] h = refl
all-take p (suc n) (c ∷ s) h =
    let rest = all-take p n s (ground (arith, h)) in ground (arith, h, rest)

all-append : (p : ℕ → Bool) (s t : Text) → all p s ≡ true → all p t ≡ true → all p (s ++ t) ≡ true
all-append p [] t h k = k
all-append p (c ∷ s) t h k =
    let rest = all-append p s t (ground (arith, h)) k in ground (arith, h, rest)

-- Whatever the text was, what the screening lets go on the air has no control character and no more
-- characters than the limit, or one.
pub screen_outbound-fits :
    (fl : Float) (cfg : ScreenConfig) (s : Text)
    → (all is_plain (radiated (screen_outbound fl cfg s)) ≡ true)
      × (length (radiated (screen_outbound fl cfg s)) ≤ max cfg.max_rf_text_len 1)
unfolding screen_outbound
screen_outbound-fits fl cfg s =
    let t = sanitize s in
    let clear = sanitize-plain s in
    elim (Bool-cases (is_empty (trim t))) [
      | inl nothing ↦ rw (screen_outbound, nothing) (refl, omega arith)
      | inr something ↦
          elim (Bool-cases (cfg.block_apparent_ciphertext && looks_like_ciphertext fl t)) [
            | inl blob ↦ rw (screen_outbound, something, blob) (refl, omega arith)
            | inr words ↦ elim (Bool-cases (ltb cfg.max_rf_text_len (length t))) [
              | inl long ↦
                  let n = cfg.max_rf_text_len - 1 in
                  rw (screen_outbound, something, words, long)
                    (
                      all-append is_plain (take n t) (0x2026 ∷ []) (all-take is_plain n t clear)
                          refl,
                      omega (arith, length-append (take n t) (0x2026 ∷ []), length-take n t),
                    )
              | inr short ↦
                  rw (screen_outbound, something, words, short)
                    (clear, omega (arith, ltb→ge cfg.max_rf_text_len (length t) short))
            ]
          ]
    ]
