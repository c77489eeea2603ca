-- ===== src/Irc/Message/Params.antt =====
-- The loop over the parameters in src/irc/message.rs, on any text and on what `Display` prints.
use rfircd.Prelude.{
  ℕ, suc, ◌+◌, ◌≤◌, ◌≡◌, refl, sym, ap, ◌∙◌, inl, inr, Bool, true, false, not, ◌||◌, List, [], ◌∷◌,
  ◌++◌, arith, Text, none, some, ◌==◌, all, any, length, if◌then◌else◌, Bool-cases, Option-cases,
  zero, drop, ◌<◌,
}
use rfircd.Prelude.Chars.{is_whitespace, split_once, split_once-append, split_once-none}
use rfircd.Irc.Message.{
  trim_spaces, push_param, parse_params, scrub_irc, guard_param, middle_param, strip_line_breaks,
  needs_colon, show_last, show_params,
}
use rfircd.Irc.Message.Scrub.{one_field, middle_param-one_field, all-imp, passes-not}

-- The parameters as they arrive.
unfoldable pub received_params : List Text → List Text
unfolding middle_param
received_params [] = []
received_params (p ∷ []) = strip_line_breaks p ∷ []
received_params (p ∷ (q ∷ ps)) = middle_param p ∷ received_params (q ∷ ps)

-- What a parameter has to be for the loop to take it as one.
abbrev starts_param : Text → Bool
starts_param [] = false
starts_param (c ∷ s) = not (c == b':')

pub one_field-no_space : (s : Text) → one_field s ≡ true → all (λ c. not (c == b' ')) s ≡ true
one_field-no_space s h =
    let p : ℕ → Bool = λ c. not (is_whitespace c || c == 0) in
    all-imp p (λ c. not (c == b' ')) s (λ c. passes-not p b' ' c refl) h

guard_param-starts : (s : Text) → starts_param (guard_param s) ≡ true
guard_param-starts [] = refl
guard_param-starts (c ∷ s) = ground arith

-- One round of the loop, for a parameter in the middle.
parse_params-middle :
    (fuel : ℕ) (p r : Text)
    → one_field p ≡ true
    → starts_param p ≡ true
    → parse_params (suc fuel) (p ++ (b' ' ∷ r)) ≡ p ∷ parse_params fuel (trim_spaces r)
unfolding parse_params
parse_params-middle fuel [] r h k = absurd (ground (arith, k))
parse_params-middle fuel (c ∷ p) r h k =
    rw (split_once-append b' ' (c ∷ p) r (one_field-no_space (c ∷ p) h)) (ground (arith, k))

length-trim_spaces-le : (s : Text) → length (trim_spaces s) ≤ length s
unfolding trim_spaces
length-trim_spaces-le [] = omega arith
length-trim_spaces-le (c ∷ s) = ground (arith, length-trim_spaces-le s)

split_once-shorter :
    (sep : ℕ) (s a b : Text) → split_once sep s ≡ some (a, b) → suc (length b) ≤ length s
unfolding split_once
split_once-shorter sep [] a b h = absurd (cc)
split_once-shorter sep (c ∷ s) a b h = elim (Bool-cases (c == sep)) [
  | inl here ↦ ground (arith, here, h)
  | inr later ↦ elim (Option-cases (split_once sep s)) [
    | inl nowhere ↦ ground (arith, nowhere, later, h)
    | inr (pair, there) ↦
        let e = split_once-shorter sep s pair.0 pair.1 there in ground (arith, e, there, later, h)
  ]
]

-- More fuel changes nothing.
parse_params-fuel :
    (n k : ℕ) (s : Text) → length s ≤ n → length s ≤ k → parse_params n s ≡ parse_params k s
unfolding parse_params
parse_params-fuel zero zero s h l = refl
parse_params-fuel zero (suc k) [] h l = refl
parse_params-fuel (suc n) zero [] h l = refl
parse_params-fuel (suc n) (suc k) [] h l = refl
parse_params-fuel zero (suc k) (c ∷ s) h l = absurd (omega (arith, h))
parse_params-fuel (suc n) zero (c ∷ s) h l = absurd (omega (arith, l))
parse_params-fuel (suc n) (suc k) (c ∷ s) h l = elim (Option-cases (split_once b' ' (c ∷ s))) [
  | inl last ↦ rw (last) refl
  | inr (pair, there) ↦
      let shorter = split_once-shorter b' ' (c ∷ s) pair.0 pair.1 there in
      let trimmed = length-trim_spaces-le pair.1 in
      let same =
        parse_params-fuel n k (trim_spaces pair.1) (omega (arith, shorter, trimmed))
          (omega (arith, shorter, trimmed)) in
      rw (there, same) refl
]

-- A run of the `while` loop from a text to its end, round for round, with the parameters that it pushes.
pub data Loop : Text → List Text → Type 0 where
  ends : Loop [] []
  trailing : (c : ℕ) (s : Text) → (c == b':') ≡ true → Loop (c ∷ s) (s ∷ [])
  last :
      (c : ℕ) (s : Text)
      → (c == b':') ≡ false
      → split_once b' ' (c ∷ s) ≡ none
      → Loop (c ∷ s) ((c ∷ s) ∷ [])
  next :
      (c : ℕ) (s p r : Text) (ps : List Text)
      → (c == b':') ≡ false
      → split_once b' ' (c ∷ s) ≡ some (p, r)
      → Loop (trim_spaces r) ps
      → Loop (c ∷ s) (push_param p ps)

-- On every text the loop comes to its end after finitely many rounds, and `parse_params` returns what
-- it has pushed by then, if it is given at least as much fuel as there are characters.
pub parse_params-Loop : (n : ℕ) (s : Text) → length s ≤ n → Loop s (parse_params n s)
unfolding parse_params
parse_params-Loop zero [] h = ends
parse_params-Loop (suc n) [] h = ends
parse_params-Loop zero (c ∷ s) h = absurd (omega (arith, h))
parse_params-Loop (suc n) (c ∷ s) h = elim (Bool-cases (c == b':')) [
  | inl colon ↦ rw (parse_params, colon) (trailing c s colon)
  | inr plain ↦ elim (Option-cases (split_once b' ' (c ∷ s))) [
    | inl whole ↦ rw (parse_params, plain, whole) (last c s plain whole)
    | inr (pair, there) ↦
        let shorter = split_once-shorter b' ' (c ∷ s) pair.0 pair.1 there in
        let trimmed = length-trim_spaces-le pair.1 in
        let rest = parse_params-Loop n (trim_spaces pair.1) (omega (arith, h, shorter, trimmed)) in
        rw (parse_params, plain, there)
          (next c s pair.0 pair.1 (parse_params n (trim_spaces pair.1)) plain there rest)
  ]
]

any-all : (p : ℕ → Bool) (s : Text) → any p s ≡ false → all (λ c. not (p c)) s ≡ true
any-all p [] h = refl
any-all p (c ∷ s) h = ground (arith, h, any-all p s)

pub or_false : (a b : Bool) → (a || b) ≡ false → (a ≡ false) × (b ≡ false)
or_false a b h = ground (arith, h)

no_whitespace-no_space :
    (s : Text) → any is_whitespace s ≡ false → all (λ c. not (c == b' ')) s ≡ true
no_whitespace-no_space s h =
    all-imp (λ c. not (is_whitespace c)) (λ c. not (c == b' ')) s
      (λ c. passes-not (λ d. not (is_whitespace d)) b' ' c refl) (any-all is_whitespace s h)

-- The last parameter, taken whole.
parse_params-last :
    (fuel : ℕ) (p : Text)
    → parse_params (suc fuel) (trim_spaces (show_last p)) ≡ strip_line_breaks p ∷ []
unfolding parse_params show_last trim_spaces
parse_params-last fuel p = go (strip_line_breaks p)
  where
    go :
        (t : Text)
        → parse_params
            (suc fuel)
            (trim_spaces (if needs_colon t then b' ' ∷ b':' ∷ t else b' ' ∷ t))
          ≡ t ∷ []
    go [] = refl
    go (c ∷ t) = elim (Bool-cases (needs_colon (c ∷ t))) [
      | inl colon ↦ rw (colon) refl
      | inr bare ↦
          let r = or_false (c == b':') (any is_whitespace (c ∷ t)) bare in
          let spaces = no_whitespace-no_space (c ∷ t) r.1 in
          let space : (c == b' ') ≡ false = ground (arith, spaces) in
          let whole = split_once-none b' ' (c ∷ t) spaces in rw (bare, space, r.0, whole) refl
    ]

-- A parameter in the middle starts with no space.
trim_spaces-field :
    (p r : Text) → one_field p ≡ true → starts_param p ≡ true → trim_spaces (p ++ r) ≡ p ++ r
unfolding trim_spaces
trim_spaces-field [] r h k = absurd (ground (arith, k))
trim_spaces-field (c ∷ p) r h k =
    let spaces = one_field-no_space (c ∷ p) h in ground (arith, spaces)

pub show_params-space :
    (q : Text) (ps : List Text) → show_params (q ∷ ps) ≡ b' ' ∷ drop 1 (show_params (q ∷ ps))
unfolding show_params show_last
show_params-space q [] = ground arith
show_params-space q (p ∷ ps) = refl

parse_params-show_params :
    (p : Text) (ps : List Text) (fuel : ℕ)
    → length ps < fuel
    → parse_params fuel (trim_spaces (show_params (p ∷ ps))) ≡ received_params (p ∷ ps)
unfolding show_params received_params trim_spaces
parse_params-show_params p ps zero h = absurd (omega (arith, h))
parse_params-show_params p [] (suc fuel) h = parse_params-last fuel p
parse_params-show_params p (q ∷ ps) (suc fuel) h =
    let m = middle_param p in
    let t = show_params (q ∷ ps) in
    let field = middle_param-one_field p in
    let starts = guard_param-starts (scrub_irc p) in
    ap (parse_params (suc fuel)) (trim_spaces-field m t field starts)
    ∙ ap (λ r. parse_params (suc fuel) (m ++ r)) (show_params-space q ps)
    ∙ parse_params-middle fuel m (drop 1 t) field starts
    ∙ ap (λ r. m ∷ parse_params fuel r) (sym (ap trim_spaces (show_params-space q ps)))
    ∙ ap (λ r. m ∷ r) (parse_params-show_params q ps fuel (omega (arith, h)))

-- `parse_params` on as much fuel as `parse_command` gives it.
pub parse_params-shown :
    (ps : List Text)
    → let s = trim_spaces (drop 1 (show_params ps)) in
      parse_params (length s) s ≡ received_params ps
unfolding show_params trim_spaces parse_params received_params
parse_params-shown [] = refl
parse_params-shown (p ∷ ps) =
    let s = trim_spaces (drop 1 (show_params (p ∷ ps))) in
    let n = suc (length ps + length s) in
    parse_params-fuel (length s) n s (omega arith) (omega arith)
    ∙ ap (parse_params n) (sym (ap trim_spaces (show_params-space p ps)))
    ∙ parse_params-show_params p ps n (omega arith)

-- As many parameters arrive as were sent.
pub length-received_params : (ps : List Text) → length (received_params ps) ≡ length ps
unfolding received_params
length-received_params [] = refl
length-received_params (p ∷ []) = refl
length-received_params (p ∷ (q ∷ ps)) = ap suc (length-received_params (q ∷ ps))
