-- ===== src/Policy.antt =====
-- What may be transmitted, src/policy.rs: the rate limiter, and the cleaning and screening of text.
-- `f64` is the interface of Prelude/Float. The `HashMap` of a limiter is an association list.
pub mod Limiter
pub mod Screen
pub mod Stations
use rfircd.Prelude.{
  ℕ, zero, suc, ◌+◌, ◌-◌, ◌*◌, ◌/◌, Bool, true, false, not, ◌&&◌, ◌||◌, List, [], ◌∷◌, ◌++◌, map,
  Option, none, some, Text, ltb, leb, ◌==◌, if◌then◌else◌, max, keep, all, any, length, is_empty,
  take, drop, contains, Result, ok, err,
}
use rfircd.Prelude.Assoc.{lookup, insert, make_room, nat_eq}
use rfircd.Prelude.Chars.{
  text_eq, text_beq, is_whitespace, is_ascii_digit, is_ascii_lower, is_ascii_upper,
  is_ascii_alphanumeric, ascii_upper, trim, split_by,
}
use rfircd.Prelude.Float.{Float}
use rfircd.Callsign.{Callsign, from_str, callsign_beq, same_station}

abbrev pub max_buckets : ℕ
max_buckets = 4096

pub record Bucket (fl : Float) : Type 0 where
  pub tokens : fl.F
  pub last : ℕ

pub record RateLimiter (fl : Float) : Type 0 where
  pub per_minute : fl.F
  pub burst : fl.F
  pub buckets : List (Text × Bucket fl)

module _ {fl : Float} where
  open fl use {F, of_nat, add, sub, mul, div, le, secs}

  unfoldable pub new : ℕ → ℕ → RateLimiter fl
  new per_minute burst = record {
    per_minute = of_nat per_minute;
    burst = of_nat (max burst 1);
    buckets = [];
  }

  -- The bucket of a key, or a full one.
  abbrev pub bucket_of : Option (Bucket fl) → F → ℕ → Bucket fl
  bucket_of none burst now = record { tokens = burst; last = now }
  bucket_of (some b) burst now = b

  -- What a bucket holds after the time since it was last used.
  unfoldable pub refilled : RateLimiter fl → Text → ℕ → F
  unfolding lookup
  refilled l key now =
      let b = bucket_of (lookup key l.buckets) l.burst now in
      fl.min (add b.tokens (mul (secs (now - b.last)) (div l.per_minute (of_nat 60)))) l.burst

  unfoldable pub check : RateLimiter fl → Text → ℕ → RateLimiter fl × Bool
  unfolding refilled insert make_room
  check l key now =
      let room = make_room (λ (b : Bucket fl). b.last) key max_buckets l.buckets in
      let tokens = refilled l key now in
      let ok = le (of_nat 1) tokens in
      (
        record l {
          buckets =
              insert key
                (record { tokens = if ok then sub tokens (of_nat 1) else tokens; last = now }) room;
        },
        ok,
      )

  unfoldable pub expire : RateLimiter fl → ℕ → ℕ → RateLimiter fl
  expire l now idle_for = record l { buckets = keep (λ b. ltb (now - b.1.last) idle_for) l.buckets }

-- What `sanitize` skips next: nothing, or what may follow the octet that starts a colour, up to so many
-- digits in front of a comma or behind it.
pub data Skip : Type 0 where
  plain : Skip
  foreground background : ℕ → Skip

-- What is done with a character: it is dropped, it starts a colour, it is a space, or it is kept.
pub data Act : Type 0 where
  drops colour space keeps : Act

abbrev pub act : ℕ → Act
act c =
    if c == 0x03
    then colour
    else if c == 0x0D || c == 0x0A || c == 0x09
    then space
    else if ltb c 0x20
    then drops
    else if leb 0x7F c && leb c 0x9F
    then drops
    else if c == 0x20
    then space
    else keeps

-- Whether a character belongs to a colour, and what is skipped after it.
abbrev pub skip : Skip → ℕ → Option Skip
skip plain c = none
skip (foreground zero) c = if c == b',' then some (background 2) else none
skip (foreground (suc n)) c =
    if is_ascii_digit c
    then some (foreground n)
    else if c == b','
    then some (background 2)
    else none
skip (background zero) c = none
skip (background (suc n)) c = if is_ascii_digit c then some (background n) else none

-- The loop of `sanitize`; `spaced` is whether the output ends in a space.
unfoldable pub clean : Skip → Bool → Text → Text
clean mode spaced [] = []
clean mode spaced (c ∷ s) = elim (skip mode c) [
  | some next ↦ clean next spaced s
  | none ↦ elim (act c) [
    | drops ↦ clean plain spaced s
    | colour ↦ clean (foreground 2) spaced s
    | space ↦ if spaced then clean plain true s else b' ' ∷ clean plain true s
    | keeps ↦ c ∷ clean plain false s
  ]
]

unfoldable pub sanitize : Text → Text
unfolding clean trim
sanitize text = trim (clean plain false text)

-- `char::is_control`, and what reorders the text that is drawn.
abbrev pub is_terminal_control : ℕ → Bool
is_terminal_control c =
    ltb c 0x20
    || leb 0x7F c && leb c 0x9F
    || c == 0x200E
    || c == 0x200F
    || leb 0x202A c && leb c 0x202E
    || leb 0x2066 c && leb c 0x2069

unfoldable pub strip_terminal_controls : Text → Text
strip_terminal_controls text = keep (λ c. not (is_terminal_control c)) text

-- `str::contains`.
abbrev starts_with : Text → Text → Bool
starts_with [] s = true
starts_with (c ∷ p) [] = false
starts_with (c ∷ p) (d ∷ s) = c == d && starts_with p s

abbrev contains_text : Text → Text → Bool
contains_text p [] = starts_with p []
contains_text p (c ∷ s) = starts_with p (c ∷ s) || contains_text p s

abbrev pub is_b64_char : ℕ → Bool
is_b64_char c = is_ascii_alphanumeric c || c == b'+' || c == b'/' || c == b'='

abbrev pub begin_mark : Text
begin_mark = b'-' ∷ b'-' ∷ b'-' ∷ b'-' ∷ b'-' ∷ b'B' ∷ b'E' ∷ b'G' ∷ b'I' ∷ b'N' ∷ []

abbrev pub message_mark : Text
message_mark = b'M' ∷ b'E' ∷ b'S' ∷ b'S' ∷ b'A' ∷ b'G' ∷ b'E' ∷ []

-- One more of a character.
unfoldable pub count_char : ℕ → List (ℕ × ℕ) → List (ℕ × ℕ)
unfolding lookup insert
count_char c m = elim (lookup c m) [ none ↦ insert c 1 m | some n ↦ insert c (n + 1) m ]

unfoldable pub counts : Text → List (ℕ × ℕ) → List (ℕ × ℕ)
unfolding count_char
counts [] m = m
counts (c ∷ s) m = counts s (count_char c m)

module _ (fl : Float) where
  open fl use {F, of_nat, add, mul, div, neg, lt, log2}

  unfoldable pub entropy_sum : F → List (ℕ × ℕ) → F
  entropy_sum n [] = of_nat 0
  entropy_sum n ((c, k) ∷ m) = let p = div (of_nat k) n in add (entropy_sum n m) (mul p (log2 p))

  unfoldable pub shannon_entropy : Text → F
  unfolding entropy_sum counts
  shannon_entropy s = neg (entropy_sum (of_nat (length s)) (counts s []))

  unfoldable pub is_suspect : Text → Bool
  unfolding shannon_entropy
  is_suspect token =
      let n = length token in
      not (ltb n 40)
      && not (ltb (length (keep is_b64_char token) * 100 / n) 95)
      && (any is_ascii_lower token && any is_ascii_upper token && any is_ascii_digit token
          || lt (div (of_nat 42) (of_nat 10)) (shannon_entropy token))

  unfoldable pub looks_like_ciphertext : Text → Bool
  unfolding is_suspect split_by
  looks_like_ciphertext text =
      let upper = map ascii_upper text in
      contains_text begin_mark upper && contains_text message_mark upper
      || any is_suspect (split_by is_whitespace text)

-- The parts of `PolicyConfig` that the screening uses.
pub record ScreenConfig : Type 0 where
  pub max_rf_text_len : ℕ
  pub block_apparent_ciphertext : Bool

pub data Reason : Type 0 where
  empty ciphertext : Reason

pub data Verdict : Type 0 where
  allow truncated : Text → Verdict
  deny : Reason → Verdict

unfoldable pub screen_outbound : Float → ScreenConfig → Text → Verdict
unfolding sanitize looks_like_ciphertext
screen_outbound fl cfg text =
    let cleaned = sanitize text in
    if is_empty (trim cleaned)
    then deny empty
    else if cfg.block_apparent_ciphertext && looks_like_ciphertext fl cleaned
    then deny ciphertext
    else if ltb cfg.max_rf_text_len (length cleaned)
    then truncated (take (cfg.max_rf_text_len - 1) cleaned ++ (0x2026 ∷ []))
    else allow cleaned

-- Whether an entry of a list of callsigns stands for a station: an entry without an SSID stands for
-- all of its base. An entry that is no callsign stands for none.
unfoldable pub matches : Callsign → Text → Bool
unfolding from_str callsign_beq same_station
matches call entry = elim (from_str entry) [
  | err e ↦ false
  | ok c ↦ callsign_beq c call || c.ssid == 0 && same_station c call
]

unfoldable pub station_allowed : List Text → List Text → Callsign → Bool
unfolding matches
station_allowed denied admitted call =
    if any (matches call) denied
    then false
    else if is_empty admitted
    then true
    else any (matches call) admitted
