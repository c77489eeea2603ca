-- ===== src/Irc/Message.antt =====
-- IRC messages, src/irc/message.rs: `Message`, `parse`, `Display` and the scrubbing of its fields,
-- CTCP, and the names of channels and nicknames.
pub mod Scrub
pub mod Params
pub mod Roundtrip
pub mod Names
use rfircd.Prelude.{
  ℕ, zero, suc, ◌+◌, Bool, true, false, not, ◌&&◌, ◌||◌, List, [], ◌∷◌, ◌++◌, map, Option, none,
  some, Text, ltb, leb, ◌==◌, if◌then◌else◌, all, any, keep, length, is_empty, contains, get_elem?,
}
use rfircd.Prelude.Chars.{
  is_whitespace, is_ascii_alphabetic, is_ascii_alphanumeric, ascii_upper, trim_start, split_once,
  split_by, str_len,
}

pub record Message : Type 0 where
  pub tags : List (Text × Option Text)
  pub prefix : Option Text
  pub command : Text
  pub params : List Text

-- What ends a line, or a text in C.
abbrev pub is_break : ℕ → Bool
is_break c = c == 0x0D || c == 0x0A || c == 0

abbrev pub new : Text → List Text → Message
new command params = record {
  tags = [];
  prefix = none;
  command = map ascii_upper command;
  params = params;
}

abbrev pub with_prefix : Message → Text → Message
with_prefix m prefix = record m { prefix = some prefix }

abbrev pub param : Message → ℕ → Option Text
param m i = get_elem? m.params i

-- `trim_end_matches(['\r', '\n'])` and `trim_start_matches(' ')`.
unfoldable pub trim_line_end : Text → Text
trim_line_end [] = []
trim_line_end (c ∷ s) =
    let r = trim_line_end s in if is_empty r && (c == 0x0D || c == 0x0A) then [] else c ∷ r

unfoldable pub trim_spaces : Text → Text
trim_spaces [] = []
trim_spaces (c ∷ s) = if c == b' ' then trim_spaces s else c ∷ s

abbrev pub strip_prefix : ℕ → Text → Option Text
strip_prefix p [] = none
strip_prefix p (c ∷ s) = if c == p then some s else none

-- `split(sep)`.
unfoldable pub split : ℕ → Text → List Text
split sep [] = [] ∷ []
split sep (c ∷ s) = elim (split sep s) [
  | [] ↦ (c ∷ []) ∷ []
  | w ∷ ws ↦ if c == sep then [] ∷ (w ∷ ws) else (c ∷ w) ∷ ws
]

abbrev parse_tag : Text → Text × Option Text
parse_tag t = elim (split_once b'=' t) [ some (k, v) ↦ (k, some v) | none ↦ (t, none) ]

-- The tags, and the rest of the line.
unfoldable pub parse_tags : Text → Option (List (Text × Option Text) × Text)
unfolding split
parse_tags line = elim (strip_prefix b'@' line) [
  | none ↦ some ([], line)
  | some stripped ↦ elim (split_once b' ' stripped) [
    | none ↦ none
    | some (tags, rest) ↦
        some (map parse_tag (keep (λ t. not (is_empty t)) (split b';' tags)), trim_start rest)
  ]
]

unfoldable pub parse_prefix : Text → Option (Option Text × Text)
parse_prefix line = elim (strip_prefix b':' line) [
  | none ↦ some (none, line)
  | some stripped ↦ elim (split_once b' ' stripped) [
    | none ↦ none
    | some (prefix, rest) ↦ some (some prefix, trim_start rest)
  ]
]

-- `splitn(2, ' ')`, with an empty second part where there is none.
abbrev pub split_command : Text → Text × Text
split_command s = elim (split_once b' ' s) [ some (a, b) ↦ (a, b) | none ↦ (s, []) ]

abbrev pub push_param : Text → List Text → List Text
push_param p ps = if is_empty p then ps else p ∷ ps

-- The loop over the parameters, on fuel.
unfoldable pub parse_params : ℕ → Text → List Text
unfolding trim_spaces
parse_params zero s = []
parse_params (suc fuel) [] = []
parse_params (suc fuel) (c ∷ s) = if c == b':' then s ∷ [] else elim (split_once b' ' (c ∷ s)) [
  | none ↦ (c ∷ s) ∷ []
  | some (p, r) ↦ push_param p (parse_params fuel (trim_spaces r))
]

-- The command and the parameters, which take no more rounds than there are characters.
unfoldable pub parse_command : List (Text × Option Text) → Option Text → Text → Option Message
unfolding parse_params
parse_command tags prefix line =
    let (command, rest) = split_command line in
    let remainder = trim_spaces rest in
    if is_empty command
    then none
    else some (record {
      tags = tags;
      prefix = prefix;
      command = map ascii_upper command;
      params = parse_params (length remainder) remainder;
    })

infixl 5 ◌>>=◌
abbrev ◌>>=◌ : {A B : Type 0} → Option A → (A → Option B) → Option B
none >>= f = none
some a >>= f = f a

unfoldable pub parse : Text → Option Message
unfolding parse_tags parse_prefix parse_command trim_line_end
parse line = do
  (tags, untagged) ← parse_tags (trim_start (trim_line_end line))
  (prefix, rest) ← parse_prefix untagged
  parse_command tags prefix rest

-- `collect::<Vec<_>>().join(" ")`.
unfoldable pub join_words : List Text → Text
join_words [] = []
join_words (w ∷ []) = w
join_words (w ∷ (v ∷ ws)) = w ++ (b' ' ∷ join_words (v ∷ ws))

abbrev pub unbreak : ℕ → ℕ
unbreak c = if is_break c then b' ' else c

abbrev pub underscore : ℕ → ℕ
underscore c = if c == b' ' then b'_' else c

unfoldable pub scrub_irc : Text → Text
unfolding join_words
scrub_irc s = map underscore (join_words (split_by is_whitespace (map unbreak s)))

-- A text that may not be empty or start with a colon.
abbrev pub guard_param : Text → Text
guard_param [] = b'*' ∷ []
guard_param (c ∷ s) = if c == b':' then b'_' ∷ c ∷ s else c ∷ s

unfoldable pub middle_param : Text → Text
unfolding scrub_irc
middle_param s = guard_param (scrub_irc s)

abbrev pub strip_line_breaks : Text → Text
strip_line_breaks s = keep (λ c. not (is_break c)) s

-- Whether the last parameter needs a colon.
abbrev pub needs_colon : Text → Bool
needs_colon [] = true
needs_colon (c ∷ s) = c == b':' || any is_whitespace (c ∷ s)

unfoldable pub show_last : Text → Text
show_last p = let t = strip_line_breaks p in if needs_colon t then b' ' ∷ b':' ∷ t else b' ' ∷ t

unfoldable pub show_params : List Text → Text
unfolding show_last middle_param
show_params [] = []
show_params (p ∷ []) = show_last p
show_params (p ∷ (q ∷ ps)) = b' ' ∷ middle_param p ++ show_params (q ∷ ps)

unfoldable pub show_prefix : Option Text → Text
unfolding scrub_irc
show_prefix none = []
show_prefix (some p) = b':' ∷ scrub_irc p ++ (b' ' ∷ [])

-- `Display`.
unfoldable pub show : Message → Text
unfolding show_prefix show_params
show m = show_prefix m.prefix ++ (scrub_irc m.command ++ show_params m.params)

-- `strip_suffix('\u{1}').unwrap_or(inner)`.
abbrev strip_ctcp_end : Text → Text
strip_ctcp_end [] = []
strip_ctcp_end (c ∷ []) = if c == 1 then [] else c ∷ []
strip_ctcp_end (c ∷ (d ∷ s)) = c ∷ strip_ctcp_end (d ∷ s)

unfoldable pub parse_ctcp : Text → Option (Text × Text)
parse_ctcp text = elim (strip_prefix 1 text) [
  | none ↦ none
  | some rest ↦
      let inner = strip_ctcp_end rest in if is_empty inner then none else some (split_command inner)
]

-- `char::is_control`, the Unicode category Cc.
abbrev pub is_control : ℕ → Bool
is_control c = ltb c 0x20 || leb 0x7F c && leb c 0x9F

unfoldable pub is_channel_name : Text → Bool
unfolding str_len
is_channel_name [] = false
is_channel_name (c ∷ s) =
    let n = str_len (c ∷ s) in
    (c == b'#' || c == b'&')
    && leb 2 n
    && leb n 50
    && not (contains b' ' (c ∷ s))
    && not (contains b',' (c ∷ s))
    && not (any (λ d. is_control d || leb 0x80 d && leb d 0x9F) (c ∷ s))

-- `"[]\\`_^{|}".contains(c)`.
abbrev pub is_nick_special : ℕ → Bool
is_nick_special c = contains c (b'[' ∷ b']' ∷ 0x5C ∷ b'`' ∷ b'_' ∷ b'^' ∷ b'{' ∷ b'|' ∷ b'}' ∷ [])

unfoldable pub is_valid_nick : Text → ℕ → Bool
unfolding str_len
is_valid_nick [] max_len = false
is_valid_nick (c ∷ s) max_len =
    not (ltb max_len (str_len (c ∷ s)))
    && (is_ascii_alphabetic c || is_nick_special c)
    && all (λ d. is_ascii_alphanumeric d || is_nick_special d || d == b'-') (c ∷ s)
