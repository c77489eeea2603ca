-- ===== src/Irc/Message/Roundtrip.antt =====
-- Printing a message of src/irc/message.rs and parsing it again.
use rfircd.Prelude.{
  ℕ, ◌≡◌, refl, sym, ap, ◌∙◌, inl, inr, Bool, true, false, not, ◌&&◌, List, [], ◌∷◌, ◌++◌, map,
  arith, Text, Option, none, some, ◌==◌, length, is_empty, Bool-cases, drop, append-nil,
  append_assoc,
}
use rfircd.Prelude.Chars.{
  is_whitespace, ascii_upper, trim_start, split_once-append, split_once-none,
}
use rfircd.Irc.Message.{
  Message, trim_line_end, split_command, parse_tags, parse_prefix, parse_command, parse, scrub_irc,
  show_params, show_prefix, show,
}
use rfircd.Irc.Message.Scrub.{one_line, one_field, scrub_irc-one_field, show-one_line}
use rfircd.Irc.Message.Params.{
  received_params, one_field-no_space, show_params-space, parse_params-shown,
  length-received_params,
}

abbrev received_prefix : Option Text → Option Text
received_prefix none = none
received_prefix (some p) = some (scrub_irc p)

-- The message as it arrives.
abbrev pub received : Message → Message
received m = record {
  tags = [];
  prefix = received_prefix m.prefix;
  command = map ascii_upper (scrub_irc m.command);
  params = received_params m.params;
}

-- What stays a command when it is printed: it has a character, and is not read as tags or a prefix.
abbrev pub starts_command : Text → Bool
starts_command [] = false
starts_command (c ∷ s) = not (c == b':') && not (c == b'@')

trim_line_end-one_line : (s : Text) → one_line s ≡ true → trim_line_end s ≡ s
unfolding trim_line_end
trim_line_end-one_line [] h = refl
trim_line_end-one_line (c ∷ s) h = ground (arith, h, trim_line_end-one_line s)

no_whitespace-first : (c : ℕ) (s : Text) → one_field (c ∷ s) ≡ true → is_whitespace c ≡ false
no_whitespace-first c s h = elim (Bool-cases (is_whitespace c)) [
  | inl space ↦ let clash : false ≡ true = sym (rw (space) refl) ∙ h in absurd (cc)
  | inr other ↦ other
]

trim_start-field :
    (s r : Text) → one_field s ≡ true → is_empty s ≡ false → trim_start (s ++ r) ≡ s ++ r
unfolding trim_start
trim_start-field [] r h k = absurd (cc)
trim_start-field (c ∷ s) r h k = rw (no_whitespace-first c s h) refl

split_command-shown :
    (s : Text) (ps : List Text)
    → one_field s ≡ true
    → split_command (s ++ show_params ps) ≡ (s, drop 1 (show_params ps))
unfolding show_params
split_command-shown s [] h =
    ap split_command (append-nil s)
    ∙ rw (split_command, split_once-none b' ' s (one_field-no_space s h)) refl
split_command-shown s (p ∷ ps) h =
    ap (λ r. split_command (s ++ r)) (show_params-space p ps)
    ∙ rw
        (
          split_command,
          split_once-append b' ' s (drop 1 (show_params (p ∷ ps))) (one_field-no_space s h),
        )
        refl

parse_command-shown :
    (prefix : Option Text) (s : Text) (ps : List Text)
    → one_field s ≡ true
    → is_empty s ≡ false
    → parse_command [] prefix (s ++ show_params ps)
      ≡ some (record {
        tags = [];
        prefix = prefix;
        command = map ascii_upper s;
        params = received_params ps;
      })
unfolding parse_command
parse_command-shown prefix s ps h k = rw (split_command-shown s ps h, k, parse_params-shown ps) refl

-- The line after its tags: the prefix, and the command with its parameters.
parse_prefix-shown :
    (m : Message)
    → starts_command (scrub_irc m.command) ≡ true
    → let rest = scrub_irc m.command ++ show_params m.params in
      (parse_prefix (show_prefix m.prefix ++ rest) ≡ some (received_prefix m.prefix, rest))
      × (trim_start (show_prefix m.prefix ++ rest) ≡ show_prefix m.prefix ++ rest)
      × (parse_tags (show_prefix m.prefix ++ rest) ≡ some ([], show_prefix m.prefix ++ rest))
unfolding parse_prefix parse_tags show_prefix trim_start
parse_prefix-shown m h =
    go m.prefix (scrub_irc m.command) (show_params m.params) (scrub_irc-one_field m.command) h
  where
    go :
        (prefix : Option Text) (s r : Text)
        → one_field s ≡ true
        → starts_command s ≡ true
        → (parse_prefix (show_prefix prefix ++ (s ++ r)) ≡ some (received_prefix prefix, s ++ r))
          × (trim_start (show_prefix prefix ++ (s ++ r)) ≡ show_prefix prefix ++ (s ++ r))
          × (parse_tags (show_prefix prefix ++ (s ++ r))
              ≡ some ([], show_prefix prefix ++ (s ++ r)))
    go prefix [] r f k = absurd (cc)
    go none (c ∷ s) r f k =
        (ground (arith, k), rw (no_whitespace-first c s f) refl, ground (arith, k))
    go (some p) (c ∷ s) r f k = (
      rw
          (
            append_assoc (scrub_irc p) (b' ' ∷ []) (c ∷ s ++ r),
            parse_prefix,
            split_once-append b' ' (scrub_irc p) (c ∷ s ++ r)
                (one_field-no_space (scrub_irc p) (scrub_irc-one_field p)),
            no_whitespace-first c s f,
          )
          refl,
      refl,
      refl,
    )

starts_command-not_empty : (s : Text) → starts_command s ≡ true → is_empty s ≡ false
starts_command-not_empty [] h = absurd (cc)
starts_command-not_empty (c ∷ s) h = refl

-- A message whose scrubbed command is not empty and does not start with a colon or `@`, printed and
-- parsed, is the message with its fields scrubbed: the prefix, the command in upper case, and every
-- parameter at its place, as many as there were.
pub parse-show :
    (m : Message)
    → starts_command (scrub_irc m.command) ≡ true
    → (parse (show m) ≡ some (received m)) × (length (received m).params ≡ length m.params)
unfolding parse show
parse-show m h =
    let rest = scrub_irc m.command ++ show_params m.params in
    let w = parse_prefix-shown m h in
    (
      rw (trim_line_end-one_line (show_prefix m.prefix ++ rest) (show-one_line m), w.1, w.2, w.0)
          (parse_command-shown (received_prefix m.prefix) (scrub_irc m.command) m.params
            (scrub_irc-one_field m.command) (starts_command-not_empty (scrub_irc m.command) h)),
      length-received_params m.params,
    )
