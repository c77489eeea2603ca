-- ===== src/Tests/Messages.antt =====
-- IRC messages, src/irc/message.rs, on concrete inputs.
use rfircd.Prelude.{ℕ, ◌≤◌, ◌≡◌, refl, [], ◌∷◌, true, false, none, some, Text, arith, length}
use rfircd.Prelude.Chars.{str_len, split_by, trim_start, split_once}
use rfircd.Irc.Message.{
  Message, parse, parse_tags, parse_prefix, parse_command, parse_params, split, trim_line_end,
  trim_spaces, show, show_params, show_prefix, show_last, scrub_irc, join_words, middle_param,
  is_channel_name, is_valid_nick, parse_ctcp,
}
use rfircd.Irc.Message.Params.{Loop, parse_params-Loop}
use rfircd.Irc.Message.Roundtrip.{received, parse-show}
use rfircd.Irc.Message.Scrub.{show-one_line}

-- "PRIVMSG #h :a  b", with a line break in the prefix and a space in the first parameter.
abbrev hostile : Message
hostile = record {
  tags = [];
  prefix = some (b'n' ∷ 0x0D ∷ b'x' ∷ []);
  command = b'j' ∷ b'o' ∷ b'i' ∷ b'n' ∷ [];
  params = (b'#' ∷ b' ' ∷ b'h' ∷ []) ∷ (b'a' ∷ b' ' ∷ 0x0A ∷ b' ' ∷ b'b' ∷ []) ∷ [];
}

hostile_shown :
    show hostile
    ≡ b':' ∷ b'n' ∷ b'_' ∷ b'x' ∷ b' ' ∷ b'j' ∷ b'o' ∷ b'i' ∷ b'n' ∷ b' ' ∷ b'#' ∷ b'_' ∷ b'h'
      ∷ b' ' ∷ b':' ∷ b'a' ∷ b' ' ∷ b' ' ∷ b'b' ∷ []
unfolding show show_params show_prefix show_last scrub_irc join_words middle_param split_by
hostile_shown = refl

-- "@t=1;u :s TOPIC #a :b c".
tagged_parsed :
    parse (
      b'@' ∷ b't' ∷ b'=' ∷ b'1' ∷ b';' ∷ b'u' ∷ b' ' ∷ b':' ∷ b's' ∷ b' ' ∷ b't' ∷ b'o' ∷ b' '
      ∷ b'#' ∷ b'a' ∷ b' ' ∷ b':' ∷ b'b' ∷ b' ' ∷ b'c' ∷ 0x0D ∷ [])
    ≡ some (record {
      tags = (b't' ∷ [], some (b'1' ∷ [])) ∷ (b'u' ∷ [], none) ∷ [];
      prefix = some (b's' ∷ []);
      command = b'T' ∷ b'O' ∷ [];
      params = (b'#' ∷ b'a' ∷ []) ∷ (b'b' ∷ b' ' ∷ b'c' ∷ []) ∷ [];
    })
unfolding parse parse_tags parse_prefix parse_command parse_params split trim_line_end trim_spaces
    trim_start split_once
tagged_parsed = refl

parse-show_example :
    (parse (show hostile) ≡ some (received hostile))
    × (length (received hostile).params ≡ length hostile.params)
unfolding scrub_irc join_words split_by
parse-show_example = parse-show hostile refl

show-one_line_example :
    rfircd.Prelude.all (λ c. rfircd.Prelude.not (rfircd.Irc.Message.is_break c)) (show hostile)
    ≡ true
show-one_line_example = show-one_line hostile

-- An empty parameter between two others.
abbrev gapped : Text
gapped = b' ' ∷ b'a' ∷ b' ' ∷ b' ' ∷ b':' ∷ b'b' ∷ []

parse_params-Loop_example : Loop gapped (parse_params 6 gapped)
parse_params-Loop_example = parse_params-Loop 6 gapped (omega arith)

abbrev nick : Text
nick = b'[' ∷ b'a' ∷ b'1' ∷ b'-' ∷ []

abbrev channel : Text
channel = b'#' ∷ b'h' ∷ b'a' ∷ b'm' ∷ []

-- A name with a space that is not the ASCII one is a channel name, and is printed as another name.
spaced_name :
    (is_channel_name (b'#' ∷ b'a' ∷ 0xA0 ∷ b'b' ∷ []) ≡ true)
    × (middle_param (b'#' ∷ b'a' ∷ 0xA0 ∷ b'b' ∷ []) ≡ b'#' ∷ b'a' ∷ b'_' ∷ b'b' ∷ [])
unfolding is_channel_name str_len middle_param scrub_irc join_words split_by
spaced_name = (refl, refl)

action : parse_ctcp (1 ∷ b'A' ∷ b' ' ∷ b'x' ∷ 1 ∷ []) ≡ some (b'A' ∷ [], b'x' ∷ [])
unfolding parse_ctcp split_once
action = refl
