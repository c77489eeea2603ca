-- ===== src/Irc/Casemap.antt =====
-- RFC 1459 case mapping, `lower` of src/irc/message.rs.
use rfircd.Prelude.{ℕ, ◌+◌, map, Text, ◌==◌, if◌then◌else◌}
use rfircd.Prelude.Chars.{is_ascii_upper}

unfoldable pub lower_char : ℕ → ℕ
lower_char c =
    if is_ascii_upper c
    then c + 32
    else if c == b'['
    then b'{'
    else if c == b']'
    then b'}'
    else if c == 0x5C
    then b'|'
    else if c == b'~'
    then b'^'
    else c

unfoldable pub lower : Text → Text
lower s = map lower_char s
