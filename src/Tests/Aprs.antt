-- ===== src/Tests/Aprs.antt =====
-- APRS messages, src/aprs.rs, on concrete inputs.
use rfircd.Prelude.{◌≡◌, refl, [], ◌∷◌, true, some, ok, Bytes, Text}
use rfircd.Prelude.Chars.{trim, trim_start, trim_end, split_once, str_len}
use rfircd.Irc.Message.{is_channel_name}
use rfircd.Aprs.{
  AprsMessage, msgid_ok, ack_info, decode, control_msgid, addressed_to, split_channel_line,
}
use rfircd.Aprs.Control.{ack_info-control_msgid}
use rfircd.Tests.Samples.{alice, alice-IsValid}

abbrev number : Text
number = b'4' ∷ b'2' ∷ []

number-ok : msgid_ok number ≡ true
unfolding msgid_ok str_len
number-ok = refl

split_run :
    split_channel_line (b'#' ∷ b'r' ∷ b'f' ∷ b' ' ∷ b'h' ∷ b'i' ∷ b' ' ∷ []) []
    ≡ some (b'#' ∷ b'r' ∷ b'f' ∷ [], b'h' ∷ b'i' ∷ [])
unfolding split_channel_line trim trim_start trim_end split_once is_channel_name str_len
split_run = refl

ack_info-control_msgid_example :
    (info : Bytes) × (m : AprsMessage) × (ack_info alice number ≡ ok info)
    × (decode info ≡ some m)
    × (control_msgid m ≡ some number)
    × (addressed_to m alice ≡ true)
ack_info-control_msgid_example = ack_info-control_msgid alice number alice-IsValid number-ok
