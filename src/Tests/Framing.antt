-- ===== src/Tests/Framing.antt =====
-- KISS, callsigns and AX.25, src/ax25/ and src/callsign.rs, on concrete inputs.
use rfircd.Prelude.{
  ◌≡◌, ◌≢◌, refl, [], ◌∷◌, none, some, Text, true, false, arith, inl, ok, Returns, All,
}
use rfircd.Prelude.Chars.{trim, trim_end, trim_start, str_len, show_u8}
use rfircd.Kiss
use rfircd.Kiss.{KissFrame, KissDecoder, encode, push}
use rfircd.Kiss.Stream.{encode_stream, concat, read_stream, read_stream-encode_stream}
use rfircd.Kiss.Bounds.{IsBounded, Within, push-IsBounded}
use rfircd.Callsign
use rfircd.Callsign.{to_nick, to_string, from_nick, from_str, reserved_from_nick}
use rfircd.Callsign.Valid.{IsValid, new-IsValid}
use rfircd.Callsign.Reserved.{reserved_from_nick-ne-none}
use rfircd.Irc.Casemap.{lower, lower_char}
use rfircd.Ax25.Frame
use rfircd.Ax25.Frame.{Ax25Frame, ui, to_monitor_line}
use rfircd.Ax25.Frame.Roundtrip.{IsConsistent, decode-encode_frame}
use rfircd.Ax25.Frame.Accepts.{decode_frame-Returns, decode-encode-decode, decode-encode-ui}
use rfircd.Tests.Samples.{
  alice, gateway, relay, alice-IsValid, gateway-IsValid, relay-IsValid, special, two_frames,
}

-- The decoder within a frame, after an escape.
abbrev in_escape : KissDecoder
in_escape = record { buf = 0x00 ∷ []; in_frame = true; escaped = true; max_frame = 8 }

encode_run : encode 0 0 special ≡ 0xC0 ∷ 0x00 ∷ 0xDB ∷ 0xDC ∷ 0x01 ∷ 0xDB ∷ 0xDD ∷ 0xC0 ∷ []
unfolding encode Kiss.stuff Kiss.stuff_all Kiss.type_octet
encode_run = refl

read_stream-encode_stream_example :
    read_stream (Kiss.new 8) (encode_stream two_frames ∷ [] ∷ []) ≡ two_frames
unfolding encode_stream Kiss.encode Kiss.stuff Kiss.stuff_all Kiss.type_octet concat
read_stream-encode_stream_example =
    read_stream-encode_stream 8 two_frames (encode_stream two_frames ∷ [] ∷ [])
      (
        record { port = omega arith; command = omega arith; size = omega arith },
        (record { port = omega arith; command = omega arith; size = omega arith }, tt),
      )
      refl

push-IsBounded_example :
    IsBounded (push in_escape (encode 0 0 special)).0
    × All (Within 8) (push in_escape (encode 0 0 special)).1
push-IsBounded_example =
    push-IsBounded in_escape (encode 0 0 special) (record { within = omega arith })

-- ` w1aw `, SSID 7.
new-IsValid_example : IsValid alice
unfolding Callsign.new Callsign.checked Callsign.find_char trim trim_end trim_start str_len
new-IsValid_example = new-IsValid (b' ' ∷ b'w' ∷ b'1' ∷ b'a' ∷ b'w' ∷ b' ' ∷ []) 7 {c = alice} refl

-- `w1aw\7`, which the case mapping cannot tell from `W1AW|7`.
abbrev imitation : Text
imitation = b'w' ∷ b'1' ∷ b'a' ∷ b'w' ∷ 0x5C ∷ b'7' ∷ []

reserved_from_nick-ne-none_example : reserved_from_nick imitation ≢ none
unfolding lower lower_char to_nick Callsign.looks_like_amateur_call str_len show_u8
reserved_from_nick-ne-none_example =
    reserved_from_nick-ne-none alice imitation alice-IsValid refl (inl refl)

abbrev hello_frame : Ax25Frame
hello_frame = record {
  destination = record { call = gateway; c_bit = true; last = false };
  source = record { call = alice; c_bit = false; last = false };
  digipeaters = record { call = relay; c_bit = false; last = false } ∷ [];
  control = 0x03;
  pid = some 0xF0;
  info = b'h' ∷ b'i' ∷ 0x0D ∷ [];
}

hello_frame-IsConsistent : IsConsistent hello_frame
hello_frame-IsConsistent = record {
  destination = record { call = gateway-IsValid; not_last = refl };
  source = record { call = alice-IsValid; not_last = refl };
  digipeaters = (record { call = relay-IsValid; not_last = refl }, tt);
  count = omega arith;
  pid = refl;
  info = inl refl;
}

ui_run : ui alice gateway (relay ∷ []) (b'h' ∷ b'i' ∷ 0x0D ∷ []) ≡ ok hello_frame
unfolding ui
ui_run = refl

decode_frame-Returns_example : Returns IsConsistent (Frame.decode special)
decode_frame-Returns_example = decode_frame-Returns special

decode-encode-ui_example : Frame.decode (Frame.encode hello_frame) ≡ ok hello_frame
decode-encode-ui_example =
    decode-encode-ui alice gateway (relay ∷ []) (b'h' ∷ b'i' ∷ 0x0D ∷ []) {f = hello_frame}
      alice-IsValid gateway-IsValid (relay-IsValid, tt) ui_run

hello_frame_run : Frame.decode (Frame.encode hello_frame) ≡ ok hello_frame
hello_frame_run = decode-encode_frame hello_frame hello_frame-IsConsistent

decode-encode-decode_example : Frame.decode (Frame.encode hello_frame) ≡ ok hello_frame
decode-encode-decode_example =
    decode-encode-decode (Frame.encode hello_frame) {f = hello_frame} hello_frame_run
