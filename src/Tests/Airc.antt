-- ===== src/Tests/Airc.antt =====
-- AIRC frames and sessions, src/airc/, on concrete inputs.
use rfircd.Prelude.{◌≡◌, refl, [], ◌∷◌, Bytes, true, arith, ok, Returns}
use rfircd.Airc.Frame
use rfircd.Airc.Frame.{
  AircFrame, Kind, allowed, encode, decode, sent_flags, split_fields, encode_fields,
}
use rfircd.Airc.Frame.Roundtrip.{decode-encode_airc}
use rfircd.Airc.Frame.Accepts.{IsReceived, decode_airc-Returns}
use rfircd.Airc.Session.{default, max_payload, SessionConfig, Peer, new_peer}
use rfircd.Airc.Session.Bitmap.{bit_set, bitmap_from_parts, present, bit_set-bitmap_from_parts}
use rfircd.Airc.Session.Chunk.{chunk_payload, join, join-chunk_payload}
use rfircd.Airc.Session.Receive.Limits.{IsLimited}
use rfircd.Tests.Samples.{alice, hi, holes, config}

abbrev hi_octets : Bytes
hi_octets = 0x41 ∷ 0x31 ∷ 0x05 ∷ 0x09 ∷ 0x03 ∷ 0xE8 ∷ 0 ∷ 1 ∷ 0xFF ∷ 0xFF ∷ b'h' ∷ b'i' ∷ []

encode_run : encode hi ≡ hi_octets
unfolding encode Frame.kind_octet sent_flags
encode_run = refl

decode-encode_airc_example : decode (encode hi) ≡ ok (record hi { flags = 0x09 })
unfolding sent_flags
decode-encode_airc_example =
    decode-encode_airc hi
      (record { flags = omega arith; seq = omega arith; index = omega arith; total = omega arith })
      (omega arith)

decode_airc-Returns_example : Returns (IsReceived hi_octets) (decode hi_octets)
decode_airc-Returns_example = decode_airc-Returns hi_octets (ground arith)

bitmap_run : bitmap_from_parts holes ≡ 0x05 ∷ []
unfolding bitmap_from_parts rfircd.Airc.Session.Bitmap.mark_parts rfircd.Airc.Session.Bitmap.mark
bitmap_run = refl

join-chunk_payload_example :
    join (chunk_payload (1 ∷ 2 ∷ 3 ∷ 4 ∷ 5 ∷ []) 2 true) ≡ 1 ∷ 2 ∷ 3 ∷ 4 ∷ 5 ∷ []
join-chunk_payload_example = join-chunk_payload (1 ∷ 2 ∷ 3 ∷ 4 ∷ 5 ∷ []) 2 true (omega arith)

new_peer-IsLimited : IsLimited config (new_peer alice 0)
unfolding new_peer
new_peer-IsLimited = record {
  queue = omega arith;
  seen = omega arith;
  reasm = omega arith;
  flight = tt;
}

-- The second fragment of three.
abbrev part_of_msg : AircFrame
part_of_msg = record hi { frag_index = 1; frag_total = 3 }

default_run : max_payload default ≡ 120
unfolding max_payload
default_run = refl
