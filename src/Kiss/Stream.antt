-- ===== src/Kiss/Stream.antt =====
-- Whole frames and streams of frames through the KISS encoder and decoder of src/ax25/kiss.rs.
use rfircd.Prelude.{
  ℕ, ◌+◌, ◌*◌, ◌%◌, ◌/◌, ◌≤◌, ◌<◌, ◌≡◌, refl, sym, ap, ◌∙◌, true, false, List, [], ◌∷◌, ◌++◌,
  append-nil, append_assoc, arith, Bytes, leb, if◌then◌else◌, length, All,
}
use rfircd.Prelude.Bits.{bit_and_0x0F, nibbles_or}
use rfircd.Kiss.{
  KissFrame, KissDecoder, fend, new, stuff, stuff_all, type_octet, encode, take_frame, frame_list,
  push,
}
use rfircd.Kiss.Decode.{
  at_octet, after, completed, fitting, push-append, push-fend-completed, push-stuff_all,
}

-- The octets of a frame as the decoder stores them.
type_octet_lem :
    (port command : ℕ)
    → port < 256
    → command < 256
    → type_octet port command ≡ port % 16 * 16 + command % 16
unfolding type_octet
type_octet_lem port command hp hc =
    rw (bit_and_0x0F port hp, bit_and_0x0F command hc)
      (nibbles_or (port % 16) (command % 16) (omega arith) (omega arith))

-- The frame that `encode port command payload` stands for.
abbrev pub frame : ℕ → ℕ → Bytes → KissFrame
frame port command payload = record { port = port % 16; command = command % 16; payload = payload }

take_frame-type_octet :
    (port command : ℕ) (payload : Bytes)
    → port < 256
    → command < 256
    → frame_list (take_frame (type_octet port command ∷ payload)) ≡ frame port command payload ∷ []
unfolding take_frame
take_frame-type_octet port command payload hp hc =
    let t = port % 16 * 16 + command % 16 in
    let a : t / 16 ≡ port % 16 = omega arith in
    let b : t % 16 ≡ command % 16 = omega arith in
    rw (type_octet_lem port command hp hc, bit_and_0x0F t (omega arith)) (rw (a, b) refl)

encode_lem :
    (port command : ℕ) (payload : Bytes)
    → encode port command payload
      ≡ fend ∷ (stuff_all (type_octet port command ∷ payload) ++ (fend ∷ []))
unfolding encode stuff_all
encode_lem port command payload =
    ap (λ w. fend ∷ w) (sym (append_assoc (stuff (type_octet port command)) (stuff_all payload) _))

push-octets :
    (d : KissDecoder) (octets : Bytes)
    → push d (fend ∷ (stuff_all octets ++ (fend ∷ [])))
      ≡ (at_octet [] true d.max_frame, completed d ++ fitting d.max_frame octets)
push-octets d octets =
    push-fend-completed d _
    ∙ ap (after (completed d)) (push-stuff_all [] octets d.max_frame [] (omega arith) ∙ ends)
  where
    ends :
        after (fitting d.max_frame octets) (push (at_octet [] true d.max_frame) [])
        ≡ (at_octet [] true d.max_frame, fitting d.max_frame octets)
    ends =
        unfold push in
        ap (λ fs. (at_octet [] true d.max_frame, fs)) (append-nil (fitting d.max_frame octets))

-- From any state of the decoder, an encoded frame completes what was buffered and then gives
-- itself, with the low nibbles of its port and command, if it is within the limit; over the limit
-- it gives nothing. Either way the decoder is left at the start of a frame.
pub push-encode :
    (d : KissDecoder) (port command : ℕ) (payload : Bytes)
    → port < 256
    → command < 256
    → push d (encode port command payload) ≡ (
      record d { buf = []; in_frame = true; escaped = false },
      completed d
          ++ (if leb (length payload + 1) d.max_frame then frame port command payload ∷ [] else []),
    )
push-encode d port command payload hp hc =
    ap (push d) (encode_lem port command payload)
    ∙ push-octets d (type_octet port command ∷ payload)
    ∙ ap (λ fs. (at_octet [] true d.max_frame, completed d ++ fs))
        (ground (arith, take_frame-type_octet port command payload hp hc))

-- A frame that an encoder can be given and that a decoder with this limit accepts.
pub record IsSound (m : ℕ) (f : KissFrame) : Type 0 where
  pub port : f.port < 16
  pub command : f.command < 16
  pub size : length f.payload + 1 ≤ m

-- The octets of frames sent one after the other.
unfoldable pub encode_stream : List KissFrame → Bytes
encode_stream [] = []
encode_stream (f ∷ fs) = encode f.port f.command f.payload ++ encode_stream fs

-- The frames from a sequence of reads, each given to `push` as it arrives.
pub read_stream : KissDecoder → List Bytes → List KissFrame
read_stream d [] = []
read_stream d (r ∷ rs) = let (d', out) = push d r in out ++ read_stream d' rs

unfoldable pub concat : List Bytes → Bytes
concat [] = []
concat (r ∷ rs) = r ++ concat rs

push_sound :
    (d : KissDecoder) (f : KissFrame)
    → IsSound d.max_frame f
    → completed d ≡ []
    → push d (encode f.port f.command f.payload) ≡ (at_octet [] true d.max_frame, f ∷ [])
push_sound d f s idle =
    push-encode d f.port f.command f.payload (omega (arith, s.port)) (omega (arith, s.command))
    ∙ ground arith

push-encode_stream :
    (fs : List KissFrame) (d : KissDecoder)
    → All (IsSound d.max_frame) fs
    → completed d ≡ []
    → (push d (encode_stream fs)).1 ≡ fs
unfolding encode_stream take_frame
push-encode_stream [] d s idle = unfold push in refl
push-encode_stream (f ∷ fs) d s idle =
    rw
      (
        push-append d (encode f.port f.command f.payload) (encode_stream fs),
        push_sound d f s.0 idle,
      )
      (ap (λ r. f ∷ r) (push-encode_stream fs (at_octet [] true d.max_frame) s.1 refl))

read_stream-push : (rs : List Bytes) (d : KissDecoder) → read_stream d rs ≡ (push d (concat rs)).1
unfolding read_stream concat
read_stream-push [] d = unfold push in refl
read_stream-push (r ∷ rs) d =
    rw (push-append d r (concat rs))
      (ap (λ o. (push d r).1 ++ o) (read_stream-push rs (push d r).0))

-- A new decoder gives back exactly the frames that were sent, in order, wherever the reads cut the
-- stream, if each frame has a port and a command below 16 and is within the limit.
pub read_stream-encode_stream :
    (m : ℕ) (fs : List KissFrame) (reads : List Bytes)
    → All (IsSound m) fs
    → concat reads ≡ encode_stream fs
    → read_stream (new m) reads ≡ fs
read_stream-encode_stream m fs reads s cut =
    read_stream-push reads (new m)
    ∙ ap (λ w. (push (new m) w).1) cut
    ∙ (unfold new in push-encode_stream fs (new m) s refl)
