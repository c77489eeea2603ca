-- ===== src/Kiss/Bounds.antt =====
-- The limit of the KISS decoder of src/ax25/kiss.rs on its buffer and on the frames it gives.
use rfircd.Prelude.{ℕ, ◌+◌, ◌≤◌, ◌≡◌, [], ◌∷◌, arith, Bytes, length, length-append, All, All-append}
use rfircd.Kiss.{KissFrame, KissDecoder, take_frame, frame_list, unescape, store, step, push}

-- The buffer is within the limit.
pub record IsBounded (d : KissDecoder) : Type 0 where
  pub within : length d.buf ≤ d.max_frame

-- The frame has its type octet and its payload within the limit.
abbrev pub Within : ℕ → KissFrame → Type 0
Within m f = length f.payload + 1 ≤ m

frame_list-Within :
    (m : ℕ) (buf : Bytes) → length buf ≤ m → All (Within m) (frame_list (take_frame buf))
unfolding take_frame
frame_list-Within m [] h = tt
frame_list-Within m (x ∷ xs) h = (omega arith, tt)

step-IsBounded :
    (d : KissDecoder) (b : ℕ)
    → IsBounded d
    → IsBounded (step d b).0
      × ((step d b).0.max_frame ≡ d.max_frame)
      × All (Within d.max_frame) (step d b).1
unfolding step store unescape
step-IsBounded d b v = ground (
  arith,
  frame_list-Within d.max_frame d.buf v.within,
  length-append d.buf (b ∷ []),
  length-append d.buf (0xC0 ∷ []),
  length-append d.buf (0xDB ∷ []),
)

-- No sequence of octets makes the buffer larger than the limit, and every frame that comes out is
-- within it.
pub push-IsBounded :
    (d : KissDecoder) (bs : Bytes)
    → IsBounded d
    → IsBounded (push d bs).0 × All (Within d.max_frame) (push d bs).1
unfolding push
push-IsBounded d [] v = (v, tt)
push-IsBounded d (b ∷ bs) v =
    let s = step-IsBounded d b v in
    let r = push-IsBounded (step d b).0 bs s.0 in
    (r.0, All-append (Within d.max_frame) _ _ s.2 (rw s.1 at r.1))
