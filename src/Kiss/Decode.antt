-- ===== src/Kiss/Decode.antt =====
-- The KISS decoder of src/ax25/kiss.rs against its encoder: what `push` makes of an encoded frame,
-- of a stream of frames and of a stream that is cut anywhere, and the bound on its buffer.
use rfircd.Prelude.{
  ℕ, ◌≤◌, ◌≡◌, refl, sym, ap, ◌∙◌, inl, inr, Bool, true, false, List, [], ◌∷◌, ◌++◌, append-nil,
  append_assoc, arith, Bytes, leb, leb→gt, Bool-cases, if◌then◌else◌, length, length-append,
}
use rfircd.Kiss.{
  KissFrame, KissDecoder, fend, stuff, stuff_all, take_frame, frame_list, unescape, store, step,
  push,
}

-- The decoder between octets, with no escape pending.
abbrev pub at_octet : Bytes → Bool → ℕ → KissDecoder
at_octet buf in_frame m = record { buf = buf; in_frame = in_frame; escaped = false; max_frame = m }

-- Frames in front of what a call of `push` returns.
abbrev pub after : List KissFrame → KissDecoder × List KissFrame → KissDecoder × List KissFrame
after fs (d, out) = (d, fs ++ out)

after-after :
    (fs gs : List KissFrame) (r : KissDecoder × List KissFrame)
    → after fs (after gs r) ≡ after (fs ++ gs) r
after-after fs gs (d, out) = ap (λ o. (d, o)) (sym (append_assoc fs gs out))

-- However the octets are split between two calls, the frames and the final state are the same.
pub push-append :
    (d : KissDecoder) (xs ys : Bytes)
    → push d (xs ++ ys) ≡ after (push d xs).1 (push (push d xs).0 ys)
unfolding push
push-append d [] ys = refl
push-append d (x ∷ xs) ys =
    let (d', out) = step d x in
    ap (after out) (push-append d' xs ys) ∙ after-after out (push d' xs).1 (push (push d' xs).0 ys)

push-fend :
    (d : KissDecoder) (rest : Bytes)
    → push d (fend ∷ rest) ≡ after (step d fend).1 (push (at_octet [] true d.max_frame) rest)
unfolding push step
push-fend d rest = refl

-- A stuffed octet is stored as the octet.
push-stuff :
    (buf : Bytes) (b m : ℕ) (rest : Bytes)
    → push (at_octet buf true m) (stuff b ++ rest)
      ≡ push
          (if leb m (length buf) then at_octet [] false m else at_octet (buf ++ (b ∷ [])) true m)
          rest
unfolding push step stuff store unescape
push-stuff buf b m rest = ground arith

-- Outside a frame it is skipped.
push-stuff_skip :
    (b m : ℕ) (rest : Bytes)
    → push (at_octet [] false m) (stuff b ++ rest) ≡ push (at_octet [] false m) rest
unfolding push step stuff
push-stuff_skip b m rest = ground arith

-- Once a frame is over the limit, all is skipped up to its end.
push-stuff_all_skip :
    (bs : Bytes) (m : ℕ) (rest : Bytes)
    → push (at_octet [] false m) (stuff_all bs ++ (fend ∷ rest)) ≡ push (at_octet [] true m) rest
unfolding stuff_all
push-stuff_all_skip [] m rest = push-fend (at_octet [] false m) rest ∙ outside
  where
    outside :
        after (step (at_octet [] false m) fend).1 (push (at_octet [] true m) rest)
        ≡ push (at_octet [] true m) rest
    outside = unfold step in refl
push-stuff_all_skip (b ∷ bs) m rest =
    ap (λ w. push (at_octet [] false m) w) (append_assoc (stuff b) (stuff_all bs) (fend ∷ rest))
    ∙ push-stuff_skip b m (stuff_all bs ++ (fend ∷ rest))
    ∙ push-stuff_all_skip bs m rest

-- The frames that the octets of a whole frame give: none if they are more than the limit.
abbrev pub fitting : ℕ → Bytes → List KissFrame
fitting m octets = if leb (length octets) m then frame_list (take_frame octets) else []

-- The frame that a delimiter completes.
abbrev pub completed : KissDecoder → List KissFrame
completed d = if d.in_frame then frame_list (take_frame d.buf) else []

pub push-fend-completed :
    (d : KissDecoder) (rest : Bytes)
    → push d (fend ∷ rest) ≡ after (completed d) (push (at_octet [] true d.max_frame) rest)
push-fend-completed d rest =
    push-fend d rest
    ∙ ap (λ fs. after fs (push (at_octet [] true d.max_frame) rest)) (out d.in_frame d.buf)
  where
    out :
        (i : Bool) (buf : Bytes)
        → (step (record d { in_frame = i; buf = buf }) fend).1
          ≡ (if i then frame_list (take_frame buf) else [])
    out true [] = unfold step take_frame in refl
    out true (x ∷ xs) = unfold step take_frame in refl
    out false buf = unfold step in refl

pub push-stuff_all :
    (buf bs : Bytes) (m : ℕ) (rest : Bytes)
    → length buf ≤ m
    → push (at_octet buf true m) (stuff_all bs ++ (fend ∷ rest))
      ≡ after (fitting m (buf ++ bs)) (push (at_octet [] true m) rest)
unfolding stuff_all
push-stuff_all buf [] m rest h =
    push-fend-completed (at_octet buf true m) rest
    ∙ ap (λ fs. after fs (push (at_octet [] true m) rest)) fits
  where
    fits : frame_list (take_frame buf) ≡ fitting m (buf ++ [])
    fits = rw (append-nil buf) (ground arith)
push-stuff_all buf (b ∷ bs) m rest h =
    ap (λ w. push (at_octet buf true m) w) (append_assoc (stuff b) (stuff_all bs) (fend ∷ rest))
    ∙ push-stuff buf b m (stuff_all bs ++ (fend ∷ rest))
    ∙ elim (Bool-cases (leb m (length buf))) [
      | inl full ↦ rw full (
          push-stuff_all_skip bs m rest
          ∙ ap (λ fs. after fs (push (at_octet [] true m) rest)) (over full))
      | inr room ↦ rw room (
          push-stuff_all (buf ++ (b ∷ [])) bs m rest
            (omega (arith, length-append buf (b ∷ []), leb→gt m (length buf)))
          ∙ ap (λ w. after (fitting m w) (push (at_octet [] true m) rest))
              (append_assoc buf (b ∷ []) bs))
    ]
  where
    over : leb m (length buf) ≡ true → [] ≡ fitting m (buf ++ (b ∷ bs))
    over full = ground (arith, length-append buf (b ∷ bs))
