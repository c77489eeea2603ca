-- ===== src/Airc/Session/Acks/Progress.antt =====
-- What an acknowledgement releases in src/airc/session.rs, `apply_ack` with the bitmap of a receiver.
use rfircd.Prelude.{
  ℕ, suc, ◌+◌, ◌≡◌, refl, ap, ◌∙◌, true, false, List, [], ◌∷◌, map, Option, none, some, Bytes,
  arith, length, replicate, all, any,
}
use rfircd.Prelude.Assoc.{is_some}
use rfircd.Airc.Frame.{AircFrame}
use rfircd.Airc.Session.{Pending, Peer}
use rfircd.Airc.Session.Bitmap.{bit_set, bitmap_from_parts, present, bit_set-bitmap_from_parts}
use rfircd.Airc.Session.Acks.{
  mark_acked, as_retry, unacked, first_seq_is, apply_bitmap, apply_ack_pending, apply_ack,
}

-- The frames whose fragment is not among the parts, marked as sent again.
unfoldable pub missing : List AircFrame → List (Option Bytes) → List AircFrame
missing [] parts = []
missing (f ∷ fs) [] = as_retry f ∷ missing fs []
missing (f ∷ fs) (none ∷ ps) = as_retry f ∷ missing fs ps
missing (f ∷ fs) (some p ∷ ps) = missing fs ps

mark_acked-parts :
    (bits : Bytes) (i : ℕ) (ps : List (Option Bytes))
    → ((j : ℕ) → bit_set bits (i + j) ≡ present ps j)
    → mark_acked bits i (replicate (length ps) false) ≡ (map is_some ps, any is_some ps)
unfolding mark_acked
mark_acked-parts bits i [] h = refl
mark_acked-parts bits i (p ∷ ps) h =
    let here : i ≡ i + 0 = omega arith in
    let first : bit_set bits i ≡ is_some p = ap (bit_set bits) here ∙ h 0 ∙ refl in
    let rest =
      mark_acked-parts bits (i + 1) ps
        λ j. let next : i + 1 + j ≡ i + suc j = omega arith in ap (bit_set bits) next ∙ h (suc j) in
    rw (rest, first) (ground arith)

unacked-missing :
    (fs : List AircFrame) (ps : List (Option Bytes)) → unacked fs (map is_some ps) ≡ missing fs ps
unfolding unacked missing
unacked-missing [] ps = refl
unacked-missing (f ∷ fs) [] = ap (λ r. as_retry f ∷ r) (unacked-missing fs [])
unacked-missing (f ∷ fs) (none ∷ ps) = ap (λ r. as_retry f ∷ r) (unacked-missing fs ps)
unacked-missing (f ∷ fs) (some p ∷ ps) = unacked-missing fs ps

all-map : (ps : List (Option Bytes)) → all (λ x. x) (map is_some ps) ≡ all is_some ps
all-map [] = refl
all-map (none ∷ ps) = refl
all-map (some p ∷ ps) = all-map ps

module _ (p : Peer) (f : Pending) (seq : ℕ) (parts : List (Option Bytes))
    (flight : p.pending ≡ some f) (mine : first_seq_is f.frames seq ≡ true)
    (fresh : f.acked ≡ replicate (length parts) false) where
  marked : mark_acked (bitmap_from_parts parts) 0 f.acked ≡ (map is_some parts, any is_some parts)
  marked = rw fresh (
      mark_acked-parts (bitmap_from_parts parts) 0 parts λ j.
        let same : 0 + j ≡ j = omega arith in
        ap (bit_set (bitmap_from_parts parts)) same ∙ bit_set-bitmap_from_parts parts j)

  -- The receiver of a fragmented message has some of its parts and not others, and the sender knows
  -- of none: the ACK with the receiver's bitmap makes the sender send exactly the missing fragments
  -- again, each marked as a retry, note the others as acknowledged, and start counting attempts anew.
  pub selective_retransmission :
      any is_some parts ≡ true
      → all is_some parts ≡ false
      → apply_ack p seq (some (bitmap_from_parts parts)) ≡ (
        record p {
          pending = some (record f { acked = map is_some parts; attempts = 0; next_retry = none });
        },
        missing f.frames parts,
      )
  unfolding apply_ack apply_ack_pending apply_bitmap
  selective_retransmission some_part not_all =
      rw
        (
          apply_ack,
          flight,
          apply_ack_pending,
          mine,
          apply_bitmap,
          marked,
          all-map parts,
          not_all,
          some_part,
          unacked-missing f.frames parts,
        )
        refl

  -- A bitmap with every part does what an ACK for the whole message does: the next message starts.
  pub full_bitmap :
      all is_some parts ≡ true
      → apply_ack p seq (some (bitmap_from_parts parts)) ≡ apply_ack p seq none
  unfolding apply_ack apply_ack_pending apply_bitmap
  full_bitmap every =
      rw (apply_ack, flight, apply_ack_pending, mine, apply_bitmap, marked, all-map parts, every)
        refl
