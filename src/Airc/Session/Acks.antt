-- ===== src/Airc/Session/Acks.antt =====
-- Acknowledgements in src/airc/session.rs: what is owed, what an ACK does to the message in flight,
-- and the frames that are sent again.
pub mod Progress
use rfircd.Prelude.{
  ℕ, zero, suc, ◌+◌, ◌*◌, ◌-◌, Bool, true, false, not, ◌&&◌, ◌||◌, List, [], ◌∷◌, ◌++◌, map, Option,
  none, some, Bytes, bit_or, min, ltb, leb, ◌==◌, if◌then◌else◌, length, replicate, all, drop,
}
use rfircd.Airc.Frame.{AircFrame, Kind, retry, to_be_bytes, from_be_bytes}
use rfircd.Airc.Frame
use rfircd.Airc.Session.{Pending, OwedAck, Peer, SessionConfig}
use rfircd.Airc.Session.Bitmap.{bit_set}

unfoldable pub ack_for : ℕ → AircFrame
ack_for seq = Frame.new Kind.ack seq (to_be_bytes seq)

unfoldable pub ack_with_bitmap : ℕ → Bytes → AircFrame
ack_with_bitmap seq bitmap = Frame.new Kind.ack seq (to_be_bytes seq ++ bitmap)

-- `OwedAck::to_frame`.
unfoldable pub to_frame : OwedAck → AircFrame
to_frame o = elim o.bitmap [ none ↦ ack_for o.seq | some b ↦ ack_with_bitmap o.seq b ]

unfoldable pub owe_ack : Peer → ℕ → Option Bytes → Peer
owe_ack peer seq bitmap = record peer { owed_ack = some (record { seq = seq; bitmap = bitmap }) }

unfoldable pub parse_ack_payload : Bytes → Option (ℕ × Option Bytes)
parse_ack_payload [] = none
parse_ack_payload (hi ∷ []) = none
parse_ack_payload (hi ∷ (lo ∷ [])) = some (from_be_bytes hi lo, none)
parse_ack_payload (hi ∷ (lo ∷ (b ∷ bits))) = some (from_be_bytes hi lo, some (b ∷ bits))

unfoldable pub start_pending : Peer → List AircFrame → Peer × List AircFrame
start_pending peer frames = (
  record peer {
    pending = some (record {
      frames = frames;
      acked = replicate (length frames) false;
      attempts = 0;
      next_retry = none;
    });
  },
  frames,
)

-- `queue.pop_front()`, and what it starts.
unfoldable pub start_next : Peer → Peer × List AircFrame
unfolding start_pending
start_next peer = elim peer.queue [
  | [] ↦ (peer, [])
  | next ∷ rest ↦ start_pending (record peer { queue = rest }) next
]

-- The bits of an ACK, from fragment `i` on: the flags after it, and whether one was new.
unfoldable pub mark_acked : Bytes → ℕ → List Bool → List Bool × Bool
mark_acked bits i [] = ([], false)
mark_acked bits i (flag ∷ flags) =
    let (rest, progress) = mark_acked bits (i + 1) flags in
    if bit_set bits i && not flag then (true ∷ rest, true) else (flag ∷ rest, progress)

-- `flags |= RETRY`.
unfoldable pub as_retry : AircFrame → AircFrame
as_retry f = record f { flags = bit_or f.flags retry }

-- The frames that are not acknowledged, marked as sent again. A frame with no flag counts as not
-- acknowledged.
unfoldable pub unacked : List AircFrame → List Bool → List AircFrame
unfolding as_retry
unacked [] acked = []
unacked (f ∷ fs) [] = as_retry f ∷ unacked fs []
unacked (f ∷ fs) (flag ∷ acked) = if flag then unacked fs acked else as_retry f ∷ unacked fs acked

-- `frames.first().map(|f| f.seq) == Some(seq)`.
unfoldable pub first_seq_is : List AircFrame → ℕ → Bool
first_seq_is [] seq = false
first_seq_is (f ∷ fs) seq = f.seq == seq

-- The message in flight is acknowledged: the next one starts.
unfoldable pub complete : Peer → Peer × List AircFrame
unfolding start_next
complete peer = start_next (record peer { pending = none })

-- A bitmap for the message in flight: the holes are sent again, if it says anything new.
unfoldable pub apply_bitmap : Peer → Pending → Bytes → Peer × List AircFrame
unfolding mark_acked complete
apply_bitmap peer pending bits =
    let (acked, progress) = mark_acked bits 0 pending.acked in
    if all (λ x. x) acked
    then complete peer
    else if progress
    then (
      record peer {
        pending = some (record pending { acked = acked; attempts = 0; next_retry = none });
      },
      unacked pending.frames acked,
    )
    else (record peer { pending = some (record pending { acked = acked }) }, [])

unfoldable pub apply_ack_pending : Peer → Pending → ℕ → Option Bytes → Peer × List AircFrame
unfolding apply_bitmap complete first_seq_is
apply_ack_pending peer pending seq bitmap =
    if not (first_seq_is pending.frames seq)
    then (peer, [])
    else elim bitmap [ none ↦ complete peer | some bits ↦ apply_bitmap peer pending bits ]

unfoldable pub apply_ack : Peer → ℕ → Option Bytes → Peer × List AircFrame
unfolding apply_ack_pending
apply_ack peer seq bitmap = elim peer.pending [
  | none ↦ (peer, [])
  | some pending ↦ apply_ack_pending peer pending seq bitmap
]

-- `remember_seq`: the queue of recent numbers, cut to the window from its front.
unfoldable pub remember : List ℕ → ℕ → ℕ → List ℕ
remember seen seq window = let all = seen ++ (seq ∷ []) in drop (length all - window) all

unfoldable pub backoff : SessionConfig → ℕ → ℕ
backoff cfg attempt = cfg.ack_timeout * min attempt 4
