-- ===== src/Airc/Session/Channels.antt =====
-- The public state of a station in src/airc/session.rs that its session does not use: the dialect,
-- the channels that it is in and was kicked from, and what is reported of it.
use rfircd.Prelude.{
  ℕ, ◌+◌, ◌≡◌, Bool, false, not, ◌&&◌, ◌||◌, List, [], ◌∷◌, Text, arith, if◌then◌else◌, length,
}
use rfircd.Prelude.Assoc.{is_some}
use rfircd.Prelude.Chars.{text_beq, text_beq_iff}
use rfircd.Airc.Session.{Peer, Dialect}

-- `HashSet::contains`.
unfoldable pub member : Text → List Text → Bool
member c [] = false
member c (d ∷ set) = text_beq d c || member c set

-- `HashSet::remove`.
unfoldable pub discard : Text → List Text → List Text
discard c [] = []
discard c (d ∷ set) = let rest = discard c set in if text_beq d c then rest else d ∷ rest

-- `HashSet::insert`.
unfoldable pub add : Text → List Text → List Text
unfolding member
add c set = if member c set then set else c ∷ set

unfoldable pub note_aprs : Peer → Peer
note_aprs p = elim p.dialect [
  | Dialect.airc ↦ p
  | Dialect.aprs ↦ record p { dialect = Dialect.aprs }
]

unfoldable pub was_kicked_from : Peer → Text → Bool
was_kicked_from p channel = member channel p.kicked

unfoldable pub mark_kicked : Peer → Text → Peer
unfolding add
mark_kicked p channel = record p {
  kicked = add channel p.kicked;
  channels = discard channel p.channels;
}

unfoldable pub clear_kicked : Peer → Text → Peer
clear_kicked p channel = record p { kicked = discard channel p.kicked }

unfoldable pub awaiting_ack : Peer → Bool
awaiting_ack p = is_some p.pending

unfoldable pub queue_depth : Peer → ℕ
queue_depth p = length p.queue + (if is_some p.pending then 1 else 0)

member-add : (c d : Text) (set : List Text) → member d (add c set) ≡ (text_beq c d || member d set)
unfolding add member
member-add c d set = ground (arith, text_beq_iff c d)

member-discard :
    (c d : Text) (set : List Text) → member d (discard c set) ≡ (not (text_beq c d) && member d set)
unfolding discard member
member-discard c d [] = ground arith
member-discard c d (e ∷ set) =
    ground (arith, member-discard c d set, text_beq_iff e c, text_beq_iff e d, text_beq_iff c d)

-- After a kick the station is out of that channel and counts as kicked from it, until the kick from
-- that very channel is cleared; every other channel is as it was, in both sets.
pub kicked_until_cleared :
    (p : Peer) (c d : Text)
    → (was_kicked_from (mark_kicked p c) d ≡ (text_beq c d || was_kicked_from p d))
      × (member d (mark_kicked p c).channels ≡ (not (text_beq c d) && member d p.channels))
      × (was_kicked_from (clear_kicked p c) d ≡ (not (text_beq c d) && was_kicked_from p d))
unfolding was_kicked_from mark_kicked clear_kicked
kicked_until_cleared p c d =
    (member-add c d p.kicked, member-discard c d p.channels, member-discard c d p.kicked)
