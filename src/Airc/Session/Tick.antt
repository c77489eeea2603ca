-- ===== src/Airc/Session/Tick.antt =====
-- The timers of src/airc/session.rs, `tick_retries`: reassembly that ran out of time, stations that
-- went quiet, retransmission and giving up. The loop over the table is a recursion on it.
pub mod Retries
use rfircd.Prelude.{
  ℕ, zero, suc, ◌+◌, ◌-◌, Bool, true, false, not, ◌&&◌, ◌||◌, List, [], ◌∷◌, ◌++◌, map, Option,
  none, some, ltb, leb, ◌==◌, if◌then◌else◌,
}
use rfircd.Prelude.Assoc.{lookup, insert, remove}
use rfircd.Callsign.{Callsign, callsign_eq}
use rfircd.Airc.Frame.{AircFrame}
use rfircd.Airc.Session.{Pending, Reassembly, Peer, SessionConfig}
use rfircd.Airc.Session.Bitmap.{bitmap_from_parts}
use rfircd.Airc.Session.Acks.{ack_with_bitmap, start_pending, unacked, backoff}
use rfircd.Airc.Session.Table.{Sessions}

-- The entries that are left, and the ACKs for those that ran out of time. `duration_since` stops at
-- 0, as `-` does.
unfoldable pub expire_reasm :
    SessionConfig → ℕ → List (ℕ × Reassembly) → List (ℕ × Reassembly) × List AircFrame
expire_reasm cfg now [] = ([], [])
expire_reasm cfg now ((seq, r) ∷ m) =
    let (rest, out) = expire_reasm cfg now m in
    if leb cfg.reassembly_timeout (now - r.started)
    then (rest, if r.want_ack then ack_with_bitmap seq (bitmap_from_parts r.parts) ∷ out else out)
    else ((seq, r) ∷ rest, out)

-- What becomes of a station in one round.
pub data Fate : Type 0 where
  stays lost gives_up : Fate

-- The message in flight, with retries allowed.
unfoldable pub retry_pending : SessionConfig → ℕ → Peer → Pending → Peer × List AircFrame × Fate
retry_pending cfg now p pending = elim pending.next_retry [
  | none ↦ (p, [], stays)
  | some deadline ↦
      if ltb now deadline
      then (p, [], stays)
      else if leb cfg.max_retries pending.attempts
      then (p, [], gives_up)
      else (
        record p {
          pending = some (record pending {
            attempts = pending.attempts + 1;
            next_retry = some (now + backoff cfg (pending.attempts + 1));
          });
        },
        unacked pending.frames pending.acked,
        stays,
      )
]

unfoldable pub tick_pending : SessionConfig → ℕ → Bool → Peer → Peer × List AircFrame × Fate
unfolding retry_pending
tick_pending cfg now retry p =
    if ltb cfg.peer_idle_timeout (now - p.last_heard)
    then (p, [], lost)
    else if not retry
    then (p, [], stays)
    else elim p.pending [ none ↦ (p, [], stays) | some pending ↦ retry_pending cfg now p pending ]

unfoldable pub tick_peer : SessionConfig → ℕ → Bool → Peer → Peer × List AircFrame × Fate
unfolding tick_pending expire_reasm
tick_peer cfg now retry p =
    let (reasm, acks) = expire_reasm cfg now p.reasm in
    let (p', frames, fate) = tick_pending cfg now retry (record p { reasm = reasm }) in
    (p', acks ++ frames, fate)

pub record TickOutcome : Type 0 where
  pub transmit : List (Callsign × AircFrame)
  pub lost : List Callsign

abbrev pub to : Callsign → List AircFrame → List (Callsign × AircFrame)
to call frames = map (λ f. (call, f)) frames

-- The first loop: the table after it, its outcome, and the stations to give up.
unfoldable pub tick_peers :
    SessionConfig
    → ℕ
    → Bool
    → List (Callsign × Peer)
    → List (Callsign × Peer) × TickOutcome × List Callsign
unfolding tick_peer
tick_peers cfg now retry [] = ([], record { transmit = []; lost = [] }, [])
tick_peers cfg now retry ((c, p) ∷ m) =
    let (rest, out, giving_up) = tick_peers cfg now retry m in
    let (p', frames, fate) = tick_peer cfg now retry p in
    (
      (c, p') ∷ rest,
      record {
        transmit = to c frames ++ out.transmit;
        lost = elim fate [ lost ↦ c ∷ out.lost | _ ↦ out.lost ];
      },
      elim fate [ gives_up ↦ c ∷ giving_up | _ ↦ giving_up ],
    )

-- The message in flight is dropped; the next one starts, or the station is lost.
unfoldable pub give_up_peer : Peer → Peer × List AircFrame × Bool
unfolding start_pending
give_up_peer p =
    let dropped = record p { pending = none; dropped = p.dropped + 1 } in
    elim p.queue [
      | [] ↦ (dropped, [], true)
      | next ∷ rest ↦
          let (p', frames) = start_pending (record dropped { queue = rest }) next in
          (p', frames, false)
    ]

-- The second loop.
unfoldable pub give_up_all :
    List Callsign → List (Callsign × Peer) → TickOutcome → List (Callsign × Peer) × TickOutcome
unfolding give_up_peer
give_up_all [] peers out = (peers, out)
give_up_all (c ∷ cs) peers out = elim (lookup c peers) [
  | none ↦ give_up_all cs peers out
  | some p ↦
      let (p', frames, is_lost) = give_up_peer p in
      give_up_all cs (insert c p' peers) (record {
        transmit = out.transmit ++ to c frames;
        lost = if is_lost then out.lost ++ (c ∷ []) else out.lost;
      })
]

unfoldable pub remove_all : List Callsign → List (Callsign × Peer) → List (Callsign × Peer)
remove_all [] peers = peers
remove_all (c ∷ cs) peers = remove_all cs (remove c peers)

unfoldable pub tick_retries : Sessions → ℕ → Bool → Sessions × TickOutcome
unfolding tick_peers give_up_all remove_all
tick_retries s now retry =
    let (peers, out, giving_up) = tick_peers s.config now retry s.peers in
    let (peers', out') = give_up_all giving_up peers out in
    (record s { peers = remove_all out'.lost peers' }, out')

unfoldable pub tick : Sessions → ℕ → Sessions × TickOutcome
unfolding tick_retries
tick s now = tick_retries s now true
