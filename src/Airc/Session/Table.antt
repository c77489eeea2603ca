-- ===== src/Airc/Session/Table.antt =====
-- The table of stations in src/airc/session.rs: sequence numbers, who is in the table, reception and
-- sending. `&mut self` is the table passed in and out.
pub mod Bounds
pub mod Steps
pub mod Rounds
use rfircd.Prelude.{
  ℕ, zero, suc, ◌+◌, ◌-◌, ◌%◌, Bool, true, false, not, ◌&&◌, ◌||◌, List, [], ◌∷◌, ◌++◌, map, Option,
  none, some, Bytes, bit_or, ltb, leb, ◌==◌, if◌then◌else◌, length, any,
}
use rfircd.Prelude.Assoc.{lookup, insert, remove, is_some, min_by_key}
use rfircd.Callsign.{Callsign, callsign_eq, callsign_beq}
use rfircd.Airc.Frame.{AircFrame, Kind, ack_req, attach_piggyback}
use rfircd.Airc.Frame
use rfircd.Airc.Session.{Pending, OwedAck, Peer, SessionConfig, new_peer, max_payload}
use rfircd.Airc.Session.Chunk.{chunk_payload}
use rfircd.Airc.Session.Acks.{to_frame, start_pending, first_seq_is, backoff}
use rfircd.Airc.Session.Receive.{RxOutcome, no_outcome, receive}

pub record Sessions : Type 0 where
  pub config : SessionConfig
  pub peers : List (Callsign × Peer)
  pub next_seq : ℕ
  pub evicted : List Callsign
  pub radio_kicked : List Callsign

-- `Sessions::new`.
unfoldable pub new : SessionConfig → Sessions
new config = record { config = config; peers = []; next_seq = 1; evicted = []; radio_kicked = [] }

-- `next_seq`: the number, and the table with the one after it. 0 is left out.
unfoldable pub take_seq : Sessions → ℕ × Sessions
take_seq s =
    let next = (s.next_seq + 1) % 65536 in
    (s.next_seq, record s { next_seq = if next == 0 then 1 else next })

unfoldable pub take_evicted : Sessions → List Callsign × Sessions
take_evicted s = (s.evicted, record s { evicted = [] })

unfoldable pub is_banned : Sessions → Callsign → Bool
is_banned s call = any (callsign_beq call) s.radio_kicked

unfoldable pub ban : Sessions → Callsign → Sessions
unfolding is_banned
ban s call = if is_banned s call then s else record s { radio_kicked = call ∷ s.radio_kicked }

unfoldable pub without : Callsign → List Callsign → List Callsign
without call [] = []
without call (c ∷ cs) = if callsign_beq call c then without call cs else c ∷ without call cs

unfoldable pub lift_ban : Sessions → Callsign → Sessions
unfolding without
lift_ban s call = record s { radio_kicked = without call s.radio_kicked }

unfoldable pub peer : Sessions → Callsign → Option Peer
peer s call = lookup call s.peers

-- A write through `&mut Peer`.
unfoldable pub put_peer : Sessions → Callsign → Peer → Sessions
put_peer s call p = record s { peers = insert call p s.peers }

-- `entry(call).or_insert_with(...)`, heard now.
abbrev pub heard : Callsign → ℕ → Option Peer → Peer
heard call now none = new_peer call now
heard call now (some p) = record p { last_heard = now }

unfoldable pub touch : Sessions → Callsign → ℕ → Option (Peer × Sessions)
unfolding put_peer
touch s call now =
    if not (is_some (lookup call s.peers)) && leb s.config.max_peers (length s.peers)
    then none
    else (let p = heard call now (lookup call s.peers) in some (p, put_peer s call p))

unfoldable pub evict_quietest : Sessions → Sessions
evict_quietest s = elim (min_by_key (λ p. p.last_heard) s.peers) [
  | none ↦ s
  | some (c, _) ↦ record s { peers = remove c s.peers; evicted = s.evicted ++ (c ∷ []) }
]

unfoldable pub force_touch : Sessions → Callsign → ℕ → Option (Peer × Sessions)
unfolding touch evict_quietest
force_touch s call now =
    if s.config.max_peers == 0
    then none
    else if not (is_some (lookup call s.peers)) && leb s.config.max_peers (length s.peers)
    then touch (evict_quietest s) call now
    else touch s call now

unfoldable pub forget : Sessions → Callsign → Sessions
forget s call = record s { peers = remove call s.peers }

unfoldable pub on_receive : Sessions → Callsign → AircFrame → ℕ → Bool → Sessions × RxOutcome
unfolding touch
on_receive s src frame now addressed = elim (touch s src now) [
  | none ↦ (s, no_outcome)
  | some (p, s') ↦
      let (p', out) = receive s.config p frame now addressed in (put_peer s' src p', out)
]

-- `drain_acks`: every owed ACK, taken from its peer.
unfoldable pub drain_peers :
    List (Callsign × Peer) → List (Callsign × Peer) × List (Callsign × AircFrame)
drain_peers [] = ([], [])
drain_peers ((c, p) ∷ m) =
    let (rest, out) = drain_peers m in
    elim p.owed_ack [
      | none ↦ ((c, p) ∷ rest, out)
      | some o ↦ ((c, record p { owed_ack = none }) ∷ rest, (c, to_frame o) ∷ out)
    ]

unfoldable pub drain_acks : Sessions → Sessions × List (Callsign × AircFrame)
unfolding drain_peers
drain_acks s = let (peers, out) = drain_peers s.peers in (record s { peers = peers }, out)

unfoldable pub can_accept : Sessions → Callsign → Bool
can_accept s dst = elim (lookup dst s.peers) [
  | none ↦ true
  | some p ↦ if is_some p.pending then ltb (length p.queue) s.config.max_queue else true
]

pub record SendOutcome : Type 0 where
  pub frames : List AircFrame
  pub accepted : Bool

-- `SendOutcome::dropped()`.
abbrev pub dropped : SendOutcome
dropped = record { frames = []; accepted = false }

-- The complete ACK that the message can carry, and the peer without it.
unfoldable pub take_piggyback : SessionConfig → Peer → Bool → Option ℕ × Peer
take_piggyback cfg p reliable =
    if (not reliable || not (is_some p.pending)) && reliable && ltb 2 (max_payload cfg)
    then elim p.owed_ack [
      | none ↦ (none, p)
      | some o ↦ if is_some o.bitmap then (none, p) else (some o.seq, record p { owed_ack = none })
    ]
    else (none, p)

-- An ACK that was taken and is not carried after all.
abbrev pub give_back : Option ℕ → Peer → Peer
give_back none p = p
give_back (some seq) p = record p { owed_ack = some (record { seq = seq; bitmap = none }) }

-- The fragments from number `i` on of `total`.
unfoldable pub fragments : Kind → ℕ → Bool → ℕ → ℕ → List Bytes → List AircFrame
fragments kind seq reliable total i [] = []
fragments kind seq reliable total i (c ∷ cs) =
    let f = Frame.new kind seq c in
    record f {
      frag_index = i;
      frag_total = total;
      flags = if reliable then bit_or f.flags ack_req else f.flags;
    }
    ∷ fragments kind seq reliable total (i + 1) cs

abbrev pub attach_first : Option ℕ → List AircFrame → List AircFrame
attach_first (some acked) (f ∷ fs) = attach_piggyback f acked ∷ fs
attach_first _ fs = fs

-- `enqueue` on the peer that `force_touch` returned.
unfoldable pub enqueue_peer : SessionConfig → Peer → Kind → ℕ → Bytes → Bool → Peer × SendOutcome
unfolding take_piggyback fragments start_pending
enqueue_peer cfg p0 kind seq payload reliable =
    let (piggy, p) = take_piggyback cfg p0 reliable in
    let chunks = chunk_payload payload (max_payload cfg) (is_some piggy) in
    let frames = fragments kind seq reliable (length chunks) 0 chunks in
    if ltb 255 (length chunks)
    then (record (give_back piggy p) { dropped = p.dropped + 1 }, dropped)
    else if not reliable
    then (p, record { frames = frames; accepted = true })
    else if is_some p.pending
    then (let back = give_back piggy p in
        if leb cfg.max_queue (length p.queue)
        then (record back { dropped = p.dropped + 1 }, dropped)
        else (
          record back { queue = p.queue ++ (frames ∷ []) },
          record { frames = []; accepted = true },
        ))
    else (let (sent, out) = start_pending p frames in
        (sent, record { frames = attach_first piggy out; accepted = true }))

unfoldable pub enqueue : Sessions → Callsign → Kind → Bytes → Bool → ℕ → Sessions × SendOutcome
unfolding take_seq force_touch
enqueue s dst kind payload reliable now =
    let (seq, s') = take_seq s in
    elim (force_touch s' dst now) [
      | none ↦ (s', dropped)
      | some (p, s'') ↦
          let (p', out) = enqueue_peer s.config p kind seq payload reliable in
          (put_peer s'' dst p', out)
    ]

unfoldable pub send : Sessions → Callsign → Kind → Bytes → Bool → ℕ → Sessions × List AircFrame
unfolding enqueue
send s dst kind payload reliable now =
    let (s', out) = enqueue s dst kind payload reliable now in (s', out.frames)

-- The frame of the message in flight was keyed: its clock starts now.
unfoldable pub keyed_peer : SessionConfig → Peer → ℕ → ℕ → Peer
keyed_peer cfg p seq now = elim p.pending [
  | none ↦ p
  | some pending ↦ if not (first_seq_is pending.frames seq) then p else record p {
    pending = some (record pending {
      next_retry = some (now + backoff cfg (if pending.attempts == 0 then 1 else pending.attempts));
    });
  }
]

unfoldable pub on_keyed : Sessions → Callsign → ℕ → ℕ → Sessions
unfolding keyed_peer
on_keyed s dest seq now = elim (lookup dest s.peers) [
  | none ↦ s
  | some p ↦ put_peer s dest (keyed_peer s.config p seq now)
]
