-- ===== src/Airc/Session/Table/Steps.antt =====
-- The operations on one station of the table in src/airc/session.rs against its limits: `on_receive`,
-- `enqueue` and `on_keyed`.
use rfircd.Prelude.{
  ℕ, ◌+◌, ◌≤◌, ◌≡◌, refl, sym, ◌∙◌, inl, inr, Bool, false, not, ◌&&◌, List, [], ◌∷◌, ◌++◌, Option,
  none, some, Bytes, arith, leb, length, length-append, length-replicate, Bool-cases, Option-cases,
  subst,
}
use rfircd.Prelude.Assoc.{lookup, insert, is_some, lookup-insert, All-lookup}
use rfircd.Callsign.{Callsign, callsign_eq, callsign_beq}
use rfircd.Airc.Frame.{AircFrame, Kind}
use rfircd.Airc.Session.{Peer, SessionConfig, max_payload}
use rfircd.Airc.Session.Chunk.{chunk_payload}
use rfircd.Airc.Session.Acks.{start_pending, first_seq_is}
use rfircd.Airc.Session.Receive.{receive}
use rfircd.Airc.Session.Receive.Limits.{IsLimited, IsFlight, receive-IsLimited}
use rfircd.Airc.Session.Table.{
  Sessions, take_seq, put_peer, heard, touch, force_touch, on_receive, take_piggyback, give_back,
  fragments, enqueue_peer, enqueue, keyed_peer, on_keyed,
}
use rfircd.Airc.Session.Table.Bounds.{
  IsValid, IsTouched, put_peer-IsValid, take_seq-IsValid, touch-IsTouched, force_touch-IsTouched,
}

-- A write for a station that is in the table.
pub write-IsValid :
    (s : Sessions) (call : Callsign) (p q : Peer)
    → IsValid s
    → lookup call s.peers ≡ some p
    → IsLimited s.config q
    → IsValid (put_peer s call q)
write-IsValid s call p q v there l =
    put_peer-IsValid s v call q (rw there (omega (arith, v.count))) l

-- A write for a station that was touched, of a peer that is made from the one in the table.
touched-IsValid :
    (cfg : SessionConfig) (s : Sessions) (call : Callsign) (p q : Peer)
    → IsTouched cfg call (some (p, s))
    → (IsLimited cfg p → IsLimited cfg q)
    → IsValid (put_peer s call q)
touched-IsValid cfg s call p q t f =
    let in_table = All-lookup (λ r. IsLimited s.config r) call s.peers t.0.limited t.1.0 in
    let now_limited = f (subst (λ c. IsLimited c p) t.1.1 in_table) in
    write-IsValid s call p q t.0 t.1.0 (subst (λ c. IsLimited c q) (sym t.1.1) now_limited)

pub on_receive-IsValid :
    (s : Sessions) (src : Callsign) (frame : AircFrame) (now : ℕ) (addressed : Bool)
    → IsValid s
    → IsValid (on_receive s src frame now addressed).0
unfolding on_receive
on_receive-IsValid s src frame now addressed v = elim (Option-cases (touch s src now)) [
  | inl full ↦ rw (on_receive, full) v
  | inr ((p, s'), got) ↦
      rw (on_receive, got)
        (touched-IsValid s.config s' src p (receive s.config p frame now addressed).0
          (rw got at (touch-IsTouched s v src now))
          (λ l. receive-IsLimited s.config p frame now addressed l))
]

-- A frame that is received changes at most the entry of the station that it came from: no other
-- station is removed, changed or added.
pub on_receive-lookup_other :
    (s : Sessions) (src other : Callsign) (frame : AircFrame) (now : ℕ) (addressed : Bool)
    → callsign_beq src other ≡ false
    → lookup other (on_receive s src frame now addressed).0.peers ≡ lookup other s.peers
unfolding on_receive touch put_peer
on_receive-lookup_other s src other frame now addressed ne =
    elim (Bool-cases
      (not (is_some (lookup src s.peers)) && leb s.config.max_peers (length s.peers))) [
        | inl full ↦ rw (on_receive, full) refl
        | inr room ↦
            let p = heard src now (lookup src s.peers) in
            let q = (receive s.config p frame now addressed).0 in
            rw (on_receive, room)
              (lookup-insert src other q (insert src p s.peers)
                ∙ (rw ne (lookup-insert src other p s.peers ∙ (rw ne refl))))
      ]

module _ (cfg : SessionConfig) (p : Peer) (v : IsLimited cfg p) where
  give_back-IsLimited : (o : Option ℕ) → IsLimited cfg (give_back o p)
  give_back-IsLimited none = v
  give_back-IsLimited (some seq) = record {
    queue = v.queue;
    seen = v.seen;
    reasm = v.reasm;
    flight = v.flight;
  }

  counted-IsLimited : (n : ℕ) → IsLimited cfg (record p { dropped = n })
  counted-IsLimited n = record {
    queue = v.queue;
    seen = v.seen;
    reasm = v.reasm;
    flight = v.flight;
  }

  queued-IsLimited :
      (q : List (List AircFrame))
      → length q ≤ cfg.max_queue
      → IsLimited cfg (record p { queue = q })
  queued-IsLimited q h = record { queue = h; seen = v.seen; reasm = v.reasm; flight = v.flight }

  pub start_pending-IsLimited : (frames : List AircFrame) → IsLimited cfg (start_pending p frames).0
  unfolding start_pending
  start_pending-IsLimited frames = record {
    queue = v.queue;
    seen = v.seen;
    reasm = v.reasm;
    flight = (length-replicate (length frames) false, omega arith);
  }

  take_piggyback-IsLimited : (reliable : Bool) → IsLimited cfg (take_piggyback cfg p reliable).1
  unfolding take_piggyback
  take_piggyback-IsLimited reliable =
      let taken : IsLimited cfg (record p { owed_ack = none }) = record {
        queue = v.queue;
        seen = v.seen;
        reasm = v.reasm;
        flight = v.flight;
      } in
      ground (arith, v, taken)

enqueue_peer-IsLimited :
    (cfg : SessionConfig) (p : Peer) (kind : Kind) (seq : ℕ) (payload : Bytes) (reliable : Bool)
    → IsLimited cfg p
    → IsLimited cfg (enqueue_peer cfg p kind seq payload reliable).0
unfolding enqueue_peer
enqueue_peer-IsLimited cfg p0 kind seq payload reliable v0 =
    let (piggy, p) = take_piggyback cfg p0 reliable in
    let v : IsLimited cfg p = take_piggyback-IsLimited cfg p0 v0 reliable in
    let chunks = chunk_payload payload (max_payload cfg) (is_some piggy) in
    let frames = fragments kind seq reliable (length chunks) 0 chunks in
    let back = give_back piggy p in
    let w : IsLimited cfg back = give_back-IsLimited cfg p v piggy in
    ground (
      arith,
      v,
      counted-IsLimited cfg back w (p.dropped + 1),
      queued-IsLimited cfg back w (p.queue ++ (frames ∷ [])),
      length-append p.queue (frames ∷ []),
      start_pending-IsLimited cfg p v frames,
    )

pub enqueue-IsValid :
    (s : Sessions) (dst : Callsign) (kind : Kind) (payload : Bytes) (reliable : Bool) (now : ℕ)
    → IsValid s
    → IsValid (enqueue s dst kind payload reliable now).0
unfolding enqueue
enqueue-IsValid s dst kind payload reliable now v =
    let s' = (take_seq s).1 in
    let v' = take_seq-IsValid s v in
    let same : s'.config ≡ s.config = unfold take_seq in refl in
    elim (Option-cases (force_touch s' dst now)) [
      | inl none_left ↦ rw (enqueue, none_left) v'
      | inr ((p, s''), got) ↦
          rw (enqueue, got)
            (touched-IsValid s.config s'' dst p
              (enqueue_peer s.config p kind (take_seq s).0 payload reliable).0
              (subst (λ c. IsTouched c dst (some (p, s''))) same
                (rw got at (force_touch-IsTouched s' dst now v')))
              (λ l. enqueue_peer-IsLimited s.config p kind (take_seq s).0 payload reliable l))
    ]

keyed_peer-IsLimited :
    (cfg : SessionConfig) (p : Peer) (seq now : ℕ)
    → IsLimited cfg p
    → IsLimited cfg (keyed_peer cfg p seq now)
unfolding keyed_peer
keyed_peer-IsLimited cfg p seq now v = elim (Option-cases p.pending) [
  | inl idle ↦ rw (keyed_peer, idle) v
  | inr (f, flying) ↦
      let w : IsFlight cfg (some f) = (rw flying at (v.flight)) in
      elim (Bool-cases (first_seq_is f.frames seq)) [
        | inl mine ↦
            rw (keyed_peer, flying, mine)
              (record { queue = v.queue; seen = v.seen; reasm = v.reasm; flight = w })
        | inr other ↦ rw (keyed_peer, flying, other) v
      ]
]

pub on_keyed-IsValid :
    (s : Sessions) (dest : Callsign) (seq now : ℕ) → IsValid s → IsValid (on_keyed s dest seq now)
unfolding on_keyed
on_keyed-IsValid s dest seq now v = elim (Option-cases (lookup dest s.peers)) [
  | inl gone ↦ rw (on_keyed, gone) v
  | inr (p, there) ↦
      rw (on_keyed, there)
        (write-IsValid s dest p (keyed_peer s.config p seq now) v there (
          keyed_peer-IsLimited s.config p seq now
            (All-lookup (λ q. IsLimited s.config q) dest s.peers v.limited there)))
]
