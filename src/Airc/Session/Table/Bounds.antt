-- ===== src/Airc/Session/Table/Bounds.antt =====
-- The limits on the table of stations in src/airc/session.rs, with `touch` and `force_touch`.
use rfircd.Prelude.{
  ℕ, ◌+◌, ◌≤◌, ◌<◌, ◌≡◌, refl, inl, inr, true, false, not, ◌&&◌, Option, none, some, arith, leb,
  leb→gt, ◌==◌, length, All, Bool-cases, Option-cases, subst,
}
use rfircd.Prelude.Assoc.{
  lookup, is_some, found, min_by_key, evict, Distinct, length-insert, length-remove, length-evict,
  insert-Distinct, remove-Distinct, lookup-insert_self, All-insert, All-remove, All-lookup,
}
use rfircd.Callsign.{Callsign, callsign_eq}
use rfircd.Airc.Session.{Peer, SessionConfig, new_peer}
use rfircd.Airc.Session.Receive.Limits.{IsLimited}
use rfircd.Airc.Session.Table.{
  Sessions, take_seq, put_peer, heard, touch, evict_quietest, force_touch, forget,
}

-- A station stands in the table once, there are no more of them than allowed, what is kept for each
-- is within its limits, and the next sequence number is not 0 and fits a `u16`.
pub record IsValid (s : Sessions) : Type 0 where
  pub distinct : Distinct s.peers
  pub count : length s.peers ≤ s.config.max_peers
  pub limited : All (λ e. IsLimited s.config e.1) s.peers
  pub seq_pos : 1 ≤ s.next_seq
  pub seq_word : s.next_seq < 65536

pub new_peer-IsLimited :
    (cfg : SessionConfig) (call : Callsign) (now : ℕ) → IsLimited cfg (new_peer call now)
unfolding new_peer
new_peer-IsLimited cfg call now = record {
  queue = omega arith;
  seen = omega arith;
  reasm = omega arith;
  flight = tt;
}

heard-IsLimited :
    (cfg : SessionConfig) (call : Callsign) (now : ℕ) (o : Option Peer)
    → ((p : Peer) → o ≡ some p → IsLimited cfg p)
    → IsLimited cfg (heard call now o)
heard-IsLimited cfg call now none h = new_peer-IsLimited cfg call now
heard-IsLimited cfg call now (some p) h =
    let v = h p refl in
    record { queue = v.queue; seen = v.seen; reasm = v.reasm; flight = v.flight }

module _ (s : Sessions) (v : IsValid s) where
  -- A write for a station that is in the table, or that there is room for.
  pub put_peer-IsValid :
      (call : Callsign) (p : Peer)
      → length s.peers + 1 ≤ s.config.max_peers + found (lookup call s.peers)
      → IsLimited s.config p
      → IsValid (put_peer s call p)
  unfolding put_peer
  put_peer-IsValid call p h l = record {
    distinct = insert-Distinct call p s.peers v.distinct;
    count = omega (arith, length-insert call p s.peers);
    limited = All-insert (λ q. IsLimited s.config q) call p s.peers v.limited l;
    seq_pos = v.seq_pos;
    seq_word = v.seq_word;
  }

  pub forget-IsValid : (call : Callsign) → IsValid (forget s call)
  unfolding forget
  forget-IsValid call = record {
    distinct = remove-Distinct call s.peers v.distinct;
    count = omega (arith, length-remove call s.peers, v.count);
    limited = All-remove (λ q. IsLimited s.config q) call s.peers v.limited;
    seq_pos = v.seq_pos;
    seq_word = v.seq_word;
  }

  pub take_seq-IsValid : IsValid (take_seq s).1
  unfolding take_seq
  take_seq-IsValid = record {
    distinct = v.distinct;
    count = v.count;
    limited = v.limited;
    seq_pos = ground arith;
    seq_word = ground arith;
  }

-- What `touch` and `force_touch` return: the table is valid, and the peer stands in it under the
-- call.
abbrev pub IsTouched : SessionConfig → Callsign → Option (Peer × Sessions) → Type 0
IsTouched cfg call none = Unit
IsTouched cfg call (some (p, s')) =
    IsValid s' × ((lookup call s'.peers ≡ some p) × (s'.config ≡ cfg))

module _ (s : Sessions) (v : IsValid s) (call : Callsign) (now : ℕ) where
  room_for :
      (not (is_some (lookup call s.peers)) && leb s.config.max_peers (length s.peers)) ≡ false
      → length s.peers + 1 ≤ s.config.max_peers + found (lookup call s.peers)
  room_for room = elim (Option-cases (lookup call s.peers)) [
    | inl absent ↦
        rw absent (omega (arith, leb→gt s.config.max_peers (length s.peers) (rw absent at room)))
    | inr (p, there) ↦ rw there (omega (arith, v.count))
  ]

  pub touch-IsTouched : IsTouched s.config call (touch s call now)
  unfolding touch
  touch-IsTouched =
      elim (Bool-cases
        (not (is_some (lookup call s.peers)) && leb s.config.max_peers (length s.peers))) [
          | inl full ↦ rw (touch, full) tt
          | inr room ↦
              let p = heard call now (lookup call s.peers) in
              rw (touch, room)
                (
                  put_peer-IsValid s v call p (room_for room) (
                      heard-IsLimited s.config call now (lookup call s.peers)
                        λ q e. All-lookup (λ r. IsLimited s.config r) call s.peers v.limited e),
                  unfold put_peer in (lookup-insert_self call p s.peers, refl),
                )
        ]

evict_quietest-config : (s : Sessions) → (evict_quietest s).config ≡ s.config
unfolding evict_quietest
evict_quietest-config s = ground arith

evict_quietest-peers : (s : Sessions) → (evict_quietest s).peers ≡ evict (λ p. p.last_heard) s.peers
unfolding evict_quietest evict
evict_quietest-peers s = ground arith

evict_quietest-IsValid : (s : Sessions) → IsValid s → IsValid (evict_quietest s)
unfolding evict_quietest
evict_quietest-IsValid s v = elim (Option-cases (min_by_key (λ (p : Peer). p.last_heard) s.peers)) [
  | inl none_there ↦ rw (evict_quietest, none_there) v
  | inr ((c, t), there) ↦
      let w = forget-IsValid s v c in
      rw (evict_quietest, there)
        (unfold forget in
          record {
            distinct = w.distinct;
            count = w.count;
            limited = w.limited;
            seq_pos = w.seq_pos;
            seq_word = w.seq_word;
          })
]

pub force_touch-IsTouched :
    (s : Sessions) (call : Callsign) (now : ℕ)
    → IsValid s
    → IsTouched s.config call (force_touch s call now)
unfolding force_touch
force_touch-IsTouched s call now v = elim (Bool-cases (s.config.max_peers == 0)) [
  | inl no_room ↦ rw (force_touch, no_room) tt
  | inr room ↦
      elim (Bool-cases
        (not (is_some (lookup call s.peers)) && leb s.config.max_peers (length s.peers))) [
          | inl full ↦
              rw (force_touch, room, full)
                (subst (λ cfg. IsTouched cfg call (touch (evict_quietest s) call now))
                  (evict_quietest-config s)
                  (touch-IsTouched (evict_quietest s) (evict_quietest-IsValid s v) call now))
          | inr here ↦
              rw (force_touch, room, here) (rw (touch, here) at (touch-IsTouched s v call now))
        ]
]

touch-is_some :
    (s : Sessions) (call : Callsign) (now : ℕ)
    → (not (is_some (lookup call s.peers)) && leb s.config.max_peers (length s.peers)) ≡ false
    → is_some (touch s call now) ≡ true
unfolding touch
touch-is_some s call now h = rw (touch, h) refl

evicted_room :
    (s : Sessions) (call : Callsign)
    → length s.peers ≤ s.config.max_peers
    → 1 ≤ length s.peers
    → (not (is_some (lookup call (evict_quietest s).peers))
        && leb (evict_quietest s).config.max_peers (length (evict_quietest s).peers))
      ≡ false
evicted_room s call h one =
    let shorter = length-evict (λ (p : Peer). p.last_heard) s.peers one in
    rw (evict_quietest-config s, evict_quietest-peers s) (ground (arith, shorter))

-- If the configuration allows at least one station, a message that goes out always gets an entry:
-- the table is valid, and the peer stands in it under the station's call.
pub force_touch_succeeds :
    (s : Sessions) (call : Callsign) (now : ℕ)
    → IsValid s
    → 1 ≤ s.config.max_peers
    → (is_some (force_touch s call now) ≡ true) × IsTouched s.config call (force_touch s call now)
unfolding force_touch
force_touch_succeeds s call now v one = (there, force_touch-IsTouched s call now v)
  where
    room : (s.config.max_peers == 0) ≡ false
    room = ground arith

    there : is_some (force_touch s call now) ≡ true
    there =
        elim (Bool-cases
          (not (is_some (lookup call s.peers)) && leb s.config.max_peers (length s.peers))) [
            | inl full ↦
                rw (force_touch, room, full)
                  (touch-is_some (evict_quietest s) call now
                    (evicted_room s call v.count (ground arith)))
            | inr here ↦ rw (force_touch, room, here) refl
          ]
