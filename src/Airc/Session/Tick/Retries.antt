-- ===== src/Airc/Session/Tick/Retries.antt =====
-- The timers of src/airc/session.rs, `tick_retries`, against the limits on the table of stations.
use rfircd.Prelude.{
  ℕ, ◌+◌, ◌≤◌, ◌≡◌, refl, ap, inl, inr, Bool, List, [], ◌∷◌, Option, none, some, arith, length, All,
  Option-cases,
}
use rfircd.Prelude.Assoc.{lookup, insert, remove, found, All-lookup}
use rfircd.Callsign.{Callsign, callsign_eq}
use rfircd.Airc.Frame.{AircFrame}
use rfircd.Airc.Session.{Pending, Reassembly, Peer, SessionConfig}
use rfircd.Airc.Session.Receive.Limits.{IsLimited, IsFlight}
use rfircd.Airc.Session.Table.{Sessions, put_peer, forget}
use rfircd.Airc.Session.Table.Bounds.{IsValid, put_peer-IsValid, forget-IsValid}
use rfircd.Airc.Session.Table.Steps.{start_pending-IsLimited}
use rfircd.Airc.Session.Table.Rounds.{SameKeys, pass-IsValid}
use rfircd.Airc.Session.Tick.{
  expire_reasm, retry_pending, tick_pending, tick_peer, tick_peers, give_up_peer, give_up_all,
  remove_all, tick_retries, TickOutcome,
}

length-expire_reasm :
    (cfg : SessionConfig) (now : ℕ) (m : List (ℕ × Reassembly))
    → length (expire_reasm cfg now m).0 ≤ length m
unfolding expire_reasm
length-expire_reasm cfg now [] = omega arith
length-expire_reasm cfg now ((seq, r) ∷ m) = ground (arith, length-expire_reasm cfg now m)

module _ (cfg : SessionConfig) (now : ℕ) where
  retry_pending-IsLimited :
      (p : Peer) (f : Pending)
      → IsLimited cfg p
      → IsFlight cfg (some f)
      → IsLimited cfg (retry_pending cfg now p f).0
  unfolding retry_pending
  retry_pending-IsLimited p f v w =
      let again : f.attempts + 1 ≤ cfg.max_retries
          → (deadline : Option ℕ)
          → IsLimited cfg (record p {
            pending = some (record f { attempts = f.attempts + 1; next_retry = deadline });
          }) =
        λ h deadline. record {
          queue = v.queue;
          seen = v.seen;
          reasm = v.reasm;
          flight = (w.0, h);
        } in
      ground (arith, v, again)

  tick_pending-IsLimited :
      (retry : Bool) (p : Peer) → IsLimited cfg p → IsLimited cfg (tick_pending cfg now retry p).0
  unfolding tick_pending
  tick_pending-IsLimited retry p v = elim (Option-cases p.pending) [
    | inl idle ↦ rw (tick_pending, idle) (ground (arith, v))
    | inr (f, flying) ↦
        let w : IsFlight cfg (some f) = (rw flying at (v.flight)) in
        rw (tick_pending, flying) (ground (arith, v, retry_pending-IsLimited p f v w))
  ]

  tick_peer-IsLimited :
      (retry : Bool) (p : Peer) → IsLimited cfg p → IsLimited cfg (tick_peer cfg now retry p).0
  unfolding tick_peer
  tick_peer-IsLimited retry p v =
      let reasm = (expire_reasm cfg now p.reasm).0 in
      tick_pending-IsLimited retry (record p { reasm = reasm })
        (record {
          queue = v.queue;
          seen = v.seen;
          reasm = omega (arith, v.reasm, length-expire_reasm cfg now p.reasm);
          flight = v.flight;
        })

  tick_peers-IsLimited :
      (retry : Bool) (m : List (Callsign × Peer))
      → All (λ e. IsLimited cfg e.1) m
      → All (λ e. IsLimited cfg e.1) (tick_peers cfg now retry m).0
  unfolding tick_peers
  tick_peers-IsLimited retry [] a = tt
  tick_peers-IsLimited retry ((c, p) ∷ m) a =
      (tick_peer-IsLimited retry p a.0, tick_peers-IsLimited retry m a.1)

  tick_peers-SameKeys :
      (retry : Bool) (m : List (Callsign × Peer)) → SameKeys m (tick_peers cfg now retry m).0
  unfolding tick_peers
  tick_peers-SameKeys retry [] = tt
  tick_peers-SameKeys retry ((c, p) ∷ m) = (refl, tick_peers-SameKeys retry m)

  give_up_peer-IsLimited : (p : Peer) → IsLimited cfg p → IsLimited cfg (give_up_peer p).0
  unfolding give_up_peer
  give_up_peer-IsLimited p v = given p.queue refl
    where
      given : (q : List (List AircFrame)) → p.queue ≡ q → IsLimited cfg (give_up_peer p).0
      given [] e =
          rw (give_up_peer, e)
            (record { queue = omega arith; seen = v.seen; reasm = v.reasm; flight = tt })
      given (next ∷ rest) e =
          rw (give_up_peer, e)
            (start_pending-IsLimited cfg
              (record p { pending = none; dropped = p.dropped + 1; queue = rest })
              (record {
                queue = omega (arith, v.queue, ap length e);
                seen = v.seen;
                reasm = v.reasm;
                flight = tt;
              })
              next)

-- The table with other peers.
abbrev with_peers : Sessions → List (Callsign × Peer) → Sessions
with_peers s m = record s { peers = m }

written-IsValid :
    (s : Sessions) (c : Callsign) (q : Peer)
    → IsValid s
    → length s.peers + 1 ≤ s.config.max_peers + found (lookup c s.peers)
    → IsLimited s.config q
    → IsValid (with_peers s (insert c q s.peers))
written-IsValid s c q v h l = unfold put_peer in put_peer-IsValid s v c q h l

give_up_all-IsValid :
    (cs : List Callsign) (s : Sessions) (out : TickOutcome)
    → IsValid s
    → IsValid (with_peers s (give_up_all cs s.peers out).0)
unfolding give_up_all
give_up_all-IsValid [] s out v = v
give_up_all-IsValid (c ∷ cs) s out v = elim (Option-cases (lookup c s.peers)) [
  | inl gone ↦ rw (give_up_all, gone) (give_up_all-IsValid cs s out v)
  | inr (p, there) ↦
      let l = All-lookup (λ q. IsLimited s.config q) c s.peers v.limited there in
      let q = (give_up_peer p).0 in
      let w =
        written-IsValid s c q v (rw there (omega (arith, v.count)))
          (give_up_peer-IsLimited s.config 0 p l) in
      rw (give_up_all, there) (give_up_all-IsValid cs (with_peers s (insert c q s.peers)) _ w)
]

remove_all-IsValid :
    (cs : List Callsign) (s : Sessions) → IsValid s → IsValid (with_peers s (remove_all cs s.peers))
unfolding remove_all
remove_all-IsValid [] s v = v
remove_all-IsValid (c ∷ cs) s v =
    let w : IsValid (with_peers s (remove c s.peers)) = unfold forget in forget-IsValid s v c in
    remove_all-IsValid cs (with_peers s (remove c s.peers)) w

-- The timers keep the table valid: they take no station in twice, and no message is sent again more
-- often than `max_retries` allows.
pub tick_retries-IsValid :
    (s : Sessions) (now : ℕ) (retry : Bool) → IsValid s → IsValid (tick_retries s now retry).0
unfolding tick_retries
tick_retries-IsValid s now retry v =
    let (peers, out, giving_up) = tick_peers s.config now retry s.peers in
    let a : IsValid (with_peers s peers) =
      pass-IsValid s peers v (tick_peers-SameKeys s.config now retry s.peers)
        (tick_peers-IsLimited s.config now retry s.peers v.limited) in
    let b = give_up_all-IsValid giving_up (with_peers s peers) out a in
    remove_all-IsValid (give_up_all giving_up peers out).1.lost
      (with_peers s (give_up_all giving_up peers out).0) b
