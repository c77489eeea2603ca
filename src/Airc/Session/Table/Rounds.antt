-- ===== src/Airc/Session/Table/Rounds.antt =====
-- Passes over the whole table of stations in src/airc/session.rs against its limits, `drain_acks`
-- first.
use rfircd.Prelude.{
  ◌≡◌, refl, sym, ◌∙◌, inl, inr, List, [], ◌∷◌, none, arith, length, All, Bool-cases,
}
use rfircd.Prelude.Assoc.{lookup, is_some, Distinct}
use rfircd.Callsign.{Callsign, callsign_eq}
use rfircd.Airc.Session.{Peer, SessionConfig}
use rfircd.Airc.Session.Receive.Limits.{IsLimited}
use rfircd.Airc.Session.Table.{Sessions, drain_peers, drain_acks}
use rfircd.Airc.Session.Table.Bounds.{IsValid}

-- The same calls in the same places.
abbrev pub SameKeys : List (Callsign × Peer) → List (Callsign × Peer) → Type 0
SameKeys [] [] = Unit
SameKeys ((c, p) ∷ m) ((d, q) ∷ n) = (c ≡ d) × SameKeys m n
SameKeys _ _ = ⊥

is_some-SameKeys :
    (k : Callsign) (m n : List (Callsign × Peer))
    → SameKeys m n
    → is_some (lookup k m) ≡ is_some (lookup k n)
unfolding lookup
is_some-SameKeys k [] [] s = refl
is_some-SameKeys k [] (e ∷ n) s = absurd s
is_some-SameKeys k (e ∷ m) [] s = absurd s
is_some-SameKeys k ((c, p) ∷ m) ((d, q) ∷ n) s = rw (s.0) (elim (Bool-cases (callsign_eq.beq d k)) [
  | inl same ↦ rw same refl
  | inr other ↦ rw other (is_some-SameKeys k m n s.1)
])

length-SameKeys : (m n : List (Callsign × Peer)) → SameKeys m n → length n ≡ length m
length-SameKeys [] [] s = refl
length-SameKeys [] (e ∷ n) s = absurd s
length-SameKeys (e ∷ m) [] s = absurd s
length-SameKeys ((c, p) ∷ m) ((d, q) ∷ n) s = omega (arith, length-SameKeys m n s.1)

Distinct-SameKeys : (m n : List (Callsign × Peer)) → SameKeys m n → Distinct m → Distinct n
Distinct-SameKeys [] [] s d = tt
Distinct-SameKeys [] (e ∷ n) s d = absurd s
Distinct-SameKeys (e ∷ m) [] s d = absurd s
Distinct-SameKeys ((c, p) ∷ m) ((k, q) ∷ n) s d =
    (sym (is_some-SameKeys k m n s.1) ∙ (rw s.0 at d.0), Distinct-SameKeys m n s.1 d.1)

-- A pass that keeps the calls in their places and every peer within its limits.
pub pass-IsValid :
    (s : Sessions) (n : List (Callsign × Peer))
    → IsValid s
    → SameKeys s.peers n
    → All (λ e. IsLimited s.config e.1) n
    → IsValid (record s { peers = n })
pass-IsValid s n v k l = record {
  distinct = Distinct-SameKeys s.peers n k v.distinct;
  count = omega (arith, length-SameKeys s.peers n k, v.count);
  limited = l;
  seq_pos = v.seq_pos;
  seq_word = v.seq_word;
}

drain_peers-SameKeys : (m : List (Callsign × Peer)) → SameKeys m (drain_peers m).0
unfolding drain_peers
drain_peers-SameKeys [] = tt
drain_peers-SameKeys ((c, p) ∷ m) = ground (arith, drain_peers-SameKeys m)

drain_peers-IsLimited :
    (cfg : SessionConfig) (m : List (Callsign × Peer))
    → All (λ e. IsLimited cfg e.1) m
    → All (λ e. IsLimited cfg e.1) (drain_peers m).0
unfolding drain_peers
drain_peers-IsLimited cfg [] a = tt
drain_peers-IsLimited cfg ((c, p) ∷ m) a =
    let v = a.0 in
    let w : IsLimited cfg (record p { owed_ack = none }) = record {
      queue = v.queue;
      seen = v.seen;
      reasm = v.reasm;
      flight = v.flight;
    } in
    ground (arith, drain_peers-IsLimited cfg m a.1, w, v)

pub drain_acks-IsValid : (s : Sessions) → IsValid s → IsValid (drain_acks s).0
unfolding drain_acks
drain_acks-IsValid s v =
    pass-IsValid s (drain_peers s.peers).0 v (drain_peers-SameKeys s.peers)
      (drain_peers-IsLimited s.config s.peers v.limited)
