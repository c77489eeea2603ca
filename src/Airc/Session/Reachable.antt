-- ===== src/Airc/Session/Reachable.antt =====
-- The table of stations in src/airc/session.rs as a state machine: what the gateway does to it, one
-- operation after the other in any order.
use rfircd.Prelude.{ℕ, ◌≡◌, Bool, List, ◌∷◌, some, Bytes, Text, arith, subst}
use rfircd.Prelude.Assoc.{lookup, All-lookup}
use rfircd.Callsign.{Callsign, callsign_eq}
use rfircd.Airc.Frame.{AircFrame, Kind}
use rfircd.Airc.Session.{Peer, SessionConfig, Dialect}
use rfircd.Airc.Session.Receive.Limits.{IsLimited}
use rfircd.Airc.Session.Table.{
  Sessions, new, take_evicted, ban, lift_ban, put_peer, forget, on_receive, enqueue, on_keyed,
  drain_acks, take_seq, touch, force_touch,
}
use rfircd.Airc.Session.Table.Bounds.{
  IsValid, IsTouched, forget-IsValid, take_seq-IsValid, touch-IsTouched, force_touch-IsTouched,
}
use rfircd.Airc.Session.Table.Steps.{
  write-IsValid, on_receive-IsValid, enqueue-IsValid, on_keyed-IsValid,
}
use rfircd.Airc.Session.Table.Rounds.{drain_acks-IsValid}
use rfircd.Airc.Session.Tick.{tick_retries}
use rfircd.Airc.Session.Tick.Retries.{tick_retries-IsValid}

-- One operation on the table: every public method that writes to it. `amends` is a write through
-- `peer_mut` to the fields that the other files write to.
pub data Step : Sessions → Sessions → Type 0 where
  receives :
      (s : Sessions) (src : Callsign) (frame : AircFrame) (now : ℕ) (addressed : Bool)
      → Step s (on_receive s src frame now addressed).0
  sends :
      (s : Sessions) (dst : Callsign) (kind : Kind) (payload : Bytes) (reliable : Bool) (now : ℕ)
      → Step s (enqueue s dst kind payload reliable now).0
  keys : (s : Sessions) (dest : Callsign) (seq now : ℕ) → Step s (on_keyed s dest seq now)
  drains : (s : Sessions) → Step s (drain_acks s).0
  ticks : (s : Sessions) (now : ℕ) (retry : Bool) → Step s (tick_retries s now retry).0
  forgets : (s : Sessions) (call : Callsign) → Step s (forget s call)
  bans : (s : Sessions) (call : Callsign) → Step s (ban s call)
  lifts : (s : Sessions) (call : Callsign) → Step s (lift_ban s call)
  takes_seq : (s : Sessions) → Step s (take_seq s).1
  touches :
      (s t : Sessions) (call : Callsign) (now : ℕ) (p : Peer)
      → touch s call now ≡ some (p, t)
      → Step s t
  force_touches :
      (s t : Sessions) (call : Callsign) (now : ℕ) (p : Peer)
      → force_touch s call now ≡ some (p, t)
      → Step s t
  takes_evicted : (s : Sessions) → Step s (take_evicted s).1
  amends :
      (s : Sessions) (call : Callsign) (p : Peer) (channels kicked : List Text) (registered : Bool)
      (dropped : ℕ) (dialect : Dialect)
      → lookup call s.peers ≡ some p
      → Step s (
          put_peer s call (record p {
            channels = channels;
            kicked = kicked;
            registered = registered;
            dropped = dropped;
            dialect = dialect;
          }))

-- The tables that these operations make out of an empty one, in any order.
pub data Reachable (cfg : SessionConfig) : Sessions → Type 0 where
  start : Reachable cfg (new cfg)
  then_one : (s t : Sessions) → Reachable cfg s → Step s t → Reachable cfg t

new-IsValid : (cfg : SessionConfig) → IsValid (new cfg)
unfolding new
new-IsValid cfg = record {
  distinct = tt;
  count = omega arith;
  limited = tt;
  seq_pos = omega arith;
  seq_word = omega arith;
}

ban-IsValid : (s : Sessions) (call : Callsign) → IsValid s → IsValid (ban s call)
unfolding ban
ban-IsValid s call v =
    let w : IsValid (record s { radio_kicked = call ∷ s.radio_kicked }) = record {
      distinct = v.distinct;
      count = v.count;
      limited = v.limited;
      seq_pos = v.seq_pos;
      seq_word = v.seq_word;
    } in
    ground (arith, v, w)

Step-IsValid : {s t : Sessions} → Step s t → IsValid s → IsValid t
Step-IsValid (Step.receives s src frame now addressed) v =
    on_receive-IsValid s src frame now addressed v
Step-IsValid (Step.sends s dst kind payload reliable now) v =
    enqueue-IsValid s dst kind payload reliable now v
Step-IsValid (Step.keys s dest seq now) v = on_keyed-IsValid s dest seq now v
Step-IsValid (Step.drains s) v = drain_acks-IsValid s v
Step-IsValid (Step.ticks s now retry) v = tick_retries-IsValid s now retry v
Step-IsValid (Step.forgets s call) v = forget-IsValid s v call
Step-IsValid (Step.bans s call) v = ban-IsValid s call v
Step-IsValid (Step.lifts s call) v =
    unfold lift_ban in
    record {
      distinct = v.distinct;
      count = v.count;
      limited = v.limited;
      seq_pos = v.seq_pos;
      seq_word = v.seq_word;
    }
Step-IsValid (Step.takes_seq s) v = take_seq-IsValid s v
Step-IsValid (Step.touches s t call now p got) v =
    (subst (IsTouched s.config call) got (touch-IsTouched s v call now)).0
Step-IsValid (Step.force_touches s t call now p got) v =
    (subst (IsTouched s.config call) got (force_touch-IsTouched s call now v)).0
Step-IsValid (Step.takes_evicted s) v =
    unfold take_evicted in
    record {
      distinct = v.distinct;
      count = v.count;
      limited = v.limited;
      seq_pos = v.seq_pos;
      seq_word = v.seq_word;
    }
Step-IsValid (Step.amends s call p channels kicked registered dropped dialect there) v =
    let l = All-lookup (λ q. IsLimited s.config q) call s.peers v.limited there in
    write-IsValid s call p _ v there
      (record { queue = l.queue; seen = l.seen; reasm = l.reasm; flight = l.flight })

-- Whatever stations send and in whatever order the gateway receives, sends, keys, touches, takes
-- numbers, acknowledges, waits, forgets and bans: no station stands in the table twice, there are no
-- more stations than allowed, the queue and the remembered numbers of each are within the
-- configured limits and its open reassemblies within the configured number or one, no message in
-- flight was sent again more often than allowed, and the next sequence number is a `u16` other
-- than 0.
pub Reachable-IsValid : {cfg : SessionConfig} {s : Sessions} → Reachable cfg s → IsValid s
Reachable-IsValid {cfg} Reachable.start = new-IsValid cfg
Reachable-IsValid (Reachable.then_one s t r step) = Step-IsValid step (Reachable-IsValid r)
