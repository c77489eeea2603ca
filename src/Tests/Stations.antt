-- ===== src/Tests/Stations.antt =====
-- The table of stations, src/airc/session.rs, on concrete inputs.
use rfircd.Prelude.{◌≡◌, ◌≢◌, refl, List, [], ◌∷◌, none, some, true, false, arith, replicate}
use rfircd.Callsign.{callsign_eq}
use rfircd.Airc.Frame.{AircFrame, Kind}
use rfircd.Airc.Session.{SessionConfig, Peer, Pending, new_peer}
use rfircd.Airc.Session.Bitmap.{bitmap_from_parts}
use rfircd.Airc.Session.Acks.{apply_ack, first_seq_is}
use rfircd.Airc.Session.Acks.Progress.{missing, selective_retransmission}
use rfircd.Airc.Session.Receive.{receive}
use rfircd.Airc.Session.Receive
use rfircd.Airc.Session.Receive.Once.{Arrival, receive_all, delivered_once}
use rfircd.Airc.Session.Acks
use rfircd.Airc.Session.Table
use rfircd.Airc.Session.Table.{Sessions, on_receive, force_touch, enqueue}
use rfircd.Airc.Session.Table.Bounds.{IsValid}
use rfircd.Airc.Session.Reachable.{Step, Reachable, Reachable-IsValid}
use rfircd.Tests.Samples.{alice, gateway, hi, holes, config}

-- The same message again, as a retry with nothing attached.
abbrev again : AircFrame
again = record hi { flags = 0x03; piggyback_seq = none }

-- Another message in between.
abbrev between : List Arrival
between = (record hi { seq = 1001 }, 2, true) ∷ []

delivered : (receive config (new_peer alice 0) hi 1 true).1.deliver ≢ none
unfolding receive Receive.receive_message Receive.receive_single Receive.restart
    Receive.apply_piggyback Acks.apply_ack new_peer
delivered = λ h. absurd (cc)

delivered_once_example :
    ((receive config
        (receive_all config (receive config (new_peer alice 0) hi 1 true).0 between)
        again
        9
        true).1.deliver
      ≡ none)
    × ((receive config
          (receive_all config (receive config (new_peer alice 0) hi 1 true).0 between)
          again
          9
          true).1.duplicate
        ≡ true)
delivered_once_example =
    delivered_once config (new_peer alice 0) hi 1 true between again 9 true refl delivered
      (refl, tt) (omega arith) refl refl refl

-- The table after a message was heard from one station and one was sent to another.
abbrev after_two : Sessions
after_two =
    (enqueue (on_receive (Table.new config) alice hi 1 true).0 gateway Kind.msg (b'o' ∷ b'k' ∷ [])
      true 2).0

after_two-Reachable : Reachable config after_two
after_two-Reachable =
    Reachable.then_one _ _
      (Reachable.then_one _ _ Reachable.start (Step.receives (Table.new config) alice hi 1 true))
      (Step.sends _ gateway Kind.msg (b'o' ∷ b'k' ∷ []) true 2)

Reachable-IsValid_example : IsValid after_two
Reachable-IsValid_example = Reachable-IsValid {cfg = config} {s = after_two} after_two-Reachable

-- Three fragments in flight, none acknowledged.
abbrev three : Pending
three = record {
  frames =
      record hi { frag_total = 3 }
      ∷ record hi { frag_index = 1; frag_total = 3 }
      ∷ record hi { frag_index = 2; frag_total = 3 }
      ∷ [];
  acked = replicate 3 false;
  attempts = 1;
  next_retry = some 40;
}

abbrev sending : Peer
sending = record {
  call = alice;
  channels = [];
  first_heard = 0;
  last_heard = 0;
  registered = true;
  dropped = 0;
  dialect = rfircd.Airc.Session.Dialect.airc;
  pending = some three;
  owed_ack = none;
  queue = [];
  seen = [];
  reasm = [];
  kicked = [];
  epoch = 0;
}

selective_retransmission_example : apply_ack sending 1000 (some (bitmap_from_parts holes)) ≡ (
  record sending {
    pending =
        some (record three { acked = true ∷ false ∷ true ∷ []; attempts = 0; next_retry = none });
  },
  record hi { flags = 0x03; frag_index = 1; frag_total = 3 } ∷ [],
)
unfolding missing first_seq_is Acks.as_retry
selective_retransmission_example =
    selective_retransmission sending three 1000 holes refl refl refl refl refl
