-- ===== src/Airc/Session/Receive.antt =====
-- A frame from a station, the part of `on_receive` in src/airc/session.rs that works on the peer:
-- HELLO, acknowledgements, duplicates, and the reassembly of fragments.
pub mod Limits
pub mod Once
use rfircd.Prelude.{
  ℕ, zero, suc, ◌+◌, ◌*◌, ◌-◌, Bool, true, false, not, ◌&&◌, ◌||◌, List, [], ◌∷◌, ◌++◌, Option,
  none, some, Bytes, Text, bit_or, ltb, leb, ◌==◌, if◌then◌else◌, length, replicate, all, set,
  contains,
}
use rfircd.Prelude.Assoc.{lookup, insert, remove, evict, is_some, nat_eq}
use rfircd.Prelude.Chars.{trim, parse_hex_u16}
use rfircd.Airc.Frame.{AircFrame, Kind, with_flags, wants_ack, has_flag, ack_req, retry, field}
use rfircd.Airc.Frame
use rfircd.Airc.Session.{Reassembly, Peer, SessionConfig, Dialect, max_payload}
use rfircd.Airc.Session.Bitmap.{bitmap_from_parts}
use rfircd.Airc.Session.Acks.{owe_ack, parse_ack_payload, apply_ack, remember}

abbrev pub is_hello : Kind → Bool
is_hello Kind.hello = true
is_hello _ = false

abbrev pub is_ack : Kind → Bool
is_ack Kind.ack = true
is_ack _ = false

abbrev pub or_zero : Option ℕ → ℕ
or_zero none = 0
or_zero (some n) = n

unfoldable pub hello_epoch : AircFrame → ℕ
hello_epoch frame = elim (field frame 1) [ none ↦ 0 | some s ↦ or_zero (parse_hex_u16 (trim s)) ]

-- A HELLO with another epoch is a restart of the station.
unfoldable pub restart : Peer → AircFrame → Peer
unfolding hello_epoch
restart peer frame =
    if is_hello frame.kind && not (hello_epoch frame == peer.epoch)
    then record peer {
      seen = [];
      reasm = [];
      pending = none;
      owed_ack = none;
      queue = [];
      epoch = hello_epoch frame;
    }
    else peer

-- What a frame leads to, beside the new state of the peer.
pub record RxOutcome : Type 0 where
  pub deliver : Option AircFrame
  pub transmit : List AircFrame
  pub duplicate : Bool

-- `RxOutcome::default()`.
abbrev pub no_outcome : RxOutcome
no_outcome = record { deliver = none; transmit = []; duplicate = false }

abbrev pub owe_if : Bool → Peer → ℕ → Option Bytes → Peer
owe_if b peer seq bitmap = if b then owe_ack peer seq bitmap else peer

-- A number that was seen: acknowledged once more, and delivered only if it is a HELLO.
unfoldable pub receive_seen : Peer → AircFrame → Bool → Peer × RxOutcome
receive_seen peer frame addressed = (
  owe_if (addressed && wants_ack frame) peer frame.seq none,
  if is_hello frame.kind
      then record { deliver = some frame; transmit = []; duplicate = false }
      else record { deliver = none; transmit = []; duplicate = true },
)

unfoldable pub receive_single : SessionConfig → Peer → AircFrame → Bool → Peer × RxOutcome
receive_single cfg peer frame addressed =
    let acked = owe_if (addressed && wants_ack frame) peer frame.seq none in
    (
      record acked { seen = remember acked.seen frame.seq cfg.dedup_window },
      record { deliver = some frame; transmit = []; duplicate = false },
    )

-- Room for one more message, if the frame starts one: the one that was started first goes.
unfoldable pub make_room : SessionConfig → ℕ → List (ℕ × Reassembly) → List (ℕ × Reassembly)
make_room cfg seq m =
    if not (is_some (lookup seq m)) && leb cfg.max_reasm (length m)
    then evict (λ r. r.started) m
    else m

unfoldable pub fresh : AircFrame → ℕ → Bool → Reassembly
fresh frame now want_ack = record {
  kind = frame.kind;
  flags = frame.flags;
  parts = replicate frame.frag_total none;
  started = now;
  want_ack = want_ack;
}

-- The entry that the frame belongs to: a new one, where there is none or it has another count.
unfoldable pub entry_for : AircFrame → ℕ → Bool → Option Reassembly → Reassembly
unfolding fresh
entry_for frame now want_ack none = fresh frame now want_ack
entry_for frame now want_ack (some r) =
    if length r.parts == frame.frag_total then r else fresh frame now want_ack

-- The entry with the frame in it. `decode` refuses a frame whose index is not below its count; for
-- such a frame the source would panic here, while the parts stay as they are in the model.
unfoldable pub add_fragment : AircFrame → Bool → Reassembly → Reassembly
add_fragment frame want_ack r = record r {
  want_ack = r.want_ack || want_ack;
  flags = if has_flag frame.flags ack_req then bit_or r.flags ack_req else r.flags;
  parts = set r.parts frame.frag_index (some frame.payload);
}

-- `parts.iter().flatten()`, one after the other.
unfoldable pub join_parts : List (Option Bytes) → Bytes
join_parts [] = []
join_parts (none ∷ ps) = join_parts ps
join_parts (some p ∷ ps) = p ++ join_parts ps

-- With every fragment there the message is delivered; `reasm` is the table without it.
unfoldable pub finish :
    SessionConfig → Peer → AircFrame → Bool → Reassembly → List (ℕ × Reassembly) → Peer × RxOutcome
unfolding join_parts
finish cfg peer frame addressed r reasm =
    let done = record peer {
      reasm = reasm;
      seen = remember peer.seen frame.seq cfg.dedup_window;
    } in
    (
      owe_if (r.want_ack || addressed && (wants_ack frame || has_flag r.flags ack_req)) done
          frame.seq none,
      record {
        deliver = some (with_flags (Frame.new r.kind frame.seq (join_parts r.parts)) r.flags);
        transmit = [];
        duplicate = false;
      },
    )

unfoldable pub receive_fragment : SessionConfig → Peer → AircFrame → ℕ → Bool → Peer × RxOutcome
unfolding finish add_fragment entry_for make_room
receive_fragment cfg peer frame now addressed =
    if ltb (max_payload cfg) (length frame.payload)
    then (peer, no_outcome)
    else let room = make_room cfg frame.seq peer.reasm in
      let want_ack = addressed && wants_ack frame in
      let r = add_fragment frame want_ack (entry_for frame now want_ack (lookup frame.seq room)) in
      if all is_some r.parts then finish cfg peer frame addressed r (remove frame.seq room) else (
        owe_if (want_ack && has_flag frame.flags retry)
            (record peer { reasm = insert frame.seq r room }) frame.seq
            (some (bitmap_from_parts r.parts)),
        no_outcome,
      )

-- A frame that is no ACK.
unfoldable pub receive_message : SessionConfig → Peer → AircFrame → ℕ → Bool → Peer × RxOutcome
unfolding receive_seen receive_single receive_fragment
receive_message cfg peer frame now addressed =
    if contains frame.seq peer.seen
    then receive_seen peer frame addressed
    else if frame.frag_total == 1
    then receive_single cfg peer frame addressed
    else receive_fragment cfg peer frame now addressed

unfoldable pub apply_piggyback : Peer → Option ℕ → Peer × List AircFrame
unfolding apply_ack
apply_piggyback peer none = (peer, [])
apply_piggyback peer (some acked) = apply_ack peer acked none

unfoldable pub apply_ack_payload : Peer → Option (ℕ × Option Bytes) → Peer × List AircFrame
unfolding apply_ack
apply_ack_payload peer none = (peer, [])
apply_ack_payload peer (some (acked, bitmap)) = apply_ack peer acked bitmap

-- `Peer::note_airc`.
abbrev pub note_airc : Peer → Peer
note_airc peer = record peer { dialect = Dialect.airc }

-- `on_receive` behind `touch`.
unfoldable pub receive : SessionConfig → Peer → AircFrame → ℕ → Bool → Peer × RxOutcome
unfolding restart receive_message apply_piggyback apply_ack_payload
receive cfg heard frame now addressed =
    let (peer, released) = apply_piggyback (restart (note_airc heard) frame) frame.piggyback_seq in
    if is_ack frame.kind
    then (let (peer', more) = apply_ack_payload peer (parse_ack_payload frame.payload) in
        (peer', record no_outcome { transmit = released ++ more }))
    else (let (peer', out) = receive_message cfg peer frame now addressed in
        (peer', record out { transmit = released }))
