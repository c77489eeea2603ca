-- ===== src/Airc/Session/Receive/Limits.antt =====
-- What a station can make the gateway keep: the limits on the state of one peer in
-- src/airc/session.rs.
use rfircd.Prelude.{
  ℕ, ◌+◌, ◌-◌, ◌≤◌, ◌≡◌, refl, ap, ◌∙◌, inl, inr, Bool, true, false, not, ◌&&◌, ◌||◌, List, [], ◌∷◌,
  ◌++◌, Option, none, some, Bytes, arith, max, ltb, leb, leb→le, leb→gt, ◌==◌, length, all,
  length-drop, length-replicate, Bool-cases, Option-cases,
}
use rfircd.Prelude.Assoc.{
  lookup, insert, remove, is_some, found, length-insert, length-remove, nat_eq, evict, length-evict,
  length-evict-le,
}
use rfircd.Airc.Frame.{AircFrame, wants_ack, has_flag, ack_req, retry}
use rfircd.Airc.Session.{Pending, Reassembly, Peer, SessionConfig, max_payload}
use rfircd.Airc.Session.Bitmap.{bitmap_from_parts}
use rfircd.Airc.Session.Acks.{
  owe_ack, start_next, complete, mark_acked, apply_bitmap, apply_ack_pending, apply_ack, remember,
  parse_ack_payload,
}
use rfircd.Airc.Session.Receive.{
  restart, owe_if, is_hello, hello_epoch, entry_for, add_fragment, receive_seen, receive_single,
  make_room, finish, receive_fragment, receive_message, apply_piggyback, apply_ack_payload, receive,
  note_airc,
}

-- One flag for each frame in flight, and no more attempts than are allowed.
abbrev pub IsFlight : SessionConfig → Option Pending → Type 0
IsFlight cfg none = Unit
IsFlight cfg (some p) = (length p.acked ≡ length p.frames) × (p.attempts ≤ cfg.max_retries)

pub record IsLimited (cfg : SessionConfig) (p : Peer) : Type 0 where
  pub queue : length p.queue ≤ cfg.max_queue
  pub seen : length p.seen ≤ cfg.dedup_window
  pub reasm : length p.reasm ≤ max cfg.max_reasm 1
  pub flight : IsFlight cfg p.pending

length-remember : (seen : List ℕ) (seq window : ℕ) → length (remember seen seq window) ≤ window
unfolding remember
length-remember seen seq window =
    omega (arith, length-drop (length (seen ++ (seq ∷ [])) - window) (seen ++ (seq ∷ [])))

length-mark_acked :
    (bits : Bytes) (i : ℕ) (flags : List Bool) → length (mark_acked bits i flags).0 ≡ length flags
unfolding mark_acked
length-mark_acked bits i [] = refl
length-mark_acked bits i (flag ∷ flags) = ground (arith, length-mark_acked bits (i + 1) flags)

module _ (cfg : SessionConfig) where
  start_next-IsLimited :
      (p : Peer) (q : List (List AircFrame))
      → p.queue ≡ q
      → IsLimited cfg p
      → IsLimited cfg (start_next p).0
  unfolding start_next
  start_next-IsLimited p [] e v = rw (start_next, e) v
  start_next-IsLimited p (next ∷ rest) e v =
      rw (start_next, e)
        (record {
          queue = omega (arith, v.queue, ap length e);
          seen = v.seen;
          reasm = v.reasm;
          flight = (length-replicate (length next) false, omega arith);
        })

  pub complete-IsLimited : (p : Peer) → IsLimited cfg p → IsLimited cfg (complete p).0
  unfolding complete
  complete-IsLimited p v =
      start_next-IsLimited (record p { pending = none }) p.queue refl
        (record { queue = v.queue; seen = v.seen; reasm = v.reasm; flight = tt })

  in_flight :
      (p : Peer) (f : Pending)
      → IsLimited cfg p
      → IsFlight cfg (some f)
      → IsLimited cfg (record p { pending = some f })
  in_flight p f v w = record { queue = v.queue; seen = v.seen; reasm = v.reasm; flight = w }

  apply_bitmap-IsLimited :
      (p : Peer) (f : Pending) (bits : Bytes)
      → IsLimited cfg p
      → IsFlight cfg (some f)
      → IsLimited cfg (apply_bitmap p f bits).0
  unfolding apply_bitmap
  apply_bitmap-IsLimited p f bits v w =
      let (acked, progress) = mark_acked bits 0 f.acked in
      let same : length acked ≡ length f.frames = length-mark_acked bits 0 f.acked ∙ w.0 in
      ground (
        arith,
        complete-IsLimited p v,
        in_flight p (record f { acked = acked; attempts = 0; next_retry = none }) v
            (same, omega arith),
        in_flight p (record f { acked = acked }) v (same, w.1),
      )

  apply_ack_pending-IsLimited :
      (p : Peer) (f : Pending) (seq : ℕ) (bitmap : Option Bytes)
      → IsLimited cfg p
      → IsFlight cfg (some f)
      → IsLimited cfg (apply_ack_pending p f seq bitmap).0
  unfolding apply_ack_pending
  apply_ack_pending-IsLimited p f seq none v w = ground (arith, complete-IsLimited p v)
  apply_ack_pending-IsLimited p f seq (some bits) v w =
      ground (arith, apply_bitmap-IsLimited p f bits v w)

  apply_ack_cases :
      (p : Peer) (o : Option Pending) (seq : ℕ) (bitmap : Option Bytes)
      → p.pending ≡ o
      → IsLimited cfg p
      → IsLimited cfg (apply_ack p seq bitmap).0
  unfolding apply_ack
  apply_ack_cases p none seq bitmap e v = rw (apply_ack, e) v
  apply_ack_cases p (some f) seq bitmap e v =
      rw (apply_ack, e) (apply_ack_pending-IsLimited p f seq bitmap v (rw e at (v.flight)))

  -- An ACK keeps the limits.
  pub apply_ack-IsLimited :
      (p : Peer) (seq : ℕ) (bitmap : Option Bytes)
      → IsLimited cfg p
      → IsLimited cfg (apply_ack p seq bitmap).0
  apply_ack-IsLimited p seq bitmap v = apply_ack_cases p p.pending seq bitmap refl v

  owing :
      (b : Bool) (p : Peer) (seq : ℕ) (bitmap : Option Bytes)
      → IsLimited cfg p
      → IsLimited cfg (owe_if b p seq bitmap)
  owing true p seq bitmap v =
      unfold owe_ack in
      record { queue = v.queue; seen = v.seen; reasm = v.reasm; flight = v.flight }
  owing false p seq bitmap v = v

  receive_single-IsLimited :
      (p : Peer) (frame : AircFrame) (addressed : Bool)
      → IsLimited cfg p
      → IsLimited cfg (receive_single cfg p frame addressed).0
  unfolding receive_single
  receive_single-IsLimited p frame addressed v =
      let q = owe_if (addressed && wants_ack frame) p frame.seq none in
      let w = owing (addressed && wants_ack frame) p frame.seq none v in
      record {
        queue = w.queue;
        seen = length-remember q.seen frame.seq cfg.dedup_window;
        reasm = w.reasm;
        flight = w.flight;
      }

  length-make_room :
      (seq : ℕ) (m : List (ℕ × Reassembly))
      → length m ≤ max cfg.max_reasm 1
      → length (make_room cfg seq m) + 1
        ≤ max cfg.max_reasm 1 + found (lookup seq (make_room cfg seq m))
  unfolding make_room
  length-make_room seq m h = elim (Option-cases (lookup seq m)) [
    | inl absent ↦ elim (Bool-cases (leb cfg.max_reasm (length m))) [
      | inl full ↦ rw (make_room, absent, full) (evicted full)
      | inr room ↦
          rw (make_room, absent, room, absent) (omega (arith, leb→gt cfg.max_reasm (length m) room))
    ]
    | inr (r, there) ↦ rw (make_room, there, there) (omega arith)
  ]
    where
      evicted :
          leb cfg.max_reasm (length m) ≡ true
          → length (evict (λ r. r.started) m) + 1
            ≤ max cfg.max_reasm 1 + found (lookup seq (evict (λ r. r.started) m))
      evicted full = elim (Bool-cases (leb 1 (length m))) [
        | inl some_entry ↦
            omega (arith, length-evict (λ r. r.started) m (leb→le 1 (length m) some_entry))
        | inr empty ↦ omega (arith, length-evict-le (λ r. r.started) m, leb→gt 1 (length m) empty)
      ]

  finish-IsLimited :
      (p : Peer) (frame : AircFrame) (addressed : Bool) (r : Reassembly)
      (reasm : List (ℕ × Reassembly))
      → length reasm ≤ max cfg.max_reasm 1
      → IsLimited cfg p
      → IsLimited cfg (finish cfg p frame addressed r reasm).0
  unfolding finish
  finish-IsLimited p frame addressed r reasm h v =
      owing (r.want_ack || addressed && (wants_ack frame || has_flag r.flags ack_req)) _ frame.seq
        none
        (record {
          queue = v.queue;
          seen = length-remember p.seen frame.seq cfg.dedup_window;
          reasm = h;
          flight = v.flight;
        })

  -- The table of reassemblies after the entry for `seq` is written or removed.
  length-stored :
      (seq : ℕ) (m : List (ℕ × Reassembly)) (r : Reassembly)
      → length m ≤ max cfg.max_reasm 1
      → (length (insert seq r (make_room cfg seq m)) ≤ max cfg.max_reasm 1)
        × (length (remove seq (make_room cfg seq m)) ≤ max cfg.max_reasm 1)
  length-stored seq m r h =
      let room = make_room cfg seq m in
      (
        omega (arith, length-insert seq r room, length-make_room seq m h),
        omega (arith, length-remove seq room, length-make_room seq m h),
      )

  receive_fragment-IsLimited :
      (p : Peer) (frame : AircFrame) (now : ℕ) (addressed : Bool)
      → IsLimited cfg p
      → IsLimited cfg (receive_fragment cfg p frame now addressed).0
  unfolding receive_fragment
  receive_fragment-IsLimited p frame now addressed v =
      let room = make_room cfg frame.seq p.reasm in
      let want_ack = addressed && wants_ack frame in
      let r = add_fragment frame want_ack (entry_for frame now want_ack (lookup frame.seq room)) in
      let (stored, removed) = length-stored frame.seq p.reasm r v.reasm in
      elim (Bool-cases (ltb (max_payload cfg) (length frame.payload))) [
        | inl long ↦ rw (receive_fragment, long) v
        | inr short ↦ elim (Bool-cases (all is_some r.parts)) [
          | inl whole ↦
              rw (receive_fragment, short, whole)
                (finish-IsLimited p frame addressed r (remove frame.seq room) removed v)
          | inr holes ↦
              rw (receive_fragment, short, holes)
                (owing (want_ack && has_flag frame.flags retry)
                  (record p { reasm = insert frame.seq r room }) frame.seq
                  (some (bitmap_from_parts r.parts))
                  (record { queue = v.queue; seen = v.seen; reasm = stored; flight = v.flight }))
        ]
      ]

  receive_message-IsLimited :
      (p : Peer) (frame : AircFrame) (now : ℕ) (addressed : Bool)
      → IsLimited cfg p
      → IsLimited cfg (receive_message cfg p frame now addressed).0
  unfolding receive_message receive_seen
  receive_message-IsLimited p frame now addressed v = ground (
    arith,
    owing (addressed && wants_ack frame) p frame.seq none v,
    receive_single-IsLimited p frame addressed v,
    receive_fragment-IsLimited p frame now addressed v,
  )

  restart-IsLimited :
      (p : Peer) (frame : AircFrame) → IsLimited cfg p → IsLimited cfg (restart p frame)
  unfolding restart
  restart-IsLimited p frame v =
      elim (Bool-cases (is_hello frame.kind && not (hello_epoch frame == p.epoch))) [
        | inl again ↦
            rw (restart, again)
              (record { queue = omega arith; seen = omega arith; reasm = omega arith; flight = tt })
        | inr same ↦ rw (restart, same) v
      ]

  apply_piggyback-IsLimited :
      (p : Peer) (o : Option ℕ) → IsLimited cfg p → IsLimited cfg (apply_piggyback p o).0
  unfolding apply_piggyback
  apply_piggyback-IsLimited p none v = v
  apply_piggyback-IsLimited p (some acked) v = apply_ack-IsLimited p acked none v

  apply_ack_payload-IsLimited :
      (p : Peer) (o : Option (ℕ × Option Bytes))
      → IsLimited cfg p
      → IsLimited cfg (apply_ack_payload p o).0
  unfolding apply_ack_payload
  apply_ack_payload-IsLimited p none v = v
  apply_ack_payload-IsLimited p (some (acked, bitmap)) v = apply_ack-IsLimited p acked bitmap v

  -- Whatever frame a station sends, what the gateway keeps for it stays within its limits: the
  -- queue, the numbers seen, and the attempts and flags of the message in flight those of the
  -- configuration, the messages being put together those of the configuration or one.
  pub receive-IsLimited :
      (p : Peer) (frame : AircFrame) (now : ℕ) (addressed : Bool)
      → IsLimited cfg p
      → IsLimited cfg (receive cfg p frame now addressed).0
  unfolding receive
  receive-IsLimited p frame now addressed v =
      let noted : IsLimited cfg (note_airc p) = record {
        queue = v.queue;
        seen = v.seen;
        reasm = v.reasm;
        flight = v.flight;
      } in
      let q = restart (note_airc p) frame in
      let w = restart-IsLimited (note_airc p) frame noted in
      let a = apply_piggyback q frame.piggyback_seq in
      let x = apply_piggyback-IsLimited q frame.piggyback_seq w in
      ground (
        arith,
        apply_ack_payload-IsLimited a.0 (parse_ack_payload frame.payload) x,
        receive_message-IsLimited a.0 frame now addressed x,
      )
