-- ===== src/Airc/Session/Receive/Once.antt =====
-- Duplicate suppression in src/airc/session.rs: the numbers seen and the dedup window.
use rfircd.Prelude.{
  ℕ, zero, suc, ◌+◌, ◌-◌, ◌≤◌, ◌≡◌, ◌≢◌, refl, ap, ◌∙◌, ◌⊎◌, inl, inr, Bool, true, false, ◌&&◌,
  List, [], ◌∷◌, ◌++◌, Option, none, some, Bytes, arith, ltb, length, all, drop, length-append,
  append_assoc, Bool-cases, contains, All, subst,
}
use rfircd.Prelude.Assoc.{lookup, is_some, nat_eq}
use rfircd.Airc.Frame.{AircFrame, wants_ack, has_flag, retry}
use rfircd.Airc.Session.{Peer, SessionConfig, max_payload}
use rfircd.Airc.Session.Acks.{owe_ack, start_next, apply_ack, remember, parse_ack_payload}
use rfircd.Airc.Session.Receive.{
  restart, owe_if, is_hello, is_ack, receive_seen, receive_single, make_room, finish, entry_for,
  add_fragment, receive_fragment, receive_message, apply_piggyback, apply_ack_payload, receive,
  note_airc, RxOutcome,
}

start_next-seen : (p : Peer) → (start_next p).0.seen ≡ p.seen
unfolding start_next
start_next-seen p = ground arith

apply_ack-seen :
    (p : Peer) (seq : ℕ) (bitmap : Option Bytes) → (apply_ack p seq bitmap).0.seen ≡ p.seen
unfolding apply_ack
apply_ack-seen p seq bitmap = ground (arith, start_next-seen (record p { pending = none }))

owe_if-seen : (b : Bool) (p : Peer) (seq : ℕ) (m : Option Bytes) → (owe_if b p seq m).seen ≡ p.seen
owe_if-seen true p seq m = unfold owe_ack in refl
owe_if-seen false p seq m = refl

-- Either nothing is delivered and the numbers stay, or the frame's number is the last one seen.
abbrev Noted : SessionConfig → List ℕ → ℕ → Peer × RxOutcome → Type 0
Noted cfg seen seq (p, out) =
    ((p.seen ≡ seen) × (out.deliver ≡ none)) ⊎ (p.seen ≡ remember seen seq cfg.dedup_window)

module _ (cfg : SessionConfig) (p : Peer) (frame : AircFrame) (addressed : Bool) where
  receive_single-Noted : Noted cfg p.seen frame.seq (receive_single cfg p frame addressed)
  unfolding receive_single
  receive_single-Noted = inr (
      ap (λ s. remember s frame.seq cfg.dedup_window)
        (owe_if-seen (addressed && wants_ack frame) p frame.seq none))

  receive_seen-Noted :
      is_hello frame.kind ≡ false → Noted cfg p.seen frame.seq (receive_seen p frame addressed)
  unfolding receive_seen
  receive_seen-Noted n =
      inl (owe_if-seen (addressed && wants_ack frame) p frame.seq none, rw n refl)

  receive_fragment-Noted :
      (now : ℕ) → Noted cfg p.seen frame.seq (receive_fragment cfg p frame now addressed)
  unfolding receive_fragment
  receive_fragment-Noted now =
      let room = make_room cfg frame.seq p.reasm in
      let want_ack = addressed && wants_ack frame in
      let r = add_fragment frame want_ack (entry_for frame now want_ack (lookup frame.seq room)) in
      elim (Bool-cases (ltb (max_payload cfg) (length frame.payload))) [
        | inl long ↦ rw (receive_fragment, long) (inl (refl, refl))
        | inr short ↦ elim (Bool-cases (all is_some r.parts)) [
          | inl whole ↦
              rw (receive_fragment, short, whole)
                (unfold finish in inr (owe_if-seen _ _ frame.seq none))
          | inr holes ↦
              rw (receive_fragment, short, holes)
                (inl (owe_if-seen (want_ack && has_flag frame.flags retry) _ frame.seq _, refl))
        ]
      ]

  receive_message-Noted :
      (now : ℕ)
      → is_hello frame.kind ≡ false
      → Noted cfg p.seen frame.seq (receive_message cfg p frame now addressed)
  unfolding receive_message
  receive_message-Noted now n =
      ground (arith, receive_seen-Noted n, receive_single-Noted, receive_fragment-Noted now)

apply_piggyback-seen : (p : Peer) (o : Option ℕ) → (apply_piggyback p o).0.seen ≡ p.seen
unfolding apply_piggyback
apply_piggyback-seen p none = refl
apply_piggyback-seen p (some acked) = apply_ack-seen p acked none

apply_ack_payload-seen :
    (p : Peer) (o : Option (ℕ × Option Bytes)) → (apply_ack_payload p o).0.seen ≡ p.seen
unfolding apply_ack_payload
apply_ack_payload-seen p none = refl
apply_ack_payload-seen p (some (acked, bitmap)) = apply_ack-seen p acked bitmap

restart-seen :
    (p : Peer) (frame : AircFrame) → is_hello frame.kind ≡ false → (restart p frame).seen ≡ p.seen
unfolding restart
restart-seen p frame n = ground arith

module _ (cfg : SessionConfig) (p : Peer) (frame : AircFrame) (now : ℕ) (addressed : Bool) where
  before : Peer
  before = (apply_piggyback (restart (note_airc p) frame) frame.piggyback_seq).0

  before-seen : is_hello frame.kind ≡ false → before.seen ≡ p.seen
  unfolding before
  before-seen n =
      apply_piggyback-seen (restart (note_airc p) frame) frame.piggyback_seq
      ∙ restart-seen (note_airc p) frame n

  receive-Noted :
      is_hello frame.kind ≡ false → Noted cfg p.seen frame.seq (receive cfg p frame now addressed)
  unfolding receive before
  receive-Noted n = ground (
    arith,
    before-seen n,
    apply_ack_payload-seen before (parse_ack_payload frame.payload),
    receive_message-Noted cfg before frame addressed now n,
  )

  -- A message whose number was seen is not delivered.
  receive_again :
      is_hello frame.kind ≡ false
      → is_ack frame.kind ≡ false
      → contains frame.seq p.seen ≡ true
      → let (p', out) = receive cfg p frame now addressed in
        (out.deliver ≡ none) × (out.duplicate ≡ true)
  unfolding receive before receive_message receive_seen
  receive_again n a c =
      let c' : contains frame.seq before.seen ≡ true = rw (before-seen n) c in ground arith

-- The number is among the last `n + 1` of those seen.
pub record Recent (x n : ℕ) (seen : List ℕ) : Type 0 where
  pub older : List ℕ
  pub newer : List ℕ
  pub split : seen ≡ older ++ (x ∷ newer)
  pub count : length newer ≤ n

contains-append : (x : ℕ) (xs ys : List ℕ) → contains x (xs ++ (x ∷ ys)) ≡ true
contains-append x [] ys = ground arith
contains-append x (y ∷ xs) ys = ground (arith, contains-append x xs ys)

Recent-contains : (x n : ℕ) (seen : List ℕ) → Recent x n seen → contains x seen ≡ true
Recent-contains x n seen r = rw (r.split) (contains-append x r.older r.newer)

drop-append : (k : ℕ) (xs ys : List ℕ) → k ≤ length xs → drop k (xs ++ ys) ≡ drop k xs ++ ys
drop-append zero xs ys h = refl
drop-append (suc k) [] ys h = absurd (omega arith)
drop-append (suc k) (x ∷ xs) ys h = drop-append k xs ys (omega arith)

-- One more number pushes it by one place.
remember-Recent :
    (x y n window : ℕ) (seen : List ℕ)
    → n + 2 ≤ window
    → Recent x n seen
    → Recent x (n + 1) (remember seen y window)
unfolding remember
remember-Recent x y n window seen h r =
    let all = seen ++ (y ∷ []) in
    let k = length all - window in
    let newer = r.newer ++ (y ∷ []) in
    let e : all ≡ r.older ++ (x ∷ newer) =
      ap (λ s. s ++ (y ∷ [])) r.split ∙ append_assoc r.older (x ∷ r.newer) (y ∷ []) in
    let grown : length newer ≡ length r.newer + 1 = length-append r.newer (y ∷ []) in
    let size : length all ≡ length r.older + (length newer + 1) =
      omega (arith, ap length e, length-append r.older (x ∷ newer)) in
    record {
      older = drop k r.older;
      newer = newer;
      split = ap (drop k) e ∙ drop-append k r.older (x ∷ newer) (omega (arith, r.count));
      count = omega (arith, r.count);
    }

remember-Recent_self :
    (x window : ℕ) (seen : List ℕ) → 1 ≤ window → Recent x 0 (remember seen x window)
unfolding remember
remember-Recent_self x window seen h =
    let k = length (seen ++ (x ∷ [])) - window in
    record {
      older = drop k seen;
      newer = [];
      split = drop-append k seen (x ∷ []) (omega (arith, length-append seen (x ∷ [])));
      count = omega arith;
    }

Recent-weaken : (x m n : ℕ) (seen : List ℕ) → m ≤ n → Recent x m seen → Recent x n seen
Recent-weaken x m n seen h r = record {
  older = r.older;
  newer = r.newer;
  split = r.split;
  count = omega (arith, r.count);
}

-- A frame that arrives: it, the time and whether it is addressed to the gateway.
abbrev pub Arrival : Type 0
Arrival = AircFrame × ℕ × Bool

-- The peer after frames that arrive one after the other.
unfoldable pub receive_all : SessionConfig → Peer → List Arrival → Peer
receive_all cfg p [] = p
receive_all cfg p ((frame, now, addressed) ∷ rest) =
    receive_all cfg (receive cfg p frame now addressed).0 rest

-- No HELLO, which a station sends when it starts again.
abbrev pub IsOrdinary : Arrival → Type 0
IsOrdinary (frame, now, addressed) = is_hello frame.kind ≡ false

module _ (cfg : SessionConfig) where
  receive-Recent :
      (p : Peer) (frame : AircFrame) (now : ℕ) (addressed : Bool) (x n : ℕ)
      → is_hello frame.kind ≡ false
      → n + 2 ≤ cfg.dedup_window
      → Recent x n p.seen
      → Recent x (n + 1) (receive cfg p frame now addressed).0.seen
  receive-Recent p frame now addressed x n o h r =
      elim (receive-Noted cfg p frame now addressed o) [
        | inl (same, _) ↦ rw same (Recent-weaken x n (n + 1) p.seen (omega arith) r)
        | inr noted ↦ rw noted (remember-Recent x frame.seq n cfg.dedup_window p.seen h r)
      ]

  receive_all-Recent :
      (p : Peer) (arrivals : List Arrival) (x n : ℕ)
      → All IsOrdinary arrivals
      → n + length arrivals + 1 ≤ cfg.dedup_window
      → Recent x n p.seen
      → Recent x (n + length arrivals) (receive_all cfg p arrivals).seen
  unfolding receive_all
  receive_all-Recent p [] x n o h r = Recent-weaken x n (n + 0) p.seen (omega arith) r
  receive_all-Recent p ((frame, now, addressed) ∷ rest) x n o h r =
      let q = (receive cfg p frame now addressed).0 in
      let after = receive-Recent p frame now addressed x n o.0 (omega arith) r in
      let e : n + 1 + length rest ≡ n + suc (length rest) = omega arith in
      subst (λ m. Recent x m (receive_all cfg q rest).seen) e
        (receive_all-Recent q rest x (n + 1) o.1 (omega arith) after)

  -- A message that was delivered is not delivered again: over any sequence of fewer frames than the
  -- window, none of them a HELLO, a frame with the number of the message that is neither a HELLO nor
  -- an ACK gives nothing to deliver and is reported as a duplicate.
  pub delivered_once :
      (p : Peer) (frame : AircFrame) (now : ℕ) (addressed : Bool) (arrivals : List Arrival)
      (copy : AircFrame) (later : ℕ) (to_us : Bool)
      → is_hello frame.kind ≡ false
      → (receive cfg p frame now addressed).1.deliver ≢ none
      → All IsOrdinary arrivals
      → length arrivals + 1 ≤ cfg.dedup_window
      → copy.seq ≡ frame.seq
      → is_hello copy.kind ≡ false
      → is_ack copy.kind ≡ false
      → let q = receive_all cfg (receive cfg p frame now addressed).0 arrivals in
        let out = (receive cfg q copy later to_us).1 in
        (out.deliver ≡ none) × (out.duplicate ≡ true)
  delivered_once p frame now addressed arrivals copy later to_us o d ordinary h same oc ac =
      let first = (receive cfg p frame now addressed).0 in
      let q = receive_all cfg first arrivals in
      elim (receive-Noted cfg p frame now addressed o) [
        | inl (_, nothing) ↦ absurd (d nothing)
        | inr noted ↦
            let start : Recent frame.seq 0 first.seen =
              rw noted (remember-Recent_self frame.seq cfg.dedup_window p.seen (omega arith)) in
            let there =
              receive_all-Recent first arrivals frame.seq 0 ordinary (omega arith) start in
            let c : contains copy.seq q.seen ≡ true =
              rw same (Recent-contains frame.seq (0 + length arrivals) q.seen there) in
            receive_again cfg q copy later to_us oc ac c
      ]
