-- ===== src/Ax25/Tnc/Keyed.antt =====
-- What must hold for the loop of src/ax25/tnc.rs to key a frame, and the number that it reads from an
-- AIRC frame.
use rfircd.Prelude.{
  ℕ, ◌+◌, ◌-◌, ◌≤◌, ◌<◌, ◌≡◌, ◌≢◌, refl, inl, inr, false, not, ◌&&◌, Option, none, some, arith, ltb,
  ltb→ge, length, Bool-cases, Option-cases, subst,
}
use rfircd.Prelude.Float.{Float}
use rfircd.Airc.Frame.{AircFrame}
use rfircd.Airc
use rfircd.Ax25.Frame
use rfircd.Ax25.Frame.{Ax25Frame}
use rfircd.Ax25.Airtime
use rfircd.Ax25.Airtime.{TxDecision, send, defer, record_tx, millis}
use rfircd.Ax25.Scheduler.{Queued, Poll, ready, wait, idle, poll, pop, same_class, id}
use rfircd.Ax25.Tnc.{
  TncConfig, Link, Readings, nothing, held, failed, inhibited, oversized, stale, keyed, airc_seq,
  may_drop, key, hold, decide, handle, take_next, turn,
}

keyed_inj : (a b : Queued Ax25Frame) (t u : ℕ) (s v : Option ℕ) → keyed a t s ≡ keyed b u v → a ≡ b
keyed_inj a b t u s v h = cc

module _ {fl : Float} where
  -- What a turn must have read and been told to key the frame.
  pub record IsAllowed (cfg : TncConfig) (l : Link fl) (r : Readings) (item : Queued Ax25Frame)
      : Type 0 where
    pub interlock : (r.interlock ≡ false) × (r.interlock_again ≡ false)
    pub inhibit : r.inhibit && not (same_class item.class id) ≡ false
    pub fits : length (Frame.encode item.payload) ≤ cfg.max_frame
    pub may_key : poll l.scheduler r.now ≡ ready
    pub next : (pop l.scheduler r.now).1 ≡ some item
    pub allowed : (Airtime.check l.governor (length (Frame.encode item.payload)) r.now).1 ≡ send

  key-keyed :
      (l : Link fl) (r : Readings) (it item : Queued Ax25Frame) (octets time : ℕ) (seq : Option ℕ)
      → (key l r it octets).1 ≡ keyed item time seq
      → (r.interlock_again ≡ false) × (it ≡ item)
  unfolding key
  key-keyed l r it item octets time seq h = elim (Bool-cases r.interlock_again) [
    | inl down ↦ let clash : held ≡ keyed item time seq = rw (key, down) at h in absurd (cc)
    | inr clear ↦ elim (Bool-cases r.written) [
      | inl well ↦
          let recorded = (record_tx l.governor octets r.now).1 in
          (clear, keyed_inj it item _ time _ seq (rw (key, clear, well) at h))
      | inr broken ↦
          let clash : failed ≡ keyed item time seq = rw (key, clear, broken) at h in absurd (cc)
    ]
  ]

  hold-keyed :
      (cfg : TncConfig) (l : Link fl) (r : Readings) (it item : Queued Ax25Frame) (delay time : ℕ)
      (seq : Option ℕ)
      → (hold cfg l r it delay).1 ≢ keyed item time seq
  unfolding hold
  hold-keyed cfg l r it item delay time seq h =
      elim (Bool-cases (may_drop it.class && ltb cfg.max_hold (r.now - it.queued_at + delay))) [
        | inl drops ↦
            let clash : stale it ≡ keyed item time seq = rw (hold, drops) at h in absurd (cc)
        | inr stays ↦ let clash : held ≡ keyed item time seq = rw (hold, stays) at h in absurd (cc)
      ]

  decide-keyed :
      (cfg : TncConfig) (l : Link fl) (r : Readings) (it item : Queued Ax25Frame) (time : ℕ)
      (seq : Option ℕ)
      → (decide cfg l r it).1 ≡ keyed item time seq
      → ((Airtime.check l.governor (length (Frame.encode it.payload)) r.now).1 ≡ send)
        × (r.interlock_again ≡ false)
        × (it ≡ item)
  unfolding decide
  decide-keyed cfg l r it item time seq h =
      go (Airtime.check l.governor (length (Frame.encode it.payload)) r.now).1 refl
    where
      go :
          (d : TxDecision)
          → (Airtime.check l.governor (length (Frame.encode it.payload)) r.now).1 ≡ d
          → ((Airtime.check l.governor (length (Frame.encode it.payload)) r.now).1 ≡ send)
            × (r.interlock_again ≡ false)
            × (it ≡ item)
      go send e =
          let k =
            key-keyed
              (record l {
                governor = (Airtime.check l.governor (length (Frame.encode it.payload)) r.now).0;
              })
              r it item (length (Frame.encode it.payload)) time seq (rw (decide, e) at h) in
          (e, k.0, k.1)
      go (defer delay reason) e = absurd (
          hold-keyed cfg
            (record l {
              governor = (Airtime.check l.governor (length (Frame.encode it.payload)) r.now).0;
            })
            r it item delay time seq (rw (decide, e) at h))

  take_next-some :
      (l : Link fl) (now : ℕ) (item : Queued Ax25Frame)
      → (take_next l now).1 ≡ some item
      → (poll l.scheduler now ≡ ready)
        × ((pop l.scheduler now).1 ≡ some item)
        × ((take_next l now).0.governor ≡ l.governor)
  unfolding take_next
  take_next-some l now item h = go (poll l.scheduler now) refl
    where
      go :
          (p : Poll)
          → poll l.scheduler now ≡ p
          → (poll l.scheduler now ≡ ready)
            × ((pop l.scheduler now).1 ≡ some item)
            × ((take_next l now).0.governor ≡ l.governor)
      go ready e = (e, rw (take_next, e) at h, rw (take_next, e) refl)
      go (wait delay) e = let clash : none ≡ some item = rw (take_next, e) at h in absurd (cc)
      go idle e = let clash : none ≡ some item = rw (take_next, e) at h in absurd (cc)

  -- A turn keys a frame only if the interlock is clear both before the frame was taken and at the
  -- last moment, the transmitter is not inhibited or the frame is an identification, the frame is not
  -- too long, the guards of the scheduler are over, the frame is the one that `pop` gives, and the
  -- governor allows it at that moment.
  pub turn-keyed :
      (cfg : TncConfig) (l : Link fl) (r : Readings) (item : Queued Ax25Frame) (time : ℕ)
      (seq : Option ℕ)
      → (turn cfg l r).1 ≡ keyed item time seq
      → IsAllowed cfg l r item
  unfolding turn handle
  turn-keyed cfg l r item time seq h = elim (Bool-cases r.interlock) [
    | inl down ↦ let clash : nothing ≡ keyed item time seq = rw (turn, down) at h in absurd (cc)
    | inr clear ↦ elim (Option-cases (take_next l r.now).1) [
      | inl none_left ↦
          let clash : nothing ≡ keyed item time seq = rw (turn, clear, none_left) at h in
          absurd (cc)
      | inr (it, there) ↦
          let k = (take_next l r.now).0 in
          let t = take_next-some l r.now it there in
          let e : (handle cfg k r it).1 ≡ keyed item time seq = rw (turn, clear, there) at h in
          elim (Bool-cases (r.inhibit && not (same_class it.class id))) [
            | inl off ↦
                let clash : inhibited it ≡ keyed item time seq = rw (handle, off) at e in
                absurd (cc)
            | inr may ↦ elim (Bool-cases (ltb cfg.max_frame (length (Frame.encode it.payload)))) [
              | inl long ↦
                  let clash : oversized it ≡ keyed item time seq = rw (handle, may, long) at e in
                  absurd (cc)
              | inr fits ↦
                  let d = decide-keyed cfg k r it item time seq (rw (handle, may, fits) at e) in
                  subst (IsAllowed cfg l r) d.2 (record {
                    interlock = (clear, d.1);
                    inhibit = may;
                    fits = ltb→ge cfg.max_frame (length (Frame.encode it.payload)) fits;
                    may_key = t.0;
                    next = t.1;
                    allowed = rw (t.2) at d.0;
                  })
            ]
          ]
    ]
  ]

-- The number that the loop reads from the information field of a frame is that of the AIRC frame in
-- it, so that the session is told of the right one.
pub airc_seq-encode_airc :
    (f : AircFrame) → f.seq < 0x1_0000 → airc_seq (Airc.Frame.encode f) ≡ some f.seq
unfolding airc_seq Airc.Frame.encode
airc_seq-encode_airc f h = ground arith
