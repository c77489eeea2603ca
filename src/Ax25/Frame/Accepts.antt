-- ===== src/Ax25/Frame/Accepts.antt =====
-- Which frames src/ax25/frame.rs builds and accepts.
use rfircd.Prelude.{
  ℕ, suc, zero, ◌+◌, ◌≤◌, ◌<◌, ◌≡◌, refl, sym, ap, ◌⊎◌, inl, inr, Bool, true, false, not, List, [],
  ◌∷◌, map, Option, Bytes, arith, ok, ok_or, error, Returns, >>=-Returns, guard-Returns, if-Returns,
  ok_or-Returns, Returns-ok, ltb, length, All, get_elem?,
}
use rfircd.Prelude.Assoc.{is_some}
use rfircd.Prelude.Slices.{slice_from, get_from, slice_from-Returns, lt_of_get_elem?}
use rfircd.Callsign.{Callsign}
use rfircd.Callsign.Valid.{IsValid}
use rfircd.Ax25.{truncated, bad_address}
use rfircd.Ax25.Address
use rfircd.Ax25.Address.{Address, address_len}
use rfircd.Ax25.Address.Roundtrip.{decode_address-Returns, decode-length}
use rfircd.Ax25.Frame.{
  Ax25Frame, ui, carries_pid, encode, decode_digipeaters, octet_at, decode_tail, normal, decode,
}
use rfircd.Ax25.Frame.Roundtrip.{IsNormal, IsConsistent, decode-encode_frame}

map-new-IsNormal : (path : List Callsign) → All IsValid path → All IsNormal (map Address.new path)
map-new-IsNormal [] v = tt
map-new-IsNormal (c ∷ path) v = (record { call = v.0; not_last = refl }, map-new-IsNormal path v.1)

length-map-new : (path : List Callsign) → length (map Address.new path) ≡ length path
length-map-new [] = refl
length-map-new (c ∷ path) = ap (λ n. suc n) (length-map-new path)

-- A UI frame that is built from valid callsigns is consistent, and nothing else goes wrong than too
-- long a path.
pub ui-Returns :
    (source destination : Callsign) (path : List Callsign) (info : Bytes)
    → IsValid source
    → IsValid destination
    → All IsValid path
    → Returns IsConsistent (ui source destination path info)
unfolding ui
ui-Returns source destination path info s d p =
    if-Returns IsConsistent (ltb 8 (length path)) _ _ (λ _. tt)
      λ short. record {
        destination = record { call = d; not_last = refl };
        source = record { call = s; not_last = refl };
        digipeaters = map-new-IsNormal path p;
        count = ground (arith, length-map-new path);
        pid = refl;
        info = inl refl;
      }

-- Whatever is built from valid callsigns reads back from its octets.
pub decode-encode-ui :
    (source destination : Callsign) (path : List Callsign) (info : Bytes) {f : Ax25Frame}
    → IsValid source
    → IsValid destination
    → All IsValid path
    → ui source destination path info ≡ ok f
    → decode (encode f) ≡ ok f
decode-encode-ui source destination path info {f} s d p h = decode-encode_frame f (
    Returns-ok IsConsistent (ui source destination path info)
      (ui-Returns source destination path info s d p) h)

abbrev AllValid : ℕ → List Address × ℕ → Type 0
AllValid room r = All (λ a. IsValid a.call) r.0 × (length r.0 ≤ room)

decode_digipeaters-Returns :
    (room : ℕ) (buf : Bytes) (offset : ℕ) (last : Bool)
    → Returns (AllValid room) (decode_digipeaters room buf offset last)
unfolding decode_digipeaters
decode_digipeaters-Returns room buf offset true = (tt, omega arith)
decode_digipeaters-Returns zero buf offset false = tt
decode_digipeaters-Returns (suc room) buf offset false =
    >>=-Returns (λ _. Unit {0}) (AllValid (suc room))
      (ok_or (get_from buf offset) (error truncated)) _
      (ok_or-Returns (λ _. Unit {0}) (get_from buf offset) truncated (λ _ _. tt))
      λ rest _ _.
        >>=-Returns (λ a. IsValid a.call) (AllValid (suc room)) (Address.decode rest) _
          (decode_address-Returns rest)
          λ digi _ v.
            >>=-Returns (AllValid room) (AllValid (suc room))
              (decode_digipeaters room buf (offset + address_len) digi.last) _
              (decode_digipeaters-Returns room buf (offset + address_len) digi.last)
              (λ r _ w. ((v, w.0), omega (arith, w.1)))

abbrev Tail : ℕ → Option ℕ × Bytes → Type 0
Tail control r = (is_some r.0 ≡ carries_pid control) × ((carries_pid control ≡ true) ⊎ (r.1 ≡ []))

decode_tail-Returns :
    (buf : Bytes) (control offset : ℕ) → Returns (Tail control) (decode_tail buf control offset)
unfolding decode_tail
decode_tail-Returns buf control offset =
    if-Returns (Tail control) (carries_pid control) _ _
      (λ c.
        >>=-Returns (λ _. offset < length buf) (Tail control) (octet_at buf offset) _
          (ok_or-Returns (λ _. offset < length buf) (get_elem? buf offset) truncated
            (λ _. lt_of_get_elem? buf offset))
          λ p _ lt.
            >>=-Returns (λ _. Unit {0}) (Tail control) (slice_from buf (offset + 1)) _
              (slice_from-Returns _ (λ _. Unit {0}) buf (offset + 1) (omega arith) tt)
              (λ info _ _. (sym c, inl c)))
      (λ c. (sym c, inr refl))

normal-IsNormal : (ds : List Address) → All (λ a. IsValid a.call) ds → All IsNormal (map normal ds)
normal-IsNormal [] v = tt
normal-IsNormal (d ∷ ds) v = (record { call = v.0; not_last = refl }, normal-IsNormal ds v.1)

length-map-normal : (ds : List Address) → length (map normal ds) ≡ length ds
length-map-normal [] = refl
length-map-normal (d ∷ ds) = ap (λ n. suc n) (length-map-normal ds)

-- No octets make `decode` panic, and every frame that it accepts is consistent.
pub decode_frame-Returns : (buf : Bytes) → Returns IsConsistent (decode buf)
unfolding decode
decode_frame-Returns buf =
    >>=-Returns (λ a. IsValid a.call) IsConsistent (Address.decode buf) _
      (decode_address-Returns buf)
      λ dest e d. guard-Returns IsConsistent (not dest.last) bad_address _ λ _.
        >>=-Returns (λ _. Unit {0}) IsConsistent (slice_from buf 7) _
          (slice_from-Returns _ (λ _. Unit {0}) buf 7 (decode-length buf e) tt)
          λ rest _ _.
            >>=-Returns (λ a. IsValid a.call) IsConsistent (Address.decode rest) _
              (decode_address-Returns rest)
              λ source _ s.
                >>=-Returns (AllValid 8) IsConsistent (decode_digipeaters 8 buf 14 source.last) _
                  (decode_digipeaters-Returns 8 buf 14 source.last)
                  λ r _ a.
                    >>=-Returns (λ _. Unit {0}) IsConsistent (octet_at buf r.1) _
                      (ok_or-Returns (λ _. Unit {0}) (get_elem? buf r.1) truncated (λ _ _. tt))
                      λ control _ _.
                        >>=-Returns (Tail control) IsConsistent (decode_tail buf control (r.1 + 1))
                          _ (decode_tail-Returns buf control (r.1 + 1))
                          λ t _ tail. record {
                            destination = record { call = d; not_last = refl };
                            source = record { call = s; not_last = refl };
                            digipeaters = normal-IsNormal r.0 a.0;
                            count = omega (arith, length-map-normal r.0, a.1);
                            pid = tail.0;
                            info = tail.1;
                          }

-- What was heard and is sent on again is heard as the same frame.
pub decode-encode-decode :
    (buf : Bytes) {f : Ax25Frame} → decode buf ≡ ok f → decode (encode f) ≡ ok f
decode-encode-decode buf {f} h =
    decode-encode_frame f (Returns-ok IsConsistent (decode buf) (decode_frame-Returns buf) h)
