-- ===== src/Ax25/Frame/Roundtrip.antt =====
-- A frame of src/ax25/frame.rs through its octets, and what `decode` accepts.
use rfircd.Prelude.{
  ℕ, suc, zero, ◌+◌, ◌*◌, ◌≤◌, ◌≡◌, refl, sym, ap, ◌∙◌, ◌⊎◌, inl, inr, true, false, List, [], ◌∷◌,
  ◌++◌, map, Option, none, some, Bytes, arith, ok, length, is_empty, All, length-append,
  append_assoc, get_elem?-append,
}
use rfircd.Prelude.Assoc.{is_some}
use rfircd.Prelude.Slices.{slice_from, get_from-append, slice_from-append}
use rfircd.Callsign.Valid.{IsValid}
use rfircd.Ax25.{Ax25Error}
use rfircd.Ax25.Address
use rfircd.Ax25.Address.{Address}
use rfircd.Ax25.Address.Roundtrip.{decode-encode_address, length-encode}
use rfircd.Ax25.Frame.{
  Ax25Frame, carries_pid, encode_digipeaters, pid_octets, encode, decode_digipeaters, octet_at,
  decode_tail, normal, decode,
}

-- An address as `decode` returns it, with the extension bit cleared.
pub record IsNormal (a : Address) : Type 0 where
  pub call : IsValid a.call
  pub not_last : a.last ≡ false

-- The PID is there exactly in I and UI frames, and the information field only in them.
pub record IsConsistent (f : Ax25Frame) : Type 0 where
  pub destination : IsNormal f.destination
  pub source : IsNormal f.source
  pub digipeaters : All IsNormal f.digipeaters
  pub count : length f.digipeaters ≤ 8
  pub pid : is_some f.pid ≡ carries_pid f.control
  pub info : (carries_pid f.control ≡ true) ⊎ (f.info ≡ [])

-- The digipeaters as they are sent, with the extension bit on the last.
flagged : List Address → List Address
flagged [] = []
flagged (d ∷ ds) = record d { last = is_empty ds } ∷ flagged ds

normal-flagged : (ds : List Address) → All IsNormal ds → map normal (flagged ds) ≡ ds
unfolding flagged
normal-flagged [] v = refl
normal-flagged (d ∷ ds) v = ground (arith, normal-flagged ds v.1, v.0.not_last)

length-encode_digipeaters : (ds : List Address) → length (encode_digipeaters ds) ≡ 7 * length ds
unfolding encode_digipeaters
length-encode_digipeaters [] = refl
length-encode_digipeaters (d ∷ ds) =
    let d' : Address = record d { last = is_empty ds } in
    omega (
      arith,
      length-append (Address.encode d') (encode_digipeaters ds),
      length-encode d',
      length-encode_digipeaters ds,
    )

decode_digipeaters-encode :
    (ds : List Address) (pre rest : Bytes) (room : ℕ)
    → length ds ≤ room
    → All IsNormal ds
    → decode_digipeaters room (pre ++ (encode_digipeaters ds ++ rest)) (length pre) (is_empty ds)
      ≡ ok (flagged ds, length pre + 7 * length ds)
unfolding encode_digipeaters decode_digipeaters flagged
decode_digipeaters-encode [] pre rest room h v = ap (λ n. ok ([], n)) (omega arith)
decode_digipeaters-encode (d ∷ ds) pre rest zero h v = absurd (omega arith)
decode_digipeaters-encode (d ∷ ds) pre rest (suc room) h v =
    let d' : Address = record d { last = is_empty ds } in
    let e = Address.encode d' in
    let more = encode_digipeaters ds ++ rest in
    let ih = decode_digipeaters-encode ds (pre ++ e) rest room (omega arith) v.1 in
    let whole : pre ++ ((e ++ encode_digipeaters ds) ++ rest) ≡ (pre ++ e) ++ more =
      ap (λ w. pre ++ w) (append_assoc e (encode_digipeaters ds) rest)
      ∙ sym (append_assoc pre e more) in
    let behind : length pre + 7 ≡ length (pre ++ e) =
      omega (arith, length-append pre e, length-encode d') in
    let next =
      ap (λ w. decode_digipeaters room w (length pre + 7) (is_empty ds)) whole
      ∙ ap (λ n. decode_digipeaters room ((pre ++ e) ++ more) n (is_empty ds)) behind
      ∙ ih in
    rw
      (
        get_from-append pre ((e ++ encode_digipeaters ds) ++ rest),
        append_assoc e (encode_digipeaters ds) rest,
        decode-encode_address d' more v.0.call,
        next,
      )
      (ap (λ n. ok (d' ∷ flagged ds, n)) (omega (arith, length-append pre e, length-encode d')))

octet_at-append :
    (pre rest : Bytes) (x n : ℕ) → length pre ≡ n → octet_at (pre ++ (x ∷ rest)) n ≡ ok x
octet_at-append pre rest x n h = rw (← h, get_elem?-append pre rest x) refl

module _ (pre info : Bytes) (control : ℕ) where
  decode_tail_pid :
      (p : ℕ)
      → carries_pid control ≡ true
      → decode_tail (pre ++ (control ∷ (p ∷ info))) control (length pre + 1) ≡ ok (some p, info)
  unfolding decode_tail
  decode_tail_pid p c =
      let one : pre ++ (control ∷ (p ∷ info)) ≡ (pre ++ (control ∷ [])) ++ (p ∷ info) =
        sym (append_assoc pre (control ∷ []) (p ∷ info)) in
      let two : pre ++ (control ∷ (p ∷ info)) ≡ (pre ++ (control ∷ (p ∷ []))) ++ info =
        sym (append_assoc pre (control ∷ (p ∷ [])) info) in
      let at : octet_at (pre ++ (control ∷ (p ∷ info))) (length pre + 1) ≡ ok p =
        ap (λ w. octet_at w (length pre + 1)) one
        ∙ octet_at-append (pre ++ (control ∷ [])) info p (length pre + 1)
            (length-append pre (control ∷ [])) in
      let from : slice_from {E = Ax25Error} (pre ++ (control ∷ (p ∷ info))) (length pre + 1 + 1)
          ≡ ok info =
        ap (λ w. slice_from w (length pre + 1 + 1)) two
        ∙ slice_from-append (pre ++ (control ∷ (p ∷ []))) info (length pre + 1 + 1)
            (length-append pre (control ∷ (p ∷ [])) ∙ omega arith) in
      rw (decode_tail, c, at, from) refl

  decode_tail-encode :
      (pid : Option ℕ)
      → is_some pid ≡ carries_pid control
      → (carries_pid control ≡ true) ⊎ (info ≡ [])
      → decode_tail (pre ++ (control ∷ (pid_octets pid ++ info))) control (length pre + 1)
        ≡ ok (pid, info)
  decode_tail-encode (some p) e i = decode_tail_pid p (sym e)
  decode_tail-encode none e (inl c) = absurd (cc)
  decode_tail-encode none e (inr i) = unfold decode_tail in rw (decode_tail, ← e, i) refl

-- `decode` from what each of its steps returns.
decode_of_steps :
    (buf rest : Bytes) (dest source : Address) (ds : List Address) (off control : ℕ)
    (pid : Option ℕ) (info : Bytes)
    → Address.decode buf ≡ ok dest
    → dest.last ≡ false
    → slice_from {E = Ax25Error} buf 7 ≡ ok rest
    → Address.decode rest ≡ ok source
    → decode_digipeaters 8 buf 14 source.last ≡ ok (ds, off)
    → octet_at buf off ≡ ok control
    → decode_tail buf control (off + 1) ≡ ok (pid, info)
    → decode buf
      ≡ ok (record {
        destination = normal dest;
        source = normal source;
        digipeaters = map normal ds;
        control = control;
        pid = pid;
        info = info;
      })
unfolding decode
decode_of_steps buf rest dest source ds off control pid info e1 l e2 e3 e4 e5 e6 =
    rw (decode, e1, l, e2, e3, e4, e5, e6) refl

-- The octets of a consistent frame decode to it.
pub decode-encode_frame : (f : Ax25Frame) → IsConsistent f → decode (encode f) ≡ ok f
unfolding encode
decode-encode_frame f v =
    let ds = f.digipeaters in
    let dest : Address = normal f.destination in
    let source : Address = record (f.source) { last = is_empty ds } in
    let d = Address.encode dest in
    let s = Address.encode source in
    let g = encode_digipeaters ds in
    let t = f.control ∷ (pid_octets f.pid ++ f.info) in
    let off = 14 + 7 * length ds in
    let two : length (d ++ s) ≡ 14 =
      omega (arith, length-append d s, length-encode dest, length-encode source) in
    let all : length ((d ++ s) ++ g) ≡ off =
      omega (arith, length-append (d ++ s) g, two, length-encode_digipeaters ds) in
    let head : d ++ (s ++ (g ++ t)) ≡ (d ++ s) ++ (g ++ t) = sym (append_assoc d s (g ++ t)) in
    let body : d ++ (s ++ (g ++ t)) ≡ ((d ++ s) ++ g) ++ t =
      head ∙ sym (append_assoc (d ++ s) g t) in
    decode_of_steps (d ++ (s ++ (g ++ t))) (s ++ (g ++ t)) dest source (flagged ds) off f.control
      f.pid f.info (decode-encode_address dest _ v.destination.call) refl
      (slice_from-append d _ 7 (length-encode dest)) (decode-encode_address source _ v.source.call)
      (ap (λ w. decode_digipeaters 8 w 14 (is_empty ds)) head
        ∙ ap (λ n. decode_digipeaters 8 ((d ++ s) ++ (g ++ t)) n (is_empty ds)) (sym two)
        ∙ decode_digipeaters-encode ds (d ++ s) t 8 v.count v.digipeaters
        ∙ ap (λ n. ok (flagged ds, n + 7 * length ds)) two)
      (ap (λ w. octet_at w off) body
        ∙ octet_at-append ((d ++ s) ++ g) (pid_octets f.pid ++ f.info) f.control off all)
      (ap (λ w. decode_tail w f.control (off + 1)) body
        ∙ ap (λ n. decode_tail (((d ++ s) ++ g) ++ t) f.control (n + 1)) (sym all)
        ∙ decode_tail-encode ((d ++ s) ++ g) f.info f.control f.pid v.pid v.info)
    ∙ ground (arith, normal-flagged ds v.digipeaters, v.destination.not_last, v.source.not_last)
