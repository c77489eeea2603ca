-- ===== src/Airc/Session/Bitmap.antt =====
-- Bitmaps of fragments in src/airc/session.rs: bit `i` of the bitmap says that fragment `i` is there.
use rfircd.Prelude.{
  ℕ, zero, suc, ◌+◌, ◌-◌, ◌*◌, ◌/◌, ◌%◌, ◌^◌, ◌≤◌, ◌<◌, ◌≡◌, refl, ap, ◌∙◌, inl, inr, Bool, true,
  false, not, ◌&&◌, ◌||◌, List, [], ◌∷◌, Option, none, some, Bytes, arith, bit_and, bit_or, max,
  ◌==◌, ==_iff, eqb, eqb→eq, ltb, ltb→lt, ltb→ge, All, All-set, All-get, get_elem?-lt,
  get_elem?-set, get_elem?-replicate, get_elem?-ge, Option-cases, Bool-cases, leb, if◌then◌else◌,
  length, get_elem?, set, replicate, length-set, length-replicate,
}
use rfircd.Prelude.Assoc.{is_some}
use rfircd.Prelude.Bits.{tests_below, tests_below_sound}

-- `b & (1 << k) != 0`.
abbrev pub octet_bit : ℕ → ℕ → Bool
octet_bit b k = not (bit_and b (2 ^ k) == 0)

unfoldable pub bit_set : Bytes → ℕ → Bool
bit_set bits i = elim (get_elem? bits (i / 8)) [ none ↦ false | some b ↦ octet_bit b (i % 8) ]

-- `b[i / 8] |= 1 << (i % 8)`, where the index is in range.
unfoldable pub mark : Bytes → ℕ → Bytes
mark b i = elim (get_elem? b (i / 8)) [ none ↦ b | some x ↦ set b (i / 8) (bit_or x (2 ^ (i % 8))) ]

-- The loop of `bitmap_from_parts`, from fragment `i` on.
unfoldable pub mark_parts : Bytes → ℕ → List (Option Bytes) → Bytes
mark_parts b i [] = b
mark_parts b i (p ∷ ps) = mark_parts (if is_some p then mark b i else b) (i + 1) ps

-- `parts.len().div_ceil(8).max(1)` octets of zero, marked.
unfoldable pub bitmap_from_parts : List (Option Bytes) → Bytes
bitmap_from_parts parts = mark_parts (replicate (max ((length parts + 7) / 8) 1) 0) 0 parts

mark_reads : ℕ → ℕ → ℕ → Bool
mark_reads k j x = eqb (octet_bit (bit_or x (2 ^ k)) j) (k == j || octet_bit x j)

mark_table : tests_below 8 (λ k. tests_below 8 (λ j. tests_below 256 (mark_reads k j))) ≡ true
unfolding tests_below mark_reads
mark_table = refl

-- A marked bit is set, and the others are as they were.
octet_bit-mark :
    (k j x : ℕ)
    → k < 8
    → j < 8
    → x < 256
    → octet_bit (bit_or x (2 ^ k)) j ≡ (k == j || octet_bit x j)
octet_bit-mark k j x hk hj hx =
    let a =
      tests_below_sound 8 (λ k. tests_below 8 (λ j. tests_below 256 (mark_reads k j))) k mark_table
        hk in
    let b = tests_below_sound 8 (λ j. tests_below 256 (mark_reads k j)) j a hj in
    let c = tests_below_sound 256 (mark_reads k j) x b hx in unfold mark_reads in eqb→eq _ _ c

bounded_mark : ℕ → ℕ → Bool
bounded_mark k x = ltb (bit_or x (2 ^ k)) 256

bounded_table : tests_below 8 (λ k. tests_below 256 (bounded_mark k)) ≡ true
unfolding tests_below bounded_mark
bounded_table = refl

bit_or-lt : (k x : ℕ) → k < 8 → x < 256 → bit_or x (2 ^ k) < 256
bit_or-lt k x hk hx =
    let a = tests_below_sound 8 (λ k. tests_below 256 (bounded_mark k)) k bounded_table hk in
    ltb→lt _ _ (unfold bounded_mark in tests_below_sound 256 (bounded_mark k) x a hx)

abbrev AllOctets : Bytes → Type 0
AllOctets b = All (λ x. x < 256) b

mark-AllOctets : (b : Bytes) (i : ℕ) → AllOctets b → AllOctets (mark b i)
unfolding mark
mark-AllOctets b i o = elim (Option-cases (get_elem? b (i / 8))) [
  | inl e ↦ rw (mark, e) o
  | inr (x, e) ↦
      rw (mark, e)
        (All-set (λ x. x < 256) b (i / 8) (bit_or x (2 ^ (i % 8))) o
          (bit_or-lt (i % 8) x (omega arith) (All-get (λ x. x < 256) b (i / 8) o e)))
]

length-mark : (b : Bytes) (i : ℕ) → length (mark b i) ≡ length b
unfolding mark
length-mark b i = elim (Option-cases (get_elem? b (i / 8))) [
  | inl e ↦ rw (mark, e) refl
  | inr (x, e) ↦ rw (mark, e) (length-set b (i / 8) (bit_or x (2 ^ (i % 8))))
]

same_octet : (i j : ℕ) → i / 8 ≡ j / 8 → (i % 8 == j % 8) ≡ (i == j)
same_octet i j e = ground arith

bit_set-mark :
    (b : Bytes) (i j : ℕ)
    → AllOctets b
    → i < 8 * length b
    → bit_set (mark b i) j ≡ (i == j || bit_set b j)
unfolding mark bit_set
bit_set-mark b i j o h =
    let (x, e) = get_elem?-lt b (i / 8) (omega arith) in
    let small = All-get (λ x. x < 256) b (i / 8) o e in
    let v = bit_or x (2 ^ (i % 8)) in
    elim (Bool-cases (i / 8 == j / 8)) [
      | inl same ↦
          let q : i / 8 ≡ j / 8 = (==_iff (i / 8) (j / 8)).0 same in
          rw (bit_set, mark, e, get_elem?-set b (i / 8) (j / 8) v e, same, ← q, e)
            (octet_bit-mark (i % 8) (j % 8) x (omega arith) (omega arith) small
              ∙ ap (λ t. t || octet_bit x (j % 8)) (same_octet i j q))
      | inr other ↦
          let ne : (i == j) ≡ false = ground arith in
          rw (bit_set, mark, e, get_elem?-set b (i / 8) (j / 8) v e, other, ne) refl
    ]

-- Whether a fragment is there.
abbrev pub present : List (Option Bytes) → ℕ → Bool
present parts i = elim (get_elem? parts i) [ none ↦ false | some p ↦ is_some p ]

present_later :
    (q : Option Bytes) (ps : List (Option Bytes)) (i j : ℕ)
    → i < j
    → present (q ∷ ps) (j - i) ≡ present ps (j - (i + 1))
present_later q ps i j h = let e : j - i ≡ suc (j - (i + 1)) = omega arith in rw e refl

present_here :
    (q : Option Bytes) (ps : List (Option Bytes)) (i j : ℕ)
    → i ≡ j
    → present (q ∷ ps) (j - i) ≡ is_some q
present_here q ps i j h = let e : j - i ≡ 0 = omega arith in rw e refl

mark_parts-AllOctets :
    (b : Bytes) (i : ℕ) (ps : List (Option Bytes)) → AllOctets b → AllOctets (mark_parts b i ps)
unfolding mark_parts
mark_parts-AllOctets b i [] o = o
mark_parts-AllOctets b i (none ∷ ps) o = mark_parts-AllOctets b (i + 1) ps o
mark_parts-AllOctets b i (some p ∷ ps) o =
    mark_parts-AllOctets (mark b i) (i + 1) ps (mark-AllOctets b i o)

bit_set-mark_parts :
    (b : Bytes) (i : ℕ) (ps : List (Option Bytes)) (j : ℕ)
    → AllOctets b
    → i + length ps ≤ 8 * length b
    → bit_set (mark_parts b i ps) j ≡ (bit_set b j || (leb i j && present ps (j - i)))
unfolding mark_parts
bit_set-mark_parts b i [] j o h = ground arith
bit_set-mark_parts b i (none ∷ ps) j o h =
    bit_set-mark_parts b (i + 1) ps j o (omega arith)
    ∙ ground (arith, present_later none ps i j, present_here none ps i j)
bit_set-mark_parts b i (some p ∷ ps) j o h =
    bit_set-mark_parts (mark b i) (i + 1) ps j (mark-AllOctets b i o)
      (omega (arith, length-mark b i))
    ∙ ground
        (arith, bit_set-mark b i j o, present_later (some p) ps i j, present_here (some p) ps i j)

zeros : (n : ℕ) → AllOctets (replicate n 0)
zeros zero = tt
zeros (suc n) = (omega arith, zeros n)

zero_table : tests_below 8 (λ k. not (octet_bit 0 k)) ≡ true
unfolding tests_below
zero_table = refl

octet_bit-zero : (k : ℕ) → k < 8 → octet_bit 0 k ≡ false
octet_bit-zero k h = ground (arith, tests_below_sound 8 (λ k. not (octet_bit 0 k)) k zero_table h)

bit_set-zeros : (n j : ℕ) → bit_set (replicate n 0) j ≡ false
unfolding bit_set
bit_set-zeros n j = elim (Bool-cases (ltb (j / 8) n)) [
  | inl inside ↦
      rw (bit_set, get_elem?-replicate {A = ℕ} n 0 (j / 8) (ltb→lt (j / 8) n inside))
        (octet_bit-zero (j % 8) (omega arith))
  | inr outside ↦
      let past : length (replicate {A = ℕ} n 0) ≤ j / 8 =
        omega (arith, length-replicate {A = ℕ} n 0, ltb→ge (j / 8) n outside) in
      rw (bit_set, get_elem?-ge (replicate {A = ℕ} n 0) (j / 8) past) refl
]

-- The bitmap says of every number whether that fragment is there.
pub bit_set-bitmap_from_parts :
    (parts : List (Option Bytes)) (j : ℕ) → bit_set (bitmap_from_parts parts) j ≡ present parts j
unfolding bitmap_from_parts
bit_set-bitmap_from_parts parts j =
    let n = max ((length parts + 7) / 8) 1 in
    bit_set-mark_parts (replicate n 0) 0 parts j (zeros n)
      (omega (arith, length-replicate {A = ℕ} n 0))
    ∙ ground (arith, bit_set-zeros n j)
