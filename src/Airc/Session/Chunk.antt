-- ===== src/Airc/Session/Chunk.antt =====
-- Cutting a payload into fragments, `chunk_payload` of src/airc/session.rs.
use rfircd.Prelude.{
  ℕ, zero, suc, ◌-◌, ◌≤◌, ◌≡◌, refl, ap, ◌∙◌, Bool, List, [], ◌∷◌, ◌++◌, Bytes, arith, max, leb,
  if◌then◌else◌, length, is_empty, take, drop, All, append-nil, take-append-drop, length-take,
  length-drop, inl, inr, Bool-cases, leb→le,
}

-- The slices of `chunks(n)`, with as much fuel as there are octets.
unfoldable pub chunks_from : ℕ → ℕ → Bytes → List Bytes
chunks_from zero n bs = []
chunks_from (suc fuel) n [] = []
chunks_from (suc fuel) n (b ∷ bs) =
    let rest = chunks_from fuel n (drop n (b ∷ bs)) in take n (b ∷ bs) ∷ rest

unfoldable pub chunks : ℕ → Bytes → List Bytes
chunks n bs = chunks_from (length bs) n bs

-- The limit of the first fragment, which may have to leave room for an acknowledged number.
abbrev pub first_max : ℕ → Bool → ℕ
first_max limit piggy = if piggy then max (limit - 2) 1 else limit

unfoldable pub chunk_payload : Bytes → ℕ → Bool → List Bytes
chunk_payload payload limit piggy =
    let first = first_max limit piggy in
    if is_empty payload
    then [] ∷ []
    else if leb (length payload) first
    then payload ∷ []
    else take first payload ∷ chunks limit (drop first payload)

-- Fragments put together again.
abbrev pub join : List Bytes → Bytes
join [] = []
join (c ∷ cs) = c ++ join cs

join-chunks_from :
    (fuel n : ℕ) (bs : Bytes) → length bs ≤ fuel → 1 ≤ n → join (chunks_from fuel n bs) ≡ bs
unfolding chunks_from
join-chunks_from zero n [] h p = refl
join-chunks_from zero n (b ∷ bs) h p = absurd (omega arith)
join-chunks_from (suc fuel) n [] h p = refl
join-chunks_from (suc fuel) n (b ∷ bs) h p =
    ap (λ r. take n (b ∷ bs) ++ r)
      (join-chunks_from fuel n (drop n (b ∷ bs)) (omega (arith, length-drop n (b ∷ bs))) p)
    ∙ take-append-drop n (b ∷ bs)

-- No octet of the payload is lost, added or moved.
pub join-chunk_payload :
    (payload : Bytes) (limit : ℕ) (piggy : Bool)
    → 1 ≤ limit
    → join (chunk_payload payload limit piggy) ≡ payload
unfolding chunk_payload chunks
join-chunk_payload payload limit piggy h =
    let first = first_max limit piggy in
    let rest = drop first payload in
    ground (
      arith,
      append-nil payload,
      join-chunks_from (length rest) limit rest,
      take-append-drop first payload,
    )

chunks_from-le :
    (fuel n : ℕ) (bs : Bytes)
    → 1 ≤ n
    → All (λ c. (1 ≤ length c) × (length c ≤ n)) (chunks_from fuel n bs)
unfolding chunks_from
chunks_from-le zero n bs p = tt
chunks_from-le (suc fuel) n [] p = tt
chunks_from-le (suc fuel) n (b ∷ bs) p =
    (omega (arith, length-take n (b ∷ bs)), chunks_from-le fuel n (drop n (b ∷ bs)) p)

-- A fragment fits: the first one beside the number that it may carry, the others alone.
abbrev pub Fit : ℕ → Bool → List Bytes → Type 0
Fit limit piggy [] = ⊥
Fit limit piggy (c ∷ cs) =
    (length c ≤ first_max limit piggy) × All (λ c. (1 ≤ length c) × (length c ≤ limit)) cs

-- There is at least one fragment, every one fits, and none after the first is empty.
pub chunk_payload-Fit :
    (payload : Bytes) (limit : ℕ) (piggy : Bool)
    → 1 ≤ limit
    → Fit limit piggy (chunk_payload payload limit piggy)
unfolding chunk_payload chunks
chunk_payload-Fit [] limit piggy h = (omega arith, tt)
chunk_payload-Fit (b ∷ bs) limit piggy h =
    let first = first_max limit piggy in
    elim (Bool-cases (leb (length (b ∷ bs)) first)) [
      | inl short ↦ rw short (leb→le (length (b ∷ bs)) first short, tt)
      | inr long ↦ rw long (
        omega (arith, length-take first (b ∷ bs)),
        chunks_from-le (length (drop first (b ∷ bs))) limit (drop first (b ∷ bs)) h,
      )
    ]
