-- ===== src/Airc/Frame/Fields.antt =====
-- Fields of an AIRC payload, src/airc/frame.rs, written and split again.
use rfircd.Prelude.{
  ℕ, ◌≡◌, refl, ap, ◌∙◌, Bool, true, not, ◌&&◌, List, [], ◌∷◌, ◌++◌, map, Bytes, arith, ◌==◌, all,
  keep, subst, append-nil,
}
use rfircd.Airc.Frame.{fs, allowed, split_fields, encode_fields}

keep-allowed : (f : Bytes) → all allowed (keep allowed f) ≡ true
keep-allowed [] = refl
keep-allowed (b ∷ f) = ground (arith, keep-allowed f)

split_fields-last : (f : Bytes) → all allowed f ≡ true → split_fields f ≡ f ∷ []
unfolding split_fields
split_fields-last [] h = refl
split_fields-last (b ∷ f) h = ground (arith, split_fields-last f)

split_fields-first :
    (f rest : Bytes)
    → all allowed f ≡ true
    → split_fields (f ++ (fs ∷ rest)) ≡ f ∷ split_fields rest
unfolding split_fields
split_fields-first [] rest h = refl
split_fields-first (b ∷ f) rest h = ground (arith, split_fields-first f rest)

-- A payload of at least one field splits into as many fields, each without the octets that are not
-- allowed in one; so no field can add another.
pub split_fields-encode_fields :
    (f : Bytes) (rest : List Bytes)
    → split_fields (encode_fields (f ∷ rest)) ≡ map (keep allowed) (f ∷ rest)
unfolding encode_fields
split_fields-encode_fields f [] = split_fields-last (keep allowed f) (keep-allowed f)
split_fields-encode_fields f (g ∷ rest) =
    split_fields-first (keep allowed f) (encode_fields (g ∷ rest)) (keep-allowed f)
    ∙ ap (λ r. keep allowed f ∷ r) (split_fields-encode_fields g rest)

-- An octet that cannot end or cut an IRC line.
abbrev pub harmless : ℕ → Bool
harmless b = not (b == 0x0D) && not (b == 0x0A) && not (b == 0)

harmless-keep :
    (f rest : Bytes) → all harmless rest ≡ true → all harmless (keep allowed f ++ rest) ≡ true
harmless-keep [] rest h = h
harmless-keep (b ∷ f) rest h = ground (arith, harmless-keep f rest h)

-- A payload holds no CR, LF or NUL, whatever the fields were, so that it cannot end an IRC line.
pub encode_fields-harmless : (fields : List Bytes) → all harmless (encode_fields fields) ≡ true
unfolding encode_fields
encode_fields-harmless [] = refl
encode_fields-harmless (f ∷ []) =
    subst (λ w. all harmless w ≡ true) (append-nil (keep allowed f)) (harmless-keep f [] refl)
encode_fields-harmless (f ∷ (g ∷ rest)) =
    harmless-keep f (fs ∷ encode_fields (g ∷ rest)) (encode_fields-harmless (g ∷ rest))
