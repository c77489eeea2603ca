-- ===== src/Prelude/Slices.antt =====
-- Indexing and slicing of octets, which panic out of range.
use rfircd.Prelude.Results.{Result, ok, err, ok_or, Fault, panic, Returns}
use Prim.Native.Nat.{ℕ, zero, suc, ◌≤◌, ◌<◌}
use mathlib.Core.Path.{◌≡◌, refl}
use mathlib.Core.List.{List, [], ◌∷◌, ◌++◌}
use mathlib.Core.Option.{Option, none, some}
use native.Mathlib.Omega.{arith}
use rfircd.Prelude.Tests.{if◌then◌else◌, leb, le→leb}
use rfircd.Prelude.Lists.{length, get_elem?-lt, length-append, drop-append, get_elem?, take, drop}

module _ {E A : Type 0} where
  -- `xs[i]`.
  abbrev pub index : List A → ℕ → Result (Fault E) A
  index xs i = ok_or (get_elem? xs i) panic

  -- `&xs[n..]`.
  abbrev pub slice_from : List A → ℕ → Result (Fault E) (List A)
  slice_from xs n = if leb n (length xs) then ok (drop n xs) else err panic

  -- `&xs[..n]`.
  abbrev pub slice_to : List A → ℕ → Result (Fault E) (List A)
  slice_to xs n = if leb n (length xs) then ok (take n xs) else err panic

-- `xs.get(n..)`.
abbrev pub get_from : {A : Type 0} → List A → ℕ → Option (List A)
get_from xs n = if leb n (length xs) then some (drop n xs) else none

module _ {ℓ} (E : Type 0) {A : Type 0} where
  pub index-Returns :
      (P : A → Type ℓ) (xs : List A) (i : ℕ)
      → i < length xs
      → ((a : A) → get_elem? xs i ≡ some a → P a)
      → Returns {E = E} P (index xs i)
  index-Returns P xs i h k = let (a, e) = get_elem?-lt xs i h in rw e (k a e)

  pub slice_from-Returns :
      (P : List A → Type ℓ) (xs : List A) (n : ℕ)
      → n ≤ length xs
      → P (drop n xs)
      → Returns {E = E} P (slice_from xs n)
  slice_from-Returns P xs n h k = rw (le→leb n (length xs) h) k

  pub slice_to-Returns :
      (P : List A → Type ℓ) (xs : List A) (n : ℕ)
      → n ≤ length xs
      → P (take n xs)
      → Returns {E = E} P (slice_to xs n)
  slice_to-Returns P xs n h k = rw (le→leb n (length xs) h) k

module _ {A : Type 0} where
  pub get_from-append : (xs ys : List A) → get_from (xs ++ ys) (length xs) ≡ some ys
  get_from-append xs ys =
      rw
        (
          le→leb (length xs) (length (xs ++ ys)) (omega (arith, length-append xs ys)),
          drop-append xs ys,
        )
        refl

  pub slice_from-append :
      {E : Type 0} (xs ys : List A) (n : ℕ)
      → length xs ≡ n
      → slice_from {E = E} (xs ++ ys) n ≡ ok ys
  slice_from-append xs ys n h =
      rw
        (
          ← h,
          le→leb (length xs) (length (xs ++ ys)) (omega (arith, length-append xs ys)),
          drop-append xs ys,
        )
        refl

pub lt_of_get_elem? :
    {A : Type 0} (xs : List A) (i : ℕ) {a : A} → get_elem? xs i ≡ some a → i < length xs
lt_of_get_elem? [] i h = absurd (cc)
lt_of_get_elem? (x ∷ xs) zero h = omega arith
lt_of_get_elem? (x ∷ xs) (suc i) h = omega (arith, lt_of_get_elem? xs i h)
