-- ===== src/Server/Commands.antt =====
-- What the commands of src/server/commands/ share: the comparison of secrets.
use Prim.Native.Nat.{bit_xor, bit_xor-bitwise, bit_or-bitwise, differ, digits}
use rfircd.Prelude.{
  ℕ, zero, suc, ◌/◌, ◌%◌, ◌≤◌, ◌≡◌, ◌↔◌, refl, sym, ap, ◌∙◌, Bool, true, [], ◌∷◌, Bytes, max,
  bit_or, length, ◌==◌, ==_iff, if◌then◌else◌, arith, subst,
}

-- The loop: what is behind the shorter side counts as 0.
unfoldable pub diff_from : ℕ → Bytes → Bytes → ℕ
diff_from diff [] [] = diff
diff_from diff (x ∷ a) [] = diff_from (bit_or diff (bit_xor x 0)) a []
diff_from diff [] (y ∷ b) = diff_from (bit_or diff (bit_xor 0 y)) [] b
diff_from diff (x ∷ a) (y ∷ b) = diff_from (bit_or diff (bit_xor x y)) a b

unfoldable pub constant_time_eq : Bytes → Bytes → Bool
unfolding diff_from
constant_time_eq a b = diff_from (if length a == length b then 0 else 1) a b == 0

or_digits : (n a b : ℕ) → a ≤ n → digits (λ b. b) max n a b ≡ 0 → (a ≡ 0) × (b ≡ 0)
or_digits zero a b le h = (omega arith, h)
or_digits (suc n) zero b le h = (refl, h)
or_digits (suc n) (suc a) b le h =
    let rest : digits (λ b. b) max n (suc a / 2) (b / 2) ≡ 0 = omega (arith, h) in
    let halves = or_digits n (suc a / 2) (b / 2) (omega (arith, le)) rest in
    (omega (arith, h, halves.0, halves.1), omega (arith, h, halves.0, halves.1))

same_digits : (x y : ℕ) → differ x y ≡ 0 → x ≡ y
same_digits zero y h = sym h
same_digits (suc x) zero h = absurd (omega (arith, h))
same_digits (suc x) (suc y) h = ap suc (same_digits x y h)

xor_digits : (n a b : ℕ) → a ≤ n → digits (λ b. b) differ n a b ≡ 0 → a ≡ b
xor_digits zero a b le h = omega (arith, le, h)
xor_digits (suc n) zero b le h = sym h
xor_digits (suc n) (suc a) b le h =
    let low = same_digits (suc a % 2) (b % 2) (omega (arith, h)) in
    let rest : digits (λ b. b) differ n (suc a / 2) (b / 2) ≡ 0 = omega (arith, h) in
    let high = xor_digits n (suc a / 2) (b / 2) (omega (arith, le)) rest in omega (arith, low, high)

differ_same : (x : ℕ) → differ x x ≡ 0
differ_same zero = refl
differ_same (suc x) = differ_same x

xor_same_digits : (n a : ℕ) → a ≤ n → digits (λ b. b) differ n a a ≡ 0
xor_same_digits zero a le = omega (arith, le)
xor_same_digits (suc n) zero le = refl
xor_same_digits (suc n) (suc a) le =
    omega (arith, differ_same (suc a % 2), xor_same_digits n (suc a / 2) (omega (arith, le)))

or_zero : (a b : ℕ) → bit_or a b ≡ 0 → (a ≡ 0) × (b ≡ 0)
or_zero a b h = or_digits a a b (omega arith) (sym (λ i. bit_or-bitwise a b i) ∙ h)

xor_zero : (a b : ℕ) → bit_xor a b ≡ 0 → a ≡ b
xor_zero a b h = xor_digits a a b (omega arith) (sym (λ i. bit_xor-bitwise a b i) ∙ h)

xor_same : (a : ℕ) → bit_xor a a ≡ 0
xor_same a = (λ i. bit_xor-bitwise a a i) ∙ xor_same_digits a a (omega arith)

-- Once a difference was seen, it stays.
diff_from-zero : (diff : ℕ) (a b : Bytes) → diff_from diff a b ≡ 0 → diff ≡ 0
unfolding diff_from
diff_from-zero diff [] [] h = h
diff_from-zero diff (x ∷ a) [] h =
    (or_zero diff _ (diff_from-zero (bit_or diff (bit_xor x 0)) a [] h)).0
diff_from-zero diff [] (y ∷ b) h =
    (or_zero diff _ (diff_from-zero (bit_or diff (bit_xor 0 y)) [] b h)).0
diff_from-zero diff (x ∷ a) (y ∷ b) h =
    (or_zero diff _ (diff_from-zero (bit_or diff (bit_xor x y)) a b h)).0

diff_from-same : (diff : ℕ) (a b : Bytes) → length a ≡ length b → diff_from diff a b ≡ 0 → a ≡ b
unfolding diff_from
diff_from-same diff [] [] l h = refl
diff_from-same diff (x ∷ a) [] l h = absurd (omega (arith, l))
diff_from-same diff [] (y ∷ b) l h = absurd (omega (arith, l))
diff_from-same diff (x ∷ a) (y ∷ b) l h =
    let head =
      xor_zero x y ((or_zero diff _ (diff_from-zero (bit_or diff (bit_xor x y)) a b h)).1) in
    let tail = diff_from-same (bit_or diff (bit_xor x y)) a b (omega (arith, l)) h in cc

diff_from_refl : (a : Bytes) → diff_from 0 a a ≡ 0
unfolding diff_from
diff_from_refl [] = refl
diff_from_refl (x ∷ a) = ap (λ d. diff_from d a a) (ap (bit_or 0) (xor_same x)) ∙ diff_from_refl a

-- The comparison says whether the secrets are the same.
pub constant_time_eq_iff : (a b : Bytes) → (constant_time_eq a b ≡ true) ↔ (a ≡ b)
unfolding constant_time_eq
constant_time_eq_iff a b = (
  λ h.
      let none_left = (==_iff _ 0).0 h in
      let start = diff_from-zero _ a b none_left in
      diff_from-same _ a b (ground (arith, start)) none_left,
  λ same. subst (λ x. constant_time_eq a x ≡ true) same (ground (arith, diff_from_refl a)),
)
