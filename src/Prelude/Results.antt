-- ===== src/Prelude/Results.antt =====
-- `Result<A, E>`, with its `do` notation.
use mathlib.Core.Path.{◌≡◌, refl, subst}
use mathlib.Core.Option.{Option, none, some}
use mathlib.Core.Bool.{Bool, true, false}
use native.Mathlib.Omega.{arith}
use rfircd.Prelude.Tests.{if◌then◌else◌}

pub data Result (E A : Type 0) : Type 0 where
  ok : A → Result E A
  err : E → Result E A

-- The operator `?`.
infixl 5 ◌>>=◌
abbrev pub ◌>>=◌ : {E A B : Type 0} → Result E A → (A → Result E B) → Result E B
ok a >>= f = f a
err e >>= f = err e

infixl 5 ◌>>◌
abbrev pub ◌>>◌ : {E B : Type 0} → Result E (Unit {0}) → Result E B → Result E B
m >> k = m >>= λ _. k

-- An early return with an error, where the test fails.
abbrev pub guard : {E : Type 0} → Bool → E → Result E (Unit {0})
guard true e = ok tt
guard false e = err e

-- `Option::ok_or`.
abbrev pub ok_or : {E A : Type 0} → Option A → E → Result E A
ok_or none e = err e
ok_or (some a) e = ok a

-- `Result::map_err`.
abbrev pub map_err : {E F A : Type 0} → (E → F) → Result E A → Result F A
map_err f (ok a) = ok a
map_err f (err e) = err (f e)

-- How a call of the program can fail: by an error that it returns, or by the panic of an index or
-- a slice out of range.
pub data Fault (E : Type 0) : Type 0 where
  panic : Fault E
  error : E → Fault E

-- `Err(e)`.
abbrev pub fail : {E A : Type 0} → E → Result (Fault E) A
fail e = err (error e)

-- The empty type at every level.
pub data No {ℓ} : Type ℓ where

-- No panic, and what is returned without an error satisfies `P`.
abbrev pub Returns {ℓ} : {E A : Type 0} → (A → Type ℓ) → Result (Fault E) A → Type ℓ
Returns P (ok a) = P a
Returns P (err panic) = No
Returns P (err (error e)) = Unit

pub >>=-Returns {ℓ κ} :
    {E A B : Type 0} (Q : A → Type ℓ) (P : B → Type κ) (m : Result (Fault E) A)
    (f : A → Result (Fault E) B)
    → Returns Q m
    → ((a : A) → m ≡ ok a → Q a → Returns P (f a))
    → Returns P (m >>= f)
>>=-Returns Q P (ok a) f s h = h a refl s
>>=-Returns Q P (err panic) f s h = elim s [ ]
>>=-Returns Q P (err (error e)) f s h = tt

-- A returned value has what `Returns` says of it.
pub Returns-ok {ℓ} :
    {E A : Type 0} (P : A → Type ℓ) (m : Result (Fault E) A) {a : A} → Returns P m → m ≡ ok a → P a
Returns-ok P (ok b) s e = subst P (ground arith) s
Returns-ok P (err panic) s e = elim s [ ]
Returns-ok P (err (error x)) s e = absurd (cc)

pub map_err-Returns {ℓ} :
    {E F A : Type 0} (P : A → Type ℓ) (m : Result E A) (e : F)
    → ((a : A) → m ≡ ok a → P a)
    → Returns P (map_err (λ _. error e) m)
map_err-Returns P (ok a) e h = h a refl
map_err-Returns P (err x) e h = tt

pub guard-Returns {ℓ} :
    {E B : Type 0} (P : B → Type ℓ) (b : Bool) (e : E) (m : Result (Fault E) B)
    → (b ≡ true → Returns P m)
    → Returns P (guard b (error e) >> m)
guard-Returns P true e m h = h refl
guard-Returns P false e m h = tt

pub if-Returns {ℓ} :
    {E A : Type 0} (P : A → Type ℓ) (b : Bool) (m n : Result (Fault E) A)
    → (b ≡ true → Returns P m)
    → (b ≡ false → Returns P n)
    → Returns P (if b then m else n)
if-Returns P true m n f g = f refl
if-Returns P false m n f g = g refl

pub ok_or-Returns {ℓ} :
    {E A : Type 0} (P : A → Type ℓ) (o : Option A) (e : E)
    → ((a : A) → o ≡ some a → P a)
    → Returns P (ok_or o (error e))
ok_or-Returns P none e h = tt
ok_or-Returns P (some a) e h = h a refl

pub map_err_with-Returns {ℓ} :
    {E F A : Type 0} (P : A → Type ℓ) (m : Result E A) (e : E → F)
    → ((a : A) → m ≡ ok a → P a)
    → Returns P (map_err (λ x. error (e x)) m)
map_err_with-Returns P (ok a) e h = h a refl
map_err_with-Returns P (err x) e h = tt
