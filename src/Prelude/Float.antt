-- ===== src/Prelude/Float.antt =====
-- What the program uses of `f64`: the operations of the standard library, as an interface without
-- laws. A statement that needs one takes it as a hypothesis.
use Prim.Native.Nat.{ℕ}
use mathlib.Core.Bool.{Bool}
use rfircd.Prelude.Tests.{if◌then◌else◌}

pub record Float : Type 1 where
  pub F : Type 0
  -- `n as f64`, and a literal that is a whole number.
  pub of_nat : ℕ → F
  pub add : F → F → F
  pub sub : F → F → F
  pub mul : F → F → F
  pub div : F → F → F
  pub neg : F → F
  pub lt : F → F → Bool
  pub le : F → F → Bool
  pub max : F → F → F
  pub min : F → F → F
  pub log2 : F → F
  -- `x as u64`.
  pub to_nat : F → ℕ
  -- `Duration::as_secs_f64` and `Duration::mul_f64`, a duration being its nanoseconds.
  pub secs : ℕ → F
  pub mul_duration : ℕ → F → ℕ

module _ (fl : Float) where
  open fl use {F, of_nat, div, lt}

  -- The literal 0.5.
  abbrev pub half : F
  half = div (of_nat 1) (of_nat 2)

  -- `f64::clamp`, for bounds in order.
  abbrev pub clamp : F → F → F → F
  clamp x lo hi = if lt x lo then lo else if lt hi x then hi else x
