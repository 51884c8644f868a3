-- ===== src/Float.antt =====
-- The floating-point arithmetic of the machine, which the source takes from C++: a value is its
-- bit pattern, as in the unions `Float32Bits` and `Float64Bits` of onejit/value.hpp.
use onejit.Base.{ℕ, Bool, Option}

-- Arithmetic of one width. The integers are those of `int64_t`, sign-extended, and of `uint64_t`;
-- a conversion to an integer of the width given is undefined (`none`) where it does not fit.
pub record FloatOps : Type 0 where
  pub of_signed : ℕ → ℕ
  pub of_unsigned : ℕ → ℕ
  pub to_signed : ℕ → ℕ → Option ℕ
  pub to_unsigned : ℕ → ℕ → Option ℕ
  pub neg : ℕ → ℕ
  pub add : ℕ → ℕ → ℕ
  pub sub : ℕ → ℕ → ℕ
  pub mul : ℕ → ℕ → ℕ
  pub quo : ℕ → ℕ → ℕ
  pub eql : ℕ → ℕ → Bool
  pub lss : ℕ → ℕ → Bool
  pub leq : ℕ → ℕ → Bool

pub record Fpu : Type 0 where
  pub single : FloatOps
  pub double : FloatOps
  pub widen : ℕ → ℕ
  pub narrow : ℕ → ℕ
