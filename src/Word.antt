-- ===== src/Word.antt =====
-- 64-bit words of C++ (`uint64_t`, `size_t`) as native numbers: the wrap is written `% 2 ^ 64`,
-- and the signed readings are those of two's complement.
pub mod Digit
pub mod Bit
pub mod Mask
use onejit.Base.{
  ℕ, ◌+◌, ◌-◌, ◌*◌, ◌/◌, ◌%◌, ◌^◌, Bool, true, false, xor, ltb, leb, ◌==◌, ◌&&◌, ◌||◌,
  if◌then◌else◌, Option, none, some,
}

abbrev pub u8 : ℕ → ℕ
u8 n = n % 2 ^ 8

abbrev pub u32 : ℕ → ℕ
u32 n = n % 2 ^ 32

abbrev pub u64 : ℕ → ℕ
u64 n = n % 2 ^ 64

-- `~x`, `-x`, `a - b` on `uint64_t`
abbrev pub not64 : ℕ → ℕ
not64 x = 2 ^ 64 - 1 - x

abbrev pub neg64 : ℕ → ℕ
neg64 x = (2 ^ 64 - x) % 2 ^ 64

abbrev pub sub64 : ℕ → ℕ → ℕ
sub64 a b = (a + (2 ^ 64 - b)) % 2 ^ 64

abbrev pub sub32 : ℕ → ℕ → ℕ
sub32 a b = (a + (2 ^ 32 - b)) % 2 ^ 32

-- `x << k` and `x >> k` on `uint64_t`, for k < 64
abbrev pub shl64 : ℕ → ℕ → ℕ
shl64 x k = x * 2 ^ k % 2 ^ 64

abbrev pub shr : ℕ → ℕ → ℕ
shr x k = x / 2 ^ k

-- `int64_t(x) < 0`, and the magnitude of `int64_t(x)`
abbrev pub is_neg64 : ℕ → Bool
is_neg64 x = leb (2 ^ 63) x

abbrev pub abs64 : ℕ → ℕ
abs64 x = if is_neg64 x then 2 ^ 64 - x else x

-- `int64_t(a) < int64_t(b)`: moving both by 2 ^ 63 turns the signed order into the unsigned one
abbrev pub bias64 : ℕ → ℕ
bias64 x = (x + 2 ^ 63) % 2 ^ 64

-- `int64_t(a) / int64_t(b)` and `%`, which round towards zero; both are undefined (`none`) when
-- the divisor is 0 and when the quotient does not fit
abbrev pub signed_quo64 : ℕ → ℕ → Option ℕ
signed_quo64 a b =
    if (b == 0) || (a == 2 ^ 63 && b == 2 ^ 64 - 1)
    then none
    else some
        (if xor (is_neg64 a) (is_neg64 b) then neg64 (abs64 a / abs64 b) else abs64 a / abs64 b)

abbrev pub signed_rem64 : ℕ → ℕ → Option ℕ
signed_rem64 a b =
    if (b == 0) || (a == 2 ^ 63 && b == 2 ^ 64 - 1)
    then none
    else some (if is_neg64 a then neg64 (abs64 a % abs64 b) else abs64 a % abs64 b)

-- `int64_t(x) >> k`, which copies the sign bit in
abbrev pub signed_shr64 : ℕ → ℕ → ℕ
signed_shr64 x k = if is_neg64 x then not64 (shr (not64 x) k) else shr x k
