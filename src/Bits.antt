-- ===== src/Bits.antt =====
-- `Bits` of onejit/bits.hpp: a number of bits, or of repetitions, as its logarithm. Values are
-- `uint8_t`, and 255 stands for the number 0.
pub mod Counts
use onejit.Base.{ℕ, ◌+◌, ◌-◌, ◌^◌, Bool, not, ◌==◌, ltb, ◌||◌, if◌then◌else◌}
use onejit.Word.{u8}

-- `Bits0`
abbrev pub bits0 : ℕ
bits0 = 255

unfoldable pub is_zero : ℕ → Bool
is_zero bits = bits == bits0

-- `Bits::val`: a logarithm above 9 has no name in `eBits`; a shift by 64 or more is undefined.
unfoldable pub val : ℕ → ℕ
unfolding is_zero
val bits = if is_zero bits then 0 else 2 ^ bits

-- `operator<`: the overflow of `1 + log2()` puts the number 0 first
unfoldable pub less : ℕ → ℕ → Bool
less a b = ltb (u8 (1 + a)) (u8 (1 + b))

unfoldable pub times : ℕ → ℕ → ℕ
unfolding is_zero
times a b = if is_zero a || is_zero b then bits0 else u8 (a + b)

unfoldable pub divided : ℕ → ℕ → ℕ
unfolding is_zero less
divided a b = if is_zero a || less a b then bits0 else u8 (a + (2 ^ 8 - b))

-- The other comparisons
unfoldable pub less_equal : ℕ → ℕ → Bool
unfolding less
less_equal a b = not (less b a)

unfoldable pub greater : ℕ → ℕ → Bool
unfolding less
greater a b = less b a

unfoldable pub greater_equal : ℕ → ℕ → Bool
unfolding less
greater_equal a b = not (less a b)
