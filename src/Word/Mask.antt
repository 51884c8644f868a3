-- ===== src/Word/Mask.antt =====
-- Masks of 64 bits, and the update `(ref & ~mask) | (pattern & mask)`.
use onejit.Base.{
  ℕ, ◌+◌, ◌-◌, ◌*◌, ◌%◌, ◌^◌, ◌<◌, bit_and, bit_or, true, false, ◌==◌, ltb, leb, if◌then◌else◌, ◌≡◌,
  ap, ◌∙◌, arith, Bool-cases, inl, inr, ltb→le,
}
use onejit.Word.Bit.{
  testbit, testbit-and, testbit-or, testbit-mod, testbit-mul, testbit-mul_low, testbit-complement,
  zero-testbit, testbit-one,
}

abbrev pub all_ones : ℕ
all_ones = 2 ^ 64 - 1

pub testbit-all_ones : (k : ℕ) → k < 64 → testbit all_ones k ≡ true
testbit-all_ones k h = testbit-complement 64 0 k (omega arith) ∙ ground (arith, zero-testbit k)

-- `x << h`, bit by bit.
pub testbit-shl64 :
    (x h k : ℕ)
    → k < 64
    → testbit (x * 2 ^ h % 2 ^ 64) k ≡ (if ltb k h then false else testbit x (k - h))
testbit-shl64 x h k small = elim (Bool-cases (ltb k h)) [
  | inl below ↦ ground (arith, testbit-mod 64 (x * 2 ^ h) k, testbit-mul_low h x k)
  | inr above ↦
      let e : k - h + h ≡ k = omega (arith, ltb→le k h above) in
      rw above (
        testbit-mod 64 (x * 2 ^ h) k
        ∙ ground (arith, testbit-mul h x (k - h), ap (testbit (x * 2 ^ h)) e))
]

-- The bits at or above `h`.
pub testbit-high_mask : (h k : ℕ) → k < 64 → testbit (all_ones * 2 ^ h % 2 ^ 64) k ≡ leb h k
testbit-high_mask h k small =
    testbit-shl64 all_ones h k small ∙ ground (arith, testbit-all_ones (k - h))

pub high_mask-lt : (h : ℕ) → all_ones * 2 ^ h % 2 ^ 64 < 2 ^ 64
high_mask-lt h = omega arith

-- A single bit.
pub testbit-one_mask : (h k : ℕ) → h < 64 → k < 64 → testbit (1 * 2 ^ h % 2 ^ 64) k ≡ (k == h)
testbit-one_mask h k hh hk = testbit-shl64 1 h k hk ∙ ground (arith, testbit-one (k - h))

-- The update keeps the bits outside `mask`, and takes those of `pattern` inside.
pub testbit-masked :
    (w pattern mask k : ℕ)
    → mask < 2 ^ 64
    → k < 64
    → testbit (bit_or (bit_and w (2 ^ 64 - 1 - mask)) (bit_and pattern mask)) k
      ≡ (if testbit mask k then testbit pattern k else testbit w k)
testbit-masked w pattern mask k hm hk = ground (
  arith,
  testbit-or (bit_and w (2 ^ 64 - 1 - mask)) (bit_and pattern mask) k,
  testbit-and w (2 ^ 64 - 1 - mask) k,
  testbit-and pattern mask k,
  testbit-complement 64 mask k hm,
)
