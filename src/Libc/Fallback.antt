-- ===== src/Libc/Fallback.antt =====
-- The loop that bitset.cpp falls back to where the build found no `ffsl`.
use onejit.Base.{
  ℕ, zero, suc, ◌+◌, ◌-◌, ◌/◌, ◌%◌, ◌^◌, ◌<◌, true, false, ◌==◌, ◌≡◌, ◌≢◌, ap, sym, ◌∙◌, arith,
  Bool-cases, inl, inr, ==_iff, ==-false_iff, ltb,
}
use native.Mathlib.Nat.{pow-succ', add-zero}
use onejit.Word.Bit.{testbit, testbit-mod, zero-testbit, testbit-div, mod-two-pow-suc}
use onejit.Libc.{Libc, IsLowest, skip_zeros, fallback_loop, fallback_find_first_set}

-- The lowest bit of `w` that is set stands at position `p`.
record LowestAt (w p : ℕ) : Type 0 where
  is_set : testbit w p ≡ true
  below : (j : ℕ) → j < p → testbit w j ≡ false

LowestAt-double : (w p : ℕ) → w % 2 ≡ 0 → LowestAt (w / 2) p → LowestAt w (suc p)
unfolding testbit
LowestAt-double w p even low = record { is_set = low.is_set; below = under }
  where
    under : (j : ℕ) → j < suc p → testbit w j ≡ false
    under zero h = ground arith
    under (suc j) h = low.below j (omega arith)

LowestAt-odd : (w : ℕ) → w % 2 ≢ 0 → LowestAt w 0
unfolding testbit
LowestAt-odd w odd = record { is_set = ground arith; below = λ j h. elim h [ ] }

-- The inner loop, when one of the `fuel` low bits is set.
skip_zeros-LowestAt :
    (fuel i ret : ℕ)
    → i % 2 ^ fuel ≢ 0
    → (p : ℕ) × LowestAt i p × (p < fuel) × (skip_zeros fuel i ret ≡ ret + p)
unfolding skip_zeros
skip_zeros-LowestAt zero i ret h = absurd (h (omega arith))
skip_zeros-LowestAt (suc fuel) i ret h = elim (Bool-cases (i % 2 == 0)) [
  | inr odd ↦
      (0, LowestAt-odd i ((==-false_iff _ _).0 odd), omega arith, rw odd (sym (add-zero ret)))
  | inl even ↦
      let e : i % 2 ≡ 0 = (==_iff _ _).0 even in
      let (p, low, small, result) =
        skip_zeros-LowestAt fuel (i / 2) (ret + 1)
          (λ z. h (omega (arith, mod-two-pow-suc fuel i))) in
      (suc p, LowestAt-double i p e low, omega arith, rw even (result ∙ omega arith))
]

-- Eight zero bits are skipped at once.
LowestAt-byte : (w p : ℕ) → w % 2 ^ 8 ≡ 0 → LowestAt (w / 2 ^ 8) p → LowestAt w (p + 8)
LowestAt-byte w p clear low = record {
  is_set = sym (testbit-div 8 w p) ∙ low.is_set;
  below = λ j h. elim (Bool-cases (ltb j 8)) [
    | inl early ↦
        let bit : testbit (w % 2 ^ 8) j ≡ false = rw clear (zero-testbit j) in
        ground (arith, testbit-mod 8 w j)
    | inr late ↦
        let e : j - 8 + 8 ≡ j = ground arith in
        ap (testbit w) (sym e) ∙ sym (testbit-div 8 w (j - 8)) ∙ low.below (j - 8) (ground arith)
  ];
}

fallback_loop-LowestAt :
    (fuel i ret : ℕ)
    → i ≢ 0
    → i < (2 ^ 8) ^ fuel
    → (p : ℕ) × LowestAt i p × (fallback_loop fuel i ret ≡ ret + p)
unfolding fallback_loop
fallback_loop-LowestAt zero i ret nz h = absurd (omega arith)
fallback_loop-LowestAt (suc fuel) i ret nz h =
    let some_bits : (i == 0) ≡ false = (==-false_iff _ _).1 nz in
    elim (Bool-cases (i % 2 ^ 8 == 0)) [
      | inr here ↦
          let (p, low, small, result) = skip_zeros-LowestAt 8 i ret ((==-false_iff _ _).0 here) in
          (p, low, rw (some_bits, here) result)
      | inl clear ↦
          let e : i % 2 ^ 8 ≡ 0 = (==_iff _ _).0 clear in
          let (p, low, result) =
            fallback_loop-LowestAt fuel (i / 2 ^ 8) (ret + 8) (λ z. nz (omega arith))
              (omega (arith, pow-succ' (2 ^ 8) fuel)) in
          (p + 8, LowestAt-byte i p e low, rw (some_bits, clear) (result ∙ omega arith))
    ]

-- On a word that is not 0 the fallback answers the position of the lowest bit itself, which is
-- one less than what `ffsl` answers and `find` expects.
pub fallback-IsLowest : (w : ℕ) → 0 < w → w < 2 ^ 64 → IsLowest w (fallback_find_first_set w + 1)
unfolding fallback_find_first_set
fallback-IsLowest w pos small =
    let (p, low, result) = fallback_loop-LowestAt 8 w 0 (omega arith) small in
    let e : fallback_loop 8 w 0 + 1 - 1 ≡ p = omega arith in
    record { positive = omega arith; is_set = rw e low.is_set; below = rw e low.below }

-- A C library that keeps the promise.
abbrev pub sample_libc : Libc
sample_libc = record { ffsl = λ w. fallback_find_first_set w + 1; ffsl_lowest = fallback-IsLowest }
