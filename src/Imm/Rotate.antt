-- ===== src/Imm/Rotate.antt =====
-- Rotations of 64 bits by whole bytes.
use native.Mathlib.Nat.{div-le_self}
use onejit.Base.{
  ℕ, ◌+◌, ◌-◌, ◌*◌, ◌/◌, ◌%◌, ◌^◌, ◌<◌, Bool, true, false, ◌==◌, ltb, ◌||◌, if◌then◌else◌, ◌≡◌,
  refl, sym, ap, ap₂, ◌∙◌, arith, Bool-cases, inl, inr, ltb→lt, ltb→le, ==_iff, ==-false_iff,
}
use onejit.Word.Bit.{testbit, testbit-or, testbit-div, testbit_ext, testbit_above, bit_or-lt}
use onejit.Word.Mask.{testbit-shl64}
use onejit.Imm.{rrot, lrot}

-- Bit k after a rotation to the right by r
testbit-rrot :
    (x r k : ℕ)
    → x < 2 ^ 64
    → 0 < r
    → r < 64
    → k < 64
    → testbit (rrot x r) k ≡ testbit x (if ltb (k + r) 64 then k + r else k + r - 64)
unfolding rrot
testbit-rrot x r k hx pos hr hk =
    let some_bits : (r == 0) ≡ false = ground arith in
    let right : r % 64 ≡ r = omega arith in
    let left : (64 - r) % 64 ≡ 64 - r = omega arith in
    rw (some_bits, right, left)
      (testbit-or (x / 2 ^ r) (x * 2 ^ (64 - r) % 2 ^ 64) k
        ∙ ap₂ (λ (a b : Bool). a || b) (testbit-div r x k) (testbit-shl64 x (64 - r) k hk)
        ∙ elim (Bool-cases (ltb (k + r) 64)) [
          | inl stays ↦ ground arith
          | inr wraps ↦
              let e : k - (64 - r) ≡ k + r - 64 = omega (arith, ltb→le _ _ wraps) in
              ground (arith, testbit_above 64 x (k + r) hx (ltb→le _ _ wraps), ap (testbit x) e)
        ])

testbit-lrot :
    (x r k : ℕ)
    → x < 2 ^ 64
    → 0 < r
    → r < 64
    → k < 64
    → testbit (lrot x r) k ≡ testbit x (if ltb k r then k + (64 - r) else k - r)
unfolding lrot
testbit-lrot x r k hx pos hr hk =
    let some_bits : (r == 0) ≡ false = ground arith in
    let right : r % 64 ≡ r = omega arith in
    let left : (64 - r) % 64 ≡ 64 - r = omega arith in
    rw (some_bits, right, left)
      (testbit-or (x * 2 ^ r % 2 ^ 64) (x / 2 ^ (64 - r)) k
        ∙ ap₂ (λ (a b : Bool). a || b) (testbit-shl64 x r k hk) (testbit-div (64 - r) x k)
        ∙ elim (Bool-cases (ltb k r)) [
          | inl wraps ↦ ground arith
          | inr stays ↦
              ground (arith, testbit_above 64 x (k + (64 - r)) hx (omega (arith, ltb→le _ _ stays)))
        ])

pub rrot-lt : (x r : ℕ) → x < 2 ^ 64 → rrot x r < 2 ^ 64
unfolding rrot
rrot-lt x r h = elim (Bool-cases (r == 0)) [
  | inl nothing ↦ rw nothing h
  | inr some_bits ↦ rw some_bits (
      bit_or-lt 64 (x / 2 ^ (r % 64)) (x * 2 ^ ((64 - r) % 64) % 2 ^ 64)
        (omega (arith, div-le_self x (2 ^ (r % 64)))) (omega arith))
]

lrot-lt : (x r : ℕ) → x < 2 ^ 64 → lrot x r < 2 ^ 64
unfolding lrot
lrot-lt x r h = elim (Bool-cases (r == 0)) [
  | inl nothing ↦ rw nothing h
  | inr some_bits ↦ rw some_bits (
      bit_or-lt 64 (x * 2 ^ (r % 64) % 2 ^ 64) (x / 2 ^ ((64 - r) % 64)) (omega arith)
        (omega (arith, div-le_self x (2 ^ ((64 - r) % 64)))))
]

rotate_zero : (x : ℕ) → lrot (rrot x 0) 0 ≡ x
unfolding lrot rrot
rotate_zero x = refl

-- Rotating back and forth
pub lrot-rrot : (x r : ℕ) → x < 2 ^ 64 → r < 64 → lrot (rrot x r) r ≡ x
lrot-rrot x r hx hr = elim (Bool-cases (r == 0)) [
  | inl nothing ↦ ap (λ (t : ℕ). lrot (rrot x t) t) ((==_iff _ _).0 nothing) ∙ rotate_zero x
  | inr some_bits ↦
      let pos : 0 < r = omega (arith, (==-false_iff _ _).0 some_bits) in
      let small = rrot-lt x r hx in
      testbit_ext _ _ (λ k. elim (Bool-cases (ltb k 64)) [
        | inr above ↦
            testbit_above 64 (lrot (rrot x r) r) k (lrot-lt (rrot x r) r small) (ltb→le _ _ above)
            ∙ sym (testbit_above 64 x k hx (ltb→le _ _ above))
        | inl below ↦
            let hk : k < 64 = ltb→lt _ _ below in
            testbit-lrot (rrot x r) r k small pos hr hk ∙ elim (Bool-cases (ltb k r)) [
              | inl wraps ↦
                  let over : ltb (k + (64 - r) + r) 64 ≡ false = ground arith in
                  let e : k + (64 - r) + r - 64 ≡ k = omega arith in
                  rw wraps (
                    testbit-rrot x r (k + (64 - r)) hx pos hr (omega (arith, ltb→lt _ _ wraps))
                    ∙ rw (over, e) refl)
              | inr stays ↦
                  let under : ltb (k - r + r) 64 ≡ true = ground arith in
                  let e : k - r + r ≡ k = omega (arith, ltb→le _ _ stays) in
                  rw stays (testbit-rrot x r (k - r) hx pos hr (omega arith) ∙ rw (under, e) refl)
            ]
      ])
]
