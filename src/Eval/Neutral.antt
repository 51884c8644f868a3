-- ===== src/Eval/Neutral.antt =====
-- The values that `eval_tuple_op` starts from, on kinds that are no floating-point ones.
use onejit.Base.{
  ℕ, ◌+◌, ◌-◌, ◌*◌, ◌%◌, ◌^◌, ◌≤◌, ◌<◌, bit_and, bit_or, bit_xor, Bool, true, false, ◌==◌, ltb,
  Option, some, [], ◌∷◌, ◌≡◌, refl, sym, ap, ap₂, ◌∙◌, arith, Bool-cases, Option-cases, inl, inr,
  ltb→lt, ltb→le, ==_iff, ==-false_iff,
}
use onejit.Word.Bit.{
  testbit-and, testbit-or, testbit-xor, testbit_ext, testbit_above, zero-testbit,
  testbit-complement,
}
use onejit.Float.{Fpu}
use onejit.Bits
use onejit.Kind
use onejit.Kind.{Kind, Ekind, scalar}
use onejit.Op
use onejit.Op.{OpN}
use onejit.Value
use onejit.Value.{
  Value, is_single, is_double, typed, extend_bits, extend_or_truncate, zero_of, of_truth,
}
use onejit.Value.Extend.{IsExtended, extend_bits-IsExtended, extend_bits_self, testbit-extend_bits}
use onejit.Value.Laws.{IsPlain, IsCanonical, Kind-same}
use onejit.Value.Operators.{plus, conjunction, disjunction, exclusive}
use onejit.Eval.{eval_tuple_op, accumulate}

code-lt : (e : Ekind) → Kind.code e < 16
unfolding Kind.code
code-lt Ekind.bad = omega arith
code-lt Ekind.void = omega arith
code-lt Ekind.bool = omega arith
code-lt Ekind.int8 = omega arith
code-lt Ekind.int16 = omega arith
code-lt Ekind.int32 = omega arith
code-lt Ekind.int64 = omega arith
code-lt Ekind.uint8 = omega arith
code-lt Ekind.uint16 = omega arith
code-lt Ekind.uint32 = omega arith
code-lt Ekind.uint64 = omega arith
code-lt Ekind.float16 = omega arith
code-lt Ekind.float32 = omega arith
code-lt Ekind.float64 = omega arith
code-lt Ekind.float128 = omega arith
code-lt Ekind.ptr = omega arith

uint64_of_code : (e : Ekind) → Kind.code e ≡ 10 → e ≡ Ekind.uint64
unfolding Kind.code
uint64_of_code Ekind.bad h = absurd (omega arith)
uint64_of_code Ekind.void h = absurd (omega arith)
uint64_of_code Ekind.bool h = absurd (omega arith)
uint64_of_code Ekind.int8 h = absurd (omega arith)
uint64_of_code Ekind.int16 h = absurd (omega arith)
uint64_of_code Ekind.int32 h = absurd (omega arith)
uint64_of_code Ekind.int64 h = absurd (omega arith)
uint64_of_code Ekind.uint8 h = absurd (omega arith)
uint64_of_code Ekind.uint16 h = absurd (omega arith)
uint64_of_code Ekind.uint32 h = absurd (omega arith)
uint64_of_code Ekind.uint64 h = refl
uint64_of_code Ekind.float16 h = absurd (omega arith)
uint64_of_code Ekind.float32 h = absurd (omega arith)
uint64_of_code Ekind.float64 h = absurd (omega arith)
uint64_of_code Ekind.float128 h = absurd (omega arith)
uint64_of_code Ekind.ptr h = absurd (omega arith)

abbrev of_parts : Ekind → ℕ → Kind
of_parts e n = record { ekind = e; simd = n }

-- A kind whose number is that of `Uint64` is `Uint64`.
Kind-uint64 : (k : Kind) → Kind.same (scalar Ekind.uint64) k ≡ true → k ≡ scalar Ekind.uint64
unfolding Kind.same Kind.val
Kind-uint64 k h =
    let numbers : Kind.code Ekind.uint64 + 16 * 0 ≡ Kind.code k.ekind + 16 * k.simd =
      (==_iff _ _).0 h in
    let ten : Kind.code Ekind.uint64 ≡ 10 = unfold Kind.code in refl in
    let once : k.simd ≡ 0 = omega (arith, code-lt k.ekind) in
    let named : k.ekind ≡ Ekind.uint64 = uint64_of_code k.ekind (omega (arith, code-lt k.ekind)) in
    ap₂ (λ (e : Ekind) (n : ℕ). of_parts e n) named once

abbrev value_of : Kind → ℕ → Value
value_of k bits = record { kind = k; bits = bits }

size-uint64 : Kind.bitsize (scalar Ekind.uint64) ≡ 64
unfolding Kind.bitsize Kind.bits Kind.scalar_bits Bits.times Bits.val Bits.is_zero
size-uint64 = refl

unsigned-uint64 : Kind.is_int (scalar Ekind.uint64) ≡ false
unfolding Kind.is_int Kind.group
unsigned-uint64 = refl

-- Casting a `uint64_t` to such a kind
pub cast_uint64 :
    (fpu : Fpu) (k : Kind) (bits : ℕ)
    → IsPlain k
    → bits < 2 ^ 64
    → Value.cast fpu (typed Ekind.uint64 bits) k
      ≡ some (record { kind = k; bits = extend_bits (Kind.bitsize k) (Kind.is_int k) bits })
unfolding Value.cast extend_or_truncate
cast_uint64 fpu k bits plain hb =
    let narrow : ltb 64 (Kind.bitsize k) ≡ false = ground (arith, plain.fits) in
    let from_single : is_single (scalar Ekind.uint64) ≡ false =
      unfold Kind.same in unfold Kind.code in refl in
    let from_double : is_double (scalar Ekind.uint64) ≡ false =
      unfold Kind.same in unfold Kind.code in refl in
    elim (Bool-cases (Kind.same (scalar Ekind.uint64) k)) [
      | inr other ↦
          rw (other, plain.not_single, plain.not_double, from_single, from_double, narrow) refl
      | inl here ↦
          let e : k ≡ scalar Ekind.uint64 = Kind-uint64 k here in
          let size : Kind.bitsize k ≡ 64 = ap Kind.bitsize e ∙ size-uint64 in
          let unsigned : Kind.is_int k ≡ false = ap Kind.is_int e ∙ unsigned-uint64 in
          let same : extend_bits (Kind.bitsize k) (Kind.is_int k) bits ≡ bits =
            extend_bits_self (Kind.bitsize k) (Kind.is_int k) bits plain.fits
              (record { fits = hb; copies = λ i hi lt. absurd (omega arith) }) in
          rw (here, same) (ap (λ (t : Kind). some (value_of t bits)) (sym e))
    ]

-- The extensions of 0 and of 64 ones, against bits that are extended themselves
module _ (size : ℕ) (signed : Bool) (x : ℕ) (h : size ≤ 64)
    (extended : IsExtended size signed x) where
  extend_zero : extend_bits size signed 0 ≡ 0
  extend_zero = extend_bits_self size signed 0 h (record {
    fits = omega arith;
    copies = λ k hk lt. zero-testbit k ∙ ground (arith, zero-testbit (size - 1));
  })

  or_zero : bit_or 0 x ≡ x
  or_zero = testbit_ext _ _ (λ k. testbit-or 0 x k ∙ ground (arith, zero-testbit k))

  xor_zero : bit_xor 0 x ≡ x
  xor_zero = testbit_ext _ _ (λ k. testbit-xor 0 x k ∙ ground (arith, zero-testbit k))

  and_ones : bit_and (extend_bits size signed (2 ^ 64 - 1)) x ≡ x
  and_ones =
      let ones = extend_bits-IsExtended size signed (2 ^ 64 - 1) h (omega arith) in
      let z : ℕ = 0 in
      testbit_ext _ _ (λ k.
        testbit-and (extend_bits size signed (2 ^ 64 - 1)) x k ∙ elim (Bool-cases (ltb k 64)) [
          | inr above ↦ ground (arith, testbit_above 64 x k extended.fits (ltb→le _ _ above))
          | inl below ↦
              let lt : k < 64 = ltb→lt _ _ below in
              elim (Bool-cases (size == 0)) [
                | inl nothing ↦ ground (arith, extended.copies k)
                | inr some_bits ↦ ground (
                  arith,
                  testbit-extend_bits size signed (2 ^ 64 - 1) k
                      (omega (arith, (==-false_iff _ _).0 some_bits)) h lt,
                  extended.copies k,
                  testbit-complement 64 z k (omega arith),
                  testbit-complement 64 z (size - 1) (omega arith),
                  zero-testbit k,
                  zero-testbit (size - 1),
                )
              ]
        ])

accumulate_one :
    (f : Value → Value → Option Value) (x v : Value) → accumulate f (some x) (v ∷ []) ≡ f x v
unfolding accumulate
accumulate_one f x v = elim (Option-cases (f x v)) [ inl e ↦ rw e refl | inr (w, e) ↦ rw e refl ]

-- `+`, `|`, `^` and `&` of one canonical value, on a plain kind that is not floating-point, are
-- that value: the folding starts from the neutral element of the operator and kind.
pub eval_tuple_op_single :
    (fpu : Fpu) (k : Kind) (x : ℕ)
    → IsPlain k
    → Kind.is_float k ≡ false
    → IsCanonical (value_of k x)
    → (eval_tuple_op fpu k OpN.add (value_of k x ∷ []) ≡ some (value_of k x))
      × (eval_tuple_op fpu k OpN.or (value_of k x ∷ []) ≡ some (value_of k x))
      × (eval_tuple_op fpu k OpN.xor (value_of k x ∷ []) ≡ some (value_of k x))
      × (eval_tuple_op fpu k OpN.and (value_of k x ∷ []) ≡ some (value_of k x))
unfolding eval_tuple_op Value.identity Value.neutral Op.is_bitwise Op.code_n plus conjunction
    disjunction exclusive extend_or_truncate
eval_tuple_op_single fpu k x plain not_float canonical =
    let narrow : ltb 64 (Kind.bitsize k) ≡ false = ground (arith, plain.fits) in
    let zero_cast = cast_uint64 fpu k 0 plain (omega arith) in
    let ones_cast = cast_uint64 fpu k (2 ^ 64 - 1) plain (omega arith) in
    let zero_bits = extend_zero (Kind.bitsize k) (Kind.is_int k) x plain.fits canonical in
    let wrap : (0 + x) % 2 ^ 64 ≡ x = omega (arith, canonical.fits) in
    let kept = extend_bits_self (Kind.bitsize k) (Kind.is_int k) x plain.fits canonical in
    let ors = or_zero (Kind.bitsize k) (Kind.is_int k) x plain.fits canonical in
    let xors = xor_zero (Kind.bitsize k) (Kind.is_int k) x plain.fits canonical in
    let ands = and_ones (Kind.bitsize k) (Kind.is_int k) x plain.fits canonical in
    (
      rw
          (
            zero_cast,
            zero_bits,
            accumulate_one,
            Kind-same k,
            plain.not_single,
            plain.not_double,
            narrow,
            wrap,
            kept,
          )
          refl,
      rw
          (
            not_float,
            zero_cast,
            zero_bits,
            accumulate_one,
            Kind-same k,
            plain.not_single,
            plain.not_double,
            ors,
          )
          refl,
      rw
          (
            not_float,
            zero_cast,
            zero_bits,
            accumulate_one,
            Kind-same k,
            plain.not_single,
            plain.not_double,
            xors,
          )
          refl,
      rw
          (
            not_float,
            ones_cast,
            accumulate_one,
            Kind-same k,
            plain.not_single,
            plain.not_double,
            ands,
          )
          refl,
    )
