-- ===== src/Eval/Canonical.antt =====
-- The results of `eval_binary_op` on canonical values.
use native.Mathlib.Nat.{div-le_self, mod-le}
use onejit.Base.{
  ℕ, ◌-◌, ◌^◌, ◌<◌, Bool, true, false, not, ltb, leb, if◌then◌else◌, Option, none, some, ◌≡◌, refl,
  arith, Bool-cases, inl, inr, ◌∙◌, subst,
}
use onejit.Word.{sub64, shl64, shr, signed_quo64, signed_rem64, signed_shr64, abs64}
use onejit.Word.Bit.{zero-testbit, testbit-one}
use onejit.Float.{Fpu}
use onejit.Bits
use onejit.Kind
use onejit.Kind.{Kind, Ekind, scalar}
use onejit.Op.{Op2}
use onejit.Value.{Value, invalid, of_truth, extend_or_truncate, is_single, is_double}
use onejit.Value.Extend.{IsExtended, extend_bits-IsExtended}
use onejit.Value.Laws.{IsPlain, IsCanonical}
use onejit.Value.Operators.{
  minus, quotient, remainder, shift_left, shift_right, by_kind, unsigned_quo64, unsigned_rem64,
  equal, unequal, less, less_equal, both, either, extended,
}
use onejit.Eval.{eval_binary_op}

-- A result that is canonical unless it is undefined
abbrev pub IsCanonicalIfDefined : Option Value → Type 0
IsCanonicalIfDefined o = (v : Value) → o ≡ some v → IsCanonical v

some-IsCanonical : (v : Value) → IsCanonical v → IsCanonicalIfDefined (some v)
some-IsCanonical v h w e = let same : v ≡ w = cc e in subst (λ (t : Value). IsCanonical t) same h

none-IsCanonical : IsCanonicalIfDefined none
none-IsCanonical w e = absurd (cc e)

zero-IsExtended : (size : ℕ) (signed : Bool) → IsExtended size signed 0
zero-IsExtended size signed = record {
  fits = omega arith;
  copies = λ k h lt. zero-testbit k ∙ ground (arith, zero-testbit (size - 1));
}

invalid-IsCanonical : IsCanonical invalid
invalid-IsCanonical =
    zero-IsExtended (Kind.bitsize (scalar Ekind.bad)) (Kind.is_int (scalar Ekind.bad))

size-bool : Kind.bitsize (scalar Ekind.bool) ≡ 1
unfolding Kind.bitsize Kind.bits Kind.scalar_bits Bits.times Bits.val Bits.is_zero
size-bool = refl

unsigned-bool : Kind.is_int (scalar Ekind.bool) ≡ false
unfolding Kind.is_int Kind.group
unsigned-bool = refl

of_truth-IsCanonical : (b : Bool) → IsCanonical (of_truth b)
of_truth-IsCanonical false =
    zero-IsExtended (Kind.bitsize (scalar Ekind.bool)) (Kind.is_int (scalar Ekind.bool))
of_truth-IsCanonical true = record {
  fits = omega arith;
  copies = λ k h lt. ground (arith, testbit-one k, size-bool, unsigned-bool);
}

extend-IsCanonical :
    (k : Kind) (bits : ℕ) → bits < 2 ^ 64 → IsCanonicalIfDefined (extend_or_truncate k bits)
unfolding extend_or_truncate
extend-IsCanonical k bits h = elim (Bool-cases (ltb 64 (Kind.bitsize k))) [
  | inl wide ↦ rw wide none-IsCanonical
  | inr narrow ↦ rw narrow (
      some-IsCanonical _
        (extend_bits-IsExtended (Kind.bitsize k) (Kind.is_int k) bits (ground arith) h))
]

extended-IsCanonical :
    (k : Kind) (o : Option ℕ)
    → ((bits : ℕ) → o ≡ some bits → bits < 2 ^ 64)
    → IsCanonicalIfDefined (extended k o)
extended-IsCanonical k none h = none-IsCanonical
extended-IsCanonical k (some bits) h = extend-IsCanonical k bits (h bits refl)

invalid_result : IsCanonicalIfDefined (some invalid)
invalid_result = some-IsCanonical invalid invalid-IsCanonical

-- An operator on bits, where the kinds agree
by_kind-IsCanonical :
    (x y : Value) (single double other : Option Value)
    → IsPlain x.kind
    → IsCanonicalIfDefined other
    → IsCanonicalIfDefined (by_kind x y single double other)
by_kind-IsCanonical x y single double other plain h = elim (Bool-cases (Kind.same x.kind y.kind)) [
  | inr differ ↦ rw differ invalid_result
  | inl agree ↦ rw (agree, plain.not_single, plain.not_double) h
]

signed_quo64-lt : (a b : ℕ) → a < 2 ^ 64 → (q : ℕ) → signed_quo64 a b ≡ some q → q < 2 ^ 64
signed_quo64-lt a b h q e = ground (arith, div-le_self (abs64 a) (abs64 b))

signed_rem64-lt : (a b : ℕ) → a < 2 ^ 64 → (q : ℕ) → signed_rem64 a b ≡ some q → q < 2 ^ 64
signed_rem64-lt a b h q e = ground (arith, mod-le (abs64 a) (abs64 b))

unsigned_quo64-lt : (a b : ℕ) → a < 2 ^ 64 → (q : ℕ) → unsigned_quo64 a b ≡ some q → q < 2 ^ 64
unsigned_quo64-lt a b h q e = ground (arith, div-le_self a b)

unsigned_rem64-lt : (a b : ℕ) → a < 2 ^ 64 → (q : ℕ) → unsigned_rem64 a b ≡ some q → q < 2 ^ 64
unsigned_rem64-lt a b h q e = ground (arith, mod-le a b)

signed_shr64-lt : (a k : ℕ) → a < 2 ^ 64 → signed_shr64 a k < 2 ^ 64
signed_shr64-lt a k h = ground (arith, div-le_self a (2 ^ k))

choice-IsCanonical :
    (b : Bool) (x y : Value) → IsCanonical x → IsCanonical y → IsCanonical (if b then x else y)
choice-IsCanonical true x y hx hy = hx
choice-IsCanonical false x y hx hy = hy

-- The comparisons answer a truth value or `Value{}`.
module _ (fpu : Fpu) (x y : Value) where
  equal-IsCanonical : IsCanonical (equal fpu x y)
  unfolding equal
  equal-IsCanonical = choice-IsCanonical (not (Kind.same x.kind y.kind)) _ _ invalid-IsCanonical (
      choice-IsCanonical (is_single x.kind) _ _ (of_truth-IsCanonical _) (
        choice-IsCanonical (is_double x.kind) _ _ (of_truth-IsCanonical _)
          (of_truth-IsCanonical _)))

  unequal-IsCanonical : IsCanonical (unequal fpu x y)
  unfolding unequal
  unequal-IsCanonical = choice-IsCanonical (not (Kind.same x.kind y.kind)) _ _ invalid-IsCanonical (
      choice-IsCanonical (is_single x.kind) _ _ (of_truth-IsCanonical _) (
        choice-IsCanonical (is_double x.kind) _ _ (of_truth-IsCanonical _)
          (of_truth-IsCanonical _)))

  less-IsCanonical : IsCanonical (less fpu x y)
  unfolding less
  less-IsCanonical = choice-IsCanonical (not (Kind.same x.kind y.kind)) _ _ invalid-IsCanonical (
      choice-IsCanonical (is_single x.kind) _ _ (of_truth-IsCanonical _) (
        choice-IsCanonical (is_double x.kind) _ _ (of_truth-IsCanonical _) (
          choice-IsCanonical (Kind.is_int x.kind) _ _ (of_truth-IsCanonical _)
            (of_truth-IsCanonical _))))

  less_equal-IsCanonical : IsCanonical (less_equal fpu x y)
  unfolding less_equal
  less_equal-IsCanonical =
      choice-IsCanonical (not (Kind.same x.kind y.kind)) _ _ invalid-IsCanonical (
        choice-IsCanonical (is_single x.kind) _ _ (of_truth-IsCanonical _) (
          choice-IsCanonical (is_double x.kind) _ _ (of_truth-IsCanonical _) (
            choice-IsCanonical (Kind.is_int x.kind) _ _ (of_truth-IsCanonical _)
              (of_truth-IsCanonical _))))

  both-IsCanonical : IsCanonical (both x y)
  unfolding both
  both-IsCanonical = choice-IsCanonical _ _ _ (of_truth-IsCanonical _) invalid-IsCanonical

  either-IsCanonical : IsCanonical (either x y)
  unfolding either
  either-IsCanonical = choice-IsCanonical _ _ _ (of_truth-IsCanonical _) invalid-IsCanonical

option_choice :
    (b : Bool) (x y : Option Value)
    → IsCanonicalIfDefined x
    → IsCanonicalIfDefined y
    → IsCanonicalIfDefined (if b then x else y)
option_choice true x y hx hy = hx
option_choice false x y hx hy = hy

-- Folding a binary operator on values of 64 bits, the first of a plain kind, gives a canonical value
-- whenever it is defined, the invalid value where the kinds differ included.
pub eval_binary_op-IsCanonical :
    (fpu : Fpu) (op : Op2) (x y : Value)
    → IsPlain x.kind
    → x.bits < 2 ^ 64
    → y.bits < 2 ^ 64
    → IsCanonicalIfDefined (eval_binary_op fpu op x y)
unfolding eval_binary_op minus quotient remainder shift_left shift_right
eval_binary_op-IsCanonical fpu Op2.bad2 x y plain hx hy = invalid_result
eval_binary_op-IsCanonical fpu Op2.sub x y plain hx hy =
    by_kind-IsCanonical x y _ _ _ plain
      (extend-IsCanonical x.kind (sub64 x.bits y.bits) (omega arith))
eval_binary_op-IsCanonical fpu Op2.quo x y plain hx hy = by_kind-IsCanonical x y _ _ _ plain (
    option_choice (Kind.is_int x.kind) _ _
      (extended-IsCanonical x.kind (signed_quo64 x.bits y.bits) (signed_quo64-lt x.bits y.bits hx))
      (extended-IsCanonical x.kind (unsigned_quo64 x.bits y.bits)
        (unsigned_quo64-lt x.bits y.bits hx)))
eval_binary_op-IsCanonical fpu Op2.rem x y plain hx hy = by_kind-IsCanonical x y _ _ _ plain (
    option_choice (Kind.is_int x.kind) _ _
      (extended-IsCanonical x.kind (signed_rem64 x.bits y.bits) (signed_rem64-lt x.bits y.bits hx))
      (extended-IsCanonical x.kind (unsigned_rem64 x.bits y.bits)
        (unsigned_rem64-lt x.bits y.bits hx)))
eval_binary_op-IsCanonical fpu Op2.shl x y plain hx hy = by_kind-IsCanonical x y _ _ _ plain (
    option_choice (leb 64 y.bits) _ _ none-IsCanonical
      (extend-IsCanonical x.kind (shl64 x.bits y.bits) (omega arith)))
eval_binary_op-IsCanonical fpu Op2.shr x y plain hx hy = by_kind-IsCanonical x y _ _ _ plain (
    option_choice (leb 64 y.bits) _ _ none-IsCanonical (
      option_choice (Kind.is_int x.kind) _ _
        (extend-IsCanonical x.kind (signed_shr64 x.bits y.bits) (signed_shr64-lt x.bits y.bits hx))
        (extend-IsCanonical x.kind (shr x.bits y.bits)
          (omega (arith, div-le_self x.bits (2 ^ y.bits))))))
eval_binary_op-IsCanonical fpu Op2.land x y plain hx hy =
    some-IsCanonical (both x y) (both-IsCanonical fpu x y)
eval_binary_op-IsCanonical fpu Op2.lor x y plain hx hy =
    some-IsCanonical (either x y) (either-IsCanonical fpu x y)
eval_binary_op-IsCanonical fpu Op2.lss x y plain hx hy =
    some-IsCanonical (less fpu x y) (less-IsCanonical fpu x y)
eval_binary_op-IsCanonical fpu Op2.leq x y plain hx hy =
    some-IsCanonical (less_equal fpu x y) (less_equal-IsCanonical fpu x y)
eval_binary_op-IsCanonical fpu Op2.neq x y plain hx hy =
    some-IsCanonical (unequal fpu x y) (unequal-IsCanonical fpu x y)
eval_binary_op-IsCanonical fpu Op2.eql x y plain hx hy =
    some-IsCanonical (equal fpu x y) (equal-IsCanonical fpu x y)
eval_binary_op-IsCanonical fpu Op2.gtr x y plain hx hy =
    some-IsCanonical (less fpu y x) (less-IsCanonical fpu y x)
eval_binary_op-IsCanonical fpu Op2.geq x y plain hx hy =
    some-IsCanonical (less_equal fpu y x) (less_equal-IsCanonical fpu y x)
