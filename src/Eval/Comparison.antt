-- ===== src/Eval/Comparison.antt =====
-- The comparisons of `eval_binary_op` under `swap_comparison` and `not_comparison`.
use onejit.Base.{
  ℕ, ◌%◌, ◌^◌, Bool, true, false, not, ◌==◌, ltb, if◌then◌else◌, some, ◌≡◌, refl, sym, ap, ◌∙◌,
  arith,
}
use onejit.Word.{bias64}
use onejit.Float.{Fpu}
use onejit.Kind
use onejit.Kind.{Kind}
use onejit.Op
use onejit.Op.{Op1, Op2}
use onejit.Value.{Value, of_truth}
use onejit.Value.Laws.{IsPlain, Kind-same}
use onejit.Value.Operators.{equal, unequal, less, less_equal, negation}
use onejit.Eval.{eval_binary_op, eval_unary_op, and_then}

-- Whether numbers are equal does not depend on their order.
pub record IsSymmetric (fpu : Fpu) : Type 0 where
  pub single : (a b : ℕ) → fpu.single.eql a b ≡ fpu.single.eql b a
  pub double : (a b : ℕ) → fpu.double.eql a b ≡ fpu.double.eql b a

equal_comm : (fpu : Fpu) (x y : Value) → IsSymmetric fpu → equal fpu y x ≡ equal fpu x y
unfolding equal Kind.same
equal_comm fpu x y symmetric =
    ground
      (arith, symmetric.single (x.bits % 2 ^ 32) (y.bits % 2 ^ 32), symmetric.double x.bits y.bits)

unequal_comm : (fpu : Fpu) (x y : Value) → IsSymmetric fpu → unequal fpu y x ≡ unequal fpu x y
unfolding unequal Kind.same
unequal_comm fpu x y symmetric =
    ground
      (arith, symmetric.single (x.bits % 2 ^ 32) (y.bits % 2 ^ 32), symmetric.double x.bits y.bits)

-- A comparison of any two values, floating-point ones included, is the swapped comparison of them
-- in the other order, if floating-point equality is symmetric.
pub swap_comparison-eval :
    (fpu : Fpu) (op : Op2) (x y : Value)
    → IsSymmetric fpu
    → Op.is_comparison op ≡ true
    → eval_binary_op fpu (Op.swap_comparison op) y x ≡ eval_binary_op fpu op x y
unfolding eval_binary_op Op.is_comparison Op.swap_comparison Op.code2
swap_comparison-eval fpu Op2.bad2 x y s h = ground arith
swap_comparison-eval fpu Op2.sub x y s h = ground arith
swap_comparison-eval fpu Op2.quo x y s h = ground arith
swap_comparison-eval fpu Op2.rem x y s h = ground arith
swap_comparison-eval fpu Op2.shl x y s h = ground arith
swap_comparison-eval fpu Op2.shr x y s h = ground arith
swap_comparison-eval fpu Op2.land x y s h = ground arith
swap_comparison-eval fpu Op2.lor x y s h = ground arith
swap_comparison-eval fpu Op2.lss x y s h = refl
swap_comparison-eval fpu Op2.leq x y s h = refl
swap_comparison-eval fpu Op2.neq x y s h = ap some (unequal_comm fpu x y s)
swap_comparison-eval fpu Op2.eql x y s h = ap some (equal_comm fpu x y s)
swap_comparison-eval fpu Op2.gtr x y s h = refl
swap_comparison-eval fpu Op2.geq x y s h = refl

negation-of_truth : (fpu : Fpu) (b : Bool) → negation fpu (of_truth b) ≡ of_truth (not b)
unfolding negation equal Kind.same Kind.val Kind.code
negation-of_truth fpu true = ground arith
negation-of_truth fpu false = ground arith

-- The comparisons of two values of one plain kind, as tests of their bits
module _ (fpu : Fpu) (k : Kind) (x y : ℕ) (plain : IsPlain k) where
  abbrev left : Value
  left = record { kind = k; bits = x }

  abbrev right : Value
  right = record { kind = k; bits = y }

  equal-plain : equal fpu left right ≡ of_truth (x == y)
  unfolding equal
  equal-plain = rw (Kind-same k, plain.not_single, plain.not_double) refl

  unequal-plain : unequal fpu left right ≡ of_truth (not (x == y))
  unfolding unequal
  unequal-plain = rw (Kind-same k, plain.not_single, plain.not_double) refl

  less-plain :
      less fpu left right ≡ of_truth (if Kind.is_int k then ltb (bias64 x) (bias64 y) else ltb x y)
  unfolding less
  less-plain = rw (Kind-same k, plain.not_single, plain.not_double) (ground arith)

  less_equal-plain :
      less_equal fpu left right
      ≡ of_truth (not (if Kind.is_int k then ltb (bias64 y) (bias64 x) else ltb y x))
  unfolding less_equal
  less_equal-plain = rw (Kind-same k, plain.not_single, plain.not_double) (ground arith)

-- On two values of one plain kind, where NaN does not occur, the opposite comparison has the
-- value of the boolean negation of the comparison.
pub not_comparison-eval :
    (fpu : Fpu) (k : Kind) (op : Op2) (x y : ℕ)
    → IsPlain k
    → Op.is_comparison op ≡ true
    → eval_binary_op fpu
        (Op.not_comparison op)
        (record { kind = k; bits = x })
        (record { kind = k; bits = y })
      ≡ and_then
          (eval_binary_op fpu op (record { kind = k; bits = x }) (record { kind = k; bits = y }))
          (eval_unary_op fpu (Kind.scalar Kind.Ekind.bool) Op1.not1)
unfolding eval_binary_op eval_unary_op Op.is_comparison Op.not_comparison Op.code2
not_comparison-eval fpu k Op2.bad2 x y plain h = ground arith
not_comparison-eval fpu k Op2.sub x y plain h = ground arith
not_comparison-eval fpu k Op2.quo x y plain h = ground arith
not_comparison-eval fpu k Op2.rem x y plain h = ground arith
not_comparison-eval fpu k Op2.shl x y plain h = ground arith
not_comparison-eval fpu k Op2.shr x y plain h = ground arith
not_comparison-eval fpu k Op2.land x y plain h = ground arith
not_comparison-eval fpu k Op2.lor x y plain h = ground arith
not_comparison-eval fpu k Op2.lss x y plain h =
    rw (less-plain fpu k x y plain, less_equal-plain fpu k y x plain)
      (ap some (sym (negation-of_truth fpu _)))
not_comparison-eval fpu k Op2.leq x y plain h =
    rw (less_equal-plain fpu k x y plain, less-plain fpu k y x plain)
      (ap some (ground arith ∙ sym (negation-of_truth fpu _)))
not_comparison-eval fpu k Op2.neq x y plain h =
    rw (equal-plain fpu k x y plain, unequal-plain fpu k x y plain)
      (ap some (ground arith ∙ sym (negation-of_truth fpu _)))
not_comparison-eval fpu k Op2.eql x y plain h =
    rw (equal-plain fpu k x y plain, unequal-plain fpu k x y plain)
      (ap some (sym (negation-of_truth fpu _)))
not_comparison-eval fpu k Op2.gtr x y plain h =
    rw (less-plain fpu k y x plain, less_equal-plain fpu k x y plain)
      (ap some (sym (negation-of_truth fpu _)))
not_comparison-eval fpu k Op2.geq x y plain h =
    rw (less_equal-plain fpu k y x plain, less-plain fpu k x y plain)
      (ap some (ground arith ∙ sym (negation-of_truth fpu _)))
