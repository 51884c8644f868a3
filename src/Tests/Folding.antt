-- ===== src/Tests/Folding.antt =====
-- The theorems on constant folding, at concrete kinds and values.
use onejit.Base.{
  inl, not, ◌*◌, ℕ, ◌+◌, ◌-◌, ◌*◌, ◌^◌, true, ltb, leb, ◌==◌, some, [], ◌∷◌, arith, ◌≡◌, refl, ◌<◌,
  ◌≤◌, ◌⊎◌, bit_xor, Bool, false,
}
use onejit.Bits
use onejit.Bits.Counts.{bits_counts}
use onejit.Float.{FloatOps, Fpu}
use onejit.Kind
use onejit.Kind.{Kind, Ekind, scalar}
use onejit.Op
use onejit.Op.{Op1, Op2, OpN}
use onejit.Value
use onejit.Value.{Value}
use onejit.Value.Extend.{extend_bits-IsExtended}
use onejit.Value.Laws.{
  IsPlain, IsCanonical, IsResult, extend_or_truncate-IsResult, arithmetic-IsResult,
}
use onejit.Value.Operators.{plus, minus, times, complement, negative}
use onejit.Eval.{eval_binary_op, eval_unary_op, eval_tuple_op, and_then}
use onejit.Eval.Comparison.{IsSymmetric, swap_comparison-eval, not_comparison-eval}
use onejit.Eval.Neutral.{eval_tuple_op_single}
use onejit.Eval.Canonical.{IsCanonicalIfDefined, eval_binary_op-IsCanonical}
use onejit.Imm.{direct, direct_kind, to_const_bits, rrot}
use onejit.Imm.RoundTrip.{all_or_none, direct-round_trip}
use onejit.Eval.Total.{sum, product, values, eval_tuple_op-total}
use onejit.Eval.Maximum.{max-signed}

-- A stand-in for the arithmetic of the machine
abbrev pub flat : FloatOps
flat = record {
  of_signed = λ x. x;
  of_unsigned = λ x. x;
  to_signed = λ w x. some x;
  to_unsigned = λ w x. some x;
  neg = λ x. x;
  add = λ x y. x;
  sub = λ x y. x;
  mul = λ x y. x;
  quo = λ x y. x;
  eql = λ x y. x == y;
  lss = λ x y. ltb x y;
  leq = λ x y. leb x y;
}

abbrev pub flat_fpu : Fpu
flat_fpu = record { single = flat; double = flat; widen = λ x. x; narrow = λ x. x }

==-comm : (a b : ℕ) → (a == b) ≡ (b == a)
==-comm a b = ground arith

flat_fpu-IsSymmetric : IsSymmetric flat_fpu
flat_fpu-IsSymmetric = record { single = ==-comm; double = ==-comm }

abbrev int8_kind : Kind
int8_kind = scalar Ekind.int8

size-int8 : Kind.bitsize int8_kind ≡ 8
unfolding Kind.bitsize Kind.bits Kind.scalar_bits Bits.times Bits.val Bits.is_zero
size-int8 = refl

signed-int8 : Kind.is_int int8_kind ≡ true
unfolding Kind.is_int Kind.group
signed-int8 = refl

int8-IsPlain : IsPlain int8_kind
unfolding Kind.same Kind.val Kind.code
int8-IsPlain = record { not_single = refl; not_double = refl; fits = omega (arith, size-int8) }

not_float-int8 : Kind.is_float int8_kind ≡ false
unfolding Kind.is_float
not_float-int8 = refl

-- The `int8_t` 5
abbrev five : Value
five = record {
  kind = int8_kind;
  bits = Value.extend_bits (Kind.bitsize int8_kind) (Kind.is_int int8_kind) 5;
}

five-IsCanonical : IsCanonical five
five-IsCanonical =
    extend_bits-IsExtended (Kind.bitsize int8_kind) (Kind.is_int int8_kind) 5 int8-IsPlain.fits
      (omega arith)

leq-compares : Op.is_comparison Op2.leq ≡ true
unfolding Op.is_comparison Op.code2
leq-compares = refl

extend_or_truncate-IsResult_example :
    IsResult int8_kind 200 (Value.extend_or_truncate int8_kind 200)
extend_or_truncate-IsResult_example =
    extend_or_truncate-IsResult int8_kind 200 int8-IsPlain.fits (omega arith)

arithmetic-IsResult_example :
    IsResult int8_kind (100 + 90) (
      plus flat_fpu
        (record { kind = int8_kind; bits = 100 })
        (record { kind = int8_kind; bits = 90 }))
    × IsResult int8_kind (100 * 90) (
        times flat_fpu
          (record { kind = int8_kind; bits = 100 })
          (record { kind = int8_kind; bits = 90 }))
    × IsResult int8_kind (100 + (2 ^ 64 - 90)) (
        minus flat_fpu
          (record { kind = int8_kind; bits = 100 })
          (record { kind = int8_kind; bits = 90 }))
    × IsResult int8_kind (2 ^ 64 - 1 - 100) (complement (record { kind = int8_kind; bits = 100 }))
    × IsResult int8_kind
        (2 ^ 64 - 100)
        (negative flat_fpu (record { kind = int8_kind; bits = 100 }))
arithmetic-IsResult_example =
    arithmetic-IsResult flat_fpu int8_kind 100 90 int8-IsPlain (omega arith) (omega arith)

swap_comparison-eval_example :
    eval_binary_op flat_fpu
      (Op.swap_comparison Op2.leq)
      (record { kind = int8_kind; bits = 9 })
      five
    ≡ eval_binary_op flat_fpu Op2.leq five (record { kind = int8_kind; bits = 9 })
swap_comparison-eval_example =
    swap_comparison-eval flat_fpu Op2.leq five (record { kind = int8_kind; bits = 9 })
      flat_fpu-IsSymmetric leq-compares

not_comparison-eval_example :
    eval_binary_op flat_fpu
      (Op.not_comparison Op2.leq)
      (record { kind = int8_kind; bits = 5 })
      (record { kind = int8_kind; bits = 9 })
    ≡ and_then
        (eval_binary_op flat_fpu Op2.leq
          (record { kind = int8_kind; bits = 5 })
          (record { kind = int8_kind; bits = 9 }))
        (eval_unary_op flat_fpu (scalar Ekind.bool) Op1.not1)
not_comparison-eval_example =
    not_comparison-eval flat_fpu int8_kind Op2.leq 5 9 int8-IsPlain leq-compares

eval_tuple_op_single_example :
    (eval_tuple_op flat_fpu int8_kind OpN.add (five ∷ []) ≡ some five)
    × (eval_tuple_op flat_fpu int8_kind OpN.or (five ∷ []) ≡ some five)
    × (eval_tuple_op flat_fpu int8_kind OpN.xor (five ∷ []) ≡ some five)
    × (eval_tuple_op flat_fpu int8_kind OpN.and (five ∷ []) ≡ some five)
eval_tuple_op_single_example =
    eval_tuple_op_single flat_fpu int8_kind five.bits int8-IsPlain not_float-int8 five-IsCanonical

max-signed_example :
    eval_tuple_op flat_fpu int8_kind OpN.max (five ∷ [])
    ≡ some (record { kind = int8_kind; bits = 2 ^ (Kind.bitsize int8_kind - 1) })
max-signed_example =
    max-signed flat_fpu int8_kind five.bits int8-IsPlain not_float-int8 signed-int8
      (omega (arith, size-int8)) (omega (arith, size-int8)) five-IsCanonical

eval_binary_op-IsCanonical_example :
    IsCanonicalIfDefined
      (eval_binary_op flat_fpu Op2.quo five (record { kind = int8_kind; bits = 2 }))
eval_binary_op-IsCanonical_example =
    eval_binary_op-IsCanonical flat_fpu Op2.quo five (record { kind = int8_kind; bits = 2 })
      int8-IsPlain five-IsCanonical.fits (omega arith)

direct-round_trip_example :
    ((direct 6 (2 ^ 64 - 77) ≡ 0)
      × ((j : ℕ) (c : Bool)
          → j < 8
          → 2 ^ 23 ≤ rrot (bit_xor (2 ^ 64 - 77) (all_or_none c)) (j * 8)))
    ⊎ ((direct_kind (direct 6 (2 ^ 64 - 77)) ≡ 6)
        × (to_const_bits (direct 6 (2 ^ 64 - 77)) ≡ 2 ^ 64 - 77))
direct-round_trip_example =
    direct-round_trip 6 (2 ^ 64 - 77) (omega arith) (omega arith) (omega arith)

eval_tuple_op-total_example :
    (eval_tuple_op flat_fpu int8_kind OpN.add (values int8_kind (100 ∷ 90 ∷ []))
      ≡ some (record {
        kind = int8_kind;
        bits =
            Value.extend_bits
              (Kind.bitsize int8_kind)
              (Kind.is_int int8_kind)
              (sum (100 ∷ 90 ∷ []));
      }))
    × (eval_tuple_op flat_fpu int8_kind OpN.mul (values int8_kind (100 ∷ 90 ∷ []))
        ≡ some (record {
          kind = int8_kind;
          bits =
              Value.extend_bits
                (Kind.bitsize int8_kind)
                (Kind.is_int int8_kind)
                (product (100 ∷ 90 ∷ []));
        }))
eval_tuple_op-total_example = eval_tuple_op-total flat_fpu int8_kind (100 ∷ 90 ∷ []) int8-IsPlain

bits_counts_example :
    (Bits.less 3 6 ≡ ltb (Bits.val 3) (Bits.val 6))
    × (Bits.greater_equal 3 6 ≡ not (ltb (Bits.val 3) (Bits.val 6)))
    × (Bits.greater 3 6 ≡ ltb (Bits.val 6) (Bits.val 3))
    × (Bits.less_equal 3 6 ≡ not (ltb (Bits.val 6) (Bits.val 3)))
    × (Bits.val (Bits.times 3 6) ≡ Bits.val 3 * Bits.val 6)
bits_counts_example = bits_counts 3 6 (inl (omega arith)) (inl (omega arith))
