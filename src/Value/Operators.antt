-- ===== src/Value/Operators.antt =====
-- The operators of onejit/value.cpp and of the end of onejit/value.hpp: `Value{}` where the kinds
-- differ or the kind has no such operator.
use onejit.Base.{
  ℕ, ◌+◌, ◌*◌, ◌/◌, ◌%◌, bit_and, bit_or, bit_xor, Bool, not, ◌==◌, ltb, leb, ◌&&◌, ◌||◌,
  if◌then◌else◌, Option, none, some,
}
use onejit.Word.{
  u64, not64, neg64, sub64, shl64, shr, bias64, signed_quo64, signed_rem64, signed_shr64,
}
use onejit.Float.{Fpu}
use onejit.Kind
use onejit.Kind.{Ekind, bool, float32, float64, Kind, scalar}
use onejit.Value.{
  Value, invalid, typed, of_truth, single_of, is_single, is_double, extend_or_truncate, zero_of,
}

-- An operator on `Float32`, on `Float64` and on the bits of the other kinds
abbrev pub by_kind : Value → Value → Option Value → Option Value → Option Value → Option Value
by_kind a b single double other =
    if not (Kind.same a.kind b.kind)
    then some invalid
    else if is_single a.kind
    then single
    else if is_double a.kind
    then double
    else other

-- The result of an arithmetic operator on bits
abbrev pub extended : Kind → Option ℕ → Option Value
extended k none = none
extended k (some bits) = extend_or_truncate k bits

unfoldable pub complement : Value → Option Value
complement a =
    if is_single a.kind || is_double a.kind
    then some invalid
    else extend_or_truncate a.kind (not64 a.bits)

unfoldable pub negative : Fpu → Value → Option Value
negative fpu a =
    if is_single a.kind
    then some (typed float32 (fpu.single.neg (single_of a)))
    else if is_double a.kind
    then some (typed float64 (fpu.double.neg a.bits))
    else extend_or_truncate a.kind (neg64 a.bits)

unfoldable pub plus : Fpu → Value → Value → Option Value
plus fpu a b =
    by_kind a b (some (typed float32 (fpu.single.add (single_of a) (single_of b))))
      (some (typed float64 (fpu.double.add a.bits b.bits)))
      (extend_or_truncate a.kind (u64 (a.bits + b.bits)))

unfoldable pub minus : Fpu → Value → Value → Option Value
minus fpu a b =
    by_kind a b (some (typed float32 (fpu.single.sub (single_of a) (single_of b))))
      (some (typed float64 (fpu.double.sub a.bits b.bits)))
      (extend_or_truncate a.kind (sub64 a.bits b.bits))

unfoldable pub times : Fpu → Value → Value → Option Value
times fpu a b =
    by_kind a b (some (typed float32 (fpu.single.mul (single_of a) (single_of b))))
      (some (typed float64 (fpu.double.mul a.bits b.bits)))
      (extend_or_truncate a.kind (u64 (a.bits * b.bits)))

-- `uint64_t` division, undefined by 0
abbrev pub unsigned_quo64 : ℕ → ℕ → Option ℕ
unsigned_quo64 a b = if b == 0 then none else some (a / b)

abbrev pub unsigned_rem64 : ℕ → ℕ → Option ℕ
unsigned_rem64 a b = if b == 0 then none else some (a % b)

unfoldable pub quotient : Fpu → Value → Value → Option Value
quotient fpu a b =
    by_kind a b (some (typed float32 (fpu.single.quo (single_of a) (single_of b))))
      (some (typed float64 (fpu.double.quo a.bits b.bits)))
      (if Kind.is_int a.kind
        then extended a.kind (signed_quo64 a.bits b.bits)
        else extended a.kind (unsigned_quo64 a.bits b.bits))

unfoldable pub remainder : Value → Value → Option Value
remainder a b = by_kind a b (some invalid) (some invalid) (
    if Kind.is_int a.kind
    then extended a.kind (signed_rem64 a.bits b.bits)
    else extended a.kind (unsigned_rem64 a.bits b.bits))

unfoldable pub conjunction : Value → Value → Option Value
conjunction a b =
    by_kind a b (some invalid) (some invalid)
      (some (record { kind = a.kind; bits = bit_and a.bits b.bits }))

unfoldable pub disjunction : Value → Value → Option Value
disjunction a b =
    by_kind a b (some invalid) (some invalid)
      (some (record { kind = a.kind; bits = bit_or a.bits b.bits }))

unfoldable pub exclusive : Value → Value → Option Value
exclusive a b =
    by_kind a b (some invalid) (some invalid)
      (some (record { kind = a.kind; bits = bit_xor a.bits b.bits }))

unfoldable pub shift_left : Value → Value → Option Value
shift_left a b =
    by_kind a b (some invalid) (some invalid)
      (if leb 64 b.bits then none else extend_or_truncate a.kind (shl64 a.bits b.bits))

unfoldable pub shift_right : Value → Value → Option Value
shift_right a b = by_kind a b (some invalid) (some invalid) (
    if leb 64 b.bits
    then none
    else if Kind.is_int a.kind
    then extend_or_truncate a.kind (signed_shr64 a.bits b.bits)
    else extend_or_truncate a.kind (shr a.bits b.bits))

unfoldable pub equal : Fpu → Value → Value → Value
equal fpu a b =
    if not (Kind.same a.kind b.kind)
    then invalid
    else if is_single a.kind
    then of_truth (fpu.single.eql (single_of a) (single_of b))
    else if is_double a.kind
    then of_truth (fpu.double.eql a.bits b.bits)
    else of_truth (a.bits == b.bits)

unfoldable pub unequal : Fpu → Value → Value → Value
unequal fpu a b =
    if not (Kind.same a.kind b.kind)
    then invalid
    else if is_single a.kind
    then of_truth (not (fpu.single.eql (single_of a) (single_of b)))
    else if is_double a.kind
    then of_truth (not (fpu.double.eql a.bits b.bits))
    else of_truth (not (a.bits == b.bits))

unfoldable pub less : Fpu → Value → Value → Value
less fpu a b =
    if not (Kind.same a.kind b.kind)
    then invalid
    else if is_single a.kind
    then of_truth (fpu.single.lss (single_of a) (single_of b))
    else if is_double a.kind
    then of_truth (fpu.double.lss a.bits b.bits)
    else if Kind.is_int a.kind
    then of_truth (ltb (bias64 a.bits) (bias64 b.bits))
    else of_truth (ltb a.bits b.bits)

unfoldable pub less_equal : Fpu → Value → Value → Value
less_equal fpu a b =
    if not (Kind.same a.kind b.kind)
    then invalid
    else if is_single a.kind
    then of_truth (fpu.single.leq (single_of a) (single_of b))
    else if is_double a.kind
    then of_truth (fpu.double.leq a.bits b.bits)
    else if Kind.is_int a.kind
    then of_truth (leb (bias64 a.bits) (bias64 b.bits))
    else of_truth (leb a.bits b.bits)

-- `operator>` and `operator>=`
abbrev pub greater : Fpu → Value → Value → Value
greater fpu a b = less fpu b a

abbrev pub greater_equal : Fpu → Value → Value → Value
greater_equal fpu a b = less_equal fpu b a

-- `boolean`, `operator bool` and `operator!`
abbrev pub boolean : Value → Bool
boolean v = not (v.bits == 0)

unfoldable pub truth : Fpu → Value → Bool
unfolding unequal
truth fpu v = boolean (unequal fpu v (zero_of v.kind))

unfoldable pub negation : Fpu → Value → Value
unfolding equal
negation fpu v = equal fpu v (zero_of v.kind)

-- `identical`
unfoldable pub identical : Value → Value → Bool
identical a b = Kind.same a.kind b.kind && (a.bits == b.bits)

-- `and_` and `or_`
unfoldable pub both : Value → Value → Value
both a b =
    if Kind.same a.kind (scalar bool) && Kind.same b.kind (scalar bool)
    then of_truth (boolean a && boolean b)
    else invalid

unfoldable pub either : Value → Value → Value
either a b =
    if Kind.same a.kind (scalar bool) && Kind.same b.kind (scalar bool)
    then of_truth (boolean a || boolean b)
    else invalid
