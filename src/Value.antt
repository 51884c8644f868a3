-- ===== src/Value.antt =====
-- `Value` of onejit/value.hpp and onejit/value.cpp: a kind and 64 bits. `none` is undefined
-- behaviour of C++: a division by zero, a quotient or a conversion that does not fit, a shift by
-- the width or more, and the mask of a kind wider than 64 bits.
pub mod Operators
pub mod Extend
pub mod Laws
use onejit.Base.{
  ℕ, ◌+◌, ◌-◌, ◌*◌, ◌/◌, ◌%◌, ◌^◌, bit_and, bit_or, bit_xor, Bool, true, false, not, ◌==◌, ltb, leb,
  ◌&&◌, ◌||◌, if◌then◌else◌, Option, none, some,
}
use onejit.Word.{
  u32, not64, neg64, sub64, shl64, shr, bias64, signed_quo64, signed_rem64, signed_shr64,
}
use onejit.BitSet.{of_bool}
use onejit.Float.{FloatOps, Fpu}
use onejit.Kind
use onejit.Kind.{
  Ekind, bad, void, bool, int8, int16, int32, int64, uint8, uint16, uint32, uint64, float16,
  float32, float64, float128, ptr, Kind, scalar,
}
use onejit.Op.{Op2, OpN}
use onejit.Op

pub record Value : Type 0 where
  pub kind : Kind
  pub bits : ℕ

-- `Value{}`
abbrev pub invalid : Value
invalid = record { kind = scalar bad; bits = 0 }

unfoldable pub is_valid : Value → Bool
unfolding Kind.same
is_valid v = not (Kind.same v.kind (scalar bad))

-- The constructors from a C++ type
abbrev pub typed : Ekind → ℕ → Value
typed e bits = record { kind = scalar e; bits = bits }

abbrev pub of_truth : Bool → Value
of_truth b = typed bool (of_bool b)

abbrev pub single_of : Value → ℕ
single_of v = u32 v.bits

-- Whether the kind is `Float32`, `Float64`
abbrev pub is_single : Kind → Bool
is_single k = Kind.same k (scalar float32)

abbrev pub is_double : Kind → Bool
is_double k = Kind.same k (scalar float64)

-- The bits of `extend_or_truncate` for a kind of `size` bits
unfoldable pub extend_bits : ℕ → Bool → ℕ → ℕ
extend_bits size signed bits =
    let lomask = shr (not64 0) (64 - size) in
    let low = bit_and bits lomask in
    if size == 0
    then 0
    else if signed && not (bit_and low (shr lomask 1) == low)
    then bit_or low (not64 lomask)
    else low

unfoldable pub extend_or_truncate : Kind → ℕ → Option Value
unfolding extend_bits
extend_or_truncate k bits =
    if ltb 64 (Kind.bitsize k)
    then none
    else some (record { kind = k; bits = extend_bits (Kind.bitsize k) (Kind.is_int k) bits })

unfoldable pub bitcopy : Value → Kind → Option Value
bitcopy v to = extend_or_truncate to v.bits

-- The integer of `cast` from a floating-point value, as the bits of the kind
unfoldable pub int_of_float : FloatOps → Ekind → ℕ → Option ℕ
int_of_float ops int8 f = ops.to_signed 8 f
int_of_float ops int16 f = ops.to_signed 16 f
int_of_float ops int32 f = ops.to_signed 32 f
int_of_float ops int64 f = ops.to_signed 64 f
int_of_float ops uint8 f = ops.to_unsigned 8 f
int_of_float ops uint16 f = ops.to_unsigned 16 f
int_of_float ops uint32 f = ops.to_unsigned 32 f
int_of_float ops uint64 f = ops.to_unsigned 64 f
int_of_float ops ptr f = ops.to_unsigned 64 f
int_of_float ops e f = none

-- `Value{to, bits}` for bits that may be undefined
abbrev pub with_bits : Kind → Option ℕ → Option Value
with_bits k none = none
with_bits k (some bits) = some (record { kind = k; bits = bits })

-- The switch of `cast` to `Float32`
unfoldable pub cast_to_single : Fpu → Value → Option Value
cast_to_single fpu v = if not (v.kind.simd == 0) then some invalid else elim v.kind.ekind [
  | void ↦ some (typed float32 0)
  | bool ↦ some (typed float32 (fpu.single.of_unsigned (of_bool (not (v.bits == 0)))))
  | int8 ↦ some (typed float32 (fpu.single.of_signed v.bits))
  | int16 ↦ some (typed float32 (fpu.single.of_signed v.bits))
  | int32 ↦ some (typed float32 (fpu.single.of_signed v.bits))
  | int64 ↦ some (typed float32 (fpu.single.of_signed v.bits))
  | uint8 ↦ some (typed float32 (fpu.single.of_unsigned v.bits))
  | uint16 ↦ some (typed float32 (fpu.single.of_unsigned v.bits))
  | uint32 ↦ some (typed float32 (fpu.single.of_unsigned v.bits))
  | uint64 ↦ some (typed float32 (fpu.single.of_unsigned v.bits))
  | ptr ↦ some (typed float32 (fpu.single.of_unsigned v.bits))
  | float64 ↦ some (typed float32 (fpu.narrow v.bits))
  | float128 ↦ some (typed float32 (fpu.narrow v.bits))
  | _ ↦ some invalid
]

-- The switch of `cast` to `Float64`
unfoldable pub cast_to_double : Fpu → Value → Option Value
cast_to_double fpu v = if not (v.kind.simd == 0) then some invalid else elim v.kind.ekind [
  | void ↦ some (typed float64 0)
  | bool ↦ some (typed float64 (fpu.double.of_unsigned (of_bool (not (v.bits == 0)))))
  | int8 ↦ some (typed float64 (fpu.double.of_signed v.bits))
  | int16 ↦ some (typed float64 (fpu.double.of_signed v.bits))
  | int32 ↦ some (typed float64 (fpu.double.of_signed v.bits))
  | int64 ↦ some (typed float64 (fpu.double.of_signed v.bits))
  | uint8 ↦ some (typed float64 (fpu.double.of_unsigned v.bits))
  | uint16 ↦ some (typed float64 (fpu.double.of_unsigned v.bits))
  | uint32 ↦ some (typed float64 (fpu.double.of_unsigned v.bits))
  | uint64 ↦ some (typed float64 (fpu.double.of_unsigned v.bits))
  | ptr ↦ some (typed float64 (fpu.double.of_unsigned v.bits))
  | float32 ↦ some (typed float64 (fpu.widen (single_of v)))
  | float128 ↦ some (typed float64 v.bits)
  | _ ↦ some invalid
]

-- The switch of `cast` from `Float32`
unfoldable pub cast_from_single : Fpu → Value → Kind → Option Value
unfolding int_of_float
cast_from_single fpu v to = if not (to.simd == 0) then some invalid else elim to.ekind [
  | void ↦ some (record { kind = to; bits = 0 })
  | bool ↦ some (record { kind = to; bits = of_bool (not (fpu.single.eql (single_of v) 0)) })
  | float64 ↦ some (record { kind = to; bits = fpu.widen (single_of v) })
  | float128 ↦ some (record { kind = to; bits = fpu.widen (single_of v) })
  | bad ↦ some invalid
  | float16 ↦ some invalid
  | float32 ↦ some invalid
  | e ↦ with_bits to (int_of_float fpu.single e (single_of v))
]

-- The switch of `cast` from `Float64`
unfoldable pub cast_from_double : Fpu → Value → Kind → Option Value
unfolding int_of_float
cast_from_double fpu v to = if not (to.simd == 0) then some invalid else elim to.ekind [
  | void ↦ some (record { kind = to; bits = 0 })
  | bool ↦ some (record { kind = to; bits = of_bool (not (fpu.double.eql v.bits 0)) })
  | float32 ↦ some (record { kind = to; bits = fpu.narrow v.bits })
  | float128 ↦ some (record { kind = to; bits = v.bits })
  | bad ↦ some invalid
  | float16 ↦ some invalid
  | float64 ↦ some invalid
  | e ↦ with_bits to (int_of_float fpu.double e v.bits)
]

unfoldable pub cast : Fpu → Value → Kind → Option Value
unfolding cast_to_single cast_to_double cast_from_single cast_from_double extend_or_truncate
cast fpu v to =
    if Kind.same v.kind to
    then some v
    else if is_single to
    then cast_to_single fpu v
    else if is_double to
    then cast_to_double fpu v
    else if is_single v.kind
    then cast_from_single fpu v to
    else if is_double v.kind
    then cast_from_double fpu v to
    else extend_or_truncate to v.bits

abbrev pub zero_of : Kind → Value
zero_of k = record { kind = k; bits = 0 }

-- `Value::one` and `Value::minus_one`: an `int` that is cast
unfoldable pub one : Fpu → Kind → Option Value
unfolding cast
one fpu k = cast fpu (typed int32 1) k

unfoldable pub minus_one : Fpu → Kind → Option Value
unfolding cast
minus_one fpu k = cast fpu (typed int32 (2 ^ 64 - 1)) k

-- `Value::max` and `Value::min`: the bounds, or the infinities
unfoldable pub max : Kind → Option Value
max k =
    let size = Kind.bitsize k in
    let ones = if size == 0 then 0 else shr (not64 0) (64 - size) in
    if is_single k
    then some (typed float32 (255 * 2 ^ 23))
    else if is_double k
    then some (typed float64 (2047 * 2 ^ 52))
    else if ltb 64 size
    then none
    else some (record { kind = k; bits = if Kind.is_signed k then shr ones 1 else ones })

unfoldable pub min : Kind → Option Value
min k =
    let size = Kind.bitsize k in
    if Kind.is_unsigned k
    then some (zero_of k)
    else if is_single k
    then some (typed float32 (511 * 2 ^ 23))
    else if is_double k
    then some (typed float64 (4095 * 2 ^ 52))
    else if ltb 64 size
    then none
    else some (record { kind = k; bits = shl64 1 (size - 1) })

-- `Value::identity` of a binary and of an n-ary operator, and `Value::absorbing`
unfoldable pub identity2 : Fpu → Kind → Op2 → Option Value
unfolding cast
identity2 fpu k Op2.sub = cast fpu (typed uint64 0) k
identity2 fpu k Op2.shl = cast fpu (typed uint64 0) k
identity2 fpu k Op2.shr = cast fpu (typed uint64 0) k
identity2 fpu k Op2.quo = cast fpu (typed uint64 1) k
identity2 fpu k op = some invalid

-- The switch of `Value::identity`
unfoldable pub neutral : Fpu → Kind → OpN → Option Value
unfolding cast min max
neutral fpu k OpN.add = cast fpu (typed uint64 0) k
neutral fpu k OpN.or = cast fpu (typed uint64 0) k
neutral fpu k OpN.xor = cast fpu (typed uint64 0) k
neutral fpu k OpN.mul = cast fpu (typed uint64 1) k
neutral fpu k OpN.and = cast fpu (typed uint64 (2 ^ 64 - 1)) k
neutral fpu k OpN.max = min k
neutral fpu k OpN.min = max k
neutral fpu k OpN.comma = cast fpu (typed uint64 0) k
neutral fpu k op = some invalid

unfoldable pub identity : Fpu → Kind → OpN → Option Value
unfolding neutral
identity fpu k op = if Op.is_bitwise op && Kind.is_float k then some invalid else neutral fpu k op

-- The switch of `Value::absorbing`
unfoldable pub dominant : Fpu → Kind → OpN → Option Value
unfolding cast min max
dominant fpu k OpN.or = cast fpu (typed uint64 (2 ^ 64 - 1)) k
dominant fpu k OpN.mul = cast fpu (typed uint64 0) k
dominant fpu k OpN.and = cast fpu (typed uint64 0) k
dominant fpu k OpN.max = max k
dominant fpu k OpN.min = min k
dominant fpu k op = some invalid

unfoldable pub absorbing : Fpu → Kind → OpN → Option Value
unfolding dominant
absorbing fpu k op = if Op.is_bitwise op && Kind.is_float k then some invalid else dominant fpu k op
