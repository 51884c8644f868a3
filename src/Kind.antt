-- ===== src/Kind.antt =====
-- `Group` and `Kind` of onejit/group.hpp, onejit/kind.hpp and onejit/kind.cpp: a scalar kind in the
-- low four bits, and the logarithm of a number of repetitions in the high four.
use onejit.Base.{ℕ, ◌+◌, ◌*◌, ◌%◌, Bool, true, false, not, ◌==◌}
use onejit.Bits
use onejit.Bits.{bits0}

pub data Ekind : Type 0 where
  bad void bool int8 int16 int32 int64 uint8 uint16 uint32 uint64 : Ekind
  float16 float32 float64 float128 ptr : Ekind

-- The number of the enumerator
unfoldable pub code : Ekind → ℕ
code bad = 0
code void = 1
code bool = 2
code int8 = 3
code int16 = 4
code int32 = 5
code int64 = 6
code uint8 = 7
code uint16 = 8
code uint32 = 9
code uint64 = 10
code float16 = 11
code float32 = 12
code float64 = 13
code float128 = 14
code ptr = 15

pub data Group : Type 0 where
  g_void g_bool g_int g_uint g_float g_ptr : Group

pub record Kind : Type 0 where
  pub ekind : Ekind
  pub simd : ℕ

-- `val()`
unfoldable pub val : Kind → ℕ
unfolding code
val k = code k.ekind + 16 * k.simd

unfoldable pub same : Kind → Kind → Bool
unfolding val
same a b = val a == val b

-- The constants `Bad`, `Bool`, `Float32`, … : one repetition
abbrev pub scalar : Ekind → Kind
scalar e = record { ekind = e; simd = 0 }

-- The table `kbits`
unfoldable pub scalar_bits : Ekind → ℕ
scalar_bits bad = bits0
scalar_bits void = bits0
scalar_bits bool = 0
scalar_bits int8 = 3
scalar_bits int16 = 4
scalar_bits int32 = 5
scalar_bits int64 = 6
scalar_bits uint8 = 3
scalar_bits uint16 = 4
scalar_bits uint32 = 5
scalar_bits uint64 = 6
scalar_bits float16 = 4
scalar_bits float32 = 5
scalar_bits float64 = 6
scalar_bits float128 = 7
scalar_bits ptr = 6

unfoldable pub bits : Kind → ℕ
unfolding scalar_bits
bits k = Bits.times (scalar_bits k.ekind) k.simd

unfoldable pub bitsize : Kind → ℕ
unfolding bits
bitsize k = Bits.val (bits k)

unfoldable pub simdn : Kind → ℕ → Kind
simdn k simd = record k { simd = simd % 16 }

unfoldable pub nosimd : Kind → Kind
nosimd k = record k { simd = 0 }

-- The table `kgroup`
unfoldable pub group : Ekind → Group
group bad = g_void
group void = g_void
group bool = g_bool
group int8 = g_int
group int16 = g_int
group int32 = g_int
group int64 = g_int
group uint8 = g_uint
group uint16 = g_uint
group uint32 = g_uint
group uint64 = g_uint
group float16 = g_float
group float32 = g_float
group float64 = g_float
group float128 = g_float
group ptr = g_ptr

-- `is(gInt)`
unfoldable pub is_int : Kind → Bool
unfolding group
is_int k = elim (group k.ekind) [ g_int ↦ true | _ ↦ false ]

unfoldable pub is_float : Kind → Bool
is_float k = elim k.ekind [ float32 ↦ true | float64 ↦ true | _ ↦ false ]

unfoldable pub is_integer : Kind → Bool
unfolding group
is_integer k = elim (group k.ekind) [ g_int ↦ true | g_uint ↦ true | _ ↦ false ]

unfoldable pub is_signed : Kind → Bool
unfolding group
is_signed k = elim (group k.ekind) [ g_int ↦ true | g_float ↦ true | _ ↦ false ]

unfoldable pub is_unsigned : Kind → Bool
unfolding is_signed
is_unsigned k = not (is_signed k)

unfoldable pub is_ordered : Kind → Bool
unfolding group
is_ordered k = elim (group k.ekind) [ g_void ↦ false | g_bool ↦ false | _ ↦ true ]
