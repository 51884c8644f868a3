-- ===== src/Op.antt =====
-- The operators of onejit/op.hpp and onejit/op.cpp.
use onejit.Base.{ℕ, Bool, leb, ◌&&◌}

pub data Op1 : Type 0 where
  bad1 xor1 not1 neg1 cast bitcopy : Op1

pub data Op2 : Type 0 where
  bad2 sub quo rem shl shr land lor lss leq neq eql gtr geq : Op2

pub data OpN : Type 0 where
  badn add mul and or xor max min comma call mem_op mir_mem x86_mem arm64_mem mir_rets : OpN

-- The number of the enumerator
unfoldable pub code2 : Op2 → ℕ
code2 bad2 = 0
code2 sub = 1
code2 quo = 2
code2 rem = 3
code2 shl = 4
code2 shr = 5
code2 land = 6
code2 lor = 7
code2 lss = 8
code2 leq = 9
code2 neq = 10
code2 eql = 11
code2 gtr = 12
code2 geq = 13

unfoldable pub code_n : OpN → ℕ
code_n badn = 0
code_n add = 1
code_n mul = 2
code_n and = 3
code_n or = 4
code_n xor = 5
code_n max = 6
code_n min = 7
code_n comma = 8
code_n call = 9
code_n mem_op = 10
code_n mir_mem = 11
code_n x86_mem = 12
code_n arm64_mem = 13
code_n mir_rets = 14

unfoldable pub is_comparison : Op2 → Bool
unfolding code2
is_comparison op = leb (code2 lss) (code2 op) && leb (code2 op) (code2 geq)

unfoldable pub swap_comparison : Op2 → Op2
swap_comparison lss = gtr
swap_comparison leq = geq
swap_comparison gtr = lss
swap_comparison geq = leq
swap_comparison op = op

unfoldable pub not_comparison : Op2 → Op2
not_comparison lss = geq
not_comparison leq = gtr
not_comparison neq = eql
not_comparison eql = neq
not_comparison gtr = leq
not_comparison geq = lss
not_comparison op = op

unfoldable pub is_arithmetic : OpN → Bool
unfolding code_n
is_arithmetic op = leb (code_n add) (code_n op) && leb (code_n op) (code_n comma)

unfoldable pub is_associative : OpN → Bool
unfolding code_n
is_associative op = leb (code_n add) (code_n op) && leb (code_n op) (code_n comma)

unfoldable pub is_commutative : OpN → Bool
unfolding code_n
is_commutative op = leb (code_n add) (code_n op) && leb (code_n op) (code_n min)

unfoldable pub is_bitwise : OpN → Bool
unfolding code_n
is_bitwise op = leb (code_n and) (code_n op) && leb (code_n op) (code_n xor)
