-- ===== src/OpStmt.antt =====
-- The operators of statements, as in onejit/opstmt0.hpp to onejit/opstmtn.hpp and
-- onejit/opstmt.cpp. The machine operators that no function here tells apart stand under one
-- constructor for each machine, with the number in its table.
pub mod Negate
use onejit.Base.{ℕ, Bool, true, false}
use onejit.Op.{Op2, OpN}

pub data OpStmt0 : Type 0 where
  bad_st0 break continue fallthrough : OpStmt0
  x86_op0 : ℕ → OpStmt0

pub data OpStmt1 : Type 0 where
  bad_st1 goto inc dec mir_jmp : OpStmt1
  x86_ja x86_jae x86_jb x86_jbe x86_je x86_jg x86_jge x86_jl x86_jle x86_jne : OpStmt1
  x86_jno x86_jnp x86_jns x86_jo x86_jp x86_js x86_jmp : OpStmt1
  x86_op1 : ℕ → OpStmt1

pub data OpStmt2 : Type 0 where
  bad_st2 add_assign sub_assign mul_assign quo_assign rem_assign and_assign or_assign : OpStmt2
  xor_assign shl_assign shr_assign assign case_op default_op jump_if_op x86_xbegin : OpStmt2
  mir_op2 x86_op2 : ℕ → OpStmt2

pub data OpStmt3 : Type 0 where
  bad_st3 if_op : OpStmt3
  asm_ja asm_jae asm_jb asm_jbe asm_je asm_jg asm_jge asm_jl asm_jle asm_jne : OpStmt3
  mir_op3 x86_op3 : ℕ → OpStmt3

pub data OpStmtN : Type 0 where
  bad_stn assign_call_op block_op cond_op return_op switch_op set_op : OpStmtN
  mir_switch mir_call mir_ret x86_call x86_ret : OpStmtN

-- The operator of which an OpStmt2 is the assignment
unfoldable pub to_op2 : OpStmt2 → Op2
to_op2 sub_assign = Op2.sub
to_op2 quo_assign = Op2.quo
to_op2 rem_assign = Op2.rem
to_op2 shl_assign = Op2.shl
to_op2 shr_assign = Op2.shr
to_op2 op = Op2.bad2

unfoldable pub to_opn : OpStmt2 → OpN
to_opn add_assign = OpN.add
to_opn mul_assign = OpN.mul
to_opn and_assign = OpN.and
to_opn or_assign = OpN.or
to_opn xor_assign = OpN.xor
to_opn op = OpN.badn

-- The two functions `to_assign_op`
unfoldable pub assign_of_op2 : Op2 → OpStmt2
assign_of_op2 Op2.sub = sub_assign
assign_of_op2 Op2.quo = quo_assign
assign_of_op2 Op2.rem = rem_assign
assign_of_op2 Op2.shl = shl_assign
assign_of_op2 Op2.shr = shr_assign
assign_of_op2 op = bad_st2

unfoldable pub assign_of_opn : OpN → OpStmt2
assign_of_opn OpN.add = add_assign
assign_of_opn OpN.mul = mul_assign
assign_of_opn OpN.and = and_assign
assign_of_opn OpN.or = or_assign
assign_of_opn OpN.xor = xor_assign
assign_of_opn op = bad_st2

-- `is_assign` of an OpStmt2
unfoldable pub is_assign : OpStmt2 → Bool
is_assign add_assign = true
is_assign sub_assign = true
is_assign mul_assign = true
is_assign quo_assign = true
is_assign rem_assign = true
is_assign and_assign = true
is_assign or_assign = true
is_assign xor_assign = true
is_assign shl_assign = true
is_assign shr_assign = true
is_assign assign = true
is_assign op = false

-- `is_return_op` of onejit/ir/util.hpp
unfoldable pub is_return_op : OpStmtN → Bool
is_return_op return_op = true
is_return_op mir_ret = true
is_return_op x86_ret = true
is_return_op op = false

unfoldable pub negate_condjump : OpStmt3 → OpStmt3
negate_condjump asm_ja = asm_jbe
negate_condjump asm_jae = asm_jb
negate_condjump asm_jb = asm_jae
negate_condjump asm_jbe = asm_ja
negate_condjump asm_je = asm_jne
negate_condjump asm_jg = asm_jle
negate_condjump asm_jge = asm_jl
negate_condjump asm_jne = asm_je
negate_condjump op = op

-- `comparison_to_condjump` of onejit/compiler.cpp
unfoldable pub comparison_to_condjump : Op2 → Bool → OpStmt3
comparison_to_condjump Op2.lss true = asm_jl
comparison_to_condjump Op2.lss false = asm_jb
comparison_to_condjump Op2.leq true = asm_jle
comparison_to_condjump Op2.leq false = asm_jbe
comparison_to_condjump Op2.neq signed = asm_jne
comparison_to_condjump Op2.eql signed = asm_je
comparison_to_condjump Op2.gtr true = asm_jg
comparison_to_condjump Op2.gtr false = asm_ja
comparison_to_condjump Op2.geq true = asm_jge
comparison_to_condjump Op2.geq false = asm_jae
comparison_to_condjump op signed = bad_st3
