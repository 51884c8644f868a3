-- ===== src/Compiler/Assigns.antt =====
-- The compilation of assignments and of conditional jumps in onejit/compiler.cpp, given the
-- compilation of the expressions in them.
use onejit.Base.{Bool, true, false, not, if◌then◌else◌, Option, none, some}
use onejit.Kind
use onejit.Kind.{Kind, scalar, bool, ptr}
use onejit.Op.{Op1, Op2, OpN}
use onejit.OpStmt.{OpStmt2, comparison_to_condjump, negate_condjump}
use onejit.Float.{Fpu}
use onejit.Value
use onejit.Value.{Value}
use onejit.Value.Operators.{truth, negation}
use onejit.Eval.{eval_binary_op}
use onejit.Ir.{Expr, nil, cons, Node, kind_of, zero_of}
use onejit.Compiler.{State, add, goto, new_var}

-- A compiled expression, and whether it is another node than the source
abbrev pub Compiled : Type 0
Compiled = Expr × Bool × State

abbrev pub Round : Type 0
Round = Expr → State → Compiled

-- `add(Assign{ASSIGN, dst, src})`
unfoldable pub add_assign : Expr → Expr → State → State
add_assign dst src s = add (Node.stmt2 OpStmt2.assign dst src) s

-- `to_var` of a node whose compilation as the source of an assignment is `src`
unfoldable pub to_var : Expr → (State → Compiled) → State → Expr × State
to_var Expr.bad src s = (Expr.bad, s)
to_var (Expr.var k i) src s = (Expr.var k i, s)
to_var e src s =
    let (v, s1) = new_var (kind_of e) s in
    let (comp_src, changed, s2) = src s1 in (v, add_assign v comp_src s2)

-- `to_var_const`, `to_var_mem_const`
unfoldable pub to_var_const : Expr → (State → Compiled) → State → Expr × State
to_var_const (Expr.constant v) src s = (Expr.constant v, s)
to_var_const (Expr.label l) src s = (Expr.label l, s)
to_var_const e src s = to_var e src s

unfoldable pub to_var_mem_const : Expr → (State → Compiled) → State → Expr × State
to_var_mem_const (Expr.constant v) src s = (Expr.constant v, s)
to_var_mem_const (Expr.label l) src s = (Expr.label l, s)
to_var_mem_const (Expr.mem k op xs) src s = (Expr.mem k op xs, s)
to_var_mem_const e src s = to_var e src s

-- `to_place`
unfoldable pub to_place : Round → Expr → State → Expr × State
to_place again (Expr.mem k op xs) s =
    let (address, changed, s1) = again (Expr.tuple (scalar ptr) OpN.add xs) s in
    let (place, s2) = to_var_const address (again address) s1 in
    (Expr.mem k OpN.mem_op (cons place nil), s2)
to_place again e s = (e, s)

-- `compile(Assign)`: the destination first
unfoldable pub assign : Round → OpStmt2 → Expr → Expr → State → State
assign again op dst src s =
    let (comp_dst, changed, s1) = again dst s in
    let (place, s2) = to_place again comp_dst s1 in
    let (comp_src, other, s3) = again src s2 in add (Node.stmt2 op place comp_src) s3

-- The negations in front of the test of a JumpIf, and whether their number is odd
unfoldable pub strip_not : Expr → Bool → Expr × Bool
strip_not (Expr.unary k Op1.not1 x) negate = strip_not x (not negate)
strip_not e negate = (e, negate)

-- The comparison that a JumpIf tests: the operator and its operands
unfoldable pub test_parts : Expr → Op2 × Expr × Expr
test_parts (Expr.binary k Op2.bad2 x y) = (Op2.neq, Expr.binary k Op2.bad2 x y, zero_of k)
test_parts (Expr.binary k op x y) = (op, x, y)
test_parts e = (Op2.neq, e, zero_of (kind_of e))

unfoldable pub emit_jump : Op2 → Bool → Expr → Expr → Expr → State → State
emit_jump op negate to x y s =
    let jop = comparison_to_condjump op (Kind.is_signed (kind_of x)) in
    add (Node.stmt3 (if negate then negate_condjump jop else jop) to x y) s

unfoldable pub jump_on : Fpu → Op2 → Bool → Expr → Expr → Expr → Option Value → State → State
jump_on fpu op negate to x y none s = emit_jump op negate to x y (record s { undefined = true })
jump_on fpu op negate to x y (some v) s =
    if Value.is_valid v
    then (if truth fpu (if negate then negation fpu v else v) then goto to s else s)
    else emit_jump op negate to x y s

unfoldable pub jump_test : Fpu → Op2 → Bool → Expr → Expr → Expr → State → State
jump_test fpu op negate to (Expr.constant a) (Expr.constant b) s =
    jump_on fpu op negate to (Expr.constant a) (Expr.constant b) (eval_binary_op fpu op a b) s
jump_test fpu op negate to x y s = emit_jump op negate to x y s

-- `compile(JumpIf)`, after the compilation of its test
unfoldable pub jump_if : Fpu → Expr → Compiled → State
jump_if fpu to (test, changed, s) =
    let (inner, negate) = strip_not test false in
    let (op, x, y) = test_parts inner in jump_test fpu op negate to x y s
