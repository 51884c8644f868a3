-- ===== src/Compiler/Statements.antt =====
-- The compilation of statements in onejit/compiler.cpp.
use onejit.Base.{ℕ, suc, Bool, true, false, not, ◌==◌, ◌&&◌, if◌then◌else◌, Option, some, none}
use onejit.Kind
use onejit.OpStmt
use onejit.OpStmt.{OpStmt0, OpStmt1, OpStmt2, OpStmt3, OpStmtN}
use onejit.Float.{Fpu}
use onejit.Ir.{Expr, Exprs, nil, cons, Node, Nodes, kind_of, make_call, is_valid, are_vars}
use onejit.Compiler.{
  State, Message, misplaced_break, misplaced_continue, misplaced_fallthrough, bad_stmt0,
  wrong_number_of_results, wrong_kind_of_result, unexpected_node_in_switch, duplicate_default, add,
  error, goto, label_break, label_continue, label_fallthrough,
}
use onejit.Compiler.Assigns.{add_assign, to_place, assign, jump_if}
use onejit.Compiler.Expressions.{compile_expr, compile_args}

abbrev pub goto_or_error : Expr → Node → Message → State → State
goto_or_error to where_ m s = if is_valid to then goto to s else error where_ m s

-- `compile(Stmt0)`
unfoldable pub compile_stmt0 : OpStmt0 → State → State
compile_stmt0 OpStmt0.break s =
    goto_or_error (label_break s) (Node.stmt0 OpStmt0.break) misplaced_break s
compile_stmt0 OpStmt0.continue s =
    goto_or_error (label_continue s) (Node.stmt0 OpStmt0.continue) misplaced_continue s
compile_stmt0 OpStmt0.fallthrough s =
    goto_or_error (label_fallthrough s) (Node.stmt0 OpStmt0.fallthrough) misplaced_fallthrough s
compile_stmt0 op s = error (Node.stmt0 op) bad_stmt0 s

-- `compile(Stmt1)`
unfoldable pub compile_stmt1 : Fpu → OpStmt1 → Expr → State → State
compile_stmt1 fpu op e s =
    let (comp_e, changed, s1) = compile_expr fpu e s in add (Node.stmt1 op comp_e) s1

-- `compile(Stmt2)` but for JumpIf
unfoldable pub compile_stmt2 : Fpu → OpStmt2 → Expr → Expr → State → State
compile_stmt2 fpu op dst src s =
    if OpStmt.is_assign op
    then assign (compile_expr fpu) op dst src s
    else add (Node.stmt2 op dst src) s

unfoldable pub compile_jump_if : Fpu → Expr → Expr → State → State
compile_jump_if fpu to test s = jump_if fpu to (compile_expr fpu test s)

-- `to_places`
unfoldable pub to_places : Fpu → Exprs → State → Exprs × State
to_places fpu nil s = (nil, s)
to_places fpu (cons x xs) s =
    let (place, s1) = to_place (compile_expr fpu) x s in
    let (places, s2) = to_places fpu xs s1 in (cons place places, s2)

-- `compile(Call)` without SimplifyCall, of a node that may be no call: whether the call stayed
-- as it is, and the call
unfoldable pub compile_call : Fpu → Expr → State → Bool × Expr × State
compile_call fpu (Expr.call k t address xs) s =
    let (args, s1) = compile_args fpu (compile_expr fpu) xs s in
    if are_vars xs
    then (true, Expr.call k t address xs, s)
    else (false, make_call t address args, s1)
compile_call fpu e s = (true, Expr.bad, s)

-- `compile(AssignCall)` with a last child
unfoldable pub compile_assign_call : Fpu → Exprs → Expr → State → State
compile_assign_call fpu places source s =
    let (same, comp_call, s1) = compile_call fpu source s in
    let (comp_places, s2) = to_places fpu places s1 in
    if same && are_vars places
    then add (Node.assign_call places source) s1
    else add (Node.assign_call comp_places comp_call) s2

unfoldable pub same_var : Expr → Expr → Bool
same_var (Expr.var k i) (Expr.var l j) = Kind.same k l && (i == j)
same_var x y = false

-- Whether the children of a Return are the variables of the results; the lists have one length.
unfoldable pub are_results : Exprs → Exprs → Bool
are_results (cons x xs) (cons v vs) = same_var x v && are_results xs vs
are_results xs vs = true

unfoldable pub count : Exprs → ℕ
count nil = 0
count (cons x xs) = suc (count xs)

-- The second loop of `compile(Return)`
unfoldable pub compile_results : Fpu → Node → Exprs → Exprs → State → State
compile_results fpu st (cons x xs) (cons v vs) s =
    let s1 = if Kind.same (kind_of v) (kind_of x) then s else error st wrong_kind_of_result s in
    let (comp_x, changed, s2) = compile_expr fpu x s1 in
    compile_results fpu st xs vs (if same_var x v then s1 else add_assign v comp_x s2)
compile_results fpu st xs vs s = s

-- `compile(Return)`, given the variables of the results
unfoldable pub compile_return : Fpu → Exprs → Exprs → State → State
compile_return fpu results xs s =
    if not (count xs == count results)
    then add (Node.return_of xs) (error (Node.return_of xs) wrong_number_of_results s)
    else if are_results xs results
    then add (Node.return_of xs) s
    else add (Node.return_of results) (compile_results fpu (Node.return_of xs) xs results s)

-- The first loop of `compile(Switch)`: the first child that is refused, and why
unfoldable pub check_cases : Nodes → Bool → Option (Node × Message)
check_cases Nodes.none have_default = none
check_cases (Nodes.some (Node.case_of e body) rest) have_default = check_cases rest have_default
check_cases (Nodes.some (Node.default_of body) rest) have_default =
    if have_default then some (Node.default_of body, duplicate_default) else check_cases rest true
check_cases (Nodes.some n rest) have_default = some (n, unexpected_node_in_switch)
