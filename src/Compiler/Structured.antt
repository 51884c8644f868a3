-- ===== src/Compiler/Structured.antt =====
-- The compilation of structured statements in onejit/compiler.cpp: If, For, Block, Cond, Switch,
-- and `compile(Node)`, which all of them call.
use onejit.Base.{Bool, true, false, not, ◌&&◌, ◌||◌, if◌then◌else◌, Option, none, some}
use onejit.Op.{Op1, Op2}
use onejit.Float.{Fpu}
use onejit.Value.Operators.{truth, negation}
use onejit.Ir
use onejit.Ir.{Expr, Exprs, Node, Nodes, make_unary, make_binary, void_const, is_valid, is_constant}
use onejit.Compiler.{
  State, Message, misplaced_case, misplaced_default, odd_cond, add, error, goto, new_label,
  enter_case, exit_case, enter_loop, exit_loop,
}
use onejit.Compiler.Assigns.{to_var}
use onejit.Compiler.Expressions.{compile_expr}
use onejit.Compiler.Statements.{
  compile_stmt0, compile_stmt1, compile_stmt2, compile_jump_if, compile_assign_call, compile_return,
  check_cases,
}

abbrev pub add_if_valid : Expr → State → State
add_if_valid l s = if is_valid l then add (Node.expr l) s else s

-- `else_.type() != CONST`
abbrev pub have_else : Node → Bool
have_else (Node.expr e) = not (is_constant e)
have_else n = true

-- `have_test` of `compile(For)`, of a constant test
unfoldable pub constant_test : Fpu → Expr → Bool
constant_test fpu (Expr.constant v) =
    not (Ir.is_void (Expr.constant v)) || truth fpu (negation fpu v)
constant_test fpu e = false

-- The labels that `compile(Switch)` keeps from case to case
pub record Labels : Type 0 where
  pub this : Expr
  pub this_fallthrough : Expr
  pub default_label : Expr
  pub break_label : Expr

-- `l_next` and `l_fallthrough` of a case
unfoldable pub next_labels : Bool → Labels → State → Expr × Expr × State
next_labels is_last ls s =
    if is_last
    then (if is_valid ls.default_label then ls.default_label else ls.break_label, ls.break_label, s)
    else let (l_next, s1) = new_label s in
      let (l_fallthrough, s2) = new_label s1 in (l_next, l_fallthrough, s2)

-- The label of a Default that is not the last case, which stands behind a jump to the next case
unfoldable pub default_entry : Bool → Labels → Expr → State → Labels × State
default_entry is_last ls l_next s =
    let s1 = goto l_next s in
    let (l, s2) =
      if is_valid ls.this_fallthrough then (ls.this_fallthrough, s1) else new_label s1 in
    if is_last then (ls, s) else (record ls { this_fallthrough = l; default_label = l }, s2)

unfoldable pub case_entry : Fpu → Expr → Expr → Expr → State → State
case_entry fpu subject e l_next s = compile_jump_if fpu l_next (make_binary Op2.neq subject e) s

-- What follows the body of a case
unfoldable pub case_exit : Bool → Expr → State → State
case_exit is_last l_break s = if is_last then exit_case s else goto l_break (exit_case s)

abbrev pub is_none : Nodes → Bool
is_none Nodes.none = true
is_none (Nodes.some n rest) = false

abbrev pub have_more : Nodes → Bool
have_more rest = not (is_none rest)

abbrev pub is_even : Nodes → Bool
is_even Nodes.none = true
is_even (Nodes.some n Nodes.none) = false
is_even (Nodes.some n (Nodes.some m rest)) = is_even rest

-- `child_is<Expr>`
abbrev pub as_expr : Node → Expr
as_expr (Node.expr e) = e
as_expr n = Expr.bad

abbrev pub have_two : Nodes → Bool
have_two (Nodes.some t (Nodes.some b rest)) = have_more rest
have_two ns = false

-- `compile_add` of a child
abbrev pub Part : Type 0
Part = State → State

abbrev pub add_result : Node × State → State
add_result (n, s) = add n s

-- The jumps around the branches, of a test that is no constant
unfoldable pub if_branches : Fpu → Expr → Bool → Part → Part → State → State
if_branches fpu test has_else then_ else_ s =
    let (else_label, s1) = new_label s in
    let (endif_label, s2) = if has_else then new_label s1 else (else_label, s1) in
    let s3 = then_ (compile_jump_if fpu else_label (make_unary Op1.not1 test) s2) in
    let s4 = if has_else then else_ (add (Node.expr else_label) (goto endif_label s3)) else s3 in
    add (Node.expr endif_label) s4

unfoldable pub if_test : Fpu → Expr → Bool → Part → Part → State → State
if_test fpu (Expr.constant v) has_else then_ else_ s = if truth fpu v then then_ s else else_ s
if_test fpu test has_else then_ else_ s = if_branches fpu test has_else then_ else_ s

-- `compile(If)`, given the compilation of the two branches
unfoldable pub compile_if : Fpu → Expr → Bool → Part → Part → State → State
compile_if fpu test has_else then_ else_ s =
    let (comp_test, changed, s1) = compile_expr fpu test s in
    if_test fpu comp_test has_else then_ else_ s1

-- The loop of `compile(For)`, with or without a test
unfoldable pub loop : Fpu → Bool → Expr → Part → Part → State → State
loop fpu have_test test body post s =
    let (l_loop, s1) = new_label s in
    let (l_continue, s2) = if have_test then new_label s1 else (l_loop, s1) in
    let (l_break, s3) = new_label s2 in
    let s4 = add (Node.expr l_loop) (if have_test then goto l_continue s3 else s3) in
    let s5 = exit_loop (post (body (enter_loop l_break l_continue s4))) in
    let s6 =
      if have_test
      then compile_jump_if fpu l_loop test (add (Node.expr l_continue) s5)
      else compile_stmt1 fpu Ir.goto_op l_loop s5 in
    add (Node.expr l_break) s6

-- `compile(For)`, given the compilation of its parts
unfoldable pub compile_for : Fpu → Expr → Part → Part → Part → State → State
compile_for fpu test init body post s =
    let s0 = init s in
    if is_constant test && constant_test fpu test
    then s0
    else loop fpu (not (is_constant test)) test body post s0

-- One round of the loop of `compile(Cond)`
unfoldable pub cond_part : Fpu → Bool → Bool → Expr → Expr → Part → Part → State → State
cond_part fpu is_last many l_end test body rest s =
    let (l_next, s1) = if is_last then (l_end, s) else new_label s in
    let s2 = compile_jump_if fpu l_next (make_unary Op1.not1 test) s1 in
    let s3 = body s2 in
    let s4 = if not is_last && many then goto l_end s3 else s3 in rest (add (Node.expr l_next) s4)

-- One round of the second loop of `compile(Switch)`; `entry` is what a case does before its body.
unfoldable pub case_part :
    Bool
    → Labels
    → (Expr → Labels → State → Labels × State)
    → Part
    → (Labels → Part)
    → State
    → State
case_part is_last ls entry body rest s =
    let (l_next, l_fallthrough, s1) = next_labels is_last ls s in
    let (ls1, s2) = entry l_next ls (add_if_valid ls.this s1) in
    let s3 = add_if_valid ls1.this_fallthrough s2 in
    let s4 = body (enter_case ls.break_label l_fallthrough s3) in
    rest (record ls1 { this = l_next; this_fallthrough = l_fallthrough })
      (case_exit is_last ls.break_label s4)

unfoldable pub compile_switch : Fpu → Expr → Option (Node × Message) → (Expr → Labels → Part) → Part
compile_switch fpu e (some (n, m)) cases s = error n m s
compile_switch fpu e none cases s =
    let (subject, s1) = to_var e (compile_expr fpu e) s in
    let (l_break, s2) = new_label s1 in
    let start : Labels = record {
      this = Expr.bad;
      this_fallthrough = Expr.bad;
      default_label = Expr.bad;
      break_label = l_break;
    } in
    add (Node.expr l_break) (cases subject start s2)

abbrev pub void : Node
void = Node.expr void_const

-- `compile(Cond)`, given its loop
abbrev pub cond_or_error : Nodes → (Expr → Bool → Part) → Part
cond_or_error ns conds s =
    if is_none ns
    then s
    else if is_even ns
    then (let (l_end, s1) = new_label s in conds l_end (have_two ns) s1)
    else add (Node.cond ns) (error (Node.cond ns) odd_cond s)

-- The results of the function are a parameter. `compile_add` adds the node that `compile`
-- answers, which is VoidConst for all statements.
unfoldable mutual
  pub compile_node : Fpu → Exprs → Node → State → Node × State
  compile_node fpu results (Node.expr e) s =
      let (comp_e, changed, s1) = compile_expr fpu e s in (Node.expr comp_e, s1)
  compile_node fpu results (Node.stmt0 op) s = (void, compile_stmt0 op s)
  compile_node fpu results (Node.stmt1 op e) s = (void, compile_stmt1 fpu op e s)
  compile_node fpu results (Node.stmt2 op dst src) s = (void, compile_stmt2 fpu op dst src s)
  compile_node fpu results (Node.case_of e body) s =
      (void, add (Node.case_of e body) (error (Node.case_of e body) misplaced_case s))
  compile_node fpu results (Node.default_of body) s =
      (void, add (Node.default_of body) (error (Node.default_of body) misplaced_default s))
  compile_node fpu results (Node.jump_if to test) s = (void, compile_jump_if fpu to test s)
  compile_node fpu results (Node.stmt3 op to x y) s = (void, add (Node.stmt3 op to x y) s)
  compile_node fpu results (Node.if_else test then_ else_) s = (
    void,
    compile_if fpu test (have_else else_)
        (λ (r : State). add_result (compile_node fpu results then_ r))
        (λ (r : State). add_result (compile_node fpu results else_ r)) s,
  )
  compile_node fpu results (Node.for_loop init test post body) s = (
    void,
    compile_for fpu test (λ (r : State). add_result (compile_node fpu results init r))
        (λ (r : State). add_result (compile_node fpu results body r))
        (λ (r : State). add_result (compile_node fpu results post r)) s,
  )
  compile_node fpu results (Node.assign_call places source) s =
      (void, compile_assign_call fpu places source s)
  compile_node fpu results (Node.block ns) s = (void, compile_block fpu results ns s)
  compile_node fpu results (Node.cond ns) s =
      (void, cond_or_error ns (λ l many r. compile_cond fpu results l many ns r) s)
  compile_node fpu results (Node.return_of xs) s = (void, compile_return fpu results xs s)
  compile_node fpu results (Node.switch e cases) s = (
    void,
    compile_switch fpu e (check_cases cases false)
        (λ subject ls r. compile_cases fpu results subject cases ls r) s,
  )
  compile_node fpu results (Node.stmt_n op xs) s = (void, add (Node.stmt_n op xs) s)

  -- `compile(Block)`: the node that `compile` answers is not added.
  pub compile_block : Fpu → Exprs → Nodes → State → State
  compile_block fpu results Nodes.none s = s
  compile_block fpu results (Nodes.some n rest) s =
      compile_block fpu results rest (compile_node fpu results n s).1

  pub compile_cond : Fpu → Exprs → Expr → Bool → Nodes → State → State
  compile_cond fpu results l_end many (Nodes.some test (Nodes.some body rest)) s =
      cond_part fpu (is_none rest) many l_end (as_expr test)
        (λ (r : State). add_result (compile_node fpu results body r))
        (λ (r : State). compile_cond fpu results l_end many rest r) s
  compile_cond fpu results l_end many ns s = s

  pub compile_cases : Fpu → Exprs → Expr → Nodes → Labels → State → State
  compile_cases fpu results subject (Nodes.some (Node.case_of e body) rest) ls s =
      case_part (is_none rest) ls (λ l_next kept r. (kept, case_entry fpu subject e l_next r))
        (λ (r : State). add_result (compile_node fpu results body r))
        (λ next r. compile_cases fpu results subject rest next r) s
  compile_cases fpu results subject (Nodes.some (Node.default_of body) rest) ls s =
      case_part (is_none rest) ls (λ l_next kept r. default_entry (is_none rest) kept l_next r)
        (λ (r : State). add_result (compile_node fpu results body r))
        (λ next r. compile_cases fpu results subject rest next r) s
  compile_cases fpu results subject ns ls s = s

unfoldable pub compile_add : Fpu → Exprs → Node → State → State
compile_add fpu results n s = add_result (compile_node fpu results n s)
