-- ===== src/Compiler/Expressions.antt =====
-- The compilation of expressions in onejit/compiler.cpp. What the code compiles a second time,
-- operands that it has compiled already, goes through `again`; `compile_expr` ties the knot on a
-- number of such rounds.
use onejit.Base.{ℕ, zero, suc, ◌+◌, Bool, true, false, not, ◌||◌, if◌then◌else◌, Option, none, some}
use onejit.Kind.{Kind, scalar, bool}
use onejit.Op
use onejit.Op.{Op1, Op2, OpN}
use onejit.OpStmt.{OpStmt2}
use onejit.Float.{Fpu}
use onejit.Value
use onejit.Value.{Value}
use onejit.Value.Operators.{truth}
use onejit.Ir.{
  Expr, Exprs, nil, cons, Node, kind_of, make_unary, make_binary, make_call, truth_of, are_vars,
  is_valid,
}
use onejit.Compiler.Assigns.{Compiled, Round, add_assign, to_var, to_var_mem_const, assign, jump_if}
use onejit.Compiler.{State, add, new_var, new_label}

-- The node that a LAND or LOR reads first, as `x.type() == BINARY && is_comparison(Op2(x.op()))`
unfoldable pub is_compare : Expr → Bool
is_compare (Expr.binary k op x y) = Op.is_comparison op
is_compare e = false

-- The last part of `simplify_land` (`land`) and of `simplify_lor`
unfoldable pub join : Fpu → Round → Bool → Expr → Expr → State → Option Expr × State
join fpu again land x y s =
    let (dst, s1) = new_var (scalar bool) s in
    let (l, s2) = new_label s1 in
    let s3 = add_assign dst (if is_compare x then truth_of (not land) else x) s2 in
    let test = if is_compare x then x else dst in
    let s4 = jump_if fpu l (again (if land then make_unary Op1.not1 test else test) s3) in
    let s5 = assign again OpStmt2.assign dst y s4 in (some dst, add (Node.expr l) s5)

unfoldable pub simplify_land : Fpu → Round → Expr → Expr → State → Option Expr × State
simplify_land fpu again (Expr.constant a) y s =
    (some (if truth fpu a then y else Expr.constant a), s)
simplify_land fpu again x (Expr.constant b) s =
    if truth fpu b then (some x, s) else (some (Expr.constant b), add (Node.expr x) s)
simplify_land fpu again x (Expr.var k i) s = (none, s)
simplify_land fpu again x y s = join fpu again true x y s

unfoldable pub simplify_lor : Fpu → Round → Expr → Expr → State → Option Expr × State
simplify_lor fpu again (Expr.constant a) y s =
    (some (if truth fpu a then Expr.constant a else y), s)
simplify_lor fpu again x (Expr.constant b) s =
    if truth fpu b then (some (Expr.constant b), add (Node.expr x) s) else (some x, s)
simplify_lor fpu again x (Expr.var k i) s = (none, s)
simplify_lor fpu again x y s = join fpu again false x y s

unfoldable pub simplify_boolean : Fpu → Round → Op2 → Expr → Expr → State → Option Expr × State
simplify_boolean fpu again Op2.land x y s = simplify_land fpu again x y s
simplify_boolean fpu again Op2.lor x y s = simplify_lor fpu again x y s
simplify_boolean fpu again op x y s = (none, s)

-- The ends of `compile(Binary)` and of `compile(Tuple)`, once the operands are compiled
abbrev pub binary_end : Expr → Op2 → Expr → Expr → Bool → Option Expr × State → Compiled
binary_end source op x y changed (some e, s) =
    if is_valid e
    then (e, true, s)
    else (if changed then make_binary op x y else source, changed, s)
binary_end source op x y changed (none, s) =
    (if changed then make_binary op x y else source, changed, s)

abbrev pub constant_or : Option Value → State → Compiled
constant_or (some v) s = (Expr.constant v, true, s)
constant_or none s = (Expr.bad, true, record s { undefined = true })

unfoldable pub tuple_end : Fpu → Expr → Kind → OpN → Exprs × Bool × State → Compiled
tuple_end fpu source k op (nil, changed, s) =
    if Op.is_arithmetic op
    then constant_or (Value.identity fpu k op) s
    else (if changed then Expr.tuple k op nil else source, changed, s)
tuple_end fpu source k op (cons x nil, changed, s) =
    if Op.is_arithmetic op
    then (x, true, s)
    else (if changed then Expr.tuple k op (cons x nil) else source, changed, s)
tuple_end fpu source k op (cons x (cons y xs), changed, s) =
    (if changed then Expr.tuple k op (cons x (cons y xs)) else source, changed, s)

-- Whether `to_var_mem_const` leaves the node as it is
unfoldable pub is_kept : Expr → Bool
is_kept Expr.bad = true
is_kept (Expr.var k i) = true
is_kept (Expr.mem k op xs) = true
is_kept (Expr.label l) = true
is_kept (Expr.constant v) = true
is_kept e = false

-- The call into a variable, of `compile(Call)`
unfoldable pub call_end : Expr × State → Compiled
call_end (e, s) = let (dst, s1) = new_var (kind_of e) s in (dst, true, add_assign dst e s1)

-- `compile(Expr)` with `compile(Unary)`, `compile(Binary)`, `compile(Tuple)` and `compile(Call)`
unfoldable mutual
  pub compile_round : Fpu → Round → Expr → State → Compiled
  compile_round fpu again (Expr.unary k op x) s =
      let (comp_x, changed, s1) = compile_round fpu again x s in
      (if changed then make_unary op comp_x else Expr.unary k op x, changed, s1)
  compile_round fpu again (Expr.binary k op x y) s =
      let (comp_x, x_changed, s1) = compile_round fpu again x s in
      let (comp_y, y_changed, s2) = compile_round fpu again y s1 in
      binary_end (Expr.binary k op x y) op comp_x comp_y (x_changed || y_changed)
        (simplify_boolean fpu again op comp_x comp_y s2)
  compile_round fpu again (Expr.mem k op xs) s =
      tuple_end fpu (Expr.mem k op xs) k op (compile_children fpu again xs s)
  compile_round fpu again (Expr.tuple k op xs) s =
      tuple_end fpu (Expr.tuple k op xs) k op (compile_children fpu again xs s)
  compile_round fpu again (Expr.call k t address xs) s =
      let (args, s1) = compile_args fpu again xs s in
      call_end
        (if are_vars xs then (Expr.call k t address xs, s) else (make_call t address args, s1))
  compile_round fpu again e s = (e, false, s)

  pub compile_children : Fpu → Round → Exprs → State → Exprs × Bool × State
  compile_children fpu again nil s = (nil, false, s)
  compile_children fpu again (cons x xs) s =
      let (comp_x, changed, s1) = compile_round fpu again x s in
      let (place, s2) = to_var_mem_const comp_x (again comp_x) s1 in
      let (rest, rest_changed, s3) = compile_children fpu again xs s2 in
      (cons place rest, (changed || not (is_kept comp_x)) || rest_changed, s3)

  -- `to_vars`
  pub compile_args : Fpu → Round → Exprs → State → Exprs × State
  compile_args fpu again nil s = (nil, s)
  compile_args fpu again (cons x xs) s =
      let (place, s1) = to_var x (λ (r : State). compile_round fpu again x r) s in
      let (rest, s2) = compile_args fpu again xs s1 in (cons place rest, s2)

-- The number of nodes of an expression, as many rounds as its compilation may take
unfoldable mutual
  pub size : Expr → ℕ
  size (Expr.unary k op x) = suc (size x)
  size (Expr.binary k op x y) = suc (size x + size y)
  size (Expr.mem k op xs) = suc (sizes xs)
  size (Expr.tuple k op xs) = suc (sizes xs)
  size (Expr.call k t a xs) = suc (sizes xs)
  size e = 1

  pub sizes : Exprs → ℕ
  sizes nil = 0
  sizes (cons x xs) = size x + sizes xs

-- A number of rounds: the last one answers its argument.
unfoldable pub rounds : Fpu → ℕ → Round
rounds fpu zero e s = (e, false, s)
rounds fpu (suc n) e s = compile_round fpu (rounds fpu n) e s

unfoldable pub compile_expr : Fpu → Round
unfolding size
compile_expr fpu e = rounds fpu (size e) e
