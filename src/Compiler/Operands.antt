-- ===== src/Compiler/Operands.antt =====
-- The steps of assignments to places and of conditional jumps.
use onejit.Base.{Bool, true, false, if◌then◌else◌, Option, none, some, ◌≡◌, refl}
use onejit.Kind
use onejit.Kind.{Kind, scalar, void}
use onejit.Op.{Op2, OpN}
use onejit.OpStmt
use onejit.OpStmt.{OpStmt1, OpStmt2, OpStmt3}
use onejit.Float.{Fpu}
use onejit.Value
use onejit.Value.{Value}
use onejit.Value.Operators.{truth, negation}
use onejit.Eval.{eval_binary_op}
use onejit.Ir
use onejit.Ir.{Expr, Exprs, nil, cons, Node, kind_of}
use onejit.Compiler.{State, goto}
use onejit.Compiler.Assigns.{
  Compiled, Round, to_place, assign, strip_not, test_parts, emit_jump, jump_on, jump_test, jump_if,
}
use onejit.Compiler.Ledger.{IsStep, IsStep-refl, IsStep-trans, IsStep-add, IsMade}
use onejit.Compiler.Jumps.{
  NoLabel, AllCalm, with_vars, with_vars-IsStep, either-IsStep, assign-LeadsTo, to_var_const-calm,
}

pub to_place-calm :
    (again : Round) (calm : AllCalm again) (e : Expr) (s : State)
    → NoLabel e
    → IsStep s (to_place again e s).1 × NoLabel (to_place again e s).0
unfolding to_place NoLabel
to_place-calm again calm (Expr.mem k op xs) s n =
    let c = again (Expr.tuple (scalar Kind.ptr) OpN.add xs) s in
    let (step, plain) = calm (Expr.tuple (scalar Kind.ptr) OpN.add xs) s n in
    let (next, place) = to_var_const-calm c.0 (again c.0) c.2 (λ r. (calm c.0 r plain).0) plain in
    (IsStep-trans step next, (place, tt))
to_place-calm again calm e s n = (IsStep-refl s, n)

pub assign-IsStep :
    (again : Round) (calm : AllCalm again) (op : OpStmt2) (dst src : Expr) (s : State)
    → OpStmt.is_assign op ≡ true
    → NoLabel dst
    → NoLabel src
    → IsStep s (assign again op dst src s)
unfolding assign
assign-IsStep again calm op dst src s h n m =
    let c = again dst s in
    let p = to_place again c.0 c.2 in
    let d = again src p.1 in
    let (first, plain) = calm dst s n in
    let (second, place) = to_place-calm again calm c.0 c.2 plain in
    let (third, other) = calm src p.1 m in
    IsStep-trans (IsStep-trans first second) (
      IsStep-trans third (
        IsStep-add (Node.stmt2 op p.0 d.0) d.2 (assign-LeadsTo op p.0 d.0 d.2.label_n h)
          (λ l. refl)))

pub goto-IsStep : (to : Expr) (s : State) → IsMade s.label_n to → IsStep s (goto to s)
unfolding goto
goto-IsStep to s h = IsStep-add (Node.stmt1 Ir.goto_op to) s h (λ l. refl)

emit_jump-IsStep :
    (op : Op2) (negate : Bool) (to x y : Expr) (s : State)
    → IsMade s.label_n to
    → IsStep s (emit_jump op negate to x y s)
unfolding emit_jump
emit_jump-IsStep op negate to x y s h =
    let jop = OpStmt.comparison_to_condjump op (Kind.is_signed (kind_of x)) in
    let jump = if negate then OpStmt.negate_condjump jop else jop in
    IsStep-add (Node.stmt3 jump to x y) s h (λ l. refl)

jump_on-IsStep :
    (fpu : Fpu) (op : Op2) (negate : Bool) (to x y : Expr) (o : Option Value) (s : State)
    → IsMade s.label_n to
    → IsStep s (jump_on fpu op negate to x y o s)
unfolding jump_on
jump_on-IsStep fpu op negate to x y none s h =
    IsStep-trans (with_vars-IsStep s.var_n true s)
      (emit_jump-IsStep op negate to x y (with_vars s.var_n true s) h)
jump_on-IsStep fpu op negate to x y (some v) s h =
    let taken = truth fpu (if negate then negation fpu v else v) in
    either-IsStep (Value.is_valid v) (if taken then goto to s else s) (emit_jump op negate to x y s)
      (either-IsStep taken (goto to s) s (goto-IsStep to s h) (IsStep-refl s))
      (emit_jump-IsStep op negate to x y s h)

jump_test-IsStep :
    (fpu : Fpu) (op : Op2) (negate : Bool) (to x y : Expr) (s : State)
    → IsMade s.label_n to
    → IsStep s (jump_test fpu op negate to x y s)
unfolding jump_test
jump_test-IsStep fpu op negate to (Expr.constant a) (Expr.constant b) s h =
    jump_on-IsStep fpu op negate to (Expr.constant a) (Expr.constant b) (eval_binary_op fpu op a b)
      s h
jump_test-IsStep fpu op negate to x y s h = emit_jump-IsStep op negate to x y s h

pub jump_if-IsStep :
    (fpu : Fpu) (to : Expr) (c : Compiled) → IsMade c.2.label_n to → IsStep c.2 (jump_if fpu to c)
unfolding jump_if
jump_if-IsStep fpu to (test, changed, s) h =
    let (inner, negate) = strip_not test false in
    let (op, x, y) = test_parts inner in jump_test-IsStep fpu op negate to x y s h
