-- ===== src/Compiler/Simple.antt =====
-- The steps of the statements that contain no others.
use onejit.Base.{ℕ, ◌==◌, ◌&&◌, ◌<◌, true, not, if◌then◌else◌, ◌≡◌, refl, Bool-cases, inl, inr}
use onejit.Kind
use onejit.OpStmt
use onejit.OpStmt.{OpStmt1, OpStmt2, OpStmtN}
use onejit.Float.{Fpu}
use onejit.Ir.{Expr, Exprs, nil, cons, Node, kind_of, are_vars}
use onejit.Ir.Placed.{AreTargets, LeadsTo}
use onejit.Compiler.{State, Message, add, error}
use onejit.Compiler.Assigns.{add_assign, to_place, assign}
use onejit.Compiler.Expressions.{compile_expr}
use onejit.Compiler.Statements.{
  compile_stmt1, compile_stmt2, compile_jump_if, to_places, compile_call, compile_assign_call,
  same_var, are_results, count, compile_results, compile_return,
}
use onejit.Compiler.Jumps.{NoLabel, NoLabels, either-IsStep, add_assign-IsStep, assign-LeadsTo}
use onejit.Compiler.Operands.{to_place-calm, assign-IsStep, jump_if-IsStep}
use onejit.Compiler.Steps.{compile_expr-IsCalm, args-IsStep}
use onejit.Compiler.Enclose.{error-IsStep}
use onejit.Compiler.Ledger.{IsStep, IsStep-refl, IsStep-trans, IsStep-add, IsMade, IsMade-grow}

NoLabel-IsMade : (e : Expr) (n : ℕ) → NoLabel e → IsMade n e
unfolding NoLabel
NoLabel-IsMade (Expr.label l) n h = absurd h
NoLabel-IsMade e n h = tt

pub NoLabels-AreMade : (xs : Exprs) (n : ℕ) → NoLabels xs → AreTargets (λ l. l < n) xs
unfolding NoLabel
NoLabels-AreMade nil n h = tt
NoLabels-AreMade (cons x xs) n h = (NoLabel-IsMade x n h.0, NoLabels-AreMade xs n h.1)

pub stmt_n-LeadsTo :
    (op : OpStmtN) (xs : Exprs) (n : ℕ) → NoLabels xs → LeadsTo (λ l. l < n) (Node.stmt_n op xs)
stmt_n-LeadsTo OpStmtN.set_op xs n h = tt
stmt_n-LeadsTo op xs n h = NoLabels-AreMade xs n h

pub compile_stmt1-IsStep :
    (fpu : Fpu) (op : OpStmt1) (e : Expr) (s : State)
    → NoLabel e
    → IsStep s (compile_stmt1 fpu op e s)
unfolding compile_stmt1
compile_stmt1-IsStep fpu op e s h =
    let c = compile_expr fpu e s in
    let (step, plain) = compile_expr-IsCalm fpu e s h in
    IsStep-trans step
      (IsStep-add (Node.stmt1 op c.0) c.2 (NoLabel-IsMade c.0 c.2.label_n plain) (λ l. refl))

pub compile_stmt2-IsStep :
    (fpu : Fpu) (op : OpStmt2) (dst src : Expr) (s : State)
    → OpStmt.is_assign op ≡ true
    → NoLabel dst
    → NoLabel src
    → IsStep s (compile_stmt2 fpu op dst src s)
unfolding compile_stmt2
compile_stmt2-IsStep fpu op dst src s h n m =
    either-IsStep (OpStmt.is_assign op) (assign (compile_expr fpu) op dst src s)
      (add (Node.stmt2 op dst src) s)
      (assign-IsStep (compile_expr fpu) (compile_expr-IsCalm fpu) op dst src s h n m)
      (IsStep-add (Node.stmt2 op dst src) s (assign-LeadsTo op dst src s.label_n h) (λ l. refl))

pub compile_jump_if-IsStep :
    (fpu : Fpu) (to test : Expr) (s : State)
    → IsMade s.label_n to
    → NoLabel test
    → IsStep s (compile_jump_if fpu to test s)
unfolding compile_jump_if
compile_jump_if-IsStep fpu to test s made h =
    let c = compile_expr fpu test s in
    let (step, plain) = compile_expr-IsCalm fpu test s h in
    IsStep-trans step
      (jump_if-IsStep fpu to c (IsMade-grow s.label_n c.2.label_n to step.grown made))

to_places-IsStep :
    (fpu : Fpu) (xs : Exprs) (s : State) → NoLabels xs → IsStep s (to_places fpu xs s).1
unfolding to_places NoLabel
to_places-IsStep fpu nil s h = IsStep-refl s
to_places-IsStep fpu (cons x xs) s h =
    let p = to_place (compile_expr fpu) x s in
    IsStep-trans (to_place-calm (compile_expr fpu) (compile_expr-IsCalm fpu) x s h.0).0
      (to_places-IsStep fpu xs p.1 h.1)

compile_call-IsStep :
    (fpu : Fpu) (e : Expr) (s : State) → NoLabel e → IsStep s (compile_call fpu e s).2
unfolding compile_call NoLabel
compile_call-IsStep fpu (Expr.call k t a xs) s h = elim (Bool-cases (are_vars xs)) [
  | inl vars ↦ rw vars (IsStep-refl s)
  | inr other ↦ rw other (args-IsStep fpu (compile_expr fpu) (compile_expr-IsCalm fpu) xs s h)
]
compile_call-IsStep fpu e s h = IsStep-refl s

pub compile_assign_call-IsStep :
    (fpu : Fpu) (places : Exprs) (e : Expr) (s : State)
    → NoLabels places
    → NoLabel e
    → IsStep s (compile_assign_call fpu places e s)
unfolding compile_assign_call
compile_assign_call-IsStep fpu places e s h n =
    let c = compile_call fpu e s in
    let p = to_places fpu places c.2 in
    let first = compile_call-IsStep fpu e s n in
    either-IsStep (c.0 && are_vars places) (add (Node.assign_call places e) c.2)
      (add (Node.assign_call p.0 c.1) p.1)
      (IsStep-trans first (IsStep-add (Node.assign_call places e) c.2 tt (λ l. refl)))
      (IsStep-trans (IsStep-trans first (to_places-IsStep fpu places c.2 h))
        (IsStep-add (Node.assign_call p.0 c.1) p.1 tt (λ l. refl)))

add_return-IsStep : (xs : Exprs) (s : State) → IsStep s (add (Node.return_of xs) s)
add_return-IsStep xs s = IsStep-add (Node.return_of xs) s tt (λ l. refl)

compile_results-IsStep :
    (fpu : Fpu) (st : Node) (xs vs : Exprs) (s : State)
    → NoLabels xs
    → IsStep s (compile_results fpu st xs vs s)
unfolding compile_results NoLabel
compile_results-IsStep fpu st nil vs s h = IsStep-refl s
compile_results-IsStep fpu st (cons x xs) nil s h = IsStep-refl s
compile_results-IsStep fpu st (cons x xs) (cons v vs) s h =
    let s1 =
      if Kind.same (kind_of v) (kind_of x) then s else error st Message.wrong_kind_of_result s in
    let c = compile_expr fpu x s1 in
    let first =
      either-IsStep (Kind.same (kind_of v) (kind_of x)) s (error st Message.wrong_kind_of_result s)
        (IsStep-refl s) (error-IsStep st Message.wrong_kind_of_result s) in
    let copied =
      IsStep-trans first
        (IsStep-trans (compile_expr-IsCalm fpu x s1 h.0).0 (add_assign-IsStep v c.0 c.2)) in
    IsStep-trans (either-IsStep (same_var x v) s1 (add_assign v c.0 c.2) first copied)
      (compile_results-IsStep fpu st xs vs (if same_var x v then s1 else add_assign v c.0 c.2) h.1)

pub compile_return-IsStep :
    (fpu : Fpu) (results xs : Exprs) (s : State)
    → NoLabels xs
    → IsStep s (compile_return fpu results xs s)
unfolding compile_return
compile_return-IsStep fpu results xs s h =
    let st = Node.return_of xs in
    let wrong = error st Message.wrong_number_of_results s in
    let copied = compile_results fpu st xs results s in
    either-IsStep (not (count xs == count results)) (add st wrong)
      (if are_results xs results then add st s else add (Node.return_of results) copied)
      (IsStep-trans (error-IsStep st Message.wrong_number_of_results s)
        (add_return-IsStep xs wrong))
      (either-IsStep (are_results xs results) (add st s) (add (Node.return_of results) copied)
        (add_return-IsStep xs s)
        (IsStep-trans (compile_results-IsStep fpu st xs results s h)
          (add_return-IsStep results copied)))
