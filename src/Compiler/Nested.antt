-- ===== src/Compiler/Nested.antt =====
-- The steps of If and For, given those of their parts.
use onejit.Base.{ℕ, leb, ◌+◌, ◌&&◌, Bool, true, false, not, ◌≡◌, refl, arith, Bool-cases, inl, inr}
use onejit.Op.{Op1}
use onejit.Float.{Fpu}
use onejit.Value.Operators.{truth}
use onejit.Ir
use onejit.Ir.{Expr, Node, make_unary, is_constant}
use onejit.Compiler.{State, add, goto, new_label, enter_loop, exit_loop}
use onejit.Compiler.Expressions.{compile_expr, rounds, compile_round}
use onejit.Compiler.Statements.{compile_stmt1, compile_jump_if}
use onejit.Compiler.Structured.{
  Part, if_branches, if_test, compile_if, loop, compile_for, constant_test,
}
use onejit.Compiler.Jumps.{NoLabel, either-IsStep}
use onejit.Compiler.Operands.{goto-IsStep}
use onejit.Compiler.Steps.{compile_expr-IsCalm, make_unary-NoLabel}
use onejit.Compiler.Simple.{compile_jump_if-IsStep}
use onejit.Compiler.Enclose.{IsRun-loop}
use onejit.Compiler.Ledger.{
  IsRun, IsStep, IsStep-refl, IsStep-trans, IsRun-step, IsRun-new, IsRun-place, new_label-IsMade,
  IsMade, IsMade-grow, add-IsMade, at,
}

abbrev pub AllSteps : Part → Type 0
AllSteps part = (r : State) → IsStep r (part r)

-- A label that is made stays made.
pub IsMade-step :
    {debt : ℕ → ℕ} {s t : State} (e : Expr)
    → IsRun debt s t
    → IsMade s.label_n e
    → IsMade t.label_n e
IsMade-step {s = s} {t = t} e run made = IsMade-grow s.label_n t.label_n e run.grown made

module _ (fpu : Fpu) (test : Expr) (plain : NoLabel test) where
  not_test-IsStep :
      (to : Expr) (s : State)
      → IsMade s.label_n to
      → IsStep s (compile_jump_if fpu to (make_unary Op1.not1 test) s)
  not_test-IsStep to s made =
      compile_jump_if-IsStep fpu to (make_unary Op1.not1 test) s made
        (make_unary-NoLabel Op1.not1 test plain)

  module _ (then_ else_ : Part) (first : AllSteps then_) (second : AllSteps else_) where
    if_branches-IsStep :
        (has_else : Bool) (s : State) → IsStep s (if_branches fpu test has_else then_ else_ s)
    unfolding if_branches
    if_branches-IsStep true s =
        let (l_else, s1) = new_label s in
        let (l_end, s2) = new_label s1 in
        let jumped = compile_jump_if fpu l_else (make_unary Op1.not1 test) s2 in
        let s3 = then_ jumped in
        let s4 = goto l_end s3 in
        let made1 = new_label-IsMade s in
        let run1 = IsRun-new (λ n. 0) (IsStep-refl s) in
        let run2 = IsRun-new (λ n. 0 + at n l_else) run1 in
        let made2 = new_label-IsMade s1 in
        let made_else = IsMade-step l_else (IsRun-new (λ n. 0) (IsStep-refl s1)) made1 in
        let to_then = IsStep-trans (not_test-IsStep l_else s2 made_else) (first jumped) in
        let to_goto =
          IsStep-trans to_then (goto-IsStep l_end s3 (IsMade-step l_end to_then made2)) in
        let run4 = IsRun-step (λ n. (0 + at n l_else) + at n l_end) run2 to_goto in
        let run5 =
          IsRun-place (λ n. (0 + at n l_else) + at n l_end) (λ n. at n l_end) l_else
            (λ n. omega arith) run4 in
        let run6 = IsRun-step (λ n. at n l_end) run5 (second (add (Node.expr l_else) s4)) in
        IsRun-place (λ n. at n l_end) (λ n. 0) l_end (λ n. omega arith) run6
    if_branches-IsStep false s =
        let (l_end, s1) = new_label s in
        let jumped = compile_jump_if fpu l_end (make_unary Op1.not1 test) s1 in
        let run1 = IsRun-new (λ n. 0) (IsStep-refl s) in
        let to_then = IsStep-trans (not_test-IsStep l_end s1 (new_label-IsMade s)) (first jumped) in
        IsRun-place (λ n. 0 + at n l_end) (λ n. 0) l_end (λ n. refl)
          (IsRun-step (λ n. 0 + at n l_end) run1 to_then)

if_test-IsStep :
    (fpu : Fpu) (test : Expr) (has_else : Bool) (then_ else_ : Part) (s : State)
    → NoLabel test
    → AllSteps then_
    → AllSteps else_
    → IsStep s (if_test fpu test has_else then_ else_ s)
unfolding if_test
if_test-IsStep fpu (Expr.constant v) has_else then_ else_ s plain first second =
    either-IsStep (truth fpu v) (then_ s) (else_ s) (first s) (second s)
if_test-IsStep fpu test has_else then_ else_ s plain first second =
    if_branches-IsStep fpu test plain then_ else_ first second has_else s

pub compile_if-IsStep :
    (fpu : Fpu) (test : Expr) (has_else : Bool) (then_ else_ : Part) (s : State)
    → NoLabel test
    → AllSteps then_
    → AllSteps else_
    → IsStep s (compile_if fpu test has_else then_ else_ s)
unfolding compile_if
compile_if-IsStep fpu test has_else then_ else_ s h first second =
    let c = compile_expr fpu test s in
    let (step, plain) = compile_expr-IsCalm fpu test s h in
    IsStep-trans step (if_test-IsStep fpu c.0 has_else then_ else_ c.2 plain first second)

-- A Goto is compiled as it is.
label-goto :
    (fpu : Fpu) (s r : State)
    → compile_stmt1 fpu Ir.goto_op (new_label s).0 r ≡ goto (new_label s).0 r
unfolding compile_stmt1 goto new_label compile_expr rounds compile_round
label-goto fpu s r = elim (Bool-cases (leb s.label_n 0xFFFF)) [
  | inl room ↦ rw room refl
  | inr full ↦ rw full refl
]

module _ (fpu : Fpu) (test : Expr) (plain : NoLabel test) (body post : Part) (first : AllSteps body)
    (second : AllSteps post) where
  loop-IsStep : (have_test : Bool) (s : State) → IsStep s (loop fpu have_test test body post s)
  unfolding loop
  loop-IsStep true s =
      let (l_loop, s1) = new_label s in
      let (l_continue, s2) = new_label s1 in
      let (l_break, s3) = new_label s2 in
      let run1 = IsRun-new (λ n. 0) (IsStep-refl s) in
      let run2 = IsRun-new (λ n. 0 + at n l_loop) run1 in
      let run3 = IsRun-new (λ n. (0 + at n l_loop) + at n l_continue) run2 in
      let new2 = IsRun-new (λ n. 0) (IsStep-refl s1) in
      let new3 = IsRun-new (λ n. 0) (IsStep-refl s2) in
      let made_loop = IsMade-step l_loop new3 (IsMade-step l_loop new2 (new_label-IsMade s)) in
      let made_continue = IsMade-step l_continue new3 (new_label-IsMade s1) in
      let made_break = new_label-IsMade s2 in
      let entered = goto-IsStep l_continue s3 made_continue in
      let t = goto l_continue s3 in
      let s4 = add (Node.expr l_loop) t in
      let run4 =
        IsRun-place (λ n. ((0 + at n l_loop) + at n l_continue) + at n l_break)
          (λ n. at n l_continue + at n l_break) l_loop (λ n. omega arith)
          (IsRun-step (λ n. ((0 + at n l_loop) + at n l_continue) + at n l_break) run3 entered) in
      let inside = enter_loop l_break l_continue s4 in
      let after = post (body inside) in
      let s5 = exit_loop after in
      let kept = λ (e : Expr) (made : IsMade s3.label_n e).
        add-IsMade (Node.expr l_loop) e t (IsMade-step e entered made) in
      let enclosed =
        IsRun-loop (λ n. 0) l_break l_continue {t = s4} {u = after} (IsStep-refl s4)
          (kept l_break made_break) (kept l_continue made_continue)
          (IsStep-trans (first inside) (second (body inside))) in
      let run6 =
        IsRun-place (λ n. at n l_continue + at n l_break) (λ n. at n l_break) l_continue
          (λ n. omega arith) (IsRun-step (λ n. at n l_continue + at n l_break) run4 enclosed) in
      let jumped =
        compile_jump_if-IsStep fpu l_loop test (add (Node.expr l_continue) s5)
          (add-IsMade (Node.expr l_continue) l_loop s5
            (IsMade-step l_loop enclosed (kept l_loop made_loop)))
          plain in
      IsRun-place (λ n. at n l_break) (λ n. 0) l_break (λ n. omega arith)
        (IsRun-step (λ n. at n l_break) run6 jumped)
  loop-IsStep false s =
      let (l_loop, s1) = new_label s in
      let (l_break, s2) = new_label s1 in
      let run1 = IsRun-new (λ n. 0) (IsStep-refl s) in
      let run2 = IsRun-new (λ n. 0 + at n l_loop) run1 in
      let new2 = IsRun-new (λ n. 0) (IsStep-refl s1) in
      let made_loop = IsMade-step l_loop new2 (new_label-IsMade s) in
      let s4 = add (Node.expr l_loop) s2 in
      let run4 =
        IsRun-place (λ n. (0 + at n l_loop) + at n l_break) (λ n. at n l_break) l_loop
          (λ n. omega arith) run2 in
      let inside = enter_loop l_break l_loop s4 in
      let after = post (body inside) in
      let s5 = exit_loop after in
      let in_loop = add-IsMade (Node.expr l_loop) l_loop s2 made_loop in
      let enclosed =
        IsRun-loop (λ n. 0) l_break l_loop {t = s4} {u = after} (IsStep-refl s4)
          (add-IsMade (Node.expr l_loop) l_break s2 (new_label-IsMade s1)) in_loop
          (IsStep-trans (first inside) (second (body inside))) in
      let back = goto-IsStep l_loop s5 (IsMade-step l_loop enclosed in_loop) in
      rw (label-goto fpu s s5) (
        IsRun-place (λ n. at n l_break) (λ n. 0) l_break (λ n. omega arith)
          (IsRun-step (λ n. at n l_break) run4 (IsStep-trans enclosed back)))

pub compile_for-IsStep :
    (fpu : Fpu) (test : Expr) (init body post : Part) (s : State)
    → NoLabel test
    → AllSteps init
    → AllSteps body
    → AllSteps post
    → IsStep s (compile_for fpu test init body post s)
unfolding compile_for
compile_for-IsStep fpu test init body post s plain start first second =
    let s0 = init s in
    let looped = loop fpu (not (is_constant test)) test body post s0 in
    either-IsStep (is_constant test && constant_test fpu test) s0 looped (start s) (
      IsStep-trans (start s)
        (loop-IsStep fpu test plain body post first second (not (is_constant test)) s0))
