-- ===== src/Compiler/Enclose.antt =====
-- The steps that stand inside loops and cases, with the stacks of their labels.
use onejit.Base.{ℕ, List, [], ◌∷◌, refl, ap, ◌∙◌, arith}
use onejit.OpStmt.{OpStmt0}
use onejit.Ir
use onejit.Ir.{Expr, Node, is_valid}
use onejit.Compiler.{
  State, Message, top, pop, add, error, goto, label_break, label_continue, label_fallthrough,
  enter_case, exit_case, enter_loop, exit_loop,
}
use onejit.Compiler.Statements.{goto_or_error, compile_stmt0}
use onejit.Compiler.Jumps.{either-IsStep}
use onejit.Compiler.Ledger.{IsRun, IsStep, IsStep-refl, IsMade, AreMade, IsWithin, IsRun-add}

pub error-IsStep : (n : Node) (m : Message) (s : State) → IsStep s (error n m s)
unfolding error
error-IsStep n m s = record {
  grown = omega arith;
  balanced = λ l. omega arith;
  breaks = refl;
  continues = refl;
  fallthroughs = refl;
  within = λ h. record {
    targets = h.targets;
    breaks = h.breaks;
    continues = h.continues;
    fallthroughs = h.fallthroughs;
  };
}

top-IsMade : (n : ℕ) (es : List Expr) → AreMade n es → IsMade n (top es)
top-IsMade n [] h = tt
top-IsMade n (e ∷ es) h = h.0

pop-AreMade : (n : ℕ) (es : List Expr) → AreMade n es → AreMade n (pop es)
pop-AreMade n [] h = tt
pop-AreMade n (e ∷ es) h = h.1

goto_or_error-IsStep :
    (to : Expr) (n : Node) (m : Message) (s : State)
    → (IsWithin s → IsMade s.label_n to)
    → IsStep s (goto_or_error to n m s)
unfolding goto
goto_or_error-IsStep to n m s h =
    either-IsStep (is_valid to) (add (Node.stmt1 Ir.goto_op to) s) (error n m s)
      (IsRun-add (λ l. 0) (λ l. 0) (Node.stmt1 Ir.goto_op to) h (λ l. refl) (IsStep-refl s))
      (error-IsStep n m s)

pub compile_stmt0-IsStep : (op : OpStmt0) (s : State) → IsStep s (compile_stmt0 op s)
unfolding compile_stmt0 label_break label_continue label_fallthrough
compile_stmt0-IsStep OpStmt0.break s =
    goto_or_error-IsStep (top s.breaks) (Node.stmt0 OpStmt0.break) Message.misplaced_break s
      (λ w. top-IsMade s.label_n s.breaks w.breaks)
compile_stmt0-IsStep OpStmt0.continue s =
    goto_or_error-IsStep (top s.continues) (Node.stmt0 OpStmt0.continue) Message.misplaced_continue
      s (λ w. top-IsMade s.label_n s.continues w.continues)
compile_stmt0-IsStep OpStmt0.fallthrough s =
    goto_or_error-IsStep (top s.fallthroughs) (Node.stmt0 OpStmt0.fallthrough)
      Message.misplaced_fallthrough s (λ w. top-IsMade s.label_n s.fallthroughs w.fallthroughs)
compile_stmt0-IsStep op s = error-IsStep (Node.stmt0 op) Message.bad_stmt0 s

-- What a loop encloses
pub IsRun-loop :
    (debt : ℕ → ℕ) (l_break l_continue : Expr) {s t u : State}
    → IsRun debt s t
    → IsMade t.label_n l_break
    → IsMade t.label_n l_continue
    → IsStep (enter_loop l_break l_continue t) u
    → IsRun debt s (exit_loop u)
unfolding enter_loop exit_loop
IsRun-loop debt l_break l_continue {s} {t} {u} a made_break made_continue b = record {
  grown = omega (arith, a.grown, b.grown);
  balanced = λ l. omega (arith, a.balanced l, b.balanced l);
  breaks = ap pop b.breaks ∙ a.breaks;
  continues = ap pop b.continues ∙ a.continues;
  fallthroughs = b.fallthroughs ∙ a.fallthroughs;
  within = λ h.
      let w = a.within h in
      let v = b.within (record {
        targets = w.targets;
        breaks = (made_break, w.breaks);
        continues = (made_continue, w.continues);
        fallthroughs = w.fallthroughs;
      }) in
      record {
        targets = v.targets;
        breaks = pop-AreMade u.label_n u.breaks v.breaks;
        continues = pop-AreMade u.label_n u.continues v.continues;
        fallthroughs = v.fallthroughs;
      };
}

-- What a case encloses
pub IsRun-case :
    (debt : ℕ → ℕ) (l_break l_fallthrough : Expr) {s t u : State}
    → IsRun debt s t
    → IsMade t.label_n l_break
    → IsMade t.label_n l_fallthrough
    → IsStep (enter_case l_break l_fallthrough t) u
    → IsRun debt s (exit_case u)
unfolding enter_case exit_case
IsRun-case debt l_break l_fallthrough {s} {t} {u} a made_break made_fallthrough b = record {
  grown = omega (arith, a.grown, b.grown);
  balanced = λ l. omega (arith, a.balanced l, b.balanced l);
  breaks = ap pop b.breaks ∙ a.breaks;
  continues = b.continues ∙ a.continues;
  fallthroughs = ap pop b.fallthroughs ∙ a.fallthroughs;
  within = λ h.
      let w = a.within h in
      let v = b.within (record {
        targets = w.targets;
        breaks = (made_break, w.breaks);
        continues = w.continues;
        fallthroughs = (made_fallthrough, w.fallthroughs);
      }) in
      record {
        targets = v.targets;
        breaks = pop-AreMade u.label_n u.breaks v.breaks;
        continues = v.continues;
        fallthroughs = pop-AreMade u.label_n u.fallthroughs v.fallthroughs;
      };
}
