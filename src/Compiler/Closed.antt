-- ===== src/Compiler/Closed.antt =====
-- `Compiler::compile` of onejit/compiler.cpp on a structured body: the labels, the jumps, the flow
-- graph and the end of what it makes.
use onejit.Base.{
  ℕ, ◌<◌, ◌==◌, ltb, ◌||◌, true, if◌then◌else◌, List, [], ◌∷◌, ◌++◌, ◌≡◌, refl, ◌∙◌, arith,
  Bool-cases, inl, inr,
}
use onejit.OpStmt.{OpStmtN}
use onejit.Float.{Fpu}
use onejit.Ir
use onejit.Ir.{Expr, Exprs, Node}
use onejit.Ir.Placed.{count_label, AllLead, AllLead-map, AllLead-AllTargets}
use onejit.FlowGraph.{FlowGraph, linked, build}
use onejit.FlowGraph.Closed.{build-total}
use onejit.Compiler.{State, add}
use onejit.Compiler.Statements.{count}
use onejit.Compiler.Structured.{compile_add, compile_node}
use onejit.Compiler.Whole.{Func, start, add_prologue, add_epilogue, ends_in_return, compile_func}
use onejit.Compiler.Jumps.{either-IsStep}
use onejit.Compiler.Placing.{IsStructured, node-calm, add_result-IsStep}
use onejit.Compiler.Ledger.{IsStep, IsStep-refl, IsWithin, IsStep-trans, IsStep-add, below}

-- Compiling a structured statement places each label that it makes exactly once and no other
-- label, leaves the stacks of Break, Continue and Fallthrough as they were, and, if every label to
-- which a statement can jump, by any operator, and every label on the stacks is one that was made,
-- keeps it so; statements inside a misplaced Case or Default or an odd Cond are not looked into.
pub compile_add-IsStep :
    (fpu : Fpu) (results : Exprs) (n : Node) (s : State)
    → IsStructured n
    → IsStep s (compile_add fpu results n s)
unfolding compile_add
compile_add-IsStep fpu results n s h =
    add_result-IsStep s (compile_node fpu results n s) (node-calm fpu results n s h)

-- The state with the label of the function, before its parameters
first_state : Func → State
first_state f = add (Node.expr (Expr.label 0)) (start f)

prologue-IsStep : (f : Func) → IsStep (first_state f) (add_prologue f (start f))
unfolding add_prologue first_state
prologue-IsStep f =
    let s1 = add (Node.expr (Expr.label 0)) (start f) in
    either-IsStep (count f.params == 0 || ltb f.var_n (count f.params)) s1
      (add (Node.stmt_n OpStmtN.set_op f.params) s1) (IsStep-refl s1)
      (IsStep-add (Node.stmt_n OpStmtN.set_op f.params) s1 tt (λ l. refl))

epilogue-IsStep : (f : Func) (s : State) → IsStep s (add_epilogue f s)
unfolding add_epilogue
epilogue-IsStep f s =
    either-IsStep (ends_in_return s.nodes) s (add (Node.return_of f.results) s) (IsStep-refl s)
      (IsStep-add (Node.return_of f.results) s tt (λ l. refl))

whole-IsStep :
    (fpu : Fpu) (f : Func) (body : Node)
    → IsStructured body
    → IsStep (first_state f) (compile_func fpu f body)
unfolding compile_func
whole-IsStep fpu f body h =
    let s1 = add_prologue f (start f) in
    IsStep-trans (prologue-IsStep f) (
      IsStep-trans (compile_add-IsStep fpu f.results body s1 h)
        (epilogue-IsStep f (compile_add fpu f.results body s1)))

first_count :
    (f : Func) (l : ℕ)
    → f.label_n ≡ 1
    → count_label l (first_state f).nodes ≡ below l (first_state f).label_n
unfolding first_state start add count_label Ir.is_void
first_count f l one = rw one (ground arith)

first-IsWithin : (f : Func) → IsWithin (first_state f)
unfolding first_state start add Ir.is_void
first-IsWithin f = record { targets = (tt, tt); breaks = tt; continues = tt; fallthroughs = tt }

first-breaks : (f : Func) → (first_state f).breaks ≡ []
unfolding first_state start add Ir.is_void
first-breaks f = refl

first-continues : (f : Func) → (first_state f).continues ≡ []
unfolding first_state start add Ir.is_void
first-continues f = refl

first-fallthroughs : (f : Func) → (first_state f).fallthroughs ≡ []
unfolding first_state start add Ir.is_void
first-fallthroughs f = refl

made-placed : (l n c : ℕ) → c ≡ below l n → l < n → 0 < c
made-placed l n c h k = ground arith

-- Every label that was made is placed once and no other label is, every label to which a node can
-- jump is placed, and the stacks of Break, Continue and Fallthrough are empty.
pub record IsComplete (t : State) : Type 0 where
  pub placed : (l : ℕ) → count_label l t.nodes ≡ (if ltb l t.label_n then 1 else 0)
  pub closed : AllLead (λ l. 0 < count_label l t.nodes) t.nodes
  pub no_breaks : t.breaks ≡ []
  pub no_continues : t.continues ≡ []
  pub no_fallthroughs : t.fallthroughs ≡ []

-- For a function whose only label is its address and a structured body: in the compiled nodes each
-- label that was made, the address included, is placed exactly once and no other label is placed,
-- and the stacks of Break, Continue and Fallthrough are empty. Every label to which a compiled
-- statement can jump, by any operator, is placed; statements inside a misplaced Case or Default or
-- an odd Cond, which are kept as they are with an error, are not looked into.
pub compile_func-IsComplete :
    (fpu : Fpu) (f : Func) (body : Node)
    → f.label_n ≡ 1
    → IsStructured body
    → IsComplete (compile_func fpu f body)
compile_func-IsComplete fpu f body one h =
    let t = compile_func fpu f body in
    let step = whole-IsStep fpu f body h in
    let counts = λ (l : ℕ).
      (let c : count_label l t.nodes ≡ below l t.label_n =
          omega (arith, step.balanced l, first_count f l one) in
        c) in
    let within = step.within (first-IsWithin f) in
    record {
      placed = counts;
      closed =
          AllLead-map (λ l. l < t.label_n) (λ l. 0 < count_label l t.nodes) t.nodes
            (λ l made. made-placed l t.label_n (count_label l t.nodes) (counts l) made)
            within.targets;
      no_breaks = step.breaks ∙ first-breaks f;
      no_continues = step.continues ∙ first-continues f;
      no_fallthroughs = step.fallthroughs ∙ first-fallthroughs f;
    }

-- For a function whose only label is its address and a structured body, the flow graph of the
-- compiled nodes is built without an error.
pub compile_func-build :
    (fpu : Fpu) (f : Func) (body : Node)
    → f.label_n ≡ 1
    → IsStructured body
    → (g : FlowGraph) × (build (compile_func fpu f body).nodes ≡ linked g)
compile_func-build fpu f body one h =
    let ns = (compile_func fpu f body).nodes in
    build-total ns (
      AllLead-AllTargets (λ l. 0 < count_label l ns) ns
        (compile_func-IsComplete fpu f body one h).closed)

ends-snoc : (ns : List Node) (xs : Exprs) → ends_in_return (ns ++ Node.return_of xs ∷ []) ≡ true
unfolding ends_in_return Ir.is_return
ends-snoc [] xs = refl
ends-snoc (n ∷ []) xs = refl
ends-snoc (n ∷ m ∷ ns) xs = ends-snoc (m ∷ ns) xs

added_return : (xs : Exprs) (s : State) → ends_in_return (add (Node.return_of xs) s).nodes ≡ true
unfolding add
added_return xs s = ends-snoc s.nodes xs

-- Whatever the body, the compiled nodes end with a return.
pub compile_func-ends_in_return :
    (fpu : Fpu) (f : Func) (body : Node) → ends_in_return (compile_func fpu f body).nodes ≡ true
unfolding compile_func add_epilogue
compile_func-ends_in_return fpu f body =
    let s = compile_add fpu f.results body (add_prologue f (start f)) in
    elim (Bool-cases (ends_in_return s.nodes)) [
      | inl ends ↦ rw ends ends
      | inr open_end ↦ rw open_end (added_return f.results s)
    ]
