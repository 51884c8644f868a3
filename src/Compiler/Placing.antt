-- ===== src/Compiler/Placing.antt =====
-- The steps of all structured statements, which `compile(Node)` of onejit/compiler.cpp takes.
use onejit.Base.{◌+◌, Bool, true, false, ◌≡◌, refl, arith, Bool-cases, inl, inr}
use onejit.OpStmt
use onejit.Float.{Fpu}
use onejit.Ir.{Expr, Exprs, Node, Nodes}
use onejit.Compiler.{State, Message, add, error, new_label}
use onejit.Compiler.Statements.{check_cases}
use onejit.Compiler.Structured.{
  Part, Labels, have_else, have_two, as_expr, is_none, is_even, add_result, cond_or_error,
  compile_node, compile_block, compile_cond, compile_cases, default_entry, case_entry, void,
}
use onejit.Compiler.Jumps.{NoLabel, NoLabels}
use onejit.Compiler.Steps.{compile_expr-IsCalm, expr-IsStep}
use onejit.Compiler.Simple.{
  compile_stmt1-IsStep, compile_stmt2-IsStep, compile_assign_call-IsStep, compile_return-IsStep,
  stmt_n-LeadsTo,
}
use onejit.Compiler.Enclose.{error-IsStep, compile_stmt0-IsStep}
use onejit.Compiler.Nested.{compile_if-IsStep, compile_for-IsStep}
use onejit.Compiler.Cases.{Pays, last_cond-Pays, next_cond-Pays, IsReady, owed, case_entry-Enters}
use onejit.Compiler.Switches.{
  default_entry-Enters, last_case-IsRun, next_case-IsRun, compile_switch-IsStep,
}
use onejit.Compiler.Ledger.{
  IsRun, IsStep, IsStep-refl, IsStep-trans, IsStep-add, IsRun-debt, IsRun-new, new_label-IsMade, at,
}

-- Statements in which control moves by If, For, Cond, Switch, Break, Continue, Fallthrough and
-- Return: there are no labels and no other jumps.
unfoldable mutual
  pub IsStructured : Node → Type 0
  IsStructured (Node.expr e) = NoLabel e
  IsStructured (Node.stmt0 op) = Unit {0}
  IsStructured (Node.stmt1 op e) = NoLabel e
  IsStructured (Node.stmt2 op dst src) = (OpStmt.is_assign op ≡ true) × NoLabel dst × NoLabel src
  IsStructured (Node.case_of e body) = Unit {0}
  IsStructured (Node.default_of body) = Unit {0}
  IsStructured (Node.jump_if to test) = ⊥
  IsStructured (Node.stmt3 op to x y) = ⊥
  IsStructured (Node.if_else test then_ else_) =
      NoLabel test × IsStructured then_ × IsStructured else_
  IsStructured (Node.for_loop init test post body) =
      NoLabel test × IsStructured init × IsStructured post × IsStructured body
  IsStructured (Node.assign_call places e) = NoLabels places × NoLabel e
  IsStructured (Node.block ns) = AreStructured ns
  IsStructured (Node.cond ns) = AreConds ns
  IsStructured (Node.return_of xs) = NoLabels xs
  IsStructured (Node.switch e cases) = NoLabel e × AreCases cases
  IsStructured (Node.stmt_n op xs) = NoLabels xs

  pub AreStructured : Nodes → Type 0
  AreStructured Nodes.none = Unit {0}
  AreStructured (Nodes.some n ns) = IsStructured n × AreStructured ns

  -- Tests and bodies in turn
  pub AreConds : Nodes → Type 0
  AreConds (Nodes.some test (Nodes.some body ns)) =
      NoLabel (as_expr test) × IsStructured body × AreConds ns
  AreConds ns = Unit {0}

  pub AreCases : Nodes → Type 0
  AreCases Nodes.none = Unit {0}
  AreCases (Nodes.some (Node.case_of e body) ns) = NoLabel e × IsStructured body × AreCases ns
  AreCases (Nodes.some (Node.default_of body) ns) = IsStructured body × AreCases ns
  AreCases (Nodes.some n ns) = ⊥

-- What `compile` answers: an expression without labels, which `add` can add
pub IsPlainNode : Node → Type 0
IsPlainNode (Node.expr e) = NoLabel e
IsPlainNode n = ⊥

abbrev pub NodeCalm : State → Node × State → Type 0
NodeCalm s c = IsStep s c.1 × IsPlainNode c.0

pub add_result-IsStep : (s : State) (c : Node × State) → NodeCalm s c → IsStep s (add_result c)
unfolding IsPlainNode
add_result-IsStep s (Node.expr e, t) h = IsStep-trans h.0 (expr-IsStep e t h.1)
add_result-IsStep s (n, t) h = absurd h.1

void-calm : (s t : State) → IsStep s t → NodeCalm s (void, t)
unfolding IsPlainNode NoLabel
void-calm s t h = (h, tt)

-- A raw statement that is no jump
case-IsStep :
    (e : Expr) (body : Node) (m : Message) (s : State)
    → IsStep s (add (Node.case_of e body) (error (Node.case_of e body) m s))
case-IsStep e body m s =
    IsStep-trans (error-IsStep (Node.case_of e body) m s)
      (IsStep-add (Node.case_of e body) (error (Node.case_of e body) m s) tt (λ l. refl))

default-IsStep :
    (body : Node) (m : Message) (s : State)
    → IsStep s (add (Node.default_of body) (error (Node.default_of body) m s))
default-IsStep body m s =
    IsStep-trans (error-IsStep (Node.default_of body) m s)
      (IsStep-add (Node.default_of body) (error (Node.default_of body) m s) tt (λ l. refl))

odd-IsStep :
    (ns : Nodes) (m : Message) (s : State)
    → IsStep s (add (Node.cond ns) (error (Node.cond ns) m s))
odd-IsStep ns m s =
    IsStep-trans (error-IsStep (Node.cond ns) m s)
      (IsStep-add (Node.cond ns) (error (Node.cond ns) m s) tt (λ l. refl))

cond_or_error-IsStep :
    (ns : Nodes) (conds : Expr → Bool → Part) (s : State)
    → ((l : Expr) (many : Bool) → is_none ns ≡ false → is_even ns ≡ true → Pays l (conds l many))
    → IsStep s (cond_or_error ns conds s)
cond_or_error-IsStep ns conds s pays = elim (Bool-cases (is_none ns)) [
  | inl empty ↦ rw empty (IsStep-refl s)
  | inr more ↦ elim (Bool-cases (is_even ns)) [
    | inl even ↦
        rw (more, even)
          (pays (new_label s).0 (have_two ns) more even s (new_label s).1
            (IsRun-debt (λ n. 0 + at n (new_label s).0) (λ n. at n (new_label s).0)
              (λ n. omega arith) (IsRun-new (λ n. 0) (IsStep-refl s)))
            (new_label-IsMade s))
    | inr odd ↦ rw (more, odd) (odd-IsStep ns Message.odd_cond s)
  ]
]

module _ (fpu : Fpu) (results : Exprs) where
  mutual
    unfolding compile_node compile_block compile_cond compile_cases IsStructured IsPlainNode

    pub node-calm :
        (n : Node) (s : State) → IsStructured n → NodeCalm s (compile_node fpu results n s)
    node-calm (Node.expr e) s h = compile_expr-IsCalm fpu e s h
    node-calm (Node.stmt0 op) s h = void-calm s _ (compile_stmt0-IsStep op s)
    node-calm (Node.stmt1 op e) s h = void-calm s _ (compile_stmt1-IsStep fpu op e s h)
    node-calm (Node.stmt2 op dst src) s h =
        void-calm s _ (compile_stmt2-IsStep fpu op dst src s h.0 h.1 h.2)
    node-calm (Node.case_of e body) s h =
        void-calm s _ (case-IsStep e body Message.misplaced_case s)
    node-calm (Node.default_of body) s h =
        void-calm s _ (default-IsStep body Message.misplaced_default s)
    node-calm (Node.jump_if to test) s h = absurd h
    node-calm (Node.stmt3 op to x y) s h = absurd h
    node-calm (Node.if_else test then_ else_) s h = void-calm s _ (
        compile_if-IsStep fpu test (have_else else_)
          (λ (r : State). add_result (compile_node fpu results then_ r))
          (λ (r : State). add_result (compile_node fpu results else_ r)) s h.0
          (λ r. add_result-IsStep r (compile_node fpu results then_ r) (node-calm then_ r h.1))
          (λ r. add_result-IsStep r (compile_node fpu results else_ r) (node-calm else_ r h.2)))
    node-calm (Node.for_loop init test post body) s h = void-calm s _ (
        compile_for-IsStep fpu test (λ (r : State). add_result (compile_node fpu results init r))
          (λ (r : State). add_result (compile_node fpu results body r))
          (λ (r : State). add_result (compile_node fpu results post r)) s h.0
          (λ r. add_result-IsStep r (compile_node fpu results init r) (node-calm init r h.1))
          (λ r. add_result-IsStep r (compile_node fpu results body r) (node-calm body r h.3))
          (λ r. add_result-IsStep r (compile_node fpu results post r) (node-calm post r h.2)))
    node-calm (Node.assign_call places e) s h =
        void-calm s _ (compile_assign_call-IsStep fpu places e s h.0 h.1)
    node-calm (Node.block ns) s h = void-calm s _ (block-IsStep ns s h)
    node-calm (Node.cond ns) s h = void-calm s _ (
        cond_or_error-IsStep ns (λ l many r. compile_cond fpu results l many ns r) s
          (λ l many more even. cond-Pays l many ns h more even))
    node-calm (Node.return_of xs) s h = void-calm s _ (compile_return-IsStep fpu results xs s h)
    node-calm (Node.switch e Nodes.none) s h = void-calm s _ (
        compile_switch-IsStep fpu e (check_cases Nodes.none false)
          (λ subject ls r. compile_cases fpu results subject Nodes.none ls r) s h.0
          (λ subject ls r t plain ready run none_this none_fallthrough.
            IsRun-debt (owed ls) (λ n. at n ls.break_label)
              (λ n. rw (none_this, none_fallthrough) (omega arith)) run))
    node-calm (Node.switch e (Nodes.some n ns)) s h = void-calm s _ (
        compile_switch-IsStep fpu e (check_cases (Nodes.some n ns) false)
          (λ subject ls r. compile_cases fpu results subject (Nodes.some n ns) ls r) s h.0
          (λ subject ls r t plain ready run none_this none_fallthrough.
            cases-IsRun subject (Nodes.some n ns) ls r t h.1 refl plain ready run))
    node-calm (Node.stmt_n op xs) s h =
        void-calm s _
          (IsStep-add (Node.stmt_n op xs) s (stmt_n-LeadsTo op xs s.label_n h) (λ l. refl))

    block-IsStep :
        (ns : Nodes) (s : State) → AreStructured ns → IsStep s (compile_block fpu results ns s)
    block-IsStep Nodes.none s h = IsStep-refl s
    block-IsStep (Nodes.some n ns) s h =
        IsStep-trans (node-calm n s h.0).0 (block-IsStep ns (compile_node fpu results n s).1 h.1)

    cond-Pays :
        (l : Expr) (many : Bool) (ns : Nodes)
        → AreConds ns
        → is_none ns ≡ false
        → is_even ns ≡ true
        → Pays l (λ (r : State). compile_cond fpu results l many ns r)
    cond-Pays l many Nodes.none h more even = cc
    cond-Pays l many (Nodes.some test Nodes.none) h more even = cc
    cond-Pays l many (Nodes.some test (Nodes.some body Nodes.none)) h more even =
        last_cond-Pays fpu many l (as_expr test)
          (λ (r : State). add_result (compile_node fpu results body r))
          (λ (r : State). compile_cond fpu results l many Nodes.none r) h.0
          (λ r. add_result-IsStep r (compile_node fpu results body r) (node-calm body r h.1))
          (λ r. IsStep-refl r)
    cond-Pays l many (Nodes.some test (Nodes.some body (Nodes.some n ns))) h more even =
        next_cond-Pays fpu many l (as_expr test)
          (λ (r : State). add_result (compile_node fpu results body r))
          (λ (r : State). compile_cond fpu results l many (Nodes.some n ns) r) h.0
          (λ r. add_result-IsStep r (compile_node fpu results body r) (node-calm body r h.1))
          (cond-Pays l many (Nodes.some n ns) h.2 refl even)

    cases-IsRun :
        (subject : Expr) (cases : Nodes) (ls : Labels) (r t : State)
        → AreCases cases
        → is_none cases ≡ false
        → NoLabel subject
        → IsReady ls t
        → IsRun (owed ls) r t
        → IsRun (λ n. at n ls.break_label) r (compile_cases fpu results subject cases ls t)
    cases-IsRun subject Nodes.none ls r t h more plain ready run = cc
    cases-IsRun subject (Nodes.some (Node.case_of e body) Nodes.none) ls r t h more plain ready
          run =
        last_case-IsRun ls (λ l_next kept q. (kept, case_entry fpu subject e l_next q))
          (λ (q : State). add_result (compile_node fpu results body q))
          (case_entry-Enters fpu subject e ls plain h.0)
          (λ q. add_result-IsStep q (compile_node fpu results body q) (node-calm body q h.1))
          (λ next q. compile_cases fpu results subject Nodes.none next q) r t
          (λ next q. IsStep-refl q) ready run
    cases-IsRun subject (Nodes.some (Node.case_of e body) (Nodes.some n ns)) ls r t h more plain
          ready run =
        next_case-IsRun ls (λ l_next kept q. (kept, case_entry fpu subject e l_next q))
          (λ (q : State). add_result (compile_node fpu results body q))
          (case_entry-Enters fpu subject e ls plain h.0)
          (λ q. add_result-IsStep q (compile_node fpu results body q) (node-calm body q h.1))
          (λ next q. compile_cases fpu results subject (Nodes.some n ns) next q) r t
          (λ next q ready1 run1.
            cases-IsRun subject (Nodes.some n ns) next r q h.2 refl plain ready1 run1)
          ready run
    cases-IsRun subject (Nodes.some (Node.default_of body) Nodes.none) ls r t h more plain ready
          run =
        last_case-IsRun ls (λ l_next kept q. default_entry true kept l_next q)
          (λ (q : State). add_result (compile_node fpu results body q))
          (default_entry-Enters true ls)
          (λ q. add_result-IsStep q (compile_node fpu results body q) (node-calm body q h.0))
          (λ next q. compile_cases fpu results subject Nodes.none next q) r t
          (λ next q. IsStep-refl q) ready run
    cases-IsRun subject (Nodes.some (Node.default_of body) (Nodes.some n ns)) ls r t h more plain
          ready run =
        next_case-IsRun ls (λ l_next kept q. default_entry false kept l_next q)
          (λ (q : State). add_result (compile_node fpu results body q))
          (default_entry-Enters false ls)
          (λ q. add_result-IsStep q (compile_node fpu results body q) (node-calm body q h.0))
          (λ next q. compile_cases fpu results subject (Nodes.some n ns) next q) r t
          (λ next q ready1 run1.
            cases-IsRun subject (Nodes.some n ns) next r q h.1 refl plain ready1 run1)
          ready run
    cases-IsRun subject (Nodes.some n ns) ls r t h more plain ready run = absurd h
