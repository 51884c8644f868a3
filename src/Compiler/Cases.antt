-- ===== src/Compiler/Cases.antt =====
-- The rounds of Cond and Switch: the labels that one round leaves for the next one to place.
use onejit.Base.{
  ℕ, ◌+◌, ◌≤◌, Bool, true, false, if◌then◌else◌, ◌≡◌, refl, arith, Bool-cases, inl, inr,
}
use onejit.Op.{Op1, Op2}
use onejit.Float.{Fpu}
use onejit.Ir.{Expr, Node, make_unary, make_binary, is_valid}
use onejit.Compiler.{State, add, goto, new_label}
use onejit.Compiler.Statements.{compile_jump_if}
use onejit.Compiler.Structured.{Part, Labels, add_if_valid, case_entry, cond_part}
use onejit.Compiler.Jumps.{NoLabel, either-IsStep}
use onejit.Compiler.Operands.{goto-IsStep}
use onejit.Compiler.Steps.{make_unary-NoLabel}
use onejit.Compiler.Simple.{compile_jump_if-IsStep}
use onejit.Compiler.Nested.{AllSteps, IsMade-step}
use onejit.Compiler.Ledger.{
  IsRun, IsStep, IsStep-refl, IsStep-trans, IsRun-step, IsRun-debt, IsRun-new, IsRun-place,
  new_label-IsMade, IsMade, add-IsMade, at,
}

-- What pays a debt of the label
abbrev pub Pays : Expr → Part → Type 0
Pays l part =
    (r t : State) → IsRun (λ n. at n l) r t → IsMade t.label_n l → IsRun (λ n. 0) r (part t)

jump_over-IsStep :
    (fpu : Fpu) (to test : Expr) (body : Part) (s : State)
    → NoLabel test
    → AllSteps body
    → IsMade s.label_n to
    → IsStep s (body (compile_jump_if fpu to (make_unary Op1.not1 test) s))
jump_over-IsStep fpu to test body s plain steps made =
    IsStep-trans
      (compile_jump_if-IsStep fpu to (make_unary Op1.not1 test) s made
        (make_unary-NoLabel Op1.not1 test plain))
      (steps (compile_jump_if fpu to (make_unary Op1.not1 test) s))

pub last_cond-Pays :
    (fpu : Fpu) (many : Bool) (l_end test : Expr) (body rest : Part)
    → NoLabel test
    → AllSteps body
    → AllSteps rest
    → Pays l_end (cond_part fpu true many l_end test body rest)
unfolding cond_part
last_cond-Pays fpu many l_end test body rest plain steps ends r t run made =
    let s3 = body (compile_jump_if fpu l_end (make_unary Op1.not1 test) t) in
    IsRun-step (λ n. 0)
      (IsRun-place (λ n. at n l_end) (λ n. 0) l_end (λ n. omega arith)
        (IsRun-step (λ n. at n l_end) run
          (jump_over-IsStep fpu l_end test body t plain steps made)))
      (ends (add (Node.expr l_end) s3))

pub next_cond-Pays :
    (fpu : Fpu) (many : Bool) (l_end test : Expr) (body rest : Part)
    → NoLabel test
    → AllSteps body
    → Pays l_end rest
    → Pays l_end (cond_part fpu false many l_end test body rest)
unfolding cond_part
next_cond-Pays fpu many l_end test body rest plain steps pays r t run made =
    let (l_next, t1) = new_label t in
    let new = IsRun-new (λ n. 0) (IsStep-refl t) in
    let over = jump_over-IsStep fpu l_next test body t1 plain steps (new_label-IsMade t) in
    let s3 = body (compile_jump_if fpu l_next (make_unary Op1.not1 test) t1) in
    let made3 = IsMade-step l_end over (IsMade-step l_end new made) in
    let out = either-IsStep many (goto l_end s3) s3 (goto-IsStep l_end s3 made3) (IsStep-refl s3) in
    let s4 = if many then goto l_end s3 else s3 in
    let to_next =
      IsRun-step (λ n. at n l_end + at n l_next) (IsRun-new (λ n. at n l_end) run)
        (IsStep-trans over out) in
    pays r (add (Node.expr l_next) s4)
      (IsRun-place (λ n. at n l_end + at n l_next) (λ n. at n l_end) l_next (λ n. refl) to_next)
      (add-IsMade (Node.expr l_next) l_end s4 (IsMade-step l_end out made3))

-- The labels that a Switch keeps are made.
pub record IsReady (ls : Labels) (s : State) : Type 0 where
  pub this : IsMade s.label_n ls.this
  pub this_fallthrough : IsMade s.label_n ls.this_fallthrough
  pub default_label : IsMade s.label_n ls.default_label
  pub break_label : IsMade s.label_n ls.break_label

pub IsReady-step :
    {debt : ℕ → ℕ} {s t : State} (ls : Labels) → IsRun debt s t → IsReady ls s → IsReady ls t
IsReady-step ls run h = record {
  this = IsMade-step ls.this run h.this;
  this_fallthrough = IsMade-step ls.this_fallthrough run h.this_fallthrough;
  default_label = IsMade-step ls.default_label run h.default_label;
  break_label = IsMade-step ls.break_label run h.break_label;
}

-- What a case owes: its two labels, and the label behind the Switch
abbrev pub owed : Labels → ℕ → ℕ
owed ls n = (at n ls.this + at n ls.this_fallthrough) + at n ls.break_label

pub at-invalid : (l : ℕ) (e : Expr) → is_valid e ≡ false → at l e ≡ 0
at-invalid l Expr.bad h = refl
at-invalid l (Expr.label m) h = cc
at-invalid l e h = refl

pub IsRun-add_if_valid :
    (debt other : ℕ → ℕ) (e : Expr) {r s : State}
    → ((l : ℕ) → debt l ≡ other l + at l e)
    → IsRun debt r s
    → IsRun other r (add_if_valid e s)
IsRun-add_if_valid debt other e d run = elim (Bool-cases (is_valid e)) [
  | inl valid ↦ rw valid (IsRun-place debt other e d run)
  | inr invalid ↦
      rw invalid (IsRun-debt debt other (λ l. omega (arith, d l, at-invalid l e invalid)) run)
]

added-IsReady :
    (e : Expr) (ls : Labels) (s : State) → IsReady ls s → IsReady ls (add (Node.expr e) s)
added-IsReady e ls s h = record {
  this = add-IsMade (Node.expr e) ls.this s h.this;
  this_fallthrough = add-IsMade (Node.expr e) ls.this_fallthrough s h.this_fallthrough;
  default_label = add-IsMade (Node.expr e) ls.default_label s h.default_label;
  break_label = add-IsMade (Node.expr e) ls.break_label s h.break_label;
}

-- Nothing is owed after a step that only places an expression; what is made stays made.
pub add_if_valid-IsReady :
    (e : Expr) (ls : Labels) (s : State) → IsReady ls s → IsReady ls (add_if_valid e s)
add_if_valid-IsReady e ls s h = elim (Bool-cases (is_valid e)) [
  | inl valid ↦ rw valid (added-IsReady e ls s h)
  | inr invalid ↦ rw invalid h
]

-- What the entry of a case does: it may make the label that the case falls into.
pub record IsEntered (debt : ℕ → ℕ) (ls ls1 : Labels) (r t t1 : State) : Type 0 where
  pub run : IsRun (λ n. debt n + at n ls1.this_fallthrough) r t1
  pub ready : IsReady ls1 t1
  pub same_break : ls1.break_label ≡ ls.break_label
  pub grown : t.label_n ≤ t1.label_n

abbrev pub Enters : Labels → (Expr → Labels → State → Labels × State) → Type 0
Enters ls entry =
    (debt : ℕ → ℕ) (l_next : Expr) (r t : State)
    → IsRun (λ n. debt n + at n ls.this_fallthrough) r t
    → IsReady ls t
    → IsMade t.label_n l_next
    → IsEntered debt ls (entry l_next ls t).0 r t (entry l_next ls t).1

pub case_entry-Enters :
    (fpu : Fpu) (subject e : Expr) (ls : Labels)
    → NoLabel subject
    → NoLabel e
    → Enters ls (λ l_next kept s. (kept, case_entry fpu subject e l_next s))
unfolding case_entry make_binary NoLabel
case_entry-Enters fpu subject e ls h n debt l_next r t run ready made =
    let step = compile_jump_if-IsStep fpu l_next (make_binary Op2.neq subject e) t made (h, n) in
    record {
      run = IsRun-step (λ n. debt n + at n ls.this_fallthrough) run step;
      ready = IsReady-step ls step ready;
      same_break = refl;
      grown = step.grown;
    }
