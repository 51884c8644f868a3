-- ===== src/Compiler/Switches.antt =====
-- The cases of a Switch, and the Switch.
use onejit.Base.{
  ℕ, ◌+◌, Bool, true, false, if◌then◌else◌, Option, none, some, ◌≡◌, refl, ap, sym, subst, arith,
  Bool-cases, inl, inr,
}
use onejit.Float.{Fpu}
use onejit.Ir.{Expr, Node, is_valid}
use onejit.Compiler.{State, Message, goto, new_label, enter_case, exit_case}
use onejit.Compiler.Assigns.{to_var}
use onejit.Compiler.Expressions.{compile_expr}
use onejit.Compiler.Structured.{
  Part, Labels, add_if_valid, next_labels, default_entry, case_exit, case_part, compile_switch,
}
use onejit.Compiler.Jumps.{NoLabel, to_var-calm}
use onejit.Compiler.Operands.{goto-IsStep}
use onejit.Compiler.Steps.{compile_expr-IsCalm}
use onejit.Compiler.Enclose.{IsRun-case, error-IsStep}
use onejit.Compiler.Nested.{AllSteps, IsMade-step}
use onejit.Compiler.Ledger.{
  IsRun, IsStep, IsStep-refl, IsRun-step, IsRun-debt, IsRun-new, IsRun-place, new_label-IsMade,
  IsMade, IsMade-grow, add-IsMade, at,
}
use onejit.Compiler.Cases.{
  IsReady, IsReady-step, owed, at-invalid, IsRun-add_if_valid, add_if_valid-IsReady, IsEntered,
  Enters,
}

new_fallthrough-IsEntered :
    (debt : ℕ → ℕ) (ls : Labels) (r t s1 : State)
    → IsStep t s1
    → IsRun (λ n. debt n + at n ls.this_fallthrough) r t
    → IsReady ls t
    → is_valid ls.this_fallthrough ≡ false
    → IsEntered debt ls
        (record ls { this_fallthrough = (new_label s1).0; default_label = (new_label s1).0 })
        r
        t
        (new_label s1).1
new_fallthrough-IsEntered debt ls r t s1 step run ready invalid =
    let new = IsRun-new (λ n. 0) step in
    let made = new_label-IsMade s1 in
    record {
      run = IsRun-new debt (
          IsRun-debt (λ n. debt n + at n ls.this_fallthrough) debt
            (λ l. omega (arith, at-invalid l ls.this_fallthrough invalid))
            (IsRun-step (λ n. debt n + at n ls.this_fallthrough) run step));
      ready = record {
        this = IsMade-step ls.this new ready.this;
        this_fallthrough = made;
        default_label = made;
        break_label = IsMade-step ls.break_label new ready.break_label;
      };
      same_break = refl;
      grown = new.grown;
    }

pub default_entry-Enters :
    (is_last : Bool) (ls : Labels)
    → Enters ls (λ l_next kept s. default_entry is_last kept l_next s)
unfolding default_entry
default_entry-Enters true ls debt l_next r t run ready made = record {
  run = run;
  ready = ready;
  same_break = refl;
  grown = omega arith;
}
default_entry-Enters false ls debt l_next r t run ready made =
    let step = goto-IsStep l_next t made in
    let s1 = goto l_next t in
    elim (Bool-cases (is_valid ls.this_fallthrough)) [
      | inl valid ↦ rw valid (
          let old = IsReady-step ls step ready in
          record {
            run = IsRun-step (λ n. debt n + at n ls.this_fallthrough) run step;
            ready = record {
              this = old.this;
              this_fallthrough = old.this_fallthrough;
              default_label = old.this_fallthrough;
              break_label = old.break_label;
            };
            same_break = refl;
            grown = step.grown;
          })
      | inr invalid ↦ rw invalid (new_fallthrough-IsEntered debt ls r t s1 step run ready invalid)
    ]

add_if_valid-IsMade :
    (l e : Expr) (s : State) → IsMade s.label_n e → IsMade (add_if_valid l s).label_n e
add_if_valid-IsMade l e s h = elim (Bool-cases (is_valid l)) [
  | inl valid ↦ rw valid (add-IsMade (Node.expr l) e s h)
  | inr invalid ↦ rw invalid h
]

-- From the entry of a case through its body
abbrev after_body : Labels → Labels → Expr → Part → State → State
after_body ls ls1 l_fallthrough body t1 =
    exit_case
      (body (enter_case ls.break_label l_fallthrough (add_if_valid ls1.this_fallthrough t1)))

module _ (ls : Labels) (l_fallthrough : Expr) (body : Part) (steps : AllSteps body) where
  body-IsRun :
      (debt : ℕ → ℕ) (ls1 : Labels) (r t t1 : State)
      → IsEntered debt ls ls1 r t t1
      → IsMade t.label_n l_fallthrough
      → IsMade t.label_n ls.break_label
      → IsRun debt r (after_body ls ls1 l_fallthrough body t1)
  body-IsRun debt ls1 r t t1 entered made made_break =
      let t3 = add_if_valid ls1.this_fallthrough t1 in
      let inside = enter_case ls.break_label l_fallthrough t3 in
      let run3 =
        IsRun-add_if_valid (λ n. debt n + at n ls1.this_fallthrough) debt ls1.this_fallthrough
          (λ l. refl) entered.run in
      let kept = λ (e : Expr) (h : IsMade t.label_n e).
        add_if_valid-IsMade ls1.this_fallthrough e t1
          (IsMade-grow t.label_n t1.label_n e entered.grown h) in
      IsRun-case debt ls.break_label l_fallthrough {t = t3} {u = body inside} run3
        (kept ls.break_label made_break) (kept l_fallthrough made) (steps inside)

  -- What is made at the entry is made after the body.
  body-IsMade :
      (ls1 : Labels) (e : Expr) (t1 : State)
      → IsMade t1.label_n e
      → IsMade (after_body ls ls1 l_fallthrough body t1).label_n e
  unfolding enter_case exit_case
  body-IsMade ls1 e t1 h =
      let inside = enter_case ls.break_label l_fallthrough (add_if_valid ls1.this_fallthrough t1) in
      IsMade-step e (steps inside) (add_if_valid-IsMade ls1.this_fallthrough e t1 h)

pick-IsMade :
    (b : Bool) (n : ℕ) (x y : Expr) → IsMade n x → IsMade n y → IsMade n (if b then x else y)
pick-IsMade true n x y h k = h
pick-IsMade false n x y h k = k

module _ (ls : Labels) (entry : Expr → Labels → State → Labels × State) (body : Part)
    (enters : Enters ls entry) (steps : AllSteps body) where
  pub last_case-IsRun :
      (rest : Labels → Part) (r s : State)
      → ((next : Labels) → AllSteps (rest next))
      → IsReady ls s
      → IsRun (owed ls) r s
      → IsRun (λ n. at n ls.break_label) r (case_part true ls entry body rest s)
  unfolding case_part next_labels case_exit
  last_case-IsRun rest r s ends ready run =
      let l_next = if is_valid ls.default_label then ls.default_label else ls.break_label in
      let t = add_if_valid ls.this s in
      let ready1 = add_if_valid-IsReady ls.this ls s ready in
      let made =
        pick-IsMade (is_valid ls.default_label) t.label_n ls.default_label ls.break_label
          ready1.default_label ready1.break_label in
      let paid =
        IsRun-add_if_valid (owed ls) (λ n. at n ls.break_label + at n ls.this_fallthrough) ls.this
          (λ l. omega arith) run in
      let entered = enters (λ n. at n ls.break_label) l_next r t paid ready1 made in
      let ls1 = (entry l_next ls t).0 in
      let t1 = (entry l_next ls t).1 in
      let done =
        body-IsRun ls ls.break_label body steps (λ n. at n ls.break_label) ls1 r t t1 entered
          ready1.break_label ready1.break_label in
      IsRun-step (λ n. at n ls.break_label) done
        (ends (record ls1 { this = l_next; this_fallthrough = ls.break_label })
          (after_body ls ls1 ls.break_label body t1))

  pub next_case-IsRun :
      (rest : Labels → Part) (r s : State)
      → ((next : Labels) (t : State)
          → IsReady next t
          → IsRun (owed next) r t
          → IsRun (λ n. at n next.break_label) r (rest next t))
      → IsReady ls s
      → IsRun (owed ls) r s
      → IsRun (λ n. at n ls.break_label) r (case_part false ls entry body rest s)
  unfolding case_part next_labels case_exit
  next_case-IsRun rest r s continues ready run =
      let (l_next, s1) = new_label s in
      let (l_fall, s2) = new_label s1 in
      let new1 = IsRun-new (λ n. 0) (IsStep-refl s) in
      let new2 = IsRun-new (λ n. 0) (IsStep-refl s1) in
      let made_next = IsMade-step l_next new2 (new_label-IsMade s) in
      let made_fall = new_label-IsMade s1 in
      let ready2 = IsReady-step ls new2 (IsReady-step ls new1 ready) in
      let run2 = IsRun-new (λ n. owed ls n + at n l_next) (IsRun-new (owed ls) run) in
      let t = add_if_valid ls.this s2 in
      let debt = λ (n : ℕ). (at n l_next + at n l_fall) + at n ls.break_label in
      let paid =
        IsRun-add_if_valid (λ n. (owed ls n + at n l_next) + at n l_fall)
          (λ n. debt n + at n ls.this_fallthrough) ls.this (λ l. omega arith) run2 in
      let ready3 = add_if_valid-IsReady ls.this ls s2 ready2 in
      let kept = λ (e : Expr) (h : IsMade s2.label_n e). add_if_valid-IsMade ls.this e s2 h in
      let entered = enters debt l_next r t paid ready3 (kept l_next made_next) in
      let ls1 = (entry l_next ls t).0 in
      let t1 = (entry l_next ls t).1 in
      let done =
        body-IsRun ls l_fall body steps debt ls1 r t t1 entered (kept l_fall made_fall)
          ready3.break_label in
      let t4 = after_body ls ls1 l_fall body t1 in
      let there =
        λ (e : Expr) (h : IsMade t1.label_n e). body-IsMade ls l_fall body steps ls1 e t1 h in
      let grow =
        λ (e : Expr) (h : IsMade t.label_n e). IsMade-grow t.label_n t1.label_n e entered.grown h in
      let break_there = there ls.break_label (grow ls.break_label ready3.break_label) in
      let out = goto-IsStep ls.break_label t4 break_there in
      let next = record ls1 { this = l_next; this_fallthrough = l_fall } in
      let t5 = goto ls.break_label t4 in
      subst (λ b. IsRun (λ n. at n b) r (rest next t5)) entered.same_break
        (continues next t5
          (IsReady-step next out (record {
            this = there l_next (grow l_next (kept l_next made_next));
            this_fallthrough = there l_fall (grow l_fall (kept l_fall made_fall));
            default_label = there ls1.default_label entered.ready.default_label;
            break_label = there ls1.break_label entered.ready.break_label;
          }))
          (IsRun-debt debt (owed next)
            (λ n. ap (λ b. (at n l_next + at n l_fall) + at n b) (sym entered.same_break))
            (IsRun-step debt done out)))

pub compile_switch-IsStep :
    (fpu : Fpu) (e : Expr) (refused : Option (Node × Message)) (cases : Expr → Labels → Part)
    (s : State)
    → NoLabel e
    → ((subject : Expr) (ls : Labels) (r t : State)
        → NoLabel subject
        → IsReady ls t
        → IsRun (owed ls) r t
        → ls.this ≡ Expr.bad
        → ls.this_fallthrough ≡ Expr.bad
        → IsRun (λ n. at n ls.break_label) r (cases subject ls t))
    → IsStep s (compile_switch fpu e refused cases s)
unfolding compile_switch
compile_switch-IsStep fpu e (some (n, m)) cases s h run = error-IsStep n m s
compile_switch-IsStep fpu e none cases s h run =
    let (subject, s1) = to_var e (compile_expr fpu e) s in
    let (step, plain) =
      to_var-calm e (compile_expr fpu e) s (λ r. (compile_expr-IsCalm fpu e r h).0) in
    let (l_break, s2) = new_label s1 in
    let start : Labels = record {
      this = Expr.bad;
      this_fallthrough = Expr.bad;
      default_label = Expr.bad;
      break_label = l_break;
    } in
    IsRun-place (λ n. at n l_break) (λ n. 0) l_break (λ n. omega arith)
      (run subject start s s2 plain
        (record {
          this = tt;
          this_fallthrough = tt;
          default_label = tt;
          break_label = new_label-IsMade s1;
        })
        (IsRun-debt (λ n. 0 + at n l_break) (owed start) (λ n. omega arith)
          (IsRun-new (λ n. 0) step))
        refl refl)
