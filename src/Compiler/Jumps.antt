-- ===== src/Compiler/Jumps.antt =====
-- The steps of assignments and of conditional jumps, and where their jumps lead.
use onejit.Base.{ℕ, ◌+◌, ◌<◌, Bool, true, false, if◌then◌else◌, ◌≡◌, refl, arith, leb}
use onejit.Kind
use onejit.Kind.{Kind, scalar, void}
use onejit.OpStmt
use onejit.OpStmt.{OpStmt2, OpStmt3}
use onejit.Ir.{Expr, Exprs, nil, cons, Node, kind_of}
use onejit.Ir.Placed.{LeadsTo}
use onejit.Compiler.{State, new_var, first_id}
use onejit.Compiler.Assigns.{Compiled, Round, add_assign, to_var, to_var_const, to_var_mem_const}
use onejit.Compiler.Names.{IsName, new_var-IsName}
use onejit.Compiler.Ledger.{IsStep, IsStep-refl, IsStep-trans, IsStep-add}

-- No operand of the expression is a label; the address of a call may be one.
unfoldable mutual
  pub NoLabel : Expr → Type 0
  NoLabel (Expr.label l) = ⊥
  NoLabel (Expr.unary k op x) = NoLabel x
  NoLabel (Expr.binary k op x y) = NoLabel x × NoLabel y
  NoLabel (Expr.mem k op xs) = NoLabels xs
  NoLabel (Expr.tuple k op xs) = NoLabels xs
  NoLabel (Expr.call k t a xs) = NoLabels xs
  NoLabel e = Unit {0}

  pub NoLabels : Exprs → Type 0
  NoLabels nil = Unit {0}
  NoLabels (cons x xs) = NoLabel x × NoLabels xs

-- The compilation of an expression without labels is a step, and has no labels.
abbrev pub IsCalm : State → Compiled → Type 0
IsCalm s c = IsStep s c.2 × NoLabel c.0

abbrev pub AllCalm : Round → Type 0
AllCalm again = (e : Expr) (s : State) → NoLabel e → IsCalm s (again e s)

-- A state with another number of variables, or after undefined behaviour
abbrev pub with_vars : ℕ → Bool → State → State
with_vars n u s = record s { var_n = n; undefined = u }

pub with_vars-IsStep : (n : ℕ) (u : Bool) (s : State) → IsStep s (with_vars n u s)
with_vars-IsStep n u s = record {
  grown = omega arith;
  balanced = λ l. omega arith;
  breaks = refl;
  continues = refl;
  fallthroughs = refl;
  within = λ h. record {
    targets = h.targets;
    breaks = h.breaks;
    continues = h.continues;
    fallthroughs = h.fallthroughs;
  };
}

pub pick-IsStep :
    (b : Bool) {s : State} (x y : Expr × State)
    → IsStep s x.1
    → IsStep s y.1
    → IsStep s (if b then x else y).1
pick-IsStep true x y h k = h
pick-IsStep false x y h k = k

pub either-IsStep :
    (b : Bool) {s : State} (x y : State) → IsStep s x → IsStep s y → IsStep s (if b then x else y)
either-IsStep true x y h k = h
either-IsStep false x y h k = k

pub new_var-IsStep : (k : Kind) (s : State) → IsStep s (new_var k s).1
unfolding new_var
new_var-IsStep k s =
    pick-IsStep (Kind.same k (scalar Kind.bad)) (Expr.bad, s)
      (if Kind.same k (scalar void)
        then (Expr.var k 0, with_vars (s.var_n + 1) s.undefined s)
        else if leb (s.var_n + first_id) 0xFFFFFF
        then (Expr.var k (s.var_n + first_id), with_vars (s.var_n + 1) s.undefined s)
        else (Expr.bad, s))
      (IsStep-refl s)
      (pick-IsStep (Kind.same k (scalar void)) (Expr.var k 0, with_vars (s.var_n + 1) s.undefined s)
        (if leb (s.var_n + first_id) 0xFFFFFF
          then (Expr.var k (s.var_n + first_id), with_vars (s.var_n + 1) s.undefined s)
          else (Expr.bad, s))
        (with_vars-IsStep (s.var_n + 1) s.undefined s)
        (pick-IsStep (leb (s.var_n + first_id) 0xFFFFFF)
          (Expr.var k (s.var_n + first_id), with_vars (s.var_n + 1) s.undefined s) (Expr.bad, s)
          (with_vars-IsStep (s.var_n + 1) s.undefined s) (IsStep-refl s)))

pub name-NoLabel : (e : Expr) → IsName e → NoLabel e
unfolding NoLabel
name-NoLabel Expr.bad h = tt
name-NoLabel (Expr.var k i) h = tt
name-NoLabel e h = absurd h

pub new_var-NoLabel : (k : Kind) (s : State) → NoLabel (new_var k s).0
new_var-NoLabel k s = name-NoLabel (new_var k s).0 (new_var-IsName k s)

pub assign-LeadsTo :
    (op : OpStmt2) (dst src : Expr) (n : ℕ)
    → OpStmt.is_assign op ≡ true
    → LeadsTo (λ l. l < n) (Node.stmt2 op dst src)
assign-LeadsTo op dst src n h = rw h tt

pub add_assign-IsStep : (dst src : Expr) (s : State) → IsStep s (add_assign dst src s)
unfolding add_assign OpStmt.is_assign
add_assign-IsStep dst src s =
    IsStep-add (Node.stmt2 OpStmt2.assign dst src) s
      (assign-LeadsTo OpStmt2.assign dst src s.label_n refl) (λ l. refl)

pub to_var-IsStep :
    (e : Expr) (src : State → Compiled) (s : State)
    → ((r : State) → IsStep r (src r).2)
    → IsStep s (to_var e src s).1
unfolding to_var
to_var-IsStep Expr.bad src s h = IsStep-refl s
to_var-IsStep (Expr.var k i) src s h = IsStep-refl s
to_var-IsStep e src s h =
    let (v, s1) = new_var (kind_of e) s in
    IsStep-trans (new_var-IsStep (kind_of e) s)
      (IsStep-trans (h s1) (add_assign-IsStep v (src s1).0 (src s1).2))

pub to_var-NoLabel : (e : Expr) (src : State → Compiled) (s : State) → NoLabel (to_var e src s).0
unfolding to_var NoLabel
to_var-NoLabel Expr.bad src s = tt
to_var-NoLabel (Expr.var k i) src s = tt
to_var-NoLabel e src s = new_var-NoLabel (kind_of e) s

-- The three ways to make an operand of an expression without labels
pub to_var-calm :
    (e : Expr) (src : State → Compiled) (s : State)
    → ((r : State) → IsStep r (src r).2)
    → IsStep s (to_var e src s).1 × NoLabel (to_var e src s).0
to_var-calm e src s h = (to_var-IsStep e src s h, to_var-NoLabel e src s)

pub to_var_const-calm :
    (e : Expr) (src : State → Compiled) (s : State)
    → ((r : State) → IsStep r (src r).2)
    → NoLabel e
    → IsStep s (to_var_const e src s).1 × NoLabel (to_var_const e src s).0
unfolding to_var_const NoLabel
to_var_const-calm (Expr.constant v) src s h n = (IsStep-refl s, tt)
to_var_const-calm (Expr.label l) src s h n = absurd n
to_var_const-calm e src s h n = to_var-calm e src s h

pub to_var_mem_const-calm :
    (e : Expr) (src : State → Compiled) (s : State)
    → ((r : State) → IsStep r (src r).2)
    → NoLabel e
    → IsStep s (to_var_mem_const e src s).1 × NoLabel (to_var_mem_const e src s).0
unfolding to_var_mem_const NoLabel
to_var_mem_const-calm (Expr.constant v) src s h n = (IsStep-refl s, tt)
to_var_mem_const-calm (Expr.label l) src s h n = absurd n
to_var_mem_const-calm (Expr.mem k op xs) src s h n = (IsStep-refl s, n)
to_var_mem_const-calm e src s h n = to_var-calm e src s h
