-- ===== src/Compiler/Steps.antt =====
-- The compilation of an expression in onejit/compiler.cpp, as a step.
use onejit.Base.{
  ℕ, zero, suc, ◌||◌, ◌+◌, Bool, true, false, not, if◌then◌else◌, Option, none, some, ◌≡◌, refl,
}
use onejit.Kind.{Kind, scalar, bool}
use onejit.Op
use onejit.Op.{Op1, Op2, OpN}
use onejit.OpStmt
use onejit.OpStmt.{OpStmt1, OpStmt2, OpStmt3}
use onejit.Float.{Fpu}
use onejit.Value
use onejit.Value.{Value}
use onejit.Value.Operators.{truth}
use onejit.Ir.{
  Expr, Exprs, nil, cons, Node, kind_of, make_unary, make_binary, make_call, truth_of, are_vars,
  is_valid,
}
use onejit.Ir.Placed.{is_place}
use onejit.Compiler.{State, add, new_label, new_var}
use onejit.Compiler.Assigns.{Compiled, Round, add_assign, to_var, to_var_mem_const, jump_if}
use onejit.Compiler.Ledger.{
  IsStep, IsStep-refl, IsStep-trans, IsStep-add, IsMade-grow, new_label-IsMade, IsRun-new,
  IsRun-step, IsRun-place, at,
}
use onejit.Compiler.Operands.{assign-IsStep, jump_if-IsStep}
use onejit.Compiler.Jumps.{
  NoLabel, NoLabels, IsCalm, AllCalm, with_vars-IsStep, pick-IsStep, new_var-IsStep,
  new_var-NoLabel, add_assign-IsStep, to_var-calm, to_var_mem_const-calm,
}
use onejit.Compiler.Expressions.{
  join, simplify_land, simplify_lor, simplify_boolean, binary_end, tuple_end, call_end, constant_or,
  compile_round, compile_children, compile_args, rounds, size, compile_expr, is_compare,
}

pub test-NoLabel :
    (land compare : Bool) (x dst : Expr)
    → NoLabel x
    → NoLabel dst
    → NoLabel (
        if land
        then make_unary Op1.not1 (if compare then x else dst)
        else if compare
        then x
        else dst)
unfolding make_unary NoLabel
test-NoLabel true true x dst h n = h
test-NoLabel true false x dst h n = n
test-NoLabel false true x dst h n = h
test-NoLabel false false x dst h n = n

-- `simplify_land` and `simplify_lor` answer an expression or none.
abbrev ResultNoLabel : Option Expr → Type 0
ResultNoLabel none = Unit {0}
ResultNoLabel (some e) = NoLabel e

abbrev ResultCalm : State → Option Expr × State → Type 0
ResultCalm s r = IsStep s r.1 × ResultNoLabel r.0

pick-NoLabel : (b : Bool) (x y : Expr) → NoLabel x → NoLabel y → NoLabel (if b then x else y)
pick-NoLabel true x y h k = h
pick-NoLabel false x y h k = k

pick-calm :
    (b : Bool) {s : State} (p q : Option Expr × State)
    → ResultCalm s p
    → ResultCalm s q
    → ResultCalm s (if b then p else q)
pick-calm true p q h k = h
pick-calm false p q h k = k

no_place : (l : ℕ) (e : Expr) → NoLabel e → is_place l (Node.expr e) ≡ false
unfolding NoLabel
no_place l (Expr.label m) h = absurd h
no_place l e h = refl

pub expr-IsStep : (e : Expr) (s : State) → NoLabel e → IsStep s (add (Node.expr e) s)
expr-IsStep e s h = IsStep-add (Node.expr e) s tt (λ l. no_place l e h)

module _ (fpu : Fpu) (again : Round) (calm : AllCalm again) where
  join-IsStep :
      (land : Bool) (x y : Expr) (s : State)
      → NoLabel x
      → NoLabel y
      → IsStep s (join fpu again land x y s).1
  unfolding join OpStmt.is_assign
  join-IsStep land x y s hx hy =
      let (dst, s1) = new_var (scalar bool) s in
      let name = new_var-NoLabel (scalar bool) s in
      let (l, s2) = new_label s1 in
      let made = new_label-IsMade s1 in
      let first = if is_compare x then truth_of (not land) else x in
      let s3 = add_assign dst first s2 in
      let test = if is_compare x then x else dst in
      let tested = if land then make_unary Op1.not1 test else test in
      let c = again tested s3 in
      let s4 = jump_if fpu l c in
      let calm_test = calm tested s3 (test-NoLabel land (is_compare x) x dst hx name) in
      let run2 = IsRun-new (λ n. 0) (new_var-IsStep (scalar bool) s) in
      let stored = add_assign-IsStep dst first s2 in
      let to_test = IsStep-trans stored calm_test.0 in
      let jumped =
        IsStep-trans to_test
          (jump_if-IsStep fpu l c (IsMade-grow s2.label_n c.2.label_n l (to_test.grown) made)) in
      let last =
        IsStep-trans jumped (assign-IsStep again calm OpStmt2.assign dst y s4 refl name hy) in
      IsRun-place (λ n. 0 + at n l) (λ n. 0) l (λ n. refl) (IsRun-step (λ n. 0 + at n l) run2 last)

  join-NoLabel :
      (land : Bool) (x y : Expr) (s : State) → ResultNoLabel (join fpu again land x y s).0
  unfolding join
  join-NoLabel land x y s = new_var-NoLabel (scalar bool) s

  land-calm :
      (x y : Expr) (s : State)
      → NoLabel x
      → NoLabel y
      → ResultCalm s (simplify_land fpu again x y s)
  unfolding simplify_land NoLabel
  land-calm (Expr.constant a) y s hx hy =
      (IsStep-refl s, pick-NoLabel (truth fpu a) y (Expr.constant a) hy tt)
  land-calm x (Expr.constant b) s hx hy =
      pick-calm (truth fpu b) (some x, s) (some (Expr.constant b), add (Node.expr x) s)
        (IsStep-refl s, hx) (expr-IsStep x s hx, tt)
  land-calm x (Expr.var k i) s hx hy = (IsStep-refl s, tt)
  land-calm x y s hx hy = (join-IsStep true x y s hx hy, join-NoLabel true x y s)

  lor-calm :
      (x y : Expr) (s : State) → NoLabel x → NoLabel y → ResultCalm s (simplify_lor fpu again x y s)
  unfolding simplify_lor NoLabel
  lor-calm (Expr.constant a) y s hx hy =
      (IsStep-refl s, pick-NoLabel (truth fpu a) (Expr.constant a) y tt hy)
  lor-calm x (Expr.constant b) s hx hy =
      pick-calm (truth fpu b) (some (Expr.constant b), add (Node.expr x) s) (some x, s)
        (expr-IsStep x s hx, tt) (IsStep-refl s, hx)
  lor-calm x (Expr.var k i) s hx hy = (IsStep-refl s, tt)
  lor-calm x y s hx hy = (join-IsStep false x y s hx hy, join-NoLabel false x y s)

  simplify_boolean-calm :
      (op : Op2) (x y : Expr) (s : State)
      → NoLabel x
      → NoLabel y
      → ResultCalm s (simplify_boolean fpu again op x y s)
  unfolding simplify_boolean
  simplify_boolean-calm Op2.land x y s hx hy = land-calm x y s hx hy
  simplify_boolean-calm Op2.lor x y s hx hy = lor-calm x y s hx hy
  simplify_boolean-calm op x y s hx hy = (IsStep-refl s, tt)

pub make_unary-NoLabel : (op : Op1) (x : Expr) → NoLabel x → NoLabel (make_unary op x)
unfolding make_unary NoLabel
make_unary-NoLabel Op1.not1 x h = h
make_unary-NoLabel op x h = h

unary-NoLabel :
    (k : Kind) (op : Op1) (x y : Expr) (changed : Bool)
    → NoLabel x
    → NoLabel y
    → NoLabel (if changed then make_unary op y else Expr.unary k op x)
unfolding NoLabel
unary-NoLabel k op x y true hx hy = make_unary-NoLabel op y hy
unary-NoLabel k op x y false hx hy = hx

pick-IsCalm :
    (b : Bool) {s : State} (x y : Compiled)
    → IsCalm s x
    → IsCalm s y
    → IsCalm s (if b then x else y)
pick-IsCalm true x y h k = h
pick-IsCalm false x y h k = k

-- The end of `compile(Binary)` where nothing is simplified
rebuilt-IsCalm :
    (k : Kind) (op : Op2) (x y cx cy : Expr) (changed : Bool) (s t : State)
    → NoLabel x × NoLabel y
    → NoLabel cx × NoLabel cy
    → IsStep s t
    → IsCalm s (if changed then make_binary op cx cy else Expr.binary k op x y, changed, t)
unfolding NoLabel make_binary
rebuilt-IsCalm k op x y cx cy true s t h c step = (step, c)
rebuilt-IsCalm k op x y cx cy false s t h c step = (step, h)

binary_end-IsCalm :
    (k : Kind) (op : Op2) (x y cx cy : Expr) (changed : Bool) (s : State) (r : Option Expr × State)
    → NoLabel x × NoLabel y
    → NoLabel cx × NoLabel cy
    → ResultCalm s r
    → IsCalm s (binary_end (Expr.binary k op x y) op cx cy changed r)
unfolding NoLabel make_binary
binary_end-IsCalm k op x y cx cy changed s (some e, t) h c r =
    pick-IsCalm (is_valid e) (e, true, t)
      (if changed then make_binary op cx cy else Expr.binary k op x y, changed, t) r
      (rebuilt-IsCalm k op x y cx cy changed s t h c r.0)
binary_end-IsCalm k op x y cx cy changed s (none, t) h c r =
    rebuilt-IsCalm k op x y cx cy changed s t h c r.0

abbrev ListCalm : State → Exprs × Bool × State → Type 0
ListCalm s c = IsStep s c.2 × NoLabels c.0

constant_or-IsCalm : (o : Option Value) (s t : State) → IsStep s t → IsCalm s (constant_or o t)
unfolding NoLabel
constant_or-IsCalm none s t h = (IsStep-trans h (with_vars-IsStep t.var_n true t), tt)
constant_or-IsCalm (some v) s t h = (h, tt)

kept-IsCalm :
    (source : Expr) (k : Kind) (op : OpN) (xs : Exprs) (changed : Bool) (s t : State)
    → NoLabel source
    → NoLabels xs
    → IsStep s t
    → IsCalm s (if changed then Expr.tuple k op xs else source, changed, t)
unfolding NoLabel
kept-IsCalm source k op xs true s t h n step = (step, n)
kept-IsCalm source k op xs false s t h n step = (step, h)

tuple_end-IsCalm :
    (fpu : Fpu) (source : Expr) (k : Kind) (op : OpN) (s : State) (c : Exprs × Bool × State)
    → NoLabel source
    → ListCalm s c
    → IsCalm s (tuple_end fpu source k op c)
unfolding tuple_end NoLabel
tuple_end-IsCalm fpu source k op s (nil, changed, t) h c =
    pick-IsCalm (Op.is_arithmetic op) (constant_or (Value.identity fpu k op) t)
      (if changed then Expr.tuple k op nil else source, changed, t)
      (constant_or-IsCalm (Value.identity fpu k op) s t c.0)
      (kept-IsCalm source k op nil changed s t h c.1 c.0)
tuple_end-IsCalm fpu source k op s (cons x nil, changed, t) h c =
    pick-IsCalm (Op.is_arithmetic op) (x, true, t)
      (if changed then Expr.tuple k op (cons x nil) else source, changed, t) (c.0, c.1.0)
      (kept-IsCalm source k op (cons x nil) changed s t h c.1 c.0)
tuple_end-IsCalm fpu source k op s (cons x (cons y xs), changed, t) h c =
    kept-IsCalm source k op (cons x (cons y xs)) changed s t h c.1 c.0

call_end-IsCalm : (s : State) (c : Expr × State) → IsStep s c.1 → IsCalm s (call_end c)
unfolding call_end
call_end-IsCalm s (e, t) h =
    let (dst, t1) = new_var (kind_of e) t in
    (
      IsStep-trans h (IsStep-trans (new_var-IsStep (kind_of e) t) (add_assign-IsStep dst e t1)),
      new_var-NoLabel (kind_of e) t,
    )

module _ (fpu : Fpu) (again : Round) (calm : AllCalm again) where
  mutual
    unfolding compile_round compile_children compile_args NoLabel

    pub round-IsCalm : (e : Expr) (s : State) → NoLabel e → IsCalm s (compile_round fpu again e s)
    round-IsCalm Expr.bad s h = (IsStep-refl s, tt)
    round-IsCalm (Expr.var k i) s h = (IsStep-refl s, tt)
    round-IsCalm (Expr.constant v) s h = (IsStep-refl s, tt)
    round-IsCalm (Expr.label l) s h = absurd h
    round-IsCalm (Expr.unary k op x) s h =
        let c = compile_round fpu again x s in
        let (step, plain) = round-IsCalm x s h in (step, unary-NoLabel k op x c.0 c.1 h plain)
    round-IsCalm (Expr.binary k op x y) s h =
        let cx = compile_round fpu again x s in
        let cy = compile_round fpu again y cx.2 in
        let (x_step, x_plain) = round-IsCalm x s h.0 in
        let (y_step, y_plain) = round-IsCalm y cx.2 h.1 in
        let (step, plain) =
          simplify_boolean-calm fpu again calm op cx.0 cy.0 cy.2 x_plain y_plain in
        binary_end-IsCalm k op x y cx.0 cy.0 (cx.1 || cy.1) s
          (simplify_boolean fpu again op cx.0 cy.0 cy.2) h (x_plain, y_plain)
          (IsStep-trans (IsStep-trans x_step y_step) step, plain)
    round-IsCalm (Expr.mem k op xs) s h =
        tuple_end-IsCalm fpu (Expr.mem k op xs) k op s (compile_children fpu again xs s) h
          (children-calm xs s h)
    round-IsCalm (Expr.tuple k op xs) s h =
        tuple_end-IsCalm fpu (Expr.tuple k op xs) k op s (compile_children fpu again xs s) h
          (children-calm xs s h)
    round-IsCalm (Expr.call k t a xs) s h =
        let args = compile_args fpu again xs s in
        call_end-IsCalm s
          (if are_vars xs then (Expr.call k t a xs, s) else (make_call t a args.0, args.1))
          (pick-IsStep (are_vars xs) (Expr.call k t a xs, s) (make_call t a args.0, args.1)
            (IsStep-refl s) (args-IsStep xs s h))

    children-calm :
        (xs : Exprs) (s : State) → NoLabels xs → ListCalm s (compile_children fpu again xs s)
    children-calm nil s h = (IsStep-refl s, tt)
    children-calm (cons x xs) s h =
        let c = compile_round fpu again x s in
        let p = to_var_mem_const c.0 (again c.0) c.2 in
        let (first, plain) = round-IsCalm x s h.0 in
        let (second, place) =
          to_var_mem_const-calm c.0 (again c.0) c.2 (λ r. (calm c.0 r plain).0) plain in
        let (third, rest) = children-calm xs p.1 h.1 in
        (IsStep-trans (IsStep-trans first second) third, (place, rest))

    pub args-IsStep :
        (xs : Exprs) (s : State) → NoLabels xs → IsStep s (compile_args fpu again xs s).1
    args-IsStep nil s h = IsStep-refl s
    args-IsStep (cons x xs) s h =
        let p = to_var x (λ (r : State). compile_round fpu again x r) s in
        IsStep-trans
          (to_var-calm x (λ (r : State). compile_round fpu again x r) s
            (λ r. (round-IsCalm x r h.0).0)).0
          (args-IsStep xs p.1 h.1)

rounds-calm : (fpu : Fpu) (n : ℕ) → AllCalm (rounds fpu n)
unfolding rounds
rounds-calm fpu zero e s h = (IsStep-refl s, h)
rounds-calm fpu (suc n) e s h = round-IsCalm fpu (rounds fpu n) (rounds-calm fpu n) e s h

-- Compiling an expression without labels among its operands places each label that it makes once
-- and no other, jumps to labels that were made only, and leaves the stacks as they are; the
-- compiled expression has no labels among its operands.
pub compile_expr-IsCalm :
    (fpu : Fpu) (e : Expr) (s : State) → NoLabel e → IsCalm s (compile_expr fpu e s)
unfolding compile_expr
compile_expr-IsCalm fpu e s h = rounds-calm fpu (size e) e s h
