-- ===== src/Compiler/Sizes.antt =====
-- The sizes of compiled expressions, which bound what the compilation compiles again.
use onejit.Base.{
  ℕ, suc, ◌+◌, ◌≤◌, Bool, true, false, ◌||◌, if◌then◌else◌, Option, none, some, ◌≡◌, refl, arith,
}
use onejit.Kind
use onejit.Kind.{Kind}
use onejit.Op
use onejit.Op.{Op1, Op2, OpN}
use onejit.Float.{Fpu}
use onejit.Value
use onejit.Value.{Value}
use onejit.Value.Operators.{truth}
use onejit.Ir.{
  Expr, Exprs, nil, cons, make_unary, make_binary, make_call, kind_of, is_valid, are_vars,
}
use onejit.Compiler.{State, new_var}
use onejit.Compiler.Names.{IsName, new_var-IsName, to_var-IsName}
use onejit.Compiler.Assigns.{Compiled, Round, to_var, to_var_mem_const}
use onejit.Compiler.Expressions.{
  join, simplify_land, simplify_lor, simplify_boolean, binary_end, tuple_end, call_end, constant_or,
  compile_round, compile_children, compile_args, size, sizes,
}

pub size-pos : (e : Expr) → 1 ≤ size e
unfolding size
size-pos (Expr.unary k op x) = omega arith
size-pos (Expr.binary k op x y) = omega arith
size-pos (Expr.mem k op xs) = omega arith
size-pos (Expr.tuple k op xs) = omega arith
size-pos (Expr.call k t a xs) = omega arith
size-pos e = omega arith

pub size-make_unary : (op : Op1) (x : Expr) → size (make_unary op x) ≡ suc (size x)
unfolding make_unary size
size-make_unary Op1.not1 x = refl
size-make_unary op x = refl

pub size-name : (e : Expr) → IsName e → size e ≡ 1
unfolding size
size-name Expr.bad h = refl
size-name (Expr.var k i) h = refl
size-name e h = absurd h

pick-le : (b : Bool) (x y : Expr) (n : ℕ) → size x ≤ n → size y ≤ n → size (if b then x else y) ≤ n
pick-le true x y n h k = h
pick-le false x y n h k = k

pick_compiled-le :
    (b : Bool) (x y : Compiled) (n : ℕ)
    → size x.0 ≤ n
    → size y.0 ≤ n
    → size (if b then x else y).0 ≤ n
pick_compiled-le true x y n h k = h
pick_compiled-le false x y n h k = k

-- An expression of at most `n` nodes, or none
abbrev IsSmall : ℕ → Option Expr → Type 0
IsSmall n none = Unit {0}
IsSmall n (some e) = size e ≤ n

pick-IsSmall :
    (b : Bool) (x y : Option Expr × State) (n : ℕ)
    → IsSmall n x.0
    → IsSmall n y.0
    → IsSmall n (if b then x else y).0
pick-IsSmall true x y n h k = h
pick-IsSmall false x y n h k = k

size-new_var : (k : Kind) (s : State) → size (new_var k s).0 ≡ 1
size-new_var k s = size-name (new_var k s).0 (new_var-IsName k s)

size-constant : (v : Value) → size (Expr.constant v) ≡ 1
unfolding size
size-constant v = refl

land-IsSmall :
    (fpu : Fpu) (again : Round) (x y : Expr) (s : State)
    → IsSmall (size x + size y) (simplify_land fpu again x y s).0
unfolding simplify_land join
land-IsSmall fpu again (Expr.constant a) y s =
    pick-le (truth fpu a) y (Expr.constant a) _ (omega arith) (omega arith)
land-IsSmall fpu again x (Expr.constant b) s =
    pick-IsSmall (truth fpu b) _ _ _
      (let h : size x ≤ size x + size (Expr.constant b) = omega arith in h)
      (let h : size (Expr.constant b) ≤ size x + size (Expr.constant b) = omega arith in h)
land-IsSmall fpu again x (Expr.var k i) s = tt
land-IsSmall fpu again x y s = omega (arith, size-new_var (Kind.scalar Kind.bool) s, size-pos x)

lor-IsSmall :
    (fpu : Fpu) (again : Round) (x y : Expr) (s : State)
    → IsSmall (size x + size y) (simplify_lor fpu again x y s).0
unfolding simplify_lor join
lor-IsSmall fpu again (Expr.constant a) y s =
    pick-le (truth fpu a) (Expr.constant a) y _ (omega arith) (omega arith)
lor-IsSmall fpu again x (Expr.constant b) s =
    pick-IsSmall (truth fpu b) _ _ _
      (let h : size (Expr.constant b) ≤ size x + size (Expr.constant b) = omega arith in h)
      (let h : size x ≤ size x + size (Expr.constant b) = omega arith in h)
lor-IsSmall fpu again x (Expr.var k i) s = tt
lor-IsSmall fpu again x y s = omega (arith, size-new_var (Kind.scalar Kind.bool) s, size-pos x)

simplify_boolean-IsSmall :
    (fpu : Fpu) (again : Round) (op : Op2) (x y : Expr) (s : State)
    → IsSmall (size x + size y) (simplify_boolean fpu again op x y s).0
unfolding simplify_boolean
simplify_boolean-IsSmall fpu again Op2.land x y s = land-IsSmall fpu again x y s
simplify_boolean-IsSmall fpu again Op2.lor x y s = lor-IsSmall fpu again x y s
simplify_boolean-IsSmall fpu again op x y s = tt

rebuilt-le :
    (k : Kind) (op : Op2) (x y cx cy : Expr) (changed : Bool)
    → size cx ≤ size x
    → size cy ≤ size y
    → size (if changed then make_binary op cx cy else Expr.binary k op x y) ≤ suc (size x + size y)
unfolding make_binary size
rebuilt-le k op x y cx cy true hx hy = omega arith
rebuilt-le k op x y cx cy false hx hy = omega arith

binary_end-le :
    (k : Kind) (op : Op2) (x y cx cy : Expr) (changed : Bool) (r : Option Expr × State)
    → size cx ≤ size x
    → size cy ≤ size y
    → IsSmall (size cx + size cy) r.0
    → size (binary_end (Expr.binary k op x y) op cx cy changed r).0 ≤ suc (size x + size y)
binary_end-le k op x y cx cy changed (some e, s) hx hy small =
    pick_compiled-le (is_valid e) (e, true, s)
      (if changed then make_binary op cx cy else Expr.binary k op x y, changed, s) _ (omega arith)
      (rebuilt-le k op x y cx cy changed hx hy)
binary_end-le k op x y cx cy changed (none, s) hx hy small = rebuilt-le k op x y cx cy changed hx hy

constant_or-le : (o : Option Value) (s : State) (n : ℕ) → size (constant_or o s).0 ≤ suc n
unfolding size
constant_or-le none s n = omega arith
constant_or-le (some v) s n = omega arith

kept-le :
    (source : Expr) (k : Kind) (op : OpN) (xs : Exprs) (changed : Bool) (n : ℕ)
    → size source ≤ suc n
    → sizes xs ≤ n
    → size (if changed then Expr.tuple k op xs else source) ≤ suc n
unfolding size
kept-le source k op xs true n h m = omega arith
kept-le source k op xs false n h m = h

tuple_end-le :
    (fpu : Fpu) (source : Expr) (k : Kind) (op : OpN) (c : Exprs × Bool × State) (n : ℕ)
    → size source ≤ suc n
    → sizes c.0 ≤ n
    → size (tuple_end fpu source k op c).0 ≤ suc n
unfolding tuple_end sizes
tuple_end-le fpu source k op (nil, changed, s) n h m =
    pick_compiled-le (Op.is_arithmetic op) (constant_or (Value.identity fpu k op) s)
      (if changed then Expr.tuple k op nil else source, changed, s) _
      (constant_or-le (Value.identity fpu k op) s n) (kept-le source k op nil changed n h m)
tuple_end-le fpu source k op (cons x nil, changed, s) n h m =
    pick_compiled-le (Op.is_arithmetic op) (x, true, s)
      (if changed then Expr.tuple k op (cons x nil) else source, changed, s) _ (omega arith)
      (kept-le source k op (cons x nil) changed n h m)
tuple_end-le fpu source k op (cons x (cons y xs), changed, s) n h m =
    kept-le source k op (cons x (cons y xs)) changed n h m

to_var-le : (e : Expr) (src : State → Compiled) (s : State) → size (to_var e src s).0 ≤ size e
to_var-le e src s = omega (arith, size-name (to_var e src s).0 (to_var-IsName e src s), size-pos e)

pub place-le :
    (e : Expr) (src : State → Compiled) (s : State) → size (to_var_mem_const e src s).0 ≤ size e
unfolding to_var_mem_const
place-le (Expr.constant v) src s = omega arith
place-le (Expr.label l) src s = omega arith
place-le (Expr.mem k op xs) src s = omega arith
place-le e src s = to_var-le e src s

call_end-le : (c : Expr × State) (n : ℕ) → size (call_end c).0 ≤ suc n
unfolding call_end
call_end-le (e, s) n = omega (arith, size-new_var (kind_of e) s)

-- Compiling an expression makes no larger one.
mutual
  unfolding compile_round compile_children size

  pub compile-le :
      (fpu : Fpu) (again : Round) (e : Expr) (s : State)
      → size (compile_round fpu again e s).0 ≤ size e
  compile-le fpu again Expr.bad s = omega arith
  compile-le fpu again (Expr.var k i) s = omega arith
  compile-le fpu again (Expr.label l) s = omega arith
  compile-le fpu again (Expr.constant v) s = omega arith
  compile-le fpu again (Expr.unary k op x) s =
      let c = compile_round fpu again x s in
      pick-le c.1 (make_unary op c.0) (Expr.unary k op x) (suc (size x))
        (omega (arith, size-make_unary op c.0, compile-le fpu again x s)) (omega arith)
  compile-le fpu again (Expr.binary k op x y) s =
      let cx = compile_round fpu again x s in
      let cy = compile_round fpu again y cx.2 in
      binary_end-le k op x y cx.0 cy.0 (cx.1 || cy.1) (simplify_boolean fpu again op cx.0 cy.0 cy.2)
        (compile-le fpu again x s) (compile-le fpu again y cx.2)
        (simplify_boolean-IsSmall fpu again op cx.0 cy.0 cy.2)
  compile-le fpu again (Expr.mem k op xs) s =
      tuple_end-le fpu (Expr.mem k op xs) k op (compile_children fpu again xs s) (sizes xs)
        (omega arith) (compile_children-le fpu again xs s)
  compile-le fpu again (Expr.tuple k op xs) s =
      tuple_end-le fpu (Expr.tuple k op xs) k op (compile_children fpu again xs s) (sizes xs)
        (omega arith) (compile_children-le fpu again xs s)
  compile-le fpu again (Expr.call k t a xs) s =
      call_end-le
        (if are_vars xs
          then (Expr.call k t a xs, s)
          else (make_call t a (compile_args fpu again xs s).0, (compile_args fpu again xs s).1))
        (sizes xs)

  compile_children-le :
      (fpu : Fpu) (again : Round) (xs : Exprs) (s : State)
      → sizes (compile_children fpu again xs s).0 ≤ sizes xs
  compile_children-le fpu again nil s = omega arith
  compile_children-le fpu again (cons x xs) s =
      let c = compile_round fpu again x s in
      let p = to_var_mem_const c.0 (again c.0) c.2 in
      omega (
        arith,
        compile-le fpu again x s,
        place-le c.0 (again c.0) c.2,
        compile_children-le fpu again xs p.1,
      )
