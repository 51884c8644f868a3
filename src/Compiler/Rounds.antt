-- ===== src/Compiler/Rounds.antt =====
-- The number of rounds of `compile_expr`: what is compiled again is smaller than the expression.
use onejit.Base.{
  ℕ, zero, suc, ◌+◌, ◌-◌, ◌≤◌, Bool, true, false, not, ◌||◌, if◌then◌else◌, Option, some, ◌≡◌, refl,
  ap, ap₂, ◌∙◌, arith,
}
use mathlib.Core.Path.{fun_ext}
use onejit.Kind
use onejit.Kind.{Kind}
use onejit.OpStmt.{OpStmt2}
use onejit.Op.{Op1, Op2}
use onejit.Float.{Fpu}
use onejit.Ir.{Expr, Exprs, nil, cons, Node, make_unary, truth_of}
use onejit.Compiler.{State, new_var, new_label, add}
use onejit.Compiler.Assigns.{
  Compiled, Round, to_var, to_var_mem_const, to_place, assign, jump_if, add_assign,
}
use onejit.Compiler.Expressions.{
  join, simplify_land, simplify_lor, simplify_boolean, binary_end, compile_round, compile_children,
  compile_args, rounds, size, sizes, compile_expr, is_compare,
}
use onejit.Compiler.Names.{IsName, new_var-IsName}
use onejit.Compiler.Sizes.{size-pos, size-name, size-make_unary, compile-le}

-- A round that leaves variables as they are
abbrev IsSteady : Round → Type 0
IsSteady f = (e : Expr) (s : State) → IsName e → f e s ≡ (e, false, s)

-- Rounds that agree on the expressions of at most `n` nodes
abbrev Agree : ℕ → Round → Round → Type 0
Agree n f g = (e : Expr) → size e ≤ n → f e ≡ g e

module _ (f g : Round) (n : ℕ) (agree : Agree n f g) (f_steady : IsSteady f)
    (g_steady : IsSteady g) where
  assign-agree :
      (op : OpStmt2) (dst src : Expr) (s : State)
      → IsName dst
      → size src ≤ n
      → assign f op dst src s ≡ assign g op dst src s
  unfolding assign to_place
  assign-agree op Expr.bad src s name small =
      rw (f_steady Expr.bad s tt, g_steady Expr.bad s tt, agree src small) refl
  assign-agree op (Expr.var k i) src s name small =
      rw (f_steady (Expr.var k i) s tt, g_steady (Expr.var k i) s tt, agree src small) refl
  assign-agree op dst src s name small = absurd name

  -- The test of the jump in `simplify_land` and `simplify_lor`
  size-test :
      (land compare : Bool) (x y dst : Expr)
      → size dst ≡ 1
      → size x + size y ≤ n
      → size (
          if land
          then make_unary Op1.not1 (if compare then x else dst)
          else if compare
          then x
          else dst)
        ≤ n
  size-test true true x y dst h small = omega (arith, size-make_unary Op1.not1 x, size-pos y)
  size-test true false x y dst h small =
      omega (arith, size-make_unary Op1.not1 dst, size-pos x, size-pos y)
  size-test false true x y dst h small = omega arith
  size-test false false x y dst h small = omega (arith, size-pos x)

  join-agree :
      (fpu : Fpu) (land : Bool) (x y : Expr) (s : State)
      → size x + size y ≤ n
      → join fpu f land x y s ≡ join fpu g land x y s
  unfolding join
  join-agree fpu land x y s small =
      let dst = (new_var (Kind.scalar Kind.bool) s).0 in
      let name = new_var-IsName (Kind.scalar Kind.bool) s in
      let test = if is_compare x then x else dst in
      let tested =
        agree (if land then make_unary Op1.not1 test else test)
          (size-test land (is_compare x) x y dst (size-name dst name) small) in
      let assigned =
        fun_ext (λ (r : State). assign-agree OpStmt2.assign dst y r name (omega arith)) in
      let l = (new_label (new_var (Kind.scalar Kind.bool) s).1) in
      let s3 = add_assign dst (if is_compare x then truth_of (not land) else x) l.1 in
      ap₂
        (λ (t : State → Compiled) (a : State → State).
          (let r : Option Expr × State =
              (some dst, add (Node.expr l.0) (a (jump_if fpu l.0 (t s3)))) in
            r))
        tested assigned

  land-agree :
      (fpu : Fpu) (x y : Expr) (s : State)
      → size x + size y ≤ n
      → simplify_land fpu f x y s ≡ simplify_land fpu g x y s
  unfolding simplify_land
  land-agree fpu (Expr.constant a) y s small = refl
  land-agree fpu x (Expr.constant b) s small = refl
  land-agree fpu x (Expr.var k i) s small = refl
  land-agree fpu x y s small = join-agree fpu true x y s small

  lor-agree :
      (fpu : Fpu) (x y : Expr) (s : State)
      → size x + size y ≤ n
      → simplify_lor fpu f x y s ≡ simplify_lor fpu g x y s
  unfolding simplify_lor
  lor-agree fpu (Expr.constant a) y s small = refl
  lor-agree fpu x (Expr.constant b) s small = refl
  lor-agree fpu x (Expr.var k i) s small = refl
  lor-agree fpu x y s small = join-agree fpu false x y s small

  simplify_boolean-agree :
      (fpu : Fpu) (op : Op2) (x y : Expr) (s : State)
      → size x + size y ≤ n
      → simplify_boolean fpu f op x y s ≡ simplify_boolean fpu g op x y s
  unfolding simplify_boolean
  simplify_boolean-agree fpu Op2.land x y s small = land-agree fpu x y s small
  simplify_boolean-agree fpu Op2.lor x y s small = lor-agree fpu x y s small
  simplify_boolean-agree fpu op x y s small = refl

  -- Such rounds serve the compilation of one node more equally.
  mutual
    unfolding compile_round compile_children compile_args size sizes

    round-agree :
        (fpu : Fpu) (e : Expr) (s : State)
        → size e ≤ suc n
        → compile_round fpu f e s ≡ compile_round fpu g e s
    round-agree fpu (Expr.unary k op x) s small = rw (round-agree fpu x s (omega arith)) refl
    round-agree fpu (Expr.binary k op x y) s small =
        let cx = compile_round fpu g x s in
        let cy = compile_round fpu g y cx.2 in
        rw (round-agree fpu x s (omega arith), round-agree fpu y cx.2 (omega arith))
          (ap (binary_end (Expr.binary k op x y) op cx.0 cy.0 (cx.1 || cy.1)) (
            simplify_boolean-agree fpu op cx.0 cy.0 cy.2
              (omega (arith, compile-le fpu g x s, compile-le fpu g y cx.2))))
    round-agree fpu (Expr.mem k op xs) s small = rw (children-agree fpu xs s (omega arith)) refl
    round-agree fpu (Expr.tuple k op xs) s small = rw (children-agree fpu xs s (omega arith)) refl
    round-agree fpu (Expr.call k t a xs) s small = rw (args-agree fpu xs s (omega arith)) refl
    round-agree fpu e s small = refl

    children-agree :
        (fpu : Fpu) (xs : Exprs) (s : State)
        → sizes xs ≤ n
        → compile_children fpu f xs s ≡ compile_children fpu g xs s
    children-agree fpu nil s small = refl
    children-agree fpu (cons x xs) s small =
        let c = compile_round fpu g x s in
        let p = to_var_mem_const c.0 (g c.0) c.2 in
        rw
          (
            round-agree fpu x s (omega arith),
            agree c.0 (omega (arith, compile-le fpu g x s)),
            children-agree fpu xs p.1 (omega arith),
          )
          refl

    args-agree :
        (fpu : Fpu) (xs : Exprs) (s : State)
        → sizes xs ≤ n
        → compile_args fpu f xs s ≡ compile_args fpu g xs s
    args-agree fpu nil s small = refl
    args-agree fpu (cons x xs) s small =
        let here = fun_ext (λ (r : State). round-agree fpu x r (omega arith)) in
        let p = to_var x (λ (r : State). compile_round fpu g x r) s in
        rw (here, args-agree fpu xs p.1 (omega arith)) refl

rounds-IsSteady : (fpu : Fpu) (n : ℕ) → IsSteady (rounds fpu n)
unfolding rounds compile_round
rounds-IsSteady fpu zero e s h = refl
rounds-IsSteady fpu (suc n) Expr.bad s h = refl
rounds-IsSteady fpu (suc n) (Expr.var k i) s h = refl
rounds-IsSteady fpu (suc n) e s h = absurd h

-- Any two numbers of rounds that are no less than the number of nodes answer the same.
rounds-agree :
    (fpu : Fpu) (n m : ℕ) (e : Expr) → size e ≤ n → size e ≤ m → rounds fpu n e ≡ rounds fpu m e
unfolding rounds
rounds-agree fpu zero m e h k = absurd (omega (arith, size-pos e))
rounds-agree fpu (suc n) zero e h k = absurd (omega (arith, size-pos e))
rounds-agree fpu (suc n) (suc m) e h k = fun_ext (λ (s : State).
    round-agree (rounds fpu n) (rounds fpu m) (size e - 1)
      (λ d small. rounds-agree fpu n m d (omega arith) (omega arith)) (rounds-IsSteady fpu n)
      (rounds-IsSteady fpu m) fpu e s (omega arith))

compile_expr-IsSteady : (fpu : Fpu) → IsSteady (compile_expr fpu)
unfolding compile_expr
compile_expr-IsSteady fpu e s h = rounds-IsSteady fpu (size e) e s h

-- The compilation of expressions ends: on as many rounds as the expression has nodes it satisfies
-- the equation of the recursive functions of the source, in which it calls itself without a bound,
-- and every larger number of rounds answers the same.
pub compile_expr_equation :
    (fpu : Fpu) (n : ℕ) (e : Expr) (s : State)
    → size e ≤ n
    → (compile_expr fpu e s ≡ compile_round fpu (compile_expr fpu) e s)
      × (rounds fpu n e s ≡ compile_expr fpu e s)
unfolding compile_expr rounds
compile_expr_equation fpu n e s enough = (
  ap (λ (r : State → Compiled). r s)
        (rounds-agree fpu (size e) (suc (size e)) e (omega arith) (omega arith))
      ∙ round-agree (rounds fpu (size e)) (compile_expr fpu) (size e)
          (λ d small. rounds-agree fpu (size e) (size d) d small (omega arith))
          (rounds-IsSteady fpu (size e)) (compile_expr-IsSteady fpu) fpu e s (omega arith),
  ap (λ (r : State → Compiled). r s) (rounds-agree fpu n (size e) e enough (omega arith)),
)
