-- ===== src/Compiler/Gaps.antt =====
-- Conditional jumps, loops, blocks and casts for which onejit/compiler.cpp has no proper answer.
use onejit.Base.{ℕ, suc, true, false, if◌then◌else◌, ◌≡◌, ◌≢◌, refl, ap, ◌∙◌, arith, ◌⊎◌, inl, inr}
use onejit.Kind
use onejit.Kind.{Kind, scalar}
use onejit.Op.{Op1, Op2}
use onejit.OpStmt
use onejit.OpStmt.{OpStmt3}
use onejit.Float.{Fpu}
use onejit.Value.{Value}
use onejit.Ir
use onejit.Ir.{Expr, Exprs, Node, Nodes, kind_of, make_unary}
use onejit.Compiler.{State, add}
use onejit.Compiler.Rounds.{compile_expr_equation}
use onejit.Compiler.Assigns.{Compiled, jump_if, jump_test, emit_jump, strip_not, test_parts}
use onejit.Compiler.Expressions.{
  compile_expr, size, compile_round, rounds, simplify_boolean, simplify_land, simplify_lor,
}
use onejit.Compiler.Statements.{compile_jump_if}
use onejit.Compiler.Structured.{Part, compile_for, constant_test, compile_node, compile_block}

-- A JumpIf on the conjunction or the disjunction of two variables is compiled to a statement with
-- the operator BAD_ST3, whatever the variables and the state.
pub compile_jump_if-bad :
    (fpu : Fpu) (to : Expr) (op : Op2) (k l m : Kind) (i j : ℕ) (s : State)
    → (op ≡ Op2.land) ⊎ (op ≡ Op2.lor)
    → compile_jump_if fpu to (Expr.binary k op (Expr.var l i) (Expr.var m j)) s
      ≡ add (Node.stmt3 OpStmt3.bad_st3 to (Expr.var l i) (Expr.var m j)) s
unfolding compile_jump_if jump_if jump_test emit_jump strip_not test_parts compile_expr
    compile_round rounds simplify_boolean simplify_land simplify_lor OpStmt.comparison_to_condjump
compile_jump_if-bad fpu to op k l m i j s (inl e) = rw e refl
compile_jump_if-bad fpu to op k l m i j s (inr e) = rw e refl

-- A For whose test is a constant of a kind other than Void is compiled to its first part alone,
-- also where the constant is true.
pub compile_for-constant :
    (fpu : Fpu) (v : Value) (init body post : Part) (s : State)
    → Kind.same v.kind (scalar Kind.void) ≡ false
    → compile_for fpu (Expr.constant v) init body post s ≡ init s
unfolding compile_for constant_test Ir.is_void
compile_for-constant fpu v init body post s h = rw h refl

-- A label that stands in a Block is compiled to nothing.
pub compile_block-label :
    (fpu : Fpu) (results : Exprs) (l : ℕ) (ns : Nodes) (s : State)
    → compile_block fpu results (Nodes.some (Node.expr (Expr.label l)) ns) s
      ≡ compile_block fpu results ns s
unfolding compile_block compile_node compile_expr compile_round rounds
compile_block-label fpu results l ns s = refl

kind_of-remade :
    (k : Kind) (op : Op1) (x : Expr) (c : Compiled)
    → op ≢ Op1.not1
    → c.1 ≡ true
    → kind_of (if c.1 then make_unary op c.0 else Expr.unary k op x) ≡ kind_of c.0
unfolding make_unary kind_of
kind_of-remade k Op1.not1 x c h changed = absurd (h refl)
kind_of-remade k op x c h changed = rw changed refl

-- The operand of an expression is compiled on one round more than it needs.
operand-eq :
    (fpu : Fpu) (x : Expr) (s : State)
    → compile_round fpu (rounds fpu (size x)) x s ≡ compile_expr fpu x s
unfolding rounds
operand-eq fpu x s = (compile_expr_equation fpu (suc (size x)) x s (omega arith)).1

-- A Cast or Bitcopy whose operand changes when it is compiled gets the kind of the operand,
-- whatever its own kind.
pub compile_expr-cast :
    (fpu : Fpu) (k : Kind) (op : Op1) (x : Expr) (s : State)
    → (op ≡ Op1.cast) ⊎ (op ≡ Op1.bitcopy)
    → (compile_expr fpu x s).1 ≡ true
    → kind_of (compile_expr fpu (Expr.unary k op x) s).0 ≡ kind_of (compile_expr fpu x s).0
unfolding compile_expr rounds compile_round size
compile_expr-cast fpu k op x s h changed =
    let c = compile_round fpu (rounds fpu (size x)) x s in
    let same = operand-eq fpu x s in
    kind_of-remade k op x c (λ e. elim h [ inl cast ↦ cc | inr copied ↦ cc ])
      (ap (λ (d : Compiled). d.1) same ∙ changed)
    ∙ ap (λ (d : Compiled). kind_of d.0) same
