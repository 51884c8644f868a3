-- ===== src/Ir.antt =====
-- The nodes of the intermediate representation, as in onejit/ir/: expressions and statements
-- with the children that their classes read, and the tests of onejit/ir/util.cpp. `bad` is an
-- invalid node, such as `Label{}` or `Var{}`.
pub mod Placed
use onejit.Base.{ℕ, Bool, true, false, ◌==◌, leb, ◌&&◌, ◌||◌, if◌then◌else◌, List, [], ◌∷◌}
use onejit.Kind
use onejit.Kind.{Kind, scalar, void, bool}
use onejit.Op
use onejit.Op.{Op1, Op2, OpN}
use onejit.OpStmt
use onejit.OpStmt.{OpStmt0, OpStmt1, OpStmt2, OpStmt3, OpStmtN}
use onejit.Value.{Value, of_truth}

-- The kinds of the parameters and of the results
pub record FuncType : Type 0 where
  pub params : List Kind
  pub results : List Kind

mutual
  pub data Expr : Type 0 where
    bad : Expr
    var : Kind → ℕ → Expr
    mem : Kind → OpN → Exprs → Expr
    unary : Kind → Op1 → Expr → Expr
    binary : Kind → Op2 → Expr → Expr → Expr
    tuple : Kind → OpN → Exprs → Expr
    call : Kind → FuncType → Expr → Exprs → Expr
    label : ℕ → Expr
    constant : Value → Expr

  pub data Exprs : Type 0 where
    nil : Exprs
    cons : Expr → Exprs → Exprs

-- `stmt2` is a Stmt2 other than Case, Default and JumpIf; `stmt_n` a StmtN with expressions.
mutual
  pub data Node : Type 0 where
    expr : Expr → Node
    stmt0 : OpStmt0 → Node
    stmt1 : OpStmt1 → Expr → Node
    stmt2 : OpStmt2 → Expr → Expr → Node
    case_of : Expr → Node → Node
    default_of : Node → Node
    jump_if : Expr → Expr → Node
    stmt3 : OpStmt3 → Expr → Expr → Expr → Node
    if_else : Expr → Node → Node → Node
    for_loop : Node → Expr → Node → Node → Node
    assign_call : Exprs → Expr → Node
    block : Nodes → Node
    cond : Nodes → Node
    return_of : Exprs → Node
    switch : Expr → Nodes → Node
    stmt_n : OpStmtN → Exprs → Node

  pub data Nodes : Type 0 where
    none : Nodes
    some : Node → Nodes → Nodes

abbrev pub goto_op : OpStmt1
goto_op = OpStmt1.goto

-- The kind in the header of a node
unfoldable pub kind_of : Expr → Kind
kind_of bad = scalar Kind.bad
kind_of (var k i) = k
kind_of (mem k op xs) = k
kind_of (unary k op x) = k
kind_of (binary k op x y) = k
kind_of (tuple k op xs) = k
kind_of (call k t a xs) = k
kind_of (label l) = scalar void
kind_of (constant v) = v.kind

-- `Unary::create` with the kind found by itself
unfoldable pub make_unary : Op1 → Expr → Expr
unfolding kind_of
make_unary Op1.not1 x = unary (scalar bool) Op1.not1 x
make_unary op x = unary (kind_of x) op x

-- `Binary::create`
unfoldable pub binary_kind : Op2 → Expr → Kind
unfolding Op.code2 kind_of
binary_kind Op2.bad2 x = scalar Kind.bad
binary_kind op x =
    if leb (Op.code2 op) (Op.code2 Op2.shr)
    then kind_of x
    else if leb (Op.code2 op) (Op.code2 Op2.geq)
    then scalar bool
    else scalar Kind.bad

unfoldable pub make_binary : Op2 → Expr → Expr → Expr
make_binary op x y = binary (binary_kind op x) op x y

-- `Call::create`: the kind is that of the first parameter.
unfoldable pub call_kind : List Kind → Kind
call_kind [] = scalar void
call_kind (k ∷ ks) = k

unfoldable pub make_call : FuncType → Expr → Exprs → Expr
unfolding call_kind
make_call t address args = call (call_kind t.params) t address args

abbrev pub void_const : Expr
void_const = constant (record { kind = scalar void; bits = 0 })

-- `Zero`
abbrev pub zero_of : Kind → Expr
zero_of k = constant (record { kind = k; bits = 0 })

abbrev pub truth_of : Bool → Expr
truth_of b = constant (of_truth b)

-- Whether the node is the constant `VoidConst`
unfoldable pub is_void : Expr → Bool
unfolding Kind.same Kind.val Kind.code
is_void (constant v) = Kind.same v.kind (scalar void) && (v.bits == 0)
is_void e = false

abbrev pub is_valid : Expr → Bool
is_valid bad = false
is_valid e = true

-- `is<Var>()`, `is<Const>()`, `is<Label>()`, `is<Mem>()` as tests
abbrev pub is_var : Expr → Bool
is_var (var k i) = true
is_var e = false

abbrev pub is_constant : Expr → Bool
is_constant (constant v) = true
is_constant e = false

abbrev pub is_label : Expr → Bool
is_label (label l) = true
is_label e = false

-- `children_are<Var>`
unfoldable pub are_vars : Exprs → Bool
are_vars nil = true
are_vars (cons x xs) = is_var x && are_vars xs

-- `ir::is_return`, `ir::is_uncond_jump`, `ir::is_cond_jump` and `ir::jump_label`
unfoldable pub is_return : Node → Bool
unfolding OpStmt.is_return_op
is_return (return_of xs) = true
is_return (stmt_n op xs) = OpStmt.is_return_op op
is_return n = false

unfoldable pub is_uncond_jump : Node → Bool
unfolding is_return OpStmt.is_return_op
is_uncond_jump (stmt1 OpStmt1.goto e) = true
is_uncond_jump (stmt1 OpStmt1.mir_jmp e) = true
is_uncond_jump (stmt1 OpStmt1.x86_jmp e) = true
is_uncond_jump n = is_return n

unfoldable pub is_cond_jump : Node → Bool
is_cond_jump (stmt1 OpStmt1.x86_ja e) = true
is_cond_jump (stmt1 OpStmt1.x86_jae e) = true
is_cond_jump (stmt1 OpStmt1.x86_jb e) = true
is_cond_jump (stmt1 OpStmt1.x86_jbe e) = true
is_cond_jump (stmt1 OpStmt1.x86_je e) = true
is_cond_jump (stmt1 OpStmt1.x86_jg e) = true
is_cond_jump (stmt1 OpStmt1.x86_jge e) = true
is_cond_jump (stmt1 OpStmt1.x86_jl e) = true
is_cond_jump (stmt1 OpStmt1.x86_jne e) = true
is_cond_jump (stmt1 OpStmt1.x86_jno e) = true
is_cond_jump (stmt1 OpStmt1.x86_jnp e) = true
is_cond_jump (stmt1 OpStmt1.x86_jns e) = true
is_cond_jump (stmt1 OpStmt1.x86_jo e) = true
is_cond_jump (stmt1 OpStmt1.x86_jp e) = true
is_cond_jump (stmt1 OpStmt1.x86_js e) = true
is_cond_jump (jump_if to test) = true
is_cond_jump (stmt2 OpStmt2.x86_xbegin d s) = true
is_cond_jump (stmt3 OpStmt3.asm_ja l x y) = true
is_cond_jump (stmt3 OpStmt3.asm_jae l x y) = true
is_cond_jump (stmt3 OpStmt3.asm_jb l x y) = true
is_cond_jump (stmt3 OpStmt3.asm_jbe l x y) = true
is_cond_jump (stmt3 OpStmt3.asm_je l x y) = true
is_cond_jump (stmt3 OpStmt3.asm_jg l x y) = true
is_cond_jump (stmt3 OpStmt3.asm_jge l x y) = true
is_cond_jump (stmt3 OpStmt3.asm_jl l x y) = true
is_cond_jump (stmt3 OpStmt3.asm_jne l x y) = true
is_cond_jump n = false

unfoldable pub is_jump : Node → Bool
is_jump n = is_uncond_jump n || is_cond_jump n

-- `child_is<Label>(0)`; the statements whose first child is a statement or a list have none here.
unfoldable pub first_child : Node → Expr
first_child (stmt1 op e) = e
first_child (stmt2 op d s) = d
first_child (case_of e b) = e
first_child (jump_if to test) = to
first_child (stmt3 op l x y) = l
first_child (if_else t a b) = t
first_child n = bad

unfoldable pub jump_label : Node → Expr
unfolding first_child
jump_label n = if is_label (first_child n) then first_child n else bad
