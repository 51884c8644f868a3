-- ===== src/Tests/Compiling.antt =====
-- The theorems on statements, flow graphs and the compiler, at a small function.
use onejit.Base.{
  ℕ, ◌+◌, ◌≤◌, true, false, List, [], ◌∷◌, get_or, ◌≡◌, ◌≢◌, ◌⊎◌, refl, ◌↔◌, some, inl, ◌&&◌, arith,
}
use onejit.Kind
use onejit.Kind.{Kind, scalar}
use onejit.Op
use onejit.Op.{Op1, Op2, OpN}
use onejit.OpStmt
use onejit.OpStmt.{
  OpStmt2, OpStmt0, OpStmt1, OpStmt3, OpStmtN, negate_condjump, comparison_to_condjump,
}
use onejit.OpStmt.Negate.{to_op-to_assign_op, is_below, negate_condjump-comparison_to_condjump}
use onejit.Ir
use onejit.Ir.{Expr, Exprs, nil, cons, Node, Nodes, void_const}
use onejit.Tests.Folding.{flat_fpu}
use onejit.Ir.Placed.{target, count_label}
use onejit.FlowGraph.{
  FlowGraph, build, link_blocks, build_basicblocks, linked, failed, invalid_label, cells_of,
  links_to, last,
}
use onejit.FlowGraph.Blocks.{flatten, AreBasic, build_basicblocks_partition}
use onejit.FlowGraph.Build.{build-room}
use onejit.FlowGraph.Failed.{Among, build-failed}
use onejit.FlowGraph.Edges.{IsLink, build-next}
use onejit.FlowGraph.Converse.{build-prev}
use onejit.Compiler.{State, add, new_label, enter_loop, exit_loop, label_break, goto}
use onejit.Compiler.Assigns.{jump_if, strip_not, test_parts, jump_test, emit_jump}
use onejit.Compiler.Expressions.{
  compile_expr, size, call_end, compile_round, rounds, simplify_boolean,
}
use onejit.Compiler.Statements.{compile_jump_if, compile_stmt0, compile_stmt1, count}
use onejit.Compiler.Structured.{
  compile_add, compile_node, compile_for, loop, compile_if, if_test, if_branches, constant_test,
}
use onejit.Compiler.Whole.{Func, compile_func, start, add_prologue, add_epilogue, ends_in_return}
use onejit.Compiler.Jumps.{NoLabel}
use onejit.Compiler.Placing.{IsStructured}
use onejit.Compiler.Ledger.{IsStep}
use onejit.Compiler.Closed.{
  compile_add-IsStep, IsComplete, compile_func-IsComplete, compile_func-build,
}
use onejit.Compiler.Rounds.{compile_expr_equation}
use onejit.Compiler.Gaps.{compile_jump_if-bad, compile_expr-cast}

abbrev flag : Expr
flag = Expr.var (scalar Kind.bool) 0x1000

abbrev limit : Expr
limit = Expr.var (scalar Kind.int32) 0x1001

abbrev counter : Expr
counter = Expr.var (scalar Kind.int32) 0x1002

-- for (; counter < limit; counter++) { if (flag) break; }
abbrev sample : Node
sample =
    Node.for_loop (Node.expr void_const) (Expr.binary (scalar Kind.bool) Op2.lss counter limit)
      (Node.stmt1 OpStmt1.inc counter)
      (Node.if_else flag (Node.stmt0 OpStmt0.break) (Node.expr void_const))

abbrev sample_func : Func
sample_func = record {
  params = cons flag (cons limit nil);
  results = cons counter nil;
  label_n = 1;
  var_n = 3;
}

-- What the compiler makes of the function
compile_func-sample :
    (compile_func flat_fpu sample_func sample).nodes
    ≡ Node.expr (Expr.label 0)
      ∷ Node.stmt_n OpStmtN.set_op (cons flag (cons limit nil))
      ∷ Node.stmt1 OpStmt1.goto (Expr.label 2)
      ∷ Node.expr (Expr.label 1)
      ∷ Node.stmt3 OpStmt3.asm_je (Expr.label 4) flag (Ir.zero_of (scalar Kind.bool))
      ∷ Node.stmt1 OpStmt1.goto (Expr.label 3)
      ∷ Node.expr (Expr.label 4)
      ∷ Node.stmt1 OpStmt1.inc counter
      ∷ Node.expr (Expr.label 2)
      ∷ Node.stmt3 OpStmt3.asm_jl (Expr.label 1) counter limit
      ∷ Node.expr (Expr.label 3)
      ∷ Node.return_of (cons counter nil)
      ∷ []
unfolding compile_func add_epilogue ends_in_return compile_add add compile_node Ir.is_void
    compile_for loop new_label compile_expr size rounds compile_round add_prologue count start
    compile_jump_if jump_if strip_not test_parts jump_test emit_jump comparison_to_condjump
    negate_condjump enter_loop exit_loop compile_if if_test if_branches compile_stmt0 compile_stmt1
    label_break goto constant_test Ir.make_unary Ir.kind_of Kind.is_signed Kind.same Kind.val
    Kind.code Ir.is_return simplify_boolean
compile_func-sample = refl

sample-IsStructured : IsStructured sample
unfolding IsStructured NoLabel
sample-IsStructured = ((tt, tt), tt, tt, (tt, tt, tt))

compile_func-IsComplete_example : IsComplete (compile_func flat_fpu sample_func sample)
compile_func-IsComplete_example =
    compile_func-IsComplete flat_fpu sample_func sample refl sample-IsStructured

compile_func-build_example :
    (g : FlowGraph) × (build (compile_func flat_fpu sample_func sample).nodes ≡ linked g)
compile_func-build_example = compile_func-build flat_fpu sample_func sample refl sample-IsStructured

compile_add-IsStep_example :
    IsStep (start sample_func) (compile_add flat_fpu nil sample (start sample_func))
compile_add-IsStep_example =
    compile_add-IsStep flat_fpu nil sample (start sample_func) sample-IsStructured

-- counter < limit && !flag
abbrev guarded : Expr
guarded =
    Expr.binary (scalar Kind.bool) Op2.land (Expr.binary (scalar Kind.bool) Op2.lss counter limit)
      (Expr.unary (scalar Kind.bool) Op1.not1 flag)

-- A function that has no identifiers left for new variables
abbrev crowded : State
crowded = start (record sample_func { var_n = 0xFFFFFF })

guarded-size : size guarded ≤ 7
unfolding size
guarded-size = omega arith

compile_expr_equation_example :
    (compile_expr flat_fpu guarded crowded
      ≡ compile_round flat_fpu (compile_expr flat_fpu) guarded crowded)
    × (rounds flat_fpu 7 guarded crowded ≡ compile_expr flat_fpu guarded crowded)
compile_expr_equation_example = compile_expr_equation flat_fpu 7 guarded crowded guarded-size

-- A call into a new variable
abbrev called : Expr
called = Expr.call (scalar Kind.int32) (record { params = []; results = [] }) (Expr.label 0) nil

called-changes : (compile_expr flat_fpu called (start sample_func)).1 ≡ true
unfolding compile_expr size rounds compile_round call_end
called-changes = refl

compile_expr-cast_example :
    Ir.kind_of
      (compile_expr flat_fpu (Expr.unary (scalar Kind.int64) Op1.cast called) (start sample_func)).0
    ≡ Ir.kind_of (compile_expr flat_fpu called (start sample_func)).0
compile_expr-cast_example =
    compile_expr-cast flat_fpu (scalar Kind.int64) Op1.cast called (start sample_func) (inl refl)
      called-changes

compile_jump_if-bad_example :
    compile_jump_if flat_fpu
      (Expr.label 0)
      (Expr.binary
        (scalar Kind.bool)
        Op2.land
        (Expr.var (scalar Kind.bool) 0x1000)
        (Expr.var (scalar Kind.bool) 0x1003))
      (start sample_func)
    ≡ add
        (Node.stmt3 OpStmt3.bad_st3
          (Expr.label 0)
          (Expr.var (scalar Kind.bool) 0x1000)
          (Expr.var (scalar Kind.bool) 0x1003))
        (start sample_func)
compile_jump_if-bad_example =
    compile_jump_if-bad flat_fpu (Expr.label 0) Op2.land (scalar Kind.bool) (scalar Kind.bool)
      (scalar Kind.bool) 0x1000 0x1003 (start sample_func) (inl refl)

shl-is_assign : OpStmt.is_assign OpStmt2.shl_assign ≡ true
unfolding OpStmt.is_assign
shl-is_assign = refl

shl-plain : OpStmt2.shl_assign ≢ OpStmt2.assign
shl-plain h = cc

to_op-to_assign_op_example :
    ((OpStmt.assign_of_op2 (OpStmt.to_op2 OpStmt2.shl_assign) ≡ OpStmt2.shl_assign)
      × (OpStmt.to_opn OpStmt2.shl_assign ≡ OpN.badn))
    ⊎ ((OpStmt.assign_of_opn (OpStmt.to_opn OpStmt2.shl_assign) ≡ OpStmt2.shl_assign)
        × (OpStmt.to_op2 OpStmt2.shl_assign ≡ Op2.bad2))
to_op-to_assign_op_example = to_op-to_assign_op OpStmt2.shl_assign shl-is_assign shl-plain

geq-is_comparison : Op.is_comparison Op2.geq ≡ true
unfolding Op.is_comparison
geq-is_comparison = refl

negate_condjump-comparison_to_condjump_example :
    (negate_condjump (comparison_to_condjump Op2.geq true)
      ≡ comparison_to_condjump (Op.not_comparison Op2.geq) true)
    ↔ ((true && is_below Op2.geq) ≡ false)
negate_condjump-comparison_to_condjump_example =
    negate_condjump-comparison_to_condjump Op2.geq true geq-is_comparison

-- A loop that ends, and what follows it
abbrev looping : List Node
looping =
    Node.expr (Expr.label 1)
    ∷ Node.stmt3 OpStmt3.asm_je (Expr.label 3) counter limit
    ∷ Node.stmt1 OpStmt1.goto (Expr.label 1)
    ∷ Node.expr (Expr.label 3)
    ∷ Node.return_of nil
    ∷ []

abbrev looping_graph : FlowGraph
looping_graph = record {
  blocks =
      (Node.expr (Expr.label 1) ∷ Node.stmt3 OpStmt3.asm_je (Expr.label 3) counter limit ∷ [])
      ∷ (Node.stmt1 OpStmt1.goto (Expr.label 1) ∷ [])
      ∷ (Node.expr (Expr.label 3) ∷ Node.return_of nil ∷ [])
      ∷ [];
  next = (1 ∷ 2 ∷ []) ∷ (0 ∷ []) ∷ [] ∷ [];
  prev = (1 ∷ []) ∷ (0 ∷ []) ∷ (0 ∷ []) ∷ [];
  label_n = 4;
  link_n = 12;
}

looping-build : build looping ≡ linked looping_graph
unfolding build link_blocks Ir.is_uncond_jump Ir.is_cond_jump Ir.jump_label
looping-build = refl

first-last :
    last (get_or looping_graph.blocks 0 [])
    ≡ some (Node.stmt3 OpStmt3.asm_je (Expr.label 3) counter limit)
unfolding last
first-last = refl

first-links : links_to 2 (get_or looping_graph.next 0 []) ≡ true
unfolding links_to
first-links = refl

lonely-build :
    build (Node.stmt1 OpStmt1.goto (Expr.label 5) ∷ [])
    ≡ failed (Node.stmt1 OpStmt1.goto (Expr.label 5)) invalid_label
unfolding build link_blocks Ir.is_uncond_jump Ir.is_cond_jump Ir.jump_label
lonely-build = refl

build_basicblocks_partition_example :
    (flatten (build_basicblocks 5 looping 0 0).0 ≡ looping)
    × AreBasic (build_basicblocks 5 looping 0 0).0
build_basicblocks_partition_example = build_basicblocks_partition 5 looping (omega arith)

build-room_example :
    looping_graph.label_n + cells_of looping_graph.next + cells_of looping_graph.prev
    ≤ looping_graph.link_n
build-room_example = build-room looping looping_graph looping-build

build-next_example :
    IsLink looping_graph.blocks (Node.stmt3 OpStmt3.asm_je (Expr.label 3) counter limit) 0 2
build-next_example =
    build-next looping looping_graph 0 2 (Node.stmt3 OpStmt3.asm_je (Expr.label 3) counter limit)
      looping-build (omega arith) first-last first-links

build-prev_example :
    links_to 0 (get_or looping_graph.prev 2 []) ≡ links_to 2 (get_or looping_graph.next 0 [])
build-prev_example = build-prev looping looping_graph 0 2 looping-build (omega arith)

build-failed_example :
    Among (Node.stmt1 OpStmt1.goto (Expr.label 5)) (Node.stmt1 OpStmt1.goto (Expr.label 5) ∷ [])
    × ((l : ℕ) × (target (Node.stmt1 OpStmt1.goto (Expr.label 5)) ≡ Expr.label l)
        × (count_label l (Node.stmt1 OpStmt1.goto (Expr.label 5) ∷ []) ≡ 0))
build-failed_example =
    build-failed (Node.stmt1 OpStmt1.goto (Expr.label 5) ∷ [])
      (Node.stmt1 OpStmt1.goto (Expr.label 5)) invalid_label lonely-build
