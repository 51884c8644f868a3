-- ===== src/Compiler/Whole.antt =====
-- The compilation of a whole function in onejit/compiler.cpp: prologue, body, epilogue and the
-- node that is stored. The body is the one that the optimizer answers.
use onejit.Base.{ℕ, ◌==◌, ltb, Bool, false, ◌||◌, if◌then◌else◌, List, [], ◌∷◌}
use onejit.OpStmt.{OpStmtN}
use onejit.Float.{Fpu}
use onejit.Ir
use onejit.Ir.{Expr, Exprs, Node, Nodes, void_const}
use onejit.Compiler.{State, add}
use onejit.Compiler.Statements.{count}
use onejit.Compiler.Structured.{compile_add}

-- The function that is compiled: the variables of its parameters and of its results, which come
-- first among its variables, and the numbers of its labels and variables
pub record Func : Type 0 where
  pub params : Exprs
  pub results : Exprs
  pub label_n : ℕ
  pub var_n : ℕ

unfoldable pub start : Func → State
start f = record {
  nodes = [];
  errors = [];
  breaks = [];
  continues = [];
  fallthroughs = [];
  label_n = f.label_n;
  var_n = f.var_n;
  undefined = false;
}

-- The label with index 0 is the address of the function.
unfoldable pub add_prologue : Func → State → State
add_prologue f s =
    let s1 = add (Node.expr (Expr.label 0)) s in
    if count f.params == 0 || ltb f.var_n (count f.params)
    then s1
    else add (Node.stmt_n OpStmtN.set_op f.params) s1

unfoldable pub ends_in_return : List Node → Bool
ends_in_return [] = false
ends_in_return (n ∷ []) = Ir.is_return n
ends_in_return (n ∷ m ∷ ns) = ends_in_return (m ∷ ns)

unfoldable pub add_epilogue : Func → State → State
add_epilogue f s = if ends_in_return s.nodes then s else add (Node.return_of f.results) s

abbrev pub all_nodes : List Node → Nodes
all_nodes [] = Nodes.none
all_nodes (n ∷ ns) = Nodes.some n (all_nodes ns)

-- The node that `finish` stores
unfoldable pub finish : List Node → Node
finish [] = Node.expr void_const
finish (n ∷ []) = n
finish (n ∷ m ∷ ns) = Node.block (all_nodes (n ∷ m ∷ ns))

unfoldable pub compile_func : Fpu → Func → Node → State
compile_func fpu f body = add_epilogue f (compile_add fpu f.results body (add_prologue f (start f)))
