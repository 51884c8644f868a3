-- ===== src/Compiler.antt =====
-- The state of the compiler of onejit/compiler.hpp and onejit/compiler.cpp, with the counters of
-- the function that it compiles (onejit/func.cpp), and the operations on it: labels, variables,
-- the nodes and the errors that it adds, and the stacks of the enclosing loops and cases.
pub mod Assigns
pub mod Expressions
pub mod Statements
pub mod Structured
pub mod Whole
pub mod Names
pub mod Sizes
pub mod Rounds
pub mod Ledger
pub mod Jumps
pub mod Operands
pub mod Steps
pub mod Enclose
pub mod Simple
pub mod Nested
pub mod Cases
pub mod Switches
pub mod Placing
pub mod Closed
pub mod Gaps
use onejit.Base.{
  ℕ, zero, suc, ◌+◌, ◌-◌, ◌≤◌, ◌<◌, ◌==◌, leb, ltb, Bool, true, false, not, ◌&&◌, ◌||◌,
  if◌then◌else◌, List, [], ◌∷◌, ◌++◌, length,
}
use onejit.Kind
use onejit.Kind.{Kind, scalar, void}
use onejit.Ir
use onejit.Ir.{Expr, Node}

pub data Message : Type 0 where
  misplaced_break misplaced_continue misplaced_fallthrough bad_stmt0 : Message
  misplaced_case misplaced_default odd_cond wrong_number_of_results wrong_kind_of_result : Message
  unexpected_node_in_switch duplicate_default : Message

-- `Error`: a node and a text
pub record Error : Type 0 where
  pub where_ : Node
  pub message : Message

-- The stacks have their top in front. `label_n` and `var_n` are the sizes of the function's
-- `labels_` and `vars_`; `undefined` says that a constant was folded with undefined behaviour.
pub record State : Type 0 where
  pub nodes : List Node
  pub errors : List Error
  pub breaks : List Expr
  pub continues : List Expr
  pub fallthroughs : List Expr
  pub label_n : ℕ
  pub var_n : ℕ
  pub undefined : Bool

-- `Func::new_label`: an index has 16 bits.
unfoldable pub new_label : State → Expr × State
new_label s =
    if leb s.label_n 0xFFFF
    then (Expr.label s.label_n, record s { label_n = s.label_n + 1 })
    else (Expr.bad, s)

abbrev pub first_id : ℕ
first_id = 0x1000

-- `Func::new_var`: an identifier has 24 bits; variables of kind Void have identifier 0.
unfoldable pub new_var : Kind → State → Expr × State
unfolding Kind.same Kind.val Kind.code
new_var k s =
    if Kind.same k (scalar Kind.bad)
    then (Expr.bad, s)
    else if Kind.same k (scalar void)
    then (Expr.var k 0, record s { var_n = s.var_n + 1 })
    else if leb (s.var_n + first_id) 0xFFFFFF
    then (Expr.var k (s.var_n + first_id), record s { var_n = s.var_n + 1 })
    else (Expr.bad, s)

abbrev pub is_void_node : Node → Bool
is_void_node (Node.expr e) = Ir.is_void e
is_void_node n = false

-- `add`: the constant `VoidConst` is left out.
unfoldable pub add : Node → State → State
add n s = if is_void_node n then s else record s { nodes = s.nodes ++ n ∷ [] }

unfoldable pub error : Node → Message → State → State
error n m s = record s { errors = s.errors ++ (record { where_ = n; message = m }) ∷ [] }

unfoldable pub goto : Expr → State → State
goto to s = add (Node.stmt1 Ir.goto_op to) s

abbrev pub top : List Expr → Expr
top [] = Expr.bad
top (l ∷ ls) = l

abbrev pub pop : List Expr → List Expr
pop [] = []
pop (l ∷ ls) = ls

-- `label_break`, `label_continue` and `label_fallthrough`
unfoldable pub label_break : State → Expr
label_break s = top s.breaks

unfoldable pub label_continue : State → Expr
label_continue s = top s.continues

unfoldable pub label_fallthrough : State → Expr
label_fallthrough s = top s.fallthroughs

unfoldable pub enter_case : Expr → Expr → State → State
enter_case l_break l_fallthrough s = record s {
  breaks = l_break ∷ s.breaks;
  fallthroughs = l_fallthrough ∷ s.fallthroughs;
}

unfoldable pub exit_case : State → State
exit_case s = record s { breaks = pop s.breaks; fallthroughs = pop s.fallthroughs }

unfoldable pub enter_loop : Expr → Expr → State → State
enter_loop l_break l_continue s = record s {
  breaks = l_break ∷ s.breaks;
  continues = l_continue ∷ s.continues;
}

unfoldable pub exit_loop : State → State
exit_loop s = record s { breaks = pop s.breaks; continues = pop s.continues }
