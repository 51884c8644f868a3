-- ===== src/Lib.antt =====
-- onejit: a verification library for the core of the just-in-time compiler, of its C++ sources under
-- onestl/ and onejit/.
--
-- The parts and how they interact. The register allocator (onejit/reg/allocator.cpp) colours the
-- interference graph of a function's registers. It works on two graphs (onestl/graph.cpp), which keep
-- their edges in bit sets (onestl/bitset.cpp) and their degrees in arrays (onestl/array.hpp). The
-- folding of constant expressions (onejit/eval.cpp) works on values (onejit/value.cpp), which are 64
-- bits with a kind (onejit/kind.cpp), under the operators of onejit/op.hpp. The compiler
-- (onejit/compiler.cpp) turns the tree of a function's body into a list of portable nodes without
-- structured statements; it asks for new labels and variables (onejit/func.cpp), tests constants
-- with the folding, and adds nodes, whose operators are those of onejit/opstmt0.hpp to
-- onejit/opstmtn.hpp. The flow graph (onejit/flowgraph.cpp) cuts such a list into basic blocks and
-- links them.
--
-- Base holds the shared names, tests and lists. Word is the arithmetic of `uint64_t`, with the wrap
-- written out; Word/Bit and Word/Mask are about single bits.
-- Libc: `ffsl`, a parameter with its documented behaviour, and the fallback of onestl/bitset.cpp.
-- BitSet: `BitSet`. The words are a list, `set`, `find`, `fill`, `resize`, `grow`, `realloc`, `copy`
--   have one function each. Memory is granted or not by a Boolean argument.
-- Array: the part of `Array`, `Span` and `View` that the graph and the allocator use.
-- Graph: `Graph`. `connected` is `operator()`; the other functions have the names of the source.
--   Graph/Adjacency reads the square of bits as a relation, with the invariant that it is symmetric
--   and that degrees count the neighbours, the node itself twice.
-- Allocator: `Allocator`. `simplify` is the two loops of `allocate_regs`, `color_reg` a round of
--   `assign_colors`, `reconnect` and `spare_hints` the loops over neighbours.
-- Bits, Kind, Op: the numbers of bits, kinds and operators with their tables.
-- Float: the floating-point arithmetic of the machine, a parameter.
-- Value: `Value`, its casts and bounds; Value/Operators: the operators on two values.
-- Eval: `is_const`, `eval_const` and the three functions on operators.
-- Imm: the class `Imm::Direct` of onejit/imm.hpp, constants in 32 bits.
-- OpStmt: the operators of statements, with the functions of onejit/opstmt.cpp, and
--   `comparison_to_condjump` of onejit/compiler.cpp.
-- Ir: the nodes of onejit/ir/ as trees, with the tests of onejit/ir/util.cpp; Ir/Placed: where labels
--   stand in a list of nodes, and where its jumps lead.
-- FlowGraph: `FlowGraph::build` and its phases. A pointer to a block is its position.
-- Compiler: `State` is the compiler's lists and stacks with the counters of the function. Assigns has
--   `to_var`, `to_place`, `compile(Assign)` and `compile(JumpIf)`, Expressions the functions on
--   expressions, Statements those on plain statements, Structured `compile(Node)` with If, For,
--   Block, Cond and Switch, Whole `compile(Func)`. In the lemmas a step is a change of the state that
--   places the labels that it makes, and a statement is structured if it has no JumpIf, no Stmt3, no
--   OpStmt2 but assignments, and labels only as the address of a call.
-- Tests: concrete data and the theorems on it.
--
-- Bounds and fuel. `size_t` has 64 bits. A graph has fewer than 2 ^ 31 nodes, and one that is reset or
-- copied fewer than 2 ^ 30, so that the square of its size, and twice a capacity, stay below 2 ^ 61.
-- `find_words` has the number of words as fuel, one for each round. `remove_loop` counts the degree
-- down, as the source does. `simplify`, `reconnect` and `spare_hints` have the number of registers as
-- fuel: a round of the first takes a register off the graph, and a round of the others goes on to a
-- higher register. Undefined behaviour of C++ in the folding (division by 0, shifts by 64 or more,
-- kinds wider than 64 bits) is a missing result. `recurse` of Imm has fuel for the 9 rotations with two
-- masks each that the source tries, and a rotation by 64 shifts as the machine does, by 0.
-- The compilation of an expression compiles operands that it has compiled already a second time; those
-- calls go through a number of rounds, of which `compile_expr` takes as many as the expression has
-- nodes. What is compiled again is always smaller than the expression.
-- `build_basicblocks` has the number of nodes as fuel, one for each block.
--
-- Nodes have no identity here. The source asks whether a compiled node is the same node as before;
-- the model keeps the answer as a Boolean. An assignment of a memory cell to itself, with one node on
-- both sides, is rebuilt like any other, where the source adds the node as it is.
--
-- Not modelled: `swap`, moves and destruction of the containers, since they only exchange or free whole
-- objects; text input and output; out of memory in the compiler and in the flow graph, and the test at the
-- start of the compilation whether the function is compiled already; the code buffer that keeps the
-- nodes, and the optimizer, whose answer is the body that is compiled here; the compilers
-- for MIR and x64 and their assemblers; the Go implementation under go/, a separate program.
pub mod Base
pub mod Word
pub mod Libc
pub mod Array
pub mod BitSet
pub mod Graph
pub mod Allocator
pub mod Bits
pub mod Float
pub mod Kind
pub mod Op
pub mod Value
pub mod Eval
pub mod Imm
pub mod OpStmt
pub mod Ir
pub mod FlowGraph
pub mod Compiler
pub mod Tests
