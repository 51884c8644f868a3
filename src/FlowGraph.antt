-- ===== src/FlowGraph.antt =====
-- The flow graph of onejit/flowgraph.cpp and onejit/basicblock.hpp: the nodes cut into basic
-- blocks, and the links between them. A block is the list of its nodes, a pointer to a block its
-- position, and a span of `links_` the list of the cells that were written for it.
pub mod Blocks
pub mod Labels
pub mod Room
pub mod Build
pub mod Closed
pub mod Failed
pub mod Edges
pub mod Converse
use onejit.Base.{
  ℕ, zero, suc, ◌+◌, ◌*◌, max, ltb, leb, ◌==◌, Bool, true, false, not, ◌&&◌, ◌||◌, if◌then◌else◌,
  Option, none, some, List, [], ◌∷◌, ◌++◌, length, get_or, set, replicate,
}
use onejit.Ir
use onejit.Ir.{Expr, Node}

abbrev pub Block : Type 0
Block = List Node

unfoldable pub is_label : Node → Bool
is_label (Node.expr e) = Ir.is_label e
is_label n = false

-- The index of a label
abbrev pub index : Node → ℕ
index (Node.expr (Expr.label l)) = l
index n = 0

-- The two inner loops of `build_basicblocks`: the labels in front, then the nodes up to a label
-- or through a jump, with what they add to `jumps`, and the nodes that are left.
unfoldable pub take_labels : List Node → List Node × List Node
unfolding is_label
take_labels [] = ([], [])
take_labels (n ∷ ns) =
    let rest = take_labels ns in if is_label n then (n ∷ rest.0, rest.1) else ([], n ∷ ns)

abbrev pub ends_here : List Node → ℕ
ends_here [] = 1
ends_here (n ∷ ns) = 2

unfoldable pub take_body : List Node → List Node × ℕ × List Node
unfolding is_label
take_body [] = ([], 0, [])
take_body (n ∷ ns) =
    let rest = take_body ns in
    if is_label n
    then ([], 1, n ∷ ns)
    else if Ir.is_uncond_jump n
    then (n ∷ [], 1, ns)
    else if Ir.is_cond_jump n
    then (n ∷ [], ends_here ns, ns)
    else (n ∷ rest.0, rest.1, rest.2)

unfoldable pub max_label : ℕ → List Node → ℕ
max_label m [] = m
max_label m (n ∷ ns) = max_label (max m (index n)) ns

-- The outer loop of `build_basicblocks`, on fuel: the blocks, `label_max` and `jumps`
unfoldable pub build_basicblocks : ℕ → List Node → ℕ → ℕ → List Block × ℕ × ℕ
unfolding take_labels take_body max_label
build_basicblocks zero ns label_max jumps = ([], label_max, jumps)
build_basicblocks (suc fuel) [] label_max jumps = ([], label_max, jumps)
build_basicblocks (suc fuel) (n ∷ ns) label_max jumps =
    let labels = take_labels (n ∷ ns) in
    let body = take_body labels.1 in
    let rest = build_basicblocks fuel body.2 (max_label label_max labels.0) (jumps + body.1) in
    ((labels.0 ++ body.0) ∷ rest.0, rest.1, rest.2)

-- The cells of `links_` below `label_n_`: the block of each label
abbrev pub Cells : Type 0
Cells = List (Option ℕ)

unfoldable pub mark_labels : List Node → ℕ → Cells → Cells
unfolding is_label
mark_labels [] i cells = cells
mark_labels (n ∷ ns) i cells =
    let rest = mark_labels ns i (set cells (index n) (some i)) in if is_label n then rest else cells

unfoldable pub resolve_labels : List Block → ℕ → Cells → Cells
unfolding mark_labels
resolve_labels [] i cells = cells
resolve_labels (b ∷ bs) i cells = resolve_labels bs (i + 1) (mark_labels b i cells)

pub data Message : Type 0 where
  invalid_label label_not_found : Message

-- The links out of blocks, or the error with its node
pub data Links {ℓ} (A : Type ℓ) : Type ℓ where
  linked : A → Links A
  failed : Node → Message → Links A

-- The last node of a block
unfoldable pub last : Block → Option Node
last [] = none
last (n ∷ []) = some n
last (n ∷ m ∷ ns) = last (m ∷ ns)

-- The link to the next block, which is `i`, of `n` blocks
unfoldable pub fallthrough : Node → ℕ → ℕ → List ℕ
fallthrough node i n = if not (Ir.is_uncond_jump node) && ltb i n then i ∷ [] else []

abbrev pub found : Node → List ℕ → Option ℕ → Links (List ℕ)
found node links (some to) = linked (links ++ to ∷ [])
found node links none = failed node label_not_found

unfoldable pub link_to : Cells → Node → List ℕ → Expr → Links (List ℕ)
link_to cells node links (Expr.label l) =
    if leb (length cells) l
    then failed node invalid_label
    else found node links (get_or cells l none)
link_to cells node links e = linked links

-- One round of the loop of `resolve_next`
unfoldable pub next_of : Cells → ℕ → ℕ → Option Node → Links (List ℕ)
unfolding fallthrough link_to
next_of cells i n none = linked []
next_of cells i n (some node) =
    if Ir.is_uncond_jump node || Ir.is_cond_jump node
    then link_to cells node (fallthrough node i n) (Ir.jump_label node)
    else linked (fallthrough node i n)

abbrev pub and_next : Links (List ℕ) → Links (List (List ℕ)) → Links (List (List ℕ))
and_next (linked a) (linked rest) = linked (a ∷ rest)
and_next (linked a) (failed n m) = failed n m
and_next (failed n m) rest = failed n m

-- `resolve_next` of the blocks from the position `i - 1` on
unfoldable pub resolve_next : Cells → ℕ → ℕ → List Block → Links (List (List ℕ))
unfolding next_of last
resolve_next cells i n [] = linked []
resolve_next cells i n (b ∷ bs) =
    and_next (next_of cells i n (last b)) (resolve_next cells (i + 1) n bs)

-- The loops of `resolve_prev`: whether a block links to `to`, and the blocks that do
unfoldable pub links_to : ℕ → List ℕ → Bool
links_to to [] = false
links_to to (i ∷ is) = i == to || links_to to is

unfoldable pub prev_of : ℕ → ℕ → List (List ℕ) → List ℕ
unfolding links_to
prev_of to i [] = []
prev_of to i (next ∷ nexts) =
    let rest = prev_of to (i + 1) nexts in if links_to to next then i ∷ rest else rest

-- `resolve_prev` of `n` blocks from the position `to` on
unfoldable pub resolve_prev : ℕ → ℕ → List (List ℕ) → List (List ℕ)
unfolding prev_of
resolve_prev zero to nexts = []
resolve_prev (suc n) to nexts = prev_of to 0 nexts ∷ resolve_prev n (to + 1) nexts

-- The number of cells that a phase writes
unfoldable pub cells_of : List (List ℕ) → ℕ
cells_of [] = 0
cells_of (is ∷ iss) = length is + cells_of iss

pub record FlowGraph : Type 0 where
  pub blocks : List Block
  pub next : List (List ℕ)
  pub prev : List (List ℕ)
  -- `label_n_` and the size of `links_`
  pub label_n : ℕ
  pub link_n : ℕ

abbrev pub graph_of : List Block → ℕ → ℕ → List (List ℕ) → FlowGraph
graph_of bs label_n link_n nexts = record {
  blocks = bs;
  next = nexts;
  prev = resolve_prev (length bs) 0 nexts;
  label_n = label_n;
  link_n = link_n;
}

abbrev pub with_links : List Block → ℕ → ℕ → Links (List (List ℕ)) → Links FlowGraph
with_links bs label_n link_n (failed n m) = failed n m
with_links bs label_n link_n (linked nexts) = linked (graph_of bs label_n link_n nexts)

-- The cells of the labels after `resolve_labels`
unfoldable pub label_cells : List Block → ℕ → Cells
unfolding resolve_labels
label_cells bs label_max = resolve_labels bs 0 (replicate (1 + label_max) none)

-- The four phases of `build`
unfoldable pub link_blocks : List Node → Links FlowGraph
unfolding build_basicblocks label_cells resolve_next resolve_prev
link_blocks ns =
    let (bs, label_max, jumps) = build_basicblocks (length ns) ns 0 0 in
    with_links bs (1 + label_max) (1 + label_max + jumps * 2)
      (resolve_next (label_cells bs label_max) 1 (length bs) bs)

abbrev pub no_graph : FlowGraph
no_graph = record { blocks = []; next = []; prev = []; label_n = 0; link_n = 0 }

unfoldable pub build : List Node → Links FlowGraph
unfolding link_blocks
build [] = linked no_graph
build (n ∷ ns) = link_blocks (n ∷ ns)
