-- ===== src/FlowGraph/Closed.antt =====
-- The flow graph of nodes whose jumps lead to labels that they place.
use onejit.Base.{
  ℕ, ◌+◌, ◌*◌, ◌<◌, leb, true, false, ◌||◌, List, [], ◌∷◌, ◌++◌, length, get_or, replicate, ◌≡◌,
  refl, arith, Bool-cases, inl, inr, Option, none, some, get_or_default, length-replicate,
}
use onejit.Ir
use onejit.Ir.{Expr, Node}
use onejit.Ir.Placed.{
  count_label, target, IsTarget, AllTargets, IsClosed, AllTargets-left, AllTargets-right,
  AllTargets-map,
}
use onejit.FlowGraph.{
  Block, Cells, FlowGraph, build_basicblocks, next_of, link_to, found, fallthrough, resolve_next,
  last, linked, build, link_blocks, no_graph, graph_of, label_cells,
}
use onejit.FlowGraph.Blocks.{flatten, build-flatten, build-AreBasic}
use onejit.FlowGraph.Labels.{is_some, resolve_labels-finds, build-max-count}

abbrev pub IsFound : Cells → ℕ → Type 0
IsFound cells l = is_some (get_or cells l none) ≡ true

found-total :
    (node : Node) (start : List ℕ) (o : Option ℕ)
    → is_some o ≡ true
    → (links : List ℕ) × (found node start o ≡ linked links)
found-total node start none h = cc
found-total node start (some to) h = (start ++ to ∷ [], refl)

IsFound-lt : (cells : Cells) (l : ℕ) → IsFound cells l → leb (length cells) l ≡ false
IsFound-lt cells l h = elim (Bool-cases (leb (length cells) l)) [
  | inl big ↦ ground (arith, get_or_default {0} cells l none)
  | inr small ↦ small
]

link_to-total :
    (cells : Cells) (node : Node) (start : List ℕ) (e : Expr)
    → IsTarget (IsFound cells) e
    → (links : List ℕ) × (link_to cells node start e ≡ linked links)
unfolding link_to
link_to-total cells node start (Expr.label l) h =
    rw (IsFound-lt cells l h) (found-total node start (get_or cells l none) h)
link_to-total cells node start e h = (start, refl)

LastTarget : (ℕ → Type 0) → Option Node → Type 0
LastTarget P none = Unit
LastTarget P (some n) = IsTarget P (target n)

last-target : (P : ℕ → Type 0) (b : Block) → AllTargets P b → LastTarget P (last b)
unfolding last LastTarget
last-target P [] h = tt
last-target P (n ∷ []) h = h.0
last-target P (n ∷ m ∷ ns) h = last-target P (m ∷ ns) h.1

next_of-total :
    (cells : Cells) (i n : ℕ) (o : Option Node)
    → LastTarget (IsFound cells) o
    → (links : List ℕ) × (next_of cells i n o ≡ linked links)
unfolding next_of LastTarget target Ir.is_jump
next_of-total cells i n none h = ([], refl)
next_of-total cells i n (some node) h =
    elim (Bool-cases (Ir.is_uncond_jump node || Ir.is_cond_jump node)) [
      | inl jump ↦
          rw jump
            (link_to-total cells node (fallthrough node i n) (Ir.jump_label node) (rw jump at h))
      | inr plain ↦ rw plain (fallthrough node i n, refl)
    ]

resolve_next-total :
    (cells : Cells) (i n : ℕ) (bs : List Block)
    → AllTargets (IsFound cells) (flatten bs)
    → (nexts : List (List ℕ)) × (resolve_next cells i n bs ≡ linked nexts)
unfolding resolve_next
resolve_next-total cells i n [] h = ([], refl)
resolve_next-total cells i n (b ∷ bs) h =
    let (x, here) =
      next_of-total cells i n (last b)
        (last-target (IsFound cells) b (AllTargets-left (IsFound cells) b (flatten bs) h)) in
    let (xs, later) =
      resolve_next-total cells (i + 1) n bs (AllTargets-right (IsFound cells) b (flatten bs) h) in
    (x ∷ xs, rw (here, later) refl)

-- A label that the nodes place has its cell set.
pub placed-IsFound :
    (ns : List Node) (l : ℕ)
    → 0 < count_label l ns
    → IsFound
        (label_cells
          (build_basicblocks (length ns) ns 0 0).0
          (build_basicblocks (length ns) ns 0 0).1)
        l
unfolding label_cells
placed-IsFound ns l c =
    let (bs, label_max, jumps) = build_basicblocks (length ns) ns 0 0 in
    resolve_labels-finds bs 0 (replicate (1 + label_max) none) l (build-AreBasic (length ns) ns 0 0)
      (omega (
        arith,
        build-max-count (length ns) ns 0 0 l (omega arith) c,
        length-replicate {0} {A = Option ℕ} (1 + label_max) none,
      ))
      (rw (build-flatten (length ns) ns 0 0 (omega arith)) c)

phases-build-total : (ns : List Node) → IsClosed ns → (g : FlowGraph) × (link_blocks ns ≡ linked g)
unfolding link_blocks
phases-build-total ns h =
    let (bs, label_max, jumps) = build_basicblocks (length ns) ns 0 0 in
    let (nexts, ok) = resolve_next-total (label_cells bs label_max) 1 (length bs) bs (
      rw (build-flatten (length ns) ns 0 0 (omega arith)) (
        AllTargets-map (λ l. 0 < count_label l ns) (IsFound (label_cells bs label_max)) ns
          (placed-IsFound ns) h)) in
    (graph_of bs (1 + label_max) (1 + label_max + jumps * 2) nexts, rw ok refl)

-- If every jump leads to a label that the nodes place, then the flow graph is built.
pub build-total : (ns : List Node) → IsClosed ns → (g : FlowGraph) × (build ns ≡ linked g)
unfolding build
build-total [] h = (no_graph, refl)
build-total (n ∷ ns) h = phases-build-total (n ∷ ns) h
