-- ===== src/FlowGraph/Build.antt =====
-- How many cells of `links_` the phases of onejit/flowgraph.cpp write.
use onejit.Base.{
  ℕ, zero, suc, ◌+◌, ◌*◌, ◌≤◌, ◌<◌, ltb, List, [], ◌∷◌, ◌++◌, length, ◌≡◌, refl, arith,
  if◌then◌else◌, ltb→lt, Option,
}
use onejit.Ir.{Node}
use onejit.FlowGraph.{
  Block, Cells, FlowGraph, take_labels, take_body, build_basicblocks, max_label, next_of,
  resolve_next, last, links_to, prev_of, resolve_prev, cells_of, Links, linked, failed, and_next,
  build, link_blocks, no_graph, with_links, graph_of, label_cells,
}
use onejit.FlowGraph.Blocks.{take_labels-AreLabels}
use onejit.FlowGraph.Room.{next_of-le, take_body-room, AreLabels-plain, jump_links}

blocks-pos :
    (fuel : ℕ) (ns : List Node) (m j : ℕ)
    → 0 < length (build_basicblocks fuel ns m j).0
    → 0 < length ns
unfolding build_basicblocks
blocks-pos zero ns m j h = elim h [ ]
blocks-pos (suc fuel) [] m j h = elim h [ ]
blocks-pos (suc fuel) (n ∷ ns) m j h = omega arith

pub and_next-linked :
    (a : Links (List ℕ)) (r : Links (List (List ℕ))) (nexts : List (List ℕ))
    → and_next a r ≡ linked nexts
    → (x : List ℕ) × (xs : List (List ℕ)) × (a ≡ linked x) × (r ≡ linked xs) × (nexts ≡ x ∷ xs)
and_next-linked (linked x) (linked xs) nexts h = (x, xs, refl, refl, cc)
and_next-linked (linked x) (failed n m) nexts h = cc
and_next-linked (failed n m) r nexts h = cc

jumps-le : (fuel : ℕ) (ns : List Node) (m j : ℕ) → j ≤ (build_basicblocks fuel ns m j).2
unfolding build_basicblocks
jumps-le zero ns m j = omega arith
jumps-le (suc fuel) [] m j = omega arith
jumps-le (suc fuel) (n ∷ ns) m j = omega (
  arith,
  jumps-le fuel (take_body (take_labels (n ∷ ns)).1).2 (max_label m (take_labels (n ∷ ns)).0)
      (j + (take_body (take_labels (n ∷ ns)).1).1),
)

next-round :
    (cells : Cells) (i k j jumps total : ℕ) (node : Option Node) {x : List ℕ}
    {xs nexts : List (List ℕ)}
    → next_of cells i k node ≡ linked x
    → nexts ≡ x ∷ xs
    → jump_links node (ltb i k) ≤ jumps
    → j + jumps + cells_of xs ≤ total
    → j + cells_of nexts ≤ total
unfolding cells_of
next-round cells i k j jumps total node {x} here both room rest =
    rw both (omega (arith, room, rest, next_of-le cells i k node x here))

-- `resolve_next` writes at most `jumps` cells.
next-room :
    (fuel : ℕ) (ns : List Node) (m j : ℕ) (cells : Cells) (i k : ℕ) (nexts : List (List ℕ))
    → i + length (build_basicblocks fuel ns m j).0 ≡ k + 1
    → resolve_next cells i k (build_basicblocks fuel ns m j).0 ≡ linked nexts
    → j + cells_of nexts ≤ (build_basicblocks fuel ns m j).2
unfolding build_basicblocks resolve_next cells_of
next-room zero ns m j cells i k nexts p h = ground arith
next-room (suc fuel) [] m j cells i k nexts p h = ground arith
next-room (suc fuel) (n ∷ ns) m j cells i k nexts p h =
    let labels = take_labels (n ∷ ns) in
    let body = take_body labels.1 in
    let rest = build_basicblocks fuel body.2 (max_label m labels.0) (j + body.1) in
    let (x, xs, here, later, both) =
      and_next-linked (next_of cells i k (last (labels.0 ++ body.0)))
        (resolve_next cells (i + 1) k rest.0) nexts h in
    next-round cells i k j body.1 rest.2 (last (labels.0 ++ body.0)) here both
      (take_body-room labels.0 labels.1 (ltb i k)
        (AreLabels-plain labels.0 (take_labels-AreLabels (n ∷ ns)))
        (λ more.
          blocks-pos fuel body.2 (max_label m labels.0) (j + body.1)
            (omega (arith, ltb→lt i k more, p))))
      (next-room fuel body.2 (max_label m labels.0) (j + body.1) cells (i + 1) k xs
        (omega (arith, p)) later)

-- The length of a list of previous blocks does not depend on the number of the first one.
prev_of-length :
    (to i k : ℕ) (nexts : List (List ℕ)) → length (prev_of to i nexts) ≡ length (prev_of to k nexts)
unfolding prev_of
prev_of-length to i k [] = refl
prev_of-length to i k (next ∷ nexts) = ground (arith, prev_of-length to (i + 1) (k + 1) nexts)

-- How many of the `n` blocks from `to` on the list links to
hits : ℕ → ℕ → List ℕ → ℕ
hits zero to next = 0
hits (suc n) to next = (if links_to to next then 1 else 0) + hits n (to + 1) next

hits-nil : (n to : ℕ) → hits n to [] ≡ 0
unfolding hits links_to
hits-nil zero to = refl
hits-nil (suc n) to = omega (arith, hits-nil n (to + 1))

hits-above : (n to i : ℕ) → i < to → hits n to (i ∷ []) ≡ 0
unfolding hits links_to
hits-above zero to i h = refl
hits-above (suc n) to i h = ground (arith, hits-above n (to + 1) i)

hits-one : (n to i : ℕ) → hits n to (i ∷ []) ≤ 1
unfolding hits links_to
hits-one zero to i = omega arith
hits-one (suc n) to i = ground (arith, hits-one n (to + 1) i, hits-above n (to + 1) i)

hits-cons :
    (n to i : ℕ) (next : List ℕ) → hits n to (i ∷ next) ≤ hits n to (i ∷ []) + hits n to next
unfolding hits links_to
hits-cons zero to i next = omega arith
hits-cons (suc n) to i next = ground (arith, hits-cons n (to + 1) i next)

hits-le : (n to : ℕ) (next : List ℕ) → hits n to next ≤ length next
hits-le n to [] = omega (arith, hits-nil n to)
hits-le n to (i ∷ next) = omega (arith, hits-cons n to i next, hits-one n to i, hits-le n to next)

prev-nil : (n to : ℕ) → cells_of (resolve_prev n to []) ≡ 0
unfolding resolve_prev prev_of cells_of
prev-nil zero to = refl
prev-nil (suc n) to = omega (arith, prev-nil n (to + 1))

prev-cons :
    (n to : ℕ) (next : List ℕ) (nexts : List (List ℕ))
    → cells_of (resolve_prev n to (next ∷ nexts))
      ≡ hits n to next + cells_of (resolve_prev n to nexts)
unfolding resolve_prev prev_of cells_of hits
prev-cons zero to next nexts = refl
prev-cons (suc n) to next nexts =
    ground (arith, prev-cons n (to + 1) next nexts, prev_of-length to (0 + 1) 0 nexts)

-- `resolve_prev` writes at most as many cells as `resolve_next`.
prev-room : (n to : ℕ) (nexts : List (List ℕ)) → cells_of (resolve_prev n to nexts) ≤ cells_of nexts
unfolding cells_of
prev-room n to [] = omega (arith, prev-nil n to)
prev-room n to (next ∷ nexts) =
    omega (arith, prev-cons n to next nexts, hits-le n to next, prev-room n to nexts)

pub with_links-linked :
    (bs : List Block) (label_n link_n : ℕ) (r : Links (List (List ℕ))) (g : FlowGraph)
    → with_links bs label_n link_n r ≡ linked g
    → (nexts : List (List ℕ)) × (r ≡ linked nexts) × (g ≡ graph_of bs label_n link_n nexts)
with_links-linked bs label_n link_n (linked nexts) g h = (nexts, refl, cc)
with_links-linked bs label_n link_n (failed n m) g h = cc

pub no_graph-eq : (g : FlowGraph) → linked no_graph ≡ linked g → g ≡ no_graph
no_graph-eq g h = cc

phases-build-room :
    (ns : List Node) (g : FlowGraph)
    → link_blocks ns ≡ linked g
    → g.label_n + cells_of g.next + cells_of g.prev ≤ g.link_n
unfolding link_blocks
phases-build-room ns g h =
    let (bs, label_max, jumps) = build_basicblocks (length ns) ns 0 0 in
    let (nexts, ok, parts) =
      with_links-linked bs (1 + label_max) (1 + label_max + jumps * 2)
        (resolve_next (label_cells bs label_max) 1 (length bs) bs) g h in
    rw parts (
      omega (
        arith,
        prev-room (length bs) 0 nexts,
        next-room (length ns) ns 0 0 (label_cells bs label_max) 1 (length bs) nexts (omega arith)
            ok,
      ))

-- If the graph is built, then the cells of the labels, of the links to next blocks and of the
-- links to previous blocks fit together into `links_`.
pub build-room :
    (ns : List Node) (g : FlowGraph)
    → build ns ≡ linked g
    → g.label_n + cells_of g.next + cells_of g.prev ≤ g.link_n
unfolding build cells_of
build-room [] g h = rw (no_graph-eq g h) (omega arith)
build-room (n ∷ ns) g h = phases-build-room (n ∷ ns) g h
