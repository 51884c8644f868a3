-- ===== src/FlowGraph/Converse.antt =====
-- The links to previous blocks, of `resolve_prev`, against those to next blocks.
use onejit.Base.{
  ℕ, zero, suc, ◌+◌, ◌*◌, ◌<◌, false, List, [], ◌∷◌, length, get_or, ◌≡◌, refl, ap, ◌∙◌, arith,
}
use onejit.Ir.{Node}
use onejit.FlowGraph.{
  FlowGraph, build_basicblocks, resolve_next, links_to, prev_of, resolve_prev, linked, build,
  link_blocks, label_cells,
}
use onejit.FlowGraph.Build.{with_links-linked, no_graph-eq}

-- The blocks are listed from the first one on.
prev_of-above :
    (to i k : ℕ) (nexts : List (List ℕ)) → k < i → links_to k (prev_of to i nexts) ≡ false
unfolding prev_of links_to
prev_of-above to i k [] h = refl
prev_of-above to i k (next ∷ nexts) h = ground (arith, prev_of-above to (i + 1) k nexts)

shift : (i p : ℕ) → i + suc p ≡ i + 1 + p
shift i p = omega arith

prev_of-links :
    (to i p : ℕ) (nexts : List (List ℕ))
    → links_to (i + p) (prev_of to i nexts) ≡ links_to to (get_or nexts p [])
unfolding prev_of links_to
prev_of-links to i p [] = refl
prev_of-links to i zero (next ∷ nexts) = ground (arith, prev_of-above to (i + 1) (i + 0) nexts)
prev_of-links to i (suc p) (next ∷ nexts) = ground (
  arith,
  prev_of-links to (i + 1) p nexts,
  ap (λ k. links_to k (prev_of to (i + 1) nexts)) (shift i p),
)

resolve_prev-get :
    (n to p : ℕ) (nexts : List (List ℕ))
    → p < n
    → get_or (resolve_prev n to nexts) p [] ≡ prev_of (to + p) 0 nexts
unfolding resolve_prev
resolve_prev-get zero to p nexts h = elim h [ ]
resolve_prev-get (suc n) to zero nexts h = ap (λ t. prev_of t 0 nexts) (omega arith)
resolve_prev-get (suc n) to (suc p) nexts h =
    resolve_prev-get n (to + 1) p nexts (omega arith) ∙ ap (λ t. prev_of t 0 nexts) (omega arith)

prev-next :
    (n : ℕ) (nexts : List (List ℕ)) (from to : ℕ)
    → to < n
    → links_to from (get_or (resolve_prev n 0 nexts) to []) ≡ links_to to (get_or nexts from [])
prev-next n nexts from to lt =
    ap (links_to from) (resolve_prev-get n 0 to nexts lt)
    ∙ ap (λ t. links_to from (prev_of t 0 nexts)) (omega arith)
    ∙ ap (λ k. links_to k (prev_of to 0 nexts)) (omega arith)
    ∙ prev_of-links to 0 from nexts

phases-build-prev :
    (ns : List Node) (g : FlowGraph) (from to : ℕ)
    → link_blocks ns ≡ linked g
    → to < length g.blocks
    → links_to from (get_or g.prev to []) ≡ links_to to (get_or g.next from [])
unfolding link_blocks
phases-build-prev ns g from to h lt =
    let (bs, label_max, jumps) = build_basicblocks (length ns) ns 0 0 in
    let (nexts, ok, parts) =
      with_links-linked bs (1 + label_max) (1 + label_max + jumps * 2)
        (resolve_next (label_cells bs label_max) 1 (length bs) bs) g h in
    rw parts (prev-next (length bs) nexts from to (rw parts at lt))

-- In a built flow graph a block is among the previous ones of another exactly if the other is
-- among its next ones.
pub build-prev :
    (ns : List Node) (g : FlowGraph) (from to : ℕ)
    → build ns ≡ linked g
    → to < length g.blocks
    → links_to from (get_or g.prev to []) ≡ links_to to (get_or g.next from [])
unfolding build
build-prev [] g from to h lt = absurd (omega (arith, rw (no_graph-eq g h) at lt))
build-prev (n ∷ ns) g from to h lt = phases-build-prev (n ∷ ns) g from to h lt
