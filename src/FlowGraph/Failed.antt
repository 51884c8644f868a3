-- ===== src/FlowGraph/Failed.antt =====
-- What an error of the flow graph means.
use onejit.Base.{
  ℕ, ◌+◌, ◌*◌, leb, true, false, ◌||◌, List, [], ◌∷◌, ◌++◌, length, get_or, ◌≡◌, refl, sym, subst,
  arith, Bool-cases, ◌⊎◌, inl, inr, Option, none, some, get_or_default,
}
use native.Mathlib.Decide.{dec_lt}
use onejit.Ir
use onejit.Ir.{Expr, Node}
use onejit.Ir.Placed.{count_label, target}
use onejit.FlowGraph.{
  Block, Cells, build_basicblocks, next_of, link_to, found, fallthrough, resolve_next, last, Links,
  linked, failed, Message, and_next, build, link_blocks, link_blocks, with_links, label_cells,
}
use onejit.FlowGraph.Blocks.{flatten, build-flatten}
use onejit.FlowGraph.Labels.{is_some}
use onejit.FlowGraph.Closed.{placed-IsFound}

abbrev pub Among : Node → List Node → Type 0
Among n [] = ⊥
Among n (m ∷ ms) = (n ≡ m) ⊎ Among n ms

pub jump-target :
    (node : Node)
    → (Ir.is_uncond_jump node || Ir.is_cond_jump node) ≡ true
    → target node ≡ Ir.jump_label node
unfolding target Ir.is_jump
jump-target node jump = rw jump refl

found-failed :
    (node : Node) (start : List ℕ) (o : Option ℕ) (where_ : Node) (msg : Message)
    → found node start o ≡ failed where_ msg
    → (is_some o ≡ false) × (where_ ≡ node)
found-failed node start none where_ msg h = (refl, cc)
found-failed node start (some to) where_ msg h = cc

-- The jump of a node, which leads to a label without a cell
record IsLost (cells : Cells) (node : Node) : Type 0 where
  lost : ℕ
  leads : target node ≡ Expr.label lost
  no_cell : is_some (get_or cells lost none) ≡ false

link_to-failed :
    (cells : Cells) (node : Node) (start : List ℕ) (e : Expr) (where_ : Node) (msg : Message)
    → target node ≡ e
    → link_to cells node start e ≡ failed where_ msg
    → (where_ ≡ node) × IsLost cells node
unfolding link_to
link_to-failed cells node start (Expr.label l) where_ msg t h =
    elim (Bool-cases (leb (length cells) l)) [
      | inl big ↦
          let same : where_ ≡ node = ground arith in
          (
            same,
            record {
              lost = l;
              leads = t;
              no_cell = rw (get_or_default cells l none (ground arith)) refl;
            },
          )
      | inr small ↦
          let (no_cell, same) =
            found-failed node start (get_or cells l none) where_ msg (rw small at h) in
          (same, record { lost = l; leads = t; no_cell = no_cell })
    ]
link_to-failed cells node start e where_ msg t h = cc

next_of-failed :
    (cells : Cells) (i n : ℕ) (node : Node) (where_ : Node) (msg : Message)
    → next_of cells i n (some node) ≡ failed where_ msg
    → (where_ ≡ node) × IsLost cells node
unfolding next_of
next_of-failed cells i n node where_ msg h =
    elim (Bool-cases (Ir.is_uncond_jump node || Ir.is_cond_jump node)) [
      | inl jump ↦
          link_to-failed cells node (fallthrough node i n) (Ir.jump_label node) where_ msg
            (jump-target node jump) (rw jump at h)
      | inr plain ↦ let impossible = rw plain at h in cc
    ]

Among-left : (w : Node) (ns ms : List Node) → Among w ns → Among w (ns ++ ms)
Among-left w [] ms h = elim h [ ]
Among-left w (n ∷ ns) ms (inl e) = inl e
Among-left w (n ∷ ns) ms (inr h) = inr (Among-left w ns ms h)

Among-right : (w : Node) (ns ms : List Node) → Among w ms → Among w (ns ++ ms)
Among-right w [] ms h = h
Among-right w (n ∷ ns) ms h = inr (Among-right w ns ms h)

next_of-none :
    (cells : Cells) (i n : ℕ) (w : Node) (msg : Message) → next_of cells i n none ≡ failed w msg → ⊥
unfolding next_of
next_of-none cells i n w msg h = cc

block-failed :
    (cells : Cells) (i n : ℕ) (b : Block) (w : Node) (msg : Message)
    → next_of cells i n (last b) ≡ failed w msg
    → Among w b × IsLost cells w
unfolding last
block-failed cells i n [] w msg h = absurd (next_of-none cells i n w msg h)
block-failed cells i n (m ∷ []) w msg h =
    let (same, lost) = next_of-failed cells i n m w msg h in
    (inl same, subst (IsLost cells) (sym same) lost)
block-failed cells i n (m ∷ k ∷ ns) w msg h =
    let (among, lost) = block-failed cells i n (k ∷ ns) w msg h in (inr among, lost)

and_next-failed :
    (a : Links (List ℕ)) (r : Links (List (List ℕ))) (w : Node) (msg : Message)
    → and_next a r ≡ failed w msg
    → (a ≡ failed w msg) ⊎ (r ≡ failed w msg)
and_next-failed (linked x) (linked xs) w msg h = cc
and_next-failed (linked x) (failed n m) w msg h = inr (cc)
and_next-failed (failed n m) r w msg h = inl (cc)

resolve_next-failed :
    (cells : Cells) (i n : ℕ) (bs : List Block) (w : Node) (msg : Message)
    → resolve_next cells i n bs ≡ failed w msg
    → Among w (flatten bs) × IsLost cells w
unfolding resolve_next
resolve_next-failed cells i n [] w msg h = cc
resolve_next-failed cells i n (b ∷ bs) w msg h =
    elim (and_next-failed (next_of cells i n (last b)) (resolve_next cells (i + 1) n bs) w msg h) [
      | inl here ↦
          let (among, lost) = block-failed cells i n b w msg here in
          (Among-left w b (flatten bs) among, lost)
      | inr later ↦
          let (among, lost) = resolve_next-failed cells (i + 1) n bs w msg later in
          (Among-right w b (flatten bs) among, lost)
    ]

with_links-failed :
    (bs : List Block) (label_n link_n : ℕ) (r : Links (List (List ℕ))) (w : Node) (msg : Message)
    → with_links bs label_n link_n r ≡ failed w msg
    → r ≡ failed w msg
with_links-failed bs label_n link_n (linked nexts) w msg h = cc
with_links-failed bs label_n link_n (failed n m) w msg h = cc

not_placed :
    (ns : List Node) (l : ℕ)
    → is_some (
        get_or
          (label_cells
            (build_basicblocks (length ns) ns 0 0).0
            (build_basicblocks (length ns) ns 0 0).1)
          l
          none)
      ≡ false
    → count_label l ns ≡ 0
not_placed ns l h = elim (dec_lt 0 (count_label l ns)) [
  | yes c ↦ let found = placed-IsFound ns l c in cc
  | no none_placed ↦ omega arith
]

phases-build-failed :
    (ns : List Node) (w : Node) (msg : Message)
    → link_blocks ns ≡ failed w msg
    → Among w ns × ((l : ℕ) × (target w ≡ Expr.label l) × (count_label l ns ≡ 0))
unfolding link_blocks
phases-build-failed ns w msg h =
    let (bs, label_max, jumps) = build_basicblocks (length ns) ns 0 0 in
    let (among, lost) = resolve_next-failed (label_cells bs label_max) 1 (length bs) bs w msg (
      with_links-failed bs (1 + label_max) (1 + label_max + jumps * 2)
        (resolve_next (label_cells bs label_max) 1 (length bs) bs) w msg h) in
    (
      subst (Among w) (build-flatten (length ns) ns 0 0 (omega arith)) among,
      (lost.lost, lost.leads, not_placed ns lost.lost lost.no_cell),
    )

-- If the graph is not built, then the error names one of the nodes: a jump whose label none of
-- the nodes places.
pub build-failed :
    (ns : List Node) (w : Node) (msg : Message)
    → build ns ≡ failed w msg
    → Among w ns × ((l : ℕ) × (target w ≡ Expr.label l) × (count_label l ns ≡ 0))
unfolding build
build-failed [] w msg h = cc
build-failed (n ∷ ns) w msg h = phases-build-failed (n ∷ ns) w msg h
