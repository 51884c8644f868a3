-- ===== src/FlowGraph/Edges.antt =====
-- What the links to next blocks mean, of `resolve_next`.
use onejit.Base.{
  ℕ, zero, suc, ◌+◌, ◌*◌, ◌<◌, leb, true, false, ◌||◌, List, [], ◌∷◌, ◌++◌, length, get_or, set,
  replicate, ◌≡◌, refl, ap, sym, subst, ◌∙◌, arith, Bool-cases, ◌⊎◌, inl, inr, Option, none, some,
  get_or-replicate,
}
use onejit.Ir
use onejit.Ir.{Expr, Node}
use onejit.Ir.Placed.{count_label, target}
use onejit.FlowGraph.{
  Block, Cells, FlowGraph, is_label, index, build_basicblocks, mark_labels, resolve_labels, next_of,
  link_to, found, fallthrough, resolve_next, last, links_to, linked, build, link_blocks,
  label_cells,
}
use onejit.FlowGraph.Failed.{jump-target}
use onejit.FlowGraph.Build.{and_next-linked, with_links-linked, no_graph-eq}

set_sound :
    (cells : Cells) (k i l j : ℕ)
    → get_or (set cells k (some i)) l none ≡ some j
    → (get_or cells l none ≡ some j) ⊎ ((j ≡ i) × (l ≡ k))
set_sound [] k i l j h = inl h
set_sound (c ∷ cells) zero i zero j h = inr (cc, refl)
set_sound (c ∷ cells) zero i (suc l) j h = inl h
set_sound (c ∷ cells) (suc k) i zero j h = inl h
set_sound (c ∷ cells) (suc k) i (suc l) j h = elim (set_sound cells k i l j h) [
  | inl old ↦ inl old
  | inr (e, same) ↦ inr (e, ap suc same)
]

label-count :
    (l : ℕ) (n : Node) (ns : List Node)
    → is_label n ≡ true
    → l ≡ index n
    → 0 < count_label l (n ∷ ns)
unfolding is_label count_label
label-count l (Node.expr (Expr.label m)) ns h e = ground arith
label-count l n ns h e = cc

more_count : (l : ℕ) (n : Node) (ns : List Node) → 0 < count_label l ns → 0 < count_label l (n ∷ ns)
unfolding count_label
more_count l n ns h = omega arith

mark_sound :
    (ns : List Node) (i : ℕ) (cells : Cells) (l j : ℕ)
    → get_or (mark_labels ns i cells) l none ≡ some j
    → (get_or cells l none ≡ some j) ⊎ ((j ≡ i) × (0 < count_label l ns))
unfolding mark_labels
mark_sound [] i cells l j h = inl h
mark_sound (n ∷ ns) i cells l j h = elim (Bool-cases (is_label n)) [
  | inl lab ↦ elim (mark_sound ns i (set cells (index n) (some i)) l j (rw lab at h)) [
    | inl old ↦ elim (set_sound cells (index n) i l j old) [
      | inl older ↦ inl older
      | inr (e, same) ↦ inr (e, label-count l n ns lab same)
    ]
    | inr (e, c) ↦ inr (e, more_count l n ns c)
  ]
  | inr other ↦ inl (rw other at h)
]

resolve_labels_sound :
    (bs : List Block) (i : ℕ) (cells : Cells) (l j : ℕ)
    → get_or (resolve_labels bs i cells) l none ≡ some j
    → (get_or cells l none ≡ some j)
      ⊎ ((p : ℕ) × (j ≡ i + p) × (0 < count_label l (get_or bs p [])))
unfolding resolve_labels
resolve_labels_sound [] i cells l j h = inl h
resolve_labels_sound (b ∷ bs) i cells l j h =
    elim (resolve_labels_sound bs (i + 1) (mark_labels b i cells) l j h) [
      | inl old ↦ elim (mark_sound b i cells l j old) [
        | inl older ↦ inl older
        | inr (e, c) ↦ inr (0, omega (arith, e), c)
      ]
      | inr (p, e, c) ↦ inr (suc p, omega (arith, e), c)
    ]

-- The block of a label places the label.
label_cells_sound :
    (bs : List Block) (m l j : ℕ)
    → get_or (label_cells bs m) l none ≡ some j
    → 0 < count_label l (get_or bs j [])
unfolding label_cells
label_cells_sound bs m l j h = elim (resolve_labels_sound bs 0 (replicate (1 + m) none) l j h) [
  | inl old ↦ let nothing = get_or-replicate {0} {A = Option ℕ} (1 + m) l none in cc
  | inr (p, e, c) ↦ subst (λ k. 0 < count_label l (get_or bs k [])) (omega (arith, e)) c
]

resolve_next-get :
    (cells : Cells) (i n : ℕ) (bs : List Block) (nexts : List (List ℕ)) (p : ℕ)
    → resolve_next cells i n bs ≡ linked nexts
    → p < length bs
    → next_of cells (i + p) n (last (get_or bs p [])) ≡ linked (get_or nexts p [])
unfolding resolve_next
resolve_next-get cells i n [] nexts p h lt = elim lt [ ]
resolve_next-get cells i n (b ∷ bs) nexts zero h lt =
    let (x, xs, here, later, both) =
      and_next-linked (next_of cells i n (last b)) (resolve_next cells (i + 1) n bs) nexts h in
    rw both (subst (λ k. next_of cells k n (last b) ≡ linked x) (omega arith) here)
resolve_next-get cells i n (b ∷ bs) nexts (suc p) h lt =
    let (x, xs, here, later, both) =
      and_next-linked (next_of cells i n (last b)) (resolve_next cells (i + 1) n bs) nexts h in
    rw both (
      subst (λ k. next_of cells k n (last (get_or bs p [])) ≡ linked (get_or xs p [])) (omega arith)
        (resolve_next-get cells (i + 1) n bs xs p later (omega (arith, lt))))

-- Why a block has a link
abbrev pub IsLink : List Block → Node → ℕ → ℕ → Type 0
IsLink bs node here to =
    ((Ir.is_uncond_jump node ≡ false) × (to ≡ here + 1) × (to < length bs))
    ⊎ ((l : ℕ) × (target node ≡ Expr.label l) × (0 < count_label l (get_or bs to [])))

links_to-append :
    (to : ℕ) (xs ys : List ℕ) → links_to to (xs ++ ys) ≡ (links_to to xs || links_to to ys)
unfolding links_to
links_to-append to [] ys = refl
links_to-append to (x ∷ xs) ys = ground (arith, links_to-append to xs ys)

fallthrough_sound :
    (node : Node) (here n to : ℕ)
    → links_to to (fallthrough node (here + 1) n) ≡ true
    → (Ir.is_uncond_jump node ≡ false) × (to ≡ here + 1) × (to < n)
unfolding fallthrough links_to
fallthrough_sound node here n to h = (ground arith, ground arith, ground arith)

-- The links of `link_to`: those given, and the block of the label
linked-eq : {a b : List ℕ} → linked a ≡ linked b → b ≡ a
linked-eq h = cc

found-cases :
    (node : Node) (start : List ℕ) (o : Option ℕ) (links : List ℕ)
    → found node start o ≡ linked links
    → (j : ℕ) × (o ≡ some j) × (links ≡ start ++ j ∷ [])
found-cases node start none links h = cc
found-cases node start (some to) links h = (to, refl, cc)

link_to-cases :
    (cells : Cells) (node : Node) (start : List ℕ) (e : Expr) (links : List ℕ)
    → link_to cells node start e ≡ linked links
    → (links ≡ start)
      ⊎ ((l j : ℕ) × (e ≡ Expr.label l)
          × (get_or cells l none ≡ some j)
          × (links ≡ start ++ j ∷ []))
unfolding link_to
link_to-cases cells node start (Expr.label l) links h = elim (Bool-cases (leb (length cells) l)) [
  | inl big ↦ let impossible = rw big at h in cc
  | inr small ↦
      let (j, cell, all) = found-cases node start (get_or cells l none) links (rw small at h) in
      inr (l, j, refl, cell, all)
]
link_to-cases cells node start e links h = inl (cc)

links_to-one : (to j : ℕ) → links_to to (j ∷ []) ≡ true → to ≡ j
unfolding links_to
links_to-one to j h = ground arith

link_to_sound :
    (bs : List Block) (m : ℕ) (node : Node) (here to : ℕ) (e : Expr) (links : List ℕ)
    → target node ≡ e
    → link_to (label_cells bs m) node (fallthrough node (here + 1) (length bs)) e ≡ linked links
    → links_to to links ≡ true
    → IsLink bs node here to
link_to_sound bs m node here to e links t h k =
    let start = fallthrough node (here + 1) (length bs) in
    elim (link_to-cases (label_cells bs m) node start e links h) [
      | inl same ↦ inl (fallthrough_sound node here (length bs) to (rw same at k))
      | inr (l, j, is_label, cell, all) ↦ elim (Bool-cases (links_to to start)) [
        | inl through ↦ inl (fallthrough_sound node here (length bs) to through)
        | inr other ↦
            let to_j : to ≡ j =
              links_to-one to j
                (rw (other) at (sym (links_to-append to start (j ∷ [])) ∙ (rw all at k))) in
            inr (
              l,
              t ∙ is_label,
              subst (λ p. 0 < count_label l (get_or bs p [])) (sym to_j)
                  (label_cells_sound bs m l j cell),
            )
      ]
    ]

next_of_sound :
    (bs : List Block) (m here to : ℕ) (node : Node) (links : List ℕ)
    → next_of (label_cells bs m) (here + 1) (length bs) (some node) ≡ linked links
    → links_to to links ≡ true
    → IsLink bs node here to
unfolding next_of
next_of_sound bs m here to node links h k =
    elim (Bool-cases (Ir.is_uncond_jump node || Ir.is_cond_jump node)) [
      | inl jump ↦
          link_to_sound bs m node here to (Ir.jump_label node) links (jump-target node jump)
            (rw jump at h) k
      | inr plain ↦ inl (
          fallthrough_sound node here (length bs) to
            (subst (λ r. links_to to r ≡ true) (linked-eq (rw plain at h)) k))
    ]

resolve_next_sound :
    (bs : List Block) (m : ℕ) (nexts : List (List ℕ)) (here to : ℕ) (node : Node)
    → resolve_next (label_cells bs m) 1 (length bs) bs ≡ linked nexts
    → here < length bs
    → last (get_or bs here []) ≡ some node
    → links_to to (get_or nexts here []) ≡ true
    → IsLink bs node here to
resolve_next_sound bs m nexts here to node ok lt ends k =
    let round = resolve_next-get (label_cells bs m) 1 (length bs) bs nexts here ok lt in
    next_of_sound bs m here to node (get_or nexts here [])
      (subst
        (λ i. next_of (label_cells bs m) i (length bs) (some node) ≡ linked (get_or nexts here []))
        (omega arith)
        (subst
          (λ o. next_of (label_cells bs m) (1 + here) (length bs) o ≡ linked (get_or nexts here []))
          ends round))
      k

phases-build-next :
    (ns : List Node) (g : FlowGraph) (here to : ℕ) (node : Node)
    → link_blocks ns ≡ linked g
    → here < length g.blocks
    → last (get_or g.blocks here []) ≡ some node
    → links_to to (get_or g.next here []) ≡ true
    → IsLink g.blocks node here to
unfolding link_blocks
phases-build-next ns g here to node h lt ends k =
    let (bs, label_max, jumps) = build_basicblocks (length ns) ns 0 0 in
    let (nexts, ok, parts) =
      with_links-linked bs (1 + label_max) (1 + label_max + jumps * 2)
        (resolve_next (label_cells bs label_max) 1 (length bs) bs) g h in
    rw parts (
      resolve_next_sound bs label_max nexts here to node ok (rw parts at lt) (rw parts at ends)
        (rw parts at k))

-- In a built flow graph a link from a block to a next one is there because control passes from
-- its last node: to the block that follows, if the node is no unconditional jump, or to a block
-- that places the label of its jump.
pub build-next :
    (ns : List Node) (g : FlowGraph) (here to : ℕ) (node : Node)
    → build ns ≡ linked g
    → here < length g.blocks
    → last (get_or g.blocks here []) ≡ some node
    → links_to to (get_or g.next here []) ≡ true
    → IsLink g.blocks node here to
unfolding build
build-next [] g here to node h lt ends k = absurd (omega (arith, rw (no_graph-eq g h) at lt))
build-next (n ∷ ns) g here to node h lt ends k =
    phases-build-next (n ∷ ns) g here to node h lt ends k
