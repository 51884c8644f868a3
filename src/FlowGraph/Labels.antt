-- ===== src/FlowGraph/Labels.antt =====
-- The cells of the labels after `resolve_labels`.
use onejit.Base.{
  ℕ, zero, suc, ◌+◌, ◌≤◌, ◌<◌, ◌==◌, max, Bool, true, false, List, [], ◌∷◌, ◌++◌, length, get_or,
  set, ◌≡◌, refl, ap, sym, subst, ◌∙◌, arith, Bool-cases, inl, inr, Option, none, some, length-set,
  get_or-set_self, ==_iff,
}
use native.Mathlib.Decide.{dec_lt}
use onejit.Ir.{Expr, Node}
use onejit.Ir.Placed.{count_label, count_label-append}
use onejit.FlowGraph.{
  Block, Cells, is_label, index, take_labels, take_body, build_basicblocks, max_label, mark_labels,
  resolve_labels,
}
use onejit.FlowGraph.Blocks.{
  AreLabels, IsStraight, IsBasic, AreBasic, flatten, take_labels-append, take_body-append,
  take_body-IsStraight, take-shorter,
}

abbrev pub is_some {ℓ} : {A : Type ℓ} → Option A → Bool
is_some none = false
is_some (some a) = true

pub length-mark_labels :
    (b : Block) (i : ℕ) (cells : Cells) → length (mark_labels b i cells) ≡ length cells
unfolding mark_labels
length-mark_labels [] i cells = refl
length-mark_labels (n ∷ ns) i cells = ground (
  arith,
  length-mark_labels ns i (set cells (index n) (some i)),
  length-set {0} cells (index n) (some i),
)

-- A label that has its block keeps one.
set-is_some :
    (cells : Cells) (k i l : ℕ)
    → is_some (get_or cells l none) ≡ true
    → is_some (get_or (set cells k (some i)) l none) ≡ true
set-is_some [] k i l h = h
set-is_some (c ∷ cells) zero i zero h = refl
set-is_some (c ∷ cells) zero i (suc l) h = h
set-is_some (c ∷ cells) (suc k) i zero h = h
set-is_some (c ∷ cells) (suc k) i (suc l) h = set-is_some cells k i l h

mark-is_some :
    (b : Block) (i : ℕ) (cells : Cells) (l : ℕ)
    → is_some (get_or cells l none) ≡ true
    → is_some (get_or (mark_labels b i cells) l none) ≡ true
unfolding mark_labels
mark-is_some [] i cells l h = h
mark-is_some (n ∷ ns) i cells l h = elim (Bool-cases (is_label n)) [
  | inl e ↦
      rw e (mark-is_some ns i (set cells (index n) (some i)) l (set-is_some cells (index n) i l h))
  | inr e ↦ rw e h
]

set-found :
    (cells : Cells) (k i : ℕ)
    → k < length cells
    → is_some (get_or (set cells k (some i)) k none) ≡ true
set-found cells k i h = ap is_some (get_or-set_self cells k (some i) none h)

-- A label in front of a block is found.
mark-finds :
    (labels body : List Node) (i : ℕ) (cells : Cells) (l : ℕ)
    → AreLabels labels
    → l < length cells
    → 0 < count_label l labels
    → is_some (get_or (mark_labels (labels ++ body) i cells) l none) ≡ true
unfolding mark_labels count_label is_label
mark-finds [] body i cells l h lt c = elim c [ ]
mark-finds (Node.expr (Expr.label m) ∷ ns) body i cells l h lt c = elim (Bool-cases (m == l)) [
  | inl e ↦ mark-is_some (ns ++ body) i (set cells m (some i)) l (
      subst (λ k. is_some (get_or (set cells k (some i)) l none) ≡ true) (sym ((==_iff m l).0 e))
        (set-found cells l i lt))
  | inr e ↦
      mark-finds ns body i (set cells m (some i)) l h.1
        (omega (arith, length-set {0} cells m (some i))) (omega (arith, rw e at c))
]
mark-finds (n ∷ ns) body i cells l h lt c = cc (h.0)

straight-count : (l : ℕ) (ns : List Node) → IsStraight ns → count_label l ns ≡ 0
unfolding count_label is_label
straight-count l [] h = refl
straight-count l (Node.expr (Expr.label m) ∷ []) h = cc
straight-count l (Node.expr (Expr.label m) ∷ k ∷ ns) h = cc (h.0)
straight-count l (n ∷ []) h = refl
straight-count l (n ∷ m ∷ ns) h = omega (arith, straight-count l (m ∷ ns) h.2)

resolve-is_some :
    (bs : List Block) (i : ℕ) (cells : Cells) (l : ℕ)
    → is_some (get_or cells l none) ≡ true
    → is_some (get_or (resolve_labels bs i cells) l none) ≡ true
unfolding resolve_labels
resolve-is_some [] i cells l h = h
resolve-is_some (b ∷ bs) i cells l h =
    resolve-is_some bs (i + 1) (mark_labels b i cells) l (mark-is_some b i cells l h)

pub length-resolve_labels :
    (bs : List Block) (i : ℕ) (cells : Cells) → length (resolve_labels bs i cells) ≡ length cells
unfolding resolve_labels
length-resolve_labels [] i cells = refl
length-resolve_labels (b ∷ bs) i cells =
    length-resolve_labels bs (i + 1) (mark_labels b i cells) ∙ length-mark_labels b i cells

block-finds :
    (b : Block) (i : ℕ) (cells : Cells) (l : ℕ)
    → IsBasic b
    → l < length cells
    → 0 < count_label l b
    → is_some (get_or (mark_labels b i cells) l none) ≡ true
block-finds b i cells l basic lt c = rw (basic.parts) (
    mark-finds basic.labels basic.body i cells l basic.all_labels lt (
      omega (
        arith,
        rw (basic.parts) at c,
        count_label-append l basic.labels basic.body,
        straight-count l basic.body basic.straight,
      )))

-- A label that a block places is found.
pub resolve_labels-finds :
    (bs : List Block) (i : ℕ) (cells : Cells) (l : ℕ)
    → AreBasic bs
    → l < length cells
    → 0 < count_label l (flatten bs)
    → is_some (get_or (resolve_labels bs i cells) l none) ≡ true
unfolding resolve_labels count_label
resolve_labels-finds [] i cells l h lt c = elim c [ ]
resolve_labels-finds (b ∷ bs) i cells l h lt c = elim (dec_lt 0 (count_label l b)) [
  | yes here ↦
      resolve-is_some bs (i + 1) (mark_labels b i cells) l (block-finds b i cells l h.0 lt here)
  | no later ↦
      resolve_labels-finds bs (i + 1) (mark_labels b i cells) l h.1
        (omega (arith, length-mark_labels b i cells))
        (omega (arith, count_label-append l b (flatten bs)))
]

max_label-le : (m : ℕ) (ns : List Node) → m ≤ max_label m ns
unfolding max_label
max_label-le m [] = omega arith
max_label-le m (n ∷ ns) = omega (arith, max_label-le (max m (index n)) ns)

max_label-count : (m l : ℕ) (ns : List Node) → 0 < count_label l ns → l ≤ max_label m ns
unfolding max_label count_label
max_label-count m l [] h = elim h [ ]
max_label-count m l (Node.expr (Expr.label k) ∷ ns) h =
    ground (arith, max_label-count (max m k) l ns, max_label-le (max m k) ns)
max_label-count m l (n ∷ ns) h = max_label-count (max m (index n)) l ns (omega arith)

build-max-le : (fuel : ℕ) (ns : List Node) (m j : ℕ) → m ≤ (build_basicblocks fuel ns m j).1
unfolding build_basicblocks
build-max-le zero ns m j = omega arith
build-max-le (suc fuel) [] m j = omega arith
build-max-le (suc fuel) (n ∷ ns) m j =
    let labels = take_labels (n ∷ ns) in
    let body = take_body labels.1 in
    omega
      (arith, max_label-le m labels.0, build-max-le fuel body.2 (max_label m labels.0) (j + body.1))

body-count : (l : ℕ) (ns : List Node) → count_label l (take_body ns).0 ≡ 0
body-count l ns = straight-count l (take_body ns).0 (take_body-IsStraight ns)

left_count :
    (l : ℕ) (n : Node) (ns : List Node)
    → count_label l (take_labels (n ∷ ns)).0 ≡ 0
    → 0 < count_label l (n ∷ ns)
    → 0 < count_label l (take_body (take_labels (n ∷ ns)).1).2
left_count l n ns h c =
    let labels = take_labels (n ∷ ns) in
    let body = take_body labels.1 in
    omega (
      arith,
      ap (count_label l) (take_labels-append (n ∷ ns)),
      ap (count_label l) (take_body-append labels.1),
      count_label-append l labels.0 labels.1,
      count_label-append l body.0 body.2,
      body-count l labels.1,
    )

-- `label_max` is at least each label that the nodes place.
pub build-max-count :
    (fuel : ℕ) (ns : List Node) (m j l : ℕ)
    → length ns ≤ fuel
    → 0 < count_label l ns
    → l ≤ (build_basicblocks fuel ns m j).1
unfolding build_basicblocks count_label
build-max-count zero [] m j l h c = elim c [ ]
build-max-count zero (n ∷ ns) m j l h c = absurd (omega arith)
build-max-count (suc fuel) [] m j l h c = elim c [ ]
build-max-count (suc fuel) (n ∷ ns) m j l h c =
    let labels = take_labels (n ∷ ns) in
    let body = take_body labels.1 in
    let rest = build-max-le fuel body.2 (max_label m labels.0) (j + body.1) in
    elim (dec_lt 0 (count_label l labels.0)) [
      | yes here ↦ omega (arith, max_label-count m l labels.0 here, rest)
      | no later ↦
          build-max-count fuel body.2 (max_label m labels.0) (j + body.1) l
            (omega (arith, take-shorter n ns)) (left_count l n ns (omega arith) c)
    ]
