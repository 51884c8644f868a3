-- ===== src/FlowGraph/Blocks.antt =====
-- The blocks of `build_basicblocks` of onejit/flowgraph.cpp against the list of nodes.
use onejit.Base.{
  ℕ, zero, suc, ◌+◌, ◌≤◌, true, false, List, [], ◌∷◌, ◌++◌, length, ◌≡◌, refl, ap, ◌∙◌, arith,
  Bool-cases, inl, inr,
}
use mathlib.Core.List.{append_assoc}
use onejit.Ir
use onejit.Ir.{Node}
use onejit.FlowGraph.{Block, is_label, take_labels, take_body, build_basicblocks, max_label}

abbrev pub flatten : List Block → List Node
flatten [] = []
flatten (b ∷ bs) = b ++ flatten bs

pub take_labels-append : (ns : List Node) → (take_labels ns).0 ++ (take_labels ns).1 ≡ ns
unfolding take_labels
take_labels-append [] = refl
take_labels-append (n ∷ ns) = elim (Bool-cases (is_label n)) [
  | inl h ↦ rw h (ap (◌∷◌ n) (take_labels-append ns))
  | inr h ↦ rw h refl
]

pub take_body-append : (ns : List Node) → (take_body ns).0 ++ (take_body ns).2 ≡ ns
unfolding take_body
take_body-append [] = refl
take_body-append (n ∷ ns) = ground (arith, take_body-append ns)

take_labels-le : (ns : List Node) → length (take_labels ns).1 ≤ length ns
unfolding take_labels
take_labels-le [] = omega arith
take_labels-le (n ∷ ns) = ground (arith, take_labels-le ns)

take_body-le : (ns : List Node) → length (take_body ns).2 ≤ length ns
unfolding take_body
take_body-le [] = omega arith
take_body-le (n ∷ ns) = ground (arith, take_body-le ns)

take_body-lt :
    (n : Node) (ns : List Node) → is_label n ≡ false → length (take_body (n ∷ ns)).2 ≤ length ns
unfolding take_body
take_body-lt n ns h = ground (arith, take_body-le ns)

-- A round takes a node at least.
pub take-shorter :
    (n : Node) (ns : List Node) → length (take_body (take_labels (n ∷ ns)).1).2 ≤ length ns
unfolding take_labels
take-shorter n ns = elim (Bool-cases (is_label n)) [
  | inl h ↦ rw h (omega (arith, take_body-le (take_labels ns).1, take_labels-le ns))
  | inr h ↦ rw h (take_body-lt n ns h)
]

glue :
    (labels body : List Node) {rest left back whole : List Node}
    → rest ≡ left
    → body ++ left ≡ back
    → labels ++ back ≡ whole
    → (labels ++ body) ++ rest ≡ whole
glue labels body {rest} {left} p q r =
    append_assoc labels body rest ∙ ap (λ t. labels ++ (body ++ t)) p ∙ ap (λ t. labels ++ t) q ∙ r

pub build-flatten :
    (fuel : ℕ) (ns : List Node) (m j : ℕ)
    → length ns ≤ fuel
    → flatten (build_basicblocks fuel ns m j).0 ≡ ns
unfolding build_basicblocks
build-flatten zero [] m j h = refl
build-flatten zero (n ∷ ns) m j h = absurd (omega arith)
build-flatten (suc fuel) [] m j h = refl
build-flatten (suc fuel) (n ∷ ns) m j h =
    glue (take_labels (n ∷ ns)).0 (take_body (take_labels (n ∷ ns)).1).0
      (build-flatten fuel (take_body (take_labels (n ∷ ns)).1).2
        (max_label m (take_labels (n ∷ ns)).0) (j + (take_body (take_labels (n ∷ ns)).1).1)
        (omega (arith, take-shorter n ns)))
      (take_body-append (take_labels (n ∷ ns)).1) (take_labels-append (n ∷ ns))

-- A jump is the last node of its part, and no node of it is a label.
abbrev pub IsStraight : List Node → Type 0
IsStraight [] = Unit {0}
IsStraight (n ∷ []) = is_label n ≡ false
IsStraight (n ∷ m ∷ ns) = (is_label n ≡ false) × (Ir.is_jump n ≡ false) × IsStraight (m ∷ ns)

abbrev pub AreLabels : List Node → Type 0
AreLabels [] = Unit {0}
AreLabels (n ∷ ns) = (is_label n ≡ true) × AreLabels ns

-- A basic block: labels, then nodes that run one after the other
pub record IsBasic (b : Block) : Type 0 where
  pub labels : List Node
  pub body : List Node
  pub parts : b ≡ labels ++ body
  pub all_labels : AreLabels labels
  pub straight : IsStraight body

abbrev pub AreBasic : List Block → Type 0
AreBasic [] = Unit {0}
AreBasic (b ∷ bs) = IsBasic b × AreBasic bs

pub take_labels-AreLabels : (ns : List Node) → AreLabels (take_labels ns).0
unfolding take_labels
take_labels-AreLabels [] = tt
take_labels-AreLabels (n ∷ ns) = elim (Bool-cases (is_label n)) [
  | inl h ↦ rw h (h, take_labels-AreLabels ns)
  | inr h ↦ rw h tt
]

not_jump :
    (n : Node) → Ir.is_uncond_jump n ≡ false → Ir.is_cond_jump n ≡ false → Ir.is_jump n ≡ false
unfolding Ir.is_jump
not_jump n u c = rw (u, c) refl

IsStraight-cons :
    (n : Node) (ns : List Node)
    → is_label n ≡ false
    → Ir.is_jump n ≡ false
    → IsStraight ns
    → IsStraight (n ∷ ns)
IsStraight-cons n [] h k s = h
IsStraight-cons n (m ∷ ns) h k s = (h, k, s)

pub take_body-IsStraight : (ns : List Node) → IsStraight (take_body ns).0
unfolding take_body
take_body-IsStraight [] = tt
take_body-IsStraight (n ∷ ns) = elim (Bool-cases (is_label n)) [
  | inl h ↦ rw h tt
  | inr h ↦ elim (Bool-cases (Ir.is_uncond_jump n)) [
    | inl u ↦ rw (h, u) h
    | inr u ↦ elim (Bool-cases (Ir.is_cond_jump n)) [
      | inl c ↦ rw (h, u, c) h
      | inr c ↦
          rw (h, u, c)
            (IsStraight-cons n (take_body ns).0 h (not_jump n u c) (take_body-IsStraight ns))
    ]
  ]
]

pub build-AreBasic :
    (fuel : ℕ) (ns : List Node) (m j : ℕ) → AreBasic (build_basicblocks fuel ns m j).0
unfolding build_basicblocks
build-AreBasic zero ns m j = tt
build-AreBasic (suc fuel) [] m j = tt
build-AreBasic (suc fuel) (n ∷ ns) m j = (
  record {
    labels = (take_labels (n ∷ ns)).0;
    body = (take_body (take_labels (n ∷ ns)).1).0;
    parts = refl;
    all_labels = take_labels-AreLabels (n ∷ ns);
    straight = take_body-IsStraight (take_labels (n ∷ ns)).1;
  },
  build-AreBasic fuel _ _ _,
)

-- For fuel of at least the number of nodes, the blocks in their order are the nodes, each node
-- once; labels stand only at the start of a block, and the jumps that `is_jump` knows only at its
-- end.
pub build_basicblocks_partition :
    (fuel : ℕ) (ns : List Node)
    → length ns ≤ fuel
    → (flatten (build_basicblocks fuel ns 0 0).0 ≡ ns) × AreBasic (build_basicblocks fuel ns 0 0).0
build_basicblocks_partition fuel ns h = (build-flatten fuel ns 0 0 h, build-AreBasic fuel ns 0 0)
