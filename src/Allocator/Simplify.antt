-- ===== src/Allocator/Simplify.antt =====
-- About the first phase of `allocate_regs` of onejit/reg/allocator.cpp: registers go from the graph
-- to the stack.
use onejit.Base.{
  ap₂, ◌⊎◌, ℕ, zero, suc, ◌+◌, ◌%◌, ◌^◌, ◌≤◌, ◌<◌, Bool, true, false, not, ◌==◌, ltb, leb, ◌&&◌,
  ◌||◌, List, [], ◌∷◌, ◌++◌, length, get_or, length-append, get_or-append_left, get_or-append_right,
  ◌≡◌, ◌≢◌, refl, ap, ◌∙◌, sym, subst, arith, Bool-cases, inl, inr, ltb→lt, ltb→le, leb→le, ==_iff,
  ==-false_iff,
}
use onejit.Libc.{Libc}
use onejit.Array
use onejit.Array.{Array}
use onejit.BitSet.{of_bool}
use onejit.Graph
use onejit.Graph.{Graph, no_node}
use onejit.Graph.Adjacency.{node_count, adjacent}
use onejit.Graph.Count.{count, count_zero, count_change}
use onejit.Graph.Walk.{IsRemoved, remove-IsRemoved, degree-zero_iff}
use onejit.Allocator.{
  find_degree_loop, find_degree_less_than, pick_loop, pick, next_reg, simplify, no_reg,
}
use onejit.Allocator.Taken.{any_below, any_below-true, any_below_congr}
use onejit.Allocator.Reconnect.{IsMarked}

-- The scan answers `NoReg` or a register of degree 2 or more.
find_degree_loop-found :
    (g : Graph) (bound left i : ℕ)
    → (find_degree_loop g bound left i ≡ no_reg)
      ⊎ ((find_degree_loop g bound left i < i + left)
          × (2 ≤ Graph.degree g (find_degree_loop g bound left i)))
unfolding find_degree_loop
find_degree_loop-found g bound zero i = inl refl
find_degree_loop-found g bound (suc left) i =
    elim (Bool-cases (leb 2 (Graph.degree g i) && ltb (Graph.degree g i) bound)) [
      | inl hit ↦ rw hit (inr (omega arith, leb→le _ _ (ground arith)))
      | inr miss ↦ rw miss (elim (find_degree_loop-found g bound left (i + 1)) [
        | inl e ↦ inl e
        | inr (p, q) ↦ inr (omega arith, q)
      ])
    ]

-- The register of highest degree among those from `i` on and the one held so far.
pick_loop-found :
    (g : Graph) (left i reg deg n : ℕ)
    → i + left ≡ n
    → ((reg ≡ no_reg) × (deg ≡ 0)) ⊎ ((reg < n) × (Graph.degree g reg ≡ deg) × (1 ≤ deg))
    → ((pick_loop g left i reg deg ≡ no_reg)
        × (deg ≡ 0)
        × ((k : ℕ) → i ≤ k → k < n → Graph.degree g k ≡ 0))
      ⊎ ((pick_loop g left i reg deg < n) × (1 ≤ Graph.degree g (pick_loop g left i reg deg)))
unfolding pick_loop
pick_loop-found g zero i reg deg n e held = elim held [
  | inl (p, q) ↦ inl (p, q, λ k a b. absurd (omega arith))
  | inr (p, q, r) ↦ inr (p, omega arith)
]
pick_loop-found g (suc left) i reg deg n e held =
    let d = Graph.degree g i in
    elim (Bool-cases (ltb deg d)) [
      | inl more ↦
          rw more
            (elim (pick_loop-found g left (i + 1) i d n (omega arith)
              (inr (omega arith, refl, omega (arith, ltb→lt _ _ more)))) [
                | inl (p, q, r) ↦ absurd (omega (arith, ltb→lt _ _ more))
                | inr found ↦ inr found
              ])
      | inr less ↦ rw less (elim (pick_loop-found g left (i + 1) reg deg n (omega arith) held) [
        | inl (p, q, r) ↦ inl (
          p,
          q,
          λ k a b. elim (Bool-cases (k == i)) [
            | inl here ↦
                let same : Graph.degree g k ≡ d = ap (Graph.degree g) ((==_iff _ _).0 here) in
                omega (arith, ltb→le _ _ less)
            | inr later ↦ r k (omega (arith, (==-false_iff _ _).0 later)) b
          ],
        )
        | inr found ↦ inr found
      ])
    ]

-- What the loops of `allocate_regs` take next: a register that still has edges, or `NoReg` when
-- no register has any.
pub data NextReg (n : ℕ) (g : Graph) (r : ℕ) : Type 0 where
  all_gone : r ≡ no_reg → ((k : ℕ) → k < n → Graph.degree g k ≡ 0) → NextReg n g r
  present : r < n → 1 ≤ Graph.degree g r → NextReg n g r

-- The register that is taken next is in range and has edges, and it is `NoReg` only when no
-- register has any.
pub next_reg-NextReg :
    (g : Graph) (num_colors n : ℕ)
    → Graph.size g ≡ n
    → n < 2 ^ 30
    → NextReg n g (next_reg g num_colors)
unfolding next_reg find_degree_less_than pick
next_reg-NextReg g num_colors n e small =
    let low = find_degree_loop g ((2 + num_colors) % 2 ^ 32) (Graph.size g) 0 in
    elim (find_degree_loop-found g ((2 + num_colors) % 2 ^ 32) (Graph.size g) 0) [
      | inr (p, q) ↦
          let real : (low == no_reg) ≡ false = ground arith in
          rw real (present (omega arith) (omega arith))
      | inl none_low ↦
          let real : (low == no_reg) ≡ true = (==_iff _ _).1 none_low in
          rw real
            (elim (pick_loop-found g (Graph.size g) 0 no_reg 0 n (omega arith) (inl (refl, refl))) [
              | inl (p, q, r) ↦ all_gone p (λ k h. r k (omega arith) h)
              | inr (p, q) ↦ present p q
            ])
    ]

-- Register `k` is among the first `j` entries of the stack.
abbrev pub on_stack : List ℕ → ℕ → ℕ → Bool
on_stack items j k = any_below j (λ i. get_or items i 0 == k)

-- The registers on the stack are in range and distinct, and they are those that have left the graph.
pub record IsStacked (n : ℕ) (g : Graph) (items : List ℕ) : Type 0 where
  pub marked : IsMarked n g
  pub in_range : (i : ℕ) → i < length items → get_or items i 0 < n
  pub distinct : (i j : ℕ) → i < j → j < length items → get_or items i 0 ≢ get_or items j 0
  pub left_graph : (k : ℕ) → k < n → adjacent g k k ≡ not (on_stack items (length items) k)

-- One register more on the stack.
module _ (items : List ℕ) (reg : ℕ) where
  length-push : length (items ++ reg ∷ []) ≡ suc (length items)
  length-push = omega (arith, length-append {0} items (reg ∷ []))

  push_old : (i : ℕ) → i < length items → get_or (items ++ reg ∷ []) i 0 ≡ get_or items i 0
  push_old i h = get_or-append_left items (reg ∷ []) i 0 h

  push_top : get_or (items ++ reg ∷ []) (length items) 0 ≡ reg
  push_top =
      let z : ℕ = 0 in
      ap (λ (t : ℕ). get_or (items ++ reg ∷ []) t 0) (omega arith)
      ∙ get_or-append_right items (reg ∷ []) z 0

  on_stack-push :
      (k : ℕ)
      → on_stack (items ++ reg ∷ []) (length (items ++ reg ∷ [])) k
        ≡ ((reg == k) || on_stack items (length items) k)
  on_stack-push k =
      ap (λ (t : ℕ). on_stack (items ++ reg ∷ []) t k) length-push
      ∙ ap₂ (λ (a b : Bool). a || b) (ap (λ (t : ℕ). t == k) push_top)
          (any_below_congr (length items) (λ i. get_or (items ++ reg ∷ []) i 0 == k)
            (λ i. get_or items i 0 == k) (λ i h. ap (λ (t : ℕ). t == k) (push_old i h)))

-- A register on the stack is not in the graph.
not_on_stack :
    (n : ℕ) (g : Graph) (items : List ℕ) (reg i : ℕ)
    → IsStacked n g items
    → reg < n
    → adjacent g reg reg ≡ true
    → i < length items
    → get_or items i 0 ≢ reg
not_on_stack n g items reg i stacked hr self hi e = ground (
  arith,
  stacked.left_graph reg hr,
  any_below-true (length items) (λ j. get_or items j 0 == reg) i hi ((==_iff _ _).1 e),
)

IsStacked-push :
    (n : ℕ) (g t : Graph) (items : List ℕ) (reg : ℕ)
    → IsStacked n g items
    → reg < n
    → adjacent g reg reg ≡ true
    → IsRemoved g reg t
    → IsStacked n t (items ++ reg ∷ [])
IsStacked-push n g t items reg stacked hr self gone =
    let nodes = stacked.marked.nodes in
    record {
      marked = record {
        valid = gone.valid;
        nodes = gone.same_nodes ∙ nodes;
        marked = λ a b ha hb away.
            gone.edges a b (omega (arith, nodes)) (omega (arith, nodes))
            ∙ ground (
              arith,
              gone.edges a a (omega (arith, nodes)) (omega (arith, nodes)),
              stacked.marked.marked a b ha hb,
            );
      };
      in_range = λ i hi. elim (Bool-cases (i == length items)) [
        | inl top ↦ omega (
          arith,
          ap (λ (t : ℕ). get_or (items ++ reg ∷ []) t 0) ((==_iff _ _).0 top),
          push_top items reg,
        )
        | inr old ↦
            let below : i < length items =
              omega (arith, length-push items reg, (==-false_iff _ _).0 old) in
            omega (arith, push_old items reg i below, stacked.in_range i below)
      ];
      distinct = λ i j hij hj same. elim (Bool-cases (j == length items)) [
        | inl top ↦
            let below : i < length items = omega (arith, (==_iff _ _).0 top) in
            not_on_stack n g items reg i stacked hr self below (
              sym (push_old items reg i below)
              ∙ same
              ∙ ap (λ (t : ℕ). get_or (items ++ reg ∷ []) t 0) ((==_iff _ _).0 top)
              ∙ push_top items reg)
        | inr old ↦
            let below : j < length items =
              omega (arith, length-push items reg, (==-false_iff _ _).0 old) in
            stacked.distinct i j hij below
              (sym (push_old items reg i (omega arith)) ∙ same ∙ push_old items reg j below)
      ];
      left_graph = λ k hk.
          gone.edges k k (omega (arith, nodes)) (omega (arith, nodes))
          ∙ ground (arith, stacked.left_graph k hk, on_stack-push items reg k);
    }

-- A register that has edges has the self-connection, and removing it takes that away.
self_of_degree :
    (n : ℕ) (g : Graph) (reg : ℕ)
    → IsMarked n g
    → reg < n
    → 1 ≤ Graph.degree g reg
    → adjacent g reg reg ≡ true
self_of_degree n g reg marked hr some_edge = elim (Bool-cases (adjacent g reg reg)) [
  | inl self ↦ self
  | inr away ↦
      let isolated =
        (degree-zero_iff g reg marked.valid (omega (arith, marked.nodes))).1
          (λ k hk. marked.marked reg k hr (omega (arith, marked.nodes)) away) in
      absurd (omega arith)
]

present_falls :
    (n : ℕ) (g t : Graph) (reg : ℕ)
    → node_count g ≡ n
    → reg < n
    → adjacent g reg reg ≡ true
    → IsRemoved g reg t
    → suc (count n (λ k. adjacent t k k)) ≡ count n (λ k. adjacent g k k)
present_falls n g t reg nodes hr self gone =
    let change =
      count_change n (λ k. adjacent t k k) (λ k. adjacent g k k) reg hr
        (λ k hk ne. gone.edges k k (omega (arith, nodes)) (omega (arith, nodes)) ∙ ground arith) in
    let off : adjacent t reg reg ≡ false =
      gone.edges reg reg (omega (arith, nodes)) (omega (arith, nodes)) ∙ ground arith in
    omega (arith, ap of_bool self, ap of_bool off)

append_granted :
    (stack : Array ℕ) (reg : ℕ) (P : List ℕ → Type 0)
    → P (stack.items ++ reg ∷ [])
    → P (Array.append true stack reg).0.items
unfolding Array.append Array.grow_cap Array.reserve
append_granted stack reg P p =
    let e : (Array.append true stack reg).0.items ≡ stack.items ++ reg ∷ [] = ground arith in
    subst P (sym e) p

-- Enough fuel empties the graph.
pub simplify-IsStacked :
    (c : Libc) (n num_colors fuel : ℕ) (g : Graph) (stack : Array ℕ)
    → n < 2 ^ 30
    → IsStacked n g stack.items
    → count n (λ k. adjacent g k k) ≤ fuel
    → IsStacked n
        (simplify c num_colors fuel g stack).0
        (simplify c num_colors fuel g stack).1.items
      × ((k : ℕ) → k < n → adjacent (simplify c num_colors fuel g stack).0 k k ≡ false)
unfolding simplify
simplify-IsStacked c n num_colors zero g stack small stacked enough =
    (stacked, count_zero n (λ k. adjacent g k k) (omega arith))
simplify-IsStacked c n num_colors (suc fuel) g stack small stacked enough =
    let size_n : Graph.size g ≡ n =
      unfold Graph.size in unfold Array.size in stacked.marked.nodes in
    elim (next_reg-NextReg g num_colors n size_n small) [
      | all_gone e isolated ↦ rw e (
        stacked,
        λ k hk.
            (degree-zero_iff g k stacked.marked.valid (omega (arith, stacked.marked.nodes))).0
              (isolated k hk) k (omega (arith, stacked.marked.nodes)),
      )
      | present hr edges ↦
          let reg = next_reg g num_colors in
          let real : (reg == no_reg) ≡ false = ground arith in
          let self = self_of_degree n g reg stacked.marked hr edges in
          let gone =
            remove-IsRemoved c g reg stacked.marked.valid (omega (arith, stacked.marked.nodes)) in
          rw real (
            simplify-IsStacked c n num_colors fuel (Graph.remove c g reg)
              (Array.append true stack reg).0 small
              (append_granted stack reg (IsStacked n (Graph.remove c g reg))
                (IsStacked-push n g (Graph.remove c g reg) stack.items reg stacked hr self gone))
              (omega (
                arith,
                present_falls n g (Graph.remove c g reg) reg stacked.marked.nodes hr self gone,
              )))
    ]
