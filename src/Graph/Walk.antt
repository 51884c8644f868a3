-- ===== src/Graph/Walk.antt =====
-- About `first_set` and `remove` of onestl/graph.cpp.
use native.Mathlib.Nat.{add_comm}
use onejit.Base.{
  ℕ, zero, suc, ◌+◌, ◌-◌, ◌*◌, ◌%◌, ◌^◌, ◌≤◌, ◌<◌, true, false, ◌==◌, ltb, leb, ◌||◌, if◌then◌else◌,
  ◌≡◌, ◌↔◌, refl, ap, ◌∙◌, subst, arith, Bool-cases, inl, inr, ltb→lt, ltb→le, leb→le,
}
use onejit.Libc.{Libc}
use onejit.BitSet.{BitSet, of_bool, no_pos}
use onejit.BitSet
use onejit.BitSet.Stored
use onejit.BitSet.Find.{Found, missing, found, find-Found}
use onejit.Graph.{Graph, first_set, degree, set, remove, remove_loop, no_node}
use onejit.Graph.Count.{count, count_zero, count_change, count_none}
use onejit.Graph.Adjacency.{node_count, adjacent, degree_of, IsValid}
use onejit.Graph.Edit.{IsEdited, set-IsEdited}

-- What `first_set` may answer about the neighbours of `node` from `first` on.
pub data NextNeighbor (g : Graph) (node first r : ℕ) : Type 0 where
  no_more :
      r ≡ no_node
      → ((k : ℕ) → first ≤ k → k < node_count g → adjacent g node k ≡ false)
      → NextNeighbor g node first r
  next :
      first ≤ r
      → r < node_count g
      → adjacent g node r ≡ true
      → ((k : ℕ) → first ≤ k → k < r → adjacent g node k ≡ false)
      → NextNeighbor g node first r

row-le : (n node : ℕ) → node < n → node * n + n ≤ n * n
row-le n node h = grind arith

module _ (c : Libc) (g : Graph) (node first : ℕ) (valid : IsValid g)
    (hn : node < node_count g) where
  abbrev n : ℕ
  n = node_count g

  abbrev hit : ℕ
  hit = BitSet.find c g.bits true (node * n + first) (node * n + n)

  -- The row is searched from column `first`.
  NextNeighbor-Found :
      (r : ℕ)
      → first < n
      → Found g.bits.words true (node * n + first) (node * n + n) r
      → NextNeighbor g node first (if r == no_pos then r % 2 ^ 32 else (r - node * n) % 2 ^ 32)
  NextNeighbor-Found r hf (missing e none_left) = rw e (
      no_more refl (λ k p q.
        ap (Stored.stored g.bits.words) (add_comm k (node * n))
        ∙ none_left (node * n + k) (omega arith) (omega arith)))
  NextNeighbor-Found r hf (found p q e none_before) =
      let room = row-le n node hn in
      let real : (r == no_pos) ≡ false =
        ground (arith, room, valid.square, valid.bits_valid.within, valid.bits_valid.bounded) in
      let small : (r - node * n) % 2 ^ 32 ≡ r - node * n = omega (arith, valid.bounded) in
      let column : r - node * n + node * n ≡ r = omega arith in
      rw (real, small)
        (next (omega arith) (omega arith) (ap (Stored.stored g.bits.words) column ∙ e) (λ k from to.
          ap (Stored.stored g.bits.words) (add_comm k (node * n))
          ∙ none_before (node * n + k) (omega arith) (omega arith)))

  -- `first_set` answers the first neighbour from `first` on, or `NoPos` when there is none.
  pub first_set-NextNeighbor : NextNeighbor g node first (first_set c g node first)
  unfolding first_set
  first_set-NextNeighbor = elim (Bool-cases (leb n first || degree_of g node == 0)) [
    | inl early ↦ rw early (
        no_more refl (λ k p q. elim (Bool-cases (leb n first)) [
          | inl past ↦ absurd (omega (arith, leb→le _ _ past))
          | inr inside ↦ count_zero n (adjacent g node) (ground (arith, valid.counted node hn)) k q
        ]))
    | inr searched ↦
        let room = row-le n node hn in
        let size-lt : node * n + n < 2 ^ 63 =
          omega (arith, room, valid.square, valid.bits_valid.within, valid.bits_valid.bounded) in
        let hf : first < n = ground arith in
        let w0 : node * n % 2 ^ 64 ≡ node * n = omega arith in
        let w1 : (node * n + first) % 2 ^ 64 ≡ node * n + first = omega arith in
        let w2 : (node * n + n) % 2 ^ 64 ≡ node * n + n = omega arith in
        let stop : (if ltb g.bits.size (node * n + n) then g.bits.size else node * n + n)
            ≡ node * n + n =
          ground (arith, room, valid.square) in
        let answer =
          find-Found c g.bits true (node * n + first) (node * n + n) valid.bits_valid (inl refl) in
        rw (searched, w0, w1, w2)
          (NextNeighbor-Found hit hf
            (subst (λ (t : ℕ). Found g.bits.words true (node * n + first) t hit) stop answer))
  ]

-- What `remove` promises: the invariant, the same nodes, no edge at `node`, and every other edge
-- as it was.
pub record IsRemoved (g : Graph) (node : ℕ) (t : Graph) : Type 0 where
  pub valid : IsValid t
  pub same_nodes : node_count t ≡ node_count g
  pub edges :
      (a b : ℕ)
      → a < node_count g
      → b < node_count g
      → adjacent t a b ≡ (if (a == node) || (b == node) then false else adjacent g a b)

-- A node without neighbours is removed already.
IsRemoved-isolated :
    (g : Graph) (node : ℕ)
    → IsValid g
    → node < node_count g
    → ((k : ℕ) → k < node_count g → adjacent g node k ≡ false)
    → IsRemoved g node g
IsRemoved-isolated g node valid hn none_left = record {
  valid = valid;
  same_nodes = refl;
  edges = λ a b ha hb. ground (arith, none_left a ha, none_left b hb, valid.symmetric a node ha hn);
}

-- Removing one edge first makes no difference.
IsRemoved-step :
    (g : Graph) (node r : ℕ) (g' t : Graph)
    → IsEdited g node r false g'
    → IsRemoved g' node t
    → IsRemoved g node t
IsRemoved-step g node r g' t edit rest = record {
  valid = rest.valid;
  same_nodes = rest.same_nodes ∙ edit.same_nodes;
  edges = λ a b ha hb. ground (
    arith,
    rest.edges a b (omega (arith, edit.same_nodes)) (omega (arith, edit.same_nodes)),
    edit.edges a b ha hb,
  );
}

remove_loop-IsRemoved :
    (c : Libc) (deg : ℕ) (g : Graph) (node other : ℕ)
    → IsValid g
    → node < node_count g
    → ((k : ℕ) → k < other → k < node_count g → adjacent g node k ≡ false)
    → count (node_count g) (adjacent g node) ≤ deg
    → IsRemoved g node (remove_loop c deg g node other)
unfolding remove_loop
remove_loop-IsRemoved c zero g node other valid hn before enough =
    IsRemoved-isolated g node valid hn
      (λ k hk. count_zero (node_count g) (adjacent g node) (omega arith) k hk)
remove_loop-IsRemoved c (suc deg) g node other valid hn before enough =
    elim (first_set-NextNeighbor c g node other valid hn) [
      | no_more e none_left ↦ rw e (
          IsRemoved-isolated g node valid hn (λ k hk. elim (Bool-cases (ltb k other)) [
            | inl early ↦ before k (ltb→lt _ _ early) hk
            | inr late ↦ none_left k (ltb→le _ _ late) hk
          ]))
      | next from r-lt joined none_before ↦
          let r = first_set c g node other in
          let real : (r == no_node) ≡ false = ground (arith, valid.bounded) in
          let step : (r + 1) % 2 ^ 32 ≡ r + 1 = omega (arith, valid.bounded) in
          let edit = set-IsEdited g node r false valid hn r-lt in
          let g' = set g node r false in
          let falls =
            count_change (node_count g) (adjacent g' node) (adjacent g node) r r-lt
              (λ k hk ne. edit.edges node k hn hk ∙ ground arith) in
          let gone : adjacent g' node r ≡ false = edit.edges node r hn r-lt ∙ ground arith in
          rw (real, step)
            (IsRemoved-step g node r g' _ edit (
              remove_loop-IsRemoved c deg g' node (r + 1) edit.valid
                (omega (arith, edit.same_nodes))
                (λ k hk hn'.
                  edit.edges node k hn (omega (arith, edit.same_nodes))
                  ∙ ground (arith, before k, none_before k))
                (let nodes = ap (λ (t : ℕ). count t (adjacent g' node)) edit.same_nodes in
                  omega (arith, ap of_bool gone, ap of_bool joined))))
    ]

-- `remove` of a node in range takes away exactly its edges, the one to itself included, and its
-- loop does not stop before the last of them.
pub remove-IsRemoved :
    (c : Libc) (g : Graph) (node : ℕ)
    → IsValid g
    → node < node_count g
    → IsRemoved g node (remove c g node)
unfolding remove degree
remove-IsRemoved c g node valid hn =
    remove_loop-IsRemoved c (degree_of g node) g node 0 valid hn (λ k h. elim h [ ])
      (omega (arith, valid.counted node hn))

-- A degree is 0 exactly at a node without edges.
pub degree-zero_iff :
    (g : Graph) (node : ℕ)
    → IsValid g
    → node < node_count g
    → (degree g node ≡ 0) ↔ ((k : ℕ) → k < node_count g → adjacent g node k ≡ false)
unfolding degree
degree-zero_iff g node valid hn = (
  λ e. count_zero (node_count g) (adjacent g node) (omega (arith, valid.counted node hn)),
  λ none_left. omega (
    arith,
    valid.counted node hn,
    ap of_bool (none_left node hn),
    count_none (node_count g) (adjacent g node) none_left,
  ),
)
