-- ===== src/Graph/Edit.antt =====
-- About `set` of onestl/graph.cpp.
use onejit.Base.{
  ap₂, ℕ, ◌+◌, ◌-◌, ◌*◌, ◌%◌, ◌^◌, ◌≤◌, ◌<◌, Bool, true, false, not, xor, ◌⊎◌, ◌==◌, ltb, leb, ◌&&◌,
  ◌||◌, if◌then◌else◌, length, get_or, length-set, get_or-set_self, get_or-set_ne, ◌≡◌, ◌≢◌, refl,
  ap, ◌∙◌, sym, arith, Bool-cases, inl, inr, ltb→lt, lt→ltb, ltb→le, ==_iff, ==-false_iff,
}
use onejit.Array.{Array}
use onejit.BitSet.{BitSet, of_bool}
use onejit.BitSet
use onejit.BitSet.Stored
use onejit.BitSet.Stored.{stored}
use onejit.BitSet.Fill
use onejit.Graph.{Graph, bump, write_edge, set_ordered, set}
use onejit.Graph.Count.{count, count_change, count_congr, count-le, of_bool-le}
use onejit.Graph.Adjacency.{
  node_count, adjacent, degree_of, IsValid, offset-lt, offset_eq, at-eq-adjacent,
}

length-bump :
    (degrees : Array ℕ) (node delta : ℕ)
    → length (bump degrees node delta).items ≡ length degrees.items
unfolding bump
length-bump degrees node delta =
    ground (arith, length-set degrees.items node ((get_or degrees.items node 0 + delta) % 2 ^ 32))

get_or-bump :
    (degrees : Array ℕ) (node delta i : ℕ)
    → node < length degrees.items
    → get_or (bump degrees node delta).items i 0 ≡ (
        if i == node
        then (get_or degrees.items node 0 + delta) % 2 ^ 32
        else get_or degrees.items i 0)
unfolding bump
get_or-bump degrees node delta i h = elim (Bool-cases (i == node)) [
  | inl same ↦
      let e : i ≡ node = (==_iff _ _).0 same in
      rw (lt→ltb _ _ h, same) (rw e (get_or-set_self degrees.items node _ 0 h))
  | inr other ↦
      rw (lt→ltb _ _ h, other)
        (get_or-set_ne degrees.items node i _ 0 (λ e. (==-false_iff _ _).0 other (sym e)))
]

module _ (g : Graph) (hi lo : ℕ) (v : Bool) (valid : IsValid g) (hh : hi < node_count g)
    (hl : lo < node_count g) where
  abbrev n : ℕ
  n = node_count g

  abbrev delta : ℕ
  delta = (of_bool v + (2 ^ 32 - of_bool (not v))) % 2 ^ 32

  abbrev after : Graph
  after = write_edge g hi lo v delta

  node_count-write_edge : node_count after ≡ n
  unfolding write_edge
  node_count-write_edge =
      length-bump (bump g.degrees hi delta) lo delta ∙ length-bump g.degrees hi delta

  abbrev once : BitSet
  once = BitSet.set g.bits (hi + lo * n) v

  once-IsValid : Stored.IsValid once
  once-IsValid = Fill.set-IsValid g.bits (hi + lo * n) v valid.bits_valid

  bits-write_edge : Stored.IsValid after.bits × (after.bits.size ≡ g.bits.size)
  unfolding write_edge
  bits-write_edge =
      let first = Fill.set-SameShape g.bits (hi + lo * n) v in
      let second = Fill.set-SameShape once (lo + hi * n) v in
      elim (Bool-cases (hi == lo)) [
        | inl loop ↦ rw loop (once-IsValid, first.same_size)
        | inr edge ↦
            rw edge (
              Fill.set-IsValid once (lo + hi * n) v once-IsValid,
              second.same_size ∙ first.same_size,
            )
      ]

  -- The cells that are written.
  abbrev is_edge : ℕ → ℕ → Bool
  is_edge c d = ((c == lo) && (d == hi)) || ((c == hi) && (d == lo))

  adjacent-write_edge :
      (c d : ℕ) → c < n → d < n → adjacent after c d ≡ (if is_edge c d then v else adjacent g c d)
  adjacent-write_edge c d hc hd =
      ap (λ (t : ℕ). stored after.bits.words (d + c * t)) node_count-write_edge ∙ cell
    where
      cell : stored after.bits.words (d + c * n) ≡ (if is_edge c d then v else adjacent g c d)
      cell =
          unfold write_edge in
          ground (
            arith,
            Fill.stored-set g.bits (hi + lo * n) v (d + c * n) valid.bits_valid,
            Fill.stored-set once (lo + hi * n) v (d + c * n) once-IsValid,
            (Fill.set-SameShape g.bits (hi + lo * n) v).same_size,
            offset-lt n lo hi hl hh,
            offset-lt n hi lo hh hl,
            offset_eq n c d lo hi hd hh,
            offset_eq n c d hi lo hd hl,
            valid.square,
          )

  degree_of-write_edge :
      (c : ℕ)
      → degree_of after c ≡ (
          if c == hi
          then (if hi == lo
              then ((degree_of g c + delta) % 2 ^ 32 + delta) % 2 ^ 32
              else (degree_of g c + delta) % 2 ^ 32)
          else if c == lo
          then (degree_of g c + delta) % 2 ^ 32
          else degree_of g c)
  unfolding write_edge
  degree_of-write_edge c = ground (
    arith,
    get_or-bump g.degrees hi delta c hh,
    get_or-bump g.degrees hi delta lo hh,
    get_or-bump (bump g.degrees hi delta) lo delta c
        (omega (arith, length-bump g.degrees hi delta)),
  )

  -- The row of a node that is no end of the edge.
  counted_elsewhere :
      (c : ℕ)
      → c < n
      → c ≢ hi
      → c ≢ lo
      → count n (adjacent after c) + of_bool (adjacent after c c)
        ≡ count n (adjacent g c) + of_bool (adjacent g c c)
  counted_elsewhere c hc nh nl =
      let row = λ (d : ℕ) (hd : d < n). adjacent-write_edge c d hc hd ∙ ground arith in
      ap₂ ◌+◌ (count_congr n (adjacent after c) (adjacent g c) row) (ap of_bool (row c hc))

  module _ (prev : adjacent g lo hi ≡ not v) where
    -- The row of one end changes at the other end.
    row_change :
        (c d : ℕ)
        → c < n
        → d < n
        → is_edge c d ≡ true
        → ((k : ℕ) → k ≢ d → is_edge c k ≡ false)
        → count n (adjacent after c) + of_bool (not v) ≡ count n (adjacent g c) + of_bool v
    row_change c d hc hd at_edge off_edge =
        let new : adjacent after c d ≡ v = adjacent-write_edge c d hc hd ∙ rw at_edge in
        let old : adjacent g c d ≡ not v = ground (arith, valid.symmetric lo hi hl hh) in
        let change =
          count_change n (adjacent after c) (adjacent g c) d hd
            (λ k hk ne. adjacent-write_edge c k hc hk ∙ rw (off_edge k ne)) in
        ground arith

    delta_step :
        (x y : ℕ) → x + of_bool (not v) ≡ y + of_bool v → x < 2 ^ 32 → (y + delta) % 2 ^ 32 ≡ x
    delta_step x y e h = elim (Bool-cases v) [ inl up ↦ ground arith | inr down ↦ ground arith ]

    -- The degree of one end of an edge between two nodes.
    counted_end :
        (c d : ℕ)
        → c < n
        → d < n
        → c ≢ d
        → is_edge c d ≡ true
        → ((k : ℕ) → k ≢ d → is_edge c k ≡ false)
        → (degree_of g c + delta) % 2 ^ 32
          ≡ count n (adjacent after c) + of_bool (adjacent after c c)
    counted_end c d hc hd ne at_edge off_edge =
        let self : adjacent after c c ≡ adjacent g c c =
          adjacent-write_edge c c hc hc ∙ rw (off_edge c ne) in
        let self_bit = ap of_bool self in
        let change = row_change c d hc hd at_edge off_edge in
        let here = valid.counted c hc in
        delta_step (count n (adjacent after c) + of_bool (adjacent after c c)) (degree_of g c)
          (omega arith)
          (omega
            (arith, count-le n (adjacent after c), of_bool-le (adjacent after c c), valid.bounded))

    -- The degree of a node that is joined to itself, or no longer is.
    counted_loop :
        (c : ℕ)
        → c < n
        → is_edge c c ≡ true
        → ((k : ℕ) → k ≢ c → is_edge c k ≡ false)
        → ((degree_of g c + delta) % 2 ^ 32 + delta) % 2 ^ 32
          ≡ count n (adjacent after c) + of_bool (adjacent after c c)
    counted_loop c hc at_edge off_edge =
        let new : of_bool (adjacent after c c) ≡ of_bool v =
          ap of_bool (adjacent-write_edge c c hc hc ∙ rw at_edge) in
        let old : of_bool (adjacent g c c) ≡ of_bool (not v) =
          ap of_bool (ground (arith, valid.symmetric lo hi hl hh)) in
        let change = row_change c c hc hc at_edge off_edge in
        let here = valid.counted c hc in
        let small = count-le n (adjacent after c) in
        let mid : (degree_of g c + delta) % 2 ^ 32 ≡ count n (adjacent after c) + of_bool (not v) =
          delta_step (count n (adjacent after c) + of_bool (not v)) (degree_of g c) (omega arith)
            (omega (arith, of_bool-le (not v), valid.bounded)) in
        ap (λ (t : ℕ). (t + delta) % 2 ^ 32) mid
        ∙ delta_step (count n (adjacent after c) + of_bool (adjacent after c c))
            (count n (adjacent after c) + of_bool (not v)) (omega arith)
            (omega (arith, of_bool-le v, valid.bounded))

    counted-write_edge :
        (c : ℕ)
        → c < n
        → degree_of after c ≡ count n (adjacent after c) + of_bool (adjacent after c c)
    counted-write_edge c hc = elim (Bool-cases (c == hi)) [
      | inr nh ↦ elim (Bool-cases (c == lo)) [
        | inr nl ↦
            degree_of-write_edge c
            ∙ rw (nh, nl)
                (ground (
                  arith,
                  counted_elsewhere c hc ((==-false_iff _ _).0 nh) ((==-false_iff _ _).0 nl),
                  valid.counted c hc,
                ))
        | inl is_lo ↦
            degree_of-write_edge c
            ∙ rw (nh, is_lo)
                (counted_end c hi hc hh ((==-false_iff _ _).0 nh) (ground arith)
                  (λ k ne. ground arith))
      ]
      | inl is_hi ↦ elim (Bool-cases (hi == lo)) [
        | inl loop ↦
            degree_of-write_edge c
            ∙ rw (is_hi, loop) (counted_loop c hc (ground arith) (λ k ne. ground arith))
        | inr edge ↦
            degree_of-write_edge c
            ∙ rw (is_hi, edge)
                (counted_end c lo hc hl (ground arith) (ground arith) (λ k ne. ground arith))
      ]
    ]

    write_edge-IsValid : IsValid after
    write_edge-IsValid = record {
      bits_valid = bits-write_edge.0;
      square = bits-write_edge.1 ∙ rw node_count-write_edge valid.square;
      bounded = rw node_count-write_edge valid.bounded;
      symmetric = λ c d hc' hd'.
          let hc : c < n = omega (arith, node_count-write_edge) in
          let hd : d < n = omega (arith, node_count-write_edge) in
          ground (
            arith,
            adjacent-write_edge c d hc hd,
            adjacent-write_edge d c hd hc,
            valid.symmetric c d hc hd,
          );
      counted = λ c hc.
          counted-write_edge c (omega (arith, node_count-write_edge))
          ∙ ap (λ (t : ℕ). count t (adjacent after c) + of_bool (adjacent after c c))
              (sym node_count-write_edge);
    }

-- What `set` promises: the invariant, the same nodes, the edge with the new value in both
-- directions, and every other edge as it was.
pub record IsEdited (g : Graph) (a b : ℕ) (v : Bool) (t : Graph) : Type 0 where
  pub valid : IsValid t
  pub same_nodes : node_count t ≡ node_count g
  pub edges :
      (c d : ℕ)
      → c < node_count g
      → d < node_count g
      → adjacent t c d
        ≡ (if ((c == a) && (d == b)) || ((c == b) && (d == a)) then v else adjacent g c d)

set_ordered-IsEdited :
    (g : Graph) (hi lo : ℕ) (v : Bool)
    → IsValid g
    → lo ≤ hi
    → hi < node_count g
    → IsEdited g hi lo v (set_ordered g hi lo v)
unfolding set_ordered
set_ordered-IsEdited g hi lo v valid order hh =
    let hl : lo < node_count g = omega arith in
    let n = node_count g in
    let here = at-eq-adjacent g lo hi valid hl hh in
    let in_range : leb n hi ≡ false = ground arith in
    elim (Bool-cases (xor (adjacent g lo hi) v)) [
      | inr same ↦
          let prev : BitSet.at g.bits (hi + lo * n) ≡ v = ground arith in
          let still : (of_bool v + (2 ^ 32 - of_bool v)) % 2 ^ 32 ≡ 0 =
            omega (arith, of_bool-le v) in
          rw (in_range, prev, still)
            (record {
              valid = valid;
              same_nodes = refl;
              edges = λ c d hc hd. ground (arith, valid.symmetric lo hi hl hh);
            })
      | inl changes ↦
          let before : adjacent g lo hi ≡ not v = ground arith in
          let prev : BitSet.at g.bits (hi + lo * n) ≡ not v = here ∙ before in
          let moves : ((of_bool v + (2 ^ 32 - of_bool (not v))) % 2 ^ 32 == 0) ≡ false =
            ground arith in
          rw (in_range, prev, moves)
            (record {
              valid = write_edge-IsValid g hi lo v valid hh hl before;
              same_nodes = node_count-write_edge g hi lo v valid hh hl;
              edges =
                  λ c d hc hd. adjacent-write_edge g hi lo v valid hh hl c d hc hd ∙ ground arith;
            })
    ]

-- `set` on nodes in range changes that edge alone, in both directions, and keeps the invariant,
-- the degrees included.
pub set-IsEdited :
    (g : Graph) (a b : ℕ) (v : Bool)
    → IsValid g
    → a < node_count g
    → b < node_count g
    → IsEdited g a b v (set g a b v)
unfolding set
set-IsEdited g a b v valid ha hb = elim (Bool-cases (ltb a b)) [
  | inr ordered ↦ rw ordered (set_ordered-IsEdited g a b v valid (ltb→le _ _ ordered) ha)
  | inl swapped ↦ rw swapped (
      let done = set_ordered-IsEdited g b a v valid (omega (arith, ltb→lt _ _ swapped)) hb in
      record {
        valid = done.valid;
        same_nodes = done.same_nodes;
        edges = λ c d hc hd. done.edges c d hc hd ∙ ground arith;
      })
]

-- A node out of range is ignored.
pub set_outside :
    (g : Graph) (a b : ℕ) (v : Bool) → (node_count g ≤ a) ⊎ (node_count g ≤ b) → set g a b v ≡ g
unfolding set
set_outside g a b v h = ground arith
