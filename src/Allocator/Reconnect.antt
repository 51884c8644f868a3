-- ===== src/Allocator/Reconnect.antt =====
-- About the loop of `assign_colors` of onejit/reg/allocator.cpp over the neighbours of a register.
use onejit.Base.{
  ℕ, zero, suc, ◌+◌, ◌-◌, ◌%◌, ◌^◌, ◌≤◌, ◌<◌, Bool, true, false, not, ◌==◌, ◌&&◌, ◌||◌,
  if◌then◌else◌, get_or, ◌≡◌, ◌≢◌, ap, ◌∙◌, sym, subst, arith, Bool-cases, inl, inr, ==_iff,
  ==-false_iff,
}
use onejit.Libc.{Libc}
use onejit.Array
use onejit.Array.{Array}
use onejit.BitSet.{BitSet}
use onejit.BitSet
use onejit.BitSet.Stored
use onejit.BitSet.Fill
use onejit.Graph
use onejit.Graph.{Graph, no_node}
use onejit.Graph.Adjacency.{node_count, adjacent, IsValid}
use onejit.Graph.Edit.{set-IsEdited}
use onejit.Graph.Walk.{no_more, next, first_set-NextNeighbor, degree-zero_iff}
use onejit.Allocator.{reconnect, no_color}
use onejit.Allocator.Taken.{any_below, any_below_extend}

-- Every register with an edge carries the self-connection.
pub record IsMarked (n : ℕ) (g : Graph) : Type 0 where
  pub valid : IsValid g
  pub nodes : node_count g ≡ n
  pub marked : (a b : ℕ) → a < n → b < n → adjacent g a a ≡ false → adjacent g a b ≡ false

abbrev pub color_at : Array ℕ → ℕ → ℕ
color_at colors k = get_or colors.items k 0

-- The neighbours of `reg` that are back in the graph `g0`.
abbrev pub is_back : Graph → Graph → ℕ → ℕ → Bool
is_back g2 g0 reg k = adjacent g2 reg k && adjacent g0 k k

-- Whether one of them below `j` has the colour.
abbrev pub taken : Graph → Graph → Array ℕ → ℕ → ℕ → ℕ → Bool
taken g2 g0 colors reg j x = any_below j (λ k. is_back g2 g0 reg k && (color_at colors k == x))

module _ (c : Libc) (n : ℕ) (g2 : Graph) (colors : Array ℕ) (reg : ℕ) (g0 : Graph)
    (small : n < 2 ^ 30) (valid2 : IsValid g2) (nodes2 : node_count g2 ≡ n) (hr : reg < n)
    (start : IsMarked n g0) (absent : adjacent g0 reg reg ≡ false)
    (uncolored : color_at colors reg ≡ no_color) where
  -- The state of the loop, with the neighbours below `j` done.
  pub record Inner (j : ℕ) (g : Graph) (avail : BitSet) : Type 0 where
    pub valid : IsValid g
    pub nodes : node_count g ≡ n
    pub elsewhere : (a b : ℕ) → a < n → b < n → a ≢ reg → b ≢ reg → adjacent g a b ≡ adjacent g0 a b
    pub joined : (a : ℕ) → a < n → a ≢ reg → adjacent g a reg ≡ true → adjacent g0 a a ≡ true
    pub avail_valid : Stored.IsValid avail
    pub avail_size : avail.size ≡ n
    pub free : (x : ℕ) → x < n → BitSet.at avail x ≡ not (taken g2 g0 colors reg j x)

  -- Another register is back exactly when its degree is not 0.
  back_by_degree :
      {j : ℕ} {g : Graph} {avail : BitSet} (k : ℕ)
      → Inner j g avail
      → k < n
      → k ≢ reg
      → not (Graph.degree g k == 0) ≡ adjacent g0 k k
  back_by_degree {g = g} k inner hk ne =
      let zero' = degree-zero_iff g k inner.valid (omega (arith, inner.nodes)) in
      let self = inner.elsewhere k k hk hk ne ne in
      elim (Bool-cases (adjacent g0 k k)) [
        | inl back ↦ elim (Bool-cases (Graph.degree g k == 0)) [
          | inl isolated ↦
              ground (arith, zero'.0 ((==_iff _ _).0 isolated) k (omega (arith, inner.nodes)))
          | inr connected ↦ rw (connected, back)
        ]
        | inr away ↦
            let none_left = zero'.1 (λ b hb. elim (Bool-cases (b == reg)) [
              | inr other ↦
                  inner.elsewhere k b hk (omega (arith, inner.nodes)) ne
                    ((==-false_iff _ _).0 other)
                  ∙ start.marked k b hk (omega (arith, inner.nodes)) away
              | inl is_reg ↦ elim (Bool-cases (adjacent g k b)) [
                | inr no' ↦ no'
                | inl yes' ↦ ground (
                  arith,
                  inner.joined k hk ne (ap (adjacent g k) (sym ((==_iff _ _).0 is_reg)) ∙ yes'),
                )
              ]
            ]) in
            rw (none_left, away)
      ]

  -- The round at a neighbour `k`.
  module _ {j : ℕ} {g : Graph} {avail : BitSet} (k : ℕ) (inner : Inner j g avail) (from : j ≤ k)
      (hk : k < n) (between : (i : ℕ) → j ≤ i → i < k → adjacent g2 reg i ≡ false) where
    taken_step :
        (x : ℕ)
        → taken g2 g0 colors reg (suc k) x
          ≡ ((is_back g2 g0 reg k && (color_at colors k == x)) || taken g2 g0 colors reg j x)
    taken_step x =
        let clear = λ (i : ℕ) (p : j ≤ i) (q : i < k). between i p q in
        ap (λ (b : Bool). (is_back g2 g0 reg k && (color_at colors k == x)) || b)
          (any_below_extend (k - j) j k (λ i. is_back g2 g0 reg i && (color_at colors i == x))
            (omega arith) (λ i p q. ground (arith, clear i p q)))

    Inner-skip : is_back g2 g0 reg k ≡ false → Inner (suc k) g avail
    Inner-skip away = record {
      valid = inner.valid;
      nodes = inner.nodes;
      elsewhere = inner.elsewhere;
      joined = inner.joined;
      avail_valid = inner.avail_valid;
      avail_size = inner.avail_size;
      free = λ x hx. inner.free x hx ∙ ground (arith, taken_step x);
    }

    Inner-write :
        (k ≢ reg → is_back g2 g0 reg k ≡ true)
        → Inner (suc k) (Graph.set g reg k true) (BitSet.set avail (color_at colors k) false)
    Inner-write others =
        let edit =
          set-IsEdited g reg k true inner.valid (omega (arith, inner.nodes))
            (omega (arith, inner.nodes)) in
        let shape = Fill.set-SameShape avail (color_at colors k) false in
        record {
          valid = edit.valid;
          nodes = edit.same_nodes ∙ inner.nodes;
          elsewhere = λ a b ha hb na nb.
              edit.edges a b (omega (arith, inner.nodes)) (omega (arith, inner.nodes))
              ∙ ground (arith, inner.elsewhere a b ha hb na nb);
          joined = λ a ha na h. ground (
            arith,
            edit.edges a reg (omega (arith, inner.nodes)) (omega (arith, inner.nodes)),
            inner.joined a ha na,
            others,
          );
          avail_valid = Fill.set-IsValid avail (color_at colors k) false inner.avail_valid;
          avail_size = shape.same_size ∙ inner.avail_size;
          free = λ x hx.
              Fill.at-set avail (color_at colors k) false x inner.avail_valid
              ∙ elim (Bool-cases (k == reg)) [
                | inr other ↦ ground (
                  arith,
                  inner.free x hx,
                  taken_step x,
                  others ((==-false_iff _ _).0 other),
                  inner.avail_size,
                )
                | inl is_reg ↦
                    let e : k ≡ reg = (==_iff _ _).0 is_reg in
                    let far : color_at colors k ≡ no_color = ap (color_at colors) e ∙ uncolored in
                    let away : adjacent g0 k k ≡ false =
                      ap (λ (t : ℕ). adjacent g0 t t) e ∙ absent in
                    ground (arith, inner.free x hx, taken_step x, inner.avail_size)
              ];
        }

    Inner-step :
        adjacent g2 reg k ≡ true
        → Inner (suc k) (if not (Graph.degree g k == 0) then Graph.set g reg k true else g) (
            if not (Graph.degree g k == 0)
            then BitSet.set avail (color_at colors k) false
            else avail)
    Inner-step edge = elim (Bool-cases (not (Graph.degree g k == 0))) [
      | inl back ↦ rw back (Inner-write (λ ne. ground (arith, back_by_degree k inner hk ne)))
      | inr away ↦ rw away (
          Inner-skip (elim (Bool-cases (k == reg)) [
            | inr other ↦ ground (arith, back_by_degree k inner hk ((==-false_iff _ _).0 other))
            | inl is_reg ↦
                let gone : adjacent g0 k k ≡ false =
                  ap (λ (t : ℕ). adjacent g0 t t) ((==_iff _ _).0 is_reg) ∙ absent in
                ground arith
          ]))
    ]

  Inner-finish :
      {j : ℕ} {g : Graph} {avail : BitSet}
      → Inner j g avail
      → j ≤ n
      → ((i : ℕ) → j ≤ i → i < n → adjacent g2 reg i ≡ false)
      → Inner n g avail
  Inner-finish {j} inner le clear = record {
    valid = inner.valid;
    nodes = inner.nodes;
    elsewhere = inner.elsewhere;
    joined = inner.joined;
    avail_valid = inner.avail_valid;
    avail_size = inner.avail_size;
    free = λ x hx.
        inner.free x hx
        ∙ ap not (
            sym (
              any_below_extend (n - j) j n (λ i. is_back g2 g0 reg i && (color_at colors i == x))
                (omega arith) (λ i p q. ground (arith, clear i p q))));
  }

  -- The loop with enough fuel goes through all neighbours.
  pub reconnect-Inner :
      (fuel j : ℕ) (g : Graph) (avail : BitSet)
      → n ≤ j + fuel
      → Inner j g avail
      → j ≤ n
      → Inner n
          (reconnect c g2 colors reg fuel j g avail).0
          (reconnect c g2 colors reg fuel j g avail).1
  unfolding reconnect Array.get
  reconnect-Inner zero j g avail enough inner le =
      let e : j ≡ n = omega arith in subst (λ (t : ℕ). Inner t g avail) e inner
  reconnect-Inner (suc fuel) j g avail enough inner le =
      elim (first_set-NextNeighbor c g2 reg j valid2 (omega (arith, nodes2))) [
        | no_more e none_left ↦
            rw e (Inner-finish inner le (λ i p q. none_left i p (omega (arith, nodes2))))
        | next from r-lt joined none_before ↦
            let r = Graph.first_set c g2 reg j in
            let real : (r == no_node) ≡ false = ground (arith, nodes2) in
            let step : (r + 1) % 2 ^ 32 ≡ suc r = omega (arith, nodes2) in
            rw (real, step)
              (reconnect-Inner fuel (suc r) _ _ (omega arith)
                (Inner-step r inner from (omega (arith, nodes2)) none_before joined)
                (omega (arith, nodes2)))
      ]
