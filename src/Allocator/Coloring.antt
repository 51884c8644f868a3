-- ===== src/Allocator/Coloring.antt =====
-- About one round of `assign_colors` of onejit/reg/allocator.cpp.
use onejit.Base.{
  ℕ, ◌^◌, ◌<◌, true, false, not, ◌==◌, ltb, leb, ◌&&◌, ◌||◌, if◌then◌else◌, length, length-set,
  get_or-set_self, get_or-set_ne, ◌≡◌, ◌≢◌, refl, ap, ◌∙◌, sym, subst, arith, Bool-cases, inl, inr,
  ==_iff, ==-false_iff,
}
use onejit.Libc.{Libc}
use onejit.Array
use onejit.Array.{Array}
use onejit.BitSet.{BitSet, no_pos}
use onejit.BitSet
use onejit.BitSet.Stored
use onejit.BitSet.Fill
use onejit.Graph
use onejit.Graph.{Graph, no_node}
use onejit.Graph.Adjacency.{node_count, adjacent, IsValid}
use onejit.Graph.Edit.{IsEdited, set-IsEdited}
use onejit.Allocator.{Allocator, no_color, reconnect, try_satisfy_hints, color_reg}
use onejit.Allocator.Reconnect.{IsMarked, color_at, taken, Inner, reconnect-Inner}
use onejit.Allocator.Choose.{
  lowest_of, none_left, lowest, lowest_of-Lowest, try_satisfy_hints-IsHinted, some_free, ne_of_free,
}

-- The registers that are back in `g` have colours in range, which differ along the edges of
-- `g2`; the others have none yet.
pub record IsColoring (n : ℕ) (a : Allocator) : Type 0 where
  pub marked : IsMarked n a.g
  pub valid2 : IsValid a.g2
  pub nodes2 : node_count a.g2 ≡ n
  pub colors_length : length a.colors.items ≡ n
  pub avail_valid : Stored.IsValid a.avail_colors
  pub avail_size : a.avail_colors.size ≡ n
  pub uncolored : (k : ℕ) → k < n → adjacent a.g k k ≡ false → color_at a.colors k ≡ no_color
  pub colored : (k : ℕ) → k < n → adjacent a.g k k ≡ true → color_at a.colors k < n
  pub proper :
      (i k : ℕ)
      → i < n
      → k < n
      → i ≢ k
      → adjacent a.g i i ≡ true
      → adjacent a.g k k ≡ true
      → adjacent a.g2 i k ≡ true
      → color_at a.colors i ≢ color_at a.colors k

module _ (c : Libc) (n num_colors reg : ℕ) (a : Allocator) (small : n < 2 ^ 30)
    (ready : IsColoring n a) (hr : reg < n) (absent : adjacent a.g reg reg ≡ false) where
  abbrev filled : BitSet
  filled = BitSet.fill a.avail_colors true 0 no_pos

  abbrev reconnected : Graph × BitSet
  reconnected = reconnect c a.g2 a.colors reg (node_count a.g2) 0 a.g filled

  abbrev avail : BitSet
  avail = reconnected.1

  uncolored : color_at a.colors reg ≡ no_color
  uncolored = ready.uncolored reg hr absent

  abbrev InnerHere : ℕ → Graph → BitSet → Type 0
  InnerHere =
      Inner c n a.g2 a.colors reg a.g small ready.valid2 ready.nodes2 hr ready.marked absent
        uncolored

  start-Inner : InnerHere 0 a.g filled
  start-Inner = record {
    valid = ready.marked.valid;
    nodes = ready.marked.nodes;
    elsewhere = λ i k hi hk ni nk. refl;
    joined = λ i hi ni h. ground (arith, ready.marked.marked i reg hi hr);
    avail_valid = Fill.fill-IsValid a.avail_colors true 0 no_pos ready.avail_valid;
    avail_size = (Fill.fill-SameShape a.avail_colors true 0 no_pos).same_size ∙ ready.avail_size;
    free = λ x hx.
        Fill.at-fill a.avail_colors true 0 no_pos x ready.avail_valid
        ∙ ground (arith, ready.avail_size);
  }

  end-Inner : InnerHere n reconnected.0 avail
  end-Inner =
      reconnect-Inner c n a.g2 a.colors reg a.g small ready.valid2 ready.nodes2 hr ready.marked
        absent uncolored (node_count a.g2) 0 a.g filled (omega (arith, ready.nodes2)) start-Inner
        (omega arith)

  -- The colour that the round ends with, for any choice that is available.
  free_of_at : (x : ℕ) → x < n → BitSet.at avail x ≡ true → taken a.g2 a.g a.colors reg n x ≡ false
  free_of_at x hx on = ground (arith, end-Inner.free x hx)

  lowest_free : (lowest_of c avail < n) × (BitSet.at avail (lowest_of c avail) ≡ true)
  lowest_free =
      elim (lowest_of-Lowest c avail end-Inner.avail_valid (omega (arith, end-Inner.avail_size))) [
        | none_left e clear ↦
            let (x, hx, free) = some_free n a.g2 a.g a.colors reg hr absent in
            absurd
              (ground (arith, clear x (omega (arith, end-Inner.avail_size)), end-Inner.free x hx))
        | lowest p on clear ↦ (omega (arith, end-Inner.avail_size), on)
      ]

  -- The colour of the round.
  abbrev chosen : ℕ
  chosen =
      let lowest_one = lowest_of c avail in
      let alt = (try_satisfy_hints c a.g2 a.colors a.hints avail reg).0 in
      let takes_alt = not (alt == no_color) && (ltb alt num_colors || leb num_colors lowest_one) in
      if not (length a.hints.items == 0) && takes_alt then alt else lowest_one

  chosen_free : (chosen < n) × (BitSet.at avail chosen ≡ true)
  chosen_free =
      let alt = (try_satisfy_hints c a.g2 a.colors a.hints avail reg).0 in
      let hinted =
        try_satisfy_hints-IsHinted c a.g2 a.colors a.hints avail reg end-Inner.avail_valid
          (omega (arith, end-Inner.avail_size)) in
      let takes_alt =
        not (alt == no_color) && (ltb alt num_colors || leb num_colors (lowest_of c avail)) in
      elim (Bool-cases (not (length a.hints.items == 0) && takes_alt)) [
        | inr plain ↦ rw plain lowest_free
        | inl takes ↦
            let (p, on) = hinted.available (ground arith) in
            rw takes (omega (arith, p, end-Inner.avail_size), on)
      ]

  abbrev after : Allocator
  after = color_reg c num_colors reg a

  abbrev joined_graph : Graph
  joined_graph = reconnected.0

  self_edge : IsEdited joined_graph reg reg true (Graph.set joined_graph reg reg true)
  self_edge =
      set-IsEdited joined_graph reg reg true end-Inner.valid (omega (arith, end-Inner.nodes))
        (omega (arith, end-Inner.nodes))

  after-g : after.g ≡ Graph.set joined_graph reg reg true
  unfolding color_reg Graph.size Array.size
  after-g = refl

  after-colors : after.colors ≡ Array.set a.colors reg chosen
  unfolding color_reg Graph.size Array.size
  after-colors = refl

  abbrev grown_graph : Graph
  grown_graph = Graph.set joined_graph reg reg true

  grown_self : (k : ℕ) → k < n → adjacent grown_graph k k ≡ ((k == reg) || adjacent a.g k k)
  grown_self k hk =
      self_edge.edges k k (omega (arith, end-Inner.nodes)) (omega (arith, end-Inner.nodes))
      ∙ elim (Bool-cases (k == reg)) [
        | inl here ↦ ground arith
        | inr other ↦ ground (
          arith,
          end-Inner.elsewhere k k hk hk ((==-false_iff _ _).0 other) ((==-false_iff _ _).0 other),
        )
      ]

  grown-IsMarked : IsMarked n grown_graph
  grown-IsMarked = record {
    valid = self_edge.valid;
    nodes = self_edge.same_nodes ∙ end-Inner.nodes;
    marked = λ i k hi hk away.
        let self = grown_self i hi in
        let ni : i ≢ reg = λ e. ground (arith, (==_iff i reg).1 e) in
        let gone : adjacent a.g i i ≡ false = ground arith in
        self_edge.edges i k (omega (arith, end-Inner.nodes)) (omega (arith, end-Inner.nodes))
        ∙ elim (Bool-cases (k == reg)) [
          | inr other ↦ ground (
            arith,
            end-Inner.elsewhere i k hi hk ni ((==-false_iff _ _).0 other),
            ready.marked.marked i k hi hk gone,
          )
          | inl here ↦
              let e : k ≡ reg = (==_iff _ _).0 here in
              let same : adjacent joined_graph i k ≡ adjacent joined_graph i reg =
                ap (adjacent joined_graph i) e in
              ground (arith, end-Inner.joined i hi ni)
        ];
  }

  color_other : (k : ℕ) → k ≢ reg → color_at (Array.set a.colors reg chosen) k ≡ color_at a.colors k
  unfolding Array.set
  color_other k ne =
      ground
        (arith, get_or-set_ne a.colors.items reg k chosen (let z : ℕ = 0 in z) (λ e. ne (sym e)))

  color_here : color_at (Array.set a.colors reg chosen) reg ≡ chosen
  unfolding Array.set
  color_here =
      let room : reg < length a.colors.items = omega (arith, ready.colors_length) in
      ground (arith, get_or-set_self a.colors.items reg chosen (let z : ℕ = 0 in z) room)

  length-colors : length (Array.set a.colors reg chosen).items ≡ n
  unfolding Array.set
  length-colors = ground (arith, length-set a.colors.items reg chosen, ready.colors_length)

  -- The new colour differs from those of the neighbours that are back.
  differs :
      (k : ℕ)
      → k < n
      → adjacent a.g k k ≡ true
      → adjacent a.g2 reg k ≡ true
      → color_at a.colors k ≢ chosen
  differs k hk back edge =
      ne_of_free n a.g2 a.g a.colors reg chosen k (free_of_at chosen chosen_free.0 chosen_free.1) hk
        edge back

  colors_proper :
      (i k : ℕ)
      → i < n
      → k < n
      → i ≢ k
      → adjacent grown_graph i i ≡ true
      → adjacent grown_graph k k ≡ true
      → adjacent a.g2 i k ≡ true
      → color_at (Array.set a.colors reg chosen) i ≢ color_at (Array.set a.colors reg chosen) k
  colors_proper i k hi hk ne bi bk edge same =
      let si = grown_self i hi in
      let sk = grown_self k hk in
      let flip =
        ready.valid2.symmetric i k (omega (arith, ready.nodes2)) (omega (arith, ready.nodes2)) in
      elim (Bool-cases (i == reg)) [
        | inl here ↦
            let e : i ≡ reg = (==_iff _ _).0 here in
            let nk : k ≢ reg = λ q. ne (e ∙ sym q) in
            let back : adjacent a.g k k ≡ true =
              ground (arith, sk, λ (t : k == reg ≡ true). nk ((==_iff _ _).0 t)) in
            differs k hk back (subst (λ (t : ℕ). adjacent a.g2 t k ≡ true) e edge) (
              sym (color_other k nk)
              ∙ sym same
              ∙ ap (color_at (Array.set a.colors reg chosen)) e
              ∙ color_here)
        | inr other ↦
            let ni : i ≢ reg = (==-false_iff _ _).0 other in
            let back : adjacent a.g i i ≡ true = ground arith in
            elim (Bool-cases (k == reg)) [
              | inl here ↦
                  let e : k ≡ reg = (==_iff _ _).0 here in
                  differs i hi back
                    (subst (λ (t : ℕ). adjacent a.g2 t i ≡ true) e (sym flip ∙ edge))
                    (sym (color_other i ni)
                      ∙ same
                      ∙ ap (color_at (Array.set a.colors reg chosen)) e
                      ∙ color_here)
              | inr other' ↦
                  let nk : k ≢ reg = (==-false_iff _ _).0 other' in
                  ready.proper i k hi hk ne back (ground arith) edge
                    (sym (color_other i ni) ∙ same ∙ color_other k nk)
            ]
      ]

  after-avail : Stored.IsValid after.avail_colors × (after.avail_colors.size ≡ n)
  unfolding color_reg Graph.size Array.size
  after-avail =
      let hinted =
        try_satisfy_hints-IsHinted c a.g2 a.colors a.hints avail reg end-Inner.avail_valid
          (omega (arith, end-Inner.avail_size)) in
      elim (Bool-cases (not (length a.hints.items == 0))) [
        | inl spares ↦
            rw spares (hinted.left_over.valid, hinted.left_over.same_size ∙ end-Inner.avail_size)
        | inr plain ↦ rw plain (end-Inner.avail_valid, end-Inner.avail_size)
      ]

  -- A round colours its register and leaves the other colours alone.
  pub color_reg-IsColoring : IsColoring n after
  color_reg-IsColoring =
      let (avail_fine, avail_n) = after-avail in
      record {
        marked = subst (IsMarked n) (sym after-g) grown-IsMarked;
        valid2 = unfold color_reg in ready.valid2;
        nodes2 = unfold color_reg in ready.nodes2;
        colors_length = ap (λ (t : Array ℕ). length t.items) after-colors ∙ length-colors;
        avail_valid = avail_fine;
        avail_size = avail_n;
        uncolored =
            rw (after-g, after-colors)
              (λ k hk away.
                let self = grown_self k hk in
                let ne : k ≢ reg = λ e. ground (arith, (==_iff k reg).1 e) in
                color_other k ne ∙ ready.uncolored k hk (ground arith));
        colored =
            rw (after-g, after-colors)
              (λ k hk back. elim (Bool-cases (k == reg)) [
                | inl here ↦
                    let e : k ≡ reg = (==_iff _ _).0 here in
                    omega (
                      arith,
                      ap (color_at (Array.set a.colors reg chosen)) e,
                      color_here,
                      chosen_free.0,
                    )
                | inr other ↦
                    let ne : k ≢ reg = (==-false_iff _ _).0 other in
                    omega (
                      arith,
                      color_other k ne,
                      ready.colored k hk (ground (arith, grown_self k hk)),
                    )
              ]);
        proper = unfold color_reg in rw (after-g, after-colors) colors_proper;
      }

  pub color_reg_self : (k : ℕ) → k < n → adjacent after.g k k ≡ ((k == reg) || adjacent a.g k k)
  color_reg_self k hk = ap (λ (t : Graph). adjacent t k k) after-g ∙ grown_self k hk
