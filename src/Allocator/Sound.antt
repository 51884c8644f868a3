-- ===== src/Allocator/Sound.antt =====
-- About `allocate_regs` of onejit/reg/allocator.cpp as a whole.
use onejit.Base.{
  ap₂, ◌⊎◌, ℕ, zero, suc, ◌+◌, ◌-◌, ◌*◌, ◌%◌, ◌^◌, ◌≤◌, ◌<◌, Bool, true, false, not, ◌==◌, ltb, leb,
  ◌&&◌, ◌||◌, if◌then◌else◌, List, [], ◌∷◌, ◌++◌, length, get_or, length-set, get_or-set_self,
  get_or-set_ne, ◌≡◌, ◌≢◌, ◌↔◌, refl, ap, ◌∙◌, sym, subst, arith, Bool-cases, inl, inr, ltb→lt,
  lt→ltb, ltb→le, leb→le, le→leb, ==_iff, ==-false_iff,
}
use onejit.Base
use onejit.Libc.{Libc}
use onejit.Array
use onejit.Array.{Array}
use onejit.BitSet.Stored
use onejit.Graph
use onejit.Graph.{Graph, no_node}
use onejit.Graph.Adjacency.{node_count, adjacent, IsValid}
use onejit.Graph.Count.{count-le}
use onejit.Graph.Edit.{set-IsEdited}
use onejit.Graph.Dup.{IsReusable, IsCopy, dup-IsCopy}
use onejit.Allocator.{
  Allocator, no_color, init_loop, init, color_reg, assign_loop, assign_colors, allocate_regs,
  simplify,
}
use onejit.Allocator.Taken.{any_below-false}
use onejit.Allocator.Reconnect.{color_at}
use onejit.Allocator.Coloring.{IsColoring, color_reg-IsColoring, color_reg_self}
use onejit.Allocator.Simplify.{on_stack, IsStacked, simplify-IsStacked}

-- The registers that are not among the first `left` entries of the stack are back.
pub record IsAssigned (n left : ℕ) (items : List ℕ) (a : Allocator) : Type 0 where
  pub coloring : IsColoring n a
  pub same_stack : a.stack.items ≡ items
  pub back : (k : ℕ) → k < n → adjacent a.g k k ≡ not (on_stack items left k)

module _ (c : Libc) (n num_colors : ℕ) (small : n < 2 ^ 30) (items : List ℕ)
    (in_range : (i : ℕ) → i < length items → get_or items i 0 < n)
    (distinct : (i j : ℕ) → i < j → j < length items → get_or items i 0 ≢ get_or items j 0) where
  color_reg-IsAssigned :
      (left : ℕ) (a : Allocator)
      → left < length items
      → IsAssigned n (suc left) items a
      → IsAssigned n left items (color_reg c num_colors (get_or items left 0) a)
  color_reg-IsAssigned left a room so_far =
      let reg = get_or items left 0 in
      let hr = in_range left room in
      let here : (reg == reg) ≡ true = (==_iff reg reg).1 refl in
      let absent : adjacent a.g reg reg ≡ false = ground (arith, so_far.back reg hr) in
      record {
        coloring = color_reg-IsColoring c n num_colors reg a small so_far.coloring hr absent;
        same_stack = unfold color_reg in so_far.same_stack;
        back = λ k hk.
            color_reg_self c n num_colors reg a small so_far.coloring hr absent k hk
            ∙ elim (Bool-cases (k == reg)) [
              | inr other ↦ ground (arith, so_far.back k hk)
              | inl same ↦
                  let none_below : on_stack items left k ≡ false =
                    any_below-false left (λ i. get_or items i 0 == k)
                      (λ i hi.
                        (==-false_iff _ _).1
                          (λ e. distinct i left hi room (e ∙ (==_iff _ _).0 same))) in
                  ground arith
            ];
      }

  assign_loop-IsAssigned :
      (left : ℕ) (a : Allocator)
      → left ≤ length items
      → IsAssigned n left items a
      → IsAssigned n 0 items (assign_loop c num_colors left a)
  unfolding assign_loop Array.get
  assign_loop-IsAssigned zero a room so_far = so_far
  assign_loop-IsAssigned (suc left) a room so_far =
      let top : get_or a.stack.items left 0 ≡ get_or items left 0 =
        ap (λ (t : List ℕ). get_or t left 0) so_far.same_stack in
      assign_loop-IsAssigned left (color_reg c num_colors (get_or a.stack.items left 0) a)
        (omega arith)
        (subst (λ (t : ℕ). IsAssigned n left items (color_reg c num_colors t a)) (sym top)
          (color_reg-IsAssigned left a room so_far))

-- The second phase only reads the copy of the graph.
assign_loop-g2 :
    (c : Libc) (num_colors left : ℕ) (a : Allocator) → (assign_loop c num_colors left a).g2 ≡ a.g2
unfolding assign_loop color_reg
assign_loop-g2 c num_colors zero a = refl
assign_loop-g2 c num_colors (suc left) a =
    assign_loop-g2 c num_colors left (color_reg c num_colors (Array.get 0 a.stack left) a)

-- What `init` makes of the graph and the colours, for the registers from `reg` on.
record IsInit (n reg : ℕ) (g : Graph) (t : Graph) (colors : Array ℕ) : Type 0 where
  valid : IsValid t
  nodes : node_count t ≡ n
  edges : (a b : ℕ) → a < n → b < n → adjacent t a b ≡ (((a == b) && ltb a reg) || adjacent g a b)
  colors_length : length colors.items ≡ n
  cleared : (k : ℕ) → k < reg → color_at colors k ≡ no_color

init_loop-IsInit :
    (n left reg : ℕ) (g t : Graph) (colors : Array ℕ)
    → reg + left ≡ n
    → IsInit n reg g t colors
    → IsInit n n g (init_loop left reg t colors).0 (init_loop left reg t colors).1
unfolding init_loop Array.set
init_loop-IsInit n zero reg g t colors e so_far =
    subst (λ (m : ℕ). IsInit n m g t colors) (omega arith) so_far
init_loop-IsInit n (suc left) reg g t colors e so_far =
    let edit =
      set-IsEdited t reg reg true so_far.valid (omega (arith, so_far.nodes))
        (omega (arith, so_far.nodes)) in
    let room : reg < length colors.items = omega (arith, so_far.colors_length) in
    let written : Array.set colors reg no_color
        ≡ record colors { items = Base.set colors.items reg no_color } =
      ground arith in
    let z : ℕ = 0 in
    init_loop-IsInit n left (reg + 1) g (Graph.set t reg reg true) (Array.set colors reg no_color)
      (omega arith)
      (record {
        valid = edit.valid;
        nodes = edit.same_nodes ∙ so_far.nodes;
        edges = λ a b ha hb.
            edit.edges a b (omega (arith, so_far.nodes)) (omega (arith, so_far.nodes))
            ∙ ground (arith, so_far.edges a b ha hb);
        colors_length =
            ap (λ (x : Array ℕ). length x.items) written
            ∙ length-set colors.items reg no_color
            ∙ so_far.colors_length;
        cleared = λ k hk.
            ap (λ (x : Array ℕ). color_at x k) written ∙ elim (Bool-cases (reg == k)) [
              | inl here ↦
                  ap (λ (x : ℕ). get_or (Base.set colors.items reg no_color) x 0)
                    (sym ((==_iff _ _).0 here))
                  ∙ get_or-set_self colors.items reg no_color z room
              | inr other ↦
                  get_or-set_ne colors.items reg k no_color z ((==-false_iff _ _).0 other)
                  ∙ so_far.cleared k (omega (arith, (==-false_iff _ _).0 other))
            ];
      })

-- An allocator between `reset` and `allocate_regs`, for `n` registers: any graph and any hints, and
-- what a previous run has left in `g2`, `stack` and `colors`.
pub record IsReady (n : ℕ) (a : Allocator) : Type 0 where
  pub small : n < 2 ^ 30
  pub valid : IsValid a.g
  pub nodes : node_count a.g ≡ n
  pub reusable : IsReusable a.g2
  pub colors_length : length a.colors.items ≡ n
  pub avail_valid : Stored.IsValid a.avail_colors
  pub avail_size : a.avail_colors.size ≡ n

-- What `allocate_regs` promises for the graph `g`: a colour in range for each register, and
-- different colours for neighbours.
pub record IsAllocated (n : ℕ) (g : Graph) (a : Allocator) : Type 0 where
  pub in_range : (k : ℕ) → k < n → color_at a.colors k < n
  pub proper :
      (i k : ℕ)
      → i < n
      → k < n
      → i ≢ k
      → adjacent g i k ≡ true
      → color_at a.colors i ≢ color_at a.colors k

module _ (c : Libc) (n num_colors : ℕ) (a : Allocator) (ready : IsReady n a) where
  abbrev looped : Graph × Array ℕ
  looped = init_loop n 0 a.g a.colors

  looped-IsInit : IsInit n n a.g looped.0 looped.1
  looped-IsInit = init_loop-IsInit n n 0 a.g a.g a.colors (omega arith) (record {
    valid = ready.valid;
    nodes = ready.nodes;
    edges = λ x y hx hy. ground arith;
    colors_length = ready.colors_length;
    cleared = λ k h. elim h [ ];
  })

  looped_self : (k : ℕ) → k < n → adjacent looped.0 k k ≡ true
  looped_self k hk =
      let same : (k == k) ≡ true = (==_iff k k).1 refl in
      ground (arith, looped-IsInit.edges k k hk hk)

  looped-IsStacked : IsStacked n looped.0 []
  looped-IsStacked = record {
    marked = record {
      valid = looped-IsInit.valid;
      nodes = looped-IsInit.nodes;
      marked = λ i k hi hk away. ground (arith, looped_self i hi);
    };
    in_range = λ i h. elim h [ ];
    distinct = λ i j hij h. elim h [ ];
    left_graph = looped_self;
  }

  copy :
      ((Graph.dup true true a.g2 looped.0).1 ≡ true)
      × IsCopy looped.0 (Graph.dup true true a.g2 looped.0).0
  copy =
      dup-IsCopy a.g2 looped.0 ready.reusable looped-IsInit.valid
        (omega (arith, looped-IsInit.nodes, ready.small))

  init-eq : init a ≡ record a {
    g = looped.0;
    g2 = (Graph.dup true true a.g2 looped.0).0;
    stack = Array.clear a.stack;
    colors = looped.1;
  }
  unfolding init Graph.size Array.size
  init-eq =
      ap
        (λ (m : ℕ). record a {
          g = (init_loop m 0 a.g a.colors).0;
          g2 = (Graph.dup true true a.g2 (init_loop m 0 a.g a.colors).0).0;
          stack = Array.clear a.stack;
          colors = (init_loop m 0 a.g a.colors).1;
        })
        ready.nodes

  -- The graph and the stack after the first phase
  abbrev emptied : Graph × Array ℕ
  emptied = simplify c num_colors n looped.0 (Array.clear a.stack)

  emptied-IsStacked :
      IsStacked n emptied.0 emptied.1.items × ((k : ℕ) → k < n → adjacent emptied.0 k k ≡ false)
  emptied-IsStacked =
      simplify-IsStacked c n num_colors n looped.0 (Array.clear a.stack) ready.small
        (unfold Array.clear in looped-IsStacked) (count-le n (λ k. adjacent looped.0 k k))

  abbrev phase : Allocator
  phase = record a {
    g = emptied.0;
    g2 = (Graph.dup true true a.g2 looped.0).0;
    stack = emptied.1;
    colors = looped.1;
  }

  phase-IsAssigned : IsAssigned n (length emptied.1.items) emptied.1.items phase
  phase-IsAssigned =
      let (stacked, empty) = emptied-IsStacked in
      record {
        coloring = record {
          marked = stacked.marked;
          valid2 = copy.1.valid;
          nodes2 = copy.1.nodes ∙ looped-IsInit.nodes;
          colors_length = looped-IsInit.colors_length;
          avail_valid = ready.avail_valid;
          avail_size = ready.avail_size;
          uncolored = λ k hk away. looped-IsInit.cleared k hk;
          colored = λ k hk back. ground (arith, empty k hk);
          proper = λ i k hi hk ne back. ground (arith, empty i hi);
        };
        same_stack = refl;
        back = stacked.left_graph;
      }

  allocate_regs-eq :
      allocate_regs c num_colors a ≡ assign_loop c num_colors (length emptied.1.items) phase
  unfolding allocate_regs assign_colors Graph.size Array.size
  allocate_regs-eq = rw (init-eq, looped-IsInit.nodes) refl

  -- The copy that the second phase reads
  g2_edge :
      (i k : ℕ)
      → i < n
      → k < n
      → adjacent a.g i k ≡ true
      → adjacent (assign_loop c num_colors (length emptied.1.items) phase).g2 i k ≡ true
  g2_edge i k hi hk edge =
      let kept = assign_loop-g2 c num_colors (length emptied.1.items) phase in
      ap (λ (t : Graph). adjacent t i k) kept
      ∙ copy.1.edges i k (omega (arith, looped-IsInit.nodes)) (omega (arith, looped-IsInit.nodes))
      ∙ ground (arith, looped-IsInit.edges i k hi hk)

-- `allocate_regs`, on an allocator that `reset` has prepared for `n` < 2 ^ 30 registers, gives each
-- register a colour below `n`, and never one colour to two different registers that the graph
-- connects: for any number of machine registers, for any graph, and whatever the hints are.
pub allocate_regs-IsAllocated :
    (c : Libc) (n num_colors : ℕ) (a : Allocator)
    → IsReady n a
    → IsAllocated n a.g (allocate_regs c num_colors a)
allocate_regs-IsAllocated c n num_colors a ready =
    let stacked = (emptied-IsStacked c n num_colors a ready).0 in
    let stack = (emptied c n num_colors a ready).1.items in
    let done =
      assign_loop-IsAssigned c n num_colors ready.small stack stacked.in_range stacked.distinct
        (length stack) (phase c n num_colors a ready) (omega arith)
        (phase-IsAssigned c n num_colors a ready) in
    let same = allocate_regs-eq c n num_colors a ready in
    let back = λ (k : ℕ) (hk : k < n). done.back k hk in
    rw same (record {
      in_range = λ k hk. done.coloring.colored k hk (back k hk);
      proper = λ i k hi hk ne edge.
          done.coloring.proper i k hi hk ne (back i hi) (back k hk)
            (g2_edge c n num_colors a ready i k hi hk edge);
    })
