-- ===== src/Allocator.antt =====
-- `Allocator` of onejit/reg/allocator.hpp and onejit/reg/allocator.cpp: registers are coloured by
-- Chaitin's algorithm on their interference graph. Registers, colours and degrees are `uint32_t`.
-- Where the source says that a call cannot fail, memory is granted (`true`).
pub mod Taken
pub mod Reconnect
pub mod Choose
pub mod Coloring
pub mod Simplify
pub mod Sound
pub mod Prepare
use onejit.Base.{
  ℕ, zero, suc, ◌+◌, ◌^◌, Bool, true, false, not, ◌==◌, ltb, leb, ◌&&◌, ◌||◌, if◌then◌else◌,
}
use onejit.Word.{u32}
use onejit.Libc.{Libc}
use onejit.Array
use onejit.Array.{Array}
use onejit.BitSet
use onejit.BitSet.{BitSet, no_pos}
use onejit.Graph
use onejit.Graph.{Graph, no_node}

pub record Allocator : Type 0 where
  pub g : Graph
  pub g2 : Graph
  pub stack : Array ℕ
  pub hints : Array ℕ
  pub colors : Array ℕ
  pub avail_colors : BitSet

-- `NoReg` and `NoColor`
abbrev pub no_reg : ℕ
no_reg = no_node

abbrev pub no_color : ℕ
no_color = no_node

-- `reset`: `&&` stops at the first part that fails.
unfoldable pub reset : Bool → Allocator → ℕ → Allocator × Bool
reset granted a num_regs =
    let hints0 = Array.clear a.hints in
    let (g, g_done) = Graph.reset granted granted a.g num_regs in
    let (g2, g2_done) = Graph.reset granted granted a.g2 num_regs in
    let (stack, stack_done) = Array.resize granted 0 a.stack num_regs in
    let (hints, hints_done) = Array.reserve granted hints0 num_regs in
    let (colors, colors_done) = Array.resize granted 0 a.colors num_regs in
    let (avail, avail_done) = BitSet.resize granted a.avail_colors num_regs in
    let a0 = record a { hints = hints0; g = g } in
    let a1 = record a0 { g2 = g2 } in
    let a2 = record a1 { stack = stack } in
    let a3 = record a2 { hints = hints } in
    let a4 = record a3 { colors = colors } in
    if not g_done
    then (a0, false)
    else if not g2_done
    then (a1, false)
    else if not stack_done
    then (a2, false)
    else if not hints_done
    then (a3, false)
    else if not colors_done
    then (a4, false)
    else (record a4 { avail_colors = avail }, avail_done)

-- `add_hint`: the first hint enables the array.
unfoldable pub add_hint : Allocator → ℕ → ℕ → Allocator
unfolding Array.size Array.resize Array.fill Array.set Graph.size
add_hint a reg color =
    let enabled =
      if Array.size a.hints == 0
      then Array.fill (Array.resize true 0 a.hints (Graph.size a.g)).0 no_color
      else a.hints in
    record a { hints = Array.set enabled reg color }

-- The loop of `init`, with `left` registers to go from `reg` on
unfoldable pub init_loop : ℕ → ℕ → Graph → Array ℕ → Graph × Array ℕ
init_loop zero reg g colors = (g, colors)
init_loop (suc left) reg g colors =
    init_loop left (reg + 1) (Graph.set g reg reg true) (Array.set colors reg no_color)

unfoldable pub init : Allocator → Allocator
unfolding init_loop
init a =
    let (g, colors) = init_loop (Graph.size a.g) 0 a.g a.colors in
    record a {
      g = g;
      g2 = (Graph.dup true true a.g2 g).0;
      stack = Array.clear a.stack;
      colors = colors;
    }

-- `find_degree_less_than`: a degree counts the self-connection twice.
unfoldable pub find_degree_loop : Graph → ℕ → ℕ → ℕ → ℕ
find_degree_loop g bound zero i = no_reg
find_degree_loop g bound (suc left) i =
    let rest = find_degree_loop g bound left (i + 1) in
    if leb 2 (Graph.degree g i) && ltb (Graph.degree g i) bound then i else rest

unfoldable pub find_degree_less_than : Graph → ℕ → ℕ
unfolding find_degree_loop
find_degree_less_than g degree = find_degree_loop g (u32 (2 + degree)) (Graph.size g) 0

-- `pick`: the first register of the highest degree
unfoldable pub pick_loop : Graph → ℕ → ℕ → ℕ → ℕ → ℕ
pick_loop g zero i reg deg = reg
pick_loop g (suc left) i reg deg =
    pick_loop g left (i + 1) (if ltb deg (Graph.degree g i) then i else reg)
      (if ltb deg (Graph.degree g i) then Graph.degree g i else deg)

unfoldable pub pick : Graph → ℕ
unfolding pick_loop
pick g = pick_loop g (Graph.size g) 0 no_reg 0

-- The register that `allocate_regs` takes next: the inner loop takes those of low degree while
-- there are any, and the outer loop one to spill when there are none.
unfoldable pub next_reg : Graph → ℕ → ℕ
next_reg g num_colors =
    let low = find_degree_less_than g num_colors in if low == no_reg then pick g else low

-- The two nested loops of `allocate_regs`. Each round takes one register off the graph, so the
-- number of registers is fuel enough (see Allocator/Simplify.antt).
unfoldable pub simplify : Libc → ℕ → ℕ → Graph → Array ℕ → Graph × Array ℕ
simplify c num_colors zero g stack = (g, stack)
simplify c num_colors (suc fuel) g stack =
    let reg = next_reg g num_colors in
    let rest = simplify c num_colors fuel (Graph.remove c g reg) (Array.append true stack reg).0 in
    if reg == no_reg then (g, stack) else rest

-- The neighbours of `reg` in `g2` that are back in `g` are connected to it, and their colours
-- are taken. `fuel` bounds the rounds by the number of registers.
unfoldable pub reconnect : Libc → Graph → Array ℕ → ℕ → ℕ → ℕ → Graph → BitSet → Graph × BitSet
reconnect c g2 colors reg zero neighbor g avail = (g, avail)
reconnect c g2 colors reg (suc fuel) neighbor g avail =
    let found = Graph.first_set c g2 reg neighbor in
    let back = not (Graph.degree g found == 0) in
    let rest =
      reconnect c g2 colors reg fuel (u32 (found + 1))
        (if back then Graph.set g reg found true else g)
        (if back then BitSet.set avail (Array.get 0 colors found) false else avail) in
    if found == no_reg then (g, avail) else rest

-- The loop of `try_satisfy_hints` that spares the hints of neighbours without a colour
unfoldable pub spare_hints : Libc → Graph → Array ℕ → Array ℕ → ℕ → ℕ → ℕ → BitSet → BitSet
spare_hints c g2 colors hints reg zero neighbor avail = avail
spare_hints c g2 colors hints reg (suc fuel) neighbor avail =
    let found = Graph.first_set c g2 reg neighbor in
    let hint = Array.get 0 hints found in
    let spares = Array.get 0 colors found == no_color && not (hint == no_color) in
    let rest =
      spare_hints c g2 colors hints reg fuel (u32 (found + 1))
        (if spares then BitSet.set avail hint false else avail) in
    if found == no_reg then avail else rest

-- `try_satisfy_hints`: the colour and the bits that are left
unfoldable pub try_satisfy_hints : Libc → Graph → Array ℕ → Array ℕ → BitSet → ℕ → ℕ × BitSet
unfolding spare_hints
try_satisfy_hints c g2 colors hints avail reg =
    let hint = Array.get 0 hints reg in
    let spared = spare_hints c g2 colors hints reg (Graph.size g2) 0 avail in
    if not (hint == no_color) && BitSet.at avail hint
    then (hint, avail)
    else (u32 (BitSet.find c spared true 0 no_pos), spared)

-- One round of `assign_colors`
unfoldable pub color_reg : Libc → ℕ → ℕ → Allocator → Allocator
unfolding reconnect try_satisfy_hints
color_reg c num_colors reg a =
    let (g, avail) =
      reconnect c a.g2 a.colors reg (Graph.size a.g2) 0 a.g
        (BitSet.fill a.avail_colors true 0 no_pos) in
    let lowest = u32 (BitSet.find c avail true 0 no_pos) in
    let (alt, spared) = try_satisfy_hints c a.g2 a.colors a.hints avail reg in
    let hinted = not (Array.size a.hints == 0) in
    let takes_alt = not (alt == no_color) && (ltb alt num_colors || leb num_colors lowest) in
    record a {
      g = Graph.set g reg reg true;
      avail_colors = if hinted then spared else avail;
      colors = Array.set a.colors reg (if hinted && takes_alt then alt else lowest);
    }

-- `assign_colors`: `left` registers of the stack are still to be coloured, the topmost first.
unfoldable pub assign_loop : Libc → ℕ → ℕ → Allocator → Allocator
assign_loop c num_colors zero a = a
assign_loop c num_colors (suc left) a =
    assign_loop c num_colors left (color_reg c num_colors (Array.get 0 a.stack left) a)

unfoldable pub assign_colors : Libc → ℕ → Allocator → Allocator
unfolding assign_loop Array.size
assign_colors c num_colors a = assign_loop c num_colors (Array.size a.stack) a

unfoldable pub allocate_regs : Libc → ℕ → Allocator → Allocator
unfolding simplify
allocate_regs c num_colors a =
    let ready = init a in
    let (g, stack) = simplify c num_colors (Graph.size ready.g) ready.g ready.stack in
    assign_colors c num_colors (record ready { g = g; stack = stack })
