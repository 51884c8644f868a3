-- ===== src/Graph.antt =====
-- `Graph` of onestl/graph.hpp and onestl/graph.cpp: an undirected graph as a square of bits, row
-- after row, and the degree of each node. Nodes, sizes and degrees are `uint32_t`.
pub mod Adjacency
pub mod Count
pub mod Edit
pub mod Walk
pub mod Dup
use onejit.Base.{
  Option, none, some, ℕ, zero, suc, ◌+◌, ◌-◌, ◌*◌, ◌%◌, ◌^◌, Bool, true, false, ◌==◌, ltb, leb,
  ◌||◌, if◌then◌else◌, List, length, get_or, map,
}
use onejit.Word.{u32, u64, sub32}
use onejit.Libc.{Libc}
use onejit.Array
use onejit.Array.{Array}
use onejit.BitSet
use onejit.BitSet.{BitSet, of_bool}

pub record Graph : Type 0 where
  pub bits : BitSet
  pub degrees : Array ℕ

-- `graph::NoPos`, as `uint32_t`
abbrev pub no_node : ℕ
no_node = 2 ^ 32 - 1

unfoldable pub size : Graph → ℕ
unfolding Array.size
size g = Array.size g.degrees

unfoldable pub degree : Graph → ℕ → ℕ
unfolding Array.get
degree g node = Array.get 0 g.degrees node

-- `operator()`: the index is computed in `uint32_t`
unfoldable pub connected : Graph → ℕ → ℕ → Bool
unfolding size
connected g a b =
    let hi = if ltb a b then b else a in
    let lo = if ltb a b then a else b in
    if leb (size g) hi then false else BitSet.at g.bits (u32 (hi + u32 (lo * size g)))

-- `set`: `n` and the offsets are `size_t`
unfoldable pub bump : Array ℕ → ℕ → ℕ → Array ℕ
unfolding Array.set Array.get
bump degrees node delta = Array.set degrees node (u32 (Array.get 0 degrees node + delta))

-- The writes of `set`, when the edge changes: both degrees, also where the two nodes are one, and
-- both cells of the square.
unfoldable pub write_edge : Graph → ℕ → ℕ → Bool → ℕ → Graph
unfolding size bump
write_edge g hi lo value delta =
    let written = BitSet.set g.bits (hi + lo * size g) value in
    record {
      bits = if hi == lo then written else BitSet.set written (lo + hi * size g) value;
      degrees = bump (bump g.degrees hi delta) lo delta;
    }

-- The body of `set` after the swap
unfoldable pub set_ordered : Graph → ℕ → ℕ → Bool → Graph
unfolding size
set_ordered g hi lo value =
    let delta = sub32 (of_bool value) (of_bool (BitSet.at g.bits (hi + lo * size g))) in
    if leb (size g) hi then g else if delta == 0 then g else write_edge g hi lo value delta

unfoldable pub set : Graph → ℕ → ℕ → Bool → Graph
unfolding set_ordered
set g a b value = if ltb a b then set_ordered g b a value else set_ordered g a b value

unfoldable pub first_set : Libc → Graph → ℕ → ℕ → ℕ
unfolding size degree
first_set c g node first_neighbor =
    let n = size g in
    let y_offset = u64 (node * n) in
    let offset = BitSet.find c g.bits true (u64 (y_offset + first_neighbor)) (u64 (y_offset + n)) in
    if leb n first_neighbor || degree g node == 0
    then no_node
    else if offset == BitSet.no_pos
    then u32 offset
    else u32 (offset - y_offset)

-- `remove`: the loop runs while the degree at its start, counted down, is not 0.
unfoldable pub remove_loop : Libc → ℕ → Graph → ℕ → ℕ → Graph
remove_loop c zero g node other = g
remove_loop c (suc deg) g node other =
    let found = first_set c g node other in
    let rest = remove_loop c deg (set g node found false) node (u32 (found + 1)) in
    if found == no_node then g else rest

unfoldable pub remove : Libc → Graph → ℕ → Graph
unfolding remove_loop
remove c g node = remove_loop c (degree g node) g node 0

-- `std::memset` of the degrees to 0
abbrev pub zeroed : List ℕ → List ℕ
zeroed xs = map (λ _. 0) xs

-- `reset`: the two flags say whether memory was granted to the degrees and to the bits.
unfoldable pub reset : Bool → Bool → Graph → ℕ → Graph × Bool
unfolding size Array.resize
reset degrees_granted bits_granted g newn =
    let (degrees, sized) = Array.resize degrees_granted 0 g.degrees newn in
    let (bits, squared) = BitSet.resize bits_granted g.bits (u64 (newn * newn)) in
    if sized
    then if squared
      then (
        record {
          bits = BitSet.fill bits false 0 BitSet.no_pos;
          degrees = record degrees { items = zeroed degrees.items };
        },
        true,
      )
      else (record { bits = bits; degrees = (Array.resize true 0 degrees (size g)).0 }, false)
    else (record g { degrees = degrees }, false)

-- The copies are between equal sizes, so that `BitSet::copy` does not throw (see
-- Graph/Dup.antt).
unfoldable pub dup : Bool → Bool → Graph → Graph → Graph × Bool
unfolding reset
dup degrees_granted bits_granted g other =
    let (fresh, done) = reset degrees_granted bits_granted g (size other) in
    let copied : Graph × Bool = elim (BitSet.copy fresh.bits other.bits) [
      | none ↦ (fresh, false)
      | some bits ↦ (
        record { bits = bits; degrees = record fresh.degrees { items = other.degrees.items } },
        true,
      )
    ] in
    if done then copied else (fresh, false)
