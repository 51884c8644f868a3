-- ===== src/Tests/Samples.antt =====
-- Concrete bit sets, graphs and allocators, and the facts that the theorems ask of them.
use onejit.Base.{zero, suc, ◌-◌, ◌^◌, true, [], ◌∷◌, arith, ◌≡◌}
use onejit.BitSet.{BitSet}
use onejit.BitSet.Stored
use onejit.BitSet.Stored.{AreWords}
use onejit.Graph
use onejit.Graph.{Graph}
use onejit.Graph.Adjacency
use onejit.Graph.Adjacency.{node_count}
use onejit.Graph.Edit.{IsEdited, set-IsEdited}
use onejit.Graph.Dup.{IsReusable, reset-IsBlank}
use onejit.Allocator
use onejit.Allocator.{Allocator}
use onejit.Allocator.Prepare.{IsUsable, reset-IsReady}
use onejit.Allocator.Sound.{IsReady}

-- 100 bits of 128
abbrev pub hundred : BitSet
hundred = record { words = (2 ^ 64 - 8) ∷ 5 ∷ []; size = 100; cap = 128 }

hundred-AreWords : AreWords ((2 ^ 64 - 8) ∷ 5 ∷ [])
hundred-AreWords zero = omega arith
hundred-AreWords (suc zero) = omega arith
hundred-AreWords (suc (suc j)) = omega arith

pub hundred-IsValid : Stored.IsValid hundred
hundred-IsValid = record {
  whole_words = omega arith;
  within = omega arith;
  bounded = omega arith;
  are_words = hundred-AreWords;
}

-- What the constructors without arguments make
abbrev pub no_bits : BitSet
no_bits = record { words = []; size = 0; cap = 0 }

pub no_bits-IsValid : Stored.IsValid no_bits
no_bits-IsValid = record {
  whole_words = omega arith;
  within = omega arith;
  bounded = omega arith;
  are_words = λ j. omega arith;
}

abbrev pub no_graph : Graph
no_graph = record { bits = no_bits; degrees = record { items = []; cap = 0 } }

abbrev pub fresh : Allocator
fresh = record {
  g = no_graph;
  g2 = no_graph;
  stack = record { items = []; cap = 0 };
  hints = record { items = []; cap = 0 };
  colors = record { items = []; cap = 0 };
  avail_colors = no_bits;
}

pub fresh-IsUsable : IsUsable fresh
fresh-IsUsable = record {
  graph = record { bits_valid = no_bits-IsValid; roomy = omega arith };
  copy = record { bits_valid = no_bits-IsValid; roomy = omega arith };
  avail_valid = no_bits-IsValid;
  avail_roomy = omega arith;
}

pub no_graph-IsReusable : IsReusable no_graph
no_graph-IsReusable = record { bits_valid = no_bits-IsValid; roomy = omega arith }

-- Four nodes, and the path 0 1 2
abbrev pub four : Graph
four = (Graph.reset true true no_graph 4).0

abbrev pub path : Graph
path = Graph.set (Graph.set four 0 1 true) 1 2 true

four-nodes : node_count four ≡ 4
four-nodes = (reset-IsBlank no_graph 4 no_graph-IsReusable (omega arith)).1.nodes

four-IsValid : Adjacency.IsValid four
four-IsValid = (reset-IsBlank no_graph 4 no_graph-IsReusable (omega arith)).1.valid

first_edge : IsEdited four 0 1 true (Graph.set four 0 1 true)
first_edge =
    set-IsEdited four 0 1 true four-IsValid (omega (arith, four-nodes)) (omega (arith, four-nodes))

path_edges : IsEdited (Graph.set four 0 1 true) 1 2 true path
path_edges =
    set-IsEdited (Graph.set four 0 1 true) 1 2 true first_edge.valid
      (omega (arith, four-nodes, first_edge.same_nodes))
      (omega (arith, four-nodes, first_edge.same_nodes))

pub path-IsValid : Adjacency.IsValid path
path-IsValid = path_edges.valid

pub path-nodes : node_count path ≡ 4
path-nodes = omega (arith, four-nodes, first_edge.same_nodes, path_edges.same_nodes)

-- An allocator prepared for four registers, with the path as its graph
abbrev pub prepared : Allocator
prepared = (Allocator.reset true fresh 4).0

abbrev pub sample : Allocator
sample = record prepared { g = path }

pub sample-IsReady : IsReady 4 sample
sample-IsReady =
    let ready = (reset-IsReady fresh 4 fresh-IsUsable (omega arith)).1 in
    record {
      small = omega arith;
      valid = path-IsValid;
      nodes = path-nodes;
      reusable = ready.reusable;
      colors_length = ready.colors_length;
      avail_valid = ready.avail_valid;
      avail_size = ready.avail_size;
    }
