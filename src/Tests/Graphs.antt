-- ===== src/Tests/Graphs.antt =====
-- The theorems on graphs, at a path of three of four nodes.
use onejit.Base.{true, false, ltb, ◌&&◌, if◌then◌else◌, arith, ◌≡◌}
use onejit.Libc.Fallback.{sample_libc}
use onejit.Graph
use onejit.Graph.{Graph}
use onejit.Graph.Adjacency.{node_count, adjacent, connected-eq-adjacent}
use onejit.Graph.Edit.{IsEdited, set-IsEdited}
use onejit.Graph.Walk.{NextNeighbor, first_set-NextNeighbor, IsRemoved, remove-IsRemoved}
use onejit.Graph.Dup.{IsBlank, reset-IsBlank, IsCopy, dup-IsCopy}
use onejit.Tests.Samples.{no_graph, no_graph-IsReusable, path, path-IsValid, path-nodes}

connected-eq-adjacent_example :
    Graph.connected path 1 2
    ≡ (if ltb 1 (node_count path) && ltb 2 (node_count path) then adjacent path 1 2 else false)
connected-eq-adjacent_example =
    connected-eq-adjacent path 1 2 path-IsValid (omega (arith, path-nodes))

set-IsEdited_example : IsEdited path 1 3 true (Graph.set path 1 3 true)
set-IsEdited_example =
    set-IsEdited path 1 3 true path-IsValid (omega (arith, path-nodes)) (omega (arith, path-nodes))

first_set-NextNeighbor_example : NextNeighbor path 1 1 (Graph.first_set sample_libc path 1 1)
first_set-NextNeighbor_example =
    first_set-NextNeighbor sample_libc path 1 1 path-IsValid (omega (arith, path-nodes))

remove-IsRemoved_example : IsRemoved path 1 (Graph.remove sample_libc path 1)
remove-IsRemoved_example =
    remove-IsRemoved sample_libc path 1 path-IsValid (omega (arith, path-nodes))

reset-IsBlank_example :
    ((Graph.reset true true no_graph 4).1 ≡ true) × IsBlank 4 (Graph.reset true true no_graph 4).0
reset-IsBlank_example = reset-IsBlank no_graph 4 no_graph-IsReusable (omega arith)

dup-IsCopy_example :
    ((Graph.dup true true no_graph path).1 ≡ true)
    × IsCopy path (Graph.dup true true no_graph path).0
dup-IsCopy_example =
    dup-IsCopy no_graph path no_graph-IsReusable path-IsValid (omega (arith, path-nodes))
