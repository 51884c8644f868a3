-- ===== src/Tests/Allocation.antt =====
-- The theorems on the allocator, with four registers of which three form a path.
use onejit.Base.{true, arith, ◌≡◌}
use onejit.Libc.Fallback.{sample_libc}
use onejit.Array
use onejit.Array.{Array}
use onejit.Graph
use onejit.Graph.Dup.{IsBlank}
use onejit.Allocator
use onejit.Allocator.{Allocator}
use onejit.Allocator.Choose.{IsHinted, try_satisfy_hints-IsHinted}
use onejit.Allocator.Simplify.{NextReg, next_reg-NextReg}
use onejit.Allocator.Sound.{IsReady, IsAllocated, allocate_regs-IsAllocated}
use onejit.Allocator.Prepare.{reset-IsReady}
use onejit.Tests.Samples.{
  fresh, fresh-IsUsable, path, path-nodes, sample, sample-IsReady, hundred, hundred-IsValid,
}

reset-IsReady_example :
    ((Allocator.reset true fresh 4).1 ≡ true)
    × IsReady 4 (Allocator.reset true fresh 4).0
    × IsBlank 4 (Allocator.reset true fresh 4).0.g
reset-IsReady_example = reset-IsReady fresh 4 fresh-IsUsable (omega arith)

allocate_regs-IsAllocated_example :
    IsAllocated 4 sample.g (Allocator.allocate_regs sample_libc 2 sample)
allocate_regs-IsAllocated_example = allocate_regs-IsAllocated sample_libc 4 2 sample sample-IsReady

next_reg-NextReg_example : NextReg 4 path (Allocator.next_reg path 2)
next_reg-NextReg_example =
    next_reg-NextReg path 2 4 (unfold Graph.size in unfold Array.size in path-nodes) (omega arith)

try_satisfy_hints-IsHinted_example :
    IsHinted hundred
      (Allocator.try_satisfy_hints sample_libc path sample.colors sample.hints hundred 1).0
      (Allocator.try_satisfy_hints sample_libc path sample.colors sample.hints hundred 1).1
try_satisfy_hints-IsHinted_example =
    try_satisfy_hints-IsHinted sample_libc path sample.colors sample.hints hundred 1 hundred-IsValid
      (omega arith)
