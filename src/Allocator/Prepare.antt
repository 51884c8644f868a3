-- ===== src/Allocator/Prepare.antt =====
-- About `reset` of onejit/reg/allocator.cpp, where memory is granted.
use onejit.Base.{ℕ, ◌+◌, ◌*◌, ◌%◌, ◌≤◌, ◌^◌, ◌<◌, true, false, ◌≡◌, refl, arith}
use onejit.Array
use onejit.Array.{Array}
use onejit.BitSet
use onejit.BitSet.{BitSet}
use onejit.BitSet.Fill
use onejit.BitSet.Stored
use onejit.BitSet.Resize.{resize-Resized, resize_granted}
use onejit.Graph
use onejit.Graph.{Graph}
use onejit.Graph.Dup.{IsReusable, IsBlank, reset-IsBlank, array_resize_granted}
use onejit.Allocator.{Allocator, reset}
use onejit.Allocator.Sound.{IsReady}

-- Growing at most doubles the capacity, or rounds the size up to whole words.
grow_into-cap : (s : BitSet) (oldcap n : ℕ) → (BitSet.grow_into s oldcap n).cap ≡ s.cap
unfolding BitSet.grow_into
grow_into-cap s oldcap n = ground (
  arith,
  (Fill.fill-SameShape (record s { size = n }) false s.size oldcap).same_cap,
  (Fill.fill-SameShape (record s { size = n }) false s.size n).same_cap,
)

resize-cap :
    (s : BitSet) (n : ℕ)
    → Stored.IsValid s
    → s.cap < 2 ^ 59
    → n + 64 ≤ 2 ^ 60
    → (BitSet.resize true s n).0.cap < 2 ^ 60
unfolding BitSet.resize BitSet.grow BitSet.grow_cap BitSet.realloc
resize-cap s n valid hs hn =
    ground (arith, grow_into-cap s s.cap n, grow_into-cap (BitSet.grow_cap true s n).0 s.cap n)

area_roomy : (n : ℕ) → n < 2 ^ 30 → n * n + 64 ≤ 2 ^ 60
area_roomy n h = grind arith

-- A graph as its constructor or an earlier run leaves it
pub record IsUsableGraph (g : Graph) : Type 0 where
  pub bits_valid : Stored.IsValid g.bits
  pub roomy : g.bits.cap < 2 ^ 59

-- An allocator as its constructor or an earlier run leaves it
pub record IsUsable (a : Allocator) : Type 0 where
  pub graph : IsUsableGraph a.g
  pub copy : IsUsableGraph a.g2
  pub avail_valid : Stored.IsValid a.avail_colors
  pub avail_roomy : a.avail_colors.cap < 2 ^ 60

IsReusable-of : (g : Graph) → IsUsableGraph g → IsReusable g
IsReusable-of g usable = record {
  bits_valid = usable.bits_valid;
  roomy = omega (arith, usable.roomy);
}

reset-cap :
    (g : Graph) (n : ℕ)
    → IsUsableGraph g
    → n < 2 ^ 30
    → (Graph.reset true true g n).0.bits.cap < 2 ^ 60
unfolding Graph.reset
reset-cap g n usable small =
    let wrap : n * n % 2 ^ 64 ≡ n * n = omega (arith, area_roomy n small) in
    let sized = (array_resize_granted g.degrees n).0 in
    let t = (BitSet.resize true g.bits (n * n)).0 in
    let squared =
      resize_granted g.bits (n * n) usable.bits_valid (omega (arith, usable.roomy))
        (omega (arith, area_roomy n small)) in
    rw (wrap, sized, squared)
      (omega (
        arith,
        (Fill.fill-SameShape t false 0 BitSet.no_pos).same_cap,
        resize-cap g.bits (n * n) usable.bits_valid usable.roomy (area_roomy n small),
      ))

-- `reset` of a usable allocator, where memory is granted, succeeds for n < 2 ^ 30 and leaves it ready
-- for n registers, which no edge of the graph connects.
pub reset-IsReady :
    (a : Allocator) (n : ℕ)
    → IsUsable a
    → n < 2 ^ 30
    → ((reset true a n).1 ≡ true) × IsReady n (reset true a n).0 × IsBlank n (reset true a n).0.g
unfolding reset
reset-IsReady a n usable small =
    let (g_done, blank) = reset-IsBlank a.g n (IsReusable-of a.g usable.graph) small in
    let (g2_done, blank2) = reset-IsBlank a.g2 n (IsReusable-of a.g2 usable.copy) small in
    let (stack_done, stack_n) = array_resize_granted a.stack n in
    let (colors_done, colors_n) = array_resize_granted a.colors n in
    let avail_done =
      resize_granted a.avail_colors n usable.avail_valid usable.avail_roomy (omega arith) in
    let sized =
      resize-Resized true a.avail_colors n usable.avail_valid usable.avail_roomy (omega arith)
        avail_done in
    let hints_done : (Array.reserve true (Array.clear a.hints) n).1 ≡ true =
      unfold Array.reserve in ground arith in
    rw (g_done, g2_done, stack_done, hints_done, colors_done, avail_done)
      (
        refl,
        record {
          small = small;
          valid = blank.valid;
          nodes = blank.nodes;
          reusable = record {
            bits_valid = blank2.valid.bits_valid;
            roomy = reset-cap a.g2 n usable.copy small;
          };
          colors_length = colors_n;
          avail_valid = sized.valid;
          avail_size = sized.new_size;
        },
        blank,
      )
