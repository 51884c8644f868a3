-- ===== src/Allocator/Choose.antt =====
-- About the colour that a register gets, in `assign_colors` and `try_satisfy_hints` of
-- onejit/reg/allocator.cpp.
use onejit.Base.{
  ℕ, zero, suc, ◌+◌, ◌%◌, ◌^◌, ◌<◌, true, false, not, ◌==◌, ltb, ◌&&◌, if◌then◌else◌, ◌≡◌, ◌≢◌,
  refl, ◌∙◌, subst, arith, Bool-cases, inl, inr, lt→ltb,
}
use onejit.Libc.{Libc}
use onejit.Array
use onejit.Array.{Array}
use onejit.BitSet.{BitSet, no_pos}
use onejit.BitSet
use onejit.BitSet.Stored
use onejit.BitSet.Stored.{stored, get_bit-eq-stored}
use onejit.BitSet.Fill
use onejit.BitSet.Find.{Found, missing, found, find-Found}
use onejit.Graph
use onejit.Graph.{Graph, no_node}
use onejit.Graph.Adjacency.{adjacent}
use onejit.Allocator.{spare_hints, try_satisfy_hints, no_color}
use onejit.Allocator.Taken.{any_below-true, count-any_below, count-lt, free_value}
use onejit.Allocator.Reconnect.{color_at, is_back, taken}

-- The checked read within the size.
at-eq-stored : (s : BitSet) (i : ℕ) → i < s.size → BitSet.at s i ≡ stored s.words i
unfolding BitSet.at
at-eq-stored s i h = rw (lt→ltb _ _ h) (get_bit-eq-stored s.words i)

lt-size_of_at : (s : BitSet) (i : ℕ) → BitSet.at s i ≡ true → i < s.size
unfolding BitSet.at
lt-size_of_at s i h = ground arith

-- `avail.find(true)` as a colour.
abbrev pub lowest_of : Libc → BitSet → ℕ
lowest_of c avail = BitSet.find c avail true 0 no_pos % 2 ^ 32

-- It is an available colour, or `NoColor` where none is left.
pub data Lowest (avail : BitSet) (r : ℕ) : Type 0 where
  none_left : r ≡ no_color → ((x : ℕ) → x < avail.size → BitSet.at avail x ≡ false) → Lowest avail r
  lowest :
      r < avail.size
      → BitSet.at avail r ≡ true
      → ((x : ℕ) → x < r → BitSet.at avail x ≡ false)
      → Lowest avail r

pub lowest_of-Lowest :
    (c : Libc) (avail : BitSet)
    → Stored.IsValid avail
    → avail.size < 2 ^ 30
    → Lowest avail (lowest_of c avail)
lowest_of-Lowest c avail valid small =
    let stop : (if ltb avail.size no_pos then avail.size else no_pos) ≡ avail.size = ground arith in
    let r = BitSet.find c avail true 0 no_pos in
    elim (subst (λ (t : ℕ). Found avail.words true 0 t r) stop
      (find-Found c avail true 0 no_pos valid (inl refl))) [
        | missing e clear ↦
            none_left (rw e refl) (λ x h. at-eq-stored avail x h ∙ clear x (omega arith) h)
        | found p q e clear ↦
            let wrap : r % 2 ^ 32 ≡ r = omega arith in
            rw wrap (
              lowest q (at-eq-stored avail r q ∙ e)
                (λ x h. at-eq-stored avail x (omega arith) ∙ clear x (omega arith) h))
      ]

-- Bits that are left of `avail`.
pub record IsSpared (avail spared : BitSet) : Type 0 where
  pub valid : Stored.IsValid spared
  pub same_size : spared.size ≡ avail.size
  pub still : (x : ℕ) → BitSet.at spared x ≡ true → BitSet.at avail x ≡ true

spare_hints-IsSpared :
    (c : Libc) (g2 : Graph) (colors hints : Array ℕ) (reg fuel neighbor : ℕ) (start avail : BitSet)
    → IsSpared start avail
    → IsSpared start (spare_hints c g2 colors hints reg fuel neighbor avail)
unfolding spare_hints
spare_hints-IsSpared c g2 colors hints reg zero neighbor start avail kept = kept
spare_hints-IsSpared c g2 colors hints reg (suc fuel) neighbor start avail kept =
    let r = Graph.first_set c g2 reg neighbor in
    let hint = Array.get 0 hints r in
    let fewer : IsSpared start (BitSet.set avail hint false) = record {
      valid = Fill.set-IsValid avail hint false kept.valid;
      same_size = (Fill.set-SameShape avail hint false).same_size ∙ kept.same_size;
      still = λ x h. ground (arith, Fill.at-set avail hint false x kept.valid, kept.still x);
    } in
    elim (Bool-cases (r == no_node)) [
      | inl done ↦ rw done kept
      | inr more ↦ rw more (
          spare_hints-IsSpared c g2 colors hints reg fuel ((r + 1) % 2 ^ 32) start _
            (elim (Bool-cases (Array.get 0 colors r == no_color && not (hint == no_color))) [
              | inl spares ↦ rw spares fewer
              | inr keeps ↦ rw keeps kept
            ]))
    ]

-- What `try_satisfy_hints` may answer: an available colour or `NoColor`.
pub record IsHinted (avail : BitSet) (alt : ℕ) (spared : BitSet) : Type 0 where
  pub left_over : IsSpared avail spared
  pub available : alt ≢ no_color → (alt < avail.size) × (BitSet.at avail alt ≡ true)

-- `try_satisfy_hints` answers `NoColor` or a colour that was available on entry, and makes no
-- colour available; the set of colours keeps its size and invariant.
pub try_satisfy_hints-IsHinted :
    (c : Libc) (g2 : Graph) (colors hints : Array ℕ) (avail : BitSet) (reg : ℕ)
    → Stored.IsValid avail
    → avail.size < 2 ^ 30
    → IsHinted avail
        (try_satisfy_hints c g2 colors hints avail reg).0
        (try_satisfy_hints c g2 colors hints avail reg).1
unfolding try_satisfy_hints
try_satisfy_hints-IsHinted c g2 colors hints avail reg valid small =
    let whole : IsSpared avail avail = record {
      valid = valid;
      same_size = refl;
      still = λ x h. h;
    } in
    let hint = Array.get 0 hints reg in
    let spared = spare_hints c g2 colors hints reg (Graph.size g2) 0 avail in
    let kept = spare_hints-IsSpared c g2 colors hints reg (Graph.size g2) 0 avail avail whole in
    elim (Bool-cases (not (hint == no_color) && BitSet.at avail hint)) [
      | inl takes ↦ rw takes (record {
        left_over = whole;
        available = λ real.
            let on : BitSet.at avail hint ≡ true = ground arith in
            (lt-size_of_at avail hint on, on);
      })
      | inr leaves ↦ rw leaves (record {
        left_over = kept;
        available = λ real.
            elim (lowest_of-Lowest c spared kept.valid (omega (arith, kept.same_size))) [
              | none_left e clear ↦ absurd (real e)
              | lowest p on clear ↦ (omega (arith, kept.same_size), kept.still _ on)
            ];
      })
    ]

-- Some colour is not taken, since the register itself takes none.
pub some_free :
    (n : ℕ) (g2 g0 : Graph) (colors : Array ℕ) (reg : ℕ)
    → reg < n
    → adjacent g0 reg reg ≡ false
    → (x : ℕ) × (x < n) × (taken g2 g0 colors reg n x ≡ false)
some_free n g2 g0 colors reg hr absent = free_value n (taken g2 g0 colors reg n) (
    omega (
      arith,
      count-any_below n n (is_back g2 g0 reg) (color_at colors),
      count-lt n (is_back g2 g0 reg) reg hr (ground arith),
    ))

-- A colour that is not taken differs from that of every neighbour that is back.
pub ne_of_free :
    (n : ℕ) (g2 g0 : Graph) (colors : Array ℕ) (reg x k : ℕ)
    → taken g2 g0 colors reg n x ≡ false
    → k < n
    → adjacent g2 reg k ≡ true
    → adjacent g0 k k ≡ true
    → color_at colors k ≢ x
ne_of_free n g2 g0 colors reg x k free hk edge back same = ground (
  arith,
  any_below-true n (λ i. is_back g2 g0 reg i && (color_at colors i == x)) k hk (ground arith),
)
