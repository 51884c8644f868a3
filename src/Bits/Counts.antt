-- ===== src/Bits/Counts.antt =====
-- The arithmetic of logarithms in onejit/bits.hpp, as arithmetic of the numbers that they stand for.
use native.Mathlib.Nat.{pow-le-pow_right, pow-succ'}
use onejit.Base.{
  ℕ, zero, suc, ◌+◌, ◌*◌, ◌^◌, ◌≤◌, ◌<◌, not, ltb, ◌≡◌, ◌⊎◌, inl, inr, refl, ap, ap₂, ◌∙◌, arith,
  Bool-cases, ltb→lt, ltb→le,
}
use onejit.Word.Bit.{two-pow-pos}
use onejit.Bits.{bits0, is_zero, val, less, less_equal, greater, greater_equal, times}

-- The logarithms of the enumerators, and 255 for no bits
abbrev pub IsNamed : ℕ → Type 0
IsNamed a = (a ≤ 9) ⊎ (a ≡ bits0)

pow-add : (a b : ℕ) → 2 ^ (a + b) ≡ 2 ^ a * 2 ^ b
pow-add a zero = let same : a + 0 ≡ a = omega arith in rw same (omega arith)
pow-add a (suc b) =
    let same : a + suc b ≡ suc (a + b) = omega arith in
    rw (same, pow-succ' 2 (a + b), pow-add a b, pow-succ' 2 b) (grind arith)

pow-lt : (a b : ℕ) → a < b → 2 ^ a < 2 ^ b
pow-lt a b h =
    let grows = pow-le-pow_right {n = 2} (omega arith) {i = suc a} {j = b} (omega arith) in
    omega (arith, pow-succ' 2 a, two-pow-pos a)

val_some : (a : ℕ) → a ≤ 9 → val a ≡ 2 ^ a
unfolding val is_zero
val_some a h = ground arith

val_none : val bits0 ≡ 0
unfolding val is_zero
val_none = refl

ltb-pow : (a b : ℕ) → ltb (2 ^ a) (2 ^ b) ≡ ltb a b
ltb-pow a b = elim (Bool-cases (ltb a b)) [
  | inl below ↦ ground (arith, pow-lt a b (ltb→lt _ _ below))
  | inr above ↦
      ground (arith, pow-le-pow_right {n = 2} (omega arith) {i = b} {j = a} (ltb→le _ _ above))
]

less_counts : (a b : ℕ) → IsNamed a → IsNamed b → less a b ≡ ltb (val a) (val b)
unfolding less
less_counts a b (inl ha) (inl hb) =
    ground (arith, ap₂ ltb (val_some a ha) (val_some b hb), ltb-pow a b)
less_counts a b (inl ha) (inr hb) = ground (arith, ap₂ ltb (val_some a ha) (ap val hb ∙ val_none))
less_counts a b (inr ha) (inl hb) =
    ground (arith, ap₂ ltb (ap val ha ∙ val_none) (val_some b hb), two-pow-pos b)
less_counts a b (inr ha) (inr hb) =
    ground (arith, ap₂ ltb (ap val ha ∙ val_none) (ap val hb ∙ val_none))

times_counts : (a b : ℕ) → IsNamed a → IsNamed b → val (times a b) ≡ val a * val b
unfolding times is_zero val
times_counts a b (inl ha) (inl hb) = ground (arith, pow-add a b)
times_counts a b (inl ha) (inr hb) = ground arith
times_counts a b (inr ha) hb = ground arith

-- `<` of two named `Bits` is `<` of the numbers of bits, and so are the other three comparisons; `*` is
-- their product.
pub bits_counts :
    (a b : ℕ)
    → IsNamed a
    → IsNamed b
    → (less a b ≡ ltb (val a) (val b))
      × (greater_equal a b ≡ not (ltb (val a) (val b)))
      × (greater a b ≡ ltb (val b) (val a))
      × (less_equal a b ≡ not (ltb (val b) (val a)))
      × (val (times a b) ≡ val a * val b)
unfolding less_equal greater greater_equal
bits_counts a b ha hb = (
  less_counts a b ha hb,
  ap not (less_counts a b ha hb),
  less_counts b a hb ha,
  ap not (less_counts b a hb ha),
  times_counts a b ha hb,
)
