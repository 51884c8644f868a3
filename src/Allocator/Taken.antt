-- ===== src/Allocator/Taken.antt =====
-- Counting the colours that neighbours take.
use onejit.Base.{
  ap₂, ℕ, zero, suc, ◌+◌, ◌≤◌, ◌<◌, Bool, true, false, ◌==◌, ◌&&◌, ◌||◌, ◌≡◌, refl, ap, ◌∙◌, sym,
  arith, Bool-cases, inl, inr, ==_iff, ==-false_iff,
}
use onejit.BitSet.{of_bool}
use onejit.Graph.Count.{count, count_none, count_congr, count-le, of_bool-le}

-- Whether some index below the bound passes the test.
abbrev pub any_below : ℕ → (ℕ → Bool) → Bool
any_below zero f = false
any_below (suc n) f = f n || any_below n f

pub any_below-true : (n : ℕ) (f : ℕ → Bool) (k : ℕ) → k < n → f k ≡ true → any_below n f ≡ true
any_below-true zero f k h e = elim h [ ]
any_below-true (suc n) f k h e = elim (Bool-cases (k == n)) [
  | inl last ↦ let same : f n ≡ true = ap f (sym ((==_iff _ _).0 last)) ∙ e in ground arith
  | inr earlier ↦
      ground (arith, any_below-true n f k (omega (arith, (==-false_iff _ _).0 earlier)) e)
]

pub any_below-false :
    (n : ℕ) (f : ℕ → Bool) → ((k : ℕ) → k < n → f k ≡ false) → any_below n f ≡ false
any_below-false zero f h = refl
any_below-false (suc n) f h =
    ground (arith, h n (omega arith), any_below-false n f (λ k p. h k (omega arith)))

pub any_below_congr :
    (n : ℕ) (f g : ℕ → Bool) → ((k : ℕ) → k < n → f k ≡ g k) → any_below n f ≡ any_below n g
any_below_congr zero f g h = refl
any_below_congr (suc n) f g h =
    ap₂ (λ (a b : Bool). a || b) (h n (omega arith))
      (any_below_congr n f g (λ k p. h k (omega arith)))

-- Going from one bound to a later one, when nothing between passes.
pub any_below_extend :
    (d n m : ℕ) (f : ℕ → Bool)
    → n + d ≡ m
    → ((k : ℕ) → n ≤ k → k < m → f k ≡ false)
    → any_below m f ≡ any_below n f
any_below_extend zero n m f e h =
    let same : m ≡ n = omega arith in ap (λ (t : ℕ). any_below t f) same
any_below_extend (suc d) n m f e h =
    let last : m ≡ suc (n + d) = omega arith in
    ap (λ (t : ℕ). any_below t f) last
    ∙ ground (
      arith,
      h (n + d) (omega arith) (omega arith),
      any_below_extend d n (n + d) f refl (λ k p q. h k p (omega arith)),
    )

-- One more value `p` beside those of `h`.
abbrev with_point : Bool → ℕ → (ℕ → Bool) → ℕ → Bool
with_point b p h x = (b && (p == x)) || h x

count-with_point_outside :
    (n : ℕ) (b : Bool) (p : ℕ) (h : ℕ → Bool) → n ≤ p → count n (with_point b p h) ≡ count n h
count-with_point_outside n b p h out = count_congr n (with_point b p h) h (λ x hx. ground arith)

count-with_point :
    (n : ℕ) (b : Bool) (p : ℕ) (h : ℕ → Bool) → count n (with_point b p h) ≤ of_bool b + count n h
count-with_point zero b p h = omega arith
count-with_point (suc n) b p h = elim (Bool-cases (p == n)) [
  | inl last ↦
      let e : p ≡ n = (==_iff _ _).0 last in
      ground (arith, count-with_point_outside n b p h (omega arith))
  | inr other ↦ ground (arith, count-with_point n b p h)
]

-- The colours that the tested indices have are no more than the indices.
pub count-any_below :
    (n j : ℕ) (f : ℕ → Bool) (col : ℕ → ℕ)
    → count n (λ x. any_below j (λ k. f k && (col k == x))) ≤ count j f
count-any_below n zero f col = omega (arith, count_none n (λ x. false) (λ k p. refl))
count-any_below n (suc j) f col = omega (
  arith,
  count-with_point n (f j) (col j) (λ x. any_below j (λ k. f k && (col k == x))),
  count-any_below n j f col,
)

-- A test that fails somewhere does not count everything.
pub count-lt : (n : ℕ) (f : ℕ → Bool) (r : ℕ) → r < n → f r ≡ false → count n f < n
count-lt zero f r h e = elim h [ ]
count-lt (suc n) f r h e = elim (Bool-cases (r == n)) [
  | inl last ↦
      let same : f n ≡ false = ap f (sym ((==_iff _ _).0 last)) ∙ e in
      omega (arith, count-le n f, ap of_bool same)
  | inr earlier ↦
      omega
        (arith, count-lt n f r (omega (arith, (==-false_iff _ _).0 earlier)) e, of_bool-le (f n))
]

-- Some value is free.
pub free_value : (n : ℕ) (f : ℕ → Bool) → count n f < n → (x : ℕ) × (x < n) × (f x ≡ false)
free_value zero f h = elim h [ ]
free_value (suc n) f h = elim (Bool-cases (f n)) [
  | inr free ↦ (n, omega arith, free)
  | inl taken ↦
      let (x, p, e) = free_value n f (omega (arith, ap of_bool taken)) in (x, omega arith, e)
]
