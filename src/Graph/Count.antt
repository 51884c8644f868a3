-- ===== src/Graph/Count.antt =====
-- How many indices below a bound pass a test: the degree of a node is such a count.
use onejit.Base.{
  ℕ, zero, suc, ◌+◌, ◌≤◌, ◌<◌, Bool, true, false, ◌==◌, ◌≡◌, ◌≢◌, refl, ap, ap₂, ◌∙◌, sym, arith,
  Bool-cases, inl, inr, ==_iff, ==-false_iff,
}
use onejit.BitSet.{of_bool}

abbrev pub count : ℕ → (ℕ → Bool) → ℕ
count zero f = 0
count (suc n) f = of_bool (f n) + count n f

pub count_congr : (n : ℕ) (f g : ℕ → Bool) → ((k : ℕ) → k < n → f k ≡ g k) → count n f ≡ count n g
count_congr zero f g h = refl
count_congr (suc n) f g h =
    ap₂ ◌+◌ (ap of_bool (h n (omega arith))) (count_congr n f g (λ k p. h k (omega arith)))

-- A test that changes at one index.
pub count_change :
    (n : ℕ) (f g : ℕ → Bool) (i : ℕ)
    → i < n
    → ((k : ℕ) → k < n → k ≢ i → f k ≡ g k)
    → count n f + of_bool (g i) ≡ count n g + of_bool (f i)
count_change zero f g i h same = elim h [ ]
count_change (suc n) f g i h same = elim (Bool-cases (i == n)) [
  | inl last ↦
      let e : i ≡ n = (==_iff _ _).0 last in
      let rest = count_congr n f g (λ k p. same k (omega arith) (omega arith)) in rw e (omega arith)
  | inr earlier ↦
      let e : i ≢ n = (==-false_iff _ _).0 earlier in
      let rest = count_change n f g i (omega arith) (λ k p ne. same k (omega arith) ne) in
      let top = ap of_bool (same n (omega arith) (λ q. e (sym q))) in omega arith
]

pub of_bool-le : (b : Bool) → of_bool b ≤ 1
of_bool-le true = omega arith
of_bool-le false = omega arith

pub count-le : (n : ℕ) (f : ℕ → Bool) → count n f ≤ n
count-le zero f = omega arith
count-le (suc n) f = omega (arith, of_bool-le (f n), count-le n f)

pub count_zero : (n : ℕ) (f : ℕ → Bool) → count n f ≡ 0 → (k : ℕ) → k < n → f k ≡ false
count_zero zero f h k p = elim p [ ]
count_zero (suc n) f h k p = elim (Bool-cases (f k)) [
  | inr no' ↦ no'
  | inl hit ↦ elim (Bool-cases (k == n)) [
    | inl last ↦
        let e : k ≡ n = (==_iff _ _).0 last in
        let top : of_bool (f n) ≡ 1 = ap of_bool (ap f (sym e) ∙ hit) in absurd (omega arith)
    | inr earlier ↦ count_zero n f (omega arith) k (omega (arith, (==-false_iff _ _).0 earlier))
  ]
]

pub count-pos : (n : ℕ) (f : ℕ → Bool) (k : ℕ) → k < n → f k ≡ true → 1 ≤ count n f
count-pos n f k p h = elim (Bool-cases (count n f == 0)) [
  | inl none' ↦ ground (arith, count_zero n f ((==_iff _ _).0 none') k p)
  | inr some' ↦ omega (arith, (==-false_iff _ _).0 some')
]

pub count_none : (n : ℕ) (f : ℕ → Bool) → ((k : ℕ) → k < n → f k ≡ false) → count n f ≡ 0
count_none zero f h = refl
count_none (suc n) f h =
    omega (arith, ap of_bool (h n (omega arith)), count_none n f (λ k p. h k (omega arith)))
