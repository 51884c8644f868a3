-- ===== src/Word/Bit.antt =====
-- Single bits of a word, and the bit operations read bit by bit.
use native.Mathlib.Nat.{
  pow-suc, pow-succ', one-le-pow, zero-add, div-div-eq-div-mul, div-add-mod, mod-lt, mod-eq_of_lt,
  add-zero, add-suc, add-mul-mod_self_left,
}
use onejit.Base.{
  ℕ, zero, suc, ◌+◌, ◌-◌, ◌*◌, ◌/◌, ◌%◌, ◌^◌, ◌≤◌, ◌<◌, bit_and, bit_or, bit_xor, Bool, false, not,
  xor, ◌&&◌, ◌||◌, ◌==◌, ltb, ◌≡◌, refl, sym, ap, ◌∙◌, arith,
}
use onejit.Word.Digit.{bit_and-lowest, bit_or-lowest, bit_xor-lowest, differ_digit}

unfoldable pub testbit : ℕ → ℕ → Bool
testbit a zero = a % 2 == 1
testbit a (suc k) = testbit (a / 2) k

testbit-suc : (a k : ℕ) → testbit a (suc k) ≡ testbit (a / 2) k
unfolding testbit
testbit-suc a k = refl

pub testbit-and : (a b k : ℕ) → testbit (bit_and a b) k ≡ (testbit a k && testbit b k)
unfolding testbit
testbit-and a b zero = ground (arith, bit_and-lowest a b)
testbit-and a b (suc k) =
    let half : bit_and a b / 2 ≡ bit_and (a / 2) (b / 2) = omega (arith, bit_and-lowest a b) in
    rw half (testbit-and (a / 2) (b / 2) k)

pub testbit-or : (a b k : ℕ) → testbit (bit_or a b) k ≡ (testbit a k || testbit b k)
unfolding testbit
testbit-or a b zero = ground (arith, bit_or-lowest a b)
testbit-or a b (suc k) =
    let half : bit_or a b / 2 ≡ bit_or (a / 2) (b / 2) = omega (arith, bit_or-lowest a b) in
    rw half (testbit-or (a / 2) (b / 2) k)

pub testbit-xor : (a b k : ℕ) → testbit (bit_xor a b) k ≡ xor (testbit a k) (testbit b k)
unfolding testbit
testbit-xor a b zero = ground (arith, bit_xor-lowest a b, differ_digit (a % 2) (b % 2))
testbit-xor a b (suc k) =
    let half : bit_xor a b / 2 ≡ bit_xor (a / 2) (b / 2) =
      omega (arith, bit_xor-lowest a b, differ_digit (a % 2) (b % 2) (omega arith) (omega arith)) in
    rw half (testbit-xor (a / 2) (b / 2) k)

pub zero-testbit : (k : ℕ) → testbit 0 k ≡ false
unfolding testbit
zero-testbit zero = refl
zero-testbit (suc k) = zero-testbit k

pub testbit-one : (k : ℕ) → testbit 1 k ≡ (k == 0)
unfolding testbit
testbit-one zero = refl
testbit-one (suc k) = zero-testbit k ∙ ground arith

-- Two numbers with the same bits are equal; `n` bounds the induction.
testbit_ext_below : (n a b : ℕ) → a ≤ n → b ≤ n → ((k : ℕ) → testbit a k ≡ testbit b k) → a ≡ b
unfolding testbit
testbit_ext_below zero a b p q h = omega arith
testbit_ext_below (suc n) a b p q h =
    ground
      (arith, h 0, testbit_ext_below n (a / 2) (b / 2) (omega arith) (omega arith) (λ k. h (suc k)))

pub testbit_ext : (a b : ℕ) → ((k : ℕ) → testbit a k ≡ testbit b k) → a ≡ b
testbit_ext a b h = testbit_ext_below (a + b) a b (omega arith) (omega arith) h

pub two-pow-pos : (k : ℕ) → 1 ≤ 2 ^ k
two-pow-pos k = one-le-pow k 2 (omega arith)

-- A number below 2 ^ n has no bit at or above n.
pub testbit_above : (n a k : ℕ) → a < 2 ^ n → n ≤ k → testbit a k ≡ false
unfolding testbit
testbit_above zero a k h q = let e : a ≡ 0 = omega arith in rw e (zero-testbit k)
testbit_above (suc n) a zero h q = absurd (omega arith)
testbit_above (suc n) a (suc k) h q =
    testbit_above n (a / 2) k (omega (arith, pow-suc 2 n)) (omega arith)

-- The remainder by a power of two, one bit at a time.
pub mod-two-pow-suc : (n a : ℕ) → a % 2 ^ suc n ≡ 2 * (a / 2 % 2 ^ n) + a % 2
mod-two-pow-suc n a =
    let split : a ≡ 2 * (a / 2 % 2 ^ n) + a % 2 + 2 ^ suc n * (a / 2 / 2 ^ n) =
      omega
        (arith, div-add-mod (a / 2) (2 ^ n), ap (λ (t : ℕ). t * (a / 2 / 2 ^ n)) (pow-suc 2 n)) in
    let small : 2 * (a / 2 % 2 ^ n) + a % 2 < 2 ^ suc n =
      omega (arith, pow-suc 2 n, mod-lt (a / 2) (two-pow-pos n)) in
    ap (λ (t : ℕ). t % 2 ^ suc n) split
    ∙ add-mul-mod_self_left (2 * (a / 2 % 2 ^ n) + a % 2) (2 ^ suc n) (a / 2 / 2 ^ n)
    ∙ mod-eq_of_lt small

-- The low n bits.
pub testbit-mod : (n a k : ℕ) → testbit (a % 2 ^ n) k ≡ (ltb k n && testbit a k)
unfolding testbit
testbit-mod zero a k = let e : a % 2 ^ 0 ≡ 0 = omega arith in rw e (zero-testbit k ∙ ground arith)
testbit-mod (suc n) a zero = ground (arith, mod-two-pow-suc n a)
testbit-mod (suc n) a (suc k) =
    let e : a % 2 ^ suc n / 2 ≡ a / 2 % 2 ^ n = omega (arith, mod-two-pow-suc n a) in
    rw e (testbit-mod n (a / 2) k ∙ ground arith)

-- A right shift moves the bits down.
pub testbit-div : (n a k : ℕ) → testbit (a / 2 ^ n) k ≡ testbit a (k + n)
testbit-div zero a k = rw add-zero (let e : a / 2 ^ 0 ≡ a = omega arith in rw e)
testbit-div (suc n) a k =
    let e : a / 2 ^ suc n ≡ a / 2 / 2 ^ n =
      ap (λ (t : ℕ). a / t) (pow-succ' 2 n) ∙ sym (div-div-eq-div-mul a 2 (2 ^ n)) in
    rw e (testbit-div n (a / 2) k ∙ unfold testbit in rw (add-suc k n))

-- A bit is the digit that the shift brings to the end.
pub testbit-eq-digit : (k a : ℕ) → testbit a k ≡ (a / 2 ^ k % 2 == 1)
testbit-eq-digit k a =
    ap (testbit a) (sym (zero-add k)) ∙ sym (testbit-div k a 0) ∙ unfold testbit in refl

pub one-bit_and : (a : ℕ) → bit_and 1 a ≡ a % 2
one-bit_and a = omega (arith, bit_and-lowest 1 a, zero-bit_and (a / 2))
  where
    zero-bit_and : (b : ℕ) → bit_and 0 b ≡ 0
    zero-bit_and b =
        testbit_ext (bit_and 0 b) 0 λ k. ground (arith, testbit-and 0 b k, zero-testbit k)

-- A left shift moves the bits up.
pub testbit-mul : (n a k : ℕ) → testbit (a * 2 ^ n) (k + n) ≡ testbit a k
testbit-mul zero a k = rw add-zero (let e : a * 2 ^ 0 ≡ a = omega arith in rw e)
testbit-mul (suc n) a k =
    let e : a * 2 ^ suc n / 2 ≡ a * 2 ^ n = omega (arith, ap (λ (t : ℕ). a * t) (pow-succ' 2 n)) in
    ap (testbit (a * 2 ^ suc n)) (add-suc k n)
    ∙ testbit-suc (a * 2 ^ suc n) (k + n)
    ∙ ap (λ (t : ℕ). testbit t (k + n)) e
    ∙ testbit-mul n a k

pub testbit-mul_low : (n a k : ℕ) → k < n → testbit (a * 2 ^ n) k ≡ false
unfolding testbit
testbit-mul_low zero a k h = elim h [ ]
testbit-mul_low (suc n) a zero h = ground (arith, ap (λ (t : ℕ). a * t) (pow-succ' 2 n))
testbit-mul_low (suc n) a (suc k) h =
    let e : a * 2 ^ suc n / 2 ≡ a * 2 ^ n = omega (arith, ap (λ (t : ℕ). a * t) (pow-succ' 2 n)) in
    rw e (testbit-mul_low n a k (omega arith))

-- Complement within n bits.
pub testbit-complement :
    (n a k : ℕ) → a < 2 ^ n → testbit (2 ^ n - 1 - a) k ≡ (ltb k n && not (testbit a k))
unfolding testbit
testbit-complement zero a k h =
    let e : 2 ^ 0 - 1 - a ≡ 0 = omega arith in rw e (zero-testbit k ∙ ground arith)
testbit-complement (suc n) a zero h = ground (arith, pow-succ' 2 n)
testbit-complement (suc n) a (suc k) h =
    let e : (2 ^ suc n - 1 - a) / 2 ≡ 2 ^ n - 1 - a / 2 = omega (arith, pow-succ' 2 n) in
    rw e (testbit-complement n (a / 2) k (omega (arith, pow-succ' 2 n)) ∙ ground arith)

-- A number whose bits at or above n are clear lies below 2 ^ n.
pub lt_of_testbit : (n a : ℕ) → ((k : ℕ) → n ≤ k → testbit a k ≡ false) → a < 2 ^ n
lt_of_testbit n a h =
    let same : a % 2 ^ n ≡ a =
      testbit_ext (a % 2 ^ n) a (λ k. ground (arith, testbit-mod n a k, h k)) in
    omega (arith, mod-lt a (two-pow-pos n))

pub bit_or-lt : (n a b : ℕ) → a < 2 ^ n → b < 2 ^ n → bit_or a b < 2 ^ n
bit_or-lt n a b ha hb =
    lt_of_testbit n _
      λ k q. ground (arith, testbit-or a b k, testbit_above n a k ha q, testbit_above n b k hb q)

pub bit_xor-lt : (n a b : ℕ) → a < 2 ^ n → b < 2 ^ n → bit_xor a b < 2 ^ n
bit_xor-lt n a b ha hb =
    lt_of_testbit n _
      λ k q. ground (arith, testbit-xor a b k, testbit_above n a k ha q, testbit_above n b k hb q)

pub bit_and-lt : (n a b : ℕ) → a < 2 ^ n → bit_and a b < 2 ^ n
bit_and-lt n a b ha =
    lt_of_testbit n _ λ k q. ground (arith, testbit-and a b k, testbit_above n a k ha q)

-- Disjoint fields are joined by a sum.
pub bit_or-zero : (a : ℕ) → bit_or a 0 ≡ a
bit_or-zero a = testbit_ext (bit_or a 0) a λ k. ground (arith, testbit-or a 0 k, zero-testbit k)

pub bit_or-fields : (n q r : ℕ) → r < 2 ^ n → bit_or (q * 2 ^ n) r ≡ q * 2 ^ n + r
bit_or-fields zero q r h = ground (arith, bit_or-zero q)
bit_or-fields (suc n) q r h = ground (
  arith,
  bit_or-lowest (q * 2 ^ suc n) r,
  ap (λ (t : ℕ). q * t) (pow-succ' 2 n),
  pow-succ' 2 n,
  bit_or-fields n q (r / 2) (omega (arith, pow-succ' 2 n)),
)
