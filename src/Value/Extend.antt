-- ===== src/Value/Extend.antt =====
-- `extend_or_truncate`: the canonical 64 bits of a number of `size` bits.
use onejit.Base.{
  ℕ, ◌+◌, ◌-◌, ◌%◌, ◌^◌, ◌≤◌, ◌<◌, bit_and, Bool, true, false, not, ◌==◌, ltb, ◌&&◌, if◌then◌else◌,
  ◌≡◌, ◌⊎◌, refl, sym, ap, ap₂, ◌∙◌, arith, Bool-cases, inl, inr, ltb→lt, ltb→le, ==_iff,
  ==-false_iff,
}
use onejit.Word.{shr}
use onejit.Word.Bit.{
  testbit, testbit-and, testbit-or, testbit-mod, testbit-div, testbit_above, testbit-complement,
  testbit_ext, zero-testbit, lt_of_testbit, bit_or-lt, bit_and-lt,
}
use onejit.Value.{extend_bits}

-- The mask of `size` ones
abbrev pub lomask : ℕ → ℕ
lomask size = shr (2 ^ 64 - 1) (64 - size)

testbit-lomask : (size k : ℕ) → size ≤ 64 → testbit (lomask size) k ≡ ltb k size
testbit-lomask size k h =
    let z : ℕ = 0 in
    let none_set = zero-testbit (k + (64 - size)) in
    testbit-div (64 - size) (2 ^ 64 - 1) k
    ∙ testbit-complement 64 z (k + (64 - size)) (omega arith)
    ∙ ground arith

lomask-lt : (size : ℕ) → size ≤ 64 → lomask size < 2 ^ 64
lomask-lt size h = lt_of_testbit 64 (lomask size) (λ k hk. testbit-lomask size k h ∙ ground arith)

pub testbit-low :
    (size bits k : ℕ)
    → size ≤ 64
    → testbit (bit_and bits (lomask size)) k ≡ (testbit bits k && ltb k size)
testbit-low size bits k h =
    testbit-and bits (lomask size) k
    ∙ ap (λ (b : Bool). testbit bits k && b) (testbit-lomask size k h)

-- The test of `extend_or_truncate` reads the sign bit.
sign_test :
    (size bits : ℕ)
    → 1 ≤ size
    → size ≤ 64
    → (bit_and (bit_and bits (lomask size)) (shr (lomask size) 1) == bit_and bits (lomask size))
      ≡ not (testbit bits (size - 1))
sign_test size bits hs h =
    let low = bit_and bits (lomask size) in
    let half = λ (k : ℕ).
      testbit-and low (shr (lomask size) 1) k
      ∙ ap₂ (λ (a b : Bool). a && b) (testbit-low size bits k h)
          (testbit-div 1 (lomask size) k ∙ testbit-lomask size (k + 1) h) in
    elim (Bool-cases (testbit bits (size - 1))) [
      | inr clear ↦
          let same : bit_and low (shr (lomask size) 1) ≡ low = testbit_ext _ _ (λ k.
            half k ∙ elim (Bool-cases (k == size - 1)) [
              | inl top ↦
                  let e : testbit bits k ≡ false = ap (testbit bits) ((==_iff _ _).0 top) ∙ clear in
                  ground (arith, testbit-low size bits k h)
              | inr below ↦ ground (arith, testbit-low size bits k h)
            ]) in
          ground arith
      | inl sign ↦ ground (
        arith,
        λ (e : bit_and low (shr (lomask size) 1) ≡ low).
            sym (half (size - 1)) ∙ ap (λ (t : ℕ). testbit t (size - 1)) e,
        testbit-low size bits (size - 1) h,
      )
    ]

-- The bits below `size` stay, and those from `size` on are copies of the sign bit, or 0.
pub testbit-extend_bits :
    (size : ℕ) (signed : Bool) (bits k : ℕ)
    → 1 ≤ size
    → size ≤ 64
    → k < 64
    → testbit (extend_bits size signed bits) k
      ≡ (if ltb k size then testbit bits k else signed && testbit bits (size - 1))
unfolding extend_bits
testbit-extend_bits size signed bits k hs h hk =
    let some_bits : (size == 0) ≡ false = ground arith in
    let low = bit_and bits (lomask size) in
    let here = testbit-low size bits k h in
    elim (Bool-cases (signed && testbit bits (size - 1))) [
      | inl negative ↦
          let extends : (signed && not (bit_and low (shr (lomask size) 1) == low)) ≡ true =
            ground (arith, sign_test size bits hs h) in
          rw (some_bits, extends)
            (testbit-or low (2 ^ 64 - 1 - lomask size) k
              ∙ ground (
                arith,
                here,
                testbit-complement 64 (lomask size) k (lomask-lt size h),
                testbit-lomask size k h,
              ))
      | inr positive ↦
          let stays : (signed && not (bit_and low (shr (lomask size) 1) == low)) ≡ false =
            ground (arith, sign_test size bits hs h) in
          rw (some_bits, stays) (ground (arith, here))
    ]

pub extend_bits-lt :
    (size : ℕ) (signed : Bool) (bits : ℕ)
    → size ≤ 64
    → bits < 2 ^ 64
    → extend_bits size signed bits < 2 ^ 64
unfolding extend_bits
extend_bits-lt size signed bits h hb =
    let low = bit_and bits (lomask size) in
    let small = bit_and-lt 64 bits (lomask size) hb in
    let filled = bit_or-lt 64 low (2 ^ 64 - 1 - lomask size) small (omega arith) in ground arith

-- Reducing to 64 bits first makes no difference to the bits below the width.
pub mod-mod_64 : (size a : ℕ) → size ≤ 64 → a % 2 ^ 64 % 2 ^ size ≡ a % 2 ^ size
mod-mod_64 size a h = testbit_ext _ _ (λ k.
    testbit-mod size (a % 2 ^ 64) k
    ∙ ap (λ (b : Bool). ltb k size && b) (testbit-mod 64 a k)
    ∙ ground arith
    ∙ sym (testbit-mod size a k))

-- The low bits are those given.
pub mod-extend_bits :
    (size : ℕ) (signed : Bool) (bits : ℕ)
    → size ≤ 64
    → extend_bits size signed bits % 2 ^ size ≡ bits % 2 ^ size
mod-extend_bits size signed bits h = testbit_ext _ _ (λ k.
    testbit-mod size (extend_bits size signed bits) k ∙ elim (Bool-cases (ltb k size)) [
      | inr above ↦ ground (arith, testbit-mod size bits k)
      | inl below ↦
          let hk : k < size = ltb→lt _ _ below in
          ground (
            arith,
            testbit-mod size bits k,
            testbit-extend_bits size signed bits k (omega arith) h (omega arith),
          )
    ])

-- The bits from the width on copy the sign bit for signed kinds, and are 0 for the others.
pub record IsExtended (size : ℕ) (signed : Bool) (bits : ℕ) : Type 0 where
  pub fits : bits < 2 ^ 64
  pub copies :
      (k : ℕ)
      → size ≤ k
      → k < 64
      → testbit bits k ≡ (signed && not (size == 0) && testbit bits (size - 1))

pub extend_bits-IsExtended :
    (size : ℕ) (signed : Bool) (bits : ℕ)
    → size ≤ 64
    → bits < 2 ^ 64
    → IsExtended size signed (extend_bits size signed bits)
extend_bits-IsExtended size signed bits h hb = record {
  fits = extend_bits-lt size signed bits h hb;
  copies = λ k hk lt. elim (Bool-cases (size == 0)) [
    | inl nothing ↦
        let e : size ≡ 0 = (==_iff _ _).0 nothing in
        let blank : extend_bits size signed bits ≡ 0 = unfold extend_bits in rw nothing refl in
        ap (λ (t : ℕ). testbit t k) blank ∙ zero-testbit k ∙ ground arith
    | inr some_bits ↦ ground (
      arith,
      testbit-extend_bits size signed bits k (omega (arith, (==-false_iff _ _).0 some_bits)) h lt,
      testbit-extend_bits size signed bits (size - 1)
          (omega (arith, (==-false_iff _ _).0 some_bits)) h (omega arith),
    )
  ];
}

-- Extended bits are the ones with their low bits.
pub extend_bits_self :
    (size : ℕ) (signed : Bool) (bits : ℕ)
    → size ≤ 64
    → IsExtended size signed bits
    → extend_bits size signed bits ≡ bits
extend_bits_self size signed bits h extended = testbit_ext _ _ (λ k. elim (Bool-cases (ltb k 64)) [
  | inr above ↦
      testbit_above 64 (extend_bits size signed bits) k
        (extend_bits-lt size signed bits h extended.fits) (ltb→le _ _ above)
      ∙ sym (testbit_above 64 bits k extended.fits (ltb→le _ _ above))
  | inl below ↦
      let lt : k < 64 = ltb→lt _ _ below in
      let result = extend_bits-IsExtended size signed bits h extended.fits in
      elim (Bool-cases (size == 0)) [
        | inl nothing ↦ ground (arith, result.copies k, extended.copies k)
        | inr some_bits ↦ ground (
          arith,
          testbit-extend_bits size signed bits k (omega (arith, (==-false_iff _ _).0 some_bits)) h
              lt,
          extended.copies k,
        )
      ]
])

-- Signed extended bits are the two's complement of a number of the width, and the others are a
-- number of the width.
pub signed_range :
    (size bits : ℕ)
    → 1 ≤ size
    → size ≤ 64
    → IsExtended size true bits
    → (bits < 2 ^ (size - 1)) ⊎ (2 ^ 64 ≤ bits + 2 ^ (size - 1))
signed_range size bits hs h extended =
    let above =
      λ (k : ℕ) (lt : k < 64) (le : size ≤ k + 1) (b : Bool) (sign : testbit bits (size - 1) ≡ b).
        let same : testbit bits k ≡ b = elim (Bool-cases (k == size - 1)) [
          | inl top ↦ ap (testbit bits) ((==_iff _ _).0 top) ∙ sign
          | inr other ↦ ground (arith, extended.copies k)
        ] in
        same in
    elim (Bool-cases (testbit bits (size - 1))) [
      | inr positive ↦ inl (
          lt_of_testbit (size - 1) bits (λ k hk. elim (Bool-cases (ltb k 64)) [
            | inl inside ↦ above k (ltb→lt _ _ inside) (omega arith) false positive
            | inr outside ↦ testbit_above 64 bits k extended.fits (ltb→le _ _ outside)
          ]))
      | inl negative ↦ inr (
          let small = lt_of_testbit (size - 1) (2 ^ 64 - 1 - bits) (λ k hk.
            testbit-complement 64 bits k extended.fits ∙ elim (Bool-cases (ltb k 64)) [
              | inl inside ↦ ground (arith, above k (ltb→lt _ _ inside) (omega arith) true negative)
              | inr outside ↦ ground arith
            ]) in
          omega (arith, extended.fits))
    ]

pub unsigned_range : (size bits : ℕ) → size ≤ 64 → IsExtended size false bits → bits < 2 ^ size
unsigned_range size bits h extended = lt_of_testbit size bits (λ k hk.
    elim (Bool-cases (ltb k 64)) [
      | inl inside ↦ extended.copies k hk (ltb→lt _ _ inside)
      | inr outside ↦ testbit_above 64 bits k extended.fits (ltb→le _ _ outside)
    ])
