-- ===== src/Imm/RoundTrip.antt =====
-- Encoding a constant directly and reading it back.
use onejit.Base.{
  ℕ, zero, suc, ◌+◌, ◌-◌, ◌*◌, ◌/◌, ◌%◌, ◌^◌, ◌≤◌, ◌<◌, bit_and, bit_or, bit_xor, Bool, true, false,
  xor, ◌==◌, ltb, leb, ◌||◌, if◌then◌else◌, ◌≡◌, ◌⊎◌, refl, sym, ap, ◌∙◌, arith, Bool-cases, inl,
  inr, ltb→lt, ltb→le, ==_iff, ==-false_iff,
}
use onejit.BitSet.{of_bool}
use onejit.Graph.Count.{of_bool-le}
use onejit.Word.Bit.{testbit, testbit-xor, testbit_ext, testbit-or, bit_or-fields, bit_xor-lt}
use onejit.Imm.{
  rrot, can_direct, make_direct, recurse, direct, direct_kind, direct_xor_mask, direct_imm,
  rotation_bits, to_const_bits,
}
use onejit.Imm.Rotate.{lrot-rrot}

-- The two masks
abbrev pub all_or_none : Bool → ℕ
all_or_none true = 2 ^ 64 - 1
all_or_none false = 0

abbrev top_bit : Bool → ℕ
top_bit true = 2 ^ 31
top_bit false = 0

mask_top : (b : Bool) → bit_and (all_or_none b) (2 ^ 64 - 2 ^ 31) % 2 ^ 32 ≡ top_bit b
mask_top true = refl
mask_top false = refl

bit_or_comm : (a b : ℕ) → bit_or a b ≡ bit_or b a
bit_or_comm a b = testbit_ext _ _ (λ k. testbit-or a b k ∙ ground arith ∙ sym (testbit-or b a k))

-- A field above the bits of the other
fields : (n q a r : ℕ) → a ≡ q * 2 ^ n → r < 2 ^ n → bit_or r a ≡ a + r
fields n q a r e h =
    bit_or_comm r a ∙ ap (λ (t : ℕ). bit_or t r) e ∙ bit_or-fields n q r h ∙ omega arith

top_bit_multiple : (b : Bool) → top_bit b ≡ of_bool b * 2 ^ 31
top_bit_multiple true = refl
top_bit_multiple false = refl

-- The 32 bits as a sum of fields
make_direct-eq :
    (ekind bits i : ℕ) (b : Bool)
    → 1 < ekind
    → ekind < 16
    → i < 8
    → rrot (bit_xor bits (all_or_none b)) (i * 8) < 2 ^ 23
    → make_direct ekind bits (i * 8) (all_or_none b)
      ≡ top_bit b + rrot (bit_xor bits (all_or_none b)) (i * 8) * 2 ^ 8 + i * 2 ^ 5 + ekind * 2 + 1
unfolding make_direct
make_direct-eq ekind bits i b valid named hi small =
    let t = rrot (bit_xor bits (all_or_none b)) (i * 8) in
    let real : leb ekind 1 ≡ false = ground arith in
    let mask = mask_top b in
    let rotation : i * 8 / 8 * 2 ^ 5 % 2 ^ 32 ≡ i * 2 ^ 5 = omega arith in
    let shifted : t % 2 ^ 32 * 2 ^ 8 % 2 ^ 32 ≡ t * 2 ^ 8 = omega arith in
    let number : bit_or (i * 2 ^ 5) (t * 2 ^ 8) ≡ t * 2 ^ 8 + i * 2 ^ 5 =
      fields 8 t (t * 2 ^ 8) (i * 2 ^ 5) refl (omega arith) in
    let payload : bit_or (t * 2 ^ 8 + i * 2 ^ 5) (top_bit b) ≡ top_bit b + (t * 2 ^ 8 + i * 2 ^ 5) =
      fields 31 (of_bool b) (top_bit b) (t * 2 ^ 8 + i * 2 ^ 5) (top_bit_multiple b)
        (omega arith) in
    let named_bits : bit_or 1 (ekind % 16 * 2) ≡ ekind * 2 + 1 =
      fields 1 (ekind % 16) (ekind % 16 * 2) 1 refl (omega arith) ∙ omega arith in
    let whole : bit_or (ekind * 2 + 1) (top_bit b + (t * 2 ^ 8 + i * 2 ^ 5))
        ≡ top_bit b + (t * 2 ^ 8 + i * 2 ^ 5) + (ekind * 2 + 1) =
      fields 5 (of_bool b * 2 ^ 26 + (t * 2 ^ 3 + i)) (top_bit b + (t * 2 ^ 8 + i * 2 ^ 5))
        (ekind * 2 + 1) (omega (arith, top_bit_multiple b)) (omega arith) in
    rw (real, rotation, shifted, mask, number, payload, named_bits, whole) (omega arith)

-- What `recurse` answers when it answers anything: the encoding for one of the rotations and masks.
data Encoded (ekind bits r : ℕ) : Type 0 where
  refused :
      r ≡ 0
      → ((j : ℕ) (c : Bool) → j < 8 → can_direct ekind bits (j * 8) (all_or_none c) ≡ false)
      → Encoded ekind bits r
  encoded :
      (i : ℕ) (b : Bool)
      → i < 8
      → can_direct ekind bits (i * 8) (all_or_none b) ≡ true
      → r ≡ make_direct ekind bits (i * 8) (all_or_none b)
      → Encoded ekind bits r

idempotent :
    (y k : ℕ) → y < 2 ^ 64 → (testbit (y / 2 ^ 0) k || testbit (y * 2 ^ 0 % 2 ^ 64) k) ≡ testbit y k
idempotent y k h =
    let d : y / 2 ^ 0 ≡ y = omega arith in
    let m : y * 2 ^ 0 % 2 ^ 64 ≡ y = omega arith in rw (d, m) (ground arith)

-- A rotation by 64 finds nothing that no rotation at all did not find.
can_direct-64 :
    (ekind bits x : ℕ)
    → bit_xor bits x < 2 ^ 64
    → can_direct ekind bits 64 x ≡ can_direct ekind bits 0 x
unfolding can_direct rrot
can_direct-64 ekind bits x h =
    let y = bit_xor bits x in
    let same : bit_or (y / 2 ^ 0) (y * 2 ^ 0 % 2 ^ 64) ≡ y =
      testbit_ext _ _ (λ k. testbit-or (y / 2 ^ 0) (y * 2 ^ 0 % 2 ^ 64) k ∙ idempotent y k h) in
    rw same refl

-- The search with some masks tried at rotation `i * 8`
record IsTried (ekind bits i : ℕ) (b : Bool) : Type 0 where
  earlier : (j : ℕ) (c : Bool) → j < i → can_direct ekind bits (j * 8) (all_or_none c) ≡ false
  unmasked : b ≡ true → can_direct ekind bits (i * 8) 0 ≡ false

masks-lt : (bits : ℕ) (b : Bool) → bits < 2 ^ 64 → bit_xor bits (all_or_none b) < 2 ^ 64
masks-lt bits true h = bit_xor-lt 64 bits (2 ^ 64 - 1) h (omega arith)
masks-lt bits false h = bit_xor-lt 64 bits 0 h (omega arith)

-- The search does not succeed at a rotation by 64.
rotation-lt :
    (ekind bits i : ℕ) (b : Bool)
    → bits < 2 ^ 64
    → i ≤ 8
    → IsTried ekind bits i b
    → can_direct ekind bits (i * 8) (all_or_none b) ≡ true
    → i < 8
rotation-lt ekind bits i b hb hi tried can = elim (Bool-cases (i == 8)) [
  | inr below ↦ omega (arith, (==-false_iff _ _).0 below)
  | inl last ↦
      let e : i * 8 ≡ 64 = omega (arith, (==_iff _ _).0 last) in
      let at_64 = ap (λ (t : ℕ). can_direct ekind bits t (all_or_none b)) e in
      ground (
        arith,
        can_direct-64 ekind bits (all_or_none b) (masks-lt bits b hb),
        tried.earlier 0 b (omega arith),
      )
]

with_mask :
    (ekind bits i : ℕ) (c : Bool)
    → IsTried ekind bits i true
    → can_direct ekind bits (i * 8) (2 ^ 64 - 1) ≡ false
    → can_direct ekind bits (i * 8) (all_or_none c) ≡ false
with_mask ekind bits i true tried cannot = cannot
with_mask ekind bits i false tried cannot = tried.unmasked refl

tried_here :
    (ekind bits i j : ℕ) (c : Bool)
    → IsTried ekind bits i true
    → can_direct ekind bits (i * 8) (2 ^ 64 - 1) ≡ false
    → j < suc i
    → can_direct ekind bits (j * 8) (all_or_none c) ≡ false
tried_here ekind bits i j c tried cannot h = elim (Bool-cases (j == i)) [
  | inr before ↦ tried.earlier j c (omega (arith, (==-false_iff _ _).0 before))
  | inl here ↦
      ap (λ (t : ℕ). can_direct ekind bits (t * 8) (all_or_none c)) ((==_iff _ _).0 here)
      ∙ with_mask ekind bits i c tried cannot
]

recurse-Encoded :
    (fuel ekind bits i : ℕ) (b : Bool)
    → bits < 2 ^ 64
    → i ≤ 8
    → 18 ≤ fuel + (2 * i + of_bool b)
    → IsTried ekind bits i b
    → Encoded ekind bits (recurse fuel ekind bits (i * 8) (all_or_none b))
unfolding recurse
recurse-Encoded zero ekind bits i b hb hi enough tried = absurd (omega (arith, of_bool-le b))
recurse-Encoded (suc fuel) ekind bits i false hb hi enough tried =
    elim (Bool-cases (can_direct ekind bits (i * 8) 0)) [
      | inl can ↦ rw can (encoded i false (rotation-lt ekind bits i false hb hi tried can) can refl)
      | inr cannot ↦ rw cannot (
          recurse-Encoded fuel ekind bits i true hb hi (omega arith)
            (record { earlier = tried.earlier; unmasked = λ e. cannot }))
    ]
recurse-Encoded (suc fuel) ekind bits i true hb hi enough tried =
    elim (Bool-cases (can_direct ekind bits (i * 8) (2 ^ 64 - 1))) [
      | inl can ↦ rw can (encoded i true (rotation-lt ekind bits i true hb hi tried can) can refl)
      | inr cannot ↦ rw cannot (elim (Bool-cases (ltb (i * 8) 64)) [
        | inr done ↦ rw done (
            refused refl
              (λ j c h. tried_here ekind bits i j c tried cannot (omega (arith, ltb→le _ _ done))))
        | inl more ↦
            let next : i * 8 + 8 ≡ suc i * 8 = omega arith in
            rw (more, next)
              (recurse-Encoded fuel ekind bits (suc i) false hb (omega (arith, ltb→lt _ _ more))
                (omega arith)
                (record {
                  earlier = λ j c h. tried_here ekind bits i j c tried cannot h;
                  unmasked = λ e. absurd (ground arith);
                }))
      ])
    ]

neg_of_bool : (b : Bool) → (2 ^ 64 - of_bool b) % 2 ^ 64 ≡ all_or_none b
neg_of_bool true = refl
neg_of_bool false = refl

xor_twice : (a b : Bool) → xor a (xor b a) ≡ b
xor_twice true true = refl
xor_twice true false = refl
xor_twice false true = refl
xor_twice false false = refl

-- Reading the fields of an encoding
module _ (ekind bits i : ℕ) (b : Bool) (valid : 1 < ekind) (named : ekind < 16) (hb : bits < 2 ^ 64)
    (hi : i < 8) (can : can_direct ekind bits (i * 8) (all_or_none b) ≡ true) where
  abbrev value : ℕ
  value = make_direct ekind bits (i * 8) (all_or_none b)

  abbrev number : ℕ
  number = rrot (bit_xor bits (all_or_none b)) (i * 8)

  number-lt : number < 2 ^ 23
  unfolding can_direct
  number-lt = ground arith

  value-eq : value ≡ top_bit b + number * 2 ^ 8 + i * 2 ^ 5 + ekind * 2 + 1
  value-eq = make_direct-eq ekind bits i b valid named hi number-lt

  read_mask : direct_xor_mask value ≡ all_or_none b
  unfolding direct_xor_mask
  read_mask =
      let top : value / 2 ^ 31 ≡ of_bool b =
        omega (arith, value-eq, number-lt, top_bit_multiple b) in
      rw top (neg_of_bool b)

  read_kind : direct_kind value ≡ ekind
  unfolding direct_kind
  read_kind = omega (arith, value-eq, top_bit_multiple b)

  read_back : to_const_bits value ≡ bits
  unfolding to_const_bits direct_imm rotation_bits
  read_back =
      let mask = read_mask in
      let low : value / 2 ^ 8 % 2 ^ 23 ≡ number =
        omega (arith, value-eq, number-lt, top_bit_multiple b) in
      let rotation : value / 2 ^ 5 % 8 * 8 ≡ i * 8 = omega (arith, value-eq, top_bit_multiple b) in
      rw
        (
          mask,
          low,
          rotation,
          lrot-rrot (bit_xor bits (all_or_none b)) (i * 8) (masks-lt bits b hb) (omega arith),
        )
        (testbit_ext _ _ (λ k.
          testbit-xor (all_or_none b) (bit_xor bits (all_or_none b)) k
          ∙ ap (xor (testbit (all_or_none b) k)) (testbit-xor bits (all_or_none b) k)
          ∙ xor_twice (testbit (all_or_none b) k) (testbit bits k)))

direct-recurse :
    (ekind bits : ℕ) → ltb 15 ekind ≡ false → direct ekind bits ≡ recurse 18 ekind bits 0 0
unfolding direct
direct-recurse ekind bits fits = ap (λ (b : Bool). if b then 0 else recurse 18 ekind bits 0 0) fits

wide_of :
    (ekind bits r x : ℕ) → can_direct ekind bits r x ≡ false → 2 ^ 23 ≤ rrot (bit_xor bits x) r
unfolding can_direct
wide_of ekind bits r x h = ground arith

-- A direct encoding of a scalar kind but `Bad` and `Void`, and of any 64 bits, is read back as the
-- kind and the bits that went in; it is refused, by 0, only when neither the bits nor their
-- complement are a number of 23 bits rotated by whole bytes.
pub direct-round_trip :
    (ekind bits : ℕ)
    → 1 < ekind
    → ekind < 16
    → bits < 2 ^ 64
    → ((direct ekind bits ≡ 0)
        × ((j : ℕ) (c : Bool) → j < 8 → 2 ^ 23 ≤ rrot (bit_xor bits (all_or_none c)) (j * 8)))
      ⊎ ((direct_kind (direct ekind bits) ≡ ekind) × (to_const_bits (direct ekind bits) ≡ bits))
direct-round_trip ekind bits valid named hb =
    let fits : ltb 15 ekind ≡ false = ground arith in
    let start : IsTried ekind bits 0 false = record {
      earlier = λ j c h. elim h [ ];
      unmasked = λ e. absurd (ground arith);
    } in
    let same = direct-recurse ekind bits fits in
    elim (recurse-Encoded 18 ekind bits 0 false hb (omega arith) (omega arith) start) [
      | refused e none_can ↦
          inl (same ∙ e, λ j c h. wide_of ekind bits (j * 8) (all_or_none c) (none_can j c h))
      | encoded i b hi can e ↦ inr (
        ap direct_kind (same ∙ e) ∙ read_kind ekind bits i b valid named hb hi can,
        ap to_const_bits (same ∙ e) ∙ read_back ekind bits i b valid named hb hi can,
      )
    ]
