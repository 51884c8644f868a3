-- ===== src/BitSet/Find.antt =====
-- About `find` of onestl/bitset.cpp.
use onejit.Base.{
  ℕ, zero, suc, ◌+◌, ◌-◌, ◌*◌, ◌/◌, ◌%◌, ◌^◌, ◌≤◌, ◌<◌, bit_xor, bit_or, Bool, true, false, not,
  xor, ◌==◌, ltb, if◌then◌else◌, List, get_or, length, ◌≡◌, ◌≢◌, ◌⊎◌, refl, ◌∙◌, ap, sym, subst,
  arith, Bool-cases, inl, inr, ltb→lt, lt→ltb, ltb→le, ==_iff, ==-false_iff,
}
use native.Mathlib.Nat.{div-le_self}
use onejit.Word.{sub64}
use onejit.Libc.{Libc, IsLowest}
use onejit.Word.Bit.{
  testbit, testbit-xor, testbit-div, testbit_above, bit_xor-lt, zero-testbit, bit_or-fields,
}
use onejit.Word.Mask.{testbit-all_ones}
use onejit.BitSet.{BitSet, of_bool, find, find_words, no_pos}
use onejit.BitSet.Stored.{stored, AreWords, IsValid}

-- What a search for `v` from `start` to `end` may answer.
pub data Found (words : List ℕ) (v : Bool) (start end r : ℕ) : Type 0 where
  missing :
      r ≡ no_pos
      → ((i : ℕ) → start ≤ i → i < end → stored words i ≡ not v)
      → Found words v start end r
  found :
      start ≤ r
      → r < end
      → stored words r ≡ v
      → ((i : ℕ) → start ≤ i → i < r → stored words i ≡ not v)
      → Found words v start end r

abbrev flip_of : Bool → ℕ
flip_of v = sub64 (of_bool v) 1

testbit-flip_of : (v : Bool) (k : ℕ) → k < 64 → testbit (flip_of v) k ≡ not v
testbit-flip_of true k h = zero-testbit k
testbit-flip_of false k h = testbit-all_ones k h

flip_of-lt : (v : Bool) → flip_of v < 2 ^ 64
flip_of-lt true = omega arith
flip_of-lt false = omega arith

-- The bits that the search looks at are set exactly where the word has `v`.
testbit-looked_at_true :
    (v : Bool) (w k : ℕ) → k < 64 → testbit (bit_xor (flip_of v) w) k ≡ true → testbit w k ≡ v
testbit-looked_at_true true w k h e = ground (arith, testbit-xor (flip_of true) w k, zero-testbit k)
testbit-looked_at_true false w k h e =
    ground (arith, testbit-xor (flip_of false) w k, testbit-all_ones k h)

testbit-looked_at_false :
    (v : Bool) (w k : ℕ) → k < 64 → testbit (bit_xor (flip_of v) w) k ≡ false → testbit w k ≡ not v
testbit-looked_at_false true w k h e =
    ground (arith, testbit-xor (flip_of true) w k, zero-testbit k)
testbit-looked_at_false false w k h e =
    ground (arith, testbit-xor (flip_of false) w k, testbit-all_ones k h)

lowest-lt : (w r : ℕ) → w < 2 ^ 64 → IsLowest w r → r - 1 < 64
lowest-lt w r h low = elim (Bool-cases (ltb (r - 1) 64)) [
  | inl yes' ↦ ltb→lt _ _ yes'
  | inr big ↦ ground (arith, low.is_set, testbit_above 64 w (r - 1) h (ltb→le _ _ big))
]

lowest_unique :
    (w r k : ℕ)
    → IsLowest w r
    → testbit w k ≡ true
    → ((j : ℕ) → j < k → testbit w j ≡ false)
    → r - 1 ≡ k
lowest_unique w r k low hit below = elim (Bool-cases (ltb (r - 1) k)) [
  | inl early ↦ ground (arith, below (r - 1) (ltb→lt _ _ early), low.is_set)
  | inr late ↦ elim (Bool-cases (ltb k (r - 1))) [
    | inl before ↦ ground (arith, low.below k (ltb→lt _ _ before))
    | inr same ↦ ground arith
  ]
]

module _ (c : Libc) (words : List ℕ) (v : Bool) (are_words : AreWords words) where
  abbrev looked_at : ℕ → ℕ
  looked_at j = bit_xor (flip_of v) (get_or words j 0)

  looked_at-lt : (j : ℕ) → looked_at j < 2 ^ 64
  looked_at-lt j = bit_xor-lt 64 _ _ (flip_of-lt v) (are_words j)

  looked_at-IsLowest : (j : ℕ) → looked_at j ≢ 0 → IsLowest (looked_at j) (c.ffsl (looked_at j))
  looked_at-IsLowest j h = c.ffsl_lowest _ (omega arith) (looked_at-lt j)

  -- A whole word without the value.
  no_hit : (j i : ℕ) → looked_at j ≡ 0 → i / 64 ≡ j → stored words i ≡ not v
  no_hit j i e at_j = rw at_j (
      testbit-looked_at_false v (get_or words j 0) (i % 64) (omega arith)
        (ap (λ (t : ℕ). testbit t (i % 64)) e ∙ zero-testbit (i % 64)))

  -- The lowest hit of a word: its bit has the value, and those below it in the word have not.
  module _ (j r : ℕ) (low : IsLowest (looked_at j) r) where
    hit_lt : r - 1 < 64
    hit_lt = lowest-lt (looked_at j) r (looked_at-lt j) low

    stored_hit : stored words (j * 64 + (r - 1)) ≡ v
    stored_hit =
        let at_j : (j * 64 + (r - 1)) / 64 ≡ j = omega (arith, hit_lt) in
        let at_r : (j * 64 + (r - 1)) % 64 ≡ r - 1 = omega (arith, hit_lt) in
        rw (at_j, at_r) (testbit-looked_at_true v (get_or words j 0) (r - 1) hit_lt low.is_set)

    stored_below : (i : ℕ) → j * 64 ≤ i → i < j * 64 + (r - 1) → stored words i ≡ not v
    stored_below i from to =
        let at_j : i / 64 ≡ j = omega (arith, hit_lt) in
        rw at_j (
          testbit-looked_at_false v (get_or words j 0) (i % 64) (omega arith)
            (low.below (i % 64) (omega (arith, hit_lt))))

  Found-hit :
      (j r end : ℕ)
      → IsLowest (looked_at j) r
      → Found words v (j * 64) end (if ltb (j * 64 + (r - 1)) end then j * 64 + (r - 1) else no_pos)
  Found-hit j r end low = elim (Bool-cases (ltb (j * 64 + (r - 1)) end)) [
    | inl inside ↦
        rw inside
          (found (omega arith) (ltb→lt _ _ inside) (stored_hit j r low) (stored_below j r low))
    | inr beyond ↦
        rw beyond
          (missing refl (λ i p q. stored_below j r low i p (omega (arith, ltb→le _ _ beyond))))
  ]

  Found-skip :
      {start end r : ℕ}
      → (mid : ℕ) → start ≤ mid
      → ((i : ℕ) → start ≤ i → i < mid → stored words i ≡ not v)
      → Found words v mid end r
      → Found words v start end r
  Found-skip mid le clear (missing e none_left) = missing e (λ i p q.
      elim (Bool-cases (ltb i mid)) [
        | inl early ↦ clear i p (ltb→lt _ _ early)
        | inr late ↦ none_left i (ltb→le _ _ late) q
      ])
  Found-skip mid le clear (found p q e none_before) = found (omega arith) q e (λ i p q.
      elim (Bool-cases (ltb i mid)) [
        | inl early ↦ clear i p (ltb→lt _ _ early)
        | inr late ↦ none_before i (ltb→le _ _ late) q
      ])

  find_words-Found :
      (fuel start end : ℕ)
      → start % 64 ≡ 0
      → end ≤ start + fuel * 64
      → end < 2 ^ 63
      → Found words v start end (find_words c words (flip_of v) fuel start end)
  unfolding find_words
  find_words-Found zero start end aligned enough small =
      missing refl (λ i p q. absurd (omega arith))
  find_words-Found (suc fuel) start end aligned enough small = elim (Bool-cases (ltb start end)) [
    | inr done ↦ rw done (missing refl (λ i p q. absurd (omega (arith, ltb→le _ _ done))))
    | inl more ↦
        let j = start / 64 in
        let same : start ≡ j * 64 = omega arith in
        rw more (elim (Bool-cases (looked_at j == 0)) [
          | inl empty ↦ rw empty (
              Found-skip (start + 64) (omega arith)
                (λ i p q. no_hit j i ((==_iff _ _).0 empty) (omega arith))
                (let wrap : (start + 64) % 2 ^ 64 ≡ start + 64 = omega (arith, ltb→lt _ _ more) in
                  rw wrap
                    (find_words-Found fuel (start + 64) end (omega arith) (omega arith) small)))
          | inr hit ↦ rw hit (
              let r = c.ffsl (looked_at j) in
              let low = looked_at-IsLowest j ((==-false_iff _ _).0 hit) in
              let at_hit : bit_or start (r - 1) ≡ j * 64 + (r - 1) =
                ap (λ (t : ℕ). bit_or t (r - 1)) same
                ∙ bit_or-fields 6 j (r - 1) (hit_lt j r low) in
              rw at_hit (
                subst
                  (λ (t : ℕ).
                    Found words v t end
                      (if ltb (j * 64 + (r - 1)) end then j * 64 + (r - 1) else no_pos))
                  (sym same) (Found-hit j r end low)))
        ])
  ]

-- The first word is shifted down to `start`.
testbit-first :
    (v : Bool) (w r k : ℕ)
    → k < 64
    → testbit (bit_xor (flip_of v) (w / 2 ^ r)) k ≡ xor (not v) (testbit w (k + r))
testbit-first v w r k h =
    ground (arith, testbit-xor (flip_of v) (w / 2 ^ r) k, testbit-flip_of v k h, testbit-div r w k)

div-two-pow-lt : (w r : ℕ) → w < 2 ^ 64 → w / 2 ^ r < 2 ^ 64
div-two-pow-lt w r h = omega (arith, div-le_self w (2 ^ r))

xor-not-true : (v b : Bool) → xor (not v) b ≡ true → b ≡ v
xor-not-true true true h = refl
xor-not-true false false h = refl
xor-not-true true false h = cc
xor-not-true false true h = cc

xor-not-false : (v b : Bool) → xor (not v) b ≡ false → b ≡ not v
xor-not-false true false h = refl
xor-not-false false true h = refl
xor-not-false true true h = cc
xor-not-false false false h = cc

module _ (c : Libc) (s : BitSet) (v : Bool) (start end : ℕ) (valid : IsValid s)
    (order : start < end) (fits : end ≤ s.size) where
  abbrev first_bits : ℕ
  first_bits = bit_xor (flip_of v) (get_or s.words (start / 64) 0 / 2 ^ (start % 64))

  first_bits-lt : first_bits < 2 ^ 64
  first_bits-lt =
      bit_xor-lt 64 _ _ (flip_of-lt v)
        (div-two-pow-lt _ (start % 64) (valid.are_words (start / 64)))

  -- What a bit that is looked at says of the bit of the set.
  stored_first :
      (k : ℕ)
      → k + start % 64 < 64
      → testbit first_bits k ≡ xor (not v) (stored s.words (start + k))
  stored_first k h =
      let at_j : (start + k) / 64 ≡ start / 64 = omega arith in
      let at_k : (start + k) % 64 ≡ k + start % 64 = omega arith in
      rw (at_j, at_k) (testbit-first v (get_or s.words (start / 64) 0) (start % 64) k (omega arith))

  clear_first :
      (m : ℕ)
      → m + start % 64 ≤ 64
      → ((k : ℕ) → k < m → testbit first_bits k ≡ false)
      → (i : ℕ) → start ≤ i
      → i < start + m
      → stored s.words i ≡ not v
  clear_first m h clear i p q =
      let e : start + (i - start) ≡ i = omega arith in
      ap (stored s.words) (sym e)
      ∙ xor-not-false v (stored s.words (start + (i - start)))
          (sym (stored_first (i - start) (omega arith)) ∙ clear (i - start) (omega arith))

  Found-first :
      (r : ℕ)
      → IsLowest first_bits r
      → r - 1 + start % 64 < 64
      → Found s.words v start end (if ltb (start + (r - 1)) end then start + (r - 1) else no_pos)
  Found-first r low h = elim (Bool-cases (ltb (start + (r - 1)) end)) [
    | inl inside ↦ rw inside (
        found (omega arith) (ltb→lt _ _ inside)
          (xor-not-true v _ (sym (stored_first (r - 1) h) ∙ low.is_set))
          (clear_first (r - 1) (omega arith) low.below))
    | inr beyond ↦ rw beyond (
        missing refl (λ i p q.
          clear_first (r - 1) (omega arith) low.below i p (omega (arith, ltb→le _ _ beyond))))
  ]

  -- A search for `true` meets only bits of the word; one for `false` does so from its start.
  hit_in_word :
      (v ≡ true) ⊎ (start % 64 ≡ 0) → (r : ℕ) → IsLowest first_bits r → r - 1 + start % 64 < 64
  hit_in_word (inr aligned) r low = omega (arith, lowest-lt first_bits r first_bits-lt low)
  hit_in_word (inl is_true) r low = elim (Bool-cases (ltb (r - 1 + start % 64) 64)) [
    | inl inside ↦ ltb→lt _ _ inside
    | inr beyond ↦ ground (
      arith,
      low.is_set,
      testbit-first v (get_or s.words (start / 64) 0) (start % 64) (r - 1)
          (lowest-lt first_bits r first_bits-lt low),
      testbit_above 64 (get_or s.words (start / 64) 0) (r - 1 + start % 64)
          (valid.are_words (start / 64)) (ltb→le _ _ beyond),
    )
  ]

  find-Found_inside :
      (v ≡ true) ⊎ (start % 64 ≡ 0)
      → (end0 : ℕ) → (if ltb s.size end0 then s.size else end0) ≡ end
      → Found s.words v start end (find c s v start end0)
  unfolding find
  find-Found_inside safe end0 e =
      rw (e, lt→ltb _ _ order)
        (elim (Bool-cases (first_bits == 0)) [
          | inl empty ↦
              let next : (64 + start / 64 * 64) % 2 ^ 64 ≡ 64 + start / 64 * 64 = omega arith in
              let zeros =
                λ (k : ℕ). ap (λ (t : ℕ). testbit t k) ((==_iff _ _).0 empty) ∙ zero-testbit k in
              rw (empty, next)
                (Found-skip c s.words v valid.are_words (64 + start / 64 * 64) (omega arith)
                  (λ i p q.
                    clear_first (64 - start % 64) (omega arith) (λ k h. zeros k) i p (omega arith))
                  (find_words-Found c s.words v valid.are_words (length s.words)
                    (64 + start / 64 * 64) end (omega arith) (omega arith) (omega arith)))
          | inr hit ↦
              let low =
                c.ffsl_lowest first_bits (omega (arith, (==-false_iff _ _).0 hit)) first_bits-lt in
              let inside = hit_in_word safe (c.ffsl first_bits) low in
              let wrap : (start + (c.ffsl first_bits - 1)) % 2 ^ 64
                  ≡ start + (c.ffsl first_bits - 1) =
                omega arith in
              rw (hit, wrap) (Found-first (c.ffsl first_bits) low inside)
        ])

find_empty :
    (c : Libc) (s : BitSet) (v : Bool) (start end : ℕ)
    → ltb start (if ltb s.size end then s.size else end) ≡ false
    → find c s v start end ≡ no_pos
unfolding find
find_empty c s v start end h = rw h

-- A search for `true`, and a search for `false` that starts at a multiple of 64, answers the
-- first index in the range (cut at the size) whose bit has the value, or `NoPos` when there is
-- none.
pub find-Found :
    (c : Libc) (s : BitSet) (v : Bool) (start end : ℕ)
    → IsValid s
    → (v ≡ true) ⊎ (start % 64 ≡ 0)
    → Found s.words v start (if ltb s.size end then s.size else end) (find c s v start end)
find-Found c s v start end valid safe =
    let stop = if ltb s.size end then s.size else end in
    elim (Bool-cases (ltb start stop)) [
      | inl order ↦
          find-Found_inside c s v start stop valid (ltb→lt _ _ order) (ground arith) safe end refl
      | inr empty ↦
          subst (Found s.words v start stop) (sym (find_empty c s v start end empty))
            (missing refl (λ i p q. absurd (omega (arith, ltb→le _ _ empty))))
    ]

-- A search for `false` from an index inside a word whose bits from there on are all set answers
-- the first index of the next word, whatever the bit there is.
pub find-false_skips :
    (c : Libc) (s : BitSet) (start end : ℕ)
    → IsValid s
    → start % 64 ≢ 0
    → 64 + start / 64 * 64 < (if ltb s.size end then s.size else end)
    → ((i : ℕ) → start ≤ i → i < 64 + start / 64 * 64 → stored s.words i ≡ true)
    → find c s false start end ≡ 64 + start / 64 * 64
unfolding find
find-false_skips c s start end valid inside room full =
    let stop = if ltb s.size end then s.size else end in
    let w = get_or s.words (start / 64) 0 in
    let bits = bit_xor (flip_of false) (w / 2 ^ (start % 64)) in
    let gap = 64 - start % 64 in
    let order : start < stop = omega arith in
    let fits : stop ≤ s.size = ground arith in
    let below = λ (k : ℕ) (h : k < gap).
      stored_first c s false start stop valid order fits k (omega arith)
      ∙ ap (xor true) (full (start + k) (omega arith) (omega arith)) in
    let above : testbit bits gap ≡ true =
      testbit-first false w (start % 64) gap (omega arith)
      ∙ ap (xor true)
          (testbit_above 64 w (gap + start % 64) (valid.are_words (start / 64)) (omega arith)) in
    let nonzero : bits ≢ 0 =
      λ e. cc (sym above ∙ ap (λ (t : ℕ). testbit t gap) e ∙ zero-testbit gap) in
    let low =
      c.ffsl_lowest bits (omega arith) (first_bits-lt c s false start stop valid order fits) in
    let at_gap : c.ffsl bits - 1 ≡ gap = lowest_unique bits (c.ffsl bits) gap low above below in
    ground arith
