-- ===== src/BitSet/Stored.antt =====
-- The bits that the words hold, one word update at a time.
use onejit.Base.{
  ℕ, ◌*◌, ◌/◌, ◌%◌, ◌^◌, ◌≤◌, ◌<◌, Bool, true, false, ◌==◌, ltb, if◌then◌else◌, List, get_or,
  length, set as list_set, length-set, get_or-set_self, get_or-set_ne, ◌≡◌, ◌∙◌, ap, sym,
  set_outside, ltb→lt, ltb→le, ◌&&◌, arith, Bool-cases, inl, inr, ==_iff, ==-false_iff,
}
use onejit.Word.Bit.{testbit, testbit-eq-digit, one-bit_and, bit_or-lt, bit_and-lt, zero-testbit}
use onejit.Word.Mask.{testbit-masked, testbit-all_ones}
use onejit.Word.{neg64}
use onejit.BitSet.{BitSet, get_bit, mask_word, of_bool}

-- Bit `i` of the words, whatever the size says.
abbrev pub stored : List ℕ → ℕ → Bool
stored words i = testbit (get_or words (i / 64) 0) (i % 64)

abbrev pub AreWords : List ℕ → Type 0
AreWords words = (j : ℕ) → get_or words j 0 < 2 ^ 64

-- The capacity counts the bits of the words, the size stays within it, and both stay far from
-- the end of `size_t`.
pub record IsValid (s : BitSet) : Type 0 where
  pub whole_words : length s.words * 64 ≡ s.cap
  pub within : s.size ≤ s.cap
  pub bounded : s.cap < 2 ^ 63
  pub are_words : AreWords s.words

pub get_bit-eq-stored : (words : List ℕ) (i : ℕ) → get_bit words i ≡ stored words i
unfolding get_bit
get_bit-eq-stored words i =
    let w = get_or words (i / 64) 0 in
    let r = i % 64 in rw (one-bit_and (w / 2 ^ r)) (sym (testbit-eq-digit r w))

-- The two patterns, 0 and all ones.
pub testbit-pattern : (v : Bool) (k : ℕ) → k < 64 → testbit (neg64 (of_bool v)) k ≡ v
testbit-pattern true k h = testbit-all_ones k h
testbit-pattern false k h = zero-testbit k

pub pattern-lt : (v : Bool) → neg64 (of_bool v) < 2 ^ 64
pattern-lt true = omega arith
pattern-lt false = omega arith

pub stored-list_set :
    (words : List ℕ) (j w i : ℕ)
    → j < length words
    → stored (list_set words j w) i ≡ (if i / 64 == j then testbit w (i % 64) else stored words i)
stored-list_set words j w i h = elim (Bool-cases (i / 64 == j)) [
  | inl same ↦
      let e : i / 64 ≡ j = (==_iff _ _).0 same in
      rw same (
        ap (λ (t : ℕ). testbit (get_or (list_set words j w) t 0) (i % 64)) e
        ∙ ap (λ (t : ℕ). testbit t (i % 64)) (get_or-set_self words j w 0 h))
  | inr other ↦ rw other (
      ap (λ (t : ℕ). testbit t (i % 64))
        (get_or-set_ne words j (i / 64) w 0 (λ e. (==-false_iff _ _).0 other (sym e))))
]

-- One masked update writes the value to the bits of the mask in that word, and to no other.
pub stored-mask_word :
    (words : List ℕ) (j fillmask : ℕ) (v : Bool) (i : ℕ)
    → j < length words
    → fillmask < 2 ^ 64
    → stored (mask_word words j (neg64 (of_bool v)) fillmask) i
      ≡ (if (i / 64 == j) && testbit fillmask (i % 64) then v else stored words i)
unfolding mask_word
stored-mask_word words j fillmask v i h hm =
    let w = get_or words j 0 in
    stored-list_set words j _ i h ∙ (elim (Bool-cases (i / 64 == j)) [
      | inl same ↦
          let e : i / 64 ≡ j = (==_iff _ _).0 same in
          let here : stored words i ≡ testbit w (i % 64) =
            ap (λ (t : ℕ). testbit (get_or words t 0) (i % 64)) e in
          rw same (
            ground (
              arith,
              here,
              testbit-masked w (neg64 (of_bool v)) fillmask (i % 64) hm (omega arith),
              testbit-pattern v (i % 64) (omega arith),
            ))
      | inr other ↦ rw other
    ])

pub length-mask_word :
    (words : List ℕ) (j pattern fillmask : ℕ)
    → length (mask_word words j pattern fillmask) ≡ length words
unfolding mask_word
length-mask_word words j pattern fillmask = length-set words j _

pub AreWords-list_set :
    (words : List ℕ) (j w : ℕ) → AreWords words → w < 2 ^ 64 → AreWords (list_set words j w)
AreWords-list_set words j w h hw i = elim (Bool-cases (ltb j (length words))) [
  | inl inside ↦ elim (Bool-cases (i == j)) [
    | inl same ↦
        let e : i ≡ j = (==_iff _ _).0 same in
        rw e (rw (get_or-set_self words j w 0 (ltb→lt _ _ inside)) hw)
    | inr other ↦ rw (get_or-set_ne words j i w 0 (λ e. (==-false_iff _ _).0 other (sym e))) (h i)
  ]
  | inr outside ↦ rw (set_outside words j w (ltb→le _ _ outside)) (h i)
]

pub AreWords-mask_word :
    (words : List ℕ) (j fillmask : ℕ) (v : Bool)
    → AreWords words
    → fillmask < 2 ^ 64
    → AreWords (mask_word words j (neg64 (of_bool v)) fillmask)
unfolding mask_word
AreWords-mask_word words j fillmask v h hm =
    AreWords-list_set words j _ h
      (bit_or-lt 64 _ _ (bit_and-lt 64 _ _ (h j)) (bit_and-lt 64 _ _ (pattern-lt v)))
