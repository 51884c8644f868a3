-- ===== src/BitSet/Fill.antt =====
-- `set` and `fill`: what each bit is afterwards.
use onejit.Base.{
  ℕ, zero, suc, ◌+◌, ◌-◌, ◌*◌, ◌/◌, ◌%◌, ◌≤◌, ◌<◌, bit_and, Bool, ◌&&◌, ◌==◌, ltb, leb,
  if◌then◌else◌, List, length, set as list_set, length-set, ◌≡◌, refl, ◌∙◌, arith, Bool-cases, inl,
  inr, ==_iff,
}
use onejit.Word.{neg64, not64, shl64}
use onejit.Word.Bit.{testbit-and, testbit-complement, bit_and-lt}
use onejit.Word.Mask.{testbit-one_mask, testbit-high_mask, high_mask-lt}
use onejit.BitSet.{
  BitSet, of_bool, fill_words, fill_single, fill_head, fill_tail, after_head, fill, set, at,
}
use onejit.BitSet.Stored.{
  stored, AreWords, IsValid, stored-mask_word, stored-list_set, length-mask_word,
  AreWords-mask_word, AreWords-list_set, testbit-pattern, pattern-lt, get_bit-eq-stored,
}

abbrev pattern_of : Bool → ℕ
pattern_of v = neg64 (of_bool v)

-- Whether `i` lies in the range that is filled.
abbrev pub in_range : ℕ → ℕ → ℕ → Bool
in_range start end i = leb start i && ltb i end

pub stored-fill_words :
    (words : List ℕ) (from count : ℕ) (v : Bool) (i : ℕ)
    → from + count ≤ length words
    → stored (fill_words words from count (pattern_of v)) i
      ≡ (if in_range from (from + count) (i / 64) then v else stored words i)
unfolding fill_words
stored-fill_words words from zero v i h = ground arith
stored-fill_words words from (suc count) v i h = ground (
  arith,
  stored-fill_words (list_set words from (pattern_of v)) (from + 1) count v i
      (omega (arith, length-set words from (pattern_of v))),
  stored-list_set words from (pattern_of v) i (omega arith),
  testbit-pattern v (i % 64) (omega arith),
)

pub length-fill_words :
    (words : List ℕ) (from count w : ℕ) → length (fill_words words from count w) ≡ length words
unfolding fill_words
length-fill_words words from zero w = refl
length-fill_words words from (suc count) w =
    length-fill_words (list_set words from w) (from + 1) count w ∙ length-set words from w

AreWords-fill_words :
    (words : List ℕ) (from count : ℕ) (v : Bool)
    → AreWords words
    → AreWords (fill_words words from count (pattern_of v))
unfolding fill_words
AreWords-fill_words words from zero v h = h
AreWords-fill_words words from (suc count) v h =
    AreWords-fill_words (list_set words from (pattern_of v)) (from + 1) count v
      (AreWords-list_set words from (pattern_of v) h (pattern-lt v))

module _ (words : List ℕ) (v : Bool) (start end i : ℕ) (order : start < end)
    (fits : end ≤ length words * 64) where
  stored-fill_single :
      start / 64 ≡ end / 64
      → stored (fill_single words (pattern_of v) start end) i
        ≡ (if in_range start end i then v else stored words i)
  unfolding fill_single
  stored-fill_single same =
      let high1 = shl64 (not64 0) (start % 64) in
      let high2 = shl64 (not64 0) (end % 64) in
      ground (
        arith,
        stored-mask_word words (start / 64) (bit_and high1 (not64 high2)) v i (omega arith)
            (bit_and-lt 64 high1 (not64 high2) (high_mask-lt (start % 64))),
        testbit-and high1 (not64 high2) (i % 64),
        testbit-complement 64 high2 (i % 64) (high_mask-lt (end % 64)),
        testbit-high_mask (start % 64) (i % 64) (omega arith),
        testbit-high_mask (end % 64) (i % 64) (omega arith),
      )

  stored-fill_head :
      stored (fill_head words (pattern_of v) start) i
      ≡ (if in_range start (after_head start) i then v else stored words i)
  unfolding fill_head
  stored-fill_head = ground (
    arith,
    stored-mask_word words (start / 64) (shl64 (not64 0) (start % 64)) v i (omega arith)
        (high_mask-lt (start % 64)),
    testbit-high_mask (start % 64) (i % 64) (omega arith),
  )

  stored-fill_tail :
      stored (fill_tail words (pattern_of v) end) i
      ≡ (if in_range (end / 64 * 64) end i then v else stored words i)
  unfolding fill_tail
  stored-fill_tail = elim (Bool-cases (end % 64 == 0)) [
    | inl aligned ↦ ground arith
    | inr ragged ↦
        let high = shl64 (not64 0) (end % 64) in
        ground (
          arith,
          stored-mask_word words (end / 64) (not64 high) v i (ground arith) (omega arith),
          testbit-complement 64 high (i % 64) (high_mask-lt (end % 64)),
          testbit-high_mask (end % 64) (i % 64) (omega arith),
        )
  ]

length-fill_head : (words : List ℕ) (w start : ℕ) → length (fill_head words w start) ≡ length words
unfolding fill_head
length-fill_head words w start =
    ground (arith, length-mask_word words (start / 64) w (shl64 (not64 0) (start % 64)))

length-fill_tail : (words : List ℕ) (w end : ℕ) → length (fill_tail words w end) ≡ length words
unfolding fill_tail
length-fill_tail words w end =
    ground (arith, length-mask_word words (end / 64) w (not64 (shl64 (not64 0) (end % 64))))

-- The three parts in a row, where the range spans more than one word.
module _ (words : List ℕ) (v : Bool) (start end : ℕ) (order : start < end)
    (fits : end ≤ length words * 64) where
  abbrev headed : List ℕ
  headed = fill_head words (pattern_of v) start

  abbrev first_word : ℕ
  first_word = after_head start / 64

  abbrev bulked : List ℕ
  bulked = fill_words headed first_word (end / 64 - first_word) (pattern_of v)

  length-bulked : length bulked ≡ length words
  length-bulked =
      length-fill_words headed first_word (end / 64 - first_word) (pattern_of v)
      ∙ length-fill_head words (pattern_of v) start

  bulk_fits : start / 64 < end / 64 → first_word + (end / 64 - first_word) ≡ end / 64
  bulk_fits h = ground arith

  stored-fill_parts :
      (i : ℕ)
      → start / 64 < end / 64
      → stored (fill_tail bulked (pattern_of v) end) i
        ≡ (if in_range start end i then v else stored words i)
  stored-fill_parts i h = ground (
    arith,
    stored-fill_tail bulked v start end i order (omega (arith, length-bulked)),
    stored-fill_words headed first_word (end / 64 - first_word) v i
        (omega (arith, bulk_fits h, length-fill_head words (pattern_of v) start)),
    bulk_fits h,
    stored-fill_head words v start end i order fits,
  )

AreWords-fill_tail :
    (words : List ℕ) (v : Bool) (end : ℕ)
    → AreWords words
    → AreWords (fill_tail words (pattern_of v) end)
unfolding fill_tail
AreWords-fill_tail words v end h = elim (Bool-cases (end % 64 == 0)) [
  | inl aligned ↦ rw aligned h
  | inr ragged ↦
      rw ragged
        (AreWords-mask_word words (end / 64) (not64 (shl64 (not64 0) (end % 64))) v h (omega arith))
]

AreWords-fill_head :
    (words : List ℕ) (v : Bool) (start : ℕ)
    → AreWords words
    → AreWords (fill_head words (pattern_of v) start)
unfolding fill_head
AreWords-fill_head words v start h = elim (Bool-cases (start % 64 == 0)) [
  | inl aligned ↦ rw aligned h
  | inr ragged ↦
      rw ragged
        (AreWords-mask_word words (start / 64) (shl64 (not64 0) (start % 64)) v h (omega arith))
]

abbrev pub end_of : BitSet → ℕ → ℕ
end_of s end = if ltb s.size end then s.size else end

-- `fill` gives `v` to the bits from `start` to `end`, cut at the size, and changes no other bit
-- of the storage, those between the size and the capacity included.
pub stored-fill :
    (s : BitSet) (v : Bool) (start end i : ℕ)
    → IsValid s
    → stored (fill s v start end).words i
      ≡ (if in_range start (end_of s end) i then v else stored s.words i)
unfolding fill
stored-fill s v start end i valid = elim (Bool-cases (leb (end_of s end) start)) [
  | inl nothing ↦ rw nothing (ground arith)
  | inr some_bits ↦ rw some_bits (elim (Bool-cases (start / 64 == end_of s end / 64)) [
    | inl one_word ↦ rw one_word (
        stored-fill_single s.words v start (end_of s end) i (ground arith) (ground arith)
          ((==_iff _ _).0 one_word))
    | inr words ↦ rw words (
        stored-fill_parts s.words v start (end_of s end) (ground arith) (ground arith) i
          (ground arith))
  ])
]

pub record SameShape (s t : BitSet) : Type 0 where
  pub same_length : length t.words ≡ length s.words
  pub same_size : t.size ≡ s.size
  pub same_cap : t.cap ≡ s.cap

length-fill_single :
    (words : List ℕ) (w start end : ℕ) → length (fill_single words w start end) ≡ length words
unfolding fill_single
length-fill_single words w start end = length-mask_word words (start / 64) w _

length-fill_parts :
    (words : List ℕ) (w start from count end : ℕ)
    → length (fill_tail (fill_words (fill_head words w start) from count w) w end) ≡ length words
length-fill_parts words w start from count end =
    length-fill_tail (fill_words (fill_head words w start) from count w) w end
    ∙ length-fill_words (fill_head words w start) from count w
    ∙ length-fill_head words w start

pub fill-SameShape : (s : BitSet) (v : Bool) (start end : ℕ) → SameShape s (fill s v start end)
unfolding fill
fill-SameShape s v start end =
    let w = pattern_of v in
    let from = after_head start / 64 in
    record {
      same_length = ground (
        arith,
        length-fill_single s.words w start (end_of s end),
        length-fill_parts s.words w start from (end_of s end / 64 - from) (end_of s end),
      );
      same_size = ground arith;
      same_cap = ground arith;
    }

AreWords-fill :
    (s : BitSet) (v : Bool) (start end : ℕ) → AreWords s.words → AreWords (fill s v start end).words
unfolding fill fill_single
AreWords-fill s v start end h = elim (Bool-cases (leb (end_of s end) start)) [
  | inl nothing ↦ rw nothing h
  | inr some_bits ↦ rw some_bits (elim (Bool-cases (start / 64 == end_of s end / 64)) [
    | inl one_word ↦ rw one_word (
        AreWords-mask_word s.words (start / 64) _ v h
          (bit_and-lt 64 (shl64 (not64 0) (start % 64)) _ (high_mask-lt (start % 64))))
    | inr words ↦ rw words (
        AreWords-fill_tail _ v (end_of s end) (
          AreWords-fill_words _ (after_head start / 64) _ v (AreWords-fill_head s.words v start h)))
  ])
]

-- `fill` keeps the invariant, for any range.
pub fill-IsValid :
    (s : BitSet) (v : Bool) (start end : ℕ) → IsValid s → IsValid (fill s v start end)
fill-IsValid s v start end valid =
    let same = fill-SameShape s v start end in
    record {
      whole_words = omega arith;
      within = omega arith;
      bounded = omega arith;
      are_words = AreWords-fill s v start end valid.are_words;
    }

-- `set` writes the bit at an index within the size and changes no other; out of range it does
-- nothing.
pub stored-set :
    (s : BitSet) (index : ℕ) (v : Bool) (i : ℕ)
    → IsValid s
    → stored (set s index v).words i
      ≡ (if ltb index s.size && (i == index) then v else stored s.words i)
unfolding set
stored-set s index v i valid = elim (Bool-cases (leb s.size index)) [
  | inl outside ↦ rw outside (ground arith)
  | inr inside ↦ rw inside (
      ground (
        arith,
        stored-mask_word s.words (index / 64) (shl64 1 (index % 64)) v i (ground arith)
            (omega arith),
        testbit-one_mask (index % 64) (i % 64) (omega arith) (omega arith),
      ))
]

pub set-SameShape : (s : BitSet) (index : ℕ) (v : Bool) → SameShape s (set s index v)
unfolding set
set-SameShape s index v = record {
  same_length =
      ground (arith, length-mask_word s.words (index / 64) (pattern_of v) (shl64 1 (index % 64)));
  same_size = ground arith;
  same_cap = ground arith;
}

pub set-IsValid : (s : BitSet) (index : ℕ) (v : Bool) → IsValid s → IsValid (set s index v)
set-IsValid s index v valid =
    let same = set-SameShape s index v in
    record {
      whole_words = omega arith;
      within = omega arith;
      bounded = omega arith;
      are_words = kept;
    }
  where
    kept : AreWords (set s index v).words
    kept =
        unfold set in
        elim (Bool-cases (leb s.size index)) [
          | inl outside ↦ rw outside valid.are_words
          | inr inside ↦ rw inside (
              AreWords-mask_word s.words (index / 64) (shl64 1 (index % 64)) v valid.are_words
                (omega arith))
        ]

-- The checked read after `set` and after `fill`.
pub at-set :
    (s : BitSet) (index : ℕ) (v : Bool) (i : ℕ)
    → IsValid s
    → at (set s index v) i ≡ (if ltb index s.size && (i == index) then v else at s i)
unfolding at
at-set s index v i valid = ground (
  arith,
  stored-set s index v i valid,
  set-SameShape s index v,
  get_bit-eq-stored (set s index v).words i,
  get_bit-eq-stored s.words i,
)

pub at-fill :
    (s : BitSet) (v : Bool) (start end i : ℕ)
    → IsValid s
    → at (fill s v start end) i ≡ (if leb start i && (ltb i end && ltb i s.size) then v else at s i)
unfolding at
at-fill s v start end i valid = ground (
  arith,
  stored-fill s v start end i valid,
  fill-SameShape s v start end,
  get_bit-eq-stored (fill s v start end).words i,
  get_bit-eq-stored s.words i,
)
