-- ===== src/BitSet/Resize.antt =====
-- `init`, `realloc`, `grow` and `resize`: what becomes of the bits when storage is added.
use onejit.Base.{
  ℕ, ◌+◌, ◌-◌, ◌*◌, ◌/◌, ◌%◌, ◌^◌, ◌≤◌, ◌<◌, Bool, true, false, ltb, leb, if◌then◌else◌, List,
  length, replicate, ◌++◌, ◌≡◌, refl, ◌∙◌, ap, arith, Bool-cases, inl, inr, ltb→lt, ltb→le, leb→le,
  get_or-append_replicate, length-append, length-replicate, get_or_default,
}
use native.Mathlib.Nat.{le_trans}
use onejit.Word.Bit.{testbit, zero-testbit}
use onejit.BitSet.{BitSet, realloc, grow_cap, grow_into, grow, resize}
use onejit.BitSet.Stored.{stored, AreWords, IsValid}
use onejit.BitSet.Fill.{stored-fill, fill-IsValid, fill-SameShape}

abbrev is_done : BitSet × Bool → Bool
is_done p = p.1

pub stored-append_zeros :
    (words : List ℕ) (n i : ℕ) → stored (words ++ replicate n 0) i ≡ stored words i
stored-append_zeros words n i =
    ap (λ (t : ℕ). testbit t (i % 64)) (get_or-append_replicate words n (i / 64) 0)

-- Past the words there are no bits.
stored_past : (words : List ℕ) (i : ℕ) → length words * 64 ≤ i → stored words i ≡ false
stored_past words i h =
    ap (λ (t : ℕ). testbit t (i % 64)) (get_or_default words (i / 64) 0 (omega arith))
    ∙ zero-testbit (i % 64)

AreWords-append_zeros :
    (words : List ℕ) (n : ℕ) → AreWords words → AreWords (words ++ replicate n 0)
AreWords-append_zeros words n h j = rw (get_or-append_replicate words n j 0) (h j)

-- What `realloc` leaves: the same bits and size, with room for `newcap` when it succeeds.
record Roomier (s t : BitSet) : Type 0 where
  valid : IsValid t
  same_size : t.size ≡ s.size
  same_bits : (i : ℕ) → stored t.words i ≡ stored s.words i

abbrev words_for : ℕ → ℕ
words_for n = (n + 63) % 2 ^ 64 / 64

-- The storage after a grant.
appended-Roomier :
    (s : BitSet) (newcap : ℕ)
    → IsValid s
    → newcap < 2 ^ 62
    → words_for s.cap < words_for newcap
    → Roomier s (record s {
      words = s.words ++ replicate (words_for newcap - words_for s.cap) 0;
      cap = words_for newcap * 64;
    })
appended-Roomier s newcap valid small more =
    let added = words_for newcap - words_for s.cap in
    record {
      valid = record {
        whole_words = omega (
          arith,
          length-append s.words (replicate added 0),
          length-replicate added (let z : ℕ = 0 in z),
        );
        within = omega arith;
        bounded = omega arith;
        are_words = AreWords-append_zeros s.words added valid.are_words;
      };
      same_size = refl;
      same_bits = stored-append_zeros s.words added;
    }

Roomier-self : (s : BitSet) → IsValid s → Roomier s s
Roomier-self s valid = record { valid = valid; same_size = refl; same_bits = λ i. refl }

recapped-Roomier : (s : BitSet) → IsValid s → Roomier s (record s { cap = words_for s.cap * 64 })
recapped-Roomier s valid = record {
  valid = record {
    whole_words = omega arith;
    within = omega arith;
    bounded = omega arith;
    are_words = valid.are_words;
  };
  same_size = refl;
  same_bits = λ i. refl;
}

realloc-Roomier :
    (granted : Bool) (s : BitSet) (newcap : ℕ)
    → IsValid s
    → newcap < 2 ^ 62
    → Roomier s (realloc granted s newcap).0
unfolding realloc
realloc-Roomier granted s newcap valid small =
    elim (Bool-cases (ltb (words_for s.cap) (words_for newcap))) [
      | inl more ↦ elim (Bool-cases granted) [
        | inl yes' ↦ rw (more, yes') (appended-Roomier s newcap valid small (ltb→lt _ _ more))
        | inr denied ↦ rw (more, denied) (Roomier-self s valid)
      ]
      | inr enough ↦ rw enough (recapped-Roomier s valid)
    ]

realloc-cap :
    (granted : Bool) (s : BitSet) (newcap : ℕ)
    → IsValid s
    → newcap < 2 ^ 62
    → (realloc granted s newcap).1 ≡ true
    → newcap ≤ (realloc granted s newcap).0.cap
unfolding realloc
realloc-cap granted s newcap valid small h = ground arith

-- The capacity that `grow_cap` asks for.
abbrev asked : BitSet → ℕ → ℕ
asked s mincap =
    let cap2 = if leb 64 s.cap then s.cap * 2 % 2 ^ 64 else 64 in
    if leb cap2 mincap then mincap else cap2

asked_bounds :
    (s : BitSet) (mincap : ℕ)
    → s.cap < 2 ^ 60
    → mincap < 2 ^ 61
    → (mincap ≤ asked s mincap) × (asked s mincap < 2 ^ 62)
asked_bounds s mincap hs hm = ground arith

sized-IsValid : (s : BitSet) (n : ℕ) → IsValid s → n ≤ s.cap → IsValid (record s { size = n })
sized-IsValid s n valid fits = record {
  whole_words = valid.whole_words;
  within = fits;
  bounded = valid.bounded;
  are_words = valid.are_words;
}

-- `grow_into` sets the size and clears the bits that come into it.
stored-grow_into :
    (old s : BitSet) (newsize i : ℕ)
    → IsValid old
    → Roomier old s
    → old.size ≤ newsize
    → newsize ≤ s.cap
    → i < newsize
    → stored (grow_into s old.cap newsize).words i
      ≡ (if ltb i old.size then stored old.words i else false)
unfolding grow_into
stored-grow_into old s newsize i valid room larger fits inside =
    let stop = if ltb newsize old.cap then newsize else old.cap in
    let grown : BitSet = record s { size = newsize } in
    ground (
      arith,
      stored-fill grown false s.size stop i (sized-IsValid s newsize room.valid fits),
      room.same_bits i,
      stored_past old.words i,
    )

grow_into-IsValid :
    (s : BitSet) (oldcap newsize : ℕ)
    → IsValid s
    → newsize ≤ s.cap
    → IsValid (grow_into s oldcap newsize) × ((grow_into s oldcap newsize).size ≡ newsize)
unfolding grow_into
grow_into-IsValid s oldcap newsize valid fits =
    let stop = if ltb newsize oldcap then newsize else oldcap in
    let grown : BitSet = record s { size = newsize } in
    let sized = sized-IsValid s newsize valid fits in
    elim (Bool-cases (ltb s.size stop)) [
      | inl clears ↦ rw clears (
        fill-IsValid grown false s.size stop sized,
        (fill-SameShape grown false s.size stop).same_size,
      )
      | inr clean ↦ rw clean (sized, refl)
    ]

-- What `resize` promises: the size asked for, the old bits below it, and `false` at the new ones.
pub record Resized (s : BitSet) (n : ℕ) (t : BitSet) : Type 0 where
  pub valid : IsValid t
  pub new_size : t.size ≡ n
  pub bits : (i : ℕ) → i < n → stored t.words i ≡ (if ltb i s.size then stored s.words i else false)

Resized-grow_into :
    (old s : BitSet) (n : ℕ)
    → IsValid old
    → Roomier old s
    → old.size ≤ n
    → n ≤ s.cap
    → Resized old n (grow_into s old.cap n)
Resized-grow_into old s n valid room larger fits =
    let (ok, size) = grow_into-IsValid s old.cap n room.valid fits in
    record {
      valid = ok;
      new_size = size;
      bits = λ i h. stored-grow_into old s n i valid room larger fits h;
    }

grow_cap-Roomier :
    (granted : Bool) (s : BitSet) (n : ℕ)
    → IsValid s
    → s.cap < 2 ^ 60
    → n < 2 ^ 61
    → Roomier s (grow_cap granted s n).0
      × ((grow_cap granted s n).1 ≡ true → n ≤ (grow_cap granted s n).0.cap)
unfolding grow_cap
grow_cap-Roomier granted s n valid hs hn =
    let (enough, small) = asked_bounds s n hs hn in
    (
      realloc-Roomier granted s (asked s n) valid small,
      λ done. le_trans enough (realloc-cap granted s (asked s n) valid small done),
    )

-- A `grow` that succeeds.
grow-Resized :
    (granted : Bool) (s : BitSet) (n : ℕ)
    → IsValid s
    → s.cap < 2 ^ 60
    → n < 2 ^ 61
    → s.size ≤ n
    → (grow granted s n).1 ≡ true
    → Resized s n (grow granted s n).0
unfolding grow
grow-Resized granted s n valid hs hn larger done =
    let (room, caps) = grow_cap-Roomier granted s n valid hs hn in
    elim (Bool-cases (ltb s.cap n)) [
      | inr fits ↦
          rw fits (Resized-grow_into s s n valid (Roomier-self s valid) larger (ltb→le _ _ fits))
      | inl short ↦ elim (Bool-cases (grow_cap granted s n).1) [
        | inl got ↦
            rw (short, got)
              (Resized-grow_into s (grow_cap granted s n).0 n valid room larger (caps got))
        | inr denied ↦ ground arith
      ]
    ]

-- For a valid set whose capacity is below 2 ^ 60 and a new size below 2 ^ 61: a `resize` that
-- succeeds leaves a valid set of that size, keeps the bits below both sizes and gives `false` to
-- those that come in, also where an earlier, larger size left bits behind in the storage.
pub resize-Resized :
    (granted : Bool) (s : BitSet) (n : ℕ)
    → IsValid s
    → s.cap < 2 ^ 60
    → n < 2 ^ 61
    → (resize granted s n).1 ≡ true
    → Resized s n (resize granted s n).0
unfolding resize
resize-Resized granted s n valid hs hn done = elim (Bool-cases (leb n s.size)) [
  | inl shrinks ↦ rw shrinks (record {
    valid = sized-IsValid s n valid (omega (arith, leb→le _ _ shrinks));
    new_size = refl;
    bits = λ i h. ground arith;
  })
  | inr grows ↦ rw grows (grow-Resized granted s n valid hs hn (ground arith) (ground arith))
]

-- For a valid set whose capacity is below 2 ^ 60 and a new size below 2 ^ 61: a `resize` that is
-- denied memory succeeds exactly when the capacity suffices, and when it fails it changes nothing.
pub resize_denied :
    (s : BitSet) (n : ℕ)
    → IsValid s
    → s.cap < 2 ^ 60
    → n < 2 ^ 61
    → ((resize false s n).1 ≡ leb n s.cap)
      × ((resize false s n).1 ≡ false → (resize false s n).0 ≡ s)
unfolding resize grow grow_cap realloc
resize_denied s n valid hs hn =
    (ground (arith, asked_bounds s n hs hn), ground (arith, asked_bounds s n hs hn))

pub resize_granted :
    (s : BitSet) (n : ℕ) → IsValid s → s.cap < 2 ^ 60 → n < 2 ^ 61 → (resize true s n).1 ≡ true
unfolding resize grow grow_cap realloc
resize_granted s n valid hs hn = ground arith
