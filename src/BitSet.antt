-- ===== src/BitSet.antt =====
-- `BitSet` of onestl/bitset.hpp and onestl/bitset.cpp: a resizable sequence of bits kept in
-- 64-bit words. `words` is the array `data_` (none for NULL), whose length is `cap_ / 64`.
-- Allocation enters as the Boolean `granted`: whether the C library returned memory.
pub mod Stored
pub mod Find
pub mod Fill
pub mod Resize
use onejit.Base.{
  ℕ, zero, suc, ◌+◌, ◌-◌, ◌*◌, ◌/◌, ◌%◌, ◌^◌, bit_and, bit_or, bit_xor, Bool, true, false, not,
  ◌&&◌, ◌==◌, ltb, leb, if◌then◌else◌, List, [], ◌∷◌, ◌++◌, length, get_or, replicate,
  set as list_set, Option, none, some,
}
use onejit.Libc.{Libc}
use onejit.Word.{u64, u8, not64, neg64, sub64, shl64, shr}

pub record BitSet : Type 0 where
  pub words : List ℕ
  pub size : ℕ
  pub cap : ℕ

abbrev pub no_pos : ℕ
no_pos = 2 ^ 64 - 1

abbrev pub empty_bitset : BitSet
empty_bitset = record { words = []; size = 0; cap = 0 }

-- `T(value)`
abbrev pub of_bool : Bool → ℕ
of_bool true = 1
of_bool false = 0

-- `get(data_, index)` and the checked `operator[]`
unfoldable pub get_bit : List ℕ → ℕ → Bool
get_bit words index = bit_and 1 (shr (get_or words (index / 64) 0) (index % 64)) == 1

unfoldable pub at : BitSet → ℕ → Bool
at s index = if ltb index s.size then get_bit s.words index else false

-- `BitSet::init`, the constructor's work
unfoldable pub init : Bool → ℕ → BitSet × Bool
init granted size =
    let n = u64 (size + 63) / 64 in
    if not (n == 0) && not granted
    then (empty_bitset, false)
    else (record { words = replicate n 0; size = size; cap = n * 64 }, true)

-- `ref = (ref & keepmask) | (pattern & fillmask)` at one word, with `keepmask = ~fillmask`
unfoldable pub mask_word : List ℕ → ℕ → ℕ → ℕ → List ℕ
mask_word words index pattern fillmask =
    list_set words index
      (bit_or (bit_and (get_or words index 0) (not64 fillmask)) (bit_and pattern fillmask))

unfoldable pub set : BitSet → ℕ → Bool → BitSet
set s index value = if leb s.size index then s else record s {
  words = mask_word s.words (index / 64) (neg64 (of_bool value)) (shl64 1 (index % 64));
}

-- `std::memset(data_ + from, uint8_t(pattern), count * 8)`: `count` words from `from` on
unfoldable pub fill_words : List ℕ → ℕ → ℕ → ℕ → List ℕ
fill_words words from zero pattern = words
fill_words words from (suc count) pattern =
    fill_words (list_set words from pattern) (from + 1) count pattern

-- The head, the bulk and the tail of `fill`, once `start < end` and the two are in range
unfoldable pub fill_single : List ℕ → ℕ → ℕ → ℕ → List ℕ
fill_single words pattern start end =
    let fillmask1 = shl64 (not64 0) (start % 64) in
    let keepmask2 = shl64 (not64 0) (end % 64) in
    mask_word words (start / 64) pattern (bit_and fillmask1 (not64 keepmask2))

unfoldable pub fill_head : List ℕ → ℕ → ℕ → List ℕ
fill_head words pattern start =
    if start % 64 == 0
    then words
    else mask_word words (start / 64) pattern (shl64 (not64 0) (start % 64))

abbrev pub after_head : ℕ → ℕ
after_head start = if start % 64 == 0 then start else start - start % 64 + 64

unfoldable pub fill_tail : List ℕ → ℕ → ℕ → List ℕ
fill_tail words pattern end =
    if end % 64 == 0
    then words
    else mask_word words (end / 64) pattern (not64 (shl64 (not64 0) (end % 64)))

unfoldable pub fill : BitSet → Bool → ℕ → ℕ → BitSet
fill s value start end0 =
    let end = if ltb s.size end0 then s.size else end0 in
    let pattern = neg64 (of_bool value) in
    if leb end start
    then s
    else if start / 64 == end / 64
    then record s { words = fill_single s.words pattern start end }
    else let headed = fill_head s.words pattern start in
      let nstart = after_head start / 64 in
      let bulk = fill_words headed nstart (end / 64 - nstart) pattern in
      record s { words = fill_tail bulk pattern end }

-- `find`: the loop over the words after the first, from an index that is a multiple of 64. The
-- fuel is the number of words, and each round takes one.
unfoldable pub find_words : Libc → List ℕ → ℕ → ℕ → ℕ → ℕ → ℕ
find_words c words xor_pattern zero start end = no_pos
find_words c words xor_pattern (suc fuel) start end =
    let rest = find_words c words xor_pattern fuel (u64 (start + 64)) end in
    let bits = bit_xor xor_pattern (get_or words (start / 64) 0) in
    let hit = bit_or start (c.ffsl bits - 1) in
    if ltb start end
    then (if bits == 0 then rest else if ltb hit end then hit else no_pos)
    else no_pos

unfoldable pub find : Libc → BitSet → Bool → ℕ → ℕ → ℕ
find c s value start end0 =
    let end = if ltb s.size end0 then s.size else end0 in
    let xor_pattern = sub64 (of_bool value) 1 in
    let bits = bit_xor xor_pattern (shr (get_or s.words (start / 64) 0) (start % 64)) in
    let hit = u64 (start + (c.ffsl bits - 1)) in
    if ltb start end
    then if bits == 0
      then find_words c s.words xor_pattern (length s.words) (u64 (64 + start / 64 * 64)) end
      else if ltb hit end
      then hit
      else no_pos
    else no_pos

-- `clear` and `truncate`
unfoldable pub clear : BitSet → BitSet
clear s = record s { size = 0 }

unfoldable pub truncate : BitSet → ℕ → BitSet
truncate s newsize = if ltb newsize s.size then record s { size = newsize } else s

-- `realloc`: the words that are added are cleared
unfoldable pub realloc : Bool → BitSet → ℕ → BitSet × Bool
realloc granted s newcap =
    let oldn = u64 (s.cap + 63) / 64 in
    let n = u64 (newcap + 63) / 64 in
    if ltb oldn n
    then if granted
      then (record s { words = s.words ++ replicate (n - oldn) 0; cap = n * 64 }, true)
      else (s, false)
    else (record s { cap = oldn * 64 }, true)

unfoldable pub reserve : Bool → BitSet → ℕ → BitSet × Bool
reserve granted s newcap = if leb newcap s.cap then (s, true) else realloc granted s newcap

unfoldable pub grow_cap : Bool → BitSet → ℕ → BitSet × Bool
grow_cap granted s mincap =
    let cap2 = if leb 64 s.cap then u64 (s.cap * 2) else 64 in
    realloc granted s (if leb cap2 mincap then mincap else cap2)

-- `grow`, from the point where the capacity is there
unfoldable pub grow_into : BitSet → ℕ → ℕ → BitSet
grow_into s oldcap newsize =
    let grown = record s { size = newsize } in
    let toclear_end = if ltb newsize oldcap then newsize else oldcap in
    if ltb s.size toclear_end then fill grown false s.size toclear_end else grown

unfoldable pub grow : Bool → BitSet → ℕ → BitSet × Bool
grow granted s newsize =
    let (roomy, done) = grow_cap granted s newsize in
    if ltb s.cap newsize
    then (if done then (grow_into roomy s.cap newsize, true) else (roomy, false))
    else (grow_into s s.cap newsize, true)

unfoldable pub resize : Bool → BitSet → ℕ → BitSet × Bool
resize granted s n = if leb n s.size then (record s { size = n }, true) else grow granted s n

-- `std::memcpy` of the first `count` words
unfoldable pub copy_words : ℕ → List ℕ → List ℕ → List ℕ
copy_words zero source own = own
copy_words (suc count) [] own = own
copy_words (suc count) (w ∷ source) [] = []
copy_words (suc count) (w ∷ source) (x ∷ own) = w ∷ copy_words count source own

-- `copy`: `none` is the exception for different sizes
unfoldable pub copy : BitSet → BitSet → Option BitSet
unfolding copy_words
copy s source =
    if source.size == s.size
    then some (record s { words = copy_words (u64 (s.size + 63) / 64) source.words s.words })
    else none
