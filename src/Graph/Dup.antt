-- ===== src/Graph/Dup.antt =====
-- About `reset` and `dup` of onestl/graph.cpp, where memory is granted.
use onejit.Base.{
  ap₂, ℕ, zero, suc, ◌+◌, ◌-◌, ◌*◌, ◌/◌, ◌%◌, ◌^◌, ◌≤◌, ◌<◌, true, false, ◌==◌, length, get_or,
  List, [], ◌∷◌, replicate, take, some, length-append, length-replicate, ◌≡◌, refl, ap, ◌∙◌, sym,
  arith, ==_iff,
}
use onejit.Word.Bit.{testbit}
use onejit.Array
use onejit.Array.{Array}
use onejit.BitSet.{BitSet, of_bool, no_pos, copy_words}
use onejit.BitSet
use onejit.BitSet.Stored
use onejit.BitSet.Stored.{stored, AreWords}
use onejit.BitSet.Fill
use onejit.BitSet.Resize.{resize-Resized, resize_granted}
use onejit.Graph.{Graph, zeroed, reset, dup}
use onejit.Graph.Count.{count, count_none, count_congr}
use onejit.Graph.Adjacency.{node_count, adjacent, IsValid, offset-lt}

length-take : (n : ℕ) (xs : List ℕ) → n ≤ length xs → length (take n xs) ≡ n
length-take zero xs h = refl
length-take (suc n) [] h = absurd (omega arith)
length-take (suc n) (x ∷ xs) h = ap suc (length-take n xs (omega arith))

length-zeroed : (xs : List ℕ) → length (zeroed xs) ≡ length xs
length-zeroed [] = refl
length-zeroed (x ∷ xs) = ap suc (length-zeroed xs)

get_or-zeroed : (xs : List ℕ) (i : ℕ) → get_or (zeroed xs) i 0 ≡ 0
get_or-zeroed [] i = refl
get_or-zeroed (x ∷ xs) zero = refl
get_or-zeroed (x ∷ xs) (suc i) = get_or-zeroed xs i

pub array_resize_granted :
    (xs : Array ℕ) (n : ℕ)
    → ((Array.resize true 0 xs n).1 ≡ true) × (length (Array.resize true 0 xs n).0.items ≡ n)
unfolding Array.resize
array_resize_granted xs n = (
  ground arith,
  ground (
    arith,
    length-take n xs.items,
    length-append xs.items (replicate (n - length xs.items) 0),
    length-replicate (n - length xs.items) (let z : ℕ = 0 in z),
  ),
)

-- A graph of `n` nodes without edges.
pub record IsBlank (n : ℕ) (g : Graph) : Type 0 where
  pub valid : IsValid g
  pub nodes : node_count g ≡ n
  pub no_edges : (i : ℕ) → i < n * n → stored g.bits.words i ≡ false

-- What `reset` and `dup` need of the graph that they overwrite.
pub record IsReusable (g : Graph) : Type 0 where
  pub bits_valid : Stored.IsValid g.bits
  pub roomy : g.bits.cap < 2 ^ 60

area-lt : (n : ℕ) → n < 2 ^ 30 → n * n < 2 ^ 60
area-lt n h = grind arith

-- A square with all bits cleared and all degrees 0.
module _ (t : BitSet) (degrees : Array ℕ) (n : ℕ) (valid : Stored.IsValid t)
    (sized : t.size ≡ n * n) (nodes : length degrees.items ≡ n) (small : n < 2 ^ 30) where
  abbrev cleared : Graph
  cleared = record {
    bits = BitSet.fill t false 0 no_pos;
    degrees = record degrees { items = zeroed degrees.items };
  }

  cleared-nodes : node_count cleared ≡ n
  cleared-nodes = length-zeroed degrees.items ∙ nodes

  cleared-bits : (i : ℕ) → i < n * n → stored cleared.bits.words i ≡ false
  cleared-bits i h =
      Fill.stored-fill t false 0 no_pos i valid ∙ ground (arith, valid.within, valid.bounded)

  cleared-edges :
      (a b : ℕ) → a < node_count cleared → b < node_count cleared → adjacent cleared a b ≡ false
  cleared-edges a b ha hb =
      ap (λ (t : ℕ). stored cleared.bits.words (b + a * t)) cleared-nodes
      ∙ cleared-bits (b + a * n)
          (offset-lt n a b (omega (arith, cleared-nodes)) (omega (arith, cleared-nodes)))

  cleared-IsBlank : IsBlank n cleared
  cleared-IsBlank =
      let same = Fill.fill-SameShape t false 0 no_pos in
      record {
        valid = record {
          bits_valid = Fill.fill-IsValid t false 0 no_pos valid;
          square = same.same_size ∙ sized ∙ ap₂ ◌*◌ (sym cleared-nodes) (sym cleared-nodes);
          bounded = omega (arith, cleared-nodes);
          symmetric = λ a b ha hb. cleared-edges a b ha hb ∙ sym (cleared-edges b a hb ha);
          counted = λ a ha. omega (
            arith,
            get_or-zeroed degrees.items a,
            count_none (node_count cleared) (adjacent cleared a) (λ b hb. cleared-edges a b ha hb),
            ap of_bool (cleared-edges a a ha ha),
          );
        };
        nodes = cleared-nodes;
        no_edges = cleared-bits;
      }

-- `reset`, where memory is granted, leaves a graph of the nodes asked for and no edge.
pub reset-IsBlank :
    (g : Graph) (n : ℕ)
    → IsReusable g
    → n < 2 ^ 30
    → ((reset true true g n).1 ≡ true) × IsBlank n (reset true true g n).0
unfolding reset
reset-IsBlank g n reusable small =
    let area : n * n < 2 ^ 60 = area-lt n small in
    let wrap : n * n % 2 ^ 64 ≡ n * n = omega arith in
    let (sized, nodes) = array_resize_granted g.degrees n in
    let squared = resize_granted g.bits (n * n) reusable.bits_valid reusable.roomy (omega arith) in
    let grown =
      resize-Resized true g.bits (n * n) reusable.bits_valid reusable.roomy (omega arith) squared in
    rw (wrap, sized, squared)
      (
        refl,
        cleared-IsBlank (BitSet.resize true g.bits (n * n)).0 (Array.resize true 0 g.degrees n).0 n
            grown.valid grown.new_size nodes small,
      )

get_or-copy_words :
    (count : ℕ) (source own : List ℕ) (j : ℕ)
    → j < count
    → count ≤ length own
    → count ≤ length source
    → get_or (copy_words count source own) j 0 ≡ get_or source j 0
unfolding copy_words
get_or-copy_words zero source own j h p q = elim h [ ]
get_or-copy_words (suc count) [] own j h p q = absurd (omega arith)
get_or-copy_words (suc count) (w ∷ source) [] j h p q = absurd (omega arith)
get_or-copy_words (suc count) (w ∷ source) (x ∷ own) zero h p q = refl
get_or-copy_words (suc count) (w ∷ source) (x ∷ own) (suc j) h p q =
    get_or-copy_words count source own j (omega arith) (omega arith) (omega arith)

length-copy_words :
    (count : ℕ) (source own : List ℕ) → length (copy_words count source own) ≡ length own
unfolding copy_words
length-copy_words zero source own = refl
length-copy_words (suc count) [] own = refl
length-copy_words (suc count) (w ∷ source) [] = refl
length-copy_words (suc count) (w ∷ source) (x ∷ own) = ap suc (length-copy_words count source own)

AreWords-copy_words :
    (count : ℕ) (source own : List ℕ)
    → AreWords source
    → AreWords own
    → AreWords (copy_words count source own)
unfolding copy_words
AreWords-copy_words zero source own hs ho j = ho j
AreWords-copy_words (suc count) [] own hs ho j = ho j
AreWords-copy_words (suc count) (w ∷ source) [] hs ho j = ho j
AreWords-copy_words (suc count) (w ∷ source) (x ∷ own) hs ho zero = hs 0
AreWords-copy_words (suc count) (w ∷ source) (x ∷ own) hs ho (suc j) =
    AreWords-copy_words count source own (λ k. hs (suc k)) (λ k. ho (suc k)) j

-- What `dup` promises: the nodes and the edges of the source.
pub record IsCopy (source t : Graph) : Type 0 where
  pub valid : IsValid t
  pub nodes : node_count t ≡ node_count source
  pub edges :
      (a b : ℕ)
      → a < node_count source
      → b < node_count source
      → adjacent t a b ≡ adjacent source a b

module _ (fresh source : Graph) (valid : IsValid source)
    (blank : IsBlank (node_count source) fresh) where
  abbrev words_copied : ℕ
  words_copied = (fresh.bits.size + 63) % 2 ^ 64 / 64

  abbrev copied : Graph
  copied = record {
    bits = record fresh.bits { words = copy_words words_copied source.bits.words fresh.bits.words };
    degrees = record fresh.degrees { items = source.degrees.items };
  }

  same_sizes : fresh.bits.size ≡ source.bits.size
  same_sizes = blank.valid.square ∙ ap₂ ◌*◌ blank.nodes blank.nodes ∙ sym valid.square

  copied-edges :
      (a b : ℕ)
      → a < node_count source
      → b < node_count source
      → adjacent copied a b ≡ adjacent source a b
  copied-edges a b ha hb =
      let here : b + a * node_count source < source.bits.size =
        omega (arith, offset-lt (node_count source) a b ha hb, valid.square) in
      ap (λ (t : ℕ). testbit t ((b + a * node_count source) % 64))
        (get_or-copy_words words_copied source.bits.words fresh.bits.words
          ((b + a * node_count source) / 64)
          (omega (arith, same_sizes, valid.bits_valid.within, valid.bits_valid.bounded))
          (omega (
            arith, blank.valid.bits_valid.within, blank.valid.bits_valid.bounded,
            blank.valid.bits_valid.whole_words,
          ))
          (omega (
            arith, same_sizes, valid.bits_valid.within, valid.bits_valid.bounded,
            valid.bits_valid.whole_words,
          )))

  copied-IsValid : IsValid copied
  copied-IsValid = record {
    bits_valid = record {
      whole_words = omega (
        arith,
        length-copy_words words_copied source.bits.words fresh.bits.words,
        blank.valid.bits_valid.whole_words,
      );
      within = blank.valid.bits_valid.within;
      bounded = blank.valid.bits_valid.bounded;
      are_words =
          AreWords-copy_words words_copied source.bits.words fresh.bits.words
            valid.bits_valid.are_words blank.valid.bits_valid.are_words;
    };
    square = same_sizes ∙ valid.square;
    bounded = valid.bounded;
    symmetric = λ a b ha hb.
        copied-edges a b ha hb ∙ valid.symmetric a b ha hb ∙ sym (copied-edges b a hb ha);
    counted = λ a ha.
        valid.counted a ha
        ∙ ap₂ ◌+◌
            (count_congr (node_count source) (adjacent source a) (adjacent copied a)
              (λ b hb. sym (copied-edges a b ha hb)))
            (ap of_bool (sym (copied-edges a a ha ha)));
  }

  copied-IsCopy : IsCopy source copied
  copied-IsCopy = record { valid = copied-IsValid; nodes = refl; edges = copied-edges }

-- `dup`, where memory is granted, makes the graph a copy: the same nodes and the same edges,
-- whatever graph it overwrites. The exception of `BitSet::copy` is not raised.
pub dup-IsCopy :
    (g source : Graph)
    → IsReusable g
    → IsValid source
    → node_count source < 2 ^ 30
    → ((dup true true g source).1 ≡ true) × IsCopy source (dup true true g source).0
unfolding dup
dup-IsCopy g source reusable valid small =
    let (done, blank) = reset-IsBlank g (node_count source) reusable small in
    let fresh = (reset true true g (node_count source)).0 in
    let same : (source.bits.size == fresh.bits.size) ≡ true =
      (==_iff _ _).1 (sym (same_sizes fresh source valid blank)) in
    let copies : BitSet.copy fresh.bits source.bits ≡ some (copied fresh source valid blank).bits =
      unfold BitSet.copy in rw same in
    rw (done, copies) (refl, copied-IsCopy fresh source valid blank)
