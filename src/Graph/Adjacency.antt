-- ===== src/Graph/Adjacency.antt =====
-- The square of bits as a relation, and the invariant of a graph.
use native.Mathlib.Nat.{add-mul-mod_self_right, mod-eq_of_lt, add-mul-div_right, div-eq_of_lt}
use onejit.Base.{
  ap₂, ℕ, ◌+◌, ◌*◌, ◌/◌, ◌%◌, ◌^◌, ◌≤◌, ◌<◌, Bool, false, ◌==◌, ltb, ◌&&◌, if◌then◌else◌, length,
  get_or, ◌≡◌, ap, ◌∙◌, sym, arith, Bool-cases, inl, inr, ==_iff,
}
use onejit.BitSet.{of_bool}
use onejit.BitSet
use onejit.BitSet.Stored
use onejit.BitSet.Stored.{stored, get_bit-eq-stored}
use onejit.Graph.{Graph, connected}
use onejit.Graph.Count.{count}

abbrev pub node_count : Graph → ℕ
node_count g = length g.degrees.items

-- Row `a`, column `b` of the square.
abbrev pub adjacent : Graph → ℕ → ℕ → Bool
adjacent g a b = stored g.bits.words (b + a * node_count g)

abbrev pub degree_of : Graph → ℕ → ℕ
degree_of g a = get_or g.degrees.items a 0

-- The bits form a symmetric square, and a degree counts the neighbours of a node, the node itself
-- twice. The bound keeps the offsets within `size_t` and the degrees within `uint32_t`.
pub record IsValid (g : Graph) : Type 0 where
  pub bits_valid : Stored.IsValid g.bits
  pub square : g.bits.size ≡ node_count g * node_count g
  pub bounded : node_count g < 2 ^ 31
  pub symmetric : (a b : ℕ) → a < node_count g → b < node_count g → adjacent g a b ≡ adjacent g b a
  pub counted :
      (a : ℕ)
      → a < node_count g
      → degree_of g a ≡ count (node_count g) (adjacent g a) + of_bool (adjacent g a a)

-- An offset determines its row and column.
pub offset-lt : (n a b : ℕ) → a < n → b < n → b + a * n < n * n
offset-lt n a b ha hb = grind arith

pub offset_column : (n a b : ℕ) → b < n → (b + a * n) % n ≡ b
offset_column n a b hb = add-mul-mod_self_right b a n ∙ mod-eq_of_lt hb

pub offset_row : (n a b : ℕ) → b < n → (b + a * n) / n ≡ a
offset_row n a b hb = add-mul-div_right b a (omega arith) ∙ omega (arith, div-eq_of_lt hb)

-- Equal offsets, as tests.
pub offset_eq : (n a b c d : ℕ) → b < n → d < n → (b + a * n == d + c * n) ≡ ((a == c) && (b == d))
offset_eq n a b c d hb hd = elim (Bool-cases (b + a * n == d + c * n)) [
  | inl same ↦
      let e : b + a * n ≡ d + c * n = (==_iff _ _).0 same in
      let rows : a ≡ c =
        sym (offset_row n a b hb) ∙ ap (λ (t : ℕ). t / n) e ∙ offset_row n c d hd in
      let columns : b ≡ d =
        sym (offset_column n a b hb) ∙ ap (λ (t : ℕ). t % n) e ∙ offset_column n c d hd in
      ground arith
  | inr other ↦ elim (Bool-cases ((a == c) && (b == d))) [
    | inr differ ↦ ground arith
    | inl both ↦
        let rows : a ≡ c = ground arith in
        let columns : b ≡ d = ground arith in
        let e : b + a * n ≡ d + c * n = ap₂ (λ (x y : ℕ). x + y * n) columns rows in ground arith
  ]
]

-- The test that `set` and `operator()` make of a bit is the relation.
pub at-eq-adjacent :
    (g : Graph) (a b : ℕ)
    → IsValid g
    → a < node_count g
    → b < node_count g
    → BitSet.at g.bits (b + a * node_count g) ≡ adjacent g a b
at-eq-adjacent g a b valid ha hb =
    unfold BitSet.at in
    ground (
      arith,
      get_bit-eq-stored g.bits.words (b + a * node_count g),
      offset-lt (node_count g) a b ha hb,
    )

square-le : (n : ℕ) → n ≤ 2 ^ 16 → n * n ≤ 2 ^ 32
square-le n h = grind arith

-- `operator()` decides the relation, on graphs small enough that its 32-bit index does not wrap.
pub connected-eq-adjacent :
    (g : Graph) (a b : ℕ)
    → IsValid g
    → node_count g ≤ 2 ^ 16
    → connected g a b
      ≡ (if ltb a (node_count g) && ltb b (node_count g) then adjacent g a b else false)
unfolding connected
connected-eq-adjacent g a b valid small =
    let n = node_count g in
    let area : n * n ≤ 2 ^ 32 = square-le n small in
    elim (Bool-cases (ltb a n && ltb b n)) [
      | inr outside ↦ rw outside (ground arith)
      | inl inside ↦
          let ha : a < n = ground arith in
          let hb : b < n = ground arith in
          rw inside (
            ground (
              arith,
              at-eq-adjacent g a b valid ha hb,
              at-eq-adjacent g b a valid hb ha,
              valid.symmetric a b ha hb,
              offset-lt n a b ha hb,
              offset-lt n b a hb ha,
            ))
    ]
