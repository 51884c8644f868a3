-- ===== src/Value/Laws.antt =====
-- The operators on values of a kind that is no `Float32` or `Float64` and fits 64 bits.
use onejit.Base.{
  ℕ, ◌+◌, ◌-◌, ◌*◌, ◌%◌, ◌^◌, ◌≤◌, ◌<◌, bit_and, bit_or, bit_xor, Bool, true, false, ltb, Option,
  some, ◌≡◌, refl, ◌∙◌, arith, ==_iff,
}
use onejit.Word.Bit.{testbit-and, testbit-or, testbit-xor, bit_and-lt, bit_or-lt, bit_xor-lt}
use onejit.Float.{Fpu}
use onejit.Kind
use onejit.Kind.{Kind, Ekind}
use onejit.Value.{Value, is_single, is_double, extend_bits, extend_or_truncate}
use onejit.Value.Extend.{IsExtended, extend_bits-IsExtended, mod-extend_bits, mod-mod_64}
use onejit.Value.Operators.{complement, negative, plus, minus, times}

-- A kind of whole numbers, booleans, pointers or nothing, of at most 64 bits.
pub record IsPlain (k : Kind) : Type 0 where
  pub not_single : is_single k ≡ false
  pub not_double : is_double k ≡ false
  pub fits : Kind.bitsize k ≤ 64

-- The bits of a value are the extension of its low bits, as its kind asks.
abbrev pub IsCanonical : Value → Type 0
IsCanonical v = IsExtended (Kind.bitsize v.kind) (Kind.is_int v.kind) v.bits

-- A defined result: a canonical value of the kind, with the low bits of `total`.
pub record IsResult (k : Kind) (total : ℕ) (o : Option Value) : Type 0 where
  pub value : Value
  pub defined : o ≡ some value
  pub same_kind : value.kind ≡ k
  pub canonical : IsCanonical value
  pub low_bits : value.bits % 2 ^ Kind.bitsize k ≡ total % 2 ^ Kind.bitsize k

-- `extend_or_truncate` to a kind of at most 64 bits is defined, keeps the low bits, and copies the
-- sign bit above them for signed kinds and 0 for the others.
pub extend_or_truncate-IsResult :
    (k : Kind) (bits : ℕ)
    → Kind.bitsize k ≤ 64
    → bits < 2 ^ 64
    → IsResult k bits (extend_or_truncate k bits)
unfolding extend_or_truncate
extend_or_truncate-IsResult k bits h hb =
    let narrow : ltb 64 (Kind.bitsize k) ≡ false = ground arith in
    rw narrow (record {
      value = record { kind = k; bits = extend_bits (Kind.bitsize k) (Kind.is_int k) bits };
      defined = refl;
      same_kind = refl;
      canonical = extend_bits-IsExtended (Kind.bitsize k) (Kind.is_int k) bits h hb;
      low_bits = mod-extend_bits (Kind.bitsize k) (Kind.is_int k) bits h;
    })

wrapped-IsResult :
    (k : Kind) (total : ℕ)
    → Kind.bitsize k ≤ 64
    → IsResult k total (extend_or_truncate k (total % 2 ^ 64))
wrapped-IsResult k total h =
    let done = extend_or_truncate-IsResult k (total % 2 ^ 64) h (omega arith) in
    record {
      value = done.value;
      defined = done.defined;
      same_kind = done.same_kind;
      canonical = done.canonical;
      low_bits = done.low_bits ∙ mod-mod_64 (Kind.bitsize k) total h;
    }

pub Kind-same : (k : Kind) → Kind.same k k ≡ true
unfolding Kind.same
Kind-same k = (==_iff _ _).1 refl

-- On values of one plain kind `+` and `*` are defined, and so are `-`, `~` and the negative: the
-- results are canonical, with the low bits of the sum, the product, the difference, 2 ^ 64 - 1 - x
-- and 2 ^ 64 - x.
pub arithmetic-IsResult :
    (fpu : Fpu) (k : Kind) (x y : ℕ)
    → IsPlain k
    → x < 2 ^ 64
    → y < 2 ^ 64
    → IsResult k (x + y) (plus fpu (record { kind = k; bits = x }) (record { kind = k; bits = y }))
      × IsResult k
          (x * y)
          (times fpu (record { kind = k; bits = x }) (record { kind = k; bits = y }))
      × IsResult k
          (x + (2 ^ 64 - y))
          (minus fpu (record { kind = k; bits = x }) (record { kind = k; bits = y }))
      × IsResult k (2 ^ 64 - 1 - x) (complement (record { kind = k; bits = x }))
      × IsResult k (2 ^ 64 - x) (negative fpu (record { kind = k; bits = x }))
unfolding plus times minus complement negative
arithmetic-IsResult fpu k x y plain hx hy =
    rw (Kind-same k, plain.not_single, plain.not_double)
      (
        wrapped-IsResult k (x + y) plain.fits,
        wrapped-IsResult k (x * y) plain.fits,
        wrapped-IsResult k (x + (2 ^ 64 - y)) plain.fits,
        extend_or_truncate-IsResult k (2 ^ 64 - 1 - x) plain.fits (omega arith),
        wrapped-IsResult k (2 ^ 64 - x) plain.fits,
      )

-- `&`, `|` and `^` of canonical values of one plain kind are canonical without any extension.
pub bitwise-IsExtended :
    (size : ℕ) (signed : Bool) (x y : ℕ)
    → IsExtended size signed x
    → IsExtended size signed y
    → IsExtended size signed (bit_and x y)
      × IsExtended size signed (bit_or x y)
      × IsExtended size signed (bit_xor x y)
bitwise-IsExtended size signed x y ex ey = (
  record {
    fits = bit_and-lt 64 x y ex.fits;
    copies = λ k h lt.
        ground (
          arith,
          testbit-and x y k,
          testbit-and x y (size - 1),
          ex.copies k h lt,
          ey.copies k h lt,
        );
  },
  record {
    fits = bit_or-lt 64 x y ex.fits ey.fits;
    copies = λ k h lt.
        ground
          (arith, testbit-or x y k, testbit-or x y (size - 1), ex.copies k h lt, ey.copies k h lt);
  },
  record {
    fits = bit_xor-lt 64 x y ex.fits ey.fits;
    copies = λ k h lt.
        ground (
          arith,
          testbit-xor x y k,
          testbit-xor x y (size - 1),
          ex.copies k h lt,
          ey.copies k h lt,
        );
  },
)
