-- ===== src/Eval/Maximum.antt =====
-- What `eval_tuple_op` makes of `MAX` on signed kinds narrower than 64 bits.
use native.Mathlib.Nat.{pow-le-pow_right}
use onejit.Base.{
  ℕ, ◌+◌, ◌-◌, ◌*◌, ◌%◌, ◌^◌, ◌≤◌, ◌<◌, Bool, true, false, ltb, some, [], ◌∷◌, ◌≡◌, refl, arith,
  inl, inr, subst,
}
use onejit.Float.{Fpu}
use onejit.Kind
use onejit.Kind.{Kind, Ekind}
use onejit.Op
use onejit.Op.{OpN}
use onejit.Value
use onejit.Value.{Value, of_truth, is_single, is_double, zero_of}
use onejit.Value.Extend.{IsExtended, signed_range}
use onejit.Value.Laws.{IsPlain, IsCanonical, Kind-same}
use onejit.Value.Operators.{less, unequal, truth}
use onejit.Eval.{eval_tuple_op, highest}

signed_of_int : (k : Kind) → Kind.is_int k ≡ true → Kind.is_signed k ≡ true
unfolding Kind.is_int Kind.is_signed
signed_of_int k h = ground arith

half-le : (size : ℕ) → size < 64 → 2 ^ (size - 1) ≤ 2 ^ 62
half-le size h = pow-le-pow_right {n = 2} (omega arith) {i = size - 1} {j = 62} (omega arith)

-- `Value::min` of a signed kind narrower than 64 bits is its least number without its sign bits.
min-signed :
    (k : Kind)
    → IsPlain k
    → Kind.is_int k ≡ true
    → Kind.bitsize k < 64
    → Value.min k ≡ some (record { kind = k; bits = 2 ^ (Kind.bitsize k - 1) })
unfolding Value.min Kind.is_unsigned
min-signed k plain int narrow =
    let signed = signed_of_int k int in
    let fits : ltb 64 (Kind.bitsize k) ≡ false = ground arith in
    let wrap : 1 * 2 ^ (Kind.bitsize k - 1) % 2 ^ 64 ≡ 2 ^ (Kind.bitsize k - 1) =
      omega (arith, half-le (Kind.bitsize k) narrow) in
    rw (signed, plain.not_single, plain.not_double, fits, wrap) refl

truth-of_truth : (fpu : Fpu) (b : Bool) → truth fpu (of_truth b) ≡ b
unfolding truth unequal Kind.same Kind.val Kind.code
truth-of_truth fpu true = ground arith
truth-of_truth fpu false = ground arith

valid-of_truth : (b : Bool) → Value.is_valid (of_truth b) ≡ true
unfolding Value.is_valid Kind.same Kind.val Kind.code
valid-of_truth b = refl

loses_to :
    (fpu : Fpu) (k : Kind) (x : ℕ)
    → IsPlain k
    → Kind.is_int k ≡ true
    → 1 ≤ Kind.bitsize k
    → Kind.bitsize k < 64
    → IsCanonical (record { kind = k; bits = x })
    → less fpu
        (record { kind = k; bits = 2 ^ (Kind.bitsize k - 1) })
        (record { kind = k; bits = x })
      ≡ of_truth false
unfolding less
loses_to fpu k x plain int some_bits narrow canonical =
    let size = Kind.bitsize k in
    let small = half-le size narrow in
    let signed : IsExtended size true x = subst (λ (b : Bool). IsExtended size b x) int canonical in
    let range = signed_range size x some_bits (omega arith) signed in
    let fits = canonical.fits in
    let over : ltb ((2 ^ (size - 1) + 2 ^ 63) % 2 ^ 64) ((x + 2 ^ 63) % 2 ^ 64) ≡ false =
      elim range [ inl low ↦ ground arith | inr high ↦ ground arith ] in
    rw (Kind-same k, plain.not_single, plain.not_double, int, over) refl

-- `MAX` of one canonical value of a signed kind of less than 64 bits is not that value, whichever it
-- is: it is 2 ^ (size - 1) with zeros above.
pub max-signed :
    (fpu : Fpu) (k : Kind) (x : ℕ)
    → IsPlain k
    → Kind.is_float k ≡ false
    → Kind.is_int k ≡ true
    → 1 ≤ Kind.bitsize k
    → Kind.bitsize k < 64
    → IsCanonical (record { kind = k; bits = x })
    → eval_tuple_op fpu k OpN.max (record { kind = k; bits = x } ∷ [])
      ≡ some (record { kind = k; bits = 2 ^ (Kind.bitsize k - 1) })
unfolding eval_tuple_op Value.identity Value.neutral Op.is_bitwise Op.code_n highest
max-signed fpu k x plain not_float int some_bits narrow canonical =
    let m = 2 ^ (Kind.bitsize k - 1) in
    let lowest : Value = record { kind = k; bits = m } in
    let loses : less fpu lowest (record { kind = k; bits = x }) ≡ of_truth false =
      loses_to fpu k x plain int some_bits narrow canonical in
    rw (min-signed k plain int narrow, loses, truth-of_truth fpu, valid-of_truth) refl
