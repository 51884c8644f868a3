-- ===== src/Eval/Total.antt =====
-- `eval_tuple_op` on sums and products, against sums and products of numbers.
use native.Mathlib.Nat.{mod-add-mod, div-add-mod', add-mul-mod_self_right, mul_assoc}
use onejit.Base.{
  ℕ, ◌+◌, ◌*◌, ◌/◌, ◌%◌, ◌^◌, ◌≤◌, bit_and, Bool, false, ltb, Option, some, List, [], ◌∷◌, ◌≡◌,
  refl, sym, ap, ◌∙◌, arith,
}
use onejit.Word.Bit.{testbit-mod, testbit_ext}
use onejit.Float.{Fpu}
use onejit.Kind
use onejit.Kind.{Kind}
use onejit.Op
use onejit.Op.{OpN}
use onejit.Value
use onejit.Value.{Value, extend_bits, extend_or_truncate}
use onejit.Value.Extend.{lomask, testbit-low, mod-extend_bits, mod-mod_64}
use onejit.Value.Laws.{IsPlain, Kind-same}
use onejit.Value.Operators.{plus, times}
use onejit.Eval.{eval_tuple_op, accumulate}
use onejit.Eval.Neutral.{cast_uint64}

abbrev pub sum : List ℕ → ℕ
sum [] = 0
sum (x ∷ xs) = x + sum xs

abbrev pub product : List ℕ → ℕ
product [] = 1
product (x ∷ xs) = x * product xs

-- Values of one kind
abbrev pub values : Kind → List ℕ → List Value
values k [] = []
values k (x ∷ xs) = record { kind = k; bits = x } ∷ values k xs

low-eq-mod : (size bits : ℕ) → size ≤ 64 → bit_and bits (lomask size) ≡ bits % 2 ^ size
low-eq-mod size bits h =
    testbit_ext _ _ (λ k. testbit-low size bits k h ∙ ground arith ∙ sym (testbit-mod size bits k))

-- The extension depends on the low bits alone.
extend_bits_congr :
    (size : ℕ) (signed : Bool) (a b : ℕ)
    → size ≤ 64
    → a % 2 ^ size ≡ b % 2 ^ size
    → extend_bits size signed a ≡ extend_bits size signed b
unfolding extend_bits
extend_bits_congr size signed a b h e =
    let same : bit_and a (lomask size) ≡ bit_and b (lomask size) =
      low-eq-mod size a h ∙ e ∙ sym (low-eq-mod size b h) in
    rw same refl

regroup : (q m r x : ℕ) → (q * m + r) * x ≡ r * x + q * x * m
regroup q m r x = grind arith

mul-mod : (a x m : ℕ) → a * x % m ≡ a % m * x % m
mul-mod a x m =
    ap (λ (t : ℕ). t * x % m) (sym (div-add-mod' a m))
    ∙ ap (λ (t : ℕ). t % m) (regroup (a / m) m (a % m) x)
    ∙ add-mul-mod_self_right (a % m * x) (a / m * x) m

-- One more addend, or factor, on an extended total
module _ (fpu : Fpu) (k : Kind) (plain : IsPlain k) where
  abbrev extended_total : ℕ → Value
  extended_total total = record {
    kind = k;
    bits = extend_bits (Kind.bitsize k) (Kind.is_int k) total;
  }

  plus-total :
      (total x : ℕ)
      → plus fpu (extended_total total) (record { kind = k; bits = x })
        ≡ some (extended_total (total + x))
  unfolding plus extend_or_truncate
  plus-total total x =
      let size = Kind.bitsize k in
      let narrow : ltb 64 size ≡ false = ground (arith, plain.fits) in
      let e = extend_bits size (Kind.is_int k) total in
      let same = extend_bits_congr size (Kind.is_int k) ((e + x) % 2 ^ 64) (total + x) plain.fits (
        mod-mod_64 size (e + x) plain.fits
        ∙ sym (mod-add-mod e (2 ^ size) x)
        ∙ ap (λ (t : ℕ). (t + x) % 2 ^ size) (mod-extend_bits size (Kind.is_int k) total plain.fits)
        ∙ mod-add-mod total (2 ^ size) x) in
      rw (Kind-same k, plain.not_single, plain.not_double, narrow, same) refl

  times-total :
      (total x : ℕ)
      → times fpu (extended_total total) (record { kind = k; bits = x })
        ≡ some (extended_total (total * x))
  unfolding times extend_or_truncate
  times-total total x =
      let size = Kind.bitsize k in
      let narrow : ltb 64 size ≡ false = ground (arith, plain.fits) in
      let e = extend_bits size (Kind.is_int k) total in
      let same = extend_bits_congr size (Kind.is_int k) (e * x % 2 ^ 64) (total * x) plain.fits (
        mod-mod_64 size (e * x) plain.fits
        ∙ mul-mod e x (2 ^ size)
        ∙ ap (λ (t : ℕ). t * x % 2 ^ size) (mod-extend_bits size (Kind.is_int k) total plain.fits)
        ∙ sym (mul-mod total x (2 ^ size))) in
      rw (Kind-same k, plain.not_single, plain.not_double, narrow, same) refl

  accumulate-plus :
      (total : ℕ) (xs : List ℕ)
      → accumulate (plus fpu) (some (extended_total total)) (values k xs)
        ≡ some (extended_total (total + sum xs))
  unfolding accumulate
  accumulate-plus total [] = ap (λ (t : ℕ). some (extended_total t)) (omega arith)
  accumulate-plus total (x ∷ xs) =
      ap (λ (o : Option Value). accumulate (plus fpu) o (values k xs)) (plus-total total x)
      ∙ (accumulate-plus (total + x) xs ∙ ap (λ (t : ℕ). some (extended_total t)) (omega arith))

  accumulate-times :
      (total : ℕ) (xs : List ℕ)
      → accumulate (times fpu) (some (extended_total total)) (values k xs)
        ≡ some (extended_total (total * product xs))
  unfolding accumulate
  accumulate-times total [] = ap (λ (t : ℕ). some (extended_total t)) (omega arith)
  accumulate-times total (x ∷ xs) =
      ap (λ (o : Option Value). accumulate (times fpu) o (values k xs)) (times-total total x)
      ∙ (accumulate-times (total * x) xs
          ∙ ap (λ (t : ℕ). some (extended_total t)) (mul_assoc total x (product xs)))

-- Folding `+` and `*` over any number of values of one plain kind gives the extension of the sum and of
-- the product of their bits.
pub eval_tuple_op-total :
    (fpu : Fpu) (k : Kind) (xs : List ℕ)
    → IsPlain k
    → (eval_tuple_op fpu k OpN.add (values k xs)
        ≡ some (record { kind = k; bits = extend_bits (Kind.bitsize k) (Kind.is_int k) (sum xs) }))
      × (eval_tuple_op fpu k OpN.mul (values k xs)
          ≡ some (record {
            kind = k;
            bits = extend_bits (Kind.bitsize k) (Kind.is_int k) (product xs);
          }))
unfolding eval_tuple_op Value.identity Value.neutral Op.is_bitwise Op.code_n
eval_tuple_op-total fpu k xs plain = (
  rw (cast_uint64 fpu k 0 plain (omega arith)) (
      accumulate-plus fpu k plain 0 xs
      ∙ ap (λ (t : ℕ). some (extended_total fpu k plain t)) (omega arith)),
  rw (cast_uint64 fpu k 1 plain (omega arith)) (
      accumulate-times fpu k plain 1 xs
      ∙ ap (λ (t : ℕ). some (extended_total fpu k plain t)) (omega arith)),
)
