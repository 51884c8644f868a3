-- ===== src/Eval.antt =====
-- Constant folding, as in onejit/eval.cpp: expressions without variables, and the operators on
-- constant values. `none` is undefined behaviour, met on the way.
pub mod Comparison
pub mod Neutral
pub mod Maximum
pub mod Canonical
pub mod Total
use onejit.Base.{ℕ, Bool, true, false, not, ◌&&◌, if◌then◌else◌, Option, none, some, List, [], ◌∷◌}
use onejit.Float.{Fpu}
use onejit.Kind
use onejit.Kind.{Kind}
use onejit.Op
use onejit.Op.{Op1, Op2, OpN}
use onejit.Value
use onejit.Value.{Value, invalid}
use onejit.Value.Operators
use onejit.Value.Operators.{
  complement, negative, plus, minus, times, quotient, remainder, conjunction, disjunction,
  exclusive, shift_left, shift_right, equal, unequal, less, less_equal, greater, greater_equal,
  truth, negation, both, either,
}

-- The expressions that the folding tells apart; `other` is any other type of expression.
mutual
  pub data Expr : Type 0 where
    unary : Kind → Op1 → Expr → Expr
    binary : Op2 → Expr → Expr → Expr
    tuple : Kind → OpN → Args → Expr
    constant : Value → Expr
    other : Expr

  pub data Args : Type 0 where
    nil : Args
    arg : Expr → Args → Args

-- `is_const`: the `break` in the loop over the children leaves that loop alone, so that their
-- answers are not used.
unfoldable pub is_const : Expr → Bool
is_const (unary k op x) = is_const x
is_const (binary op x y) = is_const x && is_const y
is_const (tuple k op args) = Op.is_arithmetic op
is_const (constant v) = true
is_const other = false

unfoldable pub eval_unary_op : Fpu → Kind → Op1 → Value → Option Value
eval_unary_op fpu k Op1.xor1 x = complement x
eval_unary_op fpu k Op1.not1 x = some (negation fpu x)
eval_unary_op fpu k Op1.neg1 x = negative fpu x
eval_unary_op fpu k Op1.cast x = Value.cast fpu x k
eval_unary_op fpu k Op1.bitcopy x = Value.bitcopy x k
eval_unary_op fpu k Op1.bad1 x = some invalid

unfoldable pub eval_binary_op : Fpu → Op2 → Value → Value → Option Value
eval_binary_op fpu Op2.sub x y = minus fpu x y
eval_binary_op fpu Op2.quo x y = quotient fpu x y
eval_binary_op fpu Op2.rem x y = remainder x y
eval_binary_op fpu Op2.shl x y = shift_left x y
eval_binary_op fpu Op2.shr x y = shift_right x y
eval_binary_op fpu Op2.land x y = some (both x y)
eval_binary_op fpu Op2.lor x y = some (either x y)
eval_binary_op fpu Op2.lss x y = some (less fpu x y)
eval_binary_op fpu Op2.leq x y = some (less_equal fpu x y)
eval_binary_op fpu Op2.neq x y = some (unequal fpu x y)
eval_binary_op fpu Op2.eql x y = some (equal fpu x y)
eval_binary_op fpu Op2.gtr x y = some (greater fpu x y)
eval_binary_op fpu Op2.geq x y = some (greater_equal fpu x y)
eval_binary_op fpu Op2.bad2 x y = some invalid

-- The loops of `eval_tuple_op` over the values
unfoldable pub accumulate :
    (Value → Value → Option Value) → Option Value → List Value → Option Value
accumulate f none vs = none
accumulate f (some x) [] = some x
accumulate f (some x) (v ∷ vs) = accumulate f (f x v) vs

unfoldable pub highest : Fpu → Value → List Value → Value
highest fpu x [] = x
highest fpu x (v ∷ vs) =
    let rest = highest fpu (if truth fpu (less fpu x v) then v else x) vs in
    if Value.is_valid (less fpu x v) then rest else invalid

unfoldable pub lowest : Fpu → Value → List Value → Value
lowest fpu x [] = x
lowest fpu x (v ∷ vs) =
    let rest = lowest fpu (if truth fpu (less fpu x v) then x else v) vs in
    if Value.is_valid (less fpu x v) then rest else invalid

-- The loop of `COMMA`: the last value, when all are valid
unfoldable pub last_valid : Value → List Value → Value
last_valid x [] = x
last_valid x (v ∷ vs) = let rest = last_valid v vs in if Value.is_valid v then rest else invalid

abbrev start_with : Option Value → (Value → Value) → Option Value
start_with none f = none
start_with (some x) f = some (f x)

unfoldable pub eval_tuple_op : Fpu → Kind → OpN → List Value → Option Value
unfolding accumulate
eval_tuple_op fpu k OpN.add vs = accumulate (plus fpu) (Value.identity fpu k OpN.add) vs
eval_tuple_op fpu k OpN.mul vs = accumulate (times fpu) (Value.identity fpu k OpN.mul) vs
eval_tuple_op fpu k OpN.and vs = accumulate conjunction (Value.identity fpu k OpN.and) vs
eval_tuple_op fpu k OpN.or vs = accumulate disjunction (Value.identity fpu k OpN.or) vs
eval_tuple_op fpu k OpN.xor vs = accumulate exclusive (Value.identity fpu k OpN.xor) vs
eval_tuple_op fpu k OpN.max vs = start_with (Value.identity fpu k OpN.max) (λ x. highest fpu x vs)
eval_tuple_op fpu k OpN.min vs = start_with (Value.identity fpu k OpN.min) (λ x. lowest fpu x vs)
eval_tuple_op fpu k OpN.comma vs =
    start_with (Value.identity fpu k OpN.comma) (λ x. last_valid x vs)
eval_tuple_op fpu k op vs = Value.identity fpu k op

-- Binding of results that may be undefined
abbrev pub and_then : Option Value → (Value → Option Value) → Option Value
and_then none f = none
and_then (some x) f = f x

-- `eval_const`: a tuple stops at the first value that is not valid.
unfoldable mutual
  pub eval_const : Fpu → Expr → Option Value
  eval_const fpu (unary k op x) = and_then (eval_const fpu x) (eval_unary_op fpu k op)
  eval_const fpu (binary op x y) =
      and_then (eval_const fpu x) (λ v. and_then (eval_const fpu y) (eval_binary_op fpu op v))
  eval_const fpu (tuple k op args) =
      if Op.is_arithmetic op
      then and_then (Value.identity fpu k op) (eval_args fpu k op args)
      else some invalid
  eval_const fpu (constant v) = some v
  eval_const fpu other = some invalid

  pub eval_args : Fpu → Kind → OpN → Args → Value → Option Value
  eval_args fpu k op nil v = some v
  eval_args fpu k op (arg x args) v =
      if Value.is_valid v
      then and_then (eval_const fpu x)
          (λ w. and_then (eval_tuple_op fpu k op (v ∷ w ∷ [])) (eval_args fpu k op args))
      else some v
