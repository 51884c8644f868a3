-- ===== src/OpStmt/Negate.antt =====
-- The negation of a conditional jump against the negation of the comparison that it tests, and
-- the assignment operators against the operators that they combine.
use onejit.Base.{Bool, true, false, ◌&&◌, ◌≡◌, ◌≢◌, refl, ◌⊎◌, ◌↔◌, inl, inr}
use onejit.Op
use onejit.Op.{Op2, OpN}
use onejit.OpStmt.{
  OpStmt2, to_op2, to_opn, assign_of_op2, assign_of_opn, is_assign, assign, negate_condjump,
  comparison_to_condjump,
}

-- Whether the comparison is `<` or `<=`
abbrev pub is_below : Op2 → Bool
is_below Op2.lss = true
is_below Op2.leq = true
is_below op = false

negate_signed :
    (op : Op2)
    → Op.is_comparison op ≡ true
    → (negate_condjump (comparison_to_condjump op true)
        ≡ comparison_to_condjump (Op.not_comparison op) true)
      ↔ ((true && is_below op) ≡ false)
unfolding negate_condjump comparison_to_condjump Op.is_comparison Op.not_comparison Op.code2
negate_signed Op2.lss h = (λ e. cc, λ e. cc)
negate_signed Op2.leq h = (λ e. cc, λ e. cc)
negate_signed Op2.neq h = (λ e. refl, λ e. refl)
negate_signed Op2.eql h = (λ e. refl, λ e. refl)
negate_signed Op2.gtr h = (λ e. refl, λ e. refl)
negate_signed Op2.geq h = (λ e. refl, λ e. refl)
negate_signed Op2.bad2 h = cc
negate_signed Op2.sub h = cc
negate_signed Op2.quo h = cc
negate_signed Op2.rem h = cc
negate_signed Op2.shl h = cc
negate_signed Op2.shr h = cc
negate_signed Op2.land h = cc
negate_signed Op2.lor h = cc

negate_unsigned :
    (op : Op2)
    → Op.is_comparison op ≡ true
    → (negate_condjump (comparison_to_condjump op false)
        ≡ comparison_to_condjump (Op.not_comparison op) false)
      ↔ ((false && is_below op) ≡ false)
unfolding negate_condjump comparison_to_condjump Op.is_comparison Op.not_comparison Op.code2
negate_unsigned Op2.lss h = (λ e. refl, λ e. refl)
negate_unsigned Op2.leq h = (λ e. refl, λ e. refl)
negate_unsigned Op2.neq h = (λ e. refl, λ e. refl)
negate_unsigned Op2.eql h = (λ e. refl, λ e. refl)
negate_unsigned Op2.gtr h = (λ e. refl, λ e. refl)
negate_unsigned Op2.geq h = (λ e. refl, λ e. refl)
negate_unsigned Op2.bad2 h = cc
negate_unsigned Op2.sub h = cc
negate_unsigned Op2.quo h = cc
negate_unsigned Op2.rem h = cc
negate_unsigned Op2.shl h = cc
negate_unsigned Op2.shr h = cc
negate_unsigned Op2.land h = cc
negate_unsigned Op2.lor h = cc

-- For every comparison, negating the jump of the comparison gives the jump of the opposite
-- comparison exactly where the comparison is not a signed `<` or `<=`.
pub negate_condjump-comparison_to_condjump :
    (op : Op2) (signed : Bool)
    → Op.is_comparison op ≡ true
    → (negate_condjump (comparison_to_condjump op signed)
        ≡ comparison_to_condjump (Op.not_comparison op) signed)
      ↔ ((signed && is_below op) ≡ false)
unfolding negate_condjump comparison_to_condjump Op.is_comparison Op.not_comparison Op.code2
negate_condjump-comparison_to_condjump op true h = negate_signed op h
negate_condjump-comparison_to_condjump op false h = negate_unsigned op h

-- For every assignment operator but the plain assignment exactly one of `to_op2` and `to_opn`
-- answers an operator, and `to_assign_op` of it is the assignment operator again.
pub to_op-to_assign_op :
    (op : OpStmt2)
    → is_assign op ≡ true
    → op ≢ assign
    → ((assign_of_op2 (to_op2 op) ≡ op) × (to_opn op ≡ OpN.badn))
      ⊎ ((assign_of_opn (to_opn op) ≡ op) × (to_op2 op ≡ Op2.bad2))
unfolding to_op2 to_opn assign_of_op2 assign_of_opn is_assign
to_op-to_assign_op OpStmt2.sub_assign h plain = inl (refl, refl)
to_op-to_assign_op OpStmt2.quo_assign h plain = inl (refl, refl)
to_op-to_assign_op OpStmt2.rem_assign h plain = inl (refl, refl)
to_op-to_assign_op OpStmt2.shl_assign h plain = inl (refl, refl)
to_op-to_assign_op OpStmt2.shr_assign h plain = inl (refl, refl)
to_op-to_assign_op OpStmt2.add_assign h plain = inr (refl, refl)
to_op-to_assign_op OpStmt2.mul_assign h plain = inr (refl, refl)
to_op-to_assign_op OpStmt2.and_assign h plain = inr (refl, refl)
to_op-to_assign_op OpStmt2.or_assign h plain = inr (refl, refl)
to_op-to_assign_op OpStmt2.xor_assign h plain = inr (refl, refl)
to_op-to_assign_op OpStmt2.assign h plain = absurd (plain refl)
to_op-to_assign_op op h plain = cc
