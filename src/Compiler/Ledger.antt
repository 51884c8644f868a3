-- ===== src/Compiler/Ledger.antt =====
-- Steps of the compiler: the labels that it makes, those that it places, and where its jumps lead.
use onejit.Base.{
  ℕ, ◌+◌, ◌≤◌, ◌<◌, ◌==◌, ltb, leb, true, false, if◌then◌else◌, List, [], ◌∷◌, ◌++◌, ◌≡◌, refl, ap,
  ◌∙◌, arith, Bool-cases, inl, inr,
}
use onejit.Ir
use onejit.Ir.{Expr, Node}
use onejit.Ir.Placed.{
  count_label, count_label-append, IsTarget, LeadsTo, AllLead, AllLead-append, AllLead-map,
  is_place,
}
use onejit.Compiler.{State, add, new_label, is_void_node}

-- 1 for the labels that are made, of which there are `n`
abbrev pub below : ℕ → ℕ → ℕ
below l n = if ltb l n then 1 else 0

-- 1 for the label that the expression is
abbrev pub at : ℕ → Expr → ℕ
at l (Expr.label m) = if m == l then 1 else 0
at l e = 0

-- The expression is no label, or one of the first `n`.
abbrev pub IsMade : ℕ → Expr → Type 0
IsMade n e = IsTarget (λ l. l < n) e

abbrev pub AreMade : ℕ → List Expr → Type 0
AreMade n [] = Unit
AreMade n (e ∷ es) = IsMade n e × AreMade n es

-- The jumps and the stacks of the state lead to labels that are made.
pub record IsWithin (s : State) : Type 0 where
  pub targets : AllLead (λ l. l < s.label_n) s.nodes
  pub breaks : AreMade s.label_n s.breaks
  pub continues : AreMade s.label_n s.continues
  pub fallthroughs : AreMade s.label_n s.fallthroughs

pub IsMade-grow : (m n : ℕ) (e : Expr) → m ≤ n → IsMade m e → IsMade n e
IsMade-grow m n (Expr.label l) h k = omega arith
IsMade-grow m n e h k = tt

pub AreMade-grow : (m n : ℕ) (es : List Expr) → m ≤ n → AreMade m es → AreMade n es
AreMade-grow m n [] h k = tt
AreMade-grow m n (e ∷ es) h k = (IsMade-grow m n e h k.0, AreMade-grow m n es h k.1)

-- A run from one state to another: the labels made on the way are placed once each, but for those
-- of the debt, and no other label is placed; the stacks end as they were.
pub record IsRun (debt : ℕ → ℕ) (s t : State) : Type 0 where
  pub grown : s.label_n ≤ t.label_n
  pub balanced :
      (l : ℕ)
      → count_label l t.nodes + below l s.label_n + debt l
        ≡ count_label l s.nodes + below l t.label_n
  pub breaks : t.breaks ≡ s.breaks
  pub continues : t.continues ≡ s.continues
  pub fallthroughs : t.fallthroughs ≡ s.fallthroughs
  pub within : IsWithin s → IsWithin t

abbrev pub IsStep : State → State → Type 0
IsStep s t = IsRun (λ l. 0) s t

pub IsStep-refl : (s : State) → IsStep s s
IsStep-refl s = record {
  grown = omega arith;
  balanced = λ l. omega arith;
  breaks = refl;
  continues = refl;
  fallthroughs = refl;
  within = λ h. h;
}

pub IsRun-step : (debt : ℕ → ℕ) {s t u : State} → IsRun debt s t → IsStep t u → IsRun debt s u
IsRun-step debt a b = record {
  grown = omega (arith, a.grown, b.grown);
  balanced = λ l. omega (arith, a.balanced l, b.balanced l);
  breaks = b.breaks ∙ a.breaks;
  continues = b.continues ∙ a.continues;
  fallthroughs = b.fallthroughs ∙ a.fallthroughs;
  within = λ h. b.within (a.within h);
}

pub IsStep-trans : {s t u : State} → IsStep s t → IsStep t u → IsStep s u
IsStep-trans a b = IsRun-step (λ l. 0) a b

-- A debt may be written in another way.
pub IsRun-debt :
    (debt other : ℕ → ℕ) {s t : State}
    → ((l : ℕ) → debt l ≡ other l)
    → IsRun debt s t
    → IsRun other s t
IsRun-debt debt other h a = record {
  grown = a.grown;
  balanced = λ l. omega (arith, a.balanced l, h l);
  breaks = a.breaks;
  continues = a.continues;
  fallthroughs = a.fallthroughs;
  within = a.within;
}

-- A state with one more node
abbrev pub with_node : Node → State → State
with_node n s = record s { nodes = s.nodes ++ n ∷ [] }

with_node-IsWithin :
    (n : Node) (s : State) → LeadsTo (λ l. l < s.label_n) n → IsWithin s → IsWithin (with_node n s)
with_node-IsWithin n s t h = record {
  targets = AllLead-append (λ l. l < s.label_n) s.nodes (n ∷ []) h.targets (t, tt);
  breaks = h.breaks;
  continues = h.continues;
  fallthroughs = h.fallthroughs;
}

count-with_node :
    (l : ℕ) (n : Node) (s : State)
    → count_label l (with_node n s).nodes ≡ count_label l s.nodes + (if is_place l n then 1 else 0)
unfolding count_label
count-with_node l n s = omega (arith, count_label-append l s.nodes (n ∷ []))

with_node-IsRun :
    (debt other : ℕ → ℕ) (n : Node) (s : State)
    → (IsWithin s → LeadsTo (λ l. l < s.label_n) n)
    → ((l : ℕ) → debt l ≡ other l + (if is_place l n then 1 else 0))
    → {r : State} → IsRun debt r s
    → IsRun other r (with_node n s)
with_node-IsRun debt other n s t d a = record {
  grown = a.grown;
  balanced = λ l. omega (arith, a.balanced l, d l, count-with_node l n s);
  breaks = a.breaks;
  continues = a.continues;
  fallthroughs = a.fallthroughs;
  within = λ h. with_node-IsWithin n s (t (a.within h)) (a.within h);
}

is_void-place : (l : ℕ) (n : Node) → is_void_node n ≡ true → is_place l n ≡ false
unfolding Ir.is_void
is_void-place l (Node.expr (Expr.label m)) h = cc
is_void-place l (Node.expr e) h = refl
is_void-place l n h = refl

-- `add` of a node places the label that the node is. Its jump may lead to a label of the stacks.
pub IsRun-add :
    (debt other : ℕ → ℕ) (n : Node) {r s : State}
    → (IsWithin s → LeadsTo (λ l. l < s.label_n) n)
    → ((l : ℕ) → debt l ≡ other l + (if is_place l n then 1 else 0))
    → IsRun debt r s
    → IsRun other r (add n s)
unfolding add
IsRun-add debt other n {r} {s} t d a = elim (Bool-cases (is_void_node n)) [
  | inl void ↦
      rw void (IsRun-debt debt other (λ l. d l ∙ (rw (is_void-place l n void) (omega arith))) a)
  | inr node ↦ rw node (with_node-IsRun debt other n s t d a)
]

-- A node that is no label
pub IsStep-add :
    (n : Node) (s : State)
    → LeadsTo (λ l. l < s.label_n) n
    → ((l : ℕ) → is_place l n ≡ false)
    → IsStep s (add n s)
IsStep-add n s t d = IsRun-add (λ l. 0) (λ l. 0) n (λ h. t) (λ l. rw (d l) refl) (IsStep-refl s)

at-place : (l : ℕ) (e : Expr) → at l e ≡ (if is_place l (Node.expr e) then 1 else 0)
at-place l (Expr.label m) = refl
at-place l e = refl

pub IsRun-place :
    (debt other : ℕ → ℕ) (e : Expr) {r s : State}
    → ((l : ℕ) → debt l ≡ other l + at l e)
    → IsRun debt r s
    → IsRun other r (add (Node.expr e) s)
IsRun-place debt other e {s = s} d a =
    IsRun-add debt other (Node.expr e) (λ h. tt) (λ l. d l ∙ ap (λ k. other l + k) (at-place l e)) a

pub new_label-IsMade : (s : State) → IsMade (new_label s).1.label_n (new_label s).0
unfolding new_label
new_label-IsMade s = elim (Bool-cases (leb s.label_n 0xFFFF)) [
  | inl room ↦ rw room (omega arith)
  | inr full ↦ rw full tt
]

below-suc : (l n : ℕ) → below l (n + 1) ≡ below l n + at l (Expr.label n)
below-suc l n = ground arith

one_more : State → State
one_more s = record s { label_n = s.label_n + 1 }

one_more-IsWithin : (s : State) → IsWithin s → IsWithin (one_more s)
unfolding one_more
one_more-IsWithin s h = record {
  targets =
      AllLead-map (λ l. l < s.label_n) (λ l. l < s.label_n + 1) s.nodes (λ l k. omega arith)
        h.targets;
  breaks = AreMade-grow s.label_n (s.label_n + 1) s.breaks (omega arith) h.breaks;
  continues = AreMade-grow s.label_n (s.label_n + 1) s.continues (omega arith) h.continues;
  fallthroughs = AreMade-grow s.label_n (s.label_n + 1) s.fallthroughs (omega arith) h.fallthroughs;
}

made-IsRun :
    (debt : ℕ → ℕ) {r s : State}
    → IsRun debt r s
    → IsRun (λ l. debt l + at l (Expr.label s.label_n)) r (one_more s)
unfolding one_more
made-IsRun debt {r} {s} a = record {
  grown = omega (arith, a.grown);
  balanced = λ l. omega (arith, a.balanced l, below-suc l s.label_n);
  breaks = a.breaks;
  continues = a.continues;
  fallthroughs = a.fallthroughs;
  within = λ h. one_more-IsWithin s (a.within h);
}

pub IsRun-new :
    (debt : ℕ → ℕ) {r s : State}
    → IsRun debt r s
    → IsRun (λ l. debt l + at l (new_label s).0) r (new_label s).1
unfolding new_label one_more
IsRun-new debt {r} {s} a = elim (Bool-cases (leb s.label_n 0xFFFF)) [
  | inl room ↦ rw room (made-IsRun debt a)
  | inr full ↦ rw full (IsRun-debt debt (λ l. debt l + 0) (λ l. omega arith) a)
]

pub add-IsMade : (n : Node) (e : Expr) (s : State) → IsMade s.label_n e → IsMade (add n s).label_n e
unfolding add
add-IsMade n e s h = elim (Bool-cases (is_void_node n)) [
  | inl void ↦ rw void h
  | inr node ↦ rw node h
]
