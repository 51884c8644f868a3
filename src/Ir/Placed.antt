-- ===== src/Ir/Placed.antt =====
-- Where labels stand in a list of nodes, and where its jumps lead.
use onejit.Base.{
  ℕ, ◌+◌, ◌<◌, ◌==◌, Bool, true, false, List, [], ◌∷◌, ◌++◌, ◌≡◌, arith, if◌then◌else◌,
}
use onejit.OpStmt
use onejit.OpStmt.{OpStmt2, OpStmtN}
use onejit.Ir
use onejit.Ir.{Expr, Exprs, nil, cons, Node}

-- The label that the node places, if it is one
abbrev pub is_place : ℕ → Node → Bool
is_place l (Node.expr (Expr.label m)) = m == l
is_place l n = Bool.false

-- How often the nodes place a label
unfoldable pub count_label : ℕ → List Node → ℕ
count_label l [] = 0
count_label l (n ∷ ns) = (if is_place l n then 1 else 0) + count_label l ns

pub count_label-append :
    (l : ℕ) (ns ms : List Node) → count_label l (ns ++ ms) ≡ count_label l ns + count_label l ms
unfolding count_label
count_label-append l [] ms = omega arith
count_label-append l (n ∷ ns) ms = omega (arith, count_label-append l ns ms)

-- The destination of a jump that `is_jump` knows; another node has none.
unfoldable pub target : Node → Expr
target n = if Ir.is_jump n then Ir.jump_label n else Expr.bad

-- The expression is no label, or one with the property.
abbrev pub IsTarget {ℓ} : (ℕ → Type ℓ) → Expr → Type ℓ
IsTarget P (Expr.label l) = P l
IsTarget P e = Unit

-- Every jump of the nodes that `is_jump` knows leads to a label with the property.
abbrev pub AllTargets {ℓ} : (ℕ → Type ℓ) → List Node → Type ℓ
AllTargets P [] = Unit
AllTargets P (n ∷ ns) = IsTarget P (target n) × AllTargets P ns

-- Each jump that `is_jump` knows leads to a label that the nodes place.
abbrev pub IsClosed : List Node → Type 0
IsClosed ns = AllTargets (λ l. 0 < count_label l ns) ns

pub AllTargets-left {ℓ} :
    (P : ℕ → Type ℓ) (ns ms : List Node) → AllTargets P (ns ++ ms) → AllTargets P ns
AllTargets-left P [] ms h = tt
AllTargets-left P (n ∷ ns) ms h = (h.0, AllTargets-left P ns ms h.1)

pub AllTargets-right {ℓ} :
    (P : ℕ → Type ℓ) (ns ms : List Node) → AllTargets P (ns ++ ms) → AllTargets P ms
AllTargets-right P [] ms h = h
AllTargets-right P (n ∷ ns) ms h = AllTargets-right P ns ms h.1

IsTarget-map {ℓ κ} :
    (P : ℕ → Type ℓ) (Q : ℕ → Type κ) (e : Expr)
    → ((l : ℕ) → P l → Q l)
    → IsTarget P e
    → IsTarget Q e
IsTarget-map P Q (Expr.label l) f h = f l h
IsTarget-map P Q e f h = tt

pub AllTargets-map {ℓ κ} :
    (P : ℕ → Type ℓ) (Q : ℕ → Type κ) (ns : List Node)
    → ((l : ℕ) → P l → Q l)
    → AllTargets P ns
    → AllTargets Q ns
AllTargets-map P Q [] f h = tt
AllTargets-map P Q (n ∷ ns) f h = (IsTarget-map P Q (target n) f h.0, AllTargets-map P Q ns f h.1)

abbrev pub AreTargets {ℓ} : (ℕ → Type ℓ) → Exprs → Type ℓ
AreTargets P nil = Unit
AreTargets P (cons x xs) = IsTarget P x × AreTargets P xs

-- The labels to which the statement can jump, by any operator, have the property: the operand of a
-- Stmt1, the first one of a JumpIf, of a Stmt3 and of a Stmt2 that is no assignment, and all of a
-- StmtN but the prologue's.
abbrev pub LeadsTo {ℓ} : (ℕ → Type ℓ) → Node → Type ℓ
LeadsTo P (Node.stmt1 op e) = IsTarget P e
LeadsTo P (Node.stmt2 op dst src) = IsTarget P (if OpStmt.is_assign op then Expr.bad else dst)
LeadsTo P (Node.jump_if to test) = IsTarget P to
LeadsTo P (Node.stmt3 op to x y) = IsTarget P to
LeadsTo P (Node.stmt_n OpStmtN.set_op xs) = Unit
LeadsTo P (Node.stmt_n op xs) = AreTargets P xs
LeadsTo P n = Unit

abbrev pub AllLead {ℓ} : (ℕ → Type ℓ) → List Node → Type ℓ
AllLead P [] = Unit
AllLead P (n ∷ ns) = LeadsTo P n × AllLead P ns

pub AllLead-append {ℓ} :
    (P : ℕ → Type ℓ) (ns ms : List Node) → AllLead P ns → AllLead P ms → AllLead P (ns ++ ms)
AllLead-append P [] ms h k = k
AllLead-append P (n ∷ ns) ms h k = (h.0, AllLead-append P ns ms h.1 k)

AreTargets-map {ℓ κ} :
    (P : ℕ → Type ℓ) (Q : ℕ → Type κ) (xs : Exprs)
    → ((l : ℕ) → P l → Q l)
    → AreTargets P xs
    → AreTargets Q xs
AreTargets-map P Q nil f h = tt
AreTargets-map P Q (cons x xs) f h = (IsTarget-map P Q x f h.0, AreTargets-map P Q xs f h.1)

LeadsTo-map {ℓ κ} :
    (P : ℕ → Type ℓ) (Q : ℕ → Type κ) (n : Node) → ((l : ℕ) → P l → Q l) → LeadsTo P n → LeadsTo Q n
LeadsTo-map P Q (Node.stmt1 op e) f h = IsTarget-map P Q e f h
LeadsTo-map P Q (Node.stmt2 op dst src) f h =
    IsTarget-map P Q (if OpStmt.is_assign op then Expr.bad else dst) f h
LeadsTo-map P Q (Node.jump_if to test) f h = IsTarget-map P Q to f h
LeadsTo-map P Q (Node.stmt3 op to x y) f h = IsTarget-map P Q to f h
LeadsTo-map P Q (Node.stmt_n OpStmtN.set_op xs) f h = tt
LeadsTo-map P Q (Node.stmt_n op xs) f h = AreTargets-map P Q xs f h
LeadsTo-map P Q n f h = tt

pub AllLead-map {ℓ κ} :
    (P : ℕ → Type ℓ) (Q : ℕ → Type κ) (ns : List Node)
    → ((l : ℕ) → P l → Q l)
    → AllLead P ns
    → AllLead Q ns
AllLead-map P Q [] f h = tt
AllLead-map P Q (n ∷ ns) f h = (LeadsTo-map P Q n f h.0, AllLead-map P Q ns f h.1)

-- A label, if the expression is a label and the statement jumps
if_IsTarget {ℓ} :
    (P : ℕ → Type ℓ) (b : Bool) (e : Expr)
    → IsTarget P e
    → IsTarget P (if b then (if Ir.is_label e then e else Expr.bad) else Expr.bad)
if_IsTarget P true (Expr.label l) h = h
if_IsTarget P true e h = tt
if_IsTarget P false e h = tt

-- The jumps that `is_jump` knows are among them.
LeadsTo-target {ℓ} : (P : ℕ → Type ℓ) (n : Node) → LeadsTo P n → IsTarget P (target n)
unfolding target Ir.is_jump Ir.is_uncond_jump Ir.is_cond_jump Ir.is_return Ir.jump_label
    Ir.first_child OpStmt.is_assign
LeadsTo-target P (Node.stmt1 op e) h = if_IsTarget P (Ir.is_jump (Node.stmt1 op e)) e h
LeadsTo-target P (Node.stmt2 OpStmt2.x86_xbegin dst src) h = if_IsTarget P true dst h
LeadsTo-target P (Node.stmt2 op dst src) h = tt
LeadsTo-target P (Node.jump_if to test) h = if_IsTarget P true to h
LeadsTo-target P (Node.stmt3 op to x y) h = if_IsTarget P (Ir.is_jump (Node.stmt3 op to x y)) to h
LeadsTo-target P (Node.stmt_n op xs) h = if_IsTarget P (Ir.is_jump (Node.stmt_n op xs)) Expr.bad tt
LeadsTo-target P (Node.return_of xs) h = tt
LeadsTo-target P n h = tt

pub AllLead-AllTargets {ℓ} : (P : ℕ → Type ℓ) (ns : List Node) → AllLead P ns → AllTargets P ns
AllLead-AllTargets P [] h = tt
AllLead-AllTargets P (n ∷ ns) h = (LeadsTo-target P n h.0, AllLead-AllTargets P ns h.1)
