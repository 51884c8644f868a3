-- ===== src/Compiler/Names.antt =====
-- Names: what `Func::new_var` answers.
use onejit.Base.{Bool, true, false, leb, ◌+◌, if◌then◌else◌}
use onejit.Kind
use onejit.Kind.{Kind}
use onejit.Ir.{Expr, kind_of}
use onejit.Compiler.{State, new_var, first_id}
use onejit.Compiler.Assigns.{Compiled, to_var}

-- A new variable, or none
abbrev pub IsName : Expr → Type 0
IsName Expr.bad = Unit {0}
IsName (Expr.var k i) = Unit {0}
IsName e = ⊥

pub pick-IsName :
    (b : Bool) (x y : Expr × State) → IsName x.0 → IsName y.0 → IsName (if b then x else y).0
pick-IsName true x y h k = h
pick-IsName false x y h k = k

pub new_var-IsName : (k : Kind) (s : State) → IsName (new_var k s).0
unfolding new_var
new_var-IsName k s =
    pick-IsName (Kind.same k (Kind.scalar Kind.bad)) (Expr.bad, s) _ tt
      (pick-IsName (Kind.same k (Kind.scalar Kind.void)) _ _ tt
        (pick-IsName (leb (s.var_n + first_id) 0xFFFFFF) _ (Expr.bad, s) tt tt))

pub to_var-IsName : (e : Expr) (src : State → Compiled) (s : State) → IsName (to_var e src s).0
unfolding to_var
to_var-IsName Expr.bad src s = tt
to_var-IsName (Expr.var k i) src s = tt
to_var-IsName e src s = new_var-IsName (kind_of e) s
