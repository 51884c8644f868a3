-- ===== src/FlowGraph/Room.antt =====
-- The room in `links_`: the cells that a block needs against what `jumps` counts for it.
use onejit.Base.{
  ℕ, ◌+◌, ◌≤◌, ◌<◌, ltb, Bool, true, false, not, ◌||◌, ◌&&◌, List, [], ◌∷◌, ◌++◌, length, get_or,
  ◌≡◌, refl, sym, arith, Bool-cases, inl, inr, if◌then◌else◌, Option, none, some, length-append,
}
use mathlib.Core.List.{append-nil, append_assoc}
use onejit.Ir
use onejit.Ir.{Node}
use onejit.FlowGraph.Blocks.{AreLabels}
use onejit.FlowGraph.{
  Cells, is_label, take_body, fallthrough, link_to, found, next_of, last, linked, ends_here,
}

-- The links that a block may have: to its label, and to the next block if there is one
abbrev pub jump_links : Option Node → Bool → ℕ
jump_links none more = 0
jump_links (some n) more =
    (if not (Ir.is_uncond_jump n) && more then 1 else 0)
    + (if Ir.is_uncond_jump n || Ir.is_cond_jump n then 1 else 0)

fallthrough-le :
    (node : Node) (i n : ℕ)
    → length (fallthrough node i n) ≤ (if not (Ir.is_uncond_jump node) && ltb i n then 1 else 0)
unfolding fallthrough
fallthrough-le node i n = ground arith

found-le :
    (node : Node) (start : List ℕ) (o : Option ℕ) (links : List ℕ)
    → found node start o ≡ linked links
    → length links ≤ length start + 1
found-le node start none links h = cc
found-le node start (some to) links h = ground (arith, length-append {0} start (to ∷ []))

link_to-le :
    (cells : Cells) (node : Node) (start : List ℕ) (e : Ir.Expr) (links : List ℕ)
    → link_to cells node start e ≡ linked links
    → length links ≤ length start + 1
unfolding link_to
link_to-le cells node start (Ir.Expr.label l) links h =
    ground (arith, found-le node start (get_or cells l none) links)
link_to-le cells node start e links h = ground arith

pub next_of-le :
    (cells : Cells) (i n : ℕ) (o : Option Node) (links : List ℕ)
    → next_of cells i n o ≡ linked links
    → length links ≤ jump_links o (ltb i n)
unfolding next_of fallthrough link_to
next_of-le cells i n none links h = ground arith
next_of-le cells i n (some node) links h = ground (
  arith,
  link_to-le cells node (fallthrough node i n) (Ir.jump_label node) links,
  fallthrough-le node i n,
)

-- No node of the list is a jump.
abbrev pub ArePlain : List Node → Type 0
ArePlain [] = Unit {0}
ArePlain (n ∷ ns) = (Ir.is_uncond_jump n ≡ false) × (Ir.is_cond_jump n ≡ false) × ArePlain ns

is_label-plain :
    (n : Node) → is_label n ≡ true → (Ir.is_uncond_jump n ≡ false) × (Ir.is_cond_jump n ≡ false)
unfolding is_label Ir.is_uncond_jump Ir.is_cond_jump
is_label-plain (Node.expr e) h = (refl, refl)
is_label-plain n h = cc

pub AreLabels-plain : (ns : List Node) → AreLabels ns → ArePlain ns
AreLabels-plain [] h = tt
AreLabels-plain (n ∷ ns) h =
    let plain = is_label-plain n h.0 in (plain.0, plain.1, AreLabels-plain ns h.1)

snoc_append : (ns : List Node) (n : Node) (ms : List Node) → ns ++ (n ∷ ms) ≡ (ns ++ n ∷ []) ++ ms
snoc_append ns n ms = sym (append_assoc ns (n ∷ []) ms)

ArePlain-snoc :
    (ns : List Node) (n : Node)
    → ArePlain ns
    → Ir.is_uncond_jump n ≡ false
    → Ir.is_cond_jump n ≡ false
    → ArePlain (ns ++ n ∷ [])
ArePlain-snoc [] n h u c = (u, c, tt)
ArePlain-snoc (m ∷ ns) n h u c = (h.0, h.1, ArePlain-snoc ns n h.2 u c)

last-snoc : (ns : List Node) (n : Node) → last (ns ++ n ∷ []) ≡ some n
unfolding last
last-snoc [] n = refl
last-snoc (m ∷ []) n = refl
last-snoc (m ∷ k ∷ ns) n = last-snoc (k ∷ ns) n

plain-jump_links :
    (ns : List Node) (more : Bool)
    → ArePlain ns
    → jump_links (last ns) more ≤ (if more then 1 else 0)
unfolding last
plain-jump_links [] more h = ground arith
plain-jump_links (n ∷ []) more h = rw (h.0, h.1) (ground arith)
plain-jump_links (n ∷ m ∷ ns) more h = plain-jump_links (m ∷ ns) more h.2

-- What a block has links for, whose last node is a jump
jump-jump_links :
    (n : Node) (ns : List Node) (more : Bool)
    → Ir.is_uncond_jump n ≡ false
    → (more ≡ true → 0 < length ns)
    → jump_links (some n) more ≤ ends_here ns
jump-jump_links n [] true u k = absurd (omega (arith, k refl))
jump-jump_links n [] false u k = rw u (ground arith)
jump-jump_links n (m ∷ ns) more u k = rw u (ground arith)

-- `take_body` counts at least the links that the block will have.
pub take_body-room :
    (front ns : List Node) (more : Bool)
    → ArePlain front
    → (more ≡ true → 0 < length (take_body ns).2)
    → jump_links (last (front ++ (take_body ns).0)) more ≤ (take_body ns).1
unfolding take_body
take_body-room front [] true h k = absurd (omega (arith, k refl))
take_body-room front [] false h k = rw (append-nil front) (plain-jump_links front false h)
take_body-room front (n ∷ ns) more h k = elim (Bool-cases (is_label n)) [
  | inl l ↦ rw (l, append-nil front) (ground (arith, plain-jump_links front more h))
  | inr l ↦ elim (Bool-cases (Ir.is_uncond_jump n)) [
    | inl u ↦ rw (l, u, last-snoc front n) (rw u (ground arith))
    | inr u ↦ elim (Bool-cases (Ir.is_cond_jump n)) [
      | inl c ↦ rw (l, u, c, last-snoc front n) (jump-jump_links n ns more u (rw (l, u, c) at k))
      | inr c ↦
          rw (l, u, c, snoc_append front n (take_body ns).0)
            (take_body-room (front ++ n ∷ []) ns more (ArePlain-snoc front n h u c)
              (rw (l, u, c) at k))
    ]
  ]
]
