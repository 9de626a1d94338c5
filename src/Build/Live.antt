-- ===== src/Build/Live.antt =====
-- Which addresses name a node, and how often the containers hold them when a node is added.
use open62541_nodeset_loader.Base.{
  ℕ, suc, ◌+◌, ◌≤◌, ◌<◌, ◌≡◌, ap, true, [], ◌∷◌, ltb, ◌==◌, if◌then◌else◌, count, count-append,
  arith,
}
use open62541_nodeset_loader.Container.{NodePtr, NodeContainer, contents, add}
use open62541_nodeset_loader.Container.Laws.{IsValid, add-contents}
use open62541_nodeset_loader.Node.{NodeClass}
use open62541_nodeset_loader.Nodeset.{set_class}
use open62541_nodeset_loader.Nodeset.Sort.Conserve.{held, over_classes-set}

-- 1 for the address of a node that was made, and 0 for NULL and for addresses not yet given away.
abbrev pub live_below : NodePtr → NodePtr → ℕ
live_below next p = if ltb 0 p then (if ltb p next then 1 else 0) else 0

pub live_below_one : (next p : NodePtr) → live_below next p ≤ 1
live_below_one next p = ground arith

-- The next address becomes live.
pub live_below-suc :
    (next p : NodePtr)
    → 0 < next
    → live_below (suc next) p ≡ live_below next p + (if p == next then 1 else 0)
live_below-suc next p h = ground arith

pub count-add :
    (c : NodeContainer) (q p : NodePtr)
    → IsValid c
    → count p (contents (add true c q).0) ≡ count p (contents c) + (if p == q then 1 else 0)
count-add c q p v =
    omega (arith, ap (count p) (add-contents c q v).1, count-append p (contents c) (q ∷ []))

pub held-add :
    (nodes : NodeClass → NodeContainer) (c : NodeClass) (q p : NodePtr)
    → IsValid (nodes c)
    → held (set_class nodes c (add true (nodes c) q).0) p ≡ held nodes p + (if p == q then 1 else 0)
held-add nodes c q p v = omega (
  arith,
  over_classes-set (λ x. count p (contents x)) nodes c (add true (nodes c) q).0,
  count-add (nodes c) q p v,
)
