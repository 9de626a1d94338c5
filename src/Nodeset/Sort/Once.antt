-- ===== src/Nodeset/Sort/Once.antt =====
-- A sort of distinct nodes that succeeds has every ObjectType, Object, Method and Variable once in
-- `sortedNodes`, and no node twice.
use open62541_nodeset_loader.Base.{◌≤◌, ◌<◌, ◌≡◌, ap, count, take, arith}
use open62541_nodeset_loader.Ua.{Ua}
use open62541_nodeset_loader.Container.{NodePtr, NodeContainer, contents}
use open62541_nodeset_loader.Node.{
  object, object_type, variable, data_type, method, reference_type, variable_type, view,
}
use open62541_nodeset_loader.Nodeset.{Nodeset}
use open62541_nodeset_loader.Nodeset.Sort.{QSort, sort}
use open62541_nodeset_loader.Nodeset.Sort.Conserve.{held}
use open62541_nodeset_loader.Nodeset.Sort.Rounds.{AllPlaced}
use open62541_nodeset_loader.Nodeset.Sort.Acyclic.{instances}
use open62541_nodeset_loader.Nodeset.Sort.Result.{IsFresh, sort-items, sort-containers}

count_empty : (c : NodeContainer) (p : NodePtr) → c.size ≡ 0 → count p (contents c) ≡ 0
count_empty c p e = ap (λ n. count p (take n c.nodes)) e

module _ (ua : Ua) (q : QSort ua) (s : Nodeset ua) (fresh : IsFresh ua s)
    (distinct : (p : NodePtr) → held s.nodes p ≤ 1) where
  pub sorted_at_most_once : (p : NodePtr) → count p (contents (sort ua q s).0.sorted_nodes) ≤ 1
  sorted_at_most_once p = omega (arith, sort-items ua q s fresh p, distinct p)

  pub sorted_once :
      AllPlaced ua (sort ua q s).0
      → (p : NodePtr) → 0 < instances s.nodes p
      → count p (contents (sort ua q s).0.sorted_nodes) ≡ 1
  sorted_once placed p h =
      let t = (sort ua q s).0 in
      omega (
        arith,
        sort-items ua q s fresh p,
        distinct p,
        count_empty (t.nodes object_type) p placed.0,
        count_empty (t.nodes object) p placed.1,
        count_empty (t.nodes method) p placed.2,
        count_empty (t.nodes variable) p placed.3,
        (sort-containers ua q s fresh data_type).1 p,
        (sort-containers ua q s fresh reference_type).1 p,
        (sort-containers ua q s fresh variable_type).1 p,
        (sort-containers ua q s fresh view).1 p,
      )
