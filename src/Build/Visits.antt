-- ===== src/Build/Visits.antt =====
-- What `Nodeset_forEachNode` visits.
use open62541_nodeset_loader.Base.{
  ◌≡◌, refl, ap, Bool, true, false, List, [], ◌∷◌, ◌++◌, map, Exec, fault, ret, ◌>>=◌,
}
use open62541_nodeset_loader.Ua.{Ua}
use open62541_nodeset_loader.Container.{contents}
use open62541_nodeset_loader.Node.{Node}
use open62541_nodeset_loader.Nodeset.{Nodeset}
use open62541_nodeset_loader.Build.{visit, for_each_node}

module _ (ua : Ua) {Context : Type 0} (fn : Context → Node ua.NodeId → Exec (Context × Bool)) where
  -- The callback ran on all nodes in turn and said true each time.
  pub data Visits : Context → List (Node ua.NodeId) → Context → Type 0 where
    done : (c : Context) → Visits c [] c
    step :
        {c next last : Context} {n : Node ua.NodeId} {nodes : List (Node ua.NodeId)}
        → fn c n ≡ ret (next, true)
        → Visits next nodes last
        → Visits c (n ∷ nodes) last

  -- How a run over the nodes ends: behind the last one, at the first one for which the callback
  -- says false, or in a fault of the callback.
  pub data Stops (c : Context) (nodes : List (Node ua.NodeId))
      : Exec (Context × Bool) → Type 0 where
    all : {last : Context} → Visits c nodes last → Stops c nodes (ret (last, true))
    at :
        {next last : Context} (before : List (Node ua.NodeId)) (n : Node ua.NodeId)
        (after : List (Node ua.NodeId))
        → nodes ≡ before ++ n ∷ after
        → Visits c before next
        → fn next n ≡ ret (last, false)
        → Stops c nodes (ret (last, false))
    faulted :
        {next : Context} (before : List (Node ua.NodeId)) (n : Node ua.NodeId)
        (after : List (Node ua.NodeId))
        → nodes ≡ before ++ n ∷ after
        → Visits c before next
        → fn next n ≡ fault
        → Stops c nodes fault

  Stops-step :
      (c next : Context) (n : Node ua.NodeId) (nodes : List (Node ua.NodeId))
      (r : Exec (Context × Bool))
      → fn c n ≡ ret (next, true)
      → Stops next nodes r
      → Stops c (n ∷ nodes) r
  Stops-step c next n nodes r e (all v) = all (step e v)
  Stops-step c next n nodes r e (at before m after split v f) =
      at (n ∷ before) m after (ap (λ l. n ∷ l) split) (step e v) f
  Stops-step c next n nodes r e (faulted before m after split v f) =
      faulted (n ∷ before) m after (ap (λ l. n ∷ l) split) (step e v) f

  -- What follows the callback on a node.
  abbrev go_on : List (Node ua.NodeId) → Context × Bool → Exec (Context × Bool)
  go_on nodes r = elim r.1 [ true ↦ visit ua fn r.0 nodes | false ↦ ret (r.0, false) ]

  visit_called :
      (nodes : List (Node ua.NodeId)) (c : Context) (n : Node ua.NodeId)
      (called : Exec (Context × Bool))
      → fn c n ≡ called
      → ((next : Context) → Stops next nodes (visit ua fn next nodes))
      → Stops c (n ∷ nodes) (called >>= go_on nodes)
  visit_called nodes c n fault e rest = faulted [] n nodes refl (done c) e
  visit_called nodes c n (ret (next, true)) e rest =
      Stops-step c next n nodes (visit ua fn next nodes) e (rest next)
  visit_called nodes c n (ret (next, false)) e rest = at [] n nodes refl (done c) e

  pub visit-Stops :
      (nodes : List (Node ua.NodeId)) (c : Context) → Stops c nodes (visit ua fn c nodes)
  unfolding visit
  visit-Stops [] c = all (done c)
  visit-Stops (n ∷ nodes) c = visit_called nodes c n (fn c n) refl (λ next. visit-Stops nodes next)

module _ (ua : Ua) {Context : Type 0} (fn : Context → Node ua.NodeId → Exec (Context × Bool)) where
  -- `Nodeset_forEachNode` calls the callback on the sorted nodes in their order, one after the
  -- other: on all of them if the callback always says true, and then it returns true; otherwise up
  -- to the first node for which the callback says false, and then it returns false. It faults only
  -- where the callback does.
  pub for_each_node-Stops :
      (nodeset : Nodeset ua) (c : Context)
      → Stops ua fn c
          (map nodeset.heap (contents nodeset.sorted_nodes))
          (for_each_node ua fn c nodeset)
  unfolding for_each_node
  for_each_node-Stops nodeset c =
      visit-Stops ua fn (map nodeset.heap (contents nodeset.sorted_nodes)) c
