-- ===== src/Nodeset/Sort.antt =====
-- `Nodeset_sort` of src/Nodeset.c and what it calls: the nodes are put into an order in which the
-- server can add them, every node behind the nodes that it depends on.
pub mod Once
pub mod Steps
pub mod Invariant
pub mod Conserve
pub mod Fixpoint
pub mod Frame
pub mod Rounds
pub mod Fuel
pub mod Link
pub mod Linked
pub mod Marks
pub mod Result
pub mod Acyclic
use open62541_nodeset_loader.Base.{
  ℕ, zero, suc, ◌+◌, List, [], ◌∷◌, ◌++◌, Bool, true, false, ◌&&◌, not, Option, none, some, map,
  drop, length, count, ◌≤◌, ◌<◌, ◌≡◌, ◌≢◌, get_or, ltb, ◌==◌, if◌then◌else◌,
}
use open62541_nodeset_loader.Ua.{Ua, more}
use open62541_nodeset_loader.Container.{NodePtr, null_ptr, NodeContainer}
use open62541_nodeset_loader.Container
use open62541_nodeset_loader.Node.{NodeClass, Reference, Node}
use open62541_nodeset_loader.Nodeset.{
  Nodeset, SortError, reference_type_hierarchy, data_type_hierarchy, variable_type_hierarchy, views,
  infinite_loop, out_of_fuel, update, set_class,
}
use open62541_nodeset_loader.Nodeset.Search.{find_by_node_id}

module _ (ua : Ua) where
  -- The id of HasTypeDefinition.
  abbrev pub has_type_def : ua.NodeId
  has_type_def = ua.numeric 0 40

  -- What the body of the loop of `nodeRefsReady` tells of a reference whose target is not done.
  unfoldable pub must_wait : Reference ua.NodeId → Bool
  must_wait ref = if ua.equal has_type_def ref.ref_type then ref.is_forward else not ref.is_forward

  unfoldable pub ref_ready :
      (NodePtr → Node ua.NodeId) → Reference ua.NodeId → Option NodePtr → Bool
  ref_ready heap ref none = true
  ref_ready heap ref (some target) = if (heap target).is_done then true else not (must_wait ref)

  unfoldable pub refs_ready : (NodePtr → Node ua.NodeId) → List (Reference ua.NodeId) → Bool
  refs_ready heap [] = true
  refs_ready heap (ref ∷ rest) =
      if ref_ready heap ref ref.target_ptr then refs_ready heap rest else false

  unfoldable pub node_refs_ready : (NodePtr → Node ua.NodeId) → NodePtr → Bool
  node_refs_ready heap node = refs_ready heap (heap node).refs

  -- The body of the loop of `Nodeset_sortNodeClass` on a node that is ready.
  unfoldable pub place : NodeClass → ℕ → NodePtr → Nodeset ua → Nodeset ua
  place c i node nodeset = record nodeset {
    sorted_nodes = (Container.add true nodeset.sorted_nodes node).0;
    nodes = set_class nodeset.nodes c (Container.remove (nodeset.nodes c) i);
    heap = update nodeset.heap node (record (nodeset.heap node) { is_done = true });
  }

  -- The `for` loop from index `i`. A node that was placed leaves its index to the last one, so `i`
  -- stays (`i--` and `i++`). Each round shortens what is left, so `size` rounds are enough.
  unfoldable pub sort_pass : ℕ → NodeClass → ℕ → Nodeset ua → Nodeset ua
  sort_pass zero c i nodeset = nodeset
  sort_pass (suc fuel) c i nodeset =
      let node = get_or (nodeset.nodes c).nodes i null_ptr in
      let placed = sort_pass fuel c i (place c i node nodeset) in
      let passed = sort_pass fuel c (i + 1) nodeset in
      if ltb i (nodeset.nodes c).size
      then (if node_refs_ready nodeset.heap node then placed else passed)
      else nodeset

  unfoldable pub log_error : SortError → Nodeset ua → Nodeset ua
  log_error e nodeset = record nodeset { log = nodeset.log ++ e ∷ [] }

  -- `retry:` up to `goto retry`. Every retry but the last shortens the container.
  -- Without fuel the loop has not ended, which the log tells.
  unfoldable pub sort_retry : ℕ → NodeClass → Nodeset ua → Nodeset ua
  sort_retry zero c nodeset = log_error out_of_fuel nodeset
  sort_retry (suc fuel) c nodeset =
      let after = sort_pass (nodeset.nodes c).size c 0 nodeset in
      let again = sort_retry fuel c after in
      if (nodeset.nodes c).size == (after.nodes c).size then after else again

  unfoldable pub sort_node_class : NodeClass → Nodeset ua → Nodeset ua × Bool
  sort_node_class c nodeset =
      let after = sort_retry (suc (nodeset.nodes c).size) c nodeset in
      (after, (after.nodes c).size == 0)

  -- A class of types: an error is logged, and nothing else comes of it.
  unfoldable pub sort_types : NodeClass → SortError → Nodeset ua → Nodeset ua
  sort_types c e nodeset =
      let (after, finished) = sort_node_class c nodeset in
      if finished then after else log_error e after

  -- One round over ObjectTypes, Objects, Methods and Variables.
  unfoldable pub sort_round : Nodeset ua → Nodeset ua × Bool
  sort_round nodeset =
      let (s1, done1) = sort_node_class NodeClass.object_type nodeset in
      let (s2, done2) = sort_node_class NodeClass.object s1 in
      let (s3, done3) = sort_node_class NodeClass.method s2 in
      let (s4, done4) = sort_node_class NodeClass.variable s3 in
      (s4, done1 && (done2 && (done3 && done4)))

  -- The second `retry:`. Every retry puts at least one node into `sortedNodes`.
  unfoldable pub sort_instances : ℕ → Nodeset ua → Nodeset ua × Bool
  sort_instances zero nodeset = (log_error out_of_fuel nodeset, false)
  sort_instances (suc fuel) nodeset =
      let (after, finished) = sort_round nodeset in
      let again = sort_instances fuel after in
      if finished
      then (after, true)
      else (if nodeset.sorted_nodes.size == after.sorted_nodes.size
          then (log_error infinite_loop after, false)
          else again)

  -- The nodes that the second loop has to place, and one more round.
  unfoldable pub rounds : Nodeset ua → ℕ
  rounds nodeset = suc (
      (nodeset.nodes NodeClass.object_type).size
      + ((nodeset.nodes NodeClass.object).size
          + ((nodeset.nodes NodeClass.method).size + (nodeset.nodes NodeClass.variable).size)))

  -- `for(i = 0; i < nodeset->allNodes.size; i++)` over the pointers, from the front.
  unfoldable pub link_ref : Nodeset ua → Reference ua.NodeId → Reference ua.NodeId
  link_ref nodeset ref = record ref { target_ptr = find_by_node_id ua nodeset ref.target }

  unfoldable pub link_refs : Nodeset ua → List (Reference ua.NodeId) → List (Reference ua.NodeId)
  link_refs nodeset = map (link_ref nodeset)

  unfoldable pub link_nodes : List NodePtr → Nodeset ua → Nodeset ua
  link_nodes [] nodeset = nodeset
  link_nodes (p ∷ rest) nodeset = link_nodes rest (record nodeset {
    heap =
        update nodeset.heap p
          (record (nodeset.heap p) { refs = link_refs nodeset (nodeset.heap p).refs });
  })

  unfoldable pub reset_done : List NodePtr → (NodePtr → Node ua.NodeId) → NodePtr → Node ua.NodeId
  reset_done [] heap = heap
  reset_done (p ∷ rest) heap = reset_done rest (update heap p (record (heap p) { is_done = false }))

-- `qsort` of the C library with `compareNodeByNodeId`: a permutation that the comparison calls
-- sorted. Which one, where ids are equal, is not specified.
pub record QSort (ua : Ua) : Type 0 where
  pub qsort : (NodePtr → ua.NodeId) → List NodePtr → List NodePtr
  pub qsort_length :
      (key : NodePtr → ua.NodeId) (xs : List NodePtr) → length (qsort key xs) ≡ length xs
  pub qsort_count :
      (key : NodePtr → ua.NodeId) (xs : List NodePtr) (p : NodePtr)
      → count p (qsort key xs) ≡ count p xs
  pub qsort_sorted :
      (key : NodePtr → ua.NodeId) (xs : List NodePtr) (i j : ℕ)
      → i ≤ j
      → j < length xs
      → ua.order (key (get_or (qsort key xs) i null_ptr)) (key (get_or (qsort key xs) j null_ptr))
        ≢ more

module _ (ua : Ua) (q : QSort ua) where
  -- Only the first `size` cells are sorted.
  unfoldable pub sort_all_nodes : Nodeset ua → Nodeset ua
  sort_all_nodes nodeset = record nodeset {
    all_nodes = record all_nodes {
      nodes =
          q.qsort (λ p. (nodeset.heap p).id) (Container.contents all_nodes)
          ++ drop all_nodes.size all_nodes.nodes;
    };
  }
    where
      open nodeset use {all_nodes}

  -- The first half of `Nodeset_sort`: `allNodes` is sorted and the references are resolved.
  unfoldable pub link : Nodeset ua → Nodeset ua
  link nodeset =
      let sorted = sort_all_nodes nodeset in
      link_nodes ua (Container.contents sorted.all_nodes) sorted

  -- The classes of types, in the order in which they are sorted.
  unfoldable pub sort_all_types : Nodeset ua → Nodeset ua
  sort_all_types nodeset = sort_types ua NodeClass.view views (
      sort_types ua NodeClass.variable_type variable_type_hierarchy (
        sort_types ua NodeClass.data_type data_type_hierarchy
          (sort_types ua NodeClass.reference_type reference_type_hierarchy nodeset)))

  unfoldable pub sort : Nodeset ua → Nodeset ua × Bool
  sort nodeset =
      let typed = sort_all_types (link nodeset) in
      let (after, finished) = sort_instances ua (rounds ua typed) typed in
      (
        record after { heap = reset_done ua (Container.contents after.all_nodes) after.heap },
        finished,
      )
