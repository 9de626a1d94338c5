-- ===== src/Nodeset/Sort/Result.antt =====
-- `Nodeset_sort` on a nodeset that has just been read: the order of `sortedNodes`, what becomes of
-- every node, and what the result tells.
use mathlib.Core.Path.{fun_ext}
use open62541_nodeset_loader.Base.{
  ℕ, ◌+◌, ◌≤◌, ◌<◌, ◌≡◌, ap, ◌∙◌, inl, Bool, true, false, List, [], map, count, arith,
}
use open62541_nodeset_loader.Ua.{Ua}
use open62541_nodeset_loader.Container.{NodePtr, NodeContainer, contents}
use open62541_nodeset_loader.Container.Laws.{IsValid}
use open62541_nodeset_loader.Node.{
  NodeClass, object, object_type, variable, data_type, method, reference_type, variable_type, view,
  Node, Reference,
}
use open62541_nodeset_loader.Nodeset.{Nodeset}
use open62541_nodeset_loader.Nodeset.Search.Correct.{ids_of}
use open62541_nodeset_loader.Nodeset.Sort.{
  node_refs_ready, sort_all_types, sort_instances, rounds, QSort, link, sort,
}
use open62541_nodeset_loader.Nodeset.Sort.Steps.{
  node_at, Reach, Reach-trans, sort_types-Reach, sort_instances-Reach,
}
use open62541_nodeset_loader.Nodeset.Sort.Invariant.{
  WaitsFor, refs_of, IsDependencyOrder, Inv, Reach-Inv, refs_ready_complete,
}
use open62541_nodeset_loader.Nodeset.Sort.Conserve.{held, Keeps, Reach-Keeps, refs_of-Keeps}
use open62541_nodeset_loader.Nodeset.Sort.Fixpoint.{Stuck}
use open62541_nodeset_loader.Nodeset.Sort.Rounds.{AllPlaced, sort_instances-Ends}
use open62541_nodeset_loader.Nodeset.Sort.Fuel.{
  fuel_ends, sort_all_types-fuel_ends, sort_instances-fuel_ends, link_log,
}
use open62541_nodeset_loader.Nodeset.Sort.Link.{Resolved, unlinked}
use open62541_nodeset_loader.Nodeset.Sort.Marks.{reset_done-node, reset_done-is_done}
use open62541_nodeset_loader.Nodeset.Sort.Linked.{Linked, link-Linked}

module _ (ua : Ua) where
  -- A nodeset before its first sort.
  pub record IsFresh (s : Nodeset ua) : Type 0 where
    pub containers : (c : NodeClass) → IsValid (s.nodes c)
    pub all_nodes : IsValid s.all_nodes
    pub sorted_nodes : IsValid s.sorted_nodes
    pub nothing_sorted : s.sorted_nodes.size ≡ 0
    pub nothing_done : (p : NodePtr) → (s.heap p).is_done ≡ false

  -- A node that is left waits for a node that is not in `sortedNodes`.
  abbrev pub Blocked : Nodeset ua → NodeClass → Type 0
  Blocked t c =
      (i : ℕ)
      → i < (t.nodes c).size
      → (x : NodePtr) × WaitsFor ua (refs_of ua t (node_at ua t c i)) x
        × (count x (contents t.sorted_nodes) ≡ 0)

module _ (ua : Ua) (q : QSort ua) (s : Nodeset ua) (fresh : IsFresh ua s) where
  linked : Linked ua q s fresh.all_nodes (link ua q s)
  linked = link-Linked ua q s fresh.all_nodes

  contents-link : contents (link ua q s).sorted_nodes ≡ []
  contents-link = rw linked.sorted_nodes (rw fresh.nothing_sorted)

  link-Inv : Inv ua (link ua q s)
  link-Inv =
      let l = linked in
      record {
        containers = λ c. rw l.containers (fresh.containers c);
        sorted = rw l.sorted_nodes fresh.sorted_nodes;
        marks = λ p. (
          λ d. cc (ap (λ (n : Node ua.NodeId). n.is_done) (l.nodes p), fresh.nothing_done p),
          λ h. absurd (omega (arith, ap (count p) contents-link)),
        );
        ordered = rw contents-link tt;
      }

  -- Where the second half of the sort stands before the marks are reset.
  typed : Nodeset ua
  typed = sort_all_types ua q (link ua q s)

  after : Nodeset ua
  unfolding typed
  after = (sort_instances ua (rounds ua typed) typed).0

  typed-Reach : Reach ua (link ua q s) typed
  unfolding typed sort_all_types
  typed-Reach = Reach-trans ua (sort_types-Reach ua reference_type _ _) (
      Reach-trans ua (sort_types-Reach ua data_type _ _)
        (Reach-trans ua (sort_types-Reach ua variable_type _ _) (sort_types-Reach ua view _ _)))

  after-Reach : Reach ua (link ua q s) after
  unfolding after
  after-Reach = Reach-trans ua typed-Reach (sort_instances-Reach ua (rounds ua typed) typed)

  after-Inv : Inv ua after
  after-Inv = Reach-Inv ua after-Reach link-Inv

  after-Keeps : Keeps ua (link ua q s) after
  after-Keeps = Reach-Keeps ua after-Reach link-Inv

  sort-refs_of : refs_of ua (sort ua q s).0 ≡ refs_of ua after
  unfolding sort after typed
  sort-refs_of = fun_ext λ p.
      ap (λ (n : Node ua.NodeId). n.refs)
        (reset_done-node ua (contents after.all_nodes) after.heap p)

  -- In `sortedNodes` every node stands behind the nodes that it has to wait for.
  pub sort-IsDependencyOrder :
      IsDependencyOrder ua (refs_of ua (sort ua q s).0) [] (contents (sort ua q s).0.sorted_nodes)
  sort-IsDependencyOrder = rw sort-refs_of (unfold sort after typed in after-Inv.ordered)

  -- No node is lost, added or put twice: each is in `sortedNodes` or still in its container.
  pub sort-items :
      (p : NodePtr)
      → held (sort ua q s).0.nodes p + count p (contents (sort ua q s).0.sorted_nodes)
        ≡ held s.nodes p
  unfolding sort
  sort-items p =
      unfold after typed in
      omega (
        arith,
        after-Keeps.items p,
        ap (λ nodes. held nodes p) linked.containers,
        ap (count p) contents-link,
      )

  -- The containers are well formed and hold nothing new.
  pub sort-containers :
      (c : NodeClass)
      → IsValid ((sort ua q s).0.nodes c)
        × ((p : NodePtr)
            → count p (contents ((sort ua q s).0.nodes c)) ≤ count p (contents (s.nodes c)))
  unfolding sort after typed
  sort-containers c = (
    after-Inv.containers c,
    λ p. omega (
      arith,
      after-Keeps.shrinks c p,
      ap (λ (nodes : NodeClass → NodeContainer). count p (contents (nodes c))) linked.containers,
    ),
  )

  ids_of-sort : ids_of ua (sort ua q s).0.heap ≡ ids_of ua (link ua q s).heap
  unfolding sort after typed
  ids_of-sort = fun_ext λ p.
      ap (λ (n : Node ua.NodeId). n.id) (reset_done-node ua (contents after.all_nodes) after.heap p)
      ∙ ap (λ (n : Node ua.NodeId). n.id) (after-Keeps.nodes p)

  all_nodes-sort : (sort ua q s).0.all_nodes ≡ (link ua q s).all_nodes
  unfolding sort after typed
  all_nodes-sort = after-Keeps.all_nodes

  -- `allNodes` holds the same nodes.
  pub sort-all_nodes :
      (p : NodePtr) → count p (contents (sort ua q s).0.all_nodes) ≡ count p (contents s.all_nodes)
  sort-all_nodes p = ap (λ c. count p (contents c)) all_nodes-sort ∙ linked.items p

  -- What is read of a node without its references and its mark is as before.
  pub sort-heap :
      {A : Type 0} (f : Node ua.NodeId → A)
      → ((n : Node ua.NodeId) (b : Bool) → f (record n { is_done = b }) ≡ f n)
      → ((n : Node ua.NodeId) (refs : List (Reference ua.NodeId))
          → f (record n { refs = refs }) ≡ f n)
      → (p : NodePtr) → f ((sort ua q s).0.heap p) ≡ f (s.heap p)
  unfolding sort after typed
  sort-heap f marks refs p =
      (ap f (reset_done-node ua (contents after.all_nodes) after.heap p) ∙ marks _ _)
      ∙ ((ap f (after-Keeps.nodes p) ∙ marks _ _) ∙ (ap f (linked.nodes p) ∙ refs _ _))

  -- Every reference of every node points to the node of its target, or to NULL if no node of the
  -- nodeset has that id; nothing else about the references changes.
  pub sort-Resolved :
      (p : NodePtr)
      → 0 < count p (contents s.all_nodes)
      → Resolved ua
          (ids_of ua (sort ua q s).0.heap)
          (sort ua q s).0.all_nodes
          (refs_of ua (sort ua q s).0 p)
        × (map (unlinked ua) (refs_of ua (sort ua q s).0 p) ≡ map (unlinked ua) (refs_of ua s p))
  sort-Resolved p h =
      let e : refs_of ua (sort ua q s).0 ≡ refs_of ua (link ua q s) =
        sort-refs_of ∙ refs_of-Keeps ua (link ua q s) after after-Keeps in
      (rw (ids_of-sort, all_nodes-sort, e) (linked.resolved p h), rw e (linked.refs p))

  -- All marks are reset, so that a node that is not in `sortedNodes` is not taken for done later.
  pub sort-is_done :
      (p : NodePtr) → 0 < count p (contents s.all_nodes) → ((sort ua q s).0.heap p).is_done ≡ false
  unfolding sort after typed
  sort-is_done p h =
      reset_done-is_done ua (contents after.all_nodes) after.heap p
        (inl (omega (arith, linked.items p, ap (λ c. count p (contents c)) after-Keeps.all_nodes)))

  after-Blocked : (c : NodeClass) → Stuck ua after c → Blocked ua after c
  unfolding node_refs_ready
  after-Blocked c stuck i h =
      let (x, w, d) = refs_ready_complete ua after.heap _ (stuck i h) in
      (x, w, ground (arith, after-Inv.marks x))

  sort-Blocked : (c : NodeClass) → Blocked ua after c → Blocked ua (sort ua q s).0 c
  sort-Blocked c b = λ i h. rw sort-refs_of (unfold sort after typed in b i h)

  -- On a nodeset that has just been read (sound containers, nothing sorted yet and no node marked as
  -- done) Nodeset_sort ends: none of its loops runs out of fuel. It returns true exactly if no
  -- ObjectType, Object, Method or Variable is left; if it returns false, each of these that is left
  -- waits for a node that is not in sortedNodes.
  pub sort-Ends :
      ((sort ua q s).1 ≡ true → AllPlaced ua (sort ua q s).0)
      × ((sort ua q s).1 ≡ false
          → ¬ AllPlaced ua (sort ua q s).0
            × Blocked ua (sort ua q s).0 object_type
            × Blocked ua (sort ua q s).0 object
            × Blocked ua (sort ua q s).0 method
            × Blocked ua (sort ua q s).0 variable)
      × (fuel_ends (sort ua q s).0.log ≡ fuel_ends s.log)
  unfolding sort after typed
  sort-Ends =
      let e =
        sort_instances-Ends ua (rounds ua typed) typed (Reach-Inv ua typed-Reach link-Inv)
          (omega arith) in
      (
        λ h. e.placed h,
        λ h.
            let (stuck, rest) = e.stuck h in
            (
              rest,
              sort-Blocked object_type (after-Blocked object_type stuck.0),
              sort-Blocked object (after-Blocked object stuck.1),
              sort-Blocked method (after-Blocked method stuck.2),
              sort-Blocked variable (after-Blocked variable stuck.3),
            ),
        sort_instances-fuel_ends ua (rounds ua typed) typed (Reach-Inv ua typed-Reach link-Inv)
              (omega arith)
            ∙ (sort_all_types-fuel_ends ua q (link ua q s) ∙ ap fuel_ends (link_log ua q s)),
      )
