-- ===== src/Nodeset/Sort/Link.antt =====
-- The first half of `Nodeset_sort`: `allNodes` is sorted by id, and each reference of its nodes
-- gets a pointer to its target, or NULL if no node of the nodeset has that id.
use mathlib.Core.Path.{fun_ext}
use open62541_nodeset_loader.Base.{
  ◌<◌, ◌≡◌, refl, sym, subst, ap, ◌∙◌, inl, inr, ◌⊎◌, Bool, true, false, List, [], ◌∷◌, map, none,
  count, ◌==◌, ==_iff, Bool-cases, arith,
}
use open62541_nodeset_loader.Ua.{Ua}
use open62541_nodeset_loader.Container.{NodePtr, NodeContainer}
use open62541_nodeset_loader.Node.{Reference, Node}
use open62541_nodeset_loader.Nodeset.{Nodeset, update}
use open62541_nodeset_loader.Nodeset.Search.Correct.{
  IsSortedById, Locates, ids_of, find_by_node_id-Locates,
}
use open62541_nodeset_loader.Nodeset.Sort.{link_ref, link_refs, link_nodes}
use open62541_nodeset_loader.Nodeset.Sort.Invariant.{refs_of}

module _ (ua : Ua) where
  -- The target of each reference is found among the nodes, or is not there.
  abbrev pub Resolved : (NodePtr → ua.NodeId) → NodeContainer → List (Reference ua.NodeId) → Type 0
  Resolved ids all [] = Unit {0}
  Resolved ids all (ref ∷ rest) =
      Locates ua ids all.nodes ref.target 0 all.size ref.target_ptr × Resolved ids all rest

  -- A reference without what `link` writes.
  abbrev pub unlinked : Reference ua.NodeId → Reference ua.NodeId
  unlinked ref = record ref { target_ptr = none }

  abbrev IsSorted : Nodeset ua → Type 0
  IsSorted s = IsSortedById ua (ids_of ua s.heap) s.all_nodes.nodes s.all_nodes.size

  link_refs-Resolved :
      (s : Nodeset ua)
      → IsSorted s
      → (refs : List (Reference ua.NodeId))
      → Resolved (ids_of ua s.heap) s.all_nodes (link_refs ua s refs)
  unfolding link_refs link_ref
  link_refs-Resolved s sorted [] = tt
  link_refs-Resolved s sorted (ref ∷ rest) =
      (find_by_node_id-Locates ua s ref.target sorted, link_refs-Resolved s sorted rest)

  map-unlinked-link_refs :
      (s : Nodeset ua) (refs : List (Reference ua.NodeId))
      → map unlinked (link_refs ua s refs) ≡ map unlinked refs
  unfolding link_refs link_ref
  map-unlinked-link_refs s [] = refl
  map-unlinked-link_refs s (ref ∷ rest) = ap (◌∷◌ (unlinked ref)) (map-unlinked-link_refs s rest)

  -- The nodeset with the references of one node resolved.
  abbrev link_node : NodePtr → Nodeset ua → Nodeset ua
  link_node p s = record s {
    heap = update s.heap p (record (s.heap p) { refs = link_refs ua s (s.heap p).refs });
  }

  -- Only the target pointers change.
  pub record Links (s t : Nodeset ua) : Type 0 where
    pub nodes : (p : NodePtr) → t.heap p ≡ record (s.heap p) { refs = (t.heap p).refs }
    pub refs : (p : NodePtr) → map unlinked (refs_of ua t p) ≡ map unlinked (refs_of ua s p)
    pub containers : t.nodes ≡ s.nodes
    pub all_nodes : t.all_nodes ≡ s.all_nodes
    pub sorted_nodes : t.sorted_nodes ≡ s.sorted_nodes

  link_node_self :
      (p : NodePtr) (s : Nodeset ua)
      → refs_of ua (link_node p s) p ≡ link_refs ua s (refs_of ua s p)
  link_node_self p s = ground arith

  link_node_other :
      (p q : NodePtr) (s : Nodeset ua)
      → (q == p) ≡ false
      → refs_of ua (link_node p s) q ≡ refs_of ua s q
  link_node_other p q s h = ground arith

  link_node-Links : (p : NodePtr) (s : Nodeset ua) → Links s (link_node p s)
  link_node-Links p s = record {
    nodes = λ q. elim (Bool-cases (q == p)) [
      | inl hit ↦ rw (hit, (==_iff q p).0 hit)
      | inr miss ↦ rw miss
    ];
    refs = λ q. elim (Bool-cases (q == p)) [
      | inl hit ↦ rw ((==_iff q p).0 hit, link_node_self p s) (map-unlinked-link_refs s _)
      | inr miss ↦ rw (link_node_other p q s miss)
    ];
    containers = refl;
    all_nodes = refl;
    sorted_nodes = refl;
  }

  Links-refl : (s : Nodeset ua) → Links s s
  Links-refl s = record {
    nodes = λ p. refl;
    refs = λ p. refl;
    containers = refl;
    all_nodes = refl;
    sorted_nodes = refl;
  }

  Links-trans : {s t u : Nodeset ua} → Links s t → Links t u → Links s u
  Links-trans {s} {t} {u} k l = record {
    nodes = λ p.
        l.nodes p ∙ ap (λ (n : Node ua.NodeId). record n { refs = (u.heap p).refs }) (k.nodes p);
    refs = λ p. l.refs p ∙ k.refs p;
    containers = l.containers ∙ k.containers;
    all_nodes = l.all_nodes ∙ k.all_nodes;
    sorted_nodes = l.sorted_nodes ∙ k.sorted_nodes;
  }

  pub link_nodes-Links : (ps : List NodePtr) (s : Nodeset ua) → Links s (link_nodes ua ps s)
  unfolding link_nodes
  link_nodes-Links [] s = Links-refl s
  link_nodes-Links (p ∷ ps) s =
      Links-trans (link_node-Links p s) (link_nodes-Links ps (link_node p s))

  pub ids_of-Links : (s t : Nodeset ua) → Links s t → ids_of ua t.heap ≡ ids_of ua s.heap
  ids_of-Links s t k = fun_ext (λ p. ap (λ (n : Node ua.NodeId). n.id) (k.nodes p))

  IsSorted-link_node : (p : NodePtr) (s : Nodeset ua) → IsSorted s → IsSorted (link_node p s)
  IsSorted-link_node p s sorted =
      subst (λ ids. IsSortedById ua ids s.all_nodes.nodes s.all_nodes.size)
        (sym (ids_of-Links s _ (link_node-Links p s))) sorted

  abbrev IsResolved : Nodeset ua → NodePtr → Type 0
  IsResolved s p = Resolved (ids_of ua s.heap) s.all_nodes (refs_of ua s p)

  not_hit : {A : Type 0} {b : Bool} → b ≡ false → (b ≡ true) ⊎ A → A
  not_hit f (inl t) = cc
  not_hit f (inr a) = a

  link_node-IsResolved :
      (p q : NodePtr) (s : Nodeset ua)
      → IsSorted s
      → ((q == p) ≡ true) ⊎ IsResolved s q
      → IsResolved (link_node p s) q
  link_node-IsResolved p q s sorted h =
      rw (ids_of-Links s _ (link_node-Links p s)) (elim (Bool-cases (q == p)) [
        | inl hit ↦
            rw ((==_iff q p).0 hit)
              (rw (link_node_self p s) (link_refs-Resolved s sorted (refs_of ua s p)))
        | inr miss ↦ rw (link_node_other p q s miss) (not_hit miss h)
      ])

  link_node-cases :
      (p q : NodePtr) (ps : List NodePtr) (s : Nodeset ua)
      → (0 < count q (p ∷ ps)) ⊎ IsResolved s q
      → (0 < count q ps) ⊎ (((q == p) ≡ true) ⊎ IsResolved s q)
  link_node-cases p q ps s (inr r) = inr (inr r)
  link_node-cases p q ps s (inl h) = elim (Bool-cases (q == p)) [
    | inl hit ↦ inr (inl hit)
    | inr miss ↦ inl (ground arith)
  ]

  step-IsResolved :
      (p q : NodePtr) (ps : List NodePtr) (s : Nodeset ua)
      → IsSorted s
      → (0 < count q ps) ⊎ (((q == p) ≡ true) ⊎ IsResolved s q)
      → (0 < count q ps) ⊎ IsResolved (link_node p s) q
  step-IsResolved p q ps s sorted (inl h) = inl h
  step-IsResolved p q ps s sorted (inr r) = inr (link_node-IsResolved p q s sorted r)

  pub link_nodes-Resolved :
      (ps : List NodePtr) (s : Nodeset ua) (q : NodePtr)
      → IsSorted s
      → (0 < count q ps) ⊎ IsResolved s q
      → IsResolved (link_nodes ua ps s) q
  unfolding link_nodes
  link_nodes-Resolved [] s q sorted (inl h) = absurd (omega arith)
  link_nodes-Resolved [] s q sorted (inr r) = r
  link_nodes-Resolved (p ∷ ps) s q sorted h =
      link_nodes-Resolved ps (link_node p s) q (IsSorted-link_node p s sorted)
        (step-IsResolved p q ps s sorted (link_node-cases p q ps s h))
