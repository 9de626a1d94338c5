-- ===== src/Nodeset/Sort/Invariant.antt =====
-- The invariant of the sort: `isDone` marks the nodes in `sortedNodes`, and each of these stands
-- behind all nodes that it has to wait for.
use mathlib.Core.Path.{fun_ext}
use open62541_nodeset_loader.Base.{
  ℕ, ◌+◌, ◌<◌, ◌≡◌, refl, ◌↔◌, ◌⊎◌, inl, inr, true, false, List, [], ◌∷◌, ◌++◌, Option, none, some,
  count, count-append, ◌==◌, if◌then◌else◌, Bool-cases, arith,
}
use open62541_nodeset_loader.Ua.{Ua}
use open62541_nodeset_loader.Container.{NodePtr, contents}
use open62541_nodeset_loader.Container.Laws.{IsValid, add-contents, remove-IsValid}
use open62541_nodeset_loader.Node.{NodeClass, class_index, Reference, Node}
use open62541_nodeset_loader.Nodeset.{Nodeset}
use open62541_nodeset_loader.Nodeset.Sort.{
  must_wait, ref_ready, refs_ready, node_refs_ready, place, log_error,
}
use open62541_nodeset_loader.Nodeset.Sort.Steps.{Step, placed, logged, Reach, here, next, node_at}

module _ (ua : Ua) where
  -- One of the references makes its node wait for the node at `q`: it is an inverse reference to
  -- `q`, or the forward reference to `q` as the type definition.
  abbrev pub WaitsFor : List (Reference ua.NodeId) → NodePtr → Type 0
  WaitsFor [] q = ⊥
  WaitsFor (ref ∷ rest) q =
      ((ref.target_ptr ≡ some q) × (must_wait ua ref ≡ true)) ⊎ WaitsFor rest q

  abbrev pub refs_of : Nodeset ua → NodePtr → List (Reference ua.NodeId)
  refs_of s p = (s.heap p).refs

  -- In the list, that follows on `seen`, every node has the nodes that it waits for before it.
  abbrev pub IsDependencyOrder :
      (NodePtr → List (Reference ua.NodeId)) → List NodePtr → List NodePtr → Type 0
  IsDependencyOrder refs seen [] = Unit {0}
  IsDependencyOrder refs seen (p ∷ rest) =
      ((q : NodePtr) → WaitsFor (refs p) q → 0 < count q seen)
      × IsDependencyOrder refs (seen ++ p ∷ []) rest

  pub refs_ready_sound :
      (heap : NodePtr → Node ua.NodeId) (refs : List (Reference ua.NodeId)) (q : NodePtr)
      → refs_ready ua heap refs ≡ true
      → WaitsFor refs q
      → (heap q).is_done ≡ true
  unfolding refs_ready ref_ready
  refs_ready_sound heap [] q h w = absurd w
  refs_ready_sound heap (ref ∷ rest) q h (inl (e, m)) = ground arith
  refs_ready_sound heap (ref ∷ rest) q h (inr w) = refs_ready_sound heap rest q (ground arith) w

  ref_not_ready :
      (heap : NodePtr → Node ua.NodeId) (ref : Reference ua.NodeId) (o : Option NodePtr)
      → ref_ready ua heap ref o ≡ false
      → (q : NodePtr) × (o ≡ some q) × (must_wait ua ref ≡ true) × ((heap q).is_done ≡ false)
  unfolding ref_ready
  ref_not_ready heap ref none h = cc
  ref_not_ready heap ref (some q) h = (q, refl, ground arith, ground arith)

  -- A node that is not ready waits for one that is not done.
  pub refs_ready_complete :
      (heap : NodePtr → Node ua.NodeId) (refs : List (Reference ua.NodeId))
      → refs_ready ua heap refs ≡ false
      → (q : NodePtr) × WaitsFor refs q × ((heap q).is_done ≡ false)
  unfolding refs_ready ref_ready
  refs_ready_complete heap [] h = cc
  refs_ready_complete heap (ref ∷ rest) h =
      elim (Bool-cases (ref_ready ua heap ref ref.target_ptr)) [
        | inl ready ↦ let (q, w, d) = refs_ready_complete heap rest (ground arith) in (q, inr w, d)
        | inr blocked ↦
            let (q, e, m, d) = ref_not_ready heap ref ref.target_ptr blocked in (q, inl (e, m), d)
      ]

  append-IsDependencyOrder :
      (refs : NodePtr → List (Reference ua.NodeId)) (seen xs : List NodePtr) (p : NodePtr)
      → IsDependencyOrder refs seen xs
      → ((q : NodePtr) → WaitsFor (refs p) q → 0 < count q seen + count q xs)
      → IsDependencyOrder refs seen (xs ++ p ∷ [])
  append-IsDependencyOrder refs seen [] p h w = (λ q v. omega (arith, w q v), tt)
  append-IsDependencyOrder refs seen (x ∷ xs) p h w = (
    h.0,
    append-IsDependencyOrder refs (seen ++ x ∷ []) xs p h.1
        (λ q v. omega (arith, w q v, count-append q seen (x ∷ []))),
  )

  pub record Inv (s : Nodeset ua) : Type 0 where
    pub containers : (c : NodeClass) → IsValid (s.nodes c)
    pub sorted : IsValid s.sorted_nodes
    pub marks :
        (p : NodePtr) → ((s.heap p).is_done ≡ true) ↔ (0 < count p (contents s.sorted_nodes))
    pub ordered : IsDependencyOrder (refs_of s) [] (contents s.sorted_nodes)

  pub refs_of-place :
      (c : NodeClass) (i : ℕ) (p : NodePtr) (s : Nodeset ua)
      → refs_of (place ua c i p s) ≡ refs_of s
  unfolding place
  refs_of-place c i p s = fun_ext (λ q. ground arith)

  pub sorted-place :
      (c : NodeClass) (i : ℕ) (p : NodePtr) (s : Nodeset ua)
      → IsValid s.sorted_nodes
      → IsValid (place ua c i p s).sorted_nodes
        × (contents (place ua c i p s).sorted_nodes ≡ contents s.sorted_nodes ++ p ∷ [])
        × ((place ua c i p s).sorted_nodes.size ≡ s.sorted_nodes.size + 1)
  unfolding place
  sorted-place c i p s v = add-contents s.sorted_nodes p v

  containers-place :
      (c : NodeClass) (i : ℕ) (p : NodePtr) (s : Nodeset ua) (d : NodeClass)
      → i < (s.nodes c).size
      → IsValid (s.nodes c)
      → IsValid (s.nodes d)
      → IsValid ((place ua c i p s).nodes d)
  unfolding place
  containers-place c i p s d h v w = elim (Bool-cases (class_index d == class_index c)) [
    | inl same ↦ rw same (remove-IsValid (s.nodes c) i v h)
    | inr other ↦ rw other w
  ]

  marks-place :
      (c : NodeClass) (i : ℕ) (p : NodePtr) (s : Nodeset ua) (q : NodePtr)
      → ((place ua c i p s).heap q).is_done ≡ (if q == p then true else (s.heap q).is_done)
  unfolding place
  marks-place c i p s q = ground arith

  place-Inv :
      (c : NodeClass) (i : ℕ) (s : Nodeset ua)
      → i < (s.nodes c).size
      → node_refs_ready ua s.heap (node_at ua s c i) ≡ true
      → Inv s
      → Inv (place ua c i (node_at ua s c i) s)
  unfolding node_refs_ready
  place-Inv c i s h ready v =
      let p = node_at ua s c i in
      let (valid, e, _) = sorted-place c i p s v.sorted in
      record {
        containers = λ d. containers-place c i p s d h (v.containers c) (v.containers d);
        sorted = valid;
        marks = λ q.
            rw (e, marks-place c i p s q, count-append q (contents s.sorted_nodes) (p ∷ []))
              (ground (arith, v.marks q));
        ordered =
            rw (e, refs_of-place c i p s)
              (append-IsDependencyOrder (refs_of s) [] (contents s.sorted_nodes) p v.ordered (λ q w.
                omega (arith, (v.marks q).0 (refs_ready_sound s.heap (refs_of s p) q ready w))));
      }

  pub Step-Inv : {s t : Nodeset ua} → Step ua s t → Inv s → Inv t
  unfolding log_error
  Step-Inv (placed c i h ready) v = place-Inv c i _ h ready v
  Step-Inv (logged e) v = record {
    containers = v.containers;
    sorted = v.sorted;
    marks = v.marks;
    ordered = v.ordered;
  }

  pub Reach-Inv : {s t : Nodeset ua} → Reach ua s t → Inv s → Inv t
  Reach-Inv (here s) v = v
  Reach-Inv (next st r) v = Reach-Inv r (Step-Inv st v)
