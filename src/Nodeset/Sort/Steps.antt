-- ===== src/Nodeset/Sort/Steps.antt =====
-- The loops of `Nodeset_sort` as runs of two kinds of steps: a node that is ready goes from its
-- container to `sortedNodes`, or an error is logged. What a step keeps, the whole sort keeps.
use open62541_nodeset_loader.Base.{
  ℕ, zero, suc, ◌+◌, ◌<◌, ◌≡◌, true, get_or, ltb, ltb→lt, ◌==◌, Bool-cases, inl, inr,
}
use open62541_nodeset_loader.Ua.{Ua}
use open62541_nodeset_loader.Container.{NodePtr, null_ptr}
use open62541_nodeset_loader.Node.{NodeClass}
use open62541_nodeset_loader.Nodeset.{Nodeset, SortError}
use open62541_nodeset_loader.Nodeset.Sort.{
  node_refs_ready, place, sort_pass, sort_retry, sort_node_class, log_error, sort_types, sort_round,
  sort_instances,
}

module _ (ua : Ua) where
  abbrev pub node_at : Nodeset ua → NodeClass → ℕ → NodePtr
  node_at s c i = get_or (s.nodes c).nodes i null_ptr

  pub data Step (s : Nodeset ua) : Nodeset ua → Type 0 where
    placed :
        (c : NodeClass) (i : ℕ)
        → i < (s.nodes c).size
        → node_refs_ready ua s.heap (node_at s c i) ≡ true
        → Step s (place ua c i (node_at s c i) s)
    logged : (e : SortError) → Step s (log_error ua e s)

  pub data Reach : Nodeset ua → Nodeset ua → Type 0 where
    here : (s : Nodeset ua) → Reach s s
    next : {s t u : Nodeset ua} → Step s t → Reach t u → Reach s u

  pub Reach-trans : {s t u : Nodeset ua} → Reach s t → Reach t u → Reach s u
  Reach-trans (here s) r = r
  Reach-trans (next st q) r = next st (Reach-trans q r)

  pub sort_pass-Reach :
      (fuel : ℕ) (c : NodeClass) (i : ℕ) (s : Nodeset ua) → Reach s (sort_pass ua fuel c i s)
  unfolding sort_pass
  sort_pass-Reach zero c i s = here s
  sort_pass-Reach (suc fuel) c i s = elim (Bool-cases (ltb i (s.nodes c).size)) [
    | inr over ↦ rw over (here s)
    | inl more ↦ elim (Bool-cases (node_refs_ready ua s.heap (node_at s c i))) [
      | inl ready ↦
          rw (more, ready)
            (next (placed c i (ltb→lt i (s.nodes c).size more) ready)
              (sort_pass-Reach fuel c i (place ua c i (node_at s c i) s)))
      | inr waits ↦ rw (more, waits) (sort_pass-Reach fuel c (i + 1) s)
    ]
  ]

  pub sort_retry-Reach :
      (fuel : ℕ) (c : NodeClass) (s : Nodeset ua) → Reach s (sort_retry ua fuel c s)
  unfolding sort_retry
  sort_retry-Reach zero c s = next (logged _) (here _)
  sort_retry-Reach (suc fuel) c s =
      let after = sort_pass ua (s.nodes c).size c 0 s in
      let first = sort_pass-Reach (s.nodes c).size c 0 s in
      elim (Bool-cases ((s.nodes c).size == (after.nodes c).size)) [
        | inl same ↦ rw same first
        | inr fewer ↦ rw fewer (Reach-trans first (sort_retry-Reach fuel c after))
      ]

  pub sort_node_class-Reach : (c : NodeClass) (s : Nodeset ua) → Reach s (sort_node_class ua c s).0
  unfolding sort_node_class
  sort_node_class-Reach c s = sort_retry-Reach _ c s

  pub sort_types-Reach :
      (c : NodeClass) (e : SortError) (s : Nodeset ua) → Reach s (sort_types ua c e s)
  unfolding sort_types
  sort_types-Reach c e s =
      let first = sort_node_class-Reach c s in
      elim (Bool-cases (sort_node_class ua c s).1) [
        | inl finished ↦ rw finished first
        | inr stuck ↦ rw stuck (Reach-trans first (next (logged e) (here _)))
      ]

  pub sort_round-Reach : (s : Nodeset ua) → Reach s (sort_round ua s).0
  unfolding sort_round
  sort_round-Reach s = Reach-trans (sort_node_class-Reach NodeClass.object_type s) (
      Reach-trans (sort_node_class-Reach NodeClass.object _) (
        Reach-trans (sort_node_class-Reach NodeClass.method _)
          (sort_node_class-Reach NodeClass.variable _)))

  pub sort_instances-Reach : (fuel : ℕ) (s : Nodeset ua) → Reach s (sort_instances ua fuel s).0
  unfolding sort_instances
  sort_instances-Reach zero s = next (logged _) (here _)
  sort_instances-Reach (suc fuel) s =
      let after = (sort_round ua s).0 in
      let first = sort_round-Reach s in
      elim (Bool-cases (sort_round ua s).1) [
        | inl finished ↦ rw finished first
        | inr more ↦ elim (Bool-cases (s.sorted_nodes.size == after.sorted_nodes.size)) [
          | inl same ↦ rw (more, same) (Reach-trans first (next (logged _) (here _)))
          | inr fewer ↦ rw (more, fewer) (Reach-trans first (sort_instances-Reach fuel after))
        ]
      ]
