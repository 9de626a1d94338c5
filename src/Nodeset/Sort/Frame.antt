-- ===== src/Nodeset/Sort/Frame.antt =====
-- `Nodeset_sortNodeClass` leaves the containers of the other classes alone, and a call of it that
-- puts nothing into `sortedNodes` changes nothing at all.
use open62541_nodeset_loader.Base.{
  ℕ, zero, suc, ◌+◌, ◌<◌, ◌≡◌, refl, ap, inl, inr, false, ltb, ltb→lt, ◌==◌, Bool-cases, arith,
}
use open62541_nodeset_loader.Ua.{Ua}
use open62541_nodeset_loader.Container.{NodePtr}
use open62541_nodeset_loader.Node.{NodeClass, class_index}
use open62541_nodeset_loader.Nodeset.{Nodeset}
use open62541_nodeset_loader.Nodeset.Sort.{
  node_refs_ready, place, sort_pass, sort_retry, sort_node_class, log_error,
}
use open62541_nodeset_loader.Nodeset.Sort.Steps.{node_at, placed, sort_pass-Reach, sort_retry-Reach}
use open62541_nodeset_loader.Nodeset.Sort.Invariant.{Inv, Step-Inv, Reach-Inv, sorted-place}
use open62541_nodeset_loader.Nodeset.Sort.Conserve.{Reach-Keeps}

module _ (ua : Ua) where
  module _ (c d : NodeClass) (other : (class_index d == class_index c) ≡ false) where
    place-other : (i : ℕ) (p : NodePtr) (s : Nodeset ua) → (place ua c i p s).nodes d ≡ s.nodes d
    unfolding place
    place-other i p s = rw other

    sort_pass-other : (fuel i : ℕ) (s : Nodeset ua) → (sort_pass ua fuel c i s).nodes d ≡ s.nodes d
    unfolding sort_pass
    sort_pass-other zero i s = refl
    sort_pass-other (suc fuel) i s =
        let p = node_at ua s c i in
        ground (
          arith,
          place-other i p s,
          sort_pass-other fuel i (place ua c i p s),
          sort_pass-other fuel (i + 1) s,
        )

    sort_retry-other : (fuel : ℕ) (s : Nodeset ua) → (sort_retry ua fuel c s).nodes d ≡ s.nodes d
    unfolding sort_retry log_error
    sort_retry-other zero s = refl
    sort_retry-other (suc fuel) s =
        let after = sort_pass ua (s.nodes c).size c 0 s in
        ground (arith, sort_pass-other (s.nodes c).size 0 s, sort_retry-other fuel after)

    pub sort_node_class-other : (s : Nodeset ua) → (sort_node_class ua c s).0.nodes d ≡ s.nodes d
    unfolding sort_node_class
    sort_node_class-other s = sort_retry-other _ s

  sort_pass_idle :
      (fuel : ℕ) (c : NodeClass) (i : ℕ) (s : Nodeset ua)
      → Inv ua s
      → (sort_pass ua fuel c i s).sorted_nodes.size ≡ s.sorted_nodes.size
      → sort_pass ua fuel c i s ≡ s
  unfolding sort_pass
  sort_pass_idle zero c i s v e = refl
  sort_pass_idle (suc fuel) c i s v e = elim (Bool-cases (ltb i (s.nodes c).size)) [
    | inr over ↦ rw over
    | inl more ↦ elim (Bool-cases (node_refs_ready ua s.heap (node_at ua s c i))) [
      | inl ready ↦
          let p = node_at ua s c i in
          let w = Step-Inv ua (placed c i (ltb→lt i (s.nodes c).size more) ready) v in
          let k = Reach-Keeps ua (sort_pass-Reach ua fuel c i (place ua c i p s)) w in
          absurd
            (omega (arith, (sorted-place ua c i p s v.sorted).2, k.grows, (rw (more, ready) at e)))
      | inr waits ↦ rw (more, waits) (sort_pass_idle fuel c (i + 1) s v (rw (more, waits) at e))
    ]
  ]

  size_differs :
      (s t : Nodeset ua) (c : NodeClass)
      → t ≡ s
      → ((s.nodes c).size == (t.nodes c).size) ≡ false
      → ⊥
  size_differs s t c e f =
      let same = ap (λ (u : Nodeset ua). (u.nodes c).size) e in ground (arith, same, f)

  sort_retry_idle :
      (fuel : ℕ) (c : NodeClass) (s : Nodeset ua)
      → Inv ua s
      → (s.nodes c).size < fuel
      → (sort_retry ua fuel c s).sorted_nodes.size ≡ s.sorted_nodes.size
      → sort_retry ua fuel c s ≡ s
  unfolding sort_retry
  sort_retry_idle zero c s v h e = absurd (omega arith)
  sort_retry_idle (suc fuel) c s v h e =
      let after = sort_pass ua (s.nodes c).size c 0 s in
      let first = sort_pass-Reach ua (s.nodes c).size c 0 s in
      elim (Bool-cases ((s.nodes c).size == (after.nodes c).size)) [
        | inl same ↦ rw same (sort_pass_idle (s.nodes c).size c 0 s v (rw same at e))
        | inr fewer ↦
            let rest = Reach-Keeps ua (sort_retry-Reach ua fuel c after) (Reach-Inv ua first v) in
            let idle : after ≡ s =
              sort_pass_idle (s.nodes c).size c 0 s v
                (omega (arith, (Reach-Keeps ua first v).grows, rest.grows, (rw fewer at e))) in
            absurd (size_differs s after c idle fewer)
      ]

  pub sort_node_class_idle :
      (c : NodeClass) (s : Nodeset ua)
      → Inv ua s
      → (sort_node_class ua c s).0.sorted_nodes.size ≡ s.sorted_nodes.size
      → (sort_node_class ua c s).0 ≡ s
  unfolding sort_node_class
  sort_node_class_idle c s v e = sort_retry_idle _ c s v (omega arith) e
