-- ===== src/Nodeset/Sort/Fixpoint.antt =====
-- `Nodeset_sortNodeClass` ends at a fixpoint: no node that it leaves in the container is ready.
use open62541_nodeset_loader.Base.{
  ℕ, zero, suc, ◌+◌, ◌≤◌, ◌<◌, ◌≡◌, refl, sym, subst, ◌∙◌, ◌↔◌, inl, inr, true, false, ltb, ltb→lt,
  ltb→le, le→ltb, ◌==◌, ==_iff, Bool-cases, arith,
}
use native.Mathlib.Decide.{dec_lt}
use open62541_nodeset_loader.Ua.{Ua}
use open62541_nodeset_loader.Container.{NodePtr}
use open62541_nodeset_loader.Container.Laws.{remove-size}
use open62541_nodeset_loader.Node.{NodeClass, class_index}
use open62541_nodeset_loader.Nodeset.{Nodeset}
use open62541_nodeset_loader.Nodeset.Sort.{
  node_refs_ready, place, sort_pass, sort_retry, sort_node_class, log_error,
}
use open62541_nodeset_loader.Nodeset.Sort.Steps.{node_at}

module _ (ua : Ua) where
  -- No node in the container of the class is ready.
  abbrev pub Stuck : Nodeset ua → NodeClass → Type 0
  Stuck s c = (i : ℕ) → i < (s.nodes c).size → node_refs_ready ua s.heap (node_at ua s c i) ≡ false

  place-size :
      (c : NodeClass) (i : ℕ) (p : NodePtr) (s : Nodeset ua)
      → i < (s.nodes c).size
      → ((place ua c i p s).nodes c).size + 1 ≡ (s.nodes c).size
  unfolding place
  place-size c i p s h =
      rw ((==_iff (class_index c) (class_index c)).1 refl) (remove-size (s.nodes c) i h)

  pub sort_pass-size :
      (fuel : ℕ) (c : NodeClass) (i : ℕ) (s : Nodeset ua)
      → ((sort_pass ua fuel c i s).nodes c).size ≤ (s.nodes c).size
  unfolding sort_pass
  sort_pass-size zero c i s = omega arith
  sort_pass-size (suc fuel) c i s =
      let p = node_at ua s c i in
      ground (
        arith,
        place-size c i p s,
        sort_pass-size fuel c i (place ua c i p s),
        sort_pass-size fuel c (i + 1) s,
      )

  -- More rounds than nodes left change nothing: the loop of the code has ended by its own test.
  pub sort_pass_fuel :
      (f g : ℕ) (c : NodeClass) (i : ℕ) (s : Nodeset ua)
      → (s.nodes c).size ≤ f + i
      → (s.nodes c).size ≤ g + i
      → sort_pass ua f c i s ≡ sort_pass ua g c i s
  unfolding sort_pass
  sort_pass_fuel zero zero c i s h k = refl
  sort_pass_fuel zero (suc g) c i s h k = rw (le→ltb i (s.nodes c).size (omega arith))
  sort_pass_fuel (suc f) zero c i s h k = rw (le→ltb i (s.nodes c).size (omega arith))
  sort_pass_fuel (suc f) (suc g) c i s h k =
      let p = node_at ua s c i in
      ground (
        arith,
        place-size c i p s,
        sort_pass_fuel f g c i (place ua c i p s),
        sort_pass_fuel f g c (i + 1) s,
      )

  -- A pass that takes no node out has found none ready, and has changed nothing.
  sort_pass_fixed :
      (fuel : ℕ) (c : NodeClass) (i : ℕ) (s : Nodeset ua)
      → (s.nodes c).size ≤ fuel + i
      → ((sort_pass ua fuel c i s).nodes c).size ≡ (s.nodes c).size
      → (sort_pass ua fuel c i s ≡ s)
        × ((j : ℕ)
            → i ≤ j
            → j < (s.nodes c).size
            → node_refs_ready ua s.heap (node_at ua s c j) ≡ false)
  unfolding sort_pass
  sort_pass_fixed zero c i s b e = (refl, λ j p q. absurd (omega arith))
  sort_pass_fixed (suc fuel) c i s b e = elim (Bool-cases (ltb i (s.nodes c).size)) [
    | inr over ↦ (rw over, λ j p q. absurd (omega (arith, ltb→le i (s.nodes c).size over)))
    | inl more ↦ elim (Bool-cases (node_refs_ready ua s.heap (node_at ua s c i))) [
      | inl ready ↦ absurd (
          omega (
            arith,
            ltb→lt i (s.nodes c).size more,
            place-size c i (node_at ua s c i) s,
            sort_pass-size fuel c i (place ua c i (node_at ua s c i) s),
            (rw (more, ready) at e),
          ))
      | inr waits ↦
          let (same, rest) =
            sort_pass_fixed fuel c (i + 1) s (omega arith) (rw (more, waits) at e) in
          (
            rw (more, waits) same,
            λ j p q. elim (dec_lt i j) [
              | yes behind ↦ rest j (omega arith) q
              | no not_behind ↦
                  let here : i ≡ j = omega arith in
                  subst (λ k. node_refs_ready ua s.heap (node_at ua s c k) ≡ false) here waits
            ],
          )
    ]
  ]

  sort_retry-size :
      (fuel : ℕ) (c : NodeClass) (s : Nodeset ua)
      → ((sort_retry ua fuel c s).nodes c).size ≤ (s.nodes c).size
  unfolding sort_retry log_error
  sort_retry-size zero c s = omega arith
  sort_retry-size (suc fuel) c s =
      let after = sort_pass ua (s.nodes c).size c 0 s in
      ground (arith, sort_pass-size (s.nodes c).size c 0 s, sort_retry-size fuel c after)

  sort_retry-Stuck :
      (fuel : ℕ) (c : NodeClass) (s : Nodeset ua)
      → (s.nodes c).size < fuel
      → Stuck (sort_retry ua fuel c s) c
  unfolding sort_retry
  sort_retry-Stuck zero c s h = absurd (omega arith)
  sort_retry-Stuck (suc fuel) c s h =
      let after = sort_pass ua (s.nodes c).size c 0 s in
      elim (Bool-cases ((s.nodes c).size == (after.nodes c).size)) [
        | inl same ↦
            let (e, all) =
              sort_pass_fixed (s.nodes c).size c 0 s (omega arith)
                (sym ((==_iff (s.nodes c).size (after.nodes c).size).0 same)) in
            rw same (rw e (λ i p. all i (omega arith) p))
        | inr fewer ↦
            rw fewer (
              sort_retry-Stuck fuel c after (ground (arith, sort_pass-size (s.nodes c).size c 0 s)))
      ]

  sort_pass_log :
      (fuel : ℕ) (c : NodeClass) (i : ℕ) (s : Nodeset ua) → (sort_pass ua fuel c i s).log ≡ s.log
  unfolding sort_pass place
  sort_pass_log zero c i s = refl
  sort_pass_log (suc fuel) c i s =
      let p = node_at ua s c i in
      elim (Bool-cases (ltb i (s.nodes c).size)) [
        | inr over ↦ rw over
        | inl more ↦ elim (Bool-cases (node_refs_ready ua s.heap p)) [
          | inl ready ↦ rw (more, ready) (sort_pass_log fuel c i (place ua c i p s))
          | inr waits ↦ rw (more, waits) (sort_pass_log fuel c (i + 1) s)
        ]
      ]

  sort_retry_log :
      (fuel : ℕ) (c : NodeClass) (s : Nodeset ua)
      → (s.nodes c).size < fuel
      → (sort_retry ua fuel c s).log ≡ s.log
  unfolding sort_retry
  sort_retry_log zero c s h = absurd (omega arith)
  sort_retry_log (suc fuel) c s h =
      let after = sort_pass ua (s.nodes c).size c 0 s in
      let first : after.log ≡ s.log = sort_pass_log (s.nodes c).size c 0 s in
      elim (Bool-cases ((s.nodes c).size == (after.nodes c).size)) [
        | inl same ↦ rw same first
        | inr fewer ↦
            let enough : (after.nodes c).size < fuel =
              ground (arith, sort_pass-size (s.nodes c).size c 0 s) in
            rw fewer (sort_retry_log fuel c after enough ∙ first)
      ]

  sort_retry_same :
      (f g : ℕ) (c : NodeClass) (s : Nodeset ua)
      → (s.nodes c).size < f
      → (s.nodes c).size < g
      → sort_retry ua f c s ≡ sort_retry ua g c s
  unfolding sort_retry
  sort_retry_same zero g c s h k = absurd (omega arith)
  sort_retry_same (suc f) zero c s h k = absurd (omega arith)
  sort_retry_same (suc f) (suc g) c s h k =
      let after = sort_pass ua (s.nodes c).size c 0 s in
      ground (arith, sort_pass-size (s.nodes c).size c 0 s, sort_retry_same f g c after)

  -- The retry loop of Nodeset_sortNodeClass ends by its own test within one round more than the
  -- container has nodes: with any larger bound f it logs nothing, so that it has not run out of
  -- fuel, and it leaves the same nodeset as with any other such bound g.
  pub sort_retry_fuel :
      (f g : ℕ) (c : NodeClass) (s : Nodeset ua)
      → (s.nodes c).size < f
      → (s.nodes c).size < g
      → ((sort_retry ua f c s).log ≡ s.log) × (sort_retry ua f c s ≡ sort_retry ua g c s)
  sort_retry_fuel f g c s h k = (sort_retry_log f c s h, sort_retry_same f g c s h k)

  -- A run of `Nodeset_sortNodeClass` logs nothing.
  pub sort_node_class_log :
      (c : NodeClass) (s : Nodeset ua) → (sort_node_class ua c s).0.log ≡ s.log
  unfolding sort_node_class
  sort_node_class_log c s = sort_retry_log _ c s (omega arith)

  -- When `Nodeset_sortNodeClass` returns, every node left in the container has to wait, and the
  -- result is true exactly when none is left.
  pub sort_node_class-Stuck :
      (c : NodeClass) (s : Nodeset ua)
      → Stuck (sort_node_class ua c s).0 c
        × (((sort_node_class ua c s).1 ≡ true) ↔ (((sort_node_class ua c s).0.nodes c).size ≡ 0))
  unfolding sort_node_class
  sort_node_class-Stuck c s = (sort_retry-Stuck _ c s (omega arith), ==_iff _ 0)

  pub sort_node_class-size :
      (c : NodeClass) (s : Nodeset ua)
      → ((sort_node_class ua c s).0.nodes c).size ≤ (s.nodes c).size
  unfolding sort_node_class
  sort_node_class-size c s = sort_retry-size _ c s
