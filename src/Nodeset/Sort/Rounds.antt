-- ===== src/Nodeset/Sort/Rounds.antt =====
-- The loop over ObjectTypes, Objects, Methods and Variables: it ends, and it ends with nothing left
-- or with every node that is left waiting for another.
use open62541_nodeset_loader.Base.{
  ℕ, zero, suc, ◌≤◌, ◌<◌, ◌≡◌, refl, sym, subst, ap, ◌∙◌, ◌≢◌, inl, inr, Bool, true, false, ◌==◌,
  ==_iff, Bool-cases, arith,
}
use open62541_nodeset_loader.Ua.{Ua}
use open62541_nodeset_loader.Container.{NodeContainer}
use open62541_nodeset_loader.Node.{
  NodeClass, object, object_type, variable, data_type, method, reference_type, variable_type, view,
  class_index,
}
use open62541_nodeset_loader.Nodeset.{Nodeset}
use open62541_nodeset_loader.Nodeset.Sort.{
  sort_node_class, log_error, sort_round, sort_instances, rounds,
}
use open62541_nodeset_loader.Nodeset.Sort.Steps.{sort_node_class-Reach, sort_round-Reach}
use open62541_nodeset_loader.Nodeset.Sort.Invariant.{Inv, Reach-Inv}
use open62541_nodeset_loader.Nodeset.Sort.Conserve.{Reach-Keeps}
use open62541_nodeset_loader.Nodeset.Sort.Fixpoint.{Stuck, sort_node_class-Stuck}
use open62541_nodeset_loader.Nodeset.Sort.Frame.{sort_node_class-other, sort_node_class_idle}

module _ (ua : Ua) where
  -- No instance and no ObjectType is left to place.
  abbrev pub AllPlaced : Nodeset ua → Type 0
  AllPlaced s =
      ((s.nodes object_type).size ≡ 0)
      × ((s.nodes object).size ≡ 0)
      × ((s.nodes method).size ≡ 0)
      × ((s.nodes variable).size ≡ 0)

  -- None that is left is ready.
  abbrev pub AllStuck : Nodeset ua → Type 0
  AllStuck s = Stuck ua s object_type × Stuck ua s object × Stuck ua s method × Stuck ua s variable

  -- The result of a round tells whether all four containers are empty.
  sort_round-AllPlaced :
      (s : Nodeset ua)
      → ((sort_round ua s).1 ≡ true → AllPlaced (sort_round ua s).0)
        × ((sort_round ua s).1 ≡ false → ¬ AllPlaced (sort_round ua s).0)
  unfolding sort_round
  sort_round-AllPlaced s =
      let s1 = (sort_node_class ua object_type s).0 in
      let s2 = (sort_node_class ua object s1).0 in
      let s3 = (sort_node_class ua method s2).0 in
      ground (
        arith,
        sort_node_class-Stuck ua object_type s,
        sort_node_class-Stuck ua object s1,
        sort_node_class-Stuck ua method s2,
        sort_node_class-Stuck ua variable s3,
        sort_node_class-other ua object object_type refl s1,
        sort_node_class-other ua method object_type refl s2,
        sort_node_class-other ua variable object_type refl s3,
        sort_node_class-other ua method object refl s2,
        sort_node_class-other ua variable object refl s3,
        sort_node_class-other ua variable method refl s3,
      )

  -- A round without progress has changed nothing, and no node that is left is ready.
  sort_round_idle :
      (s : Nodeset ua)
      → Inv ua s
      → (sort_round ua s).0.sorted_nodes.size ≡ s.sorted_nodes.size
      → ((sort_round ua s).0 ≡ s) × AllStuck s
  unfolding sort_round
  sort_round_idle s v e =
      let s1 = (sort_node_class ua object_type s).0 in
      let s2 = (sort_node_class ua object s1).0 in
      let s3 = (sort_node_class ua method s2).0 in
      let v1 = Reach-Inv ua (sort_node_class-Reach ua object_type s) v in
      let v2 = Reach-Inv ua (sort_node_class-Reach ua object s1) v1 in
      let v3 = Reach-Inv ua (sort_node_class-Reach ua method s2) v2 in
      let g1 = (Reach-Keeps ua (sort_node_class-Reach ua object_type s) v).grows in
      let g2 = (Reach-Keeps ua (sort_node_class-Reach ua object s1) v1).grows in
      let g3 = (Reach-Keeps ua (sort_node_class-Reach ua method s2) v2).grows in
      let g4 = (Reach-Keeps ua (sort_node_class-Reach ua variable s3) v3).grows in
      let e1 : s1 ≡ s = sort_node_class_idle ua object_type s v (omega arith) in
      let e2 : s2 ≡ s1 = sort_node_class_idle ua object s1 v1 (omega arith) in
      let e3 : s3 ≡ s2 = sort_node_class_idle ua method s2 v2 (omega arith) in
      let e4 = sort_node_class_idle ua variable s3 v3 (omega arith) in
      (
        e4 ∙ (e3 ∙ (e2 ∙ e1)),
        (
          subst (λ x. Stuck ua x object_type) e1 (sort_node_class-Stuck ua object_type s).0,
          subst (λ x. Stuck ua x object) (e2 ∙ e1) (sort_node_class-Stuck ua object s1).0,
          subst (λ x. Stuck ua x method) (e3 ∙ (e2 ∙ e1)) (sort_node_class-Stuck ua method s2).0,
          subst (λ x. Stuck ua x variable) (e4 ∙ (e3 ∙ (e2 ∙ e1)))
              (sort_node_class-Stuck ua variable s3).0,
        ),
      )

  -- The other four containers are not touched.
  sort_round-types :
      (s : Nodeset ua)
      → ((sort_round ua s).0.nodes data_type ≡ s.nodes data_type)
        × ((sort_round ua s).0.nodes reference_type ≡ s.nodes reference_type)
        × ((sort_round ua s).0.nodes variable_type ≡ s.nodes variable_type)
        × ((sort_round ua s).0.nodes view ≡ s.nodes view)
  unfolding sort_round
  sort_round-types s =
      let s1 = (sort_node_class ua object_type s).0 in
      let s2 = (sort_node_class ua object s1).0 in
      let s3 = (sort_node_class ua method s2).0 in
      let keep = λ (d : NodeClass). λ (h : (class_index d == 1) ≡ false).
        λ (h' : (class_index d == 0) ≡ false). λ (k : (class_index d == 4) ≡ false).
          λ (k' : (class_index d == 2) ≡ false).
            sort_node_class-other ua variable d k' s3
            ∙ (sort_node_class-other ua method d k s2
                ∙ (sort_node_class-other ua object d h' s1
                    ∙ sort_node_class-other ua object_type d h s)) in
      (
        keep data_type refl refl refl refl,
        keep reference_type refl refl refl refl,
        keep variable_type refl refl refl refl,
        keep view refl refl refl refl,
      )

  -- A round that makes progress leaves fewer nodes for the next.
  pub sort_round-rounds :
      (s : Nodeset ua)
      → Inv ua s
      → ((s.sorted_nodes.size == (sort_round ua s).0.sorted_nodes.size) ≡ false)
      → rounds ua (sort_round ua s).0 < rounds ua s
  unfolding rounds
  sort_round-rounds s v h =
      let k = Reach-Keeps ua (sort_round-Reach ua s) v in
      let t = sort_round-types s in
      let size = λ (c : NodeContainer). c.size in
      let more : s.sorted_nodes.size ≢ (sort_round ua s).0.sorted_nodes.size = ground arith in
      omega (arith, k.sizes, k.grows, ap size t.0, ap size t.1, ap size t.2, ap size t.3)

  -- How the loop ends: its result is true exactly when everything is placed, and if it is false
  -- then no node that is left is ready.
  pub record Ends (s : Nodeset ua) (finished : Bool) : Type 0 where
    pub placed : finished ≡ true → AllPlaced s
    pub stuck : finished ≡ false → AllStuck s × ¬ AllPlaced s

  pub rounds_pos : (s : Nodeset ua) → rounds ua s ≤ 0 → ⊥
  rounds_pos s h = unfold rounds in omega arith

  pub sort_instances-Ends :
      (fuel : ℕ) (s : Nodeset ua)
      → Inv ua s
      → rounds ua s ≤ fuel
      → Ends (sort_instances ua fuel s).0 (sort_instances ua fuel s).1
  unfolding sort_instances log_error
  sort_instances-Ends zero s v h = absurd (rounds_pos s h)
  sort_instances-Ends (suc fuel) s v h =
      let after = (sort_round ua s).0 in
      let w = Reach-Inv ua (sort_round-Reach ua s) v in
      elim (Bool-cases (sort_round ua s).1) [
        | inl finished ↦
            rw finished
              (record { placed = λ e. (sort_round-AllPlaced s).0 finished; stuck = λ e. cc })
        | inr open_ ↦ elim (Bool-cases (s.sorted_nodes.size == after.sorted_nodes.size)) [
          | inl same ↦
              let (idle, stuck) =
                sort_round_idle s v
                  (sym ((==_iff s.sorted_nodes.size after.sorted_nodes.size).0 same)) in
              rw (open_, same)
                (record {
                  placed = λ e. cc;
                  stuck = λ e. (subst AllStuck (sym idle) stuck, (sort_round-AllPlaced s).1 open_);
                })
          | inr fewer ↦
              rw (open_, fewer)
                (sort_instances-Ends fuel after w (omega (arith, sort_round-rounds s v fewer)))
        ]
      ]
