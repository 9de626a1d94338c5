-- ===== src/Nodeset/Sort/Fuel.antt =====
-- The loops of `Nodeset_sort` end by their own tests: the log never tells that one ran out of fuel.
use open62541_nodeset_loader.Base.{
  ℕ, zero, suc, ◌+◌, ◌≤◌, ◌≡◌, refl, ◌∙◌, inl, inr, List, [], ◌∷◌, ◌++◌, ◌==◌, Bool-cases, arith,
}
use open62541_nodeset_loader.Ua.{Ua}
use open62541_nodeset_loader.Container.{NodePtr}
use open62541_nodeset_loader.Node.{
  NodeClass, object, object_type, variable, data_type, method, reference_type, variable_type, view,
}
use open62541_nodeset_loader.Nodeset.{
  Nodeset, SortError, reference_type_hierarchy, data_type_hierarchy, variable_type_hierarchy, views,
  infinite_loop, out_of_fuel,
}
use open62541_nodeset_loader.Nodeset.Sort.{
  sort_node_class, log_error, sort_types, sort_round, sort_instances, rounds, sort_all_types,
  link_nodes, sort_all_nodes, QSort, link,
}
use open62541_nodeset_loader.Nodeset.Sort.Steps.{sort_round-Reach}
use open62541_nodeset_loader.Nodeset.Sort.Invariant.{Inv, Reach-Inv}
use open62541_nodeset_loader.Nodeset.Sort.Fixpoint.{sort_node_class_log}
use open62541_nodeset_loader.Nodeset.Sort.Rounds.{sort_round-rounds, rounds_pos}

unfoldable pub fuel_end : SortError → ℕ
fuel_end out_of_fuel = 1
fuel_end _ = 0

-- How many loops of the model ended for want of fuel.
unfoldable pub fuel_ends : List SortError → ℕ
fuel_ends [] = 0
fuel_ends (e ∷ rest) = fuel_end e + fuel_ends rest

fuel_ends-++ :
    (log : List SortError) (e : SortError)
    → fuel_end e ≡ 0
    → fuel_ends (log ++ e ∷ []) ≡ fuel_ends log
unfolding fuel_ends
fuel_ends-++ [] e h = omega arith
fuel_ends-++ (x ∷ log) e h = omega (arith, fuel_ends-++ log e h)

module _ (ua : Ua) where
  log_error-fuel_ends :
      (e : SortError) (s : Nodeset ua)
      → fuel_end e ≡ 0
      → fuel_ends (log_error ua e s).log ≡ fuel_ends s.log
  unfolding log_error
  log_error-fuel_ends e s h = fuel_ends-++ s.log e h

  sort_types-fuel_ends :
      (c : NodeClass) (e : SortError) (s : Nodeset ua)
      → fuel_end e ≡ 0
      → fuel_ends (sort_types ua c e s).log ≡ fuel_ends s.log
  unfolding sort_types
  sort_types-fuel_ends c e s h =
      let after = (sort_node_class ua c s).0 in
      let quiet = sort_node_class_log ua c s in
      elim (Bool-cases (sort_node_class ua c s).1) [
        | inl finished ↦ rw (finished, quiet) refl
        | inr left ↦ rw left (log_error-fuel_ends e after h ∙ rw quiet refl)
      ]

  pub sort_all_types-fuel_ends :
      (q : QSort ua) (s : Nodeset ua) → fuel_ends (sort_all_types ua q s).log ≡ fuel_ends s.log
  unfolding sort_all_types fuel_end
  sort_all_types-fuel_ends q s =
      let s1 = sort_types ua reference_type reference_type_hierarchy s in
      let s2 = sort_types ua data_type data_type_hierarchy s1 in
      let s3 = sort_types ua variable_type variable_type_hierarchy s2 in
      sort_types-fuel_ends view views s3 refl
      ∙ (sort_types-fuel_ends variable_type variable_type_hierarchy s2 refl
          ∙ (sort_types-fuel_ends data_type data_type_hierarchy s1 refl
              ∙ sort_types-fuel_ends reference_type reference_type_hierarchy s refl))

  sort_round_log : (s : Nodeset ua) → (sort_round ua s).0.log ≡ s.log
  unfolding sort_round
  sort_round_log s =
      let s1 = (sort_node_class ua object_type s).0 in
      let s2 = (sort_node_class ua object s1).0 in
      let s3 = (sort_node_class ua method s2).0 in
      sort_node_class_log ua variable s3
      ∙ (sort_node_class_log ua method s2
          ∙ (sort_node_class_log ua object s1 ∙ sort_node_class_log ua object_type s))

  pub sort_instances-fuel_ends :
      (fuel : ℕ) (s : Nodeset ua)
      → Inv ua s
      → rounds ua s ≤ fuel
      → fuel_ends (sort_instances ua fuel s).0.log ≡ fuel_ends s.log
  unfolding sort_instances
  sort_instances-fuel_ends zero s v h = absurd (rounds_pos ua s h)
  sort_instances-fuel_ends (suc fuel) s v h =
      let after = (sort_round ua s).0 in
      let w = Reach-Inv ua (sort_round-Reach ua s) v in
      let quiet : fuel_ends after.log ≡ fuel_ends s.log = rw (sort_round_log s) refl in
      elim (Bool-cases (sort_round ua s).1) [
        | inl finished ↦ rw finished quiet
        | inr open_ ↦ elim (Bool-cases (s.sorted_nodes.size == after.sorted_nodes.size)) [
          | inl same ↦
              rw (open_, same)
                (log_error-fuel_ends infinite_loop after (unfold fuel_end in refl) ∙ quiet)
          | inr fewer ↦
              rw (open_, fewer)
                (sort_instances-fuel_ends fuel after w
                    (omega (arith, sort_round-rounds ua s v fewer))
                  ∙ quiet)
        ]
      ]

  link_nodes_log : (ps : List NodePtr) (s : Nodeset ua) → (link_nodes ua ps s).log ≡ s.log
  unfolding link_nodes
  link_nodes_log [] s = refl
  link_nodes_log (p ∷ ps) s = link_nodes_log ps _

  pub link_log : (q : QSort ua) (s : Nodeset ua) → (link ua q s).log ≡ s.log
  unfolding link sort_all_nodes
  link_log q s = link_nodes_log _ _
