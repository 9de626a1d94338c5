-- ===== src/Tests/Sort.antt =====
-- `Nodeset_sort` on small nodesets.
use native.Mathlib.Decide.{dec_lt}
use open62541_nodeset_loader.Base.{
  ℕ, zero, suc, ◌++◌, ◌<◌, ◌+◌, ◌≡◌, ◌↔◌, ◌⊎◌, inl, inr, refl, sym, subst, Bool-cases, true, false,
  [], ◌∷◌, map, count, ◌==◌, if◌then◌else◌, arith,
}
use open62541_nodeset_loader.Container.{NodeContainer, contents}
use open62541_nodeset_loader.Nodeset.{Nodeset, reference_type_hierarchy}
use open62541_nodeset_loader.Node.{NodeClass, node_new}
use open62541_nodeset_loader.Nodeset.Search.{find_by_node_id}
use open62541_nodeset_loader.Nodeset.Sort.{
  QSort, node_refs_ready, must_wait, sort_all_types, rounds, sort, sort_instances, link, sort_round,
  sort_node_class, sort_types, log_error, place, sort_pass, sort_retry, ref_ready, refs_ready,
  link_nodes, link_refs, link_ref, reset_done, sort_all_nodes,
}
use open62541_nodeset_loader.Container.{add, remove, put, grow, realloc_nodes, dec_size}
use open62541_nodeset_loader.Container.Laws.{IsValid, add-contents, remove-count}
use open62541_nodeset_loader.Nodeset.Search.Correct.{
  ids_of, IsSortedById, Locates, find_by_node_id-Locates,
}
use open62541_nodeset_loader.Nodeset.Sort.Invariant.{WaitsFor, refs_of, IsDependencyOrder}
use open62541_nodeset_loader.Nodeset.Sort.Conserve.{held}
use open62541_nodeset_loader.Nodeset.Sort.Fixpoint.{
  Stuck, sort_node_class-Stuck, sort_pass_fuel, sort_retry_fuel,
}
use open62541_nodeset_loader.Nodeset.Sort.Rounds.{AllPlaced}
use open62541_nodeset_loader.Nodeset.Sort.Link.{Resolved, unlinked}
use open62541_nodeset_loader.Nodeset.Sort.Fuel.{fuel_ends}
use open62541_nodeset_loader.Nodeset.Sort.Result.{
  IsFresh, Blocked, sort-IsDependencyOrder, sort-items, sort-Resolved, sort-is_done, sort-Ends,
}
use open62541_nodeset_loader.Nodeset.Sort.Acyclic.{instances, sort_acyclic, sort_without_instances}
use open62541_nodeset_loader.Samples.Ids.{sample_ua}
use open62541_nodeset_loader.Samples.Sorting.{insertion_qsort, insertion_sort}
use open62541_nodeset_loader.Samples.Nodesets.{part_nodeset, circle_nodeset}

program : Unit {0}
unfolding node_refs_ready must_wait sort_all_types rounds sort sort_instances link sort_round
    sort_node_class sort_types log_error place sort_pass sort_retry ref_ready refs_ready link_nodes
    link_refs link_ref reset_done sort_all_nodes find_by_node_id insertion_sort add remove put grow
    realloc_nodes dec_size node_new dec_lt
program = tt

part_sorted :
    (contents (sort sample_ua (insertion_qsort sample_ua) part_nodeset).0.sorted_nodes ≡ 2 ∷ 1 ∷ [])
    × ((sort sample_ua (insertion_qsort sample_ua) part_nodeset).1 ≡ true)
unfolding program
part_sorted = (refl, refl)

circle_sorted :
    (contents (sort sample_ua (insertion_qsort sample_ua) circle_nodeset).0.sorted_nodes ≡ [])
    × ((sort sample_ua (insertion_qsort sample_ua) circle_nodeset).0.log
        ≡ reference_type_hierarchy ∷ [])
    × ((sort sample_ua (insertion_qsort sample_ua) circle_nodeset).1 ≡ true)
unfolding program
circle_sorted = (refl, refl, refl)

part_IsFresh : IsFresh sample_ua part_nodeset
unfolding node_new
part_IsFresh = record {
  containers = valid;
  all_nodes = omega arith;
  sorted_nodes = omega arith;
  nothing_sorted = refl;
  nothing_done = λ p. ground arith;
}
  where
    valid : (c : NodeClass) → IsValid (part_nodeset.nodes c)
    valid NodeClass.object = omega arith
    valid _ = omega arith

circle_IsFresh : IsFresh sample_ua circle_nodeset
unfolding node_new
circle_IsFresh = record {
  containers = valid;
  all_nodes = omega arith;
  sorted_nodes = omega arith;
  nothing_sorted = refl;
  nothing_done = λ p. ground arith;
}
  where
    valid : (c : NodeClass) → IsValid (circle_nodeset.nodes c)
    valid NodeClass.object = omega arith
    valid _ = omega arith

abbrev sample_qsort : QSort sample_ua
sample_qsort = insertion_qsort sample_ua

abbrev part_sort : Nodeset sample_ua
part_sort = (sort sample_ua sample_qsort part_nodeset).0

-- A container without a free cell.
abbrev full : NodeContainer
full = record { nodes = 7 ∷ 8 ∷ 7 ∷ []; size = 3; capacity = 3 }

sort-IsDependencyOrder_example :
    IsDependencyOrder sample_ua (refs_of sample_ua part_sort) [] (2 ∷ 1 ∷ [])
unfolding program
sort-IsDependencyOrder_example =
    sort-IsDependencyOrder sample_ua sample_qsort part_nodeset part_IsFresh

sort-items_example : held part_sort.nodes 1 + count 1 (contents part_sort.sorted_nodes) ≡ 1
sort-items_example = sort-items sample_ua sample_qsort part_nodeset part_IsFresh 1

sort-Resolved_example :
    Resolved sample_ua
      (ids_of sample_ua part_sort.heap)
      part_sort.all_nodes
      (refs_of sample_ua part_sort 1)
    × (map (unlinked sample_ua) (refs_of sample_ua part_sort 1)
        ≡ map (unlinked sample_ua) (refs_of sample_ua part_nodeset 1))
sort-Resolved_example =
    sort-Resolved sample_ua sample_qsort part_nodeset part_IsFresh 1 (omega arith)

sort-is_done_example : (part_sort.heap 2).is_done ≡ false
sort-is_done_example = sort-is_done sample_ua sample_qsort part_nodeset part_IsFresh 2 (omega arith)

sort-Ends_example :
    ((sort sample_ua sample_qsort part_nodeset).1 ≡ true → AllPlaced sample_ua part_sort)
    × ((sort sample_ua sample_qsort part_nodeset).1 ≡ false
        → ¬ AllPlaced sample_ua part_sort
          × Blocked sample_ua part_sort NodeClass.object_type
          × Blocked sample_ua part_sort NodeClass.object
          × Blocked sample_ua part_sort NodeClass.method
          × Blocked sample_ua part_sort NodeClass.variable)
    × (fuel_ends part_sort.log ≡ fuel_ends part_nodeset.log)
sort-Ends_example = sort-Ends sample_ua sample_qsort part_nodeset part_IsFresh

sort_without_instances_example : (sort sample_ua sample_qsort circle_nodeset).1 ≡ true
sort_without_instances_example =
    sort_without_instances sample_ua sample_qsort circle_nodeset circle_IsFresh
      (refl, refl, refl, refl)

-- The variable waits for the object, which comes before it by the rank.
abbrev part_rank : ℕ → ℕ
part_rank p = if p == 1 then 1 else 0

abbrev Waits : ℕ → ℕ → Type 0
Waits p x =
    ((part_rank x < part_rank p) × (0 < instances part_nodeset.nodes x))
    ⊎ (0 < count x (contents part_sort.sorted_nodes))

Waits-one : (x : ℕ) → WaitsFor sample_ua (refs_of sample_ua part_sort 1) x → Waits 1 x
unfolding program
Waits-one x (inl (e, m)) =
    let e' : 2 ≡ x = cc in
    inl (
      subst (λ y. (part_rank y < part_rank 1) × (0 < instances part_nodeset.nodes y)) e'
        (omega arith))
Waits-one x (inr (inl (e, m))) = cc
Waits-one x (inr (inr b)) = absurd b

Waits-two : (x : ℕ) → WaitsFor sample_ua (refs_of sample_ua part_sort 2) x → Waits 2 x
unfolding program
Waits-two x (inl (e, m)) = cc
Waits-two x (inr b) = absurd b

part-Waits :
    (p x : ℕ)
    → 0 < instances part_nodeset.nodes p
    → WaitsFor sample_ua (refs_of sample_ua part_sort p) x
    → Waits p x
part-Waits p x h w = elim (Bool-cases (p == 1)) [
  | inl one ↦
      let e : 1 ≡ p = ground arith in
      subst (λ y. Waits y x) e
        (Waits-one x (subst (λ y. WaitsFor sample_ua (refs_of sample_ua part_sort y) x) (sym e) w))
  | inr other ↦
      let e : 2 ≡ p = ground arith in
      subst (λ y. Waits y x) e
        (Waits-two x (subst (λ y. WaitsFor sample_ua (refs_of sample_ua part_sort y) x) (sym e) w))
]

sort_acyclic_example :
    ((sort sample_ua sample_qsort part_nodeset).1 ≡ true) × AllPlaced sample_ua part_sort
sort_acyclic_example =
    sort_acyclic sample_ua sample_qsort part_nodeset part_IsFresh part_rank part-Waits

sort_node_class-Stuck_example :
    Stuck sample_ua (sort_node_class sample_ua NodeClass.variable part_nodeset).0 NodeClass.variable
    × (((sort_node_class sample_ua NodeClass.variable part_nodeset).1 ≡ true) ↔ (
        ((sort_node_class sample_ua NodeClass.variable part_nodeset).0.nodes
          NodeClass.variable).size
        ≡ 0))
sort_node_class-Stuck_example = sort_node_class-Stuck sample_ua NodeClass.variable part_nodeset

sort_pass_fuel_example :
    sort_pass sample_ua 1 NodeClass.variable 0 part_nodeset
    ≡ sort_pass sample_ua 9 NodeClass.variable 0 part_nodeset
sort_pass_fuel_example =
    sort_pass_fuel sample_ua 1 9 NodeClass.variable 0 part_nodeset (omega arith) (omega arith)

sort_retry_fuel_example :
    ((sort_retry sample_ua 2 NodeClass.variable part_nodeset).log ≡ part_nodeset.log)
    × (sort_retry sample_ua 2 NodeClass.variable part_nodeset
        ≡ sort_retry sample_ua 9 NodeClass.variable part_nodeset)
sort_retry_fuel_example =
    sort_retry_fuel sample_ua 2 9 NodeClass.variable part_nodeset (omega arith) (omega arith)

sort_nodes_sorted :
    IsSortedById sample_ua (ids_of sample_ua part_nodeset.heap) (2 ∷ 1 ∷ 0 ∷ 0 ∷ []) 2
unfolding node_new
sort_nodes_sorted zero zero h k = λ e. cc
sort_nodes_sorted zero (suc j) h k = λ e. ground arith
sort_nodes_sorted (suc i) zero h k = absurd (omega arith)
sort_nodes_sorted (suc i) (suc j) h k = λ e. ground arith

abbrev ordered_nodeset : Nodeset sample_ua
ordered_nodeset = record part_nodeset {
  all_nodes = record { nodes = 2 ∷ 1 ∷ 0 ∷ 0 ∷ []; size = 2; capacity = 4 };
}

find_by_node_id-Locates_example :
    Locates sample_ua
      (ids_of sample_ua part_nodeset.heap)
      (2 ∷ 1 ∷ 0 ∷ 0 ∷ [])
      500
      0
      2
      (find_by_node_id sample_ua ordered_nodeset 500)
find_by_node_id-Locates_example =
    find_by_node_id-Locates sample_ua ordered_nodeset 500 sort_nodes_sorted

add-contents_example :
    IsValid (add true full 9).0
    × (contents (add true full 9).0 ≡ contents full ++ 9 ∷ [])
    × ((add true full 9).0.size ≡ full.size + 1)
add-contents_example = add-contents full 9 (omega arith)

remove-count_example :
    count 7 (contents (remove full 0)) + (if 7 == 7 then 1 else 0) ≡ count 7 (contents full)
remove-count_example = remove-count full 0 7 (omega arith) (omega arith)
