-- ===== src/Nodeset/Sort/Acyclic.antt =====
-- `Nodeset_sort` places every ObjectType, Object, Method and Variable, unless they wait in a circle
-- or for a node that cannot be placed.
use native.Mathlib.Decide.{dec_lt}
use open62541_nodeset_loader.Base.{
  ℕ, zero, suc, ◌+◌, ◌≤◌, ◌<◌, ◌≡◌, sym, subst, ap, ◌∙◌, inl, inr, ◌⊎◌, true, take, count,
  length-take, get_or, get_or-take, count-get_or, index_of_count, Bool-cases, arith,
}
use open62541_nodeset_loader.Ua.{Ua}
use open62541_nodeset_loader.Container.{NodePtr, NodeContainer, contents}
use open62541_nodeset_loader.Container.Laws.{IsValid}
use open62541_nodeset_loader.Node.{
  NodeClass, object, object_type, variable, data_type, method, reference_type, variable_type, view,
}
use open62541_nodeset_loader.Nodeset.{Nodeset}
use open62541_nodeset_loader.Nodeset.Sort.{QSort, sort}
use open62541_nodeset_loader.Nodeset.Sort.Invariant.{WaitsFor, refs_of}
use open62541_nodeset_loader.Nodeset.Sort.Rounds.{AllPlaced}
use open62541_nodeset_loader.Nodeset.Sort.Result.{
  IsFresh, Blocked, sort-Ends, sort-items, sort-containers,
}

-- How often a node stands among the ObjectTypes, Objects, Methods and Variables.
abbrev pub instances : (NodeClass → NodeContainer) → NodePtr → ℕ
instances nodes p =
    count p (contents (nodes object_type))
    + (count p (contents (nodes object))
        + (count p (contents (nodes method)) + count p (contents (nodes variable))))

-- An occurrence in a container has an index below the size.
index_in_container :
    (c : NodeContainer) (p : NodePtr)
    → 0 < count p (contents c)
    → (i : ℕ) × (i < c.size) × (get_or c.nodes i 0 ≡ p)
index_in_container c p h =
    let (i, b, e) = index_of_count p (contents c) h in
    let below : i < c.size = omega (arith, length-take c.size c.nodes) in
    (i, below, sym (get_or-take c.size c.nodes i 0 below) ∙ e)

-- A container that holds no pointer is empty.
empty_of_count :
    (c : NodeContainer) → IsValid c → ((p : NodePtr) → count p (contents c) ≡ 0) → c.size ≡ 0
empty_of_count c v none_held = elim (dec_lt 0 c.size) [
  | yes pos ↦ absurd (
      omega (
        arith,
        count-get_or (contents c) 0 (omega (arith, length-take c.size c.nodes, v.cells, v.used)),
        none_held (get_or (contents c) 0 0),
      ))
  | no zero_size ↦ omega arith
]

module _ (ua : Ua) (q : QSort ua) (s : Nodeset ua) (fresh : IsFresh ua s) (rank : NodePtr → ℕ)
    (waits : (p x : NodePtr)
      → 0 < instances s.nodes p
      → WaitsFor ua (refs_of ua (sort ua q s).0 p) x
      → ((rank x < rank p) × (0 < instances s.nodes x))
        ⊎ (0 < count x (contents (sort ua q s).0.sorted_nodes))) where
  abbrev t : Nodeset ua
  t = (sort ua q s).0

  shrinks :
      (c : NodeClass) (p : NodePtr)
      → count p (contents (t.nodes c)) ≤ count p (contents (s.nodes c))
  shrinks c = (sort-containers ua q s fresh c).1

  -- An instance that is not left has been placed.
  left_or_placed :
      (p : NodePtr) → instances s.nodes p ≤ instances t.nodes p + count p (contents t.sorted_nodes)
  left_or_placed p = omega (
    arith,
    sort-items ua q s fresh p,
    shrinks data_type p,
    shrinks reference_type p,
    shrinks variable_type p,
    shrinks view p,
  )

  not-Blocked :
      (c : NodeClass) (p : NodePtr)
      → Blocked ua t c
      → ((x : NodePtr) → rank x < rank p → instances t.nodes x ≡ 0)
      → 0 < instances s.nodes p
      → count p (contents (t.nodes c)) ≡ 0
  not-Blocked c p blocked ih here = elim (dec_lt 0 (count p (contents (t.nodes c)))) [
    | no none_left ↦ omega arith
    | yes left ↦
        let (i, b, e) = index_in_container (t.nodes c) p left in
        let (x, w, unplaced) = blocked i b in
        absurd
          (refute x unplaced (waits p x here (subst (λ y. WaitsFor ua (refs_of ua t y) x) e w)))
  ]
    where
      refute :
          (x : NodePtr)
          → count x (contents t.sorted_nodes) ≡ 0
          → ((rank x < rank p) × (0 < instances s.nodes x))
            ⊎ (0 < count x (contents t.sorted_nodes))
          → ⊥
      refute x unplaced (inl (lower, instance_)) = omega (arith, ih x lower, left_or_placed x)
      refute x unplaced (inr sorted) = omega arith

  module _
      (blocked : Blocked ua t object_type
        × Blocked ua t object
        × Blocked ua t method
        × Blocked ua t variable) where
    nothing_left : (n : ℕ) (p : NodePtr) → rank p < n → instances t.nodes p ≡ 0
    nothing_left zero p h = absurd (omega arith)
    nothing_left (suc n) p h =
        let ih = λ (x : NodePtr). λ (l : rank x < rank p). nothing_left n x (omega arith) in
        elim (dec_lt 0 (instances s.nodes p)) [
          | no absent ↦
              omega (
                arith,
                shrinks object_type p,
                shrinks object p,
                shrinks method p,
                shrinks variable p,
              )
          | yes present ↦ omega (
            arith,
            not-Blocked object_type p blocked.0 ih present,
            not-Blocked object p blocked.1 ih present,
            not-Blocked method p blocked.2 ih present,
            not-Blocked variable p blocked.3 ih present,
          )
        ]

    all_placed : AllPlaced ua t
    all_placed =
        let gone = λ (p : NodePtr). nothing_left (suc (rank p)) p (omega arith) in
        let valid = λ (c : NodeClass). (sort-containers ua q s fresh c).0 in
        (
          empty_of_count (t.nodes object_type) (valid object_type) (λ p. omega (arith, gone p)),
          empty_of_count (t.nodes object) (valid object) (λ p. omega (arith, gone p)),
          empty_of_count (t.nodes method) (valid method) (λ p. omega (arith, gone p)),
          empty_of_count (t.nodes variable) (valid variable) (λ p. omega (arith, gone p)),
        )

  -- On a nodeset that has just been read (sound containers, nothing sorted yet and no node marked as
  -- done): if the ObjectTypes, Objects, Methods and Variables wait for one another without a circle
  -- (each only for those of a lower rank) and otherwise only for nodes that are placed, Nodeset_sort
  -- returns true and places all of them.
  pub sort_acyclic : ((sort ua q s).1 ≡ true) × AllPlaced ua (sort ua q s).0
  sort_acyclic = elim (Bool-cases (sort ua q s).1) [
    | inl finished ↦ (finished, (sort-Ends ua q s fresh).0 finished)
    | inr failed ↦
        let f = (sort-Ends ua q s fresh).1 failed in absurd (f.0 (all_placed (f.1, f.2, f.3, f.4)))
  ]

-- Without ObjectTypes, Objects, Methods and Variables the sort reports success, also where the
-- classes of types could not be placed.
pub sort_without_instances :
    (ua : Ua) (q : QSort ua) (s : Nodeset ua)
    → IsFresh ua s
    → AllPlaced ua s
    → (sort ua q s).1 ≡ true
sort_without_instances ua q s fresh empty =
    (sort_acyclic ua q s fresh (λ p. 0) (λ p x held waits. absurd (omega (arith, no_instance p)))).0
  where
    no_instance : (p : NodePtr) → instances s.nodes p ≡ 0
    no_instance p = omega (
      arith,
      ap (λ n. count p (take n (s.nodes object_type).nodes)) empty.0,
      ap (λ n. count p (take n (s.nodes object).nodes)) empty.1,
      ap (λ n. count p (take n (s.nodes method).nodes)) empty.2,
      ap (λ n. count p (take n (s.nodes variable).nodes)) empty.3,
    )
