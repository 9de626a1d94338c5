-- ===== src/Nodeset/Sort/Linked.antt =====
-- The first half of `Nodeset_sort` as a whole: `qsort` on `allNodes`, then every reference.
use open62541_nodeset_loader.Base.{
  ℕ, ◌<◌, ◌≡◌, refl, sym, ap, ◌∙◌, inl, List, ◌++◌, map, length, length-take, drop, get_or,
  get_or-take, take-append_of_le, take_all, count, arith,
}
use open62541_nodeset_loader.Ua.{Ua}
use open62541_nodeset_loader.Container.{NodePtr, null_ptr, contents}
use open62541_nodeset_loader.Container.Laws.{IsValid}
use open62541_nodeset_loader.Nodeset.{Nodeset}
use open62541_nodeset_loader.Nodeset.Search.Correct.{IsSortedById, ids_of}
use open62541_nodeset_loader.Nodeset.Sort.{QSort, sort_all_nodes, link}
use open62541_nodeset_loader.Nodeset.Sort.Link.{
  Resolved, unlinked, ids_of-Links, link_nodes-Links, link_nodes-Resolved,
}
use open62541_nodeset_loader.Nodeset.Sort.Invariant.{refs_of}

module _ (ua : Ua) (q : QSort ua) where
  module _ (s : Nodeset ua) (v : IsValid s.all_nodes) where
    abbrev sorted_items : List NodePtr
    sorted_items = q.qsort (ids_of ua s.heap) (contents s.all_nodes)

    length-sorted_items : length sorted_items ≡ s.all_nodes.size
    length-sorted_items = omega (
      arith,
      q.qsort_length (ids_of ua s.heap) (contents s.all_nodes),
      length-take s.all_nodes.size s.all_nodes.nodes,
      v.cells,
      v.used,
    )

    sort_all_nodes-nodes :
        (sort_all_nodes ua q s).all_nodes.nodes
        ≡ sorted_items ++ drop s.all_nodes.size s.all_nodes.nodes
    unfolding sort_all_nodes
    sort_all_nodes-nodes = refl

    pub sort_all_nodes-contents : contents (sort_all_nodes ua q s).all_nodes ≡ sorted_items
    unfolding sort_all_nodes
    sort_all_nodes-contents =
        take-append_of_le s.all_nodes.size sorted_items _ (omega (arith, length-sorted_items))
        ∙ take_all s.all_nodes.size sorted_items (omega (arith, length-sorted_items))

    -- Reading below the size reads the sorted items.
    sort_all_nodes-get_or :
        (i : ℕ)
        → i < s.all_nodes.size
        → get_or (sort_all_nodes ua q s).all_nodes.nodes i null_ptr ≡ get_or sorted_items i null_ptr
    unfolding sort_all_nodes
    sort_all_nodes-get_or i h =
        sym (get_or-take s.all_nodes.size _ i null_ptr h)
        ∙ ap (λ xs. get_or xs i null_ptr) sort_all_nodes-contents

    sort_all_nodes-sorted :
        IsSortedById ua (ids_of ua s.heap) (sort_all_nodes ua q s).all_nodes.nodes s.all_nodes.size
    sort_all_nodes-sorted i j h k =
        rw (sort_all_nodes-get_or i (omega arith), sort_all_nodes-get_or j k)
          (q.qsort_sorted (ids_of ua s.heap) (contents s.all_nodes) i j h
            (omega (arith, length-take s.all_nodes.size s.all_nodes.nodes, v.cells, v.used)))

    -- After the first half of the sort the nodes are the same but for the pointers of their
    -- references, and every reference of a node of the nodeset is resolved.
    pub record Linked (t : Nodeset ua) : Type 0 where
      pub nodes : (p : NodePtr) → t.heap p ≡ record (s.heap p) { refs = (t.heap p).refs }
      pub refs :
          (p : NodePtr) → map (unlinked ua) (refs_of ua t p) ≡ map (unlinked ua) (refs_of ua s p)
      pub containers : t.nodes ≡ s.nodes
      pub sorted_nodes : t.sorted_nodes ≡ s.sorted_nodes
      pub ordered : IsSortedById ua (ids_of ua t.heap) t.all_nodes.nodes t.all_nodes.size
      pub items : (p : NodePtr) → count p (contents t.all_nodes) ≡ count p (contents s.all_nodes)
      pub resolved :
          (p : NodePtr)
          → 0 < count p (contents s.all_nodes)
          → Resolved ua (ids_of ua t.heap) t.all_nodes (refs_of ua t p)

    ids_of-link : ids_of ua (link ua q s).heap ≡ ids_of ua s.heap
    unfolding link sort_all_nodes
    ids_of-link = ids_of-Links ua _ _ (link_nodes-Links ua _ (sort_all_nodes ua q s))

    all_nodes-link : (link ua q s).all_nodes ≡ (sort_all_nodes ua q s).all_nodes
    unfolding link
    all_nodes-link = (link_nodes-Links ua _ (sort_all_nodes ua q s)).all_nodes

    sort_all_nodes-count :
        (p : NodePtr)
        → count p (contents (sort_all_nodes ua q s).all_nodes) ≡ count p (contents s.all_nodes)
    sort_all_nodes-count p =
        ap (count p) sort_all_nodes-contents
        ∙ q.qsort_count (ids_of ua s.heap) (contents s.all_nodes) p

    pub link-Linked : Linked (link ua q s)
    unfolding link sort_all_nodes
    link-Linked =
        let sorted = sort_all_nodes ua q s in
        let links = link_nodes-Links ua (contents sorted.all_nodes) sorted in
        record {
          nodes = links.nodes;
          refs = links.refs;
          containers = links.containers;
          sorted_nodes = links.sorted_nodes;
          ordered = rw (ids_of-link, all_nodes-link) sort_all_nodes-sorted;
          items = λ p. ap (λ c. count p (contents c)) all_nodes-link ∙ sort_all_nodes-count p;
          resolved = λ p h.
              link_nodes-Resolved ua (contents sorted.all_nodes) sorted p sort_all_nodes-sorted
                (inl (omega (arith, sort_all_nodes-count p)));
        }
