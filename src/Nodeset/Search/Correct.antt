-- ===== src/Nodeset/Search/Correct.antt =====
-- The binary search finds the node of an id whenever the array holds one.
use mathlib.Core.Logic.{dif_pos, dif_neg}
use mathlib.Core.WellFounded.{Acc}
use native.Mathlib.Bridge.{le_prop}
use native.Mathlib.Decide.{dec_lt}
use open62541_nodeset_loader.Base.{
  ℕ, suc, Falls, Acc_of_bound, ◌+◌, ◌≤◌, ◌<◌, ◌≡◌, refl, sym, ap, ◌∙◌, ◌≢◌, ◌⊎◌, inl, inr, List,
  Option, none, some, get_or, arith,
}
use open62541_nodeset_loader.Ua.{Ua, Order, less, eq, more, flip}
use open62541_nodeset_loader.Container.{NodePtr, null_ptr}
use open62541_nodeset_loader.Node.{Node}
use open62541_nodeset_loader.Nodeset.{Nodeset}
use open62541_nodeset_loader.Nodeset.Search.{
  Window, width, mid, right_half, left_half, right_half-Falls, left_half-Falls, find_loop, whole,
  find_by_node_id,
}

Order-cases : (o : Order) → (o ≡ less) ⊎ ((o ≡ eq) ⊎ (o ≡ more))
Order-cases less = inl refl
Order-cases eq = inr (inl refl)
Order-cases more = inr (inr refl)

module _ (ua : Ua) where
  open ua use {NodeId, order, order_refl, order_eq, order_flip, less_trans}

  pub ne_of_less : (a b : NodeId) → order a b ≡ less → a ≢ b
  ne_of_less a b h e = cc (rw e at h, order_refl b)

  pub less_of_not_more : (a b c : NodeId) → order a b ≢ more → order b c ≡ less → order a c ≡ less
  less_of_not_more a b c n h = elim (Order-cases (order a b)) [
    | inl l ↦ less_trans a b c l h
    | inr (inl e) ↦ rw (order_eq a b e) h
    | inr (inr m) ↦ absurd (n m)
  ]

  pub more_of_not_more : (a b c : NodeId) → order a b ≢ more → order a c ≡ more → order c b ≡ less
  more_of_not_more a b c n h = elim (Order-cases (order a b)) [
    | inl l ↦ less_trans c a b (order_flip a c ∙ ap flip h) l
    | inr (inl e) ↦ rw (← order_eq a b e) (order_flip a c ∙ ap flip h)
    | inr (inr m) ↦ absurd (n m)
  ]

module _ (ua : Ua) (ids : NodePtr → ua.NodeId) (nodes : List NodePtr) where
  abbrev pub id_at : ℕ → ua.NodeId
  id_at i = ids (get_or nodes i null_ptr)

  -- The first `n` pointers of the array are sorted by the ids of their nodes.
  abbrev pub IsSortedById : ℕ → Type 0
  IsSortedById n = (i j : ℕ) → i ≤ j → j < n → ua.order (id_at i) (id_at j) ≢ more

  -- A hit stands in the array and has the id; after a miss no pointer in the range has it.
  abbrev pub Locates : ua.NodeId → ℕ → ℕ → Option NodePtr → Type 0
  Locates key lo hi (some p) = (i : ℕ) × (i < hi) × (get_or nodes i null_ptr ≡ p) × (ids p ≡ key)
  Locates key lo hi none = (i : ℕ) → lo ≤ i → i < hi → id_at i ≢ key

  module _ (n : ℕ) (sorted : IsSortedById n) (key : ua.NodeId) where
    Locates-right_half :
        (w : Window) (o : Option NodePtr)
        → w.left < w.right
        → w.right ≤ n
        → ua.order (id_at (mid w)) key ≡ less
        → Locates key (mid w + 1) w.right o
        → Locates key w.left w.right o
    Locates-right_half w (some p) h b l found = found
    Locates-right_half w none h b l missed = λ i p q. elim (dec_lt (mid w) i) [
      | yes above ↦ missed i (omega arith) q
      | no below ↦ ne_of_less ua (id_at i) key (
          less_of_not_more ua (id_at i) (id_at (mid w)) key
            (sorted i (mid w) (omega arith) (omega arith)) l)
    ]

    Locates-left_half :
        (w : Window) (o : Option NodePtr)
        → w.left < w.right
        → w.right ≤ n
        → ua.order (id_at (mid w)) key ≡ more
        → Locates key w.left (mid w) o
        → Locates key w.left w.right o
    Locates-left_half w (some p) h b l (i, q, e, f) = (i, omega arith, e, f)
    Locates-left_half w none h b l missed = λ i p q. elim (dec_lt i (mid w)) [
      | yes below ↦ missed i p below
      | no above ↦ λ e.
          ne_of_less ua key (id_at i)
            (more_of_not_more ua (id_at (mid w)) (id_at i) key
              (sorted (mid w) i (omega arith) (omega arith)) l)
            (sym e)
    ]

-- The ids of the nodes on a heap.
abbrev pub ids_of : (ua : Ua) → (NodePtr → Node ua.NodeId) → NodePtr → ua.NodeId
ids_of ua heap p = (heap p).id

module _ (ua : Ua) (heap : NodePtr → Node ua.NodeId) (nodes : List NodePtr) (n : ℕ)
    (sorted : IsSortedById ua (ids_of ua heap) nodes n) (key : ua.NodeId) where
  abbrev ids : NodePtr → ua.NodeId
  ids = ids_of ua heap

  find_loop-Locates :
      (w : Window) (acc : Acc (Falls width) w)
      → w.right ≤ n
      → Locates ua ids nodes key w.left w.right (find_loop ua heap nodes key w acc)
  unfolding find_loop
  find_loop-Locates w (Acc.intro _ inner) b = elim (dec_lt w.left w.right) [
    | no empty ↦ rw (dif_neg (dec_lt w.left w.right) empty) (λ i p q. absurd (omega arith))
    | yes h ↦
        rw (dif_pos (dec_lt w.left w.right) le_prop h)
          (elim (Order-cases (ua.order (id_at ua ids nodes (mid w)) key)) [
            | inl l ↦ rw l (
                Locates-right_half ua ids nodes n sorted key w _ h b l
                  (find_loop-Locates (right_half w) (inner _ (right_half-Falls w h)) b))
            | inr (inl e) ↦ rw e (mid w, omega arith, refl, ua.order_eq _ _ e)
            | inr (inr m) ↦ rw m (
                Locates-left_half ua ids nodes n sorted key w _ h b m
                  (find_loop-Locates (left_half w) (inner _ (left_half-Falls w h)) (omega arith)))
          ])
  ]

-- On an array that is sorted by id, the search returns the address of a node with the id, or NULL
-- if no node of the array has it.
pub find_by_node_id-Locates :
    (ua : Ua) (nodeset : Nodeset ua) (key : ua.NodeId)
    → IsSortedById ua (ids_of ua nodeset.heap) nodeset.all_nodes.nodes nodeset.all_nodes.size
    → Locates ua
        (ids_of ua nodeset.heap)
        nodeset.all_nodes.nodes
        key
        0
        nodeset.all_nodes.size
        (find_by_node_id ua nodeset key)
unfolding find_by_node_id
find_by_node_id-Locates ua nodeset key sorted =
    find_loop-Locates ua nodeset.heap nodeset.all_nodes.nodes nodeset.all_nodes.size sorted key
      (whole nodeset.all_nodes.size)
      (Acc_of_bound width (suc nodeset.all_nodes.size) (whole nodeset.all_nodes.size) (omega arith))
      (omega arith)
