-- ===== src/Nodeset/Sort/Conserve.antt =====
-- What the steps of the sort leave alone: no node is lost or put twice, and of the nodes only the
-- marks `isDone` change.
use mathlib.Core.Path.{fun_ext}
use open62541_nodeset_loader.Base.{
  ℕ, ◌+◌, ◌≤◌, ◌<◌, ◌≡◌, refl, sym, ap, ◌∙◌, if◌then◌else◌, inl, inr, Bool, true, [], ◌∷◌, count,
  count-append, ◌==◌, if◌then◌else◌, Bool-cases, ==_iff, arith,
}
use open62541_nodeset_loader.Ua.{Ua}
use open62541_nodeset_loader.Container.{NodePtr, NodeContainer, remove, contents}
use open62541_nodeset_loader.Container.Laws.{remove-count, remove-size}
use open62541_nodeset_loader.Node.{
  NodeClass, object, object_type, variable, data_type, method, reference_type, variable_type, view,
  Node, class_index,
}
use open62541_nodeset_loader.Nodeset.{Nodeset, SortError, update, set_class}
use open62541_nodeset_loader.Nodeset.Sort.{place, log_error}
use open62541_nodeset_loader.Nodeset.Sort.Steps.{Step, placed, logged, Reach, here, next, node_at}
use open62541_nodeset_loader.Nodeset.Sort.Invariant.{refs_of, Inv, Step-Inv, sorted-place}

-- A sum over the eight classes.
abbrev pub over_classes : (NodeClass → ℕ) → ℕ
over_classes f =
    f object
    + (f object_type
        + (f variable
            + (f data_type + (f method + (f reference_type + (f variable_type + f view))))))

-- How often a node stands in the eight containers.
abbrev pub held : (NodeClass → NodeContainer) → NodePtr → ℕ
held nodes p = over_classes (λ c. count p (contents (nodes c)))

-- How many nodes the eight containers hold.
abbrev pub held_size : (NodeClass → NodeContainer) → ℕ
held_size nodes = over_classes (λ c. (nodes c).size)

pub over_classes-set :
    (f : NodeContainer → ℕ) (nodes : NodeClass → NodeContainer) (c : NodeClass) (x : NodeContainer)
    → over_classes (λ d. f (set_class nodes c x d)) + f (nodes c)
      ≡ over_classes (λ d. f (nodes d)) + f x
over_classes-set f nodes object x = omega arith
over_classes-set f nodes _ x = omega arith

-- Different classes have different indices.
class_of : ℕ → NodeClass
class_of n =
    if n == 0
    then object
    else (if n == 1
        then object_type
        else (if n == 2
            then variable
            else (if n == 3
                then data_type
                else (if n == 4
                    then method
                    else (if n == 5
                        then reference_type
                        else (if n == 6 then variable_type else view))))))

class_of-index : (c : NodeClass) → class_of (class_index c) ≡ c
unfolding class_of
class_of-index object = refl
class_of-index _ = refl

class_index_injective : (c d : NodeClass) → class_index c ≡ class_index d → c ≡ d
class_index_injective c d e = sym (class_of-index c) ∙ (ap class_of e ∙ class_of-index d)

module _ (ua : Ua) where
  -- `t` comes from `s` by placing nodes: every node is still there as often, and apart from the
  -- marks the heap and `allNodes` are as they were.
  pub record Keeps (s t : Nodeset ua) : Type 0 where
    pub items :
        (p : NodePtr)
        → held t.nodes p + count p (contents t.sorted_nodes)
          ≡ held s.nodes p + count p (contents s.sorted_nodes)
    pub sizes : held_size t.nodes + t.sorted_nodes.size ≡ held_size s.nodes + s.sorted_nodes.size
    pub shrinks :
        (c : NodeClass) (p : NodePtr)
        → count p (contents (t.nodes c)) ≤ count p (contents (s.nodes c))
    pub nodes : (p : NodePtr) → t.heap p ≡ record (s.heap p) { is_done = (t.heap p).is_done }
    pub all_nodes : t.all_nodes ≡ s.all_nodes
    pub grows : s.sorted_nodes.size ≤ t.sorted_nodes.size

  over_classes-place :
      (f : NodeContainer → ℕ) (c : NodeClass) (i : ℕ) (p : NodePtr) (s : Nodeset ua)
      → over_classes (λ d. f ((place ua c i p s).nodes d)) + f (s.nodes c)
        ≡ over_classes (λ d. f (s.nodes d)) + f (remove (s.nodes c) i)
  unfolding place
  over_classes-place f c i p s = over_classes-set f s.nodes c (remove (s.nodes c) i)

  -- Writing the mark of one node leaves the rest of every node alone.
  pub update_mark :
      (heap : NodePtr → Node ua.NodeId) (x : NodePtr) (b : Bool) (p : NodePtr)
      → update heap x (record (heap x) { is_done = b }) p
        ≡ record (heap p) { is_done = (update heap x (record (heap x) { is_done = b }) p).is_done }
  update_mark heap x b p = elim (Bool-cases (p == x)) [
    | inl hit ↦ rw (hit, (==_iff p x).0 hit)
    | inr miss ↦ rw miss
  ]

  heap-place :
      (c : NodeClass) (i : ℕ) (p : NodePtr) (s : Nodeset ua) (q : NodePtr)
      → (place ua c i p s).heap q
        ≡ record (s.heap q) { is_done = ((place ua c i p s).heap q).is_done }
  unfolding place
  heap-place c i p s q = update_mark s.heap p true q

  all_nodes-place :
      (c : NodeClass) (i : ℕ) (p : NodePtr) (s : Nodeset ua)
      → (place ua c i p s).all_nodes ≡ s.all_nodes
  unfolding place
  all_nodes-place c i p s = refl

  shrinks-place :
      (c : NodeClass) (i : ℕ) (p : NodePtr) (s : Nodeset ua) (d : NodeClass) (x : NodePtr)
      → i < (s.nodes c).size
      → Inv ua s
      → count x (contents ((place ua c i p s).nodes d)) ≤ count x (contents (s.nodes d))
  unfolding place
  shrinks-place c i p s d x h v = elim (Bool-cases (class_index d == class_index c)) [
    | inl same ↦
        let e : d ≡ c =
          class_index_injective d c ((==_iff (class_index d) (class_index c)).0 same) in
        rw same (rw e (omega (arith, remove-count (s.nodes c) i x (v.containers c) h)))
    | inr other ↦ rw other (omega arith)
  ]

  place-Keeps :
      (c : NodeClass) (i : ℕ) (s : Nodeset ua)
      → i < (s.nodes c).size
      → Inv ua s
      → Keeps s (place ua c i (node_at ua s c i) s)
  place-Keeps c i s h v =
      let p = node_at ua s c i in
      let (_, e, n) = sorted-place ua c i p s v.sorted in
      record {
        items = λ q. omega (
          arith,
          ap (count q) e,
          count-append q (contents s.sorted_nodes) (p ∷ []),
          remove-count (s.nodes c) i q (v.containers c) h,
          over_classes-place (λ x. count q (contents x)) c i p s,
        );
        sizes =
            omega (arith, n, remove-size (s.nodes c) i h, over_classes-place (λ x. x.size) c i p s);
        shrinks = λ d x. shrinks-place c i p s d x h v;
        nodes = heap-place c i p s;
        all_nodes = all_nodes-place c i p s;
        grows = omega (arith, n);
      }

  Keeps-refl : (s : Nodeset ua) → Keeps s s
  Keeps-refl s = record {
    items = λ p. refl;
    sizes = refl;
    shrinks = λ c p. omega arith;
    nodes = λ p. refl;
    all_nodes = refl;
    grows = omega arith;
  }

  logged-Keeps : (e : SortError) (s : Nodeset ua) → Keeps s (log_error ua e s)
  unfolding log_error
  logged-Keeps e s = record {
    items = λ p. refl;
    sizes = refl;
    shrinks = λ c p. omega arith;
    nodes = λ p. refl;
    all_nodes = refl;
    grows = omega arith;
  }

  Keeps-trans : {s t u : Nodeset ua} → Keeps s t → Keeps t u → Keeps s u
  Keeps-trans {s} {t} {u} k l = record {
    items = λ p. l.items p ∙ k.items p;
    sizes = l.sizes ∙ k.sizes;
    shrinks = λ c p. omega (arith, l.shrinks c p, k.shrinks c p);
    nodes = λ p.
        l.nodes p
        ∙ ap (λ (n : Node ua.NodeId). record n { is_done = (u.heap p).is_done }) (k.nodes p);
    all_nodes = l.all_nodes ∙ k.all_nodes;
    grows = omega (arith, k.grows, l.grows);
  }

  pub Step-Keeps : {s t : Nodeset ua} → Step ua s t → Inv ua s → Keeps s t
  Step-Keeps (placed c i h ready) v = place-Keeps c i _ h v
  Step-Keeps (logged e) v = logged-Keeps e _

  pub Reach-Keeps : {s t : Nodeset ua} → Reach ua s t → Inv ua s → Keeps s t
  Reach-Keeps (here s) v = Keeps-refl s
  Reach-Keeps (next st r) v = Keeps-trans (Step-Keeps st v) (Reach-Keeps r (Step-Inv ua st v))

  pub refs_of-Keeps : (s t : Nodeset ua) → Keeps s t → refs_of ua t ≡ refs_of ua s
  refs_of-Keeps s t k = fun_ext (λ p. ap (λ (n : Node ua.NodeId). n.refs) (k.nodes p))
