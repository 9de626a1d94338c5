-- ===== src/Container/Laws.antt =====
-- `NodeContainer` implements a list: `add` appends, `remove` replaces by the last item.
use native.Mathlib.Numerals.{add-one}
use open62541_nodeset_loader.Base.{
  count-take-set, ℕ, zero, suc, ◌+◌, ◌-◌, ◌*◌, ◌≤◌, ◌<◌, ◌≡◌, refl, ◌∙◌, ap, true, List, [], ◌∷◌,
  ◌++◌, arith, take, length, replicate, get_or, count, length-append, length-take, length-set,
  length-replicate, take_all, take-append_of_le, take-set_end, ◌==◌, if◌then◌else◌,
}
use open62541_nodeset_loader.Container.{
  NodePtr, NodeContainer, dec_size, realloc_nodes, init, put, grow, add, remove, contents,
}

-- The array has `capacity` cells, at least one, and the used ones are among them.
pub record IsValid (c : NodeContainer) : Type 0 where
  pub cells : length c.nodes ≡ c.capacity
  pub used : c.size ≤ c.capacity
  pub some_cell : 0 < c.capacity

pub init-IsValid : (n : ℕ) → 0 < n → IsValid (init true n).0
unfolding init
init-IsValid n h = omega (arith, length-replicate {A = NodePtr} n 0)

pub init-contents : (n : ℕ) → contents (init true n).0 ≡ []
unfolding init
init-contents n = refl

length-realloc_nodes :
    (nodes : List NodePtr) (n : ℕ) → length nodes ≤ n → length (realloc_nodes nodes n) ≡ n
unfolding realloc_nodes
length-realloc_nodes nodes n h = omega (
  arith,
  length-append (take n nodes) (replicate (n - length nodes) 0),
  length-take n nodes,
  length-replicate {A = NodePtr} (n - length nodes) 0,
)

put-contents :
    (c : NodeContainer) (p : NodePtr)
    → c.size < length c.nodes
    → contents (put c p) ≡ contents c ++ p ∷ []
unfolding put
put-contents c p h = rw add-one (take-set_end c.size c.nodes p h)

put-IsValid :
    (c : NodeContainer) (p : NodePtr) → IsValid c → c.size < c.capacity → IsValid (put c p)
unfolding put
put-IsValid c p v h = omega (arith, length-set c.nodes c.size p, v.cells)

grow-IsValid : (c : NodeContainer) → IsValid c → c.size ≡ c.capacity → IsValid (grow c)
unfolding grow
grow-IsValid c v full = omega (arith, length-realloc_nodes c.nodes (c.size * 2), v.cells)

grow-size : (c : NodeContainer) → ((grow c).size ≡ c.size) × ((grow c).capacity ≡ c.capacity * 2)
unfolding grow
grow-size c = (refl, refl)

put-size : (c : NodeContainer) (p : NodePtr) → (put c p).size ≡ c.size + 1
unfolding put
put-size c p = refl

grow-contents :
    (c : NodeContainer) → IsValid c → c.size ≡ c.capacity → contents (grow c) ≡ contents c
unfolding grow realloc_nodes
grow-contents c v full =
    let fits : length (take (c.size * 2) c.nodes) ≡ c.size =
      omega (arith, length-take (c.size * 2) c.nodes, v.cells) in
    take-append_of_le c.size _ _ (omega arith)
    ∙ ap (take c.size) (take_all (c.size * 2) c.nodes (omega (arith, v.cells)))

-- A successful `add` appends the pointer, and keeps the container well formed.
pub add-contents :
    (c : NodeContainer) (p : NodePtr)
    → IsValid c
    → IsValid (add true c p).0
      × (contents (add true c p).0 ≡ contents c ++ p ∷ [])
      × ((add true c p).0.size ≡ c.size + 1)
unfolding add
add-contents c p v = ground (
  arith,
  grow-IsValid c v,
  grow-contents c v,
  grow-size c,
  put-IsValid c p v,
  put-contents c p,
  put-size c p,
  put-IsValid (grow c) p,
  put-contents (grow c) p,
  put-size (grow c) p,
)

suc-dec_size : (n : ℕ) → 0 < n → suc (dec_size n) ≡ n
unfolding dec_size
suc-dec_size zero h = absurd (omega arith)
suc-dec_size (suc n) h = refl

-- `remove` takes one occurrence of the pointer at the index away and leaves every other.
pub remove-count :
    (c : NodeContainer) (i : ℕ) (p : NodePtr)
    → IsValid c
    → i < c.size
    → count p (contents (remove c i)) + (if p == get_or c.nodes i 0 then 1 else 0)
      ≡ count p (contents c)
unfolding remove
remove-count c i p v h =
    let e : suc (dec_size c.size) ≡ c.size = suc-dec_size c.size (omega arith) in
    count-take-set p (dec_size c.size) i c.nodes (omega arith) (omega (arith, v.cells))
    ∙ ap (λ n. count p (take n c.nodes)) e

pub remove-size : (c : NodeContainer) (i : ℕ) → i < c.size → (remove c i).size + 1 ≡ c.size
unfolding remove dec_size
remove-size c i h = ground arith

pub remove-IsValid : (c : NodeContainer) (i : ℕ) → IsValid c → i < c.size → IsValid (remove c i)
unfolding remove dec_size
remove-IsValid c i v h = ground (arith, length-set c.nodes i (get_or c.nodes (dec_size c.size) 0))
