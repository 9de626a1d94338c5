-- ===== src/Container.antt =====
-- The growable array of node pointers: `NodeContainer_*` of src/Node.c.
-- A pointer is a number, 0 is NULL. The cells behind `size` are never read.
pub mod Laws
use open62541_nodeset_loader.Base.{
  ℕ, zero, suc, ◌+◌, ◌-◌, ◌*◌, ◌^◌, Bool, true, false, List, [], ◌++◌, take, length, replicate, set,
  get_or, ◌==◌, if◌then◌else◌,
}

abbrev pub NodePtr : Type 0
NodePtr = ℕ

abbrev pub null_ptr : NodePtr
null_ptr = 0

pub record NodeContainer : Type 0 where
  pub nodes : List NodePtr
  pub size : ℕ
  pub capacity : ℕ

-- `n - 1` on a 64-bit size_t.
unfoldable pub dec_size : ℕ → ℕ
dec_size zero = 2 ^ 64 - 1
dec_size (suc n) = n

-- `realloc` keeps the cells that fit and adds cells whose content is not specified.
unfoldable pub realloc_nodes : List NodePtr → ℕ → List NodePtr
realloc_nodes nodes n = take n nodes ++ replicate (n - length nodes) null_ptr

-- `calloc` of `initial_size` cells; the flag says whether it succeeds.
unfoldable pub init : Bool → ℕ → NodeContainer × Bool
init true initial_size =
    (record { nodes = replicate initial_size null_ptr; size = 0; capacity = initial_size }, true)
init false initial_size = (record { nodes = []; size = 0; capacity = 0 }, false)

-- `container->nodes[container->size] = node; container->size++`
unfoldable pub put : NodeContainer → NodePtr → NodeContainer
put c node = record c { nodes = set c.nodes c.size node; size = c.size + 1 }

unfoldable pub grow : NodeContainer → NodeContainer
unfolding realloc_nodes
grow c = record c { nodes = realloc_nodes c.nodes (c.size * 2); capacity = c.capacity * 2 }

-- The flag says whether `realloc` succeeds. If it does not, the array is lost.
unfoldable pub add : Bool → NodeContainer → NodePtr → NodeContainer × Bool
add alloc c node =
    if c.size == c.capacity
    then (if alloc then (put (grow c) node, true) else (record c { nodes = [] }, false))
    else (put c node, true)

-- The last pointer takes the place of the removed one.
unfoldable pub remove : NodeContainer → ℕ → NodeContainer
unfolding dec_size
remove c index = record c {
  nodes = set c.nodes index (get_or c.nodes (dec_size c.size) null_ptr);
  size = dec_size c.size;
}

unfoldable pub clear : NodeContainer → NodeContainer
clear c = record { nodes = []; size = 0; capacity = 0 }

-- What the array holds.
abbrev pub contents : NodeContainer → List NodePtr
contents c = take c.size c.nodes
