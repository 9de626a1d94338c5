-- ===== src/Arena.antt =====
-- The character arena of src/CharAllocator.c, with the bytes that it hands out.
-- A list of regions, the newest first, is the linked list that `current` heads; `calloc` of the
-- arena itself is taken to succeed.
pub mod Blocks
pub mod Texts
pub mod Growing
pub mod Collected
use open62541_nodeset_loader.Base.{
  ℕ, zero, suc, ◌+◌, ◌*◌, Bool, List, [], ◌∷◌, ◌++◌, Option, none, some, length, take, drop,
  replicate, ltb, if◌then◌else◌, Exec, fault, ret, ◌>>=◌,
}

-- A `char *` into a region. Regions are numbered from the oldest, so a number stays valid.
pub record CharPtr : Type 0 where
  pub region : ℕ
  pub offset : ℕ

-- `user_ptr` is an offset into `mem`.
pub record Region : Type 0 where
  pub capacity : ℕ
  pub size : ℕ
  pub mem : List ℕ
  pub user_ptr : ℕ
  pub user_size : ℕ

pub record CharArenaAllocator : Type 0 where
  pub initial_size : ℕ
  pub current : Region
  pub older : List Region

unfoldable pub region_new : ℕ → Region
region_new capacity = record {
  capacity = capacity;
  size = 0;
  mem = replicate capacity 0;
  user_ptr = 0;
  user_size = 0;
}

unfoldable pub arena_new : ℕ → CharArenaAllocator
arena_new initial_size = record {
  initial_size = initial_size;
  current = region_new initial_size;
  older = [];
}

unfoldable pub get_region_size : ℕ → ℕ → ℕ
get_region_size requested initial_arena_size =
    if ltb initial_arena_size requested then requested * 2 else initial_arena_size

-- `region` becomes the head of the list.
unfoldable pub push_region : CharArenaAllocator → Region → CharArenaAllocator
push_region arena region = record arena { current = region; older = arena.current ∷ arena.older }

-- The pointer that the arena returns: `current->userPtr`.
unfoldable pub user_ptr : CharArenaAllocator → CharPtr
user_ptr arena = record { region = length arena.older; offset = arena.current.user_ptr }

-- The end of `malloc`: the block begins at the fill mark of the current region.
unfoldable pub take_block : CharArenaAllocator → ℕ → CharArenaAllocator
take_block arena size = record arena {
  current = record current {
    user_ptr = current.size;
    size = current.size + size;
    user_size = size;
  };
}
  where
    open arena use {current}

-- The flag says whether a new region can be had; NULL is `none`.
unfoldable pub malloc : Bool → CharArenaAllocator → ℕ → CharArenaAllocator × Option CharPtr
malloc alloc arena size =
    if ltb arena.current.capacity (arena.current.size + size)
    then (if alloc
        then (let grown =
              take_block (push_region arena (region_new (get_region_size size arena.initial_size)))
                size in
            (grown, some (user_ptr grown)))
        else (arena, none))
    else (let same = take_block arena size in (same, some (user_ptr same)))

-- Memory after a write that ends within it.
abbrev pub written : List ℕ → ℕ → List ℕ → List ℕ
written mem offset bytes = take offset mem ++ (bytes ++ drop (offset + length bytes) mem)

-- `memcpy(mem + offset, bytes, length bytes)` into a region's memory, which has `capacity` bytes: a
-- write beyond its end faults.
unfoldable pub copy_to : ℕ → List ℕ → ℕ → List ℕ → Exec (List ℕ)
copy_to capacity mem offset bytes =
    if ltb capacity (offset + length bytes) then fault else ret (written mem offset bytes)

-- The bytes of the block handed out last.
unfoldable pub user_bytes : Region → List ℕ
user_bytes r = take r.user_size (drop r.user_ptr r.mem)

-- A new region that begins with a copy of the last block.
unfoldable pub move_block : Region → ℕ → Exec Region
move_block old capacity = copy_to capacity (region_new capacity).mem 0 (user_bytes old) >>= λ mem.
    ret
      (record (region_new capacity) { mem = mem; size = old.user_size; user_size = old.user_size })

-- The end of `realloc`: the last block gets `size` bytes more.
unfoldable pub extend_block : CharArenaAllocator → ℕ → CharArenaAllocator
extend_block arena size = record arena {
  current = record current { user_size = current.user_size + size; size = current.size + size };
}
  where
    open arena use {current}

unfoldable pub realloc : Bool → CharArenaAllocator → ℕ → Exec (CharArenaAllocator × Option CharPtr)
realloc alloc arena size =
    if ltb arena.current.capacity (arena.current.size + size)
    then (if alloc
        then (move_block arena.current
              (get_region_size (size + arena.current.user_size * 2) arena.initial_size)
            >>= λ region.
                (let grown = extend_block (push_region arena region) size in
                  ret (grown, some (user_ptr grown))))
        else ret (arena, none))
    else (let same = extend_block arena size in ret (same, some (user_ptr same)))

-- A write through a pointer to the current region, `at` bytes behind it.
unfoldable pub write_user : CharArenaAllocator → ℕ → List ℕ → Exec CharArenaAllocator
write_user arena at bytes =
    copy_to arena.current.capacity arena.current.mem (arena.current.user_ptr + at) bytes >>= λ mem.
    ret (record arena { current = record (arena.current) { mem = mem } })

-- The region with a given number, in a list that is newest first.
unfoldable pub region_at : List Region → ℕ → Option Region
region_at [] n = none
region_at (r ∷ rs) n = if ltb n (length rs) then region_at rs n else some r

-- The bytes before the first zero. A text without a zero byte is its own `until_zero`.
unfoldable pub until_zero : List ℕ → List ℕ
until_zero [] = []
until_zero (zero ∷ bytes) = []
until_zero (suc b ∷ bytes) = suc b ∷ until_zero bytes

mem_of : Option Region → List ℕ
mem_of none = []
mem_of (some r) = r.mem

-- A C string is read up to its terminating zero. Where the memory ends before, the read faults.
unfoldable pub read_string : List ℕ → Exec (List ℕ)
read_string [] = fault
read_string (zero ∷ bytes) = ret []
read_string (suc b ∷ bytes) = read_string bytes >>= λ text. ret (suc b ∷ text)

-- The C string at a pointer.
unfoldable pub c_string : CharArenaAllocator → CharPtr → Exec (List ℕ)
unfolding mem_of read_string
c_string arena p =
    read_string (drop p.offset (mem_of (region_at (arena.current ∷ arena.older) p.region)))
