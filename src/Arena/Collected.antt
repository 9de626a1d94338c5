-- ===== src/Arena/Collected.antt =====
-- The arena when its last block is made, made longer, and read.
use open62541_nodeset_loader.Base.{
  ℕ, ◌+◌, ◌-◌, ◌*◌, ◌++◌, length, replicate, ret, ◌≡◌, refl, ap, ◌∙◌, arith, Bool-cases, inl, inr,
  true, List, [], Option, some, ltb, ltb→le,
}
use open62541_nodeset_loader.Arena.{
  CharArenaAllocator, CharPtr, region_new, get_region_size, push_region, user_ptr, take_block,
  malloc, extend_block, realloc, until_zero, read_string, c_string,
}
use open62541_nodeset_loader.Arena.Blocks.{
  IsValid, get_region_size_le, read_string-append, replicate_pos,
}
use open62541_nodeset_loader.Arena.Texts.{
  region_here, region_for, malloc-region_for, region_for-IsValid,
}
use open62541_nodeset_loader.Arena.Growing.{
  Keeps, extended-Keeps, moved, move_block-moved, moved-Keeps, taken-Keeps,
}

-- An arena whose last block keeps a text and has some size, and the pointer to it.
pub record Room (text : List ℕ) (size : ℕ) (r : CharArenaAllocator × Option CharPtr) : Type 0 where
  pub pointer : r.1 ≡ some (user_ptr r.0)
  pub keeps : Keeps text r.0.current
  pub large : r.0.current.user_size ≡ size

pub malloc-Room :
    (arena : CharArenaAllocator) (n : ℕ)
    → IsValid arena.current
    → Room [] (n + 1) (malloc true arena (n + 1))
malloc-Room arena n v =
    let room = region_for-IsValid arena (n + 1) v in
    rw (malloc-region_for arena (n + 1)) (record {
      pointer = refl;
      keeps = unfold take_block in taken-Keeps (region_for arena (n + 1)).current n room.0 room.1;
      large = unfold take_block in refl;
    })

pub realloc-Room :
    (arena : CharArenaAllocator) (text : List ℕ) (size : ℕ)
    → Keeps text arena.current
    → (r : CharArenaAllocator × Option CharPtr) × (realloc true arena size ≡ ret r)
      × Room text (arena.current.user_size + size) r
unfolding realloc extend_block push_region region_new
realloc-Room arena text size k =
    let asked = size + arena.current.user_size * 2 in
    let wide = get_region_size asked arena.initial_size in
    let enough = get_region_size_le asked arena.initial_size in
    elim (Bool-cases (ltb arena.current.capacity (arena.current.size + size))) [
      | inl h ↦
          let grown = extend_block (push_region arena (moved arena.current wide)) size in
          (
            (grown, some (user_ptr grown)),
            rw (h, move_block-moved text arena.current wide k (omega (arith, enough))) refl,
            record {
              pointer = refl;
              keeps =
                  extended-Keeps text (moved arena.current wide) size
                    (moved-Keeps text arena.current wide k (omega (arith, enough)))
                    (omega (arith, enough));
              large = refl;
            },
          )
      | inr h ↦
          let same = extend_block arena size in
          (
            (same, some (user_ptr same)),
            rw h refl,
            record {
              pointer = refl;
              keeps = extended-Keeps text arena.current size k (ltb→le _ _ h);
              large = refl;
            },
          )
    ]

-- A kept text without a zero byte is what is read from the pointer.
pub c_string-Keeps :
    (arena : CharArenaAllocator) (text : List ℕ)
    → Keeps text arena.current
    → until_zero text ≡ text
    → c_string arena (user_ptr arena) ≡ ret text
unfolding c_string user_ptr
c_string-Keeps arena text k h =
    let r = arena.current in
    let n = r.capacity - (r.user_ptr + length text) in
    let zero_behind = replicate_pos n (omega (arith, k.longer, k.block, k.within)) in
    rw (region_here r arena.older) (
      ap read_string (k.bytes ∙ ap (λ l. text ++ l) zero_behind)
      ∙ read_string-append text (replicate (n - 1) 0) h)
