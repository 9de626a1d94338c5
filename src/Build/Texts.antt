-- ===== src/Build/Texts.antt =====
-- What src/Nodeset.c keeps of an attribute's value.
use open62541_nodeset_loader.Base.{ℕ, ◌+◌, ◌≡◌, refl, List, [], ◌∷◌, ◌++◌, some, length, ret}
use open62541_nodeset_loader.Arena.{CharArenaAllocator, until_zero, user_bytes}
use open62541_nodeset_loader.Arena.Blocks.{IsValid}
use open62541_nodeset_loader.Arena.Texts.{
  block_text, block-IsValid, block_bytes, stored, write_user-stored, region_for, malloc-region_for,
  region_for-IsValid,
}
use open62541_nodeset_loader.Build.Attributes.{store_text, read_back}

-- Nothing was written behind the fill mark of the arena's current region, and its size is within its
-- capacity. Then a text without a zero byte is stored without a write outside the region, and is
-- read back as it is from the pointer that was returned, whether it went to the current region or to
-- a new one. The block that was handed out has the text and its terminating zero and nothing else,
-- and the condition on the arena holds again.
pub store_text-until_zero :
    (arena : CharArenaAllocator) (text : List ℕ)
    → IsValid arena.current
    → until_zero text ≡ text
    → (after : CharArenaAllocator) × (store_text arena text ≡ ret (after, some text))
      × (user_bytes after.current ≡ text ++ 0 ∷ [])
      × IsValid after.current
unfolding store_text read_back
store_text-until_zero arena text v h =
    let here = region_for arena (length text + 1) in
    let room = region_for-IsValid arena (length text + 1) v in
    (
      stored here text room.0 room.1,
      rw
          (
            malloc-region_for arena (length text + 1),
            write_user-stored here text room.0 room.1,
            block_text here text room.0 room.1 h,
          )
          refl,
      block_bytes here text room.0 room.1,
      block-IsValid here text room.0 room.1,
    )
