-- ===== src/Tests/Arena.antt =====
-- A text that does not fit into the first region of a small arena.
use open62541_nodeset_loader.Base.{◌≡◌, refl, [], ◌∷◌, ◌++◌, some, codes, ret}
use open62541_nodeset_loader.Arena.{CharArenaAllocator, arena_new, until_zero, user_bytes}
use open62541_nodeset_loader.Arena.Blocks.{IsValid, region_new-IsValid}
use open62541_nodeset_loader.Build.Attributes.{store_text}
use open62541_nodeset_loader.Build.Texts.{store_text-until_zero}

boolean_read : until_zero (codes "Boolean") ≡ codes "Boolean"
unfolding until_zero
boolean_read = refl

store_text-until_zero_example :
    (after : CharArenaAllocator) × (store_text (arena_new 4) (codes "Boolean")
      ≡ ret (after, some (codes "Boolean")))
    × (user_bytes after.current ≡ codes "Boolean" ++ 0 ∷ [])
    × IsValid after.current
unfolding arena_new
store_text-until_zero_example =
    store_text-until_zero (arena_new 4) (codes "Boolean") (region_new-IsValid 4) boolean_read
