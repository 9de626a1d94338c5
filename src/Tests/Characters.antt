-- ===== src/Tests/Characters.antt =====
-- Characters that come in pieces, with a block that is moved.
use open62541_nodeset_loader.Base.{◌≡◌, refl, [], ◌∷◌, map, some, codes, ret}
use open62541_nodeset_loader.Arena.{arena_new, until_zero}
use open62541_nodeset_loader.Arena.Blocks.{region_new-IsValid}
use open62541_nodeset_loader.Samples.Ids.{sample_ua}
use open62541_nodeset_loader.Samples.Files.{counting_fc, small_nodeset, small_buf}
use open62541_nodeset_loader.Loader.{Ctx, characters, collected}
use open62541_nodeset_loader.Loader.Run.{handle_all, new_ctx}
use open62541_nodeset_loader.Loader.Characters.{collected-joined}

-- The arena has four bytes, so the second piece needs a new region.
abbrev narrow_ctx : Ctx sample_ua counting_fc
narrow_ctx =
    new_ctx sample_ua counting_fc (record small_nodeset { char_arena = arena_new 4 }) 0 0 small_buf

abc_text : until_zero (codes "abc") ≡ codes "abc"
unfolding until_zero
abc_text = refl

collected-joined_example :
    (last : Ctx sample_ua counting_fc) × (handle_all sample_ua counting_fc
        (map characters (codes "ab" ∷ codes "c" ∷ []))
        narrow_ctx
      ≡ ret last)
    × (collected last ≡ ret (some (codes "abc")))
unfolding new_ctx arena_new
collected-joined_example =
    collected-joined sample_ua counting_fc (codes "ab") (codes "c" ∷ []) narrow_ctx refl refl
      (region_new-IsValid 4) abc_text
