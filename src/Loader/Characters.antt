-- ===== src/Loader/Characters.antt =====
-- `OnCharacters` collects the characters of an element, which come in pieces.
use open62541_nodeset_loader.Base.{
  ℕ, ◌+◌, ◌≤◌, ◌≡◌, refl, sym, ap, ◌∙◌, arith, List, [], ◌∷◌, ◌++◌, map, Option, none, some, true,
  length, length-append, ret, ◌>>=◌, subst,
}
use mathlib.Core.List.{append_assoc, append-nil}
use open62541_nodeset_loader.Ua.{Ua}
use open62541_nodeset_loader.Arena.{
  CharArenaAllocator, CharPtr, malloc, written, user_ptr, write_user, until_zero,
}
use open62541_nodeset_loader.Arena.Blocks.{IsValid, copy_to-written}
use open62541_nodeset_loader.Arena.Growing.{Keeps, written-Keeps}
use open62541_nodeset_loader.Arena.Collected.{Room, malloc-Room, realloc-Room, c_string-Keeps}
use open62541_nodeset_loader.Loader.{FileContext, Ctx, characters, collected}
use open62541_nodeset_loader.Loader.Run.{more_room, on_characters, handle, handle_all}

abbrev pub joined : List (List ℕ) → List ℕ
joined [] = []
joined (piece ∷ pieces) = piece ++ joined pieces

module _ (ua : Ua) (fc : FileContext ua) where
  -- The parser holds a text: its pointer is that of the arena's last block, which keeps the text.
  pub record Holding (text : List ℕ) (pctx : Ctx ua fc) : Type 0 where
    pub pointer : pctx.on_characters ≡ some (user_ptr pctx.nodeset.char_arena)
    pub count : pctx.on_char_length ≡ length text
    pub keeps : Keeps text pctx.nodeset.char_arena.current

  -- What a handler call leaves once there is room.
  put_piece :
      (pctx : Ctx ua fc) (text piece : List ℕ) (size : ℕ) (r : CharArenaAllocator × Option CharPtr)
      → pctx.on_char_length ≡ length text
      → (length text + length piece) + 1 ≤ size
      → more_room pctx.on_characters pctx.nodeset.char_arena (length piece) ≡ ret r
      → Room text size r
      → (next : Ctx ua fc) × (on_characters ua fc pctx piece ≡ ret next)
        × Holding (text ++ piece) next
  unfolding on_characters write_user
  put_piece pctx text piece size r c fits e room =
      let arena = r.0 in
      let at = arena.current.user_ptr + length text in
      let mem = written arena.current.mem at piece in
      let inside : at + length piece ≤ arena.current.capacity =
        omega (arith, room.large, fits, room.keeps.block, room.keeps.within, room.keeps.room) in
      (
        record pctx {
          nodeset = record (pctx.nodeset) {
            char_arena = record arena { current = record (arena.current) { mem = mem } };
          };
          on_characters = some (user_ptr arena);
          on_char_length = pctx.on_char_length + length piece;
        },
        rw
            (
              e,
              room.pointer,
              c,
              copy_to-written arena.current.capacity arena.current.mem piece at inside,
            )
            refl,
        record {
          pointer = unfold user_ptr in refl;
          count = omega (arith, c, length-append text piece);
          keeps =
              written-Keeps text piece arena.current room.keeps (omega (arith, room.large, fits));
        },
      )

  first_piece :
      (pctx : Ctx ua fc) (piece : List ℕ)
      → pctx.on_characters ≡ none
      → pctx.on_char_length ≡ 0
      → IsValid pctx.nodeset.char_arena.current
      → (next : Ctx ua fc) × (on_characters ua fc pctx piece ≡ ret next) × Holding piece next
  unfolding more_room
  first_piece pctx piece n z v =
      let r = malloc true pctx.nodeset.char_arena (length piece + 1) in
      put_piece pctx [] piece (length piece + 1) r z (omega arith) (rw n refl)
        (malloc-Room pctx.nodeset.char_arena (length piece) v)

  next_piece :
      (pctx : Ctx ua fc) (text piece : List ℕ)
      → Holding text pctx
      → (next : Ctx ua fc) × (on_characters ua fc pctx piece ≡ ret next)
        × Holding (text ++ piece) next
  unfolding more_room
  next_piece pctx text piece h =
      let arena = pctx.nodeset.char_arena in
      let (r, e, room) = realloc-Room arena text (length piece + 1) h.keeps in
      put_piece pctx text piece (arena.current.user_size + (length piece + 1)) r h.count
        (omega (arith, h.keeps.longer)) (rw h.pointer e) room

  all_pieces :
      (pieces : List (List ℕ)) (pctx : Ctx ua fc) (text : List ℕ)
      → Holding text pctx
      → (last : Ctx ua fc) × (handle_all ua fc (map characters pieces) pctx ≡ ret last)
        × Holding (text ++ joined pieces) last
  unfolding handle_all handle
  all_pieces [] pctx text h = (pctx, refl, subst (λ t. Holding t pctx) (sym (append-nil text)) h)
  all_pieces (piece ∷ pieces) pctx text h =
      let (next, e, k) = next_piece pctx text piece h in
      let (last, e', k') = all_pieces pieces next (text ++ piece) k in
      (
        last,
        ap (λ r. r >>= λ after. handle_all ua fc (map characters pieces) after) e ∙ e',
        subst (λ t. Holding t last) (append_assoc text piece (joined pieces)) k',
      )

  collected-Holding :
      (pctx : Ctx ua fc) (text : List ℕ)
      → Holding text pctx
      → until_zero text ≡ text
      → collected pctx ≡ ret (some text)
  unfolding collected
  collected-Holding pctx text h z =
      let read = c_string-Keeps pctx.nodeset.char_arena text h.keeps z in rw (h.pointer, read) refl

  -- The characters of an element that come in one or more pieces are handled without a fault: no
  -- write ends outside the region that is written to. The text that is then read from the pointer,
  -- up to a terminating zero within the region, is that of all pieces in their order, however often
  -- the block was made longer or moved to a new region. Before the first piece no text is collected,
  -- nothing was written behind the fill mark of the current region, and no piece has a zero byte.
  pub collected-joined :
      (piece : List ℕ) (pieces : List (List ℕ)) (pctx : Ctx ua fc)
      → pctx.on_characters ≡ none
      → pctx.on_char_length ≡ 0
      → IsValid pctx.nodeset.char_arena.current
      → until_zero (piece ++ joined pieces) ≡ piece ++ joined pieces
      → (last : Ctx ua fc) × (handle_all ua fc (map characters (piece ∷ pieces)) pctx ≡ ret last)
        × (collected last ≡ ret (some (piece ++ joined pieces)))
  unfolding handle_all handle
  collected-joined piece pieces pctx n z v u =
      let (next, e, k) = first_piece pctx piece n z v in
      let (last, e', k') = all_pieces pieces next piece k in
      (
        last,
        ap (λ r. r >>= λ after. handle_all ua fc (map characters pieces) after) e ∙ e',
        collected-Holding last (piece ++ joined pieces) k' u,
      )
