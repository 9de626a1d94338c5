-- ===== src/Loader/Run.antt =====
-- `OnCharacters` of src/NodesetLoader.c, and the parser's calls of the handlers in sequence.
use open62541_nodeset_loader.Base.{
  ℕ, ◌+◌, true, List, [], ◌∷◌, Option, none, some, length, Exec, ret, ◌>>=◌, deref,
}
use open62541_nodeset_loader.Ua.{Ua}
use open62541_nodeset_loader.Arena.{CharArenaAllocator, CharPtr, malloc, realloc, write_user}
use open62541_nodeset_loader.Container.{null_ptr}
use open62541_nodeset_loader.Node.{NodeClass}
use open62541_nodeset_loader.Nodeset.{Nodeset}
use open62541_nodeset_loader.Loader.{
  TParserState, FileContext, Ctx, Event, start_element, end_element, characters,
}
use open62541_nodeset_loader.Loader.Start.{on_start_element}
use open62541_nodeset_loader.Loader.End.{on_end_element}

-- Room for the characters: a new block, or the last block made larger.
unfoldable pub more_room :
    Option CharPtr → CharArenaAllocator → ℕ → Exec (CharArenaAllocator × Option CharPtr)
more_room none arena len = ret (malloc true arena (len + 1))
more_room (some p) arena len = realloc true arena (len + 1)

module _ (ua : Ua) (fc : FileContext ua) where
  -- `OnCharacters`; the pointer that is written through is the one just returned.
  unfoldable pub on_characters : Ctx ua fc → List ℕ → Exec (Ctx ua fc)
  unfolding more_room
  on_characters pctx ch = do
    (arena, room) ← more_room pctx.on_characters pctx.nodeset.char_arena (length ch)
    p ← deref room
    filled ← write_user arena pctx.on_char_length ch
    ret (record pctx {
      nodeset = record (pctx.nodeset) { char_arena = filled };
      on_characters = some p;
      on_char_length = pctx.on_char_length + length ch;
    })

  unfoldable pub handle : Event → Ctx ua fc → Exec (Ctx ua fc)
  unfolding on_start_element on_end_element on_characters
  handle (start_element name attributes cur) pctx = on_start_element ua fc pctx name attributes cur
  handle (end_element name cur) pctx = on_end_element ua fc pctx name cur
  handle (characters ch) pctx = on_characters pctx ch

  unfoldable pub handle_all : List Event → Ctx ua fc → Exec (Ctx ua fc)
  unfolding handle
  handle_all [] pctx = ret pctx
  handle_all (event ∷ events) pctx = handle event pctx >>= λ next. handle_all events next

  -- The context that `NodesetLoader_importFile` clears and fills before the parser runs.
  unfoldable pub new_ctx : Nodeset ua → fc.UserContext → fc.Data → List ℕ → Ctx ua fc
  new_ctx nodeset user_context ext_state buf = record {
    user_context = user_context;
    state = TParserState.init;
    unknown_depth = 0;
    value_depth = 0;
    node_class = NodeClass.object;
    node = null_ptr;
    alias = none;
    on_characters = none;
    on_char_length = 0;
    value_begin = 0;
    extension_data = none;
    ref = none;
    nodeset = nodeset;
    ext_state = ext_state;
    buf = buf;
  }
