-- ===== src/Loader/Reads/Stops.antt =====
-- `OnEndElementNs` and `OnCharacters` leave a nodeset that is being read.
use Prim.Native.String.{String}
use text.Mathlib.Text.{◌==◌ as str_eq}
use open62541_nodeset_loader.Base.{
  ℕ, ◌≡◌, refl, false, List, [], ◌∷◌, ltb, length, ◌==◌, fault, ret, ◌>>=◌, deref, Ensures,
  Ensures-ret, Ensures-fault, Ensures-bind, Ensures-rest, Ensures-if,
}
use open62541_nodeset_loader.Ua.{Text, Ua}
use open62541_nodeset_loader.Container.{NodePtr, dec_size}
use open62541_nodeset_loader.Node.{Node, Specific, allocated_class}
use open62541_nodeset_loader.Build.{
  new_reference_finish, new_alias_finish, new_namespace_finish, inverse_name_finish,
}
use open62541_nodeset_loader.Arena.{write_user}
use open62541_nodeset_loader.Build.Keeps.{IsRead, IsUnsorted, IsRead-Same, write-IsRead}
use open62541_nodeset_loader.Build.Keeps.Texts.{
  new_reference_finish-IsRead, new_alias_finish-IsRead, new_namespace_finish-IsRead,
  display_name_finish-IsRead, description_finish-IsRead, inverse_name_finish-IsRead,
}
use open62541_nodeset_loader.Loader.{
  TParserState, display_name, reference, description, inverse_name, uri, value, extension,
  FileContext, Ctx, reset, the_node, collected, Event, start_element, end_element, characters,
}
use open62541_nodeset_loader.Loader.End.{
  is_variable, value_text, set_value, store_into, store_if_variable, store_value, leave_value,
  end_value, end_extension, end_in, on_end_element,
}
use open62541_nodeset_loader.Loader.Run.{more_room, on_characters, handle, handle_all}
use open62541_nodeset_loader.Loader.Reads.{Reads, Reading}
use open62541_nodeset_loader.Loader.Reads.Starts.{on_start_element-Reading}

module _ (ua : Ua) (fc : FileContext ua) where
  -- What a write of the value leaves, by the struct that is there.
  value_written :
      (text : Text) (n : Node ua.NodeId) (specific : Specific ua.NodeId)
      → n.is_done ≡ false
      → allocated_class specific ≡ n.node_class
      → Ensures (IsUnsorted ua) (elim specific [
        | Specific.variable m ↦
            ret (record n { specific = Specific.variable (record m { value = text }) })
        | _ ↦ fault
      ])
  value_written text n (Specific.variable m) d c = Ensures-ret _ _ (d, c)
  value_written text n _ d c = Ensures-fault _

  set_value-IsUnsorted :
      (n : Node ua.NodeId) (text : Text)
      → IsUnsorted ua n
      → Ensures (IsUnsorted ua) (set_value ua fc n text)
  unfolding set_value
  set_value-IsUnsorted n text h = value_written text n n.specific h.0 h.1

  store_into-Reading :
      (pctx : Ctx ua fc) (cur : ℕ) (p : NodePtr)
      → Reads ua fc pctx
      → Reading ua fc (store_into ua fc pctx cur p)
  unfolding store_into
  store_into-Reading pctx cur p h =
      Ensures-bind (IsUnsorted ua) _
        (value_text ua fc pctx.buf pctx.value_begin cur >>= set_value ua fc (pctx.nodeset.heap p)) _
        (Ensures-rest _ (value_text ua fc pctx.buf pctx.value_begin cur) _
          λ text. set_value-IsUnsorted (pctx.nodeset.heap p) text (h.unsorted p))
        λ n k. Ensures-ret _ _ (write-IsRead ua p n pctx.nodeset h k)

  store_value-Reading :
      (pctx : Ctx ua fc) (cur : ℕ) → Reads ua fc pctx → Reading ua fc (store_value ua fc pctx cur)
  unfolding store_value store_if_variable
  store_value-Reading pctx cur h = Ensures-rest _ (the_node pctx) _ λ p.
      Ensures-if _ (is_variable ua fc (pctx.nodeset.heap p).node_class) _ _
        (store_into-Reading pctx cur p h) (Ensures-ret _ _ h)

  leave_value-Reading :
      (pctx : Ctx ua fc) (cur : ℕ) → Reads ua fc pctx → Reading ua fc (leave_value ua fc pctx cur)
  unfolding leave_value
  leave_value-Reading pctx cur h =
      Ensures-if _ (pctx.value_depth == 0) _ _
        (Ensures-bind (Reads ua fc) _ (store_value ua fc pctx cur) _
          (store_value-Reading pctx cur h) λ stored k. Ensures-ret _ _ k)
        (Ensures-ret _ _ h)

  end_value-Reading :
      (pctx : Ctx ua fc) (name : String) (cur : ℕ)
      → Reads ua fc pctx
      → Reading ua fc (end_value ua fc pctx name cur)
  unfolding end_value
  end_value-Reading pctx name cur h =
      Ensures-if _ (str_eq name "Value") _ _
        (leave_value-Reading (record pctx { value_depth = dec_size pctx.value_depth }) cur h)
        (Ensures-ret _ (reset pctx) h)

  end_extension-Reading :
      (pctx : Ctx ua fc) (name : String)
      → Reads ua fc pctx
      → Reading ua fc (end_extension ua fc pctx name)
  unfolding end_extension
  end_extension-Reading pctx name h =
      Ensures-if _ (str_eq name "Extension") _ _
        (Ensures-if _ fc.ext_if _ _
          (Ensures-rest _ (the_node pctx) _
            λ p. Ensures-ret _ _ (write-IsRead ua p _ pctx.nodeset h (h.unsorted p)))
          (Ensures-ret _ _ h))
        (Ensures-if _ fc.ext_if _ _ (Ensures-rest _ (collected pctx) _ λ text. Ensures-ret _ _ h)
          (Ensures-ret _ _ h))

  end_in-Reading :
      (s : TParserState) (pctx : Ctx ua fc) (name : String) (cur : ℕ)
      → Reads ua fc pctx
      → Reading ua fc (end_in ua fc s pctx name cur)
  unfolding end_in
  end_in-Reading TParserState.alias pctx name cur h =
      Ensures-bind (IsRead ua) _
        (collected pctx >>= λ text. new_alias_finish ua pctx.alias text pctx.nodeset) _
        (Ensures-rest _ (collected pctx) _
          λ text. new_alias_finish-IsRead ua pctx.alias text pctx.nodeset h)
        λ t k. Ensures-ret _ _ k
  end_in-Reading uri pctx name cur h =
      Ensures-bind (λ r. IsRead ua r.1) _
        (collected pctx >>= λ text.
          new_namespace_finish ua fc.add_namespace pctx.user_context text pctx.nodeset)
        _
        (Ensures-rest _ (collected pctx) _ λ text.
          new_namespace_finish-IsRead ua fc.add_namespace pctx.user_context text pctx.nodeset h)
        λ r k. Ensures-ret _ _ k
  end_in-Reading display_name pctx name cur h = Ensures-rest _ (the_node pctx) _ λ p.
      Ensures-rest _ (collected pctx) _
        λ text. Ensures-ret _ _ (display_name_finish-IsRead ua p text pctx.nodeset h)
  end_in-Reading description pctx name cur h = Ensures-rest _ (the_node pctx) _ λ p.
      Ensures-rest _ (collected pctx) _
        λ text. Ensures-ret _ _ (description_finish-IsRead ua p text pctx.nodeset h)
  end_in-Reading reference pctx name cur h =
      Ensures-bind (IsRead ua) _
        (deref pctx.ref >>= λ ref.
          collected pctx >>= λ text. new_reference_finish ua ref text pctx.nodeset)
        _
        (Ensures-rest _ (deref pctx.ref) _ λ ref.
          Ensures-rest _ (collected pctx) _
            λ text. new_reference_finish-IsRead ua ref text pctx.nodeset h)
        λ t k. Ensures-ret _ _ k
  end_in-Reading inverse_name pctx name cur h =
      Ensures-bind (IsRead ua) _
        (the_node pctx >>= λ p.
          collected pctx >>= λ text. inverse_name_finish ua p text pctx.nodeset)
        _
        (Ensures-rest _ (the_node pctx) _ λ p.
          Ensures-rest _ (collected pctx) _
            λ text. inverse_name_finish-IsRead ua p text pctx.nodeset h)
        λ t k. Ensures-ret _ _ k
  end_in-Reading value pctx name cur h = end_value-Reading pctx name cur h
  end_in-Reading extension pctx name cur h = end_extension-Reading pctx name h
  end_in-Reading _ pctx name cur h = Ensures-ret _ _ h

  on_end_element-Reading :
      (pctx : Ctx ua fc) (name : String) (cur : ℕ)
      → Reads ua fc pctx
      → Reading ua fc (on_end_element ua fc pctx name cur)
  unfolding on_end_element
  on_end_element-Reading pctx name cur h =
      Ensures-if _ (ltb 0 pctx.unknown_depth) _ _ (Ensures-ret _ _ h)
        (end_in-Reading pctx.state pctx name cur h)

  on_characters-Reading :
      (pctx : Ctx ua fc) (ch : List ℕ)
      → Reads ua fc pctx
      → Reading ua fc (on_characters ua fc pctx ch)
  unfolding on_characters
  on_characters-Reading pctx ch h =
      Ensures-rest _ (more_room pctx.on_characters pctx.nodeset.char_arena (length ch)) _ λ r.
        Ensures-rest _ (deref r.1) _ λ p.
          Ensures-rest _ (write_user r.0 pctx.on_char_length ch) _ λ arena. Ensures-ret _ _ (
            IsRead-Same ua
              (record {
                heap = refl;
                nodes = refl;
                all_nodes = refl;
                sorted_nodes = refl;
                next_ptr = refl;
              })
              h)

  handle-Reading :
      (event : Event) (pctx : Ctx ua fc)
      → Reads ua fc pctx
      → Reading ua fc (handle ua fc event pctx)
  unfolding handle
  handle-Reading (start_element name attributes cur) pctx h =
      on_start_element-Reading ua fc pctx name attributes cur h
  handle-Reading (end_element name cur) pctx h = on_end_element-Reading pctx name cur h
  handle-Reading (characters ch) pctx h = on_characters-Reading pctx ch h

  -- However the events stand, a run of the handlers that returns leaves a nodeset whose containers
  -- are sound, in which nothing is sorted and every node has the struct of its class.
  pub handle_all-Reading :
      (events : List Event) (pctx : Ctx ua fc)
      → Reads ua fc pctx
      → Reading ua fc (handle_all ua fc events pctx)
  unfolding handle_all
  handle_all-Reading [] pctx h = Ensures-ret _ pctx h
  handle_all-Reading (event ∷ events) pctx h =
      Ensures-bind (Reads ua fc) _ (handle ua fc event pctx) _ (handle-Reading event pctx h)
        λ next k. handle_all-Reading events next k
