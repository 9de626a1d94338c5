-- ===== src/Loader/End.antt =====
-- `OnEndElementNs` of src/NodesetLoader.c, with a function for each state that looks at names.
use Prim.Native.String.{String}
use text.Mathlib.Text.{◌==◌ as str_eq}
use open62541_nodeset_loader.Base.{
  ℕ, ◌-◌, Bool, List, ltb, take, drop, ◌==◌, if◌then◌else◌, Exec, fault, ret, ◌>>=◌, deref,
}
use open62541_nodeset_loader.Ua.{Text, Ua}
use open62541_nodeset_loader.Container.{NodePtr, dec_size}
use open62541_nodeset_loader.Node.{NodeClass, class_index, Node, Specific}
use open62541_nodeset_loader.Build.{
  new_reference_finish, new_alias_finish, new_namespace_finish, display_name_finish,
  description_finish, inverse_name_finish, write_node,
}
use open62541_nodeset_loader.Loader.{
  TParserState, init, node, display_name, references, reference, description, inverse_name,
  namespace_uris, uri, value, extension, extensions, data_type_definition,
  data_type_definition_field, FileContext, Ctx, reset, goto, the_node, collected,
}

module _ (ua : Ua) (fc : FileContext ua) where
  abbrev pub is_variable : NodeClass → Bool
  is_variable c = class_index c == class_index NodeClass.variable

  -- The text from `valueBegin` to `valueEnd`. A negative length is no length of an object.
  unfoldable pub value_text : List ℕ → ℕ → ℕ → Exec Text
  value_text buf begin stop =
      if ltb stop begin then fault else ret (take (stop - begin) (drop begin buf))

  -- The write behind the cast to `NL_VariableNode *`.
  unfoldable pub set_value : Node ua.NodeId → Text → Exec (Node ua.NodeId)
  set_value target text = elim target.specific [
    | Specific.variable n ↦
        ret (record target { specific = Specific.variable (record n { value = text }) })
    | _ ↦ fault
  ]

  unfoldable pub store_into : Ctx ua fc → ℕ → NodePtr → Exec (Ctx ua fc)
  unfolding value_text set_value
  store_into pctx cur p = do
    stored ← (value_text pctx.buf pctx.value_begin cur >>= set_value (pctx.nodeset.heap p))
    ret (record pctx { nodeset = write_node ua p stored pctx.nodeset })

  -- Only a variable keeps its value.
  unfoldable pub store_if_variable : Ctx ua fc → ℕ → NodePtr → Exec (Ctx ua fc)
  unfolding store_into
  store_if_variable pctx cur p =
      if is_variable (pctx.nodeset.heap p).node_class then store_into pctx cur p else ret pctx

  unfoldable pub store_value : Ctx ua fc → ℕ → Exec (Ctx ua fc)
  unfolding the_node store_if_variable
  store_value pctx cur = the_node pctx >>= λ p. store_if_variable pctx cur p

  -- At a `</Value>`, when the depth is already lowered: the outermost one ends the state.
  unfoldable pub leave_value : Ctx ua fc → ℕ → Exec (Ctx ua fc)
  unfolding store_value
  leave_value pctx cur =
      if pctx.value_depth == 0
      then (store_value pctx cur >>= λ stored. ret (reset (record stored { state = node })))
      else ret (reset pctx)

  unfoldable pub end_value : Ctx ua fc → String → ℕ → Exec (Ctx ua fc)
  unfolding leave_value dec_size
  end_value pctx name cur =
      if str_eq name "Value"
      then leave_value (record pctx { value_depth = dec_size pctx.value_depth }) cur
      else ret (reset pctx)

  unfoldable pub end_extension : Ctx ua fc → String → Exec (Ctx ua fc)
  unfolding the_node collected
  end_extension pctx name =
      if str_eq name "Extension"
      then (if fc.ext_if
          then (the_node pctx >>= λ p. ret (
              goto extensions
                (write_node ua p (record (pctx.nodeset.heap p) { extension = pctx.extension_data })
                  pctx.nodeset)
                (record pctx { ext_state = fc.finish pctx.extension_data pctx.ext_state })))
          else ret (goto extensions pctx.nodeset pctx))
      else (if fc.ext_if
          then (collected pctx >>= λ text. ret (
              reset
                (record pctx { ext_state = fc.end pctx.extension_data name text pctx.ext_state })))
          else ret (reset pctx))

  -- The `switch` of `OnEndElementNs`.
  unfoldable pub end_in : TParserState → Ctx ua fc → String → ℕ → Exec (Ctx ua fc)
  unfolding the_node collected end_value end_extension
  end_in TParserState.alias pctx name cur =
      (collected pctx >>= λ text. new_alias_finish ua pctx.alias text pctx.nodeset) >>= λ nodeset.
      ret (goto init nodeset pctx)
  end_in uri pctx name cur =
      (collected pctx >>= λ text.
      new_namespace_finish ua fc.add_namespace pctx.user_context text pctx.nodeset)
      >>= λ r. ret (goto namespace_uris r.1 (record pctx { user_context = r.0 }))
  end_in namespace_uris pctx name cur = ret (goto init pctx.nodeset pctx)
  end_in node pctx name cur = ret (goto init pctx.nodeset pctx)
  end_in display_name pctx name cur = the_node pctx >>= λ p.
      collected pctx >>= λ text. ret (goto node (display_name_finish ua p text pctx.nodeset) pctx)
  end_in references pctx name cur = ret (goto node pctx.nodeset pctx)
  end_in reference pctx name cur =
      (deref pctx.ref >>= λ ref.
      collected pctx >>= λ text. new_reference_finish ua ref text pctx.nodeset)
      >>= λ nodeset. ret (goto references nodeset pctx)
  end_in value pctx name cur = end_value pctx name cur
  end_in extension pctx name cur = end_extension pctx name
  end_in extensions pctx name cur = ret (goto node pctx.nodeset pctx)
  end_in description pctx name cur = the_node pctx >>= λ p.
      collected pctx >>= λ text. ret (goto node (description_finish ua p text pctx.nodeset) pctx)
  end_in inverse_name pctx name cur =
      (the_node pctx >>= λ p. collected pctx >>= λ text. inverse_name_finish ua p text pctx.nodeset)
      >>= λ nodeset. ret (goto node nodeset pctx)
  end_in data_type_definition pctx name cur = ret (goto node pctx.nodeset pctx)
  end_in data_type_definition_field pctx name cur =
      ret (goto data_type_definition pctx.nodeset pctx)
  end_in init pctx name cur = ret (reset pctx)

  -- `OnEndElementNs`
  unfoldable pub on_end_element : Ctx ua fc → String → ℕ → Exec (Ctx ua fc)
  unfolding end_in
  on_end_element pctx name cur =
      if ltb 0 pctx.unknown_depth
      then ret (record pctx { unknown_depth = pctx.unknown_depth - 1 })
      else end_in pctx.state pctx name cur
