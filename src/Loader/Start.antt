-- ===== src/Loader/Start.antt =====
-- `OnStartElementNs` of src/NodesetLoader.c, with a function for each state that looks at names.
use Prim.Native.String.{String}
use text.Mathlib.Text.{◌==◌ as str_eq}
use open62541_nodeset_loader.Base.{
  ℕ, zero, suc, ◌+◌, ◌||◌, List, Option, none, some, get_or, ltb, ◌==◌, if◌then◌else◌, Exec, fault,
  ret, ◌>>=◌,
}
use open62541_nodeset_loader.Ua.{Ua}
use open62541_nodeset_loader.Container.{null_ptr}
use open62541_nodeset_loader.Node.{NodeClass}
use open62541_nodeset_loader.Build.Attributes.{Attribute}
use open62541_nodeset_loader.Build.Fields.{add_data_type_definition, add_data_type_field}
use open62541_nodeset_loader.Build.{
  new_node, new_reference, nodeset_new_alias, set_display_name, set_description, set_inverse_name,
}
use open62541_nodeset_loader.Loader.{
  TParserState, init, node, display_name, references, reference, description, inverse_name,
  namespace_uris, uri, value, extension, extensions, data_type_definition,
  data_type_definition_field, FileContext, Ctx, reset, goto, unknown, the_node,
}

-- The class that an element's name stands for.
unfoldable pub class_of : String → Option NodeClass
class_of name =
    if str_eq name "UAVariable"
    then some NodeClass.variable
    else (if str_eq name "UAObject"
        then some NodeClass.object
        else (if str_eq name "UAObjectType"
            then some NodeClass.object_type
            else (if str_eq name "UADataType"
                then some NodeClass.data_type
                else (if str_eq name "UAMethod"
                    then some NodeClass.method
                    else (if str_eq name "UAReferenceType"
                        then some NodeClass.reference_type
                        else (if str_eq name "UAVariableType"
                            then some NodeClass.variable_type
                            else (if str_eq name "UAView" then some NodeClass.view else none)))))))

module _ (ua : Ua) (fc : FileContext ua) where
  unfoldable pub start_init : Ctx ua fc → String → List Attribute → Exec (Ctx ua fc)
  start_init pctx name attributes = elim (class_of name) [
    | some c ↦ new_node ua c attributes pctx.nodeset >>= λ r.
        ret (goto node r.0 (record pctx { node_class = c; node = r.1 }))
    | none ↦
        if str_eq name "NamespaceUris"
        then ret (goto namespace_uris pctx.nodeset pctx)
        else (if str_eq name "Alias"
            then (nodeset_new_alias ua attributes pctx.nodeset >>= λ r.
                ret (goto TParserState.alias r.0 (record pctx { node = null_ptr; alias = r.1 })))
            else (if str_eq name "UANodeSet" || (str_eq name "Aliases" || str_eq name "Extensions")
                then ret (goto init pctx.nodeset pctx)
                else ret (unknown pctx)))
  ]

  -- `while(buf[valueBegin] != '<') valueBegin--;`, which must not run off the start.
  unfoldable pub value_start : List ℕ → ℕ → Exec ℕ
  value_start buf zero = if get_or buf zero 0 == 60 then ret zero else fault
  value_start buf (suc n) =
      let rest = value_start buf n in if get_or buf (suc n) 0 == 60 then ret (suc n) else rest

  unfoldable pub start_node : Ctx ua fc → String → List Attribute → ℕ → Exec (Ctx ua fc)
  unfolding the_node value_start
  start_node pctx name attributes cur =
      if str_eq name "DisplayName"
      then ((the_node pctx >>= λ p. set_display_name ua p attributes pctx.nodeset) >>= λ nodeset.
          ret (goto display_name nodeset pctx))
      else (if str_eq name "References"
          then ret (goto references pctx.nodeset pctx)
          else (if str_eq name "Description"
              then ((the_node pctx >>= λ p. set_description ua p attributes pctx.nodeset)
                  >>= λ nodeset. ret (goto description nodeset pctx))
              else (if str_eq name "Value"
                  then (value_start pctx.buf cur >>= λ begin. ret (
                      goto value pctx.nodeset
                        (record pctx { value_depth = pctx.value_depth + 1; value_begin = begin })))
                  else (if str_eq name "Extensions"
                      then ret (goto extensions pctx.nodeset pctx)
                      else (if str_eq name "Definition"
                          then ((the_node pctx >>= λ p.
                                add_data_type_definition ua p attributes pctx.nodeset)
                              >>= λ nodeset. ret (goto data_type_definition nodeset pctx))
                          else (if str_eq name "InverseName"
                              then ((the_node pctx >>= λ p.
                                    set_inverse_name ua p attributes pctx.nodeset)
                                  >>= λ nodeset. ret (goto inverse_name nodeset pctx))
                              else ret (unknown pctx)))))))

  unfoldable pub start_definition : Ctx ua fc → String → List Attribute → Exec (Ctx ua fc)
  unfolding the_node
  start_definition pctx name attributes =
      if str_eq name "Field"
      then ((the_node pctx >>= λ p. add_data_type_field ua p attributes pctx.nodeset) >>= λ nodeset.
          ret (goto data_type_definition_field nodeset pctx))
      else ret (unknown pctx)

  unfoldable pub start_extensions : Ctx ua fc → String → Exec (Ctx ua fc)
  start_extensions pctx name =
      if str_eq name "Extension"
      then (if fc.ext_if
          then (let (ext_state, created) = fc.new_extension pctx.ext_state in
              ret (
                goto extension pctx.nodeset
                  (record pctx { extension_data = created; ext_state = ext_state })))
          else ret (goto extension pctx.nodeset pctx))
      else ret (unknown pctx)

  unfoldable pub start_extension : Ctx ua fc → String → List Attribute → Exec (Ctx ua fc)
  start_extension pctx name attributes =
      if fc.ext_if
      then ret (
          reset (record pctx {
            ext_state = fc.start pctx.extension_data name attributes pctx.ext_state;
          }))
      else ret (reset pctx)

  unfoldable pub start_references : Ctx ua fc → String → List Attribute → Exec (Ctx ua fc)
  unfolding the_node
  start_references pctx name attributes =
      if str_eq name "Reference"
      then ((the_node pctx >>= λ p. new_reference ua p attributes pctx.nodeset) >>= λ r.
          ret (goto reference r.0 (record pctx { ref = some r.1 })))
      else ret (unknown pctx)

  -- The `switch` of `OnStartElementNs`.
  unfoldable pub start_in :
      TParserState → Ctx ua fc → String → List Attribute → ℕ → Exec (Ctx ua fc)
  unfolding start_init start_node start_definition start_extensions start_extension start_references
  start_in init pctx name attributes cur = start_init pctx name attributes
  start_in namespace_uris pctx name attributes cur =
      if str_eq name "Uri" then ret (goto uri pctx.nodeset pctx) else ret (unknown pctx)
  start_in node pctx name attributes cur = start_node pctx name attributes cur
  start_in data_type_definition pctx name attributes cur = start_definition pctx name attributes
  start_in value pctx name attributes cur =
      if str_eq name "Value"
      then ret (reset (record pctx { value_depth = pctx.value_depth + 1 }))
      else ret (reset pctx)
  start_in extensions pctx name attributes cur = start_extensions pctx name
  start_in extension pctx name attributes cur = start_extension pctx name attributes
  start_in references pctx name attributes cur = start_references pctx name attributes
  start_in _ pctx name attributes cur = ret (unknown pctx)

  -- `OnStartElementNs`
  unfoldable pub on_start_element : Ctx ua fc → String → List Attribute → ℕ → Exec (Ctx ua fc)
  unfolding start_in
  on_start_element pctx name attributes cur =
      if ltb 0 pctx.unknown_depth
      then ret (unknown pctx)
      else start_in pctx.state pctx name attributes cur
