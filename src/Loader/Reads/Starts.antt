-- ===== src/Loader/Reads/Starts.antt =====
-- `OnStartElementNs` leaves a nodeset that is being read.
use Prim.Native.String.{String}
use text.Mathlib.Text.{◌==◌ as str_eq}
use open62541_nodeset_loader.Base.{
  ℕ, ◌||◌, List, ltb, Exec, ◌>>=◌, Ensures, Ensures-ret, Ensures-bind, Ensures-rest, Ensures-if,
  Ensures-case,
}
use open62541_nodeset_loader.Ua.{Ua}
use open62541_nodeset_loader.Container.{NodePtr}
use open62541_nodeset_loader.Nodeset.{Nodeset}
use open62541_nodeset_loader.Build.Attributes.{Attribute}
use open62541_nodeset_loader.Build.Fields.{add_data_type_definition, add_data_type_field}
use open62541_nodeset_loader.Build.{
  new_node, new_reference, nodeset_new_alias, set_display_name, set_description, set_inverse_name,
}
use open62541_nodeset_loader.Build.Keeps.{IsRead, new_node-IsRead}
use open62541_nodeset_loader.Build.Keeps.Types.{
  add_data_type_definition-IsRead, add_data_type_field-IsRead,
}
use open62541_nodeset_loader.Build.Keeps.Texts.{
  new_reference-IsRead, nodeset_new_alias-IsRead, set_display_name-IsRead, set_description-IsRead,
  set_inverse_name-IsRead,
}
use open62541_nodeset_loader.Loader.{
  TParserState, init, node, namespace_uris, value, extension, extensions, references,
  data_type_definition, FileContext, Ctx, the_node,
}
use open62541_nodeset_loader.Loader.Start.{
  class_of, start_init, value_start, start_node, start_definition, start_extensions,
  start_extension, start_references, start_in, on_start_element,
}
use open62541_nodeset_loader.Loader.Reads.{Reads, Reading}

module _ (ua : Ua) (fc : FileContext ua) where
  -- A change of the node at hand that may fail.
  at_node :
      (pctx : Ctx ua fc) (change : NodePtr → Exec (Nodeset ua))
      (rest : Nodeset ua → Exec (Ctx ua fc))
      → ((p : NodePtr) → Ensures (IsRead ua) (change p))
      → ((t : Nodeset ua) → IsRead ua t → Reading ua fc (rest t))
      → Reading ua fc ((the_node pctx >>= change) >>= rest)
  at_node pctx change rest h k =
      Ensures-bind (IsRead ua) _ (the_node pctx >>= change) rest
        (Ensures-rest _ (the_node pctx) change h) k

  start_init-Reading :
      (pctx : Ctx ua fc) (name : String) (attributes : List Attribute)
      → Reads ua fc pctx
      → Reading ua fc (start_init ua fc pctx name attributes)
  unfolding start_init
  start_init-Reading pctx name attributes h =
      Ensures-case _ (class_of name) _ _
        (λ c.
          Ensures-bind (λ r. IsRead ua r.0) _ (new_node ua c attributes pctx.nodeset) _
            (new_node-IsRead ua c attributes pctx.nodeset h) λ r k. Ensures-ret _ _ k)
        (Ensures-if _ (str_eq name "NamespaceUris") _ _ (Ensures-ret _ _ h) (
          Ensures-if _ (str_eq name "Alias") _ _
            (Ensures-bind (λ r. IsRead ua r.0) _ (nodeset_new_alias ua attributes pctx.nodeset) _
              (nodeset_new_alias-IsRead ua attributes pctx.nodeset h) λ r k. Ensures-ret _ _ k)
            (Ensures-if _
              (str_eq name "UANodeSet" || (str_eq name "Aliases" || str_eq name "Extensions")) _ _
              (Ensures-ret _ _ h) (Ensures-ret _ _ h))))

  start_node-Reading :
      (pctx : Ctx ua fc) (name : String) (attributes : List Attribute) (cur : ℕ)
      → Reads ua fc pctx
      → Reading ua fc (start_node ua fc pctx name attributes cur)
  unfolding start_node
  start_node-Reading pctx name attributes cur h =
      Ensures-if _ (str_eq name "DisplayName") _ _
        (at_node pctx (λ p. set_display_name ua p attributes pctx.nodeset) _
          (λ p. set_display_name-IsRead ua p attributes pctx.nodeset h) λ t k. Ensures-ret _ _ k)
        (Ensures-if _ (str_eq name "References") _ _ (Ensures-ret _ _ h) (
          Ensures-if _ (str_eq name "Description") _ _
            (at_node pctx (λ p. set_description ua p attributes pctx.nodeset) _
              (λ p. set_description-IsRead ua p attributes pctx.nodeset h) λ t k. Ensures-ret _ _ k)
            (Ensures-if _ (str_eq name "Value") _ _
              (Ensures-rest _ (value_start ua fc pctx.buf cur) _ λ begin. Ensures-ret _ _ h)
              (Ensures-if _ (str_eq name "Extensions") _ _ (Ensures-ret _ _ h) (
                Ensures-if _ (str_eq name "Definition") _ _
                  (at_node pctx (λ p. add_data_type_definition ua p attributes pctx.nodeset) _
                    (λ p. add_data_type_definition-IsRead ua p attributes pctx.nodeset h)
                    λ t k. Ensures-ret _ _ k)
                  (Ensures-if _ (str_eq name "InverseName") _ _
                    (at_node pctx (λ p. set_inverse_name ua p attributes pctx.nodeset) _
                      (λ p. set_inverse_name-IsRead ua p attributes pctx.nodeset h)
                      λ t k. Ensures-ret _ _ k)
                    (Ensures-ret _ _ h)))))))

  start_definition-Reading :
      (pctx : Ctx ua fc) (name : String) (attributes : List Attribute)
      → Reads ua fc pctx
      → Reading ua fc (start_definition ua fc pctx name attributes)
  unfolding start_definition
  start_definition-Reading pctx name attributes h =
      Ensures-if _ (str_eq name "Field") _ _
        (at_node pctx (λ p. add_data_type_field ua p attributes pctx.nodeset) _
          (λ p. add_data_type_field-IsRead ua p attributes pctx.nodeset h) λ t k. Ensures-ret _ _ k)
        (Ensures-ret _ _ h)

  start_extensions-Reading :
      (pctx : Ctx ua fc) (name : String)
      → Reads ua fc pctx
      → Reading ua fc (start_extensions ua fc pctx name)
  unfolding start_extensions
  start_extensions-Reading pctx name h =
      Ensures-if _ (str_eq name "Extension") _ _
        (Ensures-if _ fc.ext_if _ _ (Ensures-ret _ _ h) (Ensures-ret _ _ h)) (Ensures-ret _ _ h)

  start_references-Reading :
      (pctx : Ctx ua fc) (name : String) (attributes : List Attribute)
      → Reads ua fc pctx
      → Reading ua fc (start_references ua fc pctx name attributes)
  unfolding start_references
  start_references-Reading pctx name attributes h =
      Ensures-if _ (str_eq name "Reference") _ _
        (Ensures-bind (λ r. IsRead ua r.0) _
          (the_node pctx >>= λ p. new_reference ua p attributes pctx.nodeset) _
          (Ensures-rest _ (the_node pctx) _
            λ p. new_reference-IsRead ua p attributes pctx.nodeset h)
          λ r k. Ensures-ret _ _ k)
        (Ensures-ret _ _ h)

  start_in-Reading :
      (s : TParserState) (pctx : Ctx ua fc) (name : String) (attributes : List Attribute) (cur : ℕ)
      → Reads ua fc pctx
      → Reading ua fc (start_in ua fc s pctx name attributes cur)
  unfolding start_in start_extension
  start_in-Reading init pctx name attributes cur h = start_init-Reading pctx name attributes h
  start_in-Reading namespace_uris pctx name attributes cur h =
      Ensures-if _ (str_eq name "Uri") _ _ (Ensures-ret _ _ h) (Ensures-ret _ _ h)
  start_in-Reading node pctx name attributes cur h = start_node-Reading pctx name attributes cur h
  start_in-Reading data_type_definition pctx name attributes cur h =
      start_definition-Reading pctx name attributes h
  start_in-Reading value pctx name attributes cur h =
      Ensures-if _ (str_eq name "Value") _ _ (Ensures-ret _ _ h) (Ensures-ret _ _ h)
  start_in-Reading extensions pctx name attributes cur h = start_extensions-Reading pctx name h
  start_in-Reading extension pctx name attributes cur h =
      Ensures-if _ fc.ext_if _ _ (Ensures-ret _ _ h) (Ensures-ret _ _ h)
  start_in-Reading references pctx name attributes cur h =
      start_references-Reading pctx name attributes h
  start_in-Reading _ pctx name attributes cur h = Ensures-ret _ _ h

  pub on_start_element-Reading :
      (pctx : Ctx ua fc) (name : String) (attributes : List Attribute) (cur : ℕ)
      → Reads ua fc pctx
      → Reading ua fc (on_start_element ua fc pctx name attributes cur)
  unfolding on_start_element
  on_start_element-Reading pctx name attributes cur h =
      Ensures-if _ (ltb 0 pctx.unknown_depth) _ _ (Ensures-ret _ _ h)
        (start_in-Reading pctx.state pctx name attributes cur h)
