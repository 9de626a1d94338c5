-- ===== src/Loader/Control.antt =====
-- The part of the handlers of src/NodesetLoader.c that decides what an element means.
use Prim.Native.String.{String}
use text.Mathlib.Text.{◌==◌ as str_eq}
use open62541_nodeset_loader.Base.{ℕ, ◌+◌, ◌-◌, ◌||◌, none, some, ltb, ◌==◌, if◌then◌else◌}
use open62541_nodeset_loader.Ua.{Ua}
use open62541_nodeset_loader.Container.{dec_size}
use open62541_nodeset_loader.Loader.{
  TParserState, init, node, display_name, references, reference, description, inverse_name,
  namespace_uris, uri, value, extension, extensions, data_type_definition,
  data_type_definition_field, FileContext, Ctx,
}
use open62541_nodeset_loader.Loader.Start.{class_of}

-- The part of the context that decides what an element means.
pub record Control : Type 0 where
  pub state : TParserState
  pub unknown_depth : ℕ
  pub value_depth : ℕ

abbrev pub at : TParserState → ℕ → Control
at state v = record { state = state; unknown_depth = 0; value_depth = v }

abbrev pub below : TParserState → ℕ → Control
below state v = record { state = state; unknown_depth = 1; value_depth = v }

-- The control after the start of an element, by the state, the value depth and the name.
unfoldable pub open_in : TParserState → ℕ → String → Control
open_in init v name = elim (class_of name) [
  | some c ↦ at node v
  | none ↦
      if str_eq name "NamespaceUris"
      then at namespace_uris v
      else (if str_eq name "Alias"
          then at TParserState.alias v
          else (if str_eq name "UANodeSet" || (str_eq name "Aliases" || str_eq name "Extensions")
              then at init v
              else below init v))
]
open_in namespace_uris v name = if str_eq name "Uri" then at uri v else below namespace_uris v
open_in node v name =
    if str_eq name "DisplayName"
    then at display_name v
    else (if str_eq name "References"
        then at references v
        else (if str_eq name "Description"
            then at description v
            else (if str_eq name "Value"
                then at value (v + 1)
                else (if str_eq name "Extensions"
                    then at extensions v
                    else (if str_eq name "Definition"
                        then at data_type_definition v
                        else (if str_eq name "InverseName"
                            then at inverse_name v
                            else below node v))))))
open_in data_type_definition v name =
    if str_eq name "Field" then at data_type_definition_field v else below data_type_definition v
open_in value v name = if str_eq name "Value" then at value (v + 1) else at value v
open_in extensions v name = if str_eq name "Extension" then at extension v else below extensions v
open_in extension v name = at extension v
open_in references v name = if str_eq name "Reference" then at reference v else below references v
open_in state v name = below state v

-- The control after its end.
unfoldable pub close_in : TParserState → ℕ → String → Control
unfolding dec_size
close_in value v name =
    if str_eq name "Value"
    then (if dec_size v == 0 then at node (dec_size v) else at value (dec_size v))
    else at value v
close_in extension v name = if str_eq name "Extension" then at extensions v else at extension v
close_in display_name v name = at node v
close_in references v name = at node v
close_in reference v name = at references v
close_in description v name = at node v
close_in inverse_name v name = at node v
close_in TParserState.alias v name = at init v
close_in namespace_uris v name = at init v
close_in uri v name = at namespace_uris v
close_in extensions v name = at node v
close_in data_type_definition v name = at node v
close_in data_type_definition_field v name = at data_type_definition v
close_in node v name = at init v
close_in init v name = at init v

-- The control after the tags of an element.
unfoldable pub opened : Control → String → Control
opened c name =
    if ltb 0 c.unknown_depth
    then record c { unknown_depth = c.unknown_depth + 1 }
    else open_in c.state c.value_depth name

unfoldable pub closed : Control → String → Control
closed c name =
    if ltb 0 c.unknown_depth
    then record c { unknown_depth = c.unknown_depth - 1 }
    else close_in c.state c.value_depth name

module _ {ua : Ua} {fc : FileContext ua} where
  abbrev pub control : Ctx ua fc → Control
  control pctx = record {
    state = pctx.state;
    unknown_depth = pctx.unknown_depth;
    value_depth = pctx.value_depth;
  }
