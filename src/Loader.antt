-- ===== src/Loader.antt =====
-- The XML handlers of src/NodesetLoader.c, and the parser context that they share.
-- An XML parser (libxml2) calls them with the elements and the character data of a file.
pub mod Start
pub mod End
pub mod Run
pub mod Import
pub mod Control
pub mod Ends
pub mod Items
pub mod Balance
pub mod Reads
pub mod Characters
use Prim.Native.String.{String}
use text.Mathlib.Text.{◌==◌ as str_eq}
use open62541_nodeset_loader.Base.{
  ℕ, zero, suc, ◌+◌, ◌-◌, Bool, true, ◌||◌, List, Option, none, some, get_or, length, ltb, take,
  drop, ◌==◌, if◌then◌else◌, Exec, fault, ret, ◌>>=◌, deref,
}
use open62541_nodeset_loader.Ua.{Text, NamespaceMapping, Ua}
use open62541_nodeset_loader.Arena.{CharPtr, malloc, realloc, write_user, c_string}
use open62541_nodeset_loader.Container.{NodePtr, null_ptr}
use open62541_nodeset_loader.Container
use open62541_nodeset_loader.Node.{NodeClass, class_index, Node, Specific}
use open62541_nodeset_loader.Nodeset.{Nodeset, update}
use open62541_nodeset_loader.Build.Attributes.{Attribute}
use open62541_nodeset_loader.Build.Fields.{add_data_type_definition, add_data_type_field}
use open62541_nodeset_loader.Build.{
  RefPtr, new_node, new_reference, new_reference_finish, nodeset_new_alias, new_alias_finish,
  new_namespace_finish, set_display_name, display_name_finish, set_description, description_finish,
  set_inverse_name, inverse_name_finish, write_node,
}

pub data TParserState : Type 0 where
  init node display_name references reference description inverse_name alias namespace_uris uri
        value extension extensions data_type_definition data_type_definition_field :
      TParserState

-- The callbacks of a file context: `addNamespace`, and the extension interface with the state
-- `Data` that it keeps behind its pointers. An extension is a number, or NULL.
pub record FileContext (ua : Ua) : Type 1 where
  pub UserContext : Type 0
  pub add_namespace : Text → UserContext → NamespaceMapping → Exec (UserContext × NamespaceMapping)
  pub ext_if : Bool
  pub Data : Type 0
  pub new_extension : Data → Data × Option ℕ
  pub start : Option ℕ → String → List Attribute → Data → Data
  pub end : Option ℕ → String → Option Text → Data → Data
  pub finish : Option ℕ → Data → Data

-- `cur` is where the parser stands in `buf` during the call, which libxml2 keeps.
pub record TParserCtx (ua : Ua) (fc : FileContext ua) : Type 0 where
  pub user_context : fc.UserContext
  pub state : TParserState
  pub unknown_depth : ℕ
  pub value_depth : ℕ
  pub node_class : NodeClass
  pub node : NodePtr
  pub alias : Option ℕ
  pub on_characters : Option CharPtr
  pub on_char_length : ℕ
  pub value_begin : ℕ
  pub extension_data : Option ℕ
  pub ref : Option RefPtr
  pub nodeset : Nodeset ua
  pub ext_state : fc.Data
  pub buf : List ℕ

-- What the parser reports. The numbers are positions in the file.
pub data Event : Type 0 where
  start_element : String → List Attribute → ℕ → Event
  end_element : String → ℕ → Event
  characters : List ℕ → Event

abbrev pub Ctx : (ua : Ua) → FileContext ua → Type 0
Ctx ua fc = TParserCtx ua fc

module _ {ua : Ua} {fc : FileContext ua} where
  -- What both element handlers do last.
  abbrev pub reset : Ctx ua fc → Ctx ua fc
  reset pctx = record pctx { on_characters = none; on_char_length = 0 }

  abbrev pub goto : TParserState → Nodeset ua → Ctx ua fc → Ctx ua fc
  goto state nodeset pctx = reset (record pctx { nodeset = nodeset; state = state })

  -- An element that is not known here: the handler returns at once.
  abbrev pub unknown : Ctx ua fc → Ctx ua fc
  unknown pctx = record pctx { unknown_depth = pctx.unknown_depth + 1 }

  -- `pctx->node`, which is about to be dereferenced.
  unfoldable pub the_node : Ctx ua fc → Exec NodePtr
  the_node pctx = if pctx.node == null_ptr then fault else ret pctx.node

  -- The text that was collected, or NULL.
  unfoldable pub collected : Ctx ua fc → Exec (Option Text)
  collected pctx = elim pctx.on_characters [
    | none ↦ ret none
    | some p ↦ c_string pctx.nodeset.char_arena p >>= λ text. ret (some text)
  ]
