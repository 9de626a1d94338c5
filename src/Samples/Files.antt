-- ===== src/Samples/Files.antt =====
-- A file context that counts the calls of its extension interface, and the elements of a small file.
use Prim.Native.String.{String}
use open62541_nodeset_loader.Base.{ℕ, ◌+◌, true, List, [], ◌∷◌, ◌++◌, some, codes, Exec, fault, ret}
use open62541_nodeset_loader.Arena.{arena_new}
use open62541_nodeset_loader.Build.Attributes.{Attribute}
use open62541_nodeset_loader.Loader.{TParserState, FileContext, Ctx}
use open62541_nodeset_loader.Loader.Run.{new_ctx}
use open62541_nodeset_loader.Loader.Items.{Item, element, plain, nothing, more}
use open62541_nodeset_loader.Nodeset.{Nodeset}
use open62541_nodeset_loader.Samples.Ids.{sample_ua}
use open62541_nodeset_loader.Samples.Nodesets.{part_nodeset}

abbrev pub counting_fc : FileContext sample_ua
counting_fc = record {
  UserContext = ℕ;
  add_namespace = λ uri context mapping.
      ret (context + 1, record mapping { namespace_uris = mapping.namespace_uris ++ uri ∷ [] });
  ext_if = true;
  Data = ℕ;
  new_extension = λ calls. (calls + 1, some 7);
  start = λ e name attributes calls. calls + 1;
  end = λ e name text calls. calls + 1;
  finish = λ e calls. calls + 1;
}

abbrev pub small_nodeset : Nodeset sample_ua
small_nodeset = record part_nodeset { char_arena = arena_new 32 }

-- The bytes of the file matter only from a `<Value>` to its end.
abbrev pub small_buf : List ℕ
small_buf = codes "<Value>1</Value>"

abbrev pub small_ctx : Ctx sample_ua counting_fc
small_ctx = new_ctx sample_ua counting_fc small_nodeset 0 0 small_buf

abbrev with_id : String → List Attribute
with_id id = record { local_name = "NodeId"; value = codes id } ∷ []

-- <UAVariable NodeId="x"><DisplayName>ab<b/></DisplayName><Value>1</Value></UAVariable>
abbrev pub small_item : Item
small_item =
    element "UAVariable" (with_id "x") 0
      (more
        (element "DisplayName" [] 0
          (more (plain (codes "ab")) (more (element "b" [] 0 nothing 0) nothing)) 0)
        (more (element "Value" [] 6 (more (plain (codes "1")) nothing) 16) nothing))
      0

-- <Extensions><Extension><Extension/></Extension></Extensions>, and the context inside a node.
abbrev pub nested_item : Item
nested_item =
    element "Extensions" [] 0
      (more (element "Extension" [] 0 (more (element "Extension" [] 0 nothing 0) nothing) 0)
        nothing)
      0

abbrev pub node_ctx : Ctx sample_ua counting_fc
node_ctx = record small_ctx { state = TParserState.node; node = 1 }

abbrev pub result_or {ℓ} : {A : Type ℓ} → A → Exec A → A
result_or default fault = default
result_or default (ret a) = a
