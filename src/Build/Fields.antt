-- ===== src/Build/Fields.antt =====
-- The data type definitions that src/Nodeset.c builds from `Definition` and `Field` elements.
use open62541_nodeset_loader.Base.{
  ℕ, ◌+◌, ◌-◌, ◌*◌, ◌^◌, Bool, true, false, ◌&&◌, ◌||◌, not, List, [], ◌∷◌, ◌++◌, Option, none,
  some, ◌==◌, leb, ltb, if◌then◌else◌, codes, text_eq, Exec, fault, ret, ◌>>=◌, deref,
}
use open62541_nodeset_loader.Ua.{Text, Ua}
use open62541_nodeset_loader.Container.{NodePtr}
use open62541_nodeset_loader.Node.{
  Specific, CInt, DataTypeDefinition, DataTypeDefinitionField, DataTypeNode,
}
use open62541_nodeset_loader.Nodeset.{Nodeset, update, null_id}
use open62541_nodeset_loader.Build.Attributes.{
  Attribute, NodeAttribute, get_attribute_value, alias_to_id, attr_value_rank, definition_is_union,
  definition_is_option_set, field_name, field_data_type, field_value, field_is_optional,
}

abbrev pub is_space : ℕ → Bool
is_space c = (c == 32) || (leb 9 c && leb c 13)

abbrev pub is_digit : ℕ → Bool
is_digit c = leb 48 c && leb c 57

-- The leading digits, after those that are read.
unfoldable pub digits : ℕ → List ℕ → ℕ
digits read [] = read
digits read (c ∷ text) =
    let more = digits (read * 10 + (c - 48)) text in if is_digit c then more else read

-- A value outside a 32-bit `int` is undefined.
abbrev pub as_int : Bool → ℕ → Exec CInt
as_int negative magnitude =
    if ltb magnitude (2 ^ 31)
    then ret (record { negative = negative && not (magnitude == 0); magnitude = magnitude })
    else (if negative && (magnitude == 2 ^ 31)
        then ret (record { negative = true; magnitude = magnitude })
        else fault)

unfoldable pub signed : Text → Exec CInt
unfolding digits
signed [] = as_int false 0
signed (c ∷ text) =
    if c == 45
    then as_int true (digits 0 text)
    else (if c == 43 then as_int false (digits 0 text) else as_int false (digits 0 (c ∷ text)))

unfoldable pub skip_spaces : Text → Text
skip_spaces [] = []
skip_spaces (c ∷ text) = let rest = skip_spaces text in if is_space c then rest else c ∷ text

-- The C library's `atoi`.
unfoldable pub atoi : Text → Exec CInt
unfolding skip_spaces signed
atoi text = signed (skip_spaces text)

module _ (ua : Ua) where
  -- `getAttributeValue` as an operation of the nodeset.
  unfoldable pub get_value :
      NodeAttribute → List Attribute → Nodeset ua → Exec (Nodeset ua × Option Text)
  get_value attr attributes nodeset = do
    (arena, value) ← get_attribute_value nodeset.char_arena attr attributes
    ret (record nodeset { char_arena = arena }, value)

  -- `!strcmp("true", getAttributeValue(...))`
  unfoldable pub get_flag : NodeAttribute → List Attribute → Nodeset ua → Exec (Nodeset ua × Bool)
  unfolding get_value
  get_flag attr attributes nodeset = do
    (read, value) ← get_value attr attributes nodeset
    text ← deref value
    ret (read, text_eq (codes "true") text)

  -- The cast to `NL_DataTypeNode *`.
  unfoldable pub as_data_type : Specific ua.NodeId → Exec (DataTypeNode ua.NodeId)
  as_data_type (Specific.data_type n) = ret n
  as_data_type _ = fault

  -- A definition that was there before is replaced; the code does not free it.
  unfoldable pub set_definition :
      NodePtr → DataTypeNode ua.NodeId → DataTypeDefinition ua.NodeId → Nodeset ua → Nodeset ua
  set_definition p n definition nodeset = record nodeset {
    heap = update nodeset.heap p (record (nodeset.heap p) {
      specific = Specific.data_type (record n { definition = some definition });
    });
  }

  unfoldable pub add_data_type_definition :
      NodePtr → List Attribute → Nodeset ua → Exec (Nodeset ua)
  unfolding get_flag as_data_type set_definition
  add_data_type_definition p attributes nodeset = do
    n ← as_data_type (nodeset.heap p).specific
    (nodeset1, is_union) ← get_flag definition_is_union attributes nodeset
    (nodeset2, is_option_set) ← get_flag definition_is_option_set attributes nodeset1
    ret (
        set_definition p n
          (record {
            fields = [];
            is_enum = false;
            is_union = is_union;
            is_option_set = is_option_set;
          })
          nodeset2)

  -- The field as `memset` leaves it.
  abbrev empty_field : DataTypeDefinitionField ua.NodeId
  empty_field = record {
    name = none;
    data_type = null_id ua;
    value_rank = record { negative = false; magnitude = 0 };
    value = record { negative = false; magnitude = 0 };
    is_optional = false;
  }

  -- What the attributes say of a field, by whether there is a value; and whether they make the type
  -- an enumeration.
  unfoldable pub read_field :
      Option Text
      → Option Text
      → List Attribute
      → DataTypeDefinition ua.NodeId
      → Nodeset ua
      → Exec (Nodeset ua × DataTypeDefinitionField ua.NodeId × Bool)
  unfolding get_value get_flag
  read_field name (some value) attributes definition nodeset = do
    number ← atoi value
    ret (nodeset, record empty_field { name = name; value = number }, not definition.is_option_set)
  read_field name none attributes definition nodeset = do
    (nodeset1, type_name) ← get_value field_data_type attributes nodeset
    data_type ← alias_to_id ua nodeset1 type_name
    (nodeset2, rank_text) ← get_value attr_value_rank attributes nodeset1
    rank ← deref rank_text
    value_rank ← atoi rank
    (nodeset3, is_optional) ← get_flag field_is_optional attributes nodeset2
    ret (
      nodeset3,
      record empty_field {
        name = name;
        data_type = data_type;
        value_rank = value_rank;
        is_optional = is_optional;
      },
      definition.is_enum,
    )

  -- The new field is the last one.
  unfoldable pub add_data_type_field : NodePtr → List Attribute → Nodeset ua → Exec (Nodeset ua)
  unfolding get_value as_data_type set_definition read_field
  add_data_type_field p attributes nodeset = do
    n ← as_data_type (nodeset.heap p).specific
    definition ← deref n.definition
    (nodeset1, name) ← get_value field_name attributes nodeset
    (nodeset2, value) ← get_value field_value attributes nodeset1
    (nodeset3, field, is_enum) ← read_field name value attributes definition nodeset2
    ret (
        set_definition p n
          (record definition { fields = definition.fields ++ field ∷ []; is_enum = is_enum })
          nodeset3)
