-- ===== src/Backend/Members.antt =====
-- The members of custom data types, in backends/open62541/src/DataTypeImporter.c.
pub mod Fill
pub mod Typed
pub mod Structures
pub mod Enumerations
use Prim.Native.String.{String}
use open62541_nodeset_loader.Base.{
  ℕ, zero, suc, ◌+◌, ◌%◌, Bool, true, false, ◌&&◌, ◌||◌, not, List, [], ◌∷◌, ◌++◌, Option, none,
  some, length, take, replicate, set, ltb, leb, ◌==◌, if◌then◌else◌, codes, text_eq, Exec, fault,
  ret, ◌>>=◌, deref,
}
use open62541_nodeset_loader.Ua.{Text, Ua}
use open62541_nodeset_loader.Container.{NodePtr}
use open62541_nodeset_loader.Node.{
  Reference, Node, DataTypeNode, DataTypeDefinition, DataTypeDefinitionField,
}
use open62541_nodeset_loader.Nodeset.{null_id}
use open62541_nodeset_loader.Build.Fields.{as_data_type}
use open62541_nodeset_loader.Backend.{
  StatusCode, good, bad_internal_error, bad_out_of_memory, MemberType, null, pointer, number,
  DataTypeMember, DataType, Server, LogMessage, member_type_missing, description_failed,
  AddNodeContext,
}
use open62541_nodeset_loader.Backend.Parents.{get_parent_id}

module _ (ua : Ua) (S : Server ua) where
  abbrev pub UaType : Type 0
  UaType = DataType ua.NodeId S.TypePtr

  abbrev pub Member : Type 0
  Member = DataTypeMember S.TypePtr

  -- A member as `calloc` leaves it.
  abbrev pub no_member : Member
  no_member = record {
    member_name = none;
    member_type = null;
    is_array = false;
    is_optional = false;
  }

  -- A member and what it says of the type; its type must be a pointer to one.
  unfoldable pub put_member : S.State → ℕ → Member → UaType → Exec UaType
  put_member state i m type = elim m.member_type [
    | pointer p ↦ ret (record type {
      members = set type.members i m;
      pointer_free =
          type.pointer_free
          && ((S.read_type state p).pointer_free && (not m.is_array && not m.is_optional));
      type_kind = if m.is_optional then S.kind_optstruct else type.type_kind;
    })
    | _ ↦ fault
  ]

  -- The loop over the members of the parent. `strlen` needs a name.
  unfoldable pub put_parent_members : S.State → List Member → ℕ → UaType → Exec UaType
  unfolding put_member
  put_parent_members state [] i type = ret type
  put_parent_members state (src ∷ members) i type = deref src.member_name >>= λ name.
      (put_member state i src type >>= λ next. put_parent_members state members (i + 1) next)

  abbrev pub Outcome : Type 0
  Outcome = AddNodeContext ua S × UaType × StatusCode

  -- The loop over the fields, which ends at the first one whose type the server does not know.
  unfoldable pub put_field_members :
      AddNodeContext ua S → List (DataTypeDefinitionField ua.NodeId) → ℕ → UaType → Exec Outcome
  unfolding put_member
  put_field_members ctx [] i type = ret (ctx, type, good)
  put_field_members ctx (field ∷ fields) i type = deref field.name >>= λ name.
      (elim (S.find_data_type ctx.server field.data_type) [
        | none ↦ ret (
          record ctx { log = ctx.log ++ member_type_missing field.data_type type.type_id ∷ [] },
          record type {
            members = set type.members i (record no_member { member_name = some name });
          },
          bad_internal_error,
        )
        | some p ↦
            put_member ctx.server i
              (record {
                member_name = some name;
                member_type = pointer p;
                is_array = not field.value_rank.negative;
                is_optional = field.is_optional;
              })
              type
            >>= λ next. put_field_members ctx fields (i + 1) next
      ])

  abbrev pub fields_of : DataTypeNode ua.NodeId → List (DataTypeDefinitionField ua.NodeId)
  fields_of node = elim node.definition [ none ↦ [] | some definition ↦ definition.fields ]

  -- What a parent's pointer gives: its members, if there is a parent.
  abbrev pub parent_members : S.State → Option S.TypePtr → List Member
  parent_members state none = []
  parent_members state (some p) =
      take (S.read_type state p).members_size (S.read_type state p).members

  abbrev pub parent_size : S.State → Option S.TypePtr → ℕ
  parent_size state none = 0
  parent_size state (some p) = (S.read_type state p).members_size

  unfoldable pub add_data_type_members :
      AddNodeContext ua S → UaType → DataTypeNode ua.NodeId → ua.NodeId → Exec Outcome
  unfolding put_parent_members put_field_members
  add_data_type_members ctx type node parent =
      let parent_type = S.find_data_type ctx.server parent in
      let member_size = length (fields_of node) + parent_size ctx.server parent_type in
      if S.calloc_succeeds ctx.server member_size
      then (put_parent_members ctx.server (parent_members ctx.server parent_type) 0 (record type {
        members = replicate member_size no_member;
        members_size = member_size % 256;
      })
          >>= λ copied.
              put_field_members ctx (fields_of node) (parent_size ctx.server parent_type) copied)
      else ret (ctx, record type { members = [] }, bad_out_of_memory)

  -- `members[i]` for the first fields of an enumeration; the value goes into the pointer.
  unfoldable pub put_enum_members :
      List (DataTypeDefinitionField ua.NodeId) → ℕ → UaType → Exec UaType
  put_enum_members [] i type = ret type
  put_enum_members (field ∷ fields) i type = deref field.name >>= λ name.
      put_enum_members fields (i + 1) (record type {
        members =
            set type.members i
              (record no_member { member_name = some name; member_type = number field.value });
      })

  unfoldable pub add_enum_members :
      S.State → UaType → DataTypeDefinition ua.NodeId → Exec (UaType × StatusCode)
  unfolding put_enum_members
  add_enum_members state type definition =
      if length definition.fields == 0
      then ret (type, good)
      else (if S.calloc_succeeds state (length definition.fields)
          then (put_enum_members (take (length definition.fields % 256) definition.fields) 0
                (record type {
                  members = replicate (length definition.fields) no_member;
                  members_size = length definition.fields % 256;
                })
              >>= λ filled. ret (filled, good))
          else ret (record type { members = [] }, bad_out_of_memory))
