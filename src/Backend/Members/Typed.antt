-- ===== src/Backend/Members/Typed.antt =====
-- Members with a type, one after the other.
use open62541_nodeset_loader.Base.{
  ℕ, ◌+◌, ◌≡◌, refl, ap, ◌∙◌, arith, Bool, true, false, ◌&&◌, ◌||◌, not, List, [], ◌∷◌, some, map,
  if◌then◌else◌, ret, ◌>>=◌,
}
use open62541_nodeset_loader.Ua.{Text, Ua}
use open62541_nodeset_loader.Node.{DataTypeDefinitionField}
use open62541_nodeset_loader.Backend.{good, pointer, Server, AddNodeContext}
use open62541_nodeset_loader.Backend.Members.{
  UaType, Member, put_member, put_parent_members, put_field_members,
}
use open62541_nodeset_loader.Backend.Members.Fill.{set_all}

-- A member with a name and a type that is there.
pub record TypedMember (TypePtr : Type 0) : Type 0 where
  pub name : Text
  pub type : TypePtr
  pub is_array : Bool
  pub is_optional : Bool

module _ (ua : Ua) (S : Server ua) where
  abbrev pub Typed : Type 0
  Typed = TypedMember S.TypePtr

  abbrev pub as_member : Typed → Member ua S
  as_member t = record {
    member_name = some t.name;
    member_type = pointer t.type;
    is_array = t.is_array;
    is_optional = t.is_optional;
  }

  -- What the server makes of a field.
  pub record Describes (state : S.State) (field : DataTypeDefinitionField ua.NodeId) (t : Typed)
      : Type 0 where
    pub named : field.name ≡ some t.name
    pub found : S.find_data_type state field.data_type ≡ some t.type
    pub array : t.is_array ≡ not field.value_rank.negative
    pub option : t.is_optional ≡ field.is_optional

  abbrev pub AllDescribe : S.State → List (DataTypeDefinitionField ua.NodeId) → List Typed → Type 0
  AllDescribe state [] [] = Unit {0}
  AllDescribe state (field ∷ fields) (t ∷ ts) =
      Describes state field t × AllDescribe state fields ts
  AllDescribe state _ _ = ⊥

  -- A member of a fixed size whose content needs no pointer.
  abbrev pub simple : S.State → Typed → Bool
  simple state t = (S.read_type state t.type).pointer_free && (not t.is_array && not t.is_optional)

  abbrev pub all_simple : S.State → List Typed → Bool
  all_simple state [] = true
  all_simple state (t ∷ ts) = simple state t && all_simple state ts

  abbrev pub any_optional : List Typed → Bool
  any_optional [] = false
  any_optional (t ∷ ts) = t.is_optional || any_optional ts

  -- The type when the members stand from an index on.
  abbrev pub with_members : S.State → List Typed → ℕ → UaType ua S → UaType ua S
  with_members state ts i type = record type {
    members = set_all i (map as_member ts) type.members;
    pointer_free = type.pointer_free && all_simple state ts;
    type_kind = if any_optional ts then S.kind_optstruct else type.type_kind;
  }

  same_but :
      (type : UaType ua S) (ms ms' : List (Member ua S)) (b b' : Bool) (k k' : ℕ)
      → ms ≡ ms'
      → b ≡ b'
      → k ≡ k'
      → (record type { members = ms; pointer_free = b; type_kind = k })
        ≡ (record type { members = ms'; pointer_free = b'; type_kind = k' })
  same_but type ms ms' b b' k k' p q r = cc

  with_members_step :
      (state : S.State) (t : Typed) (ts : List Typed) (i : ℕ) (type : UaType ua S)
      → with_members state ts (i + 1) (with_members state (t ∷ []) i type)
        ≡ with_members state (t ∷ ts) i type
  with_members_step state t ts i type = same_but type _ _ _ _ _ _ refl (ground arith) (ground arith)

  put_member_ret :
      (state : S.State) (t : Typed) (i : ℕ) (type : UaType ua S)
      → put_member ua S state i (as_member t) type ≡ ret (with_members state (t ∷ []) i type)
  unfolding put_member
  put_member_ret state t i type =
      ap ret (same_but type _ _ _ _ _ _ refl (ground arith) (ground arith))

  pub put_parent_members_ret :
      (state : S.State) (ts : List Typed) (i : ℕ) (type : UaType ua S)
      → put_parent_members ua S state (map as_member ts) i type ≡ ret (with_members state ts i type)
  unfolding put_parent_members
  put_parent_members_ret state [] i type =
      ap ret (same_but type _ _ _ _ _ _ refl (ground arith) refl)
  put_parent_members_ret state (t ∷ ts) i type =
      ap (λ r. r >>= λ next. put_parent_members ua S state (map as_member ts) (i + 1) next)
        (put_member_ret state t i type)
      ∙ (put_parent_members_ret state ts (i + 1) (with_members state (t ∷ []) i type)
          ∙ ap ret (with_members_step state t ts i type))

  put_field_step :
      (ctx : AddNodeContext ua S) (field : DataTypeDefinitionField ua.NodeId)
      (fields : List (DataTypeDefinitionField ua.NodeId)) (t : Typed) (i : ℕ) (type : UaType ua S)
      → Describes ctx.server field t
      → put_field_members ua S ctx (field ∷ fields) i type ≡ (
          put_member ua S ctx.server i (as_member t) type >>= λ next.
          put_field_members ua S ctx fields (i + 1) next)
  unfolding put_field_members
  put_field_step ctx field fields t i type d =
      rw d.named (rw d.found (rw d.array (rw d.option refl)))

  put_no_field :
      (ctx : AddNodeContext ua S) (i : ℕ) (type : UaType ua S)
      → put_field_members ua S ctx [] i type ≡ ret (ctx, with_members ctx.server [] i type, good)
  unfolding put_field_members
  put_no_field ctx i type =
      ap (λ r. ret (ctx, r, good)) (same_but type _ _ _ _ _ _ refl (ground arith) refl)

  pub put_field_members_ret :
      (ctx : AddNodeContext ua S) (fields : List (DataTypeDefinitionField ua.NodeId))
      (ts : List Typed) (i : ℕ) (type : UaType ua S)
      → AllDescribe ctx.server fields ts
      → put_field_members ua S ctx fields i type
        ≡ ret (ctx, with_members ctx.server ts i type, good)
  put_field_members_ret ctx [] [] i type d = put_no_field ctx i type
  put_field_members_ret ctx (field ∷ fields) (t ∷ ts) i type d =
      put_field_step ctx field fields t i type d.0
      ∙ (ap (λ r. r >>= λ next. put_field_members ua S ctx fields (i + 1) next)
            (put_member_ret ctx.server t i type)
          ∙ (put_field_members_ret ctx fields ts (i + 1) (with_members ctx.server (t ∷ []) i type)
                d.1
              ∙ ap (λ r. ret (ctx, r, good)) (with_members_step ctx.server t ts i type)))
  put_field_members_ret ctx [] (t ∷ ts) i type d = absurd d
  put_field_members_ret ctx (field ∷ fields) [] i type d = absurd d
