-- ===== src/Backend/Members/Enumerations.antt =====
-- The members of an enumeration are the fields of the definition, as far as a byte counts them.
use open62541_nodeset_loader.Base.{
  ℕ, zero, suc, ◌+◌, ◌-◌, ◌%◌, ◌≤◌, ◌≡◌, ◌≢◌, refl, ap, ◌∙◌, arith, true, false, List, [], ◌∷◌,
  ◌++◌, some, map, length, take, drop, replicate, length-replicate, length-take, ◌==◌, ret, ◌>>=◌,
}
use open62541_nodeset_loader.Ua.{Text, Ua}
use open62541_nodeset_loader.Node.{DataTypeDefinition, DataTypeDefinitionField}
use open62541_nodeset_loader.Backend.{good, number, Server}
use open62541_nodeset_loader.Backend.Members.{
  UaType, Member, no_member, put_enum_members, add_enum_members,
}
use open62541_nodeset_loader.Backend.Members.Fill.{set_all, set_all-append, length-map, drop_all}

module _ (ua : Ua) (S : Server ua) where
  abbrev Field : Type 0
  Field = DataTypeDefinitionField ua.NodeId

  -- The member that a field becomes.
  abbrev pub enum_member : Field → Member ua S
  enum_member field = record {
    member_name = field.name;
    member_type = number field.value;
    is_array = false;
    is_optional = false;
  }

  abbrev pub AllNamed : List Field → Type 0
  AllNamed [] = Unit {0}
  AllNamed (field ∷ fields) = ((name : Text) × (field.name ≡ some name)) × AllNamed fields

  put_enum_members_ret :
      (fields : List Field) (i : ℕ) (type : UaType ua S)
      → AllNamed fields
      → put_enum_members ua S fields i type
        ≡ ret (record type { members = set_all i (map enum_member fields) type.members })
  unfolding put_enum_members
  put_enum_members_ret [] i type h = refl
  put_enum_members_ret (field ∷ fields) i type ((name, e), h) =
      rw e (put_enum_members_ret fields (i + 1) _ h)

  AllNamed-take : (n : ℕ) (fields : List Field) → AllNamed fields → AllNamed (take n fields)
  AllNamed-take zero fields h = tt
  AllNamed-take (suc n) [] h = tt
  AllNamed-take (suc n) (field ∷ fields) h = (h.0, AllNamed-take n fields h.1)

  -- An array of `n` places whose first ones are filled from a list that is not longer.
  filled :
      (n k : ℕ) (fields : List Field)
      → length fields ≡ n
      → k ≤ n
      → set_all 0 (map enum_member (take k fields)) (replicate n (no_member ua S))
        ≡ map enum_member (take k fields) ++ replicate (n - k) (no_member ua S)
  filled n k fields e h =
      let size : length (map enum_member (take k fields)) ≡ k =
        omega (arith, length-map enum_member (take k fields), length-take k fields) in
      set_all-append (map enum_member (take k fields)) [] (replicate n (no_member ua S)) 0 refl
        (omega (arith, size, length-replicate n (no_member ua S)))
      ∙ ap (λ l. map enum_member (take k fields) ++ l)
          (ap (λ (j : ℕ). drop j (replicate n (no_member ua S))) size
            ∙ drop_all k (no_member ua S) n)

  not_empty : (n : ℕ) → n ≢ 0 → (n == 0) ≡ false
  not_empty n h = ground arith

  -- If every field has a name and memory can be had, an enumeration with fields gets a member for
  -- each of the first `n % 256` of its `n` fields, in order and with its name and value; the
  -- array has `n` places, the others stay empty, and the size that is stored is `n % 256`.
  pub add_enum_members_lem :
      (state : S.State) (type : UaType ua S) (definition : DataTypeDefinition ua.NodeId)
      → let n = length definition.fields in
        let kept = n % 256 in
        n ≢ 0
        → S.calloc_succeeds state n ≡ true
        → AllNamed definition.fields
        → add_enum_members ua S state type definition
          ≡ ret (
            record type {
              members =
                  map enum_member (take kept definition.fields)
                  ++ replicate (n - kept) (no_member ua S);
              members_size = kept;
            },
            good,
          )
  unfolding add_enum_members
  add_enum_members_lem state type definition ne c named =
      let n = length definition.fields in
      let kept = n % 256 in
      let start = record type { members = replicate n (no_member ua S); members_size = kept } in
      rw (not_empty n ne) (
        rw c (
          ap (λ r. r >>= λ full. ret (full, good))
            (put_enum_members_ret (take kept definition.fields) 0 start
              (AllNamed-take kept definition.fields named))
          ∙ ap (λ l. ret (record start { members = l }, good))
              (filled n kept definition.fields refl (omega arith))))
