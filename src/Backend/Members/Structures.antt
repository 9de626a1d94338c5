-- ===== src/Backend/Members/Structures.antt =====
-- The members of a structure are those of its parent and then those of its own fields.
use mathlib.Core.List.{map-append}
use open62541_nodeset_loader.Base.{
  ℕ, suc, ◌+◌, ◌-◌, ◌%◌, ◌≡◌, refl, sym, ap, ◌∙◌, arith, Bool, true, ◌&&◌, List, [], ◌∷◌, ◌++◌, map,
  length, drop, replicate, length-replicate, length-append, if◌then◌else◌, ret, ◌>>=◌,
}
use open62541_nodeset_loader.Ua.{Ua}
use open62541_nodeset_loader.Node.{DataTypeNode, DataTypeDefinitionField}
use open62541_nodeset_loader.Backend.{good, Server, AddNodeContext}
use open62541_nodeset_loader.Backend.Members.{
  UaType, Member, no_member, put_field_members, fields_of, parent_members, parent_size,
  add_data_type_members,
}
use open62541_nodeset_loader.Backend.Members.Fill.{set_all, set_all-append, length-map, drop_all}
use open62541_nodeset_loader.Backend.Members.Typed.{
  Typed, as_member, AllDescribe, all_simple, any_optional, with_members, put_parent_members_ret,
  put_field_members_ret,
}

ends_here {ℓ} : {A : Type ℓ} (xs rest : List A) → rest ≡ [] → xs ++ rest ≡ xs
ends_here [] rest h = h
ends_here (x ∷ xs) rest h = ap (λ l. x ∷ l) (ends_here xs rest h)

no_more {ℓ} : {A : Type ℓ} (a : A) (k : ℕ) → k ≡ 0 → replicate k a ≡ []
no_more a k h = rw h refl

module _ (ua : Ua) (S : Server ua) where
  AllDescribe-length :
      (state : S.State) (fields : List (DataTypeDefinitionField ua.NodeId)) (ts : List (Typed ua S))
      → AllDescribe ua S state fields ts
      → length fields ≡ length ts
  AllDescribe-length state [] [] d = refl
  AllDescribe-length state (field ∷ fields) (t ∷ ts) d =
      ap suc (AllDescribe-length state fields ts d.1)
  AllDescribe-length state [] (t ∷ ts) d = absurd d
  AllDescribe-length state (field ∷ fields) [] d = absurd d

  -- Both stages fill the array from its start to its end.
  filled_twice :
      (inherited own : List (Typed ua S)) (n : ℕ)
      → n ≡ length own + length inherited
      → set_all
          (length inherited)
          (map (as_member ua S) own)
          (set_all 0 (map (as_member ua S) inherited) (replicate n (no_member ua S)))
        ≡ map (as_member ua S) inherited ++ map (as_member ua S) own
  filled_twice inherited own n e =
      let first = length-map (as_member ua S) inherited in
      let second = length-map (as_member ua S) own in
      let room = length-replicate n (no_member ua S) in
      let left : length (replicate (n - length inherited) (no_member ua S)) ≡ length own =
        omega (arith, e, length-replicate (n - length inherited) (no_member ua S)) in
      ap (set_all (length inherited) (map (as_member ua S) own)) (
        set_all-append (map (as_member ua S) inherited) [] (replicate n (no_member ua S)) 0 refl
          (omega (arith, first, room, e))
        ∙ ap (λ l. map (as_member ua S) inherited ++ l)
            (ap (λ (j : ℕ). drop j (replicate n (no_member ua S))) first
              ∙ drop_all (length inherited) (no_member ua S) n))
      ∙ (set_all-append (map (as_member ua S) own) (map (as_member ua S) inherited)
            (replicate (n - length inherited) (no_member ua S)) (length inherited) (sym first)
            (omega (arith, second, left))
          ∙ ap (λ l. map (as_member ua S) inherited ++ l)
              (ends_here (map (as_member ua S) own) _ (
                drop_all (length (map (as_member ua S) own)) (no_member ua S) (n - length inherited)
                ∙ no_more _ _ (omega (arith, second, e)))))

  all_simple-append :
      (state : S.State) (xs ys : List (Typed ua S)) (b : Bool)
      → (b && all_simple ua S state xs) && all_simple ua S state ys
        ≡ b && all_simple ua S state (xs ++ ys)
  all_simple-append state [] ys b = ground arith
  all_simple-append state (x ∷ xs) ys b = ground (arith, all_simple-append state xs ys true)

  any_optional-append :
      (xs ys : List (Typed ua S)) (k : ℕ)
      → (if any_optional ua S ys
          then S.kind_optstruct
          else if any_optional ua S xs
          then S.kind_optstruct
          else k)
        ≡ (if any_optional ua S (xs ++ ys) then S.kind_optstruct else k)
  any_optional-append [] ys k = refl
  any_optional-append (x ∷ xs) ys k = ground (arith, any_optional-append xs ys k)

  with_size :
      (type : UaType ua S) (ms ms' : List (Member ua S)) (b b' : Bool) (k k' n n' : ℕ)
      → ms ≡ ms'
      → b ≡ b'
      → k ≡ k'
      → n ≡ n'
      → (record type { members = ms; members_size = n; pointer_free = b; type_kind = k })
        ≡ (record type { members = ms'; members_size = n'; pointer_free = b'; type_kind = k' })
  with_size type ms ms' b b' k k' n n' p q r u = cc

  -- If the parent's members and the types of all fields are known to the server and memory can be
  -- had, a structure gets the members of its parent and then one for each field, in order; the
  -- size that is stored is their number modulo 256. The type stays free of pointers if each of
  -- these members is of such a type, no array and not optional, and an optional member makes it a
  -- structure with optional fields.
  pub add_data_type_members_lem :
      (ctx : AddNodeContext ua S) (type : UaType ua S) (node : DataTypeNode ua.NodeId)
      (parent : ua.NodeId) (inherited own : List (Typed ua S))
      → let n =
          length (fields_of ua S node)
          + parent_size ua S ctx.server (S.find_data_type ctx.server parent) in
        let all = inherited ++ own in
        S.calloc_succeeds ctx.server n ≡ true
        → parent_members ua S ctx.server (S.find_data_type ctx.server parent)
          ≡ map (as_member ua S) inherited
        → parent_size ua S ctx.server (S.find_data_type ctx.server parent) ≡ length inherited
        → AllDescribe ua S ctx.server (fields_of ua S node) own
        → add_data_type_members ua S ctx type node parent
          ≡ ret (
            ctx,
            record type {
              members = map (as_member ua S) all;
              members_size = length all % 256;
              pointer_free = type.pointer_free && all_simple ua S ctx.server all;
              type_kind = if any_optional ua S all then S.kind_optstruct else type.type_kind;
            },
            good,
          )
  unfolding add_data_type_members
  add_data_type_members_lem ctx type node parent inherited own c from size own_fields =
      let fields = fields_of ua S node in
      let total = length fields + length inherited in
      let counted = AllDescribe-length ctx.server fields own own_fields in
      let start = record type {
        members = replicate total (no_member ua S);
        members_size = total % 256;
      } in
      rw c (
        rw from (
          rw size (
            ap (λ r. r >>= λ copied. put_field_members ua S ctx fields (length inherited) copied)
              (put_parent_members_ret ua S ctx.server inherited 0 start)
            ∙ (put_field_members_ret ua S ctx fields own (length inherited)
                  (with_members ua S ctx.server inherited 0 start) own_fields
                ∙ ap (λ r. ret (ctx, r, good))
                    (with_size type _ _ _ _ _ _ _ _
                      (filled_twice inherited own total (omega (arith, counted))
                        ∙ sym (map-append (as_member ua S) inherited own))
                      (all_simple-append ctx.server inherited own type.pointer_free)
                      (any_optional-append inherited own type.type_kind)
                      (ap (λ (k : ℕ). k % 256)
                        (omega (arith, counted, length-append inherited own))))))))
