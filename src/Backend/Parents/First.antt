-- ===== src/Backend/Parents/First.antt =====
-- `getParentId` and `getTypeDefId` take the first reference that serves.
use open62541_nodeset_loader.Base.{
  ◌≡◌, refl, ap, ◌⊎◌, inl, inr, true, false, List, [], ◌∷◌, ◌++◌, Option, none, some, arith,
  Bool-cases,
}
use open62541_nodeset_loader.Ua.{Ua}
use open62541_nodeset_loader.Node.{Reference, Node}
use open62541_nodeset_loader.Nodeset.{null_id}
use open62541_nodeset_loader.Nodeset.Sort.{has_type_def}
use open62541_nodeset_loader.Backend.Parents.{
  is_parent_type, parent_in, get_parent_id, type_def_in, get_type_def_id,
}

module _ {A : Type 0} where
  abbrev pub Among : A → List A → Type 0
  Among a [] = ⊥
  Among a (x ∷ xs) = (a ≡ x) ⊎ Among a xs

  abbrev pub NoneOf : (A → Type 0) → List A → Type 0
  NoneOf P [] = Unit {0}
  NoneOf P (x ∷ xs) = ¬ P x × NoneOf P xs

  -- The first item with a property, or that there is none.
  pub data First (P : A → Type 0) (xs : List A) : Option A → Type 0 where
    found :
        (before : List A) (x : A) (after : List A)
        → xs ≡ before ++ x ∷ after
        → NoneOf P before
        → P x
        → First P xs (some x)
    missing : NoneOf P xs → First P xs none

  First-step :
      (P : A → Type 0) (x : A) (xs : List A) (o : Option A)
      → ¬ P x
      → First P xs o
      → First P (x ∷ xs) o
  First-step P x xs o h (found before y after e n p) =
      found (x ∷ before) y after (ap (λ l. x ∷ l) e) (h, n) p
  First-step P x xs o h (missing n) = missing (h, n)

module _ (ua : Ua) where
  abbrev Ref : Type 0
  Ref = Reference ua.NodeId

  -- A reference to a parent: an inverse one whose type is among the types that are asked for.
  abbrev pub IsParentRef : List ua.NodeId → Ref → Type 0
  IsParentRef types ref = (ref.is_forward ≡ false) × Among ref.ref_type types

  -- A reference to the type definition.
  abbrev pub IsTypeRef : Ref → Type 0
  IsTypeRef ref = (ref.is_forward ≡ true) × (ref.ref_type ≡ has_type_def ua)

  abbrev pub parent_of : Option Ref → ua.NodeId × ua.NodeId
  parent_of none = (null_id ua, null_id ua)
  parent_of (some ref) = (ref.target, ref.ref_type)

  abbrev pub target_of : Option Ref → ua.NodeId
  target_of none = null_id ua
  target_of (some ref) = ref.target

  is_parent_type-Among :
      (t : ua.NodeId) (types : List ua.NodeId) → is_parent_type ua t types ≡ true → Among t types
  unfolding is_parent_type
  is_parent_type-Among t [] h = cc
  is_parent_type-Among t (x ∷ types) h = elim (Bool-cases (ua.equal t x)) [
    | inl e ↦ inl ((ua.equal_iff t x).0 e)
    | inr e ↦ inr (is_parent_type-Among t types (ground arith))
  ]

  Among-is_parent_type :
      (t : ua.NodeId) (types : List ua.NodeId) → Among t types → is_parent_type ua t types ≡ true
  unfolding is_parent_type
  Among-is_parent_type t [] h = absurd h
  Among-is_parent_type t (x ∷ types) (inl e) = rw ((ua.equal_iff t x).1 e) refl
  Among-is_parent_type t (x ∷ types) (inr h) = elim (Bool-cases (ua.equal t x)) [
    | inl e ↦ rw e refl
    | inr e ↦ rw e (Among-is_parent_type t types h)
  ]

  parent_in-First :
      (types : List ua.NodeId) (refs : List Ref)
      → (o : Option Ref) × First (IsParentRef types) refs o
        × (parent_in ua types refs ≡ parent_of o)
  unfolding parent_in
  parent_in-First types [] = (none, missing tt, refl)
  parent_in-First types (ref ∷ refs) =
      let (o, f, e) = parent_in-First types refs in
      elim (Bool-cases ref.is_forward) [
        | inl b ↦ (o, First-step (IsParentRef types) ref refs o (λ p. cc (b, p.0)) f, rw b e)
        | inr b ↦ elim (Bool-cases (is_parent_type ua ref.ref_type types)) [
          | inl m ↦ (
            some ref,
            found [] ref refs refl tt (b, is_parent_type-Among ref.ref_type types m),
            rw b (rw m refl),
          )
          | inr m ↦ (
            o,
            First-step (IsParentRef types) ref refs o
                (λ p. cc (m, Among-is_parent_type ref.ref_type types p.1)) f,
            rw b (rw m e),
          )
        ]
      ]

  type_def_in-First :
      (refs : List Ref)
      → (o : Option Ref) × First IsTypeRef refs o × (type_def_in ua refs ≡ target_of o)
  unfolding type_def_in
  type_def_in-First [] = (none, missing tt, refl)
  type_def_in-First (ref ∷ refs) =
      let (o, f, e) = type_def_in-First refs in
      elim (Bool-cases ref.is_forward) [
        | inr b ↦ (o, First-step IsTypeRef ref refs o (λ p. cc (b, p.0)) f, rw b e)
        | inl b ↦ elim (Bool-cases (ua.equal ref.ref_type (has_type_def ua))) [
          | inl m ↦ (
            some ref,
            found [] ref refs refl tt (b, (ua.equal_iff ref.ref_type (has_type_def ua)).0 m),
            rw b (rw m refl),
          )
          | inr m ↦ (
            o,
            First-step IsTypeRef ref refs o
                (λ p. cc (m, (ua.equal_iff ref.ref_type (has_type_def ua)).1 p.1)) f,
            rw b (rw m e),
          )
        ]
      ]

  -- `getParentId` gives target and type of the first inverse reference whose type is among those
  -- asked for, and the null id twice if no reference is of this kind; `getTypeDefId` gives the
  -- target of the first forward HasTypeDefinition reference, or the null id.
  pub get_parent_id-First :
      (types : List ua.NodeId) (node : Node ua.NodeId)
      → ((o : Option Ref) × First (IsParentRef types) node.refs o
          × (get_parent_id ua types node ≡ parent_of o))
        × ((o : Option Ref) × First IsTypeRef node.refs o × (get_type_def_id ua node ≡ target_of o))
  unfolding get_parent_id get_type_def_id
  get_parent_id-First types node = (parent_in-First types node.refs, type_def_in-First node.refs)
