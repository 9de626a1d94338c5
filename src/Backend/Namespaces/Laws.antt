-- ===== src/Backend/Namespaces/Laws.antt =====
-- What the server documents of its namespaces, and the words for what the backend makes of them.
use open62541_nodeset_loader.Base.{
  ℕ, zero, suc, ◌<◌, ◌≡◌, refl, subst, arith, Bool, List, [], ◌∷◌, ◌++◌, some, length, get_elem?,
  lt→ltb, if◌then◌else◌, text_eq, ret,
}
use open62541_nodeset_loader.Ua.{Text, Ua}
use open62541_nodeset_loader.Arena.{until_zero}
use open62541_nodeset_loader.Backend.{Server, AddNodeContext}
use open62541_nodeset_loader.Backend.Namespaces.{name_room, extend_mapping, add_namespace}

-- What the server documents of its namespaces: it keeps a table to which a uri that is not yet
-- there is added, and adding returns where the uri stands, the first place for the first uri.
pub record KeepsNamespaces (ua : Ua) (S : Server ua) : Type 0 where
  pub namespaces : S.State → List Text
  pub by_index : (s : S.State) (i : ℕ) → S.get_namespace_by_index s i ≡ get_elem? (namespaces s) i
  pub stands :
      (s : S.State) (uri : Text)
      → get_elem? (namespaces (S.add_namespace uri s).0) (S.add_namespace uri s).1 ≡ some uri
  pub stays :
      (s : S.State) (uri other : Text) (i : ℕ)
      → get_elem? (namespaces s) i ≡ some other
      → get_elem? (namespaces (S.add_namespace uri s).0) i ≡ some other
  pub known :
      (s : S.State) (uri : Text) (i : ℕ)
      → get_elem? (namespaces s) i ≡ some uri
      → namespaces (S.add_namespace uri s).0 ≡ namespaces s
  pub first :
      (s : S.State) (uri : Text)
      → get_elem? (namespaces s) 0 ≡ some uri
      → (S.add_namespace uri s).1 ≡ 0

-- A uri that fits into the buffer, as a C string.
abbrev pub IsName : Text → Type 0
IsName uri = (length uri < name_room) × (until_zero uri ≡ uri)

abbrev pub AllNames : List Text → Type 0
AllNames [] = Unit {0}
AllNames (uri ∷ uris) = IsName uri × AllNames uris

-- Each index leads to its uri.
abbrev pub Leads : List Text → List ℕ → List Text → Type 0
Leads names [] [] = Unit {0}
Leads names (i ∷ is) (uri ∷ uris) = (get_elem? names i ≡ some uri) × Leads names is uris
Leads names _ _ = ⊥

-- The uris of a file without the first namespace, which is implied.
abbrev pub foreign : Text → List Text → List Text
foreign ns0 [] = []
foreign ns0 (uri ∷ uris) =
    let rest = foreign ns0 uris in if text_eq uri ns0 then rest else uri ∷ rest

pub Leads-append :
    (names : List Text) (is : List ℕ) (uris : List Text) (i : ℕ) (uri : Text)
    → Leads names is uris
    → get_elem? names i ≡ some uri
    → Leads names (is ++ i ∷ []) (uris ++ uri ∷ [])
Leads-append names [] [] i uri h e = (e, tt)
Leads-append names (j ∷ is) (u ∷ uris) i uri h e = (h.0, Leads-append names is uris i uri h.1 e)
Leads-append names [] (u ∷ uris) i uri h e = absurd h
Leads-append names (j ∷ is) [] i uri h e = absurd h

pub Leads-mono :
    (names more : List Text) (is : List ℕ) (uris : List Text)
    → ((i : ℕ) (u : Text) → get_elem? names i ≡ some u → get_elem? more i ≡ some u)
    → Leads names is uris
    → Leads more is uris
Leads-mono names more [] [] keep h = tt
Leads-mono names more (i ∷ is) (u ∷ uris) keep h =
    (keep i u h.0, Leads-mono names more is uris keep h.1)
Leads-mono names more [] (u ∷ uris) keep h = h
Leads-mono names more (i ∷ is) [] keep h = h

pub get_elem?-AllNames :
    (names : List Text) (i : ℕ) (uri : Text)
    → AllNames names
    → get_elem? names i ≡ some uri
    → IsName uri
get_elem?-AllNames [] i uri h e = cc
get_elem?-AllNames (n ∷ names) zero uri h e = let q : n ≡ uri = cc in subst (λ u. IsName u) q h.0
get_elem?-AllNames (n ∷ names) (suc i) uri h e = get_elem?-AllNames names i uri h.1 e

module _ (ua : Ua) (S : Server ua) where
  -- A name that fits is added without a fault.
  abbrev pub added : AddNodeContext ua S → Text → Bool → AddNodeContext ua S
  added ctx uri local_only = record ctx {
    server = (S.add_namespace uri ctx.server).0;
    ns_mapping =
        extend_mapping ua S ctx.ns_mapping uri local_only (S.add_namespace uri ctx.server).1;
  }

  pub add_namespace_ret :
      (ctx : AddNodeContext ua S) (uri : Text) (local_only : Bool)
      → IsName uri
      → add_namespace ua S ctx uri local_only ≡ ret (added ctx uri local_only)
  unfolding add_namespace
  add_namespace_ret ctx uri local_only h = rw (lt→ltb _ _ h.0) (rw h.1 refl)

pub get_elem?-length :
    {A : Type 0} (xs : List A) (i : ℕ) {x : A} → get_elem? xs i ≡ some x → i < length xs
get_elem?-length [] i h = cc
get_elem?-length (y ∷ xs) zero h = omega arith
get_elem?-length (y ∷ xs) (suc i) h = omega (arith, get_elem?-length xs i h)
