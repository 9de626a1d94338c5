-- ===== src/Backend/Namespaces.antt =====
-- The namespaces of an `AddNodeContext`, in backends/open62541/src/import.c.
pub mod Laws
pub mod Loading
pub mod Correct
use open62541_nodeset_loader.Base.{
  ℕ, zero, suc, ◌+◌, Bool, true, false, ◌&&◌, not, List, [], ◌∷◌, ◌++◌, Option, none, some, length,
  ltb, ◌==◌, if◌then◌else◌, Exec, fault, ret, ◌>>=◌,
}
use open62541_nodeset_loader.Ua.{Text, NamespaceMapping, Ua}
use open62541_nodeset_loader.Arena.{until_zero}
use open62541_nodeset_loader.Backend.{Server, AddNodeContext}

-- The size of `namebuf`.
abbrev pub name_room : ℕ
name_room = 512

module _ (ua : Ua) (S : Server ua) where
  -- What follows the call of the server: the two arrays of the mapping.
  unfoldable pub extend_mapping : NamespaceMapping → Text → Bool → ℕ → NamespaceMapping
  extend_mapping mapping uri local_only local_idx =
      let named = record mapping { namespace_uris = mapping.namespace_uris ++ uri ∷ [] } in
      if local_idx == 0 && ltb 0 (length mapping.remote2local)
      then named
      else (if local_only
          then named
          else record named { remote2local = mapping.remote2local ++ local_idx ∷ [] })

  -- `AddNodeContext_addNamespace`. The uri and a zero byte must fit into `namebuf`.
  unfoldable pub add_namespace : AddNodeContext ua S → Text → Bool → Exec (AddNodeContext ua S)
  unfolding extend_mapping until_zero
  add_namespace ctx uri local_only =
      if ltb (length uri) name_room
      then (let (state, local_idx) = S.add_namespace (until_zero uri) ctx.server in
          ret (record ctx {
            server = state;
            ns_mapping = extend_mapping ctx.ns_mapping uri local_only local_idx;
          }))
      else fault

  -- The loop of `AddNodeContext_init`, which ends at the first index without a namespace.
  unfoldable pub load_namespaces : ℕ → ℕ → AddNodeContext ua S → Exec (AddNodeContext ua S)
  unfolding add_namespace
  load_namespaces zero idx ctx = fault
  load_namespaces (suc fuel) idx ctx = elim (S.get_namespace_by_index ctx.server idx) [
    | none ↦ ret ctx
    | some uri ↦
        add_namespace ctx uri (not (idx == 0)) >>= λ next. load_namespaces fuel (idx + 1) next
  ]

  -- `AddNodeContext_init`; `fuel` bounds the rounds of its loop.
  unfoldable pub add_node_context_init : ℕ → S.State → Exec (AddNodeContext ua S)
  unfolding load_namespaces
  add_node_context_init fuel state =
      load_namespaces fuel 0 (record {
        server = state;
        ns_mapping = record { namespace_uris = []; remote2local = [] };
        parent_ref_types = [];
        log = [];
      })
      >>= λ ctx. ret (record ctx {
        parent_ref_types =
            S.sub_reference_types ctx.server (ua.numeric 0 34) ++ ua.numeric 0 34 ∷ [];
      })

  -- `NodesetLoader_BackendOpen62541_addNamespace`, with the uris of one call.
  unfoldable pub add_namespaces : List Text → AddNodeContext ua S → Exec (AddNodeContext ua S)
  unfolding add_namespace
  add_namespaces [] ctx = ret ctx
  add_namespaces (uri ∷ uris) ctx = add_namespace ctx uri false >>= λ next. add_namespaces uris next
