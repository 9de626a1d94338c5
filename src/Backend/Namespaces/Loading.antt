-- ===== src/Backend/Namespaces/Loading.antt =====
-- `AddNodeContext_init` ends with the mapping for the first namespace.
use open62541_nodeset_loader.Base.{
  ℕ, zero, suc, ◌+◌, ◌≤◌, ◌<◌, ◌≡◌, inl, inr, refl, sym, ap, ◌∙◌, subst, arith, true, false, not,
  List, [], ◌∷◌, ◌++◌, none, some, length, get_elem?, ◌==◌, Bool-cases, Option-cases, ret,
}
use open62541_nodeset_loader.Ua.{Text, NamespaceMapping, Ua}
use open62541_nodeset_loader.Backend.{Server, AddNodeContext}
use open62541_nodeset_loader.Backend.Namespaces.{
  extend_mapping, load_namespaces, add_node_context_init,
}
use open62541_nodeset_loader.Backend.Namespaces.Laws.{
  KeepsNamespaces, IsName, AllNames, get_elem?-AllNames, added, add_namespace_ret, get_elem?-length,
}

module _ (ua : Ua) (S : Server ua) (K : KeepsNamespaces ua S) where
  abbrev names : AddNodeContext ua S → List Text
  names ctx = K.namespaces ctx.server

  -- What the loop leaves behind the first index: the mapping of indices is as it was.
  record Loaded (ctx after : AddNodeContext ua S) : Type 0 where
    same_names : names after ≡ names ctx
    same_map : after.ns_mapping.remote2local ≡ ctx.ns_mapping.remote2local

  extend_mapping_local :
      (m : NamespaceMapping) (uri : Text) (i : ℕ)
      → (extend_mapping ua S m uri true i).remote2local ≡ m.remote2local
  unfolding extend_mapping
  extend_mapping_local m uri i = ground arith

  added-Loaded :
      (ctx : AddNodeContext ua S) (uri : Text) (idx : ℕ)
      → get_elem? (names ctx) idx ≡ some uri
      → Loaded ctx (added ua S ctx uri true)
  added-Loaded ctx uri idx e = record {
    same_names = K.known ctx.server uri idx e;
    same_map = extend_mapping_local ctx.ns_mapping uri _;
  }

  Loaded-trans : (a b c : AddNodeContext ua S) → Loaded a b → Loaded b c → Loaded a c
  Loaded-trans a b c h k = record {
    same_names = k.same_names ∙ h.same_names;
    same_map = k.same_map ∙ h.same_map;
  }

  later_idx : (idx : ℕ) → 0 < idx → not (idx == 0) ≡ true
  later_idx idx h = ground arith

  load_none :
      (fuel idx : ℕ) (ctx : AddNodeContext ua S)
      → get_elem? (names ctx) idx ≡ none
      → load_namespaces ua S (suc fuel) idx ctx ≡ ret ctx
  unfolding load_namespaces
  load_none fuel idx ctx e = rw (K.by_index ctx.server idx ∙ e, load_namespaces) refl

  load_some :
      (fuel idx : ℕ) (ctx : AddNodeContext ua S) (uri : Text)
      → get_elem? (names ctx) idx ≡ some uri
      → IsName uri
      → load_namespaces ua S (suc fuel) idx ctx
        ≡ load_namespaces ua S fuel (idx + 1) (added ua S ctx uri (not (idx == 0)))
  unfolding load_namespaces
  load_some fuel idx ctx uri e h =
      rw (K.by_index ctx.server idx ∙ e, load_namespaces)
        (rw (add_namespace_ret ua S ctx uri (not (idx == 0)) h) refl)

  -- The rounds behind the first namespace, with fuel for all of them.
  load_later :
      (fuel idx : ℕ) (ctx : AddNodeContext ua S)
      → 0 < idx
      → idx ≤ length (names ctx)
      → length (names ctx) < idx + fuel
      → AllNames (names ctx)
      → (after : AddNodeContext ua S) × (load_namespaces ua S fuel idx ctx ≡ ret after)
        × Loaded ctx after
  load_later zero idx ctx pos le enough all = absurd (omega arith)
  load_later (suc fuel) idx ctx pos le enough all =
      elim (Option-cases (get_elem? (names ctx) idx)) [
        | inl e ↦ (ctx, load_none fuel idx ctx e, record { same_names = refl; same_map = refl })
        | inr (uri, e) ↦
            let step = added-Loaded ctx uri idx e in
            let (after, ends, rest) =
              load_later fuel (idx + 1) (added ua S ctx uri true) (omega arith)
                (omega (arith, ap length step.same_names, get_elem?-length _ idx e))
                (omega (arith, ap length step.same_names))
                (subst (λ l. AllNames l) (sym step.same_names) all) in
            (
              after,
              load_some fuel idx ctx uri e (get_elem?-AllNames _ idx uri all e)
                  ∙ (rw (later_idx idx pos) ends),
              Loaded-trans _ _ _ step rest,
            )
      ]

  -- The context after the first namespace, which gives index 0.
  extend_mapping_first :
      (m : NamespaceMapping) (uri : Text) (i : ℕ)
      → m.remote2local ≡ []
      → (extend_mapping ua S m uri false i).remote2local ≡ i ∷ []
  unfolding extend_mapping
  extend_mapping_first m uri i h = elim (Bool-cases (i == 0)) [
    | inl z ↦ rw z (rw h refl)
    | inr n ↦ rw n (rw h refl)
  ]

  pub init_ret :
      (fuel : ℕ) (state : S.State) (ns0 : Text)
      → get_elem? (K.namespaces state) 0 ≡ some ns0
      → length (K.namespaces state) < fuel
      → AllNames (K.namespaces state)
      → (ctx : AddNodeContext ua S) × (add_node_context_init ua S fuel state ≡ ret ctx)
        × (names ctx ≡ K.namespaces state)
        × (ctx.ns_mapping.remote2local ≡ 0 ∷ [])
  unfolding add_node_context_init
  init_ret zero state ns0 e enough all = absurd (omega arith)
  init_ret (suc fuel) state ns0 e enough all =
      let start : AddNodeContext ua S = record {
        server = state;
        ns_mapping = record { namespace_uris = []; remote2local = [] };
        parent_ref_types = [];
        log = [];
      } in
      let same = K.known state ns0 0 e in
      let first = added ua S start ns0 false in
      let (after, ends, rest) =
        load_later fuel 1 first (omega arith)
          (omega (arith, ap length same, get_elem?-length _ 0 e)) (omega (arith, ap length same))
          (subst (λ l. AllNames l) (sym same) all) in
      let run : load_namespaces ua S (suc fuel) 0 start ≡ ret after =
        load_some fuel 0 start ns0 e (get_elem?-AllNames _ 0 ns0 all e) ∙ ends in
      (
        record after {
          parent_ref_types =
              S.sub_reference_types after.server (ua.numeric 0 34) ++ ua.numeric 0 34 ∷ [];
        },
        rw run refl,
        rest.same_names ∙ same,
        rest.same_map
            ∙ (extend_mapping_first start.ns_mapping ns0 _ refl
                ∙ ap (λ i. i ∷ []) (K.first state ns0 e)),
      )
