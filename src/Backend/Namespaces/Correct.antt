-- ===== src/Backend/Namespaces/Correct.antt =====
-- The indices of the namespaces of a file lead to the file's uris in the server.
use open62541_nodeset_loader.Base.{
  ℕ, ◌<◌, ◌≡◌, inl, inr, refl, sym, ap, ◌∙◌, subst, arith, true, false, List, [], ◌∷◌, ◌++◌, some,
  length, length-append, get_elem?, lt→ltb, ==_iff, ◌==◌, text_eq, text_eq_iff, Bool-cases, ret,
  ◌>>=◌,
}
use mathlib.Core.List.{append_assoc, append-nil}
use open62541_nodeset_loader.Ua.{Text, NamespaceMapping, Ua}
use open62541_nodeset_loader.Backend.{Server, AddNodeContext}
use open62541_nodeset_loader.Backend.Namespaces.{
  extend_mapping, add_node_context_init, add_namespaces,
}
use open62541_nodeset_loader.Backend.Namespaces.Loading.{init_ret}
use open62541_nodeset_loader.Backend.Namespaces.Laws.{
  KeepsNamespaces, AllNames, Leads, foreign, Leads-append, Leads-mono, added, add_namespace_ret,
}

module _ (ua : Ua) (S : Server ua) (K : KeepsNamespaces ua S) where
  extend_mapping_foreign :
      (m : NamespaceMapping) (uri : Text) (i : ℕ)
      → (i == 0) ≡ false
      → (extend_mapping ua S m uri false i).remote2local ≡ m.remote2local ++ i ∷ []
  unfolding extend_mapping
  extend_mapping_foreign m uri i h = rw h refl

  extend_mapping_again :
      (m : NamespaceMapping) (uri : Text) (i : ℕ)
      → i ≡ 0
      → 0 < length m.remote2local
      → (extend_mapping ua S m uri false i).remote2local ≡ m.remote2local
  unfolding extend_mapping
  extend_mapping_again m uri i h pos = rw h (rw (lt→ltb _ _ pos) refl)

  -- A uri other than the first one does not stand in the first place.
  foreign_index :
      (s : S.State) (uri ns0 : Text)
      → get_elem? (K.namespaces s) 0 ≡ some ns0
      → text_eq uri ns0 ≡ false
      → ((S.add_namespace uri s).1 == 0) ≡ false
  foreign_index s uri ns0 z h = elim (Bool-cases ((S.add_namespace uri s).1 == 0)) [
    | inr n ↦ n
    | inl e ↦
        let at_zero =
          subst (λ i. get_elem? (K.namespaces (S.add_namespace uri s).0) i ≡ some uri)
            ((==_iff _ _).0 e) (K.stands s uri) in
        let same : ns0 ≡ uri = cc (K.stays s uri ns0 0 z) in cc ((text_eq_iff uri ns0).1 (sym same))
  ]

  -- What holds of a context, for the uris that were added so far.
  record Holds (ns0 : Text) (uris : List Text) (ctx : AddNodeContext ua S) : Type 0 where
    first : get_elem? (K.namespaces ctx.server) 0 ≡ some ns0
    leads : Leads (K.namespaces ctx.server) ctx.ns_mapping.remote2local uris
    some_index : 0 < length ctx.ns_mapping.remote2local

  added_again :
      (ns0 uri : Text) (uris : List Text) (ctx : AddNodeContext ua S)
      → Holds ns0 uris ctx
      → text_eq uri ns0 ≡ true
      → Holds ns0 uris (added ua S ctx uri false)
  added_again ns0 uri uris ctx h e =
      let same : uri ≡ ns0 = (text_eq_iff uri ns0).0 e in
      let index = K.first ctx.server uri (h.first ∙ ap some (sym same)) in
      let kept = extend_mapping_again ctx.ns_mapping uri _ index h.some_index in
      record {
        first = K.stays ctx.server uri ns0 0 h.first;
        leads =
            subst (λ is. Leads (K.namespaces (S.add_namespace uri ctx.server).0) is uris) (sym kept)
              (Leads-mono _ _ _ uris (λ i u. K.stays ctx.server uri u i) h.leads);
        some_index = omega (arith, ap length kept, h.some_index);
      }

  added_foreign :
      (ns0 uri : Text) (uris : List Text) (ctx : AddNodeContext ua S)
      → Holds ns0 uris ctx
      → text_eq uri ns0 ≡ false
      → Holds ns0 (uris ++ uri ∷ []) (added ua S ctx uri false)
  added_foreign ns0 uri uris ctx h e =
      let more =
        extend_mapping_foreign ctx.ns_mapping uri _ (foreign_index ctx.server uri ns0 h.first e) in
      record {
        first = K.stays ctx.server uri ns0 0 h.first;
        leads =
            subst
              (λ is. Leads (K.namespaces (S.add_namespace uri ctx.server).0) is (uris ++ uri ∷ []))
              (sym more)
              (Leads-append _ _ uris _ uri
                (Leads-mono _ _ _ uris (λ i u. K.stays ctx.server uri u i) h.leads)
                (K.stands ctx.server uri));
        some_index = omega (arith, ap length more, length-append {0} ctx.ns_mapping.remote2local);
      }

  add_namespaces_ret :
      (ns0 : Text) (news uris : List Text) (ctx : AddNodeContext ua S)
      → AllNames news
      → Holds ns0 uris ctx
      → (after : AddNodeContext ua S) × (add_namespaces ua S news ctx ≡ ret after)
        × Holds ns0 (uris ++ foreign ns0 news) after
  unfolding add_namespaces
  add_namespaces_ret ns0 [] uris ctx all h =
      (ctx, refl, subst (λ l. Holds ns0 l ctx) (sym (append-nil uris)) h)
  add_namespaces_ret ns0 (uri ∷ news) uris ctx all h = elim (Bool-cases (text_eq uri ns0)) [
    | inl e ↦
        let (after, ends, holds) =
          add_namespaces_ret ns0 news uris (added ua S ctx uri false) all.1
            (added_again ns0 uri uris ctx h e) in
        (after, rw (add_namespace_ret ua S ctx uri false all.0) ends, rw e holds)
    | inr e ↦
        let (after, ends, holds) =
          add_namespaces_ret ns0 news (uris ++ uri ∷ []) (added ua S ctx uri false) all.1
            (added_foreign ns0 uri uris ctx h e) in
        (
          after,
          rw (add_namespace_ret ua S ctx uri false all.0) ends,
          rw e (
              subst (λ l. Holds ns0 l after) (append_assoc uris (uri ∷ []) (foreign ns0 news))
                holds),
        )
  ]

  -- The server's first namespace is `ns0`; its namespaces and those of the file fit into the
  -- buffer; the fuel exceeds their number. Then the initialisation of the context and the entering
  -- of the file's uris end without a fault, and the indices of the mapping are one for `ns0` and
  -- one for each other uri of the file, in the order of the file, and each is the index at which
  -- the server has that uri.
  pub add_namespaces-Leads :
      (fuel : ℕ) (state : S.State) (ns0 : Text) (news : List Text)
      → get_elem? (K.namespaces state) 0 ≡ some ns0
      → length (K.namespaces state) < fuel
      → AllNames (K.namespaces state)
      → AllNames news
      → (after : AddNodeContext ua S) × ((add_node_context_init ua S fuel state >>= λ ctx.
            add_namespaces ua S news ctx)
          ≡ ret after)
        × Leads (K.namespaces after.server) after.ns_mapping.remote2local (ns0 ∷ foreign ns0 news)
  add_namespaces-Leads fuel state ns0 news e enough all new_names =
      let (ctx, inits, same, indices) = init_ret ua S K fuel state ns0 e enough all in
      let first = ap (λ l. get_elem? l 0) same ∙ e in
      let (after, ends, holds) = add_namespaces_ret ns0 news (ns0 ∷ []) ctx new_names (record {
        first = first;
        leads =
            subst (λ is. Leads (K.namespaces ctx.server) is (ns0 ∷ [])) (sym indices) (first, tt);
        some_index = omega (arith, ap length indices);
      }) in
      (after, rw inits ends, holds.leads)
