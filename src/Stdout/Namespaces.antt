-- ===== src/Stdout/Namespaces.antt =====
-- What `_addNamespace` of the printing program makes of the namespaces of its files.
use mathlib.Core.List.{append-nil, append_assoc}
use open62541_nodeset_loader.Base.{
  ℕ, zero, suc, ◌+◌, ◌%◌, ◌^◌, ◌≡◌, refl, sym, ap, ◌∙◌, List, [], ◌∷◌, ◌++◌, length, drop,
  length-append,
}
use open62541_nodeset_loader.Ua.{Text, NamespaceMapping}
use open62541_nodeset_loader.Stdout.{any_equal, add_namespace}

-- The calls for the namespaces in turn.
unfoldable pub add_all : List Text → NamespaceMapping → NamespaceMapping
add_all [] mapping = mapping
add_all (uri ∷ rest) mapping = add_all rest (add_namespace uri mapping)

-- `k` indices from `n` on, cut to 16 bits.
abbrev pub indices_from : ℕ → ℕ → List ℕ
indices_from n zero = []
indices_from n (suc k) = n % 2 ^ 16 ∷ indices_from (n + 1) k

drop_whole : {A : Type 0} (xs : List A) → drop (length xs) xs ≡ []
drop_whole [] = refl
drop_whole (x ∷ xs) = drop_whole xs

-- The search finds nothing, since it looks at no uri.
add_namespace-appends :
    (uri : Text) (mapping : NamespaceMapping)
    → add_namespace uri mapping ≡ record {
      namespace_uris = mapping.namespace_uris ++ uri ∷ [];
      remote2local = mapping.remote2local ++ length mapping.namespace_uris % 2 ^ 16 ∷ [];
    }
unfolding add_namespace any_equal
add_namespace-appends uri mapping = rw (drop_whole mapping.namespace_uris) refl

-- Every namespace is appended to the uris, in the order of the calls and also if it is there
-- already; with it the number of uris before it, cut to 16 bits, is appended to `remote2local`.
pub add_all_lem :
    (uris : List Text) (mapping : NamespaceMapping)
    → ((add_all uris mapping).namespace_uris ≡ mapping.namespace_uris ++ uris)
      × ((add_all uris mapping).remote2local
          ≡ mapping.remote2local ++ indices_from (length mapping.namespace_uris) (length uris))
unfolding add_all
add_all_lem [] mapping = (sym (append-nil _), sym (append-nil _))
add_all_lem (uri ∷ rest) mapping =
    let step = add_namespace-appends uri mapping in
    let (uris, indices) = add_all_lem rest (add_namespace uri mapping) in
    let named = ap (λ (m : NamespaceMapping). m.namespace_uris) step in
    let mapped = ap (λ (m : NamespaceMapping). m.remote2local) step in
    let longer : length (add_namespace uri mapping).namespace_uris
        ≡ length mapping.namespace_uris + 1 =
      ap length named ∙ length-append mapping.namespace_uris (uri ∷ []) in
    (
      uris ∙ (ap (λ l. l ++ rest) named ∙ append_assoc mapping.namespace_uris (uri ∷ []) rest),
      indices
          ∙ (rw (mapped, longer) refl
              ∙ append_assoc mapping.remote2local (length mapping.namespace_uris % 2 ^ 16 ∷ [])
                  (indices_from (length mapping.namespace_uris + 1) (length rest))),
    )
