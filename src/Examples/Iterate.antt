-- ===== src/Examples/Iterate.antt =====
-- `iterate` ends where the hierarchy of subtypes has no circle, and prints it from the top.
use open62541_nodeset_loader.Base.{
  ℕ, zero, suc, ◌<◌, ◌≡◌, refl, subst, List, [], ◌∷◌, ◌++◌, Option, none, some, Exec, ret,
  ret_injective, >>=_ret, arith,
}
use open62541_nodeset_loader.Ua.{Text, Ua}
use open62541_nodeset_loader.Examples.{
  ReferenceDescription, Browse, found_line, iterate_references, iterate,
}

module _ (ua : Ua) (browse : Browse ua) where
  -- The text of a hierarchy from a node on: nothing if it cannot be browsed, otherwise for each
  -- reference its line and then the text from its target on.
  mutual
    pub data Shows : ua.NodeId → Text → Type 0 where
      closed : {id : ua.NodeId} → browse id ≡ none → Shows id []
      opened :
          {id : ua.NodeId} {references : List (ReferenceDescription ua)} {text : Text}
          → browse id ≡ some references
          → ShowsAll references text
          → Shows id text

    pub data ShowsAll : List (ReferenceDescription ua) → Text → Type 0 where
      all : ShowsAll [] []
      each :
          {rd : ReferenceDescription ua} {rest : List (ReferenceDescription ua)}
          {below others : Text}
          → Shows rd.node_id below
          → ShowsAll rest others
          → ShowsAll (rd ∷ rest) (found_line ua rd ++ (below ++ others))

  -- The targets have ranks below `n`.
  abbrev pub Below : (ua.NodeId → ℕ) → ℕ → List (ReferenceDescription ua) → Type 0
  Below rank n [] = Unit {0}
  Below rank n (rd ∷ rest) = (rank rd.node_id < n) × Below rank n rest

  abbrev Ends : ℕ → ua.NodeId → Type 0
  Ends fuel id = (text : Text) × (iterate ua fuel browse id ≡ ret text) × Shows id text

  iterate_references-ShowsAll :
      (rank : ua.NodeId → ℕ) (n fuel : ℕ) (references : List (ReferenceDescription ua))
      → ((id : ua.NodeId) → rank id < n → Ends fuel id)
      → Below rank n references
      → (text : Text) × (iterate_references ua (iterate ua fuel browse) references ≡ ret text)
        × ShowsAll references text
  unfolding iterate_references
  iterate_references-ShowsAll rank n fuel [] h b = ([], refl, all)
  iterate_references-ShowsAll rank n fuel (rd ∷ rest) h (b, bs) =
      let (below, e, shows) = h rd.node_id b in
      let (others, es, shows_all) = iterate_references-ShowsAll rank n fuel rest h bs in
      (
        found_line ua rd ++ (below ++ others),
        rw (e, es, iterate_references) refl,
        each shows shows_all,
      )

  -- One node, by what the browse tells of it.
  browsed :
      (rank : ua.NodeId → ℕ) (fuel : ℕ) (id : ua.NodeId)
      (result : Option (List (ReferenceDescription ua)))
      → browse id ≡ result
      → ((references : List (ReferenceDescription ua))
          → browse id ≡ some references
          → Below rank (rank id) references)
      → ((below : ua.NodeId) → rank below < rank id → Ends fuel below)
      → Ends (suc fuel) id
  unfolding iterate
  browsed rank fuel id none e falls h = ([], rw (e, iterate) refl, closed e)
  browsed rank fuel id (some references) e falls h =
      let (text, ends, shows) =
        iterate_references-ShowsAll rank (rank id) fuel references h (falls references e) in
      (text, rw (e, ends, iterate) refl, opened e shows)

  references_shown :
      (inner : ua.NodeId → Exec Text) (references : List (ReferenceDescription ua)) (text : Text)
      → ((id : ua.NodeId) (below : Text) → inner id ≡ ret below → Shows id below)
      → iterate_references ua inner references ≡ ret text
      → ShowsAll references text
  unfolding iterate_references
  references_shown inner [] text h e = subst (ShowsAll []) (ret_injective e) all
  references_shown inner (rd ∷ rest) text h e =
      let (below, a, e1) = >>=_ret (inner rd.node_id) _ e in
      let (others, b, e2) = >>=_ret (iterate_references ua inner rest) _ e1 in
      subst (ShowsAll (rd ∷ rest)) (ret_injective e2)
        (each (h rd.node_id below a) (references_shown inner rest others h b))

  browsed_shown :
      (fuel : ℕ) (id : ua.NodeId) (text : Text) (result : Option (List (ReferenceDescription ua)))
      → browse id ≡ result
      → ((from : ua.NodeId) (below : Text)
          → iterate ua fuel browse from ≡ ret below
          → Shows from below)
      → ◌≡◌ {A = Exec Text}
          (elim result [
            | none ↦ ret []
            | some references ↦ iterate_references ua (iterate ua fuel browse) references
          ])
          (ret text)
      → Shows id text
  browsed_shown fuel id text none b h e = subst (Shows id) (ret_injective e) (closed b)
  browsed_shown fuel id text (some references) b h e =
      opened b (references_shown (iterate ua fuel browse) references text h e)

  -- What `iterate` prints if it ends is the hierarchy, whatever the fuel.
  pub iterate_shown :
      (fuel : ℕ) (id : ua.NodeId) (text : Text)
      → iterate ua fuel browse id ≡ ret text
      → Shows id text
  unfolding iterate
  iterate_shown zero id text e = cc e
  iterate_shown (suc fuel) id text e =
      browsed_shown fuel id text (browse id) refl (λ from below h. iterate_shown fuel from below h)
        e

  -- If ranks fall along the references that the browse tells of, so that there is no circle, then
  -- `iterate` on a node ends with any fuel above the node's rank, and prints the hierarchy below
  -- the node: each reference in the order of the browse, directly before what is below its target.
  pub iterate-Shows :
      (rank : ua.NodeId → ℕ) (fuel : ℕ) (id : ua.NodeId)
      → ((from : ua.NodeId) (references : List (ReferenceDescription ua))
          → browse from ≡ some references
          → Below rank (rank from) references)
      → rank id < fuel
      → (text : Text) × (iterate ua fuel browse id ≡ ret text) × Shows id text
  iterate-Shows rank zero id falls h = absurd (omega arith)
  iterate-Shows rank (suc fuel) id falls h =
      browsed rank fuel id (browse id) refl (falls id)
        λ below b. iterate-Shows rank fuel below falls (omega (arith, b, h))
