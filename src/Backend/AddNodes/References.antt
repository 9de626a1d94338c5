-- ===== src/Backend/AddNodes/References.antt =====
-- `addAllRefs` gives the server all references in order, up to the first one that it refuses.
use open62541_nodeset_loader.Base.{
  ◌≡◌, ◌⊎◌, inl, inr, refl, ap, true, false, List, [], ◌∷◌, ◌++◌, Bool-cases,
}
use open62541_nodeset_loader.Ua.{Ua}
use open62541_nodeset_loader.Node.{Reference}
use open62541_nodeset_loader.Backend.{StatusCode, Server}
use open62541_nodeset_loader.Backend.AddNodes.{is_added, add_refs}

module _ (ua : Ua) (S : Server ua) (id : ua.NodeId) where
  abbrev pub answer : Reference ua.NodeId → S.State → S.State × StatusCode
  answer ref state = S.add_reference id ref.ref_type ref.target ref.is_forward state

  -- The server accepts the references one after the other, and is then in the last state.
  abbrev pub Accepts : S.State → List (Reference ua.NodeId) → S.State → Type 0
  Accepts state [] last = state ≡ last
  Accepts state (ref ∷ refs) last =
      (is_added (answer ref state).1 ≡ true) × Accepts (answer ref state).0 refs last

  -- The first reference that is refused, behind the ones that are accepted.
  pub record Refuses (state : S.State) (refs : List (Reference ua.NodeId)) (last : S.State)
      : Type 0 where
    pub before : List (Reference ua.NodeId)
    pub ref : Reference ua.NodeId
    pub after : List (Reference ua.NodeId)
    pub reached : S.State
    pub split : refs ≡ before ++ ref ∷ after
    pub accepted : Accepts state before reached
    pub refused : is_added (answer ref reached).1 ≡ false
    pub left : last ≡ (answer ref reached).0

  Refuses-later :
      (state : S.State) (ref : Reference ua.NodeId) (refs : List (Reference ua.NodeId))
      (last : S.State)
      → is_added (answer ref state).1 ≡ true
      → Refuses (answer ref state).0 refs last
      → Refuses state (ref ∷ refs) last
  Refuses-later state ref refs last e r = record {
    before = ref ∷ r.before;
    ref = r.ref;
    after = r.after;
    reached = r.reached;
    split = ap (λ l. ref ∷ l) r.split;
    accepted = (e, r.accepted);
    refused = r.refused;
    left = r.left;
  }

  -- `addAllRefs` returns true if the server accepts every reference of the node, a duplicate
  -- included; otherwise it returns false and the server has seen the references up to the first
  -- one that it refused, in order, and no other.
  pub add_refs-Refuses :
      (refs : List (Reference ua.NodeId)) (state : S.State)
      → (((add_refs ua S id refs state).1 ≡ true)
          × Accepts state refs (add_refs ua S id refs state).0)
        ⊎ (((add_refs ua S id refs state).1 ≡ false)
            × Refuses state refs (add_refs ua S id refs state).0)
  unfolding add_refs
  add_refs-Refuses [] state = inl (refl, refl)
  add_refs-Refuses (ref ∷ refs) state = elim (Bool-cases (is_added (answer ref state).1)) [
    | inr refuse ↦ rw refuse (
        inr (
          refl,
          record {
            before = [];
            ref = ref;
            after = refs;
            reached = state;
            split = refl;
            accepted = refl;
            refused = refuse;
            left = refl;
          },
        ))
    | inl added ↦ rw added (elim (add_refs-Refuses refs (answer ref state).0) [
      | inl (t, a) ↦ inl (t, (refl, a))
      | inr (f, r) ↦ inr (f, Refuses-later state ref refs _ added r)
    ])
  ]
