-- ===== src/Nodeset/Sort/Marks.antt =====
-- What the last loop of `Nodeset_sort` does to the marks `isDone`.
use open62541_nodeset_loader.Base.{
  ◌<◌, ◌≡◌, refl, ap, ◌∙◌, inl, inr, ◌⊎◌, false, List, [], ◌∷◌, count, ◌==◌, Bool-cases, arith,
}
use open62541_nodeset_loader.Ua.{Ua}
use open62541_nodeset_loader.Container.{NodePtr}
use open62541_nodeset_loader.Node.{Node}
use open62541_nodeset_loader.Nodeset.{update}
use open62541_nodeset_loader.Nodeset.Sort.{reset_done}
use open62541_nodeset_loader.Nodeset.Sort.Conserve.{update_mark}

module _ (ua : Ua) where
  -- Writing the marks leaves the rest of every node alone.
  pub reset_done-node :
      (ps : List NodePtr) (heap : NodePtr → Node ua.NodeId) (p : NodePtr)
      → reset_done ua ps heap p ≡ record (heap p) { is_done = (reset_done ua ps heap p).is_done }
  unfolding reset_done
  reset_done-node [] heap p = refl
  reset_done-node (x ∷ ps) heap p =
      let heap' = update heap x (record (heap x) { is_done = false }) in
      reset_done-node ps heap' p
      ∙ ap (λ (n : Node ua.NodeId). record n { is_done = (reset_done ua ps heap' p).is_done })
          (update_mark ua heap x false p)

  reset_done_step :
      (x p : NodePtr) (ps : List NodePtr) (heap : NodePtr → Node ua.NodeId)
      → (0 < count p (x ∷ ps)) ⊎ ((heap p).is_done ≡ false)
      → (0 < count p ps) ⊎ ((update heap x (record (heap x) { is_done = false }) p).is_done ≡ false)
  reset_done_step x p ps heap h = elim (Bool-cases (p == x)) [
    | inl hit ↦ inr (ground arith)
    | inr miss ↦ ground arith
  ]

  pub reset_done-is_done :
      (ps : List NodePtr) (heap : NodePtr → Node ua.NodeId) (p : NodePtr)
      → (0 < count p ps) ⊎ ((heap p).is_done ≡ false)
      → (reset_done ua ps heap p).is_done ≡ false
  unfolding reset_done
  reset_done-is_done [] heap p (inl h) = absurd (omega arith)
  reset_done-is_done [] heap p (inr h) = h
  reset_done-is_done (x ∷ ps) heap p h = reset_done-is_done ps _ p (reset_done_step x p ps heap h)
