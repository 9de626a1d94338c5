-- ===== src/AliasList/Laws.antt =====
-- What a new alias changes in the table, for lookups under any name.
use open62541_nodeset_loader.Base.{
  ◌≤◌, ◌<◌, ◌≡◌, refl, ap, Bool, true, false, List, [], ◌∷◌, ◌++◌, Option, none, some, length, ltb,
  if◌then◌else◌, text_eq, Exec, fault, ret, ltb→lt, ltb→le, Bool-cases, ◌⊎◌, inl, inr, ◌>>=◌, deref,
}
use open62541_nodeset_loader.Ua.{Text}
use open62541_nodeset_loader.AliasList.{
  max_alias, Alias, AliasList, new_alias, set_id, set_id_at, find_name, get_node_id,
}

module _ {NodeId : Type 0} where
  -- The first alias with the name, as `some`; a fault if a name before it is NULL.
  abbrev pub or_else : Exec (Option NodeId) → Exec (Option NodeId) → Exec (Option NodeId)
  or_else fault e = fault
  or_else (ret none) e = e
  or_else (ret (some id)) e = ret (some id)

  or_else-if :
      (b : Bool) (first rest : Exec (Option NodeId)) (id : NodeId)
      → (if b then ret (some id) else or_else first rest)
        ≡ or_else (if b then ret (some id) else first) rest
  or_else-if true first rest id = refl
  or_else-if false first rest id = refl

  find_step :
      (n : Option Text) (name : Text) (id : NodeId) (all first rest : Exec (Option NodeId))
      → all ≡ or_else first rest
      → (deref n >>= λ a. if text_eq name a then ret (some id) else all)
        ≡ or_else (deref n >>= λ a. if text_eq name a then ret (some id) else first) rest
  find_step none name id all first rest h = refl
  find_step (some a) name id all first rest h = rw h (or_else-if (text_eq name a) first rest id)

  find_name-append :
      (first rest : List (Alias NodeId)) (name : Text)
      → find_name (first ++ rest) name ≡ or_else (find_name first name) (find_name rest name)
  unfolding find_name
  find_name-append [] rest name = refl
  find_name-append (alias ∷ first) rest name =
      find_step alias.name name alias.id _ _ _ (find_name-append first rest name)

  set_id_at-append :
      (cells : List (Alias NodeId)) (a : Alias NodeId) (id : NodeId)
      → set_id_at (cells ++ a ∷ []) (length cells) id ≡ cells ++ record a { id = id } ∷ []
  unfolding set_id_at
  set_id_at-append [] a id = refl
  set_id_at-append (c ∷ cells) a id = ap (λ l. c ∷ l) (set_id_at-append cells a id)

  room :
      (null : NodeId) (list : AliasList NodeId) (name : Option Text)
      → ltb (length list.cells) max_alias ≡ true
      → new_alias null list name ≡ (
        record { cells = list.cells ++ record { name = name; id = null } ∷ [] },
        some (length list.cells),
      )
  unfolding new_alias
  room null list name h = rw h refl

  no_room :
      (null : NodeId) (list : AliasList NodeId) (name : Option Text)
      → ltb (length list.cells) max_alias ≡ false
      → new_alias null list name ≡ (list, none)
  unfolding new_alias
  no_room null list name h = rw h refl

  -- While the table has room, a new alias gets the next cell; once its id is set, a lookup finds
  -- the first older alias with the name it looks for, and otherwise the new one if that has the
  -- name. A full table gives NULL and stays as it is.
  pub new_alias-get_node_id :
      (null id : NodeId) (list : AliasList NodeId) (name other : Text)
      → ((length list.cells < max_alias)
          × ((new_alias null list (some name)).1 ≡ some (length list.cells))
          × (get_node_id
                (set_id (new_alias null list (some name)).0 (length list.cells) id)
                (some other)
              ≡ or_else
                  (get_node_id list (some other))
                  (if text_eq other name then ret (some id) else ret none)))
        ⊎ ((max_alias ≤ length list.cells) × (new_alias null list (some name) ≡ (list, none)))
  unfolding set_id get_node_id find_name
  new_alias-get_node_id null id list name other =
      elim (Bool-cases (ltb (length list.cells) max_alias)) [
        | inl h ↦ inl (
          ltb→lt _ _ h,
          ap (λ r. r.1) (room null list (some name) h),
          rw (room null list (some name) h) (
              rw (set_id_at-append list.cells (record { name = some name; id = null }) id)
                (find_name-append list.cells (record { name = some name; id = id } ∷ []) other)),
        )
        | inr h ↦ inr (ltb→le _ _ h, no_room null list (some name) h)
      ]
