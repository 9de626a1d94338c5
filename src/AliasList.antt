-- ===== src/AliasList.antt =====
-- The alias table of src/AliasList.c: at most 300 names for node ids.
pub mod Laws
use open62541_nodeset_loader.Base.{
  ℕ, zero, suc, List, [], ◌∷◌, ◌++◌, Option, none, some, length, ltb, if◌then◌else◌, text_eq, Exec,
  ret, ◌>>=◌, deref,
}
use open62541_nodeset_loader.Ua.{Text}

abbrev pub max_alias : ℕ
max_alias = 300

-- A name that is NULL is `none`.
pub record Alias (NodeId : Type 0) : Type 0 where
  pub name : Option Text
  pub id : NodeId

-- The first `size` cells of the array, so `size` is the length.
pub record AliasList (NodeId : Type 0) : Type 0 where
  pub cells : List (Alias NodeId)

module _ {NodeId : Type 0} where
  -- An `Alias *` is the index of its cell. A full table gives NULL.
  unfoldable pub new_alias : NodeId → AliasList NodeId → Option Text → AliasList NodeId × Option ℕ
  new_alias null list name =
      if ltb (length list.cells) max_alias
      then (
        record { cells = list.cells ++ record { name = name; id = null } ∷ [] },
        some (length list.cells),
      )
      else (list, none)

  unfoldable pub set_id_at : List (Alias NodeId) → ℕ → NodeId → List (Alias NodeId)
  set_id_at [] i id = []
  set_id_at (alias ∷ cells) zero id = record alias { id = id } ∷ cells
  set_id_at (alias ∷ cells) (suc i) id = alias ∷ set_id_at cells i id

  -- `alias->id = id`
  unfoldable pub set_id : AliasList NodeId → ℕ → NodeId → AliasList NodeId
  unfolding set_id_at
  set_id list i id = record { cells = set_id_at list.cells i id }

  -- The loop of `AliasList_getNodeId`; `strcmp` on a name that is NULL faults.
  unfoldable pub find_name : List (Alias NodeId) → Text → Exec (Option NodeId)
  find_name [] name = ret none
  find_name (alias ∷ rest) name = do
    alias_name ← deref alias.name
    if text_eq name alias_name then ret (some alias.id) else find_name rest name

  unfoldable pub get_node_id : AliasList NodeId → Option Text → Exec (Option NodeId)
  unfolding find_name
  get_node_id list none = ret none
  get_node_id list (some name) = find_name list.cells name
