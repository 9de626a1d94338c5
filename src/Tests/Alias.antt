-- ===== src/Tests/Alias.antt =====
-- The alias table with one entry, and one more.
use open62541_nodeset_loader.Base.{
  ℕ, ◌<◌, ◌≤◌, ◌≡◌, ◌⊎◌, [], ◌∷◌, none, some, length, codes, text_eq, if◌then◌else◌, ret,
}
use open62541_nodeset_loader.AliasList.{AliasList, max_alias, new_alias, set_id, get_node_id}
use open62541_nodeset_loader.AliasList.Laws.{or_else, new_alias-get_node_id}

abbrev one_alias : AliasList ℕ
one_alias = record { cells = record { name = some (codes "Boolean"); id = 1 } ∷ [] }

new_alias-get_node_id_example :
    ((length one_alias.cells < max_alias)
      × ((new_alias 0 one_alias (some (codes "Int32"))).1 ≡ some (length one_alias.cells))
      × (get_node_id
            (set_id (new_alias 0 one_alias (some (codes "Int32"))).0 (length one_alias.cells) 6)
            (some (codes "Int32"))
          ≡ or_else
              (get_node_id one_alias (some (codes "Int32")))
              (if text_eq (codes "Int32") (codes "Int32") then ret (some 6) else ret none)))
    ⊎ ((max_alias ≤ length one_alias.cells)
        × (new_alias 0 one_alias (some (codes "Int32")) ≡ (one_alias, none)))
new_alias-get_node_id_example = new_alias-get_node_id 0 6 one_alias (codes "Int32") (codes "Int32")
