-- ===== src/Loader/Items.antt =====
-- Elements as trees, and the events that an XML parser makes of them.
use Prim.Native.String.{String}
use text.Mathlib.Text.{◌==◌ as str_eq}
use open62541_nodeset_loader.Base.{ℕ, Bool, true, ◌&&◌, ◌||◌, not, List, [], ◌∷◌, ◌++◌}
use open62541_nodeset_loader.Build.Attributes.{Attribute}
use open62541_nodeset_loader.Loader.{Event, start_element, end_element, characters}

-- The elements of a file, with the places in it at which the parser stands at the tags.
mutual
  pub data Item : Type 0 where
    element : String → List Attribute → ℕ → Contents → ℕ → Item
    plain : List ℕ → Item

  pub data Contents : Type 0 where
    nothing : Contents
    more : Item → Contents → Contents

-- What the parser reports of an item, in order.
unfoldable mutual
  pub events_of : Item → List Event
  events_of (element name attributes from contents to) =
      start_element name attributes from ∷ (events_in contents ++ end_element name to ∷ [])
  events_of (plain ch) = characters ch ∷ []

  pub events_in : Contents → List Event
  events_in nothing = []
  events_in (more item contents) = events_of item ++ events_in contents

-- No element named Extension has another one of that name inside it.
unfoldable mutual
  pub separate : Bool → Item → Bool
  separate inside (element name attributes from contents to) =
      not (inside && str_eq name "Extension")
      && separate_in (inside || str_eq name "Extension") contents
  separate inside (plain ch) = true

  pub separate_in : Bool → Contents → Bool
  separate_in inside nothing = true
  separate_in inside (more item contents) = separate inside item && separate_in inside contents
