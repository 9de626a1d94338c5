-- ===== src/Nodeset/Search.antt =====
-- `Nodeset_findByNodeId` of src/Nodeset.c: binary search in `allNodes`, which is sorted by id.
pub mod Correct
use mathlib.Core.Logic.{dite}
use mathlib.Core.WellFounded.{Acc}
use native.Mathlib.Decide.{dec_lt}
use open62541_nodeset_loader.Base.{
  ℕ, zero, suc, ◌+◌, ◌-◌, ◌/◌, ◌<◌, List, Option, none, some, get_or, arith, Falls, Acc_of_bound,
}
use open62541_nodeset_loader.Ua.{Ua, Order, less, eq, more}
use open62541_nodeset_loader.Container.{NodePtr, null_ptr}
use open62541_nodeset_loader.Node.{Node}
use open62541_nodeset_loader.Nodeset.{Nodeset}

-- The loop's variables.
pub record Window : Type 0 where
  pub left : ℕ
  pub right : ℕ

abbrev pub width : Window → ℕ
width w = w.right - w.left

abbrev pub mid : Window → ℕ
mid w = w.left + width w / 2

-- `left = mid + 1`
abbrev pub right_half : Window → Window
right_half w = record { left = mid w + 1; right = w.right }

-- `right = mid`
abbrev pub left_half : Window → Window
left_half w = record { left = w.left; right = mid w }

pub right_half-Falls : (w : Window) → w.left < w.right → Falls width (right_half w) w
right_half-Falls w open_ = omega arith

pub left_half-Falls : (w : Window) → w.left < w.right → Falls width (left_half w) w
left_half-Falls w open_ = omega arith

module _ (ua : Ua) (heap : NodePtr → Node ua.NodeId) (nodes : List NodePtr) (key : ua.NodeId) where
  unfoldable pub find_loop : (w : Window) → Acc (Falls width) w → Option NodePtr
  find_loop w (Acc.intro _ halves) =
      dite (dec_lt w.left w.right)
        (λ open_. elim (ua.order (heap (get_or nodes (mid w) null_ptr)).id key) [
          | eq ↦ some (get_or nodes (mid w) null_ptr)
          | less ↦ find_loop (right_half w) (halves _ (right_half-Falls w open_))
          | more ↦ find_loop (left_half w) (halves _ (left_half-Falls w open_))
        ])
        (λ _. none)

-- The window of the whole array.
abbrev pub whole : ℕ → Window
whole size = record { left = 0; right = size }

unfoldable pub find_by_node_id : (ua : Ua) → Nodeset ua → ua.NodeId → Option NodePtr
unfolding find_loop Acc_of_bound
find_by_node_id ua nodeset key =
    find_loop ua nodeset.heap nodeset.all_nodes.nodes key (whole nodeset.all_nodes.size)
      (Acc_of_bound width (suc nodeset.all_nodes.size) (whole nodeset.all_nodes.size) (omega arith))
