-- ===== src/Focus/System.antt =====
-- The public operations of src/FocusController.cpp as commands, and runs of them.
pub mod Reachable
use arkham_horror_linux.Common.{Bool, Option, List, [], ◌∷◌, Text}
use arkham_horror_linux.Focus.{
  Direction, WrapPolicy, NodeSpec, Snapshot, GeometryFallback, Controller, init, contains, has_zone,
}
use arkham_horror_linux.Focus.Registry.{register_node, remove_node, set_initial_focus}
use arkham_horror_linux.Focus.Navigation.{
  move_focus, cycle_zone, push_modal, pop_modal, restore_snapshot,
}

pub data Command : Type 0 where
  set_wrap_policy : WrapPolicy → Command
  set_geometry_fallback : Option GeometryFallback → Command
  register : NodeSpec → Command
  unregister : Text → Text → Command
  focus_first : Text → Command
  move : Direction → Command
  cycle : Bool → Command
  push : Text → Command
  pop : Command
  restore : Snapshot → Command

unfoldable pub step : Controller → Command → Controller
unfolding register_node push_modal
step c (set_wrap_policy p) = record c { wrap_policy = p }
step c (set_geometry_fallback f) = record c { geometry_fallback = f }
step c (register s) = register_node c s
step c (unregister id fallback) = remove_node c id fallback
step c (focus_first id) = (set_initial_focus c id).0
step c (move d) = (move_focus c d).0
step c (cycle forward) = (cycle_zone c forward).0
step c (push entry) = (push_modal c entry).0
step c pop = (pop_modal c).0
step c (restore s) = restore_snapshot c s

unfoldable pub run : Controller → List Command → Controller
unfolding step
run c [] = c
run c (x ∷ xs) = run (step c x) xs
