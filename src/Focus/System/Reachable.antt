-- ===== src/Focus/System/Reachable.antt =====
-- The invariant holds after every run of src/FocusController.cpp from its construction.
use arkham_horror_linux.Common.{List, [], ◌∷◌, refl, inl, lookup, text_key}
use arkham_horror_linux.Focus.{WrapPolicy, Controller, init, contains, has_zone}
use arkham_horror_linux.Focus.Invariant.{Consistent, WellFormed}
use arkham_horror_linux.Focus.Registry.Preserves.{
  register_node-WellFormed, set_initial_focus-WellFormed,
}
use arkham_horror_linux.Focus.Registry.Removal.{remove_node-WellFormed}
use arkham_horror_linux.Focus.Navigation.Preserves.{
  move_focus-WellFormed, cycle_zone-WellFormed, push_modal-WellFormed, pop_modal-WellFormed,
  restore_snapshot-WellFormed,
}
use arkham_horror_linux.Focus.System.{
  Command, set_wrap_policy, set_geometry_fallback, register, unregister, focus_first, move, cycle,
  push, pop, restore, step, run,
}

init-WellFormed : (p : WrapPolicy) → WellFormed (init p)
unfolding init contains has_zone lookup
init-WellFormed p = record {
  consistent = record {
    nodes_unique = tt;
    memory_unique = tt;
    covers = λ z. refl;
    remembers = λ z i h. cc;
    returns = tt;
  };
  focused = inl refl;
}

step-WellFormed : (c : Controller) (x : Command) → WellFormed c → WellFormed (step c x)
unfolding step
step-WellFormed c (set_wrap_policy p) v = record {
  consistent = keep v.consistent;
  focused = v.focused;
}
  where
    keep : Consistent c → Consistent (record c { wrap_policy = p })
    keep w = record {
      nodes_unique = w.nodes_unique;
      memory_unique = w.memory_unique;
      covers = w.covers;
      remembers = w.remembers;
      returns = w.returns;
    }
step-WellFormed c (set_geometry_fallback f) v = record {
  consistent = keep v.consistent;
  focused = v.focused;
}
  where
    keep : Consistent c → Consistent (record c { geometry_fallback = f })
    keep w = record {
      nodes_unique = w.nodes_unique;
      memory_unique = w.memory_unique;
      covers = w.covers;
      remembers = w.remembers;
      returns = w.returns;
    }
step-WellFormed c (register s) v = register_node-WellFormed c s v
step-WellFormed c (unregister id fallback) v = remove_node-WellFormed c id fallback v
step-WellFormed c (focus_first id) v = set_initial_focus-WellFormed c id v
step-WellFormed c (move d) v = move_focus-WellFormed c v d
step-WellFormed c (cycle forward) v = cycle_zone-WellFormed c v forward
step-WellFormed c (push entry) v = push_modal-WellFormed c v entry
step-WellFormed c pop v = pop_modal-WellFormed c v
step-WellFormed c (restore s) v = restore_snapshot-WellFormed c s v

run-WellFormed : (c : Controller) (xs : List Command) → WellFormed c → WellFormed (run c xs)
unfolding run
run-WellFormed c [] v = v
run-WellFormed c (x ∷ xs) v = run-WellFormed (step c x) xs (step-WellFormed c x v)

-- After any sequence of calls on a new controller: each id stands once in the graph and each zone
-- once in the memory; the zone order holds exactly the zones that have a node; what a zone
-- remembers is a node registered in that zone; every modal level returns to no node or to a
-- registered one; and the focus is on no node or on a registered one.
pub run-init-WellFormed : (p : WrapPolicy) (xs : List Command) → WellFormed (run (init p) xs)
run-init-WellFormed p xs = run-WellFormed (init p) xs (init-WellFormed p)
