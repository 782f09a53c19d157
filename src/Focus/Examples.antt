-- ===== src/Focus/Examples.antt =====
-- A controller of src/FocusController.cpp with two zones and a modal level.
use arkham_horror_linux.Common.{
  true, List, [], ◌∷◌, Text, text_key, text_discrete, lookup, insert, codes, ◌≡◌, ◌≢◌, refl, arith,
}
use arkham_horror_linux.Focus.{
  right, no_wrap, wrap_within_zone, NodeSpec, Controller, init, zone_of, has_zone,
  set_current_focus, contains,
}
use arkham_horror_linux.Focus.Invariant.{WellFormed}
use arkham_horror_linux.Focus.Navigation.{
  push_modal, pop_modal, restore_snapshot, snapshot, cycle_zone, active_zones,
}
use arkham_horror_linux.Focus.Registry.{register_node}
use arkham_horror_linux.Focus.System.{Command, register, unregister, push, run, step}
use arkham_horror_linux.Focus.Registry.{remove_node}
use arkham_horror_linux.Focus.Registry.Forgets.{Forgotten, remove_node-Forgotten}
use arkham_horror_linux.Focus.System.Reachable.{run-init-WellFormed}
use arkham_horror_linux.Focus.Navigation.Modals.{pop_modal-target, pop_modal-push_modal}
use arkham_horror_linux.Focus.Navigation.Snapshots.{
  restore_snapshot_deterministic, restore_snapshot-snapshot,
}
use arkham_horror_linux.Focus.Navigation.Cycles.{Cycles}
use arkham_horror_linux.Focus.Navigation.Zones.{cycle_zone-next}

abbrev card : NodeSpec
card = record { id = codes "card"; zone_id = codes "hand"; neighbors = (right, codes "deck") ∷ [] }

abbrev deck : NodeSpec
deck = record { id = codes "deck"; zone_id = codes "board"; neighbors = [] }

abbrev registering : List Command
registering = register card ∷ register deck ∷ []

-- The modal level returns to no node, since none has the focus yet.
abbrev opening : List Command
opening = register card ∷ register deck ∷ push (codes "deck") ∷ []

abbrev table : Controller
table = run (init wrap_within_zone) registering

abbrev opened : Controller
opened = run (init wrap_within_zone) opening

table-WellFormed : WellFormed table
table-WellFormed = run-init-WellFormed wrap_within_zone registering

opened-WellFormed : WellFormed opened
opened-WellFormed = run-init-WellFormed wrap_within_zone opening

run-init-WellFormed_example :
    WellFormed (run (init no_wrap) (unregister (codes "card") [] ∷ opening))
run-init-WellFormed_example = run-init-WellFormed no_wrap (unregister (codes "card") [] ∷ opening)

pop_modal-target_example :
    ((pop_modal opened).1 ≡ true)
    × ((pop_modal opened).0.current_focus_id ≡ [])
    × ((pop_modal opened).0.modal_stack ≡ [])
    × ((pop_modal opened).0.nodes ≡ opened.nodes)
unfolding run step init lookup insert text_discrete register_node push_modal set_current_focus
pop_modal-target_example = pop_modal-target opened (codes "deck") [] [] opened-WellFormed refl

pop_modal-push_modal_example :
    ((pop_modal (push_modal table (codes "card")).0).1 ≡ true)
    × ((pop_modal (push_modal table (codes "card")).0).0.current_focus_id ≡ table.current_focus_id)
    × ((pop_modal (push_modal table (codes "card")).0).0.modal_stack ≡ table.modal_stack)
    × ((pop_modal (push_modal table (codes "card")).0).0.nodes ≡ table.nodes)
unfolding run step init lookup insert text_discrete register_node
pop_modal-push_modal_example = pop_modal-push_modal table (codes "card") table-WellFormed refl

restore_snapshot_deterministic_example :
    ((restore_snapshot table (snapshot opened)).current_focus_id
      ≡ (restore_snapshot opened (snapshot opened)).current_focus_id)
    × ((restore_snapshot table (snapshot opened)).modal_stack
        ≡ (restore_snapshot opened (snapshot opened)).modal_stack)
    × ((restore_snapshot table (snapshot opened)).zone_last_focused
        ≡ (restore_snapshot opened (snapshot opened)).zone_last_focused)
unfolding run step init lookup insert text_discrete register_node push_modal set_current_focus
restore_snapshot_deterministic_example =
    restore_snapshot_deterministic table opened (snapshot opened) refl

restore_snapshot-snapshot_example :
    ((restore_snapshot table (snapshot opened)).current_focus_id ≡ opened.current_focus_id)
    × ((restore_snapshot table (snapshot opened)).modal_stack ≡ opened.modal_stack)
    × ((z : Text)
        → zone_of opened.nodes opened.current_focus_id ≢ z
        → lookup z (restore_snapshot table (snapshot opened)).zone_last_focused
          ≡ lookup z opened.zone_last_focused)
unfolding run step init lookup insert text_discrete register_node push_modal set_current_focus
restore_snapshot-snapshot_example =
    restore_snapshot-snapshot opened table opened-WellFormed (λ e. absurd (ground (arith, e))) refl
      (refl, tt) refl

cycle_zone-next_example :
    ((cycle_zone opened true).1 ≡ true)
    × Cycles
        (active_zones opened.zone_order opened.nodes)
        (codes "board")
        (zone_of opened.nodes (cycle_zone opened true).0.current_focus_id)
        true
unfolding run step init lookup insert text_discrete register_node has_zone active_zones contains
    push_modal set_current_focus
cycle_zone-next_example =
    cycle_zone-next opened true (codes "board") opened-WellFormed (omega arith)
      (λ e. absurd (ground (arith, e))) (λ ne. refl)

remove_node-Forgotten_example :
    Forgotten (remove_node opened (codes "deck") (codes "card")) (codes "deck")
    × ((j : Text)
        → codes "deck" ≢ j
        → lookup j (remove_node opened (codes "deck") (codes "card")).nodes ≡ lookup j opened.nodes)
remove_node-Forgotten_example =
    remove_node-Forgotten opened (codes "deck") (codes "card") opened-WellFormed
      (λ e. absurd (ground (arith, e)))
