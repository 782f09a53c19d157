-- ===== src/Focus/Registry.antt =====
-- src/FocusController.cpp: `registerNode`, `removeNode` and `setInitialFocus`.
pub mod Preserves
pub mod Removal
pub mod Forgets
use arkham_horror_linux.Common.{
  ℕ, suc, ite, Bool, true, false, not, ◌||◌, Option, none, some, List, [], ◌∷◌, ◌++◌, Text, ◌≟◌,
  text_key, lookup, has, value_or, insert, remove, if◌then◌else◌, is_empty,
}
use arkham_horror_linux.Focus.{
  up, down, left, right, direction_key, NodeSpec, Node, Nodes, Controller, contains, nodes_in_zone,
  set_current_focus, prune_zone_if_empty, live, or_else, head?,
}

abbrev pub entered : NodeSpec → ℕ → Node
entered s order = record {
  zone_id = s.zone_id;
  neighbors = s.neighbors;
  registration_order = order;
}

-- The node and its zone are entered; `order` is kept when the node was registered before.
pub admit : Controller → NodeSpec → ℕ → ℕ → Controller
admit c s order next = record c {
  nodes = insert s.id (entered s order) c.nodes;
  zone_order =
      if contains s.zone_id c.zone_order then c.zone_order else c.zone_order ++ s.zone_id ∷ [];
  next_registration_order = next;
}

pub forget : Controller → Text → Text → Controller
forget c z id = record c {
  zone_last_focused =
      ite (value_or z c.zone_last_focused [] ≟ id) (remove z c.zone_last_focused)
        c.zone_last_focused;
}

pub refocus_zone : Controller → Text → Text → Controller
refocus_zone c z id = record c {
  zone_last_focused =
      ite (c.current_focus_id ≟ id) (insert z id c.zone_last_focused) c.zone_last_focused;
}

-- What a registration does for a node that stood in `previous` before.
pub moved : Controller → NodeSpec → Text → Controller
unfolding forget prune_zone_if_empty refocus_zone
moved c s previous =
    ite (previous ≟ s.zone_id) c
      (refocus_zone (prune_zone_if_empty (forget c previous s.id) previous) s.zone_id s.id)

unfoldable pub register_node : Controller → NodeSpec → Controller
unfolding admit moved
register_node c s = elim (lookup s.id c.nodes) [
  | none ↦ admit c s c.next_registration_order (suc c.next_registration_order)
  | some old ↦ moved (admit c s old.registration_order c.next_registration_order) s old.zone_id
]

-- The nodes are those left after the removal.
pub resolve_removal_fallback : Nodes → Node → Text → Option Text
resolve_removal_fallback nodes n fallback =
    or_else (if is_empty fallback then none else live nodes (some fallback)) (
      or_else (live nodes (lookup up n.neighbors)) (
        or_else (live nodes (lookup down n.neighbors)) (
          or_else (live nodes (lookup left n.neighbors)) (
            or_else (live nodes (lookup right n.neighbors))
              (head? (nodes_in_zone n.zone_id nodes))))))

abbrev pub or_empty : Option Text → Text
or_empty none = []
or_empty (some t) = t

pub forget_value : Text → List (Text × Text) → List (Text × Text)
forget_value id [] = []
forget_value id ((z, i) ∷ m) = ite (i ≟ id) (forget_value id m) ((z, i) ∷ forget_value id m)

pub retarget : Text → Text → List (Text × Text) → List (Text × Text)
retarget id t [] = []
retarget id t ((e, back) ∷ s) = (e, ite (back ≟ id) t back) ∷ retarget id t s

-- After the node is out of the graph and its zone is pruned.
pub drop_references : Controller → Text → Text → Controller
unfolding set_current_focus
drop_references c id t =
    let c' = record c {
      zone_last_focused = forget_value id c.zone_last_focused;
      modal_stack = retarget id t c.modal_stack;
    } in
    ite (c.current_focus_id ≟ id) (set_current_focus c' t) c'

pub remove_node : Controller → Text → Text → Controller
unfolding prune_zone_if_empty resolve_removal_fallback drop_references
remove_node c id fallback = elim (lookup id c.nodes) [
  | none ↦ c
  | some n ↦
      drop_references (prune_zone_if_empty (record c { nodes = remove id c.nodes }) n.zone_id) id
        (or_empty (resolve_removal_fallback (remove id c.nodes) n fallback))
]

pub is_modal_active : Controller → Bool
is_modal_active c = not (is_empty c.modal_stack)

pub set_initial_focus : Controller → Text → Controller × Bool
unfolding is_modal_active set_current_focus
set_initial_focus c id =
    if is_modal_active c || not (has id c.nodes) then (c, false) else (set_current_focus c id, true)
