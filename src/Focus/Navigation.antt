-- ===== src/Focus/Navigation.antt =====
-- src/FocusController.cpp: `moveFocus`, `cycleZone`, the modal levels and the snapshots.
pub mod Preserves
pub mod Modals
pub mod Snapshots
pub mod Cycles
pub mod Zones
use arkham_horror_linux.Common.{
  ℕ, suc, ◌+◌, ◌-◌, ◌%◌, ite, Bool, true, false, not, ◌&&◌, ◌||◌, Option, none, some, List, [], ◌∷◌,
  Text, ◌≟◌, text_key, lookup, has, value_or, insert, ltb, if◌then◌else◌, length, is_empty, is_some,
  get_elem?,
}
use arkham_horror_linux.Focus.{
  Direction, up, down, left, right, direction_key, WrapPolicy, no_wrap, wrap_within_zone, Node,
  Nodes, Snapshot, Controller, contains, remove_all, index_of, zone_of, has_zone, nodes_in_zone,
  first_registered_node_id, remember, set_current_focus, live, or_else, head?,
}

abbrev wraps : WrapPolicy → Bool
wraps no_wrap = false
wraps wrap_within_zone = true

-- The index after `i` in the direction, modulo the size.
pub next_index : Direction → ℕ → ℕ → ℕ
next_index right i size = (i + 1) % size
next_index down i size = (i + 1) % size
next_index left i size = (i + size - 1) % size
next_index up i size = (i + size - 1) % size

abbrev other_than : Text → Option Text → Option Text
other_than id none = none
other_than id (some t) = ite (t ≟ id) none (some t)

pub wrap_target : Controller → Direction → List Text → Option Text
unfolding next_index
wrap_target c dir zone_nodes =
    if wraps c.wrap_policy && ltb 1 (length zone_nodes)
    then elim (index_of c.current_focus_id zone_nodes) [
      | none ↦ none
      | some i ↦
          other_than c.current_focus_id
            (get_elem? zone_nodes (next_index dir i (length zone_nodes)))
    ]
    else none

pub geometry_target : Controller → Direction → List Text → Option Text
geometry_target c dir zone_nodes = elim c.geometry_fallback [
  | none ↦ none
  | some f ↦ live c.nodes (f c.current_focus_id dir (remove_all c.current_focus_id zone_nodes))
]

-- The zone's list is made only where wrapping or the geometry needs it.
pub zone_candidates : Controller → Node → List Text
zone_candidates c n =
    if wraps c.wrap_policy || is_some c.geometry_fallback
    then nodes_in_zone n.zone_id c.nodes
    else []

pub move_target : Controller → Direction → Node → Option Text
unfolding wrap_target geometry_target zone_candidates
move_target c dir n = or_else (live c.nodes (lookup dir n.neighbors)) (
    or_else (wrap_target c dir (zone_candidates c n)) (geometry_target c dir (zone_candidates c n)))

-- The last step of a move or a cycle: to the target, if there is one.
abbrev pub focus_on : Controller → Option Text → Controller × Bool
focus_on c none = (c, false)
focus_on c (some t) = (set_current_focus c t, true)

pub move_focus : Controller → Direction → Controller × Bool
unfolding move_target
move_focus c dir =
    if is_empty c.current_focus_id then (c, false) else elim (lookup c.current_focus_id c.nodes) [
      | none ↦ (c, false)
      | some n ↦ focus_on c (move_target c dir n)
    ]

-- The zones in their order that have a node.
unfoldable pub active_zones : List Text → Nodes → List Text
active_zones [] nodes = []
active_zones (z ∷ zs) nodes =
    if has_zone z nodes then z ∷ active_zones zs nodes else active_zones zs nodes

-- With no current zone the position is before the first zone, or after the last.
pub zone_index : Bool → Option ℕ → ℕ → ℕ
zone_index true none size = 0 % size
zone_index true (some i) size = (i + 1) % size
zone_index false none size = (size + size - 1) % size
zone_index false (some i) size = (i + size - 1) % size

pub remembered_or_first : Controller → Text → Option Text
remembered_or_first c zone =
    let remembered = value_or zone c.zone_last_focused [] in
    if not (is_empty remembered) && has remembered c.nodes
    then ite (zone_of c.nodes remembered ≟ zone) (some remembered)
        (head? (nodes_in_zone zone c.nodes))
    else head? (nodes_in_zone zone c.nodes)

pub current_zone : Controller → Text
current_zone c = if is_empty c.current_focus_id then [] else zone_of c.nodes c.current_focus_id

-- The zone that a cycle goes to; the index is in range where there are two zones.
pub cycle_zone_target : Controller → Bool → Option Text
unfolding active_zones zone_index current_zone
cycle_zone_target c forward =
    let zones = active_zones c.zone_order c.nodes in
    if ltb (length zones) 2
    then none
    else get_elem? zones (zone_index forward (index_of (current_zone c) zones) (length zones))

pub cycle_zone : Controller → Bool → Controller × Bool
unfolding cycle_zone_target remembered_or_first
cycle_zone c forward = elim (cycle_zone_target c forward) [
  | none ↦ (c, false)
  | some zone ↦ focus_on c (remembered_or_first c zone)
]

unfoldable pub push_modal : Controller → Text → Controller × Bool
push_modal c entry =
    if has entry c.nodes
    then (
      set_current_focus (record c { modal_stack = (entry, c.current_focus_id) ∷ c.modal_stack })
          entry,
      true,
    )
    else (c, false)

-- A target that is no longer registered gives way to the first node; no target stays none.
abbrev pub return_target : Nodes → Text → Text
return_target nodes back =
    if is_empty back then [] else if has back nodes then back else first_registered_node_id nodes

pub pop_to : Controller → List (Text × Text) → Controller × Bool
pop_to c [] = (c, false)
pop_to c ((entry, back) ∷ rest) =
    (set_current_focus (record c { modal_stack = rest }) (return_target c.nodes back), true)

pub pop_modal : Controller → Controller × Bool
unfolding pop_to
pop_modal c = pop_to c c.modal_stack

pub snapshot : Controller → Snapshot
snapshot c = record {
  focused_id = c.current_focus_id;
  modal_stack = c.modal_stack;
  zone_last_focused = c.zone_last_focused;
}

pub restore_stack : Nodes → List (Text × Text) → List (Text × Text)
restore_stack nodes [] = []
restore_stack nodes ((entry, back) ∷ rest) =
    if has entry nodes
    then (entry, return_target nodes back) ∷ restore_stack nodes rest
    else restore_stack nodes rest

-- The memory of a snapshot that the graph still bears out.
pub restore_memory : Nodes → List (Text × Text) → List (Text × Text)
restore_memory nodes [] = []
restore_memory nodes ((zone, id) ∷ m) =
    if has id nodes
    then ite (zone_of nodes id ≟ zone) (insert zone id (restore_memory nodes m))
        (restore_memory nodes m)
    else restore_memory nodes m

pub restore_target : Nodes → Text → List (Text × Text) → Text
restore_target nodes focused [] =
    if is_empty focused || not (has focused nodes) then first_registered_node_id nodes else focused
restore_target nodes focused ((entry, back) ∷ rest) =
    if is_empty focused || not (has focused nodes)
    then (if has entry nodes then entry else first_registered_node_id nodes)
    else focused

pub restore_snapshot : Controller → Snapshot → Controller
unfolding restore_stack restore_memory restore_target
restore_snapshot c s =
    let stack = restore_stack c.nodes s.modal_stack in
    let target = restore_target c.nodes s.focused_id stack in
    set_current_focus
      (record c {
        modal_stack = stack;
        zone_last_focused = remember c.nodes target (restore_memory c.nodes s.zone_last_focused);
      })
      target
