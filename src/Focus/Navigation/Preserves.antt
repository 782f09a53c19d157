-- ===== src/Focus/Navigation/Preserves.antt =====
-- Moves, cycles, modal levels and snapshots keep the invariant of the focus graph.
use arkham_horror_linux.Common.{
  ℕ, zero, suc, Bool, Option, none, some, List, [], ◌∷◌, ◌≡◌, inl, inr, arith, Text, text_key,
  lookup, has, lookup-insert, Unique, insert-Unique, is_empty, Option-cases, Bool-cases, All,
  get_elem?, ◌||◌, length, is_some,
}
use arkham_horror_linux.Focus.{
  Nodes, Node, Direction, direction_key, Controller, Snapshot, zone?, index_of,
}
use arkham_horror_linux.Focus.Invariant.{
  Live, Remembers, Returns, WellFormed, remember-Remembers, remember-Unique,
  set_current_focus-WellFormed,
}
use arkham_horror_linux.Focus.ZoneNodes.{
  LiveOption, live-LiveOption, or_else-LiveOption, head?-nodes_in_zone-LiveOption,
  nodes_in_zone-All, first_registered_node_id-Live,
}
use arkham_horror_linux.Focus.Navigation.{
  wraps, other_than, next_index, wrap_target, geometry_target, zone_candidates, move_target,
  focus_on, move_focus, cycle_zone_target, remembered_or_first, cycle_zone, push_modal,
  return_target, pop_to, pop_modal, restore_stack, restore_memory, restore_target, restore_snapshot,
}

get_elem?-LiveOption :
    (m : Nodes) (z : Text) (l : List Text) (i : ℕ)
    → All (λ k. zone? k m ≡ some z) l
    → LiveOption m (get_elem? l i)
get_elem?-LiveOption m z [] i h = tt
get_elem?-LiveOption m z (k ∷ l) zero h = ground arith
get_elem?-LiveOption m z (k ∷ l) (suc i) h = get_elem?-LiveOption m z l i h.1

other_than-LiveOption :
    (m : Nodes) (id : Text) (o : Option Text) → LiveOption m o → LiveOption m (other_than id o)
other_than-LiveOption m id none h = tt
other_than-LiveOption m id (some t) h = ground arith

module _ (c : Controller) (v : WellFormed c) where
  focus_on-WellFormed : (o : Option Text) → LiveOption c.nodes o → WellFormed (focus_on c o).0
  focus_on-WellFormed none h = v
  focus_on-WellFormed (some t) h = set_current_focus-WellFormed c t v.consistent (inr h)

  zone_candidates-All :
      (n : Node) → All (λ k. zone? k c.nodes ≡ some n.zone_id) (zone_candidates c n)
  unfolding zone_candidates
  zone_candidates-All n = elim (Bool-cases (wraps c.wrap_policy || is_some c.geometry_fallback)) [
    | inl e ↦ rw e (nodes_in_zone-All n.zone_id c.nodes v.consistent.nodes_unique)
    | inr e ↦ rw e tt
  ]

  wrap_target-LiveOption :
      (d : Direction) (z : Text) (l : List Text)
      → All (λ k. zone? k c.nodes ≡ some z) l
      → LiveOption c.nodes (wrap_target c d l)
  unfolding wrap_target
  wrap_target-LiveOption d z l h = elim (Option-cases (index_of c.current_focus_id l)) [
    | inl e ↦ rw (e, wrap_target) (ground arith)
    | inr (i, e) ↦
        rw (e, wrap_target)
          (ground (
            arith,
            other_than-LiveOption c.nodes c.current_focus_id
                (get_elem? l (next_index d i (length l)))
                (get_elem?-LiveOption c.nodes z l (next_index d i (length l)) h),
          ))
  ]

  geometry_target-LiveOption :
      (d : Direction) (l : List Text) → LiveOption c.nodes (geometry_target c d l)
  unfolding geometry_target
  geometry_target-LiveOption d l = elim (Option-cases c.geometry_fallback) [
    | inl e ↦ rw (e, geometry_target) tt
    | inr (f, e) ↦ rw (e, geometry_target) (live-LiveOption c.nodes (f c.current_focus_id d _))
  ]

  move_target-LiveOption : (d : Direction) (n : Node) → LiveOption c.nodes (move_target c d n)
  unfolding move_target
  move_target-LiveOption d n =
      or_else-LiveOption c.nodes _ _ (live-LiveOption c.nodes (lookup d n.neighbors)) (
        or_else-LiveOption c.nodes _ _
          (wrap_target-LiveOption d n.zone_id (zone_candidates c n) (zone_candidates-All n))
          (geometry_target-LiveOption d (zone_candidates c n)))

  pub move_focus-WellFormed : (d : Direction) → WellFormed (move_focus c d).0
  unfolding move_focus
  move_focus-WellFormed d = elim (Bool-cases (is_empty c.current_focus_id)) [
    | inl e ↦ rw e v
    | inr e ↦ rw e (elim (Option-cases (lookup c.current_focus_id c.nodes)) [
      | inl none_there ↦ rw none_there v
      | inr (n, there) ↦
          rw there (focus_on-WellFormed (move_target c d n) (move_target-LiveOption d n))
    ])
  ]

  remembered_or_first-LiveOption : (z : Text) → LiveOption c.nodes (remembered_or_first c z)
  unfolding remembered_or_first
  remembered_or_first-LiveOption z =
      ground (arith, head?-nodes_in_zone-LiveOption z c.nodes v.consistent.nodes_unique)

  pub cycle_zone-WellFormed : (forward : Bool) → WellFormed (cycle_zone c forward).0
  unfolding cycle_zone
  cycle_zone-WellFormed forward = elim (Option-cases (cycle_zone_target c forward)) [
    | inl e ↦ rw (e, cycle_zone) v
    | inr (z, e) ↦
        rw (e, cycle_zone)
          (focus_on-WellFormed (remembered_or_first c z) (remembered_or_first-LiveOption z))
  ]

  pub push_modal-WellFormed : (entry : Text) → WellFormed (push_modal c entry).0
  unfolding push_modal
  push_modal-WellFormed entry = elim (Bool-cases (has entry c.nodes)) [
    | inl e ↦ rw e (
        set_current_focus-WellFormed _ entry
          (record {
            nodes_unique = v.consistent.nodes_unique;
            memory_unique = v.consistent.memory_unique;
            covers = v.consistent.covers;
            remembers = v.consistent.remembers;
            returns = (v.focused, v.consistent.returns);
          })
          (inr e))
    | inr e ↦ rw e v
  ]

return_target-Live : (m : Nodes) (back : Text) → Unique m → Live m (return_target m back)
return_target-Live m back u = ground (arith, first_registered_node_id-Live m u)

pop_to-WellFormed :
    (c : Controller) (s : List (Text × Text))
    → Returns c.nodes s
    → WellFormed c
    → WellFormed (pop_to c s).0
unfolding pop_to
pop_to-WellFormed c [] r v = v
pop_to-WellFormed c ((entry, back) ∷ rest) r v =
    set_current_focus-WellFormed _ (return_target c.nodes back)
      (record {
        nodes_unique = v.consistent.nodes_unique;
        memory_unique = v.consistent.memory_unique;
        covers = v.consistent.covers;
        remembers = v.consistent.remembers;
        returns = r.1;
      })
      (return_target-Live c.nodes back v.consistent.nodes_unique)

pub pop_modal-WellFormed : (c : Controller) → WellFormed c → WellFormed (pop_modal c).0
unfolding pop_modal
pop_modal-WellFormed c v = pop_to-WellFormed c c.modal_stack v.consistent.returns v

module _ (m : Nodes) (u : Unique m) where
  restore_stack-Returns : (s : List (Text × Text)) → Returns m (restore_stack m s)
  unfolding restore_stack
  restore_stack-Returns [] = tt
  restore_stack-Returns ((entry, back) ∷ rest) =
      ground (arith, restore_stack-Returns rest, return_target-Live m back u)

  restore_memory-Remembers : (s : List (Text × Text)) → Remembers m (restore_memory m s)
  unfolding restore_memory lookup
  restore_memory-Remembers [] z i h = cc
  restore_memory-Remembers ((zone, id) ∷ s) z i h =
      ground (arith, restore_memory-Remembers s z i, lookup-insert z zone id (restore_memory m s))

  restore_memory-Unique : (s : List (Text × Text)) → Unique (restore_memory m s)
  unfolding restore_memory
  restore_memory-Unique [] = tt
  restore_memory-Unique ((zone, id) ∷ s) =
      ground (arith, restore_memory-Unique s, insert-Unique zone id (restore_memory m s))

  restore_target-Live :
      (focused : Text) (s : List (Text × Text)) → Live m (restore_target m focused s)
  unfolding restore_target
  restore_target-Live focused [] = ground (arith, first_registered_node_id-Live m u)
  restore_target-Live focused ((entry, back) ∷ s) =
      ground (arith, first_registered_node_id-Live m u)

pub restore_snapshot-WellFormed :
    (c : Controller) (s : Snapshot) → WellFormed c → WellFormed (restore_snapshot c s)
unfolding restore_snapshot
restore_snapshot-WellFormed c s v =
    let u = v.consistent.nodes_unique in
    let t = restore_target-Live c.nodes u s.focused_id (restore_stack c.nodes s.modal_stack) in
    set_current_focus-WellFormed _ _
      (record {
        nodes_unique = u;
        memory_unique =
            remember-Unique c.nodes _ _ (restore_memory-Unique c.nodes u s.zone_last_focused);
        covers = v.consistent.covers;
        remembers =
            remember-Remembers c.nodes _ _ t
              (restore_memory-Remembers c.nodes u s.zone_last_focused);
        returns = restore_stack-Returns c.nodes u s.modal_stack;
      })
      t
