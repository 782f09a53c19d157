-- ===== src/Focus/Registry/Removal.antt =====
-- `removeNode` of src/FocusController.cpp and the invariant of the focus graph.
use mathlib.Core.Logic.{if_pos, if_neg}
use arkham_horror_linux.Common.{
  Option, none, some, List, [], ◌∷◌, ◌≡◌, ◌≢◌, refl, sym, ◌∙◌, inl, inr, arith, Text, ◌≟◌, text_key,
  lookup, remove, lookup-remove, Unique, remove-Unique, if◌then◌else◌, is_empty, Option-cases,
}
use arkham_horror_linux.Focus.{
  Nodes, Node, up, down, left, right, direction_key, Controller, prune_zone_if_empty, live,
}
use arkham_horror_linux.Focus.Invariant.{
  Live, Remembers, Covers, Returns, Consistent, WellFormed, has_zone_of_lookup, prune_zone-Covers,
  prune_zone-Remembers, prune_zone-Unique, has_zone-remove, Live-remove,
  set_current_focus-WellFormed,
}
use arkham_horror_linux.Focus.ZoneNodes.{
  LiveOption, live-LiveOption, or_else-LiveOption, head?-nodes_in_zone-LiveOption,
}
use arkham_horror_linux.Focus.Registry.{
  forget_value, retarget, drop_references, remove_node, resolve_removal_fallback, or_empty,
}

or_empty-Live : (m : Nodes) (o : Option Text) → LiveOption m o → Live m (or_empty o)
or_empty-Live m none h = inl refl
or_empty-Live m (some t) h = inr h

explicit-LiveOption :
    (m : Nodes) (t : Text) → LiveOption m (if is_empty t then none else live m (some t))
explicit-LiveOption m [] = tt
explicit-LiveOption m (c ∷ t) = live-LiveOption m (some (c ∷ t))

resolve_removal_fallback-LiveOption :
    (m : Nodes) (n : Node) (fallback : Text)
    → Unique m
    → LiveOption m (resolve_removal_fallback m n fallback)
unfolding resolve_removal_fallback
resolve_removal_fallback-LiveOption m n fallback u =
    or_else-LiveOption m _ _ (explicit-LiveOption m fallback) (
      or_else-LiveOption m _ _ (live-LiveOption m (lookup up n.neighbors)) (
        or_else-LiveOption m _ _ (live-LiveOption m (lookup down n.neighbors)) (
          or_else-LiveOption m _ _ (live-LiveOption m (lookup left n.neighbors)) (
            or_else-LiveOption m _ _ (live-LiveOption m (lookup right n.neighbors))
              (head?-nodes_in_zone-LiveOption n.zone_id m u)))))

lookup-forget_value-none :
    (z id : Text) (m : List (Text × Text)) → lookup z m ≡ none → lookup z (forget_value id m) ≡ none
unfolding lookup forget_value
lookup-forget_value-none z id [] h = refl
lookup-forget_value-none z id ((y, i) ∷ m) h = ground (arith, lookup-forget_value-none z id m)

forget_value-Unique : (id : Text) (m : List (Text × Text)) → Unique m → Unique (forget_value id m)
unfolding forget_value
forget_value-Unique id [] u = tt
forget_value-Unique id ((y, i) ∷ m) u =
    ground (arith, forget_value-Unique id m u.1, lookup-forget_value-none y id m)

-- What is left of the memory is not the forgotten node, and stood there before.
lookup-forget_value :
    (z i id : Text) (m : List (Text × Text))
    → Unique m
    → lookup z (forget_value id m) ≡ some i
    → (i ≢ id) × (lookup z m ≡ some i)
unfolding lookup forget_value
lookup-forget_value z i id [] u h = cc
lookup-forget_value z i id ((y, j) ∷ m) u h =
    ground (arith, lookup-forget_value z i id m u.1, lookup-forget_value-none z id m)

retarget-Returns :
    (id t : Text) (m : Nodes) (s : List (Text × Text))
    → Live (remove id m) t
    → Returns m s
    → Returns (remove id m) (retarget id t s)
unfolding retarget
retarget-Returns id t m [] l r = tt
retarget-Returns id t m ((e, back) ∷ s) l r =
    ground (arith, retarget-Returns id t m s l r.1, Live-remove id back m)

module _ (c : Controller) (id t : Text) (n : Node) (v : WellFormed c)
    (was : lookup id c.nodes ≡ some n) (l : Live (remove id c.nodes) t) where
  abbrev pruned : Controller
  pruned = prune_zone_if_empty (record c { nodes = remove id c.nodes }) n.zone_id

  abbrev dropped : Controller
  dropped = record pruned {
    zone_last_focused = forget_value id pruned.zone_last_focused;
    modal_stack = retarget id t c.modal_stack;
  }

  removed-Covers : Covers (remove id c.nodes) pruned.zone_order
  removed-Covers =
      prune_zone-Covers (record c { nodes = remove id c.nodes }) n.zone_id
        (λ z e.
          v.consistent.covers z
          ∙ sym (has_zone-remove z id c.nodes v.consistent.nodes_unique (ground arith)))
        (λ _. v.consistent.covers n.zone_id ∙ has_zone_of_lookup id n c.nodes was)

  pruned-Unique : Unique pruned.zone_last_focused
  pruned-Unique =
      prune_zone-Unique (record c { nodes = remove id c.nodes }) n.zone_id
        v.consistent.memory_unique

  removed-Remembers : Remembers (remove id c.nodes) dropped.zone_last_focused
  removed-Remembers z i h =
      let old = lookup-forget_value z i id _ pruned-Unique h in
      let kept =
        prune_zone-Remembers (record c { nodes = remove id c.nodes }) n.zone_id c.nodes
          v.consistent.remembers z i old.1 in
      ground (arith, lookup-remove i id c.nodes)

  dropped-Consistent : Consistent dropped
  unfolding prune_zone_if_empty
  dropped-Consistent = record {
    nodes_unique = remove-Unique id c.nodes v.consistent.nodes_unique;
    memory_unique = forget_value-Unique id _ pruned-Unique;
    covers = removed-Covers;
    remembers = removed-Remembers;
    returns = retarget-Returns id t c.nodes c.modal_stack l v.consistent.returns;
  }

  drop_references-WellFormed : WellFormed (drop_references pruned id t)
  unfolding drop_references prune_zone_if_empty
  drop_references-WellFormed = elim (c.current_focus_id ≟ id) [
    | yes e ↦ rw (if_pos _ e) (set_current_focus-WellFormed dropped t dropped-Consistent l)
    | no e ↦ rw (if_neg _ e) (record {
      consistent = dropped-Consistent;
      focused = Live-remove id c.current_focus_id c.nodes e v.focused;
    })
  ]

pub remove_node-WellFormed :
    (c : Controller) (id fallback : Text) → WellFormed c → WellFormed (remove_node c id fallback)
unfolding remove_node
remove_node-WellFormed c id fallback v = elim (Option-cases (lookup id c.nodes)) [
  | inl e ↦ rw (e, remove_node) v
  | inr (n, e) ↦
      rw (e, remove_node)
        (drop_references-WellFormed c id _ n v e (
          or_empty-Live _ _ (
            resolve_removal_fallback-LiveOption _ n fallback
              (remove-Unique id c.nodes v.consistent.nodes_unique))))
]
