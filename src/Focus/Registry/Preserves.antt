-- ===== src/Focus/Registry/Preserves.antt =====
-- Registration and removal keep the invariant of the focus graph.
use arkham_horror_linux.Common.{
  ℕ, true, some, ◌≡◌, ◌≢◌, refl, sym, ◌∙◌, inl, inr, arith, Text, ◌≟◌, text_key, lookup, has,
  lookup-remove, lookup-insert, Unique, remove-Unique, insert-Unique, Option-cases, Bool-cases, not,
  ◌||◌,
}
use mathlib.Core.Logic.{if_pos, if_neg}
use arkham_horror_linux.Focus.{
  Node, NodeSpec, Controller, contains, zone?, has_zone, prune_zone_if_empty,
}
use arkham_horror_linux.Focus.Invariant.{
  Remembers, Covers, WellFormed, contains-concat, has_zone-insert, has_zone-insert_self,
  has_zone_of_lookup, Remembers-insert_node, Remembers-insert, prune_zone-Covers,
  prune_zone-Remembers, prune_zone-Unique, Live-insert, Returns-insert,
  set_current_focus-WellFormed,
}
use arkham_horror_linux.Focus.Registry.{
  admit, forget, refocus_zone, moved, register_node, entered, set_initial_focus, is_modal_active,
}

-- The moved node, if it has the focus, is what its new zone remembers.
refocus_zone-WellFormed :
    (c : Controller) (z id : Text)
    → zone? id c.nodes ≡ some z
    → WellFormed c
    → WellFormed (refocus_zone c z id)
unfolding refocus_zone
refocus_zone-WellFormed c z id e v = elim (c.current_focus_id ≟ id) [
  | yes p ↦ rw (if_pos _ p) (record {
    consistent = record {
      nodes_unique = v.consistent.nodes_unique;
      memory_unique = insert-Unique z id c.zone_last_focused v.consistent.memory_unique;
      covers = v.consistent.covers;
      remembers = Remembers-insert c.nodes z id c.zone_last_focused e v.consistent.remembers;
      returns = v.consistent.returns;
    };
    focused = v.focused;
  })
  | no p ↦ rw (if_neg _ p) v
]

module _ (c : Controller) (s : NodeSpec) (o n : ℕ) (v : WellFormed c) where
  admit-covers :
      (z : Text)
      → zone? s.id c.nodes ≢ some z
      → contains z (admit c s o n).zone_order ≡ has_zone z (admit c s o n).nodes
  unfolding admit
  admit-covers z h = rw (has_zone-insert z s.id _ c.nodes v.consistent.nodes_unique h) (
      ground (
        arith,
        v.consistent.covers z,
        v.consistent.covers s.zone_id,
        contains-concat z s.zone_id c.zone_order,
      ))

  admit-covers_self :
      contains s.zone_id (admit c s o n).zone_order ≡ has_zone s.zone_id (admit c s o n).nodes
  unfolding admit
  admit-covers_self = ground (
    arith,
    has_zone-insert_self s.zone_id s.id (entered s o) c.nodes refl,
    contains-concat s.zone_id s.zone_id c.zone_order,
  )

  admit-keeps_zone :
      (z : Text) → contains z c.zone_order ≡ true → contains z (admit c s o n).zone_order ≡ true
  unfolding admit
  admit-keeps_zone z h = ground (arith, contains-concat z s.zone_id c.zone_order)

  -- A registration in the zone where the node stood, or a first one.
  admit-WellFormed :
      ((z : Text) → zone? s.id c.nodes ≡ some z → z ≡ s.zone_id) → WellFormed (admit c s o n)
  unfolding admit
  admit-WellFormed same = record {
    consistent = record {
      nodes_unique = insert-Unique s.id _ c.nodes v.consistent.nodes_unique;
      memory_unique = v.consistent.memory_unique;
      covers = λ z. elim (z ≟ s.zone_id) [
        | yes e ↦ rw e admit-covers_self
        | no e ↦ admit-covers z (λ h. e (same z h))
      ];
      remembers =
          Remembers-insert_node s.id _ c.nodes c.zone_last_focused
            (λ z h. same z (v.consistent.remembers z s.id h))
            (λ z i _ h. v.consistent.remembers z i h);
      returns = Returns-insert s.id _ c.nodes c.modal_stack v.consistent.returns;
    };
    focused = Live-insert s.id c.current_focus_id _ c.nodes v.focused;
  }

  -- A node that moves to another zone.
  module _ (old : Node) (was : lookup s.id c.nodes ≡ some old)
      (apart : old.zone_id ≢ s.zone_id) where
    was_in : (z : Text) → zone? s.id c.nodes ≡ some z → old.zone_id ≡ z
    was_in z h = ground arith

    forget-Remembers :
        Remembers (admit c s o n).nodes (forget (admit c s o n) old.zone_id s.id).zone_last_focused
    unfolding admit forget
    forget-Remembers =
        Remembers-insert_node s.id _ c.nodes _
          (λ z h. ground (
            arith,
            v.consistent.remembers z s.id,
            was_in z,
            lookup-remove z old.zone_id c.zone_last_focused,
          ))
          (λ z i _ h.
            ground
              (arith, v.consistent.remembers z i, lookup-remove z old.zone_id c.zone_last_focused))

    entered_zone : zone? s.id (admit c s o n).nodes ≡ some s.zone_id
    unfolding admit
    entered_zone = ground (arith, lookup-insert s.id s.id (entered s o) c.nodes)

    forget-Unique : Unique (forget (admit c s o n) old.zone_id s.id).zone_last_focused
    unfolding admit forget
    forget-Unique =
        ground (arith, v.consistent.memory_unique, remove-Unique old.zone_id c.zone_last_focused)

    -- Only the zone that the node left may have become empty.
    moved-Covers :
        Covers
          (admit c s o n).nodes
          (prune_zone_if_empty (forget (admit c s o n) old.zone_id s.id) old.zone_id).zone_order
    unfolding forget
    moved-Covers =
        prune_zone-Covers (forget (admit c s o n) old.zone_id s.id) old.zone_id
          (λ z e. elim (z ≟ s.zone_id) [
            | yes same ↦ rw same admit-covers_self
            | no other ↦ admit-covers z (λ h. e (sym (was_in z h)))
          ])
          (λ _.
            admit-keeps_zone old.zone_id
              (v.consistent.covers old.zone_id ∙ has_zone_of_lookup s.id old c.nodes was))

    pruned-WellFormed :
        WellFormed (prune_zone_if_empty (forget (admit c s o n) old.zone_id s.id) old.zone_id)
    unfolding forget prune_zone_if_empty admit
    pruned-WellFormed = record {
      consistent = record {
        nodes_unique = insert-Unique s.id _ c.nodes v.consistent.nodes_unique;
        memory_unique =
            prune_zone-Unique (forget (admit c s o n) old.zone_id s.id) old.zone_id forget-Unique;
        covers = moved-Covers;
        remembers =
            prune_zone-Remembers (forget (admit c s o n) old.zone_id s.id) old.zone_id _
              forget-Remembers;
        returns = Returns-insert s.id _ c.nodes c.modal_stack v.consistent.returns;
      };
      focused = Live-insert s.id c.current_focus_id _ c.nodes v.focused;
    }

    moved-WellFormed : WellFormed (moved (admit c s o n) s old.zone_id)
    unfolding moved forget prune_zone_if_empty
    moved-WellFormed = rw (if_neg _ apart) (
        refocus_zone-WellFormed
          (prune_zone_if_empty (forget (admit c s o n) old.zone_id s.id) old.zone_id) s.zone_id s.id
          entered_zone pruned-WellFormed)

moved_same :
    (c : Controller) (s : NodeSpec) (previous : Text)
    → previous ≡ s.zone_id
    → moved c s previous ≡ c
unfolding moved
moved_same c s previous e = rw (if_pos _ e)

pub register_node-WellFormed :
    (c : Controller) (s : NodeSpec) → WellFormed c → WellFormed (register_node c s)
unfolding register_node
register_node-WellFormed c s v = elim (Option-cases (lookup s.id c.nodes)) [
  | inl e ↦ rw (e, register_node) (admit-WellFormed c s _ _ v (λ z h. ground arith))
  | inr (old, e) ↦
      rw (e, register_node)
        (elim (old.zone_id ≟ s.zone_id) [
          | yes same ↦
              rw (moved_same _ s old.zone_id same)
                (admit-WellFormed c s _ _ v (λ z h. ground arith))
          | no apart ↦ moved-WellFormed c s _ _ v old e apart
        ])
]

pub set_initial_focus-WellFormed :
    (c : Controller) (id : Text) → WellFormed c → WellFormed (set_initial_focus c id).0
unfolding set_initial_focus
set_initial_focus-WellFormed c id v =
    elim (Bool-cases (is_modal_active c || not (has id c.nodes))) [
      | inl e ↦ rw e v
      | inr e ↦ rw e (set_current_focus-WellFormed c id v.consistent (inr (ground arith)))
    ]
