-- ===== src/Focus/Navigation/Snapshots.antt =====
-- `snapshot` and `restoreSnapshot` of src/FocusController.cpp.
use arkham_horror_linux.Common.{
  true, some, List, [], ◌∷◌, ◌≡◌, ◌≢◌, refl, ap, ◌∙◌, arith, Text, text_key, lookup, has,
  lookup-insert, insert-insert, Unique, All,
}
use arkham_horror_linux.Focus.{
  Nodes, Controller, Snapshot, set_current_focus, remember, zone_of, zone?,
}
use arkham_horror_linux.Focus.Invariant.{Remembers, Returns, WellFormed}
use arkham_horror_linux.Focus.Navigation.{
  snapshot, restore_stack, restore_memory, restore_target, restore_snapshot,
}
use arkham_horror_linux.Focus.Navigation.Modals.{
  set_current_focus-current, set_current_focus-modal_stack, return_target-Live,
}

remember-remember :
    (m : Nodes) (t : Text) (memory : List (Text × Text))
    → remember m t (remember m t memory) ≡ remember m t memory
unfolding remember
remember-remember m t memory = ground (arith, insert-insert (zone_of m t) t t memory)

-- The memory is that of the target whether or not the focus changes.
set_current_focus-memory :
    (c : Controller) (t : Text) (memory : List (Text × Text))
    → (set_current_focus
        (record c { zone_last_focused = remember c.nodes t memory })
        t).zone_last_focused
      ≡ remember c.nodes t memory
unfolding set_current_focus
set_current_focus-memory c t memory = ground (arith, remember-remember c.nodes t memory)

abbrev restored_stack : Nodes → Snapshot → List (Text × Text)
restored_stack m s = restore_stack m s.modal_stack

abbrev restored_target : Nodes → Snapshot → Text
restored_target m s = restore_target m s.focused_id (restored_stack m s)

restore_snapshot_lem :
    (c : Controller) (s : Snapshot)
    → ((restore_snapshot c s).current_focus_id ≡ restored_target c.nodes s)
      × ((restore_snapshot c s).modal_stack ≡ restored_stack c.nodes s)
      × ((restore_snapshot c s).zone_last_focused
          ≡ remember c.nodes
              (restored_target c.nodes s)
              (restore_memory c.nodes s.zone_last_focused))
unfolding restore_snapshot
restore_snapshot_lem c s = (
  set_current_focus-current _ _,
  set_current_focus-modal_stack _ _,
  set_current_focus-memory (record c { modal_stack = restored_stack c.nodes s })
      (restored_target c.nodes s) (restore_memory c.nodes s.zone_last_focused),
)

-- Restoring a snapshot gives the same focus, modal levels and zone memory in any two controllers
-- with the same nodes, whatever was focused, open or remembered before.
pub restore_snapshot_deterministic :
    (c c' : Controller) (s : Snapshot)
    → c.nodes ≡ c'.nodes
    → ((restore_snapshot c s).current_focus_id ≡ (restore_snapshot c' s).current_focus_id)
      × ((restore_snapshot c s).modal_stack ≡ (restore_snapshot c' s).modal_stack)
      × ((restore_snapshot c s).zone_last_focused ≡ (restore_snapshot c' s).zone_last_focused)
restore_snapshot_deterministic c c' s e =
    let a = restore_snapshot_lem c s in
    let b = restore_snapshot_lem c' s in (cc (a.0, b.0), cc (a.1, b.1), cc (a.2, b.2))

restore_stack_whole :
    (m : Nodes) (s : List (Text × Text))
    → All (λ e. has e.0 m ≡ true) s
    → Returns m s
    → restore_stack m s ≡ s
unfolding restore_stack
restore_stack_whole m [] h r = refl
restore_stack_whole m ((entry, back) ∷ s) h r =
    rw (h.0, return_target-Live m back r.0)
      (ap (◌∷◌ (entry, back)) (restore_stack_whole m s h.1 r.1))

restore_target_live :
    (m : Nodes) (focused : Text) (s : List (Text × Text))
    → focused ≢ []
    → has focused m ≡ true
    → restore_target m focused s ≡ focused
unfolding restore_target
restore_target_live m [] s h l = absurd (h refl)
restore_target_live m (x ∷ f) [] h l = ground arith
restore_target_live m (x ∷ f) ((entry, back) ∷ s) h l = ground arith

Remembers-tail :
    (m : Nodes) (z id : Text) (s : List (Text × Text))
    → Unique ((z, id) ∷ s)
    → Remembers m ((z, id) ∷ s)
    → Remembers m s
unfolding lookup
Remembers-tail m z id s u r y i h = ground (arith, r y i)

Remembers-head :
    (m : Nodes) (z id : Text) (s : List (Text × Text))
    → Remembers m ((z, id) ∷ s)
    → zone? id m ≡ some z
unfolding lookup
Remembers-head m z id s r = ground (arith, r z id)

lookup-restore_memory :
    (m : Nodes) (s : List (Text × Text)) (y : Text)
    → Unique s
    → Remembers m s
    → lookup y (restore_memory m s) ≡ lookup y s
unfolding restore_memory lookup
lookup-restore_memory m [] y u r = refl
lookup-restore_memory m ((z, id) ∷ s) y u r = ground (
  arith,
  Remembers-head m z id s r,
  lookup-restore_memory m s y u.1 (Remembers-tail m z id s u r),
  lookup-insert y z id (restore_memory m s),
)

lookup-remember_ne :
    (m : Nodes) (t z : Text) (memory : List (Text × Text))
    → zone_of m t ≢ z
    → lookup z (remember m t memory) ≡ lookup z memory
unfolding remember
lookup-remember_ne m t z memory ne = ground (arith, lookup-insert z (zone_of m t) t memory)

restore_snapshot_self :
    (c : Controller)
    → WellFormed c
    → c.current_focus_id ≢ []
    → has c.current_focus_id c.nodes ≡ true
    → All (λ e. has e.0 c.nodes ≡ true) c.modal_stack
    → ((restore_snapshot c (snapshot c)).current_focus_id ≡ c.current_focus_id)
      × ((restore_snapshot c (snapshot c)).modal_stack ≡ c.modal_stack)
      × ((z : Text)
          → zone_of c.nodes c.current_focus_id ≢ z
          → lookup z (restore_snapshot c (snapshot c)).zone_last_focused
            ≡ lookup z c.zone_last_focused)
unfolding snapshot
restore_snapshot_self c v ne h all =
    let a = restore_snapshot_lem c (snapshot c) in
    let t =
      restore_target_live c.nodes c.current_focus_id (restored_stack c.nodes (snapshot c)) ne h in
    (
      a.0 ∙ t,
      a.1 ∙ restore_stack_whole c.nodes c.modal_stack all v.consistent.returns,
      λ z other.
          rw (a.2, t)
            (lookup-remember_ne c.nodes c.current_focus_id z _ other
              ∙ lookup-restore_memory c.nodes c.zone_last_focused z v.consistent.memory_unique
                  v.consistent.remembers),
    )

-- The snapshot of a well-formed state with a focus, whose modal levels all have their entry nodes,
-- restores that state in any controller with the same nodes, whatever is focused, open or
-- remembered there: the focus, the modal levels, and what every zone but that of the focus
-- remembers.
pub restore_snapshot-snapshot :
    (c c' : Controller)
    → WellFormed c
    → c.current_focus_id ≢ []
    → has c.current_focus_id c.nodes ≡ true
    → All (λ e. has e.0 c.nodes ≡ true) c.modal_stack
    → c'.nodes ≡ c.nodes
    → ((restore_snapshot c' (snapshot c)).current_focus_id ≡ c.current_focus_id)
      × ((restore_snapshot c' (snapshot c)).modal_stack ≡ c.modal_stack)
      × ((z : Text)
          → zone_of c.nodes c.current_focus_id ≢ z
          → lookup z (restore_snapshot c' (snapshot c)).zone_last_focused
            ≡ lookup z c.zone_last_focused)
restore_snapshot-snapshot c c' v ne h all same =
    let (focus, stack, memory) = restore_snapshot_self c v ne h all in
    let (focuses, opens, remembers) = restore_snapshot_deterministic c' c (snapshot c) same in
    (focuses ∙ focus, opens ∙ stack, λ z other. ap (λ m. lookup z m) remembers ∙ memory z other)
