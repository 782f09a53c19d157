-- ===== src/Focus/Registry/Forgets.antt =====
-- `removeNode` of src/FocusController.cpp leaves no reference to the node.
use arkham_horror_linux.Common.{
  ite, none, some, List, [], ◌∷◌, ◌≡◌, ◌≢◌, sym, ◌∙◌, inl, inr, arith, Text, ◌≟◌, text_key, lookup,
  lookup-remove, All, Option-cases,
}
use arkham_horror_linux.Focus.{Nodes, Controller, set_current_focus, prune_zone_if_empty}
use arkham_horror_linux.Focus.Invariant.{Live, Returns, WellFormed}
use arkham_horror_linux.Focus.Registry.{remove_node, drop_references}
use arkham_horror_linux.Focus.Registry.Removal.{remove_node-WellFormed}

set_current_focus_graph : (c : Controller) (t : Text) → (set_current_focus c t).nodes ≡ c.nodes
unfolding set_current_focus
set_current_focus_graph c t = ground arith

drop_references_graph : (c : Controller) (id t : Text) → (drop_references c id t).nodes ≡ c.nodes
unfolding drop_references set_current_focus
drop_references_graph c id t = ground arith

lookup-remove_node :
    (c : Controller) (id fallback j : Text)
    → lookup j (remove_node c id fallback).nodes ≡ ite (id ≟ j) none (lookup j c.nodes)
unfolding remove_node prune_zone_if_empty
lookup-remove_node c id fallback j = elim (Option-cases (lookup id c.nodes)) [
  | inl e ↦ rw (e, remove_node) (ground (arith, e))
  | inr (n, e) ↦ rw (e, remove_node, drop_references_graph _ id _) (lookup-remove j id c.nodes)
]

-- No part of the state refers to the node.
pub record Forgotten (c : Controller) (id : Text) : Type 0 where
  pub unregistered : lookup id c.nodes ≡ none
  pub unfocused : c.current_focus_id ≢ id
  pub unremembered : (z : Text) → lookup z c.zone_last_focused ≢ some id
  pub unreturned : All (λ (e : Text × Text). e.1 ≢ id) c.modal_stack

Live-other : (m : Nodes) (t id : Text) → id ≢ [] → lookup id m ≡ none → Live m t → t ≢ id
Live-other m t id ne gone (inl e) = λ h. ne (sym h ∙ e)
Live-other m t id ne gone (inr e) = λ h. ground (arith, h, e, gone)

Returns-other :
    (m : Nodes) (s : List (Text × Text)) (id : Text)
    → id ≢ []
    → lookup id m ≡ none
    → Returns m s
    → All (λ (e : Text × Text). e.1 ≢ id) s
Returns-other m [] id ne gone r = tt
Returns-other m ((entry, back) ∷ s) id ne gone r =
    (Live-other m back id ne gone r.0, Returns-other m s id ne gone r.1)

-- After the removal of a node with a non-empty id from a well-formed state, the node is neither
-- registered nor focused, no zone remembers it, and no modal level returns to it; every other node
-- is registered as it was.
pub remove_node-Forgotten :
    (c : Controller) (id fallback : Text)
    → WellFormed c
    → id ≢ []
    → Forgotten (remove_node c id fallback) id
      × ((j : Text) → id ≢ j → lookup j (remove_node c id fallback).nodes ≡ lookup j c.nodes)
remove_node-Forgotten c id fallback v ne =
    let w = remove_node-WellFormed c id fallback v in
    let g = remove_node c id fallback in
    let gone : lookup id g.nodes ≡ none = ground (arith, lookup-remove_node c id fallback id) in
    (
      record {
        unregistered = gone;
        unfocused = Live-other g.nodes g.current_focus_id id ne gone w.focused;
        unremembered = λ z h. ground (arith, w.consistent.remembers z id h, gone);
        unreturned = Returns-other g.nodes g.modal_stack id ne gone w.consistent.returns;
      },
      λ j other. ground (arith, lookup-remove_node c id fallback j, other),
    )
