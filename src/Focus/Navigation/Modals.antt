-- ===== src/Focus/Navigation/Modals.antt =====
-- `pushModal` and `popModal` of src/FocusController.cpp.
use arkham_horror_linux.Common.{true, List, [], ◌∷◌, ◌≡◌, refl, ◌∙◌, arith, Text, text_key, has}
use arkham_horror_linux.Focus.{Nodes, Controller, set_current_focus}
use arkham_horror_linux.Focus.Invariant.{Live, WellFormed}
use arkham_horror_linux.Focus.Navigation.{push_modal, return_target, pop_to, pop_modal}

pub set_current_focus-current :
    (c : Controller) (t : Text) → (set_current_focus c t).current_focus_id ≡ t
unfolding set_current_focus
set_current_focus-current c t = ground arith

pub set_current_focus-modal_stack :
    (c : Controller) (t : Text) → (set_current_focus c t).modal_stack ≡ c.modal_stack
unfolding set_current_focus
set_current_focus-modal_stack c t = ground arith

set_current_focus-nodes : (c : Controller) (t : Text) → (set_current_focus c t).nodes ≡ c.nodes
unfolding set_current_focus
set_current_focus-nodes c t = ground arith

pub return_target-Live : (m : Nodes) (back : Text) → Live m back → return_target m back ≡ back
return_target-Live m [] l = refl
return_target-Live m (x ∷ back) l = ground arith

pop_to-cons :
    (c : Controller) (entry back : Text) (rest : List (Text × Text))
    → Live c.nodes back
    → ((pop_to c ((entry, back) ∷ rest)).1 ≡ true)
      × ((pop_to c ((entry, back) ∷ rest)).0.current_focus_id ≡ back)
      × ((pop_to c ((entry, back) ∷ rest)).0.modal_stack ≡ rest)
      × ((pop_to c ((entry, back) ∷ rest)).0.nodes ≡ c.nodes)
unfolding pop_to
pop_to-cons c entry back rest l = rw (return_target-Live c.nodes back l) (
  refl,
  set_current_focus-current _ back,
  set_current_focus-modal_stack _ back,
  set_current_focus-nodes _ back,
)

-- In a well-formed state with an open modal level, closing it succeeds, gives the focus to the
-- recorded target exactly (none, if none was recorded), and drops that level alone.
pub pop_modal-target :
    (c : Controller) (entry back : Text) (rest : List (Text × Text))
    → WellFormed c
    → c.modal_stack ≡ (entry, back) ∷ rest
    → ((pop_modal c).1 ≡ true)
      × ((pop_modal c).0.current_focus_id ≡ back)
      × ((pop_modal c).0.modal_stack ≡ rest)
      × ((pop_modal c).0.nodes ≡ c.nodes)
unfolding pop_modal
pop_modal-target c entry back rest v e =
    rw e (pop_to-cons c entry back rest ((rw e at v.consistent.returns).0))

-- Opening a modal level at a registered node and closing it again gives back the focus, the open
-- levels and the graph of any well-formed state.
pub pop_modal-push_modal :
    (c : Controller) (entry : Text)
    → WellFormed c
    → has entry c.nodes ≡ true
    → ((pop_modal (push_modal c entry).0).1 ≡ true)
      × ((pop_modal (push_modal c entry).0).0.current_focus_id ≡ c.current_focus_id)
      × ((pop_modal (push_modal c entry).0).0.modal_stack ≡ c.modal_stack)
      × ((pop_modal (push_modal c entry).0).0.nodes ≡ c.nodes)
unfolding push_modal pop_modal
pop_modal-push_modal c entry v h =
    let opened : Controller = record c {
      modal_stack = (entry, c.current_focus_id) ∷ c.modal_stack;
    } in
    let r =
      pop_to-cons (set_current_focus opened entry) entry c.current_focus_id c.modal_stack
        (rw (set_current_focus-nodes opened entry) v.focused) in
    rw (h, set_current_focus-modal_stack opened entry)
      (r.0, r.1, r.2, r.3 ∙ set_current_focus-nodes opened entry)
