-- ===== src/Input/Router/Holds.antt =====
-- src/InputRouter.cpp: when no key is held, and the event filter.
use mathlib.Core.Bool.{false≢true}
use arkham_horror_linux.Common.{
  ℕ, ite, Bool, true, false, Option, none, [], ◌≡◌, ◌≢◌, refl, inl, inr, ◌∙◌, sym, arith, ◌≟◌,
  nat_key, Option-cases, Bool-cases,
}
use arkham_horror_linux.Input.{PhysicalKey, DispatchedCommand, clear_held_keys}
use arkham_horror_linux.Input.Router.{
  QtFocus, InputRouter, QtEvent, focus_out, window_deactivate, application_deactivate, other_event,
  key_press, key_release, is_text_entry_suspended, refresh_text_entry_suspension, clear_held,
  dispatch_key, filter_key, filter_installed, event_filter, same_bool, strip_keypad,
}

-- None is held in a suspension, and none without a target, unless the target was destroyed.
pub record Quiet (orphaned : Bool) (r : InputRouter) : Type 0 where
  pub while_suspended : r.effective_suspended ≡ true → r.mapper.held_keys ≡ []
  pub while_uninstalled : orphaned ≡ false → r.installed_target ≡ none → r.mapper.held_keys ≡ []

pub clear_held-Quiet : (b : Bool) (r : InputRouter) → Quiet b (clear_held r)
unfolding clear_held_keys
clear_held-Quiet b r = record { while_suspended = λ _. refl; while_uninstalled = λ _ _. refl }

pub refresh-Quiet :
    (q : QtFocus) (b : Bool) (r : InputRouter)
    → Quiet b r
    → Quiet b (refresh_text_entry_suspension q r)
unfolding refresh_text_entry_suspension
refresh-Quiet q b r v =
    elim (Bool-cases (same_bool (is_text_entry_suspended q r) r.effective_suspended)) [
      | inl e ↦ rw e v
      | inr e ↦
          rw e (clear_held-Quiet b (record r { effective_suspended = is_text_entry_suspended q r }))
    ]

refresh-target :
    (q : QtFocus) (r : InputRouter)
    → (refresh_text_entry_suspension q r).installed_target ≡ r.installed_target
unfolding refresh_text_entry_suspension
refresh-target q r = ground arith

dispatch_key-fields :
    (r : InputRouter) (p : PhysicalKey) (is_press repeat : Bool)
    → ((dispatch_key r p is_press repeat).0.effective_suspended ≡ r.effective_suspended)
      × ((dispatch_key r p is_press repeat).0.installed_target ≡ r.installed_target)
unfolding dispatch_key
dispatch_key-fields r p is_press repeat = (ground arith, ground arith)

filter_key-Quiet :
    (q : QtFocus) (b : Bool) (r : InputRouter) (p : PhysicalKey) (is_press repeat : Bool)
    → r.installed_target ≢ none
    → Quiet b r
    → Quiet b (filter_key q r p is_press repeat).0
unfolding filter_key
filter_key-Quiet q b r p is_press repeat i v =
    elim (Bool-cases (refresh_text_entry_suspension q r).effective_suspended) [
      | inl e ↦ simp (e, filter_key) (refresh-Quiet q b r v)
      | inr e ↦
          let f =
            dispatch_key-fields (refresh_text_entry_suspension q r) (strip_keypad p) is_press
              repeat in
          simp (e, filter_key)
            (record {
              while_suspended = λ h. absurd (false≢true (sym e ∙ sym f.0 ∙ h));
              while_uninstalled = λ _ h. absurd (i (sym (refresh-target q r) ∙ sym f.1 ∙ h));
            })
    ]

filter_installed-Quiet :
    (q : QtFocus) (b : Bool) (r : InputRouter) (e : QtEvent)
    → r.installed_target ≢ none
    → Quiet b r
    → Quiet b (filter_installed q r e).0
unfolding filter_installed
filter_installed-Quiet q b r focus_out i v = clear_held-Quiet b r
filter_installed-Quiet q b r window_deactivate i v = clear_held-Quiet b r
filter_installed-Quiet q b r application_deactivate i v = clear_held-Quiet b r
filter_installed-Quiet q b r other_event i v = v
filter_installed-Quiet q b r (key_press p repeat) i v = filter_key-Quiet q b r p true repeat i v
filter_installed-Quiet q b r (key_release p repeat) i v = filter_key-Quiet q b r p false repeat i v

choose-Quiet {ℓ} :
    {P : Type ℓ} (d : Dec P) (x : InputRouter × Bool × Option DispatchedCommand) (b : Bool)
    (r : InputRouter)
    → Quiet b x.0
    → Quiet b r
    → Quiet b (ite d x (r, false, none)).0
choose-Quiet (yes p) x b r u v = u
choose-Quiet (no p) x b r u v = v

pub event_filter-Quiet :
    (q : QtFocus) (b : Bool) (r : InputRouter) (watched : ℕ) (e : QtEvent)
    → Quiet b r
    → Quiet b (event_filter q r watched e).0
unfolding event_filter
event_filter-Quiet q b r watched e v = elim (Bool-cases r.destroying) [
  | inl d ↦ simp (d, event_filter) v
  | inr d ↦
      simp (d, event_filter)
        (elim (Option-cases r.installed_target) [
          | inl n ↦ simp n v
          | inr (t, s) ↦ simp s (
              choose-Quiet (watched ≟ t) (filter_installed q r e) b r
                (filter_installed-Quiet q b r e (λ n. ground arith) v) v)
        ])
]
