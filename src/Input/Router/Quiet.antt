-- ===== src/Input/Router/Quiet.antt =====
-- src/InputRouter.cpp: the keys that are held when text is entered and when no target is installed.
use arkham_horror_linux.Common.{
  ℕ, ite, Bool, true, false, Option, none, some, List, [], ◌∷◌, ◌||◌, ◌≡◌, refl, arith, ◌≟◌,
  nat_key,
}
use arkham_horror_linux.Input.{PhysicalKey, clear_held_keys}
use arkham_horror_linux.Input.Router.Holds.{
  Quiet, clear_held-Quiet, refresh-Quiet, event_filter-Quiet,
}
use arkham_horror_linux.Input.Router.{
  QtFocus, InputRouter, QtEvent, focus_out, window_deactivate, application_deactivate, other_event,
  key_press, key_release, is_text_entry_suspended, refresh_text_entry_suspension, uninstall,
  install, destroy, object_destroyed, set_semantic_input_suspended,
  set_automatic_text_entry_detection_enabled, filter_key, filter_installed, event_filter,
}

pub data Call : Type 0 where
  installs : Option (ℕ × Bool) → Call
  uninstalls destroys : Call
  loses : ℕ → Call
  suspends detects : Bool → Call
  filters : ℕ → QtEvent → Call

-- A call or the destruction of an object, with what Qt answers about the focus at that moment.
pub call : InputRouter → QtFocus × Call → InputRouter
call r (q, installs target) = (install r target).0
call r (q, uninstalls) = uninstall r
call r (q, destroys) = destroy r
call r (q, loses object) = object_destroyed r object
call r (q, suspends b) = set_semantic_input_suspended q r b
call r (q, detects b) = set_automatic_text_entry_detection_enabled q r b
call r (q, filters watched e) = (event_filter q r watched e).0

pub calls : InputRouter → List (QtFocus × Call) → InputRouter
unfolding call
calls r [] = r
calls r (x ∷ xs) = calls (call r x) xs

is_target : InputRouter → ℕ → Bool
is_target r object = elim r.installed_target [
  | none ↦ false
  | some target ↦ ite (target ≟ object) true false
]

-- Whether the target was destroyed while it was installed, with no removal of the filter and no
-- installation on an object of the router's thread since.
unfoldable pub orphans : Bool → InputRouter → List (QtFocus × Call) → Bool
unfolding call is_target
orphans b r [] = b
orphans b r ((q, loses object) ∷ xs) =
    orphans (b || is_target r object) (call r (q, loses object)) xs
orphans b r ((q, uninstalls) ∷ xs) = orphans false (call r (q, uninstalls)) xs
orphans b r ((q, destroys) ∷ xs) = orphans false (call r (q, destroys)) xs
orphans b r ((q, installs (some (target, true))) ∷ xs) =
    orphans false (call r (q, installs (some (target, true)))) xs
orphans b r (x ∷ xs) = orphans b (call r x) xs

-- An installation that is refused changes nothing.
install_refused : (r : InputRouter) (t : ℕ) → (install r (some (t, false))).0 ≡ r
unfolding install
install_refused r t = refl

-- After an installation that is not refused a target is installed.
install-Quiet :
    (b : Bool) (r : InputRouter) (t : ℕ) → Quiet b r → Quiet false (install r (some (t, true))).0
unfolding install clear_held_keys
install-Quiet b r t v = record {
  while_suspended = ground (arith, v.while_suspended);
  while_uninstalled = λ _. ground arith;
}

object_destroyed-Quiet :
    (b : Bool) (r : InputRouter) (object : ℕ)
    → Quiet b r
    → Quiet (b || is_target r object) (object_destroyed r object)
unfolding object_destroyed is_target
object_destroyed-Quiet b r object v = record {
  while_suspended = ground (arith, v.while_suspended);
  while_uninstalled = ground (arith, v.while_uninstalled);
}

set_field-Quiet :
    (b : Bool) (r r' : InputRouter)
    → r'.mapper ≡ r.mapper
    → r'.installed_target ≡ r.installed_target
    → r'.effective_suspended ≡ r.effective_suspended
    → Quiet b r
    → Quiet b r'
set_field-Quiet b r r' m t e v = record {
  while_suspended = ground (arith, v.while_suspended, m, e);
  while_uninstalled = ground (arith, v.while_uninstalled, m, t);
}

-- A router that starts with no key held in a suspension or without a target keeps none held
-- whenever its text-entry suspension is in effect, through every sequence of installations,
-- removals, settings, events and destructions, of objects and of the router, whatever Qt answers
-- about the focus; and it keeps none held whenever no target is installed, unless the target was
-- destroyed while it was installed, with no removal of the filter and no installation on an object
-- of the router's thread since. `b` says whether that is so at the start, where holds without a
-- target are then allowed.
pub calls-Quiet :
    (b : Bool) (r : InputRouter) (xs : List (QtFocus × Call))
    → Quiet b r
    → Quiet (orphans b r xs) (calls r xs)
unfolding calls call orphans set_semantic_input_suspended set_automatic_text_entry_detection_enabled
    uninstall destroy install
calls-Quiet b r [] v = v
calls-Quiet b r ((q, installs none) ∷ xs) v = calls-Quiet b r xs v
calls-Quiet b r ((q, installs (some (t, true))) ∷ xs) v =
    calls-Quiet false _ xs (install-Quiet b r t v)
calls-Quiet b r ((q, installs (some (t, false))) ∷ xs) v =
    calls-Quiet b _ xs (rw (install_refused r t) v)
calls-Quiet b r ((q, uninstalls) ∷ xs) v =
    calls-Quiet false _ xs (clear_held-Quiet false (record r { installed_target = none }))
calls-Quiet b r ((q, destroys) ∷ xs) v =
    calls-Quiet false _ xs
      (clear_held-Quiet false (record r { destroying = true; installed_target = none }))
calls-Quiet b r ((q, loses object) ∷ xs) v =
    calls-Quiet (b || is_target r object) _ xs (object_destroyed-Quiet b r object v)
calls-Quiet b r ((q, suspends s) ∷ xs) v = calls-Quiet b _ xs (
    refresh-Quiet q b (record r { explicitly_suspended = s })
      (set_field-Quiet b r _ refl refl refl v))
calls-Quiet b r ((q, detects s) ∷ xs) v = calls-Quiet b _ xs (
    refresh-Quiet q b (record r { automatic_detection_enabled = s })
      (set_field-Quiet b r _ refl refl refl v))
calls-Quiet b r ((q, filters watched e) ∷ xs) v =
    calls-Quiet b _ xs (event_filter-Quiet q b r watched e v)

abbrev pub IsKeyEvent : QtEvent → Type 0
IsKeyEvent (key_press p repeat) = Unit
IsKeyEvent (key_release p repeat) = Unit
IsKeyEvent _ = ⊥

filter_key_suspended :
    (q : QtFocus) (r : InputRouter) (p : PhysicalKey) (is_press repeat : Bool)
    → (r.effective_suspended ≡ true → r.mapper.held_keys ≡ [])
    → is_text_entry_suspended q r ≡ true
    → ((filter_key q r p is_press repeat).1 ≡ false)
      × ((filter_key q r p is_press repeat).2 ≡ none)
      × ((filter_key q r p is_press repeat).0.mapper.held_keys ≡ [])
unfolding filter_key refresh_text_entry_suspension clear_held_keys
filter_key_suspended q r p is_press repeat v s = ground (arith, v)

filter_installed_suspended :
    (q : QtFocus) (r : InputRouter) (e : QtEvent)
    → IsKeyEvent e
    → (r.effective_suspended ≡ true → r.mapper.held_keys ≡ [])
    → is_text_entry_suspended q r ≡ true
    → ((filter_installed q r e).1 ≡ false)
      × ((filter_installed q r e).2 ≡ none)
      × ((filter_installed q r e).0.mapper.held_keys ≡ [])
unfolding filter_installed
filter_installed_suspended q r (key_press p repeat) k v s =
    filter_key_suspended q r p true repeat v s
filter_installed_suspended q r (key_release p repeat) k v s =
    filter_key_suspended q r p false repeat v s
filter_installed_suspended q r focus_out k v s = absurd k
filter_installed_suspended q r window_deactivate k v s = absurd k
filter_installed_suspended q r application_deactivate k v s = absurd k
filter_installed_suspended q r other_event k v s = absurd k

-- While text entry is suspended at the moment of a press or a release of a key, the event is neither
-- consumed nor dispatched, and no key is held after it, in a router that held none if the suspension
-- was in effect before.
pub event_filter_suspended :
    (q : QtFocus) (r : InputRouter) (watched : ℕ) (e : QtEvent)
    → IsKeyEvent e
    → (r.effective_suspended ≡ true → r.mapper.held_keys ≡ [])
    → is_text_entry_suspended q r ≡ true
    → r.installed_target ≡ some watched
    → r.destroying ≡ false
    → ((event_filter q r watched e).1 ≡ false)
      × ((event_filter q r watched e).2 ≡ none)
      × ((event_filter q r watched e).0.mapper.held_keys ≡ [])
unfolding event_filter
event_filter_suspended q r watched e k v s i d =
    let f = filter_installed_suspended q r e k v s in ground (arith, f)
