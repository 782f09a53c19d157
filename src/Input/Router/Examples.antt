-- ===== src/Input/Router/Examples.antt =====
-- A router of src/InputRouter.cpp with the default bindings and a target installed.
use arkham_horror_linux.Common.{true, false, none, some, List, [], ◌∷◌, ◌≡◌, refl, lookup}
use arkham_horror_linux.Input.{key_return, plain, reset_to_defaults}
use arkham_horror_linux.Input.Router.{
  QtFocus, InputRouter, key_press, key_release, dispatch_key, event_filter, is_text_entry_suspended,
}
use arkham_horror_linux.Input.Router.Consumes.{dispatch_key-consumes}
use arkham_horror_linux.Input.Router.Holds.{Quiet}
use arkham_horror_linux.Input.Router.Quiet.{
  Call, installs, uninstalls, loses, suspends, detects, filters, orphans, calls, calls-Quiet,
  event_filter_suspended,
}

abbrev router : InputRouter
router = record {
  mapper = reset_to_defaults;
  installed_target = some 1;
  destroying = false;
  explicitly_suspended = false;
  automatic_detection_enabled = true;
  effective_suspended = false;
}

-- The window's focus object 5 takes text.
abbrev text_focus : QtFocus
text_focus = record {
  has_gui_application = true;
  window_focus_object = λ _. some 5;
  application_focus_object = none;
  input_method_enabled = λ _. true;
}

router-Quiet : Quiet false router
unfolding reset_to_defaults
router-Quiet = record { while_suspended = λ _. refl; while_uninstalled = λ _ _. refl }

dispatch_key-consumes_example :
    (dispatch_key
      (dispatch_key router (plain key_return) true false).0
      (plain key_return)
      false
      false).1
    ≡ (dispatch_key router (plain key_return) true false).1
unfolding reset_to_defaults lookup
dispatch_key-consumes_example =
    dispatch_key-consumes router (dispatch_key router (plain key_return) true false).0
      (plain key_return) (plain key_return) false false refl refl refl

-- A key is held when the target is destroyed, before another one is installed and removed.
abbrev typing : List (QtFocus × Call)
typing =
    (text_focus, detects false)
    ∷ (text_focus, filters 1 (key_press (plain key_return) false))
    ∷ (text_focus, loses 1)
    ∷ (text_focus, installs (some (2, true)))
    ∷ (text_focus, suspends true)
    ∷ (text_focus, uninstalls)
    ∷ []

calls-Quiet_example : Quiet false (calls router typing)
unfolding orphans
calls-Quiet_example = calls-Quiet false router typing router-Quiet

event_filter_suspended_example :
    ((event_filter text_focus router 1 (key_release (plain key_return) false)).1 ≡ false)
    × ((event_filter text_focus router 1 (key_release (plain key_return) false)).2 ≡ none)
    × ((event_filter text_focus router 1 (key_release (plain key_return) false)).0.mapper.held_keys
        ≡ [])
unfolding is_text_entry_suspended reset_to_defaults
event_filter_suspended_example =
    event_filter_suspended text_focus router 1 (key_release (plain key_return) false) tt (λ _. refl)
      refl refl refl
