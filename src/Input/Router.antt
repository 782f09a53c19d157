-- ===== src/Input/Router.antt =====
-- src/InputRouter.h and InputRouter.cpp. An object of Qt is a number; `QtFocus` is what Qt answers
-- about focus objects and input methods when it is asked. The mapper that the router refers to is
-- a field. The result of `eventFilter` is whether the event is consumed, with the signal
-- `commandDispatched`, if it is emitted; the base class's filter consumes nothing.
pub mod Consumes
pub mod Holds
pub mod Quiet
mod Examples
use arkham_horror_linux.Common.{
  ℕ, ite, Bool, true, false, not, ◌&&◌, ◌||◌, Option, none, some, ◌≟◌, nat_key, lookup,
  if◌then◌else◌, is_some,
}
use arkham_horror_linux.Input.{
  QtKey, PhysicalKey, Modifiers, InputMapper, DispatchedCommand, process_key, clear_held_keys,
  command_for, is_armed_key_held, is_key_held, qt_key_key, physical_key_key,
}

-- `QGuiApplication` and the focus objects: whether there is a gui application, the window's own
-- focus object, the application's, and the answer to `Qt::ImEnabled`.
pub record QtFocus : Type 0 where
  pub has_gui_application : Bool
  pub window_focus_object : ℕ → Option ℕ
  pub application_focus_object : Option ℕ
  pub input_method_enabled : ℕ → Bool

pub record InputRouter : Type 0 where
  pub mapper : InputMapper
  pub installed_target : Option ℕ
  pub destroying : Bool
  pub explicitly_suspended : Bool
  pub automatic_detection_enabled : Bool
  pub effective_suspended : Bool

abbrev first_object : Option ℕ → Option ℕ → Option ℕ
first_object none b = b
first_object (some a) b = some a

focused_object_accepts_text_entry : QtFocus → Option ℕ → Bool
focused_object_accepts_text_entry q none = false
focused_object_accepts_text_entry q (some target) =
    if not q.has_gui_application
    then false
    else elim (first_object (q.window_focus_object target) q.application_focus_object) [
      | none ↦ false
      | some o ↦ q.input_method_enabled o
    ]

abbrev pub clear_held : InputRouter → InputRouter
clear_held r = record r { mapper = clear_held_keys r.mapper }

pub uninstall : InputRouter → InputRouter
uninstall r = clear_held (record r { installed_target = none })

-- The destructor.
pub destroy : InputRouter → InputRouter
unfolding uninstall
destroy r = uninstall (record r { destroying = true })

-- `installed_target` is a `QPointer`: it is null once the object that it points to is destroyed.
-- No code of the router runs then, so what the mapper holds stays held.
pub object_destroyed : InputRouter → ℕ → InputRouter
object_destroyed r object = elim r.installed_target [
  | none ↦ r
  | some target ↦ ite (target ≟ object) (record r { installed_target = none }) r
]

-- A target, with whether it lives in the router's thread.
pub install : InputRouter → Option (ℕ × Bool) → InputRouter × Bool
unfolding uninstall
install r none = (r, false)
install r (some (target, same_thread)) =
    if not same_thread then (r, false) else elim r.installed_target [
      | none ↦ (record (uninstall r) { installed_target = some target }, true)
      | some old ↦
          ite (old ≟ target) (r, true)
            (record (uninstall r) { installed_target = some target }, true)
    ]

pub is_text_entry_suspended : QtFocus → InputRouter → Bool
unfolding focused_object_accepts_text_entry
is_text_entry_suspended q r =
    r.explicitly_suspended
    || (r.automatic_detection_enabled && focused_object_accepts_text_entry q r.installed_target)

abbrev same_bool : Bool → Bool → Bool
same_bool true b = b
same_bool false b = not b

pub refresh_text_entry_suspension : QtFocus → InputRouter → InputRouter
refresh_text_entry_suspension q r =
    if same_bool (is_text_entry_suspended q r) r.effective_suspended
    then r
    else clear_held (record r { effective_suspended = is_text_entry_suspended q r })

pub set_semantic_input_suspended : QtFocus → InputRouter → Bool → InputRouter
set_semantic_input_suspended q r suspended =
    refresh_text_entry_suspension q (record r { explicitly_suspended = suspended })

pub set_automatic_text_entry_detection_enabled : QtFocus → InputRouter → Bool → InputRouter
set_automatic_text_entry_detection_enabled q r enabled =
    refresh_text_entry_suspension q (record r { automatic_detection_enabled = enabled })

pub data QtEvent : Type 0 where
  focus_out window_deactivate application_deactivate other_event : QtEvent
  key_press key_release : PhysicalKey → Bool → QtEvent

abbrev Filtered : Type 0
Filtered = InputRouter × Bool × Option DispatchedCommand

-- `Qt::KeypadModifier` is taken off.
abbrev pub strip_keypad : PhysicalKey → PhysicalKey
strip_keypad p = record p { modifiers = record (p.modifiers) { keypad = false } }

is_owned_key : InputMapper → PhysicalKey → Bool
is_owned_key m p =
    is_armed_key_held m p.key || (not (is_key_held m p.key) && is_some (command_for m p))

pub dispatch_key : InputRouter → PhysicalKey → Bool → Bool → Filtered
unfolding is_owned_key
dispatch_key r p is_press repeat =
    let (m, dispatched) = process_key r.mapper p is_press repeat in
    elim dispatched [
      | none ↦ (record r { mapper = m }, is_owned_key r.mapper p, none)
      | some x ↦ (record r { mapper = m }, true, some x)
    ]

pub filter_key : QtFocus → InputRouter → PhysicalKey → Bool → Bool → Filtered
unfolding dispatch_key
filter_key q r p is_press repeat =
    let r' = refresh_text_entry_suspension q r in
    if r'.effective_suspended
    then (r', false, none)
    else dispatch_key r' (strip_keypad p) is_press repeat

pub filter_installed : QtFocus → InputRouter → QtEvent → Filtered
unfolding filter_key
filter_installed q r focus_out = (clear_held r, false, none)
filter_installed q r window_deactivate = (clear_held r, false, none)
filter_installed q r application_deactivate = (clear_held r, false, none)
filter_installed q r other_event = (r, false, none)
filter_installed q r (key_press p repeat) = filter_key q r p true repeat
filter_installed q r (key_release p repeat) = filter_key q r p false repeat

pub event_filter : QtFocus → InputRouter → ℕ → QtEvent → Filtered
unfolding filter_installed
event_filter q r watched e = if r.destroying then (r, false, none) else elim r.installed_target [
  | none ↦ (r, false, none)
  | some target ↦ ite (watched ≟ target) (filter_installed q r e) (r, false, none)
]
