-- ===== src/Input.antt =====
-- src/SemanticCommand.h, src/InputMapper.h and InputMapper.cpp: the bindings of physical keys and
-- the holds. A `Qt::Key` is one of the keys that the source names, or another by its number; the
-- modifiers are the flags of `Qt::KeyboardModifiers`.
pub mod Reserved
pub mod Holds
pub mod Router
mod Examples
use arkham_horror_linux.Common.{
  ℕ, ite, Bool, true, false, Option, none, some, List, [], ◌∷◌, Key, ◌≟◌, lookup, has, insert,
  remove, if◌then◌else◌, ◌||◌, is_some, ℕ_discrete,
}

pub data SemanticCommand : Type 0 where
  focus_up focus_down focus_left focus_right : SemanticCommand
  primary_action secondary_action inspect : SemanticCommand
  open_hand open_prompt open_investigator open_log open_menu : SemanticCommand
  cycle_next_player cycle_previous_player cycle_next_zone cycle_previous_zone : SemanticCommand
  jump_to_prompt : SemanticCommand
  camera_zoom_in camera_zoom_out camera_rotate_left camera_rotate_right : SemanticCommand
  camera_reset multi_select_confirm multi_select_cancel undo toggle_arrange_mode : SemanticCommand

pub data QtKey : Type 0 where
  key_escape key_back key_menu key_up key_down key_left key_right : QtKey
  key_return key_enter key_space key_page_up key_page_down : QtKey
  key_equal key_minus key_bracket_left key_bracket_right key_zero : QtKey
  -- A letter, by its place in the alphabet's upper case code.
  key_letter : ℕ → QtKey
  key_other : ℕ → QtKey

pub record Modifiers : Type 0 where
  pub shift : Bool
  pub control : Bool
  pub alt : Bool
  pub meta : Bool
  pub keypad : Bool
  pub group_switch : Bool

pub record PhysicalKey : Type 0 where
  pub key : QtKey
  pub modifiers : Modifiers

unfoldable pub command_discrete : Discrete SemanticCommand
command_discrete = hlevel

unfoldable pub qt_key_discrete : Discrete QtKey
unfolding ℕ_discrete
qt_key_discrete = hlevel ℕ_discrete

unfoldable pub modifiers_discrete : Discrete Modifiers
modifiers_discrete = hlevel

unfoldable pub physical_key_discrete : Discrete PhysicalKey
unfolding qt_key_discrete modifiers_discrete
physical_key_discrete = hlevel (qt_key_discrete, modifiers_discrete)

instance abbrev pub command_key : Key SemanticCommand
command_key = record { dec = command_discrete }

instance abbrev pub qt_key_key : Key QtKey
qt_key_key = record { dec = qt_key_discrete }

instance abbrev pub modifiers_key : Key Modifiers
modifiers_key = record { dec = modifiers_discrete }

instance abbrev pub physical_key_key : Key PhysicalKey
physical_key_key = record { dec = physical_key_discrete }

pub data CommandPhase : Type 0 where
  pressed repeated released : CommandPhase

pub record DispatchedCommand : Type 0 where
  pub command : SemanticCommand
  pub phase : CommandPhase

pub data RemapError : Type 0 where
  reserved_key key_already_bound : RemapError

abbrev no_modifiers : Modifiers
no_modifiers = record {
  shift = false;
  control = false;
  alt = false;
  meta = false;
  keypad = false;
  group_switch = false;
}

abbrev pub plain : QtKey → PhysicalKey
plain k = record { key = k; modifiers = no_modifiers }

abbrev Bindings : Type 0
Bindings = List (PhysicalKey × SemanticCommand)

-- `held_keys` has an entry for each key that is down: the command armed at its press, if any.
pub record InputMapper : Type 0 where
  pub bindings : Bindings
  pub held_keys : List (QtKey × Option SemanticCommand)

pub is_reserved : QtKey → Bool
is_reserved key_escape = true
is_reserved key_back = true
is_reserved key_menu = true
is_reserved _ = false

pub is_reserved_key : PhysicalKey → Bool
unfolding is_reserved
is_reserved_key p = ite (p.modifiers ≟ no_modifiers) (is_reserved p.key) false

pub command_for : InputMapper → PhysicalKey → Option SemanticCommand
command_for m p = lookup p m.bindings

abbrev bind : InputMapper → PhysicalKey → SemanticCommand → InputMapper
bind m p command = record m { bindings = insert p command m.bindings }

-- The mapper, and the error if there is one.
pub remap : InputMapper → PhysicalKey → SemanticCommand → InputMapper × Option RemapError
remap m p command =
    if is_reserved_key p then (m, some reserved_key) else elim (lookup p m.bindings) [
      | none ↦ (bind m p command, none)
      | some old ↦ ite (old ≟ command) (bind m p command, none) (m, some key_already_bound)
    ]

pub unbind : InputMapper → PhysicalKey → InputMapper × Bool
unbind m p =
    if is_reserved_key p
    then (m, false)
    else (record m { bindings = remove p m.bindings }, has p m.bindings)

-- The calls of `bind` in `resetToDefaults`, in their order.
abbrev default_bindings : Bindings
default_bindings =
    (plain key_up, focus_up)
    ∷ (plain (key_letter b'W'), focus_up)
    ∷ (plain key_down, focus_down)
    ∷ (plain (key_letter b'S'), focus_down)
    ∷ (plain key_left, focus_left)
    ∷ (plain (key_letter b'A'), focus_left)
    ∷ (plain key_right, focus_right)
    ∷ (plain (key_letter b'D'), focus_right)
    ∷ (plain key_return, primary_action)
    ∷ (plain key_enter, primary_action)
    ∷ (plain key_space, primary_action)
    ∷ (plain key_escape, secondary_action)
    ∷ (plain key_back, secondary_action)
    ∷ (plain key_menu, open_menu)
    ∷ (plain (key_letter b'X'), inspect)
    ∷ (plain (key_letter b'H'), open_hand)
    ∷ (plain (key_letter b'P'), open_prompt)
    ∷ (plain (key_letter b'I'), open_investigator)
    ∷ (plain (key_letter b'L'), open_log)
    ∷ (plain (key_letter b'Q'), cycle_previous_player)
    ∷ (plain (key_letter b'E'), cycle_next_player)
    ∷ (plain key_page_up, cycle_previous_zone)
    ∷ (plain key_page_down, cycle_next_zone)
    ∷ (plain (key_letter b'J'), jump_to_prompt)
    ∷ (plain key_equal, camera_zoom_in)
    ∷ (plain key_minus, camera_zoom_out)
    ∷ (plain key_bracket_left, camera_rotate_left)
    ∷ (plain key_bracket_right, camera_rotate_right)
    ∷ (plain key_zero, camera_reset)
    ∷ (plain (key_letter b'Y'), multi_select_confirm)
    ∷ (plain (key_letter b'C'), multi_select_cancel)
    ∷ (record { key = key_letter b'Z'; modifiers = record no_modifiers { control = true } }, undo)
    ∷ (plain (key_letter b'R'), toggle_arrange_mode)
    ∷ []

bind_all : Bindings → Bindings → Bindings
bind_all m [] = m
bind_all m ((p, command) ∷ l) = bind_all (insert p command m) l

pub reset_to_defaults : InputMapper
unfolding bind_all
reset_to_defaults = record { bindings = bind_all [] default_bindings; held_keys = [] }

-- A press, by whether it repeats and by what the key holds.
pub press :
    InputMapper
    → PhysicalKey
    → Bool
    → Option (Option SemanticCommand)
    → InputMapper × Option DispatchedCommand
press m p true (some (some command)) = (m, some (record { command = command; phase = repeated }))
press m p true held = (m, none)
press m p false (some armed) = (m, none)
press m p false none = (
  record m { held_keys = insert p.key (lookup p m.bindings) m.held_keys },
  elim (lookup p m.bindings) [
    | none ↦ none
    | some command ↦ some (record { command = command; phase = pressed })
  ],
)

pub release :
    InputMapper → QtKey → Option (Option SemanticCommand) → InputMapper × Option DispatchedCommand
release m k none = (m, none)
release m k (some armed) = (
  record m { held_keys = remove k m.held_keys },
  elim armed [ none ↦ none | some command ↦ some (record { command = command; phase = released }) ],
)

pub process_key : InputMapper → PhysicalKey → Bool → Bool → InputMapper × Option DispatchedCommand
unfolding press release
process_key m p is_press is_auto_repeat = elim is_press [
  | true ↦ press m p is_auto_repeat (lookup p.key m.held_keys)
  | false ↦ release m p.key (lookup p.key m.held_keys)
]

pub clear_held_keys : InputMapper → InputMapper
clear_held_keys m = record m { held_keys = [] }

-- The command that a key in hand is armed with.
abbrev pub armed : List (QtKey × Option SemanticCommand) → QtKey → Option SemanticCommand
armed held k = elim (lookup k held) [ none ↦ none | some command ↦ command ]

pub is_armed_key_held : InputMapper → QtKey → Bool
is_armed_key_held m k = is_some (armed m.held_keys k)

pub is_key_held : InputMapper → QtKey → Bool
is_key_held m k = has k m.held_keys
