-- ===== src/Input/Reserved.antt =====
-- src/InputMapper.cpp: the reserved keys and the bindings under remapping.
use arkham_horror_linux.Common.{
  ite, Bool, true, false, none, some, List, [], ◌∷◌, ◌≡◌, ◌≢◌, ◌↔◌, refl, ◌∙◌, arith, ◌≟◌, lookup,
  insert, lookup-insert, lookup-remove, ◌⊎◌,
}
use arkham_horror_linux.Input.{
  SemanticCommand, secondary_action, open_menu, QtKey, key_escape, key_back, key_menu, PhysicalKey,
  plain, InputMapper, reserved_key, key_already_bound, command_key, qt_key_key, physical_key_key,
  modifiers_key, is_reserved, is_reserved_key, command_for, remap, unbind, reset_to_defaults,
  process_key, clear_held_keys, physical_key_discrete,
}

pub data Call : Type 0 where
  remaps : PhysicalKey → SemanticCommand → Call
  unbinds : PhysicalKey → Call
  resets clears : Call
  processes : PhysicalKey → Bool → Bool → Call

pub call : InputMapper → Call → InputMapper
call m (remaps p command) = (remap m p command).0
call m (unbinds p) = (unbind m p).0
call m resets = reset_to_defaults
call m clears = clear_held_keys m
call m (processes p is_press repeat) = (process_key m p is_press repeat).0

pub calls : InputMapper → List Call → InputMapper
unfolding call
calls m [] = m
calls m (x ∷ xs) = calls (call m x) xs

-- What the reserved keys do.
pub record Fixed (m : InputMapper) : Type 0 where
  pub escape_back_out : command_for m (plain key_escape) ≡ some secondary_action
  pub back_back_out : command_for m (plain key_back) ≡ some secondary_action
  pub menu_opens : command_for m (plain key_menu) ≡ some open_menu

reset_to_defaults-Fixed : Fixed reset_to_defaults
unfolding reset_to_defaults command_for lookup insert physical_key_discrete
reset_to_defaults-Fixed = record { escape_back_out = refl; back_back_out = refl; menu_opens = refl }

plain_reserved : (k : QtKey) → is_reserved k ≡ true → is_reserved_key (plain k) ≡ true
unfolding is_reserved_key
plain_reserved k h = ground arith

remap-other :
    (m : InputMapper) (p q : PhysicalKey) (command : SemanticCommand)
    → is_reserved_key q ≡ true
    → command_for (remap m p command).0 q ≡ command_for m q
unfolding remap command_for
remap-other m p q command h = ground (arith, lookup-insert q p command m.bindings)

unbind-other :
    (m : InputMapper) (p q : PhysicalKey)
    → is_reserved_key q ≡ true
    → command_for (unbind m p).0 q ≡ command_for m q
unfolding unbind command_for
unbind-other m p q h = ground (arith, lookup-remove q p m.bindings)

process_key-bindings :
    (m : InputMapper) (p : PhysicalKey) (is_press repeat : Bool)
    → (process_key m p is_press repeat).0.bindings ≡ m.bindings
unfolding process_key
process_key-bindings m p is_press repeat = ground arith

clear_held_keys-bindings : (m : InputMapper) → (clear_held_keys m).bindings ≡ m.bindings
unfolding clear_held_keys
clear_held_keys-bindings m = refl

Fixed-bindings : (m n : InputMapper) → n.bindings ≡ m.bindings → Fixed m → Fixed n
unfolding command_for
Fixed-bindings m n e f = record {
  escape_back_out = rw e f.escape_back_out;
  back_back_out = rw e f.back_back_out;
  menu_opens = rw e f.menu_opens;
}

call-Fixed : (m : InputMapper) (x : Call) → Fixed m → Fixed (call m x)
unfolding call is_reserved
call-Fixed m (remaps p command) f = record {
  escape_back_out = remap-other m p _ command (plain_reserved key_escape refl) ∙ f.escape_back_out;
  back_back_out = remap-other m p _ command (plain_reserved key_back refl) ∙ f.back_back_out;
  menu_opens = remap-other m p _ command (plain_reserved key_menu refl) ∙ f.menu_opens;
}
call-Fixed m (unbinds p) f = record {
  escape_back_out = unbind-other m p _ (plain_reserved key_escape refl) ∙ f.escape_back_out;
  back_back_out = unbind-other m p _ (plain_reserved key_back refl) ∙ f.back_back_out;
  menu_opens = unbind-other m p _ (plain_reserved key_menu refl) ∙ f.menu_opens;
}
call-Fixed m resets f = reset_to_defaults-Fixed
call-Fixed m clears f = Fixed-bindings m (clear_held_keys m) (clear_held_keys-bindings m) f
call-Fixed m (processes p is_press repeat) f =
    Fixed-bindings m _ (process_key-bindings m p is_press repeat) f

calls-Fixed : (m : InputMapper) (xs : List Call) → Fixed m → Fixed (calls m xs)
unfolding calls
calls-Fixed m [] f = f
calls-Fixed m (x ∷ xs) f = calls-Fixed (call m x) xs (call-Fixed m x f)

-- Whatever is remapped, unbound, reset or typed after construction, Escape and Back without
-- modifiers mean the secondary action, and Menu opens the menu.
pub calls-reset_to_defaults-Fixed : (xs : List Call) → Fixed (calls reset_to_defaults xs)
calls-reset_to_defaults-Fixed xs = calls-Fixed reset_to_defaults xs reset_to_defaults-Fixed

-- What a remap answers and changes.
pub record Remaps (m : InputMapper) (p : PhysicalKey) (command : SemanticCommand) : Type 0 where
  pub reserved_iff : ((remap m p command).1 ≡ some reserved_key) ↔ (is_reserved_key p ≡ true)
  pub bound_iff : ((remap m p command).1 ≡ some key_already_bound) ↔ (
      (is_reserved_key p ≡ false)
      × ((old : SemanticCommand) × (command_for m p ≡ some old) × (old ≢ command)))
  pub free_if :
      is_reserved_key p ≡ false
      → (command_for m p ≡ none) ⊎ (command_for m p ≡ some command)
      → (remap m p command).1 ≡ none
  pub failure : (remap m p command).1 ≢ none → (remap m p command).0 ≡ m
  pub success :
      (remap m p command).1 ≡ none
      → (q : PhysicalKey)
      → command_for (remap m p command).0 q ≡ ite (p ≟ q) (some command) (command_for m q)
  pub holds : (remap m p command).0.held_keys ≡ m.held_keys

-- A remap fails with `reserved_key` exactly on the reserved keys, and with `key_already_bound`
-- exactly on the other keys that are bound to a different command; a key that is not reserved and is
-- free or has the same command is not refused; a failure changes nothing; a success binds the key to the command and leaves every other key's
-- binding alone; the keys that are held stay so.
pub remap-Remaps :
    (m : InputMapper) (p : PhysicalKey) (command : SemanticCommand) → Remaps m p command
unfolding remap command_for
remap-Remaps m p command = record {
  reserved_iff = (λ h. ground arith, λ h. ground arith);
  bound_iff = (λ h. (ground arith, ground arith), λ h. ground (arith, h.1.1, h.1.2));
  free_if = λ h e. ground arith;
  failure = λ h. ground arith;
  success = λ h q. ground (arith, lookup-insert q p command m.bindings);
  holds = ground arith;
}
