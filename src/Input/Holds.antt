-- ===== src/Input/Holds.antt =====
-- src/InputMapper.cpp: the phases that `processKey` dispatches for one physical hold agree.
use arkham_horror_linux.Common.{
  ite, Bool, true, false, Option, none, some, List, [], ◌∷◌, ◌≡◌, refl, arith, ◌≟◌, lookup,
  lookup-insert, lookup-remove, inl, inr, Option-cases,
}
use arkham_horror_linux.Input.{
  SemanticCommand, QtKey, PhysicalKey, InputMapper, DispatchedCommand, CommandPhase, pressed,
  repeated, released, command_key, qt_key_key, physical_key_key, armed, process_key, press, release,
  clear_held_keys, remap, unbind, reset_to_defaults,
}

-- An observer's view of the dispatched phases, key by key: which command is down on each key.
abbrev Down : Type 0
Down = QtKey → Option SemanticCommand

abbrev put : QtKey → Option SemanticCommand → Down → Down
put k o d j = ite (k ≟ j) o (d j)

-- The dispatches that the observer accepts: a press of a key that is not down, and the repeats
-- and the release of the command that is down.
pub data Accepts (d : Down) (k : QtKey) : DispatchedCommand → Type 0 where
  presses :
      (c : SemanticCommand) → d k ≡ none → Accepts d k (record { command = c; phase = pressed })
  repeats :
      (c : SemanticCommand) → d k ≡ some c → Accepts d k (record { command = c; phase = repeated })
  releases :
      (c : SemanticCommand) → d k ≡ some c → Accepts d k (record { command = c; phase = released })

abbrev follow_phase : CommandPhase → SemanticCommand → QtKey → Down → Down
follow_phase pressed c k d = put k (some c) d
follow_phase repeated c k d = d
follow_phase released c k d = put k none d

pub data Event : Type 0 where
  key_event : PhysicalKey → Bool → Bool → Event
  remap_event : PhysicalKey → SemanticCommand → Event
  unbind_event : PhysicalKey → Event
  clear_event reset_event : Event

handle : InputMapper → Event → InputMapper × Option DispatchedCommand
handle m (key_event p is_press repeat) = process_key m p is_press repeat
handle m (remap_event p c) = ((remap m p c).0, none)
handle m (unbind_event p) = ((unbind m p).0, none)
handle m clear_event = (clear_held_keys m, none)
handle m reset_event = (reset_to_defaults, none)

-- What the observer of one event sees: a dispatch is followed, and the end of all holds is known.
view : Down → Event → Option DispatchedCommand → Down
view d (key_event p _ _) none = d
view d (key_event p _ _) (some x) = follow_phase x.phase x.command p.key d
view d clear_event o = λ _. none
view d reset_event o = λ _. none
view d (remap_event p c) o = d
view d (unbind_event p) o = d

AcceptsEvent : Down → Event → Option DispatchedCommand → Type 0
AcceptsEvent d (key_event p _ _) (some x) = Accepts d p.key x
AcceptsEvent d _ none = Unit
AcceptsEvent d _ (some x) = ⊥

pub AcceptsAll : Down → InputMapper → List Event → Type 0
unfolding handle view AcceptsEvent
AcceptsAll d m [] = Unit
AcceptsAll d m (e ∷ es) =
    AcceptsEvent d e (handle m e).1 × AcceptsAll (view d e (handle m e).1) (handle m e).0 es

abbrev Agrees : Down → InputMapper → Type 0
Agrees d m = (k : QtKey) → d k ≡ armed m.held_keys k

module _ (d : Down) (m : InputMapper) (p : PhysicalKey) (a : Agrees d m) where
  press-accepts :
      (repeat : Bool) (held : Option (Option SemanticCommand))
      → lookup p.key m.held_keys ≡ held
      → AcceptsEvent d (key_event p true repeat) (press m p repeat held).1
  unfolding AcceptsEvent press
  press-accepts true (some (some c)) e = repeats c (ground (arith, a p.key))
  press-accepts true (some none) e = tt
  press-accepts true none e = tt
  press-accepts false (some armed) e = tt
  press-accepts false none e = elim (Option-cases (lookup p m.bindings)) [
    | inl f ↦ rw (f, AcceptsEvent) tt
    | inr (c, f) ↦ rw (f, AcceptsEvent) (presses c (ground (arith, a p.key)))
  ]

  press-Agrees :
      (repeat : Bool) (held : Option (Option SemanticCommand))
      → lookup p.key m.held_keys ≡ held
      → Agrees
          (view d (key_event p true repeat) (press m p repeat held).1)
          (press m p repeat held).0
  unfolding view press
  press-Agrees true (some (some c)) e k = a k
  press-Agrees true (some none) e k = a k
  press-Agrees true none e k = a k
  press-Agrees false (some armed) e k = a k
  press-Agrees false none e k = elim (Option-cases (lookup p m.bindings)) [
    | inl f ↦ rw (f, view) (ground (arith, a k, lookup-insert k p.key none m.held_keys))
    | inr (c, f) ↦ rw (f, view) (ground (arith, a k, lookup-insert k p.key (some c) m.held_keys))
  ]

  release-accepts :
      (repeat : Bool) (held : Option (Option SemanticCommand))
      → lookup p.key m.held_keys ≡ held
      → AcceptsEvent d (key_event p false repeat) (release m p.key held).1
  unfolding AcceptsEvent release
  release-accepts repeat (some (some c)) e = releases c (ground (arith, a p.key))
  release-accepts repeat (some none) e = tt
  release-accepts repeat none e = tt

  release-Agrees :
      (repeat : Bool) (held : Option (Option SemanticCommand))
      → lookup p.key m.held_keys ≡ held
      → Agrees (view d (key_event p false repeat) (release m p.key held).1) (release m p.key held).0
  unfolding view release
  release-Agrees repeat (some (some c)) e k = ground (arith, a k, lookup-remove k p.key m.held_keys)
  release-Agrees repeat (some none) e k = ground (arith, a k, lookup-remove k p.key m.held_keys)
  release-Agrees repeat none e k = a k

remap-held :
    (m : InputMapper) (p : PhysicalKey) (c : SemanticCommand)
    → (remap m p c).0.held_keys ≡ m.held_keys
unfolding remap
remap-held m p c = ground arith

unbind-held : (m : InputMapper) (p : PhysicalKey) → (unbind m p).0.held_keys ≡ m.held_keys
unfolding unbind
unbind-held m p = ground arith

handle-accepts :
    (d : Down) (m : InputMapper) (e : Event) → Agrees d m → AcceptsEvent d e (handle m e).1
unfolding handle process_key AcceptsEvent
handle-accepts d m (key_event p true repeat) a = press-accepts d m p a repeat _ refl
handle-accepts d m (key_event p false repeat) a = release-accepts d m p a repeat _ refl
handle-accepts d m (remap_event p c) a = tt
handle-accepts d m (unbind_event p) a = tt
handle-accepts d m clear_event a = tt
handle-accepts d m reset_event a = tt

handle-Agrees :
    (d : Down) (m : InputMapper) (e : Event)
    → Agrees d m
    → Agrees (view d e (handle m e).1) (handle m e).0
unfolding handle process_key view clear_held_keys reset_to_defaults lookup
handle-Agrees d m (key_event p true repeat) a k = press-Agrees d m p a repeat _ refl k
handle-Agrees d m (key_event p false repeat) a k = release-Agrees d m p a repeat _ refl k
handle-Agrees d m (remap_event p c) a k = rw (remap-held m p c) (a k)
handle-Agrees d m (unbind_event p) a k = rw (unbind-held m p) (a k)
handle-Agrees d m clear_event a k = refl
handle-Agrees d m reset_event a k = refl

-- From any mapper whose holds the observer knows, every sequence of key events, remaps, unbinds,
-- resets and clears dispatches only what the observer accepts: for each key a press with some
-- command, then repeats and one release of that same command, unless the holds are cleared
-- between; what is remapped meanwhile makes no difference.
pub handle-AcceptsAll :
    (d : Down) (m : InputMapper) (es : List Event) → Agrees d m → AcceptsAll d m es
unfolding AcceptsAll
handle-AcceptsAll d m [] a = tt
handle-AcceptsAll d m (e ∷ es) a = (
  handle-accepts d m e a,
  handle-AcceptsAll (view d e (handle m e).1) (handle m e).0 es (handle-Agrees d m e a),
)
