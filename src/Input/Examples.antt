-- ===== src/Input/Examples.antt =====
-- Calls of src/InputMapper.cpp with the default bindings.
use arkham_horror_linux.Common.{true, false, none, List, [], ◌∷◌, refl, lookup}
use arkham_horror_linux.Input.{inspect, undo, key_return, key_escape, plain, reset_to_defaults}
use arkham_horror_linux.Input.Reserved.{
  Fixed, calls, remaps, unbinds, processes, calls-reset_to_defaults-Fixed, Remaps, remap-Remaps,
}
use arkham_horror_linux.Input.Holds.{Event, key_event, remap_event, AcceptsAll, handle-AcceptsAll}

calls-reset_to_defaults-Fixed_example : Fixed (
    calls reset_to_defaults (
      remaps (plain key_escape) undo
      ∷ unbinds (plain key_escape)
      ∷ processes (plain key_return) true false
      ∷ []))
calls-reset_to_defaults-Fixed_example = calls-reset_to_defaults-Fixed (
    remaps (plain key_escape) undo
    ∷ unbinds (plain key_escape)
    ∷ processes (plain key_return) true false
    ∷ [])

remap-Remaps_example : Remaps reset_to_defaults (plain key_escape) undo
remap-Remaps_example = remap-Remaps reset_to_defaults (plain key_escape) undo

abbrev hold : List Event
hold =
    key_event (plain key_return) true false
    ∷ remap_event (plain key_return) inspect
    ∷ key_event (plain key_return) true true
    ∷ key_event (plain key_return) false false
    ∷ []

handle-AcceptsAll_example : AcceptsAll (λ _. none) reset_to_defaults hold
unfolding reset_to_defaults lookup
handle-AcceptsAll_example = handle-AcceptsAll (λ _. none) reset_to_defaults hold (λ k. refl)
