-- ===== src/Input/Router/Consumes.antt =====
-- src/InputRouter.cpp: which events of a hold are consumed.
use arkham_horror_linux.Common.{
  Bool, true, false, Option, none, some, ◌≡◌, sym, ◌∙◌, arith, nat_key, lookup, lookup-insert,
  is_some,
}
use arkham_horror_linux.Input.{
  PhysicalKey, SemanticCommand, process_key, press, release, command_for, is_armed_key_held,
  is_key_held, qt_key_key, physical_key_key,
}
use arkham_horror_linux.Input.Router.{InputRouter, dispatch_key}

-- What the rest of a hold does: consumed exactly if the hold is armed.
held-consumed :
    (r : InputRouter) (q : PhysicalKey) (is_press repeat : Bool) (armed : Option SemanticCommand)
    → lookup q.key r.mapper.held_keys ≡ some armed
    → (dispatch_key r q is_press repeat).1 ≡ is_some armed
unfolding dispatch_key process_key press release is_armed_key_held is_key_held
held-consumed r q is_press repeat armed e = ground arith

fresh-consumed :
    (r : InputRouter) (p : PhysicalKey)
    → lookup p.key r.mapper.held_keys ≡ none
    → ((dispatch_key r p true false).1 ≡ is_some (command_for r.mapper p))
      × (lookup p.key (dispatch_key r p true false).0.mapper.held_keys
          ≡ some (command_for r.mapper p))
unfolding dispatch_key process_key press is_armed_key_held is_key_held command_for
fresh-consumed r p e = (
  ground arith,
  ground (arith, lookup-insert p.key p.key (lookup p r.mapper.bindings) r.mapper.held_keys),
)

-- The press of a key that is not held decides for the whole hold: in any later router in which the
-- hold is still what that press made it, whatever is bound there and whatever the modifiers are,
-- each further press, repeat or release of the key is consumed if and only if that press was.
pub dispatch_key-consumes :
    (r r' : InputRouter) (p q : PhysicalKey) (is_press repeat : Bool)
    → lookup p.key r.mapper.held_keys ≡ none
    → q.key ≡ p.key
    → lookup p.key r'.mapper.held_keys
      ≡ lookup p.key (dispatch_key r p true false).0.mapper.held_keys
    → (dispatch_key r' q is_press repeat).1 ≡ (dispatch_key r p true false).1
dispatch_key-consumes r r' p q is_press repeat fresh same kept =
    let f = fresh-consumed r p fresh in
    held-consumed r' q is_press repeat (command_for r.mapper p) (rw same (kept ∙ f.1)) ∙ sym f.0
