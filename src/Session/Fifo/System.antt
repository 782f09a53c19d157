-- ===== src/Session/Fifo/System.antt =====
-- Everything that happens to the queues of src/SessionCoordinator.cpp, as events: calls of the
-- coordinator, and the store's callbacks in any order, late and repeated ones included.
pub mod Reachable
pub mod Attempts
pub mod Replays
pub mod Retries
pub mod Admissions
pub mod Currents
pub mod Endpoints
mod Examples
use arkham_horror_linux.Common.{
  ℕ, Bool, true, false, ◌&&◌, Option, none, some, List, [], ◌∷◌, Text, if◌then◌else◌, is_empty,
  codes,
}
use arkham_horror_linux.Session.Fifo.{
  TokenOpKind, delete, TokenOp, Fifo, is_delete, accept, complete_failed, complete_done,
  retry_stuck, start_front_token_op, enqueue_token_op, invalidate_profile_credential,
  invalidate_for_endpoint_change, restore_read,
}

pub data TokenStoreOutcome : Type 0 where
  success not_found access_denied unavailable backend_error : TokenStoreOutcome
  invalid_input binding_mismatch legacy_unbound malformed : TokenStoreOutcome

abbrev found_or_gone : TokenStoreOutcome → Bool
found_or_gone success = true
found_or_gone not_found = true
found_or_gone _ = false

pub data Action (C : Type 0) : Type 0 where
  enqueue : Text → TokenOpKind → Text → Text → C → Bool → Action C
  restore : Text → Text → C → Action C
  invalidate : Text → Action C
  endpoint_changed : Text → Action C
  retry : Text → Action C

-- `completed p op attempt outcome diagnostic acts`: the callback of an attempt; `acts` is what the
-- operation's continuation does to the queues.
pub data Event (C : Type 0) : Type 0 where
  act_on : Action C → Event C
  completed : Text → ℕ → ℕ → TokenStoreOutcome → Text → List (Action C) → Event C

abbrev pub deletion_failed : TokenOpKind → TokenStoreOutcome → Bool
deletion_failed delete outcome = if found_or_gone outcome then false else true
deletion_failed _ outcome = false

abbrev pub stall_diagnostic : Text → Text
stall_diagnostic d =
    if is_empty d then codes "A required secure-store deletion failed and must be retried." else d

module _ {C : Type 0} (nothing : C) where
  abbrev pub empty : Fifo C
  empty = record {
    queues = [];
    dispatches = [];
    epochs = record { credential_epochs = []; endpoint_epochs = [] };
    stalls = record { stalled = []; stalled_order = [] };
    next_op_id = 1;
    next_attempt_id = 1;
    calls = [];
  }

  pub act : Fifo C → Action C → Fifo C
  unfolding enqueue_token_op restore_read invalidate_profile_credential
      invalidate_for_endpoint_change retry_stuck
  act f (enqueue p kind token endpoint k eligible) =
      enqueue_token_op f p kind token endpoint k eligible
  act f (restore p endpoint k) = restore_read f p endpoint k
  act f (invalidate p) = invalidate_profile_credential nothing f p
  act f (endpoint_changed p) = invalidate_for_endpoint_change nothing f p
  act f (retry p) = retry_stuck f p

  pub act_all : Fifo C → List (Action C) → Fifo C
  unfolding act
  act_all f [] = f
  act_all f (a ∷ acts) = act_all (act f a) acts

  abbrev pub front_if : Bool → Fifo C → Text → Fifo C
  front_if true f p = f
  front_if false f p = start_front_token_op f p

  -- The head's continuation runs before the next operation is started.
  pub on_result :
      Fifo C
      → Text
      → TokenOp C
      → List (TokenOp C)
      → TokenStoreOutcome
      → Text
      → List (Action C)
      → Fifo C
  unfolding complete_failed complete_done act_all start_front_token_op
  on_result f p head rest outcome diagnostic acts =
      if deletion_failed head.kind outcome
      then act_all (complete_failed f p (stall_diagnostic diagnostic)) acts
      else front_if (is_empty rest) (act_all (complete_done f p rest) acts) p

  pub step : Fifo C → Event C → Fifo C
  unfolding act on_result accept
  step f (act_on a) = act f a
  step f (completed p op attempt outcome diagnostic acts) = elim (accept f p op attempt) [
    | none ↦ f
    | some (head, rest) ↦ on_result f p head rest outcome diagnostic acts
  ]

  pub run : Fifo C → List (Event C) → Fifo C
  unfolding step
  run f [] = f
  run f (e ∷ es) = run (step f e) es
