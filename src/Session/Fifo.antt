-- ===== src/Session/Fifo.antt =====
-- The queues of secure-store operations of src/SessionCoordinator.cpp and SessionCoordinator.h: one
-- queue for each profile, one operation of it at most in flight. `C` is what is to be run when an
-- operation completes. `calls` are the calls made to the store, the last one first; the store
-- answers later, never inside the call (ITokenStore.h). A profile with an empty queue has no entry.
pub mod Invariant
pub mod Starts
pub mod Issues
pub mod Enqueues
pub mod Completes
pub mod Invalidates
pub mod Restores
pub mod System
mod Examples
use arkham_horror_linux.Common.{
  ℕ, suc, ◌+◌, ite, Bool, true, false, not, ◌&&◌, Option, none, some, List, [], ◌∷◌, ◌++◌, Text,
  ◌≟◌, text_key, lookup, has, value_or, insert, remove, ◌==◌, if◌then◌else◌, is_empty,
}

pub data TokenOpKind : Type 0 where
  read save delete : TokenOpKind

pub record TokenOp (C : Type 0) : Type 0 where
  pub kind : TokenOpKind
  pub token : Text
  pub on_complete : C
  pub admission_epoch : ℕ
  pub admission_endpoint_epoch : ℕ
  pub op_id : ℕ
  pub endpoint_identity : Text
  pub restore_eligible : Bool

pub record Dispatch : Type 0 where
  pub in_flight : Bool
  pub op_id : ℕ
  pub attempt_id : ℕ

-- A call of the store for a profile, with the operation and the attempt that its callback holds.
pub data StoreCall : Type 0 where
  read_token : Text → Text → ℕ → ℕ → StoreCall
  save_token : Text → Text → Text → ℕ → ℕ → StoreCall
  delete_token : Text → ℕ → ℕ → StoreCall

-- How often a profile's credential was invalidated, and how often its endpoint changed.
pub record Epochs : Type 0 where
  pub credential_epochs : List (Text × ℕ)
  pub endpoint_epochs : List (Text × ℕ)

-- The profiles whose required deletion failed, with its diagnostic, and their order.
pub record Stalls : Type 0 where
  pub stalled : List (Text × Text)
  pub stalled_order : List Text

pub record Fifo (C : Type 0) : Type 0 where
  pub queues : List (Text × List (TokenOp C))
  pub dispatches : List (Text × Dispatch)
  pub epochs : Epochs
  pub stalls : Stalls
  pub next_op_id : ℕ
  pub next_attempt_id : ℕ
  pub calls : List StoreCall

abbrev pub idle : Dispatch
idle = record { in_flight = false; op_id = 0; attempt_id = 0 }

abbrev pub is_save : TokenOpKind → Bool
is_save save = true
is_save _ = false

abbrev pub is_delete : TokenOpKind → Bool
is_delete delete = true
is_delete _ = false

abbrev pub is_read : TokenOpKind → Bool
is_read read = true
is_read _ = false

pub contains : Text → List Text → Bool
contains p [] = false
contains p (x ∷ xs) = ite (x ≟ p) true (contains p xs)

-- `QList::removeOne`.
pub remove_one : Text → List Text → List Text
remove_one p [] = []
remove_one p (x ∷ xs) = ite (x ≟ p) xs (x ∷ remove_one p xs)

module _ {C : Type 0} where
  abbrev pub queue_of : Fifo C → Text → List (TokenOp C)
  queue_of f p = value_or p f.queues []

  abbrev pub dispatch_of : Fifo C → Text → Dispatch
  dispatch_of f p = value_or p f.dispatches idle

  abbrev pub credential_epoch : Fifo C → Text → ℕ
  credential_epoch f p = value_or p f.epochs.credential_epochs 0

  abbrev pub endpoint_epoch : Fifo C → Text → ℕ
  endpoint_epoch f p = value_or p f.epochs.endpoint_epochs 0

  abbrev pub call_of : Text → TokenOpKind → TokenOp C → ℕ → StoreCall
  call_of p read op attempt = read_token p op.endpoint_identity op.op_id attempt
  call_of p save op attempt = save_token p op.token op.endpoint_identity op.op_id attempt
  call_of p delete op attempt = delete_token p op.op_id attempt

  -- A save from before the profile's credential was invalidated.
  abbrev pub is_stale : ℕ → TokenOp C → Bool
  is_stale epoch op = is_save op.kind && not (op.admission_epoch == epoch)

  -- The operation at the head goes to the store.
  pub issue : Fifo C → Text → TokenOp C → List (TokenOp C) → Fifo C
  issue f p op rest = record f {
    queues = insert p (op ∷ rest) f.queues;
    dispatches =
        insert p (record { in_flight = true; op_id = op.op_id; attempt_id = f.next_attempt_id })
          f.dispatches;
    next_attempt_id = suc f.next_attempt_id;
    calls = call_of p op.kind op f.next_attempt_id ∷ f.calls;
  }

  -- Stale saves at the front are dropped without a call.
  pub start_queue : Fifo C → Text → List (TokenOp C) → Fifo C
  unfolding issue
  start_queue f p [] = record f { queues = remove p f.queues; dispatches = remove p f.dispatches }
  start_queue f p (op ∷ rest) =
      if is_stale (credential_epoch f p) op then start_queue f p rest else issue f p op rest

  pub start_front_token_op : Fifo C → Text → Fifo C
  unfolding start_queue
  start_front_token_op f p =
      if is_empty (queue_of f p)
      then f
      else if (dispatch_of f p).in_flight
      then f
      else start_queue f p (queue_of f p)

  abbrev pub new_op : Fifo C → Text → TokenOpKind → Text → Text → C → Bool → TokenOp C
  new_op f p kind token endpoint on_complete eligible = record {
    kind = kind;
    token = token;
    on_complete = on_complete;
    admission_epoch = credential_epoch f p;
    admission_endpoint_epoch = endpoint_epoch f p;
    op_id = f.next_op_id;
    endpoint_identity = endpoint;
    restore_eligible = eligible;
  }

  abbrev pub appended : Fifo C → Text → TokenOp C → Fifo C
  appended f p op = record f {
    queues = insert p (queue_of f p ++ op ∷ []) f.queues;
    next_op_id = suc f.next_op_id;
  }

  pub enqueue_token_op : Fifo C → Text → TokenOpKind → Text → Text → C → Bool → Fifo C
  unfolding start_front_token_op
  enqueue_token_op f p kind token endpoint on_complete eligible =
      let f' = appended f p (new_op f p kind token endpoint on_complete eligible) in
      if is_empty (queue_of f p) then start_front_token_op f' p else f'

  -- The guard of a completion: the head of the queue and the rest, if the callback is that of the
  -- attempt in flight.
  pub accept : Fifo C → Text → ℕ → ℕ → Option (TokenOp C × List (TokenOp C))
  accept f p op attempt =
      let d = dispatch_of f p in
      if d.in_flight && (d.op_id == op && d.attempt_id == attempt)
      then elim (queue_of f p) [
        | [] ↦ none
        | head ∷ rest ↦ if head.op_id == op then some (head, rest) else none
      ]
      else none

  pub settle : Fifo C → Text → Fifo C
  settle f p = record f {
    dispatches = insert p (record (dispatch_of f p) { in_flight = false }) f.dispatches;
  }

  -- The head leaves the queue; `rest` is what is left.
  pub dequeue : Fifo C → Text → List (TokenOp C) → Fifo C
  dequeue f p rest =
      if is_empty rest
      then record f { queues = remove p f.queues; dispatches = remove p f.dispatches }
      else (record f { queues = insert p rest f.queues })

  pub mark_stalled : Fifo C → Text → Text → Fifo C
  mark_stalled f p diagnostic = record f {
    stalls = record {
      stalled = insert p diagnostic f.stalls.stalled;
      stalled_order =
          if contains p f.stalls.stalled_order
          then f.stalls.stalled_order
          else f.stalls.stalled_order ++ p ∷ [];
    };
  }

  pub clear_stalled : Fifo C → Text → Fifo C
  clear_stalled f p =
      if has p f.stalls.stalled
      then (record f {
        stalls = record {
          stalled = remove p f.stalls.stalled;
          stalled_order = remove_one p f.stalls.stalled_order;
        };
      })
      else f

  -- A required deletion that failed stays at the head.
  pub complete_failed : Fifo C → Text → Text → Fifo C
  unfolding settle mark_stalled
  complete_failed f p diagnostic = mark_stalled (settle f p) p diagnostic

  pub complete_done : Fifo C → Text → List (TokenOp C) → Fifo C
  unfolding settle dequeue clear_stalled
  complete_done f p rest = clear_stalled (dequeue (settle f p) p rest) p

  pub retry_stuck : Fifo C → Text → Fifo C
  unfolding start_front_token_op
  retry_stuck f p = if has p f.stalls.stalled then start_front_token_op f p else f

  abbrev pub front_saves : ℕ → List (TokenOp C) → Bool
  front_saves epoch [] = false
  front_saves epoch (op ∷ rest) = is_save op.kind && op.admission_epoch == epoch

  -- A save of the old epoch at the head may be in the store's hands: a deletion is put behind it.
  pub invalidate_profile_credential : C → Fifo C → Text → Fifo C
  unfolding enqueue_token_op
  invalidate_profile_credential nothing f p =
      let old = credential_epoch f p in
      let f' = record f {
        epochs = record (f.epochs) {
          credential_epochs = insert p (suc old) f.epochs.credential_epochs;
        };
      } in
      if front_saves old (queue_of f p) then enqueue_token_op f' p delete [] [] nothing true else f'

  pub invalidate_for_endpoint_change : C → Fifo C → Text → Fifo C
  unfolding invalidate_profile_credential enqueue_token_op
  invalidate_for_endpoint_change nothing f p =
      let f' = record f {
        epochs = record (f.epochs) {
          endpoint_epochs = insert p (suc (endpoint_epoch f p)) f.epochs.endpoint_epochs;
        };
      } in
      enqueue_token_op (invalidate_profile_credential nothing f' p) p delete [] [] nothing true

  abbrev pub eligible : ℕ → TokenOp C → Bool
  eligible epoch op =
      is_read op.kind && (op.restore_eligible && op.admission_endpoint_epoch == epoch)

  -- The first read that a restore may take over, with its continuation replaced.
  pub rebind : ℕ → C → List (TokenOp C) → Option (List (TokenOp C))
  rebind epoch on_complete [] = none
  rebind epoch on_complete (op ∷ rest) =
      if eligible epoch op
      then some (record op { on_complete = on_complete } ∷ rest)
      else elim (rebind epoch on_complete rest) [ none ↦ none | some q ↦ some (op ∷ q) ]

  -- The read of a restore: one that is queued for the same endpoint, or a new one.
  pub restore_read : Fifo C → Text → Text → C → Fifo C
  unfolding rebind enqueue_token_op
  restore_read f p endpoint on_complete =
      elim (rebind (endpoint_epoch f p) on_complete (queue_of f p)) [
        | none ↦ enqueue_token_op f p read [] endpoint on_complete true
        | some q ↦ record f { queues = insert p q f.queues }
      ]
