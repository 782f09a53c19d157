-- ===== src/Session/Fifo/System/Retries.antt =====
-- `retryStuckProfileTokenOp` of src/SessionCoordinator.cpp on a profile whose deletion failed.
use mathlib.Core.Bool.{false≢true}
use arkham_horror_linux.Common.{
  ℕ, true, false, List, [], ◌∷◌, Text, lookup-insert, text_key, has, ◌≡◌, refl, arith,
}
use arkham_horror_linux.Session.Fifo.{
  TokenOpKind, read, save, delete, TokenOp, Fifo, delete_token, is_delete, is_save, queue_of,
  dispatch_of, retry_stuck, start_front_token_op, start_queue, issue, call_of,
}
use arkham_horror_linux.Session.Fifo.Invariant.{HeadDeletes}
use arkham_horror_linux.Session.Fifo.System.{Event, run, empty}
use arkham_horror_linux.Session.Fifo.System.Reachable.{run-Good}

deletes_not_save : (k : TokenOpKind) → is_delete k ≡ true → is_save k ≡ false
deletes_not_save delete h = refl
deletes_not_save read h = refl
deletes_not_save save h = absurd (false≢true h)

module _ {C : Type 0} where
  -- The deletion at the head of the queue of `p` in `f` goes to the store again in `g`, under the same
  -- number, as a new attempt, and the queue stays.
  pub record Reissues (f g : Fifo C) (p : Text) : Type 0 where
    pub head : TokenOp C
    pub rest : List (TokenOp C)
    pub waits : queue_of f p ≡ head ∷ rest
    pub deletes : is_delete head.kind ≡ true
    pub calls : g.calls ≡ delete_token p head.op_id f.next_attempt_id ∷ f.calls
    pub stays : queue_of g p ≡ head ∷ rest
    pub flies : (dispatch_of g p).in_flight ≡ true

  deletes_call :
      (k : TokenOpKind) (p : Text) (op : TokenOp C) (n : ℕ)
      → is_delete k ≡ true
      → call_of p k op n ≡ delete_token p op.op_id n
  deletes_call delete p op n h = refl
  deletes_call read p op n h = absurd (false≢true h)
  deletes_call save p op n h = absurd (false≢true h)

  started_queue :
      (f : Fifo C) (p : Text) (q : List (TokenOp C))
      → queue_of f p ≡ q
      → HeadDeletes q
      → (dispatch_of f p).in_flight ≡ false
      → Reissues f (start_front_token_op f p) p
  unfolding start_front_token_op start_queue issue
  started_queue f p [] e d i = absurd d
  started_queue f p (op ∷ rest) e d i = record {
    head = op;
    rest = rest;
    waits = e;
    deletes = d;
    calls =
        ground
          (arith, e, i, deletes_not_save op.kind d, deletes_call op.kind p op f.next_attempt_id d);
    stays =
        ground (arith, e, i, deletes_not_save op.kind d, lookup-insert p p (op ∷ rest) f.queues);
    flies = ground (
      arith,
      e,
      i,
      deletes_not_save op.kind d,
      lookup-insert p p
          (record { in_flight = true; op_id = op.op_id; attempt_id = f.next_attempt_id })
          f.dispatches,
    );
  }

  -- In every state that events lead to, a retry for a profile that is stalled and has nothing in
  -- flight issues the deletion at its head again: the same operation, as a new attempt, and nothing
  -- is taken from the queue.
  pub retry_stuck-Reissues :
      (nothing : C) (es : List (Event C)) (p : Text)
      → has p (run nothing (empty nothing) es).stalls.stalled ≡ true
      → (dispatch_of (run nothing (empty nothing) es) p).in_flight ≡ false
      → Reissues (run nothing (empty nothing) es) (retry_stuck (run nothing (empty nothing) es) p) p
  unfolding retry_stuck
  retry_stuck-Reissues nothing es p h i =
      let f = run nothing (empty nothing) es in
      rw h (started_queue f p (queue_of f p) refl ((run-Good nothing es p).sound.blocks h) i)
