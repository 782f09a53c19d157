-- ===== src/Session/Fifo/Issues.antt =====
-- What `startFrontTokenOp` of src/SessionCoordinator.cpp sends to the store.
use arkham_horror_linux.Common.{
  ℕ, true, false, List, [], ◌∷◌, ◌++◌, Text, text_key, is_empty, All, ◌≡◌, ◌≢◌, refl, arith,
  lookup-insert, lookup-remove, Bool-cases, ◌⊎◌, inl, inr, ap,
}
use arkham_horror_linux.Session.Fifo.{
  read, save, delete, TokenOp, StoreCall, read_token, save_token, delete_token, Fifo, queue_of,
  dispatch_of, credential_epoch, is_stale, call_of, issue, start_queue, start_front_token_op,
}

module _ {C : Type 0} where
  -- A save from another epoch than the profile's.
  abbrev pub Outdated : ℕ → TokenOp C → Type 0
  Outdated epoch op = (op.kind ≡ save) × (op.admission_epoch ≢ epoch)

  -- No save, or a save from the profile's epoch.
  abbrev pub Current : ℕ → TokenOp C → Type 0
  Current epoch op = op.kind ≡ save → op.admission_epoch ≡ epoch

  -- The call that each kind of operation makes.
  pub record Sends (p : Text) (op : TokenOp C) (attempt : ℕ) (call : StoreCall) : Type 0 where
    pub reads : op.kind ≡ read → call ≡ read_token p op.endpoint_identity op.op_id attempt
    pub saves : op.kind ≡ save → call ≡ save_token p op.token op.endpoint_identity op.op_id attempt
    pub deletes : op.kind ≡ delete → call ≡ delete_token p op.op_id attempt

  is_stale-Outdated : (epoch : ℕ) (op : TokenOp C) → is_stale epoch op ≡ true → Outdated epoch op
  is_stale-Outdated epoch op e = ground (arith, e)

  Current-is_stale : (epoch : ℕ) (op : TokenOp C) → is_stale epoch op ≡ false → Current epoch op
  Current-is_stale epoch op e k = ground (arith, e, k)

  call_of-Sends :
      (p : Text) (op : TokenOp C) (attempt : ℕ) → Sends p op attempt (call_of p op.kind op attempt)
  call_of-Sends p op attempt = record {
    reads = λ e. rw e refl;
    saves = λ e. rw e refl;
    deletes = λ e. rw e refl;
  }

module _ {C : Type 0} (f g : Fifo C) (p : Text) where
  -- From the queue `q` of `f`, outdated saves are dropped up to `op`, which goes to the store.
  pub record Issues (q : List (TokenOp C)) : Type 0 where
    pub dropped : List (TokenOp C)
    pub op : TokenOp C
    pub rest : List (TokenOp C)
    pub was : q ≡ dropped ++ op ∷ rest
    pub outdated : All (Outdated (credential_epoch f p)) dropped
    pub is_current : Current (credential_epoch f p) op
    pub call : StoreCall
    pub sends : Sends p op f.next_attempt_id call
    pub calls : g.calls ≡ call ∷ f.calls
    pub waits : queue_of g p ≡ op ∷ rest
    pub flies :
        dispatch_of g p
        ≡ (record { in_flight = true; op_id = op.op_id; attempt_id = f.next_attempt_id })

  -- The queue `q` of `f` has outdated saves only, which are dropped.
  pub record Drops (q : List (TokenOp C)) : Type 0 where
    pub outdated : All (Outdated (credential_epoch f p)) q
    pub calls : g.calls ≡ f.calls
    pub empties : queue_of g p ≡ []

module _ {C : Type 0} (f : Fifo C) (p : Text) where
  skips-Outdated :
      (g : Fifo C) (o : TokenOp C) (q : List (TokenOp C))
      → Outdated (credential_epoch f p) o
      → Issues f g p q ⊎ Drops f g p q
      → Issues f g p (o ∷ q) ⊎ Drops f g p (o ∷ q)
  skips-Outdated g o q h (inl i) = inl (record {
    dropped = o ∷ i.dropped;
    op = i.op;
    rest = i.rest;
    was = ap (◌∷◌ o) i.was;
    outdated = (h, i.outdated);
    is_current = i.is_current;
    call = i.call;
    sends = i.sends;
    calls = i.calls;
    waits = i.waits;
    flies = i.flies;
  })
  skips-Outdated g o q h (inr d) =
      inr (record { outdated = (h, d.outdated); calls = d.calls; empties = d.empties })

  issue-Issues :
      (op : TokenOp C) (rest : List (TokenOp C))
      → Current (credential_epoch f p) op
      → Issues f (issue f p op rest) p (op ∷ rest)
  unfolding issue
  issue-Issues op rest h = record {
    dropped = [];
    op = op;
    rest = rest;
    was = refl;
    outdated = tt;
    is_current = h;
    call = call_of p op.kind op f.next_attempt_id;
    sends = call_of-Sends p op f.next_attempt_id;
    calls = refl;
    waits = ground (arith, lookup-insert p p (op ∷ rest) f.queues);
    flies = ground (
      arith,
      lookup-insert p p
          (record { in_flight = true; op_id = op.op_id; attempt_id = f.next_attempt_id })
          f.dispatches,
    );
  }

  start_queue_sends :
      (q : List (TokenOp C)) → Issues f (start_queue f p q) p q ⊎ Drops f (start_queue f p q) p q
  unfolding start_queue
  start_queue_sends [] =
      inr (record {
        outdated = tt;
        calls = refl;
        empties = ground (arith, lookup-remove p p f.queues);
      })
  start_queue_sends (op ∷ q) = elim (Bool-cases (is_stale (credential_epoch f p) op)) [
    | inl e ↦ rw e (
        skips-Outdated (start_queue f p q) op q (is_stale-Outdated (credential_epoch f p) op e)
          (start_queue_sends q))
    | inr e ↦ rw e (inl (issue-Issues op q (Current-is_stale (credential_epoch f p) op e)))
  ]

  -- Starting the front of a queue that has operations and none in flight drops the saves that were
  -- admitted in another epoch than the profile's, up to the first operation that is no save or was
  -- admitted in that epoch; that one goes to the store, alone, as the attempt in flight: a read
  -- with the endpoint, a save with the token and the endpoint, a deletion with neither. If there is
  -- none, the queue is empty and nothing is sent.
  pub start_front_sends :
      is_empty (queue_of f p) ≡ false
      → (dispatch_of f p).in_flight ≡ false
      → Issues f (start_front_token_op f p) p (queue_of f p)
        ⊎ Drops f (start_front_token_op f p) p (queue_of f p)
  unfolding start_front_token_op
  start_front_sends h i = rw (h, i) (start_queue_sends (queue_of f p))
