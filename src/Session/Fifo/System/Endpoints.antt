-- ===== src/Session/Fifo/System/Endpoints.antt =====
-- The cleanup at an endpoint change of src/SessionCoordinator.cpp, and the restore that follows it.
use mathlib.Core.Bool.{false≢true}
use arkham_horror_linux.Common.{
  ℕ, suc, Bool, true, false, none, List, [], ◌∷◌, ◌++◌, Text, text_key, lookup, insert, is_empty,
  ◌≡◌, refl, arith, lookup-insert, Bool-cases, inl, inr, sym, subst, ap, ◌∙◌, ◌⊎◌,
}
use arkham_horror_linux.Session.Fifo.{
  TokenOpKind, read, save, delete, TokenOp, Fifo, is_save, is_read, is_delete, queue_of,
  dispatch_of, credential_epoch, endpoint_epoch, start_front_token_op, start_queue, issue, new_op,
  appended, enqueue_token_op, front_saves, invalidate_profile_credential,
  invalidate_for_endpoint_change, rebind, restore_read,
}
use arkham_horror_linux.Session.Fifo.System.{Event, empty, run}
use arkham_horror_linux.Session.Fifo.System.Admissions.{Admitted, Current}
use arkham_horror_linux.Session.Fifo.System.Currents.{run-Current}

deletes_no_read : (k : TokenOpKind) → is_delete k ≡ true → is_read k ≡ false
deletes_no_read delete h = refl
deletes_no_read read h = absurd (false≢true h)
deletes_no_read save h = refl

module _ {C : Type 0} where
  -- What is not a save stays in the queue when its front is started.
  started_queue_of :
      (f : Fifo C) (p : Text) (op : TokenOp C)
      → is_save op.kind ≡ false
      → queue_of (start_queue f p (op ∷ [])) p ≡ op ∷ []
  unfolding start_queue issue
  started_queue_of f p op h = ground (arith, h, lookup-insert p p (op ∷ []) f.queues)

  alone :
      (f : Fifo C) (p : Text) (op : TokenOp C)
      → is_save op.kind ≡ false
      → queue_of f p ≡ op ∷ []
      → queue_of (start_front_token_op f p) p ≡ op ∷ []
  unfolding start_front_token_op
  alone f p op h e = elim (Bool-cases (dispatch_of f p).in_flight) [
    | inl g ↦ ground (arith, g, e)
    | inr g ↦ ground (arith, g, e, started_queue_of f p op h)
  ]

  empty_append :
      (q : List (TokenOp C)) (op : TokenOp C) → is_empty q ≡ true → q ++ op ∷ [] ≡ op ∷ []
  empty_append [] op h = refl
  empty_append (o ∷ q) op h = absurd (false≢true h)

  queue_of-appended :
      (f : Fifo C) (p : Text) (op : TokenOp C)
      → queue_of (appended f p op) p ≡ queue_of f p ++ op ∷ []
  queue_of-appended f p op = ground (arith, lookup-insert p p (queue_of f p ++ op ∷ []) f.queues)

  enqueue_appends :
      (f : Fifo C) (p : Text) (kind : TokenOpKind) (token endpoint : Text) (k : C) (e : Bool)
      → is_save kind ≡ false
      → queue_of (enqueue_token_op f p kind token endpoint k e) p
        ≡ queue_of f p ++ new_op f p kind token endpoint k e ∷ []
  unfolding enqueue_token_op
  enqueue_appends f p kind token endpoint k e h =
      let op = new_op f p kind token endpoint k e in
      elim (Bool-cases (is_empty (queue_of f p))) [
        | inl g ↦ rw g (
            alone (appended f p op) p op h
              (queue_of-appended f p op ∙ empty_append (queue_of f p) op g)
            ∙ sym (empty_append (queue_of f p) op g))
        | inr g ↦ rw g (queue_of-appended f p op)
      ]

  -- Nothing that was admitted before the epoch, and no deletion, can be taken over.
  rebind-Admitted :
      (q : List (TokenOp C)) (epoch : ℕ) (k : C) → Admitted epoch q → rebind (suc epoch) k q ≡ none
  unfolding rebind
  rebind-Admitted [] epoch k a = refl
  rebind-Admitted (op ∷ q) epoch k a = ground (arith, a.0, rebind-Admitted q epoch k a.1)

  rebind-concat :
      (q : List (TokenOp C)) (op : TokenOp C) (epoch : ℕ) (k : C)
      → rebind epoch k q ≡ none
      → is_read op.kind ≡ false
      → rebind epoch k (q ++ op ∷ []) ≡ none
  unfolding rebind
  rebind-concat [] op epoch k n h = ground (arith, h)
  rebind-concat (o ∷ q) op epoch k n h = ground (arith, n, rebind-concat q op epoch k)

  start_queue-epochs :
      (f : Fifo C) (p : Text) (q : List (TokenOp C))
      → (start_queue f p q).epochs.endpoint_epochs ≡ f.epochs.endpoint_epochs
  unfolding start_queue issue
  start_queue-epochs f p [] = refl
  start_queue-epochs f p (op ∷ q) = ground (arith, start_queue-epochs f p q)

  enqueue-epochs :
      (f : Fifo C) (p : Text) (kind : TokenOpKind) (token endpoint : Text) (k : C) (e : Bool)
      → (enqueue_token_op f p kind token endpoint k e).epochs.endpoint_epochs
        ≡ f.epochs.endpoint_epochs
  unfolding enqueue_token_op start_front_token_op
  enqueue-epochs f p kind token endpoint k e =
      let g = appended f p (new_op f p kind token endpoint k e) in
      ground (arith, start_queue-epochs g p (queue_of g p))

  -- The queue `q`, with at most a deletion behind it.
  abbrev pub Covers : List (TokenOp C) → List (TokenOp C) → Type 0
  Covers q r = (r ≡ q) ⊎ ((op : TokenOp C) × (is_delete op.kind ≡ true) × (r ≡ q ++ op ∷ []))

  invalidate-Covers :
      (nothing : C) (f : Fifo C) (p : Text)
      → Covers (queue_of f p) (queue_of (invalidate_profile_credential nothing f p) p)
        × ((invalidate_profile_credential nothing f p).epochs.endpoint_epochs
            ≡ f.epochs.endpoint_epochs)
  unfolding invalidate_profile_credential
  invalidate-Covers nothing f p =
      let b = record f {
        epochs = record (f.epochs) {
          credential_epochs = insert p (suc (credential_epoch f p)) f.epochs.credential_epochs;
        };
      } in
      elim (Bool-cases (front_saves (credential_epoch f p) (queue_of f p))) [
        | inl e ↦ rw e (
          inr (
            new_op b p delete [] [] nothing true,
            refl,
            enqueue_appends b p delete [] [] nothing true refl,
          ),
          enqueue-epochs b p delete [] [] nothing true,
        )
        | inr e ↦ rw e (inl refl, refl)
      ]

  rebind-Covers :
      (q r : List (TokenOp C)) (epoch : ℕ) (k : C)
      → rebind epoch k q ≡ none
      → Covers q r
      → rebind epoch k r ≡ none
  rebind-Covers q r epoch k n (inl e) = subst (λ x. rebind epoch k x ≡ none) (sym e) n
  rebind-Covers q r epoch k n (inr (op, h, e)) =
      subst (λ x. rebind epoch k x ≡ none) (sym e)
        (rebind-concat q op epoch k n (deletes_no_read op.kind h))

  -- In `g`, the queue of `p` is what it was in `f`, then at most one deletion, then the deletion of
  -- the endpoint change, then a new read for the endpoint, with the continuation `k`.
  pub record ReadsBehind (f g : Fifo C) (p endpoint : Text) (k : C) : Type 0 where
    pub before : List (TokenOp C)
    pub cleanup : TokenOp C
    pub fresh : TokenOp C
    pub waits : queue_of g p ≡ (before ++ cleanup ∷ []) ++ fresh ∷ []
    pub covers : Covers (queue_of f p) before
    pub deletes : is_delete cleanup.kind ≡ true
    pub reads : is_read fresh.kind ≡ true
    pub for_endpoint : fresh.endpoint_identity ≡ endpoint
    pub continues : fresh.on_complete ≡ k

  change-ReadsBehind :
      (nothing : C) (f : Fifo C) (p endpoint : Text) (k : C)
      → Current f p
      → ReadsBehind f
          (restore_read (invalidate_for_endpoint_change nothing f p) p endpoint k)
          p
          endpoint
          k
  unfolding invalidate_for_endpoint_change restore_read
  change-ReadsBehind nothing f p endpoint k a =
      let m = record f {
        epochs = record (f.epochs) {
          endpoint_epochs = insert p (suc (endpoint_epoch f p)) f.epochs.endpoint_epochs;
        };
      } in
      let w = invalidate_profile_credential nothing m p in
      let g = enqueue_token_op w p delete [] [] nothing true in
      let (c, same) = invalidate-Covers nothing m p in
      let q = enqueue_appends w p delete [] [] nothing true refl in
      let cleanup = new_op w p delete [] [] nothing true in
      let epochs : g.epochs.endpoint_epochs ≡ m.epochs.endpoint_epochs =
        enqueue-epochs w p delete [] [] nothing true ∙ same in
      let raised : endpoint_epoch g p ≡ suc (endpoint_epoch f p) =
        ground
          (arith, epochs, lookup-insert p p (suc (endpoint_epoch f p)) f.epochs.endpoint_epochs) in
      let n : rebind (suc (endpoint_epoch f p)) k (queue_of g p) ≡ none =
        subst (λ x. rebind (suc (endpoint_epoch f p)) k x ≡ none) (sym q)
          (rebind-concat (queue_of w p) cleanup _ k
            (rebind-Covers (queue_of f p) (queue_of w p) _ k (rebind-Admitted (queue_of f p) _ k a)
              c)
            refl) in
      let o : rebind (endpoint_epoch g p) k (queue_of g p) ≡ none =
        subst (λ x. rebind x k (queue_of g p) ≡ none) (sym raised) n in
      let news : restore_read g p endpoint k ≡ enqueue_token_op g p read [] endpoint k true =
        rw (o, restore_read) refl in
      record {
        before = queue_of w p;
        cleanup = cleanup;
        fresh = new_op g p read [] endpoint k true;
        waits =
            ap (λ x. queue_of x p) news
            ∙ enqueue_appends g p read [] endpoint k true refl
            ∙ ap (λ x. x ++ new_op g p read [] endpoint k true ∷ []) q;
        covers = c;
        deletes = refl;
        reads = refl;
        for_endpoint = refl;
        continues = refl;
      }

  empty-Current : (nothing : C) (p : Text) → Current (empty nothing) p
  unfolding lookup
  empty-Current nothing p = tt

  -- In every state that events lead to, a restore that follows an endpoint change of the profile takes
  -- over no read that was queued before, but queues a new one for the new endpoint behind everything
  -- that was there and behind the deletion of the old endpoint's token.
  pub endpoint_change-ReadsBehind :
      (nothing : C) (es : List (Event C)) (p endpoint : Text) (k : C)
      → ReadsBehind
          (run nothing (empty nothing) es)
          (restore_read
            (invalidate_for_endpoint_change nothing (run nothing (empty nothing) es) p)
            p
            endpoint
            k)
          p
          endpoint
          k
  endpoint_change-ReadsBehind nothing es p endpoint k =
      change-ReadsBehind nothing (run nothing (empty nothing) es) p endpoint k
        (run-Current p nothing (empty nothing) es (empty-Current nothing p))
