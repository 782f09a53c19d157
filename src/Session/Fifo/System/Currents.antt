-- ===== src/Session/Fifo/System/Currents.antt =====
-- The endpoint epochs at which the operations of src/SessionCoordinator.cpp were admitted, in every state that events lead to.
use arkham_horror_linux.Common.{
  suc, ◌≤◌, Bool, true, false, List, [], ◌∷◌, ◌++◌, Text, text_key, has, insert, is_empty, ◌≡◌,
  refl, arith, Option-cases, lookup-insert, Bool-cases, inl, inr, sym, subst,
}
use arkham_horror_linux.Session.Fifo.{
  TokenOpKind, read, delete, TokenOp, Fifo, queue_of, dispatch_of, credential_epoch, endpoint_epoch,
  is_stale, accept, settle, dequeue, mark_stalled, clear_stalled, complete_failed, complete_done,
  retry_stuck, start_front_token_op, start_queue, issue, new_op, appended, enqueue_token_op,
  front_saves, invalidate_profile_credential, invalidate_for_endpoint_change, rebind, restore_read,
}
use arkham_horror_linux.Session.Fifo.Completes.{accept_inv}
use arkham_horror_linux.Session.Fifo.System.{
  TokenStoreOutcome, Action, enqueue, restore, invalidate, endpoint_changed, retry, Event, act_on,
  completed, deletion_failed, act, act_all, front_if, on_result, step, run,
}
use arkham_horror_linux.Session.Fifo.System.Admissions.{
  Admitted, Current, Admitted-widen, Admitted-concat, Admitted-rebind, put-Admitted, drop-Admitted,
}

module _ {C : Type 0} where
  module _ (r : Text) where
    moves :
        (f : Fifo C) (p : Text) (q : List (TokenOp C))
        → p ≡ r
        → Admitted (endpoint_epoch f p) q
        → Admitted (endpoint_epoch f r) q
    moves f p q e a = subst (λ x. Admitted (endpoint_epoch f x) q) e a

    start_queue-Current :
        (f : Fifo C) (p : Text) (q : List (TokenOp C))
        → (p ≡ r → Admitted (endpoint_epoch f r) q)
        → Current f r
        → Current (start_queue f p q) r
    unfolding start_queue issue
    start_queue-Current f p [] h a = drop-Admitted r p _ f.queues a
    start_queue-Current f p (op ∷ q) h a = elim (Bool-cases (is_stale (credential_epoch f p) op)) [
      | inl e ↦ rw e (start_queue-Current f p q (λ g. (h g).1) a)
      | inr e ↦ rw e (put-Admitted r p _ (op ∷ q) f.queues h a)
    ]

    start_front-Current :
        (f : Fifo C) (p : Text) → Current f r → Current (start_front_token_op f p) r
    unfolding start_front_token_op
    start_front-Current f p a = elim (Bool-cases (is_empty (queue_of f p))) [
      | inl e ↦ rw e a
      | inr e ↦ rw e (elim (Bool-cases (dispatch_of f p).in_flight) [
        | inl g ↦ rw g a
        | inr g ↦ rw g (
            start_queue-Current f p (queue_of f p)
              (λ h. subst (λ x. Admitted (endpoint_epoch f r) (queue_of f x)) (sym h) a) a)
      ])
    ]

    enqueue-Current :
        (f : Fifo C) (p : Text) (kind : TokenOpKind) (token endpoint : Text) (k : C) (e : Bool)
        → Current f r
        → Current (enqueue_token_op f p kind token endpoint k e) r
    unfolding enqueue_token_op
    enqueue-Current f p kind token endpoint k e a =
        let op = new_op f p kind token endpoint k e in
        let g = appended f p op in
        let w : Current g r =
          put-Admitted r p (endpoint_epoch f r) (queue_of f p ++ op ∷ []) f.queues
            (λ h.
              moves f p _ h
                (Admitted-concat (queue_of f p) op _ (omega arith) (subst (Current f) (sym h) a)))
            a in
        elim (Bool-cases (is_empty (queue_of f p))) [
          | inl h ↦ rw h (start_front-Current g p w)
          | inr h ↦ rw h w
        ]

    -- The epochs only rise.
    raised-Current :
        (f g : Fifo C)
        → endpoint_epoch f r ≤ endpoint_epoch g r
        → queue_of f r ≡ queue_of g r
        → Current f r
        → Current g r
    raised-Current f g h e a =
        subst (Admitted (endpoint_epoch g r)) e (Admitted-widen (queue_of f r) _ _ h a)

    restore-Current :
        (f : Fifo C) (p endpoint : Text) (k : C)
        → Current f r
        → Current (restore_read f p endpoint k) r
    unfolding restore_read
    restore-Current f p endpoint k a =
        elim (Option-cases (rebind (endpoint_epoch f p) k (queue_of f p))) [
          | inl e ↦
              let w : restore_read f p endpoint k ≡ enqueue_token_op f p read [] endpoint k true =
                rw (e, restore_read) refl in
              subst (λ g. Current g r) (sym w) (enqueue-Current f p read [] endpoint k true a)
          | inr (q, e) ↦
              let w : restore_read f p endpoint k ≡ (record f { queues = insert p q f.queues }) =
                rw (e, restore_read) refl in
              subst (λ g. Current g r) (sym w)
                (put-Admitted r p _ q f.queues
                  (λ h.
                    Admitted-rebind _ k (queue_of f p) q _ e
                      (subst (λ x. Admitted (endpoint_epoch f r) (queue_of f x)) (sym h) a))
                  a)
        ]

    invalidate-Current :
        (nothing : C) (f : Fifo C) (p : Text)
        → Current f r
        → Current (invalidate_profile_credential nothing f p) r
    unfolding invalidate_profile_credential
    invalidate-Current nothing f p a =
        let b = record f {
          epochs = record (f.epochs) {
            credential_epochs = insert p (suc (credential_epoch f p)) f.epochs.credential_epochs;
          };
        } in
        elim (Bool-cases (front_saves (credential_epoch f p) (queue_of f p))) [
          | inl e ↦ rw e (enqueue-Current b p delete [] [] nothing true a)
          | inr e ↦ rw e a
        ]

    abbrev moved_to : Fifo C → Text → Fifo C
    moved_to f p = record f {
      epochs = record (f.epochs) {
        endpoint_epochs = insert p (suc (endpoint_epoch f p)) f.epochs.endpoint_epochs;
      };
    }

    moved_to_le : (f : Fifo C) (p : Text) → endpoint_epoch f r ≤ endpoint_epoch (moved_to f p) r
    moved_to_le f p =
        ground (arith, lookup-insert r p (suc (endpoint_epoch f p)) f.epochs.endpoint_epochs)

    changed-Current :
        (nothing : C) (f : Fifo C) (p : Text)
        → Current f r
        → Current (invalidate_for_endpoint_change nothing f p) r
    unfolding invalidate_for_endpoint_change
    changed-Current nothing f p a = enqueue-Current _ p delete [] [] nothing true (
        invalidate-Current nothing (moved_to f p) p
          (raised-Current f (moved_to f p) (moved_to_le f p) refl a))

    retry-Current : (f : Fifo C) (p : Text) → Current f r → Current (retry_stuck f p) r
    unfolding retry_stuck
    retry-Current f p a = elim (Bool-cases (has p f.stalls.stalled)) [
      | inl e ↦ rw e (start_front-Current f p a)
      | inr e ↦ rw e a
    ]

    act-Current :
        (nothing : C) (f : Fifo C) (x : Action C) → Current f r → Current (act nothing f x) r
    unfolding act
    act-Current nothing f (enqueue p kind token endpoint k e) a =
        enqueue-Current f p kind token endpoint k e a
    act-Current nothing f (restore p endpoint k) a = restore-Current f p endpoint k a
    act-Current nothing f (invalidate p) a = invalidate-Current nothing f p a
    act-Current nothing f (endpoint_changed p) a = changed-Current nothing f p a
    act-Current nothing f (retry p) a = retry-Current f p a

    act_all-Current :
        (nothing : C) (f : Fifo C) (acts : List (Action C))
        → Current f r
        → Current (act_all nothing f acts) r
    unfolding act_all
    act_all-Current nothing f [] a = a
    act_all-Current nothing f (x ∷ acts) a =
        act_all-Current nothing (act nothing f x) acts (act-Current nothing f x a)

    front_if-Current :
        (nothing : C) (b : Bool) (f : Fifo C) (p : Text)
        → Current f r
        → Current (front_if nothing b f p) r
    front_if-Current nothing true f p a = a
    front_if-Current nothing false f p a = start_front-Current f p a

    dequeue-Current :
        (f : Fifo C) (p : Text) (head : TokenOp C) (rest : List (TokenOp C))
        → queue_of f p ≡ head ∷ rest
        → Current f r
        → Current (dequeue f p rest) r
    unfolding dequeue
    dequeue-Current f p head [] e a = drop-Admitted r p _ f.queues a
    dequeue-Current f p head (op ∷ rest) e a =
        put-Admitted r p _ (op ∷ rest) f.queues
          (λ h.
            (subst (Admitted (endpoint_epoch f r)) e
              (subst (λ x. Admitted (endpoint_epoch f r) (queue_of f x)) (sym h) a)).1)
          a

    cleared-Current : (f : Fifo C) (p : Text) → Current f r → Current (clear_stalled f p) r
    unfolding clear_stalled
    cleared-Current f p a = elim (Bool-cases (has p f.stalls.stalled)) [
      | inl e ↦ rw e a
      | inr e ↦ rw e a
    ]

    on_result-Current :
        (nothing : C) (f : Fifo C) (p : Text) (head : TokenOp C) (rest : List (TokenOp C))
        (o : TokenStoreOutcome) (d : Text) (acts : List (Action C))
        → queue_of f p ≡ head ∷ rest
        → Current f r
        → Current (on_result nothing f p head rest o d acts) r
    unfolding on_result complete_failed complete_done mark_stalled settle
    on_result-Current nothing f p head rest o d acts e a =
        elim (Bool-cases (deletion_failed head.kind o)) [
          | inl h ↦ rw h (act_all-Current nothing _ acts a)
          | inr h ↦ rw h (
              front_if-Current nothing (is_empty rest) _ p (
                act_all-Current nothing _ acts
                  (cleared-Current _ p (dequeue-Current (settle f p) p head rest e a))))
        ]

    step-Current :
        (nothing : C) (f : Fifo C) (e : Event C) → Current f r → Current (step nothing f e) r
    unfolding step
    step-Current nothing f (act_on x) a = act-Current nothing f x a
    step-Current nothing f (completed p op n o d acts) a = elim (Option-cases (accept f p op n)) [
      | inl e ↦ rw (e, step) a
      | inr ((head, rest), e) ↦
          rw (e, step)
            (on_result-Current nothing f p head rest o d acts (accept_inv f p op n head rest e).0 a)
    ]

    pub run-Current :
        (nothing : C) (f : Fifo C) (es : List (Event C))
        → Current f r
        → Current (run nothing f es) r
    unfolding run
    run-Current nothing f [] a = a
    run-Current nothing f (e ∷ es) a =
        run-Current nothing (step nothing f e) es (step-Current nothing f e a)
