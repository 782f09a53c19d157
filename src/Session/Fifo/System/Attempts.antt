-- ===== src/Session/Fifo/System/Attempts.antt =====
-- Attempts that are over, and the operations of src/SessionCoordinator.cpp.
use arkham_horror_linux.Common.{
  ℕ, suc, ◌<◌, Bool, true, false, none, List, [], ◌∷◌, Text, text_key, has, insert, is_empty, ◌≡◌,
  ◌≢◌, refl, arith, Option-cases, lookup-insert, lookup-remove, Bool-cases, inl, inr, sym, subst,
}
use arkham_horror_linux.Session.Fifo.{
  TokenOpKind, read, delete, TokenOp, Fifo, queue_of, dispatch_of, credential_epoch, endpoint_epoch,
  is_stale, accept, settle, dequeue, clear_stalled, retry_stuck, start_front_token_op, start_queue,
  issue, new_op, appended, enqueue_token_op, front_saves, invalidate_profile_credential,
  invalidate_for_endpoint_change, rebind, restore_read,
}

module _ {C : Type 0} where
  -- An attempt that was issued and is not the one in flight, which was issued too.
  pub record Past (p : Text) (attempt : ℕ) (f : Fifo C) : Type 0 where
    pub issued : attempt < f.next_attempt_id
    pub recent :
        (dispatch_of f p).in_flight ≡ true → (dispatch_of f p).attempt_id < f.next_attempt_id
    pub over : (dispatch_of f p).in_flight ≡ true → (dispatch_of f p).attempt_id ≢ attempt

  module _ (p : Text) (attempt : ℕ) where
    pub over_not : (f : Fifo C) → Past p attempt f → (o : ℕ) → accept f p o attempt ≡ none
    unfolding accept
    over_not f v o = ground (arith, v.over)

    pub same-Past :
        (f g : Fifo C)
        → f.next_attempt_id ≡ g.next_attempt_id
        → f.dispatches ≡ g.dispatches
        → Past p attempt f
        → Past p attempt g
    same-Past f g n d v = record {
      issued = omega (arith, v.issued, n);
      recent = ground (arith, v.recent, n, d);
      over = ground (arith, v.over, d);
    }

    start_queue-Past :
        (f : Fifo C) (r : Text) (q : List (TokenOp C))
        → Past p attempt f
        → Past p attempt (start_queue f r q)
    unfolding start_queue issue
    start_queue-Past f r [] v = record {
      issued = v.issued;
      recent = λ h. ground (arith, lookup-remove p r f.dispatches, h, v.recent);
      over = λ h. ground (arith, lookup-remove p r f.dispatches, h, v.over);
    }
    start_queue-Past f r (op ∷ q) v = elim (Bool-cases (is_stale (credential_epoch f r) op)) [
      | inl e ↦ rw e (start_queue-Past f r q v)
      | inr e ↦ rw e (record {
        issued = omega (arith, v.issued);
        recent = λ h. ground (
          arith,
          v.recent,
          v.issued,
          h,
          lookup-insert p r
              (record { in_flight = true; op_id = op.op_id; attempt_id = f.next_attempt_id })
              f.dispatches,
        );
        over = λ h. ground (
          arith,
          v.over,
          v.issued,
          h,
          lookup-insert p r
              (record { in_flight = true; op_id = op.op_id; attempt_id = f.next_attempt_id })
              f.dispatches,
        );
      })
    ]

    pub start_front-Past :
        (f : Fifo C) (r : Text) → Past p attempt f → Past p attempt (start_front_token_op f r)
    unfolding start_front_token_op
    start_front-Past f r v = elim (Bool-cases (is_empty (queue_of f r))) [
      | inl e ↦ rw e v
      | inr e ↦ rw e (elim (Bool-cases (dispatch_of f r).in_flight) [
        | inl g ↦ rw g v
        | inr g ↦ rw g (start_queue-Past f r (queue_of f r) v)
      ])
    ]

    pub enqueue-Past :
        (f : Fifo C) (r : Text) (kind : TokenOpKind) (token endpoint : Text) (k : C) (e : Bool)
        → Past p attempt f
        → Past p attempt (enqueue_token_op f r kind token endpoint k e)
    unfolding enqueue_token_op
    enqueue-Past f r kind token endpoint k e v =
        let a = appended f r (new_op f r kind token endpoint k e) in
        let w = same-Past f a refl refl v in
        elim (Bool-cases (is_empty (queue_of f r))) [
          | inl h ↦ rw h (start_front-Past a r w)
          | inr h ↦ rw h w
        ]

    pub settle-Past : (f : Fifo C) (r : Text) → Past p attempt f → Past p attempt (settle f r)
    unfolding settle
    settle-Past f r v = record {
      issued = v.issued;
      recent = λ h. ground (
        arith,
        v.recent,
        h,
        lookup-insert p r (record (dispatch_of f r) { in_flight = false }) f.dispatches,
      );
      over = λ h. ground (
        arith,
        v.over,
        h,
        lookup-insert p r (record (dispatch_of f r) { in_flight = false }) f.dispatches,
      );
    }

    pub dequeue-Past :
        (f : Fifo C) (r : Text) (rest : List (TokenOp C))
        → Past p attempt f
        → Past p attempt (dequeue f r rest)
    unfolding dequeue
    dequeue-Past f r [] v = record {
      issued = v.issued;
      recent = λ h. ground (arith, lookup-remove p r f.dispatches, h, v.recent);
      over = λ h. ground (arith, lookup-remove p r f.dispatches, h, v.over);
    }
    dequeue-Past f r (op ∷ rest) v = same-Past f _ refl refl v

    pub cleared-Past :
        (f : Fifo C) (r : Text) → Past p attempt f → Past p attempt (clear_stalled f r)
    unfolding clear_stalled
    cleared-Past f r v = same-Past f (clear_stalled f r) (ground arith) (ground arith) v

    pub invalidate-Past :
        (nothing : C) (f : Fifo C) (r : Text)
        → Past p attempt f
        → Past p attempt (invalidate_profile_credential nothing f r)
    unfolding invalidate_profile_credential
    invalidate-Past nothing f r v =
        let b = record f {
          epochs = record (f.epochs) {
            credential_epochs = insert r (suc (credential_epoch f r)) f.epochs.credential_epochs;
          };
        } in
        let w = same-Past f b refl refl v in
        elim (Bool-cases (front_saves (credential_epoch f r) (queue_of f r))) [
          | inl e ↦ rw e (enqueue-Past b r delete [] [] nothing true w)
          | inr e ↦ rw e w
        ]

    pub changed-Past :
        (nothing : C) (f : Fifo C) (r : Text)
        → Past p attempt f
        → Past p attempt (invalidate_for_endpoint_change nothing f r)
    unfolding invalidate_for_endpoint_change
    changed-Past nothing f r v =
        let b = record f {
          epochs = record (f.epochs) {
            endpoint_epochs = insert r (suc (endpoint_epoch f r)) f.epochs.endpoint_epochs;
          };
        } in
        enqueue-Past _ r delete [] [] nothing true
          (invalidate-Past nothing b r (same-Past f b refl refl v))

    pub restore-Past :
        (f : Fifo C) (r endpoint : Text) (k : C)
        → Past p attempt f
        → Past p attempt (restore_read f r endpoint k)
    unfolding restore_read
    restore-Past f r endpoint k v =
        elim (Option-cases (rebind (endpoint_epoch f r) k (queue_of f r))) [
          | inl e ↦
              subst (Past p attempt) (sym (rw (e, restore_read) refl))
                (enqueue-Past f r read [] endpoint k true v)
          | inr (q, e) ↦
              subst (Past p attempt) (sym (rw (e, restore_read) refl))
                (same-Past f (record f { queues = insert r q f.queues }) refl refl v)
        ]

    pub retry-Past : (f : Fifo C) (r : Text) → Past p attempt f → Past p attempt (retry_stuck f r)
    unfolding retry_stuck
    retry-Past f r v = elim (Bool-cases (has r f.stalls.stalled)) [
      | inl e ↦ rw e (start_front-Past f r v)
      | inr e ↦ rw e v
    ]
