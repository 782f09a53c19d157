-- ===== src/Session/Fifo/Starts.antt =====
-- `startFrontTokenOp` and `enqueueTokenOp` of src/SessionCoordinator.cpp on one profile.
use arkham_horror_linux.Common.{
  ℕ, suc, true, false, List, [], ◌∷◌, Text, text_key, is_empty, ◌≡◌, ◌≢◌, refl, arith,
  lookup-insert, lookup-remove, Bool-cases, inl, inr,
}
use arkham_horror_linux.Session.Fifo.{
  TokenOp, Fifo, idle, queue_of, dispatch_of, credential_epoch, is_stale, issue, start_queue,
  start_front_token_op,
}
use arkham_horror_linux.Session.Fifo.Invariant.{
  local, Ascends, HeadDeletes, Sound, Good, Ascends-widen,
}

module _ {C : Type 0} (f : Fifo C) (p : Text) where
  issue-local :
      (op : TokenOp C) (rest : List (TokenOp C))
      → local (issue f p op rest) p ≡ (record (local f p) {
        queue = op ∷ rest;
        dispatch = record { in_flight = true; op_id = op.op_id; attempt_id = f.next_attempt_id };
      })
  unfolding issue
  issue-local op rest = ground (
    arith,
    lookup-insert p p (op ∷ rest) f.queues,
    lookup-insert p p
        (record { in_flight = true; op_id = op.op_id; attempt_id = f.next_attempt_id })
        f.dispatches,
  )

  emptied-local :
      local (start_queue f p []) p ≡ (record (local f p) { queue = []; dispatch = idle })
  unfolding start_queue
  emptied-local = ground (arith, lookup-remove p p f.queues, lookup-remove p p f.dispatches)

  start_queue-next : (q : List (TokenOp C)) → (start_queue f p q).next_op_id ≡ f.next_op_id
  unfolding start_queue issue
  start_queue-next [] = refl
  start_queue-next (op ∷ rest) = ground (arith, start_queue-next rest)

  start_queue-other :
      (q : List (TokenOp C)) (r : Text) → p ≢ r → local (start_queue f p q) r ≡ local f r
  unfolding start_queue issue
  start_queue-other [] r ne =
      ground (arith, lookup-remove r p f.queues, lookup-remove r p f.dispatches)
  start_queue-other (op ∷ rest) r ne = ground (
    arith,
    start_queue-other rest r ne,
    lookup-insert r p (op ∷ rest) f.queues,
    lookup-insert r p
        (record { in_flight = true; op_id = op.op_id; attempt_id = f.next_attempt_id })
        f.dispatches,
  )

  issue-Good :
      (op : TokenOp C) (rest : List (TokenOp C)) (next : ℕ)
      → is_stale (credential_epoch f p) op ≡ false
      → Ascends 0 next (op ∷ rest)
      → ((local f p).blocked ≡ true → HeadDeletes (op ∷ rest))
      → (local f p).listed ≡ (local f p).blocked
      → (local f p).listed_twice ≡ false
      → Good (local (issue f p op rest) p) next
  issue-Good op rest next fresh a b l once = rw (issue-local op rest) (record {
    sound = record {
      ascends = a;
      matches = λ _. refl;
      covered = λ _ h. ground arith;
      blocks = b;
      lists = l;
      lists_once = once;
    };
    progress = refl;
  })

  start_queue-Good :
      (q : List (TokenOp C)) (next : ℕ)
      → Ascends 0 next q
      → ((local f p).blocked ≡ true → HeadDeletes q)
      → (local f p).listed ≡ (local f p).blocked
      → (local f p).listed_twice ≡ false
      → Good (local (start_queue f p q) p) next
  unfolding start_queue
  start_queue-Good [] next a b l once = rw emptied-local (record {
    sound = record {
      ascends = tt;
      matches = λ h. cc;
      covered = λ h. tt;
      blocks = b;
      lists = l;
      lists_once = once;
    };
    progress = refl;
  })
  start_queue-Good (op ∷ rest) next a b l once =
      elim (Bool-cases (is_stale (credential_epoch f p) op)) [
        | inl e ↦ rw e (
            start_queue-Good rest next
              (Ascends-widen rest (suc op.op_id) next 0 next (omega arith) (omega arith) a.2)
              (λ h. ground arith) l once)
        | inr e ↦ rw e (issue-Good op rest next e a b l once)
      ]

  -- From a sound profile its front is started, or was.
  pub start_front-Good :
      (next : ℕ) → Sound (local f p) next → Good (local (start_front_token_op f p) p) next
  unfolding start_front_token_op
  start_front-Good next v = elim (Bool-cases (is_empty (queue_of f p))) [
    | inl e ↦ rw e (record { sound = v; progress = ground arith })
    | inr e ↦ rw e (elim (Bool-cases (dispatch_of f p).in_flight) [
      | inl g ↦ rw g (record { sound = v; progress = ground arith })
      | inr g ↦ rw g (start_queue-Good (queue_of f p) next v.ascends v.blocks v.lists v.lists_once)
    ])
  ]

  pub start_front-other : (r : Text) → p ≢ r → local (start_front_token_op f p) r ≡ local f r
  unfolding start_front_token_op
  start_front-other r ne = ground (arith, start_queue-other (queue_of f p) r ne)

  pub start_front-next : (start_front_token_op f p).next_op_id ≡ f.next_op_id
  unfolding start_front_token_op
  start_front-next = ground (arith, start_queue-next (queue_of f p))
