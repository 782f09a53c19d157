-- ===== src/Session/Fifo/Enqueues.antt =====
-- `enqueueTokenOp` of src/SessionCoordinator.cpp keeps the invariant of every profile's queue.
use arkham_horror_linux.Common.{
  ℕ, suc, Bool, true, false, ◌||◌, List, [], ◌∷◌, ◌++◌, Text, text_key, is_empty, ◌≡◌, ◌≢◌, refl,
  arith, lookup-insert, Bool-cases, inl, inr, sym, subst,
}
use arkham_horror_linux.Session.Fifo.{
  TokenOpKind, TokenOp, Fifo, queue_of, new_op, appended, enqueue_token_op,
}
use arkham_horror_linux.Session.Fifo.Invariant.{
  Local, local, HeadIs, HeadDeletes, Covered, Sound, Good, Ascends-concat, has_delete-append,
}
use arkham_horror_linux.Session.Fifo.Starts.{start_front-Good, start_front-other, start_front-next}

module _ {C : Type 0} where
  pub HeadIs-append : (id : ℕ) (q r : List (TokenOp C)) → HeadIs id q → HeadIs id (q ++ r)
  HeadIs-append id [] r h = absurd h
  HeadIs-append id (op ∷ q) r h = h

  pub HeadDeletes-append : (q r : List (TokenOp C)) → HeadDeletes q → HeadDeletes (q ++ r)
  HeadDeletes-append [] r h = absurd h
  HeadDeletes-append (op ∷ q) r h = h

  Covered-append :
      (epoch id : ℕ) (q r : List (TokenOp C))
      → HeadIs id q
      → Covered epoch q
      → Covered epoch (q ++ r)
  Covered-append epoch id [] r h c = absurd h
  Covered-append epoch id (op ∷ q) r h c = λ e. ground (arith, has_delete-append q r, c e)

module _ {C : Type 0} (f : Fifo C) (p : Text) where
  pub appended-local :
      (op : TokenOp C)
      → local (appended f p op) p ≡ (record (local f p) { queue = queue_of f p ++ op ∷ [] })
  appended-local op = ground (arith, lookup-insert p p (queue_of f p ++ op ∷ []) f.queues)

  pub appended-other : (op : TokenOp C) (r : Text) → p ≢ r → local (appended f p op) r ≡ local f r
  appended-other op r ne = ground (arith, lookup-insert r p (queue_of f p ++ op ∷ []) f.queues)

  appended-Sound :
      (op : TokenOp C)
      → op.op_id ≡ f.next_op_id
      → Sound (local f p) f.next_op_id
      → Sound (local (appended f p op) p) (suc f.next_op_id)
  appended-Sound op e v = rw (appended-local op) (record {
    ascends = Ascends-concat (queue_of f p) 0 f.next_op_id op (omega arith) e v.ascends;
    matches = λ h. HeadIs-append _ (queue_of f p) (op ∷ []) (v.matches h);
    covered = λ h. Covered-append _ _ (queue_of f p) (op ∷ []) (v.matches h) (v.covered h);
    blocks = λ h. HeadDeletes-append (queue_of f p) (op ∷ []) (v.blocks h);
    lists = v.lists;
    lists_once = v.lists_once;
  })

  appended-Good :
      (op : TokenOp C)
      → op.op_id ≡ f.next_op_id
      → is_empty (queue_of f p) ≡ false
      → Good (local f p) f.next_op_id
      → Good (local (appended f p op) p) (suc f.next_op_id)
  appended-Good op e ne v = record {
    sound = appended-Sound op e v.sound;
    progress =
        subst (λ (l : Local C). (is_empty l.queue || (l.dispatch.in_flight || l.blocked)) ≡ true)
          (sym (appended-local op)) (ground (arith, v.progress));
  }

  module _ (kind : TokenOpKind) (token endpoint : Text) (on_complete : C) (eligible : Bool) where
    abbrev enqueued : Fifo C
    enqueued = enqueue_token_op f p kind token endpoint on_complete eligible

    abbrev added : TokenOp C
    added = new_op f p kind token endpoint on_complete eligible

    pub enqueue-next : enqueued.next_op_id ≡ suc f.next_op_id
    unfolding enqueue_token_op
    enqueue-next = ground (arith, start_front-next (appended f p added) p)

    pub enqueue-other : (r : Text) → p ≢ r → local enqueued r ≡ local f r
    unfolding enqueue_token_op
    enqueue-other r ne =
        ground (arith, start_front-other (appended f p added) p r ne, appended-other added r ne)

    pub enqueue-Sound : Sound (local f p) f.next_op_id → Sound (local enqueued p) (suc f.next_op_id)
    unfolding enqueue_token_op
    enqueue-Sound v = elim (Bool-cases (is_empty (queue_of f p))) [
      | inl e ↦ rw e (start_front-Good (appended f p added) p _ (appended-Sound added refl v)).sound
      | inr e ↦ rw e (appended-Sound added refl v)
    ]

    pub enqueue-Good : Good (local f p) f.next_op_id → Good (local enqueued p) (suc f.next_op_id)
    unfolding enqueue_token_op
    enqueue-Good v = elim (Bool-cases (is_empty (queue_of f p))) [
      | inl e ↦ rw e (start_front-Good (appended f p added) p _ (appended-Sound added refl v.sound))
      | inr e ↦ rw e (appended-Good added refl e v)
    ]
