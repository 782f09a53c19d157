-- ===== src/Session/Fifo/Invalidates.antt =====
-- The invalidations of src/SessionCoordinator.cpp and the invariant of the queues.
use mathlib.Core.Bool.{false≢true}
use arkham_horror_linux.Common.{
  ℕ, suc, ◌≤◌, true, false, ◌||◌, List, [], ◌∷◌, ◌++◌, Text, text_key, insert, is_empty, ◌≡◌, ◌≢◌,
  refl, arith, lookup-insert, Bool-cases, inl, inr, sym, subst, ap, ◌∙◌,
}
use arkham_horror_linux.Session.Fifo.{
  delete, TokenOp, Fifo, queue_of, credential_epoch, front_saves, enqueue_token_op, new_op,
  appended, invalidate_profile_credential,
}
use arkham_horror_linux.Session.Fifo.Invariant.{
  Local, local, HeadIs, Covered, Sound, Good, has_delete-append, Ascends-concat,
}
use arkham_horror_linux.Session.Fifo.Enqueues.{
  HeadIs-append, HeadDeletes-append, appended-local, appended-other,
}

module _ {C : Type 0} (nothing : C) (f : Fifo C) (p : Text) where
  abbrev bumped : Fifo C
  bumped = record f {
    epochs = record (f.epochs) {
      credential_epochs = insert p (suc (credential_epoch f p)) f.epochs.credential_epochs;
    };
  }

  bumped-local : local bumped p ≡ (record (local f p) { epoch = suc (credential_epoch f p) })
  bumped-local =
      ground (arith, lookup-insert p p (suc (credential_epoch f p)) f.epochs.credential_epochs)

  bumped-other : (r : Text) → p ≢ r → local bumped r ≡ local f r
  bumped-other r ne =
      ground (arith, lookup-insert r p (suc (credential_epoch f p)) f.epochs.credential_epochs)

  -- A head that is not a save of the old epoch, and was covered, is covered still.
  bump-Covered :
      (old : ℕ) (q : List (TokenOp C))
      → front_saves old q ≡ false
      → Covered old q
      → Covered (suc old) q
  bump-Covered old [] h c = tt
  bump-Covered old (op ∷ q) h c = λ e. ground (arith, c)

  abbrev withdrawal : TokenOp C
  withdrawal = new_op bumped p delete [] [] nothing true

  front-Covered :
      (old id : ℕ) (q : List (TokenOp C)) → HeadIs id q → Covered (suc old) (q ++ withdrawal ∷ [])
  front-Covered old id [] h = absurd h
  front-Covered old id (op ∷ q) h = λ e. ground (arith, has_delete-append q (withdrawal ∷ []))

  front-nonempty : (old : ℕ) (q : List (TokenOp C)) → front_saves old q ≡ true → is_empty q ≡ false
  front-nonempty old [] h = absurd (false≢true h)
  front-nonempty old (op ∷ q) h = refl

  quiet-Sound :
      front_saves (credential_epoch f p) (queue_of f p) ≡ false
      → Sound (local f p) f.next_op_id
      → Sound (local bumped p) f.next_op_id
  quiet-Sound e v = rw bumped-local (record {
    ascends = v.ascends;
    matches = v.matches;
    covered = λ h. bump-Covered _ (queue_of f p) e (v.covered h);
    blocks = v.blocks;
    lists = v.lists;
    lists_once = v.lists_once;
  })

  withdrawn-local : local (appended bumped p withdrawal) p ≡ (record (local f p) {
    queue = queue_of f p ++ withdrawal ∷ [];
    epoch = suc (credential_epoch f p);
  })
  withdrawn-local =
      appended-local bumped p withdrawal
      ∙ ap (λ (l : Local C). record l { queue = queue_of f p ++ withdrawal ∷ [] }) bumped-local

  front-Sound :
      Sound (local f p) f.next_op_id
      → Sound (local (appended bumped p withdrawal) p) (suc f.next_op_id)
  front-Sound v = rw withdrawn-local (record {
    ascends = Ascends-concat (queue_of f p) 0 f.next_op_id withdrawal (omega arith) refl v.ascends;
    matches = λ h. HeadIs-append _ (queue_of f p) (withdrawal ∷ []) (v.matches h);
    covered = λ h. front-Covered _ _ (queue_of f p) (v.matches h);
    blocks = λ h. HeadDeletes-append (queue_of f p) (withdrawal ∷ []) (v.blocks h);
    lists = v.lists;
    lists_once = v.lists_once;
  })

  front-Good :
      front_saves (credential_epoch f p) (queue_of f p) ≡ true
      → Good (local f p) f.next_op_id
      → Good (local (appended bumped p withdrawal) p) (suc f.next_op_id)
  front-Good e v = record {
    sound = front-Sound v.sound;
    progress =
        subst (λ (l : Local C). (is_empty l.queue || (l.dispatch.in_flight || l.blocked)) ≡ true)
          (sym withdrawn-local) (ground (arith, v.progress, front-nonempty _ (queue_of f p) e));
  }

  quiet-Good :
      front_saves (credential_epoch f p) (queue_of f p) ≡ false
      → Good (local f p) f.next_op_id
      → Good (local bumped p) f.next_op_id
  quiet-Good e v = record { sound = quiet-Sound e v.sound; progress = v.progress }

  withdraw_appends :
      front_saves (credential_epoch f p) (queue_of f p) ≡ true
      → invalidate_profile_credential nothing f p ≡ appended bumped p withdrawal
  unfolding invalidate_profile_credential enqueue_token_op
  withdraw_appends e = rw (e, front-nonempty _ (queue_of f p) e)

  withdraw_quiet :
      front_saves (credential_epoch f p) (queue_of f p) ≡ false
      → invalidate_profile_credential nothing f p ≡ bumped
  unfolding invalidate_profile_credential
  withdraw_quiet e = rw e

  pub invalidate-Good :
      Good (local f p) f.next_op_id
      → Good
          (local (invalidate_profile_credential nothing f p) p)
          (invalidate_profile_credential nothing f p).next_op_id
  invalidate-Good v = elim (Bool-cases (front_saves (credential_epoch f p) (queue_of f p))) [
    | inl e ↦ rw (withdraw_appends e) (front-Good e v)
    | inr e ↦ rw (withdraw_quiet e) (quiet-Good e v)
  ]

  pub invalidate-Sound :
      Sound (local f p) f.next_op_id
      → Sound
          (local (invalidate_profile_credential nothing f p) p)
          (invalidate_profile_credential nothing f p).next_op_id
  invalidate-Sound v = elim (Bool-cases (front_saves (credential_epoch f p) (queue_of f p))) [
    | inl e ↦ rw (withdraw_appends e) (front-Sound v)
    | inr e ↦ rw (withdraw_quiet e) (quiet-Sound e v)
  ]

  pub invalidate-other :
      (r : Text) → p ≢ r → local (invalidate_profile_credential nothing f p) r ≡ local f r
  invalidate-other r ne = elim (Bool-cases (front_saves (credential_epoch f p) (queue_of f p))) [
    | inl e ↦ rw (withdraw_appends e) (appended-other bumped p withdrawal r ne ∙ bumped-other r ne)
    | inr e ↦ rw (withdraw_quiet e) (bumped-other r ne)
  ]

  pub invalidate-next-le : f.next_op_id ≤ (invalidate_profile_credential nothing f p).next_op_id
  invalidate-next-le = elim (Bool-cases (front_saves (credential_epoch f p) (queue_of f p))) [
    | inl e ↦ rw (withdraw_appends e) (omega arith)
    | inr e ↦ rw (withdraw_quiet e) (omega arith)
  ]
