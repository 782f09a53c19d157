-- ===== src/Session/Fifo/Restores.antt =====
-- `startCredentialRestore`'s read and the cleanup at an endpoint change of
-- src/SessionCoordinator.cpp on the profile's queue.
use arkham_horror_linux.Common.{
  ℕ, suc, ◌≤◌, true, ◌||◌, none, some, List, [], ◌∷◌, Text, text_key, insert, is_empty, ◌≡◌, ◌≢◌,
  refl, arith, lookup-insert, Option-cases, Bool-cases, inl, inr, sym, subst, ◌∙◌,
}
use arkham_horror_linux.Session.Fifo.{
  read, delete, TokenOp, Fifo, queue_of, endpoint_epoch, enqueue_token_op,
  invalidate_profile_credential, invalidate_for_endpoint_change, rebind, restore_read, eligible,
}
use arkham_horror_linux.Session.Fifo.Invariant.{
  Local, local, Ascends, HeadIs, HeadDeletes, Covered, Sound, Good, has_delete,
}
use arkham_horror_linux.Session.Fifo.Enqueues.{
  enqueue-other, enqueue-next, enqueue-Good, enqueue-Sound,
}
use arkham_horror_linux.Session.Fifo.Invalidates.{
  invalidate-Good, invalidate-Sound, invalidate-other, invalidate-next-le,
}

module _ {C : Type 0} (epoch : ℕ) (k : C) where
  -- What a queue shows but for its continuations.
  pub record Alike (q r : List (TokenOp C)) : Type 0 where
    pub ascends : (low high : ℕ) → Ascends low high q → Ascends low high r
    pub head_is : (id : ℕ) → HeadIs id q → HeadIs id r
    pub covered : (e : ℕ) → Covered e q → Covered e r
    pub deletes : has_delete r ≡ has_delete q
    pub head_deletes : HeadDeletes q → HeadDeletes r
    pub empty : is_empty r ≡ is_empty q

  rebound :
      (op : TokenOp C) (rest : List (TokenOp C))
      → Alike (op ∷ rest) (record op { on_complete = k } ∷ rest)
  rebound op rest = record {
    ascends = λ low high a. a;
    head_is = λ id h. h;
    covered = λ e c. c;
    deletes = refl;
    head_deletes = λ h. h;
    empty = refl;
  }

  behind : (op : TokenOp C) (q r : List (TokenOp C)) → Alike q r → Alike (op ∷ q) (op ∷ r)
  behind op q r l = record {
    ascends = λ low high a. (a.0, a.1, l.ascends (suc op.op_id) high a.2);
    head_is = λ id h. h;
    covered = λ e c h. l.deletes ∙ c h;
    deletes = ground (arith, l.deletes);
    head_deletes = λ h. h;
    empty = refl;
  }

  rebind-Alike : (q r : List (TokenOp C)) → rebind epoch k q ≡ some r → Alike q r
  unfolding rebind
  rebind-Alike [] r e = absurd (ground (arith, e))
  rebind-Alike (op ∷ q) r e = elim (Bool-cases (eligible epoch op)) [
    | inl h ↦ subst (Alike (op ∷ q)) (ground (arith, e, h)) (rebound op q)
    | inr h ↦ elim (Option-cases (rebind epoch k q)) [
      | inl g ↦ absurd (ground (arith, e, g, h))
      | inr (t, g) ↦
          subst (Alike (op ∷ q)) (ground (arith, e, g, h)) (behind op q t (rebind-Alike q t g))
    ]
  ]

module _ {C : Type 0} (f : Fifo C) (p : Text) where
  abbrev replaced : List (TokenOp C) → Fifo C
  replaced r = record f { queues = insert p r f.queues }

  replaced-local :
      (r : List (TokenOp C)) → local (replaced r) p ≡ (record (local f p) { queue = r })
  replaced-local r = ground (arith, lookup-insert p p r f.queues)

  replaced-Sound :
      (r : List (TokenOp C)) (next epoch : ℕ) (k : C)
      → Alike epoch k (queue_of f p) r
      → Sound (local f p) next
      → Sound (local (replaced r) p) next
  replaced-Sound r next epoch k a v = rw (replaced-local r) (record {
    ascends = a.ascends 0 next v.ascends;
    matches = λ h. a.head_is _ (v.matches h);
    covered = λ h. a.covered _ (v.covered h);
    blocks = λ h. a.head_deletes (v.blocks h);
    lists = v.lists;
    lists_once = v.lists_once;
  })

  replaced-Good :
      (r : List (TokenOp C)) (next epoch : ℕ) (k : C)
      → Alike epoch k (queue_of f p) r
      → Good (local f p) next
      → Good (local (replaced r) p) next
  replaced-Good r next epoch k a v = record {
    sound = replaced-Sound r next epoch k a v.sound;
    progress =
        subst (λ (l : Local C). (is_empty l.queue || (l.dispatch.in_flight || l.blocked)) ≡ true)
          (sym (replaced-local r)) (ground (arith, a.empty, v.progress));
  }

  restore_read_new :
      (endpoint : Text) (k : C)
      → rebind (endpoint_epoch f p) k (queue_of f p) ≡ none
      → restore_read f p endpoint k ≡ enqueue_token_op f p read [] endpoint k true
  unfolding restore_read
  restore_read_new endpoint k e = rw (e, restore_read) refl

  restore_read_rebinds :
      (endpoint : Text) (k : C) (r : List (TokenOp C))
      → rebind (endpoint_epoch f p) k (queue_of f p) ≡ some r
      → restore_read f p endpoint k ≡ replaced r
  unfolding restore_read
  restore_read_rebinds endpoint k r e = rw (e, restore_read) refl

  pub restore_read-Sound :
      (endpoint : Text) (k : C)
      → Sound (local f p) f.next_op_id
      → Sound (local (restore_read f p endpoint k) p) (restore_read f p endpoint k).next_op_id
  restore_read-Sound endpoint k v =
      elim (Option-cases (rebind (endpoint_epoch f p) k (queue_of f p))) [
        | inl e ↦
            rw (restore_read_new endpoint k e, enqueue-next f p read [] endpoint k true)
              (enqueue-Sound f p read [] endpoint k true v)
        | inr (r, e) ↦
            rw (restore_read_rebinds endpoint k r e)
              (replaced-Sound r _ _ k (rebind-Alike _ k (queue_of f p) r e) v)
      ]

  pub restore_read-Good :
      (endpoint : Text) (k : C)
      → Good (local f p) f.next_op_id
      → Good (local (restore_read f p endpoint k) p) (restore_read f p endpoint k).next_op_id
  restore_read-Good endpoint k v =
      elim (Option-cases (rebind (endpoint_epoch f p) k (queue_of f p))) [
        | inl e ↦
            rw (restore_read_new endpoint k e, enqueue-next f p read [] endpoint k true)
              (enqueue-Good f p read [] endpoint k true v)
        | inr (r, e) ↦
            rw (restore_read_rebinds endpoint k r e)
              (replaced-Good r _ _ k (rebind-Alike _ k (queue_of f p) r e) v)
      ]

  pub restore_read-other :
      (endpoint : Text) (k : C) (r : Text)
      → p ≢ r
      → local (restore_read f p endpoint k) r ≡ local f r
  restore_read-other endpoint k r ne =
      elim (Option-cases (rebind (endpoint_epoch f p) k (queue_of f p))) [
        | inl e ↦
            rw (restore_read_new endpoint k e) (enqueue-other f p read [] endpoint k true r ne)
        | inr (q, e) ↦
            rw (restore_read_rebinds endpoint k q e) (ground (arith, lookup-insert r p q f.queues))
      ]

  pub restore_read-next-le :
      (endpoint : Text) (k : C) → f.next_op_id ≤ (restore_read f p endpoint k).next_op_id
  restore_read-next-le endpoint k =
      elim (Option-cases (rebind (endpoint_epoch f p) k (queue_of f p))) [
        | inl e ↦
            rw (restore_read_new endpoint k e, enqueue-next f p read [] endpoint k true)
              (omega arith)
        | inr (q, e) ↦ rw (restore_read_rebinds endpoint k q e) (omega arith)
      ]

module _ {C : Type 0} (nothing : C) (f : Fifo C) (p : Text) where
  abbrev moved : Fifo C
  moved = record f {
    epochs = record (f.epochs) {
      endpoint_epochs = insert p (suc (endpoint_epoch f p)) f.epochs.endpoint_epochs;
    };
  }

  abbrev withdrawn : Fifo C
  withdrawn = invalidate_profile_credential nothing moved p

  abbrev changed : Fifo C
  changed = invalidate_for_endpoint_change nothing f p

  pub endpoint_change-Sound :
      Sound (local f p) f.next_op_id → Sound (local changed p) changed.next_op_id
  unfolding invalidate_for_endpoint_change
  endpoint_change-Sound v =
      rw (enqueue-next withdrawn p delete [] [] nothing true)
        (enqueue-Sound withdrawn p delete [] [] nothing true (invalidate-Sound nothing moved p v))

  pub endpoint_change-Good :
      Good (local f p) f.next_op_id → Good (local changed p) changed.next_op_id
  unfolding invalidate_for_endpoint_change
  endpoint_change-Good v =
      rw (enqueue-next withdrawn p delete [] [] nothing true)
        (enqueue-Good withdrawn p delete [] [] nothing true (invalidate-Good nothing moved p v))

  pub endpoint_change-other : (r : Text) → p ≢ r → local changed r ≡ local f r
  unfolding invalidate_for_endpoint_change
  endpoint_change-other r ne =
      enqueue-other withdrawn p delete [] [] nothing true r ne
      ∙ invalidate-other nothing moved p r ne

  pub endpoint_change-next-le : f.next_op_id ≤ changed.next_op_id
  unfolding invalidate_for_endpoint_change
  endpoint_change-next-le =
      rw (enqueue-next withdrawn p delete [] [] nothing true)
        (omega (arith, invalidate-next-le nothing moved p))
