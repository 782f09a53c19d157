-- ===== src/Session/Fifo/System/Reachable.antt =====
-- The invariant of the queues of src/SessionCoordinator.cpp over every history.
use arkham_horror_linux.Common.{
  ℕ, ◌≤◌, true, List, [], ◌∷◌, Text, ◌≟◌, text_key, lookup, is_empty, ◌≡◌, ◌≢◌, refl, arith,
  Option-cases, Bool-cases, inl, inr, sym, subst, ◌∙◌,
}
use arkham_horror_linux.Session.Fifo.{
  TokenOpKind, delete, TokenOp, Fifo, contains, remove_one, is_delete, queue_of, accept,
  complete_failed, complete_done, start_front_token_op,
}
use arkham_horror_linux.Session.Fifo.Invariant.{Local, local, Sound, Good, Ascends-widen}
use arkham_horror_linux.Session.Fifo.Starts.{start_front-Good, start_front-other, start_front-next}
use arkham_horror_linux.Session.Fifo.Enqueues.{
  enqueue-other, enqueue-next, enqueue-Good, enqueue-Sound,
}
use arkham_horror_linux.Session.Fifo.Completes.{
  accept_inv, complete_done-Sound, complete_done-queue, complete_done-other, complete_done-next,
  complete_failed-Good, complete_failed-other, complete_failed-next, retry_stuck-Good,
  retry_stuck-Sound, retry_stuck-other, retry_stuck-next,
}
use arkham_horror_linux.Session.Fifo.Invalidates.{
  invalidate-Good, invalidate-Sound, invalidate-other, invalidate-next-le,
}
use arkham_horror_linux.Session.Fifo.Restores.{
  restore_read-Good, restore_read-Sound, restore_read-other, restore_read-next-le,
  endpoint_change-Good, endpoint_change-Sound, endpoint_change-other, endpoint_change-next-le,
}
use arkham_horror_linux.Session.Fifo.System.{
  TokenStoreOutcome, Action, enqueue, restore, invalidate, endpoint_changed, retry, Event, act_on,
  completed, deletion_failed, stall_diagnostic, empty, act, act_all, front_if, on_result, step, run,
}

module _ {C : Type 0} where
  abbrev pub target : Action C → Text
  target (enqueue p kind token endpoint k eligible) = p
  target (restore p endpoint k) = p
  target (invalidate p) = p
  target (endpoint_changed p) = p
  target (retry p) = p

  Sound-widen : (l : Local C) (n m : ℕ) → n ≤ m → Sound l n → Sound l m
  Sound-widen l n m h v = record {
    ascends = Ascends-widen l.queue 0 n 0 m (omega arith) h v.ascends;
    matches = v.matches;
    covered = v.covered;
    blocks = v.blocks;
    lists = v.lists;
    lists_once = v.lists_once;
  }

  Good-widen : (l : Local C) (n m : ℕ) → n ≤ m → Good l n → Good l m
  Good-widen l n m h v = record { sound = Sound-widen l n m h v.sound; progress = v.progress }

module _ {C : Type 0} (nothing : C) where
  act-next-le : (f : Fifo C) (a : Action C) → f.next_op_id ≤ (act nothing f a).next_op_id
  unfolding act
  act-next-le f (enqueue p kind token endpoint k eligible) =
      omega (arith, enqueue-next f p kind token endpoint k eligible)
  act-next-le f (restore p endpoint k) = restore_read-next-le f p endpoint k
  act-next-le f (invalidate p) = invalidate-next-le nothing f p
  act-next-le f (endpoint_changed p) = endpoint_change-next-le nothing f p
  act-next-le f (retry p) = omega (arith, retry_stuck-next f p)

  act-other :
      (f : Fifo C) (a : Action C) (r : Text) → target a ≢ r → local (act nothing f a) r ≡ local f r
  unfolding act
  act-other f (enqueue p kind token endpoint k eligible) r ne =
      enqueue-other f p kind token endpoint k eligible r ne
  act-other f (restore p endpoint k) r ne = restore_read-other f p endpoint k r ne
  act-other f (invalidate p) r ne = invalidate-other nothing f p r ne
  act-other f (endpoint_changed p) r ne = endpoint_change-other nothing f p r ne
  act-other f (retry p) r ne = retry_stuck-other f p r ne

  act-target-Sound :
      (f : Fifo C) (a : Action C)
      → Sound (local f (target a)) f.next_op_id
      → Sound (local (act nothing f a) (target a)) (act nothing f a).next_op_id
  unfolding act
  act-target-Sound f (enqueue p kind token endpoint k eligible) v =
      rw (enqueue-next f p kind token endpoint k eligible)
        (enqueue-Sound f p kind token endpoint k eligible v)
  act-target-Sound f (restore p endpoint k) v = restore_read-Sound f p endpoint k v
  act-target-Sound f (invalidate p) v = invalidate-Sound nothing f p v
  act-target-Sound f (endpoint_changed p) v = endpoint_change-Sound nothing f p v
  act-target-Sound f (retry p) v = rw (retry_stuck-next f p) (retry_stuck-Sound f p _ v)

  act-target-Good :
      (f : Fifo C) (a : Action C)
      → Good (local f (target a)) f.next_op_id
      → Good (local (act nothing f a) (target a)) (act nothing f a).next_op_id
  unfolding act
  act-target-Good f (enqueue p kind token endpoint k eligible) v =
      rw (enqueue-next f p kind token endpoint k eligible)
        (enqueue-Good f p kind token endpoint k eligible v)
  act-target-Good f (restore p endpoint k) v = restore_read-Good f p endpoint k v
  act-target-Good f (invalidate p) v = invalidate-Good nothing f p v
  act-target-Good f (endpoint_changed p) v = endpoint_change-Good nothing f p v
  act-target-Good f (retry p) v = rw (retry_stuck-next f p) (retry_stuck-Good f p _ v)

  -- `AllGood f`: every profile's queue is in order; `GoodBut p f`: that of `p` may have to be
  -- started.
  abbrev AllGood : Fifo C → Type 0
  AllGood f = (r : Text) → Good (local f r) f.next_op_id

  record GoodBut (p : Text) (f : Fifo C) : Type 0 where
    sound : Sound (local f p) f.next_op_id
    others : (r : Text) → p ≢ r → Good (local f r) f.next_op_id

  act-AllGood : (f : Fifo C) (a : Action C) → AllGood f → AllGood (act nothing f a)
  act-AllGood f a g r = elim (target a ≟ r) [
    | yes e ↦
        subst (λ x. Good (local (act nothing f a) x) (act nothing f a).next_op_id) e
          (act-target-Good f a (g (target a)))
    | no ne ↦ rw (act-other f a r ne) (Good-widen (local f r) _ _ (act-next-le f a) (g r))
  ]

  act-GoodBut : (p : Text) (f : Fifo C) (a : Action C) → GoodBut p f → GoodBut p (act nothing f a)
  act-GoodBut p f a g = record {
    sound = elim (target a ≟ p) [
      | yes e ↦
          subst (λ x. Sound (local (act nothing f a) x) (act nothing f a).next_op_id) e
            (act-target-Sound f a (subst (λ x. Sound (local f x) f.next_op_id) (sym e) g.sound))
      | no ne ↦ rw (act-other f a p ne) (Sound-widen (local f p) _ _ (act-next-le f a) g.sound)
    ];
    others = λ r pr. elim (target a ≟ r) [
      | yes e ↦
          subst (λ x. Good (local (act nothing f a) x) (act nothing f a).next_op_id) e
            (act-target-Good f a (g.others (target a) (λ h. pr (h ∙ e))))
      | no ne ↦
          rw (act-other f a r ne) (Good-widen (local f r) _ _ (act-next-le f a) (g.others r pr))
    ];
  }

  act_all-AllGood :
      (f : Fifo C) (acts : List (Action C)) → AllGood f → AllGood (act_all nothing f acts)
  unfolding act_all
  act_all-AllGood f [] g = g
  act_all-AllGood f (a ∷ acts) g = act_all-AllGood (act nothing f a) acts (act-AllGood f a g)

  act_all-GoodBut :
      (p : Text) (f : Fifo C) (acts : List (Action C))
      → GoodBut p f
      → GoodBut p (act_all nothing f acts)
  unfolding act_all
  act_all-GoodBut p f [] g = g
  act_all-GoodBut p f (a ∷ acts) g = act_all-GoodBut p (act nothing f a) acts (act-GoodBut p f a g)

  started-AllGood : (p : Text) (f : Fifo C) → GoodBut p f → AllGood (start_front_token_op f p)
  started-AllGood p f g r = rw (start_front-next f p) (elim (p ≟ r) [
    | yes e ↦
        subst (λ x. Good (local (start_front_token_op f p) x) f.next_op_id) e
          (start_front-Good f p _ g.sound)
    | no ne ↦ rw (start_front-other f p r ne) (g.others r ne)
  ])

  finished-GoodBut :
      (f : Fifo C) (p : Text) (head : TokenOp C) (rest : List (TokenOp C))
      → queue_of f p ≡ head ∷ rest
      → AllGood f
      → GoodBut p (complete_done f p rest)
  finished-GoodBut f p head rest e g = rw (complete_done-next f p rest) (record {
    sound = complete_done-Sound f p head rest f.next_op_id e (g p).sound;
    others =
        λ r ne. subst (λ l. Good l f.next_op_id) (sym (complete_done-other f p rest r ne)) (g r);
  })

  emptied-AllGood :
      (f : Fifo C) (p : Text) (head : TokenOp C)
      → queue_of f p ≡ head ∷ []
      → AllGood f
      → AllGood (complete_done f p [])
  emptied-AllGood f p head e g r =
      let b = finished-GoodBut f p head [] e g in
      elim (p ≟ r) [
        | yes h ↦
            subst (λ x. Good (local (complete_done f p []) x) (complete_done f p []).next_op_id) h
              (record { sound = b.sound; progress = ground (arith, complete_done-queue f p []) })
        | no ne ↦ b.others r ne
      ]

  failed-AllGood :
      (f : Fifo C) (p : Text) (head : TokenOp C) (rest : List (TokenOp C)) (d : Text)
      → queue_of f p ≡ head ∷ rest
      → is_delete head.kind ≡ true
      → AllGood f
      → AllGood (complete_failed f p d)
  failed-AllGood f p head rest d e del g r = rw (complete_failed-next f p d) (elim (p ≟ r) [
    | yes h ↦
        subst (λ x. Good (local (complete_failed f p d) x) f.next_op_id) h
          (complete_failed-Good f p d head rest f.next_op_id e del (g p).sound)
    | no ne ↦ rw (complete_failed-other f p d r ne) (g r)
  ])

  finished-AllGood :
      (f : Fifo C) (p : Text) (head : TokenOp C) (rest : List (TokenOp C)) (acts : List (Action C))
      → queue_of f p ≡ head ∷ rest
      → AllGood f
      → AllGood (front_if nothing (is_empty rest) (act_all nothing (complete_done f p rest) acts) p)
  finished-AllGood f p head [] acts e g =
      act_all-AllGood (complete_done f p []) acts (emptied-AllGood f p head e g)
  finished-AllGood f p head (op ∷ rest) acts e g =
      started-AllGood p (act_all nothing (complete_done f p (op ∷ rest)) acts) (
        act_all-GoodBut p (complete_done f p (op ∷ rest)) acts
          (finished-GoodBut f p head (op ∷ rest) e g))

  deletion_failed_only :
      (k : TokenOpKind) (o : TokenStoreOutcome) → deletion_failed k o ≡ true → is_delete k ≡ true
  deletion_failed_only delete o h = refl
  deletion_failed_only TokenOpKind.read o h = h
  deletion_failed_only TokenOpKind.save o h = h

  step-AllGood : (f : Fifo C) (e : Event C) → AllGood f → AllGood (step nothing f e)
  unfolding step on_result
  step-AllGood f (act_on a) g = act-AllGood f a g
  step-AllGood f (completed p op attempt outcome d acts) g =
      elim (Option-cases (accept f p op attempt)) [
        | inl e ↦ rw (e, step) g
        | inr ((head, rest), e) ↦
            let q = (accept_inv f p op attempt head rest e).0 in
            rw (e, step)
              (elim (Bool-cases (deletion_failed head.kind outcome)) [
                | inl h ↦ rw h (
                    act_all-AllGood (complete_failed f p (stall_diagnostic d)) acts (
                      failed-AllGood f p head rest (stall_diagnostic d) q
                        (deletion_failed_only head.kind outcome h) g))
                | inr h ↦ rw h (finished-AllGood f p head rest acts q g)
              ])
      ]

  run-AllGood : (f : Fifo C) (es : List (Event C)) → AllGood f → AllGood (run nothing f es)
  unfolding run
  run-AllGood f [] g = g
  run-AllGood f (e ∷ es) g = run-AllGood (step nothing f e) es (step-AllGood f e g)

  empty-AllGood : AllGood (empty nothing)
  unfolding contains remove_one lookup
  empty-AllGood r = record {
    sound = record {
      ascends = tt;
      matches = λ h. absurd (ground (arith, h));
      covered = λ h. tt;
      blocks = λ h. absurd (ground (arith, h));
      lists = refl;
      lists_once = refl;
    };
    progress = refl;
  }

  -- Whatever calls and callbacks happen, in whatever order, each profile's queue is in order in the
  -- end: its operation numbers rise and are below the next one; the operation in flight is the one
  -- at the head; if that is a save from before the credential was invalidated, a deletion waits
  -- behind it; a stalled profile has a deletion at its head and is listed, once, for a retry, and no
  -- other profile is listed; and a queue with operations is in flight or stalled, so that none is
  -- forgotten.
  pub run-Good :
      (es : List (Event C)) (p : Text)
      → Good (local (run nothing (empty nothing) es) p) (run nothing (empty nothing) es).next_op_id
  run-Good es p = run-AllGood (empty nothing) es empty-AllGood p
