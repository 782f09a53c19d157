-- ===== src/Session/Fifo/Completes.antt =====
-- Completions, retries and invalidations of src/SessionCoordinator.cpp on the profile's queue.
use mathlib.Core.Bool.{false≢true}
use arkham_horror_linux.Common.{
  ℕ, suc, ite, true, false, some, List, [], ◌∷◌, ◌++◌, Text, ◌≟◌, text_key, has, ◌≡◌, ◌≢◌, refl,
  arith, lookup-insert, lookup-remove, Bool-cases, inl, inr, sym, subst, ◌∙◌,
}
use arkham_horror_linux.Session.Fifo.{
  TokenOp, Fifo, is_delete, contains, remove_one, queue_of, dispatch_of, accept, complete_failed,
  complete_done, settle, dequeue, mark_stalled, clear_stalled, retry_stuck,
}
use arkham_horror_linux.Session.Fifo.Invariant.{
  local, Ascends, HeadDeletes, Sound, Good, Ascends-widen,
}
use arkham_horror_linux.Session.Fifo.Starts.{start_front-Good, start_front-other, start_front-next}

contains-concat :
    (p x : Text) (xs : List Text) → contains p (xs ++ x ∷ []) ≡ ite (x ≟ p) true (contains p xs)
unfolding contains
contains-concat p x [] = refl
contains-concat p x (y ∷ xs) = ground (arith, contains-concat p x xs)

remove_one-concat :
    (p : Text) (xs : List Text) → contains p xs ≡ false → remove_one p (xs ++ p ∷ []) ≡ xs
unfolding contains remove_one
remove_one-concat p [] h = ground arith
remove_one-concat p (y ∷ xs) h = ground (arith, remove_one-concat p xs)

remove_one-absent : (p : Text) (xs : List Text) → contains p xs ≡ false → remove_one p xs ≡ xs
unfolding contains remove_one
remove_one-absent p [] h = refl
remove_one-absent p (y ∷ xs) h = ground (arith, remove_one-absent p xs)

contains-remove_one_ne :
    (p r : Text) (xs : List Text) → p ≢ r → contains r (remove_one p xs) ≡ contains r xs
unfolding contains remove_one
contains-remove_one_ne p r [] ne = refl
contains-remove_one_ne p r (y ∷ xs) ne = ground (arith, contains-remove_one_ne p r xs ne)

remove_one_comm :
    (p r : Text) (xs : List Text) → remove_one r (remove_one p xs) ≡ remove_one p (remove_one r xs)
unfolding remove_one
remove_one_comm p r [] = refl
remove_one_comm p r (y ∷ xs) = ground (arith, remove_one_comm p r xs)

remove_one-concat_ne :
    (p r : Text) (xs : List Text)
    → p ≢ r
    → contains r (remove_one r (xs ++ p ∷ [])) ≡ contains r (remove_one r xs)
unfolding contains remove_one
remove_one-concat_ne p r [] ne = ground arith
remove_one-concat_ne p r (y ∷ xs) ne =
    ground (arith, remove_one-concat_ne p r xs ne, contains-concat r p xs)

module _ {C : Type 0} (f : Fifo C) (p : Text) where
  settle-local :
      local (settle f p) p
      ≡ (record (local f p) { dispatch = record (dispatch_of f p) { in_flight = false } })
  unfolding settle
  settle-local =
      ground
        (arith, lookup-insert p p (record (dispatch_of f p) { in_flight = false }) f.dispatches)

  settle-other : (r : Text) → p ≢ r → local (settle f p) r ≡ local f r
  unfolding settle
  settle-other r ne =
      ground
        (arith, lookup-insert r p (record (dispatch_of f p) { in_flight = false }) f.dispatches)

  dequeue-queue : (rest : List (TokenOp C)) → (local (dequeue f p rest) p).queue ≡ rest
  unfolding dequeue
  dequeue-queue [] = ground (arith, lookup-remove p p f.queues)
  dequeue-queue (op ∷ rest) = ground (arith, lookup-insert p p (op ∷ rest) f.queues)

  dequeue-idle :
      (rest : List (TokenOp C))
      → (dispatch_of f p).in_flight ≡ false
      → (local (dequeue f p rest) p).dispatch.in_flight ≡ false
  unfolding dequeue
  dequeue-idle [] h = ground (arith, lookup-remove p p f.dispatches)
  dequeue-idle (op ∷ rest) h = h

  dequeue-other :
      (rest : List (TokenOp C)) (r : Text) → p ≢ r → local (dequeue f p rest) r ≡ local f r
  unfolding dequeue
  dequeue-other [] r ne = ground (arith, lookup-remove r p f.queues, lookup-remove r p f.dispatches)
  dequeue-other (op ∷ rest) r ne = ground (arith, lookup-insert r p (op ∷ rest) f.queues)

  mark_stalled-local :
      (d : Text)
      → (local f p).listed ≡ (local f p).blocked
      → (local f p).listed_twice ≡ false
      → local (mark_stalled f p d) p
        ≡ (record (local f p) { blocked = true; listed = true; listed_twice = false })
  unfolding mark_stalled
  mark_stalled-local d l o = ground (
    arith,
    lookup-insert p p d f.stalls.stalled,
    contains-concat p p f.stalls.stalled_order,
    remove_one-concat p f.stalls.stalled_order,
  )

  mark_stalled-other : (d : Text) (r : Text) → p ≢ r → local (mark_stalled f p d) r ≡ local f r
  unfolding mark_stalled
  mark_stalled-other d r ne = ground (
    arith,
    lookup-insert r p d f.stalls.stalled,
    contains-concat r p f.stalls.stalled_order,
    remove_one-concat_ne p r f.stalls.stalled_order ne,
  )

  clear_stalled-local :
      (local f p).listed ≡ (local f p).blocked
      → (local f p).listed_twice ≡ false
      → local (clear_stalled f p) p
        ≡ (record (local f p) { blocked = false; listed = false; listed_twice = false })
  unfolding clear_stalled
  clear_stalled-local l o = ground (
    arith,
    lookup-remove p p f.stalls.stalled,
    remove_one-absent p (remove_one p f.stalls.stalled_order),
  )

  clear_stalled-other : (r : Text) → p ≢ r → local (clear_stalled f p) r ≡ local f r
  unfolding clear_stalled
  clear_stalled-other r ne = ground (
    arith,
    lookup-remove r p f.stalls.stalled,
    contains-remove_one_ne p r f.stalls.stalled_order ne,
    remove_one_comm p r f.stalls.stalled_order,
    contains-remove_one_ne p r (remove_one r f.stalls.stalled_order) ne,
  )

  pub accept_inv :
      (op attempt : ℕ) (head : TokenOp C) (rest : List (TokenOp C))
      → accept f p op attempt ≡ some (head, rest)
      → (queue_of f p ≡ head ∷ rest)
        × ((dispatch_of f p).in_flight ≡ true)
        × ((dispatch_of f p).attempt_id ≡ attempt)
        × (head.op_id ≡ op)
  unfolding accept
  accept_inv op attempt head rest e = (ground arith, ground arith, ground arith, ground arith)

  dequeue-kept :
      (rest : List (TokenOp C))
      → ((local (dequeue f p rest) p).blocked ≡ (local f p).blocked)
        × ((local (dequeue f p rest) p).listed ≡ (local f p).listed)
        × ((local (dequeue f p rest) p).listed_twice ≡ (local f p).listed_twice)
  unfolding dequeue
  dequeue-kept rest = (ground arith, ground arith, ground arith)

module _ {C : Type 0} (f : Fifo C) (p : Text) where
  settle-idle : (dispatch_of (settle f p) p).in_flight ≡ false
  unfolding settle
  settle-idle =
      ground
        (arith, lookup-insert p p (record (dispatch_of f p) { in_flight = false }) f.dispatches)

  -- The head is gone, and nothing is in flight until the next front is started.
  pub complete_done-Sound :
      (head : TokenOp C) (rest : List (TokenOp C)) (next : ℕ)
      → queue_of f p ≡ head ∷ rest
      → Sound (local f p) next
      → Sound (local (complete_done f p rest) p) next
  unfolding complete_done settle
  complete_done-Sound head rest next e v =
      let k = dequeue-kept (settle f p) p rest in
      let a = rw e at v.ascends in
      let still = dequeue-idle (settle f p) p rest settle-idle in
      subst (λ l. Sound l next)
        (sym (
          clear_stalled-local (dequeue (settle f p) p rest) p (k.1 ∙ v.lists ∙ sym k.0)
            (k.2 ∙ v.lists_once)))
        (record {
          ascends =
              subst (Ascends 0 next) (sym (dequeue-queue (settle f p) p rest))
                (Ascends-widen rest (suc head.op_id) next 0 next (omega arith) (omega arith) a.2);
          matches = λ h. absurd (false≢true (sym still ∙ h));
          covered = λ h. absurd (false≢true (sym still ∙ h));
          blocks = λ h. absurd (false≢true h);
          lists = refl;
          lists_once = refl;
        })

  pub complete_done-queue : (rest : List (TokenOp C)) → queue_of (complete_done f p rest) p ≡ rest
  unfolding complete_done clear_stalled
  complete_done-queue rest = ground (arith, dequeue-queue (settle f p) p rest)

  pub complete_done-other :
      (rest : List (TokenOp C)) (r : Text) → p ≢ r → local (complete_done f p rest) r ≡ local f r
  unfolding complete_done
  complete_done-other rest r ne =
      clear_stalled-other (dequeue (settle f p) p rest) p r ne
      ∙ dequeue-other (settle f p) p rest r ne
      ∙ settle-other f p r ne

  pub complete_failed-Good :
      (d : Text) (head : TokenOp C) (rest : List (TokenOp C)) (next : ℕ)
      → queue_of f p ≡ head ∷ rest
      → is_delete head.kind ≡ true
      → Sound (local f p) next
      → Good (local (complete_failed f p d) p) next
  unfolding complete_failed settle
  complete_failed-Good d head rest next e del v =
      subst (λ l. Good l next) (sym (mark_stalled-local (settle f p) p d v.lists v.lists_once))
        (record {
          sound = record {
            ascends = v.ascends;
            matches = λ h. absurd (false≢true (sym settle-idle ∙ h));
            covered = λ h. absurd (false≢true (sym settle-idle ∙ h));
            blocks = λ _. subst HeadDeletes (sym e) del;
            lists = refl;
            lists_once = refl;
          };
          progress = ground arith;
        })

  pub complete_failed-other :
      (d : Text) (r : Text) → p ≢ r → local (complete_failed f p d) r ≡ local f r
  unfolding complete_failed
  complete_failed-other d r ne = mark_stalled-other (settle f p) p d r ne ∙ settle-other f p r ne

  pub complete_done-next :
      (rest : List (TokenOp C)) → (complete_done f p rest).next_op_id ≡ f.next_op_id
  unfolding complete_done clear_stalled dequeue settle
  complete_done-next rest = ground arith

  pub complete_failed-next : (d : Text) → (complete_failed f p d).next_op_id ≡ f.next_op_id
  unfolding complete_failed mark_stalled settle
  complete_failed-next d = refl

  pub retry_stuck-Good : (next : ℕ) → Good (local f p) next → Good (local (retry_stuck f p) p) next
  unfolding retry_stuck
  retry_stuck-Good next v = elim (Bool-cases (has p f.stalls.stalled)) [
    | inl e ↦ rw e (start_front-Good f p next v.sound)
    | inr e ↦ rw e v
  ]

  pub retry_stuck-Sound :
      (next : ℕ) → Sound (local f p) next → Sound (local (retry_stuck f p) p) next
  unfolding retry_stuck
  retry_stuck-Sound next v = elim (Bool-cases (has p f.stalls.stalled)) [
    | inl e ↦ rw e (start_front-Good f p next v).sound
    | inr e ↦ rw e v
  ]

  pub retry_stuck-other : (r : Text) → p ≢ r → local (retry_stuck f p) r ≡ local f r
  unfolding retry_stuck
  retry_stuck-other r ne = ground (arith, start_front-other f p r ne)

  pub retry_stuck-next : (retry_stuck f p).next_op_id ≡ f.next_op_id
  unfolding retry_stuck
  retry_stuck-next = ground (arith, start_front-next f p)
