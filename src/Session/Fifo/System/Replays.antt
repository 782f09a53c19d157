-- ===== src/Session/Fifo/System/Replays.antt =====
-- Late and repeated callbacks of the store in src/SessionCoordinator.cpp.
use arkham_horror_linux.Common.{
  ℕ, Bool, true, false, none, some, List, [], ◌∷◌, Text, text_key, lookup, is_empty, ◌≡◌, refl,
  arith, Option-cases, lookup-insert, Bool-cases, inl, inr, sym, subst,
}
use arkham_horror_linux.Session.Fifo.{
  TokenOp, Fifo, dispatch_of, accept, settle, mark_stalled, complete_failed, complete_done,
}
use arkham_horror_linux.Session.Fifo.Completes.{accept_inv}
use arkham_horror_linux.Session.Fifo.System.{
  TokenStoreOutcome, Action, enqueue, restore, invalidate, endpoint_changed, retry, Event, act_on,
  completed, deletion_failed, empty, act, act_all, front_if, on_result, step, run,
}
use arkham_horror_linux.Session.Fifo.System.Attempts.{
  Past, over_not, same-Past, start_front-Past, enqueue-Past, settle-Past, dequeue-Past,
  cleared-Past, invalidate-Past, changed-Past, restore-Past, retry-Past,
}

module _ {C : Type 0} where
  module _ (p : Text) (attempt : ℕ) where
    act-Past :
        (nothing : C) (f : Fifo C) (a : Action C)
        → Past p attempt f
        → Past p attempt (act nothing f a)
    unfolding act
    act-Past nothing f (enqueue r kind token endpoint k e) v =
        enqueue-Past p attempt f r kind token endpoint k e v
    act-Past nothing f (restore r endpoint k) v = restore-Past p attempt f r endpoint k v
    act-Past nothing f (invalidate r) v = invalidate-Past p attempt nothing f r v
    act-Past nothing f (endpoint_changed r) v = changed-Past p attempt nothing f r v
    act-Past nothing f (retry r) v = retry-Past p attempt f r v

    act_all-Past :
        (nothing : C) (f : Fifo C) (acts : List (Action C))
        → Past p attempt f
        → Past p attempt (act_all nothing f acts)
    unfolding act_all
    act_all-Past nothing f [] v = v
    act_all-Past nothing f (a ∷ acts) v =
        act_all-Past nothing (act nothing f a) acts (act-Past nothing f a v)

    front_if-Past :
        (nothing : C) (b : Bool) (f : Fifo C) (r : Text)
        → Past p attempt f
        → Past p attempt (front_if nothing b f r)
    front_if-Past nothing true f r v = v
    front_if-Past nothing false f r v = start_front-Past p attempt f r v

    on_result-Past :
        (nothing : C) (f : Fifo C) (r : Text) (head : TokenOp C) (rest : List (TokenOp C))
        (o : TokenStoreOutcome) (d : Text) (acts : List (Action C))
        → Past p attempt (settle f r)
        → Past p attempt (on_result nothing f r head rest o d acts)
    unfolding on_result complete_failed complete_done mark_stalled
    on_result-Past nothing f r head rest o d acts v =
        elim (Bool-cases (deletion_failed head.kind o)) [
          | inl h ↦
              rw h (act_all-Past nothing _ acts (same-Past p attempt (settle f r) _ refl refl v))
          | inr h ↦ rw h (
              front_if-Past nothing (is_empty rest) _ r (
                act_all-Past nothing _ acts
                  (cleared-Past p attempt _ r (dequeue-Past p attempt (settle f r) r rest v))))
        ]

    step-Past :
        (nothing : C) (f : Fifo C) (e : Event C)
        → Past p attempt f
        → Past p attempt (step nothing f e)
    unfolding step
    step-Past nothing f (act_on a) v = act-Past nothing f a v
    step-Past nothing f (completed r op n o d acts) v = elim (Option-cases (accept f r op n)) [
      | inl e ↦ rw (e, step) v
      | inr ((head, rest), e) ↦
          rw (e, step) (on_result-Past nothing f r head rest o d acts (settle-Past p attempt f r v))
    ]

    run-Past :
        (nothing : C) (f : Fifo C) (es : List (Event C))
        → Past p attempt f
        → Past p attempt (run nothing f es)
    unfolding run
    run-Past nothing f [] v = v
    run-Past nothing f (e ∷ es) v = run-Past nothing (step nothing f e) es (step-Past nothing f e v)

    settled-Past :
        (f : Fifo C) (op : ℕ) (head : TokenOp C) (rest : List (TokenOp C))
        → accept f p op attempt ≡ some (head, rest)
        → Past p 0 f
        → Past p attempt (settle f p)
    unfolding settle
    settled-Past f op head rest e v =
        let i = accept_inv f p op attempt head rest e in
        record {
          issued = omega (arith, i.2, v.recent i.1);
          recent = λ h. absurd (
              ground (
                arith,
                h,
                lookup-insert p p (record (dispatch_of f p) { in_flight = false }) f.dispatches,
              ));
          over = λ h. absurd (
              ground (
                arith,
                h,
                lookup-insert p p (record (dispatch_of f p) { in_flight = false }) f.dispatches,
              ));
        }

  empty-Past : (nothing : C) (p : Text) → Past p 0 (empty nothing)
  unfolding lookup
  empty-Past nothing p = record {
    issued = omega arith;
    recent = λ h. absurd (ground (arith, h));
    over = λ h. absurd (ground (arith, h));
  }

  -- A callback of the store is taken at most once: in a state that any events lead to, if the
  -- callback of an attempt is accepted, then after it and after any further events the callback of
  -- that attempt for that profile is not accepted, whatever operation it names.
  pub accepted_once :
      (nothing : C) (before later : List (Event C)) (p : Text) (op attempt : ℕ)
      (o : TokenStoreOutcome) (d : Text) (acts : List (Action C)) (head : TokenOp C)
      (rest : List (TokenOp C))
      → accept (run nothing (empty nothing) before) p op attempt ≡ some (head, rest)
      → (other : ℕ)
      → accept
          (run nothing
            (step nothing (run nothing (empty nothing) before) (completed p op attempt o d acts))
            later)
          p
          other
          attempt
        ≡ none
  unfolding step
  accepted_once nothing before later p op attempt o d acts head rest e other =
      let f = run nothing (empty nothing) before in
      over_not p attempt _
        (run-Past p attempt nothing _ later (
          subst (Past p attempt) (sym (rw (e, step) refl)) (
            on_result-Past p attempt nothing f p head rest o d acts (
              settled-Past p attempt f op head rest e
                (run-Past p 0 nothing (empty nothing) before (empty-Past nothing p))))))
        other
