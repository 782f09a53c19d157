-- ===== src/Session/Fifo/Invariant.antt =====
-- What the queues of src/SessionCoordinator.cpp keep for each profile.
use arkham_horror_linux.Common.{
  ℕ, suc, ◌≤◌, ◌<◌, Bool, true, false, ◌||◌, List, [], ◌∷◌, ◌++◌, Text, text_key, has, is_empty,
  ◌≡◌, refl, arith,
}
use arkham_horror_linux.Session.Fifo.{
  TokenOp, Dispatch, Fifo, is_delete, contains, remove_one, queue_of, dispatch_of, credential_epoch,
  is_stale,
}

-- What the maps hold for one profile.
pub record Local (C : Type 0) : Type 0 where
  pub queue : List (TokenOp C)
  pub dispatch : Dispatch
  pub epoch : ℕ
  pub blocked : Bool
  pub listed : Bool
  pub listed_twice : Bool

module _ {C : Type 0} where
  abbrev pub local : Fifo C → Text → Local C
  local f p = record {
    queue = queue_of f p;
    dispatch = dispatch_of f p;
    epoch = credential_epoch f p;
    blocked = has p f.stalls.stalled;
    listed = contains p f.stalls.stalled_order;
    listed_twice = contains p (remove_one p f.stalls.stalled_order);
  }

  -- Operation numbers rise along the queue, from `low` on and below `high`.
  abbrev pub Ascends : ℕ → ℕ → List (TokenOp C) → Type 0
  Ascends low high [] = Unit
  Ascends low high (op ∷ rest) =
      (low ≤ op.op_id) × (op.op_id < high) × Ascends (suc op.op_id) high rest

  abbrev pub has_delete : List (TokenOp C) → Bool
  has_delete [] = false
  has_delete (op ∷ rest) = is_delete op.kind || has_delete rest

  abbrev pub HeadIs : ℕ → List (TokenOp C) → Type 0
  HeadIs id [] = ⊥
  HeadIs id (op ∷ rest) = op.op_id ≡ id

  abbrev pub HeadDeletes : List (TokenOp C) → Type 0
  HeadDeletes [] = ⊥
  HeadDeletes (op ∷ rest) = is_delete op.kind ≡ true

  abbrev pub Covered : ℕ → List (TokenOp C) → Type 0
  Covered epoch [] = Unit
  Covered epoch (op ∷ rest) = is_stale epoch op ≡ true → has_delete rest ≡ true

  pub record Sound (l : Local C) (next : ℕ) : Type 0 where
    pub ascends : Ascends 0 next l.queue
    pub matches : l.dispatch.in_flight ≡ true → HeadIs l.dispatch.op_id l.queue
    pub covered : l.dispatch.in_flight ≡ true → Covered l.epoch l.queue
    pub blocks : l.blocked ≡ true → HeadDeletes l.queue
    pub lists : l.listed ≡ l.blocked
    pub lists_once : l.listed_twice ≡ false

  pub record Good (l : Local C) (next : ℕ) : Type 0 where
    pub sound : Sound l next
    pub progress : (is_empty l.queue || (l.dispatch.in_flight || l.blocked)) ≡ true

  pub Ascends-widen :
      (q : List (TokenOp C)) (low high low' high' : ℕ)
      → low' ≤ low
      → high ≤ high'
      → Ascends low high q
      → Ascends low' high' q
  Ascends-widen [] low high low' high' h k a = tt
  Ascends-widen (op ∷ q) low high low' high' h k a = (
    omega arith,
    omega arith,
    Ascends-widen q (suc op.op_id) high (suc op.op_id) high' (omega arith) k a.2,
  )

  pub Ascends-concat :
      (q : List (TokenOp C)) (low high : ℕ) (op : TokenOp C)
      → low ≤ high
      → op.op_id ≡ high
      → Ascends low high q
      → Ascends low (suc high) (q ++ op ∷ [])
  Ascends-concat [] low high op h e a = (omega arith, omega arith, tt)
  Ascends-concat (o ∷ q) low high op h e a =
      (a.0, omega arith, Ascends-concat q (suc o.op_id) high op (omega arith) e a.2)

  pub has_delete-append :
      (q r : List (TokenOp C)) → has_delete (q ++ r) ≡ (has_delete q || has_delete r)
  has_delete-append [] r = refl
  has_delete-append (op ∷ q) r = ground (arith, has_delete-append q r)
