-- ===== src/Session/Fifo/System/Admissions.antt =====
-- The endpoint epochs at which the operations of src/SessionCoordinator.cpp were admitted.
use arkham_horror_linux.Common.{
  ℕ, ◌≤◌, some, List, [], ◌∷◌, ◌++◌, Text, ◌≟◌, ite, text_key, value_or, insert, remove, ◌≡◌, arith,
  Option-cases, lookup-insert, lookup-remove, Bool-cases, inl, inr, sym, subst,
}
use arkham_horror_linux.Session.Fifo.{TokenOp, Fifo, eligible, queue_of, endpoint_epoch, rebind}

module _ {C : Type 0} where
  -- The operations were admitted at this endpoint epoch or before.
  abbrev pub Admitted : ℕ → List (TokenOp C) → Type 0
  Admitted epoch [] = Unit
  Admitted epoch (op ∷ q) = (op.admission_endpoint_epoch ≤ epoch) × Admitted epoch q

  pub Admitted-widen : (q : List (TokenOp C)) (e e' : ℕ) → e ≤ e' → Admitted e q → Admitted e' q
  Admitted-widen [] e e' h a = tt
  Admitted-widen (op ∷ q) e e' h a = (omega (arith, a.0), Admitted-widen q e e' h a.1)

  pub Admitted-concat :
      (q : List (TokenOp C)) (op : TokenOp C) (e : ℕ)
      → op.admission_endpoint_epoch ≤ e
      → Admitted e q
      → Admitted e (q ++ op ∷ [])
  Admitted-concat [] op e h a = (h, tt)
  Admitted-concat (o ∷ q) op e h a = (a.0, Admitted-concat q op e h a.1)

  pub Admitted-rebind :
      (epoch : ℕ) (k : C) (q r : List (TokenOp C)) (e : ℕ)
      → rebind epoch k q ≡ some r
      → Admitted e q
      → Admitted e r
  unfolding rebind
  Admitted-rebind epoch k [] r e h a = absurd (ground (arith, h))
  Admitted-rebind epoch k (op ∷ q) r e h a = elim (Bool-cases (eligible epoch op)) [
    | inl g ↦
        let w : (record op { on_complete = k } ∷ q) ≡ r = ground (arith, h, g) in
        subst (Admitted e) w (a.0, a.1)
    | inr g ↦ elim (Option-cases (rebind epoch k q)) [
      | inl n ↦ absurd (ground (arith, h, g, n))
      | inr (t, n) ↦
          let w : (op ∷ t) ≡ r = ground (arith, h, g, n) in
          subst (Admitted e) w (a.0, Admitted-rebind epoch k q t e n a.1)
    ]
  ]

  value_or-insert :
      (r p : Text) (q : List (TokenOp C)) (m : List (Text × List (TokenOp C)))
      → value_or r (insert p q m) [] ≡ ite (p ≟ r) q (value_or r m [])
  value_or-insert r p q m = ground (arith, lookup-insert r p q m)

  value_or-remove :
      (r p : Text) (m : List (Text × List (TokenOp C)))
      → value_or r (remove p m) [] ≡ ite (p ≟ r) [] (value_or r m [])
  value_or-remove r p m = ground (arith, lookup-remove r p m)

  ite-Admitted {ℓ} :
      {P : Type ℓ} (d : Dec P) (q r : List (TokenOp C)) (e : ℕ)
      → (P → Admitted e q)
      → Admitted e r
      → Admitted e (ite d q r)
  ite-Admitted (yes h) q r e a b = a h
  ite-Admitted (no h) q r e a b = b

  pub put-Admitted :
      (r p : Text) (e : ℕ) (q : List (TokenOp C)) (m : List (Text × List (TokenOp C)))
      → (p ≡ r → Admitted e q)
      → Admitted e (value_or r m [])
      → Admitted e (value_or r (insert p q m) [])
  put-Admitted r p e q m h a =
      subst (Admitted e) (sym (value_or-insert r p q m))
        (ite-Admitted (p ≟ r) q (value_or r m []) e h a)

  pub drop-Admitted :
      (r p : Text) (e : ℕ) (m : List (Text × List (TokenOp C)))
      → Admitted e (value_or r m [])
      → Admitted e (value_or r (remove p m) [])
  drop-Admitted r p e m a =
      subst (Admitted e) (sym (value_or-remove r p m))
        (ite-Admitted (p ≟ r) [] (value_or r m []) e (λ _. tt) a)

  abbrev pub Current : Fifo C → Text → Type 0
  Current f r = Admitted (endpoint_epoch f r) (queue_of f r)
