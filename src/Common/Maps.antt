-- ===== src/Common/Maps.antt =====
-- `QHash` and `QMap` as association lists, the entry last written first. `insert` replaces, so a
-- key stands at most once in a list that the operations build.
use mathlib.Core.Path.{◌≡◌, refl}
use mathlib.Core.Logic.{ite}
use mathlib.Core.Bool.{Bool, true, false}
use mathlib.Core.List.{List, [], ◌∷◌}
use mathlib.Core.Option.{Option, none, some}
use native.Mathlib.Omega.{arith}
use native.Mathlib.Decide.{ℕ_discrete}
use arkham_horror_linux.Common.Lists.{Text}
use Prim.Native.Nat.{ℕ}

pub record Key {ℓ} (K : Type ℓ) : Type ℓ where
  pub dec : Discrete K

unfoldable pub text_discrete : Discrete Text
unfolding ℕ_discrete
text_discrete = hlevel ℕ_discrete

instance abbrev pub text_key : Key Text
text_key = record { dec = text_discrete }

instance abbrev pub nat_key : Key ℕ
nat_key = record { dec = ℕ_discrete }

infix 4 ◌≟◌
abbrev pub ◌≟◌ {ℓ} : {K : Type ℓ} ⦃d : Key K⦄ (a b : K) → Dec (a ≡ b)
◌≟◌ ⦃d⦄ = d.dec

module _ {ℓ} {K V : Type ℓ} ⦃d : Key K⦄ where
  unfoldable pub lookup : K → List (K × V) → Option V
  lookup k [] = none
  lookup k ((j, v) ∷ m) = ite (j ≟ k) (some v) (lookup k m)

  abbrev pub has : K → List (K × V) → Bool
  has k m = elim (lookup k m) [ none ↦ false | some v ↦ true ]

  abbrev pub value_or : K → List (K × V) → V → V
  value_or k m v = elim (lookup k m) [ none ↦ v | some w ↦ w ]

  unfoldable pub remove : K → List (K × V) → List (K × V)
  remove k [] = []
  remove k ((j, v) ∷ m) = ite (j ≟ k) (remove k m) ((j, v) ∷ remove k m)

  unfoldable pub insert : K → V → List (K × V) → List (K × V)
  unfolding remove
  insert k v m = (k, v) ∷ remove k m

  pub lookup-remove :
      (j k : K) (m : List (K × V)) → lookup j (remove k m) ≡ ite (k ≟ j) none (lookup j m)
  unfolding lookup remove
  lookup-remove j k [] = ground arith
  lookup-remove j k ((i, v) ∷ m) = ground (arith, lookup-remove j k m)

  pub lookup-insert :
      (j k : K) (v : V) (m : List (K × V))
      → lookup j (insert k v m) ≡ ite (k ≟ j) (some v) (lookup j m)
  unfolding lookup insert
  lookup-insert j k v m = ground (arith, lookup-remove j k m)

  pub remove-remove : (k : K) (m : List (K × V)) → remove k (remove k m) ≡ remove k m
  unfolding remove
  remove-remove k [] = refl
  remove-remove k ((i, v) ∷ m) = ground (arith, remove-remove k m)

  pub insert-insert :
      (k : K) (v w : V) (m : List (K × V)) → insert k w (insert k v m) ≡ insert k w m
  unfolding insert remove
  insert-insert k v w m = ground (arith, remove-remove k m)

pub ruleset map_laws = (lookup-remove, lookup-insert)

module _ {ℓ} {K V : Type ℓ} ⦃d : Key K⦄ where
  -- Each key stands once.
  abbrev pub Unique : List (K × V) → Type ℓ
  Unique [] = Unit
  Unique ((k, v) ∷ m) = (lookup k m ≡ none) × Unique m

  pub remove_absent : (k : K) (m : List (K × V)) → lookup k m ≡ none → remove k m ≡ m
  unfolding lookup remove
  remove_absent k [] h = refl
  remove_absent k ((i, v) ∷ m) h = ground (arith, remove_absent k m)

  pub remove-Unique : (k : K) (m : List (K × V)) → Unique m → Unique (remove k m)
  unfolding remove
  remove-Unique k [] u = tt
  remove-Unique k ((i, v) ∷ m) u = ground (arith, remove-Unique k m u.1, lookup-remove i k m)

  pub insert-Unique : (k : K) (v : V) (m : List (K × V)) → Unique m → Unique (insert k v m)
  unfolding insert
  insert-Unique k v m u = ground (arith, lookup-remove k k m, remove-Unique k m u)
