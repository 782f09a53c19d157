-- ===== src/Json/Access.antt =====
-- `Value::makeObject`, `find`, `contains`, `value` and `keys` of src/domain/RawJson.cpp: an object with
-- an index from keys to places.
use arkham_horror_linux.Common.{
  ℕ, zero, suc, ◌+◌, Bool, true, false, Option, none, some, is_some, List, [], ◌∷◌, Text, lookup,
  insert, has, lookup-insert, ◌≟◌, text_key, if◌then◌else◌, Option-cases, ite, ◌≡◌, ◌⊎◌, inl, inr,
  refl, arith, ap, ◌∙◌,
}
use arkham_horror_linux.Json.{Value, Members, undefined, object, no_members, member, seen}

-- The loop of `makeObject`, from a place on. The parser, which takes no key twice, builds the same.
abbrev pub enter : Text → ℕ → List (Text × ℕ) → List (Text × ℕ)
enter k i index = if has k index then index else insert k i index

unfoldable pub index_from : ℕ → Members → List (Text × ℕ) → List (Text × ℕ)
index_from i no_members index = index
index_from i (member k v ms) index = index_from (suc i) ms (enter k i index)

unfoldable pub member_at : ℕ → Members → Option Value
member_at i no_members = none
member_at zero (member k v ms) = some v
member_at (suc i) (member k v ms) = member_at i ms

abbrev pub at_place : Members → Option ℕ → Option Value
at_place ms none = none
at_place ms (some i) = member_at i ms

unfoldable pub find : Value → Text → Option Value
find (object ms) k = at_place ms (lookup k (index_from 0 ms []))
find v k = none

unfoldable pub contains : Value → Text → Bool
contains (object ms) k = has k (index_from 0 ms [])
contains v k = false

unfoldable pub value : Value → Text → Value
value v k = elim (find v k) [ none ↦ undefined | some w ↦ w ]

unfoldable pub member_keys : Members → List Text
member_keys no_members = []
member_keys (member k v ms) = k ∷ member_keys ms

unfoldable pub keys : Value → List Text
keys (object ms) = member_keys ms
keys v = []

-- The member of a key that stands first.
unfoldable pub first_member : Text → Members → Option Value
first_member k no_members = none
first_member k (member j v ms) = ite (j ≟ k) (some v) (first_member k ms)

position : ℕ → Text → Members → Option ℕ
position i k no_members = none
position i k (member j v ms) = ite (j ≟ k) (some i) (position (suc i) k ms)

abbrev or_else : Option ℕ → Option ℕ → Option ℕ
or_else none o = o
or_else (some x) o = some x

lookup-enter :
    (k j : Text) (i : ℕ) (index : List (Text × ℕ))
    → lookup k (enter j i index) ≡ or_else (lookup k index) (ite (j ≟ k) (some i) none)
lookup-enter k j i index = elim (Option-cases (lookup j index)) [
  | inl h ↦ ground (arith, h, lookup-insert k j i index)
  | inr (x, h) ↦ ground (arith, h)
]

lookup-index_from :
    (k : Text) (ms : Members) (i : ℕ) (index : List (Text × ℕ))
    → lookup k (index_from i ms index) ≡ or_else (lookup k index) (position i k ms)
unfolding index_from position
lookup-index_from k no_members i index = ground arith
lookup-index_from k (member j v ms) i index =
    lookup-index_from k ms (suc i) (enter j i index)
    ∙ ap (λ o. or_else o (position (suc i) k ms)) (lookup-enter k j i index)
    ∙ ground arith

index_from-position : (k : Text) (ms : Members) → lookup k (index_from 0 ms []) ≡ position 0 k ms
unfolding lookup
index_from-position k ms = lookup-index_from k ms 0 []

abbrev Stands : Text → Members → ℕ → Type 0
Stands k ms i =
    ((position i k ms ≡ none) × (first_member k ms ≡ none))
    ⊎ ((p : ℕ) × (position i k ms ≡ some (i + p))
        × (member_at p ms ≡ first_member k ms)
        × (is_some (first_member k ms) ≡ true))

position-Stands : (k : Text) (ms : Members) (i : ℕ) → Stands k ms i
unfolding position first_member member_at
position-Stands k no_members i = inl (refl, refl)
position-Stands k (member j v ms) i = elim (j ≟ k) [
  | yes e ↦ inr (0, ground (arith, e), ground (arith, e), ground (arith, e))
  | no n ↦ elim (position-Stands k ms (suc i)) [
    | inl (none_h, gone) ↦ inl (ground (arith, n, none_h), ground (arith, n, gone))
    | inr (p, h, same, there) ↦
        inr (suc p, ground (arith, n, h), ground (arith, n, same), ground (arith, n, there))
  ]
]

seen-member_keys : (k : Text) (ms : Members) → seen k (member_keys ms) ≡ is_some (first_member k ms)
unfolding seen member_keys first_member
seen-member_keys k no_members = refl
seen-member_keys k (member j v ms) = elim (j ≟ k) [
  | yes e ↦ ground (arith, e)
  | no n ↦ ground (arith, n, seen-member_keys k ms)
]

-- Looking up a key of an object gives the member of that key that stands first, if there is one;
-- `contains` says whether there is one, `value` is undefined when there is none, and the key is among
-- `keys` exactly when there is one.
pub find_lem :
    (ms : Members) (k : Text)
    → (find (object ms) k ≡ first_member k ms)
      × (contains (object ms) k ≡ is_some (first_member k ms))
      × (seen k (keys (object ms)) ≡ is_some (first_member k ms))
      × (value (object ms) k ≡ elim (first_member k ms) [ none ↦ undefined | some w ↦ w ])
unfolding find contains value keys
find_lem ms k =
    let placed = index_from-position k ms in
    elim (position-Stands k ms 0) [
      | inl (none_h, gone) ↦
          let nowhere = placed ∙ none_h in
          (
            ground (arith, nowhere, gone),
            ground (arith, nowhere, gone),
            seen-member_keys k ms,
            ground (arith, nowhere, gone),
          )
      | inr (p, h, same, there) ↦
          let at_p : lookup k (index_from 0 ms []) ≡ some p = placed ∙ h ∙ ap some (omega arith) in
          (
            ground (arith, at_p, same),
            ground (arith, at_p, there),
            seen-member_keys k ms,
            ground (arith, at_p, same),
          )
    ]
