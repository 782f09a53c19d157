-- ===== src/Focus/Navigation/Cycles.antt =====
-- The zones that `cycleZone` of src/FocusController.cpp goes through, in their order.
use native.Mathlib.Nat.{mod-eq_of_lt, add-mod_right}
use arkham_horror_linux.Common.{
  ℕ, zero, suc, ◌+◌, ◌-◌, ◌<◌, Bool, true, false, none, some, Option, List, [], ◌∷◌, ◌≡◌, ◌≢◌, ap,
  inl, inr, ◌⊎◌, Option-cases, arith, subst, Text, text_key, length, get_elem?,
}
use arkham_horror_linux.Focus.{index_of}
use arkham_horror_linux.Focus.Navigation.{zone_index}

-- `index_of` is the position of a zone in a list.
index_of-some : (z : Text) (l : List Text) (i : ℕ) → index_of z l ≡ some i → get_elem? l i ≡ some z
unfolding index_of
index_of-some z [] i e = cc
index_of-some z (x ∷ l) zero e = ground (arith, index_of-some z l zero)
index_of-some z (x ∷ l) (suc i) e = ground (arith, index_of-some z l i)

index_of-none : (z : Text) (l : List Text) → index_of z l ≡ none → (i : ℕ) → get_elem? l i ≢ some z
unfolding index_of
index_of-none z [] e i h = cc
index_of-none z (x ∷ l) e zero h = ground arith
index_of-none z (x ∷ l) e (suc i) h = elim (Option-cases (index_of z l)) [
  | inl f ↦ index_of-none z l f i h
  | inr (j, f) ↦ absurd (ground (arith, e, f))
]

-- The zone `to` is right behind `from`.
abbrev Follows : List Text → Text → Text → Type 0
Follows zones from to =
    (i : ℕ) × (get_elem? zones i ≡ some from) × (get_elem? zones (suc i) ≡ some to)

abbrev Leads : List Text → Text → Type 0
Leads zones z = get_elem? zones 0 ≡ some z

abbrev Ends : List Text → Text → Type 0
Ends zones z = (i : ℕ) × (suc i ≡ length zones) × (get_elem? zones i ≡ some z)

abbrev Stranger : List Text → Text → Type 0
Stranger zones z = (i : ℕ) → get_elem? zones i ≢ some z

-- Forward: the zone behind, or the first one from the last one and from outside the list. Backward:
-- the zone before, or the last one from the first one and from outside.
pub data Cycles (zones : List Text) (from to : Text) : Bool → Type 0 where
  advances : Follows zones from to → Cycles zones from to true
  wraps_forward : Ends zones from → Leads zones to → Cycles zones from to true
  enters_forward : Stranger zones from → Leads zones to → Cycles zones from to true
  retreats : Follows zones to from → Cycles zones from to false
  wraps_backward : Leads zones from → Ends zones to → Cycles zones from to false
  enters_backward : Stranger zones from → Ends zones to → Cycles zones from to false

get_elem?-lt {ℓ} : {A : Type ℓ} (l : List A) (i : ℕ) {x : A} → get_elem? l i ≡ some x → i < length l
get_elem?-lt [] i e = cc
get_elem?-lt (y ∷ l) zero e = omega arith
get_elem?-lt (y ∷ l) (suc i) e = let k = get_elem?-lt l i e in omega arith

zone_index_forward :
    (i n : ℕ)
    → i < n
    → ((suc i < n) × (zone_index true (some i) n ≡ suc i))
      ⊎ ((suc i ≡ n) × (zone_index true (some i) n ≡ 0))
unfolding zone_index
zone_index_forward i n h = grind arith

zone_index_backward : (i n : ℕ) → suc i < n → zone_index false (some (suc i)) n ≡ i
unfolding zone_index
zone_index_backward i n h =
    let shift : suc i + n - 1 ≡ i + n = omega arith in
    rw (shift, add-mod_right) (mod-eq_of_lt (omega arith))

-- Without a current zone, a cycle forward goes to the start; backward, and from the first zone, it
-- goes to the end.
zone_index_start : (n : ℕ) → zone_index true none n ≡ 0
unfolding zone_index
zone_index_start n = grind arith

zone_index_end :
    (n : ℕ) → 0 < n → (suc (zone_index false (some 0) n) ≡ n) × (suc (zone_index false none n) ≡ n)
unfolding zone_index
zone_index_end zero h = absurd (omega arith)
zone_index_end (suc n) h =
    let first : 0 + suc n - 1 ≡ n = omega arith in
    let outside : suc n + suc n - 1 ≡ n + suc n = omega arith in
    (
      rw first (ap suc (mod-eq_of_lt (omega arith))),
      rw (outside, add-mod_right) (ap suc (mod-eq_of_lt (omega arith))),
    )

module _ (zones : List Text) (from to : Text) where
  abbrev Goes : Bool → Option ℕ → Type 0
  Goes forward o = get_elem? zones (zone_index forward o (length zones)) ≡ some to

  found-Cycles :
      (forward : Bool) (i : ℕ)
      → index_of from zones ≡ some i
      → Goes forward (some i)
      → Cycles zones from to forward
  found-Cycles true i f e =
      let at = index_of-some from zones i f in
      elim (zone_index_forward i (length zones) (get_elem?-lt zones i at)) [
        | inl (_, next) ↦ advances (i, at, subst (λ j. get_elem? zones j ≡ some to) next e)
        | inr (last, start) ↦
            wraps_forward (i, last, at) (subst (λ j. get_elem? zones j ≡ some to) start e)
      ]
  found-Cycles false zero f e =
      let at = index_of-some from zones 0 f in
      wraps_backward at (_, (zone_index_end (length zones) (get_elem?-lt zones 0 at)).0, e)
  found-Cycles false (suc i) f e =
      let at = index_of-some from zones (suc i) f in
      let before = zone_index_backward i (length zones) (get_elem?-lt zones (suc i) at) in
      retreats (i, subst (λ j. get_elem? zones j ≡ some to) before e, at)

  missing-Cycles :
      (forward : Bool)
      → 0 < length zones
      → index_of from zones ≡ none
      → Goes forward none
      → Cycles zones from to forward
  missing-Cycles true h f e =
      enters_forward (index_of-none from zones f)
        (subst (λ j. get_elem? zones j ≡ some to) (zone_index_start (length zones)) e)
  missing-Cycles false h f e =
      enters_backward (index_of-none from zones f) (_, (zone_index_end (length zones) h).1, e)

  -- The zone at `zone_index` is the one that the cycle goes to.
  pub zone_index-Cycles :
      (forward : Bool)
      → 0 < length zones
      → Goes forward (index_of from zones)
      → Cycles zones from to forward
  zone_index-Cycles forward h e = elim (Option-cases (index_of from zones)) [
    | inl f ↦ missing-Cycles forward h f (subst (Goes forward) f e)
    | inr (i, f) ↦ found-Cycles forward i f (subst (Goes forward) f e)
  ]
