-- ===== src/Focus/Navigation/Zones.antt =====
-- `cycleZone` of src/FocusController.cpp.
use mathlib.Core.Logic.{if_pos, if_neg}
use arkham_horror_linux.Common.{
  ℕ, zero, suc, ◌<◌, ◌≤◌, Bool, true, false, none, some, Option, List, [], ◌∷◌, ◌≡◌, ◌≢◌, refl, sym,
  ap, ◌∙◌, inl, inr, arith, subst, Text, ◌≟◌, text_key, has, All, Bool-cases, value_or, is_empty,
  not, ◌&&◌, length, get_elem?, map,
}
use arkham_horror_linux.Focus.{
  Nodes, Controller, zone_of, zone?, has_zone, nodes_in_zone, ordered_in_zone, sort_insert, head?,
  index_of,
}
use arkham_horror_linux.Focus.Invariant.{WellFormed}
use arkham_horror_linux.Focus.ZoneNodes.{nodes_in_zone-All}
use arkham_horror_linux.Focus.Navigation.Cycles.{Cycles, zone_index-Cycles}
use arkham_horror_linux.Focus.Navigation.{
  active_zones, zone_index, current_zone, cycle_zone_target, remembered_or_first, cycle_zone,
}
use arkham_horror_linux.Focus.Navigation.Modals.{set_current_focus-current}

active_zones-All : (zs : List Text) (m : Nodes) → All (λ z. has_zone z m ≡ true) (active_zones zs m)
unfolding active_zones
active_zones-All [] m = tt
active_zones-All (z ∷ zs) m = ground (arith, active_zones-All zs m)

pub All-get_elem? {ℓ κ} :
    {A : Type ℓ} (P : A → Type κ) (l : List A) (i : ℕ) {x : A}
    → All P l
    → get_elem? l i ≡ some x
    → P x
All-get_elem? P [] i h e = cc
All-get_elem? P (y ∷ l) zero h e = subst P (ground arith) h.0
All-get_elem? P (y ∷ l) (suc i) h e = All-get_elem? P l i h.1 e

get_elem?_below {ℓ} :
    {A : Type ℓ} (l : List A) (i : ℕ) → i < length l → (x : A) × (get_elem? l i ≡ some x)
get_elem?_below [] i h = elim h [ ]
get_elem?_below (x ∷ l) zero h = (x, refl)
get_elem?_below (x ∷ l) (suc i) h = get_elem?_below l i (omega arith)

zone_index-lt : (f : Bool) (o : Option ℕ) (n : ℕ) → 0 < n → zone_index f o n < n
unfolding zone_index
zone_index-lt true none n h = omega arith
zone_index-lt true (some i) n h = omega arith
zone_index-lt false none n h = omega arith
zone_index-lt false (some i) n h = omega arith

abbrev zones_of : Controller → List Text
zones_of c = active_zones c.zone_order c.nodes

-- The zone that a cycle goes to: the next, or previous, of the zones with a node.
cycle_zone_target-some :
    (c : Controller) (forward : Bool)
    → 2 ≤ length (zones_of c)
    → (z : Text) × (cycle_zone_target c forward ≡ some z)
      × (get_elem?
            (zones_of c)
            (zone_index forward (index_of (current_zone c) (zones_of c)) (length (zones_of c)))
          ≡ some z)
unfolding cycle_zone_target
cycle_zone_target-some c forward h =
    let (z, e) = get_elem?_below (zones_of c) _ (
      zone_index-lt forward (index_of (current_zone c) (zones_of c)) (length (zones_of c))
        (omega arith)) in
    (z, ground arith, e)

sort_insert-ne_nil : (e : ℕ × Text) (l : List (ℕ × Text)) → map (λ p. p.1) (sort_insert e l) ≢ []
unfolding sort_insert
sort_insert-ne_nil (o, k) [] h = cc
sort_insert-ne_nil (o, k) ((p, j) ∷ l) h = ground arith

nodes_in_zone-ne_nil : (z : Text) (m : Nodes) → has_zone z m ≡ true → nodes_in_zone z m ≢ []
unfolding has_zone nodes_in_zone ordered_in_zone
nodes_in_zone-ne_nil z [] h e = cc
nodes_in_zone-ne_nil z ((k, n) ∷ m) h e = ground (
  arith,
  nodes_in_zone-ne_nil z m,
  sort_insert-ne_nil (n.registration_order, k) (ordered_in_zone z m),
)

head?-some :
    (m : Nodes) (z : Text) (l : List Text)
    → All (λ k. zone? k m ≡ some z) l
    → l ≢ []
    → (t : Text) × (head? l ≡ some t) × (zone? t m ≡ some z)
head?-some m z [] a h = absurd (h refl)
head?-some m z (t ∷ l) a h = (t, refl, a.0)

zone_of-zone? : (m : Nodes) (t z : Text) → zone? t m ≡ some z → zone_of m t ≡ z
zone_of-zone? m t z h = ground arith

remembered_or_first-some :
    (c : Controller) (z : Text)
    → WellFormed c
    → has_zone z c.nodes ≡ true
    → (t : Text) × (remembered_or_first c z ≡ some t) × (zone_of c.nodes t ≡ z)
unfolding remembered_or_first
remembered_or_first-some c z v h =
    let (t, e, i) =
      head?-some c.nodes z (nodes_in_zone z c.nodes)
        (nodes_in_zone-All z c.nodes v.consistent.nodes_unique)
        (nodes_in_zone-ne_nil z c.nodes h) in
    let remembered = value_or z c.zone_last_focused [] in
    elim (Bool-cases (not (is_empty remembered) && has remembered c.nodes)) [
      | inl kept ↦ elim (zone_of c.nodes remembered ≟ z) [
        | yes same ↦ (remembered, rw kept (rw (if_pos _ same)), same)
        | no other ↦ (t, rw kept (rw (if_neg _ other) e), zone_of-zone? c.nodes t z i)
      ]
      | inr gone ↦ (t, rw gone e, zone_of-zone? c.nodes t z i)
    ]

current_zone-none : (c : Controller) → c.current_focus_id ≡ [] → current_zone c ≡ []
unfolding current_zone
current_zone-none c e = rw e refl

current_zone-some :
    (c : Controller) → c.current_focus_id ≢ [] → current_zone c ≡ zone_of c.nodes c.current_focus_id
unfolding current_zone
current_zone-some c ne = elim (Bool-cases (is_empty c.current_focus_id)) [
  | inl e ↦ absurd (ne (ground (arith, e)))
  | inr e ↦ rw e refl
]

cycle_zone-Cycles :
    (c : Controller) (forward : Bool)
    → WellFormed c
    → 2 ≤ length (active_zones c.zone_order c.nodes)
    → ((cycle_zone c forward).1 ≡ true)
      × Cycles
          (active_zones c.zone_order c.nodes)
          (current_zone c)
          (zone_of c.nodes (cycle_zone c forward).0.current_focus_id)
          forward
unfolding cycle_zone
cycle_zone-Cycles c forward v h =
    let (z, e, at) = cycle_zone_target-some c forward h in
    let (t, r, i) = remembered_or_first-some c z v (
      All-get_elem? (λ z. has_zone z c.nodes ≡ true) (zones_of c) _
        (active_zones-All c.zone_order c.nodes) at) in
    rw (e, cycle_zone)
      (rw (r, remembered_or_first)
        (
          refl,
          rw (set_current_focus-current c t) (
              zone_index-Cycles (zones_of c) (current_zone c) _ forward (omega arith)
                (at ∙ ap some (sym i))),
        ))

-- With at least two zones that have a node, a cycle from a well-formed state succeeds and puts the
-- focus on a node of the zone behind the current one in the order of those zones (before it, for a
-- backward cycle), cyclically; if the current zone is none of them, of the first one (of the last
-- one, for a backward cycle). The current zone is that of the focus, and the empty text without one.
pub cycle_zone-next :
    (c : Controller) (forward : Bool) (current : Text)
    → WellFormed c
    → 2 ≤ length (active_zones c.zone_order c.nodes)
    → (c.current_focus_id ≡ [] → current ≡ [])
    → (c.current_focus_id ≢ [] → current ≡ zone_of c.nodes c.current_focus_id)
    → ((cycle_zone c forward).1 ≡ true)
      × Cycles
          (active_zones c.zone_order c.nodes)
          current
          (zone_of c.nodes (cycle_zone c forward).0.current_focus_id)
          forward
cycle_zone-next c forward current v h none_is some_is =
    let same : current_zone c ≡ current = elim (c.current_focus_id ≟ []) [
      | yes e ↦ current_zone-none c e ∙ sym (none_is e)
      | no ne ↦ current_zone-some c ne ∙ sym (some_is ne)
    ] in
    let (done, cycles) = cycle_zone-Cycles c forward v h in
    let next = zone_of c.nodes (cycle_zone c forward).0.current_focus_id in
    (done, subst (λ z. Cycles (zones_of c) z next forward) same cycles)
