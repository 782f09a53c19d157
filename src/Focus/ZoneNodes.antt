-- ===== src/Focus/ZoneNodes.antt =====
-- The lists that src/FocusController.cpp makes of the nodes: what `nodesInZone` and
-- `firstRegisteredNodeId` return is registered.
use arkham_horror_linux.Common.{
  ℕ, true, Option, none, some, List, [], ◌∷◌, ◌≡◌, refl, inl, arith, Text, text_key, lookup, has,
  Unique, All, if◌then◌else◌, map, ltb,
}
use arkham_horror_linux.Focus.{
  Nodes, Node, zone?, sort_insert, ordered_in_zone, nodes_in_zone, first_scan,
  first_registered_node_id, head?, live, or_else,
}
use arkham_horror_linux.Focus.Invariant.{Live}

abbrev pub In : Nodes → Text → ℕ × Text → Type 0
In m z e = zone? e.1 m ≡ some z

sort_insert-All :
    (P : ℕ × Text → Type 0) (e : ℕ × Text) (l : List (ℕ × Text))
    → P e
    → All P l
    → All P (sort_insert e l)
unfolding sort_insert
sort_insert-All P (o, k) [] h a = (h, tt)
sort_insert-All P (o, k) ((p, j) ∷ l) h a = ground (arith, sort_insert-All P (o, k) l h a.1)

-- `l` is what is left to scan of the nodes `m`.
abbrev Within : Nodes → Nodes → Type 0
Within l m = (k : Text) (n : Node) → lookup k l ≡ some n → lookup k m ≡ some n

Within-tail :
    (k : Text) (n : Node) (l m : Nodes) → Unique ((k, n) ∷ l) → Within ((k, n) ∷ l) m → Within l m
unfolding lookup
Within-tail k n l m u w j v h = ground (arith, w j v)

Within-head : (k : Text) (n : Node) (l m : Nodes) → Within ((k, n) ∷ l) m → lookup k m ≡ some n
unfolding lookup
Within-head k n l m w = ground (arith, w k n)

ordered_in_zone-All :
    (z : Text) (l m : Nodes) → Unique l → Within l m → All (In m z) (ordered_in_zone z l)
unfolding ordered_in_zone
ordered_in_zone-All z [] m u w = tt
ordered_in_zone-All z ((k, n) ∷ l) m u w =
    let rest = ordered_in_zone-All z l m u.1 (Within-tail k n l m u w) in
    ground (
      arith,
      rest,
      Within-head k n l m w,
      sort_insert-All (In m z) (n.registration_order, k) (ordered_in_zone z l),
    )

map-All :
    (m : Nodes) (z : Text) (l : List (ℕ × Text))
    → All (In m z) l
    → All (λ k. zone? k m ≡ some z) (map (λ e. e.1) l)
map-All m z [] h = tt
map-All m z (e ∷ l) h = (h.0, map-All m z l h.1)

-- Each listed node is registered in the zone.
pub nodes_in_zone-All :
    (z : Text) (m : Nodes) → Unique m → All (λ k. zone? k m ≡ some z) (nodes_in_zone z m)
unfolding nodes_in_zone
nodes_in_zone-All z m u = map-All m z _ (ordered_in_zone-All z m m u (λ k n h. h))

first_scan-Live :
    (o : ℕ) (best : Text) (l m : Nodes)
    → Unique l
    → Within l m
    → Live m best
    → Live m (first_scan o best l)
unfolding first_scan
first_scan-Live o best [] m u w h = h
first_scan-Live o best ((k, n) ∷ l) m u w h =
    first_scan-Live (if ltb n.registration_order o then n.registration_order else o)
      (if ltb n.registration_order o then k else best) l m u.1 (Within-tail k n l m u w)
      (ground (arith, Within-head k n l m w))

pub first_registered_node_id-Live : (m : Nodes) → Unique m → Live m (first_registered_node_id m)
unfolding first_registered_node_id
first_registered_node_id-Live m u = first_scan-Live _ [] m m u (λ k n h. h) (inl refl)

abbrev pub LiveOption : Nodes → Option Text → Type 0
LiveOption m none = Unit
LiveOption m (some t) = has t m ≡ true

pub live-LiveOption : (m : Nodes) (o : Option Text) → LiveOption m (live m o)
live-LiveOption m none = tt
live-LiveOption m (some t) = ground arith

pub or_else-LiveOption :
    (m : Nodes) (o p : Option Text) → LiveOption m o → LiveOption m p → LiveOption m (or_else o p)
or_else-LiveOption m none p h k = k
or_else-LiveOption m (some t) p h k = h

head?-LiveOption :
    (m : Nodes) (z : Text) (l : List Text)
    → All (λ k. zone? k m ≡ some z) l
    → LiveOption m (head? l)
head?-LiveOption m z [] h = tt
head?-LiveOption m z (k ∷ l) h = ground arith

pub head?-nodes_in_zone-LiveOption :
    (z : Text) (m : Nodes) → Unique m → LiveOption m (head? (nodes_in_zone z m))
head?-nodes_in_zone-LiveOption z m u = head?-LiveOption m z _ (nodes_in_zone-All z m u)
