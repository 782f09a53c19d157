-- ===== src/Focus.antt =====
-- src/FocusController.cpp and FocusController.h: the focus graph, its zones, their memory and the
-- stack of modal levels. The head of `modal_stack` is the last entry of the vector. `emitted` holds
-- the arguments of `currentFocusChanged`, the last one first; slots that call back into the
-- controller are not modelled.
pub mod Registry
pub mod Navigation
pub mod Invariant
pub mod ZoneNodes
pub mod System
mod Examples
use arkham_horror_linux.Common.{
  ℕ, suc, ite, Bool, true, false, Option, none, some, List, [], ◌∷◌, map, Text, Key, ◌≟◌, text_key,
  lookup, has, insert, remove, ltb, if◌then◌else◌, is_empty,
}

pub data Direction : Type 0 where
  up down left right : Direction

unfoldable pub direction_discrete : Discrete Direction
direction_discrete = hlevel

instance abbrev pub direction_key : Key Direction
direction_key = record { dec = direction_discrete }

pub data WrapPolicy : Type 0 where
  no_wrap wrap_within_zone : WrapPolicy

pub record NodeSpec : Type 0 where
  pub id : Text
  pub zone_id : Text
  pub neighbors : List (Direction × Text)

pub record Node : Type 0 where
  pub zone_id : Text
  pub neighbors : List (Direction × Text)
  pub registration_order : ℕ

abbrev pub Nodes : Type 0
Nodes = List (Text × Node)

pub record Snapshot : Type 0 where
  pub focused_id : Text
  pub modal_stack : List (Text × Text)
  pub zone_last_focused : List (Text × Text)

abbrev pub GeometryFallback : Type 0
GeometryFallback = Text → Direction → List Text → Option Text

pub record Controller : Type 0 where
  pub nodes : Nodes
  pub zone_order : List Text
  pub zone_last_focused : List (Text × Text)
  pub modal_stack : List (Text × Text)
  pub current_focus_id : Text
  pub wrap_policy : WrapPolicy
  pub geometry_fallback : Option GeometryFallback
  pub next_registration_order : ℕ
  pub emitted : List Text

pub init : WrapPolicy → Controller
init policy = record {
  nodes = [];
  zone_order = [];
  zone_last_focused = [];
  modal_stack = [];
  current_focus_id = [];
  wrap_policy = policy;
  geometry_fallback = none;
  next_registration_order = 0;
  emitted = [];
}

-- `QVector::contains`, `removeAll` and `indexOf` on texts.
pub contains : Text → List Text → Bool
contains z [] = false
contains z (x ∷ xs) = ite (x ≟ z) true (contains z xs)

pub remove_all : Text → List Text → List Text
remove_all z [] = []
remove_all z (x ∷ xs) = ite (x ≟ z) (remove_all z xs) (x ∷ remove_all z xs)

pub index_of : Text → List Text → Option ℕ
index_of z [] = none
index_of z (x ∷ xs) =
    ite (x ≟ z) (some 0) (elim (index_of z xs) [ none ↦ none | some i ↦ some (suc i) ])

abbrev pub zone? : Text → Nodes → Option Text
zone? id nodes = elim (lookup id nodes) [ none ↦ none | some n ↦ some n.zone_id ]

abbrev pub zone_of : Nodes → Text → Text
zone_of nodes id = elim (lookup id nodes) [ none ↦ [] | some n ↦ n.zone_id ]

pub has_zone : Text → Nodes → Bool
has_zone z [] = false
has_zone z ((k, n) ∷ m) = ite (n.zone_id ≟ z) true (has_zone z m)

-- One step of the sort by registration order.
pub sort_insert : ℕ × Text → List (ℕ × Text) → List (ℕ × Text)
sort_insert (o, k) [] = (o, k) ∷ []
sort_insert (o, k) ((p, j) ∷ l) =
    if ltb o p then (o, k) ∷ (p, j) ∷ l else (p, j) ∷ sort_insert (o, k) l

pub ordered_in_zone : Text → Nodes → List (ℕ × Text)
unfolding sort_insert
ordered_in_zone z [] = []
ordered_in_zone z ((k, n) ∷ m) =
    ite (n.zone_id ≟ z) (sort_insert (n.registration_order, k) (ordered_in_zone z m))
      (ordered_in_zone z m)

pub nodes_in_zone : Text → Nodes → List Text
unfolding ordered_in_zone
nodes_in_zone z m = map (λ e. e.1) (ordered_in_zone z m)

pub first_scan : ℕ → Text → Nodes → Text
first_scan best_order best [] = best
first_scan best_order best ((k, n) ∷ m) =
    first_scan (if ltb n.registration_order best_order then n.registration_order else best_order)
      (if ltb n.registration_order best_order then k else best) m

-- The scan starts at `INT_MAX`.
pub first_registered_node_id : Nodes → Text
unfolding first_scan
first_registered_node_id m = first_scan 2147483647 [] m

-- The memory of the zones once `id` has the focus.
pub remember : Nodes → Text → List (Text × Text) → List (Text × Text)
remember nodes id memory =
    if is_empty id
    then memory
    else if is_empty (zone_of nodes id)
    then memory
    else insert (zone_of nodes id) id memory

pub set_current_focus : Controller → Text → Controller
unfolding remember
set_current_focus c id = ite (c.current_focus_id ≟ id) c (record c {
  current_focus_id = id;
  zone_last_focused = remember c.nodes id c.zone_last_focused;
  emitted = id ∷ c.emitted;
})

pub prune_zone_if_empty : Controller → Text → Controller
prune_zone_if_empty c z = record c {
  zone_order = if has_zone z c.nodes then c.zone_order else remove_all z c.zone_order;
  zone_last_focused =
      if has_zone z c.nodes then c.zone_last_focused else remove z c.zone_last_focused;
}

-- A target that is registered.
abbrev pub live : Nodes → Option Text → Option Text
live nodes none = none
live nodes (some t) = if has t nodes then some t else none

abbrev pub or_else {ℓ} : {A : Type ℓ} → Option A → Option A → Option A
or_else none y = y
or_else (some x) y = some x

abbrev pub head? : List Text → Option Text
head? [] = none
head? (x ∷ xs) = some x
