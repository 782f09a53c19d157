-- ===== src/Focus/Invariant.antt =====
-- What every state of src/FocusController.cpp keeps between calls, and the lemmas on zones, memory
-- and registered ids that the operations' proofs share.
use arkham_horror_linux.Common.{
  ite, true, false, some, List, [], ◌∷◌, ◌++◌, ◌≡◌, ◌≢◌, refl, ◌⊎◌, inl, inr, arith, Text, ◌≟◌,
  text_key, lookup, has, insert, remove, lookup-remove, lookup-insert, Unique, remove_absent,
  remove-Unique, insert-Unique, All, Bool-cases,
}
use arkham_horror_linux.Focus.{
  Nodes, Node, Controller, contains, remove_all, zone?, zone_of, has_zone, remember,
  set_current_focus, prune_zone_if_empty,
}

-- No node, or a registered one.
abbrev pub Live : Nodes → Text → Type 0
Live nodes id = (id ≡ []) ⊎ (has id nodes ≡ true)

-- The memory of a zone is a node of that zone.
abbrev pub Remembers : Nodes → List (Text × Text) → Type 0
Remembers nodes memory = (z id : Text) → lookup z memory ≡ some id → zone? id nodes ≡ some z

-- The zones in order are those with a node.
abbrev pub Covers : Nodes → List Text → Type 0
Covers nodes zones = (z : Text) → contains z zones ≡ has_zone z nodes

-- A modal level returns to no node or to a registered one.
abbrev pub Returns : Nodes → List (Text × Text) → Type 0
Returns nodes = All (λ (e : Text × Text). Live nodes e.1)

pub record Consistent (c : Controller) : Type 0 where
  pub nodes_unique : Unique c.nodes
  pub memory_unique : Unique c.zone_last_focused
  pub covers : Covers c.nodes c.zone_order
  pub remembers : Remembers c.nodes c.zone_last_focused
  pub returns : Returns c.nodes c.modal_stack

pub record WellFormed (c : Controller) : Type 0 where
  pub consistent : Consistent c
  pub focused : Live c.nodes c.current_focus_id

contains-remove_all :
    (z y : Text) (xs : List Text) → contains z (remove_all y xs) ≡ ite (y ≟ z) false (contains z xs)
unfolding contains remove_all
contains-remove_all z y [] = ground arith
contains-remove_all z y (x ∷ xs) = ground (arith, contains-remove_all z y xs)

pub contains-concat :
    (z x : Text) (xs : List Text) → contains z (xs ++ x ∷ []) ≡ ite (x ≟ z) true (contains z xs)
unfolding contains
contains-concat z x [] = refl
contains-concat z x (y ∷ xs) = ground (arith, contains-concat z x xs)

pub has_zone-remove :
    (z k : Text) (m : Nodes)
    → Unique m
    → zone? k m ≢ some z
    → has_zone z (remove k m) ≡ has_zone z m
unfolding has_zone remove lookup
has_zone-remove z k [] u h = refl
has_zone-remove z k ((j, n) ∷ m) u h = elim (j ≟ k) [
  | yes e ↦ ground (arith, remove_absent k m)
  | no e ↦ ground (arith, has_zone-remove z k m u.1)
]

pub Live-insert : (k id : Text) (n : Node) (m : Nodes) → Live m id → Live (insert k n m) id
Live-insert k id n m h = ground (arith, lookup-insert id k n m)

pub Live-remove : (k id : Text) (m : Nodes) → id ≢ k → Live m id → Live (remove k m) id
Live-remove k id m e h = ground (arith, lookup-remove id k m)

pub Returns-insert :
    (k : Text) (n : Node) (m : Nodes) (s : List (Text × Text))
    → Returns m s
    → Returns (insert k n m) s
Returns-insert k n m [] h = tt
Returns-insert k n m (e ∷ s) h = (Live-insert k e.1 n m h.0, Returns-insert k n m s h.1)

pub remember-Remembers :
    (m : Nodes) (id : Text) (memory : List (Text × Text))
    → Live m id
    → Remembers m memory
    → Remembers m (remember m id memory)
unfolding remember
remember-Remembers m id memory l h z i e =
    ground (arith, lookup-insert z (zone_of m id) id memory, h z i)

pub remember-Unique :
    (m : Nodes) (id : Text) (memory : List (Text × Text))
    → Unique memory
    → Unique (remember m id memory)
unfolding remember
remember-Unique m id memory u = ground (arith, insert-Unique (zone_of m id) id memory u)

-- Moving the focus to no node or to a registered one makes a consistent state well formed.
pub set_current_focus-WellFormed :
    (c : Controller) (t : Text) → Consistent c → Live c.nodes t → WellFormed (set_current_focus c t)
unfolding set_current_focus
set_current_focus-WellFormed c t v l = ground (
  arith,
  remember-Remembers c.nodes t c.zone_last_focused l v.remembers,
  remember-Unique c.nodes t c.zone_last_focused v.memory_unique,
)

pub has_zone-insert :
    (z k : Text) (n : Node) (m : Nodes)
    → Unique m
    → zone? k m ≢ some z
    → has_zone z (insert k n m) ≡ ite (n.zone_id ≟ z) true (has_zone z m)
unfolding insert has_zone
has_zone-insert z k n m u h = rw (has_zone-remove z k m u h)

pub has_zone-insert_self :
    (z k : Text) (n : Node) (m : Nodes) → n.zone_id ≡ z → has_zone z (insert k n m) ≡ true
unfolding insert has_zone
has_zone-insert_self z k n m e = ground arith

pub has_zone_of_lookup :
    (k : Text) (n : Node) (m : Nodes) → lookup k m ≡ some n → has_zone n.zone_id m ≡ true
unfolding has_zone lookup
has_zone_of_lookup k n [] h = cc
has_zone_of_lookup k n ((j, v) ∷ m) h = ground (arith, has_zone_of_lookup k n m)

-- A memory stays right when a node is entered again, if no zone but its own remembers it.
pub Remembers-insert_node :
    (k : Text) (n : Node) (m : Nodes) (memory : List (Text × Text))
    → ((z : Text) → lookup z memory ≡ some k → z ≡ n.zone_id)
    → ((z i : Text) → i ≢ k → lookup z memory ≡ some i → zone? i m ≡ some z)
    → Remembers (insert k n m) memory
Remembers-insert_node k n m memory own others z i h = elim (k ≟ i) [
  | yes e ↦ ground (arith, lookup-insert i k n m, own z)
  | no e ↦ ground (arith, lookup-insert i k n m, others z i)
]

Remembers-remove :
    (m : Nodes) (y : Text) (memory : List (Text × Text))
    → Remembers m memory
    → Remembers m (remove y memory)
Remembers-remove m y memory r z i h = ground (arith, lookup-remove z y memory, r z i)

pub Remembers-insert :
    (m : Nodes) (y k : Text) (memory : List (Text × Text))
    → zone? k m ≡ some y
    → Remembers m memory
    → Remembers m (insert y k memory)
Remembers-insert m y k memory e r z i h = ground (arith, lookup-insert z y k memory, r z i)

-- A zone that no node is in any longer leaves the order and the memory.
pub prune_zone-Covers :
    (c : Controller) (y : Text)
    → ((z : Text) → z ≢ y → contains z c.zone_order ≡ has_zone z c.nodes)
    → (has_zone y c.nodes ≡ true → contains y c.zone_order ≡ true)
    → Covers c.nodes (prune_zone_if_empty c y).zone_order
unfolding prune_zone_if_empty
prune_zone-Covers c y others self z = elim (y ≟ z) [
  | yes e ↦ ground (arith, contains-remove_all z y c.zone_order, self)
  | no e ↦ ground (arith, contains-remove_all z y c.zone_order, others z)
]

pub prune_zone-Remembers :
    (c : Controller) (y : Text) (m : Nodes)
    → Remembers m c.zone_last_focused
    → Remembers m (prune_zone_if_empty c y).zone_last_focused
unfolding prune_zone_if_empty
prune_zone-Remembers c y m r = elim (Bool-cases (has_zone y c.nodes)) [
  | inl e ↦ rw e r
  | inr e ↦ rw e (Remembers-remove m y c.zone_last_focused r)
]

pub prune_zone-Unique :
    (c : Controller) (y : Text)
    → Unique c.zone_last_focused
    → Unique (prune_zone_if_empty c y).zone_last_focused
unfolding prune_zone_if_empty
prune_zone-Unique c y u = elim (Bool-cases (has_zone y c.nodes)) [
  | inl e ↦ rw e u
  | inr e ↦ rw e (remove-Unique y c.zone_last_focused u)
]
