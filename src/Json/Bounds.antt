-- ===== src/Json/Bounds.antt =====
-- src/domain/RawJson.cpp: the limits of the parser, as what they mean for a value.
use arkham_horror_linux.Common.{
  ℕ, zero, suc, ◌+◌, ◌<◌, ◌≤◌, max, Bool, true, false, List, [], ◌∷◌, Text, length, ◌≡◌, arith,
}
use arkham_horror_linux.Json.{
  ParseLimits, Value, Items, Members, undefined, null, boolean, number, string, array, object,
  no_items, item, no_members, member, Bytes, seen,
}
use arkham_horror_linux.Json.Parser.{document, parse_document}
use arkham_horror_linux.Json.Printer.{
  printed, element_count, member_count, print_value, print_items, print_members, count_items,
  count_members, to_json_bytes,
}
use arkham_horror_linux.Json.Lexical.{
  printed_inv, bracketed_inv, printed_bytes, print_number_inv, print_string_inv, print_items_inv,
  print_members_inv,
}
use arkham_horror_linux.Json.Sound.Values.{to_json_bytes-parse_document}

unfoldable mutual
  -- How far down the deepest value stands, the whole value at zero.
  pub depth : Value → ℕ
  depth (array xs) = depth_items xs
  depth (object ms) = depth_members ms
  depth v = 0

  pub depth_items : Items → ℕ
  depth_items no_items = 0
  depth_items (item v xs) = max (suc (depth v)) (depth_items xs)

  pub depth_members : Members → ℕ
  depth_members no_members = 0
  depth_members (member k v ms) = max (suc (depth v)) (depth_members ms)

unfoldable mutual
  pub nodes : Value → ℕ
  nodes (array xs) = suc (nodes_items xs)
  nodes (object ms) = suc (nodes_members ms)
  nodes v = 1

  pub nodes_items : Items → ℕ
  nodes_items no_items = 0
  nodes_items (item v xs) = nodes v + nodes_items xs

  pub nodes_members : Members → ℕ
  nodes_members no_members = 0
  nodes_members (member k v ms) = nodes v + nodes_members ms

-- The limits of each part, with no key twice in an object.
unfoldable mutual
  pub IsWithin : ParseLimits → Value → Type 0
  IsWithin l undefined = ⊥
  IsWithin l null = Unit
  IsWithin l (boolean b) = Unit
  IsWithin l (number n) =
      (length n.int_digits ≤ l.max_number_digits)
      × (length n.frac_digits ≤ l.max_number_digits)
      × (length n.exp_digits ≤ l.max_number_digits)
  IsWithin l (string t) = length t ≤ l.max_string_length
  IsWithin l (array xs) = (count_items xs ≤ l.max_array_elements) × AreWithin l xs
  IsWithin l (object ms) = (count_members ms ≤ l.max_object_members) × MembersAreWithin l [] ms

  pub AreWithin : ParseLimits → Items → Type 0
  AreWithin l no_items = Unit
  AreWithin l (item v xs) = IsWithin l v × AreWithin l xs

  pub MembersAreWithin : ParseLimits → List Text → Members → Type 0
  MembersAreWithin l keys no_members = Unit
  MembersAreWithin l keys (member k v ms) =
      (length k ≤ l.max_string_length)
      × (seen k keys ≡ false)
      × IsWithin l v
      × MembersAreWithin l (k ∷ keys) ms

module _ (l : ParseLimits) (room : ℕ) where
  abbrev Counts : Type 0
  Counts =
      (left : ℕ) (v : Value) (bs : Bytes) (left' : ℕ)
      → print_value l room left v ≡ printed (bs, left')
      → IsWithin l v × (depth v < room) × (nodes v + left' ≡ left)

  module _ (counts : Counts) where
    print_items_counts :
        (left : ℕ) (first : Bool) (xs : Items) (bs : Bytes) (left' : ℕ)
        → print_items l room left first xs ≡ printed (bs, left')
        → AreWithin l xs × (depth_items xs ≤ room) × (nodes_items xs + left' ≡ left)
    unfolding print_items AreWithin depth_items nodes_items
    print_items_counts left first no_items bs left' e =
        let (same, now) = printed_bytes (b']' ∷ []) bs left left' e in
        (tt, omega arith, omega arith)
    print_items_counts left first (item v xs) bs left' e =
        let (b, left1, c, e1, e2, same) = print_items_inv l room left first v xs bs left' e in
        let (one_within, one_depth, one_nodes) = counts left v b left1 e1 in
        let (within, deep, many) = print_items_counts left1 false xs c left' e2 in
        ((one_within, within), omega arith, omega arith)

    print_members_counts :
        (left : ℕ) (first : Bool) (keys : List Text) (ms : Members) (bs : Bytes) (left' : ℕ)
        → print_members l room left first keys ms ≡ printed (bs, left')
        → MembersAreWithin l keys ms × (depth_members ms ≤ room) × (nodes_members ms + left' ≡ left)
    unfolding print_members MembersAreWithin depth_members nodes_members
    print_members_counts left first keys no_members bs left' e =
        let (same, now) = printed_bytes (b'}' ∷ []) bs left left' e in
        (tt, omega arith, omega arith)
    print_members_counts left first keys (member k v ms) bs left' e =
        let (kb, b, left1, c, units, new, short, e1, e2, same) =
          print_members_inv l room left first keys k v ms bs left' e in
        let (one_within, one_depth, one_nodes) = counts left v b left1 e1 in
        let (within, deep, many) = print_members_counts left1 false (k ∷ keys) ms c left' e2 in
        ((short, new, one_within, within), omega arith, omega arith)

module _ (l : ParseLimits) where
  print_value_counts : (room : ℕ) → Counts l room
  unfolding print_value IsWithin depth nodes
  print_value_counts zero left v bs left' e = absurd (ground (arith, e))
  print_value_counts (suc room) zero v bs left' e = absurd (ground (arith, e))
  print_value_counts (suc room) (suc left) undefined bs left' e = absurd (ground (arith, e))
  print_value_counts (suc room) (suc left) null bs left' e =
      let (same, now) = printed_bytes _ bs left left' e in (tt, omega arith, omega arith)
  print_value_counts (suc room) (suc left) (boolean b) bs left' e =
      let (same, now) = printed_bytes _ bs left left' e in (tt, omega arith, omega arith)
  print_value_counts (suc room) (suc left) (number n) bs left' e =
      let (same, now, ki, kf, ke) = print_number_inv l n left left' bs e in
      ((ki, kf, ke), omega arith, omega arith)
  print_value_counts (suc room) (suc left) (string t) bs left' e =
      let (b, units, same, now, short) = print_string_inv l t left left' bs e in
      (short, omega arith, omega arith)
  print_value_counts (suc room) (suc left) (array xs) bs left' e =
      let (b, few, h, same) =
        bracketed_inv _ element_count (print_items l room left true xs) b'[' bs left' e in
      let (within, deep, many) =
        print_items_counts l room (print_value_counts room) left true xs b left' h in
      ((ground (arith, few), within), omega arith, omega arith)
  print_value_counts (suc room) (suc left) (object ms) bs left' e =
      let (b, few, h, same) =
        bracketed_inv _ member_count (print_members l room left true [] ms) b'{' bs left' e in
      let (within, deep, many) =
        print_members_counts l room (print_value_counts room) left true [] ms b left' h in
      ((ground (arith, few), within), omega arith, omega arith)

  -- A document that is read keeps every limit: its texts, numbers, arrays and objects are no longer
  -- than the limits, no object has a key twice, no value stands deeper than `max_depth`, and there
  -- are no more than `max_total_nodes` values.
  pub parse_document-IsWithin :
      (b : Bytes) (v : Value)
      → parse_document l b ≡ document v
      → IsWithin l v × (depth v ≤ l.max_depth) × (nodes v ≤ l.max_total_nodes)
  unfolding to_json_bytes
  parse_document-IsWithin b v e =
      let (bs, prints, few, again) = to_json_bytes-parse_document l b v e in
      let ((c, left), f, g) =
        printed_inv (print_value l (suc l.max_depth) l.max_total_nodes v) _ bs prints in
      let (within, deep, many) =
        print_value_counts (suc l.max_depth) l.max_total_nodes v c left f in
      (within, omega arith, omega arith)
