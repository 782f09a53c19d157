-- ===== src/Json/RoundTrip.antt =====
-- src/domain/RawJson.cpp: values are written and read back.
use arkham_horror_linux.Common.{
  ℕ, zero, suc, ◌≤◌, Bool, true, false, ◌||◌, some, List, [], ◌∷◌, ◌++◌, Text, codes, length, ltb,
  ◌==◌, ◌≡◌, refl, arith, sym, ap, ◌∙◌,
}
use mathlib.Core.List.{append_assoc, append-nil}
use arkham_horror_linux.Json.{
  ParseLimits, Value, Items, Members, undefined, null, boolean, number, string, array, object,
  no_items, item, no_members, member, Bytes, is_ascii_digit, seen,
}
use arkham_horror_linux.Json.Parser.{
  ok, ◌>>=◌, skip_whitespace, parse_literal, literal_rest, parse_number, Child, after_element,
  element_loop, parse_array, after_member, after_key, member_loop, parse_object, leaf, dispatch,
  parse_value, finish, document, parse_document,
}
use arkham_horror_linux.Json.Printer.{
  printed, encode_units, literal, print_value, print_items, print_members, to_json_bytes, comma,
  count_items, count_members, element_count, member_count,
}
use arkham_horror_linux.Json.Texts.{IsUnits, string_loop-encode_units}
use arkham_horror_linux.Json.Numerals.{Ends, parse_number-literal}
use arkham_horror_linux.Json.Lexical.{
  IsLexical, AreLexical, MembersAreLexical, printed_inv, printed_bytes, Solid,
  skip_whitespace-Solid, starts-Solid, print_number_inv, print_string_inv, bracketed_inv,
  print_value-Solid, append-Solid, literal-Numeric, Numeric, print_items_inv, print_members_inv,
}

module _ (l : ParseLimits) (room : ℕ) where
  -- What is printed for a value is read back by the parser one level up.
  abbrev Reads : Type 0
  Reads =
      (left : ℕ) (v : Value) (bs : Bytes) (left' : ℕ) (rest : Bytes)
      → print_value l room left v ≡ printed (bs, left')
      → IsLexical v
      → Ends rest
      → parse_value l room left (bs ++ rest) ≡ ok ((v, left'), rest)

  module _ (reads : Reads) where
    element_step :
        (slots left left1 : ℕ) (v : Value) (b c : Bytes) (rest : Bytes)
        → Solid b
        → print_value l room left v ≡ printed (b, left1)
        → IsLexical v
        → Ends (c ++ rest)
        → element_loop (parse_value l room) (suc slots) left ((b ++ c) ++ rest)
          ≡ after_element
              (parse_value l room)
              (element_loop (parse_value l room) slots)
              ((v, left1), c ++ rest)
    unfolding element_loop
    element_step slots left left1 v b c rest s e g n =
        rw
          (
            append_assoc,
            skip_whitespace-Solid b (c ++ rest) s,
            reads left v b left1 (c ++ rest) e g n,
          )
          refl

    element_loop-print_items :
        (slots left : ℕ) (first : Bool) (v : Value) (xs : Items) (bs : Bytes) (left' : ℕ)
        (rest : Bytes)
        → print_items l room left first (item v xs) ≡ printed (bs, left')
        → AreLexical (item v xs)
        → suc (count_items xs) ≤ slots
        → (body : Bytes) × (comma first ++ body ≡ bs)
          × Solid body
          × (element_loop (parse_value l room) slots left (body ++ rest)
              ≡ ok ((item v xs, left'), rest))
    unfolding print_items AreLexical after_element skip_whitespace
    element_loop-print_items zero left first v xs bs left' rest e g k = absurd (omega arith)
    element_loop-print_items (suc slots) left first v no_items bs left' rest e g k =
        let (b, left1, c, e1, e2, same) = print_items_inv l room left first v no_items bs left' e in
        let (last, now) = printed_bytes (b']' ∷ []) c left1 left' e2 in
        let solid = print_value-Solid l room left v b left1 e1 g.0 in
        let ends : Ends (c ++ rest) = rw (sym last) (refl, refl, refl, refl) in
        (
          b ++ c,
          same,
          append-Solid b c solid,
          element_step slots left left1 v b c rest solid e1 g.0 ends ∙ rw (sym last, now) refl,
        )
    element_loop-print_items (suc slots) left first v (item w ys) bs left' rest e g k =
        let (b, left1, c, e1, e2, same) =
          print_items_inv l room left first v (item w ys) bs left' e in
        let (body, last, start, again) =
          element_loop-print_items slots left1 false w ys c left' rest e2 g.1 (omega arith) in
        let solid = print_value-Solid l room left v b left1 e1 g.0 in
        let ends : Ends (c ++ rest) = rw (sym last) (refl, refl, refl, refl) in
        (
          b ++ c,
          same,
          append-Solid b c solid,
          element_step slots left left1 v b c rest solid e1 g.0 ends ∙ rw (sym last, again) refl,
        )

    member_step :
        (slots left left1 : ℕ) (keys : List Text) (k : Text) (v : Value) (kb b c rest : Bytes)
        → encode_units k ≡ some kb
        → IsUnits k
        → length k ≤ l.max_string_length
        → seen k keys ≡ false
        → print_value l room left v ≡ printed (b, left1)
        → IsLexical v
        → Ends (c ++ rest)
        → member_loop
            (parse_value l room)
            l.max_string_length
            (suc slots)
            keys
            left
            ((b'"' ∷ kb ++ (b':' ∷ b ++ c)) ++ rest)
          ≡ after_member
              (parse_value l room)
              (member_loop (parse_value l room) l.max_string_length slots (k ∷ keys))
              k
              ((v, left1), c ++ rest)
    unfolding member_loop after_key skip_whitespace
    member_step slots left left1 keys k v kb b c rest units us short new e g n =
        let solid = print_value-Solid l room left v b left1 e g in
        rw (append_assoc kb (b':' ∷ b ++ c) rest, append_assoc b c rest)
          (rw
            (string_loop-encode_units k kb (b':' ∷ b ++ (c ++ rest)) l.max_string_length units us
              short)
            (rw
              (
                new,
                skip_whitespace-Solid b (c ++ rest) solid,
                reads left v b left1 (c ++ rest) e g n,
              )
              refl))

    member_loop-print_members :
        (slots left : ℕ) (first : Bool) (keys : List Text) (k : Text) (v : Value) (ms : Members)
        (bs : Bytes) (left' : ℕ) (rest : Bytes)
        → print_members l room left first keys (member k v ms) ≡ printed (bs, left')
        → MembersAreLexical (member k v ms)
        → suc (count_members ms) ≤ slots
        → (body : Bytes) × (comma first ++ body ≡ bs)
          × Solid body
          × (member_loop (parse_value l room) l.max_string_length slots keys left (body ++ rest)
              ≡ ok ((member k v ms, left'), rest))
    unfolding print_members MembersAreLexical after_member skip_whitespace
    member_loop-print_members zero left first keys k v ms bs left' rest e g q = absurd (omega arith)
    member_loop-print_members (suc slots) left first keys k v no_members bs left' rest e g q =
        let (kb, b, left1, c, units, new, short, e1, e2, same) =
          print_members_inv l room left first keys k v no_members bs left' e in
        let (last, now) = printed_bytes (b'}' ∷ []) c left1 left' e2 in
        let ends : Ends (c ++ rest) = rw (sym last) (refl, refl, refl, refl) in
        (
          _,
          same,
          (refl, refl, refl),
          member_step slots left left1 keys k v kb b c rest units g.0 short new e1 g.1 ends
              ∙ rw (sym last, now) refl,
        )
    member_loop-print_members (suc slots) left first keys k v (member k2 w ns) bs left' rest e g q =
        let (kb, b, left1, c, units, new, short, e1, e2, same) =
          print_members_inv l room left first keys k v (member k2 w ns) bs left' e in
        let (body, last, start, again) =
          member_loop-print_members slots left1 false (k ∷ keys) k2 w ns c left' rest e2 g.2
            (omega arith) in
        let ends : Ends (c ++ rest) = rw (sym last) (refl, refl, refl, refl) in
        (
          _,
          same,
          (refl, refl, refl),
          member_step slots left left1 keys k v kb b c rest units g.0 short new e1 g.1 ends
              ∙ rw (sym last, again) refl,
        )

    parse_array-print_items :
        (left : ℕ) (xs : Items) (bs : Bytes) (left' : ℕ) (rest : Bytes)
        → print_items l room left true xs ≡ printed (bs, left')
        → AreLexical xs
        → count_items xs ≤ l.max_array_elements
        → parse_array (parse_value l room) l.max_array_elements left (bs ++ rest)
          ≡ ok ((array xs, left'), rest)
    unfolding parse_array print_items skip_whitespace
    parse_array-print_items left no_items bs left' rest e g k =
        let (last, now) = printed_bytes (b']' ∷ []) bs left left' e in rw (sym last, now) refl
    parse_array-print_items left (item v xs) bs left' rest e g k =
        let (body, same, start, again) =
          element_loop-print_items l.max_array_elements left true v xs bs left' rest e g k in
        rw (sym same)
          (rw (skip_whitespace-Solid body rest start, (starts-Solid body rest start).0, again) refl)

    parse_object-print_members :
        (left : ℕ) (ms : Members) (bs : Bytes) (left' : ℕ) (rest : Bytes)
        → print_members l room left true [] ms ≡ printed (bs, left')
        → MembersAreLexical ms
        → count_members ms ≤ l.max_object_members
        → parse_object
            (parse_value l room)
            l.max_string_length
            l.max_object_members
            left
            (bs ++ rest)
          ≡ ok ((object ms, left'), rest)
    unfolding parse_object print_members skip_whitespace
    parse_object-print_members left no_members bs left' rest e g k =
        let (last, now) = printed_bytes (b'}' ∷ []) bs left left' e in rw (sym last, now) refl
    parse_object-print_members left (member q v ms) bs left' rest e g k =
        let (body, same, start, again) =
          member_loop-print_members l.max_object_members left true [] q v ms bs left' rest e g k in
        rw (sym same)
          (rw (skip_whitespace-Solid body rest start, (starts-Solid body rest start).1, again) refl)

-- The first byte of a number leads to the parser of numbers.
number_first :
    (l : ParseLimits) (child : Child) (left c : ℕ) (b : Bytes)
    → (c == b'-' || is_ascii_digit c) ≡ true
    → dispatch l child left c b ≡ (parse_number l (c ∷ b) >>= leaf left)
unfolding dispatch
number_first l child left c b h = ground (arith, h)

module _ (l : ParseLimits) where
  parse_value-Numeric :
      (room left : ℕ) (v : Value) (bs rest : Bytes)
      → Numeric bs
      → parse_number l (bs ++ rest) ≡ ok (v, rest)
      → parse_value l (suc room) (suc left) (bs ++ rest) ≡ ok ((v, left), rest)
  unfolding parse_value
  parse_value-Numeric room left v [] rest g e = absurd g
  parse_value-Numeric room left v (c ∷ b) rest g e =
      number_first l (parse_value l room) left c (b ++ rest) g ∙ ap (λ r. r >>= leaf left) e

  parse_value-print_value : (room : ℕ) → Reads l room
  unfolding parse_value print_value IsLexical dispatch parse_literal literal_rest
  parse_value-print_value zero left v bs left' rest e g n = absurd (ground (arith, e))
  parse_value-print_value (suc room) zero v bs left' rest e g n = absurd (ground (arith, e))
  parse_value-print_value (suc room) (suc left) undefined bs left' rest e g n =
      absurd (ground (arith, e))
  parse_value-print_value (suc room) (suc left) null bs left' rest e g n =
      let (same, now) = printed_bytes (codes "null") bs left left' e in rw (sym same, now) refl
  parse_value-print_value (suc room) (suc left) (boolean true) bs left' rest e g n =
      let (same, now) = printed_bytes (codes "true") bs left left' e in rw (sym same, now) refl
  parse_value-print_value (suc room) (suc left) (boolean false) bs left' rest e g n =
      let (same, now) = printed_bytes (codes "false") bs left left' e in rw (sym same, now) refl
  parse_value-print_value (suc room) (suc left) (number m) bs left' rest e g n =
      let (same, now, ki, kf, ke) = print_number_inv l m left left' bs e in
      rw (sym same, sym now)
        (parse_value-Numeric room left (number m) (literal m) rest (literal-Numeric m g.integer)
          (parse_number-literal l m rest g n ki kf ke))
  parse_value-print_value (suc room) (suc left) (string t) bs left' rest e g n =
      let (b, units, same, now, short) = print_string_inv l t left left' bs e in
      rw (sym same, now)
        (rw (string_loop-encode_units t b rest l.max_string_length units g short) refl)
  parse_value-print_value (suc room) (suc left) (array xs) bs left' rest e g n =
      let (b, few, h, same) =
        bracketed_inv _ element_count (print_items l room left true xs) b'[' bs left' e in
      rw (sym same) (
        parse_array-print_items l room (parse_value-print_value room) left xs b left' rest h g
          (ground (arith, few)))
  parse_value-print_value (suc room) (suc left) (object ms) bs left' rest e g n =
      let (b, few, h, same) =
        bracketed_inv _ member_count (print_members l room left true [] ms) b'{' bs left' e in
      rw (sym same) (
        parse_object-print_members l room (parse_value-print_value room) left ms b left' rest h g
          (ground (arith, few)))

  -- A value whose numbers and texts are in the grammar, printed to bytes that are no more than the
  -- limit, is what the parser reads from those bytes.
  pub parse_document-to_json_bytes :
      (v : Value) (bs : Bytes)
      → to_json_bytes l v ≡ printed bs
      → IsLexical v
      → length bs ≤ l.max_input_bytes
      → parse_document l bs ≡ document v
  unfolding to_json_bytes parse_document finish skip_whitespace
  parse_document-to_json_bytes v bs e g k =
      let ((b, left), e1, f) =
        printed_inv (print_value l (suc l.max_depth) l.max_total_nodes v) _ bs e in
      let same : b ≡ bs = ground (arith, f) in
      let e2 : print_value l (suc l.max_depth) l.max_total_nodes v ≡ printed (bs, left) =
        e1 ∙ ap (λ x. printed (x, left)) same in
      let small : ltb l.max_input_bytes (length bs) ≡ false = ground arith in
      let start =
        skip_whitespace-Solid bs []
          (print_value-Solid l (suc l.max_depth) l.max_total_nodes v bs left e2 g) in
      let read =
        parse_value-print_value (suc l.max_depth) l.max_total_nodes v bs left [] e2 g
          (refl, refl, refl, refl) in
      let start' : skip_whitespace bs ≡ bs = rw (append-nil bs) at start in
      rw (small, start', rw (append-nil bs) at read) refl
