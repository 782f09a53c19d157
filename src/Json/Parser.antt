-- ===== src/Json/Parser.antt =====
-- `Parser` of src/domain/RawJson.cpp. What is left of the bytes stands for `m_pos`, and so does the
-- place of a failure. Counters stand for what is left of a limit: `room` of `max_depth` (and one),
-- of `max_string_length`, `max_array_elements` or `max_object_members`, and `left` of
-- `max_total_nodes`; a check of the source that a limit is reached is that nothing is left.
pub mod Numbers
pub mod Strings
unfoldable pub use Numbers.{
  skip_whitespace, span_digits, literal_rest, parse_literal, bounded_digits, parse_integer,
  parse_fraction, exponent_after, parse_exponent, parse_unsigned, parse_number,
}
pub use Numbers.{
  JsonError, Result, nesting_depth, node_count, unexpected_end, trailing_content,
  unexpected_character, invalid_literal, number_digit, fraction_digit, exponent_digit,
  integer_too_long, fraction_too_long, exponent_too_long, unterminated_string, string_too_long,
  unterminated_escape, invalid_escape, control_character, lone_high, no_low, lone_low,
  truncated_escape, invalid_hex, utf8_lead, utf8_truncated, utf8_continuation, utf8_overlong,
  utf8_surrogate, utf8_range, too_many_elements, unterminated_array, array_separator,
  too_many_members, key_expected, colon_expected, unterminated_object, object_separator,
  duplicate_key, ok, failed, ◌>>=◌, starts, starts_digit, rest_of, exponent_sign,
}
unfoldable pub use Strings.{
  parse_hex4, low_escape, unicode_escape, parse_escape, continuations, check_point, utf8_tail,
  parse_utf8_sequence, parse_units, string_loop,
}
pub use Strings.{Units, one, two, is_hex_digit, hex_value, units_of, prepend, append_units}
use arkham_horror_linux.Common.{
  ℕ, zero, suc, ◌+◌, ◌-◌, ◌*◌, ◌/◌, ◌%◌, Bool, true, false, not, ◌&&◌, ◌||◌, Option, none, some,
  List, [], ◌∷◌, Text, codes, length, ltb, leb, ◌==◌, if◌then◌else◌,
}
use arkham_horror_linux.Json.{
  ParseLimits, Value, Items, Members, null, boolean, number, string, array, object, no_items, item,
  no_members, member, Bytes, is_high, is_low, is_ascii_digit, seen,
}

-- Arrays and objects. `child` parses an element, with what is left of the nodes.

abbrev pub Child : Type 0
Child = ℕ → Bytes → Result ((Value × ℕ) × Bytes)

module _ (child : Child) where
  abbrev add_item : Value → (Items × ℕ) × Bytes → Result ((Items × ℕ) × Bytes)
  add_item v ((xs, left), rest) = ok ((item v xs, left), rest)

  -- After an element.
  unfoldable pub after_element :
      (ℕ → Bytes → Result ((Items × ℕ) × Bytes))
      → (Value × ℕ) × Bytes
      → Result ((Items × ℕ) × Bytes)
  after_element again ((v, left), rest) = elim (skip_whitespace rest) [
    | [] ↦ failed unterminated_array []
    | c ∷ b ↦ elim (c == b',') [
      | true ↦ again left b >>= add_item v
      | false ↦
          if c == b']' then ok ((item v no_items, left), b) else failed array_separator (c ∷ b)
    ]
  ]

  unfoldable pub element_loop : ℕ → ℕ → Bytes → Result ((Items × ℕ) × Bytes)
  element_loop zero left b = failed too_many_elements (skip_whitespace b)
  element_loop (suc room) left b =
      child left (skip_whitespace b) >>= after_element (element_loop room)

  -- After the opening bracket.
  unfoldable pub parse_array : ℕ → ℕ → Bytes → Result ((Value × ℕ) × Bytes)
  parse_array room left b =
      if starts b']' (skip_whitespace b)
      then ok ((array no_items, left), rest_of (skip_whitespace b))
      else element_loop room left (skip_whitespace b) >>= λ ((xs, left'), rest).
          ok ((array xs, left'), rest)

  abbrev add_member : Text → Value → (Members × ℕ) × Bytes → Result ((Members × ℕ) × Bytes)
  add_member k v ((ms, left), rest) = ok ((member k v ms, left), rest)

  unfoldable pub after_member :
      (ℕ → Bytes → Result ((Members × ℕ) × Bytes))
      → Text
      → (Value × ℕ) × Bytes
      → Result ((Members × ℕ) × Bytes)
  after_member again k ((v, left), rest) = elim (skip_whitespace rest) [
    | [] ↦ failed unterminated_object []
    | c ∷ b ↦ elim (c == b',') [
      | true ↦ again left b >>= add_member k v
      | false ↦
          if c == b'}'
          then ok ((member k v no_members, left), b)
          else failed object_separator (c ∷ b)
    ]
  ]

  -- After a key.
  unfoldable pub after_key :
      (ℕ → Bytes → Result ((Members × ℕ) × Bytes))
      → List Text
      → ℕ
      → Text × Bytes
      → Result ((Members × ℕ) × Bytes)
  after_key again keys left (k, rest) =
      if seen k keys
      then failed (duplicate_key k) rest
      else if not (starts b':' (skip_whitespace rest))
      then failed colon_expected (skip_whitespace rest)
      else child left (skip_whitespace (rest_of (skip_whitespace rest))) >>= after_member again k

  -- With the limit of a key's length and the keys so far.
  unfoldable pub member_loop : ℕ → ℕ → List Text → ℕ → Bytes → Result ((Members × ℕ) × Bytes)
  member_loop longest zero keys left b = failed too_many_members (skip_whitespace b)
  member_loop longest (suc room) keys left b =
      if not (starts b'"' (skip_whitespace b))
      then failed key_expected (skip_whitespace b)
      else string_loop longest (rest_of (skip_whitespace b)) >>= λ (k, rest).
          after_key (member_loop longest room (k ∷ keys)) keys left (k, rest)

  -- After the opening brace.
  unfoldable pub parse_object : ℕ → ℕ → ℕ → Bytes → Result ((Value × ℕ) × Bytes)
  parse_object longest room left b =
      if starts b'}' (skip_whitespace b)
      then ok ((object no_members, left), rest_of (skip_whitespace b))
      else member_loop longest room [] left (skip_whitespace b) >>= λ ((ms, left'), rest).
          ok ((object ms, left'), rest)

-- Values

abbrev pub leaf : ℕ → Value × Bytes → Result ((Value × ℕ) × Bytes)
leaf left (v, rest) = ok ((v, left), rest)

module _ (l : ParseLimits) where
  -- By the first byte.
  unfoldable pub dispatch : Child → ℕ → ℕ → Bytes → Result ((Value × ℕ) × Bytes)
  dispatch child left c b =
      if c == b'"'
      then (string_loop l.max_string_length b >>= λ (t, rest). ok ((string t, left), rest))
      else if c == b'{'
      then parse_object child l.max_string_length l.max_object_members left b
      else if c == b'['
      then parse_array child l.max_array_elements left b
      else if c == b't'
      then parse_literal (codes "true") (boolean true) (c ∷ b) >>= leaf left
      else if c == b'f'
      then parse_literal (codes "false") (boolean false) (c ∷ b) >>= leaf left
      else if c == b'n'
      then parse_literal (codes "null") null (c ∷ b) >>= leaf left
      else if c == b'-' || is_ascii_digit c
      then parse_number l (c ∷ b) >>= leaf left
      else failed (unexpected_character c) (c ∷ b)

  unfoldable pub parse_value : ℕ → ℕ → Bytes → Result ((Value × ℕ) × Bytes)
  parse_value zero left b = failed nesting_depth b
  parse_value (suc room) zero b = failed node_count b
  parse_value (suc room) (suc left) [] = failed unexpected_end []
  parse_value (suc room) (suc left) (c ∷ b) = dispatch (parse_value room) left c b

  unfoldable pub finish : (Value × ℕ) × Bytes → Result Value
  finish ((v, left), rest) = elim (skip_whitespace rest) [
    | [] ↦ ok v
    | c ∷ b ↦ failed trailing_content (c ∷ b)
  ]

-- A document's value, or the error and its byte offset.
pub data Document : Type 0 where
  document : Value → Document
  rejected : JsonError → ℕ → Document
  input_too_large : Document

abbrev pub report : ℕ → Result Value → Document
report size (ok v) = document v
report size (failed e rest) = rejected e (size - length rest)

unfoldable pub parse_document : ParseLimits → Bytes → Document
parse_document l b =
    if ltb l.max_input_bytes (length b)
    then input_too_large
    else report (length b)
        (parse_value l (suc l.max_depth) l.max_total_nodes (skip_whitespace b) >>= finish l)
