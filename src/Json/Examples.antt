-- ===== src/Json/Examples.antt =====
-- Documents of src/domain/RawJson.cpp, read and written within its own limits.
use arkham_horror_linux.Common.{
  none, some, not, is_some, true, false, text_discrete, [], ◌∷◌, codes, length, ◌≤◌, ◌≡◌, refl,
  arith,
}
use arkham_horror_linux.Json.{
  Members, undefined, ParseLimits, production, RawNumber, Value, number, string, boolean, array,
  object, no_items, item, no_members, member, Bytes, seen,
}
use arkham_horror_linux.Json.Parser.{document, rejected, nesting_depth, parse_document}
use arkham_horror_linux.Json.Printer.{
  printed, to_json_bytes, print_value, print_items, print_members, print_key, print_string,
  print_number, append_json_encoded_string, encode_units, encode_point, utf8_of, literal,
}
use arkham_horror_linux.Json.Numerals.{IsNumeral}
use arkham_horror_linux.Json.Lexical.{IsLexical}
use arkham_horror_linux.Json.RoundTrip.{parse_document-to_json_bytes}
use arkham_horror_linux.Json.Sound.Values.{to_json_bytes-parse_document}
use arkham_horror_linux.Json.Surrogates.{has_lone_surrogate, has_lone_surrogate_lem}
use arkham_horror_linux.Json.Access.{find, contains, value, keys, first_member, find_lem}
use arkham_horror_linux.Json.Bounds.{IsWithin, depth, nodes, parse_document-IsWithin}
use arkham_horror_linux.Json.Rejects.{Stops, brackets, parse_document-brackets}

-- -12.5e3
abbrev sum_number : RawNumber
sum_number = record {
  negative = true;
  int_digits = codes "12";
  frac_digits = codes "5";
  has_exponent = true;
  exponent_negative = false;
  exp_digits = codes "3";
}

sum_number-IsNumeral : IsNumeral sum_number
sum_number-IsNumeral = record {
  integer = ((refl, (refl, tt)), λ k. absurd (ground (arith, k)));
  fraction = (refl, tt);
  exponent = (refl, tt);
  exponent_full = λ k. refl;
  exponent_none = λ k. absurd (ground (arith, k));
}

-- An eye, as a surrogate pair, and a quote.
abbrev sample : Value
sample = object (
    member (codes "sum") (number sum_number) (
      member (codes "seen")
        (array (item (boolean true) (item (string (0xD83D ∷ 0xDC41 ∷ b'"' ∷ [])) no_items)))
        no_members))

abbrev sample_bytes : Bytes
sample_bytes =
    b'{' ∷ b'"' ∷ b's' ∷ b'u' ∷ b'm' ∷ b'"' ∷ b':' ∷ b'-' ∷ b'1' ∷ b'2' ∷ b'.' ∷ b'5' ∷ b'e' ∷ b'3'
    ∷ b',' ∷ b'"' ∷ b's' ∷ b'e' ∷ b'e' ∷ b'n' ∷ b'"' ∷ b':' ∷ b'[' ∷ b't' ∷ b'r' ∷ b'u' ∷ b'e'
    ∷ b',' ∷ b'"' ∷ 0xF0 ∷ 0x9F ∷ 0x91 ∷ 0x81 ∷ b'\\' ∷ b'"' ∷ b'"' ∷ b']' ∷ b'}' ∷ []

sample-IsLexical : IsLexical sample
unfolding IsLexical
sample-IsLexical = (
  (omega arith, (omega arith, (omega arith, tt))),
  sum_number-IsNumeral,
  (
    (omega arith, (omega arith, (omega arith, (omega arith, tt)))),
    (tt, ((omega arith, (omega arith, (omega arith, tt))), tt)),
    tt,
  ),
)

sample_printed : to_json_bytes production sample ≡ printed sample_bytes
unfolding to_json_bytes print_value print_items print_members print_key print_string print_number
    append_json_encoded_string encode_units encode_point utf8_of literal seen text_discrete
sample_printed = refl

parse_document-to_json_bytes_example : parse_document production sample_bytes ≡ document sample
parse_document-to_json_bytes_example =
    parse_document-to_json_bytes production sample sample_bytes sample_printed sample-IsLexical
      (omega arith)

to_json_bytes-parse_document_example :
    (bs : Bytes) × (to_json_bytes production sample ≡ printed bs)
    × (length bs ≤ length sample_bytes)
    × (parse_document production bs ≡ document sample)
to_json_bytes-parse_document_example =
    to_json_bytes-parse_document production sample_bytes sample parse_document-to_json_bytes_example

parse_document-IsWithin_example :
    IsWithin production sample
    × (depth sample ≤ production.max_depth)
    × (nodes sample ≤ production.max_total_nodes)
parse_document-IsWithin_example =
    parse_document-IsWithin production sample_bytes sample parse_document-to_json_bytes_example

-- Limits in which an array may stand in another one.
abbrev two_levels : ParseLimits
two_levels = record production { max_depth = 1 }

-- A control byte is no white space.
control-Stops : Stops (0x01 ∷ [])
control-Stops = (
  λ e. absurd (omega arith),
  λ e. absurd (omega arith),
  λ e. absurd (omega arith),
  λ e. absurd (omega arith),
  λ e. absurd (omega arith),
)

parse_document-brackets_example :
    parse_document two_levels (brackets 2 (0x01 ∷ [])) ≡ rejected nesting_depth 2
parse_document-brackets_example =
    parse_document-brackets two_levels (0x01 ∷ []) control-Stops (omega arith) (omega arith)
      (omega arith)

has_lone_surrogate_lem_example :
    has_lone_surrogate (0xD83D ∷ b'a' ∷ [])
    ≡ not (is_some (append_json_encoded_string (0xD83D ∷ b'a' ∷ [])))
has_lone_surrogate_lem_example = has_lone_surrogate_lem (0xD83D ∷ b'a' ∷ [])

-- A key that stands twice.
abbrev twice : Members
twice = member (codes "a") (boolean true) (member (codes "a") (boolean false) no_members)

find_lem_example :
    (find (object twice) (codes "a") ≡ first_member (codes "a") twice)
    × (contains (object twice) (codes "a") ≡ is_some (first_member (codes "a") twice))
    × (seen (codes "a") (keys (object twice)) ≡ is_some (first_member (codes "a") twice))
    × (value (object twice) (codes "a")
        ≡ elim (first_member (codes "a") twice) [ none ↦ undefined | some w ↦ w ])
find_lem_example = find_lem twice (codes "a")
