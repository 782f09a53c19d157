-- ===== src/Json/Printer.antt =====
-- `toJsonBytes` of src/domain/RawJson.cpp. `room` is what is left of `max_depth` (and one), and
-- `left` of `max_total_nodes`.
use arkham_horror_linux.Common.{
  ℕ, zero, suc, ◌+◌, ◌-◌, ◌*◌, ◌/◌, ◌%◌, Bool, true, false, ◌&&◌, ◌||◌, Option, none, some, List,
  [], ◌∷◌, ◌++◌, Text, codes, length, ltb, ◌==◌, if◌then◌else◌, is_empty,
}
use arkham_horror_linux.Json.{
  ParseLimits, RawNumber, Value, Items, Members, undefined, null, boolean, number, string, array,
  object, no_items, item, no_members, member, Bytes, is_high, is_low, seen,
}

pub data PrintError : Type 0 where
  too_deep too_many_nodes undefined_value no_digits too_many_digits string_length lone_surrogate :
      PrintError
  element_count member_count key_length key_surrogate : PrintError
  repeated_key : Text → PrintError

pub data Printed (A : Type 0) : Type 0 where
  printed : A → Printed A
  refused : PrintError → Printed A

module _ {A B : Type 0} where
  infixl 5 ◌>>=◌
  abbrev pub ◌>>=◌ : Printed A → (A → Printed B) → Printed B
  printed a >>= f = f a
  refused e >>= f = refused e

abbrev pub hex_digit : ℕ → ℕ
hex_digit n = if ltb n 10 then b'0' + n else b'a' + (n - 10)

-- `QChar::surrogateToUcs4`.
abbrev pub surrogate_to_ucs4 : ℕ → ℕ → ℕ
surrogate_to_ucs4 high low = (high - 0xD800) * 1024 + (low - 0xDC00) + 0x10000

-- `0xC0 | (codepoint >> 6)` and so on, at code points of that length.
unfoldable pub utf8_of : ℕ → Bytes
utf8_of point =
    if ltb point 0x80
    then point ∷ []
    else if ltb point 0x800
    then (0xC0 + point / 64) ∷ (0x80 + point % 64) ∷ []
    else if ltb point 0x10000
    then (0xE0 + point / 4096) ∷ (0x80 + point / 64 % 64) ∷ (0x80 + point % 64) ∷ []
    else (0xF0 + point / 262144)
      ∷ (0x80 + point / 4096 % 64)
      ∷ (0x80 + point / 64 % 64)
      ∷ (0x80 + point % 64)
      ∷ []

unfoldable pub encode_point : ℕ → Bytes
encode_point point =
    if point == b'"'
    then b'\\' ∷ b'"' ∷ []
    else if point == b'\\'
    then b'\\' ∷ b'\\' ∷ []
    else if point == 0x08
    then b'\\' ∷ b'b' ∷ []
    else if point == 0x0C
    then b'\\' ∷ b'f' ∷ []
    else if point == 0x0A
    then b'\\' ∷ b'n' ∷ []
    else if point == 0x0D
    then b'\\' ∷ b'r' ∷ []
    else if point == 0x09
    then b'\\' ∷ b't' ∷ []
    else if ltb point 0x20
    then b'\\' ∷ b'u' ∷ b'0' ∷ b'0' ∷ hex_digit (point / 16) ∷ hex_digit (point % 16) ∷ []
    else utf8_of point

abbrev pub behind : Bytes → Option Bytes → Option Bytes
behind b none = none
behind b (some rest) = some (b ++ rest)

-- After the opening quote; `none` for a lone surrogate.
unfoldable pub encode_units : Text → Option Bytes
encode_units [] = some (b'"' ∷ [])
encode_units (u ∷ []) = if is_high u || is_low u then none else some (encode_point u ++ b'"' ∷ [])
encode_units (u ∷ v ∷ t) = elim (is_high u && is_low v) [
  | true ↦ behind (encode_point (surrogate_to_ucs4 u v)) (encode_units t)
  | false ↦ elim (is_high u || is_low u) [
    | true ↦ none
    | false ↦ behind (encode_point u) (encode_units (v ∷ t))
  ]
]

unfoldable pub append_json_encoded_string : Text → Option Bytes
append_json_encoded_string t = behind (b'"' ∷ []) (encode_units t)

abbrev pub sign : Bool → Text
sign negative = if negative then b'-' ∷ [] else []

abbrev pub fraction_part : Text → Text
fraction_part [] = []
fraction_part (c ∷ ds) = b'.' ∷ c ∷ ds

unfoldable pub literal : RawNumber → Text
literal n =
    sign n.negative
    ++ (n.int_digits
        ++ (fraction_part n.frac_digits
            ++ (if n.has_exponent then b'e' ∷ (sign n.exponent_negative ++ n.exp_digits) else [])))

abbrev pub count_items : Items → ℕ
count_items no_items = 0
count_items (item v xs) = suc (count_items xs)

abbrev pub count_members : Members → ℕ
count_members no_members = 0
count_members (member k v ms) = suc (count_members ms)

abbrev pub comma : Bool → Bytes
comma first = if first then [] else b',' ∷ []

abbrev pub ahead : Bytes → Bytes × ℕ → Printed (Bytes × ℕ)
ahead b (c, left) = printed (b ++ c, left)

module _ (l : ParseLimits) where
  unfoldable pub print_number : RawNumber → ℕ → Printed (Bytes × ℕ)
  print_number n left =
      if is_empty n.int_digits
      then refused no_digits
      else if ltb l.max_number_digits (length n.int_digits)
          || (ltb l.max_number_digits (length n.frac_digits)
              || ltb l.max_number_digits (length n.exp_digits))
      then refused too_many_digits
      else printed (literal n, left)

  unfoldable pub print_string : Text → ℕ → Printed (Bytes × ℕ)
  print_string t left =
      if ltb l.max_string_length (length t)
      then refused string_length
      else elim (append_json_encoded_string t) [
        | none ↦ refused lone_surrogate
        | some b ↦ printed (b, left)
      ]

  -- The key and the colon, with the comma before them.
  unfoldable pub print_key : Text → List Text → Bool → Printed Bytes
  print_key k keys first =
      if ltb l.max_string_length (length k)
      then refused key_length
      else if seen k keys
      then refused (repeated_key k)
      else elim (append_json_encoded_string k) [
        | none ↦ refused key_surrogate
        | some b ↦ printed (comma first ++ (b ++ b':' ∷ []))
      ]

unfoldable mutual
  pub print_value : ParseLimits → ℕ → ℕ → Value → Printed (Bytes × ℕ)
  print_value l zero left v = refused too_deep
  print_value l (suc room) zero v = refused too_many_nodes
  print_value l (suc room) (suc left) undefined = refused undefined_value
  print_value l (suc room) (suc left) null = printed (codes "null", left)
  print_value l (suc room) (suc left) (boolean b) =
      printed (if b then codes "true" else codes "false", left)
  print_value l (suc room) (suc left) (number n) = print_number l n left
  print_value l (suc room) (suc left) (string t) = print_string l t left
  print_value l (suc room) (suc left) (array xs) =
      if ltb l.max_array_elements (count_items xs)
      then refused element_count
      else print_items l room left true xs >>= ahead (b'[' ∷ [])
  print_value l (suc room) (suc left) (object ms) =
      if ltb l.max_object_members (count_members ms)
      then refused member_count
      else print_members l room left true [] ms >>= ahead (b'{' ∷ [])

  -- Up to the closing bracket.
  pub print_items : ParseLimits → ℕ → ℕ → Bool → Items → Printed (Bytes × ℕ)
  print_items l room left first no_items = printed (b']' ∷ [], left)
  print_items l room left first (item v xs) = print_value l room left v >>= λ (b, left1).
      print_items l room left1 false xs >>= ahead (comma first ++ b)

  pub print_members : ParseLimits → ℕ → ℕ → Bool → List Text → Members → Printed (Bytes × ℕ)
  print_members l room left first keys no_members = printed (b'}' ∷ [], left)
  print_members l room left first keys (member k v ms) = print_key l k keys first >>= λ head.
      print_value l room left v >>= λ (b, left1).
      print_members l room left1 false (k ∷ keys) ms >>= ahead (head ++ b)

unfoldable pub to_json_bytes : ParseLimits → Value → Printed Bytes
to_json_bytes l v = print_value l (suc l.max_depth) l.max_total_nodes v >>= λ (b, left). printed b
