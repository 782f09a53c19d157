-- ===== src/Json/Parser/Numbers.antt =====
-- `Parser` of src/domain/RawJson.cpp: errors, white space, literals and numbers.
use arkham_horror_linux.Common.{
  ℕ, Bool, true, false, not, ◌||◌, Option, none, some, [], ◌∷◌, Text, length, ltb, ◌==◌,
  if◌then◌else◌,
}
use arkham_horror_linux.Json.{ParseLimits, Value, number, Bytes, is_ascii_digit}

pub data JsonError : Type 0 where
  nesting_depth node_count unexpected_end trailing_content : JsonError
  unexpected_character : ℕ → JsonError
  invalid_literal : Text → JsonError
  number_digit fraction_digit exponent_digit integer_too_long fraction_too_long exponent_too_long :
      JsonError
  unterminated_string string_too_long unterminated_escape invalid_escape control_character :
      JsonError
  lone_high no_low lone_low truncated_escape invalid_hex : JsonError
  utf8_lead utf8_truncated utf8_continuation utf8_overlong utf8_surrogate utf8_range : JsonError
  too_many_elements unterminated_array array_separator : JsonError
  too_many_members key_expected colon_expected unterminated_object object_separator : JsonError
  duplicate_key : Text → JsonError

-- `failed` has the bytes at which the parser stands.
pub data Result (A : Type 0) : Type 0 where
  ok : A → Result A
  failed : JsonError → Bytes → Result A

module _ {A B : Type 0} where
  infixl 5 ◌>>=◌
  abbrev pub ◌>>=◌ : Result A → (A → Result B) → Result B
  ok a >>= f = f a
  failed e b >>= f = failed e b

unfoldable pub skip_whitespace : Bytes → Bytes
skip_whitespace [] = []
skip_whitespace (c ∷ b) =
    if c == 0x20 || (c == 0x09 || (c == 0x0A || c == 0x0D)) then skip_whitespace b else c ∷ b

-- `!atEnd() && peek() == c`, and what follows it.
abbrev pub starts : ℕ → Bytes → Bool
starts c [] = false
starts c (x ∷ b) = x == c

abbrev pub starts_digit : Bytes → Bool
starts_digit [] = false
starts_digit (x ∷ b) = is_ascii_digit x

abbrev pub rest_of : Bytes → Bytes
rest_of [] = []
rest_of (x ∷ b) = b

unfoldable pub span_digits : Bytes → Text × Bytes
span_digits [] = ([], [])
span_digits (c ∷ b) =
    let (ds, rest) = span_digits b in if is_ascii_digit c then (c ∷ ds, rest) else ([], c ∷ b)

-- Literals

unfoldable pub literal_rest : Text → Bytes → Option Bytes
literal_rest [] b = some b
literal_rest (u ∷ t) [] = none
literal_rest (u ∷ t) (c ∷ b) = if c == u then literal_rest t b else none

unfoldable pub parse_literal : Text → Value → Bytes → Result (Value × Bytes)
parse_literal text v b = elim (literal_rest text b) [
  | none ↦ failed (invalid_literal text) b
  | some rest ↦ ok (v, rest)
]

-- Numbers

-- The sign, if there is one.
abbrev pub exponent_sign : Bytes → Bool × Bytes
exponent_sign b =
    if starts b'+' b
    then (false, rest_of b)
    else if starts b'-' b
    then (true, rest_of b)
    else (false, b)

module _ (l : ParseLimits) where
  -- The digits at the front, if they are not too many.
  unfoldable pub bounded_digits : JsonError → Bytes → Result (Text × Bytes)
  bounded_digits e b =
      let (ds, rest) = span_digits b in
      if ltb l.max_number_digits (length ds) then failed e rest else ok (ds, rest)

  unfoldable pub parse_integer : Bytes → Result (Text × Bytes)
  parse_integer b =
      if not (starts_digit b)
      then failed number_digit b
      else if starts b'0' b
      then if ltb l.max_number_digits 1
        then failed integer_too_long (rest_of b)
        else ok (b'0' ∷ [], rest_of b)
      else bounded_digits integer_too_long b

  unfoldable pub parse_fraction : Bytes → Result (Text × Bytes)
  parse_fraction b =
      if not (starts b'.' b)
      then ok ([], b)
      else if not (starts_digit (rest_of b))
      then failed fraction_digit (rest_of b)
      else bounded_digits fraction_too_long (rest_of b)

  unfoldable pub exponent_after : Bool × Bytes → Result ((Bool × Bool × Text) × Bytes)
  exponent_after (negative, b) =
      if not (starts_digit b)
      then failed exponent_digit b
      else bounded_digits exponent_too_long b >>= λ (ds, rest). ok ((true, negative, ds), rest)

  -- Whether there is an exponent, whether it is negative, and its digits.
  unfoldable pub parse_exponent : Bytes → Result ((Bool × Bool × Text) × Bytes)
  parse_exponent b =
      if not (starts b'e' b || starts b'E' b)
      then ok ((false, false, []), b)
      else exponent_after (exponent_sign (rest_of b))

  unfoldable pub parse_unsigned : Bool → Bytes → Result (Value × Bytes)
  parse_unsigned negative b = parse_integer b >>= λ (int, b1). parse_fraction b1 >>= λ (frac, b2).
      parse_exponent b2 >>= λ ((has, down, exp), b3). ok (
        number (record {
          negative = negative;
          int_digits = int;
          frac_digits = frac;
          has_exponent = has;
          exponent_negative = down;
          exp_digits = exp;
        }),
        b3,
      )

  unfoldable pub parse_number : Bytes → Result (Value × Bytes)
  parse_number b = if starts b'-' b then parse_unsigned true (rest_of b) else parse_unsigned false b
