-- ===== src/Json/Parser/Strings.antt =====
-- `Parser` of src/domain/RawJson.cpp: strings, with their escapes and UTF-8.
use arkham_horror_linux.Common.{
  ℕ, zero, suc, ◌+◌, ◌-◌, ◌*◌, ◌/◌, ◌%◌, Bool, not, ◌&&◌, ◌||◌, Option, none, some, [], ◌∷◌, Text,
  length, ltb, leb, ◌==◌, if◌then◌else◌,
}
use arkham_horror_linux.Json.{Bytes, is_high, is_low, is_ascii_digit}
use arkham_horror_linux.Json.Parser.Numbers.{
  Result, unterminated_string, string_too_long, unterminated_escape, invalid_escape,
  control_character, lone_high, no_low, lone_low, truncated_escape, invalid_hex, utf8_lead,
  utf8_truncated, utf8_continuation, utf8_overlong, utf8_surrogate, utf8_range, ok, failed, ◌>>=◌,
  starts, rest_of,
}

abbrev pub is_hex_digit : ℕ → Bool
is_hex_digit c = is_ascii_digit c || ((leb b'a' c && leb c b'f') || (leb b'A' c && leb c b'F'))

abbrev pub hex_value : ℕ → ℕ
hex_value c =
    if is_ascii_digit c
    then c - b'0'
    else if leb b'a' c && leb c b'f'
    then 10 + (c - b'a')
    else 10 + (c - b'A')

unfoldable pub parse_hex4 : Bytes → Result (ℕ × Bytes)
parse_hex4 (x ∷ y ∷ z ∷ w ∷ b) =
    if is_hex_digit x && (is_hex_digit y && (is_hex_digit z && is_hex_digit w))
    then ok (((hex_value x * 16 + hex_value y) * 16 + hex_value z) * 16 + hex_value w, b)
    else failed invalid_hex (x ∷ y ∷ z ∷ w ∷ b)
parse_hex4 b = failed truncated_escape b

-- What one step of the loop over a string appends.
pub data Units : Type 0 where
  one : ℕ → Units
  two : ℕ → ℕ → Units

-- After the escape of a high surrogate.
unfoldable pub low_escape : ℕ → Bytes → Result (Units × Bytes)
low_escape high b =
    if not (starts b'\\' b && starts b'u' (rest_of b))
    then failed lone_high b
    else parse_hex4 (rest_of (rest_of b)) >>= λ (low, rest).
        if is_low low then ok (two high low, rest) else failed no_low rest

unfoldable pub unicode_escape : Bytes → Result (Units × Bytes)
unicode_escape b = parse_hex4 b >>= λ (code, rest).
    if is_high code
    then low_escape code rest
    else if is_low code
    then failed lone_low rest
    else ok (one code, rest)

-- After a backslash.
unfoldable pub parse_escape : Bytes → Result (Units × Bytes)
parse_escape [] = failed unterminated_escape []
parse_escape (e ∷ b) =
    if e == b'"'
    then ok (one b'"', b)
    else if e == b'\\'
    then ok (one b'\\', b)
    else if e == b'/'
    then ok (one b'/', b)
    else if e == b'b'
    then ok (one 0x08, b)
    else if e == b'f'
    then ok (one 0x0C, b)
    else if e == b'n'
    then ok (one 0x0A, b)
    else if e == b'r'
    then ok (one 0x0D, b)
    else if e == b't'
    then ok (one 0x09, b)
    else if e == b'u'
    then unicode_escape b
    else failed invalid_escape (e ∷ b)

-- `(c & 0xC0) == 0x80` for a byte, and `(codepoint << 6) | (c & 0x3F)`.
unfoldable pub continuations : ℕ → ℕ → Bytes → Option (ℕ × Bytes)
continuations zero point b = some (point, b)
continuations (suc n) point [] = none
continuations (suc n) point (c ∷ b) =
    if c / 64 == 2 then continuations n (point * 64 + c % 64) b else none

abbrev pub units_of : ℕ → Units
units_of point =
    if leb point 0xFFFF
    then one point
    else two (0xD800 + (point - 0x10000) / 1024) (0xDC00 + (point - 0x10000) % 1024)

unfoldable pub check_point : ℕ → ℕ → Bytes → Result (Units × Bytes)
check_point minimum point rest =
    if ltb point minimum
    then failed utf8_overlong rest
    else if leb 0xD800 point && leb point 0xDFFF
    then failed utf8_surrogate rest
    else if ltb 0x10FFFF point
    then failed utf8_range rest
    else ok (units_of point, rest)

-- `n` bytes after the lead byte.
unfoldable pub utf8_tail : ℕ → ℕ → ℕ → ℕ → Bytes → Result (Units × Bytes)
utf8_tail n start minimum lead b =
    if ltb (length b) n then failed utf8_truncated (lead ∷ b) else elim (continuations n start b) [
      | none ↦ failed utf8_continuation (lead ∷ b)
      | some (point, rest) ↦ check_point minimum point rest
    ]

-- `(lead & 0xE0) == 0xC0` is `lead / 32 == 6` for a byte, and so on.
unfoldable pub parse_utf8_sequence : ℕ → Bytes → Result (Units × Bytes)
parse_utf8_sequence lead b =
    if lead / 32 == 6
    then utf8_tail 1 (lead % 32) 0x80 lead b
    else if lead / 16 == 14
    then utf8_tail 2 (lead % 16) 0x800 lead b
    else if lead / 8 == 30
    then utf8_tail 3 (lead % 8) 0x10000 lead b
    else failed utf8_lead (lead ∷ b)

-- One step of the loop, at a byte that is not a quote.
unfoldable pub parse_units : ℕ → Bytes → Result (Units × Bytes)
parse_units c b =
    if c == b'\\'
    then parse_escape b
    else if ltb c 0x20
    then failed control_character (c ∷ b)
    else if ltb c 0x80
    then ok (one c, b)
    else parse_utf8_sequence c b

abbrev pub prepend : ℕ → Result (Text × Bytes) → Result (Text × Bytes)
prepend u r = r >>= λ (t, rest). ok (u ∷ t, rest)

-- The rest of the string, after one unit or after two.
abbrev pub append_units :
    (Bytes → Result (Text × Bytes))
    → (Bytes → Result (Text × Bytes))
    → Units × Bytes
    → Result (Text × Bytes)
append_units after_one after_two (one u, rest) = prepend u (after_one rest)
append_units after_one after_two (two u v, rest) = prepend u (prepend v (after_two rest))

-- After the opening quote. The quote is looked for first, then the limit.
unfoldable pub string_loop : ℕ → Bytes → Result (Text × Bytes)
string_loop room [] = failed unterminated_string []
string_loop zero (c ∷ b) = if c == b'"' then ok ([], b) else failed string_too_long (c ∷ b)
string_loop (suc zero) (c ∷ b) =
    if c == b'"'
    then ok ([], b)
    else parse_units c b >>= append_units (string_loop zero) (failed string_too_long)
string_loop (suc (suc room)) (c ∷ b) =
    if c == b'"'
    then ok ([], b)
    else parse_units c b >>= append_units (string_loop (suc room)) (string_loop room)
