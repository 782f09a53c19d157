-- ===== src/Json/Rejects.antt =====
-- src/domain/RawJson.cpp: arrays that are nested too deep.
use arkham_horror_linux.Common.{
  ℕ, zero, suc, ◌+◌, ◌-◌, ◌<◌, ◌≤◌, false, [], ◌∷◌, length, ltb, ◌≡◌, ◌≢◌, refl, arith, ap,
}
use arkham_horror_linux.Json.{ParseLimits, Bytes}
use arkham_horror_linux.Json.Parser.{
  failed, starts, nesting_depth, skip_whitespace, element_loop, parse_array, dispatch, parse_value,
  rejected, parse_document,
}

-- The end, or a byte that is none of the four of white space and no closing bracket.
abbrev pub Stops : Bytes → Type 0
Stops [] = Unit
Stops (c ∷ b) = (c ≢ 0x20) × (c ≢ 0x09) × (c ≢ 0x0A) × (c ≢ 0x0D) × (c ≢ b']')

-- A number of opening brackets, and what is behind them.
unfoldable pub brackets : ℕ → Bytes → Bytes
brackets zero rest = rest
brackets (suc n) rest = b'[' ∷ brackets n rest

brackets-Stops : (n : ℕ) (rest : Bytes) → Stops rest → Stops (brackets n rest)
unfolding brackets
brackets-Stops zero rest s = s
brackets-Stops (suc n) rest s = (
  λ e. absurd (omega arith),
  λ e. absurd (omega arith),
  λ e. absurd (omega arith),
  λ e. absurd (omega arith),
  λ e. absurd (omega arith),
)

length-brackets : (n : ℕ) (rest : Bytes) → length (brackets n rest) ≡ n + length rest
unfolding brackets
length-brackets zero rest = omega arith
length-brackets (suc n) rest = let k = length-brackets n rest in omega arith

stays : (b : Bytes) → Stops b → (skip_whitespace b ≡ b) × (starts b']' b ≡ false)
unfolding skip_whitespace
stays [] s = (refl, refl)
stays (c ∷ b) s = (ground arith, ground arith)

module _ (l : ParseLimits) where
  parse_array_fails :
      (room left slots : ℕ) (b rest : Bytes)
      → Stops b
      → 1 ≤ slots
      → parse_value l room left b ≡ failed nesting_depth rest
      → parse_array (parse_value l room) slots left b ≡ failed nesting_depth rest
  unfolding parse_array element_loop
  parse_array_fails room left zero b rest s a e = absurd (omega arith)
  parse_array_fails room left (suc slots) b rest s a e =
      let (same, open_h) = stays b s in rw (same) (rw (open_h, same, e) refl)

  parse_value-brackets :
      (room left : ℕ) (rest : Bytes)
      → Stops rest
      → room ≤ left
      → 1 ≤ l.max_array_elements
      → parse_value l room left (brackets room rest) ≡ failed nesting_depth rest
  unfolding parse_value brackets dispatch
  parse_value-brackets zero left rest s k a = refl
  parse_value-brackets (suc room) zero rest s k a = absurd (omega arith)
  parse_value-brackets (suc room) (suc left) rest s k a =
      parse_array_fails room left l.max_array_elements (brackets room rest) rest
        (brackets-Stops room rest s) a (parse_value-brackets room left rest s (omega arith) a)

  -- One opening bracket more than `max_depth`, at the end or before a byte that is no space, tab,
  -- line feed, carriage return or closing bracket, is an error right behind the brackets, when an
  -- array may have an element and the limits of nodes and bytes are not reached first.
  pub parse_document-brackets :
      (rest : Bytes)
      → Stops rest
      → l.max_depth < l.max_total_nodes
      → 1 ≤ l.max_array_elements
      → suc l.max_depth + length rest ≤ l.max_input_bytes
      → parse_document l (brackets (suc l.max_depth) rest)
        ≡ rejected nesting_depth (suc l.max_depth)
  unfolding parse_document
  parse_document-brackets rest s k a small =
      let open_h = brackets-Stops (suc l.max_depth) rest s in
      let (same, more) = stays (brackets (suc l.max_depth) rest) open_h in
      let size = length-brackets (suc l.max_depth) rest in
      let fits : ltb l.max_input_bytes (length (brackets (suc l.max_depth) rest)) ≡ false =
        ground arith in
      let at_brackets : length (brackets (suc l.max_depth) rest) - length rest ≡ suc l.max_depth =
        omega arith in
      rw (fits, same, parse_value-brackets (suc l.max_depth) l.max_total_nodes rest s k a)
        (ap (rejected nesting_depth) at_brackets)
