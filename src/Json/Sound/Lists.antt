-- ===== src/Json/Sound/Lists.antt =====
-- src/domain/RawJson.cpp: the elements of an array, when what is read for a value can be written.
use arkham_horror_linux.Common.{
  ℕ, zero, suc, ◌+◌, ◌≤◌, Bool, true, false, [], ◌∷◌, ◌++◌, length, ◌==◌, ◌≡◌, refl, arith,
  Bool-cases, inl, inr, subst, ◌⊎◌,
}
use mathlib.Core.List.{append_assoc}
use arkham_horror_linux.Json.{ParseLimits, Value, Items, array, no_items, item, Bytes}
use arkham_horror_linux.Json.Parser.{
  Result, ok, skip_whitespace, starts, rest_of, after_element, element_loop, parse_array,
  parse_value, array_separator,
}
use arkham_horror_linux.Json.Printer.{printed, print_value, print_items, comma, count_items}
use arkham_horror_linux.Json.Lexical.{IsLexical, AreLexical}
use arkham_horror_linux.Json.Sound.Points.{length-rest_of}
use arkham_horror_linux.Json.Sound.Outcome.{ok_inv, passed_inv, ok_subst}
use arkham_horror_linux.Json.Sound.Texts.{length_app}

pub length-skip_whitespace : (b : Bytes) → length (skip_whitespace b) ≤ length b
unfolding skip_whitespace
length-skip_whitespace [] = omega arith
length-skip_whitespace (c ∷ b) = let k = length-skip_whitespace b in ground arith

pub bytes_cases : (b : Bytes) → (b ≡ []) ⊎ ((c : ℕ) × (t : Bytes) × (b ≡ c ∷ t))
bytes_cases [] = inl refl
bytes_cases (c ∷ t) = inr (c, t, refl)

module _ (l : ParseLimits) (room : ℕ) where
  -- A value that can be written, with the nodes it was read with, in no more bytes.
  abbrev pub IsValue : ℕ → ℕ → (Value × ℕ) × Bytes → Type 0
  IsValue left size ((v, left'), rest) =
      (bs : Bytes) × (print_value l room left v ≡ printed (bs, left'))
      × IsLexical v
      × (length bs + length rest ≤ size)

  abbrev pub Accepts : Type 0
  Accepts =
      (left : ℕ) (b : Bytes) (p : (Value × ℕ) × Bytes)
      → parse_value l room left b ≡ ok p
      → IsValue left (length b) p

  -- Elements that can be written, up to the bracket.
  abbrev AreItems : ℕ → ℕ → ℕ → (Items × ℕ) × Bytes → Type 0
  AreItems slots left size ((xs, left'), rest) =
      (body : Bytes) × ((first : Bool)
        → print_items l room left first xs ≡ printed (comma first ++ body, left'))
      × AreLexical xs
      × (count_items xs ≤ slots)
      × (length body + length rest ≤ size)

  print_items-last :
      (left left1 : ℕ) (v : Value) (bs : Bytes) (first : Bool)
      → print_value l room left v ≡ printed (bs, left1)
      → print_items l room left first (item v no_items)
        ≡ printed (comma first ++ (bs ++ (b']' ∷ [])), left1)
  unfolding print_items
  print_items-last left left1 v bs first e = rw (e, append_assoc) refl

  print_items-item :
      (left left1 left' : ℕ) (v : Value) (xs : Items) (bs body : Bytes) (first : Bool)
      → print_value l room left v ≡ printed (bs, left1)
      → print_items l room left1 false xs ≡ printed (b',' ∷ body, left')
      → print_items l room left first (item v xs)
        ≡ printed (comma first ++ (bs ++ (b',' ∷ body)), left')
  unfolding print_items
  print_items-item left left1 left' v xs bs body first e f = rw (e, f, append_assoc) refl

  after_element_lem :
      (slots left left1 size : ℕ) (again : ℕ → Bytes → Result ((Items × ℕ) × Bytes)) (v : Value)
      (rest : Bytes) (p : (Items × ℕ) × Bytes)
      → ((b : Bytes) (q : (Items × ℕ) × Bytes)
          → again left1 b ≡ ok q
          → AreItems slots left1 (length b) q)
      → IsValue left size ((v, left1), rest)
      → after_element (parse_value l room) again ((v, left1), rest) ≡ ok p
      → AreItems (suc slots) left size p
  unfolding after_element AreLexical
  after_element_lem slots left left1 size again v rest p more (bs, e1, g, total) e =
      elim (bytes_cases (skip_whitespace rest)) [
        | inl none_h ↦ absurd (ground (arith, rw (none_h, after_element) at e))
        | inr (c, b, shape) ↦
            let k : suc (length b) ≤ length rest =
              subst (λ t. length t ≤ length rest) shape (length-skip_whitespace rest) in
            elim (Bool-cases (c == b',')) [
              | inl h ↦
                  let (((xs, left'), rest'), f, same) =
                    ok_inv (again left1 b) _ p (rw (shape, h, after_element) at e) in
                  let (body, prints, gs, few, total') = more b ((xs, left'), rest') f in
                  let sum = length_app bs (b',' ∷ body) in
                  ok_subst (AreItems (suc slots) left size) ((item v xs, left'), rest') p same
                    (
                      bs ++ (b',' ∷ body),
                      (λ first.
                          print_items-item left left1 left' v xs bs body first e1 (prints false)),
                      (g, gs),
                      omega arith,
                      omega arith,
                    )
              | inr h ↦
                  let (last, same) =
                    passed_inv (c == b']') array_separator (c ∷ b)
                      (ok ((item v no_items, left1), b)) p (rw (shape, h, after_element) at e) in
                  let sum = length_app bs (b']' ∷ []) in
                  ok_subst (AreItems (suc slots) left size) ((item v no_items, left1), b) p same
                    (
                      bs ++ (b']' ∷ []),
                      (λ first. print_items-last left left1 v bs first e1),
                      (g, tt),
                      omega arith,
                      omega arith,
                    )
            ]
      ]

  -- An array that can be written, behind the opening bracket.
  abbrev pub IsArray : ℕ → ℕ → ℕ → (Value × ℕ) × Bytes → Type 0
  IsArray slots left size ((v, left'), rest) =
      (xs : Items) × (body : Bytes) × (v ≡ array xs)
      × (print_items l room left true xs ≡ printed (body, left'))
      × AreLexical xs
      × (count_items xs ≤ slots)
      × (length body + length rest ≤ size)

  no_elements :
      (slots left size : ℕ) (rest : Bytes) (p : (Value × ℕ) × Bytes)
      → suc (length rest) ≤ size
      → ok ((array no_items, left), rest) ≡ ok p
      → IsArray slots left size p
  unfolding print_items AreLexical
  no_elements slots left size rest p k e =
      ok_subst (IsArray slots left size) ((array no_items, left), rest) p e
        (no_items, b']' ∷ [], refl, refl, tt, omega arith, omega arith)

  module _ (accepts : Accepts) where
    element_loop_lem :
        (slots left : ℕ) (b : Bytes) (p : (Items × ℕ) × Bytes)
        → element_loop (parse_value l room) slots left b ≡ ok p
        → AreItems slots left (length b) p
    unfolding element_loop
    element_loop_lem zero left b p e = absurd (ground (arith, e))
    element_loop_lem (suc slots) left b p e =
        let (((v, left1), rest), f, g) =
          ok_inv (parse_value l room left (skip_whitespace b)) _ p e in
        let (bs, e1, h, total) = accepts left (skip_whitespace b) ((v, left1), rest) f in
        let k = length-skip_whitespace b in
        after_element_lem slots left left1 (length b) (element_loop (parse_value l room) slots) v
          rest p (λ c q e2. element_loop_lem slots left1 c q e2) (bs, e1, h, omega arith) g

    pub parse_array_lem :
        (slots left : ℕ) (b : Bytes) (p : (Value × ℕ) × Bytes)
        → parse_array (parse_value l room) slots left b ≡ ok p
        → IsArray slots left (length b) p
    unfolding parse_array
    parse_array_lem slots left b p e =
        let k = length-skip_whitespace b in
        elim (Bool-cases (starts b']' (skip_whitespace b))) [
          | inl h ↦
              let size = length-rest_of b']' (skip_whitespace b) h in
              no_elements slots left (length b) (rest_of (skip_whitespace b)) p (omega arith)
                (rw (h, parse_array) at e)
          | inr h ↦
              let (((xs, left'), rest), f, same) =
                ok_inv (element_loop (parse_value l room) slots left (skip_whitespace b)) _ p
                  (rw (h, parse_array) at e) in
              let (body, prints, gs, few, total) =
                element_loop_lem slots left (skip_whitespace b) ((xs, left'), rest) f in
              ok_subst (IsArray slots left (length b)) ((array xs, left'), rest) p same
                (xs, body, refl, prints true, gs, few, omega arith)
        ]
