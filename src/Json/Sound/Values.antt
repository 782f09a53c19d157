-- ===== src/Json/Sound/Values.antt =====
-- src/domain/RawJson.cpp: a document that is read can be written, and read again.
use arkham_horror_linux.Common.{
  ℕ, zero, suc, ◌+◌, ◌≤◌, true, false, ◌||◌, some, [], ◌∷◌, Text, codes, length, ltb, ◌==◌, ◌≡◌,
  refl, arith, Bool-cases, Option-cases, inl, inr, sym, subst, ap, ◌∙◌,
}
use arkham_horror_linux.Json.{
  ParseLimits, RawNumber, Value, null, boolean, string, Bytes, is_ascii_digit,
}
use arkham_horror_linux.Json.Parser.{
  Result, ok, failed, ◌>>=◌, skip_whitespace, literal_rest, parse_literal, parse_number,
  string_loop, leaf, dispatch, parse_value, finish, document, report, parse_document,
}
use arkham_horror_linux.Json.Printer.{
  printed, literal, encode_units, append_json_encoded_string, print_number, print_string,
  print_value, count_items, count_members, to_json_bytes,
}
use arkham_horror_linux.Json.Numerals.{IsNumeral, integer_full}
use arkham_horror_linux.Json.Lexical.{IsLexical}
use arkham_horror_linux.Json.RoundTrip.{parse_document-to_json_bytes}
use arkham_horror_linux.Json.Sound.Outcome.{ok_inv, either_way, ok_subst}
use arkham_horror_linux.Json.Sound.Texts.{string_loop_lem}
use arkham_horror_linux.Json.Sound.Numerals.{parse_number_lem}
use arkham_horror_linux.Json.Sound.Lists.{
  length-skip_whitespace, bytes_cases, IsValue, Accepts, IsArray, parse_array_lem,
}
use arkham_horror_linux.Json.Sound.Members.{IsObject, parse_object_lem}

literal_rest_lem :
    (t : Text) (b rest : Bytes) → literal_rest t b ≡ some rest → length t + length rest ≤ length b
unfolding literal_rest
literal_rest_lem [] b rest e = let same : b ≡ rest = ground (arith, e) in rw (same) (omega arith)
literal_rest_lem (u ∷ t) [] rest e = absurd (ground (arith, e))
literal_rest_lem (u ∷ t) (c ∷ b) rest e = elim (Bool-cases (c == u)) [
  | inl h ↦ let k = literal_rest_lem t b rest (rw (h) at e) in omega arith
  | inr h ↦ absurd (ground (arith, e, h))
]

module _ (l : ParseLimits) where
  print_number_fits :
      (n : RawNumber) (left : ℕ)
      → IsNumeral n
      → length n.int_digits ≤ l.max_number_digits
      → length n.frac_digits ≤ l.max_number_digits
      → length n.exp_digits ≤ l.max_number_digits
      → print_number l n left ≡ printed (literal n, left)
  unfolding print_number
  print_number_fits n left g ki kf ke =
      let long : ltb l.max_number_digits (length n.int_digits)
            || (ltb l.max_number_digits (length n.frac_digits)
                || ltb l.max_number_digits (length n.exp_digits))
          ≡ false =
        ground arith in
      rw (integer_full n.int_digits g.integer, long) refl

  print_string_fits :
      (t : Text) (bs : Bytes) (left : ℕ)
      → encode_units t ≡ some bs
      → length t ≤ l.max_string_length
      → print_string l t left ≡ printed (b'"' ∷ bs, left)
  unfolding print_string append_json_encoded_string
  print_string_fits t bs left e k =
      let fits : ltb l.max_string_length (length t) ≡ false = ground arith in rw (fits, e) refl

module _ (l : ParseLimits) (room : ℕ) where
  -- A fixed text of which the printer writes the same bytes.
  parse_literal_lem :
      (t : Text) (v : Value) (left : ℕ) (b : Bytes) (p : (Value × ℕ) × Bytes)
      → print_value l (suc room) (suc left) v ≡ printed (t, left)
      → IsLexical v
      → (parse_literal t v b >>= leaf left) ≡ ok p
      → IsValue l (suc room) (suc left) (length b) p
  unfolding parse_literal
  parse_literal_lem t v left b p prints g e = elim (Option-cases (literal_rest t b)) [
    | inl none_h ↦ absurd (ground (arith, rw (none_h, parse_literal) at e))
    | inr (rest, h) ↦
        ok_subst (IsValue l (suc room) (suc left) (length b)) ((v, left), rest) p
          (rw (h, parse_literal) at e) (t, prints, g, literal_rest_lem t b rest h)
  ]

  number_lem :
      (left : ℕ) (b : Bytes) (p : (Value × ℕ) × Bytes)
      → (parse_number l b >>= leaf left) ≡ ok p
      → IsValue l (suc room) (suc left) (length b) p
  unfolding print_value print_number IsLexical
  number_lem left b p e =
      let ((v, rest), f, same) = ok_inv (parse_number l b) (leaf left) p e in
      let (n, is_number, g, ki, kf, ke, total) = parse_number_lem l b (v, rest) f in
      ok_subst (IsValue l (suc room) (suc left) (length b)) ((v, left), rest) p same
        (
          literal n,
          rw (is_number) (print_number_fits l n left g ki kf ke),
          subst (λ w. IsLexical w) (sym is_number) g,
          total,
        )

  string_lem :
      (left c : ℕ) (b : Bytes) (p : (Value × ℕ) × Bytes)
      → (string_loop l.max_string_length b >>= λ (t, rest). ok ((string t, left), rest)) ≡ ok p
      → IsValue l (suc room) (suc left) (suc (length b)) p
  unfolding print_value print_string append_json_encoded_string IsLexical
  string_lem left c b p e =
      let ((t, rest), f, same) = ok_inv (string_loop l.max_string_length b) _ p e in
      let (bs, units, us, short, total) = string_loop_lem l.max_string_length b (t, rest) f in
      ok_subst (IsValue l (suc room) (suc left) (suc (length b))) ((string t, left), rest) p same
        (b'"' ∷ bs, print_string_fits l t bs left units short, us, omega arith)

  array_lem :
      (left : ℕ) (b : Bytes) (p : (Value × ℕ) × Bytes)
      → IsArray l room l.max_array_elements left (length b) p
      → IsValue l (suc room) (suc left) (suc (length b)) p
  unfolding print_value IsLexical
  array_lem left b ((v, left'), rest) (xs, body, shape, prints, gs, few, total) =
      let fits : ltb l.max_array_elements (count_items xs) ≡ false = ground arith in
      (
        b'[' ∷ body,
        rw (shape) (rw (fits, prints) refl),
        subst (λ w. IsLexical w) (sym shape) gs,
        omega arith,
      )

  object_lem :
      (left : ℕ) (b : Bytes) (p : (Value × ℕ) × Bytes)
      → IsObject l room l.max_object_members left (length b) p
      → IsValue l (suc room) (suc left) (suc (length b)) p
  unfolding print_value IsLexical
  object_lem left b ((v, left'), rest) (ms, body, shape, prints, gs, few, total) =
      let fits : ltb l.max_object_members (count_members ms) ≡ false = ground arith in
      (
        b'{' ∷ body,
        rw (shape) (rw (fits, prints) refl),
        subst (λ w. IsLexical w) (sym shape) gs,
        omega arith,
      )

module _ (l : ParseLimits) (room : ℕ) (accepts : Accepts l room) where
  dispatch_lem :
      (left c : ℕ) (b : Bytes) (p : (Value × ℕ) × Bytes)
      → dispatch l (parse_value l room) left c b ≡ ok p
      → IsValue l (suc room) (suc left) (length (c ∷ b)) p
  unfolding dispatch print_value IsLexical
  dispatch_lem left c b p e =
      either_way (c == b'"') (string_lem l room left c b p)
        (either_way (c == b'{')
          (λ f.
            object_lem l room left b p
              (parse_object_lem l room accepts l.max_object_members left b p f))
          (either_way (c == b'[')
            (λ f.
              array_lem l room left b p
                (parse_array_lem l room accepts l.max_array_elements left b p f))
            (either_way (c == b't')
              (parse_literal_lem l room (codes "true") (boolean true) left (c ∷ b) p refl tt)
              (either_way (c == b'f')
                (parse_literal_lem l room (codes "false") (boolean false) left (c ∷ b) p refl tt)
                (either_way (c == b'n')
                  (parse_literal_lem l room (codes "null") null left (c ∷ b) p refl tt)
                  (either_way (c == b'-' || is_ascii_digit c) (number_lem l room left (c ∷ b) p)
                    (λ f. absurd (ground (arith, f)))))))))
        e

module _ (l : ParseLimits) where
  parse_value_lem : (room : ℕ) → Accepts l room
  unfolding parse_value
  parse_value_lem zero left b p e = absurd (ground (arith, e))
  parse_value_lem (suc room) zero b p e = absurd (ground (arith, e))
  parse_value_lem (suc room) (suc left) [] p e = absurd (ground (arith, e))
  parse_value_lem (suc room) (suc left) (c ∷ b) p e =
      dispatch_lem l room (parse_value_lem room) left c b p e

  finish_inv : (v w : Value) (left : ℕ) (rest : Bytes) → finish l ((v, left), rest) ≡ ok w → v ≡ w
  unfolding finish
  finish_inv v w left rest e = elim (bytes_cases (skip_whitespace rest)) [
    | inl h ↦ ground (arith, rw (h, finish) at e)
    | inr (c, b, h) ↦ absurd (ground (arith, rw (h, finish) at e))
  ]

  report_inv : (size : ℕ) (r : Result Value) (v : Value) → report size r ≡ document v → r ≡ ok v
  report_inv size (ok w) v e = ap ok (ground (arith, e))
  report_inv size (failed x b) v e = absurd (ground (arith, e))

  -- A document that is within the size is a value that starts behind the white space.
  pub parse_document_inv :
      (b : Bytes) (v : Value)
      → parse_document l b ≡ document v
      → (length b ≤ l.max_input_bytes)
        × ((left : ℕ) × (rest : Bytes) × (parse_value l
                (suc l.max_depth)
                l.max_total_nodes
                (skip_whitespace b)
              ≡ ok ((v, left), rest)))
  unfolding parse_document
  parse_document_inv b v e = elim (Bool-cases (ltb l.max_input_bytes (length b))) [
    | inl h ↦ absurd (ground (arith, rw (h, parse_document) at e))
    | inr h ↦
        let f =
          report_inv (length b)
            (parse_value l (suc l.max_depth) l.max_total_nodes (skip_whitespace b) >>= finish l) v
            (rw (h, parse_document) at e) in
        let (((w, left), rest), g, k) =
          ok_inv (parse_value l (suc l.max_depth) l.max_total_nodes (skip_whitespace b)) (finish l)
            v f in
        (
          ground (arith, h),
          (left, rest, g ∙ ap (λ x. ok ((x, left), rest)) (finish_inv w v left rest k)),
        )
  ]

  -- A document that is read is written again within the limits that it was read with, in no more
  -- bytes, and what is written reads as the same value.
  pub to_json_bytes-parse_document :
      (b : Bytes) (v : Value)
      → parse_document l b ≡ document v
      → (bs : Bytes) × (to_json_bytes l v ≡ printed bs)
        × (length bs ≤ length b)
        × (parse_document l bs ≡ document v)
  unfolding to_json_bytes
  to_json_bytes-parse_document b v e =
      let (small, (left, rest, f)) = parse_document_inv b v e in
      let (bs, prints, g, total) =
        parse_value_lem (suc l.max_depth) l.max_total_nodes (skip_whitespace b) ((v, left), rest)
          f in
      let k = length-skip_whitespace b in
      let prints' : to_json_bytes l v ≡ printed bs = rw (prints) refl in
      (bs, prints', omega arith, parse_document-to_json_bytes l v bs prints' g (omega arith))
