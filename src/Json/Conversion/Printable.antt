-- ===== src/Json/Conversion/Printable.antt =====
-- src/domain/RawJson.cpp: what can be converted can be written.
use arkham_horror_linux.Common.{
  ℕ, zero, suc, Bool, true, false, ◌||◌, some, List, [], ◌∷◌, ◌++◌, Text, codes, length, ltb,
  if◌then◌else◌, is_empty, ◌≡◌, refl, arith, ap, sym, ◌∙◌, subst, Option-cases, inl, inr,
}
use arkham_horror_linux.Json.{
  ParseLimits, production, RawNumber, Value, Items, Members, undefined, null, boolean, number,
  string, array, object, no_items, item, no_members, member, seen, Bytes,
}
use arkham_horror_linux.Json.Printer.{
  printed, print_number, print_string, print_key, print_value, print_items, print_members,
  to_json_bytes, append_json_encoded_string, literal, comma,
}
use arkham_horror_linux.Json.Integers.{to_exact_int64}
use arkham_horror_linux.Json.Surrogates.{has_lone_surrogate, has_lone_surrogate_lem}
use arkham_horror_linux.Json.Conversion.{
  QtJson, ConversionError, Converted, converted, failure, ◌>>=◌, within, convert_string,
  convert_number, convert_key, defined, convert_value, convert_items, convert_members,
  to_exact_qjson, no_digits, digit_count, string_length, string_surrogate, key_length,
  key_surrogate, key_twice, element_count, member_count, undefined_element, undefined_member,
  in_element, in_member,
}

module _ {A B : Type 0} where
  converted_inv :
      (r : Converted A) (f : A → Converted B) (y : B)
      → (r >>= f) ≡ converted y
      → (a : A) × (r ≡ converted a) × (f a ≡ converted y)
  converted_inv (converted a) f y e = (a, refl, e)
  converted_inv (failure x) f y e = absurd (ground (arith, e))

module _ {A : Type 0} where
  past_inv :
      (b : Bool) (x : ConversionError) (r : Converted A) (y : A)
      → (if b then failure x else r) ≡ converted y
      → (b ≡ false) × (r ≡ converted y)
  past_inv true x r y e = absurd (ground (arith, e))
  past_inv false x r y e = (refl, e)

  within_inv :
      (f : ConversionError → ConversionError) (r : Converted A) (y : A)
      → within f r ≡ converted y
      → r ≡ converted y
  within_inv f (converted a) y e = e
  within_inv f (failure x) y e = absurd (ground (arith, e))

encodable :
    (t : Text)
    → has_lone_surrogate t ≡ false
    → (b : Bytes) × (append_json_encoded_string t ≡ some b)
encodable t h = elim (Option-cases (append_json_encoded_string t)) [
  | inl none_h ↦
      let k : false ≡ true = sym h ∙ has_lone_surrogate_lem t ∙ rw (none_h) refl in
      absurd (ground (arith, k))
  | inr found ↦ found
]

module _ (q : QtJson) (l : ParseLimits) where
  convert_number_lem :
      (n : RawNumber) (left : ℕ) (x : q.Q) (left' : ℕ)
      → convert_number q l n left ≡ converted (x, left')
      → print_number l n left ≡ printed (literal n, left')
  unfolding convert_number print_number
  convert_number_lem n left x left' e =
      let long =
        ltb l.max_number_digits (length n.int_digits)
        || (ltb l.max_number_digits (length n.frac_digits)
            || ltb l.max_number_digits (length n.exp_digits)) in
      elim (Option-cases (to_exact_int64 q.to_long_long n)) [
        | inl none_h ↦ absurd (ground (arith, e, none_h))
        | inr (z, h) ↦
            let exact : Converted (q.Q × ℕ) = converted (q.q_integer z, left) in
            let (full, f) =
              past_inv (is_empty n.int_digits) no_digits
                (if long then failure digit_count else exact) (x, left')
                (rw (h, convert_number) at e) in
            let (short, g) = past_inv long digit_count exact (x, left') f in
            let now : left ≡ left' = ground (arith, g) in rw (full, short, now) refl
      ]

  convert_string_lem :
      (t : Text) (left : ℕ) (x : q.Q) (left' : ℕ)
      → convert_string q l t left ≡ converted (x, left')
      → (b : Bytes) × (print_string l t left ≡ printed (b, left'))
  unfolding convert_string print_string
  convert_string_lem t left x left' e =
      let done_h : Converted (q.Q × ℕ) = converted (q.q_string t, left) in
      let (short, f) =
        past_inv (ltb l.max_string_length (length t)) string_length
          (if has_lone_surrogate t then failure string_surrogate else done_h) (x, left') e in
      let (paired, g) = past_inv (has_lone_surrogate t) string_surrogate done_h (x, left') f in
      let (b, found) = encodable t paired in
      let now : left ≡ left' = ground (arith, g) in (b, rw (short, found, now) refl)

  convert_key_lem :
      (k : Text) (keys : List Text) (key : Text) (first : Bool)
      → convert_key q l k keys ≡ converted key
      → (b : Bytes) × (print_key l k keys first ≡ printed b)
  unfolding convert_key print_key
  convert_key_lem k keys key first e =
      let done_h : Converted Text = converted k in
      let (short, f) =
        past_inv (ltb l.max_string_length (length k)) key_length
          (if has_lone_surrogate k
            then failure key_surrogate
            else if seen k keys
            then failure (key_twice k)
            else done_h)
          key e in
      let (paired, g) =
        past_inv (has_lone_surrogate k) key_surrogate
          (if seen k keys then failure (key_twice k) else done_h) key f in
      let (new, h) = past_inv (seen k keys) (key_twice k) done_h key g in
      let (b, found) = encodable k paired in
      (comma first ++ (b ++ b':' ∷ []), rw (short, new, found) refl)

  defined_lem :
      (e : ConversionError) (r : Converted (q.Q × ℕ)) (f : ConversionError → ConversionError)
      (x : q.Q) (left : ℕ)
      → (within f r >>= defined q l e) ≡ converted (x, left)
      → (r ≡ converted (x, left)) × (q.is_undefined x ≡ false)
  defined_lem e r f x left h =
      let ((y, n), g, k) = converted_inv (within f r) (defined q l e) (x, left) h in
      let (some_h, same) = past_inv (q.is_undefined y) e (converted (y, n)) (x, left) k in
      let same_y : y ≡ x = ground (arith, same) in
      (within_inv f r (y, n) g ∙ same, subst (λ w. q.is_undefined w ≡ false) same_y some_h)

module _ (q : QtJson) (l : ParseLimits) (room : ℕ) where
  abbrev Prints : Type 0
  Prints =
      (left : ℕ) (v : Value) (x : q.Q) (left' : ℕ)
      → convert_value q l room left v ≡ converted (x, left')
      → q.is_undefined x ≡ false
      → (bs : Bytes) × (print_value l room left v ≡ printed (bs, left'))

  module _ (prints : Prints) where
    convert_items_lem :
        (left i : ℕ) (first : Bool) (xs : Items) (ys : List q.Q) (left' : ℕ)
        → convert_items q l room left i xs ≡ converted (ys, left')
        → (bs : Bytes) × (print_items l room left first xs ≡ printed (bs, left'))
    unfolding convert_items print_items
    convert_items_lem left i first no_items ys left' e =
        let now : left ≡ left' = ground (arith, e) in (b']' ∷ [], rw (now) refl)
    convert_items_lem left i first (item v xs) ys left' e =
        let ((x, left1), f, g) =
          converted_inv
            (within (in_element i) (convert_value q l room left v)
              >>= defined q l (undefined_element i))
            _ (ys, left') e in
        let (h, some_h) =
          defined_lem q l (undefined_element i) (convert_value q l room left v) (in_element i) x
            left1 f in
        let ((zs, n), k, same) =
          converted_inv (convert_items q l room left1 (suc i) xs) _ (ys, left') g in
        let now : n ≡ left' = ground (arith, same) in
        let (b, one_h) = prints left v x left1 h some_h in
        let (c, more) = convert_items_lem left1 (suc i) false xs zs n k in
        ((comma first ++ b) ++ c, rw (one_h, more, now) refl)

    convert_members_lem :
        (left : ℕ) (first : Bool) (keys : List Text) (ms : Members) (ys : List (Text × q.Q))
        (left' : ℕ)
        → convert_members q l room left keys ms ≡ converted (ys, left')
        → (bs : Bytes) × (print_members l room left first keys ms ≡ printed (bs, left'))
    unfolding convert_members print_members
    convert_members_lem left first keys no_members ys left' e =
        let now : left ≡ left' = ground (arith, e) in (b'}' ∷ [], rw (now) refl)
    convert_members_lem left first keys (member k v ms) ys left' e =
        let (key, f0, e0) = converted_inv (convert_key q l k keys) _ (ys, left') e in
        let ((x, left1), f, g) =
          converted_inv
            (within (in_member k) (convert_value q l room left v)
              >>= defined q l (undefined_member k))
            _ (ys, left') e0 in
        let (h, some_h) =
          defined_lem q l (undefined_member k) (convert_value q l room left v) (in_member k) x left1
            f in
        let ((zs, n), j, same) =
          converted_inv (convert_members q l room left1 (k ∷ keys) ms) _ (ys, left') g in
        let now : n ≡ left' = ground (arith, same) in
        let (head, key_h) = convert_key_lem q l k keys key first f0 in
        let (b, one_h) = prints left v x left1 h some_h in
        let (c, more) = convert_members_lem left1 false (k ∷ keys) ms zs n j in
        ((head ++ b) ++ c, rw (key_h, one_h, more, now) refl)

module _ (q : QtJson) where
  convert_value_lem : (l : ParseLimits) (room : ℕ) → Prints q l room
  unfolding convert_value print_value
  convert_value_lem l zero left v x left' e d = absurd (ground (arith, e))
  convert_value_lem l (suc room) zero v x left' e d = absurd (ground (arith, e))
  convert_value_lem l (suc room) (suc left) undefined x left' e d =
      let same : q.q_undefined ≡ x = ground (arith, e) in
      let k : true ≡ false = sym q.undefined_law ∙ ap q.is_undefined same ∙ d in
      absurd (ground (arith, k))
  convert_value_lem l (suc room) (suc left) null x left' e d =
      let now : left ≡ left' = ground (arith, e) in
      (codes "null", ap (λ n. printed (codes "null", n)) now)
  convert_value_lem l (suc room) (suc left) (boolean b) x left' e d =
      let now : left ≡ left' = ground (arith, e) in
      (
        if b then codes "true" else codes "false",
        ap (λ n. printed (if b then codes "true" else codes "false", n)) now,
      )
  convert_value_lem l (suc room) (suc left) (number n) x left' e d =
      (literal n, convert_number_lem q l n left x left' e)
  convert_value_lem l (suc room) (suc left) (string t) x left' e d =
      convert_string_lem q l t left x left' e
  convert_value_lem l (suc room) (suc left) (array xs) x left' e d =
      let (few, f) =
        past_inv _ element_count
          (convert_items q l room left 0 xs >>= λ (ys, n). converted (q.q_array ys, n)) (x, left')
          e in
      let ((ys, n), g, same) = converted_inv (convert_items q l room left 0 xs) _ (x, left') f in
      let now : n ≡ left' = ground (arith, same) in
      let (bs, h) = convert_items_lem q l room (convert_value_lem l room) left 0 true xs ys n g in
      (b'[' ∷ bs, rw (few, h, now) refl)
  convert_value_lem l (suc room) (suc left) (object ms) x left' e d =
      let (few, f) =
        past_inv _ member_count
          (convert_members q l room left [] ms >>= λ (ys, n). converted (q.q_object ys, n))
          (x, left') e in
      let ((ys, n), g, same) = converted_inv (convert_members q l room left [] ms) _ (x, left') f in
      let now : n ≡ left' = ground (arith, same) in
      let (bs, h) =
        convert_members_lem q l room (convert_value_lem l room) left true [] ms ys n g in
      (b'{' ∷ bs, rw (few, h, now) refl)

  -- A value that is converted to one of Qt that is not undefined can also be written, within the
  -- limits of production.
  pub to_exact_qjson_lem :
      (v : Value) (x : q.Q)
      → to_exact_qjson q v ≡ converted x
      → q.is_undefined x ≡ false
      → (bs : Bytes) × (to_json_bytes production v ≡ printed bs)
  unfolding to_exact_qjson to_json_bytes
  to_exact_qjson_lem v x e d =
      let ((y, left), f, same) =
        converted_inv
          (convert_value q production (suc production.max_depth) production.max_total_nodes v) _ x
          e in
      let same_y : y ≡ x = ground (arith, same) in
      let (bs, h) =
        convert_value_lem production (suc production.max_depth) production.max_total_nodes v y left
          f (subst (λ w. q.is_undefined w ≡ false) (sym same_y) d) in
      (bs, rw (h) refl)
