-- ===== src/Json/Lexical.antt =====
-- src/domain/RawJson.cpp: the values whose numbers and texts are in the grammar, and how what is
-- printed for one of them starts.
use arkham_horror_linux.Common.{
  ℕ, zero, suc, ◌≤◌, Bool, true, false, ◌||◌, some, List, [], ◌∷◌, ◌++◌, Text, codes, length, ltb,
  ◌==◌, is_empty, if◌then◌else◌, ◌≡◌, refl, arith, Bool-cases, Option-cases, inl, inr, sym, subst,
  ap, ◌∙◌,
}
use mathlib.Core.List.{append_assoc}
use arkham_horror_linux.Json.{
  ParseLimits, RawNumber, Value, Items, Members, undefined, null, boolean, number, string, array,
  object, no_items, item, no_members, member, Bytes, is_ascii_digit, seen,
}
use arkham_horror_linux.Json.Parser.{skip_whitespace, starts}
use arkham_horror_linux.Json.Printer.{
  PrintError, no_digits, too_many_digits, element_count, member_count, Printed, printed, refused,
  ◌>>=◌, encode_units, append_json_encoded_string, literal, print_number, print_string, print_key,
  comma, print_value, print_items, print_members, ahead,
}
use arkham_horror_linux.Json.Texts.{IsUnits}
use arkham_horror_linux.Json.Numerals.{IsNumeral, IsInteger}

unfoldable mutual
  pub IsLexical : Value → Type 0
  IsLexical undefined = Unit
  IsLexical null = Unit
  IsLexical (boolean b) = Unit
  IsLexical (number n) = IsNumeral n
  IsLexical (string t) = IsUnits t
  IsLexical (array xs) = AreLexical xs
  IsLexical (object ms) = MembersAreLexical ms

  pub AreLexical : Items → Type 0
  AreLexical no_items = Unit
  AreLexical (item v xs) = IsLexical v × AreLexical xs

  pub MembersAreLexical : Members → Type 0
  MembersAreLexical no_members = Unit
  MembersAreLexical (member k v ms) = IsUnits k × IsLexical v × MembersAreLexical ms

module _ {A B : Type 0} where
  pub printed_inv :
      (r : Printed A) (f : A → Printed B) (y : B)
      → (r >>= f) ≡ printed y
      → (a : A) × (r ≡ printed a) × (f a ≡ printed y)
  printed_inv (printed a) f y e = (a, refl, e)
  printed_inv (refused x) f y e = absurd (ground (arith, e))

module _ {B : Type 0} where
  pub unless_inv :
      (b : Bool) (x : PrintError) (r : Printed B) (y : B)
      → (if b then refused x else r) ≡ printed y
      → (b ≡ false) × (r ≡ printed y)
  unless_inv true x r y e = absurd (ground (arith, e))
  unless_inv false x r y e = (refl, e)

pub ahead_inv :
    (b : Bytes) (p : Bytes × ℕ) (bs : Bytes) (left : ℕ)
    → ahead b p ≡ printed (bs, left)
    → (b ++ p.0 ≡ bs) × (p.1 ≡ left)
ahead_inv b (c, n) bs left e = (ground (arith, e), ground (arith, e))

pub printed_bytes :
    (b bs : Bytes) (m n : ℕ)
    → Path (Printed (Bytes × ℕ)) (printed (b, m)) (printed (bs, n))
    → (b ≡ bs) × (m ≡ n)
printed_bytes b bs m n e = (ground (arith, e), ground (arith, e))

-- A byte above the space, and no closing bracket or brace, is first.
abbrev pub Solid : Bytes → Type 0
Solid [] = ⊥
Solid (c ∷ b) = (ltb 0x20 c ≡ true) × ((c == b']') ≡ false) × ((c == b'}') ≡ false)

pub skip_whitespace-Solid : (b rest : Bytes) → Solid b → skip_whitespace (b ++ rest) ≡ b ++ rest
unfolding skip_whitespace
skip_whitespace-Solid [] rest s = absurd s
skip_whitespace-Solid (c ∷ b) rest s = ground (arith, s.0)

pub starts-Solid :
    (b rest : Bytes)
    → Solid b
    → (starts b']' (b ++ rest) ≡ false) × (starts b'}' (b ++ rest) ≡ false)
starts-Solid [] rest s = absurd s
starts-Solid (c ∷ b) rest s = (s.1, s.2)

integer-Solid : (t more : Text) → IsInteger t → Solid (t ++ more)
integer-Solid [] more g = absurd g
integer-Solid (u ∷ t) more g = (ground (arith, g.0.0), ground (arith, g.0.0), ground (arith, g.0.0))

literal-Solid : (n : RawNumber) → IsInteger n.int_digits → Solid (literal n)
unfolding literal
literal-Solid n g = elim (Bool-cases n.negative) [
  | inl h ↦ rw (h) (refl, refl, refl)
  | inr h ↦ rw (h) (integer-Solid n.int_digits _ g)
]

-- A sign or a digit is first.
abbrev pub Numeric : Bytes → Type 0
Numeric [] = ⊥
Numeric (c ∷ b) = (c == b'-' || is_ascii_digit c) ≡ true

integer-Numeric : (t more : Text) → IsInteger t → Numeric (t ++ more)
integer-Numeric [] more g = absurd g
integer-Numeric (u ∷ t) more g = ground (arith, g.0.0)

pub literal-Numeric : (n : RawNumber) → IsInteger n.int_digits → Numeric (literal n)
unfolding literal
literal-Numeric n g = elim (Bool-cases n.negative) [
  | inl h ↦ rw (h) refl
  | inr h ↦ rw (h) (integer-Numeric n.int_digits _ g)
]

module _ (l : ParseLimits) where
  pub print_number_inv :
      (n : RawNumber) (left left' : ℕ) (bs : Bytes)
      → print_number l n left ≡ printed (bs, left')
      → (literal n ≡ bs)
        × (left ≡ left')
        × (length n.int_digits ≤ l.max_number_digits)
        × (length n.frac_digits ≤ l.max_number_digits)
        × (length n.exp_digits ≤ l.max_number_digits)
  unfolding print_number
  print_number_inv n left left' bs e =
      let long =
        ltb l.max_number_digits (length n.int_digits)
        || (ltb l.max_number_digits (length n.frac_digits)
            || ltb l.max_number_digits (length n.exp_digits)) in
      let whole : Printed (Bytes × ℕ) = printed (literal n, left) in
      let (a, f) =
        unless_inv (is_empty n.int_digits) no_digits
          (if long then refused too_many_digits else whole) (bs, left') e in
      let (b, g) = unless_inv long too_many_digits whole (bs, left') f in
      let (same, now) = printed_bytes _ bs left left' g in
      (same, now, ground (arith, b), ground (arith, b), ground (arith, b))

  pub print_string_inv :
      (t : Text) (left left' : ℕ) (bs : Bytes)
      → print_string l t left ≡ printed (bs, left')
      → (b : Bytes) × (encode_units t ≡ some b)
        × (b'"' ∷ b ≡ bs)
        × (left ≡ left')
        × (length t ≤ l.max_string_length)
  unfolding print_string append_json_encoded_string
  print_string_inv t left left' bs e = elim (Option-cases (encode_units t)) [
    | inl none_h ↦ absurd (ground (arith, e, none_h))
    | inr (b, h) ↦ elim (Bool-cases (ltb l.max_string_length (length t))) [
      | inl long ↦ absurd (ground (arith, e, long))
      | inr short ↦
          let (same, now) =
            printed_bytes (b'"' ∷ b) bs left left' (rw (h, short, print_string) at e) in
          (b, h, same, now, ground (arith, short))
    ]
  ]

  pub print_key_inv :
      (k : Text) (keys : List Text) (first : Bool) (bs : Bytes)
      → print_key l k keys first ≡ printed bs
      → (b : Bytes) × (encode_units k ≡ some b)
        × (comma first ++ (b'"' ∷ b ++ b':' ∷ []) ≡ bs)
        × (seen k keys ≡ false)
        × (length k ≤ l.max_string_length)
  unfolding print_key append_json_encoded_string
  print_key_inv k keys first bs e = elim (Option-cases (encode_units k)) [
    | inl none_h ↦ absurd (ground (arith, e, none_h))
    | inr (b, h) ↦ elim (Bool-cases (ltb l.max_string_length (length k))) [
      | inl long ↦ absurd (ground (arith, e, long))
      | inr short ↦ elim (Bool-cases (seen k keys)) [
        | inl old ↦ absurd (ground (arith, e, short, old))
        | inr new ↦
            (b, h, ground (arith, rw (h, short, new, print_key) at e), new, ground (arith, short))
      ]
    ]
  ]

-- Behind a bracket.
pub opened :
    (r : Printed (Bytes × ℕ)) (c : ℕ) (bs : Bytes) (left : ℕ)
    → r >>= ahead (c ∷ []) ≡ printed (bs, left)
    → (b : Bytes) × (r ≡ printed (b, left)) × (c ∷ b ≡ bs)
opened (printed (b, n)) c bs left e =
    let (same, now) = printed_bytes (c ∷ b) bs n left e in (b, ap (λ m. printed (b, m)) now, same)
opened (refused x) c bs left e = absurd (ground (arith, e))

-- Under a limit.
pub bracketed_inv :
    (b : Bool) (x : PrintError) (r : Printed (Bytes × ℕ)) (c : ℕ) (bs : Bytes) (left : ℕ)
    → (if b then refused x else r >>= ahead (c ∷ [])) ≡ printed (bs, left)
    → (body : Bytes) × (b ≡ false) × (r ≡ printed (body, left)) × (c ∷ body ≡ bs)
bracketed_inv b x r c bs left e =
    let (small, f) = unless_inv b x (r >>= ahead (c ∷ [])) (bs, left) e in
    let (body, h, same) = opened r c bs left f in (body, small, h, same)

-- From bytes of which the start is known.
subst-Solid : (b bs : Bytes) → b ≡ bs → Solid b → Solid bs
subst-Solid b bs e s = subst (λ x. Solid x) e s

pub print_value-Solid :
    (l : ParseLimits) (room left : ℕ) (v : Value) (bs : Bytes) (left' : ℕ)
    → print_value l room left v ≡ printed (bs, left')
    → IsLexical v
    → Solid bs
unfolding print_value IsLexical
print_value-Solid l zero left v bs left' e g = absurd (ground (arith, e))
print_value-Solid l (suc room) zero v bs left' e g = absurd (ground (arith, e))
print_value-Solid l (suc room) (suc left) undefined bs left' e g = absurd (ground (arith, e))
print_value-Solid l (suc room) (suc left) null bs left' e g =
    subst-Solid _ bs (printed_bytes (codes "null") bs left left' e).0 (refl, refl, refl)
print_value-Solid l (suc room) (suc left) (boolean true) bs left' e g =
    subst-Solid _ bs (printed_bytes (codes "true") bs left left' e).0 (refl, refl, refl)
print_value-Solid l (suc room) (suc left) (boolean false) bs left' e g =
    subst-Solid _ bs (printed_bytes (codes "false") bs left left' e).0 (refl, refl, refl)
print_value-Solid l (suc room) (suc left) (number n) bs left' e g =
    subst-Solid _ bs (print_number_inv l n left left' bs e).0 (literal-Solid n g.integer)
print_value-Solid l (suc room) (suc left) (string t) bs left' e g =
    let (b, h, same, now, short) = print_string_inv l t left left' bs e in
    subst-Solid _ bs same (refl, refl, refl)
print_value-Solid l (suc room) (suc left) (array xs) bs left' e g =
    let (b, few, h, same) =
      bracketed_inv _ element_count (print_items l room left true xs) b'[' bs left' e in
    subst-Solid _ bs same (refl, refl, refl)
print_value-Solid l (suc room) (suc left) (object ms) bs left' e g =
    let (b, few, h, same) =
      bracketed_inv _ member_count (print_members l room left true [] ms) b'{' bs left' e in
    subst-Solid _ bs same (refl, refl, refl)

pub append-Solid : (b c : Bytes) → Solid b → Solid (b ++ c)
append-Solid [] c s = absurd s
append-Solid (x ∷ b) c s = s

pub print_items_inv :
    (l : ParseLimits) (room left : ℕ) (first : Bool) (v : Value) (xs : Items) (bs : Bytes)
    (left' : ℕ)
    → print_items l room left first (item v xs) ≡ printed (bs, left')
    → (b : Bytes) × (left1 : ℕ) × (c : Bytes) × (print_value l room left v ≡ printed (b, left1))
      × (print_items l room left1 false xs ≡ printed (c, left'))
      × (comma first ++ (b ++ c) ≡ bs)
unfolding print_items
print_items_inv l room left first v xs bs left' e =
    let ((b, left1), e1, f) = printed_inv (print_value l room left v) _ (bs, left') e in
    let ((c, n), e2, f2) = printed_inv (print_items l room left1 false xs) _ (bs, left') f in
    let (same, now) = ahead_inv (comma first ++ b) (c, n) bs left' f2 in
    (
      b,
      left1,
      c,
      e1,
      e2 ∙ ap (λ m. printed (c, m)) now,
      sym (append_assoc (comma first) b c) ∙ same,
    )

pub joined :
    (x a b c head bs : Bytes)
    → x ++ (a ++ b':' ∷ []) ≡ head
    → (head ++ b) ++ c ≡ bs
    → x ++ (a ++ (b':' ∷ b ++ c)) ≡ bs
joined x a b c head bs e f =
    sym
      (sym f ∙ ap (λ h. (h ++ b) ++ c) (sym e) ∙ rw (append_assoc, append_assoc, append_assoc) refl)

pub print_members_inv :
    (l : ParseLimits) (room left : ℕ) (first : Bool) (keys : List Text) (k : Text) (v : Value)
    (ms : Members) (bs : Bytes) (left' : ℕ)
    → print_members l room left first keys (member k v ms) ≡ printed (bs, left')
    → (kb : Bytes) × (b : Bytes) × (left1 : ℕ) × (c : Bytes) × (encode_units k ≡ some kb)
      × (seen k keys ≡ false)
      × (length k ≤ l.max_string_length)
      × (print_value l room left v ≡ printed (b, left1))
      × (print_members l room left1 false (k ∷ keys) ms ≡ printed (c, left'))
      × (comma first ++ (b'"' ∷ kb ++ (b':' ∷ b ++ c)) ≡ bs)
unfolding print_members
print_members_inv l room left first keys k v ms bs left' e =
    let (head, e0, f0) = printed_inv (print_key l k keys first) _ (bs, left') e in
    let ((b, left1), e1, f1) = printed_inv (print_value l room left v) _ (bs, left') f0 in
    let ((c, n), e2, f2) =
      printed_inv (print_members l room left1 false (k ∷ keys) ms) _ (bs, left') f1 in
    let (same, now) = ahead_inv (head ++ b) (c, n) bs left' f2 in
    let (kb, units, front, new, short) = print_key_inv l k keys first head e0 in
    (
      kb,
      b,
      left1,
      c,
      units,
      new,
      short,
      e1,
      e2 ∙ ap (λ m. printed (c, m)) now,
      joined (comma first) (b'"' ∷ kb) b c head bs front same,
    )
