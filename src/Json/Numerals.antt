-- ===== src/Json/Numerals.antt =====
-- src/domain/RawJson.cpp: numbers are written and read back.
use arkham_horror_linux.Common.{
  ◌≤◌, Bool, true, false, [], ◌∷◌, ◌++◌, Text, All, length, ltb, ◌==◌, if◌then◌else◌, is_empty, ◌≡◌,
  refl, arith, Bool-cases, inl, inr, ap, ◌∙◌,
}
use mathlib.Core.List.{append_assoc}
use arkham_horror_linux.Json.{ParseLimits, RawNumber, number, Bytes, is_ascii_digit}
use arkham_horror_linux.Json.Parser.{
  ok, JsonError, starts, starts_digit, span_digits, bounded_digits, parse_integer, parse_fraction,
  exponent_sign, exponent_after, parse_exponent, parse_unsigned, parse_number, integer_too_long,
  fraction_too_long, exponent_too_long,
}
use arkham_horror_linux.Json.Printer.{sign, fraction_part, literal}

abbrev pub Digits : Text → Type 0
Digits t = All (λ u. is_ascii_digit u ≡ true) t

-- `0` alone, or digits that start with another one.
abbrev pub IsInteger : Text → Type 0
IsInteger [] = ⊥
IsInteger (u ∷ t) = Digits (u ∷ t) × ((u == b'0') ≡ true → t ≡ [])

pub integer_full : (t : Text) → IsInteger t → is_empty t ≡ false
integer_full [] g = absurd g
integer_full (u ∷ t) g = refl

-- The grammar of RFC 8259, for a number in parts.
pub record IsNumeral (n : RawNumber) : Type 0 where
  pub integer : IsInteger n.int_digits
  pub fraction : Digits n.frac_digits
  pub exponent : Digits n.exp_digits
  pub exponent_full : n.has_exponent ≡ true → is_empty n.exp_digits ≡ false
  pub exponent_none : n.has_exponent ≡ false → (n.exp_digits ≡ []) × (n.exponent_negative ≡ false)

-- No byte by which a number could go on.
abbrev pub Ends : Bytes → Type 0
Ends rest =
    (starts_digit rest ≡ false)
    × (starts b'.' rest ≡ false)
    × (starts b'e' rest ≡ false)
    × (starts b'E' rest ≡ false)

span_digits-Digits :
    (t rest : Bytes) → Digits t → starts_digit rest ≡ false → span_digits (t ++ rest) ≡ (t, rest)
unfolding span_digits
span_digits-Digits [] [] h e = refl
span_digits-Digits [] (c ∷ rest) h e = ground (arith, e)
span_digits-Digits (u ∷ t) rest h e = rw (span_digits-Digits t rest h.1 e, h.0) refl

digit_no_sign :
    (t rest : Bytes)
    → is_empty t ≡ false
    → Digits t
    → exponent_sign (t ++ rest) ≡ (false, t ++ rest)
digit_no_sign [] rest f h = absurd (ground (arith, f))
digit_no_sign (u ∷ t) rest f h = ground (arith, h.0)

abbrev pub exponent_part : Bool → Bool → Text → Text
exponent_part has down t = if has then b'e' ∷ (sign down ++ t) else []

module _ (l : ParseLimits) where
  fits : (t : Text) → length t ≤ l.max_number_digits → ltb l.max_number_digits (length t) ≡ false
  fits t k = ground arith

  bounded_digits-Digits :
      (x : JsonError) (t rest : Bytes)
      → Digits t
      → starts_digit rest ≡ false
      → length t ≤ l.max_number_digits
      → bounded_digits l x (t ++ rest) ≡ ok (t, rest)
  unfolding bounded_digits
  bounded_digits-Digits x t rest h e k =
      rw (span_digits-Digits t rest h e, bounded_digits) (rw (fits t k) refl)

  parse_integer-IsInteger :
      (t rest : Bytes)
      → IsInteger t
      → starts_digit rest ≡ false
      → length t ≤ l.max_number_digits
      → parse_integer l (t ++ rest) ≡ ok (t, rest)
  unfolding parse_integer
  parse_integer-IsInteger [] rest h e k = absurd h
  parse_integer-IsInteger (u ∷ t) rest h e k = elim (Bool-cases (u == b'0')) [
    | inl z ↦ ground (arith, h.0.0, h.1 z, z)
    | inr z ↦ ground (arith, h.0.0, z, bounded_digits-Digits integer_too_long (u ∷ t) rest h.0 e k)
  ]

  parse_fraction-Digits :
      (t rest : Bytes)
      → Digits t
      → starts_digit rest ≡ false
      → starts b'.' rest ≡ false
      → length t ≤ l.max_number_digits
      → parse_fraction l (fraction_part t ++ rest) ≡ ok (t, rest)
  unfolding parse_fraction
  parse_fraction-Digits [] rest h e d k = rw d refl
  parse_fraction-Digits (u ∷ t) rest h e d k =
      ground (arith, h.0, bounded_digits-Digits fraction_too_long (u ∷ t) rest h e k)

  exponent_after-Digits :
      (negative : Bool) (t rest : Bytes)
      → is_empty t ≡ false
      → Digits t
      → starts_digit rest ≡ false
      → length t ≤ l.max_number_digits
      → exponent_after l (negative, t ++ rest) ≡ ok ((true, negative, t), rest)
  unfolding exponent_after
  exponent_after-Digits negative [] rest f h e k = absurd (ground (arith, f))
  exponent_after-Digits negative (u ∷ t) rest f h e k =
      rw (h.0, bounded_digits-Digits exponent_too_long (u ∷ t) rest h e k) refl

  parse_exponent_lem :
      (has down : Bool) (t rest : Bytes)
      → Digits t
      → (has ≡ true → is_empty t ≡ false)
      → (has ≡ false → (t ≡ []) × (down ≡ false))
      → Ends rest
      → length t ≤ l.max_number_digits
      → parse_exponent l (exponent_part has down t ++ rest) ≡ ok ((has, down, t), rest)
  unfolding parse_exponent
  parse_exponent_lem false down t rest h f g e k = rw ((g refl).0, (g refl).1) (rw (e.2, e.3) refl)
  parse_exponent_lem true true t rest h f g e k = exponent_after-Digits true t rest (f refl) h e.0 k
  parse_exponent_lem true false t rest h f g e k =
      ap (exponent_after l) (digit_no_sign t rest (f refl) h)
      ∙ exponent_after-Digits false t rest (f refl) h e.0 k

  -- What stands behind the integer part.
  before_fraction :
      (t more : Bytes) → starts_digit more ≡ false → starts_digit (fraction_part t ++ more) ≡ false
  before_fraction [] more e = e
  before_fraction (u ∷ t) more e = refl

  before_exponent :
      (has down : Bool) (t rest : Bytes)
      → Ends rest
      → starts_digit (exponent_part has down t ++ rest) ≡ false
  before_exponent false down t rest e = e.0
  before_exponent true down t rest e = refl

  no_point :
      (has down : Bool) (t rest : Bytes)
      → Ends rest
      → starts b'.' (exponent_part has down t ++ rest) ≡ false
  no_point false down t rest e = e.1
  no_point true down t rest e = refl

  module _ (n : RawNumber) (rest : Bytes) (g : IsNumeral n) (e : Ends rest) where
    tail : Bytes
    tail = exponent_part n.has_exponent n.exponent_negative n.exp_digits ++ rest

    parse_unsigned-IsNumeral :
        length n.int_digits ≤ l.max_number_digits
        → length n.frac_digits ≤ l.max_number_digits
        → length n.exp_digits ≤ l.max_number_digits
        → parse_unsigned l n.negative (n.int_digits ++ (fraction_part n.frac_digits ++ tail))
          ≡ ok (number n, rest)
    unfolding parse_unsigned tail
    parse_unsigned-IsNumeral ki kf ke =
        rw
          (parse_integer-IsInteger n.int_digits (fraction_part n.frac_digits ++ tail) g.integer
            (before_fraction n.frac_digits tail
              (before_exponent n.has_exponent n.exponent_negative n.exp_digits rest e))
            ki)
          (rw
            (parse_fraction-Digits n.frac_digits tail g.fraction
              (before_exponent n.has_exponent n.exponent_negative n.exp_digits rest e)
              (no_point n.has_exponent n.exponent_negative n.exp_digits rest e) kf)
            (rw
              (parse_exponent_lem n.has_exponent n.exponent_negative n.exp_digits rest g.exponent
                g.exponent_full g.exponent_none e ke)
              refl))

  no_minus : (t more : Bytes) → IsInteger t → starts b'-' (t ++ more) ≡ false
  no_minus [] more h = absurd h
  no_minus (u ∷ t) more h = ground (arith, h.0.0)

  after_sign :
      (n : RawNumber) (negative : Bool) (more : Bytes)
      → n.negative ≡ negative
      → IsInteger n.int_digits
      → parse_number l (sign n.negative ++ (n.int_digits ++ more))
        ≡ parse_unsigned l n.negative (n.int_digits ++ more)
  unfolding parse_number
  after_sign n true more s h = rw (s) refl
  after_sign n false more s h = rw (s) (rw (no_minus n.int_digits more h) refl)

  -- A number that is written by the grammar is read back, before bytes by which it cannot go on.
  pub parse_number-literal :
      (n : RawNumber) (rest : Bytes)
      → IsNumeral n
      → Ends rest
      → length n.int_digits ≤ l.max_number_digits
      → length n.frac_digits ≤ l.max_number_digits
      → length n.exp_digits ≤ l.max_number_digits
      → parse_number l (literal n ++ rest) ≡ ok (number n, rest)
  unfolding literal tail
  parse_number-literal n rest g e ki kf ke =
      rw (append_assoc, append_assoc, append_assoc)
        (after_sign n n.negative (fraction_part n.frac_digits ++ tail n rest g e) refl g.integer
          ∙ parse_unsigned-IsNumeral n rest g e ki kf ke)
