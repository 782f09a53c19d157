-- ===== src/Json/Sound/Numerals.antt =====
-- src/domain/RawJson.cpp: a number that is read is in the grammar, within the limits.
use arkham_horror_linux.Common.{
  ℕ, suc, ◌+◌, ◌≤◌, Bool, true, false, not, ◌||◌, [], ◌∷◌, Text, length, ltb, ◌==◌, is_empty, ◌≡◌,
  refl, arith, Bool-cases, inl, inr, sym, subst,
}
use arkham_horror_linux.Json.{ParseLimits, RawNumber, Value, number, Bytes, is_ascii_digit}
use arkham_horror_linux.Json.Parser.{
  ok, JsonError, starts_digit, span_digits, bounded_digits, parse_integer, parse_fraction,
  exponent_sign, exponent_after, parse_exponent, parse_unsigned, parse_number, integer_too_long,
  fraction_too_long, exponent_too_long, number_digit, fraction_digit, exponent_digit,
}
use arkham_horror_linux.Json.Printer.{sign, fraction_part, literal}
use arkham_horror_linux.Json.Numerals.{Digits, exponent_part, IsInteger, IsNumeral}
use arkham_horror_linux.Json.Sound.Outcome.{ok_inv, past_inv, either_way, ok_subst}
use arkham_horror_linux.Json.Sound.Texts.{length_app}

-- Digits with at least one, within a limit, and what is behind them.
record IsRun (longest size : ℕ) (p : Text × Bytes) : Type 0 where
  digits : Digits p.0
  short : length p.0 ≤ longest
  total : length p.0 + length p.1 ≤ size

span_digits_lem :
    (b : Bytes)
    → Digits (span_digits b).0 × (length (span_digits b).0 + length (span_digits b).1 ≤ length b)
unfolding span_digits
span_digits_lem [] = (tt, omega arith)
span_digits_lem (c ∷ b) =
    let (ds, total) = span_digits_lem b in
    elim (Bool-cases (is_ascii_digit c)) [
      | inl h ↦ rw (h) ((h, ds), omega arith)
      | inr h ↦ rw (h) (tt, omega arith)
    ]

module _ (l : ParseLimits) where
  bounded_digits_lem :
      (x : JsonError) (b : Bytes) (p : Text × Bytes)
      → bounded_digits l x b ≡ ok p
      → IsRun l.max_number_digits (length b) p
  unfolding bounded_digits
  bounded_digits_lem x b p e =
      let (ds, total) = span_digits_lem b in
      let (short, f) =
        past_inv (ltb l.max_number_digits (length (span_digits b).0)) x (span_digits b).1 _ p e in
      ok_subst (IsRun l.max_number_digits (length b)) (span_digits b) p f
        record { digits = ds; short = ground (arith, short); total = total }

  -- With a digit first, it stays first.
  bounded_digits_first :
      (x : JsonError) (c : ℕ) (b : Bytes) (p : Text × Bytes)
      → bounded_digits l x (c ∷ b) ≡ ok p
      → is_ascii_digit c ≡ true
      → (t : Text) × (p.0 ≡ c ∷ t)
  unfolding bounded_digits span_digits
  bounded_digits_first x c b p e h =
      let (short, f) = past_inv _ x _ _ p (rw (h) at e) in
      ok_subst (λ q. (t : Text) × (q.0 ≡ c ∷ t)) _ p f ((span_digits b).0, refl)

  parse_integer_lem :
      (b : Bytes) (p : Text × Bytes)
      → parse_integer l b ≡ ok p
      → IsInteger p.0 × IsRun l.max_number_digits (length b) p
  unfolding parse_integer
  parse_integer_lem [] p e = absurd (ground (arith, e))
  parse_integer_lem (c ∷ b) p e =
      let (first, f) = past_inv (not (is_ascii_digit c)) number_digit (c ∷ b) _ p e in
      let digit : is_ascii_digit c ≡ true = ground (arith, first) in
      elim (Bool-cases (c == b'0')) [
        | inl z ↦
            let (one_fits, g) =
              past_inv (ltb l.max_number_digits 1) integer_too_long b (ok (b'0' ∷ [], b)) p
                (rw (z) at f) in
            ok_subst
              (λ (q : Text × Bytes). IsInteger q.0 × IsRun l.max_number_digits (suc (length b)) q)
              (b'0' ∷ [], b) p g
              (
                ((refl, tt), λ k. refl),
                record {
                  digits = (refl, tt);
                  short = ground (arith, one_fits);
                  total = omega arith;
                },
              )
        | inr z ↦
            let bounded = rw (z) at f in
            let run = bounded_digits_lem integer_too_long (c ∷ b) p bounded in
            let (t, shape) = bounded_digits_first integer_too_long c b p bounded digit in
            (
              subst (λ ds. IsInteger ds) (sym shape)
                  (subst (λ ds. Digits ds) shape run.digits, λ k. absurd (ground (arith, z, k))),
              run,
            )
      ]

  abbrev IsFraction : ℕ → Text × Bytes → Type 0
  IsFraction size (t, rest) =
      Digits t × (length t ≤ l.max_number_digits) × (length (fraction_part t) + length rest ≤ size)

  no-IsFraction : (b : Bytes) (p : Text × Bytes) → ok ([], b) ≡ ok p → IsFraction (length b) p
  no-IsFraction b p e = ok_subst (IsFraction (length b)) ([], b) p e (tt, omega arith, omega arith)

  length-fraction_part : (t : Text) → length (fraction_part t) ≤ suc (length t)
  length-fraction_part [] = omega arith
  length-fraction_part (c ∷ t) = omega arith

  parse_fraction_lem :
      (b : Bytes) (p : Text × Bytes) → parse_fraction l b ≡ ok p → IsFraction (length b) p
  unfolding parse_fraction
  parse_fraction_lem [] p e = no-IsFraction [] p e
  parse_fraction_lem (c ∷ b) p e = elim (Bool-cases (c == b'.')) [
    | inr h ↦ no-IsFraction (c ∷ b) p (rw (h) at e)
    | inl h ↦
        let (full, f) = past_inv (not (starts_digit b)) fraction_digit b _ p (rw (h) at e) in
        let run = bounded_digits_lem fraction_too_long b p f in
        let part = length-fraction_part p.0 in
        let total = run.total in (run.digits, run.short, omega arith)
  ]

  -- The parts of an exponent.
  record IsExponent (size : ℕ) (p : (Bool × Bool × Text) × Bytes) : Type 0 where
    exp_digits : Digits p.0.2
    exp_short : length p.0.2 ≤ l.max_number_digits
    exp_full : p.0.0 ≡ true → is_empty p.0.2 ≡ false
    exp_none : p.0.0 ≡ false → (p.0.2 ≡ []) × (p.0.1 ≡ false)
    exp_total : length (exponent_part p.0.0 p.0.1 p.0.2) + length p.1 ≤ size

  bounded_digits_full :
      (x : JsonError) (b : Bytes) (p : Text × Bytes)
      → bounded_digits l x b ≡ ok p
      → starts_digit b ≡ true
      → is_empty p.0 ≡ false
  bounded_digits_full x [] p e h = absurd (ground (arith, h))
  bounded_digits_full x (c ∷ b) p e h =
      let (t, shape) = bounded_digits_first x c b p e h in rw (shape) refl

  exponent_after_lem :
      (size : ℕ) (down : Bool) (b : Bytes) (p : (Bool × Bool × Text) × Bytes)
      → exponent_after l (down, b) ≡ ok p
      → length (sign down) + length b ≤ size
      → IsExponent (suc size) p
  unfolding exponent_after
  exponent_after_lem size down b p e k =
      let (full, f) = past_inv (not (starts_digit b)) exponent_digit b _ p e in
      let ((t, rest), g, same) = ok_inv (bounded_digits l exponent_too_long b) _ p f in
      let run = bounded_digits_lem exponent_too_long b (t, rest) g in
      let total = run.total in
      let written_h = length_app (sign down) t in
      ok_subst (IsExponent (suc size)) ((true, down, t), rest) p same
        record {
          exp_digits = run.digits;
          exp_short = run.short;
          exp_full =
              λ k. bounded_digits_full exponent_too_long b (t, rest) g (ground (arith, full));
          exp_none = λ k. absurd (ground (arith, k));
          exp_total = omega arith;
        }

  length-exponent_sign :
      (b : Bytes) → length (sign (exponent_sign b).0) + length (exponent_sign b).1 ≤ length b
  length-exponent_sign [] = omega arith
  length-exponent_sign (c ∷ b) = ground arith

  no-IsExponent :
      (b : Bytes) (p : (Bool × Bool × Text) × Bytes)
      → ok ((false, false, []), b) ≡ ok p
      → IsExponent (length b) p
  no-IsExponent b p e =
      ok_subst (IsExponent (length b)) ((false, false, []), b) p e
        record {
          exp_digits = tt;
          exp_short = omega arith;
          exp_full = λ k. absurd (ground (arith, k));
          exp_none = λ k. (refl, refl);
          exp_total = omega arith;
        }

  parse_exponent_lem :
      (b : Bytes) (p : (Bool × Bool × Text) × Bytes)
      → parse_exponent l b ≡ ok p
      → IsExponent (length b) p
  unfolding parse_exponent
  parse_exponent_lem [] p e = no-IsExponent [] p e
  parse_exponent_lem (c ∷ b) p e = elim (Bool-cases (c == b'e' || c == b'E')) [
    | inr h ↦ no-IsExponent (c ∷ b) p (rw (h) at e)
    | inl h ↦
        let k = length-exponent_sign b in
        exponent_after_lem (length b) (exponent_sign b).0 (exponent_sign b).1 p (rw (h) at e) k
  ]

  -- A value that is a number within the limits, no longer than what it was read from.
  abbrev pub IsRead : ℕ → Value × Bytes → Type 0
  IsRead size (v, rest) =
      (n : RawNumber) × (v ≡ number n)
      × IsNumeral n
      × (length n.int_digits ≤ l.max_number_digits)
      × (length n.frac_digits ≤ l.max_number_digits)
      × (length n.exp_digits ≤ l.max_number_digits)
      × (length (literal n) + length rest ≤ size)

  length-literal :
      (n : RawNumber)
      → length (literal n)
        ≡ length (sign n.negative)
          + (length n.int_digits
              + (length (fraction_part n.frac_digits)
                  + length (exponent_part n.has_exponent n.exponent_negative n.exp_digits)))
  unfolding literal
  length-literal n = rw (length_app, length_app, length_app) refl

  -- From the parts of a number, read one behind the other.
  assembled :
      (n : RawNumber) (b b1 b2 b3 : Bytes)
      → IsInteger n.int_digits × IsRun l.max_number_digits (length b) (n.int_digits, b1)
      → IsFraction (length b1) (n.frac_digits, b2)
      → IsExponent (length b2) ((n.has_exponent, n.exponent_negative, n.exp_digits), b3)
      → IsRead (length (sign n.negative) + length b) (number n, b3)
  assembled n b b1 b2 b3 (whole, run) (digits, short, part) x =
      let size = length-literal n in
      let total = run.total in
      let exp_total = x.exp_total in
      (
        n,
        refl,
        record {
          integer = whole;
          fraction = digits;
          exponent = x.exp_digits;
          exponent_full = x.exp_full;
          exponent_none = x.exp_none;
        },
        run.short,
        short,
        x.exp_short,
        omega arith,
      )

  parse_unsigned_lem :
      (negative : Bool) (b : Bytes) (p : Value × Bytes)
      → parse_unsigned l negative b ≡ ok p
      → IsRead (length (sign negative) + length b) p
  unfolding parse_unsigned
  parse_unsigned_lem negative b p e =
      let ((int, b1), e1, f1) = ok_inv (parse_integer l b) _ p e in
      let ((frac, b2), e2, f2) = ok_inv (parse_fraction l b1) _ p f1 in
      let (((has, down, exp), b3), e3, f3) = ok_inv (parse_exponent l b2) _ p f2 in
      let n : RawNumber = record {
        negative = negative;
        int_digits = int;
        frac_digits = frac;
        has_exponent = has;
        exponent_negative = down;
        exp_digits = exp;
      } in
      ok_subst (IsRead (length (sign negative) + length b)) (number n, b3) p f3
        (assembled n b b1 b2 b3 (parse_integer_lem b (int, b1) e1)
          (parse_fraction_lem b1 (frac, b2) e2) (parse_exponent_lem b2 ((has, down, exp), b3) e3))

  more_room : (m n : ℕ) (p : Value × Bytes) → m ≤ n → IsRead m p → IsRead n p
  more_room m n p k (x, same, g, a, b, c, total) = (x, same, g, a, b, c, omega arith)

  pub parse_number_lem :
      (b : Bytes) (p : Value × Bytes) → parse_number l b ≡ ok p → IsRead (length b) p
  unfolding parse_number
  parse_number_lem [] p e = more_room _ 0 p (omega arith) (parse_unsigned_lem false [] p e)
  parse_number_lem (c ∷ b) p e =
      either_way (c == b'-')
        (λ e1. more_room _ (suc (length b)) p (omega arith) (parse_unsigned_lem true b p e1))
        (λ e1. more_room _ (suc (length b)) p (omega arith) (parse_unsigned_lem false (c ∷ b) p e1))
        e
