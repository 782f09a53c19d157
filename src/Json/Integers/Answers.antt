-- ===== src/Json/Integers/Answers.antt =====
-- `RawNumber::toExactInt64` of src/domain/RawJson.cpp: when it answers, and what.
use arkham_horror_linux.Common.{
  ℕ, suc, ◌+◌, ◌-◌, ◌*◌, ◌^◌, ◌<◌, ◌≤◌, Bool, true, false, Option, some, ◌++◌, Text, length, ltb,
  leb, ◌==◌, ◌≡◌, ◌↔◌, refl, arith, Bool-cases, inl, inr, sym, subst, ap, ◌∙◌,
}
use native.Mathlib.Nat.{mul-le-mul_right, pow-le-pow_right}
use arkham_horror_linux.Json.{RawNumber}
use arkham_horror_linux.Json.Numerals.{Digits, IsNumeral, integer_full}
use arkham_horror_linux.Json.Sound.Texts.{length_app}
use arkham_horror_linux.Json.Integers.{
  ℤ, pos, all_zero, parse_magnitude_digits, or_zero, signed, decimal_point, exact_nonzero,
  to_exact_int64,
}
use arkham_horror_linux.Json.Integers.Magnitudes.{
  decimal_from, decimal, largest, largest_lt, power_pos, decimal_from-most,
  parse_magnitude_digits_lem,
}
use arkham_horror_linux.Json.Integers.Places.{
  all_digits-true, power_add, cancel, decimal_from-zeros, magnitude_digits-Placed, append-Digits,
  integer-Digits, magnitude_digits-Digits, or_zero-Digits, decimal-or_zero,
}
use arkham_horror_linux.Json.Integers.Exact.{
  rebalance, signed_value, signed_zero, ReadsInt64, up, down, IsExact, to_exact_int64-IsExact,
}
use arkham_horror_linux.Json.Integers.Complete.{decimal_pos, magnitude_digits_found}

-- A number in digits, moved down by more than their number, is no whole number but zero.
moved_below :
    (m below above : ℕ) (digits : Text)
    → Digits digits
    → all_zero digits ≡ false
    → length digits + above ≤ below
    → m * 10 ^ below ≡ decimal digits * 10 ^ above
    → ⊥
moved_below m below above digits h z k e =
    let some_h = decimal_pos digits 0 h z in
    let one_h = power_pos above in
    elim (Bool-cases (m == 0)) [
      | inl none_h ↦
          let zero_m : m ≡ 0 = ground (arith, none_h) in
          let least : 1 * 10 ^ above ≤ decimal digits * 10 ^ above =
            mul-le-mul_right (10 ^ above) some_h in
          let gone = rw (zero_m) at e in absurd (omega arith)
      | inr some_m ↦
          let most = decimal_from-most (length digits) 0 digits (omega arith) h in
          let bound : suc (decimal digits) * 10 ^ above ≤ 10 ^ length digits * 10 ^ above =
            mul-le-mul_right (10 ^ above) (omega arith) in
          let sum = power_add (length digits) above in
          let grows : 10 ^ (length digits + above) ≤ 10 ^ below =
            pow-le-pow_right (omega arith) k in
          let least : 1 * 10 ^ below ≤ m * 10 ^ below =
            mul-le-mul_right (10 ^ below) (ground (arith, some_m)) in
          let open_h : suc (decimal digits) * 10 ^ above
              ≡ decimal digits * 10 ^ above + 10 ^ above =
            grind arith in
          absurd (omega arith)
    ]

parse_magnitude_digits_fits :
    (t : Text) (negative : Bool)
    → Digits t
    → decimal t ≤ largest negative
    → parse_magnitude_digits (or_zero t) negative ≡ some (decimal t)
parse_magnitude_digits_fits t negative h k =
    let fits : leb (decimal t) (largest negative) ≡ true = ground arith in
    parse_magnitude_digits_lem (or_zero t) negative (or_zero-Digits t h)
    ∙ rw (decimal-or_zero t, fits) refl

signed_fits :
    (negative : Bool) (m : ℕ)
    → m ≤ largest negative
    → signed negative m ≡ some (signed_value negative m)
unfolding signed
signed_fits true m k = refl
signed_fits false m k = let small : ltb (2 ^ 63 - 1) m ≡ false = ground arith in rw (small) refl

module _ (to_long_long : Text → Option ℕ) (reads : ReadsInt64 to_long_long) where
  decimal_point_found :
      (n : RawNumber)
      → IsNumeral n
      → length n.int_digits + decimal n.exp_digits < 2 ^ 63
      → decimal_point to_long_long n ≡ some (length n.int_digits + up n - down n)
  unfolding decimal_point decimal_from
  decimal_point_found n g k = elim (Bool-cases n.has_exponent) [
    | inr h ↦
        let (none_h, plus) = g.exponent_none h in
        rw (h, decimal_point) (rw (plus, none_h) (ap some (omega arith)))
    | inl h ↦
        let small : ltb (decimal n.exp_digits) (2 ^ 63) ≡ true = ground arith in
        let read : to_long_long n.exp_digits ≡ some (decimal n.exp_digits) =
          (let q = reads n.exp_digits g.exponent (g.exponent_full h) in rw (small) at q) in
        let inside : ltb (2 ^ 63 - 1) (length n.int_digits + decimal n.exp_digits) ≡ false =
          ground arith in
        elim (Bool-cases n.exponent_negative) [
          | inl s ↦ rw (h, read, s, decimal_point) (ap some (omega arith))
          | inr s ↦ rw (h, read, s, inside, decimal_point) (ap some (omega arith))
        ]
  ]

  exact_nonzero_found :
      (n : RawNumber) (m : ℕ)
      → IsNumeral n
      → length n.int_digits + decimal n.exp_digits < 2 ^ 63
      → all_zero (n.int_digits ++ n.frac_digits) ≡ false
      → m ≤ largest n.negative
      → m * 10 ^ (length n.frac_digits + down n)
        ≡ decimal (n.int_digits ++ n.frac_digits) * 10 ^ up n
      → exact_nonzero to_long_long n (n.int_digits ++ n.frac_digits)
        ≡ some (signed_value n.negative m)
  unfolding exact_nonzero
  exact_nonzero_found n m g k z fits e =
      let digits = n.int_digits ++ n.frac_digits in
      let all_h =
        append-Digits n.int_digits n.frac_digits (integer-Digits n.int_digits g.integer)
          g.fraction in
      let size = length_app n.int_digits n.frac_digits in
      let place = length n.int_digits + up n - down n in
      elim (Bool-cases (leb (length n.int_digits + up n) (down n))) [
        | inl before ↦
            let low : length n.int_digits + up n ≤ down n = ground (arith, before) in
            absurd
              (moved_below m (length n.frac_digits + down n) (up n) digits all_h z (omega arith) e)
        | inr after ↦
            let high : down n < length n.int_digits + up n = ground (arith, after) in
            let placed : m * 10 ^ length digits ≡ decimal digits * 10 ^ place =
              (let parts : length n.frac_digits + length n.int_digits ≡ length digits =
                  omega arith in
                let swapped : down n + length n.frac_digits ≡ length n.frac_digits + down n =
                  omega arith in
                ap (λ x. m * 10 ^ x) (sym parts)
                ∙ rebalance m (decimal digits) (down n) (length n.frac_digits) (up n)
                    (length n.int_digits) place (ap (λ x. m * 10 ^ x) swapped ∙ e) (omega arith)) in
            let bound = largest_lt n.negative in
            let (t, found) = magnitude_digits_found place m digits all_h z placed (omega arith) in
            let (some_place, t_placed) = magnitude_digits-Placed place digits t found z in
            let t_digits = magnitude_digits-Digits place digits t found all_h in
            let value : decimal t ≡ m =
              cancel (decimal t) m (10 ^ length digits) (power_pos (length digits))
                (t_placed ∙ sym placed) in
            let read =
              parse_magnitude_digits_fits t n.negative t_digits
                (subst (λ x. x ≤ largest n.negative) (sym value) fits) in
            rw (decimal_point_found n g k, found, read, value, exact_nonzero)
              (signed_fits n.negative m fits)
      ]

  zero_found :
      (n : RawNumber)
      → IsNumeral n
      → all_zero (n.int_digits ++ n.frac_digits) ≡ true
      → to_exact_int64 to_long_long n ≡ some (pos 0)
  unfolding to_exact_int64
  zero_found n g h =
      let digits = all_digits-true n.exp_digits g.exponent in
      elim (Bool-cases n.has_exponent) [
        | inl k ↦ rw (integer_full n.int_digits g.integer, h, k, g.exponent_full k, digits) refl
        | inr k ↦ rw (integer_full n.int_digits g.integer, h, k) refl
      ]

  IsExact-to_exact_int64 :
      (n : RawNumber) (z : ℤ)
      → IsNumeral n
      → length n.int_digits + decimal n.exp_digits < 2 ^ 63
      → IsExact to_long_long reads n z
      → to_exact_int64 to_long_long n ≡ some z
  unfolding to_exact_int64
  IsExact-to_exact_int64 n z g k (m, same, fits, e) =
      elim (Bool-cases (all_zero (n.int_digits ++ n.frac_digits))) [
        | inl h ↦
            let nothing = decimal_from-zeros (n.int_digits ++ n.frac_digits) 0 h in
            let none_m : m ≡ 0 =
              cancel m 0 (10 ^ (length n.frac_digits + down n))
                (power_pos (length n.frac_digits + down n))
                (e ∙ ap (λ x. x * 10 ^ up n) nothing ∙ grind arith) in
            zero_found n g h
            ∙ ap some
                (sym (same ∙ ap (λ x. signed_value n.negative x) none_m ∙ signed_zero n.negative))
        | inr h ↦
            rw (integer_full n.int_digits g.integer, h, to_exact_int64)
              (exact_nonzero_found n m g k h fits e ∙ ap some (sym same))
      ]

  -- For a number by the grammar whose whole part and exponent together stay below the largest
  -- `qint64`, the answer is z exactly when z is what the number stands for and a `qint64` has it.
  pub to_exact_int64_lem :
      (n : RawNumber) (z : ℤ)
      → IsNumeral n
      → length n.int_digits + decimal n.exp_digits < 2 ^ 63
      → to_exact_int64 to_long_long n ≡ some z ↔ IsExact to_long_long reads n z
  to_exact_int64_lem n z g k =
      (to_exact_int64-IsExact to_long_long reads n z g, IsExact-to_exact_int64 n z g k)
