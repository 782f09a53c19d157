-- ===== src/Json/Integers.antt =====
-- `RawNumber::toExactInt64` of src/domain/RawJson.cpp, with `QString::toLongLong` on a run of digits
-- as a parameter. A `quint64` keeps its wrap-around; the place of the decimal point stops at 0, below
-- which the source does not tell places apart.
pub mod Magnitudes
pub mod Places
pub mod Exact
pub mod Complete
pub mod Answers
mod Examples
use arkham_horror_linux.Common.{
  ℕ, zero, suc, ◌+◌, ◌-◌, ◌*◌, ◌%◌, ◌^◌, Bool, true, false, not, ◌&&◌, ◌||◌, Option, none, some,
  List, [], ◌∷◌, ◌++◌, Text, codes, length, ltb, leb, ◌==◌, if◌then◌else◌, is_empty, take, drop,
}
use arkham_horror_linux.Json.{RawNumber, is_ascii_digit}

pub data ℤ : Type 0 where
  pos negsuc : ℕ → ℤ

abbrev pub neg : ℕ → ℤ
neg zero = pos zero
neg (suc n) = negsuc n

abbrev pub all_zero : Text → Bool
all_zero [] = true
all_zero (u ∷ t) = if u == b'0' then all_zero t else false

abbrev pub all_digits : Text → Bool
all_digits [] = true
all_digits (u ∷ t) = if is_ascii_digit u then all_digits t else false

-- All leading zeros but a last one.
unfoldable pub trim : Text → Text
trim [] = []
trim (u ∷ []) = u ∷ []
trim (u ∷ v ∷ t) = if u == b'0' then trim (v ∷ t) else u ∷ v ∷ t

-- Digit by digit, up to the first that differs.
unfoldable pub exceeds : Text → Text → Bool
exceeds (u ∷ t) (v ∷ b) = if ltb u v then false else if ltb v u then true else exceeds t b
exceeds t b = false

abbrev pub bound_digits : Bool → Text
bound_digits negative =
    if negative then codes "9223372036854775808" else codes "9223372036854775807"

unfoldable pub magnitude_from : ℕ → Text → ℕ
magnitude_from value [] = value
magnitude_from value (u ∷ t) = magnitude_from ((value * 10 + (u - b'0')) % 2 ^ 64) t

unfoldable pub parse_magnitude_digits : Text → Bool → Option ℕ
parse_magnitude_digits digits negative =
    let trimmed = trim digits in
    if ltb 19 (length trimmed)
    then none
    else if length trimmed == 19 && exceeds trimmed (bound_digits negative)
    then none
    else some (magnitude_from 0 trimmed)

abbrev pub zeros : ℕ → Text
zeros zero = []
zeros (suc n) = b'0' ∷ zeros n

-- The digits before the decimal point at a place, if the ones behind it are zeros.
unfoldable pub magnitude_digits : ℕ → Text → Option Text
magnitude_digits place digits =
    if leb (length digits) place
    then if ltb 19 (place - length digits)
      then none
      else some (digits ++ zeros (place - length digits))
    else if place == 0
    then if all_zero digits then some (b'0' ∷ []) else none
    else if all_zero (drop place digits)
    then some (take place digits)
    else none

abbrev pub or_zero : Text → Text
or_zero t = if is_empty t then b'0' ∷ [] else t

-- With its sign, if it is a `qint64`. The source negates the least one apart.
unfoldable pub signed : Bool → ℕ → Option ℤ
signed true magnitude = some (neg magnitude)
signed false magnitude = if ltb (2 ^ 63 - 1) magnitude then none else some (pos magnitude)

module _ (to_long_long : Text → Option ℕ) where
  -- The place of the decimal point, if it is a `qint64`.
  unfoldable pub decimal_point : RawNumber → Option ℕ
  decimal_point n =
      if not n.has_exponent then some (length n.int_digits) else elim (to_long_long n.exp_digits) [
        | none ↦ none
        | some magnitude ↦
            if n.exponent_negative
            then some (length n.int_digits - magnitude)
            else if ltb (2 ^ 63 - 1) (length n.int_digits + magnitude)
            then none
            else some (length n.int_digits + magnitude)
      ]

  unfoldable pub exact_nonzero : RawNumber → Text → Option ℤ
  exact_nonzero n digits = elim (decimal_point n) [
    | none ↦ none
    | some place ↦ elim (magnitude_digits place digits) [
      | none ↦ none
      | some t ↦ elim (parse_magnitude_digits (or_zero t) n.negative) [
        | none ↦ none
        | some magnitude ↦ signed n.negative magnitude
      ]
    ]
  ]

  unfoldable pub to_exact_int64 : RawNumber → Option ℤ
  to_exact_int64 n =
      if is_empty n.int_digits
      then none
      else if all_zero (n.int_digits ++ n.frac_digits)
      then if n.has_exponent && (is_empty n.exp_digits || not (all_digits n.exp_digits))
        then none
        else some (pos 0)
      else exact_nonzero n (n.int_digits ++ n.frac_digits)
