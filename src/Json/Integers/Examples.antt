-- ===== src/Json/Integers/Examples.antt =====
-- Numbers of src/domain/RawJson.cpp as integers, with `toLongLong` on ASCII digits.
use arkham_horror_linux.Common.{
  ℕ, true, false, ◌^◌, Text, codes, Option, some, none, ltb, leb, if◌then◌else◌, ◌≡◌, ◌↔◌, refl,
  arith,
}
use arkham_horror_linux.Json.{RawNumber}
use arkham_horror_linux.Json.Numerals.{IsNumeral}
use arkham_horror_linux.Json.Integers.{negsuc, parse_magnitude_digits, to_exact_int64}
use arkham_horror_linux.Json.Integers.Magnitudes.{
  decimal, decimal_from, largest, parse_magnitude_digits_lem,
}
use arkham_horror_linux.Json.Integers.Exact.{ReadsInt64, IsExact}
use arkham_horror_linux.Json.Integers.Answers.{to_exact_int64_lem}

abbrev long_long : Text → Option ℕ
long_long t = if ltb (decimal t) (2 ^ 63) then some (decimal t) else none

long_long-ReadsInt64 : ReadsInt64 long_long
long_long-ReadsInt64 t h f = refl

-- -12.5e3
abbrev scaled : RawNumber
scaled = record {
  negative = true;
  int_digits = codes "12";
  frac_digits = codes "5";
  has_exponent = true;
  exponent_negative = false;
  exp_digits = codes "3";
}

scaled-IsNumeral : IsNumeral scaled
scaled-IsNumeral = record {
  integer = ((refl, (refl, tt)), λ k. absurd (ground (arith, k)));
  fraction = (refl, tt);
  exponent = (refl, tt);
  exponent_full = λ k. refl;
  exponent_none = λ k. absurd (ground (arith, k));
}

to_exact_int64_lem_example :
    to_exact_int64 long_long scaled ≡ some (negsuc 12499)
    ↔ IsExact long_long long_long-ReadsInt64 scaled (negsuc 12499)
unfolding decimal_from
to_exact_int64_lem_example =
    to_exact_int64_lem long_long long_long-ReadsInt64 scaled (negsuc 12499) scaled-IsNumeral
      (omega arith)

parse_magnitude_digits_lem_example :
    parse_magnitude_digits (codes "0042") true
    ≡ (if leb (decimal (codes "0042")) (largest true) then some (decimal (codes "0042")) else none)
parse_magnitude_digits_lem_example =
    parse_magnitude_digits_lem (codes "0042") true (refl, (refl, (refl, (refl, tt))))
