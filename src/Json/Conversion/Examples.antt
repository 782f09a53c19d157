-- ===== src/Json/Conversion/Examples.antt =====
-- A value of src/domain/RawJson.cpp converted to one of Qt, which stands here for how many values it
-- holds.
use arkham_horror_linux.Common.{
  ℕ, ◌+◌, ◌^◌, true, false, not, Option, none, some, is_some, List, [], ◌∷◌, Text, codes, ltb,
  if◌then◌else◌, ◌≡◌, refl,
}
use arkham_horror_linux.Json.{
  production, RawNumber, Value, Bytes, number, boolean, array, object, no_items, item, no_members,
  member, seen,
}
use arkham_horror_linux.Json.Printer.{printed, to_json_bytes}
use arkham_horror_linux.Json.Integers.Magnitudes.{decimal, decimal_from}
use arkham_horror_linux.Json.Conversion.{
  QtJson, converted, to_exact_qjson, convert_value, convert_key, convert_number,
}
use arkham_horror_linux.Json.Surrogates.{has_lone_surrogate}
use arkham_horror_linux.Json.Integers.{
  to_exact_int64, exact_nonzero, decimal_point, magnitude_digits, parse_magnitude_digits, trim,
  signed, magnitude_from,
}
use arkham_horror_linux.Json.Conversion.Printable.{to_exact_qjson_lem}

abbrev held : Option ℕ → ℕ
held none = 0
held (some n) = n

abbrev total : List (Option ℕ) → ℕ
total [] = 0
total (x ∷ xs) = held x + total xs

abbrev total_members : List (Text × Option ℕ) → ℕ
total_members [] = 0
total_members ((k, x) ∷ xs) = held x + total_members xs

abbrev counting : QtJson
counting = record {
  Q = Option ℕ;
  q_undefined = none;
  q_null = some 1;
  q_bool = λ b. some 1;
  q_integer = λ z. some 1;
  q_string = λ t. some 1;
  q_array = λ xs. some (1 + total xs);
  q_object = λ ms. some (1 + total_members ms);
  is_undefined = λ x. not (is_some x);
  undefined_law = refl;
  to_long_long = λ t. if ltb (decimal t) (2 ^ 63) then some (decimal t) else none;
}

-- 1.50e1, which is an integer.
abbrev fifteen : RawNumber
fifteen = record {
  negative = false;
  int_digits = codes "1";
  frac_digits = codes "50";
  has_exponent = true;
  exponent_negative = false;
  exp_digits = codes "1";
}

abbrev sample : Value
sample =
    object (
      member (codes "n") (array (item (number fifteen) (item (boolean false) no_items))) no_members)

sample_converted : to_exact_qjson counting sample ≡ converted (some 4)
unfolding to_exact_qjson convert_value convert_key has_lone_surrogate seen convert_number
    to_exact_int64 exact_nonzero decimal_point decimal_from magnitude_digits parse_magnitude_digits
    trim signed magnitude_from
sample_converted = refl

to_exact_qjson_lem_example : (bs : Bytes) × (to_json_bytes production sample ≡ printed bs)
to_exact_qjson_lem_example = to_exact_qjson_lem counting sample (some 4) sample_converted refl
