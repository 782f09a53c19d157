-- ===== src/Json/Integers/Exact.antt =====
-- `RawNumber::toExactInt64` of src/domain/RawJson.cpp against the number that a literal stands for.
use arkham_horror_linux.Common.{
  ℕ, ◌+◌, ◌-◌, ◌*◌, ◌^◌, ◌<◌, ◌≤◌, Bool, true, false, Option, none, some, ◌++◌, Text, length, ltb,
  if◌then◌else◌, is_empty, ◌≡◌, refl, arith, Bool-cases, Option-cases, inl, inr, sym, ap, ◌∙◌,
}
use arkham_horror_linux.Json.{RawNumber}
use arkham_horror_linux.Json.Numerals.{Digits, IsNumeral, integer_full}
use arkham_horror_linux.Json.Sound.Texts.{length_app}
use arkham_horror_linux.Json.Integers.{
  ℤ, pos, neg, all_zero, parse_magnitude_digits, magnitude_digits, or_zero, signed, decimal_point,
  exact_nonzero, to_exact_int64,
}
use arkham_horror_linux.Json.Integers.Magnitudes.{decimal_from, decimal, largest, power_pos}
use arkham_horror_linux.Json.Integers.Places.{
  all_digits-true, power_add, cancel, decimal_from-zeros, magnitude_digits-Placed, append-Digits,
  integer-Digits, magnitude_digits-Digits, parse_magnitude_digits_inv,
}

-- The same number with the powers of ten that both sides share taken off.
pub rebalance :
    (z m whole part place below above : ℕ)
    → z * 10 ^ (whole + part) ≡ m * 10 ^ place
    → place + below ≡ whole + above
    → z * 10 ^ (part + below) ≡ m * 10 ^ above
rebalance z m whole part place below above e k =
    let a = 10 ^ whole in
    let b = 10 ^ part in
    let c = 10 ^ below in
    let u = 10 ^ above in
    let sum : 10 ^ place * c ≡ a * u =
      sym (power_add place below) ∙ ap (λ n. 10 ^ n) k ∙ power_add whole above in
    let first : z * 10 ^ (part + below) * a ≡ z * 10 ^ (whole + part) * c =
      rw (power_add part below, power_add whole part) (grind arith) in
    let last : m * 10 ^ place * c ≡ m * 10 ^ above * a =
      (let q : m * 10 ^ place * c ≡ m * (10 ^ place * c) = grind arith in
        q ∙ ap (λ n. m * n) sum ∙ grind arith) in
    cancel (z * 10 ^ (part + below)) (m * 10 ^ above) a (power_pos whole)
      (first ∙ ap (λ n. n * c) e ∙ last)

abbrev pub signed_value : Bool → ℕ → ℤ
signed_value negative m = if negative then neg m else pos m

pub signed_zero : (negative : Bool) → signed_value negative 0 ≡ pos 0
signed_zero true = refl
signed_zero false = refl

signed_inv :
    (negative : Bool) (m : ℕ) (z : ℤ) → signed negative m ≡ some z → z ≡ signed_value negative m
unfolding signed
signed_inv true m z e = ground (arith, e)
signed_inv false m z e = ground (arith, e)

-- `toLongLong` reads digits, up to the largest `qint64`.
abbrev pub ReadsInt64 : (Text → Option ℕ) → Type 0
ReadsInt64 to_long_long =
    (t : Text)
    → Digits t
    → is_empty t ≡ false
    → to_long_long t ≡ (if ltb (decimal t) (2 ^ 63) then some (decimal t) else none)

pub read_inv : (n bound m : ℕ) → (if ltb n bound then some n else none) ≡ some m → m ≡ n
read_inv n bound m e = elim (Bool-cases (ltb n bound)) [
  | inl k ↦ ground (arith, rw (k) at e)
  | inr k ↦ absurd (ground (arith, rw (k) at e))
]

-- By how much an exponent moves the decimal point.
abbrev pub up : RawNumber → ℕ
up n = if n.exponent_negative then 0 else decimal n.exp_digits

abbrev pub down : RawNumber → ℕ
down n = if n.exponent_negative then decimal n.exp_digits else 0

module _ (to_long_long : Text → Option ℕ) (reads : ReadsInt64 to_long_long) where
  decimal_point_lem :
      (n : RawNumber) (place : ℕ)
      → IsNumeral n
      → decimal_point to_long_long n ≡ some place
      → 0 < place
      → place + down n ≡ length n.int_digits + up n
  unfolding decimal_point decimal_from
  decimal_point_lem n place g e k = elim (Bool-cases n.has_exponent) [
    | inr h ↦
        let (none_h, plus) = g.exponent_none h in
        let same : length n.int_digits ≡ place = ground (arith, rw (h, decimal_point) at e) in
        rw (plus, none_h) (omega arith)
    | inl h ↦ elim (Option-cases (to_long_long n.exp_digits)) [
      | inl none_h ↦ absurd (ground (arith, rw (h, none_h, decimal_point) at e))
      | inr (x, r) ↦
          let read =
            read_inv (decimal n.exp_digits) (2 ^ 63) x
              (sym (reads n.exp_digits g.exponent (g.exponent_full h)) ∙ r) in
          elim (Bool-cases n.exponent_negative) [
            | inl s ↦
                let same : length n.int_digits - x ≡ place =
                  ground (arith, rw (h, r, s, decimal_point) at e) in
                rw (s) (omega arith)
            | inr s ↦
                let same : length n.int_digits + x ≡ place =
                  ground (arith, rw (h, r, s, decimal_point) at e) in
                rw (s) (omega arith)
          ]
    ]
  ]

  -- A number z stands for what the literal says, in the range of its sign.
  abbrev pub IsExact : RawNumber → ℤ → Type 0
  IsExact n z =
      (m : ℕ) × (z ≡ signed_value n.negative m)
      × (m ≤ largest n.negative)
      × (m * 10 ^ (length n.frac_digits + down n)
          ≡ decimal (n.int_digits ++ n.frac_digits) * 10 ^ up n)

  exact_nonzero-IsExact :
      (n : RawNumber) (z : ℤ)
      → IsNumeral n
      → all_zero (n.int_digits ++ n.frac_digits) ≡ false
      → exact_nonzero to_long_long n (n.int_digits ++ n.frac_digits) ≡ some z
      → IsExact n z
  unfolding exact_nonzero
  exact_nonzero-IsExact n z g h e = elim (Option-cases (decimal_point to_long_long n)) [
    | inl none_h ↦ absurd (ground (arith, rw (none_h, exact_nonzero) at e))
    | inr (place, d) ↦
        elim (Option-cases (magnitude_digits place (n.int_digits ++ n.frac_digits))) [
          | inl none_h ↦ absurd (ground (arith, rw (d, none_h, exact_nonzero) at e))
          | inr (t, q) ↦ elim (Option-cases (parse_magnitude_digits (or_zero t) n.negative)) [
            | inl none_h ↦ absurd (ground (arith, rw (d, q, none_h, exact_nonzero) at e))
            | inr (m, r) ↦
                let digits =
                  append-Digits n.int_digits n.frac_digits (integer-Digits n.int_digits g.integer)
                    g.fraction in
                let (some_place, placed) =
                  magnitude_digits-Placed place (n.int_digits ++ n.frac_digits) t q h in
                let t_digits =
                  magnitude_digits-Digits place (n.int_digits ++ n.frac_digits) t q digits in
                let (value, fits) = parse_magnitude_digits_inv t n.negative m t_digits r in
                let size = length_app n.int_digits n.frac_digits in
                (
                  m,
                  signed_inv n.negative m z (rw (d, q, r, exact_nonzero) at e),
                  fits,
                  rebalance m (decimal (n.int_digits ++ n.frac_digits)) (length n.int_digits)
                      (length n.frac_digits) place (down n) (up n)
                      (ap (λ x. m * 10 ^ x) (sym size)
                        ∙ ap (λ x. x * 10 ^ length (n.int_digits ++ n.frac_digits)) (sym value)
                        ∙ placed)
                      (decimal_point_lem n place g d some_place),
                )
          ]
        ]
  ]

  zero_lem :
      (n : RawNumber) (z : ℤ)
      → IsNumeral n
      → all_zero (n.int_digits ++ n.frac_digits) ≡ true
      → to_exact_int64 to_long_long n ≡ some z
      → z ≡ signed_value n.negative 0
  unfolding to_exact_int64
  zero_lem n z g h e =
      let digits = all_digits-true n.exp_digits g.exponent in
      let same : signed_value n.negative 0 ≡ pos 0 = signed_zero n.negative in
      elim (Bool-cases n.has_exponent) [
        | inl k ↦
            let f =
              rw
                (
                  integer_full n.int_digits g.integer,
                  h,
                  k,
                  g.exponent_full k,
                  digits,
                  to_exact_int64,
                )
                at e in
            ground (arith, f, same)
        | inr k ↦
            let f = rw (integer_full n.int_digits g.integer, h, k, to_exact_int64) at e in
            ground (arith, f, same)
      ]

  pub to_exact_int64-IsExact :
      (n : RawNumber) (z : ℤ) → IsNumeral n → to_exact_int64 to_long_long n ≡ some z → IsExact n z
  unfolding to_exact_int64
  to_exact_int64-IsExact n z g e = elim (Bool-cases (all_zero (n.int_digits ++ n.frac_digits))) [
    | inl h ↦
        let nothing = decimal_from-zeros (n.int_digits ++ n.frac_digits) 0 h in
        (0, zero_lem n z g h e, omega arith, rw (nothing) (grind arith))
    | inr h ↦
        exact_nonzero-IsExact n z g h
          (rw (integer_full n.int_digits g.integer, h, to_exact_int64) at e)
  ]
