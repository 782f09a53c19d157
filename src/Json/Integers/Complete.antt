-- ===== src/Json/Integers/Complete.antt =====
-- `RawNumber::toExactInt64` of src/domain/RawJson.cpp answers for every number in the range.
use arkham_horror_linux.Common.{
  ℕ, zero, suc, ◌+◌, ◌-◌, ◌*◌, ◌^◌, ◌<◌, ◌≤◌, true, false, some, [], ◌∷◌, ◌++◌, Text, length, ltb,
  leb, ◌==◌, take, drop, take-append-drop, length-take_le, ◌≡◌, refl, arith, Bool-cases, inl, inr,
  sym, subst, ap, ◌∙◌,
}
use native.Mathlib.Omega.{pow_step}
use native.Mathlib.Nat.{mul-le-mul_left, mul-le-mul_right}
use arkham_horror_linux.Json.Numerals.{Digits}
use arkham_horror_linux.Json.Sound.Texts.{length_app}
use arkham_horror_linux.Json.Integers.{all_zero, zeros, magnitude_digits}
use arkham_horror_linux.Json.Integers.Magnitudes.{
  decimal_from, decimal, power_pos, decimal_from-most, le-decimal_from,
}
use arkham_horror_linux.Json.Integers.Places.{power_add, cancel, decimal_from-app}

-- Digits that are not all zeros stand for more than zero.
pub decimal_pos : (t : Text) (m : ℕ) → Digits t → all_zero t ≡ false → 0 < decimal_from m t
unfolding decimal_from
decimal_pos [] m h z = absurd (ground (arith, z))
decimal_pos (u ∷ t) m h z = elim (Bool-cases (u == b'0')) [
  | inl k ↦ decimal_pos t (m * 10 + (u - b'0')) h.1 (rw (k) at z)
  | inr k ↦
      let some_h : 0 < m * 10 + (u - b'0') = ground (arith, h.0, k) in
      let more = le-decimal_from t (m * 10 + (u - b'0')) in omega arith
]

-- Digits below a power of ten that are a multiple of it are zeros.
remainder_zero :
    (whole rest factor power : ℕ) → rest < power → whole * power + rest ≡ factor * power → rest ≡ 0
remainder_zero whole rest factor power k e = elim (Bool-cases (leb factor whole)) [
  | inl le ↦
      let small : factor * power ≤ whole * power = mul-le-mul_right power (ground (arith, le)) in
      omega arith
  | inr gt ↦
      let big : suc whole * power ≤ factor * power = mul-le-mul_right power (ground (arith, gt)) in
      let open_h : suc whole * power ≡ whole * power + power = grind arith in absurd (omega arith)
]

decimal_from-add : (t : Text) (m : ℕ) → decimal_from m t ≡ m * 10 ^ length t + decimal t
unfolding decimal_from
decimal_from-add [] m = grind arith
decimal_from-add (u ∷ t) m =
    rw
      (
        decimal_from-add t (m * 10 + (u - b'0')),
        decimal_from-add t (0 * 10 + (u - b'0')),
        pow_step 10 (length t),
      )
      (grind arith)

drop-Digits : (n : ℕ) (t : Text) → Digits t → Digits (drop n t)
drop-Digits zero t h = h
drop-Digits (suc n) [] h = h
drop-Digits (suc n) (u ∷ t) h = drop-Digits n t h.1

power_grows : (n : ℕ) → 19 < n → 10 ^ 19 ≤ 10 ^ n
power_grows n k =
    let shift : 19 + (n - 19) ≡ n = omega arith in
    let more : 10 ^ 19 * 1 ≤ 10 ^ 19 * 10 ^ (n - 19) =
      mul-le-mul_left (10 ^ 19) (power_pos (n - 19)) in
    subst (λ x. 10 ^ 19 ≤ 10 ^ x) shift (rw (power_add 19 (n - 19)) (omega arith))

-- The digits in front, when the whole is a multiple.
decimal-split :
    (digits : Text) (place : ℕ)
    → decimal digits
      ≡ decimal (take place digits) * 10 ^ length (drop place digits) + decimal (drop place digits)
decimal-split digits place =
    ap decimal (sym (take-append-drop place digits))
    ∙ decimal_from-app (take place digits) (drop place digits) 0
    ∙ decimal_from-add (drop place digits) (decimal (take place digits))

module _ (place m : ℕ) (digits : Text) (h : Digits digits) (z : all_zero digits ≡ false)
    (e : m * 10 ^ length digits ≡ decimal digits * 10 ^ place) where
  -- The digits need not be moved far behind their end.
  not_far : m < 10 ^ 19 → length digits ≤ place → 19 < place - length digits → ⊥
  not_far k past far =
      let some_h = decimal_pos digits 0 h z in
      let shift : place - length digits + length digits ≡ place = omega arith in
      let same : m ≡ decimal digits * 10 ^ (place - length digits) =
        cancel m (decimal digits * 10 ^ (place - length digits)) (10 ^ length digits)
          (power_pos (length digits))
          (e
            ∙ ap (λ x. decimal digits * 10 ^ x) (sym shift)
            ∙ rw (power_add (place - length digits) (length digits)) (grind arith)) in
      let grows = power_grows (place - length digits) far in
      let least : 1 * 10 ^ (place - length digits) ≤ decimal digits * 10 ^ (place - length digits) =
        mul-le-mul_right (10 ^ (place - length digits)) some_h in
      omega arith

  -- The point does not stand before all of them.
  not_before : place ≡ 0 → ⊥
  not_before start =
      let some_h = decimal_pos digits 0 h z in
      let most = decimal_from-most (length digits) 0 digits (omega arith) h in
      let same : m * 10 ^ length digits ≡ decimal digits = rw (start) at e ∙ grind arith in
      elim (Bool-cases (m == 0)) [
        | inl none_h ↦
            let zero_m : m ≡ 0 = ground (arith, none_h) in
            let gone = rw (zero_m) at same in omega arith
        | inr some_m ↦
            let least : 1 * 10 ^ length digits ≤ m * 10 ^ length digits =
              mul-le-mul_right (10 ^ length digits) (ground (arith, some_m)) in
            omega arith
      ]

  -- Behind the point there are only zeros.
  zeros_behind : place ≤ length digits → all_zero (drop place digits) ≡ true
  zeros_behind inside = elim (Bool-cases (all_zero (drop place digits))) [
    | inl k ↦ k
    | inr k ↦
        let tail = drop-Digits place digits h in
        let some_h = decimal_pos (drop place digits) 0 tail k in
        let most =
          decimal_from-most (length (drop place digits)) 0 (drop place digits) (omega arith) tail in
        let two = length_app (take place digits) (drop place digits) in
        let front = length-take_le place digits inside in
        let joined = ap length (take-append-drop place digits) in
        let sizes : length (drop place digits) + place ≡ length digits = omega arith in
        let multiple : m * 10 ^ length (drop place digits) ≡ decimal digits =
          cancel (m * 10 ^ length (drop place digits)) (decimal digits) (10 ^ place)
            (power_pos place)
            ((let open_h : m * 10 ^ length (drop place digits) * 10 ^ place
                    ≡ m * 10 ^ (length (drop place digits) + place) =
                  rw (power_add (length (drop place digits)) place) (grind arith) in
                open_h)
              ∙ ap (λ x. m * 10 ^ x) sizes
              ∙ e) in
        let nothing =
          remainder_zero (decimal (take place digits)) (decimal (drop place digits)) m
            (10 ^ length (drop place digits)) (omega arith)
            (sym (decimal-split digits place) ∙ sym multiple) in
        absurd (omega arith)
  ]

  -- The digits before the point are found.
  pub magnitude_digits_found : m < 10 ^ 19 → (t : Text) × (magnitude_digits place digits ≡ some t)
  unfolding magnitude_digits
  magnitude_digits_found k = elim (Bool-cases (leb (length digits) place)) [
    | inl past ↦ elim (Bool-cases (ltb 19 (place - length digits))) [
      | inl far ↦ absurd (not_far k (ground (arith, past)) (ground (arith, far)))
      | inr near ↦ (digits ++ zeros (place - length digits), rw (past, near) refl)
    ]
    | inr inside ↦ elim (Bool-cases (place == 0)) [
      | inl start ↦ absurd (not_before (ground (arith, start)))
      | inr after ↦
          let behind = zeros_behind (ground (arith, inside)) in
          (take place digits, rw (inside, after, behind) refl)
    ]
  ]
