-- ===== src/Json/Integers/Places.antt =====
-- `RawNumber::toExactInt64` of src/domain/RawJson.cpp: digits moved by powers of ten.
use arkham_horror_linux.Common.{
  ℕ, zero, suc, ◌+◌, ◌-◌, ◌*◌, ◌/◌, ◌^◌, ◌<◌, ◌≤◌, Bool, true, false, some, [], ◌∷◌, ◌++◌, Text,
  length, leb, ◌==◌, take, drop, take-append-drop, length-take_le, ◌≡◌, refl, arith, Bool-cases,
  inl, inr, sym, subst, ap, ◌∙◌,
}
use native.Mathlib.Omega.{pow_step}
use native.Mathlib.Nat.{mul-div_cancel}
use arkham_horror_linux.Json.Numerals.{Digits, IsInteger}
use arkham_horror_linux.Json.Sound.Texts.{length_app}
use arkham_horror_linux.Json.Integers.{
  all_zero, all_digits, parse_magnitude_digits, zeros, magnitude_digits, or_zero,
}
use arkham_horror_linux.Json.Integers.Magnitudes.{
  decimal_from, decimal, largest, parse_magnitude_digits_lem,
}

pub all_digits-true : (t : Text) → Digits t → all_digits t ≡ true
all_digits-true [] h = refl
all_digits-true (u ∷ t) h = rw (h.0) (all_digits-true t h.1)

pub power_add : (m n : ℕ) → 10 ^ (m + n) ≡ 10 ^ m * 10 ^ n
power_add zero n = grind arith
power_add (suc m) n =
    let shift : suc m + n ≡ suc (m + n) = omega arith in
    rw (shift, pow_step 10 (m + n), pow_step 10 m, power_add m n) (grind arith)

pub cancel : (a b c : ℕ) → 0 < c → a * c ≡ b * c → a ≡ b
cancel a b c k e = sym (mul-div_cancel a k) ∙ ap (λ x. x / c) e ∙ mul-div_cancel b k

pub decimal_from-app :
    (a b : Text) (m : ℕ) → decimal_from m (a ++ b) ≡ decimal_from (decimal_from m a) b
unfolding decimal_from
decimal_from-app [] b m = refl
decimal_from-app (u ∷ a) b m = decimal_from-app a b (m * 10 + (u - b'0'))

pub decimal_from-zeros :
    (t : Text) (m : ℕ) → all_zero t ≡ true → decimal_from m t ≡ m * 10 ^ length t
unfolding decimal_from
decimal_from-zeros [] m h = grind arith
decimal_from-zeros (u ∷ t) m h =
    let zero_h : m * 10 + (u - b'0') ≡ m * 10 = ground (arith, h) in
    rw (zero_h, decimal_from-zeros t (m * 10) (ground (arith, h)), pow_step 10 (length t))
      (grind arith)

all_zero-zeros : (n : ℕ) → all_zero (zeros n) ≡ true
all_zero-zeros zero = refl
all_zero-zeros (suc n) = all_zero-zeros n

length-zeros : (n : ℕ) → length (zeros n) ≡ n
length-zeros zero = refl
length-zeros (suc n) = ap suc (length-zeros n)

-- What the digits before the point stand for, moved by the digits' number and by the place.
abbrev pub Placed : ℕ → Text → Text → Type 0
Placed place digits t = (0 < place) × (decimal t * 10 ^ length digits ≡ decimal digits * 10 ^ place)

appended :
    (digits : Text) (k : ℕ)
    → decimal (digits ++ zeros k) * 10 ^ length digits ≡ decimal digits * 10 ^ (k + length digits)
appended digits k =
    let behind : decimal (digits ++ zeros k) ≡ decimal digits * 10 ^ k =
      decimal_from-app digits (zeros k) 0
      ∙ decimal_from-zeros (zeros k) (decimal digits) (all_zero-zeros k)
      ∙ ap (λ n. decimal digits * 10 ^ n) (length-zeros k) in
    rw (behind, power_add k (length digits)) (grind arith)

pub taken :
    (digits : Text) (place : ℕ)
    → place ≤ length digits
    → all_zero (drop place digits) ≡ true
    → decimal (take place digits) * 10 ^ length digits ≡ decimal digits * 10 ^ place
taken digits place k h =
    let whole : decimal digits ≡ decimal (take place digits) * 10 ^ length (drop place digits) =
      ap decimal (sym (take-append-drop place digits))
      ∙ decimal_from-app (take place digits) (drop place digits) 0
      ∙ decimal_from-zeros (drop place digits) (decimal (take place digits)) h in
    let sizes : length digits ≡ length (drop place digits) + place =
      let two = length_app (take place digits) (drop place digits) in
      let front = length-take_le place digits k in
      let same = ap length (take-append-drop place digits) in omega arith in
    rw (whole, sizes, power_add (length (drop place digits)) place) (grind arith)

not_empty : (t : Text) → all_zero t ≡ false → 0 < length t
not_empty [] h = absurd (ground (arith, h))
not_empty (u ∷ t) h = omega arith

pub magnitude_digits-Placed :
    (place : ℕ) (digits t : Text)
    → magnitude_digits place digits ≡ some t
    → all_zero digits ≡ false
    → Placed place digits t
unfolding magnitude_digits
magnitude_digits-Placed place digits t e h = elim (Bool-cases (leb (length digits) place)) [
  | inl past ↦
      let full = not_empty digits h in
      let k : length digits ≤ place = ground (arith, past) in
      let shape : digits ++ zeros (place - length digits) ≡ t =
        ground (arith, rw (past, magnitude_digits) at e) in
      let sum : place - length digits + length digits ≡ place = omega arith in
      (
        omega arith,
        rw (sym shape)
            (appended digits (place - length digits) ∙ ap (λ n. decimal digits * 10 ^ n) sum),
      )
  | inr inside ↦ elim (Bool-cases (place == 0)) [
    | inl start ↦ absurd (ground (arith, e, inside, start, h))
    | inr after ↦ elim (Bool-cases (all_zero (drop place digits))) [
      | inl z ↦
          let shape : take place digits ≡ t =
            ground (arith, rw (inside, after, z, magnitude_digits) at e) in
          (ground (arith, after), rw (sym shape) (taken digits place (ground (arith, inside)) z))
      | inr z ↦ absurd (ground (arith, rw (inside, after, z, magnitude_digits) at e))
    ]
  ]
]

pub append-Digits : (a b : Text) → Digits a → Digits b → Digits (a ++ b)
append-Digits [] b h g = g
append-Digits (u ∷ a) b h g = (h.0, append-Digits a b h.1 g)

take-Digits : (n : ℕ) (t : Text) → Digits t → Digits (take n t)
take-Digits zero t h = tt
take-Digits (suc n) [] h = tt
take-Digits (suc n) (u ∷ t) h = (h.0, take-Digits n t h.1)

pub integer-Digits : (t : Text) → IsInteger t → Digits t
integer-Digits [] h = absurd h
integer-Digits (u ∷ t) h = h.0

zeros-Digits : (n : ℕ) → Digits (zeros n)
zeros-Digits zero = tt
zeros-Digits (suc n) = (refl, zeros-Digits n)

pub magnitude_digits-Digits :
    (place : ℕ) (digits t : Text)
    → magnitude_digits place digits ≡ some t
    → Digits digits
    → Digits t
unfolding magnitude_digits
magnitude_digits-Digits place digits t e h = elim (Bool-cases (leb (length digits) place)) [
  | inl past ↦
      let shape : digits ++ zeros (place - length digits) ≡ t =
        ground (arith, rw (past, magnitude_digits) at e) in
      subst Digits shape (append-Digits digits _ h (zeros-Digits (place - length digits)))
  | inr inside ↦ elim (Bool-cases (place == 0)) [
    | inl start ↦ elim (Bool-cases (all_zero digits)) [
      | inl z ↦
          let shape : b'0' ∷ [] ≡ t =
            ground (arith, rw (inside, start, z, magnitude_digits) at e) in
          subst Digits shape (refl, tt)
      | inr z ↦ absurd (ground (arith, rw (inside, start, z, magnitude_digits) at e))
    ]
    | inr after ↦ elim (Bool-cases (all_zero (drop place digits))) [
      | inl z ↦
          let shape : take place digits ≡ t =
            ground (arith, rw (inside, after, z, magnitude_digits) at e) in
          subst Digits shape (take-Digits place digits h)
      | inr z ↦ absurd (ground (arith, rw (inside, after, z, magnitude_digits) at e))
    ]
  ]
]

pub or_zero-Digits : (t : Text) → Digits t → Digits (or_zero t)
or_zero-Digits [] h = (refl, tt)
or_zero-Digits (u ∷ t) h = h

pub decimal-or_zero : (t : Text) → decimal (or_zero t) ≡ decimal t
unfolding decimal_from
decimal-or_zero [] = refl
decimal-or_zero (u ∷ t) = refl

pub parse_magnitude_digits_inv :
    (t : Text) (negative : Bool) (m : ℕ)
    → Digits t
    → parse_magnitude_digits (or_zero t) negative ≡ some m
    → (decimal t ≡ m) × (m ≤ largest negative)
parse_magnitude_digits_inv t negative m h e =
    let f = sym (parse_magnitude_digits_lem (or_zero t) negative (or_zero-Digits t h)) ∙ e in
    let g = rw (decimal-or_zero t) at f in
    elim (Bool-cases (leb (decimal t) (largest negative))) [
      | inl k ↦
          let same : decimal t ≡ m = ground (arith, rw (k) at g) in
          (same, subst (λ x. x ≤ largest negative) same (ground (arith, k)))
      | inr k ↦ absurd (ground (arith, rw (k) at g))
    ]
