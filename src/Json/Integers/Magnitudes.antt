-- ===== src/Json/Integers/Magnitudes.antt =====
-- `parseMagnitudeDigits` of src/domain/RawJson.cpp against the number that digits stand for.
use arkham_horror_linux.Common.{
  ℕ, zero, suc, ◌+◌, ◌-◌, ◌*◌, ◌%◌, ◌^◌, ◌<◌, ◌≤◌, Bool, true, false, ◌&&◌, none, some, [], ◌∷◌,
  Text, length, ltb, leb, ◌==◌, if◌then◌else◌, ◌≡◌, refl, arith, Bool-cases, inl, inr, ◌⊎◌, sym,
  subst, ap, ◌∙◌,
}
use native.Mathlib.Omega.{pow_step}
use native.Mathlib.Nat.{mul-le-mul_left, mul-le-mul_right}
use arkham_horror_linux.Json.{is_ascii_digit}
use arkham_horror_linux.Json.Numerals.{Digits}
use arkham_horror_linux.Json.Integers.{
  all_digits, trim, exceeds, bound_digits, magnitude_from, parse_magnitude_digits,
}

-- The number that digits stand for, behind a number.
unfoldable pub decimal_from : ℕ → Text → ℕ
decimal_from n [] = n
decimal_from n (u ∷ t) = decimal_from (n * 10 + (u - b'0')) t

abbrev pub decimal : Text → ℕ
decimal = decimal_from 0

-- The largest magnitude of a `qint64`.
abbrev pub largest : Bool → ℕ
largest negative = if negative then 2 ^ 63 else 2 ^ 63 - 1

digit_lt : (u : ℕ) → is_ascii_digit u ≡ true → u - b'0' < 10
digit_lt u h = ground (arith, h)

-- A smaller number stays smaller, whatever digits follow.
decimal_from-lt :
    (t b : Text) (p q : ℕ)
    → p < q
    → Digits t
    → Digits b
    → length t ≡ length b
    → decimal_from p t < decimal_from q b
unfolding decimal_from
decimal_from-lt [] [] p q k h g e = k
decimal_from-lt [] (v ∷ b) p q k h g e = absurd (omega arith)
decimal_from-lt (u ∷ t) [] p q k h g e = absurd (omega arith)
decimal_from-lt (u ∷ t) (v ∷ b) p q k h g e =
    let small = digit_lt u h.0 in
    decimal_from-lt t b (p * 10 + (u - b'0')) (q * 10 + (v - b'0')) (omega arith) h.1 g.1
      (omega arith)

exceeds-decimal_from :
    (t b : Text) (m : ℕ)
    → Digits t
    → Digits b
    → length t ≡ length b
    → exceeds t b ≡ ltb (decimal_from m b) (decimal_from m t)
unfolding exceeds decimal_from
exceeds-decimal_from [] [] m h g e = ground arith
exceeds-decimal_from [] (v ∷ b) m h g e = absurd (omega arith)
exceeds-decimal_from (u ∷ t) [] m h g e = absurd (omega arith)
exceeds-decimal_from (u ∷ t) (v ∷ b) m h g e = elim (Bool-cases (ltb u v)) [
  | inl less ↦
      let low : b'0' ≤ u = ground (arith, h.0) in
      let step : u < v = ground (arith, less) in
      let k =
        decimal_from-lt t b (m * 10 + (u - b'0')) (m * 10 + (v - b'0')) (omega arith) h.1 g.1
          (omega arith) in
      let backwards : ltb (decimal_from m (v ∷ b)) (decimal_from m (u ∷ t)) ≡ false =
        ground arith in
      rw (less) (sym backwards)
  | inr ge ↦ elim (Bool-cases (ltb v u)) [
    | inl more ↦
        let low : b'0' ≤ v = ground (arith, g.0) in
        let step : v < u = ground (arith, more) in
        let k =
          decimal_from-lt b t (m * 10 + (v - b'0')) (m * 10 + (u - b'0')) (omega arith) g.1 h.1
            (omega arith) in
        let forwards : ltb (decimal_from m (v ∷ b)) (decimal_from m (u ∷ t)) ≡ true =
          ground arith in
        rw (ge, more) (sym forwards)
    | inr le ↦
        let same : u ≡ v = ground (arith, ge, le) in
        rw (ge, le)
          (rw (same) (exceeds-decimal_from t b (m * 10 + (v - b'0')) h.1 g.1 (omega arith)))
  ]
]

pub le-decimal_from : (t : Text) (m : ℕ) → m ≤ decimal_from m t
unfolding decimal_from
le-decimal_from [] m = omega arith
le-decimal_from (u ∷ t) m = let k = le-decimal_from t (m * 10 + (u - b'0')) in omega arith

pub power_pos : (n : ℕ) → 0 < 10 ^ n
power_pos zero = omega arith
power_pos (suc n) = let k = power_pos n in rw (pow_step 10 n) (omega arith)

widen : (m d x : ℕ) → m * (10 * x) ≤ (m * 10 + d) * x
widen m d x = grind arith

narrow : (m d x : ℕ) → d < 10 → suc (m * 10 + d) * x ≤ suc m * (10 * x)
narrow m d x h =
    let k : (suc (m * 10 + d)) * x ≤ (suc m * 10) * x = mul-le-mul_right x (omega arith) in
    subst (λ y. suc (m * 10 + d) * x ≤ y) (grind arith) k

at_least : (m x : ℕ) → 0 < x → m < suc m * x
at_least m x h = let k : suc m * 1 ≤ suc m * x = mul-le-mul_left (suc m) h in omega arith

-- A number with digits behind it, from below and from above.
decimal_from-least : (n m : ℕ) (t : Text) → n ≤ length t → m * 10 ^ n ≤ decimal_from m t
unfolding decimal_from
decimal_from-least zero m t k = let h = le-decimal_from t m in omega arith
decimal_from-least (suc n) m [] k = absurd (omega arith)
decimal_from-least (suc n) m (u ∷ t) k =
    let h = decimal_from-least n (m * 10 + (u - b'0')) t (omega arith) in
    let wide = widen m (u - b'0') (10 ^ n) in rw (pow_step 10 n) (omega arith)

pub decimal_from-most :
    (n m : ℕ) (t : Text) → length t ≤ n → Digits t → decimal_from m t < suc m * 10 ^ n
unfolding decimal_from
decimal_from-most n m [] k h = at_least m (10 ^ n) (power_pos n)
decimal_from-most zero m (u ∷ t) k h = absurd (omega arith)
decimal_from-most (suc n) m (u ∷ t) k h =
    let f = decimal_from-most n (m * 10 + (u - b'0')) t (omega arith) h.1 in
    let small = digit_lt u h.0 in
    let tight = narrow m (u - b'0') (10 ^ n) small in rw (pow_step 10 n) (omega arith)

decimal-trim : (t : Text) → decimal (trim t) ≡ decimal t
unfolding trim decimal_from
decimal-trim [] = refl
decimal-trim (u ∷ []) = refl
decimal-trim (u ∷ v ∷ t) = elim (Bool-cases (u == b'0')) [
  | inl h ↦
      let nothing : (0 + (u - b'0')) * 10 + (v - b'0') ≡ 0 * 10 + (v - b'0') = ground (arith, h) in
      rw (h, nothing) (decimal-trim (v ∷ t))
  | inr h ↦ rw (h) refl
]

trim-Digits : (t : Text) → Digits t → Digits (trim t)
unfolding trim
trim-Digits [] h = tt
trim-Digits (u ∷ []) h = h
trim-Digits (u ∷ v ∷ t) h = elim (Bool-cases (u == b'0')) [
  | inl z ↦ rw (z) (trim-Digits (v ∷ t) h.1)
  | inr z ↦ rw (z) h
]

-- More than one digit does not start with a zero.
trim_first :
    (t : Text)
    → (length (trim t) ≤ 1) ⊎ ((u : ℕ) × (s : Text) × (trim t ≡ u ∷ s) × ((u == b'0') ≡ false))
unfolding trim
trim_first [] = inl (omega arith)
trim_first (u ∷ []) = inl (omega arith)
trim_first (u ∷ v ∷ t) = elim (Bool-cases (u == b'0')) [
  | inl z ↦ rw (z) (trim_first (v ∷ t))
  | inr z ↦ rw (z) (inr (u, v ∷ t, refl, z))
]

magnitude_from-decimal_from :
    (t : Text) (m : ℕ) → decimal_from m t < 2 ^ 64 → magnitude_from m t ≡ decimal_from m t
unfolding magnitude_from decimal_from
magnitude_from-decimal_from [] m k = refl
magnitude_from-decimal_from (u ∷ t) m k =
    let h = le-decimal_from t (m * 10 + (u - b'0')) in
    let same : (m * 10 + (u - b'0')) % 2 ^ 64 ≡ m * 10 + (u - b'0') = omega arith in
    rw (same) (magnitude_from-decimal_from t (m * 10 + (u - b'0')) k)

pub all_digits-Digits : (t : Text) → all_digits t ≡ true → Digits t
all_digits-Digits [] h = tt
all_digits-Digits (u ∷ t) h = (ground (arith, h), all_digits-Digits t (ground (arith, h)))

bound_digits-Digits : (negative : Bool) → Digits (bound_digits negative)
bound_digits-Digits true = all_digits-Digits (bound_digits true) refl
bound_digits-Digits false = all_digits-Digits (bound_digits false) refl

length-bound_digits : (negative : Bool) → length (bound_digits negative) ≡ 19
length-bound_digits true = omega arith
length-bound_digits false = omega arith

pub largest_lt : (negative : Bool) → largest negative < 10 ^ 19
largest_lt true = omega arith
largest_lt false = omega arith

lt-largest : (negative : Bool) (n : ℕ) → n < 10 ^ 18 → n ≤ largest negative
lt-largest true n h = omega arith
lt-largest false n h = omega arith

largest-lt : (negative : Bool) (n : ℕ) → 10 ^ 19 ≤ n → largest negative < n
largest-lt true n h = omega arith
largest-lt false n h = omega arith

-- More than 19 digits, the first of them not zero.
long-decimal :
    (t : Text) (u : ℕ) (s : Text)
    → Digits t
    → t ≡ u ∷ s
    → (u == b'0') ≡ false
    → 19 < length t
    → 10 ^ 19 ≤ decimal t
unfolding decimal_from
long-decimal [] u s h e z k = absurd (omega arith)
long-decimal (v ∷ t) u s h e z k =
    let first : v ≡ u = ground (arith, e) in
    let some_h : 1 ≤ 0 * 10 + (v - b'0') = ground (arith, h.0, z, first) in
    let least = decimal_from-least 19 (0 * 10 + (v - b'0')) t (omega arith) in omega arith

decimal-bound_digits : (negative : Bool) → decimal (bound_digits negative) ≡ largest negative
unfolding decimal_from
decimal-bound_digits true = omega arith
decimal-bound_digits false = omega arith

-- Without leading zeros, by the number of digits.
module _ (t : Text) (negative : Bool) (h : Digits t) where
  abbrev Trimmed : Type 0
  Trimmed = (length t ≤ 1) ⊎ ((u : ℕ) × (s : Text) × (t ≡ u ∷ s) × ((u == b'0') ≡ false))

  exceeds-largest :
      length t ≡ 19 → exceeds t (bound_digits negative) ≡ ltb (largest negative) (decimal t)
  exceeds-largest k =
      exceeds-decimal_from t (bound_digits negative) 0 h (bound_digits-Digits negative)
        (k ∙ sym (length-bound_digits negative))
      ∙ ap (λ n. ltb n (decimal t)) (decimal-bound_digits negative)

  long-largest : Trimmed → 19 < length t → largest negative < decimal t
  long-largest (inl few) k = absurd (omega arith)
  long-largest (inr (u, s, e, z)) k = largest-lt negative (decimal t) (long-decimal t u s h e z k)

  short-largest : length t < 19 → decimal t ≤ largest negative
  short-largest k =
      let most = decimal_from-most 18 0 t (omega arith) h in
      lt-largest negative (decimal t) (omega arith)

  by_bound :
      (if ltb (largest negative) (decimal t) then none else some (magnitude_from 0 t))
      ≡ (if leb (decimal t) (largest negative) then some (decimal t) else none)
  by_bound = elim (Bool-cases (ltb (largest negative) (decimal t))) [
    | inl big ↦
        let over : leb (decimal t) (largest negative) ≡ false = ground (arith, big) in
        rw (big, over) refl
    | inr small ↦
        let bound = largest_lt negative in
        let fits : leb (decimal t) (largest negative) ≡ true = ground (arith, small) in
        rw (small, fits) (ap some (magnitude_from-decimal_from t 0 (ground (arith, small))))
  ]

  trimmed_lem :
      Trimmed
      → (if ltb 19 (length t)
          then none
          else if length t == 19 && exceeds t (bound_digits negative)
          then none
          else some (magnitude_from 0 t))
        ≡ (if leb (decimal t) (largest negative) then some (decimal t) else none)
  trimmed_lem first = elim (Bool-cases (ltb 19 (length t))) [
    | inl long ↦
        let big = long-largest first (ground (arith, long)) in
        let over : leb (decimal t) (largest negative) ≡ false = ground arith in rw (long, over) refl
    | inr short ↦ elim (Bool-cases (length t == 19)) [
      | inl k ↦ rw (short, k, exceeds-largest (ground (arith, k))) by_bound
      | inr k ↦
          let small = short-largest (ground (arith, short, k)) in
          let bound = largest_lt negative in
          let fits : leb (decimal t) (largest negative) ≡ true = ground arith in
          rw (short, k, fits) (ap some (magnitude_from-decimal_from t 0 (omega arith)))
    ]
  ]

-- The magnitude of digits is the number that they stand for, when a `qint64` of that sign can have
-- it, and nothing otherwise.
pub parse_magnitude_digits_lem :
    (t : Text) (negative : Bool)
    → Digits t
    → parse_magnitude_digits t negative
      ≡ (if leb (decimal t) (largest negative) then some (decimal t) else none)
unfolding parse_magnitude_digits
parse_magnitude_digits_lem t negative h =
    trimmed_lem (trim t) negative (trim-Digits t h) (trim_first t)
    ∙ ap (λ n. if leb n (largest negative) then some n else none) (decimal-trim t)
