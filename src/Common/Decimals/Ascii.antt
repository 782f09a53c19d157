-- ===== src/Common/Decimals/Ascii.antt =====
-- Printing and reading of decimals over ASCII digits: the laws asked of Qt can hold together. The
-- fuel of `print` is the number plus one.
use arkham_horror_linux.Common.{
  ℕ, zero, suc, ◌+◌, ◌-◌, ◌*◌, ◌/◌, ◌%◌, ◌^◌, ◌<◌, true, Option, none, some, [], ◌∷◌, Text, All,
  ltb, if◌then◌else◌, ◌≡◌, ◌≢◌, refl, arith, Bool-cases, inl, inr,
}
use arkham_horror_linux.Common.Decimals.{Decimals, is_ascii_digit}

pub print : ℕ → ℕ → Text → Text
print zero n acc = acc
print (suc f) n acc =
    if ltb n 10 then (48 + n % 10) ∷ acc else print f (n / 10) ((48 + n % 10) ∷ acc)

unfoldable pub read_from : ℕ → Text → Option ℕ
read_from n [] = some n
read_from n (u ∷ t) = if is_ascii_digit u then read_from (n * 10 + (u - 48)) t else none

abbrev below : ℕ → Option ℕ → Option ℕ
below bound none = none
below bound (some n) = if ltb n bound then some n else none

digit_is_ascii : (n : ℕ) → is_ascii_digit (48 + n % 10) ≡ true
digit_is_ascii n = ground arith

read_digit : (n m : ℕ) (t : Text) → read_from m ((48 + n % 10) ∷ t) ≡ read_from (m * 10 + n % 10) t
unfolding read_from
read_digit n m t = ground arith

read-print : (f n : ℕ) (t : Text) → n < f → read_from 0 (print f n t) ≡ read_from n t
unfolding print
read-print zero n t h = absurd (omega arith)
read-print (suc f) n t h =
    ground
      (arith, read_digit n 0 t, read_digit n (n / 10) t, read-print f (n / 10) ((48 + n % 10) ∷ t))

print_cons : (f n u : ℕ) (t : Text) → print f n (u ∷ t) ≢ []
unfolding print
print_cons zero n u t = λ e. cc
print_cons (suc f) n u t = ground (arith, print_cons f (n / 10) (48 + n % 10) (u ∷ t))

pub print_ne_nil : (n : ℕ) → print (suc n) n [] ≢ []
unfolding print
print_ne_nil n = ground (arith, print_cons n (n / 10) (48 + n % 10) [])

pub print_ascii :
    (f n : ℕ) (t : Text)
    → All (λ u. is_ascii_digit u ≡ true) t
    → All (λ u. is_ascii_digit u ≡ true) (print f n t)
unfolding print
print_ascii zero n t a = a
print_ascii (suc f) n t a = elim (Bool-cases (ltb n 10)) [
  | inl e ↦ rw e (digit_is_ascii n, a)
  | inr e ↦ rw e (print_ascii f (n / 10) ((48 + n % 10) ∷ t) (digit_is_ascii n, a))
]

pub below-read : (bound n : ℕ) → n < bound → below bound (read_from 0 (print (suc n) n [])) ≡ some n
unfolding read_from
below-read bound n h = ground (arith, read-print (suc n) n [] (omega arith))

pub below-lt : (bound : ℕ) (o : Option ℕ) (n : ℕ) → below bound o ≡ some n → n < bound
below-lt bound none n e = absurd (ground (arith, e))
below-lt bound (some m) n e = ground (arith, e)

unfoldable pub ascii_decimals : Decimals
ascii_decimals = record {
  number = λ n. print (suc n) n [];
  to_int = λ t. below (2 ^ 31) (read_from 0 t);
  to_long_long = λ t. below (2 ^ 63) (read_from 0 t);
  is_digit = is_ascii_digit;
  number-ne_nil = λ n. print_ne_nil n;
  number_ascii = λ n. print_ascii (suc n) n [] tt;
  ascii_is_digit = λ u h. h;
  colon_no_digit = refl;
  to_int-number = λ n h. below-read (2 ^ 31) n h;
  to_int-lt = λ t n e. below-lt (2 ^ 31) (read_from 0 t) n e;
  to_long_long-number = λ n h. below-read (2 ^ 63) n h;
}
