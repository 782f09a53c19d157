-- ===== src/Common/Decimals.antt =====
-- What the program asks of Qt about decimal numbers: `QString::number`, `toInt` and `toLongLong` on
-- a run of digits (so the value is not negative), and `QChar::isDigit`. The laws are the documented
-- ones: a printed number is a non-empty run of ASCII digits and is read back, within the type.
pub mod Ascii
use Prim.Native.Nat.{ℕ, ◌<◌, ◌^◌}
use mathlib.Core.Path.{◌≡◌}
use mathlib.Core.Logic.{◌≢◌}
use mathlib.Core.Bool.{Bool, true, false, ◌&&◌}
use mathlib.Core.List.{[]}
use mathlib.Core.Option.{Option, some}
use arkham_horror_linux.Common.Tests.{leb}
use arkham_horror_linux.Common.Lists.{Text, All}

abbrev pub is_ascii_digit : ℕ → Bool
is_ascii_digit u = leb b'0' u && leb u b'9'

pub record Decimals : Type 0 where
  pub number : ℕ → Text
  pub to_int : Text → Option ℕ
  pub to_long_long : Text → Option ℕ
  pub is_digit : ℕ → Bool
  pub number-ne_nil : (n : ℕ) → number n ≢ []
  pub number_ascii : (n : ℕ) → All (λ u. is_ascii_digit u ≡ true) (number n)
  pub ascii_is_digit : (u : ℕ) → is_ascii_digit u ≡ true → is_digit u ≡ true
  pub colon_no_digit : is_digit b':' ≡ false
  pub to_int-number : (n : ℕ) → n < 2 ^ 31 → to_int (number n) ≡ some n
  pub to_int-lt : (t : Text) (n : ℕ) → to_int t ≡ some n → n < 2 ^ 31
  pub to_long_long-number : (n : ℕ) → n < 2 ^ 63 → to_long_long (number n) ≡ some n
