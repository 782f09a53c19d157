-- ===== src/Tokens.antt =====
-- src/TokenValidation.cpp and TokenEnvelope.cpp: which texts are tokens, and the envelope that binds
-- a stored token to the identity of its endpoint. The scans by index are splits of the text.
pub mod RoundTrip
pub mod Sound
mod Examples
use arkham_horror_linux.Common.{
  ℕ, Bool, true, false, not, ◌&&◌, ◌||◌, Option, none, some, List, [], ◌∷◌, ◌++◌, Text, codes, ltb,
  leb, ◌==◌, if◌then◌else◌, length, is_empty, take, drop,
}
use arkham_horror_linux.Common.Decimals.{Decimals}

pub all_visible : Text → Bool
all_visible [] = true
all_visible (u ∷ t) = if ltb u 0x21 || ltb 0x7E u then false else all_visible t

pub is_valid_token_content : Text → Bool
unfolding all_visible
is_valid_token_content t = if is_empty t then false else all_visible t

pub data ParseResult : Type 0 where
  parsed : Text → Text → ParseResult
  legacy_unbound malformed : ParseResult

abbrev pub magic_prefix : Text
magic_prefix = codes "AHKV"

abbrev pub supported_version : ℕ
supported_version = 1

-- What follows a prefix, if the text starts with it.
pub after_prefix : Text → Text → Option Text
after_prefix [] t = some t
after_prefix (u ∷ p) [] = none
after_prefix (u ∷ p) (w ∷ t) = if u == w then after_prefix p t else none

-- The longest run of digits, and the rest.
pub digits_then : (ℕ → Bool) → Text → Text × Text
digits_then is_digit [] = ([], [])
digits_then is_digit (u ∷ t) =
    let (ds, rest) = digits_then is_digit t in if is_digit u then (u ∷ ds, rest) else ([], u ∷ t)

-- A number as the digits before a colon.
pub before_colon : (Text → Option ℕ) → Text × Text → Option (ℕ × Text)
before_colon value ([], rest) = none
before_colon value (d ∷ ds, []) = none
before_colon value (d ∷ ds, u ∷ rest) =
    if not (u == b':')
    then none
    else elim (value (d ∷ ds)) [ none ↦ none | some n ↦ some (n, rest) ]

pub parse_body : ℕ → Text → ParseResult
unfolding is_valid_token_content
parse_body n body =
    if n == 0
    then malformed
    else if ltb (length body) n
    then malformed
    else if not (is_valid_token_content (drop n body))
    then malformed
    else parsed (take n body) (drop n body)

module _ (d : Decimals) where
  open d use {number, to_int, to_long_long, is_digit}

  pub serialize_token_envelope : Text → Text → Text
  serialize_token_envelope identity token =
      magic_prefix
      ++ (number supported_version
          ++ (b':' ∷ (number (length identity) ++ (b':' ∷ (identity ++ token)))))

  pub parse_length : Text → ParseResult
  unfolding before_colon digits_then parse_body
  parse_length t = elim (before_colon to_long_long (digits_then is_digit t)) [
    | none ↦ malformed
    | some (n, body) ↦ parse_body n body
  ]

  pub parse_version : Text → ParseResult
  unfolding before_colon digits_then parse_length
  parse_version t = elim (before_colon to_int (digits_then is_digit t)) [
    | none ↦ malformed
    | some (v, rest) ↦ if v == supported_version then parse_length rest else malformed
  ]

  pub parse_token_envelope : Text → ParseResult
  unfolding after_prefix parse_version
  parse_token_envelope raw = elim (after_prefix magic_prefix raw) [
    | none ↦ legacy_unbound
    | some rest ↦ parse_version rest
  ]
