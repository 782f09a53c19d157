-- ===== src/Tokens/RoundTrip.antt =====
-- src/TokenEnvelope.cpp: what is serialized is parsed back.
use arkham_horror_linux.Common.{
  ℕ, Bool, true, false, Option, some, [], ◌∷◌, ◌++◌, Text, length, All, ◌≡◌, ◌≢◌, refl, arith, ◌^◌,
  ◌<◌, take-length-append, drop-length-append, length-append, ◌∙◌,
}
use arkham_horror_linux.Common.Decimals.{Decimals, is_ascii_digit}
use arkham_horror_linux.Tokens.{
  is_valid_token_content, parsed, magic_prefix, supported_version, after_prefix, digits_then,
  before_colon, parse_body, serialize_token_envelope, parse_length, parse_version,
  parse_token_envelope,
}

after_prefix-append : (p t : Text) → after_prefix p (p ++ t) ≡ some t
unfolding after_prefix
after_prefix-append [] t = refl
after_prefix-append (u ∷ p) t = ground (arith, after_prefix-append p t)

digits_then-append :
    (is_digit : ℕ → Bool) (ds : Text) (u : ℕ) (rest : Text)
    → All (λ w. is_digit w ≡ true) ds
    → is_digit u ≡ false
    → digits_then is_digit (ds ++ u ∷ rest) ≡ (ds, u ∷ rest)
unfolding digits_then
digits_then-append is_digit [] u rest h e = rw e
digits_then-append is_digit (w ∷ ds) u rest h e =
    rw (h.0, digits_then-append is_digit ds u rest h.1 e)

before_colon-digits :
    (value : Text → Option ℕ) (ds rest : Text) (n : ℕ)
    → ds ≢ []
    → value ds ≡ some n
    → before_colon value (ds, b':' ∷ rest) ≡ some (n, rest)
unfolding before_colon
before_colon-digits value [] rest n ne e = absurd (ne refl)
before_colon-digits value (d ∷ ds) rest n ne e = rw e

parse_body_lem :
    (identity token : Text)
    → identity ≢ []
    → is_valid_token_content token ≡ true
    → parse_body (length identity) (identity ++ token) ≡ parsed identity token
unfolding parse_body
parse_body_lem [] token ne h = absurd (ne refl)
parse_body_lem (u ∷ identity) token ne h =
    rw (take-length-append identity token, drop-length-append identity token)
      (ground (arith, length-append identity token, h))

module _ (d : Decimals) where
  open d use {
    number, to_int, to_long_long, is_digit, number-ne_nil, number_ascii, ascii_is_digit,
    colon_no_digit,
  }

  All-digits : (t : Text) → All (λ u. is_ascii_digit u ≡ true) t → All (λ u. is_digit u ≡ true) t
  All-digits [] h = tt
  All-digits (u ∷ t) h = (ascii_is_digit u h.0, All-digits t h.1)

  number_colon :
      (value : Text → Option ℕ) (n : ℕ) (rest : Text)
      → value (number n) ≡ some n
      → before_colon value (digits_then is_digit (number n ++ b':' ∷ rest)) ≡ some (n, rest)
  number_colon value n rest e =
      rw
        (digits_then-append is_digit (number n) b':' rest (All-digits (number n) (number_ascii n))
          colon_no_digit)
        (before_colon-digits value (number n) rest n (number-ne_nil n) e)

  parse_magic : (rest : Text) → parse_token_envelope d (magic_prefix ++ rest) ≡ parse_version d rest
  unfolding parse_token_envelope after_prefix
  parse_magic rest = refl

  parse_supported :
      (rest : Text)
      → parse_version d (number supported_version ++ b':' ∷ rest) ≡ parse_length d rest
  unfolding parse_version
  parse_supported rest =
      rw (
        number_colon to_int supported_version rest (d.to_int-number 1 (omega arith)),
        parse_version,
      )

  parse_length_lem :
      (n : ℕ) (body : Text)
      → n < 2 ^ 63
      → parse_length d (number n ++ b':' ∷ body) ≡ parse_body n body
  unfolding parse_length
  parse_length_lem n body fits =
      rw (number_colon to_long_long n body (d.to_long_long-number n fits), parse_length)

  -- A non-empty identity, whose length is below 2 ^ 63, and a valid token come back unchanged from
  -- the envelope that is serialized for them.
  pub parse-serialize :
      (identity token : Text)
      → identity ≢ []
      → length identity < 2 ^ 63
      → is_valid_token_content token ≡ true
      → parse_token_envelope d (serialize_token_envelope d identity token) ≡ parsed identity token
  unfolding serialize_token_envelope
  parse-serialize identity token ne fits valid =
      parse_magic _
      ∙ parse_supported _
      ∙ parse_length_lem (length identity) (identity ++ token) fits
      ∙ parse_body_lem identity token ne valid
