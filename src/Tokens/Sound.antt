-- ===== src/Tokens/Sound.antt =====
-- src/TokenEnvelope.cpp: a text that parses is an envelope, and its token is a valid one.
use arkham_horror_linux.Common.{
  ℕ, Bool, true, Option, some, [], ◌∷◌, ◌++◌, Text, length, ◌≡◌, ◌≢◌, refl, arith, Option-cases, ap,
  ◌∙◌, sym, inl, inr, All, Bool-cases, subst, take-append-drop, length-take_le,
}
use arkham_horror_linux.Common.Decimals.{Decimals}
use arkham_horror_linux.Tokens.{
  is_valid_token_content, parsed, magic_prefix, supported_version, after_prefix, digits_then,
  before_colon, parse_body, parse_length, parse_version, parse_token_envelope,
}

after_prefix_inv : (p t rest : Text) → after_prefix p t ≡ some rest → t ≡ p ++ rest
unfolding after_prefix
after_prefix_inv [] t rest e = ground arith
after_prefix_inv (u ∷ p) [] rest e = cc
after_prefix_inv (u ∷ p) (w ∷ t) rest e = ground (arith, after_prefix_inv p t rest)

digits_then_whole :
    (is_digit : ℕ → Bool) (t : Text) → (digits_then is_digit t).0 ++ (digits_then is_digit t).1 ≡ t
unfolding digits_then
digits_then_whole is_digit [] = refl
digits_then_whole is_digit (u ∷ t) = ground (arith, digits_then_whole is_digit t)

-- Digits, and at least one.
abbrev pub AreDigits : (ℕ → Bool) → Text → Type 0
AreDigits is_digit ds = (ds ≢ []) × All (λ u. is_digit u ≡ true) ds

digits_then-All :
    (is_digit : ℕ → Bool) (t : Text) → All (λ u. is_digit u ≡ true) (digits_then is_digit t).0
unfolding digits_then
digits_then-All is_digit [] = tt
digits_then-All is_digit (u ∷ t) = elim (Bool-cases (is_digit u)) [
  | inl e ↦ rw e (e, digits_then-All is_digit t)
  | inr e ↦ rw e tt
]

-- The digits before a colon, and their value.
abbrev Numeral : (Text → Option ℕ) → (ℕ → Bool) → Text → ℕ → Text → Type 0
Numeral value is_digit t n rest =
    (ds : Text) × AreDigits is_digit ds × (value ds ≡ some n) × (t ≡ ds ++ b':' ∷ rest)

before_colon_pair :
    (value : Text → Option ℕ) (ds after : Text) (n : ℕ) (rest : Text)
    → before_colon value (ds, after) ≡ some (n, rest)
    → (ds ≢ []) × (value ds ≡ some n) × (after ≡ b':' ∷ rest)
unfolding before_colon
before_colon_pair value [] after n rest e = cc
before_colon_pair value (d ∷ ds) [] n rest e = cc
before_colon_pair value (d ∷ ds) (u ∷ after) n rest e =
    (λ h. absurd (ground (arith, h)), ground arith, ground arith)

before_colon_inv :
    (value : Text → Option ℕ) (is_digit : ℕ → Bool) (t : Text) (n : ℕ) (rest : Text)
    → before_colon value (digits_then is_digit t) ≡ some (n, rest)
    → Numeral value is_digit t n rest
before_colon_inv value is_digit t n rest e =
    let (ne, v, a) =
      before_colon_pair value (digits_then is_digit t).0 (digits_then is_digit t).1 n rest e in
    (
      (digits_then is_digit t).0,
      (ne, digits_then-All is_digit t),
      v,
      sym (digits_then_whole is_digit t) ∙ ap (◌++◌ (digits_then is_digit t).0) a,
    )

parse_body_inv :
    (n : ℕ) (body identity token : Text)
    → parse_body n body ≡ parsed identity token
    → (n ≡ length identity)
      × (identity ≢ [])
      × (is_valid_token_content token ≡ true)
      × (body ≡ identity ++ token)
unfolding parse_body
parse_body_inv n body identity token e =
    ground (arith, length-take_le n body, take-append-drop n body)

-- The shape of an envelope for an identity and a token, with the digits by `is_digit`.
pub record Envelope (d : Decimals) (raw identity token : Text) : Type 0 where
  pub version_digits : Text
  pub length_digits : Text
  pub version_numeral : AreDigits d.is_digit version_digits
  pub length_numeral : AreDigits d.is_digit length_digits
  pub version_is : d.to_int version_digits ≡ some supported_version
  pub length_is : d.to_long_long length_digits ≡ some (length identity)
  pub identity_is : identity ≢ []
  pub token_is : is_valid_token_content token ≡ true
  pub whole :
      raw
      ≡ magic_prefix ++ (version_digits ++ (b':' ∷ (length_digits ++ (b':' ∷ (identity ++ token)))))

module _ (d : Decimals) where
  open d use {to_int, to_long_long, is_digit}

  parse_length_inv :
      (t identity token : Text)
      → parse_length d t ≡ parsed identity token
      → Numeral to_long_long is_digit t (length identity) (identity ++ token)
        × (identity ≢ [])
        × (is_valid_token_content token ≡ true)
  unfolding parse_length
  parse_length_inv t identity token e =
      elim (Option-cases (before_colon to_long_long (digits_then is_digit t))) [
        | inl f ↦ absurd (ground arith)
        | inr ((n, body), f) ↦
            let b = parse_body_inv n body identity token (ground arith) in
            (
              subst (λ x. Numeral to_long_long is_digit t x (identity ++ token)) b.0
                  (subst (Numeral to_long_long is_digit t n) b.3
                    (before_colon_inv to_long_long is_digit t n body f)),
              b.1,
              b.2,
            )
      ]

  parse_version_inv :
      (t identity token : Text)
      → parse_version d t ≡ parsed identity token
      → (rest : Text) × Numeral to_int is_digit t supported_version rest
        × (parse_length d rest ≡ parsed identity token)
  unfolding parse_version
  parse_version_inv t identity token e =
      elim (Option-cases (before_colon to_int (digits_then is_digit t))) [
        | inl f ↦ absurd (ground arith)
        | inr ((n, rest), f) ↦ (
          rest,
          subst (λ x. Numeral to_int is_digit t x rest) (ground arith)
              (before_colon_inv to_int is_digit t n rest f),
          ground arith,
        )
      ]

  parse_token_envelope_inv :
      (raw identity token : Text)
      → parse_token_envelope d raw ≡ parsed identity token
      → (rest : Text) × (raw ≡ magic_prefix ++ rest)
        × (parse_version d rest ≡ parsed identity token)
  unfolding parse_token_envelope
  parse_token_envelope_inv raw identity token e =
      elim (Option-cases (after_prefix magic_prefix raw)) [
        | inl f ↦ absurd (ground arith)
        | inr (rest, f) ↦ (rest, after_prefix_inv magic_prefix raw rest f, ground arith)
      ]

  -- A text that parses is the magic prefix, one or more digits that are the supported version, a
  -- colon, one or more digits that are the identity's length, a colon, the identity and the token;
  -- the identity is not empty and the token is valid.
  pub parse_token_envelope-Envelope :
      (raw identity token : Text)
      → parse_token_envelope d raw ≡ parsed identity token
      → Envelope d raw identity token
  parse_token_envelope-Envelope raw identity token e =
      let (rest, whole, v) = parse_token_envelope_inv raw identity token e in
      let (body, (vs, version_numeral, version_is, at), l) =
        parse_version_inv rest identity token v in
      let ((ls, length_numeral, length_is, there), ne, valid) =
        parse_length_inv body identity token l in
      record {
        version_digits = vs;
        length_digits = ls;
        version_numeral = version_numeral;
        length_numeral = length_numeral;
        version_is = version_is;
        length_is = length_is;
        identity_is = ne;
        token_is = valid;
        whole = rw (whole, at, there);
      }
