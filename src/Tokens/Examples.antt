-- ===== src/Tokens/Examples.antt =====
-- An envelope of src/TokenEnvelope.cpp, with decimals over ASCII digits.
use arkham_horror_linux.Common.{Text, codes, ◌≡◌, refl, arith}
use arkham_horror_linux.Common.Decimals.Ascii.{read_from, ascii_decimals}
use arkham_horror_linux.Tokens.{
  parsed, all_visible, is_valid_token_content, serialize_token_envelope, parse_token_envelope,
}
use arkham_horror_linux.Tokens.RoundTrip.{parse-serialize}
use arkham_horror_linux.Tokens.Sound.{Envelope, parse_token_envelope-Envelope}

abbrev home : Text
home = codes "https://home"

abbrev token : Text
token = codes "t0k3n"

parse-serialize_example :
    parse_token_envelope ascii_decimals (serialize_token_envelope ascii_decimals home token)
    ≡ parsed home token
unfolding all_visible is_valid_token_content
parse-serialize_example =
    parse-serialize ascii_decimals home token (λ e. absurd (ground (arith, e))) (omega arith) refl

-- `AHKV1:12:https://homet0k3n`.
parse_token_envelope-Envelope_example :
    Envelope ascii_decimals (codes "AHKV1:12:https://homet0k3n") home token
unfolding parse_token_envelope ascii_decimals read_from
parse_token_envelope-Envelope_example =
    parse_token_envelope-Envelope ascii_decimals (codes "AHKV1:12:https://homet0k3n") home token
      refl
