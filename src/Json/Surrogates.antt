-- ===== src/Json/Surrogates.antt =====
-- `hasLoneSurrogate` of src/domain/RawJson.cpp, and the printer's own check.
use arkham_horror_linux.Common.{
  Bool, true, false, not, ◌||◌, Option, none, some, [], ◌∷◌, Text, is_some, if◌then◌else◌, ◌≡◌,
  refl, arith, Bool-cases, inl, inr, ap, sym, ◌∙◌,
}
use arkham_horror_linux.Json.{Bytes, is_high, is_low}
use arkham_horror_linux.Json.Printer.{
  encode_point, surrogate_to_ucs4, behind, encode_units, append_json_encoded_string,
}

unfoldable pub has_lone_surrogate : Text → Bool
has_lone_surrogate [] = false
has_lone_surrogate (u ∷ []) = is_high u || is_low u
has_lone_surrogate (u ∷ v ∷ t) =
    let after_pair = has_lone_surrogate t in
    let after_one = has_lone_surrogate (v ∷ t) in
    if is_high u
    then if is_low v then after_pair else true
    else if is_low u
    then true
    else after_one

is_some-behind : (b : Bytes) (o : Option Bytes) → is_some (behind b o) ≡ is_some o
is_some-behind b none = refl
is_some-behind b (some x) = refl

has_lone_surrogate-encode_units : (t : Text) → has_lone_surrogate t ≡ not (is_some (encode_units t))
unfolding has_lone_surrogate encode_units
has_lone_surrogate-encode_units [] = refl
has_lone_surrogate-encode_units (u ∷ []) = elim (Bool-cases (is_high u || is_low u)) [
  | inl h ↦ rw (h) refl
  | inr h ↦ rw (h) refl
]
has_lone_surrogate-encode_units (u ∷ v ∷ t) =
    let pair = has_lone_surrogate-encode_units t in
    let single = has_lone_surrogate-encode_units (v ∷ t) in
    let pair_b = is_some-behind (encode_point (surrogate_to_ucs4 u v)) (encode_units t) in
    let single_b = is_some-behind (encode_point u) (encode_units (v ∷ t)) in
    elim (Bool-cases (is_high u)) [
      | inl h ↦ elim (Bool-cases (is_low v)) [
        | inl g ↦ rw (h, g, has_lone_surrogate, encode_units) (pair ∙ ap not (sym pair_b))
        | inr g ↦
            let either : (is_high u || is_low u) ≡ true = ground (arith, h) in
            rw (h, g, either, has_lone_surrogate, encode_units) refl
      ]
      | inr h ↦ elim (Bool-cases (is_low u)) [
        | inl g ↦
            let either : (is_high u || is_low u) ≡ true = ground (arith, g) in
            rw (h, either, g, has_lone_surrogate, encode_units) refl
        | inr g ↦
            let either : (is_high u || is_low u) ≡ false = ground (arith, h, g) in
            rw (h, either, g, has_lone_surrogate, encode_units) (single ∙ ap not (sym single_b))
      ]
    ]

-- The check of a text finds a lone surrogate exactly when the text cannot be written.
pub has_lone_surrogate_lem :
    (t : Text) → has_lone_surrogate t ≡ not (is_some (append_json_encoded_string t))
unfolding append_json_encoded_string
has_lone_surrogate_lem t =
    rw (is_some-behind (b'"' ∷ []) (encode_units t)) (has_lone_surrogate-encode_units t)
