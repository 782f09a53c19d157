-- ===== src/Json/Texts.antt =====
-- src/domain/RawJson.cpp: texts are written and read back.
use arkham_horror_linux.Common.{
  ℕ, zero, suc, ◌<◌, ◌≤◌, ◌&&◌, ◌||◌, Option, none, some, [], ◌∷◌, ◌++◌, Text, All, length, ◌≡◌,
  refl, arith, Bool-cases, inl, inr, subst, ap, ◌∙◌,
}
use mathlib.Core.List.{append_assoc}
use arkham_horror_linux.Json.{Bytes, is_high, is_low}
use arkham_horror_linux.Json.Parser.{Units, one, two, ok, string_loop, prepend}
use arkham_horror_linux.Json.Printer.{encode_point, behind, encode_units}
use arkham_horror_linux.Json.Points.{Decodes, encode_point-Decodes, encode_pair-Decodes}

abbrev pub IsUnits : Text → Type 0
IsUnits t = All (λ u. u < 0x10000) t

module _ (bs : Bytes) (w : Units) (d : Decodes bs w) (b rest : Bytes) where
  shape : (bs ++ b) ++ rest ≡ d.first ∷ (d.more ++ (b ++ rest))
  shape = rw (d.bytes, append_assoc) refl

  -- A loop with room left takes the units first.
  string_loop-one :
      (u room : ℕ)
      → w ≡ one u
      → string_loop (suc room) ((bs ++ b) ++ rest) ≡ prepend u (string_loop room (b ++ rest))
  unfolding string_loop
  string_loop-one u zero e = rw (shape, d.no_quote, d.reads (b ++ rest), e) refl
  string_loop-one u (suc room) e = rw (shape, d.no_quote, d.reads (b ++ rest), e) refl

  string_loop-two :
      (u v room : ℕ)
      → w ≡ two u v
      → string_loop (suc (suc room)) ((bs ++ b) ++ rest)
        ≡ prepend u (prepend v (string_loop room (b ++ rest)))
  unfolding string_loop
  string_loop-two u v room e = rw (shape, d.no_quote, d.reads (b ++ rest), e) refl

quote_ends : (room : ℕ) (rest : Bytes) → string_loop room (b'"' ∷ rest) ≡ ok ([], rest)
unfolding string_loop
quote_ends zero rest = refl
quote_ends (suc zero) rest = refl
quote_ends (suc (suc room)) rest = refl

pub behind_inv :
    (c : Bytes) (o : Option Bytes) (bs : Bytes)
    → behind c o ≡ some bs
    → (b : Bytes) × (o ≡ some b) × (c ++ b ≡ bs)
behind_inv c none bs e = absurd (ground (arith, e))
behind_inv c (some b) bs e = (b, refl, ground (arith, e))

-- What is written for a text is read back, up to the closing quote.
pub string_loop-encode_units :
    (t : Text) (bs rest : Bytes) (room : ℕ)
    → encode_units t ≡ some bs
    → IsUnits t
    → length t ≤ room
    → string_loop room (bs ++ rest) ≡ ok (t, rest)
unfolding encode_units
string_loop-encode_units [] bs rest room e us k =
    let s : (b'"' ∷ []) ≡ bs = ground (arith, e) in
    subst (λ x. string_loop room (x ++ rest) ≡ ok ([], rest)) s (quote_ends room rest)
string_loop-encode_units (u ∷ t) bs rest zero e us k = absurd (omega arith)
string_loop-encode_units (u ∷ []) bs rest (suc room) e us k =
    elim (Bool-cases (is_high u || is_low u)) [
      | inl s ↦ absurd (ground (arith, e, s))
      | inr s ↦
          let same : encode_point u ++ b'"' ∷ [] ≡ bs = ground (arith, e, s) in
          let d = encode_point-Decodes u us.0 s in
          subst (λ x. string_loop (suc room) (x ++ rest) ≡ ok (u ∷ [], rest)) same
            (string_loop-one (encode_point u) (one u) d (b'"' ∷ []) rest u room refl
              ∙ ap (prepend u) (quote_ends room rest))
    ]
string_loop-encode_units (u ∷ v ∷ t) bs rest (suc zero) e us k = absurd (omega arith)
string_loop-encode_units (u ∷ v ∷ t) bs rest (suc (suc room)) e us k =
    elim (Bool-cases (is_high u && is_low v)) [
      | inl s ↦
          let (b, f, same) = behind_inv _ (encode_units t) bs (rw (s, encode_units) at e) in
          let d = encode_pair-Decodes u v (ground (arith, s)) (ground (arith, s)) in
          subst (λ x. string_loop (suc (suc room)) (x ++ rest) ≡ ok (u ∷ v ∷ t, rest)) same
            (string_loop-two _ (two u v) d b rest u v room refl
              ∙ ap (λ r. prepend u (prepend v r))
                  (string_loop-encode_units t b rest room f us.1.1 (omega arith)))
      | inr s ↦ elim (Bool-cases (is_high u || is_low u)) [
        | inl g ↦ absurd (ground (arith, rw (s, g, encode_units) at e))
        | inr g ↦
            let (b, f, same) =
              behind_inv _ (encode_units (v ∷ t)) bs (rw (s, g, encode_units) at e) in
            let d = encode_point-Decodes u us.0 g in
            subst (λ x. string_loop (suc (suc room)) (x ++ rest) ≡ ok (u ∷ v ∷ t, rest)) same
              (string_loop-one _ (one u) d b rest u (suc room) refl
                ∙ ap (prepend u)
                    (string_loop-encode_units (v ∷ t) b rest (suc room) f us.1 (omega arith)))
      ]
    ]
