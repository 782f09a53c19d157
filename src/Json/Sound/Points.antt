-- ===== src/Json/Sound/Points.antt =====
-- src/domain/RawJson.cpp: a step of the loop over a string gives a unit or a pair that can be
-- written in no more bytes than the step took.
use arkham_horror_linux.Common.{
  ℕ, suc, ◌+◌, ◌*◌, ◌<◌, ◌≤◌, true, false, not, ◌&&◌, ◌||◌, [], ◌∷◌, length, ◌==◌, ◌≡◌, refl, arith,
  Bool-cases, inl, inr,
}
use arkham_horror_linux.Json.{Bytes, is_high, is_low}
use arkham_horror_linux.Json.Parser.{
  ok, Units, one, two, starts, rest_of, is_hex_digit, hex_value, parse_hex4, low_escape,
  unicode_escape, parse_escape, lone_high, no_low, lone_low, invalid_hex,
}
use arkham_horror_linux.Json.Printer.{surrogate_to_ucs4, utf8_of, encode_point}
use arkham_horror_linux.Json.Sound.Outcome.{ok_inv, past_inv, passed_inv, ok_subst, either_way}

-- A unit that stands alone, or a high one with a low one.
abbrev pub IsGood : Units → Type 0
IsGood (one u) = (u < 0x10000) × ((is_high u || is_low u) ≡ false)
IsGood (two u v) = ((is_high u && is_low v) ≡ true)

abbrev pub written : Units → Bytes
written (one u) = encode_point u
written (two u v) = encode_point (surrogate_to_ucs4 u v)

length-encode_point : (u : ℕ) → length (encode_point u) ≤ 6
unfolding encode_point utf8_of
length-encode_point u = ground arith

pub length-encode_point_plain :
    (u : ℕ)
    → 0x20 ≤ u
    → u < 0x80
    → (u == b'"') ≡ false
    → (u == b'\\') ≡ false
    → length (encode_point u) ≡ 1
unfolding encode_point utf8_of
length-encode_point_plain u a b c d = ground arith

pub length-encode_point_two : (u : ℕ) → 0x80 ≤ u → u < 0x800 → length (encode_point u) ≡ 2
unfolding encode_point utf8_of
length-encode_point_two u a b = ground arith

pub length-encode_point_three : (u : ℕ) → 0x800 ≤ u → u < 0x10000 → length (encode_point u) ≡ 3
unfolding encode_point utf8_of
length-encode_point_three u a b = ground arith

length-encode_point_four : (u : ℕ) → 0x10000 ≤ u → length (encode_point u) ≡ 4
unfolding encode_point utf8_of
length-encode_point_four u a = ground arith

-- What a step did from bytes of a length.
abbrev pub Took : ℕ → Units × Bytes → Type 0
Took size (w, rest) = IsGood w × (length (written w) + length rest ≤ size)

hex_value_lt : (c : ℕ) → is_hex_digit c ≡ true → hex_value c < 16
hex_value_lt c h = ground (arith, h)

hex4_lt :
    (x y z w : ℕ) → x < 16 → y < 16 → z < 16 → w < 16 → ((x * 16 + y) * 16 + z) * 16 + w < 0x10000
hex4_lt x y z w a b c d = omega arith

abbrev IsHex4 : ℕ → ℕ × Bytes → Type 0
IsHex4 size (code, rest) = (code < 0x10000) × (4 + length rest ≤ size)

parse_hex4_lem : (b : Bytes) (p : ℕ × Bytes) → parse_hex4 b ≡ ok p → IsHex4 (length b) p
unfolding parse_hex4
parse_hex4_lem (x ∷ y ∷ z ∷ w ∷ b) p e =
    let code = ((hex_value x * 16 + hex_value y) * 16 + hex_value z) * 16 + hex_value w in
    let (h, f) =
      passed_inv (is_hex_digit x && (is_hex_digit y && (is_hex_digit z && is_hex_digit w)))
        invalid_hex (x ∷ y ∷ z ∷ w ∷ b) (ok (code, b)) p e in
    let small =
      hex4_lt (hex_value x) (hex_value y) (hex_value z) (hex_value w)
        (hex_value_lt x (ground (arith, h))) (hex_value_lt y (ground (arith, h)))
        (hex_value_lt z (ground (arith, h))) (hex_value_lt w (ground (arith, h))) in
    ok_subst (IsHex4 (length (x ∷ y ∷ z ∷ w ∷ b))) (code, b) p f (small, omega arith)
parse_hex4_lem b p e = absurd (ground (arith, e))

pub length-rest_of : (c : ℕ) (b : Bytes) → starts c b ≡ true → suc (length (rest_of b)) ≡ length b
length-rest_of c [] h = absurd (ground (arith, h))
length-rest_of c (x ∷ b) h = refl

pub length-pair :
    (u v : ℕ) → (is_high u && is_low v) ≡ true → length (encode_point (surrogate_to_ucs4 u v)) ≡ 4
length-pair u v h = length-encode_point_four (surrogate_to_ucs4 u v) (ground (arith, h))

low_escape_lem :
    (high : ℕ) (b : Bytes) (p : Units × Bytes)
    → low_escape high b ≡ ok p
    → is_high high ≡ true
    → Took (length b) p
unfolding low_escape
low_escape_lem high b p e hi =
    let (h, f) = past_inv (not (starts b'\\' b && starts b'u' (rest_of b))) lone_high b _ p e in
    let ((low, after), g, k) = ok_inv (parse_hex4 (rest_of (rest_of b))) _ p f in
    let (lo, same) = passed_inv (is_low low) no_low after (ok (two high low, after)) p k in
    let (small, four) = parse_hex4_lem (rest_of (rest_of b)) (low, after) g in
    let slash = length-rest_of b'\\' b (ground (arith, h)) in
    let letter = length-rest_of b'u' (rest_of b) (ground (arith, h)) in
    let pair : (is_high high && is_low low) ≡ true = rw (hi) lo in
    ok_subst (Took (length b)) (two high low, after) p same
      (pair, rw (length-pair high low pair) (omega arith))

unicode_escape_lem :
    (b : Bytes) (p : Units × Bytes) → unicode_escape b ≡ ok p → Took (suc (suc (length b))) p
unfolding unicode_escape
unicode_escape_lem b p e =
    let ((code, after), g, k) = ok_inv (parse_hex4 b) _ p e in
    let (small, four) = parse_hex4_lem b (code, after) g in
    elim (Bool-cases (is_high code)) [
      | inl hi ↦
          let (good, few) = low_escape_lem code after p (rw (hi) at k) hi in (good, omega arith)
      | inr hi ↦
          let (lo, same) =
            past_inv (is_low code) lone_low after (ok (one code, after)) p (rw (hi) at k) in
          let six = length-encode_point code in
          ok_subst (Took (suc (suc (length b)))) (one code, after) p same
            ((small, rw (hi) lo), omega arith)
    ]

-- An escape of two bytes.
short_escape :
    (u : ℕ) (b : Bytes) (p : Units × Bytes)
    → u < 0x80
    → length (encode_point u) ≤ 2
    → ok (one u, b) ≡ ok p
    → Took (suc (suc (length b))) p
short_escape u b p small two_bytes e =
    ok_subst (Took (suc (suc (length b)))) (one u, b) p e ((omega arith, ground arith), omega arith)

pub parse_escape_lem :
    (b : Bytes) (p : Units × Bytes) → parse_escape b ≡ ok p → Took (suc (length b)) p
unfolding parse_escape encode_point utf8_of
parse_escape_lem [] p e = absurd (ground (arith, e))
parse_escape_lem (c ∷ b) p e =
    (either_way (c == b'"') (short_escape b'"' b p (omega arith) (omega arith))
      (either_way (c == b'\\') (short_escape b'\\' b p (omega arith) (omega arith)) (
        either_way (c == b'/') (short_escape b'/' b p (omega arith) (omega arith)) (
          either_way (c == b'b') (short_escape 0x08 b p (omega arith) (omega arith)) (
            either_way (c == b'f') (short_escape 0x0C b p (omega arith) (omega arith)) (
              either_way (c == b'n') (short_escape 0x0A b p (omega arith) (omega arith)) (
                either_way (c == b'r') (short_escape 0x0D b p (omega arith) (omega arith)) (
                  either_way (c == b't') (short_escape 0x09 b p (omega arith) (omega arith)) (
                    either_way (c == b'u') (unicode_escape_lem b p)
                      (λ f. absurd (ground (arith, f)))))))))))
      e)
