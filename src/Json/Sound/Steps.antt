-- ===== src/Json/Sound/Steps.antt =====
-- src/domain/RawJson.cpp: a step of the loop over a string, at any byte.
use arkham_horror_linux.Common.{
  ℕ, zero, suc, ◌+◌, ◌-◌, ◌*◌, ◌/◌, ◌%◌, ◌^◌, ◌<◌, ◌≤◌, true, false, ◌&&◌, some, [], ◌∷◌, length,
  ltb, leb, ◌==◌, ◌≡◌, refl, arith, Bool-cases, Option-cases, inl, inr, sym, subst, ◌⊎◌,
}
use native.Mathlib.Omega.{pow_step}
use arkham_horror_linux.Json.{Bytes, is_high, is_low}
use arkham_horror_linux.Json.Parser.{
  ok, Units, one, continuations, units_of, check_point, utf8_tail, parse_utf8_sequence, parse_units,
  utf8_overlong, utf8_surrogate, utf8_range, utf8_truncated, control_character,
}
use arkham_horror_linux.Json.Printer.{encode_point}
use arkham_horror_linux.Json.Sound.Outcome.{past_inv, ok_subst, either_way}
use arkham_horror_linux.Json.Sound.Points.{
  IsGood, written, Took, parse_escape_lem, length-pair, length-encode_point_plain,
  length-encode_point_two, length-encode_point_three,
}

continuations_step :
    (n point : ℕ) (b : Bytes) (p : ℕ × Bytes)
    → continuations (suc n) point b ≡ some p
    → (c : ℕ) × (after : Bytes) × (b ≡ c ∷ after)
      × (continuations n (point * 64 + c % 64) after ≡ some p)
unfolding continuations
continuations_step n point [] p e = absurd (ground (arith, e))
continuations_step n point (c ∷ b) p e = (c, b, refl, ground (arith, e))

continuations_lt :
    (n point bound : ℕ) (b : Bytes) (p : ℕ × Bytes)
    → continuations n point b ≡ some p
    → point < bound
    → (p.0 < bound * 64 ^ n) × (n + length p.1 ≡ length b)
unfolding continuations
continuations_lt zero point bound b p e k =
    let same : (point, b) ≡ p = ground (arith, e) in
    subst (λ (q : ℕ × Bytes). (q.0 < bound * 64 ^ 0) × (0 + length q.1 ≡ length b)) same
      (omega arith, omega arith)
continuations_lt (suc n) point bound b p e k =
    let (c, after, same, f) = continuations_step n point b p e in
    let (small, size) =
      continuations_lt n (point * 64 + c % 64) (bound * 64) after p f (omega arith) in
    let factor : bound * 64 * 64 ^ n ≡ bound * 64 ^ suc n = rw (pow_step 64 n) (grind arith) in
    (subst (λ m. p.0 < m) factor small, rw (same) (omega arith))

-- What is written for a code point, by its size.
length_by_size :
    (point : ℕ)
    → 0x80 ≤ point
    → point < 0x10000
    → (length (encode_point point) ≤ 3) × (point < 0x800 → length (encode_point point) ≤ 2)
length_by_size point a b = elim (Bool-cases (ltb point 0x800)) [
  | inl q ↦
      let exact = length-encode_point_two point a (ground (arith, q)) in
      (omega arith, λ k. omega arith)
  | inr q ↦
      let exact = length-encode_point_three point (ground (arith, q)) b in
      (omega arith, λ k. absurd (ground (arith, q, k)))
]

pair_of_point :
    (point : ℕ)
    → 0x10000 ≤ point
    → point < 0x110000
    → (is_high (0xD800 + (point - 0x10000) / 1024) && is_low (0xDC00 + (point - 0x10000) % 1024))
      ≡ true
pair_of_point point a b = ground arith

units_of_lem :
    (point : ℕ)
    → 0x80 ≤ point
    → (leb 0xD800 point && leb point 0xDFFF) ≡ false
    → point < 0x110000
    → IsGood (units_of point)
      × (length (written (units_of point)) ≤ 4)
      × (point < 0x10000 → length (written (units_of point)) ≤ 3)
      × (point < 0x800 → length (written (units_of point)) ≤ 2)
units_of_lem point a s b = elim (Bool-cases (leb point 0xFFFF)) [
  | inl h ↦
      let small : point < 0x10000 = ground (arith, h) in
      let (three, two_h) = length_by_size point a small in
      rw (h) ((small, ground (arith, s)), omega arith, (λ k. three), two_h)
  | inr h ↦
      let big : 0x10000 ≤ point = ground (arith, h) in
      let pair = pair_of_point point big b in
      let exact = length-pair _ _ pair in
      rw (h) (
        pair,
        subst (λ n. n ≤ 4) (sym exact) (omega arith),
        (λ k. absurd (omega arith)),
        λ k. absurd (omega arith),
      )
]

check_point_lem :
    (n size minimum point : ℕ) (rest : Bytes) (p : Units × Bytes)
    → check_point minimum point rest ≡ ok p
    → 0x80 ≤ minimum
    → n + length rest ≤ size
    → (n ≡ 1) × (point < 0x800) ⊎ (n ≡ 2) × (point < 0x10000) ⊎ (n ≡ 3)
    → Took (suc size) p
unfolding check_point
check_point_lem n size minimum point rest p e a k c =
    let (low, f) = past_inv (ltb point minimum) utf8_overlong rest _ p e in
    let (surrogate, g) =
      past_inv (leb 0xD800 point && leb point 0xDFFF) utf8_surrogate rest _ p f in
    let (high, h) = past_inv (ltb 0x10FFFF point) utf8_range rest _ p g in
    let (good, four, three, two_h) =
      units_of_lem point (ground (arith, low)) surrogate (ground (arith, high)) in
    ok_subst (Took (suc size)) (units_of point, rest) p h
      (
        good,
        elim c [
          | inl (i, q) ↦ let few = two_h q in omega arith
          | inr (inl (i, q)) ↦ let few = three q in omega arith
          | inr (inr i) ↦ omega arith
        ],
      )

utf8_tail_lem :
    (n start bound minimum lead : ℕ) (b : Bytes) (p : Units × Bytes)
    → utf8_tail n start minimum lead b ≡ ok p
    → 0x80 ≤ minimum
    → start < bound
    → (n ≡ 1) × (bound ≡ 32) ⊎ (n ≡ 2) × (bound ≡ 16) ⊎ (n ≡ 3)
    → Took (suc (length b)) p
unfolding utf8_tail
utf8_tail_lem n start bound minimum lead b p e a k c =
    let (enough, f) = past_inv (ltb (length b) n) utf8_truncated (lead ∷ b) _ p e in
    elim (Option-cases (continuations n start b)) [
      | inl h ↦ absurd (ground (arith, f, h))
      | inr ((point, rest), h) ↦
          let (small, size) = continuations_lt n start bound b (point, rest) h k in
          check_point_lem n (length b) minimum point rest p (rw (h) at f) a (omega arith) (elim c [
            | inl (i, q) ↦ inl (i, subst (λ m. point < m) (rw (i, q) refl) small)
            | inr (inl (i, q)) ↦ inr (inl (i, subst (λ m. point < m) (rw (i, q) refl) small))
            | inr (inr i) ↦ inr (inr i)
          ])
    ]

parse_utf8_sequence_lem :
    (lead : ℕ) (b : Bytes) (p : Units × Bytes)
    → parse_utf8_sequence lead b ≡ ok p
    → Took (suc (length b)) p
unfolding parse_utf8_sequence
parse_utf8_sequence_lem lead b p =
    either_way (lead / 32 == 6)
      (λ e.
        utf8_tail_lem 1 (lead % 32) 32 0x80 lead b p e (omega arith) (omega arith)
          (inl (refl, refl)))
      (either_way (lead / 16 == 14)
        (λ e.
          utf8_tail_lem 2 (lead % 16) 16 0x800 lead b p e (omega arith) (omega arith)
            (inr (inl (refl, refl))))
        (either_way (lead / 8 == 30)
          (λ e.
            utf8_tail_lem 3 (lead % 8) 8 0x10000 lead b p e (omega arith) (omega arith)
              (inr (inr refl)))
          (λ e. absurd (ground (arith, e)))))

-- Every step but the last takes no fewer bytes than what it gives is written in.
pub parse_units_lem :
    (c : ℕ) (b : Bytes) (p : Units × Bytes)
    → parse_units c b ≡ ok p
    → (c == b'"') ≡ false
    → Took (suc (length b)) p
unfolding parse_units
parse_units_lem c b p e q = elim (Bool-cases (c == b'\\')) [
  | inl s ↦ parse_escape_lem b p (rw (s) at e)
  | inr s ↦
      let (printable, f) = past_inv (ltb c 0x20) control_character (c ∷ b) _ p (rw (s) at e) in
      elim (Bool-cases (ltb c 0x80)) [
        | inl k ↦
            let exact =
              length-encode_point_plain c (ground (arith, printable)) (ground (arith, k)) q s in
            ok_subst (Took (suc (length b))) (one c, b) p (rw (k) at f)
              ((ground (arith, k), ground (arith, k)), omega arith)
        | inr k ↦ parse_utf8_sequence_lem c b p (rw (k) at f)
      ]
]
