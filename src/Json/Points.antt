-- ===== src/Json/Points.antt =====
-- src/domain/RawJson.cpp: what is written for a code point is read back.
use arkham_horror_linux.Common.{
  ℕ, ◌+◌, ◌-◌, ◌/◌, ◌%◌, ◌<◌, ◌≤◌, true, false, ◌||◌, [], ◌∷◌, ◌++◌, ltb, ◌==◌, ◌≡◌, refl, arith,
  Bool-cases, inl, inr, subst, ◌∙◌,
}
use arkham_horror_linux.Json.{Bytes, is_high, is_low}
use arkham_horror_linux.Json.Parser.{
  Result, Units, one, two, ok, parse_units, parse_escape, unicode_escape, parse_hex4,
  parse_utf8_sequence, utf8_tail, continuations, check_point, is_hex_digit, hex_value,
}
use arkham_horror_linux.Json.Printer.{hex_digit, surrogate_to_ucs4, utf8_of, encode_point}

-- The bytes do not start with a quote, and one step of the parser takes them for the units.
pub record Decodes (bs : Bytes) (w : Units) : Type 0 where
  pub first : ℕ
  pub more : Bytes
  pub bytes : bs ≡ first ∷ more
  pub no_quote : (first == b'"') ≡ false
  pub reads : (rest : Bytes) → parse_units first (more ++ rest) ≡ ok (w, rest)

ltb-true : (a b : ℕ) → a < b → ltb a b ≡ true
ltb-true a b h = ground arith

hex_digit-is_hex : (n : ℕ) → n < 16 → is_hex_digit (hex_digit n) ≡ true
hex_digit-is_hex n h = ground arith

hex_value-hex_digit : (n : ℕ) → n < 16 → hex_value (hex_digit n) ≡ n
hex_value-hex_digit n h = ground arith

read_hex4 :
    (u : ℕ) (rest : Bytes)
    → u < 32
    → parse_hex4 (b'0' ∷ b'0' ∷ hex_digit (u / 16) ∷ hex_digit (u % 16) ∷ rest) ≡ ok (u, rest)
unfolding parse_hex4
read_hex4 u rest h =
    rw
      (
        hex_digit-is_hex (u / 16) (omega arith),
        hex_digit-is_hex (u % 16) (omega arith),
        hex_value-hex_digit (u / 16) (omega arith),
        hex_value-hex_digit (u % 16) (omega arith),
      )
      (ground arith)

two_bytes :
    (u : ℕ) (rest : Bytes)
    → 0x80 ≤ u
    → u < 0x800
    → parse_units (0xC0 + u / 64) ((0x80 + u % 64) ∷ rest) ≡ ok (one u, rest)
unfolding parse_units parse_utf8_sequence utf8_tail continuations check_point
two_bytes u rest h k = ground arith

three_bytes :
    (u : ℕ) (rest : Bytes)
    → 0x800 ≤ u
    → u < 0x10000
    → (is_high u || is_low u) ≡ false
    → parse_units (0xE0 + u / 4096) ((0x80 + u / 64 % 64) ∷ (0x80 + u % 64) ∷ rest)
      ≡ ok (one u, rest)
unfolding parse_units parse_utf8_sequence utf8_tail continuations check_point
three_bytes u rest h k s = ground arith

four_bytes :
    (p : ℕ) (rest : Bytes)
    → 0x10000 ≤ p
    → p ≤ 0x10FFFF
    → parse_units
        (0xF0 + p / 262144)
        ((0x80 + p / 4096 % 64) ∷ (0x80 + p / 64 % 64) ∷ (0x80 + p % 64) ∷ rest)
      ≡ ok (two (0xD800 + (p - 0x10000) / 1024) (0xDC00 + (p - 0x10000) % 1024), rest)
unfolding parse_units parse_utf8_sequence utf8_tail continuations check_point
four_bytes p rest h k = ground arith

control :
    (u : ℕ) (rest : Bytes)
    → u < 32
    → parse_units b'\\' (b'u' ∷ b'0' ∷ b'0' ∷ hex_digit (u / 16) ∷ hex_digit (u % 16) ∷ rest)
      ≡ ok (one u, rest)
unfolding parse_units parse_escape unicode_escape
control u rest h = rw (read_hex4 u rest h) (ground arith)

ascii :
    (u : ℕ) (rest : Bytes)
    → 32 ≤ u
    → u < 0x80
    → (u == b'\\') ≡ false
    → parse_units u rest ≡ ok (one u, rest)
unfolding parse_units
ascii u rest h k n = ground arith

utf8_of-Decodes :
    (u : ℕ)
    → 32 ≤ u
    → u < 0x10000
    → (u == b'"') ≡ false
    → (u == b'\\') ≡ false
    → (is_high u || is_low u) ≡ false
    → Decodes (utf8_of u) (one u)
unfolding utf8_of
utf8_of-Decodes u h k q n s = elim (Bool-cases (ltb u 0x80)) [
  | inl e ↦ rw e (record {
    first = u;
    more = [];
    bytes = refl;
    no_quote = q;
    reads = λ rest. ascii u rest h (ground arith) n;
  })
  | inr e ↦ rw e (elim (Bool-cases (ltb u 0x800)) [
    | inl f ↦ rw f (record {
      first = 0xC0 + u / 64;
      more = (0x80 + u % 64) ∷ [];
      bytes = refl;
      no_quote = ground arith;
      reads = λ rest. two_bytes u rest (ground arith) (ground arith);
    })
    | inr f ↦
        rw (f, ltb-true u 0x10000 k)
          (record {
            first = 0xE0 + u / 4096;
            more = (0x80 + u / 64 % 64) ∷ (0x80 + u % 64) ∷ [];
            bytes = refl;
            no_quote = ground arith;
            reads = λ rest. three_bytes u rest (ground arith) k s;
          })
  ])
]

-- An escape of one character.
short :
    (e code u : ℕ)
    → (u == code) ≡ true
    → ((rest : Bytes) → parse_escape (e ∷ rest) ≡ ok (one code, rest))
    → Decodes (b'\\' ∷ e ∷ []) (one u)
unfolding parse_units
short e code u same h = record {
  first = b'\\';
  more = e ∷ [];
  bytes = refl;
  no_quote = refl;
  reads = λ rest.
      let s : code ≡ u = ground arith in
      subst (λ x. parse_escape (e ∷ rest) ≡ ok (one x, rest)) s (h rest);
}

-- A code unit that stands for itself.
pub encode_point-Decodes :
    (u : ℕ) → u < 0x10000 → (is_high u || is_low u) ≡ false → Decodes (encode_point u) (one u)
unfolding encode_point parse_escape
encode_point-Decodes u k s = elim (Bool-cases (u == b'"')) [
  | inl e ↦ rw e (short b'"' b'"' u e (λ rest. refl))
  | inr q ↦ rw q (elim (Bool-cases (u == b'\\')) [
    | inl e ↦ rw e (short b'\\' b'\\' u e (λ rest. refl))
    | inr n ↦ rw n (elim (Bool-cases (u == 0x08)) [
      | inl e ↦ rw e (short b'b' 0x08 u e (λ rest. refl))
      | inr e1 ↦ rw e1 (elim (Bool-cases (u == 0x0C)) [
        | inl e ↦ rw e (short b'f' 0x0C u e (λ rest. refl))
        | inr e2 ↦ rw e2 (elim (Bool-cases (u == 0x0A)) [
          | inl e ↦ rw e (short b'n' 0x0A u e (λ rest. refl))
          | inr e3 ↦ rw e3 (elim (Bool-cases (u == 0x0D)) [
            | inl e ↦ rw e (short b'r' 0x0D u e (λ rest. refl))
            | inr e4 ↦ rw e4 (elim (Bool-cases (u == 0x09)) [
              | inl e ↦ rw e (short b't' 0x09 u e (λ rest. refl))
              | inr e5 ↦ rw e5 (elim (Bool-cases (ltb u 0x20)) [
                | inl e ↦ rw e (record {
                  first = b'\\';
                  more = b'u' ∷ b'0' ∷ b'0' ∷ hex_digit (u / 16) ∷ hex_digit (u % 16) ∷ [];
                  bytes = refl;
                  no_quote = refl;
                  reads = λ rest. control u rest (ground arith);
                })
                | inr e6 ↦ rw e6 (utf8_of-Decodes u (ground arith) k q n s)
              ])
            ])
          ])
        ])
      ])
    ])
  ])
]

big_point : (p : ℕ) → 0x10000 ≤ p → encode_point p ≡ utf8_of p
unfolding encode_point
big_point p h = ground arith

big_bytes :
    (p : ℕ)
    → 0x10000 ≤ p
    → utf8_of p
      ≡ (0xF0 + p / 262144) ∷ (0x80 + p / 4096 % 64) ∷ (0x80 + p / 64 % 64) ∷ (0x80 + p % 64) ∷ []
unfolding utf8_of
big_bytes p h = ground arith

same_units :
    (w w' : Units) (rest : Bytes)
    → w ≡ w'
    → ◌≡◌ {A = Result (Units × Bytes)} (ok (w, rest)) (ok (w', rest))
same_units w w' rest e = cc

-- A surrogate pair.
pub encode_pair-Decodes :
    (u v : ℕ)
    → is_high u ≡ true
    → is_low v ≡ true
    → Decodes (encode_point (surrogate_to_ucs4 u v)) (two u v)
encode_pair-Decodes u v h k =
    let p = surrogate_to_ucs4 u v in
    let low : 0x10000 ≤ p = omega arith in
    let high : p ≤ 0x10FFFF = ground arith in
    let first : 0xD800 + (p - 0x10000) / 1024 ≡ u = ground arith in
    let second : 0xDC00 + (p - 0x10000) % 1024 ≡ v = ground arith in
    record {
      first = 0xF0 + p / 262144;
      more = (0x80 + p / 4096 % 64) ∷ (0x80 + p / 64 % 64) ∷ (0x80 + p % 64) ∷ [];
      bytes = big_point p low ∙ big_bytes p low;
      no_quote = ground arith;
      reads = λ rest.
          let units : two (0xD800 + (p - 0x10000) / 1024) (0xDC00 + (p - 0x10000) % 1024)
              ≡ two u v =
            cc (first, second) in
          four_bytes p rest low high ∙ same_units _ _ rest units;
    }
