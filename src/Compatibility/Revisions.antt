-- ===== src/Compatibility/Revisions.antt =====
-- src/domain/ContractRevision.cpp: revisions are printed and read back.
use arkham_horror_linux.Common.{
  ℕ, ◌<◌, ◌^◌, true, false, some, List, [], ◌∷◌, ◌++◌, Text, All, ◌==◌, ◌≡◌, ◌≢◌, refl, ◌∙◌, ap,
  subst, arith, Bool-cases, inl, inr,
}
use arkham_horror_linux.Common.Decimals.{Decimals, is_ascii_digit}
use arkham_horror_linux.Compatibility.{
  ContractRevision, Component, major_component, minor_component, patch_component, value, split_dots,
  on_first, all_ascii_digits, is_ascii_digits, component, from_parts, parse, to_string,
}

abbrev Digits : Text → Type 0
Digits t = All (λ u. is_ascii_digit u ≡ true) t

Digits-all_ascii_digits : (t : Text) → Digits t → all_ascii_digits t ≡ true
unfolding all_ascii_digits
Digits-all_ascii_digits [] h = refl
Digits-all_ascii_digits (u ∷ t) h = rw h.0 (Digits-all_ascii_digits t h.1)

nonempty-is_ascii_digits : (t : Text) → t ≢ [] → Digits t → is_ascii_digits t ≡ true
unfolding is_ascii_digits
nonempty-is_ascii_digits [] ne h = absurd (ne refl)
nonempty-is_ascii_digits (u ∷ t) ne h = Digits-all_ascii_digits (u ∷ t) h

digit_no_dot : (u : ℕ) → is_ascii_digit u ≡ true → (u == b'.') ≡ false
digit_no_dot u h = ground (arith, h)

split_dots-Digits : (t : Text) → Digits t → split_dots t ≡ t ∷ []
unfolding split_dots
split_dots-Digits [] h = refl
split_dots-Digits (u ∷ t) h = rw (digit_no_dot u h.0, split_dots-Digits t h.1) refl

split_dots-concat : (t rest : Text) → Digits t → split_dots (t ++ b'.' ∷ rest) ≡ t ∷ split_dots rest
unfolding split_dots
split_dots-concat [] rest h = refl
split_dots-concat (u ∷ t) rest h = rw (digit_no_dot u h.0, split_dots-concat t rest h.1) refl

-- The parts of a text joined by full stops.
abbrev join_dots : List Text → Text
join_dots [] = []
join_dots (t ∷ []) = t
join_dots (t ∷ s ∷ ts) = t ++ b'.' ∷ join_dots (s ∷ ts)

on_first-join_dots :
    (u : ℕ) (ts : List Text) → ts ≢ [] → join_dots (on_first u ts) ≡ u ∷ join_dots ts
on_first-join_dots u [] ne = absurd (ne refl)
on_first-join_dots u (t ∷ []) ne = refl
on_first-join_dots u (t ∷ s ∷ ts) ne = refl

dot-join_dots : (ts : List Text) → ts ≢ [] → join_dots ([] ∷ ts) ≡ b'.' ∷ join_dots ts
dot-join_dots [] ne = absurd (ne refl)
dot-join_dots (t ∷ ts) ne = refl

on_first_ne_nil : (u : ℕ) (ts : List Text) → on_first u ts ≢ []
on_first_ne_nil u [] = λ e. cc
on_first_ne_nil u (t ∷ ts) = λ e. cc

split_dots_ne_nil : (t : Text) → split_dots t ≢ []
unfolding split_dots
split_dots_ne_nil [] = λ e. cc
split_dots_ne_nil (u ∷ t) = ground (arith, on_first_ne_nil u (split_dots t))

join_dots-split_dots : (t : Text) → join_dots (split_dots t) ≡ t
unfolding split_dots
join_dots-split_dots [] = refl
join_dots-split_dots (u ∷ t) = elim (Bool-cases (u == b'.')) [
  | inl e ↦ rw e (
      dot-join_dots (split_dots t) (split_dots_ne_nil t)
      ∙ ground (arith, e, join_dots-split_dots t))
  | inr e ↦ rw e (
      on_first-join_dots u (split_dots t) (split_dots_ne_nil t)
      ∙ ap (◌∷◌ u) (join_dots-split_dots t))
]

module _ (d : Decimals) where
  open d use {number, to_int}

  component-number : (c : Component) (n : ℕ) → n < 2 ^ 31 → component d c (number n) ≡ value n
  unfolding component
  component-number c n h =
      rw
        (
          nonempty-is_ascii_digits (number n) (d.number-ne_nil n) (d.number_ascii n),
          d.to_int-number n h,
        )
        refl

  -- A revision whose components are below 2 ^ 31 is read back from its text.
  pub parse-to_string :
      (r : ContractRevision)
      → r.major < 2 ^ 31
      → r.minor < 2 ^ 31
      → r.patch < 2 ^ 31
      → parse d (to_string d r) ≡ value r
  unfolding parse to_string from_parts
  parse-to_string r h k l =
      rw
        (
          split_dots-concat (number r.major) (number r.minor ++ b'.' ∷ number r.patch)
              (d.number_ascii r.major),
          split_dots-concat (number r.minor) (number r.patch) (d.number_ascii r.minor),
          split_dots-Digits (number r.patch) (d.number_ascii r.patch),
          component-number major_component r.major h,
          component-number minor_component r.minor k,
          component-number patch_component r.patch l,
        )
        refl

  -- A part of a revision's text: ASCII digits that stand for a number below 2 ^ 31.
  pub record Numeral (t : Text) (n : ℕ) : Type 0 where
    pub digits : is_ascii_digits t ≡ true
    pub reads : to_int t ≡ some n
    pub small : n < 2 ^ 31

  -- The text is three numerals, joined by full stops.
  pub record Revision (t : Text) (r : ContractRevision) : Type 0 where
    pub major_text : Text
    pub minor_text : Text
    pub patch_text : Text
    pub whole : t ≡ major_text ++ b'.' ∷ (minor_text ++ b'.' ∷ patch_text)
    pub major_is : Numeral major_text r.major
    pub minor_is : Numeral minor_text r.minor
    pub patch_is : Numeral patch_text r.patch

  component_inv : (c : Component) (t : Text) (n : ℕ) → component d c t ≡ value n → Numeral t n
  unfolding component
  component_inv c t n e = record {
    digits = ground (arith, e);
    reads = ground (arith, e);
    small = d.to_int-lt t n (ground (arith, e));
  }

  from_three_inv :
      (a b c : Text) (r : ContractRevision)
      → from_parts d (a ∷ b ∷ c ∷ []) ≡ value r
      → Numeral a r.major × Numeral b r.minor × Numeral c r.patch
  unfolding from_parts
  from_three_inv a b c r e = (
    component_inv major_component a r.major (ground (arith, e)),
    component_inv minor_component b r.minor (ground (arith, e)),
    component_inv patch_component c r.patch (ground (arith, e)),
  )

  from_parts_inv :
      (ts : List Text) (r : ContractRevision)
      → from_parts d ts ≡ value r
      → Revision (join_dots ts) r
  unfolding from_parts
  from_parts_inv [] r e = absurd (ground (arith, e))
  from_parts_inv (a ∷ []) r e = absurd (ground (arith, e))
  from_parts_inv (a ∷ b ∷ []) r e = absurd (ground (arith, e))
  from_parts_inv (a ∷ b ∷ c ∷ []) r e =
      let i = from_three_inv a b c r e in
      record {
        major_text = a;
        minor_text = b;
        patch_text = c;
        whole = refl;
        major_is = i.0;
        minor_is = i.1;
        patch_is = i.2;
      }
  from_parts_inv (a ∷ b ∷ c ∷ x ∷ ts) r e = absurd (ground (arith, e))

  -- A text that parses as a revision is exactly three parts joined by full stops, each a non-empty run
  -- of ASCII digits whose value is below 2 ^ 31 and is the component.
  pub parse-Revision : (t : Text) (r : ContractRevision) → parse d t ≡ value r → Revision t r
  unfolding parse
  parse-Revision t r e =
      subst (λ s. Revision s r) (join_dots-split_dots t) (from_parts_inv (split_dots t) r e)
