-- ===== src/Json/Sound/Texts.antt =====
-- src/domain/RawJson.cpp: a text that is read can be written.
use arkham_horror_linux.Common.{
  ℕ, zero, suc, ◌+◌, ◌≤◌, true, false, ◌&&◌, ◌||◌, some, [], ◌∷◌, ◌++◌, Text, length, ◌==◌, ◌≡◌,
  refl, arith, Bool-cases, inl, inr, sym, ap,
}
use arkham_horror_linux.Json.{Bytes, is_high, is_low}
use arkham_horror_linux.Json.Parser.{
  Result, ok, failed, Units, one, two, parse_units, string_loop, append_units, prepend,
  string_too_long,
}
use arkham_horror_linux.Json.Printer.{surrogate_to_ucs4, encode_point, behind, encode_units}
use arkham_horror_linux.Json.Texts.{IsUnits}
use arkham_horror_linux.Json.Sound.Outcome.{ok_inv, passed_inv, ok_subst}
use arkham_horror_linux.Json.Sound.Points.{Took}
use arkham_horror_linux.Json.Sound.Steps.{parse_units_lem}

-- A text with its closing quote, within a limit, and no longer than what it was read from.
abbrev pub IsText : ℕ → ℕ → Text × Bytes → Type 0
IsText room size (t, rest) =
    (bs : Bytes) × (encode_units t ≡ some bs)
    × IsUnits t
    × (length t ≤ room)
    × (length bs + length rest ≤ size)

pub length_app : (a b : Bytes) → length (a ++ b) ≡ length a + length b
length_app [] b = omega arith
length_app (c ∷ a) b = let h = length_app a b in omega arith

encode_units_one :
    (u : ℕ) (t : Text) (bs : Bytes)
    → (is_high u || is_low u) ≡ false
    → encode_units t ≡ some bs
    → encode_units (u ∷ t) ≡ some (encode_point u ++ bs)
unfolding encode_units
encode_units_one u [] bs h e =
    let same : (b'"' ∷ []) ≡ bs = ground (arith, e) in rw (h, sym same) refl
encode_units_one u (v ∷ t) bs h e =
    let single : (is_high u && is_low v) ≡ false = ground (arith, h) in
    rw (single, h, encode_units) (ap (λ o. behind (encode_point u) o) e)

encode_units_two :
    (u v : ℕ) (t : Text) (bs : Bytes)
    → (is_high u && is_low v) ≡ true
    → encode_units t ≡ some bs
    → encode_units (u ∷ v ∷ t) ≡ some (encode_point (surrogate_to_ucs4 u v) ++ bs)
unfolding encode_units
encode_units_two u v t bs h e = rw (h, e, encode_units) refl

-- After one unit or two, and the text behind them.
prepend_one :
    (u room size : ℕ) (after : Bytes) (r : Result (Text × Bytes)) (p : Text × Bytes)
    → Took size (one u, after)
    → ((q : Text × Bytes) → r ≡ ok q → IsText room (length after) q)
    → prepend u r ≡ ok p
    → IsText (suc room) size p
prepend_one u room size after (failed x at) p good again e = absurd (ground (arith, e))
prepend_one u room size after (ok (t, rest)) p (good, few) again e =
    let (bs, h, us, short, less) = again (t, rest) refl in
    let total = length_app (encode_point u) bs in
    ok_subst (IsText (suc room) size) (u ∷ t, rest) p e
      (
        encode_point u ++ bs,
        encode_units_one u t bs good.1 h,
        (good.0, us),
        omega arith,
        omega arith,
      )

prepend_two :
    (u v room size : ℕ) (after : Bytes) (r : Result (Text × Bytes)) (p : Text × Bytes)
    → Took size (two u v, after)
    → ((q : Text × Bytes) → r ≡ ok q → IsText room (length after) q)
    → prepend u (prepend v r) ≡ ok p
    → IsText (suc (suc room)) size p
prepend_two u v room size after (failed x at) p good again e = absurd (ground (arith, e))
prepend_two u v room size after (ok (t, rest)) p (good, few) again e =
    let (bs, h, us, short, less) = again (t, rest) refl in
    let total = length_app (encode_point (surrogate_to_ucs4 u v)) bs in
    ok_subst (IsText (suc (suc room)) size) (u ∷ v ∷ t, rest) p e
      (
        encode_point (surrogate_to_ucs4 u v) ++ bs,
        encode_units_two u v t bs good h,
        (ground (arith, good), (ground (arith, good), us)),
        omega arith,
        omega arith,
      )

-- What holds of the loop behind a step.
abbrev Again : ℕ → ℕ → Result (Text × Bytes) → Type 0
Again room size r = (q : Text × Bytes) → r ≡ ok q → IsText room size q

append_units_last :
    (size : ℕ) (after_one : Bytes → Result (Text × Bytes)) (w : Units × Bytes) (p : Text × Bytes)
    → Took size w
    → Again 0 (length w.1) (after_one w.1)
    → append_units after_one (failed string_too_long) w ≡ ok p
    → IsText 1 size p
append_units_last size f (one u, after) p took again e =
    prepend_one u 0 size after (f after) p took again e
append_units_last size f (two u v, after) p took again e = absurd (ground (arith, e))

append_units_lem :
    (room size : ℕ) (after_one after_two : Bytes → Result (Text × Bytes)) (w : Units × Bytes)
    (p : Text × Bytes)
    → Took size w
    → Again (suc room) (length w.1) (after_one w.1)
    → Again room (length w.1) (after_two w.1)
    → append_units after_one after_two w ≡ ok p
    → IsText (suc (suc room)) size p
append_units_lem room size f g (one u, after) p took again again2 e =
    prepend_one u (suc room) size after (f after) p took again e
append_units_lem room size f g (two u v, after) p took again again2 e =
    prepend_two u v room size after (g after) p took again2 e

quote_only :
    (room : ℕ) (b : Bytes) (p : Text × Bytes) → ok ([], b) ≡ ok p → IsText room (suc (length b)) p
unfolding encode_units
quote_only room b p e =
    ok_subst (IsText room (suc (length b))) ([], b) p e
      (b'"' ∷ [], refl, tt, omega arith, omega arith)

pub string_loop_lem :
    (room : ℕ) (b : Bytes) (p : Text × Bytes) → string_loop room b ≡ ok p → IsText room (length b) p
unfolding string_loop
string_loop_lem room [] p e = absurd (ground (arith, e))
string_loop_lem zero (c ∷ b) p e =
    let (q, f) = passed_inv (c == b'"') string_too_long (c ∷ b) _ p e in quote_only zero b p f
string_loop_lem (suc zero) (c ∷ b) p e = elim (Bool-cases (c == b'"')) [
  | inl q ↦ quote_only 1 b p (rw (q) at e)
  | inr q ↦
      let (w, f, g) =
        ok_inv (parse_units c b) (append_units (string_loop 0) (failed string_too_long)) p
          (rw (q) at e) in
      append_units_last (suc (length b)) (string_loop 0) w p (parse_units_lem c b w f q)
        (string_loop_lem zero w.1) g
]
string_loop_lem (suc (suc room)) (c ∷ b) p e = elim (Bool-cases (c == b'"')) [
  | inl q ↦ quote_only (suc (suc room)) b p (rw (q) at e)
  | inr q ↦
      let (w, f, g) =
        ok_inv (parse_units c b) (append_units (string_loop (suc room)) (string_loop room)) p
          (rw (q) at e) in
      append_units_lem room (suc (length b)) (string_loop (suc room)) (string_loop room) w p
        (parse_units_lem c b w f q) (string_loop_lem (suc room) w.1) (string_loop_lem room w.1) g
]
