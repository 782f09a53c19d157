-- ===== src/Json/Sound/Members.antt =====
-- src/domain/RawJson.cpp: the members of an object, when what is read for a value can be
-- written.
use arkham_horror_linux.Common.{
  ℕ, zero, suc, ◌+◌, ◌≤◌, Bool, true, false, not, some, List, [], ◌∷◌, ◌++◌, Text, length, ltb,
  ◌==◌, ◌≡◌, refl, arith, Bool-cases, inl, inr, sym, subst, ap,
}
use arkham_horror_linux.Json.{ParseLimits, Value, Members, object, no_members, member, Bytes, seen}
use arkham_horror_linux.Json.Parser.{
  Result, ok, ◌>>=◌, skip_whitespace, starts, rest_of, string_loop, after_member, after_key,
  member_loop, parse_object, parse_value, object_separator, duplicate_key, colon_expected,
  key_expected,
}
use arkham_horror_linux.Json.Printer.{
  printed, append_json_encoded_string, encode_units, print_key, print_value, print_members, comma,
  count_members,
}
use arkham_horror_linux.Json.Lexical.{joined, MembersAreLexical}
use arkham_horror_linux.Json.Texts.{IsUnits}
use arkham_horror_linux.Json.Sound.Points.{length-rest_of}
use arkham_horror_linux.Json.Sound.Outcome.{ok_inv, past_inv, passed_inv, ok_subst}
use arkham_horror_linux.Json.Sound.Texts.{length_app, IsText, string_loop_lem}
use arkham_horror_linux.Json.Sound.Lists.{length-skip_whitespace, bytes_cases, IsValue, Accepts}

module _ (l : ParseLimits) (room : ℕ) where
  print_key_lem :
      (k : Text) (keys : List Text) (kb : Bytes) (first : Bool)
      → encode_units k ≡ some kb
      → length k ≤ l.max_string_length
      → seen k keys ≡ false
      → print_key l k keys first ≡ printed (comma first ++ (b'"' ∷ kb ++ b':' ∷ []))
  unfolding print_key append_json_encoded_string
  print_key_lem k keys kb first e short new =
      let fits : ltb l.max_string_length (length k) ≡ false = ground arith in rw (fits, new, e) refl

  -- Members that can be written after the keys, up to the brace.
  abbrev AreMembers : ℕ → List Text → ℕ → ℕ → (Members × ℕ) × Bytes → Type 0
  AreMembers slots keys left size ((ms, left'), rest) =
      (body : Bytes) × ((first : Bool)
        → print_members l room left first keys ms ≡ printed (comma first ++ body, left'))
      × MembersAreLexical ms
      × (count_members ms ≤ slots)
      × (length body + length rest ≤ size)

  fewer_bytes :
      (slots left m n : ℕ) (keys : List Text) (p : (Members × ℕ) × Bytes)
      → m ≤ n
      → AreMembers slots keys left m p
      → AreMembers slots keys left n p
  fewer_bytes slots left m n keys p k (body, prints, gs, few, total) =
      (body, prints, gs, few, omega arith)

  -- One member with what is behind it.
  print_members-member :
      (keys : List Text) (left left1 left' : ℕ) (k : Text) (v : Value) (ms : Members)
      (kb bs tail : Bytes) (first : Bool)
      → encode_units k ≡ some kb
      → length k ≤ l.max_string_length
      → seen k keys ≡ false
      → print_value l room left v ≡ printed (bs, left1)
      → print_members l room left1 false (k ∷ keys) ms ≡ printed (tail, left')
      → print_members l room left first keys (member k v ms)
        ≡ printed (comma first ++ (b'"' ∷ kb ++ (b':' ∷ bs ++ tail)), left')
  unfolding print_members
  print_members-member keys left left1 left' k v ms kb bs tail first units short new e f =
      rw (print_key_lem k keys kb first units short new, e, f)
        (ap (λ x. printed (x, left'))
          (sym (joined (comma first) (b'"' ∷ kb) bs tail _ _ refl refl)))

  print_members-last :
      (keys : List Text) (left : ℕ)
      → print_members l room left false keys no_members ≡ printed (b'}' ∷ [], left)
  unfolding print_members
  print_members-last keys left = refl

  after_member_lem :
      (slots left left1 size : ℕ) (keys : List Text)
      (again : ℕ → Bytes → Result ((Members × ℕ) × Bytes)) (k : Text) (kb : Bytes) (v : Value)
      (rest : Bytes) (p : (Members × ℕ) × Bytes)
      → ((b : Bytes) (q : (Members × ℕ) × Bytes)
          → again left1 b ≡ ok q
          → AreMembers slots (k ∷ keys) left1 (length b) q)
      → (encode_units k ≡ some kb)
        × IsUnits k
        × (length k ≤ l.max_string_length)
        × (seen k keys ≡ false)
      → IsValue l room left size ((v, left1), rest)
      → after_member (parse_value l room) again k ((v, left1), rest) ≡ ok p
      → AreMembers (suc slots) keys left (2 + length kb + size) p
  unfolding after_member MembersAreLexical
  after_member_lem slots left left1 size keys again k kb v rest p more (units, us, short, new)
        (bs, e1, g, total) e =
      elim (bytes_cases (skip_whitespace rest)) [
        | inl none_h ↦ absurd (ground (arith, rw (none_h, after_member) at e))
        | inr (c, b, shape) ↦
            let j : suc (length b) ≤ length rest =
              subst (λ t. length t ≤ length rest) shape (length-skip_whitespace rest) in
            elim (Bool-cases (c == b',')) [
              | inl h ↦
                  let (((ms, left'), rest'), f, same) =
                    ok_inv (again left1 b) _ p (rw (shape, h, after_member) at e) in
                  let (body, prints, gs, few, total') = more b ((ms, left'), rest') f in
                  let sum = length_app kb (b':' ∷ bs ++ (b',' ∷ body)) in
                  let sum' = length_app bs (b',' ∷ body) in
                  ok_subst (AreMembers (suc slots) keys left (2 + length kb + size))
                    ((member k v ms, left'), rest') p same
                    (
                      b'"' ∷ kb ++ (b':' ∷ bs ++ (b',' ∷ body)),
                      (λ first.
                          print_members-member keys left left1 left' k v ms kb bs (b',' ∷ body)
                            first units short new e1 (prints false)),
                      (us, g, gs),
                      omega arith,
                      omega arith,
                    )
              | inr h ↦
                  let (last, same) =
                    passed_inv (c == b'}') object_separator (c ∷ b)
                      (ok ((member k v no_members, left1), b)) p
                      (rw (shape, h, after_member) at e) in
                  let sum = length_app kb (b':' ∷ bs ++ (b'}' ∷ [])) in
                  let sum' = length_app bs (b'}' ∷ []) in
                  ok_subst (AreMembers (suc slots) keys left (2 + length kb + size))
                    ((member k v no_members, left1), b) p same
                    (
                      b'"' ∷ kb ++ (b':' ∷ bs ++ (b'}' ∷ [])),
                      (λ first.
                          print_members-member keys left left1 left1 k v no_members kb bs
                            (b'}' ∷ []) first units short new e1
                            (print_members-last (k ∷ keys) left1)),
                      (us, g, tt),
                      omega arith,
                      omega arith,
                    )
            ]
      ]

  -- An object that can be written, behind the opening brace.
  abbrev pub IsObject : ℕ → ℕ → ℕ → (Value × ℕ) × Bytes → Type 0
  IsObject slots left size ((v, left'), rest) =
      (ms : Members) × (body : Bytes) × (v ≡ object ms)
      × (print_members l room left true [] ms ≡ printed (body, left'))
      × MembersAreLexical ms
      × (count_members ms ≤ slots)
      × (length body + length rest ≤ size)

  no_members_lem :
      (slots left size : ℕ) (rest : Bytes) (p : (Value × ℕ) × Bytes)
      → suc (length rest) ≤ size
      → ok ((object no_members, left), rest) ≡ ok p
      → IsObject slots left size p
  unfolding print_members MembersAreLexical
  no_members_lem slots left size rest p k e =
      ok_subst (IsObject slots left size) ((object no_members, left), rest) p e
        (no_members, b'}' ∷ [], refl, refl, tt, omega arith, omega arith)

  module _ (accepts : Accepts l room) where
    after_key_lem :
        (slots left size : ℕ) (keys : List Text)
        (again : ℕ → Bytes → Result ((Members × ℕ) × Bytes)) (k : Text) (rest : Bytes)
        (p : (Members × ℕ) × Bytes)
        → ((left1 : ℕ) (b : Bytes) (q : (Members × ℕ) × Bytes)
            → again left1 b ≡ ok q
            → AreMembers slots (k ∷ keys) left1 (length b) q)
        → IsText l.max_string_length size (k, rest)
        → after_key (parse_value l room) again keys left (k, rest) ≡ ok p
        → AreMembers (suc slots) keys left (suc size) p
    unfolding after_key
    after_key_lem slots left size keys again k rest p more (kb, units, us, short, total) e =
        let (new, f) = past_inv (seen k keys) (duplicate_key k) rest _ p e in
        let (colon, g) =
          past_inv (not (starts b':' (skip_whitespace rest))) colon_expected (skip_whitespace rest)
            (parse_value l room left (skip_whitespace (rest_of (skip_whitespace rest)))
              >>= after_member (parse_value l room) again k)
            p f in
        let after = skip_whitespace (rest_of (skip_whitespace rest)) in
        let (((v, left1), rest'), h, e2) = ok_inv (parse_value l room left after) _ p g in
        let (bs, e1, lexical, total') = accepts left after ((v, left1), rest') h in
        let i1 = length-skip_whitespace rest in
        let i2 = length-rest_of b':' (skip_whitespace rest) (ground (arith, colon)) in
        let i3 = length-skip_whitespace (rest_of (skip_whitespace rest)) in
        fewer_bytes (suc slots) left (2 + length kb + length after) (suc size) keys p (omega arith)
          (after_member_lem slots left left1 (length after) keys again k kb v rest' p (more left1)
            (units, us, short, new) (bs, e1, lexical, total') e2)

    member_loop_lem :
        (slots : ℕ) (keys : List Text) (left : ℕ) (b : Bytes) (p : (Members × ℕ) × Bytes)
        → member_loop (parse_value l room) l.max_string_length slots keys left b ≡ ok p
        → AreMembers slots keys left (length b) p
    unfolding member_loop
    member_loop_lem zero keys left b p e = absurd (ground (arith, e))
    member_loop_lem (suc slots) keys left b p e =
        let (quote, f) =
          past_inv (not (starts b'"' (skip_whitespace b))) key_expected (skip_whitespace b) _ p e in
        let ((k, rest), g, h) =
          ok_inv (string_loop l.max_string_length (rest_of (skip_whitespace b))) _ p f in
        let i1 = length-skip_whitespace b in
        let i2 = length-rest_of b'"' (skip_whitespace b) (ground (arith, quote)) in
        fewer_bytes (suc slots) left (suc (length (rest_of (skip_whitespace b)))) (length b) keys p
          (omega arith)
          (after_key_lem slots left (length (rest_of (skip_whitespace b))) keys
            (member_loop (parse_value l room) l.max_string_length slots (k ∷ keys)) k rest p
            (λ left1 c q e2. member_loop_lem slots (k ∷ keys) left1 c q e2)
            (string_loop_lem l.max_string_length (rest_of (skip_whitespace b)) (k, rest) g) h)

    pub parse_object_lem :
        (slots left : ℕ) (b : Bytes) (p : (Value × ℕ) × Bytes)
        → parse_object (parse_value l room) l.max_string_length slots left b ≡ ok p
        → IsObject slots left (length b) p
    unfolding parse_object
    parse_object_lem slots left b p e =
        let k = length-skip_whitespace b in
        elim (Bool-cases (starts b'}' (skip_whitespace b))) [
          | inl h ↦
              let size = length-rest_of b'}' (skip_whitespace b) h in
              no_members_lem slots left (length b) (rest_of (skip_whitespace b)) p (omega arith)
                (rw (h, parse_object) at e)
          | inr h ↦
              let (((ms, left'), rest), f, same) =
                ok_inv
                  (member_loop (parse_value l room) l.max_string_length slots [] left
                    (skip_whitespace b))
                  _ p (rw (h, parse_object) at e) in
              let (body, prints, gs, few, total) =
                member_loop_lem slots [] left (skip_whitespace b) ((ms, left'), rest) f in
              ok_subst (IsObject slots left (length b)) ((object ms, left'), rest) p same
                (ms, body, refl, prints true, gs, few, omega arith)
        ]
