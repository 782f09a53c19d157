-- ===== src/Json/Conversion.antt =====
-- `toExactQJson` of src/domain/RawJson.cpp. The values of Qt are a parameter. `room` and `left` are as
-- in the printer.
pub mod Printable
mod Examples
use arkham_horror_linux.Common.{
  ℕ, zero, suc, ◌+◌, Bool, true, false, ◌||◌, Option, none, some, List, [], ◌∷◌, ◌++◌, Text, length,
  ltb, if◌then◌else◌, is_empty, ◌≡◌,
}
use arkham_horror_linux.Json.{
  ParseLimits, production, RawNumber, Value, Items, Members, undefined, null, boolean, number,
  string, array, object, no_items, item, no_members, member, seen,
}
use arkham_horror_linux.Json.Printer.{count_items, count_members}
use arkham_horror_linux.Json.Integers.{ℤ, to_exact_int64}
use arkham_horror_linux.Json.Surrogates.{has_lone_surrogate}

-- What is asked of `QJsonValue`, `QJsonArray` and `QJsonObject`, and of `toLongLong`.
pub record QtJson : Type 1 where
  pub Q : Type 0
  pub q_undefined : Q
  pub q_null : Q
  pub q_bool : Bool → Q
  pub q_integer : ℤ → Q
  pub q_string : Text → Q
  pub q_array : List Q → Q
  pub q_object : List (Text × Q) → Q
  pub is_undefined : Q → Bool
  pub undefined_law : is_undefined q_undefined ≡ true
  pub to_long_long : Text → Option ℕ

pub data ConversionError : Type 0 where
  nesting node_count no_digits digit_count not_exact string_length string_surrogate element_count
        member_count :
      ConversionError
  key_length key_surrogate : ConversionError
  key_twice : Text → ConversionError
  undefined_element : ℕ → ConversionError
  undefined_member : Text → ConversionError
  in_element : ℕ → ConversionError → ConversionError
  in_member : Text → ConversionError → ConversionError

pub data Converted (A : Type 0) : Type 0 where
  converted : A → Converted A
  failure : ConversionError → Converted A

module _ {A B : Type 0} where
  infixl 5 ◌>>=◌
  abbrev pub ◌>>=◌ : Converted A → (A → Converted B) → Converted B
  converted a >>= f = f a
  failure e >>= f = failure e

abbrev pub within : {A : Type 0} → (ConversionError → ConversionError) → Converted A → Converted A
within f (converted a) = converted a
within f (failure e) = failure (f e)

module _ (q : QtJson) (l : ParseLimits) where
  unfoldable pub convert_string : Text → ℕ → Converted (q.Q × ℕ)
  convert_string t left =
      if ltb l.max_string_length (length t)
      then failure string_length
      else if has_lone_surrogate t
      then failure string_surrogate
      else converted (q.q_string t, left)

  unfoldable pub convert_number : RawNumber → ℕ → Converted (q.Q × ℕ)
  convert_number n left =
      if is_empty n.int_digits
      then failure no_digits
      else if ltb l.max_number_digits (length n.int_digits)
          || (ltb l.max_number_digits (length n.frac_digits)
              || ltb l.max_number_digits (length n.exp_digits))
      then failure digit_count
      else elim (to_exact_int64 q.to_long_long n) [
        | none ↦ failure not_exact
        | some z ↦ converted (q.q_integer z, left)
      ]

  -- The checks of a key.
  unfoldable pub convert_key : Text → List Text → Converted Text
  convert_key k keys =
      if ltb l.max_string_length (length k)
      then failure key_length
      else if has_lone_surrogate k
      then failure key_surrogate
      else if seen k keys
      then failure (key_twice k)
      else converted k

  -- An element or a member that is not undefined.
  abbrev pub defined : ConversionError → q.Q × ℕ → Converted (q.Q × ℕ)
  defined e (x, left) = if q.is_undefined x then failure e else converted (x, left)

unfoldable mutual
  pub convert_value : (q : QtJson) → ParseLimits → ℕ → ℕ → Value → Converted (q.Q × ℕ)
  convert_value q l zero left v = failure nesting
  convert_value q l (suc room) zero v = failure node_count
  convert_value q l (suc room) (suc left) undefined = converted (q.q_undefined, left)
  convert_value q l (suc room) (suc left) null = converted (q.q_null, left)
  convert_value q l (suc room) (suc left) (boolean b) = converted (q.q_bool b, left)
  convert_value q l (suc room) (suc left) (number n) = convert_number q l n left
  convert_value q l (suc room) (suc left) (string t) = convert_string q l t left
  convert_value q l (suc room) (suc left) (array xs) =
      if ltb l.max_array_elements (count_items xs)
      then failure element_count
      else convert_items q l room left 0 xs >>= λ (ys, left'). converted (q.q_array ys, left')
  convert_value q l (suc room) (suc left) (object ms) =
      if ltb l.max_object_members (count_members ms)
      then failure member_count
      else convert_members q l room left [] ms >>= λ (ys, left'). converted (q.q_object ys, left')

  -- From an index on.
  pub convert_items : (q : QtJson) → ParseLimits → ℕ → ℕ → ℕ → Items → Converted (List q.Q × ℕ)
  convert_items q l room left i no_items = converted ([], left)
  convert_items q l room left i (item v xs) =
      (within (in_element i) (convert_value q l room left v) >>= defined q l (undefined_element i))
      >>= λ (x, left1).
          convert_items q l room left1 (suc i) xs >>= λ (ys, left'). converted (x ∷ ys, left')

  pub convert_members :
      (q : QtJson) → ParseLimits → ℕ → ℕ → List Text → Members → Converted (List (Text × q.Q) × ℕ)
  convert_members q l room left keys no_members = converted ([], left)
  convert_members q l room left keys (member k v ms) = convert_key q l k keys >>= λ key.
      (within (in_member k) (convert_value q l room left v) >>= defined q l (undefined_member k))
      >>= λ (x, left1). convert_members q l room left1 (k ∷ keys) ms >>= λ (ys, left').
          converted ((key, x) ∷ ys, left')

unfoldable pub to_exact_qjson : (q : QtJson) → Value → Converted q.Q
to_exact_qjson q v =
    convert_value q production (suc production.max_depth) production.max_total_nodes v
    >>= λ (x, left). converted x
