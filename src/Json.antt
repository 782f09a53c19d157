-- ===== src/Json.antt =====
-- src/domain/RawJson.h: JSON values that keep numbers and members as they were written, and the
-- limits of the parser and the printer. A string of bytes is a list of numbers below 256, a text a
-- list of UTF-16 units. `Items` and `Members` are the lists in an array and in an object.
pub mod Parser
pub mod Printer
pub mod Points
pub mod Texts
pub mod Numerals
pub mod Lexical
pub mod RoundTrip
pub mod Sound
pub mod Bounds
pub mod Rejects
pub mod Integers
pub mod Surrogates
pub mod Conversion
pub mod Access
mod Examples
use arkham_horror_linux.Common.{
  ℕ, Bool, true, false, List, [], ◌∷◌, Text, codes, ltb, leb, ◌&&◌, ◌||◌, ◌≟◌, text_key, ite,
}

pub record ParseLimits : Type 0 where
  pub max_input_bytes : ℕ
  pub max_depth : ℕ
  pub max_string_length : ℕ
  pub max_number_digits : ℕ
  pub max_array_elements : ℕ
  pub max_object_members : ℕ
  pub max_total_nodes : ℕ

abbrev pub production : ParseLimits
production = record {
  max_input_bytes = 33554432;
  max_depth = 64;
  max_string_length = 65536;
  max_number_digits = 64;
  max_array_elements = 20000;
  max_object_members = 1024;
  max_total_nodes = 400000;
}

pub record RawNumber : Type 0 where
  pub negative : Bool
  pub int_digits : Text
  pub frac_digits : Text
  pub has_exponent : Bool
  pub exponent_negative : Bool
  pub exp_digits : Text

mutual
  pub data Value : Type 0 where
    undefined null : Value
    boolean : Bool → Value
    number : RawNumber → Value
    string : Text → Value
    array : Items → Value
    object : Members → Value

  pub data Items : Type 0 where
    no_items : Items
    item : Value → Items → Items

  pub data Members : Type 0 where
    no_members : Members
    member : Text → Value → Members → Members

abbrev pub Bytes : Type 0
Bytes = List ℕ

-- `QChar::isHighSurrogate` and `isLowSurrogate`.
abbrev pub is_high : ℕ → Bool
is_high u = leb 0xD800 u && leb u 0xDBFF

abbrev pub is_low : ℕ → Bool
is_low u = leb 0xDC00 u && leb u 0xDFFF

abbrev pub is_ascii_digit : ℕ → Bool
is_ascii_digit c = leb b'0' c && leb c b'9'

-- A key among the keys seen.
pub seen : Text → List Text → Bool
seen k [] = false
seen k (x ∷ xs) = ite (x ≟ k) true (seen k xs)
