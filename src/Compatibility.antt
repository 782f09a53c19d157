-- ===== src/Compatibility.antt =====
-- src/domain/ContractRevision.cpp, src/ServerCapabilities.h, src/domain/ContractPin.h and
-- src/CompatibilityEvaluator.cpp: revisions of the contract between client and server, and whether
-- the two fit. The errors of `parse` stand for its messages.
pub mod Revisions
pub mod Evaluations
mod Examples
use arkham_horror_linux.Common.{
  ℕ, ite, Bool, true, false, not, ◌&&◌, ◌||◌, Option, none, some, List, [], ◌∷◌, ◌++◌, Text, ◌≟◌,
  text_key, codes, ltb, ◌==◌, if◌then◌else◌, is_empty,
}
use arkham_horror_linux.Common.Decimals.{Decimals, is_ascii_digit}

pub record ContractRevision : Type 0 where
  pub major : ℕ
  pub minor : ℕ
  pub patch : ℕ

pub data Component : Type 0 where
  major_component minor_component patch_component : Component

pub data RevisionError : Type 0 where
  not_three_components : RevisionError
  not_digits overflows : Component → RevisionError

pub data Parsed (A : Type 0) : Type 0 where
  failure : RevisionError → Parsed A
  value : A → Parsed A

abbrev bind_parsed : {A B : Type 0} → Parsed A → (A → Parsed B) → Parsed B
bind_parsed (failure e) k = failure e
bind_parsed (value a) k = k a

abbrev on_first : ℕ → List Text → List Text
on_first u [] = (u ∷ []) ∷ []
on_first u (t ∷ ts) = (u ∷ t) ∷ ts

-- `QStringView::split` at a full stop.
pub split_dots : Text → List Text
split_dots [] = [] ∷ []
split_dots (u ∷ t) = if u == b'.' then [] ∷ split_dots t else on_first u (split_dots t)

pub all_ascii_digits : Text → Bool
all_ascii_digits [] = true
all_ascii_digits (u ∷ t) = if is_ascii_digit u then all_ascii_digits t else false

pub is_ascii_digits : Text → Bool
unfolding all_ascii_digits
is_ascii_digits t = if is_empty t then false else all_ascii_digits t

module _ (d : Decimals) where
  open d use {number, to_int}

  pub component : Component → Text → Parsed ℕ
  unfolding is_ascii_digits
  component c t =
      if is_ascii_digits t
      then elim (to_int t) [ none ↦ failure (overflows c) | some n ↦ value n ]
      else failure (not_digits c)

  pub from_parts : List Text → Parsed ContractRevision
  unfolding component
  from_parts (a ∷ b ∷ c ∷ []) = bind_parsed (component major_component a) (λ x.
      bind_parsed (component minor_component b) (λ y.
        bind_parsed (component patch_component c)
          (λ z. value (record { major = x; minor = y; patch = z }))))
  from_parts _ = failure not_three_components

  pub parse : Text → Parsed ContractRevision
  unfolding from_parts split_dots
  parse t = from_parts (split_dots t)

  pub to_string : ContractRevision → Text
  to_string r = number r.major ++ b'.' ∷ (number r.minor ++ b'.' ∷ number r.patch)

-- The default `<=>` of the members, in their order.
pub less : ContractRevision → ContractRevision → Bool
less r s =
    ltb r.major s.major
    || (r.major == s.major && (ltb r.minor s.minor || (r.minor == s.minor && ltb r.patch s.patch)))

pub record ServerCapabilities : Type 0 where
  pub schema_revision : ContractRevision
  pub status : Text
  pub api_base_path : Text
  pub native_client_minimum_revision : ContractRevision
  pub capabilities : List Text
  pub is_legacy_fallback : Bool

pub record ContractPin : Type 0 where
  pub backend_commit : Text
  pub source_ref : Text
  pub supported_schema_revision : ContractRevision
  pub minimum_server_schema_revision : ContractRevision
  pub source_native_client_minimum_revision : ContractRevision
  pub expected_api_base_path : Text

pub data CompatibilityOutcome : Type 0 where
  compatible legacy_fallback incompatible : CompatibilityOutcome

pub data IncompatibilityCode : Type 0 where
  no_code client_too_old server_too_old api_base_mismatch : IncompatibilityCode

pub record CompatibilityResult : Type 0 where
  pub outcome : CompatibilityOutcome
  pub code : IncompatibilityCode
  pub diagnostic : Text

abbrev refused : IncompatibilityCode → Text → CompatibilityResult
refused code diagnostic = record { outcome = incompatible; code = code; diagnostic = diagnostic }

module _ (d : Decimals) where
  pub evaluate : ServerCapabilities → ContractPin → CompatibilityResult
  unfolding less
  evaluate server pin =
      if server.is_legacy_fallback
      then (record {
        outcome = legacy_fallback;
        code = no_code;
        diagnostic =
            codes
              "server predates the capabilities endpoint; operating in legacy fallback mode without modern feature assumptions";
      })
      else if less pin.supported_schema_revision server.native_client_minimum_revision
      then refused client_too_old (
          codes "client schema "
          ++ to_string d pin.supported_schema_revision
          ++ codes " is below server minimum "
          ++ to_string d server.native_client_minimum_revision
          ++ codes "; update the client")
      else if less server.schema_revision pin.minimum_server_schema_revision
      then refused server_too_old (
          codes "server schema "
          ++ to_string d server.schema_revision
          ++ codes " is below client minimum "
          ++ to_string d pin.minimum_server_schema_revision
          ++ codes "; update the server")
      else ite (server.api_base_path ≟ pin.expected_api_base_path)
          (record { outcome = compatible; code = no_code; diagnostic = [] })
          (refused api_base_mismatch (
            codes "server apiBasePath \""
            ++ server.api_base_path
            ++ codes "\" does not match expected \""
            ++ pin.expected_api_base_path
            ++ codes "\""))
