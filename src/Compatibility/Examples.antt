-- ===== src/Compatibility/Examples.antt =====
-- The pinned revision of src/domain/ContractPin.cpp and a server that fits, with decimals over ASCII
-- digits.
use arkham_horror_linux.Common.{false, [], text_discrete, codes, ◌≡◌, ◌↔◌, refl, arith}
use arkham_horror_linux.Common.Decimals.Ascii.{read_from, ascii_decimals}
use arkham_horror_linux.Compatibility.{
  ContractRevision, value, parse, to_string, less, ServerCapabilities, ContractPin, compatible,
  evaluate,
}
use arkham_horror_linux.Compatibility.Revisions.{parse-to_string, Revision, parse-Revision}
use arkham_horror_linux.Compatibility.Evaluations.{Fits, evaluate-Fits, evaluate_update}

abbrev pinned : ContractRevision
pinned = record { major = 0; minor = 1; patch = 57 }

abbrev next : ContractRevision
next = record { major = 0; minor = 2; patch = 3 }

abbrev server : ServerCapabilities
server = record {
  schema_revision = pinned;
  status = codes "baseline-incomplete";
  api_base_path = codes "/api/v1";
  native_client_minimum_revision = pinned;
  capabilities = [];
  is_legacy_fallback = false;
}

abbrev pin : ContractPin
pin = record {
  backend_commit = codes "4db9946179ef8b7a242bd7e40c0a2d74990cf3e9";
  source_ref = codes "djensenius/ArkhamHorror#247";
  supported_schema_revision = pinned;
  minimum_server_schema_revision = record { major = 0; minor = 1; patch = 48 };
  source_native_client_minimum_revision = pinned;
  expected_api_base_path = codes "/api/v1";
}

parse-to_string_example : parse ascii_decimals (to_string ascii_decimals pinned) ≡ value pinned
parse-to_string_example =
    parse-to_string ascii_decimals pinned (omega arith) (omega arith) (omega arith)

parse-Revision_example : Revision ascii_decimals (codes "0.1.57") pinned
unfolding parse ascii_decimals read_from
parse-Revision_example = parse-Revision ascii_decimals (codes "0.1.57") pinned refl

evaluate-Fits_example :
    ((evaluate ascii_decimals server pin).outcome ≡ compatible) ↔ Fits server pin
evaluate-Fits_example = evaluate-Fits ascii_decimals server pin

evaluate_update_example :
    (evaluate ascii_decimals server (record pin { supported_schema_revision = next })).outcome
    ≡ compatible
unfolding evaluate less text_discrete
evaluate_update_example =
    evaluate_update ascii_decimals server pin (record pin { supported_schema_revision = next }) refl
      refl refl refl
