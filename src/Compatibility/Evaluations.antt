-- ===== src/Compatibility/Evaluations.antt =====
-- src/CompatibilityEvaluator.cpp: when client and server fit.
use arkham_horror_linux.Common.{false, text_key, ◌<◌, ◌≤◌, ◌⊎◌, ◌≡◌, ◌↔◌, arith}
use arkham_horror_linux.Common.Decimals.{Decimals}
use arkham_horror_linux.Compatibility.{
  ContractRevision, less, ServerCapabilities, ContractPin, compatible, evaluate,
}

-- A revision is not below another one: by its major number, then by the minor one, then by the
-- patch.
abbrev pub AtLeast : ContractRevision → ContractRevision → Type 0
AtLeast r s =
    (s.major < r.major)
    ⊎ ((r.major ≡ s.major) × ((s.minor < r.minor) ⊎ ((r.minor ≡ s.minor) × (s.patch ≤ r.patch))))

less-AtLeast : (r s : ContractRevision) → less r s ≡ false → AtLeast r s
unfolding less
less-AtLeast r s e = grind (arith, e)

AtLeast-less : (r s : ContractRevision) → AtLeast r s → less r s ≡ false
unfolding less
AtLeast-less r s a = grind (arith, a)

-- No check of the evaluator fails.
pub record Fits (server : ServerCapabilities) (pin : ContractPin) : Type 0 where
  pub modern : server.is_legacy_fallback ≡ false
  pub client_new : AtLeast pin.supported_schema_revision server.native_client_minimum_revision
  pub server_new : AtLeast server.schema_revision pin.minimum_server_schema_revision
  pub same_base : server.api_base_path ≡ pin.expected_api_base_path

module _ (d : Decimals) (server : ServerCapabilities) (pin : ContractPin) where
  compatible_only : (evaluate d server pin).outcome ≡ compatible → Fits server pin
  unfolding evaluate
  compatible_only e = record {
    modern = ground (arith, e);
    client_new = less-AtLeast _ _ (ground (arith, e));
    server_new = less-AtLeast _ _ (ground (arith, e));
    same_base = ground (arith, e);
  }

  compatible_if : Fits server pin → (evaluate d server pin).outcome ≡ compatible
  unfolding evaluate
  compatible_if f =
      let client_new = AtLeast-less _ _ f.client_new in
      let server_new = AtLeast-less _ _ f.server_new in
      ground (arith, f.modern, client_new, server_new, f.same_base)

  -- Client and server are compatible exactly if the server is a modern one, the client's schema is
  -- not below the server's minimum, the server's schema is not below the client's minimum (by the
  -- major number, then the minor one, then the patch), and both name the same base path of the API.
  pub evaluate-Fits : ((evaluate d server pin).outcome ≡ compatible) ↔ Fits server pin
  evaluate-Fits = (compatible_only, compatible_if)

less_trans : (r s t : ContractRevision) → less r s ≡ false → less s t ≡ false → less r t ≡ false
unfolding less
less_trans r s t h k = ground (arith, h, k)

-- An update of a compatible client that raises its schema, keeps or lowers the minimum that it asks
-- of the server, and keeps the base path is compatible with the same server.
pub evaluate_update :
    (d : Decimals) (server : ServerCapabilities) (pin new : ContractPin)
    → (evaluate d server pin).outcome ≡ compatible
    → less new.supported_schema_revision pin.supported_schema_revision ≡ false
    → less pin.minimum_server_schema_revision new.minimum_server_schema_revision ≡ false
    → new.expected_api_base_path ≡ pin.expected_api_base_path
    → (evaluate d server new).outcome ≡ compatible
evaluate_update d server pin new e up down same =
    let f = compatible_only d server pin e in
    compatible_if d server new (record {
      modern = f.modern;
      client_new = less-AtLeast _ _ (less_trans _ _ _ up (AtLeast-less _ _ f.client_new));
      server_new = less-AtLeast _ _ (less_trans _ _ _ (AtLeast-less _ _ f.server_new) down);
      same_base = ground (arith, f.same_base, same);
    })
