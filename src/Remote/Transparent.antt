-- ===== src/Remote/Transparent.antt =====
-- What crosses the border arrives as it was sent.
use azure_client_tools.Base.{◌≡◌, refl, ap, ◌∙◌, some, Text, c_string, Result}
use azure_client_tools.Json.{Json, IsLawful}
use azure_client_tools.Plugins.{Request}
use azure_client_tools.Remote.Plugin.{
  response_for, response_text, invoke_text, entry_point, answered, binary_invoke,
}
use azure_client_tools.Remote.Requests.{request_object, build_request}
use azure_client_tools.Remote.Responses.{response_to_json, payload_from_json_string}
use azure_client_tools.Remote.{Call}
use azure_client_tools.Reporting.{Exception}
use azure_client_tools.Remote.Texts.{
  request_from_json_string-build_request, payload_from_json_string-response_text,
}

module _ (J : Json) (laws : IsLawful J) where
  c_string-build_request : (r : Request J.Value) → c_string (build_request J r) ≡ build_request J r
  unfolding build_request
  c_string-build_request r = laws.written_is_c_string (request_object J r)

  pub c_string-response_text :
      (r : Result Exception J.Value) → c_string (response_text J r) ≡ response_text J r
  unfolding response_text
  c_string-response_text r = laws.written_is_c_string (response_to_json J (response_for J r))

  -- The text of the response, and the state, when the request arrives as it was sent.
  pub invoke_text-build_request {ℓ} :
      {S : Type ℓ} (operation : Request J.Value → S → Call S J.Value) (r : Request J.Value) (s : S)
      → invoke_text J operation (c_string (c_string (build_request J r))) s
        ≡ ((operation r s).state, response_text J (operation r s).outcome)
  unfolding invoke_text
  invoke_text-build_request operation r s =
      rw
        (
          c_string-build_request r,
          c_string-build_request r,
          request_from_json_string-build_request J laws r,
          invoke_text,
        )
        refl

  -- A call through PluginBinaryProxy and the entry point of the plug-in leaves the plug-in in the same
  -- state as the operation itself, and returns or throws the same.
  pub binary_invoke-entry_point {ℓ} :
      {S : Type ℓ} (operation : Request J.Value → S → Call S J.Value) (r : Request J.Value) (s : S)
      → binary_invoke J (some (entry_point J operation)) r s ≡ operation r s
  unfolding binary_invoke entry_point answered
  binary_invoke-entry_point {S = S} operation r s =
      let c = operation r s in
      let read : S × Text → Call S J.Value =
        λ p. record { state = p.0; outcome = payload_from_json_string J (c_string p.1) } in
      ap read (invoke_text-build_request operation r s)
      ∙ rw
          (
            c_string-response_text c.outcome,
            payload_from_json_string-response_text J laws c.outcome,
          )
          refl
