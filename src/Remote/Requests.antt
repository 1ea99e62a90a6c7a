-- ===== src/Remote/Requests.antt =====
-- CrossBinaryRequest.cpp: a call as a text.
use azure_client_tools.Base.{
  not, ◌||◌, none, some, Text, codes, if◌then◌else◌, Result, ok, err, ◌>>=◌,
}
use azure_client_tools.Json.{Json}
use azure_client_tools.Plugins.{Request}
use azure_client_tools.Remote.{agent_error, type_key, id_key, method_key, parameters_key}
use azure_client_tools.Reporting.{Exception}
use azure_client_tools.Reporting.Operation.{or_logic_error}

unfoldable pub invalid_request_schema : Exception
invalid_request_schema = agent_error 1003 (codes "Invalid request json schema.")

unfoldable pub unreadable_request : Exception
unreadable_request = agent_error 1002 (codes "Failed to parse plug-in request.")

module _ (J : Json) where
  -- `value[key].asString()`.
  abbrev pub text_member : J.Value → Text → Result Exception Text
  text_member v key = or_logic_error (J.member v key) >>= λ x. or_logic_error (J.as_text x)

  unfoldable pub request_object : Request J.Value → J.Value
  request_object r =
      let typed = J.with_member J.empty_object type_key (J.of_text r.target_type) in
      let named = J.with_member typed id_key (J.of_text r.target_id) in
      let routed = J.with_member named method_key (J.of_text r.target_method) in
      J.with_member routed parameters_key r.target_parameters

  unfoldable pub build_request : Request J.Value → Text
  unfolding request_object
  build_request r = J.to_styled_string (request_object r)

  unfoldable pub request_from_json : J.Value → Result Exception (Request J.Value)
  request_from_json v =
      if J.is_null v || not (J.is_object v) then err invalid_request_schema else do
        target_type ← text_member v type_key
        target_id ← text_member v id_key
        target_method ← text_member v method_key
        target_parameters ← or_logic_error (J.member v parameters_key)
        ok (record {
          target_type = target_type;
          target_id = target_id;
          target_method = target_method;
          target_parameters = target_parameters;
        })

  unfoldable pub request_from_json_string : Text → Result Exception (Request J.Value)
  unfolding request_from_json
  request_from_json_string s = elim (J.parse s) [
    | none ↦ err unreadable_request
    | some v ↦ request_from_json v
  ]
