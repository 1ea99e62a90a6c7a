-- ===== src/Remote/Proxy.antt =====
-- RawHandlerProxy.cpp and PluginProxy.cpp: the agent's stand-ins for a handler and a plug-in.
use azure_client_tools.Base.{
  Bool, not, ◌||◌, List, [], ◌∷◌, ◌++◌, Option, some, Text, codes, if◌then◌else◌, Result, ok, err,
  ◌>>=◌,
}
use azure_client_tools.Host.{InvokeResult}
use azure_client_tools.Host.Registry.{HandlerInfo}
use azure_client_tools.Json.{Json}
use azure_client_tools.Plugins.{
  Request, host_type, raw_type, create_raw_handler, start_method, stop_method, connection_method,
}
use azure_client_tools.Remote.Plugin.{handlers_info_method, destroy_raw_handler}
use azure_client_tools.Remote.Requests.{text_member}
use azure_client_tools.Remote.Stub.{
  type_method, is_configured_method, get_status_method, set_status_method, invoke_method,
  status_json_method, schema_method, present_key, code_key,
}
use azure_client_tools.Remote.{
  Call, with_result, checked, agent_error, ConnectionStatus, value_key, result_key, id_key,
  type_key, payload_key, status_to_string, status_from_string, connection_to_string,
}
use azure_client_tools.Reporting.{DeploymentStatus, Exception}
use azure_client_tools.Reporting.Operation.{or_logic_error}
use azure_client_tools.Reporting.Schema.{ReportedSchema, new_schema, schema_from_json}

abbrev pub bad_format : Text → Exception
bad_format function =
    agent_error 1001 (codes "RawHandlerProxy::" ++ function ++ codes ". Bad result format.")

unfoldable pub invalid_handlers_info : Exception
invalid_handlers_info =
    agent_error 1005 (codes "PluginProxy::GetHandlersInfo received invalid json.")

module _ (J : Json) where
  -- The member "result", which has a type to pass.
  unfoldable pub typed_result {ℓ} :
      {A : Type ℓ} → Text → (J.Value → Bool) → (J.Value → Option A) → J.Value → Result Exception A
  typed_result function is_right as_right payload =
      or_logic_error (J.member payload result_key) >>= λ v.
      if J.is_null v || not (is_right v)
      then err (bad_format function)
      else or_logic_error (as_right v)

  unfoldable pub read_invoke_result : J.Value → Result Exception InvokeResult
  read_invoke_result v = do
    present ← (or_logic_error (J.member v present_key) >>= λ x. or_logic_error (J.as_bool x))
    code ← (or_logic_error (J.member v code_key) >>= λ x. or_logic_error (J.as_int x))
    payload ← or_logic_error (J.member v payload_key)
    ok (record { is_present = present; code = code; payload = J.to_styled_string payload })

  unfoldable pub read_handler_infos : List J.Value → Result Exception (List HandlerInfo)
  read_handler_infos [] = ok []
  read_handler_infos (v ∷ vs) =
      let rest = read_handler_infos vs in
      if not (J.is_object v) then err invalid_handlers_info else do
        id ← text_member J v id_key
        info_type ← text_member J v type_key
        infos ← rest
        ok (record { id = id; info_type = info_type; dependencies = [] } ∷ infos)

  -- IPluginBinaryProxy::Invoke is `call`: in the process or out of it.
  module _ {ℓ} {S : Type ℓ} (call : Request J.Value → S → Call S J.Value) where
    -- A call to the handler of a name.
    abbrev pub ask : Text → Text → J.Value → S → Call S J.Value
    ask id method params s =
        call
          (record {
            target_type = raw_type;
            target_id = id;
            target_method = method;
            target_parameters = params;
          })
          s

    abbrev pub ask_host : Text → J.Value → S → Call S J.Value
    ask_host method params s =
        call
          (record {
            target_type = host_type;
            target_id = [];
            target_method = method;
            target_parameters = params;
          })
          s

    abbrev pub text_parameter : Text → Text → J.Value
    text_parameter key s = J.with_member J.empty_object key (J.of_text s)

    unfoldable pub proxy_type : Text → S → Call S Text
    unfolding typed_result
    proxy_type id s =
        with_result (ask id type_method J.null s)
          (typed_result (codes "GetHandlerType") J.is_string J.as_text)

    unfoldable pub proxy_start : Text → J.Value → S → Call S Bool
    unfolding typed_result
    proxy_start id config s =
        with_result (ask id start_method config s)
          (typed_result (codes "Start") J.is_bool J.as_bool)

    unfoldable pub proxy_stop : Text → S → Call S (Unit {0})
    proxy_stop id s = with_result (ask id stop_method J.null s) (λ v. ok tt)

    unfoldable pub proxy_connection : Text → ConnectionStatus → S → Call S (Unit {0})
    proxy_connection id status s =
        let params = text_parameter value_key (connection_to_string status) in
        with_result (ask id connection_method params s) (λ v. ok tt)

    unfoldable pub proxy_is_configured : Text → S → Call S Bool
    unfolding typed_result
    proxy_is_configured id s =
        with_result (ask id is_configured_method J.null s)
          (typed_result (codes "IsConfigured") J.is_int J.as_bool)

    unfoldable pub proxy_set_status : Text → DeploymentStatus → S → Call S (Unit {0})
    proxy_set_status id status s = checked (status_to_string status) s (λ text.
        with_result (ask id set_status_method (text_parameter value_key text) s) (λ v. ok tt))

    unfoldable pub proxy_get_status : Text → S → Call S DeploymentStatus
    unfolding typed_result
    proxy_get_status id s = with_result (ask id get_status_method J.null s) (λ payload.
        typed_result (codes "GetDeploymentStatus") J.is_string J.as_text payload
        >>= status_from_string)

    unfoldable pub proxy_invoke : Text → J.Value → S → Call S InvokeResult
    unfolding read_invoke_result
    proxy_invoke id params s = with_result (ask id invoke_method params s) read_invoke_result

    unfoldable pub proxy_status_json : Text → S → Call S J.Value
    unfolding typed_result
    proxy_status_json id s =
        with_result (ask id status_json_method J.null s)
          (typed_result (codes "GetDeploymentStatusJson") J.is_object (λ v. some v))

    unfoldable pub proxy_schema : Text → S → Call S ReportedSchema
    unfolding typed_result
    proxy_schema id s = with_result (ask id schema_method J.null s) (λ payload.
        typed_result (codes "GetReportedSchema") J.is_object (λ v. some v) payload >>= λ v.
        schema_from_json J v new_schema)

    unfoldable pub get_handlers_info : S → Call S (List HandlerInfo)
    unfolding read_handler_infos
    get_handlers_info s = with_result (ask_host handlers_info_method J.null s) (λ payload.
        or_logic_error (J.member payload result_key) >>= λ v.
        if J.is_null v || not (J.is_array v)
        then err invalid_handlers_info
        else read_handler_infos (J.elements v))

    -- The result is the name of the new proxy.
    unfoldable pub create_proxy : Text → S → Call S Text
    create_proxy id s =
        with_result (ask_host create_raw_handler (text_parameter id_key id) s) (λ v. ok id)

    unfoldable pub destroy_proxy : Text → S → Call S (Unit {0})
    destroy_proxy id s =
        with_result (ask_host destroy_raw_handler (text_parameter id_key id) s) (λ v. ok tt)
