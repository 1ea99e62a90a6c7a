-- ===== src/Remote/Stub.antt =====
-- RawHandlersStub.cpp: the handlers of a plug-in, and the calls that come in for them.
use azure_client_tools.Base.{
  not, ◌||◌, List, [], none, some, Text, text_eq, codes, Map, lookup, insert, erase, contains, keys,
  map, if◌then◌else◌, Result, ok, err, ◌>>=◌,
}
use azure_client_tools.Host.{InvokeResult}
use azure_client_tools.Json.{Json}
use azure_client_tools.Plugins.{start_method, stop_method, connection_method}
use azure_client_tools.Remote.Requests.{text_member}
use azure_client_tools.Remote.{
  Call, returns, throws, with_result, checked, agent_error, RawHandlers, value_key, result_key,
  id_key, type_key, payload_key, status_to_string, status_from_string, connection_from_string,
}
use azure_client_tools.Reporting.{Exception}
use azure_client_tools.Reporting.Operation.{or_logic_error}
use azure_client_tools.Reporting.Schema.{schema_to_json}

-- A factory is what it makes of a new handler.
pub record Stub (H : Type 0) : Type 0 where
  pub raw_factory_map : Map (Result Exception H)
  pub raw_handler_map : Map H

unfoldable pub new_stub : (H : Type 0) → Stub H
new_stub H = record { raw_factory_map = []; raw_handler_map = [] }

unfoldable pub register_handler : {H : Type 0} → Text → Result Exception H → Stub H → Stub H
register_handler id create st =
    if contains id st.raw_factory_map
    then st
    else record st { raw_factory_map = insert id create st.raw_factory_map }

unfoldable pub unregister_handler : {H : Type 0} → Text → Stub H → Stub H
unregister_handler id st = record st { raw_factory_map = erase id st.raw_factory_map }

abbrev pub type_method : Text
type_method = codes "handlerType"

abbrev pub is_configured_method : Text
is_configured_method = codes "isConfigured"

abbrev pub get_status_method : Text
get_status_method = codes "getDeploymentStatus"

abbrev pub set_status_method : Text
set_status_method = codes "setDeploymentStatus"

abbrev pub invoke_method : Text
invoke_method = codes "invoke"

abbrev pub status_json_method : Text
status_json_method = codes "getDeploymentStatusJson"

abbrev pub schema_method : Text
schema_method = codes "getReportedSchema"

abbrev pub handler_type_raw : Text
handler_type_raw = codes "handlerTypeRaw"

abbrev pub present_key : Text
present_key = codes "present"

abbrev pub code_key : Text
code_key = codes "code"

unfoldable pub unknown_handler_id : Exception
unknown_handler_id = agent_error 2013 (codes "Invalid raw handler id.")

unfoldable pub unknown_handler : Exception
unknown_handler = agent_error 2013 (codes "Unknown raw configuration handler.")

unfoldable pub unknown_method : Exception
unknown_method = agent_error 2014 (codes "Unknown raw configuration method.")

unfoldable pub invalid_payload : Exception
invalid_payload =
    agent_error 1001
      (codes "Failed to parse direct method returned payload. Not a valid json value.")

-- A shared handler is changed in place.
abbrev pub put_back {ℓ} : {H : Type 0} {A : Type ℓ} → Text → Stub H → Call H A → Call (Stub H) A
put_back id st c = record {
  state = record st { raw_handler_map = insert id c.state st.raw_handler_map };
  outcome = c.outcome;
}

module _ (J : Json) where
  -- An object with the single member "result".
  abbrev pub result_object : J.Value → J.Value
  result_object v = J.with_member J.empty_object result_key v

  -- The checks of the handlers of a method with a text argument.
  unfoldable pub text_argument : Exception → Exception → J.Value → Result Exception Text
  text_argument invalid_input invalid_schema params =
      if J.is_null params || not (J.is_object params)
      then err invalid_input
      else or_logic_error (J.member params value_key) >>= λ v.
          if J.is_null v || not (J.is_string v)
          then err invalid_schema
          else or_logic_error (J.as_text v)

  unfoldable pub connection_argument : J.Value → Result Exception Text
  unfolding text_argument
  connection_argument =
      text_argument (agent_error 1015 (codes "Invalid input for HandleOnConnectionStatusChanged"))
        (agent_error 1015 (codes "Invalid input schema for HandleOnConnectionStatusChanged"))

  unfoldable pub status_argument : J.Value → Result Exception Text
  unfolding text_argument
  status_argument =
      text_argument (agent_error 1015 (codes "Invalid input for HandleSetDeploymentStatus"))
        (agent_error 1015 (codes "Invalid input schema for HandleSetDeploymentStatus"))

  unfoldable pub parsed_payload : InvokeResult → Result Exception J.Value
  parsed_payload r =
      if r.is_present
      then elim (J.parse r.payload) [ none ↦ err invalid_payload | some v ↦ ok v ]
      else ok J.null

  unfoldable pub invoke_object : InvokeResult → Result Exception J.Value
  unfolding parsed_payload
  invoke_object r =
      let present = J.with_member J.empty_object present_key (J.of_bool r.is_present) in
      let coded = J.with_member present code_key (J.of_int r.code) in
      parsed_payload r >>= λ v. ok (J.with_member coded payload_key v)

  -- One entry of GetHandlersInfo.
  unfoldable pub handler_info_object : Text → J.Value
  handler_info_object id =
      J.with_member (J.with_member J.empty_object id_key (J.of_text id)) type_key
        (J.of_text handler_type_raw)

  unfoldable pub handlers_info : {H : Type 0} → Stub H → List J.Value
  unfolding handler_info_object
  handlers_info st = map handler_info_object (keys st.raw_factory_map)

  module _ (R : RawHandlers J) where
    unfoldable pub handle_start : R.Handler → J.Value → Call R.Handler J.Value
    handle_start h params =
        with_result (R.start h params) (λ active. ok (result_object (J.of_bool active)))

    unfoldable pub handle_stop : R.Handler → J.Value → Call R.Handler J.Value
    handle_stop h params = with_result (R.stop h) (λ u. ok J.null)

    unfoldable pub handle_connection : R.Handler → J.Value → Call R.Handler J.Value
    unfolding connection_argument
    handle_connection h params =
        checked (connection_argument params >>= connection_from_string) h
          (λ status. with_result (R.on_connection_status_changed h status) (λ u. ok J.null))

    unfoldable pub handle_type : R.Handler → J.Value → Call R.Handler J.Value
    handle_type h params =
        checked (R.get_handler_type h) h (λ s. returns (result_object (J.of_text s)) h)

    unfoldable pub handle_is_configured : R.Handler → J.Value → Call R.Handler J.Value
    handle_is_configured h params =
        checked (R.is_configured h) h (λ b. returns (result_object (J.of_bool b)) h)

    unfoldable pub handle_get_status : R.Handler → J.Value → Call R.Handler J.Value
    handle_get_status h params =
        checked (R.get_deployment_status h >>= status_to_string) h
          (λ s. returns (result_object (J.of_text s)) h)

    unfoldable pub handle_set_status : R.Handler → J.Value → Call R.Handler J.Value
    unfolding status_argument
    handle_set_status h params =
        checked (status_argument params >>= status_from_string) h
          (λ status. with_result (R.set_deployment_status h status) (λ u. ok J.null))

    unfoldable pub handle_invoke : R.Handler → J.Value → Call R.Handler J.Value
    unfolding invoke_object
    handle_invoke h params = with_result (R.invoke h params) invoke_object

    unfoldable pub handle_status_json : R.Handler → J.Value → Call R.Handler J.Value
    handle_status_json h params =
        checked (R.get_deployment_status_json h) h (λ v. returns (result_object v) h)

    unfoldable pub handle_schema : R.Handler → J.Value → Call R.Handler J.Value
    handle_schema h params =
        checked (R.get_reported_schema h) h (λ s. returns (result_object (schema_to_json J s)) h)

    -- The choice of RouteToHandler.
    unfoldable pub handle_method : R.Handler → Text → J.Value → Call R.Handler J.Value
    unfolding handle_start handle_stop handle_connection handle_type handle_is_configured
        handle_get_status handle_set_status handle_invoke handle_status_json handle_schema
    handle_method h method params =
        if text_eq method start_method
        then handle_start h params
        else if text_eq method stop_method
        then handle_stop h params
        else if text_eq method connection_method
        then handle_connection h params
        else if text_eq method type_method
        then handle_type h params
        else if text_eq method is_configured_method
        then handle_is_configured h params
        else if text_eq method get_status_method
        then handle_get_status h params
        else if text_eq method set_status_method
        then handle_set_status h params
        else if text_eq method invoke_method
        then handle_invoke h params
        else if text_eq method status_json_method
        then handle_status_json h params
        else if text_eq method schema_method
        then handle_schema h params
        else throws unknown_method h

    unfoldable pub route_to_handler :
        Text → Text → J.Value → Stub R.Handler → Call (Stub R.Handler) J.Value
    unfolding handle_method
    route_to_handler id method params st = elim (lookup id st.raw_handler_map) [
      | none ↦ throws unknown_handler st
      | some h ↦ put_back id st (handle_method h method params)
    ]

    unfoldable pub create_handler : J.Value → Stub R.Handler → Call (Stub R.Handler) J.Value
    create_handler config st = checked (text_member J config id_key) st (λ id.
        elim (lookup id st.raw_factory_map) [
          | none ↦ throws unknown_handler_id st
          | some create ↦
              checked create st (λ h.
                returns J.null (record st { raw_handler_map = insert id h st.raw_handler_map }))
        ])

    -- A handler that throws when it is stopped stays.
    unfoldable pub stopped :
        Text → Stub R.Handler → Call R.Handler (Unit {0}) → Call (Stub R.Handler) J.Value
    stopped id st c = elim c.outcome [
      | ok u ↦ returns J.null (record st { raw_handler_map = erase id st.raw_handler_map })
      | err e ↦ throws e (record st { raw_handler_map = insert id c.state st.raw_handler_map })
    ]

    unfoldable pub destroy_handler : J.Value → Stub R.Handler → Call (Stub R.Handler) J.Value
    unfolding stopped
    destroy_handler config st = checked (text_member J config id_key) st (λ id.
        elim (lookup id st.raw_handler_map) [
          | none ↦ returns J.null st
          | some h ↦ stopped id st (R.stop h)
        ])
