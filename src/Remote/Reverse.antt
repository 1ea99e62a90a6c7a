-- ===== src/Remote/Reverse.antt =====
-- The calls of a plug-in to the agent: RawHandlerHostProxy.cpp, MdmServerProxy.cpp and
-- AgentBinaryProxy.cpp of code/device-agent/plugin-common, AgentStub.cpp of
-- code/device-agent/agent/Plugins, and the Base64 texts of code/Utilities/DMString.cpp.
use azure_client_tools.Base.{
  ◌≡◌, List, [], ◌∷◌, ◌++◌, Text, text_eq, codes, c_string, ℕ, if◌then◌else◌, Result, ok, ◌>>=◌,
}
use azure_client_tools.Json.{Json}
use azure_client_tools.Plugins.{Request}
use azure_client_tools.Remote.Plugin.{EntryPoint, entry_point, answered}
use azure_client_tools.Remote.Requests.{build_request, text_member}
use azure_client_tools.Remote.{
  Call, throws, with_result, checked, agent_error, value_key, id_key, status_to_string,
  status_from_string,
}
use azure_client_tools.Reporting.{DeploymentStatus, Exception}
use azure_client_tools.Reporting.Operation.{or_logic_error}

-- IRawHandlerHost and IMdmServer, as the agent has them.
pub record AgentServices (J : Json) : Type 1 where
  pub State : Type 0
  pub report : Text → DeploymentStatus → J.Value → State → Call State (Unit {0})
  pub send_event : Text → Text → J.Value → State → Call State (Unit {0})
  pub run_sync_ml : Text → Text → State → Call State Text

-- CryptBinaryToStringA and CryptStringToBinaryA with CRYPT_STRING_BASE64.
pub record Base64 : Type 0 where
  pub encode : List ℕ → Result Exception Text
  pub decode : Text → Result Exception (List ℕ)

-- What was encoded is decoded.
abbrev pub IsInverse : Base64 → Type 0
IsInverse B = (bytes : List ℕ) → (B.encode bytes >>= B.decode) ≡ ok bytes

-- With the zero byte that ends it.
unfoldable pub string_to_base64 : Base64 → Text → Result Exception Text
string_to_base64 B s = B.encode (s ++ 0 ∷ [])

unfoldable pub base64_to_string : Base64 → Text → Result Exception Text
base64_to_string B s = B.decode s >>= λ bytes. ok (c_string bytes)

abbrev pub plugin_host_type : Text
plugin_host_type = codes "pluginHost"

abbrev pub mdm_server_type : Text
mdm_server_type = codes "mdmServer"

abbrev pub report_method : Text
report_method = codes "report"

abbrev pub send_event_method : Text
send_event_method = codes "sendEvent"

abbrev pub run_sync_ml_method : Text
run_sync_ml_method = codes "runSyncML"

abbrev pub status_key : Text
status_key = codes "deploymentStatus"

abbrev pub interface_key : Text
interface_key = codes "interfaceName"

abbrev pub event_key : Text
event_key = codes "eventName"

abbrev pub message_key : Text
message_key = codes "messageData"

abbrev pub sid_key : Text
sid_key = codes "sid"

abbrev pub input_key : Text
input_key = codes "inputSyncML"

abbrev pub output_key : Text
output_key = codes "outputSyncML"

unfoldable pub invalid_server_operation : Exception
invalid_server_operation = agent_error 3001 (codes "Invalid MDM server operation.")

unfoldable pub invalid_host_operation : Exception
invalid_host_operation = agent_error 2015 (codes "Invalid raw handler host operation.")

unfoldable pub invalid_host_type : Exception
invalid_host_type = agent_error 2003 (codes "Invalid plugin host target type.")

module _ (J : Json) (B : Base64) (A : AgentServices J) where
  unfoldable pub invoke_run_sync_ml : J.Value → A.State → Call A.State J.Value
  unfolding string_to_base64 base64_to_string
  invoke_run_sync_ml params s = checked (text_member J params sid_key) s (λ sid.
      checked (text_member J params input_key >>= base64_to_string B) s (λ in_sync_ml.
        with_result (A.run_sync_ml sid in_sync_ml s) (λ out_sync_ml.
          string_to_base64 B out_sync_ml >>= λ encoded.
          ok (J.with_member J.empty_object output_key (J.of_text encoded)))))

  unfoldable pub invoke_report : J.Value → A.State → Call A.State J.Value
  invoke_report params s = checked (text_member J params id_key) s (λ id.
      checked (text_member J params status_key >>= status_from_string) s (λ status.
        checked (or_logic_error (J.member params value_key)) s
          (λ value. with_result (A.report id status value s) (λ u. ok J.null))))

  unfoldable pub invoke_send_event : J.Value → A.State → Call A.State J.Value
  invoke_send_event params s = checked (text_member J params interface_key) s (λ interface_name.
      checked (text_member J params event_key) s (λ event_name.
        checked (or_logic_error (J.member params message_key)) s (λ event_data.
          with_result (A.send_event interface_name event_name event_data s) (λ u. ok J.null))))

  -- AgentStub::ReverseInvoke of the four arguments.
  unfoldable pub agent_operation : Request J.Value → A.State → Call A.State J.Value
  unfolding invoke_run_sync_ml invoke_report invoke_send_event
  agent_operation r s =
      if text_eq r.target_type mdm_server_type
      then (if text_eq r.target_method run_sync_ml_method
          then invoke_run_sync_ml r.target_parameters s
          else throws invalid_server_operation s)
      else if text_eq r.target_type plugin_host_type
      then (if text_eq r.target_method report_method
          then invoke_report r.target_parameters s
          else if text_eq r.target_method send_event_method
          then invoke_send_event r.target_parameters s
          else throws invalid_host_operation s)
      else throws invalid_host_type s

  -- The function that the agent gives its plug-ins.
  abbrev pub agent_entry : EntryPoint A.State
  agent_entry = entry_point J agent_operation

module _ (J : Json) where
  -- AgentBinaryProxy::ReverseInvoke, with the function that the agent has set.
  unfoldable pub reverse_invoke {ℓ} : {S : Type ℓ} → EntryPoint S → Text → S → Call S J.Value
  unfolding answered
  reverse_invoke agent_reverse_invoke json s =
      let (s', a) = agent_reverse_invoke (c_string json) s in
      record { state = s'; outcome = answered J (codes "AgentReverseInvoke") a }

  unfoldable pub report_object : Text → Text → J.Value → J.Value
  report_object id status value =
      let named = J.with_member J.empty_object id_key (J.of_text id) in
      J.with_member (J.with_member named status_key (J.of_text status)) value_key value

  unfoldable pub event_object : Text → Text → J.Value → J.Value
  event_object id event_name value =
      let named = J.with_member J.empty_object interface_key (J.of_text id) in
      J.with_member (J.with_member named event_key (J.of_text event_name)) message_key value

  unfoldable pub sync_ml_object : Text → Text → J.Value
  sync_ml_object sid encoded =
      J.with_member (J.with_member J.empty_object sid_key (J.of_text sid)) input_key
        (J.of_text encoded)

  module _ {ℓ} {S : Type ℓ} (entry : EntryPoint S) where
    -- A call of a service of the agent.
    abbrev pub ask_agent : Text → Text → J.Value → S → Call S J.Value
    ask_agent target_type method params s =
        let request : Request J.Value = record {
          target_type = target_type;
          target_id = [];
          target_method = method;
          target_parameters = params;
        } in
        reverse_invoke entry (build_request J request) s

    -- RawHandlerHostProxy.
    unfoldable pub host_report : Text → DeploymentStatus → J.Value → S → Call S (Unit {0})
    unfolding report_object
    host_report id status value s = checked (status_to_string status) s (λ text.
        with_result (ask_agent plugin_host_type report_method (report_object id text value) s)
          (λ v. ok tt))

    unfoldable pub host_send_event : Text → Text → J.Value → S → Call S (Unit {0})
    unfolding event_object
    host_send_event id event_name value s =
        with_result
          (ask_agent plugin_host_type send_event_method (event_object id event_name value) s)
          (λ v. ok tt)

    -- MdmServerProxy::RunSyncML.
    unfoldable pub server_run_sync_ml : Base64 → Text → Text → S → Call S Text
    unfolding string_to_base64 base64_to_string sync_ml_object
    server_run_sync_ml B sid sync_ml s = checked (string_to_base64 B sync_ml) s (λ encoded.
        with_result (ask_agent mdm_server_type run_sync_ml_method (sync_ml_object sid encoded) s)
          (λ payload. text_member J payload output_key >>= base64_to_string B))
