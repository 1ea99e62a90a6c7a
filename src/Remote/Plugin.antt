-- ===== src/Remote/Plugin.antt =====
-- PluginStub.cpp and PluginExports.h, the plug-in's end of a call, and PluginBinaryProxy.cpp, the agent's
-- end for a plug-in in its own process.
use azure_client_tools.Base.{
  zero, suc, Option, none, some, Text, text_eq, codes, c_string, ◌++◌, ℤ, pos, negsuc,
  if◌then◌else◌, Result, ok, err,
}
use azure_client_tools.Json.{Json}
use azure_client_tools.Plugins.{Request, host_type, raw_type, create_raw_handler}
use azure_client_tools.Remote.Requests.{build_request, request_from_json_string}
use azure_client_tools.Remote.Responses.{
  CrossBinaryResponse, create_from_exception, create_from_success, response_to_json,
  payload_from_json_string,
}
use azure_client_tools.Remote.Stub.{
  Stub, result_object, handlers_info, create_handler, destroy_handler, route_to_handler,
}
use azure_client_tools.Remote.{Call, returns, throws, checked, agent_error, RawHandlers}
use azure_client_tools.Reporting.{Exception, dm}

-- What a function of the other side returns: its code, and the buffer that it allocates.
pub record Answer : Type 0 where
  pub ret_code : ℤ
  pub buffer : Option Text

-- PluginInvokePtr and PluginReverseInvokePtr, called with pointers that are not null.
abbrev pub EntryPoint {ℓ} : Type ℓ → Type ℓ
EntryPoint S = Text → S → S × Answer

abbrev pub handlers_info_method : Text
handlers_info_method = codes "getHandlersInfo"

abbrev pub destroy_raw_handler : Text
destroy_raw_handler = codes "destroyRawHandler"

unfoldable pub unknown_host_operation : Exception
unknown_host_operation = agent_error 2004 (codes "Unknown host operation.")

unfoldable pub unknown_target_type : Exception
unknown_target_type = agent_error 2002 (codes "Unknown host operation.")

unfoldable pub missing_entry_point : Exception
missing_entry_point = agent_error 2000 (codes "Failed to find entry point PluginInvoke.")

unfoldable pub error_returned : Text → ℤ → Exception
error_returned function code = dm (record {
  subsystem = codes "DeviceAgent";
  code = code;
  message = function ++ codes " returned error.";
})

unfoldable pub no_buffer : Text → Exception
no_buffer function = agent_error 2001 (function ++ codes " returned invalid buffer.")

module _ (J : Json) where
  unfoldable pub response_for : Result Exception J.Value → CrossBinaryResponse J.Value
  response_for (ok v) = create_from_success J v
  response_for (err e) = create_from_exception J e

  unfoldable pub response_text : Result Exception J.Value → Text
  unfolding response_for
  response_text r = J.to_styled_string (response_to_json J (response_for r))

  -- PluginStub::Invoke and AgentStub::ReverseInvoke of a text: they differ in the operation.
  unfoldable pub invoke_text {ℓ} :
      {S : Type ℓ} → (Request J.Value → S → Call S J.Value) → Text → S → S × Text
  unfolding response_text
  invoke_text operation input s =
      let c = checked (request_from_json_string J input) s (λ r. operation r s) in
      (c.state, response_text c.outcome)

  -- PluginInvoke and AgentStub::ReverseInvoke of the two pointers.
  unfoldable pub entry_point {ℓ} :
      {S : Type ℓ} → (Request J.Value → S → Call S J.Value) → EntryPoint S
  unfolding invoke_text
  entry_point operation input s =
      let (s', text) = invoke_text operation (c_string input) s in
      (s', record { ret_code = pos 0; buffer = some text })

  -- What the caller makes of an answer; `function` is the name that it gives the function.
  unfoldable pub answered : Text → Answer → Result Exception J.Value
  answered function a =
      let at_code : ℤ → Result Exception J.Value = λ code. elim code [
        | pos n ↦ elim n [
          | zero ↦ elim a.buffer [
            | none ↦ err (no_buffer function)
            | some text ↦ payload_from_json_string J (c_string text)
          ]
          | suc m ↦ err (error_returned function (pos (suc m)))
        ]
        | negsuc n ↦ err (error_returned function (negsuc n))
      ] in
      at_code a.ret_code

  -- PluginBinaryProxy::Invoke; `none` is a library without the function.
  unfoldable pub binary_invoke {ℓ} :
      {S : Type ℓ} → Option (EntryPoint S) → Request J.Value → S → Call S J.Value
  unfolding answered
  binary_invoke none r s = throws missing_entry_point s
  binary_invoke (some plugin_invoke) r s =
      let (s', a) = plugin_invoke (c_string (build_request J r)) s in
      record { state = s'; outcome = answered (codes "PluginInvoke") a }

  module _ (R : RawHandlers J) where
    -- The functions that Initialize registers.
    unfoldable pub host_function : Text → J.Value → Stub R.Handler → Call (Stub R.Handler) J.Value
    host_function method params st =
        if text_eq method handlers_info_method
        then returns (result_object J (J.of_array (handlers_info J st))) st
        else if text_eq method create_raw_handler
        then create_handler J R params st
        else if text_eq method destroy_raw_handler
        then destroy_handler J R params st
        else throws unknown_host_operation st

    unfoldable pub plugin_operation :
        Request J.Value → Stub R.Handler → Call (Stub R.Handler) J.Value
    unfolding host_function
    plugin_operation r st =
        if text_eq r.target_type host_type
        then host_function r.target_method r.target_parameters st
        else if text_eq r.target_type raw_type
        then route_to_handler J R r.target_id r.target_method r.target_parameters st
        else throws unknown_target_type st

    -- A call of a plug-in in the agent's process.
    abbrev pub remote_call : Request J.Value → Stub R.Handler → Call (Stub R.Handler) J.Value
    remote_call = binary_invoke (some (entry_point plugin_operation))
