-- ===== src/Remote.antt =====
-- code/device-agent/common/Plugins and code/device-agent/plugin-common: how the agent calls the handlers
-- of a plug-in, and a plug-in its host in the agent, over two functions that exchange texts. Here are
-- the names, the types that both sides share and PluginHelpers.cpp.
mod Requests
mod Responses
mod Stub
mod Plugin
mod Proxy
mod Reverse
mod Texts
mod Transparent
mod Crossing
mod Answers
mod Direct
mod Changed
mod Listing
mod Lifetime
mod Services
mod Reports
mod Finishing
mod Requested
mod Restored
mod Examples
use azure_client_tools.Base.{
  ℕ, Bool, true, false, Option, some, none, Text, text_eq, codes, ℤ, pos, if◌then◌else◌, Result, ok,
  err, ◌>>=◌,
}
use azure_client_tools.Json.{Json}
use azure_client_tools.Host.{InvokeResult}
use azure_client_tools.Reporting.{
  DeploymentStatus, succeeded, not_started, pending, failed, unknown, Exception, dm,
}
use azure_client_tools.Reporting.Schema.{ReportedSchema}

-- How a call leaves the state of what is called, and what it returns or throws.
pub record Call {ℓ κ} (S : Type ℓ) (A : Type κ) : Type (ℓ ⊔ κ) where
  pub state : S
  pub outcome : Result Exception A

abbrev pub returns {ℓ κ} : {S : Type ℓ} {A : Type κ} → A → S → Call S A
returns a s = record { state = s; outcome = ok a }

abbrev pub throws {ℓ κ} : {S : Type ℓ} {A : Type κ} → Exception → S → Call S A
throws e s = record { state = s; outcome = err e }

-- What the caller makes of the result.
abbrev pub with_result {ℓ κ μ} :
    {S : Type ℓ} {A : Type κ} {B : Type μ} → Call S A → (A → Result Exception B) → Call S B
with_result c f = record { state = c.state; outcome = c.outcome >>= f }

-- A call with arguments that may not be readable.
abbrev pub checked {ℓ κ μ} :
    {S : Type ℓ} {A : Type κ} {B : Type μ} → Result Exception A → S → (A → Call S B) → Call S B
checked (ok a) s f = f a
checked (err e) s f = throws e s

-- DMException(DMSubsystem::DeviceAgent, code, message).
abbrev pub agent_error : ℕ → Text → Exception
agent_error code message =
    dm (record { subsystem = codes "DeviceAgent"; code = pos code; message = message })

pub data ConnectionStatus : Type 0 where
  offline online : ConnectionStatus

-- IRawHandler: a handler is a plug-in's, with a state of its own. The outcome of `start` is the flag
-- `active`.
pub record RawHandlers (J : Json) : Type 1 where
  pub Handler : Type 0
  pub get_handler_type : Handler → Result Exception Text
  pub start : Handler → J.Value → Call Handler Bool
  pub stop : Handler → Call Handler (Unit {0})
  pub on_connection_status_changed : Handler → ConnectionStatus → Call Handler (Unit {0})
  pub is_configured : Handler → Result Exception Bool
  pub get_deployment_status : Handler → Result Exception DeploymentStatus
  pub set_deployment_status : Handler → DeploymentStatus → Call Handler (Unit {0})
  pub invoke : Handler → J.Value → Call Handler InvokeResult
  pub get_deployment_status_json : Handler → Result Exception J.Value
  pub get_reported_schema : Handler → Result Exception ReportedSchema

abbrev pub value_key : Text
value_key = codes "value"

abbrev pub result_key : Text
result_key = codes "result"

abbrev pub id_key : Text
id_key = codes "id"

abbrev pub type_key : Text
type_key = codes "type"

abbrev pub method_key : Text
method_key = codes "method"

abbrev pub parameters_key : Text
parameters_key = codes "parameters"

abbrev pub payload_key : Text
payload_key = codes "payload"

abbrev pub succeeded_text : Text
succeeded_text = codes "succeeded"

abbrev pub pending_text : Text
pending_text = codes "pending"

abbrev pub failed_text : Text
failed_text = codes "failed"

abbrev pub offline_text : Text
offline_text = codes "offline"

abbrev pub online_text : Text
online_text = codes "online"

abbrev invalid_status_value : Exception
invalid_status_value = agent_error 1009 (codes "Invalid deployment status value.")

abbrev invalid_status_text : Exception
invalid_status_text = agent_error 1009 (codes "Invalid deployment status string value.")

abbrev invalid_connection_text : Exception
invalid_connection_text = agent_error 1011 (codes "Invalid connection status string value.")

unfoldable pub status_to_string : DeploymentStatus → Result Exception Text
status_to_string succeeded = ok succeeded_text
status_to_string pending = ok pending_text
status_to_string failed = ok failed_text
status_to_string not_started = err invalid_status_value
status_to_string unknown = err invalid_status_value

unfoldable pub status_from_string : Text → Result Exception DeploymentStatus
status_from_string s =
    if text_eq s succeeded_text
    then ok succeeded
    else if text_eq s pending_text
    then ok pending
    else if text_eq s failed_text
    then ok failed
    else err invalid_status_text

unfoldable pub connection_to_string : ConnectionStatus → Text
connection_to_string offline = offline_text
connection_to_string online = online_text

unfoldable pub connection_from_string : Text → Result Exception ConnectionStatus
connection_from_string s =
    if text_eq s offline_text
    then ok offline
    else if text_eq s online_text
    then ok online
    else err invalid_connection_text
