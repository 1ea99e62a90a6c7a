-- ===== src/Host.antt =====
-- code/device-agent/agent/Raw/AzureRawHost.h and AzureRawHost.cpp: the registry of the handlers, which
-- routes desired properties and direct methods to them and reports to the hub. Here are its state and
-- what it depends on.
pub mod Registry
pub mod Messages
pub mod Calls
pub mod Lifecycle
pub mod Sequence
pub mod Examples
use azure_client_tools.Base.{
  ℕ, Bool, true, false, List, [], Option, none, some, Text, Map, Result, ℤ, pos,
}
use azure_client_tools.Json.{Json}
use azure_client_tools.Reporting.{DeploymentStatus, Exception}
use azure_client_tools.Reporting.Summary.{ReportedSummary, new_summary}

-- DMInterfaces.h.
pub record InvokeResult : Type 0 where
  pub is_present : Bool
  pub code : ℤ
  pub payload : Text

unfoldable pub new_invoke_result : InvokeResult
new_invoke_result = record { is_present = false; code = pos 0; payload = [] }

-- A call of a handler: the handler as it is afterwards, and what the call returned or threw.
pub record Called (H A : Type 0) : Type 0 where
  pub handler : H
  pub outcome : Result Exception A

-- IRawHandler and IPlugin: the handlers are plug-ins, with states of their own.
pub record Handlers (J : Json) : Type 1 where
  pub Handler : Type 0
  pub get_id : Handler → Text
  -- The outcome is the flag `active`.
  pub start : Handler → J.Value → Called Handler Bool
  pub stop : Handler → Handler
  pub on_connection_status_changed : Handler → Bool → Called Handler (Unit {0})
  pub set_deployment_status : Handler → DeploymentStatus → Called Handler (Unit {0})
  pub get_deployment_status_json : Handler → Result Exception J.Value
  pub invoke : Handler → J.Value → Called Handler InvokeResult
  pub create_raw_handler : Text → Result Exception Handler

-- What the hub answers to the n-th report, and the time string that goes with it.
pub record Hub : Type 0 where
  pub accepts : ℕ → Bool
  pub now : ℕ → Text

-- RawHandlerInfo; `is_active` is its RawHandlerState.
pub record RawHandlerInfo (H : Type 0) : Type 0 where
  pub is_active : Bool
  pub raw_handler : H
  pub dependencies : List Text

-- `sent` holds the reports that were handed to the hub, in order.
pub record AzureRawHost (H V : Type 0) : Type 0 where
  pub has_device_client : Bool
  pub has_module_client : Bool
  pub reported_sections_summary : ReportedSummary
  pub raw_handler_map : Map (RawHandlerInfo H)
  pub raw_handler_sequence : List Text
  pub sent : List V

-- The constructor.
unfoldable pub new_host : (H V : Type 0) → AzureRawHost H V
unfolding new_summary
new_host H V = record {
  has_device_client = false;
  has_module_client = false;
  reported_sections_summary = new_summary;
  raw_handler_map = [];
  raw_handler_sequence = [];
  sent = [];
}

pub record InvokeHandlerResult : Type 0 where
  pub found : Bool
  pub active : Bool
  pub invoke_result : InvokeResult
