-- ===== src/Host/Calls.antt =====
-- InvokeHandler, OnDeviceTwinReceived and OnDirectMethodInvoked of AzureRawHost.
--
-- A handler reports through Report while it is invoked or from a thread of its own; here such a report
-- is a call of `report` between the calls below. `assert` is not modelled.
pub mod Routing
pub mod Processed
pub mod Twins
use azure_client_tools.Base.{
  ℕ, ◌≡◌, Bool, true, false, not, ◌&&◌, List, [], ◌∷◌, Option, none, some, Text, text_eq, Map,
  lookup, insert, length, Result, ok, err, if◌then◌else◌, ℤ, pos, negsuc, codes, ◌==◌,
}
use azure_client_tools.Json.{Json}
use azure_client_tools.Reporting.{DeploymentStatus, pending, failed, Exception}
use azure_client_tools.Reporting.Operation.{has_key, logic_error}
use azure_client_tools.Host.{
  Handlers, Called, Hub, RawHandlerInfo, AzureRawHost, InvokeResult, new_invoke_result,
  InvokeHandlerResult,
}
use azure_client_tools.Host.Messages.{Stepped, mark_status}

-- JsonDirectMethodFailureCode.
abbrev pub failure_code : ℤ
failure_code = pos 400

unfoldable pub not_found_payload : Text
not_found_payload = codes "{ \"message\": \"Handler not found.\" }"

unfoldable pub not_active_payload : Text
not_active_payload = codes "{ \"message\": \"Handler not active.\" }"

unfoldable pub is_one_of : Text → List Text → Bool
is_one_of k [] = false
is_one_of k (x ∷ xs) = if text_eq k x then true else is_one_of k xs

-- What InvokeHandler returns where nothing was invoked, or the invocation threw.
abbrev pub not_invoked : Bool → Bool → InvokeHandlerResult
not_invoked found active = record {
  found = found;
  active = active;
  invoke_result = new_invoke_result;
}

abbrev pub result_of : Result Exception InvokeResult → InvokeResult
result_of (ok r) = r
result_of (err e) = new_invoke_result

module _ (J : Json) (P : Handlers J) (hub : Hub) where
  open P use {Handler, invoke}

  abbrev Host : Type 0
  Host = AzureRawHost Handler J.Value

  invoke_found : Text → J.Value → RawHandlerInfo Handler → Bool → Host → InvokeHandlerResult × Host
  invoke_found id parameters info false h = (not_invoked true false, h)
  invoke_found id parameters info true h =
      let c = invoke info.raw_handler parameters in
      (
        record { found = true; active = true; invoke_result = result_of c.outcome },
        record h {
          raw_handler_map = insert id (record info { raw_handler = c.handler }) h.raw_handler_map;
        },
      )

  unfoldable pub invoke_handler : Text → J.Value → Host → InvokeHandlerResult × Host
  unfolding invoke_found
  invoke_handler id parameters h = elim (lookup id h.raw_handler_map) [
    | none ↦ (not_invoked false false, h)
    | some info ↦ invoke_found id parameters info info.is_active h
  ]

  abbrev or_null : Option J.Value → J.Value
  or_null none = J.null
  or_null (some v) = v

  -- The loop over the sequence, with the trace "Processing: " of the handlers that it reaches.
  unfoldable pub process_sequence :
      J.Value → List Text → List Text → Host → List (Text × InvokeHandlerResult) × Host
  process_sequence desired names [] h = ([], h)
  process_sequence desired names (key ∷ ks) h =
      let one = invoke_handler key (or_null (J.member desired key)) h in
      let rest = process_sequence desired names ks one.1 in
      let skip = process_sequence desired names ks h in
      if is_one_of key names then ((key, one.0) ∷ rest.0, rest.1) else skip

  nothing_processed : Stepped Host (Unit {0}) → Stepped Host (List (Text × InvokeHandlerResult))
  nothing_processed m = elim m.outcome [
    | ok _ ↦ record { host = m.host; outcome = ok [] }
    | err e ↦ record { host = m.host; outcome = err e }
  ]

  all_processed :
      List (Text × InvokeHandlerResult) × Host → Stepped Host (List (Text × InvokeHandlerResult))
  all_processed (processed, h) = record { host = h; outcome = ok processed }

  -- The part of OnDeviceTwinReceived behind the first MarkStatus.
  apply_desired :
      J.Value → Option (List Text) → Host → Stepped Host (List (Text × InvokeHandlerResult))
  unfolding process_sequence nothing_processed all_processed
  apply_desired desired none h = record { host = h; outcome = err logic_error }
  apply_desired desired (some names) h =
      if length h.raw_handler_sequence == 0 && not (length h.raw_handler_map == 0)
      then nothing_processed (mark_status J P hub desired failed h)
      else all_processed (process_sequence desired names h.raw_handler_sequence h)

  -- The desired properties of a twin; an entire twin holds them under "desired".
  unfoldable pub desired_of : Bool → J.Value → J.Value
  desired_of complete root =
      if complete
      then if has_key J root (codes "desired")
        then or_null (J.member root (codes "desired"))
        else J.null
      else root

  after_marking :
      J.Value → Stepped Host (Unit {0}) → Stepped Host (List (Text × InvokeHandlerResult))
  unfolding apply_desired
  after_marking desired m = elim m.outcome [
    | err e ↦ record { host = m.host; outcome = err e }
    | ok _ ↦ apply_desired desired (J.member_names desired) m.host
  ]

  -- `parsed` is what JsonObjectFromString makes of the payload.
  unfoldable pub on_device_twin_received :
      Bool → Result Exception J.Value → Host → Stepped Host (List (Text × InvokeHandlerResult))
  unfolding after_marking
  on_device_twin_received complete (err e) h = record { host = h; outcome = err e }
  on_device_twin_received complete (ok root) h =
      let desired = desired_of complete root in
      after_marking desired (mark_status J P hub desired pending h)

  -- The code and the payload that go back to the caller.
  pub record Response : Type 0 where
    pub return_code : ℤ
    pub response : Option Text

  unfoldable pub response_of : InvokeHandlerResult → InvokeResult
  response_of r =
      if not r.found
      then record r.invoke_result { payload = not_found_payload; code = failure_code }
      else if not r.active
      then record r.invoke_result { payload = not_active_payload; code = failure_code }
      else r.invoke_result

  unfoldable pub respond : Bool → InvokeResult → Response
  respond allocated r =
      if allocated
      then record { return_code = r.code; response = some r.payload }
      else record { return_code = negsuc 0; response = none }

  -- `allocated` is whether malloc returns a buffer.
  unfoldable pub on_direct_method_invoked :
      Text → Result Exception J.Value → Bool → Host → Stepped Host Response
  unfolding response_of respond
  on_direct_method_invoked name (err e) allocated h = record { host = h; outcome = err e }
  on_direct_method_invoked name (ok parameters) allocated h =
      let (r, h') = invoke_handler name parameters h in
      record { host = h'; outcome = ok (respond allocated (response_of r)) }
