-- ===== src/Reporting/Handler.antt =====
-- HandlerBase.cpp, the base class of the handlers, and the JSON objects of ReportedError.cpp and
-- ReportedErrorList.cpp that it reports.
use azure_client_tools.Base.{
  Bool, false, [], ◌∷◌, Text, codes, c_string, Map, ◌==◌, if◌then◌else◌, Result, ok, err,
}
use azure_client_tools.Json.{Json}
use azure_client_tools.Reporting.{DeploymentStatus, not_started, pending, Exception}
use azure_client_tools.Reporting.Errors.{ReportedError, ErrorList, count_errors, final_status}
use azure_client_tools.Reporting.MetaData.{
  MetaData, new_meta_data, set_deployment_id, set_meta_status, meta_to_json, meta_property_to_json,
  meta_key, unspecified, deployment_status_key,
}
use azure_client_tools.Reporting.Operation.{logic_error, refreshing}
use azure_client_tools.Reporting.Schema.{ReportedSchema}

pub record HandlerBase (V : Type 0) : Type 0 where
  pub id : Text
  pub is_configured : Bool
  pub reported_schema : ReportedSchema
  pub handler_config : V
  pub meta_data : MetaData
  pub deployment_status_json : V

-- IRawHandlerHost::Report of a host with a state: the new state, and what the call returned or threw.
abbrev pub Reporter {ℓ} : Type 0 → Type ℓ → Type ℓ
Reporter V S = Text → DeploymentStatus → V → S → S × Result Exception (Unit {0})

-- The handler, the reported object and the host after a report.
pub record Finished {ℓ} (V : Type 0) (S : Type ℓ) : Type ℓ where
  pub handler : HandlerBase V
  pub host : S
  pub outcome : Result Exception V

abbrev pub errors_key : Text
errors_key = codes "__errors"

module _ (J : Json) where
  parameters_to_json : Map Text → J.Value → J.Value
  parameters_to_json [] object = object
  parameters_to_json ((name, value) ∷ m) object =
      parameters_to_json m (J.with_member object (c_string name) (J.of_text (c_string value)))

  unfoldable pub error_to_json : ReportedError → J.Value
  unfolding parameters_to_json
  error_to_json e =
      let placed = J.with_member J.empty_object (codes "subsystem") (J.of_text e.subsystem) in
      let named = J.with_member placed (codes "context") (J.of_text e.context) in
      let coded = J.with_member named (codes "code") (J.of_int e.code) in
      let told = J.with_member coded (codes "message") (J.of_text e.message) in
      J.with_member told (codes "parameters") (parameters_to_json e.parameters J.empty_object)

  errors_to_json : ErrorList → J.Value → J.Value
  unfolding error_to_json
  errors_to_json [] object = object
  errors_to_json ((id, e) ∷ m) object = errors_to_json m (J.with_member object id (error_to_json e))

  -- ReportedErrorList::ToJsonObject: null for no errors.
  unfoldable pub error_list_to_json : ErrorList → J.Value
  unfolding errors_to_json count_errors
  error_list_to_json errors =
      if count_errors errors == 0 then J.null else errors_to_json errors J.empty_object

  -- `object[key] = x` on any value: null becomes an object.
  abbrev pub object_to_set : J.Value → Result Exception J.Value
  object_to_set v =
      if J.is_null v then ok J.empty_object else if J.is_object v then ok v else err logic_error

  -- SetDeploymentStatus.
  unfoldable pub set_handler_status :
      Text → DeploymentStatus → HandlerBase J.Value → HandlerBase J.Value
  unfolding set_meta_status meta_property_to_json
  set_handler_status now status h =
      let meta = set_meta_status now status h.meta_data in
      record h {
        meta_data = meta;
        deployment_status_json =
            J.with_member J.empty_object meta_key
              (meta_property_to_json J deployment_status_key meta);
      }

  -- The constructor.
  unfoldable pub new_handler : Text → Text → ReportedSchema → HandlerBase J.Value
  unfolding set_handler_status new_meta_data set_deployment_id
  new_handler now id reported_schema = set_handler_status now not_started (record {
    id = id;
    is_configured = false;
    reported_schema = reported_schema;
    handler_config = J.null;
    meta_data = set_deployment_id now unspecified new_meta_data;
    deployment_status_json = J.null;
  })

  unfoldable pub set_handler_config : J.Value → HandlerBase J.Value → HandlerBase J.Value
  set_handler_config config h = record h { handler_config = config }

  -- The members that FinalizeAndReport adds.
  unfoldable pub finished_object : MetaData → ErrorList → J.Value → J.Value
  unfolding meta_to_json error_list_to_json
  finished_object meta errors object =
      J.with_member (J.with_member object meta_key (meta_to_json J meta)) errors_key
        (error_list_to_json errors)

  module _ {ℓ} {S : Type ℓ} (report : Reporter J.Value S) where
    unfoldable pub send_finished :
        HandlerBase J.Value → DeploymentStatus → J.Value → S → Finished J.Value S
    send_finished h status object s =
        let (s', sent) = report (c_string h.id) status object s in
        record { handler = h; host = s'; outcome = elim sent [ ok u ↦ ok object | err e ↦ err e ] }

    -- The outcome is the reported object.
    unfoldable pub finalize_and_report :
        Text → J.Value → ErrorList → HandlerBase J.Value → S → Finished J.Value S
    unfolding send_finished finished_object final_status set_meta_status
    finalize_and_report now reported errors h s =
        let status = final_status errors in
        let meta = set_meta_status now status h.meta_data in
        let h' = record h { meta_data = meta } in
        elim (object_to_set reported) [
          | ok object ↦ send_finished h' status (finished_object meta errors object) s
          | err e ↦ record { handler = h'; host = s; outcome = err e }
        ]

    unfoldable pub report_refreshing : HandlerBase J.Value → S → S × Result Exception (Unit {0})
    report_refreshing h s = report (c_string h.id) pending (J.of_text refreshing) s

  -- HandlerBase::SendEvent.
  unfoldable pub send_handler_event {ℓ κ} :
      {S : Type ℓ} {A : Type κ}
      → (Text → Text → J.Value → S → A)
      → Text
      → J.Value
      → HandlerBase J.Value
      → S
      → A
  send_handler_event send_event event_name event h s = send_event (c_string h.id) event_name event s
