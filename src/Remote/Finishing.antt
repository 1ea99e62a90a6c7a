-- ===== src/Remote/Finishing.antt =====
-- What a handler reports when it is done, from a plug-in and from within the agent.
use azure_client_tools.Base.{
  ◌≡◌, refl, ap, ◌∙◌, true, [], ◌∷◌, some, Text, text_eq, c_string, ◌==◌, Result, ok, err, inl, inr,
  Bool-cases, ◌↔◌, arith,
}
use azure_client_tools.Json.Objects.{member-object_of}
use azure_client_tools.Json.{Json, IsLawful}
use azure_client_tools.Remote.Crossing.{crossing_status}
use azure_client_tools.Remote.Reports.{report_lem}
use azure_client_tools.Remote.Reverse.{AgentServices, Base64, agent_entry, host_report}
use azure_client_tools.Remote.{Call, checked, status_to_string}
use azure_client_tools.Reporting.Errors.{ErrorList, final_status, count_errors}
use azure_client_tools.Reporting.Handler.{
  HandlerBase, Reporter, Finished, errors_key, object_to_set, finished_object, send_finished,
  finalize_and_report, report_refreshing, error_list_to_json,
}
use azure_client_tools.Reporting.MetaData.{
  MetaData, meta_key, meta_to_json, set_meta_status, deployment_status_key, deployment_id_key,
  time_key, device_version_key,
}
use azure_client_tools.Reporting.Operation.{deployment_status_to_string}
use azure_client_tools.Reporting.{DeploymentStatus, succeeded, pending, Exception}

-- Report as a handler in the agent calls it, and as a handler of a plug-in does.
abbrev pub from_agent : (J : Json) → (A : AgentServices J) → Reporter J.Value A.State
from_agent J A id status value s = let c = A.report id status value s in (c.state, c.outcome)

abbrev pub from_plugin : (J : Json) → Base64 → (A : AgentServices J) → Reporter J.Value A.State
from_plugin J B A id status value s =
    let c = host_report J (agent_entry J B A) id status value s in (c.state, c.outcome)

module _ (J : Json) (laws : IsLawful J) (B : Base64) (A : AgentServices J) where
  from_plugin-crosses :
      (id : Text) (status : DeploymentStatus) (value : J.Value) (s : A.State)
      → crossing_status status ≡ ok status
      → from_plugin J B A id status value s ≡ from_agent J A id status value s
  from_plugin-crosses id status value s crosses =
      let parts : Call A.State (Unit {0}) → A.State × Result Exception (Unit {0}) =
        λ c. (c.state, c.outcome) in
      ap parts (
        report_lem J laws B A id status value s
        ∙ ap (λ o. checked o s (λ st. A.report id st value s)) crosses)

  final_status-crosses :
      (errors : ErrorList) → crossing_status (final_status errors) ≡ ok (final_status errors)
  unfolding final_status crossing_status status_to_string
  final_status-crosses errors = elim (Bool-cases (count_errors errors == 0)) [
    | inl e ↦ rw e refl
    | inr e ↦ rw e refl
  ]

  send_finished-crosses :
      (h : HandlerBase J.Value) (status : DeploymentStatus) (object : J.Value) (s : A.State)
      → crossing_status status ≡ ok status
      → send_finished J (from_plugin J B A) h status object s
        ≡ send_finished J (from_agent J A) h status object s
  unfolding send_finished
  send_finished-crosses h status object s crosses =
      let finished : A.State × Result Exception (Unit {0}) → Finished J.Value A.State = λ r.
        record {
          handler = h;
          host = r.0;
          outcome = elim (r.1) [ ok u ↦ ok object | err e ↦ err e ];
        } in
      ap finished (from_plugin-crosses (c_string h.id) status object s crosses)

  -- What follows the check of the reported object.
  finalized :
      Reporter J.Value A.State
      → HandlerBase J.Value
      → ErrorList
      → A.State
      → Result Exception J.Value
      → Finished J.Value A.State
  finalized report h errors s (ok object) =
      send_finished J report h (final_status errors) (finished_object J h.meta_data errors object) s
  finalized report h errors s (err e) = record { handler = h; host = s; outcome = err e }

  finalized_same :
      (h : HandlerBase J.Value) (errors : ErrorList) (s : A.State) (o : Result Exception J.Value)
      → finalized (from_plugin J B A) h errors s o ≡ finalized (from_agent J A) h errors s o
  unfolding finalized
  finalized_same h errors s (ok object) =
      send_finished-crosses h (final_status errors) (finished_object J h.meta_data errors object) s
        (final_status-crosses errors)
  finalized_same h errors s (err e) = refl

  finalize_and_report-finalized :
      (report : Reporter J.Value A.State) (now : Text) (reported : J.Value) (errors : ErrorList)
      (h : HandlerBase J.Value) (s : A.State) (o : Result Exception J.Value)
      → object_to_set J reported ≡ o
      → finalize_and_report J report now reported errors h s
        ≡ finalized report
            (record h { meta_data = set_meta_status now (final_status errors) h.meta_data })
            errors
            s
            o
  unfolding finalize_and_report finalized
  finalize_and_report-finalized report now reported errors h s (ok object) e =
      rw (e, finalize_and_report) refl
  finalize_and_report-finalized report now reported errors h s (err x) e =
      rw (e, finalize_and_report) refl

  final_status-none : (errors : ErrorList) → (final_status errors ≡ succeeded) ↔ (errors ≡ [])
  unfolding final_status count_errors
  final_status-none [] = (λ e. refl, λ e. refl)
  final_status-none (e ∷ errors) = (λ h. ground (arith, h), λ h. cc)

  object_to_set-object : (v : J.Value) → J.is_object v ≡ true → object_to_set J v ≡ ok v
  object_to_set-object v h = rw (laws.object_not_null v h, h) refl

  refreshing-crosses :
      (h : HandlerBase J.Value) (s : A.State)
      → report_refreshing J (from_plugin J B A) h s ≡ report_refreshing J (from_agent J A) h s
  unfolding report_refreshing crossing_status status_to_string
  refreshing-crosses h s = from_plugin-crosses (c_string h.id) pending _ s refl

  status_member :
      (m : MetaData)
      → J.member (meta_to_json J m) deployment_status_key
        ≡ some (J.of_text (deployment_status_to_string m.deployment_status))
  unfolding meta_to_json text_eq
  status_member m =
      member-object_of J laws
        ((device_version_key, J.of_text m.device_interface_version)
          ∷ (time_key, J.of_text m.time_stamp)
          ∷ (deployment_status_key, J.of_text (deployment_status_to_string m.deployment_status))
          ∷ (deployment_id_key, J.of_text m.deployment_id)
          ∷ [])
        deployment_status_key

  finished_members :
      (m : MetaData) (errors : ErrorList) (v : J.Value)
      → J.is_object v ≡ true
      → (J.member (finished_object J m errors v) meta_key ≡ some (meta_to_json J m))
        × (J.member (finished_object J m errors v) errors_key ≡ some (error_list_to_json J errors))
  unfolding finished_object text_eq
  finished_members m errors v h =
      let e = error_list_to_json J errors in
      let with_meta = J.with_member v meta_key (meta_to_json J m) in
      let is_object = laws.with_member_is_object v (meta_to_json J m) meta_key h in
      (
        laws.member_set with_meta e meta_key errors_key is_object
            ∙ laws.member_set v (meta_to_json J m) meta_key meta_key h,
        laws.member_set with_meta e errors_key errors_key is_object,
      )

  -- FinalizeAndReport of a handler in a plug-in, given an object, does what it does for a handler within
  -- the agent, since its status is succeeded or failed and crosses, and so does ReportRefreshing; what is
  -- reported holds the metadata of the handler with that status, which is succeeded exactly when there are no errors, and
  -- the errors.
  pub finalize_and_report-crosses :
      (now : Text) (reported : J.Value) (errors : ErrorList) (h : HandlerBase J.Value) (s : A.State)
      → J.is_object reported ≡ true
      → let meta = set_meta_status now (final_status errors) h.meta_data in
        let object = finished_object J meta errors reported in
        (finalize_and_report J (from_plugin J B A) now reported errors h s
          ≡ send_finished J
              (from_agent J A)
              (record h { meta_data = meta })
              (final_status errors)
              object
              s)
        × (report_refreshing J (from_plugin J B A) h s ≡ report_refreshing J (from_agent J A) h s)
        × (J.member object meta_key ≡ some (meta_to_json J meta))
        × (J.member (meta_to_json J meta) deployment_status_key
            ≡ some (J.of_text (deployment_status_to_string (final_status errors))))
        × ((final_status errors ≡ succeeded) ↔ (errors ≡ []))
        × (J.member object errors_key ≡ some (error_list_to_json J errors))
  unfolding finalized set_meta_status
  finalize_and_report-crosses now reported errors h s is_object =
      let meta = set_meta_status now (final_status errors) h.meta_data in
      let h' : HandlerBase J.Value = record h { meta_data = meta } in
      let members = finished_members meta errors reported is_object in
      (
        finalize_and_report-finalized (from_plugin J B A) now reported errors h s (ok reported)
              (object_to_set-object reported is_object)
            ∙ finalized_same h' errors s (ok reported),
        refreshing-crosses h s,
        members.0,
        status_member meta,
        final_status-none errors,
        members.1,
      )
