-- ===== src/Remote/Reports.antt =====
-- What a plug-in asks of the agent is done by the agent's services.
use azure_client_tools.Base.{
  ◌≡◌, refl, sym, ap, ◌∙◌, Text, text_eq, c_string, Result, ok, err, ◌>>=◌,
}
use azure_client_tools.Json.{Json, IsLawful}
use azure_client_tools.Remote.Crossing.{crossing_status}
use azure_client_tools.Remote.Requests.{text_member}
use azure_client_tools.Remote.Reverse.{
  AgentServices, Base64, IsInverse, string_to_base64, base64_to_string, agent_operation,
  agent_entry, ask_agent, host_report, host_send_event, server_run_sync_ml, plugin_host_type,
  mdm_server_type, report_method, run_sync_ml_method, output_key, report_object, sync_ml_object,
}
use azure_client_tools.Remote.{
  with_result, checked, status_to_string, status_from_string, succeeded_text, pending_text,
  failed_text,
}
use azure_client_tools.Reporting.{
  DeploymentStatus, succeeded, not_started, pending, failed, unknown, Exception,
}
use azure_client_tools.Remote.Services.{
  reverse_invoke-entry_point, base64_to_string-string_to_base64, invoke_report-object,
  invoke_send_event-object, invoke_run_sync_ml-object,
}

module _ (J : Json) (laws : IsLawful J) (B : Base64) (A : AgentServices J) where
  pub report_lem :
      (id : Text) (status : DeploymentStatus) (value : J.Value) (s : A.State)
      → host_report J (agent_entry J B A) id status value s
        ≡ checked (crossing_status status) s (λ st. A.report id st value s)
  unfolding host_report agent_operation crossing_status status_to_string status_from_string text_eq
  report_lem id status value s = by_status status
    where
      by :
          (st : DeploymentStatus) (text : Text)
          → status_from_string text ≡ ok st
          → with_result
              (ask_agent J
                (agent_entry J B A)
                plugin_host_type
                report_method
                (report_object J id text value)
                s)
              (λ v. ok tt)
            ≡ A.report id st value s
      by st text e =
          ap (λ c. with_result c (λ v. ok tt))
            (reverse_invoke-entry_point J laws (agent_operation J B A) _ s)
          ∙ invoke_report-object J laws B A id text st value s e

      by_status :
          (st : DeploymentStatus)
          → host_report J (agent_entry J B A) id st value s
            ≡ checked (crossing_status st) s (λ st'. A.report id st' value s)
      by_status succeeded = by succeeded succeeded_text refl
      by_status not_started = refl
      by_status pending = by pending pending_text refl
      by_status failed = by failed failed_text refl
      by_status unknown = refl

  send_event_lem :
      (id event_name : Text) (value : J.Value) (s : A.State)
      → host_send_event J (agent_entry J B A) id event_name value s
        ≡ A.send_event id event_name value s
  unfolding host_send_event agent_operation text_eq
  send_event_lem id event_name value s =
      ap (λ c. with_result c (λ v. ok tt))
        (reverse_invoke-entry_point J laws (agent_operation J B A) _ s)
      ∙ invoke_send_event-object J laws B A id event_name value s

  run_sync_ml_as :
      (inverse : IsInverse B) (sid sync_ml : Text) (s : A.State) (o : Result Exception Text)
      → string_to_base64 B sync_ml ≡ o
      → checked o s (λ encoded.
        with_result
          (ask_agent J
            (agent_entry J B A)
            mdm_server_type
            run_sync_ml_method
            (sync_ml_object J sid encoded)
            s)
          (λ payload. text_member J payload output_key >>= base64_to_string B))
        ≡ with_result (A.run_sync_ml sid (c_string sync_ml) s) (λ out. ok (c_string out))
  unfolding agent_operation text_eq
  run_sync_ml_as inverse sid sync_ml s (ok encoded) e =
      ap (λ c. with_result c (λ payload. text_member J payload output_key >>= base64_to_string B))
        (reverse_invoke-entry_point J laws (agent_operation J B A) _ s)
      ∙ invoke_run_sync_ml-object J laws B A inverse sid sync_ml encoded s e
  run_sync_ml_as inverse sid sync_ml s (err x) e =
      let no : err x ≡ ok (c_string sync_ml) =
        ap (λ o. o >>= base64_to_string B) (sym e)
        ∙ base64_to_string-string_to_base64 B sync_ml inverse in
      cc

  -- A report of a plug-in reaches the agent's Report as it is when its status is succeeded, pending or
  -- failed, and with another status throws without reaching it; SendEvent of a plug-in is the agent's
  -- SendEvent; RunSyncML of a plug-in is that of the agent's server on the texts up to their first
  -- zero byte, provided that Base64 decodes what it encoded.
  pub services_same :
      (id event_name sid sync_ml : Text) (status : DeploymentStatus) (value : J.Value) (s : A.State)
      → IsInverse B
      → (host_report J (agent_entry J B A) id status value s
          ≡ checked (crossing_status status) s (λ st. A.report id st value s))
        × (host_send_event J (agent_entry J B A) id event_name value s
            ≡ A.send_event id event_name value s)
        × (server_run_sync_ml J (agent_entry J B A) B sid sync_ml s
            ≡ with_result (A.run_sync_ml sid (c_string sync_ml) s) (λ out. ok (c_string out)))
  unfolding server_run_sync_ml
  services_same id event_name sid sync_ml status value s inverse = (
    report_lem id status value s,
    send_event_lem id event_name value s,
    run_sync_ml_as inverse sid sync_ml s (string_to_base64 B sync_ml) refl,
  )
