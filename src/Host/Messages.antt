-- ===== src/Host/Messages.antt =====
-- What AzureRawHost reports to the hub: Report, ReportAll and MarkStatus.
pub mod Marking
use azure_client_tools.Base.{
  Bool, true, false, not, ◌||◌, ◌&&◌, List, [], ◌∷◌, ◌++◌, Option, none, some, Text, lookup, insert,
  length, Result, ok, err, if◌then◌else◌, pos, codes,
}
use azure_client_tools.Json.{Json}
use azure_client_tools.Reporting.{DeploymentStatus, unknown, Exception, dm}
use azure_client_tools.Reporting.Summary.{set_section_status, summary_to_json}
use azure_client_tools.Reporting.Operation.{deployment_status_to_string, logic_error}
use azure_client_tools.Host.{Handlers, Hub, RawHandlerInfo, AzureRawHost}

-- A step of the host: its state afterwards, also where the step throws.
pub record Stepped (S A : Type 0) : Type 0 where
  pub host : S
  pub outcome : Result Exception A

unfoldable pub send_failed : Exception
send_failed = dm (record { subsystem = codes "IotHub"; code = pos 0; message = [] })

-- MetaData::DeploymentStatusToJsonObject.
unfoldable pub status_to_json : (J : Json) → DeploymentStatus → J.Value
status_to_json J status =
    J.with_member J.empty_object (codes "deploymentStatus")
      (J.of_text (deployment_status_to_string status))

module _ (J : Json) (P : Handlers J) (hub : Hub) where
  open P use {Handler, get_id, set_deployment_status, get_deployment_status_json}

  abbrev Host : Type 0
  Host = AzureRawHost Handler J.Value

  -- Without a connection nothing is sent, and nothing is thrown.
  unfoldable pub report_all : J.Value → Host → Stepped Host (Unit {0})
  report_all v h =
      if h.has_device_client || h.has_module_client
      then (record {
        host = record h { sent = h.sent ++ v ∷ [] };
        outcome = if hub.accepts (length h.sent) then ok tt else err send_failed;
      })
      else (record { host = h; outcome = ok tt })

  abbrev summary_json : Host → J.Value
  summary_json h = summary_to_json J (hub.now (length h.sent)) h.reported_sections_summary

  unfoldable pub report : Text → DeploymentStatus → J.Value → Host → Stepped Host (Unit {0})
  unfolding report_all
  report id status value h =
      let s = set_section_status id status h.reported_sections_summary in
      let h' = record h { reported_sections_summary = s } in
      report_all (J.with_member (J.with_member J.empty_object s.id (summary_json h')) id value) h'

  -- What the `try` block of MarkStatus does to one handler, and the section's status and JSON.
  pub record Marked : Type 0 where
    pub handler : Handler
    pub status : DeploymentStatus
    pub json : J.Value

  marked_json : Handler → DeploymentStatus → Result Exception J.Value → Marked
  marked_json handler status (ok v) = record { handler = handler; status = status; json = v }
  marked_json handler status (err e) = record {
    handler = handler;
    status = unknown;
    json = status_to_json J unknown;
  }

  marked_after : Handler → DeploymentStatus → Result Exception (Unit {0}) → Marked
  unfolding marked_json
  marked_after handler status (ok _) =
      marked_json handler status (get_deployment_status_json handler)
  marked_after handler status (err e) = record {
    handler = handler;
    status = unknown;
    json = status_to_json J unknown;
  }

  unfoldable pub mark_handler : DeploymentStatus → Handler → Marked
  unfolding marked_after
  mark_handler status handler =
      let c = set_deployment_status handler status in marked_after c.handler status c.outcome

  unfoldable pub mark_found :
      DeploymentStatus → Text → RawHandlerInfo Handler → Bool → J.Value → Host → J.Value × Host
  mark_found status key info false reported h = (reported, h)
  mark_found status key info true reported h =
      let id = get_id info.raw_handler in
      let m = mark_handler status info.raw_handler in
      (
        J.with_member reported id m.json,
        record h {
          reported_sections_summary = set_section_status id m.status h.reported_sections_summary;
          raw_handler_map = insert key (record info { raw_handler = m.handler }) h.raw_handler_map;
        },
      )

  -- The configuration under a key counts if it is an object.
  abbrev is_config : Option J.Value → Bool
  is_config none = false
  is_config (some v) = not (J.is_null v) && J.is_object v

  unfoldable pub mark_one : J.Value → DeploymentStatus → Text → J.Value → Host → J.Value × Host
  unfolding mark_found
  mark_one desired status key reported h = elim (lookup key h.raw_handler_map) [
    | none ↦ (reported, h)
    | some info ↦ mark_found status key info (is_config (J.member desired key)) reported h
  ]

  unfoldable pub mark_keys :
      J.Value → DeploymentStatus → List Text → J.Value → Host → J.Value × Host
  unfolding mark_one
  mark_keys desired status [] reported h = (reported, h)
  mark_keys desired status (key ∷ ks) reported h =
      let (reported', h') = mark_one desired status key reported h in
      mark_keys desired status ks reported' h'

  unfoldable pub mark_names :
      J.Value → DeploymentStatus → Option (List Text) → Host → Stepped Host (Unit {0})
  mark_names desired status none h = record { host = h; outcome = err logic_error }
  mark_names desired status (some ks) h =
      let (reported, h') = mark_keys desired status ks J.empty_object h in
      report_all (J.with_member reported h'.reported_sections_summary.id (summary_json h')) h'

  unfoldable pub mark_status : J.Value → DeploymentStatus → Host → Stepped Host (Unit {0})
  unfolding mark_names mark_keys report_all
  mark_status desired status h = mark_names desired status (J.member_names desired) h
