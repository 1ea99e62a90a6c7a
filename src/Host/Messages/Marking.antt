-- ===== src/Host/Messages/Marking.antt =====
-- Which handlers MarkStatus calls.
use azure_client_tools.Base.{
  ◌≡◌, refl, ap, ◌∙◌, inl, inr, Bool, true, false, List, [], ◌∷◌, some, arith, Text, text_eq,
  lookup, lookup-insert, Option-cases, Bool-cases, ◌||◌,
}
use azure_client_tools.Json.{Json}
use azure_client_tools.Reporting.{DeploymentStatus}
use azure_client_tools.Host.{Handlers, Hub, RawHandlerInfo, AzureRawHost}
use azure_client_tools.Host.Messages.{
  mark_status, mark_names, mark_keys, mark_one, mark_found, mark_handler, is_config, summary_json,
  report_all,
}
use azure_client_tools.Host.Calls.{is_one_of}

module _ (J : Json) (P : Handlers J) (hub : Hub) where
  open P use {Handler}

  abbrev Host : Type 0
  Host = AzureRawHost Handler J.Value

  report_all-handlers :
      (v : J.Value) (h : Host) → (report_all J P hub v h).host.raw_handler_map ≡ h.raw_handler_map
  unfolding report_all
  report_all-handlers v h = elim (Bool-cases (h.has_device_client || h.has_module_client)) [
    | inl e ↦ rw e refl
    | inr e ↦ rw e refl
  ]

  mark_found_other :
      (active : Bool) (j key : Text) (status : DeploymentStatus) (info : RawHandlerInfo Handler)
      (reported : J.Value) (h : Host)
      → text_eq j key ≡ false
      → lookup j (mark_found J P hub status key info active reported h).1.raw_handler_map
        ≡ lookup j h.raw_handler_map
  unfolding mark_found
  mark_found_other false j key status info reported h e = refl
  mark_found_other true j key status info reported h e =
      lookup-insert j key
        (record info { raw_handler = (mark_handler J P hub status info.raw_handler).handler })
        h.raw_handler_map
      ∙ rw e refl

  mark_one_other :
      (j key : Text) (desired : J.Value) (status : DeploymentStatus) (reported : J.Value) (h : Host)
      → text_eq j key ≡ false
      → lookup j (mark_one J P hub desired status key reported h).1.raw_handler_map
        ≡ lookup j h.raw_handler_map
  unfolding mark_one
  mark_one_other j key desired status reported h e =
      elim (Option-cases (lookup key h.raw_handler_map)) [
        | inl n ↦ rw (n, mark_one) refl
        | inr (info, s) ↦
            rw (s, mark_one)
              (mark_found_other (is_config J P hub (J.member desired key)) j key status info
                reported h e)
      ]

  mark_keys_others :
      (j : Text) (desired : J.Value) (status : DeploymentStatus) (ks : List Text)
      (reported : J.Value) (h : Host)
      → is_one_of j ks ≡ false
      → lookup j (mark_keys J P hub desired status ks reported h).1.raw_handler_map
        ≡ lookup j h.raw_handler_map
  unfolding mark_keys is_one_of
  mark_keys_others j desired status [] reported h e = refl
  mark_keys_others j desired status (key ∷ ks) reported h e =
      let one = mark_one J P hub desired status key reported h in
      mark_keys_others j desired status ks one.0 one.1 (ground (arith, e))
      ∙ mark_one_other j key desired status reported h (ground (arith, e))

  pub mark_status_others :
      (j : Text) (desired : J.Value) (status : DeploymentStatus) (names : List Text) (h : Host)
      → J.member_names desired ≡ some names
      → is_one_of j names ≡ false
      → lookup j (mark_status J P hub desired status h).host.raw_handler_map
        ≡ lookup j h.raw_handler_map
  unfolding mark_status mark_names
  mark_status_others j desired status names h at e =
      let reported = mark_keys J P hub desired status names J.empty_object h in
      rw (at, mark_names)
        (ap (lookup j) (
            report_all-handlers
              (J.with_member reported.0 reported.1.reported_sections_summary.id
                (summary_json J P hub reported.1))
              reported.1)
          ∙ mark_keys_others j desired status names J.empty_object h e)
