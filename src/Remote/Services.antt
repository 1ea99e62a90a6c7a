-- ===== src/Remote/Services.antt =====
-- What the agent's stub makes of the objects that the proxies of a plug-in send.
use azure_client_tools.Base.{
  ◌≡◌, refl, sym, ap, ◌∙◌, List, [], ◌∷◌, ◌++◌, Text, text_eq, c_string, zero, suc, ok, ◌>>=◌,
}
use azure_client_tools.Json.Objects.{object_of, member-object_of, last_set}
use azure_client_tools.Json.{Json, IsLawful}
use azure_client_tools.Plugins.{Request}
use azure_client_tools.Remote.Crossing.{written_and_read, with_result-ok, bind_bind, bind_same}
use azure_client_tools.Remote.Plugin.{entry_point, answered}
use azure_client_tools.Remote.Requests.{build_request, text_member}
use azure_client_tools.Remote.Responses.{payload_from_json_string}
use azure_client_tools.Remote.Reverse.{
  AgentServices, Base64, IsInverse, string_to_base64, base64_to_string, invoke_run_sync_ml,
  invoke_report, invoke_send_event, reverse_invoke, status_key, interface_key, event_key,
  message_key, sid_key, input_key, output_key, report_object, event_object, sync_ml_object,
}
use azure_client_tools.Remote.Transparent.{invoke_text-build_request, c_string-response_text}
use azure_client_tools.Remote.Texts.{payload_from_json_string-response_text}
use azure_client_tools.Remote.{Call, with_result, value_key, id_key, status_from_string}
use azure_client_tools.Reporting.{DeploymentStatus}

-- A zero byte behind a text changes nothing of what a `const char*` shows of it.
c_string_zero : (s : Text) → c_string (s ++ 0 ∷ []) ≡ c_string s
unfolding c_string
c_string_zero [] = refl
c_string_zero (zero ∷ s) = refl
c_string_zero (suc x ∷ s) = ap (λ t. suc x ∷ t) (c_string_zero s)

-- A text comes back from its Base64 form up to its first zero byte.
pub base64_to_string-string_to_base64 :
    (B : Base64) (s : Text)
    → IsInverse B
    → (string_to_base64 B s >>= base64_to_string B) ≡ ok (c_string s)
unfolding string_to_base64 base64_to_string
base64_to_string-string_to_base64 B s inverse =
    sym (bind_bind (B.encode (s ++ 0 ∷ [])) B.decode (λ bytes. ok (c_string bytes)))
    ∙ rw (inverse (s ++ 0 ∷ []), c_string_zero s) refl

module _ (J : Json) (laws : IsLawful J) where
  -- A call of the agent leaves its services in the state of the operation, and returns or throws the same.
  pub reverse_invoke-entry_point {ℓ} :
      {S : Type ℓ} (operation : Request J.Value → S → Call S J.Value) (r : Request J.Value) (s : S)
      → reverse_invoke J (entry_point J operation) (build_request J r) s ≡ operation r s
  unfolding reverse_invoke entry_point answered
  reverse_invoke-entry_point {S = S} operation r s =
      let c = operation r s in
      let read : S × Text → Call S J.Value =
        λ p. record { state = p.0; outcome = payload_from_json_string J (c_string p.1) } in
      ap read (invoke_text-build_request J laws operation r s)
      ∙ rw
          (
            c_string-response_text J laws c.outcome,
            payload_from_json_string-response_text J laws c.outcome,
          )
          refl

  module _ (B : Base64) (A : AgentServices J) where
    text_at :
        (fs : List (Text × J.Value)) (k s : Text)
        → last_set J k fs ≡ J.of_text s
        → text_member J (object_of J fs) k ≡ ok s
    text_at fs k s e = rw (member-object_of J laws fs k, e, laws.text_read_back s) refl

    pub invoke_report-object :
        (id text : Text) (status : DeploymentStatus) (value : J.Value) (s : A.State)
        → status_from_string text ≡ ok status
        → with_result (invoke_report J B A (report_object J id text value) s) (λ v. ok tt)
          ≡ A.report id status value s
    unfolding invoke_report report_object text_eq
    invoke_report-object id text status value s e =
        let fs : List (Text × J.Value) =
          (value_key, value) ∷ (status_key, J.of_text text) ∷ (id_key, J.of_text id) ∷ [] in
        rw
          (
            text_at fs id_key id refl,
            text_at fs status_key text refl,
            e,
            member-object_of J laws fs value_key,
            invoke_report,
          )
          (written_and_read (A.report id status value s) (λ u. ok J.null) (λ v. ok tt) ok
              (λ u. refl)
            ∙ with_result-ok (A.report id status value s))

    pub invoke_send_event-object :
        (id event_name : Text) (value : J.Value) (s : A.State)
        → with_result (invoke_send_event J B A (event_object J id event_name value) s) (λ v. ok tt)
          ≡ A.send_event id event_name value s
    unfolding invoke_send_event event_object text_eq
    invoke_send_event-object id event_name value s =
        let fs : List (Text × J.Value) =
          (message_key, value)
          ∷ (event_key, J.of_text event_name)
          ∷ (interface_key, J.of_text id)
          ∷ [] in
        rw
          (
            text_at fs interface_key id refl,
            text_at fs event_key event_name refl,
            member-object_of J laws fs message_key,
            invoke_send_event,
          )
          (written_and_read (A.send_event id event_name value s) (λ u. ok J.null) (λ v. ok tt) ok
              (λ u. refl)
            ∙ with_result-ok (A.send_event id event_name value s))

    output_read :
        (inverse : IsInverse B) (out : Text)
        → ((string_to_base64 B out >>= λ encoded.
              ok (J.with_member J.empty_object output_key (J.of_text encoded)))
            >>= λ payload. text_member J payload output_key >>= base64_to_string B)
          ≡ ok (c_string out)
    unfolding text_eq
    output_read inverse out =
        bind_bind (string_to_base64 B out) _ _
        ∙ bind_same (string_to_base64 B out) _ (base64_to_string B) (λ encoded.
          ap (λ o. o >>= base64_to_string B)
            (text_at ((output_key, J.of_text encoded) ∷ []) output_key encoded refl))
        ∙ base64_to_string-string_to_base64 B out inverse

    pub invoke_run_sync_ml-object :
        (inverse : IsInverse B) (sid sync_ml encoded : Text) (s : A.State)
        → string_to_base64 B sync_ml ≡ ok encoded
        → with_result
            (invoke_run_sync_ml J B A (sync_ml_object J sid encoded) s)
            (λ payload. text_member J payload output_key >>= base64_to_string B)
          ≡ with_result (A.run_sync_ml sid (c_string sync_ml) s) (λ out. ok (c_string out))
    unfolding invoke_run_sync_ml sync_ml_object text_eq
    invoke_run_sync_ml-object inverse sid sync_ml encoded s e =
        let fs : List (Text × J.Value) =
          (input_key, J.of_text encoded) ∷ (sid_key, J.of_text sid) ∷ [] in
        let input : base64_to_string B encoded ≡ ok (c_string sync_ml) =
          ap (λ o. o >>= base64_to_string B) (sym e)
          ∙ base64_to_string-string_to_base64 B sync_ml inverse in
        rw
          (
            text_at fs sid_key sid refl,
            text_at fs input_key encoded refl,
            input,
            invoke_run_sync_ml,
          )
          (written_and_read (A.run_sync_ml sid (c_string sync_ml) s) _
            (λ payload. text_member J payload output_key >>= base64_to_string B)
            (λ out. ok (c_string out)) (output_read inverse))
