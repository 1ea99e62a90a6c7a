-- ===== src/Remote/Changed.antt =====
-- What a handler's results become on their way to the agent: the methods of RawHandlerProxy whose results
-- do not all cross as they are.
use azure_client_tools.Remote.Direct.{asked, put_back_same}
use azure_client_tools.Base.{
  ◌≡◌, refl, ap, ◌∙◌, inl, inr, some, [], Text, text_eq, codes, lookup, if◌then◌else◌, Result, ok,
  err, ◌>>=◌, Bool-cases,
}
use azure_client_tools.Json.{Json, IsLawful}
use azure_client_tools.Remote.Plugin.{remote_call}
use azure_client_tools.Remote.Proxy.{
  typed_result, read_invoke_result, bad_format, ask, proxy_is_configured, proxy_set_status,
  proxy_get_status, proxy_invoke, proxy_status_json, proxy_schema,
}
use azure_client_tools.Remote.Answers.{
  typed_result-right, typed_result-wrong, typed_result-text, status_argument-text,
  seen_invoke_result, invoke_object-read, schema_from_json-schema_to_json, schema_is_object,
}
use azure_client_tools.Remote.Crossing.{
  written_and_read, bind_bind, bind_same, with_result-ok, answered_and_read, crossing_status,
  status_from_string-to_string,
}
use azure_client_tools.Remote.Stub.{
  Stub, put_back, result_object, handle_method, handle_is_configured, handle_get_status,
  handle_set_status, handle_invoke, handle_status_json, handle_schema, get_status_method,
  set_status_method, invoke_method, status_json_method, schema_method, is_configured_method,
  invoke_object,
}
use azure_client_tools.Remote.{
  with_result, checked, RawHandlers, status_to_string, status_from_string, succeeded_text,
  pending_text, failed_text, value_key,
}
use azure_client_tools.Reporting.{
  DeploymentStatus, succeeded, not_started, pending, failed, unknown, Exception,
}
use azure_client_tools.Reporting.Schema.{
  ReportedSchema, new_schema, schema_to_json, schema_from_json,
}

-- The tags of a schema do not cross.
unfoldable pub crossing_schema : ReportedSchema → Result Exception ReportedSchema
crossing_schema s = ok (record s { tags = [] })

module _ (J : Json) where
  -- An answer of GetDeploymentStatusJson that is no object does not cross.
  unfoldable pub crossing_object : J.Value → Result Exception J.Value
  crossing_object v =
      if J.is_object v then ok v else err (bad_format (codes "GetDeploymentStatusJson"))

module _ (J : Json) (laws : IsLawful J) (R : RawHandlers J) where
  get_status_lem :
      (h : R.Handler)
      → with_result (handle_method J R h get_status_method J.null) (λ payload.
        typed_result J (codes "GetDeploymentStatus") J.is_string J.as_text payload
        >>= status_from_string)
        ≡ record { state = h; outcome = R.get_deployment_status h >>= crossing_status }
  unfolding handle_method handle_get_status text_eq
  get_status_lem h =
      answered_and_read (R.get_deployment_status h >>= status_to_string) h
        (λ s. result_object J (J.of_text s)) _ status_from_string
        (λ s.
          ap (λ o. o >>= status_from_string)
            (typed_result-text J laws (codes "GetDeploymentStatus") s))
      ∙ ap (λ o. record { state = h; outcome = o })
          (bind_bind (R.get_deployment_status h) status_to_string status_from_string
            ∙ bind_same (R.get_deployment_status h) _ crossing_status status_from_string-to_string)

  set_status_lem :
      (h : R.Handler) (text : Text) (s : DeploymentStatus)
      → status_from_string text ≡ ok s
      → with_result
          (handle_method J R h set_status_method
            (J.with_member J.empty_object value_key (J.of_text text)))
          (λ v. ok tt)
        ≡ R.set_deployment_status h s
  unfolding handle_method handle_set_status text_eq
  set_status_lem h text s e =
      rw (status_argument-text J laws text, e, handle_set_status)
        (written_and_read (R.set_deployment_status h s) (λ u. ok J.null) (λ v. ok tt) ok (λ u. refl)
          ∙ with_result-ok (R.set_deployment_status h s))

  invoke_lem :
      (h : R.Handler) (params : J.Value)
      → with_result (handle_method J R h invoke_method params) (read_invoke_result J)
        ≡ with_result (R.invoke h params) (seen_invoke_result J)
  unfolding handle_method handle_invoke text_eq
  invoke_lem h params =
      written_and_read (R.invoke h params) (invoke_object J) (read_invoke_result J)
        (seen_invoke_result J) (invoke_object-read J laws)

  object_result :
      (v : J.Value)
      → typed_result J
          (codes "GetDeploymentStatusJson")
          J.is_object
          (λ x. some x)
          (result_object J v)
        ≡ crossing_object J v
  unfolding crossing_object
  object_result v = elim (Bool-cases (J.is_object v)) [
    | inl e ↦
        typed_result-right J laws _ J.is_object (λ x. some x) v (laws.object_not_null v e) e
        ∙ rw e refl
    | inr e ↦ typed_result-wrong J laws _ J.is_object (λ x. some x) v e ∙ rw e refl
  ]

  status_json_lem :
      (h : R.Handler)
      → with_result
          (handle_method J R h status_json_method J.null)
          (typed_result J (codes "GetDeploymentStatusJson") J.is_object (λ v. some v))
        ≡ record { state = h; outcome = R.get_deployment_status_json h >>= crossing_object J }
  unfolding handle_method handle_status_json text_eq
  status_json_lem h =
      answered_and_read (R.get_deployment_status_json h) h (result_object J) _ (crossing_object J)
        object_result

  schema_lem :
      (h : R.Handler)
      → with_result (handle_method J R h schema_method J.null) (λ payload.
        typed_result J (codes "GetReportedSchema") J.is_object (λ v. some v) payload >>= λ v.
        schema_from_json J v new_schema)
        ≡ record { state = h; outcome = R.get_reported_schema h >>= crossing_schema }
  unfolding handle_method handle_schema text_eq crossing_schema
  schema_lem h =
      answered_and_read (R.get_reported_schema h) h (λ s. result_object J (schema_to_json J s)) _
        crossing_schema
        (λ s.
          let v = schema_to_json J s in
          let o = schema_is_object J laws s in
          ap (λ r. r >>= λ x. schema_from_json J x new_schema)
            (typed_result-right J laws (codes "GetReportedSchema") J.is_object (λ x. some x) v
              (laws.object_not_null v o) o)
          ∙ schema_from_json-schema_to_json J laws s)

  -- The proxy takes an integer, and the stub sends a Boolean.
  is_configured_lem :
      (id : Text) (st : Stub R.Handler) (h : R.Handler)
      → lookup id st.raw_handler_map ≡ some h
      → proxy_is_configured J (remote_call J R) id st ≡ record {
        state = st;
        outcome = R.is_configured h >>= λ b. err (bad_format (codes "IsConfigured"));
      }
  unfolding proxy_is_configured handle_method handle_is_configured text_eq
  is_configured_lem id st h at =
      asked J laws R id is_configured_method J.null st h _ _ at (
        answered_and_read (R.is_configured h) h (λ b. result_object J (J.of_bool b)) _ _
          (λ b.
            typed_result-wrong J laws (codes "IsConfigured") J.is_int J.as_bool (J.of_bool b)
              (laws.bool_not_int b)))
      ∙ put_back_same J laws R id st h _ at

  -- Each of these methods of RawHandlerProxy works on a handler that the plug-in has, and what comes back
  -- is: of GetDeploymentStatus, the status, or an exception where it is not succeeded, pending or
  -- failed; of SetDeploymentStatus, what the handler's method returns, or that exception without a call;
  -- of Invoke, the result with its payload parsed and written again, or an exception where a payload that
  -- is there is no JSON; of GetDeploymentStatusJson, the object, or an exception where it is none; of
  -- GetReportedSchema, the schema without its tags; of IsConfigured, an exception, whatever the handler
  -- answers.
  pub proxy_crossing :
      (id : Text) (st : Stub R.Handler) (h : R.Handler) (params : J.Value)
      (status : DeploymentStatus)
      → lookup id st.raw_handler_map ≡ some h
      → (proxy_get_status J (remote_call J R) id st
          ≡ record { state = st; outcome = R.get_deployment_status h >>= crossing_status })
        × (proxy_set_status J (remote_call J R) id status st
            ≡ checked
                (crossing_status status)
                st
                (λ s. put_back id st (R.set_deployment_status h s)))
        × (proxy_invoke J (remote_call J R) id params st
            ≡ put_back id st (with_result (R.invoke h params) (seen_invoke_result J)))
        × (proxy_status_json J (remote_call J R) id st
            ≡ record { state = st; outcome = R.get_deployment_status_json h >>= crossing_object J })
        × (proxy_schema J (remote_call J R) id st
            ≡ record { state = st; outcome = R.get_reported_schema h >>= crossing_schema })
        × (proxy_is_configured J (remote_call J R) id st ≡ record {
          state = st;
          outcome = R.is_configured h >>= λ b. err (bad_format (codes "IsConfigured"));
        })
  unfolding proxy_get_status proxy_set_status proxy_invoke proxy_status_json proxy_schema
      crossing_status status_to_string status_from_string text_eq
  proxy_crossing id st h params status at = (
    asked J laws R id get_status_method J.null st h _ _ at (get_status_lem h)
        ∙ put_back_same J laws R id st h _ at,
    set_status status,
    asked J laws R id invoke_method params st h _ _ at (invoke_lem h params),
    asked J laws R id status_json_method J.null st h _ _ at (status_json_lem h)
        ∙ put_back_same J laws R id st h _ at,
    asked J laws R id schema_method J.null st h _ _ at (schema_lem h)
        ∙ put_back_same J laws R id st h _ at,
    is_configured_lem id st h at,
  )
    where
      set_as :
          (s : DeploymentStatus) (text : Text)
          → status_from_string text ≡ ok s
          → with_result
              (ask J
                (remote_call J R)
                id
                set_status_method
                (J.with_member J.empty_object value_key (J.of_text text))
                st)
              (λ v. ok tt)
            ≡ put_back id st (R.set_deployment_status h s)
      set_as s text e =
          asked J laws R id set_status_method _ st h _ _ at (set_status_lem h text s e)

      set_status :
          (s : DeploymentStatus)
          → proxy_set_status J (remote_call J R) id s st
            ≡ checked (crossing_status s) st (λ s'. put_back id st (R.set_deployment_status h s'))
      set_status succeeded = set_as succeeded succeeded_text refl
      set_status not_started = refl
      set_status pending = set_as pending pending_text refl
      set_status failed = set_as failed failed_text refl
      set_status unknown = refl
