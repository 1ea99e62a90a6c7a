-- ===== src/Remote/Direct.antt =====
-- What the agent gets from a handler that it calls through RawHandlerProxy, PluginBinaryProxy, PluginStub
-- and RawHandlerStub, in terms of the handler's own methods.
use azure_client_tools.Base.{
  ◌≡◌, refl, ap, ◌∙◌, some, Text, text_eq, codes, lookup, insert_same, Result, ok,
}
use azure_client_tools.Json.{Json, IsLawful}
use azure_client_tools.Plugins.{raw_type, start_method, stop_method, connection_method}
use azure_client_tools.Remote.Plugin.{remote_call, plugin_operation}
use azure_client_tools.Remote.Proxy.{
  typed_result, ask, proxy_type, proxy_start, proxy_stop, proxy_connection,
}
use azure_client_tools.Remote.Answers.{
  typed_result-bool, typed_result-text, connection_argument-text,
}
use azure_client_tools.Remote.Crossing.{
  written_and_read, with_result-ok, answered_and_read, connection_from_string-to_string,
}
use azure_client_tools.Remote.Stub.{
  Stub, put_back, route_to_handler, result_object, handle_method, handle_start, handle_stop,
  handle_connection, handle_type, type_method,
}
use azure_client_tools.Remote.Transparent.{binary_invoke-entry_point}
use azure_client_tools.Remote.{
  Call, with_result, RawHandlers, ConnectionStatus, connection_to_string, value_key,
}
use azure_client_tools.Reporting.{Exception}

module _ (J : Json) (laws : IsLawful J) (R : RawHandlers J) where
  -- A call to a handler that the plug-in has.
  ask_handler :
      (id method : Text) (params : J.Value) (st : Stub R.Handler) (h : R.Handler)
      → lookup id st.raw_handler_map ≡ some h
      → ask J (remote_call J R) id method params st
        ≡ put_back id st (handle_method J R h method params)
  unfolding plugin_operation route_to_handler text_eq
  ask_handler id method params st h at =
      binary_invoke-entry_point J laws (plugin_operation J R)
        (record {
          target_type = raw_type;
          target_id = id;
          target_method = method;
          target_parameters = params;
        })
        st
      ∙ rw (at, route_to_handler) refl

  -- A handler that a call does not change.
  pub put_back_same {ℓ} :
      {A : Type ℓ} (id : Text) (st : Stub R.Handler) (h : R.Handler) (o : Result Exception A)
      → lookup id st.raw_handler_map ≡ some h
      → put_back id st (record { state = h; outcome = o }) ≡ record { state = st; outcome = o }
  put_back_same id st h o at =
      ap (λ m. record { state = record st { raw_handler_map = m }; outcome = o })
        (insert_same id h st.raw_handler_map at)

  -- A method of a handler: the stub's work on the call and the proxy's on its answer.
  pub asked {ℓ} :
      {A : Type ℓ} (id method : Text) (params : J.Value) (st : Stub R.Handler) (h : R.Handler)
      (read : J.Value → Result Exception A) (seen : Call R.Handler A)
      → lookup id st.raw_handler_map ≡ some h
      → with_result (handle_method J R h method params) read ≡ seen
      → with_result (ask J (remote_call J R) id method params st) read ≡ put_back id st seen
  asked id method params st h read seen at e =
      ap (λ c. with_result c read) (ask_handler id method params st h at) ∙ ap (put_back id st) e

  start-same :
      (h : R.Handler) (config : J.Value)
      → with_result
          (handle_method J R h start_method config)
          (typed_result J (codes "Start") J.is_bool J.as_bool)
        ≡ R.start h config
  unfolding handle_method handle_start text_eq
  start-same h config =
      written_and_read (R.start h config) (λ b. ok (result_object J (J.of_bool b)))
        (typed_result J (codes "Start") J.is_bool J.as_bool) ok
        (typed_result-bool J laws (codes "Start"))
      ∙ with_result-ok (R.start h config)

  stop-same :
      (h : R.Handler) → with_result (handle_method J R h stop_method J.null) (λ v. ok tt) ≡ R.stop h
  unfolding handle_method handle_stop text_eq
  stop-same h =
      written_and_read (R.stop h) (λ u. ok J.null) (λ v. ok tt) ok (λ u. refl)
      ∙ with_result-ok (R.stop h)

  connection-same :
      (h : R.Handler) (status : ConnectionStatus)
      → with_result
          (handle_method J R h connection_method
            (J.with_member J.empty_object value_key (J.of_text (connection_to_string status))))
          (λ v. ok tt)
        ≡ R.on_connection_status_changed h status
  unfolding handle_method handle_connection text_eq
  connection-same h status =
      rw
        (
          connection_argument-text J laws (connection_to_string status),
          connection_from_string-to_string status,
          handle_connection,
        )
        (written_and_read (R.on_connection_status_changed h status) (λ u. ok J.null) (λ v. ok tt) ok
            (λ u. refl)
          ∙ with_result-ok (R.on_connection_status_changed h status))

  type-same :
      (h : R.Handler)
      → with_result
          (handle_method J R h type_method J.null)
          (typed_result J (codes "GetHandlerType") J.is_string J.as_text)
        ≡ record { state = h; outcome = R.get_handler_type h }
  unfolding handle_method handle_type text_eq
  type-same h =
      answered_and_read (R.get_handler_type h) h (λ s. result_object J (J.of_text s))
        (typed_result J (codes "GetHandlerType") J.is_string J.as_text) ok
        (typed_result-text J laws (codes "GetHandlerType"))
      ∙ with_result-ok (record { state = h; outcome = R.get_handler_type h })

  -- Start, Stop, OnConnectionStatusChanged and GetHandlerType of RawHandlerProxy do to a handler that the
  -- plug-in has what the handler's own methods do, and return or throw the same.
  pub proxy-same :
      (id : Text) (st : Stub R.Handler) (h : R.Handler) (config : J.Value)
      (status : ConnectionStatus)
      → lookup id st.raw_handler_map ≡ some h
      → (proxy_start J (remote_call J R) id config st ≡ put_back id st (R.start h config))
        × (proxy_stop J (remote_call J R) id st ≡ put_back id st (R.stop h))
        × (proxy_connection J (remote_call J R) id status st
            ≡ put_back id st (R.on_connection_status_changed h status))
        × (proxy_type J (remote_call J R) id st
            ≡ record { state = st; outcome = R.get_handler_type h })
  unfolding proxy_start proxy_stop proxy_connection proxy_type
  proxy-same id st h config status at = (
    asked id start_method config st h _ (R.start h config) at (start-same h config),
    asked id stop_method J.null st h _ (R.stop h) at (stop-same h),
    asked id connection_method
        (J.with_member J.empty_object value_key (J.of_text (connection_to_string status))) st h _
        (R.on_connection_status_changed h status) at (connection-same h status),
    asked id type_method J.null st h _ _ at (type-same h) ∙ put_back_same id st h _ at,
  )
