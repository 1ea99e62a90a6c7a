-- ===== src/Remote/Requested.antt =====
-- What one request of SendCachedHandlerState does to the stub of a plug-in in a new process.
use azure_client_tools.Base.{
  ◌≡◌, refl, ap, ◌∙◌, inl, inr, Bool, true, false, List, [], ◌∷◌, ◌++◌, some, Text, text_eq,
  text_eq_refl, lookup, insert, lookup-insert, if◌then◌else◌, ok, err, ◌>>=◌, Result-cases, arith,
  codes,
}
use azure_client_tools.Json.{Json, IsLawful}
use azure_client_tools.Plugins.{
  HandlerState, Request, create_request, start_or_stop_request, connection_request,
}
use azure_client_tools.Remote.Listing.{id_argument}
use azure_client_tools.Remote.Plugin.{plugin_operation, host_function}
use azure_client_tools.Remote.Stub.{
  Stub, put_back, create_handler, route_to_handler, handle_method, handle_start, handle_stop,
  handle_connection, connection_argument, result_object,
}
use azure_client_tools.Remote.{
  Call, returns, throws, with_result, checked, RawHandlers, ConnectionStatus,
  connection_from_string,
}

module _ (J : Json) (R : RawHandlers J) where
  -- The requests, one after the other, up to the first that throws.
  unfoldable pub requested :
      List (Request J.Value) → Stub R.Handler → Call (Stub R.Handler) (Unit {0})
  requested [] st = returns tt st
  requested (r ∷ rs) st =
      let c = plugin_operation J R r st in
      let rest = requested rs c.state in elim c.outcome [ err e ↦ throws e c.state | ok v ↦ rest ]

  -- A handler is started again with its parameters, or stopped.
  abbrev pub begun : HandlerState J.Value → R.Handler → Call R.Handler (Unit {0})
  begun s h =
      if s.started then with_result (R.start h s.start_params) (λ active. ok tt) else R.stop h

  -- The plug-in can make a handler of that name, and the handler takes what was cached.
  pub record IsRestorable (st : Stub R.Handler) (id : Text) (s : HandlerState J.Value)
      (h : R.Handler) : Type 0 where
    pub made : R.Handler
    pub registered : lookup id st.raw_factory_map ≡ some (ok made)
    pub begins : (begun s made).outcome ≡ ok tt
    pub status : ConnectionStatus
    pub status_read :
        (connection_argument J s.update_connection_params >>= connection_from_string) ≡ ok status
    pub connects : R.on_connection_status_changed (begun s made).state status ≡ returns tt h

module _ (J : Json) (laws : IsLawful J) (R : RawHandlers J) where
  pub requested-step :
      (r : Request J.Value) (rs : List (Request J.Value)) (st st' : Stub R.Handler) (v : J.Value)
      → plugin_operation J R r st ≡ returns v st'
      → requested J R (r ∷ rs) st ≡ requested J R rs st'
  unfolding requested
  requested-step r rs st st' v e =
      ap (λ c. elim c.outcome [ err x ↦ throws x c.state | ok w ↦ requested J R rs c.state ]) e

  abbrev pub with_handler : Text → R.Handler → Stub R.Handler → Stub R.Handler
  with_handler id h st = record st { raw_handler_map = insert id h st.raw_handler_map }

  created_lem :
      (id : Text) (st : Stub R.Handler) (made : R.Handler)
      → lookup id st.raw_factory_map ≡ some (ok made)
      → plugin_operation J R (create_request J id) st ≡ returns J.null (with_handler id made st)
  unfolding plugin_operation create_request host_function create_handler text_eq
  created_lem id st made e = rw (id_argument J laws id, create_handler) (rw (e, checked) refl)

  pub routed :
      (r : Request J.Value) (st : Stub R.Handler) (h : R.Handler)
      → r.target_type ≡ codes "raw"
      → lookup r.target_id st.raw_handler_map ≡ some h
      → plugin_operation J R r st
        ≡ put_back r.target_id st (handle_method J R h r.target_method r.target_parameters)
  unfolding plugin_operation route_to_handler text_eq
  routed r st h raw e = rw (raw, e, route_to_handler) refl

  begun_lem :
      (b : Bool) (id : Text) (s : HandlerState J.Value) (st : Stub R.Handler) (h : R.Handler)
      → s.started ≡ b
      → lookup id st.raw_handler_map ≡ some h
      → (begun J R s h).outcome ≡ ok tt
      → (v : J.Value) × (plugin_operation J R (start_or_stop_request J id s) st
          ≡ returns v (with_handler id (begun J R s h).state st))
  unfolding start_or_stop_request handle_method handle_start handle_stop text_eq
  begun_lem true id s st h b_is e o =
      let request = start_or_stop_request J id s in
      elim (Result-cases (R.start h s.start_params).outcome) [
        | inr (x, f) ↦ absurd (ground (arith, o, b_is, f))
        | inl (active, f) ↦
            (result_object J (J.of_bool active), routed request st h refl e ∙ rw (b_is, f) refl)
      ]
  begun_lem false id s st h b_is e o =
      (J.null, routed (start_or_stop_request J id s) st h refl e ∙ rw (b_is, stops) refl)
    where
      stops : (R.stop h).outcome ≡ ok tt
      stops = ground (arith, o, b_is)

  connected_lem :
      (id : Text) (s : HandlerState J.Value) (st : Stub R.Handler) (h h' : R.Handler)
      (status : ConnectionStatus)
      → lookup id st.raw_handler_map ≡ some h
      → (connection_argument J s.update_connection_params >>= connection_from_string) ≡ ok status
      → R.on_connection_status_changed h status ≡ returns tt h'
      → plugin_operation J R (connection_request J id s) st ≡ returns J.null (with_handler id h' st)
  unfolding connection_request handle_method handle_connection text_eq
  connected_lem id s st h h' status e read o =
      routed (connection_request J id s) st h refl e ∙ rw (read, o) refl

  -- What a sequence of requests makes of the stub, so that others follow.
  abbrev pub Leads : List (Request J.Value) → Stub R.Handler → (Stub R.Handler → Type 0) → Type 0
  Leads rs st Q =
      (st' : Stub R.Handler) × ((more : List (Request J.Value))
        → requested J R (rs ++ more) st ≡ requested J R more st')
      × (st'.raw_factory_map ≡ st.raw_factory_map)
      × Q st'

  -- The first two requests for a handler.
  pub begins_again :
      (id : Text) (s : HandlerState J.Value) (st : Stub R.Handler) (made : R.Handler)
      → lookup id st.raw_factory_map ≡ some (ok made)
      → (begun J R s made).outcome ≡ ok tt
      → Leads (create_request J id ∷ start_or_stop_request J id s ∷ []) st (λ st'.
        (j : Text)
        → lookup j st'.raw_handler_map
          ≡ (if text_eq j id then some (begun J R s made).state else lookup j st.raw_handler_map))
  begins_again id s st made e o =
      let st₁ = with_handler id made st in
      let at : lookup id st₁.raw_handler_map ≡ some made =
        lookup-insert id id made st.raw_handler_map ∙ rw (text_eq_refl id) refl in
      let (v, f) = begun_lem s.started id s st₁ made refl at o in
      (
        with_handler id (begun J R s made).state st₁,
        λ more.
            requested-step (create_request J id) (start_or_stop_request J id s ∷ more) st st₁ J.null
              (created_lem id st made e)
            ∙ requested-step (start_or_stop_request J id s) more st₁
                (with_handler id (begun J R s made).state st₁) v f,
        refl,
        λ j. ground (
          arith,
          lookup-insert j id (begun J R s made).state st₁.raw_handler_map,
          lookup-insert j id made st.raw_handler_map,
        ),
      )

  pub restored_one :
      (id : Text) (s : HandlerState J.Value) (st : Stub R.Handler) (h : R.Handler)
      → IsRestorable J R st id s h
      → Leads
          (create_request J id ∷ start_or_stop_request J id s ∷ connection_request J id s ∷ [])
          st
          (λ st'.
            (j : Text)
            → lookup j st'.raw_handler_map
              ≡ (if text_eq j id then some h else lookup j st.raw_handler_map))
  restored_one id s st h t =
      let (st₂, goes, same, found) = begins_again id s st t.made t.registered t.begins in
      let at : lookup id st₂.raw_handler_map ≡ some (begun J R s t.made).state =
        found id ∙ rw (text_eq_refl id) refl in
      (
        with_handler id h st₂,
        λ more.
            goes (connection_request J id s ∷ more)
            ∙ requested-step (connection_request J id s) more st₂ (with_handler id h st₂) J.null (
                connected_lem id s st₂ (begun J R s t.made).state h t.status at t.status_read
                  t.connects),
        same,
        λ j. ground (arith, lookup-insert j id h st₂.raw_handler_map, found j),
      )
