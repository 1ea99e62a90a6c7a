-- ===== src/Remote/Restored.antt =====
-- SendCachedHandlerState of the proxy of an out-of-process plug-in, towards the stub of the plug-in in a
-- new process.
mod Examples
use azure_client_tools.Base.{
  ◌≡◌, refl, sym, ap, subst, ◌∙◌, inl, inr, Bool, true, false, List, [], ◌∷◌, ◌++◌, append_assoc,
  append-nil, none, some, Text, text_eq, text_eq_iff, text_eq_refl, Map, lookup, insert, contains,
  keys, count, lookup-insert, lookup_absent, HasDistinctKeys, if◌then◌else◌, Result, ok, err, ◌>>=◌,
  Bool-cases, Result-cases, arith, codes,
}
use azure_client_tools.Json.{Json, IsLawful}
use azure_client_tools.Plugins.{
  HandlerState, Request, start_method, create_request, start_or_stop_request, connection_request,
  cached_requests,
}
use azure_client_tools.Remote.Listing.{id_argument}
use azure_client_tools.Remote.Plugin.{plugin_operation, host_function}
use azure_client_tools.Remote.Stub.{
  Stub, put_back, create_handler, route_to_handler, handle_method, handle_start, handle_stop,
  handle_connection, connection_argument, text_argument, result_object,
}
use azure_client_tools.Remote.{
  Call, returns, throws, with_result, checked, agent_error, RawHandlers, ConnectionStatus,
  connection_from_string,
}
use azure_client_tools.Reporting.{Exception}
use azure_client_tools.Remote.Requested.{
  requested, begun, IsRestorable, Leads, with_handler, requested-step, routed, begins_again,
  restored_one,
}

-- What HandleOnConnectionStatusChanged throws without an argument.
abbrev pub refused : Exception
refused = agent_error 1015 (codes "Invalid input for HandleOnConnectionStatusChanged")

module _ (J : Json) (laws : IsLawful J) (R : RawHandlers J) where
  -- All that is cached can be restored, to the given handlers.
  abbrev pub AllRestorable :
      Stub R.Handler → (Text → R.Handler) → Map (HandlerState J.Value) → Type 0
  AllRestorable st handler [] = Unit
  AllRestorable st handler ((id, s) ∷ m) =
      IsRestorable J R st id s (handler id) × AllRestorable st handler m

  same_factories :
      (st st' : Stub R.Handler) (handler : Text → R.Handler) (m : Map (HandlerState J.Value))
      → st'.raw_factory_map ≡ st.raw_factory_map
      → AllRestorable st handler m
      → AllRestorable st' handler m
  same_factories st st' handler [] e a = tt
  same_factories st st' handler ((id, s) ∷ m) e (t, a) = (
    record {
      made = t.made;
      registered = ap (lookup id) e ∙ t.registered;
      begins = t.begins;
      status = t.status;
      status_read = t.status_read;
      connects = t.connects;
    },
    same_factories st st' handler m e a,
  )

  restored_all :
      (m : Map (HandlerState J.Value)) (st : Stub R.Handler) (handler : Text → R.Handler)
      → AllRestorable st handler m
      → Leads J laws R (cached_requests J m) st (λ st'.
        (j : Text)
        → lookup j st'.raw_handler_map
          ≡ (if contains j m then some (handler j) else lookup j st.raw_handler_map))
  unfolding cached_requests contains
  restored_all [] st handler a = (st, λ more. refl, refl, λ j. refl)
  restored_all ((id, s) ∷ m) st handler (t, a) =
      let (st₁, goes₁, same₁, found₁) = restored_one J laws R id s st (handler id) t in
      let (st₂, goes₂, same₂, found₂) =
        restored_all m st₁ handler (same_factories st st₁ handler m same₁ a) in
      (
        st₂,
        λ more. goes₁ (cached_requests J m ++ more) ∙ goes₂ more,
        same₂ ∙ same₁,
        λ j. elim (Bool-cases (text_eq j id)) [
          | inl e ↦ rw e (
              found₂ j ∙ elim (Bool-cases (contains j m)) [
                | inl c ↦ rw c refl
                | inr c ↦
                    rw c
                      (found₁ j ∙ rw e (ap (λ i. some (handler i)) (sym ((text_eq_iff j id).0 e))))
              ])
          | inr e ↦ rw e (
              found₂ j
              ∙ ap (λ o. if contains j m then some (handler j) else o) (found₁ j ∙ rw e refl))
        ],
      )

  -- A new process is told of all handlers that are cached, if the plug-in can make each of them, its
  -- Start or Stop and its OnConnectionStatusChanged return and its cached connection status is one:
  -- SendCachedHandlerState throws nothing, and then each of these handlers is there as its factory makes
  -- it, started with the cached parameters or stopped, and told the cached status; no other one changes.
  pub cached_requests_restore :
      (m : Map (HandlerState J.Value)) (st : Stub R.Handler) (handler : Text → R.Handler)
      → AllRestorable st handler m
      → let done = requested J R (cached_requests J m) st in
        (done.outcome ≡ ok tt)
        × ((j : Text)
            → lookup j done.state.raw_handler_map
              ≡ (if contains j m then some (handler j) else lookup j st.raw_handler_map))
  cached_requests_restore m st handler a =
      let (st', goes, same, found) = restored_all m st handler a in
      let done : requested J R (cached_requests J m) st ≡ returns tt st' =
        ap (λ rs. requested J R rs st) (sym (append-nil (cached_requests J m)))
        ∙ goes []
        ∙ unfold requested in refl in
      (ap (λ c. c.outcome) done, λ j. ap (λ c. lookup j c.state.raw_handler_map) done ∙ found j)

  cached_requests-append :
      (m m' : Map (HandlerState J.Value))
      → cached_requests J (m ++ m') ≡ cached_requests J m ++ cached_requests J m'
  unfolding cached_requests
  cached_requests-append [] m' = refl
  cached_requests-append ((id, s) ∷ m) m' =
      ap (λ rs. create_request J id ∷ start_or_stop_request J id s ∷ connection_request J id s ∷ rs)
        (cached_requests-append m m')

  connection_refused :
      (id : Text) (s : HandlerState J.Value) (st : Stub R.Handler) (h : R.Handler)
      → lookup id st.raw_handler_map ≡ some h
      → s.update_connection_params ≡ J.null
      → plugin_operation J R (connection_request J id s) st
        ≡ throws refused (with_handler J laws R id h st)
  unfolding connection_request handle_method handle_connection connection_argument text_argument
      text_eq
  connection_refused id s st h e never =
      routed J laws R (connection_request J id s) st h refl e ∙ rw (never, laws.null_is_null) refl

  requested-throws :
      (r : Request J.Value) (rs : List (Request J.Value)) (st st' : Stub R.Handler) (e : Exception)
      → plugin_operation J R r st ≡ throws e st'
      → requested J R (r ∷ rs) st ≡ throws e st'
  unfolding requested
  requested-throws r rs st st' e f =
      ap (λ c. elim c.outcome [ err x ↦ throws x c.state | ok w ↦ requested J R rs c.state ]) f

  -- Where the plug-in restores the first of the cached handlers, and the next one was never told a
  -- connection status, so that null is cached for it: SendCachedHandlerState makes it and starts or stops
  -- it, but its OnConnectionStatusChanged is refused, and no handler behind it is made.
  pub never_connected_refused :
      (m later : Map (HandlerState J.Value)) (id : Text) (s : HandlerState J.Value)
      (st : Stub R.Handler) (handler : Text → R.Handler) (made : R.Handler)
      → AllRestorable st handler m
      → lookup id st.raw_factory_map ≡ some (ok made)
      → (begun J R s made).outcome ≡ ok tt
      → s.update_connection_params ≡ J.null
      → let done = requested J R (cached_requests J (m ++ (id, s) ∷ later)) st in
        (done.outcome ≡ err refused)
        × ((j : Text)
            → lookup j done.state.raw_handler_map ≡ (
                if text_eq j id
                then some (begun J R s made).state
                else (if contains j m then some (handler j) else lookup j st.raw_handler_map)))
  unfolding cached_requests
  never_connected_refused m later id s st handler made a e o never =
      let (st₁, goes₁, same₁, found₁) = restored_all m st handler a in
      let (st₂, goes₂, same₂, found₂) =
        begins_again J laws R id s st₁ made (ap (lookup id) same₁ ∙ e) o in
      let h = (begun J R s made).state in
      let at : lookup id st₂.raw_handler_map ≡ some h = found₂ id ∙ rw (text_eq_refl id) refl in
      let done : requested J R (cached_requests J (m ++ (id, s) ∷ later)) st
          ≡ throws refused (with_handler J laws R id h st₂) =
        ap (λ rs. requested J R rs st) (cached_requests-append m ((id, s) ∷ later))
        ∙ goes₁ (cached_requests J ((id, s) ∷ later))
        ∙ goes₂ (connection_request J id s ∷ cached_requests J later)
        ∙ requested-throws (connection_request J id s) (cached_requests J later) st₂
            (with_handler J laws R id h st₂) refused (connection_refused id s st₂ h at never) in
      (
        ap (λ c. c.outcome) done,
        λ j.
            ap (λ c. lookup j c.state.raw_handler_map) done
            ∙ ground (arith, lookup-insert j id h st₂.raw_handler_map, found₂ j, found₁ j),
      )
