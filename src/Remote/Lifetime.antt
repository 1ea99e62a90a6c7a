-- ===== src/Remote/Lifetime.antt =====
-- From the creation of a handler of a plug-in to its destruction.
use azure_client_tools.Base.{
  ◌≡◌, refl, ◌∙◌, false, none, some, Text, text_eq, text_eq_refl, lookup, insert, erase,
  lookup-insert, lookup-erase, HasDistinctKeys, insert-HasDistinctKeys, ok, err, ◌⊎◌, inl, inr,
  Result-cases,
}
use azure_client_tools.Json.{Json, IsLawful}
use azure_client_tools.Plugins.{raw_type}
use azure_client_tools.Remote.Plugin.{plugin_operation, remote_call}
use azure_client_tools.Remote.Proxy.{ask, create_proxy, destroy_proxy}
use azure_client_tools.Remote.Listing.{created, destroyed, create_proxy_lem, destroy_proxy_lem}
use azure_client_tools.Remote.Stub.{Stub, route_to_handler, stopped, unknown_handler}
use azure_client_tools.Remote.Transparent.{binary_invoke-entry_point}
use azure_client_tools.Remote.{returns, throws, with_result, RawHandlers}
use azure_client_tools.Reporting.{Exception}

module _ (J : Json) (laws : IsLawful J) (R : RawHandlers J) where
  created_of :
      (id : Text) (st : Stub R.Handler) (h : R.Handler)
      → lookup id st.raw_factory_map ≡ some (ok h)
      → create_proxy J (remote_call J R) id st
        ≡ returns id (record st { raw_handler_map = insert id h st.raw_handler_map })
  unfolding created
  created_of id st h registered = create_proxy_lem J laws R id st ∙ rw (registered, created) refl

  destroyed_of :
      (id : Text) (st : Stub R.Handler) (h : R.Handler)
      → lookup id st.raw_handler_map ≡ some h
      → destroy_proxy J (remote_call J R) id st
        ≡ with_result (stopped J R id st (R.stop h)) (λ v. ok tt)
  unfolding destroyed
  destroyed_of id st h at = destroy_proxy_lem J laws R id st ∙ rw (at, destroyed) refl

  ask_missing :
      (id method : Text) (params : J.Value) (st : Stub R.Handler)
      → lookup id st.raw_handler_map ≡ none
      → ask J (remote_call J R) id method params st ≡ throws unknown_handler st
  unfolding plugin_operation route_to_handler text_eq
  ask_missing id method params st absent =
      binary_invoke-entry_point J laws (plugin_operation J R)
        (record {
          target_type = raw_type;
          target_id = id;
          target_method = method;
          target_parameters = params;
        })
        st
      ∙ rw (absent, route_to_handler) refl

  -- CreateRawHandler of a registered name, whether or not there is a handler of it, makes the handler
  -- of that name what its factory returns; the other handlers stay. DestroyRawHandler of it then stops
  -- it. If Stop returns, there is no handler of that name: a later call of any of its methods throws
  -- and changes nothing. If Stop throws, so does DestroyRawHandler, and the handler stays, as Stop left
  -- it. The other handlers stay either way.
  pub create_and_destroy :
      (id other method : Text) (params : J.Value) (st : Stub R.Handler) (h : R.Handler)
      → HasDistinctKeys st.raw_handler_map
      → text_eq other id ≡ false
      → lookup id st.raw_factory_map ≡ some (ok h)
      → let made = create_proxy J (remote_call J R) id st in
        let dropped = destroy_proxy J (remote_call J R) id made.state in
        (made.outcome ≡ ok id)
        × (lookup id made.state.raw_handler_map ≡ some h)
        × (lookup other made.state.raw_handler_map ≡ lookup other st.raw_handler_map)
        × (lookup other dropped.state.raw_handler_map ≡ lookup other st.raw_handler_map)
        × ((((R.stop h).outcome ≡ ok tt)
              × (dropped.outcome ≡ ok tt)
              × (ask J (remote_call J R) id method params dropped.state
                  ≡ throws unknown_handler dropped.state))
            ⊎ ((e : Exception) × ((R.stop h).outcome ≡ err e)
                × (dropped.outcome ≡ err e)
                × (lookup id dropped.state.raw_handler_map ≡ some (R.stop h).state)))
  unfolding stopped
  create_and_destroy id other method params st h d ne registered =
      let m = insert id h st.raw_handler_map in
      let st₁ = record st { raw_handler_map = m } in
      let set = lookup-insert id id h st.raw_handler_map ∙ rw (text_eq_refl id) refl in
      let kept = lookup-insert other id h st.raw_handler_map ∙ rw ne refl in
      let d₁ = insert-HasDistinctKeys id h st.raw_handler_map d in
      rw (created_of id st h registered, destroyed_of id st₁ h set)
        (elim (Result-cases (R.stop h).outcome) [
          | inl (u, o) ↦
              rw (o, stopped)
                (
                  refl,
                  set,
                  kept,
                  lookup-erase other id m d₁ ∙ rw ne kept,
                  inl (
                    refl,
                    refl,
                    ask_missing id method params (record st { raw_handler_map = erase id m })
                        (lookup-erase id id m d₁ ∙ rw (text_eq_refl id) refl),
                  ),
                )
          | inr (e, o) ↦
              rw (o, stopped)
                (
                  refl,
                  set,
                  kept,
                  lookup-insert other id (R.stop h).state m ∙ rw ne kept,
                  inr (
                    e,
                    refl,
                    refl,
                    lookup-insert id id (R.stop h).state m ∙ rw (text_eq_refl id) refl,
                  ),
                )
        ])
