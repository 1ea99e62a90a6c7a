-- ===== src/Remote/Listing.antt =====
-- PluginProxy: which handlers a plug-in has, and how the agent makes and drops them.
use azure_client_tools.Base.{
  ◌≡◌, refl, ap, ◌∙◌, not, ◌||◌, Option, none, some, List, [], ◌∷◌, Text, text_eq, lookup, insert,
  keys, map, if◌then◌else◌, Result, ok, err, ◌>>=◌,
}
use azure_client_tools.Host.Registry.{HandlerInfo}
use azure_client_tools.Json.Objects.{object_of-is_object, member-object_of}
use azure_client_tools.Json.{Json, IsLawful}
use azure_client_tools.Plugins.{host_type, create_raw_handler}
use azure_client_tools.Remote.Answers.{result_member}
use azure_client_tools.Remote.Plugin.{
  plugin_operation, remote_call, host_function, handlers_info_method, destroy_raw_handler,
}
use azure_client_tools.Remote.Proxy.{
  ask_host, read_handler_infos, get_handlers_info, create_proxy, destroy_proxy,
  invalid_handlers_info,
}
use azure_client_tools.Remote.Requests.{text_member}
use azure_client_tools.Remote.Stub.{
  Stub, create_handler, destroy_handler, stopped, handlers_info, handler_info_object,
  handler_type_raw, unknown_handler_id,
}
use azure_client_tools.Remote.Transparent.{binary_invoke-entry_point}
use azure_client_tools.Remote.{
  Call, returns, throws, with_result, checked, RawHandlers, id_key, type_key, result_key,
}
use azure_client_tools.Reporting.{Exception}
use azure_client_tools.Reporting.Operation.{or_logic_error}

unfoldable pub raw_info : Text → HandlerInfo
raw_info id = record { id = id; info_type = handler_type_raw; dependencies = [] }

module _ (J : Json) (R : RawHandlers J) where
  -- What CreateRawHandler should do, by the factory of the name.
  unfoldable pub created : Text → Stub R.Handler → Call (Stub R.Handler) Text
  created id st = elim (lookup id st.raw_factory_map) [
    | none ↦ throws unknown_handler_id st
    | some create ↦
        checked create st
          (λ h. returns id (record st { raw_handler_map = insert id h st.raw_handler_map }))
  ]

  -- What DestroyRawHandler should do, by the handler of the name.
  unfoldable pub destroyed : Text → Stub R.Handler → Call (Stub R.Handler) (Unit {0})
  unfolding stopped
  destroyed id st = elim (lookup id st.raw_handler_map) [
    | none ↦ returns tt st
    | some h ↦ with_result (stopped J R id st (R.stop h)) (λ v. ok tt)
  ]

module _ (J : Json) (laws : IsLawful J) where
  read_handler_infos-handler_info_object :
      (ids : List Text)
      → read_handler_infos J (map (handler_info_object J) ids) ≡ ok (map raw_info ids)
  unfolding read_handler_infos handler_info_object raw_info text_eq
  read_handler_infos-handler_info_object [] = refl
  read_handler_infos-handler_info_object (id ∷ ids) =
      let fs : List (Text × J.Value) =
        (type_key, J.of_text handler_type_raw) ∷ (id_key, J.of_text id) ∷ [] in
      rw
        (
          read_handler_infos-handler_info_object ids,
          object_of-is_object J laws fs,
          member-object_of J laws fs id_key,
          laws.text_read_back id,
          member-object_of J laws fs type_key,
          laws.text_read_back handler_type_raw,
          read_handler_infos,
        )
        refl

  pub id_argument :
      (id : Text)
      → text_member J (J.with_member J.empty_object id_key (J.of_text id)) id_key ≡ ok id
  unfolding text_eq
  id_argument id =
      let fs : List (Text × J.Value) = (id_key, J.of_text id) ∷ [] in
      rw (member-object_of J laws fs id_key, laws.text_read_back id) refl

  module _ (R : RawHandlers J) where
    -- A call of a host function of the plug-in.
    host_asked :
        (method : Text) (params : J.Value) (st : Stub R.Handler)
        → ask_host J (remote_call J R) method params st ≡ host_function J R method params st
    unfolding plugin_operation text_eq
    host_asked method params st =
        binary_invoke-entry_point J laws (plugin_operation J R)
          (record {
            target_type = host_type;
            target_id = [];
            target_method = method;
            target_parameters = params;
          })
          st

    -- GetHandlersInfo of PluginProxy returns the registered names in order, each with the type of a raw
    -- handler and without dependencies, and changes nothing.
    pub get_handlers_info_lem :
        (st : Stub R.Handler)
        → get_handlers_info J (remote_call J R) st
          ≡ returns (map raw_info (keys st.raw_factory_map)) st
    unfolding get_handlers_info host_function handlers_info text_eq
    get_handlers_info_lem st =
        let infos = handlers_info J st in
        let listed = J.of_array infos in
        ap
          (λ c. with_result c (λ payload. or_logic_error (J.member payload result_key) >>= λ v.
            if J.is_null v || not (J.is_array v)
            then err invalid_handlers_info
            else read_handler_infos J (J.elements v)))
          (host_asked handlers_info_method J.null st)
        ∙ rw
            (
              result_member J laws listed,
              laws.array_not_null infos,
              laws.array_is_array infos,
              laws.array_elements infos,
              read_handler_infos-handler_info_object (keys st.raw_factory_map),
            )
            refl

    created_lem :
        (id : Text) (st : Stub R.Handler) (o : Option (Result Exception R.Handler))
        → with_result
            (elim o [
              | none ↦ throws {A = J.Value} unknown_handler_id st
              | some create ↦ checked create st (λ h.
                  returns J.null (record st { raw_handler_map = insert id h st.raw_handler_map }))
            ])
            (λ v. ok id)
          ≡ elim o [
            | none ↦ throws unknown_handler_id st
            | some create ↦
                checked create st
                  (λ h. returns id (record st { raw_handler_map = insert id h st.raw_handler_map }))
          ]
    created_lem id st none = refl
    created_lem id st (some (ok h)) = refl
    created_lem id st (some (err e)) = refl

    destroyed_lem :
        (id : Text) (st : Stub R.Handler) (o : Option R.Handler)
        → with_result
            (elim o [
              | none ↦ returns {A = J.Value} J.null st
              | some h ↦ stopped J R id st (R.stop h)
            ])
            (λ v. ok tt)
          ≡ elim o [
            | none ↦ returns {A = Unit {0}} tt st
            | some h ↦ with_result (stopped J R id st (R.stop h)) (λ v. ok tt)
          ]
    destroyed_lem id st none = refl
    destroyed_lem id st (some h) = refl

    pub create_proxy_lem :
        (id : Text) (st : Stub R.Handler)
        → create_proxy J (remote_call J R) id st ≡ created J R id st
    unfolding create_proxy host_function create_handler created text_eq
    create_proxy_lem id st =
        ap (λ c. with_result c (λ v. ok id))
          (host_asked create_raw_handler (J.with_member J.empty_object id_key (J.of_text id)) st)
        ∙ rw (id_argument id, create_handler) (created_lem id st (lookup id st.raw_factory_map))

    pub destroy_proxy_lem :
        (id : Text) (st : Stub R.Handler)
        → destroy_proxy J (remote_call J R) id st ≡ destroyed J R id st
    unfolding destroy_proxy host_function destroy_handler destroyed text_eq
    destroy_proxy_lem id st =
        ap (λ c. with_result c (λ v. ok tt))
          (host_asked destroy_raw_handler (J.with_member J.empty_object id_key (J.of_text id)) st)
        ∙ rw (id_argument id, destroy_handler) (destroyed_lem id st (lookup id st.raw_handler_map))
