-- ===== src/Remote/Restored/Examples.antt =====
-- A plug-in with two handlers, whose process is a new one.
use azure_client_tools.Base.{
  ◌≡◌, refl, true, false, [], ◌∷◌, some, Text, text_eq, codes, ℕ, ◌+◌, pos, lookup, contains, ok,
  err, if◌then◌else◌,
}
use azure_client_tools.Plugins.{HandlerState, cached_requests}
use azure_client_tools.Remote.Requested.{requested, begun, IsRestorable}
use azure_client_tools.Remote.Restored.{cached_requests_restore, never_connected_refused, refused}
use azure_client_tools.Remote.Stub.{Stub, connection_argument, text_argument}
use azure_client_tools.Remote.{
  returns, RawHandlers, online, online_text, value_key, connection_from_string,
}
use azure_client_tools.Reporting.{not_started}
use azure_client_tools.Samples.{json, json-IsLawful, Value, null}

-- The state of a handler is the number of its calls.
abbrev obliging : RawHandlers json
obliging = record {
  Handler = ℕ;
  get_handler_type = λ n. ok (codes "obliging");
  start = λ n config. returns true (n + 1);
  stop = λ n. returns tt (n + 1);
  on_connection_status_changed = λ n status. returns tt (n + 1);
  is_configured = λ n. ok true;
  get_deployment_status = λ n. ok not_started;
  set_deployment_status = λ n status. returns tt (n + 1);
  invoke = λ n params. returns (record { is_present = false; code = pos 0; payload = [] }) n;
  get_deployment_status_json = λ n. ok json.empty_object;
  get_reported_schema = λ n.
      ok (record { interface_type = codes "dm"; tags = []; interface_version = codes "1.0.0" });
}

abbrev first_id : Text
first_id = codes "a"

abbrev second_id : Text
second_id = codes "b"

abbrev fresh : Stub ℕ
fresh = record {
  raw_factory_map = (first_id, ok 0) ∷ (second_id, ok 10) ∷ [];
  raw_handler_map = [];
}

-- A handler that was started and told that there is a connection.
abbrev started_state : HandlerState Value
started_state = record {
  started = true;
  start_params = null;
  update_connection_params =
      json.with_member json.empty_object value_key (json.of_text online_text);
}

-- One that was created only.
abbrev silent_state : HandlerState Value
silent_state = record { started = false; start_params = null; update_connection_params = null }

makes_first : lookup first_id fresh.raw_factory_map ≡ some (ok 0)
makes_first = unfold lookup text_eq in refl

makes_second : lookup second_id fresh.raw_factory_map ≡ some (ok 10)
makes_second = unfold lookup text_eq in refl

first-IsRestorable : IsRestorable json obliging fresh first_id started_state 2
unfolding connection_argument text_argument connection_from_string text_eq
first-IsRestorable = record {
  made = 0;
  registered = makes_first;
  begins = refl;
  status = online;
  status_read = refl;
  connects = refl;
}

cached_requests_restore_example :
    let done =
      requested json obliging (cached_requests json ((first_id, started_state) ∷ [])) fresh in
    (done.outcome ≡ ok tt)
    × ((j : Text)
        → lookup j done.state.raw_handler_map ≡ (
            if contains j ((first_id, started_state) ∷ [])
            then some 2
            else lookup j fresh.raw_handler_map))
cached_requests_restore_example =
    cached_requests_restore json json-IsLawful obliging ((first_id, started_state) ∷ []) fresh
      (λ j. 2) (first-IsRestorable, tt)

never_connected_refused_example :
    let done =
      requested json obliging
        (cached_requests json
          ((first_id, started_state) ∷ (second_id, silent_state) ∷ (codes "c", started_state) ∷ []))
        fresh in
    (done.outcome ≡ err refused)
    × ((j : Text)
        → lookup j done.state.raw_handler_map ≡ (
            if text_eq j second_id
            then some (begun json obliging silent_state 10).state
            else (if contains j ((first_id, started_state) ∷ [])
                then some 2
                else lookup j fresh.raw_handler_map)))
never_connected_refused_example =
    never_connected_refused json json-IsLawful obliging ((first_id, started_state) ∷ [])
      ((codes "c", started_state) ∷ []) second_id silent_state fresh (λ j. 2) 10
      (first-IsRestorable, tt) makes_second refl refl
