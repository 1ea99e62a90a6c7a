-- ===== src/Remote/Examples.antt =====
-- The properties of the calls between the agent and its plug-ins, applied to a plug-in that counts.
use azure_client_tools.Base.{
  ◌↔◌, ◌≡◌, refl, true, false, List, [], ◌∷◌, ◌++◌, some, Text, text_eq, codes, c_string, ℕ, ◌+◌,
  pos, count, arith, lookup, HasDistinctKeys, ok, err, ◌>>=◌, ◌⊎◌,
}
use azure_client_tools.Plugins.{Request, raw_type, start_method}
use azure_client_tools.Remote.Answers.{seen_invoke_result}
use azure_client_tools.Remote.Crossing.{crossing_status}
use azure_client_tools.Remote.Changed.{proxy_crossing, crossing_object, crossing_schema}
use azure_client_tools.Remote.Direct.{proxy-same}
use azure_client_tools.Remote.Lifetime.{create_and_destroy}
use azure_client_tools.Remote.Listing.{get_handlers_info_lem, raw_info}
use azure_client_tools.Remote.Plugin.{remote_call, plugin_operation, entry_point, binary_invoke}
use azure_client_tools.Remote.Proxy.{
  bad_format, ask, get_handlers_info, create_proxy, destroy_proxy, proxy_type, proxy_start,
  proxy_stop, proxy_connection, proxy_is_configured, proxy_set_status, proxy_get_status,
  proxy_invoke, proxy_status_json, proxy_schema,
}
use azure_client_tools.Remote.Reports.{services_same}
use azure_client_tools.Remote.Reverse.{
  AgentServices, Base64, agent_entry, host_report, host_send_event, server_run_sync_ml,
}
use azure_client_tools.Remote.Stub.{Stub, put_back, unknown_handler}
use azure_client_tools.Remote.Transparent.{binary_invoke-entry_point}
use azure_client_tools.Remote.{returns, throws, with_result, checked, RawHandlers, online}
use azure_client_tools.Reporting.{Exception, succeeded, not_started, failed, std}
use azure_client_tools.Remote.Finishing.{from_plugin, from_agent, finalize_and_report-crosses}
use azure_client_tools.Reporting.Errors.{ErrorList, new_error, final_status}
use azure_client_tools.Reporting.Handler.{
  HandlerBase, new_handler, finalize_and_report, send_finished, finished_object, report_refreshing,
  errors_key, error_list_to_json,
}
use azure_client_tools.Reporting.MetaData.{
  meta_key, meta_to_json, set_meta_status, deployment_status_key,
}
use azure_client_tools.Reporting.Operation.{deployment_status_to_string}
use azure_client_tools.Reporting.Schema.{new_schema}
use azure_client_tools.Samples.{json, json-IsLawful, Value, null, text}

-- The state of a handler is the number of its calls.
abbrev counting : RawHandlers json
counting = record {
  Handler = ℕ;
  get_handler_type = λ n. ok (codes "counting");
  start = λ n config. returns true (n + 1);
  stop = λ n. returns tt (n + 1);
  on_connection_status_changed = λ n status. throws (std (codes "offline")) (n + 1);
  is_configured = λ n. ok true;
  get_deployment_status = λ n. ok not_started;
  set_deployment_status = λ n status. returns tt (n + 1);
  invoke = λ n params.
      returns (record { is_present = true; code = pos 200; payload = json.to_styled_string params })
        (n + 1);
  get_deployment_status_json = λ n. ok json.empty_object;
  get_reported_schema = λ n. ok (record {
    interface_type = codes "dm";
    tags = codes "dm" ∷ [];
    interface_version = codes "1.0.0";
  });
}

abbrev name : Text
name = codes "a"

abbrev loaded : Stub ℕ
loaded = record { raw_factory_map = (name, ok 0) ∷ []; raw_handler_map = (name, 5) ∷ [] }

abbrev start_request : Request Value
start_request = record {
  target_type = raw_type;
  target_id = name;
  target_method = start_method;
  target_parameters = null;
}

loaded_has_name : lookup name loaded.raw_handler_map ≡ some 5
loaded_has_name = unfold lookup text_eq in refl

-- The same plug-in in a new process.
abbrev fresh : Stub ℕ
fresh = record { raw_factory_map = (name, ok 0) ∷ []; raw_handler_map = [] }

fresh_keys : HasDistinctKeys fresh.raw_handler_map
fresh_keys k = unfold count in ground arith

fresh_makes_name : lookup name fresh.raw_factory_map ≡ some (ok 0)
fresh_makes_name = unfold lookup text_eq in refl

b_is_not_a : text_eq (codes "b") name ≡ false
b_is_not_a = unfold text_eq in refl

-- A Base64 that sends the bytes as they are, and an agent that keeps what it is sent.
abbrev plain : Base64
plain = record { encode = ok; decode = ok }

abbrev agent : AgentServices json
agent = record {
  State = List Value;
  report = λ id status value s. returns tt (value ∷ s);
  send_event = λ id event_name value s. returns tt (value ∷ s);
  run_sync_ml = λ sid sync_ml s. returns (sid ++ sync_ml) (text sync_ml ∷ s);
}

binary_invoke-entry_point_example :
    binary_invoke json
      (some (entry_point json (plugin_operation json counting)))
      start_request
      loaded
    ≡ plugin_operation json counting start_request loaded
binary_invoke-entry_point_example =
    binary_invoke-entry_point json json-IsLawful (plugin_operation json counting) start_request
      loaded

proxy-same_example :
    (proxy_start json (remote_call json counting) name null loaded
      ≡ put_back name loaded (counting.start 5 null))
    × (proxy_stop json (remote_call json counting) name loaded
        ≡ put_back name loaded (counting.stop 5))
    × (proxy_connection json (remote_call json counting) name online loaded
        ≡ put_back name loaded (counting.on_connection_status_changed 5 online))
    × (proxy_type json (remote_call json counting) name loaded
        ≡ record { state = loaded; outcome = counting.get_handler_type 5 })
proxy-same_example =
    proxy-same json json-IsLawful counting name loaded 5 null online loaded_has_name

proxy_crossing_example :
    (proxy_get_status json (remote_call json counting) name loaded
      ≡ record { state = loaded; outcome = counting.get_deployment_status 5 >>= crossing_status })
    × (proxy_set_status json (remote_call json counting) name failed loaded
        ≡ checked
            (crossing_status failed)
            loaded
            (λ s. put_back name loaded (counting.set_deployment_status 5 s)))
    × (proxy_invoke json (remote_call json counting) name (text name) loaded
        ≡ put_back name loaded
            (with_result (counting.invoke 5 (text name)) (seen_invoke_result json)))
    × (proxy_status_json json (remote_call json counting) name loaded ≡ record {
      state = loaded;
      outcome = counting.get_deployment_status_json 5 >>= crossing_object json;
    })
    × (proxy_schema json (remote_call json counting) name loaded
        ≡ record { state = loaded; outcome = counting.get_reported_schema 5 >>= crossing_schema })
    × (proxy_is_configured json (remote_call json counting) name loaded ≡ record {
      state = loaded;
      outcome = counting.is_configured 5 >>= λ b. err (bad_format (codes "IsConfigured"));
    })
proxy_crossing_example =
    proxy_crossing json json-IsLawful counting name loaded 5 (text name) failed loaded_has_name

get_handlers_info_lem_example :
    get_handlers_info json (remote_call json counting) loaded ≡ returns (raw_info name ∷ []) loaded
get_handlers_info_lem_example = get_handlers_info_lem json json-IsLawful counting loaded

create_and_destroy_example :
    let made = create_proxy json (remote_call json counting) name fresh in
    let dropped = destroy_proxy json (remote_call json counting) name made.state in
    (made.outcome ≡ ok name)
    × (lookup name made.state.raw_handler_map ≡ some 0)
    × (lookup (codes "b") made.state.raw_handler_map ≡ lookup (codes "b") fresh.raw_handler_map)
    × (lookup (codes "b") dropped.state.raw_handler_map ≡ lookup (codes "b") fresh.raw_handler_map)
    × ((((counting.stop 0).outcome ≡ ok tt)
          × (dropped.outcome ≡ ok tt)
          × (ask json (remote_call json counting) name start_method null dropped.state
              ≡ throws unknown_handler dropped.state))
        ⊎ ((e : Exception) × ((counting.stop 0).outcome ≡ err e)
            × (dropped.outcome ≡ err e)
            × (lookup name dropped.state.raw_handler_map ≡ some (counting.stop 0).state)))
create_and_destroy_example =
    create_and_destroy json json-IsLawful counting name (codes "b") start_method null fresh 0
      fresh_keys b_is_not_a fresh_makes_name

services_same_example :
    (host_report json (agent_entry json plain agent) name failed null []
      ≡ checked (crossing_status failed) [] (λ s. agent.report name s null []))
    × (host_send_event json (agent_entry json plain agent) name name null []
        ≡ agent.send_event name name null [])
    × (server_run_sync_ml json (agent_entry json plain agent) plain name name []
        ≡ with_result (agent.run_sync_ml name (c_string name) []) (λ out. ok (c_string out)))
services_same_example =
    services_same json json-IsLawful plain agent name name name name failed null [] (λ bytes. refl)

-- A handler that failed once.
abbrev finished_handler : HandlerBase Value
finished_handler = new_handler json (codes "10:00") name new_schema

abbrev one_error : ErrorList
one_error = (codes "op", new_error) ∷ []

finalize_and_report-crosses_example :
    let meta =
      set_meta_status (codes "10:01") (final_status one_error) finished_handler.meta_data in
    let object = finished_object json meta one_error json.empty_object in
    (finalize_and_report json
        (from_plugin json plain agent)
        (codes "10:01")
        json.empty_object
        one_error
        finished_handler
        []
      ≡ send_finished json
          (from_agent json agent)
          (record finished_handler { meta_data = meta })
          (final_status one_error)
          object
          [])
    × (report_refreshing json (from_plugin json plain agent) finished_handler []
        ≡ report_refreshing json (from_agent json agent) finished_handler [])
    × (json.member object meta_key ≡ some (meta_to_json json meta))
    × (json.member (meta_to_json json meta) deployment_status_key
        ≡ some (json.of_text (deployment_status_to_string (final_status one_error))))
    × ((final_status one_error ≡ succeeded) ↔ (one_error ≡ []))
    × (json.member object errors_key ≡ some (error_list_to_json json one_error))
finalize_and_report-crosses_example =
    finalize_and_report-crosses json json-IsLawful plain agent (codes "10:01") json.empty_object
      one_error finished_handler [] refl
