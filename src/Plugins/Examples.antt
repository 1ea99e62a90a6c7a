-- ===== src/Plugins/Examples.antt =====
-- A proxy of a plug-in with one handler, whose host has gone.
use azure_client_tools.Base.{
  ◌≡◌, ℕ, true, [], ◌∷◌, codes, lookup, ok, arith, HasDistinctKeys, count,
}
use azure_client_tools.Plugins.{Proxy, Reply, send_cached_handler_state}
use azure_client_tools.Plugins.Replay.{send_cached_handler_state_keeps}
use azure_client_tools.Samples.{json, json-IsLawful, Value}

abbrev proxy : Proxy Value
proxy = record {
  has_transport = true;
  raw_handlers_states =
      (
        codes "time",
        record {
          started = true;
          start_params = json.empty_object;
          update_connection_params = json.null;
        },
      )
      ∷ [];
  sent = [];
}

-- The host answers each request with an empty object.
abbrev answers : ℕ → Reply Value
answers n = record { error_code = 0; payload = codes "{}"; value = ok json.empty_object }

proxy_keys : HasDistinctKeys proxy.raw_handlers_states
proxy_keys k = unfold count in ground arith

send_cached_handler_state_keeps_example :
    lookup (codes "time") (send_cached_handler_state json answers proxy).proxy.raw_handlers_states
    ≡ lookup (codes "time") proxy.raw_handlers_states
send_cached_handler_state_keeps_example =
    send_cached_handler_state_keeps json json-IsLawful answers proxy (codes "time") proxy_keys
