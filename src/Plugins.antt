-- ===== src/Plugins.antt =====
-- code/device-agent/agent/Plugins/OutOfProcPluginBinaryProxy.cpp: the agent's side of a plug-in that runs
-- in a process of its own. The proxy remembers what it told each handler, and tells it again to a new
-- process.
pub mod Replay
pub mod Examples
use azure_client_tools.Base.{
  ℕ, zero, suc, ◌+◌, ◌≡◌, Bool, true, false, not, ◌&&◌, ◌||◌, List, [], ◌∷◌, ◌++◌, Option, none,
  some, Text, text_eq, codes, Map, lookup, insert, length, ◌==◌, if◌then◌else◌, Result, ok, err,
  ◌>>=◌, pos,
}
use azure_client_tools.Json.{Json}
use azure_client_tools.Reporting.{Exception, dm}
use azure_client_tools.Reporting.Operation.{or_logic_error, logic_error}

pub record HandlerState (V : Type 0) : Type 0 where
  pub started : Bool
  pub start_params : V
  pub update_connection_params : V

-- The arguments of Invoke.
pub record Request (V : Type 0) : Type 0 where
  pub target_type : Text
  pub target_id : Text
  pub target_method : Text
  pub target_parameters : V

-- The answer of the plug-in host: the error code, the bytes up to the first zero, and what
-- CrossBinaryResponse::GetPayloadFromJsonString makes of them.
pub record Reply (V : Type 0) : Type 0 where
  pub error_code : ℕ
  pub payload : Text
  pub value : Result Exception V

-- `sent` holds the requests that went to the host, in order.
pub record Proxy (V : Type 0) : Type 0 where
  pub has_transport : Bool
  pub raw_handlers_states : Map (HandlerState V)
  pub sent : List (Request V)

-- How a call leaves the proxy, and what it returns or throws.
pub record Called (V A : Type 0) : Type 0 where
  pub proxy : Proxy V
  pub outcome : Result Exception A

abbrev pub host_type : Text
host_type = codes "host"

abbrev pub raw_type : Text
raw_type = codes "raw"

abbrev pub create_raw_handler : Text
create_raw_handler = codes "createRawHandler"

abbrev pub handler_id : Text
handler_id = codes "id"

abbrev pub start_method : Text
start_method = codes "start"

abbrev pub stop_method : Text
stop_method = codes "stop"

abbrev pub connection_method : Text
connection_method = codes "onConnectionStatusChanged"

unfoldable pub uninitialized_transport : Exception
uninitialized_transport = dm (record {
  subsystem = codes "DeviceAgent";
  code = pos 2017;
  message = codes "Transport is not initialized";
})

unfoldable pub invoke_failed : ℕ → Exception
invoke_failed code = dm (record {
  subsystem = codes "DeviceAgent";
  code = pos code;
  message = codes "PluginInvoke returned error.";
})

unfoldable pub invalid_output : Exception
invalid_output = dm (record {
  subsystem = codes "DeviceAgent";
  code = pos 2001;
  message = codes "PluginInvoke returned invalid buffer.";
})

module _ (J : Json) where
  abbrev States : Type 0
  States = Map (HandlerState J.Value)

  unfoldable pub new_handler_state : HandlerState J.Value
  new_handler_state = record {
    started = false;
    start_params = J.null;
    update_connection_params = J.null;
  }

  -- `(*handlersStates)[id]`, which is a new state where there is none.
  abbrev pub or_new : Option (HandlerState J.Value) → HandlerState J.Value
  or_new none = new_handler_state
  or_new (some s) = s

  unfoldable pub cache_create : Text → States → States
  unfolding new_handler_state
  cache_create id m = elim (lookup id m) [ none ↦ insert id new_handler_state m | some s ↦ m ]

  unfoldable pub cache_call : Text → Text → J.Value → States → States
  unfolding new_handler_state
  cache_call id method params m =
      let s = or_new (lookup id m) in
      if text_eq method start_method
      then insert id (record s { started = true; start_params = params }) m
      else if text_eq method stop_method
      then insert id (record s { started = false }) m
      else if text_eq method connection_method
      then insert id (record s { update_connection_params = params }) m
      else m

  pub created_id : J.Value → Result Exception Text
  created_id params =
      or_logic_error (J.member params handler_id) >>= λ v. or_logic_error (J.as_text v)

  -- For a handler of another type than raw the calls that are cached go through a null pointer; here they
  -- throw, and there are no such handlers.
  unfoldable pub cache_handler_state : Request J.Value → States → Result Exception States
  unfolding cache_create cache_call created_id
  cache_handler_state r m =
      if text_eq r.target_type host_type
      then if text_eq r.target_method create_raw_handler
        then (created_id r.target_parameters >>= λ id. ok (cache_create id m))
        else ok m
      else if text_eq r.target_type raw_type
      then ok (cache_call r.target_id r.target_method r.target_parameters m)
      else if text_eq r.target_method start_method
          || (text_eq r.target_method stop_method || text_eq r.target_method connection_method)
      then err logic_error
      else ok m

  answer : Reply J.Value → Result Exception J.Value
  answer a =
      if not (a.error_code == 0)
      then err (invoke_failed a.error_code)
      else if length a.payload == 0
      then err invalid_output
      else a.value

  exchanged :
      (ℕ → Reply J.Value)
      → Request J.Value
      → Proxy J.Value
      → Result Exception States
      → Called J.Value J.Value
  unfolding answer
  exchanged reply r p (err e) = record { proxy = p; outcome = err e }
  exchanged reply r p (ok m) = record {
    proxy = record p { raw_handlers_states = m; sent = p.sent ++ r ∷ [] };
    outcome = answer (reply (length p.sent));
  }

  -- `reply n` is the host's answer to the n-th request.
  unfoldable pub invoke :
      (ℕ → Reply J.Value) → Request J.Value → Proxy J.Value → Called J.Value J.Value
  unfolding exchanged
  invoke reply r p =
      if p.has_transport
      then exchanged reply r p (cache_handler_state r p.raw_handlers_states)
      else record { proxy = p; outcome = err uninitialized_transport }

  unfoldable pub create_request : Text → Request J.Value
  create_request id = record {
    target_type = host_type;
    target_id = [];
    target_method = create_raw_handler;
    target_parameters = J.with_member J.empty_object handler_id (J.of_text id);
  }

  unfoldable pub start_or_stop_request : Text → HandlerState J.Value → Request J.Value
  start_or_stop_request id s = record {
    target_type = raw_type;
    target_id = id;
    target_method = if s.started then start_method else stop_method;
    target_parameters = s.start_params;
  }

  unfoldable pub connection_request : Text → HandlerState J.Value → Request J.Value
  connection_request id s = record {
    target_type = raw_type;
    target_id = id;
    target_method = connection_method;
    target_parameters = s.update_connection_params;
  }

  -- Calls of Invoke, one after the other, up to the first that throws.
  unfoldable pub invoke_all :
      (ℕ → Reply J.Value) → List (Request J.Value) → Proxy J.Value → Called J.Value (Unit {0})
  invoke_all reply [] p = record { proxy = p; outcome = ok tt }
  invoke_all reply (r ∷ rs) p =
      let c = invoke reply r p in
      let rest = invoke_all reply rs c.proxy in
      elim c.outcome [ err e ↦ record { proxy = c.proxy; outcome = err e } | ok v ↦ rest ]

  -- The loop of SendCachedHandlerState, as the calls that it makes.
  unfoldable pub cached_requests : States → List (Request J.Value)
  unfolding create_request start_or_stop_request connection_request
  cached_requests [] = []
  cached_requests ((id, s) ∷ m) =
      create_request id ∷ start_or_stop_request id s ∷ connection_request id s ∷ cached_requests m

  unfoldable pub send_cached_handler_state :
      (ℕ → Reply J.Value) → Proxy J.Value → Called J.Value (Unit {0})
  unfolding invoke_all cached_requests
  send_cached_handler_state reply p = invoke_all reply (cached_requests p.raw_handlers_states) p
