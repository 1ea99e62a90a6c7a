-- ===== src/Transport/Monitor.antt =====
-- The threads of PluginNamedPipeBaseTransport.cpp (code/device-agent/common/Plugins), as steps that
-- interleave: RunMessageMonitor reads messages into two queues and signals events, RunRequestMonitor
-- serves the requests, and a caller of SendAndGetResponse waits for its response. The events for
-- requests and responses reset themselves when a wait ends; the one for the shutdown does not.
-- The callers hold a mutex, so there is one at a time.
pub mod Order
pub mod Wakeups
pub mod Examples
use azure_client_tools.Base.{
  ◌≡◌, ◌≢◌, refl, Bool, true, false, List, [], ◌∷◌, ◌++◌, Option, none, some, ◌==◌, if◌then◌else◌,
}
use azure_client_tools.Transport.Packets.{Message, request, response}
use azure_client_tools.Transport.Queue.{push, pop, clear}

-- Where RunMessageMonitor stands: before ReadMessage, or between a push and its SetEvent.
pub data MessageMonitor : Type 0 where
  reading notifying_request notifying_response returned : MessageMonitor

-- Where RunRequestMonitor stands: before its wait, or behind the wait for a request.
pub data RequestMonitor : Type 0 where
  waiting woken stopped : RequestMonitor

-- Where the caller of SendAndGetResponse stands.
pub data Caller : Type 0 where
  idle expecting answered : Caller

-- The last three fields are the history: what was read, the requests that went to
-- ProcessRequestMessage, and what the calls of SendAndGetResponse returned.
pub record Transport : Type 0 where
  pub request_queue : List Message
  pub response_queue : List Message
  pub request_notification : Bool
  pub response_notification : Bool
  pub shutdown_notification : Bool
  pub message_monitor : MessageMonitor
  pub request_monitor : RequestMonitor
  pub caller : Caller
  pub messages_read : List Message
  pub processed : List Message
  pub answers : List (Option Message)

-- As Initialize leaves it: the events reset, the queues cleared, the threads started.
unfoldable pub initialize : Transport
unfolding clear
initialize = record {
  request_queue = clear [];
  response_queue = clear [];
  request_notification = false;
  response_notification = false;
  shutdown_notification = false;
  message_monitor = reading;
  request_monitor = waiting;
  caller = idle;
  messages_read = [];
  processed = [];
  answers = [];
}

-- RunMessageMonitor with the message that ReadMessage returned, up to the push.
unfoldable pub on_message : Message → Transport → Transport
unfolding push
on_message m t =
    let t' = record t { messages_read = t.messages_read ++ m ∷ [] } in
    if m.message_type == request
    then record t' { request_queue = push m t.request_queue; message_monitor = notifying_request }
    else if m.message_type == response
    then record t' {
      response_queue = push m t.response_queue;
      message_monitor = notifying_response;
    }
    else t'

-- SetEvent(_hRequestNotification).
unfoldable pub notify_request : Transport → Transport
notify_request t = record t { request_notification = true; message_monitor = reading }

-- SetEvent(_hResponseNotification).
unfoldable pub notify_response : Transport → Transport
notify_response t = record t { response_notification = true; message_monitor = reading }

-- The end of WaitForMultipleObjects with the event for requests, which comes first.
unfoldable pub wake : Transport → Transport
wake t = record t { request_notification = false; request_monitor = woken }

served : Option Message × List Message → Transport → Transport
served (none, q) t = record t { request_queue = q; request_monitor = waiting }
served (some m, q) t = record t {
  request_queue = q;
  request_monitor = waiting;
  processed = t.processed ++ m ∷ [];
}

-- The pop of one request, and its processing, whether that throws or not.
unfoldable pub serve : Transport → Transport
unfolding served pop
serve t = served (pop t.request_queue) t

-- SendAndGetResponse: after its WriteMessage, after its wait, and at its return.
unfoldable pub send : Transport → Transport
send t = record t { caller = expecting }

unfoldable pub wake_caller : Transport → Transport
wake_caller t = record t { response_notification = false; caller = answered }

unfoldable pub get_response : Transport → Transport
unfolding pop
get_response t =
    let (m, q) = pop t.response_queue in
    record t { response_queue = q; caller = idle; answers = t.answers ++ m ∷ [] }

pub data Step : Transport → Transport → Type 0 where
  message : (t : Transport) (m : Message) → t.message_monitor ≡ reading → Step t (on_message m t)
  pipe_ended :
      (t : Transport)
      → t.message_monitor ≡ reading
      → Step t (record t { message_monitor = returned })
  request_notified :
      (t : Transport) → t.message_monitor ≡ notifying_request → Step t (notify_request t)
  response_notified :
      (t : Transport) → t.message_monitor ≡ notifying_response → Step t (notify_response t)
  wakes :
      (t : Transport)
      → t.request_monitor ≡ waiting
      → t.request_notification ≡ true
      → Step t (wake t)
  serves : (t : Transport) → t.request_monitor ≡ woken → Step t (serve t)
  shuts_down : (t : Transport) → Step t (record t { shutdown_notification = true })
  stops :
      (t : Transport)
      → t.request_monitor ≡ waiting
      → t.request_notification ≡ false
      → t.shutdown_notification ≡ true
      → Step t (record t { request_monitor = stopped })
  sends : (t : Transport) → t.caller ≡ idle → Step t (send t)
  caller_wakes :
      (t : Transport)
      → t.caller ≡ expecting
      → t.response_notification ≡ true
      → Step t (wake_caller t)
  answers_caller : (t : Transport) → t.caller ≡ answered → Step t (get_response t)

pub data Reachable : Transport → Type 0 where
  initialized : Reachable initialize
  next : {t u : Transport} → Reachable t → Step t u → Reachable u
