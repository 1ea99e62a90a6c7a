-- ===== src/Transport/Monitor/Examples.antt =====
-- A run in which one request comes in and is served, and the requests that the theorems are tried on.
use azure_client_tools.Base.{◌≡◌, ◌++◌, refl, [], ◌∷◌, map, some}
use azure_client_tools.Transport.Packets.{Message, request, response}
use azure_client_tools.Transport.Queue.{push, clear}
use azure_client_tools.Transport.Monitor.{
  Transport, initialize, on_message, notify_request, notify_response, wake, serve, message,
  request_notified, response_notified, wakes, Reachable, initialized, next,
}
use azure_client_tools.Transport.Monitor.Order.{
  of_type, requests_in_order, responses_in_order, woken_monitor_serves,
}
use azure_client_tools.Transport.Monitor.Wakeups.{Quiet, second_request_waits}

abbrev a_request : Message
a_request = record { message_type = request; call_type = 4; error_code = 0; contents = 1 ∷ [] }

abbrev b_request : Message
b_request = record { message_type = request; call_type = 4; error_code = 0; contents = 2 ∷ [] }

abbrev a_response : Message
a_response = record { message_type = response; call_type = 0; error_code = 0; contents = 3 ∷ [] }

abbrev run : Transport
run =
    wake
      (notify_response (on_message a_response (notify_request (on_message a_request initialize))))

run-Reachable : Reachable run
unfolding initialize on_message notify_request notify_response wake push clear
run-Reachable =
    next
      (next
        (next
          (next (next initialized (message initialize a_request refl))
            (request_notified (on_message a_request initialize) refl))
          (message (notify_request (on_message a_request initialize)) a_response refl))
        (response_notified
          (on_message a_response (notify_request (on_message a_request initialize))) refl))
      (wakes
        (notify_response (on_message a_response (notify_request (on_message a_request initialize))))
        refl refl)

requests_in_order_example : of_type request run.messages_read ≡ run.processed ++ run.request_queue
requests_in_order_example = requests_in_order run run-Reachable

responses_in_order_example :
    map some (of_type response run.messages_read) ≡ run.answers ++ map some run.response_queue
responses_in_order_example = responses_in_order run run-Reachable

woken_monitor_serves_example : (m : Message) × ((serve run).processed ≡ run.processed ++ m ∷ [])
woken_monitor_serves_example =
    woken_monitor_serves run run-Reachable
      (unfold initialize on_message notify_request notify_response wake push in refl)

second_request_waits_example :
    (t : Transport) × Reachable t
    × (of_type request t.messages_read ≡ a_request ∷ b_request ∷ [])
    × ((u : Transport) → Quiet t u → u.processed ≡ a_request ∷ [])
second_request_waits_example = second_request_waits a_request b_request refl refl
