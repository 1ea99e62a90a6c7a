-- ===== src/Transport/Monitor/Order.antt =====
-- No message is lost, doubled or overtaken, and no wait ends without a message to take.
use azure_client_tools.Base.{
  ℕ, ◌+◌, ◌≤◌, ◌≡◌, refl, sym, ap, ◌∙◌, inl, inr, Bool, true, false, List, [], ◌∷◌, ◌++◌,
  append_assoc, append-nil, map, some, length, length-append, ◌==◌, if◌then◌else◌, arith,
  Bool-cases,
}
use azure_client_tools.Transport.Packets.{Message, request, response}
use azure_client_tools.Transport.Queue.{push, pop, clear}
use azure_client_tools.Transport.Monitor.{
  MessageMonitor, reading, notifying_request, notifying_response, RequestMonitor, woken, Caller,
  answered, Transport, initialize, on_message, notify_request, notify_response, wake, serve, served,
  send, wake_caller, get_response, Step, message, pipe_ended, request_notified, response_notified,
  wakes, serves, shuts_down, stops, sends, caller_wakes, answers_caller, Reachable, initialized,
  next,
}

-- The messages of one type, in order.
unfoldable pub of_type : ℕ → List Message → List Message
of_type k [] = []
of_type k (m ∷ ms) = if m.message_type == k then m ∷ of_type k ms else of_type k ms

pub of_type-append :
    (k : ℕ) (m : Message) (ms : List Message)
    → of_type k (ms ++ m ∷ []) ≡ of_type k ms ++ (if m.message_type == k then m ∷ [] else [])
unfolding of_type
of_type-append k m [] = ground arith
of_type-append k m (x ∷ ms) = ground (arith, of_type-append k m ms)

abbrev bit : Bool → ℕ
bit true = 1
bit false = 0

abbrev request_due : MessageMonitor → ℕ
request_due notifying_request = 1
request_due _ = 0

abbrev response_due : MessageMonitor → ℕ
response_due notifying_response = 1
response_due _ = 0

abbrev being_served : RequestMonitor → ℕ
being_served woken = 1
being_served _ = 0

abbrev being_answered : Caller → ℕ
being_answered answered = 1
being_answered _ = 0

-- Each signal on its way stands for a message in the queue.
pub record Inv (t : Transport) : Type 0 where
  pub requests : of_type request t.messages_read ≡ t.processed ++ t.request_queue
  pub responses :
      map some (of_type response t.messages_read) ≡ t.answers ++ map some t.response_queue
  pub request_signals :
      bit t.request_notification + request_due t.message_monitor + being_served t.request_monitor
      ≤ length t.request_queue
  pub response_signals :
      bit t.response_notification + response_due t.message_monitor + being_answered t.caller
      ≤ length t.response_queue

initialize-Inv : Inv initialize
unfolding initialize clear of_type
initialize-Inv = record {
  requests = refl;
  responses = refl;
  request_signals = omega arith;
  response_signals = omega arith;
}

map-append :
    (xs : List Message) (m : Message) → map some (xs ++ m ∷ []) ≡ map some xs ++ some m ∷ []
map-append [] m = refl
map-append (x ∷ xs) m = ap (◌∷◌ (some x)) (map-append xs m)

on_message-Inv :
    (t : Transport) (m : Message) → t.message_monitor ≡ reading → Inv t → Inv (on_message m t)
unfolding on_message push
on_message-Inv t m h i = elim (Bool-cases (m.message_type == request)) [
  | inl q ↦
      let other : (m.message_type == response) ≡ false = ground arith in
      rw (q, on_message)
        (record {
          requests =
              of_type-append request m t.messages_read
              ∙ rw (q, i.requests) (append_assoc t.processed t.request_queue (m ∷ []));
          responses =
              ap (map some) (of_type-append response m t.messages_read ∙ rw (other, append-nil))
              ∙ i.responses;
          request_signals =
              ground (arith, i.request_signals, h, length-append t.request_queue (m ∷ []));
          response_signals = ground (arith, i.response_signals, h);
        })
  | inr n ↦ elim (Bool-cases (m.message_type == response)) [
    | inl p ↦
        rw (n, p, on_message)
          (record {
            requests = of_type-append request m t.messages_read ∙ rw (n, append-nil) i.requests;
            responses =
                ap (map some) (of_type-append response m t.messages_read)
                ∙ rw p (map-append (of_type response t.messages_read) m)
                ∙ ap (λ l. l ++ some m ∷ []) i.responses
                ∙ append_assoc t.answers (map some t.response_queue) (some m ∷ [])
                ∙ ap (t.answers ++◌) (sym (map-append t.response_queue m));
            request_signals = ground (arith, i.request_signals, h);
            response_signals =
                ground (arith, i.response_signals, h, length-append t.response_queue (m ∷ []));
          })
    | inr o ↦
        rw (n, o, on_message)
          (record {
            requests = of_type-append request m t.messages_read ∙ rw (n, append-nil) i.requests;
            responses =
                ap (map some) (of_type-append response m t.messages_read ∙ rw (o, append-nil))
                ∙ i.responses;
            request_signals = i.request_signals;
            response_signals = i.response_signals;
          })
  ]
]

serve-Inv : (t : Transport) → t.request_monitor ≡ woken → Inv t → Inv (serve t)
unfolding serve pop served
serve-Inv t w i = by_queue t.request_queue refl
  where
    by_queue : (q : List Message) → t.request_queue ≡ q → Inv (serve t)
    by_queue [] e = absurd (ground (arith, i.request_signals, e, w))
    by_queue (m ∷ q) e =
        rw (e, serve)
          (record {
            requests = i.requests ∙ rw e (sym (append_assoc t.processed (m ∷ []) q));
            responses = i.responses;
            request_signals = ground (arith, i.request_signals, e, w);
            response_signals = i.response_signals;
          })

get_response-Inv : (t : Transport) → t.caller ≡ answered → Inv t → Inv (get_response t)
unfolding get_response pop
get_response-Inv t w i = by_queue t.response_queue refl
  where
    by_queue : (q : List Message) → t.response_queue ≡ q → Inv (get_response t)
    by_queue [] e = absurd (ground (arith, i.response_signals, e, w))
    by_queue (m ∷ q) e =
        rw (e, get_response)
          (record {
            requests = i.requests;
            responses =
                i.responses ∙ rw e (sym (append_assoc t.answers (some m ∷ []) (map some q)));
            request_signals = i.request_signals;
            response_signals = ground (arith, i.response_signals, e, w);
          })

Step-Inv : {t u : Transport} → Step t u → Inv t → Inv u
unfolding notify_request notify_response wake send wake_caller
Step-Inv (message t m h) i = on_message-Inv t m h i
Step-Inv (pipe_ended t h) i = record {
  requests = i.requests;
  responses = i.responses;
  request_signals = ground (arith, i.request_signals, h);
  response_signals = ground (arith, i.response_signals, h);
}
Step-Inv (request_notified t h) i = record {
  requests = i.requests;
  responses = i.responses;
  request_signals = ground (arith, i.request_signals, h);
  response_signals = ground (arith, i.response_signals, h);
}
Step-Inv (response_notified t h) i = record {
  requests = i.requests;
  responses = i.responses;
  request_signals = ground (arith, i.request_signals, h);
  response_signals = ground (arith, i.response_signals, h);
}
Step-Inv (wakes t w n) i = record {
  requests = i.requests;
  responses = i.responses;
  request_signals = ground (arith, i.request_signals, w, n);
  response_signals = ground (arith, i.response_signals);
}
Step-Inv (serves t w) i = serve-Inv t w i
Step-Inv (shuts_down t) i = record {
  requests = i.requests;
  responses = i.responses;
  request_signals = ground (arith, i.request_signals);
  response_signals = ground (arith, i.response_signals);
}
Step-Inv (stops t w n s) i = record {
  requests = i.requests;
  responses = i.responses;
  request_signals = ground (arith, i.request_signals, w);
  response_signals = ground (arith, i.response_signals);
}
Step-Inv (sends t c) i = record {
  requests = i.requests;
  responses = i.responses;
  request_signals = ground (arith, i.request_signals);
  response_signals = ground (arith, i.response_signals, c);
}
Step-Inv (caller_wakes t c n) i = record {
  requests = i.requests;
  responses = i.responses;
  request_signals = ground (arith, i.request_signals);
  response_signals = ground (arith, i.response_signals, c, n);
}
Step-Inv (answers_caller t c) i = get_response-Inv t c i

Reachable-Inv : {t : Transport} → Reachable t → Inv t
Reachable-Inv initialized = initialize-Inv
Reachable-Inv (next r s) = Step-Inv s (Reachable-Inv r)

-- However the threads interleave: the requests that were read are those that were processed, in order,
-- followed by those that are still queued.
pub requests_in_order :
    (t : Transport) → Reachable t → of_type request t.messages_read ≡ t.processed ++ t.request_queue
requests_in_order t r = (Reachable-Inv r).requests

-- However the threads interleave: the calls of SendAndGetResponse return the responses that were read,
-- in order and each once, and never a null pointer; the responses not yet returned are queued.
pub responses_in_order :
    (t : Transport)
    → Reachable t
    → map some (of_type response t.messages_read) ≡ t.answers ++ map some t.response_queue
responses_in_order t r = (Reachable-Inv r).responses

-- When RunRequestMonitor wakes for a request, it finds one and processes it.
pub woken_monitor_serves :
    (t : Transport)
    → Reachable t
    → t.request_monitor ≡ woken
    → (m : Message) × ((serve t).processed ≡ t.processed ++ m ∷ [])
unfolding serve pop
woken_monitor_serves t r w = by_queue t.request_queue refl
  where
    by_queue :
        (q : List Message)
        → t.request_queue ≡ q
        → (m : Message) × ((serve t).processed ≡ t.processed ++ m ∷ [])
    by_queue [] e = absurd (ground (arith, (Reachable-Inv r).request_signals, e, w))
    by_queue (m ∷ q) e = (m, rw (e, serve))
