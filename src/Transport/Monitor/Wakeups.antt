-- ===== src/Transport/Monitor/Wakeups.antt =====
-- Two requests that are read before RunRequestMonitor wakes leave one signal, and it takes one request.
use azure_client_tools.Base.{
  ◌≡◌, ◌≢◌, refl, ap, subst, ◌∙◌, inl, inr, false, [], ◌∷◌, ◌++◌, length, length-append, ◌==◌,
  arith, Bool-cases,
}
use azure_client_tools.Transport.Packets.{Message, request, response}
use azure_client_tools.Transport.Queue.{push, pop, clear}
use azure_client_tools.Transport.Monitor.{
  reading, notifying_request, woken, Transport, initialize, on_message, notify_request,
  notify_response, wake, serve, served, send, wake_caller, get_response, Step, message, pipe_ended,
  request_notified, response_notified, wakes, serves, shuts_down, stops, sends, caller_wakes,
  answers_caller, Reachable, initialized, next,
}
use azure_client_tools.Transport.Monitor.Order.{of_type, of_type-append}

-- Nothing will wake RunRequestMonitor for a request.
pub record IsAsleep (t : Transport) : Type 0 where
  pub not_woken : t.request_monitor ≢ woken
  pub no_signal : t.request_notification ≡ false
  pub none_due : t.message_monitor ≢ notifying_request

-- Steps in the course of which no request is read.
pub data Quiet (t : Transport) : Transport → Type 0 where
  here : Quiet t t
  further :
      {u v : Transport}
      → Quiet t u
      → Step u v
      → of_type request v.messages_read ≡ of_type request u.messages_read
      → Quiet t v

on_message-IsAsleep :
    (t : Transport) (m : Message)
    → t.message_monitor ≡ reading
    → of_type request (on_message m t).messages_read ≡ of_type request t.messages_read
    → IsAsleep t
    → IsAsleep (on_message m t) × ((on_message m t).processed ≡ t.processed)
unfolding on_message
on_message-IsAsleep t m h quiet a = elim (Bool-cases (m.message_type == request)) [
  | inl q ↦ absurd (
      ground (
        arith,
        q,
        ap length quiet,
        of_type-append request m t.messages_read,
        length-append (of_type request t.messages_read) (m ∷ []),
      ))
  | inr n ↦ elim (Bool-cases (m.message_type == response)) [
    | inl p ↦
        rw (n, p, on_message)
          (record { not_woken = a.not_woken; no_signal = a.no_signal; none_due = λ e. cc }, refl)
    | inr o ↦
        rw (n, o, on_message)
          (record { not_woken = a.not_woken; no_signal = a.no_signal; none_due = a.none_due }, refl)
  ]
]

Step-IsAsleep :
    {t u : Transport}
    → Step t u
    → of_type request u.messages_read ≡ of_type request t.messages_read
    → IsAsleep t
    → IsAsleep u × (u.processed ≡ t.processed)
unfolding notify_request notify_response wake send wake_caller get_response
Step-IsAsleep (message t m h) q a = on_message-IsAsleep t m h q a
Step-IsAsleep (pipe_ended t h) q a =
    (record { not_woken = a.not_woken; no_signal = a.no_signal; none_due = λ e. cc }, refl)
Step-IsAsleep (request_notified t h) q a = absurd (a.none_due h)
Step-IsAsleep (response_notified t h) q a =
    (record { not_woken = a.not_woken; no_signal = a.no_signal; none_due = λ e. cc }, refl)
Step-IsAsleep (wakes t w n) q a = absurd (ground (arith, n, a.no_signal))
Step-IsAsleep (serves t w) q a = absurd (a.not_woken w)
Step-IsAsleep (shuts_down t) q a =
    (record { not_woken = a.not_woken; no_signal = a.no_signal; none_due = a.none_due }, refl)
Step-IsAsleep (stops t w n s) q a =
    (record { not_woken = λ e. cc; no_signal = a.no_signal; none_due = a.none_due }, refl)
Step-IsAsleep (sends t c) q a =
    (record { not_woken = a.not_woken; no_signal = a.no_signal; none_due = a.none_due }, refl)
Step-IsAsleep (caller_wakes t c n) q a =
    (record { not_woken = a.not_woken; no_signal = a.no_signal; none_due = a.none_due }, refl)
Step-IsAsleep (answers_caller t c) q a =
    (record { not_woken = a.not_woken; no_signal = a.no_signal; none_due = a.none_due }, refl)

Quiet-IsAsleep :
    {t u : Transport} → Quiet t u → IsAsleep t → IsAsleep u × (u.processed ≡ t.processed)
Quiet-IsAsleep here a = (a, refl)
Quiet-IsAsleep (further r s q) a =
    let (b, same) = Quiet-IsAsleep r a in let (c, same') = Step-IsAsleep s q b in (c, same' ∙ same)

abbrev read_request : Message → Transport → Transport
read_request m t = record t {
  messages_read = t.messages_read ++ m ∷ [];
  request_queue = t.request_queue ++ m ∷ [];
  message_monitor = notifying_request;
}

read_request-Step :
    (t : Transport) (m : Message)
    → t.message_monitor ≡ reading
    → m.message_type ≡ request
    → Step t (read_request m t)
read_request-Step t m h e =
    let same : on_message m t ≡ read_request m t = unfold on_message push in ground (arith, e) in
    subst (Step t) same (message t m h)

two_read : Message → Message → Transport
two_read m m' =
    serve (wake (notify_request (read_request m' (notify_request (read_request m initialize)))))

two_read-Reachable :
    (m m' : Message)
    → m.message_type ≡ request
    → m'.message_type ≡ request
    → Reachable (two_read m m')
unfolding two_read initialize notify_request wake clear
two_read-Reachable m m' e e' =
    let s₁ = read_request m initialize in
    let s₂ = notify_request s₁ in
    let s₃ = read_request m' s₂ in
    let s₄ = notify_request s₃ in
    let r₁ = next initialized (read_request-Step initialize m refl e) in
    let r₂ = next r₁ (request_notified s₁ refl) in
    let r₃ = next r₂ (read_request-Step s₂ m' refl e') in
    let r₄ = next r₃ (request_notified s₃ refl) in
    let r₅ = next r₄ (wakes s₄ refl refl) in next r₅ (serves (wake s₄) refl)

two_read-IsAsleep : (m m' : Message) → IsAsleep (two_read m m')
unfolding two_read initialize notify_request wake serve served pop clear
two_read-IsAsleep m m' = record { not_woken = λ e. cc; no_signal = refl; none_due = λ e. cc }

-- For any two requests there is a run in which both are read and only the first is processed, such that
-- whatever the threads do from there, the second one is not processed unless a further request is read.
pub second_request_waits :
    (m m' : Message)
    → m.message_type ≡ request
    → m'.message_type ≡ request
    → (t : Transport) × Reachable t
      × (of_type request t.messages_read ≡ m ∷ m' ∷ [])
      × ((u : Transport) → Quiet t u → u.processed ≡ m ∷ [])
unfolding two_read initialize notify_request wake serve served pop clear of_type
second_request_waits m m' e e' = (
  two_read m m',
  two_read-Reachable m m' e e',
  ground (arith, e, e'),
  λ u q. (Quiet-IsAsleep q (two_read-IsAsleep m m')).1,
)
