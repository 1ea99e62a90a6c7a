-- ===== src/Host/Examples.antt =====
-- A host with two handlers that count their calls: "a" depends on "b".
use azure_client_tools.Base.{
  ◌≡◌, ◌⊎◌, ◌≤◌, ◌<◌, refl, sym, subst, false, List, [], ◌∷◌, none, some, Text, codes, text_eq,
  lookup, length, ok, err, if◌then◌else◌, HasDistinctKeys, count, arith, text_eq_iff,
}
use azure_client_tools.Reporting.{Exception, pending}
use azure_client_tools.Utilities.DependencySort.Order.{IsInvocationOrder}
use azure_client_tools.Utilities.DependencySort.Met.{IsOrdered}
use azure_client_tools.Host.{AzureRawHost}
use azure_client_tools.Host.Messages.{
  mark_status, mark_names, mark_keys, mark_one, mark_found, report_all,
}
use azure_client_tools.Host.Registry.{handler_invoke_sequence}
use azure_client_tools.Host.Sequence.{dependencies_of, handler_invoke_sequence_orders}
use azure_client_tools.Host.Calls.{desired_of, is_one_of, on_device_twin_received}
use azure_client_tools.Host.Calls.Routing.{named, IsOrderedAmong}
use azure_client_tools.Host.Calls.Processed.{given, left_by, results}
use azure_client_tools.Host.Calls.Twins.{twin_invokes, twin_leaves_others}
use azure_client_tools.Host.Lifecycle.{ServiceParameters, signal_start}
use azure_client_tools.Host.Lifecycle.Signals.{Started, start_signal_activates}
use azure_client_tools.Samples.{json, counters, Counter, Value, open_hub, two_handlers, handler_a}

two_handlers_keys : HasDistinctKeys two_handlers.raw_handler_map
two_handlers_keys k =
    unfold count in ground (arith, text_eq_iff k (codes "a"), text_eq_iff k (codes "b"), a_not_b)
  where
    a_not_b : text_eq (codes "a") (codes "b") ≡ false
    a_not_b = unfold text_eq in refl

handler_invoke_sequence_orders_example :
    ((h' : AzureRawHost Counter Value) × (handler_invoke_sequence two_handlers ≡ some (ok h'))
      × (h' ≡ record two_handlers { raw_handler_sequence = h'.raw_handler_sequence })
      × IsInvocationOrder (dependencies_of two_handlers.raw_handler_map) h'.raw_handler_sequence)
    ⊎ ((e : Exception) × (handler_invoke_sequence two_handlers ≡ some (err e))
        × ((o : List Text) → ¬ IsInvocationOrder (dependencies_of two_handlers.raw_handler_map) o))
handler_invoke_sequence_orders_example =
    handler_invoke_sequence_orders two_handlers two_handlers_keys

-- A twin that has a section for "a" and one for a handler that is not registered.
abbrev desired : Value
desired =
    json.with_member (json.with_member json.empty_object (codes "x") json.null) (codes "a")
      json.empty_object

abbrev names : List Text
names = codes "x" ∷ codes "a" ∷ []

sequence-IsOrdered :
    IsOrdered (dependencies_of two_handlers.raw_handler_map) [] two_handlers.raw_handler_sequence
unfolding dependencies_of lookup count text_eq
sequence-IsOrdered = (λ a p. absurd (omega arith), (λ a p. p, tt))

-- The host after MarkStatus.
abbrev marked : AzureRawHost Counter Value
marked = (mark_status json counters open_hub desired pending two_handlers).host

marks :
    mark_status json counters open_hub desired pending two_handlers
    ≡ record { host = marked; outcome = ok tt }
unfolding mark_status mark_names mark_keys mark_one mark_found report_all lookup text_eq
marks = refl

marked_sequence : marked.raw_handler_sequence ≡ two_handlers.raw_handler_sequence
unfolding mark_status mark_names mark_keys mark_one mark_found report_all lookup text_eq
marked_sequence = refl

sequence_once : (k : Text) → count k two_handlers.raw_handler_sequence ≤ 1
sequence_once k =
    unfold count in ground (arith, text_eq_iff k (codes "a"), text_eq_iff k (codes "b"), a_not_b)
  where
    a_not_b : text_eq (codes "a") (codes "b") ≡ false
    a_not_b = unfold text_eq in refl

twin_invokes_example :
    let answer = on_device_twin_received json counters open_hub false (ok desired) two_handlers in
    let reached = named names marked.raw_handler_sequence in
    IsOrderedAmong (dependencies_of two_handlers.raw_handler_map) names [] reached
    × (answer.outcome ≡ ok (results json counters open_hub desired reached marked))
    × ((j : Text)
        → lookup j answer.host.raw_handler_map ≡ (
            if is_one_of j reached
            then left_by json counters open_hub
                (lookup j marked.raw_handler_map)
                (given json counters open_hub desired j)
            else lookup j marked.raw_handler_map))
unfolding desired_of text_eq
twin_invokes_example =
    twin_invokes json counters open_hub (dependencies_of two_handlers.raw_handler_map) false desired
      names two_handlers marked marks refl
      (subst (λ l. 0 < length l) (sym marked_sequence) (omega arith))
      (subst (λ l. (k : Text) → count k l ≤ 1) (sym marked_sequence) sequence_once)
      (subst (IsOrdered (dependencies_of two_handlers.raw_handler_map) []) (sym marked_sequence)
        sequence-IsOrdered)

twin_leaves_others_example :
    lookup
      (codes "b")
      (on_device_twin_received json counters open_hub false
        (ok desired)
        two_handlers).host.raw_handler_map
    ≡ lookup (codes "b") two_handlers.raw_handler_map
unfolding desired_of text_eq
twin_leaves_others_example =
    twin_leaves_others json counters open_hub (codes "b") false desired names two_handlers refl
      (unfold is_one_of text_eq in refl)

abbrev parameters : ServiceParameters Value
parameters = record {
  log_file_path = codes "logs";
  plugins_data_path = codes "data";
  handler_parameters = λ id. none;
}

start_signal_activates_example :
    (info' : _) × (lookup
        (codes "a")
        (signal_start json counters parameters two_handlers).raw_handler_map
      ≡ some info')
    × Started json counters parameters handler_a info'
start_signal_activates_example =
    start_signal_activates json counters parameters (codes "a") handler_a two_handlers
      (unfold lookup text_eq in refl)
