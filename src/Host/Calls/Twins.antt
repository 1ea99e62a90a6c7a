-- ===== src/Host/Calls/Twins.antt =====
-- What a twin does to the handlers that it names and to the others.
use azure_client_tools.Base.{
  ◌≤◌, ◌<◌, ◌≡◌, refl, ap, ◌∙◌, inl, inr, Bool, false, ◌&&◌, not, List, [], some, arith, Text, Map,
  lookup, length, if◌then◌else◌, Bool-cases, count, ok, ◌==◌, Result-cases,
}
use azure_client_tools.Json.{Json}
use azure_client_tools.Reporting.{pending, failed}
use azure_client_tools.Utilities.DependencySort.Met.{IsOrdered}
use azure_client_tools.Host.{Handlers, Hub, AzureRawHost}
use azure_client_tools.Host.Messages.{Stepped, mark_status}
use azure_client_tools.Host.Messages.Marking.{mark_status_others}
use azure_client_tools.Host.Calls.{
  process_sequence, is_one_of, desired_of, on_device_twin_received, after_marking, apply_desired,
  nothing_processed, all_processed,
}
use azure_client_tools.Host.Calls.Routing.{
  named, IsOrderedAmong, named-IsOrderedAmong, process_sequence_others,
}
use azure_client_tools.Host.Calls.Processed.{given, left_by, results, process_sequence-results}

module _ (J : Json) (P : Handlers J) (hub : Hub) where
  open P use {Handler}

  abbrev Host : Type 0
  Host = AzureRawHost Handler J.Value

  nothing_processed-host :
      (m : Stepped Host (Unit {0})) → (nothing_processed J P hub m).host ≡ m.host
  unfolding nothing_processed
  nothing_processed-host m = elim (Result-cases m.outcome) [
    | inl (u, e) ↦ rw (e, nothing_processed) refl
    | inr (x, e) ↦ rw (e, nothing_processed) refl
  ]

  apply_desired_others :
      (j : Text) (desired : J.Value) (names : List Text) (h : Host)
      → J.member_names desired ≡ some names
      → is_one_of j names ≡ false
      → lookup j (apply_desired J P hub desired (J.member_names desired) h).host.raw_handler_map
        ≡ lookup j h.raw_handler_map
  unfolding apply_desired all_processed
  apply_desired_others j desired names h names_read e =
      let ks = h.raw_handler_sequence in
      elim (Bool-cases (length ks == 0 && not (length h.raw_handler_map == 0))) [
        | inl y ↦
            rw (names_read, apply_desired)
              (rw y (
                ap (λ x. lookup j x.raw_handler_map)
                  (nothing_processed-host (mark_status J P hub desired failed h))
                ∙ mark_status_others J P hub j desired failed names h names_read e))
        | inr n ↦
            rw (names_read, apply_desired)
              (rw n (process_sequence_others J P hub j desired names ks h e))
      ]

  -- Where MarkStatus does not throw, the twin's names can be read, and there is a sequence, in which each
  -- handler stands once and behind its dependencies: the handlers of the sequence that the twin names
  -- are processed in that order, so behind those of their dependencies that it names. Each active one
  -- of them is invoked once, with its desired value: it ends as its Invoke leaves it, and yields what
  -- its Invoke returned, also if another one throws. Any other handler stays as MarkStatus left it.
  pub twin_invokes :
      (m : Map (List Text)) (complete : Bool) (root : J.Value) (names : List Text) (h marked : Host)
      → let desired = desired_of J P hub complete root in
        mark_status J P hub desired pending h ≡ record { host = marked; outcome = ok tt }
        → J.member_names desired ≡ some names
        → 0 < length marked.raw_handler_sequence
        → ((k : Text) → count k marked.raw_handler_sequence ≤ 1)
        → IsOrdered m [] marked.raw_handler_sequence
        → let answer = on_device_twin_received J P hub complete (ok root) h in
          let reached = named names marked.raw_handler_sequence in
          IsOrderedAmong m names [] reached
          × (answer.outcome
              ≡ ok (results J P hub (desired_of J P hub complete root) reached marked))
          × ((j : Text)
              → lookup j answer.host.raw_handler_map ≡ (
                  if is_one_of j reached
                  then left_by J P hub
                      (lookup j marked.raw_handler_map)
                      (given J P hub (desired_of J P hub complete root) j)
                  else lookup j marked.raw_handler_map))
  unfolding on_device_twin_received after_marking apply_desired all_processed
  twin_invokes m complete root names h marked marks names_read some_keys once ordered =
      let desired = desired_of J P hub complete root in
      let ks = marked.raw_handler_sequence in
      let not_empty : (length ks == 0) ≡ false = ground arith in
      let (trace, final) =
        process_sequence-results J P hub desired names ks marked marked once (λ k p. refl) in
      let done = process_sequence J P hub desired names ks marked in
      let whole : on_device_twin_received J P hub complete (ok root) h
          ≡ record { host = done.1; outcome = ok done.0 } =
        ap (after_marking J P hub desired) marks
        ∙ rw (names_read, apply_desired) (rw not_empty refl) in
      (
        named-IsOrderedAmong m names [] [] ks (λ a p q. p) ordered,
        ap (λ a. a.outcome) whole ∙ ap ok trace,
        λ j. ap (λ a. lookup j a.host.raw_handler_map) whole ∙ final j,
      )

  -- Whatever happens, a twin whose names can be read leaves every handler as it is that it does not name:
  -- MarkStatus does not call it, and it is not invoked.
  pub twin_leaves_others :
      (j : Text) (complete : Bool) (root : J.Value) (names : List Text) (h : Host)
      → J.member_names (desired_of J P hub complete root) ≡ some names
      → is_one_of j names ≡ false
      → lookup j (on_device_twin_received J P hub complete (ok root) h).host.raw_handler_map
        ≡ lookup j h.raw_handler_map
  unfolding on_device_twin_received after_marking
  twin_leaves_others j complete root names h names_read e =
      let desired = desired_of J P hub complete root in
      let marked = mark_status J P hub desired pending h in
      let kept = mark_status_others J P hub j desired pending names h names_read e in
      elim (Result-cases marked.outcome) [
        | inr (x, o) ↦ rw (o, after_marking) kept
        | inl (u, o) ↦
            rw (o, after_marking)
              (apply_desired_others j desired names marked.host names_read e ∙ kept)
      ]
