-- ===== src/Host/Calls/Processed.antt =====
-- What the processing of a sequence does to its handlers.
use azure_client_tools.Base.{
  ◌≤◌, ◌<◌, ◌≡◌, refl, sym, subst, ap, ◌∙◌, inl, inr, Bool, true, false, List, [], ◌∷◌, Option,
  none, some, arith, Text, text_eq, text_eq_iff, text_eq_refl, lookup, lookup-insert, map,
  if◌then◌else◌, Option-cases, Bool-cases, count,
}
use azure_client_tools.Json.{Json}
use azure_client_tools.Host.{
  Handlers, Hub, RawHandlerInfo, AzureRawHost, InvokeHandlerResult, new_invoke_result,
}
use azure_client_tools.Host.Calls.{
  invoke_found, invoke_handler, process_sequence, is_one_of, or_null, result_of,
}
use azure_client_tools.Host.Calls.Routing.{named, invoke_handler_other}

module _ (J : Json) (P : Handlers J) (hub : Hub) where
  open P use {Handler}

  abbrev Host : Type 0
  Host = AzureRawHost Handler J.Value

  -- The desired value of a handler.
  abbrev pub given : J.Value → Text → J.Value
  given desired k = or_null J P hub (J.member desired k)

  -- What the processing of a handler, or of a name without one, yields.
  abbrev pub expected : Option (RawHandlerInfo Handler) → J.Value → InvokeHandlerResult
  expected none v = record { found = false; active = false; invoke_result = new_invoke_result }
  expected (some info) v =
      if info.is_active
      then (record {
        found = true;
        active = true;
        invoke_result = result_of (P.invoke info.raw_handler v).outcome;
      })
      else (record { found = true; active = false; invoke_result = new_invoke_result })

  -- How it leaves the handler.
  abbrev pub left_by : Option (RawHandlerInfo Handler) → J.Value → Option (RawHandlerInfo Handler)
  left_by none v = none
  left_by (some info) v = some (
      if info.is_active
      then (record info { raw_handler = (P.invoke info.raw_handler v).handler })
      else info)

  invoke_handler-result :
      (k : Text) (v : J.Value) (h : Host)
      → (invoke_handler J P hub k v h).0 ≡ expected (lookup k h.raw_handler_map) v
  unfolding invoke_handler
  invoke_handler-result k v h = elim (Option-cases (lookup k h.raw_handler_map)) [
    | inl n ↦ rw (n, invoke_handler) refl
    | inr (info, s) ↦ elim (Bool-cases info.is_active) [
      | inl a ↦ rw (s, invoke_handler) (rw (a, invoke_found) refl)
      | inr a ↦ rw (s, invoke_handler) (rw (a, invoke_found) refl)
    ]
  ]

  invoke_found-left :
      (active : Bool) (k : Text) (v : J.Value) (info : RawHandlerInfo Handler) (h : Host)
      → lookup k h.raw_handler_map ≡ some info
      → lookup k (invoke_found J P hub k v info active h).1.raw_handler_map
        ≡ some (
            if active
            then (record info { raw_handler = (P.invoke info.raw_handler v).handler })
            else info)
  unfolding invoke_found
  invoke_found-left true k v info h s =
      lookup-insert k k (record info { raw_handler = (P.invoke info.raw_handler v).handler })
        h.raw_handler_map
      ∙ rw (text_eq_refl k) refl
  invoke_found-left false k v info h s = s

  invoke_handler-left :
      (k : Text) (v : J.Value) (h : Host)
      → lookup k (invoke_handler J P hub k v h).1.raw_handler_map
        ≡ left_by (lookup k h.raw_handler_map) v
  unfolding invoke_handler
  invoke_handler-left k v h = elim (Option-cases (lookup k h.raw_handler_map)) [
    | inl n ↦ rw (n, invoke_handler) n
    | inr (info, s) ↦ rw (s, invoke_handler) (invoke_found-left info.is_active k v info h s)
  ]

  named_absent :
      (k : Text) (names ks : List Text) → count k ks ≡ 0 → is_one_of k (named names ks) ≡ false
  unfolding count named is_one_of
  named_absent k names [] e = refl
  named_absent k names (x ∷ ks) e = ground (arith, named_absent k names ks)

  -- The results of the handlers that are reached, each as it stood at the start.
  abbrev pub results : J.Value → List Text → Host → List (Text × InvokeHandlerResult)
  results desired ks h = map (λ k. (k, expected (lookup k h.raw_handler_map) (given desired k))) ks

  pub process_sequence-results :
      (desired : J.Value) (names ks : List Text) (h start : Host)
      → ((k : Text) → count k ks ≤ 1)
      → ((k : Text) → 0 < count k ks → lookup k h.raw_handler_map ≡ lookup k start.raw_handler_map)
      → ((process_sequence J P hub desired names ks h).0 ≡ results desired (named names ks) start)
        × ((j : Text)
            → lookup j (process_sequence J P hub desired names ks h).1.raw_handler_map ≡ (
                if is_one_of j (named names ks)
                then left_by (lookup j start.raw_handler_map) (given desired j)
                else lookup j h.raw_handler_map))
  unfolding process_sequence named count is_one_of
  process_sequence-results desired names [] h start once same = (refl, λ j. refl)
  process_sequence-results desired names (k ∷ ks) h start once same =
      let v = given desired k in
      let one = invoke_handler J P hub k v h in
      let fresh : count k ks ≡ 0 = ground (arith, once k, text_eq_refl k) in
      let at : lookup k h.raw_handler_map ≡ lookup k start.raw_handler_map =
        same k (ground (arith, text_eq_refl k)) in
      let once_more : (j : Text) → count j ks ≤ 1 = λ j. ground (arith, once j) in
      let other : (j : Text) → 0 < count j ks → text_eq j k ≡ false =
        λ j p. ground (arith, once j, text_eq_iff j k, fresh) in
      let here : (j : Text) → 0 < count j ks → 0 < count j (k ∷ ks) = λ j p. ground arith in
      let (trace, final) =
        process_sequence-results desired names ks one.1 start once_more
          (λ j p. invoke_handler_other J P hub j k v h (other j p) ∙ same j (here j p)) in
      let skipped =
        process_sequence-results desired names ks h start once_more (λ j p. same j (here j p)) in
      let result : one.0 ≡ expected (lookup k start.raw_handler_map) v =
        invoke_handler-result k v h ∙ ap (λ o. expected o v) at in
      let left : lookup k one.1.raw_handler_map ≡ left_by (lookup k start.raw_handler_map) v =
        invoke_handler-left k v h ∙ ap (λ o. left_by o v) at in
      elim (Bool-cases (is_one_of k names)) [
        | inl y ↦ rw y (
          ap (λ r. (k, r) ∷ (process_sequence J P hub desired names ks one.1).0) result
              ∙ ap (◌∷◌ (k, expected (lookup k start.raw_handler_map) v)) trace,
          λ j. elim (Bool-cases (text_eq j k)) [
            | inl e ↦
                let is_k : j ≡ k = (text_eq_iff j k).0 e in
                rw e (
                  final j
                  ∙ subst
                      (λ i.
                        (if is_one_of i (named names ks)
                          then left_by (lookup i start.raw_handler_map) (given desired i)
                          else lookup i one.1.raw_handler_map)
                        ≡ left_by (lookup i start.raw_handler_map) (given desired i))
                      (sym is_k) (rw (named_absent k names ks fresh) left))
            | inr e ↦ rw e (
                final j
                ∙ ap
                    (λ l.
                      if is_one_of j (named names ks)
                      then left_by (lookup j start.raw_handler_map) (given desired j)
                      else l)
                    (invoke_handler_other J P hub j k v h e))
          ],
        )
        | inr n ↦ rw n skipped
      ]
