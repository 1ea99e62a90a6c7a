-- ===== src/Host/Calls/Routing.antt =====
-- The handlers that a twin names, in their order, and the answers to a direct method.
use azure_client_tools.Base.{
  ◌<◌, ◌≡◌, refl, ◌∙◌, inl, inr, true, false, List, [], ◌∷◌, ◌++◌, arith, Text, text_eq,
  text_eq_iff, Map, lookup, lookup-insert, if◌then◌else◌, Option-cases, Bool-cases, count,
  count-append,
}
use azure_client_tools.Json.{Json}
use azure_client_tools.Utilities.DependencySort.{entry}
use azure_client_tools.Utilities.DependencySort.Met.{IsOrdered}
use azure_client_tools.Host.{Handlers, Hub, AzureRawHost}
use azure_client_tools.Host.Calls.{
  invoke_found, invoke_handler, process_sequence, is_one_of, or_null,
}

-- The handlers of a sequence that the desired properties name.
unfoldable pub named : List Text → List Text → List Text
named names [] = []
named names (k ∷ ks) = if is_one_of k names then k ∷ named names ks else named names ks

-- Behind the handlers of `seen`, each handler comes after those of its dependencies that are named.
abbrev pub IsOrderedAmong : Map (List Text) → List Text → List Text → List Text → Type 0
IsOrderedAmong m names seen [] = Unit
IsOrderedAmong m names seen (h ∷ hs) =
    ((a : Text) → 0 < count a (entry h m) → is_one_of a names ≡ true → 0 < count a seen)
    × IsOrderedAmong m names (seen ++ h ∷ []) hs

pub named-IsOrderedAmong :
    (m : Map (List Text)) (names seen seen' ks : List Text)
    → ((a : Text) → 0 < count a seen → is_one_of a names ≡ true → 0 < count a seen')
    → IsOrdered m seen ks
    → IsOrderedAmong m names seen' (named names ks)
unfolding named
named-IsOrderedAmong m names seen seen' [] c o = tt
named-IsOrderedAmong m names seen seen' (k ∷ ks) c o = elim (Bool-cases (is_one_of k names)) [
  | inl y ↦ rw y (
    λ a p q. c a (o.0 a p) q,
    named-IsOrderedAmong m names (seen ++ k ∷ []) (seen' ++ k ∷ []) ks
        (λ a p q. ground (arith, c a, count-append a seen (k ∷ []), count-append a seen' (k ∷ [])))
        o.1,
  )
  | inr n ↦ rw n (
      named-IsOrderedAmong m names (seen ++ k ∷ []) seen' ks
        (λ a p q.
          unfold count in ground (arith, c a, count-append a seen (k ∷ []), text_eq_iff a k))
        o.1)
]

other_name :
    (j k : Text) (names : List Text)
    → is_one_of j names ≡ false
    → is_one_of k names ≡ true
    → text_eq j k ≡ false
other_name j k names e y = ground (arith, text_eq_iff j k)

module _ (J : Json) (P : Handlers J) (hub : Hub) where
  open P use {Handler}

  abbrev Host : Type 0
  Host = AzureRawHost Handler J.Value

  pub invoke_handler_other :
      (j id : Text) (parameters : J.Value) (h : Host)
      → text_eq j id ≡ false
      → lookup j (invoke_handler J P hub id parameters h).1.raw_handler_map
        ≡ lookup j h.raw_handler_map
  unfolding invoke_handler
  invoke_handler_other j id parameters h e = elim (Option-cases (lookup id h.raw_handler_map)) [
    | inl n ↦ rw (n, invoke_handler)
    | inr (info, s) ↦ elim (Bool-cases info.is_active) [
      | inl a ↦
          rw (s, invoke_handler)
            (rw (a, invoke_found)
              (lookup-insert j id
                  (record info { raw_handler = (P.invoke info.raw_handler parameters).handler })
                  h.raw_handler_map
                ∙ rw e))
      | inr a ↦ rw (s, invoke_handler) (rw (a, invoke_found))
    ]
  ]

  pub process_sequence_others :
      (j : Text) (desired : J.Value) (names ks : List Text) (h : Host)
      → is_one_of j names ≡ false
      → lookup j (process_sequence J P hub desired names ks h).1.raw_handler_map
        ≡ lookup j h.raw_handler_map
  unfolding process_sequence
  process_sequence_others j desired names [] h e = refl
  process_sequence_others j desired names (k ∷ ks) h e =
      let v = or_null J P hub (J.member desired k) in
      let one = invoke_handler J P hub k v h in
      elim (Bool-cases (is_one_of k names)) [
        | inl y ↦ rw y (
            process_sequence_others j desired names ks one.1 e
            ∙ invoke_handler_other j k v h (other_name j k names e y))
        | inr n ↦ rw n (process_sequence_others j desired names ks h e)
      ]
