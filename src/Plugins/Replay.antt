-- ===== src/Plugins/Replay.antt =====
-- What SendCachedHandlerState does to the states that it goes over.
use azure_client_tools.Base.{
  ℕ, ◌≡◌, refl, sym, ap, ◌∙◌, inl, inr, Bool, true, false, List, [], ◌∷◌, some, Text, text_eq,
  text_eq_iff, text_eq_refl, Map, lookup, insert, lookup-insert, if◌then◌else◌, ok, Result-cases,
  Bool-cases, arith, keys, count, HasDistinctKeys, lookup_absent,
}
use azure_client_tools.Json.{Json, IsLawful}
use azure_client_tools.Plugins.{
  HandlerState, Request, Reply, Proxy, handler_id, start_method, stop_method, cache_create,
  cache_call, cache_handler_state, created_id, exchanged, invoke, create_request,
  start_or_stop_request, connection_request, invoke_all, cached_requests, send_cached_handler_state,
}

module _ (J : Json) (laws : IsLawful J) where
  abbrev States : Type 0
  States = Map (HandlerState J.Value)

  abbrev Same : States → States → Type 0
  Same m n = (j : Text) → lookup j n ≡ lookup j m

  insert-Same :
      (k : Text) (s : HandlerState J.Value) (m : States)
      → lookup k m ≡ some s
      → Same m (insert k s m)
  insert-Same k s m e j = ground (arith, lookup-insert j k s m, text_eq_iff j k, e)

  -- A request that tells a handler again what the cache holds of it.
  abbrev Repeats : States → Request J.Value → Type 0
  Repeats m r =
      (n : States) → Same m n → (n' : States) × (cache_handler_state J r n ≡ ok n') × Same m n'

  pub created_id-create_request :
      (k : Text) → created_id J (J.with_member J.empty_object handler_id (J.of_text k)) ≡ ok k
  unfolding created_id
  created_id-create_request k = ground (
    arith,
    laws.member_set J.empty_object (J.of_text k) handler_id handler_id laws.empty_is_object,
    text_eq_refl handler_id,
    laws.text_read_back k,
  )

  create-Repeats :
      (k : Text) (s : HandlerState J.Value) (m : States)
      → lookup k m ≡ some s
      → Repeats m (create_request J k)
  unfolding cache_handler_state create_request cache_create text_eq
  create-Repeats k s m e n same =
      (n, rw (created_id-create_request k) (rw (same k ∙ e, cache_create)), same)

  cache_call-started :
      (b : Bool) (k : Text) (s : HandlerState J.Value) (n : States)
      → s.started ≡ b
      → lookup k n ≡ some s
      → cache_call J k (if b then start_method else stop_method) s.start_params n ≡ insert k s n
  unfolding cache_call text_eq
  cache_call-started true k s n st at =
      rw at (ap (λ b. insert k (record s { started = b }) n) (sym st))
  cache_call-started false k s n st at =
      rw at (ap (λ b. insert k (record s { started = b }) n) (sym st))

  start_or_stop-Repeats :
      (k : Text) (s : HandlerState J.Value) (m : States)
      → lookup k m ≡ some s
      → Repeats m (start_or_stop_request J k s)
  unfolding cache_handler_state start_or_stop_request cache_call text_eq
  start_or_stop-Repeats k s m e n same = (
    insert k s n,
    ap ok (cache_call-started s.started k s n refl (same k ∙ e)),
    λ j. insert-Same k s n (same k ∙ e) j ∙ same j,
  )

  connection-Repeats :
      (k : Text) (s : HandlerState J.Value) (m : States)
      → lookup k m ≡ some s
      → Repeats m (connection_request J k s)
  unfolding cache_handler_state connection_request cache_call text_eq
  connection-Repeats k s m e n same =
      let at : lookup k n ≡ some s = same k ∙ e in
      (insert k s n, rw at, λ j. insert-Same k s n (same k ∙ e) j ∙ same j)

  -- Every request of a list repeats what the cache holds.
  abbrev AllRepeat : States → List (Request J.Value) → Type 0
  AllRepeat m [] = Unit
  AllRepeat m (r ∷ rs) = Repeats m r × AllRepeat m rs

  cached_requests-AllRepeat :
      (m part : States)
      → ((k : Text) (s : HandlerState J.Value) → lookup k part ≡ some s → lookup k m ≡ some s)
      → HasDistinctKeys part
      → AllRepeat m (cached_requests J part)
  unfolding cached_requests count lookup
  cached_requests-AllRepeat m [] within d = tt
  cached_requests-AllRepeat m ((k, s) ∷ part) within d =
      let e : lookup k m ≡ some s = within k s (unfold lookup in rw (text_eq_refl k)) in
      let fresh : count k (keys part) ≡ 0 = ground (arith, d k, text_eq_refl k) in
      (
        create-Repeats k s m e,
        (
          start_or_stop-Repeats k s m e,
          (
            connection-Repeats k s m e,
            cached_requests-AllRepeat m part
                (λ j t f.
                  within j t (ground (arith, f, text_eq_iff j k, lookup_absent k part fresh)))
                (λ j. ground (arith, d j)),
          ),
        ),
      )

  invoke-Repeats :
      (reply : ℕ → Reply J.Value) (m : States) (r : Request J.Value) (p : Proxy J.Value)
      → Repeats m r
      → Same m p.raw_handlers_states
      → Same m (invoke J reply r p).proxy.raw_handlers_states
  unfolding invoke exchanged
  invoke-Repeats reply m r p repeats same =
      let (n, e, same') = repeats p.raw_handlers_states same in
      elim (Bool-cases p.has_transport) [ inl h ↦ rw (h, e) same' | inr h ↦ rw h same ]

  invoke_all-Repeats :
      (reply : ℕ → Reply J.Value) (m : States) (rs : List (Request J.Value)) (p : Proxy J.Value)
      → AllRepeat m rs
      → Same m p.raw_handlers_states
      → Same m (invoke_all J reply rs p).proxy.raw_handlers_states
  unfolding invoke_all
  invoke_all-Repeats reply m [] p a same = same
  invoke_all-Repeats reply m (r ∷ rs) p a same =
      let c = invoke J reply r p in
      let same' = invoke-Repeats reply m r p a.0 same in
      elim (Result-cases c.outcome) [
        | inl (v, o) ↦ rw (o, invoke_all) (invoke_all-Repeats reply m rs c.proxy a.1 same')
        | inr (x, o) ↦ rw (o, invoke_all) same'
      ]

  -- SendCachedHandlerState goes over the states that its own calls of Invoke write to. With one
  -- state for each key, and a JSON library that behaves as documented, it leaves every state as it
  -- was, and adds none, whatever the host answers and also where a call throws.
  pub send_cached_handler_state_keeps :
      (reply : ℕ → Reply J.Value) (p : Proxy J.Value) (j : Text)
      → HasDistinctKeys p.raw_handlers_states
      → lookup j (send_cached_handler_state J reply p).proxy.raw_handlers_states
        ≡ lookup j p.raw_handlers_states
  unfolding send_cached_handler_state
  send_cached_handler_state_keeps reply p j d =
      invoke_all-Repeats reply p.raw_handlers_states (cached_requests J p.raw_handlers_states) p
        (cached_requests-AllRepeat p.raw_handlers_states p.raw_handlers_states (λ k s e. e) d)
        (λ i. refl) j
