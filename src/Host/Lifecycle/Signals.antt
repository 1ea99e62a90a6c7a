-- ===== src/Host/Lifecycle/Signals.antt =====
-- What the start signal does to each registered handler.
use azure_client_tools.Base.{
  ◌≡◌, refl, ap, ◌∙◌, ◌⊎◌, inl, inr, Bool, [], ◌∷◌, Option, none, some, Text, text_eq, Map, lookup,
  ok, err, Result-cases, Bool-cases,
}
use azure_client_tools.Json.{Json}
use azure_client_tools.Reporting.{Exception}
use azure_client_tools.Host.{Handlers, RawHandlerInfo, AzureRawHost}
use azure_client_tools.Host.Lifecycle.{
  ServiceParameters, build_handler_config, each, start_one, started, signal_start,
}

module _ (J : Json) (P : Handlers J) where
  open P use {Handler, get_id, start, on_connection_status_changed}

  abbrev Host : Type 0
  Host = AzureRawHost Handler J.Value

  abbrev applied :
      (RawHandlerInfo Handler → RawHandlerInfo Handler)
      → Option (RawHandlerInfo Handler)
      → Option (RawHandlerInfo Handler)
  applied f none = none
  applied f (some info) = some (f info)

  lookup-each :
      (f : RawHandlerInfo Handler → RawHandlerInfo Handler) (k : Text)
      (m : Map (RawHandlerInfo Handler))
      → lookup k (each J P f m) ≡ applied f (lookup k m)
  unfolding each lookup
  lookup-each f k [] = refl
  lookup-each f k ((j, info) ∷ m) = elim (Bool-cases (text_eq k j)) [
    | inl e ↦ rw e
    | inr e ↦ rw e (lookup-each f k m)
  ]

  -- How the body of SignalStart leaves a handler.
  pub record Started (s : ServiceParameters J.Value) (info info' : RawHandlerInfo Handler)
      : Type 0 where
    pub dependencies : info'.dependencies ≡ info.dependencies
    pub state :
        ((e : Exception) × (build_handler_config J P s (get_id info.raw_handler) ≡ err e)
          × (info' ≡ info))
        ⊎ ((config : J.Value) × (build_handler_config J P s (get_id info.raw_handler) ≡ ok config)
            × (info'.raw_handler ≡ (start info.raw_handler config).handler)
            × (((b : Bool) × ((start info.raw_handler config).outcome ≡ ok b)
                  × (info'.is_active ≡ b))
                ⊎ ((e : Exception) × ((start info.raw_handler config).outcome ≡ err e)
                    × (info'.is_active ≡ info.is_active))))

  start_one-Started :
      (s : ServiceParameters J.Value) (info : RawHandlerInfo Handler)
      → Started s info (start_one J P s info)
  unfolding start_one
  start_one-Started s info =
      elim (Result-cases (build_handler_config J P s (get_id info.raw_handler))) [
        | inr (e, b) ↦ record {
          dependencies = rw (b, start_one);
          state = inl (e, b, rw (b, start_one));
        }
        | inl (config, b) ↦ elim (Result-cases (start info.raw_handler config).outcome) [
          | inl (active, o) ↦ record {
            dependencies = rw (b, start_one) (rw (o, started));
            state = inr (
              config,
              b,
              rw (b, start_one) (rw (o, started)),
              inl (active, o, rw (b, start_one) (rw (o, started))),
            );
          }
          | inr (e, o) ↦ record {
            dependencies = rw (b, start_one) (rw (o, started));
            state = inr (
              config,
              b,
              rw (b, start_one) (rw (o, started)),
              inr (e, o, rw (b, start_one) (rw (o, started))),
            );
          }
        ]
      ]

  -- For each registered handler: after the start signal its flag is what its Start put into
  -- `active`; it is what it was before if Start, or the reading of its parameters, threw. In the
  -- latter case the handler was not called at all.
  pub start_signal_activates :
      (s : ServiceParameters J.Value) (k : Text) (info : RawHandlerInfo Handler) (h : Host)
      → lookup k h.raw_handler_map ≡ some info
      → (info' : RawHandlerInfo Handler) × (lookup k (signal_start J P s h).raw_handler_map
          ≡ some info')
        × Started s info info'
  unfolding signal_start
  start_signal_activates s k info h e = (
    start_one J P s info,
    lookup-each (start_one J P s) k h.raw_handler_map ∙ ap (applied (start_one J P s)) e,
    start_one-Started s info,
  )
