-- ===== src/Host/Lifecycle.antt =====
-- SignalStart, SignalStop, SignalConnectionStatusChanged and BuildHandlerConfig of
-- AzureRawHost. Each loop goes over the map in its order and writes the handlers back in place.
pub mod Signals
use azure_client_tools.Base.{
  ℕ, ◌≡◌, Bool, true, false, List, [], ◌∷◌, Option, none, some, Text, Map, lookup, insert, Result,
  ok, err, ◌>>=◌, if◌then◌else◌, codes,
}
use azure_client_tools.Json.{Json}
use azure_client_tools.Reporting.{Exception}
use azure_client_tools.Reporting.Operation.{or_logic_error}
use azure_client_tools.Host.{Handlers, Called, RawHandlerInfo, AzureRawHost}

-- What BuildHandlerConfig reads of the ServiceParameters.
pub record ServiceParameters (V : Type 0) : Type 0 where
  pub log_file_path : Text
  pub plugins_data_path : Text
  -- GetHandlerParameters.
  pub handler_parameters : Text → Option V

module _ (J : Json) (P : Handlers J) where
  open P use {Handler, get_id, start, stop, on_connection_status_changed}

  abbrev Infos : Type 0
  Infos = Map (RawHandlerInfo Handler)

  unfoldable pub copy_keys : J.Value → List Text → J.Value → Result Exception J.Value
  copy_keys parameters [] config = ok config
  copy_keys parameters (k ∷ ks) config =
      or_logic_error (J.member parameters k)
      >>= (λ v. copy_keys parameters ks (J.with_member config k v))

  unfoldable pub build_handler_config : ServiceParameters J.Value → Text → Result Exception J.Value
  unfolding copy_keys
  build_handler_config s id =
      let config =
        J.with_member
          (J.with_member J.empty_object (codes "textLogFilesPath") (J.of_text s.log_file_path))
          (codes "pluginsDataPath") (J.of_text s.plugins_data_path) in
      elim (s.handler_parameters id) [
        | none ↦ ok config
        | some parameters ↦
            (or_logic_error (J.member_names parameters) >>= λ ks. copy_keys parameters ks config)
      ]

  started : RawHandlerInfo Handler → Called Handler Bool → RawHandlerInfo Handler
  started info c = elim c.outcome [
    | ok active ↦ record info { raw_handler = c.handler; is_active = active }
    | err e ↦ record info { raw_handler = c.handler }
  ]

  -- The body of the loop of SignalStart: an exception leaves the state of the handler as it was.
  unfoldable pub start_one :
      ServiceParameters J.Value → RawHandlerInfo Handler → RawHandlerInfo Handler
  unfolding started
  start_one s info = elim (build_handler_config s (get_id info.raw_handler)) [
    | err e ↦ info
    | ok config ↦ started info (start info.raw_handler config)
  ]

  unfoldable pub notify_one : Bool → RawHandlerInfo Handler → RawHandlerInfo Handler
  notify_one online info =
      if info.is_active
      then record info {
        raw_handler = (on_connection_status_changed info.raw_handler online).handler;
      }
      else info

  unfoldable pub stop_one : RawHandlerInfo Handler → RawHandlerInfo Handler
  stop_one info = record info { raw_handler = stop info.raw_handler }

  unfoldable pub each : (RawHandlerInfo Handler → RawHandlerInfo Handler) → Infos → Infos
  each f [] = []
  each f ((k, info) ∷ m) = (k, f info) ∷ each f m

  abbrev Host : Type 0
  Host = AzureRawHost Handler J.Value

  unfoldable pub signal_start : ServiceParameters J.Value → Host → Host
  unfolding each
  signal_start s h = record h { raw_handler_map = each (start_one s) h.raw_handler_map }

  unfoldable pub signal_stop : Host → Host
  unfolding each
  signal_stop h = record h { raw_handler_map = each stop_one h.raw_handler_map }

  unfoldable pub signal_connection_status_changed : Bool → Host → Host
  unfolding each
  signal_connection_status_changed online h = record h {
    raw_handler_map = each (notify_one online) h.raw_handler_map;
  }
