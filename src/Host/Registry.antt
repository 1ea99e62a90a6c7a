-- ===== src/Host/Registry.antt =====
-- The registration of handlers in AzureRawHost, and the sequence in which they are invoked.
use azure_client_tools.Base.{
  false, List, [], ◌∷◌, Option, none, some, Text, Map, insert, erase, contains, keys, Result, ok,
  err, ◌>>=◌, if◌then◌else◌, pos, codes,
}
use azure_client_tools.Json.{Json}
use azure_client_tools.Reporting.{Exception, dm}
use azure_client_tools.Utilities.DependencySort.{
  DependencySort, Sorted, circular_dependency, empty, set_dependencies_map, sort_dependency,
}
use azure_client_tools.Host.{Handlers, RawHandlerInfo, AzureRawHost}

-- What a plug-in says of one of its handlers.
pub record HandlerInfo : Type 0 where
  pub id : Text
  pub info_type : Text
  pub dependencies : List Text

-- DM_ERROR_PLUGIN_HANDLER_INVALID_DEPENDENCY.
unfoldable pub invalid_dependency : Exception
invalid_dependency =
    dm (record { subsystem = codes "DeviceAgentPlugin"; code = pos 1028; message = [] })

-- The calls of SetDependenciesMap in HandlerInvokeSequence.
unfoldable pub set_dependencies :
    {H : Type 0} → Map (RawHandlerInfo H) → DependencySort → DependencySort
set_dependencies [] s = s
set_dependencies ((id, info) ∷ m) s =
    set_dependencies m (set_dependencies_map id info.dependencies s)

module _ {H V : Type 0} where
  -- A new entry is inactive; one that is there stays.
  unfoldable pub add_handler : Text → H → List Text → AzureRawHost H V → AzureRawHost H V
  add_handler id handler dependencies h = record h {
    raw_handler_map =
        insert id (record { is_active = false; raw_handler = handler; dependencies = dependencies })
          h.raw_handler_map;
  }

  unfoldable pub unregister_dynamic_handler : Text → AzureRawHost H V → AzureRawHost H V
  unregister_dynamic_handler id h =
      if contains id h.raw_handler_map
      then record h { raw_handler_map = erase id h.raw_handler_map }
      else h

  unfoldable pub get_handler_ids : AzureRawHost H V → List Text
  get_handler_ids h = keys h.raw_handler_map

  -- `none` means that the fuel of the sort ran out.
  sequence_of : Option Sorted → AzureRawHost H V → Option (Result Exception (AzureRawHost H V))
  sequence_of none h = none
  sequence_of (some (Sorted.ok out)) h = some (ok (record h { raw_handler_sequence = out }))
  sequence_of (some circular_dependency) h = some (err invalid_dependency)

  unfoldable pub handler_invoke_sequence :
      AzureRawHost H V → Option (Result Exception (AzureRawHost H V))
  unfolding set_dependencies sequence_of
  handler_invoke_sequence h =
      sequence_of (sort_dependency (set_dependencies h.raw_handler_map empty)) h

module _ (J : Json) (P : Handlers J) where
  open P use {Handler, get_id, create_raw_handler}

  unfoldable pub register_static_handler :
      Handler → AzureRawHost Handler J.Value → AzureRawHost Handler J.Value
  unfolding add_handler
  register_static_handler handler h =
      if contains (get_id handler) h.raw_handler_map
      then h
      else add_handler (get_id handler) handler [] h

  unfoldable pub register_dynamic_handler :
      HandlerInfo → AzureRawHost Handler J.Value → Result Exception (AzureRawHost Handler J.Value)
  unfolding add_handler
  register_dynamic_handler info h =
      if contains info.id h.raw_handler_map
      then ok h
      else (create_raw_handler info.id >>= λ handler.
          ok (add_handler info.id handler info.dependencies h))
