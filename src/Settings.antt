-- ===== src/Settings.antt =====
-- code/device-agent/agent/ServiceParameters.cpp and MakePathAbsolute of code/Utilities/FileSystem.cpp:
-- the settings of the service, read from a file of JSON and written back. The values that a debug
-- build takes from the registry are left out.
pub mod Saving
pub mod Examples
use azure_client_tools.Base.{
  ℕ, ◌*◌, Bool, true, false, ◌||◌, not, List, [], ◌∷◌, ◌++◌, Option, none, some, Text, codes, Map,
  insert, lookup, Result, ok, err, ◌>>=◌, if◌then◌else◌, length, ◌==◌,
}
use azure_client_tools.Json.{Json}
use azure_client_tools.Reporting.{Exception}
use azure_client_tools.Reporting.Operation.{or_logic_error}

-- The fields of the class `ServiceParameters`; of the event, whether it is signalled.
pub record Settings (V : Type 0) : Type 0 where
  pub text_log_files_path : Text
  pub plugin_manifests_path : Text
  pub plugins_data_path : Text
  pub sas_expiry_interval : ℕ
  pub sas_renewal_grace_period : ℕ
  pub dps_is_enabled : Bool
  pub dps_uri : Text
  pub dps_scope_id : Text
  pub device_slot_number : ℕ
  pub dm_module_slot_number : ℕ
  pub connection_string : Text
  pub dm_module_id : Text
  pub azure_interface_type : Text
  pub other_modules : Map ℕ
  pub handler_parameters_map : Map V
  pub valid_dps_scope_id : Bool

abbrev pub dps_scope_id_name : Text
dps_scope_id_name = codes "dpsScopeId"

module _ {V : Type 0} where
  unfoldable pub set_dps_scope_id : Text → Settings V → Settings V
  set_dps_scope_id id s = record s { dps_scope_id = id; valid_dps_scope_id = not (length id == 0) }

  unfoldable pub default_settings : Settings V
  unfolding set_dps_scope_id
  default_settings = set_dps_scope_id [] (record {
    text_log_files_path = [];
    plugin_manifests_path = [];
    plugins_data_path = codes "DMData";
    sas_expiry_interval = 24 * 3600;
    sas_renewal_grace_period = 1 * 3600;
    dps_is_enabled = true;
    dps_uri = [];
    dps_scope_id = [];
    device_slot_number = 0;
    dm_module_slot_number = 0;
    connection_string = [];
    dm_module_id = codes "WindowsIoTDM";
    azure_interface_type = codes "raw";
    other_modules = [];
    handler_parameters_map = [];
    valid_dps_scope_id = false;
  })

  unfoldable pub get_handler_parameters : Text → Settings V → Option V
  get_handler_parameters id s = lookup id s.handler_parameters_map

-- `is_uint` and `as_uint` are isUInt and asUInt of jsoncpp, `is_relative` is that of
-- std::experimental::filesystem::path.
module _ (J : Json) (is_uint : J.Value → Bool) (as_uint : J.Value → Option ℕ)
    (is_relative : Text → Bool) where
  unfoldable pub make_path_absolute : Text → Text → Text
  make_path_absolute root name = if is_relative name then (root ++ codes "\\") ++ name else name

  unfoldable pub read_json_string : J.Value → Text → Text → Result Exception Text
  read_json_string root name default_value = or_logic_error (J.member root name) >>= λ v.
      if J.is_null v || not (J.is_string v) then ok default_value else or_logic_error (J.as_text v)

  unfoldable pub read_json_uint : J.Value → Text → ℕ → Result Exception ℕ
  read_json_uint root name default_value = or_logic_error (J.member root name) >>= λ v.
      if J.is_null v || not (is_uint v) then ok default_value else or_logic_error (as_uint v)

  unfoldable pub read_json_boolean : J.Value → Text → Bool → Result Exception Bool
  read_json_boolean root name default_value = or_logic_error (J.member root name) >>= λ v.
      if J.is_null v || not (J.is_bool v) then ok default_value else or_logic_error (J.as_bool v)

  unfoldable pub each_module : J.Value → List Text → Map ℕ → Result Exception (Map ℕ)
  each_module v [] values = ok values
  each_module v (k ∷ ks) values = or_logic_error (J.member v k) >>= λ x.
      (or_logic_error (as_uint x) >>= λ n. each_module v ks (insert k n values))

  unfoldable pub read_modules : J.Value → Text → Result Exception (Map ℕ)
  unfolding each_module
  read_modules root name = or_logic_error (J.member root name) >>= λ v.
      if J.is_null v || not (J.is_object v)
      then ok []
      else (or_logic_error (J.member_names v) >>= λ ks. each_module v ks [])

  unfoldable pub each_member : J.Value → List Text → Map J.Value → Result Exception (Map J.Value)
  each_member v [] values = ok values
  each_member v (k ∷ ks) values =
      or_logic_error (J.member v k) >>= λ x. each_member v ks (insert k x values)

  unfoldable pub read_map : J.Value → Text → Result Exception (Map J.Value)
  unfolding each_member
  read_map root name = or_logic_error (J.member root name) >>= λ v.
      if J.is_null v || not (J.is_object v)
      then ok []
      else (or_logic_error (J.member_names v) >>= λ ks. each_member v ks [])

  -- What Load reads before the scope.
  unfoldable pub load_first :
      Text → J.Value → Settings J.Value → Result Exception (Settings J.Value)
  unfolding make_path_absolute read_json_string read_json_uint read_json_boolean
  load_first root v s = do
    log ← read_json_string v (codes "textLogFilesPath") []
    manifests ← read_json_string v (codes "pluginManifestsPath") []
    data_path ← read_json_string v (codes "pluginsDataPath") (codes "DMData")
    expiry ← read_json_uint v (codes "sasExpiryInterval") (24 * 3600)
    grace ← read_json_uint v (codes "sasRenewalGracePeriod") (1 * 3600)
    enabled ← read_json_boolean v (codes "dpsEnabled") true
    uri ← read_json_string v (codes "dpsUri") []
    ok (record s {
      text_log_files_path = make_path_absolute root log;
      plugin_manifests_path = make_path_absolute root manifests;
      plugins_data_path = make_path_absolute root data_path;
      sas_expiry_interval = expiry;
      sas_renewal_grace_period = grace;
      dps_is_enabled = enabled;
      dps_uri = uri;
    })

  unfoldable pub read_dps_scope_id :
      J.Value → Settings J.Value → Result Exception (Settings J.Value)
  unfolding read_json_string set_dps_scope_id
  read_dps_scope_id v s =
      read_json_string v dps_scope_id_name [] >>= λ id. ok (set_dps_scope_id id s)

  unfoldable pub read_tpm_slot_numbers :
      J.Value → Settings J.Value → Result Exception (Settings J.Value)
  unfolding read_json_uint
  read_tpm_slot_numbers v s = do
    device ← read_json_uint v (codes "deviceSlotNumber") 0
    dm ← read_json_uint v (codes "dmModuleSlotNumber") 0
    ok (record s { device_slot_number = device; dm_module_slot_number = dm })

  -- What Load reads after the slots.
  unfoldable pub load_last : J.Value → Settings J.Value → Result Exception (Settings J.Value)
  unfolding read_json_string read_modules read_map
  load_last v s = do
    connection ← read_json_string v (codes "connectionString") []
    module_id ← read_json_string v (codes "dmModuleId") (codes "WindowsIoTDM")
    interface_type ← read_json_string v (codes "azureInterfaceType") (codes "raw")
    modules ← read_modules v (codes "otherModuleIds")
    handlers ← read_map v (codes "handlers")
    ok (record s {
      connection_string = connection;
      dm_module_id = module_id;
      azure_interface_type = interface_type;
      other_modules = modules;
      handler_parameters_map = handlers;
    })

  -- The file is `none` where TryParseJSONFile fails. Where an exception leaves Load, the fields that
  -- were read before are not kept here.
  unfoldable pub load :
      Text → Option J.Value → Settings J.Value → Result Exception (Settings J.Value)
  unfolding load_first read_dps_scope_id read_tpm_slot_numbers load_last
  load root none s = ok s
  load root (some v) s = load_first root v s >>= λ s₁.
      (read_dps_scope_id v s₁ >>= λ s₂. (read_tpm_slot_numbers v s₂ >>= load_last v))

  -- `configurations[JsonDpsScopeId] = id`: a null value becomes an object, another is refused.
  unfoldable pub with_scope_id : Text → J.Value → Option J.Value
  with_scope_id id v =
      if J.is_object v
      then some (J.with_member v dps_scope_id_name (J.of_text id))
      else if J.is_null v
      then some (J.with_member J.empty_object dps_scope_id_name (J.of_text id))
      else none

  -- The file that Save leaves; `writable` is whether TryWriteJSONFile can write it.
  unfoldable pub save : Bool → Settings J.Value → Option J.Value → Result Exception (Option J.Value)
  unfolding with_scope_id
  save writable s none = ok none
  save writable s (some v) = or_logic_error (with_scope_id s.dps_scope_id v) >>= λ v'.
      ok (if writable then some v' else some v)
