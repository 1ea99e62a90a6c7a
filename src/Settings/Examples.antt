-- ===== src/Settings/Examples.antt =====
-- A file of settings that is loaded, saved and loaded again.
use azure_client_tools.Base.{◌∷◌, ℕ, Bool, true, false, [], Option, none, some, Text, codes, pos}
use azure_client_tools.Settings.{Settings, default_settings, set_dps_scope_id, dps_scope_id_name}
use azure_client_tools.Json.Objects.{object_of}
use azure_client_tools.Samples.{Value, int, text, json}

abbrev is_uint : Value → Bool
is_uint (int (pos n)) = true
is_uint _ = false

abbrev as_uint : Value → Option ℕ
as_uint (int (pos n)) = some n
as_uint _ = none

abbrev is_relative : Text → Bool
is_relative s = true

abbrev file : Value
file =
    object_of json
      ((codes "sasExpiryInterval", int (pos 60)) ∷ (dps_scope_id_name, text (codes "0ne1")) ∷ [])

-- The settings in use when the service is told another scope.
abbrev changed : Settings Value
changed = set_dps_scope_id (codes "0ne2") default_settings

abbrev loaded : Settings Value
loaded = record (set_dps_scope_id (codes "0ne1") default_settings) {
  text_log_files_path = codes "C:\\";
  plugin_manifests_path = codes "C:\\";
  plugins_data_path = codes "C:\\DMData";
  sas_expiry_interval = 60;
}
