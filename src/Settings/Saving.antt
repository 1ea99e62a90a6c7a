-- ===== src/Settings/Saving.antt =====
-- The settings that are read from a file that was saved.
use azure_client_tools.Base.{ℕ, Bool, Option, Text}
use azure_client_tools.Json.{Json, IsLawful}
use azure_client_tools.Settings.{Settings, dps_scope_id_name}

module _ (J : Json) (laws : IsLawful J) (is_uint : J.Value → Bool) (as_uint : J.Value → Option ℕ)
    (is_relative : Text → Bool) where
  abbrev rescoped : J.Value → Text → J.Value
  rescoped d id = J.with_member d dps_scope_id_name (J.of_text id)
