-- ===== src/Reporting/Operation.antt =====
-- Operation.cpp, but for RunOperation, and JsonHelpers.cpp: how a handler reads its desired state. The
-- JSON library is a parameter. `present` and the value of an OperationModel are an Option.
pub mod Reading
use azure_client_tools.Base.{
  ℕ, ◌≡◌, Bool, true, false, not, ◌&&◌, ◌||◌, List, [], ◌∷◌, Option, none, some, Text, text_eq,
  codes, ℤ, pos, negsuc, Result, ok, err, ◌>>=◌, ◌>>◌, require, if◌then◌else◌,
}
use azure_client_tools.Json.{Json}
use azure_client_tools.Reporting.{
  DmException, Exception, dm, std, DeploymentStatus, succeeded, not_started, pending, failed,
  unknown,
}

-- DM_ERROR_INVALID_JSON_FORMAT of DeviceAgent, and the errors of JsonHelpers.
unfoldable pub invalid_format : Exception
invalid_format = dm (record { subsystem = codes "DeviceAgent"; code = pos 1001; message = [] })

unfoldable pub parse_error : Exception
parse_error = dm (record { subsystem = codes "deviceManagement"; code = negsuc 1; message = [] })

unfoldable pub logic_error : Exception
logic_error = std (codes "Json::LogicError")

abbrev pub or_logic_error {ℓ} : {A : Type ℓ} → Option A → Result Exception A
or_logic_error none = err logic_error
or_logic_error (some a) = ok a

-- JsonRefreshing.
abbrev pub refreshing : Text
refreshing = codes "Refreshing"

abbrev pub is_refreshing_text : Text → Bool
is_refreshing_text s = text_eq s refreshing

module _ (J : Json) where
  open J use {
    Value, null, is_null, is_string, is_object, is_int, is_bool, as_text, as_int, as_bool, member,
    with_member, member_names,
  }

  -- The string branch of TryGetJsonValue.
  refreshing_or_throw : Bool → Result Exception (Option Value)
  refreshing_or_throw true = ok none
  refreshing_or_throw false = err invalid_format

  unfoldable pub present : Value → Option Value
  present v = if is_null v then none else some v

  unfoldable pub try_get_json_value : Value → Text → Result Exception (Option Value)
  unfolding refreshing_or_throw present
  try_get_json_value object name =
      if is_null object
      then ok none
      else if is_string object
      then or_logic_error (as_text object) >>= (λ s. refreshing_or_throw (is_refreshing_text s))
      else if not (is_object object)
      then err invalid_format
      else or_logic_error (member object name) >>= (λ v. ok (present v))

  -- The typed readers differ in the test and the conversion.
  unfoldable pub typed {ℓ} :
      {A : Type ℓ}
      → (Value → Bool)
      → (Value → Option A)
      → Option Value
      → Result Exception (Option A)
  typed is_right as_right none = ok none
  typed is_right as_right (some v) =
      if not (is_right v)
      then err invalid_format
      else or_logic_error (as_right v) >>= (λ a. ok (some a))

  unfoldable pub try_get_int_json_value : Value → Text → Result Exception (Option ℤ)
  unfolding try_get_json_value typed
  try_get_int_json_value root name = do
    model ← try_get_json_value root name
    typed is_int as_int model

  unfoldable pub try_get_bool_json_value : Value → Text → Result Exception (Option Bool)
  unfolding try_get_json_value typed
  try_get_bool_json_value root name = do
    model ← try_get_json_value root name
    typed is_bool as_bool model

  unfoldable pub try_get_string_json_value : Value → Text → Result Exception (Option Text)
  unfolding try_get_json_value typed
  try_get_string_json_value root name = do
    model ← try_get_json_value root name
    typed is_string as_text model

  unfoldable pub required {ℓ} : {A : Type ℓ} → Option A → Result Exception A
  required none = err invalid_format
  required (some a) = ok a

  unfoldable pub get_string_json_value : Value → Text → Result Exception Text
  unfolding try_get_string_json_value required
  get_string_json_value root name = do model ← try_get_string_json_value root name; required model

  unfoldable pub is_refreshing : Value → Result Exception Bool
  is_refreshing desired =
      if is_null desired
      then err invalid_format
      else if is_string desired
      then or_logic_error (as_text desired) >>= (λ s. ok (is_refreshing_text s))
      else ok false

  -- The checks and the read that begin each GetNamed... of JsonHelpers.
  unfoldable pub get_named : Value → Text → Result Exception Value
  get_named root name =
      if is_null root
      then err parse_error
      else if not (is_object root)
      then err parse_error
      else or_logic_error (member root name)

  unfoldable pub get_named_integer : Value → Text → Result Exception ℤ
  unfolding get_named
  get_named_integer root name = do
    v ← get_named root name
    if is_null v then err parse_error else or_logic_error (as_int v)

  unfoldable pub get_named_string : Value → Text → Result Exception Text
  unfolding get_named
  get_named_string root name = do
    v ← get_named root name
    if is_null v then err parse_error else or_logic_error (as_text v)

  unfoldable pub get_named_string_or : Value → Text → Text → Result Exception Text
  unfolding get_named
  get_named_string_or root name default = do
    v ← get_named root name
    if is_null v then ok default else or_logic_error (as_text v)

  unfoldable pub has_key : Value → Text → Bool
  has_key object name =
      if is_null object || not (is_object object)
      then false
      else elim (member object name) [ none ↦ false | some v ↦ not (is_null v) ]

-- DeploymentStatusToString.
unfoldable pub deployment_status_to_string : DeploymentStatus → Text
deployment_status_to_string succeeded = codes "succeeded"
deployment_status_to_string not_started = codes "notStarted"
deployment_status_to_string pending = codes "pending"
deployment_status_to_string failed = codes "failed"
deployment_status_to_string unknown = []
