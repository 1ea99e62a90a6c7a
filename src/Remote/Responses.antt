-- ===== src/Remote/Responses.antt =====
-- CrossBinaryResponse.cpp: what a call returned or threw, as a text.
use azure_client_tools.Base.{
  Bool, true, false, not, ◌||◌, none, some, Text, text_eq, codes, if◌then◌else◌, Result, ok, err,
  ◌>>=◌,
}
use azure_client_tools.Json.{Json}
use azure_client_tools.Remote.Requests.{text_member}
use azure_client_tools.Remote.{agent_error, payload_key}
use azure_client_tools.Reporting.{DmException, Exception, dm, std}
use azure_client_tools.Reporting.Operation.{or_logic_error}

pub record CrossBinaryResponse (V : Type 0) : Type 0 where
  pub success : Bool
  pub payload : V

abbrev pub success_key : Text
success_key = codes "success"

abbrev pub error_type : Text
error_type = codes "errorType"

abbrev pub error_type_dm : Text
error_type_dm = codes "DMException"

abbrev pub error_type_std : Text
error_type_std = codes "StdException"

abbrev pub error_subsystem : Text
error_subsystem = codes "errorSubSystem"

abbrev pub error_code : Text
error_code = codes "errorCode"

abbrev pub error_message : Text
error_message = codes "errorMessage"

unfoldable pub unreadable_response : Exception
unreadable_response =
    agent_error 1004 (codes "Failed to parse json to construct CrossBinaryResponse.")

unfoldable pub invalid_response : Exception
invalid_response = agent_error 1005 (codes "Failed to parse plug-in response: invalid type.")

unfoldable pub invalid_success : Exception
invalid_success =
    agent_error 1005 (codes "Failed to parse plug-in response: invalid type or missing 'success'.")

module _ (J : Json) where
  unfoldable pub dm_payload : DmException → J.Value
  dm_payload e =
      let typed = J.with_member J.empty_object error_type (J.of_text error_type_dm) in
      let placed = J.with_member typed error_subsystem (J.of_text e.subsystem) in
      let coded = J.with_member placed error_code (J.of_int e.code) in
      J.with_member coded error_message (J.of_text e.message)

  unfoldable pub std_payload : Text → J.Value
  std_payload what =
      let typed = J.with_member J.empty_object error_type (J.of_text error_type_std) in
      J.with_member typed error_message (J.of_text what)

  unfoldable pub create_from_exception : Exception → CrossBinaryResponse J.Value
  unfolding dm_payload std_payload
  create_from_exception (dm e) = record { success = false; payload = dm_payload e }
  create_from_exception (std what) = record { success = false; payload = std_payload what }

  unfoldable pub create_from_success : J.Value → CrossBinaryResponse J.Value
  create_from_success payload = record { success = true; payload = payload }

  unfoldable pub response_to_json : CrossBinaryResponse J.Value → J.Value
  response_to_json r =
      let marked = J.with_member J.empty_object success_key (J.of_bool r.success) in
      J.with_member marked payload_key r.payload

  -- ThrowDMException; what reading the members throws comes first.
  unfoldable pub throw_dm {ℓ} : {A : Type ℓ} → J.Value → Result Exception A
  throw_dm payload = do
    subsystem ← text_member J payload error_subsystem
    code ← (or_logic_error (J.member payload error_code) >>= λ x. or_logic_error (J.as_int x))
    message ← text_member J payload error_message
    err (dm (record { subsystem = subsystem; code = code; message = message }))

  -- ThrowStdException.
  unfoldable pub throw_std {ℓ} : {A : Type ℓ} → J.Value → Result Exception A
  throw_std payload = do message ← text_member J payload error_message; err (std message)

  -- `payload[JsonCrossBinaryErrorType]` on a payload that is not constant: it makes an object of null,
  -- and leaves the member behind.
  unfoldable pub error_payload : J.Value → Result Exception J.Value
  unfolding throw_dm throw_std
  error_payload payload =
      let object = if J.is_null payload then J.empty_object else payload in
      or_logic_error (J.member object error_type) >>= λ kind.
      or_logic_error (J.as_text kind) >>= λ name.
      if text_eq name error_type_dm
      then throw_dm payload
      else if text_eq name error_type_std
      then throw_std payload
      else ok (J.with_member object error_type kind)

  -- What stands in the object of a response.
  unfoldable pub response_payload : J.Value → Result Exception J.Value
  unfolding error_payload
  response_payload v = or_logic_error (J.member v success_key) >>= λ flag.
      if J.is_null flag || not (J.is_bool flag)
      then err invalid_success
      else or_logic_error (J.as_bool flag) >>= λ success.
          or_logic_error (J.member v payload_key) >>= λ payload.
          if success then ok payload else error_payload payload

  unfoldable pub payload_from_json_string : Text → Result Exception J.Value
  unfolding response_payload
  payload_from_json_string s = elim (J.parse s) [
    | none ↦ err unreadable_response
    | some v ↦
        if J.is_null v || not (J.is_object v) then err invalid_response else response_payload v
  ]
