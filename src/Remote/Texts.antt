-- ===== src/Remote/Texts.antt =====
-- Requests and responses are read back from their texts.
use azure_client_tools.Base.{
  ◌≡◌, refl, ap, ◌∙◌, true, [], ◌∷◌, false, some, Text, text_eq, Result, ok, err,
}
use azure_client_tools.Json.Objects.{
  object_of, last_set, object_of-is_object, object_of-not_null, member-object_of,
}
use azure_client_tools.Json.{Json, IsLawful}
use azure_client_tools.Plugins.{Request}
use azure_client_tools.Remote.Plugin.{response_for, response_text}
use azure_client_tools.Remote.Requests.{
  request_object, build_request, request_from_json, request_from_json_string,
}
use azure_client_tools.Remote.Responses.{
  CrossBinaryResponse, dm_payload, std_payload, create_from_exception, create_from_success,
  response_to_json, throw_dm, throw_std, error_payload, response_payload, success_key, error_type,
  error_type_dm, error_type_std, error_subsystem, error_code, error_message,
  payload_from_json_string,
}
use azure_client_tools.Remote.{type_key, id_key, method_key, parameters_key, payload_key}
use azure_client_tools.Reporting.{DmException, Exception, dm, std}

module _ (J : Json) (laws : IsLawful J) where
  pub request_from_json-request_object :
      (r : Request J.Value) → request_from_json J (request_object J r) ≡ ok r
  unfolding request_from_json request_object text_eq
  request_from_json-request_object r =
      let fs =
        (parameters_key, r.target_parameters)
        ∷ (method_key, J.of_text r.target_method)
        ∷ (id_key, J.of_text r.target_id)
        ∷ (type_key, J.of_text r.target_type)
        ∷ [] in
      let at : (j : Text) → J.member (object_of J fs) j ≡ some (last_set J j fs) =
        member-object_of J laws fs in
      rw
        (
          object_of-not_null J laws fs,
          object_of-is_object J laws fs,
          at type_key,
          at id_key,
          at method_key,
          at parameters_key,
          laws.text_read_back r.target_type,
          laws.text_read_back r.target_id,
          laws.text_read_back r.target_method,
          request_from_json,
        )
        refl

  -- A request that was written is read back.
  pub request_from_json_string-build_request :
      (r : Request J.Value) → request_from_json_string J (build_request J r) ≡ ok r
  unfolding request_from_json_string build_request
  request_from_json_string-build_request r =
      rw (laws.parse_written (request_object J r), request_from_json_string)
        (request_from_json-request_object r)

  pub response_to_json-payload :
      (r : CrossBinaryResponse J.Value) (v : J.Value)
      → r.payload ≡ v
      → (r.success ≡ true)
      → response_payload J (response_to_json J r) ≡ ok v
  unfolding response_payload response_to_json text_eq
  response_to_json-payload r v e ok_flag =
      let fs = (payload_key, r.payload) ∷ (success_key, J.of_bool r.success) ∷ [] in
      let at : (j : Text) → J.member (object_of J fs) j ≡ some (last_set J j fs) =
        member-object_of J laws fs in
      rw
        (
          at success_key,
          at payload_key,
          laws.bool_not_null r.success,
          laws.bool_is_bool r.success,
          laws.bool_read_back r.success,
          ok_flag,
          response_payload,
        )
        (ap ok e)

  pub response_to_json-error :
      (r : CrossBinaryResponse J.Value)
      → r.success ≡ false
      → response_payload J (response_to_json J r) ≡ error_payload J r.payload
  unfolding response_payload response_to_json text_eq
  response_to_json-error r failed =
      let fs = (payload_key, r.payload) ∷ (success_key, J.of_bool r.success) ∷ [] in
      let at : (j : Text) → J.member (object_of J fs) j ≡ some (last_set J j fs) =
        member-object_of J laws fs in
      rw
        (
          at success_key,
          at payload_key,
          laws.bool_not_null r.success,
          laws.bool_is_bool r.success,
          laws.bool_read_back r.success,
          failed,
          response_payload,
        )
        refl

  pub error_payload-dm_payload : (e : DmException) → error_payload J (dm_payload J e) ≡ err (dm e)
  unfolding error_payload dm_payload throw_dm text_eq
  error_payload-dm_payload e =
      let fs =
        (error_message, J.of_text e.message)
        ∷ (error_code, J.of_int e.code)
        ∷ (error_subsystem, J.of_text e.subsystem)
        ∷ (error_type, J.of_text error_type_dm)
        ∷ [] in
      let at : (j : Text) → J.member (object_of J fs) j ≡ some (last_set J j fs) =
        member-object_of J laws fs in
      rw
        (
          object_of-not_null J laws fs,
          at error_type,
          laws.text_read_back error_type_dm,
          at error_subsystem,
          laws.text_read_back e.subsystem,
          at error_code,
          laws.int_read_back e.code,
          at error_message,
          laws.text_read_back e.message,
          error_payload,
          throw_dm,
        )
        refl

  pub error_payload-std_payload :
      (what : Text) → error_payload J (std_payload J what) ≡ err (std what)
  unfolding error_payload std_payload throw_std text_eq
  error_payload-std_payload what =
      let fs = (error_message, J.of_text what) ∷ (error_type, J.of_text error_type_std) ∷ [] in
      let at : (j : Text) → J.member (object_of J fs) j ≡ some (last_set J j fs) =
        member-object_of J laws fs in
      rw
        (
          object_of-not_null J laws fs,
          at error_type,
          laws.text_read_back error_type_std,
          at error_message,
          laws.text_read_back what,
          error_payload,
          throw_std,
        )
        refl

  pub response_payload-response_for :
      (r : Result Exception J.Value)
      → response_payload J (response_to_json J (response_for J r)) ≡ r
  unfolding response_for create_from_exception create_from_success
  response_payload-response_for (ok v) =
      response_to_json-payload (create_from_success J v) v refl refl
  response_payload-response_for (err (dm e)) =
      response_to_json-error (create_from_exception J (dm e)) refl ∙ error_payload-dm_payload e
  response_payload-response_for (err (std what)) =
      response_to_json-error (create_from_exception J (std what)) refl
      ∙ error_payload-std_payload what

  pub response_is_object :
      (r : CrossBinaryResponse J.Value)
      → (J.is_null (response_to_json J r) ≡ false) × (J.is_object (response_to_json J r) ≡ true)
  unfolding response_to_json
  response_is_object r =
      let fs = (payload_key, r.payload) ∷ (success_key, J.of_bool r.success) ∷ [] in
      (object_of-not_null J laws fs, object_of-is_object J laws fs)

  -- The response to a call that returned or threw, written as a text, gives the reader the same result
  -- or the same exception.
  pub payload_from_json_string-response_text :
      (r : Result Exception J.Value) → payload_from_json_string J (response_text J r) ≡ r
  unfolding payload_from_json_string response_text
  payload_from_json_string-response_text r =
      let v = response_to_json J (response_for J r) in
      let (not_null, is_object) = response_is_object (response_for J r) in
      rw (laws.parse_written v, not_null, is_object, payload_from_json_string)
        (response_payload-response_for r)
