-- ===== src/Remote/Answers.antt =====
-- The stub's work on a call of a method, and the proxy's on its answer, taken together.
use azure_client_tools.Base.{
  ◌≡◌, refl, ◌∙◌, inl, inr, Bool, true, false, Option, some, List, [], ◌∷◌, Text, text_eq, Result,
  ok, err, ◌>>=◌, Bool-cases,
}
use azure_client_tools.Host.{InvokeResult}
use azure_client_tools.Json.Objects.{object_of-is_object, object_of-not_null, member-object_of}
use azure_client_tools.Json.{Json, IsLawful}
use azure_client_tools.Remote.Proxy.{bad_format, typed_result, read_invoke_result}
use azure_client_tools.Remote.Stub.{
  result_object, present_key, code_key, parsed_payload, invoke_object, connection_argument,
  status_argument, text_argument,
}
use azure_client_tools.Remote.{value_key, result_key, payload_key}
use azure_client_tools.Reporting.{Exception}
use azure_client_tools.Reporting.Operation.{or_logic_error}
use azure_client_tools.Reporting.Schema.{
  ReportedSchema, new_schema, schema_to_json, schema_from_json, schema_type, schema_tags,
  schema_version, join_tags, read_text,
}
use azure_client_tools.Remote.Crossing.{bind_bind, bind_same}

module _ (J : Json) where
  -- What comes back of a result of Invoke: its payload is parsed and written again, and is the text of
  -- null where there was none.
  unfoldable pub seen_invoke_result : InvokeResult → Result Exception InvokeResult
  unfolding parsed_payload
  seen_invoke_result r =
      parsed_payload J r >>= λ v. ok (record r { payload = J.to_styled_string v })

module _ (J : Json) (laws : IsLawful J) where
  pub result_member : (v : J.Value) → J.member (result_object J v) result_key ≡ some v
  unfolding text_eq
  result_member v = member-object_of J laws ((result_key, v) ∷ []) result_key

  pub typed_result-right {ℓ} :
      {A : Type ℓ} (function : Text) (is_right : J.Value → Bool) (as_right : J.Value → Option A)
      (v : J.Value)
      → J.is_null v ≡ false
      → is_right v ≡ true
      → typed_result J function is_right as_right (result_object J v) ≡ or_logic_error (as_right v)
  unfolding typed_result
  typed_result-right function is_right as_right v not_null right =
      rw (result_member v, not_null, right, typed_result) refl

  pub typed_result-wrong {ℓ} :
      {A : Type ℓ} (function : Text) (is_right : J.Value → Bool) (as_right : J.Value → Option A)
      (v : J.Value)
      → is_right v ≡ false
      → typed_result J function is_right as_right (result_object J v) ≡ err (bad_format function)
  unfolding typed_result
  typed_result-wrong function is_right as_right v wrong =
      rw (result_member v)
        (elim (Bool-cases (J.is_null v)) [ inl e ↦ rw e refl | inr e ↦ rw (e, wrong) refl ])

  pub typed_result-bool :
      (function : Text) (b : Bool)
      → typed_result J function J.is_bool J.as_bool (result_object J (J.of_bool b)) ≡ ok b
  typed_result-bool function b =
      typed_result-right function J.is_bool J.as_bool _ (laws.bool_not_null b) (laws.bool_is_bool b)
      ∙ rw (laws.bool_read_back b) refl

  pub typed_result-text :
      (function : Text) (s : Text)
      → typed_result J function J.is_string J.as_text (result_object J (J.of_text s)) ≡ ok s
  typed_result-text function s =
      typed_result-right function J.is_string J.as_text _ (laws.text_not_null s)
        (laws.text_is_string s)
      ∙ rw (laws.text_read_back s) refl

  pub connection_argument-text :
      (s : Text)
      → connection_argument J (J.with_member J.empty_object value_key (J.of_text s)) ≡ ok s
  unfolding connection_argument text_argument text_eq
  connection_argument-text s =
      let fs : List (Text × J.Value) = (value_key, J.of_text s) ∷ [] in
      rw
        (
          object_of-not_null J laws fs,
          object_of-is_object J laws fs,
          member-object_of J laws fs value_key,
          laws.text_not_null s,
          laws.text_is_string s,
          laws.text_read_back s,
          text_argument,
        )
        refl

  pub status_argument-text :
      (s : Text) → status_argument J (J.with_member J.empty_object value_key (J.of_text s)) ≡ ok s
  unfolding status_argument text_argument text_eq
  status_argument-text s =
      let fs : List (Text × J.Value) = (value_key, J.of_text s) ∷ [] in
      rw
        (
          object_of-not_null J laws fs,
          object_of-is_object J laws fs,
          member-object_of J laws fs value_key,
          laws.text_not_null s,
          laws.text_is_string s,
          laws.text_read_back s,
          text_argument,
        )
        refl

  read_invoke_result-object :
      (r : InvokeResult) (v : J.Value)
      → read_invoke_result J (
          J.with_member
            (J.with_member
              (J.with_member J.empty_object present_key (J.of_bool r.is_present))
              code_key
              (J.of_int r.code))
            payload_key
            v)
        ≡ ok (record r { payload = J.to_styled_string v })
  unfolding read_invoke_result text_eq
  read_invoke_result-object r v =
      let fs : List (Text × J.Value) =
        (payload_key, v)
        ∷ (code_key, J.of_int r.code)
        ∷ (present_key, J.of_bool r.is_present)
        ∷ [] in
      rw
        (
          member-object_of J laws fs present_key,
          laws.bool_read_back r.is_present,
          member-object_of J laws fs code_key,
          laws.int_read_back r.code,
          member-object_of J laws fs payload_key,
          read_invoke_result,
        )
        refl

  pub invoke_object-read :
      (r : InvokeResult) → (invoke_object J r >>= read_invoke_result J) ≡ seen_invoke_result J r
  unfolding invoke_object seen_invoke_result
  invoke_object-read r =
      bind_bind (parsed_payload J r) _ (read_invoke_result J)
      ∙ bind_same (parsed_payload J r) _ _ (read_invoke_result-object r)

  -- The tags do not come back.
  pub schema_from_json-schema_to_json :
      (s : ReportedSchema)
      → schema_from_json J (schema_to_json J s) new_schema ≡ ok (record s { tags = [] })
  unfolding schema_from_json schema_to_json new_schema read_text text_eq
  schema_from_json-schema_to_json s =
      let fs : List (Text × J.Value) =
        (schema_version, J.of_text s.interface_version)
        ∷ (schema_tags, J.of_text (join_tags [] s.tags))
        ∷ (schema_type, J.of_text s.interface_type)
        ∷ [] in
      rw
        (
          member-object_of J laws fs schema_type,
          laws.text_read_back s.interface_type,
          member-object_of J laws fs schema_tags,
          laws.text_read_back (join_tags [] s.tags),
          member-object_of J laws fs schema_version,
          laws.text_read_back s.interface_version,
          read_text,
          schema_from_json,
        )
        refl

  pub schema_is_object : (s : ReportedSchema) → J.is_object (schema_to_json J s) ≡ true
  unfolding schema_to_json
  schema_is_object s = object_of-is_object J laws (
      (schema_version, J.of_text s.interface_version)
      ∷ (schema_tags, J.of_text (join_tags [] s.tags))
      ∷ (schema_type, J.of_text s.interface_type)
      ∷ [])
