-- ===== src/Reporting/Operation/Reading.antt =====
-- What the readers of Operation return, over a JSON library that behaves as documented.
use azure_client_tools.Base.{true, some, ◌≡◌, none, Text, text_eq, ok, err, arith, if◌then◌else◌}
use azure_client_tools.Json.{Json, IsLawful}
use azure_client_tools.Reporting.Operation.{
  try_get_string_json_value, refreshing, invalid_format, try_get_json_value, is_refreshing,
}

module _ (J : Json) (laws : IsLawful J) where
  open J use {Value, with_member, of_text, is_object, is_null, is_int, null, empty_object}

  -- With a JSON library that behaves as documented: a string property that is set in an object is
  -- read back; any other property is read as it was before.
  pub try_get_string_json_value-with_member :
      (v : Value) (j k s : Text)
      → is_object v ≡ true
      → try_get_string_json_value J (with_member v k (of_text s)) j
        ≡ (if text_eq j k then ok (some s) else try_get_string_json_value J v j)
  unfolding try_get_string_json_value
  try_get_string_json_value-with_member v j k s o = ground (
    arith,
    laws.member_set v (of_text s) j k o,
    laws.with_member_is_object v (of_text s) k o,
    laws.object_not_null v o,
    laws.string_not_object v o,
    laws.object_not_null (with_member v k (of_text s)),
    laws.string_not_object (with_member v k (of_text s)),
    laws.text_is_string s,
    laws.text_not_null s,
    laws.text_read_back s,
  )

  -- With a JSON library that behaves as documented: the transient state "Refreshing" is recognised
  -- and holds no property; any other string is refused where an object is expected.
  pub transient_state :
      (s name : Text)
      → (is_refreshing J (of_text s) ≡ ok (text_eq s refreshing))
        × (try_get_json_value J (of_text s) name
            ≡ (if text_eq s refreshing then ok none else err invalid_format))
  unfolding is_refreshing try_get_json_value
  transient_state s name =
      ground (arith, laws.text_is_string s, laws.text_not_null s, laws.text_read_back s)
