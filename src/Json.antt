-- ===== src/Json.antt =====
-- What the program uses of the JSON library (jsoncpp, code/Utilities/json), as an interface: the
-- library is not modelled. `none` is the library's exception (Json::LogicError).
pub mod Objects
use azure_client_tools.Base.{
  ◌≡◌, Bool, true, false, List, Option, some, Text, text_eq, c_string, ℤ, if◌then◌else◌,
}

pub record Json : Type 1 where
  pub Value : Type 0
  pub null : Value
  pub empty_object : Value
  pub of_text : Text → Value
  -- Json::Value(int), given values of an `int` only.
  pub of_int : ℤ → Value
  pub of_bool : Bool → Value
  pub of_array : List Value → Value
  pub is_null : Value → Bool
  pub is_string : Value → Bool
  pub is_object : Value → Bool
  pub is_array : Value → Bool
  pub is_bool : Value → Bool
  pub is_int : Value → Bool
  -- asString, asInt and asBool.
  pub as_text : Value → Option Text
  pub as_int : Value → Option ℤ
  pub as_bool : Value → Option Bool
  -- `value[key]`, null where the key is missing.
  pub member : Value → Text → Option Value
  -- `value[key] = x`, for an object.
  pub with_member : Value → Text → Value → Value
  pub member_names : Value → Option (List Text)
  -- The elements of an array.
  pub elements : Value → List Value
  pub to_styled_string : Value → Text
  -- parseFromStream, `none` where it returns false.
  pub parse : Text → Option Value

-- The documented behaviour that the properties rely on.
pub record IsLawful (J : Json) : Type 0 where
  pub null_is_null : J.is_null J.null ≡ true
  pub empty_is_object : J.is_object J.empty_object ≡ true
  pub empty_not_null : J.is_null J.empty_object ≡ false
  pub text_is_string : (s : Text) → J.is_string (J.of_text s) ≡ true
  pub text_not_null : (s : Text) → J.is_null (J.of_text s) ≡ false
  pub text_read_back : (s : Text) → J.as_text (J.of_text s) ≡ some s
  pub string_not_object : (v : J.Value) → J.is_object v ≡ true → J.is_string v ≡ false
  pub object_not_null : (v : J.Value) → J.is_object v ≡ true → J.is_null v ≡ false
  pub with_member_is_object :
      (v x : J.Value) (k : Text) → J.is_object v ≡ true → J.is_object (J.with_member v k x) ≡ true
  pub member_missing : (k : Text) → J.member J.empty_object k ≡ some J.null
  pub member_set :
      (v x : J.Value) (j k : Text)
      → J.is_object v ≡ true
      → J.member (J.with_member v k x) j ≡ (if text_eq j k then some x else J.member v j)
  pub bool_is_bool : (b : Bool) → J.is_bool (J.of_bool b) ≡ true
  pub bool_not_null : (b : Bool) → J.is_null (J.of_bool b) ≡ false
  pub bool_not_int : (b : Bool) → J.is_int (J.of_bool b) ≡ false
  pub bool_read_back : (b : Bool) → J.as_bool (J.of_bool b) ≡ some b
  pub int_read_back : (n : ℤ) → J.as_int (J.of_int n) ≡ some n
  pub array_is_array : (xs : List J.Value) → J.is_array (J.of_array xs) ≡ true
  pub array_not_null : (xs : List J.Value) → J.is_null (J.of_array xs) ≡ false
  pub array_elements : (xs : List J.Value) → J.elements (J.of_array xs) ≡ xs
  -- A document that was written is read back as it was, and holds no zero byte: those of its strings
  -- are escaped.
  pub parse_written : (v : J.Value) → J.parse (J.to_styled_string v) ≡ some v
  pub written_is_c_string : (v : J.Value) → c_string (J.to_styled_string v) ≡ J.to_styled_string v
