-- ===== src/Samples/Laws.antt =====
-- The sample library behaves as the models assume of the real one.
use azure_client_tools.Base.{
  ◌≡◌, refl, ap, true, false, List, [], ◌∷◌, some, Text, text_eq, text_eq_iff, c_string,
  if◌then◌else◌, arith,
}
use azure_client_tools.Json.{IsLawful}
use azure_client_tools.Samples.Written.{run-write, c_string-write}
use azure_client_tools.Samples.Documents.{
  Value, null, text, object, Fields, done, field, is_null, is_string, is_object, value_at,
  set_value, member, with_member, items, list_of, top, json,
}

list_of-items : (vs : List Value) → list_of (items vs) ≡ vs
list_of-items [] = refl
list_of-items (v ∷ vs) = ap (λ ws. v ∷ ws) (list_of-items vs)

string_not_object : (v : Value) → is_object v ≡ true → is_string v ≡ false
string_not_object (object m) h = refl
string_not_object null h = refl
string_not_object (text s) h = cc
string_not_object _ h = refl

object_not_null : (v : Value) → is_object v ≡ true → is_null v ≡ false
object_not_null null h = cc
object_not_null _ h = refl

with_member_is_object :
    (v x : Value) (k : Text) → is_object v ≡ true → is_object (with_member v k x) ≡ true
with_member_is_object (object m) x k h = refl
with_member_is_object null x k h = cc
with_member_is_object _ x k h = cc

value_at-set_value :
    (m : Fields) (x : Value) (j k : Text)
    → value_at j (set_value k x m) ≡ (if text_eq j k then x else value_at j m)
value_at-set_value done x j k = refl
value_at-set_value (field i v m) x j k =
    ground (arith, text_eq_iff j k, text_eq_iff k i, text_eq_iff j i, value_at-set_value m x j k)

member_set :
    (v x : Value) (j k : Text)
    → is_object v ≡ true
    → member (with_member v k x) j ≡ (if text_eq j k then some x else member v j)
member_set (object m) x j k h = ground (arith, value_at-set_value m x j k)
member_set null x j k h = cc
member_set _ x j k h = cc

pub json-IsLawful : IsLawful json
unfolding c_string
json-IsLawful = record {
  null_is_null = refl;
  empty_is_object = refl;
  empty_not_null = refl;
  text_is_string = λ s. refl;
  text_not_null = λ s. refl;
  text_read_back = λ s. refl;
  string_not_object = string_not_object;
  object_not_null = object_not_null;
  with_member_is_object = with_member_is_object;
  member_missing = λ k. refl;
  member_set = member_set;
  bool_is_bool = λ b. refl;
  bool_not_null = λ b. refl;
  bool_not_int = λ b. refl;
  bool_read_back = λ b. refl;
  int_read_back = λ n. refl;
  array_is_array = λ xs. refl;
  array_not_null = λ xs. refl;
  array_elements = list_of-items;
  parse_written = λ v. ap top (run-write v [] []);
  written_is_c_string = λ v. c_string-write v [];
}
