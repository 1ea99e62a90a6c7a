-- ===== src/Reporting/Schema.antt =====
-- ReportedSchema.cpp.
use azure_client_tools.Base.{
  Bool, true, false, List, [], ◌∷◌, ◌++◌, Text, text_eq, codes, length, ◌==◌, if◌then◌else◌, Result,
  ok, ◌>>=◌,
}
use azure_client_tools.Json.{Json}
use azure_client_tools.Reporting.{Exception}
use azure_client_tools.Reporting.Operation.{or_logic_error}
use azure_client_tools.Reporting.Summary.{emplace}
use azure_client_tools.Utilities.Strings.{split_string}

-- `tags` is a `std::set`.
pub record ReportedSchema : Type 0 where
  pub interface_type : Text
  pub tags : List Text
  pub interface_version : Text

unfoldable pub new_schema : ReportedSchema
new_schema = record { interface_type = []; tags = []; interface_version = [] }

unfoldable pub emplace_all : List Text → List Text → List Text
unfolding emplace
emplace_all [] tags = tags
emplace_all (t ∷ ts) tags = emplace_all ts (emplace t tags)

-- The constructor.
unfoldable pub schema : Text → Text → Text → ReportedSchema
unfolding split_string emplace_all
schema interface_type tags interface_version = record {
  interface_type = interface_type;
  tags = emplace_all (split_string b';' tags) [];
  interface_version = interface_version;
}

unfoldable pub is_tag_of : Text → List Text → Bool
is_tag_of tag [] = false
is_tag_of tag (t ∷ ts) = if text_eq tag t then true else is_tag_of tag ts

unfoldable pub has_tag : Text → ReportedSchema → Bool
unfolding is_tag_of
has_tag tag s = is_tag_of tag s.tags

unfoldable pub has_any_tag : List Text → ReportedSchema → Bool
unfolding has_tag
has_any_tag [] s = false
has_any_tag (t ∷ ts) s = if has_tag t s then true else has_any_tag ts s

-- The tags behind what is there already.
unfoldable pub join_tags : Text → List Text → Text
join_tags joined [] = joined
join_tags joined (t ∷ ts) =
    join_tags ((if length joined == 0 then joined else joined ++ b';' ∷ []) ++ t) ts

abbrev pub schema_type : Text
schema_type = codes "type"

abbrev pub schema_tags : Text
schema_tags = codes "tags"

abbrev pub schema_version : Text
schema_version = codes "interfaceVersion"

module _ (J : Json) where
  unfoldable pub schema_to_json : ReportedSchema → J.Value
  unfolding join_tags
  schema_to_json s =
      let typed = J.with_member J.empty_object schema_type (J.of_text s.interface_type) in
      let tagged = J.with_member typed schema_tags (J.of_text (join_tags [] s.tags)) in
      J.with_member tagged schema_version (J.of_text s.interface_version)

  unfoldable pub read_text : J.Value → Text → Result Exception Text
  read_text v key = or_logic_error (J.member v key) >>= λ x. or_logic_error (J.as_text x)

  -- The tags go into a local variable.
  unfoldable pub schema_from_json : J.Value → ReportedSchema → Result Exception ReportedSchema
  unfolding read_text
  schema_from_json v s = do
    interface_type ← read_text v schema_type
    tags ← read_text v schema_tags
    interface_version ← read_text v schema_version
    ok (record s { interface_type = interface_type; interface_version = interface_version })
