-- ===== src/Reporting/MetaData/Reading.antt =====
-- What MetaData takes from a desired object.
use azure_client_tools.Base.{
  ◌≡◌, refl, ◌∙◌, true, false, Option, none, some, Text, Result, ok, err, Bool-cases, inl, inr,
}
use azure_client_tools.Json.{Json, IsLawful}
use azure_client_tools.Reporting.MetaData.{
  MetaData, Read, assigned, meta_key, deployment_id_key, reporting_mode_key, service_version_key,
  meta_from_json, sub_meta_from_json, from_parent, meta_from_json_parent, sub_meta_from_json_parent,
}
use azure_client_tools.Reporting.Operation.{
  parse_error, get_named, get_named_string, get_named_string_or,
}
use azure_client_tools.Reporting.{Exception}

abbrev pub or_default : Option Text → Text → Text
or_default none default = default
or_default (some s) default = s

-- What GetNamedString makes of a property.
abbrev pub or_parse_error : Option Text → Result Exception Text
or_parse_error none = err parse_error
or_parse_error (some s) = ok s

-- Whether a property that must be there is there.
abbrev pub required : Option Text → Result Exception (Unit {0})
required none = err parse_error
required (some s) = ok tt

abbrev pub untouched : MetaData → Read
untouched m = record { meta = m; outcome = ok tt }

abbrev pub text_or_null : (J : Json) → Option Text → J.Value
text_or_null J none = J.null
text_or_null J (some s) = J.of_text s

-- An object has a text, or nothing, under a name.
abbrev pub Holds : (J : Json) → J.Value → Text → Option Text → Type 0
Holds J v key o = J.member v key ≡ some (text_or_null J o)

module _ (J : Json) (laws : IsLawful J) where
  get_named-Holds :
      (v : J.Value) (key : Text) (o : Option Text)
      → J.is_object v ≡ true
      → Holds J v key o
      → get_named J v key ≡ ok (text_or_null J o)
  unfolding get_named
  get_named-Holds v key o h e = rw (laws.object_not_null v h, h, e) refl

  get_named_string_or-Holds :
      (v : J.Value) (key default : Text) (o : Option Text)
      → J.is_object v ≡ true
      → Holds J v key o
      → get_named_string_or J v key default ≡ ok (or_default o default)
  unfolding get_named_string_or
  get_named_string_or-Holds v key default none h e =
      rw (get_named-Holds v key none h e, laws.null_is_null) refl
  get_named_string_or-Holds v key default (some s) h e =
      rw (get_named-Holds v key (some s) h e, laws.text_not_null s, laws.text_read_back s) refl

  get_named_string-Holds :
      (v : J.Value) (key : Text) (o : Option Text)
      → J.is_object v ≡ true
      → Holds J v key o
      → get_named_string J v key ≡ or_parse_error o
  unfolding get_named_string
  get_named_string-Holds v key none h e =
      rw (get_named-Holds v key none h e, laws.null_is_null) refl
  get_named_string-Holds v key (some s) h e =
      rw (get_named-Holds v key (some s) h e, laws.text_not_null s, laws.text_read_back s) refl

  -- No object under "__meta".
  from_parent-none :
      (read : J.Value → MetaData → Read) (parent v : J.Value) (m : MetaData)
      → J.member parent meta_key ≡ some v
      → J.is_object v ≡ false
      → from_parent J read parent m ≡ untouched m
  unfolding from_parent
  from_parent-none read parent v m at no_object = elim (Bool-cases (J.is_null v)) [
    | inl e ↦ rw (at, e) refl
    | inr e ↦ rw (at, e, no_object) refl
  ]

  from_parent-object :
      (read : J.Value → MetaData → Read) (parent v : J.Value) (m : MetaData)
      → J.member parent meta_key ≡ some v
      → J.is_object v ≡ true
      → from_parent J read parent m ≡ read v m
  unfolding from_parent
  from_parent-object read parent v m at object = rw (at, laws.object_not_null v object, object) refl

  -- From a desired object whose "__meta" is an object with or without its three texts,
  -- FromJsonParentObject takes the deployment id and the reporting mode where they are given, and the
  -- version of the interface. Without a version it throws, but the deployment id and the reporting mode
  -- are the new ones all the same. FromJsonParentObjectSubMeta takes the reporting mode only. An object
  -- without such a member changes nothing.
  pub meta_from_json_parent_lem :
      (parent v without w : J.Value) (m : MetaData) (id mode version : Option Text)
      → J.member parent meta_key ≡ some v
      → J.is_object v ≡ true
      → Holds J v deployment_id_key id
      → Holds J v reporting_mode_key mode
      → Holds J v service_version_key version
      → J.member without meta_key ≡ some w
      → J.is_object w ≡ false
      → (meta_from_json_parent J parent m ≡ record {
        meta = record m {
          deployment_id = or_default id m.deployment_id;
          reporting_mode = or_default mode m.reporting_mode;
          service_interface_version = or_default version m.service_interface_version;
        };
        outcome = required version;
      })
        × (sub_meta_from_json_parent J parent m
            ≡ untouched (record m { reporting_mode = or_default mode m.reporting_mode }))
        × (meta_from_json_parent J without m ≡ untouched m)
        × (sub_meta_from_json_parent J without m ≡ untouched m)
  unfolding meta_from_json_parent sub_meta_from_json_parent meta_from_json sub_meta_from_json
  meta_from_json_parent_lem parent v without w m id mode version at object a b c at' no_object =
      let id_read = get_named_string_or-Holds v deployment_id_key m.deployment_id id object a in
      let mode_read =
        get_named_string_or-Holds v reporting_mode_key m.reporting_mode mode object b in
      let version_read = get_named_string-Holds v service_version_key version object c in
      (
        from_parent-object (meta_from_json J) parent v m at object
            ∙ rw (id_read, mode_read, version_read, meta_from_json) (with_version version),
        from_parent-object (sub_meta_from_json J) parent v m at object
            ∙ rw (mode_read, sub_meta_from_json) refl,
        from_parent-none (meta_from_json J) without w m at' no_object,
        from_parent-none (sub_meta_from_json J) without w m at' no_object,
      )
    where
      with_version :
          (o : Option Text)
          → assigned
              (or_parse_error o)
              (record m {
                deployment_id = or_default id m.deployment_id;
                reporting_mode = or_default mode m.reporting_mode;
              })
              (λ s. record {
                meta = record m {
                  deployment_id = or_default id m.deployment_id;
                  reporting_mode = or_default mode m.reporting_mode;
                  service_interface_version = s;
                };
                outcome = ok tt;
              })
            ≡ record {
              meta = record m {
                deployment_id = or_default id m.deployment_id;
                reporting_mode = or_default mode m.reporting_mode;
                service_interface_version = or_default o m.service_interface_version;
              };
              outcome = required o;
            }
      with_version none = refl
      with_version (some s) = refl
