-- ===== src/Reporting/MetaData.antt =====
-- MetaData.cpp. `now` is what DateTime::GetCurrentDateTimeString answers.
pub mod Reading
use azure_client_tools.Base.{
  not, ◌||◌, [], Text, text_eq, codes, ℤ, if◌then◌else◌, Result, ok, err, ◌>>=◌,
}
use azure_client_tools.Json.{Json}
use azure_client_tools.Reporting.{DeploymentStatus, not_started, Exception}
use azure_client_tools.Reporting.Operation.{
  or_logic_error, get_named_string, get_named_string_or, deployment_status_to_string,
}
use azure_client_tools.Utilities.Version.{version_format_check}

pub record MetaData : Type 0 where
  pub deployment_id : Text
  pub reporting_mode : Text
  pub service_interface_version : Text
  pub device_interface_version : Text
  pub deployment_status : DeploymentStatus
  pub time_stamp : Text

abbrev pub meta_key : Text
meta_key = codes "__meta"

abbrev pub deployment_id_key : Text
deployment_id_key = codes "deploymentId"

abbrev pub reporting_mode_key : Text
reporting_mode_key = codes "reportingMode"

abbrev pub service_version_key : Text
service_version_key = codes "serviceInterfaceVersion"

abbrev pub device_version_key : Text
device_version_key = codes "deviceInterfaceVersion"

abbrev pub deployment_status_key : Text
deployment_status_key = codes "deploymentStatus"

abbrev pub time_key : Text
time_key = codes "time"

abbrev pub unspecified : Text
unspecified = codes "unspecified"

unfoldable pub new_meta_data : MetaData
new_meta_data = record {
  deployment_id = unspecified;
  reporting_mode = codes "detailed";
  service_interface_version = [];
  device_interface_version = [];
  deployment_status = not_started;
  time_stamp = [];
}

unfoldable pub set_deployment_id : Text → Text → MetaData → MetaData
set_deployment_id now id m = record m { deployment_id = id; time_stamp = now }

unfoldable pub set_meta_status : Text → DeploymentStatus → MetaData → MetaData
set_meta_status now status m = record m { deployment_status = status; time_stamp = now }

unfoldable pub set_reporting_mode : Text → MetaData → MetaData
set_reporting_mode mode m = record m { reporting_mode = mode }

unfoldable pub set_device_interface_version : ℤ → Text → MetaData → Result Exception MetaData
set_device_interface_version last_error version m = version_format_check last_error version >>= λ v.
    ok (record m { device_interface_version = version })

-- The fields as a reader leaves them, and whether it returns or throws.
pub record Read : Type 0 where
  pub meta : MetaData
  pub outcome : Result Exception (Unit {0})

abbrev pub assigned {ℓ} : {A : Type ℓ} → Result Exception A → MetaData → (A → Read) → Read
assigned (err e) m next = record { meta = m; outcome = err e }
assigned (ok a) m next = next a

module _ (J : Json) where
  -- FromJsonObject assigns each field when its text is read: those before an exception are kept.
  unfoldable pub meta_from_json : J.Value → MetaData → Read
  meta_from_json v m = assigned (get_named_string_or J v deployment_id_key m.deployment_id) m (λ id.
      let m₁ = record m { deployment_id = id } in
      assigned (get_named_string_or J v reporting_mode_key m₁.reporting_mode) m₁ (λ mode.
        let m₂ = record m₁ { reporting_mode = mode } in
        assigned (get_named_string J v service_version_key) m₂ (λ version. record {
          meta = record m₂ { service_interface_version = version };
          outcome = ok tt;
        })))

  -- FromJsonObjectSubMeta.
  unfoldable pub sub_meta_from_json : J.Value → MetaData → Read
  sub_meta_from_json v m =
      assigned (get_named_string_or J v reporting_mode_key m.reporting_mode) m
        (λ mode. record { meta = record m { reporting_mode = mode }; outcome = ok tt })

  -- The object under "__meta", if there is one, is read.
  unfoldable pub from_parent : (J.Value → MetaData → Read) → J.Value → MetaData → Read
  from_parent read parent m = assigned (or_logic_error (J.member parent meta_key)) m (λ v.
      if J.is_null v || not (J.is_object v)
      then (record { meta = m; outcome = ok tt })
      else read v m)

  unfoldable pub meta_from_json_parent : J.Value → MetaData → Read
  unfolding from_parent meta_from_json
  meta_from_json_parent = from_parent meta_from_json

  unfoldable pub sub_meta_from_json_parent : J.Value → MetaData → Read
  unfolding from_parent sub_meta_from_json
  sub_meta_from_json_parent = from_parent sub_meta_from_json

  -- ToJsonObject.
  unfoldable pub meta_to_json : MetaData → J.Value
  meta_to_json m =
      let named = J.with_member J.empty_object deployment_id_key (J.of_text m.deployment_id) in
      let marked =
        J.with_member named deployment_status_key
          (J.of_text (deployment_status_to_string m.deployment_status)) in
      let timed = J.with_member marked time_key (J.of_text m.time_stamp) in
      J.with_member timed device_version_key (J.of_text m.device_interface_version)

  -- ToJsonObject of one property.
  unfoldable pub meta_property_to_json : Text → MetaData → J.Value
  meta_property_to_json name m =
      if text_eq name deployment_id_key
      then J.with_member J.empty_object deployment_id_key (J.of_text m.deployment_id)
      else if text_eq name deployment_status_key
      then J.with_member J.empty_object deployment_status_key
          (J.of_text (deployment_status_to_string m.deployment_status))
      else if text_eq name time_key
      then J.with_member J.empty_object time_key (J.of_text m.time_stamp)
      else if text_eq name device_version_key
      then J.with_member J.empty_object device_version_key (J.of_text m.device_interface_version)
      else J.empty_object

  -- DeploymentStatusToJsonObject.
  unfoldable pub meta_status_to_json : DeploymentStatus → J.Value
  meta_status_to_json status =
      J.with_member J.empty_object deployment_status_key
        (J.of_text (deployment_status_to_string status))
