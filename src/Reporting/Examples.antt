-- ===== src/Reporting/Examples.antt =====
-- Runs of the reporting code on small inputs.
use azure_client_tools.Base.{
  ℕ, ◌+◌, ◌≡◌, ◌↔◌, refl, List, [], ◌∷◌, Option, none, some, Text, codes, text_eq, Map,
}
use azure_client_tools.Reporting.{DeploymentStatus, succeeded, failed, pending, Exception, std}
use azure_client_tools.Reporting.Errors.{run_operations, final_status, NoneThrows}
use azure_client_tools.Reporting.Errors.Outcomes.{
  run_operations-Reports, after_all, last_thrown, Reports, final_status-run_operations,
}
use azure_client_tools.Reporting.MetaData.Reading.{required, untouched, meta_from_json_parent_lem}
use azure_client_tools.Reporting.MetaData.{
  new_meta_data, meta_key, deployment_id_key, meta_from_json_parent, sub_meta_from_json_parent,
}
use azure_client_tools.Samples.{json, json-IsLawful, Value}

-- An action that counts its runs and then throws.
abbrev bad : ℕ → ℕ × Option Exception
bad n = (n + 1, some (std (codes "bad")))

abbrev good : ℕ → ℕ × Option Exception
good n = (n + 1, none)

abbrev both : List (Text × (ℕ → ℕ × Option Exception))
both = (codes "x", good) ∷ (codes "y", bad) ∷ []

final_status-run_operations_example :
    ((final_status (run_operations both [] 0).1 ≡ succeeded) ↔ NoneThrows both 0)
    × (¬ NoneThrows both 0 → final_status (run_operations both [] 0).1 ≡ failed)
final_status-run_operations_example = final_status-run_operations both 0

run_operations-Reports_example :
    ((run_operations both [] 0).0 ≡ after_all both 0)
    × ((j : Text) → Reports (last_thrown both 0 j) j [] (run_operations both [] 0).1)
run_operations-Reports_example = run_operations-Reports both [] 0

abbrev sections : Map DeploymentStatus
sections = (codes "reboot", failed) ∷ (codes "time", pending) ∷ (codes "wifi", failed) ∷ []

-- A desired section with a deployment id, but without a version and a reporting mode.
abbrev desired_meta : Value
desired_meta = json.with_member json.empty_object deployment_id_key (json.of_text (codes "d1"))

meta_from_json_parent_lem_example :
    (meta_from_json_parent json
        (json.with_member json.empty_object meta_key desired_meta)
        new_meta_data
      ≡ record {
        meta = record new_meta_data {
          deployment_id = codes "d1";
          reporting_mode = new_meta_data.reporting_mode;
          service_interface_version = new_meta_data.service_interface_version;
        };
        outcome = required none;
      })
    × (sub_meta_from_json_parent json
          (json.with_member json.empty_object meta_key desired_meta)
          new_meta_data
        ≡ untouched (record new_meta_data { reporting_mode = new_meta_data.reporting_mode }))
    × (meta_from_json_parent json json.empty_object new_meta_data ≡ untouched new_meta_data)
    × (sub_meta_from_json_parent json json.empty_object new_meta_data ≡ untouched new_meta_data)
unfolding text_eq
meta_from_json_parent_lem_example =
    meta_from_json_parent_lem json json-IsLawful
      (json.with_member json.empty_object meta_key desired_meta) desired_meta json.empty_object
      json.null new_meta_data (some (codes "d1")) none none refl refl refl refl refl refl refl
