-- ===== src/Reporting/Summary.antt =====
-- ReportedSummary.h and ReportedSummary.cpp: the state of the sections and their summary. The counts
-- are `unsigned int` and do not overflow: a process has no 2^32 sections.
pub mod Counts
use azure_client_tools.Base.{
  ℕ, zero, suc, ◌+◌, ◌≡◌, Bool, true, false, List, [], ◌∷◌, ◌++◌, Option, none, some, Text, text_eq,
  text_lt, codes, Map, insert, lookup, length, ◌==◌, if◌then◌else◌, Result, ok, err, pos,
}
use azure_client_tools.Json.{Json}
use azure_client_tools.Reporting.{
  DeploymentStatus, succeeded, not_started, pending, failed, unknown, DmException, Exception, dm,
}

pub record ReportedSummary : Type 0 where
  pub id : Text
  pub deployment_status : DeploymentStatus
  pub sections : Map DeploymentStatus
  pub deployments : List Text

unfoldable pub new_summary : ReportedSummary
new_summary = record {
  id = codes "__summary";
  deployment_status = not_started;
  sections = [];
  deployments = [];
}

-- DM_ERROR_INVALID_SECTION.
unfoldable pub undefined_section : Exception
undefined_section = dm (record { subsystem = codes "DeviceAgent"; code = pos 1013; message = [] })

unfoldable pub get_section_status : Text → ReportedSummary → Result Exception DeploymentStatus
get_section_status name s = elim (lookup name s.sections) [
  | none ↦ err undefined_section
  | some status ↦ ok status
]

unfoldable pub set_section_status : Text → DeploymentStatus → ReportedSummary → ReportedSummary
set_section_status id status s = record s { sections = insert id status s.sections }

-- A `std::set<std::string>`.
unfoldable pub emplace : Text → List Text → List Text
emplace d [] = d ∷ []
emplace d (x ∷ xs) =
    if text_eq d x then x ∷ xs else if text_lt d x then d ∷ x ∷ xs else x ∷ emplace d xs

unfoldable pub erase_text : Text → List Text → List Text
erase_text d [] = []
erase_text d (x ∷ xs) = if text_eq d x then xs else x ∷ erase_text d xs

unfoldable pub add_deployment : Text → ReportedSummary → ReportedSummary
unfolding emplace
add_deployment d s = record s { deployments = emplace d s.deployments }

unfoldable pub remove_deployment : Text → ReportedSummary → ReportedSummary
unfolding erase_text
remove_deployment d s = record s { deployments = erase_text d s.deployments }

-- A name behind a semicolon, unless it is the first.
unfoldable pub append_name : Text → Text → Text
append_name names name = (if length names == 0 then names else names ++ b';' ∷ []) ++ name

pub record Tally : Type 0 where
  pub failed_count : ℕ
  pub failed_sections : Text
  pub pending_count : ℕ
  pub pending_sections : Text

-- The `switch` of ToJsonObject.
unfoldable pub tally_one : Text → DeploymentStatus → Tally → Tally
unfolding append_name
tally_one name failed t = record t {
  failed_count = t.failed_count + 1;
  failed_sections = append_name t.failed_sections name;
}
tally_one name pending t = record t {
  pending_count = t.pending_count + 1;
  pending_sections = append_name t.pending_sections name;
}
tally_one name succeeded t = t
tally_one name not_started t = t
tally_one name unknown t = t

unfoldable pub tally : Map DeploymentStatus → Tally → Tally
unfolding tally_one
tally [] t = t
tally ((name, status) ∷ m) t = tally m (tally_one name status t)

unfoldable pub no_sections : Tally
no_sections = record {
  failed_count = 0;
  failed_sections = [];
  pending_count = 0;
  pending_sections = [];
}

unfoldable pub join_names : List Text → Text → Text
join_names [] names = names
join_names (d ∷ ds) names = join_names ds (append_name names d)

-- ToJsonObject; `now` is the time string.
unfoldable pub summary_to_json : (J : Json) → Text → ReportedSummary → J.Value
unfolding tally no_sections join_names
summary_to_json J now s =
    let t = tally s.sections no_sections in
    let failures =
      J.with_member
        (J.with_member J.empty_object (codes "failedCount") (J.of_int (pos t.failed_count)))
        (codes "failedGroups") (J.of_text t.failed_sections) in
    let pendings =
      J.with_member (J.with_member failures (codes "pendingCount") (J.of_int (pos t.pending_count)))
        (codes "pendingGroups") (J.of_text t.pending_sections) in
    J.with_member
      (J.with_member pendings (codes "deployments") (J.of_text (join_names s.deployments [])))
      (codes "time") (J.of_text now)
