-- ===== src/Reporting/Summary/Counts.antt =====
-- What the summary of ReportedSummary says of the sections.
use azure_client_tools.Base.{
  ◌+◌, ◌≡◌, List, [], ◌∷◌, Text, text_eq, Map, length, arith, ok, if◌then◌else◌, lookup-insert,
}
use azure_client_tools.Reporting.{DeploymentStatus, pending, failed}
use azure_client_tools.Reporting.Summary.{
  Tally, join_names, ReportedSummary, get_section_status, set_section_status,
}

-- The names of the sections in a state, in the order of the map.
unfoldable pub names_failed : Map DeploymentStatus → List Text
names_failed [] = []
names_failed ((name, failed) ∷ m) = name ∷ names_failed m
names_failed ((name, _) ∷ m) = names_failed m

unfoldable pub names_pending : Map DeploymentStatus → List Text
names_pending [] = []
names_pending ((name, pending) ∷ m) = name ∷ names_pending m
names_pending ((name, _) ∷ m) = names_pending m

-- A tally that the sections of a map are added to.
pub record Adds (m : Map DeploymentStatus) (t u : Tally) : Type 0 where
  pub failed_count : u.failed_count ≡ t.failed_count + length (names_failed m)
  pub failed_sections : u.failed_sections ≡ join_names (names_failed m) t.failed_sections
  pub pending_count : u.pending_count ≡ t.pending_count + length (names_pending m)
  pub pending_sections : u.pending_sections ≡ join_names (names_pending m) t.pending_sections

-- A section's status reads back as it was set; the other sections keep theirs, also those that were
-- never set and are refused.
pub get-set_section_status :
    (j id : Text) (status : DeploymentStatus) (s : ReportedSummary)
    → get_section_status j (set_section_status id status s)
      ≡ (if text_eq j id then ok status else get_section_status j s)
unfolding get_section_status set_section_status
get-set_section_status j id status s = ground (arith, lookup-insert j id status s.sections)
