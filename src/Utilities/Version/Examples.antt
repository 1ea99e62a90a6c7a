-- ===== src/Utilities/Version/Examples.antt =====
-- The property of the versions, applied to some.
use azure_client_tools.Base.{
  ◌≡◌, refl, ok, err, pos, negsuc, codes, arith, ltb, if◌then◌else◌, ◌≢◌, length,
}
use azure_client_tools.Utilities.Strings.{split_string}
use azure_client_tools.Utilities.Version.Comparison.{version_text, major_version_compare_lem}
use azure_client_tools.Utilities.Version.{major_version_compare, version_error}

two_parts : length (split_string b'.' (codes "1.2")) ≢ 3
unfolding split_string
two_parts h = omega arith

major_version_compare_lem_example :
    (major_version_compare (pos 0) (version_text 1 9 3) (version_text 2 0 10)
      ≡ ok (if ltb 2 1 then pos 1 else if ltb 1 2 then negsuc 0 else pos 0))
    × (major_version_compare (pos 0) (codes "1.2") (version_text 2 0 10)
        ≡ err (version_error (pos 0) (codes "Version format is incorrect")))
    × (major_version_compare (pos 0) (version_text 1 9 3) (codes "1.2")
        ≡ err (version_error (pos 0) (codes "Version format is incorrect")))
major_version_compare_lem_example =
    major_version_compare_lem (pos 0) 1 9 3 2 0 10 (codes "1.2")
      (omega arith, omega arith, omega arith) (omega arith, omega arith, omega arith) refl two_parts
