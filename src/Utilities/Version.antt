-- ===== src/Utilities/Version.antt =====
-- code/Utilities/Version.cpp.
pub mod Comparison
mod Examples
use azure_client_tools.Base.{
  ◌++◌, Bool, true, false, List, [], ◌∷◌, Text, codes, length, ltb, ◌==◌, if◌then◌else◌, ℤ, pos,
  negsuc, Result, ok, err, ◌>>=◌,
}
use azure_client_tools.Reporting.{Exception, dm, std}
use azure_client_tools.Utilities.Strings.{split_string, stoi}

pub record Version : Type 0 where
  pub major : ℤ
  pub minor : ℤ
  pub patch : ℤ

-- `last_error` is what GetLastError answers.
abbrev pub version_error : ℤ → Text → Exception
version_error last_error message =
    dm (record { subsystem = codes "DeviceAgentPlugin"; code = last_error; message = message })

-- What the `catch` clause makes of an exception of stoi: both kinds are `std::exception`s.
unfoldable pub rethrown {ℓ} : {A : Type ℓ} → ℤ → Result Exception A → Result Exception A
rethrown last_error (ok a) = ok a
rethrown last_error (err (std what)) =
    err (version_error last_error (codes "Version format is incorrect. Error: " ++ what))
rethrown last_error (err (dm e)) =
    err (version_error last_error (codes "Version format is incorrect. Error: " ++ e.message))

unfoldable pub read_version : Text → Text → Text → Result Exception Version
read_version a b c = do
  major ← stoi a
  minor ← stoi b
  patch ← stoi c
  ok (record { major = major; minor = minor; patch = patch })

unfoldable pub version_of_parts : ℤ → List Text → Result Exception Version
unfolding rethrown read_version
version_of_parts last_error (a ∷ b ∷ c ∷ []) = rethrown last_error (read_version a b c)
version_of_parts last_error _ = err (version_error last_error (codes "Version format is incorrect"))

-- VersionFormatCheck.
unfoldable pub version_format_check : ℤ → Text → Result Exception Version
unfolding version_of_parts
version_format_check last_error version =
    if length version == 0
    then err (version_error last_error (codes "Version not found"))
    else version_of_parts last_error (split_string b'.' version)

-- `<` of two numbers of an `int`.
abbrev pub less : ℤ → ℤ → Bool
less (pos m) (pos n) = ltb m n
less (pos m) (negsuc n) = false
less (negsuc m) (pos n) = true
less (negsuc m) (negsuc n) = ltb n m

unfoldable pub compare_majors : Version → Version → ℤ
compare_majors v w =
    if less w.major v.major then pos 1 else if less v.major w.major then negsuc 0 else pos 0

-- MajorVersionCompare.
unfoldable pub major_version_compare : ℤ → Text → Text → Result Exception ℤ
unfolding version_format_check compare_majors
major_version_compare last_error v w = do
  x ← version_format_check last_error v
  y ← version_format_check last_error w
  ok (compare_majors x y)
