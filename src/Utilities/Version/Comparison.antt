-- ===== src/Utilities/Version/Comparison.antt =====
-- Versions that are written as three numbers, and texts that are no versions.
use azure_client_tools.Base.{
  ℕ, ◌<◌, ◌^◌, ◌≡◌, ◌≢◌, refl, false, List, [], ◌∷◌, Text, codes, length, ◌==◌, ltb, if◌then◌else◌,
  arith, ℤ, pos, negsuc, ok, err,
}
use azure_client_tools.Reporting.{Exception}
use azure_client_tools.Utilities.Strings.Numerals.{stoi-padded}
use azure_client_tools.Utilities.Strings.Pieces.{numbers, split_string-numbers, length-numbers}
use azure_client_tools.Utilities.Strings.{split_string}
use azure_client_tools.Utilities.Version.{
  version_error, rethrown, read_version, version_of_parts, version_format_check, compare_majors,
  major_version_compare,
}

-- The numbers with points between them.
abbrev pub version_text : ℕ → ℕ → ℕ → Text
version_text a b c = numbers b'.' 1 1 a b c

-- Each is a number that an `int` can hold.
abbrev pub AreInts : ℕ → ℕ → ℕ → Type 0
AreInts a b c = (a < 2 ^ 31) × (b < 2 ^ 31) × (c < 2 ^ 31)

version_format_check-version_text :
    (e : ℤ) (a b c : ℕ)
    → AreInts a b c
    → version_format_check e (version_text a b c)
      ≡ ok (record { major = pos a; minor = pos b; patch = pos c })
unfolding version_format_check version_of_parts read_version rethrown
version_format_check-version_text e a b c (x, y, z) =
    let some_text : (length (version_text a b c) == 0) ≡ false =
      ground (arith, length-numbers b'.' 1 1 a b c) in
    rw
      (
        some_text,
        split_string-numbers b'.' 1 1 a b c refl,
        stoi-padded 1 a x,
        stoi-padded 1 b y,
        stoi-padded 1 c z,
        version_format_check,
        version_of_parts,
        read_version,
      )
      refl

parts_refused :
    (e : ℤ) (parts : List Text)
    → length parts ≢ 3
    → version_of_parts e parts ≡ err (version_error e (codes "Version format is incorrect"))
unfolding version_of_parts
parts_refused e [] h = refl
parts_refused e (a ∷ []) h = refl
parts_refused e (a ∷ b ∷ []) h = refl
parts_refused e (a ∷ b ∷ c ∷ []) h = absurd (h refl)
parts_refused e (a ∷ b ∷ c ∷ d ∷ parts) h = refl

text_refused :
    (e : ℤ) (bad : Text)
    → (length bad == 0) ≡ false
    → length (split_string b'.' bad) ≢ 3
    → version_format_check e bad ≡ err (version_error e (codes "Version format is incorrect"))
unfolding version_format_check
text_refused e bad h k = rw (h, version_format_check) (parts_refused e (split_string b'.' bad) k)

-- Two versions whose numbers fit an `int` compare as their first numbers do: 1 if the first is larger,
-- -1 if the second is, else 0. A text that is not empty and that points do not split into three parts is
-- refused in either place, in the second one if the first is a version.
pub major_version_compare_lem :
    (e : ℤ) (a b c a' b' c' : ℕ) (bad : Text)
    → AreInts a b c
    → AreInts a' b' c'
    → (length bad == 0) ≡ false
    → length (split_string b'.' bad) ≢ 3
    → let refused : Exception = version_error e (codes "Version format is incorrect") in
      (major_version_compare e (version_text a b c) (version_text a' b' c')
        ≡ ok (if ltb a' a then pos 1 else if ltb a a' then negsuc 0 else pos 0))
      × (major_version_compare e bad (version_text a' b' c') ≡ err refused)
      × (major_version_compare e (version_text a b c) bad ≡ err refused)
unfolding major_version_compare compare_majors
major_version_compare_lem e a b c a' b' c' bad small small' some_text parts =
    let left = version_format_check-version_text e a b c small in
    let right = version_format_check-version_text e a' b' c' small' in
    let wrong = text_refused e bad some_text parts in
    (
      rw (left, right, major_version_compare) refl,
      rw (wrong, major_version_compare) refl,
      rw (left, wrong, major_version_compare) refl,
    )
