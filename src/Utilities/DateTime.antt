-- ===== src/Utilities/DateTime.antt =====
-- code/Utilities/DateTime.cpp: dates and times as texts.
mod RoundTrip
mod Examples
use azure_client_tools.Base.{
  ℕ, zero, suc, ◌+◌, ◌-◌, ◌*◌, ◌/◌, ◌%◌, ◌^◌, Bool, true, false, not, ◌||◌, List, [], ◌∷◌, ◌++◌,
  Text, codes, length, ltb, ◌==◌, if◌then◌else◌, ℤ, pos, negsuc, Result, ok, err, ◌>>=◌,
}
use azure_client_tools.Reporting.{Exception, dm}
use azure_client_tools.Utilities.Strings.{split_string, padded, stoi}

pub data TimeKind : Type 0 where
  local_time utc_time : TimeKind

-- ISO8601DateTime; the fields are of 16 bits.
pub record IsoDateTime : Type 0 where
  pub year : ℕ
  pub month : ℕ
  pub day : ℕ
  pub hour : ℕ
  pub minute : ℕ
  pub second : ℕ
  pub milliseconds : ℕ
  pub zone_hour : ℤ
  pub zone_minute : ℕ
  pub time_kind : TimeKind

-- SYSTEMTIME.
pub record SystemTime : Type 0 where
  pub year : ℕ
  pub month : ℕ
  pub day_of_week : ℕ
  pub day : ℕ
  pub hour : ℕ
  pub minute : ℕ
  pub second : ℕ
  pub milliseconds : ℕ

-- The six numbers with separators; the year is at least as wide as given.
unfoldable pub date_time_text : ℕ → ℕ → ℕ → ℕ → ℕ → ℕ → ℕ → Text
date_time_text width year month day hour minute second =
    padded width year
    ++ (b'-'
        ∷ (padded 2 month
            ++ (b'-'
                ∷ (padded 2 day
                    ++ (b'T'
                        ∷ (padded 2 hour
                            ++ (b':' ∷ (padded 2 minute ++ (b':' ∷ padded 2 second)))))))))

unfoldable pub get_date_time_string : ℕ → ℕ → ℕ → ℕ → ℕ → ℕ → Text
unfolding date_time_text
get_date_time_string = date_time_text 2

unfoldable pub iso8601_from_system_time : SystemTime → Text
unfolding date_time_text
iso8601_from_system_time t = date_time_text 4 t.year t.month t.day t.hour t.minute t.second

abbrev format_error : Text → Exception
format_error message =
    dm (record { subsystem = codes "DeviceAgent"; code = pos 1006; message = message })

abbrev pub invalid_format : Exception
invalid_format = format_error (codes "Error: invalid date/time format.")

abbrev pub invalid_date : Exception
invalid_date =
    format_error (codes "Error: invalid date/time format. Date must be in the form YYYY-MM-DD.")

abbrev pub invalid_time : Exception
invalid_time =
    format_error (codes "Error: invalid date/time format. Time must be in the form hh:mm:ss.")

abbrev pub invalid_offset : Exception
invalid_offset =
    format_error
      (codes "Error: invalid date/time format. Time offset information must be in the form hh:mm.")

-- The casts of an `int` to WORD and to short.
abbrev pub to_word : ℤ → ℕ
to_word (pos n) = n % 2 ^ 16
to_word (negsuc n) = 2 ^ 16 - 1 - n % 2 ^ 16

abbrev pub to_short : ℤ → ℤ
to_short n = let w = to_word n in if ltb w (2 ^ 15) then pos w else negsuc (2 ^ 16 - 1 - w)

abbrev pub opposite : ℤ → ℤ
opposite (pos zero) = pos zero
opposite (pos (suc n)) = negsuc n
opposite (negsuc n) = pos (suc n)

-- stoi and the cast to WORD.
abbrev pub read_word : Text → Result Exception ℕ
read_word s = stoi s >>= λ n. ok (to_word n)

-- Lists of a size that the code asks for.
abbrev pub two_of : Exception → List Text → Result Exception (Text × Text)
two_of e (a ∷ b ∷ []) = ok (a, b)
two_of e _ = err e

abbrev pub three_of : Exception → List Text → Result Exception (Text × Text × Text)
three_of e (a ∷ b ∷ c ∷ []) = ok (a, b, c)
three_of e _ = err e

-- zoneChar and zoneString.
pub data Zone : Type 0 where
  no_zone utc : Zone
  behind ahead : Text → Zone

unfoldable pub ends_with_z : Text → Bool
ends_with_z [] = false
ends_with_z (c ∷ []) = (c == b'Z') || (c == b'z')
ends_with_z (c ∷ d ∷ s) = ends_with_z (d ∷ s)

unfoldable pub without_last : Text → Text
without_last [] = []
without_last (c ∷ []) = []
without_last (c ∷ d ∷ s) = c ∷ without_last (d ∷ s)

-- A `Z` at the end is looked for when there is no sign.
unfoldable pub unsigned_zone : Text → List Text → Text × Zone
unfolding ends_with_z without_last
unsigned_zone time (a ∷ b ∷ []) = (a, ahead b)
unsigned_zone time _ = if ends_with_z time then (without_last time, utc) else (time, no_zone)

unfoldable pub signed_zone : Text → List Text → Text × Zone
unfolding unsigned_zone
signed_zone time (a ∷ b ∷ []) = (a, behind b)
signed_zone time _ = unsigned_zone time (split_string b'+' time)

-- The time without its zone, and the zone.
unfoldable pub split_zone : Text → Text × Zone
unfolding signed_zone
split_zone time = signed_zone time (split_string b'-' time)

unfoldable pub read_offset : (ℤ → ℤ) → Text → Result Exception (ℤ × ℕ × TimeKind)
read_offset sign s = two_of invalid_offset (split_string b':' s) >>= λ parts.
    stoi (parts.0) >>= λ hour.
    read_word (parts.1) >>= λ minute. ok (to_short (sign (to_short hour)), minute, utc_time)

unfoldable pub read_zone : Zone → Result Exception (ℤ × ℕ × TimeKind)
unfolding read_offset
read_zone no_zone = ok (pos 0, 0, local_time)
read_zone utc = ok (pos 0, 0, utc_time)
read_zone (behind s) = read_offset opposite s
read_zone (ahead s) = read_offset (λ n. n) s

unfoldable pub read_time : ℕ → ℕ → ℕ → Text × Zone → Result Exception IsoDateTime
unfolding read_zone
read_time year month day (time, zone) = three_of invalid_time (split_string b':' time) >>= λ parts.
    read_word (parts.0) >>= λ hour. read_word (parts.1) >>= λ minute.
    read_word (parts.2) >>= λ second. read_zone zone >>= λ offset. ok (record {
      year = year;
      month = month;
      day = day;
      hour = hour;
      minute = minute;
      second = second;
      milliseconds = 0;
      zone_hour = offset.0;
      zone_minute = offset.1;
      time_kind = offset.2;
    })

-- ISO8601DateTimeFromString.
unfoldable pub iso8601_from_string : Text → Result Exception IsoDateTime
unfolding read_time split_zone
iso8601_from_string s = two_of invalid_format (split_string b'T' s) >>= λ tokens.
    three_of invalid_date (split_string b'-' (tokens.0)) >>= λ date. read_word (date.0) >>= λ year.
    read_word (date.1) >>= λ month.
    read_word (date.2) >>= λ day. read_time year month day (split_zone (tokens.1))

unfoldable pub invalid_time_kind : Exception
invalid_time_kind = dm (record {
  subsystem = codes "DeviceAgent";
  code = pos 1007;
  message = codes "Error: Only local time is allowed. Cannot specify time zone offset.";
})

unfoldable pub local_system_time : IsoDateTime → Result Exception SystemTime
local_system_time t = elim t.time_kind [
  | utc_time ↦ err invalid_time_kind
  | local_time ↦ ok (record {
    year = t.year;
    month = t.month;
    day_of_week = 0;
    day = t.day;
    hour = t.hour;
    minute = t.minute;
    second = t.second;
    milliseconds = t.milliseconds;
  })
]

unfoldable pub system_time_from_iso8601 : Text → Result Exception SystemTime
unfolding local_system_time
system_time_from_iso8601 s = iso8601_from_string s >>= local_system_time
