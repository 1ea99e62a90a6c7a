-- ===== src/Utilities/DateTime/Examples.antt =====
-- The properties of the dates, applied to one.
use azure_client_tools.Base.{◌≡◌, refl, ok, err, codes, arith}
use azure_client_tools.Utilities.DateTime.RoundTrip.{
  local_date_time, system_time_from_iso8601-iso8601_from_system_time,
}
use azure_client_tools.Utilities.DateTime.{
  SystemTime, get_date_time_string, iso8601_from_system_time, iso8601_from_string,
  system_time_from_iso8601, invalid_time_kind,
}
use azure_client_tools.Utilities.Strings.{padded, split_string, stoi}

abbrev some_time : SystemTime
some_time = record {
  year = 2019;
  month = 7;
  day_of_week = 3;
  day = 31;
  hour = 23;
  minute = 5;
  second = 9;
  milliseconds = 120;
}

written : iso8601_from_system_time some_time ≡ codes "2019-07-31T23:05:09"
unfolding iso8601_from_system_time padded
written = refl

with_offset_refused :
    system_time_from_iso8601 (codes "2019-07-31T23:05:09-08:30") ≡ err invalid_time_kind
unfolding system_time_from_iso8601 iso8601_from_string split_string stoi
with_offset_refused = refl

system_time_from_iso8601-iso8601_from_system_time_example :
    (system_time_from_iso8601 (iso8601_from_system_time some_time)
      ≡ ok (record some_time { milliseconds = 0; day_of_week = 0 }))
    × (iso8601_from_string (get_date_time_string 2019 7 31 23 5 9)
        ≡ ok (local_date_time 2019 7 31 23 5 9))
system_time_from_iso8601-iso8601_from_system_time_example =
    system_time_from_iso8601-iso8601_from_system_time some_time
      (omega arith, omega arith, omega arith) (omega arith, omega arith, omega arith)
