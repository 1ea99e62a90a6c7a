-- ===== src/Utilities/DateTime/RoundTrip.antt =====
-- A date and a time that were written are read back.
use azure_client_tools.Base.{
  ℕ, ◌<◌, ◌^◌, ◌≡◌, refl, sym, ap, ◌∙◌, false, [], ◌∷◌, ◌++◌, append_assoc, Text, arith, pos, ok,
  ◌>>=◌,
}
use azure_client_tools.Utilities.Strings.Numerals.{stoi-padded}
use azure_client_tools.Utilities.Strings.Pieces.{
  Avoids, split_string-delimiter, split_string_last, numbers, split_string-numbers, numbers-Avoids,
  length-numbers,
}
use azure_client_tools.Utilities.DateTime.{
  read_word, to_word, ends_with_z, IsoDateTime, SystemTime, local_time, date_time_text,
  get_date_time_string, iso8601_from_system_time, no_zone, unsigned_zone, signed_zone, split_zone,
  read_zone, read_time, iso8601_from_string, local_system_time, system_time_from_iso8601,
}
use azure_client_tools.Utilities.Strings.{padded, split_string}

-- A number of 16 bits is read back, whatever its width.
read_word-padded : (w n : ℕ) → n < 2 ^ 16 → read_word (padded w n) ≡ ok n
read_word-padded w n h =
    ap (λ o. o >>= λ k. ok (to_word k)) (stoi-padded w n (omega arith)) ∙ ap ok (omega arith)

ends_with_z_lem : (s : Text) → Avoids b'Z' s → Avoids b'z' s → ends_with_z s ≡ false
unfolding ends_with_z
ends_with_z_lem [] a b = refl
ends_with_z_lem (c ∷ []) a b = rw (a.0, b.0) refl
ends_with_z_lem (c ∷ d ∷ s) a b = ends_with_z_lem (d ∷ s) (a.1) (b.1)

split_zone-numbers :
    (h m s : ℕ) → split_zone (numbers b':' 2 2 h m s) ≡ (numbers b':' 2 2 h m s, no_zone)
unfolding split_zone signed_zone unsigned_zone
split_zone-numbers h m s =
    let t = numbers b':' 2 2 h m s in
    let long = length-numbers b':' 2 2 h m s in
    rw
      (
        split_string_last b'-' t (numbers-Avoids b'-' b':' 2 2 h m s refl refl) long,
        split_string_last b'+' t (numbers-Avoids b'+' b':' 2 2 h m s refl refl) long,
        ends_with_z_lem t (numbers-Avoids b'Z' b':' 2 2 h m s refl refl)
            (numbers-Avoids b'z' b':' 2 2 h m s refl refl),
        split_zone,
        signed_zone,
        unsigned_zone,
      )
      refl

-- What is read of six numbers.
abbrev pub local_date_time : ℕ → ℕ → ℕ → ℕ → ℕ → ℕ → IsoDateTime
local_date_time year month day hour minute second = record {
  year = year;
  month = month;
  day = day;
  hour = hour;
  minute = minute;
  second = second;
  milliseconds = 0;
  zone_hour = pos 0;
  zone_minute = 0;
  time_kind = local_time;
}

-- Each is a number of 16 bits.
abbrev pub AreWords : ℕ → ℕ → ℕ → Type 0
AreWords a b c = (a < 2 ^ 16) × (b < 2 ^ 16) × (c < 2 ^ 16)

read_time-numbers :
    (y mo d h m s : ℕ)
    → AreWords h m s
    → read_time y mo d (numbers b':' 2 2 h m s, no_zone) ≡ ok (local_date_time y mo d h m s)
unfolding read_time read_zone
read_time-numbers y mo d h m s (a, b, c) =
    rw
      (
        split_string-numbers b':' 2 2 h m s refl,
        read_word-padded 2 h a,
        read_word-padded 2 m b,
        read_word-padded 2 s c,
        read_time,
      )
      refl

date_time_text-numbers :
    (w y mo d h m s : ℕ)
    → date_time_text w y mo d h m s ≡ numbers b'-' w 2 y mo d ++ (b'T' ∷ numbers b':' 2 2 h m s)
unfolding date_time_text
date_time_text-numbers w y mo d h m s =
    let t = b'T' ∷ numbers b':' 2 2 h m s in
    ap (λ r. padded w y ++ (b'-' ∷ r)) (sym (append_assoc (padded 2 mo) (b'-' ∷ padded 2 d) t))
    ∙ sym (append_assoc (padded w y) (b'-' ∷ (padded 2 mo ++ (b'-' ∷ padded 2 d))) t)

pub iso8601_from_string-date_time_text :
    (w y mo d h m s : ℕ)
    → AreWords y mo d
    → AreWords h m s
    → iso8601_from_string (date_time_text w y mo d h m s) ≡ ok (local_date_time y mo d h m s)
unfolding iso8601_from_string
iso8601_from_string-date_time_text w y mo d h m s (a, b, c) time =
    let t = numbers b':' 2 2 h m s in
    let tokens : split_string b'T' (date_time_text w y mo d h m s)
        ≡ numbers b'-' w 2 y mo d ∷ t ∷ [] =
      ap (split_string b'T') (date_time_text-numbers w y mo d h m s)
      ∙ split_string-delimiter b'T' (numbers b'-' w 2 y mo d) t
          (numbers-Avoids b'T' b'-' w 2 y mo d refl refl)
      ∙ ap (λ r. numbers b'-' w 2 y mo d ∷ r)
          (split_string_last b'T' t (numbers-Avoids b'T' b':' 2 2 h m s refl refl)
            (length-numbers b':' 2 2 h m s)) in
    rw
      (
        tokens,
        split_string-numbers b'-' w 2 y mo d refl,
        read_word-padded w y a,
        read_word-padded 2 mo b,
        read_word-padded 2 d c,
        split_zone-numbers h m s,
        iso8601_from_string,
      )
      (read_time-numbers y mo d h m s time)

-- A system time whose fields have 16 bits is read back from its ISO 8601 text, but for the milliseconds
-- and the day of the week, which are 0; so is the text of GetDateTimeString of such numbers, as a local
-- time.
pub system_time_from_iso8601-iso8601_from_system_time :
    (t : SystemTime)
    → AreWords t.year t.month t.day
    → AreWords t.hour t.minute t.second
    → (system_time_from_iso8601 (iso8601_from_system_time t)
        ≡ ok (record t { milliseconds = 0; day_of_week = 0 }))
      × (iso8601_from_string (get_date_time_string t.year t.month t.day t.hour t.minute t.second)
          ≡ ok (local_date_time t.year t.month t.day t.hour t.minute t.second))
unfolding system_time_from_iso8601 iso8601_from_system_time get_date_time_string local_system_time
system_time_from_iso8601-iso8601_from_system_time t date time = (
  ap (λ r. r >>= local_system_time)
      (iso8601_from_string-date_time_text 4 t.year t.month t.day t.hour t.minute t.second date
        time),
  iso8601_from_string-date_time_text 2 t.year t.month t.day t.hour t.minute t.second date time,
)
