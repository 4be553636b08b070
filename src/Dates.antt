-- ===== src/Dates.antt =====
-- `Date` as milliseconds since 1970 began, in UTC: `toISOString()` and `setMinutes(0, 0, 0)`.
use absolo_cloud_services.Base.{
  ℕ, ◌+◌, ◌-◌, ◌*◌, ◌/◌, ◌%◌, String, ◌⧺◌, ◌≡◌, refl, leb, ltb, if◌then◌else◌,
}
use absolo_cloud_services.Texts.{decimal}

pad2 : ℕ → String
unfolding decimal
pad2 n = if leb n 9 then "0" ⧺ decimal n else decimal n

pad3 : ℕ → String
unfolding pad2
pad3 n = if leb n 99 then "0" ⧺ pad2 n else decimal n

-- The day of the era of 400 years that begins on a first of March, its year of the era, the day
-- of that year and its month from March on.
year_of_era : ℕ → ℕ
year_of_era doe = (doe - doe / 1460 + doe / 36524 - doe / 146096) / 365

day_of_year : ℕ → ℕ
unfolding year_of_era
day_of_year doe = doe - (365 * year_of_era doe + year_of_era doe / 4 - year_of_era doe / 100)

month_from_march : ℕ → ℕ
unfolding day_of_year
month_from_march doe = (5 * day_of_year doe + 2) / 153

-- From the number of days since the first of March of the year 0.
date_text : ℕ → String
unfolding pad2 day_of_year month_from_march year_of_era
date_text z =
    let doe = z % 146097 in
    let mp = month_from_march doe in
    let d = day_of_year doe - (153 * mp + 2) / 5 + 1 in
    let m = if ltb mp 10 then mp + 3 else mp - 9 in
    let y = year_of_era doe + z / 146097 * 400 + (if leb m 2 then 1 else 0) in
    decimal y ⧺ "-" ⧺ pad2 m ⧺ "-" ⧺ pad2 d

-- For the years from 1970 to 9999.
unfoldable pub to_iso_string : ℕ → String
unfolding date_text pad2 pad3
to_iso_string ms =
    date_text (ms / 86400000 + 719468)
    ⧺ "T"
    ⧺ pad2 (ms / 3600000 % 24)
    ⧺ ":"
    ⧺ pad2 (ms / 60000 % 60)
    ⧺ ":"
    ⧺ pad2 (ms / 1000 % 60)
    ⧺ "."
    ⧺ pad3 (ms % 1000)
    ⧺ "Z"

abbrev pub start_of_hour : ℕ → ℕ
start_of_hour ms = ms - ms % 3600000

leap_day : to_iso_string 1709208000007 ≡ "2024-02-29T12:00:00.007Z"
unfolding to_iso_string
leap_day = refl
