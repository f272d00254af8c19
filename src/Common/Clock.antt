-- ===== src/Common/Clock.antt =====
-- Points of time, in microseconds since the start of 1970, and their text in UTC.
use governed_mcp_server.Common.Tests.{ltb, leb, if◌then◌else◌}
use Prim.Native.Nat.{ℕ, ◌+◌, ◌-◌, ◌*◌, ◌/◌, ◌%◌}
use Prim.Native.String.{String}
use mathlib.Core.Path.{◌≡◌, refl}
use governed_mcp_server.Common.Text.{◌+++◌}
use governed_mcp_server.Common.Decimal.{padded, decimal}

-- one hour
abbrev pub hour : ℕ
hour = 3600000000

-- A day of the proleptic Gregorian calendar, from the number of days since the first of March of
-- the year 0.
record Day : Type 0 where
  year : ℕ
  month : ℕ
  day : ℕ

civil_in : (era day_of_era : ℕ) → Day
civil_in era day_of_era =
    let year_of_era =
      (day_of_era + day_of_era / 36524 - day_of_era / 1460 - day_of_era / 146096) / 365 in
    let day_of_year = day_of_era + year_of_era / 100 - (365 * year_of_era + year_of_era / 4) in
    let shifted = (5 * day_of_year + 2) / 153 in
    let month = if ltb shifted 10 then shifted + 3 else shifted - 9 in
    record {
      year = year_of_era + era * 400 + (if leb month 2 then 1 else 0);
      month = month;
      day = day_of_year - (153 * shifted + 2) / 5 + 1;
    }

civil : ℕ → Day
unfolding civil_in
civil days = let shifted = days + 719468 in civil_in (shifted / 146097) (shifted % 146097)

-- `f"{time:%Y-%m-%d %H:%M}"`
unfoldable pub minute_text : ℕ → String
unfolding civil padded decimal
minute_text time =
    let minutes = time / 60000000 in
    let date = civil (minutes / 1440) in
    decimal date.year
    +++ ("-"
        +++ (padded 2 date.month
            +++ ("-"
                +++ (padded 2 date.day
                    +++ (" "
                        +++ (padded 2 (minutes / 60 % 24)
                            +++ (":" +++ padded 2 (minutes % 60))))))))

minute_text_runs :
    (minute_text 1785541500000000 ≡ "2026-07-31 23:45")
    × (minute_text 1709164800000000 ≡ "2024-02-29 00:00")
    × (minute_text 0 ≡ "1970-01-01 00:00")
unfolding minute_text
minute_text_runs = (refl, refl, refl)
