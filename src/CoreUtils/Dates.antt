-- ===== src/CoreUtils/Dates.antt =====
-- crates/core-utils/src/math.rs: civil dates as days since 1970-01-01, and times in milliseconds.
-- i64 values are integers: the dates that the program meets stay far inside the 64 bits.
pub mod Calendar
use vpoiskaxroditeley.Prelude.{
  ℕ, ◌+◌, ◌-◌, ◌*◌, ◌/◌, ◌%◌, Bool, true, false, ◌&&◌, ◌||◌, not, ◌==◌, leb, ltb, if◌then◌else◌,
}
use vpoiskaxroditeley.Prelude.Int.{
  ℤ, pos, negsuc, pos_part, neg_part, neg, ◌+ℤ◌, ◌-ℤ◌, ◌*ℤ◌, trunc_div, is_nonneg,
}

-- the year within its era of 400, which is never negative
unfoldable pub era_of : ℤ → ℤ
unfolding trunc_div ◌-ℤ◌
era_of y = trunc_div (if is_nonneg y then y else y -ℤ pos 399) 400

unfoldable pub year_of_era : ℤ → ℕ
unfolding era_of ◌-ℤ◌ ◌*ℤ◌
year_of_era y = pos_part (y -ℤ era_of y *ℤ pos 400)

-- the day of an era of 400 years that begin in March
unfoldable pub day_of_era : ℕ → ℕ → ℕ → ℕ
day_of_era yoe m d =
    let mp = (m + 9) % 12 in
    let doy = (153 * mp + 2) / 5 + d - 1 in yoe * 365 + yoe / 4 - yoe / 100 + doy

unfoldable pub days_from_civil : ℤ → ℕ → ℕ → ℤ
unfolding era_of year_of_era day_of_era ◌+ℤ◌ ◌-ℤ◌ ◌*ℤ◌
days_from_civil y m d =
    let y2 = y -ℤ pos (if leb m 2 then 1 else 0) in
    era_of y2 *ℤ pos 146_097 +ℤ pos (day_of_era (year_of_era y2) m d) -ℤ pos 719_468

-- year of the era, month and day of a day of the era
unfoldable pub civil_of_era : ℕ → ℕ × ℕ × ℕ
civil_of_era doe =
    let yoe = (doe - doe / 1460 + doe / 36524 - doe / 146_096) / 365 in
    let doy = doe - (365 * yoe + yoe / 4 - yoe / 100) in
    let mp = (5 * doy + 2) / 153 in
    (yoe, if ltb mp 10 then mp + 3 else mp - 9, doy - (153 * mp + 2) / 5 + 1)

unfoldable pub civil_from_days : ℤ → ℤ × ℕ × ℕ
unfolding civil_of_era trunc_div ◌+ℤ◌ ◌-ℤ◌ ◌*ℤ◌
civil_from_days z0 =
    let z = z0 +ℤ pos 719_468 in
    let era = trunc_div (if is_nonneg z then z else z -ℤ pos 146_096) 146_097 in
    let doe = pos_part (z -ℤ era *ℤ pos 146_097) in
    let (yoe, m, d) = civil_of_era doe in
    (pos yoe +ℤ era *ℤ pos 400 +ℤ pos (if leb m 2 then 1 else 0), m, d)

unfoldable pub is_leap : ℕ → Bool
is_leap y = y % 4 == 0 && not (y % 100 == 0) || y % 400 == 0

unfoldable pub days_in_month : ℕ → ℕ → ℕ
unfolding is_leap
days_in_month y m =
    if m == 2
    then (if is_leap y then 1 else 0) + 28
    else if m == 4 || m == 6 || m == 9 || m == 11
    then 30
    else if ltb 0 m && ltb m 13
    then 31
    else 30

-- MS_DAY, MS_HOUR, MS_MIN and MS_SEC
abbrev pub ms_day : ℕ
ms_day = 86_400_000

abbrev pub ms_hour : ℕ
ms_hour = 3_600_000

abbrev pub ms_min : ℕ
ms_min = 60_000

abbrev pub ms_sec : ℕ
ms_sec = 1_000

unfoldable pub epoch_ms_from_civil : ℤ → ℕ → ℕ → ℕ → ℕ → ℕ → ℕ → ℤ
unfolding days_from_civil ◌+ℤ◌ ◌*ℤ◌
epoch_ms_from_civil y mo d h mi s ms =
    days_from_civil y mo d *ℤ pos ms_day +ℤ pos (h * ms_hour + mi * ms_min + s * ms_sec + ms)
