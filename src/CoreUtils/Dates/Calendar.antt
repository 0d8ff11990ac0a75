-- ===== src/CoreUtils/Dates/Calendar.antt =====
-- The days of an era of 400 years and their dates.
use vpoiskaxroditeley.Prelude.{
  ℕ, ◌+◌, ◌*◌, ◌/◌, ◌%◌, ◌≤◌, ◌<◌, ◌≡◌, refl, subst, Bool, true, ◌&&◌, ◌==◌, leb, ltb, passes,
  passes_sound, arith,
}
use vpoiskaxroditeley.CoreUtils.Dates.{day_of_era, civil_of_era}

-- One day: its date has a year of the era, a month and a day of a month, and is that day's.
abbrev is_dated : ℕ → Bool
unfolding civil_of_era day_of_era
is_dated doe =
    let (yoe, m, d) = civil_of_era doe in
    day_of_era yoe m d == doe && (ltb yoe 400 && (leb 1 m && (leb m 12 && (leb 1 d && leb d 31))))

-- All the days of the era, in 773 rows of 189.
dated_table : passes (λ a. passes (λ b. is_dated (a * 189 + b)) 189) 773 ≡ true
unfolding passes civil_of_era day_of_era
dated_table = refl

dated : (doe : ℕ) → doe < 146_097 → is_dated doe ≡ true
dated doe h =
    let row =
      passes_sound (λ a. passes (λ b. is_dated (a * 189 + b)) 189) 773 dated_table (doe / 189)
        (omega arith) in
    let found =
      passes_sound (λ b. is_dated (doe / 189 * 189 + b)) 189 row (doe % 189) (omega arith) in
    let whole : doe / 189 * 189 + doe % 189 ≡ doe = omega arith in
    subst (λ t. is_dated t ≡ true) whole found

checks :
    (doe yoe m d day : ℕ)
    → (day == doe && (ltb yoe 400 && (leb 1 m && (leb m 12 && (leb 1 d && leb d 31))))) ≡ true
    → (day ≡ doe) × (yoe < 400) × (1 ≤ m) × (m ≤ 12) × (1 ≤ d) × (d ≤ 31)
checks doe yoe m d day h = ground arith

-- Of each day of the 400 years the conversion makes a year from 0 to 399, a month from 1 to 12 and a
-- day from 1 to 31, and the conversion back makes that day of them.
pub day_of_era-civil_of_era :
    (doe : ℕ)
    → doe < 146_097
    → (day_of_era (civil_of_era doe).0 (civil_of_era doe).1 (civil_of_era doe).2 ≡ doe)
      × ((civil_of_era doe).0 < 400)
      × (1 ≤ (civil_of_era doe).1)
      × ((civil_of_era doe).1 ≤ 12)
      × (1 ≤ (civil_of_era doe).2)
      × ((civil_of_era doe).2 ≤ 31)
unfolding day_of_era is_dated
day_of_era-civil_of_era doe h =
    checks doe (civil_of_era doe).0 (civil_of_era doe).1 (civil_of_era doe).2
      (day_of_era (civil_of_era doe).0 (civil_of_era doe).1 (civil_of_era doe).2) (dated doe h)
