-- ===== src/DateTime/Tests.antt =====
-- The theorems on dates at concrete dates.
use libgimbal.Memory.{ok}
use libgimbal.Common.{ℕ, ◌+◌, ◌*◌, ◌%◌, ◌≤◌, ◌≡◌, refl, true, arith, min}
use libgimbal.DateTime.{Date, is_leap_year, month_days, is_valid, to_julian, week_day, add_months}
use libgimbal.DateTime.Julian.{next_day, to_julian-next_day, week_day-to_julian}
use libgimbal.DateTime.Year.{add_months-is_valid}

-- The last day of February in a leap year.
abbrev leap_day : Date
leap_day = record { year = 2024; month = 2; day = 29 }

leap_day_valid : is_valid leap_day ≡ ok true
unfolding is_valid month_days is_leap_year
leap_day_valid = refl

to_julian-next_day_example :
    (n : ℕ) × (to_julian leap_day ≡ ok n) × (to_julian (next_day leap_day) ≡ ok (n + 1))
to_julian-next_day_example =
    to_julian-next_day leap_day leap_day_valid (omega arith) (omega arith) (omega arith)

week_day-to_julian_example :
    (n : ℕ) × (to_julian leap_day ≡ ok n) × (week_day leap_day ≡ ok ((n + 1) % 7))
week_day-to_julian_example =
    week_day-to_julian leap_day (omega arith) (omega arith) (omega arith) (omega arith)
      (omega arith)

add_months-is_valid_example :
    (r : Date) × (days : ℕ) × (add_months leap_day 12 ≡ ok r)
    × (is_valid r ≡ ok true)
    × (r.month ≤ 12)
    × (12 * r.year + r.month ≡ 12 * 2024 + 2 + 12)
    × (month_days r.month r.year ≡ ok days)
    × (r.day ≡ min 29 days)
add_months-is_valid_example =
    add_months-is_valid leap_day 12 leap_day_valid (omega arith) (omega arith) (omega arith)
