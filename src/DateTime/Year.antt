-- ===== src/DateTime/Year.antt =====
-- The day of the year, moving by months, and what the test for valid dates lets through.
use libgimbal.Common.{
  ℕ, zero, suc, ◌+◌, ◌-◌, ◌*◌, ◌≤◌, ◌<◌, ◌≡◌, refl, true, false, arith, min, get_elem?, none, List,
  [], ◌∷◌, length, Bool, ltb, leb, ◌/◌, ◌%◌, ◌^◌, ◌==◌, if◌then◌else◌,
}
use libgimbal.Memory.{ok, fault}
use libgimbal.DateTime.{Date, is_leap_year, month_days, is_valid, year_day, add_months, days_before}
use libgimbal.DateTime.Julian.{
  leap, days_of, is_leap_year-leap, month_days-days_of, is_valid_parts, gregorian,
}

-- The day of the year is counted from the first of January.
year_day_lem :
    (y m d : ℕ)
    → 1582 < y
    → 1 ≤ m
    → m ≤ 12
    → d ≤ 31
    → year_day (record { year = y; month = m; day = d })
      ≡ ok (gregorian y m d + 1 - gregorian y 1 1)
unfolding year_day is_leap_year
year_day_lem y zero d l h k v = absurd (omega arith)
year_day_lem y (suc zero) d l h k v = ground arith
year_day_lem y (suc (suc zero)) d l h k v = ground arith
year_day_lem y (suc (suc (suc zero))) d l h k v = ground arith
year_day_lem y (suc (suc (suc (suc zero)))) d l h k v = ground arith
year_day_lem y (suc (suc (suc (suc (suc zero))))) d l h k v = ground arith
year_day_lem y (suc (suc (suc (suc (suc (suc zero)))))) d l h k v = ground arith
year_day_lem y (suc (suc (suc (suc (suc (suc (suc zero))))))) d l h k v = ground arith
year_day_lem y (suc (suc (suc (suc (suc (suc (suc (suc zero)))))))) d l h k v = ground arith
year_day_lem y (suc (suc (suc (suc (suc (suc (suc (suc (suc zero))))))))) d l h k v = ground arith
year_day_lem y (suc (suc (suc (suc (suc (suc (suc (suc (suc (suc zero)))))))))) d l h k v =
    ground arith
year_day_lem y (suc (suc (suc (suc (suc (suc (suc (suc (suc (suc (suc zero))))))))))) d l h k v =
    ground arith
year_day_lem y (suc (suc (suc (suc (suc (suc (suc (suc (suc (suc (suc (suc zero)))))))))))) d l h k
      v =
    ground arith
year_day_lem y (suc (suc (suc (suc (suc (suc (suc (suc (suc (suc (suc (suc (suc m))))))))))))) d l h
      k v =
    absurd (omega arith)

days_of_bounds : (m y : ℕ) → 28 ≤ days_of m y
unfolding days_of
days_of_bounds m y = ground arith

late_days_of : (m y : ℕ) → 12 < m → 30 ≤ days_of m y
unfolding days_of
late_days_of m y h = ground arith

get_elem?-over : (xs : List ℕ) (i : ℕ) → length xs ≤ i → get_elem? xs i ≡ none
get_elem?-over [] i h = refl
get_elem?-over (x ∷ xs) zero h = absurd (omega arith)
get_elem?-over (x ∷ xs) (suc i) h = get_elem?-over xs i (omega arith)

length-days_before : (leap : Bool) → length (days_before leap) ≡ 13
length-days_before true = refl
length-days_before false = refl

is_valid_of :
    (d : Date)
    → 1582 < d.year
    → 1 ≤ d.month
    → 1 ≤ d.day
    → d.day ≤ days_of d.month d.year
    → is_valid d ≡ ok true
unfolding is_valid
is_valid_of d y h k l =
    let some_day : (d.day == 0) ≡ false = ground arith in
    let some_month : (d.month == 0) ≡ false = ground arith in
    let within : leb d.day (days_of d.month d.year) ≡ true = ground arith in
    rw (some_day, some_month, month_days-days_of d.month d.year y, within) refl

-- `GblDate_isValid` accepts a date after 1582 with a month above 12 and a day from 1 to 30, for which
-- `GblDate_yearDay` reads behind its table.
pub is_valid_past :
    (d : Date)
    → 1582 < d.year
    → 12 < d.month
    → 1 ≤ d.day
    → d.day ≤ 30
    → (is_valid d ≡ ok true) × (year_day d ≡ fault)
unfolding year_day
is_valid_past d y h k l =
    let past =
      get_elem?-over (days_before (leap d.year)) d.month
        (omega (arith, length-days_before (leap d.year))) in
    (
      is_valid_of d y (omega arith) k (omega (arith, late_days_of d.month d.year h)),
      ground (arith, is_leap_year-leap d.year y, past),
    )

-- `GblDateTime_addMonths` of a number of months that is not negative to a valid date after 1582
-- whose month is one of the 12, where the year with the whole years of the months and one more is
-- below 2 ^ 31, gives a valid date whose month is one of the 12, so many months later, and on the
-- same day or, where the month is shorter, on its last.
pub add_months-is_valid :
    (d : Date) (months : ℕ)
    → is_valid d ≡ ok true
    → d.month ≤ 12
    → 1582 < d.year
    → d.year + months / 12 + 1 < 2 ^ 31
    → (r : Date) × (days : ℕ) × (add_months d months ≡ ok r)
      × (is_valid r ≡ ok true)
      × (r.month ≤ 12)
      × (12 * r.year + r.month ≡ 12 * d.year + d.month + months)
      × (month_days r.month r.year ≡ ok days)
      × (r.day ≡ min d.day days)
unfolding add_months
add_months-is_valid d months h k l f =
    let (some_month, some_day, fits) = is_valid_parts d l h in
    let over = ltb 12 (d.month + months % 12) in
    let year = (if over then d.year + months / 12 + 1 else d.year + months / 12) in
    let month = (if over then d.month + months % 12 - 12 else d.month + months % 12) in
    let days = days_of month year in
    let r : Date = record { year = year; month = month; day = min d.day days } in
    let long = days_of_bounds month year in
    let late : 1582 < year = ground arith in
    let one : 1 ≤ month = ground arith in
    let small : ltb year (2 ^ 31) ≡ true = ground arith in
    let length_of = month_days-days_of month year late in
    (
      r,
      days,
      rw (small, length_of) refl,
      is_valid_of r late one (omega arith) (omega arith),
      ground arith,
      ground arith,
      length_of,
      refl,
    )
