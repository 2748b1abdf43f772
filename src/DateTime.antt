-- ===== src/DateTime.antt =====
-- lib/source/utils/gimbal_date_time.c: the calendar arithmetic.
--
-- The fields of a date are numbers of 32 bits that are not negative, with a month below 26. A number
-- that would reach 2 ^ 31 is a fault, as is an assertion that fails. Where a number is only added to,
-- and less is subtracted from it than was added, the largest of the sums is tested. The table of
-- GblDate_yearDay has 13 columns; a read past them is a fault.
pub mod Julian
pub mod Year
mod Tests
use Prim.Native.Nat.{bit_and}
use libgimbal.Common.{
  ℕ, zero, suc, ◌+◌, ◌-◌, ◌*◌, ◌/◌, ◌%◌, ◌^◌, min, Bool, true, false, ◌&&◌, ◌||◌, List, [], ◌∷◌,
  Option, some, none, ltb, leb, ◌==◌, if◌then◌else◌, get_elem?,
}
use libgimbal.Memory.{Run, ok, fault, ◌>>=◌}

pub record Date : Type 0 where
  pub year : ℕ
  pub month : ℕ
  pub day : ℕ

unfoldable pub is_leap_year : ℕ → Run Bool
is_leap_year year =
    let leap =
      if year % 4 == 0
      then (if year % 400 == 0 then true else if year % 100 == 0 then false else true)
      else false in
    if ltb 1582 year then ok leap else fault

unfoldable pub month_days : (month year : ℕ) → Run ℕ
month_days month year =
    let february = (do leap ← is_leap_year year; ok (if leap then 29 else 28)) in
    if month == 2
    then february
    else if ltb 7 month
    then ok (if bit_and month 1 == 0 then 31 else 30)
    else ok (if bit_and month 1 == 0 then 30 else 31)

-- The test for a month above 12 has no effect.
pub is_valid : Date → Run Bool
is_valid d =
    let in_month = (do days ← month_days d.month d.year; ok (leb d.day days)) in
    if d.day == 0 then ok false else if d.month == 0 then ok false else in_month

pub to_julian : Date → Run ℕ
to_julian d =
    let a = (14 - d.month) / 12 in
    let y = d.year + 4800 - a in
    let m = d.month + 12 * a - 3 in
    let sum = d.day + (153 * m + 2) / 5 + 365 * y + y / 4 in
    let jdn =
      if ltb 1582 d.year
        || (d.year == 1582 && ltb 10 d.month || d.year == 1582 && (d.month == 10) && ltb d.day 15)
      then sum - y / 100 + y / 400 - 32045
      else sum - 32045 in
    if ltb (153 * m + 2) (2 ^ 31) && ltb sum (2 ^ 31) then ok jdn else fault

-- In January and February `d` has the year added, and `y` is the year before.
pub week_day : Date → Run ℕ
week_day d =
    let early = ltb d.month 3 in
    let days = if early then d.day + d.year else d.day + d.year - 2 in
    let y = if early then d.year - 1 else d.year in
    let sum = 23 * d.month / 9 + days + 4 + y / 4 in
    if ltb (23 * d.month) (2 ^ 31) && ltb sum (2 ^ 31)
    then ok ((sum - y / 100 + y / 400) % 7)
    else fault

abbrev pub days_before : Bool → List ℕ
days_before false = 0 ∷ 0 ∷ 31 ∷ 59 ∷ 90 ∷ 120 ∷ 151 ∷ 181 ∷ 212 ∷ 243 ∷ 273 ∷ 304 ∷ 334 ∷ []
days_before true = 0 ∷ 0 ∷ 31 ∷ 60 ∷ 91 ∷ 121 ∷ 152 ∷ 182 ∷ 213 ∷ 244 ∷ 274 ∷ 305 ∷ 335 ∷ []

pub year_day : Date → Run ℕ
year_day d = do
  leap ← is_leap_year d.year
  elim (get_elem? (days_before leap) d.month) [
    | some n ↦ if ltb (n + d.day) (2 ^ 31) then ok (n + d.day) else fault
    | none ↦ fault
  ]

pub year_week : Date → Run ℕ
year_week d = do n ← year_day d; ok (n / 7 % 2 ^ 8)

-- A number of months that is not negative.
pub add_months : Date → ℕ → Run Date
add_months d months =
    let year = d.year + months / 12 in
    let month = d.month + months % 12 in
    let over = ltb 12 month in
    let year = if over then year + 1 else year in
    let month = if over then month - 12 else month in
    let moved = (do
      days ← month_days month year
      ok (record { year = year; month = month; day = min d.day days })) in
    if ltb year (2 ^ 31) then moved else fault

pub from_julian : ℕ → Run Date
from_julian julian =
    let l = julian + 68569 in
    let fits = ltb (4 * l) (2 ^ 31) in
    let n = 4 * l / 146097 in
    let l = l - (146097 * n + 3) / 4 in
    let i = 4000 * (l + 1) / 1461001 in
    let l = l - 1461 * i / 4 + 31 in
    let j = 80 * l / 2447 in
    let k = l - 2447 * j / 80 in
    let l = j / 11 in
    let date : Date = record { year = 100 * (n - 49) + i + l; month = j + 2 - 12 * l; day = k } in
    if fits then ok date else fault
