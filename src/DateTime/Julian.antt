-- ===== src/DateTime/Julian.antt =====
-- The number of a day, and its day of the week, count days.
use Prim.Native.Nat.{bit_and}
use libgimbal.Common.{
  ℕ, zero, suc, ◌+◌, ◌-◌, ◌*◌, ◌/◌, ◌%◌, ◌≤◌, ◌<◌, ◌≡◌, ◌⊎◌, inl, inr, refl, ap, ap₂, sym, ◌∙◌,
  Bool, Bool-cases, true, false, ltb, leb, ◌^◌, ◌==◌, if◌then◌else◌, arith,
}
use libgimbal.Memory.{ok}
use libgimbal.DateTime.{Date, is_leap_year, month_days, is_valid, to_julian, week_day}

-- The leap years of the Gregorian calendar, and the days of its months.
unfoldable pub leap : ℕ → Bool
leap year =
    if year % 4 == 0
    then (if year % 400 == 0 then true else if year % 100 == 0 then false else true)
    else false

unfoldable pub days_of : (month year : ℕ) → ℕ
days_of month year =
    if month == 2
    then (if leap year then 29 else 28)
    else if ltb 7 month
    then (if bit_and month 1 == 0 then 31 else 30)
    else (if bit_and month 1 == 0 then 30 else 31)

pub is_leap_year-leap : (y : ℕ) → 1582 < y → is_leap_year y ≡ ok (leap y)
unfolding is_leap_year leap
is_leap_year-leap y l = let late : ltb 1582 y ≡ true = ground arith in rw late refl

pub month_days-days_of : (m y : ℕ) → 1582 < y → month_days m y ≡ ok (days_of m y)
unfolding month_days days_of
month_days-days_of m y l = rw (is_leap_year-leap y l) (elim (Bool-cases (m == 2)) [
  | inl e ↦ rw e refl
  | inr e ↦ elim (Bool-cases (ltb 7 m)) [ inl f ↦ rw (e, f) refl | inr f ↦ rw (e, f) refl ]
])

-- The date of the day after.
unfoldable pub next_day : Date → Date
next_day d =
    if ltb d.day (days_of d.month d.year)
    then record d { day = d.day + 1 }
    else if d.month == 12
    then record { year = d.year + 1; month = 1; day = 1 }
    else record d { month = d.month + 1; day = 1 }

-- The number of a day after 1582.
abbrev pub gregorian : (year month day : ℕ) → ℕ
gregorian year month day =
    let a = (14 - month) / 12 in
    let y = year + 4800 - a in
    let m = month + 12 * a - 3 in
    day + (153 * m + 2) / 5 + 365 * y + y / 4 - y / 100 + y / 400 - 32045

pub to_julian-gregorian :
    (d : Date)
    → 1582 < d.year
    → d.year ≤ 5870000
    → d.month ≤ 12
    → d.day ≤ 31
    → to_julian d ≡ ok (gregorian d.year d.month d.day)
unfolding to_julian
to_julian-gregorian d l u k j =
    let a = (14 - d.month) / 12 in
    let few : a ≤ 1 = omega arith in
    let m = d.month + 12 * a - 3 in
    let y = d.year + 4800 - a in
    let late : ltb 1582 d.year ≡ true = ground arith in
    let small : ltb (153 * m + 2) (2 ^ 31) ≡ true = ground arith in
    let fits : ltb (d.day + (153 * m + 2) / 5 + 365 * y + y / 4) (2 ^ 31) ≡ true = ground arith in
    rw (late, small, fits) refl

gregorian-day :
    (year month day : ℕ)
    → 1582 < year
    → month ≤ 12
    → gregorian year month (day + 1) ≡ gregorian year month day + 1
gregorian-day year month day l k =
    let a = (14 - month) / 12 in let few : a ≤ 1 = omega arith in omega arith

leap_step : (y : ℕ) → 1582 < y → gregorian y 3 1 ≡ gregorian y 2 (if leap y then 29 else 28) + 1
unfolding leap
leap_step y l = ground arith

-- From the last day of a month to the first of the next.
month_step :
    (y m : ℕ) → 1582 < y → 1 ≤ m → m ≤ 11 → gregorian y (m + 1) 1 ≡ gregorian y m (days_of m y) + 1
unfolding days_of
month_step y zero l h k = absurd (omega arith)
month_step y (suc zero) l h k = ground arith
month_step y (suc (suc zero)) l h k = leap_step y l
month_step y (suc (suc (suc zero))) l h k = ground arith
month_step y (suc (suc (suc (suc zero)))) l h k = ground arith
month_step y (suc (suc (suc (suc (suc zero))))) l h k = ground arith
month_step y (suc (suc (suc (suc (suc (suc zero)))))) l h k = ground arith
month_step y (suc (suc (suc (suc (suc (suc (suc zero))))))) l h k = ground arith
month_step y (suc (suc (suc (suc (suc (suc (suc (suc zero)))))))) l h k = ground arith
month_step y (suc (suc (suc (suc (suc (suc (suc (suc (suc zero))))))))) l h k = ground arith
month_step y (suc (suc (suc (suc (suc (suc (suc (suc (suc (suc zero)))))))))) l h k = ground arith
month_step y (suc (suc (suc (suc (suc (suc (suc (suc (suc (suc (suc zero))))))))))) l h k =
    ground arith
month_step y (suc (suc (suc (suc (suc (suc (suc (suc (suc (suc (suc (suc m)))))))))))) l h k =
    absurd (omega arith)

year_step : (y : ℕ) → 1582 < y → gregorian (y + 1) 1 1 ≡ gregorian y 12 31 + 1
year_step y l = omega arith

pub is_valid_parts :
    (d : Date)
    → 1582 < d.year
    → is_valid d ≡ ok true
    → (1 ≤ d.month) × (1 ≤ d.day) × (d.day ≤ days_of d.month d.year)
unfolding is_valid
is_valid_parts d l h = elim (Bool-cases (d.day == 0)) [
  | inl e ↦ absurd (ground (arith, h))
  | inr e ↦ elim (Bool-cases (d.month == 0)) [
    | inl f ↦ absurd (ground (arith, h))
    | inr f ↦ elim (Bool-cases (leb d.day (days_of d.month d.year))) [
      | inl g ↦ (ground arith, ground arith, ground arith)
      | inr g ↦ absurd (ground (arith, month_days-days_of d.month d.year l))
    ]
  ]
]

pub days_of_upper : (m y : ℕ) → days_of m y ≤ 31
unfolding days_of
days_of_upper m y = ground arith

within_or_last : (a b : ℕ) → a ≤ b → (a < b) ⊎ (a ≡ b)
within_or_last a b h = ground arith

next_day-within :
    (d : Date) → d.day < days_of d.month d.year → next_day d ≡ record d { day = d.day + 1 }
unfolding next_day
next_day-within d h = ground arith

next_day-december :
    (d : Date)
    → d.day ≡ days_of d.month d.year
    → d.month ≡ 12
    → next_day d ≡ record { year = d.year + 1; month = 1; day = 1 }
unfolding next_day
next_day-december d h e = ground arith

next_day-month :
    (d : Date)
    → d.day ≡ days_of d.month d.year
    → d.month < 12
    → next_day d ≡ record d { month = d.month + 1; day = 1 }
unfolding next_day
next_day-month d h e = ground arith

december : (y : ℕ) → days_of 12 y ≡ 31
unfolding days_of
december y = refl

-- For a valid date whose year is after 1582 and before 5870000, so that no `int` overflows, and whose
-- month is one of the 12, `GblDate_toJulian` of the date and of the day after give numbers, of which
-- the second is one more.
pub to_julian-next_day :
    (d : Date)
    → is_valid d ≡ ok true
    → d.month ≤ 12
    → 1582 < d.year
    → d.year < 5870000
    → (n : ℕ) × (to_julian d ≡ ok n) × (to_julian (next_day d) ≡ ok (n + 1))
to_julian-next_day d h k l u =
    let (some_month, some_day, fits) = is_valid_parts d l h in
    let upper = days_of_upper d.month d.year in
    (
      gregorian d.year d.month d.day,
      to_julian-gregorian d l (omega arith) k (omega arith),
      elim (within_or_last d.day (days_of d.month d.year) fits) [
        | inl before ↦
            ap to_julian (next_day-within d before)
            ∙ to_julian-gregorian (record d { day = d.day + 1 }) l (omega arith) k (omega arith)
            ∙ ap ok (gregorian-day d.year d.month d.day l k)
        | inr last ↦ elim (within_or_last d.month 12 k) [
          | inl month ↦
              ap to_julian (next_day-month d last month)
              ∙ to_julian-gregorian (record d { month = d.month + 1; day = 1 }) l (omega arith)
                  (omega arith) (omega arith)
              ∙ ap ok (
                  month_step d.year d.month l some_month (omega arith)
                  ∙ ap (λ n. gregorian d.year d.month n + 1) (sym last))
          | inr month ↦
              ap to_julian (next_day-december d last month)
              ∙ to_julian-gregorian (record { year = d.year + 1; month = 1; day = 1 }) (omega arith)
                  (omega arith) (omega arith) (omega arith)
              ∙ ap ok (
                  year_step d.year l
                  ∙ ap₂ (λ m n. gregorian d.year m n + 1) (sym month)
                      (sym (last ∙ ap (λ m. days_of m d.year) month ∙ december d.year)))
        ]
      ],
    )

week_day_lem :
    (y m d : ℕ)
    → 1582 < y
    → 1 ≤ m
    → m ≤ 12
    → y ≤ 5870000
    → d ≤ 31
    → week_day (record { year = y; month = m; day = d }) ≡ ok ((gregorian y m d + 1) % 7)
unfolding week_day
week_day_lem y zero d l h k u v = absurd (omega arith)
week_day_lem y (suc zero) d l h k u v = ground arith
week_day_lem y (suc (suc zero)) d l h k u v = ground arith
week_day_lem y (suc (suc (suc zero))) d l h k u v = ground arith
week_day_lem y (suc (suc (suc (suc zero)))) d l h k u v = ground arith
week_day_lem y (suc (suc (suc (suc (suc zero))))) d l h k u v = ground arith
week_day_lem y (suc (suc (suc (suc (suc (suc zero)))))) d l h k u v = ground arith
week_day_lem y (suc (suc (suc (suc (suc (suc (suc zero))))))) d l h k u v = ground arith
week_day_lem y (suc (suc (suc (suc (suc (suc (suc (suc zero)))))))) d l h k u v = ground arith
week_day_lem y (suc (suc (suc (suc (suc (suc (suc (suc (suc zero))))))))) d l h k u v = ground arith
week_day_lem y (suc (suc (suc (suc (suc (suc (suc (suc (suc (suc zero)))))))))) d l h k u v =
    ground arith
week_day_lem y (suc (suc (suc (suc (suc (suc (suc (suc (suc (suc (suc zero))))))))))) d l h k u v =
    ground arith
week_day_lem y (suc (suc (suc (suc (suc (suc (suc (suc (suc (suc (suc (suc zero)))))))))))) d l h k
      u v =
    ground arith
week_day_lem y (suc (suc (suc (suc (suc (suc (suc (suc (suc (suc (suc (suc (suc m))))))))))))) d l h
      k u v =
    absurd (omega arith)

-- For a date whose year is after 1582 and before 5870000, so that no `int` overflows, whose month is one
-- of the 12 and whose day is at most 31, `GblDate_toJulian` gives a number, and `GblDate_weekDay` the
-- remainder by 7 of the number after it, Sunday being 0.
pub week_day-to_julian :
    (d : Date)
    → 1582 < d.year
    → d.year < 5870000
    → 1 ≤ d.month
    → d.month ≤ 12
    → d.day ≤ 31
    → (n : ℕ) × (to_julian d ≡ ok n) × (week_day d ≡ ok ((n + 1) % 7))
week_day-to_julian d l u h k v = (
  gregorian d.year d.month d.day,
  to_julian-gregorian d l (omega arith) k v,
  week_day_lem d.year d.month d.day l h k (omega arith) v,
)
