-- ===== src/Time.antt =====
-- kernel/klib/time.c: dates and seconds since 1970. Years and fields are not negative; `long` is taken
-- large enough. A result that may be negative is an integer.
pub mod Loops
pub mod RoundTrip
mod Tests
use stanix.Base.Int.{ℤ, pos, negsuc, sub_ℕ}
use stanix.Base.{
  ℕ, zero, suc, ◌+◌, ◌-◌, ◌*◌, ◌/◌, ◌%◌, ◌≤◌, ◌<◌, Bool, true, false, not, ◌&&◌, Option, none, some,
  ltb, leb, ◌==◌, if◌then◌else◌,
}

pub is_leap : ℕ → Bool
is_leap year =
    if not (year % 4 == 0)
    then false
    else if not (year % 400 == 0) && (year % 100 == 0)
    then false
    else true

abbrev pub february : ℕ → ℕ
february year = if is_leap year then 29 else 28

-- `none` stands for -1.
pub nbofdayin : ℕ → ℕ → Option ℕ
nbofdayin year month =
    if month == 12
    then some 31
    else if month == 11
    then some 30
    else if month == 10
    then some 31
    else if month == 9
    then some 30
    else if month == 8
    then some 31
    else if month == 7
    then some 31
    else if month == 6
    then some 30
    else if month == 5
    then some 31
    else if month == 4
    then some 30
    else if month == 3
    then some 31
    else if month == 2
    then some (february year)
    else if month == 1
    then some 31
    else none

-- Whether the `switch` of `date2time` runs through the statement of `case k`.
abbrev pub falls_to : ℕ → ℕ → Bool
falls_to k month = leb k month && leb month 12

-- The days that the `switch` adds.
pub month_days : ℕ → ℕ → ℕ
month_days year month =
    (if falls_to 12 month then 30 else 0)
    + (if falls_to 11 month then 31 else 0)
    + (if falls_to 10 month then 30 else 0)
    + (if falls_to 9 month then 31 else 0)
    + (if falls_to 8 month then 31 else 0)
    + (if falls_to 7 month then 30 else 0)
    + (if falls_to 6 month then 31 else 0)
    + (if falls_to 5 month then 30 else 0)
    + (if falls_to 4 month then 31 else 0)
    + (if falls_to 3 month then february year else 0)
    + (if falls_to 2 month then 31 else 0)

abbrev pub year_length : ℕ → ℕ
year_length year = if is_leap year then 366 else 365

-- The loop `while (year > 1970)`.
pub year_days : ℕ → ℕ
year_days zero = 0
year_days (suc year) = if ltb 1970 (suc year) then year_length year + year_days year else 0

pub record Date : Type 0 where
  pub year : ℕ
  pub month : ℕ
  pub day : ℕ
  pub hour : ℕ
  pub minute : ℕ
  pub second : ℕ

-- The first day has number 1: one day is taken off at the end.
pub date2time : Date → ℤ
date2time d =
    sub_ℕ
      (d.second
        + d.minute * 60
        + d.hour * 3600
        + (d.day + month_days d.year d.month + year_days d.year) * 86400)
      86400

-- The first loop of `time2date`: the year and the day in it. `none` means that the fuel ran out.
pub year_loop : (fuel year day : ℕ) → Option (ℕ × ℕ)
year_loop zero year day = none
year_loop (suc fuel) year day =
    let rest = year_loop fuel (year + 1) (day - year_length year) in
    if ltb day (year_length year) then some (year, day) else rest

-- The second loop: the month and the day in it. A month that is not there takes -1 days.
pub month_loop : (fuel year month day : ℕ) → Option (ℕ × ℕ)
month_loop zero year month day = none
month_loop (suc fuel) year month day = elim (nbofdayin year month) [
  | none ↦ month_loop fuel year (month + 1) (day + 1)
  | some n ↦
      let rest = month_loop fuel year (month + 1) (day - n) in
      if ltb day n then some (month, day) else rest
]

infixl 5 ◌>>=◌
abbrev ◌>>=◌ {ℓ κ} : {A : Type ℓ} {B : Type κ} → Option A → (A → Option B) → Option B
none >>= f = none
some a >>= f = f a

-- Fuel for each year and month: as many rounds as there are days, and one.
pub time2date : ℕ → Option Date
time2date time = do
  (year, rest) ← year_loop (time / 86400 + 1) 1970 (time / 86400)
  (month, day) ← month_loop 12 year 1 rest
  some (record {
    year = year;
    month = month;
    day = day;
    hour = time / 3600 % 24;
    minute = time / 60 % 60;
    second = time % 60;
  })
