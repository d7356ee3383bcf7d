-- ===== src/Time/RoundTrip.antt =====
-- `time2date` and `date2time` against each other.
use stanix.Base.{ℕ, ◌+◌, ◌-◌, ◌*◌, ◌/◌, ◌%◌, ◌≤◌, ◌<◌, ◌≡◌, refl, sym, ap, ◌∙◌, some, arith}
use stanix.Base.Int.{pos, sub_ℕ}
use stanix.Time.{Date, nbofdayin, month_days, year_length, year_days, date2time, time2date}
use stanix.Time.Loops.{
  YearEnd, year_loop-YearEnd, MonthEnd, month_loop-MonthEnd, year_days_mono, month_days_mono,
  year_days_1970, month_days-january, month_fits,
}

-- A date whose days count from `first`.
pub record IsDate (first : ℕ) (d : Date) : Type 0 where
  pub year_from : 1970 ≤ d.year
  pub month_from : 1 ≤ d.month
  pub month_to : d.month ≤ 12
  pub month_length : ℕ
  pub has_length : nbofdayin d.year d.month ≡ some month_length
  pub day_from : first ≤ d.day
  pub day_to : d.day < first + month_length
  pub hour_to : d.hour < 24
  pub minute_to : d.minute < 60
  pub second_to : d.second < 60

-- The date that `time2date` puts together.
abbrev pub put_date : ℕ → ℕ × ℕ → ℕ × ℕ → Date
put_date time (year, rest) (month, day) = record {
  year = year;
  month = month;
  day = day;
  hour = time / 3600 % 24;
  minute = time / 60 % 60;
  second = time % 60;
}

time2date_parts :
    (time : ℕ)
    → (y : ℕ × ℕ) × (m : ℕ × ℕ) × (time2date time ≡ some (put_date time y m))
      × YearEnd (time / 86400) y
      × MonthEnd y.0 y.1 m
unfolding time2date
time2date_parts time =
    let (y, ran, end) =
      year_loop-YearEnd (time / 86400 + 1) 1970 (time / 86400) (omega arith) (omega arith) in
    let (m, ran', end') =
      month_loop-MonthEnd 12 y.0 1 y.1 refl (omega arith) (omega arith)
        (omega (arith, end.within, month_days-january y.0)) in
    (
      y,
      m,
      rw (ran, ran'),
      record {
        after = end.after;
        within = end.within;
        total_days = end.total_days ∙ rw year_days_1970 (omega arith);
      },
      record {
        from = end'.from;
        to = end'.to;
        length = end'.length;
        has_length = end'.has_length;
        within = end'.within;
        total_days = end'.total_days ∙ rw month_days-january (omega arith);
      },
    )

date_seconds :
    (time d : ℕ)
    → d ≡ time / 86400
    → time % 60 + time / 60 % 60 * 60 + time / 3600 % 24 * 3600 + d * 86400 ≡ time
date_seconds time d e = omega arith

-- For every time `time2date` ends, with fields in their ranges, the day counted from 0; with the day
-- counted from 1 `date2time` gives the time back.
pub time2date-date2time :
    (time : ℕ)
    → (d : Date) × (time2date time ≡ some d)
      × IsDate 0 d
      × (date2time (record d { day = d.day + 1 }) ≡ pos time)
unfolding date2time
time2date-date2time time =
    let (y, m, ran, year_end, month_end) = time2date_parts time in
    let days : m.1 + month_days y.0 m.0 + year_days y.0 ≡ time / 86400 =
      omega (arith, year_end.total_days, month_end.total_days) in
    (
      put_date time y m,
      ran,
      record {
        year_from = year_end.after;
        month_from = month_end.from;
        month_to = month_end.to;
        month_length = month_end.length;
        has_length = month_end.has_length;
        day_from = omega arith;
        day_to = omega (arith, month_end.within);
        hour_to = omega arith;
        minute_to = omega arith;
        second_to = omega arith;
      },
      ground (arith, date_seconds time _ days),
    )

-- Fed with the fields of `time2date` as they are, `date2time` is one day early, for every time.
pub date2time-time2date_early :
    (time : ℕ) {d : Date} → time2date time ≡ some d → date2time d ≡ sub_ℕ time 86400
unfolding date2time
date2time-time2date_early time {d} e =
    let (y, m, ran, year_end, month_end) = time2date_parts time in
    let days : m.1 + month_days y.0 m.0 + year_days y.0 ≡ time / 86400 =
      omega (arith, year_end.total_days, month_end.total_days) in
    let same : put_date time y m ≡ d = cc in
    rw (← same) (ap (λ t. sub_ℕ t 86400) (date_seconds time _ days))

-- Years and months are determined by the days before them.
same_year :
    (y y' r r' : ℕ)
    → 1970 ≤ y
    → 1970 ≤ y'
    → r < year_length y
    → r' < year_length y'
    → year_days y + r ≡ year_days y' + r'
    → y ≡ y'
same_year y y' r r' h h' k k' e = ground (
  arith,
  year_days_mono (y' - y - 1) y h,
  year_days_mono (y - y' - 1) y' h',
  ap year_days {x = y + 1 + (y' - y - 1)} {y = y'},
  ap year_days {x = y' + 1 + (y - y' - 1)} {y = y},
)

same_month :
    (year m m' n n' d d' : ℕ)
    → 1 ≤ m
    → m ≤ 12
    → 1 ≤ m'
    → m' ≤ 12
    → nbofdayin year m ≡ some n
    → nbofdayin year m' ≡ some n'
    → d < n
    → d' < n'
    → month_days year m + d ≡ month_days year m' + d'
    → m ≡ m'
same_month year m m' n n' d d' a b a' b' has has' k k' e = ground (
  arith,
  month_days_mono (m' - m - 1) year m n a,
  month_days_mono (m - m' - 1) year m' n' a',
  ap (month_days year) {x = m + 1 + (m' - m - 1)} {y = m'},
  ap (month_days year) {x = m' + 1 + (m - m' - 1)} {y = m},
)

same_date :
    (days : ℕ) (year month day n : ℕ) (y m : ℕ × ℕ)
    → 1970 ≤ year
    → 1 ≤ month
    → month ≤ 12
    → nbofdayin year month ≡ some n
    → day < n
    → day + month_days year month + year_days year ≡ days
    → YearEnd days y
    → MonthEnd y.0 y.1 m
    → (y.0 ≡ year) × (m.0 ≡ month) × (m.1 ≡ day)
same_date days year month day n (y, r) (m, d) a b c has k sum year_end month_end =
    let years : y ≡ year =
      same_year y year r (month_days year month + day) year_end.after a year_end.within
        (omega (arith, month_fits year month n b c has)) (omega (arith, year_end.total_days)) in
    let rest : month_days year m + d ≡ month_days year month + day =
      ap (λ t. month_days t m + d) (sym years)
      ∙ omega (arith, month_end.total_days, year_end.total_days, ap year_days years) in
    let has' : nbofdayin year m ≡ some month_end.length = rw years at month_end.has_length in
    let months : m ≡ month =
      same_month year m month month_end.length n d day month_end.from month_end.to b c has' has
        month_end.within k rest in
    (years, months, ground (arith, rest))

fields :
    (time s m h days : ℕ)
    → s < 60
    → m < 60
    → h < 24
    → s + m * 60 + h * 3600 + days * 86400 ≡ time
    → (time / 86400 ≡ days) × (time % 60 ≡ s) × (time / 60 % 60 ≡ m) × (time / 3600 % 24 ≡ h)
fields time s m h days a b c e = omega arith

-- A date from 1970 on, its day counted from 1, comes back from its time, its day counted from 0.
pub date2time-time2date :
    (d : Date) {time : ℕ}
    → IsDate 1 d
    → date2time d ≡ pos time
    → time2date time ≡ some (record d { day = d.day - 1 })
unfolding date2time
date2time-time2date d {time} v e =
    let open_days = d.day - 1 + month_days d.year d.month + year_days d.year in
    let (days, s, m, h) =
      fields time d.second d.minute d.hour open_days v.second_to v.minute_to v.hour_to
        (ground (arith, v.day_from)) in
    let (y, mo, ran, year_end, month_end) = time2date_parts time in
    let (a, b, c) =
      same_date (time / 86400) d.year d.month (d.day - 1) v.month_length y mo v.year_from
        v.month_from v.month_to v.has_length (omega (arith, v.day_from, v.day_to))
        (omega (arith, days)) year_end month_end in
    ran ∙ cc
