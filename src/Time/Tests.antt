-- ===== src/Time/Tests.antt =====
-- Dates around a leap day.
use stanix.Base.{◌+◌, ◌≡◌, refl, some, arith}
use stanix.Base.Int.{pos}
use stanix.Time.{
  Date, is_leap, nbofdayin, month_days, year_days, year_loop, month_loop, date2time, time2date,
}
use stanix.Time.RoundTrip.{IsDate, time2date-date2time, date2time-time2date}

-- 1972-03-01 12:30:05
abbrev march : Date
march = record { year = 1972; month = 3; day = 1; hour = 12; minute = 30; second = 5 }

march_time : date2time march ≡ pos 68_301_005
unfolding date2time month_days year_days is_leap
march_time = refl

march_back : time2date 68_301_005 ≡ some (record march { day = 0 })
unfolding time2date year_loop month_loop nbofdayin is_leap
march_back = refl

march-IsDate : IsDate 1 march
unfolding nbofdayin
march-IsDate = record {
  year_from = omega arith;
  month_from = omega arith;
  month_to = omega arith;
  month_length = 31;
  has_length = refl;
  day_from = omega arith;
  day_to = omega arith;
  hour_to = omega arith;
  minute_to = omega arith;
  second_to = omega arith;
}

time2date-date2time_example :
    (d : Date) × (time2date 68_301_005 ≡ some d)
    × IsDate 0 d
    × (date2time (record d { day = d.day + 1 }) ≡ pos 68_301_005)
time2date-date2time_example = time2date-date2time 68_301_005

date2time-time2date_example : time2date 68_301_005 ≡ some (record march { day = 0 })
date2time-time2date_example = date2time-time2date march march-IsDate march_time
