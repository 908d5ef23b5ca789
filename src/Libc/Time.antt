-- ===== src/Libc/Time.antt =====
-- libc/src/time/gmtime.c and mktime.c, for times from 1970 on: `time_t` values are natural numbers
-- and years are at least 1970. Months count from 1. The days and the years of the source are of type
-- `int`, which times below 2^47 do not overflow; they are unbounded here.
pub mod Years
pub mod RoundTrip
use kerosene.Base.{
  ℕ, zero, suc, ◌+◌, ◌-◌, ◌*◌, ◌/◌, ◌%◌, Bool, true, false, not, Option, none, some, ◌==◌, leb, ltb,
  if◌then◌else◌, ◌>>=◌,
}

abbrev pub secs_per_day : ℕ
secs_per_day = 86400

abbrev pub epoch_weekday : ℕ
epoch_weekday = 4

-- struct tm
pub record Tm : Type 0 where
  pub sec : ℕ
  pub min : ℕ
  pub hour : ℕ
  pub mday : ℕ
  pub mon : ℕ
  pub year : ℕ
  pub wday : ℕ
  pub yday : ℕ

unfoldable pub is_leap_year : ℕ → Bool
is_leap_year year =
    if year % 400 == 0 then true else if year % 4 == 0 then not (year % 100 == 0) else false

unfoldable pub days_in_month : ℕ → Bool → ℕ
days_in_month month leap_year =
    if leb month 7
    then (if month % 2 == 1 then 31 else if month == 2 then (if leap_year then 29 else 28) else 30)
    else (if month % 2 == 0 then 31 else 30)

-- The seconds of a year.
abbrev pub year_secs : ℕ → ℕ
year_secs year = if is_leap_year year then 365 * secs_per_day + secs_per_day else 365 * secs_per_day

-- The loop over the years: the seconds left, and the year they fall in. `none`: out of fuel.
unfoldable pub year_loop : ℕ → ℕ → ℕ → Option (ℕ × ℕ)
year_loop zero clone year = none
year_loop (suc fuel) clone year =
    let rest = year_loop fuel (clone - year_secs year) (year + 1) in
    if leb (year_secs year) clone then rest else some (clone, year)

unfoldable pub month_loop : Bool → ℕ → ℕ → ℕ → Option (ℕ × ℕ)
month_loop leap_year zero clone mon = none
month_loop leap_year (suc fuel) clone mon =
    let sec = days_in_month mon leap_year * secs_per_day in
    let rest = month_loop leap_year fuel (clone - sec) (mon + 1) in
    if leb sec clone then rest else some (clone, mon)

-- The days from 1970 to the start of a year, as both functions compute them.
unfoldable pub days_before : ℕ → ℕ
days_before year =
    (year - 1970) * 365
    + ((year - 1) / 4 - 1970 / 4)
    - ((year - 1) / 100 - 1970 / 100)
    + ((year - 1) / 400 - 1970 / 400)

-- The loop over the years takes fewer than `clone + 1` rounds, and that over the months 12 at most.
unfoldable pub gmtime : ℕ → Option Tm
gmtime timer = do
  (in_year, year) ← year_loop (timer + 1) timer 1970
  (in_month, mon) ← month_loop (is_leap_year year) 12 in_year 1
  some (record {
    sec = in_month % secs_per_day % 3600 % 60;
    min = in_month % secs_per_day % 3600 / 60;
    hour = in_month % secs_per_day / 3600;
    mday = 1 + in_month / secs_per_day;
    mon = mon;
    year = year;
    wday = (epoch_weekday + (days_before year + in_year / secs_per_day)) % 7;
    yday = in_year / secs_per_day;
  })

-- `for(int m = 1; m < mon; m++) t += days_in_month(m) * SECS_PER_DAY`: the rounds left, and `m`.
unfoldable pub months_loop : Bool → ℕ → ℕ → ℕ → ℕ
months_loop leap_year zero m t = t
months_loop leap_year (suc rounds) m t =
    months_loop leap_year rounds (m + 1) (t + days_in_month m leap_year * secs_per_day)

-- A time before 1970, which would be negative, is 0 here.
unfoldable pub mktime : Tm → ℕ
mktime tp =
    months_loop (is_leap_year tp.year) (tp.mon - 1) 1 (days_before tp.year * secs_per_day)
    + tp.mday * secs_per_day
    + tp.sec
    + tp.min * 60
    + tp.hour * 3600
    - secs_per_day
