-- ===== src/Fat/Dates.antt =====
-- parse_datetime and parse_timestamp of kernel/src/filesystem/fat32.c: the dates and times of directory
-- entries. The fields of a broken-down time do not overlap in the two words, so that `|=` adds them.
use kerosene.Base.{
  ℕ, ◌+◌, ◌-◌, ◌*◌, ◌/◌, ◌%◌, ◌<◌, ◌≤◌, ◌≡◌, ◌∙◌, sym, ap, some, leb, if◌then◌else◌, arith, true,
  Bool,
}
use mathlib.Core.Path.{subst}
use kerosene.Libc.Time.{Tm, is_leap_year, days_in_month, mktime, gmtime}
use kerosene.Libc.Time.RoundTrip.{InRange, gmtime-Broken}

unfoldable pub parse_datetime : ℕ → ℕ → ℕ
parse_datetime date time = mktime (record {
  hour = time / 2048;
  min = time / 32 % 64;
  sec = time % 32 * 2;
  mday = date % 32;
  mon = date / 32 % 16;
  year = date / 512 + 1980;
  wday = 0;
  yday = 0;
})

-- The date and the time, both 16 bits wide.
unfoldable pub parse_timestamp : Tm → ℕ × ℕ
parse_timestamp t = (
  (t.mday + t.mon * 32 + (if leb 1980 t.year then t.year - 1980 else 0) * 512) % 65536,
  (t.sec / 2 + t.min * 32 + t.hour * 2048) % 65536,
)

time_fields :
    (sec min hour : ℕ)
    → sec < 60
    → min < 60
    → hour < 24
    → let w = (sec / 2 + min * 32 + hour * 2048) % 65536 in
      (w / 2048 ≡ hour) × (w / 32 % 64 ≡ min) × (w % 32 * 2 ≡ sec - sec % 2)
time_fields sec min hour hs hm hh = omega arith

date_fields :
    (mday mon year : ℕ)
    → mday < 32
    → mon < 16
    → 1980 ≤ year
    → year < 2108
    → let w = (mday + mon * 32 + (year - 1980) * 512) % 65536 in
      (w % 32 ≡ mday) × (w / 32 % 16 ≡ mon) × (w / 512 + 1980 ≡ year)
date_fields mday mon year hd hm lo hi = omega arith

-- mktime of a time whose odd second is dropped.
mktime_even :
    (t : Tm) (wday yday : ℕ)
    → 1 ≤ t.mday
    → mktime (record t { sec = t.sec - t.sec % 2; wday = wday; yday = yday }) + t.sec % 2 ≡ mktime t
unfolding mktime
mktime_even t wday yday day = omega arith

some_injective : {t u : Tm} → some t ≡ some u → t ≡ u
some_injective e = cc

month_fits : (mon : ℕ) (leap : Bool) (mday : ℕ) → mday ≤ days_in_month mon leap → mday < 32
unfolding days_in_month
month_fits mon leap mday le = ground (arith, le)

-- A time whose broken-down form has a year from 1980 to 2107 comes back from the two words of a directory
-- entry, an odd second rounded down.
pub parse_datetime-parse_timestamp :
    (timer : ℕ) (t : Tm)
    → gmtime timer ≡ some t
    → 1980 ≤ t.year
    → t.year < 2108
    → parse_datetime (parse_timestamp t).0 (parse_timestamp t).1 + t.sec % 2 ≡ timer
unfolding parse_datetime parse_timestamp
parse_datetime-parse_timestamp timer t broken lo hi =
    let b = gmtime-Broken timer in
    let same : b.tm ≡ t = some_injective (sym b.runs ∙ broken) in
    let r : InRange t = subst InRange same b.in_range in
    let since : leb 1980 t.year ≡ true = ground (arith, lo) in
    let f = time_fields t.sec t.min t.hour r.sec r.min r.hour in
    let g =
      date_fields t.mday t.mon t.year (month_fits t.mon (is_leap_year t.year) t.mday r.mday.1)
        (omega (arith, r.mon.1)) lo hi in
    rw (since, f.0, f.1, f.2, g.0, g.1, g.2)
      (mktime_even t 0 0 r.mday.0 ∙ ap mktime (sym same) ∙ b.back)
