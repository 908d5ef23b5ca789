-- ===== src/Libc/Time/RoundTrip.antt =====
-- mktime takes apart what gmtime puts together.
use kerosene.Base.{
  ℕ, zero, suc, ◌+◌, ◌-◌, ◌*◌, ◌/◌, ◌%◌, ◌<◌, ◌≤◌, ◌≡◌, refl, ◌∙◌, ap, Bool, Bool-cases, true,
  false, Option, some, inl, inr, arith, leb, if◌then◌else◌,
}
use kerosene.Libc.Time.{
  Tm, secs_per_day, epoch_weekday, is_leap_year, days_in_month, month_loop, months_loop,
  days_before, gmtime, mktime,
}
use kerosene.Libc.Time.Years.{year_loop-exact, year_secs-days}

-- The days of `n` months from month `m` on.
abbrev span : Bool → ℕ → ℕ → ℕ
span l zero m = 0
span l (suc n) m = days_in_month m l + span l n (m + 1)

months_loop-span : (l : Bool) (n m t : ℕ) → months_loop l n m t ≡ t + span l n m * secs_per_day
unfolding months_loop
months_loop-span l zero m t = omega arith
months_loop-span l (suc n) m t =
    omega (arith, months_loop-span l n (m + 1) (t + days_in_month m l * secs_per_day))

span_year : (l : Bool) → span l 12 1 ≡ 365 + (if l then 1 else 0)
unfolding days_in_month
span_year true = refl
span_year false = refl

epoch_start : days_before 1970 ≡ 0
unfolding days_before
epoch_start = refl

-- The month `mon + passed` that a second of the year falls in.
record InMonth (l : Bool) (fuel clone mon : ℕ) : Type 0 where
  left : ℕ
  passed : ℕ
  runs : month_loop l fuel clone mon ≡ some (left, mon + passed)
  few : passed < fuel
  inside : left < days_in_month (mon + passed) l * secs_per_day
  total : clone ≡ left + span l passed mon * secs_per_day

month_loop-InMonth :
    (l : Bool) (fuel clone mon : ℕ)
    → clone < span l fuel mon * secs_per_day
    → InMonth l fuel clone mon
unfolding month_loop
month_loop-InMonth l zero clone mon h = absurd (omega arith)
month_loop-InMonth l (suc fuel) clone mon h =
    let sec : ℕ = days_in_month mon l * secs_per_day in
    elim (Bool-cases (leb sec clone)) [
      | inl more ↦
          let le : sec ≤ clone = ground arith in
          let rest = month_loop-InMonth l fuel (clone - sec) (mon + 1) (omega arith) in
          let e : mon + 1 + rest.passed ≡ mon + suc rest.passed = omega arith in
          record {
            left = rest.left;
            passed = suc rest.passed;
            runs = rw more (rest.runs ∙ ap (λ (n : ℕ). some (rest.left, n)) e);
            few = omega (arith, rest.few);
            inside = rw e at rest.inside;
            total = omega (arith, rest.total);
          }
      | inr last ↦
          let e : mon + 0 ≡ mon = omega arith in
          record {
            left = clone;
            passed = 0;
            runs = rw (last, e);
            few = omega arith;
            inside = rw e (ground arith);
            total = omega arith;
          }
    ]

-- The fields lie in their ranges; the day of the month within the month of that year.
pub record InRange (t : Tm) : Type 0 where
  pub sec : t.sec < 60
  pub min : t.min < 60
  pub hour : t.hour < 24
  pub mday : (1 ≤ t.mday) × (t.mday ≤ days_in_month t.mon (is_leap_year t.year))
  pub mon : (1 ≤ t.mon) × (t.mon ≤ 12)
  pub wday : t.wday < 7
  pub yday : t.yday < 365 + (if is_leap_year t.year then 1 else 0)

-- A broken-down time for `timer` whose fields are in range and from which `timer` comes back.
pub record Broken (o : Option Tm) (timer : ℕ) : Type 0 where
  pub tm : Tm
  pub runs : o ≡ some tm
  pub in_range : InRange tm
  pub back : mktime tm ≡ timer
  pub weekday : tm.wday ≡ (epoch_weekday + timer / secs_per_day) % 7

-- For every time from 1970 on that overflows no `int` of the source, gmtime ends, with all fields in
-- range, mktime gives the time back, and the day of the week is counted from 1 January 1970, a
-- Thursday.
pub gmtime-Broken : (timer : ℕ) → Broken (gmtime timer) timer
unfolding gmtime mktime
gmtime-Broken timer =
    let y = year_loop-exact (timer + 1) timer 1970 (omega arith) (omega arith) in
    let in_year : ℕ = y.0.0 in
    let year : ℕ = y.0.1 in
    let l : Bool = is_leap_year year in
    let m =
      month_loop-InMonth l 12 in_year 1 (omega (arith, y.3, year_secs-days year, span_year l)) in
    let total : days_before year * secs_per_day + in_year ≡ timer =
      omega (arith, y.4, epoch_start) in
    let days : days_before year + in_year / secs_per_day ≡ timer / secs_per_day = omega arith in
    let rounds : 1 + m.passed - 1 ≡ m.passed = omega arith in
    record {
      tm = record {
        sec = m.left % secs_per_day % 3600 % 60;
        min = m.left % secs_per_day % 3600 / 60;
        hour = m.left % secs_per_day / 3600;
        mday = 1 + m.left / secs_per_day;
        mon = 1 + m.passed;
        year = year;
        wday = (epoch_weekday + (days_before year + in_year / secs_per_day)) % 7;
        yday = in_year / secs_per_day;
      };
      runs = ground (arith, y.1, m.runs);
      in_range = record {
        sec = omega arith;
        min = omega arith;
        hour = omega arith;
        mday = omega (arith, m.inside);
        mon = omega (arith, m.few);
        wday = omega arith;
        yday = omega (arith, y.3, year_secs-days year);
      };
      back = rw (rounds, months_loop-span) (omega (arith, m.total, total));
      weekday = ap (λ (d : ℕ). (epoch_weekday + d) % 7) days;
    }
