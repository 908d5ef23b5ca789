-- ===== src/Libc/Time/Years.antt =====
-- The leap-year rule and the count of the days before a year agree.
use kerosene.Base.{
  ℕ, zero, suc, ◌+◌, ◌-◌, ◌*◌, ◌/◌, ◌%◌, ◌<◌, ◌≤◌, ◌≡◌, refl, inl, inr, Bool-cases, some, arith,
  ◌==◌, leb, if◌then◌else◌,
}
use kerosene.Libc.Time.{secs_per_day, is_leap_year, year_secs, year_loop, days_before}

step_4 : (y : ℕ) → 0 < y → y / 4 ≡ (y - 1) / 4 + (if y % 4 == 0 then 1 else 0)
step_4 y h = ground arith

step_100 : (y : ℕ) → 0 < y → y / 100 ≡ (y - 1) / 100 + (if y % 100 == 0 then 1 else 0)
step_100 y h = ground arith

step_400 : (y : ℕ) → 0 < y → y / 400 ≡ (y - 1) / 400 + (if y % 400 == 0 then 1 else 0)
step_400 y h = ground arith

leap_carries :
    (y : ℕ)
    → (if y % 4 == 0 then 1 else 0) + (if y % 400 == 0 then 1 else 0)
      ≡ (if is_leap_year y then 1 else 0) + (if y % 100 == 0 then 1 else 0)
unfolding is_leap_year
leap_carries y = ground arith

-- The next year begins 365 days later, or 366 where the leap-year rule says so.
pub days_before_next :
    (y : ℕ)
    → 1970 ≤ y
    → days_before (y + 1) ≡ days_before y + (365 + (if is_leap_year y then 1 else 0))
unfolding days_before
days_before_next y h =
    let e : y + 1 - 1 ≡ y = omega arith in
    rw e (
      omega (
        arith,
        step_4 y (omega arith),
        step_100 y (omega arith),
        step_400 y (omega arith),
        leap_carries y,
      ))

pub year_secs-days :
    (y : ℕ) → year_secs y ≡ (365 + (if is_leap_year y then 1 else 0)) * secs_per_day
year_secs-days y = ground arith

pub year_loop-exact :
    (fuel clone y : ℕ)
    → 1970 ≤ y
    → clone < fuel
    → (r : ℕ × ℕ) × (year_loop fuel clone y ≡ some r)
      × (1970 ≤ r.1)
      × (r.0 < year_secs r.1)
      × (days_before r.1 * secs_per_day + r.0 ≡ days_before y * secs_per_day + clone)
unfolding year_loop
year_loop-exact zero clone y h enough = absurd (omega arith)
year_loop-exact (suc fuel) clone y h enough = elim (Bool-cases (leb (year_secs y) clone)) [
  | inl more ↦
      let le : year_secs y ≤ clone = ground arith in
      let pos : 0 < year_secs y = ground arith in
      let rest = year_loop-exact fuel (clone - year_secs y) (y + 1) (omega arith) (omega arith) in
      (
        rest.0,
        rw more rest.1,
        rest.2,
        rest.3,
        omega (arith, rest.4, days_before_next y h, year_secs-days y),
      )
  | inr last ↦ ((clone, y), rw last, h, ground arith, refl)
]
