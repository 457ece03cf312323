-- ===== src/Quota.antt =====
-- core/src/quota.rs: the plan and its usage window. Days, months and years are natural numbers: the
-- only day that `civil_from_days` is given counts from 1970 on, and the only use of
-- `days_from_civil` takes 0 for a negative day.
pub mod Calendar
use nft_gate.Base.{
  ℕ, zero, suc, ◌+◌, ◌-◌, ◌*◌, ◌/◌, ◌%◌, Bool, true, false, Option, none, some, List, [], ◌∷◌, ◌++◌,
  ltb, leb, if◌then◌else◌, length,
}
use nft_gate.Text.{Text, codes, text_eq}

pub data WorkersPlan : Type 0 where
  free paid : WorkersPlan

unfoldable pub as_str : WorkersPlan → Text
as_str free = codes "free"
as_str paid = codes "paid"

-- `none` is the error.
unfoldable pub parse_workers_plan : Option Text → Option WorkersPlan
parse_workers_plan none = some free
parse_workers_plan (some raw) =
    if text_eq raw (codes "free")
    then some free
    else if text_eq raw (codes "paid")
    then some paid
    else none

pub data Window : Type 0 where
  day month : Window

-- The window of `plan_limits`
abbrev pub window_of : WorkersPlan → Window
window_of free = day
window_of paid = month

abbrev pub ms_per_day : ℕ
ms_per_day = 86_400_000

pub record Civil : Type 0 where
  pub year : ℕ
  pub month_of : ℕ
  pub day_of : ℕ

abbrev early : ℕ → ℕ
early m = if leb m 2 then 1 else 0

-- The date of a day of the era, by the year of the era, the day of the year and the month from March
abbrev pub date_of : ℕ → ℕ → ℕ → Civil
date_of year doy mp =
    let m = if ltb mp 10 then mp + 3 else mp - 9 in
    record { year = year + early m; month_of = m; day_of = doy - (153 * mp + 2) / 5 + 1 }

abbrev pub year_of_era : ℕ → ℕ
year_of_era doe = (doe - doe / 1460 + doe / 36_524 - doe / 146_096) / 365

abbrev pub days_before : ℕ → ℕ
days_before yoe = 365 * yoe + yoe / 4 - yoe / 100

unfoldable pub civil_from_days : ℕ → Civil
civil_from_days z₀ =
    let z = z₀ + 719_468 in
    let era = z / 146_097 in
    let doe = z % 146_097 in
    let yoe = year_of_era doe in
    let doy = doe - days_before yoe in date_of (yoe + era * 400) doy ((5 * doy + 2) / 153)

unfoldable pub days_from_civil : ℕ → ℕ → ℕ → ℕ
days_from_civil y₀ m d =
    let y = y₀ - early m in
    let era = y / 400 in
    let yoe = y % 400 in
    let mp = if ltb 2 m then m - 3 else m + 9 in
    let doy = (153 * mp + 2) / 5 + d - 1 in
    let doe = yoe * 365 + yoe / 4 - yoe / 100 + doy in era * 146_097 + doe - 719_468

unfoldable pub window_start_ms : WorkersPlan → ℕ → ℕ
window_start_ms plan now =
    let day_start = now - now % ms_per_day in
    let date = civil_from_days (day_start / ms_per_day) in
    elim (window_of plan) [
      | day ↦ day_start
      | month ↦ days_from_civil date.year date.month_of 1 * ms_per_day
    ]
