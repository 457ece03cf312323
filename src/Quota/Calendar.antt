-- ===== src/Quota/Calendar.antt =====
-- The calendar of core/src/quota.rs: days and dates, and the usage window.
use nft_gate.Base.{
  ℕ, ◌+◌, ◌-◌, ◌*◌, ◌/◌, ◌%◌, ◌≤◌, ◌<◌, ◌≡◌, ap, ◌∙◌, inl, inr, ltb, Bool-cases, ltb→lt, arith,
}
use nft_gate.Quota.{
  WorkersPlan, free, paid, Civil, date_of, year_of_era, days_before, civil_from_days,
  days_from_civil, window_start_ms, ms_per_day,
}

year_of_era-bounds :
    (doe : ℕ)
    → doe < 146_097
    → let y = year_of_era doe in (y < 400) × (days_before y ≤ doe) × (doe - days_before y < 366)
year_of_era-bounds doe h = (omega arith, omega arith, omega arith)

-- The days of a date, counted from the first of March of the year `year`
days_from_civil-date_of :
    (y doy : ℕ)
    → doy < 366
    → let date = date_of y doy ((5 * doy + 2) / 153) in
      days_from_civil date.year date.month_of date.day_of
      ≡ y / 400 * 146_097 + (y % 400 * 365 + y % 400 / 4 - y % 400 / 100 + doy) - 719_468
unfolding days_from_civil
days_from_civil-date_of y doy h = ground arith

-- The era and its year make up the year, and the days of both the day.
joined :
    (y era doe z : ℕ)
    → y < 400
    → days_before y ≤ doe
    → doe + era * 146_097 ≡ z + 719_468
    → let year = y + era * 400 in
      year / 400 * 146_097
        + (year % 400 * 365 + year % 400 / 4 - year % 400 / 100 + (doe - days_before y))
        - 719_468
      ≡ z
joined y era doe z h k e = omega arith

-- days_from_civil gives back every day from 1970 on from the date that civil_from_days gives it.
pub days_from_civil-civil_from_days :
    (z : ℕ)
    → let date = civil_from_days z in days_from_civil date.year date.month_of date.day_of ≡ z
unfolding civil_from_days
days_from_civil-civil_from_days z =
    let doe = (z + 719_468) % 146_097 in
    let y = year_of_era doe in
    let b = year_of_era-bounds doe (omega arith) in
    days_from_civil-date_of (y + (z + 719_468) / 146_097 * 400) (doe - days_before y) b.2
    ∙ joined y ((z + 719_468) / 146_097) doe z b.0 b.1 (omega arith)

date_bounds :
    (y doy : ℕ)
    → doy < 366
    → let date = date_of y doy ((5 * doy + 2) / 153) in
      (1 ≤ date.month_of) × (date.month_of ≤ 12) × (1 ≤ date.day_of) × (date.day_of ≤ 31)
date_bounds y doy h = (ground arith, ground arith, ground arith, ground arith)

pub civil_from_days-bounds :
    (z : ℕ)
    → let date = civil_from_days z in
      (1 ≤ date.month_of) × (date.month_of ≤ 12) × (1 ≤ date.day_of) × (date.day_of ≤ 31)
unfolding civil_from_days
civil_from_days-bounds z =
    let doe = (z + 719_468) % 146_097 in
    let y = year_of_era doe in
    date_bounds (y + (z + 719_468) / 146_097 * 400) (doe - days_before y)
      (year_of_era-bounds doe (omega arith)).2

days_from_civil-first :
    (y m d : ℕ) → 1 ≤ d → days_from_civil y m 1 ≡ days_from_civil y m d - (d - 1)
unfolding days_from_civil
days_from_civil-first y m d h = ground arith

-- The monthly window starts with the day that is as many days before today as today's day of the
-- month is after the first.
window_start_ms-paid :
    (now : ℕ)
    → window_start_ms paid now
      ≡ (now / ms_per_day - ((civil_from_days (now / ms_per_day)).day_of - 1)) * ms_per_day
unfolding window_start_ms
window_start_ms-paid now =
    let z = now / ms_per_day in
    let same = start_day now in
    let date = civil_from_days z in
    rw (window_start_ms, same)
      (ap (λ d. d * ms_per_day)
        (days_from_civil-first date.year date.month_of date.day_of (civil_from_days-bounds z).2
          ∙ ap (λ d. d - (date.day_of - 1)) (days_from_civil-civil_from_days z)))
  where
    start_day : (now : ℕ) → (now - now % ms_per_day) / ms_per_day ≡ now / ms_per_day
    start_day now = omega arith

year_of_era-within :
    (doe doe' : ℕ)
    → doe < 146_097
    → doe' ≤ doe
    → days_before (year_of_era doe) ≤ doe'
    → year_of_era doe' ≡ year_of_era doe
year_of_era-within doe doe' h k l = omega arith

date_of-earlier :
    (y doy k : ℕ)
    → doy < 366
    → let date = date_of y doy ((5 * doy + 2) / 153) in
      k < date.day_of
      → date_of y (doy - k) ((5 * (doy - k) + 2) / 153)
        ≡ record { year = date.year; month_of = date.month_of; day_of = date.day_of - k }
date_of-earlier y doy k h l =
    let date = date_of y doy ((5 * doy + 2) / 153) in
    rw (same_month doy k h l) (
      ap (λ d. record { year = date.year; month_of = date.month_of; day_of = d })
        (days_back doy k h l))
  where
    same_month :
        (doy k : ℕ)
        → doy < 366
        → k < doy - (153 * ((5 * doy + 2) / 153) + 2) / 5 + 1
        → (5 * (doy - k) + 2) / 153 ≡ (5 * doy + 2) / 153
    same_month doy k h l = omega arith

    days_back :
        (doy k : ℕ)
        → doy < 366
        → k < doy - (153 * ((5 * doy + 2) / 153) + 2) / 5 + 1
        → doy - k - (153 * ((5 * doy + 2) / 153) + 2) / 5 + 1
          ≡ doy - (153 * ((5 * doy + 2) / 153) + 2) / 5 + 1 - k
    days_back doy k h l = omega arith

january : (z : ℕ) → z < 31 → (civil_from_days z).day_of ≤ z + 1
unfolding civil_from_days
january z h = omega arith

within_month : (z : ℕ) → (civil_from_days z).day_of ≤ z + 1
within_month z = elim (Bool-cases (ltb z 31)) [
  | inl h ↦ january z (ltb→lt z 31 h)
  | inr h ↦ ground (arith, civil_from_days-bounds z)
]

-- The date of a day of the year, and of a day of an era
abbrev dated : ℕ → ℕ → Civil
dated y doy = date_of y doy ((5 * doy + 2) / 153)

abbrev dated_of : ℕ → ℕ → ℕ → Civil
dated_of era doe y = dated (y + era * 400) (doe - days_before y)

dated_of-earlier :
    (era doe k : ℕ)
    → doe < 146_097
    → let date = dated_of era doe (year_of_era doe) in
      k < date.day_of
      → dated_of era (doe - k) (year_of_era (doe - k))
        ≡ record { year = date.year; month_of = date.month_of; day_of = date.day_of - k }
dated_of-earlier era doe k h l =
    let y = year_of_era doe in
    let b = year_of_era-bounds doe h in
    ap (dated_of era (doe - k)) (year_of_era-within doe (doe - k) h (omega arith) (omega arith))
    ∙ ap (dated (y + era * 400)) (swapped doe (days_before y) k)
    ∙ date_of-earlier (y + era * 400) (doe - days_before y) k b.2 l
  where
    swapped : (a b c : ℕ) → a - c - b ≡ a - b - c
    swapped a b c = omega arith

-- The days before a day, as far back as the first of its month, are of its month.
pub civil_from_days-earlier :
    (z k : ℕ)
    → let date = civil_from_days z in
      k < date.day_of
      → civil_from_days (z - k)
        ≡ record { year = date.year; month_of = date.month_of; day_of = date.day_of - k }
unfolding civil_from_days
civil_from_days-earlier z k h =
    let era = (z + 719_468) / 146_097 in
    let doe = (z + 719_468) % 146_097 in
    let b = year_of_era-bounds doe (omega arith) in
    let w = within_month z in
    ap (λ e. dated_of e ((z - k + 719_468) % 146_097) (year_of_era ((z - k + 719_468) % 146_097)))
      (same_era z k (omega arith) (omega arith))
    ∙ ap (λ d. dated_of era d (year_of_era d)) (same_day z k (omega arith) (omega arith))
    ∙ dated_of-earlier era doe k (omega arith) h
  where
    same_era :
        (z k : ℕ)
        → k ≤ z
        → k ≤ (z + 719_468) % 146_097
        → (z - k + 719_468) / 146_097 ≡ (z + 719_468) / 146_097
    same_era z k h l = omega arith

    same_day :
        (z k : ℕ)
        → k ≤ z
        → k ≤ (z + 719_468) % 146_097
        → (z - k + 719_468) % 146_097 ≡ (z + 719_468) % 146_097 - k
    same_day z k h l = omega arith

-- The window that a plan's usage is counted in starts at the first instant of a day, not after now,
-- and at most 31 days before now.
pub window_start_ms-bounds :
    (plan : WorkersPlan) (now : ℕ)
    → let start = window_start_ms plan now in
      (start % ms_per_day ≡ 0) × (start ≤ now) × (now < start + 31 * ms_per_day)
unfolding window_start_ms
window_start_ms-bounds free now = (omega arith, omega arith, omega arith)
window_start_ms-bounds paid now =
    let z = now / ms_per_day in
    let b = civil_from_days-bounds z in
    let w = window_start_ms-paid now in
    (whole_days _ _ w, not_after now _ _ w, within now _ _ w b.3)
  where
    whole_days : (start n : ℕ) → start ≡ n * ms_per_day → start % ms_per_day ≡ 0
    whole_days start n h = omega arith

    not_after : (now start d : ℕ) → start ≡ (now / ms_per_day - (d - 1)) * ms_per_day → start ≤ now
    not_after now start d h = omega arith

    within :
        (now start d : ℕ)
        → start ≡ (now / ms_per_day - (d - 1)) * ms_per_day
        → d ≤ 31
        → now < start + 31 * ms_per_day
    within now start d h l = omega arith

-- The paid plan's usage window starts on the first day of the month that the given time is in.
window_start_ms-first :
    (now : ℕ)
    → let date = civil_from_days (now / ms_per_day) in
      civil_from_days (window_start_ms paid now / ms_per_day)
      ≡ record { year = date.year; month_of = date.month_of; day_of = 1 }
window_start_ms-first now =
    let z = now / ms_per_day in
    let date = civil_from_days z in
    let b = civil_from_days-bounds z in
    ap civil_from_days (days_of _ _ (window_start_ms-paid now))
    ∙ civil_from_days-earlier z (date.day_of - 1) (omega (arith, b.2))
    ∙ ap (λ d. record { year = date.year; month_of = date.month_of; day_of = d }) (one _ b.2)
  where
    days_of : (start n : ℕ) → start ≡ n * ms_per_day → start / ms_per_day ≡ n
    days_of start n h = omega arith

    one : (d : ℕ) → 1 ≤ d → d - (d - 1) ≡ 1
    one d h = omega arith
