-- ===== src/Message/Calendar.antt =====
-- The Gregorian calendar, followed day by day, and its years that begin on 1 March, which
-- `civil_date_from_days` of src/message.rs counts in.
use gmcrypto_envelope_lite.Base.{
  ℕ, zero, suc, ◌+◌, ◌-◌, ◌*◌, ◌/◌, ◌%◌, ◌<◌, ◌≤◌, ◌≡◌, arith, subst, sym, ap, Bool, not, ◌&&◌,
  ◌||◌, ◌==◌, ltb, leb, ltb→lt, ltb→le, Bool-cases, inl, inr, if◌then◌else◌,
}

-- The Gregorian rule.
unfoldable pub is_leap : ℕ → Bool
is_leap y = y % 4 == 0 && (not (y % 100 == 0) || y % 400 == 0)

unfoldable pub days_in_month : ℕ → ℕ → ℕ
unfolding is_leap
days_in_month y m =
    if m == 2
    then (if is_leap y then 29 else 28)
    else if m == 4 || m == 6 || m == 9 || m == 11
    then 30
    else 31

-- The day after a date.
unfoldable pub next_day : ℕ × ℕ × ℕ → ℕ × ℕ × ℕ
unfolding days_in_month
next_day (y, m, d) =
    if ltb d (days_in_month y m)
    then (y, m, d + 1)
    else if ltb m 12
    then (y, m + 1, 1)
    else (y + 1, 1, 1)

-- Months are counted from March: the number of days before one, and its number in the calendar.
abbrev pub days_before : ℕ → ℕ
days_before p = (153 * p + 2) / 5

abbrev pub month_of : ℕ → ℕ
month_of p = if ltb p 10 then p + 3 else p - 9

abbrev pub year_of : ℕ → ℕ → ℕ
year_of y p = y + (if leb (month_of p) 2 then 1 else 0)

-- The date of a day of the year that begins on 1 March of year `y`.
abbrev pub date_in : ℕ → ℕ → ℕ → ℕ × ℕ × ℕ
date_in y n p = (year_of y p, month_of p, n - days_before p + 1)

abbrev pub month_index : ℕ → ℕ
month_index n = (5 * n + 2) / 153

abbrev pub march_date : ℕ → ℕ → ℕ × ℕ × ℕ
march_date y n = date_in y n (month_index n)

-- Its length in days.
abbrev pub march_year : ℕ → ℕ
march_year y = if is_leap (y + 1) then 366 else 365

month_length :
    (y p : ℕ)
    → p ≤ 10
    → days_in_month (year_of y p) (month_of p) ≡ days_before (p + 1) - days_before p
unfolding days_in_month
month_length y p h = ground arith

last_month : (y : ℕ) → days_in_month (year_of y 11) (month_of 11) ≡ march_year y - days_before 11
unfolding days_in_month
last_month y = ground arith

in_month : (y m d : ℕ) → d < days_in_month y m → next_day (y, m, d) ≡ (y, m, d + 1)
unfolding next_day
in_month y m d h = ground arith

-- The last day of a month.
after_month :
    (y p d : ℕ)
    → p ≤ 10
    → d ≡ days_before (p + 1) - days_before p
    → next_day (year_of y p, month_of p, d) ≡ (year_of y (p + 1), month_of (p + 1), 1)
unfolding next_day
after_month y p d h last = let long = month_length y p h in ground arith

not_last :
    (y n p : ℕ)
    → p ≤ 11
    → days_before p ≤ n
    → n + 1 < march_year y
    → n + 1 < days_before (p + 1)
    → n - days_before p + 1 < days_in_month (year_of y p) (month_of p)
not_last y n p h low year high = elim (Bool-cases (ltb p 11)) [
  | inl small ↦
      let l = month_length y p (let b = ltb→lt p 11 small in omega arith) in
      let b = ltb→lt p 11 small in omega arith
  | inr last ↦
      let e : p ≡ 11 = let b = ltb→le p 11 last in omega arith in
      let day : n - days_before 11 + 1 < march_year y - days_before 11 = omega arith in
      rw (e, last_month y) day
]

inside_month :
    (y n : ℕ)
    → n + 1 < march_year y
    → n + 1 < days_before (month_index n + 1)
    → next_day (march_date y n) ≡ march_date y (n + 1)
inside_month y n year high =
    let same : month_index (n + 1) ≡ month_index n = omega arith in
    let p = month_index n in
    let bound : p ≤ 11 = ground arith in
    let low : days_before p ≤ n = omega arith in
    let day : n + 1 - days_before p + 1 ≡ n - days_before p + 1 + 1 = omega arith in
    rw same (
      rw day (
        in_month (year_of y p) (month_of p) (n - days_before p + 1)
          (not_last y n p bound low year high)))

pub inside : (y n : ℕ) → n + 1 < march_year y → next_day (march_date y n) ≡ march_date y (n + 1)
inside y n h = elim (Bool-cases (ltb (n + 1) (days_before (month_index n + 1)))) [
  | inl within ↦ inside_month y n h (ltb→lt _ _ within)
  | inr last ↦
      let e = ltb→le (n + 1) (days_before (month_index n + 1)) last in
      let next : month_index (n + 1) ≡ month_index n + 1 = omega arith in
      let p = month_index n in
      let bound : p ≤ 10 = ground arith in
      let first : n + 1 - days_before (p + 1) + 1 ≡ 1 = omega arith in
      rw next (rw first (after_month y p (n - days_before p + 1) bound (omega arith)))
]

pub at_end : (y n : ℕ) → n + 1 ≡ march_year y → next_day (march_date y n) ≡ march_date (y + 1) 0
unfolding next_day days_in_month
at_end y n h = ground arith

-- The date so many days after 1 January 1970, day by day.
unfoldable pub calendar : ℕ → ℕ × ℕ × ℕ
unfolding next_day
calendar zero = (1970, 1, 1)
calendar (suc n) = next_day (calendar n)

-- A day of a month of twelve.
pub record IsDate (d : ℕ × ℕ × ℕ) : Type 0 where
  pub month : (1 ≤ d.1) × (d.1 ≤ 12)
  pub day : (1 ≤ d.2) × (d.2 ≤ days_in_month d.0 d.1)

next_day-IsDate : (y m d : ℕ) → IsDate (y, m, d) → IsDate (next_day (y, m, d))
unfolding next_day days_in_month
next_day-IsDate y m d h = ground arith

pub calendar-IsDate : (n : ℕ) → IsDate (calendar n)
unfolding calendar
calendar-IsDate zero = record {
  month = (omega arith, omega arith);
  day = (omega arith, unfold days_in_month in omega arith);
}
calendar-IsDate (suc n) = let d = calendar n in next_day-IsDate d.0 d.1 d.2 (calendar-IsDate n)

pub days_in_month-short : (y m : ℕ) → days_in_month y m ≤ 31
unfolding days_in_month
days_in_month-short y m = ground arith

-- A number that grows with the date.
abbrev rank : ℕ × ℕ × ℕ → ℕ
rank (y, m, d) = 372 * y + 31 * m + d

next_day-rank : (y m d : ℕ) → IsDate (y, m, d) → rank (y, m, d) < rank (next_day (y, m, d))
unfolding next_day days_in_month
next_day-rank y m d h = ground arith

calendar_mono : (m n : ℕ) → m < n → rank (calendar m) < rank (calendar n)
unfolding calendar
calendar_mono m zero h = absurd (omega arith)
calendar_mono m (suc n) h =
    let d = calendar n in
    let step = next_day-rank d.0 d.1 d.2 (calendar-IsDate n) in
    elim (Bool-cases (ltb m n)) [
      | inl less ↦ let i = calendar_mono m n (ltb→lt m n less) in omega arith
      | inr last ↦
          let e : m ≡ n = let b = ltb→le m n last in omega arith in
          subst (λ k. rank (calendar k) < rank (next_day d)) (sym e) step
    ]

-- The calendar never comes back to a date.
pub calendar-inj : (m n : ℕ) → calendar m ≡ calendar n → m ≡ n
calendar-inj m n e =
    let same : rank (calendar m) ≡ rank (calendar n) = ap rank e in
    let less = calendar_mono m n in let more = calendar_mono n m in ground arith
