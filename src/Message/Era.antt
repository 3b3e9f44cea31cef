-- ===== src/Message/Era.antt =====
-- `civil_date_from_days` of src/message.rs agrees with the Gregorian calendar.
use gmcrypto_envelope_lite.Base.{
  ℕ, zero, suc, ◌+◌, ◌-◌, ◌*◌, ◌/◌, ◌%◌, ◌<◌, ◌≤◌, ◌≡◌, refl, sym, ap, ◌∙◌, ◌⊎◌, arith, Bool, ltb,
  leb, ltb→lt, ltb→le, Bool-cases, inl, inr, if◌then◌else◌,
}
use gmcrypto_envelope_lite.Base.Int.{pos, pos_part, ◌+ℤ◌, ◌-ℤ◌, scale, div_trunc}
use gmcrypto_envelope_lite.Message.Time.{civil_date_from_days, civil_date_in_era, round_to_era}
use gmcrypto_envelope_lite.Message.Calendar.{
  is_leap, days_before, month_of, month_index, march_date, march_year, inside, at_end, next_day,
  calendar,
}

-- Years in an era of 400 years that begins on 1 March, and the days before one.
abbrev year_in_era : ℕ → ℕ
year_in_era n = (n - n / 1460 + n / 36524 - n / 146096) / 365

abbrev year_start : ℕ → ℕ
year_start y = 365 * y + y / 4 - y / 100 + y / 400

year_start-year_in_era :
    (n : ℕ)
    → n < 146097
    → (year_start (year_in_era n) ≤ n)
      × (n < year_start (year_in_era n + 1))
      × (year_in_era n < 400)
year_start-year_in_era n h = (omega arith, omega arith, omega arith)

year_length : (y e : ℕ) → y < 400 → year_start (y + 1) ≡ year_start y + march_year (y + 400 * e)
unfolding is_leap
year_length y e h = ground arith

-- The date of a day, counted from 1 March of the year 0.
abbrev march_day : ℕ → ℕ × ℕ × ℕ
march_day z =
    let n = z % 146097 in
    march_date (year_in_era n + 400 * (z / 146097)) (n - year_start (year_in_era n))

year_start_mono : (a b : ℕ) → a ≤ b → year_start a ≤ year_start b
year_start_mono a b h = omega arith

year_unique :
    (a b n : ℕ)
    → year_start a ≤ n
    → n < year_start (a + 1)
    → year_start b ≤ n
    → n < year_start (b + 1)
    → a ≡ b
year_unique a b n la ha lb hb =
    let one = year_start_mono (a + 1) b in let two = year_start_mono (b + 1) a in ground arith

next_year_in_era :
    (n : ℕ)
    → n + 1 < 146097
    → (year_in_era (n + 1) ≡ year_in_era n × (n + 1 < year_start (year_in_era n + 1)))
      ⊎ ((year_in_era (n + 1) ≡ year_in_era n + 1) × (n + 1 ≡ year_start (year_in_era n + 1)))
next_year_in_era n h =
    let y = year_in_era n in
    let (low, high, small) = year_start-year_in_era n (omega arith) in
    let (low', high', small') = year_start-year_in_era (n + 1) h in
    elim (Bool-cases (ltb (n + 1) (year_start (y + 1)))) [
      | inl within ↦
          let b = ltb→lt _ _ within in
          inl (year_unique (year_in_era (n + 1)) y (n + 1) low' high' (omega arith) b, b)
      | inr last ↦
          let b = ltb→le _ _ last in
          let e : n + 1 ≡ year_start (y + 1) = omega arith in
          inr (year_unique (year_in_era (n + 1)) (y + 1) (n + 1) low' high' b (omega arith), e)
    ]

in_era :
    (n e : ℕ)
    → n + 1 < 146097
    → next_day (march_date (year_in_era n + 400 * e) (n - year_start (year_in_era n)))
      ≡ march_date (year_in_era (n + 1) + 400 * e) (n + 1 - year_start (year_in_era (n + 1)))
in_era n e h =
    let y = year_in_era n in
    let (low, high, small) = year_start-year_in_era n (omega arith) in
    let long = year_length y e small in
    elim (next_year_in_era n h) [
      | inl (same, within) ↦
          let day : n + 1 - year_start y ≡ n - year_start y + 1 = omega arith in
          rw same (rw day (inside (y + 400 * e) (n - year_start y) (omega arith)))
      | inr (next, last) ↦
          let day : n + 1 - year_start (y + 1) ≡ 0 = omega arith in
          let year : y + 1 + 400 * e ≡ y + 400 * e + 1 = omega arith in
          rw next (rw (day, year) (at_end (y + 400 * e) (n - year_start y) (omega arith)))
    ]

-- The last year of an era ends with a leap day.
leap_end : (e : ℕ) → 366 ≡ march_year (399 + 400 * e)
unfolding is_leap
leap_end e = ground arith

next_day-march_day : (z : ℕ) → next_day (march_day z) ≡ march_day (z + 1)
next_day-march_day z = elim (Bool-cases (ltb (z % 146097 + 1) 146097)) [
  | inl within ↦
      let b = ltb→lt _ _ within in
      let day : (z + 1) % 146097 ≡ z % 146097 + 1 = omega arith in
      let era : (z + 1) / 146097 ≡ z / 146097 = omega arith in
      rw (day, era) (in_era (z % 146097) (z / 146097) b)
  | inr last ↦
      let b = ltb→le _ _ last in
      let day : (z + 1) % 146097 ≡ 0 = omega arith in
      let era : (z + 1) / 146097 ≡ z / 146097 + 1 = omega arith in
      let n : z % 146097 ≡ 146096 = omega arith in
      let year : 0 + 400 * (z / 146097 + 1) ≡ 399 + 400 * (z / 146097) + 1 = omega arith in
      rw (day, era, n, year) (at_end (399 + 400 * (z / 146097)) 365 (leap_end (z / 146097)))
]

add_flag :
    (a : ℕ) (b : Bool) → pos a +ℤ (if b then pos 1 else pos 0) ≡ pos (a + (if b then 1 else 0))
unfolding ◌+ℤ◌
add_flag a b = ground arith

civil_date_in_era-march_date :
    (e day : ℕ)
    → day < 146097
    → let d = march_date (year_in_era day + 400 * e) (day - year_start (year_in_era day)) in
      civil_date_in_era (pos e) day ≡ (pos d.0, d.1, d.2)
unfolding civil_date_in_era
civil_date_in_era-march_date e day h =
    let y = year_in_era day in
    let year : pos y +ℤ scale (pos e) 400 ≡ pos (y + 400 * e) = unfold ◌+ℤ◌ scale in ground arith in
    let start : day - (365 * y + y / 4 - y / 100) ≡ day - year_start y =
      let small = (year_start-year_in_era day h).2 in omega arith in
    let n = day - year_start y in
    rw year (
      rw start (
        ap (λ w. (w, month_of (month_index n), n - days_before (month_index n) + 1))
          (add_flag (y + 400 * e) (leb (month_of (month_index n)) 2))))

pub civil_date_from_days-march_day :
    (n : ℕ) → let d = march_day (n + 719468) in civil_date_from_days (pos n) ≡ (pos d.0, d.1, d.2)
unfolding civil_date_from_days
civil_date_from_days-march_day n =
    let z = n + 719468 in
    let shifted : pos n +ℤ pos 719468 ≡ pos z = unfold ◌+ℤ◌ in ground arith in
    let era : div_trunc (round_to_era (pos z)) 146097 ≡ pos (z / 146097) =
      unfold div_trunc in refl in
    let within : pos_part (pos z -ℤ scale (pos (z / 146097)) 146097) ≡ z % 146097 =
      unfold ◌-ℤ◌ scale in ground arith in
    rw shifted
      (rw era (rw within (civil_date_in_era-march_date (z / 146097) (z % 146097) (omega arith))))

calendar-march_day : (n : ℕ) → calendar n ≡ march_day (n + 719468)
unfolding calendar
calendar-march_day zero = refl
calendar-march_day (suc n) =
    let e : suc n + 719468 ≡ n + 719468 + 1 = omega arith in
    rw (calendar-march_day n, next_day-march_day (n + 719468), e) refl

-- The computed date of a day from 1970 on is the one that the Gregorian calendar reaches when it is
-- followed day by day from 1 January 1970.
pub civil_date_from_days-calendar :
    (n : ℕ) → civil_date_from_days (pos n) ≡ (pos (calendar n).0, (calendar n).1, (calendar n).2)
civil_date_from_days-calendar n =
    civil_date_from_days-march_day n
    ∙ ap (λ (d : ℕ × ℕ × ℕ). (pos d.0, d.1, d.2)) (sym (calendar-march_day n))
