-- ===== src/Message/Stamp.antt =====
-- What `format_utc_timestamp` of src/message.rs prints.
use gmcrypto_envelope_lite.Base.{
  ℕ, ◌+◌, ◌*◌, ◌/◌, ◌%◌, ◌^◌, ◌<◌, ◌≤◌, ◌≡◌, refl, sym, ap, subst, ◌∙◌, arith, lt→ltb, ◌∷◌, ◌++◌,
  append_inj, ok,
}
use gmcrypto_envelope_lite.Text.{Text}
use gmcrypto_envelope_lite.Message.Time.{zero_padded, timestamp, format_utc_timestamp, Duration}
use gmcrypto_envelope_lite.Message.Digits.{
  digits, zero_padded-digits, value, value-zero_padded, length-zero_padded,
}
use gmcrypto_envelope_lite.Message.Calendar.{
  calendar, calendar-IsDate, calendar-inj, days_in_month-short,
}
use gmcrypto_envelope_lite.Message.Era.{civil_date_from_days-calendar}

zero_padded-inj :
    (w m n : ℕ) → m < 10 ^ 20 → n < 10 ^ 20 → zero_padded w m ≡ zero_padded w n → m ≡ n
zero_padded-inj w m n hm hn e =
    sym (value-zero_padded w m hm) ∙ ap value e ∙ value-zero_padded w n hn

-- The fields of a timestamp, within the widths that they are printed at.
pub record Fields : Type 0 where
  pub year : ℕ
  pub month : ℕ
  pub day : ℕ
  pub hour : ℕ
  pub minute : ℕ
  pub second : ℕ
  pub micros : ℕ

pub record Fit (f : Fields) : Type 0 where
  pub year : f.year < 10000
  pub month : f.month < 100
  pub day : f.day < 100
  pub hour : f.hour < 100
  pub minute : f.minute < 100
  pub second : f.second < 100
  pub micros : f.micros < 1000000

abbrev pub print : Fields → Text
print f = timestamp f.year f.month f.day f.hour f.minute f.second f.micros

-- Two texts with a first part of the same width and a separator.
part_inj :
    (w m n c : ℕ) (s t : Text)
    → m < 10 ^ w
    → n < 10 ^ w
    → 1 ≤ w
    → 10 ^ w ≤ 10 ^ 20
    → zero_padded w m ++ (c ∷ s) ≡ zero_padded w n ++ (c ∷ t)
    → (m ≡ n) × (s ≡ t)
part_inj w m n c s t hm hn one few e =
    let wide = length-zero_padded w m hm one ∙ sym (length-zero_padded w n hn one) in
    let parts = append_inj (zero_padded w m) (zero_padded w n) (c ∷ s) (c ∷ t) wide e in
    (zero_padded-inj w m n (omega arith) (omega arith) parts.0, cc (parts.1))

-- Timestamps with the same text have the same fields.
print-inj : (f g : Fields) → Fit f → Fit g → print f ≡ print g → f ≡ g
unfolding timestamp
print-inj f g hf hg e =
    let a = part_inj 4 f.year g.year b'-' _ _ hf.year hg.year (omega arith) (omega arith) e in
    let b =
      part_inj 2 f.month g.month b'-' _ _ hf.month hg.month (omega arith) (omega arith) (a.1) in
    let c = part_inj 2 f.day g.day b'-' _ _ hf.day hg.day (omega arith) (omega arith) (b.1) in
    let d = part_inj 2 f.hour g.hour b'.' _ _ hf.hour hg.hour (omega arith) (omega arith) (c.1) in
    let i =
      part_inj 2 f.minute g.minute b'.' _ _ hf.minute hg.minute (omega arith) (omega arith) (d.1) in
    let j =
      part_inj 2 f.second g.second b'.' _ _ hf.second hg.second (omega arith) (omega arith) (i.1) in
    let k =
      zero_padded-inj 6 f.micros g.micros (let x = hf.micros in omega arith)
        (let x = hg.micros in omega arith) (j.1) in
    cc (a.0, b.0, c.0, d.0, i.0, j.0, k)

-- The calendar date and the time of day of a time since the epoch.
abbrev pub fields_of : Duration → Fields
fields_of t =
    let date = calendar (t.as_secs / 86400) in
    let s = t.as_secs % 86400 in
    record {
      year = date.0;
      month = date.1;
      day = date.2;
      hour = s / 3600;
      minute = s % 3600 / 60;
      second = s % 60;
      micros = t.subsec_micros;
    }

-- Microseconds below a second, and a year of four digits.
pub record IsPrintable (t : Duration) : Type 0 where
  pub micros : t.subsec_micros < 1000000
  pub days : t.as_secs / 86400 < 2 ^ 63
  pub year : (calendar (t.as_secs / 86400)).0 < 10000

fields_of-Fit : (t : Duration) → IsPrintable t → Fit (fields_of t)
fields_of-Fit t h =
    let date = calendar-IsDate (t.as_secs / 86400) in
    let short = days_in_month-short (fields_of t).year (fields_of t).month in
    record {
      year = h.year;
      month = let m = date.month in omega arith;
      day = let d = date.day in omega arith;
      hour = omega arith;
      minute = omega arith;
      second = omega arith;
      micros = h.micros;
    }

format-eq-print : (t : Duration) → IsPrintable t → format_utc_timestamp t ≡ ok (print (fields_of t))
unfolding format_utc_timestamp
format-eq-print t h =
    rw (lt→ltb (t.as_secs / 86400) (2 ^ 63) h.days)
      (rw (civil_date_from_days-calendar (t.as_secs / 86400)) refl)

-- The layout YYYY-MM-DD-hh.mm.ss.uuuuuu of a date, a time of day and microseconds.
abbrev pub layout : ℕ × ℕ × ℕ → ℕ → ℕ → ℕ → ℕ → Text
layout (year, month, day) hour minute second micros =
    digits 4 year
    ++ (b'-'
        ∷ (digits 2 month
            ++ (b'-'
                ∷ (digits 2 day
                    ++ (b'-'
                        ∷ (digits 2 hour
                            ++ (b'.'
                                ∷ (digits 2 minute
                                    ++ (b'.'
                                        ∷ (digits 2 second ++ (b'.' ∷ digits 6 micros)))))))))))

print-layout :
    (f : Fields)
    → Fit f
    → print f ≡ layout (f.year, f.month, f.day) f.hour f.minute f.second f.micros
unfolding timestamp
print-layout f h =
    rw
      (
        zero_padded-digits 4 f.year h.year (let x = h.year in omega arith) (omega arith),
        zero_padded-digits 2 f.month h.month (let x = h.month in omega arith) (omega arith),
        zero_padded-digits 2 f.day h.day (let x = h.day in omega arith) (omega arith),
        zero_padded-digits 2 f.hour h.hour (let x = h.hour in omega arith) (omega arith),
        zero_padded-digits 2 f.minute h.minute (let x = h.minute in omega arith) (omega arith),
        zero_padded-digits 2 f.second h.second (let x = h.second in omega arith) (omega arith),
        zero_padded-digits 6 f.micros h.micros (let x = h.micros in omega arith) (omega arith),
      )
      refl

-- The time at this hour, minute and second of a day after 1 January 1970 prints as the date that the
-- Gregorian calendar reaches on that day, the hour, the minute, the second and the microseconds, in
-- decimal digits as YYYY-MM-DD-hh.mm.ss.uuuuuu, where the year has at most four digits, the
-- microseconds are below a second and the day fits 63 bits.
pub format_utc_timestamp_lem :
    (day hour minute second micros : ℕ)
    → hour < 24
    → minute < 60
    → second < 60
    → micros < 1000000
    → day < 2 ^ 63
    → (calendar day).0 < 10000
    → format_utc_timestamp (record {
      as_secs = 86400 * day + 3600 * hour + 60 * minute + second;
      subsec_micros = micros;
    })
      ≡ ok (layout (calendar day) hour minute second micros)
format_utc_timestamp_lem day hour minute second micros hh hm hs hu small four =
    let secs = 86400 * day + 3600 * hour + 60 * minute + second in
    let t : Duration = record { as_secs = secs; subsec_micros = micros } in
    let d : secs / 86400 ≡ day = omega arith in
    let h : secs % 86400 / 3600 ≡ hour = omega arith in
    let m : secs % 86400 % 3600 / 60 ≡ minute = omega arith in
    let s : secs % 86400 % 60 ≡ second = omega arith in
    let printable : IsPrintable t = record {
      micros = hu;
      days = omega arith;
      year = subst (λ n. (calendar n).0 < 10000) (sym d) four;
    } in
    format-eq-print t printable
    ∙ ap ok (print-layout (fields_of t) (fields_of-Fit t printable) ∙ rw (h, m, s, d) refl)

fields_of-inj : (t u : Duration) → fields_of t ≡ fields_of u → t ≡ u
fields_of-inj t u e =
    let days = calendar-inj (t.as_secs / 86400) (u.as_secs / 86400) (cc e) in
    let hour : t.as_secs % 86400 / 3600 ≡ u.as_secs % 86400 / 3600 = cc e in
    let minute : t.as_secs % 86400 % 3600 / 60 ≡ u.as_secs % 86400 % 3600 / 60 = cc e in
    let second : t.as_secs % 86400 % 60 ≡ u.as_secs % 86400 % 60 = cc e in
    let micros : t.subsec_micros ≡ u.subsec_micros = cc e in
    let secs : t.as_secs ≡ u.as_secs = omega arith in cc (secs, micros)

-- Two times that print alike have the same seconds and the same microseconds, where their years have
-- at most four digits, their days fit 63 bits and their microseconds are below a second.
pub format_utc_timestamp-inj :
    (t u : Duration)
    → IsPrintable t
    → IsPrintable u
    → format_utc_timestamp t ≡ format_utc_timestamp u
    → t ≡ u
format_utc_timestamp-inj t u ht hu e =
    let same : print (fields_of t) ≡ print (fields_of u) =
      cc (format-eq-print t ht, format-eq-print u hu, e) in
    fields_of-inj t u
      (print-inj (fields_of t) (fields_of u) (fields_of-Fit t ht) (fields_of-Fit u hu) same)
