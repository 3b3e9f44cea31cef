-- ===== src/Tests/Time.antt =====
-- The theorems on dates and timestamps, on concrete days.
use gmcrypto_envelope_lite.Base.{◌≡◌, refl, arith, ok, ◌<◌}
use gmcrypto_envelope_lite.Base.Int.{pos}
use gmcrypto_envelope_lite.Message.Time.{Duration, civil_date_from_days, format_utc_timestamp}
use gmcrypto_envelope_lite.Message.Calendar.{calendar, next_day, days_in_month, is_leap}
use gmcrypto_envelope_lite.Message.Era
use gmcrypto_envelope_lite.Message.Stamp
use gmcrypto_envelope_lite.Message.Stamp.{IsPrintable, layout}
use gmcrypto_envelope_lite.Text.{codes}

civil_date_from_days-calendar_example :
    civil_date_from_days (pos 59) ≡ (pos (calendar 59).0, (calendar 59).1, (calendar 59).2)
civil_date_from_days-calendar_example = Era.civil_date_from_days-calendar 59

-- 1 March 1970, 00:00:05.000007
abbrev march : Duration
march = record { as_secs = 5097605; subsec_micros = 7 }

march-IsPrintable : IsPrintable march
unfolding calendar next_day days_in_month is_leap
march-IsPrintable = record { micros = omega arith; days = omega arith; year = omega arith }

march_layout : (calendar 59).0 < 10000
unfolding calendar next_day days_in_month is_leap
march_layout = omega arith

format_utc_timestamp_lem_example : format_utc_timestamp march ≡ ok (layout (calendar 59) 0 0 5 7)
format_utc_timestamp_lem_example =
    Stamp.format_utc_timestamp_lem 59 0 0 5 7 (omega arith) (omega arith) (omega arith)
      (omega arith) (omega arith) march_layout

-- 1 March 1970, 00:00:05.000007 in digits.
march_text : layout (calendar 59) 0 0 5 7 ≡ codes "1970-03-01-00.00.05.000007"
unfolding calendar next_day days_in_month is_leap
march_text = refl

format_utc_timestamp-inj_example : march ≡ march
format_utc_timestamp-inj_example =
    Stamp.format_utc_timestamp-inj march march march-IsPrintable march-IsPrintable refl
