-- ===== src/Message/Time.antt =====
-- Timestamps of src/message.rs. The numbers that `format_utc_timestamp` prints are not negative; the
-- 20 digits of fuel are enough for every 64-bit number.
use gmcrypto_envelope_lite.Base.{
  ℕ, zero, suc, ◌+◌, ◌-◌, ◌*◌, ◌/◌, ◌%◌, ◌^◌, not, ltb, leb, [], ◌∷◌, ◌++◌, ok, ◌>>◌, fail_if,
  length, replicate, if◌then◌else◌,
}
use gmcrypto_envelope_lite.Base.Int.{ℤ, pos, negsuc, pos_part, ◌+ℤ◌, ◌-ℤ◌, scale, div_trunc}
use gmcrypto_envelope_lite.Text.{Text}
use gmcrypto_envelope_lite.Error.{Fallible, serialization}

-- `std::time::Duration`, as far as it is read: whole seconds and microseconds below a second.
pub record Duration : Type 0 where
  pub as_secs : ℕ
  pub subsec_micros : ℕ

abbrev pub round_to_era : ℤ → ℤ
round_to_era (pos n) = pos n
round_to_era (negsuc n) = negsuc n -ℤ pos 146096

-- The second half of `civil_date_from_days`: year, month and day of a day of an era.
unfoldable pub civil_date_in_era : ℤ → ℕ → ℤ × ℕ × ℕ
civil_date_in_era era day_of_era =
    let year_of_era =
      (day_of_era - day_of_era / 1460 + day_of_era / 36524 - day_of_era / 146096) / 365 in
    let year = pos year_of_era +ℤ scale era 400 in
    let day_of_year = day_of_era - (365 * year_of_era + year_of_era / 4 - year_of_era / 100) in
    let month_prime = (5 * day_of_year + 2) / 153 in
    let day = day_of_year - (153 * month_prime + 2) / 5 + 1 in
    let month = if ltb month_prime 10 then month_prime + 3 else month_prime - 9 in
    (year +ℤ (if leb month 2 then pos 1 else pos 0), month, day)

-- The day of the era is not negative, nor is anything computed from it.
unfoldable pub civil_date_from_days : ℤ → ℤ × ℕ × ℕ
unfolding civil_date_in_era
civil_date_from_days days_since_epoch =
    let shifted = days_since_epoch +ℤ pos 719468 in
    let era = div_trunc (round_to_era shifted) 146097 in
    civil_date_in_era era (pos_part (shifted -ℤ scale era 146097))

-- The decimal digits of a number.
unfoldable pub decimal : ℕ → ℕ → Text
decimal zero n = []
decimal (suc fuel) n =
    let rest = decimal fuel (n / 10) in
    if ltb n 10 then (b'0' + n) ∷ [] else rest ++ (b'0' + n % 10) ∷ []

-- `{n:0width}`
unfoldable pub zero_padded : ℕ → ℕ → Text
unfolding decimal
zero_padded width n = let digits = decimal 20 n in replicate (width - length digits) b'0' ++ digits

unfoldable pub timestamp : ℕ → ℕ → ℕ → ℕ → ℕ → ℕ → ℕ → Text
unfolding zero_padded
timestamp year month day hour minute second micros =
    zero_padded 4 year
    ++ (b'-'
        ∷ (zero_padded 2 month
            ++ (b'-'
                ∷ (zero_padded 2 day
                    ++ (b'-'
                        ∷ (zero_padded 2 hour
                            ++ (b'.'
                                ∷ (zero_padded 2 minute
                                    ++ (b'.'
                                        ∷ (zero_padded 2 second
                                            ++ (b'.' ∷ zero_padded 6 micros)))))))))))

unfoldable pub format_utc_timestamp : Duration → Fallible Text
unfolding timestamp
format_utc_timestamp since_epoch = do
  let seconds = since_epoch.as_secs
  let days = seconds / 86400
  fail_if (not (ltb days (2 ^ 63))) serialization
  let seconds_of_day = seconds % 86400
  let hour = seconds_of_day / 3600
  let minute = seconds_of_day % 3600 / 60
  let second = seconds_of_day % 60
  let date = civil_date_from_days (pos days)
  ok (timestamp (pos_part date.0) date.1 date.2 hour minute second since_epoch.subsec_micros)
