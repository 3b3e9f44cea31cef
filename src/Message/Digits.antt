-- ===== src/Message/Digits.antt =====
-- The decimal numbers of src/message.rs: what their digits stand for, and that 20 digits of fuel print
-- every 64-bit number.
use gmcrypto_envelope_lite.Base.{
  ℕ, zero, suc, ◌+◌, ◌-◌, ◌*◌, ◌/◌, ◌%◌, ◌^◌, ◌<◌, ◌≤◌, ◌≡◌, ◌≢◌, refl, sym, ap, ◌∙◌, arith, ltb,
  lt→ltb, ltb→lt, ltb→le, append_assoc, Bool-cases, inl, inr, [], ◌∷◌, ◌++◌, length, replicate,
  length-append, length-replicate, All,
}
use native.Mathlib.Nat.{pow-suc}
use gmcrypto_envelope_lite.Text.{Text}
use gmcrypto_envelope_lite.Message.Time.{decimal, zero_padded}

-- The number that decimal digits stand for.
abbrev pub value_from : ℕ → Text → ℕ
value_from n [] = n
value_from n (c ∷ s) = value_from (10 * n + (c - b'0')) s

abbrev pub value : Text → ℕ
value s = value_from 0 s

value_from-append : (n : ℕ) (s t : Text) → value_from n (s ++ t) ≡ value_from (value_from n s) t
value_from-append n [] t = refl
value_from-append n (c ∷ s) t = value_from-append (10 * n + (c - b'0')) s t

value_from-zeros : (k : ℕ) (s : Text) → value_from 0 (replicate k b'0' ++ s) ≡ value_from 0 s
value_from-zeros zero s = refl
value_from-zeros (suc k) s = value_from-zeros k s

-- Digits beyond the number's own do not matter.
pub value-decimal : (fuel n : ℕ) → n < 10 ^ fuel → value (decimal fuel n) ≡ n
unfolding decimal
value-decimal zero n h = omega arith
value-decimal (suc fuel) n h = elim (Bool-cases (ltb n 10)) [
  | inl small ↦ rw small (omega arith)
  | inr large ↦
      let i = value-decimal fuel (n / 10) (omega (arith, pow-suc 10 fuel)) in
      rw large (
        rw (value_from-append 0 (decimal fuel (n / 10)) ((b'0' + n % 10) ∷ []))
          (rw i (omega arith)))
]

-- A number below 10^k has at most k digits.
length-decimal : (fuel k n : ℕ) → n < 10 ^ k → 1 ≤ k → length (decimal fuel n) ≤ k
unfolding decimal
length-decimal zero k n h one = omega arith
length-decimal (suc fuel) zero n h one = absurd (omega arith)
length-decimal (suc fuel) (suc zero) n h one = rw (lt→ltb n 10 h) (omega arith)
length-decimal (suc fuel) (suc (suc k)) n h one = elim (Bool-cases (ltb n 10)) [
  | inl small ↦ rw small (omega arith)
  | inr large ↦
      let i =
        length-decimal fuel (suc k) (n / 10) (omega (arith, pow-suc 10 (suc k))) (omega arith) in
      let l = length-append (decimal fuel (n / 10)) ((b'0' + n % 10) ∷ []) in
      rw large (omega (arith, l))
]

-- A number that fits is printed at just its width, and its digits stand for it.
pub length-zero_padded : (w n : ℕ) → n < 10 ^ w → 1 ≤ w → length (zero_padded w n) ≡ w
unfolding zero_padded
length-zero_padded w n h one =
    let l = length-decimal 20 w n h one in
    let k = w - length (decimal 20 n) in
    let zeros : Text = replicate k b'0' in
    let z : length zeros ≡ k = length-replicate k b'0' in
    omega (arith, length-append zeros (decimal 20 n), z)

pub value-zero_padded : (w n : ℕ) → n < 10 ^ 20 → value (zero_padded w n) ≡ n
unfolding zero_padded
value-zero_padded w n h =
    value_from-zeros (w - length (decimal 20 n)) (decimal 20 n) ∙ value-decimal 20 n h

-- An ASCII digit.
abbrev pub IsDigit : ℕ → Type 0
IsDigit c = (b'0' ≤ c) × (c ≤ b'9')

All-append : (s t : Text) → All IsDigit s → All IsDigit t → All IsDigit (s ++ t)
All-append [] t h k = k
All-append (c ∷ s) t h k = (h.0, All-append s t h.1 k)

pub decimal-IsDigit : (fuel n : ℕ) → All IsDigit (decimal fuel n)
unfolding decimal
decimal-IsDigit zero n = tt
decimal-IsDigit (suc fuel) n = elim (Bool-cases (ltb n 10)) [
  | inl small ↦ rw small ((omega arith, let h = ltb→lt n 10 small in omega arith), tt)
  | inr large ↦ rw large (
      All-append (decimal fuel (n / 10)) ((b'0' + n % 10) ∷ []) (decimal-IsDigit fuel (n / 10))
        ((omega arith, omega arith), tt))
]

pub decimal-ne-nil : (fuel n : ℕ) → decimal (suc fuel) n ≢ []
unfolding decimal
decimal-ne-nil fuel n e = elim (Bool-cases (ltb n 10)) [
  | inl small ↦ cc (rw small at e)
  | inr large ↦
      let l = length-append (decimal fuel (n / 10)) ((b'0' + n % 10) ∷ []) in
      let empty : length (decimal fuel (n / 10) ++ (b'0' + n % 10) ∷ []) ≡ 0 =
        ap length (rw large at e) in
      omega arith
]

-- The last `w` decimal digits of a number, which is how a field of fixed width is read.
abbrev pub digits : ℕ → ℕ → Text
digits zero n = []
digits (suc w) n = digits w (n / 10) ++ (b'0' + n % 10) ∷ []

replicate-last : (k c : ℕ) → replicate k c ++ c ∷ [] ≡ replicate (suc k) c
replicate-last zero c = refl
replicate-last (suc k) c = ap (λ r. c ∷ r) (replicate-last k c)

digits-zero : (w : ℕ) → digits w 0 ≡ replicate w b'0'
digits-zero zero = refl
digits-zero (suc w) = ap (λ (s : Text). s ++ b'0' ∷ []) (digits-zero w) ∙ replicate-last w b'0'

two_digits : (w n : ℕ) → 10 ≤ n → n < 10 ^ suc w → 1 ≤ w
two_digits zero n h b = absurd (omega arith)
two_digits (suc w) n h b = omega arith

padded-digits :
    (fuel w n : ℕ)
    → n < 10 ^ w
    → n < 10 ^ fuel
    → 1 ≤ w
    → 1 ≤ fuel
    → replicate (w - length (decimal fuel n)) b'0' ++ decimal fuel n ≡ digits w n
unfolding decimal
padded-digits zero w n hw hf one some_fuel = absurd (omega arith)
padded-digits (suc fuel) zero n hw hf one some_fuel = absurd (omega arith)
padded-digits (suc fuel) (suc w) n hw hf one some_fuel = elim (Bool-cases (ltb n 10)) [
  | inl small ↦
      let below = ltb→lt n 10 small in
      let none_left : n / 10 ≡ 0 = omega arith in
      let itself : n % 10 ≡ n = omega arith in
      let rest : suc w - 1 ≡ w = omega arith in
      rw (small, rest, none_left, itself, digits-zero w) refl
  | inr large ↦
      let above = ltb→le n 10 large in
      let wide : 1 ≤ w = two_digits w n above hw in
      let fuelled : 1 ≤ fuel = two_digits fuel n above hf in
      let front = decimal fuel (n / 10) in
      let last : Text = (b'0' + n % 10) ∷ [] in
      let l : suc w - length (front ++ last) ≡ w - length front =
        omega (arith, length-append front last) in
      rw (large, l)
        (sym (append_assoc (replicate (w - length front) b'0') front last)
          ∙ ap (λ (s : Text). s ++ last)
              (padded-digits fuel w (n / 10) (omega (arith, pow-suc 10 w))
                (omega (arith, pow-suc 10 fuel)) wide fuelled))
]

-- A number that fits is printed as its last digits.
pub zero_padded-digits : (w n : ℕ) → n < 10 ^ w → n < 10 ^ 20 → 1 ≤ w → zero_padded w n ≡ digits w n
unfolding zero_padded
zero_padded-digits w n hw h20 one = padded-digits 20 w n hw h20 one (omega arith)
