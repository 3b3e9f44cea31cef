-- ===== src/Fuzz/LossyText.antt =====
-- `String::from_utf8_lossy` keeps what is valid UTF-8: the fuzz inputs that encode a text are read as it.
use gmcrypto_envelope_lite.Base.{
  ℕ, ◌+◌, ◌/◌, ◌%◌, ◌<◌, ◌≤◌, ◌≡◌, refl, ap, ◌∙◌, arith, true, All, Bool-cases, inl, inr, ltb,
  ltb→lt, ltb→le, ◌-◌, ◌*◌, ◌==◌, if◌then◌else◌, List, [], ◌∷◌, ◌++◌,
}
use gmcrypto_envelope_lite.Text.{Text, utf8_char, utf8}
use gmcrypto_envelope_lite.Text.Decode.{is_scalar}
use gmcrypto_envelope_lite.Fuzz.Lossy.{
  at_start, start_byte, follow_byte, lossy_from, from_utf8_lossy,
}

lossy_from-one :
    (c : ℕ) (bs : List ℕ) → c < 0x80 → lossy_from at_start (c ∷ bs) ≡ c ∷ lossy_from at_start bs
unfolding lossy_from start_byte follow_byte
lossy_from-one c bs h = ground arith

lossy_from-two :
    (c : ℕ) (bs : List ℕ)
    → 0x80 ≤ c
    → c < 0x800
    → lossy_from at_start ((0xc0 + c / 0x40) ∷ (0x80 + c % 0x40) ∷ bs) ≡ c ∷ lossy_from at_start bs
unfolding lossy_from start_byte follow_byte
lossy_from-two c bs low h = ground arith

lossy_from-three :
    (c : ℕ) (bs : List ℕ)
    → 0x800 ≤ c
    → c < 0x10000
    → is_scalar c ≡ true
    → lossy_from at_start ((0xe0 + c / 0x1000) ∷ (0x80 + c / 0x40 % 0x40) ∷ (0x80 + c % 0x40) ∷ bs)
      ≡ c ∷ lossy_from at_start bs
unfolding lossy_from start_byte follow_byte
lossy_from-three c bs low high scalar = ground arith

abbrev IsTail : ℕ → Type 0
IsTail b = (0x80 ≤ b) × (b ≤ 0xbf)

-- Behind the first of four bytes.
lossy_from-rest :
    (bits low high b₁ b₂ b₃ : ℕ) (bs : List ℕ)
    → low ≤ b₁
    → b₁ ≤ high
    → IsTail b₂
    → IsTail b₃
    → lossy_from (record { missing = 3; bits = bits; low = low; high = high }) (b₁ ∷ b₂ ∷ b₃ ∷ bs)
      ≡ (((bits * 0x40 + (b₁ - 0x80)) * 0x40 + (b₂ - 0x80)) * 0x40 + (b₃ - 0x80))
        ∷ lossy_from at_start bs
unfolding lossy_from follow_byte
lossy_from-rest bits low high b₁ b₂ b₃ bs l h t₂ t₃ =
    let x = t₂.0 in let y = t₂.1 in let z = t₃.0 in let w = t₃.1 in ground arith

-- The first of four bytes leaves its bits and the range of the second.
start_byte-four :
    (q : ℕ)
    → q ≤ 4
    → start_byte (0xf0 + q) ≡ (
      record {
        missing = 3;
        bits = q;
        low = if q == 0 then 0x90 else 0x80;
        high = if q == 4 then 0x8f else 0xbf;
      },
      [],
    )
unfolding start_byte
start_byte-four q h = ground arith

lossy_from-four :
    (c : ℕ) (bs : List ℕ)
    → 0x10000 ≤ c
    → is_scalar c ≡ true
    → lossy_from at_start (
        (0xf0 + c / 0x40000)
        ∷ (0x80 + c / 0x1000 % 0x40)
        ∷ (0x80 + c / 0x40 % 0x40)
        ∷ (0x80 + c % 0x40)
        ∷ bs)
      ≡ c ∷ lossy_from at_start bs
unfolding lossy_from
lossy_from-four c bs low scalar =
    let bound : c < 0x110000 = ground arith in
    let q = c / 0x40000 in
    let b = 0x80 + c / 0x1000 % 0x40 in
    let above : (if q == 0 then 0x90 else 0x80) ≤ b = ground arith in
    let below : b ≤ (if q == 4 then 0x8f else 0xbf) = ground arith in
    let value : ((q * 0x40 + (b - 0x80)) * 0x40 + (0x80 + c / 0x40 % 0x40 - 0x80)) * 0x40
          + (0x80 + c % 0x40 - 0x80)
        ≡ c =
      omega arith in
    rw (start_byte-four q (omega arith)) (
      lossy_from-rest q _ _ b (0x80 + c / 0x40 % 0x40) (0x80 + c % 0x40) bs above below
        (omega arith, omega arith) (omega arith, omega arith)
      ∙ ap (λ n. n ∷ lossy_from at_start bs) value)

lossy_from-utf8_char :
    (c : ℕ) (bs : List ℕ)
    → is_scalar c ≡ true
    → lossy_from at_start (utf8_char c ++ bs) ≡ c ∷ lossy_from at_start bs
unfolding utf8_char
lossy_from-utf8_char c bs scalar = elim (Bool-cases (ltb c 0x80)) [
  | inl one ↦ rw one (lossy_from-one c bs (ltb→lt c 0x80 one))
  | inr more ↦ elim (Bool-cases (ltb c 0x800)) [
    | inl two ↦ rw (more, two) (lossy_from-two c bs (ltb→le c 0x80 more) (ltb→lt c 0x800 two))
    | inr wide ↦ elim (Bool-cases (ltb c 0x10000)) [
      | inl three ↦
          rw (more, wide, three)
            (lossy_from-three c bs (ltb→le c 0x800 wide) (ltb→lt c 0x10000 three) scalar)
      | inr four ↦ rw (more, wide, four) (lossy_from-four c bs (ltb→le c 0x10000 four) scalar)
    ]
  ]
]

-- What `as_bytes` encodes, `from_utf8_lossy` reads as it was.
pub from_utf8_lossy-utf8 :
    (s : Text) → All (λ c. is_scalar c ≡ true) s → from_utf8_lossy (utf8 s) ≡ s
unfolding utf8 lossy_from
from_utf8_lossy-utf8 [] h = refl
from_utf8_lossy-utf8 (c ∷ s) h =
    lossy_from-utf8_char c (utf8 s) h.0 ∙ ap (λ rest. c ∷ rest) (from_utf8_lossy-utf8 s h.1)
