-- ===== src/Text/Utf8.antt =====
-- `str::from_utf8` undoes `str::as_bytes`: a check of the decoder that the key loaders call.
use mathlib.Core.Option
use gmcrypto_envelope_lite.Base.{
  ℕ, ◌+◌, ◌/◌, ◌%◌, ◌<◌, ◌≤◌, ◌≡◌, refl, ap, ◌∙◌, arith, true, All, Bool-cases, inl, inr, ltb,
  ltb→lt, ltb→le, some, List, [], ◌∷◌, ◌++◌,
}
use gmcrypto_envelope_lite.Text.{Text, utf8_char, utf8}
use gmcrypto_envelope_lite.Text.Decode.{
  between, first_byte, next_byte, decode_from, from_utf8, is_scalar,
}

pub decode_from-one :
    (c : ℕ) (bs : List ℕ)
    → c < 0x80
    → decode_from between (c ∷ bs) ≡ Option.map (λ rest. c ∷ rest) (decode_from between bs)
unfolding decode_from first_byte next_byte
decode_from-one c bs h = ground arith

decode_from-two :
    (c : ℕ) (bs : List ℕ)
    → 0x80 ≤ c
    → c < 0x800
    → decode_from between ((0xc0 + c / 0x40) ∷ (0x80 + c % 0x40) ∷ bs)
      ≡ Option.map (λ rest. c ∷ rest) (decode_from between bs)
unfolding decode_from first_byte next_byte
decode_from-two c bs low h = ground arith

decode_from-three :
    (c : ℕ) (bs : List ℕ)
    → 0x800 ≤ c
    → c < 0x10000
    → is_scalar c ≡ true
    → decode_from between ((0xe0 + c / 0x1000) ∷ (0x80 + c / 0x40 % 0x40) ∷ (0x80 + c % 0x40) ∷ bs)
      ≡ Option.map (λ rest. c ∷ rest) (decode_from between bs)
unfolding decode_from first_byte next_byte
decode_from-three c bs low high scalar = ground arith

decode_from-four :
    (c : ℕ) (bs : List ℕ)
    → 0x10000 ≤ c
    → is_scalar c ≡ true
    → decode_from between (
        (0xf0 + c / 0x40000)
        ∷ (0x80 + c / 0x1000 % 0x40)
        ∷ (0x80 + c / 0x40 % 0x40)
        ∷ (0x80 + c % 0x40)
        ∷ bs)
      ≡ Option.map (λ rest. c ∷ rest) (decode_from between bs)
unfolding decode_from first_byte next_byte
decode_from-four c bs low scalar = ground arith

decode_from-utf8_char :
    (c : ℕ) (bs : List ℕ)
    → is_scalar c ≡ true
    → decode_from between (utf8_char c ++ bs)
      ≡ Option.map (λ rest. c ∷ rest) (decode_from between bs)
unfolding utf8_char
decode_from-utf8_char c bs scalar = elim (Bool-cases (ltb c 0x80)) [
  | inl one ↦ rw one (decode_from-one c bs (ltb→lt c 0x80 one))
  | inr more ↦ elim (Bool-cases (ltb c 0x800)) [
    | inl two ↦ rw (more, two) (decode_from-two c bs (ltb→le c 0x80 more) (ltb→lt c 0x800 two))
    | inr more' ↦ elim (Bool-cases (ltb c 0x10000)) [
      | inl three ↦
          rw (more, more', three)
            (decode_from-three c bs (ltb→le c 0x800 more') (ltb→lt c 0x10000 three) scalar)
      | inr four ↦ rw (more, more', four) (decode_from-four c bs (ltb→le c 0x10000 four) scalar)
    ]
  ]
]

-- What `as_bytes` encodes, `from_utf8` decodes: every text of Unicode scalar values comes back.
pub from_utf8-utf8 : (s : Text) → All (λ c. is_scalar c ≡ true) s → from_utf8 (utf8 s) ≡ some s
unfolding utf8 decode_from
from_utf8-utf8 [] h = refl
from_utf8-utf8 (c ∷ s) h =
    decode_from-utf8_char c (utf8 s) h.0 ∙ ap (Option.map (λ rest. c ∷ rest)) (from_utf8-utf8 s h.1)
