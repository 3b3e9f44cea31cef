-- ===== src/Text/Laws.antt =====
-- Laws of the text operations: case-insensitive comparison, trimming, and UTF-8.
use gmcrypto_envelope_lite.Base.{
  ℕ, ◌<◌, ◌≡◌, ◌≢◌, refl, sym, ap, false, List, [], ◌∷◌, ◌++◌, arith, ◌==◌, ◌&&◌, beq, All,
  Bool-cases, inl, inr,
}
use gmcrypto_envelope_lite.Text.{
  Text, char_bound, utf8_char, utf8, is_whitespace, trim_start, trim_end, trim, lower,
  to_ascii_lowercase, eq_ignore_ascii_case,
}

pub eq_ignore_ascii_case-beq :
    (s t : Text) → eq_ignore_ascii_case s t ≡ beq (to_ascii_lowercase s) (to_ascii_lowercase t)
unfolding eq_ignore_ascii_case to_ascii_lowercase
eq_ignore_ascii_case-beq [] [] = refl
eq_ignore_ascii_case-beq [] (d ∷ t) = refl
eq_ignore_ascii_case-beq (c ∷ s) [] = refl
eq_ignore_ascii_case-beq (c ∷ s) (d ∷ t) =
    ap (λ r. lower c == lower d && r) (eq_ignore_ascii_case-beq s t)

-- No leading white space.
abbrev StartsSolid : Text → Type 0
StartsSolid [] = Unit
StartsSolid (c ∷ s) = is_whitespace c ≡ false

trim_start-StartsSolid : (s : Text) → StartsSolid (trim_start s)
unfolding trim_start
trim_start-StartsSolid [] = tt
trim_start-StartsSolid (c ∷ s) = elim (Bool-cases (is_whitespace c)) [
  | inl e ↦ rw e (trim_start-StartsSolid s)
  | inr e ↦ rw e e
]

trim_end_idem : (s : Text) → trim_end (trim_end s) ≡ trim_end s
unfolding trim_end
trim_end_idem [] = refl
trim_end_idem (c ∷ s) = ground (arith, trim_end_idem s)

trim_start-trim_end : (s : Text) → StartsSolid s → trim_start (trim_end s) ≡ trim_end s
unfolding trim_start trim_end
trim_start-trim_end [] h = refl
trim_start-trim_end (c ∷ s) h = rw h (rw h)

-- Trimming twice is trimming once.
pub trim_idem : (s : Text) → trim (trim s) ≡ trim s
unfolding trim
trim_idem s =
    rw (trim_start-trim_end (trim_start s) (trim_start-StartsSolid s))
      (trim_end_idem (trim_start s))

utf8_char-inj :
    (c d : ℕ) (s t : List ℕ)
    → c < char_bound
    → d < char_bound
    → utf8_char c ++ s ≡ utf8_char d ++ t
    → (c ≡ d) × (s ≡ t)
unfolding utf8_char
utf8_char-inj c d s t hc hd e = ground arith

utf8_char-ne-nil : (c : ℕ) (s : List ℕ) → utf8_char c ++ s ≢ []
unfolding utf8_char
utf8_char-ne-nil c s e = ground arith

-- Two texts with the same bytes are the same text.
pub utf8-inj :
    (s t : Text)
    → All (λ c. c < char_bound) s
    → All (λ c. c < char_bound) t
    → utf8 s ≡ utf8 t
    → s ≡ t
unfolding utf8
utf8-inj [] [] hs ht e = refl
utf8-inj [] (d ∷ t) hs ht e = absurd (utf8_char-ne-nil d (utf8 t) (sym e))
utf8-inj (c ∷ s) [] hs ht e = absurd (utf8_char-ne-nil c (utf8 s) e)
utf8-inj (c ∷ s) (d ∷ t) hs ht e =
    let p = utf8_char-inj c d (utf8 s) (utf8 t) hs.0 ht.0 e in cc (p.0, utf8-inj s t hs.1 ht.1 p.1)
