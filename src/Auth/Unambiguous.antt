-- ===== src/Auth/Unambiguous.antt =====
-- No two different inputs of src/auth.rs have the same signed bytes or the same additional data.
use gmcrypto_envelope_lite.Base.{
  ℕ, ◌+◌, ◌<◌, ◌≡◌, ◌≢◌, refl, sym, ap, ◌∙◌, arith, [], ◌∷◌, ◌++◌, append_assoc, length, ok,
  Bool-cases, inl, inr, ltb→lt, append_inj,
}
use gmcrypto_envelope_lite.Bytes.{
  Bytes, word_bound, to_be_bytes, be_bytes, length-be_bytes, be_bytes-inj,
}
use gmcrypto_envelope_lite.Auth.Types.{
  AuthenticationMode, legacy_plaintext, context_bound, ContextKind, legacy, bound,
  AuthenticationContext,
}
use gmcrypto_envelope_lite.Auth.Mode.{aead_aad_label, authentication_input, aead_aad}
use gmcrypto_envelope_lite.Auth.Transcript.{
  framed, fits_word, bound_transcript, transcript, authentication_input_lem, aad_bytes, aad_layout,
  aead_aad_lem,
}

-- A framed field is read off the front of a byte string in one way only.
pub framed-inj :
    (a b s t : Bytes)
    → length a < word_bound
    → length b < word_bound
    → framed a ++ s ≡ framed b ++ t
    → (a ≡ b) × (s ≡ t)
framed-inj a b s t ha hb e =
    let regrouped : to_be_bytes (length a) ++ (a ++ s) ≡ to_be_bytes (length b) ++ (b ++ t) =
      sym (append_assoc (to_be_bytes (length a)) a s)
      ∙ e
      ∙ append_assoc (to_be_bytes (length b)) b t in
    let parts =
      append_inj (to_be_bytes (length a)) (to_be_bytes (length b)) (a ++ s) (b ++ t)
        (length-be_bytes 8 (length a) ∙ sym (length-be_bytes 8 (length b))) regrouped in
    append_inj a b s t (be_bytes-inj 8 (length a) (length b) ha hb parts.0) parts.1

-- The same without a rest.
pub framed-inj_last :
    (a b : Bytes) → length a < word_bound → length b < word_bound → framed a ≡ framed b → a ≡ b
framed-inj_last a b ha hb e = (framed-inj a b [] [] ha hb (ap (λ r. r ++ []) e)).0

-- What a successful context-bound transcript looks like.
transcript_inv :
    (d c p t : Bytes)
    → transcript (context_bound d) (bound c) p ≡ ok t
    → (length d < word_bound)
      × (length c < word_bound)
      × (length p < word_bound)
      × (t ≡ bound_transcript d c p)
transcript_inv [] c p t e = cc
transcript_inv (x ∷ d) c p t e =
    elim (Bool-cases (fits_word (25 + length (x ∷ d) + length c + length p))) [
      | inr big ↦ let bad = rw big at e in cc
      | inl fit ↦
          let good = rw fit at e in
          let h = ltb→lt _ _ fit in (omega arith, omega arith, omega arith, cc)
    ]

-- Two context-bound transcripts with the same bytes have the same domain separator, the same
-- protocol context and the same plaintext.
pub authentication_input-inj :
    (d₁ d₂ c₁ c₂ p₁ p₂ : Bytes) {t : Bytes}
    → authentication_input (context_bound d₁) (record { kind = bound c₁ }) p₁ ≡ ok t
    → authentication_input (context_bound d₂) (record { kind = bound c₂ }) p₂ ≡ ok t
    → (d₁ ≡ d₂) × (c₁ ≡ c₂) × (p₁ ≡ p₂)
authentication_input-inj d₁ d₂ c₁ c₂ p₁ p₂ {t} e₁ e₂ =
    let i₁ =
      transcript_inv d₁ c₁ p₁ t
        (sym (authentication_input_lem (context_bound d₁) (record { kind = bound c₁ }) p₁) ∙ e₁) in
    let i₂ =
      transcript_inv d₂ c₂ p₂ t
        (sym (authentication_input_lem (context_bound d₂) (record { kind = bound c₂ }) p₂) ∙ e₂) in
    let same : bound_transcript d₁ c₁ p₁ ≡ bound_transcript d₂ c₂ p₂ = sym i₁.3 ∙ i₂.3 in
    let a =
      framed-inj d₁ d₂ (framed c₁ ++ framed p₁) (framed c₂ ++ framed p₂) i₁.0 i₂.0 (cc same) in
    let b = framed-inj c₁ c₂ (framed p₁) (framed p₂) i₁.1 i₂.1 a.1 in
    (a.0, b.0, framed-inj_last p₁ p₂ i₁.2 i₂.2 b.1)

-- The fields that additional data binds, read off the mode and the context.
abbrev domain_of : AuthenticationMode → Bytes
domain_of legacy_plaintext = []
domain_of (context_bound d) = d

abbrev bound_of : ContextKind → Bytes
bound_of legacy = []
bound_of (bound c) = c

-- What successful additional data looks like.
data Aad (m : AuthenticationMode) (k : ContextKind) (h t : Bytes) : Type 0 where
  laid_out :
      length h < word_bound
      → length (domain_of m) < word_bound
      → length (bound_of k) < word_bound
      → t ≡ framed aead_aad_label ++ (framed h ++ (framed (domain_of m) ++ framed (bound_of k)))
      → Aad m k h t

-- The two parts that must agree.
data Agree : AuthenticationMode → ContextKind → Type 0 where
  both_legacy : Agree legacy_plaintext legacy
  both_bound : (x : ℕ) (d c : Bytes) → Agree (context_bound (x ∷ d)) (bound c)

aad_bytes_inv :
    (m : AuthenticationMode) (k : ContextKind) (h t : Bytes)
    → aad_bytes h (domain_of m) (bound_of k) ≡ ok t
    → Aad m k h t
aad_bytes_inv m k h t e =
    elim (Bool-cases (fits_word (66 + length h + length (domain_of m) + length (bound_of k)))) [
      | inr big ↦ let bad = rw big at e in cc
      | inl fit ↦
          let good = rw fit at e in
          let small = ltb→lt _ _ fit in laid_out (omega arith) (omega arith) (omega arith) (cc)
    ]

aad_layout_inv :
    (m : AuthenticationMode) (k : ContextKind) (h t : Bytes)
    → aad_layout m k h ≡ ok t
    → Agree m k × Aad m k h t
aad_layout_inv legacy_plaintext legacy h t e =
    (both_legacy, aad_bytes_inv legacy_plaintext legacy h t e)
aad_layout_inv legacy_plaintext (bound c) h t e = cc
aad_layout_inv (context_bound []) k h t e = cc
aad_layout_inv (context_bound (x ∷ d)) legacy h t e = cc
aad_layout_inv (context_bound (x ∷ d)) (bound c) h t e =
    (both_bound x d c, aad_bytes_inv (context_bound (x ∷ d)) (bound c) h t e)

Agree-inj :
    {m n : AuthenticationMode} {k l : ContextKind}
    → Agree m k
    → Agree n l
    → domain_of m ≡ domain_of n
    → bound_of k ≡ bound_of l
    → (m ≡ n) × (k ≡ l)
Agree-inj both_legacy both_legacy e f = (refl, refl)
Agree-inj both_legacy (both_bound x d c) e f = absurd (cc e)
Agree-inj (both_bound x d c) both_legacy e f = absurd (cc e)
Agree-inj (both_bound x d c) (both_bound y d' c') e f = (cc e, cc f)

Aad-inj :
    (m n : AuthenticationMode) (k l : ContextKind) (h g t : Bytes)
    → Aad m k h t
    → Aad n l g t
    → (h ≡ g) × (domain_of m ≡ domain_of n) × (bound_of k ≡ bound_of l)
Aad-inj m n k l h g t (laid_out hh hd hk e) (laid_out hg hd' hl e') =
    let a =
      framed-inj aead_aad_label aead_aad_label
        (framed h ++ (framed (domain_of m) ++ framed (bound_of k)))
        (framed g ++ (framed (domain_of n) ++ framed (bound_of l))) (omega arith) (omega arith)
        (sym e ∙ e') in
    let b =
      framed-inj h g (framed (domain_of m) ++ framed (bound_of k))
        (framed (domain_of n) ++ framed (bound_of l)) hh hg a.1 in
    let c =
      framed-inj (domain_of m) (domain_of n) (framed (bound_of k)) (framed (bound_of l)) hd hd'
        b.1 in
    (b.0, c.0, framed-inj_last (bound_of k) (bound_of l) hk hl c.1)

-- Equal additional data means equal modes with their domains, equal contexts and equal frame
-- headers, also across the legacy and the context-bound mode.
pub aead_aad-inj :
    (m n : AuthenticationMode) (k l : AuthenticationContext) (h g : Bytes) {t : Bytes}
    → aead_aad m k h ≡ ok t
    → aead_aad n l g ≡ ok t
    → (m ≡ n) × (k ≡ l) × (h ≡ g)
aead_aad-inj m n k l h g {t} e f =
    let i = aad_layout_inv m k.kind h t (sym (aead_aad_lem m k h) ∙ e) in
    let j = aad_layout_inv n l.kind g t (sym (aead_aad_lem n l g) ∙ f) in
    let same = Aad-inj m n k.kind l.kind h g t i.1 j.1 in
    let kinds = Agree-inj i.0 j.0 same.1 same.2 in
    (kinds.0, ap (λ x. record { kind = x }) kinds.1, same.0)

first_bytes :
    (m : AuthenticationMode) (k : ContextKind) (h t d c p : Bytes)
    → Aad m k h t
    → t ≢ bound_transcript d c p
unfolding be_bytes
first_bytes m k h t d c p (laid_out _ _ _ e) same =
    let clash : framed aead_aad_label ++ (framed h ++ (framed (domain_of m) ++ framed (bound_of k)))
        ≡ bound_transcript d c p =
      sym e ∙ same in
    cc clash

-- Additional data is never a context-bound transcript: their first bytes differ.
pub aead_aad-ne-authentication_input :
    (m : AuthenticationMode) (k : AuthenticationContext) (h d c p : Bytes) {t u : Bytes}
    → aead_aad m k h ≡ ok t
    → authentication_input (context_bound d) (record { kind = bound c }) p ≡ ok u
    → t ≢ u
aead_aad-ne-authentication_input m k h d c p {t} {u} e f same =
    let i = aad_layout_inv m k.kind h t (sym (aead_aad_lem m k h) ∙ e) in
    let j =
      transcript_inv d c p u
        (sym (authentication_input_lem (context_bound d) (record { kind = bound c }) p) ∙ f) in
    first_bytes m k.kind h t d c p i.1 (same ∙ j.3)
