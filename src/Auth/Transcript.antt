-- ===== src/Auth/Transcript.antt =====
-- The exact bytes that src/auth.rs signs and binds, on every branch.
use gmcrypto_envelope_lite.Base.{
  ℕ, ◌+◌, ◌<◌, ◌≡◌, refl, ap, Bool, arith, some, none, [], ◌∷◌, ◌++◌, append_assoc, length, ok, err,
  ◌>>=◌, ltb, if◌then◌else◌, lt→ltb, Bool-cases, inl, inr, ltb→lt,
}
use gmcrypto_envelope_lite.Bytes.{Bytes, word_bound, to_be_bytes, checked_add, ◌and_then◌}
use gmcrypto_envelope_lite.Error.{Error, Fallible, configuration}
use gmcrypto_envelope_lite.Auth.Types.{
  AuthenticationMode, legacy_plaintext, context_bound, ContextKind, legacy, bound,
  AuthenticationContext,
}
use gmcrypto_envelope_lite.Auth.Mode.{
  transcript_version, aead_aad_label, push_field, validate, input_for, authentication_input,
  bound_fields, aad_of, aead_aad,
}

-- A field with its length in front, as 8 bytes in network order.
abbrev pub framed : Bytes → Bytes
framed v = to_be_bytes (length v) ++ v

abbrev pub fits_word : ℕ → Bool
fits_word n = ltb n word_bound

pub push_field_lem :
    (target value : Bytes)
    → length value < word_bound
    → push_field target value ≡ ok (target ++ framed value)
unfolding push_field
push_field_lem target value h =
    rw (lt→ltb _ _ h) (ap ok (append_assoc target (to_be_bytes (length value)) value))

-- `0x01 || u64be(domain_len) || domain || u64be(context_len) || context || u64be(plaintext_len) || plaintext`
abbrev pub bound_transcript : Bytes → Bytes → Bytes → Bytes
bound_transcript d c p = transcript_version ∷ (framed d ++ (framed c ++ framed p))

-- What the documentation of the crate says is signed.
abbrev pub transcript : AuthenticationMode → ContextKind → Bytes → Fallible Bytes
transcript legacy_plaintext legacy p = ok p
transcript legacy_plaintext (bound c) p = err Error.authentication_context
transcript (context_bound []) k p = err (configuration "domain_separator")
transcript (context_bound (x ∷ d)) legacy p = err Error.authentication_context
transcript (context_bound (x ∷ d)) (bound c) p =
    if fits_word (25 + length (x ∷ d) + length c + length p)
    then ok (bound_transcript (x ∷ d) c p)
    else err Error.authentication_context

-- Three checked additions in a row test the sum.
checked_sum :
    (a b c d : ℕ)
    → (checked_add a b and_then (λ n. checked_add n c) and_then (λ n. checked_add n d))
      ≡ (if fits_word (a + b + c + d) then some (a + b + c + d) else none)
checked_sum a b c d = ground arith

push_three :
    (start d c p : Bytes)
    → length d < word_bound
    → length c < word_bound
    → length p < word_bound
    → (push_field start d >>= λ i. push_field i c >>= λ j. push_field j p)
      ≡ ok (start ++ (framed d ++ (framed c ++ framed p)))
push_three start d c p hd hc hp =
    rw
      (
        push_field_lem start d hd,
        push_field_lem (start ++ framed d) c hc,
        push_field_lem ((start ++ framed d) ++ framed c) p hp,
      )
      (simp append_assoc)

input_for_bound :
    (d c p : Bytes)
    → input_for (context_bound d) (bound c) p ≡ (
        if fits_word (25 + length d + length c + length p)
        then ok (bound_transcript d c p)
        else err Error.authentication_context)
unfolding input_for
input_for_bound d c p = elim (Bool-cases (fits_word (25 + length d + length c + length p))) [
  | inl e ↦
      let h = ltb→lt _ _ e in
      rw (checked_sum 25 (length d) (length c) (length p), e)
        (push_three (transcript_version ∷ []) d c p (omega arith) (omega arith) (omega arith))
  | inr e ↦ rw (checked_sum 25 (length d) (length c) (length p), e)
]

kinds :
    (k : ContextKind) (p : Bytes) → input_for legacy_plaintext k p ≡ transcript legacy_plaintext k p
unfolding input_for
kinds legacy p = refl
kinds (bound c) p = refl

bound_kinds :
    (x : ℕ) (d : Bytes) (k : ContextKind) (p : Bytes)
    → input_for (context_bound (x ∷ d)) k p ≡ transcript (context_bound (x ∷ d)) k p
unfolding input_for
bound_kinds x d legacy p = refl
bound_kinds x d (bound c) p = input_for_bound (x ∷ d) c p

-- `authentication_input` returns what is documented on every branch: the plaintext, the versioned
-- transcript, or the error for an empty domain, a context of the other kind, or an excessive size.
pub authentication_input_lem :
    (mode : AuthenticationMode) (context : AuthenticationContext) (p : Bytes)
    → authentication_input mode context p ≡ transcript mode context.kind p
unfolding authentication_input validate
authentication_input_lem legacy_plaintext context p = kinds context.kind p
authentication_input_lem (context_bound []) context p = refl
authentication_input_lem (context_bound (x ∷ d)) context p = bound_kinds x d context.kind p

-- The additional data for a frame header, a domain and a context.
abbrev pub aad_bytes : Bytes → Bytes → Bytes → Fallible Bytes
aad_bytes h d c =
    if fits_word (66 + length h + length d + length c)
    then ok (framed aead_aad_label ++ (framed h ++ (framed d ++ framed c)))
    else err Error.authentication_context

aad_of_lem : (h d c : Bytes) → aad_of h d c ≡ aad_bytes h d c
unfolding aad_of
aad_of_lem h d c = elim (Bool-cases (fits_word (66 + length h + length d + length c))) [
  | inl e ↦
      let small = ltb→lt _ _ e in
      rw (checked_sum 66 (length h) (length d) (length c), e)
        (rw (push_field_lem [] aead_aad_label (omega arith))
          (push_three (framed aead_aad_label) h d c (omega arith) (omega arith) (omega arith)))
  | inr e ↦ rw (checked_sum 66 (length h) (length d) (length c), e)
]

-- The four fields of the additional data, or the error of the same branch as in `transcript`.
abbrev pub aad_layout : AuthenticationMode → ContextKind → Bytes → Fallible Bytes
aad_layout legacy_plaintext legacy h = aad_bytes h [] []
aad_layout legacy_plaintext (bound c) h = err Error.authentication_context
aad_layout (context_bound []) k h = err (configuration "domain_separator")
aad_layout (context_bound (x ∷ d)) legacy h = err Error.authentication_context
aad_layout (context_bound (x ∷ d)) (bound c) h = aad_bytes h (x ∷ d) c

aad_kinds :
    (k : ContextKind) (h : Bytes)
    → (bound_fields legacy_plaintext k >>= λ f. aad_of h f.0 f.1) ≡ aad_layout legacy_plaintext k h
unfolding bound_fields
aad_kinds legacy h = aad_of_lem h [] []
aad_kinds (bound c) h = refl

aad_bound_kinds :
    (x : ℕ) (d : Bytes) (k : ContextKind) (h : Bytes)
    → (bound_fields (context_bound (x ∷ d)) k >>= λ f. aad_of h f.0 f.1)
      ≡ aad_layout (context_bound (x ∷ d)) k h
unfolding bound_fields
aad_bound_kinds x d legacy h = refl
aad_bound_kinds x d (bound c) h = aad_of_lem h (x ∷ d) c

-- `aead_aad` returns the label, the frame header, the domain and the context, each framed by its
-- length, or the error of the branch: empty domain, context of the other kind, excessive size.
pub aead_aad_lem :
    (mode : AuthenticationMode) (context : AuthenticationContext) (h : Bytes)
    → aead_aad mode context h ≡ aad_layout mode context.kind h
unfolding aead_aad validate
aead_aad_lem legacy_plaintext context h = aad_kinds context.kind h
aead_aad_lem (context_bound []) context h = refl
aead_aad_lem (context_bound (x ∷ d)) context h = aad_bound_kinds x d context.kind h
