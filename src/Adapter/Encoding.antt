-- ===== src/Adapter/Encoding.antt =====
-- What the context encodings of src/adapter.rs accept and produce.
use gmcrypto_envelope_lite.Base.{
  ◌<◌, ◌≡◌, ◌≢◌, ◌↔◌, sym, ◌∙◌, arith, false, ◌∷◌, ◌++◌, append_assoc, ok, is_empty, All, beq_iff,
}
use gmcrypto_envelope_lite.Bytes.{word_bound, to_be_bytes}
use gmcrypto_envelope_lite.Text.{Text, trim, utf8, len, char_bound}
use gmcrypto_envelope_lite.Text.Laws.{utf8-inj}
use gmcrypto_envelope_lite.Auth.Types.{AuthenticationContext, bound}
use gmcrypto_envelope_lite.Auth.Context
use gmcrypto_envelope_lite.Auth.Transcript.{framed}
use gmcrypto_envelope_lite.Auth.Unambiguous.{framed-inj, framed-inj_last}
use gmcrypto_envelope_lite.Adapter.Context.{
  require_exact_trim, push_length_prefixed, bound_context, encode_request_context,
  encode_response_context,
}

-- A text that is not blank, has no white space at its ends and fits a length prefix.
pub record IsExact (t : Text) : Type 0 where
  pub solid : is_empty (trim t) ≡ false
  pub exact : t ≡ trim t
  pub small : len t < word_bound

-- `0x01 || 0x01 || u64be(operation_len) || operation || u64be(request_id_len) || request_id`
abbrev pub request_layout : Text → Text → AuthenticationContext
request_layout operation request_id = record {
  kind = bound (1 ∷ 1 ∷ (framed (utf8 operation) ++ framed (utf8 request_id)));
}

-- `0x01 || 0x02 || u64be(request_id_len) || request_id`
abbrev pub response_layout : Text → AuthenticationContext
response_layout request_id = record { kind = bound (1 ∷ 2 ∷ framed (utf8 request_id)) }

-- The request context is encoded exactly when operation and request identifier are nonblank without
-- white space at their ends and below 2^64 bytes, and is then the documented layout.
pub encode_request_context_iff :
    (operation request_id : Text) (c : AuthenticationContext)
    → (encode_request_context operation request_id ≡ ok c)
      ↔ (IsExact operation × IsExact request_id × (c ≡ request_layout operation request_id))
unfolding encode_request_context require_exact_trim push_length_prefixed bound_context
    Context.context_bound
encode_request_context_iff operation request_id c = ground (
  arith,
  beq_iff operation (trim operation),
  beq_iff request_id (trim request_id),
  append_assoc (framed (utf8 operation)) (to_be_bytes (len request_id)) (utf8 request_id),
)

-- The response context is encoded exactly when the request identifier is nonblank without white
-- space at its ends and below 2^64 bytes, and is then the documented layout.
pub encode_response_context_iff :
    (request_id : Text) (c : AuthenticationContext)
    → (encode_response_context request_id ≡ ok c)
      ↔ (IsExact request_id × (c ≡ response_layout request_id))
unfolding encode_response_context require_exact_trim push_length_prefixed bound_context
    Context.context_bound
encode_response_context_iff request_id c = ground (arith, beq_iff request_id (trim request_id))

-- Equal request contexts come from the same operation and the same request identifier, all of them
-- made of Unicode scalar values.
pub encode_request_context-inj :
    (o₁ o₂ r₁ r₂ : Text) {c : AuthenticationContext}
    → All (λ x. x < char_bound) o₁
    → All (λ x. x < char_bound) o₂
    → All (λ x. x < char_bound) r₁
    → All (λ x. x < char_bound) r₂
    → encode_request_context o₁ r₁ ≡ ok c
    → encode_request_context o₂ r₂ ≡ ok c
    → (o₁ ≡ o₂) × (r₁ ≡ r₂)
encode_request_context-inj o₁ o₂ r₁ r₂ {c} ho₁ ho₂ hr₁ hr₂ e₁ e₂ =
    let i₁ = (encode_request_context_iff o₁ r₁ c).0 e₁ in
    let i₂ = (encode_request_context_iff o₂ r₂ c).0 e₂ in
    let same : framed (utf8 o₁) ++ framed (utf8 r₁) ≡ framed (utf8 o₂) ++ framed (utf8 r₂) =
      cc (i₁.2, i₂.2) in
    let parts =
      framed-inj (utf8 o₁) (utf8 o₂) (framed (utf8 r₁)) (framed (utf8 r₂)) i₁.0.small i₂.0.small
        same in
    (
      utf8-inj o₁ o₂ ho₁ ho₂ parts.0,
      utf8-inj r₁ r₂ hr₁ hr₂ (framed-inj_last (utf8 r₁) (utf8 r₂) i₁.1.small i₂.1.small parts.1),
    )

-- A request context never equals a response context.
pub encode_request_context-ne-encode_response_context :
    (operation request_id other : Text) {c d : AuthenticationContext}
    → encode_request_context operation request_id ≡ ok c
    → encode_response_context other ≡ ok d
    → c ≢ d
encode_request_context-ne-encode_response_context operation request_id other {c} {d} e f same =
    let i = (encode_request_context_iff operation request_id c).0 e in
    let j = (encode_response_context_iff other d).0 f in
    let clash : request_layout operation request_id ≡ response_layout other =
      sym i.2 ∙ same ∙ j.1 in
    cc clash
