-- ===== src/Adapter/Named.antt =====
-- What `HeaderProtocolAdapter::parse_response` of src/adapter.rs accepts, by the names of the headers:
-- the collision check makes the tests of its loop exclude each other.
use mathlib.Core.Path.{fun_ext}
use gmcrypto_envelope_lite.Base.{
  ◌≡◌, ◌↔◌, refl, sym, ap, subst, ◌∙◌, arith, Bool, ◌&&◌, false, Bool-cases, inl, inr, Option, some,
  none, List, [], ◌∷◌, ◌++◌, if◌then◌else◌, ok, All, beq, beq-eq, any,
}
use gmcrypto_envelope_lite.Text.{Text, eq_ignore_ascii_case, to_ascii_lowercase}
use gmcrypto_envelope_lite.Header.Name.{HeaderName, name_eq}
use gmcrypto_envelope_lite.Header.Laws.{IsName}
use gmcrypto_envelope_lite.Text.Laws.{eq_ignore_ascii_case-beq}
use gmcrypto_envelope_lite.Message.Types.{ResponseParts, ParsedResponse}
use gmcrypto_envelope_lite.Adapter.Types.{
  CipherLocation, HeaderAuthentication, HeaderSchema, HeaderSchemaBuilder, body, header, legacy,
  context_bound,
}
use gmcrypto_envelope_lite.Adapter.Builder
use gmcrypto_envelope_lite.Adapter.Mapping.{
  Slot, signature, wrapped_session_key, remote_signing_certificate_id, request_id, cipher, target,
  parse_response, is_named, is_context_bound, cipher_slot,
}
use gmcrypto_envelope_lite.Adapter.Responses.{goes_to, values_for}
use gmcrypto_envelope_lite.Adapter.Schema.{AllDistinct}
use gmcrypto_envelope_lite.Adapter.Table.{response_header, place_header, bound_header}
use gmcrypto_envelope_lite.Adapter.Given.{IsPlace}
use gmcrypto_envelope_lite.Adapter.Accepted.{schema_build_iff, Accepts-distinct, Accepts-names}
use gmcrypto_envelope_lite.Adapter.Fields.{Values}
use gmcrypto_envelope_lite.Adapter.Parsed.{Parses, parse_response-Parses_iff}

-- This is the header's name, in any casing.
abbrev is_for : Option HeaderName → Text → Bool
is_for none name = false
is_for (some n) name = eq_ignore_ascii_case name n.original

-- The values of all headers with this name.
abbrev values_of : Option HeaderName → List (Text × Text) → List Text
values_of o [] = []
values_of o ((name, value) ∷ rest) = (if is_for o name then value ∷ [] else []) ++ values_of o rest

-- What the headers of a response carry for each field of the schema.
abbrev pub carried : HeaderSchema → ResponseParts → Values
carried schema response t = values_of (response_header schema t) response.headers

named-canonical :
    (t : Text) (n : HeaderName)
    → IsName n
    → eq_ignore_ascii_case t n.original ≡ beq (to_ascii_lowercase t) n.canonical
named-canonical t n h =
    eq_ignore_ascii_case-beq t n.original ∙ ap (beq (to_ascii_lowercase t)) (sym h.folded)

-- A text is not the name of two headers.
excludes :
    (t : Text) (m n : HeaderName)
    → IsName m
    → IsName n
    → name_eq m n ≡ false
    → (eq_ignore_ascii_case t m.original && eq_ignore_ascii_case t n.original) ≡ false
excludes t m n hm hn apart = elim (Bool-cases (beq (to_ascii_lowercase t) m.canonical)) [
  | inr other ↦ rw (named-canonical t m hm, other) refl
  | inl same ↦
      rw
        (
          named-canonical t m hm,
          same,
          named-canonical t n hn,
          beq-eq (to_ascii_lowercase t) m.canonical same,
          apart,
        )
        refl
]

-- The tests of `target`, by the names of a schema.
abbrev first_of :
    (a w c : HeaderName) → CipherLocation → HeaderAuthentication → HeaderName → Text → Option Slot
first_of a w c place kind id t =
    if is_named t a
    then some signature
    else if is_named t w
    then some wrapped_session_key
    else if is_named t c
    then some remote_signing_certificate_id
    else if is_context_bound kind && is_named t id
    then some request_id
    else cipher_slot place t

-- Pairwise exclusion of the names of a list.
abbrev Excluding : Text → List HeaderName → Type 0
Excluding t [] = Unit
Excluding t (n ∷ ns) = All (λ m. (is_named t m && is_named t n) ≡ false) ns × Excluding t ns

excludes_each :
    (t : Text) (n : HeaderName) (ns : List HeaderName)
    → IsName n
    → All IsName ns
    → any (λ m. name_eq m n) ns ≡ false
    → All (λ m. (is_named t m && is_named t n) ≡ false) ns
excludes_each t n [] hn hns apart = tt
excludes_each t n (m ∷ ns) hn hns apart =
    let split : (name_eq m n ≡ false) × (any (λ k. name_eq k n) ns ≡ false) = ground arith in
    (excludes t m n hns.0 hn split.0, excludes_each t n ns hn hns.1 split.1)

distinct-Excluding :
    (t : Text) (ns : List HeaderName) → AllDistinct ns → All IsName ns → Excluding t ns
distinct-Excluding t [] d h = tt
distinct-Excluding t (n ∷ ns) d h =
    (excludes_each t n ns h.0 h.1 d.0, distinct-Excluding t ns d.1 h.1)

-- The header of each variable, by the names of a schema.
abbrev header_of :
    (a w c : HeaderName)
    → CipherLocation
    → HeaderAuthentication
    → HeaderName
    → Slot
    → Option HeaderName
header_of a w c place kind id signature = some a
header_of a w c place kind id wrapped_session_key = some w
header_of a w c place kind id remote_signing_certificate_id = some c
header_of a w c place kind id cipher = place_header place
header_of a w c place kind id request_id = bound_header kind id

goes_to-first_of :
    (a w c : HeaderName) (place : CipherLocation) (kind : HeaderAuthentication) (id : HeaderName)
    (t : Text) (u : Slot)
    → Excluding t (a ∷ w ∷ c ∷ (Builder.cipher_names place ++ Builder.request_id_names kind id))
    → goes_to u (first_of a w c place kind id t) ≡ is_for (header_of a w c place kind id u) t
goes_to-first_of a w c body legacy id t u h = ground arith
goes_to-first_of a w c body context_bound id t u h = ground arith
goes_to-first_of a w c (header name) legacy id t u h = ground arith
goes_to-first_of a w c (header name) context_bound id t u h = ground arith

header_of-response :
    (schema : HeaderSchema) (u : Slot)
    → header_of schema.response_signature_header schema.response_wrapped_key_header
        schema.response_remote_signing_certificate_header schema.response_cipher
        schema.authentication schema.request_id_header u
      ≡ response_header schema u
header_of-response schema signature = refl
header_of-response schema wrapped_session_key = refl
header_of-response schema remote_signing_certificate_id = refl
header_of-response schema request_id = refl
header_of-response schema cipher = refl

module _ (schema : HeaderSchema) (distinct : AllDistinct (Builder.response_names schema))
    (names : All IsName (Builder.response_names schema)) where
  goes_to-target :
      (t : Text) (u : Slot) → goes_to u (target schema t) ≡ is_for (response_header schema u) t
  unfolding target
  goes_to-target t u =
      goes_to-first_of schema.response_signature_header schema.response_wrapped_key_header
        schema.response_remote_signing_certificate_header schema.response_cipher
        schema.authentication schema.request_id_header t u
        (distinct-Excluding t (Builder.response_names schema) distinct names)
      ∙ ap (λ o. is_for o t) (header_of-response schema u)

  values_for-values_of :
      (u : Slot) (hs : List (Text × Text))
      → values_for schema u hs ≡ values_of (response_header schema u) hs
  unfolding values_for
  values_for-values_of u [] = refl
  values_for-values_of u ((name, value) ∷ rest) = rw (goes_to-target name u) (
      ap
        (λ (l : List Text).
          (if is_for (response_header schema u) name then value ∷ [] else []) ++ l)
        (values_for-values_of u rest))

-- Under a schema that `build` returned, and whose cipher header is a name that `HeaderName::new` made,
-- a response parses exactly when it has just one header with the schema's name, in any casing, for the
-- signature, one for the wrapped key and one for the certificate; the cipher is the body, or in the
-- one header with its name; and under context-bound authentication one header has the name of the
-- request identifier, to which the response is bound. Each of these is legal and not blank, and the
-- parsed parts are these texts without white space at their ends; headers with other names do not
-- count.
pub parse_response_iff :
    (b : HeaderSchemaBuilder) (schema : HeaderSchema) (response : ResponseParts)
    (parsed : ParsedResponse)
    → Builder.build b ≡ ok schema
    → IsPlace schema.response_cipher
    → (parse_response schema response ≡ ok parsed)
      ↔ Parses schema (carried schema response) response.body parsed
parse_response_iff b schema response parsed built place =
    let accepted = (schema_build_iff b schema).0 built in
    let distinct = Accepts-distinct b schema accepted in
    let names = Accepts-names b schema accepted place in
    subst
      (λ (v : Values).
        (parse_response schema response ≡ ok parsed) ↔ Parses schema v response.body parsed)
      (fun_ext (λ u. values_for-values_of schema distinct names u response.headers))
      (parse_response-Parses_iff schema response parsed)
