-- ===== src/Tests/Auth.antt =====
-- The theorems on what is signed and bound, at concrete domains and contexts.
use gmcrypto_envelope_lite.Base.{◌≡◌, refl, ok, [], ◌∷◌, ok_value_or}
use gmcrypto_envelope_lite.Bytes.{Bytes, be_bytes}
use gmcrypto_envelope_lite.Auth.Types.{legacy_plaintext, bound, legacy}
use gmcrypto_envelope_lite.Auth.Mode.{
  authentication_input, validate, input_for, aead_aad, bound_fields, aad_of, push_field,
}
use gmcrypto_envelope_lite.Auth.Transcript
use gmcrypto_envelope_lite.Auth.Unambiguous
use gmcrypto_envelope_lite.Tests.Ends.{mode, context, domain, plaintext}

abbrev tag : Bytes
tag = 9 ∷ 9 ∷ []

abbrev header : Bytes
header = 1 ∷ 1 ∷ []

abbrev input : Bytes
input = ok_value_or (authentication_input mode context plaintext) []

abbrev aad : Bytes
aad = ok_value_or (aead_aad mode context header) []

signed : authentication_input mode context plaintext ≡ ok input
unfolding authentication_input validate input_for push_field be_bytes
signed = refl

associated : aead_aad mode context header ≡ ok aad
unfolding aead_aad validate bound_fields aad_of push_field be_bytes
associated = refl

authentication_input_lem_example :
    authentication_input mode context plaintext ≡ Transcript.transcript mode (bound tag) plaintext
authentication_input_lem_example = Transcript.authentication_input_lem mode context plaintext

aead_aad_lem_example :
    aead_aad legacy_plaintext (record { kind = legacy }) header
    ≡ Transcript.aad_layout legacy_plaintext legacy header
aead_aad_lem_example = Transcript.aead_aad_lem legacy_plaintext (record { kind = legacy }) header

authentication_input-inj_example : (domain ≡ domain) × (tag ≡ tag) × (plaintext ≡ plaintext)
authentication_input-inj_example =
    Unambiguous.authentication_input-inj domain domain tag tag plaintext plaintext signed signed

aead_aad-inj_example : (mode ≡ mode) × (context ≡ context) × (header ≡ header)
aead_aad-inj_example =
    Unambiguous.aead_aad-inj mode mode context context header header associated associated
