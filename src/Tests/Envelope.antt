-- ===== src/Tests/Envelope.antt =====
-- The theorems on sealing and opening at a toy connection, in each payload mode.
use gmcrypto_envelope_lite.Base.{
  ◌≡◌, ◌≢◌, ◌↔◌, ◌⊎◌, refl, arith, ok, err, some, [], ◌∷◌, ok_value_or, true,
}
use gmcrypto_envelope_lite.Bytes.{Bytes}
use gmcrypto_envelope_lite.Config.Types.{legacy_cbc, aead, sm4_gcm, sm4_ccm}
use gmcrypto_envelope_lite.Message.Types.{SecureEnvelope}
use gmcrypto_envelope_lite.Bytes.{be_bytes}
use gmcrypto_envelope_lite.Auth.Mode.{
  authentication_input, validate, input_for, aead_aad, bound_fields, aad_of, push_field,
}
use gmcrypto_envelope_lite.Envelope.Dispatch.{seal_in, seal, open_envelope}
use gmcrypto_envelope_lite.Envelope.Shared.{generate_session_key}
use gmcrypto_envelope_lite.Envelope.Aead.Frame.{aead_encrypt, algorithm_byte}
use gmcrypto_envelope_lite.Envelope.Aead.Seal.{frame_header}
use gmcrypto_envelope_lite.Envelope.Aead.Seal as AeadSeal
use gmcrypto_envelope_lite.Envelope.Cbc.Seal as CbcSeal
use gmcrypto_envelope_lite.Envelope.Contract
use gmcrypto_envelope_lite.Envelope.Binding
use gmcrypto_envelope_lite.Envelope.Dispatch.{open_in}
use gmcrypto_envelope_lite.Envelope.Shared.{base64_len, decode_base64, unwrap_session_key}
use gmcrypto_envelope_lite.Envelope.Cbc.Open.{open_parts, padded_cipher_len}
use gmcrypto_envelope_lite.Envelope.Cbc.Open as CbcOpen
use gmcrypto_envelope_lite.Envelope.Cbc.Sound as CbcSound
use gmcrypto_envelope_lite.Envelope.Aead.Open as AeadOpen
use gmcrypto_envelope_lite.Envelope.Aead.Sound as AeadSound
use gmcrypto_envelope_lite.Error.{invalid_envelope, message_too_large}
use gmcrypto_envelope_lite.Text.{utf8}
use gmcrypto_envelope_lite.Auth.Types.{context_bound, bound}
use gmcrypto_envelope_lite.Tests.Toy.{toy, base64_lem, cbc_lem, aead_lem, decode}
use gmcrypto_envelope_lite.Tests.Ends.{config, keys, peers, context, plaintext, domain}

abbrev pub no_envelope : SecureEnvelope
no_envelope = record { cipher = []; wrapped_session_key = []; signature = [] }

abbrev pub gcm_sealed : SecureEnvelope
gcm_sealed = ok_value_or (seal toy (config (aead sm4_gcm)) keys plaintext context 1).0 no_envelope

abbrev cbc_sealed : SecureEnvelope
cbc_sealed = ok_value_or (seal toy (config legacy_cbc) keys plaintext context 1).0 no_envelope

seal_gcm_in :
    AeadSeal.seal toy (config (aead sm4_gcm)) keys plaintext context sm4_gcm 1 ≡ (ok gcm_sealed, 5)
unfolding seal seal_in AeadSeal.seal frame_header generate_session_key aead_encrypt algorithm_byte
    authentication_input validate input_for aead_aad bound_fields aad_of push_field be_bytes
seal_gcm_in = refl

pub seal_gcm : seal toy (config (aead sm4_gcm)) keys plaintext context 1 ≡ (ok gcm_sealed, 5)
unfolding seal seal_in
seal_gcm = seal_gcm_in

seal_cbc : seal toy (config legacy_cbc) keys plaintext context 1 ≡ (ok cbc_sealed, 4)
unfolding seal seal_in CbcSeal.seal generate_session_key authentication_input validate input_for
    push_field be_bytes
seal_cbc = refl

open_envelope-seal_example :
    (open_envelope toy (config legacy_cbc) keys cbc_sealed context 0).0 ≡ ok plaintext
open_envelope-seal_example =
    Contract.open_envelope-seal toy (config legacy_cbc) keys (config legacy_cbc) keys
      (peers legacy_cbc legacy_cbc) cbc_lem aead_lem refl context plaintext (omega arith)
      (omega arith) cbc_sealed 1 4 0 refl seal_cbc

-- The same at the AEAD mode, for the examples that start at an opened envelope.
pub opened_gcm :
    (open_envelope toy (config (aead sm4_gcm)) keys gcm_sealed context 0).0 ≡ ok plaintext
opened_gcm =
    Contract.open_envelope-seal toy (config (aead sm4_gcm)) keys (config (aead sm4_gcm)) keys
      (peers (aead sm4_gcm) (aead sm4_gcm)) cbc_lem aead_lem refl context plaintext (omega arith)
      (omega arith) gcm_sealed 1 5 0 refl seal_gcm

open_envelope-Verified_example :
    Contract.Verified toy (config (aead sm4_gcm)) keys context gcm_sealed plaintext
open_envelope-Verified_example =
    Contract.open_envelope-Verified toy (config (aead sm4_gcm)) keys context gcm_sealed plaintext 0
      opened_gcm

refused :
    (open_envelope toy (config legacy_cbc) keys no_envelope context 0).0 ≡ err invalid_envelope
unfolding open_envelope open_in CbcOpen.open_envelope open_parts padded_cipher_len base64_len utf8
    decode_base64 decode unwrap_session_key
refused = refl

open_envelope_errors_example :
    (invalid_envelope ≡ message_too_large 100) ⊎ (invalid_envelope ≡ invalid_envelope)
open_envelope_errors_example =
    Contract.open_envelope_errors toy (config legacy_cbc) keys context no_envelope 0
      invalid_envelope refused

cbc_open_envelope_iff_example :
    ((CbcOpen.open_envelope toy (config legacy_cbc) keys cbc_sealed context 0).0 ≡ ok plaintext)
    ↔ CbcSound.Opened toy (config legacy_cbc) keys context cbc_sealed plaintext
cbc_open_envelope_iff_example =
    CbcSound.cbc_open_envelope_iff toy (config legacy_cbc) keys context cbc_sealed plaintext 0

aead_open_envelope_iff_example :
    (AeadOpen.open_envelope toy (config (aead sm4_gcm)) keys gcm_sealed context sm4_gcm
      ≡ ok plaintext)
    ↔ AeadSound.Opened toy (config (aead sm4_gcm)) keys context sm4_gcm gcm_sealed plaintext
aead_open_envelope_iff_example =
    AeadSound.aead_open_envelope_iff toy (config (aead sm4_gcm)) keys context sm4_gcm gcm_sealed
      plaintext

seal_pins_algorithm_example :
    AeadOpen.open_envelope toy (config (aead sm4_ccm)) keys gcm_sealed context sm4_ccm
    ≢ ok plaintext
seal_pins_algorithm_example =
    Binding.seal_pins_algorithm toy base64_lem (config (aead sm4_gcm)) (config (aead sm4_ccm)) keys
      keys context context sm4_gcm sm4_ccm plaintext plaintext gcm_sealed 1 5 (λ e. cc) seal_gcm_in

abbrev other_input : Bytes
other_input =
    ok_value_or (authentication_input (context_bound domain) (record { kind = bound [] }) plaintext)
      []

other_signed :
    authentication_input (context_bound domain) (record { kind = bound [] }) plaintext
    ≡ ok other_input
unfolding authentication_input validate input_for push_field be_bytes
other_signed = refl

open_envelope_binds_example :
    (u : Bytes) × (sig : Bytes) × (u ≢ other_input)
    × (toy.base64_decode gcm_sealed.signature ≡ some sig)
    × (toy.verify_with_id 7 (1 ∷ 2 ∷ []) u sig ≡ true)
open_envelope_binds_example =
    Binding.open_envelope_binds toy (config (aead sm4_gcm)) keys domain [] (9 ∷ 9 ∷ []) plaintext
      plaintext other_input gcm_sealed 0 refl other_signed opened_gcm (λ e. cc)
