-- ===== src/Envelope/Aead/RoundTrip.antt =====
-- An AEAD envelope (src/envelope_crypto/aead.rs) that is sealed for a peer opens there, and only
-- under the algorithm that sealed it.
use gmcrypto_envelope_lite.Base.{
  ℕ, ◌+◌, ◌-◌, ◌^◌, ◌≤◌, ◌<◌, ◌≡◌, refl, subst, arith, ◌++◌, append_assoc, some, true, ok, ok_or,
  ok_or-eq-ok, >>=-eq-ok, ltb, ltb→le, Bool-cases, inl, inr, length, length-append, length-take,
  length-drop, take, drop, take-append-drop, take-append_length, drop-append_length,
}
use gmcrypto_envelope_lite.Bytes.{Bytes, saturating_add}
use gmcrypto_envelope_lite.Error.{encryption}
use gmcrypto_envelope_lite.Auth.Types.{AuthenticationContext}
use gmcrypto_envelope_lite.Auth.Mode.{authentication_input, aead_aad}
use gmcrypto_envelope_lite.Config.Types.{ClientConfig, AeadAlgorithm, sm4_gcm, sm4_ccm}
use gmcrypto_envelope_lite.Core.{Core}
use gmcrypto_envelope_lite.Core.Laws.{Aead}
use gmcrypto_envelope_lite.Keys.Types.{KeyMaterial}
use gmcrypto_envelope_lite.Message.Types.{SecureEnvelope}
use gmcrypto_envelope_lite.Envelope.Shared.{session_key_bytes, base64_len-guard}
use gmcrypto_envelope_lite.Envelope.Peers.{Peers, encoded_short}
use gmcrypto_envelope_lite.Envelope.Aead.Frame.{
  nonce_bytes, tag_bytes, frame_header_bytes, frame_overhead_bytes, split_ciphertext_and_tag,
  aead_encrypt, aead_decrypt,
}
use gmcrypto_envelope_lite.Envelope.Aead.Seal.{frame_header, seal}
use gmcrypto_envelope_lite.Envelope.Aead.Open.{open_envelope}
use gmcrypto_envelope_lite.Envelope.Aead.Sealed.{Sealed, seal-Sealed}
use gmcrypto_envelope_lite.Envelope.Aead.Sound.{
  IsFrame, parts_of, Decoded, Authorised, aead_open_envelope_iff,
}

-- Cutting the tag off and putting it back.
split_ciphertext_and_tag_inv :
    (j c t : Bytes)
    → split_ciphertext_and_tag j ≡ some (c, t)
    → (c ++ t ≡ j) × (length c + tag_bytes ≡ length j) × (length t ≡ tag_bytes)
unfolding split_ciphertext_and_tag
split_ciphertext_and_tag_inv j c t e = elim (Bool-cases (ltb (length j) tag_bytes)) [
  | inl short ↦ absurd (cc (rw short at e))
  | inr long ↦
      let parts : (take (length j - tag_bytes) j ≡ c) × (drop (length j - tag_bytes) j ≡ t) =
        ground arith in
      let enough = ltb→le _ _ long in
      rw (← parts.0, ← parts.1)
        (
          take-append-drop (length j - tag_bytes) j,
          omega (arith, length-take (length j - tag_bytes) j (omega arith)),
          omega (arith, length-drop (length j - tag_bytes) j),
        )
]

-- Under either algorithm decryption undoes encryption, the ciphertext is as long as the plaintext,
-- and the tag has 16 bytes.
pub aead_decrypt-aead_encrypt :
    (core : Core) (aead : Aead core) (algorithm : AeadAlgorithm) (key nonce aad p c t : Bytes)
    → aead_encrypt core algorithm key nonce aad p ≡ ok (c, t)
    → (aead_decrypt core algorithm key nonce aad c t ≡ ok p)
      × (length c ≡ length p)
      × (length t ≡ tag_bytes)
unfolding aead_encrypt aead_decrypt
aead_decrypt-aead_encrypt core aead sm4_gcm key nonce aad p c t e =
    let u = aead.gcm_undo key nonce aad p (ok_or-eq-ok _ encryption e) in (rw u.0, u.1, u.2)
aead_decrypt-aead_encrypt core aead sm4_ccm key nonce aad p c t e =
    let (j, made, cut) =
      >>=-eq-ok (ok_or (core.ccm_encrypt key nonce aad p tag_bytes) encryption) _ e in
    let u = aead.ccm_undo key nonce aad p tag_bytes (ok_or-eq-ok _ encryption made) in
    let s = split_ciphertext_and_tag_inv j c t (ok_or-eq-ok _ encryption cut) in
    (rw (s.0, u.0), omega arith, s.2)

take-append : {n : ℕ} (xs ys : Bytes) → length xs ≡ n → take n (xs ++ ys) ≡ xs
take-append xs ys e = rw (← e) (take-append_length xs ys)

drop-append : {n : ℕ} (xs ys : Bytes) → length xs ≡ n → drop n (xs ++ ys) ≡ ys
drop-append xs ys e = rw (← e) (drop-append_length xs ys)

-- A frame that is put together is taken apart again.
pub parts_of-append :
    (h c t : Bytes)
    → length h ≡ frame_header_bytes
    → length t ≡ tag_bytes
    → parts_of ((h ++ c) ++ t) ≡ record { header = h; ciphertext = c; tag = t }
parts_of-append h c t hh ht =
    let cut : length c ≡ length (c ++ t) - tag_bytes = omega (arith, length-append c t) in
    rw (
      append_assoc h c t,
      take-append h (c ++ t) hh,
      drop-append h (c ++ t) hh,
      take-append c t cut,
      drop-append c t cut,
    )

module _ (core : Core) (sender : ClientConfig) (sender_keys : KeyMaterial core)
    (receiver : ClientConfig) (receiver_keys : KeyMaterial core)
    (peers : Peers core sender sender_keys receiver receiver_keys) (aead : Aead core)
    (algorithm : AeadAlgorithm) (context : AuthenticationContext) (p : Bytes)
    (within : length p ≤ receiver.max_plaintext_bytes) (addressable : length p < 2 ^ 63) where
  module _ (envelope : SecureEnvelope)
      (s : Sealed core sender sender_keys context algorithm p envelope) where
    frame : Bytes
    frame = (frame_header algorithm s.nonce ++ s.ciphertext) ++ s.tag

    undone :
        (aead_decrypt core algorithm s.session_key s.nonce s.aad s.ciphertext s.tag ≡ ok p)
        × (length s.ciphertext ≡ length p)
        × (length s.tag ≡ tag_bytes)
    undone =
        aead_decrypt-aead_encrypt core aead algorithm s.session_key s.nonce s.aad p s.ciphertext
          s.tag s.encrypted

    header_length : length (frame_header algorithm s.nonce) ≡ frame_header_bytes
    unfolding frame_header
    header_length = omega (arith, peers.fills.full nonce_bytes s.r₁ s.r₂ s.drawn_nonce)

    frame_length : length frame ≡ length p + frame_overhead_bytes
    unfolding frame
    frame_length = omega (
      arith,
      header_length,
      undone,
      length-append (frame_header algorithm s.nonce ++ s.ciphertext) s.tag,
      length-append (frame_header algorithm s.nonce) s.ciphertext,
    )

    Sealed-Decoded :
        Decoded core receiver receiver_keys context algorithm envelope frame s.wrapped s.signature
    unfolding frame
    Sealed-Decoded =
        let key = peers.fills.full session_key_bytes s.r₀ s.r₁ s.drawn in
        let wrap = peers.wraps.unwrap s.session_key s.r₂ s.r₃ s.wrapping in
        let sign = peers.signs.verify sender.local_signer_id s.input s.r₃ s.r₄ s.signing in
        rw s.result (record {
          cipher_size =
              let guard =
                base64_len-guard (length frame)
                  (saturating_add receiver.max_plaintext_bytes frame_overhead_bytes)
                  (ground (arith, frame_length)) (omega (arith, frame_length)) in
              let size = peers.base64.len-encode frame in omega arith;
          wrapped_size = encoded_short core s.wrapped peers.base64 (omega arith);
          signature_size = encoded_short core s.signature peers.base64 (omega arith);
          frame_bytes = peers.base64.decode-encode frame;
          wrapped_bytes = peers.base64.decode-encode s.wrapped;
          signature_bytes = peers.base64.decode-encode s.signature;
        })

    Sealed-IsFrame : IsFrame algorithm receiver.max_plaintext_bytes frame
    Sealed-IsFrame = record {
      long_enough = omega (arith, frame_length);
      version = unfold frame frame_header in refl;
      algorithm_id = unfold frame frame_header in refl;
      within = omega (arith, frame_length);
    }

    Sealed-Authorised :
        Authorised core receiver receiver_keys context algorithm
          (parts_of frame)
          s.wrapped
          s.signature
          p
    unfolding frame
    Sealed-Authorised =
        rw
          (parts_of-append (frame_header algorithm s.nonce) s.ciphertext s.tag header_length
            undone.2)
          (record {
            session_key = s.session_key;
            key_bytes = (peers.wraps.unwrap s.session_key s.r₂ s.r₃ s.wrapping).0;
            key_length = peers.fills.full session_key_bytes s.r₀ s.r₁ s.drawn;
            aad = s.aad;
            aad_bytes =
                subst (λ m. aead_aad m context (frame_header algorithm s.nonce) ≡ ok s.aad)
                  peers.mode s.bound;
            decrypted = unfold frame_header in undone.0;
            transcript = s.input;
            input =
                subst (λ m. authentication_input m context p ≡ ok s.input) peers.mode
                  s.authenticated;
            verified =
                subst
                  (λ id.
                    core.verify_with_id receiver_keys.remote_verification id s.input s.signature
                    ≡ true)
                  peers.signer
                  (peers.signs.verify sender.local_signer_id s.input s.r₃ s.r₄ s.signing).0;
          })

  -- What one peer seals under an AEAD the other opens to the same plaintext: with the same mode and
  -- algorithm, the expected signer and matching keys, for every plaintext within the receiver's
  -- limit, under the documented behaviour of the primitives.
  pub aead_open_envelope-seal :
      (envelope : SecureEnvelope) (r s : core.Rng)
      → seal core sender sender_keys p context algorithm r ≡ (ok envelope, s)
      → open_envelope core receiver receiver_keys envelope context algorithm ≡ ok p
  aead_open_envelope-seal envelope r s e =
      let sealed = seal-Sealed core sender sender_keys context algorithm p envelope r s e in
      (aead_open_envelope_iff core receiver receiver_keys context algorithm envelope p).1 (record {
        frame = frame envelope sealed;
        wrapped = sealed.wrapped;
        signature = sealed.signature;
        decoded = Sealed-Decoded envelope sealed;
        framed = Sealed-IsFrame envelope sealed;
        authorised = Sealed-Authorised envelope sealed;
      })
