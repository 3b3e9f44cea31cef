-- ===== src/Fuzz/Values.antt =====
-- The encoded values that a fuzz input selects and the responses that carry them
-- (fuzz/fuzz_targets/support.rs), and the targets encoded_envelope.rs, aead_envelope.rs and
-- aead_ccm_envelope.rs. `none` is a panic.

use gmcrypto_envelope_lite.Base.{
  ℕ, zero, suc, ◌+◌, ◌-◌, ◌%◌, ◌==◌, Option, some, none, [], ◌∷◌, length, replicate, is_empty, beq,
  if◌then◌else◌,
}
use gmcrypto_envelope_lite.Bytes.{Bytes, ◌and_then◌}
use gmcrypto_envelope_lite.Text.{Text, codes, utf8}
use gmcrypto_envelope_lite.Text.Decode.{from_utf8}
use gmcrypto_envelope_lite.Error.{Fallible}
use gmcrypto_envelope_lite.Auth.Context as AuthContext
use gmcrypto_envelope_lite.Config.Types.{AeadAlgorithm}
use gmcrypto_envelope_lite.Core.{Core}
use gmcrypto_envelope_lite.Message.Types.{SecureEnvelope, ResponseParts}
use gmcrypto_envelope_lite.Message.Parts
use gmcrypto_envelope_lite.Envelope.Shared.{unwrap_or}
use gmcrypto_envelope_lite.Client.Calls
use gmcrypto_envelope_lite.Client.Calls.{SecureClient}
use gmcrypto_envelope_lite.Fuzz.Framing.{framed, fields, selectors, get, at, text}
use gmcrypto_envelope_lite.Fuzz.Outcomes.{expect}
use gmcrypto_envelope_lite.Fuzz.Clients
use gmcrypto_envelope_lite.Fuzz.Clients.{
  auxiliary_limit, cipher_limit, aead_cipher_limit, valid_plaintext, expected_certificate, KeyTools,
}

-- An assignment to an index that is in range.
unfoldable pub set_at : ℕ → ℕ → Bytes → Bytes
set_at n value [] = []
set_at zero value (b ∷ bs) = value ∷ bs
set_at (suc n) value (b ∷ bs) = b ∷ set_at n value bs

abbrev mutated : Bytes → ℕ → Bytes
mutated value index =
    set_at index (if unwrap_or (get value index) 0 == b'A' then b'B' else b'A') value

-- The result of `String::from_utf8`, on which `expect` is called.
unfoldable pub mutate : Text → Bytes → Option Text
mutate valid raw =
    let value = utf8 valid in
    from_utf8
      (if is_empty value then value else mutated value (unwrap_or (get raw 0) 0 % length value))

-- The mode that a selector byte asks for.
unfoldable pub select_mode : Option ℕ → ℕ
select_mode none = 0
select_mode (some b) =
    if b == b'v'
    then 0
    else if b == b'r'
    then 1
    else if b == b'b'
    then 2
    else if b == b'm'
    then 3
    else b % 4

unfoldable pub select_value : Option ℕ → Option ℕ → Bytes → Text → ℕ → Option Text
unfolding select_mode
select_value mode boundary raw valid limit =
    let m = select_mode mode in
    if m == 0
    then some valid
    else if m == 1
    then some (text raw)
    else if m == 2
    then some (replicate (limit - 1 + unwrap_or boundary b'0' % 3) b'A')
    else mutate valid raw

-- What `encoded_values` and `aead_encoded_values_for` share, by the limit of the cipher: signature,
-- wrapped key and cipher.
unfoldable pub encoded_values_with : ℕ → Bytes → SecureEnvelope → Option (Text × Text × Text)
encoded_values_with limit input envelope =
    let s = selectors input in
    let parts = fields input in
    select_value (get s 0) (get s 3) (at parts 0) envelope.signature auxiliary_limit
    and_then λ signature.
        (select_value (get s 1) (get s 4) (at parts 1) envelope.wrapped_session_key auxiliary_limit
          and_then λ wrapped.
              (select_value (get s 2) (get s 5) (at parts 2) envelope.cipher limit
                and_then λ cipher. some (signature, wrapped, cipher)))

-- What an input and a valid envelope make.
abbrev pub Selection : Type 0
Selection = Bytes → SecureEnvelope → Option (Text × Text × Text)

-- `encoded_values`, from the valid envelope.
abbrev pub encoded_values : Selection
encoded_values input envelope = encoded_values_with cipher_limit input envelope

abbrev pub aead_encoded_values_for : Selection
aead_encoded_values_for input envelope = encoded_values_with aead_cipher_limit input envelope

unfoldable pub encoded_certificate_claim : Bytes → Text
encoded_certificate_claim input =
    let claim = at (framed 4 input) 3 in if is_empty claim then expected_certificate else text claim

unfoldable pub envelope_response_parts : Text × Text × Text → Bytes → ResponseParts
unfolding encoded_certificate_claim
envelope_response_parts (signature, wrapped_key, cipher) input =
    Parts.response
      ((codes "X-Fuzz-Response-Signature", signature)
        ∷ (codes "X-Fuzz-Response-Wrapped-Key", wrapped_key)
        ∷ (codes "X-Fuzz-Response-Remote-Signing-Certificate", encoded_certificate_claim input)
        ∷ [])
      cipher

module _ (core : Core) where
  -- `valid_envelope`, `aead_valid_envelope` and `ccm_valid_envelope`, of a client that was made.
  unfoldable pub valid_envelope : SecureClient core → core.Rng → Option SecureEnvelope × core.Rng
  valid_envelope client r =
      let (sealed, r') = Calls.seal core client valid_plaintext AuthContext.legacy r in
      (expect sealed, r')

  -- What the client answers to the response that the input describes.
  abbrev pub run_open :
      Selection → Bytes → SecureClient core → Option SecureEnvelope → Option (Fallible Bytes)
  run_open values input client none = none
  run_open values input client (some envelope) = values input envelope and_then λ parts.
      some (Calls.open_response core client (envelope_response_parts parts input) 0).0

  abbrev pub run_made :
      Selection → Bytes → Option (SecureClient core) → core.Rng → Option (Fallible Bytes)
  run_made values input none r = none
  run_made values input (some client) r = run_open values input client (valid_envelope client r).0

-- The input of the assertion, fuzz/corpus/encoded_envelope/full_valid_open, with its line feed.
abbrev pub full_valid : Bytes
full_valid = codes "vvv000|0:|0:|0:\n"

-- The assertion on what `open_response` returned.
abbrev pub assert_full : Bytes → Fallible Bytes → Option (Unit {0})
assert_full input opened =
    if beq input full_valid
    then (expect opened and_then λ p. if beq p valid_plaintext then some tt else none)
    else some tt

module _ (core : Core) (tools : KeyTools core) where
  -- What `open_response` returns in the target encoded_envelope.rs.
  unfoldable pub encoded_opened : Bytes → core.Rng → Option (Fallible Bytes)
  encoded_opened input r = run_made core encoded_values input (Clients.client core tools) r

  -- The target of encoded_envelope.rs.
  unfoldable pub encoded_target : Bytes → core.Rng → Option (Unit {0})
  encoded_target input r = encoded_opened input r and_then assert_full input

  -- What `open_response` returns in the targets aead_envelope.rs and aead_ccm_envelope.rs.
  unfoldable pub aead_opened : AeadAlgorithm → Bytes → core.Rng → Option (Fallible Bytes)
  aead_opened algorithm input r =
      run_made core aead_encoded_values_for input (Clients.aead_client_with core tools algorithm) r

  -- The targets of aead_envelope.rs and aead_ccm_envelope.rs.
  unfoldable pub aead_target : AeadAlgorithm → Bytes → core.Rng → Option (Unit {0})
  aead_target algorithm input r = aead_opened algorithm input r and_then assert_full input
