-- ===== src/Tests/Compact.antt =====
-- The toy operations with signatures of a key and two bytes, and the keys of the fuzz targets:
-- an instance of every law, for the tests.
use gmcrypto_envelope_lite.Base.{
  ℕ, ◌+◌, ◌%◌, ◌≤◌, ◌≡◌, refl, sym, arith, some, [], ◌∷◌, replicate, length, beq, beq_refl,
}
use gmcrypto_envelope_lite.Bytes.{Bytes}
use gmcrypto_envelope_lite.Text.{trim, trim_start, trim_end, is_whitespace}
use gmcrypto_envelope_lite.Header.Value.{is_disallowed_value_character}
use gmcrypto_envelope_lite.Adapter.Fields.{IsField}
use gmcrypto_envelope_lite.Core.{Core}
use gmcrypto_envelope_lite.Core.Laws.{Signs, Available}
use gmcrypto_envelope_lite.Client.Printable.{Printable}
use gmcrypto_envelope_lite.Fuzz.Clients.{KeyTools, test_scalar}
use gmcrypto_envelope_lite.Fuzz.Laws.{Lawful}
use gmcrypto_envelope_lite.Tests.Toy.{
  toy, sum, encode, base64_lem, fills_lem, cbc_lem, aead_lem, wraps_lem,
}

abbrev sign : ℕ → Bytes → Bytes → Bytes
sign key id m = key ∷ sum id % 256 ∷ sum m % 256 ∷ []

abbrev pub compact : Core
compact = record toy {
  sign_with_id = λ key id m r. (some (sign key id m), r + 1);
  verify_with_id = λ key id m s. beq s (sign key id m);
}

abbrev pub tools : KeyTools compact
tools = record {
  from_bytes_be = λ b. some (sum b);
  public_key = λ k. k;
  pkcs8_encrypt = λ k _ _ _ _. some (k ∷ []);
  spki_encode = λ p. p ∷ [];
}

signs_lem : (key : ℕ) → Signs compact key key
signs_lem key = record {
  verify = λ id m r s {sig} e.
      let whole : sign key id m ≡ sig = cc e in
      (rw (sym whole) (beq_refl (sign key id m)), rw (sym whole) (omega arith));
}

pub available_lem : Available compact
available_lem = record {
  fills = λ n r. (replicate n (r % 256), r + 1, refl);
  wraps = λ key m r _. (key ∷ m, r + 1, refl);
  signs = λ key id m r _. (sign key id m, r + 1, refl);
  gcm = λ key nonce aad p _ _ _. (p, _, refl);
  ccm = λ key nonce aad p _ _ _. (_, refl);
}

pub lawful_lem : Lawful compact tools
lawful_lem = record {
  scalar = (sum test_scalar, refl);
  pkcs8 = λ k password salt iv n _. (k ∷ [], refl, refl);
  spki = λ p. refl;
  wraps = λ k. record { unwrap = (wraps_lem k).unwrap };
  signs = signs_lem;
  base64 = record { decode-encode = base64_lem.decode-encode; len-encode = base64_lem.len-encode };
  fills = record { full = fills_lem.full };
  cbc = record { undo = cbc_lem.undo; padded = cbc_lem.padded };
  aead = record { gcm_undo = aead_lem.gcm_undo; ccm_undo = aead_lem.ccm_undo };
  available = available_lem;
}

encoded_lem : (b : Bytes) → 1 ≤ length b → IsField (encode b) (encode b)
unfolding trim trim_start trim_end is_whitespace is_disallowed_value_character
encoded_lem [] h = absurd (omega arith)
encoded_lem (x ∷ b) h = ground arith

pub printable_lem : Printable compact
printable_lem = record {
  encoded = encoded_lem;
  signed = λ key id m r s {sig} e.
      let whole : sign key id m ≡ sig = cc e in rw (sym whole) (omega arith);
  wrapped = λ key m r s {w} e. let whole : key ∷ m ≡ w = cc e in rw (sym whole) (omega arith);
}
