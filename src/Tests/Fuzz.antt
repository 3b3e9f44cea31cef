-- ===== src/Tests/Fuzz.antt =====
-- The theorems on the fuzz targets, with the compact toy operations.
use gmcrypto_envelope_lite.Base.{◌≡◌, ◌⊎◌, refl, arith, ok, some, List, [], ◌∷◌, ◌++◌}
use gmcrypto_envelope_lite.Bytes.{Bytes}
use gmcrypto_envelope_lite.Text.{codes}
use gmcrypto_envelope_lite.Fuzz.Targets
use gmcrypto_envelope_lite.Fuzz.Scenario.{context_scenario, mismatched_context}
use gmcrypto_envelope_lite.Fuzz.Laws.{Forged}
use gmcrypto_envelope_lite.Fuzz.Context
use gmcrypto_envelope_lite.Fuzz.ContextTarget
use gmcrypto_envelope_lite.Fuzz.Lossy.{parse_usize, parse_digits}
use gmcrypto_envelope_lite.Fuzz.Framing.{selectors, framed, frames, frame, find_colon, get}
use gmcrypto_envelope_lite.Fuzz.Encoded
use gmcrypto_envelope_lite.Fuzz.Encoded.{fields_bytes}
use gmcrypto_envelope_lite.Fuzz.Clients.{valid_plaintext}
use gmcrypto_envelope_lite.Fuzz.Values
use gmcrypto_envelope_lite.Fuzz.Values.{full_valid, select_mode}
use gmcrypto_envelope_lite.Fuzz.FullValid
use gmcrypto_envelope_lite.Fuzz.FullValid.{SelectsValid}
use gmcrypto_envelope_lite.Text.Decode.{decode_from, first_byte, next_byte}
use gmcrypto_envelope_lite.Tests.Compact.{compact, tools, lawful_lem, printable_lem}

transport_target-passes_example : Targets.transport_target (codes "Hxxxxx|1:a|") ≡ some tt
transport_target-passes_example = Targets.transport_target-passes (codes "Hxxxxx|1:a|")

-- A field with the framing's own signs, and an empty one.
abbrev signs : List Bytes
signs = codes "a:|3:" ∷ [] ∷ codes "id" ∷ []

framed-fields_bytes_example :
    (selectors (codes "vvv000" ++ b'|' ∷ fields_bytes signs) ≡ codes "vvv000")
    × (framed 3 (codes "vvv000" ++ b'|' ∷ fields_bytes signs) ≡ signs)
framed-fields_bytes_example =
    Encoded.framed-fields_bytes (codes "vvv000") signs refl
      (omega arith, (omega arith, (omega arith, tt)))

abbrev mismatch : Bytes
mismatch = codes "M00000|3:abc|2:id|"

context_target-passes_example :
    (Context.context_target compact tools mismatch 3 ≡ some tt)
    ⊎ ((context_scenario mismatch ≡ mismatched_context) × Forged compact tools)
context_target-passes_example =
    ContextTarget.context_target-passes compact tools lawful_lem mismatch 3 (omega arith)

full_valid-SelectsValid : SelectsValid full_valid
unfolding select_mode get framed frames frame find_colon parse_usize parse_digits decode_from
    first_byte next_byte
full_valid-SelectsValid = record { signature = refl; wrapped = refl; cipher = refl; claim = refl }

encoded_target-passes_example :
    (Values.encoded_opened compact tools full_valid 3 ≡ some (ok valid_plaintext))
    × (Values.encoded_target compact tools full_valid 3 ≡ some tt)
encoded_target-passes_example =
    FullValid.encoded_target-passes compact tools lawful_lem printable_lem full_valid 3
      full_valid-SelectsValid
