-- ===== src/Fuzz/Names.antt =====
-- The header names that the generic fuzz inputs choose (fuzz/fuzz_targets/support.rs). An index
-- beyond a table does not occur.
use gmcrypto_envelope_lite.Base.{ℕ, zero, suc, ◌==◌, ◌%◌, Option, [], if◌then◌else◌}
use gmcrypto_envelope_lite.Bytes.{Bytes}
use gmcrypto_envelope_lite.Text.{Text, codes, to_ascii_lowercase}
use gmcrypto_envelope_lite.Envelope.Shared.{unwrap_or}
use gmcrypto_envelope_lite.Fuzz.Framing.{text}

-- The table `CANONICAL` of `header_cipher_name`, which begins with that of `transport_name`.
unfoldable pub response_canonical : ℕ → Text
response_canonical zero = codes "X-Fuzz-Response-Signature"
response_canonical (suc zero) = codes "X-Fuzz-Response-Wrapped-Key"
response_canonical (suc (suc zero)) = codes "X-Fuzz-Response-Remote-Signing-Certificate"
response_canonical (suc (suc (suc _))) = codes "X-Fuzz-Response-Cipher"

-- The table `MIXED` of `header_cipher_name`, which begins with that of `transport_name`.
unfoldable pub response_mixed : ℕ → Text
response_mixed zero = codes "X-fUzZ-ReSpOnSe-SiGnAtUrE"
response_mixed (suc zero) = codes "X-fUzZ-ReSpOnSe-WrApPeD-KeY"
response_mixed (suc (suc zero)) = codes "X-fUzZ-ReSpOnSe-ReMoTe-SiGnInG-CeRtIfIcAtE"
response_mixed (suc (suc (suc _))) = codes "X-fUzZ-ReSpOnSe-CiPhEr"

-- What a selector byte asks for.
pub data Choice : Type 0 where
  canonical lowercase mixed unknown blank raw : Choice
  fixed : ℕ → Choice

unfoldable pub response_name : Choice → ℕ → Bytes → Text
unfolding response_canonical response_mixed
response_name canonical slot bytes = response_canonical slot
response_name lowercase slot bytes = to_ascii_lowercase (response_canonical slot)
response_name mixed slot bytes = response_mixed slot
response_name unknown slot bytes = codes "X-Fuzz-Unknown"
response_name blank slot bytes = []
response_name raw slot bytes = text bytes
response_name (fixed n) slot bytes = response_canonical n

-- The residue of any other byte.
abbrev residue_choice : ℕ → Choice
residue_choice r =
    if r == 0
    then canonical
    else if r == 1
    then lowercase
    else if r == 2
    then mixed
    else if r == 3
    then unknown
    else if r == 4
    then blank
    else if r == 5
    then raw
    else if r == 6
    then fixed 0
    else if r == 7
    then fixed 1
    else if r == 8
    then fixed 2
    else fixed 3

-- The letters that both tables of `match` share.
abbrev letter_choice : ℕ → Choice → Choice
letter_choice b other =
    if b == b'c'
    then canonical
    else if b == b'l'
    then lowercase
    else if b == b'm'
    then mixed
    else if b == b'u'
    then unknown
    else if b == b'e'
    then blank
    else if b == b'r'
    then raw
    else if b == b's'
    then fixed 0
    else if b == b'w'
    then fixed 1
    else if b == b'k'
    then fixed 2
    else other

unfoldable pub transport_name : Option ℕ → ℕ → Bytes → Text
unfolding response_name
transport_name selector slot bytes =
    let b = unwrap_or selector b'c' in
    response_name (letter_choice b (residue_choice (b % 9))) slot bytes

unfoldable pub header_cipher_name : Option ℕ → ℕ → Bytes → Text
unfolding response_name
header_cipher_name selector slot bytes =
    let b = unwrap_or selector b'c' in
    response_name (letter_choice b (if b == b'p' then fixed 3 else residue_choice (b % 10))) slot
      bytes

-- The tables of `typed_name`.
unfoldable pub typed_canonical : ℕ → Text
typed_canonical zero = codes "X-Fuzz-Header"
typed_canonical (suc _) = codes "X-Fuzz-Other"

unfoldable pub typed_mixed : ℕ → Text
typed_mixed zero = codes "X-fUzZ-HeAdEr"
typed_mixed (suc _) = codes "X-fUzZ-OtHeR"

unfoldable pub typed_name : Option ℕ → ℕ → Bytes → Text
unfolding typed_canonical typed_mixed
typed_name selector slot bytes =
    let b = unwrap_or selector b'c' in
    let r = b % 7 in
    if b == b'c'
    then typed_canonical slot
    else if b == b'l'
    then to_ascii_lowercase (typed_canonical slot)
    else if b == b'm'
    then typed_mixed slot
    else if b == b'h'
    then to_ascii_lowercase (typed_canonical 0)
    else if b == b'o'
    then typed_canonical 1
    else if b == b'e'
    then []
    else if b == b'r'
    then text bytes
    else if r == 0
    then typed_canonical slot
    else if r == 1
    then to_ascii_lowercase (typed_canonical slot)
    else if r == 2
    then typed_mixed slot
    else if r == 3
    then to_ascii_lowercase (typed_canonical 0)
    else if r == 4
    then typed_canonical 1
    else if r == 5
    then []
    else text bytes
