-- ===== src/Fuzz/Framing.antt =====
-- The framing of fuzz inputs in fuzz/fuzz_targets/support.rs: six selector bytes, a bar, and fields
-- that carry their lengths.
use gmcrypto_envelope_lite.Base.{
  ℕ, zero, suc, ◌==◌, min, Option, some, none, List, [], ◌∷◌, length, take, drop, ltb,
  if◌then◌else◌, replicate,
}
use gmcrypto_envelope_lite.Bytes.{Bytes, ◌and_then◌}
use gmcrypto_envelope_lite.Text.{Text}
use gmcrypto_envelope_lite.Text.Decode.{from_utf8}
use gmcrypto_envelope_lite.Envelope.Shared.{unwrap_or}
use gmcrypto_envelope_lite.Fuzz.Lossy.{from_utf8_lossy, parse_usize}

-- `strip_prefix(b"|")`
abbrev pub strip_bar : Bytes → Option Bytes
strip_bar [] = none
strip_bar (b ∷ bs) = if b == b'|' then some bs else none

-- `iter().position` of a colon
unfoldable pub find_colon : Bytes → Option ℕ
find_colon [] = none
find_colon (b ∷ bs) =
    let rest = find_colon bs in if b == b':' then some 0 else (rest and_then λ n. some (suc n))

-- The body of a field whose length has been read, and what is behind it.
abbrev pub split_field : ℕ → Bytes → Bytes × Bytes
split_field stated body =
    let n = min stated (length body) in
    (take n body, unwrap_or (strip_bar (drop n body)) (drop n body))

abbrev pub frame_at : Option ℕ → Bytes → Bytes × Bytes
frame_at none input = ([], [])
frame_at (some colon) input =
    (let stated = parse_usize (unwrap_or (from_utf8 (take colon input)) []) in
      let body = drop (suc colon) input in
      unwrap_or (stated and_then λ n. some (split_field n body)) ([], []))

unfoldable pub frame : Bytes → Bytes × Bytes
frame input = frame_at (find_colon input) input

-- The loop of `framed` over the fields.
unfoldable pub frames : ℕ → Bytes → List Bytes
frames zero remainder = []
frames (suc n) remainder = let (field, next) = frame remainder in field ∷ frames n next

-- `input.get(6..)`
abbrev pub behind_selectors : Bytes → Option Bytes
behind_selectors input = if ltb (length input) 6 then none else some (drop 6 input)

abbrev pub framed_payload : ℕ → Option Bytes → List Bytes
framed_payload n none = replicate n []
framed_payload n (some payload) = frames n payload

unfoldable pub framed : ℕ → Bytes → List Bytes
framed n input = framed_payload n (behind_selectors input and_then strip_bar)

-- `fields`
abbrev pub fields : Bytes → List Bytes
fields input = framed 3 input

unfoldable pub text : Bytes → Text
text input = from_utf8_lossy input

-- `input.get(..6).unwrap_or_default()`
abbrev pub selectors : Bytes → Bytes
selectors input = if ltb (length input) 6 then [] else take 6 input

-- `get` of a slice
unfoldable pub get {ℓ} : {A : Type ℓ} → List A → ℕ → Option A
get [] n = none
get (x ∷ xs) zero = some x
get (x ∷ xs) (suc n) = get xs n

-- An index that is in range.
abbrev pub at : List Bytes → ℕ → Bytes
at xs n = unwrap_or (get xs n) []
