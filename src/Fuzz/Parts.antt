-- ===== src/Fuzz/Parts.antt =====
-- The generic requests and responses that fuzz inputs describe (fuzz/fuzz_targets/support.rs).
use gmcrypto_envelope_lite.Base.{ℕ, ◌+◌, ◌==◌, ◌%◌, List, [], ◌∷◌, ◌++◌, map, if◌then◌else◌}
use gmcrypto_envelope_lite.Bytes.{Bytes}
use gmcrypto_envelope_lite.Text.{Text, to_ascii_lowercase}
use gmcrypto_envelope_lite.Error.{Fallible}
use gmcrypto_envelope_lite.Message.Types.{RequestParts, ResponseParts}
use gmcrypto_envelope_lite.Message.Parts
use gmcrypto_envelope_lite.Envelope.Shared.{unwrap_or}
use gmcrypto_envelope_lite.Fuzz.Framing.{framed, selectors, get, at, text}
use gmcrypto_envelope_lite.Fuzz.Names.{transport_name, header_cipher_name, typed_name}

abbrev Headers : Type 0
Headers = List (Text × Text)

abbrev at_header : Headers → ℕ → Text × Text
at_header headers n = unwrap_or (get headers n) ([], [])

-- `order.map(|index| headers[index].clone())`
abbrev reorder : List ℕ → Headers → Headers
reorder order headers = map (at_header headers) order

-- The last header, by a selector's residue: none, the first one again, or that in lower case.
unfoldable pub repeat_first : ℕ → Headers → Headers
unfolding to_ascii_lowercase
repeat_first r headers =
    let first = at_header headers 0 in
    if r == 0
    then headers
    else headers ++ (if r == 1 then first else (to_ascii_lowercase first.0, first.1)) ∷ []

-- `selectors.get(n).copied().unwrap_or_default()`
abbrev pick : Bytes → ℕ → ℕ
pick input n = unwrap_or (get (selectors input) n) 0

unfoldable pub transport_order : ℕ → List ℕ
transport_order r =
    if r == 0
    then 0 ∷ 1 ∷ 2 ∷ []
    else if r == 1
    then 1 ∷ 0 ∷ 2 ∷ []
    else if r == 2
    then 0 ∷ 2 ∷ 1 ∷ []
    else if r == 3
    then 2 ∷ 1 ∷ 0 ∷ []
    else if r == 4
    then 1 ∷ 2 ∷ 0 ∷ []
    else 2 ∷ 0 ∷ 1 ∷ []

unfoldable pub generic_transport_parts : Bytes → ResponseParts
unfolding transport_order repeat_first
generic_transport_parts input =
    let parts = framed 7 input in
    let headers =
      map
        (λ slot. (
          transport_name (get (selectors input) (slot + 1)) slot (at parts slot),
          text (at parts (slot + 3)),
        ))
        (0 ∷ 1 ∷ 2 ∷ []) in
    let ordered = reorder (transport_order (pick input 4 % 6)) headers in
    Parts.response (repeat_first (pick input 5 % 3) ordered) (text (at parts 6))

unfoldable pub header_cipher_order : ℕ → List ℕ
header_cipher_order r =
    if r == 0
    then 0 ∷ 1 ∷ 2 ∷ 3 ∷ []
    else if r == 1
    then 3 ∷ 0 ∷ 1 ∷ 2 ∷ []
    else if r == 2
    then 0 ∷ 1 ∷ 3 ∷ 2 ∷ []
    else if r == 3
    then 3 ∷ 2 ∷ 1 ∷ 0 ∷ []
    else if r == 4
    then 0 ∷ 3 ∷ 1 ∷ 2 ∷ []
    else 1 ∷ 0 ∷ 2 ∷ 3 ∷ []

unfoldable pub generic_header_cipher_parts : Bytes → ResponseParts
unfolding header_cipher_order repeat_first
generic_header_cipher_parts input =
    let parts = framed 9 input in
    let headers =
      map
        (λ slot. (
          header_cipher_name (get (selectors input) (slot + 1)) slot (at parts slot),
          text (at parts (slot + 4)),
        ))
        (0 ∷ 1 ∷ 2 ∷ 3 ∷ []) in
    let packed = pick input 5 in
    let ordered = reorder (header_cipher_order (packed % 6)) headers in
    Parts.response (repeat_first (packed % 3) ordered) (text (at parts 8))

-- `swap(0, 1)` of an array of two, where a selector is odd.
abbrev swapped : ℕ → Text × Text → Text × Text
swapped n pair = if n % 2 == 1 then (pair.1, pair.0) else pair

unfoldable pub generic_typed_parts : Bytes → Fallible RequestParts
unfolding repeat_first
generic_typed_parts input =
    let parts = framed 5 input in
    let names = swapped (pick input 3) (
      typed_name (get (selectors input) 1) 0 (at parts 0),
      typed_name (get (selectors input) 2) 1 (at parts 1),
    ) in
    let values = swapped (pick input 5) (text (at parts 2), text (at parts 3)) in
    let headers = (names.0, values.0) ∷ (names.1, values.1) ∷ [] in
    Parts.new (repeat_first (pick input 4 % 3) headers) (text (at parts 4))
