-- ===== src/Text/Decode.antt =====
-- `str::from_utf8`, `str::contains` and `starts_with` of Rust's standard library.
use gmcrypto_envelope_lite.Base.{
  ℕ, ◌+◌, ◌-◌, ◌*◌, ◌&&◌, Bool, true, false, not, ◌||◌, ltb, leb, ◌==◌, Option, some, none, List,
  [], ◌∷◌, ◌++◌, if◌then◌else◌,
}
use gmcrypto_envelope_lite.Text.{Text, char_bound}
use gmcrypto_envelope_lite.Bytes.{◌and_then◌}
use mathlib.Core.Option

-- A character whose last `missing` bytes are to come: its bits so far, and the smallest value that
-- its length may encode.
pub record Partial : Type 0 where
  pub missing : ℕ
  pub bits : ℕ
  pub least : ℕ

abbrev pub between : Partial
between = record { missing = 0; bits = 0; least = 0 }

unfoldable pub first_byte : ℕ → Option (Partial × Text)
first_byte b =
    if ltb b 0x80
    then some (between, b ∷ [])
    else if ltb b 0xc2
    then none
    else if ltb b 0xe0
    then some (record { missing = 1; bits = b - 0xc0; least = 0x80 }, [])
    else if ltb b 0xf0
    then some (record { missing = 2; bits = b - 0xe0; least = 0x800 }, [])
    else if ltb b 0xf5
    then some (record { missing = 3; bits = b - 0xf0; least = 0x10000 }, [])
    else none

-- A scalar value: in range, and no surrogate.
abbrev pub is_scalar : ℕ → Bool
is_scalar c = ltb c char_bound && (ltb c 0xd800 || leb 0xe000 c)

unfoldable pub next_byte : Partial → ℕ → Option (Partial × Text)
next_byte p b =
    let bits = p.bits * 0x40 + (b - 0x80) in
    if not (leb 0x80 b && ltb b 0xc0)
    then none
    else if ltb 1 p.missing
    then some (record { missing = p.missing - 1; bits = bits; least = p.least }, [])
    else if leb p.least bits && is_scalar bits
    then some (between, bits ∷ [])
    else none

abbrev pub take_byte : Partial → ℕ → Option (Partial × Text)
take_byte p b = if p.missing == 0 then first_byte b else next_byte p b

unfoldable pub decode_from : Partial → List ℕ → Option Text
decode_from p [] = if p.missing == 0 then some [] else none
decode_from p (b ∷ bs) =
    take_byte p b and_then (λ n. Option.map (λ rest. n.1 ++ rest) (decode_from n.0 bs))

-- `str::from_utf8`
abbrev pub from_utf8 : List ℕ → Option Text
from_utf8 bs = decode_from between bs

-- `starts_with(text, prefix)`
abbrev pub starts_with : List ℕ → List ℕ → Bool
starts_with t [] = true
starts_with [] (p ∷ ps) = false
starts_with (c ∷ t) (p ∷ ps) = c == p && starts_with t ps

-- `contains(text, part)`
abbrev pub contains : List ℕ → List ℕ → Bool
contains [] part = starts_with [] part
contains (c ∷ t) part = starts_with (c ∷ t) part || contains t part
