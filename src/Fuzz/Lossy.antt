-- ===== src/Fuzz/Lossy.antt =====
-- `String::from_utf8_lossy` and `parse::<usize>` of Rust's standard library, which
-- fuzz/fuzz_targets/support.rs reads its input with.
use gmcrypto_envelope_lite.Base.{
  ℕ, ◌+◌, ◌-◌, ◌*◌, ◌&&◌, ltb, leb, ◌==◌, Option, some, none, [], ◌∷◌, ◌++◌, if◌then◌else◌,
}
use gmcrypto_envelope_lite.Bytes.{Bytes, checked_add, checked_mul, ◌and_then◌}
use gmcrypto_envelope_lite.Text.{Text}

-- U+FFFD, which stands for a maximal part of bytes that is not UTF-8.
abbrev pub replacement : ℕ
replacement = 0xfffd

-- A character whose last `missing` bytes are to come: its bits so far, and the range of its next byte.
pub record Sequence : Type 0 where
  pub missing : ℕ
  pub bits : ℕ
  pub low : ℕ
  pub high : ℕ

abbrev pub at_start : Sequence
at_start = record { missing = 0; bits = 0; low = 0x80; high = 0xbf }

abbrev sequence : ℕ → ℕ → ℕ → ℕ → Sequence × Text
sequence missing bits low high =
    (record { missing = missing; bits = bits; low = low; high = high }, [])

-- The first byte of a character.
unfoldable pub start_byte : ℕ → Sequence × Text
start_byte b =
    if ltb b 0x80
    then (at_start, b ∷ [])
    else if ltb b 0xc2
    then (at_start, replacement ∷ [])
    else if ltb b 0xe0
    then sequence 1 (b - 0xc0) 0x80 0xbf
    else if b == 0xe0
    then sequence 2 0 0xa0 0xbf
    else if b == 0xed
    then sequence 2 0xd 0x80 0x9f
    else if ltb b 0xf0
    then sequence 2 (b - 0xe0) 0x80 0xbf
    else if b == 0xf0
    then sequence 3 0 0x90 0xbf
    else if ltb b 0xf4
    then sequence 3 (b - 0xf0) 0x80 0xbf
    else if b == 0xf4
    then sequence 3 4 0x80 0x8f
    else (at_start, replacement ∷ [])

-- A byte behind the first one: it continues the character, or it ends an unfinished one and starts
-- another.
unfoldable pub follow_byte : Sequence → ℕ → Sequence × Text
follow_byte s b =
    let bits = s.bits * 0x40 + (b - 0x80) in
    let restart = start_byte b in
    if leb s.low b && leb b s.high
    then (if ltb 1 s.missing
        then sequence (s.missing - 1) bits 0x80 0xbf
        else (at_start, bits ∷ []))
    else (restart.0, replacement ∷ restart.1)

abbrev pub lossy_byte : Sequence → ℕ → Sequence × Text
lossy_byte s b = if s.missing == 0 then start_byte b else follow_byte s b

unfoldable pub lossy_from : Sequence → Bytes → Text
lossy_from s [] = if s.missing == 0 then [] else replacement ∷ []
lossy_from s (b ∷ bs) = let (s', out) = lossy_byte s b in out ++ lossy_from s' bs

-- `String::from_utf8_lossy`
abbrev pub from_utf8_lossy : Bytes → Text
from_utf8_lossy bs = lossy_from at_start bs

-- The digits of a number behind what has been read, with the checks of each step.
unfoldable pub parse_digits : ℕ → Text → Option ℕ
parse_digits n [] = some n
parse_digits n (c ∷ s) =
    (if leb b'0' c && leb c b'9'
      then checked_mul n 10 and_then (λ m. checked_add m (c - b'0'))
      else none)
    and_then (λ m. parse_digits m s)

-- `parse::<usize>`: an optional plus sign and at least one digit.
unfoldable pub parse_usize : Text → Option ℕ
parse_usize [] = none
parse_usize (c ∷ []) = parse_digits 0 (c ∷ [])
parse_usize (c ∷ d ∷ s) = if c == b'+' then parse_digits 0 (d ∷ s) else parse_digits 0 (c ∷ d ∷ s)
