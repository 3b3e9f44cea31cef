-- ===== src/Fuzz/Encoded.antt =====
-- Fuzz inputs that are written in the framing of fuzz/fuzz_targets/support.rs are read back: the
-- selectors and the fields come out as they went in.
use gmcrypto_envelope_lite.Base.{
  ℕ, suc, ◌+◌, ◌-◌, ◌*◌, ◌<◌, ◌≤◌, ◌≡◌, ◌≢◌, ◌==◌, refl, sym, ap, ◌∙◌, arith, ltb, leb, min, false,
  ◌&&◌, Option, some, none, List, [], ◌∷◌, ◌++◌, length, take, drop, take-append_length,
  drop-append_length, length-append, append_assoc, All, if◌then◌else◌,
}
use gmcrypto_envelope_lite.Bytes.{Bytes, word_bound, checked_mul, checked_add, ◌and_then◌}
use gmcrypto_envelope_lite.Text.{Text}
use gmcrypto_envelope_lite.Text.Decode.{from_utf8, decode_from}
use gmcrypto_envelope_lite.Text.Utf8.{decode_from-one}
use gmcrypto_envelope_lite.Message.Time.{decimal}
use gmcrypto_envelope_lite.Message.Digits.{
  value_from, value-decimal, IsDigit, decimal-IsDigit, decimal-ne-nil,
}
use gmcrypto_envelope_lite.Fuzz.Lossy.{parse_digits, parse_usize}
use gmcrypto_envelope_lite.Fuzz.Framing.{find_colon, split_field, frame, frames, framed, selectors}

value_from-least : (n : ℕ) (s : Text) → n ≤ value_from n s
value_from-least n [] = omega arith
value_from-least n (c ∷ s) = let i = value_from-least (10 * n + (c - b'0')) s in omega arith

abbrev read_digit : ℕ → ℕ → Option ℕ
read_digit n c =
    if leb b'0' c && leb c b'9'
    then checked_mul n 10 and_then (λ m. checked_add m (c - b'0'))
    else none

read_digit-some :
    (n c : ℕ)
    → IsDigit c
    → 10 * n + (c - b'0') < word_bound
    → read_digit n c ≡ some (10 * n + (c - b'0'))
read_digit-some n c h small = let low = h.0 in let high = h.1 in ground arith

-- Digits are read as the number that they stand for, where it is a machine word.
parse_digits-value_from :
    (n : ℕ) (s : Text)
    → All IsDigit s
    → value_from n s < word_bound
    → parse_digits n s ≡ some (value_from n s)
unfolding parse_digits
parse_digits-value_from n [] h small = refl
parse_digits-value_from n (c ∷ s) h small =
    let least = value_from-least (10 * n + (c - b'0')) s in
    rw (read_digit-some n c h.0 (omega arith))
      (parse_digits-value_from (10 * n + (c - b'0')) s h.1 small)

from_utf8-digits : (s : Text) → All IsDigit s → from_utf8 s ≡ some s
unfolding decode_from
from_utf8-digits [] h = refl
from_utf8-digits (c ∷ s) h =
    let high = h.0.1 in rw (decode_from-one c s (omega arith), from_utf8-digits s h.1) refl

find_colon-digits :
    (s : Text) (t : Bytes) → All IsDigit s → find_colon (s ++ b':' ∷ t) ≡ some (length s)
unfolding find_colon
find_colon-digits [] t h = refl
find_colon-digits (c ∷ s) t h =
    let high = h.0.1 in
    let other : (c == b':') ≡ false = ground arith in rw (find_colon-digits s t h.1, other) refl

drop-past : (s : Text) (c : ℕ) (t : Bytes) → drop (suc (length s)) (s ++ c ∷ t) ≡ t
drop-past [] c t = refl
drop-past (x ∷ s) c t = drop-past s c t

-- A nonempty list of digits parses.
parse_usize-value_from :
    (s : Text)
    → s ≢ []
    → All IsDigit s
    → value_from 0 s < word_bound
    → parse_usize s ≡ some (value_from 0 s)
unfolding parse_usize
parse_usize-value_from [] some_digit h small = absurd (some_digit refl)
parse_usize-value_from (c ∷ []) some_digit h small = parse_digits-value_from 0 (c ∷ []) h small
parse_usize-value_from (c ∷ d ∷ s) some_digit h small =
    let low = h.0.0 in
    let no_sign : (c == b'+') ≡ false = ground arith in
    rw no_sign (parse_digits-value_from 0 (c ∷ d ∷ s) h small)

parse_usize-decimal : (n : ℕ) → n < word_bound → parse_usize (decimal 20 n) ≡ some n
parse_usize-decimal n small =
    let v = value-decimal 20 n (omega arith) in
    parse_usize-value_from (decimal 20 n) (decimal-ne-nil 19 n) (decimal-IsDigit 20 n)
      (omega (arith, v))
    ∙ ap some v

-- A field as the targets' inputs write it: its length, a colon, its bytes and a bar.
abbrev pub field_bytes : Bytes → Bytes
field_bytes f = decimal 20 (length f) ++ b':' ∷ f ++ b'|' ∷ []

abbrev pub fields_bytes : List Bytes → Bytes
fields_bytes [] = []
fields_bytes (f ∷ fs) = field_bytes f ++ fields_bytes fs

split_field-append : (f rest : Bytes) → split_field (length f) (f ++ b'|' ∷ rest) ≡ (f, rest)
split_field-append f rest =
    let l = length-append f (b'|' ∷ rest) in
    let n : min (length f) (length (f ++ b'|' ∷ rest)) ≡ length f = omega arith in
    rw (n, take-append_length f (b'|' ∷ rest), drop-append_length f (b'|' ∷ rest)) refl

frame-field_bytes :
    (f rest : Bytes) → length f < word_bound → frame (field_bytes f ++ rest) ≡ (f, rest)
unfolding frame
frame-field_bytes f rest small =
    let digits = decimal 20 (length f) in
    let body = f ++ b'|' ∷ rest in
    let shape : field_bytes f ++ rest ≡ digits ++ b':' ∷ body =
      append_assoc (digits ++ b':' ∷ f) (b'|' ∷ []) rest
      ∙ append_assoc digits (b':' ∷ f) (b'|' ∷ rest) in
    let all = decimal-IsDigit 20 (length f) in
    rw
      (
        shape,
        find_colon-digits digits body all,
        take-append_length digits (b':' ∷ body),
        drop-past digits b':' body,
        from_utf8-digits digits all,
        parse_usize-decimal (length f) small,
        split_field-append f rest,
      )
      refl

frames-fields_bytes :
    (fs : List Bytes)
    → All (λ f. length f < word_bound) fs
    → frames (length fs) (fields_bytes fs) ≡ fs
unfolding frames
frames-fields_bytes [] h = refl
frames-fields_bytes (f ∷ fs) h =
    rw (frame-field_bytes f (fields_bytes fs) h.0) (ap (λ r. f ∷ r) (frames-fields_bytes fs h.1))

-- An input made of six selectors, a bar and any number of fields, each shorter than 2^64 bytes, is
-- read back as just these selectors and these fields.
pub framed-fields_bytes :
    (choice : Bytes) (fs : List Bytes)
    → length choice ≡ 6
    → All (λ f. length f < word_bound) fs
    → (selectors (choice ++ b'|' ∷ fields_bytes fs) ≡ choice)
      × (framed (length fs) (choice ++ b'|' ∷ fields_bytes fs) ≡ fs)
unfolding framed
framed-fields_bytes choice fs six h =
    let input = choice ++ b'|' ∷ fields_bytes fs in
    let l = length-append choice (b'|' ∷ fields_bytes fs) in
    let long : ltb (length input) 6 ≡ false = ground arith in
    let front : take 6 input ≡ choice =
      rw (sym six) (take-append_length choice (b'|' ∷ fields_bytes fs)) in
    let back : drop 6 input ≡ b'|' ∷ fields_bytes fs =
      rw (sym six) (drop-append_length choice (b'|' ∷ fields_bytes fs)) in
    rw (long, front, back) (refl, frames-fields_bytes fs h)
