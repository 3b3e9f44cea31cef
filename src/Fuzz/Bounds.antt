-- ===== src/Fuzz/Bounds.antt =====
-- The fields of a fuzz input (fuzz/fuzz_targets/support.rs) are as many as asked for, and no longer
-- than the input.
use gmcrypto_envelope_lite.Base.{
  ℕ, zero, suc, ◌≤◌, arith, min, ltb, Option, some, none, Bool-cases, inl, inr, [], ◌∷◌, length,
  take, drop, replicate, length-take, length-drop,
}
use gmcrypto_envelope_lite.Bytes.{Bytes, ◌and_then◌}
use gmcrypto_envelope_lite.Text.Decode.{from_utf8}
use gmcrypto_envelope_lite.Envelope.Shared.{unwrap_or}
use gmcrypto_envelope_lite.Fuzz.Lossy.{parse_usize}
use gmcrypto_envelope_lite.Fuzz.Framing.{
  strip_bar, find_colon, split_field, frame_at, frame, frames, behind_selectors, framed_payload,
  framed, get, at,
}

-- Both parts are at most this long.
abbrev AtMost : ℕ → Bytes × Bytes → Type 0
AtMost n parts = (length parts.0 ≤ n) × (length parts.1 ≤ n)

strip_bar-short : (b : Bytes) → length (unwrap_or (strip_bar b) b) ≤ length b
strip_bar-short [] = omega arith
strip_bar-short (x ∷ b) = ground arith

split_field-short : (n : ℕ) (body : Bytes) → AtMost (length body) (split_field n body)
split_field-short n body =
    let k = min n (length body) in
    let bar = strip_bar-short (drop k body) in
    let rest = length-drop k body in
    let field = length-take k body (omega arith) in (omega arith, omega arith)

unwrapped-short :
    (o : Option ℕ) (body : Bytes)
    → AtMost (length body) (unwrap_or (o and_then λ n. some (split_field n body)) ([], []))
unwrapped-short none body = (omega arith, omega arith)
unwrapped-short (some n) body = split_field-short n body

frame-short : (o : Option ℕ) (input : Bytes) → AtMost (length input) (frame_at o input)
frame-short none input = (omega arith, omega arith)
frame-short (some colon) input =
    let body = drop (suc colon) input in
    let h = unwrapped-short (parse_usize (unwrap_or (from_utf8 (take colon input)) [])) body in
    let d = length-drop (suc colon) input in (omega (arith, h.0), omega (arith, h.1))

frames-short : (n : ℕ) (input : Bytes) (k : ℕ) → length (at (frames n input) k) ≤ length input
unfolding frames frame get
frames-short zero input k = omega arith
frames-short (suc n) input zero = (frame-short (find_colon input) input).0
frames-short (suc n) input (suc k) =
    let rest = (frame-short (find_colon input) input).1 in
    let i = frames-short n (frame_at (find_colon input) input).1 k in omega arith

at-replicate : (n k : ℕ) → length (at (replicate n []) k) ≤ 0
unfolding get
at-replicate zero k = omega arith
at-replicate (suc n) zero = omega arith
at-replicate (suc n) (suc k) = at-replicate n k

framed_payload-short :
    (n : ℕ) (o : Option Bytes) (k m : ℕ)
    → length (unwrap_or o []) ≤ m
    → length (at (framed_payload n o) k) ≤ m
framed_payload-short n none k m h = let i = at-replicate n k in omega arith
framed_payload-short n (some payload) k m h = let i = frames-short n payload k in omega arith

stripped-short : (input : Bytes) → length (unwrap_or (strip_bar input) []) ≤ length input
stripped-short [] = omega arith
stripped-short (x ∷ b) = ground arith

payload-short :
    (input : Bytes)
    → length (unwrap_or (behind_selectors input and_then strip_bar) []) ≤ length input
payload-short input = elim (Bool-cases (ltb (length input) 6)) [
  | inl few ↦ rw few (omega arith)
  | inr enough ↦
      let i = stripped-short (drop 6 input) in
      let d = length-drop 6 input in rw enough (omega arith)
]

-- A field is no longer than the input.
pub framed-short : (n : ℕ) (input : Bytes) (k : ℕ) → length (at (framed n input) k) ≤ length input
unfolding framed
framed-short n input k =
    framed_payload-short n (behind_selectors input and_then strip_bar) k (length input)
      (payload-short input)
