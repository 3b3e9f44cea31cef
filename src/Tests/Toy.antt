-- ===== src/Tests/Toy.antt =====
-- A concrete instance of the external operations that has the documented behaviour, for the tests.
-- A key is a number, a signature the key and two sums, a ciphertext the plaintext itself.
use gmcrypto_envelope_lite.Base.{
  ℕ, zero, suc, ◌+◌, ◌-◌, ◌*◌, ◌/◌, ◌%◌, ◌≤◌, ◌<◌, ◌≡◌, refl, sym, ap, subst, ◌∙◌, arith, true,
  ◌==◌, if◌then◌else◌, Option, some, none, [], ◌∷◌, ◌++◌, length, take, drop, replicate, beq,
  beq_refl, length-append, length-replicate, take-append_length, drop-append_length,
}
use gmcrypto_envelope_lite.Bytes.{Bytes}
use gmcrypto_envelope_lite.Text.{Text, len, utf8, utf8_char}
use gmcrypto_envelope_lite.Core.{Core}
use gmcrypto_envelope_lite.Core.Laws.{Base64, Fills, Cbc, Aead, Wraps, Signs}

abbrev pub sum : Bytes → ℕ
sum [] = 0
sum (x ∷ xs) = x + sum xs

-- A list in one number: every element is a run of zero bits, closed by a one.
abbrev shift : ℕ → ℕ → ℕ
shift zero n = n
shift (suc x) n = 2 * shift x n

abbrev pub code : Bytes → ℕ
code [] = 0
code (x ∷ xs) = shift x (2 * code xs + 1)

unfoldable pub decode : ℕ → ℕ → ℕ → Bytes
decode zero n a = []
decode (suc f) n a =
    let even = decode f (n / 2) (a + 1) in
    let odd = decode f (n / 2) 0 in if n == 0 then [] else if n % 2 == 0 then even else a ∷ odd

shift-pos : (x n : ℕ) → 0 < n → 0 < shift x n
shift-pos zero n h = h
shift-pos (suc x) n h = let i = shift-pos x n h in omega arith

decode_odd :
    (m : ℕ) (xs : Bytes) (x f a : ℕ)
    → ((g : ℕ) → m ≤ g → decode g m 0 ≡ xs)
    → shift x (2 * m + 1) ≤ f
    → decode f (shift x (2 * m + 1)) a ≡ (a + x) ∷ xs
unfolding decode
decode_odd m xs zero zero a rest h = absurd (omega arith)
decode_odd m xs zero (suc f) a rest h =
    let half : (2 * m + 1) / 2 ≡ m = omega arith in
    let r = rest f (omega arith) in rw half (rw r (ground arith))
decode_odd m xs (suc x) zero a rest h =
    let i = shift-pos x (2 * m + 1) (omega arith) in absurd (omega arith)
decode_odd m xs (suc x) (suc f) a rest h =
    let i = shift-pos x (2 * m + 1) (omega arith) in
    let half : (2 * shift x (2 * m + 1)) / 2 ≡ shift x (2 * m + 1) = omega arith in
    let r = decode_odd m xs x f (a + 1) rest (omega arith) in rw half (rw r (ground arith))

pub decode-code : (xs : Bytes) (f : ℕ) → code xs ≤ f → decode f (code xs) 0 ≡ xs
unfolding decode
decode-code [] zero h = refl
decode-code [] (suc f) h = refl
decode-code (x ∷ xs) f h =
    let z : 0 + x ≡ x = omega arith in
    decode_odd (code xs) xs x f 0 (decode-code xs) h ∙ ap (λ y. y ∷ xs) z

abbrev pub encode : Bytes → Text
encode [] = []
encode (x ∷ xs) = (65536 + code (x ∷ xs)) ∷ []

abbrev decode_text : Text → Option Bytes
decode_text [] = some []
decode_text (c ∷ _) = let n = c - 65536 in some (decode n n 0)

-- Padding in front: its length, and zeros.
abbrev pad : Bytes → Bytes
pad p = let n = 15 - length p % 16 in n ∷ (replicate n 0 ++ p)

abbrev unpad : Bytes → Option Bytes
unpad [] = none
unpad (n ∷ r) = some (drop n r)

abbrev tag : Bytes → Bytes → Bytes → Bytes → ℕ
tag key nonce aad p = sum key + sum nonce + sum aad + sum p

abbrev sign : ℕ → Bytes → Bytes → Bytes
sign key id m = key ∷ sum id ∷ sum m ∷ []

abbrev unwrap : ℕ → Bytes → Option Bytes
unwrap key [] = none
unwrap key (x ∷ m) = if key == x then some m else none

abbrev first : Bytes → Option ℕ
first [] = none
first (x ∷ _) = some x

abbrev ccm_open : ℕ → Bytes → ℕ → Option Bytes
ccm_open context j n =
    let p = take (length j - n) j in
    if beq (drop (length j - n) j) (replicate n (context + sum p)) then some p else none

abbrev pub toy : Core
toy = record {
  Sm2PrivateKey = ℕ;
  Sm2PublicKey = ℕ;
  Certificate = ℕ;
  Rng = ℕ;
  to_bytes_be = λ k. k ∷ [];
  to_sec1_uncompressed = λ k. k ∷ [];
  pem_decode = λ t _. some t;
  pkcs8_decrypt = λ der _. first der;
  spki_decode = first;
  certificate_from_der = first;
  subject_public_key = λ c. c;
  sm2_encrypt = λ key m r. (some (key ∷ m), r + 1);
  sm2_decrypt = unwrap;
  sign_with_id = λ key id m r. (some (sign key id m), r + 1);
  verify_with_id = λ key id m s. beq s (sign key id m);
  cbc_encrypt = λ _ _ p. pad p;
  cbc_decrypt = λ _ _ c. unpad c;
  gcm_encrypt = λ key nonce aad p. some (p, replicate 16 (tag key nonce aad p));
  gcm_decrypt =
      λ key nonce aad c t. if beq t (replicate 16 (tag key nonce aad c)) then some c else none;
  ccm_encrypt = λ key nonce aad p n. some (p ++ replicate n (tag key nonce aad p));
  ccm_decrypt = λ key nonce aad j n. ccm_open (sum key + sum nonce + sum aad) j n;
  fill = λ n r. (some (replicate n (r % 256)), r + 1);
  base64_encode = encode;
  base64_decode = decode_text;
}

decode_text-encode : (b : Bytes) → decode_text (encode b) ≡ some b
decode_text-encode [] = refl
decode_text-encode (x ∷ xs) =
    let c = code (x ∷ xs) in
    let same : 65536 + c - 65536 ≡ c = omega arith in
    rw same (ap some (decode-code (x ∷ xs) c (omega arith)))

len-encode : (b : Bytes) → len (encode b) ≤ (length b + 2) / 3 * 4
unfolding utf8 utf8_char
len-encode [] = omega arith
len-encode (x ∷ xs) = ground arith

unpad-pad : (p : Bytes) → unpad (pad p) ≡ some p
unpad-pad p =
    let n = 15 - length p % 16 in
    let e : length (replicate n 0) ≡ n = length-replicate n 0 in
    ap some (subst (λ k. drop k (replicate n 0 ++ p) ≡ p) e (drop-append_length (replicate n 0) p))

length-pad : (p : Bytes) → length (pad p) ≡ (length p / 16 + 1) * 16
length-pad p =
    let n = 15 - length p % 16 in
    let zeros : Bytes = replicate n 0 in
    let e : length zeros ≡ n = length-replicate n 0 in
    rw (length-append (replicate n 0) p) (rw e (omega arith))

ccm_open_lem : (t n : ℕ) (p : Bytes) → ccm_open t (p ++ replicate n (t + sum p)) n ≡ some p
ccm_open_lem t n p =
    let r = replicate n (t + sum p) in
    let whole : length (p ++ r) - n ≡ length p =
      rw (length-append p r) (rw (length-replicate n (t + sum p)) (omega arith)) in
    rw whole (rw (take-append_length p r) (rw (drop-append_length p r) (rw (beq_refl r) refl)))

pub base64_lem : Base64 toy
base64_lem = record { decode-encode = decode_text-encode; len-encode = len-encode }

pub fills_lem : Fills toy
fills_lem = record { full = λ n r s e. cc (length-replicate n (r % 256), e) }

pub cbc_lem : Cbc toy
cbc_lem = record { undo = λ _ _ p. unpad-pad p; padded = λ _ _ p. length-pad p }

gcm_undo :
    (key nonce aad p : Bytes) {c t : Bytes}
    → toy.gcm_encrypt key nonce aad p ≡ some (c, t)
    → (toy.gcm_decrypt key nonce aad c t ≡ some p) × (length c ≡ length p) × (length t ≡ 16)
gcm_undo key nonce aad p {c} {t} e =
    let plain : p ≡ c = cc e in
    let tagged : replicate 16 (tag key nonce aad p) ≡ t = cc e in
    let size = length-replicate 16 (tag key nonce aad p) in
    (
      rw (sym plain) (rw (sym tagged) (rw (beq_refl (replicate 16 (tag key nonce aad p))) refl)),
      cc plain,
      cc (tagged, size),
    )

ccm_undo :
    (key nonce aad p : Bytes) (n : ℕ) {j : Bytes}
    → toy.ccm_encrypt key nonce aad p n ≡ some j
    → (toy.ccm_decrypt key nonce aad j n ≡ some p) × (length j ≡ length p + n)
ccm_undo key nonce aad p n {j} e =
    let whole : p ++ replicate n (tag key nonce aad p) ≡ j = cc e in
    let size = length-append p (replicate n (tag key nonce aad p)) in
    let tail = length-replicate n (tag key nonce aad p) in
    (
      rw (sym whole) (ccm_open_lem (sum key + sum nonce + sum aad) n p),
      rw (sym whole) (rw size (rw tail refl)),
    )

pub aead_lem : Aead toy
aead_lem = record { gcm_undo = gcm_undo; ccm_undo = ccm_undo }

unwrap_lem :
    (key : ℕ) (m : Bytes) (r s : ℕ) {w : Bytes}
    → toy.sm2_encrypt key m r ≡ (some w, s)
    → (unwrap key w ≡ some m) × (length w ≤ length m + 128)
unwrap_lem key m r s {w} e =
    let whole : key ∷ m ≡ w = cc e in (rw (sym whole) (ground arith), rw (sym whole) (omega arith))

pub wraps_lem : (key : ℕ) → Wraps toy key key
wraps_lem key = record { unwrap = λ m r s e. unwrap_lem key m r s e }

verify_lem :
    (key : ℕ) (id m : Bytes) (r s : ℕ) {sig : Bytes}
    → toy.sign_with_id key id m r ≡ (some sig, s)
    → (toy.verify_with_id key id m sig ≡ true) × (length sig ≤ 128)
verify_lem key id m r s {sig} e =
    let whole : sign key id m ≡ sig = cc e in
    (rw (sym whole) (beq_refl (sign key id m)), rw (sym whole) (omega arith))

pub signs_lem : (key : ℕ) → Signs toy key key
signs_lem key = record { verify = λ id m r s e. verify_lem key id m r s e }
