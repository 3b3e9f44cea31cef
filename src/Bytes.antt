-- ===== src/Bytes.antt =====
-- Machine words of the crate: a 64-bit `usize`, its checked and saturating operations, and
-- `u64::to_be_bytes`.
use native.Mathlib.Nat.{pow-suc}
use gmcrypto_envelope_lite.Base.{
  ℕ, zero, suc, ◌+◌, ◌-◌, ◌*◌, ◌/◌, ◌%◌, ◌^◌, ◌<◌, ◌≡◌, refl, sym, ◌∙◌, Option, none, some, List,
  [], ◌∷◌, ◌++◌, arith, ltb, if◌then◌else◌, length, length-append, append_inj,
}

abbrev pub Bytes : Type 0
Bytes = List ℕ

-- One more than the largest `usize` and `u64`.
abbrev pub word_bound : ℕ
word_bound = 2 ^ 64

abbrev pub usize_max : ℕ
usize_max = 2 ^ 64 - 1

-- `usize::checked_add`
abbrev pub checked_add : ℕ → ℕ → Option ℕ
checked_add a b = if ltb (a + b) word_bound then some (a + b) else none

-- `usize::checked_mul`
abbrev pub checked_mul : ℕ → ℕ → Option ℕ
checked_mul a b = if ltb (a * b) word_bound then some (a * b) else none

-- `usize::saturating_add`
abbrev pub saturating_add : ℕ → ℕ → ℕ
saturating_add a b = if ltb (a + b) word_bound then a + b else usize_max

-- `Option::and_then`
infixl 5 ◌and_then◌
abbrev pub ◌and_then◌ : {A B : Type 0} → Option A → (A → Option B) → Option B
none and_then f = none
(some a) and_then f = f a

-- The k lowest bytes of a number, the highest of them first.
unfoldable pub be_bytes : ℕ → ℕ → Bytes
be_bytes zero n = []
be_bytes (suc k) n = be_bytes k (n / 256) ++ n % 256 ∷ []

-- `u64::to_be_bytes`
abbrev pub to_be_bytes : ℕ → Bytes
to_be_bytes n = be_bytes 8 n

pub length-be_bytes : (k n : ℕ) → length (be_bytes k n) ≡ k
unfolding be_bytes
length-be_bytes zero n = refl
length-be_bytes (suc k) n =
    omega (arith, length-append (be_bytes k (n / 256)) (n % 256 ∷ []), length-be_bytes k (n / 256))

-- A number below 256 ^ k is determined by its k bytes.
pub be_bytes-inj : (k m n : ℕ) → m < 256 ^ k → n < 256 ^ k → be_bytes k m ≡ be_bytes k n → m ≡ n
unfolding be_bytes
be_bytes-inj zero m n hm hn e = omega arith
be_bytes-inj (suc k) m n hm hn e =
    let split =
      append_inj (be_bytes k (m / 256)) (be_bytes k (n / 256)) (m % 256 ∷ []) (n % 256 ∷ [])
        (length-be_bytes k (m / 256) ∙ sym (length-be_bytes k (n / 256))) e in
    let low : m % 256 ≡ n % 256 = cc (split.1) in
    let high : m / 256 ≡ n / 256 =
      be_bytes-inj k (m / 256) (n / 256) (omega (arith, pow-suc 256 k))
        (omega (arith, pow-suc 256 k)) split.0 in
    omega arith
