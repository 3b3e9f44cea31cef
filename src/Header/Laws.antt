-- ===== src/Header/Laws.antt =====
-- What `HeaderName::new` and `HeaderValue::new` of src/header.rs accept, and when two names are equal.
use gmcrypto_envelope_lite.Base.{◌≡◌, true, false, arith, is_empty, any, all, beq, ok, ap₂}
use gmcrypto_envelope_lite.Text.{Text, utf8, to_ascii_lowercase, eq_ignore_ascii_case}
use gmcrypto_envelope_lite.Text.Laws.{eq_ignore_ascii_case-beq}
use gmcrypto_envelope_lite.Header.Name
use gmcrypto_envelope_lite.Header.Name.{HeaderName, name_eq, is_token_byte}
use gmcrypto_envelope_lite.Header.Value
use gmcrypto_envelope_lite.Header.Value.{HeaderValue, is_disallowed_value_character}

-- A nonempty token with its lower-case form beside it.
pub record IsName (n : HeaderName) : Type 0 where
  pub nonempty : is_empty n.original ≡ false
  pub token : all is_token_byte (utf8 n.original) ≡ true
  pub folded : n.canonical ≡ to_ascii_lowercase n.original

abbrev pub IsValue : HeaderValue → Type 0
IsValue v = any is_disallowed_value_character v.text ≡ false

pub new-IsName : (t : Text) (n : HeaderName) → Name.new t ≡ ok n → (n.original ≡ t) × IsName n
unfolding Name.new
new-IsName t n h = ground arith

-- A name that `new` built is built again from its own text.
pub new-original : (n : HeaderName) → IsName n → Name.new n.original ≡ ok n
unfolding Name.new
new-original n h = ground arith

pub new-IsValue : (t : Text) (v : HeaderValue) → Value.new t ≡ ok v → (v.text ≡ t) × IsValue v
unfolding Value.new
new-IsValue t v h = ground arith

pub new-text : (v : HeaderValue) → IsValue v → Value.new v.text ≡ ok v
unfolding Value.new
new-text v h = ground arith

-- Two well-formed names are equal, by their lower-case forms, exactly when their texts are equal up
-- to ASCII case.
pub name_eq-eq_ignore_ascii_case :
    (a b : HeaderName)
    → IsName a
    → IsName b
    → name_eq a b ≡ eq_ignore_ascii_case a.original b.original
name_eq-eq_ignore_ascii_case a b ha hb =
    rw (eq_ignore_ascii_case-beq a.original b.original) (ap₂ beq ha.folded hb.folded)
