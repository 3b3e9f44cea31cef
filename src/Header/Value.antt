-- ===== src/Header/Value.antt =====
-- `HeaderValue` of src/header.rs.
use gmcrypto_envelope_lite.Base.{ℕ, Bool, not, ◌&&◌, ◌||◌, leb, ◌==◌, any, ok, ◌>>◌, fail_if}
use gmcrypto_envelope_lite.Text.{Text}
use gmcrypto_envelope_lite.Error.{Fallible, invalid_header}

pub record HeaderValue : Type 0 where
  pub text : Text

unfoldable pub is_disallowed_value_character : ℕ → Bool
is_disallowed_value_character c = (leb c 0x1f && not (c == 0x9)) || c == 0x7f

-- `HeaderValue::new`
unfoldable pub new : Text → Fallible HeaderValue
new value = do
  fail_if (any is_disallowed_value_character value) invalid_header
  ok (record { text = value })

-- `HeaderValue::as_str`
abbrev pub as_str : HeaderValue → Text
as_str v = v.text
