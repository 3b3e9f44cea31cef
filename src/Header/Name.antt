-- ===== src/Header/Name.antt =====
-- `HeaderName` of src/header.rs.
use gmcrypto_envelope_lite.Base.{
  ℕ, Bool, not, ◌&&◌, ◌||◌, leb, ◌==◌, is_empty, all, beq, ok, ◌>>◌, fail_if,
}
use gmcrypto_envelope_lite.Text.{Text, utf8, to_ascii_lowercase}
use gmcrypto_envelope_lite.Error.{Fallible, invalid_header}

pub record HeaderName : Type 0 where
  pub original : Text
  pub canonical : Text

unfoldable pub is_ascii_alphanumeric : ℕ → Bool
is_ascii_alphanumeric b =
    (leb b'0' b && leb b b'9') || (leb b'A' b && leb b b'Z') || (leb b'a' b && leb b b'z')

unfoldable pub is_token_byte : ℕ → Bool
unfolding is_ascii_alphanumeric
is_token_byte b =
    is_ascii_alphanumeric b
    || b == b'!'
    || b == b'#'
    || b == b'$'
    || b == b'%'
    || b == b'&'
    || b == 0x27
    || b == b'*'
    || b == b'+'
    || b == b'-'
    || b == b'.'
    || b == b'^'
    || b == b'_'
    || b == 0x60
    || b == b'|'
    || b == b'~'

-- `HeaderName::new`
unfoldable pub new : Text → Fallible HeaderName
new name = do
  fail_if (is_empty name || not (all is_token_byte (utf8 name))) invalid_header
  ok (record { original = name; canonical = to_ascii_lowercase name })

-- `HeaderName::as_str`
abbrev pub as_str : HeaderName → Text
as_str n = n.original

-- `PartialEq for HeaderName`
abbrev pub name_eq : HeaderName → HeaderName → Bool
name_eq a b = beq a.canonical b.canonical
