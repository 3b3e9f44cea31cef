-- ===== src/Adapter/Given.antt =====
-- What `HeaderSchemaBuilder::build` of src/adapter.rs asks of each header that it is given.
use gmcrypto_envelope_lite.Base.{
  ◌≡◌, ◌↔◌, arith, some, Option, List, ok, false, is_empty, ◌∷◌, ◌++◌, [], All,
}
use gmcrypto_envelope_lite.Text.{Text, trim}
use gmcrypto_envelope_lite.Header.Name.{HeaderName}
use gmcrypto_envelope_lite.Header.Name
use gmcrypto_envelope_lite.Header.Laws.{IsName, IsValue}
use gmcrypto_envelope_lite.Header.Value
use gmcrypto_envelope_lite.Header.Collection.{Entry}
use gmcrypto_envelope_lite.Adapter.Types.{
  CipherLocation, HeaderAuthentication, body, header, legacy, context_bound,
}
use gmcrypto_envelope_lite.Adapter.Builder

-- The builder was given this name, and it is well formed.
pub record Given (o : Option Text) (n : HeaderName) : Type 0 where
  pub text : o ≡ some n.original
  pub name : IsName n

pub required_header_iff :
    (o : Option Text) (n : HeaderName) → (Builder.required_header o ≡ ok n) ↔ Given o n
unfolding Builder.required_header Name.new
required_header_iff o n = ground arith

-- A static header: its texts as given, well formed, and its value not blank.
pub record IsStatic (p : Text × Text) (e : Entry) : Type 0 where
  pub name_text : e.0.original ≡ p.0
  pub value_text : e.1.text ≡ p.1
  pub name : IsName e.0
  pub value : IsValue e.1
  pub solid : is_empty (trim p.1) ≡ false

static_entry_iff : (p : Text × Text) (e : Entry) → (Builder.static_entry p ≡ ok e) ↔ IsStatic p e
unfolding Builder.static_entry Name.new Value.new
static_entry_iff (name, value) e = ground arith

-- The static headers, one by one.
abbrev pub AreStatic : List (Text × Text) → List Entry → Type 0
AreStatic [] [] = Unit
AreStatic [] (e ∷ es) = ⊥
AreStatic (p ∷ ps) [] = ⊥
AreStatic (p ∷ ps) (e ∷ es) = IsStatic p e × AreStatic ps es

pub static_entries_iff :
    (ps : List (Text × Text)) (es : List Entry)
    → (Builder.static_entries ps ≡ ok es) ↔ AreStatic ps es
unfolding Builder.static_entries
static_entries_iff [] [] = ground arith
static_entries_iff [] (e ∷ es) = ground arith
static_entries_iff (p ∷ ps) [] = ground arith
static_entries_iff (p ∷ ps) (e ∷ es) =
    ground (arith, static_entry_iff p e, static_entries_iff ps es)

-- A location that the caller gives holds a name that `HeaderName::new` made.
abbrev pub IsPlace : CipherLocation → Type 0
IsPlace body = Unit
IsPlace (header name) = IsName name

pub response_names-IsName :
    (place : CipherLocation) (kind : HeaderAuthentication) (id : HeaderName)
    → IsPlace place
    → IsName id
    → All IsName (Builder.cipher_names place ++ Builder.request_id_names kind id)
response_names-IsName body legacy id h i = tt
response_names-IsName body context_bound id h i = (i, tt)
response_names-IsName (header name) legacy id h i = (h, tt)
response_names-IsName (header name) context_bound id h i = (h, (i, tt))
