-- ===== src/Header/Collection.antt =====
-- `HeaderCollection` of src/header.rs. A method that takes `&mut self` returns its result together
-- with the collection that it leaves behind, on errors too.
use gmcrypto_envelope_lite.Base.{
  ℕ, Bool, Option, none, some, List, [], ◌∷◌, ◌++◌, length, is_empty, any, ok, err, ◌>>=◌, ◌>>◌,
  fail_if, if◌then◌else◌,
}
use gmcrypto_envelope_lite.Text.{Text, eq_ignore_ascii_case}
use gmcrypto_envelope_lite.Error.{Fallible, header_conflict}
use gmcrypto_envelope_lite.Header.Name
use gmcrypto_envelope_lite.Header.Name.{HeaderName, name_eq}
use gmcrypto_envelope_lite.Header.Value
use gmcrypto_envelope_lite.Header.Value.{HeaderValue}

abbrev pub Entry : Type 0
Entry = HeaderName × HeaderValue

pub record HeaderCollection : Type 0 where
  pub entries : List Entry

-- `HeaderCollection::default`
abbrev pub default : HeaderCollection
default = record { entries = [] }

-- What a method on `&mut self` returns and leaves behind.
abbrev pub Mutation : Type 0
Mutation = Fallible (Unit {0}) × HeaderCollection

-- `?` on a call that mutates a collection which the caller owns.
abbrev pub settle : Mutation → Fallible HeaderCollection
settle (ok _, c) = ok c
settle (err e, c) = err e

-- Whether an entry of the list has this name.
abbrev pub has_name : HeaderName → List Entry → Bool
has_name name es = any (λ (candidate : Entry). name_eq candidate.0 name) es

unfoldable pub insert_typed : HeaderName → HeaderValue → HeaderCollection → Mutation
insert_typed name value c =
    if has_name name c.entries
    then (err header_conflict, c)
    else (ok tt, record { entries = c.entries ++ (name, value) ∷ [] })

abbrev insert_parsed : Fallible Entry → HeaderCollection → Mutation
insert_parsed (ok e) c = insert_typed e.0 e.1 c
insert_parsed (err e) c = (err e, c)

unfoldable pub insert : Text → Text → HeaderCollection → Mutation
insert name value c = insert_parsed (do n ← Name.new name; v ← Value.new value; ok (n, v)) c

-- The loop of `from_pairs` over the pairs that are left.
unfoldable pub insert_pairs : HeaderCollection → List (Text × Text) → Fallible HeaderCollection
insert_pairs c [] = ok c
insert_pairs c ((name, value) ∷ rest) = do c' ← settle (insert name value c); insert_pairs c' rest

unfoldable pub from_pairs : List (Text × Text) → Fallible HeaderCollection
unfolding insert_pairs
from_pairs headers = insert_pairs default headers

-- The loop of `revalidate`.
unfoldable pub insert_again : HeaderCollection → List Entry → Fallible HeaderCollection
insert_again validated [] = ok validated
insert_again validated ((name, value) ∷ rest) = do
  validated' ← settle (insert (Name.as_str name) (Value.as_str value) validated)
  insert_again validated' rest

unfoldable pub revalidate : HeaderCollection → Fallible (Unit {0})
unfolding insert_again
revalidate c = do insert_again default c.entries; ok tt

-- The loop of `from_typed_pairs`.
unfoldable pub insert_all : HeaderCollection → List Entry → Fallible HeaderCollection
insert_all c [] = ok c
insert_all c ((name, value) ∷ rest) = do c' ← settle (insert_typed name value c); insert_all c' rest

unfoldable pub from_typed_pairs : List Entry → Fallible HeaderCollection
unfolding insert_all
from_typed_pairs headers = do c ← insert_all default headers; revalidate c; ok c

-- The two checks and the collision test of `append_checked`.
unfoldable pub append_test : HeaderCollection → HeaderCollection → Fallible (Unit {0})
append_test c other = do
  revalidate c
  revalidate other
  fail_if (any (λ (candidate : Entry). has_name candidate.0 c.entries) other.entries)
      header_conflict

abbrev extend_if : Fallible (Unit {0}) → HeaderCollection → HeaderCollection → Mutation
extend_if (err e) c other = (err e, c)
extend_if (ok _) c other = (ok tt, record { entries = c.entries ++ other.entries })

unfoldable pub append_checked : HeaderCollection → HeaderCollection → Mutation
append_checked c other = extend_if (append_test c other) c other

unfoldable pub find : Text → List Entry → Option HeaderValue
find name [] = none
find name ((candidate, value) ∷ rest) =
    if eq_ignore_ascii_case (Name.as_str candidate) name then some value else find name rest

-- `HeaderCollection::get`
unfoldable pub get : Text → HeaderCollection → Option HeaderValue
unfolding find
get name c = find name c.entries

-- `HeaderCollection::len`
abbrev pub count : HeaderCollection → ℕ
count c = length c.entries

-- `HeaderCollection::is_empty`
abbrev pub has_none : HeaderCollection → Bool
has_none c = is_empty c.entries

-- `HeaderCollection::into_pairs` and `iter`
abbrev pub into_pairs : HeaderCollection → List Entry
into_pairs c = c.entries
