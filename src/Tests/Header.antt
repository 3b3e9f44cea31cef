-- ===== src/Tests/Header.antt =====
-- The theorems on header collections, at two headers.
use gmcrypto_envelope_lite.Base.{◌≡◌, ◌↔◌, ◌⊎◌, refl, ok, err, [], ◌∷◌, some}
use gmcrypto_envelope_lite.Text.{
  codes, utf8, utf8_char, to_ascii_lowercase, lower, eq_ignore_ascii_case,
}
use gmcrypto_envelope_lite.Error.{header_conflict}
use gmcrypto_envelope_lite.Header.Name.{is_token_byte, is_ascii_alphanumeric}
use gmcrypto_envelope_lite.Header.Value.{is_disallowed_value_character}
use gmcrypto_envelope_lite.Header.Collection.{
  Entry, HeaderCollection, from_pairs, append_checked, insert, get,
}
use gmcrypto_envelope_lite.Header.Laws
use gmcrypto_envelope_lite.Header.Valid.{IsEntry, IsValid, Apart, Distinct}
use gmcrypto_envelope_lite.Header.Valid
use gmcrypto_envelope_lite.Header.Pairs
use gmcrypto_envelope_lite.Header.Append

abbrev pub accept : Entry
accept =
    (record { original = codes "Accept"; canonical = codes "accept" }, record { text = codes "a" })

abbrev pub trace : Entry
trace = (record { original = codes "X-Id"; canonical = codes "x-id" }, record { text = codes "7" })

abbrev pub one : HeaderCollection
one = record { entries = accept ∷ [] }

abbrev pub other : HeaderCollection
other = record { entries = trace ∷ [] }

abbrev pub two : HeaderCollection
two = record { entries = accept ∷ trace ∷ [] }

accept-IsName : Laws.IsName accept.0
unfolding utf8 utf8_char is_token_byte is_ascii_alphanumeric to_ascii_lowercase lower
accept-IsName = record { nonempty = refl; token = refl; folded = refl }

trace-IsName : Laws.IsName trace.0
unfolding utf8 utf8_char is_token_byte is_ascii_alphanumeric to_ascii_lowercase lower
trace-IsName = record { nonempty = refl; token = refl; folded = refl }

pub accept-IsEntry : IsEntry accept
unfolding is_disallowed_value_character
accept-IsEntry = (accept-IsName, refl)

trace-IsEntry : IsEntry trace
unfolding is_disallowed_value_character
trace-IsEntry = (trace-IsName, refl)

one-IsValid : IsValid one
one-IsValid = record { formed = (accept-IsEntry, tt); distinct = (refl, tt) }

pub other-IsValid : IsValid other
other-IsValid = record { formed = (trace-IsEntry, tt); distinct = (refl, tt) }

two-IsValid : IsValid two
two-IsValid = record {
  formed = (accept-IsEntry, (trace-IsEntry, tt));
  distinct = (refl, (refl, tt));
}

from_pairs_iff_example :
    (from_pairs ((codes "Accept", codes "a") ∷ (codes "X-Id", codes "7") ∷ []) ≡ ok two) ↔ (
      IsValid two
      × (Pairs.texts two.entries ≡ (codes "Accept", codes "a") ∷ (codes "X-Id", codes "7") ∷ []))
from_pairs_iff_example =
    Pairs.from_pairs_iff ((codes "Accept", codes "a") ∷ (codes "X-Id", codes "7") ∷ []) two

append_checked_lem_example :
    (Apart one.entries other.entries
      × (append_checked one other ≡ (ok tt, two))
      × IsValid (append_checked one other).1)
    ⊎ (¬ (Apart one.entries other.entries)
        × (append_checked one other ≡ (err header_conflict, one)))
append_checked_lem_example = Append.append_checked_lem one other one-IsValid other-IsValid

insert-IsValid_example : IsValid (insert (codes "ACCEPT") (codes "b") one).1
insert-IsValid_example = Valid.insert-IsValid (codes "ACCEPT") (codes "b") one one-IsValid

get_lem_example : get (codes "x-ID") two ≡ some (record { text = codes "7" })
unfolding eq_ignore_ascii_case to_ascii_lowercase lower
get_lem_example = Append.get_lem (accept ∷ []) [] trace (codes "x-ID") two-IsValid refl
