-- ===== src/Header/Pairs.antt =====
-- `HeaderCollection::from_pairs` and `from_typed_pairs` (src/header.rs) build exactly the valid
-- collections.
use mathlib.Core.Path.{fun_ext}
use mathlib.Core.List.{map-append}
use mathlib.Core.Bool.{false≢true}
use gmcrypto_envelope_lite.Base.{
  ◌≡◌, ◌↔◌, refl, sym, ap, ◌∙◌, Bool-cases, inl, inr, All, List, [], ◌∷◌, ◌++◌, append_assoc,
  append-nil, map, ok, ◌>>=◌,
}
use gmcrypto_envelope_lite.Text.{Text}
use gmcrypto_envelope_lite.Error.{Fallible}
use gmcrypto_envelope_lite.Header.Collection.{
  Entry, HeaderCollection, default, settle, insert, insert_pairs, from_pairs, insert_again,
  from_typed_pairs,
}
use gmcrypto_envelope_lite.Header.Valid.{
  IsEntry, IsValid, Inserted, added, refused, insert-Inserted, Inserted-IsValid, Apart-nil, fits,
  fits_iff, insert_all_lem, insert_again-eq-insert_all, revalidate_iff,
}

-- The texts of the entries, as they go on the wire.
abbrev pub texts : List Entry → List (Text × Text)
texts es = map (λ (e : Entry). (e.0.original, e.1.text)) es

after_insert :
    (t u : Text) (c d : HeaderCollection) (ps : List (Text × Text))
    {m : Fallible (Unit {0}) × HeaderCollection}
    → Inserted t u c m
    → (settle m >>= λ c'. insert_pairs c' ps) ≡ ok d
    → (insert_pairs m.1 ps ≡ ok d) × (texts m.1.entries ≡ texts c.entries ++ (t, u) ∷ [])
after_insert t u c d ps (added n v p q f fresh) e =
    (e, map-append _ c.entries ((n, v) ∷ []) ∙ cc (p, q))
after_insert t u c d ps (refused x) e = cc

insert_pairs-IsValid :
    (ps : List (Text × Text)) (c d : HeaderCollection)
    → IsValid c
    → insert_pairs c ps ≡ ok d
    → IsValid d × (texts d.entries ≡ texts c.entries ++ ps)
unfolding insert_pairs
insert_pairs-IsValid [] c d h e =
    let same : c ≡ d = cc in (rw same at h, rw same (sym (append-nil _)))
insert_pairs-IsValid ((t, u) ∷ ps) c d h e =
    let step = insert-Inserted t u c in
    let s = after_insert t u c d ps step e in
    let rest = insert_pairs-IsValid ps (insert t u c).1 d (Inserted-IsValid step h) s.0 in
    (rest.0, rest.1 ∙ ap (λ r. r ++ ps) s.1 ∙ append_assoc (texts c.entries) ((t, u) ∷ []) ps)

insert_pairs-texts :
    (c : HeaderCollection) (es : List Entry) → insert_pairs c (texts es) ≡ insert_again c es
unfolding insert_pairs insert_again
insert_pairs-texts c [] = refl
insert_pairs-texts c ((n, v) ∷ es) =
    (ap (λ k. settle (insert n.original v.text c) >>= k) (fun_ext (λ c'. insert_pairs-texts c' es)))

-- `from_pairs` returns a collection exactly when it is the valid collection whose entries, in
-- order, have the given texts.
pub from_pairs_iff :
    (ps : List (Text × Text)) (c : HeaderCollection)
    → (from_pairs ps ≡ ok c) ↔ (IsValid c × (texts c.entries ≡ ps))
unfolding from_pairs
from_pairs_iff ps c = (
  λ e. insert_pairs-IsValid ps default c (record { formed = tt; distinct = tt }) e,
  λ h.
      rw
        (
          ← h.1,
          insert_pairs-texts default c.entries,
          insert_again-eq-insert_all default c.entries h.0.formed,
          insert_all_lem default c.entries,
        )
        (rw ((fits_iff [] c.entries).1 (Apart-nil c.entries, h.0.distinct))),
)

-- Typed pairs that are well formed one by one are accepted exactly when no two names are equal up
-- to case, and then they are the collection's entries.
pub from_typed_pairs_iff :
    (es : List Entry) (c : HeaderCollection)
    → All IsEntry es
    → (from_typed_pairs es ≡ ok c) ↔ (IsValid c × (c.entries ≡ es))
unfolding from_typed_pairs
from_typed_pairs_iff es c h =
    let formed : HeaderCollection = record { entries = es } in
    let again = revalidate_iff formed h in
    let first = fits_iff [] es in
    let none_taken = Apart-nil es in
    rw (insert_all_lem default es) (elim (Bool-cases (fits [] es)) [
      | inl yes_fits ↦ rw yes_fits (
          rw (again.0.1 (first.0 yes_fits).1) (
            λ e.
                let same : formed ≡ c = cc in
                rw (← same) (record { formed = h; distinct = (first.0 yes_fits).1 }, refl),
            λ v. ap (λ k. ok (record { entries = k })) (sym v.1),
          ))
      | inr no_fit ↦ rw no_fit (
        λ e. cc,
        λ v. absurd (false≢true (sym no_fit ∙ first.1 (none_taken, rw v.1 at v.0.distinct))),
      )
    ])
