-- ===== src/Header/Valid.antt =====
-- The invariant of `HeaderCollection` (src/header.rs): well-formed entries with pairwise different
-- names. Every insertion keeps it, and `revalidate` decides it.
use mathlib.Core.Path.{fun_ext}
use gmcrypto_envelope_lite.Base.{
  ◌≡◌, ◌↔◌, ◌⊎◌, refl, ap, ◌∙◌, Bool, true, false, not, ◌&&◌, ◌||◌, arith, beq, All, List, [], ◌∷◌,
  ◌++◌, append_assoc, append-nil, ok, err, ◌>>=◌, Result-cases, if◌then◌else◌, Bool-cases, inl, inr,
  ℕ,
}
use gmcrypto_envelope_lite.Text.{Text}
use gmcrypto_envelope_lite.Error.{Error, Fallible, header_conflict}
use gmcrypto_envelope_lite.Header.Name
use gmcrypto_envelope_lite.Header.Name.{HeaderName, name_eq}
use gmcrypto_envelope_lite.Header.Value
use gmcrypto_envelope_lite.Header.Value.{HeaderValue}
use gmcrypto_envelope_lite.Header.Laws.{
  IsName, IsValue, new-IsName, new-original, new-IsValue, new-text,
}
use gmcrypto_envelope_lite.Header.Collection.{
  Entry, HeaderCollection, default, settle, has_name, insert_typed, insert, insert_again,
  revalidate, insert_all,
}

abbrev pub IsEntry : Entry → Type 0
IsEntry e = IsName e.0 × IsValue e.1

-- No two entries have names that are equal up to case.
abbrev pub Distinct : List Entry → Type 0
Distinct [] = Unit
Distinct (e ∷ es) = (has_name e.0 es ≡ false) × Distinct es

-- No name of the second list stands in the first.
abbrev pub Apart : List Entry → List Entry → Type 0
Apart acc es = All (λ (e : Entry). has_name e.0 acc ≡ false) es

pub record IsValid (c : HeaderCollection) : Type 0 where
  pub formed : All IsEntry c.entries
  pub distinct : Distinct c.entries

pub beq_sym : (xs ys : List ℕ) → beq xs ys ≡ beq ys xs
beq_sym [] [] = refl
beq_sym [] (y ∷ ys) = refl
beq_sym (x ∷ xs) [] = refl
beq_sym (x ∷ xs) (y ∷ ys) = ground (arith, beq_sym xs ys)

pub has_name-append :
    (n : HeaderName) (xs ys : List Entry) → has_name n (xs ++ ys) ≡ (has_name n xs || has_name n ys)
has_name-append n [] ys = refl
has_name-append n (x ∷ xs) ys = ground (arith, has_name-append n xs ys)

-- The test that a run of insertions makes, one name after the other.
unfoldable pub fits : List Entry → List Entry → Bool
fits acc [] = true
fits acc (e ∷ es) = not (has_name e.0 acc) && fits (acc ++ e ∷ []) es

pub insert_all_lem :
    (c : HeaderCollection) (es : List Entry)
    → insert_all c es ≡ (
        if fits c.entries es
        then ok (record { entries = c.entries ++ es })
        else err header_conflict)
unfolding insert_all insert_typed fits
insert_all_lem c [] = rw append-nil
insert_all_lem c ((n, v) ∷ es) = elim (Bool-cases (has_name n c.entries)) [
  | inl e ↦ rw e
  | inr e ↦
      rw e
        (insert_all_lem (record { entries = c.entries ++ (n, v) ∷ [] }) es ∙ rw append_assoc refl)
]

-- Inserting the texts of a well-formed entry inserts the entry.
pub insert-eq-insert_typed :
    (n : HeaderName) (v : HeaderValue) (c : HeaderCollection)
    → IsName n
    → IsValue v
    → insert n.original v.text c ≡ insert_typed n v c
unfolding insert
insert-eq-insert_typed n v c hn hv = rw (new-original n hn, new-text v hv)

pub insert_again-eq-insert_all :
    (c : HeaderCollection) (es : List Entry) → All IsEntry es → insert_again c es ≡ insert_all c es
unfolding insert_again insert_all
insert_again-eq-insert_all c [] h = refl
insert_again-eq-insert_all c ((n, v) ∷ es) h = rw (insert-eq-insert_typed n v c h.0.0 h.0.1) (
    ap (λ k. settle (insert_typed n v c) >>= k)
      (fun_ext (λ c'. insert_again-eq-insert_all c' es h.1)))

Apart-snoc :
    (acc es : List Entry) (x : Entry)
    → (Apart (acc ++ x ∷ []) es) ↔ (Apart acc es × (has_name x.0 es ≡ false))
Apart-snoc acc [] x = ground arith
Apart-snoc acc (e ∷ es) x = ground (
  arith,
  has_name-append e.0 acc (x ∷ []),
  Apart-snoc acc es x,
  beq_sym x.0.canonical e.0.canonical,
)

pub fits_iff : (acc es : List Entry) → (fits acc es ≡ true) ↔ (Apart acc es × Distinct es)
unfolding fits
fits_iff acc [] = (λ _. (tt, tt), λ _. refl)
fits_iff acc (e ∷ es) = ground (arith, fits_iff (acc ++ e ∷ []) es, Apart-snoc acc es e)

pub Apart-nil : (es : List Entry) → Apart [] es
Apart-nil [] = tt
Apart-nil (e ∷ es) = (refl, Apart-nil es)

-- A collection of well-formed entries passes `revalidate` exactly when no two of its names are
-- equal up to case, and fails with the header conflict otherwise.
pub revalidate_iff :
    (c : HeaderCollection)
    → All IsEntry c.entries
    → ((revalidate c ≡ ok tt) ↔ Distinct c.entries)
      × ((revalidate c ≡ ok tt) ⊎ (revalidate c ≡ err header_conflict))
unfolding revalidate
revalidate_iff c h =
    rw (insert_again-eq-insert_all default c.entries h, insert_all_lem default c.entries)
      (ground (arith, fits_iff [] c.entries, Apart-nil c.entries))

All-snoc : (es : List Entry) (e : Entry) → All IsEntry es → IsEntry e → All IsEntry (es ++ e ∷ [])
All-snoc [] e hs h = (h, tt)
All-snoc (x ∷ es) e hs h = (hs.0, All-snoc es e hs.1 h)

Distinct-snoc :
    (es : List Entry) (e : Entry) → Distinct es → has_name e.0 es ≡ false → Distinct (es ++ e ∷ [])
Distinct-snoc [] e hs h = (refl, tt)
Distinct-snoc (x ∷ es) e hs h = ground (
  arith,
  has_name-append x.0 es (e ∷ []),
  Distinct-snoc es e,
  beq_sym x.0.canonical e.0.canonical,
)

insert_typed-IsValid :
    (n : HeaderName) (v : HeaderValue) (c : HeaderCollection)
    → IsName n
    → IsValue v
    → IsValid c
    → IsValid (insert_typed n v c).1
unfolding insert_typed
insert_typed-IsValid n v c hn hv h = elim (Bool-cases (has_name n c.entries)) [
  | inl e ↦ rw e h
  | inr e ↦ rw e (record {
    formed = All-snoc c.entries (n, v) h.formed (hn, hv);
    distinct = Distinct-snoc c.entries (n, v) h.distinct e;
  })
]

-- What `insert` leaves behind: a longer collection that ends in the given texts, or what was there.
pub data Inserted (t u : Text) (c : HeaderCollection)
    : Fallible (Unit {0}) × HeaderCollection → Type 0 where
  added :
      (n : HeaderName) (v : HeaderValue)
      → n.original ≡ t
      → v.text ≡ u
      → IsEntry (n, v)
      → has_name n c.entries ≡ false
      → Inserted t u c (ok tt, record { entries = c.entries ++ (n, v) ∷ [] })
  refused : (e : Error) → Inserted t u c (err e, c)

pub insert-Inserted : (t u : Text) (c : HeaderCollection) → Inserted t u c (insert t u c)
unfolding insert insert_typed
insert-Inserted t u c = elim (Result-cases (Name.new t)) [
  | inr (e, p) ↦ rw p (refused e)
  | inl (n, p) ↦ elim (Result-cases (Value.new u)) [
    | inr (e, q) ↦ rw (p, q) (refused e)
    | inl (v, q) ↦ elim (Bool-cases (has_name n c.entries)) [
      | inl r ↦ rw (p, q) (rw r (refused header_conflict))
      | inr r ↦
          rw (p, q)
            (rw r (
              added n v (new-IsName t n p).0 (new-IsValue u v q).0
                ((new-IsName t n p).1, (new-IsValue u v q).1) r))
    ]
  ]
]

pub Inserted-IsValid :
    {t u : Text} {c : HeaderCollection} {m : Fallible (Unit {0}) × HeaderCollection}
    → Inserted t u c m
    → IsValid c
    → IsValid m.1
Inserted-IsValid {c = c} (added n v e f g fresh) h = record {
  formed = All-snoc c.entries (n, v) h.formed g;
  distinct = Distinct-snoc c.entries (n, v) h.distinct fresh;
}
Inserted-IsValid (refused e) h = h

-- Whatever is inserted, and whether or not it is refused, a valid collection stays valid.
pub insert-IsValid : (t u : Text) (c : HeaderCollection) → IsValid c → IsValid (insert t u c).1
insert-IsValid t u c h = Inserted-IsValid (insert-Inserted t u c) h
