-- ===== src/Header/Append.antt =====
-- `append_checked` and `get` of `HeaderCollection` (src/header.rs).
use mathlib.Core.Bool.{false≢true}
use gmcrypto_envelope_lite.Base.{
  ◌≡◌, ◌↔◌, ◌⊎◌, refl, sym, ◌∙◌, Bool, true, false, Bool-cases, inl, inr, beq, beq-eq, eq-beq,
  arith, any, All, List, [], ◌∷◌, ◌++◌, some, ok, err,
}
use gmcrypto_envelope_lite.Text.{Text, eq_ignore_ascii_case}
use gmcrypto_envelope_lite.Text.Laws.{eq_ignore_ascii_case-beq}
use gmcrypto_envelope_lite.Error.{header_conflict}
use gmcrypto_envelope_lite.Header.Name.{HeaderName, name_eq}
use gmcrypto_envelope_lite.Header.Collection.{
  Entry, HeaderCollection, has_name, append_test, append_checked, find, get,
}
use gmcrypto_envelope_lite.Header.Valid.{
  IsEntry, IsValid, Distinct, Apart, revalidate_iff, has_name-append, beq_sym,
}

-- Some entry of the second list has a name that stands in the first.
abbrev collides : List Entry → List Entry → Bool
collides es fs = any (λ (candidate : Entry). has_name candidate.0 es) fs

collides_iff : (es fs : List Entry) → (collides es fs ≡ false) ↔ Apart es fs
collides_iff es [] = (λ _. tt, λ _. refl)
collides_iff es (f ∷ fs) = ground (arith, collides_iff es fs)

All-append : (es fs : List Entry) → All IsEntry es → All IsEntry fs → All IsEntry (es ++ fs)
All-append [] fs he hf = hf
All-append (e ∷ es) fs he hf = (he.0, All-append es fs he.1 hf)

Apart-tail :
    (e : Entry) (es fs : List Entry) → Apart (e ∷ es) fs → Apart es fs × (has_name e.0 fs ≡ false)
Apart-tail e es [] h = (tt, refl)
Apart-tail e es (f ∷ fs) h = ground (arith, Apart-tail e es fs, beq_sym e.0.canonical f.0.canonical)

Distinct-append :
    (es fs : List Entry) → Distinct es → Distinct fs → Apart es fs → Distinct (es ++ fs)
Distinct-append [] fs he hf a = hf
Distinct-append (e ∷ es) fs he hf a =
    let t = Apart-tail e es fs a in
    (has_name-append e.0 es fs ∙ rw (he.0, t.1), Distinct-append es fs he.1 hf t.0)

-- Between valid collections `append_checked` succeeds exactly when no name stands in both up to
-- case. Then the entries are the old ones and the new ones after them, and are valid; otherwise it
-- is the header conflict and the collection is untouched.
pub append_checked_lem :
    (c other : HeaderCollection)
    → IsValid c
    → IsValid other
    → (Apart c.entries other.entries
        × (append_checked c other ≡ (ok tt, record { entries = c.entries ++ other.entries }))
        × IsValid (append_checked c other).1)
      ⊎ (¬ (Apart c.entries other.entries) × (append_checked c other ≡ (err header_conflict, c)))
unfolding append_checked append_test
append_checked_lem c other hc ho =
    rw
      (
        (revalidate_iff c hc.formed).0.1 hc.distinct,
        (revalidate_iff other ho.formed).0.1 ho.distinct,
      )
      (elim (Bool-cases (collides c.entries other.entries)) [
        | inl hit ↦
            rw hit
              (inr (λ a. false≢true (sym ((collides_iff c.entries other.entries).1 a) ∙ hit), refl))
        | inr clear ↦ rw clear (
            let apart = (collides_iff c.entries other.entries).0 clear in
            inl (
              apart,
              refl,
              record {
                formed = All-append c.entries other.entries hc.formed ho.formed;
                distinct = Distinct-append c.entries other.entries hc.distinct ho.distinct apart;
              },
            ))
      ])

All-middle : (xs ys : List Entry) (e : Entry) → All IsEntry (xs ++ e ∷ ys) → IsEntry e
All-middle [] ys e h = h.0
All-middle (x ∷ xs) ys e h = All-middle xs ys e h.1

has_name_middle :
    (n : HeaderName) (xs ys : List Entry) (e : Entry)
    → has_name n (xs ++ e ∷ ys) ≡ false
    → name_eq e.0 n ≡ false
has_name_middle n [] ys e h = ground arith
has_name_middle n (x ∷ xs) ys e h = has_name_middle n xs ys e (ground arith)

-- An entry before the one with the name that is sought has another name.
other_name :
    (x e : Entry) (xs ys : List Entry) (name : Text)
    → IsValid (record { entries = x ∷ xs ++ e ∷ ys })
    → eq_ignore_ascii_case e.0.original name ≡ true
    → eq_ignore_ascii_case x.0.original name ≡ false
other_name x e xs ys name h same = elim (Bool-cases (eq_ignore_ascii_case x.0.original name)) [
  | inr clear ↦ clear
  | inl hit ↦
      let ne : beq e.0.canonical x.0.canonical ≡ false = has_name_middle x.0 xs ys e h.distinct.0 in
      let fe = (All-middle xs ys e h.formed.1).0.folded in
      let fx = h.formed.0.0.folded in
      let pe = beq-eq _ _ (sym (eq_ignore_ascii_case-beq e.0.original name) ∙ same) in
      let px = beq-eq _ _ (sym (eq_ignore_ascii_case-beq x.0.original name) ∙ hit) in
      absurd (false≢true (sym ne ∙ eq-beq _ _ (fe ∙ pe ∙ sym (fx ∙ px))))
]

-- In a valid collection a name is looked up in any casing.
pub get_lem :
    (xs ys : List Entry) (e : Entry) (name : Text)
    → IsValid (record { entries = xs ++ e ∷ ys })
    → eq_ignore_ascii_case e.0.original name ≡ true
    → get name (record { entries = xs ++ e ∷ ys }) ≡ some e.1
unfolding get find
get_lem [] ys e name h same = rw same
get_lem (x ∷ xs) ys e name h same =
    rw (other_name x e xs ys name h same)
      (get_lem xs ys e name (record { formed = h.formed.1; distinct = h.distinct.1 }) same)
