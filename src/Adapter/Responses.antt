-- ===== src/Adapter/Responses.antt =====
-- How `HeaderProtocolAdapter::parse_response` of src/adapter.rs reads the response's headers.
use gmcrypto_envelope_lite.Base.{
  ◌≡◌, ◌↔◌, refl, sym, ap, ◌∙◌, arith, Bool, true, false, Option-cases, inl, inr, Option, some,
  none, List, [], ◌∷◌, ◌++◌, append_assoc, append-nil, ok, if◌then◌else◌,
}
use gmcrypto_envelope_lite.Text.{Text}
use gmcrypto_envelope_lite.Adapter.Types.{HeaderSchema}
use gmcrypto_envelope_lite.Adapter.Mapping.{
  Slot, Slots, no_slots, signature, wrapped_session_key, remote_signing_certificate_id, request_id,
  cipher, target, slot, store, replace, collect,
}

abbrev pub same_slot : Slot → Slot → Bool
same_slot signature signature = true
same_slot wrapped_session_key wrapped_session_key = true
same_slot remote_signing_certificate_id remote_signing_certificate_id = true
same_slot request_id request_id = true
same_slot cipher cipher = true
same_slot _ _ = false

abbrev pub goes_to : Slot → Option Slot → Bool
goes_to t none = false
goes_to t (some u) = same_slot u t

-- The values of all headers that belong to one variable.
unfoldable pub values_for : HeaderSchema → Slot → List (Text × Text) → List Text
values_for schema t [] = []
values_for schema t ((name, value) ∷ rest) =
    (if goes_to t (target schema name) then value ∷ [] else []) ++ values_for schema t rest

abbrev pub to_list : Option Text → List Text
to_list none = []
to_list (some v) = v ∷ []

slot-store :
    (u t : Slot) (v : Text) (s : Slots)
    → slot u s ≡ none
    → to_list (slot t (store u v s)) ≡ to_list (slot t s) ++ (if same_slot u t then v ∷ [] else [])
slot-store u t v s h = ground (arith, h)

to_list-inj : (a b : Option Text) → to_list a ≡ to_list b → a ≡ b
to_list-inj none none e = refl
to_list-inj none (some y) e = cc
to_list-inj (some x) none e = cc
to_list-inj (some x) (some y) e = cc

slots_ext : (r s : Slots) → ((t : Slot) → slot t r ≡ slot t s) → r ≡ s
slots_ext r s h =
    let a = h signature in
    let b = h wrapped_session_key in
    let c = h remote_signing_certificate_id in
    let d = h request_id in let e = h cipher in cc (a, b, c, d, e)

-- The slots that the loop ends with, by what was there and what the headers bring.
abbrev Gathers : HeaderSchema → List (Text × Text) → Slots → Slots → Type 0
Gathers schema hs s r =
    (t : Slot) → to_list (slot t r) ≡ to_list (slot t s) ++ values_for schema t hs

Gathers-nil : (schema : HeaderSchema) (s r : Slots) → Gathers schema [] s r → s ≡ r
unfolding values_for
Gathers-nil schema s r h =
    slots_ext s r
      (λ t. to_list-inj (slot t s) (slot t r) (sym (h t ∙ append-nil (to_list (slot t s)))))

Gathers-refl : (schema : HeaderSchema) (r : Slots) → Gathers schema [] r r
unfolding values_for
Gathers-refl schema r t = sym (append-nil (to_list (slot t r)))

-- Where a header is ignored the rest decides.
collect_skip :
    (schema : HeaderSchema) (n v : Text) (hs : List (Text × Text)) (s r : Slots)
    → target schema n ≡ none
    → Gathers schema ((n, v) ∷ hs) s r ↔ Gathers schema hs s r
unfolding values_for
collect_skip schema n v hs s r e = rw e (λ h t. h t, λ h t. h t)

collect_store :
    (schema : HeaderSchema) (n v : Text) (hs : List (Text × Text)) (s r : Slots) (u : Slot)
    → target schema n ≡ some u
    → slot u s ≡ none
    → Gathers schema ((n, v) ∷ hs) s r ↔ Gathers schema hs (store u v s) r
unfolding values_for
collect_store schema n v hs s r u e empty = rw e (
  λ h t.
      h t
      ∙ sym (
          append_assoc (to_list (slot t s)) (if same_slot u t then v ∷ [] else [])
            (values_for schema t hs))
      ∙ ap (λ l. l ++ values_for schema t hs) (sym (slot-store u t v s empty)),
  λ h t.
      h t
      ∙ ap (λ l. l ++ values_for schema t hs) (slot-store u t v s empty)
      ∙ append_assoc (to_list (slot t s)) (if same_slot u t then v ∷ [] else [])
          (values_for schema t hs),
)

same_slot_refl : (u : Slot) → same_slot u u ≡ true
same_slot_refl u = ground arith

collect_twice :
    (schema : HeaderSchema) (n v w : Text) (hs : List (Text × Text)) (s r : Slots) (u : Slot)
    → target schema n ≡ some u
    → slot u s ≡ some w
    → ¬ (Gathers schema ((n, v) ∷ hs) s r)
unfolding values_for
collect_twice schema n v w hs s r u e full h =
    let two : to_list (slot u r) ≡ w ∷ v ∷ values_for schema u hs =
      rw (e, full, same_slot_refl u) at (h u) in
    elim (Option-cases (slot u r)) [ inl p ↦ cc (rw p at two) | inr (x, p) ↦ cc (rw p at two) ]

collect_from_iff :
    (schema : HeaderSchema) (hs : List (Text × Text)) (s r : Slots)
    → (collect schema hs s ≡ ok r) ↔ Gathers schema hs s r
unfolding collect replace
collect_from_iff schema [] s r = (
  λ e. let same : s ≡ r = cc e in rw same (Gathers-refl schema r),
  λ h. ap ok (Gathers-nil schema s r h),
)
collect_from_iff schema ((n, v) ∷ hs) s r = elim (Option-cases (target schema n)) [
  | inl e ↦
      let i = collect_from_iff schema hs s r in
      let k = collect_skip schema n v hs s r e in rw e (λ c. k.1 (i.0 c), λ h. i.1 (k.0 h))
  | inr (u, e) ↦ elim (Option-cases (slot u s)) [
    | inl empty ↦
        let i = collect_from_iff schema hs (store u v s) r in
        let k = collect_store schema n v hs s r u e empty in
        rw (e, empty) (λ c. k.1 (i.0 c), λ h. i.1 (k.0 h))
    | inr (w, full) ↦
        rw (e, full) (λ c. cc, λ h. absurd (collect_twice schema n v w hs s r u e full h))
  ]
]

slot-no_slots : (t : Slot) → slot t no_slots ≡ none
slot-no_slots t = ground arith

-- The loop over the response's headers succeeds exactly when each mapped name, in any casing, occurs
-- at most once; each variable then holds the value of its header if there is one, so the order of
-- headers with different names does not matter and other headers are ignored.
pub collect_iff :
    (schema : HeaderSchema) (hs : List (Text × Text)) (r : Slots)
    → (collect schema hs no_slots ≡ ok r)
      ↔ ((t : Slot) → to_list (slot t r) ≡ values_for schema t hs)
collect_iff schema hs r =
    let i = collect_from_iff schema hs no_slots r in
    (
      λ e t. i.0 e t ∙ ap (λ o. to_list o ++ values_for schema t hs) (slot-no_slots t),
      λ h. i.1 (λ t. h t ∙ ap (λ o. to_list o ++ values_for schema t hs) (sym (slot-no_slots t))),
    )
