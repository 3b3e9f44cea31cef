-- ===== src/Adapter/Schema.antt =====
-- What `HeaderSchemaBuilder::build` of src/adapter.rs accepts: no two headers of one direction have
-- names that are equal up to case.
use gmcrypto_envelope_lite.Base.{
  ◌≡◌, ◌↔◌, refl, arith, false, any, Result-cases, inl, inr, List, [], ◌∷◌, ok, All,
}
use gmcrypto_envelope_lite.Header.Name.{HeaderName, name_eq}
use gmcrypto_envelope_lite.Header.Valid.{beq_sym}
use gmcrypto_envelope_lite.Adapter.Types.{HeaderSchema}
use gmcrypto_envelope_lite.Adapter.Builder

-- No two names of the list are equal up to case.
abbrev pub AllDistinct : List HeaderName → Type 0
AllDistinct [] = Unit
AllDistinct (n ∷ ns) = (any (λ m. name_eq m n) ns ≡ false) × AllDistinct ns

-- No name of the first list is in the second.
abbrev FreeOf : List HeaderName → List HeaderName → Type 0
FreeOf ns taken = All (λ n. any (λ m. name_eq m n) taken ≡ false) ns

FreeOf-cons :
    (n : HeaderName) (ns taken : List HeaderName)
    → FreeOf ns (n ∷ taken) ↔ (FreeOf ns taken × (any (λ m. name_eq m n) ns ≡ false))
FreeOf-cons n [] taken = (λ _. (tt, refl), λ _. tt)
FreeOf-cons n (m ∷ ns) taken =
    ground (arith, FreeOf-cons n ns taken, beq_sym m.canonical n.canonical)

FreeOf-nil : (ns : List HeaderName) → FreeOf ns []
FreeOf-nil [] = tt
FreeOf-nil (n ∷ ns) = (refl, FreeOf-nil ns)

insert_mappings_iff :
    (ns taken : List HeaderName)
    → ((all : List HeaderName) × (Builder.insert_mappings ns taken ≡ ok all))
      ↔ (FreeOf ns taken × AllDistinct ns)
unfolding Builder.insert_mappings Builder.insert_mapping
insert_mappings_iff [] taken = (λ _. (tt, tt), λ _. (taken, refl))
insert_mappings_iff (n ∷ ns) taken =
    ground (arith, insert_mappings_iff ns (n ∷ taken), FreeOf-cons n ns taken)

-- The collision check passes exactly when no two request headers, and no two response headers, have
-- names that are equal up to case; the response headers count the request identifier under
-- context-bound authentication.
pub validate_collisions_iff :
    (schema : HeaderSchema)
    → (Builder.validate_collisions schema ≡ ok tt)
      ↔ (AllDistinct (Builder.request_names schema) × AllDistinct (Builder.response_names schema))
unfolding Builder.validate_collisions
validate_collisions_iff schema =
    let one = insert_mappings_iff (Builder.request_names schema) [] in
    let two = insert_mappings_iff (Builder.response_names schema) [] in
    let all_one = FreeOf-nil (Builder.request_names schema) in
    let all_two = FreeOf-nil (Builder.response_names schema) in
    (
      λ e. elim (Result-cases (Builder.insert_mappings (Builder.request_names schema) [])) [
        | inr (x, p) ↦ absurd (cc (rw p at e))
        | inl (a, p) ↦
            elim (Result-cases (Builder.insert_mappings (Builder.response_names schema) [])) [
              | inr (x, q) ↦ absurd (cc (rw (p, q) at e))
              | inl (b, q) ↦ ((one.0 (a, p)).1, (two.0 (b, q)).1)
            ]
      ],
      λ h. let a = one.1 (all_one, h.0) in let b = two.1 (all_two, h.1) in rw (a.1, b.1) refl,
    )
