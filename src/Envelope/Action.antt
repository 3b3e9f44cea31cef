-- ===== src/Envelope/Action.antt =====
-- A fallible computation that draws from a source: the source's next state comes back with errors
-- too.
use gmcrypto_envelope_lite.Base.{arith, ◌≡◌, ◌∙◌, ap, refl, Option, none, some, ok, err, ok_or}
use gmcrypto_envelope_lite.Error.{Error, Fallible}

abbrev pub Action : Type 0 → Type 0 → Type 0
Action S A = S → Fallible A × S

abbrev pub continue : {S A B : Type 0} → Fallible A → (A → Action S B) → Action S B
continue (ok a) f s = f a s
continue (err e) f s = (err e, s)

infixl 5 ◌>>=◌ ◌>>◌
abbrev pub ◌>>=◌ : {S A B : Type 0} → Action S A → (A → Action S B) → Action S B
◌>>=◌ m f s = let (r, s') = m s in continue r f s'

abbrev pub ◌>>◌ : {S A B : Type 0} → Action S A → Action S B → Action S B
m >> k = m >>= λ _. k

abbrev pub pure : {S A : Type 0} → A → Action S A
pure a s = (ok a, s)

abbrev pub lift : {S A : Type 0} → Fallible A → Action S A
lift r s = (r, s)

-- A draw whose failure is reported as this error.
abbrev pub draw : {S A : Type 0} → (S → Option A × S) → Error → Action S A
draw f e s = let (o, s') = f s in (ok_or o e, s')

-- A successful bind, taken apart.
pub record Bound {S A B : Type 0} (m : Action S A) (f : A → Action S B) (s : S) (b : B) (t : S)
    : Type 0 where
  pub value : A
  pub state : S
  pub first : m s ≡ (ok value, state)
  pub rest : f value state ≡ (ok b, t)

Bound-intro :
    {S A B : Type 0} (m : Action S A) (f : A → Action S B) (s : S) (b : B) (t : S) (r : Fallible A)
    (s' : S)
    → m s ≡ (r, s')
    → continue r f s' ≡ (ok b, t)
    → Bound m f s b t
Bound-intro m f s b t (ok a) s' first rest = record {
  value = a;
  state = s';
  first = first;
  rest = rest;
}
Bound-intro m f s b t (err e) s' first rest = absurd (ground arith)

pub >>=-Bound :
    {S A B : Type 0} (m : Action S A) (f : A → Action S B) (s : S) (b : B) (t : S)
    → (m >>= f) s ≡ (ok b, t)
    → Bound m f s b t
>>=-Bound m f s b t e = Bound-intro m f s b t (m s).0 (m s).1 refl e

drawn :
    {S A : Type 0} (f : S → Option A × S) (e : Error) (s t : S) (a : A) (o : Option A) (s' : S)
    → f s ≡ (o, s')
    → lift (ok_or o e) s' ≡ (ok a, t)
    → f s ≡ (some a, t)
drawn f e s t a none s' d h = absurd (ground arith)
drawn f e s t a (some x) s' d h = d ∙ ground arith

pub draw-eq-ok :
    {S A : Type 0} (f : S → Option A × S) (e : Error) (s t : S) (a : A)
    → draw f e s ≡ (ok a, t)
    → f s ≡ (some a, t)
draw-eq-ok f e s t a h = drawn f e s t a (f s).0 (f s).1 refl h

pub lift-eq-ok :
    {S A : Type 0} (r : Fallible A) (s t : S) (a : A) → lift r s ≡ (ok a, t) → (r ≡ ok a) × (s ≡ t)
lift-eq-ok {S} {A} r s t a h =
    (ap (λ (x : Fallible A × S). x.0) h, ap (λ (x : Fallible A × S). x.1) h)
