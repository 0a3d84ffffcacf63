-- ===== src/Prelude/Fatal.antt =====
-- `throw FatalError(...)` as a value: a call returns, or throws. Nothing under the modelled code
-- catches a FatalError.
use mathlib.Core.Path.{subst, ◌≡◌, refl}
use mathlib.Core.Bool.{Bool, true, false}
use mathlib.Core.Option.{Option, none, some}
use webel.Prelude.Tests.{if◌then◌else◌}
use mathlib.Core.Logic.{◌⊎◌, inl, inr}

pub data Outcome {ℓ} (A : Type ℓ) : Type ℓ where
  returns : A → Outcome A
  fatal : Outcome A

infixl 5 ◌>>=◌
abbrev pub ◌>>=◌ {ℓ κ} : {A : Type ℓ} {B : Type κ} → Outcome A → (A → Outcome B) → Outcome B
returns a >>= f = f a
fatal >>= f = fatal

-- Inversion of a chain that returns.
pub >>=-eq-returns {ℓ κ} :
    {A : Type ℓ} {B : Type κ} (m : Outcome A) (f : A → Outcome B) {b : B}
    → (m >>= f) ≡ returns b
    → (a : A) × (m ≡ returns a) × (f a ≡ returns b)
>>=-eq-returns (returns a) f h = (a, refl, h)
>>=-eq-returns fatal f h = cc

pub Outcome-cases {ℓ} : {A : Type ℓ} (r : Outcome A) → (r ≡ fatal) ⊎ ((a : A) × (r ≡ returns a))
Outcome-cases fatal = inl refl
Outcome-cases (returns a) = inr (a, refl)

-- The call returns, and the result satisfies `P`.
abbrev pub Returns {ℓ} : {A : Type ℓ} → (A → Type 0) → Outcome A → Type 0
Returns P (returns a) = P a
Returns P fatal = ⊥

pub Returns-returns {ℓ} :
    {A : Type ℓ} (P : A → Type 0) (r : Outcome A) → Returns P r → (a : A) × (r ≡ returns a) × P a
Returns-returns P (returns a) h = (a, refl, h)
Returns-returns P fatal h = absurd h

pub Returns->>= {ℓ κ} :
    {A : Type ℓ} {B : Type κ} (P : A → Type 0) (Q : B → Type 0) (m : Outcome A) (f : A → Outcome B)
    → Returns P m
    → ((a : A) → P a → Returns Q (f a))
    → Returns Q (m >>= f)
Returns->>= P Q (returns a) f h k = k a h
Returns->>= P Q fatal f h k = absurd h

-- If the call returns, the result satisfies `P`.
abbrev pub Whenever {ℓ} : {A : Type ℓ} → (A → Type 0) → Outcome A → Type 0
Whenever P (returns a) = P a
Whenever P fatal = Unit

pub Whenever->>= {ℓ κ} :
    {A : Type ℓ} {B : Type κ} (P : A → Type 0) (Q : B → Type 0) (m : Outcome A) (f : A → Outcome B)
    → Whenever P m
    → ((a : A) → P a → Whenever Q (f a))
    → Whenever Q (m >>= f)
Whenever->>= P Q (returns a) f h k = k a h
Whenever->>= P Q fatal f h k = tt

pub Whenever-returns {ℓ} :
    {A : Type ℓ} (P : A → Type 0) (m : Outcome A) (a : A) → Whenever P m → m ≡ returns a → P a
Whenever-returns P m a h e = subst (Whenever P) e h

pub Whenever-any {ℓ} : {A : Type ℓ} (m : Outcome A) → Whenever (λ a. Unit) m
Whenever-any (returns a) = tt
Whenever-any fatal = tt

pub Whenever-if :
    {A : Type 0} (P : A → Type 0) (b : Bool) (x y : Outcome A)
    → Whenever P x
    → Whenever P y
    → Whenever P (if b then x else y)
Whenever-if P true x y h k = h
Whenever-if P false x y h k = k

pub Whenever-option :
    {A B : Type 0} (P : B → Type 0) (o : Option A) (x : Outcome B) (f : A → Outcome B)
    → Whenever P x
    → ((a : A) → Whenever P (f a))
    → Whenever P (elim o [ none ↦ x | some a ↦ f a ])
Whenever-option P none x f h k = h
Whenever-option P (some a) x f h k = k a
