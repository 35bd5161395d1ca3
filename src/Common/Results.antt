-- ===== src/Common/Results.antt =====
-- What a call of a C function ends in.

use mathlib.Core.Path.{◌≡◌, refl}
use mathlib.Core.Bool.{Bool, true, false}
use mathlib.Core.Option.{Option, none, some}

-- `lost` is a call of `lose` or a failed `gc_assert`. `fault` is no C value: an access out of
-- bounds, an undefined shift, or a loop that the model cut off.
pub data Outcome {ℓ} (A : Type ℓ) : Type ℓ where
  ok : A → Outcome A
  lost : Outcome A
  fault : Outcome A

infixl 5 ◌>>=◌
abbrev pub ◌>>=◌ {ℓ κ} : {A : Type ℓ} {B : Type κ} → Outcome A → (A → Outcome B) → Outcome B
ok a >>= f = f a
lost >>= f = lost
fault >>= f = fault

-- `gc_assert(e)`
abbrev pub gc_assert : Bool → Outcome (Unit {0})
gc_assert true = ok tt
gc_assert false = lost

-- A read through a pointer.
abbrev pub deref {ℓ} : {A : Type ℓ} → Option A → Outcome A
deref none = fault
deref (some a) = ok a

infixl 5 ◌>>◌
abbrev pub ◌>>◌ {ℓ} : {B : Type ℓ} → Outcome (Unit {0}) → Outcome B → Outcome B
m >> k = m >>= λ _. k

-- The call ends normally, in a value that satisfies `P`.
abbrev pub Returns {ℓ} : {A : Type ℓ} → Outcome A → (A → Type 0) → Type 0
Returns (ok a) P = P a
Returns lost P = ⊥
Returns fault P = ⊥

pub Returns-mono {ℓ} :
    {A : Type ℓ} (P Q : A → Type 0) (m : Outcome A)
    → ((a : A) → P a → Q a)
    → Returns m P
    → Returns m Q
Returns-mono P Q (ok a) f p = f a p
Returns-mono P Q lost f p = p
Returns-mono P Q fault f p = p

pub Returns->>= {ℓ κ} :
    {A : Type ℓ} {B : Type κ} (P : A → Type 0) (Q : B → Type 0) (m : Outcome A) (f : A → Outcome B)
    → Returns m P
    → ((a : A) → P a → Returns (f a) Q)
    → Returns (m >>= f) Q
Returns->>= P Q (ok a) f p k = k a p
Returns->>= P Q lost f p k = absurd p
Returns->>= P Q fault f p k = absurd p

pub Returns-ok {ℓ} :
    {A : Type ℓ} (P : A → Type 0) (m : Outcome A) → Returns m P → (a : A) × (m ≡ ok a) × P a
Returns-ok P (ok a) p = (a, refl, p)
Returns-ok P lost p = absurd p
Returns-ok P fault p = absurd p
