-- ===== src/Outcome.antt =====
-- How a call of a protocol handler ends. The handlers call each other on what is left of the bytes,
-- which is recursion on fuel here; and they go through the pointers to their sessions unchecked.

use obsto_cpp.Base.{◌≡◌, subst}

pub data Outcome {ℓ} (A : Type ℓ) : Type ℓ where
  returned : A → Outcome A
  null_session : Outcome A
  out_of_fuel : Outcome A

infixl 5 ◌>>=◌
abbrev pub ◌>>=◌ {ℓ κ} : {A : Type ℓ} {B : Type κ} → Outcome A → (A → Outcome B) → Outcome B
returned a >>= f = f a
null_session >>= f = null_session
out_of_fuel >>= f = out_of_fuel

-- The call returned, and the result satisfies `P`.
abbrev pub Returns {ℓ} : {A : Type ℓ} → (A → Type 0) → Outcome A → Type 0
Returns P (returned a) = P a
Returns P null_session = ⊥
Returns P out_of_fuel = ⊥

-- If the call returned, the result satisfies `P`.
abbrev pub Allows {ℓ} : {A : Type ℓ} → (A → Type 0) → Outcome A → Type 0
Allows P (returned a) = P a
Allows P null_session = Unit
Allows P out_of_fuel = Unit

pub Allows-returned {ℓ} :
    {A : Type ℓ} (P : A → Type 0) (o : Outcome A) {a : A} → Allows P o → o ≡ returned a → P a
Allows-returned P o h e = subst (Allows P) e h

pub Allows-bind {ℓ κ} :
    {A : Type ℓ} {B : Type κ} (P : B → Type 0) (o : Outcome A) (f : A → Outcome B)
    → ((a : A) → Allows P (f a))
    → Allows P (o >>= f)
Allows-bind P (returned a) f h = h a
Allows-bind P null_session f h = tt
Allows-bind P out_of_fuel f h = tt

pub Returns-returned {ℓ} :
    {A : Type ℓ} (P : A → Type 0) (o : Outcome A) {a : A} → Returns P o → o ≡ returned a → P a
Returns-returned P o h e = subst (Returns P) e h

pub Returns-bind {ℓ κ} :
    {A : Type ℓ} {B : Type κ} (Q : A → Type 0) (P : B → Type 0) (o : Outcome A) (f : A → Outcome B)
    → Returns Q o
    → ((a : A) → Q a → Returns P (f a))
    → Returns P (o >>= f)
Returns-bind Q P (returned a) f q h = h a q
Returns-bind Q P null_session f q h = q
Returns-bind Q P out_of_fuel f q h = q
