-- ===== src/Outcome.antt =====
-- How a Python call ends: it returns, raises an Exception, or is left by another BaseException,
-- such as the cancellation of its task. An action threads the state that a call may change.
pub mod Safe
use mathlib.Core.Path.{◌≡◌, refl}
use relprim.Errors.{Exception}

-- A BaseException that is no Exception.
pub data Interrupt : Type 0 where
  cancelled_error other_interrupt : Interrupt

pub data Outcome {ℓ} (A : Type ℓ) : Type ℓ where
  returned : A → Outcome A
  raised : Exception → Outcome A
  interrupted : Interrupt → Outcome A

abbrev pub bind_outcome {ℓ κ} : {A : Type ℓ} {B : Type κ} → Outcome A → (A → Outcome B) → Outcome B
bind_outcome (returned a) f = f a
bind_outcome (raised e) f = raised e
bind_outcome (interrupted i) f = interrupted i

-- A call with the state S: the state comes back however the call ends.
abbrev pub Action {ℓ} : Type ℓ → Type ℓ → Type ℓ
Action S A = S → Outcome A × S

module _ {ℓ} {S A : Type ℓ} where
  abbrev pub pure : A → Action S A
  pure a s = (returned a, s)

  abbrev pub raise : Exception → Action S A
  raise e s = (raised e, s)

  abbrev pub lift : Outcome A → Action S A
  lift o s = (o, s)

module _ {ℓ} {S A B : Type ℓ} where
  infixl 5 ◌>>=◌ ◌>>◌
  abbrev pub ◌>>=◌ : Action S A → (A → Action S B) → Action S B
  ◌>>=◌ m f s =
      let (o, s') = m s in
      elim o [
        | returned a ↦ f a s'
        | raised e ↦ (raised e, s')
        | interrupted i ↦ (interrupted i, s')
      ]

  abbrev pub ◌>>◌ : Action S A → Action S B → Action S B
  m >> n = m >>= λ _. n

-- Inversion of a bind that returns.
pub bind_outcome-returned {ℓ κ} :
    {A : Type ℓ} {B : Type κ} (o : Outcome A) (f : A → Outcome B) {b : B}
    → bind_outcome o f ≡ returned b
    → (a : A) × (o ≡ returned a) × (f a ≡ returned b)
bind_outcome-returned (returned a) f h = (a, refl, h)
bind_outcome-returned (raised e) f h = cc
bind_outcome-returned (interrupted i) f h = cc

pub returned_injective {ℓ} :
    {A : Type ℓ} {a b : A} → ◌≡◌ {A = Outcome A} (returned a) (returned b) → a ≡ b
returned_injective h = cc
