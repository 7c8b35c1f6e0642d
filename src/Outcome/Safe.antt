-- ===== src/Outcome/Safe.antt =====
-- Reasoning about every way in which a call can end: what it returns satisfies a predicate, and so
-- does what it raises.
use relprim.Prelude.{◌≡◌, refl, Bool, true, false, if◌then◌else◌}
use relprim.Errors.{Exception, operation_execution_error}
use relprim.Outcome.{Outcome, returned, raised, interrupted, bind_outcome, Action, ◌>>=◌, ◌>>◌}

abbrev pub Safe {ℓ} : {A : Type ℓ} → (Exception → Type 0) → (A → Type 0) → Outcome A → Type 0
Safe X P (returned a) = P a
Safe X P (raised e) = X e
Safe X P (interrupted i) = Unit {0}

module _ {ℓ} (X : Exception → Type 0) {A B : Type ℓ} (P : A → Type 0) (Q : B → Type 0) where
  pub bind_outcome-Safe :
      (o : Outcome A) (f : A → Outcome B)
      → Safe X P o
      → ((a : A) → P a → Safe X Q (f a))
      → Safe X Q (bind_outcome o f)
  bind_outcome-Safe (returned a) f h k = k a h
  bind_outcome-Safe (raised e) f h k = h
  bind_outcome-Safe (interrupted i) f h k = tt

module _ {ℓ} {S A B : Type ℓ} (X : Exception → Type 0) (P : A → Type 0) (Q : B → Type 0) where
  abbrev resume : Outcome A → (A → Action S B) → Action S B
  resume o f t = elim o [
    | returned a ↦ f a t
    | raised e ↦ (raised e, t)
    | interrupted i ↦ (interrupted i, t)
  ]

  resume-Safe :
      (o : Outcome A) (f : A → Action S B) (t : S)
      → Safe X P o
      → ((a : A) → P a → (u : S) → Safe X Q (f a u).0)
      → Safe X Q (resume o f t).0
  resume-Safe (returned a) f t h k = k a h t
  resume-Safe (raised e) f t h k = h
  resume-Safe (interrupted i) f t h k = tt

  pub bind-Safe :
      (m : Action S A) (f : A → Action S B) (s : S)
      → Safe X P (m s).0
      → ((a : A) → P a → (t : S) → Safe X Q (f a t).0)
      → Safe X Q ((m >>= f) s).0
  bind-Safe m f s h k = resume-Safe (m s).0 f (m s).1 h k

-- A stronger predicate on what is returned, and a weaker one on what is raised.
pub weaken-Safe {ℓ} :
    {A : Type ℓ} (X Y : Exception → Type 0) (P Q : A → Type 0) (o : Outcome A)
    → Safe X P o
    → ((e : Exception) → X e → Y e)
    → ((a : A) → P a → Q a)
    → Safe Y Q o
weaken-Safe X Y P Q (returned a) h x p = p a h
weaken-Safe X Y P Q (raised e) h x p = x e h
weaken-Safe X Y P Q (interrupted i) h x p = tt

-- Any exception but an OperationExecutionError.
abbrev pub IsForeign : Exception → Type 0
IsForeign (operation_execution_error m r c) = ⊥
IsForeign _ = Unit {0}

abbrev pub Anything : {A : Type 0} → A → Type 0
Anything _ = Unit {0}

-- Also remembers what was returned.
pub itself-Safe :
    {A : Type 0} (X : Exception → Type 0) (o : Outcome A)
    → Safe X Anything o
    → Safe X (λ a. o ≡ returned a) o
itself-Safe X (returned a) h = refl
itself-Safe X (raised e) h = h
itself-Safe X (interrupted i) h = tt

pub if-Safe :
    {A : Type 0} (X : Exception → Type 0) (P : A → Type 0) (b : Bool) (x y : Outcome A)
    → Safe X P x
    → Safe X P y
    → Safe X P (if b then x else y)
if-Safe X P true x y h k = h
if-Safe X P false x y h k = k

module _ {S A B : Type 0} (X : Exception → Type 0) (Q : B → Type 0) where
  -- A first part that can only raise exceptions that X allows.
  pub then-Safe :
      (allowed : (e : Exception) → IsForeign e → X e) (m : Action S A) (n : Action S B) (s : S)
      → Safe IsForeign Anything (m s).0
      → ((t : S) → Safe X Q (n t).0)
      → Safe X Q ((m >> n) s).0
  then-Safe allowed m n s h k =
      bind-Safe X Anything Q m (λ _. n) s
        (weaken-Safe IsForeign X Anything Anything (m s).0 h allowed (λ _ x. x)) (λ _ _ t. k t)
