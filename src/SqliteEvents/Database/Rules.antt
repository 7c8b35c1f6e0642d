-- ===== src/SqliteEvents/Database/Rules.antt =====
-- How the statements of a transaction end: rules for each, and for their composition.
use relprim.Prelude.{ℕ, ◌≡◌, refl, Bool, Option, none, some}
use relprim.Errors.{Exception}
use relprim.Outcome.{Interrupt, Outcome, returned, raised, interrupted, Action, lift, ◌>>=◌}
use relprim.SqliteEvents.Database.{Database, Statement, World, Sqlite, execute, take_effect, unless}

-- The worlds of one store with no transaction, and with one whose copy is d.
abbrev pub idle : {W : Type 0} → Database → ℕ → Bool → W → World W
idle base n init rest = record {
  database = base;
  transaction = none;
  open_connections = n;
  initialized = init;
  rest = rest;
}

abbrev pub pending : {W : Type 0} → Database → ℕ → Bool → Database → W → World W
pending base n init d rest = record {
  database = base;
  transaction = some d;
  open_connections = n;
  initialized = init;
  rest = rest;
}

-- What a statement that succeeds leaves.
abbrev pub Effect : {A : Type 0} → (A → Database → Type 0) → Outcome (A × Database) → Type 0
Effect Q (returned (a, d)) = Q a d
Effect Q (raised e) = Unit {0}
Effect Q (interrupted i) = Unit {0}

module _ {W : Type 0} (sqlite : Sqlite W) (base : Database) (n : ℕ) (init : Bool) where
  -- An action in a transaction ends in it; only its copy has changed.
  pub data Ends {A : Type 0} (Q : A → Database → Type 0) : Outcome A × World W → Type 0 where
    done :
        (a : A) (d : Database) (rest : W) → Q a d → Ends Q (returned a, pending base n init d rest)
    failed :
        (e : Exception) (d : Database) (rest : W) → Ends Q (raised e, pending base n init d rest)
    left :
        (i : Interrupt) (d : Database) (rest : W)
        → Ends Q (interrupted i, pending base n init d rest)

  effect-Ends :
      {A : Type 0} {Q : A → Database → Type 0} (o : Outcome (A × Database)) (d : Database)
      (rest : W)
      → Effect Q o
      → Ends Q (take_effect o (pending base n init d rest))
  effect-Ends (returned (a, d')) d rest q = done a d' rest q
  effect-Ends (raised e) d rest q = failed e d rest
  effect-Ends (interrupted i) d rest q = left i d rest

  unless-Ends :
      {A : Type 0} {Q : A → Database → Type 0} (fault : Option Exception)
      (body : Action (World W) A) (d : Database) (rest : W)
      → Ends Q (body (pending base n init d rest))
      → Ends Q (unless fault body (pending base n init d rest))
  unless-Ends (some e) body d rest q = failed e d rest
  unless-Ends none body d rest q = q

  pub execute-Ends :
      {A : Type 0} {Q : A → Database → Type 0} (statement : Statement)
      (effect : Database → Outcome (A × Database)) (d : Database) (rest : W)
      → Effect Q (effect d)
      → Ends Q (execute sqlite statement effect (pending base n init d rest))
  unfolding execute
  execute-Ends statement effect d rest q =
      unless-Ends (sqlite.attempt statement rest).0 _ d (sqlite.attempt statement rest).1
        (effect-Ends (effect d) d (sqlite.attempt statement rest).1 q)

  rest-Ends :
      {A B : Type 0} {Q : A → Database → Type 0} {R : B → Database → Type 0}
      {r : Outcome A × World W} (f : A → Action (World W) B) (w : World W)
      → Ends Q r
      → ((a : A) (d : Database) (rest : W) → Q a d → Ends R (f a (pending base n init d rest)))
      → Ends R (((λ _. r) >>= f) w)
  rest-Ends f w (done a d rest q) k = k a d rest q
  rest-Ends f w (failed e d rest) k = failed e d rest
  rest-Ends f w (left i d rest) k = left i d rest

  pub bind-Ends :
      {A B : Type 0} (Q : A → Database → Type 0) {R : B → Database → Type 0}
      (m : Action (World W) A) (f : A → Action (World W) B) (d : Database) (rest : W)
      → Ends Q (m (pending base n init d rest))
      → ((a : A) (d' : Database) (rest' : W) → Q a d' → Ends R (f a (pending base n init d' rest')))
      → Ends R ((m >>= f) (pending base n init d rest))
  bind-Ends Q m f d rest h k = rest-Ends f (pending base n init d rest) h k

  pub lift-Ends :
      {A : Type 0} {Q : A → Database → Type 0} (o : Outcome A) (d : Database) (rest : W)
      → ((a : A) → o ≡ returned a → Q a d)
      → Ends Q (lift o (pending base n init d rest))
  lift-Ends (returned a) d rest h = done a d rest (h a refl)
  lift-Ends (raised e) d rest h = failed e d rest
  lift-Ends (interrupted i) d rest h = left i d rest
