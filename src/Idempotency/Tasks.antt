-- ===== src/Idempotency/Tasks.antt =====
-- A store that many tasks share: the interleavings of the critical sections of `execute`, with the
-- owners whose operations are in flight.
use relprim.Prelude.{ℕ, String, ◌≡◌, Option, List, [], ◌∷◌, ◌++◌}
use relprim.Values.{Seconds, Duration}
use relprim.Outcome.{Outcome}
use relprim.Idempotency.{Store, empty, own, join, reentry, claim, purge_expired_locked, end_owner}

-- An owner: its future and its key.
abbrev pub Owner : Type 0
Owner = ℕ × String

pub record System (R : Type 0) : Type 0 where
  pub store : Store R
  pub owners : List Owner

abbrev pub idle : {R : Type 0} → System R
idle = record { store = empty; owners = [] }

-- One critical section of one task. An owner ends by any outcome of its operation.
pub data Step {R : Type 0} (s t : System R) : Type 0 where
  claim_owns :
      (key : String) (task : Option ℕ) (now : Seconds) (f : ℕ)
      → claim key task now s.store ≡ (own f, t.store)
      → t.owners ≡ (f, key) ∷ s.owners
      → Step s t
  claim_joins :
      (key : String) (task : Option ℕ) (now : Seconds) (f : ℕ)
      → claim key task now s.store ≡ (join f, t.store)
      → t.owners ≡ s.owners
      → Step s t
  claim_reenters :
      (key : String) (task : Option ℕ) (now : Seconds)
      → claim key task now s.store ≡ (reentry, t.store)
      → t.owners ≡ s.owners
      → Step s t
  owner_ends :
      (before after : List Owner) (f : ℕ) (key : String) (now : Seconds) (ttl : Duration)
      (o : Outcome R)
      → s.owners ≡ before ++ (f, key) ∷ after
      → t.owners ≡ before ++ after
      → t.store ≡ end_owner key f now ttl o s.store
      → Step s t
  purges :
      (now : Seconds)
      → t.store ≡ (purge_expired_locked now s.store).1
      → t.owners ≡ s.owners
      → Step s t

pub data Reach {R : Type 0} (s : System R) : System R → Type 0 where
  here : Reach s s
  next : {t u : System R} → Reach s t → Step t u → Reach s u
