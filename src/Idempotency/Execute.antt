-- ===== src/Idempotency/Execute.antt =====
-- src/relprim/idempotency.py: `execute` as the loop of one caller, and `IdempotencyPolicy.run`. While a
-- caller waits, other tasks run: the argument `wait` says how they leave the world.
pub mod Again
use relprim.Prelude.{ℕ, zero, suc, String, Option, none, some, if◌then◌else◌}
use relprim.Prelude.Int.{pos}
use relprim.Values.{Seconds, Duration, finite, float, str, PyObject, scalar, text}
use relprim.Errors.{idempotency_reentry_error}
use relprim.Outcome.{Outcome, returned, raised, interrupted, bind_outcome, Action}
use relprim.Idempotency.{
  IdempotencyStatus, IdempotencyResult, Store, Claim, own, join, reentry, claim, is_done,
  join_status, joined_outcome, end_owner, new_result, validate_key, validate_ttl, IdempotencyPolicy,
  key_of,
}

-- Where a world S keeps the store, what its clock shows, and how `await asyncio.shield(future)` of a
-- pending future ends: with the future done, or with the caller cancelled.
pub record Site (R S : Type 0) : Type 0 where
  pub store_of : S → Store R
  pub with_store : Store R → S → S
  pub clock : S → Seconds
  pub wait : ℕ → Action S (Unit {0})

-- The part of `execute` after the operation.
unfoldable pub owned_outcome : {R : Type 0} → String → Outcome R → Outcome (IdempotencyResult R)
owned_outcome key (returned value) = new_result value (scalar (str key)) IdempotencyStatus.executed
owned_outcome key (raised e) = raised e
owned_outcome key (interrupted i) = interrupted i

module _ {R S : Type 0} (site : Site R S) where
  open site use {store_of, with_store, clock, wait}

  -- The owner runs the operation, and publishes how it ends.
  unfoldable pub run_owned : String → ℕ → Duration → Action S R → Action S (IdempotencyResult R)
  unfolding owned_outcome
  run_owned key f ttl operation s =
      let (o, s') = operation s in
      (owned_outcome key o, with_store (end_owner key f (clock s') ttl o (store_of s')) s')

  -- A future that is done is not waited for.
  unfoldable pub await_future : ℕ → Action S (Unit {0})
  await_future f s = if is_done ((store_of s).futures f) then (returned tt, s) else wait f s

  -- What a joined caller makes of its future; it competes again after a cancelled owner.
  abbrev pub unless_cancelled :
      S
      → Option (Outcome (IdempotencyResult R))
      → (S → Option (Outcome (IdempotencyResult R) × S))
      → Option (Outcome (IdempotencyResult R) × S)
  unless_cancelled s (some o) again = some (o, s)
  unless_cancelled s none again = again s

  abbrev pub with_future :
      String
      → IdempotencyStatus
      → ℕ
      → Outcome (Unit {0}) × S
      → (S → Option (Outcome (IdempotencyResult R) × S))
      → Option (Outcome (IdempotencyResult R) × S)
  with_future key status f (returned _, s) again =
      unless_cancelled s (joined_outcome key status ((store_of s).futures f)) again
  with_future key status f (raised e, s) again = some (raised e, s)
  with_future key status f (interrupted i, s) again = some (interrupted i, s)

  -- What follows the critical section.
  abbrev pub with_claim :
      String
      → Duration
      → Action S R
      → Claim
      → S
      → (S → Option (Outcome (IdempotencyResult R) × S))
      → Option (Outcome (IdempotencyResult R) × S)
  with_claim key ttl operation (own f) s again = some (run_owned key f ttl operation s)
  with_claim key ttl operation reentry s again = some (
    raised (
        idempotency_reentry_error
          (text "An idempotency key was reused recursively by its owning task.") key),
    s,
  )
  with_claim key ttl operation (join f) s again =
      with_future key (join_status f (store_of s)) f (await_future f s) again

  -- `while True`, by the rounds that are left.
  unfoldable pub execute_loop :
      ℕ → String → Option ℕ → Duration → Action S R → S → Option (Outcome (IdempotencyResult R) × S)
  execute_loop zero key task ttl operation s = none
  execute_loop (suc rounds) key task ttl operation s =
      let claimed = claim key task (clock s) (store_of s) in
      with_claim key ttl operation claimed.0 (with_store claimed.1 s)
        (λ s'. execute_loop rounds key task ttl operation s')

  abbrev checked_arguments : PyObject → PyObject → Outcome (String × Duration)
  checked_arguments key ttl_seconds =
      bind_outcome (validate_key key)
        λ k. bind_outcome (validate_ttl ttl_seconds) λ ttl. returned (k, ttl)

  abbrev with_arguments :
      ℕ
      → Option ℕ
      → Action S R
      → Outcome (String × Duration)
      → S
      → Option (Outcome (IdempotencyResult R) × S)
  with_arguments rounds task operation (returned (key, ttl)) s =
      execute_loop rounds key task ttl operation s
  with_arguments rounds task operation (raised e) s = some (raised e, s)
  with_arguments rounds task operation (interrupted i) s = some (interrupted i, s)

  -- `InMemoryIdempotencyStore.execute`
  unfoldable pub execute :
      ℕ
      → PyObject
      → Option ℕ
      → Action S R
      → PyObject
      → S
      → Option (Outcome (IdempotencyResult R) × S)
  execute rounds key task operation ttl_seconds s =
      with_arguments rounds task operation (checked_arguments key ttl_seconds) s

  abbrev with_key :
      ℕ
      → Duration
      → Option ℕ
      → Action S R
      → Outcome String
      → S
      → Option (Outcome (IdempotencyResult R) × S)
  with_key rounds ttl task operation (returned key) s =
      execute rounds (scalar (str key)) task operation (scalar (float (finite (pos ttl)))) s
  with_key rounds ttl task operation (raised e) s = some (raised e, s)
  with_key rounds ttl task operation (interrupted i) s = some (interrupted i, s)

  -- `IdempotencyPolicy.run`, with the arguments of the call.
  unfoldable pub run_policy :
      {A : Type 0}
      → ℕ
      → IdempotencyPolicy A
      → A
      → Option ℕ
      → Action S R
      → S
      → Option (Outcome (IdempotencyResult R) × S)
  run_policy rounds policy arguments task operation s =
      with_key rounds policy.ttl_seconds task operation (key_of policy arguments) s
