-- ===== src/Operation/Idempotent/Replayed.antt =====
-- What a caller gets of an operation that another call has run under the same key.
use relprim.Prelude.{ℕ, suc, ◌<◌, String, ◌≡◌, refl, inr, true, false, Option, some}
use relprim.Prelude.Int.{pos, ◌+ℤ◌, leb_ℤ}
use relprim.Prelude.Text.{is_blank}
use relprim.Values.{Duration, finite, float, str, scalar}
use relprim.Outcome.{returned}
use relprim.Idempotency.Execute.Again.{IsSite, execute_loop_replays}
use relprim.Idempotency.Replay.{IsOwner}
use relprim.Checks.Accepted.{check_seconds_exact}
use relprim.Idempotency.{
  validate_key, validate_ttl, IdempotencyPolicy, key_of, claim, own, Store, publish,
  IdempotencyStatus,
}
use relprim.Idempotency.Execute.{Site, execute, execute_loop, run_policy}
use relprim.Operation.{Host, OperationResult}
use relprim.Operation.Run.{run_without_idempotency}
use relprim.Operation.Idempotent.{IdempotentOperation, run}
use relprim.CircuitBreaker.{Shared}
use relprim.Operation.Idempotent.Marked.{
  IsMarked, IsBuilt, not_executed, marked, marked_result, with_idempotency_metadata_lem,
}

valid_key : (key : String) → is_blank key ≡ false → validate_key (scalar (str key)) ≡ returned key
unfolding validate_key
valid_key key h = rw h refl

valid_ttl :
    (ttl : Duration) → 0 < ttl → validate_ttl (scalar (float (finite (pos ttl)))) ≡ returned ttl
unfolding validate_ttl
valid_ttl ttl h =
    (check_seconds_exact "ttl_seconds" false (scalar (float (finite (pos ttl)))) ttl).1
      (refl, inr h)

module _ {A E R : Type 0} (host : Host (Shared E) R)
    (site : Site (OperationResult R) (Shared E)) where
  open site use {store_of, with_store, clock}

  -- `run` is the loop of the store, and the marking of what it returns.
  run_lem :
      (op : IdempotentOperation A E R) (policy : IdempotencyPolicy A) (arguments : A)
      (task : Option ℕ) (n : ℕ) (s s' : Shared E) (key : String) (original : OperationResult R)
      (status : IdempotencyStatus)
      → op.idempotency_policy ≡ some policy
      → key_of policy arguments ≡ returned key
      → is_blank key ≡ false
      → 0 < policy.ttl_seconds
      → IsBuilt original
      → execute_loop site n key task policy.ttl_seconds
          (run_without_idempotency op.operation host)
          s
        ≡ some (returned (record { value = original; key = key; status = status }), s')
      → run n host site op arguments task s
        ≡ some (returned (marked_result original status (not_executed status)), s')
  unfolding run run_policy execute
  run_lem op policy arguments task n s s' key original status has_policy hkey named lasting built
        looped =
      rw
        (
          has_policy,
          hkey,
          valid_key key named,
          valid_ttl policy.ttl_seconds lasting,
          looped,
          with_idempotency_metadata_lem original key status built,
        )
        refl

  -- An operation with an idempotency policy runs once for a key. A call whose claim makes it the owner,
  -- and whose run returns, returns that result, marked executed. Any later call for the key that finds
  -- the store as the first one left it, before the ttl has passed, returns the same value with the same
  -- report, marked replayed and as a cache hit; the operation is not run again, and only the store is
  -- changed, by the removal of what has expired. It takes one round of the store's loop each time.
  pub run_replays :
      IsSite site
      → (op : IdempotentOperation A E R) (policy : IdempotencyPolicy A) (arguments : A)
        (task caller : Option ℕ) (m n f : ℕ) (s s1 later : Shared E) (t : Store (OperationResult R))
        (key : String) (original : OperationResult R)
      → op.idempotency_policy ≡ some policy
      → key_of policy arguments ≡ returned key
      → is_blank key ≡ false
      → 0 < policy.ttl_seconds
      → claim key task (clock s) (store_of s) ≡ (own f, t)
      → run_without_idempotency op.operation host (with_store t s) ≡ (returned original, s1)
      → IsBuilt original
      → IsOwner key f task (store_of s1)
      → store_of later ≡ publish key f original (clock s1) policy.ttl_seconds (store_of s1)
      → leb_ℤ (clock s1 +ℤ pos policy.ttl_seconds) (clock later) ≡ false
      → (first : OperationResult R) × (second : OperationResult R) × (run
            (suc m)
            host
            site
            op
            arguments
            task
            s
          ≡ some (
            returned first,
            with_store (publish key f original (clock s1) policy.ttl_seconds (store_of s1)) s1,
          ))
        × IsMarked IdempotencyStatus.executed false original first
        × (run (suc n) host site op arguments caller later
            ≡ some (
              returned second,
              with_store (claim key caller (clock later) (store_of later)).1 later,
            ))
        × IsMarked IdempotencyStatus.replayed true original second
  run_replays lawful op policy arguments task caller m n f s s1 later t key original has_policy hkey
        named lasting claimed ran built owns same fresh =
      let (once, again) =
        execute_loop_replays site lawful key task caller policy.ttl_seconds policy.ttl_seconds
          (run_without_idempotency op.operation host) (run_without_idempotency op.operation host) m
          n f s s1 later t original named claimed ran owns same fresh in
      (
        marked_result original IdempotencyStatus.executed false,
        marked_result original IdempotencyStatus.replayed true,
        run_lem op policy arguments task (suc m) s _ key original IdempotencyStatus.executed
            has_policy hkey named lasting built once,
        marked original IdempotencyStatus.executed false,
        run_lem op policy arguments caller (suc n) later _ key original IdempotencyStatus.replayed
            has_policy hkey named lasting built again,
        marked original IdempotencyStatus.replayed true,
      )
