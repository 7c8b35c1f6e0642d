-- ===== src/Idempotency.antt =====
-- src/relprim/idempotency.py: results, the in-memory store and the policy. A future is a number; the
-- store has the state of every future that was made, so that a caller that has joined one can see it
-- after its entry is gone.
pub mod Replay
pub mod Tasks
pub mod Held
pub mod Exclusive
pub mod Owned
pub mod Abandoned
pub mod Execute
mod Examples
use relprim.Prelude.{
  ℕ, ◌+◌, ◌-◌, String, Bool, true, false, not, ◌&&◌, Option, none, some, List, [], ◌==◌,
  if◌then◌else◌, length,
}
use relprim.Prelude.Int.{pos, ◌+ℤ◌, leb_ℤ}
use relprim.Prelude.Text.{is_blank}
use relprim.Values.{Seconds, Duration, str, PyObject, scalar, text}
use relprim.Errors.{Exception, value_error, type_error}
use relprim.Outcome.{
  cancelled_error, other_interrupt, Outcome, returned, raised, interrupted, bind_outcome,
}
use relprim.Checks.{check_seconds}
use relprim.Prelude.Dict.{get_item, set_item, del_item, keep}

pub data IdempotencyStatus : Type 0 where
  executed joined replayed : IdempotencyStatus

pub record IdempotencyResult (R : Type 0) : Type 0 where
  pub value : R
  pub key : String
  pub status : IdempotencyStatus

-- `_validate_key`
unfoldable pub validate_key : PyObject → Outcome String
validate_key (scalar (str key)) =
    if is_blank key
    then raised (value_error (text "idempotency key must not be empty."))
    else returned key
validate_key _ = raised (type_error (text "idempotency key must be a string."))

-- `_validate_ttl`
unfoldable pub validate_ttl : PyObject → Outcome Duration
validate_ttl ttl = check_seconds "ttl_seconds" false ttl

-- `IdempotencyResult(...)` with `__post_init__`.
unfoldable pub new_result :
    {R : Type 0} → R → PyObject → IdempotencyStatus → Outcome (IdempotencyResult R)
unfolding validate_key
new_result value key status =
    bind_outcome (validate_key key)
      λ checked. returned (record { value = value; key = checked; status = status })

unfoldable pub cache_hit : {R : Type 0} → IdempotencyResult R → Bool
cache_hit r = elim r.status [ executed ↦ false | joined ↦ true | replayed ↦ true ]

-- An asyncio future: pending, or done with a result, an exception, or `_OwnerCancelled`.
pub data Future (R : Type 0) : Type 0 where
  pending : Future R
  result : R → Future R
  failed : Exception → Future R
  owner_cancelled : Future R

abbrev pub is_done : {R : Type 0} → Future R → Bool
is_done pending = false
is_done _ = true

-- `_Entry`. The owner is the number of a task, if there is a current task.
pub record Entry : Type 0 where
  pub future : ℕ
  pub owner_task : Option ℕ
  pub expires_at : Option Seconds

-- `InMemoryIdempotencyStore`, with the futures that it has made, the next of which has the number
-- `next`.
pub record Store (R : Type 0) : Type 0 where
  pub entries : List (String × Entry)
  pub futures : ℕ → Future R
  pub next : ℕ

abbrev pub empty : {R : Type 0} → Store R
empty = record { entries = []; futures = λ f. pending; next = 0 }

abbrev pub same_task : Option ℕ → Option ℕ → Bool
same_task none none = true
same_task (some a) (some b) = a == b
same_task _ _ = false

-- `entry.expires_at is not None and entry.expires_at <= now`
abbrev pub is_expired : Seconds → Entry → Bool
is_expired now e = elim e.expires_at [ none ↦ false | some t ↦ leb_ℤ t now ]

-- What the first critical section of `execute` decides.
pub data Claim : Type 0 where
  own join : ℕ → Claim
  reentry : Claim

module _ {R : Type 0} where
  -- `_purge_expired_locked`: the number of entries removed, and the store.
  unfoldable pub purge_expired_locked : Seconds → Store R → ℕ × Store R
  unfolding keep
  purge_expired_locked now s =
      let kept = keep (λ e. not (is_expired now e)) s.entries in
      (length s.entries - length kept, record s { entries = kept })

  -- `purge_expired`, which takes the lock around it.
  unfoldable pub purge_expired : Seconds → Store R → ℕ × Store R
  unfolding purge_expired_locked
  purge_expired now s = purge_expired_locked now s

  -- `entry_count`
  unfoldable pub entry_count : Seconds → Store R → ℕ × Store R
  unfolding purge_expired_locked
  entry_count now s = let purged = (purge_expired_locked now s).1 in (length purged.entries, purged)

  set_future : ℕ → Future R → Store R → Store R
  set_future f state s = record s { futures = λ g. if g == f then state else s.futures g }

  -- `create_future()` and the new entry.
  pub occupy : String → Option ℕ → Store R → Store R
  unfolding set_item set_future
  occupy key task s = record (set_future s.next pending s) {
    entries =
        set_item key (record { future = s.next; owner_task = task; expires_at = none }) s.entries;
    next = s.next + 1;
  }

  -- By the entry that is found.
  pub claim_entry : String → Option ℕ → Option Entry → Store R → Claim × Store R
  unfolding occupy
  claim_entry key task none s = (own s.next, occupy key task s)
  claim_entry key task (some entry) s =
      if not (is_done (s.futures entry.future)) && same_task entry.owner_task task
      then (reentry, s)
      else (join entry.future, s)

  -- The critical section of `execute`, at a reading of the clock.
  unfoldable pub claim : String → Option ℕ → Seconds → Store R → Claim × Store R
  unfolding purge_expired_locked get_item claim_entry
  claim key task now s =
      let purged = (purge_expired_locked now s).1 in
      claim_entry key task (get_item key purged.entries) purged

  -- The status of a caller that joins a future.
  unfoldable pub join_status : ℕ → Store R → IdempotencyStatus
  join_status f s =
      if is_done (s.futures f) then IdempotencyStatus.replayed else IdempotencyStatus.joined

  -- What `await asyncio.shield(joined_future)` gives: none while it is pending, or when the caller
  -- has to compete again.
  unfoldable pub joined_outcome :
      String → IdempotencyStatus → Future R → Option (Outcome (IdempotencyResult R))
  unfolding new_result
  joined_outcome key status pending = none
  joined_outcome key status (result value) = some (new_result value (scalar (str key)) status)
  joined_outcome key status (failed e) = some (raised e)
  joined_outcome key status owner_cancelled = none

  -- `if not future.done()` and the setting of it.
  settle : ℕ → Future R → Store R → Store R
  unfolding set_future
  settle f state s = if is_done (s.futures f) then s else set_future f state s

  remove_if : String → ℕ → Option Entry → Store R → Store R
  unfolding del_item
  remove_if key f none s = s
  remove_if key f (some entry) s =
      if entry.future == f then record s { entries = del_item key s.entries } else s

  -- `_remove_entry_now`
  unfoldable pub remove_entry_now : String → ℕ → Store R → Store R
  unfolding get_item remove_if
  remove_entry_now key f s = remove_if key f (get_item key s.entries) s

  expire_if : String → ℕ → Seconds → Option Entry → Store R → Store R
  unfolding set_item
  expire_if key f at none s = s
  expire_if key f at (some entry) s =
      if entry.future == f
      then record s { entries = set_item key (record entry { expires_at = some at }) s.entries }
      else s

  -- The owner's operation has returned: `expires_at`, and the result for those who have joined.
  unfoldable pub publish : String → ℕ → R → Seconds → Duration → Store R → Store R
  unfolding get_item expire_if settle
  publish key f value now ttl s =
      settle f (result value) (expire_if key f (now +ℤ pos ttl) (get_item key s.entries) s)

  -- It has raised an Exception.
  unfoldable pub release_failed : String → ℕ → Exception → Store R → Store R
  unfolding remove_entry_now settle
  release_failed key f e s = settle f (failed e) (remove_entry_now key f s)

  -- It was cancelled.
  unfoldable pub release_cancelled : String → ℕ → Store R → Store R
  unfolding remove_entry_now settle
  release_cancelled key f s = settle f owner_cancelled (remove_entry_now key f s)

  -- By how the operation ends. Another BaseException is caught by no clause.
  unfoldable pub end_owner : String → ℕ → Seconds → Duration → Outcome R → Store R → Store R
  unfolding publish release_failed release_cancelled
  end_owner key f now ttl (returned value) s = publish key f value now ttl s
  end_owner key f now ttl (raised e) s = release_failed key f e s
  end_owner key f now ttl (interrupted cancelled_error) s = release_cancelled key f s
  end_owner key f now ttl (interrupted other_interrupt) s = s

-- The store is a number that names an object; none stands for the new one that the policy makes of its
-- own.
pub record IdempotencyPolicy (A : Type 0) : Type 0 where
  pub key_factory : A → Outcome PyObject
  pub store : Option ℕ
  pub ttl_seconds : Duration

-- `idempotency_policy(...)`: `IdempotencyPolicy(...)` with `__post_init__`.
unfoldable pub new_policy :
    {A : Type 0} → (A → Outcome PyObject) → Option ℕ → PyObject → Outcome (IdempotencyPolicy A)
unfolding validate_ttl
new_policy key_factory store ttl = bind_outcome (validate_ttl ttl) λ ttl_seconds.
    returned (record { key_factory = key_factory; store = store; ttl_seconds = ttl_seconds })

-- The key of a call: what `IdempotencyPolicy.run` passes to the store.
unfoldable pub key_of : {A : Type 0} → IdempotencyPolicy A → A → Outcome String
unfolding validate_key
key_of p arguments = bind_outcome (p.key_factory arguments) validate_key
