-- ===== src/Idempotency/Execute/Again.antt =====
-- A key that is executed and then asked for again.
use relprim.Prelude.{ℕ, suc, String, ◌≡◌, refl, ap, ◌∙◌, false, Option, some}
use relprim.Prelude.Int.{pos, ◌+ℤ◌, leb_ℤ}
use relprim.Prelude.Text.{is_blank}
use relprim.Values.{Duration, str, scalar}
use relprim.Outcome.{returned, Action}
use relprim.Idempotency.{
  IdempotencyStatus, Store, own, join, claim, join_status, joined_outcome, end_owner, publish,
  new_result, result,
}
use relprim.Idempotency.Replay.{IsOwner, publish-claim}
use relprim.Idempotency.Execute.{Site, run_owned, await_future, unless_cancelled, execute_loop}

-- The store is a part of the world that can be read and replaced, and the clock is another part.
pub record IsSite {R S : Type 0} (site : Site R S) : Type 0 where
  pub store_of-with_store : (t : Store R) (s : S) → site.store_of (site.with_store t s) ≡ t
  pub clock-with_store : (t : Store R) (s : S) → site.clock (site.with_store t s) ≡ site.clock s

checked_result :
    {R : Type 0} (value : R) (key : String) (status : IdempotencyStatus)
    → is_blank key ≡ false
    → new_result value (scalar (str key)) status
      ≡ returned (record { value = value; key = key; status = status })
unfolding new_result
checked_result value key status h = rw h refl

module _ {R S : Type 0} (site : Site R S) where
  open site use {store_of, with_store, clock}

  own_round :
      (key : String) (task : Option ℕ) (ttl : Duration) (operation : Action S R) (n f : ℕ)
      (s s1 : S) (t : Store R) (value : R)
      → is_blank key ≡ false
      → claim key task (clock s) (store_of s) ≡ (own f, t)
      → operation (with_store t s) ≡ (returned value, s1)
      → execute_loop site (suc n) key task ttl operation s
        ≡ some (
          returned (record { value = value; key = key; status = IdempotencyStatus.executed }),
          with_store (publish key f value (clock s1) ttl (store_of s1)) s1,
        )
  unfolding execute_loop run_owned end_owner
  own_round key task ttl operation n f s s1 t value named claimed ran =
      rw (claimed, ran, checked_result value key IdempotencyStatus.executed named) refl

  join_round :
      IsSite site
      → (key : String) (task : Option ℕ) (ttl : Duration) (operation : Action S R) (n f : ℕ) (s : S)
        (value : R)
      → is_blank key ≡ false
      → let (c, t) = claim key task (clock s) (store_of s) in
        (c ≡ join f) × (t.futures f ≡ result value) × (join_status f t ≡ IdempotencyStatus.replayed)
        → execute_loop site (suc n) key task ttl operation s
          ≡ some (
            returned (record { value = value; key = key; status = IdempotencyStatus.replayed }),
            with_store (claim key task (clock s) (store_of s)).1 s,
          )
  unfolding execute_loop await_future joined_outcome
  join_round lawful key task ttl operation n f s value named (c, d, e) =
      let same = lawful.store_of-with_store (claim key task (clock s) (store_of s)).1 s in
      rw (c, same, e, d)
        (ap
            (λ (store : Store R).
              unless_cancelled site (with_store (claim key task (clock s) (store_of s)).1 s)
                (joined_outcome key IdempotencyStatus.replayed (store.futures f))
                (λ s'. execute_loop site n key task ttl operation s'))
            same
          ∙ rw (d, checked_result value key IdempotencyStatus.replayed named) refl)

  -- A key is executed once and then replayed. A caller whose claim makes it the owner, and whose
  -- operation returns, gets that value with the status executed. Any later caller that finds the
  -- store as the owner left it, before the ttl has passed, gets the same value with the status
  -- replayed; its own operation is not run, and of its world only the store is changed, by the
  -- removal of what has expired. It takes one round of the loop each time. While the operation ran,
  -- other tasks may have changed the store, but for the entry of this key.
  pub execute_loop_replays :
      IsSite site
      → (key : String) (task caller : Option ℕ) (ttl ttl' : Duration)
        (operation operation' : Action S R) (m n f : ℕ) (s s1 later : S) (t : Store R) (value : R)
      → is_blank key ≡ false
      → claim key task (clock s) (store_of s) ≡ (own f, t)
      → operation (with_store t s) ≡ (returned value, s1)
      → IsOwner key f task (store_of s1)
      → store_of later ≡ publish key f value (clock s1) ttl (store_of s1)
      → leb_ℤ (clock s1 +ℤ pos ttl) (clock later) ≡ false
      → (execute_loop site (suc m) key task ttl operation s
          ≡ some (
            returned (record { value = value; key = key; status = IdempotencyStatus.executed }),
            with_store (publish key f value (clock s1) ttl (store_of s1)) s1,
          ))
        × (execute_loop site (suc n) key caller ttl' operation' later
            ≡ some (
              returned (record { value = value; key = key; status = IdempotencyStatus.replayed }),
              with_store (claim key caller (clock later) (store_of later)).1 later,
            ))
  execute_loop_replays lawful key task caller ttl ttl' operation operation' m n f s s1 later t value
        named claimed ran owns same fresh =
      (
        own_round key task ttl operation m f s s1 t value named claimed ran,
        join_round lawful key caller ttl' operation' n f later value named (
            rw same (
              publish-claim key f task caller value (clock s1) (clock later) ttl (store_of s1) owns
                fresh)),
      )
