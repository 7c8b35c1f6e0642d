-- ===== src/Idempotency/Replay.antt =====
-- What a later caller of `execute` finds once an owner has ended.
use relprim.Prelude.{
  ℕ, String, ◌≡◌, refl, ap, ◌∙◌, inl, inr, true, false, not, Option, none, some, arith, ◌==◌,
  if◌then◌else◌, Bool-cases,
}
use relprim.Prelude.Int.{pos, ◌+ℤ◌, leb_ℤ}
use relprim.Values.{Seconds, Duration}
use relprim.Outcome.{cancelled_error, other_interrupt, Outcome, returned, raised, interrupted}
use relprim.Prelude.Dict.{get_item}
use mathlib.Core.Path.{subst}
use mathlib.Core.Option.{some-injective}
use relprim.Prelude.Dict.Lookup.{
  get_item-del_item, get_item-keep_missing, get_item-set_item, get_item-del_item, get_item-keep,
}
use relprim.Idempotency.{
  own, reentry, same_task, remove_if, remove_entry_now, end_owner, release_failed,
  release_cancelled, failed, owner_cancelled, IdempotencyStatus, join_status, Store, Entry, Future,
  pending, join, claim, claim_entry, purge_expired_locked, publish, expire_if, remove_if,
  remove_entry_now, settle, set_future, is_expired, is_done, result,
}

same_number : (n : ℕ) → (n == n) ≡ true
same_number n = ground arith

module _ {R : Type 0} where
  -- The owner's own entry is still there: it has the key and the future, which is pending.
  abbrev pub IsOwner : String → ℕ → Option ℕ → Store R → Type 0
  IsOwner key f task s =
      (get_item key s.entries ≡ some (record { future = f; owner_task = task; expires_at = none }))
      × (s.futures f ≡ pending)

  settle-entries : (f : ℕ) (state : Future R) (s : Store R) → (settle f state s).entries ≡ s.entries
  unfolding settle set_future
  settle-entries f state s = elim (Bool-cases (is_done (s.futures f))) [
    | inl b ↦ rw b refl
    | inr b ↦ rw b refl
  ]

  settle-pending :
      (f : ℕ) (state : Future R) (s : Store R)
      → s.futures f ≡ pending
      → (settle f state s).futures f ≡ state
  unfolding settle set_future
  settle-pending f state s h = rw h (rw (same_number f) refl)

  expire_if-found :
      (key : String) (f : ℕ) (task : Option ℕ) (at : Seconds) (s : Store R)
      → get_item key
          (expire_if key f at
            (some (record { future = f; owner_task = task; expires_at = none }))
            s).entries
        ≡ some (record { future = f; owner_task = task; expires_at = some at })
  unfolding expire_if
  expire_if-found key f task at s = rw (same_number f) (get_item-set_item key _ s.entries)

  expire_if-futures :
      (key : String) (f : ℕ) (at : Seconds) (o : Option Entry) (s : Store R)
      → (expire_if key f at o s).futures f ≡ s.futures f
  unfolding expire_if
  expire_if-futures key f at none s = refl
  expire_if-futures key f at (some e) s = elim (Bool-cases (e.future == f)) [
    | inl b ↦ rw b refl
    | inr b ↦ rw b refl
  ]

  published :
      (key : String) (f : ℕ) (task : Option ℕ) (value : R) (at : Seconds) (ttl : Duration)
      (s : Store R)
      → IsOwner key f task s
      → let t = publish key f value at ttl s in
        (get_item key t.entries
          ≡ some (record { future = f; owner_task = task; expires_at = some (at +ℤ pos ttl) }))
        × (t.futures f ≡ result value)
  unfolding publish
  published key f task value at ttl s (found, waiting) =
      let u = expire_if key f (at +ℤ pos ttl) (get_item key s.entries) s in
      (
        ap (get_item key) (settle-entries f (result value) u)
            ∙ ap (λ o. get_item key (expire_if key f (at +ℤ pos ttl) o s).entries) found
            ∙ expire_if-found key f task (at +ℤ pos ttl) s,
        settle-pending f (result value) u
            (expire_if-futures key f (at +ℤ pos ttl) (get_item key s.entries) s ∙ waiting),
      )

  claim_entry-done :
      (key : String) (caller : Option ℕ) (e : Entry) (s : Store R)
      → is_done (s.futures e.future) ≡ true
      → claim_entry key caller (some e) s ≡ (join e.future, s)
  unfolding claim_entry
  claim_entry-done key caller e s h = rw h refl

  -- A caller joins the done future of an entry that has not expired.
  claim-done :
      (key : String) (caller : Option ℕ) (later : Seconds) (e : Entry) (s : Store R)
      → get_item key s.entries ≡ some e
      → is_expired later e ≡ false
      → is_done (s.futures e.future) ≡ true
      → claim key caller later s ≡ (join e.future, (purge_expired_locked later s).1)
  unfolding claim purge_expired_locked
  claim-done key caller later e s found fresh done =
      let purged = (purge_expired_locked later s).1 in
      ap (λ o. claim_entry key caller o purged)
        (get_item-keep (λ x. not (is_expired later x)) key s.entries found (rw fresh refl))
      ∙ claim_entry-done key caller e purged done

  -- Until the ttl of a published result has passed, every caller joins the owner's future, which holds
  -- that result, with the status replayed.
  pub publish-claim :
      (key : String) (f : ℕ) (task caller : Option ℕ) (value : R) (at later : Seconds)
      (ttl : Duration) (s : Store R)
      → IsOwner key f task s
      → leb_ℤ (at +ℤ pos ttl) later ≡ false
      → let (c, t) = claim key caller later (publish key f value at ttl s) in
        (c ≡ join f) × (t.futures f ≡ result value) × (join_status f t ≡ IdempotencyStatus.replayed)
  unfolding purge_expired_locked join_status
  publish-claim key f task caller value at later ttl s o h =
      let t = publish key f value at ttl s in
      let e : Entry = record { future = f; owner_task = task; expires_at = some (at +ℤ pos ttl) } in
      let (found, done) = published key f task value at ttl s o in
      let joined = claim-done key caller later e t found h (ap is_done done) in
      (
        ap (λ x. x.0) joined,
        ap (λ x. x.1.futures f) joined ∙ done,
        ap (λ x. join_status f x.1) joined ∙ rw done refl,
      )

  -- What the callers that have joined are told, when the key is given free.
  abbrev pub told : Outcome R → Option (Future R)
  told (raised e) = some (failed e)
  told (interrupted cancelled_error) = some owner_cancelled
  told _ = none

  remove_if-found :
      (key : String) (f : ℕ) (task : Option ℕ) (s : Store R)
      → let t =
          remove_if key f (some (record { future = f; owner_task = task; expires_at = none })) s in
        (get_item key t.entries ≡ none) × (t.futures f ≡ s.futures f)
  unfolding remove_if
  remove_if-found key f task s = rw (same_number f) (get_item-del_item key s.entries, refl)

  IsFree : String → ℕ → Future R → Store R → Type 0
  IsFree key f state t = (get_item key t.entries ≡ none) × (t.futures f ≡ state)

  removed :
      (key : String) (f : ℕ) (task : Option ℕ) (state : Future R) (s : Store R)
      → IsOwner key f task s
      → IsFree key f state (settle f state (remove_entry_now key f s))
  unfolding remove_entry_now IsFree
  removed key f task state s (found, waiting) =
      let e : Entry = record { future = f; owner_task = task; expires_at = none } in
      let (gone, same) = remove_if-found key f task s in
      let t = remove_if key f (get_item key s.entries) s in
      (
        ap (get_item key) (settle-entries f state t)
            ∙ ap (λ o. get_item key (remove_if key f o s).entries) found
            ∙ gone,
        settle-pending f state t (ap (λ o. (remove_if key f o s).futures f) found ∙ same ∙ waiting),
      )

  ended :
      (key : String) (f : ℕ) (task : Option ℕ) (at : Seconds) (ttl : Duration) (out : Outcome R)
      (state : Future R) (s : Store R)
      → told out ≡ some state
      → IsOwner key f task s
      → IsFree key f state (end_owner key f at ttl out s)
  unfolding end_owner release_failed release_cancelled
  ended key f task at ttl (returned v) state s h o = cc
  ended key f task at ttl (raised e) state s h o =
      subst (λ x. IsFree key f x (settle f (failed e) (remove_entry_now key f s)))
        (some-injective _ _ h) (removed key f task (failed e) s o)
  ended key f task at ttl (interrupted cancelled_error) state s h o =
      subst (λ x. IsFree key f x (settle f owner_cancelled (remove_entry_now key f s)))
        (some-injective _ _ h) (removed key f task owner_cancelled s o)
  ended key f task at ttl (interrupted other_interrupt) state s h o = cc

  -- An owner that fails or is cancelled gives its key free: the next caller, at any time, executes the
  -- operation with a new future, and the callers that have joined are told of the exception, or that
  -- they have to compete again.
  pub end_owner-claim :
      (key : String) (f : ℕ) (task caller : Option ℕ) (at later : Seconds) (ttl : Duration)
      (out : Outcome R) (state : Future R) (s : Store R)
      → told out ≡ some state
      → IsOwner key f task s
      → let t = end_owner key f at ttl out s in
        ((claim key caller later t).0 ≡ own t.next) × (t.futures f ≡ state)
  unfolding claim purge_expired_locked claim_entry IsFree
  end_owner-claim key f task caller at later ttl out state s h o =
      let t = end_owner key f at ttl out s in
      let purged = (purge_expired_locked later t).1 in
      let (gone, known) = ended key f task at ttl out state s h o in
      (
        ap (λ x. (claim_entry key caller x purged).0)
            (get_item-keep_missing (λ x. not (is_expired later x)) key t.entries gone),
        known,
      )

  claim_entry-pending :
      (key : String) (caller : Option ℕ) (e : Entry) (s : Store R)
      → s.futures e.future ≡ pending
      → (claim_entry key caller (some e) s).0
        ≡ (if same_task e.owner_task caller then reentry else join e.future)
  unfolding claim_entry
  claim_entry-pending key caller e s h = rw h (ground arith)

  -- While an owner is in flight, its own task cannot claim the key again and gets an
  -- IdempotencyReentryError; every other caller joins its future, at any time.
  pub pending-claim :
      (key : String) (f : ℕ) (task caller : Option ℕ) (later : Seconds) (s : Store R)
      → IsOwner key f task s
      → (claim key caller later s).0 ≡ (if same_task task caller then reentry else join f)
  unfolding claim purge_expired_locked
  pending-claim key f task caller later s (found, waiting) =
      let e : Entry = record { future = f; owner_task = task; expires_at = none } in
      let purged = (purge_expired_locked later s).1 in
      ap (λ o. (claim_entry key caller o purged).0)
        (get_item-keep (λ x. not (is_expired later x)) key s.entries found refl)
      ∙ claim_entry-pending key caller e purged waiting
