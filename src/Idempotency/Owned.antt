-- ===== src/Idempotency/Owned.antt =====
-- What the critical sections of src/relprim/idempotency.py leave of the entry of another owner.
use relprim.Prelude.{
  ℕ, ◌<◌, String, ◌≡◌, refl, sym, ◌∙◌, ◌≢◌, inl, inr, not, ◌&&◌, Option, none, some, arith, ◌==◌,
  Bool-cases,
}
use relprim.Prelude.Int.{pos, ◌+ℤ◌}
use relprim.Values.{Seconds, Duration}
use relprim.Outcome.{cancelled_error, other_interrupt, Outcome, returned, raised, interrupted}
use relprim.Prelude.Dict.{get_item}
use relprim.Prelude.Dict.Lookup.{get_item-set_item_other, get_item-del_item_other, get_item-keep}
use relprim.Idempotency.{
  Store, Entry, Future, own, claim_entry, purge_expired_locked, occupy, end_owner, publish,
  release_failed, release_cancelled, expire_if, remove_if, remove_entry_now, settle, set_future,
  is_expired, is_done, pending, result, failed, owner_cancelled, same_task,
}
use relprim.Idempotency.Replay.{IsOwner}

module _ {R : Type 0} where
  settle-next : (g : ℕ) (state : Future R) (s : Store R) → (settle g state s).next ≡ s.next
  unfolding settle set_future
  settle-next g state s = ground arith

  remove_if-next :
      (key : String) (g : ℕ) (o : Option Entry) (s : Store R) → (remove_if key g o s).next ≡ s.next
  unfolding remove_if
  remove_if-next key g none s = refl
  remove_if-next key g (some e) s = ground arith

  expire_if-next :
      (key : String) (g : ℕ) (at : Seconds) (o : Option Entry) (s : Store R)
      → (expire_if key g at o s).next ≡ s.next
  unfolding expire_if
  expire_if-next key g at none s = refl
  expire_if-next key g at (some e) s = ground arith

  -- No future is made where an owner ends.
  pub end_owner-next :
      (key : String) (g : ℕ) (now : Seconds) (ttl : Duration) (out : Outcome R) (s : Store R)
      → (end_owner key g now ttl out s).next ≡ s.next
  unfolding end_owner publish release_failed release_cancelled remove_entry_now
  end_owner-next key g now ttl (returned v) s =
      let o = get_item key s.entries in
      settle-next g (result v) (expire_if key g (now +ℤ pos ttl) o s)
      ∙ expire_if-next key g (now +ℤ pos ttl) o s
  end_owner-next key g now ttl (raised x) s =
      let o = get_item key s.entries in
      settle-next g (failed x) (remove_if key g o s) ∙ remove_if-next key g o s
  end_owner-next key g now ttl (interrupted cancelled_error) s =
      let o = get_item key s.entries in
      settle-next g owner_cancelled (remove_if key g o s) ∙ remove_if-next key g o s
  end_owner-next key g now ttl (interrupted other_interrupt) s = refl

  pub own_number :
      (key : String) (caller : Option ℕ) (o : Option Entry) (s t : Store R) (g : ℕ)
      → claim_entry key caller o s ≡ (own g, t)
      → g ≡ s.next
  unfolding claim_entry
  own_number key caller none s t g h = ground arith
  own_number key caller (some e) s t g h =
      elim (Bool-cases (not (is_done (s.futures e.future)) && same_task e.owner_task caller)) [
        | inl b ↦ ground arith
        | inr b ↦ ground arith
      ]

module _ {R : Type 0} (key : String) (f : ℕ) (task : Option ℕ) where
  pub purge-IsOwner :
      (now : Seconds) (s : Store R)
      → IsOwner key f task s
      → IsOwner key f task (purge_expired_locked now s).1
  unfolding purge_expired_locked
  purge-IsOwner now s (found, waiting) =
      (get_item-keep (λ x. not (is_expired now x)) key s.entries found refl, waiting)

  set_future-pending :
      (g : ℕ) (state : Future R) (s : Store R)
      → f ≢ g
      → s.futures f ≡ pending
      → (set_future g state s).futures f ≡ pending
  unfolding set_future
  set_future-pending g state s n h = ground arith

  settle-IsOwner :
      (g : ℕ) (state : Future R) (s : Store R)
      → g ≢ f
      → IsOwner key f task s
      → IsOwner key f task (settle g state s)
  unfolding settle set_future
  settle-IsOwner g state s n (found, waiting) = elim (Bool-cases (is_done (s.futures g))) [
    | inl b ↦ rw b (found, waiting)
    | inr b ↦ rw b (found, set_future-pending g state s (λ p. n (sym p)) waiting)
  ]

  module _ (key' : String) (foreign : key' ≢ key) where
    pub occupy-IsOwner :
        (caller : Option ℕ) (s : Store R)
        → f < s.next
        → IsOwner key f task s
        → IsOwner key f task (occupy key' caller s)
    unfolding occupy set_future
    occupy-IsOwner caller s n (found, waiting) = (
      get_item-set_item_other key' key _ s.entries foreign ∙ found,
      set_future-pending s.next pending s (λ p. absurd (ground arith)) waiting,
    )

    remove_if-IsOwner :
        (g : ℕ) (o : Option Entry) (s : Store R)
        → IsOwner key f task s
        → IsOwner key f task (remove_if key' g o s)
    unfolding remove_if
    remove_if-IsOwner g none s h = h
    remove_if-IsOwner g (some e) s (found, waiting) = elim (Bool-cases (e.future == g)) [
      | inl b ↦ rw b (get_item-del_item_other key' key s.entries foreign ∙ found, waiting)
      | inr b ↦ rw b (found, waiting)
    ]

    expire_if-IsOwner :
        (g : ℕ) (at : Seconds) (o : Option Entry) (s : Store R)
        → IsOwner key f task s
        → IsOwner key f task (expire_if key' g at o s)
    unfolding expire_if
    expire_if-IsOwner g at none s h = h
    expire_if-IsOwner g at (some e) s (found, waiting) = elim (Bool-cases (e.future == g)) [
      | inl b ↦ rw b (get_item-set_item_other key' key _ s.entries foreign ∙ found, waiting)
      | inr b ↦ rw b (found, waiting)
    ]

    pub end_owner-IsOwner :
        (g : ℕ) (now : Seconds) (ttl : Duration) (out : Outcome R) (s : Store R)
        → g ≢ f
        → IsOwner key f task s
        → IsOwner key f task (end_owner key' g now ttl out s)
    unfolding end_owner publish release_failed release_cancelled remove_entry_now
    end_owner-IsOwner g now ttl (returned v) s n h =
        settle-IsOwner g (result v) (expire_if key' g (now +ℤ pos ttl) (get_item key' s.entries) s)
          n (expire_if-IsOwner g (now +ℤ pos ttl) (get_item key' s.entries) s h)
    end_owner-IsOwner g now ttl (raised x) s n h =
        settle-IsOwner g (failed x) (remove_if key' g (get_item key' s.entries) s) n
          (remove_if-IsOwner g (get_item key' s.entries) s h)
    end_owner-IsOwner g now ttl (interrupted cancelled_error) s n h =
        settle-IsOwner g owner_cancelled (remove_if key' g (get_item key' s.entries) s) n
          (remove_if-IsOwner g (get_item key' s.entries) s h)
    end_owner-IsOwner g now ttl (interrupted other_interrupt) s n h = h
