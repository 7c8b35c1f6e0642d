-- ===== src/Idempotency/Abandoned.antt =====
-- The entry of an owner that src/relprim/idempotency.py leaves in place for ever.
use relprim.Prelude.{
  ℕ, ◌<◌, String, ◌≡◌, refl, sym, ◌≢◌, Option, none, List, ◌∷◌, ◌++◌, arith, if◌then◌else◌, All,
}
use relprim.Values.{Seconds, Duration}
use relprim.Outcome.{other_interrupt, interrupted}
use relprim.Prelude.Dict.{get_item}
use mathlib.Core.Path.{subst}
use relprim.Idempotency.{
  Store, Claim, own, join, reentry, claim, purge_expired_locked, occupy, end_owner, pending,
  same_task,
}
use relprim.Idempotency.Tasks.{
  Owner, System, Step, claim_owns, claim_joins, claim_reenters, owner_ends, purges, Reach, here,
  next,
}
use relprim.Idempotency.Held.{All-remove, claim_entry-own, claim_entry-keeps, free}
use relprim.Idempotency.Replay.{IsOwner, pending-claim}
use relprim.Idempotency.Owned.{
  purge-IsOwner, occupy-IsOwner, end_owner-IsOwner, end_owner-next, own_number,
}

-- Another owner: it has another future and another key.
abbrev pub IsOther : String → ℕ → Owner → Type 0
IsOther key f o = (o.0 ≢ f) × (o.1 ≢ key)

module _ {R : Type 0} (key : String) (f : ℕ) (task : Option ℕ) where
  -- The entry is there, its future is pending, and no owner in flight will touch either.
  pub record IsAbandoned (s : System R) : Type 0 where
    pub entry : IsOwner key f task s.store
    pub numbered : f < s.store.next
    pub others : All (IsOther key f) s.owners

  claim-keeps :
      (key' : String) (caller : Option ℕ) (now : Seconds) (s : System R) (t : Store R) (c : Claim)
      → ((g : ℕ) → c ≢ own g)
      → claim key' caller now s.store ≡ (c, t)
      → IsAbandoned s
      → IsOwner key f task t × (f < t.next)
  unfolding claim purge_expired_locked
  claim-keeps key' caller now s t c n h a =
      let purged = (purge_expired_locked now s.store).1 in
      subst (λ u. IsOwner key f task u × (f < u.next))
        (sym (claim_entry-keeps key' caller (get_item key' purged.entries) purged t c n h))
        (purge-IsOwner key f task now s.store a.entry, a.numbered)

  free_other :
      (key' : String) (s : Store R)
      → get_item key' s.entries ≡ none
      → IsOwner key f task s
      → key' ≢ key
  free_other key' s h (found, waiting) = free key' s (f, key) h (_, found, refl)

  claim-owns :
      (key' : String) (caller : Option ℕ) (now : Seconds) (g : ℕ) (s : System R) (t : Store R)
      → claim key' caller now s.store ≡ (own g, t)
      → IsAbandoned s
      → IsOwner key f task t × (f < t.next) × IsOther key f (g, key')
  unfolding claim purge_expired_locked occupy
  claim-owns key' caller now g s t h a =
      let purged = (purge_expired_locked now s.store).1 in
      let found = get_item key' purged.entries in
      let (none_found, made) = claim_entry-own key' caller found purged t g h in
      let number = own_number key' caller found purged t g h in
      let kept = purge-IsOwner key f task now s.store a.entry in
      let foreign = free_other key' purged none_found kept in
      let earlier : f < s.store.next = a.numbered in
      subst (λ u. IsOwner key f task u × (f < u.next) × IsOther key f (g, key')) (sym made)
        (
          occupy-IsOwner key f task key' foreign caller purged earlier kept,
          omega arith,
          ((λ p. absurd (omega arith)), foreign),
        )

  Step-IsAbandoned : {s t : System R} → Step s t → IsAbandoned s → IsAbandoned t
  unfolding purge_expired_locked
  Step-IsAbandoned {s} {t} (claim_owns key' caller now g h e) a =
      let (entry, numbered, foreign) = claim-owns key' caller now g s t.store h a in
      record {
        entry = entry;
        numbered = numbered;
        others = subst (All (IsOther key f)) (sym e) (foreign, a.others);
      }
  Step-IsAbandoned {s} {t} (claim_joins key' caller now g h e) a =
      let (entry, numbered) = claim-keeps key' caller now s t.store (join g) (λ x q. cc) h a in
      record {
        entry = entry;
        numbered = numbered;
        others = subst (All (IsOther key f)) (sym e) a.others;
      }
  Step-IsAbandoned {s} {t} (claim_reenters key' caller now h e) a =
      let (entry, numbered) = claim-keeps key' caller now s t.store reentry (λ x q. cc) h a in
      record {
        entry = entry;
        numbered = numbered;
        others = subst (All (IsOther key f)) (sym e) a.others;
      }
  Step-IsAbandoned {s} {t} (owner_ends before after g key' now ttl o e e' h) a =
      let (foreign, rest) =
        All-remove (IsOther key f) before after (g, key')
          (subst (All (IsOther key f)) e a.others) in
      record {
        entry =
            subst (IsOwner key f task) (sym h)
              (end_owner-IsOwner key f task key' foreign.1 g now ttl o s.store foreign.0 a.entry);
        numbered =
            subst (λ u. f < u.next) (sym h)
              (rw (end_owner-next key' g now ttl o s.store) a.numbered);
        others = subst (All (IsOther key f)) (sym e') rest;
      }
  Step-IsAbandoned {s} {t} (purges now h e) a = record {
    entry = subst (IsOwner key f task) (sym h) (purge-IsOwner key f task now s.store a.entry);
    numbered = subst (λ u. f < u.next) (sym h) a.numbered;
    others = subst (All (IsOther key f)) (sym e) a.others;
  }

  Reach-IsAbandoned : {s t : System R} → Reach s t → IsAbandoned s → IsAbandoned t
  Reach-IsAbandoned here a = a
  Reach-IsAbandoned (next r st) a = Step-IsAbandoned st (Reach-IsAbandoned r a)

  -- An owner is left by a BaseException other than a cancellation, such as KeyboardInterrupt, while
  -- its entry is in place with a pending future that the store has made, and the other owners in
  -- flight have other futures and keys. Whatever the tasks do from then on, its future stays
  -- pending and the key occupied: a claim of the key at any later time joins that future, or gets
  -- an IdempotencyReentryError in the owner's own task.
  pub abandoned-claim :
      (caller : Option ℕ) (at later : Seconds) (ttl : Duration) (before after : List Owner)
      (s u t : System R)
      → IsOwner key f task s.store
      → f < s.store.next
      → All (IsOther key f) (before ++ after)
      → s.owners ≡ before ++ (f, key) ∷ after
      → u.owners ≡ before ++ after
      → u.store ≡ end_owner key f at ttl (interrupted other_interrupt) s.store
      → Reach u t
      → (t.store.futures f ≡ pending)
        × ((claim key caller later t.store).0 ≡ (if same_task task caller then reentry else join f))
  unfolding end_owner
  abandoned-claim caller at later ttl before after s u t owner old others e e' h r =
      let ended : IsAbandoned u = record {
        entry = subst (IsOwner key f task) (sym h) owner;
        numbered = subst (λ x. f < x.next) (sym h) old;
        others = subst (All (IsOther key f)) (sym e') others;
      } in
      let left = (Reach-IsAbandoned r ended).entry in
      (left.1, pending-claim key f task caller later t.store left)
