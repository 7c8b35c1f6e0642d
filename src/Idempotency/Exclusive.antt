-- ===== src/Idempotency/Exclusive.antt =====
-- No key of a store is executed twice at a time, whatever its tasks do.
use relprim.Prelude.{ℕ, String, ◌≡◌, sym, ◌≢◌, Option, ◌∷◌, ◌++◌, All, All-imp}
use relprim.Values.{Seconds}
use mathlib.Core.Path.{subst}
use relprim.Prelude.Dict.{get_item}
use relprim.Idempotency.{
  Store, Claim, own, join, reentry, claim, purge_expired_locked, occupy, end_owner,
}
use relprim.Idempotency.Tasks.{
  System, idle, Step, claim_owns, claim_joins, claim_reenters, owner_ends, purges, Reach, here,
  next,
}
use relprim.Idempotency.Held.{
  Distinct, Held, IsExclusive, All-remove, All-zip, occupy-Held, end_owner-Held, Distinct-remove,
  purge-Held, claim_entry-own, claim_entry-keeps, occupied, free,
}

module _ {R : Type 0} where
  kept_by_claim :
      (key : String) (task : Option ℕ) (now : Seconds) (s : System R) (t : Store R) (c : Claim)
      → ((f : ℕ) → c ≢ own f)
      → claim key task now s.store ≡ (c, t)
      → IsExclusive s
      → All (Held t) s.owners
  unfolding claim
  kept_by_claim key task now s t c n h x =
      let purged = (purge_expired_locked now s.store).1 in
      subst (λ u. All (Held u) s.owners)
        (sym (claim_entry-keeps key task (get_item key purged.entries) purged t c n h))
        (All-imp (Held s.store) (Held purged) s.owners (purge-Held now s.store) x.held)

  Step-IsExclusive : {s t : System R} → Step s t → IsExclusive s → IsExclusive t
  unfolding claim
  Step-IsExclusive {s} {t} (claim_owns key task now f h e) x =
      let purged = (purge_expired_locked now s.store).1 in
      let (none_found, made) =
        claim_entry-own key task (get_item key purged.entries) purged t.store f h in
      let kept = All-imp (Held s.store) (Held purged) s.owners (purge-Held now s.store) x.held in
      let others =
        All-imp (Held purged) (λ o. key ≢ o.1) s.owners (λ o. free key purged o none_found) kept in
      record {
        held = subst (All (Held t.store)) (sym e) (
            subst (λ u. All (Held u) ((f, key) ∷ s.owners)) (sym made)
              (
                occupied key task f purged,
                All-zip (Held purged) (λ o. key ≢ o.1) (Held (occupy key task purged)) s.owners
                    (λ o p q. occupy-Held key f o q task purged p) kept others,
              ));
        distinct = subst Distinct (sym e) (others, x.distinct);
      }
  Step-IsExclusive {s} {t} (claim_joins key task now f h e) x = record {
    held =
        subst (All (Held t.store)) (sym e)
          (kept_by_claim key task now s t.store (join f) (λ g q. cc) h x);
    distinct = subst Distinct (sym e) x.distinct;
  }
  Step-IsExclusive {s} {t} (claim_reenters key task now h e) x = record {
    held =
        subst (All (Held t.store)) (sym e)
          (kept_by_claim key task now s t.store reentry (λ g q. cc) h x);
    distinct = subst Distinct (sym e) x.distinct;
  }
  Step-IsExclusive {s} {t} (owner_ends before after f key now ttl o e e' h) x =
      let ended = end_owner key f now ttl o s.store in
      let (distinct, others) =
        Distinct-remove before after (f, key) (subst Distinct e x.distinct) in
      let (_, kept) =
        All-remove (Held s.store) before after (f, key) (subst (All (Held s.store)) e x.held) in
      record {
        held = subst (All (Held t.store)) (sym e') (
            subst (λ u. All (Held u) (before ++ after)) (sym h)
              (All-zip (Held s.store) (λ p. key ≢ p.1) (Held ended) (before ++ after)
                (λ p held q. end_owner-Held key f p q now ttl o s.store held) kept others));
        distinct = subst Distinct (sym e') distinct;
      }
  Step-IsExclusive {s} {t} (purges now h e) x = record {
    held = subst (All (Held t.store)) (sym e) (
        subst (λ u. All (Held u) s.owners) (sym h)
          (All-imp (Held s.store) (Held (purge_expired_locked now s.store).1) s.owners
            (purge-Held now s.store) x.held));
    distinct = subst Distinct (sym e) x.distinct;
  }

  Reach-IsExclusive : {s : System R} → Reach idle s → IsExclusive s
  Reach-IsExclusive here = record { held = tt; distinct = tt }
  Reach-IsExclusive (next r st) = Step-IsExclusive st (Reach-IsExclusive r)

  -- Whatever the tasks do, and however their critical sections interleave, the operations that are in
  -- flight at the same time all have different keys: a key is executed at most once at a time.
  pub Reach-Distinct : {s : System R} → Reach idle s → Distinct s.owners
  Reach-Distinct r = (Reach-IsExclusive r).distinct
