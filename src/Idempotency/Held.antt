-- ===== src/Idempotency/Held.antt =====
-- The entries of src/relprim/idempotency.py that owners hold, through the critical sections.
use relprim.Prelude.{
  ℕ, String, ◌≡◌, refl, sym, ap, ◌∙◌, ◌≢◌, inl, inr, not, ◌&&◌, Option, none, some, List, [], ◌∷◌,
  ◌++◌, arith, ◌==◌, Bool-cases, All,
}
use relprim.Prelude.Int.{pos, ◌+ℤ◌}
use relprim.Values.{Seconds, Duration}
use relprim.Outcome.{cancelled_error, other_interrupt, Outcome, returned, raised, interrupted}
use relprim.Prelude.Dict.{get_item}
use relprim.Prelude.Dict.Lookup.{
  get_item-set_item, get_item-set_item_other, get_item-del_item_other, get_item-keep,
}
use relprim.Idempotency.{
  Store, Entry, Future, Claim, own, claim_entry, purge_expired_locked, occupy, end_owner, publish,
  release_failed, release_cancelled, expire_if, remove_if, remove_entry_now, settle, set_future,
  is_expired, is_done, result, failed, owner_cancelled, same_task,
}
use relprim.Idempotency.Tasks.{Owner, System}

-- No two owners have the same key.
abbrev pub Distinct : List Owner → Type 0
Distinct [] = Unit {0}
Distinct (o ∷ os) = All (λ p. o.1 ≢ p.1) os × Distinct os

-- The key of the owner is occupied by an entry that never expires.
abbrev pub Held : {R : Type 0} → Store R → Owner → Type 0
Held s o = (e : Entry) × (get_item o.1 s.entries ≡ some e) × (e.expires_at ≡ none)

pub record IsExclusive {R : Type 0} (s : System R) : Type 0 where
  pub held : All (Held s.store) s.owners
  pub distinct : Distinct s.owners

module _ (P : Owner → Type 0) where
  pub All-remove :
      (before after : List Owner) (o : Owner)
      → All P (before ++ o ∷ after)
      → P o × All P (before ++ after)
  All-remove [] after o h = h
  All-remove (b ∷ before) after o h =
      let (p, rest) = All-remove before after o h.1 in (p, (h.0, rest))

  pub All-zip :
      (Q T : Owner → Type 0) (os : List Owner)
      → ((o : Owner) → P o → Q o → T o)
      → All P os
      → All Q os
      → All T os
  All-zip Q T [] f h k = tt
  All-zip Q T (o ∷ os) f h k = (f o h.0 k.0, All-zip Q T os f h.1 k.1)

pub Distinct-remove :
    (before after : List Owner) (o : Owner)
    → Distinct (before ++ o ∷ after)
    → Distinct (before ++ after) × All (λ p. o.1 ≢ p.1) (before ++ after)
Distinct-remove [] after o h = (h.1, h.0)
Distinct-remove (b ∷ before) after o h =
    let (d, a) = Distinct-remove before after o h.1 in
    let (n, rest) = All-remove (λ p. b.1 ≢ p.1) before after o h.0 in
    ((rest, d), ((λ p. n (sym p)), a))

module _ {R : Type 0} where
  pub purge-Held :
      (now : Seconds) (s : Store R) (o : Owner) → Held s o → Held (purge_expired_locked now s).1 o
  unfolding purge_expired_locked
  purge-Held now s o (e, found, never) =
      (e, get_item-keep (λ x. not (is_expired now x)) o.1 s.entries found (rw never refl), never)

  pub claim_entry-own :
      (key : String) (task : Option ℕ) (o : Option Entry) (s t : Store R) (f : ℕ)
      → claim_entry key task o s ≡ (own f, t)
      → (o ≡ none) × (t ≡ occupy key task s)
  unfolding claim_entry
  claim_entry-own key task none s t f h = (refl, cc)
  claim_entry-own key task (some e) s t f h =
      elim (Bool-cases (not (is_done (s.futures e.future)) && same_task e.owner_task task)) [
        | inl b ↦ ground arith
        | inr b ↦ ground arith
      ]

  pub claim_entry-keeps :
      (key : String) (task : Option ℕ) (o : Option Entry) (s t : Store R) (c : Claim)
      → ((f : ℕ) → c ≢ own f)
      → claim_entry key task o s ≡ (c, t)
      → t ≡ s
  unfolding claim_entry
  claim_entry-keeps key task none s t c n h = absurd (n s.next (sym (ap (λ x. x.0) h)))
  claim_entry-keeps key task (some e) s t c n h =
      elim (Bool-cases (not (is_done (s.futures e.future)) && same_task e.owner_task task)) [
        | inl b ↦ ground arith
        | inr b ↦ ground arith
      ]

  -- An entry that another key has does not change.
  module _ (key : String) (f : ℕ) (o : Owner) (other : key ≢ o.1) where
    pub occupy-Held : (task : Option ℕ) (s : Store R) → Held s o → Held (occupy key task s) o
    unfolding occupy set_future
    occupy-Held task s (e, found, never) =
        (e, get_item-set_item_other key o.1 _ s.entries other ∙ found, never)

    settle-Held : (state : Future R) (s : Store R) → Held s o → Held (settle f state s) o
    unfolding settle set_future
    settle-Held state s h = elim (Bool-cases (is_done (s.futures f))) [
      | inl b ↦ rw b h
      | inr b ↦ rw b h
    ]

    remove_if-Held :
        (found : Option Entry) (s : Store R) → Held s o → Held (remove_if key f found s) o
    unfolding remove_if
    remove_if-Held none s h = h
    remove_if-Held (some entry) s (e, found, never) = elim (Bool-cases (entry.future == f)) [
      | inl b ↦ rw b (e, get_item-del_item_other key o.1 s.entries other ∙ found, never)
      | inr b ↦ rw b (e, found, never)
    ]

    expire_if-Held :
        (at : Seconds) (found : Option Entry) (s : Store R)
        → Held s o
        → Held (expire_if key f at found s) o
    unfolding expire_if
    expire_if-Held at none s h = h
    expire_if-Held at (some entry) s (e, found, never) = elim (Bool-cases (entry.future == f)) [
      | inl b ↦ rw b (e, get_item-set_item_other key o.1 _ s.entries other ∙ found, never)
      | inr b ↦ rw b (e, found, never)
    ]

    pub end_owner-Held :
        (now : Seconds) (ttl : Duration) (out : Outcome R) (s : Store R)
        → Held s o
        → Held (end_owner key f now ttl out s) o
    unfolding end_owner publish release_failed release_cancelled remove_entry_now
    end_owner-Held now ttl (returned v) s h =
        settle-Held (result v) (expire_if key f (now +ℤ pos ttl) (get_item key s.entries) s)
          (expire_if-Held (now +ℤ pos ttl) (get_item key s.entries) s h)
    end_owner-Held now ttl (raised x) s h =
        settle-Held (failed x) (remove_if key f (get_item key s.entries) s)
          (remove_if-Held (get_item key s.entries) s h)
    end_owner-Held now ttl (interrupted cancelled_error) s h =
        settle-Held owner_cancelled (remove_if key f (get_item key s.entries) s)
          (remove_if-Held (get_item key s.entries) s h)
    end_owner-Held now ttl (interrupted other_interrupt) s h = h

  pub occupied :
      (key : String) (task : Option ℕ) (f : ℕ) (s : Store R) → Held (occupy key task s) (f, key)
  unfolding occupy set_future
  occupied key task f s = (_, get_item-set_item key _ s.entries, refl)

  -- A key that is free is no owner's.
  pub free :
      (key : String) (s : Store R) (o : Owner)
      → get_item key s.entries ≡ none
      → Held s o
      → key ≢ o.1
  free key s o h (e, found, never) p = none≢some' (sym h ∙ ap (λ k. get_item k s.entries) p ∙ found)
    where
      none≢some' : {x : Entry} → ◌≡◌ {A = Option Entry} none (some x) → ⊥
      none≢some' q = cc
