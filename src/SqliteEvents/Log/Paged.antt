-- ===== src/SqliteEvents/Log/Paged.antt =====
-- The part of a log after a page of it.
use relprim.Prelude.{
  ℕ, zero, suc, ◌<◌, ◌≡◌, refl, sym, ◌∙◌, ◌⊎◌, inl, inr, Bool, true, false, ◌&&◌, Option, none,
  some, List, [], ◌∷◌, arith, ltb, if◌then◌else◌, take, drop, keep_if, last?, All, All-imp,
}
use mathlib.Core.Option.{some-injective}
use mathlib.Core.Path.{subst}
use relprim.SqliteEvents.Encoding.{StoredEvent}
use relprim.SqliteEvents.Log.{is_after}

-- The ids grow, as AUTOINCREMENT gives them.
abbrev pub Increasing : List StoredEvent → Type 0
Increasing [] = Unit
Increasing (e ∷ log) = All (λ s. e.sequence_id < s.sequence_id) log × Increasing log

module _ {X : Type 0} where
  last_split :
      (xs : List X) (x : X) {last : X}
      → last? (x ∷ xs) ≡ some last
      → ((xs ≡ []) × (x ≡ last)) ⊎ (last? xs ≡ some last)
  last_split [] x q = inl (refl, some-injective _ _ q)
  last_split (y ∷ xs) x q = inr q

  nothing_taken : (n : ℕ) (xs : List X) → take n xs ≡ [] → drop n xs ≡ xs
  nothing_taken zero xs q = refl
  nothing_taken (suc n) [] q = refl
  nothing_taken (suc n) (x ∷ xs) q = cc

  kept_step :
      (P : X → Type 0) (f : X → Bool) (x : X) (xs : List X) (c : Bool) (m : ℕ) {last : X}
      → P x
      → ((k : ℕ) → last? (take k (keep_if f xs)) ≡ some last → P last)
      → last? (take m (if c then x ∷ keep_if f xs else keep_if f xs)) ≡ some last
      → P last
  kept_step P f x xs false m h ih q = ih m q
  kept_step P f x xs true zero h ih q = cc
  kept_step P f x xs true (suc m) h ih q = elim (last_split (take m (keep_if f xs)) x q) [
    | inl e ↦ rw (sym e.1) h
    | inr r ↦ ih m r
  ]

  -- What holds of all items holds of the last one of a page.
  kept_last :
      (P : X → Type 0) (f : X → Bool) (xs : List X) (n : ℕ) {last : X}
      → All P xs
      → last? (take n (keep_if f xs)) ≡ some last
      → P last
  kept_last P f [] zero h q = cc
  kept_last P f [] (suc n) h q = cc
  kept_last P f (x ∷ xs) n h q = kept_step P f x xs (f x) n h.0 (λ m r. kept_last P f xs m h.1 r) q

  kept_same : (f g : X → Bool) (xs : List X) → All (λ x. f x ≡ g x) xs → keep_if f xs ≡ keep_if g xs
  kept_same f g [] h = refl
  kept_same f g (x ∷ xs) h = rw (h.0, kept_same f g xs h.1) refl

module _ (b : StoredEvent → Bool) (after : Option ℕ) where
  abbrev pub wanted : StoredEvent → Bool
  wanted s = b s && is_after after s

  abbrev pub newer : ℕ → StoredEvent → Bool
  newer n s = b s && ltb n s.sequence_id

  same_answer :
      (a : Option ℕ) (e s : StoredEvent)
      → (b e && is_after a e) ≡ true
      → e.sequence_id < s.sequence_id
      → (b s && ltb e.sequence_id s.sequence_id) ≡ (b s && is_after a s)
  same_answer none e s h lt = ground arith
  same_answer (some k) e s h lt = ground arith

  older : (n : ℕ) (e : StoredEvent) → e.sequence_id < n → newer n e ≡ false
  older n e lt = ground arith

  not_newer : (e : StoredEvent) → newer e.sequence_id e ≡ false
  not_newer e = ground arith

  rest_step :
      (e : StoredEvent) (log : List StoredEvent) (c : Bool) (m : ℕ) {last : StoredEvent}
      → All (λ s. e.sequence_id < s.sequence_id) log
      → wanted e ≡ c
      → ((k : ℕ)
          → last? (take k (keep_if wanted log)) ≡ some last
          → e.sequence_id < last.sequence_id)
      → ((k : ℕ)
          → last? (take k (keep_if wanted log)) ≡ some last
          → keep_if (newer last.sequence_id) log ≡ drop k (keep_if wanted log))
      → last? (take m (if c then e ∷ keep_if wanted log else keep_if wanted log)) ≡ some last
      → keep_if (newer last.sequence_id) (e ∷ log)
        ≡ drop m (if c then e ∷ keep_if wanted log else keep_if wanted log)
  rest_step e log false m {last} h hc lt ih q = rw (older last.sequence_id e (lt m q)) (ih m q)
  rest_step e log true zero h hc lt ih q = cc
  rest_step e log true (suc m) {last} h hc lt ih q =
      elim (last_split (take m (keep_if wanted log)) e q) [
        | inl alone ↦
            subst
              (λ (s : StoredEvent).
                keep_if (newer s.sequence_id) (e ∷ log) ≡ drop m (keep_if wanted log))
              alone.1
              (rw (not_newer e) (
                kept_same (newer e.sequence_id) wanted log
                  (All-imp _ _ log (λ s less. same_answer after e s hc less) h)
                ∙ sym (nothing_taken m (keep_if wanted log) alone.0)))
        | inr r ↦ rw (older last.sequence_id e (lt m r)) (ih m r)
      ]

  -- The events that are asked for after the last one of a page are those that the page leaves.
  pub rest_after :
      (log : List StoredEvent) (n : ℕ) {last : StoredEvent}
      → Increasing log
      → last? (take n (keep_if wanted log)) ≡ some last
      → keep_if (newer last.sequence_id) log ≡ drop n (keep_if wanted log)
  rest_after [] zero h q = refl
  rest_after [] (suc n) h q = refl
  rest_after (e ∷ log) n {last} h q =
      rest_step e log (wanted e) n h.0 refl
        (λ m r. kept_last (λ s. e.sequence_id < s.sequence_id) wanted log m h.0 r)
        (λ m r. rest_after log m h.1 r) q
