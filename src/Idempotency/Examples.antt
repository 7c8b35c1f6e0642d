-- ===== src/Idempotency/Examples.antt =====
-- Runs of the store of src/relprim/idempotency.py, and uses of its theorems.
use relprim.Prelude.{ℕ, String, ◌≡◌, refl, ap, ◌≢◌, some, [], ◌∷◌, arith}
use relprim.Prelude.Int.{pos, ◌+ℤ◌}
use relprim.Prelude.Text.{is_blank}
use relprim.Values.{str, scalar, text}
use relprim.Errors.{value_error}
use relprim.Outcome.{cancelled_error, returned, raised, interrupted}
use mathlib.Core.Bool.{false≢true}
use package.text.Mathlib.Text.{◌==◌ as str_eq}
use relprim.Idempotency.{
  pending, Store, empty, own, join, reentry, claim, end_owner, publish, owner_cancelled,
  validate_key,
}
use relprim.Idempotency.Replay.{end_owner-claim}
use relprim.Idempotency.Abandoned.{abandoned-claim}
use relprim.Idempotency.Tasks.{System, idle, Reach, here, next, claim_owns, owner_ends}
use relprim.Idempotency.Held.{Distinct}
use relprim.Idempotency.Exclusive.{Reach-Distinct}

-- The task 0 has claimed the key "a" at the time 5.
abbrev claimed : Store ℕ
claimed = (claim "a" (some 0) (pos 5) empty).1

owned : (claim "a" (some 0) (pos 5) (empty {R = ℕ})).0 ≡ own 0
unfolding claim
owned = refl

blank_key :
    validate_key (scalar (str " "))
    ≡ raised (value_error (text "idempotency key must not be empty."))
unfolding validate_key is_blank
blank_key = refl

expired_again : (claim "a" (some 1) (pos 40) (publish "a" 0 7 (pos 10) 30 claimed)).0 ≡ own 1
unfolding claim publish ◌+ℤ◌
expired_again = refl

end_owner-claim_example :
    let t = end_owner "a" 0 (pos 10) 30 (interrupted cancelled_error) claimed in
    ((claim "a" (some 1) (pos 11) t).0 ≡ own t.next) × (t.futures 0 ≡ owner_cancelled)
unfolding claim
end_owner-claim_example =
    end_owner-claim "a" 0 (some 0) (some 1) (pos 10) (pos 11) 30 (interrupted cancelled_error)
      owner_cancelled claimed refl (refl, refl)

same_task_refused : (claim "a" (some 0) (pos 6) claimed).0 ≡ reentry
unfolding claim
same_task_refused = refl

-- Two owners of two keys, of which the first one ends.
abbrev one_owner : System ℕ
one_owner = record { store = claimed; owners = (0, "a") ∷ [] }

abbrev two_owners : System ℕ
two_owners = record {
  store = (claim "b" (some 1) (pos 6) claimed).1;
  owners = (1, "b") ∷ (0, "a") ∷ [];
}

abbrev one_left : System ℕ
one_left = record {
  store = end_owner "a" 0 (pos 10) 30 (returned 7) two_owners.store;
  owners = (1, "b") ∷ [];
}

three_steps : Reach idle one_left
unfolding claim
three_steps =
    next
      (next (next here (claim_owns "a" (some 0) (pos 5) 0 refl refl))
        (claim_owns "b" (some 1) (pos 6) 1 refl refl))
      (owner_ends ((1, "b") ∷ []) [] 0 "a" (pos 10) 30 (returned 7) refl refl refl)

Reach-Distinct_example : Distinct one_left.owners
Reach-Distinct_example = Reach-Distinct three_steps

-- The owner of "a" is left by a KeyboardInterrupt; then that of "b" ends.
abbrev abandoned : System ℕ
abandoned = record { store = two_owners.store; owners = (1, "b") ∷ [] }

abbrev afterwards : System ℕ
afterwards = record {
  store = end_owner "b" 1 (pos 20) 30 (raised (value_error (text "bad"))) abandoned.store;
  owners = [];
}

b_is_not_a : ◌≢◌ {A = String} "b" "a"
b_is_not_a p = false≢true (ap (λ k. str_eq k "a") p)

later_step : Reach abandoned afterwards
later_step =
    next here
      (owner_ends [] [] 1 "b" (pos 20) 30 (raised (value_error (text "bad"))) refl refl refl)

abandoned-claim_example :
    (afterwards.store.futures 0 ≡ pending)
    × ((claim "a" (some 1) (pos 10000) afterwards.store).0 ≡ join 0)
unfolding claim end_owner later_step
abandoned-claim_example =
    abandoned-claim "a" 0 (some 0) (some 1) (pos 10) (pos 10000) 30 ((1, "b") ∷ []) [] two_owners
      abandoned afterwards (refl, refl) (omega arith) (((λ p. cc), b_is_not_a), tt) refl refl refl
      later_step
