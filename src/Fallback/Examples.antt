-- ===== src/Fallback/Examples.antt =====
-- A run of a chain of src/relprim/fallback.py, and a use of its theorem.
use relprim.Prelude.{ℕ, ◌+◌, ◌≡◌, refl, true, none, [], ◌∷◌}
use relprim.Prelude.Text.{is_blank}
use relprim.Values.{text}
use relprim.Errors.{is_instance, timeout_error}
use relprim.Outcome.{returned, raised, Action}
use relprim.Fallback.{should_fallback, FallbackChain, run, from_operations, default_policy}
use relprim.Fallback.Chain.{Ending, answer, run-Ending}

-- The state counts the calls.
abbrev primary : Action ℕ ℕ
primary n = (raised (timeout_error (text "slow")), n + 1)

abbrev secondary : Action ℕ ℕ
secondary n = (returned 7, n + 1)

abbrev chain : FallbackChain ℕ ℕ
chain = record {
  candidates =
      record { name = "primary"; operation = primary }
      ∷ record { name = "secondary"; operation = secondary }
      ∷ [];
  policy = default_policy;
}

chain_built :
    from_operations (("primary", primary) ∷ ("secondary", secondary) ∷ []) none ≡ returned chain
unfolding from_operations is_blank
chain_built = refl

second_answers : run chain 0 ≡ (
  returned (record {
    value = 7;
    candidate_name = "secondary";
    candidate_index = 1;
    fallback_used = true;
    failures = timeout_error (text "slow") ∷ [];
  }),
  2,
)
unfolding run is_instance should_fallback
second_answers = refl

run-Ending_example : (e : Ending default_policy chain.candidates 0) × (run chain 0 ≡ answer e)
run-Ending_example = run-Ending chain 0
