-- ===== src/Fallback.antt =====
-- src/relprim/fallback.py. A candidate's operation is any action.
pub mod Chain
mod Examples
use relprim.Prelude.{
  ℕ, ◌+◌, String, Bool, true, false, Option, none, some, List, [], ◌∷◌, ◌++◌, ltb, if◌then◌else◌,
  length,
}
use relprim.Prelude.Text.{is_blank}
use relprim.Values.{lit, number, text}
use relprim.Errors.{
  ExceptionType, Exception, failures_of, is_instance, value_error, fallback_chain_error,
}
use relprim.Outcome.{Outcome, returned, raised, interrupted, bind_outcome, Action}
use relprim.Checks.{check_exception_types, TypesObject}

pub record FallbackCandidate (S R : Type 0) : Type 0 where
  pub name : String
  pub operation : Action S R

pub record FallbackPolicy : Type 0 where
  pub fallback_on : List ExceptionType

pub record FallbackChain (S R : Type 0) : Type 0 where
  pub candidates : List (FallbackCandidate S R)
  pub policy : FallbackPolicy

pub record FallbackResult (R : Type 0) : Type 0 where
  pub value : R
  pub candidate_name : String
  pub candidate_index : ℕ
  pub fallback_used : Bool
  pub failures : List Exception

unfoldable pub should_fallback : FallbackPolicy → Exception → Bool
should_fallback p e = is_instance e p.fallback_on

-- `FallbackPolicy(...)` with `__post_init__`.
unfoldable pub new_policy : TypesObject → Outcome FallbackPolicy
new_policy types =
    bind_outcome (check_exception_types "fallback_on" types)
      λ fallback_on. returned (record { fallback_on = fallback_on })

abbrev pub default_policy : FallbackPolicy
default_policy = record { fallback_on = ExceptionType.exception ∷ [] }

unfoldable pub failure_count : {R : Type 0} → FallbackResult R → ℕ
failure_count r = length r.failures

module _ {S R : Type 0} where
  -- `FallbackCandidate(...)` with `__post_init__`.
  unfoldable pub new_candidate : String → Action S R → Outcome (FallbackCandidate S R)
  new_candidate name operation =
      if is_blank name
      then raised (value_error (text "name must not be empty."))
      else returned (record { name = name; operation = operation })

  -- `FallbackChain(...)` with `__post_init__`.
  unfoldable pub new_chain :
      List (FallbackCandidate S R) → FallbackPolicy → Outcome (FallbackChain S R)
  new_chain [] policy =
      raised (value_error (text "candidates must contain at least one fallback candidate."))
  new_chain (c ∷ cs) policy = returned (record { candidates = c ∷ cs; policy = policy })

  unfoldable pub new_candidates :
      List (String × Action S R) → Outcome (List (FallbackCandidate S R))
  new_candidates [] = returned []
  new_candidates ((name, operation) ∷ rest) =
      bind_outcome (new_candidate name operation)
        λ c. bind_outcome (new_candidates rest) λ cs. returned (c ∷ cs)

  -- `from_operations`, which `fallback_chain(...)` calls.
  unfoldable pub from_operations :
      List (String × Action S R) → Option FallbackPolicy → Outcome (FallbackChain S R)
  unfolding new_candidates new_candidate new_chain
  from_operations operations policy =
      bind_outcome (new_candidates operations)
        λ cs. new_chain cs (elim policy [ some p ↦ p | none ↦ default_policy ])

  module _ (p : FallbackPolicy) (total : ℕ) where
    -- The loop of `run` over the candidates that are left.
    unfoldable pub run_candidates :
        List (FallbackCandidate S R) → ℕ → List Exception → Action S (FallbackResult R)
    run_candidates [] index failures s = (
      raised (
          fallback_chain_error
            (lit "All " ∷ number total ∷ lit " fallback candidate(s) failed." ∷ [])
            (failures_of failures)),
      s,
    )
    run_candidates (c ∷ cs) index failures s =
        let (o, s') = c.operation s in
        elim o [
          | returned value ↦ (
            returned (record {
              value = value;
              candidate_name = c.name;
              candidate_index = index;
              fallback_used = ltb 0 index;
              failures = failures;
            }),
            s',
          )
          | raised e ↦ elim (should_fallback p e) [
            | true ↦ run_candidates cs (index + 1) (failures ++ e ∷ []) s'
            | false ↦ (raised e, s')
          ]
          | interrupted i ↦ (interrupted i, s')
        ]

  unfoldable pub run : FallbackChain S R → Action S (FallbackResult R)
  unfolding run_candidates
  run chain = run_candidates chain.policy (length chain.candidates) chain.candidates 0 []
