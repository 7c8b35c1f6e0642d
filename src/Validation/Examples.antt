-- ===== src/Validation/Examples.antt =====
-- Runs of the validators of src/relprim/validation.py, and uses of their theorems.
use relprim.Prelude.{ℕ, ◌≡◌, refl, Bool, false, some, [], ◌∷◌, ltb}
use relprim.Prelude.Text.{is_blank}
use relprim.Outcome.{Outcome, returned, bind_outcome}
use relprim.Validation.{ValidationPolicy, Validator, validate, validate_callable, new_validator}
use relprim.Validation.Policy.{Judgement, validate-Judgement}

abbrev positive : ℕ → Outcome Bool
positive n = returned (ltb 0 n)

abbrev small : ℕ → Outcome Bool
small n = returned (ltb n 10)

abbrev is_small : Validator ℕ
is_small = record { name = "small"; validate = validate_callable "small" small "too large" }

abbrev is_positive : Validator ℕ
is_positive = record {
  name = "positive";
  validate = validate_callable "positive" positive "not positive";
}

abbrev policy : ValidationPolicy ℕ
policy = record { validators = is_positive ∷ is_small ∷ [] }

twelve_fails :
    validate policy 12
    ≡ returned (record { valid = false; validator_name = "small"; reason = some "too large" })
unfolding validate validate_callable is_blank
twelve_fails = refl

validate-Judgement_example : Judgement 12 policy.validators (validate policy 12)
validate-Judgement_example = validate-Judgement policy 12 (λ h. cc)

built_refuses :
    bind_outcome (new_validator "small" small "too large") (λ v. v.validate 12)
    ≡ returned (record { valid = false; validator_name = "small"; reason = some "too large" })
unfolding new_validator is_blank
built_refuses = refl
