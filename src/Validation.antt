-- ===== src/Validation.antt =====
-- src/relprim/validation.py. A validator is any function that may raise.
pub mod Policy
mod Examples
use relprim.Prelude.{
  String, Bool, true, false, not, ◌&&◌, Option, none, some, List, [], ◌∷◌, if◌then◌else◌, is_some,
}
use relprim.Prelude.Text.{is_blank}
use relprim.Values.{lit, text}
use relprim.Errors.{Exception, value_error, runtime_error, validation_failed_error}
use relprim.Outcome.{Outcome, returned, raised, interrupted, bind_outcome}

pub record ValidationResult : Type 0 where
  pub valid : Bool
  pub validator_name : String
  pub reason : Option String

abbrev pub empty_text : String → Bool
empty_text String.[] = true
empty_text (String.◌∷◌ c s) = false

-- `not reason`, for an optional text.
abbrev no_reason : Option String → Bool
no_reason none = true
no_reason (some s) = empty_text s

-- `ValidationResult(...)` with `__post_init__`.
unfoldable pub new_result : Bool → String → Option String → Outcome ValidationResult
new_result valid name reason =
    if is_blank name
    then raised (value_error (text "validator_name must not be empty."))
    else if not valid && no_reason reason
    then raised (value_error (text "invalid validation results must include a reason."))
    else if valid && is_some reason
    then raised (value_error (text "valid validation results must not include a reason."))
    else returned (record { valid = valid; validator_name = name; reason = reason })

unfoldable pub success : String → Outcome ValidationResult
unfolding new_result
success name = new_result true name none

unfoldable pub failed : String → String → Outcome ValidationResult
unfolding new_result
failed name reason = new_result false name (some reason)

pub record Validator (T : Type 0) : Type 0 where
  pub name : String
  pub validate : T → Outcome ValidationResult

-- `CallableValidator.validate`
unfoldable pub validate_callable :
    {T : Type 0} → String → (T → Outcome Bool) → String → T → Outcome ValidationResult
unfolding success failed
validate_callable name predicate message value =
    bind_outcome (predicate value)
      λ accepted. if accepted then success name else failed name message

-- `validator(...)`: `CallableValidator` with `__post_init__`.
unfoldable pub new_validator :
    {T : Type 0} → String → (T → Outcome Bool) → String → Outcome (Validator T)
unfolding validate_callable
new_validator name predicate message =
    if is_blank name
    then raised (value_error (text "name must not be empty."))
    else if is_blank message
    then raised (value_error (text "message must not be empty."))
    else returned (record { name = name; validate = validate_callable name predicate message })

pub record ValidationPolicy (T : Type 0) : Type 0 where
  pub validators : List (Validator T)

-- `ValidationPolicy(...)` with `__post_init__`, for `from_validators` and `validation_policy` too.
unfoldable pub new_policy : {T : Type 0} → List (Validator T) → Outcome (ValidationPolicy T)
new_policy [] = raised (value_error (text "validators must contain at least one validator."))
new_policy (v ∷ vs) = returned (record { validators = v ∷ vs })

-- After the loop of `validate`.
last_result : Option ValidationResult → Outcome ValidationResult
last_result none = raised (runtime_error (text "ValidationPolicy has no validators."))
last_result (some r) = returned r

validate_loop :
    {T : Type 0} → T → List (Validator T) → Option ValidationResult → Outcome ValidationResult
unfolding last_result
validate_loop value [] result = last_result result
validate_loop value (v ∷ vs) result = elim (v.validate value) [
  | returned r ↦ elim r.valid [ true ↦ validate_loop value vs (some r) | false ↦ returned r ]
  | raised e ↦ raised e
  | interrupted i ↦ interrupted i
]

unfoldable pub validate : {T : Type 0} → ValidationPolicy T → T → Outcome ValidationResult
unfolding validate_loop
validate p value = validate_loop value p.validators none

-- `result.reason or "Validation failed."`
abbrev pub reason_or_default : Option String → String
reason_or_default none = "Validation failed."
reason_or_default (some s) = if empty_text s then "Validation failed." else s

-- `_validation_error`
unfoldable pub validation_error : ValidationResult → Exception
validation_error r =
    validation_failed_error
      (lit "Validation failed in '"
        ∷ lit r.validator_name
        ∷ lit "': "
        ∷ lit (reason_or_default r.reason)
        ∷ [])
      r.validator_name (reason_or_default r.reason)

unfoldable pub validate_or_raise : {T : Type 0} → ValidationPolicy T → T → Outcome ValidationResult
unfolding validate validation_error
validate_or_raise p value =
    bind_outcome (validate p value)
      λ r. if not r.valid then raised (validation_error r) else returned r
