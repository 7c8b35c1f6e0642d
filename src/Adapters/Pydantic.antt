-- ===== src/Adapters/Pydantic.antt =====
-- src/relprim/pydantic.py: the validator over a Pydantic model.
pub mod Judged
use relprim.Prelude.{
  ℕ, String, Bool, Option, none, some, List, [], ◌∷◌, ltb, ◌==◌, if◌then◌else◌, length,
}
use relprim.Prelude.Int.{pos}
use relprim.Prelude.Text.{is_blank}
use relprim.Values.{text}
use relprim.Errors.{Exception, external, value_error}
use relprim.Outcome.{Outcome, returned, raised, bind_outcome}
use relprim.Validation.{ValidationResult, Validator, success, failed}
use relprim.Adapters.{PathItem, join, spell, format_path}

pub record ErrorDetails : Type 0 where
  pub msg : String
  pub loc : List PathItem
  pub error_type : String

-- How `model_validate` returns or raises a ValidationError, with its `errors(include_url=False)`.
pub data Verdict : Type 0 where
  model_instance : Verdict
  validation_error : List ErrorDetails → Verdict

-- A subclass of BaseModel, over the values of T.
pub record BaseModel (T : Type 0) : Type 0 where
  pub dunder_name : String
  pub model_validate : Option Bool → T → Outcome Verdict

abbrev pub index_error : Exception
index_error =
    external (record { id = 1; class_name = "IndexError"; module_name = "builtins"; bases = [] })
      (text "list index out of range")

-- What is added for the errors after the first one.
unfoldable pub remaining_text : ℕ → String
unfolding join spell
remaining_text remaining =
    if remaining == 1
    then " (+1 more validation error)"
    else if ltb 1 remaining
    then join (" (+" ∷ spell (pos remaining) ∷ " more validation errors)" ∷ [])
    else ""

-- `_format_error`
unfoldable pub format_error : List ErrorDetails → Outcome String
unfolding join format_path remaining_text
format_error [] = raised index_error
format_error (first ∷ rest) = returned (
    join (
      first.msg
      ∷ " (path: "
      ∷ format_path first.loc
      ∷ ", type: "
      ∷ first.error_type
      ∷ ")"
      ∷ remaining_text (length rest)
      ∷ []))

-- `except ValidationError`
abbrev pub with_verdict : String → Verdict → Outcome ValidationResult
with_verdict name model_instance = success name
with_verdict name (validation_error errors) =
    bind_outcome (format_error errors) λ reason. failed name reason

module _ {T : Type 0} where
  -- `PydanticValidator.validate`
  unfoldable pub validate : BaseModel T → String → Option Bool → T → Outcome ValidationResult
  unfolding success failed format_error
  validate model name strict value =
      bind_outcome (model.model_validate strict value) (with_verdict name)

  -- `PydanticValidator(...)` with `__post_init__`.
  unfoldable pub new_validator : BaseModel T → String → Option Bool → Outcome (Validator T)
  unfolding validate
  new_validator model name strict =
      if is_blank name
      then raised (value_error (text "name must not be empty."))
      else returned (record { name = name; validate = validate model name strict })

  unfoldable pub pydantic_validator :
      BaseModel T → Option String → Option Bool → Outcome (Validator T)
  unfolding new_validator
  pydantic_validator model name strict =
      new_validator model (elim name [ none ↦ model.dunder_name | some n ↦ n ]) strict
