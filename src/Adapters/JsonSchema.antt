-- ===== src/Adapters/JsonSchema.antt =====
-- src/relprim/jsonschema.py: the validator over a JSON schema.
pub mod Judged
use relprim.Prelude.{
  ℕ, zero, suc, ◌-◌, String, Option, none, some, List, [], ◌∷◌, ltb, if◌then◌else◌,
}
use relprim.Prelude.Text.{is_blank}
use relprim.Values.{text}
use relprim.Errors.{value_error}
use relprim.Outcome.{Outcome, returned, raised, bind_outcome}
use relprim.Validation.{ValidationResult, Validator, success, failed}
use relprim.Adapters.{PathItem, join, format_path}
use Prim.Native.String.{◌++◌ as concat, count}

pub record SchemaError : Type 0 where
  pub message : String
  pub absolute_path : List PathItem

-- What `validator_for(schema)` gives: `check_schema`, and `best_match(iter_errors(value))` of a
-- validator for the schema, over the values of T.
pub record SchemaValidator (T : Type 0) : Type 0 where
  pub check_schema : Outcome (Unit {0})
  pub best_error : T → Outcome (Option SchemaError)

abbrev pub default_validator_name : String
default_validator_name = "json_schema"

abbrev pub max_message_length : ℕ
max_message_length = 200

-- s[:n]
unfoldable pub first_chars : ℕ → String → String
first_chars zero s = ""
first_chars (suc n) String.[] = ""
first_chars (suc n) (String.◌∷◌ c s) = String.◌∷◌ c (first_chars n s)

-- The message of an error, cut.
unfoldable pub shortened : String → String
unfolding first_chars
shortened message =
    if ltb max_message_length (count message)
    then concat (first_chars (max_message_length - 3) message) "..."
    else message

-- `_format_error`
unfoldable pub format_error : SchemaError → String
unfolding join format_path shortened
format_error error =
    join (shortened error.message ∷ " (path: " ∷ format_path error.absolute_path ∷ ")" ∷ [])

abbrev pub with_error : String → Option SchemaError → Outcome ValidationResult
with_error name none = success name
with_error name (some error) = failed name (format_error error)

module _ {T : Type 0} where
  -- `JSONSchemaValidator.validate`
  unfoldable pub validate : SchemaValidator T → String → T → Outcome ValidationResult
  unfolding success failed format_error
  validate schema_validator name value =
      bind_outcome (schema_validator.best_error value) (with_error name)

  -- `JSONSchemaValidator(...)` with `__post_init__`.
  unfoldable pub new_validator : SchemaValidator T → String → Outcome (Validator T)
  unfolding validate
  new_validator schema_validator name =
      if is_blank name
      then raised (value_error (text "name must not be empty."))
      else bind_outcome schema_validator.check_schema
          λ _. returned (record { name = name; validate = validate schema_validator name })

  unfoldable pub json_schema_validator : SchemaValidator T → Option String → Outcome (Validator T)
  unfolding new_validator
  json_schema_validator schema_validator name =
      new_validator schema_validator (elim name [ none ↦ default_validator_name | some n ↦ n ])
