-- ===== src/Adapters/Pydantic/Judged.antt =====
-- What a Pydantic validator answers, by what its model does.
use relprim.Prelude.{
  String, ◌≡◌, refl, ◌≢◌, Bool, true, false, Option, none, some, List, [], ◌∷◌, arith, length,
}
use relprim.Prelude.Text.{is_blank}
use relprim.Values.{text}
use relprim.Outcome.{Outcome, returned}
use package.text.Mathlib.Text.{starts_with}
use relprim.Validation.{ValidationResult, Validator, success, failed, new_result}
use relprim.Adapters.{join, format_path, join_not_empty, join_starts}
use relprim.Adapters.Pydantic.{
  pydantic_validator, BaseModel, Verdict, ErrorDetails, model_instance, validation_error,
  new_validator, validate, format_error, remaining_text,
}

-- The result that a verdict calls for, whose reason begins with the message of the first error.
pub data Judged (name : String) : Verdict → Outcome ValidationResult → Type 0 where
  accepted :
      Judged name model_instance
        (returned (record { valid = true; validator_name = name; reason = none }))
  refused :
      {first : ErrorDetails} {rest : List ErrorDetails} (reason : String)
      → starts_with reason first.msg ≡ true
      → Judged name
          (validation_error (first ∷ rest))
          (returned (record { valid = false; validator_name = name; reason = some reason }))

module _ {T : Type 0} (model : BaseModel T) (strict : Option Bool) (value : T) where
  judge :
      (name : String) (verdict : Verdict)
      → is_blank name ≡ false
      → verdict ≢ validation_error []
      → model.model_validate strict value ≡ returned verdict
      → Judged name verdict (validate model name strict value)
  unfolding validate format_error success failed new_result
  judge name model_instance ok some_error h = rw h (rw ok accepted)
  judge name (validation_error []) ok some_error h = absurd (some_error refl)
  judge name (validation_error (e ∷ es)) ok some_error h =
      let parts =
        " (path: "
        ∷ format_path e.loc
        ∷ ", type: "
        ∷ e.error_type
        ∷ ")"
        ∷ remaining_text (length es)
        ∷ [] in
      rw h (
        rw ok (
          rw
            (join_not_empty e.msg " (path: "
              (format_path e.loc
                ∷ ", type: "
                ∷ e.error_type
                ∷ ")"
                ∷ remaining_text (length es)
                ∷ [])
              refl)
            (refused (join (e.msg ∷ parts)) (join_starts e.msg parts))))

  built :
      (name : String) (v : Validator T)
      → new_validator model name strict ≡ returned v
      → (is_blank name ≡ false)
        × (v ≡ record { name = name; validate = validate model name strict })
  unfolding new_validator
  built name v h = ground arith

  by_name :
      (name : String) (v : Validator T) (verdict : Verdict)
      → new_validator model name strict ≡ returned v
      → verdict ≢ validation_error []
      → model.model_validate strict value ≡ returned verdict
      → Judged v.name verdict (v.validate value)
  by_name name v verdict h some_error q =
      let (ok, e) = built name v h in rw e (judge name verdict ok some_error q)

-- A validator that `pydantic_validator(...)` accepts, named or not, answers whenever its model
-- returns an instance or raises a ValidationError, one with at least one error: valid for an
-- instance, else invalid with a reason that begins with the message of the first error; and building
-- that result never fails.
pub validate-Judged :
    {T : Type 0} (model : BaseModel T) (name : Option String) (strict : Option Bool)
    (v : Validator T) (value : T) (verdict : Verdict)
    → pydantic_validator model name strict ≡ returned v
    → verdict ≢ validation_error []
    → model.model_validate strict value ≡ returned verdict
    → Judged v.name verdict (v.validate value)
unfolding pydantic_validator
validate-Judged model none strict v value verdict h =
    by_name model strict value model.dunder_name v verdict h
validate-Judged model (some name) strict v value verdict h =
    by_name model strict value name v verdict h
