-- ===== src/Adapters/JsonSchema/Judged.antt =====
-- What a JSON-schema validator answers, by the error that best_match selects.
use relprim.Prelude.{
  ℕ, zero, suc, ◌≤◌, ◌<◌, String, ◌≡◌, refl, ap, ◌∙◌, inl, inr, true, false, Option, none, some,
  List, [], ◌∷◌, arith, ltb, Bool-cases, ltb→lt,
}
use relprim.Prelude.Text.{is_blank}
use relprim.Values.{text}
use relprim.Outcome.{Outcome, returned}
use package.text.Mathlib.Text.{starts_with}
use package.text.Mathlib.TextBridge.{IsPrefix}
use package.text.Mathlib.TextPositions.{starts_with_of_prefix}
use Prim.Native.String.{◌++◌ as concat, count}
use Prim.Native.String.append
use Prim.Native.String.count
use relprim.Validation.{ValidationResult, Validator, success, failed, new_result}
use relprim.Adapters.{join, format_path, join_not_empty, join_starts}
use relprim.Adapters.JsonSchema.{
  SchemaValidator, SchemaError, new_validator, validate, json_schema_validator, format_error,
  shortened, first_chars,
}

-- The start of a reason: the whole message, or the first 197 characters of a message of more than
-- 200, and an ellipsis.
pub data Announces (message reason : String) : Type 0 where
  whole : count message ≤ 200 → starts_with reason message ≡ true → Announces message reason
  cut :
      200 < count message
      → (kept : String) → count kept ≡ 197
      → starts_with message kept ≡ true
      → starts_with reason (concat kept "...") ≡ true
      → Announces message reason

-- The result that the selected error calls for.
pub data Judged (name : String) : Option SchemaError → Outcome ValidationResult → Type 0 where
  accepted :
      Judged name none (returned (record { valid = true; validator_name = name; reason = none }))
  refused :
      {error : SchemaError} (reason : String)
      → Announces error.message reason
      → Judged name
          (some error)
          (returned (record { valid = false; validator_name = name; reason = some reason }))

first_chars-IsPrefix : (n : ℕ) (s : String) → IsPrefix (first_chars n s) s
unfolding first_chars
first_chars-IsPrefix zero s = (s, append.nil s)
first_chars-IsPrefix (suc n) String.[] = ("", append.nil "")
first_chars-IsPrefix (suc n) (String.◌∷◌ c s) =
    let (rest, e) = first_chars-IsPrefix n s in
    (rest, append.cons c (first_chars n s) rest ∙ ap (λ t. String.◌∷◌ c t) e)

count-first_chars : (n : ℕ) (s : String) → n ≤ count s → count (first_chars n s) ≡ n
unfolding first_chars
count-first_chars zero s h = count.nil
count-first_chars (suc n) String.[] h = omega (arith, count.nil)
count-first_chars (suc n) (String.◌∷◌ c s) h = omega (
  arith,
  count.cons c s,
  count.cons c (first_chars n s),
  count-first_chars n s (omega (arith, count.cons c s)),
)

announced :
    (message : String) (rest : List String) → Announces message (join (shortened message ∷ rest))
unfolding shortened
announced message rest = elim (Bool-cases (ltb 200 (count message))) [
  | inl long ↦ rw long (
      cut (ltb→lt 200 (count message) long) (first_chars 197 message)
        (count-first_chars 197 message (omega (arith, ltb→lt 200 (count message) long)))
        (starts_with_of_prefix (first_chars 197 message) message (first_chars-IsPrefix 197 message))
        (join_starts (concat (first_chars 197 message) "...") rest))
  | inr short ↦ rw short (whole (ground arith) (join_starts message rest))
]

module _ {T : Type 0} (schema_validator : SchemaValidator T) (value : T) where
  judge :
      (name : String) (best : Option SchemaError)
      → is_blank name ≡ false
      → schema_validator.best_error value ≡ returned best
      → Judged name best (validate schema_validator name value)
  unfolding validate format_error success failed new_result
  judge name none ok h = rw h (rw ok accepted)
  judge name (some e) ok h =
      let rest = format_path e.absolute_path ∷ ")" ∷ [] in
      rw h (
        rw ok (
          rw (join_not_empty (shortened e.message) " (path: " rest refl)
            (refused (format_error e) (announced e.message (" (path: " ∷ rest)))))

  built :
      (name : String) (v : Validator T)
      → new_validator schema_validator name ≡ returned v
      → (is_blank name ≡ false)
        × (v ≡ record { name = name; validate = validate schema_validator name })
  unfolding new_validator
  built name v h = ground arith

  by_name :
      (name : String) (v : Validator T) (best : Option SchemaError)
      → new_validator schema_validator name ≡ returned v
      → schema_validator.best_error value ≡ returned best
      → Judged v.name best (v.validate value)
  by_name name v best h q = let (ok, e) = built name v h in rw e (judge name best ok q)

-- A validator that `json_schema_validator(...)` accepts, named or not, answers whenever best_match
-- does: valid if it selects no error, else invalid with a reason that begins with the message of the
-- error, or with its first 197 characters and an ellipsis if it has more than 200; and building
-- that result never fails.
pub validate-Judged_schema :
    {T : Type 0} (schema_validator : SchemaValidator T) (name : Option String) (v : Validator T)
    (value : T) (best : Option SchemaError)
    → json_schema_validator schema_validator name ≡ returned v
    → schema_validator.best_error value ≡ returned best
    → Judged v.name best (v.validate value)
unfolding json_schema_validator
validate-Judged_schema schema_validator none v value best h =
    by_name schema_validator value "json_schema" v best h
validate-Judged_schema schema_validator (some name) v value best h =
    by_name schema_validator value name v best h
