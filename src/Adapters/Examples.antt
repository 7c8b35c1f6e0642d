-- ===== src/Adapters/Examples.antt =====
-- Validators over small models and schemas, and a span that records what it is given.
use relprim.Prelude.{ℕ, ◌≡◌, refl, true, false, none, some, List, [], ◌∷◌, ◌++◌, ltb, if◌then◌else◌}
use relprim.Prelude.Int.{ℤ, pos, negsuc, ◌+ℤ◌, ◌-ℤ◌}
use relprim.Prelude.Text.{is_blank}
use relprim.Values.{null, int, str, Metadata, offset}
use relprim.Outcome.{returned, Action}
use Prim.Native.String.{String}
use relprim.Prelude.Dict.{get_item}
use relprim.Validation.{Validator}
use relprim.Events.{EventType, StructuredEvent}
use relprim.Adapters.{PathItem, field, index, format_path}
use relprim.Adapters.Pydantic as Pydantic
use relprim.Adapters.Pydantic.{
  BaseModel, ErrorDetails, Verdict, model_instance, validation_error, pydantic_validator,
}
use relprim.Adapters.Pydantic.Judged as PydanticJudged
use relprim.Adapters.JsonSchema as JsonSchema
use relprim.Adapters.JsonSchema.{SchemaError, SchemaValidator, json_schema_validator, shortened}
use relprim.Adapters.JsonSchema.Judged as JsonSchemaJudged
use relprim.Adapters.OpenTelemetry.{Span, emit, timestamp_ns}
use relprim.Adapters.OpenTelemetry.Attributes.{DistinctKeys}
use relprim.Adapters.OpenTelemetry.Exported.{Emitted, emit-Emitted}

abbrev path_to_port : List PathItem
path_to_port = field "servers" ∷ index (pos 10) ∷ field "port" ∷ []

path_spelled : format_path path_to_port ≡ "$.servers[10].port"
unfolding format_path
path_spelled = refl

abbrev wrong_port : ErrorDetails
wrong_port = record {
  msg = "Input should be a valid integer";
  loc = path_to_port;
  error_type = "int_type";
}

-- A model of the numbers below 10, which reports two errors.
abbrev small_model : BaseModel ℕ
small_model = record {
  dunder_name = "Small";
  model_validate = λ strict value.
      returned
        (if ltb value 10 then model_instance else validation_error (wrong_port ∷ wrong_port ∷ []));
}

abbrev small_validator : Validator ℕ
small_validator = record { name = "Small"; validate = Pydantic.validate small_model "Small" none }

small_built : pydantic_validator small_model none none ≡ returned small_validator
unfolding pydantic_validator Pydantic.new_validator is_blank
small_built = refl

twelve_refused :
    small_validator.validate 12
    ≡ returned (record {
      valid = false;
      validator_name = "Small";
      reason =
          some
            "Input should be a valid integer (path: $.servers[10].port, type: int_type) (+1 more validation error)";
    })
unfolding Pydantic.validate is_blank
twelve_refused = refl

validate-Judged_example :
    PydanticJudged.Judged "Small"
      (validation_error (wrong_port ∷ wrong_port ∷ []))
      (small_validator.validate 12)
validate-Judged_example =
    PydanticJudged.validate-Judged small_model none none small_validator 12
      (validation_error (wrong_port ∷ wrong_port ∷ [])) small_built (λ h. cc) refl

abbrev port_error : SchemaError
port_error = record { message = "'x' is not of type 'integer'"; absolute_path = path_to_port }

abbrev small_schema : SchemaValidator ℕ
small_schema = record {
  check_schema = returned tt;
  best_error = λ value. returned (if ltb value 10 then none else some port_error);
}

abbrev schema_validator : Validator ℕ
schema_validator = record {
  name = "json_schema";
  validate = JsonSchema.validate small_schema "json_schema";
}

schema_built : json_schema_validator small_schema none ≡ returned schema_validator
unfolding json_schema_validator JsonSchema.new_validator is_blank
schema_built = refl

validate-Judged_schema_example :
    JsonSchemaJudged.Judged "json_schema" (some port_error) (schema_validator.validate 12)
validate-Judged_schema_example =
    JsonSchemaJudged.validate-Judged_schema small_schema none schema_validator 12 (some port_error)
      schema_built refl

-- The names, the attributes and the times of the events that a span was given.
abbrev Recorded : Type 0
Recorded = List (String × Metadata × ℤ)

abbrev recording_span : Span Recorded
recording_span = record {
  is_recording = λ s. (returned true, s);
  add_event = λ name attributes time s. (returned tt, s ++ (name, attributes, time) ∷ []);
}

abbrev scheduled : StructuredEvent
scheduled = record {
  event_type = EventType.retry_scheduled;
  operation_name = "fetch";
  timestamp = record { wall = pos 7200000005; tzinfo = offset (pos 3600000000) };
  payload = ("delay", int (pos 2)) ∷ ("error", null) ∷ [];
}

abbrev span_getter : Action Recorded (Span Recorded)
span_getter s = (returned recording_span, s)

one_event : emit span_getter scheduled [] ≡ (
  returned tt,
  (
    "relprim.retry.scheduled",
    ("relprim.event.type", str "retry.scheduled")
        ∷ ("relprim.operation.name", str "fetch")
        ∷ ("relprim.payload.delay", int (pos 2))
        ∷ [],
    pos 3600000005000,
  )
      ∷ [],
)
unfolding emit ◌-ℤ◌ ◌+ℤ◌
one_event = refl

before_epoch :
    timestamp_ns (record { wall = negsuc 0; tzinfo = offset (pos 0) }) ≡ returned (negsuc 999)
unfolding timestamp_ns ◌-ℤ◌ ◌+ℤ◌
before_epoch = refl

distinct : DistinctKeys scheduled.payload
unfolding get_item
distinct = (refl, (refl, tt))

emit-Emitted_example :
    Emitted recording_span scheduled
      (pos 7200000005 -ℤ pos 3600000000)
      []
      true
      (emit span_getter scheduled [])
emit-Emitted_example =
    emit-Emitted span_getter recording_span scheduled (pos 3600000000) true [] [] [] refl refl refl
      distinct
