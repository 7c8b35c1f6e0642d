-- ===== src/Report/Build/Foreign.antt =====
-- The constructors of src/relprim/report.py never raise an OperationExecutionError.
use relprim.Prelude.{
  ℕ, String, ◌≡◌, refl, Bool, true, false, not, ◌&&◌, Option, none, some, List, is_some, last?,
}
use relprim.Prelude.Int.{pos, pos_part, leb_ℤ}
use relprim.Prelude.Text.{is_blank}
use relprim.Values.{PyObject, Datetime}
use relprim.Report.{
  ExecutionStatus, AttemptStatus, ExecutionError, ExecutionAttempt, ExecutionReport,
  attempt_succeeded, execution_succeeded,
}
use relprim.Outcome.{returned}
use relprim.Checks.{check_seconds, check_aware, freeze_json_scalars, Mapping}
use relprim.Outcome.Safe.{Safe, bind_outcome-Safe, itself-Safe, IsForeign, Anything}
use relprim.Checks.Foreign.{check_seconds-Safe, check_aware-Safe, freeze_json_scalars-Safe}
use relprim.Report.Build.{require, new_attempt, new_report, check_last}

require-Safe : (b : Bool) (m : String) → Safe IsForeign Anything (require b m)
unfolding require
require-Safe true m = tt
require-Safe false m = tt

check_last-Safe :
    (status : ExecutionStatus) (o : Option ExecutionAttempt)
    → Safe IsForeign Anything (check_last status o)
unfolding check_last
check_last-Safe status none = tt
check_last-Safe status (some last) =
    let ended = not (execution_succeeded status && not (attempt_succeeded last.status)) in
    let open_end = not (not (execution_succeeded status) && attempt_succeeded last.status) in
    bind_outcome-Safe IsForeign Anything Anything
      (require ended "successful reports must end with a successful attempt.")
      (λ _. require open_end "failed reports must not end with a successful attempt.")
      (require-Safe ended "successful reports must end with a successful attempt.")
      (λ _ _. require-Safe open_end "failed reports must not end with a successful attempt.")

-- The fields that the construction of an attempt keeps.
abbrev pub IsOf : ℕ → AttemptStatus → Bool → ExecutionAttempt → Type 0
IsOf n status fallback a = (a.attempt_number ≡ n) × (a.status ≡ status) × (a.fallback ≡ fallback)

pub new_attempt-Safe :
    (n : ℕ) (status : AttemptStatus) (t : Datetime) (d : PyObject) (e : Option ExecutionError)
    (m : Mapping) (fallback : Bool)
    → Safe IsForeign (IsOf n status fallback) (new_attempt (pos n) status t d e m fallback)
unfolding new_attempt
new_attempt-Safe n status t d e m fallback =
    let P : ExecutionAttempt → Type 0 = IsOf n status fallback in
    bind_outcome-Safe IsForeign Anything P
      (require (leb_ℤ (pos 1) (pos n)) "attempt_number must be greater than or equal to 1.") _
      (require-Safe _ _)
      λ _ _.
        bind_outcome-Safe IsForeign Anything P (check_seconds "duration_seconds" true d) _
          (check_seconds-Safe "duration_seconds" true d)
          λ seconds _.
            bind_outcome-Safe IsForeign Anything P
              (require (not (attempt_succeeded status && is_some e))
                "successful attempts must not contain an error.")
              _ (require-Safe (not (attempt_succeeded status && is_some e)) _)
              λ _ _.
                bind_outcome-Safe IsForeign Anything P (check_aware "started_at" t) _
                  (check_aware-Safe "started_at" t)
                  λ _ _.
                    bind_outcome-Safe IsForeign Anything P (freeze_json_scalars "metadata" m)
                      (λ frozen. returned (record {
                        attempt_number = pos_part (pos n);
                        status = status;
                        started_at = t;
                        duration_seconds = seconds;
                        error = e;
                        metadata = frozen;
                        fallback = fallback;
                      }))
                      (freeze_json_scalars-Safe "metadata" m) (λ _ _. (refl, refl, refl))

new_report-Foreign :
    (name : String) (status : ExecutionStatus) (t : Datetime) (d : PyObject)
    (attempts : List ExecutionAttempt) (m : Mapping)
    → Safe IsForeign Anything (new_report name status t d attempts m)
unfolding new_report
new_report-Foreign name status t d attempts m =
    let P : ExecutionReport → Type 0 = Anything in
    bind_outcome-Safe IsForeign Anything P
      (require (not (is_blank name)) "operation_name must not be empty.") _
      (require-Safe (not (is_blank name)) _)
      λ _ _.
        bind_outcome-Safe IsForeign Anything P (check_seconds "duration_seconds" true d) _
          (check_seconds-Safe "duration_seconds" true d)
          λ seconds _.
            bind_outcome-Safe IsForeign Anything P (check_last status (last? attempts)) _
              (check_last-Safe status (last? attempts))
              λ _ _.
                bind_outcome-Safe IsForeign Anything P (check_aware "started_at" t) _
                  (check_aware-Safe "started_at" t)
                  λ _ _.
                    bind_outcome-Safe IsForeign Anything P (freeze_json_scalars "metadata" m)
                      (λ frozen. returned (record {
                        operation_name = name;
                        status = status;
                        started_at = t;
                        duration_seconds = seconds;
                        attempts = attempts;
                        metadata = frozen;
                      }))
                      (freeze_json_scalars-Safe "metadata" m) (λ _ _. tt)

-- An accepted report, with the fields that it keeps.
pub new_report-Safe :
    (name : String) (status : ExecutionStatus) (t : Datetime) (d : PyObject)
    (attempts : List ExecutionAttempt) (m : Mapping)
    → Safe IsForeign
        (λ r. new_report name status t d attempts m ≡ returned r)
        (new_report name status t d attempts m)
new_report-Safe name status t d attempts m =
    itself-Safe IsForeign (new_report name status t d attempts m)
      (new_report-Foreign name status t d attempts m)
