-- ===== src/Report/Build/Examples.antt =====
-- A report of src/relprim/report.py that is built, and a use of its theorem.
use relprim.Prelude.{◌≡◌, refl, ◌↔◌, false, none, [], ◌∷◌}
use relprim.Prelude.Int.{pos}
use relprim.Prelude.Text.{is_blank}
use relprim.Values.{int, scalar, offset, Datetime}
use relprim.Report.{ExecutionStatus, AttemptStatus, ExecutionAttempt, ExecutionReport}
use relprim.Outcome.{returned}
use relprim.Checks.{check_seconds, check_aware, freeze_json_scalars}
use relprim.Report.Build.{new_attempt, new_report}
use relprim.Report.Build.Checked.{IsReport, new_report-IsReport}

abbrev noon : Datetime
noon = record { wall = pos 0; tzinfo = offset (pos 0) }

abbrev attempt : ExecutionAttempt
attempt = record {
  attempt_number = 1;
  status = AttemptStatus.succeeded;
  started_at = noon;
  duration_seconds = 1000000;
  error = none;
  metadata = [];
  fallback = false;
}

abbrev report : ExecutionReport
report = record {
  operation_name = "load";
  status = ExecutionStatus.succeeded;
  started_at = noon;
  duration_seconds = 1000000;
  attempts = attempt ∷ [];
  metadata = [];
}

attempt_built :
    new_attempt (pos 1) AttemptStatus.succeeded noon (scalar (int (pos 1))) none [] false
    ≡ returned attempt
unfolding new_attempt check_seconds check_aware freeze_json_scalars
attempt_built = refl

report_built :
    new_report "load" ExecutionStatus.succeeded noon (scalar (int (pos 1))) (attempt ∷ []) []
    ≡ returned report
unfolding new_report check_seconds check_aware freeze_json_scalars is_blank
report_built = refl

new_report-IsReport_example :
    (new_report "load" ExecutionStatus.succeeded noon (scalar (int (pos 1))) (attempt ∷ []) []
      ≡ returned report)
    ↔ IsReport "load" ExecutionStatus.succeeded noon (scalar (int (pos 1))) (attempt ∷ []) [] report
new_report-IsReport_example =
    new_report-IsReport "load" ExecutionStatus.succeeded noon (scalar (int (pos 1))) (attempt ∷ [])
      [] report
