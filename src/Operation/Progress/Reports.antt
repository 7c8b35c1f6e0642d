-- ===== src/Operation/Progress/Reports.antt =====
-- The ends of a run in src/relprim/operation.py: the report they build is complete.
use relprim.Prelude.{◌≡◌, refl, sym, ap, ◌∙◌, Bool, true, false, List, [], ◌∷◌, ◌++◌}
use relprim.Prelude.Int.{◌-ℤ◌}
use relprim.Values.{finite, float, str, PyObject, scalar, Metadata, Message}
use relprim.Report.{
  ExecutionStatus, AttemptStatus, ExecutionAttempt, ExecutionReport, execution_succeeded,
}
use relprim.Errors.{Exception, operation_execution_error}
use relprim.Outcome.{returned, pure, raise}
use relprim.Checks.{unchecked}
use mathlib.Core.Path.{subst}
use relprim.Report.Build.{new_report, class_name}
use relprim.Prelude.Dict.{update}
use relprim.Operation.Progress.{
  report_numbers, elapsed_seconds, Progress, Started, report_metadata, report_of, build_report,
  announce_success, announce_failure, conclude_success, conclude_failure,
}
use relprim.Outcome.Safe.{Safe, bind-Safe, then-Safe, weaken-Safe, IsForeign, Anything}
use relprim.Report.Build.Foreign.{new_report-Safe}
use relprim.Report.Build.Checked.{new_report-IsReport}
use relprim.CircuitBreaker.{Shared}
use relprim.Events.{EventType}
use relprim.Operation.{AsyncOperation, Host}
use relprim.Operation.PlanMetadata.{report_status_for_attempt_status}
use relprim.Operation.Attempt.{emit_event}
use relprim.Operation.Reported.{IsFinished, IsComplete, Reported, IsSuccess, foreign-Reported}

not_succeeded :
    (s : AttemptStatus) → execution_succeeded (report_status_for_attempt_status s) ≡ false
unfolding report_status_for_attempt_status
not_succeeded AttemptStatus.succeeded = refl
not_succeeded AttemptStatus.failed = refl
not_succeeded AttemptStatus.timed_out = refl

module _ {E R : Type 0} (op : AsyncOperation E R) (host : Host (Shared E) R) where
  abbrev Keeps : ExecutionStatus → List ExecutionAttempt → ExecutionReport → Type 0
  Keeps status attempts r = (r.attempts ≡ attempts) × (r.status ≡ status)

  build_report-Safe :
      (status : ExecutionStatus) (started : Started) (attempts : List ExecutionAttempt)
      (metadata : Metadata) (w : Shared E)
      → Safe
          (Reported op)
          (Keeps status attempts)
          (build_report op host status started attempts metadata w).0
  unfolding build_report report_of elapsed_seconds
  build_report-Safe status started attempts metadata w =
      let duration : PyObject =
        scalar (float (finite ((host.perf_counter w).0 -ℤ started.monotonic))) in
      weaken-Safe IsForeign (Reported op)
        (λ r.
          new_report op.name status started.at duration attempts (unchecked metadata) ≡ returned r)
        (Keeps status attempts)
        (new_report op.name status started.at duration attempts (unchecked metadata))
        (new_report-Safe op.name status started.at duration attempts (unchecked metadata))
        (foreign-Reported op)
        (λ r h.
          let built =
            (new_report-IsReport op.name status started.at duration attempts (unchecked metadata)
                r).0
              h in
          (built.same_attempts, built.same_status))

  completed :
      (good : Bool) (status : ExecutionStatus) (attempts : List ExecutionAttempt)
      (r : ExecutionReport)
      → execution_succeeded status ≡ good
      → IsFinished op good attempts
      → Keeps status attempts r
      → IsComplete op good r
  completed good status attempts r e f (a, s) =
      (subst (IsFinished op good) (sym a) f, ap execution_succeeded s ∙ e)

  module _
      (emits : (t : EventType) (m : Metadata) (w : Shared E)
        → Safe IsForeign Anything (emit_event op t m w).0) where
    announce_success-Safe :
        (metadata : Metadata) (value : R) (r : ExecutionReport) (t : Shared E)
        → IsComplete op true r
        → Safe (Reported op) (IsSuccess op) (announce_success op host metadata value r t).0
    unfolding announce_success
    announce_success-Safe metadata value r t c =
        then-Safe (Reported op) (IsSuccess op) (foreign-Reported op)
          (emit_event op EventType.operation_succeeded (update (report_numbers op host r) metadata))
          (pure (record { value = value; report = r })) t (emits _ _ t) (λ _. c)

    pub conclude_success-Safe :
        (started : Started) (p : Progress) (metadata : Metadata) (value : R) (w : Shared E)
        → IsFinished op true p.attempts
        → Safe (Reported op) (IsSuccess op) (conclude_success op host started p metadata value w).0
    unfolding conclude_success
    conclude_success-Safe started p metadata value w f =
        let all_metadata = report_metadata op host metadata p in
        bind-Safe (Reported op) (Keeps ExecutionStatus.succeeded p.attempts) (IsSuccess op)
          (build_report op host ExecutionStatus.succeeded started p.attempts all_metadata)
          (announce_success op host all_metadata value) w
          (build_report-Safe ExecutionStatus.succeeded started p.attempts all_metadata w)
          (λ r k t.
            announce_success-Safe all_metadata value r t
              (completed true ExecutionStatus.succeeded p.attempts r refl f k))

    announce_failure-Safe :
        (metadata : Metadata) (m : Message) (exc : Exception) (r : ExecutionReport) (t : Shared E)
        → IsComplete op false r
        → Safe (Reported op) (IsSuccess op) (announce_failure op host metadata m exc r t).0
    unfolding announce_failure
    announce_failure-Safe metadata m exc r t c =
        then-Safe (Reported op) (IsSuccess op) (foreign-Reported op)
          (emit_event op EventType.operation_failed (
            update (report_numbers op host r ++ ("error_type", str (class_name exc)) ∷ [])
              metadata))
          (raise (operation_execution_error m r exc)) t (emits _ _ t) (λ _. c)

    pub conclude_failure-Safe :
        (started : Started) (p : Progress) (status : AttemptStatus) (metadata : Metadata)
        (m : Message) (exc : Exception) (w : Shared E)
        → IsFinished op false p.attempts
        → Safe
            (Reported op)
            (IsSuccess op)
            (conclude_failure op host started p status metadata m exc w).0
    unfolding conclude_failure
    conclude_failure-Safe started p status metadata m exc w f =
        let all_metadata = report_metadata op host metadata p in
        let reported = report_status_for_attempt_status status in
        bind-Safe (Reported op) (Keeps reported p.attempts) (IsSuccess op)
          (build_report op host reported started p.attempts all_metadata)
          (announce_failure op host all_metadata m exc) w
          (build_report-Safe reported started p.attempts all_metadata w)
          (λ r k t.
            announce_failure-Safe all_metadata m exc r t
              (completed false reported p.attempts r (not_succeeded status) f k))
