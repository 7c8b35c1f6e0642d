-- ===== src/Report/Build/Checked.antt =====
-- What an attempt or a report guarantees once it is accepted, and when one is accepted.
use relprim.Prelude.{
  String, ◌≡◌, refl, sym, ◌↔◌, Bool, true, false, not, Option, none, some, List, arith, last?,
}
use relprim.Prelude.Int.{ℤ}
use relprim.Prelude.Text.{is_blank}
use relprim.Values.{Duration, PyObject, Metadata, Tzinfo, no_tzinfo, no_offset, offset, Datetime}
use relprim.Report.{
  ExecutionStatus, ExecutionAttempt, ExecutionReport, attempt_succeeded, execution_succeeded,
}
use relprim.Outcome.{returned, bind_outcome-returned, returned_injective}
use relprim.Checks.{
  check_seconds, check_offset, check_aware, freeze_json_scalars, Mapping, unchecked,
}
use relprim.Checks.Accepted.{AllFinite, freeze_json_scalars_exact}
use mathlib.Core.Path.{ap, subst}
use relprim.Report.Build.{new_report, require, check_last}

-- What a report is that the constructor has built of its arguments.
pub record IsReport (name : String) (status : ExecutionStatus) (started : Datetime)
    (duration : PyObject) (attempts : List ExecutionAttempt) (metadata : Mapping)
    (r : ExecutionReport) : Type 0 where
  pub last : ExecutionAttempt
  pub named : is_blank r.operation_name ≡ false
  pub ended : last? r.attempts ≡ some last
  pub agree : execution_succeeded r.status ≡ attempt_succeeded last.status
  pub aware : (z : ℤ) × (r.started_at.tzinfo ≡ offset z)
  pub same_name : r.operation_name ≡ name
  pub same_status : r.status ≡ status
  pub same_start : r.started_at ≡ started
  pub same_attempts : r.attempts ≡ attempts
  pub same_metadata : metadata ≡ unchecked r.metadata
  pub finite_floats : AllFinite r.metadata
  pub lasting : check_seconds "duration_seconds" true duration ≡ returned r.duration_seconds

require-returned : (b : Bool) (m : String) {u : Unit {0}} → require b m ≡ returned u → b ≡ true
unfolding require
require-returned true m h = refl
require-returned false m h = cc

check_last-returned :
    (status : ExecutionStatus) (o : Option ExecutionAttempt) {u : Unit {0}}
    → check_last status o ≡ returned u
    → (last : ExecutionAttempt) × (o ≡ some last)
      × (execution_succeeded status ≡ attempt_succeeded last.status)
unfolding check_last
check_last-returned status none h = cc
check_last-returned status (some last) h = (last, refl, ground arith)

check_offset-returned :
    (name : String) (i : Tzinfo) {u : Unit {0}}
    → check_offset name i ≡ returned u
    → (z : ℤ) × (i ≡ offset z)
unfolding check_offset
check_offset-returned name (offset z) h = (z, refl)
check_offset-returned name no_tzinfo h = cc
check_offset-returned name no_offset h = cc

check_aware-returned :
    (name : String) (t : Datetime) {u : Unit {0}}
    → check_aware name t ≡ returned u
    → (z : ℤ) × (t.tzinfo ≡ offset z)
unfolding check_aware
check_aware-returned name t h = check_offset-returned name t.tzinfo h

is_false : (b : Bool) → not b ≡ true → b ≡ false
is_false true h = cc
is_false false h = refl

built :
    (name : String) (status : ExecutionStatus) (started : Datetime) (duration : PyObject)
    (attempts : List ExecutionAttempt) (metadata : Mapping) (d : Duration) (frozen : Metadata)
    (r : ExecutionReport)
    → not (is_blank name) ≡ true
    → (last : ExecutionAttempt) × (last? attempts ≡ some last)
      × (execution_succeeded status ≡ attempt_succeeded last.status)
    → (z : ℤ) × (started.tzinfo ≡ offset z)
    → (metadata ≡ unchecked frozen) × AllFinite frozen
    → check_seconds "duration_seconds" true duration ≡ returned d
    → record {
      operation_name = name;
      status = status;
      started_at = started;
      duration_seconds = d;
      attempts = attempts;
      metadata = frozen;
    }
      ≡ r
    → IsReport name status started duration attempts metadata r
built name status started duration attempts metadata d frozen r n (last, e, agree) a m hd h =
    subst (IsReport name status started duration attempts metadata) h (record {
      last = last;
      named = is_false _ n;
      ended = e;
      agree = agree;
      aware = a;
      same_name = refl;
      same_status = refl;
      same_start = refl;
      same_attempts = refl;
      same_metadata = m.0;
      finite_floats = m.1;
      lasting = hd;
    })

built-IsReport :
    (name : String) (status : ExecutionStatus) (started : Datetime) (duration : PyObject)
    (attempts : List ExecutionAttempt) (metadata : Mapping) (r : ExecutionReport)
    → new_report name status started duration attempts metadata ≡ returned r
    → IsReport name status started duration attempts metadata r
unfolding new_report
built-IsReport name status started duration attempts metadata r h =
    let (_, hn, h1) = bind_outcome-returned (require (not (is_blank name)) _) _ h in
    let (d, hd, h2) = bind_outcome-returned (check_seconds "duration_seconds" true duration) _ h1 in
    let (_, hl, h3) = bind_outcome-returned (check_last status (last? attempts)) _ h2 in
    let (_, ha, h4) = bind_outcome-returned (check_aware "started_at" started) _ h3 in
    let (frozen, hf, h5) = bind_outcome-returned (freeze_json_scalars "metadata" metadata) _ h4 in
    built name status started duration attempts metadata d frozen r (require-returned _ _ hn)
      (check_last-returned status (last? attempts) hl)
      (check_aware-returned "started_at" started ha)
      ((freeze_json_scalars_exact "metadata" metadata frozen).0 hf) hd (returned_injective h5)

check_last-agrees :
    (status : ExecutionStatus) (last : ExecutionAttempt)
    → execution_succeeded status ≡ attempt_succeeded last.status
    → check_last status (some last) ≡ returned tt
unfolding check_last require
check_last-agrees status last h = ground arith

check_aware-offset :
    (t : Datetime) (z : ℤ) → t.tzinfo ≡ offset z → check_aware "started_at" t ≡ returned tt
unfolding check_aware check_offset
check_aware-offset t z h = rw h refl

accepted :
    (r : ExecutionReport) (duration : PyObject) (last : ExecutionAttempt) (z : ℤ)
    → is_blank r.operation_name ≡ false
    → check_seconds "duration_seconds" true duration ≡ returned r.duration_seconds
    → last? r.attempts ≡ some last
    → execution_succeeded r.status ≡ attempt_succeeded last.status
    → r.started_at.tzinfo ≡ offset z
    → AllFinite r.metadata
    → new_report r.operation_name r.status r.started_at duration r.attempts (unchecked r.metadata)
      ≡ returned r
unfolding new_report require
accepted r duration last z hn hd hl agree ha finite_floats =
    rw
      (
        hn,
        hd,
        hl,
        check_last-agrees r.status last agree,
        check_aware-offset r.started_at z ha,
        (freeze_json_scalars_exact "metadata" (unchecked r.metadata) r.metadata).1
            (refl, finite_floats),
      )
      refl

-- A report r is built of arguments exactly if it holds just the name, the status, the start, the
-- attempts and the metadata that are given, and the duration as the check of it returns it, where the
-- name is not blank, there is a last attempt, which succeeded exactly if the report did, the start is
-- aware, and the floats of the metadata are finite.
pub new_report-IsReport :
    (name : String) (status : ExecutionStatus) (started : Datetime) (duration : PyObject)
    (attempts : List ExecutionAttempt) (metadata : Mapping) (r : ExecutionReport)
    → (new_report name status started duration attempts metadata ≡ returned r)
      ↔ IsReport name status started duration attempts metadata r
new_report-IsReport name status started duration attempts metadata r = (
  built-IsReport name status started duration attempts metadata r,
  λ h.
      rw
        (sym h.same_name, sym h.same_status, sym h.same_start, sym h.same_attempts, h.same_metadata)
        (accepted r duration h.last h.aware.0 h.named h.lasting h.ended h.agree h.aware.1
          h.finite_floats),
)

rebuilt :
    (name : String) (status : ExecutionStatus) (started : Datetime) (duration : PyObject)
    (attempts : List ExecutionAttempt) (m frozen : Metadata) (d : Duration) (r : ExecutionReport)
    (t u v : Unit {0})
    → require (not (is_blank name)) "operation_name must not be empty." ≡ returned t
    → check_seconds "duration_seconds" true duration ≡ returned d
    → check_last status (last? attempts) ≡ returned u
    → check_aware "started_at" started ≡ returned v
    → AllFinite m
    → record {
      operation_name = name;
      status = status;
      started_at = started;
      duration_seconds = d;
      attempts = attempts;
      metadata = frozen;
    }
      ≡ r
    → new_report name status started duration attempts (unchecked m)
      ≡ returned (record r { metadata = m })
unfolding new_report
rebuilt name status started duration attempts m frozen d r t u v hn hd hl ha finite_floats h =
    rw
      (
        hn,
        hd,
        hl,
        ha,
        (freeze_json_scalars_exact "metadata" (unchecked m) m).1 (refl, finite_floats),
      )
      (ap (λ (report : ExecutionReport). returned (record report { metadata = m })) h)

-- A report with other metadata is accepted like the report itself.
pub new_report-metadata :
    (name : String) (status : ExecutionStatus) (started : Datetime) (duration : PyObject)
    (attempts : List ExecutionAttempt) (metadata : Mapping) (m : Metadata) (r : ExecutionReport)
    → new_report name status started duration attempts metadata ≡ returned r
    → AllFinite m
    → new_report name status started duration attempts (unchecked m)
      ≡ returned (record r { metadata = m })
unfolding new_report
new_report-metadata name status started duration attempts metadata m r h finite_floats =
    let (t, hn, h1) = bind_outcome-returned (require (not (is_blank name)) _) _ h in
    let (d, hd, h2) = bind_outcome-returned (check_seconds "duration_seconds" true duration) _ h1 in
    let (u, hl, h3) = bind_outcome-returned (check_last status (last? attempts)) _ h2 in
    let (v, ha, h4) = bind_outcome-returned (check_aware "started_at" started) _ h3 in
    let (frozen, hf, h5) = bind_outcome-returned (freeze_json_scalars "metadata" metadata) _ h4 in
    rebuilt name status started duration attempts m frozen d r t u v hn hd hl ha finite_floats
      (returned_injective h5)

pub new_report-AllFinite :
    (name : String) (status : ExecutionStatus) (started : Datetime) (duration : PyObject)
    (attempts : List ExecutionAttempt) (metadata : Mapping) (r : ExecutionReport)
    → new_report name status started duration attempts metadata ≡ returned r
    → AllFinite r.metadata
unfolding new_report
new_report-AllFinite name status started duration attempts metadata r h =
    let (t, hn, h1) = bind_outcome-returned (require (not (is_blank name)) _) _ h in
    let (d, hd, h2) = bind_outcome-returned (check_seconds "duration_seconds" true duration) _ h1 in
    let (u, hl, h3) = bind_outcome-returned (check_last status (last? attempts)) _ h2 in
    let (v, ha, h4) = bind_outcome-returned (check_aware "started_at" started) _ h3 in
    let (frozen, hf, h5) = bind_outcome-returned (freeze_json_scalars "metadata" metadata) _ h4 in
    subst AllFinite (ap (λ (report : ExecutionReport). report.metadata) (returned_injective h5))
      ((freeze_json_scalars_exact "metadata" metadata frozen).0 hf).1
