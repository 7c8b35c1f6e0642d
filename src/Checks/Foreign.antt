-- ===== src/Checks/Foreign.antt =====
-- The checks of src/relprim/_checks.py never raise an OperationExecutionError.
use relprim.Prelude.{String, Bool, true, false, [], ◌∷◌}
use relprim.Prelude.Int.{pos, ltb_ℤ, leb_ℤ}
use relprim.Values.{
  Seconds, seconds_of_int, finite, infinity, neg_infinity, nan, null, bool, int, float, str,
  PyObject, scalar, other, Tzinfo, no_tzinfo, no_offset, offset, Datetime,
}
use relprim.Errors.{value_error, overflow_error}
use relprim.Outcome.{returned, raised}
use relprim.Checks.{
  check_entry, check_sign, int_overflows, check_seconds, check_offset, check_aware,
  freeze_json_scalars, Mapping,
}
use relprim.Outcome.Safe.{Safe, bind_outcome-Safe, if-Safe, IsForeign, Anything}

check_sign-Safe :
    (name : String) (z : Bool) (x : Seconds) → Safe IsForeign Anything (check_sign name z x)
unfolding check_sign
check_sign-Safe name true x =
    if-Safe IsForeign Anything (ltb_ℤ x (pos 0)) (raised (value_error _)) (returned _) tt tt
check_sign-Safe name false x =
    if-Safe IsForeign Anything (leb_ℤ x (pos 0)) (raised (value_error _)) (returned _) tt tt

pub check_seconds-Safe :
    (name : String) (z : Bool) (o : PyObject) → Safe IsForeign Anything (check_seconds name z o)
unfolding check_seconds
check_seconds-Safe name z (scalar (int n)) =
    if-Safe IsForeign Anything (int_overflows n) (raised (overflow_error _))
      (check_sign name z (seconds_of_int n)) tt (check_sign-Safe name z (seconds_of_int n))
check_seconds-Safe name z (scalar (float (finite x))) = check_sign-Safe name z x
check_seconds-Safe name z (scalar (float infinity)) = tt
check_seconds-Safe name z (scalar (float neg_infinity)) = tt
check_seconds-Safe name z (scalar (float nan)) = tt
check_seconds-Safe name z (scalar null) = tt
check_seconds-Safe name z (scalar (bool b)) = tt
check_seconds-Safe name z (scalar (str s)) = tt
check_seconds-Safe name z other = tt

check_offset-Safe : (name : String) (i : Tzinfo) → Safe IsForeign Anything (check_offset name i)
unfolding check_offset
check_offset-Safe name (offset z) = tt
check_offset-Safe name no_tzinfo = tt
check_offset-Safe name no_offset = tt

pub check_aware-Safe : (name : String) (t : Datetime) → Safe IsForeign Anything (check_aware name t)
unfolding check_aware
check_aware-Safe name t = check_offset-Safe name t.tzinfo

check_entry-Safe :
    (name : String) (key value : PyObject) → Safe IsForeign Anything (check_entry name key value)
unfolding check_entry
check_entry-Safe name (scalar (str key)) (scalar null) = tt
check_entry-Safe name (scalar (str key)) (scalar (bool b)) = tt
check_entry-Safe name (scalar (str key)) (scalar (int n)) = tt
check_entry-Safe name (scalar (str key)) (scalar (str s)) = tt
check_entry-Safe name (scalar (str key)) (scalar (float (finite x))) = tt
check_entry-Safe name (scalar (str key)) (scalar (float infinity)) = tt
check_entry-Safe name (scalar (str key)) (scalar (float neg_infinity)) = tt
check_entry-Safe name (scalar (str key)) (scalar (float nan)) = tt
check_entry-Safe name (scalar (str key)) other = tt
check_entry-Safe name (scalar null) value = tt
check_entry-Safe name (scalar (bool b)) value = tt
check_entry-Safe name (scalar (int n)) value = tt
check_entry-Safe name (scalar (float x)) value = tt
check_entry-Safe name other value = tt

pub freeze_json_scalars-Safe :
    (name : String) (values : Mapping) → Safe IsForeign Anything (freeze_json_scalars name values)
unfolding freeze_json_scalars
freeze_json_scalars-Safe name [] = tt
freeze_json_scalars-Safe name ((key, value) ∷ rest) =
    bind_outcome-Safe IsForeign Anything Anything (check_entry name key value) _
      (check_entry-Safe name key value)
      λ entry _.
        bind_outcome-Safe IsForeign Anything Anything (freeze_json_scalars name rest) _
          (freeze_json_scalars-Safe name rest) λ copied _. tt
