-- ===== src/Checks.antt =====
-- src/relprim/_checks.py: the checks of configuration values that the other parts share.
pub mod Accepted
pub mod Foreign
mod Examples
use relprim.Prelude.{ℕ, suc, ◌-◌, ◌^◌, String, Bool, true, false, List, [], ◌∷◌, leb, if◌then◌else◌}
use relprim.Prelude.Int.{pos_part, ℤ, pos, negsuc, ltb_ℤ, leb_ℤ}
use relprim.Values.{
  Duration, Seconds, seconds_of_int, finite, JsonScalar, int, float, str, PyObject, scalar, other,
  Metadata, Tzinfo, offset, Datetime, lit, text,
}
use relprim.Errors.{ExceptionType, value_error, type_error, overflow_error}
use relprim.Outcome.{Outcome, returned, raised, bind_outcome}

-- float(n) overflows from 2 ** 1024 - 2 ** 970 on, where rounding reaches 2 ** 1024.
unfoldable pub float_limit : ℕ
float_limit = 2 ^ 1024 - 2 ^ 970

unfoldable pub int_overflows : ℤ → Bool
unfolding float_limit
int_overflows (pos n) = leb float_limit n
int_overflows (negsuc n) = leb float_limit (suc n)

-- What the two comparisons with 0 leave of a finite number.
check_sign : String → Bool → Seconds → Outcome Duration
check_sign name true value =
    if ltb_ℤ value (pos 0)
    then raised (value_error (lit name ∷ lit " must be greater than or equal to 0." ∷ []))
    else returned (pos_part value)
check_sign name false value =
    if leb_ℤ value (pos 0)
    then raised (value_error (lit name ∷ lit " must be greater than 0." ∷ []))
    else returned (pos_part value)

-- `check_seconds(value, name, allow_zero=...)`. It returns the number that it has accepted, in
-- microseconds: the callers go on with that number. math.isfinite raises OverflowError for an int
-- that no float can hold.
unfoldable pub check_seconds : String → Bool → PyObject → Outcome Duration
unfolding check_sign int_overflows seconds_of_int
check_seconds name allow_zero (scalar (int n)) =
    if int_overflows n
    then raised (overflow_error (text "int too large to convert to float"))
    else check_sign name allow_zero (seconds_of_int n)
check_seconds name allow_zero (scalar (float (finite value))) = check_sign name allow_zero value
check_seconds name allow_zero (scalar (float _)) =
    raised (value_error (lit name ∷ lit " must be finite." ∷ []))
check_seconds name allow_zero _ =
    raised (type_error (lit name ∷ lit " must be an int or float." ∷ []))

-- isinstance(value, bool) or not isinstance(value, int): the guard of every counted option.
unfoldable pub check_int : String → PyObject → Outcome ℤ
check_int name (scalar (int n)) = returned n
check_int name _ = raised (type_error (lit name ∷ lit " must be an int." ∷ []))

-- `timestamp.tzinfo is None or timestamp.utcoffset() is None`
unfoldable pub check_offset : String → Tzinfo → Outcome (Unit {0})
check_offset name (offset _) = returned tt
check_offset name _ = raised (value_error (lit name ∷ lit " must be timezone-aware." ∷ []))

unfoldable pub check_aware : String → Datetime → Outcome (Unit {0})
unfolding check_offset
check_aware name t = check_offset name t.tzinfo

-- A member of the tuple: an Exception subclass, another class, or no class at all.
pub data ClassObject : Type 0 where
  exception_class : ExceptionType → ClassObject
  other_class no_class : ClassObject

pub data TypesObject : Type 0 where
  tuple_of : List ClassObject → TypesObject
  no_tuple : TypesObject

check_each : String → List ClassObject → Outcome (List ExceptionType)
check_each name [] = returned []
check_each name (exception_class t ∷ rest) =
    bind_outcome (check_each name rest) (λ ts. returned (t ∷ ts))
check_each name (other_class ∷ rest) =
    raised (type_error (lit name ∷ lit " must contain Exception subclasses." ∷ []))
check_each name (no_class ∷ rest) =
    raised (type_error (lit name ∷ lit " must contain Exception subclasses." ∷ []))

-- It returns the tuple that it has accepted.
unfoldable pub check_exception_types : String → TypesObject → Outcome (List ExceptionType)
unfolding check_each
check_exception_types name no_tuple =
    raised (type_error (lit name ∷ lit " must be a tuple of Exception subclasses." ∷ []))
check_exception_types name (tuple_of []) =
    raised (value_error (lit name ∷ lit " must contain at least one exception type." ∷ []))
check_exception_types name (tuple_of (c ∷ cs)) = check_each name (c ∷ cs)

-- The key test comes first, then the finiteness of a float, then the type of the value.
check_entry : String → PyObject → PyObject → Outcome (String × JsonScalar)
check_entry name (scalar (str key)) (scalar (float (finite x))) = returned (key, float (finite x))
check_entry name (scalar (str key)) (scalar (float _)) =
    raised (value_error (lit name ∷ lit " values must be finite." ∷ []))
check_entry name (scalar (str key)) (scalar value) = returned (key, value)
check_entry name (scalar (str key)) other =
    raised (type_error (lit name ∷ lit " values must be str, int, float, bool or None." ∷ []))
check_entry name _ value = raised (type_error (lit name ∷ lit " keys must be strings." ∷ []))

-- A mapping of unchecked keys and values, in insertion order.
abbrev pub Mapping : Type 0
Mapping = List (PyObject × PyObject)

-- A mapping from texts to scalars, as a mapping of unchecked objects.
abbrev pub unchecked : Metadata → Mapping
unchecked [] = []
unchecked ((key, value) ∷ rest) = (scalar (str key), scalar value) ∷ unchecked rest

unfoldable pub freeze_json_scalars : String → Mapping → Outcome Metadata
unfolding check_entry
freeze_json_scalars name [] = returned []
freeze_json_scalars name ((key, value) ∷ rest) =
    bind_outcome (check_entry name key value)
      (λ entry. bind_outcome (freeze_json_scalars name rest) (λ copied. returned (entry ∷ copied)))
