-- ===== src/Values.antt =====
-- The Python values that the package handles: durations and other floats, the JSON scalars of
-- src/relprim/_checks.py, objects of unknown type, datetimes, and f-strings as lists of pieces.
use relprim.Prelude.{ℕ, ◌*◌, suc, ◌-◌, Bool, true, false, List, String, ◌∷◌, []}
use relprim.Prelude.Int.{ℤ, pos, negsuc}

-- A finite number of seconds, as a count of microseconds.
abbrev pub Seconds : Type 0
Seconds = ℤ

-- A number of seconds that has been checked to be at least 0.
abbrev pub Duration : Type 0
Duration = ℕ

abbrev pub ticks_per_second : ℕ
ticks_per_second = 1000000

-- n seconds.
unfoldable pub seconds_of_int : ℤ → Seconds
seconds_of_int (pos n) = pos (n * ticks_per_second)
seconds_of_int (negsuc n) = negsuc (suc n * ticks_per_second - 1)

pub data Float : Type 0 where
  finite : Seconds → Float
  infinity neg_infinity nan : Float

-- JsonScalar = str | int | float | bool | None
pub data JsonScalar : Type 0 where
  null : JsonScalar
  bool : Bool → JsonScalar
  int : ℤ → JsonScalar
  float : Float → JsonScalar
  str : String → JsonScalar

-- An `object`: a scalar, or a value of any other type.
pub data PyObject : Type 0 where
  scalar : JsonScalar → PyObject
  other : PyObject

-- Mapping[str, JsonScalar], in insertion order.
abbrev pub Metadata : Type 0
Metadata = List (String × JsonScalar)

-- What a datetime's tzinfo answers: there is none, or `utcoffset()` is None or an offset.
pub data Tzinfo : Type 0 where
  no_tzinfo no_offset : Tzinfo
  offset : ℤ → Tzinfo

pub record Datetime : Type 0 where
  -- The wall clock, in microseconds since the epoch.
  pub wall : ℤ
  pub tzinfo : Tzinfo

-- The pieces of an f-string. How a number is spelled is left open.
pub data Piece : Type 0 where
  lit : String → Piece
  number : ℕ → Piece
  seconds : Seconds → Piece

abbrev pub Message : Type 0
Message = List Piece

abbrev pub text : String → Message
text s = lit s ∷ []

-- bool(str(exception)) of a message.
unfoldable pub is_empty : Message → Bool
is_empty [] = true
is_empty (lit String.[] ∷ rest) = is_empty rest
is_empty (lit (String.◌∷◌ _ _) ∷ rest) = false
is_empty (number _ ∷ rest) = false
is_empty (seconds _ ∷ rest) = false
