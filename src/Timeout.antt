-- ===== src/Timeout.antt =====
-- src/relprim/timeout.py. `asyncio.timeout` is an argument: it runs an action under a deadline, and
-- says whether the deadline expired.
pub mod Own
mod Examples
use relprim.Prelude.{Bool, false, [], ◌∷◌, if◌then◌else◌}
use relprim.Prelude.Int.{pos}
use relprim.Values.{Duration, PyObject, Piece, lit}
use relprim.Errors.{ExceptionType, caused_by, is_instance, operation_timeout_error}
use relprim.Outcome.{Outcome, returned, raised, interrupted, bind_outcome, Action}
use relprim.Checks.{check_seconds}

pub record TimeoutPolicy : Type 0 where
  pub seconds : Duration

-- `TimeoutPolicy(...)` with `__post_init__`.
unfoldable pub new_policy : PyObject → Outcome TimeoutPolicy
new_policy seconds =
    bind_outcome (check_seconds "seconds" false seconds)
      λ checked. returned (record { seconds = checked })

-- What `async with asyncio.timeout(...)` leaves: how the block ended, and `deadline.expired()`.
pub record Deadline (R : Type 0) : Type 0 where
  pub outcome : Outcome R
  pub expired : Bool

abbrev pub AsyncioTimeout : Type 0 → Type 0 → Type 0
AsyncioTimeout S R = Duration → Action S R → S → Deadline R × S

-- The `except TimeoutError` clause.
unfoldable pub convert : {R : Type 0} → TimeoutPolicy → Deadline R → Outcome R
convert p d = elim d.outcome [
  | returned r ↦ returned r
  | interrupted i ↦ interrupted i
  | raised e ↦
      if is_instance e (ExceptionType.timeout_error ∷ [])
      then if d.expired
        then raised (
            operation_timeout_error
              (lit "Operation timed out after "
                ∷ Piece.seconds (pos p.seconds)
                ∷ lit " second(s)."
                ∷ [])
              (pos p.seconds) (caused_by e))
        else raised e
      else raised e
]

unfoldable pub run_async :
    {S R : Type 0} → TimeoutPolicy → AsyncioTimeout S R → Action S R → Action S R
unfolding convert
run_async p timeout operation s = let (d, s') = timeout p.seconds operation s in (convert p d, s')
