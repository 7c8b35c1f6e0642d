-- ===== src/Timeout/Own.antt =====
-- Whose expiry a run under a TimeoutPolicy reports.
use relprim.Prelude.{◌≡◌, refl, inl, inr, Bool, true, false, [], ◌∷◌, Bool-cases}
use relprim.Prelude.Int.{pos}
use relprim.Values.{Duration, Piece, lit}
use relprim.Errors.{ExceptionType, Exception, caused_by, is_instance, operation_timeout_error}
use relprim.Outcome.{Outcome, returned, raised, interrupted, Action}
use relprim.Timeout.{TimeoutPolicy, Deadline, AsyncioTimeout, convert, run_async}

-- Documented of asyncio.timeout: a block whose deadline has not expired ends as the block ends.
abbrev pub IsTransparent : {S R : Type 0} → AsyncioTimeout S R → Type 0
IsTransparent {S} {R} timeout =
    (d : Duration) (operation : Action S R) (s : S)
    → (timeout d operation s).0.expired ≡ false
    → ((timeout d operation s).0.outcome, (timeout d operation s).1) ≡ operation s

-- Whether a block has ended with a TimeoutError.
abbrev pub raises_timeout : {R : Type 0} → Outcome R → Bool
raises_timeout (raised e) = is_instance e (ExceptionType.timeout_error ∷ [])
raises_timeout _ = false

-- How a run can end, from the end of the bare operation and from the end of the block.
pub data Ending {S R : Type 0} (p : TimeoutPolicy) (own : Outcome R × S) (block : Deadline R × S)
    : Outcome R × S → Type 0 where
  untouched : block.0.expired ≡ false → Ending p own block own
  timed_out :
      (e : Exception)
      → block.0.expired ≡ true
      → block.0.outcome ≡ raised e
      → raises_timeout block.0.outcome ≡ true
      → Ending p own block (
        raised (
            operation_timeout_error
              (lit "Operation timed out after "
                ∷ Piece.seconds (pos p.seconds)
                ∷ lit " second(s)."
                ∷ [])
              (pos p.seconds)
              (caused_by e)),
        block.1,
      )
  passed_on :
      block.0.expired ≡ true
      → raises_timeout block.0.outcome ≡ false
      → Ending p own block (block.0.outcome, block.1)

convert_unexpired :
    {R : Type 0} (p : TimeoutPolicy) (o : Outcome R)
    → convert p (record { outcome = o; expired = false }) ≡ o
unfolding convert
convert_unexpired p (returned r) = refl
convert_unexpired p (interrupted i) = refl
convert_unexpired p (raised e) =
    elim (Bool-cases (is_instance e (ExceptionType.timeout_error ∷ []))) [
      | inl h ↦ rw h refl
      | inr h ↦ rw h refl
    ]

ending :
    {S R : Type 0} (p : TimeoutPolicy) (own : Outcome R × S) (o : Outcome R) (x : Bool) (s : S)
    → (x ≡ false → (o, s) ≡ own)
    → Ending p own
        (record { outcome = o; expired = x }, s)
        (convert p (record { outcome = o; expired = x }), s)
unfolding convert
ending p own o false s same = rw (convert_unexpired p o, same refl) (untouched refl)
ending p own (returned r) true s same = passed_on refl refl
ending p own (interrupted i) true s same = passed_on refl refl
ending p own (raised e) true s same =
    elim (Bool-cases (is_instance e (ExceptionType.timeout_error ∷ []))) [
      | inl h ↦ rw h (timed_out e refl refl h)
      | inr h ↦ rw h (passed_on refl h)
    ]

-- Only the expiry of its own deadline makes a run an OperationTimeoutError of the policy: an operation
-- that ends before the deadline ends unchanged, its world too, also with a TimeoutError of its own;
-- after the deadline has expired, a TimeoutError becomes an OperationTimeoutError with the seconds of
-- the policy and that cause, and any other end of the block is passed on.
pub run_async-Ending :
    {S R : Type 0} (p : TimeoutPolicy) (timeout : AsyncioTimeout S R)
    → IsTransparent timeout
    → (operation : Action S R) (s : S)
    → Ending p (operation s) (timeout p.seconds operation s) (run_async p timeout operation s)
unfolding run_async
run_async-Ending p timeout transparent operation s =
    let block = timeout p.seconds operation s in
    ending p (operation s) block.0.outcome block.0.expired block.1
      (transparent p.seconds operation s)
