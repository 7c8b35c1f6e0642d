-- ===== src/Operation/Plan/Foreign.antt =====
-- Planning a retry never raises an OperationExecutionError.
use relprim.Prelude.{ℕ, zero, suc, Bool, true, false, Option, none, some, if◌then◌else◌}
use relprim.Values.{Duration}
use relprim.Errors.{Exception, is_instance, value_error}
use relprim.Outcome.{returned, raised, pure, lift}
use relprim.Outcome.Safe.{Safe, if-Safe, bind-Safe, IsForeign, Anything}
use relprim.RateLimit.{RateLimitDecision, RateLimitPolicy}
use relprim.RateLimit.Foreign.{evaluate-Foreign}
use relprim.Retry.{RetryPolicy, Environment, ExponentialBackoff, delay_for_retry, takes_draw}
use relprim.Operation.{AsyncOperation}
use relprim.Operation.PlanMetadata.{RetryPlan, new_plan, plain_plan, backoff}
use relprim.Operation.Plan.{
  planned_retry, backoff_plan, planned_as, planned_for, without_delay, backoff_delay,
  selected_delay, limited_plan, rate_limit_retry_plan, rate_limit_decision, plain_retry_plan,
  retry_plan_for_exception,
}

new_plan-Foreign : (p : RetryPlan) → Safe IsForeign Anything (new_plan p)
unfolding new_plan
new_plan-Foreign p = if-Safe IsForeign Anything _ (raised (value_error _)) _ tt (
    if-Safe IsForeign Anything p.max_wait_exceeded _ _
      (if-Safe IsForeign Anything _ (raised (value_error _)) (returned p) tt tt)
      (if-Safe IsForeign Anything _ (raised (value_error _)) (returned p) tt tt))

delay_for_retry-Foreign :
    (b : ExponentialBackoff) (draw n : ℕ) → Safe IsForeign Anything (delay_for_retry b draw n)
unfolding delay_for_retry
delay_for_retry-Foreign b draw zero = tt
delay_for_retry-Foreign b draw (suc n) = tt

module _ {W : Type 0} (env : Environment W) where
  backoff_delay-Foreign :
      (p : RetryPolicy) (n : ℕ) (w : W) → Safe IsForeign Anything (backoff_delay env p n w).0
  unfolding backoff_delay
  backoff_delay-Foreign p n w =
      delay_for_retry-Foreign p.backoff (if takes_draw p.backoff n then env.draw w else (0, w)).0 n

  selected_delay-Foreign :
      (p : RetryPolicy) (o : Option Duration) (n : ℕ) (w : W)
      → Safe IsForeign Anything (selected_delay env p o n w).0
  unfolding selected_delay
  selected_delay-Foreign p (some d) n w = tt
  selected_delay-Foreign p none n w =
      bind-Safe IsForeign Anything Anything (backoff_delay env p n) (λ delay. pure (delay, backoff))
        w (backoff_delay-Foreign p n w) (λ _ _ _. tt)

  rate_limit_retry_plan-Foreign :
      (retry : Option RetryPolicy) (limit : Option RateLimitPolicy) (d : RateLimitDecision) (n : ℕ)
      (remaining : Bool) (w : W)
      → Safe IsForeign Anything (rate_limit_retry_plan env retry limit d n remaining w).0
  unfolding rate_limit_retry_plan
  rate_limit_retry_plan-Foreign retry none d n remaining w = tt
  rate_limit_retry_plan-Foreign none (some limit) d n remaining w =
      new_plan-Foreign (without_delay env false d.retry_after_seconds)
  rate_limit_retry_plan-Foreign (some p) (some limit) d n false w =
      new_plan-Foreign (without_delay env true d.retry_after_seconds)
  rate_limit_retry_plan-Foreign (some p) (some limit) d n true w =
      bind-Safe IsForeign Anything Anything (selected_delay env p d.retry_after_seconds n)
        (λ s. lift (new_plan (limited_plan env limit d.retry_after_seconds s))) w
        (selected_delay-Foreign p d.retry_after_seconds n w)
        (λ s _ _. new_plan-Foreign (limited_plan env limit d.retry_after_seconds s))

  rate_limit_decision-Foreign :
      (limit : Option RateLimitPolicy) (e : Exception)
      → Safe IsForeign Anything (rate_limit_decision env limit e)
  unfolding rate_limit_decision
  rate_limit_decision-Foreign none e = tt
  rate_limit_decision-Foreign (some limit) e = evaluate-Foreign limit e

  planned_retry-Foreign :
      (matches : Bool) (p : RetryPolicy) (n : ℕ) (remaining : Bool) (w : W)
      → Safe IsForeign Anything (planned_retry env matches p n remaining w).0
  unfolding planned_retry
  planned_retry-Foreign false p n remaining w = new_plan-Foreign (plain_plan false)
  planned_retry-Foreign true p n false w = new_plan-Foreign (plain_plan true)
  planned_retry-Foreign true p n true w =
      bind-Safe IsForeign Anything Anything (backoff_delay env p n)
        (λ delay. lift (new_plan (backoff_plan env delay))) w (backoff_delay-Foreign p n w)
        (λ d _ _. new_plan-Foreign (backoff_plan env d))

  plain_retry_plan-Foreign :
      (retry : Option RetryPolicy) (e : Exception) (n : ℕ) (remaining : Bool) (w : W)
      → Safe IsForeign Anything (plain_retry_plan env retry e n remaining w).0
  unfolding plain_retry_plan
  plain_retry_plan-Foreign none e n remaining w = new_plan-Foreign (plain_plan false)
  plain_retry_plan-Foreign (some p) e n remaining w =
      planned_retry-Foreign (is_instance e p.retry_on) p n remaining w

  planned_as-Foreign :
      {E R : Type 0} (op : AsyncOperation E R) (e : Exception) (n : ℕ) (remaining : Bool)
      (d : RateLimitDecision) (limited : Bool) (w : W)
      → Safe IsForeign Anything (planned_as env op e n remaining d limited w).0
  unfolding planned_as
  planned_as-Foreign op e n remaining d true w =
      rate_limit_retry_plan-Foreign op.retry_policy op.rate_limit_policy d n remaining w
  planned_as-Foreign op e n remaining d false w =
      plain_retry_plan-Foreign op.retry_policy e n remaining w

  pub retry_plan_for_exception-Foreign :
      {E R : Type 0} (op : AsyncOperation E R) (e : Exception) (n : ℕ) (remaining : Bool) (w : W)
      → Safe IsForeign Anything (retry_plan_for_exception env op e n remaining w).0
  unfolding retry_plan_for_exception
  retry_plan_for_exception-Foreign op e n remaining w =
      bind-Safe IsForeign Anything Anything (lift (rate_limit_decision env op.rate_limit_policy e))
        (planned_for env op e n remaining) w (rate_limit_decision-Foreign op.rate_limit_policy e)
        (λ d _ t. planned_as-Foreign op e n remaining d d.rate_limited t)
