-- ===== src/Operation/Plan.antt =====
-- `_retry_plan_for_exception` of src/relprim/operation.py: whether a failed attempt is retried, and
-- after which delay.
pub mod Foreign
pub mod Planned
mod Examples
use relprim.Prelude.{ℕ, Bool, true, false, not, Option, none, some, ltb, if◌then◌else◌}
use relprim.Values.{Duration, text}
use relprim.Errors.{Exception, is_instance, runtime_error}
use relprim.Outcome.{Outcome, Action, pure, raise, lift, ◌>>=◌, ◌>>◌}
use relprim.Retry.{RetryPolicy, Environment, delay_for_retry, takes_draw}
use relprim.RateLimit.{RateLimitDecision, RateLimitPolicy, evaluate, not_rate_limited}
use relprim.Operation.{AsyncOperation}
use relprim.Operation.PlanMetadata.{
  RetryDelaySource, RetryPlan, plain_plan, new_plan, backoff, provider,
}

module _ {W : Type 0} (env : Environment W) where
  -- `backoff.delay_for_retry(attempt_number)`, which may draw a random number.
  unfoldable pub backoff_delay : RetryPolicy → ℕ → Action W Duration
  backoff_delay p attempt_number w =
      let (n, w') = if takes_draw p.backoff attempt_number then env.draw w else (0, w) in
      (delay_for_retry p.backoff n attempt_number, w')

  -- The delay and its source: what the provider asks for, or the backoff.
  selected_delay : RetryPolicy → Option Duration → ℕ → Action W (Duration × RetryDelaySource)
  unfolding backoff_delay
  selected_delay p (some delay) attempt_number = pure (delay, provider)
  selected_delay p none attempt_number =
      backoff_delay p attempt_number >>= λ delay. pure (delay, backoff)

  -- The plan for a rate limit, once a delay is selected.
  limited_plan : RateLimitPolicy → Option Duration → Duration × RetryDelaySource → RetryPlan
  limited_plan limit retry_after (delay, source) =
      let exceeded = ltb limit.max_wait_seconds delay in
      record {
        retryable = not exceeded;
        rate_limited = true;
        retry_after_seconds = retry_after;
        delay_seconds = some delay;
        delay_source = some source;
        max_wait_exceeded = exceeded;
      }

  abbrev without_delay : Bool → Option Duration → RetryPlan
  without_delay retryable retry_after = record (plain_plan retryable) {
    rate_limited = true;
    retry_after_seconds = retry_after;
  }

  unfoldable pub rate_limit_retry_plan :
      Option RetryPolicy
      → Option RateLimitPolicy
      → RateLimitDecision
      → ℕ
      → Bool
      → Action W RetryPlan
  unfolding selected_delay limited_plan new_plan
  rate_limit_retry_plan retry none decision attempt_number remaining =
      raise (runtime_error (text "Rate-limit decision created without a rate-limit policy."))
  rate_limit_retry_plan none (some limit) decision attempt_number remaining =
      lift (new_plan (without_delay false decision.retry_after_seconds))
  rate_limit_retry_plan (some p) (some limit) decision attempt_number false =
      lift (new_plan (without_delay true decision.retry_after_seconds))
  rate_limit_retry_plan (some p) (some limit) decision attempt_number true = do
    selected ← selected_delay p decision.retry_after_seconds attempt_number
    lift (new_plan (limited_plan limit decision.retry_after_seconds selected))

  unfoldable pub rate_limit_decision :
      Option RateLimitPolicy → Exception → Outcome RateLimitDecision
  unfolding evaluate not_rate_limited
  rate_limit_decision none exception = not_rate_limited
  rate_limit_decision (some limit) exception = evaluate limit exception

  abbrev backoff_plan : Duration → RetryPlan
  backoff_plan delay = record (plain_plan true) {
    delay_seconds = some delay;
    delay_source = some backoff;
  }

  -- By whether `retry_on` matches, and whether an attempt remains.
  planned_retry : Bool → RetryPolicy → ℕ → Bool → Action W RetryPlan
  unfolding backoff_delay new_plan
  planned_retry false p attempt_number remaining = lift (new_plan (plain_plan false))
  planned_retry true p attempt_number false = lift (new_plan (plain_plan true))
  planned_retry true p attempt_number true =
      backoff_delay p attempt_number >>= λ delay. lift (new_plan (backoff_plan delay))

  -- The branch of an exception that is no rate limit.
  plain_retry_plan : Option RetryPolicy → Exception → ℕ → Bool → Action W RetryPlan
  unfolding planned_retry new_plan
  plain_retry_plan none exception attempt_number remaining = lift (new_plan (plain_plan false))
  plain_retry_plan (some p) exception attempt_number remaining =
      planned_retry (is_instance exception p.retry_on) p attempt_number remaining

  -- By whether the decision is a rate limit.
  planned_as :
      {E R : Type 0}
      → AsyncOperation E R
      → Exception
      → ℕ
      → Bool
      → RateLimitDecision
      → Bool
      → Action W RetryPlan
  unfolding rate_limit_retry_plan plain_retry_plan
  planned_as op exception attempt_number remaining decision true =
      rate_limit_retry_plan op.retry_policy op.rate_limit_policy decision attempt_number remaining
  planned_as op exception attempt_number remaining decision false =
      plain_retry_plan op.retry_policy exception attempt_number remaining

  planned_for :
      {E R : Type 0}
      → AsyncOperation E R
      → Exception
      → ℕ
      → Bool
      → RateLimitDecision
      → Action W RetryPlan
  unfolding planned_as
  planned_for op exception attempt_number remaining decision =
      planned_as op exception attempt_number remaining decision decision.rate_limited

  unfoldable pub retry_plan_for_exception :
      {E R : Type 0} → AsyncOperation E R → Exception → ℕ → Bool → Action W RetryPlan
  unfolding rate_limit_decision planned_for
  retry_plan_for_exception op exception attempt_number remaining =
      lift (rate_limit_decision op.rate_limit_policy exception)
      >>= planned_for op exception attempt_number remaining
