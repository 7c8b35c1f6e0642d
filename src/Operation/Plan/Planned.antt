-- ===== src/Operation/Plan/Planned.antt =====
-- Which plan `_retry_plan_for_exception` of src/relprim/operation.py makes.
use relprim.Prelude.{
  ℕ, suc, ◌≤◌, ◌≡◌, refl, sym, ap, ◌∙◌, inl, inr, Bool, true, false, not, ◌&&◌, ◌||◌, Option, none,
  some, arith, ltb, if◌then◌else◌, is_some, Bool-cases,
}
use relprim.Values.{Duration}
use relprim.Errors.{Exception, is_instance}
use relprim.Outcome.{Outcome, returned, returned_injective, lift, ◌>>=◌}
use mathlib.Core.Path.{subst}
use mathlib.Core.Bool.{false≢true}
use relprim.RateLimit.{not_rate_limited, RateLimitDecision, RateLimitPolicy}
use relprim.Retry.{RetryPolicy, Environment, delay_for_retry, takes_draw}
use relprim.Retry.Backoff.{delay-le}
use relprim.Operation.PlanMetadata.{
  RetryPlan, new_plan, will_retry, backoff, provider, RetryDelaySource,
}
use relprim.Operation.{AsyncOperation}
use relprim.Operation.Plan.{
  rate_limit_decision, planned_as, planned_for, retry_plan_for_exception, planned_retry,
  backoff_delay, selected_delay, limited_plan, rate_limit_retry_plan, plain_retry_plan,
}

-- The wait before the next attempt, or 0 where there is none.
abbrev pub planned_wait : RetryPlan → Duration
planned_wait p = if will_retry p then elim p.delay_seconds [ some d ↦ d | none ↦ 0 ] else 0

abbrev pub max_wait : Option RateLimitPolicy → Duration
max_wait none = 0
max_wait (some limit) = limit.max_wait_seconds

abbrev pub max_delay : Option RetryPolicy → Duration
max_delay none = 0
max_delay (some p) = p.backoff.max_delay_seconds

abbrev pub matches : Option RetryPolicy → Exception → Bool
matches none e = false
matches (some p) e = is_instance e p.retry_on

abbrev pub delay_or_zero : Option Duration → Duration
delay_or_zero none = 0
delay_or_zero (some d) = d

-- The wait for a rate limit is longer than its maximum.
abbrev pub too_long : Bool → Duration → Option Duration → Bool
too_long limited longest none = false
too_long limited longest (some d) = limited && ltb longest d

-- The delay of a plan, where a retry is allowed: the one that is asked for, or else one of the backoff.
abbrev pub DelayFor : Bool → Option Duration → Duration → Option Duration → Type 0
DelayFor allowed (some asked) most delay = delay ≡ (if allowed then some asked else none)
DelayFor allowed none most delay = (is_some delay ≡ allowed) × (delay_or_zero delay ≤ most)

-- A plan is made. It says whether the failure is a rate limit, and whether the wait for one is too
-- long; it retries just where that is allowed and the wait is not too long; and its wait is at most the
-- longest one.
abbrev pub IsSound :
    Bool → Option Duration → Duration → Bool → Duration → Outcome RetryPlan → Type 0
IsSound limited asked most allowed longest (returned p) =
    (p.rate_limited ≡ limited)
    × (p.max_wait_exceeded ≡ too_long limited longest p.delay_seconds)
    × (will_retry p ≡ (allowed && not (too_long limited longest p.delay_seconds)))
    × DelayFor allowed asked most p.delay_seconds
    × (planned_wait p ≤ longest)
IsSound limited asked most allowed longest _ = ⊥

module _ {W : Type 0} (env : Environment W) where
  limited_plan-IsSound :
      (limit : RateLimitPolicy) (asked : Option Duration) (most : Duration)
      (s : Duration × RetryDelaySource)
      → DelayFor true asked most (some s.0)
      → IsSound true asked most true limit.max_wait_seconds
          (new_plan (limited_plan env limit asked s))
  unfolding limited_plan new_plan will_retry
  limited_plan-IsSound limit asked most (d, source) for =
      elim (Bool-cases (ltb limit.max_wait_seconds d)) [
        | inl h ↦ rw h (refl, sym h, ap not (sym h), for, omega arith)
        | inr h ↦ rw h (refl, sym h, ap not (sym h), for, ground arith)
      ]

  no_delay : (asked : Option Duration) (most : Duration) → DelayFor false asked most none
  no_delay none most = (refl, omega arith)
  no_delay (some d) most = refl

  rate_limit_retry_plan-IsSound :
      (retry : Option RetryPolicy) (limit : RateLimitPolicy) (d : RateLimitDecision) (k : ℕ)
      (remaining : Bool) (w : W)
      → IsSound true d.retry_after_seconds
          (max_delay retry)
          (is_some retry && remaining)
          limit.max_wait_seconds
          (rate_limit_retry_plan env retry (some limit) d (suc k) remaining w).0
  unfolding rate_limit_retry_plan new_plan will_retry selected_delay backoff_delay delay_for_retry
  rate_limit_retry_plan-IsSound none limit d k remaining w =
      (refl, refl, refl, no_delay d.retry_after_seconds 0, omega arith)
  rate_limit_retry_plan-IsSound (some p) limit d k false w =
      (refl, refl, refl, no_delay d.retry_after_seconds p.backoff.max_delay_seconds, omega arith)
  rate_limit_retry_plan-IsSound (some p) limit d k true w =
      let draw = (if takes_draw p.backoff (suc k) then env.draw w else (0, w)).0 in
      elim d.retry_after_seconds
        as (λ asked.
          IsSound true asked p.backoff.max_delay_seconds true limit.max_wait_seconds
            ((selected_delay env p asked (suc k) >>= λ s.
                lift (new_plan (limited_plan env limit asked s)))
              w).0) [
                | some delay ↦
                    limited_plan-IsSound limit (some delay) p.backoff.max_delay_seconds
                      (delay, provider) refl
                | none ↦
                    limited_plan-IsSound limit none p.backoff.max_delay_seconds (_, backoff)
                      (refl, delay-le p.backoff draw (suc k) refl)
              ]

  planned_retry-IsSound :
      (b : Bool) (p : RetryPolicy) (k : ℕ) (remaining : Bool) (w : W)
      → IsSound false none p.backoff.max_delay_seconds
          (remaining && b)
          p.backoff.max_delay_seconds
          (planned_retry env b p (suc k) remaining w).0
  unfolding planned_retry new_plan will_retry backoff_delay delay_for_retry
  planned_retry-IsSound false p k false w = (refl, refl, refl, (refl, omega arith), omega arith)
  planned_retry-IsSound false p k true w = (refl, refl, refl, (refl, omega arith), omega arith)
  planned_retry-IsSound true p k false w = (refl, refl, refl, (refl, omega arith), omega arith)
  planned_retry-IsSound true p k true w =
      let draw = (if takes_draw p.backoff (suc k) then env.draw w else (0, w)).0 in
      let short = delay-le p.backoff draw (suc k) refl in (refl, refl, refl, (refl, short), short)

  plain_retry_plan-IsSound :
      (retry : Option RetryPolicy) (e : Exception) (k : ℕ) (remaining : Bool) (w : W)
      → IsSound false none
          (max_delay retry)
          (is_some retry && (remaining && matches retry e))
          (max_delay retry)
          (plain_retry_plan env retry e (suc k) remaining w).0
  unfolding plain_retry_plan new_plan will_retry
  plain_retry_plan-IsSound none e k remaining w =
      (refl, refl, refl, (refl, omega arith), omega arith)
  plain_retry_plan-IsSound (some p) e k remaining w =
      planned_retry-IsSound (is_instance e p.retry_on) p k remaining w

  limited-IsSound :
      (retry : Option RetryPolicy) (o : Option RateLimitPolicy) (d : RateLimitDecision) (k : ℕ)
      (remaining : Bool) (w : W)
      → is_some o ≡ true
      → IsSound true d.retry_after_seconds
          (max_delay retry)
          (is_some retry && remaining)
          (max_wait o)
          (rate_limit_retry_plan env retry o d (suc k) remaining w).0
  limited-IsSound retry none d k remaining w h = cc
  limited-IsSound retry (some limit) d k remaining w h =
      rate_limit_retry_plan-IsSound retry limit d k remaining w

  -- Only a policy decides on a rate limit.
  decided_by :
      (o : Option RateLimitPolicy) (e : Exception) (d : RateLimitDecision)
      → rate_limit_decision env o e ≡ returned d
      → d.rate_limited ≡ true
      → is_some o ≡ true
  unfolding rate_limit_decision not_rate_limited
  decided_by none e d h l =
      absurd (false≢true (ap (λ x. x.rate_limited) (returned_injective h) ∙ l))
  decided_by (some limit) e d h l = refl

  -- When a retry is allowed.
  abbrev pub allowed : {E R : Type 0} → AsyncOperation E R → Exception → Bool → Bool → Bool
  allowed op e remaining limited =
      is_some op.retry_policy && (remaining && (limited || matches op.retry_policy e))

  -- What a decision asks for.
  abbrev pub asked_for : RateLimitDecision → Bool → Option Duration
  asked_for d limited = if limited then d.retry_after_seconds else none

  abbrev pub longest : {E R : Type 0} → AsyncOperation E R → Bool → Duration
  longest op limited = if limited then max_wait op.rate_limit_policy else max_delay op.retry_policy

  and_true : (b : Bool) → b && true ≡ b
  and_true true = refl
  and_true false = refl

  planned_as-IsSound :
      {E R : Type 0} (op : AsyncOperation E R) (e : Exception) (k : ℕ) (remaining : Bool)
      (d : RateLimitDecision) (w : W) (limited : Bool)
      → d.rate_limited ≡ limited
      → rate_limit_decision env op.rate_limit_policy e ≡ returned d
      → IsSound limited
          (asked_for d limited)
          (max_delay op.retry_policy)
          (allowed op e remaining limited)
          (longest op limited)
          (planned_as env op e (suc k) remaining d limited w).0
  unfolding planned_as
  planned_as-IsSound op e k remaining d w true l h =
      subst
        (λ b.
          IsSound true d.retry_after_seconds (max_delay op.retry_policy)
            (is_some op.retry_policy && b) (max_wait op.rate_limit_policy)
            (rate_limit_retry_plan env op.retry_policy op.rate_limit_policy d (suc k) remaining
              w).0)
        (sym (and_true remaining))
        (limited-IsSound op.retry_policy op.rate_limit_policy d k remaining w
          (decided_by op.rate_limit_policy e d h l))
  planned_as-IsSound op e k remaining d w false l h =
      plain_retry_plan-IsSound op.retry_policy e k remaining w

  -- Once the rate-limit policy has decided, a plan is always made for an attempt from 1 on: none of
  -- the checks of _RetryPlan fails. It is rate limited just as decided. A retry is allowed if there
  -- is a retry policy, an attempt remains, and the failure is a rate limit or matches retry_on;
  -- just then the plan has a delay, for a rate limit the one that the decision asks for, and else
  -- one of at most max_delay_seconds. It retries exactly if that is allowed and the delay for a
  -- rate limit is not above max_wait_seconds, which it reports; and the wait is at most
  -- max_wait_seconds for a rate limit, otherwise at most max_delay_seconds.
  pub retry_plan_for_exception-IsSound :
      {E R : Type 0} (op : AsyncOperation E R) (e : Exception) (k : ℕ) (remaining : Bool) (w : W)
      (d : RateLimitDecision)
      → rate_limit_decision env op.rate_limit_policy e ≡ returned d
      → IsSound d.rate_limited
          (asked_for d d.rate_limited)
          (max_delay op.retry_policy)
          (allowed op e remaining d.rate_limited)
          (longest op d.rate_limited)
          (retry_plan_for_exception env op e (suc k) remaining w).0
  unfolding retry_plan_for_exception planned_for
  retry_plan_for_exception-IsSound op e k remaining w d h =
      subst
        (λ o.
          IsSound d.rate_limited (asked_for d d.rate_limited) (max_delay op.retry_policy)
            (allowed op e remaining d.rate_limited) (longest op d.rate_limited)
            ((lift o >>= planned_for env op e (suc k) remaining) w).0)
        (sym h) (planned_as-IsSound op e k remaining d w d.rate_limited refl h)
