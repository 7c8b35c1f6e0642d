-- ===== src/CircuitBreaker/Run.antt =====
-- `CircuitBreaker.run_async` as a whole: what the caller gets, and what is left of the breaker.
use relprim.Prelude.{
  ◌<◌, ◌≡◌, refl, sym, inl, inr, Bool, true, false, none, some, arith, if◌then◌else◌, Bool-cases,
}
use relprim.Prelude.Int.{pos, ◌-ℤ◌, ◌≤ℤ◌}
use relprim.Values.{Seconds}
use relprim.Errors.{closed, open_state, half_open, Exception, is_instance}
use relprim.Outcome.{Outcome, returned, raised, interrupted, Action, ◌>>=◌}
use relprim.CircuitBreaker.{
  settle, CircuitBreaker, BreakerState, Shared, run_async, before_call, after_success,
  after_failure, release_probe,
}
use relprim.CircuitBreaker.Invariant.{
  IsValid, before_call-IsValid, after_success-IsValid, after_failure-IsValid, release_probe-IsValid,
}
use mathlib.Core.Path.{subst}
use relprim.CircuitBreaker.Tasks.{success_frees, failure_frees}

settle-IsValid :
    {E A : Type 0} (b : CircuitBreaker) (probe : Bool) (o : Outcome A) (w : Shared E)
    → 0 < b.failure_threshold
    → IsValid b w.breaker
    → IsValid b (settle b probe o w).breaker
unfolding settle
settle-IsValid b probe (returned a) w p v = after_success-IsValid b w.breaker p v
settle-IsValid b probe (raised e) w p v = after_failure-IsValid b w.now e w.breaker v
settle-IsValid b probe (interrupted i) w p v = release_probe-IsValid b probe w.breaker v

-- A probe that ends frees the slot.
settle_frees :
    {E A : Type 0} (b : CircuitBreaker) (o : Outcome A) (w : Shared E)
    → IsValid b w.breaker
    → (settle b true o w).breaker.half_open_probe_in_flight ≡ false
unfolding settle release_probe
settle_frees b (returned a) w v = success_frees b w.breaker v
settle_frees b (raised e) w v = failure_frees b w.breaker w.now e v
settle_frees b (interrupted i) w v = refl

module _ {E A : Type 0} (b : CircuitBreaker) where
  -- A call that `_before_call` rejects raises that error, never runs the operation, and changes
  -- nothing.
  pub run_async_rejected :
      (operation : Action (Shared E) A) (w : Shared E) (e : Exception)
      → (before_call b w.now w.breaker).0 ≡ raised e
      → run_async b operation w ≡ (raised e, w)
  unfolding run_async before_call
  run_async_rejected operation w e h = ground arith

  -- A call that is admitted as a probe ends as its operation does, and frees the probe slot on
  -- every way to end, an interruption included, whatever state the other tasks leave meanwhile, as
  -- long as the operation keeps the state of the breaker valid and the threshold is above 0; and
  -- the state is valid afterwards.
  pub run_async_frees :
      (operation : Action (Shared E) A) (w : Shared E) (s : BreakerState)
      → 0 < b.failure_threshold
      → ((u : Shared E) → IsValid b u.breaker → IsValid b (operation u).1.breaker)
      → IsValid b w.breaker
      → before_call b w.now w.breaker ≡ (returned true, s)
      → ((run_async b operation w).0 ≡ (operation (record w { breaker = s })).0)
        × ((run_async b operation w).1.breaker.half_open_probe_in_flight ≡ false)
        × IsValid b (run_async b operation w).1.breaker
  unfolding run_async
  run_async_frees operation w s positive keep v h =
      let u : Shared E = record w { breaker = s } in
      let (o, t) = operation u in
      let valid = keep u (subst (λ r. IsValid b r.1) h (before_call-IsValid b w.now w.breaker v)) in
      let same : run_async b operation w ≡ (o, settle b true o t) =
        subst
          (λ r.
            ((λ _. (r.0, record w { breaker = r.1 })) >>= λ probe v.
            let (o, t) = operation v in (o, settle b probe o t))
              w
            ≡ (o, settle b true o t))
          (sym h) refl in
      rw same (refl, settle_frees b o t valid, settle-IsValid b true o t positive valid)

  -- An admitted call ends as its operation does.
  pub run_async_transparent :
      (operation : Action (Shared E) A) (w : Shared E) (probe : Bool) (s : BreakerState)
      → before_call b w.now w.breaker ≡ (returned probe, s)
      → (run_async b operation w).0 ≡ (operation (record w { breaker = s })).0
  unfolding run_async
  run_async_transparent operation w probe s h = ground arith

-- The state that a probe leaves, by how it ends.
abbrev pub AfterProbe : {A : Type 0} → CircuitBreaker → Seconds → Outcome A → BreakerState → Type 0
AfterProbe b later (returned a) s =
    (s.state ≡ closed) × (s.failure_count ≡ 0) × (s.opened_at ≡ none)
AfterProbe b later (raised e) s =
    if is_instance e b.record_failure_on
    then (s.state ≡ open_state) × (s.opened_at ≡ some later)
    else (s.state ≡ half_open) × (s.half_open_probe_in_flight ≡ false)
AfterProbe b later (interrupted i) s = (s.state ≡ half_open) × (s.half_open_probe_in_flight ≡ false)

-- Once the recovery timeout of an open breaker has passed, one call probes, whatever its operation
-- does, if no other task touches the breaker meanwhile: its success closes the breaker, its recorded
-- failure opens it again from the time of the failure, and any other failure or an interruption
-- leaves it half-open with the slot free.
pub probe_cycle :
    {E A : Type 0} (b : CircuitBreaker) (o : Outcome A) (later : Seconds) (w : Shared E)
    (opened : Seconds)
    → w.breaker.state ≡ open_state
    → w.breaker.opened_at ≡ some opened
    → pos b.recovery_timeout_seconds ≤ℤ w.now -ℤ opened
    → AfterProbe b later o (run_async b (λ w'. (o, record w' { now = later })) w).1.breaker
unfolding run_async before_call after_success after_failure release_probe
probe_cycle b (returned a) later w opened h t p = ground arith
probe_cycle b (raised e) later w opened h t p =
    elim (Bool-cases (is_instance e b.record_failure_on)) [
      | inl x ↦ rw x (ground arith)
      | inr x ↦ rw x (ground arith)
    ]
probe_cycle b (interrupted i) later w opened h t p = ground arith
