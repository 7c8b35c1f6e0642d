-- ===== src/Retry/Loop.antt =====
-- What `RetryPolicy.run` does with an operation whose calls end one after another as a script says:
-- how often it is called, what the caller gets, and what is slept.
use relprim.Prelude.{
  ℕ, zero, suc, ◌+◌, ◌≤◌, ◌<◌, ◌≡◌, refl, sym, ap, ◌∙◌, true, Option, none, some, [], ◌∷◌, arith,
  if◌then◌else◌, length, All, length-append, All-append,
}
use relprim.Values.{lit, number}
use relprim.Errors.{Exception, is_instance, retry_error}
use relprim.Outcome.{Outcome, returned, raised, interrupted}
use native.Mathlib.Decide.{dec_lt}
use mathlib.Core.Path.{subst}
use relprim.Retry.Backoff.{delay-le}
use relprim.Retry.{run, RetryPolicy, delay_for_retry, takes_draw, attempts_loop, exhausted}
use relprim.Retry.Script.{
  Script, fresh, scripted, clockwork, IsRetried, IsFinal, planned, delay_or_zero-le, after_retry,
}

module _ {A : Type 0} (p : RetryPolicy) (draws : ℕ → ℕ) (script : ℕ → Outcome A) where
  retry_step :
      (r n : ℕ) (last : Option Exception) (e : Exception) (s : Script)
      → script s.calls ≡ raised e
      → is_instance e p.retry_on ≡ true
      → suc n < p.max_attempts
      → attempts_loop p (clockwork draws) (scripted script) (suc r) (suc n) last s
        ≡ attempts_loop p
            (clockwork draws)
            (scripted script)
            r
            (suc (suc n))
            (some e)
            (after_retry p draws n s)
  unfolding attempts_loop after_retry planned delay_for_retry
  retry_step r n last e s h i lt = ground arith

  final_step :
      (r n : ℕ) (last : Option Exception) (s : Script)
      → IsFinal p (script s.calls)
      → attempts_loop p (clockwork draws) (scripted script) (suc r) n last s
        ≡ (script s.calls, record s { calls = s.calls + 1 })
  unfolding attempts_loop
  final_step r n last s h = ground arith

  last_step :
      (r n : ℕ) (last : Option Exception) (e : Exception) (s : Script)
      → script s.calls ≡ raised e
      → is_instance e p.retry_on ≡ true
      → p.max_attempts ≤ n
      → attempts_loop p (clockwork draws) (scripted script) (suc r) n last s
        ≡ (exhausted p (some e), record s { calls = s.calls + 1 })
  unfolding attempts_loop
  last_step r n last e s h i lt = ground arith

  planned-le : (n drawn : ℕ) → planned p draws n drawn ≤ p.backoff.max_delay_seconds
  unfolding planned
  planned-le n drawn =
      let draw : ℕ = if takes_draw p.backoff (suc n) then draws drawn else 0 in
      delay_or_zero-le (delay_for_retry p.backoff draw (suc n)) p.backoff.max_delay_seconds
        (λ d e. delay-le p.backoff draw (suc n) e)

  IsRetried-raised :
      (o : Outcome A)
      → IsRetried p o
      → (e : Exception) × (o ≡ raised e) × (is_instance e p.retry_on ≡ true)
  IsRetried-raised (raised e) h = (e, refl, h)
  IsRetried-raised (returned a) h = elim h [ ]
  IsRetried-raised (interrupted i) h = elim h [ ]

  -- What the loop has done when it ends at the call t.
  record Ends (s : Script) (t : ℕ) (o : Outcome A) (out : Outcome A × Script) : Type 0 where
    outcome : out.0 ≡ o
    calls : out.1.calls ≡ suc t
    slept : length out.1.slept + s.calls ≡ length s.slept + t
    bounded : All (λ d. d ≤ p.backoff.max_delay_seconds) out.1.slept

  Ends-after_retry :
      (n : ℕ) (s : Script) (t : ℕ) (o : Outcome A) (out : Outcome A × Script)
      → Ends (after_retry p draws n s) t o out
      → Ends s t o out
  unfolding after_retry
  Ends-after_retry n s t o out h = record {
    outcome = h.outcome;
    calls = h.calls;
    slept = omega (arith, h.slept, length-append s.slept (planned p draws n s.drawn ∷ []));
    bounded = h.bounded;
  }

  after_retry-bounded :
      (n : ℕ) (s : Script)
      → All (λ d. d ≤ p.backoff.max_delay_seconds) s.slept
      → All (λ d. d ≤ p.backoff.max_delay_seconds) (after_retry p draws n s).slept
  unfolding after_retry
  after_retry-bounded n s h = All-append _ s.slept _ h (planned-le n s.drawn, tt)

  loop_final :
      (r n t : ℕ) (last : Option Exception) (s : Script)
      → n + r ≡ p.max_attempts
      → s.calls ≤ t
      → t < s.calls + r
      → ((j : ℕ) → s.calls ≤ j → j < t → IsRetried p (script j))
      → IsFinal p (script t)
      → All (λ d. d ≤ p.backoff.max_delay_seconds) s.slept
      → Ends s t (script t) (attempts_loop p (clockwork draws) (scripted script) r (suc n) last s)
  loop_final zero n t last s m lo hi re fi bo = absurd (omega arith)
  loop_final (suc r) n t last s m lo hi re fi bo = elim (dec_lt s.calls t) [
    | no here ↦
        let e : s.calls ≡ t = omega arith in
        rw (final_step r (suc n) last s (subst (λ k. IsFinal p (script k)) (sym e) fi))
          (record { outcome = ap script e; calls = omega arith; slept = omega arith; bounded = bo })
    | yes later ↦
        let (x, hx, ix) = IsRetried-raised (script s.calls) (re s.calls (omega arith) later) in
        rw (retry_step r n last x s hx ix (omega arith)) (
          Ends-after_retry n s t _ _ (
            loop_final r (suc n) t (some x) (after_retry p draws n s) (omega arith)
              (unfold after_retry in omega arith) (unfold after_retry in omega arith)
              (λ j a b. re j (unfold after_retry in omega arith) b) fi
              (after_retry-bounded n s bo)))
  ]

  -- If the outcomes before the call i are all retried, i is below max_attempts and its outcome is not
  -- retried, then the caller gets just that outcome, after i + 1 calls and i sleeps, none of them
  -- longer than max_delay_seconds.
  pub run_stops :
      (i : ℕ)
      → i < p.max_attempts
      → ((j : ℕ) → j < i → IsRetried p (script j))
      → IsFinal p (script i)
      → let out = run p (clockwork draws) (scripted script) fresh in
        (out.0 ≡ script i)
        × (out.1.calls ≡ i + 1)
        × (length out.1.slept ≡ i)
        × All (λ d. d ≤ p.backoff.max_delay_seconds) out.1.slept
  unfolding run
  run_stops i lt re fi =
      let done =
        loop_final p.max_attempts 0 i none fresh (omega arith) (omega arith) (omega arith)
          (λ j _ b. re j b) fi tt in
      (done.outcome, omega (arith, done.calls), omega (arith, done.slept), done.bounded)

  loop_exhausts :
      (r n t : ℕ) (last : Option Exception) (s : Script) {e : Exception}
      → n + suc r ≡ p.max_attempts
      → s.calls + r ≡ t
      → ((j : ℕ) → s.calls ≤ j → j < s.calls + suc r → IsRetried p (script j))
      → script t ≡ raised e
      → All (λ d. d ≤ p.backoff.max_delay_seconds) s.slept
      → Ends s t
          (exhausted p (some e))
          (attempts_loop p (clockwork draws) (scripted script) (suc r) (suc n) last s)
  loop_exhausts zero n t last s {e} m i re le bo =
      let here : s.calls ≡ t = omega arith in
      let le' : script s.calls ≡ raised e = ap script here ∙ le in
      let ix : is_instance e p.retry_on ≡ true =
        rw le' at (re s.calls (omega arith) (omega arith)) in
      rw (last_step zero (suc n) last e s le' ix (omega arith))
        (record { outcome = refl; calls = omega arith; slept = omega arith; bounded = bo })
  loop_exhausts (suc r) n t last s {e} m i re le bo =
      let (x, hx, ix) =
        IsRetried-raised (script s.calls) (re s.calls (omega arith) (omega arith)) in
      rw (retry_step (suc r) n last x s hx ix (omega arith)) (
        Ends-after_retry n s t _ _ (
          loop_exhausts r (suc n) t (some x) (after_retry p draws n s) (omega arith)
            (unfold after_retry in omega arith)
            (λ j a b. re j (unfold after_retry in omega arith) (unfold after_retry in omega arith))
            le (after_retry-bounded n s bo)))

  -- If every one of the max_attempts outcomes is retried, the operation is called just so often, with
  -- one sleep fewer, and the caller gets a RetryError with that number and the last exception.
  pub run_exhausts :
      {e : Exception} (k : ℕ)
      → p.max_attempts ≡ suc k
      → ((j : ℕ) → j < p.max_attempts → IsRetried p (script j))
      → script k ≡ raised e
      → let out = run p (clockwork draws) (scripted script) fresh in
        (out.0
          ≡ raised (
              retry_error
                (lit "Operation failed after " ∷ number p.max_attempts ∷ lit " attempt(s)." ∷ [])
                p.max_attempts
                e))
        × (out.1.calls ≡ p.max_attempts)
        × (length out.1.slept + 1 ≡ p.max_attempts)
        × All (λ d. d ≤ p.backoff.max_delay_seconds) out.1.slept
  unfolding run exhausted
  run_exhausts {e} k m re le =
      let done =
        subst
          (λ r.
            Ends fresh k (exhausted p (some e))
              (attempts_loop p (clockwork draws) (scripted script) r 1 none fresh))
          (sym m)
          (loop_exhausts k 0 k none fresh (omega arith) (omega arith) (λ j a b. re j (omega arith))
            le tt) in
      (done.outcome, omega (arith, done.calls), omega (arith, done.slept), done.bounded)
