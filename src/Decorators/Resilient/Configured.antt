-- ===== src/Decorators/Resilient/Configured.antt =====
-- The operation that a decorated callable runs.
use relprim.Prelude.{String, ◌≡◌, sym, ap, ◌∙◌, Bool, true, false, none, some, if◌then◌else◌}
use relprim.Prelude.Text.{is_blank}
use relprim.Values.{text}
use relprim.Errors.{Exception, value_error}
use relprim.Outcome.{
  Outcome, returned, raised, bind_outcome, bind_outcome-returned, returned_injective,
}
use relprim.Operation.{async_operation}
use relprim.Operation.Idempotent.{IdempotentOperation}
use relprim.Decorators.{retry_policy_from, timeout_policy_from, rate_limit_policy_from}
use relprim.Decorators.Resilient.{
  Callable, Arguments, Policies, resilient, resolve, decorate, configured, fallback_chain_from,
  operation_name_for, idempotency_policy_from, blank_name,
}
use relprim.Decorators.Resilient.Assembled.{assembled, async_operation-bare, configured-assembled}

unless_raised :
    {X : Type 0} (b : Bool) (e : Exception) (o : Outcome X) {x : X}
    → (if b then raised e else o) ≡ returned x
    → o ≡ returned x
unless_raised true e o h = cc
unless_raised false e o h = h

module _ {A E R : Type 0} where
  -- The policies are those that the arguments stand for.
  pub record AreResolved (a : Arguments A E R) (p : Policies A E R) : Type 0 where
    pub retry : retry_policy_from a.retry a.retries a.retry_on ≡ returned p.retry_policy
    pub timeout : timeout_policy_from a.timeout ≡ returned p.timeout_policy
    pub fallbacks : fallback_chain_from a.fallback a.fallbacks ≡ returned p.fallback_chain
    pub idempotency :
        idempotency_policy_from a.idempotency a.idempotency_key a.idempotency_store
          a.idempotency_ttl
        ≡ returned p.idempotency_policy
    pub rate_limit :
        rate_limit_policy_from a.rate_limit a.rate_limit_on a.retry_after a.max_rate_limit_wait
        ≡ returned p.rate_limit_policy

  -- The given name, or the one that is inferred.
  abbrev pub chosen_name : Arguments A E R → Callable E R → Outcome String
  chosen_name a f = elim a.name [ some name ↦ returned name | none ↦ operation_name_for f ]

  pub record IsConfigured (a : Arguments A E R) (f : Callable E R) (op : IdempotentOperation A E R)
      : Type 0 where
    pub policies : Policies A E R
    pub resolved : AreResolved a policies
    pub name : String
    pub chosen : chosen_name a f ≡ returned name
    pub not_blank : is_blank name ≡ false
    pub same : op ≡ assembled a policies name f

  resolve-AreResolved :
      (a : Arguments A E R) (p : Policies A E R) → resolve a ≡ returned p → AreResolved a p
  unfolding resolve
  resolve-AreResolved a p h =
      let (r, hr, h1) =
        bind_outcome-returned (retry_policy_from a.retry a.retries a.retry_on) _ h in
      let (t, ht, h2) = bind_outcome-returned (timeout_policy_from a.timeout) _ h1 in
      let (c, hc, h3) = bind_outcome-returned (fallback_chain_from a.fallback a.fallbacks) _ h2 in
      let (i, hi, h4) =
        bind_outcome-returned
          (idempotency_policy_from a.idempotency a.idempotency_key a.idempotency_store
            a.idempotency_ttl)
          _ h3 in
      let (l, hl, h5) =
        bind_outcome-returned
          (rate_limit_policy_from a.rate_limit a.rate_limit_on a.retry_after a.max_rate_limit_wait)
          _ h4 in
      rw (sym (returned_injective h5))
        (record { retry = hr; timeout = ht; fallbacks = hc; idempotency = hi; rate_limit = hl })

  decorate-IsConfigured :
      (a : Arguments A E R) (p : Policies A E R) (f : Callable E R) (op : IdempotentOperation A E R)
      → AreResolved a p
      → decorate a p f ≡ returned op
      → IsConfigured a f op
  unfolding decorate
  decorate-IsConfigured a p f op resolved h =
      let (name, hn, h1) = bind_outcome-returned (chosen_name a f) _ h in
      let (made, hm, h2) = bind_outcome-returned (async_operation name f.call) _ h1 in
      let (not_blank, e) = async_operation-bare name f made hm in
      record {
        policies = p;
        resolved = resolved;
        name = name;
        chosen = hn;
        not_blank = not_blank;
        same =
            sym (returned_injective h2) ∙ ap (configured a p) e ∙ configured-assembled a p name f;
      }

  resilient-resolved :
      (a : Arguments A E R) (decorator : Callable E R → Outcome (IdempotentOperation A E R))
      → resilient a ≡ returned decorator
      → (p : Policies A E R) × (resolve a ≡ returned p)
        × (returned (decorate a p) ≡ returned decorator)
  unfolding resilient
  resilient-resolved a decorator h = bind_outcome-returned (resolve a) _ (
      unless_raised (blank_name a.name) (value_error (text "name must not be empty."))
        (bind_outcome (resolve a) λ p. returned (decorate a p)) h)

  -- When `resilient` accepts its arguments and its decorator accepts a callable, the operation that
  -- runs has the given name or the inferred one, which is not blank; the callable; the breaker, the
  -- validation and the events that were given; and the policies that the arguments stand for, each
  -- in its place, whatever the combination of them.
  pub resilient-IsConfigured :
      (a : Arguments A E R) (decorator : Callable E R → Outcome (IdempotentOperation A E R))
      (f : Callable E R) (op : IdempotentOperation A E R)
      → resilient a ≡ returned decorator
      → decorator f ≡ returned op
      → IsConfigured a f op
  resilient-IsConfigured a decorator f op h q =
      let (p, hp, same) = resilient-resolved a decorator h in
      decorate-IsConfigured a p f op (resolve-AreResolved a p hp)
        (ap (λ d. d f) (returned_injective same) ∙ q)
