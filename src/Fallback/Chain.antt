-- ===== src/Fallback/Chain.antt =====
-- Which candidate of a chain answers, and what the caller is told otherwise.
use relprim.Prelude.{
  ℕ, ◌+◌, ◌≡◌, refl, sym, ap, ◌∙◌, inl, inr, true, false, List, [], ◌∷◌, ◌++◌, arith, ltb,
  Bool-cases, length,
}
use relprim.Values.{lit, number}
use relprim.Errors.{Exception, failures_of, fallback_chain_error}
use relprim.Outcome.{Outcome, returned, raised, interrupted}
use mathlib.Core.List.{append_assoc, append-nil}
use mathlib.Core.Path.{ap₂}
use native.Mathlib.Nat.{add-zero}
use relprim.Fallback.{
  FallbackCandidate, FallbackPolicy, FallbackChain, FallbackResult, should_fallback, run,
  run_candidates,
}

-- The candidates fail one after another, from the first state to the last, each with the exception
-- listed for it, which the policy falls back on.
pub data FailOver {S R : Type 0} (p : FallbackPolicy)
    : List (FallbackCandidate S R) → S → List Exception → S → Type 0 where
  none_left : {s : S} → FailOver p [] s [] s
  fails :
      {cs : List (FallbackCandidate S R)} {s s' t : S} {es : List Exception}
      (c : FallbackCandidate S R) (e : Exception)
      → c.operation s ≡ (raised e, s')
      → should_fallback p e ≡ true
      → FailOver p cs s' es t
      → FailOver p (c ∷ cs) s (e ∷ es) t

-- An outcome of a candidate after which no other is tried.
abbrev pub IsFinal : {R : Type 0} → FallbackPolicy → Outcome R → Type 0
IsFinal p (raised e) = should_fallback p e ≡ false
IsFinal p _ = Unit {0}

-- The two ways in which a chain can end: every candidate fails over, or the first few do and the next
-- one has a final outcome.
pub data Ending {S R : Type 0} (p : FallbackPolicy) (cs : List (FallbackCandidate S R)) (s : S)
    : Type 0 where
  all_failed : {t : S} (es : List Exception) → FailOver p cs s es t → Ending p cs s
  decided :
      {t u : S} {es : List Exception} (pre : List (FallbackCandidate S R))
      (c : FallbackCandidate S R) (rest : List (FallbackCandidate S R)) (o : Outcome R)
      → cs ≡ pre ++ c ∷ rest
      → FailOver p pre s es t
      → c.operation t ≡ (o, u)
      → IsFinal p o
      → Ending p cs s

-- What the caller gets for a final outcome of the candidate c at an index.
abbrev pub verdict :
    {S R : Type 0}
    → FallbackCandidate S R
    → ℕ
    → List Exception
    → Outcome R
    → Outcome (FallbackResult R)
verdict c index es (returned value) = returned (record {
  value = value;
  candidate_name = c.name;
  candidate_index = index;
  fallback_used = ltb 0 index;
  failures = es;
})
verdict c index es (raised e) = raised e
verdict c index es (interrupted i) = interrupted i

abbrev pub answer :
    {S R : Type 0} {p : FallbackPolicy} {cs : List (FallbackCandidate S R)} {s : S}
    → Ending p cs s
    → Outcome (FallbackResult R) × S
answer {cs = cs} (all_failed {t} es f) = (
  raised (
      fallback_chain_error
        (lit "All " ∷ number (length cs) ∷ lit " fallback candidate(s) failed." ∷ [])
        (failures_of es)),
  t,
)
answer (decided {t} {u} {es} pre c rest o e f h final) = (verdict c (length pre) es o, u)

module _ {S R : Type 0} (p : FallbackPolicy) (total : ℕ) where
  fail_step :
      (c : FallbackCandidate S R) (cs : List (FallbackCandidate S R)) (index : ℕ)
      (failures : List Exception) (s s' : S) (e : Exception)
      → c.operation s ≡ (raised e, s')
      → should_fallback p e ≡ true
      → run_candidates p total (c ∷ cs) index failures s
        ≡ run_candidates p total cs (index + 1) (failures ++ e ∷ []) s'
  unfolding run_candidates
  fail_step c cs index failures s s' e h f = ground arith

  final_step :
      (c : FallbackCandidate S R) (cs : List (FallbackCandidate S R)) (index : ℕ)
      (failures : List Exception) (s s' : S) (o : Outcome R)
      → c.operation s ≡ (o, s')
      → IsFinal p o
      → run_candidates p total (c ∷ cs) index failures s ≡ (verdict c index failures o, s')
  unfolding run_candidates
  final_step c cs index failures s s' (returned v) h f = ground arith
  final_step c cs index failures s s' (raised e) h f = ground arith
  final_step c cs index failures s s' (interrupted i) h f = ground arith

  -- Candidates that fail over are passed, and their exceptions are kept in order.
  skip :
      {pre : List (FallbackCandidate S R)} {s t : S} {es : List Exception}
      (rest : List (FallbackCandidate S R)) (index : ℕ) (failures : List Exception)
      → FailOver p pre s es t
      → run_candidates p total (pre ++ rest) index failures s
        ≡ run_candidates p total rest (index + length pre) (failures ++ es) t
  skip rest index failures none_left = rw (add-zero, append-nil) refl
  skip rest index failures (fails {cs} {s} {s'} {t} {es} c e h f more) =
      fail_step c (cs ++ rest) index failures s s' e h f
      ∙ skip rest (index + 1) (failures ++ e ∷ []) more
      ∙ ap₂ (λ k l. run_candidates p total rest k l t) (omega arith)
          (append_assoc failures (e ∷ []) es)

module _ {S R : Type 0} (p : FallbackPolicy) where
  -- A first candidate that fails over comes before the ending of the others.
  prepend :
      (c : FallbackCandidate S R) {cs : List (FallbackCandidate S R)} {s s' : S} (e : Exception)
      → c.operation s ≡ (raised e, s')
      → should_fallback p e ≡ true
      → Ending p cs s'
      → Ending p (c ∷ cs) s
  prepend c e h f (all_failed es more) = all_failed (e ∷ es) (fails c e h f more)
  prepend c e h f (decided pre c' rest o eq more h' final) =
      decided (c ∷ pre) c' rest o (ap (λ l. c ∷ l) eq) (fails c e h f more) h' final

  after_first :
      (c : FallbackCandidate S R) (cs : List (FallbackCandidate S R)) (s : S) (o : Outcome R)
      (s' : S)
      → c.operation s ≡ (o, s')
      → Ending p cs s'
      → Ending p (c ∷ cs) s
  after_first c cs s (returned v) s' h more = decided [] c cs (returned v) refl none_left h tt
  after_first c cs s (interrupted i) s' h more = decided [] c cs (interrupted i) refl none_left h tt
  after_first c cs s (raised e) s' h more = elim (Bool-cases (should_fallback p e)) [
    | inl f ↦ prepend c e h f more
    | inr f ↦ decided [] c cs (raised e) refl none_left h f
  ]

  ending : (cs : List (FallbackCandidate S R)) (s : S) → Ending p cs s
  ending [] s = all_failed [] none_left
  ending (c ∷ cs) s =
      after_first c cs s (c.operation s).0 (c.operation s).1 refl (ending cs (c.operation s).1)

run-answer :
    {S R : Type 0} (chain : FallbackChain S R) (s : S) (e : Ending chain.policy chain.candidates s)
    → run chain s ≡ answer e
unfolding run
run-answer chain s (all_failed {t} es f) =
    ap (λ l. run_candidates chain.policy (length chain.candidates) l 0 [] s)
      (sym (append-nil chain.candidates))
    ∙ skip chain.policy (length chain.candidates) [] 0 [] f
run-answer chain s (decided {t} {u} {es} pre c rest o eq f h final) =
    ap (λ l. run_candidates chain.policy (length chain.candidates) l 0 [] s) eq
    ∙ skip chain.policy (length chain.candidates) (c ∷ rest) 0 [] f
    ∙ final_step chain.policy (length chain.candidates) c rest (0 + length pre) es t u o h final
    ∙ ap (λ k. (verdict c k es o, u)) (omega arith)

-- Every run of a chain has such an ending, and the caller gets just what belongs to it: the first
-- final outcome, with the candidate's name and index and the failures before it in order, or a
-- FallbackChainError with all of them. No later candidate is run.
pub run-Ending :
    {S R : Type 0} (chain : FallbackChain S R) (s : S)
    → (e : Ending chain.policy chain.candidates s) × (run chain s ≡ answer e)
run-Ending chain s = let e = ending chain.policy chain.candidates s in (e, run-answer chain s e)
