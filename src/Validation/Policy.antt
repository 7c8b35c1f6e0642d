-- ===== src/Validation/Policy.antt =====
-- What `ValidationPolicy.validate` answers, and that callable validators always build their result.
use relprim.Prelude.{
  String, ◌≡◌, refl, ap, ◌∙◌, ◌≢◌, inl, inr, Bool, true, false, Option, none, some, List, [], ◌∷◌,
  ◌++◌, arith, if◌then◌else◌, Bool-cases, All,
}
use relprim.Prelude.Text.{is_blank}
use relprim.Outcome.{Outcome, returned, raised, interrupted}
use relprim.Validation.{
  ValidationResult, Validator, ValidationPolicy, validate, validate_loop, new_validator,
  validate_callable, empty_text,
}

abbrev pub Passes : {T : Type 0} → T → Validator T → Type 0
Passes value v = (r : ValidationResult) × (v.validate value ≡ returned r) × (r.valid ≡ true)

-- An outcome of a validator that ends the loop.
abbrev pub EndsLoop : Outcome ValidationResult → Type 0
EndsLoop (returned r) = r.valid ≡ false
EndsLoop _ = Unit {0}

-- What a list of validators says of a value: the validators before the one that decides have all
-- passed, and either it is the last one and passes, or its outcome ends the loop.
pub data Judgement {T : Type 0} (value : T) (vs : List (Validator T)) (o : Outcome ValidationResult)
    : Type 0 where
  all_pass :
      (pre : List (Validator T)) (v : Validator T) (r : ValidationResult)
      → vs ≡ pre ++ v ∷ []
      → All (Passes value) pre
      → v.validate value ≡ returned r
      → r.valid ≡ true
      → o ≡ returned r
      → Judgement value vs o
  stopped :
      (pre : List (Validator T)) (v : Validator T) (rest : List (Validator T))
      → vs ≡ pre ++ v ∷ rest
      → All (Passes value) pre
      → v.validate value ≡ o
      → EndsLoop o
      → Judgement value vs o

module _ {T : Type 0} (value : T) where
  prepend :
      (v : Validator T) {vs : List (Validator T)} {o : Outcome ValidationResult}
      → Passes value v
      → Judgement value vs o
      → Judgement value (v ∷ vs) o
  prepend v p (all_pass pre w r e ps h ok q) =
      all_pass (v ∷ pre) w r (ap (λ l. v ∷ l) e) (p, ps) h ok q
  prepend v p (stopped pre w rest e ps h f) =
      stopped (v ∷ pre) w rest (ap (λ l. v ∷ l) e) (p, ps) h f

  pass_step :
      (v : Validator T) (vs : List (Validator T)) (result : Option ValidationResult)
      (r : ValidationResult)
      → v.validate value ≡ returned r
      → r.valid ≡ true
      → validate_loop value (v ∷ vs) result ≡ validate_loop value vs (some r)
  unfolding validate_loop
  pass_step v vs result r h ok = ground arith

  stop_step :
      (v : Validator T) (vs : List (Validator T)) (result : Option ValidationResult)
      (o : Outcome ValidationResult)
      → v.validate value ≡ o
      → EndsLoop o
      → validate_loop value (v ∷ vs) result ≡ o
  unfolding validate_loop
  stop_step v vs result (returned r) h f = ground arith
  stop_step v vs result (raised e) h f = ground arith
  stop_step v vs result (interrupted i) h f = ground arith

  mutual_case :
      (v : Validator T) (vs : List (Validator T)) (result : Option ValidationResult)
      (o : Outcome ValidationResult)
      → v.validate value ≡ o
      → ((r : ValidationResult)
          → r.valid ≡ true
          → v.validate value ≡ returned r
          → Judgement value (v ∷ vs) (validate_loop value vs (some r)))
      → Judgement value (v ∷ vs) (validate_loop value (v ∷ vs) result)
  mutual_case v vs result (returned r) h more = elim (Bool-cases r.valid) [
    | inl ok ↦ rw (pass_step v vs result r h ok) (more r ok h)
    | inr f ↦ rw (stop_step v vs result (returned r) h f) (stopped [] v vs refl tt h f)
  ]
  mutual_case v vs result (raised e) h more =
      rw (stop_step v vs result (raised e) h tt) (stopped [] v vs refl tt h tt)
  mutual_case v vs result (interrupted i) h more =
      rw (stop_step v vs result (interrupted i) h tt) (stopped [] v vs refl tt h tt)

  loop-Judgement :
      (v : Validator T) (vs : List (Validator T)) (result : Option ValidationResult)
      → Judgement value (v ∷ vs) (validate_loop value (v ∷ vs) result)
  unfolding validate_loop
  loop-Judgement v [] result =
      mutual_case v [] result (v.validate value) refl (λ r ok h. all_pass [] v r refl tt h ok refl)
  loop-Judgement v (w ∷ ws) result =
      mutual_case v (w ∷ ws) result (v.validate value) refl
        (λ r ok h. prepend v (r, h, ok) (loop-Judgement w ws (some r)))

-- A policy with validators answers with the outcome of the first validator that does not pass, after
-- all before it have passed, or with the result of the last one if all of them pass.
pub validate-Judgement :
    {T : Type 0} (p : ValidationPolicy T) (value : T)
    → p.validators ≢ []
    → Judgement value p.validators (validate p value)
unfolding validate
validate-Judgement p value h = judged p.validators h
  where
    judged : (vs : List (Validator _)) → vs ≢ [] → Judgement value vs (validate_loop value vs none)
    judged [] e = absurd (e refl)
    judged (v ∷ vs) e = loop-Judgement value v vs none

blank_of_empty : (s : String) → is_blank s ≡ false → empty_text s ≡ false
unfolding is_blank
blank_of_empty String.[] h = cc
blank_of_empty (String.◌∷◌ c s) h = refl

validate_callable_lem :
    {T : Type 0} (name : String) (predicate : T → Outcome Bool) (message : String) (value : T)
    (b : Bool)
    → is_blank name ≡ false
    → is_blank message ≡ false
    → predicate value ≡ returned b
    → validate_callable name predicate message value
      ≡ returned
          (record { valid = b; validator_name = name; reason = if b then none else some message })
unfolding validate_callable
validate_callable_lem name predicate message value true n m q = rw (q, n)
validate_callable_lem name predicate message value false n m q = rw (q, n, blank_of_empty message m)

new_validator_inversion :
    {T : Type 0} (name : String) (predicate : T → Outcome Bool) (message : String) (v : Validator T)
    → new_validator name predicate message ≡ returned v
    → (is_blank name ≡ false)
      × (is_blank message ≡ false)
      × (v ≡ record { name = name; validate = validate_callable name predicate message })
unfolding new_validator
new_validator_inversion name predicate message v h = ground arith

-- A validator that `validator(...)` accepts answers with a result of its own name whenever its
-- predicate returns, valid exactly if the predicate accepts, and with its message as the reason
-- otherwise; building that result never fails.
pub new_validator_answers :
    {T : Type 0} (name : String) (predicate : T → Outcome Bool) (message : String) (v : Validator T)
    (value : T) (b : Bool)
    → new_validator name predicate message ≡ returned v
    → predicate value ≡ returned b
    → v.validate value
      ≡ returned
          (record { valid = b; validator_name = name; reason = if b then none else some message })
new_validator_answers name predicate message v value b h q =
    let (n, m, e) = new_validator_inversion name predicate message v h in
    ap (λ w. w.validate value) e ∙ validate_callable_lem name predicate message value b n m q
