-- ===== src/Operation/Idempotent/Marked.antt =====
-- What a caller gets of an operation that another call has run under the same key.
use relprim.Prelude.{
  String, ◌≡◌, refl, ◌∙◌, ◌≢◌, inl, inr, Bool, true, false, some, [], ◌∷◌, arith, Bool-cases,
}
use relprim.Prelude.Int.{pos}
use relprim.Values.{finite, JsonScalar, bool, float, str, scalar, Metadata, text}
use relprim.Outcome.{returned}
use relprim.Checks.{unchecked}
use package.text.Mathlib.Text.{◌==◌ as str_eq}
use package.text.Mathlib.TextEquality.{eq_iff}
use relprim.Report.Build.Checked.{new_report-metadata, new_report-AllFinite}
use relprim.Operation.Idempotent.{with_idempotency_metadata, idempotency_metadata, status_value}
use relprim.Prelude.Dict.Lookup.{get_item-set_item, get_item-set_item_other}
use relprim.Idempotency
use relprim.Idempotency.{
  validate_key, validate_ttl, IdempotencyPolicy, key_of, claim, own, Store, publish,
  IdempotencyStatus, IdempotencyResult, cache_hit,
}
use relprim.Prelude.Dict.{set_item, update, get_item, set_item}
use relprim.Checks.Accepted.{AllFinite, IsFinite}
use relprim.Report.Build.{new_report}
use relprim.Operation.{OperationResult}

set_item-AllFinite :
    (key : String) (value : JsonScalar) (m : Metadata)
    → IsFinite value
    → AllFinite m
    → AllFinite (set_item key value m)
unfolding set_item
set_item-AllFinite key value [] h hm = (h, tt)
set_item-AllFinite key value ((k, v) ∷ rest) h hm = elim (Bool-cases (str_eq k key)) [
  | inl same ↦ rw same (h, hm.1)
  | inr differs ↦ rw differs (hm.0, set_item-AllFinite key value rest h hm.1)
]

pub update-AllFinite :
    (m items : Metadata) → AllFinite m → AllFinite items → AllFinite (update m items)
unfolding update
update-AllFinite m [] hm hi = hm
update-AllFinite m ((key, value) ∷ items) hm hi =
    update-AllFinite (set_item key value m) items (set_item-AllFinite key value m hi.0 hm) hi.1

enabled_not_status : ◌≢◌ {A = String} "idempotency_status" "idempotency_enabled"
enabled_not_status = ground (arith, eq_iff "idempotency_status" "idempotency_enabled")

hit_not_enabled : ◌≢◌ {A = String} "idempotency_cache_hit" "idempotency_enabled"
hit_not_enabled = ground (arith, eq_iff "idempotency_cache_hit" "idempotency_enabled")

hit_not_status : ◌≢◌ {A = String} "idempotency_cache_hit" "idempotency_status"
hit_not_status = ground (arith, eq_iff "idempotency_cache_hit" "idempotency_status")

three_items :
    (a b c : String) (x y z : JsonScalar) (m : Metadata)
    → b ≢ a
    → c ≢ a
    → c ≢ b
    → let t = set_item c z (set_item b y (set_item a x m)) in
      (get_item a t ≡ some x)
      × (get_item b t ≡ some y)
      × (get_item c t ≡ some z)
      × ((k : String) → a ≢ k → b ≢ k → c ≢ k → get_item k t ≡ get_item k m)
three_items a b c x y z m ba ca cb =
    let m1 = set_item a x m in
    let m2 = set_item b y m1 in
    (
      get_item-set_item_other c a z m2 ca
          ∙ get_item-set_item_other b a y m1 ba
          ∙ get_item-set_item a x m,
      get_item-set_item_other c b z m2 cb ∙ get_item-set_item b y m1,
      get_item-set_item c z m2,
      λ k ha hb hc.
          get_item-set_item_other c k z m2 hc
          ∙ get_item-set_item_other b k y m1 hb
          ∙ get_item-set_item_other a k x m ha,
    )

-- Whether a status is that of a result which another call has made.
abbrev pub not_executed : IdempotencyStatus → Bool
not_executed IdempotencyStatus.executed = false
not_executed IdempotencyStatus.joined = true
not_executed IdempotencyStatus.replayed = true

module _ {R : Type 0} where
  -- A result that `run` hands on: the value, and the report as it was, but for its metadata, which say
  -- that idempotency is enabled and how the result was obtained, and are otherwise those of the report.
  pub record IsMarked (status : IdempotencyStatus) (hit : Bool)
      (original marked : OperationResult R) : Type 0 where
    pub same_value : marked.value ≡ original.value
    pub same_report : marked.report ≡ record original.report { metadata = marked.report.metadata }
    pub enabled : get_item "idempotency_enabled" marked.report.metadata ≡ some (bool true)
    pub told :
        get_item "idempotency_status" marked.report.metadata ≡ some (str (status_value status))
    pub cache_hit : get_item "idempotency_cache_hit" marked.report.metadata ≡ some (bool hit)
    pub kept :
        (key : String)
        → "idempotency_enabled" ≢ key
        → "idempotency_status" ≢ key
        → "idempotency_cache_hit" ≢ key
        → get_item key marked.report.metadata ≡ get_item key original.report.metadata

  -- The report of an original result is one that its constructor accepts.
  abbrev pub IsBuilt : OperationResult R → Type 0
  IsBuilt original =
      new_report original.report.operation_name original.report.status original.report.started_at
        (scalar (float (finite (pos original.report.duration_seconds)))) original.report.attempts
        (unchecked original.report.metadata)
      ≡ returned original.report

  pub marked_result : OperationResult R → IdempotencyStatus → Bool → OperationResult R
  marked_result original status hit = record {
    value = original.value;
    report = record original.report {
      metadata = update original.report.metadata (idempotency_metadata status hit);
    };
  }

  pub marked :
      (original : OperationResult R) (status : IdempotencyStatus) (hit : Bool)
      → IsMarked status hit original (marked_result original status hit)
  unfolding marked_result update
  marked original status hit =
      let (enabled, told, cache_hit, kept) =
        three_items "idempotency_enabled" "idempotency_status" "idempotency_cache_hit" (bool true)
          (str (status_value status)) (bool hit) original.report.metadata enabled_not_status
          hit_not_enabled hit_not_status in
      record {
        same_value = refl;
        same_report = refl;
        enabled = enabled;
        told = told;
        cache_hit = cache_hit;
        kept = kept;
      }

  same_hit :
      (original : OperationResult R) (key : String) (status : IdempotencyStatus)
      → Idempotency.cache_hit (record { value = original; key = key; status = status })
        ≡ not_executed status
  unfolding Idempotency.cache_hit
  same_hit original key IdempotencyStatus.executed = refl
  same_hit original key IdempotencyStatus.joined = refl
  same_hit original key IdempotencyStatus.replayed = refl

  -- Marking a result whose report is one that its constructor accepts always succeeds.
  pub with_idempotency_metadata_lem :
      (original : OperationResult R) (key : String) (status : IdempotencyStatus)
      → IsBuilt original
      → with_idempotency_metadata (record { value = original; key = key; status = status })
        ≡ returned (marked_result original status (not_executed status))
  unfolding with_idempotency_metadata marked_result
  with_idempotency_metadata_lem original key status built =
      rw
        (
          same_hit original key status,
          new_report-metadata original.report.operation_name original.report.status
              original.report.started_at
              (scalar (float (finite (pos original.report.duration_seconds))))
              original.report.attempts (unchecked original.report.metadata)
              (update original.report.metadata (idempotency_metadata status (not_executed status)))
              original.report built
              (update-AllFinite original.report.metadata
                (idempotency_metadata status (not_executed status))
                (new_report-AllFinite original.report.operation_name original.report.status
                  original.report.started_at
                  (scalar (float (finite (pos original.report.duration_seconds))))
                  original.report.attempts (unchecked original.report.metadata) original.report
                  built)
                (tt, (tt, (tt, tt)))),
        )
        refl
