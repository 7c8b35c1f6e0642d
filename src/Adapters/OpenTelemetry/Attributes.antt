-- ===== src/Adapters/OpenTelemetry/Attributes.antt =====
-- The attributes of the span event that an event becomes.
use relprim.Prelude.{
  String, ◌≡◌, refl, sym, ap, ◌∙◌, ◌≢◌, inl, inr, Option, none, some, [], ◌∷◌, Bool-cases,
}
use relprim.Values.{JsonScalar, null, bool, int, float, str, Metadata, text}
use package.text.Mathlib.TextPositions.{slice-append_left, slice-append_right, len-append}
use package.text.Mathlib.TextEquality.{eq_iff}
use package.text.Mathlib.Text.{◌==◌ as str_eq}
use Prim.Native.String.{◌++◌ as concat, slice, len}
use mathlib.Core.Bool.{true≢false}
use relprim.Prelude.Dict.{get_item}
use relprim.Prelude.Dict.Lookup.{other_key, get_item-set_item, get_item-set_item_other}
use relprim.Adapters.OpenTelemetry.{
  event_value, StructuredEvent, event_attributes, add_payload, add_item,
}

-- No key stands twice, as in a dict.
abbrev pub DistinctKeys : Metadata → Type 0
DistinctKeys [] = Unit
DistinctKeys ((key, value) ∷ rest) = (get_item key rest ≡ none) × DistinctKeys rest

-- The attribute for an item of the payload, or else another one.
abbrev pub or_else : Option JsonScalar → Option JsonScalar → Option JsonScalar
or_else none attribute = attribute
or_else (some null) attribute = attribute
or_else (some value) attribute = some value

after_prefix : (p s : String) → slice (concat p s) (len p) (len (concat p s)) ≡ s
after_prefix p s = rw (len-append p s) (slice-append_right p s)

concat_injective : (p s t : String) → concat p s ≡ concat p t → s ≡ t
concat_injective p s t h =
    sym (after_prefix p s) ∙ ap (λ u. slice u (len p) (len u)) h ∙ after_prefix p t

first_part : (p s : String) (k : String) → concat p k ≡ s → slice s 0 (len p) ≡ p
first_part p s k h = ap (λ u. slice u 0 (len p)) (sym h) ∙ slice-append_left p k

abbrev attribute_name : String → String
attribute_name key = concat "relprim.payload." key

no_type : (k : String) → attribute_name k ≢ "relprim.event.type"
no_type k h = true≢false (
    sym (
      (eq_iff "relprim.event.ty" "relprim.payload.").1
        (first_part "relprim.payload." "relprim.event.type" k h)))

no_operation : (k : String) → attribute_name k ≢ "relprim.operation.name"
no_operation k h = true≢false (
    sym (
      (eq_iff "relprim.operatio" "relprim.payload.").1
        (first_part "relprim.payload." "relprim.operation.name" k h)))

added :
    (attributes : Metadata) (key : String) (value : JsonScalar)
    → get_item (attribute_name key) (add_item attributes key value)
      ≡ or_else (some value) (get_item (attribute_name key) attributes)
added attributes key null = refl
added attributes key (bool b) = get_item-set_item (attribute_name key) (bool b) attributes
added attributes key (int n) = get_item-set_item (attribute_name key) (int n) attributes
added attributes key (float x) = get_item-set_item (attribute_name key) (float x) attributes
added attributes key (str s) = get_item-set_item (attribute_name key) (str s) attributes

not_added :
    (attributes : Metadata) (key : String) (value : JsonScalar) (name : String)
    → attribute_name key ≢ name
    → get_item name (add_item attributes key value) ≡ get_item name attributes
not_added attributes key null name h = refl
not_added attributes key (bool b) name h =
    get_item-set_item_other (attribute_name key) name (bool b) attributes h
not_added attributes key (int n) name h =
    get_item-set_item_other (attribute_name key) name (int n) attributes h
not_added attributes key (float x) name h =
    get_item-set_item_other (attribute_name key) name (float x) attributes h
not_added attributes key (str s) name h =
    get_item-set_item_other (attribute_name key) name (str s) attributes h

kept :
    (attributes payload : Metadata) (name : String)
    → ((key : String) → attribute_name key ≢ name)
    → get_item name (add_payload attributes payload) ≡ get_item name attributes
unfolding add_payload
kept attributes [] name h = refl
kept attributes ((key, value) ∷ payload) name h =
    kept (add_item attributes key value) payload name h
    ∙ not_added attributes key value name (h key)

payload_kept :
    (attributes payload : Metadata) (key : String)
    → DistinctKeys payload
    → get_item (attribute_name key) (add_payload attributes payload)
      ≡ or_else (get_item key payload) (get_item (attribute_name key) attributes)
unfolding add_payload get_item
payload_kept attributes [] key d = refl
payload_kept attributes ((k, value) ∷ payload) key d =
    let rest = payload_kept (add_item attributes k value) payload key d.1 in
    elim (Bool-cases (str_eq k key)) [
      | inl e ↦
          let same = (eq_iff k key).0 e in
          rw e (rest ∙ rw (sym same, d.0) (added attributes k value))
      | inr e ↦ rw e (
          rest
          ∙ ap (or_else (get_item key payload)) (
              not_added attributes k value (attribute_name key) (λ q.
                true≢false
                  (sym ((eq_iff k key).1 (concat_injective "relprim.payload." k key q)) ∙ e))))
    ]

-- Attributes that carry all of an event, but the values that are None.
pub record IsExport (event : StructuredEvent) (attributes : Metadata) : Type 0 where
  pub event_type :
      get_item "relprim.event.type" attributes ≡ some (str (event_value event.event_type))
  pub operation_name :
      get_item "relprim.operation.name" attributes ≡ some (str event.operation_name)
  pub payload :
      (key : String)
      → get_item (concat "relprim.payload." key) attributes
        ≡ or_else (get_item key event.payload) none

fresh_attribute :
    (a b : JsonScalar) (key : String)
    → get_item (attribute_name key) (("relprim.event.type", a) ∷ ("relprim.operation.name", b) ∷ [])
      ≡ none
unfolding get_item
fresh_attribute a b key =
    rw (other_key "relprim.event.type" (attribute_name key) (λ h. no_type key (sym h))) (
      rw (other_key "relprim.operation.name" (attribute_name key) (λ h. no_operation key (sym h)))
        refl)

pub event_attributes-IsExport :
    (event : StructuredEvent) → DistinctKeys event.payload → IsExport event (event_attributes event)
unfolding event_attributes get_item
event_attributes-IsExport event d =
    let fixed =
      ("relprim.event.type", str (event_value event.event_type))
      ∷ ("relprim.operation.name", str event.operation_name)
      ∷ [] in
    record {
      event_type = kept fixed event.payload "relprim.event.type" no_type;
      operation_name = kept fixed event.payload "relprim.operation.name" no_operation;
      payload = λ key.
          payload_kept fixed event.payload key d
          ∙ ap (or_else (get_item key event.payload))
              (fresh_attribute (str (event_value event.event_type)) (str event.operation_name) key);
    }
