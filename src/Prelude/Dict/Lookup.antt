-- ===== src/Prelude/Dict/Lookup.antt =====
-- What the operations of a dict do to the item at a key.
use mathlib.Core.Bool.{Bool, true, false, false≢true}
use mathlib.Core.List.{List, [], ◌∷◌}
use mathlib.Core.Logic.{◌≢◌, inl, inr}
use mathlib.Core.Option.{none, some, some-injective, Option}
use mathlib.Core.Path.{◌≡◌, refl, sym, ap, ◌∙◌}
use Prim.Native.String.{String}
use text.Mathlib.Text.{◌==◌}
use text.Mathlib.TextEquality.{eq_iff}
use relprim.Prelude.{if◌then◌else◌, Bool-cases}
use relprim.Prelude.Dict.{set_item, get_item, del_item, keep}

pub same_key : (k : String) → (k == k) ≡ true
same_key k = (eq_iff k k).1 refl

pub other_key : (k l : String) → k ≢ l → (k == l) ≡ false
other_key k l h = elim (Bool-cases (k == l)) [ inl e ↦ absurd (h ((eq_iff k l).0 e)) | inr e ↦ e ]

module _ {ℓ} {V : Type ℓ} where
  pub get_item-set_item :
      (k : String) (v : V) (d : List (String × V)) → get_item k (set_item k v d) ≡ some v
  unfolding get_item set_item
  get_item-set_item k v [] = rw (same_key k) refl
  get_item-set_item k v ((l, u) ∷ d) = elim (Bool-cases (l == k)) [
    | inl e ↦ rw e (rw e refl)
    | inr e ↦ rw e (rw e (get_item-set_item k v d))
  ]

  pub get_item-set_item_other :
      (k l : String) (v : V) (d : List (String × V))
      → k ≢ l
      → get_item l (set_item k v d) ≡ get_item l d
  unfolding get_item set_item
  get_item-set_item_other k l v [] h = rw (other_key k l h) refl
  get_item-set_item_other k l v ((m, u) ∷ d) h = elim (Bool-cases (m == k)) [
    | inl e ↦ rw e (rw (other_key m l (λ p. h (sym ((eq_iff m k).0 e) ∙ p))) refl)
    | inr e ↦ elim (Bool-cases (m == l)) [
      | inl q ↦ rw e (rw q refl)
      | inr q ↦ rw e (rw q (get_item-set_item_other k l v d h))
    ]
  ]

  pub get_item-del_item_other :
      (k l : String) (d : List (String × V)) → k ≢ l → get_item l (del_item k d) ≡ get_item l d
  unfolding get_item del_item
  get_item-del_item_other k l [] h = refl
  get_item-del_item_other k l ((m, u) ∷ d) h = elim (Bool-cases (m == k)) [
    | inl e ↦
        rw e (
          rw (other_key m l (λ p. h (sym ((eq_iff m k).0 e) ∙ p)))
            (get_item-del_item_other k l d h))
    | inr e ↦ elim (Bool-cases (m == l)) [
      | inl q ↦ rw e (rw q refl)
      | inr q ↦ rw e (rw q (get_item-del_item_other k l d h))
    ]
  ]

  pub get_item-del_item : (k : String) (d : List (String × V)) → get_item k (del_item k d) ≡ none
  unfolding get_item del_item
  get_item-del_item k [] = refl
  get_item-del_item k ((l, u) ∷ d) = elim (Bool-cases (l == k)) [
    | inl e ↦ rw e (get_item-del_item k d)
    | inr e ↦ rw e (rw e (get_item-del_item k d))
  ]

  found_kept :
      (b : Bool) (u : V) (g kept : Option V) {v : V}
      → (if b then some u else g) ≡ some v
      → (g ≡ some v → kept ≡ some v)
      → (if b then some u else kept) ≡ some v
  found_kept true u g kept h k = h
  found_kept false u g kept h k = k h

  not_dropped :
      (f : V → Bool) (b : Bool) (u : V) (g kept : Option V) {v : V}
      → (if b then some u else g) ≡ some v
      → f u ≡ false
      → f v ≡ true
      → (g ≡ some v → kept ≡ some v)
      → kept ≡ some v
  not_dropped f true u g kept h d t k =
      absurd (false≢true (sym d ∙ ap f (some-injective _ _ h) ∙ t))
  not_dropped f false u g kept h d t k = k h

  pub get_item-keep :
      (f : V → Bool) (k : String) (d : List (String × V)) {v : V}
      → get_item k d ≡ some v
      → f v ≡ true
      → get_item k (keep f d) ≡ some v
  unfolding get_item keep
  get_item-keep f k [] h t = cc
  get_item-keep f k ((m, u) ∷ d) h t = elim (Bool-cases (f u)) [
    | inl e ↦ rw e (
        found_kept (m == k) u (get_item k d) (get_item k (keep f d)) h
          (λ q. get_item-keep f k d q t))
    | inr e ↦ rw e (
        not_dropped f (m == k) u (get_item k d) (get_item k (keep f d)) h e t
          (λ q. get_item-keep f k d q t))
  ]

  missing_kept :
      (b : Bool) (u : V) (g kept : Option V)
      → (if b then some u else g) ≡ none
      → (g ≡ none → kept ≡ none)
      → (if b then some u else kept) ≡ none
  missing_kept true u g kept h k = cc
  missing_kept false u g kept h k = k h

  missing_rest : (b : Bool) (u : V) (g : Option V) → (if b then some u else g) ≡ none → g ≡ none
  missing_rest true u g h = cc
  missing_rest false u g h = h

  pub get_item-keep_missing :
      (f : V → Bool) (k : String) (d : List (String × V))
      → get_item k d ≡ none
      → get_item k (keep f d) ≡ none
  unfolding get_item keep
  get_item-keep_missing f k [] h = refl
  get_item-keep_missing f k ((m, u) ∷ d) h =
      let rest = get_item-keep_missing f k d (missing_rest (m == k) u (get_item k d) h) in
      elim (Bool-cases (f u)) [
        | inl e ↦
            rw e (missing_kept (m == k) u (get_item k d) (get_item k (keep f d)) h (λ _. rest))
        | inr e ↦ rw e rest
      ]
