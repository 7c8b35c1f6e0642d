-- ===== src/Prelude/Dict.antt =====
-- Python dicts with texts as keys, in insertion order.
pub mod Lookup
use mathlib.Core.List.{List, [], ◌∷◌}
use mathlib.Core.Option.{Option, none, some}
use Prim.Native.String.{String}
use text.Mathlib.Text.{◌==◌}
use mathlib.Core.Bool.{Bool}
use relprim.Prelude.{if◌then◌else◌}

module _ {ℓ} {V : Type ℓ} where
  unfoldable pub set_item : String → V → List (String × V) → List (String × V)
  set_item key value [] = (key, value) ∷ []
  set_item key value ((k, v) ∷ rest) =
      if k == key then (k, value) ∷ rest else (k, v) ∷ set_item key value rest

  unfoldable pub get_item : String → List (String × V) → Option V
  get_item key [] = none
  get_item key ((k, v) ∷ rest) = if k == key then some v else get_item key rest

  -- `d.update(items)`
  unfoldable pub update : List (String × V) → List (String × V) → List (String × V)
  unfolding set_item
  update d [] = d
  update d ((key, value) ∷ items) = update (set_item key value d) items

  -- `del d[key]`
  unfoldable pub del_item : String → List (String × V) → List (String × V)
  del_item key [] = []
  del_item key ((k, v) ∷ rest) = if k == key then del_item key rest else (k, v) ∷ del_item key rest

  -- The items whose value is kept.
  unfoldable pub keep : (V → Bool) → List (String × V) → List (String × V)
  keep f [] = []
  keep f ((k, v) ∷ rest) = if f v then (k, v) ∷ keep f rest else keep f rest
