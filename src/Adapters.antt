-- ===== src/Adapters.antt =====
-- The adapters to third-party packages, which are parameters: src/relprim/pydantic.py,
-- src/relprim/jsonschema.py and src/relprim/opentelemetry.py. Here, the text that they share.
pub mod Pydantic
pub mod JsonSchema
pub mod OpenTelemetry
mod Examples
use relprim.Prelude.{
  ℕ, zero, suc, ◌+◌, ◌/◌, ◌%◌, String, ◌≡◌, refl, true, false, List, [], ◌∷◌, ltb,
}
use relprim.Prelude.Int.{ℤ, pos, negsuc}
use Prim.Native.String.{◌++◌ as concat, slice}
use relprim.Validation.{empty_text}
use mathlib.Core.Bool.{true≢false}
use Prim.Native.String.append
use package.text.Mathlib.Text.{starts_with}
use package.text.Mathlib.TextPositions.{starts_with-append}

-- An f-string of texts.
unfoldable pub join : List String → String
join [] = ""
join (s ∷ rest) = concat s (join rest)

-- str(n), by a number of digits that is enough.
digit : ℕ → String
digit n = slice "0123456789" n (n + 1)

digits : ℕ → ℕ → String → String
unfolding digit
digits zero n out = out
digits (suc fuel) n out = elim (ltb n 10) [
  | true ↦ concat (digit n) out
  | false ↦ digits fuel (n / 10) (concat (digit (n % 10)) out)
]

unfoldable pub spell : ℤ → String
unfolding digits
spell (pos n) = digits (suc n) n ""
spell (negsuc n) = concat "-" (digits (suc (suc n)) (suc n) "")

-- An item of the path to an invalid value.
pub data PathItem : Type 0 where
  field : String → PathItem
  index : ℤ → PathItem

unfoldable pub spell_item : PathItem → String
unfolding join spell
spell_item (field name) = join ("." ∷ name ∷ [])
spell_item (index i) = join ("[" ∷ spell i ∷ "]" ∷ [])

-- `formatted += ...`
path_loop : String → List PathItem → String
unfolding spell_item
path_loop formatted [] = formatted
path_loop formatted (item ∷ path) = path_loop (concat formatted (spell_item item)) path

-- `_format_path`, which pydantic.py and jsonschema.py have in the same words.
unfoldable pub format_path : List PathItem → String
unfolding path_loop
format_path path = path_loop "$" path

-- A text with a part that is not empty is not empty.
pub concat_not_empty : (s t : String) → empty_text t ≡ false → empty_text (concat s t) ≡ false
concat_not_empty String.[] t h = rw (append.nil t) h
concat_not_empty (String.◌∷◌ c s) t h = rw (append.cons c s t) refl

pub concat_not_empty_left : (s t : String) → empty_text s ≡ false → empty_text (concat s t) ≡ false
concat_not_empty_left String.[] t h = absurd (true≢false h)
concat_not_empty_left (String.◌∷◌ c s) t h = rw (append.cons c s t) refl

pub join_not_empty :
    (s t : String) (rest : List String)
    → empty_text t ≡ false
    → empty_text (join (s ∷ t ∷ rest)) ≡ false
unfolding join
join_not_empty s t rest h =
    concat_not_empty s (concat t (join rest)) (concat_not_empty_left t (join rest) h)

-- A joined text begins with its first part.
pub join_starts : (s : String) (rest : List String) → starts_with (join (s ∷ rest)) s ≡ true
unfolding join
join_starts s rest = starts_with-append s (join rest)
