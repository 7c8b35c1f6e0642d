-- ===== src/SqliteEvents/Log/Selected.antt =====
-- The query selects the rows of the events that a filter asks for.
use relprim.Prelude.{
  ℕ, zero, suc, String, ◌≡◌, refl, inl, inr, Bool, ◌&&◌, Option, none, some, List, [], ◌∷◌, ◌++◌,
  map, arith, Bool-cases, take, keep_if, any, all,
}
use relprim.Values.{text}
use package.text.Mathlib.Text.{◌==◌ as str_eq}
use relprim.Events.{EventType}
use relprim.SqliteEvents.Database.{Row}
use relprim.SqliteEvents.Encoding.{StoredEvent, event_value}
use relprim.SqliteEvents.Query.{Filter, passes}
use relprim.SqliteEvents.Query.Bound.{name_test, types_test, after_test, tests}
use relprim.SqliteEvents.Log.{StandsFor, Stands, matches, name_matches, type_matches, is_after}

any-map :
    (s : String) (types : List EventType)
    → any (λ v. str_eq s v) (map event_value types) ≡ any (λ t. str_eq s (event_value t)) types
any-map s [] = refl
any-map s (t ∷ ts) = rw (any-map s ts) refl

answers :
    (name : Option String) (types : Option (List EventType)) (after : Option ℕ) (row : Row)
    (stored : StoredEvent)
    → StandsFor row stored
    → all (λ t. passes t row) (name_test name ++ types_test types ++ after_test after)
      ≡ (name_matches name stored && type_matches types stored && is_after after stored)
answers none none none row stored h = refl
answers none none (some n) row stored h = rw h.same_id (ground arith)
answers (some s) none none row stored h = rw h.same_name (ground arith)
answers (some s) none (some n) row stored h = rw (h.same_name, h.same_id) (ground arith)
answers none (some ts) none row stored h =
    rw (h.same_type, any-map (event_value stored.event.event_type) ts) (ground arith)
answers none (some ts) (some n) row stored h =
    rw (h.same_type, any-map (event_value stored.event.event_type) ts, h.same_id) (ground arith)
answers (some s) (some ts) none row stored h =
    rw (h.same_name, h.same_type, any-map (event_value stored.event.event_type) ts) (ground arith)
answers (some s) (some ts) (some n) row stored h =
    rw (h.same_name, h.same_type, any-map (event_value stored.event.event_type) ts, h.same_id)
      (ground arith)

pub keep-Stands :
    (f : Row → Bool) (g : StoredEvent → Bool) (rows : List Row) (log : List StoredEvent)
    → ((row : Row) (stored : StoredEvent) → StandsFor row stored → f row ≡ g stored)
    → Stands rows log
    → Stands (keep_if f rows) (keep_if g log)
keep-Stands f g [] [] same h = tt
keep-Stands f g (row ∷ rows) (stored ∷ log) same h =
    rw (same row stored h.0) (elim (Bool-cases (g stored)) [
      | inl in_answer ↦ rw in_answer (h.0, keep-Stands f g rows log same h.1)
      | inr out ↦ rw out (keep-Stands f g rows log same h.1)
    ])
keep-Stands f g [] (_ ∷ _) same h = absurd h
keep-Stands f g (_ ∷ _) [] same h = absurd h

take-Stands :
    (n : ℕ) (rows : List Row) (log : List StoredEvent)
    → Stands rows log
    → Stands (take n rows) (take n log)
take-Stands zero rows log h = tt
take-Stands (suc n) [] [] h = tt
take-Stands (suc n) (row ∷ rows) (stored ∷ log) h = (h.0, take-Stands n rows log h.1)
take-Stands (suc n) [] (_ ∷ _) h = absurd h
take-Stands (suc n) (_ ∷ _) [] h = absurd h

-- The rows that the query selects stand for the events that the filter asks for, at most `limit` of
-- them, in the order of their ids.
pub selected-Stands :
    (f : Filter) (rows : List Row) (log : List StoredEvent)
    → Stands rows log
    → Stands
        (take f.limit (keep_if (λ row. all (λ t. passes t row) (tests f)) rows))
        (take f.limit (keep_if (matches f) log))
selected-Stands f rows log h = take-Stands f.limit _ _ (
    keep-Stands (λ row. all (λ t. passes t row) (tests f)) (matches f) rows log
      (λ row stored r. answers f.operation_name f.event_types f.after_sequence_id row stored r) h)
