-- ===== src/SqliteEvents/Query/Bound.antt =====
-- The positional parameters of the query of src/relprim/sqlite_events.py reach their places.
use relprim.Prelude.{
  ℕ, ◌^◌, String, ◌≡◌, refl, Bool, true, false, Option, none, some, List, [], ◌∷◌, ◌++◌, map, arith,
  ltb, length, take, keep_if, any, all,
}
use relprim.Outcome.{Outcome, returned}
use relprim.Events.{EventType}
use relprim.SqliteEvents.Database.{Row}
use relprim.SqliteEvents.Encoding.{event_value}
use relprim.SqliteEvents.Query.{
  Filter, Parameter, text_value, int_value, name_clause, types_clause, after_clause, clauses,
  parameters, Test, name_is, type_in, above, take_texts, bind_parameters, passes, too_large, select,
}

-- The numbers that SQLite takes.
abbrev pub fits : Option ℕ → Bool
fits none = true
fits (some n) = ltb n (2 ^ 63)

abbrev pub name_test : Option String → List Test
name_test none = []
name_test (some name) = name_is name ∷ []

abbrev pub types_test : Option (List EventType) → List Test
types_test none = []
types_test (some types) = type_in (map event_value types) ∷ []

abbrev pub after_test : Option ℕ → List Test
after_test none = []
after_test (some n) = above n ∷ []

-- The clauses with their values.
abbrev pub tests : Filter → List Test
tests f = name_test f.operation_name ++ types_test f.event_types ++ after_test f.after_sequence_id

texts_taken :
    (types : List EventType) (ps : List Parameter)
    → take_texts (length types) (map (λ t. text_value (event_value t)) types ++ ps)
      ≡ some (map event_value types, ps)
unfolding take_texts
texts_taken [] ps = refl
texts_taken (t ∷ ts) ps = rw (texts_taken ts ps) refl

-- Each place of the query gets its own value.
binds :
    (name : Option String) (types : Option (List EventType)) (after : Option ℕ) (limit : ℕ)
    → bind_parameters ((name_clause name).0 ++ (types_clause types).0 ++ (after_clause after).0) (
        (name_clause name).1
        ++ ((types_clause types).1 ++ ((after_clause after).1 ++ int_value limit ∷ [])))
      ≡ some (name_test name ++ types_test types ++ after_test after, limit)
unfolding bind_parameters name_clause types_clause after_clause
binds none none none limit = refl
binds none none (some n) limit = refl
binds (some s) none none limit = refl
binds (some s) none (some n) limit = refl
binds none (some ts) none limit = rw (texts_taken ts (int_value limit ∷ []), bind_parameters) refl
binds none (some ts) (some n) limit =
    rw (texts_taken ts (int_value n ∷ int_value limit ∷ []), bind_parameters) refl
binds (some s) (some ts) none limit =
    rw (texts_taken ts (int_value limit ∷ []), bind_parameters) refl
binds (some s) (some ts) (some n) limit =
    rw (texts_taken ts (int_value n ∷ int_value limit ∷ []), bind_parameters) refl

texts_fit :
    (types : List EventType) (ps : List Parameter)
    → any too_large (map (λ t. text_value (event_value t)) types ++ ps) ≡ any too_large ps
texts_fit [] ps = refl
texts_fit (t ∷ ts) ps = texts_fit ts ps

numbers_fit :
    (name : Option String) (types : Option (List EventType)) (after : Option ℕ) (limit : ℕ)
    → fits after ≡ true
    → fits (some limit) ≡ true
    → any too_large (
        (name_clause name).1
        ++ ((types_clause types).1 ++ ((after_clause after).1 ++ int_value limit ∷ [])))
      ≡ false
unfolding name_clause types_clause after_clause
numbers_fit none none none limit ha hl = ground arith
numbers_fit none none (some n) limit ha hl = ground arith
numbers_fit (some s) none none limit ha hl = ground arith
numbers_fit (some s) none (some n) limit ha hl = ground arith
numbers_fit none (some ts) none limit ha hl =
    rw (texts_fit ts (int_value limit ∷ [])) (ground arith)
numbers_fit none (some ts) (some n) limit ha hl =
    rw (texts_fit ts (int_value n ∷ int_value limit ∷ [])) (ground arith)
numbers_fit (some s) (some ts) none limit ha hl =
    rw (texts_fit ts (int_value limit ∷ [])) (ground arith)
numbers_fit (some s) (some ts) (some n) limit ha hl =
    rw (texts_fit ts (int_value n ∷ int_value limit ∷ [])) (ground arith)

pub select_lem :
    (mismatched : List Row → Outcome (List Row)) (f : Filter) (rows : List Row)
    → fits f.after_sequence_id ≡ true
    → fits (some f.limit) ≡ true
    → select mismatched (clauses f) (parameters f) rows
      ≡ returned (take f.limit (keep_if (λ row. all (λ t. passes t row) (tests f)) rows))
unfolding select clauses parameters
select_lem mismatched f rows ha hl =
    rw
      (
        numbers_fit f.operation_name f.event_types f.after_sequence_id f.limit ha hl,
        binds f.operation_name f.event_types f.after_sequence_id f.limit,
      )
      refl
