-- ===== src/SqliteEvents/Store/Sequenced.antt =====
-- The ids of the rows grow, and none is above the sequence of AUTOINCREMENT.
use relprim.Prelude.{ℕ, ◌≤◌, ◌<◌, sym, List, [], ◌∷◌, All}
use relprim.SqliteEvents.Database.{EventTable, Row}
use relprim.SqliteEvents.Encoding.{StoredEvent}
use relprim.SqliteEvents.Log.{Stands}
use relprim.SqliteEvents.Log.Paged.{Increasing}

abbrev pub IncreasingRows : List Row → Type 0
IncreasingRows [] = Unit
IncreasingRows (row ∷ rows) = All (λ r. row.sequence_id < r.sequence_id) rows × IncreasingRows rows

abbrev pub IsSequenced : EventTable → Type 0
IsSequenced table = All (λ r. r.sequence_id ≤ table.sequence) table.rows × IncreasingRows table.rows

newer-Stands :
    (n : ℕ) (rows : List Row) (log : List StoredEvent)
    → Stands rows log
    → All (λ r. n < r.sequence_id) rows
    → All (λ s. n < s.sequence_id) log
newer-Stands n [] [] h a = tt
newer-Stands n (row ∷ rows) (e ∷ log) h a =
    (rw (sym h.0.same_id) a.0, newer-Stands n rows log h.1 a.1)
newer-Stands n [] (_ ∷ _) h a = absurd h
newer-Stands n (_ ∷ _) [] h a = absurd h

pub rows-Increasing :
    (rows : List Row) (log : List StoredEvent)
    → Stands rows log
    → IncreasingRows rows
    → Increasing log
rows-Increasing [] [] h i = tt
rows-Increasing (row ∷ rows) (e ∷ log) h i = (
  rw (sym h.0.same_id) (newer-Stands row.sequence_id rows log h.1 i.0),
  rows-Increasing rows log h.1 i.1,
)
rows-Increasing [] (_ ∷ _) h i = absurd h
rows-Increasing (_ ∷ _) [] h i = absurd h
