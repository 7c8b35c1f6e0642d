-- ===== src/SqliteEvents/Store/Paged.antt =====
-- Histories that go on from the last id of a page.
use relprim.Prelude.{
  ℕ, ◌≡◌, refl, sym, ap, ◌∙◌, Bool, true, false, ◌&&◌, Option, some, List, take, drop, keep_if,
  last?,
}
use mathlib.Core.Path.{subst}
use relprim.SqliteEvents.Database.{Cell, EventTable, Sqlite}
use relprim.SqliteEvents.Database.Rules.{idle}
use relprim.SqliteEvents.Encoding.{StoredEvent}
use relprim.SqliteEvents.Connection.{SqliteEventStore}
use relprim.SqliteEvents.Query.{Filter}
use relprim.SqliteEvents.Query.Bound.{fits}
use relprim.SqliteEvents.Log.{Stands, matches, name_matches, type_matches, is_after}
use relprim.SqliteEvents.Log.Paged.{Increasing, rest_after, wanted}
use relprim.SqliteEvents.Store.{history_sync}
use relprim.SqliteEvents.Store.Sequenced.{IsSequenced, rows-Increasing}
use relprim.SqliteEvents.Store.Refines.{Ending, holding, history_sync-Ending}

and_assoc : (a b c : Bool) → (a && b && c) ≡ ((a && b) && c)
and_assoc true b c = refl
and_assoc false b c = refl

-- The part of a filter that all pages share.
abbrev fixed : Filter → StoredEvent → Bool
fixed f s = name_matches f.operation_name s && type_matches f.event_types s

matches-wanted :
    (f : Filter) (log : List StoredEvent)
    → keep_if (matches f) log ≡ keep_if (wanted (fixed f) f.after_sequence_id) log
matches-wanted f log =
    ap (λ m. keep_if m log)
      (λ i s.
        and_assoc (name_matches f.operation_name s) (type_matches f.event_types s)
          (is_after f.after_sequence_id s) i)

abbrev pub next : Filter → StoredEvent → ℕ → Filter
next f last limit = record f { after_sequence_id = some last.sequence_id; limit = limit }

next_matches :
    (f : Filter) (last : StoredEvent) (limit : ℕ) (log : List StoredEvent)
    → Increasing log
    → last? (take f.limit (keep_if (matches f) log)) ≡ some last
    → keep_if (matches (next f last limit)) log ≡ drop f.limit (keep_if (matches f) log)
next_matches f last limit log increasing q =
    matches-wanted (next f last limit) log
    ∙ rest_after (fixed f) f.after_sequence_id log f.limit increasing
        (ap (λ l. last? (take f.limit l)) (sym (matches-wanted f log)) ∙ q)
    ∙ ap (drop f.limit) (sym (matches-wanted f log))

-- Where the ids of the rows grow, a history that asks for the events after the last one of a page
-- answers just what that page left of its own answer, up to the new limit, so that pages neither skip
-- nor repeat an event; or it raises. Either way the database stays as it is.
pub next_page-Ending :
    {W : Type 0} (sqlite : Sqlite W) (store : SqliteEventStore) (wal : Bool)
    (schema : Option (Option Cell)) (table : EventTable) (n : ℕ) (init : Bool)
    (log : List StoredEvent) (stands : Stands table.rows log) (rest : W) (f : Filter)
    (last : StoredEvent) (limit : ℕ)
    → IsSequenced table
    → last? (take f.limit (keep_if (matches f) log)) ≡ some last
    → fits (some last.sequence_id) ≡ true
    → fits (some limit) ≡ true
    → Ending wal schema table n init (take limit (drop f.limit (keep_if (matches f) log))) log (
        history_sync sqlite store (next f last limit) (idle (holding wal schema table) n init rest))
next_page-Ending sqlite store wal schema table n init log stands rest f last limit sequenced q hl
      hn =
    subst
      (λ l. Ending wal schema table n init (take limit l) log (
        history_sync sqlite store (next f last limit)
          (idle (holding wal schema table) n init rest)))
      (next_matches f last limit log (rows-Increasing table.rows log stands sequenced.1) q)
      (history_sync-Ending sqlite store wal schema table n init log stands rest (next f last limit)
        hl hn)
