-- ===== src/SqliteEvents/Connection/Opened.antt =====
-- How `_connect` ends, and that a connection is closed again.
use relprim.Prelude.{
  ℕ, suc, ◌*◌, ◌≡◌, refl, sym, inl, inr, Bool, Option, none, some, leb, Bool-cases,
}
use relprim.Errors.{Exception}
use relprim.Outcome.{Outcome, returned, raised, Action, ◌>>=◌}
use relprim.Checks.{float_limit}
use relprim.SqliteEvents.Database.{
  Database, Statement, World, Sqlite, execute, unless, close, open_connection, on_base_exception,
}
use relprim.SqliteEvents.Database.Rules.{idle}
use mathlib.Core.Path.{subst}
use relprim.SqliteEvents.Connection.{SqliteEventStore, connect, set_busy_timeout}

module _ {W : Type 0} (sqlite : Sqlite W) (base : Database) (n : ℕ) (init : Bool) where
  -- A connection is open, or none more than before.
  pub data Connected : Outcome (Unit {0}) × World W → Type 0 where
    connected : (rest : W) → Connected (returned tt, idle base (suc n) init rest)
    not_connected : (e : Exception) (rest : W) → Connected (raised e, idle base n init rest)

  timeout_ends :
      (fault : Option Exception) (body : Action (World W) (Unit {0})) (rest : W)
      → body (idle base (suc n) init rest) ≡ (returned tt, idle base (suc n) init rest)
      → Connected (on_base_exception (unless fault body) close (idle base (suc n) init rest))
  unfolding close
  timeout_ends (some e) body rest h = not_connected e rest
  timeout_ends none body rest h =
      subst (λ r. Connected (on_base_exception (λ _. r) close (idle base (suc n) init rest)))
        (sym h) (connected rest)

  busy_timeout_ends :
      (store : SqliteEventStore) (rest : W)
      → Connected
          (on_base_exception (set_busy_timeout sqlite store) close (idle base (suc n) init rest))
  unfolding set_busy_timeout close execute
  busy_timeout_ends store rest =
      elim (Bool-cases (leb (1000 * float_limit) store.busy_timeout_seconds)) [
        | inl huge ↦ rw huge (not_connected _ rest)
        | inr fits ↦ rw fits (
            timeout_ends (sqlite.attempt Statement.busy_timeout rest).0 _
              (sqlite.attempt Statement.busy_timeout rest).1 refl)
      ]

  opened_ends :
      (fault : Option Exception) (body : Action (World W) (Unit {0})) (store : SqliteEventStore)
      (rest : W)
      → body (idle base n init rest) ≡ (returned tt, idle base (suc n) init rest)
      → Connected (
          (unless fault body >>= λ _. on_base_exception (set_busy_timeout sqlite store) close)
            (idle base n init rest))
  opened_ends (some e) body store rest h = not_connected e rest
  opened_ends none body store rest h =
      subst
        (λ r. Connected (
          ((λ _. r) >>= λ _. on_base_exception (set_busy_timeout sqlite store) close)
            (idle base n init rest)))
        (sym h) (busy_timeout_ends store rest)

  pub connect-Connected :
      (store : SqliteEventStore) (rest : W)
      → Connected (connect sqlite store (idle base n init rest))
  unfolding connect open_connection
  connect-Connected store rest =
      opened_ends (sqlite.attempt Statement.connect rest).0 _ store
        (sqlite.attempt Statement.connect rest).1 refl
