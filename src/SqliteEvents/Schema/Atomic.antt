-- ===== src/SqliteEvents/Schema/Atomic.antt =====
-- Initialization is atomic: it commits the upgrade, or leaves the tables as they were.
use relprim.Prelude.{ℕ, suc, ◌+◌, ◌≡◌, refl, sym, Bool, false, ◌||◌, Option, none, some}
use relprim.Errors.{Exception}
use relprim.Outcome.{Interrupt, Outcome, returned, raised, interrupted, Action, ◌>>=◌}
use relprim.SqliteEvents.Database.{
  Database, Statement, World, Sqlite, begin, unless, rollback, close, finally, on_exception,
}
use relprim.SqliteEvents.Database.Rules.{idle, pending}
use mathlib.Core.Path.{subst}
use relprim.SqliteEvents.Connection.{SqliteEventStore, enable_wal}
use relprim.SqliteEvents.Connection.Opened.{Connected, connected, not_connected, connect-Connected}
use relprim.SqliteEvents.Connection.Wal.{
  IsClock, Switched, switched, already, unreadable, refused, too_late, enable_wal-Switched,
}
use relprim.SqliteEvents.Schema.{in_transaction, initialize_sync}
use relprim.SqliteEvents.Schema.Upgrade.{
  Upgraded, Committed, committed, uncommitted, abandoned, in_transaction-Committed,
}

module _ {W : Type 0} (sqlite : Sqlite W) (base : Database) (n : ℕ) (init : Bool) where
  -- How an initialization ends, from no open transaction. In each case the connection that it opens is
  -- closed, and no transaction is left.
  pub data Initialized : Outcome (Unit {0}) × World W → Type 0 where
    initialized :
        (on : Bool) (d : Database) (rest : W)
        → Upgraded (record base { wal = on || base.wal }) d
        → Initialized (returned tt, idle d n init rest)
    unchanged :
        (e : Exception) (on : Bool) (rest : W)
        → Initialized (raised e, idle (record base { wal = on || base.wal }) n init rest)
    interrupted_unchanged :
        (i : Interrupt) (on : Bool) (rest : W)
        → Initialized (interrupted i, idle (record base { wal = on || base.wal }) n init rest)

  -- How the body ends, before the rollback and with the connection open.
  data Ended : Outcome (Unit {0}) × World W → Type 0 where
    finished :
        (on : Bool) (d : Database) (rest : W)
        → Upgraded (record base { wal = on || base.wal }) d
        → Ended (returned tt, idle d (suc n) init rest)
    broken :
        (e : Exception) (on : Bool) (copy : Option Database) (rest : W)
        → Ended (
          raised e,
          record (idle (record base { wal = on || base.wal }) (suc n) init rest) {
            transaction = copy;
          },
        )
    left :
        (i : Interrupt) (on : Bool) (copy : Option Database) (rest : W)
        → Ended (
          interrupted i,
          record (idle (record base { wal = on || base.wal }) (suc n) init rest) {
            transaction = copy;
          },
        )

  close_ends :
      {r : Outcome (Unit {0}) × World W} (w : World W)
      → Ended r
      → Initialized (finally (on_exception (λ _. r) rollback) close w)
  unfolding rollback close
  close_ends w (finished on d rest u) = initialized on d rest u
  close_ends w (broken e on copy rest) = unchanged e on rest
  close_ends w (left i on copy rest) = interrupted_unchanged i on rest

  commit_ends :
      (on : Bool) {r : Outcome (Unit {0}) × World W}
      → Committed sqlite (record base { wal = on || base.wal }) (suc n) init r
      → Ended r
  commit_ends on (committed d rest u) = finished on d rest u
  commit_ends on (uncommitted e d rest) = broken e on (some d) rest
  commit_ends on (abandoned i d rest) = left i on (some d) rest

  begin_ends :
      (fault : Option Exception) (body : Action (World W) (Unit {0})) (on : Bool) (rest : W)
      → body (idle (record base { wal = on || base.wal }) (suc n) init rest) ≡ (
        returned tt,
        pending
            (record base { wal = on || base.wal })
            (suc n)
            init
            (record base { wal = on || base.wal })
            rest,
      )
      → Ended (
          (unless fault body >>= λ _. in_transaction sqlite)
            (idle (record base { wal = on || base.wal }) (suc n) init rest))
  begin_ends (some e) body on rest h = broken e on none rest
  begin_ends none body on rest h =
      subst
        (λ r. Ended (
          ((λ _. r) >>= λ _. in_transaction sqlite)
            (idle (record base { wal = on || base.wal }) (suc n) init rest)))
        (sym h)
        (commit_ends on (
          in_transaction-Committed sqlite (record base { wal = on || base.wal }) (suc n) init rest))

  switch_ends :
      (deadline : ℕ) {r : Outcome (Unit {0}) × World W} (w : World W)
      → Switched sqlite base (suc n) init deadline r
      → Ended (((λ _. r) >>= λ _. begin sqlite >>= λ _. in_transaction sqlite) w)
  unfolding begin
  switch_ends deadline w (switched before rest q) =
      begin_ends (sqlite.attempt Statement.begin_immediate rest).0 _ (sqlite.switches_wal before)
        (sqlite.attempt Statement.begin_immediate rest).1 refl
  switch_ends deadline w (already before rest on q) =
      begin_ends (sqlite.attempt Statement.begin_immediate rest).0 _ false
        (sqlite.attempt Statement.begin_immediate rest).1 refl
  switch_ends deadline w (unreadable e before rest q) = broken e false none rest
  switch_ends deadline w (refused e before rest q b) = broken e false none rest
  switch_ends deadline w (too_late e before rest q b late) = broken e false none rest

  from_connection :
      IsClock sqlite
      → (store : SqliteEventStore) {r : Outcome (Unit {0}) × World W} (w : World W)
      → Connected sqlite base n init r
      → Initialized (
          ((λ _. r) >>= λ _.
          finally
            (on_exception
              (enable_wal sqlite store >>= λ _. begin sqlite >>= λ _. in_transaction sqlite)
              rollback)
            close)
            w)
  from_connection clock store w (not_connected e rest) = unchanged e false rest
  from_connection clock store w (connected rest) = close_ends (idle base (suc n) init rest) (
      switch_ends (sqlite.monotonic rest + store.busy_timeout_seconds) (idle base (suc n) init rest)
        (enable_wal-Switched sqlite base (suc n) init clock store rest).1)

  -- An initialization is atomic, whatever statements fail. It returns with the tables at version 1:
  -- from version 0 it has created what was missing and kept the stored events, from version 1 it
  -- has changed nothing. Otherwise it raises, and no table has changed; so it does for a newer or
  -- an invalid version. WAL mode is never left, but it is not sure to be reached. The connection
  -- that it opens is closed in each case, and no transaction is left.
  pub initialize_sync-Initialized :
      IsClock sqlite
      → (store : SqliteEventStore) (rest : W)
      → Initialized (initialize_sync sqlite store (idle base n init rest))
  unfolding initialize_sync
  initialize_sync-Initialized clock store rest =
      from_connection clock store (idle base n init rest)
        (connect-Connected sqlite base n init store rest)
