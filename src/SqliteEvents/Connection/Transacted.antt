-- ===== src/SqliteEvents/Connection/Transacted.antt =====
-- One statement on a connection of its own, in a transaction or outside: how it ends.
use relprim.Prelude.{ℕ, suc, ◌≡◌, refl, sym, ap, Bool, Option, none, some}
use relprim.Errors.{Exception}
use relprim.Outcome.{Interrupt, Outcome, returned, raised, interrupted, Action, pure, ◌>>=◌}
use mathlib.Core.Path.{subst}
use relprim.SqliteEvents.Connection.{SqliteEventStore, connect}
use relprim.SqliteEvents.Connection.Opened.{Connected, connected, not_connected, connect-Connected}
use relprim.SqliteEvents.Database.Rules.{
  Effect, execute-Ends, idle, pending, Ends, done, failed, left,
}
use relprim.SqliteEvents.Database.{
  Statement, execute, execute_dml, with_connection, take_effect, Database, World, Sqlite, commit,
  rollback, unless, close, finally, on_base_exception,
}

module _ {W : Type 0} (sqlite : Sqlite W) (base : Database) where
  -- It has returned with its effect, or the database is as before. There are n open connections and no
  -- transaction.
  pub data Transacted (n : ℕ) (init : Bool) {A : Type 0} (Q : A → Database → Type 0)
      : Outcome A × World W → Type 0 where
    committed :
        (a : A) (d : Database) (rest : W)
        → Q a d
        → Transacted n init Q (returned a, idle d n init rest)
    rolled_back : (e : Exception) (rest : W) → Transacted n init Q (raised e, idle base n init rest)
    abandoned :
        (i : Interrupt) (rest : W) → Transacted n init Q (interrupted i, idle base n init rest)

  module _ (n : ℕ) (init : Bool) {A : Type 0} (Q : A → Database → Type 0) where
    commit_ends :
        (fault : Option Exception) (body : Action (World W) (Unit {0})) (a : A) (d : Database)
        (rest : W)
        → body (pending base n init d rest) ≡ (returned tt, idle d n init rest)
        → Q a d
        → Transacted n init Q (
            on_base_exception
              (unless fault body >>= λ _. pure a)
              rollback
              (pending base n init d rest))
    unfolding rollback
    commit_ends (some e) body a d rest h q = rolled_back e rest
    commit_ends none body a d rest h q =
        subst
          (λ r.
            Transacted n init Q
              (on_base_exception ((λ _. r) >>= λ _. pure a) rollback (pending base n init d rest)))
          (sym h) (committed a d rest q)

    body_ends :
        {r : Outcome A × World W} (w : World W)
        → Ends sqlite base n init Q r
        → Transacted n init Q
            (on_base_exception ((λ _. r) >>= λ a. commit sqlite >>= λ _. pure a) rollback w)
    unfolding commit rollback
    body_ends w (done a d rest q) =
        commit_ends (sqlite.attempt Statement.commit_transaction rest).0 _ a d
          (sqlite.attempt Statement.commit_transaction rest).1 refl q
    body_ends w (failed e d rest) = rolled_back e rest
    body_ends w (left i d rest) = abandoned i rest

    close_ends :
        {r : Outcome A × World W} (w : World W)
        → Transacted (suc n) init Q r
        → Transacted n init Q (finally (λ _. r) close w)
    unfolding close
    close_ends w (committed a d rest q) = committed a d rest q
    close_ends w (rolled_back e rest) = rolled_back e rest
    close_ends w (abandoned i rest) = abandoned i rest

    select_ends :
        (fault : Option Exception) (body : Action (World W) A) (a : A) (rest : W)
        → body (idle base n init rest) ≡ (returned a, idle base n init rest)
        → Q a base
        → Transacted n init Q (unless fault body (idle base n init rest))
    select_ends (some e) body a rest h q = rolled_back e rest
    select_ends none body a rest h q = subst (Transacted n init Q) (sym h) (committed a base rest q)

  dml_ends :
      (n : ℕ) (init : Bool) {A : Type 0} (Q : A → Database → Type 0) (statement : Statement)
      (effect : Database → Outcome (A × Database)) {r : Outcome (Unit {0}) × World W} (w : World W)
      → Effect Q (effect base)
      → Connected sqlite base n init r
      → Transacted n init Q (
          ((λ _. r) >>= λ _.
          finally (with_connection sqlite (execute_dml sqlite statement effect)) close)
            w)
  unfolding with_connection execute_dml
  dml_ends n init Q statement effect w q (not_connected e rest) = rolled_back e rest
  dml_ends n init Q statement effect w q (connected rest) =
      close_ends n init Q (idle base (suc n) init rest) (
        body_ends (suc n) init Q (idle base (suc n) init rest)
          (execute-Ends sqlite base (suc n) init statement effect base rest q))

  -- INSERT, REPLACE or DELETE inside `with connection:`.
  pub dml-Transacted :
      (n : ℕ) (init : Bool) {A : Type 0} (Q : A → Database → Type 0) (store : SqliteEventStore)
      (statement : Statement) (effect : Database → Outcome (A × Database)) (rest : W)
      → Effect Q (effect base)
      → Transacted n init Q (
          (connect sqlite store >>= λ _.
          finally (with_connection sqlite (execute_dml sqlite statement effect)) close)
            (idle base n init rest))
  dml-Transacted n init Q store statement effect rest q =
      dml_ends n init Q statement effect (idle base n init rest) q
        (connect-Connected sqlite base n init store rest)

  query_ends :
      (n : ℕ) (init : Bool) {A : Type 0} (Q : A → Database → Type 0) (statement : Statement)
      (effect : Database → Outcome (A × Database)) (a : A) {r : Outcome (Unit {0}) × World W}
      (w : World W)
      → effect base ≡ returned (a, base)
      → Q a base
      → Connected sqlite base n init r
      → Transacted n init Q (((λ _. r) >>= λ _. finally (execute sqlite statement effect) close) w)
  unfolding execute
  query_ends n init Q statement effect a w h q (not_connected e rest) = rolled_back e rest
  query_ends n init Q statement effect a w h q (connected rest) =
      close_ends n init Q (idle base (suc n) init rest) (
        select_ends (suc n) init Q (sqlite.attempt statement rest).0 _ a
          (sqlite.attempt statement rest).1
          (ap (λ o. take_effect o (idle base (suc n) init (sqlite.attempt statement rest).1)) h) q)

  -- A query on a connection of its own.
  pub query-Transacted :
      (n : ℕ) (init : Bool) {A : Type 0} (Q : A → Database → Type 0) (store : SqliteEventStore)
      (statement : Statement) (effect : Database → Outcome (A × Database)) (a : A) (rest : W)
      → effect base ≡ returned (a, base)
      → Q a base
      → Transacted n init Q (
          (connect sqlite store >>= λ _. finally (execute sqlite statement effect) close)
            (idle base n init rest))
  query-Transacted n init Q store statement effect a rest h q =
      query_ends n init Q statement effect a (idle base n init rest) h q
        (connect-Connected sqlite base n init store rest)
