-- ===== src/SqliteEvents/Schema/Upgrade.antt =====
-- The transaction of `_initialize_sync`: what it commits, from each version of the schema.
use relprim.Prelude.{
  ℕ, zero, suc, ◌≡◌, refl, sym, ap, ◌∙◌, Bool, true, Option, none, some, arith, ltb,
}
use relprim.Prelude.Int.{pos, negsuc}
use relprim.Errors.{Exception}
use relprim.Outcome.{Interrupt, Outcome, returned, raised, interrupted, Action, lift, ◌>>=◌}
use relprim.SqliteEvents.Database.{
  execute_dml, Cell, integer, Database, Statement, World, Sqlite, execute, commit, unless,
}
use relprim.SqliteEvents.Database.Rules.{
  lift-Ends, idle, pending, Ends, done, failed, left, execute-Ends, bind-Ends,
}
use mathlib.Core.Path.{subst}
use relprim.SqliteEvents.Schema.{
  create_version_table, on_schema, in_transaction, read_schema_version, schema_version, migrate,
  create_schema_table, row_or_none, version_of, upgrade, migrations, migrate_to, record_version,
  create_events_table, create_index, migration_1,
}

-- A schema that counts as version 0.
pub data Fresh : Option (Option Cell) → Type 0 where
  no_table : Fresh none
  no_row : Fresh (some none)
  version_0 : Fresh (some (some (integer (pos zero))))

-- What an initialization commits: from version 0 the tables at version 1, with the events that there
-- are; from version 1 what there is.
pub data Upgraded (base : Database) : Database → Type 0 where
  created :
      Fresh base.schema
      → Upgraded base (create_events_table (record base { schema = some (some (integer (pos 1))) }))
  current : base.schema ≡ some (some (integer (pos 1))) → Upgraded base base

module _ {W : Type 0} (sqlite : Sqlite W) (base : Database) (n : ℕ) (init : Bool) where
  pub data Committed : Outcome (Unit {0}) × World W → Type 0 where
    committed :
        (d : Database) (rest : W) → Upgraded base d → Committed (returned tt, idle d n init rest)
    uncommitted :
        (e : Exception) (d : Database) (rest : W) → Committed (raised e, pending base n init d rest)
    abandoned :
        (i : Interrupt) (d : Database) (rest : W)
        → Committed (interrupted i, pending base n init d rest)

  rest-Committed :
      {A : Type 0} {Q : A → Database → Type 0} {r : Outcome A × World W}
      (f : A → Action (World W) (Unit {0})) (w : World W)
      → Ends sqlite base n init Q r
      → ((a : A) (d : Database) (rest : W) → Q a d → Committed (f a (pending base n init d rest)))
      → Committed (((λ _. r) >>= f) w)
  rest-Committed f w (done a d rest q) k = k a d rest q
  rest-Committed f w (failed e d rest) k = uncommitted e d rest
  rest-Committed f w (left i d rest) k = abandoned i d rest

  bind-Committed :
      {A : Type 0} (Q : A → Database → Type 0) (m : Action (World W) A)
      (f : A → Action (World W) (Unit {0})) (d : Database) (rest : W)
      → Ends sqlite base n init Q (m (pending base n init d rest))
      → ((a : A) (d' : Database) (rest' : W)
          → Q a d'
          → Committed (f a (pending base n init d' rest')))
      → Committed ((m >>= f) (pending base n init d rest))
  bind-Committed Q m f d rest h k = rest-Committed f (pending base n init d rest) h k

  unless-Committed :
      (fault : Option Exception) (body : Action (World W) (Unit {0})) (d : Database) (rest : W)
      → Committed (body (pending base n init d rest))
      → Committed (unless fault body (pending base n init d rest))
  unless-Committed (some e) body d rest h = uncommitted e d rest
  unless-Committed none body d rest h = h

  commit-Committed :
      (d : Database) (rest : W)
      → Upgraded base d
      → Committed (commit sqlite (pending base n init d rest))
  unfolding commit
  commit-Committed d rest u =
      unless-Committed (sqlite.attempt Statement.commit_transaction rest).0 _ d
        (sqlite.attempt Statement.commit_transaction rest).1
        (committed d (sqlite.attempt Statement.commit_transaction rest).1 u)

  -- A statement that leaves just the copy d'.
  abbrev Leaves : {A : Type 0} → Database → A → Database → Type 0
  Leaves d' _ d = d ≡ d'

  index_ends :
      (d : Database) (rest : W)
      → Ends sqlite base n init
          (Leaves (create_events_table d))
          (create_index sqlite (pending base n init (create_events_table d) rest))
  unfolding create_index
  index_ends d rest = execute-Ends sqlite base n init _ _ (create_events_table d) rest refl

  next_index :
      (d d' : Database) (rest : W)
      → d' ≡ create_events_table d
      → Ends sqlite base n init
          (Leaves (create_events_table d))
          (create_index sqlite (pending base n init d' rest))
  next_index d d' rest e = rw e (index_ends d rest)

  migration_ends :
      (d : Database) (rest : W)
      → Ends sqlite base n init
          (Leaves (create_events_table d))
          (migration_1 sqlite (pending base n init d rest))
  unfolding migration_1
  migration_ends d rest =
      bind-Ends sqlite base n init target
        (execute sqlite Statement.create_events (λ t. returned (tt, create_events_table t)))
        (λ _. index >>= λ _. index >>= λ _. index) d rest
        (execute-Ends sqlite base n init _ _ d rest refl)
        λ _ d1 rest1 e1.
          bind-Ends sqlite base n init target index (λ _. index >>= λ _. index) d1 rest1
            (next_index d d1 rest1 e1)
            λ _ d2 rest2 e2.
              bind-Ends sqlite base n init target index (λ _. index) d2 rest2
                (next_index d d2 rest2 e2) (λ _ d3 rest3 e3. next_index d d3 rest3 e3)
    where
      target : Unit {0} → Database → Type 0
      target = Leaves (create_events_table d)

      index : Action (World W) (Unit {0})
      index = create_index sqlite

  -- The copy with the version recorded.
  abbrev versioned : Database → Database
  versioned d = record d { schema = some (some (integer (pos 1))) }

  record_ends :
      (d : Database) (row : Option Cell) (rest : W)
      → d.schema ≡ some row
      → Ends sqlite base n init
          (Leaves (versioned d))
          (record_version sqlite 1 (pending base n init d rest))
  unfolding record_version execute_dml
  record_ends d row rest h = execute-Ends sqlite base n init _ _ d rest (rw h refl)

  migrate_ends :
      (d : Database) (row : Option Cell) (rest : W)
      → d.schema ≡ some row
      → Ends sqlite base n init
          (Leaves (versioned (create_events_table d)))
          (migrate_to sqlite 1 (pending base n init d rest))
  unfolding migrate_to migrations
  migrate_ends d row rest h =
      bind-Ends sqlite base n init (Leaves (create_events_table d)) (migration_1 sqlite)
        (λ _. record_version sqlite 1) d rest (migration_ends d rest)
        λ _ d1 rest1 e. rw e (record_ends (create_events_table d) row rest1 h)

  fresh :
      (schema : Option (Option Cell))
      → version_of sqlite (row_or_none schema) ≡ returned 0
      → Fresh schema
  unfolding version_of
  fresh none h = no_table
  fresh (some none) h = no_row
  fresh (some (some (integer (pos zero)))) h = version_0
  fresh (some (some (integer (pos (suc k))))) h = absurd (ground arith)
  fresh (some (some (integer (negsuc k)))) h = absurd (ground arith)
  fresh (some (some Cell.other_cell)) h = absurd (ground arith)

  up_to_date :
      (schema : Option (Option Cell))
      → version_of sqlite (row_or_none schema) ≡ returned 1
      → schema ≡ some (some (integer (pos 1)))
  unfolding version_of
  up_to_date schema h = ground arith

  kept : base.schema ≡ some (some (integer (pos 1))) → Upgraded base (create_schema_table base)
  kept h =
      subst (Upgraded base) (ap (λ schema. record base { schema = schema }) (old base.schema h))
        (current h)
    where
      old :
          (schema : Option (Option Cell))
          → schema ≡ some (some (integer (pos 1)))
          → schema ≡ some (row_or_none schema)
      old schema e = rw e refl

  newer : (k : ℕ) → ltb schema_version (suc (suc k)) ≡ true
  newer k = ground arith

  -- What `upgrade` commits, by the version that has been read.
  upgrade_commits :
      (v : ℕ) (rest : W)
      → version_of sqlite (row_or_none base.schema) ≡ returned v
      → Committed (upgrade sqlite v (pending base n init (create_schema_table base) rest))
  unfolding upgrade migrate
  upgrade_commits zero rest h =
      bind-Committed (Leaves (versioned (create_events_table base))) (migrate sqlite 1 1)
        (λ _. commit sqlite) (create_schema_table base) rest
        (bind-Ends sqlite base n init (Leaves (versioned (create_events_table base)))
          (migrate_to sqlite 1) (λ _. migrate sqlite 0 2) (create_schema_table base) rest
          (migrate_ends (create_schema_table base) (row_or_none base.schema) rest refl)
          (λ a d rest' e. done a d rest' e))
        λ _ d rest' e. rw e (
          commit-Committed (versioned (create_events_table base)) rest'
            (created (fresh base.schema h)))
  upgrade_commits (suc zero) rest h =
      commit-Committed (create_schema_table base) rest (kept (up_to_date base.schema h))
  upgrade_commits (suc (suc k)) rest h = rw (newer k) (uncommitted _ _ rest)

  read_ends :
      (d : Database) (row : Option Cell) (rest : W)
      → d.schema ≡ some row
      → Ends sqlite base n init
          (λ v d'. (version_of sqlite row ≡ returned v) × (d' ≡ d))
          (read_schema_version sqlite (pending base n init d rest))
  unfolding read_schema_version
  read_ends d row rest h =
      bind-Ends sqlite base n init (λ row' d'. (row' ≡ row) × (d' ≡ d))
        (execute sqlite Statement.select_version
          (λ t. on_schema sqlite (λ found. returned (found, t)) t))
        (λ found. lift (version_of sqlite found)) d rest
        (execute-Ends sqlite base n init _ _ d rest (rw h (refl, refl)))
        λ found d' rest' e.
          lift-Ends sqlite base n init (version_of sqlite found) d' rest'
            (λ v ev. (sym (ap (version_of sqlite) e.0) ∙ ev, e.1))

  -- The whole transaction.
  pub in_transaction-Committed :
      (rest : W) → Committed (in_transaction sqlite (pending base n init base rest))
  unfolding in_transaction create_version_table
  in_transaction-Committed rest =
      bind-Committed (Leaves (create_schema_table base)) (create_version_table sqlite)
        (λ _. read_schema_version sqlite >>= upgrade sqlite) base rest
        (execute-Ends sqlite base n init _ _ base rest refl)
        λ _ d1 rest1 e1. rw e1 (
          bind-Committed
            (λ v d'.
              (version_of sqlite (row_or_none base.schema) ≡ returned v)
              × (d' ≡ create_schema_table base))
            (read_schema_version sqlite) (upgrade sqlite) (create_schema_table base) rest1
            (read_ends (create_schema_table base) (row_or_none base.schema) rest1 refl)
            λ v d2 rest2 e2. rw e2.1 (upgrade_commits v rest2 e2.0))
