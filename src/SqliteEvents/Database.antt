-- ===== src/SqliteEvents/Database.antt =====
-- What src/relprim/sqlite_events.py uses of sqlite3: the tables, transactions, and the statements of
-- the file. Any statement may fail before it has an effect, as the argument `attempt` says.
pub mod Rules
use relprim.Prelude.{ℕ, zero, suc, String, Bool, Option, none, some, List}
use relprim.Prelude.Int.{ℤ}
use relprim.Values.{Duration}
use relprim.Errors.{Exception}
use relprim.Outcome.{Outcome, returned, raised, interrupted, Action, pure, ◌>>=◌}
use relprim.SqliteEvents.Encoding.{PayloadText}

-- A row of relprim_events. Of a text the model keeps what it spells: of the timestamp the instant in
-- UTC, whose fixed width makes the order of the texts that of the instants; of the payload the JSON.
pub record Row : Type 0 where
  pub sequence_id : ℕ
  pub event_type : String
  pub operation_name : String
  pub timestamp : ℤ
  pub payload_json : PayloadText

-- relprim_events in the order of its INTEGER PRIMARY KEY, with the entry of sqlite_sequence.
pub record EventTable : Type 0 where
  pub rows : List Row
  pub sequence : ℕ

-- What a column without a strict type can hold.
pub data Cell : Type 0 where
  integer : ℤ → Cell
  other_cell : Cell

-- For each table none where it does not exist; the schema table has at most one row of interest.
pub record Database : Type 0 where
  pub wal : Bool
  pub schema : Option (Option Cell)
  pub events : Option EventTable

pub data Statement : Type 0 where
  connect busy_timeout : Statement
  journal_mode set_wal begin_immediate commit_transaction : Statement
  create_schema select_version replace_version : Statement
  create_events create_index : Statement
  insert_event select_events delete_events : Statement

-- The database file, the transaction of the connection in use, how many connections are open, the
-- flag `_initialized` of the store, and whatever else there is.
pub record World (W : Type 0) : Type 0 where
  pub database : Database
  pub transaction : Option Database
  pub open_connections : ℕ
  pub initialized : Bool
  pub rest : W

-- What is outside: whether a statement fails, whether the pragma switches to WAL where it does not
-- fail, the exceptions of sqlite3, and the clock.
pub record Sqlite (W : Type 0) : Type 0 where
  pub attempt : Statement → W → Option Exception × W
  pub switches_wal : W → Bool
  -- An OperationalError with the code SQLITE_BUSY or SQLITE_LOCKED.
  pub busy : Exception → Bool
  pub no_such_table : Exception
  pub database_full : Exception
  -- The answer to a query one of whose values has not the type of its column, or has no place.
  pub mismatched : List Row → Outcome (List Row)
  pub monotonic : W → ℕ
  pub sleep : Duration → W → W

abbrev pub one_less : ℕ → ℕ
one_less zero = zero
one_less (suc n) = n

module _ {W : Type 0} where
  -- What the connection sees.
  abbrev pub view : World W → Database
  view w = elim w.transaction [ none ↦ w.database | some d ↦ d ]

  abbrev pub write : Database → World W → World W
  write d w = elim w.transaction [
    | none ↦ record w { database = d }
    | some _ ↦ record w { transaction = some d }
  ]

  -- The effect of a statement that is run: it fails and changes nothing, or succeeds.
  abbrev pub take_effect : {A : Type 0} → Outcome (A × Database) → Action (World W) A
  take_effect (returned (a, d)) w = (returned a, write d w)
  take_effect (raised e) w = (raised e, w)
  take_effect (interrupted i) w = (interrupted i, w)

  -- A statement that is attempted fails, or has its effect on the world after the attempt.
  abbrev pub unless : {A : Type 0} → Option Exception → Action (World W) A → Action (World W) A
  unless (some e) body w = (raised e, w)
  unless none body w = body w

  abbrev pub attempted :
      {A : Type 0} → Sqlite W → Statement → Action (World W) A → Action (World W) A
  attempted sqlite statement body w =
      let (fault, rest) = sqlite.attempt statement w.rest in
      unless fault body (record w { rest = rest })

  unfoldable pub execute :
      {A : Type 0} → Sqlite W → Statement → (Database → Outcome (A × Database)) → Action (World W) A
  execute sqlite statement effect =
      attempted sqlite statement (λ w. take_effect (effect (view w)) w)

  -- Before INSERT, REPLACE and DELETE a connection opens a transaction by itself.
  abbrev pub implicit_begin : World W → World W
  implicit_begin w = elim w.transaction [
    | none ↦ record w { transaction = some w.database }
    | some d ↦ w
  ]

  unfoldable pub execute_dml :
      {A : Type 0} → Sqlite W → Statement → (Database → Outcome (A × Database)) → Action (World W) A
  execute_dml sqlite statement effect w = execute sqlite statement effect (implicit_begin w)

  -- BEGIN IMMEDIATE
  unfoldable pub begin : Sqlite W → Action (World W) (Unit {0})
  begin sqlite =
      attempted sqlite begin_immediate
        (λ w. (returned tt, record w { transaction = some w.database }))

  -- connection.commit()
  unfoldable pub commit : Sqlite W → Action (World W) (Unit {0})
  commit sqlite =
      attempted sqlite commit_transaction
        (λ w. (returned tt, record w { database = view w; transaction = none }))

  -- connection.rollback()
  unfoldable pub rollback : World W → World W
  rollback w = record w { transaction = none }

  -- connection.close(), which drops an open transaction.
  unfoldable pub close : World W → World W
  close w = record w { transaction = none; open_connections = one_less w.open_connections }

  -- sqlite3.connect(...)
  unfoldable pub open_connection : Sqlite W → Action (World W) (Unit {0})
  open_connection sqlite =
      attempted sqlite connect
        (λ w. (returned tt, record w { open_connections = suc w.open_connections }))

  -- `except Exception: cleanup; raise`
  abbrev pub on_exception :
      {A : Type 0} → Action (World W) A → (World W → World W) → Action (World W) A
  on_exception body cleanup w =
      let (o, w') = body w in
      elim o [
        | raised e ↦ (raised e, cleanup w')
        | returned a ↦ (returned a, w')
        | interrupted i ↦ (interrupted i, w')
      ]

  -- `except BaseException: cleanup; raise`
  abbrev pub on_base_exception :
      {A : Type 0} → Action (World W) A → (World W → World W) → Action (World W) A
  on_base_exception body cleanup w =
      let (o, w') = body w in
      elim o [
        | raised e ↦ (raised e, cleanup w')
        | returned a ↦ (returned a, w')
        | interrupted i ↦ (interrupted i, cleanup w')
      ]

  -- `finally: cleanup`
  abbrev pub finally : {A : Type 0} → Action (World W) A → (World W → World W) → Action (World W) A
  finally body cleanup w = let (o, w') = body w in (o, cleanup w')

  -- `with connection:` around a body: it commits, or rolls back, also where the commit fails.
  unfoldable pub with_connection : {A : Type 0} → Sqlite W → Action (World W) A → Action (World W) A
  unfolding commit rollback
  with_connection sqlite body =
      on_base_exception (body >>= λ a. commit sqlite >>= λ _. pure a) rollback
