-- ===== src/SqliteEvents/Connection/Wal.antt =====
-- The switch to WAL ends, and how.
use relprim.Prelude.{
  ℕ, zero, suc, ◌+◌, ◌*◌, ◌/◌, ◌≤◌, ◌<◌, ◌≡◌, refl, sym, inl, inr, Bool, true, false, ◌||◌, Option,
  none, some, arith, leb, Bool-cases, leb→le,
}
use relprim.Values.{Duration}
use relprim.Errors.{Exception}
use relprim.Outcome.{Outcome, returned, raised, Action}
use relprim.SqliteEvents.Database.{Database, Statement, World, Sqlite, execute, unless}
use relprim.SqliteEvents.Database.Rules.{idle}
use relprim.SqliteEvents.Connection.{
  SqliteEventStore, retry_interval, with_mode, switched_mode, wal_rounds, unless_busy, wal_loop,
  looped, enable_wal,
}

-- Documented of time.monotonic and time.sleep: the clock never goes back, and a sleep lasts at least as
-- long as it is asked to.
pub record IsClock {W : Type 0} (sqlite : Sqlite W) : Type 0 where
  pub attempt_later :
      (statement : Statement) (rest : W)
      → sqlite.monotonic rest ≤ sqlite.monotonic (sqlite.attempt statement rest).1
  pub sleep_later :
      (d : Duration) (rest : W) → sqlite.monotonic rest + d ≤ sqlite.monotonic (sqlite.sleep d rest)

module _ {W : Type 0} (sqlite : Sqlite W) (base : Database) (n : ℕ) (init : Bool) where
  -- How the switch ends: the mode is WAL already, the pragma has been accepted, or there is an error of
  -- SQLite and an unchanged database. An error in reading the mode ends it at once, and one of the
  -- switch unless it says busy before the deadline.
  pub data Switched (deadline : ℕ) : Outcome (Unit {0}) × World W → Type 0 where
    already :
        (before rest : W)
        → base.wal ≡ true
        → sqlite.attempt Statement.journal_mode before ≡ (none, rest)
        → Switched deadline (returned tt, idle base n init rest)
    switched :
        (before rest : W)
        → sqlite.attempt Statement.set_wal before ≡ (none, rest)
        → Switched deadline (
          returned tt,
          idle (record base { wal = sqlite.switches_wal before || base.wal }) n init rest,
        )
    unreadable :
        (e : Exception) (before rest : W)
        → sqlite.attempt Statement.journal_mode before ≡ (some e, rest)
        → Switched deadline (raised e, idle base n init rest)
    refused :
        (e : Exception) (before rest : W)
        → sqlite.attempt Statement.set_wal before ≡ (some e, rest)
        → sqlite.busy e ≡ false
        → Switched deadline (raised e, idle base n init rest)
    too_late :
        (e : Exception) (before rest : W)
        → sqlite.attempt Statement.set_wal before ≡ (some e, rest)
        → sqlite.busy e ≡ true
        → deadline ≤ sqlite.monotonic rest
        → Switched deadline (raised e, idle base n init rest)

  abbrev IsSome : ℕ → Option (Outcome (Unit {0}) × World W) → Type 0
  IsSome deadline none = ⊥
  IsSome deadline (some r) = Switched deadline r

  switch_ends :
      (deadline : ℕ) (before rest : W) (fault : Option Exception)
      (body : Action (World W) (Unit {0})) (again : World W → Option (Outcome (Unit {0}) × World W))
      → sqlite.attempt Statement.set_wal before ≡ (fault, rest)
      → body (idle base n init rest) ≡ (
        returned tt,
        idle (record base { wal = sqlite.switches_wal before || base.wal }) n init rest,
      )
      → (sqlite.monotonic rest < deadline → IsSome deadline (again (idle base n init rest)))
      → IsSome deadline
          (unless_busy sqlite deadline (unless fault body (idle base n init rest)) again)
  switch_ends deadline before rest none body again q e h = rw e (switched before rest q)
  switch_ends deadline before rest (some e) body again q _ h = elim (Bool-cases (sqlite.busy e)) [
    | inr unbusy ↦ rw unbusy (refused e before rest q unbusy)
    | inl busy ↦ rw busy (elim (Bool-cases (leb deadline (sqlite.monotonic rest))) [
      | inl late ↦ rw late (too_late e before rest q busy (leb→le _ _ late))
      | inr early ↦ rw early (h (ground arith))
    ])
  ]

  mode_ends :
      (deadline : ℕ) (before rest : W) (fault : Option Exception) (mode : Bool)
      (body : Action (World W) Bool) (switch : World W → Option (Outcome (Unit {0}) × World W))
      → sqlite.attempt Statement.journal_mode before ≡ (fault, rest)
      → body (idle base n init rest) ≡ (returned mode, idle base n init rest)
      → mode ≡ base.wal
      → IsSome deadline (switch (idle base n init rest))
      → IsSome deadline (with_mode sqlite (unless fault body (idle base n init rest)) switch)
  mode_ends deadline before rest (some e) mode body switch q _ same h = unreadable e before rest q
  mode_ends deadline before rest none true body switch q e same h =
      rw e (already before rest (sym same) q)
  mode_ends deadline before rest none false body switch q e same h = rw e h

  round_ends :
      IsClock sqlite
      → (deadline : ℕ) (rest : W) (again : World W → Option (Outcome (Unit {0}) × World W))
      → ((later : W)
          → sqlite.monotonic rest ≤ sqlite.monotonic later
          → sqlite.monotonic later < deadline
          → IsSome deadline (again (idle base n init later)))
      → IsSome deadline (
          with_mode sqlite
            (execute sqlite Statement.journal_mode
              (λ d. returned (d.wal, d))
              (idle base n init rest))
            λ w.
              unless_busy sqlite deadline
                (execute sqlite Statement.set_wal (switched_mode sqlite w.rest) w)
                again)
  unfolding execute
  round_ends clock deadline rest again h =
      let read = sqlite.attempt Statement.journal_mode rest in
      let switch = sqlite.attempt Statement.set_wal read.1 in
      let first = clock.attempt_later Statement.journal_mode rest in
      let second = clock.attempt_later Statement.set_wal read.1 in
      mode_ends deadline rest read.1 read.0 base.wal _ _ refl refl refl
        (switch_ends deadline read.1 switch.1 switch.0 _ again refl refl (h switch.1 (omega arith)))

  loop_ends :
      IsClock sqlite
      → (rounds deadline : ℕ) (rest : W)
      → deadline ≤ sqlite.monotonic rest + rounds * retry_interval
      → IsSome deadline (wal_loop sqlite (suc rounds) deadline (idle base n init rest))
  unfolding wal_loop
  loop_ends clock zero deadline rest h =
      round_ends clock deadline rest _ λ later passed early. absurd (omega arith)
  loop_ends clock (suc rounds) deadline rest h =
      round_ends clock deadline rest _ λ later passed early.
        loop_ends clock rounds deadline (sqlite.sleep retry_interval later)
          (omega (arith, clock.sleep_later retry_interval later))

  result_Switched :
      (deadline : ℕ) (w : World W) (r : Option (Outcome (Unit {0}) × World W))
      → IsSome deadline r
      → (r ≡ some (looped sqlite w r)) × Switched deadline (looped sqlite w r)
  result_Switched deadline w (some r) h = (refl, h)
  result_Switched deadline w none h = absurd h

  -- For any faults of SQLite, on a clock that keeps its promise, the loop that switches to WAL ends
  -- within its rounds: with the mode WAL already, once SQLite accepts the switch, or with an error
  -- and an unchanged database. That error is one of reading the mode, or one of the switch which
  -- does not say busy, or which says so when busy_timeout_seconds have passed.
  pub enable_wal-Switched :
      IsClock sqlite
      → (store : SqliteEventStore) (rest : W)
      → let deadline = sqlite.monotonic rest + store.busy_timeout_seconds in
        let w = idle base n init rest in
        (wal_loop sqlite (wal_rounds sqlite store) deadline w ≡ some (enable_wal sqlite store w))
        × Switched deadline (enable_wal sqlite store w)
  unfolding enable_wal
  enable_wal-Switched clock store rest =
      result_Switched (sqlite.monotonic rest + store.busy_timeout_seconds) (idle base n init rest) _
        (loop_ends clock (suc (store.busy_timeout_seconds / retry_interval)) _ rest (omega arith))
