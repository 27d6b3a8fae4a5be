-- ===== src/Pool/Transactions.antt =====
-- Transactions: ThreadLocalPool.transaction of core/memory/connection_pool.py, and the guard around it
-- that EliteStore.transaction adds (core/memory/persistent_store.py) with its flag for the thread. The
-- tables are a type `D`; a connection is in autocommit unless a transaction is open.
use elite_reasoning_mcp.Prelude.{Bool, true, false, Option, none, some, if◌then◌else◌}

-- The connection of a thread: the tables as others see them, the tables of the open transaction, if
-- there is one, and the store's flag `in_transaction`.
pub record Session (D : Type 0) : Type 0 where
  pub committed : D
  pub working : Option D
  pub in_transaction : Bool

-- What a block under `with` does: SQL statements, which may raise, `conn.commit()`, blocks under
-- `with store.transaction()`, and blocks under `try: ... except Exception: pass`.
mutual
  pub data Action (D : Type 0) : Type 0 where
    statement : (D → Option D) → Action D
    commit : Action D
    nested : Block D → Action D
    attempt : Block D → Action D

  pub data Block (D : Type 0) : Type 0 where
    done : Block D
    step : Action D → Block D → Block D

-- Which of the statements BEGIN IMMEDIATE, COMMIT and ROLLBACK raise although they could be carried
-- out, such as on a database that is locked.
pub record Lock : Type 0 where
  pub begin_fails : Bool
  pub commit_fails : Bool
  pub rollback_fails : Bool

module _ {D : Type 0} where
  abbrev pub put_working : Session D → Option D → Bool × Session D
  put_working s none = (false, s)
  put_working s (some d) = (true, record s { working = some d })

  abbrev pub put_committed : Session D → Option D → Bool × Session D
  put_committed s none = (false, s)
  put_committed s (some d) = (true, record s { committed = d })

  -- A statement: whether it went through, and the session after it.
  unfoldable pub run_statement : (D → Option D) → Session D → Bool × Session D
  run_statement f s = elim s.working [
    | none ↦ put_committed s (f s.committed)
    | some w ↦ put_working s (f w)
  ]

  -- `conn.commit()`, which does nothing in autocommit
  unfoldable pub run_commit : Session D → Session D
  run_commit s = elim s.working [ none ↦ s | some w ↦ record s { committed = w; working = none } ]

  -- BEGIN IMMEDIATE, which raises inside of a transaction
  unfoldable pub begin_immediate : Lock → Session D → Bool × Session D
  begin_immediate lock s = elim s.working [
    | none ↦
        if lock.begin_fails then (false, s) else (true, record s { working = some s.committed })
    | some w ↦ (false, s)
  ]

  -- ROLLBACK, whose exception is suppressed
  unfoldable pub roll_back : Lock → Session D → Session D
  roll_back lock s = if lock.rollback_fails then s else record s { working = none }

  -- COMMIT, which raises if no transaction is open
  unfoldable pub commit_or_roll_back : Lock → Session D → Bool × Session D
  unfolding roll_back
  commit_or_roll_back lock s = elim s.working [
    | none ↦ (false, roll_back lock s)
    | some w ↦
        if lock.commit_fails
        then (false, roll_back lock s)
        else (true, record s { committed = w; working = none })
  ]

  -- ThreadLocalPool.transaction around a block
  unfoldable pub pool_transaction :
      Lock → (Session D → Bool × Session D) → Session D → Bool × Session D
  unfolding begin_immediate roll_back commit_or_roll_back
  pool_transaction lock block s =
      let (begun, open_session) = begin_immediate lock s in
      let (ended, after) = block open_session in
      if begun
      then if ended then commit_or_roll_back lock after else (false, roll_back lock after)
      else (false, roll_back lock open_session)

  -- EliteStore.transaction around a block
  unfoldable pub store_transaction :
      Lock → (Session D → Bool × Session D) → Session D → Bool × Session D
  unfolding pool_transaction
  store_transaction lock block s =
      let (ended, after) = pool_transaction lock block (record s { in_transaction = true }) in
      if s.in_transaction then block s else (ended, record after { in_transaction = false })

unfoldable mutual
  unfolding run_statement run_commit store_transaction

  pub run_action : {D : Type 0} → Lock → Action D → Session D → Bool × Session D
  run_action lock (statement f) s = run_statement f s
  run_action lock commit s = (true, run_commit s)
  run_action lock (nested block) s = store_transaction lock (run_block lock block) s
  run_action lock (attempt block) s = (true, (run_block lock block s).1)

  -- Whether the block came to its end, and the session after it.
  pub run_block : {D : Type 0} → Lock → Block D → Session D → Bool × Session D
  run_block lock done s = (true, s)
  run_block lock (step action block) s =
      let (ended, after) = run_action lock action s in
      let rest = run_block lock block after in if ended then rest else (false, after)
