-- ===== src/Pool/Atomic.antt =====
-- What a block does to the tables, without connections, and that a transaction does all of it or
-- nothing.
use elite_reasoning_mcp.Prelude.{
  ◌≡◌, refl, Bool, true, false, not, ◌&&◌, Option, none, some, inl, inr, arith, Bool-cases,
  if◌then◌else◌,
}
use elite_reasoning_mcp.Pool.Transactions.{
  Session, put_working, Action, statement, commit, nested, attempt, Block, done, step, Lock,
  run_statement, begin_immediate, roll_back, commit_or_roll_back, pool_transaction,
  store_transaction, run_action, run_block,
}

abbrev pub ended_with : {D : Type 0} → D → Option D → Bool × D
ended_with d none = (false, d)
ended_with d (some e) = (true, e)

-- Whether a block comes to its end, and the tables after it. A block that is caught keeps what it did
-- before it raised.
unfoldable mutual
  pub effect : {D : Type 0} → Action D → D → Bool × D
  effect (statement f) d = ended_with d (f d)
  effect commit d = (true, d)
  effect (nested block) d = effect_block block d
  effect (attempt block) d = (true, (effect_block block d).1)

  pub effect_block : {D : Type 0} → Block D → D → Bool × D
  effect_block done d = (true, d)
  effect_block (step action block) d =
      let (ended, e) = effect action d in
      let rest = effect_block block e in if ended then rest else (false, e)

-- Blocks that do not commit by themselves.
unfoldable mutual
  pub stays_open : {D : Type 0} → Action D → Bool
  stays_open (statement f) = true
  stays_open commit = false
  stays_open (nested block) = all_stay_open block
  stays_open (attempt block) = all_stay_open block

  pub all_stay_open : {D : Type 0} → Block D → Bool
  all_stay_open done = true
  all_stay_open (step action block) = stays_open action && all_stay_open block

module _ {D : Type 0} where
  abbrev pub idle : D → Session D
  idle d = record { committed = d; working = none; in_transaction = false }

  abbrev pub opened : D → D → Session D
  opened d w = record { committed = d; working = some w; in_transaction = true }

pub both : (a b : Bool) → (a && b) ≡ true → (a ≡ true) × (b ≡ true)
both a b h = ground (arith, h)

statement-opened :
    {D : Type 0} (d w : D) (o : Option D)
    → put_working (opened d w) o ≡ ((ended_with w o).0, opened d (ended_with w o).1)
statement-opened d w none = refl
statement-opened d w (some v) = refl

-- Inside of a transaction a block changes the tables of the transaction only.
mutual
  unfolding run_action run_block effect effect_block stays_open all_stay_open run_statement
      store_transaction

  run_action-opened :
      {D : Type 0} (lock : Lock) (action : Action D) (d w : D)
      → stays_open action ≡ true
      → run_action lock action (opened d w) ≡ ((effect action w).0, opened d (effect action w).1)
  run_action-opened lock (statement f) d w h = statement-opened d w (f w)
  run_action-opened lock commit d w h = absurd (ground (arith, h))
  run_action-opened lock (nested block) d w h = run_block-opened lock block d w h
  run_action-opened lock (attempt block) d w h = rw (run_block-opened lock block d w h) refl

  pub run_block-opened :
      {D : Type 0} (lock : Lock) (block : Block D) (d w : D)
      → all_stay_open block ≡ true
      → run_block lock block (opened d w)
        ≡ ((effect_block block w).0, opened d (effect_block block w).1)
  run_block-opened lock done d w h = refl
  run_block-opened lock (step action block) d w h =
      let (h', k) = both (stays_open action) (all_stay_open block) h in
      rw (run_action-opened lock action d w h') (elim (Bool-cases (effect action w).0) [
        | inl e ↦ rw e (run_block-opened lock block d (effect action w).1 k)
        | inr e ↦ rw e refl
      ])

abbrev outcome : {D : Type 0} → Bool → Bool → Bool → D → D → Bool × D
outcome begin_fails commit_fails ended d e =
    if not begin_fails && ended && not commit_fails then (ended, e) else (false, d)

transacted :
    {D : Type 0} (b c r e : Bool) (block : Session D → Bool × Session D) (d x : D)
    → r ≡ false
    → block (opened d d) ≡ (e, opened d x)
    → store_transaction
        (record { begin_fails = b; commit_fails = c; rollback_fails = r })
        block
        (idle d)
      ≡ ((outcome b c e d x).0, idle (outcome b c e d x).1)
unfolding store_transaction pool_transaction begin_immediate commit_or_roll_back roll_back
transacted b c true e block d x k h = absurd (ground (arith, k))
transacted true c false e block d x k h = refl
transacted false c false false block d x k h = rw h refl
transacted false true false true block d x k h = rw h refl
transacted false false false true block d x k h = rw h refl

-- All that a block does, if BEGIN and COMMIT can be carried out and the block comes to its end, and
-- nothing otherwise.
unfoldable pub all_or_nothing : {D : Type 0} → Lock → Block D → D → Bool × D
unfolding effect_block
all_or_nothing lock block d =
    if not lock.begin_fails && (effect_block block d).0 && not lock.commit_fails
    then effect_block block d
    else (false, d)

-- A transaction of the store, on a thread that has none, whose block does not commit by itself, and
-- whose ROLLBACK can be carried out: it comes to its end exactly if BEGIN, the block and COMMIT do, and
-- then the tables are those that the block makes, with what its caught blocks did before they raised;
-- otherwise it raises and the tables are as before. Either way the thread has no transaction after it.
pub store_transaction-Atomic :
    {D : Type 0} (lock : Lock) (block : Block D) (d : D)
    → all_stay_open block ≡ true
    → lock.rollback_fails ≡ false
    → store_transaction lock (run_block lock block) (idle d)
      ≡ ((all_or_nothing lock block d).0, idle (all_or_nothing lock block d).1)
unfolding all_or_nothing
store_transaction-Atomic lock block d h k =
    transacted lock.begin_fails lock.commit_fails lock.rollback_fails (effect_block block d).0
      (run_block lock block) d (effect_block block d).1 k (run_block-opened lock block d d h)
