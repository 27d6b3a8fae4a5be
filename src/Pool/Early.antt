-- ===== src/Pool/Early.antt =====
-- A block that commits in the middle of a transaction.
use elite_reasoning_mcp.Prelude.{
  ◌≡◌, refl, ◌∙◌, Bool, true, false, Option, none, some, inl, inr, arith, Bool-cases,
}
use elite_reasoning_mcp.Pool.Transactions.{
  Session, put_committed, Action, statement, commit, nested, attempt, Block, done, step, Lock,
  run_statement, run_commit, begin_immediate, roll_back, commit_or_roll_back, pool_transaction,
  store_transaction, run_action, run_block,
}
use elite_reasoning_mcp.Pool.Atomic.{
  effect, effect_block, stays_open, all_stay_open, idle, opened, both, ended_with, run_block-opened,
}

abbrev pub autocommit : {D : Type 0} → D → Session D
autocommit d = record { committed = d; working = none; in_transaction = true }

statement-saved :
    {D : Type 0} (d : D) (o : Option D)
    → put_committed (autocommit d) o ≡ ((ended_with d o).0, autocommit (ended_with d o).1)
statement-saved d none = refl
statement-saved d (some v) = refl

-- In autocommit each statement is kept at once.
mutual
  unfolding run_action run_block effect effect_block stays_open all_stay_open run_statement
      store_transaction

  run_action-saved :
      {D : Type 0} (lock : Lock) (action : Action D) (d : D)
      → stays_open action ≡ true
      → run_action lock action (autocommit d)
        ≡ ((effect action d).0, autocommit (effect action d).1)
  run_action-saved lock (statement f) d h = statement-saved d (f d)
  run_action-saved lock commit d h = absurd (ground (arith, h))
  run_action-saved lock (nested block) d h = run_block-saved lock block d h
  run_action-saved lock (attempt block) d h = rw (run_block-saved lock block d h) refl

  run_block-saved :
      {D : Type 0} (lock : Lock) (block : Block D) (d : D)
      → all_stay_open block ≡ true
      → run_block lock block (autocommit d)
        ≡ ((effect_block block d).0, autocommit (effect_block block d).1)
  run_block-saved lock done d h = refl
  run_block-saved lock (step action block) d h =
      let (h', k) = both (stays_open action) (all_stay_open block) h in
      rw (run_action-saved lock action d h') (elim (Bool-cases (effect action d).0) [
        | inl e ↦ rw e (run_block-saved lock block (effect action d).1 k)
        | inr e ↦ rw e refl
      ])

split_transaction :
    {D : Type 0} (b c r e : Bool) (block : Session D → Bool × Session D) (d x : D)
    → b ≡ false
    → r ≡ false
    → block (opened d d) ≡ (e, autocommit x)
    → store_transaction
        (record { begin_fails = b; commit_fails = c; rollback_fails = r })
        block
        (idle d)
      ≡ (false, idle x)
unfolding store_transaction pool_transaction begin_immediate commit_or_roll_back roll_back
split_transaction true c r e block d x g k h = absurd (ground (arith, g))
split_transaction false c true e block d x g k h = absurd (ground (arith, k))
split_transaction false c false true block d x g k h = rw h refl
split_transaction false c false false block d x g k h = rw h refl

run_block-then :
    {D : Type 0} (lock : Lock) (action : Action D) (block : Block D) (s t : Session D)
    → run_action lock action s ≡ (true, t)
    → run_block lock (step action block) s ≡ run_block lock block t
unfolding run_block
run_block-then lock action block s t h = rw h refl

nested-opened :
    {D : Type 0} (lock : Lock) (block : Block D) (d : D)
    → all_stay_open block ≡ true
    → (effect_block block d).0 ≡ true
    → run_action lock (nested block) (opened d d) ≡ (true, opened d (effect_block block d).1)
unfolding run_action store_transaction
nested-opened lock block d h e = run_block-opened lock block d d h ∙ rw e refl

commit-opened :
    {D : Type 0} (lock : Lock) (d w : D)
    → run_action lock commit (opened d w) ≡ (true, autocommit w)
unfolding run_action run_commit
commit-opened lock d w = refl

split_block :
    {D : Type 0} (lock : Lock) (first second : Block D) (d : D)
    → all_stay_open first ≡ true
    → all_stay_open second ≡ true
    → (effect_block first d).0 ≡ true
    → run_block lock (step (nested first) (step commit second)) (opened d d) ≡ (
      (effect_block second (effect_block first d).1).0,
      autocommit (effect_block second (effect_block first d).1).1,
    )
split_block lock first second d h k e =
    let w = (effect_block first d).1 in
    run_block-then lock (nested first) (step commit second) (opened d d) (opened d w)
      (nested-opened lock first d h e)
    ∙ (run_block-then lock commit second (opened d w) (autocommit w) (commit-opened lock d w)
        ∙ run_block-saved lock second w k)

-- A transaction of the store whose block does a part to its end, then commits by itself and does a
-- second part, where BEGIN and ROLLBACK can be carried out: it raises in any case, and nevertheless the
-- tables keep all that both parts did.
pub store_transaction-committed_early :
    {D : Type 0} (lock : Lock) (first second : Block D) (d : D)
    → all_stay_open first ≡ true
    → all_stay_open second ≡ true
    → (effect_block first d).0 ≡ true
    → lock.begin_fails ≡ false
    → lock.rollback_fails ≡ false
    → store_transaction lock (run_block lock (step (nested first) (step commit second))) (idle d)
      ≡ (false, idle (effect_block second (effect_block first d).1).1)
store_transaction-committed_early lock first second d h k e b r =
    split_transaction lock.begin_fails lock.commit_fails lock.rollback_fails
      (effect_block second (effect_block first d).1).0
      (run_block lock (step (nested first) (step commit second))) d
      (effect_block second (effect_block first d).1).1 b r (split_block lock first second d h k e)
