-- ===== src/Pool/Tests.antt =====
-- Runs of the pool with two threads and of transactions over one number, and the examples of the
-- theorems.
use elite_reasoning_mcp.Prelude.{
  ℕ, zero, suc, ◌+◌, ◌≡◌, refl, true, false, Option, none, some, [], ◌∷◌,
}
use elite_reasoning_mcp.Pool.{
  Connections, Answers, remove_first, discard, open_connection, get_connection, close_thread,
  close_all, end_thread, no_connections,
}
use elite_reasoning_mcp.Pool.Transactions.{
  Session, Action, statement, commit, nested, attempt, Block, done, step, Lock, run_statement,
  run_commit, begin_immediate, roll_back, commit_or_roll_back, pool_transaction, store_transaction,
  run_action, run_block,
}
use elite_reasoning_mcp.Pool.Atomic.{
  effect, effect_block, stays_open, all_stay_open, all_or_nothing, idle, opened,
  store_transaction-Atomic,
}
use elite_reasoning_mcp.Pool.Early.{autocommit, store_transaction-committed_early}
use elite_reasoning_mcp.Pool.Owners.{get, Reach, start, then_step, IsOwned, Reach-IsOwned}

program : Unit {0}
unfolding remove_first discard open_connection get_connection close_thread close_all end_thread
    run_statement run_commit begin_immediate roll_back commit_or_roll_back pool_transaction
    store_transaction run_action effect stays_open all_or_nothing
program = tt

abbrev fine : Answers
fine = record { alive = true; connected = true; configured = true }

abbrev stale : Answers
stale = record { alive = false; connected = true; configured = true }

abbrev free : Lock
free = record { begin_fails = false; commit_fails = false; rollback_fails = false }

-- adds to the number, which may not become larger than 9
abbrev small : ℕ → Option ℕ
small zero = some 3
small (suc n) = none

abbrev add : ℕ → Action ℕ
add n = statement (λ d. some (d + n))

abbrev refuse : Action ℕ
refuse = statement small

-- The second thread's connection is replaced when it is found stale.
abbrev two_threads : Connections
two_threads =
    (get_connection 2 stale (get_connection 2 fine (get_connection 1 fine no_connections).1).1).1

threads_run :
    (two_threads.all_connections ≡ 0 ∷ 2 ∷ [])
    × (two_threads.local 2 ≡ some 2)
    × ((get_connection 1 fine two_threads).0 ≡ some 0)
    × ((close_thread 1 two_threads).all_connections ≡ 2 ∷ [])
unfolding program
threads_run = (refl, refl, refl, refl)

-- A block that raises leaves the number as it was; one that is caught inside of another keeps its part.
abbrev raising : Block ℕ
raising = step (add 1) (step refuse done)

abbrev catching : Block ℕ
catching = step (attempt raising) (step (nested (step (add 5) done)) done)

abbrev halfway : Session ℕ
halfway = opened 7 8

transaction_run :
    (store_transaction free (run_block free raising) (idle 7) ≡ (false, idle 7))
    × (store_transaction free (run_block free catching) (idle 7) ≡ (true, idle 13))
    × (pool_transaction free (run_block free done) halfway ≡ (false, autocommit 7))
unfolding program
transaction_run = (refl, refl, refl)

catching_stays : all_stay_open catching ≡ true
unfolding program
catching_stays = refl

store_transaction-Atomic_example :
    store_transaction free (run_block free catching) (idle 7)
    ≡ ((all_or_nothing free catching 7).0, idle (all_or_nothing free catching 7).1)
store_transaction-Atomic_example = store_transaction-Atomic free catching 7 catching_stays refl

abbrev adding : Block ℕ
adding = step (add 1) done

adding_stays :
    (all_stay_open adding ≡ true)
    × (all_stay_open raising ≡ true)
    × ((effect_block adding 7).0 ≡ true)
unfolding program
adding_stays = (refl, refl, refl)

store_transaction-committed_early_example :
    store_transaction free (run_block free (step (nested adding) (step commit raising))) (idle 7)
    ≡ (false, idle (effect_block raising (effect_block adding 7).1).1)
store_transaction-committed_early_example =
    store_transaction-committed_early free adding raising 7 adding_stays.0 adding_stays.1
      adding_stays.2 refl refl

two_threads-Reach : Reach two_threads
two_threads-Reach = then_step (then_step (then_step start (get 1 fine)) (get 2 fine)) (get 2 stale)

Reach-IsOwned_example : IsOwned two_threads
Reach-IsOwned_example = Reach-IsOwned two_threads-Reach
