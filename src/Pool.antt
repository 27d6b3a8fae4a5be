-- ===== src/Pool.antt =====
-- core/memory/connection_pool.py: ThreadLocalPool, the connections of the threads. A thread and a
-- connection are numbers; `next` is the number that the next connection gets. What SQLite answers is
-- the argument `Answers`. A step of Pool/Owners is one method on one thread: the list is only changed
-- under the lock, and a thread touches its own entry of `_local` only, but for close_all.
pub mod Transactions
pub mod Atomic
pub mod Early
pub mod Owners
mod Tests
use elite_reasoning_mcp.Prelude.{
  ℕ, suc, Bool, Option, none, some, List, [], ◌∷◌, ◌++◌, ◌==◌, if◌then◌else◌,
}

pub record Connections : Type 0 where
  pub local : ℕ → Option ℕ
  pub all_connections : List ℕ
  pub next : ℕ

-- Whether `SELECT 1` goes through, `sqlite3.connect` does, and the PRAGMA statements do.
pub record Answers : Type 0 where
  pub alive : Bool
  pub connected : Bool
  pub configured : Bool

-- `self._local.conn = conn` on a thread
abbrev pub set_local : ℕ → Option ℕ → (ℕ → Option ℕ) → ℕ → Option ℕ
set_local thread conn local t = if t == thread then conn else local t

-- `list.remove`, whose ValueError is suppressed
unfoldable pub remove_first : ℕ → List ℕ → List ℕ
remove_first c [] = []
remove_first c (d ∷ ds) = if d == c then ds else d ∷ remove_first c ds

unfoldable pub discard : ℕ → ℕ → Connections → Connections
unfolding remove_first
discard thread conn p = record p {
  local = set_local thread none p.local;
  all_connections = remove_first conn p.all_connections;
}

-- `none` stands for an exception.
unfoldable pub open_connection : ℕ → Answers → Connections → Option ℕ × Connections
open_connection thread a p =
    if a.connected
    then if a.configured
      then (
        some p.next,
        record {
          local = set_local thread (some p.next) p.local;
          all_connections = p.all_connections ++ p.next ∷ [];
          next = suc p.next;
        },
      )
      else (none, record p { next = suc p.next })
    else (none, p)

unfoldable pub get_connection : ℕ → Answers → Connections → Option ℕ × Connections
unfolding discard open_connection
get_connection thread a p = elim (p.local thread) [
  | none ↦ open_connection thread a p
  | some conn ↦ if a.alive then (some conn, p) else open_connection thread a (discard thread conn p)
]

unfoldable pub close_thread : ℕ → Connections → Connections
unfolding discard
close_thread thread p = elim (p.local thread) [ none ↦ p | some conn ↦ discard thread conn p ]

unfoldable pub close_all : Connections → Connections
close_all p = record p { local = λ t. none; all_connections = [] }

-- A thread that ends loses its entry of `_local`.
unfoldable pub end_thread : ℕ → Connections → Connections
end_thread thread p = record p { local = set_local thread none p.local }

abbrev pub no_connections : Connections
no_connections = record { local = λ t. none; all_connections = []; next = 0 }
