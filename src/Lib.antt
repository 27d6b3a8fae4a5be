-- ===== src/Lib.antt =====
-- Elite Reasoning MCP: a server that keeps the work of a coding agent honest. It plans a run, tells
-- the host which check comes next, records the evidence of each check, and lets a final answer
-- through only when the recorded evidence is complete and bound to the present state of the
-- repository. This library models the part of the Python sources (below core/) that decides:
--
-- * Workflow (core/memory/persistent_store.py, record_workflow_run to update_workflow_step): the
--   tables of runs, steps and evidence as lists of rows. Workflow/Rows holds the rows; a method of
--   EliteStore is the function of the same name, from the tables before to those after. Workflow/
--   Status, Integrity, Records and Recording hold the proofs.
-- * Continuity (core/orchestration/continuity.py): next_continuation, the state machine that reads
--   the evidence listing of a run and names the next check. Continuity/Ready says when it is through,
--   Due which checks are due, Progress that a host which follows it gets there, Failure what a later
--   failed check does.
-- * GitDiff (core/verification/git_diff.py): verify_git_diff. GitDiff/Paths has the normalisation of
--   paths, Entries the parser of `git status`, States the records, Sentences the texts of the reasons, Tampering
--   check_test_tampering; the proofs are in Judge, Scope, Porcelain, Inside, Materials and Aliases.
--   Verification has the four outcomes of a check (core/verification/models.py).
-- * Gate (core/verification/registry.py): _repository_snapshot and _gate_outcomes, which read the
--   evidence of Workflow, verify the scope by GitDiff, and hold both against the present state of the
--   repository. Gate/Checks, Supported, Recorded, Unmet and Policy hold the proofs.
-- * Command (core/verification/command.py): the test commands that the server runs. Command/Launches
--   says which processes are launched, Command/Success when a command counts as passed.
-- * Draft (core/reasoning/constraint_check.py): the lexical checks of a draft, whose regular
--   expressions are the scanners of Draft/Patterns; the proofs are in Met, Report, Terms and Scope.
-- * Playbook (core/reasoning/playbook.py): the calls and outcomes that a contract asks for, and
--   verify_outcomes; Playbook/Plan has the proof.
-- * Verifiers (core/verification/registry.py, the verifiers of the checks constraints, outcomes, tests
--   and diff): Verifiers/Requests has the records and the contract that a request is held against
--   (core/reasoning/task_contract.py, contract_from_dict); Contracts and TestEvidence the proofs.
-- * Gateway (core/tools/gateway.py, elite_verify) and MemoryTool (the same file, elite_memory): what a
--   host calls. Gateway/Tables has the records; Recording, Held and Steps hold the proofs, and
--   Gate/Prefixes and Gate/Held the part that is about the gate; MemoryTool/Kept is about the memory.
-- * Registry (core/verification/registry.py, VerifierRegistry): which verifier checks a requirement;
--   Registry/Kinds and Registry/Results hold the proofs.
-- * Requirements (core/verification/constraints.py, completeness.py and test_command.py): three of the
--   verifiers of the registry; the proofs are in Bound and Commands.
-- * Middleware (core/middleware/base.py, fallback.py, chain.py and core/tools/errors.py): what a call
--   of a tool goes through. Middleware/Retry has the loop of attempts and Attempts the calls behind
--   it, Chain the whole of MiddlewareChain.wrap; Chain/Calls and Chain/Onion hold the proofs.
-- * Memory (core/memory/persistent_store.py, record_memory_item to delete_memory_item): the long-term
--   memory and its quarantine. Memory/Rows has the rows; the proofs are in Safety, Search, Recording.
-- * Prevention (core/middleware/prevention.py, and the methods of core/memory/persistent_store.py on
--   prevention_rules): Prevention/Rows has the table, Bus the event bus, Prevention itself the hooks,
--   which are a Middleware; the proofs are in Index, Counting, Names, Kept and Hooks.
-- * Reasoning (core/memory/persistent_store.py, record_thought to conclude_branch): the traces of
--   thoughts and their branches; Reasoning/Links and Reasoning/Branches hold the proofs.
-- * Rules (core/learning/rule_lifecycle.py): the life of a prevention rule. Rules/States has the rows and the transitions;
--   the proofs are in Transitions, Ticks and Settled.
-- * Pool (core/memory/connection_pool.py, and the guard of transactions in persistent_store.py): the
--   connections of the threads, whose proof is in Pool/Owners, and Pool/Transactions, whose proofs are in
--   Atomic and Early.
-- * Prelude (no code of its own): names passed on, Boolean tests on numbers (Tests), lists (Lists, Nil), the sort of ORDER
--   BY and `sorted` (Sort) and the methods of Python texts (Text).
--
-- How they fit together: a host calls Gateway, which runs a check of Verifiers, records its evidence by
-- Workflow, and answers with the next directive of Continuity. The check "tests" runs a Command and
-- binds its evidence to the text that GitDiff computes of the working tree; the check "outcomes" is the
-- Draft's, held by Gate against what Workflow stored and what GitDiff says now. Every tool call comes
-- through Middleware, of which Prevention is one; Registry asks the verifiers of Requirements; and a
-- write of several tables goes through a transaction of Pool.
--
-- What is an argument: the redaction of core/privacy.py and the round trip of JSON through a column
-- (`Boundary`, `Privacy`), the digests of SHA-256, Python's `repr`, what Git and the file system answer
-- (`Git`), the clock, the processes and the environment (`System`, `CommandHost`), which accesses to
-- the database raise (`World`, `Answers`, `Lock`), the compiler of prompts into contracts
-- (core/reasoning/task_contract.py, compile_task_contract), the verifiers that Verifiers and
-- Requirements leave out, and the tools and hooks that Middleware wraps, with the state that they
-- change.
--
-- Bounds and units: times are seconds, or the code's texts where it compares texts; delays are
-- milliseconds; confidence and trust are hundredths, so floats in between, negative ones and NaN are
-- not modelled. Numbers have no upper bound, as in Python. `lower` maps the letters A to Z only. The
-- loop of attempts has one round of fuel more than there are retries, which is shown to be enough;
-- all other loops are structural.
--
-- Not modelled: the locks of SQLite and, outside of Prevention and Pool, its errors but for a key
-- that is there already; exceptions of subprocess.run that the code does not catch; the cut and the
-- redaction of core/privacy.py, which are arguments; texts with surrogates; and methods of the
-- other modules inside of a transaction (each method runs by itself; in Reasoning each statement
-- commits by itself, as with the pool), the schema and its migrations, logging, embeddings and
-- vector search, the network, the MCP protocol, the evaluation harness, and the reasoning prompts.
pub mod Prelude
pub mod Rules
pub mod Workflow
pub mod Command
pub mod Continuity
pub mod Memory
pub mod Reasoning
pub mod Verification
pub mod GitDiff
pub mod Gate
pub mod Registry
pub mod Middleware
pub mod Draft
pub mod Playbook
pub mod Verifiers
pub mod Gateway
pub mod MemoryTool
pub mod Prevention
pub mod Pool
pub mod Requirements
