-- ===== src/Lib.antt =====
-- Janus Graph keeps a queue of text episodes in an SQLite database, and a worker feeds them into
-- a knowledge graph on FalkorDB. This library models the core of it that decides what happens to
-- an episode, the two guards that stand before the graph database, and the nightly removal of
-- near-duplicates from the graph.
--
-- The parts, and the files that model them:
--
-- Hash (janus_graph/core/payload_hash.py): `canonical_payload_hash`, the content address of an
-- episode. sha256 over UTF-8 is the parameter `digest`.
--
-- Queue (janus_graph/pipeline/queue.py with janus_graph/core/dedup.py): the class `EpisodeQueue`.
-- Queue/Schema holds the tables as lists of records, in a record `Db`, with a flag that tells
-- whether the UNIQUE partial index could be created. Queue/Dedup: the index, the duplicate
-- lookups and `requeue_guarded`; Queue/Policy: `RetryPolicy` and `_policy_where_clause`;
-- Queue/Enqueue: `enqueue` with `_insert_sync`; Queue/Claim: `claim_next_batch`; Queue/Marks:
-- `mark_done`, `mark_failed`, `mark_aborted`, `update_checkpoint`, `mark_skipped_duplicate`;
-- Queue/Reap: `reap_stuck_processing` and `reap_failed_or_aborted`; Queue/Replay:
-- `replay_dlq_episode`, `replay_dlq_batch` and `dlq_refusal_reason`; Queue/Reports: what the
-- class reads only; Queue/Opening: `_init_db_sync` with the backfill of the canonical hashes.
-- Queue/Adapter (janus_graph/daemon/episode_queue_adapter.py): the daemon's writer of the same
-- tables, `enqueue_guarded`. Queue/Valid holds the invariant of the database, and Queue/History
-- interleaves the statements of any number of processes.
--
-- Worker (janus_graph/pipeline/worker.py and retry.py): `process_record` with the backstop and
-- the retry rules. It drives the queue through the definitions of Queue. Creating the client and
-- `add_episode` are one parameter `ingest`, which sees the call and answers with success, an
-- exception or the timeout.
--
-- Daemon/Breaker (janus_graph/daemon/circuit_breaker.py) and Daemon/Restart
-- (janus_graph/daemon/falkordb_restart_policy.py): the two state machines, each with a data type
-- of calls and a run over a list of them. An opening of the breaker calls `on_circuit_opened` of
-- the policy; the breaker's model logs the snapshots that its callback gets.
--
-- Cache (janus_graph/cache): `LRUCacheBackend` as the list of its entries, least recently used
-- first, and `EmbedCache` over it, with the wrapped embedder as a parameter.
--
-- Dream: the dream cycle. Phase 2 (janus_graph/pipeline/dedup.py and dedup_apply.py) folds
-- near-duplicate nodes of the graph. Dream/Similarity: `tokenize` and `jaccard`; Dream/Groups:
-- the dictionaries of lists; Dream/Planner, Dream/Redirect and Dream/Plan: `plan_dedup` with
-- `_pick_survivor`, `_root` (also `_root_map`) and `_collisions`; Dream/Episodics:
-- `plan_episodic_exact_dups`. Dream/Graph holds the graph as lists of nodes and edges, and the
-- Cypher statements as functions on it. Dream/Phases (A and B), Dream/Cleanup (C and D) and
-- Dream/Apply: `apply_plan`; Dream/Rewire, Dream/Fold, Dream/Undo and Dream/Episodic:
-- `apply_episodic_plan` with `_delete_mentions_by_uuid` and `_build_episodic_undo_rows`;
-- Dream/Phase2: `load_graph_snapshot` and `run_phase2_dedup`. Dream/Prune
-- (janus_graph/pipeline/dream_phases.py and dream_apply.py): phase 3, `plan_orphan_pruning` and
-- `run_phase3_prune`. Dream/Clustering: the label propagation of phase 1. Dream/Runs and
-- Dream/Cycle (janus_graph/pipeline/dream.py, with the tables in queue.py): the row of a run and
-- `run_dream_consolidation`, which opens the queue, calls phases 1 to 3 on the graph and the
-- reaper and the replay of Queue on the database; phase 4 may fail after any row. The planners
-- see only the snapshot, and the executors see only the plan and the graph. Every statement of
-- the graph takes its outcome from a list in the `World`: it works, it raises before it takes
-- effect, or it raises after, as when the answer is lost; so a process that dies is one whose
-- later statements all fail. A similarity is a fraction, SHA-1 and the writer of the undo rows
-- are parameters.
--
-- How the code is read. A timestamp is a number of microseconds, and readings of a clock are
-- arguments. SQL statements are functions on lists: WHERE is `filter`, UPDATE is `update`, ORDER
-- BY a stable sort, so rows with equal keys keep the table's order, and LIMIT is `take`; a limit
-- is a signed integer, since SQLite takes a negative one for none. An IntegrityError is `none` of
-- an Option or a constructor of a result type. A method is one step, except where the code leaves
-- a gap to other processes: between the duplicate check and the INSERT of `enqueue` and of
-- `enqueue_guarded`, between the SELECT and the UPDATE of `claim_next_batch`, and in the reapers
-- and the replays, which select their rows before any transaction begins. There each RELEASE of
-- an outermost savepoint commits, so there is a gap before each row and after its RELEASE, until
-- an UPDATE outside a savepoint opens the transaction that the method commits at its end. In the
-- gaps parameters (`others`, `Gaps`) change the database in any way. Queue/History has the pieces
-- between the gaps as its operations. The abort of a record reads its row in the same step in
-- Queue/Marks; in Queue/History its writes stand alone, with anything read before. Texts are
-- lists of character codes; `lower` is SQLite's and treats ASCII, `strip` and the words of
-- `tokenize` follow Python's Unicode tables. A JSON payload is what `payload.get` finds under the
-- four keys; null or another value that is no text is told apart under `content`, and counts as
-- missing under the others. Loops are structural recursion on the rows, calls or texts that the
-- code loops over, except three on fuel. The `while` of a cluster has as many rounds as the
-- cluster has nodes, since each merge takes one out; the walk of `_root` has one more than the
-- dictionary has entries, since each round visits another key; the deletion in batches has as
-- many as there are victims, since a batch, which is positive, takes one at least.
--
-- Not modelled: failures of the database other than IntegrityError, and log output; the creation
-- of tables, columns and plain indexes at opening; of phase 1 of the dream cycle, which only
-- reports, the components, the repair of a cycle and the hash; what the undo log holds after a
-- run, and what other processes write to the queue during a run outside the gaps of phase 4; the
-- configuration, whose values are arguments; fractional backoff factors; the `repeat_rate` and
-- the configured mode in two reports; the connection to the graph and the text of the reports of
-- phase 2, of whose error messages the kind is kept; properties and labels of the graph that
-- phase 2 does not name; custom extraction instructions, which the worker only passes on; the
-- exact text of a refusal, of which the code that it names is kept. The rest of the daemon, the
-- search and the command line are not part of this library.
pub mod Base
pub mod Hash
pub mod Queue
pub mod Daemon
pub mod Cache
pub mod Worker
pub mod Dream
