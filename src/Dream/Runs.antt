-- ===== src/Dream/Runs.antt =====
-- The table dream_runs and the undo log of folded episodes, with their writers in `EpisodeQueue`
-- (janus_graph/pipeline/queue.py). Of the text of a phase's status its first word is kept.
use janus_graph.Base.{
  ℕ, Text, text_eq, List, [], ◌∷◌, ◌++◌, map, not, Bool, true, false, Option, none, some, get_or,
  filter, length, update,
}
use janus_graph.Base.{order_desc}
use janus_graph.Base.Int.{ℤ}
use janus_graph.Queue.Replay.{sql_limit}
use janus_graph.Dream.Undo.{UndoRow, Writer}

pub data PhaseStatus : Type 0 where
  phase_skipped phase_pending phase_failed phase_finished phase_planned phase_partial : PhaseStatus

pub data RunStatus : Type 0 where
  running completed completed_with_failures : RunStatus

-- The keys that the error message of a run lists.
pub data Phase : Type 0 where
  clustering deduplication orphan_pruning dlq_repair : Phase

pub record DreamRun : Type 0 where
  pub run_id : Text
  pub started_at : ℕ
  pub completed_at : Option ℕ
  pub status : RunStatus
  pub episodes_evaluated : ℕ
  pub phase_1_status : PhaseStatus
  pub phase_2_status : PhaseStatus
  pub phase_3_status : PhaseStatus
  pub phase_4_status : PhaseStatus
  pub error_message : Option (List Phase)

-- The row that `record_dream_run` makes from an id and a time, with its defaults.
abbrev pub started_run : Text → ℕ → DreamRun
started_run run_id started_at = record {
  run_id = run_id;
  started_at = started_at;
  completed_at = none;
  status = running;
  episodes_evaluated = 0;
  phase_1_status = phase_skipped;
  phase_2_status = phase_pending;
  phase_3_status = phase_pending;
  phase_4_status = phase_pending;
  error_message = none;
}

abbrev pub has_run_id : Text → DreamRun → Bool
has_run_id run_id r = text_eq r.run_id run_id

-- INSERT OR REPLACE: a row with the same key goes first.
unfoldable pub record_dream_run : DreamRun → List DreamRun → List DreamRun
record_dream_run r runs = filter (λ x. not (has_run_id r.run_id x)) runs ++ r ∷ []

-- The arguments of `update_dream_run`; `none` is None.
pub record RunUpdate : Type 0 where
  pub completed_at : Option ℕ
  pub status : Option RunStatus
  pub episodes_evaluated : Option ℕ
  pub phase_1_status : Option PhaseStatus
  pub phase_2_status : Option PhaseStatus
  pub phase_3_status : Option PhaseStatus
  pub phase_4_status : Option PhaseStatus
  pub error_message : Option (List Phase)

-- `SET column = ?` only for what is not None.
abbrev pub or_kept : {A : Type 0} → Option A → Option A → Option A
or_kept none old = old
or_kept (some new) old = some new

abbrev pub updated_run : RunUpdate → DreamRun → DreamRun
updated_run u r = record r {
  completed_at = or_kept u.completed_at r.completed_at;
  status = get_or u.status r.status;
  episodes_evaluated = get_or u.episodes_evaluated r.episodes_evaluated;
  phase_1_status = get_or u.phase_1_status r.phase_1_status;
  phase_2_status = get_or u.phase_2_status r.phase_2_status;
  phase_3_status = get_or u.phase_3_status r.phase_3_status;
  phase_4_status = get_or u.phase_4_status r.phase_4_status;
  error_message = or_kept u.error_message r.error_message;
}

-- With no field to set, the UPDATE is not run, and that changes nothing either.
unfoldable pub update_dream_run : Text → RunUpdate → List DreamRun → List DreamRun
update_dream_run run_id u runs = update (has_run_id run_id) (updated_run u) runs

-- The newest runs first; `dict(row)` is the row.
pub get_dream_runs : ℤ → List DreamRun → List DreamRun
get_dream_runs limit runs = sql_limit limit (order_desc (λ r. r.started_at) runs)

-- A row of dream_episodic_undo_log.
pub record UndoEntry : Type 0 where
  pub run_id : Text
  pub row : UndoRow
  pub created_at : ℕ

abbrev undo_entry : Text → ℕ → UndoRow → UndoEntry
undo_entry run_id now row = record { run_id = run_id; row = row; created_at = now }

-- `record_episodic_undo_sync`: one INSERT for all the rows. The rows have no `created_at`.
pub record_episodic_undo_sync : Text → ℕ → List UndoRow → List UndoEntry → List UndoEntry × ℕ
record_episodic_undo_sync run_id now rows log =
    (log ++ map (undo_entry run_id now) rows, length rows)

-- The undo writer of phase 2; an INSERT that raises stores nothing.
unfoldable pub undo_writer : Text → ℕ → List UndoEntry → Bool → Writer
unfolding record_episodic_undo_sync
undo_writer run_id now log true = some (λ rows. none)
undo_writer run_id now log false =
    some (λ rows. some (record_episodic_undo_sync run_id now rows log).1)
