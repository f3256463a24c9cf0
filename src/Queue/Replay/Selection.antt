-- ===== src/Queue/Replay/Selection.antt =====
-- What the replays of janus_graph/pipeline/queue.py do to the table.
use janus_graph.Base.{
  ℕ, Text, [], Bool, false, ◌≡◌, sym, ap, ◌∙◌, find, some, is_none, if◌then◌else◌,
}
use janus_graph.Queue.Schema.{DeadLetter, Db}
use janus_graph.Queue.Policy.{RetryPolicy, mentions}
use janus_graph.Queue.Policy.Codes.{permits-find}
use janus_graph.Queue.Marks.{has_episode_id}
use janus_graph.Queue.Reap.{Gaps}
use janus_graph.Queue.Replay.{replay_row, replay_dlq_episode, refusing_code, dlq_refusal_reason}

refusing :
    (policy : RetryPolicy) (error : Text)
    → policy.allowed_error_codes ≡ []
    → is_none (refusing_code policy error)
      ≡ is_none (find (λ code. mentions code error) policy.permanent_error_codes)
unfolding refusing_code
refusing policy error empty = simp (empty, refusing_code)

-- For an id that has a dead letter, and a policy without an allowlist: `replay_dlq_episode` refuses,
-- and changes nothing, exactly if `dlq_refusal_reason` names a code; else it goes on to requeue.
pub replay-refusal :
    (g : Gaps) (now : ℕ) (id : Text) (policy : RetryPolicy) (d : DeadLetter) (db : Db)
    → find (has_episode_id id) db.dead_letter ≡ some d
    → policy.allowed_error_codes ≡ []
    → replay_dlq_episode g now id (some policy) db ≡ (
        if is_none (dlq_refusal_reason id (some policy) db)
        then replay_row g now d db
        else (db, false))
unfolding replay_dlq_episode dlq_refusal_reason refusing_code
replay-refusal g now id policy d db found empty =
    rw (found, replay_dlq_episode, dlq_refusal_reason)
      (ap (λ (b : Bool). if b then replay_row g now d db else (db, false))
        (permits-find policy d.last_error empty ∙ sym (refusing policy d.last_error empty)))
