-- ===== src/Queue/Marks/Ledger.antt =====
-- What the settling methods of janus_graph/pipeline/queue.py leave in both tables.
use janus_graph.Base.{
  ℕ, Text, text_eq, text_eq_self, List, [], ◌∷◌, Bool, true, false, ◌≡◌, refl, sym, ap, ◌∙◌, arith,
  ◌+◌, none, some, Option-cases, Bool-cases, inl, inr, All, find, filter, update, if◌then◌else◌,
}
use janus_graph.Queue.Schema.{Status, done, aborted, Json, Row, DeadLetter, Db}
use janus_graph.Queue.Dedup.{has_id}
use janus_graph.Queue.Marks.{
  has_episode_id, is_open_for, recovered, close_open, done_row, mark_done, put_dead,
  dead_letter_row, abort_with, mark_aborted,
}

-- No dead letter of the episode is open.
abbrev pub IsClosed : Text → List DeadLetter → Type 0
IsClosed id dead = All (λ d. is_open_for id d ≡ false) dead

-- Each row of the episode has the status; its key is untouched.
abbrev pub HasStatus : Text → Status → List Row → Type 0
HasStatus id status rows = All (λ r. has_id id r ≡ true → r.status ≡ status) rows

find-none :
    (id : Text) (dead : List DeadLetter) → find (is_open_for id) dead ≡ none → IsClosed id dead
unfolding find
find-none id [] h = tt
find-none id (d ∷ dead) h = elim (Bool-cases (is_open_for id d)) [
  | inl e ↦
      let bad = sym (ap (λ (b : Bool). if b then some d else find (is_open_for id) dead) e) ∙ h in
      absurd (ground arith)
  | inr e ↦
      let found = sym (ap (λ (b : Bool). if b then some d else find (is_open_for id) dead) e) ∙ h in
      (e, find-none id dead found)
]

update-IsClosed :
    (id : Text) (now attempts : ℕ) (dead : List DeadLetter)
    → IsClosed id (update (is_open_for id) (recovered now attempts) dead)
unfolding update
update-IsClosed id now attempts [] = tt
update-IsClosed id now attempts (d ∷ dead) = (
  elim (Bool-cases (is_open_for id d)) [ inl e ↦ rw (e, update) (ground arith) | inr e ↦ simp e ],
  update-IsClosed id now attempts dead,
)

pub update-HasStatus :
    (id : Text) (status : Status) (set : Row → Row) (rows : List Row)
    → ((r : Row) → (set r).status ≡ status)
    → HasStatus id status (update (has_id id) set rows)
unfolding update
update-HasStatus id status set [] h = tt
update-HasStatus id status set (r ∷ rows) h = (
  elim (Bool-cases (has_id id r)) [ inl e ↦ simp e (λ m. h r) | inr e ↦ simp e (λ m. cc) ],
  update-HasStatus id status set rows h,
)

-- After `mark_done` the episode is done and no dead letter of it is open, whatever either table
-- held before.
pub mark_done-IsClosed :
    (now : ℕ) (id : Text) (db : Db)
    → HasStatus id done (mark_done now id db).episodes
      × IsClosed id (mark_done now id db).dead_letter
unfolding mark_done close_open
mark_done-IsClosed now id db = (
  update-HasStatus id done (done_row now) db.episodes (λ r. refl),
  elim (Option-cases (find (is_open_for id) db.dead_letter)) [
    | inl e ↦ rw (e, close_open) (find-none id db.dead_letter e)
    | inr (d, e) ↦ rw (e, close_open) (update-IsClosed id now d.attempt_count db.dead_letter)
  ],
)

-- The dead letters of an episode.
abbrev pub of_episode : Text → List DeadLetter → List DeadLetter
of_episode id dead = filter (has_episode_id id) dead

put_dead-only :
    (d : DeadLetter) (dead : List DeadLetter) → of_episode d.episode_id (put_dead d dead) ≡ d ∷ []
unfolding filter
put_dead-only d [] = rw (text_eq_self d.episode_id)
put_dead-only d (e ∷ dead) = elim (Bool-cases (text_eq e.episode_id d.episode_id)) [
  | inl h ↦ rw h (put_dead-only d dead)
  | inr h ↦ rw (h, filter, h) (put_dead-only d dead)
]

-- What an abort leaves: the status, and one open dead letter with the error of the call.
abbrev pub IsBuried : ℕ → Text → Text → Json → ℕ → Db → Type 0
IsBuried now id error payload attempts db =
    HasStatus id aborted db.episodes
    × (of_episode id db.dead_letter ≡ dead_letter_row id payload error attempts now ∷ [])

abort_with-IsBuried :
    (now : ℕ) (id error : Text) (payload : Json) (attempts : ℕ) (db : Db)
    → IsBuried now id error payload attempts (abort_with now id error payload attempts db)
unfolding abort_with
abort_with-IsBuried now id error payload attempts db = (
  update-HasStatus id aborted _ db.episodes (λ r. refl),
  put_dead-only (dead_letter_row id payload error attempts now) db.dead_letter,
)

-- After `mark_aborted` of an id that the queue has, the episode is aborted, and it has exactly one
-- dead letter: open, with the payload of the row, one attempt more than the row had, and the error.
pub mark_aborted-IsBuried :
    (now : ℕ) (id error : Text) (r : Row) (db : Db)
    → find (has_id id) db.episodes ≡ some r
    → IsBuried now id error r.payload_json (r.attempt_count + 1) (mark_aborted now id error db)
unfolding mark_aborted
mark_aborted-IsBuried now id error r db e =
    rw (e, mark_aborted) (abort_with-IsBuried now id error r.payload_json (r.attempt_count + 1) db)
