-- ===== src/Dream/Episodic/Precondition.antt =====
-- No victim is deleted without an undo record (`apply_episodic_plan` of
-- janus_graph/pipeline/dedup_apply.py).
use janus_graph.Base.{
  ap, subst, sym, ℕ, zero, suc, Text, List, [], ◌∷◌, ◌++◌, ◌≡◌, refl, ◌∙◌, ◌⊎◌, ◌≤◌, arith, Bool,
  true, false, ◌&&◌, Option, none, some, filter, count, take, length, ltb, map, Bool-cases,
  Option-cases, inl, inr, if_both,
}
use janus_graph.Dream.Redirect.{Map, resolve}
use janus_graph.Dream.Episodics.{EpisodicMerge}
use janus_graph.Dream.Graph.{
  Episodic, Mention, Graph, World, Answer, statement, member, has_episodic, has_entity,
  create_mention, delete_mention,
}
use janus_graph.Dream.Graph.Statements.{statement-rule}
use janus_graph.Dream.Phases.{victims_of}
use janus_graph.Dream.Cleanup.{drop}
use janus_graph.Dream.Rewire.{VictimEdge, Sorted, episodic_redirect}
use janus_graph.Dream.Fold.{
  FoldCounters, FoldSession, trouble, delete_uuids, undo_write, survivor_read,
}
use janus_graph.Dream.Undo.{
  Writer, UndoRow, build_undo_rows, is_empty_victim, delete_episodics, episodics_deleted,
  episodics_counted, delete_episodic_chunks, written, call_writer, with_undo_rows, rows_built,
  finish,
}
use janus_graph.Dream.Episodic.{
  split_rows, sort_rows, victim_edges, counted_rows, write_fold, fold_rows, survivors_read,
  victims_read, fold_start, apply_episodic_plan,
}
use janus_graph.Dream.Episodic.Rules.{drop_rows-P, rewire_rows-P}

-- The number of rows that the writer has stored does not change any more.
chunks-undo_rows_written :
    (fuel batch : ℕ) (victims : List Text) (s : FoldSession)
    → (delete_episodic_chunks fuel batch victims s).counters.undo_rows_written
      ≡ s.counters.undo_rows_written
unfolding delete_episodic_chunks episodics_counted episodics_deleted
chunks-undo_rows_written zero batch victims s = refl
chunks-undo_rows_written (suc fuel) batch [] s = refl
chunks-undo_rows_written (suc fuel) batch (u ∷ us) s =
    let chunk = take batch (u ∷ us) in
    let c = s.counters in
    let f : Graph → Graph × ℕ = λ g. (g, count (λ n. is_empty_victim chunk g n.uuid) g.episodics) in
    let next = episodics_counted chunk c (statement f s.world) in
    let here : next.counters.undo_rows_written ≡ c.undo_rows_written =
      statement-rule
        (λ p. (episodics_counted chunk c p).counters.undo_rows_written ≡ c.undo_rows_written) f
        s.world (λ rest. refl) (λ rest. refl)
        (λ rest.
          statement-rule
            (λ p.
              (episodics_deleted (length chunk) (f s.world.graph).1 c p).counters.undo_rows_written
              ≡ c.undo_rows_written)
            (λ g. (delete_episodics chunk g, tt)) (record { graph = s.world.graph; answers = rest })
            (λ rest'. refl) (λ rest'. refl) (λ rest'. refl)) in
    chunks-undo_rows_written fuel batch (drop batch (u ∷ us)) next ∙ here

-- Without a row nothing is deleted.
refused-episodics :
    (batch : ℕ) (victims : List Text) (s : FoldSession)
    → (written batch victims 0 s).world.graph.episodics ≡ s.world.graph.episodics
unfolding written delete_episodic_chunks
refused-episodics batch [] s = refl
refused-episodics batch (u ∷ us) s =
    let few : ltb 0 (suc (length us)) ≡ true = ground arith in rw few refl

-- Nor is there anything to delete where there is no victim.
no_victim-episodics :
    (batch n : ℕ) (s : FoldSession)
    → (written batch [] n s).world.graph.episodics ≡ s.world.graph.episodics
unfolding written delete_episodic_chunks
no_victim-episodics batch n s = let enough : ltb n 0 ≡ false = ground arith in rw enough refl

module _ (start : List Episodic) (writer : Writer) (victims : List Text)
    (undo_rows : List UndoRow) where
  -- The undo rows are enough for the victims, and to them the writer answers with `n`, which is
  -- enough too.
  abbrev pub HasAnswered : ℕ → Type 0
  HasAnswered n =
      (f : List UndoRow → Option ℕ) × (writer ≡ some f)
      × (f undo_rows ≡ some n)
      × (length victims ≤ length undo_rows)
      × (length victims ≤ n)

  -- The episodes are as before, or the writer has answered with the number in the report.
  abbrev pub IsRecorded : FoldSession → Type 0
  IsRecorded s = (s.world.graph.episodics ≡ start) ⊎ HasAnswered s.counters.undo_rows_written

  written-IsRecorded :
      (batch n : ℕ) (s : FoldSession)
      → s.world.graph.episodics ≡ start
      → (length victims ≤ n → HasAnswered n)
      → IsRecorded (written batch victims n s)
  unfolding written
  written-IsRecorded batch n s h answered = elim (Bool-cases (ltb n (length victims))) [
    | inl few ↦ rw few (inl h)
    | inr enough ↦
        let counted = record s { counters = record s.counters { undo_rows_written = n } } in
        let same = chunks-undo_rows_written (length victims) batch victims counted in
        rw enough (inr (subst HasAnswered (sym same) (answered (ground arith))))
  ]

module _ (start : List Episodic) (victims : List Text) (undo_rows : List UndoRow) where
  call_writer-IsRecorded :
      (writer : Writer) (batch : ℕ) (s : FoldSession)
      → s.world.graph.episodics ≡ start
      → length victims ≤ length undo_rows
      → IsRecorded start writer victims undo_rows (call_writer writer undo_rows batch victims s)
  unfolding call_writer
  call_writer-IsRecorded none batch s h k = inl h
  call_writer-IsRecorded (some f) batch s h k = elim (Option-cases (f undo_rows)) [
    | inl e ↦
        let failed = trouble undo_write s.world s.counters in
        rw (e, call_writer) (inl (refused-episodics batch victims failed ∙ h))
    | inr (n, e) ↦
        rw (e, call_writer)
          (written-IsRecorded start (some f) victims undo_rows batch n s h
            (λ enough. (f, refl, e, k, enough)))
  ]

  with_undo_rows-IsRecorded :
      (writer : Writer) (rows : List UndoRow) (batch : ℕ) (s : FoldSession)
      → s.world.graph.episodics ≡ start
      → rows ≡ undo_rows
      → IsRecorded start writer victims undo_rows (with_undo_rows writer rows batch victims s)
  unfolding with_undo_rows
  with_undo_rows-IsRecorded writer rows batch s h q =
      rw q (elim (Bool-cases (ltb (length undo_rows) (length victims))) [
        | inl few ↦ rw few (inl h)
        | inr enough ↦ rw enough (call_writer-IsRecorded writer batch s h (ground arith))
      ])

-- If the rows could not be built, nothing is deleted.
unbuilt-episodics :
    (writer : Writer) (batch : ℕ) (victims : List Text) (s : FoldSession)
    → (with_undo_rows writer [] batch victims s).world.graph.episodics ≡ s.world.graph.episodics
unfolding with_undo_rows call_writer
unbuilt-episodics writer batch (u ∷ us) s =
    let few : ltb 0 (suc (length us)) ≡ true = ground arith in rw few refl
unbuilt-episodics none batch [] s = refl
unbuilt-episodics (some f) batch [] s = elim (Option-cases (f [])) [
  | inl e ↦
      rw (e, with_undo_rows, call_writer)
        (no_victim-episodics batch 0 (trouble undo_write s.world s.counters))
  | inr (n, e) ↦ rw (e, with_undo_rows, call_writer) (no_victim-episodics batch n s)
]

module _ (start : List Episodic) (writer : Writer) (m : Map) (merges : List EpisodicMerge)
    (batch : ℕ) (edges : List VictimEdge) where
  abbrev Same : Graph → Type 0
  Same g = g.episodics ≡ start

  abbrev Recorded : FoldSession → Type 0
  Recorded = IsRecorded start writer (victims_of m) (build_undo_rows m edges merges start)

  finish-IsRecorded :
      (unique : List VictimEdge) (s : FoldSession)
      → unique ≡ edges
      → Same s.world.graph
      → Recorded (finish writer m unique merges batch s)
  unfolding finish rows_built
  finish-IsRecorded unique s q h =
      statement-rule (λ p. Recorded (rows_built writer (victims_of m) batch s.counters p))
        (λ g. (g, build_undo_rows m unique merges g.episodics)) s.world
        (λ rest. inl (unbuilt-episodics writer batch (victims_of m) _ ∙ h))
        (λ rest. inl (unbuilt-episodics writer batch (victims_of m) _ ∙ h))
        (λ rest.
          with_undo_rows-IsRecorded start (victims_of m) (build_undo_rows m edges merges start)
            writer _ batch _ h
            (ap (λ us. build_undo_rows m us merges s.world.graph.episodics) q
              ∙ ap (build_undo_rows m edges merges) h))

  write_fold-IsRecorded :
      (sorted : Sorted) (unique : List VictimEdge) (repeated : List Text) (accounted : ℕ)
      (s : FoldSession)
      → unique ≡ edges
      → Same s.world.graph
      → Recorded (write_fold writer m merges batch sorted unique repeated accounted s)
  unfolding write_fold create_mention delete_mention delete_uuids
  write_fold-IsRecorded sorted unique repeated accounted s q h = finish-IsRecorded unique _ q (
      rewire_rows-P Same
        (λ e g k.
          if_both (has_episodic e.src g && has_entity e.dst g) (λ (p : Graph × ℕ). Same p.0) k k)
        (λ r g k. k) sorted.to_create _
        (drop_rows-P Same (λ us g k. k) ((sorted.to_drop ++ sorted.survivor_dedupe) ++ repeated) s
          h))

  fold_rows-IsRecorded :
      (apply : Bool) (rows surv_rows : List Mention) (s : FoldSession)
      → (split_rows rows).unique ≡ edges
      → Same s.world.graph
      → Recorded (fold_rows writer m merges apply batch rows surv_rows s).session
  unfolding fold_rows counted_rows
  fold_rows-IsRecorded true rows surv_rows s q h =
      let split = split_rows rows in
      write_fold-IsRecorded (sort_rows m rows surv_rows) split.unique split.repeated
        (length (victim_edges rows)) (counted_rows m rows surv_rows s) q h
  fold_rows-IsRecorded false rows surv_rows s q h = inl h

  victims_read-IsRecorded :
      (apply : Bool) (c : FoldCounters) (w : World) (rows : List Mention)
      → (split_rows rows).unique ≡ edges
      → Same w.graph
      → Recorded (victims_read writer m merges apply batch c (w, some rows)).session
  unfolding victims_read survivors_read
  victims_read-IsRecorded apply c w [] q h = inl h
  victims_read-IsRecorded apply c w (e ∷ rows) q h =
      statement-rule
        (λ p. Recorded (survivors_read writer m merges apply batch (e ∷ rows) c p).session)
        (λ g. (g, filter (λ x. member x.src (map (λ k. resolve m k.0) m)) g.mentions)) w
        (λ rest. fold_rows-IsRecorded apply (e ∷ rows) [] (failed rest) q h)
        (λ rest. fold_rows-IsRecorded apply (e ∷ rows) [] (failed rest) q h)
        (λ rest.
          fold_rows-IsRecorded apply (e ∷ rows)
            (filter (λ x. member x.src (map (λ k. resolve m k.0) m)) w.graph.mentions)
            (record { world = record { graph = w.graph; answers = rest }; counters = c }) q h)
    where
      failed : List Answer → FoldSession
      failed rest = trouble survivor_read (record { graph = w.graph; answers = rest }) c

-- The undo rows of a plan: of each victim that is in the graph, its contents and its mentions.
abbrev pub undo_rows_of : List EpisodicMerge → Graph → List UndoRow
undo_rows_of merges g =
    let m = episodic_redirect [] merges in
    build_undo_rows m (split_rows (filter (λ x. member x.src (victims_of m)) g.mentions)).unique
      merges g.episodics

-- Whatever statements fail: either every episode is still there and unchanged, or the undo rows of
-- the plan, taken from the graph as it was before the fold, are at least as many as the victims,
-- and the writer answers to exactly these rows with a number that is at least the number of victims
-- too; that number is the count of stored rows in the report.
pub apply_episodic_plan-IsRecorded :
    (writer : Writer) (merges : List EpisodicMerge) (apply : Bool) (batch : ℕ) (w : World)
    → IsRecorded w.graph.episodics writer
        (victims_of (episodic_redirect [] merges))
        (undo_rows_of merges w.graph)
        (apply_episodic_plan writer merges apply batch w).session
unfolding apply_episodic_plan victims_read
apply_episodic_plan-IsRecorded writer [] apply batch w = inl refl
apply_episodic_plan-IsRecorded writer (g ∷ merges) apply batch w =
    let m = episodic_redirect [] (g ∷ merges) in
    let rows = filter (λ x. member x.src (victims_of m)) w.graph.mentions in
    let c = fold_start apply m (g ∷ merges) in
    statement-rule
      (λ p.
        IsRecorded w.graph.episodics writer (victims_of m) (undo_rows_of (g ∷ merges) w.graph)
          (victims_read writer m (g ∷ merges) apply batch c p).session)
      (λ k. (k, filter (λ x. member x.src (victims_of m)) k.mentions)) w (λ rest. inl refl)
      (λ rest. inl refl)
      (λ rest.
        victims_read-IsRecorded w.graph.episodics writer m (g ∷ merges) batch
          (split_rows rows).unique apply c (record { graph = w.graph; answers = rest }) rows refl
          refl)
