-- ===== src/Queue/Dedup/Requeue.antt =====
-- What `requeue_guarded` of janus_graph/core/dedup.py does to the table, row by row.
use janus_graph.Base.{
  ℕ, Text, text_eq, List, [], ◌∷◌, Bool, true, ◌≡◌, refl, ap, subst, ◌∙◌, ◌⊎◌, inl, inr, arith, any,
  update, get_or, Option-cases, All-of, Pairs, Pairs-refl, Pairs-update, Pairs-trans,
}
use janus_graph.Queue.Schema.{Row, Db}
use janus_graph.Queue.Dedup.{has_id, update_guarded, requeued_row, requeue_guarded}

-- A row that stays as it is, or a row that `p` admits and `set` rewrites.
abbrev pub Rewrites : (Row → Type 0) → (Row → Row) → Row → Row → Type 0
Rewrites P set r s = (s ≡ r) ⊎ (P r × (s ≡ set r))

pub Rewrites-update :
    (p : Row → Bool) (set : Row → Row) (db : Db)
    → Pairs
        (Rewrites (λ r. p r ≡ true) set)
        db.episodes
        (get_or (update_guarded p set db) db).episodes
unfolding update_guarded
Rewrites-update p set db = elim (Option-cases (update_guarded p set db)) [
  | inl e ↦ rw e (Pairs-refl _ db.episodes (λ r. inl refl))
  | inr (after, e) ↦
      let shape : record db { episodes = update p set db.episodes } ≡ after = ground arith in
      rw e (
        subst (λ (d : Db). Pairs (Rewrites (λ r. p r ≡ true) set) db.episodes d.episodes) shape
          (Pairs-update _ p set db.episodes (λ r. inl refl)
            (All-of db.episodes (λ r h. inr (h, refl)))))
]

module _ (now : ℕ) (extra : Row → Row)
    (again : (r : Row)
      → requeued_row now extra (requeued_row now extra r) ≡ requeued_row now extra r) where
  abbrev pub IsNamed : List Text → Row → Type 0
  IsNamed ids r = any (λ id. text_eq r.id id) ids ≡ true

  -- With no other writer in between: every row is left alone, or it has one of the ids and is requeued; none is lost or added.
  pub requeue-Rewrites :
      (ids : List Text) (db : Db)
      → Pairs
          (Rewrites (IsNamed ids) (requeued_row now extra))
          db.episodes
          (requeue_guarded (λ _ d. d) now extra ids db).0.episodes
  unfolding requeue_guarded any
  requeue-Rewrites [] db = Pairs-refl _ db.episodes (λ r. inl refl)
  requeue-Rewrites (id ∷ ids) db =
      let next = get_or (update_guarded (has_id id) (requeued_row now extra) db) db in
      Pairs-trans (Rewrites (λ r. has_id id r ≡ true) (requeued_row now extra))
        (Rewrites (IsNamed ids) (requeued_row now extra))
        (Rewrites (IsNamed (id ∷ ids)) (requeued_row now extra)) db.episodes next.episodes
        (requeue_guarded (λ _ d. d) now extra ids next).0.episodes join
        (Rewrites-update (has_id id) (requeued_row now extra) db) (requeue-Rewrites ids next)
    where
      join :
          (r s t : Row)
          → Rewrites (λ r. has_id id r ≡ true) (requeued_row now extra) r s
          → Rewrites (IsNamed ids) (requeued_row now extra) s t
          → Rewrites (IsNamed (id ∷ ids)) (requeued_row now extra) r t
      join r s t (inl e) (inl f) = inl (f ∙ e)
      join r s t (inl e) (inr (n, f)) =
          subst (λ x. Rewrites (IsNamed (id ∷ ids)) (requeued_row now extra) x t) e
            (inr (ground arith, f))
      join r s t (inr (h, e)) (inl f) = inr (ground arith, f ∙ e)
      join r s t (inr (h, e)) (inr (n, f)) =
          inr (ground arith, f ∙ ap (requeued_row now extra) e ∙ again r)
