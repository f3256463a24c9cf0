-- ===== src/Queue/Reap/Selection.antt =====
-- Which rows the reapers of janus_graph/pipeline/queue.py touch, and how.
use janus_graph.Base.{
  ℕ, zero, suc, Text, text_eq, text_eq_iff, List, [], ◌∷◌, map, Bool, true, false, ◌||◌, ◌≡◌, refl,
  ap, inl, inr, arith, any, filter, Option, All, All-map, All-of_any, any_of_All, All-take,
  All-order_asc, Bool-cases, Pairs, Pairs-refl, Pairs-map, get_or,
}
use janus_graph.Base.Int.{ℤ, pos, negsuc}
use janus_graph.Queue.Schema.{Row, Db}
use janus_graph.Queue.Dedup.{requeued_row, requeue_guarded}
use janus_graph.Queue.Dedup.Requeue.{Rewrites, IsNamed, requeue-Rewrites}
use janus_graph.Queue.Policy.{RetryPolicy, default_policy}
use janus_graph.Queue.Valid.{IsValid, selected_of_key}
use janus_graph.Queue.Reap.{
  is_reapable, reap_selection, reset_streak, reap_limit_of, reap_up_to, reap_failed_or_aborted,
}

any-map-id :
    (t : Text) (rows : List Row)
    → any (λ id. text_eq t id) (map (λ r. r.id) rows) ≡ any (λ s. text_eq t s.id) rows
unfolding any
any-map-id t [] = refl
any-map-id t (r ∷ rows) = ap (λ b. text_eq t r.id || b) (any-map-id t rows)

any-swap :
    (t : Text) (rows : List Row)
    → any (λ s. text_eq s.id t) rows ≡ false
    → any (λ s. text_eq t s.id) rows ≡ false
any-swap t rows h = any_of_All _ rows (
    All-map rows (λ s e. ground (arith, text_eq_iff s.id t, text_eq_iff t s.id))
      (All-of_any (λ s. text_eq s.id t) rows h))

any-reap_selection :
    (q : Row → Bool) (policy : RetryPolicy) (n : ℕ) (db : Db)
    → any q (filter (is_reapable policy db) db.episodes) ≡ false
    → any q (reap_selection policy n db) ≡ false
unfolding reap_selection
any-reap_selection q policy n db h = any_of_All q _ (
    All-take _ n _ (
      All-order_asc _ (λ r. r.updated_at) (filter (is_reapable policy db) db.episodes)
        (All-of_any q _ h)))

-- Only reapable rows have an id among those of the SELECT.
named-IsReapable :
    (policy : RetryPolicy) (n : ℕ) (db : Db)
    → IsValid db
    → All
        (λ r.
          any (λ id. text_eq r.id id) (map (λ s. s.id) (reap_selection policy n db)) ≡ true
          → is_reapable policy db r ≡ true)
        db.episodes
named-IsReapable policy n db v =
    All-map db.episodes
      (λ r h found.
        elim (Bool-cases
          (any (λ s. text_eq s.id r.id) (filter (is_reapable policy db) db.episodes))) [
            | inl e ↦ h e
            | inr e ↦ cc (
              any-swap r.id (reap_selection policy n db)
                  (any-reap_selection (λ s. text_eq s.id r.id) policy n db e),
              any-map-id r.id (reap_selection policy n db),
            )
          ])
      (selected_of_key (λ r. r.id) (is_reapable policy db) db.episodes v.keys)

-- On a valid database, with no other writer between its SELECT and its UPDATEs, the reaper leaves a
-- row as it was or requeues it with its failure streak
-- reset and its attempts kept, and it requeues only rows that are failed or aborted, that the
-- policy permits, below the attempt ceiling where the policy respects it, and not owned by the
-- batch replay. No row is lost or added.
pub reaped-IsReapable :
    (now : ℕ) (limit : Option ℤ) (policy : Option RetryPolicy) (db : Db)
    → IsValid db
    → Pairs
        (Rewrites
          (λ r. is_reapable (get_or policy default_policy) db r ≡ true)
          (requeued_row now reset_streak))
        db.episodes
        (reap_failed_or_aborted (λ _ d. d) now limit policy db).0.episodes
unfolding reap_failed_or_aborted reap_up_to
reaped-IsReapable now limit policy db v =
    up_to (get_or policy default_policy) (reap_limit_of (get_or policy default_policy) limit)
  where
    up_to :
        (policy : RetryPolicy) (limit : ℤ)
        → Pairs
            (Rewrites (λ r. is_reapable policy db r ≡ true) (requeued_row now reset_streak))
            db.episodes
            (reap_up_to (λ _ d. d) now policy limit db).0.episodes
    up_to policy (pos zero) = Pairs-refl _ db.episodes (λ r. inl refl)
    up_to policy (negsuc n) = Pairs-refl _ db.episodes (λ r. inl refl)
    up_to policy (pos (suc n)) =
        let ids = map (λ r. r.id) (reap_selection policy (suc n) db) in
        Pairs-map
          (Rewrites (IsNamed now reset_streak (λ r. refl) ids) (requeued_row now reset_streak)) _
          (λ r. any (λ id. text_eq r.id id) ids ≡ true → is_reapable policy db r ≡ true) db.episodes
          (requeue_guarded (λ _ d. d) now reset_streak ids db).0.episodes
          (λ r s h p. elim p [ inl e ↦ inl e | inr (m, e) ↦ inr (h m, e) ])
          (named-IsReapable policy (suc n) db v)
          (requeue-Rewrites now reset_streak (λ r. refl) ids db)
