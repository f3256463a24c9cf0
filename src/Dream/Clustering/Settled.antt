-- ===== src/Dream/Clustering/Settled.antt =====
-- How the label propagation of phase 1 ends (`cluster_graph` of
-- janus_graph/pipeline/dream_phases.py).
use janus_graph.Base.{
  ℕ, zero, suc, text_eq, text_eq_iff, List, [], ◌∷◌, ◌≡◌, refl, ap, sym, subst, ◌+◌, arith, true,
  false, ◌&&◌, any, ◌==◌, ◌≤◌, Bool-cases, inl, inr, and_split, ◌<◌, All, All-map,
}
use janus_graph.Dream.Clustering.{
  Adjacency, Labels, round_of, same_labels, Propagated, propagate, propagate_labels, ranked,
}

same_labels-≡ : (ks ls : Labels) → same_labels ks ls ≡ true → ks ≡ ls
unfolding same_labels
same_labels-≡ [] [] h = refl
same_labels-≡ [] (f ∷ ls) h = absurd (ground (arith, h))
same_labels-≡ (e ∷ ks) [] h = absurd (ground (arith, h))
same_labels-≡ ((u, k) ∷ ks) ((v, l) ∷ ls) h =
    let split = and_split (text_eq u v && k == l) (same_labels ks ls) h in
    let ends = and_split (text_eq u v) (k == l) split.0 in
    let same = (text_eq_iff u v).0 ends.0 in
    let equal : k ≡ l = ground (arith, ends.1) in
    let tail = same_labels-≡ ks ls split.1 in cc (same, equal, tail)

module _ (adj : Adjacency) (min_degree : ℕ) where
  -- The labels after a number of rounds.
  pub after_rounds : ℕ → Labels → Labels
  after_rounds zero labels = labels
  after_rounds (suc n) labels = round_of adj min_degree (after_rounds n labels)

  module _ (start : Labels) where
    -- The map is that of one of the first rounds.
    abbrev pub IsEarlier : ℕ → Labels → Type 0
    IsEarlier n labels = (k : ℕ) × (k < n) × (labels ≡ after_rounds k start)

    pub record IsSettled (max_rounds : ℕ) (p : Propagated) : Type 0 where
      pub reached : p.labels ≡ after_rounds p.rounds start
      pub bounded : p.rounds ≤ max_rounds
      pub fixed : p.converged ≡ true → round_of adj min_degree p.labels ≡ p.labels
      pub returned : p.cycle ≡ true → IsEarlier p.rounds p.labels
      pub exhausted : p.converged ≡ false → p.cycle ≡ false → p.rounds ≡ max_rounds

    seen_before :
        (done : ℕ) (new : Labels) (seen : List Labels)
        → All (IsEarlier (suc done)) seen
        → any (same_labels new) seen ≡ true
        → IsEarlier (suc done) new
    unfolding any
    seen_before done new [] q h = absurd (ground (arith, h))
    seen_before done new (s ∷ seen) q h = elim (Bool-cases (same_labels new s)) [
      | inl e ↦ subst (IsEarlier (suc done)) (sym (same_labels-≡ new s e)) q.0
      | inr e ↦ seen_before done new seen q.1 (rw e at h)
    ]

    propagate-IsSettled :
        (left done : ℕ) (seen : List Labels) (labels : Labels)
        → labels ≡ after_rounds done start
        → All (IsEarlier (suc done)) seen
        → IsSettled (done + left) (propagate adj min_degree left done seen labels)
    unfolding propagate after_rounds
    propagate-IsSettled zero done seen labels at q = record {
      reached = at;
      bounded = omega arith;
      fixed = λ h. absurd (ground (arith, h));
      returned = λ h. absurd (ground (arith, h));
      exhausted = λ h k. omega arith;
    }
    propagate-IsSettled (suc left) done seen labels at q =
        let new = round_of adj min_degree labels in
        let here : new ≡ after_rounds (suc done) start = ap (round_of adj min_degree) at in
        elim (Bool-cases (same_labels new labels)) [
          | inl e ↦
              let same = same_labels-≡ new labels e in
              rw e (record {
                reached = here;
                bounded = omega arith;
                fixed = λ h. ap (round_of adj min_degree) same;
                returned = λ h. absurd (ground (arith, h));
                exhausted = λ h k. absurd (ground (arith, h));
              })
          | inr e ↦ elim (Bool-cases (any (same_labels new) seen)) [
            | inl old ↦
                rw (e, old)
                  (record {
                    reached = here;
                    bounded = omega arith;
                    fixed = λ h. absurd (ground (arith, h));
                    returned = λ h. seen_before done new seen q old;
                    exhausted = λ h k. absurd (ground (arith, k));
                  })
            | inr fresh ↦
                rw (e, fresh)
                  (subst
                    (λ n. IsSettled n (propagate adj min_degree left (suc done) (new ∷ seen) new))
                    (omega arith)
                    (propagate-IsSettled left (suc done) (new ∷ seen) new here (
                      (suc done, omega arith, here),
                      All-map seen (λ s k. (k.0, omega (arith, k.1), k.2)) q,
                    )))
          ]
        ]

  -- In at most `max_rounds` rounds the propagation ends with the labels of its last round. If it
  -- reports convergence, a further round changes nothing; if it reports a cycle, the labels are
  -- those of an earlier round; if neither, all the rounds have been done.
  pub propagate_labels-IsSettled :
      (max_rounds : ℕ)
      → IsSettled (ranked 0 adj.nodes) max_rounds (propagate_labels adj min_degree max_rounds)
  unfolding propagate_labels after_rounds
  propagate_labels-IsSettled max_rounds =
      let start = ranked 0 adj.nodes in
      subst (λ n. IsSettled start n (propagate adj min_degree max_rounds 0 (start ∷ []) start))
        (omega arith)
        (propagate-IsSettled start max_rounds 0 (start ∷ []) start refl
          ((0, omega arith, refl), tt))
