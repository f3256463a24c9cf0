-- ===== src/Queue/Opening/Backfill.antt =====
-- The backfill at the opening of the database (janus_graph/pipeline/queue.py,
-- `_backfill_canonical_hash_sync`), against one pass over the table.
use janus_graph.Base.{
  Text, text_eq, text_eq_self, List, [], ◌∷◌, ◌++◌, map, true, false, ◌&&◌, ◌≡◌, refl, sym, ap, ◌∙◌,
  subst, arith, none, some, is_none, update, All, All-map, All-append, Option-cases, inl, inr,
}
use mathlib.Core.List.{append_assoc}
use janus_graph.Queue.Schema.{Row, Db}
use janus_graph.Queue.Dedup.{in_scope, distinct, has_id, gate_enforces, update_guarded}
use janus_graph.Queue.Dedup.Unique.{Shrinks, distinct-update_selected}
use janus_graph.Queue.Valid.{Keys, text_eq-sym, Keys-update}
use janus_graph.Queue.Valid.Updates.{update_guarded_accepts}
use janus_graph.Queue.Opening.{recomputed, missing_hashes, set_hash, write_hashes}

-- The id is apart from those of the rows.
abbrev pub Apart : Text → List Row → Type 0
Apart id rows = All (λ y. text_eq y.id id ≡ false) rows

module _ (r : Row) (after : List Row) where
  Keys-middle :
      (before : List Row)
      → Keys (λ r. r.id) (before ++ r ∷ after)
      → Apart r.id before × Apart r.id after
  Keys-middle [] k = (tt, k.0)
  Keys-middle (x ∷ before) k =
      let (left, right) = Keys-middle before k.1 in
      ((text_eq-sym r.id x.id (middle x before k.0), left), right)
    where
      middle :
          (x : Row) (before : List Row)
          → All (λ y. text_eq y.id x.id ≡ false) (before ++ r ∷ after)
          → text_eq r.id x.id ≡ false
      middle x [] a = a.0
      middle x (y ∷ before) a = middle x before a.1

  update_none :
      (set : Row → Row) (rows : List Row) → Apart r.id rows → update (has_id r.id) set rows ≡ rows
  unfolding update
  update_none set [] a = refl
  update_none set (y ∷ rows) a = rw a.0 (ap (◌∷◌ y) (update_none set rows a.1))

  update_middle :
      (set : Row → Row) (before : List Row)
      → Apart r.id before
      → Apart r.id after
      → update (has_id r.id) set (before ++ r ∷ after) ≡ before ++ set r ∷ after
  unfolding update
  update_middle set [] a b = rw (text_eq_self r.id) (ap (◌∷◌ (set r)) (update_none set after b))
  update_middle set (y ∷ before) a b = rw a.0 (ap (◌∷◌ y) (update_middle set before a.1 b))

module _ (digest : Text → Text) where
  -- A row without a canonical hash gets that of its own payload, if it has all parts.
  unfoldable pub filled : Row → Row
  filled r = elim r.canonical_hash [
    | some h ↦ r
    | none ↦ elim (recomputed digest r.payload_json) [ none ↦ r | some h ↦ set_hash digest h r ]
  ]

  -- A row of gate `enforce` has a canonical hash.
  abbrev pub IsHashed : Row → Type 0
  IsHashed r = (is_none r.canonical_hash && gate_enforces r.dedup_gate) ≡ false

  module _ (before rows : List Row) (db : Db) where
    -- The rows so far, one more, and the rest.
    next :
        (x : Row)
        → write_hashes digest
            (missing_hashes digest rows)
            (record db { episodes = (before ++ x ∷ []) ++ rows })
          ≡ some (record db { episodes = (before ++ x ∷ []) ++ map filled rows })
        → write_hashes digest
            (missing_hashes digest rows)
            (record db { episodes = before ++ x ∷ rows })
          ≡ some (record db { episodes = before ++ x ∷ map filled rows })
    next x rest =
        ap (λ rs. write_hashes digest (missing_hashes digest rows) (record db { episodes = rs }))
          (sym (append_assoc before (x ∷ []) rows))
        ∙ rest
        ∙ ap (λ (rs : List Row). some (record db { episodes = rs }))
            (append_assoc before (x ∷ []) (map filled rows))

    kept :
        (r : Row)
        → missing_hashes digest (r ∷ rows) ≡ missing_hashes digest rows
        → filled r ≡ r
        → write_hashes digest
            (missing_hashes digest rows)
            (record db { episodes = before ++ r ∷ rows })
          ≡ some (record db { episodes = before ++ r ∷ map filled rows })
        → write_hashes digest
            (missing_hashes digest (r ∷ rows))
            (record db { episodes = before ++ r ∷ rows })
          ≡ some (record db { episodes = before ++ map filled (r ∷ rows) })
    kept r skipped same rest =
        ap (λ u. write_hashes digest u (record db { episodes = before ++ r ∷ rows })) skipped
        ∙ rest
        ∙ ap (λ (x : Row). some (record db { episodes = before ++ x ∷ map filled rows })) (sym same)

    set_hash-Shrinks :
        (h : Text) (r : Row)
        → r.canonical_hash ≡ none
        → IsHashed r
        → Shrinks (set_hash digest h r) r
    unfolding in_scope
    set_hash-Shrinks h r missing hashed scope = absurd (ground arith)

    updated :
        (h : Text) (r : Row)
        → Keys (λ r. r.id) (before ++ r ∷ rows)
        → update (has_id r.id) (set_hash digest h) (before ++ r ∷ rows)
          ≡ before ++ set_hash digest h r ∷ rows
    updated h r k =
        let (left, right) = Keys-middle r rows before k in
        update_middle r rows (set_hash digest h) before left right

    updated-distinct :
        (h : Text) (r : Row)
        → Keys (λ r. r.id) (before ++ r ∷ rows)
        → r.canonical_hash ≡ none
        → IsHashed r
        → distinct (before ++ r ∷ rows) ≡ true
        → distinct (before ++ set_hash digest h r ∷ rows) ≡ true
    updated-distinct h r k missing hashed d =
        let (left, right) = Keys-middle r rows before k in
        subst (λ rs. distinct rs ≡ true) (updated h r k)
          (distinct-update_selected (has_id r.id) (set_hash digest h) (before ++ r ∷ rows)
            (All-append _ before (r ∷ rows) (All-map before (λ y a m. absurd (ground arith)) left) (
              (λ m. set_hash-Shrinks h r missing hashed),
              All-map rows (λ y a m. absurd (ground arith)) right,
            ))
            d)

    written :
        (h : Text) (r : Row)
        → Keys (λ r. r.id) (before ++ r ∷ rows)
        → (db.unique_index ≡ true → distinct (before ++ set_hash digest h r ∷ rows) ≡ true)
        → update_guarded
            (has_id r.id)
            (set_hash digest h)
            (record db { episodes = before ++ r ∷ rows })
          ≡ some (record db { episodes = before ++ set_hash digest h r ∷ rows })
    written h r k d =
        update_guarded_accepts (has_id r.id) (set_hash digest h)
          (record db { episodes = before ++ r ∷ rows }) (λ on. rw (updated h r k) (d on))
        ∙ ap (λ (rs : List Row). some (record db { episodes = rs })) (updated h r k)

    wrote :
        (h : Text) (r : Row)
        → missing_hashes digest (r ∷ rows) ≡ (h, r.id) ∷ missing_hashes digest rows
        → filled r ≡ set_hash digest h r
        → update_guarded
            (has_id r.id)
            (set_hash digest h)
            (record db { episodes = before ++ r ∷ rows })
          ≡ some (record db { episodes = before ++ set_hash digest h r ∷ rows })
        → write_hashes digest
            (missing_hashes digest rows)
            (record db { episodes = before ++ set_hash digest h r ∷ rows })
          ≡ some (record db { episodes = before ++ set_hash digest h r ∷ map filled rows })
        → write_hashes digest
            (missing_hashes digest (r ∷ rows))
            (record db { episodes = before ++ r ∷ rows })
          ≡ some (record db { episodes = before ++ map filled (r ∷ rows) })
    unfolding write_hashes
    wrote h r missing same accepted rest =
        ap (λ u. write_hashes digest u (record db { episodes = before ++ r ∷ rows })) missing
        ∙ rw (accepted, write_hashes) rest
        ∙ ap (λ (x : Row). some (record db { episodes = before ++ x ∷ map filled rows })) (sym same)

  pub write_filled :
      (before rows : List Row) (db : Db)
      → Keys (λ r. r.id) (before ++ rows)
      → (db.unique_index ≡ true → distinct (before ++ rows) ≡ true)
      → All IsHashed rows
      → write_hashes digest (missing_hashes digest rows) (record db { episodes = before ++ rows })
        ≡ some (record db { episodes = before ++ map filled rows })
  unfolding write_hashes missing_hashes filled
  write_filled before [] db k d g = refl
  write_filled before (r ∷ rows) db k d g =
      let assoc = sym (append_assoc before (r ∷ []) rows) in
      let rest = next before rows db r (
        write_filled (before ++ r ∷ []) rows db (subst (Keys (λ r. r.id)) assoc k)
          (λ on. subst (λ rs. distinct rs ≡ true) assoc (d on)) g.1) in
      elim (Option-cases r.canonical_hash) [
        | inl e ↦ elim (Option-cases (recomputed digest r.payload_json)) [
          | inl f ↦ kept before rows db r (simp (e, f, missing_hashes)) (simp (e, f, filled)) rest
          | inr (h, f) ↦
              let r' = set_hash digest h r in
              let assoc' = sym (append_assoc before (r' ∷ []) rows) in
              let fits = λ (on : db.unique_index ≡ true).
                updated-distinct before rows db h r k e g.0 (d on) in
              let keys = subst (Keys (λ r. r.id)) (updated before rows db h r k) (
                Keys-update (λ r. r.id) (has_id r.id) (set_hash digest h) (λ y. refl)
                  (before ++ r ∷ rows) k) in
              wrote before rows db h r (simp (e, f, missing_hashes)) (simp (e, f, filled))
                (written before rows db h r k fits)
                (next before rows db r' (
                  write_filled (before ++ r' ∷ []) rows db (subst (Keys (λ r. r.id)) assoc' keys)
                    (λ on. subst (λ rs. distinct rs ≡ true) assoc' (fits on)) g.1))
        ]
        | inr (h, e) ↦ kept before rows db r (simp (e, missing_hashes)) (simp (e, filled)) rest
      ]
