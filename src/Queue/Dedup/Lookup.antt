-- ===== src/Queue/Dedup/Lookup.antt =====
-- The duplicate lookups of janus_graph/core/dedup.py.
use janus_graph.Base.{
  ℕ, Text, text_eq_self, List, [], ◌∷◌, Bool, true, false, ◌&&◌, ◌≡◌, refl, arith, any, filter,
  Option, none, some, head?, order_desc, All, All-of_any, All-filter, filter_passes, All-zip,
  All-order_desc, Bool-cases, inl, inr, length, length-filter, length-order_desc, count,
}
use mathlib.Core.Option
use janus_graph.Queue.Schema.{Row, Db}
use janus_graph.Queue.Dedup.{newest_id, holds_hash, is_active, has_id, find_active_duplicate}

module _ (q : Row → Bool) (rows : List Row) where
  -- The id of the newest row that passes belongs to a row that passes.
  pub newest_id-any :
      (id : Text) → newest_id (filter q rows) ≡ some id → any (λ r. has_id id r && q r) rows ≡ true
  newest_id-any id e = elim (Bool-cases (any (λ r. has_id id r && q r) rows)) [
    | inl found ↦ found
    | inr missing ↦
        let fails = All-filter _ q rows (All-of_any (λ r. has_id id r && q r) rows missing) in
        let apart : All (λ (r : Row). has_id id r ≡ false) (filter q rows) =
          All-zip (filter q rows) (λ r f p. ground arith) fails (filter_passes q rows) in
        absurd (
          head-apart id (order_desc (λ (r : Row). r.created_at) (filter q rows))
            (All-order_desc _ (λ (r : Row). r.created_at) (filter q rows) apart) e)
  ]
    where
      head-apart :
          (id : Text) (sorted : List Row)
          → All (λ r. has_id id r ≡ false) sorted
          → Option.map (λ (r : Row). r.id) (head? sorted) ≡ some id
          → ⊥
      head-apart id [] a h = ground arith
      head-apart id (r ∷ sorted) a h = ground (arith, text_eq_self id)

  -- There is none only if no row passes.
  newest_id-none : newest_id (filter q rows) ≡ none → any q rows ≡ false
  unfolding any count
  newest_id-none e =
      let sorted = order_desc (λ (r : Row). r.created_at) (filter q rows) in
      count_zero rows (
        omega (
          arith,
          length-filter q rows,
          length-order_desc (λ (r : Row). r.created_at) (filter q rows),
          head_none sorted e,
        ))
    where
      head_none :
          (sorted : List Row)
          → Option.map (λ (r : Row). r.id) (head? sorted) ≡ none
          → length sorted ≡ 0
      head_none [] h = refl
      head_none (r ∷ sorted) h = ground arith

      count_zero : (rows : List Row) → count q rows ≡ 0 → any q rows ≡ false
      count_zero [] h = refl
      count_zero (r ∷ rows) h = ground (arith, count_zero rows)

-- An active row that holds the hash, whether in the canonical column or, for an old row, in the
-- legacy one.
abbrev pub is_active_holder : Text → Row → Bool
is_active_holder h r = holds_hash h r && is_active r.status

-- What a lookup of the hash has to find: the id of an active row that holds it, or none if there
-- is no such row.
abbrev pub Finds : Text → Db → Option Text → Type 0
Finds h db none = any (is_active_holder h) db.episodes ≡ false
Finds h db (some id) = any (λ r. has_id id r && is_active_holder h r) db.episodes ≡ true

-- The duplicate lookup with a hash finds the id of an active row that holds the hash, in the
-- canonical column or, in a row without one, in the legacy column; and it finds none exactly if
-- there is no such row.
pub find_active_duplicate-Finds :
    (c : ℕ) (h : Text) (db : Db) → Finds (c ∷ h) db (find_active_duplicate db (c ∷ h))
unfolding find_active_duplicate
find_active_duplicate-Finds c h db =
    go (newest_id (filter (is_active_holder (c ∷ h)) db.episodes)) refl
  where
    go :
        (found : Option Text)
        → newest_id (filter (is_active_holder (c ∷ h)) db.episodes) ≡ found
        → Finds (c ∷ h) db found
    go none e = newest_id-none (is_active_holder (c ∷ h)) db.episodes e
    go (some id) e = newest_id-any (is_active_holder (c ∷ h)) db.episodes id e
