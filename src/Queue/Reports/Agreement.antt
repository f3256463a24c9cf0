-- ===== src/Queue/Reports/Agreement.antt =====
-- The reports of janus_graph/pipeline/queue.py on the dead letters, against each other.
use janus_graph.Base.{
  ℕ, Text, List, [], ◌∷◌, map, Bool, false, ◌&&◌, ◌||◌, ◌≡◌, refl, arith, ◌+◌, ◌≤◌, any, count,
  count-le, count-or,
}
use janus_graph.Queue.Schema.{DeadLetter, Db}
use janus_graph.Queue.Policy.{mentions}
use janus_graph.Queue.Reports.{
  is_open, get_stats, dlq_class_predicate, dlq_class_counts, dlq_class_union_count,
}

-- The sum of the entries.
pub total : List (Text × ℕ) → ℕ
total [] = 0
total (e ∷ entries) = e.1 + total entries

count-none : {A : Type 0} (p : A → Bool) (xs : List A) → count (λ x. p x && false) xs ≡ 0
unfolding count
count-none p [] = refl
count-none p (x ∷ xs) = ground (arith, count-none p xs)

count-union :
    (classes : List Text) (dead : List DeadLetter)
    → count (λ d. is_open d && dlq_class_predicate classes d.last_error) dead
      ≤ total (map (λ cls. (cls, count (λ d. is_open d && mentions cls d.last_error) dead)) classes)
unfolding dlq_class_predicate any total
count-union [] dead = omega (arith, count-none is_open dead)
count-union (c ∷ classes) dead = omega (
  arith,
  count-le (λ d. is_open d && (mentions c d.last_error || dlq_class_predicate classes d.last_error))
      (λ d.
        (is_open d && mentions c d.last_error)
        || (is_open d && dlq_class_predicate classes d.last_error))
      dead (λ d h. ground arith),
  count-or (λ d. is_open d && mentions c d.last_error)
      (λ d. is_open d && dlq_class_predicate classes d.last_error) dead,
  count-union classes dead,
)

-- The number of open dead letters in any of the classes is at most the number of open dead
-- letters, and at most the sum of the counts of the classes: a dead letter in two classes is
-- counted once.
pub union-le :
    (classes : List Text) (db : Db)
    → (dlq_class_union_count classes db ≤ (get_stats db).dlq)
      × (dlq_class_union_count classes db ≤ total (dlq_class_counts classes db))
unfolding dlq_class_union_count get_stats dlq_class_counts
union-le [] db = (omega arith, omega arith)
union-le (c ∷ classes) db = (
  count-le (λ d. is_open d && dlq_class_predicate (c ∷ classes) d.last_error) is_open db.dead_letter
      (λ d h. ground arith),
  count-union (c ∷ classes) db.dead_letter,
)
