-- ===== src/Queue/Claim/Exclusive.antt =====
-- Who gets an episode from `claim_next_batch` (janus_graph/pipeline/queue.py).
use janus_graph.Base.{
  ℕ, text_eq, List, [], ◌∷◌, map, Bool, true, false, ◌≡◌, ◌≢◌, refl, Option, some, All, All-map,
  All-zip, All-of, All-take, All-order_asc, All-filter, All-of_any, any_of_All, filter_passes,
  filter, any, update, arith, Memᴰ, All-lookup, Bool-cases, inl, inr,
}
use janus_graph.Base.Int.{ℤ}
use janus_graph.Queue.Schema.{Row, Db, is_queued}
use janus_graph.Queue.Dedup.{in_scope, update_guarded}
use janus_graph.Queue.Dedup.Unique.{Shrinks, distinct-update_selected}
use janus_graph.Queue.Claim.{
  claim_state, limit_val, next_queued, claim_rows, claim_next_batch, claimed_record, claimed_row,
  id_among,
}
use janus_graph.Queue.Valid.{IsValid, selected_of_key}
use janus_graph.Queue.Valid.Updates.{update_guarded_accepts, update_guarded-eq-some}

-- A test that fails on every queued row fails on those that the SELECT returns.
any-next_queued :
    (q : Row → Bool) (n : ℕ) (db : Db)
    → any q (filter (λ r. is_queued r.status) db.episodes) ≡ false
    → any q (next_queued n db) ≡ false
unfolding next_queued
any-next_queued q n db h =
    let queue = filter (λ r. is_queued r.status) db.episodes in
    any_of_All q _
      (All-take _ n _ (All-order_asc _ (λ r. r.enqueued_at) queue (All-of_any q queue h)))

module _ (n : ℕ) (db : Db) (v : IsValid db) where
  -- Only queued rows have an id among those of the SELECT.
  id_among-queued :
      All (λ r. id_among (next_queued n db) r ≡ true → is_queued r.status ≡ true) db.episodes
  unfolding id_among
  id_among-queued =
      All-map db.episodes
        (λ r h found.
          elim (Bool-cases
            (any (λ s. text_eq s.id r.id) (filter (λ s. is_queued s.status) db.episodes))) [
              | inl e ↦ h e
              | inr e ↦ cc (any-next_queued (λ s. text_eq s.id r.id) n db e)
            ])
        (selected_of_key (λ r. r.id) (λ r. is_queued r.status) db.episodes v.keys)

  claimed-Shrinks :
      (now : ℕ)
      → All (λ r. id_among (next_queued n db) r ≡ true → Shrinks (claimed_row now r) r) db.episodes
  unfolding in_scope
  claimed-Shrinks now = All-map db.episodes (λ r h found. ground (arith, h found)) id_among-queued

  claim_accepts :
      (now : ℕ)
      → update_guarded (id_among (next_queued n db)) (claimed_row now) db
        ≡ some (record db {
          episodes = update (id_among (next_queued n db)) (claimed_row now) db.episodes;
        })
  claim_accepts now =
      update_guarded_accepts (id_among (next_queued n db)) (claimed_row now) db
        (λ on. distinct-update_selected _ _ db.episodes (claimed-Shrinks now) (v.index on))

-- The claim of the rows `found`, once its UPDATE is accepted.
claim_rows_accepted :
    (now : ℕ) (found : List Row) (db after : Db)
    → update_guarded (id_among found) (claimed_row now) db ≡ some after
    → claim_rows now found db ≡ some (claim_state now found db, map (claimed_record now) found)
unfolding claim_rows
claim_rows_accepted now [] db after e = refl
claim_rows_accepted now (r ∷ found) db after e = rw (e, claim_state, claim_rows)

-- On a valid database and with no other writer in between, a claim never raises: it returns the
-- records of the oldest queued rows, in order.
pub claim-next_queued :
    (now : ℕ) (limit : Option ℤ) (db : Db)
    → IsValid db
    → claim_next_batch (λ d. d) now limit db
      ≡ some (
        claim_state now (next_queued (limit_val limit) db) db,
        map (claimed_record now) (next_queued (limit_val limit) db),
      )
unfolding claim_next_batch
claim-next_queued now limit db v =
    claim_rows_accepted now _ db _ (claim_accepts (limit_val limit) db v now)

module _ (found : List Row) (now : ℕ) where
  -- After the UPDATE no row with a claimed id is queued.
  update-claimed :
      (rows : List Row)
      → All
          (λ r. is_queued r.status ≡ true → id_among found r ≡ false)
          (update (id_among found) (claimed_row now) rows)
  unfolding update
  update-claimed [] = tt
  update-claimed (r ∷ rows) = elim (Bool-cases (id_among found r)) [
    | inl e ↦ rw e ((λ q. cc), update-claimed rows)
    | inr e ↦ rw e ((λ q. e), update-claimed rows)
  ]

  next_queued-All :
      (m : ℕ) (db : Db)
      → All (λ r. is_queued r.status ≡ true → id_among found r ≡ false) db.episodes
      → All (λ r. id_among found r ≡ false) (next_queued m db)
  unfolding next_queued
  next_queued-All m db h = All-take _ m _ (
      All-order_asc _ (λ r. r.enqueued_at) _
        (All-zip _ (λ r q k. k q) (filter_passes (λ r. is_queued r.status) db.episodes)
          (All-filter _ (λ r. is_queued r.status) db.episodes h)))

claim_state-eq :
    (now : ℕ) (found : List Row) (db after : Db)
    → found ≢ []
    → update_guarded (id_among found) (claimed_row now) db ≡ some after
    → claim_state now found db ≡ after
unfolding claim_rows
claim_state-eq now [] db after h e = absurd (h refl)
claim_state-eq now (r ∷ found) db after h e = rw (e, claim_state, claim_rows)

-- After an accepted claim no row with a claimed id is queued.
claim_state-claimed :
    (now : ℕ) (found : List Row) (db : Db)
    → update_guarded (id_among found) (claimed_row now) db
      ≡ some (record db { episodes = update (id_among found) (claimed_row now) db.episodes })
    → All
        (λ r. is_queued r.status ≡ true → id_among found r ≡ false)
        (claim_state now found db).episodes
unfolding id_among any
claim_state-claimed now [] db e = All-of _ (λ r q. refl)
claim_state-claimed now (r ∷ found) db e =
    rw (claim_state-eq now (r ∷ found) db _ (λ h. cc) e)
      (update-claimed (r ∷ found) now db.episodes)

-- The rows of `later` with an id of `found` are rows of `db`, unchanged.
abbrev pub AreUntouched : List Row → Db → Db → Type 0
AreUntouched found db later = All (λ r. id_among found r ≡ true → Memᴰ r db.episodes) later.episodes

-- A claim has run with no other writer between its SELECT and its UPDATE. Whatever happened to the
-- database since, with any statements of any process in between: as long as the rows with the
-- claimed ids are as the claim left them, the SELECT of a later claim finds none of them.
pub claim_disjoint :
    (n m now : ℕ) (db later : Db)
    → IsValid db
    → AreUntouched (next_queued n db) (claim_state now (next_queued n db) db) later
    → All (λ r. id_among (next_queued n db) r ≡ false) (next_queued m later)
claim_disjoint n m now db later v untouched =
    let found = next_queued n db in
    let taken = claim_state-claimed now found db (claim_accepts n db v now) in
    next_queued-All found now m later (
      All-map later.episodes
        (λ r h q. elim (Bool-cases (id_among found r)) [
          | inl e ↦ All-lookup _ _ taken (h e) q
          | inr e ↦ e
        ])
        untouched)

-- The rows that the second UPDATE selects were set to `processing` by the first.
claimed_twice-Shrinks :
    (found : List Row) (now later : ℕ) (rows : List Row)
    → All
        (λ r. id_among found r ≡ true → Shrinks (claimed_row later r) r)
        (update (id_among found) (claimed_row now) rows)
unfolding update in_scope
claimed_twice-Shrinks found now later [] = tt
claimed_twice-Shrinks found now later (r ∷ rows) = elim (Bool-cases (id_among found r)) [
  | inl e ↦ rw e ((λ q. ground arith), claimed_twice-Shrinks found now later rows)
  | inr e ↦ rw e ((λ q. cc), claimed_twice-Shrinks found now later rows)
]

abbrev after_update : ℕ → List Row → Db → Db
after_update now found db = record db {
  episodes = update (id_among found) (claimed_row now) db.episodes;
}

-- The second claim of the same rows, on the state that the first one leaves.
claim_rows_again :
    (now later : ℕ) (found : List Row) (db : Db)
    → update_guarded (id_among found) (claimed_row now) db ≡ some (after_update now found db)
    → update_guarded (id_among found) (claimed_row later) (after_update now found db)
      ≡ some (after_update later found (after_update now found db))
    → claim_rows later found (claim_state now found db)
      ≡ some (claim_state later found (claim_state now found db), map (claimed_record later) found)
unfolding claim_rows
claim_rows_again now later [] db e f = refl
claim_rows_again now later (r ∷ found) db e f =
    rw (claim_state-eq now (r ∷ found) db _ (λ h. cc) e)
      (claim_rows_accepted later (r ∷ found) _ _ f)

-- When another process claims between the SELECT and the UPDATE of a claim with the same limit, both
-- claims succeed and return the same episodes.
pub claimed_twice :
    (now later : ℕ) (limit : Option ℤ) (db : Db)
    → IsValid db
    → (after : Db) × (claim_next_batch (λ d. d) now limit db
        ≡ some (after, map (claimed_record now) (next_queued (limit_val limit) db)))
      × (last : Db) × (claim_next_batch (λ _. after) later limit db
          ≡ some (last, map (claimed_record later) (next_queued (limit_val limit) db)))
unfolding claim_next_batch
claimed_twice now later limit db v =
    let found = next_queued (limit_val limit) db in
    let first = claim_accepts (limit_val limit) db v now in
    let one = after_update now found db in
    let again = update_guarded_accepts (id_among found) (claimed_row later) one (λ on.
      distinct-update_selected _ _ one.episodes (claimed_twice-Shrinks found now later db.episodes)
        ((update_guarded-eq-some (id_among found) (claimed_row now) db first).1 on)) in
    (
      claim_state now found db,
      claim_rows_accepted now found db _ first,
      claim_state later found (claim_state now found db),
      claim_rows_again now later found db first again,
    )
