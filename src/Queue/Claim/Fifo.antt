-- ===== src/Queue/Claim/Fifo.antt =====
-- `claim_next_batch` (janus_graph/pipeline/queue.py) hands out the oldest queued episodes.
use janus_graph.Base.{
  ℕ, zero, suc, List, [], ◌∷◌, Bool, true, ◌≡◌, All, All-map, All-take, All-order_asc,
  filter_passes, filter, take, order_asc, insert_asc, length, length-take-le, leb, any, All-of,
  All-zip, ◌⊎◌, text_eq, text_eq_self, ◌≤◌, arith, Bool-cases, inl, inr,
}
use janus_graph.Queue.Schema.{Row, Db, is_queued}
use janus_graph.Queue.Claim.{next_queued, id_among}

module _ {A : Type 0} (key : A → ℕ) where
  -- Each element is at most every later one.
  abbrev pub IsAscending : List A → Type 0
  IsAscending [] = Unit
  IsAscending (x ∷ xs) = All (λ y. key x ≤ key y) xs × IsAscending xs

  insert_asc-All :
      (P : A → Type 0) (x : A) (xs : List A) → P x → All P xs → All P (insert_asc key x xs)
  unfolding insert_asc
  insert_asc-All P x [] hx h = (hx, tt)
  insert_asc-All P x (y ∷ ys) hx h = elim (Bool-cases (leb (key x) (key y))) [
    | inl e ↦ rw e (hx, h)
    | inr e ↦ rw e (h.0, insert_asc-All P x ys hx h.1)
  ]

  insert_asc-IsAscending :
      (x : A) (xs : List A) → IsAscending xs → IsAscending (insert_asc key x xs)
  unfolding insert_asc
  insert_asc-IsAscending x [] a = (tt, tt)
  insert_asc-IsAscending x (y ∷ ys) a = elim (Bool-cases (leb (key x) (key y))) [
    | inl e ↦
        let first : key x ≤ key y = ground arith in
        rw e ((first, All-map ys (λ z h. omega arith) a.0), a)
    | inr e ↦
        let first : key y ≤ key x = ground arith in
        rw e (insert_asc-All (λ z. key y ≤ key z) x ys first a.0, insert_asc-IsAscending x ys a.1)
  ]

  order_asc-IsAscending : (xs : List A) → IsAscending (order_asc key xs)
  unfolding order_asc
  order_asc-IsAscending [] = tt
  order_asc-IsAscending (x ∷ xs) =
      insert_asc-IsAscending x (order_asc key xs) (order_asc-IsAscending xs)

  insert_asc-All_of :
      (P : A → Type 0) (x : A) (xs : List A) → All P (insert_asc key x xs) → P x × All P xs
  unfolding insert_asc
  insert_asc-All_of P x [] h = (h.0, tt)
  insert_asc-All_of P x (y ∷ ys) h = elim (Bool-cases (leb (key x) (key y))) [
    | inl e ↦ let k : P x × All P (y ∷ ys) = rw e at h in k
    | inr e ↦
        let k : P y × All P (insert_asc key x ys) = rw e at h in
        let (hx, hys) = insert_asc-All_of P x ys k.1 in (hx, (k.0, hys))
  ]

  -- What holds of each row of the ordered table holds of each row of the table.
  All-of-order_asc : (P : A → Type 0) (xs : List A) → All P (order_asc key xs) → All P xs
  unfolding order_asc
  All-of-order_asc P [] h = tt
  All-of-order_asc P (x ∷ xs) h =
      let (hx, hxs) = insert_asc-All_of P x (order_asc key xs) h in (hx, All-of-order_asc P xs hxs)

  -- An element of an ascending list is among the first `n`, or none of these lies above it.
  take_split :
      (same : A → A → Bool)
      → ((x : A) → same x x ≡ true)
      → (n : ℕ) (xs : List A) → IsAscending xs
      → All (λ y. (any (same y) (take n xs) ≡ true) ⊎ All (λ x. key x ≤ key y) (take n xs)) xs
  unfolding any
  take_split same refl_same zero xs a = All-of xs (λ y. inr tt)
  take_split same refl_same (suc n) [] a = tt
  take_split same refl_same (suc n) (x ∷ xs) a = (
    inl (ground (arith, refl_same x)),
    All-zip xs
        (λ y below split. elim split [
          | inl found ↦ inl (ground arith)
          | inr all ↦ inr (below, all)
        ])
        a.0 (take_split same refl_same n xs a.1),
  )

  take-IsAscending : (n : ℕ) (xs : List A) → IsAscending xs → IsAscending (take n xs)
  take-IsAscending zero xs a = tt
  take-IsAscending (suc n) [] a = tt
  take-IsAscending (suc n) (x ∷ xs) a =
      (All-take (λ y. key x ≤ key y) n xs a.0, take-IsAscending n xs a.1)

All-of-filter :
    {A : Type 0} (P : A → Type 0) (p : A → Bool) (xs : List A)
    → All P (filter p xs)
    → All (λ x. p x ≡ true → P x) xs
unfolding filter
All-of-filter P p [] h = tt
All-of-filter P p (x ∷ xs) h = elim (Bool-cases (p x)) [
  | inl e ↦ let k : P x × All P (filter p xs) = rw e at h in ((λ _. k.0), All-of-filter P p xs k.1)
  | inr e ↦ let k : All P (filter p xs) = rw e at h in ((λ f. cc), All-of-filter P p xs k)
]

-- The rows `found` are the oldest queued ones, in the order of `enqueued_at`, at most `n`.
pub record IsOldest (n : ℕ) (found : List Row) (db : Db) : Type 0 where
  all_queued : All (λ r. is_queued r.status ≡ true) found
  pub in_order : IsAscending (λ r. r.enqueued_at) found
  pub within : length found ≤ n
  rest_is_younger :
      All
        (λ r.
          is_queued r.status ≡ true
          → (id_among found r ≡ true) ⊎ All (λ s. s.enqueued_at ≤ r.enqueued_at) found)
        db.episodes

-- The SELECT of the claim finds at most `n` rows, all queued and by ascending `enqueued_at`, and
-- every queued row of the table is among them or is at least as young as each of them.
pub next_queued-IsOldest : (n : ℕ) (db : Db) → IsOldest n (next_queued n db) db
unfolding next_queued id_among
next_queued-IsOldest n db =
    let queue = filter (λ r. is_queued r.status) db.episodes in
    let sorted = order_asc (λ r. r.enqueued_at) queue in
    record {
      all_queued =
          All-take _ n sorted
            (All-order_asc _ (λ r. r.enqueued_at) queue (filter_passes _ db.episodes));
      in_order = take-IsAscending _ n sorted (order_asc-IsAscending _ queue);
      within = length-take-le n sorted;
      rest_is_younger =
          All-of-filter _ (λ r. is_queued r.status) db.episodes
            (All-of-order_asc (λ r. r.enqueued_at) _ queue
              (take_split (λ r. r.enqueued_at) (λ y x. text_eq x.id y.id) (λ x. text_eq_self x.id) n
                sorted (order_asc-IsAscending _ queue)));
    }
