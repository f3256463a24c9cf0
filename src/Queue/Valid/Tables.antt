-- ===== src/Queue/Valid/Tables.antt =====
-- The primary keys of `episodes` and `dead_letter`, and the invariant of the database.
use janus_graph.Base.{
  Text, text_eq, text_eq_iff, List, [], ◌∷◌, ◌++◌, Bool, true, false, not, ◌≡◌, sym, subst, any,
  filter, update, All, All-map, All-append, All-filter, All-zip, any_of_All, filter_pos, filter_neg,
  filter_passes, Bool-cases, inl, inr, arith,
}
use janus_graph.Queue.Schema.{DeadLetter, Db}
use janus_graph.Queue.Dedup.{distinct}
use janus_graph.Queue.Marks.{put_dead}

-- No two entries have one key.
abbrev pub Keys {ℓ} : {A : Type ℓ} → (A → Text) → List A → Type 0
Keys key [] = Unit
Keys key (x ∷ xs) = All (λ y. text_eq (key y) (key x) ≡ false) xs × Keys key xs

pub record IsValid (db : Db) : Type 0 where
  pub keys : Keys (λ r. r.id) db.episodes
  pub dead_keys : Keys (λ d. d.episode_id) db.dead_letter
  pub index : db.unique_index ≡ true → distinct db.episodes ≡ true

pub text_eq-sym : (s t : Text) → text_eq s t ≡ false → text_eq t s ≡ false
text_eq-sym s t h = ground (arith, text_eq_iff s t, text_eq_iff t s)

module _ {A : Type 0} (key : A → Text) where
  pub Keys-append :
      (xs : List A) (x : A)
      → Keys key xs
      → All (λ y. text_eq (key y) (key x) ≡ false) xs
      → Keys key (xs ++ x ∷ [])
  Keys-append [] x k h = (tt, tt)
  Keys-append (y ∷ ys) x k h = (
    All-append (λ z. text_eq (key z) (key y) ≡ false) ys (x ∷ []) k.0
        (text_eq-sym (key y) (key x) h.0, tt),
    Keys-append ys x k.1 h.1,
  )

  Keys-filter : (p : A → Bool) (xs : List A) → Keys key xs → Keys key (filter p xs)
  unfolding filter
  Keys-filter p [] k = tt
  Keys-filter p (x ∷ xs) k = elim (Bool-cases (p x)) [
    | inl e ↦ rw e (All-filter _ p xs k.0, Keys-filter p xs k.1)
    | inr e ↦ rw e (Keys-filter p xs k.1)
  ]

  module _ (p : A → Bool) (f : A → A) (same : (x : A) → key (f x) ≡ key x) where
    All-other-update :
        (k : Text) (xs : List A)
        → All (λ y. text_eq (key y) k ≡ false) xs
        → All (λ y. text_eq (key y) k ≡ false) (update p f xs)
    unfolding update
    All-other-update k [] h = tt
    All-other-update k (x ∷ xs) h = elim (Bool-cases (p x)) [
      | inl e ↦ rw e (rw same h.0, All-other-update k xs h.1)
      | inr e ↦ rw e (h.0, All-other-update k xs h.1)
    ]

    pub Keys-update : (xs : List A) → Keys key xs → Keys key (update p f xs)
    unfolding update
    Keys-update [] k = tt
    Keys-update (x ∷ xs) k = elim (Bool-cases (p x)) [
      | inl e ↦ rw e (rw same (All-other-update (key x) xs k.0), Keys-update xs k.1)
      | inr e ↦ rw e (All-other-update (key x) xs k.0, Keys-update xs k.1)
    ]

  not_found :
      (p : A → Bool) (k : Text) (xs : List A)
      → All (λ y. text_eq (key y) k ≡ false) xs
      → any (λ y. text_eq (key y) k) (filter p xs) ≡ false
  not_found p k xs h =
      any_of_All (λ y. text_eq (key y) k) (filter p xs)
        (All-filter (λ y. text_eq (key y) k ≡ false) p xs h)

  abbrev Selected : (A → Bool) → List A → A → Type 0
  Selected p found x = any (λ y. text_eq (key y) (key x)) found ≡ true → p x ≡ true

  Selected-cons :
      (p : A → Bool) (x y : A) (found : List A)
      → text_eq (key y) (key x) ≡ false
      → Selected p found y
      → Selected p (x ∷ found) y
  unfolding any
  Selected-cons p x y found other h = λ e. h (ground (arith, text_eq-sym (key y) (key x)))

  -- Under distinct keys a row whose key is that of a selected row was selected itself.
  pub selected_of_key :
      (p : A → Bool) (xs : List A)
      → Keys key xs
      → All (λ x. any (λ y. text_eq (key y) (key x)) (filter p xs) ≡ true → p x ≡ true) xs
  selected_of_key p [] k = tt
  selected_of_key p (x ∷ xs) k = elim (Bool-cases (p x)) [
    | inl e ↦
        subst (λ f. All (Selected p f) (x ∷ xs)) (sym (filter_pos p x xs e))
          (
            (λ _. e),
            All-zip xs (λ y. Selected-cons p x y (filter p xs)) k.0 (selected_of_key p xs k.1),
          )
    | inr e ↦
        subst (λ f. All (Selected p f) (x ∷ xs)) (sym (filter_neg p x xs e))
          ((λ found. cc (not_found p (key x) xs k.0)), selected_of_key p xs k.1)
  ]

pub put_dead-Keys :
    (d : DeadLetter) (dead : List DeadLetter)
    → Keys (λ e. e.episode_id) dead
    → Keys (λ e. e.episode_id) (put_dead d dead)
put_dead-Keys d dead k =
    Keys-append (λ e. e.episode_id) (filter (λ e. not (text_eq e.episode_id d.episode_id)) dead) d
      (Keys-filter (λ e. e.episode_id) (λ e. not (text_eq e.episode_id d.episode_id)) dead k)
      (All-map _ (λ e h. ground arith)
        (filter_passes (λ e. not (text_eq e.episode_id d.episode_id)) dead))
