-- ===== src/Base/Rows.antt =====
-- Facts about every element of a list, and about two tables row by row.
use janus_graph.Base.Tests.{leb, Bool-cases}
use janus_graph.Base.Lists.{
  All, any, filter, take, update, insert_asc, order_asc, insert_desc, order_desc, count, length,
}
use Prim.Native.Nat.{ℕ, zero, suc, ◌≤◌, ◌+◌}
use mathlib.Core.Path.{◌≡◌, refl, ap, ◌∙◌, subst, sym}
use mathlib.Core.Logic.{inl, inr}
use mathlib.Core.Bool.{Bool, true, false, ◌||◌}
use mathlib.Core.List.{List, [], ◌∷◌, ◌++◌, map, Memᴰ}
use mathlib.Core.List.Memᴰ
use native.Mathlib.Omega.{arith}

module _ {ℓ} {A : Type ℓ} where
  -- The tables have the same length and `P` holds of the rows at each place.
  abbrev pub Pairs : (A → A → Type 0) → List A → List A → Type 0
  Pairs P [] [] = Unit
  Pairs P (x ∷ xs) (y ∷ ys) = P x y × Pairs P xs ys
  Pairs P _ _ = ⊥

  pub All-map {κ μ} :
      {P : A → Type κ} {Q : A → Type μ} (xs : List A) → ((x : A) → P x → Q x) → All P xs → All Q xs
  All-map [] f a = tt
  All-map (x ∷ xs) f a = (f x a.0, All-map xs f a.1)

  pub All-zip {κ μ ν} :
      {P : A → Type κ} {Q : A → Type μ} {R : A → Type ν} (xs : List A)
      → ((x : A) → P x → Q x → R x)
      → All P xs
      → All Q xs
      → All R xs
  All-zip [] f a b = tt
  All-zip (x ∷ xs) f a b = (f x a.0 b.0, All-zip xs f a.1 b.1)

  pub All-of {κ} : {P : A → Type κ} (xs : List A) → ((x : A) → P x) → All P xs
  All-of [] f = tt
  All-of (x ∷ xs) f = (f x, All-of xs f)

  pub All-lookup : (P : A → Type 0) (xs : List A) {x : A} → All P xs → Memᴰ x xs → P x
  All-lookup P [] a m = absurd (Memᴰ.not-nil m)
  All-lookup P (y ∷ xs) a m = elim (Memᴰ.cases_cons m) [
    | inl e ↦ subst P (sym e) a.0
    | inr k ↦ All-lookup P xs a.1 k
  ]

  pub All-Mem : (xs : List A) → All (λ x. Memᴰ x xs) xs
  All-Mem [] = tt
  All-Mem (x ∷ xs) = (Memᴰ.head refl, All-map xs (λ y m. Memᴰ.tail m) (All-Mem xs))

  pub All-append : (P : A → Type 0) (xs ys : List A) → All P xs → All P ys → All P (xs ++ ys)
  All-append P [] ys hx hy = hy
  All-append P (x ∷ xs) ys hx hy = (hx.0, All-append P xs ys hx.1 hy)

  -- No row passes a test that finds none.
  pub All-of_any : (p : A → Bool) (xs : List A) → any p xs ≡ false → All (λ x. p x ≡ false) xs
  unfolding any
  All-of_any p [] h = tt
  All-of_any p (x ∷ xs) h = (ground arith, All-of_any p xs (ground arith))

  pub any_of_All : (p : A → Bool) (xs : List A) → All (λ x. p x ≡ false) xs → any p xs ≡ false
  unfolding any
  any_of_All p [] h = refl
  any_of_All p (x ∷ xs) h = ground (arith, any_of_All p xs h.1)

  pub All-filter : (P : A → Type 0) (p : A → Bool) (xs : List A) → All P xs → All P (filter p xs)
  unfolding filter
  All-filter P p [] h = tt
  All-filter P p (x ∷ xs) h = elim (Bool-cases (p x)) [
    | inl e ↦ rw e (h.0, All-filter P p xs h.1)
    | inr e ↦ rw e (All-filter P p xs h.1)
  ]

  pub filter_pos :
      (p : A → Bool) (x : A) (xs : List A) → p x ≡ true → filter p (x ∷ xs) ≡ x ∷ filter p xs
  unfolding filter
  filter_pos p x xs e = rw e

  pub filter_neg :
      (p : A → Bool) (x : A) (xs : List A) → p x ≡ false → filter p (x ∷ xs) ≡ filter p xs
  unfolding filter
  filter_neg p x xs e = rw e

  pub filter_passes : (p : A → Bool) (xs : List A) → All (λ x. p x ≡ true) (filter p xs)
  unfolding filter
  filter_passes p [] = tt
  filter_passes p (x ∷ xs) = elim (Bool-cases (p x)) [
    | inl e ↦ rw e (e, filter_passes p xs)
    | inr e ↦ rw e (filter_passes p xs)
  ]

  All-insert_asc :
      (P : A → Type 0) (key : A → ℕ) (x : A) (xs : List A)
      → P x
      → All P xs
      → All P (insert_asc key x xs)
  unfolding insert_asc
  All-insert_asc P key x [] hx h = (hx, tt)
  All-insert_asc P key x (y ∷ ys) hx h = elim (Bool-cases (leb (key x) (key y))) [
    | inl e ↦ rw e (hx, h)
    | inr e ↦ rw e (h.0, All-insert_asc P key x ys hx h.1)
  ]

  pub All-order_asc :
      (P : A → Type 0) (key : A → ℕ) (xs : List A) → All P xs → All P (order_asc key xs)
  unfolding order_asc
  All-order_asc P key [] h = tt
  All-order_asc P key (x ∷ xs) h =
      All-insert_asc P key x (order_asc key xs) h.0 (All-order_asc P key xs h.1)

  All-insert_desc :
      (P : A → Type 0) (key : A → ℕ) (x : A) (xs : List A)
      → P x
      → All P xs
      → All P (insert_desc key x xs)
  unfolding insert_desc
  All-insert_desc P key x [] hx h = (hx, tt)
  All-insert_desc P key x (y ∷ ys) hx h = elim (Bool-cases (leb (key y) (key x))) [
    | inl e ↦ rw e (hx, h)
    | inr e ↦ rw e (h.0, All-insert_desc P key x ys hx h.1)
  ]

  pub All-order_desc :
      (P : A → Type 0) (key : A → ℕ) (xs : List A) → All P xs → All P (order_desc key xs)
  unfolding order_desc
  All-order_desc P key [] h = tt
  All-order_desc P key (x ∷ xs) h =
      All-insert_desc P key x (order_desc key xs) h.0 (All-order_desc P key xs h.1)

  pub length-order_desc : (key : A → ℕ) (xs : List A) → length (order_desc key xs) ≡ length xs
  unfolding order_desc insert_desc
  length-order_desc key [] = refl
  length-order_desc key (x ∷ xs) =
      length-insert x (order_desc key xs) ∙ ap suc (length-order_desc key xs)
    where
      length-insert : (x : A) (xs : List A) → length (insert_desc key x xs) ≡ suc (length xs)
      length-insert x [] = refl
      length-insert x (y ∷ ys) = elim (Bool-cases (leb (key y) (key x))) [
        | inl e ↦ rw e
        | inr e ↦ rw e (ap suc (length-insert x ys))
      ]

  pub length-filter : (p : A → Bool) (xs : List A) → length (filter p xs) ≡ count p xs
  unfolding filter count
  length-filter p [] = refl
  length-filter p (x ∷ xs) = ground (arith, length-filter p xs)

  pub count-le :
      (p q : A → Bool) (xs : List A) → ((x : A) → p x ≡ true → q x ≡ true) → count p xs ≤ count q xs
  unfolding count
  count-le p q [] h = omega arith
  count-le p q (x ∷ xs) h = ground (arith, h x, count-le p q xs h)

  pub count-or :
      (p q : A → Bool) (xs : List A) → count (λ x. p x || q x) xs ≤ count p xs + count q xs
  unfolding count
  count-or p q [] = omega arith
  count-or p q (x ∷ xs) = ground (arith, count-or p q xs)

  pub All-take : (P : A → Type 0) (n : ℕ) (xs : List A) → All P xs → All P (take n xs)
  All-take P zero xs h = tt
  All-take P (suc n) [] h = tt
  All-take P (suc n) (x ∷ xs) h = (h.0, All-take P n xs h.1)

  pub Pairs-refl : (P : A → A → Type 0) (xs : List A) → ((x : A) → P x x) → Pairs P xs xs
  Pairs-refl P [] h = tt
  Pairs-refl P (x ∷ xs) h = (h x, Pairs-refl P xs h)

  pub Pairs-update :
      (P : A → A → Type 0) (p : A → Bool) (f : A → A) (xs : List A)
      → ((x : A) → P x x)
      → All (λ x. p x ≡ true → P x (f x)) xs
      → Pairs P xs (update p f xs)
  unfolding update
  Pairs-update P p f [] same h = tt
  Pairs-update P p f (x ∷ xs) same h = elim (Bool-cases (p x)) [
    | inl e ↦ rw e (h.0 e, Pairs-update P p f xs same h.1)
    | inr e ↦ rw e (same x, Pairs-update P p f xs same h.1)
  ]

  pub Pairs-trans :
      (P Q R : A → A → Type 0) (xs ys zs : List A)
      → ((x y z : A) → P x y → Q y z → R x z)
      → Pairs P xs ys
      → Pairs Q ys zs
      → Pairs R xs zs
  Pairs-trans P Q R [] [] [] join p q = tt
  Pairs-trans P Q R (x ∷ xs) (y ∷ ys) (z ∷ zs) join p q =
      (join x y z p.0 q.0, Pairs-trans P Q R xs ys zs join p.1 q.1)
  Pairs-trans P Q R [] (y ∷ ys) zs join p q = absurd p
  Pairs-trans P Q R (x ∷ xs) [] zs join p q = absurd p
  Pairs-trans P Q R [] [] (z ∷ zs) join p q = absurd q
  Pairs-trans P Q R (x ∷ xs) (y ∷ ys) [] join p q = absurd q

  -- A fact about each old row sharpens what is known of each pair.
  pub Pairs-map :
      (P R : A → A → Type 0) (Q : A → Type 0) (xs ys : List A)
      → ((x y : A) → Q x → P x y → R x y)
      → All Q xs
      → Pairs P xs ys
      → Pairs R xs ys
  Pairs-map P R Q [] [] f q p = tt
  Pairs-map P R Q (x ∷ xs) (y ∷ ys) f q p = (f x y q.0 p.0, Pairs-map P R Q xs ys f q.1 p.1)
  Pairs-map P R Q [] (y ∷ ys) f q p = absurd p
  Pairs-map P R Q (x ∷ xs) [] f q p = absurd p

  Pairs-length : (P : A → A → Type 0) (xs ys : List A) → Pairs P xs ys → length ys ≡ length xs
  Pairs-length P [] [] p = refl
  Pairs-length P (x ∷ xs) (y ∷ ys) p = omega (arith, Pairs-length P xs ys p.1)
  Pairs-length P [] (y ∷ ys) p = absurd p
  Pairs-length P (x ∷ xs) [] p = absurd p

pub All-map_list {ℓ} :
    {A B : Type ℓ} (P : B → Type 0) (f : A → B) (xs : List A)
    → All (λ x. P (f x)) xs
    → All P (map f xs)
All-map_list P f [] h = tt
All-map_list P f (x ∷ xs) h = (h.0, All-map_list P f xs h.1)
