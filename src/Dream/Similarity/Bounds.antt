-- ===== src/Dream/Similarity/Bounds.antt =====
-- The range of `jaccard` (janus_graph/pipeline/dedup.py), and the order of fractions.
use janus_graph.Base.{
  ℕ, Text, List, [], ◌∷◌, ◌≡◌, refl, ◌≤◌, ◌<◌, ◌*◌, arith, Bool, true, not, count, length, any,
}
use native.Mathlib.Nat.{le_of_mul-le-mul_right, mul-le-mul_right}
use janus_graph.Dream.Similarity.{Score, at_least, above, jaccard, member}

pub count-le-length : (p : Text → Bool) (ts : List Text) → count p ts ≤ length ts
unfolding count
count-le-length p [] = omega arith
count-le-length p (t ∷ ts) = ground (arith, count-le-length p ts)

none_member : (ts : List Text) → count (λ t. not (member t [])) ts ≡ length ts
unfolding count any
none_member [] = refl
none_member (t ∷ ts) = omega (arith, none_member ts)

-- A similarity lies between 0 and 1, and its denominator is positive.
pub jaccard_bounds :
    (a b : List Text) → ((jaccard a b).num ≤ (jaccard a b).den) × (0 < (jaccard a b).den)
unfolding jaccard count any
jaccard_bounds [] [] = omega arith
jaccard_bounds [] (t ∷ b) = omega (arith, none_member b)
jaccard_bounds (s ∷ a) b = omega (arith, count-le-length (λ t. member t b) (s ∷ a))

pub at_least_of_above : (s t : Score) → above s t ≡ true → at_least s t ≡ true
at_least_of_above s t h = ground arith

pub at_least_refl : (s : Score) → at_least s s ≡ true
at_least_refl s = ground arith

cross : (a b c d e f : ℕ) → 0 < d → c * b ≤ a * d → e * d ≤ c * f → e * b ≤ a * f
cross a b c d e f p h k =
    le_of_mul-le-mul_right {m = e * b} {n = a * f} {k = d}
      (omega (arith, mul-le-mul_right b k, mul-le-mul_right f h)) p

-- What beats the best beats the rest.
pub above_trans :
    (s t u : Score) → 0 < t.den → above s t ≡ true → at_least t u ≡ true → at_least s u ≡ true
above_trans s t u d h k = ground (arith, cross s.num s.den t.num t.den u.num u.den d)
