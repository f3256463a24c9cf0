-- ===== src/Dream/Similarity.antt =====
-- `tokenize` and `jaccard` of janus_graph/pipeline/dedup.py. A similarity is a fraction. The code
-- divides it out as a float; a quotient of word counts is rounded monotonically, and two different
-- ones of fewer than 2^26 words stay apart, so the comparisons agree.
use janus_graph.Base.{
  ℕ, Text, text_eq, lower, List, [], ◌∷◌, ◌++◌, ◌+◌, ◌*◌, Bool, true, false, not, ◌&&◌, ◌||◌,
  Option, get_or, any, count, length, leb, ltb, ◌==◌, if◌then◌else◌,
}
pub mod Bounds

pub record Score : Type 0 where
  pub num : ℕ
  pub den : ℕ

-- `s >= t`
abbrev pub at_least : Score → Score → Bool
at_least s t = leb (t.num * s.den) (s.num * t.den)

-- `s > t`
abbrev pub above : Score → Score → Bool
above s t = ltb (t.num * s.den) (s.num * t.den)

-- `[a-z0-9_]`
abbrev pub is_word : ℕ → Bool
is_word c = (leb 97 c && leb c 122) || (leb 48 c && leb c 57) || c == 95

-- The word that ends here, if there is one.
abbrev flush : Text → List Text → List Text
flush [] words = words
flush (c ∷ word) words = (c ∷ word) ∷ words

-- `_WORD.findall`: the maximal runs of word characters, the run so far first.
pub find_words : Text → Text → List Text
find_words word [] = flush word []
find_words word (c ∷ s) = elim (is_word c) [
  | true ↦ find_words (word ++ c ∷ []) s
  | false ↦ flush word (find_words [] s)
]

abbrev pub member : Text → List Text → Bool
member t ts = any (text_eq t) ts

-- `frozenset`
pub distinct_words : List Text → List Text
distinct_words [] = []
distinct_words (t ∷ ts) = let rest = distinct_words ts in if member t rest then rest else t ∷ rest

-- Python's `lower`, of which word characters are kept: besides the ASCII letters, the Kelvin sign
-- becomes `k`, and a capital `I` with a dot an `i` and a combining dot.
unfoldable lower_words : Text → Text
unfolding lower
lower_words [] = []
lower_words (c ∷ s) =
    (if c == 8_490 then 107 ∷ [] else if c == 304 then 105 ∷ 775 ∷ [] else lower (c ∷ []))
    ++ lower_words s

unfoldable pub tokenize : Option Text → List Text
unfolding find_words distinct_words lower_words
tokenize text = distinct_words (find_words [] (lower_words (get_or text [])))

-- `len(a & b) / len(a | b)`, and 1 for two empty sets.
unfoldable pub jaccard : List Text → List Text → Score
jaccard [] [] = record { num = 1; den = 1 }
jaccard a b = record {
  num = count (λ t. member t b) a;
  den = length a + count (λ t. not (member t a)) b;
}
