-- ===== src/Queue/Policy/Codes.antt =====
-- What `_policy_where_clause` of janus_graph/pipeline/queue.py lets through.
use janus_graph.Base.{
  Text, List, [], ◌∷◌, map, Bool, true, not, ◌&&◌, ◌≡◌, refl, ap, arith, none, some, any, find,
  is_none, ◌∙◌,
}
use janus_graph.Queue.Policy.{
  RetryPolicy, mentions, allowed_clause, permanent_clause, policy_where_clause, all_hold, permits,
}

-- Every code of the list is mentioned.
pub mentions_all : List Text → Text → Bool
mentions_all [] error = true
mentions_all (code ∷ codes) error = mentions code error && mentions_all codes error

all_hold-permanent :
    (codes : List Text) (error : Text)
    → all_hold (map permanent_clause codes) (some error)
      ≡ not (any (λ code. mentions code error) codes)
unfolding all_hold permanent_clause any
all_hold-permanent [] error = refl
all_hold-permanent (code ∷ codes) error = ground (arith, all_hold-permanent codes error)

all_hold-allowed :
    (codes : List Text) (error : Text)
    → all_hold (map allowed_clause codes) (some error) ≡ mentions_all codes error
unfolding all_hold allowed_clause mentions_all
all_hold-allowed [] error = refl
all_hold-allowed (code ∷ codes) error = ground (arith, all_hold-allowed codes error)

permanent-null : (codes : List Text) → all_hold (map permanent_clause codes) none ≡ true
unfolding all_hold permanent_clause
permanent-null [] = refl
permanent-null (code ∷ codes) = permanent-null codes

allowed-null : (codes : List Text) → all_hold (map allowed_clause codes) none ≡ true
unfolding all_hold allowed_clause
allowed-null [] = refl
allowed-null (code ∷ codes) = allowed-null codes

-- What the policy means for a row with an error: without an allowlist, that the error mentions no
-- permanent code; with one, that it mentions every code of the allowlist.
abbrev pub meaning : List Text → List Text → Text → Bool
meaning [] permanent error = not (any (λ code. mentions code error) permanent)
meaning (code ∷ allowed) permanent error = mentions_all (code ∷ allowed) error

-- The SQL predicate lets a row with an error through exactly if, without an allowlist, the error
-- mentions no permanent code, or, with an allowlist, it mentions all of the allowlist's codes. A
-- row without an error always passes.
pub permits-meaning :
    (policy : RetryPolicy) (error : Text)
    → (permits policy (some error)
        ≡ meaning policy.allowed_error_codes policy.permanent_error_codes error)
      × (permits policy none ≡ true)
unfolding permits policy_where_clause all_hold allowed_clause
permits-meaning policy error = go policy.allowed_error_codes policy.permanent_error_codes
  where
    go :
        (allowed permanent : List Text)
        → (permits
              (record policy { allowed_error_codes = allowed; permanent_error_codes = permanent })
              (some error)
            ≡ meaning allowed permanent error)
          × (permits
                (record policy { allowed_error_codes = allowed; permanent_error_codes = permanent })
                none
              ≡ true)
    go [] permanent = (all_hold-permanent permanent error, permanent-null permanent)
    go (code ∷ allowed) permanent = (all_hold-allowed (code ∷ allowed) error, allowed-null allowed)

-- Without an allowlist the first code found in the error decides: there is one exactly if the
-- predicate refuses.
pub permits-find :
    (policy : RetryPolicy) (error : Text)
    → policy.allowed_error_codes ≡ []
    → permits policy (some error)
      ≡ is_none (find (λ code. mentions code error) policy.permanent_error_codes)
unfolding any find
permits-find policy error empty =
    (permits-meaning policy error).0
    ∙ ap (λ allowed. meaning allowed policy.permanent_error_codes error) empty
    ∙ none-find policy.permanent_error_codes
  where
    none-find :
        (codes : List Text)
        → not (any (λ code. mentions code error) codes)
          ≡ is_none (find (λ code. mentions code error) codes)
    none-find [] = refl
    none-find (code ∷ codes) = ground (arith, none-find codes)
