-- ===== src/Queue/Policy.antt =====
-- The shared retry policy of janus_graph/pipeline/queue.py: `RetryPolicy` and
-- `_policy_where_clause`. A clause of the SQL predicate is a test on the error column, where
-- `none` is NULL. Error texts and codes are compared as ASCII, as SQLite's `lower` does.
use janus_graph.Base.{
  ℕ, Text, codes, lower, contains, List, [], ◌∷◌, map, Bool, true, false, not, ◌&&◌, Option, none,
  some, if◌then◌else◌,
}
use janus_graph.Base.Int.{ℤ, pos}
pub mod Codes

pub record RetryPolicy : Type 0 where
  pub permanent_error_codes : List Text
  pub allowed_error_codes : List Text
  pub reap_limit : ℤ
  pub respect_attempt_ceiling : Bool
  pub max_attempts : ℕ

abbrev pub default_policy : RetryPolicy
default_policy = record {
  permanent_error_codes = codes "Error code: 404" ∷ codes "Error code: 402" ∷ [];
  allowed_error_codes = [];
  reap_limit = pos 24;
  respect_attempt_ceiling = true;
  max_attempts = 3;
}

-- `instr(lower(column), lower(code)) > 0`
unfoldable pub mentions : Text → Text → Bool
mentions code error = contains (lower error) (lower code)

-- `(column IS NULL OR instr(...) > 0)`
pub allowed_clause : Text → Option Text → Bool
allowed_clause code none = true
allowed_clause code (some error) = mentions code error

-- `(column IS NULL OR instr(...) = 0)`
pub permanent_clause : Text → Option Text → Bool
permanent_clause code none = true
permanent_clause code (some error) = not (mentions code error)

abbrev clauses_of : List Text → List Text → List (Option Text → Bool)
clauses_of (code ∷ allowed) permanent = map allowed_clause (code ∷ allowed)
clauses_of [] permanent = map permanent_clause permanent

pub policy_where_clause : Option RetryPolicy → List (Option Text → Bool)
policy_where_clause none = []
policy_where_clause (some policy) =
    clauses_of policy.allowed_error_codes policy.permanent_error_codes

-- The clauses joined by AND.
pub all_hold : List (Option Text → Bool) → Option Text → Bool
all_hold [] error = true
all_hold (clause ∷ clauses) error = clause error && all_hold clauses error

pub permits : RetryPolicy → Option Text → Bool
unfolding policy_where_clause all_hold
permits policy error = all_hold (policy_where_clause (some policy)) error
