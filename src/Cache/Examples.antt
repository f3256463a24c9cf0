-- ===== src/Cache/Examples.antt =====
-- Tests of the caches (janus_graph/cache).
use janus_graph.Base.{ℕ, Text, codes, List, [], ◌∷◌, map, none, some, ◌≡◌, refl, arith}
use janus_graph.Cache.Lru.{LruCacheBackend, get, set}
use janus_graph.Cache.Lru.Bounds.{Call, call_get, call_set}
use janus_graph.Cache.Lru.Recency.{get-set}
use janus_graph.Cache.Embed.{Input, text, Result, ok, Inner, EmbedCache, create_batch}
use janus_graph.Cache.Embed.Coherent.{IsFaithful, IsCoherent}
use janus_graph.Cache.Embed.Batch.{create_batch-vecs}

abbrev calls : List (Call ℕ)
calls =
    call_set (codes "a") 1
    ∷ call_set (codes "b") 2
    ∷ call_get (codes "a")
    ∷ call_set (codes "c") 3
    ∷ []

abbrev two : LruCacheBackend ℕ
two = record { max_size = 2; items = (codes "a", 1) ∷ (codes "b", 2) ∷ [] }

abbrev roomy : LruCacheBackend ℕ
roomy = record two { max_size = 3 }

get-set_example : (get (codes "c") (set (codes "c") 3 two)).1 ≡ some 3
get-set_example = get-set (codes "c") 3 two (omega arith)

-- The text is its own hash and its own vector.
abbrev same_text : Text → Text
same_text t = t

abbrev call_input : Input → Result Text
call_input (text t) = ok t
call_input (Input.listed t) = ok t
call_input (Input.other n) = ok []

abbrev embedder : Inner Text
embedder = record {
  create = some call_input;
  embed = none;
  create_batch = some (λ texts. ok (map same_text texts));
}

embedder-IsFaithful : IsFaithful same_text embedder
embedder-IsFaithful = record {
  creates = λ t. (refl, refl);
  embeds = tt;
  batches = λ texts. refl;
  answers = tt;
}

abbrev warm : EmbedCache Text
warm = record {
  backend = record { max_size = 2; items = (codes "a", codes "a") ∷ [] };
  hits = 0;
  misses = 1;
}

warm-IsCoherent : IsCoherent same_text same_text (λ s t e. e) warm.backend
warm-IsCoherent = ((λ t e. cc), tt)

create_batch-vecs_example :
    let end = create_batch same_text embedder (codes "b" ∷ codes "a" ∷ codes "b" ∷ []) warm in
    IsCoherent same_text same_text (λ s t e. e) end.0.backend
    × (end.1 ≡ ok (codes "b" ∷ codes "a" ∷ codes "b" ∷ []))
create_batch-vecs_example =
    create_batch-vecs same_text same_text (λ s t e. e) embedder embedder-IsFaithful
      (codes "b" ∷ codes "a" ∷ codes "b" ∷ []) warm warm-IsCoherent
