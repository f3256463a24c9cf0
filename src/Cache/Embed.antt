-- ===== src/Cache/Embed.antt =====
-- janus_graph/cache/embed_cache.py: `EmbedCache`, with the counters of cache/stats.py. The wrapped
-- embedder is foreign: `Inner` says which of its methods exist and what a call returns.
use janus_graph.Base.{
  ℕ, zero, suc, Text, List, [], ◌∷◌, ◌++◌, Option, none, some, ◌+◌, set_elem, somes,
}
use janus_graph.Cache.Lru
use janus_graph.Cache.Lru.{LruCacheBackend}
pub mod Coherent
pub mod Batch

-- `input_data`: a text, a list of one text, or any other input, by a number that stands for it.
pub data Input : Type 0 where
  text listed : Text → Input
  other : ℕ → Input

-- A call that may raise: an error of the embedder, or `AttributeError`.
pub data Result (A : Type 0) : Type 0 where
  ok : A → Result A
  inner_error attribute_error : Result A

pub record Inner (E : Type 0) : Type 0 where
  pub create : Option (Input → Result E)
  pub embed : Option (Text → Result E)
  pub create_batch : Option (List Text → Result (List E))

pub record EmbedCache (E : Type 0) : Type 0 where
  pub backend : LruCacheBackend E
  pub hits : ℕ
  pub misses : ℕ

unfoldable pub init : {E : Type 0} → ℕ → EmbedCache E
init max_size = record { backend = Lru.init max_size; hits = 0; misses = 0 }

pub get_single_text : Input → Option Text
get_single_text (text t) = some t
get_single_text (listed t) = some t
get_single_text (other n) = none

module _ {E : Type 0} (hash_text : Text → Text) (inner : Inner E) where
  -- The call of the embedder after a miss in `create`.
  pub fetch : Input → Text → Result E
  fetch input t = elim inner.create [
    | some call ↦ call input
    | none ↦ elim inner.embed [ some call ↦ call t | none ↦ attribute_error ]
  ]

  -- The same in `embed`, which prefers `embed`.
  pub fetch_legacy : Text → Result E
  fetch_legacy t = elim inner.embed [
    | some call ↦ call t
    | none ↦ elim inner.create [ some call ↦ call (text t) | none ↦ attribute_error ]
  ]

  -- A hit is counted and returned; a miss is counted, fetched and stored.
  pub through_cache : Text → Result E → EmbedCache E → EmbedCache E × Result E
  through_cache t fetched c =
      let (backend, cached) = Lru.get (hash_text t) c.backend in
      elim cached [
        | some v ↦ (record c { backend = backend; hits = c.hits + 1 }, ok v)
        | none ↦
            let missed = record c { backend = backend; misses = c.misses + 1 } in
            elim fetched [
              | ok v ↦ (record missed { backend = Lru.set (hash_text t) v backend }, ok v)
              | e ↦ (missed, e)
            ]
      ]

  pub create : Input → EmbedCache E → EmbedCache E × Result E
  unfolding get_single_text fetch through_cache
  create input c = elim (get_single_text input) [
    | some t ↦ through_cache t (fetch input t) c
    | none ↦ (c, elim inner.create [ some call ↦ call input | none ↦ attribute_error ])
  ]

  pub embed : Text → EmbedCache E → EmbedCache E × Result E
  unfolding fetch_legacy through_cache
  embed t c = through_cache t (fetch_legacy t) c

  -- What the first loop of `create_batch` leaves: the slots, and the misses with their places.
  pub record Scan : Type 0 where
    pub cache : EmbedCache E
    pub results : List (Option E)
    pub miss_indices : List ℕ
    pub miss_texts : List Text

  pub scan : ℕ → List Text → EmbedCache E → Scan
  scan idx [] c = record { cache = c; results = []; miss_indices = []; miss_texts = [] }
  scan idx (t ∷ texts) c =
      let (backend, cached) = Lru.get (hash_text t) c.backend in
      let c' : EmbedCache E = elim cached [
        | some v ↦ record c { backend = backend; hits = c.hits + 1 }
        | none ↦ record c { backend = backend; misses = c.misses + 1 }
      ] in
      let rest = scan (suc idx) texts c' in
      elim cached [
        | some v ↦ record rest { results = some v ∷ rest.results }
        | none ↦ record {
          cache = rest.cache;
          results = none ∷ rest.results;
          miss_indices = idx ∷ rest.miss_indices;
          miss_texts = t ∷ rest.miss_texts;
        }
      ]

  -- `[await call(t) for t in texts]`
  pub each : (Text → Result E) → List Text → Result (List E)
  each call [] = ok []
  each call (t ∷ texts) =
      let rest = each call texts in
      elim (call t) [
        | ok v ↦ elim rest [
          | ok vs ↦ ok (v ∷ vs)
          | inner_error ↦ inner_error
          | attribute_error ↦ attribute_error
        ]
        | inner_error ↦ inner_error
        | attribute_error ↦ attribute_error
      ]

  pub fetch_batch : List Text → Result (List E)
  unfolding each
  fetch_batch texts = elim inner.create_batch [
    | some call ↦ call texts
    | none ↦ elim inner.create [
      | some call ↦ each (λ t. call (text t)) texts
      | none ↦ elim inner.embed [ some call ↦ each call texts | none ↦ attribute_error ]
    ]
  ]

  -- The second loop: `zip` stops at the shortest list.
  pub fill :
      List ℕ
      → List Text
      → List E
      → List (Option E)
      → LruCacheBackend E
      → List (Option E) × LruCacheBackend E
  fill (i ∷ indices) (t ∷ texts) (v ∷ vs) results backend =
      fill indices texts vs (set_elem i (some v) results) (Lru.set (hash_text t) v backend)
  fill _ _ _ results backend = (results, backend)

  -- What follows the first loop.
  pub finish : Scan → EmbedCache E × Result (List E)
  unfolding fetch_batch fill
  finish s = elim s.miss_texts [
    | [] ↦ (s.cache, ok (somes s.results))
    | t ∷ texts ↦ elim (fetch_batch (t ∷ texts)) [
      | ok vs ↦
          let (results, backend) = fill s.miss_indices (t ∷ texts) vs s.results s.cache.backend in
          (record (s.cache) { backend = backend }, ok (somes results))
      | inner_error ↦ (s.cache, inner_error)
      | attribute_error ↦ (s.cache, attribute_error)
    ]
  ]

  pub create_batch : List Text → EmbedCache E → EmbedCache E × Result (List E)
  unfolding scan finish
  create_batch [] c = (c, ok [])
  create_batch (t ∷ texts) c = finish (scan 0 (t ∷ texts) c)
