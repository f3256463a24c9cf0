-- ===== src/Cache/Embed/Batch.antt =====
-- What `create_batch` of janus_graph/cache/embed_cache.py returns.
use janus_graph.Base.{
  ℕ, suc, Text, List, [], ◌∷◌, ◌++◌, map, Option, none, some, ◌≡◌, refl, sym, ap, ◌∙◌, arith,
  length, ◌+◌, Option-cases, inl, inr, set_elem, somes, length-append,
}
use mathlib.Core.List.{append_assoc}
use janus_graph.Cache.Lru.{LruCacheBackend, get, set}
use janus_graph.Cache.Lru.Recency.{get_value}
use janus_graph.Cache.Embed.{
  Input, text, Result, ok, Inner, EmbedCache, scan, each, fetch_batch, fill, finish, create_batch,
}
use janus_graph.Cache.Embed.Coherent.{
  Creates, Embeds, Batches, Answers, IsFaithful, IsCoherent, get-IsCoherent, set-IsCoherent,
  lookup-IsRight,
}

module _ {E : Type 0} where
  set_elem_at :
      (pre : List (Option E)) (x y : Option E) (rest : List (Option E))
      → set_elem (length pre) y (pre ++ x ∷ rest) ≡ pre ++ y ∷ rest
  unfolding set_elem
  set_elem_at [] x y rest = refl
  set_elem_at (p ∷ pre) x y rest = ap (◌∷◌ p) (set_elem_at pre x y rest)

  somes_all :
      (vec : Text → E) (texts : List Text) → somes (map (λ t. some (vec t)) texts) ≡ map vec texts
  unfolding somes
  somes_all vec [] = refl
  somes_all vec (t ∷ texts) = ap (◌∷◌ (vec t)) (somes_all vec texts)

module _ {E : Type 0} (hash_text : Text → Text) (vec : Text → E)
    (apart : (s t : Text) → hash_text s ≡ hash_text t → s ≡ t) (inner : Inner E) where
  abbrev Right : LruCacheBackend E → Type 0
  Right c = IsCoherent hash_text vec apart c

  each_all :
      (call : Text → Result E) (texts : List Text)
      → ((t : Text) → call t ≡ ok (vec t))
      → each hash_text inner call texts ≡ ok (map vec texts)
  unfolding each
  each_all call [] h = refl
  each_all call (t ∷ texts) h = rw (each, h t, each_all call texts h)

  fill-Right :
      (indices : List ℕ) (texts : List Text) (results : List (Option E)) (c : LruCacheBackend E)
      → Right c
      → Right (fill hash_text inner indices texts (map vec texts) results c).1
  unfolding fill
  fill-Right [] texts results c h = h
  fill-Right (i ∷ indices) [] results c h = h
  fill-Right (i ∷ indices) (t ∷ texts) results c h =
      fill-Right indices texts (set_elem i (some (vec t)) results) (set (hash_text t) (vec t) c)
        (set-IsCoherent hash_text vec apart t c h)

  abbrev hit_cache : Text → EmbedCache E → EmbedCache E
  hit_cache t c = record c { backend = (get (hash_text t) c.backend).0; hits = c.hits + 1 }

  abbrev miss_cache : Text → EmbedCache E → EmbedCache E
  miss_cache t c = record c { backend = (get (hash_text t) c.backend).0; misses = c.misses + 1 }

  scan_hit :
      (idx : ℕ) (t : Text) (texts : List Text) (c : EmbedCache E) (v : E)
      → (get (hash_text t) c.backend).1 ≡ some v
      → let rest = scan hash_text inner (suc idx) texts (hit_cache t c) in
        scan hash_text inner idx (t ∷ texts) c ≡ (record rest { results = some v ∷ rest.results })
  unfolding scan
  scan_hit idx t texts c v e = simp (e, scan)

  scan_miss :
      (idx : ℕ) (t : Text) (texts : List Text) (c : EmbedCache E)
      → (get (hash_text t) c.backend).1 ≡ none
      → let rest = scan hash_text inner (suc idx) texts (miss_cache t c) in
        scan hash_text inner idx (t ∷ texts) c ≡ record {
          cache = rest.cache;
          results = none ∷ rest.results;
          miss_indices = idx ∷ rest.miss_indices;
          miss_texts = t ∷ rest.miss_texts;
        }
  unfolding scan
  scan_miss idx t texts c e = simp (e, scan)

  get-vec :
      (t : Text) (c : LruCacheBackend E) (v : E)
      → Right c
      → (get (hash_text t) c).1 ≡ some v
      → v ≡ vec t
  get-vec t c v h e =
      lookup-IsRight hash_text vec apart t v c.items h (sym (get_value (hash_text t) c) ∙ e)

  longer :
      (pre : List (Option E)) (x : Option E) (idx : ℕ)
      → length pre ≡ idx
      → length (pre ++ x ∷ []) ≡ suc idx
  longer pre x idx len = omega (arith, length-append pre (x ∷ []))

  -- The slots that the first loop leaves, filled with the vectors of the missed texts.
  scan-fill :
      (idx : ℕ) (texts : List Text) (c : EmbedCache E) (pre : List (Option E))
      (b : LruCacheBackend E)
      → Right c.backend
      → length pre ≡ idx
      → let s = scan hash_text inner idx texts c in
        (fill hash_text inner s.miss_indices s.miss_texts
          (map vec s.miss_texts)
          (pre ++ s.results)
          b).0
        ≡ pre ++ map (λ t. some (vec t)) texts
  unfolding scan fill
  scan-fill idx [] c pre b h len = refl
  scan-fill idx (t ∷ texts) c pre b h len =
      let kept = get-IsCoherent hash_text vec apart t c.backend h in
      let all = map (λ t. some (vec t)) texts in
      elim (Option-cases (get (hash_text t) c.backend).1) [
        | inl e ↦
            let s = scan hash_text inner (suc idx) texts (miss_cache t c) in
            let b' = set (hash_text t) (vec t) b in
            let slot =
              ap (λ i. set_elem i (some (vec t)) (pre ++ none ∷ s.results)) (sym len)
              ∙ set_elem_at pre none (some (vec t)) s.results
              ∙ sym (append_assoc pre (some (vec t) ∷ []) s.results) in
            rw (scan_miss idx t texts c e) (
              ap
                (λ r.
                  (fill hash_text inner s.miss_indices s.miss_texts (map vec s.miss_texts) r b').0)
                slot
              ∙ scan-fill (suc idx) texts (miss_cache t c) (pre ++ some (vec t) ∷ []) b' kept
                  (longer pre (some (vec t)) idx len)
              ∙ append_assoc pre (some (vec t) ∷ []) all)
        | inr (v, e) ↦
            let s = scan hash_text inner (suc idx) texts (hit_cache t c) in
            rw (scan_hit idx t texts c v e) (
              ap
                (λ r.
                  (fill hash_text inner s.miss_indices s.miss_texts (map vec s.miss_texts) r b).0)
                (sym (append_assoc pre (some v ∷ []) s.results))
              ∙ scan-fill (suc idx) texts (hit_cache t c) (pre ++ some v ∷ []) b kept
                  (longer pre (some v) idx len)
              ∙ append_assoc pre (some v ∷ []) all
              ∙ ap (λ x. pre ++ some x ∷ all) (get-vec t c.backend v h e))
      ]

  scan-Right :
      (idx : ℕ) (texts : List Text) (c : EmbedCache E)
      → Right c.backend
      → Right (scan hash_text inner idx texts c).cache.backend
  unfolding scan
  scan-Right idx [] c h = h
  scan-Right idx (t ∷ texts) c h =
      let kept = get-IsCoherent hash_text vec apart t c.backend h in
      elim (Option-cases (get (hash_text t) c.backend).1) [
        | inl e ↦ rw (scan_miss idx t texts c e) (scan-Right (suc idx) texts (miss_cache t c) kept)
        | inr (v, e) ↦
            rw (scan_hit idx t texts c v e) (scan-Right (suc idx) texts (hit_cache t c) kept)
      ]

  batch_of :
      (faithful : IsFaithful vec inner) (texts : List Text)
      → fetch_batch hash_text inner texts ≡ ok (map vec texts)
  unfolding fetch_batch
  batch_of faithful texts =
      go inner.create inner.embed inner.create_batch faithful.creates faithful.embeds
        faithful.batches faithful.answers
    where
      go :
          (create : Option (Input → Result E)) (embed : Option (Text → Result E))
          (create_batch : Option (List Text → Result (List E)))
          → Creates vec create
          → Embeds vec embed
          → Batches vec create_batch
          → Answers create embed
          → fetch_batch hash_text
              (record { create = create; embed = embed; create_batch = create_batch })
              texts
            ≡ ok (map vec texts)
      go create embed (some call) c e b h = b texts
      go (some call) embed none c e b h = each_all (λ t. call (text t)) texts (λ t. (c t).0)
      go none (some call) none c e b h = each_all call texts e
      go none none none c e b h = absurd h

  fill_nothing :
      (indices : List ℕ) (vs : List E) (results : List (Option E)) (b : LruCacheBackend E)
      → (fill hash_text inner indices [] vs results b).0 ≡ results
  unfolding fill
  fill_nothing [] vs results b = refl
  fill_nothing (i ∷ indices) vs results b = refl

  finish-ok :
      (faithful : IsFaithful vec inner) (cache : EmbedCache E) (results : List (Option E))
      (indices : List ℕ) (texts : List Text) (vs : List E)
      → somes (fill hash_text inner indices texts (map vec texts) results cache.backend).0 ≡ vs
      → Right cache.backend
      → let end = finish hash_text inner (record {
        cache = cache;
        results = results;
        miss_indices = indices;
        miss_texts = texts;
      }) in
        Right end.0.backend × (end.1 ≡ ok vs)
  unfolding finish
  finish-ok faithful cache results indices [] vs filled h =
      (h, ap ok (ap somes (sym (fill_nothing indices [] results cache.backend)) ∙ filled))
  finish-ok faithful cache results indices (t ∷ texts) vs filled h =
      rw (batch_of faithful (t ∷ texts), finish)
        (fill-Right indices (t ∷ texts) results cache.backend h, ap ok filled)

  -- If the hash of the cache does not collide, the embedder is faithful and the cache holds right
  -- vectors only, then `create_batch` returns the vectors of its texts, in their order, for any
  -- mixture of hits, misses and repeated texts, and leaves right vectors only.
  pub create_batch-vecs :
      (faithful : IsFaithful vec inner) (texts : List Text) (c : EmbedCache E)
      → IsCoherent hash_text vec apart c.backend
      → let end = create_batch hash_text inner texts c in
        IsCoherent hash_text vec apart end.0.backend × (end.1 ≡ ok (map vec texts))
  unfolding create_batch
  create_batch-vecs faithful [] c h = (h, refl)
  create_batch-vecs faithful (t ∷ texts) c h =
      let s = scan hash_text inner 0 (t ∷ texts) c in
      finish-ok faithful s.cache s.results s.miss_indices s.miss_texts (map vec (t ∷ texts))
        (ap somes (scan-fill 0 (t ∷ texts) c [] s.cache.backend h refl) ∙ somes_all vec (t ∷ texts))
        (scan-Right 0 (t ∷ texts) c h)
