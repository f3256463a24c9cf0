-- ===== src/Cache/Lru/Bounds.antt =====
-- The size of the cache of janus_graph/cache/lru.py.
use janus_graph.Base.{
  ℕ, suc, Text, List, [], ◌∷◌, ◌++◌, Bool, some, length, ltb, ◌≤◌, ◌<◌, ◌≡◌, refl, sym, ap, ◌∙◌,
  arith, Bool-cases, Option-cases, inl, inr, length-append, if◌then◌else◌,
}
use janus_graph.Cache.Lru.{
  LruCacheBackend, init, has_key, lookup, remove, get, drop_first, set, clear, size,
}

-- One call of the cache.
pub data Call (V : Type 0) : Type 0 where
  call_get : Text → Call V
  call_set : Text → V → Call V
  call_clear : Call V

module _ {V : Type 0} where
  unfoldable pub apply : Call V → LruCacheBackend V → LruCacheBackend V
  unfolding get set clear
  apply (call_get key) c = (get key c).0
  apply (call_set key v) c = set key v c
  apply call_clear c = clear c

  unfoldable pub run : List (Call V) → LruCacheBackend V → LruCacheBackend V
  run [] c = c
  run (e ∷ calls) c = run calls (apply e c)

  pub length-remove-le :
      (key : Text) (items : List (Text × V)) → length (remove key items) ≤ length items
  unfolding remove
  length-remove-le key [] = omega arith
  length-remove-le key (e ∷ items) = ground (arith, length-remove-le key items)

  -- A key that is found is removed.
  length-remove-lt :
      (key : Text) (items : List (Text × V)) (v : V)
      → lookup key items ≡ some v
      → length (remove key items) < length items
  unfolding remove lookup
  length-remove-lt key [] v h = ground arith
  length-remove-lt key (e ∷ items) v h = elim (Bool-cases (has_key key e)) [
    | inl b ↦ rw b (omega (arith, length-remove-le key items))
    | inr b ↦
        let found = sym (ap (λ (t : Bool). if t then some e.1 else lookup key items) b) ∙ h in
        rw b (omega (arith, length-remove-lt key items v found))
  ]

  -- The bound, and the configured maximum, that every call keeps.
  abbrev pub Fits : ℕ → LruCacheBackend V → Type 0
  Fits n c = (c.max_size ≡ n) × (length c.items ≤ n)

  get-Fits : (n : ℕ) (key : Text) (c : LruCacheBackend V) → Fits n c → Fits n (get key c).0
  unfolding get
  get-Fits n key c h = elim (Option-cases (lookup key c.items)) [
    | inl e ↦ simp (e, get) h
    | inr (v, e) ↦
        simp (e, get, length-append (remove key c.items))
          (h.0, omega (arith, length-remove-lt key c.items v e, h.1))
  ]

  length-drop_first :
      (items : List (Text × V)) (n : ℕ) → length items ≤ suc n → length (drop_first items) ≤ n
  length-drop_first [] n h = omega arith
  length-drop_first (e ∷ items) n h = omega arith

  set-Fits : (n : ℕ) (key : Text) (v : V) (c : LruCacheBackend V) → Fits n c → Fits n (set key v c)
  unfolding set
  set-Fits n key v c h =
      let items = remove key c.items ++ (key, v) ∷ [] in
      let le : length items ≤ suc n = omega (
        arith,
        length-append (remove key c.items) ((key, v) ∷ []),
        length-remove-le key c.items,
        h.1,
      ) in
      elim (Bool-cases (ltb c.max_size (length items))) [
        | inl e ↦ simp (e, set) (h.0, length-drop_first items n le)
        | inr e ↦ simp (e, set) (h.0, ground arith)
      ]

  run-Fits :
      (n : ℕ) (calls : List (Call V)) (c : LruCacheBackend V) → Fits n c → Fits n (run calls c)
  unfolding run apply clear
  run-Fits n [] c h = h
  run-Fits n (call_get key ∷ calls) c h = run-Fits n calls (get key c).0 (get-Fits n key c h)
  run-Fits n (call_set key v ∷ calls) c h = run-Fits n calls (set key v c) (set-Fits n key v c h)
  run-Fits n (call_clear ∷ calls) c h = run-Fits n calls (clear c) (h.0, omega arith)

  -- After any calls of `get`, `set` and `clear` a cache that was made for `n` entries holds at most
  -- `n`.
  pub size-le-max_size : (n : ℕ) (calls : List (Call V)) → size (run calls (init n)) ≤ n
  unfolding init size
  size-le-max_size n calls = (run-Fits n calls (init n) (refl, omega arith)).1
