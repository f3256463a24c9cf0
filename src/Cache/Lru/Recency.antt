-- ===== src/Cache/Lru/Recency.antt =====
-- What janus_graph/cache/lru.py keeps, and what it drops.
use janus_graph.Base.{
  ℕ, Text, text_eq, text_eq_self, text_eq_iff, List, [], ◌∷◌, ◌++◌, true, false, some, length, ltb,
  ◌≤◌, ◌<◌, ◌≡◌, refl, arith, Bool-cases, inl, inr, length-append, if◌then◌else◌, All, sym, ap, ◌∙◌,
}
use janus_graph.Cache.Lru.{LruCacheBackend, has_key, lookup, remove, get, drop_first, set}
use janus_graph.Cache.Lru.Bounds.{length-remove-le}

module _ {V : Type 0} where
  abbrev pub Lacks : Text → List (Text × V) → Type 0
  Lacks key items = All (λ e. has_key key e ≡ false) items

  remove-Lacks : (key : Text) (items : List (Text × V)) → Lacks key (remove key items)
  unfolding remove
  remove-Lacks key [] = tt
  remove-Lacks key (e ∷ items) = elim (Bool-cases (has_key key e)) [
    | inl b ↦ rw b (remove-Lacks key items)
    | inr b ↦ rw b (b, remove-Lacks key items)
  ]

  lookup_last :
      (key : Text) (v : V) (items : List (Text × V))
      → Lacks key items
      → lookup key (items ++ (key, v) ∷ []) ≡ some v
  unfolding lookup
  lookup_last key v [] h = rw (text_eq_self key)
  lookup_last key v (e ∷ items) h = rw (h.0, lookup) (lookup_last key v items h.1)

  lookup_dropped :
      (key : Text) (v : V) (items : List (Text × V)) (max : ℕ)
      → 1 ≤ max
      → Lacks key items
      → ltb max (length (items ++ (key, v) ∷ [])) ≡ true
      → lookup key (drop_first (items ++ (key, v) ∷ [])) ≡ some v
  lookup_dropped key v [] max room h e = ground arith
  lookup_dropped key v (x ∷ items) max room h e = lookup_last key v items h.1

  -- In a cache for at least one entry, a key that was just set is found, with the value it was set
  -- to, whatever was evicted for it.
  pub get-set :
      (key : Text) (v : V) (c : LruCacheBackend V)
      → 1 ≤ c.max_size
      → (get key (set key v c)).1 ≡ some v
  unfolding get set
  get-set key v c room =
      let lacks = remove-Lacks key c.items in
      elim (Bool-cases (ltb c.max_size (length (remove key c.items ++ (key, v) ∷ [])))) [
        | inl e ↦ simp (e, get, lookup_dropped key v (remove key c.items) c.max_size room lacks e)
        | inr e ↦ simp (e, get, lookup_last key v (remove key c.items) lacks)
      ]

  lookup_other :
      (key other : Text) (v : V) (items : List (Text × V))
      → text_eq key other ≡ false
      → lookup other (remove key items ++ (key, v) ∷ []) ≡ lookup other items
  unfolding lookup remove
  lookup_other key other v [] apart = rw apart
  lookup_other key other v (e ∷ items) apart = elim (Bool-cases (has_key key e)) [
    | inl b ↦
        let miss = ap (λ t. text_eq t other) ((text_eq_iff e.0 key).0 b) ∙ apart in
        rw (b, miss) (lookup_other key other v items apart)
    | inr b ↦
        rw b
          (ap (λ r. if has_key other e then some e.1 else r) (lookup_other key other v items apart))
  ]

  remove_absent :
      (key : Text) (items : List (Text × V)) → Lacks key items → remove key items ≡ items
  unfolding remove
  remove_absent key [] h = refl
  remove_absent key (e ∷ items) h = rw h.0 (ap (◌∷◌ e) (remove_absent key items h.1))

  -- Setting a new key in a full cache drops the first entry, which is the one whose last use is
  -- the longest ago, and puts the new one last; no other entry moves.
  pub set_full :
      (key : Text) (v : V) (first : Text × V) (rest : List (Text × V))
      → Lacks key (first ∷ rest)
      → let c : LruCacheBackend V = record {
        max_size = length (first ∷ rest);
        items = first ∷ rest;
      } in
        (set key v c).items ≡ rest ++ (key, v) ∷ []
  unfolding set
  set_full key v first rest lacks =
      let over : ltb (length (first ∷ rest)) (length ((first ∷ rest) ++ (key, v) ∷ [])) ≡ true =
        ground (arith, length-append rest ((key, v) ∷ [])) in
      rw (remove_absent key (first ∷ rest) lacks, over)

  pub get_value : (key : Text) (c : LruCacheBackend V) → (get key c).1 ≡ lookup key c.items
  unfolding get
  get_value key c = ground arith

  -- A cache with room loses nothing: after `set` every other key is found as before.
  pub get-set_other :
      (key other : Text) (v : V) (c : LruCacheBackend V)
      → text_eq key other ≡ false
      → length c.items < c.max_size
      → (get other (set key v c)).1 ≡ (get other c).1
  unfolding set
  get-set_other key other v c apart room =
      let fits : ltb c.max_size (length (remove key c.items ++ (key, v) ∷ [])) ≡ false =
        ground (
          arith,
          length-append (remove key c.items) ((key, v) ∷ []),
          length-remove-le key c.items,
        ) in
      get_value other (set key v c)
      ∙ simp fits (lookup_other key other v c.items apart)
      ∙ sym (get_value other c)
