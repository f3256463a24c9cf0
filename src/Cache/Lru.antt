-- ===== src/Cache/Lru.antt =====
-- janus_graph/cache/lru.py: `LRUCacheBackend`. The OrderedDict is the list of its entries, the
-- least recently used first.
use janus_graph.Base.{
  ℕ, Text, text_eq, List, [], ◌∷◌, ◌++◌, Bool, true, false, not, Option, none, some, any, filter,
  length, ltb, if◌then◌else◌,
}
pub mod Bounds
pub mod Recency

pub record LruCacheBackend {ℓ} (V : Type ℓ) : Type ℓ where
  pub max_size : ℕ
  pub items : List (Text × V)

module _ {ℓ} {V : Type ℓ} where
  unfoldable pub init : ℕ → LruCacheBackend V
  init max_size = record { max_size = max_size; items = [] }

  abbrev pub has_key : Text → Text × V → Bool
  has_key key e = text_eq e.0 key

  unfoldable pub lookup : Text → List (Text × V) → Option V
  lookup key [] = none
  lookup key (e ∷ items) = if has_key key e then some e.1 else lookup key items

  -- The dictionary without the key.
  unfoldable pub remove : Text → List (Text × V) → List (Text × V)
  remove key [] = []
  remove key (e ∷ items) = if has_key key e then remove key items else e ∷ remove key items

  unfoldable pub get : Text → LruCacheBackend V → LruCacheBackend V × Option V
  unfolding lookup remove
  get key c = elim (lookup key c.items) [
    | none ↦ (c, none)
    | some v ↦ (record c { items = remove key c.items ++ (key, v) ∷ [] }, some v)
  ]

  -- `popitem(last=False)`
  abbrev pub drop_first : List (Text × V) → List (Text × V)
  drop_first [] = []
  drop_first (e ∷ items) = items

  -- A present key moves to the end before it is assigned; a new key is put there.
  unfoldable pub set : Text → V → LruCacheBackend V → LruCacheBackend V
  unfolding remove
  set key value c =
      let items = remove key c.items ++ (key, value) ∷ [] in
      record c { items = if ltb c.max_size (length items) then drop_first items else items }

  pub clear : LruCacheBackend V → LruCacheBackend V
  clear c = record c { items = [] }

  pub size : LruCacheBackend V → ℕ
  size c = length c.items
