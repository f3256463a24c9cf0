-- ===== src/Cache/Embed/Coherent.antt =====
-- What janus_graph/cache/embed_cache.py returns for one text. The embedder is foreign: the lemmas
-- ask of it that the methods it has give every text one vector.
use janus_graph.Base.{
  Text, text_eq_iff, List, [], ◌∷◌, ◌++◌, map, Bool, Option, none, some, ◌≡◌, refl, sym, ap, ◌∙◌,
  arith, ltb, length, Bool-cases, Option-cases, inl, inr, if◌then◌else◌, All, All-append,
}
use janus_graph.Cache.Lru.{LruCacheBackend, has_key, lookup, remove, get, drop_first, set}
use janus_graph.Cache.Embed.{
  Input, text, listed, Result, ok, Inner, EmbedCache, get_single_text, fetch, fetch_legacy,
  through_cache, create, embed,
}

-- Each method that the embedder has gives the text `t` the vector `vec t`, and it has `create` or
-- `embed`.
abbrev pub Creates : {E : Type 0} → (Text → E) → Option (Input → Result E) → Type 0
Creates vec none = Unit
Creates vec (some call) = (t : Text) → (call (text t) ≡ ok (vec t)) × (call (listed t) ≡ ok (vec t))

abbrev pub Embeds : {E : Type 0} → (Text → E) → Option (Text → Result E) → Type 0
Embeds vec none = Unit
Embeds vec (some call) = (t : Text) → call t ≡ ok (vec t)

abbrev pub Batches : {E : Type 0} → (Text → E) → Option (List Text → Result (List E)) → Type 0
Batches vec none = Unit
Batches vec (some call) = (texts : List Text) → call texts ≡ ok (map vec texts)

abbrev pub Answers : {E : Type 0} → Option (Input → Result E) → Option (Text → Result E) → Type 0
Answers none none = ⊥
Answers _ _ = Unit

pub record IsFaithful {E : Type 0} (vec : Text → E) (inner : Inner E) : Type 0 where
  pub creates : Creates vec inner.create
  pub embeds : Embeds vec inner.embed
  pub batches : Batches vec inner.create_batch
  pub answers : Answers inner.create inner.embed

module _ {E : Type 0} (hash_text : Text → Text) (vec : Text → E)
    (apart : (s t : Text) → hash_text s ≡ hash_text t → s ≡ t) where
  -- An entry under the hash of a text holds that text's vector.
  abbrev pub IsRight : Text × E → Type 0
  IsRight e = (t : Text) → hash_text t ≡ e.0 → e.1 ≡ vec t

  abbrev pub IsCoherent : LruCacheBackend E → Type 0
  IsCoherent c = All IsRight c.items

  entry-IsRight : (t : Text) → IsRight (hash_text t, vec t)
  entry-IsRight t s h = ap vec (sym (apart s t h))

  pub lookup-IsRight :
      (t : Text) (v : E) (items : List (Text × E))
      → All IsRight items
      → lookup (hash_text t) items ≡ some v
      → v ≡ vec t
  unfolding lookup
  lookup-IsRight t v [] a h = ground arith
  lookup-IsRight t v (e ∷ items) a h = elim (Bool-cases (has_key (hash_text t) e)) [
    | inl b ↦
        let found =
          sym (ap (λ (x : Bool). if x then some e.1 else lookup (hash_text t) items) b) ∙ h in
        let right = a.0 t (sym ((text_eq_iff e.0 (hash_text t)).0 b)) in ground arith
    | inr b ↦
        let found =
          sym (ap (λ (x : Bool). if x then some e.1 else lookup (hash_text t) items) b) ∙ h in
        lookup-IsRight t v items a.1 found
  ]

  All-remove :
      (P : Text × E → Type 0) (key : Text) (items : List (Text × E))
      → All P items
      → All P (remove key items)
  unfolding remove
  All-remove P key [] a = tt
  All-remove P key (e ∷ items) a = elim (Bool-cases (has_key key e)) [
    | inl b ↦ rw b (All-remove P key items a.1)
    | inr b ↦ rw b (a.0, All-remove P key items a.1)
  ]

  All-drop_first :
      (P : Text × E → Type 0) (items : List (Text × E)) → All P items → All P (drop_first items)
  All-drop_first P [] a = tt
  All-drop_first P (e ∷ items) a = a.1

  hit-IsRight :
      (t : Text) (v : E) (items : List (Text × E))
      → All IsRight items
      → lookup (hash_text t) items ≡ some v
      → All IsRight (remove (hash_text t) items ++ (hash_text t, v) ∷ [])
  hit-IsRight t v items a e =
      All-append IsRight (remove (hash_text t) items) ((hash_text t, v) ∷ [])
        (All-remove IsRight (hash_text t) items a)
        ((λ s h. lookup-IsRight t v items a e ∙ ap vec (sym (apart s t h))), tt)

  pub get-IsCoherent :
      (t : Text) (c : LruCacheBackend E) → IsCoherent c → IsCoherent (get (hash_text t) c).0
  unfolding get
  get-IsCoherent t c a = elim (Option-cases (lookup (hash_text t) c.items)) [
    | inl e ↦ simp (e, get) a
    | inr (v, e) ↦ simp (e, get) (hit-IsRight t v c.items a e)
  ]

  pub set-IsCoherent :
      (t : Text) (c : LruCacheBackend E) → IsCoherent c → IsCoherent (set (hash_text t) (vec t) c)
  unfolding set
  set-IsCoherent t c a =
      let items = remove (hash_text t) c.items ++ (hash_text t, vec t) ∷ [] in
      let all =
        All-append IsRight (remove (hash_text t) c.items) ((hash_text t, vec t) ∷ [])
          (All-remove IsRight (hash_text t) c.items a) (entry-IsRight t, tt) in
      elim (Bool-cases (ltb c.max_size (length items))) [
        | inl e ↦ simp (e, set) (All-drop_first IsRight items all)
        | inr e ↦ simp (e, set) all
      ]

  -- What a call leaves and returns.
  abbrev pub Serves : Text → EmbedCache E × Result E → Type 0
  Serves t end = IsCoherent end.0.backend × (end.1 ≡ ok (vec t))

  through_cache-Serves :
      (inner : Inner E) (t : Text) (fetched : Result E) (c : EmbedCache E)
      → IsCoherent c.backend
      → fetched ≡ ok (vec t)
      → Serves t (through_cache hash_text inner t fetched c)
  unfolding through_cache get
  through_cache-Serves inner t fetched c a f =
      elim (Option-cases (lookup (hash_text t) c.backend.items)) [
        | inl e ↦ simp (e, f, through_cache, get) (set-IsCoherent t c.backend a, refl)
        | inr (v, e) ↦
            simp (e, through_cache, get)
              (hit-IsRight t v c.backend.items a e, ap ok (lookup-IsRight t v c.backend.items a e))
      ]

  fetch-Answers :
      (create : Option (Input → Result E)) (embed : Option (Text → Result E))
      (create_batch : Option (List Text → Result (List E))) (t : Text)
      → Creates vec create
      → Embeds vec embed
      → Answers create embed
      → let inner : Inner E = record {
        create = create;
        embed = embed;
        create_batch = create_batch;
      } in
        (fetch hash_text inner (text t) t ≡ ok (vec t))
        × (fetch hash_text inner (listed t) t ≡ ok (vec t))
        × (fetch_legacy hash_text inner t ≡ ok (vec t))
  unfolding fetch fetch_legacy
  fetch-Answers none none b t c e h = absurd h
  fetch-Answers none (some call) b t c e h = (e t, e t, e t)
  fetch-Answers (some call) none b t c e h = ((c t).0, (c t).1, (c t).0)
  fetch-Answers (some call) (some call') b t c e h = ((c t).0, (c t).1, e t)

  module _ (inner : Inner E) (faithful : IsFaithful vec inner) (c : EmbedCache E)
      (coherent : IsCoherent c.backend) where
    fetched :
        (t : Text)
        → (fetch hash_text inner (text t) t ≡ ok (vec t))
          × (fetch hash_text inner (listed t) t ≡ ok (vec t))
          × (fetch_legacy hash_text inner t ≡ ok (vec t))
    fetched t =
        fetch-Answers inner.create inner.embed inner.create_batch t faithful.creates faithful.embeds
          faithful.answers

    -- If the hash of the cache does not collide, the embedder is faithful and the cache holds right
    -- vectors only, then `create` of a text returns its vector, and leaves right vectors only.
    pub create-Serves : (t : Text) → Serves t (create hash_text inner (text t) c)
    unfolding create get_single_text
    create-Serves t =
        through_cache-Serves inner t (fetch hash_text inner (text t) t) c coherent (fetched t).0

    -- The same of `create` of a list of one text.
    create_listed-Serves : (t : Text) → Serves t (create hash_text inner (listed t) c)
    unfolding create get_single_text
    create_listed-Serves t =
        through_cache-Serves inner t (fetch hash_text inner (listed t) t) c coherent (fetched t).1

    -- The same of `embed`, which asks the embedder's methods in the other order.
    embed-Serves : (t : Text) → Serves t (embed hash_text inner t c)
    unfolding embed
    embed-Serves t =
        through_cache-Serves inner t (fetch_legacy hash_text inner t) c coherent (fetched t).2
