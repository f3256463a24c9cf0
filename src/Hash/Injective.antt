-- ===== src/Hash/Injective.antt =====
-- When two episodes can share a content address (janus_graph/core/payload_hash.py).
use mathlib.Core.List.{append_assoc}
use janus_graph.Base.{
  Text, [], ◌∷◌, ◌++◌, Bool, true, false, not, ◌&&◌, ◌==◌, ◌≡◌, ◌≢◌, refl, sym, ◌∙◌, ap, arith,
  length, length-append,
}
use janus_graph.Hash.{pipe, preimage, canonical_payload_hash}

-- `"|" not in text`
unfoldable pub pipe_free : Text → Bool
pipe_free [] = true
pipe_free (c ∷ s) = not (c == pipe) && pipe_free s

pipe_free-append : (s t : Text) → pipe_free (s ++ (pipe ∷ t)) ≡ false
unfolding pipe_free
pipe_free-append [] t = refl
pipe_free-append (c ∷ s) t = ground (arith, pipe_free-append s t)

-- The last separator is found again.
last_pipe :
    (s t s' t' : Text)
    → pipe_free t ≡ true
    → pipe_free t' ≡ true
    → s ++ (pipe ∷ t) ≡ s' ++ (pipe ∷ t')
    → (s ≡ s') × (t ≡ t')
last_pipe [] t [] t' h h' e = (refl, cc)
last_pipe [] t (c ∷ s') t' h h' e = absurd (ground (arith, pipe_free-append s' t'))
last_pipe (c ∷ s) t [] t' h h' e = absurd (ground (arith, pipe_free-append s t))
last_pipe (c ∷ s) t (c' ∷ s') t' h h' e =
    let (same, rest) = last_pipe s t s' t' h h' (ground arith) in (ground arith, rest)

preimage_assoc :
    (content group_id source : Text)
    → preimage content group_id source ≡ (content ++ (pipe ∷ group_id)) ++ (pipe ∷ source)
unfolding preimage
preimage_assoc content group_id source =
    sym (append_assoc content (pipe ∷ group_id) (pipe ∷ source))

-- Two episodes whose group ids and source descriptions contain no `|`, and on whose byte strings the
-- digest does not collide, share a canonical hash only if content, group id and source description
-- all agree.
pub canonical_payload_hash-injective :
    (digest : Text → Text) (content group_id source content' group_id' source' : Text)
    → (digest (preimage content group_id source) ≡ digest (preimage content' group_id' source')
        → preimage content group_id source ≡ preimage content' group_id' source')
    → pipe_free group_id ≡ true
    → pipe_free source ≡ true
    → pipe_free group_id' ≡ true
    → pipe_free source' ≡ true
    → canonical_payload_hash digest content group_id source
      ≡ canonical_payload_hash digest content' group_id' source'
    → (content ≡ content') × (group_id ≡ group_id') × (source ≡ source')
unfolding canonical_payload_hash
canonical_payload_hash-injective digest c g s c' g' s' no_collision hg hs hg' hs' e =
    let (front, same_source) =
      last_pipe (c ++ (pipe ∷ g)) s (c' ++ (pipe ∷ g')) s' hs hs'
        (sym (preimage_assoc c g s) ∙ no_collision e ∙ preimage_assoc c' g' s') in
    let (same_content, same_group) = last_pipe c g c' g' hg hg' front in
    (same_content, same_group, same_source)

ne_append : (s t : Text) → s ≢ s ++ (pipe ∷ t)
ne_append s t e = let n = ap length e in omega (arith, length-append s (pipe ∷ t))

-- Whatever the digest and the group ids: each episode whose source description contains `|` shares
-- its hash with an episode of another content, whose group id and source description are the two
-- sides of that `|`.
pub canonical_payload_hash_collides :
    (digest : Text → Text) (content group_id group_id' source : Text)
    → (canonical_payload_hash digest content group_id (group_id' ++ (pipe ∷ source))
        ≡ canonical_payload_hash digest (content ++ (pipe ∷ group_id)) group_id' source)
      × (content ≢ content ++ (pipe ∷ group_id))
unfolding canonical_payload_hash preimage
canonical_payload_hash_collides digest c g g' s =
    (ap digest (sym (append_assoc c (pipe ∷ g) (pipe ∷ (g' ++ (pipe ∷ s))))), ne_append c g)
