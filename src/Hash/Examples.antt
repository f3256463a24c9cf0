-- ===== src/Hash/Examples.antt =====
-- Tests of the content address (janus_graph/core/payload_hash.py), with the text as its own digest.
use janus_graph.Base.{Text, codes, ◌++◌, ◌∷◌, ◌≡◌, ◌≢◌, refl}
use janus_graph.Hash.{pipe, canonical_payload_hash}
use janus_graph.Hash.Injective.{
  pipe_free, canonical_payload_hash-injective, canonical_payload_hash_collides,
}

abbrev digest : Text → Text
digest text = text

canonical_payload_hash-injective_example :
    (codes "a|b" ≡ codes "a|b") × (codes "g" ≡ codes "g") × (codes "s" ≡ codes "s")
unfolding pipe_free
canonical_payload_hash-injective_example =
    canonical_payload_hash-injective digest (codes "a|b") (codes "g") (codes "s") (codes "a|b")
      (codes "g") (codes "s") (λ same. same) refl refl refl refl refl

canonical_payload_hash_collides_example :
    (canonical_payload_hash digest (codes "a") (codes "g") (codes "h" ++ (pipe ∷ codes "s"))
      ≡ canonical_payload_hash digest (codes "a" ++ (pipe ∷ codes "g")) (codes "h") (codes "s"))
    × (codes "a" ≢ codes "a" ++ (pipe ∷ codes "g"))
canonical_payload_hash_collides_example =
    canonical_payload_hash_collides digest (codes "a") (codes "g") (codes "h") (codes "s")
