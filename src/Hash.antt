-- ===== src/Hash.antt =====
-- janus_graph/core/payload_hash.py: the content address of an episode. The digest is sha256 over
-- UTF-8, which the program takes from hashlib; here it is a parameter on texts.
pub mod Injective
mod Examples
use janus_graph.Base.{Text, ◌∷◌, ◌++◌, [], ℕ}

-- The separator `|`.
abbrev pub pipe : ℕ
pipe = b'|'

-- What the three `update` calls feed to the hash object, in order.
unfoldable pub preimage : Text → Text → Text → Text
preimage content group_id source_description =
    content ++ (pipe ∷ (group_id ++ (pipe ∷ source_description)))

unfoldable pub canonical_payload_hash : (Text → Text) → Text → Text → Text → Text
canonical_payload_hash digest content group_id source_description =
    digest (preimage content group_id source_description)
