-- ===== src/Dream/Graph.antt =====
-- The graph in FalkorDB and the Cypher statements of janus_graph/pipeline/dedup_apply.py. A node is
-- identified by its uuid: no two nodes of one label share one. Only the labels Episodic and Entity
-- and the edges MENTIONS and RELATES_TO are kept.
use janus_graph.Base.{
  ℕ, Text, text_eq, List, [], ◌∷◌, ◌++◌, Bool, true, false, not, ◌&&◌, ◌||◌, Option, none, some,
  any, filter, if◌then◌else◌,
}
pub mod Statements

pub record Entity : Type 0 where
  pub uuid : Text
  pub name : Option Text
  pub summary : Option Text
  pub created_at : Option Text
  pub group_id : Option Text

pub record Episodic : Type 0 where
  pub uuid : Text
  pub name : Option Text
  pub content : Option Text
  pub created_at : Option Text
  pub group_id : Option Text

-- An edge MENTIONS from an Episodic to an Entity; `none` is null.
pub record Mention : Type 0 where
  pub uuid : Option Text
  pub src : Text
  pub dst : Text
  pub created_at : Option Text
  pub group_id : Option Text

-- An edge RELATES_TO between entities.
pub record Relation : Type 0 where
  pub uuid : Option Text
  pub src : Text
  pub dst : Text
  pub source_node_uuid : Option Text
  pub target_node_uuid : Option Text
  pub group_id : Option Text
  pub fact : Option Text
  pub name : Option Text
  pub created_at : Option Text
  pub valid_at : Option Text
  pub reference_time : Option Text
  pub episodes : List Text

pub record Graph : Type 0 where
  pub entities : List Entity
  pub episodics : List Episodic
  pub mentions : List Mention
  pub relations : List Relation

-- What becomes of a statement: it works, it raises before it takes effect, or it raises after.
-- A process that dies is one all of whose later statements fail.
pub data Answer : Type 0 where
  works fails fails_late : Answer

-- The graph, and the answers to come; when they run out, statements work.
pub record World : Type 0 where
  pub graph : Graph
  pub answers : List Answer

unfoldable pub answered :
    {A : Type 0} → (Graph → Graph × A) → Graph → List Answer → World × Option A
answered f g [] = (record { graph = (f g).0; answers = [] }, some (f g).1)
answered f g (works ∷ rest) = (record { graph = (f g).0; answers = rest }, some (f g).1)
answered f g (fails ∷ rest) = (record { graph = g; answers = rest }, none)
answered f g (fails_late ∷ rest) = (record { graph = (f g).0; answers = rest }, none)

-- A statement changes the graph and returns rows; `none` is an exception.
unfoldable pub statement : {A : Type 0} → (Graph → Graph × A) → World → World × Option A
unfolding answered
statement f w = answered f w.graph w.answers

abbrev pub member : Text → List Text → Bool
member u us = any (text_eq u) us

-- `(:Entity {uuid: u})`
abbrev pub has_entity : Text → Graph → Bool
has_entity u g = any (λ n. text_eq n.uuid u) g.entities

abbrev pub has_episodic : Text → Graph → Bool
has_episodic u g = any (λ n. text_eq n.uuid u) g.episodics

-- `e.uuid = $eu`: a comparison with null is not true.
abbrev pub uuid_is : Option Text → Option Text → Bool
uuid_is (some u) (some v) = text_eq u v
uuid_is _ _ = false

-- `value or default` on an optional text: the empty text counts as missing.
abbrev pub or_default : Option Text → Text → Text
or_default none d = d
or_default (some []) d = d
or_default (some (c ∷ s)) d = c ∷ s

-- `str(value) if value else None`
abbrev pub if_truthy : Option Text → Option Text
if_truthy none = none
if_truthy (some []) = none
if_truthy (some (c ∷ s)) = some (c ∷ s)

-- MATCH (s:Episodic {uuid}), (t:Entity {uuid}) CREATE (s)-[:MENTIONS]->(t) RETURN count(*)
unfoldable pub create_mention : Mention → Graph → Graph × ℕ
create_mention e g =
    if has_episodic e.src g && has_entity e.dst g
    then (record g { mentions = g.mentions ++ e ∷ [] }, 1)
    else (g, 0)

abbrev pub is_mention : Text → Text → Option Text → Mention → Bool
is_mention src dst uuid e = text_eq e.src src && text_eq e.dst dst && uuid_is e.uuid uuid

-- MATCH (:Episodic {uuid})-[e:MENTIONS]->(:Entity {uuid}) WHERE e.uuid = $eu DELETE e
unfoldable pub delete_mention : Text → Text → Option Text → Graph → Graph
delete_mention src dst uuid g = record g {
  mentions = filter (λ e. not (is_mention src dst uuid e)) g.mentions;
}

-- MATCH (s:Entity {uuid}), (t:Entity {uuid}) CREATE (s)-[:RELATES_TO]->(t)
unfoldable pub create_relation : Relation → Graph → Graph
create_relation e g =
    if has_entity e.src g && has_entity e.dst g
    then record g { relations = g.relations ++ e ∷ [] }
    else g

abbrev pub is_relation : Text → Text → Option Text → Relation → Bool
is_relation src dst uuid e = text_eq e.src src && text_eq e.dst dst && uuid_is e.uuid uuid

-- MATCH (:Entity {uuid})-[e:RELATES_TO]->(:Entity {uuid}) WHERE e.uuid = $eu DELETE e
unfoldable pub delete_relation : Text → Text → Option Text → Graph → Graph
delete_relation src dst uuid g = record g {
  relations = filter (λ e. not (is_relation src dst uuid e)) g.relations;
}

-- NOT (v)--()
abbrev pub is_isolated : Graph → Text → Bool
is_isolated g v = not (
    any (λ e. text_eq e.dst v) g.mentions
    || any (λ e. text_eq e.src v || text_eq e.dst v) g.relations)
