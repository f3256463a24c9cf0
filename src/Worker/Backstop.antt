-- ===== src/Worker/Backstop.antt =====
-- When `_backstop_skip_if_ingested` of janus_graph/pipeline/worker.py skips a record.
use janus_graph.Base.{
  ℕ, Text, text_eq, [], ◌∷◌, Bool, true, false, ◌&&◌, ◌≡◌, refl, sym, ap, ◌∙◌, arith, any, Option,
  none, some, Bool-cases, inl, inr, if◌then◌else◌,
}
use janus_graph.Hash.{canonical_payload_hash}
use janus_graph.Queue.Schema.{Payload, dict, EpisodeRecord, Db, is_done}
use janus_graph.Queue.Dedup.{holds_hash, has_id}
use janus_graph.Queue.Dedup.Lookup.{newest_id-any}
use janus_graph.Queue.Reports.{find_ingested_duplicate}
use janus_graph.Worker.{Call, Ingest, ingested_as}

-- A done episode with the id holds the hash.
abbrev pub WasIngested : Text → Text → Db → Type 0
WasIngested id h db =
    any (λ r. has_id id r && (holds_hash h r && is_done r.status)) db.episodes ≡ true

find_ingested-WasIngested :
    (h : Text) (db : Db) (id : Text) → find_ingested_duplicate h db ≡ some id → WasIngested id h db
unfolding find_ingested_duplicate
find_ingested-WasIngested [] db id e = ground arith
find_ingested-WasIngested (c ∷ h) db id e =
    newest_id-any (λ r. holds_hash (c ∷ h) r && is_done r.status) db.episodes id e

module _ (default_group : Text) (ingest : Call → Ingest) (now : ℕ) (digest : Text → Text) where
  -- The backstop skips a record only for another episode that is done and holds the hash of the
  -- record's own content, group and source.
  pub ingested_as-WasIngested :
      (content group_id source : Text) (name : Option Text) (r : EpisodeRecord) (db : Db)
      (id h : Text)
      → let p : Payload = record {
        content = some content;
        content_is_no_text = false;
        group_id = some group_id;
        name = name;
        source_description = some source;
      } in
        ingested_as default_group ingest now digest (record r { payload = dict p }) db
          ≡ some (id, h)
        → (h ≡ canonical_payload_hash digest content group_id source)
          × WasIngested id h db
          × (text_eq id r.id ≡ false)
  unfolding ingested_as
  ingested_as-WasIngested content group_id source name r db id h e =
      let hash = canonical_payload_hash digest content group_id source in
      go hash (find_ingested_duplicate hash db) refl e
    where
      go :
          (hash : Text) (found : Option Text)
          → find_ingested_duplicate hash db ≡ found
          → (elim found as (λ _. Option (Text × Text)) [
            | none ↦ none
            | some other ↦ if text_eq other r.id then none else some (other, hash)
          ])
            ≡ some (id, h)
          → (h ≡ hash) × WasIngested id h db × (text_eq id r.id ≡ false)
      go hash none same e = ground arith
      go hash (some other) same e = elim (Bool-cases (text_eq other r.id)) [
        | inl t ↦ ground arith
        | inr t ↦
            let pair : Path (Option (Text × Text)) (some (other, hash)) (some (id, h)) =
              sym (ap (λ (b : Bool). if b then none else some (other, hash)) t) ∙ e in
            let one : other ≡ id = ground arith in
            let two : hash ≡ h = ground arith in
            (sym two, rw⁻¹ (one, two) (find_ingested-WasIngested hash db other same), rw⁻¹ one t)
      ]
