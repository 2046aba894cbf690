-- ===== src/Memories/Compact/Store.antt =====
-- `_store_compaction_on_connection` of storage/memories.py, in the steps of the method.
use project_memory_hub.Common.{
  ℕ, Bool, true, false, not, ◌&&◌, Option, none, some, List, [], ◌∷◌, ◌++◌, ◌==◌, if◌then◌else◌,
  any, length, find_first,
}
use project_memory_hub.Common.Exec.{
  Exec, Result, ok, err, pure, lift, gets, guard, then_pure, ◌>>=◌, ◌>>◌, value_error,
  runtime_error, integrity_error,
}
use project_memory_hub.Text.{Text, codes}
use project_memory_hub.Text.Equal.{text_eq}
use project_memory_hub.Domain.{
  Uuid, Instant, Confidence, Namespace, agent_rank, retrospective, is_retrospective, is_active,
  BehaviorMemoryInput, BehaviorMemoryRecord, InsertResult,
}
use project_memory_hub.Database.{Db, SourceRef}
use project_memory_hub.Memories.Prepare.{required_text, hexdigest}
use project_memory_hub.Memories.Insert.{insert_or_ignore, new_row}
use project_memory_hub.Memories.Search.{in_scope}
use project_memory_hub.Memories.Sources.{is_nil}
use project_memory_hub.Memories.Compact.{
  Provenance, provenance, clash_source, cold_compaction_sources, sorted_set,
}

abbrev pub parser_version : Text
parser_version = codes "compaction-v1"

-- The float 1.0.
abbrev pub one : Confidence
one = 0x3FF0000000000000

-- `insert or ignore into source_refs`.
unfoldable pub insert_source : SourceRef → List SourceRef → List SourceRef
insert_source row rows = if any (clash_source row) rows then rows else rows ++ row ∷ []

abbrev pub is_none : {A : Type 0} → Option A → Bool
is_none none = true
is_none (some a) = false

-- `source_row is None or source_path is not None or parser_version != "compaction-v1"`.
abbrev pub check_provenance : Option SourceRef → Result Uuid
check_provenance none = err runtime_error
check_provenance (some row) =
    then_pure
      (guard (is_none row.source_path && text_eq row.parser_version parser_version) runtime_error)
      (λ _. ok row.source_reference_id)

-- The insert and the select of the source reference.
unfoldable pub write_source : SourceRef → Exec Db Uuid
write_source row db =
    let rows = insert_source row db.source_refs in
    (
      check_provenance (
          find_first
            (λ s.
              agent_rank s.source_agent == agent_rank row.source_agent
              && text_eq s.source_record_id row.source_record_id
              && text_eq s.content_hash row.content_hash)
            rows),
      record db { source_refs = rows },
    )

-- The insert of the retrospective: a foreign key needs the project. Returns `rowcount == 1`.
unfoldable pub insert_retrospective : BehaviorMemoryRecord → Exec Db Bool
insert_retrospective row db =
    let (rows, inserted) = insert_or_ignore row db.memories in
    if inserted && not (any (λ p. p.project_id == row.project_id) db.projects)
    then (err integrity_error, db)
    else (ok inserted, record db { memories = rows })

-- `retrospective is None or …`.
abbrev pub check_retrospective : Option BehaviorMemoryRecord → Text → Uuid → Result Uuid
check_retrospective none content source = err runtime_error
check_retrospective (some row) content source =
    then_pure
      (guard (text_eq row.normalized_content content && row.source_reference_id == source)
        runtime_error)
      (λ _. ok row.memory_id)

abbrev pub is_this_retrospective : BehaviorMemoryInput → BehaviorMemoryRecord → Bool
is_this_retrospective wanted row =
    in_scope wanted.project_id wanted.namespace row
    && is_active row.lifecycle_state
    && is_retrospective row.memory_kind
    && text_eq row.task_fingerprint wanted.task_fingerprint
    && text_eq row.content_hash wanted.content_hash

-- The insert and the select of the retrospective.
unfoldable pub write_retrospective : Uuid → BehaviorMemoryInput → Exec Db InsertResult
write_retrospective fresh wanted = do
  inserted ← insert_retrospective (new_row fresh wanted)
  found ← gets (λ db. find_first (is_this_retrospective wanted) db.memories)
  memory_id ← lift (check_retrospective found wanted.normalized_content wanted.source_reference_id)
  pure (record { inserted = inserted; duplicate = not inserted; record_id = memory_id })

module _ (sha256 : Text → Text) (fresh_source fresh : Uuid) (project_id : Uuid)
    (namespace : Namespace) (source_ids : List Uuid) (created_at : Instant) where
  abbrev pub new_source : Provenance → Text → SourceRef
  new_source origin hash = record {
    source_reference_id = fresh_source;
    source_agent = namespace.source_agent;
    source_record_id = origin.record_id;
    source_path = none;
    content_hash = hash;
    source_timestamp = created_at;
    parser_version = parser_version;
    created_at = created_at;
    capture_project_id = none;
    capture_model_id = none;
  }

  abbrev pub new_retrospective : Provenance → Text → Text → Uuid → BehaviorMemoryInput
  new_retrospective origin content hash source = record {
    project_id = project_id;
    namespace = namespace;
    task_fingerprint = origin.fingerprint;
    memory_kind = retrospective;
    normalized_content = content;
    content_hash = hash;
    source_reference_id = source;
    created_at = created_at;
    confidence = one;
  }

  -- The writes: the source reference, the retrospective, and the cold state of every source row.
  unfoldable pub write_compaction : Provenance → Text → Text → Exec Db (InsertResult × ℕ)
  write_compaction origin content hash = do
    source ← write_source (new_source origin hash)
    result ← write_retrospective fresh (new_retrospective origin content hash source)
    cold_count ← cold_compaction_sources project_id namespace (sorted_set source_ids)
    lift (guard (cold_count == length (sorted_set source_ids)) runtime_error)
    pure (result, cold_count)

  unfoldable pub store_compaction : Text → Exec Db (InsertResult × ℕ)
  store_compaction normalized_content = do
    content ← lift (required_text normalized_content)
    lift (guard (not (is_nil (sorted_set source_ids))) value_error)
    lift (guard (length (sorted_set source_ids) == length source_ids) value_error)
    hash ← lift (hexdigest sha256 content)
    model_digest ← lift (hexdigest sha256 namespace.model_id)
    write_compaction
        (provenance sha256 project_id namespace.source_agent model_digest (sorted_set source_ids))
        content hash
