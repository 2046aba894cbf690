-- ===== src/Memories/Insert.antt =====
-- `MemoryRepository.insert` and `_insert_on_connection` of storage/memories.py. `uuid4()` is the
-- argument `fresh`.
pub mod Laws
pub mod Invariant
use project_memory_hub.Common.{
  Bool, true, false, not, ◌&&◌, ◌||◌, Option, none, some, List, [], ◌∷◌, ◌++◌, ◌==◌, any,
  find_first, if◌then◌else◌,
}
use project_memory_hub.Common.Exec.{
  Exec, Result, pure, raise, lift, gets, guard, transaction, ◌>>=◌, ◌>>◌, key_error, value_error,
  assertion_error,
}
use project_memory_hub.Text.{Text}
use project_memory_hub.Text.Equal.{text_eq}
use project_memory_hub.Domain.{
  Uuid, SourceAgent, agent_rank, kind_rank, same_namespace, BehaviorMemoryInput,
  BehaviorMemoryRecord, InsertResult, active,
}
use project_memory_hub.Database.{Db, SourceRef}
use project_memory_hub.Memories.Prepare.{prepare_memory}

-- The columns of the table's UNIQUE constraint agree.
unfoldable pub same_key : BehaviorMemoryInput → BehaviorMemoryInput → Bool
same_key a b =
    a.project_id == b.project_id
    && same_namespace a.namespace b.namespace
    && text_eq a.task_fingerprint b.task_fingerprint
    && kind_rank a.memory_kind == kind_rank b.memory_kind
    && text_eq a.content_hash b.content_hash

-- Two rows that the table cannot hold together.
unfoldable pub clash : BehaviorMemoryRecord → BehaviorMemoryRecord → Bool
clash a b = a.memory_id == b.memory_id || same_key a.input b.input

-- `insert or ignore into behavior_memories`, with `cursor.rowcount == 1`.
unfoldable pub insert_or_ignore :
    BehaviorMemoryRecord → List BehaviorMemoryRecord → List BehaviorMemoryRecord × Bool
insert_or_ignore row rows = if any (clash row) rows then (rows, false) else (rows ++ row ∷ [], true)

abbrev pub new_row : Uuid → BehaviorMemoryInput → BehaviorMemoryRecord
new_row fresh prepared = record { input = prepared; memory_id = fresh; lifecycle_state = active }

-- The insert and the select by the unique key that follows it.
unfoldable pub write_memory : Uuid → BehaviorMemoryInput → Exec Db InsertResult
unfolding insert_or_ignore
write_memory fresh prepared db =
    let (rows, inserted) = insert_or_ignore (new_row fresh prepared) db.memories in
    let after = record db { memories = rows } in
    elim (find_first (λ row. same_key row.input prepared) rows) [
      | none ↦ raise assertion_error after
      | some row ↦
          pure (record { inserted = inserted; duplicate = not inserted; record_id = row.memory_id })
            after
    ]

-- `source["source_agent"] != namespace.source_agent.value`.
abbrev pub check_source : Option SourceRef → SourceAgent → Result (Unit {0})
check_source none agent = guard false key_error
check_source (some source) agent =
    guard (agent_rank source.source_agent == agent_rank agent) value_error

module _ (sha256 : Text → Text) where
  unfoldable pub insert_on_connection : Uuid → BehaviorMemoryInput → Exec Db InsertResult
  insert_on_connection fresh memory = do
    prepared ← lift (prepare_memory sha256 memory)
    known ← gets (λ db. any (λ p. p.project_id == prepared.project_id) db.projects)
    lift (guard known key_error)
    source ← gets (λ db.
        find_first (λ s. s.source_reference_id == prepared.source_reference_id) db.source_refs)
    lift (check_source source prepared.namespace.source_agent)
    write_memory fresh prepared

  unfoldable pub insert : Uuid → BehaviorMemoryInput → Exec Db InsertResult
  insert fresh memory = do
    prepared ← lift (prepare_memory sha256 memory)
    transaction (insert_on_connection fresh prepared)
