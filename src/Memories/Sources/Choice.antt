-- ===== src/Memories/Sources/Choice.antt =====
-- `_select_compaction_sources_on_connection` of storage/memories.py.
use project_memory_hub.Common.{
  ℕ, ◌+◌, ◌-◌, ◌&&◌, List, [], ◌++◌, ltb, leb, if◌then◌else◌, take, length,
}
use project_memory_hub.Common.Exec.{Result, ok, guard, then_pure, value_error}
use project_memory_hub.Domain.{Uuid, Namespace}
use project_memory_hub.Database.{Db}
use project_memory_hub.Memories.Sources.{
  Selection, is_mandatory, is_optional, compaction_identifiers, compaction_records, is_nil, one_if,
}

-- With the mandatory identifiers read and within the limit: the optional ones that fit.
unfoldable pub with_optional : Uuid → Namespace → ℕ → List Uuid → Db → Result Selection
with_optional project_id namespace limit mandatory_ids db =
    let capacity = limit - length mandatory_ids in
    let optional_ids = compaction_identifiers project_id namespace is_optional (capacity + 1) db in
    let selected = mandatory_ids ++ take capacity optional_ids in
    let total = length selected + one_if (ltb capacity (length optional_ids)) in
    if is_nil selected
    then ok (record { records = []; total = total; mandatory = length mandatory_ids })
    else then_pure (compaction_records project_id namespace selected db.memories) λ records.
      ok (record { records = records; total = total; mandatory = length mandatory_ids })

unfoldable pub select_compaction_sources : Uuid → Namespace → ℕ → Db → Result Selection
select_compaction_sources project_id namespace limit db =
    then_pure (guard (leb 1 limit && leb limit 10000) value_error) λ _.
      let mandatory_ids = compaction_identifiers project_id namespace is_mandatory (limit + 1) db in
      if ltb limit (length mandatory_ids)
      then ok (record { records = []; total = limit + 1; mandatory = limit + 1 })
      else with_optional project_id namespace limit mandatory_ids db
