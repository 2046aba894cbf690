-- ===== src/Compaction/Service.antt =====
-- `compact` and `_preview_result` of services/compaction.py. What `uuid4()` returned in the compaction
-- of one namespace of a project is the parameter `fresh`; the time is an argument.
pub mod Project
pub mod Laws
pub mod Keeps
pub mod Runs
pub mod Marking
use project_memory_hub.Common.{
  ℕ, zero, suc, ◌+◌, ◌-◌, Bool, true, false, not, ◌&&◌, ◌||◌, Option, none, some, List, [], ◌∷◌,
  ◌==◌, ltb, leb, if◌then◌else◌, any, length, take,
}
use project_memory_hub.Common.Exec.{
  Error, Exec, Result, ok, err, pure, lift, gets, modify, guard, then_pure, transaction, ◌>>=◌,
  ◌>>◌, value_error, key_error, bounds_error,
}
use project_memory_hub.Text.{Text}
use project_memory_hub.Domain.{Uuid, Instant, Namespace, BehaviorMemoryRecord, InsertResult}
use project_memory_hub.Database.{Db, ProjectRow}
use project_memory_hub.Memories.Namespaces.{list_compaction_namespaces_on_connection}
use project_memory_hub.Memories.Sources.{Selection, is_nil, one_if}
use project_memory_hub.Memories.Sources.Choice.{select_compaction_sources}
use project_memory_hub.Memories.Compact.Store.{store_compaction}
use project_memory_hub.Compaction.Counts.{
  CompactionSummary, empty_summary, merge_summaries, bounded_count,
}
use project_memory_hub.Compaction.Plan.Build.{Redaction, CompactionPlan, bounded_plan}
use project_memory_hub.Compaction.Inactive.{
  InactiveProject, assert_eligible, mark_inactive, inactive_project, inactive_projects,
}

pub data CompactionStatus : Type 0 where
  compacted noop dry_run : CompactionStatus

pub record CompactionResult : Type 0 where
  pub project_id : Uuid
  pub namespace : Namespace
  pub status : CompactionStatus
  pub source_count : ℕ
  pub source_reference_count : ℕ
  pub cold_count : ℕ
  pub retrospective_count : ℕ
  pub remaining_count : ℕ

abbrev pub empty_result : Uuid → Namespace → CompactionStatus → CompactionResult
empty_result project_id namespace status = record {
  project_id = project_id;
  namespace = namespace;
  status = status;
  source_count = 0;
  source_reference_count = 0;
  cold_count = 0;
  retrospective_count = 0;
  remaining_count = 0;
}

-- `_require_project_on_connection`.
unfoldable pub require_project : Uuid → Exec Db (Unit {0})
require_project project_id db =
    (guard (any (λ row. row.project_id == project_id && row.enabled) db.projects) key_error, db)

-- `_require_bounded_source_set`.
unfoldable pub require_bounded_source_set : ℕ → Selection → Result (Unit {0})
require_bounded_source_set source_limit selection =
    then_pure (guard (leb selection.total (source_limit + 1)) bounds_error)
      λ _. guard (leb selection.mandatory source_limit) bounds_error

-- `try: … except Exception`, which keeps the state that the block left.
abbrev pub attempt : {A : Type 0} → Exec Db A → Exec Db (Result A)
attempt m db = let (r, db') = m db in (ok r, db')

-- A block on a read-only connection.
abbrev pub readonly : {A : Type 0} → Exec Db A → Exec Db A
readonly m db = ((m db).0, db)

module _ (sha256 casefold failure_signature : Text → Text) (redact : Text → Redaction)
    (parse : Text → Option Instant) (is_record : ProjectRow → Bool)
    (fresh : Uuid → Namespace → Uuid × Uuid) (days source_limit : ℕ) where
  abbrev pub plan_of : List BehaviorMemoryRecord → Result CompactionPlan
  plan_of rows = bounded_plan sha256 casefold failure_signature redact rows

  unfoldable pub preview_result : Uuid → Namespace → Selection → Result CompactionResult
  preview_result project_id namespace selection =
      then_pure (require_bounded_source_set source_limit selection) λ _.
        if is_nil selection.records
        then ok (empty_result project_id namespace dry_run)
        else then_pure (plan_of selection.records) λ plan.
          ok (record (empty_result project_id namespace dry_run) {
            source_count = length plan.source_ids;
            source_reference_count = plan.source_reference_count;
            remaining_count = bounded_count (selection.total - length plan.source_ids);
          })

  -- `compact(dry_run=True)`.
  unfoldable pub preview : Uuid → Namespace → Exec Db CompactionResult
  preview project_id namespace = readonly (do
    require_project project_id
    selection ← (λ db. (select_compaction_sources project_id namespace source_limit db, db))
    lift (preview_result project_id namespace selection))

  abbrev pub assert_expected : Option InactiveProject → Instant → Exec Db (Unit {0})
  assert_expected none created_at = pure tt
  assert_expected (some expected) created_at = assert_eligible parse days expected created_at

  -- The plan of the selected rows, and its writes.
  unfoldable pub compact_rows :
      Uuid → Namespace → Instant → Selection → CompactionPlan → Exec Db CompactionResult
  compact_rows project_id namespace created_at selection plan = do
    (inserted, cold_count) ←
        store_compaction sha256 (fresh project_id namespace).0 (fresh project_id namespace).1
          project_id namespace plan.source_ids created_at plan.content
    pure (record (empty_result project_id namespace compacted) {
      source_count = length plan.source_ids;
      source_reference_count = plan.source_reference_count;
      cold_count = cold_count;
      retrospective_count = one_if inserted.inserted;
      remaining_count = bounded_count (selection.total - cold_count);
    })

  abbrev pub compact_selection : Uuid → Namespace → Instant → Selection → Exec Db CompactionResult
  compact_selection project_id namespace created_at selection =
      if is_nil selection.records then pure (empty_result project_id namespace noop) else (do
        plan ← lift (plan_of selection.records)
        compact_rows project_id namespace created_at selection plan)

  -- The block of the transaction.
  unfoldable pub compact_block :
      Uuid → Namespace → Option InactiveProject → Instant → Exec Db CompactionResult
  compact_block project_id namespace expected created_at = do
    require_project project_id
    assert_expected expected created_at
    selection ← (λ db. (select_compaction_sources project_id namespace source_limit db, db))
    lift (require_bounded_source_set source_limit selection)
    compact_selection project_id namespace created_at selection

  unfoldable pub compact :
      Uuid → Namespace → Bool → Option InactiveProject → Instant → Exec Db CompactionResult
  compact project_id namespace is_dry_run expected created_at =
      if is_dry_run
      then preview project_id namespace
      else transaction (compact_block project_id namespace expected created_at)
