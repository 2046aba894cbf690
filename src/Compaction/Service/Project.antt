-- ===== src/Compaction/Service/Project.antt =====
-- `compact_project` and `compact_all_inactive` of services/compaction.py, over `compact`.
use project_memory_hub.Common.{
  ℕ, ◌+◌, Bool, true, false, not, ◌&&◌, Option, none, some, List, [], ◌∷◌, ◌==◌, ltb, if◌then◌else◌,
  length, take,
}
use project_memory_hub.Common.Exec.{Exec, Result, ok, err, pure, ◌>>=◌, ◌>>◌}
use project_memory_hub.Text.{Text}
use project_memory_hub.Domain.{Uuid, Instant, Namespace}
use project_memory_hub.Database.{Db, ProjectRow}
use project_memory_hub.Memories.Namespaces.{list_compaction_namespaces_on_connection}
use project_memory_hub.Memories.Sources.{one_if}
use project_memory_hub.Compaction.Counts.{CompactionSummary, empty_summary, merge_summaries}
use project_memory_hub.Compaction.Plan.Build.{Redaction}
use project_memory_hub.Compaction.Inactive.{
  InactiveProject, assert_eligible, mark_inactive, inactive_project, inactive_projects,
}
use project_memory_hub.Compaction.Service.{
  CompactionResult, attempt, readonly, require_project, compact,
}

abbrev pub max_namespaces : ℕ
max_namespaces = 1000

abbrev pub max_inactive_projects : ℕ
max_inactive_projects = 1000

-- `CompactionSummary(failure_count=1)`, and the summary of one namespace's result.
abbrev pub failed : CompactionSummary
failed = record empty_summary { failure_count = 1 }

abbrev pub summary_of : Result CompactionResult → CompactionSummary
summary_of (err e) = failed
summary_of (ok r) = record empty_summary {
  source_count = r.source_count;
  cold_count = r.cold_count;
  retrospective_count = r.retrospective_count;
  remaining_count = r.remaining_count;
}

abbrev pub is_clean : CompactionSummary → Bool
is_clean totals = totals.failure_count == 0 && totals.remaining_count == 0

-- The totals that the two loops start from.
abbrev pub first_totals : List Namespace → CompactionSummary
first_totals discovered = record empty_summary {
  project_count = 1;
  namespace_count = length (take max_namespaces discovered);
  remaining_count = one_if (ltb max_namespaces (length discovered));
}

abbrev pub run_totals : List InactiveProject → CompactionSummary
run_totals discovered = record empty_summary {
  remaining_count = one_if (ltb max_inactive_projects (length discovered));
}

module _ (sha256 casefold failure_signature : Text → Text) (redact : Text → Redaction)
    (parse : Text → Option Instant) (is_record : ProjectRow → Bool)
    (fresh : Uuid → Namespace → Uuid × Uuid) (days source_limit : ℕ) where
  -- The loop over the namespaces of a project.
  unfoldable pub compact_namespaces :
      Uuid
      → Bool
      → InactiveProject
      → Instant
      → CompactionSummary
      → List Namespace
      → Exec Db CompactionSummary
  compact_namespaces project_id is_dry_run expected now totals [] = pure totals
  compact_namespaces project_id is_dry_run expected now totals (namespace ∷ rest) = do
    result ← attempt (
        compact sha256 casefold failure_signature redact parse is_record fresh days source_limit
          project_id namespace is_dry_run (some expected) now)
    compact_namespaces project_id is_dry_run expected now
        (merge_summaries totals (summary_of result)) rest

  -- `marked` is false when the block raised.
  abbrev pub is_ok_true : Result Bool → Bool
  is_ok_true (ok marked) = marked
  is_ok_true (err e) = false

  abbrev pub mark : InactiveProject → Instant → CompactionSummary → Exec Db CompactionSummary
  mark expected now totals = do
    result ← attempt (mark_inactive parse days expected now)
    pure (if is_ok_true result then totals else merge_summaries totals failed)

  abbrev pub settle_project :
      Bool → InactiveProject → Instant → CompactionSummary → Exec Db CompactionSummary
  settle_project is_done expected now totals =
      if is_done then mark expected now totals else pure totals

  -- The block on the read-only connection of `compact_project`.
  abbrev pub namespaces_of : Uuid → InactiveProject → Instant → Exec Db (List Namespace)
  namespaces_of project_id expected now = readonly (do
    require_project project_id
    assert_eligible parse days expected now
    (λ db. (list_compaction_namespaces_on_connection project_id (max_namespaces + 1) db, db)))

  -- `compact_project` with its snapshot; `owns_snapshot` tells whether the call made it.
  unfoldable pub compact_snapshot :
      Uuid → Bool → Bool → InactiveProject → Instant → Exec Db CompactionSummary
  compact_snapshot project_id is_dry_run owns_snapshot expected now = do
    discovered ← namespaces_of project_id expected now
    totals ←
        compact_namespaces project_id is_dry_run expected now (first_totals discovered)
          (take max_namespaces discovered)
    settle_project (owns_snapshot && not is_dry_run && is_clean totals) expected now totals

  abbrev pub compact_found :
      Uuid → Bool → Instant → Option InactiveProject → Exec Db CompactionSummary
  compact_found project_id is_dry_run now none = pure empty_summary
  compact_found project_id is_dry_run now (some expected) =
      compact_snapshot project_id is_dry_run true expected now

  unfoldable pub compact_project :
      Uuid → Bool → Option InactiveProject → Instant → Exec Db CompactionSummary
  compact_project project_id is_dry_run (some expected) now =
      compact_snapshot project_id is_dry_run false expected now
  compact_project project_id is_dry_run none now = do
    found ← (λ db. (inactive_project parse is_record days now project_id db, db))
    compact_found project_id is_dry_run now found

  -- One round of `compact_all_inactive`: the totals are merged before the mark, and an exception
  -- of either adds one project and one failure.
  unfoldable pub compact_next :
      Bool → Instant → CompactionSummary → InactiveProject → Exec Db CompactionSummary
  compact_next is_dry_run now totals snapshot db =
      let (result, db1) = compact_project snapshot.project_id is_dry_run (some snapshot) now db in
      elim result [
        | err e ↦ (ok (merge_summaries totals project_failed), db1)
        | ok summary ↦
            if not is_dry_run && is_clean summary
            then mark_next db1 (merge_summaries totals summary)
            else (ok (merge_summaries totals summary), db1)
      ]
    where
      project_failed : CompactionSummary
      project_failed = record empty_summary { project_count = 1; failure_count = 1 }

      mark_result : CompactionSummary → Result Bool → CompactionSummary
      mark_result merged (ok true) = merged
      mark_result merged (ok false) = merge_summaries merged failed
      mark_result merged (err e) = merge_summaries merged project_failed

      mark_next : Db → CompactionSummary → Result CompactionSummary × Db
      mark_next db1 merged =
          let (result, db2) = mark_inactive parse days snapshot now db1 in
          (ok (mark_result merged result), db2)

  unfoldable pub compact_each :
      Bool → Instant → CompactionSummary → List InactiveProject → Exec Db CompactionSummary
  compact_each is_dry_run now totals [] = pure totals
  compact_each is_dry_run now totals (snapshot ∷ rest) = do
    merged ← compact_next is_dry_run now totals snapshot
    compact_each is_dry_run now merged rest

  unfoldable pub compact_all_inactive : Instant → Bool → Exec Db CompactionSummary
  compact_all_inactive as_of is_dry_run = do
    discovered ←
        (λ db. (inactive_projects parse is_record days as_of (max_inactive_projects + 1) db, db))
    compact_each is_dry_run as_of (run_totals discovered) (take max_inactive_projects discovered)
