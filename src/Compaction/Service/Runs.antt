-- ===== src/Compaction/Service/Runs.antt =====
-- Whole runs: `compact_project` and `compact_all_inactive` of services/compaction.py.
use project_memory_hub.Common.{
  ℕ, ◌≡◌, refl, Bool, true, false, Option, none, some, List, [], ◌∷◌, take, ◌+◌, arith,
}
use project_memory_hub.Text.{Text}
use project_memory_hub.Domain.{Uuid, Instant, Namespace}
use project_memory_hub.Database.{Db, ProjectRow}
use project_memory_hub.Compaction.Counts.{CompactionSummary, merge_summaries}
use project_memory_hub.Compaction.Plan.Build.{Redaction}
use project_memory_hub.Compaction.Inactive.{InactiveProject, inactive_project, inactive_projects}
use project_memory_hub.Compaction.Service.Keeps.{Keeps, bind-Keeps}
use project_memory_hub.Compaction.Service.{compact, preview}
use project_memory_hub.Compaction.Service.Project.{
  summary_of, compact_namespaces, compact_snapshot, compact_found, compact_project, compact_next,
  compact_each, compact_all_inactive, namespaces_of, first_totals, run_totals, max_namespaces,
  max_inactive_projects,
}

module _ (sha256 casefold failure_signature : Text → Text) (redact : Text → Redaction)
    (parse : Text → Option Instant) (is_record : ProjectRow → Bool)
    (fresh : Uuid → Namespace → Uuid × Uuid) (days source_limit : ℕ) where
  compact_namespaces-Keeps :
      (project_id : Uuid) (expected : InactiveProject) (now : Instant) (totals : CompactionSummary)
      (namespaces : List Namespace)
      → Keeps
          (λ db. db)
          (compact_namespaces sha256 casefold failure_signature redact parse is_record fresh days
            source_limit project_id true expected now totals namespaces)
  unfolding compact_namespaces compact preview
  compact_namespaces-Keeps project_id expected now totals [] db = refl
  compact_namespaces-Keeps project_id expected now totals (namespace ∷ rest) db =
      compact_namespaces-Keeps project_id expected now
        (merge_summaries totals (
          summary_of
            (compact sha256 casefold failure_signature redact parse is_record fresh days
              source_limit project_id namespace true (some expected) now db).0))
        rest db

  compact_snapshot-Keeps :
      (project_id : Uuid) (owns : Bool) (expected : InactiveProject) (now : Instant)
      → Keeps
          (λ db. db)
          (compact_snapshot sha256 casefold failure_signature redact parse is_record fresh days
            source_limit project_id true owns expected now)
  unfolding compact_snapshot
  compact_snapshot-Keeps project_id owns expected now =
      bind-Keeps (λ db. db)
        (namespaces_of sha256 casefold failure_signature redact parse is_record fresh days
          source_limit project_id expected now)
        _ (λ db. refl)
        λ discovered.
          bind-Keeps (λ db. db)
            (compact_namespaces sha256 casefold failure_signature redact parse is_record fresh days
              source_limit project_id true expected now (first_totals discovered)
              (take max_namespaces discovered))
            _
            (compact_namespaces-Keeps project_id expected now (first_totals discovered)
              (take max_namespaces discovered))
            λ totals db. ground arith

  compact_found-Keeps :
      (project_id : Uuid) (now : Instant) (found : Option InactiveProject)
      → Keeps
          (λ db. db)
          (compact_found sha256 casefold failure_signature redact parse is_record fresh days
            source_limit project_id true now found)
  compact_found-Keeps project_id now none db = refl
  compact_found-Keeps project_id now (some expected) db =
      compact_snapshot-Keeps project_id true expected now db

  compact_project-Keeps :
      (project_id : Uuid) (expected : Option InactiveProject) (now : Instant)
      → Keeps
          (λ db. db)
          (compact_project sha256 casefold failure_signature redact parse is_record fresh days
            source_limit project_id true expected now)
  unfolding compact_project
  compact_project-Keeps project_id (some expected) now =
      compact_snapshot-Keeps project_id false expected now
  compact_project-Keeps project_id none now =
      bind-Keeps (λ db. db) (λ db. (inactive_project parse is_record days now project_id db, db)) _
        (λ db. refl) λ found. compact_found-Keeps project_id now found

  compact_next-Keeps :
      (now : Instant) (totals : CompactionSummary) (snapshot : InactiveProject)
      → Keeps
          (λ db. db)
          (compact_next sha256 casefold failure_signature redact parse is_record fresh days
            source_limit true now totals snapshot)
  unfolding compact_next
  compact_next-Keeps now totals snapshot db =
      ground (arith, compact_project-Keeps snapshot.project_id (some snapshot) now db)

  compact_each-Keeps :
      (now : Instant) (totals : CompactionSummary) (snapshots : List InactiveProject)
      → Keeps
          (λ db. db)
          (compact_each sha256 casefold failure_signature redact parse is_record fresh days
            source_limit true now totals snapshots)
  unfolding compact_each
  compact_each-Keeps now totals [] db = refl
  compact_each-Keeps now totals (snapshot ∷ rest) db =
      bind-Keeps (λ db. db)
        (compact_next sha256 casefold failure_signature redact parse is_record fresh days
          source_limit true now totals snapshot)
        _ (compact_next-Keeps now totals snapshot) (λ merged. compact_each-Keeps now merged rest) db

  -- A dry run over all inactive projects leaves the database as it was, whatever it returns.
  pub compact_all_inactive-Keeps :
      (as_of : Instant) (db : Db)
      → (compact_all_inactive sha256 casefold failure_signature redact parse is_record fresh days
          source_limit as_of true db).1
        ≡ db
  unfolding compact_all_inactive
  compact_all_inactive-Keeps as_of db =
      bind-Keeps (λ db. db)
        (λ db. (inactive_projects parse is_record days as_of (max_inactive_projects + 1) db, db)) _
        (λ db. refl)
        (λ discovered.
          compact_each-Keeps as_of (run_totals discovered) (take max_inactive_projects discovered))
        db
